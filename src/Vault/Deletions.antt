-- ===== src/Vault/Deletions.antt =====
-- The tombstones of apps/desktop/src/store/vault-sync-store.ts, and the merging of two lists of them
-- in apps/desktop/src/lib/local-config.ts. `Date.parse` and the collation of `localeCompare` are
-- parameters: `date_parse` returns none for NaN, and `collate a b` is `a.localeCompare(b) <= 0`.
use terminal_workspace.Common.{
  ℕ, suc, ◌+◌, ◌*◌, Bool, true, false, not, ◌&&◌, Option, none, some, List, [], ◌∷◌, ◌++◌,
  if◌then◌else◌, Text, ◌===◌, is_empty, ltb, filter, take,
}
use terminal_workspace.Common.Int.{ℤ, pos, negsuc}
use terminal_workspace.Common.Dict.{includes, lookup, insert, values}
use terminal_workspace.Common.Order.{text_ltb, sort_by}

pub data VaultSyncEntityKind : Type 0 where
  hosts : VaultSyncEntityKind
  keys : VaultSyncEntityKind
  snippets : VaultSyncEntityKind
  known_hosts : VaultSyncEntityKind
  identities : VaultSyncEntityKind

pub record VaultDeletionEntry : Type 0 where
  pub id : Text
  pub deleted_at : Text

pub record VaultDeletionMap : Type 0 where
  pub hosts : List VaultDeletionEntry
  pub keys : List VaultDeletionEntry
  pub snippets : List VaultDeletionEntry
  pub known_hosts : List VaultDeletionEntry
  pub identities : List VaultDeletionEntry

abbrev pub tombstone_retention_ms : ℕ
tombstone_retention_ms = 90 * 24 * 60 * 60 * 1000

abbrev pub tombstone_max_entries : ℕ
tombstone_max_entries = 256

-- `!(deletedAtMs < now - VAULT_TOMBSTONE_RETENTION_MS)`, for times in milliseconds since 1970.
unfoldable pub is_retained : ℕ → ℤ → Bool
is_retained now (pos ms) = not (ltb (ms + tombstone_retention_ms) now)
is_retained now (negsuc ms) = not (ltb tombstone_retention_ms (now + suc ms))

unfoldable pub is_current : ℕ → Option ℤ → Bool
unfolding is_retained
is_current now none = false
is_current now (some ms) = is_retained now ms

-- `!existing || entry.deletedAt > existing.deletedAt`.
unfoldable pub supersedes : VaultDeletionEntry → Option VaultDeletionEntry → Bool
unfolding text_ltb
supersedes e none = true
supersedes e (some existing) = text_ltb existing.deleted_at e.deleted_at

unfoldable pub keep_latest :
    VaultDeletionEntry → List (Text × VaultDeletionEntry) → List (Text × VaultDeletionEntry)
unfolding supersedes lookup insert
keep_latest e m = if supersedes e (lookup e.id m) then insert e.id e m else m

unfoldable pub select : VaultSyncEntityKind → VaultDeletionMap → List VaultDeletionEntry
select hosts m = m.hosts
select keys m = m.keys
select snippets m = m.snippets
select known_hosts m = m.known_hosts
select identities m = m.identities

-- `{ ...m, [kind]: es }`.
unfoldable pub replace :
    VaultSyncEntityKind → List VaultDeletionEntry → VaultDeletionMap → VaultDeletionMap
replace hosts es m = record m { hosts = es }
replace keys es m = record m { keys = es }
replace snippets es m = record m { snippets = es }
replace known_hosts es m = record m { known_hosts = es }
replace identities es m = record m { identities = es }

unfoldable pub empty_deletion_map : VaultDeletionMap
empty_deletion_map = record {
  hosts = [];
  keys = [];
  snippets = [];
  known_hosts = [];
  identities = [];
}

module _ (collate : Text → Text → Bool) where
  -- The comparator is `right.deletedAt.localeCompare(left.deletedAt)`.
  abbrev pub newest_first : VaultDeletionEntry → VaultDeletionEntry → Bool
  newest_first left right = collate right.deleted_at left.deleted_at

  unfoldable pub sort_deletion_entries : List VaultDeletionEntry → List VaultDeletionEntry
  unfolding sort_by
  sort_deletion_entries = sort_by newest_first

  unfoldable pub upsert_deletion_entry :
      List VaultDeletionEntry → Text → Text → List VaultDeletionEntry
  unfolding ◌===◌ sort_deletion_entries
  upsert_deletion_entry es i at = sort_deletion_entries (
      record { id = i; deleted_at = at } ∷ filter (λ (e : VaultDeletionEntry). not (e.id === i)) es)

  unfoldable pub remove_deletion_entry : List VaultDeletionEntry → Text → List VaultDeletionEntry
  unfolding ◌===◌ sort_deletion_entries
  remove_deletion_entry es i =
      sort_deletion_entries (filter (λ (e : VaultDeletionEntry). not (e.id === i)) es)

  -- The tombstones of both sides, the later one of each id, without those of ids that survive.
  unfoldable pub merged_by_id :
      List Text
      → List VaultDeletionEntry
      → List (Text × VaultDeletionEntry)
      → List (Text × VaultDeletionEntry)
  unfolding includes keep_latest
  merged_by_id surviving [] m = m
  merged_by_id surviving (e ∷ es) m =
      merged_by_id surviving es (if includes e.id surviving then m else keep_latest e m)

  unfoldable pub merge_deletion_entries :
      List VaultDeletionEntry → List VaultDeletionEntry → List Text → List VaultDeletionEntry
  unfolding sort_by merged_by_id values
  merge_deletion_entries local imported surviving =
      sort_by newest_first (values (merged_by_id surviving (local ++ imported) []))

  unfoldable pub clear_deleted : VaultSyncEntityKind → Text → VaultDeletionMap → VaultDeletionMap
  unfolding select replace remove_deletion_entry
  clear_deleted kind i m = replace kind (remove_deletion_entry (select kind m) i) m

  module _ (date_parse : Text → Option ℤ) where
    -- The tests that let an entry into the map.
    unfoldable pub is_live : ℕ → VaultDeletionEntry → Bool
    unfolding is_current
    is_live now e =
        not (is_empty e.id)
        && not (is_empty e.deleted_at)
        && is_current now (date_parse e.deleted_at)

    unfoldable pub latest_by_id :
        ℕ
        → List VaultDeletionEntry
        → List (Text × VaultDeletionEntry)
        → List (Text × VaultDeletionEntry)
    unfolding is_live keep_latest
    latest_by_id now [] m = m
    latest_by_id now (e ∷ es) m = latest_by_id now es (if is_live now e then keep_latest e m else m)

    unfoldable pub compact_deletion_entries : ℕ → List VaultDeletionEntry → List VaultDeletionEntry
    unfolding latest_by_id sort_deletion_entries values
    compact_deletion_entries now es =
        take tombstone_max_entries (sort_deletion_entries (values (latest_by_id now es [])))

    unfoldable pub compact_deletion_map : ℕ → VaultDeletionMap → VaultDeletionMap
    unfolding compact_deletion_entries
    compact_deletion_map now m = record {
      hosts = compact_deletion_entries now m.hosts;
      keys = compact_deletion_entries now m.keys;
      snippets = compact_deletion_entries now m.snippets;
      known_hosts = compact_deletion_entries now m.known_hosts;
      identities = compact_deletion_entries now m.identities;
    }

    -- `markDeleted`, at the time `now` of the compaction.
    unfoldable pub mark_deleted :
        ℕ → VaultSyncEntityKind → Text → Text → VaultDeletionMap → VaultDeletionMap
    unfolding select replace compact_deletion_entries upsert_deletion_entry
    mark_deleted now kind i at m =
        replace kind (compact_deletion_entries now (upsert_deletion_entry (select kind m) i at)) m

    unfoldable pub replace_deletions : ℕ → VaultDeletionMap → VaultDeletionMap
    unfolding compact_deletion_map
    replace_deletions now m = compact_deletion_map now m

    -- What `partialize` stores.
    unfoldable pub stored_deletions : ℕ → VaultDeletionMap → VaultDeletionMap
    unfolding compact_deletion_map
    stored_deletions now m = compact_deletion_map now m
