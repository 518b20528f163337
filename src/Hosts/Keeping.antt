-- ===== src/Hosts/Keeping.antt =====
-- What every action of apps/desktop/src/store/hosts-store.ts keeps: no id twice, each host in its normal form, no
-- host marked as deleted.
use terminal_workspace.Common.{
  ℕ, ◌+◌, ◌≤◌, ◌≡◌, refl, Bool, true, false, not, Option, List, [], ◌∷◌, ◌++◌, map, if◌then◌else◌,
  Text, ◌===◌, ===_iff, filter, All, All-weaken, arith,
}
use terminal_workspace.Common.Int.{ℤ}
use terminal_workspace.Common.Dict.{count}
use terminal_workspace.Vault.Deletions.{
  VaultDeletionEntry, VaultDeletionMap, VaultSyncEntityKind, select, replace, mark_deleted,
  clear_deleted,
}
use terminal_workspace.Hosts.Types.{HostRecord}
use terminal_workspace.Hosts.Normal.{normalize_host_record, sort_host_collection}
use terminal_workspace.Hosts.Sorting.{sorted-IsNormal, count-sort_host_collection}
use terminal_workspace.Vault.Marking.{remove_deletion_entry-All, upsert_deletion_entry-All}
use terminal_workspace.Hosts.Store.{
  HostsState, update_where, delete_host, delete_host_from_collection,
}

abbrev pub host_ids : List HostRecord → List Text
host_ids = map (λ (h : HostRecord). h.id)

-- No tombstone is of one of the hosts.
abbrev pub IsAlive : List HostRecord → List VaultDeletionEntry → Type 0
IsAlive hs es = All (λ e. count e.id (host_ids hs) ≡ 0) es

module _ (to_lower_case : Text → Text) (collate : Text → Text → Bool) where
  pub record IsKept (s : HostsState) : Type 0 where
    pub once : (p : Text) → count p (host_ids s.hosts) ≤ 1
    pub normal : All (λ h. normalize_host_record to_lower_case h ≡ h) s.hosts
    pub alive : IsAlive s.hosts s.deletions.hosts

  pub count-sorted :
      (p : Text) (hs : List HostRecord)
      → count p (host_ids (sort_host_collection to_lower_case collate hs)) ≡ count p (host_ids hs)
  unfolding normalize_host_record
  count-sorted =
      count-sort_host_collection to_lower_case collate (λ (h : HostRecord). h.id) (λ h. refl)

  -- Sorting hosts whose ids are as they should be gives a state that is kept.
  pub sorted-IsKept :
      (hs : List HostRecord) (deletions : VaultDeletionMap)
      → ((p : Text) → count p (host_ids hs) ≤ 1)
      → IsAlive hs deletions.hosts
      → IsKept
          (record { hosts = sort_host_collection to_lower_case collate hs; deletions = deletions })
  sorted-IsKept hs deletions once alive = record {
    once = λ p. omega (arith, once p, count-sorted p hs);
    normal = sorted-IsNormal to_lower_case collate hs;
    alive = All-weaken _ _ deletions.hosts (λ e h. omega (arith, h, count-sorted e.id hs)) alive;
  }

  count-update_where :
      (test : HostRecord → Bool) (change : HostRecord → HostRecord) (p : Text)
      (hs : List HostRecord)
      → ((h : HostRecord) → (change h).id ≡ h.id)
      → count p (host_ids (update_where test change hs)) ≡ count p (host_ids hs)
  unfolding update_where count
  count-update_where test change p [] same = refl
  count-update_where test change p (h ∷ hs) same =
      rw (kept (test h), count-update_where test change p hs same) refl
    where
      kept : (b : Bool) → (if b then change h else h).id ≡ h.id
      kept true = same h
      kept false = refl

  -- Changing hosts, but not their ids.
  pub update_where-IsKept :
      (test : HostRecord → Bool) (change : HostRecord → HostRecord) (s : HostsState)
      → ((h : HostRecord) → (change h).id ≡ h.id)
      → IsKept s
      → IsKept (record s {
        hosts = sort_host_collection to_lower_case collate (update_where test change s.hosts);
      })
  update_where-IsKept test change s same v =
      sorted-IsKept (update_where test change s.hosts) s.deletions
        (λ p. omega (arith, v.once p, count-update_where test change p s.hosts same))
        (All-weaken _ _ s.deletions.hosts
          (λ e h. omega (arith, h, count-update_where test change e.id s.hosts same)) v.alive)

  count-added :
      (p : Text) (hs : List HostRecord) (new : HostRecord)
      → count p (host_ids (hs ++ new ∷ []))
        ≡ count p (host_ids hs) + (if new.id === p then 1 else 0)
  unfolding count
  count-added p [] new = omega arith
  count-added p (h ∷ hs) new = omega (arith, count-added p hs new)

  -- Adding a host whose id is new clears its tombstone.
  pub added-IsKept :
      (s : HostsState) (new : HostRecord)
      → count new.id (host_ids s.hosts) ≡ 0
      → IsKept s
      → IsKept (record {
        hosts = sort_host_collection to_lower_case collate (s.hosts ++ new ∷ []);
        deletions = clear_deleted collate VaultSyncEntityKind.hosts new.id s.deletions;
      })
  unfolding clear_deleted select replace count
  added-IsKept s new fresh v =
      sorted-IsKept (s.hosts ++ new ∷ [])
        (clear_deleted collate VaultSyncEntityKind.hosts new.id s.deletions)
        (λ p. ground (arith, v.once p, fresh, count-added p s.hosts new, ===_iff new.id p))
        (remove_deletion_entry-All collate _ _ new.id s.deletions.hosts v.alive (λ e h other.
          ground (
            arith,
            h,
            other,
            count-added e.id s.hosts new,
            ===_iff new.id e.id,
            ===_iff e.id new.id,
          )))

  -- Adding a host whose id is new and has no tombstone, and clearing another tombstone.
  pub appended-IsKept :
      (s : HostsState) (new : HostRecord) (i : Text)
      → count new.id (host_ids s.hosts) ≡ 0
      → All (λ e. (e.id === new.id) ≡ false) s.deletions.hosts
      → IsKept s
      → IsKept (record {
        hosts = sort_host_collection to_lower_case collate (s.hosts ++ new ∷ []);
        deletions = clear_deleted collate VaultSyncEntityKind.hosts i s.deletions;
      })
  unfolding clear_deleted select replace count
  appended-IsKept s new i fresh unmarked v =
      sorted-IsKept (s.hosts ++ new ∷ [])
        (clear_deleted collate VaultSyncEntityKind.hosts i s.deletions)
        (λ p. ground (arith, v.once p, fresh, count-added p s.hosts new, ===_iff new.id p))
        (remove_deletion_entry-All collate _ _ i s.deletions.hosts
          (both s.deletions.hosts unmarked v.alive) (λ e h other. h))
    where
      both :
          (es : List VaultDeletionEntry)
          → All (λ e. (e.id === new.id) ≡ false) es
          → IsAlive s.hosts es
          → IsAlive (s.hosts ++ new ∷ []) es
      both [] a b = tt
      both (e ∷ es) a b = (
        ground (
          arith,
          a.0,
          b.0,
          count-added e.id s.hosts new,
          ===_iff new.id e.id,
          ===_iff e.id new.id,
        ),
        both es a.1 b.1,
      )

  pub updated-IsKept :
      (test : HostRecord → Bool) (change : HostRecord → HostRecord) (i : Text) (s : HostsState)
      → ((h : HostRecord) → (change h).id ≡ h.id)
      → IsKept s
      → IsKept (record {
        hosts = sort_host_collection to_lower_case collate (update_where test change s.hosts);
        deletions = clear_deleted collate VaultSyncEntityKind.hosts i s.deletions;
      })
  unfolding clear_deleted select replace
  updated-IsKept test change i s same v =
      sorted-IsKept (update_where test change s.hosts)
        (clear_deleted collate VaultSyncEntityKind.hosts i s.deletions)
        (λ p. omega (arith, v.once p, count-update_where test change p s.hosts same))
        (remove_deletion_entry-All collate _ _ i s.deletions.hosts v.alive
          (λ e h other. omega (arith, h, count-update_where test change e.id s.hosts same)))

  pub count-deleted :
      (p i : Text) (hs : List HostRecord)
      → count p (host_ids (filter (λ (h : HostRecord). not (h.id === i)) hs))
        ≡ (if i === p then 0 else count p (host_ids hs))
  unfolding count
  count-deleted p i [] = ground arith
  count-deleted p i (h ∷ hs) =
      ground (arith, ===_iff h.id i, ===_iff h.id p, ===_iff i p, count-deleted p i hs)

  pub deleted-IsKept :
      (date_parse : Text → Option ℤ) (now : ℕ) (now_text i : Text) (s : HostsState)
      → IsKept s
      → IsKept (delete_host to_lower_case collate date_parse now now_text i s)
  unfolding delete_host delete_host_from_collection mark_deleted select replace
  deleted-IsKept date_parse now now_text i s v =
      sorted-IsKept (filter (λ (h : HostRecord). not (h.id === i)) s.hosts)
        (mark_deleted collate date_parse now VaultSyncEntityKind.hosts i now_text s.deletions)
        (λ p. ground (arith, v.once p, count-deleted p i s.hosts))
        (upsert_deletion_entry-All collate _ _ i s.deletions.hosts date_parse now now_text v.alive
          (λ e h other. ground (arith, h, count-deleted e.id i s.hosts))
          (ground (arith, count-deleted i i s.hosts, ===_iff i i)))
