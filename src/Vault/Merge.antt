-- ===== src/Vault/Merge.antt =====
-- `mergeCollection` of apps/desktop/src/lib/local-config.ts: the records of this device and those of
-- an imported bundle are merged id by id, and a section of the merge plan counts what happened.
use terminal_workspace.Common.{
  ℕ, suc, Option, none, some, List, [], ◌∷◌, ◌++◌, if◌then◌else◌, Text, ◌===◌,
}
use terminal_workspace.Common.Dict.{includes, lookup, insert, keys}
use terminal_workspace.Common.Order.{text_ltb}
use terminal_workspace.Vault.Deletions.{VaultDeletionEntry}

pub data ConflictResolution : Type 0 where
  block : ConflictResolution
  keep_local : ConflictResolution
  prefer_imported : ConflictResolution

pub record LocalConfigMergeSection : Type 0 where
  pub added : ℕ
  pub updated : ℕ
  pub removed : ℕ
  pub retained_local : ℕ
  pub unchanged : ℕ
  pub conflicts : ℕ
  pub conflicting_ids : List Text

unfoldable pub create_empty_merge_section : LocalConfigMergeSection
create_empty_merge_section = record {
  added = 0;
  updated = 0;
  removed = 0;
  retained_local = 0;
  unchanged = 0;
  conflicts = 0;
  conflicting_ids = [];
}

-- `section.conflicts += 1; section.conflictingIds.push(id)`.
unfoldable pub conflict_on : Text → LocalConfigMergeSection → LocalConfigMergeSection
conflict_on i s = record s {
  conflicts = suc (s.conflicts);
  conflicting_ids = s.conflicting_ids ++ i ∷ [];
}

-- `section.added += 1`, and the others.
abbrev pub one_added : LocalConfigMergeSection → LocalConfigMergeSection
one_added s = record s { added = suc (s.added) }

abbrev pub one_updated : LocalConfigMergeSection → LocalConfigMergeSection
one_updated s = record s { updated = suc (s.updated) }

abbrev pub one_retained : LocalConfigMergeSection → LocalConfigMergeSection
one_retained s = record s { retained_local = suc (s.retained_local) }

abbrev pub one_unchanged : LocalConfigMergeSection → LocalConfigMergeSection
one_unchanged s = record s { unchanged = suc (s.unchanged) }

pub record MergeResult (T : Type 0) : Type 0 where
  pub records : List T
  pub tally : LocalConfigMergeSection

-- `mergedRecords.push(record)`, and what the section becomes.
unfoldable pub push :
    {T : Type 0}
    → T
    → (LocalConfigMergeSection → LocalConfigMergeSection)
    → MergeResult T
    → MergeResult T
push r f m = record { records = m.records ++ r ∷ []; tally = f m.tally }

unfoldable pub tallied :
    {T : Type 0}
    → (LocalConfigMergeSection → LocalConfigMergeSection)
    → MergeResult T
    → MergeResult T
tallied f m = record m { tally = f m.tally }

-- `new Set(xs)`.
unfoldable pub set_of : List Text → List Text → List Text
unfolding includes
set_of seen [] = seen
set_of seen (x ∷ xs) = set_of (if includes x seen then seen else seen ++ x ∷ []) xs

unfoldable pub tombstones_by_id :
    List VaultDeletionEntry → List (Text × VaultDeletionEntry) → List (Text × VaultDeletionEntry)
unfolding insert
tombstones_by_id [] m = m
tombstones_by_id (e ∷ es) m = tombstones_by_id es (insert e.id e m)

unfoldable pub resolve {ℓ} : {A : Type ℓ} → ConflictResolution → A → A → A
resolve prefer_imported imported local = imported
resolve block imported local = local
resolve keep_local imported local = local

-- `id` and `updatedAt` of a record, and `stableSerialize` of it.
module _ {T : Type 0} (id_of updated_at : T → Text) (serialize : T → Text) where
  -- `new Map(records.map((record) => [record.id, record]))`.
  unfoldable pub index_by_id : List T → List (Text × T) → List (Text × T)
  unfolding insert
  index_by_id [] m = m
  index_by_id (r ∷ rs) m = index_by_id rs (insert (id_of r) r m)

  -- The record is here only, and the other side has a tombstone of it.
  unfoldable pub merge_deleted :
      ConflictResolution → Text → T → VaultDeletionEntry → MergeResult T → MergeResult T
  unfolding text_ltb push tallied conflict_on resolve
  merge_deleted resolution i local d m =
      if text_ltb (updated_at local) d.deleted_at
      then tallied (λ s. record s { removed = suc (s.removed) }) m
      else if text_ltb d.deleted_at (updated_at local)
      then push local one_retained m
      else resolve resolution
          (tallied (λ s. record (conflict_on i s) { removed = suc (s.removed) }) m)
          (push local (conflict_on i) m)

  -- Both sides have the record.
  unfoldable pub merge_both : ConflictResolution → Text → T → T → MergeResult T → MergeResult T
  unfolding text_ltb ◌===◌ push conflict_on resolve
  merge_both resolution i local imported m =
      if serialize local === serialize imported
      then push local one_unchanged m
      else if text_ltb (updated_at local) (updated_at imported)
      then push imported one_updated m
      else if text_ltb (updated_at imported) (updated_at local)
      then push local one_retained m
      else push (resolve resolution imported local) (conflict_on i) m

  -- The body of the loop over the ids, by what the three maps hold for the id.
  unfoldable pub merge_id :
      ConflictResolution
      → Text
      → Option T
      → Option T
      → Option VaultDeletionEntry
      → MergeResult T
      → MergeResult T
  unfolding merge_deleted merge_both push
  merge_id resolution i none none d m = m
  merge_id resolution i none (some imported) d m = push imported one_added m
  merge_id resolution i (some local) none (some d) m = merge_deleted resolution i local d m
  merge_id resolution i (some local) none none m = push local one_retained m
  merge_id resolution i (some local) (some imported) d m = merge_both resolution i local imported m

  unfoldable pub merge_ids :
      ConflictResolution
      → List (Text × T)
      → List (Text × T)
      → List (Text × VaultDeletionEntry)
      → List Text
      → MergeResult T
      → MergeResult T
  unfolding merge_id lookup
  merge_ids resolution local imported deleted [] m = m
  merge_ids resolution local imported deleted (i ∷ is) m =
      merge_ids resolution local imported deleted is
        (merge_id resolution i (lookup i local) (lookup i imported) (lookup i deleted) m)

  unfoldable pub merge_collection :
      List T
      → List T
      → (List T → List T)
      → List VaultDeletionEntry
      → ConflictResolution
      → MergeResult T
  unfolding index_by_id tombstones_by_id set_of keys merge_ids create_empty_merge_section
  merge_collection local_records imported_records sort_records deletions resolution =
      let local = index_by_id local_records [] in
      let imported = index_by_id imported_records [] in
      let merged =
        merge_ids resolution local imported (tombstones_by_id deletions [])
          (set_of [] (keys local ++ keys imported))
          record { records = []; tally = create_empty_merge_section } in
      record { records = sort_records merged.records; tally = merged.tally }
