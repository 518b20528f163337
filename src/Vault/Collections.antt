-- ===== src/Vault/Collections.antt =====
-- `mergeCollection` of apps/desktop/src/lib/local-config.ts: the records that the two sides' lists
-- merge to.
use terminal_workspace.Common.{
  ◌+◌, ◌≤◌, ◌≡◌, ◌∙◌, ◌⊎◌, ap, List, [], ◌∷◌, ◌++◌, map, if◌then◌else◌, ltb, Text, ===_iff, All,
  arith,
}
use terminal_workspace.Common.Dict.{count, keys, count-append}
use terminal_workspace.Vault.Deletions.{VaultDeletionEntry}
use terminal_workspace.Vault.Merge.{ConflictResolution, set_of, tombstones_by_id, index_by_id}
use terminal_workspace.Vault.MergeLaws.{count-set_of, IsBest, Buried}

pub Given-All :
    (P : Text → Type 0) (is : List Text) → ((i : Text) → 1 ≤ count i is → P i) → All P is
unfolding count
Given-All P [] f = tt
Given-All P (i ∷ is) f =
    (f i (ground (arith, ===_iff i i)), Given-All P is (λ j h. f j (omega (arith, h))))

module _ {T : Type 0} (id_of updated_at : T → Text) (serialize : T → Text)
    (resolution : ConflictResolution) (local_records imported_records : List T)
    (deletions : List VaultDeletionEntry) where
  abbrev pub local : List (Text × T)
  local = index_by_id id_of updated_at serialize local_records []

  abbrev pub imported : List (Text × T)
  imported = index_by_id id_of updated_at serialize imported_records []

  abbrev pub deleted : List (Text × VaultDeletionEntry)
  deleted = tombstones_by_id deletions []

  -- What merging two lists of records gives, by the last record that a side has of each id. Sorting the
  -- records prepares each of them.
  pub record IsMerged (prepare : T → T) (result : List T) : Type 0 where
    -- Each record was prepared from one that a side gave, and no side gave a later one of its id that
    -- serializes differently.
    pub best :
        All
          (λ x.
            (r : T) × IsBest id_of updated_at serialize resolution local imported deleted r
            × (x ≡ prepare r))
          result
    -- One record for each id.
    pub once : (p : Text) → count p (map id_of result) ≤ 1
    -- Each id that a side gave has a record, or only this side gave it and the other side has a
    -- tombstone of it that is not earlier.
    pub kept :
        (p : Text)
        → 1 ≤ count p (keys local) + count p (keys imported)
        → (1 ≤ count p (map id_of result))
          ⊎ Buried id_of updated_at serialize resolution local imported deleted p

  unfoldable pub all_ids : List Text
  all_ids = set_of [] (keys local ++ keys imported)

  pub count-all_ids :
      (p : Text)
      → count p all_ids ≡ (if ltb 0 (count p (keys local) + count p (keys imported)) then 1 else 0)
  unfolding all_ids count
  count-all_ids p =
      count-set_of p [] (keys local ++ keys imported) (omega arith)
      ∙ ap (λ n. if ltb 0 n then 1 else 0)
          (omega (arith, count-append p (keys local) (keys imported)))
