-- ===== src/Vault/Tombstones.antt =====
-- `mergeDeletionEntries` of apps/desktop/src/lib/local-config.ts: no tombstone of either side is lost
-- or weakened, and none stays for a record that survives.
use terminal_workspace.Common.{
  ◌≤◌, ◌≡◌, refl, Bool, false, not, List, [], ◌∷◌, ◌++◌, inl, inr, Text, All, All-weaken,
  Bool-cases, arith, ltb,
}
use terminal_workspace.Common.Dict.{count, includes, keys}
use terminal_workspace.Common.Order.{sort_by-All}
use terminal_workspace.Vault.Deletions.{
  VaultDeletionEntry, keep_latest, merged_by_id, merge_deletion_entries,
}
use terminal_workspace.Vault.Gather.{
  ids, Entries, IsIndex, gather, gather-IsIndex, gather-Covers, gather-absent, values-found,
}
use terminal_workspace.Vault.Compaction.{IsKept, All-trivial, count-sorted, found-IsKept}

module _ (collate : Text → Text → Bool) (surviving : List Text) where
  is_gone : VaultDeletionEntry → Bool
  is_gone e = not (includes e.id surviving)

  merged_by_id-gather :
      (es : List VaultDeletionEntry) (m : Entries)
      → merged_by_id collate surviving es m ≡ gather is_gone es m
  unfolding merged_by_id gather is_gone
  merged_by_id-gather [] m = refl
  merged_by_id-gather (e ∷ es) m = elim (Bool-cases (includes e.id surviving)) [
    | inl stays ↦ rw stays (merged_by_id-gather es m)
    | inr gone ↦ rw gone (merged_by_id-gather es (keep_latest e m))
  ]

  gone_by_id : List VaultDeletionEntry → Entries
  gone_by_id es = gather is_gone es []

  gone_by_id-IsIndex :
      (es : List VaultDeletionEntry)
      → IsIndex (λ e. includes e.id surviving ≡ false) (gone_by_id es)
  unfolding gone_by_id count keys is_gone
  gone_by_id-IsIndex es =
      gather-IsIndex is_gone _ es [] (All-trivial es (λ e h. ground (arith, h)))
        record { entries = tt; distinct = λ p. omega arith }

  -- What merging the tombstones of the two sides gives.
  pub record IsMergedDeletions (es result : List VaultDeletionEntry) : Type 0 where
    -- One tombstone for each id.
    pub once : (p : Text) → count p (ids result) ≤ 1
    -- None for an id that has none on a side.
    pub known : (p : Text) → 1 ≤ count p (ids result) → 1 ≤ count p (ids es)
    -- None for a record that survives.
    pub gone : All (λ e. includes e.id surviving ≡ false) result
    -- For each other id of a given tombstone there is one, and it is not earlier.
    pub kept :
        All
          (λ e. includes e.id surviving ≡ false → IsKept result e × (1 ≤ count e.id (ids result)))
          es

  -- Each id that does not survive and has a tombstone on a side keeps one, at least as late as every
  -- tombstone that either side has for it; no other id has one.
  pub merge_deletion_entries-IsMergedDeletions :
      (local imported : List VaultDeletionEntry)
      → IsMergedDeletions
          (local ++ imported)
          (merge_deletion_entries collate local imported surviving)
  unfolding merge_deletion_entries is_gone gone_by_id count keys
  merge_deletion_entries-IsMergedDeletions local imported =
      rw (merged_by_id-gather (local ++ imported) []) record {
        once = λ p. omega (arith, count-sorted collate _ p by_id index, index.distinct p);
        known = λ p h. elim (Bool-cases (ltb 0 (count p (ids (local ++ imported))))) [
          | inl there ↦ ground (arith, there)
          | inr missing ↦ ground (
            arith,
            h,
            count-sorted collate _ p by_id index,
            gather-absent is_gone p (local ++ imported) [] (ground (arith, missing)) refl,
          )
        ];
        gone =
            sort_by-All _ _ _ (All-weaken _ _ _ (λ x found. found.1) (values-found _ by_id index));
        kept =
            All-weaken _ _ (local ++ imported)
              (λ e covers gone.
                found-IsKept collate _ e by_id index (covers (ground (arith, gone))))
              (gather-Covers is_gone (local ++ imported) []);
      }
    where
      by_id : Entries
      by_id = gone_by_id (local ++ imported)

      index : IsIndex (λ e. includes e.id surviving ≡ false) by_id
      index = gone_by_id-IsIndex (local ++ imported)
