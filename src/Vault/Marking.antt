-- ===== src/Vault/Marking.antt =====
-- What holds of the tombstones after one is cleared or marked (apps/desktop/src/store/vault-sync-store.ts).
use terminal_workspace.Common.{
  ℕ, ◌≡◌, Bool, false, not, Option, List, [], ◌∷◌, inl, inr, Text, ◌===◌, filter, All, All-weaken,
  Bool-cases,
}
use terminal_workspace.Common.Int.{ℤ}
use terminal_workspace.Common.Order.{sort_by-All}
use terminal_workspace.Vault.Deletions.{
  VaultDeletionEntry, upsert_deletion_entry, remove_deletion_entry, sort_deletion_entries,
  compact_deletion_entries,
}
use terminal_workspace.Vault.Compaction.{compact_deletion_entries-All}

All-other :
    (P : VaultDeletionEntry → Type 0) (i : Text) (es : List VaultDeletionEntry)
    → All P es
    → All
        (λ e. P e × ((e.id === i) ≡ false))
        (filter (λ (e : VaultDeletionEntry). not (e.id === i)) es)
All-other P i [] h = tt
All-other P i (e ∷ es) h = elim (Bool-cases (e.id === i)) [
  | inl same ↦ rw same (All-other P i es h.1)
  | inr other ↦ rw other ((h.0, other), All-other P i es h.1)
]

module _ (collate : Text → Text → Bool) (P Q : VaultDeletionEntry → Type 0) (i : Text)
    (es : List VaultDeletionEntry) where
  -- Of the tombstones that have another id.
  pub remove_deletion_entry-All :
      All P es
      → ((e : VaultDeletionEntry) → P e → (e.id === i) ≡ false → Q e)
      → All Q (remove_deletion_entry collate es i)
  unfolding remove_deletion_entry sort_deletion_entries
  remove_deletion_entry-All h others =
      sort_by-All _ Q _ (All-weaken _ Q _ (λ e x. others e x.0 x.1) (All-other P i es h))

  pub upsert_deletion_entry-All :
      (date_parse : Text → Option ℤ) (now : ℕ) (now_text : Text)
      → All P es
      → ((e : VaultDeletionEntry) → P e → (e.id === i) ≡ false → Q e)
      → Q (record { id = i; deleted_at = now_text })
      → All Q (
          compact_deletion_entries collate date_parse now
            (upsert_deletion_entry collate es i now_text))
  unfolding upsert_deletion_entry sort_deletion_entries
  upsert_deletion_entry-All date_parse now now_text h others own =
      compact_deletion_entries-All collate date_parse now Q _ (
        sort_by-All _ Q
          (record { id = i; deleted_at = now_text }
            ∷ filter (λ (e : VaultDeletionEntry). not (e.id === i)) es)
          (own, All-weaken _ Q _ (λ e x. others e x.0 x.1) (All-other P i es h)))
