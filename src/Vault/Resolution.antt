-- ===== src/Vault/Resolution.antt =====
-- `mergeCollection` of apps/desktop/src/lib/local-config.ts: the counts of the section that it
-- returns, and the conflict resolution, which the code passes only when the preview had conflicts.
use terminal_workspace.Common.{
  suc, ◌+◌, ◌≤◌, ◌≡◌, ◌∙◌, refl, ap, Option, none, some, List, [], ◌∷◌, inl, inr, Text, ◌===◌,
  length, Bool-cases, arith,
}
use terminal_workspace.Common.Dict.{lookup}
use terminal_workspace.Common.Order.{text_ltb}
use terminal_workspace.Vault.Deletions.{VaultDeletionEntry}
use terminal_workspace.Vault.Merge.{
  ConflictResolution, block, keep_local, prefer_imported, MergeResult, create_empty_merge_section,
  conflict_on, push, tallied, resolve, tombstones_by_id, index_by_id, merge_deleted, merge_both,
  merge_id, merge_ids, merge_collection,
}
use terminal_workspace.Vault.MergeTally.{IsTallied, merge_ids-IsTallied}
use terminal_workspace.Vault.Collections.{local, imported, all_ids, count-all_ids, Given-All}

module _ {T : Type 0} (id_of updated_at : T → Text) (serialize : T → Text) where
  -- Each id of a side is a record of the result or counted as removed; the section counts each once,
  -- if no conflict is resolved for the imported side, and lists as many conflicts as it counts.
  pub merge_collection-IsTallied :
      (c : ConflictResolution) (local_records imported_records : List T)
      (deletions : List VaultDeletionEntry) (sort_records : List T → List T)
      → ((rs : List T) → length (sort_records rs) ≡ length rs)
      → IsTallied c
          (length (all_ids id_of updated_at serialize c local_records imported_records deletions))
          (merge_collection id_of updated_at serialize local_records imported_records sort_records
            deletions c)
  unfolding merge_collection all_ids create_empty_merge_section
  merge_collection-IsTallied c local_records imported_records deletions sort_records sorted =
      record {
        held = omega (arith, h.held, sorted merged.records);
        counted = λ no. omega (arith, h.counted no);
        listed = h.listed;
      }
    where
      ids : List Text
      ids = all_ids id_of updated_at serialize c local_records imported_records deletions

      merged : MergeResult T
      merged =
          merge_ids id_of updated_at serialize c
            (index_by_id id_of updated_at serialize local_records [])
            (index_by_id id_of updated_at serialize imported_records [])
            (tombstones_by_id deletions []) ids
            record { records = []; tally = create_empty_merge_section }

      h : IsTallied c (0 + length ids) merged
      h =
          merge_ids-IsTallied id_of updated_at serialize c _ _ _ ids 0
            record { records = []; tally = create_empty_merge_section }
            (Given-All _ ids (λ i present. ground (
              arith,
              present,
              count-all_ids id_of updated_at serialize c local_records imported_records deletions i,
            )))
            record { held = omega arith; counted = λ no. omega arith; listed = refl }

  -- What a round does to the number of conflicts: it grows, or the resolution does not matter.
  abbrev IsSettled : MergeResult T → (ConflictResolution → MergeResult T) → Type 0
  IsSettled m f =
      (c d : ConflictResolution)
      → (m.tally.conflicts ≤ (f c).tally.conflicts)
        × ((f c).tally.conflicts ≡ m.tally.conflicts → f c ≡ f d)

  IsSettled-same :
      (m n : MergeResult T) → n.tally.conflicts ≡ m.tally.conflicts → IsSettled m (λ c. n)
  IsSettled-same m n e c d = (omega (arith, e), λ h. refl)

  IsSettled-conflict :
      (m : MergeResult T) (f : ConflictResolution → MergeResult T)
      → ((c : ConflictResolution) → (f c).tally.conflicts ≡ suc (m.tally.conflicts))
      → IsSettled m f
  IsSettled-conflict m f more c d = (omega (arith, more c), λ h. absurd (omega (arith, h, more c)))

  IsSettled-then :
      (m : MergeResult T) (f : ConflictResolution → MergeResult T)
      (g : ConflictResolution → MergeResult T → MergeResult T)
      → IsSettled m f
      → ((n : MergeResult T) → IsSettled n (λ c. g c n))
      → IsSettled m (λ c. g c (f c))
  IsSettled-then m f g first then_all c d = (
    omega (arith, (first c d).0, (then_all (f c) c d).0),
    λ h.
        (then_all (f c) c d).1 (omega (arith, h, (first c d).0, (then_all (f c) c d).0))
        ∙ ap (g d) ((first c d).1 (omega (arith, h, (first c d).0, (then_all (f c) c d).0))),
  )

  merge_deleted-IsSettled :
      (i : Text) (l : T) (e : VaultDeletionEntry) (m : MergeResult T)
      → IsSettled m (λ c. merge_deleted id_of updated_at serialize c i l e m)
  unfolding merge_deleted push tallied conflict_on resolve
  merge_deleted-IsSettled i l e m = elim (Bool-cases (text_ltb (updated_at l) e.deleted_at)) [
    | inl older ↦ rw older (IsSettled-same m _ refl)
    | inr later ↦ elim (Bool-cases (text_ltb e.deleted_at (updated_at l))) [
      | inl newer ↦ rw (later, newer) (IsSettled-same m _ refl)
      | inr even ↦ rw (later, even) (IsSettled-conflict m _ more)
    ]
  ]
    where
      more :
          (c : ConflictResolution)
          → (resolve c
              (tallied (λ s. record (conflict_on i s) { removed = suc (s.removed) }) m)
              (push l (conflict_on i) m)).tally.conflicts
            ≡ suc (m.tally.conflicts)
      more prefer_imported = refl
      more block = refl
      more keep_local = refl

  merge_both-IsSettled :
      (i : Text) (l x : T) (m : MergeResult T)
      → IsSettled m (λ c. merge_both id_of updated_at serialize c i l x m)
  unfolding merge_both push conflict_on
  merge_both-IsSettled i l x m = elim (Bool-cases (serialize l === serialize x)) [
    | inl same ↦ rw same (IsSettled-same m _ refl)
    | inr changed ↦ elim (Bool-cases (text_ltb (updated_at l) (updated_at x))) [
      | inl older ↦ rw (changed, older) (IsSettled-same m _ refl)
      | inr later ↦ elim (Bool-cases (text_ltb (updated_at x) (updated_at l))) [
        | inl newer ↦ rw (changed, later, newer) (IsSettled-same m _ refl)
        | inr even ↦ rw (changed, later, even) (IsSettled-conflict m _ (λ c. refl))
      ]
    ]
  ]

  merge_id-IsSettled :
      (i : Text) (l x : Option T) (e : Option VaultDeletionEntry) (m : MergeResult T)
      → IsSettled m (λ c. merge_id id_of updated_at serialize c i l x e m)
  unfolding merge_id push
  merge_id-IsSettled i none none e m = IsSettled-same m m refl
  merge_id-IsSettled i none (some x) e m = IsSettled-same m _ refl
  merge_id-IsSettled i (some l) none none m = IsSettled-same m _ refl
  merge_id-IsSettled i (some l) none (some e) m = merge_deleted-IsSettled i l e m
  merge_id-IsSettled i (some l) (some x) e m = merge_both-IsSettled i l x m

  merge_ids-IsSettled :
      (ls xs : List (Text × T)) (es : List (Text × VaultDeletionEntry)) (is : List Text)
      (m : MergeResult T)
      → IsSettled m (λ c. merge_ids id_of updated_at serialize c ls xs es is m)
  unfolding merge_ids
  merge_ids-IsSettled ls xs es [] m = IsSettled-same m m refl
  merge_ids-IsSettled ls xs es (i ∷ is) m =
      IsSettled-then m
        (λ c. merge_id id_of updated_at serialize c i (lookup i ls) (lookup i xs) (lookup i es) m)
        (λ c n. merge_ids id_of updated_at serialize c ls xs es is n)
        (merge_id-IsSettled i (lookup i ls) (lookup i xs) (lookup i es) m)
        (merge_ids-IsSettled ls xs es is)

  -- If merging under one resolution counts no conflict, merging under another gives the same.
  pub merge_collection-resolution :
      (c d : ConflictResolution) (local_records imported_records : List T)
      (deletions : List VaultDeletionEntry) (sort_records : List T → List T)
      → (merge_collection id_of updated_at serialize local_records imported_records sort_records
          deletions c).tally.conflicts
        ≡ 0
      → merge_collection id_of updated_at serialize local_records imported_records sort_records
          deletions c
        ≡ merge_collection id_of updated_at serialize local_records imported_records sort_records
            deletions d
  unfolding merge_collection create_empty_merge_section all_ids
  merge_collection-resolution c d local_records imported_records deletions sort_records none_found =
      ap (λ (m : MergeResult T). record { records = sort_records m.records; tally = m.tally })
        ((merge_ids-IsSettled
            (local id_of updated_at serialize c local_records imported_records deletions)
            (imported id_of updated_at serialize c local_records imported_records deletions)
            (tombstones_by_id deletions [])
            (all_ids id_of updated_at serialize c local_records imported_records deletions)
            record { records = []; tally = create_empty_merge_section } c d).1
          none_found)
