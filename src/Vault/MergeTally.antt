-- ===== src/Vault/MergeTally.antt =====
-- The section of the merge plan that `mergeCollection` of apps/desktop/src/lib/local-config.ts fills:
-- its counts, and that without conflicts the resolution does not matter.
use terminal_workspace.Common.{
  ℕ, suc, ◌+◌, ◌≤◌, ◌≡◌, ◌≢◌, refl, Option, none, some, List, [], ◌∷◌, inl, inr, Text, ◌===◌,
  length, length-append, All, Bool-cases, arith,
}
use mathlib.Core.Path.{subst}
use terminal_workspace.Common.Dict.{lookup, keys, count, lookup-none-count}
use terminal_workspace.Common.Order.{text_ltb}
use terminal_workspace.Vault.Deletions.{VaultDeletionEntry}
use terminal_workspace.Vault.Merge.{
  ConflictResolution, block, keep_local, prefer_imported, LocalConfigMergeSection, MergeResult,
  one_added, one_updated, one_retained, one_unchanged, conflict_on, push, tallied, resolve,
  merge_deleted, merge_both, merge_id, merge_ids,
}

-- All that a section counts.
abbrev pub total : LocalConfigMergeSection → ℕ
total s = s.added + s.updated + s.removed + s.retained_local + s.unchanged + s.conflicts

plus_zero : (n : ℕ) → n ≡ n + 0
plus_zero n = omega arith

plus_suc : (n k : ℕ) → suc n + k ≡ n + suc k
plus_suc n k = omega arith

-- After some ids, each is a record or was removed, the section counts each once if no conflict
-- removes a record, and it counts the conflicts that it lists.
pub record IsTallied {T : Type 0} (c : ConflictResolution) (n : ℕ) (m : MergeResult T)
    : Type 0 where
  pub held : length m.records + m.tally.removed ≡ n
  pub counted : c ≢ prefer_imported → total m.tally ≡ n
  pub listed : length m.tally.conflicting_ids ≡ m.tally.conflicts

module _ {T : Type 0} (id_of updated_at : T → Text) (serialize : T → Text)
    (c : ConflictResolution) where
  push-IsTallied :
      (r : T) (f : LocalConfigMergeSection → LocalConfigMergeSection) (n : ℕ) (m : MergeResult T)
      → (total (f m.tally) ≡ suc (total m.tally))
        × ((f m.tally).removed ≡ m.tally.removed)
        × (length (f m.tally).conflicting_ids ≡ (f m.tally).conflicts)
      → IsTallied c n m
      → IsTallied c (suc n) (push r f m)
  unfolding push
  push-IsTallied r f n m (one, same, listed) h = record {
    held = omega (arith, h.held, same, length-append m.records (r ∷ []));
    counted = λ no. omega (arith, h.counted no, one);
    listed = listed;
  }

  conflict-IsTallied :
      (r : T) (i : Text) (n : ℕ) (m : MergeResult T)
      → IsTallied c n m
      → IsTallied c (suc n) (push r (conflict_on i) m)
  unfolding conflict_on
  conflict-IsTallied r i n m h =
      push-IsTallied r (conflict_on i) n m
        (omega arith, refl, omega (arith, h.listed, length-append m.tally.conflicting_ids (i ∷ [])))
        h

  resolved-IsTallied :
      (d : ConflictResolution) (l : T) (i : Text) (n : ℕ) (m : MergeResult T)
      → c ≡ d
      → IsTallied c n m
      → IsTallied c (suc n) (
          resolve d
            (tallied (λ s. record (conflict_on i s) { removed = suc (s.removed) }) m)
            (push l (conflict_on i) m))
  unfolding resolve tallied conflict_on
  resolved-IsTallied block l i n m e h = conflict-IsTallied l i n m h
  resolved-IsTallied keep_local l i n m e h = conflict-IsTallied l i n m h
  resolved-IsTallied prefer_imported l i n m e h = record {
    held = omega (arith, h.held);
    counted = λ no. absurd (no e);
    listed = omega (arith, h.listed, length-append m.tally.conflicting_ids (i ∷ []));
  }

  merge_deleted-IsTallied :
      (i : Text) (l : T) (d : VaultDeletionEntry) (n : ℕ) (m : MergeResult T)
      → IsTallied c n m
      → IsTallied c (suc n) (merge_deleted id_of updated_at serialize c i l d m)
  unfolding merge_deleted tallied
  merge_deleted-IsTallied i l d n m h = elim (Bool-cases (text_ltb (updated_at l) d.deleted_at)) [
    | inl older ↦ rw older record {
      held = omega (arith, h.held);
      counted = λ no. omega (arith, h.counted no);
      listed = h.listed;
    }
    | inr later ↦ elim (Bool-cases (text_ltb d.deleted_at (updated_at l))) [
      | inl newer ↦
          rw (later, newer) (push-IsTallied l one_retained n m (omega arith, refl, h.listed) h)
      | inr even ↦ rw (later, even) (resolved-IsTallied c l i n m refl h)
    ]
  ]

  merge_both-IsTallied :
      (i : Text) (l x : T) (n : ℕ) (m : MergeResult T)
      → IsTallied c n m
      → IsTallied c (suc n) (merge_both id_of updated_at serialize c i l x m)
  unfolding merge_both
  merge_both-IsTallied i l x n m h = elim (Bool-cases (serialize l === serialize x)) [
    | inl same ↦ rw same (push-IsTallied l one_unchanged n m (omega arith, refl, h.listed) h)
    | inr changed ↦ elim (Bool-cases (text_ltb (updated_at l) (updated_at x))) [
      | inl older ↦
          rw (changed, older) (push-IsTallied x one_updated n m (omega arith, refl, h.listed) h)
      | inr later ↦ elim (Bool-cases (text_ltb (updated_at x) (updated_at l))) [
        | inl newer ↦
            rw (changed, later, newer)
              (push-IsTallied l one_retained n m (omega arith, refl, h.listed) h)
        | inr even ↦ rw (changed, later, even) (conflict-IsTallied _ i n m h)
      ]
    ]
  ]

  -- A round for an id that a side has.
  merge_id-IsTallied :
      (i : Text) (l x : Option T) (d : Option VaultDeletionEntry) (n : ℕ) (m : MergeResult T)
      → (l ≡ none → x ≢ none)
      → IsTallied c n m
      → IsTallied c (suc n) (merge_id id_of updated_at serialize c i l x d m)
  unfolding merge_id
  merge_id-IsTallied i none none d n m some_side h = absurd (some_side refl refl)
  merge_id-IsTallied i none (some x) d n m some_side h =
      push-IsTallied x one_added n m (omega arith, refl, h.listed) h
  merge_id-IsTallied i (some l) none none n m some_side h =
      push-IsTallied l one_retained n m (omega arith, refl, h.listed) h
  merge_id-IsTallied i (some l) none (some d) n m some_side h = merge_deleted-IsTallied i l d n m h
  merge_id-IsTallied i (some l) (some x) d n m some_side h = merge_both-IsTallied i l x n m h

  pub merge_ids-IsTallied :
      (local imported : List (Text × T)) (deleted : List (Text × VaultDeletionEntry))
      (is : List Text) (n : ℕ) (m : MergeResult T)
      → All (λ i. 1 ≤ count i (keys local) + count i (keys imported)) is
      → IsTallied c n m
      → IsTallied c
          (n + length is)
          (merge_ids id_of updated_at serialize c local imported deleted is m)
  unfolding merge_ids
  merge_ids-IsTallied local imported deleted [] n m given h =
      subst (λ k. IsTallied c k m) (plus_zero n) h
  merge_ids-IsTallied local imported deleted (i ∷ is) n m given h =
      subst
        (λ k.
          IsTallied c k (merge_ids id_of updated_at serialize c local imported deleted (i ∷ is) m))
        (plus_suc n (length is))
        (merge_ids-IsTallied local imported deleted is (suc n)
          (merge_id id_of updated_at serialize c i (lookup i local) (lookup i imported)
            (lookup i deleted) m)
          given.1
          (merge_id-IsTallied i (lookup i local) (lookup i imported) (lookup i deleted) n m
            (λ absent missing. absurd (
              ground (
                arith,
                given.0,
                lookup-none-count i local absent,
                lookup-none-count i imported missing,
              )))
            h))
