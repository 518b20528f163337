-- ===== src/Vault/MergeSteps.antt =====
-- One round of the loop of `mergeCollection` of apps/desktop/src/lib/local-config.ts: the record that
-- it pushes, or why it pushes none, and what it adds to the section.
use terminal_workspace.Common.{
  suc, ◌+◌, ◌≤◌, ◌≡◌, ◌⊎◌, refl, false, Option, none, some, List, [], ◌∷◌, ◌++◌, inl, inr, Text,
  ◌===◌, ===_iff, All, Bool-cases, Option-cases, arith,
}
use terminal_workspace.Common.Dict.{count, lookup, keys, lookup-none-count, All-lookup}
use terminal_workspace.Common.Order.{text_ltb, text_ltb_irrefl, text_ltb_asym}
use terminal_workspace.Vault.Deletions.{VaultDeletionEntry}
use terminal_workspace.Vault.Merge.{
  ConflictResolution, block, keep_local, prefer_imported, MergeResult, conflict_on, push, tallied,
  resolve, merge_deleted, merge_both, merge_id,
}

module _ {T : Type 0} (id_of updated_at : T → Text) (serialize : T → Text)
    (resolution : ConflictResolution) (local imported : List (Text × T))
    (deleted : List (Text × VaultDeletionEntry)) where
  abbrev pub IsNotOlder : T → Option T → Type 0
  IsNotOlder r none = Unit
  IsNotOlder r (some x) =
      (text_ltb (updated_at r) (updated_at x) ≡ false) ⊎ (serialize r ≡ serialize x)

  -- The record of a side for an id, and no side has a later one that serializes differently.
  pub record IsNewest (i : Text) (r : T) : Type 0 where
    pub own : id_of r ≡ i
    pub given : (lookup i local ≡ some r) ⊎ (lookup i imported ≡ some r)
    pub not_older : IsNotOlder r (lookup i local) × IsNotOlder r (lookup i imported)

  -- A record of this side only, for which the other side has a tombstone that is not earlier.
  pub record IsLost (i : Text) : Type 0 where
    pub not_imported : lookup i imported ≡ none
    pub buried :
        (l : T) × (d : VaultDeletionEntry) × (lookup i local ≡ some l)
        × (lookup i deleted ≡ some d)
        × (text_ltb d.deleted_at (updated_at l) ≡ false)

  abbrev pub StepOf : Text → MergeResult T → MergeResult T → Type 0
  StepOf i m n =
      ((r : T) × IsNewest i r × (n.records ≡ m.records ++ r ∷ []))
      ⊎ (IsLost i × (n.records ≡ m.records))

  merge_deleted-StepOf :
      (i : Text) (l : T) (d : VaultDeletionEntry) (m : MergeResult T)
      → id_of l ≡ i
      → lookup i local ≡ some l
      → lookup i imported ≡ none
      → lookup i deleted ≡ some d
      → StepOf i m (merge_deleted id_of updated_at serialize resolution i l d m)
  unfolding merge_deleted push tallied resolve
  merge_deleted-StepOf i l d m own here missing buried =
      elim (Bool-cases (text_ltb (updated_at l) d.deleted_at)) [
        | inl older ↦ rw older (inr (lost (text_ltb_asym (updated_at l) d.deleted_at older), refl))
        | inr kept ↦ elim (Bool-cases (text_ltb d.deleted_at (updated_at l))) [
          | inl newer ↦ rw (kept, newer) (inl (l, newest, refl))
          | inr same ↦ rw (kept, same) (resolved resolution (lost same))
        ]
      ]
    where
      newest : IsNewest i l
      newest = record {
        own = own;
        given = inl here;
        not_older = (rw here (inl (text_ltb_irrefl (updated_at l))), rw missing tt);
      }

      lost : text_ltb d.deleted_at (updated_at l) ≡ false → IsLost i
      lost h = record { not_imported = missing; buried = (l, d, here, buried, h) }

      resolved :
          (c : ConflictResolution)
          → IsLost i
          → StepOf i m (
              resolve c
                (tallied (λ s. record (conflict_on i s) { removed = suc (s.removed) }) m)
                (push l (conflict_on i) m))
      resolved prefer_imported h = inr (h, refl)
      resolved block h = inl (l, newest, refl)
      resolved keep_local h = inl (l, newest, refl)

  merge_both-StepOf :
      (i : Text) (l x : T) (m : MergeResult T)
      → id_of l ≡ i
      → id_of x ≡ i
      → lookup i local ≡ some l
      → lookup i imported ≡ some x
      → StepOf i m (merge_both id_of updated_at serialize resolution i l x m)
  unfolding merge_both push resolve
  merge_both-StepOf i l x m own_l own_x here there =
      elim (Bool-cases (serialize l === serialize x)) [
        | inl same ↦
            rw same (inl (l, newest_l (inr ((===_iff (serialize l) (serialize x)).0 same)), refl))
        | inr changed ↦ elim (Bool-cases (text_ltb (updated_at l) (updated_at x))) [
          | inl older ↦
              rw (changed, older)
                (inl (x, newest_x (inl (text_ltb_asym (updated_at l) (updated_at x) older)), refl))
          | inr not_older ↦ elim (Bool-cases (text_ltb (updated_at x) (updated_at l))) [
            | inl newer ↦ rw (changed, not_older, newer) (inl (l, newest_l (inl not_older), refl))
            | inr even ↦ rw (changed, not_older, even) (inl (resolved resolution not_older even))
          ]
        ]
      ]
    where
      newest_l :
          (text_ltb (updated_at l) (updated_at x) ≡ false) ⊎ (serialize l ≡ serialize x)
          → IsNewest i l
      newest_l h = record {
        own = own_l;
        given = inl here;
        not_older = (rw here (inl (text_ltb_irrefl (updated_at l))), rw there h);
      }

      newest_x :
          (text_ltb (updated_at x) (updated_at l) ≡ false) ⊎ (serialize x ≡ serialize l)
          → IsNewest i x
      newest_x h = record {
        own = own_x;
        given = inr there;
        not_older = (rw here h, rw there (inl (text_ltb_irrefl (updated_at x))));
      }

      resolved :
          (c : ConflictResolution)
          → text_ltb (updated_at l) (updated_at x) ≡ false
          → text_ltb (updated_at x) (updated_at l) ≡ false
          → (r : T) × IsNewest i r
            × ((push (resolve c x l) (conflict_on i) m).records ≡ m.records ++ r ∷ [])
      resolved prefer_imported h k = (x, newest_x (inl k), refl)
      resolved block h k = (l, newest_l (inl h), refl)
      resolved keep_local h k = (l, newest_l (inl h), refl)

  -- Each entry stands under its own id.
  abbrev pub IsKeyed : List (Text × T) → Type 0
  IsKeyed = All (λ (kv : Text × T). id_of kv.1 ≡ kv.0)

  pub merge_id-StepOf :
      (i : Text) (m : MergeResult T)
      → IsKeyed local
      → IsKeyed imported
      → 1 ≤ count i (keys local) + count i (keys imported)
      → StepOf i m (
          merge_id id_of updated_at serialize resolution i
            (lookup i local)
            (lookup i imported)
            (lookup i deleted)
            m)
  unfolding merge_id push
  merge_id-StepOf i m keyed_l keyed_x present = elim (Option-cases (lookup i local)) [
    | inl absent ↦ elim (Option-cases (lookup i imported)) [
      | inl missing ↦
          ground
            (arith, present, lookup-none-count i local absent, lookup-none-count i imported missing)
      | inr (x, there) ↦
          rw (absent, there)
            (inl (
              x,
              record {
                own = All-lookup _ i imported x keyed_x there;
                given = inr there;
                not_older = (rw absent tt, rw there (inl (text_ltb_irrefl (updated_at x))));
              },
              refl,
            ))
    ]
    | inr (l, here) ↦
        let own : id_of l ≡ i = All-lookup _ i local l keyed_l here in
        elim (Option-cases (lookup i imported)) [
          | inr (x, there) ↦
              rw (here, there)
                (merge_both-StepOf i l x m own (All-lookup _ i imported x keyed_x there) here there)
          | inl missing ↦ elim (Option-cases (lookup i deleted)) [
            | inr (d, buried) ↦
                rw (here, missing, buried) (merge_deleted-StepOf i l d m own here missing buried)
            | inl free ↦
                rw (here, missing, free)
                  (inl (
                    l,
                    record {
                      own = own;
                      given = inl here;
                      not_older = (rw here (inl (text_ltb_irrefl (updated_at l))), rw missing tt);
                    },
                    refl,
                  ))
          ]
        ]
  ]
