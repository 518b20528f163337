-- ===== src/Vault/MergeLaws.antt =====
-- `mergeCollection` of apps/desktop/src/lib/local-config.ts: what the merged collection holds, and how
-- the section counts it.
use terminal_workspace.Common.{
  ◌+◌, ◌≤◌, ◌≡◌, ◌∙◌, ◌⊎◌, sym, ap, List, [], ◌∷◌, ◌++◌, map, inl, inr, if◌then◌else◌, ltb, Text,
  ◌===◌, ===_iff, All, All-append, Bool-cases, arith,
}
use mathlib.Core.Path.{subst}
use terminal_workspace.Common.Dict.{
  count, includes, insert, lookup, keys, count-append, includes-count, count-includes, All-insert,
}
use terminal_workspace.Vault.Deletions.{VaultDeletionEntry}
use terminal_workspace.Vault.Merge.{
  ConflictResolution, MergeResult, set_of, index_by_id, merge_id, merge_ids,
}
use terminal_workspace.Vault.MergeSteps.{IsNewest, IsLost, merge_id-StepOf}

-- A set holds each given element once.
pub count-set_of :
    (p : Text) (seen xs : List Text)
    → count p seen ≤ 1
    → count p (set_of seen xs) ≡ (if ltb 0 (count p seen + count p xs) then 1 else 0)
unfolding set_of count
count-set_of p seen [] h = ground (arith, h)
count-set_of p seen (x ∷ xs) h = elim (Bool-cases (includes x seen)) [
  | inl old ↦ rw old (
      count-set_of p seen xs h ∙ elim (Bool-cases (x === p)) [
        | inl same ↦
            let e : count x seen ≡ count p seen = ap (λ q. count q seen) ((===_iff x p).0 same) in
            ground (arith, h, same, e, includes-count x seen old)
        | inr other ↦ ground (arith, other)
      ])
  | inr new ↦ rw new (
      count-set_of p (seen ++ x ∷ []) xs
        (ground (arith, h, ===_iff x p, count-append p seen (x ∷ []), count-includes x seen new))
      ∙ ground (arith, count-append p seen (x ∷ [])))
]

module _ {T : Type 0} (id_of updated_at : T → Text) (serialize : T → Text) where
  pub index_by_id-IsKeyed :
      (rs : List T) (m : List (Text × T))
      → All (λ (kv : Text × T). id_of kv.1 ≡ kv.0) m
      → All (λ (kv : Text × T). id_of kv.1 ≡ kv.0) (index_by_id id_of updated_at serialize rs m)
  unfolding index_by_id
  index_by_id-IsKeyed [] m h = h
  index_by_id-IsKeyed (r ∷ rs) m h =
      index_by_id-IsKeyed rs (insert (id_of r) r m)
        (All-insert _ (id_of r) r m (λ j same. sym same) h)

  abbrev pub ids_of : List T → List Text
  ids_of = map id_of

  module _ (resolution : ConflictResolution) (local imported : List (Text × T))
      (deleted : List (Text × VaultDeletionEntry)) where
    abbrev pub IsBest : T → Type 0
    IsBest r = IsNewest id_of updated_at serialize resolution local imported deleted (id_of r) r

    abbrev pub Buried : Text → Type 0
    Buried = IsLost id_of updated_at serialize resolution local imported deleted

    unfoldable pub run : List Text → MergeResult T → MergeResult T
    run = merge_ids id_of updated_at serialize resolution local imported deleted

    step : Text → MergeResult T → MergeResult T
    step i =
        merge_id id_of updated_at serialize resolution i (lookup i local) (lookup i imported)
          (lookup i deleted)

    abbrev pub IsGiven : Text → Type 0
    IsGiven i = 1 ≤ count i (keys local) + count i (keys imported)

    pub run-IsBest :
        (is : List Text) (m : MergeResult T)
        → All (λ (kv : Text × T). id_of kv.1 ≡ kv.0) local
        → All (λ (kv : Text × T). id_of kv.1 ≡ kv.0) imported
        → All IsGiven is
        → All IsBest m.records
        → All IsBest (run is m).records
    unfolding run merge_ids step
    run-IsBest [] m kl kx given best = best
    run-IsBest (i ∷ is) m kl kx given best =
        run-IsBest is (step i m) kl kx given.1
          (elim (merge_id-StepOf id_of updated_at serialize resolution local imported deleted i m kl
            kx given.0) [
              | inl (r, newest, pushed) ↦ rw pushed (
                  All-append _ m.records (r ∷ []) best (
                    subst
                        (λ j.
                          IsNewest id_of updated_at serialize resolution local imported deleted j r)
                        (sym newest.own) newest,
                    tt,
                  ))
              | inr (lost, same) ↦ rw same best
            ])

    count-pushed :
        (p i : Text) (r : T) (rs : List T)
        → id_of r ≡ i
        → count p (ids_of (rs ++ r ∷ [])) ≡ count p (ids_of rs) + (if i === p then 1 else 0)
    unfolding count
    count-pushed p i r [] own = rw own (omega arith)
    count-pushed p i r (s ∷ rs) own = omega (arith, count-pushed p i r rs own)

    -- A round gives its id one record more, or the id is lost.
    step-count :
        (p i : Text) (m : MergeResult T)
        → All (λ (kv : Text × T). id_of kv.1 ≡ kv.0) local
        → All (λ (kv : Text × T). id_of kv.1 ≡ kv.0) imported
        → IsGiven i
        → (count p (ids_of (step i m).records)
            ≡ count p (ids_of m.records) + (if i === p then 1 else 0))
          ⊎ (Buried i × (count p (ids_of (step i m).records) ≡ count p (ids_of m.records)))
    unfolding step
    step-count p i m kl kx given =
        elim (merge_id-StepOf id_of updated_at serialize resolution local imported deleted i m kl kx
          given) [
            | inl (r, newest, pushed) ↦
                inl
                  (ap (λ rs. count p (ids_of rs)) pushed ∙ count-pushed p i r m.records newest.own)
            | inr (lost, same) ↦ inr (lost, ap (λ rs. count p (ids_of rs)) same)
          ]

    -- Each id has at most one record for each round, and each id of a round has one or is lost.
    pub run-count :
        (p : Text) (is : List Text) (m : MergeResult T)
        → All (λ (kv : Text × T). id_of kv.1 ≡ kv.0) local
        → All (λ (kv : Text × T). id_of kv.1 ≡ kv.0) imported
        → All IsGiven is
        → (count p (ids_of (run is m).records) ≤ count p (ids_of m.records) + count p is)
          × (1 ≤ count p (ids_of m.records) + count p is
              → (1 ≤ count p (ids_of (run is m).records)) ⊎ Buried p)
    unfolding run merge_ids count step
    run-count p [] m kl kx given = (omega arith, λ h. inl (omega (arith, h)))
    run-count p (i ∷ is) m kl kx given =
        let rest = run-count p is (step i m) kl kx given.1 in
        elim (step-count p i m kl kx given.0) [
          | inl more ↦ (omega (arith, rest.0, more), λ h. rest.1 (omega (arith, h, more)))
          | inr (lost, same) ↦ (
            ground (arith, rest.0, same),
            λ h. elim (Bool-cases (i === p)) [
              | inl here ↦ inr (subst Buried ((===_iff i p).0 here) lost)
              | inr there ↦ rest.1 (ground (arith, h, same, there))
            ],
          )
        ]
