-- ===== src/Common/Dict.antt =====
-- An object used as a dictionary, `Record<string, V>`: its entries in insertion order. A write to a
-- key that is there replaces the value in place, and to a new key appends an entry. Counting the
-- occurrences of a text in a list of keys makes the laws equations of numbers.
use terminal_workspace.Common.Lists.{filter, All}
use terminal_workspace.Common.Tests.{if◌then◌else◌, Bool-cases}
use mathlib.Core.Logic.{inl, inr}
use terminal_workspace.Common.Texts.{Text, ◌===◌, ===_iff}
use Prim.Native.Nat.{ℕ, ◌+◌, ◌-◌, ◌≤◌}
use mathlib.Core.Path.{◌≡◌, refl, subst}
use mathlib.Core.Bool.{Bool, true, false, not, ◌||◌}
use mathlib.Core.List.{List, [], ◌∷◌, ◌++◌}
use mathlib.Core.Option.{Option, none, some}
use native.Mathlib.Omega.{arith}

-- How often a text occurs.
unfoldable pub count : Text → List Text → ℕ
count p [] = 0
count p (x ∷ xs) = (if x === p then 1 else 0) + count p xs

-- `xs.includes(p)`.
unfoldable pub includes : Text → List Text → Bool
includes p [] = false
includes p (x ∷ xs) = (x === p) || includes p xs

pub count-append : (p : Text) (xs ys : List Text) → count p (xs ++ ys) ≡ count p xs + count p ys
unfolding count
count-append p [] ys = omega arith
count-append p (x ∷ xs) ys = omega (arith, count-append p xs ys)

pub includes-count : (p : Text) (xs : List Text) → includes p xs ≡ true → 1 ≤ count p xs
unfolding includes count
includes-count p [] h = cc
includes-count p (x ∷ xs) h = ground (arith, includes-count p xs)

pub count-includes : (p : Text) (xs : List Text) → includes p xs ≡ false → count p xs ≡ 0
unfolding includes count
count-includes p [] h = refl
count-includes p (x ∷ xs) h = ground (arith, count-includes p xs)

-- `xs.filter((x) => x !== k)`.
unfoldable pub without : Text → List Text → List Text
without k = filter (λ x. not (x === k))

pub count-without :
    (p k : Text) (xs : List Text) → count p (without k xs) ≡ (if k === p then 0 else count p xs)
unfolding count without
count-without p k [] = ground arith
count-without p k (x ∷ xs) =
    ground (arith, ===_iff x k, ===_iff x p, ===_iff k p, count-without p k xs)

module _ {ℓ} {V : Type ℓ} where
  -- `m[k]`.
  unfoldable pub lookup : Text → List (Text × V) → Option V
  lookup k [] = none
  lookup k ((j, v) ∷ m) = if j === k then some v else lookup k m

  -- `{ ...m, [k]: v }`.
  unfoldable pub insert : Text → V → List (Text × V) → List (Text × V)
  insert k v [] = (k, v) ∷ []
  insert k v ((j, w) ∷ m) = if j === k then (j, v) ∷ m else (j, w) ∷ insert k v m

  -- `delete m[k]`.
  unfoldable pub remove : Text → List (Text × V) → List (Text × V)
  remove k [] = []
  remove k ((j, w) ∷ m) = let rest = remove k m in if j === k then rest else (j, w) ∷ rest

  -- `ks.forEach((k) => { delete m[k]; })`.
  unfoldable pub remove_all : List Text → List (Text × V) → List (Text × V)
  remove_all [] m = m
  remove_all (k ∷ ks) m = remove_all ks (remove k m)

  unfoldable pub keys : List (Text × V) → List Text
  keys [] = []
  keys ((k, v) ∷ m) = k ∷ keys m

  -- `[...m.values()]` of a Map, which keeps its entries in insertion order too.
  unfoldable pub values : List (Text × V) → List V
  values [] = []
  values ((k, v) ∷ m) = v ∷ values m

  pub lookup-insert :
      (k j : Text) (v : V) (m : List (Text × V))
      → lookup j (insert k v m) ≡ (if k === j then some v else lookup j m)
  unfolding lookup insert
  lookup-insert k j v [] = refl
  lookup-insert k j v ((i, w) ∷ m) =
      ground (arith, ===_iff k j, ===_iff i k, ===_iff i j, lookup-insert k j v m)

  pub lookup-remove :
      (k j : Text) (m : List (Text × V))
      → lookup j (remove k m) ≡ (if k === j then none else lookup j m)
  unfolding lookup remove
  lookup-remove k j [] = ground arith
  lookup-remove k j ((i, w) ∷ m) =
      ground (arith, ===_iff k j, ===_iff i k, ===_iff i j, lookup-remove k j m)

  pub count-keys-insert :
      (p k : Text) (v : V) (m : List (Text × V))
      → count p (keys (insert k v m))
        ≡ count p (keys m) + (if k === p then 1 - count k (keys m) else 0)
  unfolding count keys insert
  count-keys-insert p k v [] = ground arith
  count-keys-insert p k v ((i, w) ∷ m) =
      ground (arith, ===_iff k p, ===_iff i k, ===_iff i p, count-keys-insert p k v m)

  pub count-keys-remove :
      (p k : Text) (m : List (Text × V))
      → count p (keys (remove k m)) ≡ (if k === p then 0 else count p (keys m))
  unfolding count keys remove
  count-keys-remove p k [] = ground arith
  count-keys-remove p k ((i, w) ∷ m) =
      ground (arith, ===_iff k p, ===_iff i k, ===_iff i p, count-keys-remove p k m)

  pub lookup-count :
      (k : Text) (m : List (Text × V)) (v : V) → lookup k m ≡ some v → 1 ≤ count k (keys m)
  unfolding lookup keys count
  lookup-count k [] v h = cc
  lookup-count k ((i, w) ∷ m) v h = ground (arith, lookup-count k m v)

  pub lookup-none-count :
      (k : Text) (m : List (Text × V)) → lookup k m ≡ none → count k (keys m) ≡ 0
  unfolding lookup keys count
  lookup-none-count k [] h = refl
  lookup-none-count k ((i, w) ∷ m) h = ground (arith, lookup-none-count k m)

  pub count-keys-remove_all :
      (p : Text) (ks : List Text) (m : List (Text × V))
      → count p (keys (remove_all ks m)) ≡ (if includes p ks then 0 else count p (keys m))
  unfolding remove_all includes
  count-keys-remove_all p [] m = refl
  count-keys-remove_all p (k ∷ ks) m =
      ground (arith, count-keys-remove_all p ks (remove k m), count-keys-remove p k m)

  pub lookup-remove_all :
      (p : Text) (ks : List Text) (m : List (Text × V))
      → lookup p (remove_all ks m) ≡ (if includes p ks then none else lookup p m)
  unfolding remove_all includes
  lookup-remove_all p [] m = refl
  lookup-remove_all p (k ∷ ks) m =
      ground (arith, lookup-remove_all p ks (remove k m), lookup-remove k p m)

-- Every entry satisfies a predicate.
module _ {ℓ κ} {V : Type ℓ} (P : Text × V → Type κ) where
  pub All-insert :
      (k : Text) (v : V) (m : List (Text × V))
      → ((j : Text) → j ≡ k → P (j, v))
      → All P m
      → All P (insert k v m)
  unfolding insert
  All-insert k v [] new a = (new k refl, tt)
  All-insert k v ((j, w) ∷ m) new a = elim (Bool-cases (j === k)) [
    | inl same ↦ rw same (new j ((===_iff j k).0 same), a.1)
    | inr other ↦ rw other (a.0, All-insert k v m new a.1)
  ]

  pub All-remove : (k : Text) (m : List (Text × V)) → All P m → All P (remove k m)
  unfolding remove
  All-remove k [] a = tt
  All-remove k ((j, w) ∷ m) a = elim (Bool-cases (j === k)) [
    | inl same ↦ rw same (All-remove k m a.1)
    | inr other ↦ rw other (a.0, All-remove k m a.1)
  ]

  pub All-remove_all : (ks : List Text) (m : List (Text × V)) → All P m → All P (remove_all ks m)
  unfolding remove_all
  All-remove_all [] m a = a
  All-remove_all (k ∷ ks) m a = All-remove_all ks (remove k m) (All-remove k m a)

  pub All-lookup :
      (k : Text) (m : List (Text × V)) (v : V) → All P m → lookup k m ≡ some v → P (k, v)
  unfolding lookup
  All-lookup k [] v a h = cc
  All-lookup k ((j, w) ∷ m) v a h = elim (Bool-cases (j === k)) [
    | inl same ↦
        let e : w ≡ v = ground arith in
        subst (λ x. P (x, v)) ((===_iff j k).0 same) (subst (λ x. P (j, x)) e a.0)
    | inr other ↦ All-lookup k m v a.1 (rw other at h)
  ]
