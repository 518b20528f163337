-- ===== src/Common/Order.antt =====
-- `a < b` on strings, which compares UTF-16 code units, and `sort` with a comparator. A comparator
-- is given as the test that it does not put the left argument after the right one; for such a
-- comparator the result of the stable sort of the language is the one that insertion gives.
use terminal_workspace.Common.Tests.{ltb, ◌==◌, if◌then◌else◌, Bool-cases}
use terminal_workspace.Common.Lists.{length, All}
use terminal_workspace.Common.Texts.{Text}
use terminal_workspace.Common.Dict.{count}
use Prim.Native.Nat.{suc}
use mathlib.Core.Path.{◌≡◌, refl, ap, ◌∙◌}
use mathlib.Core.Logic.{inl, inr}
use mathlib.Core.Bool.{Bool, true, false, ◌&&◌, ◌||◌}
use mathlib.Core.List.{List, [], ◌∷◌, map, Perm}
use mathlib.Core.List.Perm
use native.Mathlib.Omega.{arith}

unfoldable pub text_ltb : Text → Text → Bool
text_ltb [] [] = false
text_ltb [] (y ∷ ys) = true
text_ltb (x ∷ xs) [] = false
text_ltb (x ∷ xs) (y ∷ ys) = ltb x y || ((x == y) && text_ltb xs ys)

pub text_ltb_irrefl : (a : Text) → text_ltb a a ≡ false
unfolding text_ltb
text_ltb_irrefl [] = refl
text_ltb_irrefl (x ∷ xs) = ground (arith, text_ltb_irrefl xs)

pub text_ltb_asym : (a b : Text) → text_ltb a b ≡ true → text_ltb b a ≡ false
unfolding text_ltb
text_ltb_asym [] [] h = cc
text_ltb_asym [] (y ∷ ys) h = refl
text_ltb_asym (x ∷ xs) [] h = cc
text_ltb_asym (x ∷ xs) (y ∷ ys) h = ground (arith, text_ltb_asym xs ys)

-- Two texts of which neither is less are the same.
pub text_ltb_connected : (a b : Text) → text_ltb a b ≡ false → text_ltb b a ≡ false → a ≡ b
unfolding text_ltb
text_ltb_connected [] [] h k = refl
text_ltb_connected [] (y ∷ ys) h k = cc
text_ltb_connected (x ∷ xs) [] h k = cc
text_ltb_connected (x ∷ xs) (y ∷ ys) h k = ground (arith, text_ltb_connected xs ys)

-- Not being less is transitive.
pub text_ltb_trans :
    (a b c : Text) → text_ltb a b ≡ false → text_ltb b c ≡ false → text_ltb a c ≡ false
unfolding text_ltb
text_ltb_trans [] [] [] h k = refl
text_ltb_trans [] [] (z ∷ zs) h k = cc
text_ltb_trans [] (y ∷ ys) c h k = cc
text_ltb_trans (x ∷ xs) b [] h k = refl
text_ltb_trans (x ∷ xs) [] (z ∷ zs) h k = cc
text_ltb_trans (x ∷ xs) (y ∷ ys) (z ∷ zs) h k = ground (arith, text_ltb_trans xs ys zs)

module _ {ℓ} {A : Type ℓ} (le : A → A → Bool) where
  unfoldable pub insert_sorted : A → List A → List A
  insert_sorted x [] = x ∷ []
  insert_sorted x (y ∷ ys) =
      let rest = insert_sorted x ys in if le x y then x ∷ y ∷ ys else y ∷ rest

  -- `[...xs].sort(compare)`, where `le a b` is `compare(a, b) <= 0`.
  unfoldable pub sort_by : List A → List A
  unfolding insert_sorted
  sort_by [] = []
  sort_by (x ∷ xs) = insert_sorted x (sort_by xs)

  -- Each element may stand before the one that follows it.
  abbrev pub IsOrdered : List A → Type 0
  IsOrdered [] = Unit
  IsOrdered (x ∷ []) = Unit
  IsOrdered (x ∷ y ∷ ys) = (le x y ≡ true) × IsOrdered (y ∷ ys)

  insert_sorted-IsOrdered :
      (x : A) (ys : List A)
      → ((a b : A) → le a b ≡ false → le b a ≡ true)
      → IsOrdered ys
      → IsOrdered (insert_sorted x ys)
  unfolding insert_sorted
  insert_sorted-IsOrdered x [] total h = tt
  insert_sorted-IsOrdered x (y ∷ []) total h = elim (Bool-cases (le x y)) [
    | inl before ↦ rw before (before, tt)
    | inr after ↦ rw after (total x y after, tt)
  ]
  insert_sorted-IsOrdered x (y ∷ z ∷ zs) total h = elim (Bool-cases (le x y)) [
    | inl before ↦ rw before (before, h)
    | inr after ↦
        let rest = insert_sorted-IsOrdered x (z ∷ zs) total h.1 in
        elim (Bool-cases (le x z)) [
          | inl first ↦ rw (after, first) (total x y after, (first, h.1))
          | inr second ↦ rw (after, second) (h.0, rw second at rest)
        ]
  ]

  pub sort_by-IsOrdered :
      (xs : List A) → ((a b : A) → le a b ≡ false → le b a ≡ true) → IsOrdered (sort_by xs)
  unfolding sort_by
  sort_by-IsOrdered [] total = tt
  sort_by-IsOrdered (x ∷ xs) total =
      insert_sorted-IsOrdered x (sort_by xs) total (sort_by-IsOrdered xs total)

  -- Sorting keeps a list that is in order.
  pub sort_by-ordered : (xs : List A) → IsOrdered xs → sort_by xs ≡ xs
  unfolding sort_by insert_sorted
  sort_by-ordered [] h = refl
  sort_by-ordered (x ∷ []) h = refl
  sort_by-ordered (x ∷ y ∷ ys) h = ap (insert_sorted x) (sort_by-ordered (y ∷ ys) h.1) ∙ rw h.0 refl

  insert_sorted-All {κ} :
      (P : A → Type κ) (x : A) (ys : List A) → P x → All P ys → All P (insert_sorted x ys)
  unfolding insert_sorted
  insert_sorted-All P x [] p h = (p, tt)
  insert_sorted-All P x (y ∷ ys) p h = elim (Bool-cases (le x y)) [
    | inl before ↦ rw before (p, h)
    | inr after ↦ rw after (h.0, insert_sorted-All P x ys p h.1)
  ]

  pub sort_by-All {κ} : (P : A → Type κ) (xs : List A) → All P xs → All P (sort_by xs)
  unfolding sort_by
  sort_by-All P [] h = tt
  sort_by-All P (x ∷ xs) h = insert_sorted-All P x (sort_by xs) h.0 (sort_by-All P xs h.1)

  insert_sorted-Perm : (x : A) (ys : List A) → Perm (insert_sorted x ys) (x ∷ ys)
  unfolding insert_sorted
  insert_sorted-Perm x [] = Perm.rfl
  insert_sorted-Perm x (y ∷ ys) = elim (Bool-cases (le x y)) [
    | inl before ↦ rw before Perm.rfl
    | inr after ↦ rw after (Perm.trans (Perm.cons y (insert_sorted-Perm x ys)) (Perm.swap x y ys))
  ]

  pub sort_by-Perm : (xs : List A) → Perm (sort_by xs) xs
  unfolding sort_by
  sort_by-Perm [] = Perm.rfl
  sort_by-Perm (x ∷ xs) =
      Perm.trans (insert_sorted-Perm x (sort_by xs)) (Perm.cons x (sort_by-Perm xs))

  count-insert_sorted :
      (f : A → Text) (p : Text) (x : A) (ys : List A)
      → count p (map f (insert_sorted x ys)) ≡ count p (map f (x ∷ ys))
  unfolding insert_sorted count
  count-insert_sorted f p x [] = refl
  count-insert_sorted f p x (y ∷ ys) = elim (Bool-cases (le x y)) [
    | inl before ↦ rw before refl
    | inr after ↦ rw after (omega (arith, count-insert_sorted f p x ys))
  ]

  -- Sorting keeps how often each text occurs in a column.
  pub count-sort_by :
      (f : A → Text) (p : Text) (xs : List A) → count p (map f (sort_by xs)) ≡ count p (map f xs)
  unfolding sort_by count
  count-sort_by f p [] = refl
  count-sort_by f p (x ∷ xs) =
      count-insert_sorted f p x (sort_by xs) ∙ omega (arith, count-sort_by f p xs)

  length-insert_sorted : (x : A) (ys : List A) → length (insert_sorted x ys) ≡ suc (length ys)
  unfolding insert_sorted
  length-insert_sorted x [] = refl
  length-insert_sorted x (y ∷ ys) = elim (Bool-cases (le x y)) [
    | inl before ↦ rw before refl
    | inr after ↦ rw after (ap suc (length-insert_sorted x ys))
  ]

  pub length-sort_by : (xs : List A) → length (sort_by xs) ≡ length xs
  unfolding sort_by
  length-sort_by [] = refl
  length-sort_by (x ∷ xs) = length-insert_sorted x (sort_by xs) ∙ ap suc (length-sort_by xs)
