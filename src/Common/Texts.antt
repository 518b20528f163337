-- ===== src/Common/Texts.antt =====
-- A string of the source is the list of its UTF-16 code units. `trim`, `startsWith` and the other
-- methods that the source calls are written over these lists.
use Prim.Native.Char.{code}
use Prim.Native.Nat.{ℕ, ◌≤◌}
use Prim.Native.String.{String}
use mathlib.Core.Path.{◌≡◌, refl}
use mathlib.Core.Logic.{◌↔◌, inl, inr}
use mathlib.Core.Bool.{Bool, true, false, ◌&&◌, ◌||◌}
use mathlib.Core.List.{List, [], ◌∷◌, reverse}
use native.Mathlib.Omega.{arith}
use terminal_workspace.Common.Lists.{length, length-reverse, All, All-reverse}
use terminal_workspace.Common.Tests.{leb, ◌==◌, if◌then◌else◌, Bool-cases}

abbrev pub Text : Type 0
Text = List ℕ

-- A literal of the source, all of whose characters are in the basic plane.
abbrev pub text : String → Text
text String.[] = []
text (String.◌∷◌ c s) = code c ∷ text s

-- `a === b` on strings.
infix 50 ◌===◌
unfoldable pub ◌===◌ : Text → Text → Bool
[] === [] = true
[] === (y ∷ ys) = false
(x ∷ xs) === [] = false
(x ∷ xs) === (y ∷ ys) = (x == y) && (xs === ys)

pub ===_refl : (a : Text) → (a === a) ≡ true
unfolding ◌===◌
===_refl [] = refl
===_refl (x ∷ xs) = ground (arith, ===_refl xs)

eq_of_=== : (a b : Text) → (a === b) ≡ true → a ≡ b
unfolding ◌===◌
eq_of_=== [] [] h = refl
eq_of_=== [] (y ∷ ys) h = cc
eq_of_=== (x ∷ xs) [] h = cc
eq_of_=== (x ∷ xs) (y ∷ ys) h = ground (arith, eq_of_=== xs ys)

pub ===_iff : (a b : Text) → ((a === b) ≡ true) ↔ (a ≡ b)
===_iff a b = (eq_of_=== a b, λ e. ground (arith, ===_refl a))

-- A string is falsy when it is empty.
abbrev pub is_empty : Text → Bool
is_empty [] = true
is_empty (x ∷ xs) = false

-- The white space and line terminators that `trim` removes.
unfoldable pub is_space : ℕ → Bool
is_space c =
    (leb 9 c && leb c 13)
    || (c == 32)
    || (c == 160)
    || (c == 0x1680)
    || (leb 0x2000 c && leb c 0x200a)
    || (c == 0x2028)
    || (c == 0x2029)
    || (c == 0x202f)
    || (c == 0x205f)
    || (c == 0x3000)
    || (c == 0xfeff)

unfoldable pub trim_start : Text → Text
unfolding is_space
trim_start [] = []
trim_start (c ∷ s) = let rest = trim_start s in if is_space c then rest else c ∷ s

unfoldable pub trim : Text → Text
unfolding trim_start
trim s = reverse (trim_start (reverse (trim_start s)))

length-trim_start : (s : Text) → length (trim_start s) ≤ length s
unfolding trim_start
length-trim_start [] = omega arith
length-trim_start (c ∷ s) = ground (arith, length-trim_start s)

pub length-trim-le : (s : Text) → length (trim s) ≤ length s
unfolding trim
length-trim-le s = omega (
  arith,
  length-trim_start s,
  length-trim_start (reverse (trim_start s)),
  length-reverse (trim_start s),
  length-reverse (trim_start (reverse (trim_start s))),
)

module _ {κ} (P : ℕ → Type κ) where
  All-trim_start : (s : Text) → All P s → All P (trim_start s)
  unfolding trim_start
  All-trim_start [] h = tt
  All-trim_start (c ∷ s) h = elim (Bool-cases (is_space c)) [
    | inl space ↦ rw space (All-trim_start s h.1)
    | inr mark ↦ rw mark h
  ]

  pub All-trim : (s : Text) → All P s → All P (trim s)
  unfolding trim
  All-trim s h =
      All-reverse P _ (
        All-trim_start (reverse (trim_start s)) (All-reverse P (trim_start s) (All-trim_start s h)))
