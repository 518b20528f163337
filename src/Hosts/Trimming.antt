-- ===== src/Hosts/Trimming.antt =====
-- `trim` of a trimmed text changes nothing.
use mathlib.Core.Path.{subst}
use mathlib.Core.List.{reverse_aux}
use terminal_workspace.Common.{
  ℕ, ◌≡◌, ◌∙◌, refl, sym, ap, false, List, [], ◌∷◌, ◌++◌, reverse, inl, inr, Text, is_space,
  trim_start, trim, Bool-cases,
}

-- Empty, or beginning with a character that is not white space.
abbrev IsClean : Text → Type 0
IsClean [] = Unit
IsClean (c ∷ s) = is_space c ≡ false

trim_start-IsClean : (s : Text) → IsClean (trim_start s)
unfolding trim_start
trim_start-IsClean [] = tt
trim_start-IsClean (c ∷ s) = elim (Bool-cases (is_space c)) [
  | inl space ↦ rw space (trim_start-IsClean s)
  | inr mark ↦ rw mark mark
]

IsClean-trim_start : (s : Text) → IsClean s → trim_start s ≡ s
unfolding trim_start
IsClean-trim_start [] h = refl
IsClean-trim_start (c ∷ s) h = rw h refl

-- A last character that is not white space stays.
trim_start-last :
    (s : Text) (c : ℕ) → is_space c ≡ false → (t : Text) × (trim_start (s ++ c ∷ []) ≡ t ++ c ∷ [])
unfolding trim_start
trim_start-last [] c mark = ([], rw mark refl)
trim_start-last (x ∷ s) c mark = elim (Bool-cases (is_space x)) [
  | inl space ↦ let (t, e) = trim_start-last s c mark in (t, rw space e)
  | inr other ↦ (x ∷ s, rw other refl)
]

module _ {A : Type 0} where
  reverse_aux-append : (xs ys zs : List A) → reverse_aux xs (ys ++ zs) ≡ reverse_aux xs ys ++ zs
  reverse_aux-append [] ys zs = refl
  reverse_aux-append (x ∷ xs) ys zs = reverse_aux-append xs (x ∷ ys) zs

  reverse_aux-last :
      (xs ys : List A) (c : A) → reverse_aux (xs ++ c ∷ []) ys ≡ c ∷ reverse_aux xs ys
  reverse_aux-last [] ys c = refl
  reverse_aux-last (x ∷ xs) ys c = reverse_aux-last xs (x ∷ ys) c

  reverse_aux-reverse_aux :
      (xs ys zs : List A) → reverse_aux (reverse_aux xs ys) zs ≡ reverse_aux ys (xs ++ zs)
  reverse_aux-reverse_aux [] ys zs = refl
  reverse_aux-reverse_aux (x ∷ xs) ys zs = reverse_aux-reverse_aux xs (x ∷ ys) zs

-- What is cut at its end begins as before.
cut-IsClean : (a : Text) → IsClean a → IsClean (reverse (trim_start (reverse a)))
unfolding trim_start
cut-IsClean [] h = tt
cut-IsClean (c ∷ a) h =
    let (t, e) = trim_start-last (reverse a) c h in
    let cut : reverse (trim_start (reverse (c ∷ a))) ≡ c ∷ reverse t =
      ap (λ x. reverse (trim_start x)) (reverse_aux-append a [] (c ∷ []))
      ∙ ap reverse e
      ∙ reverse_aux-last t [] c in
    subst IsClean (sym cut) h

pub trim-trim : (s : Text) → trim (trim s) ≡ trim s
unfolding trim
trim-trim s =
    let cut = trim_start (reverse (trim_start s)) in
    ap (λ x. reverse (trim_start (reverse x)))
      (IsClean-trim_start (reverse cut) (cut-IsClean (trim_start s) (trim_start-IsClean s)))
    ∙ ap (λ x. reverse (trim_start x)) (reverse_aux-reverse_aux cut [] [] ∙ append_nil cut)
    ∙ ap reverse (IsClean-trim_start cut (trim_start-IsClean (reverse (trim_start s))))
  where
    append_nil : (xs : Text) → xs ++ [] ≡ xs
    append_nil [] = refl
    append_nil (x ∷ xs) = ap (λ r. x ∷ r) (append_nil xs)
