-- ===== src/Sessions/TitleLaws.antt =====
-- Titles of duplicated sessions (`buildDuplicateSessionTitle` of
-- apps/desktop/src/store/sessions-store.ts): a printed number is read back, and a new title is new.
use mathlib.Core.List.{reverse-cons, append_assoc}
use terminal_workspace.Common.{
  ℕ, zero, suc, ◌+◌, ◌-◌, ◌*◌, ◌/◌, ◌≤◌, ◌<◌, ◌≡◌, ◌≢◌, refl, sym, ◌∙◌, ap, true, false, some, none,
  List, [], ◌∷◌, ◌++◌, reverse, inl, inr, Text, text, ◌===◌, ===_iff, ===_refl, All, All-reverse,
  All-weaken, arith, Bool-cases, Option-cases, length, length-append, length-reverse, is_empty,
  ◌==◌,
}
use terminal_workspace.Sessions.Types.{SessionTab}
use terminal_workspace.Sessions.Titles.{
  digits_from, print_nat, all_digits, parse_from, is_safe_integer, strip_prefix, strip_close,
  suffix_index, title_suffix, get_duplicate_title_index, title_indexes, maximum, numbered_title,
  build_duplicate_session_title,
}

-- The value of digits, the last one first.
digits_value : Text → ℕ
digits_value [] = 0
digits_value (c ∷ s) = (c - 48) + 10 * digits_value s

digits_from-value : (fuel n : ℕ) → n < fuel → digits_value (digits_from fuel n) ≡ n
unfolding digits_from digits_value
digits_from-value zero n h = elim h [ ]
digits_from-value (suc fuel) n h = elim (Bool-cases (n / 10 == 0)) [
  | inl last ↦ rw last (ground arith)
  | inr more ↦
      let m : n / 10 ≢ 0 = ground arith in
      rw more (omega (arith, digits_from-value fuel (n / 10) (omega (arith, m))))
]

abbrev IsDigit : ℕ → Type 0
IsDigit c = (48 ≤ c) × (c ≤ 57)

digits_from-IsDigit : (fuel n : ℕ) → All IsDigit (digits_from fuel n)
unfolding digits_from
digits_from-IsDigit zero n = tt
digits_from-IsDigit (suc fuel) n = elim (Bool-cases (n / 10 == 0)) [
  | inl last ↦ rw last ((omega arith, omega arith), tt)
  | inr more ↦ rw more ((omega arith, omega arith), digits_from-IsDigit fuel (n / 10))
]

parse_from-snoc :
    (acc : ℕ) (s : Text) (c : ℕ) → parse_from acc (s ++ c ∷ []) ≡ parse_from acc s * 10 + (c - 48)
unfolding parse_from
parse_from-snoc acc [] c = refl
parse_from-snoc acc (d ∷ s) c = parse_from-snoc (acc * 10 + (d - 48)) s c

parse_from-reverse : (s : Text) → parse_from 0 (reverse s) ≡ digits_value s
unfolding digits_value
parse_from-reverse [] = unfold parse_from in refl
parse_from-reverse (c ∷ s) =
    rw (reverse-cons, parse_from-snoc) (omega (arith, parse_from-reverse s))

-- A printed number is read back.
pub parse_from-print_nat : (n : ℕ) → parse_from 0 (print_nat n) ≡ n
unfolding print_nat
parse_from-print_nat n =
    parse_from-reverse (digits_from (suc n) n) ∙ digits_from-value (suc n) n (omega arith)

all_digits_of_IsDigit : (s : Text) → All IsDigit s → all_digits s ≡ true
unfolding all_digits
all_digits_of_IsDigit [] h = refl
all_digits_of_IsDigit (c ∷ s) h = ground (arith, all_digits_of_IsDigit s h.1)

all_digits-print_nat : (n : ℕ) → all_digits (print_nat n) ≡ true
unfolding print_nat
all_digits-print_nat n =
    all_digits_of_IsDigit _
      (All-reverse IsDigit (digits_from (suc n) n) (digits_from-IsDigit (suc n) n))

is_empty-print_nat : (n : ℕ) → is_empty (print_nat n) ≡ false
is_empty-print_nat n =
    nonempty (print_nat n)
      (unfold print_nat digits_from in omega (arith, length-reverse (digits_from (suc n) n)))
  where
    nonempty : (s : Text) → 1 ≤ length s → is_empty s ≡ false
    nonempty [] h = absurd (omega arith)
    nonempty (c ∷ s) h = refl

-- A positive safe index is read back from its suffix.
suffix_index-print_nat :
    (n : ℕ) → 0 < n → is_safe_integer n ≡ true → suffix_index (print_nat n) ≡ some n
unfolding suffix_index
suffix_index-print_nat n positive safe =
    rw (is_empty-print_nat n, all_digits-print_nat n, parse_from-print_nat n, safe) (ground arith)

strip_prefix-append : (p s : Text) → strip_prefix p (p ++ s) ≡ some s
unfolding strip_prefix
strip_prefix-append [] s = refl
strip_prefix-append (c ∷ p) s = ground (arith, strip_prefix-append p s)

strip_close-append : (s : Text) → strip_close (s ++ b')' ∷ []) ≡ some s
unfolding strip_close
strip_close-append [] = refl
strip_close-append (c ∷ []) = refl
strip_close-append (c ∷ d ∷ s) = rw (strip_close-append (d ∷ s))

not-===-longer : (a b : Text) → length a < length b → (b === a) ≡ false
not-===-longer a b h = elim (Bool-cases (b === a)) [
  | inl same ↦ absurd (omega (arith, ap length ((===_iff b a).0 same)))
  | inr other ↦ other
]

-- The index of a numbered title is its number.
pub get_duplicate_title_index-numbered_title :
    (base : Text) (n : ℕ)
    → 0 < n
    → is_safe_integer n ≡ true
    → get_duplicate_title_index (numbered_title base n) base ≡ some n
unfolding get_duplicate_title_index title_suffix
get_duplicate_title_index-numbered_title base n positive safe =
    rw (different, get_duplicate_title_index)
      (rw (split, title_suffix)
        (rw (strip_prefix-append (base ++ text " (") (print_nat n ++ text ")"))
          (rw (strip_close-append (print_nat n)) (suffix_index-print_nat n positive safe))))
  where
    split : numbered_title base n ≡ (base ++ text " (") ++ (print_nat n ++ text ")")
    split = unfold numbered_title in sym (append_assoc base (text " (") (print_nat n ++ text ")"))

    different : (numbered_title base n === base) ≡ false
    different = not-===-longer base (numbered_title base n) (
        unfold numbered_title in
        omega (arith, length-append base (text " (" ++ (print_nat n ++ text ")"))))

no_indexes :
    (base : Text) (tabs : List SessionTab)
    → title_indexes base tabs ≡ []
    → All (λ (t : SessionTab). get_duplicate_title_index t.title base ≡ none) tabs
unfolding title_indexes
no_indexes base [] h = tt
no_indexes base (t ∷ ts) h = elim (Option-cases (get_duplicate_title_index t.title base)) [
  | inl missing ↦ (missing, no_indexes base ts (ground (arith, h, missing)))
  | inr (n, found) ↦ absurd (ground (arith, h, found))
]

-- An index that a title has is at most the maximum.
index-le-maximum :
    (base : Text) (m : ℕ) (tabs : List SessionTab)
    → maximum (title_indexes base tabs) ≤ m
    → All
        (λ (t : SessionTab). (n : ℕ) → get_duplicate_title_index t.title base ≡ some n → n ≤ m)
        tabs
unfolding title_indexes maximum
index-le-maximum base m [] h = tt
index-le-maximum base m (t ∷ ts) h = elim (Option-cases (get_duplicate_title_index t.title base)) [
  | inl missing ↦ (
    λ n found. absurd (cc (missing, found)),
    index-le-maximum base m ts (ground (arith, h, missing)),
  )
  | inr (k, found) ↦ (
    λ n found'. ground (arith, h, found, found'),
    index-le-maximum base m ts (ground (arith, h, found)),
  )
]

-- The title of a duplicate is no tab's title, as long as the next index is a safe integer.
pub build_duplicate_session_title_new :
    (tabs : List SessionTab) (base : Text)
    → is_safe_integer (maximum (title_indexes base tabs) + 1) ≡ true
    → All (λ (t : SessionTab). t.title ≢ build_duplicate_session_title tabs base) tabs
build_duplicate_session_title_new tabs base safe = from_indexes (title_indexes base tabs) refl
  where
    from_indexes :
        (is : List ℕ)
        → title_indexes base tabs ≡ is
        → All (λ (t : SessionTab). t.title ≢ build_duplicate_session_title tabs base) tabs
    from_indexes [] e =
        All-weaken (λ t. get_duplicate_title_index t.title base ≡ none) _ tabs
          (λ t missing same.
            let title : build_duplicate_session_title tabs base ≡ base =
              unfold build_duplicate_session_title in rw (e, build_duplicate_session_title) in
            let one : get_duplicate_title_index base base ≡ some 1 =
              unfold get_duplicate_title_index in ground (arith, ===_refl base) in
            cc (missing, same, title, one))
          (no_indexes base tabs e)
    from_indexes (i ∷ is) e =
        let n = maximum (title_indexes base tabs) + 1 in
        All-weaken
          (λ t.
            (k : ℕ)
            → get_duplicate_title_index t.title base ≡ some k
            → k ≤ maximum (title_indexes base tabs))
          _ tabs
          (λ t bound same.
            let title : build_duplicate_session_title tabs base ≡ numbered_title base n =
              unfold build_duplicate_session_title in rw (e, build_duplicate_session_title) in
            let found : get_duplicate_title_index t.title base ≡ some n =
              rw (same, title)
                (get_duplicate_title_index-numbered_title base n (omega arith) safe) in
            omega (arith, bound n found))
          (index-le-maximum base (maximum (title_indexes base tabs)) tabs (omega arith))
