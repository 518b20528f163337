-- ===== src/Sessions/Titles.antt =====
-- The titles of duplicated sessions: `buildDuplicateSessionTitle` and `getDuplicateTitleIndex` of
-- apps/desktop/src/store/sessions-store.ts, with the decimal numbers that they print and read.
use terminal_workspace.Common.{
  ℕ, zero, suc, ◌+◌, ◌-◌, ◌*◌, ◌/◌, ◌%◌, ◌^◌, Bool, true, ◌&&◌, not, Option, none, some, List, [],
  ◌∷◌, ◌++◌, reverse, if◌then◌else◌, leb, ltb, ◌==◌, Text, text, ◌===◌, is_empty,
}
use terminal_workspace.Sessions.Types.{SessionTab}

-- The digits of a number, the last one first; a number has at most as many digits as its value.
unfoldable pub digits_from : ℕ → ℕ → Text
digits_from zero n = []
digits_from (suc fuel) n =
    let rest = digits_from fuel (n / 10) in (48 + n % 10) ∷ (if n / 10 == 0 then [] else rest)

-- `${n}`.
unfoldable pub print_nat : ℕ → Text
unfolding digits_from
print_nat n = reverse (digits_from (suc n) n)

-- `/^\d$/` on one code unit.
abbrev pub is_digit : ℕ → Bool
is_digit c = leb 48 c && leb c 57

unfoldable pub all_digits : Text → Bool
all_digits [] = true
all_digits (c ∷ s) = is_digit c && all_digits s

-- `Number.parseInt(s, 10)` of a text of digits, exact.
unfoldable pub parse_from : ℕ → Text → ℕ
parse_from acc [] = acc
parse_from acc (c ∷ s) = parse_from (acc * 10 + (c - 48)) s

-- `Number.isSafeInteger`, on natural numbers.
unfoldable pub is_safe_integer : ℕ → Bool
is_safe_integer n = ltb n (2 ^ 53)

-- `s.startsWith(p)`, and the text behind the prefix, `s.slice(p.length)`.
unfoldable pub strip_prefix : Text → Text → Option Text
strip_prefix [] s = some s
strip_prefix (c ∷ p) [] = none
strip_prefix (c ∷ p) (d ∷ s) = let rest = strip_prefix p s in if c == d then rest else none

-- `s.endsWith(")")`, and the text before it, `s.slice(0, -1)`.
unfoldable pub strip_close : Text → Option Text
strip_close [] = none
strip_close (c ∷ []) = if c == b')' then some [] else none
strip_close (c ∷ d ∷ s) = elim (strip_close (d ∷ s)) [ none ↦ none | some r ↦ some (c ∷ r) ]

-- The suffix between the parentheses read as an index.
unfoldable pub suffix_index : Text → Option ℕ
unfolding all_digits parse_from is_safe_integer
suffix_index suffix =
    if not (is_empty suffix) && all_digits suffix
    then (let index = parse_from 0 suffix in
        if is_safe_integer index && ltb 0 index then some index else none)
    else none

-- The text between `${baseTitle} (` and the closing parenthesis.
unfoldable pub title_suffix : Text → Text → Option Text
unfolding strip_prefix strip_close
title_suffix title base = elim (strip_prefix (base ++ text " (") title) [
  | none ↦ none
  | some rest ↦ strip_close rest
]

unfoldable pub get_duplicate_title_index : Text → Text → Option ℕ
unfolding title_suffix suffix_index
get_duplicate_title_index title base =
    if title === base
    then some 1
    else elim (title_suffix title base) [ none ↦ none | some suffix ↦ suffix_index suffix ]

-- `tabs.map(…).filter((index) => index !== undefined)`.
unfoldable pub title_indexes : Text → List SessionTab → List ℕ
title_indexes base [] = []
title_indexes base (t ∷ tabs) = elim (get_duplicate_title_index t.title base) [
  | none ↦ title_indexes base tabs
  | some index ↦ index ∷ title_indexes base tabs
]

-- `Math.max(...xs)` of numbers that are at least 0.
unfoldable pub maximum : List ℕ → ℕ
maximum [] = 0
maximum (x ∷ xs) = let m = maximum xs in if ltb m x then x else m

unfoldable pub numbered_title : Text → ℕ → Text
numbered_title base index = base ++ (text " (" ++ (print_nat index ++ text ")"))

unfoldable pub build_duplicate_session_title : List SessionTab → Text → Text
unfolding title_indexes maximum numbered_title
build_duplicate_session_title tabs base = elim (title_indexes base tabs) [
  | [] ↦ base
  | x ∷ xs ↦ numbered_title base (maximum (x ∷ xs) + 1)
]
