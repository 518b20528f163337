-- ===== src/Sessions/HistoryLaws.antt =====
-- The command history of apps/desktop/src/store/sessions-store.ts: bounds on what it holds, and what
-- normalising an output removes.
pub mod Reach
use terminal_workspace.Common.{
  ℕ, suc, ◌-◌, ◌≤◌, ◌≡◌, ◌≢◌, refl, ap, Bool, Option, none, some, List, [], ◌∷◌, ◌++◌, inl, inr,
  if◌then◌else◌, Text, ◌===◌, All, All-append, All-drop, All-take, arith, Bool-cases, length,
  length-drop, length-take-le, length-trim-le, All-trim, is_empty, or_else, ◌==◌,
}
use terminal_workspace.Sessions.Types.{SessionCommandHistoryEntry}
use terminal_workspace.Sessions.History.{
  session_history_limit, session_history_output_limit, limit_command_history, strip_ansi,
  strip_unit, normalize_command_history_output, slice_last, extend_preview, append_to_entry,
  mark_preview,
}

-- Neither a bell nor a carriage return.
abbrev pub IsQuiet : ℕ → Type 0
IsQuiet c = (c ≢ 7) × (c ≢ 13)

strip_unit-All : (P : ℕ → Type 0) (x : ℕ) (s : Text) → All P s → All P (strip_unit x s)
unfolding strip_unit
strip_unit-All P x [] h = tt
strip_unit-All P x (c ∷ s) h = elim (Bool-cases (c == x)) [
  | inl same ↦ rw same (strip_unit-All P x s h.1)
  | inr other ↦ rw other (h.0, strip_unit-All P x s h.1)
]

strip_unit-absent : (x : ℕ) (s : Text) → All (λ c. c ≢ x) (strip_unit x s)
unfolding strip_unit
strip_unit-absent x [] = tt
strip_unit-absent x (c ∷ s) = elim (Bool-cases (c == x)) [
  | inl same ↦ rw same (strip_unit-absent x s)
  | inr other ↦ rw other (ground arith, strip_unit-absent x s)
]

All-pair : (P Q : ℕ → Type 0) (s : Text) → All P s → All Q s → All (λ c. P c × Q c) s
All-pair P Q [] h k = tt
All-pair P Q (c ∷ s) h k = ((h.0, k.0), All-pair P Q s h.1 k.1)

-- A normalised output holds no bell and no carriage return.
pub normalize-IsQuiet : (output : Text) → All IsQuiet (normalize_command_history_output output)
unfolding normalize_command_history_output
normalize-IsQuiet output = All-trim IsQuiet _ (
    All-pair (λ c. c ≢ 7) (λ c. c ≢ 13) _
      (strip_unit-absent 7 (strip_unit 13 (strip_ansi 0 output)))
      (strip_unit-All (λ c. c ≢ 13) 7 _ (strip_unit-absent 13 (strip_ansi 0 output))))

length-slice_last : (n : ℕ) (s : Text) → length (slice_last n s) ≤ n
unfolding slice_last
length-slice_last n s = omega (arith, length-drop (length s - n) s)

-- What a preview may be: at most 600 code units, none of them a bell or a carriage return.
abbrev pub IsPreview : Option Text → Type 0
IsPreview none = Unit
IsPreview (some s) = (length s ≤ session_history_output_limit) × All IsQuiet s

pub extend_preview-IsPreview :
    (old : Option Text) (output : Text)
    → IsPreview old
    → All IsQuiet output
    → IsPreview (some (extend_preview old output))
unfolding extend_preview
extend_preview-IsPreview old output h k = (
  omega (arith, length-trim-le (slice_last limit joined), length-slice_last limit joined),
  All-trim IsQuiet _ (unfold slice_last in All-drop IsQuiet _ joined (joined_quiet old h)),
)
  where
    limit : ℕ
    limit = session_history_output_limit

    joined : Text
    joined = (if is_empty (or_else old []) then [] else or_else old [] ++ 10 ∷ []) ++ output

    joined_quiet :
        (o : Option Text)
        → IsPreview o
        → All IsQuiet ((if is_empty (or_else o []) then [] else or_else o [] ++ 10 ∷ []) ++ output)
    joined_quiet none h = k
    joined_quiet (some []) h = k
    joined_quiet (some (c ∷ s)) h =
        All-append IsQuiet ((c ∷ s) ++ 10 ∷ []) output
          (All-append IsQuiet (c ∷ s) (10 ∷ []) h.1 ((omega arith, omega arith), tt)) k

abbrev pub AllPreviews : List SessionCommandHistoryEntry → Type 0
AllPreviews = All (λ (e : SessionCommandHistoryEntry). IsPreview e.output_preview)

-- At most 200 entries, each with a preview that is bounded and quiet.
pub record IsBounded (es : List SessionCommandHistoryEntry) : Type 0 where
  pub few : length es ≤ session_history_limit
  pub quiet : AllPreviews es

pub limit-IsBounded :
    (es : List SessionCommandHistoryEntry) → AllPreviews es → IsBounded (limit_command_history es)
unfolding limit_command_history
limit-IsBounded es h = record {
  few = length-take-le session_history_limit es;
  quiet = All-take (λ e. IsPreview e.output_preview) session_history_limit es h;
}
