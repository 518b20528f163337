-- ===== src/Connect/Bus.antt =====
-- What a prompt bus promises (apps/desktop/src/store/fingerprint-trust-prompt-store.ts and
-- connection-secret-prompt-store.ts): it is closed, or asks one request, or has its answer until the opener
-- goes on. The stores implement it, whatever the order of the calls.
use terminal_workspace.Common.{
  ℕ, ◌<◌, ◌≡◌, refl, sym, Option, none, some, List, [], ◌∷◌, inl, inr, if◌then◌else◌, Text, ◌===◌,
  ◌==◌, All, All-weaken, Bool-cases, arith,
}
use mathlib.Core.Path.{subst}
use terminal_workspace.Connect.Prompts.{
  Opened, answered, waiting, PromptState, closed_state, open_fresh, open_prompt, settle,
  clear_prompt, resume,
}

pub data PromptAction (R : Type 0) (A : Type 0) : Type 0 where
  open_request : R → PromptAction R A
  answer_request : A → PromptAction R A
  go_on : PromptAction R A

-- The abstract bus.
pub data Bus (R : Type 0) (A : Type 0) : Type 0 where
  closed : Bus R A
  asking : R → Bus R A
  settled : R → A → Bus R A

-- What an action shows to its caller: an open request waits for the answer, or is refused.
pub data Shown : Type 0 where
  nothing : Shown
  waits : Shown
  refused : Shown

module _ {R : Type 0} {A : Type 0} (key : R → Text) (refusal : A) where
  -- A request joins one with its key, and is refused if another is there.
  abbrev joins : R → R → Shown
  joins r q = if key q === key r then waits else refused

  unfoldable pub bus_step : PromptAction R A → Bus R A → Bus R A × Shown
  bus_step (open_request r) closed = (asking r, waits)
  bus_step (open_request r) (asking q) = (asking q, joins r q)
  bus_step (open_request r) (settled q a) = (settled q a, joins r q)
  bus_step (answer_request a) closed = (closed, nothing)
  bus_step (answer_request a) (asking q) = (settled q a, nothing)
  bus_step (answer_request a) (settled q b) = (settled q b, nothing)
  bus_step go_on closed = (closed, nothing)
  bus_step go_on (asking q) = (asking q, nothing)
  bus_step go_on (settled q a) = (closed, nothing)

  unfoldable pub answer_of : ℕ → List (ℕ × A) → Option A
  answer_of p [] = none
  answer_of p ((q, a) ∷ rest) = if q == p then some a else answer_of p rest

  abbrev shown_of : Opened A → Shown
  shown_of (answered a) = refused
  shown_of (waiting p) = waits

  unfoldable pub resume_settled : Option ℕ → PromptState R A → PromptState R A
  unfolding answer_of resume
  resume_settled none s = s
  resume_settled (some p) s = elim (answer_of p s.answers) [
    | none ↦ s
    | some a ↦ resume key refusal s
  ]

  -- The opener goes on only when its promise has an answer.
  unfoldable pub store_step : PromptAction R A → PromptState R A → PromptState R A × Shown
  unfolding open_prompt clear_prompt resume_settled
  store_step (open_request r) s =
      let opened = open_prompt key refusal r s in (opened.0, shown_of opened.1)
  store_step (answer_request a) s = (clear_prompt key refusal a s, nothing)
  store_step go_on s = (resume_settled s.suspended s, nothing)

  unfoldable pub run_store :
      List (PromptAction R A) → PromptState R A → PromptState R A × List Shown
  unfolding store_step
  run_store [] s = (s, [])
  run_store (x ∷ xs) s =
      let (t, shown) = store_step x s in let (u, rest) = run_store xs t in (u, shown ∷ rest)

  unfoldable pub run_bus : List (PromptAction R A) → Bus R A → Bus R A × List Shown
  unfolding bus_step
  run_bus [] b = (b, [])
  run_bus (x ∷ xs) b =
      let (c, shown) = bus_step x b in let (d, rest) = run_bus xs c in (d, shown ∷ rest)

  abbrev Matches : PromptState R A → Bus R A → Type 0
  Matches s closed =
      (s.pending_request ≡ none)
      × (s.resolve_request ≡ none)
      × (s.active_prompt ≡ none)
      × (s.suspended ≡ none)
  Matches s (asking r) =
      (p : ℕ) × (p < s.next_promise)
      × (s.pending_request ≡ some r)
      × (s.resolve_request ≡ some p)
      × (s.active_prompt ≡ some (key r, p))
      × (s.suspended ≡ some p)
      × (answer_of p s.answers ≡ none)
  Matches s (settled r a) =
      (p : ℕ) × (p < s.next_promise)
      × (s.pending_request ≡ none)
      × (s.resolve_request ≡ none)
      × (s.active_prompt ≡ some (key r, p))
      × (s.suspended ≡ some p)
      × (answer_of p s.answers ≡ some a)

  -- The store implements the bus: the request that is shown and its promise are those of the bus, the
  -- promise has an answer exactly when the bus has it, and the numbers of promises are not used again.
  pub record Implements (s : PromptState R A) (b : Bus R A) : Type 0 where
    pub below : All (λ (kv : ℕ × A). kv.0 < s.next_promise) s.answers
    pub matched : Matches s b

  answer_of-new :
      (p : ℕ) (answers : List (ℕ × A))
      → All (λ (kv : ℕ × A). kv.0 < p) answers
      → answer_of p answers ≡ none
  unfolding answer_of
  answer_of-new p [] h = refl
  answer_of-new p ((q, a) ∷ rest) h = ground (arith, h.0, answer_of-new p rest h.1)

  -- A step of the store shows what the step of the bus shows, and ends where it ends.
  Simulates : PromptState R A × Shown → Bus R A × Shown → Type 0
  Simulates (t, shown) (c, seen) = Implements t c × (shown ≡ seen)

  Simulates-same :
      (x y : PromptState R A × Shown) (c : Bus R A × Shown) → x ≡ y → Simulates y c → Simulates x c
  Simulates-same x y c e h = subst (λ z. Simulates z c) (sym e) h

  -- A request that finds an active prompt.
  Simulates-busy :
      (r q : R) (p : ℕ) (s : PromptState R A) (b : Bus R A)
      → s.active_prompt ≡ some (key q, p)
      → Implements s b
      → Simulates (store_step (open_request r) s) (b, joins r q)
  unfolding store_step open_prompt Simulates
  Simulates-busy r q p s b busy v = elim (Bool-cases (key q === key r)) [
    | inl same ↦ rw (open_prompt, busy, same) (v, refl)
    | inr other ↦ rw (open_prompt, busy, other) (v, refl)
  ]

  Simulates-open :
      (r : R) (s : PromptState R A) (b : Bus R A)
      → Implements s b
      → Simulates (store_step (open_request r) s) (bus_step (open_request r) b)
  unfolding bus_step
  Simulates-open r s (asking q) v = let m = v.matched in Simulates-busy r q m.0 s (asking q) m.4 v
  Simulates-open r s (settled q a) v =
      let m = v.matched in Simulates-busy r q m.0 s (settled q a) m.4 v
  Simulates-open r s closed v =
      Simulates-same _ ((open_fresh key refusal r s).0, waits) (asking r, waits)
        (unfold store_step in unfold open_prompt in rw (open_prompt, v.matched.2) refl)
        (unfold Simulates in (opened, refl))
    where
      opened : Implements (open_fresh key refusal r s).0 (asking r)
      opened =
          unfold open_fresh in
          record {
            below = All-weaken _ _ s.answers (λ kv h. omega (arith, h)) v.below;
            matched = (
              s.next_promise,
              omega arith,
              refl,
              refl,
              refl,
              refl,
              answer_of-new s.next_promise s.answers v.below,
            );
          }

  without_request : PromptState R A → PromptState R A
  without_request s = record s { pending_request = none; resolve_request = none }

  Simulates-answer :
      (a : A) (s : PromptState R A) (b : Bus R A)
      → Implements s b
      → Simulates (store_step (answer_request a) s) (bus_step (answer_request a) b)
  unfolding bus_step without_request
  Simulates-answer a s closed v =
      Simulates-same _ (without_request s, nothing) (closed, nothing)
        (unfold store_step in unfold clear_prompt in rw (settle, v.matched.1) refl)
        (unfold Simulates in
          (record { below = v.below; matched = (refl, refl, v.matched.2, v.matched.3) }, refl))
  Simulates-answer a s (settled q b) v =
      let m = v.matched in
      Simulates-same _ (without_request s, nothing) (settled q b, nothing)
        (unfold store_step in unfold clear_prompt in rw (settle, m.3) refl)
        (unfold Simulates in
          (record { below = v.below; matched = (m.0, m.1, refl, refl, m.4, m.5, m.6) }, refl))
  Simulates-answer a s (asking q) v =
      let m = v.matched in
      Simulates-same _ (without_request (record s { answers = (m.0, a) ∷ s.answers }), nothing)
        (settled q a, nothing) (unfold store_step in unfold clear_prompt in rw (settle, m.3) refl)
        (unfold Simulates in
          (
            record {
              below = (m.1, v.below);
              matched = (m.0, m.1, refl, refl, m.4, m.5, unfold answer_of in ground arith);
            },
            refl,
          ))

  Simulates-go_on :
      (s : PromptState R A) (b : Bus R A)
      → Implements s b
      → Simulates (store_step go_on s) (bus_step go_on b)
  unfolding bus_step
  Simulates-go_on s closed v =
      Simulates-same _ (s, nothing) (closed, nothing)
        (unfold store_step in rw (resume_settled, v.matched.3) refl) (unfold Simulates in (v, refl))
  Simulates-go_on s (asking q) v =
      let m = v.matched in
      Simulates-same _ (s, nothing) (asking q, nothing)
        (unfold store_step in rw (resume_settled, m.5, m.6) refl) (unfold Simulates in (v, refl))
  Simulates-go_on s (settled q a) v =
      let m = v.matched in
      Simulates-same _ (record s { active_prompt = none; suspended = none }, nothing)
        (closed, nothing) (unfold store_step in rw (resume_settled, m.5, m.6) refl)
        (unfold Simulates in (record { below = v.below; matched = (m.2, m.3, refl, refl) }, refl))

  Simulates-step :
      (x : PromptAction R A) (s : PromptState R A) (b : Bus R A)
      → Implements s b
      → Simulates (store_step x s) (bus_step x b)
  Simulates-step (open_request r) s b v = Simulates-open r s b v
  Simulates-step (answer_request a) s b v = Simulates-answer a s b v
  Simulates-step go_on s b v = Simulates-go_on s b v

  run-Implements :
      (xs : List (PromptAction R A)) (s : PromptState R A) (b : Bus R A)
      → Implements s b
      → Implements (run_store xs s).0 (run_bus xs b).0 × ((run_store xs s).1 ≡ (run_bus xs b).1)
  unfolding run_store run_bus Simulates
  run-Implements [] s b v = (v, refl)
  run-Implements (x ∷ xs) s b v =
      let one = Simulates-step x s b v in
      let rest = run-Implements xs (store_step x s).0 (bus_step x b).0 one.0 in
      (rest.0, cc (one.1, rest.1))

  -- Whatever is called in whatever order, the store ends where the bus ends, and each request waits or is
  -- refused as the bus says.
  pub run_store-Implements :
      (xs : List (PromptAction R A))
      → Implements (run_store xs (closed_state key refusal)).0 (run_bus xs closed).0
        × ((run_store xs (closed_state key refusal)).1 ≡ (run_bus xs closed).1)
  unfolding closed_state
  run_store-Implements xs =
      run-Implements xs (closed_state key refusal) closed
        record { below = tt; matched = (refl, refl, refl, refl) }
