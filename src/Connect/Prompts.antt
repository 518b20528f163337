-- ===== src/Connect/Prompts.antt =====
-- The buses on which a connection waits for the user: apps/desktop/src/store/fingerprint-trust-prompt-store.ts
-- and apps/desktop/src/store/connection-secret-prompt-store.ts, which differ in the request `R`, in the
-- answer `A`, and in the answer `refusal` of a request that may not be opened. A promise is a number; the
-- calls that wait for a promise are in a list, and the text after `await` is a step of its own.
use terminal_workspace.Common.{
  ℕ, suc, Bool, Option, none, some, List, [], ◌∷◌, if◌then◌else◌, Text, ◌===◌, text,
}
use terminal_workspace.Sessions.Titles.{print_nat}
use terminal_workspace.Vault.Contract.{join}
use terminal_workspace.Connect.KnownHosts.{KnownHostScanResult}

pub record FingerprintTrustPromptRequest : Type 0 where
  pub host_id : Text
  pub host_label : Text
  pub hostname : Text
  pub port : ℕ
  pub candidates : List KnownHostScanResult

unfoldable pub fingerprint_prompt_key : FingerprintTrustPromptRequest → Text
unfolding join print_nat
fingerprint_prompt_key r = join (text ":") (r.host_id ∷ r.hostname ∷ print_nat r.port ∷ [])

pub record ConnectionSecretPromptRequest : Type 0 where
  pub action_label : Text
  pub host_id : Text
  pub host_label : Text
  pub hostname : Text
  pub username : Text
  pub needs_password : Bool
  pub needs_passphrase : Bool

unfoldable pub secret_prompt_key : ConnectionSecretPromptRequest → Text
unfolding join
secret_prompt_key r = join (text ":") (
    r.action_label
    ∷ r.host_id
    ∷ (if r.needs_password then text "password" else [])
    ∷ (if r.needs_passphrase then text "passphrase" else [])
    ∷ [])

-- What a call of `openPrompt` gets: an answer at once, or a promise to wait for.
pub data Opened (A : Type 0) : Type 0 where
  answered : A → Opened A
  waiting : ℕ → Opened A

-- The store, the module's `activePromptKey` and `activePromptPromise`, and the promises with their
-- answers. `suspended` is the promise that the opener awaits before it resets the two.
pub record PromptState (R : Type 0) (A : Type 0) : Type 0 where
  pub pending_request : Option R
  pub resolve_request : Option ℕ
  pub active_prompt : Option (Text × ℕ)
  pub suspended : Option ℕ
  pub next_promise : ℕ
  pub answers : List (ℕ × A)

module _ {R : Type 0} {A : Type 0} (key : R → Text) (refusal : A) where
  unfoldable pub closed_state : PromptState R A
  closed_state = record {
    pending_request = none;
    resolve_request = none;
    active_prompt = none;
    suspended = none;
    next_promise = 0;
    answers = [];
  }

  unfoldable pub open_fresh : R → PromptState R A → PromptState R A × Opened A
  open_fresh r s = (
    record s {
      pending_request = some r;
      resolve_request = some (s.next_promise);
      active_prompt = some (key r, s.next_promise);
      suspended = some (s.next_promise);
      next_promise = suc (s.next_promise);
    },
    waiting s.next_promise,
  )

  -- `openPrompt`, up to the `await`.
  unfoldable pub open_prompt : R → PromptState R A → PromptState R A × Opened A
  unfolding open_fresh ◌===◌
  open_prompt r s = elim s.active_prompt [
    | none ↦ open_fresh r s
    | some (k, p) ↦ if k === key r then (s, waiting p) else (s, answered refusal)
  ]

  -- `resolve(answer)`, for a resolver that is there.
  unfoldable pub settle : Option ℕ → A → PromptState R A → PromptState R A
  settle none a s = s
  settle (some p) a s = record s { answers = (p, a) ∷ s.answers }

  unfoldable pub clear_prompt : A → PromptState R A → PromptState R A
  unfolding settle
  clear_prompt a s = record (settle s.resolve_request a s) {
    pending_request = none;
    resolve_request = none;
  }

  -- The opener goes on when its promise has an answer, and resets the active prompt.
  unfoldable pub resume : PromptState R A → PromptState R A
  resume s = record s { active_prompt = none; suspended = none }
