-- ===== src/Vault/Trust.antt =====
-- `evaluateVaultSyncEnvelopeTrust` of apps/desktop/src/lib/vault-sync-contract.ts: which envelopes a
-- policy accepts.
use terminal_workspace.Common.{
  ◌≡◌, ◌≢◌, ◌∙◌, ◌⊎◌, ◌↔◌, refl, Bool, true, false, Option, none, some, List, [], ◌∷◌, ◌++◌, ap,
  inl, inr, Text, ◌===◌, ===_iff, Bool-cases, Option-cases, arith, find, All,
}
use mathlib.Core.List.{append-nil}
use mathlib.Core.Path.{subst}
use terminal_workspace.Common.Dict.{includes}
use terminal_workspace.Common.Order.{text_ltb}
use terminal_workspace.Vault.Contract.{
  VaultSyncEnvelope, VaultSyncTrustedKey, VaultSyncTrustPolicy, present_and, allows_vault, verdict,
  evaluate_key, evaluate_found, matched_key, evaluate_vault_sync_envelope_trust,
}

-- The time is before the given one, if one is given.
abbrev IsUntil : Text → Option Text → Type 0
IsUntil t none = Unit
IsUntil t (some limit) = (limit ≡ []) ⊎ (text_ltb limit t ≡ false)

abbrev IsAllowed : Text → Option (List Text) → Type 0
IsAllowed vault none = Unit
IsAllowed vault (some vaults) = includes vault vaults ≡ true

-- What the key must satisfy for the envelope.
pub record IsTrusting (envelope : VaultSyncEnvelope) (key : VaultSyncTrustedKey) : Type 0 where
  pub same_algorithm : key.algorithm ≡ envelope.cipher.algorithm
  pub vault : IsAllowed envelope.header.vault_id key.allowed_vault_ids
  pub begun : text_ltb envelope.header.exported_at key.valid_from ≡ false
  pub not_retired : IsUntil envelope.header.exported_at key.retire_after

allows_vault_iff :
    (vault : Text) (o : Option (List Text)) → (allows_vault o vault ≡ true) ↔ IsAllowed vault o
unfolding allows_vault
allows_vault_iff vault none = (λ h. tt, λ h. refl)
allows_vault_iff vault (some vaults) = (λ h. h, λ h. h)

retired_iff :
    (t : Text) (o : Option Text) → (present_and o (λ limit. text_ltb limit t) ≡ false) ↔ IsUntil t o
unfolding present_and
retired_iff t none = (λ h. tt, λ h. refl)
retired_iff t (some []) = (λ h. inl refl, λ h. refl)
retired_iff t (some (c ∷ s)) = (λ h. inr h, λ k. elim k [ inl e ↦ cc | inr h ↦ h ])

evaluate_key-IsTrusting :
    (envelope : VaultSyncEnvelope) (now : Text) (key : VaultSyncTrustedKey)
    → ((evaluate_key envelope now key).accepted ≡ true) ↔ IsTrusting envelope key
unfolding evaluate_key verdict
evaluate_key-IsTrusting envelope now key =
    elim (Bool-cases (key.algorithm === envelope.cipher.algorithm)) [
      | inr other ↦ rw other (
        λ h. cc,
        λ trust. ground (
          arith,
          other,
          (===_iff key.algorithm envelope.cipher.algorithm).1 trust.same_algorithm,
        ),
      )
      | inl same ↦ elim (Bool-cases (allows_vault key.allowed_vault_ids envelope.header.vault_id)) [
        | inr foreign ↦
            rw (same, foreign) (λ h. cc, λ trust. ground (arith, foreign, allowed.1 trust.vault))
        | inl native ↦ elim (Bool-cases (text_ltb envelope.header.exported_at key.valid_from)) [
          | inl early ↦
              rw (same, native, early) (λ h. cc, λ trust. ground (arith, early, trust.begun))
          | inr begun ↦ elim (Bool-cases is_retired) [
            | inl late ↦
                rw (same, native, begun, late)
                  (λ h. cc, λ trust. ground (arith, late, until.1 trust.not_retired))
            | inr in_time ↦
                rw (same, native, begun, in_time)
                  (
                    λ h. record {
                      same_algorithm = (===_iff key.algorithm envelope.cipher.algorithm).0 same;
                      vault = allowed.0 native;
                      begun = begun;
                      not_retired = until.0 in_time;
                    },
                    λ trust. ground arith,
                  )
          ]
        ]
      ]
    ]
  where
    is_retired : Bool
    is_retired = present_and key.retire_after (λ t. text_ltb t envelope.header.exported_at)

    allowed :
        (allows_vault key.allowed_vault_ids envelope.header.vault_id ≡ true)
        ↔ IsAllowed envelope.header.vault_id key.allowed_vault_ids
    allowed = allows_vault_iff envelope.header.vault_id key.allowed_vault_ids

    until : (is_retired ≡ false) ↔ IsUntil envelope.header.exported_at key.retire_after
    until = retired_iff envelope.header.exported_at key.retire_after

-- A key is the first of the list that has the id.
abbrev pub IsFirst : Text → List VaultSyncTrustedKey → VaultSyncTrustedKey → Type 0
IsFirst i keys key =
    (key.key_id ≡ i)
    × ((before : List VaultSyncTrustedKey) × (after : List VaultSyncTrustedKey) × (keys
          ≡ before ++ key ∷ after)
        × All (λ k. k.key_id ≢ i) before)

abbrev by_id : Text → List VaultSyncTrustedKey → Option VaultSyncTrustedKey
by_id i = find (λ (k : VaultSyncTrustedKey). k.key_id === i)

no_key_found :
    (i : Text) (keys : List VaultSyncTrustedKey)
    → by_id i keys ≡ none
    → All (λ k. k.key_id ≢ i) keys
no_key_found i [] h = tt
no_key_found i (k ∷ keys) h = elim (Bool-cases (k.key_id === i)) [
  | inl same ↦ cc (rw same at h)
  | inr other ↦
      (λ e. ground (arith, other, (===_iff k.key_id i).1 e), no_key_found i keys (rw other at h))
]

past_others :
    (i : Text) (before keys : List VaultSyncTrustedKey)
    → All (λ k. k.key_id ≢ i) before
    → by_id i (before ++ keys) ≡ by_id i keys
past_others i [] keys a = refl
past_others i (k ∷ before) keys a = elim (Bool-cases (k.key_id === i)) [
  | inl same ↦ absurd (a.0 ((===_iff k.key_id i).0 same))
  | inr other ↦ rw other (past_others i before keys a.1)
]

IsFirst-by_id :
    (i : Text) (keys : List VaultSyncTrustedKey) (key : VaultSyncTrustedKey)
    → IsFirst i keys key
    → by_id i keys ≡ some key
IsFirst-by_id i keys key (own, (before, after, split, others)) =
    ap (by_id i) split
    ∙ past_others i before (key ∷ after) others
    ∙ rw ((===_iff key.key_id i).1 own) refl

by_id-IsFirst :
    (i : Text) (keys : List VaultSyncTrustedKey) (key : VaultSyncTrustedKey)
    → by_id i keys ≡ some key
    → IsFirst i keys key
by_id-IsFirst i [] key h = cc
by_id-IsFirst i (k ∷ keys) key h = elim (Bool-cases (k.key_id === i)) [
  | inl same ↦
      let e : k ≡ key = cc (rw same at h) in
      subst (IsFirst i (k ∷ keys)) e ((===_iff k.key_id i).0 same, ([], keys, refl, tt))
  | inr other ↦
      let (own, (before, after, split, others)) = by_id-IsFirst i keys key (rw other at h) in
      (
        own,
        (
          k ∷ before,
          after,
          ap (λ r. k ∷ r) split,
          (λ e. ground (arith, other, (===_iff k.key_id i).1 e), others),
        ),
      )
]

-- Under which keys of the policy an envelope is accepted: none has its id and the policy allows
-- unknown keys, or the first that has its id trusts it.
abbrev pub IsAcceptable : VaultSyncEnvelope → VaultSyncTrustPolicy → Type 0
IsAcceptable envelope policy =
    (All (λ k. k.key_id ≢ envelope.cipher.key_id) policy.trusted_keys
      × (policy.allow_unknown_keys ≡ true))
    ⊎ ((key : VaultSyncTrustedKey) × IsFirst envelope.cipher.key_id policy.trusted_keys key
        × IsTrusting envelope key)

-- The policy accepts an envelope exactly if no trusted key has its key's id and the policy allows
-- unknown keys, or the first trusted key with that id has the same algorithm, allows the vault, was
-- valid by the time of the export, and was not retired before it. The current time does not matter.
pub evaluate_vault_sync_envelope_trust_accepts :
    (envelope : VaultSyncEnvelope) (policy : VaultSyncTrustPolicy) (now : Text)
    → ((evaluate_vault_sync_envelope_trust envelope policy now).accepted ≡ true)
      ↔ IsAcceptable envelope policy
unfolding evaluate_vault_sync_envelope_trust evaluate_found matched_key
evaluate_vault_sync_envelope_trust_accepts envelope policy now =
    elim (Option-cases (by_id i keys)) [
      | inl missing ↦ rw missing (
        λ h. inl (no_key_found i keys missing, h),
        λ h. elim h [
          | inl (gone, allowed) ↦ allowed
          | inr (key, first, trust) ↦ cc (missing, IsFirst-by_id i keys key first)
        ],
      )
      | inr (key, found) ↦ rw found (
        λ h.
            inr
              (key, by_id-IsFirst i keys key found, (evaluate_key-IsTrusting envelope now key).0 h),
        λ h. elim h [
          | inl (gone, allowed) ↦ cc (found, past_others i keys [] gone, append-nil keys)
          | inr (other, first, trust) ↦
              let same : other ≡ key = cc (found, IsFirst-by_id i keys other first) in
              (evaluate_key-IsTrusting envelope now key).1 (subst (IsTrusting envelope) same trust)
        ],
      )
    ]
  where
    i : Text
    i = envelope.cipher.key_id

    keys : List VaultSyncTrustedKey
    keys = policy.trusted_keys
