-- ===== src/Vault/Contract.antt =====
-- The sync envelopes of apps/desktop/src/lib/vault-sync-contract.ts: how an envelope relates to this
-- device's snapshots, which envelopes the trust policy accepts, and the digest. `sha256` stands for
-- sha256Hex. An envelope and a policy are those that the parsers have passed.
use terminal_workspace.Common.{
  Bool, true, false, not, ◌&&◌, Option, none, some, List, [], ◌∷◌, ◌++◌, if◌then◌else◌, Text, text,
  ◌===◌, is_empty, find, or_else,
}
use terminal_workspace.Common.Dict.{includes}
use terminal_workspace.Common.Order.{text_ltb}

pub data LocalConfigImportStrategy : Type 0 where
  legacy : LocalConfigImportStrategy
  same_snapshot : LocalConfigImportStrategy
  fast_forward : LocalConfigImportStrategy
  divergent : LocalConfigImportStrategy
  adopt_vault : LocalConfigImportStrategy

-- The numbers as they print.
pub record VaultSyncCountSummary : Type 0 where
  pub hosts : Text
  pub keys : Text
  pub snippets : Text
  pub known_hosts : Text

pub record VaultSyncEnvelopeHeader : Type 0 where
  pub schema : Text
  pub version : Text
  pub payload_kind : Text
  pub vault_id : Text
  pub source_device_id : Text
  pub snapshot_id : Text
  pub base_snapshot_id : Option Text
  pub exported_at : Text
  pub record_counts : VaultSyncCountSummary
  pub deletion_counts : VaultSyncCountSummary

pub record VaultSyncCipherPayload : Type 0 where
  pub algorithm : Text
  pub key_id : Text
  pub nonce : Text
  pub ciphertext : Text
  pub auth_tag : Text

-- `digest` is the value of the digest, whose algorithm is SHA-256.
pub record VaultSyncEnvelope : Type 0 where
  pub header : VaultSyncEnvelopeHeader
  pub cipher : VaultSyncCipherPayload
  pub digest : Text

pub record VaultSyncLocalContext : Type 0 where
  pub vault_id : Text
  pub last_applied_snapshot_id : Option Text

pub record VaultSyncEnvelopeAnalysis : Type 0 where
  pub strategy : LocalConfigImportStrategy
  pub digest_matches : Bool
  pub header : VaultSyncEnvelopeHeader

pub record VaultSyncTrustedKey : Type 0 where
  pub key_id : Text
  pub algorithm : Text
  pub valid_from : Text
  pub rotate_after : Option Text
  pub retire_after : Option Text
  pub allowed_vault_ids : Option (List Text)
  pub replacement_key_ids : List Text

pub record VaultSyncTrustPolicy : Type 0 where
  pub allow_unknown_keys : Bool
  pub trusted_keys : List VaultSyncTrustedKey

pub data VaultSyncTrustStatus : Type 0 where
  active : VaultSyncTrustStatus
  rotating : VaultSyncTrustStatus
  retired : VaultSyncTrustStatus
  not_yet_valid : VaultSyncTrustStatus
  unknown : VaultSyncTrustStatus
  vault_mismatch : VaultSyncTrustStatus
  algorithm_mismatch : VaultSyncTrustStatus

-- The result without its `reason`, a text for display that the status determines with `accepted`.
pub record VaultSyncTrustAnalysis : Type 0 where
  pub accepted : Bool
  pub status : VaultSyncTrustStatus
  pub matched_key_id : Option Text
  pub replacement_key_ids : List Text

-- `a === b`, where both may be null.
unfoldable pub same_option : Option Text → Option Text → Bool
unfolding ◌===◌
same_option none none = true
same_option none (some b) = false
same_option (some a) none = false
same_option (some a) (some b) = a === b

-- `s && test`, for a text that may be null: null and the empty text are falsy.
unfoldable pub present_and : Option Text → (Text → Bool) → Bool
present_and none test = false
present_and (some a) test = not (is_empty a) && test a

unfoldable pub classify_vault_sync_strategy :
    VaultSyncEnvelopeHeader → VaultSyncLocalContext → LocalConfigImportStrategy
unfolding same_option present_and ◌===◌
classify_vault_sync_strategy header context =
    if same_option (some (header.snapshot_id)) context.last_applied_snapshot_id
    then same_snapshot
    else if not (header.vault_id === context.vault_id)
    then adopt_vault
    else if present_and context.last_applied_snapshot_id
        (λ a. same_option header.base_snapshot_id (some a))
    then fast_forward
    else divergent

unfoldable pub join : Text → List Text → Text
join sep [] = []
join sep (x ∷ []) = x
join sep (x ∷ y ∷ ys) = x ++ sep ++ join sep (y ∷ ys)

unfoldable pub join_counts : VaultSyncCountSummary → Text
unfolding join
join_counts c = join (text ":") (c.hosts ∷ c.keys ∷ c.snippets ∷ c.known_hosts ∷ [])

unfoldable pub create_digest_material : VaultSyncEnvelopeHeader → VaultSyncCipherPayload → Text
unfolding join join_counts
create_digest_material header cipher = join (text "|") (
    header.schema
    ∷ header.version
    ∷ header.payload_kind
    ∷ header.vault_id
    ∷ header.source_device_id
    ∷ header.snapshot_id
    ∷ or_else header.base_snapshot_id []
    ∷ header.exported_at
    ∷ join_counts header.record_counts
    ∷ join_counts header.deletion_counts
    ∷ cipher.algorithm
    ∷ cipher.key_id
    ∷ cipher.nonce
    ∷ cipher.ciphertext
    ∷ cipher.auth_tag
    ∷ [])

-- What `inspectVaultSyncEnvelope` does with an envelope that parses.
unfoldable pub inspect_vault_sync_envelope :
    (Text → Text) → VaultSyncEnvelope → VaultSyncLocalContext → VaultSyncEnvelopeAnalysis
unfolding classify_vault_sync_strategy create_digest_material ◌===◌
inspect_vault_sync_envelope sha256 envelope context = record {
  strategy = classify_vault_sync_strategy envelope.header context;
  digest_matches =
      sha256 (create_digest_material envelope.header envelope.cipher) === envelope.digest;
  header = envelope.header;
}

-- `!key.allowedVaultIds || key.allowedVaultIds.includes(vaultId)`.
unfoldable pub allows_vault : Option (List Text) → Text → Bool
unfolding includes
allows_vault none vault = true
allows_vault (some vaults) vault = includes vault vaults

unfoldable pub verdict : Bool → VaultSyncTrustStatus → VaultSyncTrustedKey → VaultSyncTrustAnalysis
verdict accepted status key = record {
  accepted = accepted;
  status = status;
  matched_key_id = some (key.key_id);
  replacement_key_ids = key.replacement_key_ids;
}

-- The rest of the function, for the key that was found.
unfoldable pub evaluate_key :
    VaultSyncEnvelope → Text → VaultSyncTrustedKey → VaultSyncTrustAnalysis
unfolding allows_vault verdict present_and text_ltb ◌===◌
evaluate_key envelope now key =
    if not (key.algorithm === envelope.cipher.algorithm)
    then verdict false algorithm_mismatch key
    else if not (allows_vault key.allowed_vault_ids envelope.header.vault_id)
    then verdict false vault_mismatch key
    else if text_ltb envelope.header.exported_at key.valid_from
    then verdict false not_yet_valid key
    else if present_and key.retire_after (λ t. text_ltb t envelope.header.exported_at)
    then verdict false retired key
    else if present_and key.rotate_after (λ t. not (text_ltb now t))
    then verdict true rotating key
    else verdict true active key

unfoldable pub evaluate_found :
    VaultSyncEnvelope
    → VaultSyncTrustPolicy
    → Text
    → Option VaultSyncTrustedKey
    → VaultSyncTrustAnalysis
unfolding evaluate_key
evaluate_found envelope policy now none = record {
  accepted = policy.allow_unknown_keys;
  status = unknown;
  matched_key_id = none;
  replacement_key_ids = [];
}
evaluate_found envelope policy now (some key) = evaluate_key envelope now key

-- `policy.trustedKeys.find((entry) => entry.keyId === envelope.cipher.keyId)`.
unfoldable pub matched_key : VaultSyncEnvelope → VaultSyncTrustPolicy → Option VaultSyncTrustedKey
unfolding ◌===◌
matched_key envelope policy =
    find (λ (k : VaultSyncTrustedKey). k.key_id === envelope.cipher.key_id) policy.trusted_keys

unfoldable pub evaluate_vault_sync_envelope_trust :
    VaultSyncEnvelope → VaultSyncTrustPolicy → Text → VaultSyncTrustAnalysis
unfolding evaluate_found matched_key
evaluate_vault_sync_envelope_trust envelope policy now =
    evaluate_found envelope policy now (matched_key envelope policy)
