-- ===== src/Secrets/Store.antt =====
-- The store of apps/desktop/src/store/connection-secrets-store.ts and the key of a host,
-- apps/desktop/src/lib/host-key-fingerprint.ts. `is_tauri_runtime`, and the hosts, identities and keys of the
-- other stores, are arguments.
use terminal_workspace.Common.{
  Bool, false, not, ◌||◌, Option, none, some, List, [], ◌∷◌, if◌then◌else◌, Text, ◌===◌, ◌==◌,
  is_empty, trim, find,
}
use terminal_workspace.Common.Dict.{lookup, insert, remove}
use terminal_workspace.Hosts.Types.{HostRecord}
use terminal_workspace.Vault.Records.{KeyRecord, IdentityRecord}
use terminal_workspace.Connect.Types.{ConnectionSecrets}
use terminal_workspace.Connect.Build.{find_host, resolve_identity_for_host}
use terminal_workspace.Secrets.Keychain.{NativeKeychain}
use terminal_workspace.Secrets.Routing.{load_secrets, persist_secrets}

pub record ConnectionSecretRecord : Type 0 where
  pub password : Text
  pub passphrase : Text
  pub updated_at : Text

-- The secrets in memory, and the keychain.
pub record SecretsState (K : Type 0) : Type 0 where
  pub secrets_by_host_id : List (Text × ConnectionSecretRecord)
  pub keychain : K

unfoldable pub has_connection_secrets : ConnectionSecrets → Bool
has_connection_secrets v = not (is_empty v.password) || not (is_empty v.passphrase)

unfoldable pub build_secret_record : Text → ConnectionSecrets → ConnectionSecretRecord
build_secret_record now v = record {
  password = v.password;
  passphrase = v.passphrase;
  updated_at = now;
}

-- `fingerprint.includes(":")`.
unfoldable pub has_colon : Text → Bool
has_colon [] = false
has_colon (c ∷ s) = (c == 58) || has_colon s

unfoldable pub select_key_for_host : Text → List KeyRecord → Option KeyRecord
unfolding trim ◌===◌
select_key_for_host private_key_path keys =
    let trimmed = trim private_key_path in
    if is_empty trimmed
    then none
    else find (λ (e : KeyRecord). trim e.private_key_path === trimmed) keys

unfoldable pub fingerprint_of_key : Option KeyRecord → Option Text
unfolding trim has_colon
fingerprint_of_key none = none
fingerprint_of_key (some key) =
    let fingerprint = trim key.fingerprint in
    if has_colon fingerprint then some fingerprint else none

unfoldable pub resolve_host_key_fingerprint : Text → List HostRecord → List KeyRecord → Option Text
unfolding find_host select_key_for_host fingerprint_of_key
resolve_host_key_fingerprint host_id hosts keys = elim (find_host host_id hosts) [
  | none ↦ none
  | some host ↦ fingerprint_of_key (select_key_for_host host.private_key_path keys)
]

abbrev pub identity_id_of : Option IdentityRecord → Option Text
identity_id_of none = none
identity_id_of (some identity) = some (identity.id)

-- `resolveHostIdentity(hostId)?.id`.
unfoldable pub resolve_host_identity_id : Text → List HostRecord → List IdentityRecord → Option Text
unfolding find_host resolve_identity_for_host
resolve_host_identity_id host_id hosts identities = elim (find_host host_id hosts) [
  | none ↦ none
  | some host ↦ identity_id_of (resolve_identity_for_host host identities)
]

unfoldable pub get_host_connection_secrets :
    Text → List (Text × ConnectionSecretRecord) → ConnectionSecrets
unfolding lookup
get_host_connection_secrets host_id secrets = elim (lookup host_id secrets) [
  | none ↦ record { password = []; passphrase = [] }
  | some r ↦ record { password = r.password; passphrase = r.passphrase }
]

-- What `hydrateHostSecrets` does with the values once they are loaded; other calls may come before it.
unfoldable pub hydrated :
    {K : Type 0}
    → Text
    → Text
    → ConnectionSecrets
    → SecretsState K
    → SecretsState K × Option ConnectionSecretRecord
unfolding has_connection_secrets build_secret_record insert lookup
hydrated now host_id v s =
    if not (has_connection_secrets v)
    then (s, none)
    else elim (lookup host_id s.secrets_by_host_id) [
      | some r ↦ (s, some r)
      | none ↦ (
        record s {
          secrets_by_host_id = insert host_id (build_secret_record now v) s.secrets_by_host_id;
        },
        some (build_secret_record now v),
      )
    ]

module _ {K : Type 0} (n : NativeKeychain K) (hosts : List HostRecord)
    (identities : List IdentityRecord) (keys : List KeyRecord) where
  -- What `setHostSecrets` makes of the keychain; a store that throws is logged.
  unfoldable pub persisted : Text → ConnectionSecrets → K → K × Bool
  unfolding has_connection_secrets resolve_host_identity_id resolve_host_key_fingerprint
  persisted host_id v k =
      if has_connection_secrets v
      then persist_secrets n host_id (resolve_host_identity_id host_id hosts identities)
          (resolve_host_key_fingerprint host_id hosts keys) v k
      else n.clear_host host_id k

module _ {K : Type 0} (n : NativeKeychain K) (is_tauri_runtime : Bool) (hosts : List HostRecord)
    (identities : List IdentityRecord) (keys : List KeyRecord) where
  unfoldable pub set_host_secrets :
      Text → Text → ConnectionSecrets → SecretsState K → SecretsState K
  unfolding persisted build_secret_record insert remove
  set_host_secrets now host_id v s = record {
    secrets_by_host_id =
        if has_connection_secrets v
        then insert host_id (build_secret_record now v) s.secrets_by_host_id
        else remove host_id s.secrets_by_host_id;
    keychain =
        if is_tauri_runtime
        then (persisted n hosts identities keys host_id v s.keychain).0
        else s.keychain;
  }

  unfoldable pub hydrate_host_secrets :
      Text → Text → SecretsState K → SecretsState K × Option ConnectionSecretRecord
  unfolding hydrated resolve_host_identity_id resolve_host_key_fingerprint lookup
  hydrate_host_secrets now host_id s = elim (lookup host_id s.secrets_by_host_id) [
    | some r ↦ (s, some r)
    | none ↦
        if not is_tauri_runtime
        then (s, none)
        else elim (load_secrets n host_id (resolve_host_identity_id host_id hosts identities)
            (resolve_host_key_fingerprint host_id hosts keys) s.keychain) [
              | none ↦ (s, none)
              | some (v, k) ↦ hydrated now host_id v (record s { keychain = k })
            ]
  ]

module _ {K : Type 0} (n : NativeKeychain K) (is_tauri_runtime : Bool) where
  unfoldable pub clear_host_secrets : Text → SecretsState K → SecretsState K
  unfolding remove
  clear_host_secrets host_id s = record {
    secrets_by_host_id = remove host_id s.secrets_by_host_id;
    keychain = if is_tauri_runtime then (n.clear_host host_id s.keychain).0 else s.keychain;
  }

  -- Garbage collection, when a key or an identity is removed.
  unfoldable pub clear_key_passphrase_by_fingerprint : Option Text → K → K
  unfolding has_colon
  clear_key_passphrase_by_fingerprint none k = k
  clear_key_passphrase_by_fingerprint (some f) k =
      if not (has_colon f) || not is_tauri_runtime then k else (n.clear_key f k).0

  unfoldable pub clear_identity_passphrase_by_id : Option Text → K → K
  unfolding trim
  clear_identity_passphrase_by_id none k = k
  clear_identity_passphrase_by_id (some i) k =
      if is_empty (trim i) || not is_tauri_runtime then k else (n.clear_identity i k).0
