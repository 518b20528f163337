-- ===== src/Secrets/Routing.antt =====
-- `loadSecretsWithMultiStageMigration` and `persistSecretsWithIdentityRouting` of
-- apps/desktop/src/store/connection-secrets-store.ts. Where they await calls of the keychain, no other call of it
-- comes between.
use terminal_workspace.Common.{
  Bool, true, false, Option, none, some, [], if◌then◌else◌, Text, is_empty,
}
use terminal_workspace.Connect.Types.{ConnectionSecrets}
use terminal_workspace.Connect.Build.{given_id}
use terminal_workspace.Secrets.Keychain.{NativeKeychain}

-- The passphrase that the host itself keeps.
unfoldable pub per_host_passphrase : Option Text → Option Text → Text → Text
per_host_passphrase none none p = p
per_host_passphrase (some i) fingerprint p = []
per_host_passphrase none (some f) p = []

module _ {K : Type 0} (n : NativeKeychain K) where
  -- The passphrase has moved to another service if its store succeeded; then the host's own is emptied.
  unfoldable pub emptied : Text → ConnectionSecrets → K × Bool → K
  emptied host_id per_host r =
      if r.1 then (n.store_host host_id (record per_host { passphrase = [] }) r.0).0 else r.0

  -- Stage 3: the passphrase of the host moves to the identity or to the key.
  unfoldable pub moved : Text → Option Text → Option Text → ConnectionSecrets → K → K
  unfolding emptied
  moved host_id (some i) fingerprint per_host k =
      emptied host_id per_host (n.store_identity i per_host.passphrase k)
  moved host_id none (some f) per_host k =
      emptied host_id per_host (n.store_key f per_host.passphrase k)
  moved host_id none none per_host k = k

  unfoldable pub load_host_stage :
      Text → Option Text → Option Text → ConnectionSecrets → K → Option (ConnectionSecrets × K)
  unfolding moved
  load_host_stage host_id identity_id fingerprint per_host k = some (
    per_host,
    if is_empty per_host.passphrase then k else moved host_id identity_id fingerprint per_host k,
  )

  -- Stage 2, from the key forward to the identity.
  unfoldable pub forwarded : Option Text → Text → K → K
  forwarded none p k = k
  forwarded (some i) p k = (n.store_identity i p k).0

  unfoldable pub load_key_stage :
      Text → Option Text → Option Text → ConnectionSecrets → K → Option (ConnectionSecrets × K)
  unfolding load_host_stage forwarded
  load_key_stage host_id identity_id none per_host k =
      load_host_stage host_id identity_id none per_host k
  load_key_stage host_id identity_id (some f) per_host k = elim (n.load_key f k) [
    | none ↦ none
    | some p ↦
        if is_empty p
        then load_host_stage host_id identity_id (some f) per_host k
        else some (record per_host { passphrase = p }, forwarded identity_id p k)
  ]

  -- Stage 1.
  unfoldable pub load_identity_stage :
      Text → Option Text → Option Text → ConnectionSecrets → K → Option (ConnectionSecrets × K)
  unfolding load_key_stage
  load_identity_stage host_id none fingerprint per_host k =
      load_key_stage host_id none fingerprint per_host k
  load_identity_stage host_id (some i) fingerprint per_host k = elim (n.load_identity i k) [
    | none ↦ none
    | some p ↦
        if is_empty p
        then load_key_stage host_id (some i) fingerprint per_host k
        else some (record per_host { passphrase = p }, k)
  ]

  -- `none` when a load throws, which is before every store.
  unfoldable pub load_secrets :
      Text → Option Text → Option Text → K → Option (ConnectionSecrets × K)
  unfolding load_identity_stage given_id
  load_secrets host_id identity_id fingerprint k = elim (n.load_host host_id k) [
    | none ↦ none
    | some per_host ↦
        load_identity_stage host_id (given_id identity_id) (given_id fingerprint) per_host k
  ]

  unfoldable pub store_passphrase : Option Text → Option Text → Text → K → K × Bool
  store_passphrase none none p k = (k, true)
  store_passphrase (some i) fingerprint p k =
      if is_empty p then (k, true) else n.store_identity i p k
  store_passphrase none (some f) p k = if is_empty p then (k, true) else n.store_key f p k

  -- What comes after the host's entry was stored, unless that threw.
  unfoldable pub and_passphrase : Option Text → Option Text → Text → K × Bool → K × Bool
  unfolding store_passphrase
  and_passphrase identity_id fingerprint p r =
      if r.1 then store_passphrase identity_id fingerprint p r.0 else (r.0, false)

  -- False when a store throws, which leaves the others undone.
  unfoldable pub persist_secrets :
      Text → Option Text → Option Text → ConnectionSecrets → K → K × Bool
  unfolding and_passphrase per_host_passphrase given_id
  persist_secrets host_id identity_id fingerprint v k =
      let i = given_id identity_id in
      let f = given_id fingerprint in
      and_passphrase i f v.passphrase
        (n.store_host host_id (record v { passphrase = per_host_passphrase i f v.passphrase }) k)
