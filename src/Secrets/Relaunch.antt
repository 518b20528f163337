-- ===== src/Secrets/Relaunch.antt =====
-- The secrets that the user sets are those of the host after a relaunch, and while they are loaded
-- (apps/desktop/src/store/connection-secrets-store.ts).
use terminal_workspace.Common.{
  ◌≡◌, ◌∙◌, refl, ap, Bool, true, false, Option, none, some, List, [], ◌∷◌, inl, inr, if◌then◌else◌,
  Text, ◌===◌, ===_refl, is_empty, Bool-cases, arith,
}
use terminal_workspace.Common.Dict.{lookup, insert, lookup-insert}
use terminal_workspace.Hosts.Types.{HostRecord}
use terminal_workspace.Vault.Records.{KeyRecord, IdentityRecord}
use terminal_workspace.Connect.Types.{ConnectionSecrets}
use terminal_workspace.Connect.Build.{given_id}
use terminal_workspace.Secrets.Keychain.{NativeKeychain, IsKeychain}
use terminal_workspace.Secrets.Routing.{
  load_secrets, persist_secrets, and_passphrase, per_host_passphrase, store_passphrase,
}
use terminal_workspace.Secrets.Store.{
  ConnectionSecretRecord, SecretsState, has_connection_secrets, build_secret_record,
  resolve_host_key_fingerprint, resolve_host_identity_id, get_host_connection_secrets, persisted,
  set_host_secrets, hydrated, hydrate_host_secrets,
}
use terminal_workspace.Secrets.Found.{
  found, found_given, secrets, found-identity, found-key, found-host,
}
use terminal_workspace.Secrets.Loading.{IsLoaded, load_secrets-IsLoaded}

-- The passphrase is given, or the host keeps it itself.
abbrev pub IsWhole : Option Text → Option Text → Text → Type 0
IsWhole none none p = Unit
IsWhole none (some f) p = is_empty p ≡ false
IsWhole (some i) f p = is_empty p ≡ false

get-first :
    (h : Text) (r : ConnectionSecretRecord) (m : List (Text × ConnectionSecretRecord))
    → get_host_connection_secrets h ((h, r) ∷ m) ≡ secrets r.password r.passphrase
unfolding get_host_connection_secrets lookup
get-first h r m = rw (get_host_connection_secrets, lookup, ===_refl h) refl

module _ {K : Type 0} (n : NativeKeychain K) (laws : IsKeychain n) where
  persist-found :
      (h : Text) (i f : Option Text) (w p : Text) (k l : K)
      → IsWhole i f p
      → n.load_host h l ≡ some (secrets w (per_host_passphrase i f p))
      → (store_passphrase n i f p l).1 ≡ true
      → found_given n h i f (store_passphrase n i f p l).0 ≡ some (secrets w p)
  unfolding store_passphrase per_host_passphrase
  persist-found h none none w p k l whole host stored =
      found-host n h none none l w p host refl refl
  persist-found h none (some f) w [] k l whole host stored = cc
  persist-found h (some i) f w [] k l whole host stored = cc
  persist-found h none (some f) w (c ∷ p) k l whole host stored =
      found-key n h none f (n.store_key f (c ∷ p) l).0 w [] c p (laws.key-host f h (c ∷ p) l ∙ host)
        refl (laws.key_stored f (c ∷ p) l stored)
  persist-found h (some i) f w (c ∷ p) k l whole host stored =
      found-identity n h i f (n.store_identity i (c ∷ p) l).0 w [] c p
        (laws.identity-host i h (c ∷ p) l ∙ host) (laws.identity_stored i (c ∷ p) l stored)

  -- What was persisted is found.
  persist_secrets-found :
      (h : Text) (identity_id fingerprint : Option Text) (v : ConnectionSecrets) (k : K)
      → IsWhole (given_id identity_id) (given_id fingerprint) v.passphrase
      → (persist_secrets n h identity_id fingerprint v k).1 ≡ true
      → found n h identity_id fingerprint (persist_secrets n h identity_id fingerprint v k).0
        ≡ some v
  unfolding persist_secrets found and_passphrase
  persist_secrets-found h identity_id fingerprint v k whole done =
      let i = given_id identity_id in
      let f = given_id fingerprint in
      let kept = secrets v.password (per_host_passphrase i f v.passphrase) in
      elim (Bool-cases (n.store_host h kept k).1) [
        | inl stored ↦ rw stored (
            persist-found h i f v.password v.passphrase k (n.store_host h kept k).0 whole
              (laws.host_stored h kept k stored) (rw stored at done))
        | inr refused ↦ ground (arith, rw refused at done)
      ]

  found-loaded :
      (h : Text) (identity_id fingerprint : Option Text) (v : ConnectionSecrets) (k : K)
      → found n h identity_id fingerprint k ≡ some v
      → (l : K) × (load_secrets n h identity_id fingerprint k ≡ some (v, l))
  found-loaded h identity_id fingerprint v k there =
      returned (load_secrets n h identity_id fingerprint k)
        (load_secrets-IsLoaded n laws h identity_id fingerprint k)
    where
      returned :
          (r : Option (ConnectionSecrets × K))
          → IsLoaded n h identity_id fingerprint k r
          → (l : K) × (r ≡ some (v, l))
      returned none loaded = cc (there, loaded)
      returned (some (u, l)) loaded =
          let same : u ≡ v = cc (there, loaded.0) in (l, ap (λ x. some (x, l)) same)

  module _ (hosts : List HostRecord) (identities : List IdentityRecord) (keys : List KeyRecord)
      (h : Text) (v : ConnectionSecrets) where
    -- The secrets that are set for a host, if all stores of the keychain succeed, are those that it has
    -- when the application is launched again and loads them; a passphrase has to be given, unless the
    -- host has no identity and no key with a fingerprint.
    pub relaunch_keeps_secrets :
        (now later : Text) (s : SecretsState K)
        → has_connection_secrets v ≡ true
        → IsWhole
            (given_id (resolve_host_identity_id h hosts identities))
            (given_id (resolve_host_key_fingerprint h hosts keys))
            v.passphrase
        → (persisted n hosts identities keys h v s.keychain).1 ≡ true
        → get_host_connection_secrets h
            (hydrate_host_secrets n true hosts identities keys later h (record {
              secrets_by_host_id = [];
              keychain = (set_host_secrets n true hosts identities keys now h v s).keychain;
            })).0.secrets_by_host_id
          ≡ v
    unfolding set_host_secrets persisted hydrate_host_secrets hydrated get_host_connection_secrets
        build_secret_record lookup insert
    relaunch_keeps_secrets now later s some_given whole done =
        let i = resolve_host_identity_id h hosts identities in
        let f = resolve_host_key_fingerprint h hosts keys in
        let (l, loaded) =
          found-loaded h i f v (persist_secrets n h i f v s.keychain).0
            (persist_secrets-found h i f v s.keychain whole (rw some_given at done)) in
        rw
          (
            set_host_secrets, persisted, some_given, hydrate_host_secrets, loaded, hydrated,
            some_given,
          )
          (get-first h (build_secret_record later v) [])

-- A record that is there stays.
hydrated-there :
    {K : Type 0} (later h : Text) (u : ConnectionSecrets) (s : SecretsState K)
    (r : ConnectionSecretRecord)
    → lookup h s.secrets_by_host_id ≡ some r
    → (hydrated later h u s).0 ≡ s
unfolding hydrated
hydrated-there later h u s r there = elim (Bool-cases (has_connection_secrets u)) [
  | inl full ↦ rw (hydrated, full, there) refl
  | inr blank ↦ rw (hydrated, blank) refl
]

get-there :
    (h : Text) (r : ConnectionSecretRecord) (m : List (Text × ConnectionSecretRecord))
    → lookup h m ≡ some r
    → get_host_connection_secrets h m ≡ secrets r.password r.passphrase
unfolding get_host_connection_secrets
get-there h r m there = rw (get_host_connection_secrets, there) refl

-- Secrets that are set for a host while older ones are loaded stay, and no other host's change.
pub set_while_loading :
    {K : Type 0} (n : NativeKeychain K) (is_tauri_runtime : Bool) (hosts : List HostRecord)
    (identities : List IdentityRecord) (keys : List KeyRecord) (now later h : Text)
    (older v : ConnectionSecrets) (s : SecretsState K)
    → has_connection_secrets v ≡ true
    → (get_host_connection_secrets h
          (hydrated later h older (
            set_host_secrets n is_tauri_runtime hosts identities keys now h v
              s)).0.secrets_by_host_id
        ≡ v)
      × ((j : Text)
          → lookup j
              (hydrated later h older (
                set_host_secrets n is_tauri_runtime hosts identities keys now h v
                  s)).0.secrets_by_host_id
            ≡ (if h === j then some (build_secret_record now v) else lookup j s.secrets_by_host_id))
unfolding set_host_secrets
set_while_loading n is_tauri_runtime hosts identities keys now later h older v s some_given =
    let after = set_host_secrets n is_tauri_runtime hosts identities keys now h v s in
    let r = build_secret_record now v in
    let written : after.secrets_by_host_id ≡ insert h r s.secrets_by_host_id =
      rw (set_host_secrets, some_given) refl in
    let own : lookup h (insert h r s.secrets_by_host_id) ≡ some r =
      lookup-insert h h r s.secrets_by_host_id ∙ rw (===_refl h) refl in
    let there : lookup h after.secrets_by_host_id ≡ some r = ap (lookup h) written ∙ own in
    let same =
      ap (λ (t : SecretsState _). t.secrets_by_host_id)
        (hydrated-there later h older after r there) in
    (
      ap (get_host_connection_secrets h) same ∙ get-there h r after.secrets_by_host_id there,
      λ j. ap (lookup j) (same ∙ written) ∙ lookup-insert h j r s.secrets_by_host_id,
    )
