-- ===== src/Secrets/Loading.antt =====
-- Loading the secrets of a host gives what the keychain holds in the order identity, key, host, and the
-- stores on the way lose nothing of it, whichever of them fail
-- (apps/desktop/src/store/connection-secrets-store.ts).
use terminal_workspace.Common.{
  ◌≡◌, refl, sym, Option, none, some, [], ◌∷◌, inl, inr, Text, Option-cases,
}
use mathlib.Core.Path.{subst}
use terminal_workspace.Connect.Types.{ConnectionSecrets}
use terminal_workspace.Connect.Build.{given_id}
use terminal_workspace.Secrets.Keychain.{NativeKeychain, IsKeychain}
use terminal_workspace.Secrets.Routing.{
  load_host_stage, forwarded, load_key_stage, load_identity_stage, load_secrets,
}
use terminal_workspace.Secrets.Found.{
  read_identity, read_key, found, found_given, secrets, found-identity, found-key, found-host,
}
use terminal_workspace.Secrets.Moving.{moved-found, forwarded-found}

module _ {K : Type 0} (n : NativeKeychain K) where
  abbrev IsLoadedGiven :
      Text → Option Text → Option Text → K → Option (ConnectionSecrets × K) → Type 0
  IsLoadedGiven host_id i f k none = found_given n host_id i f k ≡ none
  IsLoadedGiven host_id i f k (some (v, l)) =
      (found_given n host_id i f k ≡ some v) × (found_given n host_id i f l ≡ some v)

  -- What a load returned, and what it left in the keychain.
  abbrev pub IsLoaded :
      Text → Option Text → Option Text → K → Option (ConnectionSecrets × K) → Type 0
  IsLoaded host_id identity_id fingerprint k none = found n host_id identity_id fingerprint k ≡ none
  IsLoaded host_id identity_id fingerprint k (some (v, l)) =
      (found n host_id identity_id fingerprint k ≡ some v)
      × (found n host_id identity_id fingerprint l ≡ some v)

module _ {K : Type 0} (n : NativeKeychain K) (laws : IsKeychain n) where
  load_host_stage-IsLoaded :
      (h : Text) (i f : Option Text) (k : K) (w p : Text)
      → n.load_host h k ≡ some (secrets w p)
      → read_identity n i k ≡ some []
      → read_key n f k ≡ some []
      → IsLoadedGiven n h i f k (load_host_stage n h i f (secrets w p) k)
  unfolding load_host_stage
  load_host_stage-IsLoaded h i f k w [] host identity key =
      let same = found-host n h i f k w [] host identity key in (same, same)
  load_host_stage-IsLoaded h i f k w (c ∷ p) host identity key = (
    found-host n h i f k w (c ∷ p) host identity key,
    moved-found n laws h i f k w c p host identity key,
  )

  IsLoaded-same :
      (h : Text) (i f : Option Text) (k : K) (r t : Option (ConnectionSecrets × K))
      → r ≡ t
      → IsLoadedGiven n h i f k t
      → IsLoadedGiven n h i f k r
  IsLoaded-same h i f k r t e loaded = subst (IsLoadedGiven n h i f k) (sym e) loaded

  load_key_stage-IsLoaded :
      (h : Text) (i f : Option Text) (k : K) (w q : Text)
      → n.load_host h k ≡ some (secrets w q)
      → read_identity n i k ≡ some []
      → IsLoadedGiven n h i f k (load_key_stage n h i f (secrets w q) k)
  unfolding load_key_stage found_given
  load_key_stage-IsLoaded h i none k w q host identity =
      load_host_stage-IsLoaded h i none k w q host identity refl
  load_key_stage-IsLoaded h i (some f) k w q host identity = elim (Option-cases (n.load_key f k)) [
    | inl broken ↦
        IsLoaded-same h i (some f) k (load_key_stage n h i (some f) (secrets w q) k) none
          (rw (load_key_stage, broken) refl) (rw (found_given, host, identity, broken) refl)
    | inr ([], key) ↦
        IsLoaded-same h i (some f) k (load_key_stage n h i (some f) (secrets w q) k)
          (load_host_stage n h i (some f) (secrets w q) k) (rw (load_key_stage, key) refl)
          (load_host_stage-IsLoaded h i (some f) k w q host identity key)
    | inr (c ∷ p, key) ↦
        IsLoaded-same h i (some f) k (load_key_stage n h i (some f) (secrets w q) k)
          (some (secrets w (c ∷ p), forwarded n i (c ∷ p) k)) (rw (load_key_stage, key) refl)
          (
            found-key n h i f k w q c p host identity key,
            forwarded-found n laws h i f k w q c p host identity key,
          )
  ]

  load_identity_stage-IsLoaded :
      (h : Text) (i f : Option Text) (k : K) (w q : Text)
      → n.load_host h k ≡ some (secrets w q)
      → IsLoadedGiven n h i f k (load_identity_stage n h i f (secrets w q) k)
  unfolding load_identity_stage found_given
  load_identity_stage-IsLoaded h none f k w q host =
      load_key_stage-IsLoaded h none f k w q host refl
  load_identity_stage-IsLoaded h (some i) f k w q host = elim (Option-cases (n.load_identity i k)) [
    | inl broken ↦
        IsLoaded-same h (some i) f k (load_identity_stage n h (some i) f (secrets w q) k) none
          (rw (load_identity_stage, broken) refl) (rw (found_given, host, broken) refl)
    | inr ([], identity) ↦
        IsLoaded-same h (some i) f k (load_identity_stage n h (some i) f (secrets w q) k)
          (load_key_stage n h (some i) f (secrets w q) k) (rw (load_identity_stage, identity) refl)
          (load_key_stage-IsLoaded h (some i) f k w q host identity)
    | inr (c ∷ p, identity) ↦
        let same = found-identity n h i f k w q c p host identity in
        IsLoaded-same h (some i) f k (load_identity_stage n h (some i) f (secrets w q) k)
          (some (secrets w (c ∷ p), k)) (rw (load_identity_stage, identity) refl) (same, same)
  ]

  IsLoaded-given :
      (h : Text) (identity_id fingerprint : Option Text) (k : K)
      (r t : Option (ConnectionSecrets × K))
      → r ≡ t
      → IsLoadedGiven n h (given_id identity_id) (given_id fingerprint) k t
      → IsLoaded n h identity_id fingerprint k r
  unfolding found
  IsLoaded-given h identity_id fingerprint k r none e loaded =
      subst (IsLoaded n h identity_id fingerprint k) (sym e) loaded
  IsLoaded-given h identity_id fingerprint k r (some (v, l)) e loaded =
      subst (IsLoaded n h identity_id fingerprint k) (sym e) loaded

  -- On a keychain that keeps its laws, by which a failed store for a host may have written its password, loading
  -- the secrets of a host gives its password with the first passphrase of identity, key and host, and fails
  -- exactly if a service that it has to ask cannot be read;
  -- after it the same is found, whichever of its stores failed.
  pub load_secrets-IsLoaded :
      (h : Text) (identity_id fingerprint : Option Text) (k : K)
      → IsLoaded n h identity_id fingerprint k (load_secrets n h identity_id fingerprint k)
  unfolding load_secrets found_given
  load_secrets-IsLoaded h identity_id fingerprint k = elim (Option-cases (n.load_host h k)) [
    | inl broken ↦
        IsLoaded-given h identity_id fingerprint k (load_secrets n h identity_id fingerprint k) none
          (rw (load_secrets, broken) refl) (rw (found_given, broken) refl)
    | inr (v, host) ↦
        IsLoaded-given h identity_id fingerprint k (load_secrets n h identity_id fingerprint k)
          (load_identity_stage n h (given_id identity_id) (given_id fingerprint) v k)
          (rw (load_secrets, host) refl)
          (load_identity_stage-IsLoaded h (given_id identity_id) (given_id fingerprint) k v.password
            v.passphrase host)
  ]
