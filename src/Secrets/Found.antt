-- ===== src/Secrets/Found.antt =====
-- What the keychain holds for a host in the order identity, key, host, without a store: what the loads of
-- apps/desktop/src/store/connection-secrets-store.ts are measured by.
use terminal_workspace.Common.{ℕ, ◌≡◌, refl, Option, none, some, [], ◌∷◌, Text}
use terminal_workspace.Connect.Types.{ConnectionSecrets}
use terminal_workspace.Connect.Build.{given_id}
use terminal_workspace.Secrets.Keychain.{NativeKeychain}

-- The first service that has a passphrase gives it.
abbrev pub or_else : Option Text → Option Text → Option Text
or_else none q = none
or_else (some []) q = q
or_else (some (c ∷ p)) q = some (c ∷ p)

abbrev pub secrets : Text → Text → ConnectionSecrets
secrets w p = record { password = w; passphrase = p }

abbrev pub with_passphrase : ConnectionSecrets → Option Text → Option ConnectionSecrets
with_passphrase per_host none = none
with_passphrase per_host (some p) = some (record per_host { passphrase = p })

module _ {K : Type 0} (n : NativeKeychain K) where
  -- A service that is not asked has none.
  abbrev pub read_identity : Option Text → K → Option Text
  read_identity none k = some []
  read_identity (some i) k = n.load_identity i k

  abbrev pub read_key : Option Text → K → Option Text
  read_key none k = some []
  read_key (some f) k = n.load_key f k

  -- The secrets of a host by the order of the services, and none if one of them cannot be read.
  unfoldable pub found_given : Text → Option Text → Option Text → K → Option ConnectionSecrets
  found_given host_id i f k = elim (n.load_host host_id k) [
    | none ↦ none
    | some per_host ↦
        with_passphrase per_host
          (or_else (read_identity i k) (or_else (read_key f k) (some (per_host.passphrase))))
  ]

  -- The same for ids that may be empty.
  unfoldable pub found : Text → Option Text → Option Text → K → Option ConnectionSecrets
  unfolding found_given given_id
  found host_id identity_id fingerprint k =
      found_given host_id (given_id identity_id) (given_id fingerprint) k

  pub found-identity :
      (h i : Text) (f : Option Text) (k : K) (w q : Text) (c : ℕ) (p : Text)
      → n.load_host h k ≡ some (secrets w q)
      → n.load_identity i k ≡ some (c ∷ p)
      → found_given h (some i) f k ≡ some (secrets w (c ∷ p))
  unfolding found_given
  found-identity h i f k w q c p host identity = rw (found_given, host, identity) refl

  pub found-key :
      (h : Text) (i : Option Text) (f : Text) (k : K) (w q : Text) (c : ℕ) (p : Text)
      → n.load_host h k ≡ some (secrets w q)
      → read_identity i k ≡ some []
      → n.load_key f k ≡ some (c ∷ p)
      → found_given h i (some f) k ≡ some (secrets w (c ∷ p))
  unfolding found_given
  found-key h i f k w q c p host identity key = rw (found_given, host, identity, key) refl

  pub found-host :
      (h : Text) (i f : Option Text) (k : K) (w p : Text)
      → n.load_host h k ≡ some (secrets w p)
      → read_identity i k ≡ some []
      → read_key f k ≡ some []
      → found_given h i f k ≡ some (secrets w p)
  unfolding found_given
  found-host h i f k w p host identity key = rw (found_given, host, identity, key) refl
