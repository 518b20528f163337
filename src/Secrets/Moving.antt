-- ===== src/Secrets/Moving.antt =====
-- Moving a passphrase to another service of the keychain keeps what is found for the host, whichever stores
-- fail (apps/desktop/src/store/connection-secrets-store.ts).
use terminal_workspace.Common.{
  ℕ, ◌≡◌, ◌∙◌, refl, Option, none, some, [], ◌∷◌, inl, inr, Text, Bool-cases,
}
use terminal_workspace.Secrets.Keychain.{NativeKeychain, IsKeychain}
use terminal_workspace.Secrets.Routing.{emptied, moved, forwarded}
use terminal_workspace.Secrets.Found.{
  read_identity, read_key, found_given, secrets, found-identity, found-key, found-host,
}

module _ {K : Type 0} (n : NativeKeychain K) (laws : IsKeychain n) where
  -- Whether or not the host's entry is emptied, its password stays.
  pub host_after :
      (h : Text) (k : K) (w p : Text)
      → n.load_host h k ≡ some (secrets w p)
      → (q : Text) × (n.load_host h (n.store_host h (secrets w []) k).0 ≡ some (secrets w q))
  host_after h k w p host = elim (Bool-cases (n.store_host h (secrets w []) k).1) [
    | inl stored ↦ ([], laws.host_stored h (secrets w []) k stored)
    | inr refused ↦ (
      p,
      elim (laws.host_refused h (secrets w []) (secrets w p) k host refused) [
        | inl untouched ↦ untouched
        | inr half ↦ half
      ],
    )
  ]

  read_key-identity :
      (f : Option Text) (i p : Text) (k : K)
      → read_key n f (n.store_identity i p k).0 ≡ read_key n f k
  read_key-identity none i p k = refl
  read_key-identity (some f) i p k = laws.identity-key i f p k

  moved-identity :
      (h i : Text) (f : Option Text) (k : K) (w : Text) (c : ℕ) (p : Text)
      → n.load_host h k ≡ some (secrets w (c ∷ p))
      → n.load_identity i k ≡ some []
      → read_key n f k ≡ some []
      → found_given n h (some i) f (moved n h (some i) f (secrets w (c ∷ p)) k)
        ≡ some (secrets w (c ∷ p))
  unfolding moved emptied
  moved-identity h i f k w c p host identity key =
      let after = (n.store_identity i (c ∷ p) k).0 in
      let host_then : n.load_host h after ≡ some (secrets w (c ∷ p)) =
        laws.identity-host i h (c ∷ p) k ∙ host in
      elim (Bool-cases (n.store_identity i (c ∷ p) k).1) [
        | inl stored ↦
            let (q, last) = host_after h after w (c ∷ p) host_then in
            rw stored (
              found-identity n h i f (n.store_host h (secrets w []) after).0 w q c p last (
                laws.host-identity h i (secrets w []) after
                ∙ laws.identity_stored i (c ∷ p) k stored))
        | inr refused ↦ rw refused (
            found-host n h (some i) f after w (c ∷ p) host_then
              (laws.identity_refused i (c ∷ p) k refused ∙ identity)
              (read_key-identity f i (c ∷ p) k ∙ key))
      ]

  moved-key :
      (h f : Text) (k : K) (w : Text) (c : ℕ) (p : Text)
      → n.load_host h k ≡ some (secrets w (c ∷ p))
      → n.load_key f k ≡ some []
      → found_given n h none (some f) (moved n h none (some f) (secrets w (c ∷ p)) k)
        ≡ some (secrets w (c ∷ p))
  unfolding moved emptied
  moved-key h f k w c p host key =
      let after = (n.store_key f (c ∷ p) k).0 in
      let host_then : n.load_host h after ≡ some (secrets w (c ∷ p)) =
        laws.key-host f h (c ∷ p) k ∙ host in
      elim (Bool-cases (n.store_key f (c ∷ p) k).1) [
        | inl stored ↦
            let (q, last) = host_after h after w (c ∷ p) host_then in
            rw stored (
              found-key n h none f (n.store_host h (secrets w []) after).0 w q c p last refl
                (laws.host-key h f (secrets w []) after ∙ laws.key_stored f (c ∷ p) k stored))
        | inr refused ↦ rw refused (
            found-host n h none (some f) after w (c ∷ p) host_then refl
              (laws.key_refused f (c ∷ p) k refused ∙ key))
      ]

  pub moved-found :
      (h : Text) (i f : Option Text) (k : K) (w : Text) (c : ℕ) (p : Text)
      → n.load_host h k ≡ some (secrets w (c ∷ p))
      → read_identity n i k ≡ some []
      → read_key n f k ≡ some []
      → found_given n h i f (moved n h i f (secrets w (c ∷ p)) k) ≡ some (secrets w (c ∷ p))
  unfolding moved
  moved-found h (some i) f k w c p host identity key =
      moved-identity h i f k w c p host identity key
  moved-found h none (some f) k w c p host identity key = moved-key h f k w c p host key
  moved-found h none none k w c p host identity key =
      found-host n h none none k w (c ∷ p) host refl refl

  pub forwarded-found :
      (h : Text) (i : Option Text) (f : Text) (k : K) (w q : Text) (c : ℕ) (p : Text)
      → n.load_host h k ≡ some (secrets w q)
      → read_identity n i k ≡ some []
      → n.load_key f k ≡ some (c ∷ p)
      → found_given n h i (some f) (forwarded n i (c ∷ p) k) ≡ some (secrets w (c ∷ p))
  unfolding forwarded
  forwarded-found h none f k w q c p host identity key =
      found-key n h none f k w q c p host refl key
  forwarded-found h (some i) f k w q c p host identity key =
      let after = (n.store_identity i (c ∷ p) k).0 in
      let host_then : n.load_host h after ≡ some (secrets w q) =
        laws.identity-host i h (c ∷ p) k ∙ host in
      elim (Bool-cases (n.store_identity i (c ∷ p) k).1) [
        | inl stored ↦
            found-identity n h i (some f) after w q c p host_then
              (laws.identity_stored i (c ∷ p) k stored)
        | inr refused ↦
            found-key n h (some i) f after w q c p host_then
              (laws.identity_refused i (c ∷ p) k refused ∙ identity)
              (laws.identity-key i f (c ∷ p) k ∙ key)
      ]
