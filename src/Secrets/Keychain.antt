-- ===== src/Secrets/Keychain.antt =====
-- The keychain behind the calls of apps/desktop/src/lib/native-secrets.ts: three services, for the secrets of a
-- host, the passphrase of an identity and that of a key. The keychain itself is outside; what the stores
-- rely on is IsKeychain.
use terminal_workspace.Common.{◌≡◌, ◌⊎◌, Bool, true, false, Option, some, Text}
use terminal_workspace.Connect.Types.{ConnectionSecrets}

-- A load is none when it throws; a store and a clearing say whether they succeeded, false when they throw.
pub record NativeKeychain (K : Type 0) : Type 0 where
  pub load_host : Text → K → Option ConnectionSecrets
  pub store_host : Text → ConnectionSecrets → K → K × Bool
  pub clear_host : Text → K → K × Bool
  pub load_identity : Text → K → Option Text
  pub store_identity : Text → Text → K → K × Bool
  pub clear_identity : Text → K → K × Bool
  pub load_key : Text → K → Option Text
  pub store_key : Text → Text → K → K × Bool
  pub clear_key : Text → K → K × Bool

-- What is stored is loaded, and a store changes nothing of the other two services. A store for an identity or a
-- key that fails leaves what it was to replace; one for a host writes the password and then the passphrase and
-- stops at the first failure, so it leaves the passphrase, and the password is the old or the new one
-- (src-tauri/src/main.rs, terminal_workspace_store_host_secrets).
pub record IsKeychain {K : Type 0} (n : NativeKeychain K) : Type 0 where
  pub host_stored :
      (i : Text) (v : ConnectionSecrets) (k : K)
      → (n.store_host i v k).1 ≡ true
      → n.load_host i (n.store_host i v k).0 ≡ some v
  pub host_refused :
      (i : Text) (v old : ConnectionSecrets) (k : K)
      → n.load_host i k ≡ some old
      → (n.store_host i v k).1 ≡ false
      → (n.load_host i (n.store_host i v k).0 ≡ some old)
        ⊎ (n.load_host i (n.store_host i v k).0 ≡ some (record old { password = v.password }))
  pub host-identity :
      (i j : Text) (v : ConnectionSecrets) (k : K)
      → n.load_identity j (n.store_host i v k).0 ≡ n.load_identity j k
  pub host-key :
      (i j : Text) (v : ConnectionSecrets) (k : K)
      → n.load_key j (n.store_host i v k).0 ≡ n.load_key j k
  pub identity_stored :
      (i p : Text) (k : K)
      → (n.store_identity i p k).1 ≡ true
      → n.load_identity i (n.store_identity i p k).0 ≡ some p
  pub identity_refused :
      (i p : Text) (k : K)
      → (n.store_identity i p k).1 ≡ false
      → n.load_identity i (n.store_identity i p k).0 ≡ n.load_identity i k
  pub identity-host :
      (i j p : Text) (k : K) → n.load_host j (n.store_identity i p k).0 ≡ n.load_host j k
  pub identity-key :
      (i j p : Text) (k : K) → n.load_key j (n.store_identity i p k).0 ≡ n.load_key j k
  pub key_stored :
      (i p : Text) (k : K)
      → (n.store_key i p k).1 ≡ true
      → n.load_key i (n.store_key i p k).0 ≡ some p
  pub key_refused :
      (i p : Text) (k : K)
      → (n.store_key i p k).1 ≡ false
      → n.load_key i (n.store_key i p k).0 ≡ n.load_key i k
  pub key-host : (i j p : Text) (k : K) → n.load_host j (n.store_key i p k).0 ≡ n.load_host j k
