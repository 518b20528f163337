-- ===== src/Secrets/Tests.antt =====
-- A keychain of three dictionaries that keeps the laws, runs of the secrets of a host
-- (apps/desktop/src/store/connection-secrets-store.ts), and the theorems at inputs where their hypotheses hold.
use terminal_workspace.Common.{
  ◌≡◌, refl, Bool, true, false, Option, none, some, List, [], ◌∷◌, if◌then◌else◌, Text, text, ◌===◌,
  ===_refl, trim, not, ap, ◌∙◌, Bool-cases, arith, inl, inr,
}
use terminal_workspace.Common.Dict.{lookup, insert, lookup-insert}
use terminal_workspace.Hosts.Types.{HostRecord, private_key}
use terminal_workspace.Vault.Records.{KeyRecord, ed25519, imported_key}
use terminal_workspace.Vault.Tests.{host}
use terminal_workspace.Connect.Types.{ConnectionSecrets}
use terminal_workspace.Connect.Build.{given_id}
use terminal_workspace.Secrets.Keychain.{NativeKeychain, IsKeychain}
use terminal_workspace.Secrets.Routing.{load_secrets, persist_secrets}
use terminal_workspace.Secrets.Store.{
  SecretsState, build_secret_record, persisted, set_host_secrets, hydrated, hydrate_host_secrets,
  get_host_connection_secrets, has_connection_secrets, resolve_host_key_fingerprint,
  resolve_host_identity_id,
}
use terminal_workspace.Secrets.Found.{secrets}
use terminal_workspace.Secrets.Loading.{IsLoaded, load_secrets-IsLoaded}
use terminal_workspace.Secrets.Relaunch.{IsWhole, relaunch_keeps_secrets, set_while_loading}

-- `refusing` is whether all stores throw; that of a host throws after it wrote the password.
pub record Entries : Type 0 where
  hosts : List (Text × ConnectionSecrets)
  identities : List (Text × Text)
  keys : List (Text × Text)
  refusing : Bool

abbrev entry : {A : Type 0} → A → Option A → Option A
entry a none = some a
entry a (some b) = some b

abbrev unless : Bool → Entries → Entries → Entries × Bool
unless refuses k l = if refuses then (k, false) else (l, true)

abbrev unless_refusing : Entries → Entries → Entries × Bool
unless_refusing k l = unless k.refusing k l

abbrev password_only : Option ConnectionSecrets → ConnectionSecrets → ConnectionSecrets
password_only old v = record {
  password = v.password;
  passphrase = elim old [ none ↦ [] | some o ↦ o.passphrase ];
}

abbrev store_host_entry : Bool → Text → ConnectionSecrets → Entries → Entries × Bool
store_host_entry refuses i v k = (
  record k { hosts = insert i (if refuses then password_only (lookup i k.hosts) v else v) k.hosts },
  not refuses,
)

abbrev pub dictionaries : NativeKeychain Entries
dictionaries = record {
  load_host = λ i (k : Entries). entry (secrets [] []) (lookup i k.hosts);
  store_host = λ i v (k : Entries). store_host_entry k.refusing i v k;
  clear_host =
      λ i (k : Entries). unless_refusing k (record k { hosts = insert i (secrets [] []) k.hosts });
  load_identity = λ i (k : Entries). entry [] (lookup i k.identities);
  store_identity =
      λ i p (k : Entries). unless_refusing k (record k { identities = insert i p k.identities });
  clear_identity =
      λ i (k : Entries). unless_refusing k (record k { identities = insert i [] k.identities });
  load_key = λ i (k : Entries). entry [] (lookup i k.keys);
  store_key = λ i p (k : Entries). unless_refusing k (record k { keys = insert i p k.keys });
  clear_key = λ i (k : Entries). unless_refusing k (record k { keys = insert i [] k.keys });
}

entry-insert :
    {A : Type 0} (a : A) (i : Text) (v : A) (m : List (Text × A))
    → entry a (lookup i (insert i v m)) ≡ some v
entry-insert a i v m = rw (lookup-insert i i v m, ===_refl i) refl

module _ {A : Type 0} (f : Entries → A) (k l : Entries) where
  if_stored : (v : A) → f l ≡ v → (unless_refusing k l).1 ≡ true → f (unless_refusing k l).0 ≡ v
  if_stored v e h = elim (Bool-cases k.refusing) [
    | inl refuses ↦ ground (arith, rw refuses at h)
    | inr stores ↦ rw stores e
  ]

  if_refused : (unless_refusing k l).1 ≡ false → f (unless_refusing k l).0 ≡ f k
  if_refused h = elim (Bool-cases k.refusing) [
    | inl refuses ↦ rw refuses refl
    | inr stores ↦ ground (arith, rw stores at h)
  ]

  if_apart : f l ≡ f k → f (unless_refusing k l).0 ≡ f k
  if_apart e = either k.refusing
    where
      either : (b : Bool) → f (unless b k l).0 ≡ f k
      either true = refl
      either false = e

host_kept :
    (refuses : Bool) (i : Text) (v : ConnectionSecrets) (k : Entries)
    → (store_host_entry refuses i v k).1 ≡ true
    → dictionaries.load_host i (store_host_entry refuses i v k).0 ≡ some v
host_kept true i v k h = cc
host_kept false i v k h = entry-insert _ i v k.hosts

host_half :
    (refuses : Bool) (i : Text) (v old : ConnectionSecrets) (k : Entries)
    → entry (secrets [] []) (lookup i k.hosts) ≡ some old
    → (store_host_entry refuses i v k).1 ≡ false
    → dictionaries.load_host i (store_host_entry refuses i v k).0
      ≡ some (record old { password = v.password })
host_half false i v old k there h = cc
host_half true i v old k there h =
    entry-insert _ i (password_only (lookup i k.hosts) v) k.hosts
    ∙ ap some (half (lookup i k.hosts) there)
  where
    half :
        (o : Option ConnectionSecrets)
        → entry (secrets [] []) o ≡ some old
        → password_only o v ≡ record old { password = v.password }
    half none e = cc e
    half (some u) e = cc e

dictionaries-IsKeychain : IsKeychain dictionaries
dictionaries-IsKeychain = record {
  host_stored = λ i v k h. host_kept k.refusing i v k h;
  host_refused = λ i v old k there h. inr (host_half k.refusing i v old k there h);
  host-identity = λ i j v k. refl;
  host-key = λ i j v k. refl;
  identity_stored =
      λ i p k h. if_stored (dictionaries.load_identity i) k _ _ (entry-insert _ i p k.identities) h;
  identity_refused = λ i p k h. if_refused (dictionaries.load_identity i) k _ h;
  identity-host = λ i j p k. if_apart (dictionaries.load_host j) k _ refl;
  identity-key = λ i j p k. if_apart (dictionaries.load_key j) k _ refl;
  key_stored = λ i p k h. if_stored (dictionaries.load_key i) k _ _ (entry-insert _ i p k.keys) h;
  key_refused = λ i p k h. if_refused (dictionaries.load_key i) k _ h;
  key-host = λ i j p k. if_apart (dictionaries.load_host j) k _ refl;
}

-- A host with a key that has a fingerprint, and a passphrase that it keeps itself.
abbrev keyed : HostRecord
keyed = record (host (text "keyed") []) { auth_method = private_key; private_key_path = text "~/k" }

abbrev pub key : KeyRecord
key = record {
  id = text "k";
  label = text "k";
  algorithm = ed25519;
  bits = 256;
  fingerprint = text "SHA256:k";
  comment = [];
  private_key_path = text "~/k";
  public_key_path = none;
  source = imported_key;
  has_passphrase = true;
  assigned_host_ids = [];
  created_at = [];
  updated_at = [];
}

abbrev legacy : Entries
legacy = record {
  hosts = (text "keyed", secrets (text "pw") (text "pass")) ∷ [];
  identities = [];
  keys = [];
  refusing = false;
}

keyed_fingerprint :
    resolve_host_key_fingerprint (text "keyed") (keyed ∷ []) (key ∷ []) ≡ some (text "SHA256:k")
unfolding resolve_host_key_fingerprint trim ◌===◌
keyed_fingerprint = refl

legacy_moves :
    load_secrets dictionaries (text "keyed") none (some (text "SHA256:k")) legacy
    ≡ some (
      secrets (text "pw") (text "pass"),
      record legacy {
        hosts = (text "keyed", secrets (text "pw") []) ∷ [];
        keys = (text "SHA256:k", text "pass") ∷ [];
      },
    )
unfolding load_secrets lookup insert ◌===◌
legacy_moves = refl

load_secrets-IsLoaded_example :
    IsLoaded dictionaries
      (text "keyed")
      none
      (some (text "SHA256:k"))
      legacy
      (load_secrets dictionaries (text "keyed") none (some (text "SHA256:k")) legacy)
load_secrets-IsLoaded_example =
    load_secrets-IsLoaded dictionaries dictionaries-IsKeychain (text "keyed") none
      (some (text "SHA256:k")) legacy

abbrev pub launched : SecretsState Entries
launched = record { secrets_by_host_id = []; keychain = legacy }

keyed_stored :
    (persisted dictionaries
      (keyed ∷ [])
      []
      (key ∷ [])
      (text "keyed")
      (secrets (text "new") (text "word"))
      legacy).1
    ≡ true
unfolding persisted persist_secrets
keyed_stored = refl

new_given : has_connection_secrets (secrets (text "new") (text "word")) ≡ true
unfolding has_connection_secrets
new_given = refl

new-IsWhole :
    IsWhole
      (given_id (resolve_host_identity_id (text "keyed") (keyed ∷ []) []))
      (given_id (resolve_host_key_fingerprint (text "keyed") (keyed ∷ []) (key ∷ [])))
      (text "word")
unfolding resolve_host_identity_id resolve_host_key_fingerprint trim ◌===◌ given_id
new-IsWhole = refl

relaunch_keeps_secrets_example :
    get_host_connection_secrets
      (text "keyed")
      (hydrate_host_secrets dictionaries true
        (keyed ∷ [])
        []
        (key ∷ [])
        (text "2")
        (text "keyed")
        (record {
          secrets_by_host_id = [];
          keychain =
              (set_host_secrets dictionaries true
                (keyed ∷ [])
                []
                (key ∷ [])
                (text "1")
                (text "keyed")
                (secrets (text "new") (text "word"))
                launched).keychain;
        })).0.secrets_by_host_id
    ≡ secrets (text "new") (text "word")
relaunch_keeps_secrets_example =
    relaunch_keeps_secrets dictionaries dictionaries-IsKeychain (keyed ∷ []) [] (key ∷ [])
      (text "keyed") (secrets (text "new") (text "word")) (text "1") (text "2") launched new_given
      new-IsWhole keyed_stored

set_while_loading_example :
    (get_host_connection_secrets
        (text "keyed")
        (hydrated (text "2") (text "keyed") (secrets (text "pw") (text "pass")) (
          set_host_secrets dictionaries true
            (keyed ∷ [])
            []
            (key ∷ [])
            (text "1")
            (text "keyed")
            (secrets (text "new") (text "word"))
            launched)).0.secrets_by_host_id
      ≡ secrets (text "new") (text "word"))
    × ((j : Text)
        → lookup j
            (hydrated (text "2") (text "keyed") (secrets (text "pw") (text "pass")) (
              set_host_secrets dictionaries true
                (keyed ∷ [])
                []
                (key ∷ [])
                (text "1")
                (text "keyed")
                (secrets (text "new") (text "word"))
                launched)).0.secrets_by_host_id
          ≡ (if text "keyed" === j
              then some (build_secret_record (text "1") (secrets (text "new") (text "word")))
              else lookup j launched.secrets_by_host_id))
set_while_loading_example =
    set_while_loading dictionaries true (keyed ∷ []) [] (key ∷ []) (text "1") (text "2")
      (text "keyed") (secrets (text "pw") (text "pass")) (secrets (text "new") (text "word"))
      launched new_given
