-- ===== src/Vault/Records.antt =====
-- The records of a vault beside the hosts: apps/desktop/src/types/key.ts, snippet.ts, known-host.ts
-- and identity.ts, and the five collections that apps/desktop/src/lib/local-config.ts handles.
use terminal_workspace.Common.{ℕ, Bool, Option, List, Text}
use terminal_workspace.Hosts.Types.{HostRecord, HostAuthMethod}

pub data KeyAlgorithm : Type 0 where
  ed25519 ecdsa rsa unknown_algorithm : KeyAlgorithm

pub data KeySource : Type 0 where
  imported_key generated_key : KeySource

pub record KeyRecord : Type 0 where
  pub id : Text
  pub label : Text
  pub algorithm : KeyAlgorithm
  pub bits : ℕ
  pub fingerprint : Text
  pub comment : Text
  pub private_key_path : Text
  pub public_key_path : Option Text
  pub source : KeySource
  pub has_passphrase : Bool
  pub assigned_host_ids : List Text
  pub created_at : Text
  pub updated_at : Text

pub record SnippetRecord : Type 0 where
  pub id : Text
  pub title : Text
  pub description : Text
  pub command : Text
  pub tags : List Text
  pub target_host_ids : List Text
  pub created_at : Text
  pub updated_at : Text
  pub last_run_at : Option Text

pub record KnownHostRecord : Type 0 where
  pub id : Text
  pub hostname : Text
  pub port : ℕ
  pub algorithm : Text
  pub public_key : Text
  pub fingerprint : Text
  pub trusted_at : Text
  pub updated_at : Text

pub data IdentitySource : Type 0 where
  imported_identity derived_identity : IdentitySource

pub record IdentityRecord : Type 0 where
  pub id : Text
  pub label : Text
  pub username : Text
  pub auth_method : HostAuthMethod
  pub private_key_path : Text
  pub key_id : Option Text
  pub has_passphrase : Bool
  pub comment : Text
  pub source : IdentitySource
  pub created_at : Text
  pub updated_at : Text

pub record PreparedLocalConfigCollections : Type 0 where
  pub hosts : List HostRecord
  pub keys : List KeyRecord
  pub snippets : List SnippetRecord
  pub known_hosts : List KnownHostRecord
  pub identities : List IdentityRecord
