-- ===== src/Connect/Types.antt =====
-- The request that the backend gets for a connection, `BackendHostConnection` of
-- apps/desktop/src/lib/backend-contract.ts, and the errors of apps/desktop/src/lib/connections.ts.
use terminal_workspace.Common.{ℕ, Bool, Option, List, [], ◌∷◌, Text}
use terminal_workspace.Hosts.Types.{HostRecord, HostAuthMethod, HostProtocol, HostKeyPolicy}

-- The fields of one hop.
pub record ConnectionHop : Type 0 where
  pub agent_forwarding : Bool
  pub auth_method : HostAuthMethod
  pub environment : List (Text × Text)
  pub host_key_policy : HostKeyPolicy
  pub hostname : Text
  pub known_host_algorithm : Option Text
  pub known_host_public_key : Option Text
  pub password : Text
  pub passphrase : Text
  pub port : ℕ
  pub private_key_path : Text
  pub protocol : HostProtocol
  pub sftp_root : Option Text
  pub username : Text

-- The hop to the host, and the connection to the jump host in front of it, if there is one.
pub data BackendHostConnection : Type 0 where
  direct : ConnectionHop → BackendHostConnection
  via : ConnectionHop → BackendHostConnection → BackendHostConnection

-- The hops, the host's own first.
unfoldable pub hops : BackendHostConnection → List ConnectionHop
hops (direct h) = h ∷ []
hops (via h c) = h ∷ hops c

-- The host whose turn it was.
pub data ConnectionError : Type 0 where
  jump_host_cycle : HostRecord → ConnectionError
  trusted_key_required : HostRecord → ConnectionError
  jump_host_missing : HostRecord → ConnectionError

pub data ConnectionResult : Type 0 where
  connection : BackendHostConnection → ConnectionResult
  failed : ConnectionError → ConnectionResult

pub record ConnectionSecrets : Type 0 where
  pub password : Text
  pub passphrase : Text
