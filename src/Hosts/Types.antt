-- ===== src/Hosts/Types.antt =====
-- apps/desktop/src/types/host.ts: the host record, its protocols and what each protocol supports.
use terminal_workspace.Common.{ℕ, Bool, true, false, ◌||◌, Option, List, Text}

pub data HostAuthMethod : Type 0 where
  no_auth password private_key : HostAuthMethod

pub data HostProtocol : Type 0 where
  ssh local_shell telnet serial mosh : HostProtocol

pub data HostKeyPolicy : Type 0 where
  allow_unknown require_trusted : HostKeyPolicy

pub record HostRecord : Type 0 where
  pub id : Text
  pub label : Text
  pub protocol : HostProtocol
  pub hostname : Text
  pub username : Text
  pub port : ℕ
  pub auth_method : HostAuthMethod
  pub private_key_path : Text
  pub group : Text
  pub tags : List Text
  pub note : Text
  pub favorite : Bool
  pub key_label : Text
  pub host_key_policy : HostKeyPolicy
  pub agent_forwarding : Bool
  pub environment : List (Text × Text)
  pub jump_host_id : Option Text
  pub sftp_root : Text
  pub snippet_count : ℕ
  pub forwarding_count : ℕ
  pub created_at : Text
  pub updated_at : Text
  pub last_connected_at : Option Text
  pub identity_id : Option Text

-- `protocol === "ssh"`, and so on.
abbrev pub is_ssh : HostProtocol → Bool
is_ssh ssh = true
is_ssh _ = false

abbrev pub is_mosh : HostProtocol → Bool
is_mosh mosh = true
is_mosh _ = false

unfoldable pub protocol_default_port : HostProtocol → ℕ
protocol_default_port local_shell = 0
protocol_default_port telnet = 23
protocol_default_port serial = 115200
protocol_default_port _ = 22

unfoldable pub protocol_requires_username : HostProtocol → Bool
protocol_requires_username p = is_ssh p || is_mosh p

unfoldable pub host_supports_sftp : HostProtocol → Bool
host_supports_sftp p = is_ssh p

unfoldable pub host_supports_trusted_keys : HostProtocol → Bool
host_supports_trusted_keys p = is_ssh p || is_mosh p

unfoldable pub host_supports_jump_hosts : HostProtocol → Bool
host_supports_jump_hosts p = is_ssh p

unfoldable pub host_supports_credential_prompt : HostProtocol → Bool
host_supports_credential_prompt p = is_ssh p || is_mosh p
