-- ===== src/Hosts/Samples.antt =====
-- The hosts that come with the application: `createLocalShellHostRecord` and `sampleHosts` of
-- apps/desktop/src/types/host.ts.
use terminal_workspace.Common.{none, some, true, false, List, [], ◌∷◌, Text, text}
use terminal_workspace.Hosts.Types.{
  HostRecord, ssh, local_shell, no_auth, password, private_key, require_trusted,
}

abbrev pub local_shell_host_id : Text
local_shell_host_id = text "local-shell"

unfoldable pub create_local_shell_host_record : Text → HostRecord
create_local_shell_host_record now = record {
  id = text "local-shell";
  label = text "Local Shell";
  protocol = local_shell;
  hostname = text "localhost";
  username = text "local";
  port = 0;
  auth_method = no_auth;
  private_key_path = [];
  group = text "Workstation / Local";
  tags = text "local" ∷ text "shell" ∷ [];
  note = text "Launches the current macOS login shell inside the native desktop app.";
  favorite = false;
  key_label = [];
  host_key_policy = require_trusted;
  agent_forwarding = false;
  environment = (text "TERMSNIP_SHELL_MODE", text "native") ∷ [];
  jump_host_id = none;
  sftp_root = [];
  snippet_count = 0;
  forwarding_count = 0;
  created_at = now;
  updated_at = now;
  last_connected_at = none;
  identity_id = none;
}

abbrev pub prod_gateway : HostRecord
prod_gateway = record {
  id = text "prod-gateway";
  label = text "Production Gateway";
  protocol = ssh;
  hostname = text "bastion.acme.internal";
  username = text "ops";
  port = 22;
  auth_method = private_key;
  private_key_path = text "~/.ssh/id_ed25519";
  group = text "Acme / Production";
  tags = text "prod" ∷ text "bastion" ∷ [];
  note = text "Primary ingress host for customer-facing services.";
  favorite = true;
  key_label = text "MacBook Pro ED25519";
  host_key_policy = require_trusted;
  agent_forwarding = true;
  environment = (text "APP_ENV", text "production") ∷ (text "BASTION_ROLE", text "ingress") ∷ [];
  jump_host_id = none;
  sftp_root = text "/srv";
  snippet_count = 4;
  forwarding_count = 2;
  created_at = text "2026-03-20T12:00:00.000Z";
  updated_at = text "2026-03-28T22:12:00.000Z";
  last_connected_at = some (text "2026-03-29T11:10:00.000Z");
  identity_id = some (text "identity-prod-bastion-ops");
}

abbrev pub billing_api : HostRecord
billing_api = record {
  id = text "billing-api";
  label = text "Billing API";
  protocol = ssh;
  hostname = text "billing-api-02.use1.internal";
  username = text "deploy";
  port = 2222;
  auth_method = private_key;
  private_key_path = text "~/.ssh/deploy_key";
  group = text "Acme / Services";
  tags = text "linux" ∷ text "api" ∷ text "staging" ∷ [];
  note = text "Blue/green target used for deploy rehearsals and schema checks.";
  favorite = false;
  key_label = text "Deploy Shared Key";
  host_key_policy = require_trusted;
  agent_forwarding = false;
  environment = (text "APP_ENV", text "staging") ∷ [];
  jump_host_id = none;
  sftp_root = text "/var/www";
  snippet_count = 2;
  forwarding_count = 1;
  created_at = text "2026-03-18T08:30:00.000Z";
  updated_at = text "2026-03-28T20:12:00.000Z";
  last_connected_at = some (text "2026-03-28T17:45:00.000Z");
  identity_id = some (text "identity-deploy");
}

abbrev pub edge_router : HostRecord
edge_router = record {
  id = text "edge-router-07";
  label = text "Edge Router 07";
  protocol = ssh;
  hostname = text "10.42.7.14";
  username = text "admin";
  port = 22;
  auth_method = password;
  private_key_path = [];
  group = text "Network / Edge";
  tags = text "network" ∷ text "lab" ∷ text "router" ∷ [];
  note = text "Used for testing VLAN changes and failover validation.";
  favorite = false;
  key_label = text "Lab Network Key";
  host_key_policy = require_trusted;
  agent_forwarding = false;
  environment = [];
  jump_host_id = none;
  sftp_root = text "/cfg";
  snippet_count = 3;
  forwarding_count = 0;
  created_at = text "2026-03-12T09:40:00.000Z";
  updated_at = text "2026-03-27T18:44:00.000Z";
  last_connected_at = some (text "2026-03-27T16:02:00.000Z");
  identity_id = none;
}

abbrev pub local_shell_sample : HostRecord
local_shell_sample = record {
  id = text "local-shell";
  label = text "Local Shell";
  protocol = local_shell;
  hostname = text "localhost";
  username = text "local";
  port = 0;
  auth_method = no_auth;
  private_key_path = [];
  group = text "Workstation / Local";
  tags = text "local" ∷ text "shell" ∷ [];
  note = text "Launches the current macOS login shell inside the native desktop app.";
  favorite = false;
  key_label = [];
  host_key_policy = require_trusted;
  agent_forwarding = false;
  environment = (text "TERMSNIP_SHELL_MODE", text "native") ∷ [];
  jump_host_id = none;
  sftp_root = [];
  snippet_count = 0;
  forwarding_count = 0;
  created_at = text "2026-04-04T21:00:00.000Z";
  updated_at = text "2026-04-04T21:00:00.000Z";
  last_connected_at = none;
  identity_id = none;
}

abbrev pub sample_hosts : List HostRecord
sample_hosts = prod_gateway ∷ billing_api ∷ edge_router ∷ local_shell_sample ∷ []
