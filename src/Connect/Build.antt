-- ===== src/Connect/Build.antt =====
-- `buildBackendConnection` of apps/desktop/src/lib/connections.ts, and the identity of a host,
-- apps/desktop/src/lib/host-identity-resolver.ts. The hosts, the identities and the secrets are what
-- the stores hold when it is called.
use terminal_workspace.Common.{
  ℕ, zero, suc, Bool, true, false, ◌&&◌, Option, none, some, List, [], ◌∷◌, if◌then◌else◌, Text,
  ◌===◌, ◌==◌, trim, find, length,
}
use terminal_workspace.Common.Dict.{includes}
use terminal_workspace.Hosts.Types.{
  HostRecord, HostAuthMethod, private_key, HostKeyPolicy, allow_unknown, require_trusted, is_ssh,
  host_supports_jump_hosts, host_supports_trusted_keys,
}
use terminal_workspace.Vault.Records.{IdentityRecord, KnownHostRecord}
use terminal_workspace.Connect.Types.{
  ConnectionHop, direct, via, jump_host_cycle, trusted_key_required, jump_host_missing,
  ConnectionResult, connection, failed, ConnectionSecrets,
}

-- `o && o !== ""`, an id that is given.
unfoldable pub given_id : Option Text → Option Text
given_id none = none
given_id (some []) = none
given_id (some (c ∷ s)) = some (c ∷ s)

unfoldable pub find_host : Text → List HostRecord → Option HostRecord
unfolding ◌===◌
find_host i = find (λ (h : HostRecord). h.id === i)

unfoldable pub find_identity : Option Text → List IdentityRecord → Option IdentityRecord
unfolding ◌===◌
find_identity none identities = none
find_identity (some i) identities = find (λ (e : IdentityRecord). e.id === i) identities

unfoldable pub resolve_identity_for_host : HostRecord → List IdentityRecord → Option IdentityRecord
unfolding given_id find_identity
resolve_identity_for_host host identities = find_identity (given_id host.identity_id) identities

unfoldable pub find_known_host_match : List KnownHostRecord → HostRecord → Option KnownHostRecord
unfolding ◌===◌
find_known_host_match known_hosts host =
    find (λ (k : KnownHostRecord). (k.hostname === host.hostname) && (k.port == host.port))
      known_hosts

-- `a || b` on texts.
unfoldable pub first_given : Text → Text → Text
first_given [] b = b
first_given (c ∷ s) b = c ∷ s

abbrev pub is_private_key : HostAuthMethod → Bool
is_private_key private_key = true
is_private_key _ = false

abbrev pub is_require_trusted : HostKeyPolicy → Bool
is_require_trusted require_trusted = true
is_require_trusted allow_unknown = false

unfoldable pub effective_username : Option IdentityRecord → HostRecord → Text
unfolding first_given trim
effective_username none host = host.username
effective_username (some identity) host = first_given (trim identity.username) host.username

unfoldable pub effective_auth_method : Option IdentityRecord → HostRecord → HostAuthMethod
effective_auth_method none host = host.auth_method
effective_auth_method (some identity) host = identity.auth_method

unfoldable pub effective_private_key_path : Option IdentityRecord → HostRecord → Text
unfolding first_given
effective_private_key_path none host = host.private_key_path
effective_private_key_path (some identity) host =
    if is_private_key identity.auth_method
    then first_given identity.private_key_path host.private_key_path
    else []

unfoldable pub needs_trusted_key : HostRecord → Bool
unfolding host_supports_trusted_keys
needs_trusted_key host =
    host_supports_trusted_keys host.protocol && is_require_trusted host.host_key_policy

abbrev pub known_algorithm : Option KnownHostRecord → Option Text
known_algorithm none = none
known_algorithm (some k) = some (k.algorithm)

abbrev pub known_public_key : Option KnownHostRecord → Option Text
known_public_key none = none
known_public_key (some k) = some (k.public_key)

-- The jump host that the connection has to go through.
unfoldable pub jump_host_of : HostRecord → Option Text
unfolding host_supports_jump_hosts given_id
jump_host_of host =
    if host_supports_jump_hosts host.protocol then given_id host.jump_host_id else none

unfoldable pub is_untrusted : List KnownHostRecord → HostRecord → Bool
unfolding needs_trusted_key find_known_host_match
is_untrusted known_hosts host =
    needs_trusted_key host
    && elim (find_known_host_match known_hosts host) [ none ↦ true | some k ↦ false ]

module _ (hosts : List HostRecord) (identities : List IdentityRecord)
    (secrets : Text → ConnectionSecrets) (known_hosts : List KnownHostRecord) where
  -- The returned record without its jump host.
  unfoldable pub hop_of : HostRecord → ConnectionHop
  unfolding resolve_identity_for_host find_known_host_match effective_username effective_auth_method
      effective_private_key_path
  hop_of host =
      let known_host = find_known_host_match known_hosts host in
      let identity = resolve_identity_for_host host identities in
      record {
        agent_forwarding = host.agent_forwarding;
        auth_method = effective_auth_method identity host;
        environment = host.environment;
        host_key_policy = host.host_key_policy;
        hostname = host.hostname;
        known_host_algorithm = known_algorithm known_host;
        known_host_public_key = known_public_key known_host;
        password = (secrets host.id).password;
        passphrase = (secrets host.id).passphrase;
        port = host.port;
        private_key_path = effective_private_key_path identity host;
        protocol = host.protocol;
        sftp_root = if is_ssh host.protocol then some (host.sftp_root) else none;
        username = effective_username identity host;
      }

  unfoldable pub behind : ConnectionHop → ConnectionResult → ConnectionResult
  behind hop (connection c) = connection (via hop c)
  behind hop (failed e) = failed e

  -- `none` means that the fuel ran out: the chain is longer than it.
  unfoldable pub build_recursive : ℕ → HostRecord → List Text → Option ConnectionResult
  unfolding includes is_untrusted jump_host_of find_host hop_of behind
  build_recursive zero host chain = none
  build_recursive (suc fuel) host chain = elim (includes host.id chain) [
    | true ↦ some (failed (jump_host_cycle host))
    | false ↦ elim (is_untrusted known_hosts host) [
      | true ↦ some (failed (trusted_key_required host))
      | false ↦ elim (jump_host_of host) [
        | none ↦ some (connection (direct (hop_of host)))
        | some i ↦ elim (find_host i hosts) [
          | none ↦ some (failed (jump_host_missing host))
          | some jump ↦ elim (build_recursive fuel jump (host.id ∷ chain)) [
            | none ↦ none
            | some r ↦ some (behind (hop_of host) r)
          ]
        ]
      ]
    ]
  ]

  -- The chain holds each host once and the one that it starts with, and ends at the first repetition.
  unfoldable pub build_backend_connection : HostRecord → Option ConnectionResult
  unfolding build_recursive
  build_backend_connection host = build_recursive (suc (suc (length hosts))) host []
