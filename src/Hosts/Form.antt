-- ===== src/Hosts/Form.antt =====
-- The host that the editor's form describes: `createHostRecord` of apps/desktop/src/store/hosts-store.ts, with
-- `splitCommaList` and `parseEnvironmentVariables` of apps/desktop/src/lib/utils.ts. `parse_int` is
-- Number.parseInt to the base ten, 0 where it gives NaN; ports that are negative are outside the model.
use terminal_workspace.Common.{
  ℕ, Bool, true, false, not, Option, none, some, List, [], ◌∷◌, map, if◌then◌else◌, Text, text,
  ◌==◌, is_empty, trim, filter,
}
use terminal_workspace.Hosts.Types.{
  HostRecord, HostAuthMethod, no_auth, HostProtocol, local_shell, HostKeyPolicy, require_trusted,
  protocol_default_port, protocol_requires_username, host_supports_credential_prompt,
  host_supports_jump_hosts, host_supports_sftp, host_supports_trusted_keys,
}
use terminal_workspace.Vault.Merge.{set_of}
use terminal_workspace.Connect.Build.{first_given, given_id}
use terminal_workspace.Hosts.Normal.{from_entries, normalize_tags}

pub record HostFormValues : Type 0 where
  pub label : Text
  pub protocol : HostProtocol
  pub hostname : Text
  pub username : Text
  pub port : Text
  pub auth_method : HostAuthMethod
  pub password : Text
  pub private_key_path : Text
  pub passphrase : Text
  pub group : Text
  pub tags : Text
  pub note : Text
  pub favorite : Bool
  pub key_label : Text
  pub host_key_policy : HostKeyPolicy
  pub agent_forwarding : Bool
  pub environment : Text
  pub jump_host_id : Text
  pub sftp_root : Text
  pub identity_id : Text

-- What a character does to the parts of the rest: `s.split(c)`.
abbrev onto_first : ℕ → List Text → List Text
onto_first x [] = (x ∷ []) ∷ []
onto_first x (part ∷ parts) = (x ∷ part) ∷ parts

unfoldable pub split_on : ℕ → Text → List Text
split_on c [] = [] ∷ []
split_on c (x ∷ s) = let rest = split_on c s in if x == c then [] ∷ rest else onto_first x rest

abbrev trimmed_parts : ℕ → Text → List Text
trimmed_parts c s = filter (λ (part : Text). not (is_empty part)) (map trim (split_on c s))

unfoldable pub split_comma_list : Text → List Text
unfolding split_on trim set_of
split_comma_list value = set_of [] (trimmed_parts 44 value)

abbrev onto_key : ℕ → Option (Text × Text) → Option (Text × Text)
onto_key x none = none
onto_key x (some (key, value)) = some (x ∷ key, value)

-- What stands before and after the first `=`.
unfoldable pub separated : Text → Option (Text × Text)
separated [] = none
separated (x ∷ s) = let rest = separated s in if x == 61 then some ([], s) else onto_key x rest

unfoldable pub environment_entry : Text → Text × Text
unfolding separated trim
environment_entry line = elim (separated line) [
  | none ↦ (line, [])
  | some (key, value) ↦ (trim key, trim value)
]

unfoldable pub parse_environment_variables : Text → List (Text × Text)
unfolding split_on trim environment_entry from_entries
parse_environment_variables value = from_entries [] (
    filter (λ (kv : Text × Text). not (is_empty kv.0))
      (map environment_entry (trimmed_parts 10 value)))

abbrev is_local_shell : HostProtocol → Bool
is_local_shell local_shell = true
is_local_shell _ = false

-- `n || d` on a number.
abbrev nonzero_or : ℕ → ℕ → ℕ
nonzero_or n d = if n == 0 then d else n

module _ {A : Type 0} (of_current : HostRecord → A) where
  -- `currentHost?.field ?? missing`.
  abbrev of_host : A → Option HostRecord → A
  of_host missing none = missing
  of_host missing (some host) = of_current host

module _ (to_lower_case : Text → Text) (parse_int : Text → ℕ) where
  -- `new_id` is the random id of a new host.
  unfoldable pub create_host_record : Text → Text → HostFormValues → Option HostRecord → HostRecord
  unfolding trim first_given given_id normalize_tags split_comma_list parse_environment_variables
      protocol_default_port protocol_requires_username host_supports_credential_prompt
      host_supports_jump_hosts host_supports_sftp host_supports_trusted_keys
  create_host_record now new_id values current =
      let protocol = values.protocol in
      let credentials = host_supports_credential_prompt protocol in
      record {
        id = of_host (λ (h : HostRecord). h.id) new_id current;
        label = trim values.label;
        protocol = protocol;
        hostname = if is_local_shell protocol then text "localhost" else trim values.hostname;
        username =
            if is_local_shell protocol
            then first_given (trim values.username) (text "local")
            else if protocol_requires_username protocol
            then trim values.username
            else [];
        port = nonzero_or (parse_int values.port) (protocol_default_port protocol);
        auth_method = if credentials then values.auth_method else no_auth;
        private_key_path = if credentials then trim values.private_key_path else [];
        group = trim values.group;
        tags = normalize_tags to_lower_case (split_comma_list values.tags);
        note = trim values.note;
        favorite = values.favorite;
        key_label = if credentials then trim values.key_label else [];
        host_key_policy =
            if host_supports_trusted_keys protocol then values.host_key_policy else require_trusted;
        agent_forwarding = if credentials then values.agent_forwarding else false;
        environment = parse_environment_variables values.environment;
        jump_host_id =
            if host_supports_jump_hosts protocol
            then given_id (some (values.jump_host_id))
            else none;
        sftp_root =
            if host_supports_sftp protocol
            then first_given (trim values.sftp_root) (text "/home")
            else [];
        snippet_count = of_host (λ (h : HostRecord). h.snippet_count) 0 current;
        forwarding_count = of_host (λ (h : HostRecord). h.forwarding_count) 0 current;
        created_at = of_host (λ (h : HostRecord). h.created_at) now current;
        updated_at = now;
        last_connected_at = of_host (λ (h : HostRecord). h.last_connected_at) none current;
        identity_id =
            if is_empty (trim values.identity_id)
            then of_host (λ (h : HostRecord). h.identity_id) none current
            else some (trim values.identity_id);
      }
