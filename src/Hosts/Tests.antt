-- ===== src/Hosts/Tests.antt =====
-- Concrete runs of the hosts (apps/desktop/src/store/hosts-store.ts), and the theorems at inputs where their
-- hypotheses hold.
use terminal_workspace.Common.{
  ℕ, ◌≡◌, refl, false, none, List, [], ◌∷◌, ◌++◌, Text, text, ◌===◌, trim, is_empty,
}
use terminal_workspace.Common.Dict.{count}
use terminal_workspace.Common.Order.{text_ltb}
use terminal_workspace.Vault.Deletions.{VaultDeletionEntry}
use terminal_workspace.Vault.Tests.{by_units, parse_date, host}
use terminal_workspace.Hosts.Types.{HostRecord, ssh, private_key, require_trusted}
use terminal_workspace.Hosts.Form.{
  HostFormValues, split_comma_list, parse_environment_variables, create_host_record,
}
use terminal_workspace.Hosts.Store.{HostsState, rename_group, remove_group}
use terminal_workspace.Hosts.Keeping.{IsKept, host_ids}
use terminal_workspace.Hosts.Reach.{
  HostsAction, create, delete, hosts_step, first_state, start, next, Reach-IsKept,
}
use terminal_workspace.Hosts.Groups.{IsMoved, groups-IsMoved}

-- Texts of small letters.
abbrev as_it_is : Text → Text
as_it_is s = s

abbrev no_number : Text → ℕ
no_number s = 0

tags_split : split_comma_list (text "a, b,,a ") ≡ text "a" ∷ text "b" ∷ []
unfolding split_comma_list ◌===◌
tags_split = refl

environment_parsed :
    parse_environment_variables (text "A=1;B = x=y;;A=2") ≡ (text "A", text "1;B = x=y;;A=2") ∷ []
unfolding parse_environment_variables
environment_parsed = refl

abbrev form : HostFormValues
form = record {
  label = text " web ";
  protocol = ssh;
  hostname = text "web.example";
  username = text "root";
  port = text "22";
  auth_method = private_key;
  password = [];
  private_key_path = text "~/k";
  passphrase = [];
  group = text "Work";
  tags = text "a,favorite,b";
  note = [];
  favorite = false;
  key_label = [];
  host_key_policy = require_trusted;
  agent_forwarding = false;
  environment = [];
  jump_host_id = [];
  sftp_root = [];
  identity_id = [];
}

form_tags :
    (create_host_record as_it_is no_number (text "1") (text "new") form none).tags
    ≡ text "a" ∷ text "b" ∷ []
unfolding create_host_record ◌===◌
form_tags = refl

abbrev first : HostsState
first = first_state as_it_is no_number by_units parse_date

abbrev after : (HostsAction) → HostsState → HostsState
after a s = hosts_step as_it_is no_number by_units parse_date a s

new-free : count (text "new") (host_ids first.hosts) ≡ 0
unfolding first_state count text_ltb ◌===◌
new-free = refl

Reach-IsKept_example : IsKept as_it_is by_units (
    after
      (delete 1 (text "2") (text "prod-gateway"))
      (after (create (text "1") (text "new") form) first))
Reach-IsKept_example = Reach-IsKept as_it_is no_number by_units parse_date (
    next (delete 1 (text "2") (text "prod-gateway"))
      (next (create (text "1") (text "new") form) start new-free) tt)

edge_given : is_empty (trim (text " Network / Edge")) ≡ false
unfolding trim
edge_given = refl

edge_apart : (trim (text " Network / Edge") === trim (text "Lab")) ≡ false
unfolding trim ◌===◌
edge_apart = refl

groups-IsMoved_example :
    IsMoved
      (text "1")
      (trim (text " Network / Edge"))
      (trim (text "Lab"))
      first
      (rename_group as_it_is by_units (text "1") (text " Network / Edge") (text "Lab") first)
    × IsMoved
        (text "1")
        (trim (text " Network / Edge"))
        []
        first
        (remove_group as_it_is by_units (text "1") (text " Network / Edge") first)
groups-IsMoved_example =
    groups-IsMoved as_it_is by_units (text "1") (text " Network / Edge") (text "Lab") first
      edge_given edge_apart (Reach-IsKept as_it_is no_number by_units parse_date start).normal

abbrev id_of_host : HostRecord → Text
id_of_host h = h.id

abbrev date_of_host : HostRecord → Text
date_of_host h = h.updated_at

-- A text of a host's name and date.
abbrev serialized_host : HostRecord → Text
serialized_host h = h.hostname ++ text " " ++ h.updated_at

abbrev local_hosts : List HostRecord
local_hosts = host (text "a") (text "1") ∷ host (text "b") (text "4") ∷ []

abbrev imported_hosts : List HostRecord
imported_hosts = host (text "b") (text "3") ∷ host (text "d") (text "2") ∷ []

abbrev host_deletions : List VaultDeletionEntry
host_deletions = record { id = text "a"; deleted_at = text "2" } ∷ []
