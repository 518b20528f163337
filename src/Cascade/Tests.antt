-- ===== src/Cascade/Tests.antt =====
-- A run of deleting a host from all stores (apps/desktop/src/store/cascade-actions.ts), and its theorem at an input.
use terminal_workspace.Common.{true, some, [], ◌∷◌, Text, text}
use terminal_workspace.Vault.Deletions.{empty_deletion_map}
use terminal_workspace.Vault.Tests.{by_units, parse_date}
use terminal_workspace.Sessions.Tests.{two, two-IsValid}
use terminal_workspace.Secrets.Tests.{Entries, dictionaries, launched, key}
use terminal_workspace.Hosts.Samples.{sample_hosts}
use terminal_workspace.Cascade.Stores.{AppStores, delete_host_and_cascade}
use terminal_workspace.Cascade.Gone.{IsGone, delete_host_and_cascade-IsGone}

abbrev stores : AppStores Entries
stores = record {
  inventory = record { hosts = sample_hosts; deletions = empty_deletion_map };
  secrets = launched;
  keys = record key { assigned_host_ids = text "prod-gateway" ∷ text "billing-api" ∷ [] } ∷ [];
  snippets = [];
  sessions = two;
  transfers = record {
    active_host_id = some (text "prod-gateway");
    remote_path_by_host = [];
    queue = [];
  };
}

abbrev same : Text → Text
same s = s

delete_host_and_cascade-IsGone_example :
    IsGone
      (text "prod-gateway")
      stores
      (delete_host_and_cascade by_units dictionaries true same parse_date 60
        (text "1")
        (text "prod-gateway")
        stores).0
delete_host_and_cascade-IsGone_example =
    delete_host_and_cascade-IsGone by_units dictionaries true same parse_date 60 (text "1")
      (text "prod-gateway") stores two-IsValid
