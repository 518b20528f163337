-- ===== src/Hosts/Normal.antt =====
-- The normal form of a host and the order of the hosts, `normalizeHostRecord` and `sortHostCollection` of
-- apps/desktop/src/store/hosts-store.ts, for a host whose fields have their declared types. `to_lower_case` and
-- the collation of localeCompare are parameters.
use terminal_workspace.Common.{
  Bool, true, false, not, ◌&&◌, Option, none, some, List, [], ◌∷◌, map, if◌then◌else◌, Text, text,
  ◌===◌, is_empty, trim, filter,
}
use terminal_workspace.Common.Dict.{insert}
use terminal_workspace.Common.Order.{sort_by}
use terminal_workspace.Hosts.Types.{HostRecord, host_supports_sftp}
use terminal_workspace.Connect.Build.{jump_host_of}

-- `Object.fromEntries`, from the entries that are there already.
unfoldable pub from_entries : List (Text × Text) → List (Text × Text) → List (Text × Text)
unfolding insert
from_entries m [] = m
from_entries m ((k, v) ∷ entries) = from_entries (insert k v m) entries

-- The entries with trimmed keys that are not empty.
unfoldable pub trimmed_entries : List (Text × Text) → List (Text × Text)
unfolding trim
trimmed_entries [] = []
trimmed_entries ((k, v) ∷ entries) =
    let rest = trimmed_entries entries in if is_empty (trim k) then rest else (trim k, v) ∷ rest

unfoldable pub normalize_environment : List (Text × Text) → List (Text × Text)
unfolding from_entries trimmed_entries
normalize_environment environment = from_entries [] (trimmed_entries environment)

unfoldable pub normal_sftp_root : HostRecord → Text
unfolding host_supports_sftp trim
normal_sftp_root host =
    if host_supports_sftp host.protocol && not (is_empty (trim host.sftp_root))
    then host.sftp_root
    else []

module _ (to_lower_case : Text → Text) where
  unfoldable pub is_tag : Text → Bool
  unfolding trim ◌===◌
  is_tag tag = not (is_empty (trim tag)) && not (to_lower_case (trim tag) === text "favorite")

  unfoldable pub normalize_tags : List Text → List Text
  unfolding is_tag
  normalize_tags tags = filter is_tag tags

  unfoldable pub normalize_host_record : HostRecord → HostRecord
  unfolding normalize_environment normalize_tags jump_host_of normal_sftp_root
  normalize_host_record host = record host {
    environment = normalize_environment host.environment;
    tags = normalize_tags host.tags;
    jump_host_id = jump_host_of host;
    sftp_root = normal_sftp_root host;
  }

  module _ (collate : Text → Text → Bool) where
    -- `lastConnectedAt ?? ""`.
    abbrev pub activity : Option Text → Text
    activity none = []
    activity (some at) = at

    unfoldable pub more_active : HostRecord → HostRecord → Bool
    unfolding ◌===◌
    more_active left right =
        if activity left.last_connected_at === activity right.last_connected_at
        then collate left.label right.label
        else collate (activity right.last_connected_at) (activity left.last_connected_at)

    -- Whether the comparator lets the left host stand before the right one.
    unfoldable pub host_before : HostRecord → HostRecord → Bool
    unfolding more_active
    host_before left right =
        if left.favorite
        then if right.favorite then more_active left right else true
        else if right.favorite
        then false
        else more_active left right

    unfoldable pub sort_host_collection : List HostRecord → List HostRecord
    unfolding sort_by host_before normalize_host_record
    sort_host_collection hosts = sort_by host_before (map normalize_host_record hosts)
