-- ===== src/Hosts/Store.antt =====
-- The actions of apps/desktop/src/store/hosts-store.ts, with the tombstones that they clear and mark.
use terminal_workspace.Common.{
  ℕ, Bool, not, ◌||◌, Option, none, some, List, [], ◌∷◌, ◌++◌, map, if◌then◌else◌, Text, ◌===◌,
  is_empty, trim, filter, find,
}
use terminal_workspace.Common.Int.{ℤ}
use terminal_workspace.Common.Dict.{count, lookup}
use terminal_workspace.Vault.Deletions.{VaultDeletionMap, hosts, mark_deleted, clear_deleted}
use terminal_workspace.Hosts.Types.{HostRecord, private_key}
use terminal_workspace.Connect.Build.{given_id}
use terminal_workspace.Hosts.Normal.{sort_host_collection}
use terminal_workspace.Hosts.Form.{HostFormValues, create_host_record}
use terminal_workspace.Hosts.Samples.{
  local_shell_host_id, create_local_shell_host_record, sample_hosts,
}

pub record HostsState : Type 0 where
  pub hosts : List HostRecord
  pub deletions : VaultDeletionMap

-- The key that is assigned to a host.
pub record AssignedKey : Type 0 where
  pub label : Text
  pub private_key_path : Text

-- `hosts.map((host) => (test(host) ? change(host) : host))`.
unfoldable pub update_where :
    (HostRecord → Bool) → (HostRecord → HostRecord) → List HostRecord → List HostRecord
update_where test change hs = map (λ (h : HostRecord). if test h then change h else h) hs

abbrev pub has_id : Text → HostRecord → Bool
has_id i h = h.id === i

abbrev pub in_group : Text → HostRecord → Bool
in_group g h = h.group === g

-- How many hosts are in a group: what `touched` counts.
unfoldable pub group_size : Text → List HostRecord → ℕ
unfolding count
group_size g hs = count g (map (λ (h : HostRecord). h.group) hs)

abbrev pub snippet_count_of : Option ℕ → ℕ
snippet_count_of none = 0
snippet_count_of (some n) = n

unfoldable pub clear_all_deleted :
    (Text → Text → Bool) → List HostRecord → VaultDeletionMap → VaultDeletionMap
unfolding clear_deleted
clear_all_deleted collate [] deletions = deletions
clear_all_deleted collate (h ∷ hs) deletions =
    clear_all_deleted collate hs (clear_deleted collate hosts h.id deletions)

module _ (to_lower_case : Text → Text) (collate : Text → Text → Bool) where
  -- `sortHostCollection` with its parameters.
  abbrev pub sorted : List HostRecord → List HostRecord
  sorted = sort_host_collection to_lower_case collate

  unfoldable pub delete_host_from_collection : List HostRecord → Text → List HostRecord
  unfolding sort_host_collection ◌===◌
  delete_host_from_collection hs i = sorted (filter (λ (h : HostRecord). not (h.id === i)) hs)

  unfoldable pub toggle_host_favorite_in_collection :
      Text → List HostRecord → Text → List HostRecord
  unfolding sort_host_collection update_where ◌===◌
  toggle_host_favorite_in_collection now hs i =
      sorted
        (update_where (has_id i) (λ h. record h { favorite = not h.favorite; updated_at = now }) hs)

  unfoldable pub mark_host_connected_in_collection : Text → List HostRecord → Text → List HostRecord
  unfolding sort_host_collection update_where ◌===◌
  mark_host_connected_in_collection now hs i =
      sorted (update_where (has_id i) (λ h. record h { last_connected_at = some now }) hs)

  unfoldable pub assign_key_in_collection :
      Text → List HostRecord → Text → AssignedKey → List HostRecord
  unfolding sort_host_collection update_where ◌===◌
  assign_key_in_collection now hs i key = sorted (
      update_where (has_id i)
        (λ h. record h {
          auth_method = private_key;
          key_label = key.label;
          private_key_path = key.private_key_path;
          updated_at = now;
        })
        hs)

  unfoldable pub clear_key_in_collection : Text → List HostRecord → Text → List HostRecord
  unfolding sort_host_collection update_where ◌===◌
  clear_key_in_collection now hs path = sorted (
      update_where (λ (h : HostRecord). h.private_key_path === path)
        (λ h. record h { key_label = []; private_key_path = []; updated_at = now }) hs)

  unfoldable pub set_snippet_counts : List (Text × ℕ) → HostsState → HostsState
  unfolding sort_host_collection lookup
  set_snippet_counts counts s = record s {
    hosts = sorted (
        map (λ (h : HostRecord). record h { snippet_count = snippet_count_of (lookup h.id counts) })
          s.hosts);
  }

  -- The hosts, and how many of them were touched.
  unfoldable pub regrouped : Text → Text → Text → HostsState → HostsState × ℕ
  unfolding sort_host_collection update_where group_size ◌===◌
  regrouped now old new s = (
    record s {
      hosts =
          sorted
            (update_where (in_group old) (λ h. record h { group = new; updated_at = now }) s.hosts);
    },
    group_size old s.hosts,
  )

  unfoldable pub rename_group : Text → Text → Text → HostsState → HostsState × ℕ
  unfolding regrouped trim ◌===◌
  rename_group now old_name new_name s =
      if is_empty (trim old_name) || (trim old_name === trim new_name)
      then (s, 0)
      else regrouped now (trim old_name) (trim new_name) s

  unfoldable pub remove_group : Text → Text → HostsState → HostsState × ℕ
  unfolding regrouped trim
  remove_group now group_name s =
      if is_empty (trim group_name) then (s, 0) else regrouped now (trim group_name) [] s

  -- The host, and whether it was created.
  unfoldable pub ensure_local_shell_host : Text → HostsState → HostsState × HostRecord
  unfolding sort_host_collection create_local_shell_host_record clear_deleted ◌===◌
  ensure_local_shell_host now s = elim (find (has_id local_shell_host_id) s.hosts) [
    | some existing ↦ (s, existing)
    | none ↦
        let fresh = create_local_shell_host_record now in
        (
          record {
            hosts = sorted (s.hosts ++ fresh ∷ []);
            deletions = clear_deleted collate hosts fresh.id s.deletions;
          },
          fresh,
        )
  ]

  unfoldable pub load_sample_data : HostsState → HostsState
  unfolding sort_host_collection clear_all_deleted
  load_sample_data s = record {
    hosts = sorted sample_hosts;
    deletions = clear_all_deleted collate (sorted sample_hosts) s.deletions;
  }

  -- `merge` of the stored hosts: `none` when nothing was stored.
  unfoldable pub merge_persisted_hosts : Option (List HostRecord) → HostsState → HostsState
  unfolding sort_host_collection
  merge_persisted_hosts none s = record s { hosts = sorted s.hosts }
  merge_persisted_hosts (some persisted) s = record s { hosts = sorted persisted }

  -- `now` is the time, `now_text` the same as a text.
  unfoldable pub delete_host : (Text → Option ℤ) → ℕ → Text → Text → HostsState → HostsState
  unfolding delete_host_from_collection mark_deleted
  delete_host date_parse now now_text i s = record {
    hosts = delete_host_from_collection s.hosts i;
    deletions = mark_deleted collate date_parse now hosts i now_text s.deletions;
  }

module _ (to_lower_case : Text → Text) (parse_int : Text → ℕ) (collate : Text → Text → Bool) where
  unfoldable pub upsert_host_collection :
      Text → Text → List HostRecord → HostFormValues → Option Text → List HostRecord
  unfolding sort_host_collection create_host_record update_where given_id ◌===◌
  upsert_host_collection now new_id hs values host_id = elim (given_id host_id) [
    | none ↦
        sort_host_collection to_lower_case collate
          (hs ++ create_host_record to_lower_case parse_int now new_id values none ∷ [])
    | some i ↦ sort_host_collection to_lower_case collate (
        update_where (has_id i)
          (λ h. create_host_record to_lower_case parse_int now new_id values (some h)) hs)
  ]

  unfoldable pub create_host : Text → Text → HostFormValues → HostsState → HostsState × Text
  unfolding sort_host_collection create_host_record clear_deleted
  create_host now new_id values s =
      let created = create_host_record to_lower_case parse_int now new_id values none in
      (
        record {
          hosts = sort_host_collection to_lower_case collate (s.hosts ++ created ∷ []);
          deletions = clear_deleted collate hosts created.id s.deletions;
        },
        created.id,
      )

  -- `new_id` is only used for the host that an empty id appends: a host that is updated keeps its id.
  unfoldable pub update_host : Text → Text → Text → HostFormValues → HostsState → HostsState
  unfolding upsert_host_collection clear_deleted
  update_host now new_id i values s = record {
    hosts = upsert_host_collection now new_id s.hosts values (some i);
    deletions = clear_deleted collate hosts i s.deletions;
  }
