-- ===== src/Hosts/Reach.antt =====
-- The states that the actions of apps/desktop/src/store/hosts-store.ts reach, and what holds of all of them.
use terminal_workspace.Common.{
  ℕ, ◌+◌, ◌≤◌, ◌≡◌, refl, sym, Bool, true, ◌&&◌, ◌||◌, Option, none, some, false, List, [], ◌∷◌,
  ◌++◌, inl, inr, Text, ◌===◌, ===_iff, is_empty, trim, find, All, All-weaken, Bool-cases,
  Option-cases, arith, not,
}
use mathlib.Core.Path.{subst}
use terminal_workspace.Common.Int.{ℤ}
use terminal_workspace.Common.Dict.{count, lookup, includes, count-includes}
use terminal_workspace.Vault.Deletions.{
  VaultDeletionEntry, VaultDeletionMap, VaultSyncEntityKind, select, replace, clear_deleted,
  empty_deletion_map,
}
use terminal_workspace.Vault.Marking.{remove_deletion_entry-All}
use terminal_workspace.Hosts.Types.{HostRecord}
use terminal_workspace.Connect.Build.{given_id}
use terminal_workspace.Hosts.Normal.{sort_host_collection}
use terminal_workspace.Hosts.Form.{HostFormValues, create_host_record}
use terminal_workspace.Hosts.Samples.{
  local_shell_host_id, create_local_shell_host_record, sample_hosts,
}
use terminal_workspace.Hosts.Store.{
  HostsState, AssignedKey, snippet_count_of, has_id, create_host, update_host, delete_host,
  upsert_host_collection, toggle_host_favorite_in_collection, mark_host_connected_in_collection,
  assign_key_in_collection, clear_key_in_collection, set_snippet_counts, rename_group, remove_group,
  regrouped, ensure_local_shell_host, load_sample_data, clear_all_deleted, update_where,
}
use terminal_workspace.Hosts.Keeping.{
  IsKept, host_ids, sorted-IsKept, update_where-IsKept, updated-IsKept, added-IsKept,
  appended-IsKept, deleted-IsKept, count-sorted,
}

-- The actions, with the time and the random id that they take.
pub data HostsAction : Type 0 where
  create : Text → Text → HostFormValues → HostsAction
  update : Text → Text → Text → HostFormValues → HostsAction
  delete : ℕ → Text → Text → HostsAction
  toggle_favorite : Text → Text → HostsAction
  mark_connected : Text → Text → HostsAction
  count_snippets : List (Text × ℕ) → HostsAction
  assign_key : Text → Text → AssignedKey → HostsAction
  clear_key_by_path : Text → Text → HostsAction
  rename : Text → Text → Text → HostsAction
  ungroup : Text → Text → HostsAction
  ensure_local_shell : Text → HostsAction
  load_samples : HostsAction

-- No text occurs twice.
distinct : List Text → Bool
unfolding includes
distinct [] = true
distinct (x ∷ xs) = not (includes x xs) && distinct xs

distinct-count : (xs : List Text) (p : Text) → distinct xs ≡ true → count p xs ≤ 1
unfolding distinct count
distinct-count [] p h = omega arith
distinct-count (x ∷ xs) p h =
    ground (arith, h, distinct-count xs p, count-includes x xs, ===_iff x p)

sample_hosts-once : (p : Text) → count p (host_ids sample_hosts) ≤ 1
unfolding distinct includes ◌===◌
sample_hosts-once p = distinct-count (host_ids sample_hosts) p refl

find-none-count :
    (i : Text) (hs : List HostRecord) → find (has_id i) hs ≡ none → count i (host_ids hs) ≡ 0
unfolding count
find-none-count i [] h = refl
find-none-count i (g ∷ hs) h = ground (arith, h, find-none-count i hs)

module _ (to_lower_case : Text → Text) (parse_int : Text → ℕ) (collate : Text → Text → Bool)
    (date_parse : Text → Option ℤ) where
  unfoldable pub hosts_step : HostsAction → HostsState → HostsState
  unfolding create_host update_host delete_host set_snippet_counts rename_group remove_group
      ensure_local_shell_host load_sample_data
  hosts_step (create now new_id values) s =
      (create_host to_lower_case parse_int collate now new_id values s).0
  hosts_step (update now new_id i values) s =
      update_host to_lower_case parse_int collate now new_id i values s
  hosts_step (delete now now_text i) s =
      delete_host to_lower_case collate date_parse now now_text i s
  hosts_step (toggle_favorite now i) s = record s {
    hosts = toggle_host_favorite_in_collection to_lower_case collate now s.hosts i;
  }
  hosts_step (mark_connected now i) s = record s {
    hosts = mark_host_connected_in_collection to_lower_case collate now s.hosts i;
  }
  hosts_step (count_snippets counts) s = set_snippet_counts to_lower_case collate counts s
  hosts_step (assign_key now i key) s = record s {
    hosts = assign_key_in_collection to_lower_case collate now s.hosts i key;
  }
  hosts_step (clear_key_by_path now path) s = record s {
    hosts = clear_key_in_collection to_lower_case collate now s.hosts path;
  }
  hosts_step (rename now old new) s = (rename_group to_lower_case collate now old new s).0
  hosts_step (ungroup now group) s = (remove_group to_lower_case collate now group s).0
  hosts_step (ensure_local_shell now) s = (ensure_local_shell_host to_lower_case collate now s).0
  hosts_step load_samples s = load_sample_data to_lower_case collate s

  -- A random id is new; one that an update with an empty id draws has no tombstone either.
  abbrev pub IsFresh : HostsAction → HostsState → Type 0
  IsFresh (create now new_id values) s = count new_id (host_ids s.hosts) ≡ 0
  IsFresh (update now new_id [] values) s =
      (count new_id (host_ids s.hosts) ≡ 0) × All (λ e. (e.id === new_id) ≡ false) s.deletions.hosts
  IsFresh _ s = Unit

  unfoldable pub first_state : HostsState
  unfolding sort_host_collection empty_deletion_map
  first_state = record {
    hosts = sort_host_collection to_lower_case collate sample_hosts;
    deletions = empty_deletion_map;
  }

  -- The states of the store, from the one that it starts with.
  pub data Reach : HostsState → Type 0 where
    start : Reach first_state
    next : {s : HostsState} (a : HostsAction) → Reach s → IsFresh a s → Reach (hosts_step a s)

  regrouped-IsKept :
      (now old new : Text) (s : HostsState)
      → IsKept to_lower_case collate s
      → IsKept to_lower_case collate (regrouped to_lower_case collate now old new s).0
  unfolding regrouped
  regrouped-IsKept now old new s v =
      update_where-IsKept to_lower_case collate _ (λ h. record h { group = new; updated_at = now })
        s (λ h. refl) v

  IsKept-same :
      (s t : HostsState) → s ≡ t → IsKept to_lower_case collate t → IsKept to_lower_case collate s
  IsKept-same s t e v = subst (IsKept to_lower_case collate) (sym e) v

  -- Clearing the tombstones of a list of hosts.
  clear_all_deleted-All :
      (hs : List HostRecord) (done : List Text) (m : VaultDeletionMap)
      → All (λ e. count e.id done ≡ 0) m.hosts
      → All
          (λ e. count e.id (host_ids hs) + count e.id done ≡ 0)
          (clear_all_deleted collate hs m).hosts
  unfolding clear_all_deleted clear_deleted select replace count
  clear_all_deleted-All [] done m h = All-weaken _ _ m.hosts (λ e x. omega (arith, x)) h
  clear_all_deleted-All (g ∷ hs) done m h =
      All-weaken _ _ _ (λ e x. ground (arith, x))
        (clear_all_deleted-All hs (g.id ∷ done)
          (clear_deleted collate VaultSyncEntityKind.hosts g.id m)
          (remove_deletion_entry-All collate _ _ g.id m.hosts h
            (λ e x other. ground (arith, x, other, ===_iff g.id e.id, ===_iff e.id g.id))))

  load_samples-IsKept :
      (s : HostsState) → IsKept to_lower_case collate (load_sample_data to_lower_case collate s)
  unfolding load_sample_data count
  load_samples-IsKept s =
      sorted-IsKept to_lower_case collate sample_hosts
        (clear_all_deleted collate (sort_host_collection to_lower_case collate sample_hosts)
          s.deletions)
        sample_hosts-once
        (All-weaken _ _ _
          (λ e h. omega (arith, h, count-sorted to_lower_case collate e.id sample_hosts))
          (clear_all_deleted-All (sort_host_collection to_lower_case collate sample_hosts) []
            s.deletions (anything s.deletions.hosts)))
    where
      anything : (es : List VaultDeletionEntry) → All (λ e. count e.id [] ≡ 0) es
      anything [] = tt
      anything (e ∷ es) = (refl, anything es)

  local_shell-IsKept :
      (now : Text) (s : HostsState)
      → IsKept to_lower_case collate s
      → IsKept to_lower_case collate (ensure_local_shell_host to_lower_case collate now s).0
  unfolding ensure_local_shell_host create_local_shell_host_record
  local_shell-IsKept now s v = elim (Option-cases (find (has_id local_shell_host_id) s.hosts)) [
    | inr (g, found) ↦
        IsKept-same (ensure_local_shell_host to_lower_case collate now s).0 s
          (rw (ensure_local_shell_host, found) refl) v
    | inl missing ↦
        let fresh = create_local_shell_host_record now in
        IsKept-same (ensure_local_shell_host to_lower_case collate now s).0
          (record {
            hosts = sort_host_collection to_lower_case collate (s.hosts ++ fresh ∷ []);
            deletions = clear_deleted collate VaultSyncEntityKind.hosts fresh.id s.deletions;
          })
          (rw (ensure_local_shell_host, missing) refl)
          (added-IsKept to_lower_case collate s fresh
            (find-none-count local_shell_host_id s.hosts missing) v)
  ]

  groups-IsKept :
      (now old new : Text) (s : HostsState)
      → IsKept to_lower_case collate s
      → IsKept to_lower_case collate (rename_group to_lower_case collate now old new s).0
        × IsKept to_lower_case collate (remove_group to_lower_case collate now old s).0
  unfolding rename_group remove_group
  groups-IsKept now old new s v = (
    elim (Bool-cases (is_empty (trim old) || (trim old === trim new))) [
      | inl idle ↦
          IsKept-same (rename_group to_lower_case collate now old new s).0 s
            (rw (rename_group, idle) refl) v
      | inr moves ↦
          IsKept-same (rename_group to_lower_case collate now old new s).0
            (regrouped to_lower_case collate now (trim old) (trim new) s).0
            (rw (rename_group, moves) refl) (regrouped-IsKept now (trim old) (trim new) s v)
    ],
    elim (Bool-cases (is_empty (trim old))) [
      | inl idle ↦
          IsKept-same (remove_group to_lower_case collate now old s).0 s
            (rw (remove_group, idle) refl) v
      | inr moves ↦
          IsKept-same (remove_group to_lower_case collate now old s).0
            (regrouped to_lower_case collate now (trim old) [] s).0 (rw (remove_group, moves) refl)
            (regrouped-IsKept now (trim old) [] s v)
    ],
  )

  counts-IsKept :
      (counts : List (Text × ℕ)) (s : HostsState)
      → IsKept to_lower_case collate s
      → IsKept to_lower_case collate (set_snippet_counts to_lower_case collate counts s)
  unfolding set_snippet_counts update_where
  counts-IsKept counts s v =
      update_where-IsKept to_lower_case collate (λ h. true)
        (λ h. record h { snippet_count = snippet_count_of (lookup h.id counts) }) s (λ h. refl) v

  hosts_step-IsKept :
      (a : HostsAction) (s : HostsState)
      → IsFresh a s
      → IsKept to_lower_case collate s
      → IsKept to_lower_case collate (hosts_step a s)
  unfolding hosts_step create_host update_host given_id upsert_host_collection create_host_record
      toggle_host_favorite_in_collection mark_host_connected_in_collection assign_key_in_collection
      clear_key_in_collection
  hosts_step-IsKept (create now new_id values) s fresh v =
      added-IsKept to_lower_case collate s
        (create_host_record to_lower_case parse_int now new_id values none) fresh v
  hosts_step-IsKept (update now new_id [] values) s fresh v =
      appended-IsKept to_lower_case collate s
        (create_host_record to_lower_case parse_int now new_id values none) [] fresh.0 fresh.1 v
  hosts_step-IsKept (update now new_id (c ∷ i) values) s fresh v =
      updated-IsKept to_lower_case collate (has_id (c ∷ i))
        (λ h. create_host_record to_lower_case parse_int now new_id values (some h)) (c ∷ i) s
        (λ h. refl) v
  hosts_step-IsKept (delete now now_text i) s fresh v =
      deleted-IsKept to_lower_case collate date_parse now now_text i s v
  hosts_step-IsKept (toggle_favorite now i) s fresh v =
      update_where-IsKept to_lower_case collate (has_id i) _ s (λ h. refl) v
  hosts_step-IsKept (mark_connected now i) s fresh v =
      update_where-IsKept to_lower_case collate (has_id i) _ s (λ h. refl) v
  hosts_step-IsKept (count_snippets counts) s fresh v = counts-IsKept counts s v
  hosts_step-IsKept (assign_key now i key) s fresh v =
      update_where-IsKept to_lower_case collate (has_id i) _ s (λ h. refl) v
  hosts_step-IsKept (clear_key_by_path now path) s fresh v =
      update_where-IsKept to_lower_case collate _ _ s (λ h. refl) v
  hosts_step-IsKept (rename now old new) s fresh v = (groups-IsKept now old new s v).0
  hosts_step-IsKept (ungroup now group) s fresh v = (groups-IsKept now group [] s v).1
  hosts_step-IsKept (ensure_local_shell now) s fresh v = local_shell-IsKept now s v
  hosts_step-IsKept load_samples s fresh v = load_samples-IsKept s

  -- In every state that the actions reach from the first one, no two hosts have one id, each host is in its
  -- normal form, and no host is marked as deleted; the random ids are assumed to be new, and to have no tombstone where an update
  -- with an empty id draws one.
  pub Reach-IsKept : {s : HostsState} → Reach s → IsKept to_lower_case collate s
  unfolding first_state empty_deletion_map
  Reach-IsKept start =
      sorted-IsKept to_lower_case collate sample_hosts empty_deletion_map sample_hosts-once tt
  Reach-IsKept (next {s = s} a before fresh) = hosts_step-IsKept a s fresh (Reach-IsKept before)
