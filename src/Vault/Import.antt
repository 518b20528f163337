-- ===== src/Vault/Import.antt =====
-- Applying an imported bundle: `applyImportedLocalConfigBundle` of apps/desktop/src/lib/local-config.ts
-- and what it calls. A bundle is one that the checks of parseImportedLocalConfigBundle have passed, so
-- its version is 1 to 6; the entries of its tombstones have their fields, and an absent list is empty.
use terminal_workspace.Common.{
  ℕ, Bool, true, false, not, ◌&&◌, ◌||◌, Option, none, some, List, [], ◌∷◌, map, if◌then◌else◌,
  Text, text, ◌===◌, is_empty, leb, ltb, or_else, is_some,
}
use terminal_workspace.Common.Int.{ℤ}
use terminal_workspace.Common.Dict.{includes}
use terminal_workspace.Hosts.Types.{HostRecord}
use terminal_workspace.Sessions.Types.{SessionWorkspaceState}
use terminal_workspace.Vault.Deletions.{
  VaultDeletionMap, empty_deletion_map, compact_deletion_map, merge_deletion_entries,
  replace_deletions,
}
use terminal_workspace.Vault.Merge.{ConflictResolution, block}
use terminal_workspace.Vault.Records.{
  KeyRecord, SnippetRecord, KnownHostRecord, IdentityRecord, PreparedLocalConfigCollections,
}
use terminal_workspace.Vault.Contract.{
  LocalConfigImportStrategy, legacy, same_snapshot, fast_forward, divergent, adopt_vault,
  present_and,
}
use terminal_workspace.Vault.Plans.{
  MergeOperations, MergedCollections, merge_prepared_collections, assigned_to, targeted_at,
  sort_known_hosts, sort_identities, host_ids_of,
}

pub record LocalVaultMetadata : Type 0 where
  pub schema : Text
  pub vault_id : Text
  pub source_device_id : Text
  pub snapshot_id : Text
  pub base_snapshot_id : Option Text

pub record ImportedLocalConfigBundle : Type 0 where
  pub version : ℕ
  pub vault : Option LocalVaultMetadata
  pub hosts : List HostRecord
  pub keys : List KeyRecord
  pub snippets : List SnippetRecord
  pub known_hosts : List KnownHostRecord
  pub identities : Option (List IdentityRecord)
  pub deletions : Option VaultDeletionMap

pub data ImportMode : Type 0 where
  replace_mode : ImportMode
  merge_mode : ImportMode

-- The parts of the stores that an import writes; `Q` is the type of a queued transfer.
pub record WorkspaceState (Q : Type 0) : Type 0 where
  pub collections : PreparedLocalConfigCollections
  pub deletions : VaultDeletionMap
  pub vault_id : Text
  pub last_applied_snapshot_id : Option Text
  pub sessions : SessionWorkspaceState
  pub active_host_id : Option Text
  pub remote_path_by_host : List (Text × Text)
  pub queue : List Q

pub data ImportError : Type 0 where
  other_lineage : ImportError
  merge_conflicts : ImportError

pub data ImportOutcome (Q : Type 0) : Type 0 where
  refused : ImportError → ImportOutcome Q
  applied : WorkspaceState Q → ImportOutcome Q

unfoldable pub metadata_of_vault : Option LocalVaultMetadata → Option LocalVaultMetadata
unfolding ◌===◌
metadata_of_vault none = none
metadata_of_vault (some v) = if v.schema === text "local-first-vault" then some v else none

unfoldable pub get_imported_vault_metadata : ImportedLocalConfigBundle → Option LocalVaultMetadata
unfolding metadata_of_vault
get_imported_vault_metadata b = if leb 2 b.version then metadata_of_vault b.vault else none

unfoldable pub prepare_imported_collections :
    MergeOperations → ImportedLocalConfigBundle → PreparedLocalConfigCollections
unfolding assigned_to targeted_at sort_known_hosts sort_identities
prepare_imported_collections ops b =
    let imported_hosts = ops.sort_host_collection b.hosts in
    let imported_host_ids = host_ids_of ops imported_hosts in
    record {
      hosts = imported_hosts;
      keys = assigned_to ops imported_host_ids b.keys;
      snippets = targeted_at ops imported_host_ids b.snippets;
      known_hosts = sort_known_hosts ops b.known_hosts;
      identities = if leb 4 b.version then sort_identities ops (or_else b.identities []) else [];
    }

unfoldable pub prepare_imported_deletions :
    MergeOperations → (Text → Option ℤ) → ℕ → ImportedLocalConfigBundle → VaultDeletionMap
unfolding compact_deletion_map empty_deletion_map
prepare_imported_deletions ops date_parse now b =
    compact_deletion_map ops.collate date_parse now
      (if leb 3 b.version then or_else b.deletions empty_deletion_map else empty_deletion_map)

unfoldable pub build_applied_deletion_map :
    MergeOperations
    → ImportMode
    → VaultDeletionMap
    → VaultDeletionMap
    → PreparedLocalConfigCollections
    → VaultDeletionMap
unfolding merge_deletion_entries
build_applied_deletion_map ops replace_mode local imported kept = imported
build_applied_deletion_map ops merge_mode local imported kept = record {
  hosts =
      merge_deletion_entries ops.collate local.hosts imported.hosts (host_ids_of ops kept.hosts);
  keys =
      merge_deletion_entries ops.collate local.keys imported.keys
        (map (λ (r : KeyRecord). r.id) kept.keys);
  snippets =
      merge_deletion_entries ops.collate local.snippets imported.snippets
        (map (λ (r : SnippetRecord). r.id) kept.snippets);
  known_hosts =
      merge_deletion_entries ops.collate local.known_hosts imported.known_hosts
        (map (λ (r : KnownHostRecord). r.id) kept.known_hosts);
  identities =
      merge_deletion_entries ops.collate local.identities imported.identities
        (map (λ (r : IdentityRecord). r.id) kept.identities);
}

-- The strategies under which a merge is offered.
unfoldable pub is_same_lineage : LocalConfigImportStrategy → Bool
is_same_lineage legacy = false
is_same_lineage same_snapshot = true
is_same_lineage fast_forward = true
is_same_lineage divergent = true
is_same_lineage adopt_vault = false

unfoldable pub has_merge_conflicts : MergedCollections → Bool
has_merge_conflicts m =
    ltb 0 m.hosts.tally.conflicts
    || ltb 0 m.keys.tally.conflicts
    || ltb 0 m.snippets.tally.conflicts
    || ltb 0 m.known_hosts.tally.conflicts
    || ltb 0 m.identities.tally.conflicts

abbrev pub merged_records : MergedCollections → PreparedLocalConfigCollections
merged_records m = record {
  hosts = m.hosts.records;
  keys = m.keys.records;
  snippets = m.snippets.records;
  known_hosts = m.known_hosts.records;
  identities = m.identities.records;
}

unfoldable pub next_active_host : Option Text → List HostRecord → Option Text
unfolding present_and includes
next_active_host active hosts =
    if present_and active (λ i. includes i (map (λ (h : HostRecord). h.id) hosts))
    then active
    else first_id hosts
  where
    first_id : List HostRecord → Option Text
    first_id [] = none
    first_id (h ∷ hs) = some (h.id)

unfoldable pub with_vault :
    {Q : Type 0} → Option LocalVaultMetadata → WorkspaceState Q → WorkspaceState Q
with_vault none s = record s { last_applied_snapshot_id = none }
with_vault (some v) s =
    if is_empty v.vault_id
    then record s { last_applied_snapshot_id = none }
    else record s { vault_id = v.vault_id; last_applied_snapshot_id = some (v.snapshot_id) }

module _ {Q : Type 0} (ops : MergeOperations) (date_parse : Text → Option ℤ) (now : ℕ)
    (now_text : Text) where
  -- What the stores hold after the records of the bundle were applied.
  unfoldable pub written :
      ImportedLocalConfigBundle
      → ImportMode
      → PreparedLocalConfigCollections
      → WorkspaceState Q
      → WorkspaceState Q
  unfolding with_vault get_imported_vault_metadata replace_deletions build_applied_deletion_map
      prepare_imported_deletions next_active_host
  written b mode kept s = with_vault (get_imported_vault_metadata b) record s {
    collections = kept;
    deletions = replace_deletions ops.collate date_parse now (
        build_applied_deletion_map ops mode s.deletions
          (prepare_imported_deletions ops date_parse now b) kept);
    sessions = record {
      tabs = [];
      panes = [];
      active_tab_id = none;
      last_restored_at = some now_text;
    };
    active_host_id = next_active_host s.active_host_id kept.hosts;
    remote_path_by_host = [];
    queue = [];
  }

  -- What a merge gives; `block` when no resolution is chosen.
  unfoldable pub merged_with :
      ImportedLocalConfigBundle → Option ConflictResolution → WorkspaceState Q → MergedCollections
  unfolding merge_prepared_collections prepare_imported_collections prepare_imported_deletions
  merged_with b resolution s =
      merge_prepared_collections ops s.collections (prepare_imported_collections ops b)
        (prepare_imported_deletions ops date_parse now b) (or_else resolution block)

  unfoldable pub apply_imported_local_config_bundle :
      ImportedLocalConfigBundle
      → LocalConfigImportStrategy
      → ImportMode
      → Option ConflictResolution
      → WorkspaceState Q
      → ImportOutcome Q
  unfolding written merged_with is_same_lineage has_merge_conflicts prepare_imported_collections
  apply_imported_local_config_bundle b strategy replace_mode resolution s =
      applied (written b replace_mode (prepare_imported_collections ops b) s)
  apply_imported_local_config_bundle b strategy merge_mode resolution s =
      if not (is_same_lineage strategy)
      then refused other_lineage
      else if has_merge_conflicts (merged_with b resolution s) && not (is_some resolution)
      then refused merge_conflicts
      else applied (written b merge_mode (merged_records (merged_with b resolution s)) s)
