-- ===== src/Vault/Plans.antt =====
-- The preview of an import and the merge itself, of apps/desktop/src/lib/local-config.ts:
-- `buildMergePlan` and `mergePreparedCollections`.
use terminal_workspace.Common.{Bool, true, ◌||◌, List, map, filter, Text, ltb}
use terminal_workspace.Common.Dict.{includes}
use terminal_workspace.Common.Order.{sort_by}
use terminal_workspace.Hosts.Types.{HostRecord}
use terminal_workspace.Vault.Deletions.{VaultDeletionMap}
use terminal_workspace.Vault.Merge.{
  ConflictResolution, block, LocalConfigMergeSection, MergeResult, merge_collection,
}
use terminal_workspace.Vault.Records.{
  KeyRecord, SnippetRecord, KnownHostRecord, IdentityRecord, PreparedLocalConfigCollections,
}

pub record LocalConfigMergePlan : Type 0 where
  pub applicable : Bool
  pub has_conflicts : Bool
  pub hosts : LocalConfigMergeSection
  pub keys : LocalConfigMergeSection
  pub snippets : LocalConfigMergeSection
  pub known_hosts : LocalConfigMergeSection
  pub identities : LocalConfigMergeSection

-- What `mergePreparedCollections` returns.
pub record MergedCollections : Type 0 where
  pub hosts : MergeResult HostRecord
  pub keys : MergeResult KeyRecord
  pub snippets : MergeResult SnippetRecord
  pub known_hosts : MergeResult KnownHostRecord
  pub identities : MergeResult IdentityRecord

-- What merging takes from other modules: the collation of `localeCompare`, `sortHostCollection` of
-- the hosts store, and `stableSerialize` of each kind of record.
pub record MergeOperations : Type 0 where
  pub collate : Text → Text → Bool
  pub sort_host_collection : List HostRecord → List HostRecord
  pub serialize_host : HostRecord → Text
  pub serialize_key : KeyRecord → Text
  pub serialize_snippet : SnippetRecord → Text
  pub serialize_known_host : KnownHostRecord → Text
  pub serialize_identity : IdentityRecord → Text

module _ (ops : MergeOperations) where
  unfoldable pub sort_keys : List KeyRecord → List KeyRecord
  unfolding sort_by
  sort_keys =
      sort_by
        (λ (left : KeyRecord) (right : KeyRecord). ops.collate right.updated_at left.updated_at)

  unfoldable pub sort_snippets : List SnippetRecord → List SnippetRecord
  unfolding sort_by
  sort_snippets = sort_by (λ (left : SnippetRecord) (right : SnippetRecord).
      ops.collate right.updated_at left.updated_at)

  unfoldable pub sort_known_hosts : List KnownHostRecord → List KnownHostRecord
  unfolding sort_by
  sort_known_hosts = sort_by (λ (left : KnownHostRecord) (right : KnownHostRecord).
      ops.collate right.updated_at left.updated_at)

  unfoldable pub sort_identities : List IdentityRecord → List IdentityRecord
  unfolding sort_by
  sort_identities = sort_by (λ (left : IdentityRecord) (right : IdentityRecord).
      ops.collate right.updated_at left.updated_at)

  -- The keys and snippets with the hosts that are there, sorted.
  unfoldable pub assigned_to : List Text → List KeyRecord → List KeyRecord
  unfolding includes sort_keys
  assigned_to host_ids ks = sort_keys (
      map
        (λ (k : KeyRecord). record k {
          assigned_host_ids = filter (λ i. includes i host_ids) k.assigned_host_ids;
        })
        ks)

  unfoldable pub targeted_at : List Text → List SnippetRecord → List SnippetRecord
  unfolding includes sort_snippets
  targeted_at host_ids ss = sort_snippets (
      map
        (λ (s : SnippetRecord). record s {
          target_host_ids = filter (λ i. includes i host_ids) s.target_host_ids;
        })
        ss)

  unfoldable pub merge_hosts :
      PreparedLocalConfigCollections
      → PreparedLocalConfigCollections
      → VaultDeletionMap
      → ConflictResolution
      → MergeResult HostRecord
  unfolding merge_collection
  merge_hosts local imported deletions c =
      merge_collection (λ (h : HostRecord). h.id) (λ (h : HostRecord). h.updated_at)
        ops.serialize_host local.hosts imported.hosts ops.sort_host_collection deletions.hosts c

  unfoldable pub merge_keys :
      List Text
      → PreparedLocalConfigCollections
      → PreparedLocalConfigCollections
      → VaultDeletionMap
      → ConflictResolution
      → MergeResult KeyRecord
  unfolding merge_collection assigned_to sort_keys
  merge_keys host_ids local imported deletions c =
      merge_collection (λ (k : KeyRecord). k.id) (λ (k : KeyRecord). k.updated_at) ops.serialize_key
        (assigned_to host_ids local.keys) (assigned_to host_ids imported.keys) sort_keys
        deletions.keys c

  unfoldable pub merge_snippets :
      List Text
      → PreparedLocalConfigCollections
      → PreparedLocalConfigCollections
      → VaultDeletionMap
      → ConflictResolution
      → MergeResult SnippetRecord
  unfolding merge_collection targeted_at sort_snippets
  merge_snippets host_ids local imported deletions c =
      merge_collection (λ (s : SnippetRecord). s.id) (λ (s : SnippetRecord). s.updated_at)
        ops.serialize_snippet (targeted_at host_ids local.snippets)
        (targeted_at host_ids imported.snippets) sort_snippets deletions.snippets c

  unfoldable pub merge_known_hosts :
      PreparedLocalConfigCollections
      → PreparedLocalConfigCollections
      → VaultDeletionMap
      → ConflictResolution
      → MergeResult KnownHostRecord
  unfolding merge_collection sort_known_hosts
  merge_known_hosts local imported deletions c =
      merge_collection (λ (k : KnownHostRecord). k.id) (λ (k : KnownHostRecord). k.updated_at)
        ops.serialize_known_host local.known_hosts imported.known_hosts sort_known_hosts
        deletions.known_hosts c

  unfoldable pub merge_identities :
      PreparedLocalConfigCollections
      → PreparedLocalConfigCollections
      → VaultDeletionMap
      → ConflictResolution
      → MergeResult IdentityRecord
  unfolding merge_collection sort_identities
  merge_identities local imported deletions c =
      merge_collection (λ (i : IdentityRecord). i.id) (λ (i : IdentityRecord). i.updated_at)
        ops.serialize_identity local.identities imported.identities sort_identities
        deletions.identities c

  abbrev pub host_ids_of : List HostRecord → List Text
  host_ids_of = map (λ (h : HostRecord). h.id)

  unfoldable pub merge_prepared_collections :
      PreparedLocalConfigCollections
      → PreparedLocalConfigCollections
      → VaultDeletionMap
      → ConflictResolution
      → MergedCollections
  unfolding merge_hosts merge_keys merge_snippets merge_known_hosts merge_identities
  merge_prepared_collections local imported deletions c =
      let merged_hosts = merge_hosts local imported deletions c in
      let host_ids = host_ids_of merged_hosts.records in
      record {
        hosts = merged_hosts;
        keys = merge_keys host_ids local imported deletions c;
        snippets = merge_snippets host_ids local imported deletions c;
        known_hosts = merge_known_hosts local imported deletions c;
        identities = merge_identities local imported deletions c;
      }

  unfoldable pub build_merge_plan :
      PreparedLocalConfigCollections
      → PreparedLocalConfigCollections
      → VaultDeletionMap
      → LocalConfigMergePlan
  unfolding merge_hosts merge_keys merge_snippets merge_known_hosts merge_identities
  build_merge_plan local imported deletions =
      let merged_hosts = merge_hosts local imported deletions block in
      let host_ids = host_ids_of merged_hosts.records in
      let merged_keys = merge_keys host_ids local imported deletions block in
      let merged_snippets = merge_snippets host_ids local imported deletions block in
      let merged_known_hosts = merge_known_hosts local imported deletions block in
      let merged_identities = merge_identities local imported deletions block in
      record {
        applicable = true;
        has_conflicts =
            ltb 0 merged_hosts.tally.conflicts
            || ltb 0 merged_keys.tally.conflicts
            || ltb 0 merged_snippets.tally.conflicts
            || ltb 0 merged_known_hosts.tally.conflicts
            || ltb 0 merged_identities.tally.conflicts;
        hosts = merged_hosts.tally;
        keys = merged_keys.tally;
        snippets = merged_snippets.tally;
        known_hosts = merged_known_hosts.tally;
        identities = merged_identities.tally;
      }
