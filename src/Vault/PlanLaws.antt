-- ===== src/Vault/PlanLaws.antt =====
-- `buildMergePlan` and `mergePreparedCollections` of apps/desktop/src/lib/local-config.ts: a preview
-- without conflicts is what every merge does.
use terminal_workspace.Common.{◌≡◌, ◌∙◌, refl, sym, ap, false, List, Text, arith}
use mathlib.Core.Path.{subst}
use terminal_workspace.Hosts.Types.{HostRecord}
use terminal_workspace.Vault.Deletions.{VaultDeletionMap}
use terminal_workspace.Vault.Merge.{ConflictResolution, block, MergeResult}
use terminal_workspace.Vault.Records.{
  PreparedLocalConfigCollections, KeyRecord, SnippetRecord, KnownHostRecord, IdentityRecord,
}
use terminal_workspace.Vault.Plans.{
  LocalConfigMergePlan, MergedCollections, MergeOperations, host_ids_of, assigned_to, targeted_at,
  sort_keys, sort_snippets, sort_known_hosts, sort_identities, merge_hosts, merge_keys,
  merge_snippets, merge_known_hosts, merge_identities, merge_prepared_collections, build_merge_plan,
}
use terminal_workspace.Vault.Resolution.{merge_collection-resolution}

-- The plan shows the sections of the merge.
pub record IsPreview (plan : LocalConfigMergePlan) (merged : MergedCollections) : Type 0 where
  pub hosts : merged.hosts.tally ≡ plan.hosts
  pub keys : merged.keys.tally ≡ plan.keys
  pub snippets : merged.snippets.tally ≡ plan.snippets
  pub known_hosts : merged.known_hosts.tally ≡ plan.known_hosts
  pub identities : merged.identities.tally ≡ plan.identities

module _ (ops : MergeOperations) (local imported : PreparedLocalConfigCollections)
    (deletions : VaultDeletionMap) where
  block_ids : List Text
  block_ids = host_ids_of ops (merge_hosts ops local imported deletions block).records

  -- The sections of the preview are those of a merge that is given no resolution.
  build_merge_plan-IsPreview :
      IsPreview
        (build_merge_plan ops local imported deletions)
        (merge_prepared_collections ops local imported deletions block)
  unfolding build_merge_plan merge_prepared_collections
  build_merge_plan-IsPreview = record {
    hosts = refl;
    keys = refl;
    snippets = refl;
    known_hosts = refl;
    identities = refl;
  }

  -- No collection has a conflict.
  record IsCalm : Type 0 where
    hosts : (merge_hosts ops local imported deletions block).tally.conflicts ≡ 0
    keys : (merge_keys ops block_ids local imported deletions block).tally.conflicts ≡ 0
    snippets : (merge_snippets ops block_ids local imported deletions block).tally.conflicts ≡ 0
    known_hosts : (merge_known_hosts ops local imported deletions block).tally.conflicts ≡ 0
    identities : (merge_identities ops local imported deletions block).tally.conflicts ≡ 0

  has_conflicts-IsCalm :
      (build_merge_plan ops local imported deletions).has_conflicts ≡ false → IsCalm
  unfolding build_merge_plan block_ids
  has_conflicts-IsCalm calm = record {
    hosts = ground (arith, calm);
    keys = ground (arith, calm);
    snippets = ground (arith, calm);
    known_hosts = ground (arith, calm);
    identities = ground (arith, calm);
  }

  merge_hosts-settled :
      (c : ConflictResolution)
      → (merge_hosts ops local imported deletions block).tally.conflicts ≡ 0
      → merge_hosts ops local imported deletions c ≡ merge_hosts ops local imported deletions block
  unfolding merge_hosts
  merge_hosts-settled c calm = sym (
      merge_collection-resolution (λ (r : HostRecord). r.id) (λ (r : HostRecord). r.updated_at)
        ops.serialize_host block c local.hosts imported.hosts deletions.hosts
        ops.sort_host_collection calm)

  merge_keys-settled :
      (c : ConflictResolution)
      → (merge_keys ops block_ids local imported deletions block).tally.conflicts ≡ 0
      → merge_keys ops block_ids local imported deletions c
        ≡ merge_keys ops block_ids local imported deletions block
  unfolding merge_keys
  merge_keys-settled c calm = sym (
      merge_collection-resolution (λ (r : KeyRecord). r.id) (λ (r : KeyRecord). r.updated_at)
        ops.serialize_key block c (assigned_to ops block_ids local.keys)
        (assigned_to ops block_ids imported.keys) deletions.keys (sort_keys ops) calm)

  merge_snippets-settled :
      (c : ConflictResolution)
      → (merge_snippets ops block_ids local imported deletions block).tally.conflicts ≡ 0
      → merge_snippets ops block_ids local imported deletions c
        ≡ merge_snippets ops block_ids local imported deletions block
  unfolding merge_snippets
  merge_snippets-settled c calm = sym (
      merge_collection-resolution (λ (r : SnippetRecord). r.id)
        (λ (r : SnippetRecord). r.updated_at) ops.serialize_snippet block c
        (targeted_at ops block_ids local.snippets) (targeted_at ops block_ids imported.snippets)
        deletions.snippets (sort_snippets ops) calm)

  merge_known_hosts-settled :
      (c : ConflictResolution)
      → (merge_known_hosts ops local imported deletions block).tally.conflicts ≡ 0
      → merge_known_hosts ops local imported deletions c
        ≡ merge_known_hosts ops local imported deletions block
  unfolding merge_known_hosts
  merge_known_hosts-settled c calm = sym (
      merge_collection-resolution (λ (r : KnownHostRecord). r.id)
        (λ (r : KnownHostRecord). r.updated_at) ops.serialize_known_host block c local.known_hosts
        imported.known_hosts deletions.known_hosts (sort_known_hosts ops) calm)

  merge_identities-settled :
      (c : ConflictResolution)
      → (merge_identities ops local imported deletions block).tally.conflicts ≡ 0
      → merge_identities ops local imported deletions c
        ≡ merge_identities ops local imported deletions block
  unfolding merge_identities
  merge_identities-settled c calm = sym (
      merge_collection-resolution (λ (r : IdentityRecord). r.id)
        (λ (r : IdentityRecord). r.updated_at) ops.serialize_identity block c local.identities
        imported.identities deletions.identities (sort_identities ops) calm)

  gathered :
      MergeResult HostRecord
      → MergeResult KeyRecord
      → MergeResult SnippetRecord
      → MergeResult KnownHostRecord
      → MergeResult IdentityRecord
      → MergedCollections
  gathered h k s n i = record { hosts = h; keys = k; snippets = s; known_hosts = n; identities = i }

  settled :
      (c : ConflictResolution)
      → (build_merge_plan ops local imported deletions).has_conflicts ≡ false
      → merge_prepared_collections ops local imported deletions c
        ≡ merge_prepared_collections ops local imported deletions block
  unfolding merge_prepared_collections block_ids gathered
  settled c calm =
      let all = has_conflicts-IsCalm calm in
      ap
        (λ (m : MergeResult HostRecord).
          gathered m (merge_keys ops (host_ids_of ops m.records) local imported deletions c)
            (merge_snippets ops (host_ids_of ops m.records) local imported deletions c)
            (merge_known_hosts ops local imported deletions c)
            (merge_identities ops local imported deletions c))
        (merge_hosts-settled c all.hosts)
      ∙ cc (
        merge_keys-settled c all.keys,
        merge_snippets-settled c all.snippets,
        merge_known_hosts-settled c all.known_hosts,
        merge_identities-settled c all.identities,
      )

  -- If the preview has no conflicts, a merge under each resolution gives the sections of the preview,
  -- and the same collections as under each other.
  pub build_merge_plan-settles :
      (c d : ConflictResolution)
      → (build_merge_plan ops local imported deletions).has_conflicts ≡ false
      → IsPreview
          (build_merge_plan ops local imported deletions)
          (merge_prepared_collections ops local imported deletions c)
        × (merge_prepared_collections ops local imported deletions c
            ≡ merge_prepared_collections ops local imported deletions d)
  build_merge_plan-settles c d calm = (
    subst (IsPreview (build_merge_plan ops local imported deletions)) (sym (settled c calm))
        build_merge_plan-IsPreview,
    settled c calm ∙ sym (settled d calm),
  )
