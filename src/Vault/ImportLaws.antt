-- ===== src/Vault/ImportLaws.antt =====
-- `applyImportedLocalConfigBundle` of apps/desktop/src/lib/local-config.ts: tombstones after a merge,
-- and that a preview without conflicts means that the merge succeeds.
use terminal_workspace.Common.{
  ℕ, ◌≡◌, ◌∙◌, ap, Bool, true, false, not, ◌&&◌, Option, none, some, List, map, or_else, is_some,
  is_empty, if◌then◌else◌, Text, All, inl, inr, Bool-cases,
}
use mathlib.Core.Path.{subst}
use terminal_workspace.Common.Int.{ℤ}
use terminal_workspace.Common.Dict.{includes}
use terminal_workspace.Vault.Deletions.{
  VaultDeletionEntry, VaultDeletionMap, compact_deletion_map, merge_deletion_entries,
  compact_deletion_entries, replace_deletions,
}
use terminal_workspace.Vault.Compaction.{compact_deletion_entries-All}
use terminal_workspace.Vault.Tombstones.{merge_deletion_entries-IsMergedDeletions}
use terminal_workspace.Vault.Merge.{ConflictResolution, block}
use terminal_workspace.Vault.Contract.{LocalConfigImportStrategy}
use terminal_workspace.Vault.Records.{
  KeyRecord, SnippetRecord, KnownHostRecord, IdentityRecord, PreparedLocalConfigCollections,
}
use terminal_workspace.Vault.Plans.{
  MergeOperations, MergedCollections, build_merge_plan, merge_prepared_collections, host_ids_of,
}
use terminal_workspace.Vault.PlanLaws.{build_merge_plan-settles}
use terminal_workspace.Vault.Import.{
  ImportedLocalConfigBundle, merge_mode, WorkspaceState, ImportError, other_lineage,
  merge_conflicts, ImportOutcome, refused, applied, LocalVaultMetadata, get_imported_vault_metadata,
  prepare_imported_collections, prepare_imported_deletions, build_applied_deletion_map,
  is_same_lineage, has_merge_conflicts, merged_records, with_vault, written, merged_with,
  apply_imported_local_config_bundle,
}

-- No tombstone has one of the ids.
abbrev pub IsGone : List Text → List VaultDeletionEntry → Type 0
IsGone ids = All (λ e. includes e.id ids ≡ false)

-- No record that is there has a tombstone.
pub record IsClean {Q : Type 0} (ops : MergeOperations) (s : WorkspaceState Q) : Type 0 where
  pub hosts : IsGone (host_ids_of ops s.collections.hosts) s.deletions.hosts
  pub keys : IsGone (map (λ (r : KeyRecord). r.id) s.collections.keys) s.deletions.keys
  pub snippets :
      IsGone (map (λ (r : SnippetRecord). r.id) s.collections.snippets) s.deletions.snippets
  pub known_hosts :
      IsGone (map (λ (r : KnownHostRecord). r.id) s.collections.known_hosts) s.deletions.known_hosts
  pub identities :
      IsGone (map (λ (r : IdentityRecord). r.id) s.collections.identities) s.deletions.identities

kept-IsGone :
    (ops : MergeOperations) (date_parse : Text → Option ℤ) (now : ℕ)
    (local imported : List VaultDeletionEntry) (ids : List Text)
    → IsGone ids (
        compact_deletion_entries ops.collate date_parse now
          (merge_deletion_entries ops.collate local imported ids))
kept-IsGone ops date_parse now local imported ids =
    compact_deletion_entries-All ops.collate date_parse now _ _
      (merge_deletion_entries-IsMergedDeletions ops.collate ids local imported).gone

with_vault-IsClean :
    {Q : Type 0} (ops : MergeOperations) (v : Option LocalVaultMetadata) (s : WorkspaceState Q)
    → IsClean ops s
    → IsClean ops (with_vault v s)
unfolding with_vault
with_vault-IsClean ops none s clean = record {
  hosts = clean.hosts;
  keys = clean.keys;
  snippets = clean.snippets;
  known_hosts = clean.known_hosts;
  identities = clean.identities;
}
with_vault-IsClean ops (some v) s clean = elim (Bool-cases (is_empty v.vault_id)) [
  | inl nameless ↦ rw nameless record {
    hosts = clean.hosts;
    keys = clean.keys;
    snippets = clean.snippets;
    known_hosts = clean.known_hosts;
    identities = clean.identities;
  }
  | inr named ↦ rw named record {
    hosts = clean.hosts;
    keys = clean.keys;
    snippets = clean.snippets;
    known_hosts = clean.known_hosts;
    identities = clean.identities;
  }
]

applied_state : {Q : Type 0} → WorkspaceState Q → ImportOutcome Q → WorkspaceState Q
applied_state d (refused e) = d
applied_state d (applied s) = s

module _ {Q : Type 0} (ops : MergeOperations) (date_parse : Text → Option ℤ) (now : ℕ)
    (now_text : Text) (b : ImportedLocalConfigBundle) (strategy : LocalConfigImportStrategy)
    (s : WorkspaceState Q) where
  written-IsClean :
      (kept : PreparedLocalConfigCollections)
      → IsClean ops (written ops date_parse now now_text b merge_mode kept s)
  unfolding written replace_deletions compact_deletion_map build_applied_deletion_map
  written-IsClean kept = with_vault-IsClean ops (get_imported_vault_metadata b) _ record {
    hosts =
        kept-IsGone ops date_parse now s.deletions.hosts imported.hosts
          (host_ids_of ops kept.hosts);
    keys =
        kept-IsGone ops date_parse now s.deletions.keys imported.keys
          (map (λ (r : KeyRecord). r.id) kept.keys);
    snippets =
        kept-IsGone ops date_parse now s.deletions.snippets imported.snippets
          (map (λ (r : SnippetRecord). r.id) kept.snippets);
    known_hosts =
        kept-IsGone ops date_parse now s.deletions.known_hosts imported.known_hosts
          (map (λ (r : KnownHostRecord). r.id) kept.known_hosts);
    identities =
        kept-IsGone ops date_parse now s.deletions.identities imported.identities
          (map (λ (r : IdentityRecord). r.id) kept.identities);
  }
    where
      imported : VaultDeletionMap
      imported = prepare_imported_deletions ops date_parse now b

  -- After an import that merged, no record that the vault has is marked as deleted.
  pub merge_import-IsClean :
      (resolution : Option ConflictResolution) (t : WorkspaceState Q)
      → apply_imported_local_config_bundle ops date_parse now now_text b strategy merge_mode
          resolution s
        ≡ applied t
      → IsClean ops t
  unfolding apply_imported_local_config_bundle applied_state
  merge_import-IsClean resolution t done = elim (Bool-cases (is_same_lineage strategy)) [
    | inr other ↦ absurd_refused other_lineage t (rw other at done)
    | inl same ↦ elim (Bool-cases (has_merge_conflicts merged && not (is_some resolution))) [
      | inl unresolved ↦ absurd_refused merge_conflicts t (rw (same, unresolved) at done)
      | inr settled ↦
          subst (IsClean ops) (ap (applied_state t) (rw (same, settled) at done))
            (written-IsClean (merged_records merged))
    ]
  ]
    where
      merged : MergedCollections
      merged = merged_with ops date_parse now now_text b resolution s

      absurd_refused :
          (e : ImportError) (u : WorkspaceState Q) → refused e ≡ applied u → IsClean ops u
      absurd_refused e u h = cc

  -- The test of the import reads the same counts as the preview.
  has_conflicts-quiet :
      (build_merge_plan ops s.collections
          (prepare_imported_collections ops b)
          (prepare_imported_deletions ops date_parse now b)).has_conflicts
        ≡ false
      → has_merge_conflicts (
          merge_prepared_collections ops s.collections
            (prepare_imported_collections ops b)
            (prepare_imported_deletions ops date_parse now b)
            block)
        ≡ false
  unfolding has_merge_conflicts build_merge_plan merge_prepared_collections
  has_conflicts-quiet calm = calm

  -- If the preview has no conflicts and the bundle is of this vault's lineage, a merge is not refused,
  -- and under each choice of resolution, also none, it writes the same records.
  pub preview-applied :
      (resolution : Option ConflictResolution)
      → is_same_lineage strategy ≡ true
      → (build_merge_plan ops s.collections
          (prepare_imported_collections ops b)
          (prepare_imported_deletions ops date_parse now b)).has_conflicts
        ≡ false
      → apply_imported_local_config_bundle ops date_parse now now_text b strategy merge_mode
          resolution s
        ≡ applied (
            written ops date_parse now now_text b merge_mode
              (merged_records (
                merge_prepared_collections ops s.collections
                  (prepare_imported_collections ops b)
                  (prepare_imported_deletions ops date_parse now b)
                  block))
              s)
  unfolding apply_imported_local_config_bundle
  preview-applied resolution same calm = rw same (
      ap (λ m. outcome (has_merge_conflicts m) m) unchanged
      ∙ ap (λ q. outcome q previewed) (has_conflicts-quiet calm))
    where
      previewed : MergedCollections
      previewed =
          merge_prepared_collections ops s.collections (prepare_imported_collections ops b)
            (prepare_imported_deletions ops date_parse now b) block

      outcome : Bool → MergedCollections → ImportOutcome Q
      outcome conflicts m =
          if conflicts && not (is_some resolution)
          then refused merge_conflicts
          else applied (written ops date_parse now now_text b merge_mode (merged_records m) s)

      unchanged :
          merged_with ops date_parse now now_text b resolution s
          ≡ merge_prepared_collections ops s.collections
              (prepare_imported_collections ops b)
              (prepare_imported_deletions ops date_parse now b)
              block
      unchanged =
          unfold merged_with in
          (build_merge_plan-settles ops s.collections (prepare_imported_collections ops b)
            (prepare_imported_deletions ops date_parse now b) (or_else resolution block) block
            calm).1
