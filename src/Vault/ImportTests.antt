-- ===== src/Vault/ImportTests.antt =====
-- The import of apps/desktop/src/lib/local-config.ts at a concrete bundle.
use terminal_workspace.Common.{◌≡◌, refl, none, some, [], ◌∷◌, Text, text, ◌===◌}
use terminal_workspace.Common.Dict.{includes, lookup, insert, keys, values}
use terminal_workspace.Common.Order.{text_ltb, sort_by}
use terminal_workspace.Vault.Deletions.{empty_deletion_map}
use terminal_workspace.Vault.Merge.{block, prefer_imported}
use terminal_workspace.Vault.Contract.{divergent}
use terminal_workspace.Vault.Plans.{build_merge_plan, merge_prepared_collections}
use terminal_workspace.Vault.Import.{
  ImportedLocalConfigBundle, WorkspaceState, merge_mode, applied, merged_records, written,
  is_same_lineage, prepare_imported_collections, prepare_imported_deletions,
  apply_imported_local_config_bundle,
}
use terminal_workspace.Vault.ImportLaws.{IsClean, merge_import-IsClean, preview-applied}
use terminal_workspace.Vault.Tests.{host, operations, parse_date, here}

-- A bundle of this vault, with an older record of host b.
abbrev bundle : ImportedLocalConfigBundle
bundle = record {
  version = 6;
  vault = some record {
    schema = text "local-first-vault";
    vault_id = text "v";
    source_device_id = text "d";
    snapshot_id = text "s2";
    base_snapshot_id = some (text "s1");
  };
  hosts = host (text "b") (text "3") ∷ [];
  keys = [];
  snippets = [];
  known_hosts = [];
  identities = some [];
  deletions = none;
}

abbrev workspace : WorkspaceState Text
workspace = record {
  collections = here;
  deletions = empty_deletion_map;
  vault_id = text "v";
  last_applied_snapshot_id = none;
  sessions = record { tabs = []; panes = []; active_tab_id = none; last_restored_at = none };
  active_host_id = some (text "a");
  remote_path_by_host = [];
  queue = [];
}

abbrev imported_workspace : WorkspaceState Text
imported_workspace =
    written operations parse_date 60 (text "now") bundle merge_mode
      (merged_records (
        merge_prepared_collections operations here (prepare_imported_collections operations bundle)
          (prepare_imported_deletions operations parse_date 60 bundle) block))
      workspace

preview-applied_example :
    apply_imported_local_config_bundle operations parse_date 60
      (text "now")
      bundle
      divergent
      merge_mode
      (some prefer_imported)
      workspace
    ≡ applied imported_workspace
unfolding build_merge_plan sort_by text_ltb ◌===◌ insert lookup keys values includes
    empty_deletion_map is_same_lineage prepare_imported_collections prepare_imported_deletions
preview-applied_example =
    preview-applied operations parse_date 60 (text "now") bundle divergent workspace
      (some prefer_imported) refl refl

merge_import-IsClean_example : IsClean operations imported_workspace
unfolding build_merge_plan sort_by text_ltb ◌===◌ insert lookup keys values includes
    empty_deletion_map is_same_lineage prepare_imported_collections prepare_imported_deletions
merge_import-IsClean_example =
    merge_import-IsClean operations parse_date 60 (text "now") bundle divergent workspace
      (some prefer_imported) imported_workspace
      (preview-applied operations parse_date 60 (text "now") bundle divergent workspace
        (some prefer_imported) refl refl)
