-- ===== src/Vault/Tests.antt =====
-- Concrete runs of the vault (apps/desktop/src/store/vault-sync-store.ts, lib/local-config.ts and
-- lib/vault-sync-contract.ts), and its theorems at inputs where their hypotheses hold.
use terminal_workspace.Common.{
  ◌≤◌, ◌≡◌, ◌⊎◌, ◌↔◌, refl, Bool, true, false, not, Option, none, some, List, [], ◌∷◌, ◌++◌, Text,
  text, ◌===◌, All, length, arith,
}
use terminal_workspace.Common.Int.{ℤ, pos}
use terminal_workspace.Common.Dict.{count, includes, lookup, insert, keys, values}
use terminal_workspace.Common.Order.{text_ltb, text_ltb_asym, sort_by, length-sort_by}
use terminal_workspace.Hosts.Types.{HostRecord, ssh, password, require_trusted}
use terminal_workspace.Vault.Deletions.{
  VaultDeletionEntry, tombstone_max_entries, is_live, compact_deletion_entries,
  merge_deletion_entries, empty_deletion_map,
}
use terminal_workspace.Vault.Gather.{ids}
use terminal_workspace.Vault.Compaction.{
  IsKept, IsCompact, compact_deletion_entries-IsCompact, compact_deletion_entries-IsKept,
  compact_deletion_entries-compact_deletion_entries,
}
use terminal_workspace.Vault.Tombstones.{
  IsMergedDeletions, merge_deletion_entries-IsMergedDeletions,
}
use terminal_workspace.Vault.Merge.{block, keep_local, prefer_imported, merge_collection}
use terminal_workspace.Vault.MergeTally.{IsTallied}
use terminal_workspace.Vault.Collections.{all_ids}
use terminal_workspace.Vault.Resolution.{merge_collection-IsTallied, merge_collection-resolution}
use terminal_workspace.Vault.Contract.{
  VaultSyncCountSummary, VaultSyncEnvelopeHeader, VaultSyncEnvelope, VaultSyncTrustPolicy,
  create_digest_material, evaluate_vault_sync_envelope_trust,
}
use terminal_workspace.Vault.Trust.{IsAcceptable, evaluate_vault_sync_envelope_trust_accepts}
use terminal_workspace.Vault.Records.{PreparedLocalConfigCollections}
use terminal_workspace.Vault.Plans.{MergeOperations, merge_prepared_collections, build_merge_plan}
use terminal_workspace.Vault.PlanLaws.{IsPreview, build_merge_plan-settles}

-- A collation by code units, and dates that parse to a number of milliseconds.
abbrev pub by_units : Text → Text → Bool
by_units a b = not (text_ltb b a)

by_units-total : (a b : Text) → by_units a b ≡ false → by_units b a ≡ true
by_units-total a b h = ground (arith, h, text_ltb_asym b a)

abbrev pub parse_date : Text → Option ℤ
parse_date [] = none
parse_date (c ∷ s) = some (pos c)

abbrev tombstone : Text → Text → VaultDeletionEntry
tombstone i at = record { id = i; deleted_at = at }

-- Two tombstones of one host, and one that has no date.
abbrev tombstones : List VaultDeletionEntry
tombstones =
    tombstone (text "h1") (text "1")
    ∷ tombstone (text "h2") []
    ∷ tombstone (text "h1") (text "2")
    ∷ []

compacted :
    compact_deletion_entries by_units parse_date 60 tombstones
    ≡ tombstone (text "h1") (text "2") ∷ []
unfolding compact_deletion_entries sort_by text_ltb ◌===◌ insert lookup values
compacted = refl

compact_deletion_entries-IsCompact_example :
    IsCompact by_units parse_date 60 (compact_deletion_entries by_units parse_date 60 tombstones)
compact_deletion_entries-IsCompact_example =
    compact_deletion_entries-IsCompact by_units parse_date 60 tombstones by_units-total

compact_twice_example :
    compact_deletion_entries by_units parse_date 60
      (compact_deletion_entries by_units parse_date 60 tombstones)
    ≡ compact_deletion_entries by_units parse_date 60 tombstones
compact_twice_example =
    compact_deletion_entries-compact_deletion_entries by_units parse_date 60 tombstones
      by_units-total

compact_deletion_entries-IsKept_example :
    All
      (λ e.
        is_live by_units parse_date 60 e ≡ true
        → IsKept (compact_deletion_entries by_units parse_date 60 tombstones) e
          × ((1 ≤ count e.id (ids (compact_deletion_entries by_units parse_date 60 tombstones)))
              ⊎ (length (compact_deletion_entries by_units parse_date 60 tombstones)
                  ≡ tombstone_max_entries)))
      tombstones
compact_deletion_entries-IsKept_example =
    compact_deletion_entries-IsKept by_units parse_date 60 tombstones

merge_deletion_entries_example :
    IsMergedDeletions by_units
      (text "h2" ∷ [])
      (tombstones ++ tombstone (text "h1") (text "3") ∷ [])
      (merge_deletion_entries by_units tombstones
        (tombstone (text "h1") (text "3") ∷ [])
        (text "h2" ∷ []))
merge_deletion_entries_example =
    merge_deletion_entries-IsMergedDeletions by_units (text "h2" ∷ []) tombstones
      (tombstone (text "h1") (text "3") ∷ [])

-- Records that are an id with a date, and serialize as the date.
abbrev Row : Type 0
Row = Text × Text

abbrev row_id : Row → Text
row_id r = r.0

abbrev row_date : Row → Text
row_date r = r.1

abbrev row_text : Row → Text
row_text r = r.1

abbrev newest_rows_first : List Row → List Row
newest_rows_first = sort_by (λ (a : Row) (b : Row). by_units b.1 a.1)

abbrev local_rows : List Row
local_rows = (text "a", text "1") ∷ (text "b", text "4") ∷ (text "c", text "1") ∷ []

abbrev imported_rows : List Row
imported_rows = (text "b", text "3") ∷ (text "d", text "2") ∷ []

abbrev row_deletions : List VaultDeletionEntry
row_deletions = tombstone (text "a") (text "2") ∷ tombstone (text "c") (text "1") ∷ []

-- The local b is newer, d is added, a was deleted later, and c meets a tombstone of its own date.
merged_rows :
    (merge_collection row_id row_date row_text local_rows imported_rows newest_rows_first
      row_deletions prefer_imported).records
    ≡ (text "b", text "4") ∷ (text "d", text "2") ∷ []
unfolding merge_collection sort_by text_ltb ◌===◌ insert lookup keys includes
merged_rows = refl

merge_collection-IsTallied_example :
    IsTallied block
      (length (all_ids row_id row_date row_text block local_rows imported_rows row_deletions))
      (merge_collection row_id row_date row_text local_rows imported_rows newest_rows_first
        row_deletions block)
merge_collection-IsTallied_example =
    merge_collection-IsTallied row_id row_date row_text block local_rows imported_rows row_deletions
      newest_rows_first (length-sort_by _)

merge_collection-resolution_example :
    merge_collection row_id row_date row_text local_rows imported_rows newest_rows_first [] block
    ≡ merge_collection row_id row_date row_text local_rows imported_rows newest_rows_first []
        prefer_imported
unfolding merge_collection sort_by text_ltb ◌===◌ insert lookup keys includes
merge_collection-resolution_example =
    merge_collection-resolution row_id row_date row_text block prefer_imported local_rows
      imported_rows [] newest_rows_first refl

abbrev counts : VaultSyncCountSummary
counts = record { hosts = text "1"; keys = text "0"; snippets = text "0"; known_hosts = text "0" }

abbrev header_of : Text → Text → VaultSyncEnvelopeHeader
header_of vault device = record {
  schema = text "terminal-workspace-sync";
  version = text "1";
  payload_kind = text "local-config-bundle";
  vault_id = vault;
  source_device_id = device;
  snapshot_id = text "s2";
  base_snapshot_id = some (text "s1");
  exported_at = text "2026-04";
  record_counts = counts;
  deletion_counts = counts;
}

abbrev envelope : VaultSyncEnvelope
envelope = record {
  header = header_of (text "v") (text "d");
  cipher = record {
    algorithm = text "AES-256-GCM";
    key_id = text "k";
    nonce = text "n";
    ciphertext = text "c";
    auth_tag = text "t";
  };
  digest = [];
}

-- Two headers that name other vaults and devices have one digest material.
same_material :
    create_digest_material (header_of (text "v|x") (text "d")) envelope.cipher
    ≡ create_digest_material (header_of (text "v") (text "x|d")) envelope.cipher
unfolding create_digest_material
same_material = refl

abbrev policy : VaultSyncTrustPolicy
policy = record {
  allow_unknown_keys = false;
  trusted_keys =
      record {
        key_id = text "k";
        algorithm = text "AES-256-GCM";
        valid_from = text "2026-01";
        rotate_after = none;
        retire_after = some (text "2026-06");
        allowed_vault_ids = some (text "v" ∷ []);
        replacement_key_ids = [];
      }
      ∷ [];
}

trust_example :
    ((evaluate_vault_sync_envelope_trust envelope policy (text "2026-05")).accepted ≡ true)
    ↔ IsAcceptable envelope policy
trust_example = evaluate_vault_sync_envelope_trust_accepts envelope policy (text "2026-05")

abbrev pub host : Text → Text → HostRecord
host i at = record {
  id = i;
  label = i;
  protocol = ssh;
  hostname = i;
  username = text "root";
  port = 22;
  auth_method = password;
  private_key_path = [];
  group = [];
  tags = [];
  note = [];
  favorite = false;
  key_label = [];
  host_key_policy = require_trusted;
  agent_forwarding = false;
  environment = [];
  jump_host_id = none;
  sftp_root = [];
  snippet_count = 0;
  forwarding_count = 0;
  created_at = at;
  updated_at = at;
  last_connected_at = none;
  identity_id = none;
}

abbrev pub operations : MergeOperations
operations = record {
  collate = by_units;
  sort_host_collection = λ hs. hs;
  serialize_host = λ h. h.updated_at;
  serialize_key = λ k. k.updated_at;
  serialize_snippet = λ s. s.updated_at;
  serialize_known_host = λ k. k.updated_at;
  serialize_identity = λ i. i.updated_at;
}

abbrev with_hosts : List HostRecord → PreparedLocalConfigCollections
with_hosts hs = record { hosts = hs; keys = []; snippets = []; known_hosts = []; identities = [] }

abbrev pub here : PreparedLocalConfigCollections
here = with_hosts (host (text "a") (text "1") ∷ host (text "b") (text "4") ∷ [])

abbrev there : PreparedLocalConfigCollections
there = with_hosts (host (text "b") (text "3") ∷ [])

build_merge_plan-settles_example :
    IsPreview
      (build_merge_plan operations here there empty_deletion_map)
      (merge_prepared_collections operations here there empty_deletion_map keep_local)
    × (merge_prepared_collections operations here there empty_deletion_map keep_local
        ≡ merge_prepared_collections operations here there empty_deletion_map prefer_imported)
unfolding build_merge_plan sort_by text_ltb ◌===◌ insert lookup keys includes empty_deletion_map
build_merge_plan-settles_example =
    build_merge_plan-settles operations here there empty_deletion_map keep_local prefer_imported
      refl
