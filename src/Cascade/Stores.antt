-- ===== src/Cascade/Stores.antt =====
-- `deleteHostAndCascade` of apps/desktop/src/store/cascade-actions.ts and the actions that it calls:
-- `unassignHostFromAll` of keys-store.ts, `removeHostFromAllTargets` of snippets-store.ts and the state of
-- transfers-store.ts, all in apps/desktop/src/store.
use terminal_workspace.Common.{
  ℕ, Bool, false, Option, none, some, List, map, if◌then◌else◌, Text, ◌===◌,
}
use terminal_workspace.Common.Int.{ℤ}
use terminal_workspace.Common.Dict.{without}
use terminal_workspace.Common.Order.{sort_by}
use terminal_workspace.Vault.Records.{KeyRecord, SnippetRecord}
use terminal_workspace.Sessions.Types.{SessionWorkspaceState}
use terminal_workspace.Sessions.Store.{close_panes_for_host}
use terminal_workspace.Secrets.Keychain.{NativeKeychain}
use terminal_workspace.Secrets.Store.{SecretsState, clear_host_secrets}
use terminal_workspace.Hosts.Store.{HostsState, delete_host}

pub data TransferDirection : Type 0 where
  upload download remote : TransferDirection

pub data TransferStatus : Type 0 where
  queued running completed failed : TransferStatus

pub record TransferItem : Type 0 where
  pub id : Text
  pub host_id : Text
  pub host_label : Text
  pub direction : TransferDirection
  pub name : Text
  pub remote_path : Text
  pub status : TransferStatus
  pub bytes : Option ℕ
  pub created_at : Text
  pub updated_at : Text
  pub error_message : Option Text

pub record TransfersState : Type 0 where
  pub active_host_id : Option Text
  pub remote_path_by_host : List (Text × Text)
  pub queue : List TransferItem

unfoldable pub set_active_host : Option Text → TransfersState → TransfersState
set_active_host host_id t = record t { active_host_id = host_id }

abbrev pub is_host : Text → Option Text → Bool
is_host i none = false
is_host i (some j) = j === i

-- The host is no longer the one whose files are shown.
unfoldable pub forget_active_host : Text → TransfersState → TransfersState
unfolding set_active_host ◌===◌
forget_active_host i t = if is_host i t.active_host_id then set_active_host none t else t

-- The stores that the cascade reaches; the hosts come with the tombstones.
pub record AppStores (K : Type 0) : Type 0 where
  pub inventory : HostsState
  pub secrets : SecretsState K
  pub keys : List KeyRecord
  pub snippets : List SnippetRecord
  pub sessions : SessionWorkspaceState
  pub transfers : TransfersState

module _ (collate : Text → Text → Bool) where
  unfoldable pub unassign_host_from_all : Text → List KeyRecord → List KeyRecord
  unfolding sort_by without
  unassign_host_from_all i ks =
      sort_by (λ (left : KeyRecord) (right : KeyRecord). collate right.updated_at left.updated_at)
        (map (λ (k : KeyRecord). record k { assigned_host_ids = without i k.assigned_host_ids }) ks)

  unfoldable pub remove_host_from_all_targets : Text → List SnippetRecord → List SnippetRecord
  unfolding sort_by without
  remove_host_from_all_targets i ss =
      sort_by
        (λ (left : SnippetRecord) (right : SnippetRecord). collate right.updated_at left.updated_at)
        (map (λ (s : SnippetRecord). record s { target_host_ids = without i s.target_host_ids }) ss)

  module _ {K : Type 0} (n : NativeKeychain K) (is_tauri_runtime : Bool)
      (to_lower_case : Text → Text) (date_parse : Text → Option ℤ) where
    -- The stores, and the backend sessions that are closed.
    unfoldable pub delete_host_and_cascade : ℕ → Text → Text → AppStores K → AppStores K × List Text
    unfolding delete_host clear_host_secrets unassign_host_from_all remove_host_from_all_targets
        close_panes_for_host forget_active_host
    delete_host_and_cascade now now_text i s =
        let closed = close_panes_for_host s.sessions i in
        (
          record {
            inventory = delete_host to_lower_case collate date_parse now now_text i s.inventory;
            secrets = clear_host_secrets n is_tauri_runtime i s.secrets;
            keys = unassign_host_from_all i s.keys;
            snippets = remove_host_from_all_targets i s.snippets;
            sessions = closed.0;
            transfers = forget_active_host i s.transfers;
          },
          closed.1,
        )
