-- ===== src/Sessions/Steps.antt =====
-- The actions of `useSessionsStore` (apps/desktop/src/store/sessions-store.ts) as a step relation on the
-- states of the store, and the states that they reach from the empty store.
use terminal_workspace.Common.{◌≤◌, ◌≡◌, Bool, Option, none, some, List, [], ◌∷◌, Text}
use terminal_workspace.Common.Int.{ℤ}
use terminal_workspace.Common.Dict.{count}
use terminal_workspace.Hosts.Types.{HostRecord}
use terminal_workspace.Sessions.Types.{
  SessionTab, SessionWorkspaceState, SplitDirection, JsNumber, SessionConnectionState,
  SessionTransport, SessionCommandHistorySource,
}
use terminal_workspace.Sessions.Tabs.{
  Draws, find_tab, open_session_workspace, duplicate_session_workspace, CycleDirection,
  set_active_session_tab, cycle_session_tab, split_session_pane, set_active_session_pane,
  set_tab_split_direction, set_tab_split_ratio, reorder_session_tabs,
}
use terminal_workspace.Sessions.Panes.{
  update_pane_connection_state, update_pane_reconnect_preference, update_pane_transport,
  update_pane_backend_session, queue_pane_command, consume_pane_command, toggle_pane_connection,
}
use terminal_workspace.Sessions.History.{
  SessionsState, append_pane_command_history_output, update_pane_preview_persistence,
}
use terminal_workspace.Sessions.Persist.{partialize, merge_persisted}
use terminal_workspace.Sessions.Store.{
  close_tab, close_pane, close_panes_for_host, queue_for_host, queue_command_for_hosts,
  clear_command_history, record_pane_command,
}
use terminal_workspace.Sessions.Counts.{IsFresh}

-- The ids drawn in each round are new when the round begins.
abbrev pub AllFresh :
    Text → Option Text → List (HostRecord × Draws × Text) → SessionWorkspaceState → Type 0
AllFresh command label [] s = Unit
AllFresh command label ((host, d, command_id) ∷ rest) s =
    IsFresh d s × AllFresh command label rest (queue_for_host command label host d command_id s).0

-- The state with another workspace: the store merges what an operation returns.
abbrev pub on : SessionsState → SessionWorkspaceState → SessionsState
on s w = record s { workspace = w }

-- One action of the store. The ids drawn are new, and `closePane` is called for a pane of the tab.
pub data Step : SessionsState → SessionsState → Type 0 where
  open_session :
      (s : SessionsState) (d : Draws) (host : HostRecord)
      → IsFresh d s.workspace
      → Step s (on s (open_session_workspace d s.workspace host))
  duplicate_session :
      (s : SessionsState) (d : Draws) (host : HostRecord) (base : Option Text)
      → IsFresh d s.workspace
      → Step s (on s (duplicate_session_workspace d s.workspace host base))
  select_tab : (s : SessionsState) (i : Text) → Step s (on s (set_active_session_tab s.workspace i))
  cycle_tab :
      (s : SessionsState) (direction : CycleDirection)
      → Step s (on s (cycle_session_tab s.workspace direction))
  close_one_tab : (s : SessionsState) (i : Text) → Step s (on s (close_tab s.workspace i).0)
  split_tab :
      (s : SessionsState) (d : Draws) (i : Text) (host : HostRecord)
      → IsFresh d s.workspace
      → Step s (on s (split_session_pane d s.workspace i host))
  close_one_pane :
      (s : SessionsState) (now i p : Text)
      → ((t : SessionTab) → find_tab i s.workspace.tabs ≡ some t → 1 ≤ count p t.pane_ids)
      → Step s (on s (close_pane now s.workspace i p).0)
  close_host : (s : SessionsState) (h : Text) → Step s (on s (close_panes_for_host s.workspace h).0)
  select_pane :
      (s : SessionsState) (now i p : Text)
      → Step s (on s (set_active_session_pane now s.workspace i p))
  set_pane_state :
      (s : SessionsState) (now p : Text) (c : SessionConnectionState) (e : Option Text)
      → Step s (on s (update_pane_connection_state now s.workspace p c e))
  set_reconnect :
      (s : SessionsState) (now p : Text) (b : Bool)
      → Step s (on s (update_pane_reconnect_preference now s.workspace p b))
  set_preview :
      (s : SessionsState) (now p : Text) (b : Bool)
      → Step s (update_pane_preview_persistence now s p b)
  set_transport :
      (s : SessionsState) (now p : Text) (transport : SessionTransport)
      → Step s (on s (update_pane_transport now s.workspace p transport))
  set_backend_session :
      (s : SessionsState) (now p : Text) (session : Option Text)
      → Step s (on s (update_pane_backend_session now s.workspace p session))
  queue_command :
      (s : SessionsState) (now command_id p command : Text) (label : Option Text)
      → Step s (on s (queue_pane_command now command_id s.workspace p command label))
  consume_command :
      (s : SessionsState) (now p command_id : Text)
      → Step s (on s (consume_pane_command now s.workspace p command_id))
  record_command :
      (s : SessionsState) (now entry_id p command : Text) (source : SessionCommandHistorySource)
      → Step s (record_pane_command now entry_id s p command source).0
  append_output :
      (s : SessionsState) (now entry_id output : Text)
      → Step s (append_pane_command_history_output now s entry_id output)
  clear_history : (s : SessionsState) → Step s (clear_command_history s)
  queue_for_hosts :
      (s : SessionsState) (command : Text) (label : Option Text)
      (rs : List (HostRecord × Draws × Text))
      → AllFresh command label rs s.workspace
      → Step s (on s (queue_command_for_hosts command label rs s.workspace).0)
  toggle_connection :
      (s : SessionsState) (now p : Text) → Step s (on s (toggle_pane_connection now s.workspace p))
  set_direction :
      (s : SessionsState) (now i : Text) (direction : SplitDirection)
      → Step s (on s (set_tab_split_direction now s.workspace i direction))
  set_ratio :
      (s : SessionsState) (now i : Text) (ratio : JsNumber)
      → Step s (on s (set_tab_split_ratio now s.workspace i ratio))
  reorder_tab :
      (s : SessionsState) (from to : ℤ) → Step s (on s (reorder_session_tabs s.workspace from to))
  relaunch :
      (s fresh : SessionsState) (now : Text) → Step s (merge_persisted (partialize now s) fresh)

abbrev pub empty_store : SessionsState
empty_store = record {
  workspace = record { tabs = []; panes = []; active_tab_id = none; last_restored_at = none };
  command_history = [];
}

pub data Reach : SessionsState → Type 0 where
  start : Reach empty_store
  next : {s t : SessionsState} → Reach s → Step s t → Reach t
