-- ===== src/Sessions/Persist.antt =====
-- What apps/desktop/src/store/sessions-store.ts writes to storage (`partialize`) and restores from it
-- (`merge`). The storage itself, and the JSON between, are not modelled.
use terminal_workspace.Common.{◌||◌, Option, none, some, List, [], ◌∷◌, Text, or_else}
use terminal_workspace.Sessions.Types.{
  SessionPane, SessionWorkspaceState, disconnected, SessionCommandHistoryEntry,
}
use terminal_workspace.Sessions.Panes.{is_connected}
use terminal_workspace.Sessions.History.{
  SessionsState, pane_preview, sanitize_persisted_command_history,
}

unfoldable pub sanitize_pane : SessionPane → SessionPane
unfolding pane_preview is_connected
sanitize_pane p = record p {
  persist_output_preview = some (pane_preview p);
  backend_session_id = none;
  connection_state = disconnected;
  queued_commands = [];
  reconnect_on_restore = is_connected p.connection_state || p.reconnect_on_restore;
}

unfoldable pub sanitize_panes : List (Text × SessionPane) → List (Text × SessionPane)
unfolding sanitize_pane
sanitize_panes [] = []
sanitize_panes ((k, p) ∷ m) = (k, sanitize_pane p) ∷ sanitize_panes m

unfoldable pub sanitize_persisted_workspace : SessionWorkspaceState → SessionWorkspaceState
unfolding sanitize_panes
sanitize_persisted_workspace w = record w { panes = sanitize_panes w.panes }

-- What is stored: an older version stored no history.
pub record Persisted : Type 0 where
  pub workspace : SessionWorkspaceState
  pub command_history : Option (List SessionCommandHistoryEntry)

unfoldable pub partialize : Text → SessionsState → Persisted
unfolding sanitize_persisted_workspace
partialize now s =
    let w = sanitize_persisted_workspace (record (s.workspace) { last_restored_at = some now }) in
    record {
      workspace = w;
      command_history = some (sanitize_persisted_command_history s.command_history w.panes);
    }

unfoldable pub merge_persisted : Persisted → SessionsState → SessionsState
unfolding sanitize_persisted_workspace
merge_persisted stored current =
    let w = sanitize_persisted_workspace stored.workspace in
    record {
      workspace = w;
      command_history =
          sanitize_persisted_command_history
            (or_else stored.command_history current.command_history) w.panes;
    }
