-- ===== src/Sessions/Panes.antt =====
-- The pane operations of apps/desktop/src/store/sessions-store.ts: `updatePaneConnectionState` to
-- `consumePaneCommand`, without the preview setting, which concerns the history too.
use terminal_workspace.Common.{
  Bool, true, false, ◌||◌, Option, none, some, List, [], ◌∷◌, ◌++◌, if◌then◌else◌, Text, ◌===◌,
  or_option,
}
use terminal_workspace.Common.Dict.{lookup, insert}
use terminal_workspace.Sessions.Types.{
  SessionPane, SessionWorkspaceState, SessionConnectionState, connected, disconnected, connecting,
  error, SessionTransport, QueuedPaneCommand,
}

-- `state === "connected"` and `state === "error"`.
unfoldable pub is_connected : SessionConnectionState → Bool
is_connected connected = true
is_connected _ = false

unfoldable pub is_error : SessionConnectionState → Bool
is_error error = true
is_error _ = false

unfoldable pub touch_pane : Text → SessionPane → SessionPane
touch_pane now p = record p { updated_at = now }

-- The common shape of the updates: nothing happens to a pane that is not there.
unfoldable pub update_pane :
    Text → SessionWorkspaceState → Text → (SessionPane → SessionPane) → SessionWorkspaceState
unfolding touch_pane
update_pane now s pane_id f = elim (lookup pane_id s.panes) [
  | none ↦ s
  | some p ↦ record s { panes = insert pane_id (touch_pane now (f p)) s.panes }
]

unfoldable pub with_connection_state :
    SessionConnectionState → Option Text → SessionPane → SessionPane
unfolding is_connected is_error
with_connection_state c e p = record p {
  connection_state = c;
  connection_error = if is_error c then or_option e p.connection_error else none;
  reconnect_on_restore = is_connected c || p.reconnect_on_restore;
}

unfoldable pub update_pane_connection_state :
    Text
    → SessionWorkspaceState
    → Text
    → SessionConnectionState
    → Option Text
    → SessionWorkspaceState
unfolding update_pane with_connection_state
update_pane_connection_state now s pane_id c e =
    update_pane now s pane_id (with_connection_state c e)

unfoldable pub update_pane_reconnect_preference :
    Text → SessionWorkspaceState → Text → Bool → SessionWorkspaceState
unfolding update_pane
update_pane_reconnect_preference now s pane_id b =
    update_pane now s pane_id (λ p. record p { reconnect_on_restore = b })

unfoldable pub update_pane_transport :
    Text → SessionWorkspaceState → Text → SessionTransport → SessionWorkspaceState
unfolding update_pane
update_pane_transport now s pane_id transport =
    update_pane now s pane_id (λ p. record p { transport = transport })

unfoldable pub update_pane_backend_session :
    Text → SessionWorkspaceState → Text → Option Text → SessionWorkspaceState
unfolding update_pane
update_pane_backend_session now s pane_id session =
    update_pane now s pane_id (λ p. record p { backend_session_id = session })

unfoldable pub enqueue : Text → Text → Text → Option Text → SessionPane → SessionPane
enqueue now command_id command label p = record p {
  queued_commands =
      p.queued_commands
      ++ record { id = command_id; command = command; label = label; created_at = now } ∷ [];
}

unfoldable pub queue_pane_command :
    Text → Text → SessionWorkspaceState → Text → Text → Option Text → SessionWorkspaceState
unfolding update_pane enqueue
queue_pane_command now command_id s pane_id command label =
    update_pane now s pane_id (enqueue now command_id command label)

unfoldable pub dequeue : Text → List QueuedPaneCommand → List QueuedPaneCommand
dequeue command_id [] = []
dequeue command_id (c ∷ cs) =
    let rest = dequeue command_id cs in if c.id === command_id then rest else c ∷ rest

unfoldable pub consume_pane_command :
    Text → SessionWorkspaceState → Text → Text → SessionWorkspaceState
unfolding update_pane dequeue
consume_pane_command now s pane_id command_id =
    update_pane now s pane_id
      (λ p. record p { queued_commands = dequeue command_id p.queued_commands })

-- The state that `togglePaneConnection` asks for.
unfoldable pub toggled_state : SessionConnectionState → SessionConnectionState
toggled_state connected = disconnected
toggled_state _ = connecting

unfoldable pub toggle_pane_connection : Text → SessionWorkspaceState → Text → SessionWorkspaceState
unfolding toggled_state update_pane_connection_state
toggle_pane_connection now s pane_id = elim (lookup pane_id s.panes) [
  | none ↦ s
  | some p ↦ update_pane_connection_state now s pane_id (toggled_state p.connection_state) none
]
