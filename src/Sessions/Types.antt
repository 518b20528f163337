-- ===== src/Sessions/Types.antt =====
-- apps/desktop/src/types/session.ts: panes, tabs, the workspace, and how they are created. The clock
-- (`new Date().toISOString()`) and `crypto.randomUUID()` are arguments: one time for the calls that
-- one operation makes, and one id for each call that draws one.
use terminal_workspace.Common.{Bool, true, false, Option, none, some, List, [], ◌∷◌, Text}
use terminal_workspace.Common.Int.{ℤ}
use terminal_workspace.Hosts.Types.{
  HostRecord, HostProtocol, HostAuthMethod, ssh, local_shell, telnet, serial, mosh, no_auth,
}

pub data SessionConnectionState : Type 0 where
  connecting connected disconnected pending_secrets error : SessionConnectionState

pub data SplitDirection : Type 0 where
  vertical horizontal : SplitDirection

pub data SessionTransport : Type 0 where
  local_shell_transport mock mosh_transport serial_transport ssh_transport telnet_transport
        unsupported :
      SessionTransport

-- A JavaScript number. `finite n` stands for n / 2 ^ 1074: each finite double is of this form.
pub data JsNumber : Type 0 where
  nan infinity minus_infinity : JsNumber
  finite : ℤ → JsNumber

pub record QueuedPaneCommand : Type 0 where
  pub id : Text
  pub command : Text
  pub label : Option Text
  pub created_at : Text

pub data SessionCommandHistorySource : Type 0 where
  queued : SessionCommandHistorySource

pub record SessionCommandHistoryEntry : Type 0 where
  pub id : Text
  pub pane_id : Text
  pub host_id : Text
  pub transport : SessionTransport
  pub command : Text
  pub source : SessionCommandHistorySource
  pub persist_output_preview : Option Bool
  pub output_preview : Option Text
  pub output_updated_at : Option Text
  pub created_at : Text

-- `persist_output_preview` may be missing in a pane that an older version stored.
pub record SessionPane : Type 0 where
  pub id : Text
  pub host_id : Text
  pub title : Text
  pub connection_state : SessionConnectionState
  pub connection_error : Option Text
  pub transport : SessionTransport
  pub backend_session_id : Option Text
  pub queued_commands : List QueuedPaneCommand
  pub reconnect_on_restore : Bool
  pub persist_output_preview : Option Bool
  pub created_at : Text
  pub updated_at : Text

pub record SessionTab : Type 0 where
  pub id : Text
  pub title : Text
  pub host_id : Text
  pub pane_ids : List Text
  pub active_pane_id : Text
  pub split_direction : SplitDirection
  pub split_ratio : Option JsNumber
  pub created_at : Text
  pub updated_at : Text

pub record SessionWorkspaceState : Type 0 where
  pub tabs : List SessionTab
  pub panes : List (Text × SessionPane)
  pub active_tab_id : Option Text
  pub last_restored_at : Option Text

unfoldable pub transport_of : HostProtocol → HostAuthMethod → SessionTransport
transport_of local_shell auth = local_shell_transport
transport_of ssh no_auth = mock
transport_of ssh auth = ssh_transport
transport_of telnet auth = telnet_transport
transport_of serial auth = serial_transport
transport_of mosh auth = mosh_transport

unfoldable pub create_session_pane : Text → Text → HostRecord → Text → SessionPane
create_session_pane now pane_id host title = record {
  id = pane_id;
  host_id = host.id;
  title = title;
  connection_state = connecting;
  connection_error = none;
  transport = transport_of host.protocol host.auth_method;
  backend_session_id = none;
  queued_commands = [];
  reconnect_on_restore = false;
  persist_output_preview = some true;
  created_at = now;
  updated_at = now;
}

unfoldable pub create_session_tab : Text → Text → HostRecord → SessionPane → Text → SessionTab
create_session_tab now tab_id host pane title = record {
  id = tab_id;
  title = title;
  host_id = host.id;
  pane_ids = pane.id ∷ [];
  active_pane_id = pane.id;
  split_direction = vertical;
  split_ratio = none;
  created_at = now;
  updated_at = now;
}
