-- ===== src/Connect/Launch.antt =====
-- Opening a session of a host: apps/desktop/src/lib/launch-host-session.ts and
-- apps/desktop/src/store/connect-error-store.ts. Calls for a host that is being opened share its result; the model
-- is of one such call.
use terminal_workspace.Common.{
  Bool, true, Option, none, some, List, ◌++◌, if◌then◌else◌, Text, text, is_empty,
}
use terminal_workspace.Common.Int.{ℤ}
use terminal_workspace.Sessions.Types.{SessionWorkspaceState}
use terminal_workspace.Sessions.Tabs.{Draws}
use terminal_workspace.Sessions.Titles.{print_nat}
use terminal_workspace.Sessions.Store.{open_session}
use terminal_workspace.Hosts.Types.{HostRecord}
use terminal_workspace.Hosts.Store.{mark_host_connected_in_collection}
use terminal_workspace.Connect.KnownHosts.{
  KnownHostScanResult, KnownHostsState, TrustRefused, user_rejected, user_non_interactive,
  scan_failed, scan_empty, EnsureTrustedHostKeyResult, trust_ok, trust_failed,
  ensure_trusted_host_key,
}

pub data ConnectErrorTone : Type 0 where
  error_tone warning_tone : ConnectErrorTone

pub record ConnectErrorState : Type 0 where
  pub message : Option Text
  pub tone : ConnectErrorTone

-- What `launchHostSession` answers: the tab, or the reason and the message.
pub data LaunchHostSessionResult : Type 0 where
  opened_tab : Text → LaunchHostSessionResult
  not_trusted : TrustRefused → Text → LaunchHostSessionResult
  trust_scan_threw : Text → LaunchHostSessionResult

-- The stores that it reaches.
pub record LaunchState : Type 0 where
  pub known : KnownHostsState
  pub hosts : List HostRecord
  pub sessions : SessionWorkspaceState
  pub connect_error : ConnectErrorState

unfoldable pub report_connect_error :
    Text → ConnectErrorTone → ConnectErrorState → ConnectErrorState
report_connect_error message tone e =
    if is_empty message then e else record { message = some message; tone = tone }

unfoldable pub clear_connect_error : ConnectErrorState → ConnectErrorState
clear_connect_error e = record { message = none; tone = error_tone }

unfoldable pub host_and_port : HostRecord → Text
unfolding print_nat
host_and_port host = host.hostname ++ text ":" ++ print_nat host.port

unfoldable pub unreachable_message : HostRecord → Text
unfolding host_and_port
unreachable_message host =
    text "Could not reach "
    ++ host_and_port host
    ++ text ". Check that the host is reachable and try again."

unfoldable pub refusal_message : HostRecord → TrustRefused → Text
unfolding host_and_port
refusal_message host user_rejected =
    text "Connection cancelled — host key for " ++ host.label ++ text " was not trusted."
refusal_message host scan_failed =
    text "Could not scan "
    ++ host_and_port host
    ++ text ". Check that the host is reachable and try again."
refusal_message host scan_empty = host_and_port host ++ text " returned no host keys to trust."
refusal_message host user_non_interactive =
    text "Could not prompt for the host key of "
    ++ host.label
    ++ text ". Open the host from the Hosts page to approve it."

abbrev pub refusal_tone : TrustRefused → ConnectErrorTone
refusal_tone user_rejected = warning_tone
refusal_tone _ = error_tone

module _ (to_lower_case : Text → Text) (collate : Text → Text → Bool) where
  -- What comes after `ensureTrustedHostKey`, none when it throws.
  unfoldable pub launch_trusted :
      Draws
      → HostRecord
      → Option (KnownHostsState × EnsureTrustedHostKeyResult)
      → LaunchState
      → LaunchState × LaunchHostSessionResult
  unfolding report_connect_error clear_connect_error unreachable_message refusal_message
      open_session mark_host_connected_in_collection
  launch_trusted d host none s = (
    record s {
      connect_error = report_connect_error (unreachable_message host) error_tone s.connect_error;
    },
    trust_scan_threw (unreachable_message host),
  )
  launch_trusted d host (some (known, trust_failed reason)) s = (
    record s {
      known = known;
      connect_error =
          report_connect_error (refusal_message host reason) (refusal_tone reason) s.connect_error;
    },
    not_trusted reason (refusal_message host reason),
  )
  launch_trusted d host (some (known, trust_ok granted)) s =
      let opened = open_session d s.sessions host in
      (
        record {
          known = known;
          hosts = mark_host_connected_in_collection to_lower_case collate d.now s.hosts host.id;
          sessions = opened.0;
          connect_error = clear_connect_error s.connect_error;
        },
        opened_tab opened.1,
      )

  -- `throws` is whether `ensureTrustedHostKey` throws.
  unfoldable pub launch_host_session_inner :
      (Text → Option ℤ)
      → Draws
      → HostRecord
      → Bool
      → Option (List KnownHostScanResult)
      → (List KnownHostScanResult → Option KnownHostScanResult)
      → LaunchState
      → LaunchState × LaunchHostSessionResult
  unfolding launch_trusted ensure_trusted_host_key
  launch_host_session_inner date_parse d host throws scan ask s =
      launch_trusted d host
        (if throws
          then none
          else some (ensure_trusted_host_key collate date_parse d.now host true scan ask s.known))
        s
