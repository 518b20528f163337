-- ===== src/Sessions/Store.antt =====
-- The actions of `useSessionsStore` in apps/desktop/src/store/sessions-store.ts. An action that reaps
-- backend sessions returns, beside the new state, the ids that it hands to `closeSession`.
use terminal_workspace.Common.{
  Option, none, some, List, [], ◌∷◌, ◌++◌, if◌then◌else◌, ◌==◌, Text, ◌===◌, length, head?, or_else,
  is_empty,
}
use terminal_workspace.Common.Dict.{lookup, remove_all, includes}
use terminal_workspace.Hosts.Types.{HostRecord}
use terminal_workspace.Sessions.Types.{
  SessionPane, SessionTab, SessionWorkspaceState, SessionCommandHistorySource,
}
use terminal_workspace.Sessions.Tabs.{
  Draws, find_tab, find_host_tab, update_tab, open_session_workspace, close_session_tab,
  remove_session_pane,
}
use terminal_workspace.Sessions.Panes.{queue_pane_command}
use terminal_workspace.Sessions.History.{SessionsState, record_pane_command_history}

-- The backend session behind a pane; an undefined or empty id is none.
unfoldable pub backend_session : List (Text × SessionPane) → Text → List Text
backend_session panes pane_id = elim (lookup pane_id panes) [
  | none ↦ []
  | some p ↦ elim p.backend_session_id [ none ↦ [] | some i ↦ if is_empty i then [] else i ∷ [] ]
]

-- The calls that `closeBackendSessionsForPanes` makes, in order.
unfoldable pub close_backend_sessions_for_panes : List (Text × SessionPane) → List Text → List Text
unfolding backend_session
close_backend_sessions_for_panes panes [] = []
close_backend_sessions_for_panes panes (i ∷ is) =
    backend_session panes i ++ close_backend_sessions_for_panes panes is

unfoldable pub close_tab : SessionWorkspaceState → Text → SessionWorkspaceState × List Text
unfolding close_session_tab close_backend_sessions_for_panes find_tab
close_tab s i = (
  close_session_tab s i,
  elim (find_tab i s.tabs) [
    | none ↦ []
    | some t ↦ close_backend_sessions_for_panes s.panes t.pane_ids
  ],
)

unfoldable pub close_pane :
    Text → SessionWorkspaceState → Text → Text → SessionWorkspaceState × List Text
unfolding remove_session_pane close_backend_sessions_for_panes
close_pane now s i pane_id =
    (remove_session_pane now s i pane_id, close_backend_sessions_for_panes s.panes (pane_id ∷ []))

-- The ids of the panes of a host.
unfoldable pub panes_of_host : Text → List (Text × SessionPane) → List Text
panes_of_host h [] = []
panes_of_host h ((k, p) ∷ m) =
    let rest = panes_of_host h m in if p.host_id === h then p.id ∷ rest else rest

-- `ids.filter((id) => closing.includes(id))`, and the others.
unfoldable pub among : List Text → List Text → List Text
among closing [] = []
among closing (x ∷ xs) =
    let rest = among closing xs in if includes x closing then x ∷ rest else rest

unfoldable pub not_among : List Text → List Text → List Text
not_among closing [] = []
not_among closing (x ∷ xs) =
    let rest = not_among closing xs in if includes x closing then rest else x ∷ rest

unfoldable pub keep_panes : List Text → SessionTab → SessionTab
keep_panes left t = record t {
  pane_ids = left;
  active_pane_id =
      if includes t.active_pane_id left then t.active_pane_id else or_else (head? left) [];
}

-- One round of the loop over the tabs; `t` is the tab as it was before the loop.
unfoldable pub close_in_tab : List Text → SessionTab → SessionWorkspaceState → SessionWorkspaceState
unfolding among not_among keep_panes close_session_tab update_tab
close_in_tab closing t s =
    let overlap = length (among closing t.pane_ids) in
    if overlap == 0
    then s
    else if overlap == length t.pane_ids
    then close_session_tab s t.id
    else record s { tabs = update_tab t.id (keep_panes (not_among closing t.pane_ids)) s.tabs }

unfoldable pub close_in_tabs :
    List Text → List SessionTab → SessionWorkspaceState → SessionWorkspaceState
unfolding close_in_tab
close_in_tabs closing [] s = s
close_in_tabs closing (t ∷ ts) s = close_in_tabs closing ts (close_in_tab closing t s)

unfoldable pub close_panes_for_host :
    SessionWorkspaceState → Text → SessionWorkspaceState × List Text
unfolding panes_of_host close_in_tabs close_backend_sessions_for_panes
close_panes_for_host s h =
    let closing = panes_of_host h s.panes in
    if length closing == 0
    then (s, [])
    else (let closed = close_in_tabs closing s.tabs s in
        (
          record closed { panes = remove_all closing closed.panes },
          close_backend_sessions_for_panes s.panes closing,
        ))

-- The id that the action returns: the newest entry's, whether or not one was recorded.
unfoldable pub record_pane_command :
    Text
    → Text
    → SessionsState
    → Text
    → Text
    → SessionCommandHistorySource
    → SessionsState × Option Text
unfolding record_pane_command_history
record_pane_command now entry_id s pane_id command source =
    let next = record_pane_command_history now entry_id s pane_id command source in
    (next, elim (head? next.command_history) [ none ↦ none | some e ↦ some e.id ])

-- One host of `queueCommandForHosts`, with what its round draws; the pane that took the command.
unfoldable pub queue_for_host :
    Text
    → Option Text
    → HostRecord
    → Draws
    → Text
    → SessionWorkspaceState
    → SessionWorkspaceState × List Text
unfolding open_session_workspace find_host_tab queue_pane_command
queue_for_host command label host d command_id s =
    let opened = open_session_workspace d s host in
    elim (find_host_tab host.id opened.tabs) [
      | none ↦ (opened, [])
      | some t ↦ (
        queue_pane_command d.now command_id opened t.active_pane_id command label,
        t.active_pane_id ∷ [],
      )
    ]

unfoldable pub queue_command_for_hosts :
    Text
    → Option Text
    → List (HostRecord × Draws × Text)
    → SessionWorkspaceState
    → SessionWorkspaceState × List Text
unfolding queue_for_host
queue_command_for_hosts command label [] s = (s, [])
queue_command_for_hosts command label ((host, d, command_id) ∷ rest) s =
    let (t, is) = queue_for_host command label host d command_id s in
    let (u, js) = queue_command_for_hosts command label rest t in (u, is ++ js)

-- `openSession` returns the id of the tab that it shows.
unfoldable pub open_session :
    Draws → SessionWorkspaceState → HostRecord → SessionWorkspaceState × Text
unfolding open_session_workspace
open_session d s host =
    let next = open_session_workspace d s host in (next, or_else next.active_tab_id [])

unfoldable pub clear_command_history : SessionsState → SessionsState
clear_command_history s = record s { command_history = [] }
