-- ===== src/Sessions/Valid/Queue.antt =====
-- `queueCommandForHosts` of apps/desktop/src/store/sessions-store.ts: it keeps the workspace well
-- formed, and each host gets the command in one pane.
use terminal_workspace.Common.{
  suc, ◌≤◌, ◌≡◌, ◌∙◌, refl, sym, ap, Option, some, List, [], ◌∷◌, ◌++◌, inl, inr, Text, ◌===◌,
  ===_refl, All, arith, Bool-cases, Option-cases, length,
}
use mathlib.Core.Path.{subst}
use terminal_workspace.Common.Dict.{count, count-append, lookup, lookup-none-count, lookup-insert}
use terminal_workspace.Hosts.Types.{HostRecord}
use terminal_workspace.Sessions.Types.{SessionPane, SessionTab, SessionWorkspaceState}
use terminal_workspace.Sessions.Tabs.{Draws, find_host_tab, open_session_workspace}
use terminal_workspace.Sessions.Panes.{update_pane, touch_pane, enqueue, queue_pane_command}
use terminal_workspace.Sessions.Store.{queue_for_host, queue_command_for_hosts}
use terminal_workspace.Sessions.Steps.{AllFresh}
use terminal_workspace.Sessions.Counts.{owned_ids, ShowsActive, IsValid}
use terminal_workspace.Sessions.Counts.{IsFresh}
use terminal_workspace.Sessions.Opened.{find_host_tab-open}
use terminal_workspace.Sessions.Valid.{open_session_workspace-IsValid}
use terminal_workspace.Sessions.Valid.Fields.{update_pane-IsValid}

pub queue_pane_command-IsValid :
    (now command_id : Text) (s : SessionWorkspaceState) (i command : Text) (label : Option Text)
    → IsValid s
    → IsValid (queue_pane_command now command_id s i command label)
unfolding queue_pane_command
queue_pane_command-IsValid now command_id s i command label v =
    update_pane-IsValid now s i (enqueue now command_id command label) (λ p. unfold enqueue in refl)
      v

find_host_tab-owned :
    (h : Text) (ts : List SessionTab) (t : SessionTab)
    → find_host_tab h ts ≡ some t
    → All ShowsActive ts
    → 1 ≤ count t.active_pane_id (owned_ids ts)
unfolding find_host_tab owned_ids
find_host_tab-owned h [] t found a = cc
find_host_tab-owned h (u ∷ us) t found a = elim (Bool-cases (u.host_id === h)) [
  | inl here ↦
      let e : u ≡ t = ground arith in
      rw (← e) (omega (arith, a.0, count-append u.active_pane_id u.pane_ids (owned_ids us)))
  | inr there ↦ omega (
    arith,
    find_host_tab-owned h us t (rw there at found) a.1,
    count-append t.active_pane_id u.pane_ids (owned_ids us),
  )
]

module _ (command : Text) (label : Option Text) where
  queued_last :
      (now command_id : Text) (s : SessionWorkspaceState) (i : Text) (p : SessionPane)
      → lookup i s.panes ≡ some p
      → lookup i (queue_pane_command now command_id s i command label).panes
        ≡ some (record p {
          queued_commands =
              p.queued_commands
              ++ record { id = command_id; command = command; label = label; created_at = now }
                ∷ [];
          updated_at = now;
        })
  unfolding queue_pane_command update_pane touch_pane enqueue
  queued_last now command_id s i p held =
      rw (update_pane, held)
        (ground (
          arith,
          ===_refl i,
          lookup-insert i i (touch_pane now (enqueue now command_id command label p)) s.panes,
        ))

  -- One pane is returned, the active one of the first tab that the host has when it is opened. It is as
  -- opening the host left it, but for its time and one more command, the last of its queue.
  pub record IsQueued (host : HostRecord) (d : Draws) (command_id : Text)
      (s : SessionWorkspaceState) (r : SessionWorkspaceState × List Text) : Type 0 where
    pub tab : SessionTab
    pub pane : SessionPane
    pub of_host : find_host_tab host.id (open_session_workspace d s host).tabs ≡ some tab
    pub returned : r.1 ≡ tab.active_pane_id ∷ []
    pub before : lookup tab.active_pane_id (open_session_workspace d s host).panes ≡ some pane
    pub after :
        lookup tab.active_pane_id r.0.panes
        ≡ some (record pane {
          queued_commands =
              pane.queued_commands
              ++ record { id = command_id; command = command; label = label; created_at = d.now }
                ∷ [];
          updated_at = d.now;
        })

  -- On a well-formed workspace and with new ids, a round keeps the workspace well formed and returns one pane,
  -- the active one of the host's first tab; it is as opening the host left it but for its time and one more
  -- command, the last of its queue.
  pub queue_for_host_lem :
      (host : HostRecord) (d : Draws) (command_id : Text) (s : SessionWorkspaceState)
      → IsValid s
      → IsFresh d s
      → IsValid (queue_for_host command label host d command_id s).0
        × IsQueued host d command_id s (queue_for_host command label host d command_id s)
  unfolding queue_for_host
  queue_for_host_lem host d command_id s v fresh =
      let opened = open_session_workspace d s host in
      let w = open_session_workspace-IsValid d s host v fresh in
      let (t, found, active) = find_host_tab-open d s host in
      let i = t.active_pane_id in
      let there = find_host_tab-owned host.id opened.tabs t found w.shown in
      elim (Option-cases (lookup i opened.panes)) [
        | inl missing ↦
            absurd (omega (arith, there, w.owned i, lookup-none-count i opened.panes missing))
        | inr (p, held) ↦
            let same : queue_for_host command label host d command_id s
                ≡ (queue_pane_command d.now command_id opened i command label, i ∷ []) =
              rw (queue_for_host, found) refl in
            (
              subst IsValid (ap (λ r. r.0) (sym same))
                  (queue_pane_command-IsValid d.now command_id opened i command label w),
              record {
                tab = t;
                pane = p;
                of_host = found;
                returned = ap (λ r. r.1) same;
                before = held;
                after =
                    ap (λ r. lookup i r.0.panes) same
                    ∙ queued_last d.now command_id opened i p held;
              },
            )
      ]

  pub queue_command_for_hosts-IsValid :
      (rs : List (HostRecord × Draws × Text)) (s : SessionWorkspaceState)
      → IsValid s
      → AllFresh command label rs s
      → IsValid (queue_command_for_hosts command label rs s).0
        × (length (queue_command_for_hosts command label rs s).1 ≡ length rs)
  unfolding queue_command_for_hosts
  queue_command_for_hosts-IsValid [] s v fresh = (v, refl)
  queue_command_for_hosts-IsValid ((host, d, command_id) ∷ rest) s v fresh =
      let (w, queued) = queue_for_host_lem host d command_id s v fresh.0 in
      let later =
        queue_command_for_hosts-IsValid rest (queue_for_host command label host d command_id s).0 w
          fresh.1 in
      (later.0, rw queued.returned (ap suc later.1))
