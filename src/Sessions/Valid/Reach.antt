-- ===== src/Sessions/Valid/Reach.antt =====
-- Every state that the actions of `useSessionsStore` (apps/desktop/src/store/sessions-store.ts) reach
-- from the empty store has a well-formed workspace.
use terminal_workspace.Common.{
  ◌≡◌, refl, ap, arith, inl, inr, Option-cases, Bool, Option, some, List, [], ◌∷◌, Text, All,
}
use terminal_workspace.Common.Dict.{count, keys, lookup}
use terminal_workspace.Sessions.Types.{
  SessionPane, SessionWorkspaceState, SessionCommandHistorySource,
}
use terminal_workspace.Sessions.Panes.{
  update_pane_reconnect_preference, update_pane_transport, update_pane_backend_session,
  consume_pane_command, dequeue,
}
use terminal_workspace.Sessions.History.{
  SessionsState, append_pane_command_history_output, record_pane_command_history,
  update_pane_preview_persistence,
}
use terminal_workspace.Sessions.Persist.{
  sanitize_panes, sanitize_persisted_workspace, partialize, merge_persisted,
}
use terminal_workspace.Sessions.Store.{
  close_tab, close_pane, clear_command_history, record_pane_command,
}
use terminal_workspace.Sessions.Counts.{tab_ids, owned_ids, IsValid}
use terminal_workspace.Sessions.Steps.{
  Step, Reach, start, next, empty_store, open_session, duplicate_session, select_tab, cycle_tab,
  close_one_tab, split_tab, close_one_pane, close_host, select_pane, set_pane_state, set_reconnect,
  set_preview, set_transport, set_backend_session, queue_command, consume_command, record_command,
  append_output, clear_history, queue_for_hosts, toggle_connection, set_direction, set_ratio,
  reorder_tab, relaunch,
}
use terminal_workspace.Sessions.Valid.{
  open_session_workspace-IsValid, duplicate_session_workspace-IsValid, close_session_tab-IsValid,
}
use terminal_workspace.Sessions.Valid.Split.{
  split_session_pane-IsValid, remove_session_pane-IsValid,
}
use terminal_workspace.Sessions.Valid.Fields.{
  set_active_session_tab-IsValid, cycle_session_tab-IsValid, set_active_session_pane-IsValid,
  set_tab_split_direction-IsValid, set_tab_split_ratio-IsValid, reorder_session_tabs-IsValid,
  update_pane-IsValid, update_pane_connection_state-IsValid, toggle_pane_connection-IsValid,
}
use terminal_workspace.Sessions.Valid.ClosePanes.{close_panes_for_host-IsValid}
use terminal_workspace.Sessions.Valid.Queue.{
  queue_pane_command-IsValid, queue_command_for_hosts-IsValid,
}

keys-sanitize_panes : (m : List (Text × SessionPane)) → keys (sanitize_panes m) ≡ keys m
unfolding keys sanitize_panes
keys-sanitize_panes [] = refl
keys-sanitize_panes ((k, p) ∷ m) = ap (◌∷◌ k) (keys-sanitize_panes m)

named-sanitize_panes :
    (m : List (Text × SessionPane))
    → All (λ (e : Text × SessionPane). e.1.id ≡ e.0) m
    → All (λ (e : Text × SessionPane). e.1.id ≡ e.0) (sanitize_panes m)
unfolding sanitize_panes
named-sanitize_panes [] a = tt
named-sanitize_panes ((k, p) ∷ m) a = (a.0, named-sanitize_panes m a.1)

pub sanitize_persisted_workspace-IsValid :
    (w : SessionWorkspaceState) → IsValid w → IsValid (sanitize_persisted_workspace w)
unfolding sanitize_persisted_workspace
sanitize_persisted_workspace-IsValid w v = record {
  distinct_tabs = v.distinct_tabs;
  distinct_panes = λ p. rw (keys-sanitize_panes w.panes) (v.distinct_panes p);
  owned = λ p. rw (keys-sanitize_panes w.panes) (v.owned p);
  shown = v.shown;
  named = named-sanitize_panes w.panes v.named;
  active = v.active;
}

restored_at-IsValid :
    (w : SessionWorkspaceState) (at : Option Text)
    → IsValid w
    → IsValid (record w { last_restored_at = at })
restored_at-IsValid w at v = record {
  distinct_tabs = v.distinct_tabs;
  distinct_panes = v.distinct_panes;
  owned = v.owned;
  shown = v.shown;
  named = v.named;
  active = v.active;
}

relaunch-IsValid :
    (s fresh : SessionsState) (now : Text)
    → IsValid s.workspace
    → IsValid (merge_persisted (partialize now s) fresh).workspace
unfolding merge_persisted partialize
relaunch-IsValid s fresh now v =
    sanitize_persisted_workspace-IsValid _
      (sanitize_persisted_workspace-IsValid _ (restored_at-IsValid s.workspace (some now) v))

preview-IsValid :
    (s : SessionsState) (now p : Text) (b : Bool)
    → IsValid s.workspace
    → IsValid (update_pane_preview_persistence now s p b).workspace
unfolding update_pane_preview_persistence
preview-IsValid s now p b v = elim (Option-cases (lookup p s.workspace.panes)) [
  | inl missing ↦ rw (missing, update_pane_preview_persistence) v
  | inr (q, found) ↦
      rw (found, update_pane_preview_persistence)
        (update_pane-IsValid now s.workspace p (λ r. record r { persist_output_preview = some b })
          (λ r. refl) v)
]

record-workspace :
    (now entry_id : Text) (s : SessionsState) (p command : Text)
    (source : SessionCommandHistorySource)
    → (record_pane_command now entry_id s p command source).0.workspace ≡ s.workspace
unfolding record_pane_command record_pane_command_history
record-workspace now entry_id s p command source = ground arith

append-workspace :
    (now : Text) (s : SessionsState) (entry_id output : Text)
    → (append_pane_command_history_output now s entry_id output).workspace ≡ s.workspace
unfolding append_pane_command_history_output
append-workspace now s entry_id output = ground arith

-- Each action of the store keeps the workspace well formed.
pub Step-IsValid : {s t : SessionsState} → Step s t → IsValid s.workspace → IsValid t.workspace
unfolding close_tab close_pane clear_command_history update_pane_reconnect_preference
    update_pane_transport update_pane_backend_session consume_pane_command
Step-IsValid (open_session s d host fresh) v =
    open_session_workspace-IsValid d s.workspace host v fresh
Step-IsValid (duplicate_session s d host base fresh) v =
    duplicate_session_workspace-IsValid d s.workspace host base v fresh
Step-IsValid (select_tab s i) v = set_active_session_tab-IsValid s.workspace i v
Step-IsValid (cycle_tab s direction) v = cycle_session_tab-IsValid s.workspace direction v
Step-IsValid (close_one_tab s i) v = close_session_tab-IsValid s.workspace i v
Step-IsValid (split_tab s d i host fresh) v =
    split_session_pane-IsValid d s.workspace i host v fresh
Step-IsValid (close_one_pane s now i p shows) v =
    remove_session_pane-IsValid now s.workspace i p shows v
Step-IsValid (close_host s h) v = close_panes_for_host-IsValid s.workspace h v
Step-IsValid (select_pane s now i p) v = set_active_session_pane-IsValid now s.workspace i p v
Step-IsValid (set_pane_state s now p c e) v =
    update_pane_connection_state-IsValid now s.workspace p c e v
Step-IsValid (set_reconnect s now p b) v =
    update_pane-IsValid now s.workspace p (λ q. record q { reconnect_on_restore = b }) (λ q. refl) v
Step-IsValid (set_preview s now p b) v = preview-IsValid s now p b v
Step-IsValid (set_transport s now p transport) v =
    update_pane-IsValid now s.workspace p (λ q. record q { transport = transport }) (λ q. refl) v
Step-IsValid (set_backend_session s now p session) v =
    update_pane-IsValid now s.workspace p (λ q. record q { backend_session_id = session })
      (λ q. refl) v
Step-IsValid (queue_command s now command_id p command label) v =
    queue_pane_command-IsValid now command_id s.workspace p command label v
Step-IsValid (consume_command s now p command_id) v =
    update_pane-IsValid now s.workspace p
      (λ q. record q { queued_commands = dequeue command_id q.queued_commands }) (λ q. refl) v
Step-IsValid (record_command s now entry_id p command source) v =
    rw (record-workspace now entry_id s p command source) v
Step-IsValid (append_output s now entry_id output) v = rw (append-workspace now s entry_id output) v
Step-IsValid (clear_history s) v = v
Step-IsValid (queue_for_hosts s command label rs fresh) v =
    (queue_command_for_hosts-IsValid command label rs s.workspace v fresh).0
Step-IsValid (toggle_connection s now p) v = toggle_pane_connection-IsValid now s.workspace p v
Step-IsValid (set_direction s now i direction) v =
    set_tab_split_direction-IsValid now s.workspace i direction v
Step-IsValid (set_ratio s now i ratio) v = set_tab_split_ratio-IsValid now s.workspace i ratio v
Step-IsValid (reorder_tab s from to) v = reorder_session_tabs-IsValid s.workspace from to v
Step-IsValid (relaunch s fresh now) v = relaunch-IsValid s fresh now v

empty_store-IsValid : IsValid empty_store.workspace
unfolding tab_ids owned_ids keys count
empty_store-IsValid = record {
  distinct_tabs = λ i. omega arith;
  distinct_panes = λ p. omega arith;
  owned = λ p. refl;
  shown = tt;
  named = tt;
  active = refl;
}

-- In every state that the actions reach from the empty store, the tabs' ids are distinct, the panes
-- of the tabs are exactly the panes held, each in one tab and once, each tab shows its active pane,
-- each pane stands under its own id, and the active tab is one of the tabs, or there is no tab. The ids that
-- are drawn are assumed to be new, and closePane to be called for a pane of the tab, if there is the tab.
pub Reach-IsValid : {s : SessionsState} → Reach s → IsValid s.workspace
Reach-IsValid start = empty_store-IsValid
Reach-IsValid (next r step) = Step-IsValid step (Reach-IsValid r)
