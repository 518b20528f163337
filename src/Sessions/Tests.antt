-- ===== src/Sessions/Tests.antt =====
-- Concrete runs of the session store (apps/desktop/src/store/sessions-store.ts), and its theorems at
-- inputs where their hypotheses hold.
use terminal_workspace.Common.{
  ℕ, ◌+◌, ◌≤◌, ◌<◌, ◌⊎◌, ◌≡◌, ◌≢◌, ◌↔◌, refl, true, false, none, some, [], ◌∷◌, ◌++◌, String,
  if◌then◌else◌, text, ◌===◌, trim, All, arith, length, or_else, get_elem?,
}
use terminal_workspace.Common.Int.{pos, negsuc}
use terminal_workspace.Common.Dict.{
  count, includes, keys, lookup, insert, remove, remove_all, without,
}
use terminal_workspace.Hosts.Types.{HostRecord, ssh, password, require_trusted}
use terminal_workspace.Sessions.Types.{
  SessionPane, SessionTab, SessionWorkspaceState, finite, queued, transport_of, create_session_pane,
  create_session_tab,
}
use terminal_workspace.Sessions.Titles.{
  print_nat, build_duplicate_session_title, get_duplicate_title_index, title_indexes, maximum,
  is_safe_integer,
}
use terminal_workspace.Sessions.Tabs.{
  Draws, find_tab, open_session_workspace, duplicate_session_workspace, close_session_tab,
  split_session_pane, remove_session_pane, forward, cycle_session_tab, reorder_session_tabs,
  set_tab_split_ratio, min_split_ratio, max_split_ratio,
}
use terminal_workspace.Sessions.Panes.{update_pane_connection_state, update_pane_backend_session}
use terminal_workspace.Sessions.History.{
  SessionsState, normalize_command_history_output, update_pane_preview_persistence,
}
use terminal_workspace.Sessions.Persist.{partialize, merge_persisted}
use terminal_workspace.Sessions.Store.{
  close_tab, close_pane, close_panes_for_host, queue_for_host, record_pane_command,
}
use terminal_workspace.Sessions.Counts.{tab_ids, owned_ids, IsFresh, IsValid}
use terminal_workspace.Sessions.Steps.{
  on, empty_store, Reach, start, next, open_session, set_backend_session,
}
use terminal_workspace.Sessions.Valid.Reach.{Reach-IsValid}
use terminal_workspace.Sessions.Valid.ClosePanes.{lookup-close_panes_for_host}
use terminal_workspace.Sessions.Valid.Queue.{IsQueued, queue_for_host_lem}
use terminal_workspace.Sessions.HistoryLaws.{IsBounded, IsQuiet, normalize-IsQuiet}
use terminal_workspace.Sessions.HistoryLaws.Reach.{Reach-IsBounded}
use terminal_workspace.Sessions.TitleLaws.{build_duplicate_session_title_new}
use terminal_workspace.Sessions.CycleLaws.{
  opposite, cycle_session_tab-cycle_session_tab, reorder_session_tabs-reorder_session_tabs,
}
use terminal_workspace.Sessions.Reaping.{
  Lost, close_tab_reaps, close_panes_for_host_reaps, close_pane_reaps,
}
use terminal_workspace.Sessions.PersistLaws.{
  IsRestored, relaunch_restores, NoOutputOf, preview_off_hides,
}
use terminal_workspace.Sessions.RatioLaws.{IsBelow, IsAbove, set_tab_split_ratio_bounds}

program : Unit {0}
unfolding ◌===◌ trim count includes keys lookup insert remove remove_all without create_session_pane
    create_session_tab transport_of open_session_workspace duplicate_session_workspace
    close_session_tab split_session_pane remove_session_pane cycle_session_tab reorder_session_tabs
    update_pane_connection_state update_pane_backend_session normalize_command_history_output
    close_tab close_pane close_panes_for_host queue_for_host tab_ids owned_ids print_nat
    build_duplicate_session_title get_duplicate_title_index is_safe_integer
program = tt

abbrev gateway : HostRecord
gateway = record {
  id = text "prod-gateway";
  label = text "Production Gateway";
  protocol = ssh;
  hostname = text "bastion.acme.internal";
  username = text "ops";
  port = 22;
  auth_method = password;
  private_key_path = [];
  group = [];
  tags = [];
  note = [];
  favorite = false;
  key_label = [];
  host_key_policy = require_trusted;
  agent_forwarding = false;
  environment = [];
  jump_host_id = none;
  sftp_root = text "/srv";
  snippet_count = 0;
  forwarding_count = 0;
  created_at = text "2026-03-20";
  updated_at = text "2026-03-20";
  last_connected_at = none;
  identity_id = none;
}

abbrev billing : HostRecord
billing = record gateway { id = text "billing-api"; label = text "Billing API" }

abbrev draws : String → String → Draws
draws p t = record { now = text "2026-04-01"; pane_id = text p; tab_id = text t }

-- A gateway tab with a live session, and a billing tab.
abbrev one : SessionWorkspaceState
one = open_session_workspace (draws "p1" "t1") empty_store.workspace gateway

abbrev live : SessionWorkspaceState
live = update_pane_backend_session (text "2026") one (text "p1") (some (text "s1"))

abbrev pub two : SessionWorkspaceState
two = open_session_workspace (draws "p2" "t2") live billing

opened : tab_ids two.tabs ≡ text "t1" ∷ text "t2" ∷ []
unfolding program
opened = refl

closed_sessions : (close_panes_for_host two (text "prod-gateway")).1 ≡ text "s1" ∷ []
unfolding program
closed_sessions = refl

duplicate_title :
    build_duplicate_session_title
      (duplicate_session_workspace (draws "p3" "t3") two gateway none).tabs
      (text "Production Gateway")
    ≡ text "Production Gateway (3)"
unfolding program
duplicate_title = refl

colour : normalize_command_history_output (27 ∷ text "[1;31mok" ++ 27 ∷ text "[0m\r\n") ≡ text "ok"
unfolding program
colour = refl

IsFresh-one : IsFresh (draws "p1" "t1") empty_store.workspace
unfolding program
IsFresh-one = record { new_tab = refl; new_pane = refl }

IsFresh-two : IsFresh (draws "p2" "t2") live
unfolding program
IsFresh-two = record { new_tab = refl; new_pane = refl }

IsFresh-three : IsFresh (draws "p3" "t3") two
unfolding program
IsFresh-three = record { new_tab = refl; new_pane = refl }

Reach-one : Reach (on empty_store one)
Reach-one = next start (open_session empty_store (draws "p1" "t1") gateway IsFresh-one)

Reach-live : Reach (on empty_store live)
Reach-live =
    next Reach-one
      (set_backend_session (on empty_store one) (text "2026") (text "p1") (some (text "s1")))

Reach-two : Reach (on empty_store two)
Reach-two =
    next Reach-live (open_session (on empty_store live) (draws "p2" "t2") billing IsFresh-two)

Reach-IsValid_example : IsValid two
Reach-IsValid_example = Reach-IsValid Reach-two

pub two-IsValid : IsValid two
two-IsValid = Reach-IsValid Reach-two

Reach-IsBounded_example : IsBounded (on empty_store two).command_history
Reach-IsBounded_example = Reach-IsBounded Reach-two

normalize-IsQuiet_example : All IsQuiet (normalize_command_history_output (7 ∷ text "ok\r"))
normalize-IsQuiet_example = normalize-IsQuiet (7 ∷ text "ok\r")

abbrev pane_one : SessionPane
pane_one = record (create_session_pane (text "2026-04-01") (text "p1") gateway gateway.label) {
  backend_session_id = some (text "s1");
  updated_at = text "2026";
}

pane_one_found : lookup (text "p1") two.panes ≡ some pane_one
unfolding program
pane_one_found = refl

lookup-close_panes_for_host_example :
    lookup (text "p1") (close_panes_for_host two (text "prod-gateway")).0.panes
    ≡ (if pane_one.host_id === text "prod-gateway" then none else some pane_one)
lookup-close_panes_for_host_example =
    lookup-close_panes_for_host two (text "prod-gateway") two-IsValid (text "p1") pane_one
      pane_one_found

close_tab_reaps_example :
    (includes (text "s1") (close_tab two (text "t1")).1 ≡ true)
    ↔ Lost two.panes (close_tab two (text "t1")).0.panes (text "s1")
close_tab_reaps_example = close_tab_reaps two (text "s1") (text "t1")

close_panes_for_host_reaps_example :
    (includes (text "s1") (close_panes_for_host two (text "prod-gateway")).1 ≡ true)
    ↔ Lost two.panes (close_panes_for_host two (text "prod-gateway")).0.panes (text "s1")
close_panes_for_host_reaps_example =
    close_panes_for_host_reaps two (text "s1") (text "prod-gateway") two-IsValid

abbrev tab_one : SessionTab
tab_one = create_session_tab (text "2026-04-01") (text "t1") gateway pane_one gateway.label

tab_one_found : find_tab (text "t1") two.tabs ≡ some tab_one
unfolding program find_tab
tab_one_found = refl

tab_one_shows : 1 ≤ count (text "p1") tab_one.pane_ids
unfolding program
tab_one_shows = omega arith

close_pane_reaps_example :
    (includes (text "s1") (close_pane (text "2027") two (text "t1") (text "p1")).1 ≡ true)
    ↔ Lost two.panes (close_pane (text "2027") two (text "t1") (text "p1")).0.panes (text "s1")
close_pane_reaps_example =
    close_pane_reaps two (text "s1") (text "2027") (text "t1") (text "p1") tab_one tab_one_found
      tab_one_shows

queue_for_host_lem_example :
    IsValid (queue_for_host (text "uptime") none gateway (draws "p3" "t3") (text "c1") two).0
    × IsQueued
        (text "uptime")
        none
        gateway
        (draws "p3" "t3")
        (text "c1")
        two
        (queue_for_host (text "uptime") none gateway (draws "p3" "t3") (text "c1") two)
queue_for_host_lem_example =
    queue_for_host_lem (text "uptime") none gateway (draws "p3" "t3") (text "c1") two two-IsValid
      IsFresh-three

cycle_example : cycle_session_tab (cycle_session_tab two forward) (opposite forward) ≡ two
cycle_example = cycle_session_tab-cycle_session_tab two forward two-IsValid

two_tabs : (0 < length two.tabs) × (1 < length two.tabs)
unfolding program
two_tabs = (omega arith, omega arith)

reorder_example :
    (get_elem? (reorder_session_tabs two (pos 0) (pos 1)).tabs 1 ≡ get_elem? two.tabs 0)
    × (reorder_session_tabs (reorder_session_tabs two (pos 0) (pos 1)) (pos 1) (pos 0) ≡ two)
reorder_example = reorder_session_tabs-reorder_session_tabs two 0 1 two_tabs.0 two_tabs.1

safe_index : is_safe_integer (maximum (title_indexes (text "Billing API") two.tabs) + 1) ≡ true
unfolding program
safe_index = refl

build_duplicate_session_title_new_example :
    All
      (λ (t : SessionTab). t.title ≢ build_duplicate_session_title two.tabs (text "Billing API"))
      two.tabs
build_duplicate_session_title_new_example =
    build_duplicate_session_title_new two.tabs (text "Billing API") safe_index

relaunch_restores_example :
    ((merge_persisted (partialize (text "2027") (on empty_store two)) empty_store).workspace.tabs
      ≡ two.tabs)
    × ((merge_persisted
          (partialize (text "2027") (on empty_store two))
          empty_store).workspace.active_tab_id
        ≡ two.active_tab_id)
    × ((after : SessionPane) × (lookup
            (text "p1")
            (merge_persisted
              (partialize (text "2027") (on empty_store two))
              empty_store).workspace.panes
          ≡ some after)
        × IsRestored pane_one after)
relaunch_restores_example =
    relaunch_restores (text "2027") (text "p1") (on empty_store two) empty_store pane_one
      pane_one_found

-- One recorded entry of the gateway pane.
abbrev ran : SessionsState
ran =
    (record_pane_command (text "2026") (text "e1") (on empty_store two) (text "p1") (text "uptime")
      queued).0

ran_found : lookup (text "p1") ran.workspace.panes ≡ some pane_one
unfolding program record_pane_command
ran_found = refl

preview_off_hides_example :
    NoOutputOf (text "p1") (
      or_else
        (partialize
          (text "2027")
          (update_pane_preview_persistence (text "2026") ran (text "p1") false)).command_history
        [])
    × NoOutputOf (text "p1") (
        or_else
          (partialize
            (text "2027")
            (record (update_pane_preview_persistence (text "2026") ran (text "p1") false) {
              workspace =
                  close_session_tab
                    (update_pane_preview_persistence (text "2026") ran (text "p1") false).workspace
                    (text "t1");
            })).command_history
          [])
preview_off_hides_example =
    preview_off_hides (text "2026") (text "2027") (text "p1") (text "t1") ran pane_one ran_found

set_tab_split_ratio_bounds_example :
    (u : SessionTab) × (k : ℕ) × (find_tab
        (text "t1")
        (set_tab_split_ratio (text "2026") two (text "t1") (finite (negsuc 4))).tabs
      ≡ some u)
    × (u.split_ratio ≡ some (finite (pos k)))
    × (min_split_ratio ≤ k)
    × (k ≤ max_split_ratio)
    × ((negsuc 4 ≡ pos k)
        ⊎ (IsBelow (negsuc 4) × (k ≡ min_split_ratio))
        ⊎ (IsAbove (negsuc 4) × (k ≡ max_split_ratio)))
set_tab_split_ratio_bounds_example =
    set_tab_split_ratio_bounds (text "2026") (text "t1") two tab_one (negsuc 4) tab_one_found
