-- ===== src/Sessions/Valid/Fields.antt =====
-- The operations of apps/desktop/src/store/sessions-store.ts that change fields of tabs or panes, the
-- active tab or the order of the tabs keep the workspace well formed.
use terminal_workspace.Common.{
  ℕ, zero, suc, ◌≤◌, ◌<◌, ◌≡◌, refl, sym, ◌∙◌, ap, Option, none, some, List, [], ◌∷◌, inl, inr,
  if◌then◌else◌, Text, ===_refl, arith, Bool-cases, Option-cases, length, leb, ◌==◌, ◌||◌, or_else,
  or_option,
}
use terminal_workspace.Common.Int.{ℤ, pos, negsuc}
use terminal_workspace.Common.Dict.{
  count, includes, includes-count, lookup, lookup-count, count-keys-insert, All-insert, All-lookup,
}
use terminal_workspace.Sessions.Types.{
  SessionPane, SessionTab, SessionWorkspaceState, SplitDirection, JsNumber, finite,
  SessionConnectionState,
}
use terminal_workspace.Sessions.Tabs.{
  find_tab, set_active_session_tab, CycleDirection, tab_id_at, find_index, next_index,
  cycle_session_tab, set_active_session_pane, set_tab_split_direction, set_tab_split_ratio,
  move_tab, reorder_session_tabs,
}
use terminal_workspace.Sessions.Panes.{
  update_pane, touch_pane, with_connection_state, update_pane_connection_state,
  toggle_pane_connection, toggled_state,
}
use terminal_workspace.Sessions.Counts.{
  tab_ids, owned_ids, ShowsActive, IsActive, IsValid, find_tab-count, count-tab_ids-append,
  count-owned_ids-append,
}
use terminal_workspace.Sessions.Moves.{measure-move_tab, move_tab-All}
use terminal_workspace.Sessions.Valid.{update_tab-IsValid, activate-IsValid}

pub set_active_session_tab-IsValid :
    (s : SessionWorkspaceState) (i : Text) → IsValid s → IsValid (set_active_session_tab s i)
unfolding set_active_session_tab
set_active_session_tab-IsValid s i v = elim (Option-cases (find_tab i s.tabs)) [
  | inl missing ↦ rw (missing, set_active_session_tab) v
  | inr (t, found) ↦
      rw (found, set_active_session_tab) (activate-IsValid i s (find_tab-count i s.tabs t found) v)
]

pub tab_id_at-count :
    (i : Text) (n : ℕ) (ts : List SessionTab) → tab_id_at ts n ≡ some i → 1 ≤ count i (tab_ids ts)
unfolding tab_id_at tab_ids count
tab_id_at-count i n [] h = cc
tab_id_at-count i zero (t ∷ ts) h = ground (arith, ===_refl i)
tab_id_at-count i (suc n) (t ∷ ts) h = omega (arith, tab_id_at-count i n ts h)

pub cycle_session_tab-IsValid :
    (s : SessionWorkspaceState) (direction : CycleDirection)
    → IsValid s
    → IsValid (cycle_session_tab s direction)
unfolding cycle_session_tab
cycle_session_tab-IsValid s direction v = elim (Bool-cases (leb (length s.tabs) 1)) [
  | inl few ↦ rw (few, cycle_session_tab) v
  | inr more ↦
      rw (more, cycle_session_tab)
        (choose
          (next_index direction (or_else (find_index s.active_tab_id s.tabs) 0) (length s.tabs)))
]
  where
    choose :
        (n : ℕ)
        → IsValid (record s { active_tab_id = or_option (tab_id_at s.tabs n) s.active_tab_id })
    choose n = elim (Option-cases (tab_id_at s.tabs n)) [
      | inl missing ↦ rw missing v
      | inr (i, found) ↦ rw found (activate-IsValid i s (tab_id_at-count i n s.tabs found) v)
    ]

pub set_active_session_pane-IsValid :
    (now : Text) (s : SessionWorkspaceState) (i p : Text)
    → IsValid s
    → IsValid (set_active_session_pane now s i p)
unfolding set_active_session_pane
set_active_session_pane-IsValid now s i p v =
    update_tab-IsValid i
      (λ t. if includes p t.pane_ids then record t { active_pane_id = p; updated_at = now } else t)
      s (λ t. ground arith) (λ t. ground arith)
      (λ t shows. elim (Bool-cases (includes p t.pane_ids)) [
        | inl there ↦ rw there (includes-count p t.pane_ids there)
        | inr absent ↦ rw absent shows
      ])
      v

pub set_tab_split_direction-IsValid :
    (now : Text) (s : SessionWorkspaceState) (i : Text) (direction : SplitDirection)
    → IsValid s
    → IsValid (set_tab_split_direction now s i direction)
unfolding set_tab_split_direction
set_tab_split_direction-IsValid now s i direction v =
    update_tab-IsValid i _ s (λ t. refl) (λ t. refl) (λ t shows. shows) v

pub set_tab_split_ratio-IsValid :
    (now : Text) (s : SessionWorkspaceState) (i : Text) (ratio : JsNumber)
    → IsValid s
    → IsValid (set_tab_split_ratio now s i ratio)
unfolding set_tab_split_ratio
set_tab_split_ratio-IsValid now s i (finite r) v =
    update_tab-IsValid i _ s (λ t. refl) (λ t. refl) (λ t shows. shows) v
set_tab_split_ratio-IsValid now s i _ v = v

reordered-IsValid :
    (s : SessionWorkspaceState) (m n : ℕ)
    → m < length s.tabs
    → n < length s.tabs
    → IsValid s
    → IsValid (record s { tabs = move_tab m n s.tabs })
reordered-IsValid s m n from to v = record {
  distinct_tabs = λ i. rw (ids i) (v.distinct_tabs i);
  distinct_panes = v.distinct_panes;
  owned = λ p.
      measure-move_tab (λ ts. count p (owned_ids ts)) (count-owned_ids-append p) m n s.tabs from to
      ∙ v.owned p;
  shown = move_tab-All ShowsActive m n s.tabs from to v.shown;
  named = v.named;
  active = still-IsActive s.active_tab_id v.active;
}
  where
    ids : (i : Text) → count i (tab_ids (move_tab m n s.tabs)) ≡ count i (tab_ids s.tabs)
    ids i =
        measure-move_tab (λ ts. count i (tab_ids ts)) (count-tab_ids-append i) m n s.tabs from to

    still-IsActive : (o : Option Text) → IsActive o s.tabs → IsActive o (move_tab m n s.tabs)
    still-IsActive none e = absurd (omega (arith, ap length e))
    still-IsActive (some j) h = rw (ids j) h

pub reorder_session_tabs-IsValid :
    (s : SessionWorkspaceState) (from to : ℤ) → IsValid s → IsValid (reorder_session_tabs s from to)
unfolding reorder_session_tabs
reorder_session_tabs-IsValid s (pos m) (pos n) v =
    elim (Bool-cases ((m == n) || (leb (length s.tabs) m || leb (length s.tabs) n))) [
      | inl out ↦ rw (out, reorder_session_tabs) v
      | inr inside ↦
          rw (inside, reorder_session_tabs)
            (reordered-IsValid s m n (ground arith) (ground arith) v)
    ]
reorder_session_tabs-IsValid s (pos m) (negsuc n) v = v
reorder_session_tabs-IsValid s (negsuc m) to v = v

-- Updates of one pane that keep its id.
pub update_pane-IsValid :
    (now : Text) (s : SessionWorkspaceState) (i : Text) (f : SessionPane → SessionPane)
    → ((p : SessionPane) → (f p).id ≡ p.id)
    → IsValid s
    → IsValid (update_pane now s i f)
unfolding update_pane
update_pane-IsValid now s i f same v = elim (Option-cases (lookup i s.panes)) [
  | inl missing ↦ rw (missing, update_pane) v
  | inr (p, found) ↦
      let q = touch_pane now (f p) in
      let keyed = λ (j : Text). count-keys-insert j i q s.panes in
      let there = lookup-count i s.panes p found in
      rw (found, update_pane)
        (record {
          distinct_tabs = v.distinct_tabs;
          distinct_panes = λ j. ground (arith, v.distinct_panes j, keyed j, there);
          owned = λ j. ground (arith, v.owned j, keyed j, there);
          shown = v.shown;
          named =
              All-insert (λ e. e.1.id ≡ e.0) i q s.panes
                (λ j e.
                  unfold touch_pane in
                  (same p ∙ All-lookup (λ e. e.1.id ≡ e.0) i s.panes p v.named found ∙ sym e))
                v.named;
          active = v.active;
        })
]

pub update_pane_connection_state-IsValid :
    (now : Text) (s : SessionWorkspaceState) (i : Text) (c : SessionConnectionState)
    (e : Option Text)
    → IsValid s
    → IsValid (update_pane_connection_state now s i c e)
unfolding update_pane_connection_state
update_pane_connection_state-IsValid now s i c e v =
    update_pane-IsValid now s i (with_connection_state c e) (λ p. refl) v

pub toggle_pane_connection-IsValid :
    (now : Text) (s : SessionWorkspaceState) (i : Text)
    → IsValid s
    → IsValid (toggle_pane_connection now s i)
unfolding toggle_pane_connection
toggle_pane_connection-IsValid now s i v = elim (Option-cases (lookup i s.panes)) [
  | inl missing ↦ rw (missing, toggle_pane_connection) v
  | inr (p, found) ↦
      rw (found, toggle_pane_connection)
        (update_pane_connection_state-IsValid now s i (toggled_state p.connection_state) none v)
]
