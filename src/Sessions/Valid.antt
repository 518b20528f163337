-- ===== src/Sessions/Valid.antt =====
-- The tab operations of apps/desktop/src/store/sessions-store.ts that add or remove tabs and panes
-- keep the workspace well formed.
pub mod Split
pub mod Fields
pub mod Hosts
pub mod ClosePanes
pub mod Queue
pub mod Reach
use terminal_workspace.Common.{
  ◌≤◌, ◌≡◌, refl, sym, ◌∙◌, Option, none, some, List, [], ◌∷◌, inl, inr, if◌then◌else◌, Text, ◌===◌,
  ===_iff, ===_refl, All-append, arith, Bool-cases, Option-cases,
}
use terminal_workspace.Common.Dict.{
  count, includes-count, count-includes, keys, count-keys-insert, count-keys-remove_all, All-insert,
  All-remove_all,
}
use terminal_workspace.Hosts.Types.{HostRecord}
use terminal_workspace.Sessions.Types.{
  SessionPane, SessionTab, SessionWorkspaceState, create_session_pane, create_session_tab,
}
use terminal_workspace.Sessions.Tabs.{
  Draws, find_tab, find_host_tab, update_tab, drop_tab, last_tab_id, is_id, touch_tab, add_session,
  open_session_workspace, duplicate_session_workspace, close_session_tab,
}
use terminal_workspace.Sessions.Counts.{
  IsFresh, tab_ids, owned_ids, ShowsActive, IsActive, IsValid, count-tab_ids-append,
  count-owned_ids-append, find_tab-count, find_host_tab-count, last_tab_id-IsActive,
}
use terminal_workspace.Sessions.Updates.{
  tab_ids-update_tab, owned_ids-update_tab, update_tab-All, count-owned_ids-drop_tab,
  count-tab_ids-drop_tab, drop_tab-All,
}

pub add_session-IsValid :
    (d : Draws) (host : HostRecord) (title : Text) (s : SessionWorkspaceState)
    → IsValid s
    → IsFresh d s
    → IsValid (add_session d host title s)
unfolding add_session create_session_pane create_session_tab tab_ids owned_ids count
add_session-IsValid d host title s v fresh = record {
  distinct_tabs = λ i. ground (
    arith,
    ===_iff d.tab_id i,
    v.distinct_tabs i,
    fresh.new_tab,
    count-tab_ids-append i s.tabs (tab ∷ []),
  );
  distinct_panes = λ p. ground (
    arith,
    ===_iff d.pane_id p,
    v.distinct_panes p,
    fresh.new_pane,
    count-keys-insert p d.pane_id pane s.panes,
  );
  owned = λ p. ground (
    arith,
    v.owned p,
    fresh.new_pane,
    count-keys-insert p d.pane_id pane s.panes,
    count-owned_ids-append p s.tabs (tab ∷ []),
  );
  shown = All-append ShowsActive s.tabs (tab ∷ []) v.shown (ground (arith, ===_refl d.pane_id), tt);
  named = All-insert (λ e. e.1.id ≡ e.0) d.pane_id pane s.panes (λ j e. sym e) v.named;
  active = ground (arith, ===_refl d.tab_id, count-tab_ids-append d.tab_id s.tabs (tab ∷ []));
}
  where
    pane : SessionPane
    pane = create_session_pane d.now d.pane_id host title

    tab : SessionTab
    tab = create_session_tab d.now d.tab_id host pane title

-- Updates of one tab that keep its id and its panes.
pub update_tab-IsValid :
    (i : Text) (f : SessionTab → SessionTab) (s : SessionWorkspaceState)
    → ((t : SessionTab) → (f t).id ≡ t.id)
    → ((t : SessionTab) → (f t).pane_ids ≡ t.pane_ids)
    → ((t : SessionTab) → ShowsActive t → ShowsActive (f t))
    → IsValid s
    → IsValid (record s { tabs = update_tab i f s.tabs })
update_tab-IsValid i f s same_id same_panes shows v = record {
  distinct_tabs = λ j. rw ids (v.distinct_tabs j);
  distinct_panes = v.distinct_panes;
  owned = λ p. rw (owned_ids-update_tab i f s.tabs same_panes) (v.owned p);
  shown = update_tab-All ShowsActive i f s.tabs shows v.shown;
  named = v.named;
  active = still-IsActive s.active_tab_id v.active;
}
  where
    ids : tab_ids (update_tab i f s.tabs) ≡ tab_ids s.tabs
    ids = tab_ids-update_tab i f s.tabs (λ t e. same_id t ∙ e)

    still-IsActive : (o : Option Text) → IsActive o s.tabs → IsActive o (update_tab i f s.tabs)
    still-IsActive none e = rw e (unfold update_tab in refl)
    still-IsActive (some j) h = rw ids h

-- The same state with another of its tabs active.
pub activate-IsValid :
    (i : Text) (s : SessionWorkspaceState)
    → 1 ≤ count i (tab_ids s.tabs)
    → IsValid s
    → IsValid (record s { active_tab_id = some i })
activate-IsValid i s there v = record {
  distinct_tabs = v.distinct_tabs;
  distinct_panes = v.distinct_panes;
  owned = v.owned;
  shown = v.shown;
  named = v.named;
  active = there;
}

pub open_session_workspace-IsValid :
    (d : Draws) (s : SessionWorkspaceState) (host : HostRecord)
    → IsValid s
    → IsFresh d s
    → IsValid (open_session_workspace d s host)
unfolding open_session_workspace
open_session_workspace-IsValid d s host v fresh =
    elim (Option-cases (find_host_tab host.id s.tabs)) [
      | inl missing ↦
          rw (missing, open_session_workspace) (add_session-IsValid d host host.label s v fresh)
      | inr (t, found) ↦
          rw (found, open_session_workspace)
            (activate-IsValid t.id (record s { tabs = update_tab t.id (touch_tab d.now) s.tabs })
              (rw (tab_ids-update_tab t.id (touch_tab d.now) s.tabs (λ u e. unfold touch_tab in e))
                (find_host_tab-count host.id s.tabs t found))
              (update_tab-IsValid t.id (touch_tab d.now) s (λ u. unfold touch_tab in refl)
                (λ u. unfold touch_tab in refl) (λ u h. unfold touch_tab in h) v))
    ]

pub duplicate_session_workspace-IsValid :
    (d : Draws) (s : SessionWorkspaceState) (host : HostRecord) (base : Option Text)
    → IsValid s
    → IsFresh d s
    → IsValid (duplicate_session_workspace d s host base)
unfolding duplicate_session_workspace
duplicate_session_workspace-IsValid d s host base v fresh = add_session-IsValid d host _ s v fresh

pub drop_tab-IsActive :
    (i : Text) (o : Option Text) (ts : List SessionTab)
    → 1 ≤ count i (tab_ids ts)
    → IsActive o ts
    → IsActive (if is_id o i then last_tab_id (drop_tab i ts) else o) (drop_tab i ts)
unfolding is_id tab_ids count
drop_tab-IsActive i none ts there h =
    absurd (let none_there : 1 ≤ count i (tab_ids []) = rw h at there in omega (arith, none_there))
drop_tab-IsActive i (some j) ts there h = elim (Bool-cases (j === i)) [
  | inl same ↦ rw same (last_tab_id-IsActive (drop_tab i ts))
  | inr other ↦ rw other (ground (arith, count-tab_ids-drop_tab j i ts, ===_iff i j, ===_iff j i))
]

pub close_session_tab-IsValid :
    (s : SessionWorkspaceState) (i : Text) → IsValid s → IsValid (close_session_tab s i)
unfolding close_session_tab
close_session_tab-IsValid s i v = elim (Option-cases (find_tab i s.tabs)) [
  | inl missing ↦ rw (missing, close_session_tab) v
  | inr (t, found) ↦
      rw (found, close_session_tab)
        (record {
          distinct_tabs = λ j. ground (arith, v.distinct_tabs j, count-tab_ids-drop_tab j i s.tabs);
          distinct_panes =
              λ p. ground (arith, v.distinct_panes p, count-keys-remove_all p t.pane_ids s.panes);
          owned = λ p. ground (
            arith,
            v.owned p,
            v.distinct_panes p,
            count-keys-remove_all p t.pane_ids s.panes,
            count-owned_ids-drop_tab p i t s.tabs found (v.distinct_tabs i),
            includes-count p t.pane_ids,
            count-includes p t.pane_ids,
          );
          shown = drop_tab-All ShowsActive i s.tabs v.shown;
          named = All-remove_all (λ e. e.1.id ≡ e.0) t.pane_ids s.panes v.named;
          active =
              drop_tab-IsActive i s.active_tab_id s.tabs (find_tab-count i s.tabs t found) v.active;
        })
]
