-- ===== src/Sessions/Opened.antt =====
-- The tab of a host that `openSession` of apps/desktop/src/store/sessions-store.ts opens.
use terminal_workspace.Common.{
  ◌≡◌, ◌∙◌, ◌⊎◌, refl, sym, ap, none, some, List, [], ◌∷◌, ◌++◌, inl, inr, Text, ◌===◌, ===_iff,
  arith, Bool-cases, Option-cases,
}
use terminal_workspace.Hosts.Types.{HostRecord}
use terminal_workspace.Sessions.Types.{
  SessionTab, SessionWorkspaceState, create_session_pane, create_session_tab,
}
use terminal_workspace.Sessions.Tabs.{
  Draws, find_host_tab, update_tab, touch_tab, add_session, open_session_workspace,
}
use terminal_workspace.Sessions.Counts.{tab_ids}
use terminal_workspace.Sessions.Updates.{tab_ids-update_tab}

find_host_tab-append :
    (h : Text) (ts : List SessionTab) (t : SessionTab)
    → t.host_id ≡ h
    → find_host_tab h ts ≡ none
    → find_host_tab h (ts ++ t ∷ []) ≡ some t
unfolding find_host_tab
find_host_tab-append h [] t e missing = ground (arith, ===_iff t.host_id h)
find_host_tab-append h (u ∷ us) t e missing = ground (arith, find_host_tab-append h us t e)

find_host_tab-update_tab :
    (h i now : Text) (ts : List SessionTab) (t : SessionTab)
    → find_host_tab h ts ≡ some t
    → (u : SessionTab) × (find_host_tab h (update_tab i (touch_tab now) ts) ≡ some u)
      × (u.id ≡ t.id)
unfolding find_host_tab update_tab touch_tab
find_host_tab-update_tab h i now [] t found = cc
find_host_tab-update_tab h i now (u ∷ us) t found = elim (Bool-cases (u.host_id === h)) [
  | inl here ↦ elim (Bool-cases (u.id === i)) [
    | inl same ↦
        let e : u ≡ t = ground arith in
        (record u { updated_at = now }, rw (same, here) refl, ap (λ (x : SessionTab). x.id) e)
    | inr other ↦
        let e : u ≡ t = ground arith in (u, rw (other, here) refl, ap (λ (x : SessionTab). x.id) e)
  ]
  | inr there ↦
      let (w, later, own) = find_host_tab-update_tab h i now us t (rw there at found) in
      (w, ground (arith, later), own)
]

-- An opened host has a tab, which is active.
pub find_host_tab-open :
    (d : Draws) (s : SessionWorkspaceState) (host : HostRecord)
    → (t : SessionTab) × (find_host_tab host.id (open_session_workspace d s host).tabs ≡ some t)
      × ((open_session_workspace d s host).active_tab_id ≡ some (t.id))
unfolding open_session_workspace
find_host_tab-open d s host = elim (Option-cases (find_host_tab host.id s.tabs)) [
  | inl missing ↦
      let tab =
        create_session_tab d.now d.tab_id host (create_session_pane d.now d.pane_id host host.label)
          host.label in
      (
        tab,
        rw (missing, open_session_workspace)
            (unfold add_session create_session_pane in
              find_host_tab-append host.id s.tabs tab (unfold create_session_tab in refl) missing),
        rw (missing, open_session_workspace) (unfold add_session create_session_pane in refl),
      )
  | inr (t, found) ↦
      let (u, later, own) = find_host_tab-update_tab host.id t.id d.now s.tabs t found in
      (
        u,
        rw (found, open_session_workspace) later,
        rw (found, open_session_workspace) (ap some (sym own)),
      )
]

pub find_host_tab-host :
    (h : Text) (ts : List SessionTab) (t : SessionTab) → find_host_tab h ts ≡ some t → t.host_id ≡ h
unfolding find_host_tab
find_host_tab-host h [] t found = cc
find_host_tab-host h (u ∷ us) t found = elim (Bool-cases (u.host_id === h)) [
  | inl here ↦
      let e : u ≡ t = ground arith in
      ap (λ (x : SessionTab). x.host_id) (sym e) ∙ (===_iff u.host_id h).0 here
  | inr there ↦ find_host_tab-host h us t (rw there at found)
]

tab_ids-append :
    (ts : List SessionTab) (t : SessionTab) → tab_ids (ts ++ t ∷ []) ≡ tab_ids ts ++ t.id ∷ []
unfolding tab_ids
tab_ids-append [] t = refl
tab_ids-append (u ∷ us) t = ap (λ is. u.id ∷ is) (tab_ids-append us t)

-- Opening a host keeps the tabs, and at most adds one at the end.
pub tab_ids-open :
    (d : Draws) (s : SessionWorkspaceState) (host : HostRecord)
    → (tab_ids (open_session_workspace d s host).tabs ≡ tab_ids s.tabs)
      ⊎ (tab_ids (open_session_workspace d s host).tabs ≡ tab_ids s.tabs ++ d.tab_id ∷ [])
unfolding open_session_workspace
tab_ids-open d s host = elim (Option-cases (find_host_tab host.id s.tabs)) [
  | inl missing ↦ inr (
      rw (missing, open_session_workspace)
        (unfold add_session create_session_tab in tab_ids-append s.tabs _))
  | inr (t, found) ↦ inl (
      rw (found, open_session_workspace)
        (tab_ids-update_tab t.id (touch_tab d.now) s.tabs (λ u own. unfold touch_tab in own)))
]
