-- ===== src/Sessions/Counts.antt =====
-- When a session workspace (apps/desktop/src/store/sessions-store.ts) is well formed, and how its
-- helpers on tabs change the ids of tabs and panes, counted.
use terminal_workspace.Common.{
  ◌+◌, ◌≤◌, ◌≡◌, refl, Option, none, some, List, [], ◌∷◌, ◌++◌, inl, inr, Text, ◌===◌, ===_iff,
  ===_refl, All, arith, Bool-cases,
}
use terminal_workspace.Common.Dict.{count, count-append, keys}
use terminal_workspace.Sessions.Types.{SessionPane, SessionTab, SessionWorkspaceState}
use terminal_workspace.Sessions.Tabs.{Draws, find_tab, find_host_tab, last_tab_id}

unfoldable pub tab_ids : List SessionTab → List Text
tab_ids [] = []
tab_ids (t ∷ ts) = t.id ∷ tab_ids ts

-- The panes that the tabs show.
unfoldable pub owned_ids : List SessionTab → List Text
owned_ids [] = []
owned_ids (t ∷ ts) = t.pane_ids ++ owned_ids ts

-- A tab shows its active pane.
abbrev pub ShowsActive : SessionTab → Type 0
ShowsActive t = 1 ≤ count t.active_pane_id t.pane_ids

abbrev pub IsActive : Option Text → List SessionTab → Type 0
IsActive none ts = ts ≡ []
IsActive (some i) ts = 1 ≤ count i (tab_ids ts)

-- Tab ids and pane keys are distinct; the panes of the tabs are exactly the panes that the workspace
-- holds, each in one tab, once; each tab shows its active pane; each pane stands under its own id;
-- and the active tab is one of the tabs, or there is no tab.
pub record IsValid (s : SessionWorkspaceState) : Type 0 where
  pub distinct_tabs : (i : Text) → count i (tab_ids s.tabs) ≤ 1
  pub distinct_panes : (p : Text) → count p (keys s.panes) ≤ 1
  pub owned : (p : Text) → count p (owned_ids s.tabs) ≡ count p (keys s.panes)
  pub shown : All ShowsActive s.tabs
  pub named : All (λ (e : Text × SessionPane). e.1.id ≡ e.0) s.panes
  pub active : IsActive s.active_tab_id s.tabs

-- The ids that an operation draws are used nowhere yet, as `crypto.randomUUID()` promises.
pub record IsFresh (d : Draws) (s : SessionWorkspaceState) : Type 0 where
  pub new_tab : count d.tab_id (tab_ids s.tabs) ≡ 0
  pub new_pane : count d.pane_id (keys s.panes) ≡ 0

pub count-tab_ids-append :
    (i : Text) (ts us : List SessionTab)
    → count i (tab_ids (ts ++ us)) ≡ count i (tab_ids ts) + count i (tab_ids us)
unfolding tab_ids count
count-tab_ids-append i [] us = omega arith
count-tab_ids-append i (t ∷ ts) us = omega (arith, count-tab_ids-append i ts us)

pub count-owned_ids-append :
    (p : Text) (ts us : List SessionTab)
    → count p (owned_ids (ts ++ us)) ≡ count p (owned_ids ts) + count p (owned_ids us)
unfolding owned_ids count
count-owned_ids-append p [] us = omega arith
count-owned_ids-append p (t ∷ ts) us = omega (
  arith,
  count-owned_ids-append p ts us,
  count-append p t.pane_ids (owned_ids ts),
  count-append p t.pane_ids (owned_ids (ts ++ us)),
)

pub find_tab-id :
    (i : Text) (ts : List SessionTab) (t : SessionTab) → find_tab i ts ≡ some t → t.id ≡ i
unfolding find_tab
find_tab-id i [] t h = cc
find_tab-id i (u ∷ us) t h = ground (arith, ===_iff u.id i, find_tab-id i us t)

pub find_tab-count :
    (i : Text) (ts : List SessionTab) (t : SessionTab)
    → find_tab i ts ≡ some t
    → 1 ≤ count i (tab_ids ts)
unfolding find_tab tab_ids count
find_tab-count i [] t h = cc
find_tab-count i (u ∷ us) t h = ground (arith, find_tab-count i us t)

pub find_tab-All {κ} :
    (P : SessionTab → Type κ) (i : Text) (ts : List SessionTab) (t : SessionTab)
    → All P ts
    → find_tab i ts ≡ some t
    → P t
unfolding find_tab
find_tab-All P i [] t a h = cc
find_tab-All P i (u ∷ us) t a h = elim (Bool-cases (u.id === i)) [
  | inl same ↦ let e : u ≡ t = ground arith in rw (← e) a.0
  | inr other ↦ find_tab-All P i us t a.1 (rw other at h)
]

pub find_host_tab-count :
    (h : Text) (ts : List SessionTab) (t : SessionTab)
    → find_host_tab h ts ≡ some t
    → 1 ≤ count t.id (tab_ids ts)
unfolding find_host_tab tab_ids count
find_host_tab-count h [] t e = cc
find_host_tab-count h (u ∷ us) t e = ground (arith, ===_refl t.id, find_host_tab-count h us t)

pub last_tab_id-IsActive : (ts : List SessionTab) → IsActive (last_tab_id ts) ts
unfolding last_tab_id tab_ids count
last_tab_id-IsActive [] = refl
last_tab_id-IsActive (t ∷ []) = ground (arith, ===_refl t.id)
last_tab_id-IsActive (t ∷ u ∷ ts) = step (last_tab_id (u ∷ ts)) (last_tab_id-IsActive (u ∷ ts))
  where
    step : (o : Option Text) → IsActive o (u ∷ ts) → IsActive o (t ∷ u ∷ ts)
    step none h = cc
    step (some i) h = omega arith
