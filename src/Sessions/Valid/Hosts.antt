-- ===== src/Sessions/Valid/Hosts.antt =====
-- `closePanesForHost` of apps/desktop/src/store/sessions-store.ts keeps the workspace well formed. The
-- loop runs over the tabs as they were; its invariant speaks of the tabs that are still to come.
use terminal_workspace.Common.{
  ◌+◌, ◌≤◌, ◌≡◌, ◌≢◌, refl, ◌∙◌, false, Option, none, some, List, [], ◌∷◌, if◌then◌else◌, Text,
  ◌===◌, ===_iff, ===_refl, All, arith, length,
}
use terminal_workspace.Common.Dict.{
  count, count-append, includes, includes-count, keys, lookup, count-keys-remove_all,
  lookup-remove_all, All-remove_all,
}
use terminal_workspace.Sessions.Types.{SessionPane, SessionTab, SessionWorkspaceState}
use terminal_workspace.Sessions.Tabs.{find_tab, update_tab, drop_tab, close_session_tab}
use terminal_workspace.Sessions.Store.{among, not_among, keep_panes}
use terminal_workspace.Sessions.Counts.{tab_ids, owned_ids, ShowsActive, IsActive, find_tab-count}
use terminal_workspace.Sessions.Updates.{
  tab_ids-update_tab, update_tab-All, count-owned_ids-update_tab, count-owned_ids-drop_tab,
  count-tab_ids-drop_tab, drop_tab-All,
}
use terminal_workspace.Sessions.Closing.{
  count-not_among, count-none_among, count-all_among, kept-ShowsActive, update_tab-constant,
  find_tab-drop_tab, find_tab-update_tab_ne,
}
use terminal_workspace.Sessions.Valid.{drop_tab-IsActive}

-- The tabs to come are in the state as they were before the loop.
abbrev pub Pending : List SessionTab → List SessionTab → Type 0
Pending now = All (λ (t : SessionTab). find_tab t.id now ≡ some t)

Pending-cons :
    (t : SessionTab) (now ts : List SessionTab)
    → count t.id (tab_ids now) ≡ 0
    → Pending now ts
    → Pending (t ∷ now) ts
unfolding find_tab
Pending-cons t now [] absent h = tt
Pending-cons t now (u ∷ us) absent h = (
  ground (arith, ===_iff t.id u.id, find_tab-count u.id now u h.0),
  Pending-cons t now us absent h.1,
)

pub Pending-self : (ts : List SessionTab) → ((i : Text) → count i (tab_ids ts) ≤ 1) → Pending ts ts
unfolding find_tab tab_ids count
Pending-self [] d = tt
Pending-self (t ∷ ts) d = (
  ground (arith, ===_refl t.id),
  Pending-cons t ts ts (ground (arith, d t.id, ===_refl t.id))
      (Pending-self ts (λ i. ground (arith, d i))),
)

Pending-other :
    (i : Text) (now later ts : List SessionTab)
    → ((j : Text) → (i === j) ≡ false → find_tab j later ≡ find_tab j now)
    → count i (tab_ids ts) ≡ 0
    → Pending now ts
    → Pending later ts
unfolding tab_ids count
Pending-other i now later [] same absent h = tt
Pending-other i now later (t ∷ ts) same absent h = (
  same t.id (ground (arith, ===_iff t.id i, ===_iff i t.id)) ∙ h.0,
  Pending-other i now later ts same (ground arith) h.1,
)

still-IsActive :
    (now later : List SessionTab) (i : Text)
    → tab_ids later ≡ tab_ids now
    → 1 ≤ count i (tab_ids now)
    → (o : Option Text) → IsActive o now
    → IsActive o later
unfolding tab_ids count
still-IsActive now later i ids there none e =
    absurd (let gone : 1 ≤ count i (tab_ids []) = rw e at there in omega (arith, gone))
still-IsActive now later i ids there (some j) k = rw ids k

-- What holds when the tabs `ts` are still to come.
pub record IsClosing (closing : List Text) (s now : SessionWorkspaceState) (ts : List SessionTab)
    : Type 0 where
  pub distinct : (i : Text) → count i (tab_ids now.tabs) ≤ 1
  pub coming : (i : Text) → count i (tab_ids ts) ≤ 1
  pub pending : Pending now.tabs ts
  pub owned :
      (p : Text)
      → count p (owned_ids now.tabs)
        ≡ (if includes p closing then count p (owned_ids ts) else count p (owned_ids s.tabs))
  pub kept : (p : Text) → includes p closing ≡ false → lookup p now.panes ≡ lookup p s.panes
  pub counted :
      (p : Text) → includes p closing ≡ false → count p (keys now.panes) ≡ count p (keys s.panes)
  pub shown : All ShowsActive now.tabs
  pub named : All (λ (e : Text × SessionPane). e.1.id ≡ e.0) now.panes
  pub active : IsActive now.active_tab_id now.tabs

module _ (closing : List Text) (s now : SessionWorkspaceState) (t : SessionTab)
    (ts : List SessionTab) (inv : IsClosing closing s now (t ∷ ts)) where
  absent : count t.id (tab_ids ts) ≡ 0
  absent = unfold tab_ids count in ground (arith, inv.coming t.id, ===_refl t.id)

  coming_later : (i : Text) → count i (tab_ids ts) ≤ 1
  coming_later i = unfold tab_ids count in ground (arith, inv.coming i)

  owned_later :
      (p : Text) → count p (owned_ids (t ∷ ts)) ≡ count p t.pane_ids + count p (owned_ids ts)
  owned_later p = unfold owned_ids in count-append p t.pane_ids (owned_ids ts)

  pub step_none : length (among closing t.pane_ids) ≡ 0 → IsClosing closing s now ts
  step_none h = record {
    distinct = inv.distinct;
    coming = coming_later;
    pending = inv.pending.1;
    owned =
        λ p. ground (arith, inv.owned p, owned_later p, count-none_among closing p t.pane_ids h);
    kept = inv.kept;
    counted = inv.counted;
    shown = inv.shown;
    named = inv.named;
    active = inv.active;
  }

  pub step_all :
      length (among closing t.pane_ids) ≡ length t.pane_ids
      → IsClosing closing s (close_session_tab now t.id) ts
  unfolding close_session_tab
  step_all h =
      let here = inv.pending.0 in
      let outside = λ (p : Text). count-all_among closing p t.pane_ids h in
      rw (here, close_session_tab)
        (record {
          distinct = λ i. ground (arith, inv.distinct i, count-tab_ids-drop_tab i t.id now.tabs);
          coming = coming_later;
          pending =
              Pending-other t.id now.tabs (drop_tab t.id now.tabs) ts
                (λ j. find_tab-drop_tab t.id j now.tabs) absent inv.pending.1;
          owned = λ p. ground (
            arith,
            inv.owned p,
            owned_later p,
            outside p,
            count-owned_ids-drop_tab p t.id t now.tabs here (inv.distinct t.id),
          );
          kept = λ p out. ground (
            arith,
            inv.kept p out,
            outside p out,
            includes-count p t.pane_ids,
            lookup-remove_all p t.pane_ids now.panes,
          );
          counted = λ p out. ground (
            arith,
            inv.counted p out,
            outside p out,
            includes-count p t.pane_ids,
            count-keys-remove_all p t.pane_ids now.panes,
          );
          shown = drop_tab-All ShowsActive t.id now.tabs inv.shown;
          named = All-remove_all (λ e. e.1.id ≡ e.0) t.pane_ids now.panes inv.named;
          active =
              drop_tab-IsActive t.id now.active_tab_id now.tabs
                (find_tab-count t.id now.tabs t here) inv.active;
        })

  pub step_some :
      length (among closing t.pane_ids) ≢ length t.pane_ids
      → IsClosing closing s
          (record now {
            tabs = update_tab t.id (keep_panes (not_among closing t.pane_ids)) now.tabs;
          })
          ts
  step_some h =
      let here = inv.pending.0 in
      let left = not_among closing t.pane_ids in
      let u = keep_panes left t in
      let same_id : u.id ≡ t.id = unfold keep_panes in refl in
      let ids = tab_ids-update_tab t.id (λ _. u) now.tabs (λ _ _. same_id) in
      rw (update_tab-constant t.id (keep_panes left) t now.tabs here (inv.distinct t.id)) (record {
        distinct = λ i. rw ids (inv.distinct i);
        coming = coming_later;
        pending =
            Pending-other t.id now.tabs (update_tab t.id (λ _. u) now.tabs) ts
              (λ j. find_tab-update_tab_ne t.id j u now.tabs same_id) absent inv.pending.1;
        owned = λ p.
            unfold keep_panes in
            ground (
              arith,
              inv.owned p,
              owned_later p,
              count-not_among closing p t.pane_ids,
              count-owned_ids-update_tab p t.id t u now.tabs here (inv.distinct t.id),
            );
        kept = inv.kept;
        counted = inv.counted;
        shown =
            update_tab-All ShowsActive t.id (λ _. u) now.tabs (λ _ _. kept-ShowsActive closing t h)
              inv.shown;
        named = inv.named;
        active =
            still-IsActive now.tabs _ t.id ids (find_tab-count t.id now.tabs t here)
              now.active_tab_id inv.active;
      })
