-- ===== src/Sessions/Valid/Split.antt =====
-- Splitting a tab and removing a pane, in apps/desktop/src/store/sessions-store.ts, keep the
-- workspace well formed.
use terminal_workspace.Common.{
  ◌≤◌, ◌<◌, ◌≡◌, refl, sym, Option, none, some, List, [], ◌∷◌, ◌++◌, inl, inr, Text, ◌===◌, ===_iff,
  ===_refl, arith, Bool-cases, Option-cases, length, leb, or_else, head?,
}
use terminal_workspace.Common.Dict.{
  count, count-append, count-keys-insert, count-keys-remove, All-insert, All-remove, without,
  count-without,
}
use terminal_workspace.Hosts.Types.{HostRecord}
use terminal_workspace.Sessions.Types.{SessionTab, SessionWorkspaceState, create_session_pane}
use terminal_workspace.Sessions.Tabs.{
  Draws, find_tab, update_tab, split_session_pane, without_pane, remove_session_pane,
}
use terminal_workspace.Sessions.Counts.{
  tab_ids, ShowsActive, IsActive, IsValid, find_tab-id, find_tab-count, find_tab-All,
}
use terminal_workspace.Sessions.Updates.{
  tab_ids-update_tab, update_tab-All, count-owned_ids-update_tab, find_tab-owned_ids,
}
use terminal_workspace.Sessions.Counts.{IsFresh}
use terminal_workspace.Sessions.Valid.{close_session_tab-IsValid}

-- What a constant update of the tab `i` keeps.
module _ (i : Text) (u : SessionTab) (s : SessionWorkspaceState) (same : u.id ≡ i) where
  replaced : List SessionTab
  replaced = update_tab i (λ _. u) s.tabs

  tab_ids-replaced : tab_ids replaced ≡ tab_ids s.tabs
  unfolding replaced
  tab_ids-replaced = tab_ids-update_tab i (λ _. u) s.tabs (λ t e. same)

  replaced-IsActive : (o : Option Text) → IsActive o s.tabs → IsActive o replaced
  unfolding replaced
  replaced-IsActive none e = rw e (unfold update_tab in refl)
  replaced-IsActive (some j) h = rw tab_ids-replaced h

pub split_session_pane-IsValid :
    (d : Draws) (s : SessionWorkspaceState) (i : Text) (host : HostRecord)
    → IsValid s
    → IsFresh d s
    → IsValid (split_session_pane d s i host)
unfolding split_session_pane replaced
split_session_pane-IsValid d s i host v fresh = elim (Option-cases (find_tab i s.tabs)) [
  | inl missing ↦ rw (missing, split_session_pane) v
  | inr (t, found) ↦
      let u : SessionTab = record t {
        pane_ids = t.pane_ids ++ d.pane_id ∷ [];
        active_pane_id = d.pane_id;
        updated_at = d.now;
      } in
      let pane = create_session_pane d.now d.pane_id host host.label in
      let same = find_tab-id i s.tabs t found in
      let single = λ (p : Text). count-append p t.pane_ids (d.pane_id ∷ []) in
      rw (found, split_session_pane)
        (record {
          distinct_tabs = λ j. rw (tab_ids-replaced i u s same) (v.distinct_tabs j);
          distinct_panes = λ p. ground (
            arith,
            ===_iff d.pane_id p,
            v.distinct_panes p,
            fresh.new_pane,
            count-keys-insert p d.pane_id pane s.panes,
          );
          owned = λ p.
              unfold count in
              ground (
                arith,
                v.owned p,
                fresh.new_pane,
                single p,
                count-keys-insert p d.pane_id pane s.panes,
                count-owned_ids-update_tab p i t u s.tabs found (v.distinct_tabs i),
              );
          shown =
              update_tab-All ShowsActive i (λ _. u) s.tabs
                (λ _ _. unfold count in ground (arith, ===_refl d.pane_id, single d.pane_id))
                v.shown;
          named =
              All-insert (λ e. e.1.id ≡ e.0) d.pane_id pane s.panes
                (λ j e. unfold create_session_pane in sym e) v.named;
          active = rw (tab_ids-replaced i u s same) (find_tab-count i s.tabs t found);
        })
]

-- A list of two or more distinct texts is not emptied by removing one of them.
head-without :
    (p : Text) (xs : List Text)
    → count p xs < length xs
    → 1 ≤ count (or_else (head? (without p xs)) []) (without p xs)
unfolding count without
head-without p [] h = absurd (omega arith)
head-without p (x ∷ xs) h = ground (arith, ===_refl x, head-without p xs)

without_pane-ShowsActive :
    (now p : Text) (t : SessionTab)
    → count p t.pane_ids < length t.pane_ids
    → ShowsActive t
    → ShowsActive (without_pane now p t)
unfolding without_pane
without_pane-ShowsActive now p t more shows = elim (Bool-cases (t.active_pane_id === p)) [
  | inl same ↦ rw same (head-without p t.pane_ids more)
  | inr other ↦ rw other (
      ground (
        arith,
        ===_iff t.active_pane_id p,
        ===_iff p t.active_pane_id,
        count-without t.active_pane_id p t.pane_ids,
      ))
]

-- Removing a pane that the tab shows keeps the workspace well formed.
pub remove_session_pane-IsValid :
    (now : Text) (s : SessionWorkspaceState) (i p : Text)
    → ((t : SessionTab) → find_tab i s.tabs ≡ some t → 1 ≤ count p t.pane_ids)
    → IsValid s
    → IsValid (remove_session_pane now s i p)
unfolding remove_session_pane replaced
remove_session_pane-IsValid now s i p shows v = elim (Option-cases (find_tab i s.tabs)) [
  | inl missing ↦ rw (missing, remove_session_pane) v
  | inr (t, found) ↦ elim (Bool-cases (leb (length t.pane_ids) 1)) [
    | inl one ↦ rw (found, remove_session_pane) (rw one (close_session_tab-IsValid s i v))
    | inr more ↦
        let u = without_pane now p t in
        let same : u.id ≡ i = unfold without_pane in find_tab-id i s.tabs t found in
        let shown_here : 1 ≤ count p t.pane_ids = shows t found in
        let once : count p t.pane_ids ≤ 1 =
          omega (arith, v.owned p, v.distinct_panes p, find_tab-owned_ids p i t s.tabs found) in
        rw (found, remove_session_pane)
          (rw more (record {
            distinct_tabs = λ j. rw (tab_ids-replaced i u s same) (v.distinct_tabs j);
            distinct_panes = λ q. ground (arith, v.distinct_panes q, count-keys-remove q p s.panes);
            owned = λ q.
                unfold without_pane in
                ground (
                  arith,
                  ===_iff p q,
                  once,
                  shown_here,
                  v.owned q,
                  v.distinct_panes q,
                  count-keys-remove q p s.panes,
                  count-without q p t.pane_ids,
                  count-owned_ids-update_tab q i t u s.tabs found (v.distinct_tabs i),
                );
            shown =
                update_tab-All ShowsActive i (λ _. u) s.tabs
                  (λ _ _.
                    without_pane-ShowsActive now p t (ground (arith, once))
                      (find_tab-All ShowsActive i s.tabs t v.shown found))
                  v.shown;
            named = All-remove (λ e. e.1.id ≡ e.0) p s.panes v.named;
            active = replaced-IsActive i u s same s.active_tab_id v.active;
          }))
  ]
]
