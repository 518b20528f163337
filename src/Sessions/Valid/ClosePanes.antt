-- ===== src/Sessions/Valid/ClosePanes.antt =====
-- `closePanesForHost` of apps/desktop/src/store/sessions-store.ts, the whole loop: it keeps the
-- workspace well formed and removes the panes of the host, and no other.
use terminal_workspace.Common.{
  ◌≡◌, refl, false, none, some, List, [], ◌∷◌, inl, inr, if◌then◌else◌, Text, ◌===◌, arith,
  Bool-cases, length, ◌==◌, ==_iff,
}
use terminal_workspace.Common.Dict.{
  count, includes, keys, lookup, remove_all, count-keys-remove_all, lookup-remove_all,
  All-remove_all,
}
use terminal_workspace.Sessions.Types.{SessionPane, SessionTab, SessionWorkspaceState}
use terminal_workspace.Sessions.Store.{
  among, close_in_tab, close_in_tabs, close_panes_for_host, panes_of_host,
}
use terminal_workspace.Sessions.Counts.{owned_ids, IsValid}
use terminal_workspace.Sessions.Closing.{panes_of_host-lookup}
use terminal_workspace.Sessions.Valid.Hosts.{
  Pending-self, IsClosing, step_none, step_all, step_some,
}

close_in_tab-IsClosing :
    (closing : List Text) (s now : SessionWorkspaceState) (t : SessionTab) (ts : List SessionTab)
    → IsClosing closing s now (t ∷ ts)
    → IsClosing closing s (close_in_tab closing t now) ts
unfolding close_in_tab
close_in_tab-IsClosing closing s now t ts inv =
    elim (Bool-cases (length (among closing t.pane_ids) == 0)) [
      | inl out ↦ rw (out, close_in_tab) (step_none closing s now t ts inv ((==_iff _ _).0 out))
      | inr hit ↦ elim (Bool-cases (length (among closing t.pane_ids) == length t.pane_ids)) [
        | inl all ↦
            rw (hit, close_in_tab) (rw all (step_all closing s now t ts inv ((==_iff _ _).0 all)))
        | inr part ↦
            rw (hit, close_in_tab) (rw part (step_some closing s now t ts inv (ground arith)))
      ]
    ]

close_in_tabs-IsClosing :
    (closing : List Text) (s now : SessionWorkspaceState) (ts : List SessionTab)
    → IsClosing closing s now ts
    → IsClosing closing s (close_in_tabs closing ts now) []
unfolding close_in_tabs
close_in_tabs-IsClosing closing s now [] inv = inv
close_in_tabs-IsClosing closing s now (t ∷ ts) inv =
    close_in_tabs-IsClosing closing s (close_in_tab closing t now) ts
      (close_in_tab-IsClosing closing s now t ts inv)

IsValid-IsClosing :
    (closing : List Text) (s : SessionWorkspaceState) → IsValid s → IsClosing closing s s s.tabs
IsValid-IsClosing closing s v = record {
  distinct = v.distinct_tabs;
  coming = v.distinct_tabs;
  pending = Pending-self s.tabs v.distinct_tabs;
  owned = λ p. ground arith;
  kept = λ p out. refl;
  counted = λ p out. refl;
  shown = v.shown;
  named = v.named;
  active = v.active;
}

module _ (s : SessionWorkspaceState) (h : Text) (v : IsValid s) where
  closed : SessionWorkspaceState
  closed = close_in_tabs (panes_of_host h s.panes) s.tabs s

  after_loop : IsClosing (panes_of_host h s.panes) s closed []
  unfolding closed
  after_loop = close_in_tabs-IsClosing _ s s s.tabs (IsValid-IsClosing _ s v)

  after_removal :
      IsValid (record closed { panes = remove_all (panes_of_host h s.panes) closed.panes })
  after_removal = record {
    distinct_tabs = after_loop.distinct;
    distinct_panes = λ p. ground (arith, kept p, after_loop.counted p, v.distinct_panes p);
    owned = λ p.
        unfold owned_ids count in
        ground (arith, kept p, after_loop.owned p, after_loop.counted p, v.owned p);
    shown = after_loop.shown;
    named =
        All-remove_all (λ e. e.1.id ≡ e.0) (panes_of_host h s.panes) closed.panes after_loop.named;
    active = after_loop.active;
  }
    where
      kept :
          (p : Text)
          → count p (keys (remove_all (panes_of_host h s.panes) closed.panes))
            ≡ (if includes p (panes_of_host h s.panes) then 0 else count p (keys closed.panes))
      kept p = count-keys-remove_all p (panes_of_host h s.panes) closed.panes

  pub close_panes_for_host-IsValid : IsValid (close_panes_for_host s h).0
  unfolding close_panes_for_host closed
  close_panes_for_host-IsValid = elim (Bool-cases (length (panes_of_host h s.panes) == 0)) [
    | inl nothing ↦ rw (nothing, close_panes_for_host) v
    | inr something ↦ rw (something, close_panes_for_host) after_removal
  ]

  no_panes :
      length (panes_of_host h s.panes) ≡ 0
      → (p : Text) → includes p (panes_of_host h s.panes) ≡ false
  no_panes e p = empty (panes_of_host h s.panes) e
    where
      empty : (xs : List Text) → length xs ≡ 0 → includes p xs ≡ false
      empty [] e = unfold includes in refl
      empty (x ∷ xs) e = absurd (omega arith)

  -- A pane is there afterwards exactly if it was there before and is not listed for the host.
  lookup-listed :
      (p : Text)
      → lookup p (close_panes_for_host s h).0.panes
        ≡ (if includes p (panes_of_host h s.panes) then none else lookup p s.panes)
  unfolding close_panes_for_host closed
  lookup-listed p = elim (Bool-cases (length (panes_of_host h s.panes) == 0)) [
    | inl nothing ↦ rw (nothing, close_panes_for_host) (rw (no_panes ((==_iff _ _).0 nothing) p))
    | inr something ↦
        rw (something, close_panes_for_host)
          (ground
            (arith, lookup-remove_all p (panes_of_host h s.panes) closed.panes, after_loop.kept p))
  ]

  -- The panes of the host are gone.
  pub lookup-close_panes_for_host :
      (p : Text) (q : SessionPane)
      → lookup p s.panes ≡ some q
      → lookup p (close_panes_for_host s h).0.panes ≡ (if q.host_id === h then none else some q)
  lookup-close_panes_for_host p q found = ground (
    arith,
    lookup-listed p,
    found,
    panes_of_host-lookup h p q s.panes v.named v.distinct_panes found,
  )

  pub lookup-close_panes_for_host-none :
      (p : Text) → lookup p s.panes ≡ none → lookup p (close_panes_for_host s h).0.panes ≡ none
  lookup-close_panes_for_host-none p missing = ground (arith, lookup-listed p, missing)
