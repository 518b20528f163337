-- ===== src/Sessions/Reaping.antt =====
-- Which backend sessions the closing actions of apps/desktop/src/store/sessions-store.ts reap: those of
-- the panes that they remove, and no other.
use terminal_workspace.Common.{
  ◌≤◌, ◌≡◌, ◌↔◌, refl, ◌∙◌, ap, true, false, ◌||◌, none, some, List, [], ◌∷◌, ◌++◌, inl, inr,
  if◌then◌else◌, Text, ◌===◌, ===_iff, ===_refl, arith, Bool-cases, Option-cases, is_empty, length,
  leb, ◌==◌, ==_iff,
}
use terminal_workspace.Common.Dict.{count, includes, lookup, lookup-remove, lookup-remove_all}
use terminal_workspace.Sessions.Types.{SessionPane, SessionTab, SessionWorkspaceState}
use terminal_workspace.Sessions.Tabs.{find_tab, close_session_tab, remove_session_pane}
use terminal_workspace.Sessions.Store.{
  backend_session, close_backend_sessions_for_panes, close_tab, close_pane, close_panes_for_host,
  panes_of_host,
}
use terminal_workspace.Sessions.Counts.{IsValid}
use terminal_workspace.Sessions.Closing.{panes_of_host-lookup}
use terminal_workspace.Sessions.Valid.ClosePanes.{lookup-close_panes_for_host}

includes-append :
    (x : Text) (xs ys : List Text) → includes x (xs ++ ys) ≡ (includes x xs || includes x ys)
unfolding includes
includes-append x [] ys = refl
includes-append x (y ∷ xs) ys = ground (arith, includes-append x xs ys)

-- A pane with a live backend session, by its id.
pub record Holds (panes : List (Text × SessionPane)) (p session : Text) : Type 0 where
  pub pane : SessionPane
  pub found : lookup p panes ≡ some pane
  pub held : pane.backend_session_id ≡ some session
  pub live : is_empty session ≡ false

-- A pane that held a session before and is not there afterwards.
abbrev pub Lost : List (Text × SessionPane) → List (Text × SessionPane) → Text → Type 0
Lost before after session = (p : Text) × Holds before p session × (lookup p after ≡ none)

module _ (panes : List (Text × SessionPane)) (session : Text) where
  includes-backend_session :
      (p : Text) → Holds panes p session → includes session (backend_session panes p) ≡ true
  unfolding backend_session includes
  includes-backend_session p h = ground (arith, h.found, h.held, h.live, ===_refl session)

  backend_session-Holds :
      (p : Text) → includes session (backend_session panes p) ≡ true → Holds panes p session
  unfolding backend_session includes
  backend_session-Holds p inside = elim (Option-cases (lookup p panes)) [
    | inl missing ↦ absurd (ground (arith, missing, inside))
    | inr (q, found) ↦ elim (Option-cases q.backend_session_id) [
      | inl idle ↦ absurd (ground (arith, found, idle, inside))
      | inr (i, held) ↦
          let same : i ≡ session = ground (arith, found, held, inside, ===_iff i session) in
          record {
            pane = q;
            found = found;
            held = held ∙ ap some same;
            live = ground (arith, found, held, inside, same);
          }
    ]
  ]

  closed_only :
      (ids : List Text)
      → includes session (close_backend_sessions_for_panes panes ids) ≡ true
      → (p : Text) × (includes p ids ≡ true) × Holds panes p session
  unfolding close_backend_sessions_for_panes includes
  closed_only [] inside = cc
  closed_only (i ∷ ids) inside = elim (Bool-cases (includes session (backend_session panes i))) [
    | inl here ↦ (i, ground (arith, ===_refl i), backend_session-Holds i here)
    | inr there ↦
        let (p, listed, h) = closed_only ids (
          ground (
            arith,
            includes-append session (backend_session panes i)
                (close_backend_sessions_for_panes panes ids),
          )) in
        (p, ground (arith, listed), h)
  ]

  closed_all :
      (ids : List Text) (p : Text)
      → includes p ids ≡ true
      → Holds panes p session
      → includes session (close_backend_sessions_for_panes panes ids) ≡ true
  unfolding close_backend_sessions_for_panes includes
  closed_all [] p listed h = cc
  closed_all (i ∷ ids) p listed h =
      rw
        (includes-append session (backend_session panes i)
          (close_backend_sessions_for_panes panes ids))
        (elim (Bool-cases (i === p)) [
          | inl here ↦ let e : i ≡ p = (===_iff i p).0 here in rw (e, includes-backend_session p h)
          | inr there ↦ let later = closed_all ids p (ground arith) h in ground (arith, later)
        ])

  -- Where the panes that an action removes are the listed ones, the calls are those for the sessions
  -- that it loses.
  closed_iff :
      (ids : List Text) (after : List (Text × SessionPane))
      → ((p : Text) → Holds panes p session → includes p ids ≡ true → lookup p after ≡ none)
      → ((p : Text) → Holds panes p session → lookup p after ≡ none → includes p ids ≡ true)
      → (includes session (close_backend_sessions_for_panes panes ids) ≡ true)
        ↔ Lost panes after session
  closed_iff ids after gone listed = (
    λ inside. let (p, l, h) = closed_only ids inside in (p, h, gone p h l),
    λ r. closed_all ids r.0 (listed r.0 r.1 r.2) r.1,
  )

calls_empty :
    (panes : List (Text × SessionPane)) (ids : List Text)
    → length ids ≡ 0
    → [] ≡ close_backend_sessions_for_panes panes ids
unfolding close_backend_sessions_for_panes
calls_empty panes [] h = refl
calls_empty panes (i ∷ ids) h = absurd (omega arith)

-- A list of one text.
includes_single :
    (q p : Text) (ids : List Text) → 1 ≤ count p ids → length ids ≤ 1 → includes q ids ≡ (p === q)
unfolding includes count
includes_single q p [] h one = absurd (omega arith)
includes_single q p (i ∷ []) h one = ground (arith, ===_iff i p, ===_iff i q, ===_iff p q)
includes_single q p (i ∷ j ∷ ids) h one = absurd (omega arith)

module _ (s : SessionWorkspaceState) (session : Text) where
  unchanged : ¬ Lost s.panes s.panes session
  unchanged (p, h, missing) = cc (h.found, missing)

  -- `closeTab` closes exactly the sessions whose panes it removes.
  pub close_tab_reaps :
      (i : Text)
      → (includes session (close_tab s i).1 ≡ true) ↔ Lost s.panes (close_tab s i).0.panes session
  unfolding close_tab close_session_tab
  close_tab_reaps i = elim (Option-cases (find_tab i s.tabs)) [
    | inl missing ↦
        rw (missing, close_tab)
          (rw (missing, close_session_tab)
            (λ inside. absurd (unfold includes in cc inside), λ lost. absurd (unchanged lost)))
    | inr (t, found) ↦
        rw (found, close_tab)
          (rw (found, close_session_tab)
            (closed_iff s.panes session t.pane_ids _
              (λ p h l. ground (arith, lookup-remove_all p t.pane_ids s.panes, l))
              (λ p h gone. ground (arith, h.found, gone, lookup-remove_all p t.pane_ids s.panes))))
  ]

  -- `closePanesForHost` closes exactly the sessions whose panes it removes.
  pub close_panes_for_host_reaps :
      (h : Text)
      → IsValid s
      → (includes session (close_panes_for_host s h).1 ≡ true)
        ↔ Lost s.panes (close_panes_for_host s h).0.panes session
  close_panes_for_host_reaps h v = rw calls (
      closed_iff s.panes session (panes_of_host h s.panes) _
        (λ p k l. ground (
          arith,
          l,
          lookup-close_panes_for_host s h v p k.pane k.found,
          panes_of_host-lookup h p k.pane s.panes v.named v.distinct_panes k.found,
        ))
        (λ p k gone. ground (
          arith,
          gone,
          lookup-close_panes_for_host s h v p k.pane k.found,
          panes_of_host-lookup h p k.pane s.panes v.named v.distinct_panes k.found,
        )))
    where
      calls :
          (close_panes_for_host s h).1
          ≡ close_backend_sessions_for_panes s.panes (panes_of_host h s.panes)
      calls = elim (Bool-cases (length (panes_of_host h s.panes) == 0)) [
        | inl nothing ↦
            unfold close_panes_for_host in
            rw (nothing, close_panes_for_host)
              (calls_empty s.panes (panes_of_host h s.panes) ((==_iff _ _).0 nothing))
        | inr something ↦ unfold close_panes_for_host in rw (something, close_panes_for_host)
      ]

  -- `closePane`, for a pane that the tab shows, closes exactly the session of the pane that it removes.
  pub close_pane_reaps :
      (now i p : Text) (t : SessionTab)
      → find_tab i s.tabs ≡ some t
      → 1 ≤ count p t.pane_ids
      → (includes session (close_pane now s i p).1 ≡ true)
        ↔ Lost s.panes (close_pane now s i p).0.panes session
  unfolding close_pane
  close_pane_reaps now i p t found shows =
      closed_iff s.panes session (p ∷ []) (remove_session_pane now s i p).panes
        (λ q h l. ground (arith, l, only_it q, without_it q))
        (λ q h gone. ground (arith, h.found, gone, only_it q, without_it q))
    where
      only_it : (q : Text) → includes q (p ∷ []) ≡ (p === q)
      only_it q = unfold includes in ground arith

      without_it :
          (q : Text)
          → lookup q (remove_session_pane now s i p).panes
            ≡ (if p === q then none else lookup q s.panes)
      without_it q = elim (Bool-cases (leb (length t.pane_ids) 1)) [
        | inl one ↦
            unfold remove_session_pane close_session_tab in
            rw (found, remove_session_pane)
              (rw one (
                rw (found, close_session_tab)
                  (lookup-remove_all q t.pane_ids s.panes
                    ∙ ap (λ b. if b then none else lookup q s.panes)
                        (includes_single q p t.pane_ids shows (ground arith)))))
        | inr more ↦
            unfold remove_session_pane in
            rw (found, remove_session_pane) (rw more (lookup-remove p q s.panes))
      ]
