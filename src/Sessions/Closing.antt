-- ===== src/Sessions/Closing.antt =====
-- Lemmas on `closePanesForHost` of apps/desktop/src/store/sessions-store.ts: what stays of the panes of
-- a tab when some are closed, and which panes are a host's.
use terminal_workspace.Common.{
  ◌+◌, ◌≤◌, ◌≡◌, ◌≢◌, refl, ap, true, false, some, List, [], ◌∷◌, inl, inr, if◌then◌else◌, Text,
  ◌===◌, ===_iff, ===_refl, All, arith, Bool-cases, length, or_else, head?,
}
use terminal_workspace.Common.Dict.{count, includes, includes-count, keys, lookup}
use terminal_workspace.Sessions.Types.{SessionPane, SessionTab}
use terminal_workspace.Sessions.Tabs.{find_tab, update_tab, drop_tab}
use terminal_workspace.Sessions.Store.{among, not_among, keep_panes, panes_of_host}
use terminal_workspace.Sessions.Counts.{tab_ids, ShowsActive}
use terminal_workspace.Sessions.Updates.{update_tab_absent}

module _ (closing : List Text) where
  pub length-among :
      (xs : List Text) → length (among closing xs) + length (not_among closing xs) ≡ length xs
  unfolding among not_among
  length-among [] = refl
  length-among (x ∷ xs) = ground (arith, length-among xs)

  pub count-not_among :
      (p : Text) (xs : List Text)
      → count p (not_among closing xs) ≡ (if includes p closing then 0 else count p xs)
  unfolding not_among count
  count-not_among p [] = ground arith
  count-not_among p (x ∷ xs) = ground (arith, ===_iff x p, count-not_among p xs)

  pub count-none_among :
      (p : Text) (xs : List Text)
      → length (among closing xs) ≡ 0
      → includes p closing ≡ true
      → count p xs ≡ 0
  unfolding among count
  count-none_among p [] h c = refl
  count-none_among p (x ∷ xs) h c = ground (arith, ===_iff x p, count-none_among p xs)

  pub count-all_among :
      (p : Text) (xs : List Text)
      → length (among closing xs) ≡ length xs
      → includes p closing ≡ false
      → count p xs ≡ 0
  unfolding among not_among count
  count-all_among p [] h c = refl
  count-all_among p (x ∷ xs) h c =
      ground (arith, ===_iff x p, length-among xs, count-all_among p xs)

count-head : (xs : List Text) → 1 ≤ length xs → 1 ≤ count (or_else (head? xs) []) xs
unfolding count
count-head [] h = absurd (omega arith)
count-head (x ∷ xs) h = ground (arith, ===_refl x)

keep_panes-ShowsActive :
    (left : List Text) (t : SessionTab) → 1 ≤ length left → ShowsActive (keep_panes left t)
unfolding keep_panes
keep_panes-ShowsActive left t h = elim (Bool-cases (includes t.active_pane_id left)) [
  | inl there ↦ rw there (includes-count t.active_pane_id left there)
  | inr absent ↦ rw absent (count-head left h)
]

pub kept-ShowsActive :
    (closing : List Text) (t : SessionTab)
    → length (among closing t.pane_ids) ≢ length t.pane_ids
    → ShowsActive (keep_panes (not_among closing t.pane_ids) t)
kept-ShowsActive closing t some_left =
    keep_panes-ShowsActive (not_among closing t.pane_ids) t
      (omega (arith, length-among closing t.pane_ids))

-- An update of the tab that is there is a replacement of it.
pub update_tab-constant :
    (i : Text) (f : SessionTab → SessionTab) (t : SessionTab) (ts : List SessionTab)
    → find_tab i ts ≡ some t
    → count i (tab_ids ts) ≤ 1
    → update_tab i f ts ≡ update_tab i (λ _. f t) ts
unfolding find_tab update_tab tab_ids count
update_tab-constant i f t [] h d = cc
update_tab-constant i f t (v ∷ ts) h d = elim (Bool-cases (v.id === i)) [
  | inl same ↦
      let e : v ≡ t = ground arith in
      let absent = update_tab_absent i f ts (ground arith) in
      let absent' = update_tab_absent i (λ _. f t) ts (ground arith) in
      rw same (cc (absent, absent', ap f e))
  | inr other ↦ rw other (cc (update_tab-constant i f t ts (rw other at h) (ground arith)))
]

pub find_tab-drop_tab :
    (i j : Text) (ts : List SessionTab)
    → (i === j) ≡ false
    → find_tab j (drop_tab i ts) ≡ find_tab j ts
unfolding find_tab drop_tab
find_tab-drop_tab i j [] h = refl
find_tab-drop_tab i j (t ∷ ts) h =
    ground (arith, ===_iff t.id i, ===_iff t.id j, ===_iff i j, find_tab-drop_tab i j ts)

pub find_tab-update_tab_ne :
    (i j : Text) (u : SessionTab) (ts : List SessionTab)
    → u.id ≡ i
    → (i === j) ≡ false
    → find_tab j (update_tab i (λ _. u) ts) ≡ find_tab j ts
unfolding find_tab update_tab
find_tab-update_tab_ne i j u [] same h = refl
find_tab-update_tab_ne i j u (t ∷ ts) same h = ground (
  arith,
  ===_iff t.id i,
  ===_iff t.id j,
  ===_iff u.id j,
  ===_iff i j,
  find_tab-update_tab_ne i j u ts same,
)

module _ (h : Text) where
  includes-panes_of_host :
      (p : Text) (m : List (Text × SessionPane))
      → All (λ (e : Text × SessionPane). e.1.id ≡ e.0) m
      → includes p (panes_of_host h m) ≡ true
      → 1 ≤ count p (keys m)
  unfolding includes panes_of_host keys count
  includes-panes_of_host p [] named inside = cc
  includes-panes_of_host p ((k, q) ∷ m) (same, named) inside =
      ground (arith, includes-panes_of_host p m named)

  -- The listed panes are those whose host it is.
  pub panes_of_host-lookup :
      (p : Text) (q : SessionPane) (m : List (Text × SessionPane))
      → All (λ (e : Text × SessionPane). e.1.id ≡ e.0) m
      → ((j : Text) → count j (keys m) ≤ 1)
      → lookup p m ≡ some q
      → includes p (panes_of_host h m) ≡ (q.host_id === h)
  unfolding includes panes_of_host keys count lookup
  panes_of_host-lookup p q [] named distinct found = cc
  panes_of_host-lookup p q ((k, r) ∷ m) (same, named) distinct found = elim (Bool-cases (k === p)) [
    | inl here ↦
        let e : r ≡ q = ground arith in
        let none_later : includes p (panes_of_host h m) ≡ false =
          elim (Bool-cases (includes p (panes_of_host h m))) [
            | inl inside ↦
                absurd (ground (arith, distinct p, includes-panes_of_host p m named inside))
            | inr outside ↦ outside
          ] in
        ground arith
    | inr there ↦
        let later =
          panes_of_host-lookup p q m named (λ j. ground (arith, distinct j)) (rw there at found) in
        ground arith
  ]
