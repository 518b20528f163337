-- ===== src/Sessions/CycleLaws.antt =====
-- `cycleSessionTab`, `reorderSessionTabs` and `setTabSplitRatio` of
-- apps/desktop/src/store/sessions-store.ts: going there and back, and the bounds of the ratio.
use native.Mathlib.Nat.{mod-eq_of_lt}
use terminal_workspace.Common.{
  ℕ, zero, suc, ◌+◌, ◌-◌, ◌%◌, ◌≤◌, ◌<◌, ◌≡◌, refl, sym, ◌∙◌, ap, false, Option, none, some, List,
  [], ◌∷◌, inl, inr, if◌then◌else◌, Text, ◌===◌, ===_iff, ===_refl, arith, Bool-cases, length, ltb,
  leb, ◌==◌, get_elem?,
}
use terminal_workspace.Common.Int.{pos}
use terminal_workspace.Common.Dict.{count}
use terminal_workspace.Sessions.Types.{SessionTab, SessionWorkspaceState}
use terminal_workspace.Sessions.Tabs.{
  is_id, find_index, CycleDirection, forward, backward, next_index, tab_id_at, cycle_session_tab,
  move_tab, reorder_session_tabs,
}
use terminal_workspace.Sessions.Counts.{tab_ids, IsActive, IsValid}
use terminal_workspace.Sessions.Moves.{get_elem?-move_tab, length-move_tab, move_tab-move_tab}

abbrev pub opposite : CycleDirection → CycleDirection
opposite forward = backward
opposite backward = forward

next_index_forward :
    (k n : ℕ) → k < n → next_index forward k n ≡ (if ltb (k + 1) n then k + 1 else 0)
unfolding next_index
next_index_forward k n h = grind arith

mod_once : (j n : ℕ) → j < n → (j + n) % n ≡ j
mod_once j n h = grind arith

next_index_backward :
    (k n : ℕ) → k < n → next_index backward k n ≡ (if k == 0 then n - 1 else k - 1)
unfolding next_index
next_index_backward zero n h =
    let e : 0 + n - 1 ≡ n - 1 = omega arith in rw e (mod-eq_of_lt (omega arith))
next_index_backward (suc j) n h =
    let e : suc j + n - 1 ≡ j + n = omega arith in rw e (mod_once j n (omega arith) ∙ ground arith)

-- Both directions stay among the indices and undo one another.
next_index_back :
    (direction : CycleDirection) (k n : ℕ)
    → k < n
    → (next_index direction k n < n)
      × (next_index (opposite direction) (next_index direction k n) n ≡ k)
next_index_back forward k n h =
    let there = next_index_forward k n h in
    let inside : next_index forward k n < n = ground (arith, there) in
    (inside, ground (arith, there, next_index_backward (next_index forward k n) n inside))
next_index_back backward k n h =
    let there = next_index_backward k n h in
    let inside : next_index backward k n < n = ground (arith, there) in
    (inside, ground (arith, there, next_index_forward (next_index backward k n) n inside))

tab_id_at-some :
    (ts : List SessionTab) (k : ℕ) → k < length ts → (i : Text) × (tab_id_at ts k ≡ some i)
unfolding tab_id_at
tab_id_at-some [] k h = elim h [ ]
tab_id_at-some (t ∷ ts) zero h = (t.id, refl)
tab_id_at-some (t ∷ ts) (suc k) h = tab_id_at-some ts k (omega arith)

tab_id_at-count :
    (i : Text) (k : ℕ) (ts : List SessionTab) → tab_id_at ts k ≡ some i → 1 ≤ count i (tab_ids ts)
unfolding tab_id_at tab_ids count
tab_id_at-count i k [] h = cc
tab_id_at-count i zero (t ∷ ts) h = ground (arith, ===_refl i)
tab_id_at-count i (suc k) (t ∷ ts) h = omega (arith, tab_id_at-count i k ts h)

-- The index of an id that is there.
find_index-some :
    (i : Text) (ts : List SessionTab)
    → 1 ≤ count i (tab_ids ts)
    → (k : ℕ) × (find_index (some i) ts ≡ some k) × (k < length ts) × (tab_id_at ts k ≡ some i)
unfolding find_index is_id tab_id_at tab_ids count
find_index-some i [] h = absurd (omega arith)
find_index-some i (t ∷ ts) h = elim (Bool-cases (i === t.id)) [
  | inl here ↦ (0, rw here, omega arith, ap some (sym ((===_iff i t.id).0 here)))
  | inr there ↦
      let later = find_index-some i ts (ground (arith, ===_iff i t.id, ===_iff t.id i)) in
      let (k, found, inside, at) = later in (suc k, rw (there, found), omega arith, at)
]

-- With distinct ids, the index of the id at an index is that index.
find_index-tab_id_at :
    (i : Text) (k : ℕ) (ts : List SessionTab)
    → ((j : Text) → count j (tab_ids ts) ≤ 1)
    → tab_id_at ts k ≡ some i
    → find_index (some i) ts ≡ some k
unfolding find_index is_id tab_id_at tab_ids count
find_index-tab_id_at i k [] d h = cc
find_index-tab_id_at i zero (t ∷ ts) d h = ground (arith, ===_refl i)
find_index-tab_id_at i (suc k) (t ∷ ts) d h = ground (
  arith,
  ===_iff i t.id,
  ===_iff t.id i,
  d i,
  tab_id_at-count i k ts h,
  find_index-tab_id_at i k ts (λ j. ground (arith, d j)) h,
)

-- On a well-formed workspace, cycling in one direction and then in the other changes nothing.
pub cycle_session_tab-cycle_session_tab :
    (s : SessionWorkspaceState) (direction : CycleDirection)
    → IsValid s
    → cycle_session_tab (cycle_session_tab s direction) (opposite direction) ≡ s
unfolding cycle_session_tab
cycle_session_tab-cycle_session_tab s direction v = elim (Bool-cases (leb (length s.tabs) 1)) [
  | inl few ↦ rw (few, cycle_session_tab) (rw (few, cycle_session_tab))
  | inr more ↦ from_active s.active_tab_id refl v.active more
]
  where
    from_active :
        (o : Option Text)
        → s.active_tab_id ≡ o
        → IsActive o s.tabs
        → leb (length s.tabs) 1 ≡ false
        → cycle_session_tab (cycle_session_tab s direction) (opposite direction) ≡ s
    from_active none e a more = absurd (let short = ap length a in ground arith)
    from_active (some i) e a more =
        let (k, found, inside, at) = find_index-some i s.tabs a in
        let (inside', back) = next_index_back direction k (length s.tabs) inside in
        let n = next_index direction k (length s.tabs) in
        let (j, at') = tab_id_at-some s.tabs n inside' in
        let found' = find_index-tab_id_at j n s.tabs v.distinct_tabs at' in
        let once : cycle_session_tab s direction ≡ record s { active_tab_id = some j } =
          ground (arith, e, found, at') in
        let twice : cycle_session_tab (record s { active_tab_id = some j }) (opposite direction)
            ≡ record s { active_tab_id = some i } =
          ground (arith, found', back, at) in
        let same : record s { active_tab_id = some i } ≡ s = ground (arith, e) in
        ap (λ w. cycle_session_tab w (opposite direction)) once ∙ twice ∙ same

-- Moving a tab within the bounds puts it at the new place, and moving it back restores the state.
pub reorder_session_tabs-reorder_session_tabs :
    (s : SessionWorkspaceState) (m n : ℕ)
    → m < length s.tabs
    → n < length s.tabs
    → (get_elem? (reorder_session_tabs s (pos m) (pos n)).tabs n ≡ get_elem? s.tabs m)
      × (reorder_session_tabs (reorder_session_tabs s (pos m) (pos n)) (pos n) (pos m) ≡ s)
unfolding reorder_session_tabs
reorder_session_tabs-reorder_session_tabs s m n from to = elim (Bool-cases (m == n)) [
  | inl same ↦ ground (arith, from, to)
  | inr other ↦
      let moved : reorder_session_tabs s (pos m) (pos n) ≡ record s { tabs = move_tab m n s.tabs } =
        ground (arith, from, to) in
      let back : reorder_session_tabs (record s { tabs = move_tab m n s.tabs }) (pos n) (pos m)
          ≡ record s { tabs = move_tab n m (move_tab m n s.tabs) } =
        ground (arith, from, to, length-move_tab m n s.tabs from to) in
      (
        rw moved (get_elem?-move_tab m n s.tabs from to),
        ap (λ w. reorder_session_tabs w (pos n) (pos m)) moved
            ∙ back
            ∙ ap (λ ts. record s { tabs = ts }) (move_tab-move_tab m n s.tabs from to),
      )
]
