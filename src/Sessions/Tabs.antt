-- ===== src/Sessions/Tabs.antt =====
-- The tab operations of apps/desktop/src/store/sessions-store.ts, from `openSessionWorkspace` to
-- `removeSessionPane` and from `setActiveSessionTab` to `reorderSessionTabs`.
use terminal_workspace.Common.{
  ℕ, zero, suc, ◌+◌, ◌-◌, ◌*◌, ◌%◌, ◌^◌, Bool, false, ◌||◌, Option, none, some, List, [], ◌∷◌, ◌++◌,
  if◌then◌else◌, leb, ◌==◌, Text, ◌===◌, length, take, drop, head?, get_elem?, or_else, or_option,
}
use terminal_workspace.Common.Dict.{insert, remove, remove_all, includes, without}
use terminal_workspace.Common.Int.{ℤ, pos, negsuc}
use terminal_workspace.Hosts.Types.{HostRecord}
use terminal_workspace.Sessions.Types.{
  SessionTab, SessionWorkspaceState, SplitDirection, JsNumber, finite, create_session_pane,
  create_session_tab,
}
use terminal_workspace.Sessions.Titles.{build_duplicate_session_title}

-- What one operation takes from outside: the time, and the ids that it draws.
pub record Draws : Type 0 where
  pub now : Text
  pub pane_id : Text
  pub tab_id : Text

-- `tabs.find((tab) => tab.id === id)`.
unfoldable pub find_tab : Text → List SessionTab → Option SessionTab
find_tab i [] = none
find_tab i (t ∷ ts) = if t.id === i then some t else find_tab i ts

-- `tabs.find((tab) => tab.hostId === id)`.
unfoldable pub find_host_tab : Text → List SessionTab → Option SessionTab
find_host_tab h [] = none
find_host_tab h (t ∷ ts) = if t.host_id === h then some t else find_host_tab h ts

-- `tabs.map((tab) => (tab.id === id ? f(tab) : tab))`.
unfoldable pub update_tab : Text → (SessionTab → SessionTab) → List SessionTab → List SessionTab
update_tab i f [] = []
update_tab i f (t ∷ ts) = (if t.id === i then f t else t) ∷ update_tab i f ts

-- `tabs.filter((tab) => tab.id !== id)`.
unfoldable pub drop_tab : Text → List SessionTab → List SessionTab
drop_tab i [] = []
drop_tab i (t ∷ ts) = let rest = drop_tab i ts in if t.id === i then rest else t ∷ rest

unfoldable pub last_tab_id : List SessionTab → Option Text
last_tab_id [] = none
last_tab_id (t ∷ []) = some t.id
last_tab_id (t ∷ u ∷ ts) = last_tab_id (u ∷ ts)

-- `x === id`, for an id that may be undefined.
unfoldable pub is_id : Option Text → Text → Bool
is_id none i = false
is_id (some j) i = j === i

unfoldable pub touch_tab : Text → SessionTab → SessionTab
touch_tab now t = record t { updated_at = now }

-- The workspace behind a new tab for a new pane.
unfoldable pub add_session :
    Draws → HostRecord → Text → SessionWorkspaceState → SessionWorkspaceState
add_session d host title s =
    let pane = create_session_pane d.now d.pane_id host title in
    let tab = create_session_tab d.now d.tab_id host pane title in
    record {
      tabs = s.tabs ++ tab ∷ [];
      panes = insert pane.id pane s.panes;
      active_tab_id = some tab.id;
      last_restored_at = some d.now;
    }

unfoldable pub open_session_workspace :
    Draws → SessionWorkspaceState → HostRecord → SessionWorkspaceState
unfolding find_host_tab update_tab touch_tab add_session
open_session_workspace d s host = elim (find_host_tab host.id s.tabs) [
  | some existing ↦ record s {
    active_tab_id = some existing.id;
    tabs = update_tab existing.id (touch_tab d.now) s.tabs;
  }
  | none ↦ add_session d host host.label s
]

-- `baseTitle` is the host's label where the caller gives none.
unfoldable pub duplicate_session_workspace :
    Draws → SessionWorkspaceState → HostRecord → Option Text → SessionWorkspaceState
unfolding build_duplicate_session_title add_session
duplicate_session_workspace d s host base =
    add_session d host (build_duplicate_session_title s.tabs (or_else base host.label)) s

unfoldable pub close_session_tab : SessionWorkspaceState → Text → SessionWorkspaceState
unfolding find_tab drop_tab last_tab_id is_id
close_session_tab s i = elim (find_tab i s.tabs) [
  | none ↦ s
  | some t ↦ record s {
    tabs = drop_tab i s.tabs;
    panes = remove_all t.pane_ids s.panes;
    active_tab_id =
        if is_id s.active_tab_id i then last_tab_id (drop_tab i s.tabs) else s.active_tab_id;
  }
]

unfoldable pub split_session_pane :
    Draws → SessionWorkspaceState → Text → HostRecord → SessionWorkspaceState
unfolding find_tab update_tab
split_session_pane d s i host = elim (find_tab i s.tabs) [
  | none ↦ s
  | some t ↦ record s {
    tabs =
        update_tab i
          (λ _. record t {
            pane_ids = t.pane_ids ++ d.pane_id ∷ [];
            active_pane_id = d.pane_id;
            updated_at = d.now;
          })
          s.tabs;
    panes = insert d.pane_id (create_session_pane d.now d.pane_id host host.label) s.panes;
    active_tab_id = some i;
  }
]

-- The tab without one of its panes; another pane becomes active if that one was.
unfoldable pub without_pane : Text → Text → SessionTab → SessionTab
without_pane now pane_id t = record t {
  pane_ids = without pane_id t.pane_ids;
  active_pane_id =
      if t.active_pane_id === pane_id
      then or_else (head? (without pane_id t.pane_ids)) []
      else t.active_pane_id;
  updated_at = now;
}

unfoldable pub remove_session_pane :
    Text → SessionWorkspaceState → Text → Text → SessionWorkspaceState
unfolding find_tab update_tab without_pane
remove_session_pane now s i pane_id = elim (find_tab i s.tabs) [
  | none ↦ s
  | some t ↦ if leb (length t.pane_ids) 1 then close_session_tab s i else record s {
    tabs = update_tab i (λ _. without_pane now pane_id t) s.tabs;
    panes = remove pane_id s.panes;
  }
]

unfoldable pub set_active_session_tab : SessionWorkspaceState → Text → SessionWorkspaceState
unfolding find_tab
set_active_session_tab s i = elim (find_tab i s.tabs) [
  | none ↦ s
  | some t ↦ record s { active_tab_id = some i }
]

-- `tabs.findIndex((tab) => tab.id === activeTabId)`, where `none` stands for -1.
unfoldable pub find_index : Option Text → List SessionTab → Option ℕ
unfolding is_id
find_index active [] = none
find_index active (t ∷ ts) =
    if is_id active t.id
    then some 0
    else elim (find_index active ts) [ none ↦ none | some i ↦ some (suc i) ]

pub data CycleDirection : Type 0 where
  forward backward : CycleDirection

-- `(startIndex + direction + length) % length`.
unfoldable pub next_index : CycleDirection → ℕ → ℕ → ℕ
next_index forward start len = (start + 1 + len) % len
next_index backward start len = (start + len - 1) % len

unfoldable pub tab_id_at : List SessionTab → ℕ → Option Text
tab_id_at [] i = none
tab_id_at (t ∷ ts) zero = some t.id
tab_id_at (t ∷ ts) (suc i) = tab_id_at ts i

unfoldable pub cycle_session_tab : SessionWorkspaceState → CycleDirection → SessionWorkspaceState
unfolding find_index next_index tab_id_at
cycle_session_tab s direction =
    if leb (length s.tabs) 1
    then s
    else (let start = or_else (find_index s.active_tab_id s.tabs) 0 in
        let next = next_index direction start (length s.tabs) in
        record s { active_tab_id = or_option (tab_id_at s.tabs next) s.active_tab_id })

unfoldable pub set_active_session_pane :
    Text → SessionWorkspaceState → Text → Text → SessionWorkspaceState
unfolding update_tab
set_active_session_pane now s i pane_id = record s {
  tabs =
      update_tab i
        (λ t.
          if includes pane_id t.pane_ids
          then record t { active_pane_id = pane_id; updated_at = now }
          else t)
        s.tabs;
}

unfoldable pub set_tab_split_direction :
    Text → SessionWorkspaceState → Text → SplitDirection → SessionWorkspaceState
unfolding update_tab
set_tab_split_direction now s i direction = record s {
  tabs = update_tab i (λ t. record t { split_direction = direction; updated_at = now }) s.tabs;
}

-- The doubles nearest to 0.1 and 0.9, in units of 2 ^ -1074.
unfoldable pub min_split_ratio : ℕ
min_split_ratio = 3602879701896397 * 2 ^ 1019

unfoldable pub max_split_ratio : ℕ
max_split_ratio = 8106479329266893 * 2 ^ 1021

-- `Math.min(MAX_SPLIT_RATIO, Math.max(MIN_SPLIT_RATIO, ratio))` on a finite ratio.
unfoldable pub clamp_ratio : ℤ → ℕ
clamp_ratio (negsuc n) = min_split_ratio
clamp_ratio (pos n) =
    if leb n min_split_ratio
    then min_split_ratio
    else if leb max_split_ratio n
    then max_split_ratio
    else n

unfoldable pub set_tab_split_ratio :
    Text → SessionWorkspaceState → Text → JsNumber → SessionWorkspaceState
unfolding update_tab clamp_ratio
set_tab_split_ratio now s i (finite ratio) = record s {
  tabs =
      update_tab i
        (λ t. record t { split_ratio = some (finite (pos (clamp_ratio ratio))); updated_at = now })
        s.tabs;
}
set_tab_split_ratio now s i _ = s

-- `next.splice(i, 1)` takes the tab at an index, and `next.splice(i, 0, moved)` puts it at one.
unfoldable pub splice_out {ℓ} : {A : Type ℓ} → ℕ → List A → List A
splice_out i xs = take i xs ++ drop (suc i) xs

unfoldable pub splice_in {ℓ} : {A : Type ℓ} → ℕ → A → List A → List A
splice_in i x xs = take i xs ++ x ∷ drop i xs

unfoldable pub move_tab {ℓ} : {A : Type ℓ} → ℕ → ℕ → List A → List A
unfolding splice_out splice_in
move_tab from to xs = elim (get_elem? xs from) [
  | none ↦ xs
  | some moved ↦ splice_in to moved (splice_out from xs)
]

unfoldable pub reorder_session_tabs : SessionWorkspaceState → ℤ → ℤ → SessionWorkspaceState
unfolding move_tab
reorder_session_tabs s (negsuc m) to = s
reorder_session_tabs s (pos m) (negsuc n) = s
reorder_session_tabs s (pos m) (pos n) =
    if (m == n) || (leb (length s.tabs) m || leb (length s.tabs) n)
    then s
    else record s { tabs = move_tab m n s.tabs }
