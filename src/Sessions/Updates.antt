-- ===== src/Sessions/Updates.antt =====
-- How `update_tab` and `drop_tab` of the session workspace change the counts of ids.
use terminal_workspace.Common.{
  ◌+◌, ◌≤◌, ◌≡◌, refl, ap, some, List, [], ◌∷◌, inl, inr, if◌then◌else◌, Text, ◌===◌, ===_iff, All,
  arith, Bool-cases,
}
use terminal_workspace.Common.Dict.{count, count-append}
use terminal_workspace.Sessions.Types.{SessionTab}
use terminal_workspace.Sessions.Tabs.{find_tab, update_tab, drop_tab}
use terminal_workspace.Sessions.Counts.{tab_ids, owned_ids}

pub tab_ids-update_tab :
    (i : Text) (f : SessionTab → SessionTab) (ts : List SessionTab)
    → ((t : SessionTab) → t.id ≡ i → (f t).id ≡ i)
    → tab_ids (update_tab i f ts) ≡ tab_ids ts
unfolding tab_ids update_tab
tab_ids-update_tab i f [] keeps = refl
tab_ids-update_tab i f (t ∷ ts) keeps = elim (Bool-cases (t.id === i)) [
  | inl same ↦
      let e : t.id ≡ i = (===_iff t.id i).0 same in
      rw same (cc (tab_ids-update_tab i f ts keeps, keeps t e, e))
  | inr other ↦ rw other (cc (tab_ids-update_tab i f ts keeps))
]

pub owned_ids-update_tab :
    (i : Text) (f : SessionTab → SessionTab) (ts : List SessionTab)
    → ((t : SessionTab) → (f t).pane_ids ≡ t.pane_ids)
    → owned_ids (update_tab i f ts) ≡ owned_ids ts
unfolding owned_ids update_tab
owned_ids-update_tab i f [] keeps = refl
owned_ids-update_tab i f (t ∷ ts) keeps = elim (Bool-cases (t.id === i)) [
  | inl same ↦ rw same (cc (owned_ids-update_tab i f ts keeps, keeps t))
  | inr other ↦ rw other (cc (owned_ids-update_tab i f ts keeps))
]

pub update_tab-All {κ} :
    (P : SessionTab → Type κ) (i : Text) (f : SessionTab → SessionTab) (ts : List SessionTab)
    → ((t : SessionTab) → P t → P (f t))
    → All P ts
    → All P (update_tab i f ts)
unfolding update_tab
update_tab-All P i f [] keeps a = tt
update_tab-All P i f (t ∷ ts) keeps a = elim (Bool-cases (t.id === i)) [
  | inl same ↦ rw same (keeps t a.0, update_tab-All P i f ts keeps a.1)
  | inr other ↦ rw other (a.0, update_tab-All P i f ts keeps a.1)
]

-- A tab that is not there is not updated.
pub update_tab_absent :
    (i : Text) (f : SessionTab → SessionTab) (ts : List SessionTab)
    → count i (tab_ids ts) ≡ 0
    → update_tab i f ts ≡ ts
unfolding update_tab tab_ids count
update_tab_absent i f [] h = refl
update_tab_absent i f (t ∷ ts) h = ground (arith, update_tab_absent i f ts)

pub drop_tab_absent :
    (i : Text) (ts : List SessionTab) → count i (tab_ids ts) ≡ 0 → drop_tab i ts ≡ ts
unfolding drop_tab tab_ids count
drop_tab_absent i [] h = refl
drop_tab_absent i (t ∷ ts) h = ground (arith, drop_tab_absent i ts)

-- The tab that `find_tab` returns is the one that a constant update replaces.
pub count-owned_ids-update_tab :
    (p i : Text) (t u : SessionTab) (ts : List SessionTab)
    → find_tab i ts ≡ some t
    → count i (tab_ids ts) ≤ 1
    → count p (owned_ids (update_tab i (λ _. u) ts)) + count p t.pane_ids
      ≡ count p (owned_ids ts) + count p u.pane_ids
unfolding find_tab owned_ids update_tab tab_ids count
count-owned_ids-update_tab p i t u [] h d = cc
count-owned_ids-update_tab p i t u (v ∷ ts) h d = elim (Bool-cases (v.id === i)) [
  | inl same ↦
      let e : v ≡ t = ground arith in
      let absent = update_tab_absent i (λ _. u) ts (ground arith) in
      rw (same, absent)
        (omega (
          arith,
          count-append p u.pane_ids (owned_ids ts),
          count-append p v.pane_ids (owned_ids ts),
          ap (λ (w : SessionTab). count p w.pane_ids) e,
        ))
  | inr other ↦
      let later = count-owned_ids-update_tab p i t u ts (rw other at h) (ground arith) in
      rw other (
        omega (
          arith,
          later,
          count-append p v.pane_ids (owned_ids (update_tab i (λ _. u) ts)),
          count-append p v.pane_ids (owned_ids ts),
        ))
]

pub count-owned_ids-drop_tab :
    (p i : Text) (t : SessionTab) (ts : List SessionTab)
    → find_tab i ts ≡ some t
    → count i (tab_ids ts) ≤ 1
    → count p (owned_ids (drop_tab i ts)) + count p t.pane_ids ≡ count p (owned_ids ts)
unfolding find_tab owned_ids drop_tab tab_ids count
count-owned_ids-drop_tab p i t [] h d = cc
count-owned_ids-drop_tab p i t (v ∷ ts) h d = elim (Bool-cases (v.id === i)) [
  | inl same ↦
      let e : v ≡ t = ground arith in
      let absent = drop_tab_absent i ts (ground arith) in
      rw (same, absent)
        (omega (
          arith,
          count-append p v.pane_ids (owned_ids ts),
          ap (λ (w : SessionTab). count p w.pane_ids) e,
        ))
  | inr other ↦
      let later = count-owned_ids-drop_tab p i t ts (rw other at h) (ground arith) in
      rw other (
        omega (
          arith,
          later,
          count-append p v.pane_ids (owned_ids (drop_tab i ts)),
          count-append p v.pane_ids (owned_ids ts),
        ))
]

pub count-tab_ids-drop_tab :
    (j i : Text) (ts : List SessionTab)
    → count j (tab_ids (drop_tab i ts)) ≡ (if i === j then 0 else count j (tab_ids ts))
unfolding drop_tab tab_ids count
count-tab_ids-drop_tab j i [] = ground arith
count-tab_ids-drop_tab j i (t ∷ ts) =
    ground (arith, ===_iff t.id i, ===_iff t.id j, ===_iff i j, count-tab_ids-drop_tab j i ts)

pub drop_tab-All {κ} :
    (P : SessionTab → Type κ) (i : Text) (ts : List SessionTab) → All P ts → All P (drop_tab i ts)
unfolding drop_tab
drop_tab-All P i [] a = tt
drop_tab-All P i (t ∷ ts) a = elim (Bool-cases (t.id === i)) [
  | inl same ↦ rw same (drop_tab-All P i ts a.1)
  | inr other ↦ rw other (a.0, drop_tab-All P i ts a.1)
]

-- What a tab shows is among what the tabs show.
pub find_tab-owned_ids :
    (p i : Text) (t : SessionTab) (ts : List SessionTab)
    → find_tab i ts ≡ some t
    → count p t.pane_ids ≤ count p (owned_ids ts)
unfolding find_tab owned_ids
find_tab-owned_ids p i t [] h = cc
find_tab-owned_ids p i t (v ∷ ts) h = elim (Bool-cases (v.id === i)) [
  | inl same ↦
      let e : v ≡ t = ground arith in
      omega (
        arith,
        count-append p v.pane_ids (owned_ids ts),
        ap (λ (w : SessionTab). count p w.pane_ids) e,
      )
  | inr other ↦
      omega (
        arith,
        count-append p v.pane_ids (owned_ids ts),
        find_tab-owned_ids p i t ts (rw other at h),
      )
]
