-- ===== src/Sessions/RatioLaws.antt =====
-- `setTabSplitRatio` of apps/desktop/src/store/sessions-store.ts: the ratio that a tab gets.
use terminal_workspace.Common.{
  ℕ, ◌≤◌, ◌≡◌, ◌⊎◌, refl, some, List, [], ◌∷◌, inl, inr, Text, ◌===◌, arith, Bool-cases, leb,
}
use terminal_workspace.Common.Int.{ℤ, pos, negsuc}
use terminal_workspace.Sessions.Types.{SessionTab, SessionWorkspaceState, finite}
use terminal_workspace.Sessions.Tabs.{
  find_tab, update_tab, min_split_ratio, max_split_ratio, clamp_ratio, set_tab_split_ratio,
}

min-le-max : min_split_ratio ≤ max_split_ratio
unfolding min_split_ratio max_split_ratio
min-le-max = omega arith

clamp_ratio_bounds : (r : ℤ) → (min_split_ratio ≤ clamp_ratio r) × (clamp_ratio r ≤ max_split_ratio)
unfolding clamp_ratio
clamp_ratio_bounds (pos n) = ground (arith, min-le-max)
clamp_ratio_bounds (negsuc n) = (omega arith, min-le-max)

-- The ratio is not above the least one, or not below the greatest one.
abbrev pub IsBelow : ℤ → Type 0
IsBelow (pos n) = n ≤ min_split_ratio
IsBelow (negsuc n) = Unit

abbrev pub IsAbove : ℤ → Type 0
IsAbove (pos n) = max_split_ratio ≤ n
IsAbove (negsuc n) = ⊥

clamp_ratio-cases :
    (r : ℤ)
    → (r ≡ pos (clamp_ratio r))
      ⊎ (IsBelow r × (clamp_ratio r ≡ min_split_ratio))
      ⊎ (IsAbove r × (clamp_ratio r ≡ max_split_ratio))
unfolding clamp_ratio
clamp_ratio-cases (negsuc n) = inr (inl (tt, refl))
clamp_ratio-cases (pos n) = elim (Bool-cases (leb n min_split_ratio)) [
  | inl low ↦ inr (inl (ground arith, rw low))
  | inr more ↦ elim (Bool-cases (leb max_split_ratio n)) [
    | inl high ↦ inr (inr (ground arith, rw (more, high)))
    | inr less ↦ inl (rw (more, less))
  ]
]

find_tab-update_tab :
    (i : Text) (f : SessionTab → SessionTab) (t : SessionTab) (ts : List SessionTab)
    → ((u : SessionTab) → (f u).id ≡ u.id)
    → find_tab i ts ≡ some t
    → find_tab i (update_tab i f ts) ≡ some (f t)
unfolding find_tab update_tab
find_tab-update_tab i f t [] same h = cc
find_tab-update_tab i f t (u ∷ us) same h = elim (Bool-cases (u.id === i)) [
  | inl here ↦ rw here (ground (arith, h, here, same u))
  | inr there ↦ rw (there, there) (find_tab-update_tab i f t us same (rw there at h))
]

-- The tab gets a ratio between 0.1 and 0.9: the given one, or the bound that the given one passes.
pub set_tab_split_ratio_bounds :
    (now i : Text) (s : SessionWorkspaceState) (t : SessionTab) (r : ℤ)
    → find_tab i s.tabs ≡ some t
    → (u : SessionTab) × (k : ℕ) × (find_tab i (set_tab_split_ratio now s i (finite r)).tabs
        ≡ some u)
      × (u.split_ratio ≡ some (finite (pos k)))
      × (min_split_ratio ≤ k)
      × (k ≤ max_split_ratio)
      × ((r ≡ pos k) ⊎ (IsBelow r × (k ≡ min_split_ratio)) ⊎ (IsAbove r × (k ≡ max_split_ratio)))
unfolding set_tab_split_ratio
set_tab_split_ratio_bounds now i s t r found = (
  record t { split_ratio = some (finite (pos (clamp_ratio r))); updated_at = now },
  clamp_ratio r,
  find_tab-update_tab i
      (λ t. record t { split_ratio = some (finite (pos (clamp_ratio r))); updated_at = now }) t
      s.tabs (λ u. refl) found,
  refl,
  (clamp_ratio_bounds r).0,
  (clamp_ratio_bounds r).1,
  clamp_ratio-cases r,
)
