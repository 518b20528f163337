-- ===== src/Hosts/Groups.antt =====
-- Renaming and removing a group moves its hosts and no others (apps/desktop/src/store/hosts-store.ts).
use terminal_workspace.Common.{
  ℕ, ◌+◌, ◌≡◌, ◌∙◌, refl, ap, Bool, false, List, [], ◌∷◌, map, inl, inr, if◌then◌else◌, Text, ◌===◌,
  ===_iff, All, is_empty, trim, Bool-cases, arith,
}
use mathlib.Core.List.{Perm}
use terminal_workspace.Common.Dict.{count}
use terminal_workspace.Hosts.Types.{HostRecord}
use terminal_workspace.Connect.Build.{jump_host_of}
use terminal_workspace.Hosts.Normal.{normalize_host_record, normal_sftp_root}
use terminal_workspace.Hosts.Store.{
  HostsState, update_where, in_group, group_size, regrouped, rename_group, remove_group,
}
use terminal_workspace.Hosts.Sorting.{changed-Perm, count-sort_host_collection}

-- The host in the new group, if it is of the old one.
abbrev pub in_new_group : Text → Text → Text → HostRecord → HostRecord
in_new_group now old new h =
    if h.group === old then record h { group = new; updated_at = now } else h

-- `r` is `s` with the hosts of one group in another, in some order, and their number.
pub record IsMoved (now old new : Text) (s : HostsState) (r : HostsState × ℕ) : Type 0 where
  pub touched : r.1 ≡ group_size old s.hosts
  pub reordered : Perm r.0.hosts (map (in_new_group now old new) s.hosts)
  pub sizes :
      (g : Text)
      → group_size g r.0.hosts ≡ (
          if old === g
          then 0
          else group_size g s.hosts + (if new === g then group_size old s.hosts else 0))
  pub tombstones : r.0.deletions ≡ s.deletions

abbrev renamed : Text → Text → Text → Text
renamed old new g = if g === old then new else g

abbrev groups : List HostRecord → List Text
groups = map (λ (h : HostRecord). h.group)

count-renamed :
    (old new g : Text) (xs : List Text)
    → (old === new) ≡ false
    → count g (map (renamed old new) xs)
      ≡ (if old === g then 0 else count g xs + (if new === g then count old xs else 0))
unfolding count
count-renamed old new g [] apart = ground arith
count-renamed old new g (x ∷ xs) apart = ground (
  arith,
  apart,
  count-renamed old new g xs apart,
  ===_iff x old,
  ===_iff x g,
  ===_iff new g,
  ===_iff old g,
  ===_iff old new,
)

groups-update_where :
    (now old new : Text) (hs : List HostRecord)
    → groups (update_where (in_group old) (λ h. record h { group = new; updated_at = now }) hs)
      ≡ map (renamed old new) (groups hs)
unfolding update_where
groups-update_where now old new [] = refl
groups-update_where now old new (h ∷ hs) = elim (Bool-cases (h.group === old)) [
  | inl moves ↦ rw (moves, groups-update_where now old new hs) refl
  | inr stays ↦ rw (stays, groups-update_where now old new hs) refl
]

abbrev IsNormal : (Text → Text) → HostRecord → Type 0
IsNormal to_lower_case h = normalize_host_record to_lower_case h ≡ h

module _ (to_lower_case : Text → Text) (collate : Text → Text → Bool) where
  regrouped-size :
      (now old new : Text) (s : HostsState) (g : Text)
      → (old === new) ≡ false
      → group_size g (regrouped to_lower_case collate now old new s).0.hosts ≡ (
          if old === g
          then 0
          else group_size g s.hosts + (if new === g then group_size old s.hosts else 0))
  unfolding regrouped group_size normalize_host_record
  regrouped-size now old new s g apart =
      count-sort_host_collection to_lower_case collate (λ (h : HostRecord). h.group) (λ h. refl) g
        (update_where (in_group old) (λ h. record h { group = new; updated_at = now }) s.hosts)
      ∙ ap (count g) (groups-update_where now old new s.hosts)
      ∙ count-renamed old new g (groups s.hosts) apart

  -- A group and a time do not matter for the normal form.
  in_new_group-IsNormal :
      (now old new : Text) (h : HostRecord)
      → IsNormal to_lower_case h
      → IsNormal to_lower_case (in_new_group now old new h)
  unfolding normalize_host_record jump_host_of normal_sftp_root
  in_new_group-IsNormal now old new h normal = elim (Bool-cases (h.group === old)) [
    | inl moves ↦
        rw moves (ap (λ (g : HostRecord). record g { group = new; updated_at = now }) normal)
    | inr stays ↦ rw stays normal
  ]

  regrouped-Perm :
      (now old new : Text) (s : HostsState)
      → All (IsNormal to_lower_case) s.hosts
      → Perm
          (regrouped to_lower_case collate now old new s).0.hosts
          (map (in_new_group now old new) s.hosts)
  unfolding regrouped update_where
  regrouped-Perm now old new s normal =
      changed-Perm to_lower_case collate (in_new_group now old new) s.hosts
        (in_new_group-IsNormal now old new) normal

  regrouped-IsMoved :
      (now old new : Text) (s : HostsState)
      → (old === new) ≡ false
      → All (IsNormal to_lower_case) s.hosts
      → IsMoved now old new s (regrouped to_lower_case collate now old new s)
  unfolding regrouped
  regrouped-IsMoved now old new s apart normal = record {
    touched = refl;
    reordered = regrouped-Perm now old new s normal;
    sizes = λ g. regrouped-size now old new s g apart;
    tombstones = refl;
  }

  -- For an old name that is not blank, another new one and hosts in their normal form, renaming a group gives
  -- the hosts in some order, those of the old group with the new group and the time and else as they were, all
  -- others as they were, and returns how many were moved; removing it does so with the empty name.
  pub groups-IsMoved :
      (now old new : Text) (s : HostsState)
      → is_empty (trim old) ≡ false
      → (trim old === trim new) ≡ false
      → All (λ h. normalize_host_record to_lower_case h ≡ h) s.hosts
      → IsMoved now (trim old) (trim new) s (rename_group to_lower_case collate now old new s)
        × IsMoved now (trim old) [] s (remove_group to_lower_case collate now old s)
  unfolding rename_group remove_group ◌===◌
  groups-IsMoved now old new s given apart normal = (
    rw (rename_group, given, apart) (regrouped-IsMoved now (trim old) (trim new) s apart normal),
    rw (remove_group, given)
        (regrouped-IsMoved now (trim old) [] s (not_empty (trim old) given) normal),
  )
    where
      not_empty : (x : Text) → is_empty x ≡ false → (x === []) ≡ false
      not_empty [] h = cc
      not_empty (c ∷ x) h = refl
