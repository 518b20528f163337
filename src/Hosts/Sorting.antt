-- ===== src/Hosts/Sorting.antt =====
-- What `sortHostCollection` of apps/desktop/src/store/hosts-store.ts keeps.
use terminal_workspace.Common.{◌≡◌, ◌∙◌, refl, List, [], ◌∷◌, Bool, map, Text, All}
use mathlib.Core.Path.{subst}
use mathlib.Core.List.{Perm}
use terminal_workspace.Common.Dict.{count}
use terminal_workspace.Common.Order.{sort_by-All, sort_by-Perm, count-sort_by}
use terminal_workspace.Hosts.Types.{HostRecord}
use terminal_workspace.Hosts.Normal.{normalize_host_record, sort_host_collection, host_before}
use terminal_workspace.Hosts.NormalLaws.{normalize_host_record-normalize_host_record}

module _ (to_lower_case : Text → Text) (collate : Text → Text → Bool) where
  -- What sorting gives are the hosts in their normal form.
  pub sort_host_collection-All :
      (P Q : HostRecord → Type 0) (hs : List HostRecord)
      → ((h : HostRecord) → P h → Q (normalize_host_record to_lower_case h))
      → All P hs
      → All Q (sort_host_collection to_lower_case collate hs)
  unfolding sort_host_collection
  sort_host_collection-All P Q hs f a =
      sort_by-All _ _ (map (normalize_host_record to_lower_case) hs) (each hs a)
    where
      each :
          (gs : List HostRecord) → All P gs → All Q (map (normalize_host_record to_lower_case) gs)
      each [] b = tt
      each (g ∷ gs) b = (f g b.0, each gs b.1)

  -- Sorting hosts that a change leaves in their normal form only reorders them.
  pub changed-Perm :
      (change : HostRecord → HostRecord) (hs : List HostRecord)
      → ((h : HostRecord)
          → normalize_host_record to_lower_case h ≡ h
          → normalize_host_record to_lower_case (change h) ≡ change h)
      → All (λ h. normalize_host_record to_lower_case h ≡ h) hs
      → Perm (sort_host_collection to_lower_case collate (map change hs)) (map change hs)
  unfolding sort_host_collection
  changed-Perm change hs keeps normal =
      subst (Perm (sort_host_collection to_lower_case collate (map change hs))) (each hs normal) (
        sort_by-Perm (host_before to_lower_case collate)
          (map (normalize_host_record to_lower_case) (map change hs)))
    where
      each :
          (gs : List HostRecord)
          → All (λ h. normalize_host_record to_lower_case h ≡ h) gs
          → map (normalize_host_record to_lower_case) (map change gs) ≡ map change gs
      each [] a = refl
      each (g ∷ gs) a = cc (keeps g a.0, each gs a.1)

  pub sorted-IsNormal :
      (hs : List HostRecord)
      → All
          (λ h. normalize_host_record to_lower_case h ≡ h)
          (sort_host_collection to_lower_case collate hs)
  unfolding sort_host_collection
  sorted-IsNormal hs = sort_by-All _ _ (map (normalize_host_record to_lower_case) hs) (each hs)
    where
      each :
          (gs : List HostRecord)
          → All
              (λ h. normalize_host_record to_lower_case h ≡ h)
              (map (normalize_host_record to_lower_case) gs)
      each [] = tt
      each (g ∷ gs) = (normalize_host_record-normalize_host_record to_lower_case g, each gs)

  -- Sorting keeps a text that normalizing keeps.
  pub count-sort_host_collection :
      (f : HostRecord → Text)
      → ((h : HostRecord) → f (normalize_host_record to_lower_case h) ≡ f h)
      → (p : Text) (hs : List HostRecord)
      → count p (map f (sort_host_collection to_lower_case collate hs)) ≡ count p (map f hs)
  unfolding sort_host_collection count
  count-sort_host_collection f same p hs =
      count-sort_by (host_before to_lower_case collate) f p
        (map (normalize_host_record to_lower_case) hs)
      ∙ each hs
    where
      each :
          (gs : List HostRecord)
          → count p (map f (map (normalize_host_record to_lower_case) gs)) ≡ count p (map f gs)
      each [] = refl
      each (g ∷ gs) = rw (same g, each gs) refl
