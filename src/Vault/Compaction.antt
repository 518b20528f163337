-- ===== src/Vault/Compaction.antt =====
-- `compactDeletionEntries` of apps/desktop/src/store/vault-sync-store.ts: what is kept, and that
-- compacting again changes nothing.
use terminal_workspace.Common.{
  ℕ, zero, suc, ◌+◌, ◌≤◌, ◌≡◌, ◌∙◌, ◌⊎◌, refl, sym, ap, Bool, true, false, Option, some, List, [],
  ◌∷◌, ◌++◌, inl, inr, Text, ◌===◌, ===_iff, take, length, length-take-le, All, All-take,
  All-weaken, Bool-cases, Option-cases, arith,
}
use mathlib.Core.List.{append_assoc, append-nil}
use terminal_workspace.Common.Int.{ℤ}
use terminal_workspace.Common.Dict.{
  count, lookup, insert, keys, values, count-keys-insert, lookup-count,
}
use terminal_workspace.Common.Order.{
  text_ltb, sort_by, IsOrdered, sort_by-IsOrdered, sort_by-ordered, sort_by-All, count-sort_by,
}
use terminal_workspace.Vault.Deletions.{
  VaultDeletionEntry, tombstone_max_entries, supersedes, keep_latest, is_live, latest_by_id,
  newest_first, sort_deletion_entries, compact_deletion_entries,
}
use terminal_workspace.Vault.Gather.{
  ids, Entries, IsIndex, Covers, gather, gather-IsIndex, gather-Covers, values-found, ids-values,
}

pub take-cases {ℓ} :
    {A : Type ℓ} (n : ℕ) (xs : List A) → (take n xs ≡ xs) ⊎ (length (take n xs) ≡ n)
take-cases zero [] = inl refl
take-cases zero (x ∷ xs) = inr refl
take-cases (suc n) [] = inl refl
take-cases (suc n) (x ∷ xs) = elim (take-cases n xs) [
  | inl whole ↦ inl (ap (λ ys. x ∷ ys) whole)
  | inr full ↦ inr (ap suc full)
]

take-few {ℓ} : {A : Type ℓ} (n : ℕ) (xs : List A) → length xs ≤ n → take n xs ≡ xs
take-few zero [] h = refl
take-few zero (x ∷ xs) h = ground (arith, h)
take-few (suc n) [] h = refl
take-few (suc n) (x ∷ xs) h = ap (λ ys. x ∷ ys) (take-few n xs (omega (arith, h)))

count-take :
    (p : Text) (n : ℕ) (es : List VaultDeletionEntry) → count p (ids (take n es)) ≤ count p (ids es)
unfolding count
count-take p zero es = omega arith
count-take p (suc n) [] = omega arith
count-take p (suc n) (e ∷ es) = omega (arith, count-take p n es)

IsOrdered-take :
    (le : VaultDeletionEntry → VaultDeletionEntry → Bool) (n : ℕ) (es : List VaultDeletionEntry)
    → IsOrdered le es
    → IsOrdered le (take n es)
IsOrdered-take le zero es h = tt
IsOrdered-take le (suc n) [] h = tt
IsOrdered-take le (suc zero) (e ∷ []) h = tt
IsOrdered-take le (suc (suc n)) (e ∷ []) h = tt
IsOrdered-take le (suc zero) (e ∷ f ∷ es) h = tt
IsOrdered-take le (suc (suc n)) (e ∷ f ∷ es) h = (h.0, IsOrdered-take le (suc n) (f ∷ es) h.1)

pub All-trivial :
    {P : VaultDeletionEntry → Type 0} (es : List VaultDeletionEntry)
    → ((e : VaultDeletionEntry) → P e)
    → All P es
All-trivial [] f = tt
All-trivial (e ∷ es) f = (f e, All-trivial es f)

-- A list has the tombstone of an id, and it is not earlier than the given one.
abbrev pub IsKept : List VaultDeletionEntry → VaultDeletionEntry → Type 0
IsKept es e = All (λ x. x.id ≡ e.id → text_ltb x.deleted_at e.deleted_at ≡ false) es

pub count-sorted :
    (collate : Text → Text → Bool) (P : VaultDeletionEntry → Type 0) (p : Text) (m : Entries)
    → IsIndex P m
    → count p (ids (sort_by (newest_first collate) (values m))) ≡ count p (keys m)
count-sorted collate P p m index =
    count-sort_by (newest_first collate) (λ (e : VaultDeletionEntry). e.id) p (values m)
    ∙ ap (count p) (ids-values P m index.entries)

-- What an index covers, its sorted values keep.
pub found-IsKept :
    (collate : Text → Text → Bool) (P : VaultDeletionEntry → Type 0) (e : VaultDeletionEntry)
    (m : Entries)
    → IsIndex P m
    → Covers m e
    → IsKept (sort_by (newest_first collate) (values m)) e
      × (1 ≤ count e.id (ids (sort_by (newest_first collate) (values m))))
found-IsKept collate P e m index (x, found, later) = (
  sort_by-All _ _ _ (
      All-weaken _ _ (values m)
        (λ y held same.
          let here : some y ≡ some x = sym held.0 ∙ ap (λ i. lookup i m) same ∙ found in
          ground (arith, here, later))
        (values-found P m index)),
  omega (arith, count-sorted collate P e.id m index, lookup-count e.id m x found),
)

module _ (collate : Text → Text → Bool) (date_parse : Text → Option ℤ) (now : ℕ) where
  -- A list that compaction leaves alone.
  pub record IsCompact (es : List VaultDeletionEntry) : Type 0 where
    pub few : length es ≤ tombstone_max_entries
    pub once : (p : Text) → count p (ids es) ≤ 1
    pub live : All (λ e. is_live collate date_parse now e ≡ true) es
    pub ordered : IsOrdered (newest_first collate) es

  latest_by_id-gather :
      (es : List VaultDeletionEntry) (m : Entries)
      → latest_by_id collate date_parse now es m ≡ gather (is_live collate date_parse now) es m
  unfolding latest_by_id gather
  latest_by_id-gather [] m = refl
  latest_by_id-gather (e ∷ es) m = latest_by_id-gather es _

  live_by_id : List VaultDeletionEntry → Entries
  live_by_id es = gather (is_live collate date_parse now) es []

  live_by_id-IsIndex :
      (es : List VaultDeletionEntry)
      → IsIndex (λ e. is_live collate date_parse now e ≡ true) (live_by_id es)
  unfolding live_by_id count keys
  live_by_id-IsIndex es =
      gather-IsIndex (is_live collate date_parse now) _ es [] (All-trivial es (λ e h. h))
        record { entries = tt; distinct = λ p. omega arith }

  compact_deletion_entries-gather :
      (es : List VaultDeletionEntry)
      → compact_deletion_entries collate date_parse now es
        ≡ take tombstone_max_entries (sort_by (newest_first collate) (values (live_by_id es)))
  unfolding compact_deletion_entries sort_deletion_entries live_by_id
  compact_deletion_entries-gather es = rw (latest_by_id-gather es []) refl

  sorted : List VaultDeletionEntry → List VaultDeletionEntry
  sorted es = sort_by (newest_first collate) (values (live_by_id es))

  -- What holds of all given tombstones holds of all that are kept.
  pub compact_deletion_entries-All :
      (P : VaultDeletionEntry → Type 0) (es : List VaultDeletionEntry)
      → All P es
      → All P (compact_deletion_entries collate date_parse now es)
  unfolding count keys
  compact_deletion_entries-All P es all = rw (compact_deletion_entries-gather es) (
      All-take P tombstone_max_entries _ (
        sort_by-All _ P _
          (All-weaken _ _ _ (λ x found. found.1) (values-found P (live_by_id es) index))))
    where
      index : IsIndex P (live_by_id es)
      index =
          unfold live_by_id in
          gather-IsIndex (is_live collate date_parse now) P es []
            (All-weaken P _ es (λ e p live. p) all)
            record { entries = tt; distinct = λ p. omega arith }

  -- Compaction gives at most 256 tombstones, one for each id, none of them expired, the newest first.
  pub compact_deletion_entries-IsCompact :
      (es : List VaultDeletionEntry)
      → ((a b : Text) → collate a b ≡ false → collate b a ≡ true)
      → IsCompact (compact_deletion_entries collate date_parse now es)
  unfolding sorted
  compact_deletion_entries-IsCompact es total = rw (compact_deletion_entries-gather es) record {
    few = length-take-le tombstone_max_entries _;
    once = λ p. omega (
      arith,
      count-take p tombstone_max_entries (sorted es),
      count-sorted collate _ p (live_by_id es) (live_by_id-IsIndex es),
      (live_by_id-IsIndex es).distinct p,
    );
    live = All-take _ tombstone_max_entries _ (
        sort_by-All _ _ _ (
          All-weaken _ _ _ (λ x found. found.1)
            (values-found _ (live_by_id es) (live_by_id-IsIndex es))));
    ordered =
        IsOrdered-take _ tombstone_max_entries _
          (sort_by-IsOrdered _ _ (λ a b h. total b.deleted_at a.deleted_at h));
  }

  values-insert :
      (e : VaultDeletionEntry) (m : Entries)
      → count e.id (keys m) ≡ 0
      → values (insert e.id e m) ≡ values m ++ e ∷ []
  unfolding values insert keys count
  values-insert e [] h = refl
  values-insert e ((j, f) ∷ m) h = elim (Bool-cases (j === e.id)) [
    | inl same ↦ ground (arith, h, same)
    | inr other ↦ rw other (ap (λ es. f ∷ es) (values-insert e m (omega (arith, rw other at h))))
  ]

  -- Entries that are live and new are appended as they come.
  gather-new :
      (es : List VaultDeletionEntry) (m : Entries)
      → All (λ e. is_live collate date_parse now e ≡ true) es
      → ((p : Text) → count p (keys m) + count p (ids es) ≤ 1)
      → values (gather (is_live collate date_parse now) es m) ≡ values m ++ es
  unfolding gather keep_latest count supersedes
  gather-new [] m live once = sym (append-nil (values m))
  gather-new (e ∷ es) m live once =
      let new : count e.id (keys m) ≡ 0 = ground (arith, once e.id, ===_iff e.id e.id) in
      elim (Option-cases (lookup e.id m)) [
        | inr (x, found) ↦ ground (arith, new, lookup-count e.id m x found)
        | inl missing ↦
            rw (live.0, missing)
              (gather-new es (insert e.id e m) live.1
                  (λ p. ground (arith, once p, new, count-keys-insert p e.id e m, ===_iff e.id p))
                ∙ ap (λ xs. xs ++ es) (values-insert e m new)
                ∙ append_assoc (values m) (e ∷ []) es)
      ]

  compact_deletion_entries-fixed :
      (es : List VaultDeletionEntry)
      → IsCompact es
      → compact_deletion_entries collate date_parse now es ≡ es
  unfolding live_by_id keys count values
  compact_deletion_entries-fixed es c =
      compact_deletion_entries-gather es
      ∙ ap (λ xs. take tombstone_max_entries (sort_by (newest_first collate) xs))
          (gather-new es [] c.live (λ p. omega (arith, c.once p)))
      ∙ ap (take tombstone_max_entries) (sort_by-ordered (newest_first collate) es c.ordered)
      ∙ take-few tombstone_max_entries es c.few

  -- Compacting what was compacted at the same time changes nothing.
  pub compact_deletion_entries-compact_deletion_entries :
      (es : List VaultDeletionEntry)
      → ((a b : Text) → collate a b ≡ false → collate b a ≡ true)
      → compact_deletion_entries collate date_parse now
          (compact_deletion_entries collate date_parse now es)
        ≡ compact_deletion_entries collate date_parse now es
  compact_deletion_entries-compact_deletion_entries es total =
      compact_deletion_entries-fixed _ (compact_deletion_entries-IsCompact es total)

  -- Of the tombstones that are not expired, compaction keeps none that is earlier than another of its
  -- id, and one for each id unless it keeps 256.
  pub compact_deletion_entries-IsKept :
      (es : List VaultDeletionEntry)
      → All
          (λ e.
            is_live collate date_parse now e ≡ true
            → IsKept (compact_deletion_entries collate date_parse now es) e
              × ((1 ≤ count e.id (ids (compact_deletion_entries collate date_parse now es)))
                  ⊎ (length (compact_deletion_entries collate date_parse now es)
                      ≡ tombstone_max_entries)))
          es
  unfolding live_by_id sorted
  compact_deletion_entries-IsKept es = rw (compact_deletion_entries-gather es) (
      All-weaken _ _ es
        (λ e covered live.
          let kept =
            found-IsKept collate _ e (live_by_id es) (live_by_id-IsIndex es) (covered live) in
          (
            All-take _ tombstone_max_entries (sorted es) kept.0,
            elim (take-cases tombstone_max_entries (sorted es)) [
              | inl whole ↦ inl (rw whole kept.1)
              | inr full ↦ inr full
            ],
          ))
        (gather-Covers (is_live collate date_parse now) es []))
