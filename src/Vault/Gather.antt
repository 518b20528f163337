-- ===== src/Vault/Gather.antt =====
-- What the tombstones of apps/desktop/src/store/vault-sync-store.ts are after compaction, and what
-- merging two lists of them in apps/desktop/src/lib/local-config.ts keeps.
use terminal_workspace.Common.{
  ◌≤◌, ◌≡◌, ◌∙◌, refl, ap, Bool, true, false, some, List, [], ◌∷◌, map, inl, inr, if◌then◌else◌,
  Text, ◌===◌, ===_iff, All, All-weaken, Bool-cases, Option-cases, arith,
}
use terminal_workspace.Common.Dict.{
  count, lookup, keys, values, count-keys-insert, lookup-insert, lookup-count, All-insert,
}
use terminal_workspace.Common.Order.{text_ltb, text_ltb_irrefl, text_ltb_asym, text_ltb_trans}
use terminal_workspace.Vault.Deletions.{VaultDeletionEntry, supersedes, keep_latest}

abbrev pub ids : List VaultDeletionEntry → List Text
ids = map (λ (e : VaultDeletionEntry). e.id)

abbrev pub Entries : Type 0
Entries = List (Text × VaultDeletionEntry)

-- Each entry stands under its own id, and satisfies a predicate; no key occurs twice.
pub record IsIndex (P : VaultDeletionEntry → Type 0) (m : Entries) : Type 0 where
  pub entries : All (λ kv. (kv.0 ≡ kv.1.id) × P kv.1) m
  pub distinct : (p : Text) → count p (keys m) ≤ 1

keep_latest-IsIndex :
    (P : VaultDeletionEntry → Type 0) (e : VaultDeletionEntry) (m : Entries)
    → P e
    → IsIndex P m
    → IsIndex P (keep_latest e m)
unfolding keep_latest
keep_latest-IsIndex P e m p v = elim (Bool-cases (supersedes e (lookup e.id m))) [
  | inl newer ↦ rw newer (record {
    entries = All-insert _ e.id e m (λ j same. (same, p)) v.entries;
    distinct = λ q. ground (arith, v.distinct q, count-keys-insert q e.id e m, ===_iff e.id q);
  })
  | inr older ↦ rw older v
]

-- The entry that the map has for an id is not earlier than the given one.
abbrev pub Covers : Entries → VaultDeletionEntry → Type 0
Covers m e =
    (x : VaultDeletionEntry) × (lookup e.id m ≡ some x)
    × (text_ltb x.deleted_at e.deleted_at ≡ false)

keep_latest-Covers : (e : VaultDeletionEntry) (m : Entries) → Covers (keep_latest e m) e
unfolding keep_latest supersedes
keep_latest-Covers e m = elim (Option-cases (lookup e.id m)) [
  | inl missing ↦ rw missing (
    e,
    lookup-insert e.id e.id e m ∙ ground (arith, ===_iff e.id e.id),
    text_ltb_irrefl e.deleted_at,
  )
  | inr (x, found) ↦ elim (Bool-cases (text_ltb x.deleted_at e.deleted_at)) [
    | inl newer ↦
        rw (found, newer)
          (
            e,
            lookup-insert e.id e.id e m ∙ ground (arith, ===_iff e.id e.id),
            text_ltb_irrefl e.deleted_at,
          )
    | inr older ↦ rw (found, older) (x, found, older)
  ]
]

-- What the map covers, it still covers after another entry.
keep_latest-monotone :
    (e f : VaultDeletionEntry) (m : Entries) → Covers m f → Covers (keep_latest e m) f
unfolding keep_latest supersedes
keep_latest-monotone e f m (x, found, later) = elim (Bool-cases (e.id === f.id)) [
  | inr other ↦ elim (Bool-cases (supersedes e (lookup e.id m))) [
    | inl newer ↦ rw newer (x, lookup-insert e.id f.id e m ∙ rw other found, later)
    | inr older ↦ rw older (x, found, later)
  ]
  | inl same ↦
      let here : lookup e.id m ≡ some x =
        ap (λ i. lookup i m) ((===_iff e.id f.id).0 same) ∙ found in
      elim (Bool-cases (text_ltb x.deleted_at e.deleted_at)) [
        | inl newer ↦
            rw (here, newer)
              (
                e,
                lookup-insert e.id f.id e m ∙ rw same refl,
                text_ltb_trans e.deleted_at x.deleted_at f.deleted_at
                    (text_ltb_asym x.deleted_at e.deleted_at newer) later,
              )
        | inr older ↦ rw (here, older) (x, found, later)
      ]
]

-- Both loops of the source, by the test that admits an entry.
unfoldable pub gather : (VaultDeletionEntry → Bool) → List VaultDeletionEntry → Entries → Entries
unfolding keep_latest
gather admit [] m = m
gather admit (e ∷ es) m = gather admit es (if admit e then keep_latest e m else m)

module _ (admit : VaultDeletionEntry → Bool) where
  pub gather-IsIndex :
      (P : VaultDeletionEntry → Type 0) (es : List VaultDeletionEntry) (m : Entries)
      → All (λ e. admit e ≡ true → P e) es
      → IsIndex P m
      → IsIndex P (gather admit es m)
  unfolding gather
  gather-IsIndex P [] m a v = v
  gather-IsIndex P (e ∷ es) m a v = elim (Bool-cases (admit e)) [
    | inl admitted ↦
        rw admitted (gather-IsIndex P es _ a.1 (keep_latest-IsIndex P e m (a.0 admitted) v))
    | inr refused ↦ rw refused (gather-IsIndex P es m a.1 v)
  ]

  gather-monotone :
      (f : VaultDeletionEntry) (es : List VaultDeletionEntry) (m : Entries)
      → Covers m f
      → Covers (gather admit es m) f
  unfolding gather
  gather-monotone f [] m c = c
  gather-monotone f (e ∷ es) m c = elim (Bool-cases (admit e)) [
    | inl admitted ↦ rw admitted (gather-monotone f es _ (keep_latest-monotone e f m c))
    | inr refused ↦ rw refused (gather-monotone f es m c)
  ]

  pub gather-Covers :
      (es : List VaultDeletionEntry) (m : Entries)
      → All (λ e. admit e ≡ true → Covers (gather admit es m) e) es
  unfolding gather
  gather-Covers [] m = tt
  gather-Covers (e ∷ es) m = (
    λ admitted. rw admitted (gather-monotone e es _ (keep_latest-Covers e m)),
    gather-Covers es (if admit e then keep_latest e m else m),
  )

keep_latest-absent :
    (p : Text) (e : VaultDeletionEntry) (m : Entries)
    → (e.id === p) ≡ false
    → count p (keys m) ≡ 0
    → count p (keys (keep_latest e m)) ≡ 0
unfolding keep_latest
keep_latest-absent p e m other none_yet = elim (Bool-cases (supersedes e (lookup e.id m))) [
  | inl newer ↦ rw newer (ground (arith, other, none_yet, count-keys-insert p e.id e m))
  | inr older ↦ rw older none_yet
]

-- No key comes from elsewhere than the entries and the map.
pub gather-absent :
    (admit : VaultDeletionEntry → Bool) (p : Text) (es : List VaultDeletionEntry) (m : Entries)
    → count p (ids es) ≡ 0
    → count p (keys m) ≡ 0
    → count p (keys (gather admit es m)) ≡ 0
unfolding gather count
gather-absent admit p [] m none_given none_yet = none_yet
gather-absent admit p (e ∷ es) m none_given none_yet =
    let other : (e.id === p) ≡ false = ground (arith, none_given) in
    let rest : count p (ids es) ≡ 0 = omega (arith, none_given) in
    elim (Bool-cases (admit e)) [
      | inl admitted ↦ rw admitted (
          gather-absent admit p es (keep_latest e m) rest (keep_latest-absent p e m other none_yet))
      | inr refused ↦ rw refused (gather-absent admit p es m rest none_yet)
    ]

-- In an index, an entry is found under its id.
pub values-found :
    (P : VaultDeletionEntry → Type 0) (m : Entries)
    → IsIndex P m
    → All (λ x. (lookup x.id m ≡ some x) × P x) (values m)
unfolding values lookup keys count
values-found P [] v = tt
values-found P ((j, e) ∷ m) v = (
  (ground (arith, ===_iff j e.id, v.entries.0.0), v.entries.0.1),
  All-weaken _ _ (values m)
      (λ x found.
        (ground (arith, v.distinct j, ===_iff j x.id, lookup-count x.id m x found.0), found.1))
      (values-found P m
        record { entries = v.entries.1; distinct = λ p. omega (arith, v.distinct p) }),
)

pub ids-values :
    (P : VaultDeletionEntry → Type 0) (m : Entries)
    → All (λ (kv : Text × VaultDeletionEntry). (kv.0 ≡ kv.1.id) × P kv.1) m
    → ids (values m) ≡ keys m
unfolding values keys
ids-values P [] a = refl
ids-values P ((j, e) ∷ m) a = cc (a.0.0, ids-values P m a.1)
