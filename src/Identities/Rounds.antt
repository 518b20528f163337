-- ===== src/Identities/Rounds.antt =====
-- What a round of the migration of hosts to identities does, and the whole loop
-- (apps/desktop/src/lib/identity-migration.ts).
use terminal_workspace.Common.{
  ℕ, ◌+◌, ◌≤◌, ◌≡◌, ◌≢◌, ◌∙◌, ◌⊎◌, refl, sym, ap, Option, none, some, List, [], ◌∷◌, map, inl, inr,
  if◌then◌else◌, Text, ◌===◌, ===_iff, ===_refl, length, All, Bool-cases, Option-cases, arith,
}
use mathlib.Core.Path.{subst}
use terminal_workspace.Common.Dict.{count, lookup, insert, values, lookup-insert, All-lookup}
use terminal_workspace.Hosts.Types.{HostRecord}
use terminal_workspace.Vault.Records.{KeyRecord, IdentityRecord}
use terminal_workspace.Connect.Build.{given_id, find_identity}
use terminal_workspace.Identities.Migration.{
  host_key, derived_from, MigrationState, linked_identity, assigned, with_new_link, migrate_host,
  migrate_hosts,
}

abbrev pub identity_ids : List IdentityRecord → List Text
identity_ids = map (λ (e : IdentityRecord). e.id)

lookup-values :
    (k : Text) (m : List (Text × IdentityRecord)) (e : IdentityRecord)
    → lookup k m ≡ some e
    → 1 ≤ count e.id (identity_ids (values m))
unfolding lookup values count
lookup-values k [] e h = cc
lookup-values k ((j, f) ∷ m) e h = elim (Bool-cases (j === k)) [
  | inl here ↦ let same : f ≡ e = ground arith in rw same (ground (arith, ===_iff e.id e.id))
  | inr there ↦ omega (arith, lookup-values k m e (rw there at h))
]

-- A new key appends its identity.
count-insert-new :
    (p k : Text) (e : IdentityRecord) (m : List (Text × IdentityRecord))
    → lookup k m ≡ none
    → count p (identity_ids (values (insert k e m)))
      ≡ count p (identity_ids (values m)) + (if e.id === p then 1 else 0)
unfolding lookup insert values count
count-insert-new p k e [] h = omega arith
count-insert-new p k e ((j, f) ∷ m) h = elim (Bool-cases (j === k)) [
  | inl here ↦ ground (arith, rw here at h)
  | inr there ↦ rw there (omega (arith, count-insert-new p k e m (rw there at h)))
]

pub find_identity-count :
    (i : Text) (es : List IdentityRecord)
    → 1 ≤ count i (identity_ids es)
    → find_identity (some i) es ≢ none
unfolding count find_identity
find_identity-count i [] h = absurd (omega (arith, h))
find_identity-count i (e ∷ es) h = elim (Bool-cases (e.id === i)) [
  | inl here ↦ λ missing. ground (arith, rw here at missing)
  | inr there ↦ λ missing. find_identity-count i es (ground (arith, h, there)) (rw there at missing)
]

find_identity-id :
    (o : Option Text) (es : List IdentityRecord) (e : IdentityRecord)
    → find_identity o es ≡ some e
    → 1 ≤ count e.id (identity_ids es)
unfolding count find_identity
find_identity-id none es e h = cc
find_identity-id (some i) [] e h = cc
find_identity-id (some i) (f ∷ es) e h = elim (Bool-cases (f.id === i)) [
  | inl here ↦
      let same : f ≡ e = ground (arith, rw here at h) in rw same (ground (arith, ===_iff e.id e.id))
  | inr there ↦ omega (arith, find_identity-id (some i) es e (rw there at h))
]

module _ (now : Text) (generate_id : ℕ → Text) (keys : List KeyRecord)
    (existing : List IdentityRecord) (by_key : List (Text × IdentityRecord)) where
  -- An id of an identity that is there or new.
  abbrev pub Known : MigrationState → Text → Type 0
  Known s i =
      1 ≤ count i (identity_ids existing) + count i (identity_ids (values s.new_identities_by_key))

  -- What a round for a host does.
  record IsRound (h : HostRecord) (s t : MigrationState) : Type 0 where
    grows :
        (p : Text)
        → count p (identity_ids (values s.new_identities_by_key))
          ≤ count p (identity_ids (values t.new_identities_by_key))
    assigns :
        ((t.assignments_by_host_id ≡ s.assignments_by_host_id) × (host_key h ≡ none))
        ⊎ ((i : Text) × (t.assignments_by_host_id ≡ insert h.id i s.assignments_by_host_id)
            × Known t i)

  IsRound-same : (h : HostRecord) (s r t : MigrationState) → r ≡ t → IsRound h s t → IsRound h s r
  IsRound-same h s r t e x = subst (IsRound h s) (sym e) x

  -- The identities by their keys are among those that are there.
  abbrev pub AreExisting : Type 0
  AreExisting =
      All (λ (kv : Text × IdentityRecord). 1 ≤ count kv.1.id (identity_ids existing)) by_key

  with_new_link-IsRound :
      (h : HostRecord) (s : MigrationState)
      → AreExisting
      → IsRound h s (with_new_link now generate_id keys existing by_key h s)
  unfolding with_new_link assigned derived_from
  with_new_link-IsRound h s known = elim (Option-cases (host_key h)) [
    | inl keyless ↦
        IsRound-same h s (with_new_link now generate_id keys existing by_key h s) s
          (rw (with_new_link, keyless) refl)
          (record { grows = λ p. omega arith; assigns = inl (refl, keyless) })
    | inr (k, keyed) ↦ elim (Option-cases (lookup k by_key)) [
      | inr (e, there) ↦
          IsRound-same h s (with_new_link now generate_id keys existing by_key h s)
            (assigned h e.id s) (rw (with_new_link, keyed, there) refl)
            (record {
              grows = λ p. omega arith;
              assigns = inr (e.id, refl, omega (arith, All-lookup _ k by_key e known there));
            })
      | inl missing ↦ elim (Option-cases (lookup k s.new_identities_by_key)) [
        | inr (e, there) ↦
            IsRound-same h s (with_new_link now generate_id keys existing by_key h s)
              (assigned h e.id s) (rw (with_new_link, keyed, missing, there) refl)
              (record {
                grows = λ p. omega arith;
                assigns =
                    inr
                      (e.id, refl, omega (arith, lookup-values k s.new_identities_by_key e there));
              })
        | inl new ↦
            let e = derived_from now (generate_id (length s.new_identities_by_key)) keys h in
            IsRound-same h s (with_new_link now generate_id keys existing by_key h s)
              (assigned h e.id
                (record s { new_identities_by_key = insert k e s.new_identities_by_key }))
              (rw (with_new_link, keyed, missing, new) refl)
              (record {
                grows = λ p. ground (arith, count-insert-new p k e s.new_identities_by_key new);
                assigns = inr (
                  e.id,
                  refl,
                  ground (
                    arith,
                    count-insert-new e.id k e s.new_identities_by_key new,
                    ===_iff e.id e.id,
                  ),
                );
              })
      ]
    ]
  ]

  migrate_host-IsRound :
      (h : HostRecord) (s : MigrationState)
      → AreExisting
      → IsRound h s (migrate_host now generate_id keys existing by_key h s)
  unfolding migrate_host linked_identity assigned
  migrate_host-IsRound h s known = elim (Option-cases (linked_identity existing h)) [
    | inr (e, linked) ↦
        IsRound-same h s (migrate_host now generate_id keys existing by_key h s) (assigned h e.id s)
          (rw (migrate_host, linked) refl)
          (record {
            grows = λ p. omega arith;
            assigns = inr (
              e.id,
              refl,
              omega (arith, find_identity-id (given_id h.identity_id) existing e linked),
            );
          })
    | inl unlinked ↦ elim (Option-cases (given_id h.identity_id)) [
      | inl free ↦
          IsRound-same h s (migrate_host now generate_id keys existing by_key h s)
            (with_new_link now generate_id keys existing by_key h s)
            (rw (migrate_host, unlinked, free) refl) (with_new_link-IsRound h s known)
      | inr (i, lost) ↦
          let r = record s { referenced_identity_ids = i ∷ s.referenced_identity_ids } in
          let x = with_new_link-IsRound h r known in
          IsRound-same h s (migrate_host now generate_id keys existing by_key h s)
            (with_new_link now generate_id keys existing by_key h r)
            (rw (migrate_host, unlinked, lost) refl)
            (record { grows = x.grows; assigns = x.assigns })
    ]
  ]

  -- A host that needs an identity has one that is known.
  abbrev pub Placed : MigrationState → HostRecord → Type 0
  Placed s h =
      (host_key h ≡ none)
      ⊎ ((i : Text) × (lookup h.id s.assignments_by_host_id ≡ some i) × Known s i)

  round-Placed : (g h : HostRecord) (s t : MigrationState) → IsRound g s t → Placed s h → Placed t h
  round-Placed g h s t x (inl keyless) = inl keyless
  round-Placed g h s t x (inr (i, there, known)) = elim (x.assigns) [
    | inl (same, keyless) ↦ inr (i, ap (lookup h.id) same ∙ there, omega (arith, known, x.grows i))
    | inr (j, put, new) ↦ elim (Bool-cases (g.id === h.id)) [
      | inl own ↦ inr (
        j,
        ap (lookup h.id) put ∙ lookup-insert g.id h.id j s.assignments_by_host_id ∙ rw own refl,
        new,
      )
      | inr other ↦ inr (
        i,
        ap (lookup h.id) put ∙ lookup-insert g.id h.id j s.assignments_by_host_id ∙ rw other there,
        omega (arith, known, x.grows i),
      )
    ]
  ]

  round-Placed-own : (h : HostRecord) (s t : MigrationState) → IsRound h s t → Placed t h
  round-Placed-own h s t x = elim (x.assigns) [
    | inl (same, keyless) ↦ inl keyless
    | inr (j, put, new) ↦ inr (
      j,
      ap (lookup h.id) put
          ∙ lookup-insert h.id h.id j s.assignments_by_host_id
          ∙ rw (===_refl h.id) refl,
      new,
    )
  ]

  migrate_hosts-Placed-before :
      (hs : List HostRecord) (h : HostRecord) (s : MigrationState)
      → AreExisting
      → Placed s h
      → Placed (migrate_hosts now generate_id keys existing by_key hs s) h
  unfolding migrate_hosts
  migrate_hosts-Placed-before [] h s known placed = placed
  migrate_hosts-Placed-before (g ∷ hs) h s known placed =
      let t = migrate_host now generate_id keys existing by_key g s in
      migrate_hosts-Placed-before hs h t known
        (round-Placed g h s t (migrate_host-IsRound g s known) placed)

  pub migrate_hosts-Placed :
      (hs : List HostRecord) (s : MigrationState)
      → AreExisting
      → All (λ h. Placed (migrate_hosts now generate_id keys existing by_key hs s) h) hs
  unfolding migrate_hosts
  migrate_hosts-Placed [] s known = tt
  migrate_hosts-Placed (h ∷ hs) s known =
      let t = migrate_host now generate_id keys existing by_key h s in
      (
        migrate_hosts-Placed-before hs h t known
            (round-Placed-own h s t (migrate_host-IsRound h s known)),
        migrate_hosts-Placed hs t known,
      )

  with_new_link-keyless :
      (g : HostRecord) (s : MigrationState)
      → host_key g ≡ none
      → with_new_link now generate_id keys existing by_key g s ≡ s
  unfolding with_new_link
  with_new_link-keyless g s keyless = rw (with_new_link, keyless) refl

  linked-keeps :
      (g : HostRecord) (s : MigrationState)
      → (linked_identity existing g ≢ none) ⊎ (host_key g ≡ none)
      → (migrate_host now generate_id keys existing by_key g s).new_identities_by_key
        ≡ s.new_identities_by_key
  unfolding migrate_host assigned
  linked-keeps g s x = elim (Option-cases (linked_identity existing g)) [
    | inr (e, linked) ↦ rw (migrate_host, linked) refl
    | inl unlinked ↦ elim x [
      | inl there ↦ absurd (there unlinked)
      | inr keyless ↦ elim (Option-cases (given_id g.identity_id)) [
        | inl free ↦
            rw (migrate_host, unlinked, free)
              (ap (λ (t : MigrationState). t.new_identities_by_key)
                (with_new_link-keyless g s keyless))
        | inr (i, lost) ↦
            rw (migrate_host, unlinked, lost)
              (ap (λ (t : MigrationState). t.new_identities_by_key)
                (with_new_link-keyless g _ keyless))
      ]
    ]
  ]

  -- Hosts that are linked, or need no identity, make no new one.
  pub migrate_hosts-linked :
      (hs : List HostRecord) (s : MigrationState)
      → All (λ h. (linked_identity existing h ≢ none) ⊎ (host_key h ≡ none)) hs
      → (migrate_hosts now generate_id keys existing by_key hs s).new_identities_by_key
        ≡ s.new_identities_by_key
  unfolding migrate_hosts
  migrate_hosts-linked [] s h = refl
  migrate_hosts-linked (g ∷ hs) s h =
      migrate_hosts-linked hs (migrate_host now generate_id keys existing by_key g s) h.1
      ∙ linked-keeps g s h.0
