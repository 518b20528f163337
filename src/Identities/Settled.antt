-- ===== src/Identities/Settled.antt =====
-- The migration of hosts to identities settles: running it again on its result adds no identity
-- (apps/desktop/src/lib/identity-migration.ts).
use terminal_workspace.Common.{
  ℕ, ◌+◌, ◌≤◌, ◌≡◌, ◌≢◌, ◌∙◌, ◌⊎◌, refl, sym, ap, Bool, false, none, some, List, [], ◌∷◌, map, inl,
  inr, Text, ◌===◌, ===_iff, is_empty, All, All-weaken, Bool-cases, Option-cases, arith,
}
use mathlib.Core.Path.{subst}
use terminal_workspace.Common.Dict.{count, lookup, insert, values, keys, All-insert}
use terminal_workspace.Common.Order.{sort_by-All}
use terminal_workspace.Hosts.Types.{HostRecord}
use terminal_workspace.Vault.Records.{KeyRecord, IdentityRecord}
use terminal_workspace.Connect.Build.{given_id, find_identity}
use terminal_workspace.Identities.Rounds.{
  identity_ids, find_identity-count, AreExisting, Placed, migrate_hosts-Placed,
  migrate_hosts-linked,
}
use terminal_workspace.Identities.Migration.{
  build_identity_equivalence_key, host_key, index_existing, MigrationState, linked_identity,
  migrate_hosts, existing_by_key, migrate_hosts_to_identities, stamped, apply_identity_assignments,
}

-- The identities of a list are among those of the list.
each-there :
    (all es : List IdentityRecord)
    → ((p : Text) → count p (identity_ids es) ≤ count p (identity_ids all))
    → All (λ e. 1 ≤ count e.id (identity_ids all)) es
unfolding count
each-there all [] h = tt
each-there all (e ∷ es) h =
    (ground (arith, h e.id, ===_iff e.id e.id), each-there all es (λ p. omega (arith, h p)))

index_existing-All :
    (P : Text × IdentityRecord → Type 0) (m : List (Text × IdentityRecord))
    (es : List IdentityRecord)
    → All P m
    → All (λ e. (k : Text) → P (k, e)) es
    → All P (index_existing m es)
unfolding index_existing
index_existing-All P m [] a b = a
index_existing-All P m (e ∷ es) a b =
    elim (Option-cases
      (build_identity_equivalence_key e.auth_method e.username e.private_key_path)) [
        | inl keyless ↦ rw (index_existing, keyless) (index_existing-All P m es a b.1)
        | inr (k, keyed) ↦ elim (Option-cases (lookup k m)) [
          | inr (f, there) ↦ rw (index_existing, keyed, there) (index_existing-All P m es a b.1)
          | inl new ↦
              rw (index_existing, keyed, new)
                (index_existing-All P (insert k e m) es (All-insert P k e m (λ j same. b.0 j) a)
                  b.1)
        ]
      ]

given_id-given : (i : Text) → is_empty i ≡ false → given_id (some i) ≡ some i
unfolding given_id
given_id-given [] h = cc
given_id-given (c ∷ i) h = refl

All-count :
    (es : List IdentityRecord) (p : Text)
    → All (λ e. is_empty e.id ≡ false) es
    → 1 ≤ count p (identity_ids es)
    → is_empty p ≡ false
unfolding count
All-count [] p a h = absurd (omega (arith, h))
All-count (e ∷ es) p a h = elim (Bool-cases (e.id === p)) [
  | inl here ↦ subst (λ x. is_empty x ≡ false) ((===_iff e.id p).0 here) a.0
  | inr there ↦ All-count es p a.1 (ground (arith, h, there))
]

module _ (collate : Text → Text → Bool) where
  existing_by_key-AreExisting :
      (now : Text) (generate_id : ℕ → Text) (keys : List KeyRecord) (existing : List IdentityRecord)
      → AreExisting now generate_id keys existing (existing_by_key collate existing)
  unfolding existing_by_key
  existing_by_key-AreExisting now generate_id keys existing = index_existing-All _ [] _ tt (
      sort_by-All _ _ existing
        (All-weaken _ _ existing (λ e h k. h) (each-there existing existing (λ p. omega arith))))

  stamped-linked :
      (assignments : List (Text × Text)) (later : List IdentityRecord) (h : HostRecord) (i : Text)
      → lookup h.id assignments ≡ some i
      → is_empty i ≡ false
      → 1 ≤ count i (identity_ids later)
      → linked_identity later (stamped assignments h) ≢ none
  unfolding linked_identity stamped
  stamped-linked assignments later h i there given known missing =
      let e : stamped assignments h ≡ record h { identity_id = some i } =
        rw (stamped, there, given_id-given i given) refl in
      find_identity-count i later known (
        ap (λ o. find_identity o later) (sym (given_id-given i given))
        ∙ ap (linked_identity later) (sym e)
        ∙ missing)

  -- The key of a host does not depend on its identity.
  host_key-stamped :
      (assignments : List (Text × Text)) (h : HostRecord)
      → host_key (stamped assignments h) ≡ host_key h
  unfolding stamped host_key
  host_key-stamped assignments h = elim (Option-cases (given_id (lookup h.id assignments))) [
    | inl free ↦ let e : stamped assignments h ≡ h = rw (stamped, free) refl in ap host_key e
    | inr (i, put) ↦
        let e : stamped assignments h ≡ record h { identity_id = some i } =
          rw (stamped, put) refl in
        ap host_key e
  ]

  module _ (now : Text) (generate_id : ℕ → Text) (keys : List KeyRecord)
      (existing later : List IdentityRecord) (hs : List HostRecord) where
    -- If the identities that were there and those that were added are kept, in any order, and none of them
    -- has an empty id, then running the migration on the hosts as it assigned them adds no identity.
    pub migrate_hosts_to_identities-settles :
        (later_now : Text) (generate_later : ℕ → Text)
        → ((p : Text)
            → count p (identity_ids later)
              ≡ count p (identity_ids existing)
                + count p (
                    identity_ids
                      (migrate_hosts_to_identities collate now generate_id keys existing
                        hs).identities_to_add))
        → All (λ e. is_empty e.id ≡ false) later
        → (migrate_hosts_to_identities collate later_now generate_later keys later (
            apply_identity_assignments hs
              (migrate_hosts_to_identities collate now generate_id keys existing
                hs).assignments_by_host_id)).identities_to_add
          ≡ []
    unfolding migrate_hosts_to_identities apply_identity_assignments values
    migrate_hosts_to_identities-settles later_now generate_later kept given = ap values (
        migrate_hosts-linked later_now generate_later keys later (existing_by_key collate later) _ _
          (placed-linked hs (
            migrate_hosts-Placed now generate_id keys existing (existing_by_key collate existing) hs
              _ (existing_by_key-AreExisting now generate_id keys existing))))
      where
        assignments : List (Text × Text)
        assignments =
            (migrate_hosts_to_identities collate now generate_id keys existing
              hs).assignments_by_host_id

        final : MigrationState
        final =
            migrate_hosts now generate_id keys existing (existing_by_key collate existing) hs
              record {
                assignments_by_host_id = [];
                new_identities_by_key = [];
                referenced_identity_ids = [];
              }

        placed-linked :
            (gs : List HostRecord)
            → All
                (λ h.
                  Placed now generate_id keys existing (existing_by_key collate existing) final h)
                gs
            → All
                (λ h. (linked_identity later h ≢ none) ⊎ (host_key h ≡ none))
                (map (stamped assignments) gs)
        placed-linked [] x = tt
        placed-linked (g ∷ gs) x = (
          elim (x.0) [
            | inl keyless ↦ inr (host_key-stamped assignments g ∙ keyless)
            | inr (i, there, known) ↦
                let enough : 1 ≤ count i (identity_ids later) = omega (arith, kept i, known) in
                inl (
                  stamped-linked assignments later g i there (All-count later i given enough)
                    enough)
          ],
          placed-linked gs x.1,
        )
