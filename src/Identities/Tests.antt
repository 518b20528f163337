-- ===== src/Identities/Tests.antt =====
-- Runs of the migration of hosts to identities (apps/desktop/src/lib/identity-migration.ts), and its theorem at an
-- input.
use terminal_workspace.Common.{
  ℕ, ◌+◌, ◌≡◌, refl, false, List, [], ◌∷◌, Text, text, ◌===◌, is_empty, All, arith,
}
use terminal_workspace.Common.Dict.{count}
use terminal_workspace.Sessions.Titles.{print_nat}
use terminal_workspace.Hosts.Types.{HostRecord, private_key}
use terminal_workspace.Vault.Records.{IdentityRecord}
use terminal_workspace.Vault.Tests.{host, by_units}
use terminal_workspace.Identities.Migration.{
  build_identity_equivalence_key, derive_identity_label, migrate_hosts_to_identities,
  apply_identity_assignments,
}
use terminal_workspace.Identities.Rounds.{identity_ids}
use terminal_workspace.Identities.Settled.{migrate_hosts_to_identities-settles}

label_derived :
    derive_identity_label private_key (text " ops") (text "~/.ssh/id") [] [] ≡ text "id (ops)"
unfolding derive_identity_label
label_derived = refl

-- Two accounts and paths with one key.
keys_collide :
    build_identity_equivalence_key private_key (text "a|b") (text "c")
    ≡ build_identity_equivalence_key private_key (text "a") (text "b|c")
unfolding build_identity_equivalence_key
keys_collide = refl

abbrev generate : ℕ → Text
generate n = 110 ∷ print_nat n

-- Two hosts with one account, and one with another.
abbrev two_hosts : List HostRecord
two_hosts = host (text "a") [] ∷ host (text "b") [] ∷ []

abbrev derived : List IdentityRecord
derived =
    (migrate_hosts_to_identities by_units (text "1") generate [] [] two_hosts).identities_to_add

derived_once : identity_ids derived ≡ text "n0" ∷ []
unfolding migrate_hosts_to_identities print_nat ◌===◌
derived_once = refl

derived_kept :
    (p : Text)
    → count p (identity_ids derived)
      ≡ count p (identity_ids [])
        + count p (
            identity_ids
              (migrate_hosts_to_identities by_units
                (text "1")
                generate
                []
                []
                two_hosts).identities_to_add)
unfolding count
derived_kept p = omega arith

derived_given : All (λ e. is_empty e.id ≡ false) derived
unfolding migrate_hosts_to_identities print_nat ◌===◌
derived_given = (refl, tt)

migrate_hosts_to_identities-settles_example :
    (migrate_hosts_to_identities by_units (text "2") generate [] derived (
      apply_identity_assignments two_hosts
        (migrate_hosts_to_identities by_units
          (text "1")
          generate
          []
          []
          two_hosts).assignments_by_host_id)).identities_to_add
    ≡ []
migrate_hosts_to_identities-settles_example =
    migrate_hosts_to_identities-settles by_units (text "1") generate [] [] derived two_hosts
      (text "2") generate derived_kept derived_given
