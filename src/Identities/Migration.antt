-- ===== src/Identities/Migration.antt =====
-- The migration of hosts to identities: apps/desktop/src/lib/identity-migration.ts, with the equivalence keys and
-- labels of apps/desktop/src/types/identity.ts. The times are one argument; `generate_id` gives the ids of new
-- identities, by how many there are.
use terminal_workspace.Common.{
  ℕ, Bool, false, not, Option, none, some, List, [], ◌∷◌, ◌++◌, map, if◌then◌else◌, Text, text,
  ◌===◌, is_empty, trim, filter, find, length, or_option, last?,
}
use terminal_workspace.Common.Dict.{includes, lookup, insert, values}
use terminal_workspace.Common.Order.{sort_by}
use terminal_workspace.Hosts.Types.{HostRecord, HostAuthMethod, no_auth, password, private_key}
use terminal_workspace.Hosts.Form.{split_on}
use terminal_workspace.Vault.Records.{KeyRecord, IdentityRecord, derived_identity}
use terminal_workspace.Connect.Build.{given_id, first_given, find_identity, is_private_key}

unfoldable pub build_identity_equivalence_key : HostAuthMethod → Text → Text → Option Text
unfolding trim
build_identity_equivalence_key no_auth username path = none
build_identity_equivalence_key private_key username path =
    if is_empty (trim path)
    then none
    else some (text "privateKey|" ++ trim username ++ text "|" ++ trim path)
build_identity_equivalence_key password username path = some (text "password|" ++ trim username)

abbrev text_or_empty : Option Text → Text
text_or_empty none = []
text_or_empty (some s) = s

unfoldable pub derive_identity_label : HostAuthMethod → Text → Text → Text → Text → Text
unfolding trim first_given split_on
derive_identity_label private_key username path key_label host_label =
    let user = first_given (trim username) (text "user") in
    if is_empty (trim key_label)
    then first_given (text_or_empty (last? (split_on 47 (trim path))))
        (first_given (trim path) (text "key"))
      ++ text " ("
      ++ user
      ++ text ")"
    else trim key_label ++ text " (" ++ user ++ text ")"
derive_identity_label password username path key_label host_label =
    let user = first_given (trim username) (text "user") in
    if is_empty (trim host_label)
    then user ++ text " (password)"
    else user ++ text "@" ++ trim host_label ++ text " (password)"
derive_identity_label no_auth username path key_label host_label =
    first_given (trim username) (text "user")

unfoldable pub key_for_path : Text → List KeyRecord → Option KeyRecord
unfolding trim ◌===◌
key_for_path path keys =
    if is_empty (trim path)
    then none
    else find (λ (k : KeyRecord). trim k.private_key_path === trim path) keys

abbrev pub pick_key_id : Option KeyRecord → Option Text
pick_key_id none = none
pick_key_id (some k) = some (k.id)

abbrev pub pick_has_passphrase : Option KeyRecord → Bool
pick_has_passphrase none = false
pick_has_passphrase (some k) = k.has_passphrase

unfoldable pub host_key : HostRecord → Option Text
unfolding build_identity_equivalence_key
host_key host = build_identity_equivalence_key host.auth_method host.username host.private_key_path

-- The first identity of each equivalence key, from those that are there already.
unfoldable pub index_existing :
    List (Text × IdentityRecord) → List IdentityRecord → List (Text × IdentityRecord)
unfolding build_identity_equivalence_key lookup insert
index_existing m [] = m
index_existing m (e ∷ es) =
    index_existing
      (elim (build_identity_equivalence_key e.auth_method e.username e.private_key_path) [
        | none ↦ m
        | some k ↦ elim (lookup k m) [ none ↦ insert k e m | some first ↦ m ]
      ])
      es

unfoldable pub derived_from : Text → Text → List KeyRecord → HostRecord → IdentityRecord
unfolding derive_identity_label key_for_path
derived_from now new_id keys host =
    let key =
      if is_private_key host.auth_method then key_for_path host.private_key_path keys else none in
    record {
      id = new_id;
      label =
          derive_identity_label host.auth_method host.username host.private_key_path host.key_label
            host.label;
      username = host.username;
      auth_method = host.auth_method;
      private_key_path = if is_private_key host.auth_method then host.private_key_path else [];
      key_id = pick_key_id key;
      has_passphrase = pick_has_passphrase key;
      comment = [];
      source = derived_identity;
      created_at = now;
      updated_at = now;
    }

-- What the loop over the hosts builds.
pub record MigrationState : Type 0 where
  pub assignments_by_host_id : List (Text × Text)
  pub new_identities_by_key : List (Text × IdentityRecord)
  pub referenced_identity_ids : List Text

pub record IdentityMigrationResult : Type 0 where
  pub identities_to_add : List IdentityRecord
  pub assignments_by_host_id : List (Text × Text)
  pub orphaned_identity_ids : List Text

unfoldable pub linked_identity : List IdentityRecord → HostRecord → Option IdentityRecord
unfolding find_identity given_id
linked_identity existing host = find_identity (given_id host.identity_id) existing

unfoldable pub assigned : HostRecord → Text → MigrationState → MigrationState
unfolding insert
assigned host i s = record s {
  assignments_by_host_id = insert host.id i s.assignments_by_host_id;
  referenced_identity_ids = i ∷ s.referenced_identity_ids;
}

abbrev refers : Option Text → MigrationState → MigrationState
refers none s = s
refers (some i) s = record s { referenced_identity_ids = i ∷ s.referenced_identity_ids }

module _ (now : Text) (generate_id : ℕ → Text) (keys : List KeyRecord)
    (existing : List IdentityRecord) (by_key : List (Text × IdentityRecord)) where
  unfoldable pub with_new_link : HostRecord → MigrationState → MigrationState
  unfolding host_key lookup insert assigned derived_from
  with_new_link host s = elim (host_key host) [
    | none ↦ s
    | some k ↦ elim (or_option (lookup k by_key) (lookup k s.new_identities_by_key)) [
      | some e ↦ assigned host e.id s
      | none ↦
          let identity =
            derived_from now (generate_id (length s.new_identities_by_key)) keys host in
          assigned host identity.id
            (record s { new_identities_by_key = insert k identity s.new_identities_by_key })
    ]
  ]

  unfoldable pub migrate_host : HostRecord → MigrationState → MigrationState
  unfolding linked_identity assigned with_new_link given_id
  migrate_host host s = elim (linked_identity existing host) [
    | some previously ↦ assigned host previously.id s
    | none ↦ with_new_link host (refers (given_id host.identity_id) s)
  ]

  unfoldable pub migrate_hosts : List HostRecord → MigrationState → MigrationState
  unfolding migrate_host
  migrate_hosts [] s = s
  migrate_hosts (h ∷ hs) s = migrate_hosts hs (migrate_host h s)

module _ (collate : Text → Text → Bool) where
  unfoldable pub existing_by_key : List IdentityRecord → List (Text × IdentityRecord)
  unfolding index_existing sort_by
  existing_by_key existing = index_existing [] (
      sort_by
        (λ (left : IdentityRecord) (right : IdentityRecord).
          collate left.created_at right.created_at)
        existing)

  unfoldable pub migrate_hosts_to_identities :
      Text
      → (ℕ → Text)
      → List KeyRecord
      → List IdentityRecord
      → List HostRecord
      → IdentityMigrationResult
  unfolding migrate_hosts existing_by_key includes values
  migrate_hosts_to_identities now generate_id keys existing hs =
      let s = migrate_hosts now generate_id keys existing (existing_by_key existing) hs record {
        assignments_by_host_id = [];
        new_identities_by_key = [];
        referenced_identity_ids = [];
      } in
      record {
        identities_to_add = values s.new_identities_by_key;
        assignments_by_host_id = s.assignments_by_host_id;
        orphaned_identity_ids =
            map (λ (e : IdentityRecord). e.id)
              (filter (λ (e : IdentityRecord). not (includes e.id s.referenced_identity_ids))
                existing);
      }

-- The host with its identity.
unfoldable pub stamped : List (Text × Text) → HostRecord → HostRecord
unfolding lookup given_id
stamped assignments host = elim (given_id (lookup host.id assignments)) [
  | none ↦ host
  | some i ↦ record host { identity_id = some i }
]

unfoldable pub apply_identity_assignments : List HostRecord → List (Text × Text) → List HostRecord
unfolding stamped
apply_identity_assignments hs assignments = map (stamped assignments) hs
