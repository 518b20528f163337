-- ===== src/Hosts/NormalLaws.antt =====
-- Normalizing a host twice is normalizing it once (apps/desktop/src/store/hosts-store.ts).
use terminal_workspace.Common.{
  ◌+◌, ◌≤◌, ◌≡◌, ◌∙◌, refl, sym, ap, Bool, false, not, ◌&&◌, Option, none, some, List, [], ◌∷◌,
  ◌++◌, inl, inr, Text, is_empty, trim, filter, All, ◌===◌, ===_iff, Bool-cases, arith,
}
use mathlib.Core.Path.{subst}
use mathlib.Core.List.{append_assoc, append-nil}
use terminal_workspace.Common.Dict.{count, insert, keys, count-keys-insert, All-insert}
use terminal_workspace.Hosts.Types.{HostRecord, host_supports_jump_hosts, host_supports_sftp}
use terminal_workspace.Connect.Build.{given_id, jump_host_of}
use terminal_workspace.Hosts.Normal.{
  from_entries, trimmed_entries, normalize_environment, normal_sftp_root, is_tag, normalize_tags,
  normalize_host_record,
}
use terminal_workspace.Hosts.Trimming.{trim-trim}

filter-filter : {A : Type 0} (f : A → Bool) (xs : List A) → filter f (filter f xs) ≡ filter f xs
filter-filter f [] = refl
filter-filter f (x ∷ xs) = elim (Bool-cases (f x)) [
  | inl kept ↦ rw (kept, kept) (ap (λ r. x ∷ r) (filter-filter f xs))
  | inr left ↦ rw left (filter-filter f xs)
]

-- A key as the normal form has it.
abbrev IsKey : Text × Text → Type 0
IsKey kv = (trim kv.0 ≡ kv.0) × (is_empty kv.0 ≡ false)

trimmed_entries-IsKey : (es : List (Text × Text)) → All IsKey (trimmed_entries es)
unfolding trimmed_entries
trimmed_entries-IsKey [] = tt
trimmed_entries-IsKey ((k, v) ∷ es) = elim (Bool-cases (is_empty (trim k))) [
  | inl blank ↦ rw blank (trimmed_entries-IsKey es)
  | inr given ↦ rw given ((trim-trim k, given), trimmed_entries-IsKey es)
]

IsKey-trimmed_entries : (es : List (Text × Text)) → All IsKey es → trimmed_entries es ≡ es
unfolding trimmed_entries
IsKey-trimmed_entries [] h = refl
IsKey-trimmed_entries ((k, v) ∷ es) h =
    rw (h.0.0, h.0.1) (ap (λ r. (k, v) ∷ r) (IsKey-trimmed_entries es h.1))

from_entries-IsKey :
    (m es : List (Text × Text)) → All IsKey m → All IsKey es → All IsKey (from_entries m es)
unfolding from_entries
from_entries-IsKey m [] a b = a
from_entries-IsKey m ((k, v) ∷ es) a b =
    from_entries-IsKey (insert k v m) es
      (All-insert IsKey k v m (λ j e. subst (λ x. (trim x ≡ x) × (is_empty x ≡ false)) (sym e) b.0)
        a)
      b.1

from_entries-once :
    (p : Text) (m es : List (Text × Text))
    → ((q : Text) → count q (keys m) ≤ 1)
    → count p (keys (from_entries m es)) ≤ 1
unfolding from_entries
from_entries-once p m [] once = once p
from_entries-once p m ((k, v) ∷ es) once =
    from_entries-once p (insert k v m) es
      (λ q. ground (arith, once q, count-keys-insert q k v m, once k, ===_iff k q))

insert-new :
    (k v : Text) (m : List (Text × Text)) → count k (keys m) ≡ 0 → insert k v m ≡ m ++ (k, v) ∷ []
unfolding insert count keys
insert-new k v [] new = refl
insert-new k v ((j, w) ∷ m) new = elim (Bool-cases (j === k)) [
  | inl same ↦ ground (arith, new, same)
  | inr other ↦ rw other (ap (λ r. (j, w) ∷ r) (insert-new k v m (ground (arith, new, other))))
]

-- Entries with distinct keys are an object's entries as they are.
from_entries-distinct :
    (m es : List (Text × Text))
    → ((q : Text) → count q (keys m) + count q (keys es) ≤ 1)
    → from_entries m es ≡ m ++ es
unfolding from_entries count keys
from_entries-distinct m [] once = sym (append-nil m)
from_entries-distinct m ((k, v) ∷ es) once =
    let new : count k (keys m) ≡ 0 = ground (arith, once k, ===_iff k k) in
    ap (λ x. from_entries x es) (insert-new k v m new)
    ∙ from_entries-distinct (m ++ (k, v) ∷ []) es (λ q. ground (
      arith,
      once q,
      ap (λ x. count q (keys x)) (insert-new k v m new),
      count-keys-insert q k v m,
      new,
      ===_iff k q,
    ))
    ∙ append_assoc m ((k, v) ∷ []) es

normalize_environment-normalize_environment :
    (es : List (Text × Text))
    → normalize_environment (normalize_environment es) ≡ normalize_environment es
unfolding normalize_environment count keys
normalize_environment-normalize_environment es =
    let m = from_entries [] (trimmed_entries es) in
    ap (from_entries []) (
      IsKey-trimmed_entries m
        (from_entries-IsKey [] (trimmed_entries es) tt (trimmed_entries-IsKey es)))
    ∙ from_entries-distinct [] m
        (λ q. omega (arith, from_entries-once q [] (trimmed_entries es) (λ r. omega arith)))

given_id-given_id : (o : Option Text) → given_id (given_id o) ≡ given_id o
unfolding given_id
given_id-given_id none = refl
given_id-given_id (some []) = refl
given_id-given_id (some (c ∷ i)) = refl

module _ (to_lower_case : Text → Text) where
  normal_jump :
      (h : HostRecord) → jump_host_of (normalize_host_record to_lower_case h) ≡ jump_host_of h
  unfolding jump_host_of normalize_host_record
  normal_jump h = elim (Bool-cases (host_supports_jump_hosts h.protocol)) [
    | inl jumps ↦ rw (jump_host_of, jumps) (given_id-given_id h.jump_host_id)
    | inr lacks ↦ rw (jump_host_of, lacks) refl
  ]

  normal_root :
      (h : HostRecord)
      → normal_sftp_root (normalize_host_record to_lower_case h) ≡ normal_sftp_root h
  unfolding normal_sftp_root normalize_host_record
  normal_root h =
      elim (Bool-cases (host_supports_sftp h.protocol && not (is_empty (trim h.sftp_root)))) [
        | inl given ↦ rw (normal_sftp_root, given, given) refl
        | inr blank ↦ rw (normal_sftp_root, blank) (ground arith)
      ]

  pub normalize_host_record-normalize_host_record :
      (h : HostRecord)
      → normalize_host_record to_lower_case (normalize_host_record to_lower_case h)
        ≡ normalize_host_record to_lower_case h
  unfolding normalize_host_record normalize_tags
  normalize_host_record-normalize_host_record h =
      rw
        (
          normalize_environment-normalize_environment h.environment,
          filter-filter (is_tag to_lower_case) h.tags,
          normal_jump h,
          normal_root h,
        )
        refl
