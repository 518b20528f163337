-- ===== src/Connect/Trusting.antt =====
-- What trusting and removing a host key keep (apps/desktop/src/store/known-hosts-store.ts), and that a host
-- that passed `ensureTrustedHostKey` has the key that its connection requires.
use terminal_workspace.Common.{
  ℕ, ◌≤◌, ◌≡◌, ◌≢◌, ◌∙◌, ◌⊎◌, refl, sym, Bool, false, not, ◌&&◌, Option, none, some, List, [], ◌∷◌,
  map, inl, inr, if◌then◌else◌, Text, ◌===◌, ===_iff, ◌==◌, filter, find, All, All-weaken,
  Bool-cases, Option-cases, arith,
}
use mathlib.Core.Path.{subst}
use terminal_workspace.Common.Int.{ℤ}
use terminal_workspace.Common.Dict.{count}
use terminal_workspace.Common.Order.{sort_by, sort_by-All, count-sort_by, insert_sorted}
use terminal_workspace.Hosts.Types.{HostRecord, host_supports_trusted_keys}
use terminal_workspace.Vault.Deletions.{
  VaultDeletionEntry, select, replace, mark_deleted, clear_deleted, upsert_deletion_entry,
  remove_deletion_entry, sort_deletion_entries,
}
use terminal_workspace.Vault.Compaction.{compact_deletion_entries-All}
use terminal_workspace.Vault.Records.{KnownHostRecord}
use terminal_workspace.Connect.Build.{is_require_trusted, needs_trusted_key, find_known_host_match}
use terminal_workspace.Connect.KnownHosts.{
  KnownHostScanResult, KnownHostsState, create_known_host_record, accepted_key,
  policy_allows_unknown, protocol_does_not_need_trust, already_trusted, user_rejected,
  user_non_interactive, scan_failed, EnsureTrustedHostKeyResult, trust_ok, trust_failed,
  sort_known_hosts, trust_known_host, remove_known_host, with_answer, ensure_trusted_host_key,
}

abbrev pub known_ids : List KnownHostRecord → List Text
known_ids = map (λ (k : KnownHostRecord). k.id)

-- No id is trusted twice, and no trusted key is marked as deleted.
pub record IsClear (s : KnownHostsState) : Type 0 where
  pub once : (p : Text) → count p (known_ids s.trusted) ≤ 1
  pub alive : All (λ e. count e.id (known_ids s.trusted) ≡ 0) s.deletions.known_hosts

without_id : Text → List KnownHostRecord → List KnownHostRecord
unfolding ◌===◌
without_id i = filter (λ (k : KnownHostRecord). not (k.id === i))

count-without_id :
    (p i : Text) (ks : List KnownHostRecord)
    → count p (known_ids (without_id i ks)) ≡ (if i === p then 0 else count p (known_ids ks))
unfolding count without_id
count-without_id p i [] = ground arith
count-without_id p i (k ∷ ks) =
    ground (arith, ===_iff k.id i, ===_iff k.id p, ===_iff i p, count-without_id p i ks)

All-other :
    (P : VaultDeletionEntry → Type 0) (i : Text) (es : List VaultDeletionEntry)
    → All P es
    → All
        (λ e. P e × ((e.id === i) ≡ false))
        (filter (λ (e : VaultDeletionEntry). not (e.id === i)) es)
All-other P i [] h = tt
All-other P i (e ∷ es) h = elim (Bool-cases (e.id === i)) [
  | inl same ↦ rw same (All-other P i es h.1)
  | inr other ↦ rw other ((h.0, other), All-other P i es h.1)
]

module _ (collate : Text → Text → Bool) (date_parse : Text → Option ℤ) where
  count-sort_known_hosts :
      (p : Text) (ks : List KnownHostRecord)
      → count p (known_ids (sort_known_hosts collate date_parse ks)) ≡ count p (known_ids ks)
  unfolding sort_known_hosts
  count-sort_known_hosts p ks = count-sort_by _ (λ (k : KnownHostRecord). k.id) p ks

  -- Trusting a key keeps that no id is trusted twice and none is marked as deleted.
  trust_known_host-IsClear :
      (now : Text) (entry : KnownHostScanResult) (s : KnownHostsState)
      → IsClear s
      → IsClear (trust_known_host collate date_parse now entry s)
  unfolding trust_known_host clear_deleted select replace remove_deletion_entry
      sort_deletion_entries count without_id
  trust_known_host-IsClear now entry s v = record {
    once = λ p. ground (arith, trusted p, v.once p);
    alive = sort_by-All _ _ _ (
        All-weaken _ _ _
          (λ e h. ground (arith, trusted e.id, h, ===_iff created.id e.id, ===_iff e.id created.id))
          (All-other _ created.id s.deletions.known_hosts v.alive));
  }
    where
      created : KnownHostRecord
      created = create_known_host_record now entry

      trusted :
          (p : Text)
          → count p (
              known_ids
                (sort_known_hosts collate date_parse (created ∷ without_id created.id s.trusted)))
            ≡ (if created.id === p then 1 else count p (known_ids s.trusted))
      trusted p =
          count-sort_known_hosts p (created ∷ without_id created.id s.trusted)
          ∙ ground (arith, count-without_id p created.id s.trusted)

  -- So does removing one.
  remove_known_host-IsClear :
      (now : ℕ) (now_text i : Text) (s : KnownHostsState)
      → IsClear s
      → IsClear (remove_known_host collate date_parse now now_text i s)
  unfolding remove_known_host mark_deleted select replace upsert_deletion_entry
      sort_deletion_entries count without_id
  remove_known_host-IsClear now now_text i s v = record {
    once = λ p. ground (arith, left p, v.once p);
    alive = compact_deletion_entries-All collate date_parse now IsAway _ (
        sort_by-All _ IsAway (created ∷ others) (
          ground (arith, left i, ===_iff i i),
          All-weaken _ _ others (λ e h. ground (arith, left e.id, h))
              (All-other _ i s.deletions.known_hosts v.alive),
        ));
  }
    where
      created : VaultDeletionEntry
      created = record { id = i; deleted_at = now_text }

      others : List VaultDeletionEntry
      others = filter (λ (e : VaultDeletionEntry). not (e.id === i)) s.deletions.known_hosts

      IsAway : VaultDeletionEntry → Type 0
      IsAway e =
          count e.id (known_ids (sort_known_hosts collate date_parse (without_id i s.trusted))) ≡ 0

      left :
          (p : Text)
          → count p (known_ids (sort_known_hosts collate date_parse (without_id i s.trusted)))
            ≡ (if i === p then 0 else count p (known_ids s.trusted))
      left p = count-sort_known_hosts p (without_id i s.trusted) ∙ count-without_id p i s.trusted

  -- If no id is trusted twice and no trusted id is marked as deleted, this is so after trusting a key
  -- and after removing one.
  pub known_hosts-IsClear :
      (now : ℕ) (now_text i : Text) (entry : KnownHostScanResult) (s : KnownHostsState)
      → IsClear s
      → IsClear (trust_known_host collate date_parse now_text entry s)
        × IsClear (remove_known_host collate date_parse now now_text i s)
  known_hosts-IsClear now now_text i entry s v =
      (trust_known_host-IsClear now_text entry s v, remove_known_host-IsClear now now_text i s v)

missing-insert_sorted :
    (le : KnownHostRecord → KnownHostRecord → Bool) (f : KnownHostRecord → Bool)
    (k : KnownHostRecord) (ks : List KnownHostRecord)
    → find f (insert_sorted le k ks) ≡ none
    → f k ≡ false
unfolding insert_sorted
missing-insert_sorted le f k [] h = ground arith
missing-insert_sorted le f k (j ∷ js) h = elim (Bool-cases (le k j)) [
  | inl before ↦ ground (arith, rw before at h)
  | inr after ↦
      let below : find f (j ∷ insert_sorted le k js) ≡ none = rw after at h in
      missing-insert_sorted le f k js (ground arith)
]

-- A key that is accepted is a key of the host.
abbrev pub IsAcceptedOf :
    HostRecord
    → Option (List KnownHostScanResult)
    → (List KnownHostScanResult → Option KnownHostScanResult)
    → Type 0
IsAcceptedOf host scan ask =
    (cs : List KnownHostScanResult) (c : KnownHostScanResult)
    → scan ≡ some cs
    → ask cs ≡ some c
    → (c.hostname ≡ host.hostname) × (c.port ≡ host.port)

module _ (collate : Text → Text → Bool) (date_parse : Text → Option ℤ) where
  trust_known_host-match :
      (now : Text) (c : KnownHostScanResult) (host : HostRecord) (s : KnownHostsState)
      → (c.hostname ≡ host.hostname) × (c.port ≡ host.port)
      → find_known_host_match (trust_known_host collate date_parse now c s).trusted host ≢ none
  unfolding trust_known_host sort_known_hosts sort_by find_known_host_match create_known_host_record
  trust_known_host-match now c host s of missing = ground (
    arith,
    missing-insert_sorted
        (λ (left : KnownHostRecord) (right : KnownHostRecord).
          collate right.updated_at left.updated_at)
        (λ (k : KnownHostRecord). (k.hostname === host.hostname) && (k.port == host.port))
        (create_known_host_record now c) _ missing,
    ===_iff c.hostname host.hostname,
    of,
  )

  -- What the checks of a connection find, when the connection may proceed.
  abbrev pub IsProceeding :
      HostRecord → KnownHostsState → KnownHostsState × EnsureTrustedHostKeyResult → Type 0
  IsProceeding host s (t, trust_failed r) = t ≡ s
  IsProceeding host s (t, trust_ok g) =
      (needs_trusted_key host ≡ false) ⊎ (find_known_host_match t.trusted host ≢ none)

  IsProceeding-same :
      (host : HostRecord) (s : KnownHostsState) (r t : KnownHostsState × EnsureTrustedHostKeyResult)
      → r ≡ t
      → IsProceeding host s t
      → IsProceeding host s r
  IsProceeding-same host s r t e h = subst (IsProceeding host s) (sym e) h

  with_answer-IsProceeding :
      (now : Text) (host : HostRecord) (cs : List KnownHostScanResult)
      (ask : List KnownHostScanResult → Option KnownHostScanResult) (s : KnownHostsState)
      → IsAcceptedOf host (some cs) ask
      → IsProceeding host s (with_answer collate date_parse now cs ask s)
  unfolding with_answer
  with_answer-IsProceeding now host [] ask s of = refl
  with_answer-IsProceeding now host (c ∷ cs) ask s of = elim (Option-cases (ask (c ∷ cs))) [
    | inl rejected ↦
        IsProceeding-same host s (with_answer collate date_parse now (c ∷ cs) ask s)
          (s, trust_failed user_rejected) (rw (with_answer, rejected) refl) refl
    | inr (a, accepted) ↦
        IsProceeding-same host s (with_answer collate date_parse now (c ∷ cs) ask s)
          (trust_known_host collate date_parse now a s, trust_ok (accepted_key a))
          (rw (with_answer, accepted) refl)
          (inr (trust_known_host-match now a host s (of (c ∷ cs) a refl accepted)))
  ]

  -- If `ensureTrustedHostKey` lets a connection proceed, the host needs no trusted key, or there is one
  -- for its name and port, and if not, it changes nothing; the keys that the user accepts are assumed to be
  -- of the host's name and port.
  pub ensure_trusted_host_key-IsProceeding :
      (now : Text) (host : HostRecord) (interactive : Bool)
      (scan : Option (List KnownHostScanResult))
      (ask : List KnownHostScanResult → Option KnownHostScanResult) (s : KnownHostsState)
      → IsAcceptedOf host scan ask
      → IsProceeding host s
          (ensure_trusted_host_key collate date_parse now host interactive scan ask s)
  unfolding ensure_trusted_host_key needs_trusted_key
  ensure_trusted_host_key-IsProceeding now host interactive scan ask s of =
      elim (Bool-cases (host_supports_trusted_keys host.protocol)) [
        | inr needless ↦
            IsProceeding-same host s answered (s, trust_ok protocol_does_not_need_trust)
              (rw needless refl) (inl (rw needless refl))
        | inl keyed ↦ elim (Bool-cases (is_require_trusted host.host_key_policy)) [
          | inr lax ↦
              IsProceeding-same host s answered (s, trust_ok policy_allows_unknown)
                (rw (keyed, lax) refl) (inl (rw (keyed, lax) refl))
          | inl strict ↦ elim (Option-cases (find_known_host_match s.trusted host)) [
            | inr (k, found) ↦
                IsProceeding-same host s answered (s, trust_ok already_trusted)
                  (rw (keyed, strict, found) refl) (inr (λ h. ground (arith, found, h)))
            | inl missing ↦ elim (Bool-cases interactive) [
              | inr silent ↦
                  IsProceeding-same host s answered (s, trust_failed user_non_interactive)
                    (rw (keyed, strict, missing, silent) refl) refl
              | inl asks ↦ elim (Option-cases scan) [
                | inl broken ↦
                    IsProceeding-same host s answered (s, trust_failed scan_failed)
                      (rw (keyed, strict, missing, asks, broken) refl) refl
                | inr (cs, scanned) ↦
                    IsProceeding-same host s answered (with_answer collate date_parse now cs ask s)
                      (rw (keyed, strict, missing, asks, scanned) refl)
                      (with_answer-IsProceeding now host cs ask s
                        (λ ds c same. of ds c (scanned ∙ same)))
              ]
            ]
          ]
        ]
      ]
    where
      answered : KnownHostsState × EnsureTrustedHostKeyResult
      answered = ensure_trusted_host_key collate date_parse now host interactive scan ask s
