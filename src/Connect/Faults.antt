-- ===== src/Connect/Faults.antt =====
-- The errors of `buildBackendConnection` of apps/desktop/src/lib/connections.ts: each names a host that
-- the jump hosts lead to, and what is wrong with it.
use terminal_workspace.Common.{
  ℕ, zero, suc, ◌≡◌, ◌∙◌, true, none, some, List, [], ◌∷◌, inl, inr, Text, ◌===◌, ===_iff, length,
  Bool-cases, Option-cases, arith,
}
use mathlib.Core.Path.{subst}
use terminal_workspace.Common.Dict.{includes}
use terminal_workspace.Hosts.Types.{HostRecord}
use terminal_workspace.Vault.Records.{IdentityRecord, KnownHostRecord}
use terminal_workspace.Connect.Types.{
  ConnectionError, jump_host_cycle, trusted_key_required, jump_host_missing, ConnectionResult,
  connection, failed, ConnectionSecrets,
}
use terminal_workspace.Connect.Build.{
  find_host, jump_host_of, is_untrusted, hop_of, behind, build_recursive, build_backend_connection,
}

module _ (hosts : List HostRecord) (identities : List IdentityRecord)
    (secrets : Text → ConnectionSecrets) (known_hosts : List KnownHostRecord) where
  -- The host that the first host jumps to.
  abbrev pub IsJump : HostRecord → HostRecord → Type 0
  IsJump h j = (i : Text) × (jump_host_of h ≡ some i) × (find_host i hosts ≡ some j)

  -- The hosts that the jump hosts of a host lead to, itself included.
  pub data Leads : HostRecord → HostRecord → Type 0 where
    here : {h : HostRecord} → Leads h h
    jump : {h j k : HostRecord} → Leads h j → IsJump j k → Leads h k

  -- What an error says is so: the host lacks a trusted key, or its jump host is missing, or it has the
  -- id of a host that leads to it over at least one jump.
  abbrev pub IsFault : HostRecord → ConnectionError → Type 0
  IsFault h (trusted_key_required k) = Leads h k × (is_untrusted known_hosts k ≡ true)
  IsFault h (jump_host_missing k) =
      Leads h k × ((i : Text) × (jump_host_of k ≡ some i) × (find_host i hosts ≡ none))
  IsFault h (jump_host_cycle k) =
      (m : HostRecord) × (j : HostRecord) × Leads h m × IsJump m j × Leads j k × (m.id ≡ k.id)

  -- Each id of the chain is that of a host on the way to the current one.
  abbrev IsWay : HostRecord → HostRecord → List Text → Type 0
  IsWay h k chain =
      (p : Text)
      → includes p chain ≡ true
      → (m : HostRecord) × (j : HostRecord) × Leads h m × IsJump m j × Leads j k × (m.id ≡ p)

  IsWay-jump :
      (h k l : HostRecord) (chain : List Text)
      → Leads h k
      → IsJump k l
      → IsWay h k chain
      → IsWay h l (k.id ∷ chain)
  unfolding includes
  IsWay-jump h k l chain leads jumps way p there = elim (Bool-cases (k.id === p)) [
    | inl same ↦ (k, l, leads, jumps, here, (===_iff k.id p).0 same)
    | inr other ↦
        let (m, j, to_m, m_j, to_k, same) = way p (rw other at there) in
        (m, j, to_m, m_j, jump to_k jumps, same)
  ]

  IsFault-same :
      (h : HostRecord) (x e : ConnectionError)
      → IsFault h x
      → some (failed x) ≡ some (failed e)
      → IsFault h e
  IsFault-same h x e fault same = let e' : x ≡ e = cc same in subst (IsFault h) e' fault

  failed-behind :
      (k : HostRecord) (e : ConnectionError) (r : ConnectionResult)
      → some (
          behind hosts identities secrets known_hosts
            (hop_of hosts identities secrets known_hosts k)
            r)
        ≡ some (failed e)
      → some r ≡ some (failed e)
  unfolding behind
  failed-behind k e (connection c) same = cc
  failed-behind k e (failed x) same = same

  build-IsFault :
      (fuel : ℕ) (h k : HostRecord) (chain : List Text) (e : ConnectionError)
      → Leads h k
      → IsWay h k chain
      → build_recursive hosts identities secrets known_hosts fuel k chain ≡ some (failed e)
      → IsFault h e
  unfolding build_recursive
  build-IsFault zero h k chain e leads way returned = cc
  build-IsFault (suc fuel) h k chain e leads way returned =
      elim (Bool-cases (includes k.id chain)) [
        | inl again ↦
            IsFault-same h (jump_host_cycle k) e (way k.id again)
              (rw (build_recursive, again) at returned)
        | inr new ↦ elim (Bool-cases (is_untrusted known_hosts k)) [
          | inl untrusted ↦
              IsFault-same h (trusted_key_required k) e (leads, untrusted)
                (rw (build_recursive, new, untrusted) at returned)
          | inr trusted ↦ elim (Option-cases (jump_host_of k)) [
            | inl last ↦ ground (arith, rw (build_recursive, new, trusted, last) at returned)
            | inr (i, jumps) ↦ elim (Option-cases (find_host i hosts)) [
              | inl missing ↦
                  IsFault-same h (jump_host_missing k) e (leads, (i, jumps, missing))
                    (rw (build_recursive, new, trusted, jumps, missing) at returned)
              | inr (l, found) ↦
                  elim (Option-cases
                    (build_recursive hosts identities secrets known_hosts fuel l (k.id ∷ chain))) [
                      | inl out ↦
                          ground (
                            arith,
                            rw (build_recursive, new, trusted, jumps, found, out) at returned,
                          )
                      | inr (r, rest) ↦
                          build-IsFault fuel h l (k.id ∷ chain) e (jump leads (i, jumps, found))
                            (IsWay-jump h k l chain leads (i, jumps, found) way)
                            (rest
                              ∙ failed-behind k e r (
                                  rw (build_recursive, new, trusted, jumps, found, rest) at
                                    returned))
                    ]
            ]
          ]
        ]
      ]

  -- A failure names a host that the jump hosts lead to: one that requires a trusted key and has none,
  -- one whose jump host is missing, or one with the id of a host that leads to it by jumps.
  pub build_backend_connection-IsFault :
      (h : HostRecord) (e : ConnectionError)
      → build_backend_connection hosts identities secrets known_hosts h ≡ some (failed e)
      → IsFault h e
  unfolding build_backend_connection includes
  build_backend_connection-IsFault h e returned =
      build-IsFault (suc (suc (length hosts))) h h [] e here (λ p there. cc) returned
