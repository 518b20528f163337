-- ===== src/Connect/Ending.antt =====
-- `buildBackendConnection` of apps/desktop/src/lib/connections.ts ends: each round visits a host that it
-- has not visited, or finds the repetition.
use terminal_workspace.Common.{
  ℕ, zero, suc, ◌+◌, ◌≤◌, ◌<◌, ◌≡◌, refl, false, some, List, [], ◌∷◌, inl, inr, if◌then◌else◌, Text,
  ◌===◌, ===_iff, length, Bool-cases, Option-cases, arith,
}
use terminal_workspace.Common.Dict.{includes}
use terminal_workspace.Hosts.Types.{HostRecord}
use terminal_workspace.Vault.Records.{IdentityRecord, KnownHostRecord}
use terminal_workspace.Connect.Types.{
  ConnectionHop, direct, ConnectionResult, connection, failed, jump_host_cycle,
  trusted_key_required, jump_host_missing, ConnectionSecrets,
}
use terminal_workspace.Connect.Build.{
  find_host, jump_host_of, is_untrusted, hop_of, behind, build_recursive, build_backend_connection,
}

-- How many hosts are not in the chain.
unvisited : List Text → List HostRecord → ℕ
unfolding includes
unvisited chain [] = 0
unvisited chain (h ∷ hs) = (if includes h.id chain then 0 else 1) + unvisited chain hs

unvisited-le-length : (chain : List Text) (hs : List HostRecord) → unvisited chain hs ≤ length hs
unfolding unvisited
unvisited-le-length chain [] = omega arith
unvisited-le-length chain (h ∷ hs) = ground (arith, unvisited-le-length chain hs)

unvisited-grows :
    (i : Text) (chain : List Text) (hs : List HostRecord)
    → unvisited (i ∷ chain) hs ≤ unvisited chain hs
unfolding unvisited includes
unvisited-grows i chain [] = omega arith
unvisited-grows i chain (h ∷ hs) = ground (arith, unvisited-grows i chain hs)

unvisited-visit :
    (i : Text) (chain : List Text) (hs : List HostRecord) (j : HostRecord)
    → find_host i hs ≡ some j
    → includes j.id chain ≡ false
    → unvisited (j.id ∷ chain) hs < unvisited chain hs
unfolding unvisited includes find_host
unvisited-visit i chain [] j found new = cc
unvisited-visit i chain (h ∷ hs) j found new = elim (Bool-cases (h.id === i)) [
  | inl here ↦
      let e : h ≡ j = ground (arith, found, here) in
      ground (arith, new, e, ===_iff h.id j.id, unvisited-grows j.id chain hs)
  | inr there ↦ ground (arith, unvisited-visit i chain hs j (rw there at found) new)
]

module _ (hosts : List HostRecord) (identities : List IdentityRecord)
    (secrets : Text → ConnectionSecrets) (known_hosts : List KnownHostRecord) where
  abbrev Returns : ℕ → HostRecord → List Text → Type 0
  Returns fuel host chain =
      (r : ConnectionResult) × (build_recursive hosts identities secrets known_hosts fuel host chain
        ≡ some r)

  -- A round returns, if the rounds for the jump hosts that it may call return.
  round-Returns :
      (fuel : ℕ) (host : HostRecord) (chain : List Text)
      → ((i : Text) (jump : HostRecord)
          → includes host.id chain ≡ false
          → find_host i hosts ≡ some jump
          → Returns fuel jump (host.id ∷ chain))
      → Returns (suc fuel) host chain
  unfolding build_recursive
  round-Returns fuel host chain next = elim (Bool-cases (includes host.id chain)) [
    | inl again ↦ (failed (jump_host_cycle host), rw (build_recursive, again) refl)
    | inr new ↦ elim (Bool-cases (is_untrusted known_hosts host)) [
      | inl untrusted ↦
          (failed (trusted_key_required host), rw (build_recursive, new, untrusted) refl)
      | inr trusted ↦ elim (Option-cases (jump_host_of host)) [
        | inl last ↦ (connection (direct (hop host)), rw (build_recursive, new, trusted, last) refl)
        | inr (i, jumps) ↦ elim (Option-cases (find_host i hosts)) [
          | inl missing ↦ (
            failed (jump_host_missing host),
            rw (build_recursive, new, trusted, jumps, missing) refl,
          )
          | inr (jump, found) ↦
              let rest = next i jump new found in
              (
                behind hosts identities secrets known_hosts (hop host) rest.0,
                rw (build_recursive, new, trusted, jumps, found, rest.1) refl,
              )
        ]
      ]
    ]
  ]
    where
      hop : HostRecord → ConnectionHop
      hop = hop_of hosts identities secrets known_hosts

  jump-Returns :
      (fuel : ℕ) (i : Text) (host : HostRecord) (chain : List Text)
      → find_host i hosts ≡ some host
      → unvisited chain hosts < fuel
      → Returns fuel host chain
  jump-Returns zero i host chain found enough = absurd (omega (arith, enough))
  jump-Returns (suc fuel) i host chain found enough =
      round-Returns fuel host chain (λ j jump new there.
        jump-Returns fuel j jump (host.id ∷ chain) there
          (omega (arith, enough, unvisited-visit i chain hosts host found new)))

  -- Building a connection returns, with a connection or an error, also if the jump hosts form a cycle.
  pub build_backend_connection_returns :
      (host : HostRecord)
      → (r : ConnectionResult) × (build_backend_connection hosts identities secrets known_hosts host
          ≡ some r)
  unfolding build_backend_connection
  build_backend_connection_returns host =
      round-Returns (suc (length hosts)) host [] (λ i jump new found.
        jump-Returns (suc (length hosts)) i jump (host.id ∷ []) found
          (omega (arith, unvisited-le-length (host.id ∷ []) hosts)))
