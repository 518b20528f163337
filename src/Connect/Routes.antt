-- ===== src/Connect/Routes.antt =====
-- The connections that `buildBackendConnection` of apps/desktop/src/lib/connections.ts builds are those
-- of the routes over jump hosts that repeat no host and lack no trusted key.
use terminal_workspace.Common.{
  ℕ, zero, suc, ◌≤◌, ◌≡◌, ◌≢◌, ◌∙◌, ◌↔◌, refl, sym, ap, false, Option, none, some, List, [], ◌∷◌,
  map, inl, inr, Text, ===_iff, All, Bool-cases, Option-cases, arith, length,
}
use terminal_workspace.Common.Dict.{count, includes, includes-count, count-includes}
use terminal_workspace.Hosts.Types.{HostRecord}
use terminal_workspace.Vault.Records.{IdentityRecord, KnownHostRecord}
use terminal_workspace.Connect.Types.{
  BackendHostConnection, direct, via, ConnectionResult, connection, failed, ConnectionSecrets,
}
use terminal_workspace.Connect.Build.{
  find_host, jump_host_of, is_untrusted, hop_of, behind, build_recursive, build_backend_connection,
}
use terminal_workspace.Connect.Ending.{build_backend_connection_returns}

abbrev pub ids : List HostRecord → List Text
ids = map (λ (h : HostRecord). h.id)

module _ (hosts : List HostRecord) (identities : List IdentityRecord)
    (secrets : Text → ConnectionSecrets) (known_hosts : List KnownHostRecord) where
  -- The first host has the second as its jump host, and so on; the last needs none.
  abbrev pub IsRoute : HostRecord → List HostRecord → Type 0
  IsRoute h [] = jump_host_of h ≡ none
  IsRoute h (j ∷ rest) =
      ((i : Text) × (jump_host_of h ≡ some i) × (find_host i hosts ≡ some j)) × IsRoute j rest

  unfoldable pub connection_over : HostRecord → List HostRecord → BackendHostConnection
  unfolding hop_of
  connection_over h [] = direct (hop_of hosts identities secrets known_hosts h)
  connection_over h (j ∷ rest) =
      via (hop_of hosts identities secrets known_hosts h) (connection_over j rest)

  -- A route that repeats no host, also none of a chain, and lacks no trusted key.
  pub record IsOpen (chain : List Text) (h : HostRecord) (rest : List HostRecord) : Type 0 where
    pub route : IsRoute h rest
    pub once : (p : Text) → count p (ids (h ∷ rest)) ≤ 1
    pub apart : (p : Text) → 1 ≤ count p chain → count p (ids (h ∷ rest)) ≡ 0
    pub trusted : All (λ r. is_untrusted known_hosts r ≡ false) (h ∷ rest)

  abbrev build : ℕ → HostRecord → List Text → Option ConnectionResult
  build = build_recursive hosts identities secrets known_hosts

  abbrev Built : HostRecord → List Text → BackendHostConnection → Type 0
  Built h chain c = (rest : List HostRecord) × IsOpen chain h rest × (c ≡ connection_over h rest)

  IsOpen-here :
      (chain : List Text) (h : HostRecord)
      → includes h.id chain ≡ false
      → is_untrusted known_hosts h ≡ false
      → jump_host_of h ≡ none
      → IsOpen chain h []
  unfolding count
  IsOpen-here chain h new trusted last = record {
    route = last;
    once = λ p. ground arith;
    apart = λ p there. ground (arith, there, ===_iff h.id p, count-includes h.id chain new);
    trusted = (trusted, tt);
  }

  IsOpen-jump :
      (chain : List Text) (h : HostRecord) (i : Text) (j : HostRecord) (rest : List HostRecord)
      → includes h.id chain ≡ false
      → is_untrusted known_hosts h ≡ false
      → jump_host_of h ≡ some i
      → find_host i hosts ≡ some j
      → IsOpen (h.id ∷ chain) j rest
      → IsOpen chain h (j ∷ rest)
  unfolding count
  IsOpen-jump chain h i j rest new trusted jumps found o = record {
    route = ((i, jumps, found), o.route);
    once = λ p. ground (arith, o.once p, o.apart p);
    apart =
        λ p there. ground (arith, there, o.apart p, ===_iff h.id p, count-includes h.id chain new);
    trusted = (trusted, o.trusted);
  }

  Built-jump :
      (h : HostRecord) (i : Text) (j : HostRecord) (chain : List Text) (c : BackendHostConnection)
      (r : ConnectionResult)
      → includes h.id chain ≡ false
      → is_untrusted known_hosts h ≡ false
      → jump_host_of h ≡ some i
      → find_host i hosts ≡ some j
      → behind hosts identities secrets known_hosts
          (hop_of hosts identities secrets known_hosts h)
          r
        ≡ connection c
      → ((d : BackendHostConnection) → r ≡ connection d → Built j (h.id ∷ chain) d)
      → Built h chain c
  unfolding behind connection_over
  Built-jump h i j chain c (failed x) new trusted jumps found e next = cc
  Built-jump h i j chain c (connection d) new trusted jumps found e next =
      let (rest, o, same) = next d refl in
      (j ∷ rest, IsOpen-jump chain h i j rest new trusted jumps found o, cc (e, same))

  -- What is built is the connection over an open route.
  build-Built :
      (fuel : ℕ) (h : HostRecord) (chain : List Text) (c : BackendHostConnection)
      → build fuel h chain ≡ some (connection c)
      → Built h chain c
  unfolding build_recursive connection_over behind
  build-Built zero h chain c e = cc
  build-Built (suc fuel) h chain c e = elim (Bool-cases (includes h.id chain)) [
    | inl again ↦ ground (arith, rw (build_recursive, again) at e)
    | inr new ↦ elim (Bool-cases (is_untrusted known_hosts h)) [
      | inl untrusted ↦ ground (arith, rw (build_recursive, new, untrusted) at e)
      | inr trusted ↦ elim (Option-cases (jump_host_of h)) [
        | inl last ↦ (
          [],
          IsOpen-here chain h new trusted last,
          ground (arith, rw (build_recursive, new, trusted, last) at e),
        )
        | inr (i, jumps) ↦ elim (Option-cases (find_host i hosts)) [
          | inl missing ↦ ground (arith, rw (build_recursive, new, trusted, jumps, missing) at e)
          | inr (j, found) ↦ elim (Option-cases (build fuel j (h.id ∷ chain))) [
            | inl out ↦ ground (arith, rw (build_recursive, new, trusted, jumps, found, out) at e)
            | inr (r, returned) ↦
                Built-jump h i j chain c r new trusted jumps found
                  (ground (arith, rw (build_recursive, new, trusted, jumps, found, returned) at e))
                  (λ d same. build-Built fuel j (h.id ∷ chain) d (returned ∙ ap some same))
          ]
        ]
      ]
    ]
  ]

  IsOpen-new :
      (chain : List Text) (h : HostRecord) (rest : List HostRecord)
      → IsOpen chain h rest
      → includes h.id chain ≡ false
  unfolding count
  IsOpen-new chain h rest o = elim (Bool-cases (includes h.id chain)) [
    | inl again ↦ ground (arith, o.apart h.id (includes-count h.id chain again), ===_iff h.id h.id)
    | inr new ↦ new
  ]

  IsOpen-tail :
      (chain : List Text) (h j : HostRecord) (rest : List HostRecord)
      → IsOpen chain h (j ∷ rest)
      → IsOpen (h.id ∷ chain) j rest
  unfolding count
  IsOpen-tail chain h j rest o = record {
    route = o.route.1;
    once = λ p. ground (arith, o.once p);
    apart = λ p there. ground (arith, there, o.once p, o.apart p);
    trusted = o.trusted.1;
  }

  -- The connection over an open route is built, if the fuel does not run out.
  open-built :
      (fuel : ℕ) (h : HostRecord) (rest : List HostRecord) (chain : List Text)
      → IsOpen chain h rest
      → build fuel h chain ≢ none
      → build fuel h chain ≡ some (connection (connection_over h rest))
  unfolding build_recursive connection_over behind
  open-built zero h rest chain o returns = absurd (returns refl)
  open-built (suc fuel) h [] chain o returns =
      rw (build_recursive, IsOpen-new chain h [] o, o.trusted.0, o.route) refl
  open-built (suc fuel) h (j ∷ rest) chain o returns =
      let new = IsOpen-new chain h (j ∷ rest) o in
      let (i, jumps, found) = o.route.0 in
      let rounds : build fuel j (h.id ∷ chain) ≢ none =
        λ out. returns (rw (build_recursive, new, o.trusted.0, jumps, found, out) refl) in
      rw
        (
          build_recursive,
          new,
          o.trusted.0,
          jumps,
          found,
          open-built fuel j rest (h.id ∷ chain) (IsOpen-tail chain h j rest o) rounds,
        )
        refl

  -- A connection is built exactly over a route whose hosts are each the jump host of the one before,
  -- the last needing none, that repeats no host and on which each host that requires a trusted key has
  -- one; and it is the connection over that route.
  pub build_backend_connection_routes :
      (h : HostRecord) (c : BackendHostConnection)
      → (build_backend_connection hosts identities secrets known_hosts h ≡ some (connection c))
        ↔ ((rest : List HostRecord) × IsOpen [] h rest × (c ≡ connection_over h rest))
  unfolding build_backend_connection
  build_backend_connection_routes h c = (
    build-Built (suc (suc (length hosts))) h [] c,
    λ (rest, o, same).
        open-built (suc (suc (length hosts))) h rest [] o (λ out.
          let (r, returned) =
            build_backend_connection_returns hosts identities secrets known_hosts h in
          cc (out, returned))
        ∙ ap (λ d. some (connection d)) (sym same),
  )
