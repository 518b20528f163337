-- ===== src/Connect/Tests.antt =====
-- Concrete runs of connecting to a host (apps/desktop/src/lib/connections.ts, lib/ensure-trusted-host-key.ts,
-- store/known-hosts-store.ts and the prompt stores), and the theorems at inputs where their hypotheses hold.
use terminal_workspace.Common.{
  ◌≡◌, ◌↔◌, refl, true, Option, none, some, List, [], ◌∷◌, Text, text, false, ◌===◌, arith, All,
}
use terminal_workspace.Common.Dict.{count}
use terminal_workspace.Hosts.Types.{HostRecord}
use terminal_workspace.Vault.Records.{KnownHostRecord}
use terminal_workspace.Vault.Deletions.{empty_deletion_map}
use terminal_workspace.Vault.Tests.{host, by_units, parse_date}
use terminal_workspace.Hosts.Normal.{normalize_host_record}
use terminal_workspace.Connect.Types.{
  jump_host_cycle, trusted_key_required, jump_host_missing, ConnectionResult, connection, failed,
  ConnectionSecrets,
}
use terminal_workspace.Connect.Build.{build_backend_connection}
use terminal_workspace.Connect.Ending.{build_backend_connection_returns}
use terminal_workspace.Connect.Routes.{IsOpen, connection_over, build_backend_connection_routes}
use terminal_workspace.Connect.Faults.{IsFault, build_backend_connection-IsFault}
use terminal_workspace.Connect.KnownHosts.{
  KnownHostScanResult, KnownHostsState, create_known_host_record, trust_ok, accepted_key,
  scan_failed, trust_known_host, remove_known_host, ensure_trusted_host_key,
}
use terminal_workspace.Connect.Trusting.{
  IsClear, IsProceeding, known_hosts-IsClear, ensure_trusted_host_key-IsProceeding,
}
use terminal_workspace.Connect.Prompts.{
  FingerprintTrustPromptRequest, fingerprint_prompt_key, closed_state,
}
use terminal_workspace.Connect.Bus.{
  PromptAction, open_request, answer_request, go_on, closed, nothing, waits, refused, Implements,
  run_store, run_bus, run_store-Implements,
}
use terminal_workspace.Sessions.Tabs.{Draws}
use terminal_workspace.Sessions.Tests.{two}
use terminal_workspace.Connect.Launch.{
  error_tone, not_trusted, LaunchState, launch_host_session_inner,
}
use terminal_workspace.Connect.Launching.{IsLaunched, launch_host_session_inner-IsLaunched}

-- A host behind another one, and two hosts that are each behind the other.
abbrev behind_host : Text → Text → HostRecord
behind_host i j = record (host i []) { jump_host_id = some j }

abbrev inner : HostRecord
inner = behind_host (text "inner") (text "gate")

abbrev gate : HostRecord
gate = host (text "gate") []

abbrev ring : List HostRecord
ring = behind_host (text "a") (text "b") ∷ behind_host (text "b") (text "a") ∷ []

abbrev no_secrets : Text → ConnectionSecrets
no_secrets i = record { password = []; passphrase = [] }

abbrev scanned : HostRecord → KnownHostScanResult
scanned h = record {
  algorithm = text "ed25519";
  fingerprint = text "SHA256:x";
  hostname = h.hostname;
  port = h.port;
  public_key = text "AAAA";
}

abbrev known : HostRecord → KnownHostRecord
known h = create_known_host_record (text "1") (scanned h)

abbrev both_known : List KnownHostRecord
both_known = known inner ∷ known gate ∷ []

ring_known : List KnownHostRecord
ring_known =
    known (behind_host (text "a") (text "b")) ∷ known (behind_host (text "b") (text "a")) ∷ []

inner_untrusted :
    build_backend_connection (inner ∷ gate ∷ []) [] no_secrets (known inner ∷ []) inner
    ≡ some (failed (trusted_key_required gate))
unfolding build_backend_connection create_known_host_record
inner_untrusted = refl

inner_missing :
    build_backend_connection (inner ∷ []) [] no_secrets both_known inner
    ≡ some (failed (jump_host_missing inner))
unfolding build_backend_connection create_known_host_record
inner_missing = refl

inner_open :
    build_backend_connection (inner ∷ gate ∷ []) [] no_secrets both_known inner
    ≡ some (
        connection (connection_over (inner ∷ gate ∷ []) [] no_secrets both_known inner (gate ∷ [])))
unfolding build_backend_connection create_known_host_record connection_over
inner_open = refl

ring_cycle :
    build_backend_connection ring [] no_secrets ring_known (behind_host (text "a") (text "b"))
    ≡ some (failed (jump_host_cycle (behind_host (text "a") (text "b"))))
unfolding build_backend_connection create_known_host_record ring_known
ring_cycle = refl

build_backend_connection_returns_example :
    (r : ConnectionResult) × (build_backend_connection ring [] no_secrets ring_known
        (behind_host (text "a") (text "b"))
      ≡ some r)
build_backend_connection_returns_example =
    build_backend_connection_returns ring [] no_secrets ring_known
      (behind_host (text "a") (text "b"))

build_backend_connection_routes_example :
    (build_backend_connection (inner ∷ gate ∷ []) [] no_secrets both_known inner
      ≡ some (
          connection
            (connection_over (inner ∷ gate ∷ []) [] no_secrets both_known inner (gate ∷ []))))
    ↔ ((rest : List HostRecord) × IsOpen (inner ∷ gate ∷ []) [] no_secrets both_known [] inner rest
        × (connection_over (inner ∷ gate ∷ []) [] no_secrets both_known inner (gate ∷ [])
            ≡ connection_over (inner ∷ gate ∷ []) [] no_secrets both_known inner rest))
build_backend_connection_routes_example =
    build_backend_connection_routes (inner ∷ gate ∷ []) [] no_secrets both_known inner
      (connection_over (inner ∷ gate ∷ []) [] no_secrets both_known inner (gate ∷ []))

build_backend_connection-IsFault_example :
    IsFault ring [] no_secrets ring_known
      (behind_host (text "a") (text "b"))
      (jump_host_cycle (behind_host (text "a") (text "b")))
build_backend_connection-IsFault_example =
    build_backend_connection-IsFault ring [] no_secrets ring_known
      (behind_host (text "a") (text "b")) (jump_host_cycle (behind_host (text "a") (text "b")))
      ring_cycle

abbrev nothing_known : KnownHostsState
nothing_known = record { trusted = []; deletions = empty_deletion_map }

nothing_known-IsClear : IsClear nothing_known
unfolding empty_deletion_map count
nothing_known-IsClear = record { once = λ p. omega arith; alive = tt }

known_hosts-IsClear_example :
    IsClear (trust_known_host by_units parse_date (text "1") (scanned gate) nothing_known)
    × IsClear
        (remove_known_host by_units parse_date 1 (text "1") (text "gate:22:ed25519") nothing_known)
known_hosts-IsClear_example =
    known_hosts-IsClear by_units parse_date 1 (text "1") (text "gate:22:ed25519") (scanned gate)
      nothing_known nothing_known-IsClear

abbrev first_of : List KnownHostScanResult → Option KnownHostScanResult
first_of [] = none
first_of (c ∷ cs) = some c

gate_accepted :
    (ensure_trusted_host_key by_units parse_date
      (text "1")
      gate
      true
      (some (scanned gate ∷ []))
      first_of
      nothing_known).1
    ≡ trust_ok (accepted_key (scanned gate))
unfolding ensure_trusted_host_key
gate_accepted = refl

first_of-gate :
    (cs : List KnownHostScanResult) (c : KnownHostScanResult)
    → some (scanned gate ∷ []) ≡ some cs
    → first_of cs ≡ some c
    → (c.hostname ≡ gate.hostname) × (c.port ≡ gate.port)
first_of-gate [] c h k = cc
first_of-gate (d ∷ ds) c h k = let e : scanned gate ≡ c = cc (h, k) in (cc e, cc e)

ensure_trusted_host_key-IsProceeding_example : IsProceeding by_units parse_date gate nothing_known (
    ensure_trusted_host_key by_units parse_date
      (text "1")
      gate
      true
      (some (scanned gate ∷ []))
      first_of
      nothing_known)
ensure_trusted_host_key-IsProceeding_example =
    ensure_trusted_host_key-IsProceeding by_units parse_date (text "1") gate true
      (some (scanned gate ∷ [])) first_of nothing_known first_of-gate

abbrev asking_gate : FingerprintTrustPromptRequest
asking_gate = record {
  host_id = text "gate";
  host_label = text "gate";
  hostname = text "gate";
  port = 22;
  candidates = scanned gate ∷ [];
}

-- A request, another for the same host, one for another host, and the answer.
abbrev prompt_actions :
    List (PromptAction FingerprintTrustPromptRequest (Option KnownHostScanResult))
prompt_actions =
    open_request asking_gate
    ∷ open_request asking_gate
    ∷ open_request (record asking_gate { hostname = text "other" })
    ∷ answer_request (some (scanned gate))
    ∷ go_on
    ∷ []

prompts_shown :
    (run_store fingerprint_prompt_key none prompt_actions
      (closed_state fingerprint_prompt_key none)).1
    ≡ waits ∷ waits ∷ refused ∷ nothing ∷ nothing ∷ []
unfolding run_store closed_state fingerprint_prompt_key
prompts_shown = refl

run_store-Implements_example :
    Implements fingerprint_prompt_key none
      (run_store fingerprint_prompt_key none prompt_actions
        (closed_state fingerprint_prompt_key none)).0
      (run_bus fingerprint_prompt_key none prompt_actions closed).0
    × ((run_store fingerprint_prompt_key none prompt_actions
          (closed_state fingerprint_prompt_key none)).1
        ≡ (run_bus fingerprint_prompt_key none prompt_actions closed).1)
run_store-Implements_example = run_store-Implements fingerprint_prompt_key none prompt_actions

abbrev same : Text → Text
same s = s

abbrev idle : LaunchState
idle = record {
  known = nothing_known;
  hosts = gate ∷ [];
  sessions = two;
  connect_error = record { message = none; tone = error_tone };
}

abbrev drawn : Draws
drawn = record { now = text "1"; pane_id = text "p"; tab_id = text "t" }

gate_normal : All (λ h. normalize_host_record same h ≡ h) idle.hosts
unfolding normalize_host_record ◌===◌
gate_normal = (refl, tt)

launch_host_session_inner-IsLaunched_example : IsLaunched same by_units drawn gate idle (
    launch_host_session_inner same by_units parse_date drawn gate false
      (some (scanned gate ∷ []))
      first_of
      idle)
launch_host_session_inner-IsLaunched_example =
    launch_host_session_inner-IsLaunched same by_units parse_date drawn gate false
      (some (scanned gate ∷ [])) first_of idle first_of-gate gate_normal

gate_unscanned :
    (launch_host_session_inner same by_units parse_date drawn gate false none first_of idle).1
    ≡ not_trusted scan_failed
        (text "Could not scan gate:22. Check that the host is reachable and try again.")
unfolding launch_host_session_inner ◌===◌
gate_unscanned = refl
