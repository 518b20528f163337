-- ===== src/Connect/Launching.antt =====
-- A session is opened, or its failure is reported
-- (apps/desktop/src/lib/launch-host-session.ts).
use terminal_workspace.Common.{
  ℕ, ◌≡◌, ◌≢◌, ◌⊎◌, refl, Bool, true, false, Option, none, some, List, [], ◌∷◌, ◌++◌, inl, inr,
  Text, text, is_empty, Option-cases, arith, ◌∙◌, sym, ap, ◌===◌, map, All, Bool-cases, or_else,
  if◌then◌else◌,
}
use mathlib.Core.List.{append_assoc, Perm}
use terminal_workspace.Common.Int.{ℤ}
use terminal_workspace.Sessions.Types.{SessionTab}
use terminal_workspace.Sessions.Tabs.{Draws, find_host_tab, open_session_workspace}
use terminal_workspace.Sessions.Counts.{tab_ids}
use terminal_workspace.Sessions.Titles.{print_nat}
use terminal_workspace.Sessions.Opened.{tab_ids-open, find_host_tab-open, find_host_tab-host}
use terminal_workspace.Sessions.Store.{open_session}
use terminal_workspace.Hosts.Types.{HostRecord}
use terminal_workspace.Hosts.Normal.{normalize_host_record, normal_sftp_root}
use terminal_workspace.Hosts.Sorting.{changed-Perm}
use terminal_workspace.Hosts.Store.{mark_host_connected_in_collection, update_where}
use terminal_workspace.Connect.Build.{
  jump_host_of, needs_trusted_key, find_known_host_match, is_untrusted,
}
use terminal_workspace.Connect.KnownHosts.{
  KnownHostScanResult, KnownHostsState, TrustRefused, user_rejected, user_non_interactive,
  scan_failed, scan_empty, EnsureTrustedHostKeyResult, trust_ok, trust_failed,
  ensure_trusted_host_key,
}
use terminal_workspace.Connect.Trusting.{
  IsAcceptedOf, IsProceeding, ensure_trusted_host_key-IsProceeding,
}
use terminal_workspace.Connect.Launch.{
  ConnectErrorTone, error_tone, LaunchHostSessionResult, opened_tab, not_trusted, trust_scan_threw,
  LaunchState, report_connect_error, clear_connect_error, unreachable_message, refusal_message,
  refusal_tone, host_and_port, launch_trusted, launch_host_session_inner,
}

ended-given : (a : Text) (c : ℕ) (b : Text) → is_empty (a ++ c ∷ b) ≡ false
ended-given [] c b = refl
ended-given (x ∷ a) c b = refl

-- A message names the host, by its label or by its name.
pub record IsNaming (host : HostRecord) (message : Text) : Type 0 where
  pub before : Text
  pub after : Text
  pub named :
      (message ≡ before ++ host.label ++ after) ⊎ (message ≡ before ++ host.hostname ++ after)

-- A failure shows its message, which is not empty and names the host, and changes no other store.
pub record IsReported (host : HostRecord) (s t : LaunchState) (message : Text)
    (tone : ConnectErrorTone) : Type 0 where
  pub given : is_empty message ≡ false
  pub naming : IsNaming host message
  pub shown : t.connect_error ≡ record { message = some message; tone = tone }
  pub known : t.known ≡ s.known
  pub hosts : t.hosts ≡ s.hosts
  pub sessions : t.sessions ≡ s.sessions

-- The host with the time as that of its last connection.
abbrev pub connected_at : Text → Text → HostRecord → HostRecord
connected_at now i h = if h.id === i then record h { last_connected_at = some now } else h

-- A host that is opened does not lack a trusted key; the tab that is returned is active, it is the first
-- of the host, the host has the time of the connection, and no error stays.
pub record IsOpened (d : Draws) (host : HostRecord) (s t : LaunchState) (tab : Text) : Type 0 where
  pub trusted : is_untrusted t.known.trusted host ≡ false
  pub session : SessionTab
  pub shown : find_host_tab host.id t.sessions.tabs ≡ some session
  pub own : session.id ≡ tab
  pub of_host : session.host_id ≡ host.id
  -- No tab is lost, and at most one is new.
  pub kept :
      (tab_ids t.sessions.tabs ≡ tab_ids s.sessions.tabs)
      ⊎ (tab_ids t.sessions.tabs ≡ tab_ids s.sessions.tabs ++ d.tab_id ∷ [])
  pub active : t.sessions.active_tab_id ≡ some tab
  pub marked : Perm t.hosts (map (connected_at d.now host.id) s.hosts)
  pub cleared : t.connect_error.message ≡ none

abbrev IsNormal : (Text → Text) → HostRecord → Type 0
IsNormal to_lower_case h = normalize_host_record to_lower_case h ≡ h

module _ (to_lower_case : Text → Text) (collate : Text → Text → Bool) where
  abbrev pub IsLaunched :
      Draws → HostRecord → LaunchState → LaunchState × LaunchHostSessionResult → Type 0
  IsLaunched d host s (t, opened_tab tab) = IsOpened d host s t tab
  IsLaunched d host s (t, not_trusted reason message) =
      IsReported host s t message (refusal_tone reason)
  IsLaunched d host s (t, trust_scan_threw message) = IsReported host s t message error_tone

  refusal_message-given :
      (host : HostRecord) (reason : TrustRefused) → is_empty (refusal_message host reason) ≡ false
  unfolding refusal_message host_and_port
  refusal_message-given host user_rejected = refl
  refusal_message-given host scan_failed = refl
  refusal_message-given host user_non_interactive = refl
  refusal_message-given host scan_empty = ended-given (host_and_port host) _ _

  host_and_port-IsNaming :
      (host : HostRecord) (before after : Text)
      → IsNaming host (before ++ host_and_port host ++ after)
  unfolding host_and_port
  host_and_port-IsNaming host before after = record {
    before = before;
    after = text ":" ++ print_nat host.port ++ after;
    named = inr (simp append_assoc);
  }

  refusal_message-IsNaming :
      (host : HostRecord) (reason : TrustRefused) → IsNaming host (refusal_message host reason)
  unfolding refusal_message
  refusal_message-IsNaming host user_rejected = record {
    before = text "Connection cancelled — host key for ";
    after = text " was not trusted.";
    named = inl refl;
  }
  refusal_message-IsNaming host scan_failed = host_and_port-IsNaming host (text "Could not scan ") _
  refusal_message-IsNaming host scan_empty = host_and_port-IsNaming host [] _
  refusal_message-IsNaming host user_non_interactive = record {
    before = text "Could not prompt for the host key of ";
    after = text ". Open the host from the Hosts page to approve it.";
    named = inl refl;
  }

  unreachable_message-IsNaming : (host : HostRecord) → IsNaming host (unreachable_message host)
  unfolding unreachable_message
  unreachable_message-IsNaming host = host_and_port-IsNaming host (text "Could not reach ") _

  -- The time of the last connection does not matter for the normal form.
  connected_at-IsNormal :
      (now i : Text) (h : HostRecord)
      → IsNormal to_lower_case h
      → IsNormal to_lower_case (connected_at now i h)
  unfolding normalize_host_record jump_host_of normal_sftp_root
  connected_at-IsNormal now i h normal = elim (Bool-cases (h.id === i)) [
    | inl own ↦ rw own (ap (λ (g : HostRecord). record g { last_connected_at = some now }) normal)
    | inr other ↦ rw other normal
  ]

  mark_host_connected-Perm :
      (now i : Text) (hs : List HostRecord)
      → All (IsNormal to_lower_case) hs
      → Perm
          (mark_host_connected_in_collection to_lower_case collate now hs i)
          (map (connected_at now i) hs)
  unfolding mark_host_connected_in_collection update_where
  mark_host_connected-Perm now i hs normal =
      changed-Perm to_lower_case collate (connected_at now i) hs (connected_at-IsNormal now i)
        normal

  proceeding-trusted :
      (host : HostRecord) (t : KnownHostsState)
      → (needs_trusted_key host ≡ false) ⊎ (find_known_host_match t.trusted host ≢ none)
      → is_untrusted t.trusted host ≡ false
  unfolding is_untrusted
  proceeding-trusted host t (inl needless) = rw (is_untrusted, needless) refl
  proceeding-trusted host t (inr there) =
      elim (Option-cases (find_known_host_match t.trusted host)) [
        | inl missing ↦ absurd (there missing)
        | inr (k, found) ↦ rw (is_untrusted, found) (ground arith)
      ]

  launch_trusted-IsLaunched :
      (date_parse : Text → Option ℤ) (d : Draws) (host : HostRecord) (s : LaunchState)
      (r : KnownHostsState × EnsureTrustedHostKeyResult)
      → IsProceeding collate date_parse host s.known r
      → All (IsNormal to_lower_case) s.hosts
      → IsLaunched d host s (launch_trusted to_lower_case collate d host (some r) s)
  unfolding launch_trusted report_connect_error clear_connect_error open_session
  launch_trusted-IsLaunched date_parse d host s (known, trust_ok granted) h normal =
      let (tab, found, active) = find_host_tab-open d s.sessions host in
      let id_of = ap (λ (o : Option Text). or_else o []) active in
      record {
        trusted = proceeding-trusted host known h;
        session = tab;
        shown = found;
        own = sym id_of;
        of_host =
            find_host_tab-host host.id (open_session_workspace d s.sessions host).tabs tab found;
        kept = tab_ids-open d s.sessions host;
        active = active ∙ ap some (sym id_of);
        marked = mark_host_connected-Perm d.now host.id s.hosts normal;
        cleared = refl;
      }
  launch_trusted-IsLaunched date_parse d host s (known, trust_failed reason) h normal = record {
    given = refusal_message-given host reason;
    naming = refusal_message-IsNaming host reason;
    shown = rw (refusal_message-given host reason) refl;
    known = h;
    hosts = refl;
    sessions = refl;
  }

  -- For hosts in their normal form, opening a session of a host either opens it or fails. If it opens, the tab
  -- that is returned is active and the first of the host, no other tab goes and at most one is new, the host does not lack a trusted key, the hosts are
  -- the same in some order but for the time of its last connection, and no error is shown. If it fails, a
  -- message that is not empty and names the host by its label or its name is shown, and nothing else changes.
  -- The keys that the user accepts are assumed to be of the host's name and port.
  pub launch_host_session_inner-IsLaunched :
      (date_parse : Text → Option ℤ) (d : Draws) (host : HostRecord) (throws : Bool)
      (scan : Option (List KnownHostScanResult))
      (ask : List KnownHostScanResult → Option KnownHostScanResult) (s : LaunchState)
      → IsAcceptedOf host scan ask
      → All (λ h. normalize_host_record to_lower_case h ≡ h) s.hosts
      → IsLaunched d host s
          (launch_host_session_inner to_lower_case collate date_parse d host throws scan ask s)
  unfolding launch_host_session_inner launch_trusted report_connect_error unreachable_message
  launch_host_session_inner-IsLaunched date_parse d host true scan ask s of normal = record {
    given = refl;
    naming = unreachable_message-IsNaming host;
    shown = refl;
    known = refl;
    hosts = refl;
    sessions = refl;
  }
  launch_host_session_inner-IsLaunched date_parse d host false scan ask s of normal =
      launch_trusted-IsLaunched date_parse d host s
        (ensure_trusted_host_key collate date_parse d.now host true scan ask s.known)
        (ensure_trusted_host_key-IsProceeding collate date_parse d.now host true scan ask s.known
          of)
        normal
