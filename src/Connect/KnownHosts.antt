-- ===== src/Connect/KnownHosts.antt =====
-- The trusted host keys: apps/desktop/src/store/known-hosts-store.ts with the tombstones that its actions
-- clear and mark, apps/desktop/src/types/known-host.ts, and apps/desktop/src/lib/ensure-trusted-host-key.ts.
-- The scan of the host and the answer of the user are arguments; the prompt is in Prompts.
use terminal_workspace.Common.{
  ℕ, Bool, not, Option, none, some, List, [], ◌∷◌, ◌++◌, if◌then◌else◌, Text, text, ◌===◌, filter,
}
use terminal_workspace.Common.Int.{ℤ}
use terminal_workspace.Common.Order.{sort_by}
use terminal_workspace.Sessions.Titles.{print_nat}
use terminal_workspace.Hosts.Types.{HostRecord, host_supports_trusted_keys}
use terminal_workspace.Vault.Deletions.{VaultDeletionMap, known_hosts, mark_deleted, clear_deleted}
use terminal_workspace.Vault.Records.{KnownHostRecord}
use terminal_workspace.Connect.Build.{is_require_trusted, find_known_host_match}

pub record KnownHostScanResult : Type 0 where
  pub algorithm : Text
  pub fingerprint : Text
  pub hostname : Text
  pub port : ℕ
  pub public_key : Text

-- The known hosts, and the tombstones of the vault.
pub record KnownHostsState : Type 0 where
  pub trusted : List KnownHostRecord
  pub deletions : VaultDeletionMap

unfoldable pub create_known_host_id : Text → ℕ → Text → Text
unfolding print_nat
create_known_host_id hostname port algorithm =
    hostname ++ text ":" ++ print_nat port ++ text ":" ++ algorithm

unfoldable pub create_known_host_record : Text → KnownHostScanResult → KnownHostRecord
unfolding create_known_host_id
create_known_host_record now entry = record {
  id = create_known_host_id entry.hostname entry.port entry.algorithm;
  hostname = entry.hostname;
  port = entry.port;
  algorithm = entry.algorithm;
  public_key = entry.public_key;
  fingerprint = entry.fingerprint;
  trusted_at = now;
  updated_at = now;
}

-- Why the connection may proceed.
pub data TrustGranted : Type 0 where
  policy_allows_unknown : TrustGranted
  protocol_does_not_need_trust : TrustGranted
  already_trusted : TrustGranted
  accepted_key : KnownHostScanResult → TrustGranted

pub data TrustRefused : Type 0 where
  user_rejected : TrustRefused
  user_non_interactive : TrustRefused
  scan_failed : TrustRefused
  scan_empty : TrustRefused

pub data EnsureTrustedHostKeyResult : Type 0 where
  trust_ok : TrustGranted → EnsureTrustedHostKeyResult
  trust_failed : TrustRefused → EnsureTrustedHostKeyResult

module _ (collate : Text → Text → Bool) (date_parse : Text → Option ℤ) where
  unfoldable pub sort_known_hosts : List KnownHostRecord → List KnownHostRecord
  unfolding sort_by
  sort_known_hosts = sort_by (λ (left : KnownHostRecord) (right : KnownHostRecord).
      collate right.updated_at left.updated_at)

  unfoldable pub trust_known_host : Text → KnownHostScanResult → KnownHostsState → KnownHostsState
  unfolding sort_known_hosts create_known_host_record clear_deleted ◌===◌
  trust_known_host now entry s =
      let created = create_known_host_record now entry in
      record {
        trusted =
            sort_known_hosts
              (created ∷ filter (λ (k : KnownHostRecord). not (k.id === created.id)) s.trusted);
        deletions = clear_deleted collate known_hosts created.id s.deletions;
      }

  -- `now` is the time, `at` the same as a text.
  unfoldable pub remove_known_host : ℕ → Text → Text → KnownHostsState → KnownHostsState
  unfolding sort_known_hosts mark_deleted ◌===◌
  remove_known_host now now_text i s = record {
    trusted = sort_known_hosts (filter (λ (k : KnownHostRecord). not (k.id === i)) s.trusted);
    deletions = mark_deleted collate date_parse now known_hosts i now_text s.deletions;
  }

  -- What comes after the scan returned its candidates, and the user chose one of them or none.
  unfoldable pub with_answer :
      Text
      → List KnownHostScanResult
      → (List KnownHostScanResult → Option KnownHostScanResult)
      → KnownHostsState
      → KnownHostsState × EnsureTrustedHostKeyResult
  unfolding trust_known_host
  with_answer now [] ask s = (s, trust_failed scan_empty)
  with_answer now (c ∷ cs) ask s = elim (ask (c ∷ cs)) [
    | none ↦ (s, trust_failed user_rejected)
    | some accepted ↦ (trust_known_host now accepted s, trust_ok (accepted_key accepted))
  ]

  -- `scan` is none when the scan fails.
  unfoldable pub ensure_trusted_host_key :
      Text
      → HostRecord
      → Bool
      → Option (List KnownHostScanResult)
      → (List KnownHostScanResult → Option KnownHostScanResult)
      → KnownHostsState
      → KnownHostsState × EnsureTrustedHostKeyResult
  unfolding with_answer find_known_host_match host_supports_trusted_keys
  ensure_trusted_host_key now host interactive scan ask s =
      if not (host_supports_trusted_keys host.protocol)
      then (s, trust_ok protocol_does_not_need_trust)
      else if not (is_require_trusted host.host_key_policy)
      then (s, trust_ok policy_allows_unknown)
      else elim (find_known_host_match s.trusted host) [
        | some k ↦ (s, trust_ok already_trusted)
        | none ↦ if not interactive then (s, trust_failed user_non_interactive) else elim scan [
          | none ↦ (s, trust_failed scan_failed)
          | some candidates ↦ with_answer now candidates ask s
        ]
      ]
