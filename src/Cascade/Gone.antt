-- ===== src/Cascade/Gone.antt =====
-- What `deleteHostAndCascade` of apps/desktop/src/store/cascade-actions.ts leaves in the stores.
use terminal_workspace.Common.{
  ℕ, ◌≡◌, ◌∙◌, refl, Bool, false, not, Option, none, some, List, [], ◌∷◌, map, inl, inr,
  if◌then◌else◌, Text, ◌===◌, filter, All, Bool-cases, Option-cases,
}
use terminal_workspace.Common.Int.{ℤ}
use terminal_workspace.Common.Dict.{count, includes, lookup, without, lookup-remove}
use terminal_workspace.Common.Order.{sort_by-All}
use terminal_workspace.Vault.Records.{KeyRecord, SnippetRecord}
use terminal_workspace.Sessions.Types.{SessionPane, SessionWorkspaceState}
use terminal_workspace.Sessions.Counts.{IsValid}
use terminal_workspace.Sessions.Store.{close_panes_for_host}
use terminal_workspace.Sessions.Valid.ClosePanes.{
  lookup-close_panes_for_host, lookup-close_panes_for_host-none,
}
use terminal_workspace.Secrets.Keychain.{NativeKeychain}
use terminal_workspace.Secrets.Store.{clear_host_secrets}
use terminal_workspace.Hosts.Types.{HostRecord}
use terminal_workspace.Hosts.Keeping.{host_ids, count-sorted, count-deleted}
use terminal_workspace.Hosts.Store.{delete_host, delete_host_from_collection}
use terminal_workspace.Cascade.Stores.{
  TransfersState, AppStores, set_active_host, is_host, forget_active_host, unassign_host_from_all,
  remove_host_from_all_targets, delete_host_and_cascade,
}

-- A pane, if it is not of the host.
abbrev pub of_another_host : Text → Option SessionPane → Option SessionPane
of_another_host i none = none
of_another_host i (some q) = if q.host_id === i then none else some q

-- Nothing of the host is left but in jump hosts and in the history, and no other host, secret or pane is
-- lost.
pub record IsGone {K : Type 0} (i : Text) (s t : AppStores K) : Type 0 where
  pub host :
      (p : Text)
      → count p (host_ids t.inventory.hosts)
        ≡ (if i === p then 0 else count p (host_ids s.inventory.hosts))
  pub secret :
      (p : Text)
      → lookup p t.secrets.secrets_by_host_id
        ≡ (if i === p then none else lookup p s.secrets.secrets_by_host_id)
  pub keys : All (λ (k : KeyRecord). includes i k.assigned_host_ids ≡ false) t.keys
  pub snippets : All (λ (x : SnippetRecord). includes i x.target_host_ids ≡ false) t.snippets
  pub panes : (p : Text) → lookup p t.sessions.panes ≡ of_another_host i (lookup p s.sessions.panes)
  pub active : is_host i t.transfers.active_host_id ≡ false

includes-without : (i : Text) (xs : List Text) → includes i (without i xs) ≡ false
unfolding includes without
includes-without i [] = refl
includes-without i (x ∷ xs) = elim (Bool-cases (x === i)) [
  | inl same ↦ rw same (includes-without i xs)
  | inr other ↦ rw (other, other) (includes-without i xs)
]

forget_active_host-other :
    (i : Text) (t : TransfersState) → is_host i (forget_active_host i t).active_host_id ≡ false
unfolding forget_active_host set_active_host
forget_active_host-other i t = elim (Bool-cases (is_host i t.active_host_id)) [
  | inl same ↦ rw (forget_active_host, same) refl
  | inr other ↦ rw (forget_active_host, other) other
]

close_panes_for_host-other :
    (i : Text) (s : SessionWorkspaceState) (p : Text)
    → IsValid s
    → lookup p (close_panes_for_host s i).0.panes ≡ of_another_host i (lookup p s.panes)
close_panes_for_host-other i s p v = elim (Option-cases (lookup p s.panes)) [
  | inl missing ↦ lookup-close_panes_for_host-none s i v p missing ∙ rw missing refl
  | inr (q, found) ↦ lookup-close_panes_for_host s i v p q found ∙ rw found refl
]

module _ (collate : Text → Text → Bool) where
  keys-without :
      (i : Text) (ks : List KeyRecord)
      → All
          (λ (k : KeyRecord). includes i k.assigned_host_ids ≡ false)
          (unassign_host_from_all collate i ks)
  unfolding unassign_host_from_all
  keys-without i ks = sort_by-All _ _ _ (each ks)
    where
      each :
          (gs : List KeyRecord)
          → All
              (λ (k : KeyRecord). includes i k.assigned_host_ids ≡ false)
              (map
                (λ (k : KeyRecord). record k { assigned_host_ids = without i k.assigned_host_ids })
                gs)
      each [] = tt
      each (k ∷ gs) = (includes-without i k.assigned_host_ids, each gs)

  snippets-without :
      (i : Text) (xs : List SnippetRecord)
      → All
          (λ (x : SnippetRecord). includes i x.target_host_ids ≡ false)
          (remove_host_from_all_targets collate i xs)
  unfolding remove_host_from_all_targets
  snippets-without i xs = sort_by-All _ _ _ (each xs)
    where
      each :
          (gs : List SnippetRecord)
          → All
              (λ (x : SnippetRecord). includes i x.target_host_ids ≡ false)
              (map
                (λ (x : SnippetRecord). record x { target_host_ids = without i x.target_host_ids })
                gs)
      each [] = tt
      each (x ∷ gs) = (includes-without i x.target_host_ids, each gs)

  module _ {K : Type 0} (n : NativeKeychain K) (is_tauri_runtime : Bool)
      (to_lower_case : Text → Text) (date_parse : Text → Option ℤ) where
    -- Deleting a host on a well-formed workspace leaves no host with its id, no secrets of it in memory, no
    -- key assigned to it, no snippet that targets it, no pane of it, and another active host or none for
    -- transfers; each other host, secret in memory and pane stays.
    pub delete_host_and_cascade-IsGone :
        (now : ℕ) (now_text i : Text) (s : AppStores K)
        → IsValid s.sessions
        → IsGone i s
            (delete_host_and_cascade collate n is_tauri_runtime to_lower_case date_parse now
              now_text i s).0
    unfolding delete_host_and_cascade delete_host delete_host_from_collection clear_host_secrets
    delete_host_and_cascade-IsGone now now_text i s v = record {
      host = λ p.
          count-sorted to_lower_case collate p
            (filter (λ (h : HostRecord). not (h.id === i)) s.inventory.hosts)
          ∙ count-deleted to_lower_case collate p i s.inventory.hosts;
      secret = λ p. lookup-remove i p s.secrets.secrets_by_host_id;
      keys = keys-without i s.keys;
      snippets = snippets-without i s.snippets;
      panes = λ p. close_panes_for_host-other i s.sessions p v;
      active = forget_active_host-other i s.transfers;
    }
