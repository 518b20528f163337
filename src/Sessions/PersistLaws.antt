-- ===== src/Sessions/PersistLaws.antt =====
-- What apps/desktop/src/store/sessions-store.ts restores after a relaunch, and which output it stores.
use terminal_workspace.Common.{
  ◌≡◌, refl, true, false, ◌||◌, none, some, List, [], ◌∷◌, inl, inr, if◌then◌else◌, Text, ◌===◌,
  ===_iff, ===_refl, All, All-take, arith, Bool-cases, Option-cases, or_else,
}
use terminal_workspace.Common.Dict.{lookup, lookup-insert, lookup-remove_all}
use terminal_workspace.Sessions.Types.{SessionPane, disconnected, SessionCommandHistoryEntry}
use terminal_workspace.Sessions.Tabs.{find_tab, close_session_tab}
use terminal_workspace.Sessions.Panes.{is_connected, update_pane, touch_pane}
use terminal_workspace.Sessions.History.{
  SessionsState, pane_preview, resolve_persist_output_preview, sanitize_entry, sanitize_entries,
  limit_command_history, session_history_limit, sanitize_persisted_command_history, mark_preview,
  update_pane_preview_persistence,
}
use terminal_workspace.Sessions.Persist.{
  sanitize_pane, sanitize_panes, sanitize_persisted_workspace, partialize, merge_persisted,
}

sanitize_pane-sanitize_pane : (p : SessionPane) → sanitize_pane (sanitize_pane p) ≡ sanitize_pane p
unfolding sanitize_pane pane_preview is_connected
sanitize_pane-sanitize_pane p = refl

sanitize_panes-sanitize_panes :
    (m : List (Text × SessionPane)) → sanitize_panes (sanitize_panes m) ≡ sanitize_panes m
unfolding sanitize_panes
sanitize_panes-sanitize_panes [] = refl
sanitize_panes-sanitize_panes ((k, p) ∷ m) =
    cc (sanitize_pane-sanitize_pane p, sanitize_panes-sanitize_panes m)

lookup-sanitize_panes :
    (k : Text) (m : List (Text × SessionPane)) (p : SessionPane)
    → lookup k m ≡ some p
    → lookup k (sanitize_panes m) ≡ some (sanitize_pane p)
unfolding lookup sanitize_panes
lookup-sanitize_panes k [] p h = cc
lookup-sanitize_panes k ((j, q) ∷ m) p h = ground (arith, lookup-sanitize_panes k m p)

lookup-sanitize_panes-none :
    (k : Text) (m : List (Text × SessionPane))
    → lookup k m ≡ none
    → lookup k (sanitize_panes m) ≡ none
unfolding lookup sanitize_panes
lookup-sanitize_panes-none k [] h = refl
lookup-sanitize_panes-none k ((j, q) ∷ m) h = ground (arith, lookup-sanitize_panes-none k m)

-- How a pane comes back from a relaunch.
pub record IsRestored (before after : SessionPane) : Type 0 where
  pub no_session : after.backend_session_id ≡ none
  pub offline : after.connection_state ≡ disconnected
  pub no_queue : after.queued_commands ≡ []
  pub reconnects :
      after.reconnect_on_restore
      ≡ (is_connected before.connection_state || before.reconnect_on_restore)
  pub same_host : after.host_id ≡ before.host_id
  pub same_transport : after.transport ≡ before.transport
  pub same_title : after.title ≡ before.title

-- After a relaunch the tabs and the active tab are those that were stored, and each pane is back
-- without a backend session, disconnected and with an empty queue; it reconnects exactly if it was
-- connected or already asked to reconnect.
pub relaunch_restores :
    (now p : Text) (s fresh : SessionsState) (before : SessionPane)
    → lookup p s.workspace.panes ≡ some before
    → ((merge_persisted (partialize now s) fresh).workspace.tabs ≡ s.workspace.tabs)
      × ((merge_persisted (partialize now s) fresh).workspace.active_tab_id
          ≡ s.workspace.active_tab_id)
      × ((after : SessionPane) × (lookup p
              (merge_persisted (partialize now s) fresh).workspace.panes
            ≡ some after)
          × IsRestored before after)
unfolding merge_persisted partialize sanitize_persisted_workspace
relaunch_restores now p s fresh before found = (
  refl,
  refl,
  (
    sanitize_pane before,
    rw (sanitize_panes-sanitize_panes s.workspace.panes)
        (lookup-sanitize_panes p s.workspace.panes before found),
    restored,
  ),
)
  where
    restored : IsRestored before (sanitize_pane before)
    restored =
        unfold sanitize_pane in
        record {
          no_session = refl;
          offline = refl;
          no_queue = refl;
          reconnects = refl;
          same_host = refl;
          same_transport = refl;
          same_title = refl;
        }

-- The entries of a pane hold no output.
abbrev pub NoOutputOf : Text → List SessionCommandHistoryEntry → Type 0
NoOutputOf p = All (λ (e : SessionCommandHistoryEntry).
    (if e.pane_id === p then e.output_preview else none) ≡ none)

-- The preview is off: no entry of the pane asks for it, and neither does the pane, if it is there.
record IsOff (p : Text) (s : SessionsState) : Type 0 where
  pub entries :
      All
        (λ (e : SessionCommandHistoryEntry).
          (if e.pane_id === p then or_else e.persist_output_preview false else false) ≡ false)
        s.command_history
  pub pane :
      (q : SessionPane)
      → lookup p s.workspace.panes ≡ some q
      → q.persist_output_preview ≡ some false

resolve_off :
    (p : Text) (e : SessionCommandHistoryEntry) (panes : List (Text × SessionPane))
    → ((q : SessionPane) → lookup p panes ≡ some q → q.persist_output_preview ≡ some false)
    → (e.pane_id === p) ≡ true
    → or_else e.persist_output_preview false ≡ false
    → resolve_persist_output_preview e (sanitize_panes panes) ≡ false
unfolding resolve_persist_output_preview
resolve_off p e panes off this flag = elim (Option-cases (lookup p panes)) [
  | inl missing ↦
      rw ((===_iff e.pane_id p).0 this, resolve_persist_output_preview)
        (rw (lookup-sanitize_panes-none p panes missing) flag)
  | inr (q, found) ↦
      rw ((===_iff e.pane_id p).0 this, resolve_persist_output_preview)
        (rw (lookup-sanitize_panes p panes q found)
          (unfold sanitize_pane pane_preview in rw (off q found)))
]

sanitize_entries-NoOutputOf :
    (p : Text) (panes : List (Text × SessionPane)) (es : List SessionCommandHistoryEntry)
    → ((q : SessionPane) → lookup p panes ≡ some q → q.persist_output_preview ≡ some false)
    → All
        (λ (e : SessionCommandHistoryEntry).
          (if e.pane_id === p then or_else e.persist_output_preview false else false) ≡ false)
        es
    → NoOutputOf p (sanitize_entries (sanitize_panes panes) es)
unfolding sanitize_entries sanitize_entry
sanitize_entries-NoOutputOf p panes [] off h = tt
sanitize_entries-NoOutputOf p panes (e ∷ es) off h = (
  elim (Bool-cases (e.pane_id === p)) [
    | inl this ↦
        let hidden = resolve_off p e panes off this (ground (arith, this, h.0)) in
        rw hidden (ground arith)
    | inr other ↦ ground (arith, other)
  ],
  sanitize_entries-NoOutputOf p panes es off h.1,
)

IsOff-NoOutputOf :
    (now p : Text) (s : SessionsState)
    → IsOff p s
    → NoOutputOf p (or_else (partialize now s).command_history [])
unfolding partialize sanitize_persisted_command_history sanitize_persisted_workspace
IsOff-NoOutputOf now p s off =
    sanitize_entries-NoOutputOf p s.workspace.panes (limit_command_history s.command_history)
      off.pane
      (unfold limit_command_history in
        All-take _ session_history_limit s.command_history off.entries)

mark_preview-off :
    (p : Text) (es : List SessionCommandHistoryEntry)
    → All
        (λ (e : SessionCommandHistoryEntry).
          (if e.pane_id === p then or_else e.persist_output_preview false else false) ≡ false)
        (mark_preview p false es)
unfolding mark_preview
mark_preview-off p [] = tt
mark_preview-off p (e ∷ es) = elim (Bool-cases (e.pane_id === p)) [
  | inl this ↦ rw this (rw this, mark_preview-off p es)
  | inr other ↦ rw other (rw other, mark_preview-off p es)
]

turned-IsOff :
    (now p : Text) (s : SessionsState) (q : SessionPane)
    → lookup p s.workspace.panes ≡ some q
    → IsOff p (update_pane_preview_persistence now s p false)
unfolding update_pane_preview_persistence update_pane touch_pane
turned-IsOff now p s q found =
    rw (found, update_pane_preview_persistence)
      (rw (found, update_pane)
        (record {
          entries = mark_preview-off p s.command_history;
          pane = λ r held. ground (
            arith,
            held,
            ===_refl p,
            lookup-insert p p (record q { persist_output_preview = some false; updated_at = now })
                s.workspace.panes,
          );
        }))

closed-IsOff :
    (p i : Text) (s : SessionsState)
    → IsOff p s
    → IsOff p (record s { workspace = close_session_tab s.workspace i })
unfolding close_session_tab
closed-IsOff p i s off = record { entries = off.entries; pane = λ q held. off.pane q (kept q held) }
  where
    kept :
        (q : SessionPane)
        → lookup p (close_session_tab s.workspace i).panes ≡ some q
        → lookup p s.workspace.panes ≡ some q
    kept q held = elim (Option-cases (find_tab i s.workspace.tabs)) [
      | inl missing ↦ ground (arith, held, missing)
      | inr (t, found) ↦
          ground (arith, held, found, lookup-remove_all p t.pane_ids s.workspace.panes)
    ]

-- Once the preview of a pane is turned off, nothing of its output is stored, neither while the pane is
-- there nor after a tab, its own or another, is closed.
pub preview_off_hides :
    (now at p i : Text) (s : SessionsState) (q : SessionPane)
    → lookup p s.workspace.panes ≡ some q
    → NoOutputOf p
        (or_else (partialize at (update_pane_preview_persistence now s p false)).command_history [])
      × NoOutputOf p (
          or_else
            (partialize at (record (update_pane_preview_persistence now s p false) {
              workspace =
                  close_session_tab (update_pane_preview_persistence now s p false).workspace i;
            })).command_history
            [])
preview_off_hides now at p i s q found =
    let off = turned-IsOff now p s q found in
    (IsOff-NoOutputOf at p _ off, IsOff-NoOutputOf at p _ (closed-IsOff p i _ off))
