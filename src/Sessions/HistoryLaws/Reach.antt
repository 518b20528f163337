-- ===== src/Sessions/HistoryLaws/Reach.antt =====
-- The command history that the actions of `useSessionsStore` (apps/desktop/src/store/sessions-store.ts)
-- reach from the empty store is bounded.
use terminal_workspace.Common.{
  ◌≡◌, refl, ap, suc, Bool, List, [], ◌∷◌, inl, inr, Text, ◌===◌, All, arith, Bool-cases,
  Option-cases, length, trim, is_empty,
}
use terminal_workspace.Common.Dict.{lookup}
use terminal_workspace.Sessions.Types.{
  SessionPane, SessionCommandHistoryEntry, SessionCommandHistorySource,
}
use terminal_workspace.Sessions.History.{
  SessionsState, limit_command_history, sanitize_entry, sanitize_entries,
  sanitize_persisted_command_history, normalize_command_history_output, append_to_entry,
  append_pane_command_history_output, new_entry, record_pane_command_history, mark_preview,
  update_pane_preview_persistence, resolve_persist_output_preview,
}
use terminal_workspace.Sessions.Persist.{partialize, merge_persisted}
use terminal_workspace.Sessions.Store.{record_pane_command, clear_command_history}
use terminal_workspace.Sessions.Steps.{
  Step, Reach, start, next, open_session, duplicate_session, select_tab, cycle_tab, close_one_tab,
  split_tab, close_one_pane, close_host, select_pane, set_pane_state, set_reconnect, set_preview,
  set_transport, set_backend_session, queue_command, consume_command, record_command, append_output,
  clear_history, queue_for_hosts, toggle_connection, set_direction, set_ratio, reorder_tab,
  relaunch,
}
use terminal_workspace.Sessions.HistoryLaws.{
  IsQuiet, normalize-IsQuiet, AllPreviews, IsBounded, extend_preview-IsPreview, limit-IsBounded,
}

length-append_to_entry :
    (now entry_id output : Text) (es : List SessionCommandHistoryEntry)
    → length (append_to_entry now entry_id output es) ≡ length es
unfolding append_to_entry
length-append_to_entry now entry_id output [] = refl
length-append_to_entry now entry_id output (e ∷ es) =
    ap suc (length-append_to_entry now entry_id output es)

append_to_entry-IsPreview :
    (now entry_id output : Text) (es : List SessionCommandHistoryEntry)
    → All IsQuiet output
    → AllPreviews es
    → AllPreviews (append_to_entry now entry_id output es)
unfolding append_to_entry
append_to_entry-IsPreview now entry_id output [] k h = tt
append_to_entry-IsPreview now entry_id output (e ∷ es) k h = elim (Bool-cases (e.id === entry_id)) [
  | inl this ↦ rw this (
    extend_preview-IsPreview e.output_preview output h.0 k,
    append_to_entry-IsPreview now entry_id output es k h.1,
  )
  | inr other ↦ rw other (h.0, append_to_entry-IsPreview now entry_id output es k h.1)
]

length-mark_preview :
    (p : Text) (b : Bool) (es : List SessionCommandHistoryEntry)
    → length (mark_preview p b es) ≡ length es
unfolding mark_preview
length-mark_preview p b [] = refl
length-mark_preview p b (e ∷ es) = ap suc (length-mark_preview p b es)

mark_preview-IsPreview :
    (p : Text) (b : Bool) (es : List SessionCommandHistoryEntry)
    → AllPreviews es
    → AllPreviews (mark_preview p b es)
unfolding mark_preview
mark_preview-IsPreview p b [] h = tt
mark_preview-IsPreview p b (e ∷ es) h = elim (Bool-cases (e.pane_id === p)) [
  | inl this ↦ rw this (h.0, mark_preview-IsPreview p b es h.1)
  | inr other ↦ rw other (h.0, mark_preview-IsPreview p b es h.1)
]

length-sanitize_entries :
    (panes : List (Text × SessionPane)) (es : List SessionCommandHistoryEntry)
    → length (sanitize_entries panes es) ≡ length es
unfolding sanitize_entries
length-sanitize_entries panes [] = refl
length-sanitize_entries panes (e ∷ es) = ap suc (length-sanitize_entries panes es)

sanitize_entries-IsPreview :
    (panes : List (Text × SessionPane)) (es : List SessionCommandHistoryEntry)
    → AllPreviews es
    → AllPreviews (sanitize_entries panes es)
unfolding sanitize_entries sanitize_entry
sanitize_entries-IsPreview panes [] h = tt
sanitize_entries-IsPreview panes (e ∷ es) h =
    elim (Bool-cases (resolve_persist_output_preview e panes)) [
      | inl kept ↦ rw kept (h.0, sanitize_entries-IsPreview panes es h.1)
      | inr dropped ↦ rw dropped (tt, sanitize_entries-IsPreview panes es h.1)
    ]

sanitize-IsBounded :
    (es : List SessionCommandHistoryEntry) (panes : List (Text × SessionPane))
    → AllPreviews es
    → IsBounded (sanitize_persisted_command_history es panes)
unfolding sanitize_persisted_command_history
sanitize-IsBounded es panes h =
    let limited = limit-IsBounded es h in
    record {
      few = omega (arith, length-sanitize_entries panes (limit_command_history es), limited.few);
      quiet = sanitize_entries-IsPreview panes (limit_command_history es) limited.quiet;
    }

append-IsBounded :
    (now : Text) (s : SessionsState) (entry_id output : Text)
    → IsBounded s.command_history
    → IsBounded (append_pane_command_history_output now s entry_id output).command_history
unfolding append_pane_command_history_output
append-IsBounded now s entry_id output b =
    elim (Bool-cases (is_empty (normalize_command_history_output output))) [
      | inl nothing ↦ rw (nothing, append_pane_command_history_output) b
      | inr something ↦
          let text = normalize_command_history_output output in
          rw (something, append_pane_command_history_output)
            (record {
              few =
                  omega (arith, length-append_to_entry now entry_id text s.command_history, b.few);
              quiet =
                  append_to_entry-IsPreview now entry_id text s.command_history
                    (normalize-IsQuiet output) b.quiet;
            })
    ]

record-IsBounded :
    (now entry_id : Text) (s : SessionsState) (p command : Text)
    (source : SessionCommandHistorySource)
    → IsBounded s.command_history
    → IsBounded (record_pane_command_history now entry_id s p command source).command_history
unfolding record_pane_command_history
record-IsBounded now entry_id s p command source b =
    elim (Option-cases (lookup p s.workspace.panes)) [
      | inl missing ↦ rw (missing, record_pane_command_history) b
      | inr (q, found) ↦ elim (Bool-cases (is_empty (trim command))) [
        | inl blank ↦ rw (found, record_pane_command_history) (rw blank b)
        | inr text ↦
            rw (found, record_pane_command_history)
              (rw text (
                limit-IsBounded
                  (new_entry now entry_id q p (trim command) source ∷ s.command_history)
                  (unfold new_entry in tt, b.quiet)))
      ]
    ]

preview-IsBounded :
    (now : Text) (s : SessionsState) (p : Text) (b : Bool)
    → IsBounded s.command_history
    → IsBounded (update_pane_preview_persistence now s p b).command_history
unfolding update_pane_preview_persistence
preview-IsBounded now s p b h = elim (Option-cases (lookup p s.workspace.panes)) [
  | inl missing ↦ rw (missing, update_pane_preview_persistence) h
  | inr (q, found) ↦
      rw (found, update_pane_preview_persistence)
        (record {
          few = omega (arith, length-mark_preview p b s.command_history, h.few);
          quiet = mark_preview-IsPreview p b s.command_history h.quiet;
        })
]

-- Each action of the store keeps the history bounded.
pub Step-IsBounded :
    {s t : SessionsState} → Step s t → IsBounded s.command_history → IsBounded t.command_history
unfolding record_pane_command clear_command_history merge_persisted partialize
Step-IsBounded (set_preview s now p b) h = preview-IsBounded now s p b h
Step-IsBounded (record_command s now entry_id p command source) h =
    record-IsBounded now entry_id s p command source h
Step-IsBounded (append_output s now entry_id output) h = append-IsBounded now s entry_id output h
Step-IsBounded (clear_history s) h = record { few = omega arith; quiet = tt }
Step-IsBounded (relaunch s fresh now) h =
    sanitize-IsBounded _ _ (sanitize-IsBounded s.command_history _ h.quiet).quiet
Step-IsBounded (open_session s d host f) h = h
Step-IsBounded (duplicate_session s d host base f) h = h
Step-IsBounded (select_tab s i) h = h
Step-IsBounded (cycle_tab s direction) h = h
Step-IsBounded (close_one_tab s i) h = h
Step-IsBounded (split_tab s d i host f) h = h
Step-IsBounded (close_one_pane s now i p shows) h = h
Step-IsBounded (close_host s i) h = h
Step-IsBounded (select_pane s now i p) h = h
Step-IsBounded (set_pane_state s now p c e) h = h
Step-IsBounded (set_reconnect s now p b) h = h
Step-IsBounded (set_transport s now p transport) h = h
Step-IsBounded (set_backend_session s now p session) h = h
Step-IsBounded (queue_command s now command_id p command label) h = h
Step-IsBounded (consume_command s now p command_id) h = h
Step-IsBounded (queue_for_hosts s command label rs f) h = h
Step-IsBounded (toggle_connection s now p) h = h
Step-IsBounded (set_direction s now i direction) h = h
Step-IsBounded (set_ratio s now i ratio) h = h
Step-IsBounded (reorder_tab s from to) h = h

-- In every state that the actions reach from the empty store, the history has at most 200 entries,
-- and each output preview has at most 600 code units and holds no bell and no carriage return. The ids that
-- are drawn are assumed to be new, and closePane to be called for a pane of the tab, if there is the tab.
pub Reach-IsBounded : {s : SessionsState} → Reach s → IsBounded s.command_history
Reach-IsBounded start = record { few = omega arith; quiet = tt }
Reach-IsBounded (next r step) = Step-IsBounded step (Reach-IsBounded r)
