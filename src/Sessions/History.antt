-- ===== src/Sessions/History.antt =====
-- The command history of apps/desktop/src/store/sessions-store.ts: what is recorded for a command,
-- how its output is normalised and appended, and what is kept when the history is stored.
use terminal_workspace.Common.{
  ℕ, zero, suc, ◌-◌, Bool, true, false, ◌&&◌, ◌||◌, not, Option, none, some, List, [], ◌∷◌, ◌++◌,
  if◌then◌else◌, leb, ◌==◌, Text, ◌===◌, length, take, drop, trim, is_empty, or_else,
}
use terminal_workspace.Common.Dict.{lookup}
use terminal_workspace.Sessions.Types.{
  SessionPane, SessionWorkspaceState, SessionCommandHistoryEntry, SessionCommandHistorySource,
}
use terminal_workspace.Sessions.Panes.{update_pane}

-- `SessionsState`: the workspace and the history, the newest entry first.
pub record SessionsState : Type 0 where
  pub workspace : SessionWorkspaceState
  pub command_history : List SessionCommandHistoryEntry

unfoldable pub session_history_limit : ℕ
session_history_limit = 200

unfoldable pub session_history_output_limit : ℕ
session_history_output_limit = 600

unfoldable pub limit_command_history :
    List SessionCommandHistoryEntry → List SessionCommandHistoryEntry
unfolding session_history_limit
limit_command_history entries = take session_history_limit entries

-- `normalizePersistedPane(pane).persistOutputPreview`.
unfoldable pub pane_preview : SessionPane → Bool
pane_preview p = or_else p.persist_output_preview true

unfoldable pub resolve_persist_output_preview :
    SessionCommandHistoryEntry → List (Text × SessionPane) → Bool
unfolding pane_preview
resolve_persist_output_preview e panes = elim (lookup e.pane_id panes) [
  | none ↦ or_else e.persist_output_preview false
  | some p ↦ pane_preview p
]

unfoldable pub sanitize_entry :
    List (Text × SessionPane) → SessionCommandHistoryEntry → SessionCommandHistoryEntry
unfolding resolve_persist_output_preview
sanitize_entry panes e =
    if resolve_persist_output_preview e panes
    then record e { persist_output_preview = some true }
    else record e {
      persist_output_preview = some false;
      output_preview = none;
      output_updated_at = none;
    }

unfoldable pub sanitize_entries :
    List (Text × SessionPane) → List SessionCommandHistoryEntry → List SessionCommandHistoryEntry
unfolding sanitize_entry
sanitize_entries panes [] = []
sanitize_entries panes (e ∷ es) = sanitize_entry panes e ∷ sanitize_entries panes es

unfoldable pub sanitize_persisted_command_history :
    List SessionCommandHistoryEntry → List (Text × SessionPane) → List SessionCommandHistoryEntry
unfolding limit_command_history sanitize_entries
sanitize_persisted_command_history entries panes =
    sanitize_entries panes (limit_command_history entries)

-- The length of a run of `[0-9;?]*[ -/]*[@-~]` at the head of a text, where the parameters may no
-- longer follow once `inter` is true. The three classes are disjoint, so no match backtracks.
unfoldable pub ansi_tail : Bool → Text → Option ℕ
ansi_tail inter [] = none
ansi_tail inter (c ∷ s) =
    let as_param = ansi_tail false s in
    let as_inter = ansi_tail true s in
    elim (leb 0x40 c && leb c 0x7e) [
      | true ↦ some 1
      | false ↦ elim (not inter && ((leb 0x30 c && leb c 0x39) || (c == 0x3b) || (c == 0x3f))) [
        | true ↦ elim as_param [ none ↦ none | some n ↦ some (suc n) ]
        | false ↦ elim (leb 0x20 c && leb c 0x2f) [
          | true ↦ elim as_inter [ none ↦ none | some n ↦ some (suc n) ]
          | false ↦ none
        ]
      ]
    ]

-- The length, behind the escape character, of the sequence that begins with it.
unfoldable pub ansi_length : Text → Option ℕ
unfolding ansi_tail
ansi_length [] = none
ansi_length (c ∷ s) =
    if c == 0x5b then elim (ansi_tail false s) [ none ↦ none | some n ↦ some (suc n) ] else none

-- `output.replace(ANSI_ESCAPE_SEQUENCE_REGEX, "")`; the number counts what is left of a match.
unfoldable pub strip_ansi : ℕ → Text → Text
unfolding ansi_length
strip_ansi skip [] = []
strip_ansi (suc skip) (c ∷ s) = strip_ansi skip s
strip_ansi zero (c ∷ s) = elim (if c == 27 then ansi_length s else none) [
  | none ↦ c ∷ strip_ansi zero s
  | some n ↦ strip_ansi n s
]

-- `output.replace(/x/g, "")` for one code unit.
unfoldable pub strip_unit : ℕ → Text → Text
strip_unit x [] = []
strip_unit x (c ∷ s) = let rest = strip_unit x s in if c == x then rest else c ∷ rest

unfoldable pub normalize_command_history_output : Text → Text
unfolding strip_ansi strip_unit
normalize_command_history_output output = trim (strip_unit 7 (strip_unit 13 (strip_ansi 0 output)))

-- `s.slice(-n)`, for a positive n.
unfoldable pub slice_last : ℕ → Text → Text
slice_last n s = drop (length s - n) s

-- The preview behind more output: one line break between the old output and the new.
unfoldable pub extend_preview : Option Text → Text → Text
unfolding slice_last session_history_output_limit
extend_preview old output =
    let before = or_else old [] in
    trim (
      slice_last session_history_output_limit
        ((if is_empty before then [] else before ++ 10 ∷ []) ++ output))

unfoldable pub append_to_entry :
    Text → Text → Text → List SessionCommandHistoryEntry → List SessionCommandHistoryEntry
unfolding extend_preview
append_to_entry now entry_id output [] = []
append_to_entry now entry_id output (e ∷ es) =
    (if e.id === entry_id
      then record e {
        output_preview = some (extend_preview e.output_preview output);
        output_updated_at = some now;
      }
      else e)
    ∷ append_to_entry now entry_id output es

unfoldable pub append_pane_command_history_output :
    Text → SessionsState → Text → Text → SessionsState
unfolding append_to_entry
append_pane_command_history_output now s entry_id output =
    let normalized = normalize_command_history_output output in
    if is_empty normalized
    then s
    else record s { command_history = append_to_entry now entry_id normalized s.command_history }

unfoldable pub new_entry :
    Text
    → Text
    → SessionPane
    → Text
    → Text
    → SessionCommandHistorySource
    → SessionCommandHistoryEntry
unfolding pane_preview
new_entry now entry_id p pane_id command source = record {
  id = entry_id;
  pane_id = pane_id;
  host_id = p.host_id;
  transport = p.transport;
  command = command;
  source = source;
  persist_output_preview = some (pane_preview p);
  output_preview = none;
  output_updated_at = none;
  created_at = now;
}

unfoldable pub record_pane_command_history :
    Text → Text → SessionsState → Text → Text → SessionCommandHistorySource → SessionsState
unfolding new_entry limit_command_history
record_pane_command_history now entry_id s pane_id command source =
    elim (lookup pane_id s.workspace.panes) [
      | none ↦ s
      | some p ↦ if is_empty (trim command) then s else record s {
        command_history =
            limit_command_history
              (new_entry now entry_id p pane_id (trim command) source ∷ s.command_history);
      }
    ]

unfoldable pub mark_preview :
    Text → Bool → List SessionCommandHistoryEntry → List SessionCommandHistoryEntry
mark_preview pane_id b [] = []
mark_preview pane_id b (e ∷ es) =
    (if e.pane_id === pane_id then record e { persist_output_preview = some b } else e)
    ∷ mark_preview pane_id b es

unfoldable pub update_pane_preview_persistence : Text → SessionsState → Text → Bool → SessionsState
unfolding mark_preview update_pane
update_pane_preview_persistence now s pane_id b = elim (lookup pane_id s.workspace.panes) [
  | none ↦ s
  | some p ↦ record {
    workspace =
        update_pane now s.workspace pane_id (λ q. record q { persist_output_preview = some b });
    command_history = mark_preview pane_id b s.command_history;
  }
]
