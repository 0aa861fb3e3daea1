-- ===== src/Transcript/Watcher.antt =====
-- `AgentSessionWatcher` of apps/system_interface/imbue/system_interface/session_watcher.py: the index of
-- an agent's session files. The file's state on disk, the decoding of UTF-8, whether some bytes are
-- JSON, and the parser of a line are arguments.
use forever_claude_template.Base.{
  codes, ℕ, suc, Bool, true, false, ◌&&◌, ◌||◌, Option, none, some, List, [], ◌∷◌, ◌++◌, length,
  ltb, ◌==◌, if◌then◌else◌, Dict, get, put, remove, has, Text, text_beq, code_eq,
}
use forever_claude_template.Transcript.Event.{
  Event, Body, ToolCall, Parsed, assistant_message, user_message, tool_result,
}
use forever_claude_template.Transcript.Index.{SessionFileState, Refs}
use forever_claude_template.Transcript.Lines.{Bytes, Span}

pub record Watcher : Type 0 where
  pub session_states : Dict Text SessionFileState
  pub main_session_ids : List Text
  pub tool_name_by_call_id : Dict Text Text
  pub existing_event_ids : List Text
  pub body_cache : Dict Text Event
  pub locator_ref_by_id : Refs
  pub subagent_id_by_tool_call : Dict Text Text
  pub agent_parent_event_ids : List Text

abbrev pub new_file : Text → SessionFileState
new_file session_id = record {
  session_id = session_id;
  byte_offset_consumed = 0;
  last_mtime = 0;
  locators = [];
  emitted_count = 0;
}

-- `set.discard`
unfoldable pub discard : Text → List Text → List Text
discard k [] = []
discard k (j ∷ js) = let rest = discard k js in if text_beq j k then rest else j ∷ rest

unfoldable pub evict : ℕ → Dict Text Event → Dict Text Event
evict capacity [] = []
evict capacity (entry ∷ cache) =
    let rest = evict capacity cache in
    if ltb capacity (suc (length cache)) then rest else entry ∷ cache

-- `_body_cache[event_id] = event` and `move_to_end(event_id)`
unfoldable pub cache_put : ℕ → Event → Dict Text Event → Dict Text Event
unfolding evict
cache_put capacity event cache =
    evict capacity (remove cache event.event_id ++ (event.event_id, event) ∷ [])

abbrev pub setdefault : Dict Text Text → Text → Text → Dict Text Text
setdefault m k v = if has m k then m else put m k v

-- The link of a subagent to its tool call, from a tool result.
unfoldable pub note_subagent : Body → Dict Text Text → Dict Text Text
note_subagent (tool_result r) links = elim r.subagent_id [
  | none ↦ links
  | some subagent_id ↦ setdefault links r.tool_call_id subagent_id
]
note_subagent (assistant_message m) links = links
note_subagent (user_message m) links = links

unfoldable pub calls_agent : List ToolCall → Bool
calls_agent [] = false
calls_agent (tc ∷ calls) = text_beq tc.tool_name (codes "Agent") || calls_agent calls

unfoldable pub is_agent_parent : Body → Bool
unfolding calls_agent
is_agent_parent (assistant_message m) = calls_agent m.tool_calls
is_agent_parent (user_message m) = false
is_agent_parent (tool_result r) = false

-- One event of a line goes into the index, the references and the cache.
unfoldable pub append_event : ℕ → Bool → Text → ℕ → ℕ → Event → SessionFileState → Watcher → Watcher
unfolding cache_put note_subagent is_agent_parent
append_event capacity mark_all_emitted session_id byte_offset byte_len event f w = record w {
  session_states = put w.session_states session_id (record f {
    locators =
        f.locators
        ++ record {
          event_id = event.event_id;
          timestamp = event.timestamp;
          byte_offset = byte_offset;
          byte_len = byte_len;
        }
          ∷ [];
  });
  locator_ref_by_id = put w.locator_ref_by_id event.event_id (session_id, length f.locators);
  body_cache = cache_put capacity event w.body_cache;
  subagent_id_by_tool_call = note_subagent event.body w.subagent_id_by_tool_call;
  agent_parent_event_ids =
      if mark_all_emitted && is_agent_parent event.body
      then event.event_id ∷ w.agent_parent_event_ids
      else w.agent_parent_event_ids;
}

unfoldable pub append_events : ℕ → Bool → Text → ℕ → ℕ → List Event → Watcher → Watcher
unfolding append_event
append_events capacity mark_all_emitted session_id byte_offset byte_len [] w = w
append_events capacity mark_all_emitted session_id byte_offset byte_len (event ∷ events) w =
    append_events capacity mark_all_emitted session_id byte_offset byte_len events
      (elim (get w.session_states session_id) [
        | none ↦ w
        | some f ↦ append_event capacity mark_all_emitted session_id byte_offset byte_len event f w
      ])

-- `str.splitlines`: what ends a line.
abbrev pub is_line_break : ℕ → Bool
is_line_break c =
    c == 10
    || c == 13
    || c == 11
    || c == 12
    || c == 28
    || c == 29
    || c == 30
    || c == 133
    || c == 8232
    || c == 8233

abbrev pub cons_first : ℕ → List Text → List Text
cons_first c [] = (c ∷ []) ∷ []
cons_first c (line ∷ lines) = (c ∷ line) ∷ lines

abbrev pub starts_lf : Text → Bool
starts_lf [] = false
starts_lf (c ∷ s) = c == 10

unfoldable pub splitlines : Text → List Text
splitlines [] = []
splitlines (c ∷ s) =
    let rest = splitlines s in
    if is_line_break c
    then (if c == 13 && starts_lf s then rest else [] ∷ rest)
    else cons_first c rest

abbrev pub LineParser : Type 0
LineParser = List Text → List Text → Dict Text Text → Option Text → Parsed

-- The lines of the new bytes, in order. True is an exception of the parser, which ends the loop.
unfoldable pub read_lines :
    (Bytes → Option Text) → LineParser → ℕ → Bool → Text → List Span → Watcher → Watcher × Bool
unfolding append_events splitlines
read_lines decode parse capacity mark_all_emitted session_id [] w = (w, false)
read_lines decode parse capacity mark_all_emitted session_id (span ∷ spans) w =
    elim (decode span.line_bytes) [
      | none ↦ read_lines decode parse capacity mark_all_emitted session_id spans w
      | some decoded ↦
          let parsed =
            parse (splitlines decoded) w.existing_event_ids w.tool_name_by_call_id
              (some session_id) in
          let noted : Watcher = record w {
            existing_event_ids = parsed.existing_event_ids;
            tool_name_by_call_id = parsed.tool_name_by_call_id;
          } in
          let rest = read_lines decode parse capacity mark_all_emitted session_id spans (
            append_events capacity mark_all_emitted session_id span.byte_offset span.byte_len
              parsed.events noted) in
          if parsed.is_raised then (noted, true) else rest
    ]
