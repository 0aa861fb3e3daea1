-- ===== src/Transcript/Parser.antt =====
-- `parse_session_lines` of apps/system_interface/imbue/system_interface/session_parser.py. JSON's reader
-- and writer, Python's `str`, the search for an auth error and the shell-aware reading of a command
-- are a record of arguments; an object has each key once. An exception ends the call and loses its
-- events, but not what it noted before.
pub mod Content
pub mod Seen
pub mod Messages
pub mod Calls
pub mod Crashes
use forever_claude_template.Base.{
  codes, ℕ, zero, suc, Bool, true, false, not, ◌&&◌, ◌||◌, Option, none, some, List, [], ◌∷◌, ◌++◌,
  take, length, leb, ltb, if◌then◌else◌, Dict, get, put, in_names, Text, text_beq, text_ltb,
  code_eq,
}
use forever_claude_template.Transcript.Event.{
  Value, Items, Fields, null, boolean, number, text, array, object, none_left, item, no_key, field,
  ToolCall, Usage, AssistantMessage, UserMessage, ToolResult, Event, Body, assistant_message,
  user_message, tool_result, Parsed,
}
use forever_claude_template.Transcript.Lines.{strip}
use forever_claude_template.Transcript.Texts.{
  is_space, normalize_slash_command, extract_subagent_id, truncate_tool_output, join,
}
use forever_claude_template.Transcript.Parser.Content.{
  Runtime, lookup, value_or, is_text, truthy, as_text, nonempty, Blocks, blocks_of,
  assistant_blocks, extract_text_content, has_tool_results_only, result_text,
  is_resume_no_response_reply,
}

-- What the parser has so far: the two collections, and the new events.
pub record Progress : Type 0 where
  pub existing_event_ids : List Text
  pub tool_name_by_call_id : Dict Text Text
  pub new_events : List Event

-- `existing_event_ids.add(event_id)` and `new_events.append(...)`
unfoldable pub emit : Event → Progress → Progress
emit event p = record p {
  existing_event_ids = event.event_id ∷ p.existing_event_ids;
  new_events = p.new_events ++ event ∷ [];
}

abbrev pub make_event_id : Text → Text → Text
make_event_id uuid suffix = uuid ++ codes "-" ++ suffix

-- None where `usage_raw.get` raises.
abbrev pub usage_of : Value → Option (Option Usage)
usage_of (object fields) =
    let zero_tokens = number true (codes "0") in
    if truthy (object fields)
    then some (
        some (record {
          input_tokens = value_or zero_tokens (lookup (codes "input_tokens") fields);
          output_tokens = value_or zero_tokens (lookup (codes "output_tokens") fields);
          cache_read_tokens = value_or null (lookup (codes "cache_read_input_tokens") fields);
          cache_write_tokens = value_or null (lookup (codes "cache_creation_input_tokens") fields);
        }))
    else some none
usage_of value = if truthy value then none else some none

-- The event of an assistant message whose blocks were read.
unfoldable pub assistant_event :
    Runtime → Fields → Blocks → Option Usage → Text → Value → Option Text → Event
unfolding join
assistant_event rt message blocks usage uuid timestamp session_id =
    let joined_text = join (codes "\n") blocks.text_parts in
    record {
      event_id = make_event_id uuid (codes "assistant");
      timestamp = timestamp;
      message_uuid = uuid;
      session_id = session_id;
      body = assistant_message (record {
        model = value_or (text (codes "unknown")) (lookup (codes "model") message);
        joined_text = joined_text;
        tool_calls = blocks.tool_calls;
        stop_reason = value_or null (lookup (codes "stop_reason") message);
        usage = usage;
        is_auth_error = rt.is_auth_error_text joined_text;
      });
    }

-- After the guards. True is an exception.
unfoldable pub assistant_content :
    Runtime → Fields → Text → Value → Option Text → Progress → Progress × Bool
unfolding emit assistant_event assistant_blocks
assistant_content rt message uuid timestamp session_id p =
    elim (blocks_of (value_or (array none_left) (lookup (codes "content") message))) [
      | none ↦ (p, true)
      | some items ↦
          let blocks = assistant_blocks rt items p.tool_name_by_call_id in
          let named : Progress = record p { tool_name_by_call_id = blocks.tool_name_by_call_id } in
          elim (usage_of (value_or (object no_key) (lookup (codes "usage") message))) [
            | none ↦ (named, true)
            | some usage ↦ if blocks.is_raised then (named, true) else (
              emit (assistant_event rt message blocks usage uuid timestamp session_id) named,
              false,
            )
          ]
    ]

unfoldable pub parse_assistant_message :
    Runtime → Fields → Text → Value → Option Text → Progress → Progress × Bool
unfolding assistant_content is_resume_no_response_reply
parse_assistant_message rt raw uuid timestamp session_id p =
    if in_names (make_event_id uuid (codes "assistant")) p.existing_event_ids
    then (p, false)
    else elim (lookup (codes "message") raw) [
      | some (object message) ↦ elim (is_resume_no_response_reply message) [
        | none ↦ (p, true)
        | some true ↦ (p, false)
        | some false ↦ assistant_content rt message uuid timestamp session_id p
      ]
      | _ ↦ (p, false)
    ]
