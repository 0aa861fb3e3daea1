-- ===== src/Transcript/UserMessages.antt =====
-- The user messages, tool results and queued prompts of
-- apps/system_interface/imbue/system_interface/session_parser.py.
use forever_claude_template.Base.{
  codes, Bool, true, false, not, ◌&&◌, ◌||◌, Option, none, some, [], ◌∷◌, ◌++◌, if◌then◌else◌, Dict,
  get, in_names, Text, text_beq, code_eq,
}
use forever_claude_template.Transcript.Event.{
  Value, Items, Fields, null, boolean, text, array, object, none_left, item, UserMessage, Event,
  user_message, tool_result,
}
use forever_claude_template.Transcript.Lines.{strip}
use forever_claude_template.Transcript.Texts.{
  is_space, normalize_slash_command, extract_subagent_id, truncate_tool_output,
}
use forever_claude_template.Transcript.Parser.Content.{
  Runtime, lookup, value_or, is_text, truthy, as_text, is_hashable, nonempty, extract_text_content,
  has_tool_results_only, result_text,
}
use forever_claude_template.Transcript.Parser.{Progress, emit, make_event_id}

abbrev pub interrupt_sentinel : Text
interrupt_sentinel = codes "[Request interrupted by user]"

abbrev pub user_event : Text → Text → Value → Option Text → UserMessage → Event
user_event event_id uuid timestamp session_id message = record {
  event_id = event_id;
  timestamp = timestamp;
  message_uuid = uuid;
  session_id = session_id;
  body = user_message message;
}

-- The user text of a message. True is an exception.
unfoldable pub parse_user_text :
    Fields → Value → Text → Value → Option Text → Progress → Progress × Bool
unfolding emit has_tool_results_only extract_text_content normalize_slash_command strip
parse_user_text raw content uuid timestamp session_id p =
    let event_id = make_event_id uuid (codes "user") in
    if has_tool_results_only content || in_names event_id p.existing_event_ids
    then (p, false)
    else elim (extract_text_content content) [
      | none ↦ (p, true)
      | some plain ↦
          let shown = normalize_slash_command plain in
          if nonempty shown && not (text_beq (strip is_space shown) interrupt_sentinel)
          then (
            emit
                (user_event event_id uuid timestamp session_id (record {
                  content = shown;
                  is_meta = truthy (value_or null (lookup (codes "isMeta") raw));
                }))
                p,
            false,
          )
          else (p, false)
    ]

-- The event of one tool_result block with its output as text.
unfoldable pub result_event :
    Fields → Option Text → Text → Text → Text → Value → Option Text → Dict Text Text → Event
unfolding extract_subagent_id truncate_tool_output
result_event block structured_agent_id tool_call_id output uuid timestamp session_id names =
    let tool_name : Text = elim (get names tool_call_id) [
      | none ↦ codes "unknown"
      | some name ↦ name
    ] in
    record {
      event_id = make_event_id uuid (codes "tool_result-" ++ tool_call_id);
      timestamp = timestamp;
      message_uuid = uuid;
      session_id = session_id;
      body = tool_result (record {
        tool_call_id = tool_call_id;
        tool_name = tool_name;
        output = truncate_tool_output output;
        is_error = truthy (value_or (boolean false) (lookup (codes "is_error") block));
        subagent_id =
            if text_beq tool_name (codes "Agent")
            then extract_subagent_id structured_agent_id output
            else none;
      });
    }

-- One block of a user message. True is an exception.
unfoldable pub parse_tool_result :
    Runtime → Value → Option Text → Text → Value → Option Text → Progress → Progress × Bool
unfolding emit result_event result_text
parse_tool_result rt (object block) structured_agent_id uuid timestamp session_id p =
    let id_value = value_or (text []) (lookup (codes "tool_use_id") block) in
    let tool_call_id = as_text rt id_value in
    if is_text (codes "tool_result") (value_or null (lookup (codes "type") block))
      && truthy id_value
      && not (
          in_names (make_event_id uuid (codes "tool_result-" ++ tool_call_id)) p.existing_event_ids)
    then (if is_hashable id_value
        then elim (result_text rt (value_or (text []) (lookup (codes "content") block))) [
          | none ↦ (p, true)
          | some output ↦ (
            emit
                (result_event block structured_agent_id tool_call_id output uuid timestamp
                  session_id p.tool_name_by_call_id)
                p,
            false,
          )
        ]
        else (p, true))
    else (p, false)
parse_tool_result rt _ structured_agent_id uuid timestamp session_id p = (p, false)

unfoldable pub parse_tool_results :
    Runtime → Items → Option Text → Text → Value → Option Text → Progress → Progress × Bool
unfolding parse_tool_result
parse_tool_results rt none_left structured_agent_id uuid timestamp session_id p = (p, false)
parse_tool_results rt (item block items) structured_agent_id uuid timestamp session_id p =
    let read = parse_tool_result rt block structured_agent_id uuid timestamp session_id p in
    let rest = parse_tool_results rt items structured_agent_id uuid timestamp session_id read.0 in
    if read.1 then (read.0, true) else rest

-- `toolUseResult.agentId`, where it is a text and not empty.
abbrev pub structured_agent_id_of : Fields → Option Text
structured_agent_id_of raw = elim (lookup (codes "toolUseResult") raw) [
  | some (object fields) ↦ elim (lookup (codes "agentId") fields) [
    | some (text (c ∷ agent_id)) ↦ some (c ∷ agent_id)
    | _ ↦ none
  ]
  | _ ↦ none
]

abbrev pub items_of : Value → Items
items_of (array items) = items
items_of value = none_left

unfoldable pub parse_user_message :
    Runtime → Fields → Text → Value → Option Text → Progress → Progress × Bool
unfolding parse_user_text parse_tool_results
parse_user_message rt raw uuid timestamp session_id p = elim (lookup (codes "message") raw) [
  | some (object message) ↦
      let content = value_or null (lookup (codes "content") message) in
      let said = parse_user_text raw content uuid timestamp session_id p in
      let rest =
        parse_tool_results rt (items_of content) (structured_agent_id_of raw) uuid timestamp
          session_id said.0 in
      if said.1 then (said.0, true) else rest
  | _ ↦ (p, false)
]

-- The prompt of a queued command.
unfoldable pub queued_prompt : Fields → Option Text
unfolding normalize_slash_command strip
queued_prompt raw = elim (lookup (codes "attachment") raw) [
  | some (object attachment) ↦
      if is_text (codes "queued_command") (value_or null (lookup (codes "type") attachment))
        && is_text (codes "prompt") (value_or null (lookup (codes "commandMode") attachment))
      then elim (lookup (codes "prompt") attachment) [
        | some (text prompt) ↦
            if nonempty (strip is_space prompt) then some (normalize_slash_command prompt) else none
        | _ ↦ none
      ]
      else none
  | _ ↦ none
]

unfoldable pub parse_queued_command_attachment :
    Fields → Text → Value → Option Text → Progress → Progress
unfolding queued_prompt emit
parse_queued_command_attachment raw uuid timestamp session_id p =
    let event_id = make_event_id uuid (codes "queued") in
    elim (queued_prompt raw) [
      | none ↦ p
      | some prompt ↦
          if in_names event_id p.existing_event_ids
          then p
          else emit
              (user_event event_id uuid timestamp session_id
                (record { content = prompt; is_meta = false }))
              p
    ]
