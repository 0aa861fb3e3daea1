-- ===== src/Transcript/Records.antt =====
-- `parse_session_lines` of apps/system_interface/imbue/system_interface/session_parser.py: the records
-- of a session file by their type, and the order of their events.
use forever_claude_template.Base.{
  codes, Bool, true, false, not, ◌||◌, Option, none, some, List, [], ◌∷◌, if◌then◌else◌, Dict, Text,
  code_eq,
}
use forever_claude_template.Transcript.Event.{Fields, text, object, Event, Parsed}
use forever_claude_template.Transcript.Lines.{strip}
use forever_claude_template.Transcript.Texts.{is_space}
use forever_claude_template.Transcript.Parser.Content.{
  Runtime, lookup, value_or, is_text, truthy, as_text,
}
use forever_claude_template.Transcript.Parser.{Progress, parse_assistant_message}
use forever_claude_template.Transcript.UserMessages.{
  parse_queued_command_attachment, parse_user_message,
}

-- A record of the file, by its type. True is an exception.
unfoldable pub parse_record : Runtime → Fields → Option Text → Progress → Progress × Bool
unfolding parse_assistant_message parse_user_message parse_queued_command_attachment
parse_record rt raw session_id p =
    let type_value = value_or (text []) (lookup (codes "type") raw) in
    let uuid_value = value_or (text []) (lookup (codes "uuid") raw) in
    let timestamp_value = value_or (text []) (lookup (codes "timestamp") raw) in
    let uuid = as_text rt uuid_value in
    if not (truthy uuid_value) || not (truthy timestamp_value)
    then (p, false)
    else if is_text (codes "assistant") type_value
    then parse_assistant_message rt raw uuid timestamp_value session_id p
    else if is_text (codes "user") type_value
    then parse_user_message rt raw uuid timestamp_value session_id p
    else if is_text (codes "attachment") type_value
    then (parse_queued_command_attachment raw uuid timestamp_value session_id p, false)
    else (p, false)

-- One line. True is an exception: a value that is no object has no `get`.
unfoldable pub parse_line : Runtime → Text → Option Text → Progress → Progress × Bool
unfolding parse_record strip
parse_line rt line session_id p = elim (strip is_space line) [
  | [] ↦ (p, false)
  | c ∷ stripped ↦ elim (rt.loads (c ∷ stripped)) [
    | none ↦ (p, false)
    | some (object raw) ↦ parse_record rt raw session_id p
    | some _ ↦ (p, true)
  ]
]

unfoldable pub parse_lines : Runtime → List Text → Option Text → Progress → Progress × Bool
unfolding parse_line
parse_lines rt [] session_id p = (p, false)
parse_lines rt (line ∷ lines) session_id p =
    let read = parse_line rt line session_id p in
    let rest = parse_lines rt lines session_id read.0 in if read.1 then (read.0, true) else rest

-- A stable sort by timestamp. None where two timestamps cannot be compared, as a text and a number.
unfoldable pub insert_event : Runtime → Event → List Event → Option (List Event)
insert_event rt e [] = some (e ∷ [])
insert_event rt e (other ∷ events) =
    let later = insert_event rt e events in
    elim (rt.less other.timestamp e.timestamp) [
      | none ↦ none
      | some true ↦ elim later [ none ↦ none | some sorted ↦ some (other ∷ sorted) ]
      | some false ↦ some (e ∷ other ∷ events)
    ]

unfoldable pub sort_events : Runtime → List Event → Option (List Event)
unfolding insert_event
sort_events rt [] = some []
sort_events rt (e ∷ events) = elim (sort_events rt events) [
  | none ↦ none
  | some sorted ↦ insert_event rt e sorted
]

-- The two collections keep what was added to them where an exception loses the events.
abbrev pub parsed_of : Progress → Option (List Event) → Parsed
parsed_of p none = record {
  events = [];
  existing_event_ids = p.existing_event_ids;
  tool_name_by_call_id = p.tool_name_by_call_id;
  is_raised = true;
}
parsed_of p (some events) = record {
  events = events;
  existing_event_ids = p.existing_event_ids;
  tool_name_by_call_id = p.tool_name_by_call_id;
  is_raised = false;
}

unfoldable pub parse_session_lines :
    Runtime → List Text → List Text → Dict Text Text → Option Text → Parsed
unfolding parse_lines sort_events
parse_session_lines rt lines existing names session_id =
    let read =
      parse_lines rt lines session_id
        (record { existing_event_ids = existing; tool_name_by_call_id = names; new_events = [] }) in
    parsed_of read.0 (if read.1 then none else sort_events rt read.0.new_events)
