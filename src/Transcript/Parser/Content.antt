-- ===== src/Transcript/Parser/Content.antt =====
-- The content blocks of a message, in
-- apps/system_interface/imbue/system_interface/session_parser.py.
use forever_claude_template.Base.{
  codes, ℕ, Bool, true, false, not, ◌&&◌, ◌||◌, Option, none, some, List, [], ◌∷◌, ◌++◌, take,
  length, ltb, if◌then◌else◌, Dict, put, Text, text_beq, code_eq,
}
use forever_claude_template.Transcript.Event.{
  Value, Items, Fields, null, boolean, number, text, array, object, none_left, item, no_key, field,
  ToolCall,
}
use forever_claude_template.Transcript.Lines.{strip}
use forever_claude_template.Transcript.Texts.{is_space, join}

-- What the parser calls: `json.loads` (none for a JSONDecodeError), `json.dumps` with its separators,
-- `str`, Python's `<` (none for a TypeError), `is_auth_error_text`, and the verbs of the tk commands that
-- `parse_command` finds.
pub record Runtime : Type 0 where
  pub loads : Text → Option Value
  pub dumps : Value → Text
  pub show : Value → Text
  pub less : Value → Value → Option Bool
  pub is_auth_error_text : Text → Bool
  pub tk_verbs : Text → Option (List Text)

-- `fields.get(key)`
unfoldable pub lookup : Text → Fields → Option Value
lookup key no_key = none
lookup key (field k v fields) =
    let rest = lookup key fields in if text_beq k key then some v else rest

abbrev pub value_or : Value → Option Value → Value
value_or default none = default
value_or default (some v) = v

abbrev pub is_text : Text → Value → Bool
is_text t (text s) = text_beq s t
is_text t value = false

abbrev pub nonempty : Text → Bool
nonempty [] = false
nonempty (c ∷ s) = true

-- `bool(value)`
abbrev pub truthy : Value → Bool
truthy null = false
truthy (boolean b) = b
truthy (number is_zero digits) = not is_zero
truthy (text t) = nonempty t
truthy (array none_left) = false
truthy (array (item v items)) = true
truthy (object no_key) = false
truthy (object (field k v fields)) = true

abbrev pub as_text : Runtime → Value → Text
as_text rt (text t) = t
as_text rt value = rt.show value

-- Whether a value can be a key of a dict. A key that is no text is kept as its text.
abbrev pub is_hashable : Value → Bool
is_hashable (array items) = false
is_hashable (object fields) = false
is_hashable value = true

-- What was read of the blocks. `is_raised` says that the id of a call can be no key, or that a part of
-- the text is no text, so that joining the parts raises.
pub record Blocks : Type 0 where
  pub text_parts : List Text
  pub tool_calls : List ToolCall
  pub tool_name_by_call_id : Dict Text Text
  pub is_raised : Bool

-- What `for block in content` goes over, as far as it is objects: a text yields characters and an
-- object its keys. None where the loop raises.
abbrev pub blocks_of : Value → Option Items
blocks_of (array items) = some items
blocks_of (text t) = some none_left
blocks_of (object fields) = some none_left
blocks_of null = none
blocks_of (boolean b) = none
blocks_of (number is_zero digits) = none

abbrev pub max_input_preview_length : ℕ
max_input_preview_length = 200

abbrev pub is_lifecycle_verb : Text → Bool
is_lifecycle_verb verb =
    text_beq verb (codes "create") || text_beq verb (codes "start") || text_beq verb (codes "close")

unfoldable pub any_lifecycle : List Text → Bool
any_lifecycle [] = false
any_lifecycle (verb ∷ verbs) = is_lifecycle_verb verb || any_lifecycle verbs

unfoldable pub is_tk_lifecycle_call : Runtime → Text → Value → Bool
unfolding any_lifecycle
is_tk_lifecycle_call rt tool_name (object tool_input) =
    text_beq tool_name (codes "Bash")
    && elim (value_or (text []) (lookup (codes "command") tool_input)) [
      | text command ↦ elim (rt.tk_verbs command) [
        | none ↦ false
        | some verbs ↦ any_lifecycle verbs
      ]
      | _ ↦ false
    ]
is_tk_lifecycle_call rt tool_name value = false

-- A field of an Agent call's input, where it is a text and not empty.
abbrev pub agent_field : Text → Text → Value → Option Text
agent_field key tool_name (object tool_input) =
    if text_beq tool_name (codes "Agent")
    then elim (lookup key tool_input) [ some (text (c ∷ t)) ↦ some (c ∷ t) | _ ↦ none ]
    else none
agent_field key tool_name value = none

unfoldable pub tool_call_of : Runtime → Text → Text → Value → ToolCall
unfolding is_tk_lifecycle_call
tool_call_of rt call_id tool_name tool_input =
    let preview = rt.dumps tool_input in
    record {
      tool_call_id = call_id;
      tool_name = tool_name;
      input_preview =
          if ltb max_input_preview_length (length preview)
            && not (is_tk_lifecycle_call rt tool_name tool_input)
          then take max_input_preview_length preview ++ codes "..."
          else preview;
      description = agent_field (codes "description") tool_name tool_input;
      subagent_type = agent_field (codes "subagent_type") tool_name tool_input;
    }

-- A text block's part goes before those of the later blocks.
abbrev pub with_part : Value → Blocks → Blocks
with_part (text []) rest = rest
with_part (text (c ∷ t)) rest = record rest { text_parts = (c ∷ t) ∷ rest.text_parts }
with_part value rest = if truthy value then record rest { is_raised = true } else rest

unfoldable pub assistant_blocks : Runtime → Items → Dict Text Text → Blocks
unfolding tool_call_of
assistant_blocks rt none_left names = record {
  text_parts = [];
  tool_calls = [];
  tool_name_by_call_id = names;
  is_raised = false;
}
assistant_blocks rt (item (object block) items) names =
    let type_value = value_or (text []) (lookup (codes "type") block) in
    let id_value = value_or (text []) (lookup (codes "id") block) in
    let name_value = value_or (text []) (lookup (codes "name") block) in
    let call_id = as_text rt id_value in
    let tool_name = as_text rt name_value in
    let tool_input = value_or (object no_key) (lookup (codes "input") block) in
    let is_use = is_text (codes "tool_use") type_value in
    let is_noted = is_use && truthy id_value && truthy name_value in
    let noted = if is_noted then put names call_id tool_name else names in
    let rest = assistant_blocks rt items noted in
    if is_text (codes "text") type_value
    then with_part (value_or (text []) (lookup (codes "text") block)) rest
    else if is_noted && not (is_hashable id_value)
    then record { text_parts = []; tool_calls = []; tool_name_by_call_id = names; is_raised = true }
    else if is_use
    then record rest { tool_calls = tool_call_of rt call_id tool_name tool_input ∷ rest.tool_calls }
    else rest
assistant_blocks rt (item value items) names = assistant_blocks rt items names

-- The text parts of a list of blocks; none where one of them is no text.
unfoldable pub text_parts_of : Items → Option (List Text)
text_parts_of none_left = some []
text_parts_of (item (object block) items) =
    let rest = text_parts_of items in
    if is_text (codes "text") (value_or null (lookup (codes "type") block))
    then elim (value_or (text []) (lookup (codes "text") block)) [
      | text [] ↦ rest
      | text (c ∷ t) ↦ elim rest [ none ↦ none | some parts ↦ some ((c ∷ t) ∷ parts) ]
      | value ↦ if truthy value then none else rest
    ]
    else rest
text_parts_of (item value items) = text_parts_of items

-- None where joining the parts raises.
unfoldable pub extract_text_content : Value → Option Text
unfolding text_parts_of join
extract_text_content (text t) = some t
extract_text_content (array items) = elim (text_parts_of items) [
  | none ↦ none
  | some parts ↦ some (join (codes "\n") parts)
]
extract_text_content value = some []

unfoldable pub only_tool_results : Items → Bool
only_tool_results none_left = true
only_tool_results (item (object block) items) =
    is_text (codes "tool_result") (value_or (text []) (lookup (codes "type") block))
    && only_tool_results items
only_tool_results (item (text t) items) = false
only_tool_results (item value items) = only_tool_results items

unfoldable pub has_tool_results_only : Value → Bool
unfolding only_tool_results
has_tool_results_only (text t) = false
has_tool_results_only (array items) = only_tool_results items
has_tool_results_only value = true

-- The parts of a tool result's output; none where one of them is no text.
unfoldable pub output_parts : Items → Option (List Text)
output_parts none_left = some []
output_parts (item (object block) items) =
    let rest = output_parts items in
    if is_text (codes "text") (value_or null (lookup (codes "type") block))
    then elim (value_or (text []) (lookup (codes "text") block)) [
      | text t ↦ elim rest [ none ↦ none | some parts ↦ some (t ∷ parts) ]
      | _ ↦ none
    ]
    else rest
output_parts (item (text t) items) = elim (output_parts items) [
  | none ↦ none
  | some parts ↦ some (t ∷ parts)
]
output_parts (item value items) = output_parts items

unfoldable pub result_text : Runtime → Value → Option Text
unfolding output_parts join
result_text rt (text t) = some t
result_text rt (array items) = elim (output_parts items) [
  | none ↦ none
  | some parts ↦ some (join (codes "\n") parts)
]
result_text rt value = some (rt.show value)

abbrev pub synthetic_model : Text
synthetic_model = codes "<synthetic>"

-- None where joining the message's text raises.
unfoldable pub is_resume_no_response_reply : Fields → Option Bool
unfolding extract_text_content strip
is_resume_no_response_reply message =
    if is_text synthetic_model (value_or null (lookup (codes "model") message))
    then elim (extract_text_content (value_or null (lookup (codes "content") message))) [
      | none ↦ none
      | some t ↦ some (text_beq (strip is_space t) (codes "No response requested."))
    ]
    else some false
