-- ===== src/Transcript/Event.antt =====
-- The transcript events that apps/system_interface/imbue/system_interface/session_parser.py makes, and
-- the JSON values of a session file.
use forever_claude_template.Base.{Bool, Option, List, Text, Dict}

-- A value of `json.loads`. A number is known by whether it is zero and by its digits.
mutual
  pub data Value : Type 0 where
    null : Value
    boolean : Bool → Value
    number : Bool → Text → Value
    text : Text → Value
    array : Items → Value
    object : Fields → Value

  pub data Items : Type 0 where
    none_left : Items
    item : Value → Items → Items

  pub data Fields : Type 0 where
    no_key : Fields
    field : Text → Value → Fields → Fields

pub record ToolCall : Type 0 where
  pub tool_call_id : Text
  pub tool_name : Text
  pub input_preview : Text
  pub description : Option Text
  pub subagent_type : Option Text

pub record Usage : Type 0 where
  pub input_tokens : Value
  pub output_tokens : Value
  pub cache_read_tokens : Value
  pub cache_write_tokens : Value

pub record AssistantMessage : Type 0 where
  pub model : Value
  pub joined_text : Text
  pub tool_calls : List ToolCall
  pub stop_reason : Value
  pub usage : Option Usage
  pub is_auth_error : Bool

pub record UserMessage : Type 0 where
  pub content : Text
  pub is_meta : Bool

pub record ToolResult : Type 0 where
  pub tool_call_id : Text
  pub tool_name : Text
  pub output : Text
  pub is_error : Bool
  pub subagent_id : Option Text

-- What the events of the three types have of their own.
pub data Body : Type 0 where
  assistant_message : AssistantMessage → Body
  user_message : UserMessage → Body
  tool_result : ToolResult → Body

pub record Event : Type 0 where
  pub event_id : Text
  pub timestamp : Value
  pub message_uuid : Text
  pub session_id : Option Text
  pub body : Body

-- What `parse_session_lines` leaves behind: its events, and the two collections that it changes.
-- `is_raised` says that it ended by an exception, and its events are lost.
pub record Parsed : Type 0 where
  pub events : List Event
  pub existing_event_ids : List Text
  pub tool_name_by_call_id : Dict Text Text
  pub is_raised : Bool
