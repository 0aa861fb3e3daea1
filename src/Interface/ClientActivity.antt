-- ===== src/Interface/ClientActivity.antt =====
-- apps/system_interface/imbue/system_interface/client_activity.py: which browser client did what. A log
-- line is a record of its fields, each the text that `str` gives, empty where it is missing.
pub mod Summaries
pub mod Attribution
mod Examples
use forever_claude_template.Base.{
  ℕ, suc, String, Bool, true, false, ◌&&◌, ◌||◌, Option, none, some, List, [], ◌∷◌, ◌++◌, length,
  drop, take, leb, ◌-◌, if◌then◌else◌, str_eq, Dict, get, put, text_eq, Text, text_ltb,
}

pub record LogEvent : Type 0 where
  pub timestamp : Text
  pub type : String
  pub client_id : String
  pub device_kind : String
  pub layout_slug : String
  pub to_layout_slug : String
  pub agent_id : String
  pub agent_name : String
  pub message_text : Text

pub record RecentMessage : Type 0 where
  pub timestamp : Text
  pub agent_name : String
  pub shown : Text

pub record Summary : Type 0 where
  pub client_id : String
  pub device_kind : String
  pub current_layout : Option String
  pub last_seen : Text
  pub is_connected : Bool
  pub recent_messages : List RecentMessage

abbrev pub message_text_truncation_limit : ℕ
message_text_truncation_limit = 500

abbrev pub recent_messages_per_client : ℕ
recent_messages_per_client = 5

unfoldable pub truncate_message_text : Text → Text × Bool
truncate_message_text t =
    if leb (length t) message_text_truncation_limit
    then (t, false)
    else (take message_text_truncation_limit t, true)

-- `append_message_event`; the log is in file order.
unfoldable pub append_message_event :
    Text → String → String → String → String → String → Text → List LogEvent → List LogEvent
unfolding truncate_message_text
append_message_event now client_id device_kind layout_slug agent_id agent_name message_text log =
    log
    ++ record {
      timestamp = now;
      type = "message";
      client_id = client_id;
      device_kind = device_kind;
      layout_slug = layout_slug;
      to_layout_slug = "";
      agent_id = agent_id;
      agent_name = agent_name;
      message_text = (truncate_message_text message_text).0;
    }
      ∷ []

unfoldable pub append_layout_switch_event :
    Text → String → String → String → List LogEvent → List LogEvent
append_layout_switch_event now client_id device_kind to_layout_slug log =
    log
    ++ record {
      timestamp = now;
      type = "layout_switch";
      client_id = client_id;
      device_kind = device_kind;
      layout_slug = "";
      to_layout_slug = to_layout_slug;
      agent_id = "";
      agent_name = "";
      message_text = [];
    }
      ∷ []

unfoldable pub append_client_connected_event :
    Text → String → String → String → List LogEvent → List LogEvent
append_client_connected_event now client_id device_kind layout_slug log =
    log
    ++ record {
      timestamp = now;
      type = "client_connected";
      client_id = client_id;
      device_kind = device_kind;
      layout_slug = layout_slug;
      to_layout_slug = "";
      agent_id = "";
      agent_name = "";
      message_text = [];
    }
      ∷ []

-- `slug or None`
abbrev pub named : String → Option String
named slug = if str_eq slug "" then none else some slug

unfoldable pub event_layout_slug : LogEvent → Option String
event_layout_slug e =
    if str_eq e.type "layout_switch"
    then named e.to_layout_slug
    else if str_eq e.type "message" || str_eq e.type "client_connected"
    then named e.layout_slug
    else none

abbrev pub unseen : String → Summary
unseen client_id = record {
  client_id = client_id;
  device_kind = "";
  current_layout = none;
  last_seen = [];
  is_connected = false;
  recent_messages = [];
}

-- `del messages[:-n]`
abbrev pub keep_last : List RecentMessage → List RecentMessage
keep_last messages = drop (length messages - recent_messages_per_client) messages

unfoldable pub with_message : LogEvent → List RecentMessage → List RecentMessage
with_message e messages =
    if str_eq e.type "message"
    then keep_last (
        messages
        ++ record { timestamp = e.timestamp; agent_name = e.agent_name; shown = e.message_text }
          ∷ [])
    else messages

abbrev pub or_else : Option String → Option String → Option String
or_else none o = o
or_else (some x) o = some x

-- What one event changes in its client's summary.
unfoldable pub note_event : LogEvent → Summary → Summary
unfolding event_layout_slug with_message
note_event e s = record s {
  last_seen = e.timestamp;
  device_kind = if str_eq e.device_kind "" then s.device_kind else e.device_kind;
  current_layout = or_else (event_layout_slug e) s.current_layout;
  recent_messages = with_message e s.recent_messages;
}

abbrev pub summary_or_unseen : String → Option Summary → Summary
summary_or_unseen client_id none = unseen client_id
summary_or_unseen client_id (some s) = s

unfoldable pub fold_events : List LogEvent → Dict String Summary → Dict String Summary
unfolding note_event
fold_events [] summaries = summaries
fold_events (e ∷ events) summaries =
    let rest = fold_events events (
      put summaries e.client_id
        (note_event e (summary_or_unseen e.client_id (get summaries e.client_id)))) in
    let skipped = fold_events events summaries in if str_eq e.client_id "" then skipped else rest

unfoldable pub mark_connected : List String → Dict String Summary → Dict String Summary
mark_connected [] summaries = summaries
mark_connected (client_id ∷ ids) summaries = mark_connected ids (elim (get summaries client_id) [
  | none ↦ summaries
  | some s ↦ put summaries client_id (record s { is_connected = true })
])

-- `sorted(..., reverse=True)` by the last time seen: equals stay in their order.
unfoldable pub insert_summary : Summary → List Summary → List Summary
insert_summary s [] = s ∷ []
insert_summary s (other ∷ rest) =
    let later = insert_summary s rest in
    if text_ltb s.last_seen other.last_seen then other ∷ later else s ∷ other ∷ rest

unfoldable pub latest_first : Dict String Summary → List Summary
unfolding insert_summary
latest_first [] = []
latest_first ((client_id, s) ∷ rest) = insert_summary s (latest_first rest)

unfoldable pub summarize_client_activity : List LogEvent → List String → List Summary
unfolding fold_events mark_connected latest_first
summarize_client_activity events connected_client_ids =
    latest_first (mark_connected connected_client_ids (fold_events events []))

abbrev pub is_message_to : String → LogEvent → Bool
is_message_to agent_id e = str_eq e.type "message" && str_eq e.agent_id agent_id

-- The walk over `reversed(events)`.
unfoldable pub first_sender : String → List LogEvent → Option String
first_sender agent_id [] = none
first_sender agent_id (e ∷ events) =
    let later = first_sender agent_id events in
    if is_message_to agent_id e then named e.client_id else later

unfoldable pub reversed_events : List LogEvent → List LogEvent
reversed_events [] = []
reversed_events (e ∷ events) = reversed_events events ++ e ∷ []

unfoldable pub find_client_id_for_agent : List LogEvent → String → Option String
unfolding first_sender reversed_events
find_client_id_for_agent events agent_id =
    if str_eq agent_id "" then none else first_sender agent_id (reversed_events events)
