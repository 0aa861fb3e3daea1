-- ===== src/Interface/Activity.antt =====
-- The activity state of a chat: apps/system_interface/imbue/system_interface/activity_state.py. An
-- event is what the functions read of it; a time is a number.
pub mod Derived
use forever_claude_template.Base.{
  ℕ, String, Bool, true, false, ◌&&◌, ◌||◌, not, Option, none, some, List, [], ◌∷◌, ◌++◌, ltb,
  if◌then◌else◌, contains, str_eq,
}

pub data ActivityState : Type 0 where
  idle thinking tool_running : ActivityState

-- An id that is missing reads as the empty text.
pub data Event : Type 0 where
  assistant_message : List String → Event
  tool_result : String → Event
  user_message : Event
  other : Event

pub record Timed : Type 0 where
  pub event : Event
  pub timestamp : Option ℕ

abbrev pub with_id : String → List String → List String
with_id id ids = if str_eq id "" then ids else id ∷ ids

unfoldable pub with_ids : List String → List String → List String
with_ids [] ids = ids
with_ids (tool_call_id ∷ rest) ids = with_ids rest (with_id tool_call_id ids)

abbrev pub pending_with : Event → List String → List String
pending_with (assistant_message calls) pending = with_ids calls pending
pending_with _ pending = pending

abbrev pub matched_with : Event → List String → List String
matched_with (tool_result id) matched = with_id id matched
matched_with _ matched = matched

-- Whether a text of the first list is not in the second: `bool(pending - matched)`.
unfoldable pub has_difference : List String → List String → Bool
has_difference [] matched = false
has_difference (id ∷ pending) matched = not (contains id matched) || has_difference pending matched

unfoldable pub scan_tool_uses : List Timed → List String → List String → Bool
unfolding with_ids has_difference
scan_tool_uses [] pending matched = has_difference pending matched
scan_tool_uses (e ∷ events) pending matched =
    scan_tool_uses events (pending_with e.event pending) (matched_with e.event matched)

unfoldable pub has_unmatched_tool_use : List Timed → Bool
unfolding scan_tool_uses
has_unmatched_tool_use events = scan_tool_uses events [] []

-- `events[-1]`, if there is one.
unfoldable pub last_event : List Timed → Option Timed
last_event [] = none
last_event (e ∷ []) = some e
last_event (e ∷ f ∷ events) = last_event (f ∷ events)

abbrev pub event_of : Option Timed → Option Event
event_of none = none
event_of (some e) = some e.event

abbrev pub timestamp_of : Option Timed → Option ℕ
timestamp_of none = none
timestamp_of (some e) = e.timestamp

unfoldable pub last_event_type : List Timed → Option Event
unfolding last_event
last_event_type events = event_of (last_event events)

-- The timestamp, parsed to its epoch.
unfoldable pub last_event_timestamp : List Timed → Option ℕ
unfolding last_event
last_event_timestamp events = timestamp_of (last_event events)

unfoldable pub is_transcript_tail_stale : Option ℕ → Option ℕ → Bool
is_transcript_tail_stale (some tail_at) (some started_at) = ltb tail_at started_at
is_transcript_tail_stale _ _ = false

abbrev pub is_awaiting : Option Event → Bool
is_awaiting (some user_message) = true
is_awaiting (some (tool_result id)) = true
is_awaiting _ = false

unfoldable pub derive_activity_state :
    Bool → Bool → Option Event → Option ℕ → Option ℕ → ActivityState
unfolding is_transcript_tail_stale
derive_activity_state is_agent_running has_pending_tool_use tail_event_type tail_at started_at =
    if not is_agent_running
    then idle
    else if is_transcript_tail_stale tail_at started_at
    then idle
    else if has_pending_tool_use
    then tool_running
    else if is_awaiting tail_event_type
    then thinking
    else idle
