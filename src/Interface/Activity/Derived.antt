-- ===== src/Interface/Activity/Derived.antt =====
-- What an outstanding tool call is: apps/system_interface/imbue/system_interface/activity_state.py.
use forever_claude_template.Base.{
  ℕ, String, ◌≡◌, refl, inl, inr, Bool, true, false, ◌&&◌, ◌||◌, not, Bool-cases, Option, List, [],
  ◌∷◌, arith, if◌then◌else◌, contains, str_eq, eq_iff,
}
use forever_claude_template.Interface.Activity.{
  idle, tool_running, Event, assistant_message, tool_result, user_message, other, Timed, with_id,
  with_ids, pending_with, matched_with, has_difference, scan_tool_uses, has_unmatched_tool_use,
  derive_activity_state, is_transcript_tail_stale, last_event_type, last_event_timestamp,
}

abbrev issues : String → Event → Bool
issues id (assistant_message calls) = contains id calls
issues id _ = false

abbrev answers : String → Event → Bool
answers id (tool_result answered) = str_eq answered id
answers id _ = false

-- Some message of the transcript calls a tool under the id, or some result answers the id.
unfoldable pub is_issued : String → List Timed → Bool
is_issued id [] = false
is_issued id (e ∷ events) = issues id e.event || is_issued id events

unfoldable pub is_answered : String → List Timed → Bool
is_answered id [] = false
is_answered id (e ∷ events) = answers id e.event || is_answered id events

-- `with_id` adds an id that is not empty, and keeps the others.
contains-with_id :
    (k id : String) (ids : List String)
    → contains k (with_id id ids) ≡ ((str_eq id k && not (str_eq k "")) || contains k ids)
contains-with_id k id ids = ground (arith, eq_iff id k, eq_iff k "", eq_iff id "")

contains-with_ids :
    (k : String) (new ids : List String)
    → contains k (with_ids new ids) ≡ ((contains k new && not (str_eq k "")) || contains k ids)
unfolding with_ids
contains-with_ids k [] ids = refl
contains-with_ids k (id ∷ new) ids =
    ground (arith, contains-with_ids k new (with_id id ids), contains-with_id k id ids)

contains-pending_with :
    (k : String) (e : Event) (pending : List String)
    → contains k (pending_with e pending)
      ≡ ((issues k e && not (str_eq k "")) || contains k pending)
contains-pending_with k (assistant_message calls) pending = contains-with_ids k calls pending
contains-pending_with k (tool_result id) pending = refl
contains-pending_with k user_message pending = refl
contains-pending_with k other pending = refl

contains-matched_with :
    (k : String) (e : Event) (matched : List String)
    → contains k (matched_with e matched)
      ≡ ((answers k e && not (str_eq k "")) || contains k matched)
contains-matched_with k (assistant_message calls) matched = refl
contains-matched_with k (tool_result id) matched = contains-with_id k id matched
contains-matched_with k user_message matched = refl
contains-matched_with k other matched = refl

has_difference-found :
    (pending matched : List String)
    → has_difference pending matched ≡ true
    → (k : String) × (contains k pending ≡ true) × (contains k matched ≡ false)
unfolding has_difference
has_difference-found [] matched h = let bad : false ≡ true = h in cc
has_difference-found (id ∷ pending) matched h = elim (Bool-cases (contains id matched)) [
  | inl b ↦
      let rest = has_difference-found pending matched (ground arith) in
      (rest.0, ground (arith, rest.1), rest.2)
  | inr b ↦ (id, ground (arith, eq_iff id id), b)
]

has_difference-finds :
    (k : String) (pending matched : List String)
    → contains k pending ≡ true
    → contains k matched ≡ false
    → has_difference pending matched ≡ true
unfolding has_difference
has_difference-finds k [] matched h g = h
has_difference-finds k (id ∷ pending) matched h g = elim (Bool-cases (str_eq id k)) [
  | inl b ↦ let same : id ≡ k = ground (arith, eq_iff id k) in ground arith
  | inr b ↦ let rest = has_difference-finds k pending matched (ground arith) g in ground arith
]

scan-found :
    (events : List Timed) (pending matched : List String)
    → scan_tool_uses events pending matched ≡ true
    → (k : String) × (((is_issued k events && not (str_eq k "")) || contains k pending) ≡ true)
      × (((is_answered k events && not (str_eq k "")) || contains k matched) ≡ false)
unfolding scan_tool_uses is_issued is_answered
scan-found [] pending matched h = has_difference-found pending matched h
scan-found (e ∷ events) pending matched h =
    let rest = scan-found events (pending_with e.event pending) (matched_with e.event matched) h in
    (
      rest.0,
      ground (arith, rest.1, contains-pending_with rest.0 e.event pending),
      ground (arith, rest.2, contains-matched_with rest.0 e.event matched),
    )

scan-finds :
    (k : String) (events : List Timed) (pending matched : List String)
    → ((is_issued k events && not (str_eq k "")) || contains k pending) ≡ true
    → ((is_answered k events && not (str_eq k "")) || contains k matched) ≡ false
    → scan_tool_uses events pending matched ≡ true
unfolding scan_tool_uses is_issued is_answered
scan-finds k [] pending matched h g = has_difference-finds k pending matched h g
scan-finds k (e ∷ events) pending matched h g =
    scan-finds k events (pending_with e.event pending) (matched_with e.event matched)
      (ground (arith, h, contains-pending_with k e.event pending))
      (ground (arith, g, contains-matched_with k e.event matched))

-- When the transcript is said to have an unmatched tool use, some id that is not empty was called in a
-- message and answered by no result, wherever in the transcript either stands.
pub has_unmatched_tool_use-found :
    (events : List Timed)
    → has_unmatched_tool_use events ≡ true
    → (k : String) × (is_issued k events ≡ true)
      × (is_answered k events ≡ false)
      × (str_eq k "" ≡ false)
unfolding has_unmatched_tool_use
has_unmatched_tool_use-found events h =
    let w = scan-found events [] [] h in
    (w.0, ground (arith, w.1), ground (arith, w.1, w.2), ground (arith, w.1))

-- An id that is not empty, that a message calls and that no result answers, makes a running chat show
-- that a tool runs, unless the end of the transcript is older than the process.
pub has_unmatched_tool_use-shown :
    (k : String) (events : List Timed) (started_at : Option ℕ)
    → is_issued k events ≡ true
    → is_answered k events ≡ false
    → str_eq k "" ≡ false
    → derive_activity_state true
        (has_unmatched_tool_use events)
        (last_event_type events)
        (last_event_timestamp events)
        started_at
      ≡ (if is_transcript_tail_stale (last_event_timestamp events) started_at
          then idle
          else tool_running)
unfolding has_unmatched_tool_use derive_activity_state
has_unmatched_tool_use-shown k events started_at h g n =
    let shown = scan-finds k events [] [] (ground arith) (ground arith) in ground (arith, shown)
