-- ===== src/Interface/Examples.antt =====
-- Concrete clients, layouts, terminals and transcripts of apps/system_interface.
use forever_claude_template.Base.{
  String, ◌≡◌, refl, true, false, not, none, some, List, [], ◌∷◌, ◌++◌, map, arith, if◌then◌else◌,
  get, text_eq, nat_eq, code_eq,
}
use forever_claude_template.Interface.Broadcaster.{
  Broadcaster, empty, mem, broadcast_to_matching, count_of,
}
use forever_claude_template.Interface.Broadcaster.Rounds.{
  fate_in, content_after, count_after, is_given_up,
}
use forever_claude_template.Interface.Broadcaster.Delivery.{broadcast_to_matching-fate}
use forever_claude_template.Interface.Broadcaster.Registry.{
  connect, closed, sent, taken, stopped, run, WellFormed, run-empty-WellFormed,
}
use forever_claude_template.Interface.EventQueues
use forever_claude_template.Interface.EventQueues.{store, ignore, flush}
use forever_claude_template.Interface.EventQueues.Calls
use forever_claude_template.Interface.EventQueues.Calls.{Call, registers, broadcasts, replayed}
use forever_claude_template.Interface.EventQueues.{put_all}
use forever_claude_template.Base.{get, put, ◌++◌}
use forever_claude_template.Interface.EventQueues.Overlap.{
  Step, calls, puts, overlap, calls_of, pend_all,
}
use forever_claude_template.Interface.EventQueues.Delivered.{no_puts, overlap-replay}
use forever_claude_template.Interface.Mutex.{Holder, describe, try_acquire, take_slot}
use forever_claude_template.Interface.Mutex.Exclusion
use forever_claude_template.Interface.Mutex.Exclusion.{try_acquire-holds, tries, releases}
use forever_claude_template.Interface.Activity.{
  Timed, assistant_message, tool_result, user_message, has_unmatched_tool_use,
  derive_activity_state, last_event_type, last_event_timestamp, is_transcript_tail_stale, idle,
  tool_running, scan_tool_uses, with_ids, has_difference,
}
use forever_claude_template.Interface.Activity.Derived.{
  is_issued, is_answered, has_unmatched_tool_use-found, has_unmatched_tool_use-shown,
}

run-empty-WellFormed_example :
    WellFormed
      (run (connect ∷ connect ∷ sent none "hello" ∷ taken 1 ∷ closed 0 ∷ stopped ∷ []) empty)
run-empty-WellFormed_example =
    run-empty-WellFormed (connect ∷ connect ∷ sent none "hello" ∷ taken 1 ∷ closed 0 ∷ stopped ∷ [])

-- Two clients, of which the first reported its layout.
abbrev two_clients : Broadcaster
two_clients = record {
  client_queues = 0 ∷ 1 ∷ [];
  next_queue = 2;
  contents = λ q. [];
  consecutive_full = (0, 0) ∷ (1, 0) ∷ [];
  client_infos =
      (0, record { client_id = "c"; active_layout_slug = "desktop"; device_kind = "desktop" }) ∷ [];
}

broadcast_to_matching-fate_example :
    ((broadcast_to_matching (some "desktop") "hi" two_clients).contents 0
      ≡ content_after (fate_in (some "desktop") 0 two_clients) "hi" [])
    × (count_of (get (broadcast_to_matching (some "desktop") "hi" two_clients).consecutive_full 0)
        ≡ count_after
            (fate_in (some "desktop") 0 two_clients)
            (count_of (get two_clients.consecutive_full 0)))
    × (get (broadcast_to_matching (some "desktop") "hi" two_clients).client_infos 0 ≡ (
        if is_given_up (fate_in (some "desktop") 0 two_clients)
        then none
        else get two_clients.client_infos 0))
    × (mem 0 (broadcast_to_matching (some "desktop") "hi" two_clients).client_queues
        ≡ not (is_given_up (fate_in (some "desktop") 0 two_clients)))
unfolding mem
broadcast_to_matching-fate_example =
    broadcast_to_matching-fate (some "desktop") "hi" 0 two_clients (refl, (refl, tt)) refl

-- Bob has a queue when an event for Ann is stored; the put of another event to Ann's queue 1 is still due
-- when Cat subscribes.
abbrev first_steps : List Step
first_steps =
    calls (registers "bob") ∷ calls (broadcasts "ann" store "one") ∷ calls (registers "ann") ∷ []

abbrev later_steps : List Step
later_steps =
    calls (broadcasts "ann" ignore "two")
    ∷ puts 2
    ∷ calls (registers "cat")
    ∷ calls (broadcasts "ann" store "three")
    ∷ []

overlap-replay_example :
    (overlap (calls (registers "ann") ∷ later_steps) (overlap first_steps no_puts)).server.contents
        2
      ++ map some (
          (overlap (calls (registers "ann") ∷ later_steps) (overlap first_steps no_puts)).pending 2)
    ≡ map some (replayed "ann" (calls_of first_steps) [] ++ Calls.sent "ann" (calls_of later_steps))
unfolding EventQueues.register pend_all get put
overlap-replay_example = overlap-replay "ann" first_steps later_steps refl tt

-- One event was put in Ann's second queue and one is still due.
still_due :
    ((overlap (calls (registers "ann") ∷ later_steps) (overlap first_steps no_puts)).server.contents
        2
      ≡ some "one" ∷ some "two" ∷ [])
    × ((overlap (calls (registers "ann") ∷ later_steps) (overlap first_steps no_puts)).pending 2
        ≡ "three" ∷ [])
unfolding EventQueues.register pend_all get put put_all
still_due = (refl, refl)

abbrev ann_focus : Holder
ann_focus = record {
  agent_id = "ann";
  op = "focus";
  args = "";
  started_at_monotonic = 100;
  started_at_wall = 9;
}

abbrev bob_open : Holder
bob_open = record {
  agent_id = "bob";
  op = "open";
  args = "";
  started_at_monotonic = 300;
  started_at_wall = 10;
}

try_acquire-holds_example :
    try_acquire 500 bob_open (
      Exclusion.run 500
        (tries bob_open ∷ releases "bob" "open" ∷ [])
        (try_acquire 500 ann_focus none).0)
    ≡ (some ann_focus, some (describe ann_focus))
unfolding try_acquire take_slot
try_acquire-holds_example =
    try_acquire-holds 500 ann_focus bob_open none (tries bob_open ∷ releases "bob" "open" ∷ [])
      (omega arith) refl (omega arith, (refl, tt)) (omega arith)

abbrev transcript : List Timed
transcript =
    record { event = user_message; timestamp = some 1 }
    ∷ record { event = assistant_message ("t1" ∷ "t2" ∷ []); timestamp = some 2 }
    ∷ record { event = tool_result "t1"; timestamp = some 3 }
    ∷ []

has_unmatched_tool_use-found_example :
    (k : String) × (is_issued k transcript ≡ true)
    × (is_answered k transcript ≡ false)
    × (text_eq.beq k "" ≡ false)
unfolding has_unmatched_tool_use scan_tool_uses with_ids has_difference
has_unmatched_tool_use-found_example = has_unmatched_tool_use-found transcript refl

has_unmatched_tool_use-shown_example :
    derive_activity_state true
      (has_unmatched_tool_use transcript)
      (last_event_type transcript)
      (last_event_timestamp transcript)
      (some 0)
    ≡ (if is_transcript_tail_stale (last_event_timestamp transcript) (some 0)
        then idle
        else tool_running)
unfolding is_issued is_answered
has_unmatched_tool_use-shown_example =
    has_unmatched_tool_use-shown "t2" transcript (some 0) refl refl refl
