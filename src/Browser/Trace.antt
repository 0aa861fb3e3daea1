-- ===== src/Browser/Trace.antt =====
-- Histories of one browser: every locked section of libs/browser/src/browser/session.py is an event,
-- and an interleaving of coroutines is a list of events.
pub mod Handover
pub mod Invariant
pub mod Preemption
pub mod Requests
mod Examples
pub mod Resume
use forever_claude_template.Base.{ℕ, String, Bool, Option, List, [], ◌∷◌}
use forever_claude_template.Browser.Control.{LiveBrowser, Waiter}
use forever_claude_template.Browser.Operations.{
  LeaseSnapshot, check_lease, register_run, finish_run, sweep_idle_lease, sweep_unclaimed_grant,
  on_disconnected, announce, mark_closed, abandon_queues, finish_start,
}
use forever_claude_template.Browser.Ownership.{
  acquire, acquire_locked, give_up, release, take_control, return_to_agents, handoff,
}

-- The first argument of most events is the time.
pub data Event : Type 0 where
  acquires : ℕ → String → Option String → Bool → Bool → Bool → Event
  gives_up : ℕ → Waiter → Event
  releases : ℕ → String → Event
  takes_control : ℕ → ℕ → Event
  returns : ℕ → Event
  hands_off : ℕ → String → Option String → Event
  checks_lease : ℕ → String → Option String → Bool → Event
  registers_run : String → ℕ → ℕ → Event
  finishes_run : ℕ → Event
  sweeps_idle : ℕ → ℕ → LeaseSnapshot → Event
  sweeps_grant : ℕ → ℕ → Event
  disconnects announces closes abandons starts : Event

-- `acquires` is the locked section alone: the lifecycle may change after its test.
unfoldable pub step : Event → LiveBrowser → LiveBrowser
unfolding acquire_locked give_up release take_control return_to_agents handoff check_lease
    register_run finish_run sweep_idle_lease sweep_unclaimed_grant on_disconnected announce
    abandon_queues finish_start
step (acquires now a n reclaim wait enqueue) s = (acquire_locked now a n reclaim wait enqueue s).0
step (gives_up now w) s = give_up now w s
step (releases now a) s = (release now a s).0
step (takes_control now current) s = (take_control now current s).0
step (returns now) s = (return_to_agents now s).0
step (hands_off now a n) s = (handoff now a n s).0
step (checks_lease now a n enqueue) s = (check_lease now a n enqueue s).0
step (registers_run a driver task) s = (register_run a driver task s).0
step (finishes_run driver) s = finish_run driver s
step (sweeps_idle ttl now seen) s = (sweep_idle_lease ttl now seen s).0
step (sweeps_grant window now) s = (sweep_unclaimed_grant window now s).0
step disconnects s = on_disconnected s
step announces s = announce s
step closes s = mark_closed s
step abandons s = abandon_queues s
step starts s = finish_start s

unfoldable pub run : List Event → LiveBrowser → LiveBrowser
unfolding step
run [] s = s
run (e ∷ es) s = run es (step e s)
