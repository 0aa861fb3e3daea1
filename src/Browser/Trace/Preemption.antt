-- ===== src/Browser/Trace/Preemption.antt =====
-- Who can take a browser from whom, in libs/browser/src/browser/session.py.
use forever_claude_template.Base.{
  ℕ, String, ◌≡◌, Bool, true, false, not, ◌&&◌, none, some, List, [], ◌∷◌, arith, eq_iff, str_eq,
  Option-cases, inl, inr,
}
use forever_claude_template.Browser.Control.{
  LiveBrowser, human, agent, running, holds, write_control, settle, settle_queue,
}
use forever_claude_template.Browser.Ownership.{
  transition, take_control, stop_displaced, cancel_displaced, enqueue_displaced,
}
use forever_claude_template.Browser.Trace.{
  Event, acquires, gives_up, releases, takes_control, returns, hands_off, checks_lease,
  registers_run, step, run,
}

-- An event that an agent other than the given one causes.
abbrev pub by_other : String → Event → Bool
by_other a (acquires now b n reclaim wait enqueue) = not (str_eq b a)
by_other a (gives_up now w) = not (str_eq w.agent_id a)
by_other a (releases now b) = not (str_eq b a)
by_other a (hands_off now b n) = not (str_eq b a)
by_other a (checks_lease now b n enqueue) = not (str_eq b a)
by_other a (registers_run b driver task) = not (str_eq b a)
by_other a _ = false

abbrev pub all_by_other : String → List Event → Bool
all_by_other a [] = true
all_by_other a (e ∷ es) = by_other a e && all_by_other a es

holds_owner :
    (s : LiveBrowser) (a : String)
    → holds s a ≡ true
    → (s.controller ≡ agent) × (s.owner_agent_id ≡ some a)
holds_owner s a h = elim (Option-cases s.owner_agent_id) [
  | inl e ↦ ground arith
  | inr (o, e) ↦ ground (arith, eq_iff o a)
]

step-holds_other :
    (a : String) (e : Event) (s : LiveBrowser)
    → by_other a e ≡ true
    → s.controller ≡ agent
    → s.owner_agent_id ≡ some a
    → ((step e s).controller ≡ agent) × ((step e s).owner_agent_id ≡ some a)
unfolding step
step-holds_other a (acquires now b n reclaim wait enqueue) s o c w =
    ground (arith, eq_iff a b, eq_iff b a)
step-holds_other a (gives_up now v) s o c w =
    ground (arith, eq_iff a v.agent_id, eq_iff v.agent_id a)
step-holds_other a (releases now b) s o c w = ground (arith, eq_iff a b, eq_iff b a)
step-holds_other a (hands_off now b n) s o c w = ground (arith, eq_iff a b, eq_iff b a)
step-holds_other a _ s o c w = ground arith

-- While an agent holds a browser, whatever the other agents do (acquire, even with reclaim, release,
-- hand off, send commands, start a run or give up waiting) in whatever order, it still holds it.
pub run-holds_other :
    (a : String) (es : List Event) (s : LiveBrowser)
    → all_by_other a es ≡ true
    → s.controller ≡ agent
    → s.owner_agent_id ≡ some a
    → ((run es s).controller ≡ agent) × ((run es s).owner_agent_id ≡ some a)
unfolding run
run-holds_other a [] s o c w = (c, w)
run-holds_other a (e ∷ es) s o c w =
    let (c', w') = step-holds_other a e s (ground arith) c w in
    run-holds_other a es (step e s) (ground arith) c' w'

-- The events that may end a human's pin.
abbrev pub may_unpin : Event → Bool
may_unpin (returns now) = true
may_unpin (acquires now a n reclaim wait enqueue) = reclaim
may_unpin _ = false

abbrev pub none_unpins : List Event → Bool
none_unpins [] = true
none_unpins (e ∷ es) = not (may_unpin e) && none_unpins es

abbrev pub IsPinned : LiveBrowser → Type 0
IsPinned s = (s.controller ≡ human) × (s.human_pinned ≡ true)

-- A human who takes control gets the browser pinned, whoever held it, and no agent owns it.
pub take_control-IsPinned :
    (now current : ℕ) (s : LiveBrowser)
    → s.lifecycle ≡ running
    → IsPinned (take_control now current s).0
      × ((take_control now current s).0.owner_agent_id ≡ none)
      × ((take_control now current s).0.input_enabled ≡ true)
      × ((take_control now current s).0.wait_queue ≡ [])
unfolding take_control transition write_control settle_queue settle enqueue_displaced stop_displaced
    cancel_displaced
take_control-IsPinned now current s r = ground arith

step-IsPinned :
    (e : Event) (s : LiveBrowser) → may_unpin e ≡ false → IsPinned s → IsPinned (step e s)
unfolding step
step-IsPinned (takes_control now current) s h p =
    ground (arith, take_control-IsPinned now current s)
step-IsPinned _ s h p = ground arith

-- A human's pin holds through any history without the human handing back and without an acquire
-- with reclaim: not through any other command, time out, sweep, crash or close.
pub run-IsPinned :
    (es : List Event) (s : LiveBrowser) → none_unpins es ≡ true → IsPinned s → IsPinned (run es s)
unfolding run
run-IsPinned [] s h p = p
run-IsPinned (e ∷ es) s h p =
    run-IsPinned es (step e s) (ground arith) (step-IsPinned e s (ground arith) p)
