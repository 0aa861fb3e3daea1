-- ===== src/Browser/Trace/Invariant.antt =====
-- What holds of a browser's ownership fields after any history.
use forever_claude_template.Base.{
  ℕ, String, ◌≡◌, refl, Bool, true, false, Option, none, some, List, [], ◌∷◌, arith, eq_iff,
  is_some, is_some_text, Option-cases, inl, inr,
}
use forever_claude_template.Browser.Control.{
  ControlOwner, human, agent, Waiter, AgentTask, StateTuple, agent_tuple, pinned_tuple, LiveBrowser,
  fresh, is_human, queued, without, write_control, settle, settle_queue, enqueue_resume_front,
}
use forever_claude_template.Browser.Control.Queues.{
  Distinct, owner_queued, queued-without, queued-append_resume, without-Distinct,
  append_resume-Distinct,
}
use forever_claude_template.Browser.Ownership.{
  transition, enqueue_displaced, stop_displaced, cancel_displaced, enqueue_if, acquire_locked,
  give_up, handoff,
}
use forever_claude_template.Browser.Operations.{check_lease, sweep_unclaimed_grant}
use forever_claude_template.Browser.Trace.{
  Event, acquires, gives_up, releases, takes_control, returns, hands_off, checks_lease, sweeps_idle,
  sweeps_grant, step, run,
}

pub record Inv (s : LiveBrowser) : Type 0 where
  -- the input gate agrees with the controller
  pub gate : s.input_enabled ≡ is_human s.controller
  pub human_unowned : s.controller ≡ human → s.owner_agent_id ≡ none
  pub agent_owned : s.controller ≡ agent → is_some s.owner_agent_id ≡ true
  pub agent_unpinned : s.controller ≡ agent → s.human_pinned ≡ false
  -- nobody is parked on a browser that no agent holds
  pub human_no_waiters : s.controller ≡ human → s.wait_queue ≡ []
  -- the owner does not wait for its own browser
  pub owner_not_queued : owner_queued s.owner_agent_id s.resume_queue ≡ false
  pub distinct : Distinct s.resume_queue

pub fresh-Inv : (next_reading : ℕ → ℕ) → Inv (fresh next_reading)
fresh-Inv next_reading = ground arith

-- Whoever held the browser: once it is the human's and the queues are settled, the invariant holds.
settle-Inv :
    (pinned : Bool) (ws : List Waiter) (q : List (String × Option String)) (now : ℕ)
    (s : LiveBrowser)
    → s.controller ≡ human
    → s.owner_agent_id ≡ none
    → s.human_pinned ≡ pinned
    → s.input_enabled ≡ true
    → s.wait_queue ≡ ws
    → s.resume_queue ≡ q
    → Distinct q
    → Inv (settle human pinned ws q now s)
unfolding settle
settle-Inv true ws q now s c o p i w r d = ground arith
settle-Inv false (w ∷ ws) q now s c o p i e r d = ground (
  arith,
  without-Distinct w.agent_id q,
  queued-without w.agent_id w.agent_id q,
  eq_iff w.agent_id w.agent_id,
)
settle-Inv false [] ((a, n) ∷ q) now s c o p i e r d = ground arith
settle-Inv false [] [] now s c o p i e r d = ground arith

free-Inv :
    (now : ℕ) (pinned : Bool) (s : LiveBrowser)
    → Distinct s.resume_queue
    → Inv (settle_queue now (write_control now human none none pinned s))
unfolding settle_queue write_control
free-Inv now pinned s d =
    settle-Inv pinned s.wait_queue s.resume_queue now (write_control now human none none pinned s)
      refl refl refl refl refl refl d

displaced-Distinct :
    (c : ControlOwner) (o : Option String) (s : LiveBrowser)
    → Distinct s.resume_queue
    → Distinct (enqueue_displaced c o s).resume_queue
unfolding enqueue_displaced
displaced-Distinct agent (some a) s d =
    ground (arith, without-Distinct a s.resume_queue, queued-without a a s.resume_queue, eq_iff a a)
displaced-Distinct human o s d = d
displaced-Distinct agent none s d = d

stop_displaced-Inv : (o : Option ℕ) (s : LiveBrowser) → Inv s → Inv (stop_displaced o s)
unfolding stop_displaced
stop_displaced-Inv none s v = v
stop_displaced-Inv (some a) s v = ground arith

cancel_displaced-Inv :
    (current : ℕ) (o : Option AgentTask) (s : LiveBrowser)
    → Inv s
    → Inv (cancel_displaced current o s)
unfolding cancel_displaced
cancel_displaced-Inv current none s v = v
cancel_displaced-Inv current (some t) s v = ground arith

freed-Inv :
    (now current : ℕ) (pinned preempt : Bool) (expect : Option StateTuple) (s : LiveBrowser)
    → Inv s
    → Inv
        (transition now current
          (record { to = human; pinned = pinned; expect = expect; preempt = preempt })
          s).0
unfolding transition
freed-Inv now current pinned true expect s v =
    let d = displaced-Distinct s.controller s.owner_agent_id s v.distinct in
    let free = free-Inv now pinned (enqueue_displaced s.controller s.owner_agent_id s) d in
    let stopped = stop_displaced-Inv s.driving_agent _ free in
    ground (arith, cancel_displaced-Inv current s.agent_task _ stopped)
freed-Inv now current pinned false expect s v = ground (arith, free-Inv now pinned s v.distinct)

handoff-Inv :
    (now : ℕ) (a : String) (n : Option String) (s : LiveBrowser) → Inv s → Inv (handoff now a n s).0
unfolding handoff
handoff-Inv now a n s v = ground (
  arith,
  free-Inv now true (enqueue_resume_front a n s),
  without-Distinct a s.resume_queue,
  queued-without a a s.resume_queue,
  eq_iff a a,
)

enqueue_if-Inv :
    (b : Bool) (a : String) (n : Option String) (s : LiveBrowser)
    → is_some_text s.owner_agent_id a ≡ false
    → Inv s
    → Inv (enqueue_if b a n s)
unfolding enqueue_if
enqueue_if-Inv false a n s h v = v
enqueue_if-Inv true a n s h v = elim (Option-cases s.owner_agent_id) [
  | inl e ↦ ground (arith, append_resume-Distinct a n s.resume_queue)
  | inr (o, e) ↦ ground (
    arith,
    append_resume-Distinct a n s.resume_queue,
    queued-append_resume o a n s.resume_queue,
    eq_iff o a,
    eq_iff a o,
  )
]

owner-unqueued :
    (o : Option String) (a : String) (q : List (String × Option String))
    → is_some_text o a ≡ true
    → owner_queued o (without a q) ≡ false
owner-unqueued none a q h = refl
owner-unqueued (some b) a q h = ground (arith, queued-without b a q, eq_iff b a, eq_iff a b)

owner_queued-nil : (o : Option String) → owner_queued o [] ≡ false
unfolding queued
owner_queued-nil none = refl
owner_queued-nil (some b) = refl

acquire_locked-Inv :
    (now : ℕ) (a : String) (n : Option String) (reclaim wait enqueue : Bool) (s : LiveBrowser)
    → Inv s
    → Inv (acquire_locked now a n reclaim wait enqueue s).0
unfolding acquire_locked
acquire_locked-Inv now a n reclaim wait enqueue s v = ground (
  arith,
  enqueue_if-Inv enqueue a n s,
  without-Distinct a s.resume_queue,
  queued-without a a s.resume_queue,
  eq_iff a a,
  owner-unqueued s.owner_agent_id a s.resume_queue,
)

give_up-Inv : (now : ℕ) (w : Waiter) (s : LiveBrowser) → Inv s → Inv (give_up now w s)
unfolding give_up
give_up-Inv now w s v = ground (arith, free-Inv now false s v.distinct)

check_lease-Inv :
    (now : ℕ) (a : String) (n : Option String) (enqueue : Bool) (s : LiveBrowser)
    → Inv s
    → Inv (check_lease now a n enqueue s).0
unfolding check_lease
check_lease-Inv now a n enqueue s v = ground (arith, enqueue_if-Inv enqueue a n s)

sweep_unclaimed_grant-Inv :
    (window now : ℕ) (s : LiveBrowser) → Inv s → Inv (sweep_unclaimed_grant window now s).0
unfolding sweep_unclaimed_grant
sweep_unclaimed_grant-Inv window now s v =
    ground (arith, free-Inv now false (record s { granted_at = 0 }) v.distinct)

-- Every event keeps the invariant.
pub step-Inv : (e : Event) (s : LiveBrowser) → Inv s → Inv (step e s)
unfolding step
step-Inv (acquires now a n reclaim wait enqueue) s v =
    acquire_locked-Inv now a n reclaim wait enqueue s v
step-Inv (gives_up now w) s v = give_up-Inv now w s v
step-Inv (releases now a) s v = freed-Inv now 0 false false (some (agent_tuple (some a))) s v
step-Inv (takes_control now current) s v = ground (arith, freed-Inv now current true true none s v)
step-Inv (returns now) s v = freed-Inv now 0 false false (some pinned_tuple) s v
step-Inv (hands_off now a n) s v = handoff-Inv now a n s v
step-Inv (checks_lease now a n enqueue) s v = check_lease-Inv now a n enqueue s v
step-Inv (sweeps_idle ttl now seen) s v =
    ground (arith, freed-Inv now 0 false false (some (agent_tuple seen.owner_agent_id)) s v)
step-Inv (sweeps_grant window now) s v = sweep_unclaimed_grant-Inv window now s v
step-Inv _ s v = ground (arith, owner_queued-nil s.owner_agent_id)

run-Inv : (es : List Event) (s : LiveBrowser) → Inv s → Inv (run es s)
unfolding run
run-Inv [] s v = v
run-Inv (e ∷ es) s v = run-Inv es (step e s) (step-Inv e s v)

-- After any history of a new browser, the input gate agrees with the controller, a browser in human
-- hands has no owner and no parked waiter, one in agent hands has an owner and is not pinned, its
-- owner is not in its resume queue, and no agent is in that queue twice.
pub run-fresh-Inv : (next_reading : ℕ → ℕ) (es : List Event) → Inv (run es (fresh next_reading))
run-fresh-Inv next_reading es = run-Inv es (fresh next_reading) (fresh-Inv next_reading)
