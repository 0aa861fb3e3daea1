-- ===== src/Browser/Ownership.antt =====
-- Who owns a browser: `_transition` and its callers, and `acquire`, of
-- libs/browser/src/browser/session.py. Each function is one section under `_control_lock`.
use forever_claude_template.Base.{
  ℕ, suc, String, Bool, true, false, not, ◌&&◌, ◌||◌, Option, none, some, List, [], ◌∷◌, ◌==◌,
  if◌then◌else◌,
}
use forever_claude_template.Browser.Control.{
  ControlOwner, human, agent, Waiter, AgentTask, control_message, handoff_request, stop_agent,
  cancel_task, LiveBrowser, is_human, is_crashed, is_running, emit, holds, human_pin_active,
  StateTuple, is_state, agent_tuple, pinned_tuple, write_control, enqueue_resume,
  enqueue_resume_front, dequeue_resume, settle_queue,
}

pub data Status : Type 0 where
  acquired busy_human busy_agent timed_out starting gone_crashed gone_closed lost_control : Status

-- The arguments of `_transition`.
pub record Transition : Type 0 where
  pub to : ControlOwner
  pub pinned : Bool
  pub expect : Option StateTuple
  pub preempt : Bool

abbrev pub is_expected : Option StateTuple → LiveBrowser → Bool
is_expected none s = true
is_expected (some t) s = is_state s t

-- Queues the agent that a human displaces.
unfoldable pub enqueue_displaced : ControlOwner → Option String → LiveBrowser → LiveBrowser
unfolding enqueue_resume_front
enqueue_displaced agent (some owner) s = enqueue_resume_front owner s.owner_agent_name s
enqueue_displaced _ _ s = s

unfoldable pub stop_displaced : Option ℕ → LiveBrowser → LiveBrowser
stop_displaced none s = s
stop_displaced (some a) s = emit (stop_agent a) s

-- A run is cancelled unless it is the caller's own task or has ended.
unfoldable pub cancel_displaced : ℕ → Option AgentTask → LiveBrowser → LiveBrowser
cancel_displaced current none s = s
cancel_displaced current (some t) s =
    if not (t.task_id == current) && not t.is_done then emit (cancel_task t.task_id) s else s

unfoldable pub transition : ℕ → ℕ → Transition → LiveBrowser → LiveBrowser × Bool
transition now current t s =
    if is_expected t.expect s
    then (let displaced =
          (if t.preempt then enqueue_displaced s.controller s.owner_agent_id s else s) in
        let settled = settle_queue now (write_control now t.to none none t.pinned displaced) in
        (
          if t.preempt
              then cancel_displaced current s.agent_task (stop_displaced s.driving_agent settled)
              else settled,
          true,
        ))
    else (s, false)

unfoldable pub release : ℕ → String → LiveBrowser → LiveBrowser × Bool
unfolding transition
release now agent_id s =
    transition now 0
      (record {
        to = human;
        pinned = false;
        expect = some (agent_tuple (some agent_id));
        preempt = false;
      })
      s

unfoldable pub take_control : ℕ → ℕ → LiveBrowser → LiveBrowser × Bool
unfolding transition
take_control now current s =
    if not (is_running s.lifecycle)
    then (s, false)
    else transition now current
        (record { to = human; pinned = true; expect = none; preempt = true }) s

unfoldable pub return_to_agents : ℕ → LiveBrowser → LiveBrowser × Bool
unfolding transition
return_to_agents now s =
    transition now 0
      (record { to = human; pinned = false; expect = some pinned_tuple; preempt = false }) s

unfoldable pub handoff : ℕ → String → Option String → LiveBrowser → LiveBrowser × Bool
unfolding enqueue_resume_front
handoff now agent_id agent_name s = if not (holds s agent_id) then (s, false) else (
  emit handoff_request (
      settle_queue now
        (write_control now human none none true (enqueue_resume_front agent_id agent_name s))),
  true,
)

-- `if enqueue_on_busy: ...`
unfoldable pub enqueue_if : Bool → String → Option String → LiveBrowser → LiveBrowser
unfolding enqueue_resume
enqueue_if false agent_id agent_name s = s
enqueue_if true agent_id agent_name s = emit control_message (enqueue_resume agent_id agent_name s)

-- `acquire` answers at once, or parks a waiter.
pub data Acquire : Type 0 where
  done : Status → Acquire
  parked : Waiter → Acquire

unfoldable pub append_waiter : List Waiter → Waiter → List Waiter
append_waiter [] w = w ∷ []
append_waiter (v ∷ vs) w = v ∷ append_waiter vs w

unfoldable pub park : String → Option String → LiveBrowser → LiveBrowser × Acquire
unfolding append_waiter
park agent_id agent_name s =
    let w : Waiter = record {
      token = s.next_token;
      agent_id = agent_id;
      agent_name = agent_name;
    } in
    (
      record s { wait_queue = append_waiter s.wait_queue w; next_token = suc s.next_token },
      parked w,
    )

-- The first section of `acquire` under the lock.
unfoldable pub acquire_locked :
    ℕ → String → Option String → Bool → Bool → Bool → LiveBrowser → LiveBrowser × Acquire
unfolding dequeue_resume enqueue_if write_control park
acquire_locked now agent_id agent_name reclaim wait enqueue_on_busy s =
    if holds s agent_id
    then (dequeue_resume agent_id (record s { owner_agent_name = agent_name }), done acquired)
    else if not reclaim && human_pin_active s
    then (enqueue_if enqueue_on_busy agent_id agent_name s, done busy_human)
    else if is_human s.controller
    then (
      write_control now agent (some agent_id) agent_name false (dequeue_resume agent_id s),
      done acquired,
    )
    else if not wait
    then (enqueue_if enqueue_on_busy agent_id agent_name s, done busy_agent)
    else park agent_id agent_name s

-- `acquire` up to the point where it waits.
unfoldable pub acquire :
    ℕ → String → Option String → Bool → Bool → Bool → LiveBrowser → LiveBrowser × Acquire
unfolding acquire_locked
acquire now agent_id agent_name reclaim wait enqueue_on_busy s =
    if is_crashed s.lifecycle
    then (s, done gone_crashed)
    else if not (is_running s.lifecycle)
    then (s, done starting)
    else acquire_locked now agent_id agent_name reclaim wait enqueue_on_busy s

unfoldable pub is_parked : ℕ → List Waiter → Bool
is_parked token [] = false
is_parked token (w ∷ ws) = w.token == token || is_parked token ws

-- `list.remove`: the first match goes.
unfoldable pub unpark : ℕ → List Waiter → List Waiter
unpark token [] = []
unpark token (w ∷ ws) = if w.token == token then ws else w ∷ unpark token ws

-- `waiter.granted`, which is False until the waiter is resolved.
unfoldable pub was_granted : ℕ → List (ℕ × Bool) → Bool
was_granted token [] = false
was_granted token ((t, granted) ∷ rest) = if t == token then granted else was_granted token rest

-- The handler in `acquire` for a timeout or a cancellation.
unfoldable pub give_up : ℕ → Waiter → LiveBrowser → LiveBrowser
unfolding is_parked unpark was_granted
give_up now w s =
    if is_parked w.token s.wait_queue
    then record s { wait_queue = unpark w.token s.wait_queue }
    else if was_granted w.token s.outcomes && holds s w.agent_id
    then settle_queue now (write_control now human none none false s)
    else s

-- The end of `acquire`, after its waiter's event was set.
unfoldable pub woken_status : Waiter → LiveBrowser → Status
unfolding was_granted
woken_status w s =
    if is_crashed s.lifecycle
    then gone_crashed
    else if s.closed
    then gone_closed
    else if was_granted w.token s.outcomes
    then acquired
    else busy_human
