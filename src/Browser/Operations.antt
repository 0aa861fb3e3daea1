-- ===== src/Browser/Operations.antt =====
-- The other operations on a browser's ownership in libs/browser/src/browser/session.py: the run of an
-- agent, the lease check of a command, the sweeps, crash and close, and `run_action`. Each function is
-- one section under `_control_lock`, or one stretch of code with no suspension.
use forever_claude_template.Base.{
  ℕ, ◌-◌, String, Bool, true, false, not, ◌&&◌, ◌||◌, Option, none, some, List, [], ◌∷◌, ltb, ◌==◌,
  if◌then◌else◌, is_some,
}
use forever_claude_template.Browser.Control.{
  ControlOwner, human, running, crashed, Effect, control_message, crash_message, announce_crash,
  checkpoint, gone, LiveBrowser, is_human, is_crashed, is_running, emit, is_state, agent_tuple,
  write_control, evict, settle_queue,
}
use forever_claude_template.Browser.Ownership.{
  Acquire, Status, transition, enqueue_if, acquire, acquired, busy_human, busy_agent, starting,
  lost_control, done, parked,
}

-- `run_agent`: the section that registers the run's handle.
unfoldable pub register_run : String → ℕ → ℕ → LiveBrowser → LiveBrowser × Bool
register_run agent_id driver task s =
    if not (is_state s (agent_tuple (some agent_id))) then (s, false) else (
      record s {
        agent_task = some (record { task_id = task; is_done = false });
        driving_agent = some driver;
      },
      true,
    )

abbrev pub is_driver : Option ℕ → ℕ → Bool
is_driver none driver = false
is_driver (some d) driver = d == driver

-- `run_agent`: its `finally`.
unfoldable pub finish_run : ℕ → LiveBrowser → LiveBrowser
finish_run driver s =
    if is_driver s.driving_agent driver
    then record s { agent_task = none; driving_agent = none }
    else s

-- `run_action`: the compare-and-set before the browser is touched.
unfoldable pub check_lease : ℕ → String → Option String → Bool → LiveBrowser → LiveBrowser × Bool
unfolding enqueue_if
check_lease now agent_id agent_name enqueue_on_busy s =
    if not (is_state s (agent_tuple (some agent_id)))
    then (enqueue_if enqueue_on_busy agent_id agent_name s, false)
    else (record s { lease_touched_at = now; granted_at = 0 }, true)

-- What `_sweep_idle_lease` reads under the lock before it decides.
pub record LeaseSnapshot : Type 0 where
  pub controller : ControlOwner
  pub agent_running : Bool
  pub owner_agent_id : Option String
  pub lease_touched_at : ℕ

abbrev pub lease_snapshot : LiveBrowser → LeaseSnapshot
lease_snapshot s = record {
  controller = s.controller;
  agent_running = is_some s.agent_task;
  owner_agent_id = s.owner_agent_id;
  lease_touched_at = s.lease_touched_at;
}

-- `_sweep_idle_lease`, whose compare-and-set runs on a later state than its snapshot.
unfoldable pub sweep_idle_lease : ℕ → ℕ → LeaseSnapshot → LiveBrowser → LiveBrowser × Bool
unfolding transition
sweep_idle_lease idle_ttl now seen s =
    if not (is_human seen.controller)
      && not seen.agent_running
      && ltb idle_ttl (now - seen.lease_touched_at)
    then transition now 0
        (record {
          to = human;
          pinned = false;
          expect = some (agent_tuple seen.owner_agent_id);
          preempt = false;
        })
        s
    else (s, false)

-- `_sweep_unclaimed_grant`
unfoldable pub sweep_unclaimed_grant : ℕ → ℕ → LiveBrowser → LiveBrowser × Bool
sweep_unclaimed_grant claim_window now s =
    if not (is_human s.controller)
      && not (s.granted_at == 0)
      && not (is_some s.agent_task)
      && ltb s.lease_touched_at s.granted_at
      && ltb claim_window (now - s.granted_at)
    then (
      settle_queue now (write_control now human none none false (record s { granted_at = 0 })),
      true,
    )
    else (s, false)

-- `_on_disconnected`
unfoldable pub on_disconnected : LiveBrowser → LiveBrowser
on_disconnected s =
    if s.closed || is_crashed s.lifecycle
    then s
    else emit announce_crash (record s { lifecycle = crashed })

unfoldable pub message_gone : List (String × Option String) → List Effect → List Effect
message_gone [] effects = effects
message_gone ((agent_id, agent_name) ∷ rest) effects =
    message_gone rest (gone agent_id agent_name ∷ effects)

-- `_abandon_queues_locked`
unfoldable pub abandon_queues : LiveBrowser → LiveBrowser
unfolding evict message_gone
abandon_queues s = record s {
  wait_queue = [];
  outcomes = evict s.wait_queue s.outcomes;
  resume_queue = [];
  effects = message_gone s.resume_queue s.effects;
}

-- `_announce_crash`
unfoldable pub announce : LiveBrowser → LiveBrowser
unfolding abandon_queues
announce s = emit checkpoint (abandon_queues (emit crash_message s))

-- `close`: what comes before its section.
abbrev pub mark_closed : LiveBrowser → LiveBrowser
mark_closed s = record s { closed = true }

-- `close`, up to the point where it stops the run, where others do `meanwhile` before it has the lock.
unfoldable pub close : (LiveBrowser → LiveBrowser) → LiveBrowser → LiveBrowser
unfolding abandon_queues
close meanwhile s = abandon_queues (meanwhile (mark_closed s))

-- The end of `start`: not taken when the browser was closed or crashed meanwhile.
unfoldable pub finish_start : LiveBrowser → LiveBrowser
finish_start s =
    if s.closed || is_crashed s.lifecycle
    then s
    else emit control_message (record s { lifecycle = running })

-- What the browser-use action did: it returned, or raised with the connection up or down.
pub data Outcome : Type 0 where
  completed : Outcome
  raised : Bool → Outcome

-- The reply of `run_action`; `refused` carries whether the agent was queued to resume, `ok` whether
-- the command newly took the browser.
pub data Reply : Type 0 where
  ok : Bool → Reply
  failed unavailable died : Reply
  refused : Status → Bool → Reply

abbrev pub is_busy : Status → Bool
is_busy busy_human = true
is_busy busy_agent = true
is_busy _ = false

-- `run_action` under `_lock`, once the lease was checked.
unfoldable pub perform : Bool → Outcome → Bool → LiveBrowser → LiveBrowser × Reply
unfolding on_disconnected
perform has_context outcome newly s = if not has_context then (s, unavailable) else elim outcome [
  | completed ↦ (s, ok newly)
  | raised is_alive ↦ if is_alive then (s, failed) else (on_disconnected s, died)
]

-- `run_action` from its lease check on; others do `during` before the action has ended.
unfoldable pub claim :
    ℕ
    → String
    → Option String
    → Bool
    → Bool
    → Outcome
    → (LiveBrowser → LiveBrowser)
    → Bool
    → LiveBrowser
    → LiveBrowser × Reply
unfolding check_lease perform
claim now agent_id agent_name enqueue_on_busy has_context outcome during newly s =
    let (t, is_mine) = check_lease now agent_id agent_name enqueue_on_busy s in
    if is_mine
    then perform has_context outcome newly (during t)
    else (t, refused lost_control enqueue_on_busy)

-- `run_action` from the answer of its acquire on; others do `between` before the lease check.
unfoldable pub after_acquire :
    ℕ
    → String
    → Option String
    → Bool
    → Bool
    → Outcome
    → (LiveBrowser → LiveBrowser)
    → (LiveBrowser → LiveBrowser)
    → Bool
    → LiveBrowser × Acquire
    → LiveBrowser × Reply
unfolding claim
after_acquire later agent_id agent_name enqueue_on_busy has_context outcome between during newly
      (t, done acquired) =
    claim later agent_id agent_name enqueue_on_busy has_context outcome during newly (between t)
after_acquire later agent_id agent_name enqueue_on_busy has_context outcome between during newly
      (t, done status) =
    (t, refused status (enqueue_on_busy && is_busy status))
after_acquire later agent_id agent_name enqueue_on_busy has_context outcome between during newly
      (t, parked w) =
    (t, refused starting false)

-- `run_action`, which acquires at `now` and checks its lease at `later`; others do `between` from the
-- one to the other, and `during` from there to the end of the action.
unfoldable pub run_action :
    ℕ
    → ℕ
    → String
    → Option String
    → Bool
    → Bool
    → Outcome
    → (LiveBrowser → LiveBrowser)
    → (LiveBrowser → LiveBrowser)
    → LiveBrowser
    → LiveBrowser × Reply
run_action now later agent_id agent_name enqueue_on_busy has_context outcome between during s =
    if is_crashed s.lifecycle
    then (s, died)
    else if not (is_running s.lifecycle)
    then (s, refused starting false)
    else after_acquire later agent_id agent_name enqueue_on_busy has_context outcome between during
        (not (is_state s (agent_tuple (some agent_id))))
        (acquire now agent_id agent_name false false enqueue_on_busy s)
