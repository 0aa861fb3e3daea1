-- ===== src/Browser/Control.antt =====
-- The ownership state machine of one browser: `LiveBrowser` of libs/browser/src/browser/session.py.
-- A section under `_control_lock` never suspends, so it is one function on the state. Time is an
-- argument (a reading of `time.monotonic()`). A waiter is named by a token in place of its identity.
pub mod Queues
use forever_claude_template.Base.{
  ℕ, String, Bool, true, false, not, ◌&&◌, ◌||◌, Option, none, some, List, [], ◌∷◌, if◌then◌else◌,
  is_some_text, opt_eq, str_eq,
}

pub data ControlOwner : Type 0 where
  human agent : ControlOwner

pub data Lifecycle : Type 0 where
  init running crashed : Lifecycle

-- `_AcquireWaiter`; its `event` and `granted` are the entry of its token in `outcomes`.
pub record Waiter : Type 0 where
  pub token : ℕ
  pub agent_id : String
  pub agent_name : Option String

-- The asyncio task that runs a browser-use agent.
pub record AgentTask : Type 0 where
  pub task_id : ℕ
  pub is_done : Bool

-- What a section does besides changing its own fields.
pub data Effect : Type 0 where
  control_message crash_message handoff_request announce_crash checkpoint : Effect
  wake : String → Option String → Effect
  gone : String → Option String → Effect
  stop_agent cancel_task : ℕ → Effect

pub record LiveBrowser : Type 0 where
  pub controller : ControlOwner
  pub owner_agent_id : Option String
  pub owner_agent_name : Option String
  pub human_pinned : Bool
  pub input_enabled : Bool
  pub lifecycle : Lifecycle
  pub closed : Bool
  pub driving_agent : Option ℕ  -- `_agent`, by its identity
  pub agent_task : Option AgentTask
  pub wait_queue : List Waiter
  pub next_token : ℕ
  pub outcomes : List (ℕ × Bool)  -- the resolved waiters and whether each was granted, newest first
  pub resume_queue : List (String × Option String)
  pub lease_touched_at : ℕ
  pub granted_at : ℕ  -- 0 when no grant is pending
  pub next_reading : ℕ → ℕ  -- what a second reading of the clock in one section gives
  pub effects : List Effect  -- newest first

-- A new browser, whose clock may move between two readings of one section.
abbrev pub fresh : (ℕ → ℕ) → LiveBrowser
fresh next_reading = record {
  controller = human;
  owner_agent_id = none;
  owner_agent_name = none;
  human_pinned = false;
  input_enabled = true;
  lifecycle = init;
  closed = false;
  driving_agent = none;
  agent_task = none;
  wait_queue = [];
  next_token = 0;
  outcomes = [];
  resume_queue = [];
  lease_touched_at = 0;
  granted_at = 0;
  next_reading = next_reading;
  effects = [];
}

abbrev pub is_human : ControlOwner → Bool
is_human human = true
is_human agent = false

abbrev pub is_crashed : Lifecycle → Bool
is_crashed crashed = true
is_crashed _ = false

abbrev pub is_running : Lifecycle → Bool
is_running running = true
is_running _ = false

abbrev pub emit : Effect → LiveBrowser → LiveBrowser
emit e s = record s { effects = e ∷ s.effects }

-- `controller == "agent" and owner_agent_id == agent_id`
abbrev pub holds : LiveBrowser → String → Bool
holds s agent_id = not (is_human s.controller) && is_some_text s.owner_agent_id agent_id

abbrev pub human_pin_active : LiveBrowser → Bool
human_pin_active s = is_human s.controller && s.human_pinned

abbrev pub same_owner : ControlOwner → ControlOwner → Bool
same_owner human human = true
same_owner agent agent = true
same_owner _ _ = false

abbrev pub same_flag : Bool → Bool → Bool
same_flag true b = b
same_flag false b = not b

pub record StateTuple : Type 0 where
  pub owner : ControlOwner
  pub owner_id : Option String
  pub is_pinned : Bool

-- `_state_tuple() == expect`
abbrev pub is_state : LiveBrowser → StateTuple → Bool
is_state s t =
    same_owner s.controller t.owner
    && opt_eq s.owner_agent_id t.owner_id
    && same_flag s.human_pinned t.is_pinned

abbrev pub agent_tuple : Option String → StateTuple
agent_tuple agent_id = record { owner = agent; owner_id = agent_id; is_pinned = false }

abbrev pub pinned_tuple : StateTuple
pinned_tuple = record { owner = human; owner_id = none; is_pinned = true }

-- `_write_control_locked`
unfoldable pub write_control :
    ℕ → ControlOwner → Option String → Option String → Bool → LiveBrowser → LiveBrowser
write_control now to agent_id agent_name pinned s = emit control_message (record s {
  controller = to;
  owner_agent_id = agent_id;
  owner_agent_name = agent_name;
  human_pinned = pinned;
  input_enabled = is_human to;
  lease_touched_at = (if is_human to then s.lease_touched_at else now);
})

-- The resume queue holds each agent once.
unfoldable pub queued : String → List (String × Option String) → Bool
queued agent_id [] = false
queued agent_id ((aid, name) ∷ rest) = str_eq aid agent_id || queued agent_id rest

unfoldable pub without : String → List (String × Option String) → List (String × Option String)
without agent_id [] = []
without agent_id ((aid, name) ∷ rest) =
    let kept = without agent_id rest in if str_eq aid agent_id then kept else (aid, name) ∷ kept

unfoldable pub append_resume :
    List (String × Option String) → String → Option String → List (String × Option String)
append_resume [] agent_id agent_name = (agent_id, agent_name) ∷ []
append_resume (entry ∷ rest) agent_id agent_name = entry ∷ append_resume rest agent_id agent_name

-- `_enqueue_resume_locked`
unfoldable pub enqueue_resume : String → Option String → LiveBrowser → LiveBrowser
enqueue_resume agent_id agent_name s =
    if queued agent_id s.resume_queue
    then s
    else record s { resume_queue = append_resume s.resume_queue agent_id agent_name }

-- `_enqueue_resume_front_locked`
unfoldable pub enqueue_resume_front : String → Option String → LiveBrowser → LiveBrowser
enqueue_resume_front agent_id agent_name s = record s {
  resume_queue = (agent_id, agent_name) ∷ without agent_id s.resume_queue;
}

-- `_dequeue_resume_locked`
unfoldable pub dequeue_resume : String → LiveBrowser → LiveBrowser
dequeue_resume agent_id s = record s { resume_queue = without agent_id s.resume_queue }

-- Wakes every waiter of a queue ungranted.
unfoldable pub evict : List Waiter → List (ℕ × Bool) → List (ℕ × Bool)
evict [] outcomes = outcomes
evict (w ∷ ws) outcomes = evict ws ((w.token, false) ∷ outcomes)

abbrev pub resolve : ℕ → Bool → LiveBrowser → LiveBrowser
resolve token granted s = record s { outcomes = (token, granted) ∷ s.outcomes }

unfoldable pub hand_to_waiter : ℕ → Waiter → List Waiter → LiveBrowser → LiveBrowser
unfolding write_control dequeue_resume
hand_to_waiter now w ws s = resolve w.token true (
    write_control now agent (some w.agent_id) w.agent_name false
      (dequeue_resume w.agent_id (record s { wait_queue = ws })))

unfoldable pub hand_to_resumer :
    ℕ → String → Option String → List (String × Option String) → LiveBrowser → LiveBrowser
unfolding write_control
hand_to_resumer now agent_id agent_name rest s =
    emit (wake agent_id agent_name)
      (record (write_control now agent (some agent_id) agent_name false
        (record s { resume_queue = rest })) { granted_at = s.next_reading now })

-- The branches of `_settle_queue_locked`.
unfoldable pub settle :
    ControlOwner
    → Bool
    → List Waiter
    → List (String × Option String)
    → ℕ
    → LiveBrowser
    → LiveBrowser
unfolding hand_to_waiter hand_to_resumer evict
settle human true waiters resume now s = record s {
  wait_queue = [];
  outcomes = evict waiters s.outcomes;
}
settle agent pinned waiters resume now s = s
settle human false (w ∷ ws) resume now s = hand_to_waiter now w ws s
settle human false [] ((agent_id, agent_name) ∷ rest) now s =
    hand_to_resumer now agent_id agent_name rest s
settle human false [] [] now s = s

unfoldable pub settle_queue : ℕ → LiveBrowser → LiveBrowser
unfolding settle
settle_queue now s = settle s.controller s.human_pinned s.wait_queue s.resume_queue now s
