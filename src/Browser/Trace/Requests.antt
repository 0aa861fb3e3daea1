-- ===== src/Browser/Trace/Requests.antt =====
-- The answers that an agent's acquire and commands get, in libs/browser/src/browser/session.py.
use forever_claude_template.Base.{
  ℕ, String, ◌≡◌, refl, ◌∙◌, sym, ap, ◌&&◌, List, Bool, true, false, not, Option, none, some, arith,
  eq_iff, eq_refl, Option-cases, inl, inr, if◌then◌else◌, str_eq,
}
use forever_claude_template.Browser.Control.{
  LiveBrowser, ControlOwner, human, agent, running, queued, is_state, agent_tuple,
}
use forever_claude_template.Browser.Control.Queues.{queued-append_resume}
use forever_claude_template.Browser.Ownership.{
  Acquire, done, parked, Status, acquired, busy_human, busy_agent, acquire, enqueue_if, park,
}
use forever_claude_template.Browser.Operations.{
  Outcome, ok, refused, claim, after_acquire, run_action,
}
use forever_claude_template.Browser.Trace.{Event, run}
use forever_claude_template.Browser.Trace.Invariant.{Inv}
use forever_claude_template.Browser.Trace.Preemption.{all_by_other, run-holds_other}

-- Who holds a browser, as its clients see it.
pub data View : Type 0 where
  free pinned : View
  held : String → View

abbrev pub viewed : ControlOwner → Bool → Option String → View
viewed human true o = pinned
viewed human false o = free
viewed agent b none = free
viewed agent b (some a) = held a

abbrev pub view : LiveBrowser → View
view s = viewed s.controller s.human_pinned s.owner_agent_id

pub data Verdict : Type 0 where
  granted parks : Verdict
  answered : Status → Verdict

-- What an acquire gets, from who holds the browser alone: reclaim overrides a pin and nothing else.
abbrev pub verdict : View → String → Bool → Bool → Verdict
verdict free a reclaim wait = granted
verdict pinned a reclaim wait = if reclaim then granted else answered busy_human
verdict (held b) a reclaim wait =
    if str_eq b a then granted else if wait then parks else answered busy_agent

abbrev pub verdict_of : Acquire → Verdict
verdict_of (done acquired) = granted
verdict_of (done status) = answered status
verdict_of (parked w) = parks

-- Only a granted acquire changes who holds the browser.
abbrev pub view_after : Verdict → String → View → View
view_after granted a v = held a
view_after _ a v = v

-- On a running browser, in a state that meets the invariant, an acquire is granted, refused or parked
-- as `verdict` says from who holds the browser alone, and the holder then is the agent when it is
-- granted and the same as before otherwise.
pub acquire-verdict :
    (now : ℕ) (a : String) (n : Option String) (reclaim wait enqueue : Bool) (s : LiveBrowser)
    → Inv s
    → s.lifecycle ≡ running
    → let (t, r) = acquire now a n reclaim wait enqueue s in
      (verdict_of r ≡ verdict (view s) a reclaim wait)
      × (view t ≡ view_after (verdict (view s) a reclaim wait) a (view s))
unfolding acquire enqueue_if park
acquire-verdict now a n reclaim wait enqueue s v r = elim (Option-cases s.owner_agent_id) [
  | inl e ↦ ground arith
  | inr (o, e) ↦ ground (arith, eq_iff o a)
]

claim_ok :
    (later : ℕ) (a : String) (n : Option String) (enqueue has_context : Bool) (outcome : Outcome)
    (during : LiveBrowser → LiveBrowser) (old : Bool) (s : LiveBrowser) {newly : Bool}
    → (claim later a n enqueue has_context outcome during old s).1 ≡ ok newly
    → (is_state s (agent_tuple (some a)) ≡ true)
      × ((claim later a n enqueue has_context outcome during old s).0
          ≡ during (record s { lease_touched_at = later; granted_at = 0 }))
      × (newly ≡ old)
unfolding claim
claim_ok later a n enqueue has_context outcome during old s h = ground (arith, h)

claim-queued :
    (later : ℕ) (a : String) (n : Option String) (enqueue has_context : Bool) (outcome : Outcome)
    (during : LiveBrowser → LiveBrowser) (old : Bool) (s : LiveBrowser) {status : Status}
    → (claim later a n enqueue has_context outcome during old s).1 ≡ refused status true
    → queued a (claim later a n enqueue has_context outcome during old s).0.resume_queue ≡ true
unfolding claim enqueue_if
claim-queued later a n enqueue has_context outcome during old s h =
    ground (arith, h, queued-append_resume a a n s.resume_queue, eq_refl a)

state_owner :
    (s : LiveBrowser) (a : String)
    → is_state s (agent_tuple (some a)) ≡ true
    → (s.controller ≡ agent) × (s.owner_agent_id ≡ some a)
state_owner s a h = elim (Option-cases s.owner_agent_id) [
  | inl e ↦ ground arith
  | inr (o, e) ↦ ground (arith, eq_iff o a)
]

after_acquire_ok :
    (later : ℕ) (a : String) (n : Option String) (enqueue has_context : Bool) (outcome : Outcome)
    (between during : List Event) (old : Bool) (r : LiveBrowser × Acquire) {newly : Bool}
    → all_by_other a during ≡ true
    → (after_acquire later a n enqueue has_context outcome (run between) (run during) old r).1
      ≡ ok newly
    → (view (after_acquire later a n enqueue has_context outcome (run between) (run during) old r).0
        ≡ held a)
      × (newly ≡ old)
unfolding after_acquire
after_acquire_ok later a n enqueue has_context outcome between during old (t, done acquired) o h =
    let u = run between t in
    let c = claim_ok later a n enqueue has_context outcome (run during) old u h in
    let own = state_owner u a c.0 in
    let kept =
      run-holds_other a during (record u { lease_touched_at = later; granted_at = 0 }) o own.0
        own.1 in
    (rw c.1 (rw (kept.0, kept.1) refl), c.2)
after_acquire_ok later a n enqueue has_context outcome between during old (t, done status) o h =
    let bad : false ≡ true = ground (arith, h) in cc
after_acquire_ok later a n enqueue has_context outcome between during old (t, parked w) o h =
    let bad : false ≡ true = ground (arith, h) in cc

-- Whether an answer of acquire is one after which a command's agent is queued.
abbrev is_queued_reply : Acquire → Bool
is_queued_reply (done busy_human) = true
is_queued_reply (done busy_agent) = true
is_queued_reply _ = false

-- Where a command is answered `ok`, whatever came between its acquire and its lease check, and the
-- events while its action ran are other agents' (no take-over by a human, no sweep, crash or close),
-- the agent holds the browser at the reply, and the reply tells whether it newly took the browser.
pub run_action_ok :
    (now later : ℕ) (a : String) (n : Option String) (enqueue has_context : Bool)
    (outcome : Outcome) (between during : List Event) (s : LiveBrowser) {newly : Bool}
    → all_by_other a during ≡ true
    → (run_action now later a n enqueue has_context outcome (run between) (run during) s).1
      ≡ ok newly
    → (view (run_action now later a n enqueue has_context outcome (run between) (run during) s).0
        ≡ held a)
      × (newly ≡ not (is_state s (agent_tuple (some a))))
unfolding run_action
run_action_ok now later a n enqueue has_context outcome between during s {newly} o h =
    let mine = not (is_state s (agent_tuple (some a))) in
    let acquire_reply = acquire now a n false false enqueue s in
    let reached : (run_action now later a n enqueue has_context outcome (run between) (run during) s
        ≡ after_acquire later a n enqueue has_context outcome (run between) (run during) mine
            acquire_reply) =
      ground (arith, h) in
    let c =
      after_acquire_ok later a n enqueue has_context outcome between during mine acquire_reply o
        (sym (ap (λ r. r.1) reached) ∙ h) in
    (rw reached c.0, c.1)

after_acquire-queued :
    (later : ℕ) (a : String) (n : Option String) (enqueue has_context : Bool) (outcome : Outcome)
    (between during : LiveBrowser → LiveBrowser) (old : Bool) (r : LiveBrowser × Acquire)
    {status : Status}
    → ((enqueue && is_queued_reply r.1) ≡ true → queued a r.0.resume_queue ≡ true)
    → (after_acquire later a n enqueue has_context outcome between during old r).1
      ≡ refused status true
    → queued a
        (after_acquire later a n enqueue has_context outcome between during old r).0.resume_queue
      ≡ true
unfolding after_acquire
after_acquire-queued later a n enqueue has_context outcome between during old (t, done acquired) q
      h =
    claim-queued later a n enqueue has_context outcome during old (between t) h
after_acquire-queued later a n enqueue has_context outcome between during old (t, parked w) q h =
    let bad : false ≡ true = ground (arith, h) in cc
after_acquire-queued later a n enqueue has_context outcome between during old (t, done busy_human) q
      h =
    q (ground (arith, h))
after_acquire-queued later a n enqueue has_context outcome between during old (t, done busy_agent) q
      h =
    q (ground (arith, h))
after_acquire-queued later a n enqueue has_context outcome between during old (t, done status) q h =
    let bad : false ≡ true = ground (arith, h) in cc

acquire-queued :
    (now : ℕ) (a : String) (n : Option String) (enqueue : Bool) (s : LiveBrowser)
    → Inv s
    → (enqueue && is_queued_reply (acquire now a n false false enqueue s).1) ≡ true
    → queued a (acquire now a n false false enqueue s).0.resume_queue ≡ true
unfolding acquire enqueue_if park
acquire-queued now a n enqueue s v h = elim (Option-cases s.owner_agent_id) [
  | inl e ↦ ground (arith, h, queued-append_resume a a n s.resume_queue, eq_refl a)
  | inr (o, e) ↦ ground (arith, h, queued-append_resume a a n s.resume_queue, eq_refl a, eq_iff o a)
]

-- Where a command is refused with the promise of a message, in a state that meets the invariant,
-- the agent then is in the resume queue, whatever others do meanwhile.
pub run_action-queued :
    (now later : ℕ) (a : String) (n : Option String) (enqueue has_context : Bool)
    (outcome : Outcome) (between during : LiveBrowser → LiveBrowser) (s : LiveBrowser)
    {status : Status}
    → Inv s
    → (run_action now later a n enqueue has_context outcome between during s).1
      ≡ refused status true
    → queued a
        (run_action now later a n enqueue has_context outcome between during s).0.resume_queue
      ≡ true
unfolding run_action
run_action-queued now later a n enqueue has_context outcome between during s {status} v h =
    let mine = not (is_state s (agent_tuple (some a))) in
    let acquire_reply = acquire now a n false false enqueue s in
    let reached : (run_action now later a n enqueue has_context outcome between during s
        ≡ after_acquire later a n enqueue has_context outcome between during mine acquire_reply) =
      ground (arith, h) in
    rw reached (
      after_acquire-queued later a n enqueue has_context outcome between during mine acquire_reply
        (acquire-queued now a n enqueue s v) (sym (ap (λ r. r.1) reached) ∙ h))
