-- ===== src/Browser/Trace/Resume.antt =====
-- What a displaced, queued or evicted agent can rely on, in libs/browser/src/browser/session.py.
use forever_claude_template.Base.{
  ℕ, String, ◌≡◌, refl, Bool, true, false, Option, none, some, List, [], ◌∷◌, arith, All, ◌==◌,
  ==_iff, ◌||◌, eq_refl, ◌⊎◌, inl, inr,
}
use forever_claude_template.Browser.Control.{
  LiveBrowser, Waiter, Effect, human, agent, running, wake, gone, control_message, crash_message,
  checkpoint, evict, queued, without, write_control, settle, settle_queue,
}
use forever_claude_template.Browser.Control.Queues.{queued-append_resume}
use forever_claude_template.Browser.Ownership.{
  transition, take_control, return_to_agents, handoff, enqueue_displaced, stop_displaced,
  cancel_displaced, was_granted, enqueue_if, handoff,
}
use forever_claude_template.Browser.Operations.{
  mark_closed, check_lease, close, announce, message_gone,
}
use forever_claude_template.Browser.Trace.Handover.{newest}
use forever_claude_template.Browser.Trace.Preemption.{IsPinned}

-- `s` is in human hands, pinned, with the given agent first in line to resume.
pub record FirstInLine (a : String) (n : Option String) (q : List (String × Option String))
    (s : LiveBrowser) : Type 0 where
  pub pinned : IsPinned s
  pub unowned : s.owner_agent_id ≡ none
  pub unparked : s.wait_queue ≡ []
  pub line : s.resume_queue ≡ (a, n) ∷ without a q

-- A human who takes a browser from an agent puts that agent first in line.
pub take_control-FirstInLine :
    (now current : ℕ) (a : String) (s : LiveBrowser)
    → s.lifecycle ≡ running
    → s.controller ≡ agent
    → s.owner_agent_id ≡ some a
    → FirstInLine a s.owner_agent_name s.resume_queue (take_control now current s).0
unfolding take_control transition write_control settle_queue settle enqueue_displaced stop_displaced
    cancel_displaced
take_control-FirstInLine now current a s r c o = ground arith

-- An agent that hands its browser to the human succeeds and is first in line to resume.
pub handoff-FirstInLine :
    (now : ℕ) (a : String) (n : Option String) (s : LiveBrowser)
    → s.controller ≡ agent
    → s.owner_agent_id ≡ some a
    → ((handoff now a n s).1 ≡ true) × FirstInLine a n s.resume_queue (handoff now a n s).0
unfolding handoff write_control settle_queue settle
handoff-FirstInLine now a n s c o = ground (arith, eq_refl a)

-- When the human hands a browser back, the agent that is first in line owns it again, the others
-- keep their places, and the agent is messaged.
pub return_to_agents-FirstInLine :
    (now : ℕ) (a : String) (n : Option String) (q : List (String × Option String)) (s : LiveBrowser)
    → FirstInLine a n q s
    → let (t, is_done) = return_to_agents now s in
      (is_done ≡ true)
      × (t.controller ≡ agent)
      × (t.owner_agent_id ≡ some a)
      × (t.resume_queue ≡ without a q)
      × (newest t.effects ≡ some (wake a n))
unfolding return_to_agents transition write_control settle_queue settle
return_to_agents-FirstInLine now a n q s f = ground arith

-- Round trip: where a human takes control of a running browser from an agent and hands it back, that
-- agent owns the browser again and is messaged.
pub take_control-return_to_agents :
    (now later current : ℕ) (a : String) (s : LiveBrowser)
    → s.lifecycle ≡ running
    → s.controller ≡ agent
    → s.owner_agent_id ≡ some a
    → let t = (return_to_agents later (take_control now current s).0).0 in
      (t.controller ≡ agent)
      × (t.owner_agent_id ≡ some a)
      × (newest t.effects ≡ some (wake a s.owner_agent_name))
take_control-return_to_agents now later current a s r c o =
    let back =
      return_to_agents-FirstInLine later a s.owner_agent_name s.resume_queue
        (take_control now current s).0 (take_control-FirstInLine now current a s r c o) in
    (back.1, back.2, back.4)

unfoldable pub is_resolved : ℕ → List (ℕ × Bool) → Bool
is_resolved token [] = false
is_resolved token ((t, granted) ∷ rest) = t == token || is_resolved token rest

-- The waiter's event is set and it was not granted the browser.
abbrev pub Refused : List (ℕ × Bool) → Waiter → Type 0
Refused outcomes w = (is_resolved w.token outcomes ≡ true) × (was_granted w.token outcomes ≡ false)

Refused-evict :
    (ws : List Waiter) (w : Waiter) (o : List (ℕ × Bool)) → Refused o w → Refused (evict ws o) w
unfolding evict is_resolved was_granted
Refused-evict [] w o r = r
Refused-evict (v ∷ ws) w o r = Refused-evict ws w ((v.token, false) ∷ o) (ground arith)

Refused-All :
    (vs ws : List Waiter) (o : List (ℕ × Bool)) → All (Refused o) ws → All (Refused (evict vs o)) ws
Refused-All vs [] o h = tt
Refused-All vs (w ∷ ws) o h = (Refused-evict vs w o h.0, Refused-All vs ws o h.1)

evict-Refused : (ws : List Waiter) (o : List (ℕ × Bool)) → All (Refused (evict ws o)) ws
unfolding evict is_resolved was_granted
evict-Refused [] o = tt
evict-Refused (w ∷ ws) o = (
  Refused-evict ws w ((w.token, false) ∷ o) (ground (arith, ==_iff w.token w.token)),
  evict-Refused ws ((w.token, false) ∷ o),
)

-- The agent was messaged that the browser is gone.
abbrev pub ToldGone : List Effect → String × Option String → Type 0
ToldGone [] entry = ⊥
ToldGone (e ∷ es) (a, n) = (e ≡ gone a n) ⊎ ToldGone es (a, n)

ToldGone-message_gone :
    (q : List (String × Option String)) (entry : String × Option String) (es : List Effect)
    → ToldGone es entry
    → ToldGone (message_gone q es) entry
unfolding message_gone
ToldGone-message_gone [] entry es h = h
ToldGone-message_gone ((b, m) ∷ q) (a, n) es h =
    ToldGone-message_gone q (a, n) (gone b m ∷ es) (inr h)

message_gone-ToldGone :
    (q : List (String × Option String)) (es : List Effect) → All (ToldGone (message_gone q es)) q
unfolding message_gone
message_gone-ToldGone [] es = tt
message_gone-ToldGone ((a, n) ∷ q) es = (
  ToldGone-message_gone q (a, n) (gone a n ∷ es) (inl refl),
  message_gone-ToldGone q (gone a n ∷ es),
)

-- `t` is `s` after everybody who waited was released.
pub record Abandoned (s t : LiveBrowser) : Type 0 where
  pub unparked : t.wait_queue ≡ []
  pub unqueued : t.resume_queue ≡ []
  pub refused : All (Refused t.outcomes) s.wait_queue
  pub told : All (ToldGone t.effects) s.resume_queue

-- Whatever others do before it has the lock, closing a browser wakes every waiter that is parked then
-- ungranted and messages every agent that is queued then that the browser is gone, and leaves both
-- queues empty.
pub close-Abandoned :
    (meanwhile : LiveBrowser → LiveBrowser) (s : LiveBrowser)
    → Abandoned (meanwhile (mark_closed s)) (close meanwhile s)
unfolding close
close-Abandoned meanwhile s =
    let t = meanwhile (mark_closed s) in
    record {
      unparked = refl;
      unqueued = refl;
      refused = evict-Refused t.wait_queue t.outcomes;
      told = message_gone-ToldGone t.resume_queue t.effects;
    }

All-newest :
    (e : Effect) (es : List Effect) (q : List (String × Option String))
    → All (ToldGone es) q
    → All (ToldGone (e ∷ es)) q
All-newest e es [] h = tt
All-newest e es ((a, n) ∷ q) h = (inr h.0, All-newest e es q h.1)

-- The announcement of a crash wakes every parked waiter ungranted and messages every queued agent that
-- the browser is gone, and leaves both queues empty.
pub announce-Abandoned : (s : LiveBrowser) → Abandoned s (announce s)
unfolding announce
announce-Abandoned s = record {
  unparked = refl;
  unqueued = refl;
  refused = evict-Refused s.wait_queue s.outcomes;
  told =
      All-newest checkpoint _ s.resume_queue
        (message_gone-ToldGone s.resume_queue (crash_message ∷ s.effects));
}

-- A command of an agent that finds the browser free when its lease is checked is refused and the agent is
-- queued to resume, but the browser stays free and the only thing sent is the control message: no
-- agent is woken.
check_lease_strands :
    (now : ℕ) (a : String) (n : Option String) (s : LiveBrowser)
    → s.controller ≡ human
    → s.human_pinned ≡ false
    → let (t, is_mine) = check_lease now a n true s in
      (is_mine ≡ false)
      × (t.controller ≡ human)
      × (t.human_pinned ≡ false)
      × (queued a t.resume_queue ≡ true)
      × (t.effects ≡ control_message ∷ s.effects)
unfolding check_lease enqueue_if
check_lease_strands now a n s c p =
    ground (arith, queued-append_resume a a n s.resume_queue, eq_refl a)
