-- ===== src/Browser/Trace/Handover.antt =====
-- Who gets a browser that becomes free, in libs/browser/src/browser/session.py.
use forever_claude_template.Base.{
  ℕ, String, ◌≡◌, refl, true, false, Option, none, some, List, [], ◌∷◌, arith, ==_iff, eq_refl,
  opt_eq, ◌+◌, ◌<◌,
}
use forever_claude_template.Browser.Control.{
  LiveBrowser, ControlOwner, Waiter, Effect, human, agent, wake, holds, is_state, agent_tuple,
  without, write_control, settle, settle_queue,
}
use forever_claude_template.Browser.Ownership.{release, was_granted}
use forever_claude_template.Browser.Operations.{
  lease_snapshot, sweep_idle_lease, sweep_unclaimed_grant,
}
use forever_claude_template.Browser.Trace.Invariant.{Inv}

-- First come, first served: parked waiters go before agents that wait for a message.
abbrev pub next_owner : List Waiter → List (String × Option String) → Option String
next_owner (w ∷ ws) q = some w.agent_id
next_owner [] ((a, n) ∷ q) = some a
next_owner [] [] = none

abbrev pub next_controller : List Waiter → List (String × Option String) → ControlOwner
next_controller [] [] = human
next_controller _ _ = agent

abbrev pub left_waiting : List Waiter → List Waiter
left_waiting [] = []
left_waiting (w ∷ ws) = ws

abbrev pub left_resuming :
    List Waiter → List (String × Option String) → List (String × Option String)
left_resuming (w ∷ ws) q = without w.agent_id q
left_resuming [] [] = []
left_resuming [] (entry ∷ q) = q

abbrev pub newest : List Effect → Option Effect
newest [] = none
newest (e ∷ es) = some e

-- A parked waiter is woken granted; an agent that ended its turn is messaged, on the claim clock.
abbrev pub Told : ℕ → List Waiter → List (String × Option String) → LiveBrowser → Type 0
Told now (w ∷ ws) q t = was_granted w.token t.outcomes ≡ true
Told now [] ((a, n) ∷ q) t =
    (newest t.effects ≡ some (wake a n)) × (t.granted_at ≡ t.next_reading now)
Told now [] [] t = Unit

-- `t` is `s` after the browser went to whoever is next.
pub record HandedOver (now : ℕ) (s t : LiveBrowser) : Type 0 where
  pub controller : t.controller ≡ next_controller s.wait_queue s.resume_queue
  pub owner : t.owner_agent_id ≡ next_owner s.wait_queue s.resume_queue
  pub unpinned : t.human_pinned ≡ false
  pub waiting : t.wait_queue ≡ left_waiting s.wait_queue
  pub resuming : t.resume_queue ≡ left_resuming s.wait_queue s.resume_queue
  pub told : Told now s.wait_queue s.resume_queue t

settle-HandedOver :
    (ws : List Waiter) (q : List (String × Option String)) (now : ℕ) (s t : LiveBrowser)
    → s.wait_queue ≡ ws
    → s.resume_queue ≡ q
    → t.human_pinned ≡ false
    → t.wait_queue ≡ ws
    → t.resume_queue ≡ q
    → t.controller ≡ human
    → t.owner_agent_id ≡ none
    → HandedOver now s (settle human false ws q now t)
unfolding settle was_granted
settle-HandedOver (w ∷ ws) q now s t c o p e f g h = ground (arith, ==_iff w.token w.token)
settle-HandedOver [] ((a, n) ∷ q) now s t c o p e f g h = ground arith
settle-HandedOver [] [] now s t c o p e f g h = ground arith

freed-HandedOver :
    (now : ℕ) (s : LiveBrowser)
    → HandedOver now s (settle_queue now (write_control now human none none false s))
unfolding settle_queue write_control
freed-HandedOver now s =
    settle-HandedOver s.wait_queue s.resume_queue now s (write_control now human none none false s)
      refl refl refl refl refl refl refl

opt_eq_refl : (o : Option String) → opt_eq o o ≡ true
opt_eq_refl none = refl
opt_eq_refl (some a) = eq_refl a

is_agent_tuple :
    (s : LiveBrowser) (a : String)
    → Inv s
    → s.controller ≡ agent
    → s.owner_agent_id ≡ some a
    → is_state s (agent_tuple (some a)) ≡ true
is_agent_tuple s a v c o = ground (arith, eq_refl a)

-- In a state that meets the invariant, the owner's release succeeds and hands the browser to the
-- longest-parked waiter, else to the first agent of the resume queue, else leaves it free. The waiter
-- that gets it is woken, and its place in the wait queue and its agent's entries in the resume queue
-- are gone; an agent of the resume queue that gets it is messaged, and its entry is gone.
pub release-HandedOver :
    (now : ℕ) (a : String) (s : LiveBrowser)
    → Inv s
    → s.controller ≡ agent
    → s.owner_agent_id ≡ some a
    → ((release now a s).1 ≡ true) × HandedOver now s (release now a s).0
unfolding release
release-HandedOver now a s v c o =
    rw (is_agent_tuple s a v c o, release) (refl, freed-HandedOver now s)

-- A release by anyone but the owner changes nothing and answers False.
pub release_stale :
    (now : ℕ) (a : String) (s : LiveBrowser) → holds s a ≡ false → release now a s ≡ (s, false)
unfolding release
release_stale now a s h = ground arith

-- Where an agent holds the browser with no task, its grant is newer than its lease and older than the
-- claim window, the sweep takes the browser from it and hands it to whoever is next.
pub sweep_unclaimed_grant-HandedOver :
    (window now : ℕ) (s : LiveBrowser)
    → s.controller ≡ agent
    → s.agent_task ≡ none
    → s.lease_touched_at < s.granted_at
    → s.granted_at + window < now
    → ((sweep_unclaimed_grant window now s).1 ≡ true)
      × HandedOver now s (sweep_unclaimed_grant window now s).0
unfolding sweep_unclaimed_grant
sweep_unclaimed_grant-HandedOver window now s c t g w =
    ground (arith, freed-HandedOver now (record s { granted_at = 0 }))

-- In a state that meets the invariant, a lease that was not renewed for longer than the time to live,
-- with no task, is taken by the sweep and the browser goes to whoever is next.
pub sweep_idle_lease-HandedOver :
    (ttl now : ℕ) (s : LiveBrowser)
    → Inv s
    → s.controller ≡ agent
    → s.agent_task ≡ none
    → s.lease_touched_at + ttl < now
    → ((sweep_idle_lease ttl now (lease_snapshot s) s).1 ≡ true)
      × HandedOver now s (sweep_idle_lease ttl now (lease_snapshot s) s).0
unfolding sweep_idle_lease
sweep_idle_lease-HandedOver ttl now s v c t w =
    ground (arith, opt_eq_refl s.owner_agent_id, freed-HandedOver now s)
