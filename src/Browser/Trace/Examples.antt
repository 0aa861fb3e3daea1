-- ===== src/Browser/Trace/Examples.antt =====
-- Concrete histories and states of a browser of libs/browser/src/browser/session.py.
use forever_claude_template.Base.{
  ◌≡◌, refl, suc, true, false, not, none, some, List, [], ◌∷◌, arith,
}
use forever_claude_template.Browser.Control.{
  LiveBrowser, fresh, agent, running, wake, is_state, agent_tuple, queued, write_control,
  append_resume, settle_queue, without,
}
use forever_claude_template.Browser.Ownership.{
  busy_agent, acquire, release, take_control, return_to_agents, acquire_locked, enqueue_if,
}
use forever_claude_template.Browser.Operations.{
  sweep_idle_lease, sweep_unclaimed_grant, lease_snapshot, close, mark_closed, check_lease,
  after_acquire, run_action, completed, claim, perform,
}
use forever_claude_template.Browser.Trace.{
  Event, acquires, releases, takes_control, returns, disconnects, starts, run, step,
}
use forever_claude_template.Browser.Trace.Invariant.{Inv, run-fresh-Inv}
use forever_claude_template.Browser.Trace.Preemption.{IsPinned, run-holds_other, run-IsPinned}
use forever_claude_template.Browser.Trace.Handover.{
  HandedOver, newest, release-HandedOver, sweep_idle_lease-HandedOver,
  sweep_unclaimed_grant-HandedOver,
}
use forever_claude_template.Browser.Trace.Resume.{
  Abandoned, take_control-return_to_agents, close-Abandoned,
}
use forever_claude_template.Browser.Trace.Requests.{
  held, answered, verdict_of, view, acquire-verdict, run_action_ok, run_action-queued,
}

-- Ann holds the browser, Cat is parked, Bob waits for a message.
abbrev ann_browser : LiveBrowser
ann_browser = record (fresh suc) {
  controller = agent;
  owner_agent_id = some "ann";
  input_enabled = false;
  lifecycle = running;
  wait_queue = record { token = 0; agent_id = "cat"; agent_name = none } ∷ [];
  next_token = 1;
  resume_queue = ("bob", none) ∷ [];
  lease_touched_at = 3;
  granted_at = 5;
}

ann_browser-Inv : Inv ann_browser
unfolding queued
ann_browser-Inv = ground arith

abbrev pinned_browser : LiveBrowser
pinned_browser = record (fresh suc) { lifecycle = running; human_pinned = true }

abbrev free_browser : LiveBrowser
free_browser = record (fresh suc) { lifecycle = running }

free_browser-Inv : Inv free_browser
free_browser-Inv = ground arith

abbrev busy_day : List Event
busy_day =
    starts
    ∷ acquires 1 "ann" none false false true
    ∷ acquires 2 "bob" none false true true
    ∷ takes_control 3 0
    ∷ returns 4
    ∷ releases 5 "ann"
    ∷ disconnects
    ∷ []

run-fresh-Inv_example : Inv (run busy_day (fresh suc))
run-fresh-Inv_example = run-fresh-Inv suc busy_day

acquire-verdict_example :
    (verdict_of (acquire 9 "bob" none true false true ann_browser).1 ≡ answered busy_agent)
    × (view (acquire 9 "bob" none true false true ann_browser).0 ≡ held "ann")
acquire-verdict_example =
    acquire-verdict 9 "bob" none true false true ann_browser ann_browser-Inv refl

run-holds_other_example :
    ((run (acquires 9 "bob" none true false true ∷ releases 9 "bob" ∷ []) ann_browser).controller
      ≡ agent)
    × ((run
          (acquires 9 "bob" none true false true ∷ releases 9 "bob" ∷ [])
          ann_browser).owner_agent_id
        ≡ some "ann")
run-holds_other_example =
    run-holds_other "ann" (acquires 9 "bob" none true false true ∷ releases 9 "bob" ∷ [])
      ann_browser refl refl refl

run-IsPinned_example :
    IsPinned (run (acquires 9 "bob" none false true true ∷ disconnects ∷ []) pinned_browser)
run-IsPinned_example =
    run-IsPinned (acquires 9 "bob" none false true true ∷ disconnects ∷ []) pinned_browser refl
      (refl, refl)

release-HandedOver_example :
    ((release 9 "ann" ann_browser).1 ≡ true)
    × HandedOver 9 ann_browser (release 9 "ann" ann_browser).0
release-HandedOver_example = release-HandedOver 9 "ann" ann_browser ann_browser-Inv refl refl

sweep_idle_lease-HandedOver_example :
    ((sweep_idle_lease 5 9 (lease_snapshot ann_browser) ann_browser).1 ≡ true)
    × HandedOver 9 ann_browser (sweep_idle_lease 5 9 (lease_snapshot ann_browser) ann_browser).0
sweep_idle_lease-HandedOver_example =
    sweep_idle_lease-HandedOver 5 9 ann_browser ann_browser-Inv refl refl (omega arith)

-- Ann takes a browser, Dan is queued by a command, and Ann's release hands the browser to Dan.
abbrev handed_over : List Event
handed_over =
    starts
    ∷ acquires 1 "ann" none false false true
    ∷ acquires 2 "dan" none false false true
    ∷ releases 3 "ann"
    ∷ []

sweep_unclaimed_grant-HandedOver_example :
    ((sweep_unclaimed_grant 3 9 (run handed_over (fresh suc))).1 ≡ true)
    × HandedOver 9
        (run handed_over (fresh suc))
        (sweep_unclaimed_grant 3 9 (run handed_over (fresh suc))).0
unfolding run step acquire_locked release settle_queue write_control append_resume without queued
sweep_unclaimed_grant-HandedOver_example =
    sweep_unclaimed_grant-HandedOver 3 9 (run handed_over (fresh suc)) refl refl (omega arith)
      (omega arith)

take_control-return_to_agents_example :
    ((return_to_agents 12 (take_control 9 0 ann_browser).0).0.controller ≡ agent)
    × ((return_to_agents 12 (take_control 9 0 ann_browser).0).0.owner_agent_id ≡ some "ann")
    × (newest (return_to_agents 12 (take_control 9 0 ann_browser).0).0.effects
        ≡ some (wake "ann" none))
take_control-return_to_agents_example =
    take_control-return_to_agents 9 12 0 "ann" ann_browser refl refl refl

-- While the command runs, Bob tries to take the browser.
abbrev bob_tries : List Event
bob_tries = acquires 10 "bob" none true false true ∷ []

close-Abandoned_example :
    Abandoned (run bob_tries (mark_closed ann_browser)) (close (run bob_tries) ann_browser)
close-Abandoned_example = close-Abandoned (run bob_tries) ann_browser

run_action_ok_example :
    (view (run_action 8 9 "ann" none true true completed (run []) (run bob_tries) free_browser).0
      ≡ held "ann")
    × (true ≡ not (is_state free_browser (agent_tuple (some "ann"))))
unfolding run_action acquire acquire_locked after_acquire claim check_lease perform enqueue_if
    write_control append_resume run
run_action_ok_example =
    run_action_ok 8 9 "ann" none true true completed [] bob_tries free_browser {newly = true} refl
      refl

run_action-queued_example :
    queued "dan"
      (run_action 8 9 "dan" none true true completed (run []) (run []) ann_browser).0.resume_queue
    ≡ true
unfolding run_action acquire acquire_locked after_acquire claim check_lease perform enqueue_if
    write_control append_resume
run_action-queued_example =
    run_action-queued 8 9 "dan" none true true completed (run []) (run []) ann_browser
      {status = busy_agent} ann_browser-Inv refl
