-- ===== src/Interface/EventQueues/Replay.antt =====
-- What a subscriber reads: apps/system_interface/imbue/system_interface/event_queues.py.
use forever_claude_template.Base.{
  String, ◌≡◌, refl, true, false, some, List, [], ◌∷◌, ◌++◌, map, arith, get, get-put, get-remove,
  text_eq, eq_iff,
}
use forever_claude_template.Interface.EventQueues.{
  store, ignore, flush, EventQueues, empty, listed, register, unregister, broadcast,
  broadcast_all_ignored, shutdown,
}
use forever_claude_template.Interface.EventQueues.Calls.{
  Call, step, run, members, count, after_call, replayed, sent, Keeps, count-append, Subscribed,
  Fresh, map-append, registers, unregisters, broadcasts, broadcasts_ignored, shuts_down,
}
use forever_claude_template.Interface.EventQueues.Subscription.{run-content}
use forever_claude_template.Interface.EventQueues.Freshness.{
  register-Fresh, broadcast-Fresh, ignored-Fresh, unregister-Fresh, run-stays_shut,
}

abbrev kept_for : String → EventQueues → List String
kept_for a s = listed (get s.event_buffers a)

ignored-event_buffers :
    (b : String) (events : List String) (s : EventQueues)
    → (broadcast_all_ignored b events s).event_buffers ≡ s.event_buffers
unfolding broadcast_all_ignored broadcast
ignored-event_buffers b [] s = refl
ignored-event_buffers b (event ∷ events) s =
    ignored-event_buffers b events (broadcast b ignore event s)

step-event_buffers :
    (a : String) (call : Call) (s : EventQueues)
    → kept_for a (step call s) ≡ after_call a call (kept_for a s)
unfolding step register unregister broadcast shutdown get
step-event_buffers a (registers b) s = ground arith
step-event_buffers a (unregisters b p) s = ground arith
step-event_buffers a (broadcasts b store event) s =
    ground (arith, get-put s.event_buffers b a (kept_for b s ++ event ∷ []), eq_iff b a)
step-event_buffers a (broadcasts b ignore event) s = refl
step-event_buffers a (broadcasts b flush event) s = ground (arith, get-remove s.event_buffers b a)
step-event_buffers a (broadcasts_ignored b events) s = cc (ignored-event_buffers b events s)
step-event_buffers a shuts_down s = refl

run-event_buffers :
    (a : String) (calls : List Call) (s : EventQueues)
    → kept_for a (run calls s) ≡ replayed a calls (kept_for a s)
unfolding run replayed
run-event_buffers a [] s = refl
run-event_buffers a (call ∷ calls) s =
    cc (run-event_buffers a calls (step call s), step-event_buffers a call s)

shutdown-is_shutdown : (s : EventQueues) → (shutdown s).is_shutdown ≡ true
unfolding shutdown
shutdown-is_shutdown s = refl

pub register-queue : (a : String) (s : EventQueues) → (register a s).1 ≡ s.next_queue
unfolding register
register-queue a s = ground arith

run-Fresh :
    (calls : List Call) (s : EventQueues)
    → (run calls s).is_shutdown ≡ false
    → Fresh s
    → Fresh (run calls s)
unfolding run step
run-Fresh [] s o f = f
run-Fresh (registers b ∷ calls) s o f = run-Fresh calls (register b s).0 o (register-Fresh b s f)
run-Fresh (unregisters b p ∷ calls) s o f =
    run-Fresh calls (unregister b p s) o (unregister-Fresh b p s f)
run-Fresh (broadcasts b behavior event ∷ calls) s o f =
    run-Fresh calls (broadcast b behavior event s) o (broadcast-Fresh b behavior event s f)
run-Fresh (broadcasts_ignored b events ∷ calls) s o f =
    run-Fresh calls (broadcast_all_ignored b events s) o (ignored-Fresh b events s f)
run-Fresh (shuts_down ∷ calls) s o f =
    let shut = run-stays_shut calls (shutdown s) (shutdown-is_shutdown s) in cc

register-Subscribed :
    (a : String) (s : EventQueues)
    → s.is_shutdown ≡ false
    → Fresh s
    → Subscribed a s.next_queue (register a s).0
      × ((register a s).0.contents s.next_queue ≡ map some (kept_for a s))
unfolding register Fresh
register-Subscribed a s o f =
    let own = f s.next_queue (omega arith) in
    (
      record {
        once = λ c. ground (
          arith,
          o,
          own.1 a,
          own.1 c,
          eq_iff a c,
          count-append s.next_queue s.next_queue (members a s),
          get-put s.queues a c (members a s ++ s.next_queue ∷ []),
        );
        given = ground (arith, o);
        is_open = ground (arith, o);
      },
      ground (arith, o, own.0),
    )

empty-Fresh : Fresh empty
unfolding Fresh get count
empty-Fresh p h = (refl, λ b. refl)

-- Where each broadcast puts its event in the queues before the next call begins, a client that
-- subscribes to an agent while the server runs, and stays subscribed, is given every event exactly
-- once and in order: first the agent's events stored since its last flush, as the calls before it
-- tell, then every event broadcast for that agent afterwards, stored or not.
pub register-replay :
    (a : String) (before after : List Call)
    → (run before empty).is_shutdown ≡ false
    → Keeps (register a (run before empty)).1 after
    → (run after (register a (run before empty)).0).contents (register a (run before empty)).1
      ≡ map some (replayed a before [] ++ sent a after)
unfolding get
register-replay a before after o k =
    let s = run before empty in
    let new = register-Subscribed a s o (run-Fresh before empty o empty-Fresh) in
    let same = register-queue a s in
    rw same (
      cc (
        run-content a s.next_queue after (register a s).0 (rw⁻¹ same k) new.0,
        new.1,
        run-event_buffers a before empty,
        map-append (replayed a before []) (sent a after),
      ))
