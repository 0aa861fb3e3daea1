-- ===== src/Interface/EventQueues/Freshness.antt =====
-- Queues that are still to come, and the shut-down flag: apps/system_interface/imbue/system_interface/event_queues.py.
use forever_claude_template.Base.{
  ℕ, String, ◌≡◌, refl, inl, inr, true, false, Option-cases, some, List, [], ◌∷◌, ◌++◌, arith, ◌==◌,
  get, get-put, text_eq,
}
use forever_claude_template.Interface.EventQueues.{
  BufferBehavior, ignore, EventQueues, listed, register, erase_queue, put_queues, unregister,
  broadcast, broadcast_all_ignored, shutdown,
}
use forever_claude_template.Interface.EventQueues.Calls.{
  Call, step, run, members, count, count-append, count-erase_le, put_all-none, get-put_queues,
  Fresh, registers, unregisters, broadcasts, broadcasts_ignored, shuts_down,
}
use forever_claude_template.Interface.EventQueues.Subscription.{unregister-none, unregister-some}

erased-Fresh :
    (p q : ℕ) (b c : String) (qs : List ℕ) (s : EventQueues)
    → get s.queues b ≡ some qs
    → ((d : String) → count p (members d s) ≡ 0)
    → count p (listed (get (put_queues b (erase_queue q qs) s.queues) c)) ≡ 0
erased-Fresh p q b c qs s e h =
    ground
      (arith, h b, h c, e, count-erase_le p q qs, get-put_queues b c (erase_queue q qs) s.queues)

pub register-Fresh : (b : String) (s : EventQueues) → Fresh s → Fresh (register b s).0
unfolding register Fresh
register-Fresh b s f p h =
    let old = f p (ground arith) in
    let differs : (s.next_queue == p) ≡ false = ground arith in
    (
      ground (arith, old.0),
      λ c. ground (
        arith,
        old.1 b,
        old.1 c,
        count-append p s.next_queue (members b s),
        get-put s.queues b c (members b s ++ s.next_queue ∷ []),
      ),
    )

pub broadcast-Fresh :
    (b : String) (behavior : BufferBehavior) (event : String) (s : EventQueues)
    → Fresh s
    → Fresh (broadcast b behavior event s)
unfolding broadcast Fresh
broadcast-Fresh b behavior event s f p h =
    let old = f p h in
    (cc (put_all-none p (members b s) (some event) s.contents (old.1 b), old.0), old.1)

pub ignored-Fresh :
    (b : String) (events : List String) (s : EventQueues)
    → Fresh s
    → Fresh (broadcast_all_ignored b events s)
unfolding broadcast_all_ignored
ignored-Fresh b [] s f = f
ignored-Fresh b (event ∷ events) s f =
    ignored-Fresh b events (broadcast b ignore event s) (broadcast-Fresh b ignore event s f)

pub unregister-Fresh : (b : String) (q : ℕ) (s : EventQueues) → Fresh s → Fresh (unregister b q s)
unregister-Fresh b q s f = elim (Option-cases (get s.queues b)) [
  | inl e ↦ rw (unregister-none b q s e) f
  | inr (qs, e) ↦
      rw (unregister-some b q qs s e)
        (unfold Fresh in λ p h. let old = f p h in (old.0, λ c. erased-Fresh p q b c qs s e old.1))
]

-- Once shut down, always shut down.
ignored-is_shutdown :
    (b : String) (events : List String) (s : EventQueues)
    → (broadcast_all_ignored b events s).is_shutdown ≡ s.is_shutdown
unfolding broadcast_all_ignored broadcast
ignored-is_shutdown b [] s = refl
ignored-is_shutdown b (event ∷ events) s = ignored-is_shutdown b events (broadcast b ignore event s)

step-stays_shut :
    (call : Call) (s : EventQueues) → s.is_shutdown ≡ true → (step call s).is_shutdown ≡ true
unfolding step register unregister broadcast shutdown
step-stays_shut (registers b) s h = ground arith
step-stays_shut (unregisters b p) s h = ground arith
step-stays_shut (broadcasts b behavior event) s h = h
step-stays_shut (broadcasts_ignored b events) s h = cc (ignored-is_shutdown b events s, h)
step-stays_shut shuts_down s h = refl

pub run-stays_shut :
    (calls : List Call) (s : EventQueues) → s.is_shutdown ≡ true → (run calls s).is_shutdown ≡ true
unfolding run
run-stays_shut [] s h = h
run-stays_shut (call ∷ calls) s h = run-stays_shut calls (step call s) (step-stays_shut call s h)
