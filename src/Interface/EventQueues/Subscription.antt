-- ===== src/Interface/EventQueues/Subscription.antt =====
-- What reaches a queue that is subscribed: apps/system_interface/imbue/system_interface/event_queues.py.
use forever_claude_template.Base.{
  ℕ, String, ◌≡◌, refl, sym, inl, inr, false, Option-cases, none, some, List, [], ◌∷◌, ◌++◌, map,
  arith, ◌==◌, get, get-put, text_eq, eq_iff,
}
use forever_claude_template.Interface.EventQueues.{
  EventQueues, register, erase_queue, put_queues, unregister,
}
use forever_claude_template.Interface.EventQueues.Calls.{
  Call, step, run, members, sent_by, sent, Keeps, count-append, count-erase_queue, get-put_queues,
  Subscribed, map-append, append_assoc, append-nil, broadcast-content, broadcast-Subscribed,
  ignored-content, registers, unregisters, broadcasts, broadcasts_ignored, shuts_down,
}

pub unregister-none :
    (b : String) (p : ℕ) (s : EventQueues) → get s.queues b ≡ none → unregister b p s ≡ s
unfolding unregister
unregister-none b p s e = ground (arith, e)

pub unregister-some :
    (b : String) (p : ℕ) (qs : List ℕ) (s : EventQueues)
    → get s.queues b ≡ some qs
    → unregister b p s ≡ (record s { queues = put_queues b (erase_queue p qs) s.queues })
unfolding unregister
unregister-some b p qs s e = ground (arith, e)

step-Subscribed :
    (a : String) (q : ℕ) (call : Call) (s : EventQueues)
    → Keeps q (call ∷ [])
    → Subscribed a q s
    → ((step call s).contents q ≡ s.contents q ++ map some (sent_by a call))
      × Subscribed a q (step call s)
unfolding step register
step-Subscribed a q (registers b) s k w =
    let differs : (s.next_queue == q) ≡ false = ground (arith, w.given) in
    rw w.is_open (
      ground (arith, append-nil (s.contents q)),
      record {
        once = λ c. ground (
          arith,
          w.once b,
          w.once c,
          eq_iff b c,
          eq_iff a b,
          eq_iff a c,
          count-append q s.next_queue (members b s),
          get-put s.queues b c (members b s ++ s.next_queue ∷ []),
        );
        given = omega (arith, w.given);
        is_open = refl;
      },
    )
step-Subscribed a q (unregisters b p) s k w = elim (Option-cases (get s.queues b)) [
  | inl e ↦ rw (unregister-none b p s e) (sym (append-nil (s.contents q)), w)
  | inr (qs, e) ↦ rw (unregister-some b p qs s e) (
    sym (append-nil (s.contents q)),
    record {
      once = λ c. ground (
        arith,
        w.once b,
        w.once c,
        eq_iff b c,
        eq_iff a b,
        eq_iff a c,
        e,
        count-erase_queue q p qs k.0,
        get-put_queues b c (erase_queue p qs) s.queues,
      );
      given = w.given;
      is_open = w.is_open;
    },
  )
]
step-Subscribed a q (broadcasts b behavior event) s k w =
    (broadcast-content a b behavior event q s w, broadcast-Subscribed a b behavior event q s w)
step-Subscribed a q (broadcasts_ignored b events) s k w = ignored-content a b events q s w
step-Subscribed a q shuts_down s k w = cc

Keeps-first :
    (q : ℕ) (call : Call) (calls : List Call)
    → Keeps q (call ∷ calls)
    → Keeps q (call ∷ []) × Keeps q calls
Keeps-first q (registers b) calls k = (tt, k)
Keeps-first q (unregisters b p) calls k = ((k.0, tt), k.1)
Keeps-first q (broadcasts b behavior event) calls k = (tt, k)
Keeps-first q (broadcasts_ignored b events) calls k = (tt, k)
Keeps-first q shuts_down calls k = cc

pub run-content :
    (a : String) (q : ℕ) (calls : List Call) (s : EventQueues)
    → Keeps q calls
    → Subscribed a q s
    → (run calls s).contents q ≡ s.contents q ++ map some (sent a calls)
unfolding run sent
run-content a q [] s k w = sym (append-nil (s.contents q))
run-content a q (call ∷ calls) s k w =
    let both = Keeps-first q call calls k in
    let one = step-Subscribed a q call s both.0 w in
    cc (
      one.0,
      run-content a q calls (step call s) both.1 one.1,
      map-append (sent_by a call) (sent a calls),
      append_assoc (s.contents q) (map some (sent_by a call)) (map some (sent a calls)),
    )
