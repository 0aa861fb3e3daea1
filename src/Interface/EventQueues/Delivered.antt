-- ===== src/Interface/EventQueues/Delivered.antt =====
-- What a subscriber reads where broadcasts overlap with other calls, in
-- apps/system_interface/imbue/system_interface/event_queues.py.
use forever_claude_template.Base.{
  ℕ, suc, ◌≤◌, String, ◌≡◌, refl, sym, ap, ◌∙◌, Bool, true, false, inl, inr, some, List, [], ◌∷◌,
  ◌++◌, map, arith, Bool-cases, Option-cases, ◌==◌, get, text_eq,
}
use forever_claude_template.Interface.EventQueues.{
  BufferBehavior, ignore, EventQueues, empty, register, unregister,
}
use forever_claude_template.Interface.EventQueues.Calls
use forever_claude_template.Interface.EventQueues.Freshness.{
  register-Fresh, broadcast-Fresh, unregister-Fresh,
}
use forever_claude_template.Interface.EventQueues.Subscription.{unregister-none, unregister-some}
use forever_claude_template.Interface.EventQueues.Replay.{register-replay, register-queue}
use forever_claude_template.Interface.EventQueues.Calls.{
  Call, run, members, count, replayed, sent, Keeps, Fresh, append_assoc, append-nil, registers,
  unregisters, broadcasts, broadcasts_ignored, shuts_down,
}
use forever_claude_template.Interface.EventQueues.Overlap.{
  Overlapped, start_broadcast, start_all_ignored, put_oldest, Step, calls, puts, overlap, calls_of,
  settled, register-settled, unregister-settled, puts-settled, start_broadcast-settled,
  start_all_ignored-settled, pend_all-none, register-opened,
}

-- The server runs, and no queue that is still to come is subscribed, holds anything or has a put due.
record IsReady (o : Overlapped) : Type 0 where
  is_open : o.server.is_shutdown ≡ false
  fresh : Fresh (settled o)
  unpending : (p : ℕ) → o.server.next_queue ≤ p → o.pending p ≡ []

Fresh-count :
    (b : String) (p : ℕ) (s : EventQueues) → Fresh s → s.next_queue ≤ p → count p (members b s) ≡ 0
unfolding Fresh
Fresh-count b p s f h = (f p h).1 b

start_broadcast-IsReady :
    (b : String) (behavior : BufferBehavior) (event : String) (o : Overlapped)
    → IsReady o
    → IsReady (start_broadcast b behavior event o)
start_broadcast-IsReady b behavior event o r = record {
  is_open = r.is_open;
  fresh =
      rw (start_broadcast-settled b behavior event o)
        (broadcast-Fresh b behavior event (settled o) r.fresh);
  unpending = λ p h.
      pend_all-none p (members b o.server) event o.pending (Fresh-count b p (settled o) r.fresh h)
      ∙ r.unpending p h;
}

start_all_ignored-IsReady :
    (b : String) (events : List String) (o : Overlapped)
    → IsReady o
    → IsReady (start_all_ignored b events o)
start_all_ignored-IsReady b [] o r = r
start_all_ignored-IsReady b (event ∷ events) o r =
    start_all_ignored-IsReady b events (start_broadcast b ignore event o)
      (start_broadcast-IsReady b ignore event o r)

register-IsReady :
    (b : String) (o : Overlapped)
    → IsReady o
    → IsReady (record o { server = (register b o.server).0 })
register-IsReady b o r =
    let opens = register-opened b o.server r.is_open in
    let next : (register b o.server).0.next_queue ≡ suc o.server.next_queue =
      ap (λ v. v.next_queue) opens in
    let same = register-settled b o r.is_open (r.unpending o.server.next_queue (omega arith)) in
    record {
      is_open = ap (λ v. v.is_shutdown) opens ∙ r.is_open;
      fresh = rw same (register-Fresh b (settled o) r.fresh);
      unpending = λ p h. r.unpending p (omega (arith, h, next));
    }

unregister-IsReady :
    (b : String) (q : ℕ) (o : Overlapped)
    → IsReady o
    → IsReady (record o { server = unregister b q o.server })
unregister-IsReady b q o r =
    let fresh : Fresh (settled (record o { server = unregister b q o.server })) =
      rw (unregister-settled b q o) (unregister-Fresh b q (settled o) r.fresh) in
    elim (Option-cases (get o.server.queues b)) [
      | inl e ↦ rw (unregister-none b q o.server e) r
      | inr (qs, e) ↦ record {
        is_open = rw (unregister-some b q qs o.server e) r.is_open;
        fresh = fresh;
        unpending = λ p h. r.unpending p (rw (unregister-some b q qs o.server e) at h);
      }
    ]

puts-IsReady :
    (q : ℕ) (pending : List String) (o : Overlapped)
    → o.pending q ≡ pending
    → IsReady o
    → IsReady (put_oldest q pending o)
puts-IsReady q [] o e r = r
puts-IsReady q (event ∷ later) o e r = record {
  is_open = r.is_open;
  fresh = rw (puts-settled q (event ∷ later) o e) r.fresh;
  unpending = λ p h. elim (Bool-cases (q == p)) [
    | inl here ↦
        let equal : q ≡ p = ground (arith, here) in
        let nothing : event ∷ later ≡ [] = sym e ∙ ap o.pending equal ∙ r.unpending p h in
        let bad : false ≡ true = ground (arith, nothing) in cc
    | inr other ↦ rw other (r.unpending p h)
  ];
}

abbrev pub never_shuts : List Call → Bool
never_shuts [] = true
never_shuts (shuts_down ∷ cs) = false
never_shuts (call ∷ cs) = never_shuts cs

-- Once the puts that are due are made, an overlapping run has come to what the run of its calls, one
-- after the other, comes to.
overlap-settled :
    (steps : List Step) (o : Overlapped)
    → IsReady o
    → never_shuts (calls_of steps) ≡ true
    → (settled (overlap steps o) ≡ run (calls_of steps) (settled o)) × IsReady (overlap steps o)
unfolding run Calls.step
overlap-settled [] o r h = (refl, r)
overlap-settled (calls (registers b) ∷ steps) o r h =
    let t = record o { server = (register b o.server).0 } in
    let rest = overlap-settled steps t (register-IsReady b o r) h in
    let same = register-settled b o r.is_open (r.unpending o.server.next_queue (omega arith)) in
    (rest.0 ∙ ap (run (calls_of steps)) same, rest.1)
overlap-settled (calls (unregisters b q) ∷ steps) o r h =
    let t = record o { server = unregister b q o.server } in
    let rest = overlap-settled steps t (unregister-IsReady b q o r) h in
    (rest.0 ∙ ap (run (calls_of steps)) (unregister-settled b q o), rest.1)
overlap-settled (calls (broadcasts b behavior event) ∷ steps) o r h =
    let t = start_broadcast b behavior event o in
    let rest = overlap-settled steps t (start_broadcast-IsReady b behavior event o r) h in
    (rest.0 ∙ ap (run (calls_of steps)) (start_broadcast-settled b behavior event o), rest.1)
overlap-settled (calls (broadcasts_ignored b events) ∷ steps) o r h =
    let t = start_all_ignored b events o in
    let rest = overlap-settled steps t (start_all_ignored-IsReady b events o r) h in
    (rest.0 ∙ ap (run (calls_of steps)) (start_all_ignored-settled b events o), rest.1)
overlap-settled (calls shuts_down ∷ steps) o r h = let bad : false ≡ true = h in cc
overlap-settled (puts q ∷ steps) o r h =
    let t = put_oldest q (o.pending q) o in
    let rest = overlap-settled steps t (puts-IsReady q (o.pending q) o refl r) h in
    (rest.0 ∙ ap (run (calls_of steps)) (puts-settled q (o.pending q) o refl), rest.1)

abbrev pub no_puts : Overlapped
no_puts = record { server = empty; pending = λ q. [] }

no_puts-IsReady : IsReady no_puts
unfolding Fresh get count
no_puts-IsReady = record {
  is_open = refl;
  fresh = λ p h. (refl, λ b. refl);
  unpending = λ p h. refl;
}

Keeps-never_shuts : (q : ℕ) (cs : List Call) → Keeps q cs → never_shuts cs ≡ true
Keeps-never_shuts q [] k = refl
Keeps-never_shuts q (registers b ∷ cs) k = Keeps-never_shuts q cs k
Keeps-never_shuts q (unregisters b p ∷ cs) k = Keeps-never_shuts q cs k.1
Keeps-never_shuts q (broadcasts b behavior event ∷ cs) k = Keeps-never_shuts q cs k
Keeps-never_shuts q (broadcasts_ignored b events ∷ cs) k = Keeps-never_shuts q cs k
Keeps-never_shuts q (shuts_down ∷ cs) k = k

-- A client that subscribes to an agent before any shutdown, and stays subscribed, has got, or has still to
-- get from the puts that are due to its queue, every event exactly once and in order: first the agent's
-- events stored since its last flush, as the sections before it tell, then every event broadcast for that
-- agent afterwards, stored or not. The puts of a broadcast may come at any time after its section, where
-- the puts to one queue come in the order of their sections.
pub overlap-replay :
    (a : String) (before after : List Step)
    → never_shuts (calls_of before) ≡ true
    → Keeps (register a (overlap before no_puts).server).1 (calls_of after)
    → let o = overlap (calls (registers a) ∷ after) (overlap before no_puts) in
      let q = (register a (overlap before no_puts).server).1 in
      o.server.contents q ++ map some (o.pending q)
      ≡ map some (replayed a (calls_of before) [] ++ sent a (calls_of after))
overlap-replay a before after unshut keeps =
    let s = overlap before no_puts in
    let q = (register a s.server).1 in
    let t = record s { server = (register a s.server).0 } in
    let first = overlap-settled before no_puts no_puts-IsReady unshut in
    let ready = register-IsReady a s first.1 in
    let end = overlap-settled after t ready (Keeps-never_shuts q (calls_of after) keeps) in
    let joined =
      register-settled a s first.1.is_open (first.1.unpending s.server.next_queue (omega arith)) in
    let alone = run (calls_of before) empty in
    let started : settled t ≡ (register a alone).0 = joined ∙ ap (λ v. (register a v).0) first.0 in
    let whole : settled (overlap after t) ≡ run (calls_of after) (register a alone).0 =
      end.0 ∙ ap (run (calls_of after)) started in
    let same_queue : q ≡ (register a alone).1 =
      register-queue a s.server ∙ ap (λ v. v.next_queue) first.0 ∙ sym (register-queue a alone) in
    let runs : alone.is_shutdown ≡ false =
      sym (ap (λ v. v.is_shutdown) first.0) ∙ first.1.is_open in
    ap (λ v. v.contents q) whole
    ∙ ap (run (calls_of after) (register a alone).0).contents same_queue
    ∙ register-replay a (calls_of before) (calls_of after) runs (rw same_queue at keeps)
