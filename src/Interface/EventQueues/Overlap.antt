-- ===== src/Interface/EventQueues/Overlap.antt =====
-- Broadcasts that overlap with other calls: the puts of `AgentEventQueues.broadcast` come after its section
-- under the lock, in apps/system_interface/imbue/system_interface/event_queues.py.
use mathlib.Core.Path.{fun_ext}
use forever_claude_template.Base.{
  ℕ, suc, String, ◌≡◌, refl, sym, ap, ◌∙◌, false, inl, inr, Option, some, List, [], ◌∷◌, ◌++◌, map,
  arith, Bool-cases, Option-cases, ◌==◌, if◌then◌else◌, get, text_eq,
}
use forever_claude_template.Interface.EventQueues.{
  BufferBehavior, ignore, EventQueues, listed, put_nowait, put_all, register, unregister,
  buffer_event, deliver_event, broadcast, broadcast_all_ignored, shutdown,
}
use forever_claude_template.Interface.EventQueues.Subscription.{unregister-none, unregister-some}
use forever_claude_template.Base.{put}
use forever_claude_template.Interface.EventQueues.Calls.{
  Call, members, count, append_assoc, append-nil, registers, unregisters, broadcasts,
  broadcasts_ignored, shuts_down,
}

-- The queues, and for each queue the puts that broadcasts still have to make, oldest first.
pub record Overlapped : Type 0 where
  pub server : EventQueues
  pub pending : ℕ → List String

unfoldable pub pend_all : List ℕ → String → (ℕ → List String) → ℕ → List String
pend_all [] event pending = pending
pend_all (q ∷ qs) event pending =
    pend_all qs event (λ p. if q == p then pending p ++ event ∷ [] else pending p)

-- The section of a broadcast.
abbrev pub start_broadcast : String → BufferBehavior → String → Overlapped → Overlapped
start_broadcast agent_id behavior event o =
    let (server, qs) = buffer_event agent_id behavior event o.server in
    record { server = server; pending = pend_all qs event o.pending }

abbrev pub start_all_ignored : String → List String → Overlapped → Overlapped
start_all_ignored agent_id [] o = o
start_all_ignored agent_id (event ∷ events) o =
    start_all_ignored agent_id events (start_broadcast agent_id ignore event o)

abbrev pub put_oldest : ℕ → List String → Overlapped → Overlapped
put_oldest q [] o = o
put_oldest q (event ∷ later) o = record {
  server = deliver_event event (q ∷ []) o.server;
  pending = λ p. if q == p then later else o.pending p;
}

-- A call up to the end of its section, or the oldest put that is due to a queue.
pub data Step : Type 0 where
  calls : Call → Step
  puts : ℕ → Step

abbrev pub step : Step → Overlapped → Overlapped
step (calls (registers agent_id)) o = record o { server = (register agent_id o.server).0 }
step (calls (unregisters agent_id q)) o = record o { server = unregister agent_id q o.server }
step (calls (broadcasts agent_id behavior event)) o = start_broadcast agent_id behavior event o
step (calls (broadcasts_ignored agent_id events)) o = start_all_ignored agent_id events o
step (calls shuts_down) o = record o { server = shutdown o.server }
step (puts q) o = put_oldest q (o.pending q) o

abbrev pub overlap : List Step → Overlapped → Overlapped
overlap [] o = o
overlap (s ∷ steps) o = overlap steps (step s o)

abbrev pub calls_of : List Step → List Call
calls_of [] = []
calls_of (calls call ∷ steps) = call ∷ calls_of steps
calls_of (puts q ∷ steps) = calls_of steps

-- The queues once the puts that are due are made.
abbrev pub settled : Overlapped → EventQueues
settled o = record o.server { contents = λ p. o.server.contents p ++ map some (o.pending p) }

map_snoc : (xs : List String) (x : String) → map some (xs ++ x ∷ []) ≡ map some xs ++ some x ∷ []
map_snoc [] x = refl
map_snoc (y ∷ xs) x = cc (map_snoc xs x)

put_all-pend_all :
    (qs : List ℕ) (event : String) (contents : ℕ → List (Option String)) (pending : ℕ → List String)
    → put_all qs (some event) (λ p. contents p ++ map some (pending p))
      ≡ (λ p. contents p ++ map some (pend_all qs event pending p))
unfolding put_all pend_all
put_all-pend_all [] event contents pending = refl
put_all-pend_all (q ∷ qs) event contents pending =
    let one : put_nowait q (some event ∷ []) (λ p. contents p ++ map some (pending p))
        ≡ (λ p. contents p ++ map some (if q == p then pending p ++ event ∷ [] else pending p)) =
      fun_ext λ p. ground (
        arith,
        map_snoc (pending p) event,
        append_assoc (contents p) (map some (pending p)) (some event ∷ []),
      ) in
    ap (put_all qs (some event)) one
    ∙ put_all-pend_all qs event contents
        (λ p. if q == p then pending p ++ event ∷ [] else pending p)

pub start_broadcast-settled :
    (b : String) (behavior : BufferBehavior) (event : String) (o : Overlapped)
    → settled (start_broadcast b behavior event o) ≡ broadcast b behavior event (settled o)
unfolding broadcast
start_broadcast-settled b behavior event o =
    ap (λ contents. record (buffer_event b behavior event o.server).0 { contents = contents })
      (sym (put_all-pend_all (members b o.server) event o.server.contents o.pending))

pub start_all_ignored-settled :
    (b : String) (events : List String) (o : Overlapped)
    → settled (start_all_ignored b events o) ≡ broadcast_all_ignored b events (settled o)
unfolding broadcast_all_ignored
start_all_ignored-settled b [] o = refl
start_all_ignored-settled b (event ∷ events) o =
    start_all_ignored-settled b events (start_broadcast b ignore event o)
    ∙ ap (broadcast_all_ignored b events) (start_broadcast-settled b ignore event o)

pub puts-settled :
    (q : ℕ) (pending : List String) (o : Overlapped)
    → o.pending q ≡ pending
    → settled (put_oldest q pending o) ≡ settled o
unfolding put_all
puts-settled q [] o e = refl
puts-settled q (event ∷ later) o e =
    ap (λ contents. record o.server { contents = contents })
      (fun_ext λ p. elim (Bool-cases (q == p)) [
        | inl here ↦
            let same : q ≡ p = ground (arith, here) in
            ground (
              arith,
              here,
              ap o.pending same,
              e,
              append_assoc (o.server.contents p) (some event ∷ []) (map some later),
            )
        | inr other ↦ ground (arith, other)
      ])

-- What a subscription does while the server runs.
abbrev pub opened : String → EventQueues → EventQueues
opened b s = record s {
  next_queue = suc s.next_queue;
  contents = put_nowait s.next_queue (map some (listed (get s.event_buffers b))) s.contents;
  queues = put s.queues b (listed (get s.queues b) ++ s.next_queue ∷ []);
}

pub register-opened :
    (b : String) (s : EventQueues) → s.is_shutdown ≡ false → (register b s).0 ≡ opened b s
unfolding register
register-opened b s runs = ground (arith, runs)

pub register-settled :
    (b : String) (o : Overlapped)
    → o.server.is_shutdown ≡ false
    → o.pending o.server.next_queue ≡ []
    → settled (record o { server = (register b o.server).0 }) ≡ (register b (settled o)).0
register-settled b o runs e =
    let q = o.server.next_queue in
    let items = map some (listed (get o.server.event_buffers b)) in
    let contents = o.server.contents in
    let same : (λ p. put_nowait q items contents p ++ map some (o.pending p))
        ≡ put_nowait q items (λ p. contents p ++ map some (o.pending p)) =
      fun_ext λ p. elim (Bool-cases (q == p)) [
        | inl here ↦
            let equal : q ≡ p = ground (arith, here) in
            let due : o.pending p ≡ [] = ap o.pending (sym equal) ∙ e in
            rw (here, due)
              (append-nil (contents p ++ items)
                ∙ ap (λ c. c ++ items) (sym (append-nil (contents p))))
        | inr other ↦ rw other refl
      ] in
    ap (λ server. settled (record o { server = server })) (register-opened b o.server runs)
    ∙ ap
        (λ new. record o.server {
          next_queue = suc q;
          contents = new;
          queues = put o.server.queues b (listed (get o.server.queues b) ++ q ∷ []);
        })
        same
    ∙ sym (register-opened b (settled o) runs)

pub unregister-settled :
    (b : String) (q : ℕ) (o : Overlapped)
    → settled (record o { server = unregister b q o.server }) ≡ unregister b q (settled o)
unregister-settled b q o = elim (Option-cases (get o.server.queues b)) [
  | inl e ↦
      ap (λ server. settled (record o { server = server })) (unregister-none b q o.server e)
      ∙ sym (unregister-none b q (settled o) e)
  | inr (qs, e) ↦
      ap (λ server. settled (record o { server = server })) (unregister-some b q qs o.server e)
      ∙ sym (unregister-some b q qs (settled o) e)
]

pub pend_all-none :
    (p : ℕ) (qs : List ℕ) (event : String) (pending : ℕ → List String)
    → count p qs ≡ 0
    → pend_all qs event pending p ≡ pending p
unfolding pend_all count
pend_all-none p [] event pending h = refl
pend_all-none p (q ∷ qs) event pending h = ground (
  arith,
  h,
  pend_all-none p qs event (λ p. if q == p then pending p ++ event ∷ [] else pending p),
)
