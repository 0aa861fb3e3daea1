-- ===== src/Interface/EventQueues/Calls.antt =====
-- Calls on the queues of apps/system_interface/imbue/system_interface/event_queues.py,
-- what they send, and how often a queue is subscribed.
use forever_claude_template.Base.{
  ℕ, suc, ◌≤◌, String, ◌≡◌, refl, inl, inr, true, false, Bool-cases, Option, some, List, [], ◌∷◌,
  ◌++◌, map, arith, ◌==◌, if◌then◌else◌, Dict, get, get-put, get-remove, text_eq, str_eq, eq_iff,
}
use forever_claude_template.Interface.EventQueues.{
  BufferBehavior, store, ignore, flush, EventQueues, listed, put_nowait, put_all, register,
  erase_queue, put_queues, unregister, broadcast, broadcast_all_ignored, shutdown,
}

pub data Call : Type 0 where
  registers : String → Call
  unregisters : String → ℕ → Call
  broadcasts : String → BufferBehavior → String → Call
  broadcasts_ignored : String → List String → Call
  shuts_down : Call

unfoldable pub step : Call → EventQueues → EventQueues
unfolding register unregister broadcast broadcast_all_ignored shutdown
step (registers agent_id) s = (register agent_id s).0
step (unregisters agent_id q) s = unregister agent_id q s
step (broadcasts agent_id behavior event) s = broadcast agent_id behavior event s
step (broadcasts_ignored agent_id events) s = broadcast_all_ignored agent_id events s
step shuts_down s = shutdown s

unfoldable pub run : List Call → EventQueues → EventQueues
unfolding step
run [] s = s
run (call ∷ calls) s = run calls (step call s)

abbrev pub members : String → EventQueues → List ℕ
members agent_id s = listed (get s.queues agent_id)

unfoldable pub count : ℕ → List ℕ → ℕ
count q [] = 0
count q (p ∷ ps) = if p == q then suc (count q ps) else count q ps

-- The events of an agent that are kept for replay, from the calls alone.
abbrev pub after_call : String → Call → List String → List String
after_call a (broadcasts b store event) kept = if str_eq b a then kept ++ event ∷ [] else kept
after_call a (broadcasts b flush event) kept = if str_eq b a then [] else kept
after_call a shuts_down kept = []
after_call a _ kept = kept

unfoldable pub replayed : String → List Call → List String → List String
replayed a [] kept = kept
replayed a (call ∷ calls) kept = replayed a calls (after_call a call kept)

-- The events that the calls send to an agent's subscribers.
abbrev pub sent_by : String → Call → List String
sent_by a (broadcasts b behavior event) = if str_eq b a then event ∷ [] else []
sent_by a (broadcasts_ignored b events) = if str_eq b a then events else []
sent_by a _ = []

unfoldable pub sent : String → List Call → List String
sent a [] = []
sent a (call ∷ calls) = sent_by a call ++ sent a calls

-- No call ends the subscription of the queue.
abbrev pub Keeps : ℕ → List Call → Type 0
Keeps q [] = Unit
Keeps q (unregisters agent_id p ∷ calls) = ((p == q) ≡ false) × Keeps q calls
Keeps q (shuts_down ∷ calls) = false ≡ true
Keeps q (call ∷ calls) = Keeps q calls

pub count-append :
    (p q : ℕ) (qs : List ℕ)
    → count p (qs ++ q ∷ []) ≡ (if q == p then suc (count p qs) else count p qs)
unfolding count
count-append p q [] = ground arith
count-append p q (r ∷ qs) = ground (arith, count-append p q qs)

pub count-erase_queue :
    (p q : ℕ) (qs : List ℕ) → (q == p) ≡ false → count p (erase_queue q qs) ≡ count p qs
unfolding count erase_queue
count-erase_queue p q [] h = refl
count-erase_queue p q (r ∷ qs) h = ground (arith, count-erase_queue p q qs)

pub count-erase_le : (p q : ℕ) (qs : List ℕ) → count p qs ≡ 0 → count p (erase_queue q qs) ≡ 0
unfolding count erase_queue
count-erase_le p q [] h = refl
count-erase_le p q (r ∷ qs) h = ground (arith, count-erase_le p q qs)

pub put_all-none :
    (p : ℕ) (qs : List ℕ) (item : Option String) (contents : ℕ → List (Option String))
    → count p qs ≡ 0
    → put_all qs item contents p ≡ contents p
unfolding put_all count
put_all-none p [] item contents h = refl
put_all-none p (q ∷ qs) item contents h =
    ground (arith, put_all-none p qs item (put_nowait q (item ∷ []) contents))

put_all-one :
    (p : ℕ) (qs : List ℕ) (item : Option String) (contents : ℕ → List (Option String))
    → count p qs ≡ 1
    → put_all qs item contents p ≡ contents p ++ item ∷ []
unfolding put_all count
put_all-one p [] item contents h = ground arith
put_all-one p (q ∷ qs) item contents h = ground (
  arith,
  put_all-one p qs item (put_nowait q (item ∷ []) contents),
  put_all-none p qs item (put_nowait q (item ∷ []) contents),
)

pub get-put_queues :
    (a b : String) (qs : List ℕ) (queues : Dict String (List ℕ))
    → listed (get (put_queues a qs queues) b) ≡ (if str_eq a b then qs else listed (get queues b))
get-put_queues a b [] queues = ground (arith, get-remove queues a b)
get-put_queues a b (q ∷ qs) queues = ground (arith, get-put queues a b (q ∷ qs))

-- The queue is subscribed to the agent once, and to no other agent.
pub record Subscribed (a : String) (q : ℕ) (s : EventQueues) : Type 0 where
  pub once : (b : String) → count q (members b s) ≡ (if str_eq a b then 1 else 0)
  pub given : suc q ≤ s.next_queue
  pub is_open : s.is_shutdown ≡ false

-- No queue that is still to come is subscribed or holds anything.
unfoldable pub Fresh : EventQueues → Type 0
Fresh s =
    (p : ℕ) → s.next_queue ≤ p → (s.contents p ≡ []) × ((b : String) → count p (members b s) ≡ 0)

pub map-append : (xs ys : List String) → map some (xs ++ ys) ≡ map some xs ++ map some ys
map-append [] ys = refl
map-append (x ∷ xs) ys = cc (map-append xs ys)

pub append_assoc : (xs ys zs : List (Option String)) → (xs ++ ys) ++ zs ≡ xs ++ (ys ++ zs)
append_assoc [] ys zs = refl
append_assoc (x ∷ xs) ys zs = cc (append_assoc xs ys zs)

pub append-nil : (xs : List (Option String)) → xs ++ [] ≡ xs
append-nil [] = refl
append-nil (x ∷ xs) = cc (append-nil xs)

pub broadcast-content :
    (a b : String) (behavior : BufferBehavior) (event : String) (q : ℕ) (s : EventQueues)
    → Subscribed a q s
    → (broadcast b behavior event s).contents q
      ≡ s.contents q ++ map some (sent_by a (broadcasts b behavior event))
unfolding broadcast
broadcast-content a b behavior event q s w = elim (Bool-cases (str_eq a b)) [
  | inl e ↦
      let one : count q (members b s) ≡ 1 = ground (arith, w.once b) in
      let same : str_eq b a ≡ true = ground (arith, eq_iff a b, eq_iff b a) in
      rw same (put_all-one q (members b s) (some event) s.contents one)
  | inr e ↦
      let zero_times : count q (members b s) ≡ 0 = ground (arith, w.once b) in
      let other : str_eq b a ≡ false = ground (arith, eq_iff a b, eq_iff b a) in
      rw other (
        cc (
          put_all-none q (members b s) (some event) s.contents zero_times,
          append-nil (s.contents q),
        ))
]

pub broadcast-Subscribed :
    (a b : String) (behavior : BufferBehavior) (event : String) (q : ℕ) (s : EventQueues)
    → Subscribed a q s
    → Subscribed a q (broadcast b behavior event s)
unfolding broadcast
broadcast-Subscribed a b behavior event q s w = record {
  once = w.once;
  given = w.given;
  is_open = w.is_open;
}

pub ignored-content :
    (a b : String) (events : List String) (q : ℕ) (s : EventQueues)
    → Subscribed a q s
    → ((broadcast_all_ignored b events s).contents q
        ≡ s.contents q ++ map some (sent_by a (broadcasts_ignored b events)))
      × Subscribed a q (broadcast_all_ignored b events s)
unfolding broadcast_all_ignored
ignored-content a b [] q s w = (ground (arith, append-nil (s.contents q)), w)
ignored-content a b (event ∷ events) q s w =
    let t = broadcast b ignore event s in
    let w' = broadcast-Subscribed a b ignore event q s w in
    let rest = ignored-content a b events q t w' in
    let first = broadcast-content a b ignore event q s w in
    (
      ground (
        arith,
        first,
        rest.0,
        append-nil (s.contents q),
        append_assoc (s.contents q) (some event ∷ []) (map some events),
      ),
      rest.1,
    )
