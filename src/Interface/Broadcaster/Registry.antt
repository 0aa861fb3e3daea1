-- ===== src/Interface/Broadcaster/Registry.antt =====
-- The registry of clients over a whole run:
-- apps/system_interface/imbue/system_interface/ws_broadcaster.py.
use forever_claude_template.Base.{
  ℕ, ◌≤◌, ◌<◌, String, ◌≡◌, refl, inl, inr, true, false, ◌||◌, Bool-cases, Option, none, some, List,
  [], ◌∷◌, ◌++◌, arith, length, length-append, ◌==◌, get, get-put, get-remove, nat_eq,
}
use forever_claude_template.Interface.Broadcaster.{
  client_queue_max_size, max_consecutive_queue_full, Item, ClientInfo, Broadcaster, empty, update,
  mem, count_of, register, unregister, set_client_info, broadcast_to_matching, end_all, shutdown,
  after_first, take_item,
}
use forever_claude_template.Interface.Broadcaster.Rounds.{
  DistinctQueues, fate, fate_in, content_after, count_after, is_given_up, mem-erase,
  erase-DistinctQueues,
}
use forever_claude_template.Interface.Broadcaster.Delivery.{
  broadcast_to_matching-fate, broadcast_to_matching-absent, broadcast_to_matching-frame,
}

-- What happens to the broadcaster: a connection opens or closes, a client reports itself, a message
-- is broadcast, a handler thread takes an item, the server stops.
pub data Event : Type 0 where
  connect : Event
  closed : ℕ → Event
  reported : ℕ → ClientInfo → Event
  sent : Option String → String → Event
  taken : ℕ → Event
  stopped : Event

unfoldable pub step : Event → Broadcaster → Broadcaster
unfolding register unregister set_client_info broadcast_to_matching take_item shutdown
step connect s = (register s).0
step (closed q) s = unregister q s
step (reported q info) s = set_client_info q info s
step (sent target text) s = broadcast_to_matching target text s
step (taken q) s = take_item q s
step stopped s = shutdown s

unfoldable pub run : List Event → Broadcaster → Broadcaster
unfolding step
run [] s = s
run (event ∷ events) s = run events (step event s)

pub record WellFormed (s : Broadcaster) : Type 0 where
  pub distinct : DistinctQueues s.client_queues
  pub fresh : (p : ℕ) → s.next_queue ≤ p → mem p s.client_queues ≡ false
  pub bounded : (p : ℕ) → length (s.contents p) ≤ client_queue_max_size
  pub counted : (p : ℕ) → count_of (get s.consecutive_full p) < max_consecutive_queue_full
  pub forgotten :
      (p : ℕ)
      → mem p s.client_queues ≡ false
      → (count_of (get s.consecutive_full p) ≡ 0) × (get s.client_infos p ≡ none)

empty-WellFormed : WellFormed empty
unfolding get mem
empty-WellFormed = record {
  distinct = tt;
  fresh = λ p _. refl;
  bounded = λ p. omega arith;
  counted = λ p. omega arith;
  forgotten = λ p _. (refl, refl);
}

mem-append : (p q : ℕ) (qs : List ℕ) → mem p (qs ++ q ∷ []) ≡ (mem p qs || q == p)
unfolding mem
mem-append p q [] = ground arith
mem-append p q (r ∷ qs) = ground (arith, mem-append p q qs)

append-DistinctQueues :
    (q : ℕ) (qs : List ℕ) → DistinctQueues qs → mem q qs ≡ false → DistinctQueues (qs ++ q ∷ [])
unfolding mem
append-DistinctQueues q [] d h = (refl, d)
append-DistinctQueues q (r ∷ qs) d h =
    (ground (arith, mem-append r q qs), append-DistinctQueues q qs d.1 (ground arith))

register-WellFormed : (s : Broadcaster) → WellFormed s → WellFormed (register s).0
unfolding register
register-WellFormed s w = record {
  distinct =
      append-DistinctQueues s.next_queue s.client_queues w.distinct
        (w.fresh s.next_queue (omega arith));
  fresh = λ p h. ground (arith, w.fresh p, mem-append p s.next_queue s.client_queues);
  bounded = w.bounded;
  counted = λ p. ground (arith, w.counted p, get-put s.consecutive_full s.next_queue p 0);
  forgotten = λ p h.
      let other : mem p s.client_queues ≡ false =
        ground (arith, mem-append p s.next_queue s.client_queues) in
      let old = w.forgotten p other in
      (ground (arith, get-put s.consecutive_full s.next_queue p 0), old.1);
}

unregister-WellFormed : (q : ℕ) (s : Broadcaster) → WellFormed s → WellFormed (unregister q s)
unfolding unregister
unregister-WellFormed q s w = record {
  distinct = erase-DistinctQueues q s.client_queues w.distinct;
  fresh = λ p h. ground (arith, w.fresh p, mem-erase p q s.client_queues w.distinct);
  bounded = w.bounded;
  counted = λ p. ground (arith, w.counted p, get-remove s.consecutive_full q p);
  forgotten = λ p h. elim (Bool-cases (q == p)) [
    | inl e ↦ (
      ground (arith, get-remove s.consecutive_full q p),
      ground (arith, get-remove s.client_infos q p),
    )
    | inr e ↦
        let old = w.forgotten p (ground (arith, mem-erase p q s.client_queues w.distinct)) in
        (
          ground (arith, get-remove s.consecutive_full q p),
          ground (arith, get-remove s.client_infos q p),
        )
  ];
}

-- A registered queue is not one that is absent.
mem-differs : (p q : ℕ) (qs : List ℕ) → mem q qs ≡ true → mem p qs ≡ false → (q == p) ≡ false
mem-differs p q qs a b = elim (Bool-cases (q == p)) [
  | inl e ↦ let same : q ≡ p = ground arith in cc
  | inr e ↦ e
]

set_client_info-WellFormed :
    (q : ℕ) (info : ClientInfo) (s : Broadcaster)
    → WellFormed s
    → WellFormed (set_client_info q info s)
unfolding set_client_info
set_client_info-WellFormed q info s w = elim (Bool-cases (mem q s.client_queues)) [
  | inl e ↦ rw e record {
    distinct = w.distinct;
    fresh = w.fresh;
    bounded = w.bounded;
    counted = w.counted;
    forgotten = λ p h.
        let old = w.forgotten p h in
        let other : (q == p) ≡ false = mem-differs p q s.client_queues e h in
        (old.0, ground (arith, get-put s.client_infos q p info));
  }
  | inr e ↦ rw e w
]

length-content_after :
    (target : Option String) (text : String) (p : ℕ) (s : Broadcaster)
    → length (s.contents p) ≤ client_queue_max_size
    → length (content_after (fate_in target p s) text (s.contents p)) ≤ client_queue_max_size
unfolding fate
length-content_after target text p s h =
    ground (arith, length-append (s.contents p) (some text ∷ []))

count_after-bound :
    (target : Option String) (p : ℕ) (s : Broadcaster)
    → count_of (get s.consecutive_full p) < max_consecutive_queue_full
    → count_after (fate_in target p s) (count_of (get s.consecutive_full p))
      < max_consecutive_queue_full
unfolding fate
count_after-bound target p s h = ground arith

-- A client is dropped only when it is given up, and then nothing is kept about it.
count_after-forgotten :
    (target : Option String) (p : ℕ) (s : Broadcaster)
    → is_given_up (fate_in target p s) ≡ true
    → count_after (fate_in target p s) (count_of (get s.consecutive_full p)) ≡ 0
unfolding fate
count_after-forgotten target p s h = ground arith

broadcast-WellFormed :
    (target : Option String) (text : String) (s : Broadcaster)
    → WellFormed s
    → WellFormed (broadcast_to_matching target text s)
broadcast-WellFormed target text s w =
    let frame = broadcast_to_matching-frame target text s w.distinct in
    let absent = λ (p : ℕ). broadcast_to_matching-absent target text p s w.distinct in
    let own = λ (p : ℕ). broadcast_to_matching-fate target text p s w.distinct in
    record {
      distinct = frame.0;
      fresh = λ p h. (absent p (w.fresh p (omega (arith, frame.1)))).3;
      bounded = λ p. elim (Bool-cases (mem p s.client_queues)) [
        | inl e ↦ rw (own p e).0 (length-content_after target text p s (w.bounded p))
        | inr e ↦ rw (absent p e).0 (w.bounded p)
      ];
      counted = λ p. elim (Bool-cases (mem p s.client_queues)) [
        | inl e ↦ rw (own p e).1 (count_after-bound target p s (w.counted p))
        | inr e ↦ rw (absent p e).1 (w.counted p)
      ];
      forgotten = λ p h. elim (Bool-cases (mem p s.client_queues)) [
        | inl e ↦
            let facts = own p e in
            let gone : is_given_up (fate_in target p s) ≡ true = ground arith in
            (cc (facts.1, count_after-forgotten target p s gone), ground arith)
        | inr e ↦ let facts = absent p e in let old = w.forgotten p e in (cc, cc)
      ];
    }

end_all-bounded :
    (qs : List ℕ) (contents : ℕ → List Item) (p : ℕ)
    → length (contents p) ≤ client_queue_max_size
    → length (end_all qs contents p) ≤ client_queue_max_size
unfolding end_all
end_all-bounded [] contents p h = h
end_all-bounded (q ∷ qs) contents p h =
    end_all-bounded qs (update contents q (none ∷ [])) p (ground arith)

shutdown-WellFormed : (s : Broadcaster) → WellFormed s → WellFormed (shutdown s)
unfolding shutdown get mem
shutdown-WellFormed s w = record {
  distinct = tt;
  fresh = λ p _. refl;
  bounded = λ p. end_all-bounded s.client_queues s.contents p (w.bounded p);
  counted = λ p. omega arith;
  forgotten = λ p _. (refl, refl);
}

length-after_first : (items : List Item) → length (after_first items) ≤ length items
length-after_first [] = omega arith
length-after_first (item ∷ items) = omega arith

take_item-WellFormed : (q : ℕ) (s : Broadcaster) → WellFormed s → WellFormed (take_item q s)
unfolding take_item
take_item-WellFormed q s w = record {
  distinct = w.distinct;
  fresh = w.fresh;
  bounded = λ p. elim (Bool-cases (q == p)) [
    | inl e ↦ rw e (omega (arith, w.bounded q, length-after_first (s.contents q)))
    | inr e ↦ rw e (w.bounded p)
  ];
  counted = w.counted;
  forgotten = w.forgotten;
}

step-WellFormed : (event : Event) (s : Broadcaster) → WellFormed s → WellFormed (step event s)
unfolding step
step-WellFormed connect s w = register-WellFormed s w
step-WellFormed (closed q) s w = unregister-WellFormed q s w
step-WellFormed (reported q info) s w = set_client_info-WellFormed q info s w
step-WellFormed (sent target text) s w = broadcast-WellFormed target text s w
step-WellFormed (taken q) s w = take_item-WellFormed q s w
step-WellFormed stopped s w = shutdown-WellFormed s w

run-WellFormed : (events : List Event) (s : Broadcaster) → WellFormed s → WellFormed (run events s)
unfolding run
run-WellFormed [] s w = w
run-WellFormed (event ∷ events) s w =
    run-WellFormed events (step event s) (step-WellFormed event s w)

-- However connections, reports, broadcasts, reads and shutdowns follow one another from the start,
-- no client is registered twice, no number that is still to be given is registered, a queue never
-- holds more than 1000 items, no count reaches 50, and of a client that is not registered neither a
-- positive count nor a report is kept.
pub run-empty-WellFormed : (events : List Event) → WellFormed (run events empty)
run-empty-WellFormed events = run-WellFormed events empty empty-WellFormed
