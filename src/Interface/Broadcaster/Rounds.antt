-- ===== src/Interface/Broadcaster/Rounds.antt =====
-- What one client gets in the loop over all: apps/system_interface/imbue/system_interface/ws_broadcaster.py.
use forever_claude_template.Base.{
  ℕ, ◌+◌, String, ◌≡◌, refl, inl, inr, Bool-cases, Bool, true, false, ◌&&◌, not, Option, none, some,
  List, [], ◌∷◌, ◌++◌, arith, length, ltb, leb, ◌==◌, if◌then◌else◌, get, get-put, nat_eq,
}
use forever_claude_template.Interface.Broadcaster.{
  client_queue_max_size, max_consecutive_queue_full, Item, ClientInfo, Broadcaster, mem, erase,
  is_target, count_of, deliver, deliver_all,
}

abbrev pub DistinctQueues : List ℕ → Type 0
DistinctQueues [] = Unit
DistinctQueues (q ∷ qs) = (mem q qs ≡ false) × DistinctQueues qs

-- What one broadcast does to one client, from that client's own queue, count and report.
pub data Fate : Type 0 where
  passed_over delivered stalled given_up : Fate

unfoldable pub fate : Option String → Option ClientInfo → ℕ → ℕ → Fate
fate target info waiting full =
    if not (is_target target info)
    then passed_over
    else if ltb waiting client_queue_max_size
    then delivered
    else if leb max_consecutive_queue_full (full + 1)
    then given_up
    else stalled

abbrev pub fate_in : Option String → ℕ → Broadcaster → Fate
fate_in target q s =
    fate target (get s.client_infos q) (length (s.contents q)) (count_of (get s.consecutive_full q))

abbrev pub content_after : Fate → String → List Item → List Item
content_after delivered text items = items ++ some text ∷ []
content_after given_up text items = none ∷ []
content_after _ text items = items

abbrev pub count_after : Fate → ℕ → ℕ
count_after delivered n = 0
count_after stalled n = n + 1
count_after given_up n = 0
count_after passed_over n = n

abbrev pub is_given_up : Fate → Bool
is_given_up given_up = true
is_given_up _ = false

pub mem-erase :
    (p q : ℕ) (qs : List ℕ) → DistinctQueues qs → mem p (erase q qs) ≡ (mem p qs && not (q == p))
unfolding mem erase
mem-erase p q [] d = refl
mem-erase p q (r ∷ qs) d = ground (arith, mem-erase p q qs)

pub erase-DistinctQueues : (q : ℕ) (qs : List ℕ) → DistinctQueues qs → DistinctQueues (erase q qs)
unfolding erase mem
erase-DistinctQueues q [] d = d
erase-DistinctQueues q (r ∷ qs) d = elim (Bool-cases (r == q)) [
  | inl e ↦ rw e d.1
  | inr e ↦ rw e (ground (arith, mem-erase r q qs), erase-DistinctQueues q qs d.1)
]

-- What a round of the loop leaves for one client.
abbrev pub content_sent : Fate → String → List Item → List Item
content_sent delivered text items = items ++ some text ∷ []
content_sent _ text items = items

abbrev pub count_sent : Fate → ℕ → ℕ
count_sent delivered n = 0
count_sent passed_over n = n
count_sent _ n = n + 1

pub deliver-own :
    (target : Option String) (text : String) (q : ℕ) (s : Broadcaster)
    → ((deliver target text q s).0.contents q
        ≡ content_sent (fate_in target q s) text (s.contents q))
      × (count_of (get (deliver target text q s).0.consecutive_full q)
          ≡ count_sent (fate_in target q s) (count_of (get s.consecutive_full q)))
      × ((deliver target text q s).1 ≡ is_given_up (fate_in target q s))
      × ((deliver target text q s).0.client_queues ≡ s.client_queues)
      × ((deliver target text q s).0.client_infos ≡ s.client_infos)
unfolding deliver fate
deliver-own target text q s = (
  ground (arith),
  ground (
    arith,
    get-put s.consecutive_full q q 0,
    get-put s.consecutive_full q q (count_of (get s.consecutive_full q) + 1),
  ),
  ground (arith),
  ground (arith),
  ground (arith),
)

pub deliver-other :
    (target : Option String) (text : String) (q p : ℕ) (s : Broadcaster)
    → (q == p) ≡ false
    → ((deliver target text q s).0.contents p ≡ s.contents p)
      × (get (deliver target text q s).0.consecutive_full p ≡ get s.consecutive_full p)
unfolding deliver
deliver-other target text q p s h = (
  ground (arith),
  ground (
    arith,
    get-put s.consecutive_full q p 0,
    get-put s.consecutive_full q p (count_of (get s.consecutive_full q) + 1),
  ),
)

pub deliver_all-frame :
    (target : Option String) (text : String) (qs : List ℕ) (s : Broadcaster)
    → ((deliver_all target text qs s).0.client_queues ≡ s.client_queues)
      × ((deliver_all target text qs s).0.client_infos ≡ s.client_infos)
unfolding deliver_all
deliver_all-frame target text [] s = (refl, refl)
deliver_all-frame target text (q ∷ qs) s =
    let own = deliver-own target text q s in
    let rest = deliver_all-frame target text qs (deliver target text q s).0 in (cc, cc)

pub deliver_all-absent :
    (target : Option String) (text : String) (p : ℕ) (qs : List ℕ) (s : Broadcaster)
    → mem p qs ≡ false
    → ((deliver_all target text qs s).0.contents p ≡ s.contents p)
      × (get (deliver_all target text qs s).0.consecutive_full p ≡ get s.consecutive_full p)
      × (mem p (deliver_all target text qs s).1 ≡ false)
unfolding deliver_all mem
deliver_all-absent target text p [] s h = (refl, refl, refl)
deliver_all-absent target text p (q ∷ qs) s h =
    let n : (q == p) ≡ false = ground arith in
    let other = deliver-other target text q p s n in
    let rest = deliver_all-absent target text p qs (deliver target text q s).0 (ground arith) in
    (cc, cc, ground arith)

pub deliver_all-own :
    (target : Option String) (text : String) (p : ℕ) (qs : List ℕ) (s : Broadcaster)
    → DistinctQueues qs
    → mem p qs ≡ true
    → ((deliver_all target text qs s).0.contents p
        ≡ content_sent (fate_in target p s) text (s.contents p))
      × (count_of (get (deliver_all target text qs s).0.consecutive_full p)
          ≡ count_sent (fate_in target p s) (count_of (get s.consecutive_full p)))
      × (mem p (deliver_all target text qs s).1 ≡ is_given_up (fate_in target p s))
unfolding deliver_all mem
deliver_all-own target text p [] s d h = cc
deliver_all-own target text p (q ∷ qs) s d h =
    let after = (deliver target text q s).0 in
    let own = deliver-own target text q s in
    elim (Bool-cases (q == p)) [
      | inl e ↦
          let same : q ≡ p = ground arith in
          let absent : mem p qs ≡ false = cc in
          let rest = deliver_all-absent target text p qs after absent in (cc, cc, ground arith)
      | inr e ↦
          let other = deliver-other target text q p s e in
          let rest = deliver_all-own target text p qs after d.1 (ground arith) in
          (cc, cc, ground arith)
    ]
