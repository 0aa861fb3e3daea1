-- ===== src/Interface/Broadcaster/Delivery.antt =====
-- Who gets a broadcast: apps/system_interface/imbue/system_interface/ws_broadcaster.py.
use forever_claude_template.Base.{
  ℕ, String, ◌≡◌, refl, inl, inr, Bool-cases, true, false, not, Option, none, List, [], ◌∷◌, arith,
  if◌then◌else◌, get, nat_eq,
}
use forever_claude_template.Interface.Broadcaster.{
  Broadcaster, mem, count_of, deliver, deliver_all, unregister, disconnect, disconnect_all,
  broadcast_to_matching,
}
use forever_claude_template.Interface.Broadcaster.Rounds.{
  DistinctQueues, fate_in, content_after, count_after, is_given_up, deliver_all-frame,
  deliver_all-absent, deliver_all-own,
}
use forever_claude_template.Interface.Broadcaster.Evictions.{
  disconnect-DistinctQueues, disconnect_all-other, disconnect_all-IsGone,
}

-- A broadcast does to each registered client what its own report, backlog and count decide,
-- whatever the other clients are: the text is put at the end of the queue of a client that is
-- targeted and has room, and its count starts again from 0; a targeted client whose queue is full
-- loses the text and counts one more; with the fiftieth loss in a row it is forgotten, and its queue
-- then holds the sentinel alone; a client that is not targeted keeps its queue and count.
pub broadcast_to_matching-fate :
    (target : Option String) (text : String) (p : ℕ) (s : Broadcaster)
    → DistinctQueues s.client_queues
    → mem p s.client_queues ≡ true
    → ((broadcast_to_matching target text s).contents p
        ≡ content_after (fate_in target p s) text (s.contents p))
      × (count_of (get (broadcast_to_matching target text s).consecutive_full p)
          ≡ count_after (fate_in target p s) (count_of (get s.consecutive_full p)))
      × (get (broadcast_to_matching target text s).client_infos p
          ≡ (if is_given_up (fate_in target p s) then none else get s.client_infos p))
      × (mem p (broadcast_to_matching target text s).client_queues
          ≡ not (is_given_up (fate_in target p s)))
unfolding broadcast_to_matching
broadcast_to_matching-fate target text p s d h =
    let sent = deliver_all target text s.client_queues s in
    let frame = deliver_all-frame target text s.client_queues s in
    let own = deliver_all-own target text p s.client_queues s d h in
    let d' : DistinctQueues sent.0.client_queues = rw frame.0 d in
    elim (Bool-cases (mem p sent.1)) [
      | inl e ↦
          let gone = disconnect_all-IsGone p sent.1 sent.0 d' e in
          (ground arith, ground arith, ground arith, ground arith)
      | inr e ↦
          let other = disconnect_all-other p sent.1 sent.0 d' e in
          (ground arith, ground arith, ground arith, ground arith)
    ]

pub broadcast_to_matching-absent :
    (target : Option String) (text : String) (p : ℕ) (s : Broadcaster)
    → DistinctQueues s.client_queues
    → mem p s.client_queues ≡ false
    → ((broadcast_to_matching target text s).contents p ≡ s.contents p)
      × (get (broadcast_to_matching target text s).consecutive_full p ≡ get s.consecutive_full p)
      × (get (broadcast_to_matching target text s).client_infos p ≡ get s.client_infos p)
      × (mem p (broadcast_to_matching target text s).client_queues ≡ false)
unfolding broadcast_to_matching
broadcast_to_matching-absent target text p s d h =
    let sent = deliver_all target text s.client_queues s in
    let frame = deliver_all-frame target text s.client_queues s in
    let kept = deliver_all-absent target text p s.client_queues s h in
    let d' : DistinctQueues sent.0.client_queues = rw frame.0 d in
    let other = disconnect_all-other p sent.1 sent.0 d' kept.2 in (cc, cc, cc, cc)

disconnect-next_queue : (q : ℕ) (s : Broadcaster) → (disconnect q s).next_queue ≡ s.next_queue
unfolding disconnect unregister
disconnect-next_queue q s = refl

deliver-next_queue :
    (target : Option String) (text : String) (q : ℕ) (s : Broadcaster)
    → (deliver target text q s).0.next_queue ≡ s.next_queue
unfolding deliver
deliver-next_queue target text q s = ground arith

disconnect_all-frame :
    (ds : List ℕ) (s : Broadcaster)
    → DistinctQueues s.client_queues
    → DistinctQueues (disconnect_all ds s).client_queues
      × ((disconnect_all ds s).next_queue ≡ s.next_queue)
unfolding disconnect_all
disconnect_all-frame [] s d = (d, refl)
disconnect_all-frame (q ∷ ds) s d =
    let rest = disconnect_all-frame ds (disconnect q s) (disconnect-DistinctQueues q s d) in
    (rest.0, cc (rest.1, disconnect-next_queue q s))

deliver_all-next_queue :
    (target : Option String) (text : String) (qs : List ℕ) (s : Broadcaster)
    → (deliver_all target text qs s).0.next_queue ≡ s.next_queue
unfolding deliver_all
deliver_all-next_queue target text [] s = refl
deliver_all-next_queue target text (q ∷ qs) s = cc (
  deliver_all-next_queue target text qs (deliver target text q s).0,
  deliver-next_queue target text q s,
)

pub broadcast_to_matching-frame :
    (target : Option String) (text : String) (s : Broadcaster)
    → DistinctQueues s.client_queues
    → DistinctQueues (broadcast_to_matching target text s).client_queues
      × ((broadcast_to_matching target text s).next_queue ≡ s.next_queue)
unfolding broadcast_to_matching
broadcast_to_matching-frame target text s d =
    let sent = deliver_all target text s.client_queues s in
    let frame = deliver_all-frame target text s.client_queues s in
    let rest = disconnect_all-frame sent.1 sent.0 (rw frame.0 d) in
    (rest.0, cc (rest.1, deliver_all-next_queue target text s.client_queues s))
