-- ===== src/Interface/EventQueues.antt =====
-- `AgentEventQueues` of apps/system_interface/imbue/system_interface/event_queues.py: the
-- subscribers of each agent and the replay buffer. A queue is a number, with all that was put in it,
-- oldest first; an event is the text of its fields without `buffer_behavior`.
pub mod Calls
pub mod Subscription
pub mod Freshness
pub mod Replay
pub mod Overlap
pub mod Delivered
use forever_claude_template.Base.{
  ℕ, suc, String, Bool, true, false, Option, none, some, List, [], ◌∷◌, ◌++◌, map, ◌==◌,
  if◌then◌else◌, Dict, get, put, remove, text_eq,
}

pub data BufferBehavior : Type 0 where
  store ignore flush : BufferBehavior

pub record EventQueues : Type 0 where
  pub queues : Dict String (List ℕ)
  pub event_buffers : Dict String (List String)
  pub is_shutdown : Bool
  pub next_queue : ℕ
  pub contents : ℕ → List (Option String)

abbrev pub empty : EventQueues
empty = record {
  queues = [];
  event_buffers = [];
  is_shutdown = false;
  next_queue = 0;
  contents = λ q. [];
}

-- `d.get(key, [])`
abbrev pub listed {ℓ} : {A : Type ℓ} → Option (List A) → List A
listed none = []
listed (some items) = items

abbrev pub put_nowait :
    ℕ → List (Option String) → (ℕ → List (Option String)) → ℕ → List (Option String)
put_nowait q items contents p = if q == p then contents p ++ items else contents p

unfoldable pub put_all :
    List ℕ → Option String → (ℕ → List (Option String)) → ℕ → List (Option String)
put_all [] item contents = contents
put_all (q ∷ qs) item contents = put_all qs item (put_nowait q (item ∷ []) contents)

unfoldable pub register : String → EventQueues → EventQueues × ℕ
register agent_id s =
    let q = s.next_queue in
    if s.is_shutdown
    then (record s { next_queue = suc q; contents = put_nowait q (none ∷ []) s.contents }, q)
    else (
      record s {
        next_queue = suc q;
        contents = put_nowait q (map some (listed (get s.event_buffers agent_id))) s.contents;
        queues = put s.queues agent_id (listed (get s.queues agent_id) ++ q ∷ []);
      },
      q,
    )

-- `list.remove`, with the ValueError of a missing item swallowed
unfoldable pub erase_queue : ℕ → List ℕ → List ℕ
erase_queue q [] = []
erase_queue q (p ∷ ps) = if p == q then ps else p ∷ erase_queue q ps

-- `if not queues: del self._queues[agent_id]`
abbrev pub put_queues : String → List ℕ → Dict String (List ℕ) → Dict String (List ℕ)
put_queues agent_id [] queues = remove queues agent_id
put_queues agent_id (q ∷ qs) queues = put queues agent_id (q ∷ qs)

unfoldable pub unregister : String → ℕ → EventQueues → EventQueues
unfolding erase_queue
unregister agent_id q s = elim (get s.queues agent_id) [
  | none ↦ s
  | some qs ↦ record s { queues = put_queues agent_id (erase_queue q qs) s.queues }
]

abbrev pub buffered :
    BufferBehavior → String → String → Dict String (List String) → Dict String (List String)
buffered store agent_id event buffers =
    put buffers agent_id (listed (get buffers agent_id) ++ event ∷ [])
buffered ignore agent_id event buffers = buffers
buffered flush agent_id event buffers = remove buffers agent_id

-- `broadcast`: its section under the lock, with the copy of the queues.
abbrev pub buffer_event : String → BufferBehavior → String → EventQueues → EventQueues × List ℕ
buffer_event agent_id behavior event s = (
  record s { event_buffers = buffered behavior agent_id event s.event_buffers },
  listed (get s.queues agent_id),
)

-- `broadcast`: the puts after the section.
abbrev pub deliver_event : String → List ℕ → EventQueues → EventQueues
deliver_event event qs s = record s { contents = put_all qs (some event) s.contents }

-- `broadcast`, where its puts end before another call begins; Overlap has the two apart.
unfoldable pub broadcast : String → BufferBehavior → String → EventQueues → EventQueues
unfolding put_all
broadcast agent_id behavior event s =
    let (t, qs) = buffer_event agent_id behavior event s in deliver_event event qs t

unfoldable pub broadcast_all_ignored : String → List String → EventQueues → EventQueues
unfolding broadcast
broadcast_all_ignored agent_id [] s = s
broadcast_all_ignored agent_id (event ∷ events) s =
    broadcast_all_ignored agent_id events (broadcast agent_id ignore event s)

unfoldable pub end_all :
    Dict String (List ℕ) → (ℕ → List (Option String)) → ℕ → List (Option String)
unfolding put_all
end_all [] contents = contents
end_all ((agent_id, qs) ∷ queues) contents = end_all queues (put_all qs none contents)

unfoldable pub shutdown : EventQueues → EventQueues
unfolding end_all
shutdown s = record s {
  is_shutdown = true;
  contents = end_all s.queues s.contents;
  queues = [];
  event_buffers = [];
}
