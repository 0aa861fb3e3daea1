-- ===== src/Interface/Broadcaster.antt =====
-- `WebSocketBroadcaster` of apps/system_interface/imbue/system_interface/ws_broadcaster.py. A client
-- queue is named by a number in place of `id(queue)`; its content outlives its registration, since
-- the handler thread still reads it. A method that holds `_lock` is one function.
pub mod Rounds
pub mod Evictions
pub mod Delivery
pub mod Registry
use forever_claude_template.Base.{
  ℕ, suc, ◌+◌, String, Bool, true, false, ◌&&◌, ◌||◌, not, Option, none, some, List, [], ◌∷◌, ◌++◌,
  length, ltb, leb, ◌==◌, if◌then◌else◌, Dict, get, put, remove, nat_eq, str_eq,
}

abbrev pub client_queue_max_size : ℕ
client_queue_max_size = 1000

abbrev pub max_consecutive_queue_full : ℕ
max_consecutive_queue_full = 50

-- A message, or the shutdown sentinel `None`.
abbrev pub Item : Type 0
Item = Option String

pub record ClientInfo : Type 0 where
  pub client_id : String
  pub active_layout_slug : String
  pub device_kind : String

pub record Broadcaster : Type 0 where
  pub client_queues : List ℕ
  pub next_queue : ℕ
  pub contents : ℕ → List Item
  pub consecutive_full : Dict ℕ ℕ
  pub client_infos : Dict ℕ ClientInfo

abbrev pub empty : Broadcaster
empty = record {
  client_queues = [];
  next_queue = 0;
  contents = λ q. [];
  consecutive_full = [];
  client_infos = [];
}

abbrev pub update : (ℕ → List Item) → ℕ → List Item → ℕ → List Item
update f k items j = if k == j then items else f j

unfoldable pub mem : ℕ → List ℕ → Bool
mem q [] = false
mem q (p ∷ ps) = p == q || mem q ps

-- `list.remove`, with the ValueError of a missing item swallowed
unfoldable pub erase : ℕ → List ℕ → List ℕ
erase q [] = []
erase q (p ∷ ps) = if p == q then ps else p ∷ erase q ps

unfoldable pub register : Broadcaster → Broadcaster × ℕ
register s = (
  record s {
    client_queues = s.client_queues ++ s.next_queue ∷ [];
    next_queue = suc s.next_queue;
    consecutive_full = put s.consecutive_full s.next_queue 0;
  },
  s.next_queue,
)

-- What `unregister`, `_disconnect_locked` share: the client is forgotten.
unfoldable pub unregister : ℕ → Broadcaster → Broadcaster
unregister q s = record s {
  client_queues = erase q s.client_queues;
  consecutive_full = remove s.consecutive_full q;
  client_infos = remove s.client_infos q;
}

unfoldable pub set_client_info : ℕ → ClientInfo → Broadcaster → Broadcaster
set_client_info q info s =
    if not (mem q s.client_queues) then s else record s { client_infos = put s.client_infos q info }

unfoldable pub any_on_layout : String → Dict ℕ ClientInfo → Bool
any_on_layout slug [] = false
any_on_layout slug ((q, info) ∷ rest) =
    str_eq info.active_layout_slug slug || any_on_layout slug rest

unfoldable pub has_client_on_layout : String → Broadcaster → Bool
unfolding any_on_layout
has_client_on_layout slug s = any_on_layout slug s.client_infos

-- Whether a broadcast reaches a client with the given report.
unfoldable pub is_target : Option String → Option ClientInfo → Bool
is_target none info = true
is_target (some slug) none = false
is_target (some slug) (some info) = str_eq info.active_layout_slug slug

abbrev pub count_of : Option ℕ → ℕ
count_of none = 0
count_of (some n) = n

-- One round of the loop: the new state, and whether the client is given up.
unfoldable pub deliver : Option String → String → ℕ → Broadcaster → Broadcaster × Bool
unfolding is_target
deliver target text q s =
    if not (is_target target (get s.client_infos q))
    then (s, false)
    else if ltb (length (s.contents q)) client_queue_max_size
    then (
      record s {
        contents = update s.contents q (s.contents q ++ some text ∷ []);
        consecutive_full = put s.consecutive_full q 0;
      },
      false,
    )
    else (let new_count = count_of (get s.consecutive_full q) + 1 in
        (
          record s { consecutive_full = put s.consecutive_full q new_count },
          leb max_consecutive_queue_full new_count,
        ))

unfoldable pub deliver_all : Option String → String → List ℕ → Broadcaster → Broadcaster × List ℕ
unfolding deliver
deliver_all target text [] s = (s, [])
deliver_all target text (q ∷ qs) s =
    let (t, is_dead) = deliver target text q s in
    let (u, dead) = deliver_all target text qs t in (u, if is_dead then q ∷ dead else dead)

-- `_disconnect_locked`: the queue is drained and gets the sentinel, for which there is room.
unfoldable pub disconnect : ℕ → Broadcaster → Broadcaster
unfolding unregister
disconnect q s = let t = unregister q s in record t { contents = update t.contents q (none ∷ []) }

unfoldable pub disconnect_all : List ℕ → Broadcaster → Broadcaster
unfolding disconnect
disconnect_all [] s = s
disconnect_all (q ∷ qs) s = disconnect_all qs (disconnect q s)

unfoldable pub broadcast_to_matching : Option String → String → Broadcaster → Broadcaster
unfolding deliver_all disconnect_all
broadcast_to_matching target text s =
    let (t, dead) = deliver_all target text s.client_queues s in disconnect_all dead t

unfoldable pub broadcast : String → Broadcaster → Broadcaster
unfolding broadcast_to_matching
broadcast text s = broadcast_to_matching none text s

unfoldable pub broadcast_to_layout : String → String → Broadcaster → Broadcaster
unfolding broadcast_to_matching
broadcast_to_layout text slug s = broadcast_to_matching (some slug) text s

-- The targeting of `broadcast_layout_op`; the text is its serialized message.
unfoldable pub broadcast_layout_op : String → Option String → Broadcaster → Broadcaster
unfolding broadcast broadcast_to_layout
broadcast_layout_op text none s = broadcast text s
broadcast_layout_op text (some slug) s = broadcast_to_layout text slug s

unfoldable pub end_all : List ℕ → (ℕ → List Item) → ℕ → List Item
end_all [] contents = contents
end_all (q ∷ qs) contents = end_all qs (update contents q (none ∷ []))

unfoldable pub shutdown : Broadcaster → Broadcaster
unfolding end_all
shutdown s = record s {
  client_queues = [];
  contents = end_all s.client_queues s.contents;
  consecutive_full = [];
  client_infos = [];
}

abbrev after_first : List Item → List Item
after_first [] = []
after_first (item ∷ items) = items

-- What a handler thread does: `client_queue.get` takes the oldest item.
unfoldable pub take_item : ℕ → Broadcaster → Broadcaster
take_item q s = record s { contents = update s.contents q (after_first (s.contents q)) }
