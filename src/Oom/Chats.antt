-- ===== src/Oom/Chats.antt =====
-- `ChatOomPrioritizer` of apps/system_interface/imbue/system_interface/oom_prioritizer.py. The chats,
-- the pid of each and the time are arguments; the writes of `set_adj` are the result.
pub mod Recency
use forever_claude_template.Base.{
  ℕ, suc, String, Bool, true, false, ◌||◌, Option, none, some, List, [], ◌∷◌, leb, if◌then◌else◌,
  Dict, get, has, put, ℤ, pos, text_eq, contains,
}
use forever_claude_template.Oom.Bands.{chat_agent_oom_score_adj}

pub record Prioritizer : Type 0 where
  pub open_ids : List String
  pub visible_ids : List String
  pub last_message_at : Dict String ℕ

unfoldable pub record_report :
    ℕ → List String → List String → Option String → Prioritizer → Prioritizer
record_report now open_ids visible_ids none s = record s {
  open_ids = open_ids;
  visible_ids = visible_ids;
}
record_report now open_ids visible_ids (some messaged_id) s = record s {
  open_ids = open_ids;
  visible_ids = visible_ids;
  last_message_at = put s.last_message_at messaged_id now;
}

-- The messaged chats with the times of their last messages, in the order of the chats.
unfoldable pub messaged : Dict String ℕ → List String → List (String × ℕ)
messaged times [] = []
messaged times (cid ∷ cids) =
    let rest = messaged times cids in
    elim (get times cid) [ none ↦ rest | some at ↦ (cid, at) ∷ rest ]

unfoldable pub insert_newest : String → ℕ → List (String × ℕ) → List (String × ℕ)
insert_newest cid at [] = (cid, at) ∷ []
insert_newest cid at ((other, t) ∷ rest) =
    if leb t at then (cid, at) ∷ (other, t) ∷ rest else (other, t) ∷ insert_newest cid at rest

-- `sorted(..., reverse=True)`: newest first, and equals in their old order.
unfoldable pub newest_first : List (String × ℕ) → List (String × ℕ)
unfolding insert_newest
newest_first [] = []
newest_first ((cid, at) ∷ rest) = insert_newest cid at (newest_first rest)

-- `{cid: rank for rank, cid in enumerate(...)}`
unfoldable pub ranks_from : ℕ → List (String × ℕ) → Dict String ℕ → Dict String ℕ
ranks_from rank [] ranks = ranks
ranks_from rank ((cid, at) ∷ rest) ranks = ranks_from (suc rank) rest (put ranks cid rank)

unfoldable pub rank_by_id : Dict String ℕ → List String → Dict String ℕ
unfolding messaged newest_first ranks_from
rank_by_id times chat_ids = ranks_from 0 (newest_first (messaged times chat_ids)) []

abbrev pub as_int : Option ℕ → Option ℤ
as_int none = none
as_int (some rank) = some (pos rank)

unfoldable pub score : Prioritizer → Dict String ℕ → String → ℕ
unfolding chat_agent_oom_score_adj
score s ranks chat_id =
    let is_visible = contains chat_id s.visible_ids in
    chat_agent_oom_score_adj (is_visible || contains chat_id s.open_ids) is_visible
      (as_int (get ranks chat_id))

unfoldable pub retag :
    Prioritizer → Dict String ℕ → (String → Option ℕ) → List String → List (ℕ × ℕ)
unfolding score
retag s ranks resolve_pid [] = []
retag s ranks resolve_pid (chat_id ∷ rest) =
    let writes = retag s ranks resolve_pid rest in
    elim (resolve_pid chat_id) [ none ↦ writes | some pid ↦ (pid, score s ranks chat_id) ∷ writes ]

unfoldable pub reapply : Prioritizer → (String → Option ℕ) → List String → List (ℕ × ℕ)
unfolding retag rank_by_id
reapply s resolve_pid chat_ids =
    retag s (rank_by_id s.last_message_at chat_ids) resolve_pid chat_ids

unfoldable pub record_activity :
    ℕ
    → List String
    → List String
    → Option String
    → (String → Option ℕ)
    → List String
    → Prioritizer
    → Prioritizer × List (ℕ × ℕ)
unfolding record_report reapply
record_activity now open_ids visible_ids messaged_id resolve_pid chat_ids s =
    let t = record_report now open_ids visible_ids messaged_id s in
    (t, reapply t resolve_pid chat_ids)
