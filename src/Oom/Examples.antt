-- ===== src/Oom/Examples.antt =====
-- Concrete chats, ledgers and processes for the shedding bands of libs/oom_priority.
use forever_claude_template.Base.{not, ◌&&◌, if◌then◌else◌, str_eq, []}
use forever_claude_template.Base.{
  ℕ, ◌≡◌, refl, Bool, true, false, some, List, [], ◌∷◌, arith, ◌≤◌, ◌<◌, get, nat_eq, text_eq, Text,
  All, pos, negsuc,
}
use forever_claude_template.Oom.Bands.{
  chat_agent_oom_score_adj, chat_agent_floor, chat_agent_base, user_service, worker_agent,
  shared_browser_floor,
}
use forever_claude_template.Oom.Bands.Ranges.{chat_agent_oom_score_adj_bounds}
use forever_claude_template.Oom.Chats.{Prioritizer, score, rank_by_id}
use forever_claude_template.Oom.Chats.Recency.{score-IsLater}
use forever_claude_template.Oom.Ledger.{
  Record, process_shed, notice_hook, pending_shed_timestamps, has_pending_shed,
}
use forever_claude_template.Oom.Ledger.Notices.{notice_hook-pending}
use forever_claude_template.Oom.Retag.{Procs, sweep_once}
use forever_claude_template.Oom.Retag.Settled.{AtLeast, sweep_once-AtLeast}

abbrev two_chats : Prioritizer
two_chats = record {
  open_ids = "ann" ∷ "bob" ∷ [];
  visible_ids = "ann" ∷ [];
  last_message_at = ("bob", 3) ∷ ("ann", 8) ∷ [];
}

chat_agent_oom_score_adj_bounds_example :
    (chat_agent_floor ≤ chat_agent_oom_score_adj true false (some (negsuc 1)))
    × (chat_agent_oom_score_adj true false (some (negsuc 1)) ≤ chat_agent_base)
    × (user_service < chat_agent_oom_score_adj true false (some (negsuc 1)))
    × (chat_agent_oom_score_adj true false (some (negsuc 1)) < worker_agent)
chat_agent_oom_score_adj_bounds_example =
    chat_agent_oom_score_adj_bounds true false (some (negsuc 1))

abbrev t1 : Text
t1 = 50 ∷ []

abbrev t2 : Text
t2 = 51 ∷ []

abbrev one_shed : List Record
one_shed =
    record { kind = process_shed; agent_name = some "ann"; timestamp = t1; up_to_timestamp = [] }
    ∷ []

notice_hook-pending_example :
    (pending_shed_timestamps (notice_hook t2 "ann" one_shed).0 "ann"
      ≡ (if str_eq "ann" "" then pending_shed_timestamps one_shed "ann" else []))
    × ((notice_hook t2 "ann" one_shed).1
        ≡ (not (str_eq "ann" "") && has_pending_shed "ann" one_shed))
notice_hook-pending_example = notice_hook-pending t2 "ann" one_shed

abbrev processes : Procs
processes = (7, pos 300) ∷ (8, pos 950) ∷ []

all_writable : ℕ → Bool
all_writable p = true

score-IsLater_example :
    score two_chats (rank_by_id two_chats.last_message_at ("bob" ∷ "ann" ∷ [])) "ann"
    ≤ score two_chats (rank_by_id two_chats.last_message_at ("bob" ∷ "ann" ∷ [])) "bob"
unfolding get
score-IsLater_example =
    score-IsLater two_chats ("bob" ∷ "ann" ∷ []) "ann" "bob" (refl, (refl, tt)) refl refl
      (omega arith) (λ h. refl) (λ h. refl)

sweep_once-AtLeast_example :
    All
      (λ p. AtLeast shared_browser_floor (get (sweep_once all_writable (7 ∷ 8 ∷ []) processes) p))
      (7 ∷ 8 ∷ [])
    × (sweep_once all_writable (7 ∷ 8 ∷ []) (sweep_once all_writable (7 ∷ 8 ∷ []) processes)
        ≡ sweep_once all_writable (7 ∷ 8 ∷ []) processes)
unfolding all_writable
sweep_once-AtLeast_example =
    sweep_once-AtLeast all_writable (7 ∷ 8 ∷ []) processes (refl, (refl, tt))
