-- ===== src/Oom/Bands/Ranges.antt =====
-- The order of the bands of libs/oom_priority/src/oom_priority/bands.py.
use forever_claude_template.Base.{
  ◌≤◌, ◌<◌, String, ◌≡◌, Bool, true, false, Option, none, some, arith, eq_iff, ℤ, ◌≤ℤ◌, str_eq,
}
use forever_claude_template.Oom.Bands.{
  worker_agent, agent_subprocess, chat_agent_base, chat_agent_floor, user_service, shared_browser,
  shared_browser_floor, chat_agent_oom_score_adj, shared_browser_oom_score_adj,
  supervisord_program_band,
}

-- `a` is at least as engaged with as `b`.
abbrev pub Implies : Bool → Bool → Type 0
Implies a b = a ≡ true → b ≡ true

abbrev pub NotLaterRank : Option ℤ → Option ℤ → Type 0
NotLaterRank r none = Unit
NotLaterRank none (some r) = ⊥
NotLaterRank (some q) (some r) = q ≤ℤ r

-- Whatever the activity and the rank, a chat's score stays between the floor and the base of the
-- chat band, above the user services' band and below the workers'.
pub chat_agent_oom_score_adj_bounds :
    (is_open is_visible : Bool) (rank : Option ℤ)
    → let adj = chat_agent_oom_score_adj is_open is_visible rank in
      (chat_agent_floor ≤ adj)
      × (adj ≤ chat_agent_base)
      × (user_service < adj)
      × (adj < worker_agent)
unfolding chat_agent_oom_score_adj
chat_agent_oom_score_adj_bounds is_open is_visible rank = ground arith

-- A chat that is open and visible at least when another is, with a rank at least as recent, gets no
-- higher score.
pub chat_agent_oom_score_adj_antitone :
    (o v o' v' : Bool) (r r' : Option ℤ)
    → Implies o' o
    → Implies v' v
    → NotLaterRank r r'
    → chat_agent_oom_score_adj o v r ≤ chat_agent_oom_score_adj o' v' r'
unfolding chat_agent_oom_score_adj
chat_agent_oom_score_adj_antitone o v o' v' r none p q t = ground arith
chat_agent_oom_score_adj_antitone o v o' v' none (some r) p q t = absurd t
chat_agent_oom_score_adj_antitone o v o' v' (some r) (some r') p q t = ground arith

-- Any value that Chromium gives itself is mapped into the browser band, above every agent
-- subprocess, and the mapping keeps the order.
pub shared_browser_oom_score_adj_bounds :
    (z : ℤ)
    → let adj = shared_browser_oom_score_adj z in
      (shared_browser_floor ≤ adj) × (adj ≤ shared_browser) × (agent_subprocess < adj)
unfolding shared_browser_oom_score_adj
shared_browser_oom_score_adj_bounds z = ground arith

pub shared_browser_oom_score_adj_monotone :
    (a b : ℤ) → a ≤ℤ b → shared_browser_oom_score_adj a ≤ shared_browser_oom_score_adj b
unfolding shared_browser_oom_score_adj
shared_browser_oom_score_adj_monotone a b h = ground arith

-- A supervisord program other than the browser, named in a table or not, gets a band that is no more
-- expendable than a user service's.
pub supervisord_program_band-lt :
    (name : String) → str_eq name "browser" ≡ false → supervisord_program_band name ≤ user_service
unfolding supervisord_program_band
supervisord_program_band-lt name h = ground (arith, eq_iff "browser" name, eq_iff name "browser")
