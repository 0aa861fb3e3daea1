-- ===== src/Oom/Bands.antt =====
-- The shedding bands of libs/oom_priority/src/oom_priority/bands.py. No value below leaves 0 to
-- 1000, and each subtraction is of a smaller number, so `-` on ℕ is the source's.
pub mod Ranges
use forever_claude_template.Base.{
  ℕ, ◌+◌, ◌-◌, ◌*◌, ◌/◌, ◌%◌, min, max, String, Bool, true, false, Option, none, some, List, [],
  ◌∷◌, ltb, ◌==◌, if◌then◌else◌, Dict, get, ℤ, pos_part, clamp, text_eq,
}

abbrev pub protected : ℕ
protected = 0

abbrev pub primary_agent : ℕ
primary_agent = protected

abbrev pub user_agent : ℕ
user_agent = 300

abbrev pub worker_agent : ℕ
worker_agent = 600

abbrev pub agent_subprocess : ℕ
agent_subprocess = 900

abbrev pub chat_agent_base : ℕ
chat_agent_base = 560

abbrev pub chat_agent_floor : ℕ
chat_agent_floor = 300

abbrev pub chat_open_bonus : ℕ
chat_open_bonus = 80

abbrev pub chat_visible_bonus : ℕ
chat_visible_bonus = 80

abbrev pub chat_recency_max_bonus : ℕ
chat_recency_max_bonus = 120

abbrev pub chat_recency_step : ℕ
chat_recency_step = 15

abbrev pub recency_bonus : Option ℤ → ℕ
recency_bonus none = 0
recency_bonus (some rank) = max 0 (chat_recency_max_bonus - chat_recency_step * pos_part rank)

unfoldable pub chat_agent_oom_score_adj : Bool → Bool → Option ℤ → ℕ
chat_agent_oom_score_adj is_open is_visible recency_rank =
    let opened = if is_open then chat_agent_base - chat_open_bonus else chat_agent_base in
    let seen = if is_visible then opened - chat_visible_bonus else opened in
    let adj = seen - recency_bonus recency_rank in max chat_agent_floor (min chat_agent_base adj)

abbrev pub user_service : ℕ
user_service = 200

abbrev pub service_bands : Dict String ℕ
service_bands =
    ("terminal", 10)
    ∷ ("system_interface", 20)
    ∷ ("cloudflared", 30)
    ∷ ("github-sync", 40)
    ∷ ("host-backup", 50)
    ∷ ("app-watcher", 60)
    ∷ ("web", 70)
    ∷ ("user", user_service)
    ∷ []

abbrev pub shared_browser : ℕ
shared_browser = 1000

abbrev pub shared_browser_floor : ℕ
shared_browser_floor = 910

-- Python's `round` of n / d: the nearest integer, and the even one of two that are as near.
abbrev pub round_div : ℕ → ℕ → ℕ
round_div n d =
    let q = n / d in
    let twice = 2 * (n % d) in
    if ltb twice d then q else if ltb d twice then q + 1 else if q % 2 == 0 then q else q + 1

unfoldable pub shared_browser_oom_score_adj : ℤ → ℕ
shared_browser_oom_score_adj self_assigned =
    let clamped = clamp 1000 self_assigned in
    let span = shared_browser - shared_browser_floor in
    shared_browser_floor + round_div (clamped * span) 1000

abbrev pub non_service_program_bands : Dict String ℕ
non_service_program_bands =
    ("earlyoom", protected)
    ∷ ("oom-tag-backstop", protected)
    ∷ ("deferred-install", protected)
    ∷ ("browser", shared_browser)
    ∷ []

abbrev or_default : Option ℕ → ℕ → ℕ
or_default none d = d
or_default (some n) d = n

abbrev band_of : Option ℕ → String → ℕ
band_of none program_name = or_default (get non_service_program_bands program_name) user_service
band_of (some band) program_name = band

unfoldable pub supervisord_program_band : String → ℕ
unfolding get
supervisord_program_band program_name = band_of (get service_bands program_name) program_name
