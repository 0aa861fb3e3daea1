-- ===== src/Interface/Mutex.antt =====
-- `LayoutMutex` of apps/system_interface/imbue/system_interface/layout_ops.py. The two clocks and the
-- TTL are arguments, in one unit of time.
pub mod Exclusion
use forever_claude_template.Base.{
  ℕ, ◌-◌, ◌*◌, String, Bool, true, false, ◌&&◌, Option, none, some, ltb, if◌then◌else◌, str_eq,
}

pub record Holder : Type 0 where
  pub agent_id : String
  pub op : String
  pub args : String
  pub started_at_monotonic : ℕ
  pub started_at_wall : ℕ

-- What a caller that is refused is told.
pub record Contention : Type 0 where
  pub agent_id : String
  pub operation : String
  pub args : String
  pub started_at : ℕ

abbrev pub describe : Holder → Contention
describe h = record {
  agent_id = h.agent_id;
  operation = h.op;
  args = h.args;
  started_at = h.started_at_wall;
}

unfoldable pub take_slot : Holder → Option Holder × Option Contention
take_slot wanted = (some wanted, none)

-- `wanted` is the record of the caller, with the two times of the call; `none` is success.
unfoldable pub try_acquire : ℕ → Holder → Option Holder → Option Holder × Option Contention
unfolding take_slot
try_acquire ttl wanted none = take_slot wanted
try_acquire ttl wanted (some h) =
    if ltb (wanted.started_at_monotonic - h.started_at_monotonic) ttl
    then (some h, some (describe h))
    else take_slot wanted

abbrev pub is_held_by : String → String → Holder → Bool
is_held_by agent_id op h = str_eq h.agent_id agent_id && str_eq h.op op

unfoldable pub release : String → String → Option Holder → Option Holder
release agent_id op none = none
release agent_id op (some h) = if is_held_by agent_id op h then none else some h
