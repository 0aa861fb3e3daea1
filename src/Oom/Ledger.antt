-- ===== src/Oom/Ledger.antt =====
-- The shed ledger of libs/oom_priority/src/oom_priority/ledger.py. A record is its four fields that
-- the readers look at; a missing text reads as the empty text. The file is the list of its records.
pub mod Notices
use forever_claude_template.Base.{
  String, Bool, true, false, not, ◌&&◌, Option, none, some, List, [], ◌∷◌, ◌++◌, if◌then◌else◌,
  is_some_text, str_eq, opt_eq, Text, text_ltb, text_max,
}

pub record Record : Type 0 where
  pub kind : String
  pub agent_name : Option String
  pub timestamp : Text
  pub up_to_timestamp : Text

abbrev pub process_shed : String
process_shed = "process_shed"

abbrev pub notice_delivered : String
notice_delivered = "notice_delivered"

-- The first argument is the time of the write.
unfoldable pub append_shed_record : Text → Option String → List Record → List Record
append_shed_record now agent_name records =
    records
    ++ record {
      kind = process_shed;
      agent_name = agent_name;
      timestamp = now;
      up_to_timestamp = [];
    }
      ∷ []

unfoldable pub append_notice_delivered : Text → String → Text → List Record → List Record
append_notice_delivered now agent_name up_to records =
    records
    ++ record {
      kind = notice_delivered;
      agent_name = some agent_name;
      timestamp = now;
      up_to_timestamp = up_to;
    }
      ∷ []

abbrev pub is_notice_for : String → Record → Bool
is_notice_for agent_name r = str_eq r.kind notice_delivered && is_some_text r.agent_name agent_name

abbrev pub is_shed_of : String → Record → Bool
is_shed_of agent_name r = str_eq r.kind process_shed && is_some_text r.agent_name agent_name

-- `max(delivered) if delivered else ""`: the empty text comes before every other.
unfoldable pub latest_from : Text → String → List Record → Text
latest_from best agent_name [] = best
latest_from best agent_name (r ∷ records) =
    latest_from (if is_notice_for agent_name r then text_max best r.up_to_timestamp else best)
      agent_name records

unfoldable pub latest_delivered_timestamp : List Record → String → Text
unfolding latest_from
latest_delivered_timestamp records agent_name = latest_from [] agent_name records

abbrev pub is_empty : Text → Bool
is_empty [] = true
is_empty (c ∷ t) = false

abbrev pub is_pending : Text → String → Record → Bool
is_pending after agent_name r =
    is_shed_of agent_name r && (not (is_empty r.timestamp) && text_ltb after r.timestamp)

unfoldable pub pending_after : Text → String → List Record → List Text
pending_after after agent_name [] = []
pending_after after agent_name (r ∷ records) =
    let rest = pending_after after agent_name records in
    if is_pending after agent_name r then r.timestamp ∷ rest else rest

unfoldable pub pending_shed_timestamps : List Record → String → List Text
unfolding pending_after
pending_shed_timestamps records agent_name =
    pending_after (latest_delivered_timestamp records agent_name) agent_name records

abbrev pub is_nil : List Text → Bool
is_nil [] = true
is_nil (t ∷ ts) = false

unfoldable pub has_pending_shed : String → List Record → Bool
has_pending_shed agent_name records = not (is_nil (pending_shed_timestamps records agent_name))

unfoldable pub max_from : Text → List Text → Text
max_from best [] = best
max_from best (t ∷ ts) = max_from (text_max best t) ts

-- `main` of scripts/claude_shed_notice_hook.py: the new ledger and whether the notice is printed. An
-- agent whose name is not set has the empty name.
unfoldable pub notice_hook : Text → String → List Record → List Record × Bool
notice_hook now agent_name records =
    if str_eq agent_name ""
    then (records, false)
    else elim (pending_shed_timestamps records agent_name) [
      | [] ↦ (records, false)
      | t ∷ ts ↦ (append_notice_delivered now agent_name (max_from t ts) records, true)
    ]
