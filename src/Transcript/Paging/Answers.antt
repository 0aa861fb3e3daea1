-- ===== src/Transcript/Paging/Answers.antt =====
-- The answers of `AgentSessionWatcher` to the requests for events, against a plain list of events, in
-- apps/system_interface/imbue/system_interface/session_watcher.py.
use forever_claude_template.Base.{
  ℕ, suc, ◌≡◌, true, Option, none, some, List, [], ◌∷◌, take, drop, length, get, Text, text_beq,
  code_eq, All,
}
use forever_claude_template.Transcript.Index.{EventLocator, SessionFileState, Refs, Place}
use forever_claude_template.Transcript.Paging.{
  collect_tail, collect_before, collect_after, collect_at_offset, total_event_count, event_offset,
}
use forever_claude_template.Transcript.Paging.Windows.{last}
use forever_claude_template.Transcript.Paging.Timeline.{Apart}
use forever_claude_template.Transcript.Paging.Positions.{nth, position_of}

-- A request to the watcher. `first_after` is `get_forward_events`.
pub data Query : Type 0 where
  tail : ℕ → Query
  last_before first_after : Text → ℕ → Query
  at_offset : ℕ → ℕ → Query
  offset_of : Text → Query
  event_count : Query

pub data Answer : Type 0 where
  page : List Place → Answer
  position : Option ℕ → Answer

-- What the watcher's index answers.
unfoldable pub answer : Refs → List SessionFileState → Query → Answer
unfolding collect_tail collect_before collect_after collect_at_offset event_offset total_event_count
answer refs states (tail limit) = page (collect_tail states limit)
answer refs states (last_before event_id limit) = page (collect_before refs states event_id limit)
answer refs states (first_after event_id limit) = page (collect_after refs states event_id limit)
answer refs states (at_offset offset limit) = page (collect_at_offset states offset limit)
answer refs states (offset_of event_id) = position (event_offset refs states event_id)
answer refs states event_count = position (some (total_event_count states))

-- What a list of events, searched from its start, answers.
abbrev pub list_answer : List Place → Query → Answer
list_answer events (tail limit) = page (last limit events)
list_answer events (last_before event_id limit) =
    page (elim (position_of event_id events) [ none ↦ [] | some k ↦ last limit (take k events) ])
list_answer events (first_after event_id limit) =
    page
      (elim (position_of event_id events) [ none ↦ [] | some k ↦ take limit (drop (suc k) events) ])
list_answer events (at_offset offset limit) = page (take limit (drop offset events))
list_answer events (offset_of event_id) = position (position_of event_id events)
list_answer events event_count = position (some (length events))

abbrev pub AreDistinct : List SessionFileState → Type 0
AreDistinct [] = Unit
AreDistinct (f ∷ states) = Apart f.session_id states × AreDistinct states

abbrev pub IsListed : Refs → SessionFileState → Type 0
IsListed refs f =
    (i : ℕ) (l : EventLocator)
    → nth i f.locators ≡ some l
    → get refs l.event_id ≡ some (f.session_id, i)

abbrev pub HasAt : Text → Text → ℕ → SessionFileState → Type 0
HasAt session_id event_id i f =
    text_beq f.session_id session_id ≡ true
    → (l : EventLocator) × (nth i f.locators ≡ some l) × (text_beq l.event_id event_id ≡ true)

-- The references lead to the events of the files, each event once.
pub record Indexed (refs : Refs) (states : List SessionFileState) : Type 0 where
  pub distinct : AreDistinct states
  pub listed : All (IsListed refs) states
  pub sound :
      (event_id sid : Text) (i : ℕ)
      → get refs event_id ≡ some (sid, i)
      → All (HasAt sid event_id i) states
