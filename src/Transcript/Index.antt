-- ===== src/Transcript/Index.antt =====
-- `EventLocator` and `SessionFileState` of
-- apps/system_interface/imbue/system_interface/session_watcher.py. A reference names a session file by
-- its session id, event ids are texts of code points, and a timestamp is what the record has for it.
use forever_claude_template.Base.{ℕ, List, map, take, drop, Dict, Text}
use forever_claude_template.Transcript.Event.{Value}

pub record EventLocator : Type 0 where
  pub event_id : Text
  pub timestamp : Value
  pub byte_offset : ℕ
  pub byte_len : ℕ

pub record SessionFileState : Type 0 where
  pub session_id : Text
  pub byte_offset_consumed : ℕ
  pub last_mtime : ℕ
  pub locators : List EventLocator
  pub emitted_count : ℕ

-- `_locator_ref_by_id`
abbrev pub Refs : Type 0
Refs = Dict Text (Text × ℕ)

abbrev pub Place : Type 0
Place = Text × EventLocator

-- `[(state, locator) for locator in state.locators[start:end]]`
unfoldable pub places : SessionFileState → ℕ → ℕ → List Place
places f start end = map (λ locator. (f.session_id, locator)) (drop start (take end f.locators))
