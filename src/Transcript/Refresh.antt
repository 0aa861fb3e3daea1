-- ===== src/Transcript/Refresh.antt =====
-- How `AgentSessionWatcher` of apps/system_interface/imbue/system_interface/session_watcher.py brings
-- its index up to the files, finds the bodies of events, and emits the new ones.
pub mod Indexing
pub mod Purging
pub mod Appending
pub mod Steps
pub mod Selection
pub mod Runs
pub mod Contents
pub mod Growth
pub mod Turns
pub mod Emission
mod Examples
use forever_claude_template.Base.{
  ℕ, zero, suc, ◌+◌, ◌-◌, Bool, true, false, ◌&&◌, Option, none, some, is_some, List, [], ◌∷◌, ◌++◌,
  map, take, drop, length, ltb, ◌==◌, if◌then◌else◌, Dict, get, put, remove, Text, code_eq,
}
use forever_claude_template.Transcript.Event.{Event, Parsed}
use forever_claude_template.Transcript.Index.{EventLocator, SessionFileState, Refs, Place}
use forever_claude_template.Transcript.Lines.{Bytes, split_at_last_complete_line, iter_line_spans}
use forever_claude_template.Transcript.Watcher.{
  Watcher, LineParser, new_file, discard, cache_put, splitlines, read_lines,
}

-- A session file as `stat` (its size and time of change) and `open` find it, none for an OSError.
pub record FileOnDisk : Type 0 where
  pub stat : Option (ℕ × ℕ)
  pub contents : Option Bytes

unfoldable pub purge_ids : List EventLocator → List Text → List Text
unfolding discard
purge_ids [] ids = ids
purge_ids (locator ∷ locators) ids = purge_ids locators (discard locator.event_id ids)

unfoldable pub purge_refs : List EventLocator → Refs → Refs
purge_refs [] refs = refs
purge_refs (locator ∷ locators) refs = purge_refs locators (remove refs locator.event_id)

-- The file became shorter than what was read of it.
unfoldable pub reset_truncated : Text → SessionFileState → Watcher → Watcher
unfolding purge_ids purge_refs
reset_truncated session_id f w = record w {
  existing_event_ids = purge_ids f.locators w.existing_event_ids;
  locator_ref_by_id = purge_refs f.locators w.locator_ref_by_id;
  session_states =
      put w.session_states session_id
        (record f { byte_offset_consumed = 0; locators = []; emitted_count = 0 });
}

abbrev pub change_file : (SessionFileState → SessionFileState) → Text → Watcher → Watcher
change_file change session_id w = elim (get w.session_states session_id) [
  | none ↦ w
  | some f ↦ record w { session_states = put w.session_states session_id (change f) }
]

abbrev pub all_emitted : SessionFileState → SessionFileState
all_emitted f = record f { emitted_count = length f.locators }

abbrev pub mark_if : Bool → Text → Watcher → Watcher
mark_if mark_all_emitted session_id w =
    if mark_all_emitted then change_file all_emitted session_id w else w

abbrev pub consumed_more : ℕ → ℕ → SessionFileState → SessionFileState
consumed_more count mtime f = record f {
  byte_offset_consumed = f.byte_offset_consumed + count;
  last_mtime = mtime;
}

abbrev pub finish_read : Bool → Text → ℕ → ℕ → Watcher × Bool → Watcher × Bool
finish_read mark_all_emitted session_id count mtime (w, true) = (w, true)
finish_read mark_all_emitted session_id count mtime (w, false) = (
  mark_if mark_all_emitted session_id (change_file (consumed_more count mtime) session_id w),
  false,
)

-- What was read from the offset on; `f` is the file's state at that moment.
unfoldable pub read_new :
    (Bytes → Option Text)
    → (Bytes → Bool)
    → LineParser
    → ℕ
    → Bool
    → Text
    → ℕ
    → Bytes
    → SessionFileState
    → Watcher
    → Watcher × Bool
unfolding split_at_last_complete_line iter_line_spans read_lines
read_new decode loads parse capacity mark_all_emitted session_id mtime new_bytes f w =
    let complete = (split_at_last_complete_line loads new_bytes).0 in
    if length complete == 0
    then (mark_if mark_all_emitted session_id w, false)
    else finish_read mark_all_emitted session_id (length complete) mtime (
        read_lines decode parse capacity mark_all_emitted session_id
          (iter_line_spans complete f.byte_offset_consumed) w)

-- After the check for truncation.
unfoldable pub read_changed :
    (Bytes → Option Text)
    → (Bytes → Bool)
    → LineParser
    → ℕ
    → Bool
    → Text
    → ℕ
    → ℕ
    → Option Bytes
    → Watcher
    → Watcher × Bool
unfolding read_new
read_changed decode loads parse capacity mark_all_emitted session_id size mtime contents w =
    elim (get w.session_states session_id) [
      | none ↦ (w, false)
      | some f ↦
          if size == f.byte_offset_consumed && mtime == f.last_mtime
          then (mark_if mark_all_emitted session_id w, false)
          else elim contents [
            | none ↦ (w, false)
            | some bytes ↦
                read_new decode loads parse capacity mark_all_emitted session_id mtime
                  (drop f.byte_offset_consumed bytes) f w
          ]
    ]

-- `_ensure_cache_current`. True is an exception of the parser.
unfoldable pub ensure_cache_current :
    (Bytes → Option Text)
    → (Bytes → Bool)
    → LineParser
    → ℕ
    → Bool
    → FileOnDisk
    → Text
    → Watcher
    → Watcher × Bool
unfolding reset_truncated read_changed
ensure_cache_current decode loads parse capacity mark_all_emitted disk session_id w =
    elim disk.stat [
      | none ↦ (w, false)
      | some (size, mtime) ↦ elim (get w.session_states session_id) [
        | none ↦ (w, false)
        | some f ↦
            read_changed decode loads parse capacity mark_all_emitted session_id size mtime
              disk.contents
              (if ltb size f.byte_offset_consumed then reset_truncated session_id f w else w)
      ]
    ]
