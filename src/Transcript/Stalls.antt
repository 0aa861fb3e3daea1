-- ===== src/Transcript/Stalls.antt =====
-- A null content in a session file, in
-- apps/system_interface/imbue/system_interface/session_watcher.py.
use forever_claude_template.Base.{
  codes, ℕ, ◌≡◌, refl, Bool, true, false, inl, inr, Option, some, List, [], ◌∷◌, arith, Bool-cases,
  Dict, in_names, length, ◌==◌, Text, code_eq,
}
use forever_claude_template.Transcript.Event.{Value, Fields}
use forever_claude_template.Transcript.Lines.{
  Bytes, Span, split_at_last_complete_line, iter_line_spans, spans_loop,
}
use forever_claude_template.Transcript.Index.{SessionFileState}
use forever_claude_template.Transcript.Watcher.{Watcher, splitlines, read_lines}
use forever_claude_template.Transcript.Refresh.{read_new}
use forever_claude_template.Transcript.Parser.{Progress, make_event_id}
use forever_claude_template.Transcript.Records.{parse_lines, parse_session_lines}
use forever_claude_template.Transcript.Parser.Content.{Runtime}
use forever_claude_template.Transcript.Parser.Crashes.{IsNullContent, null_content-raises}

no_spans : (bs : Bytes) (base : ℕ) → (length bs == 0) ≡ true → iter_line_spans bs base ≡ []
unfolding iter_line_spans spans_loop
no_spans [] base h = refl
no_spans (b ∷ bs) base h = let bad : false ≡ true = ground (arith, h) in cc

module _ (rt : Runtime) (line : Text) (head : ℕ) (tail : Text) (raw message : Fields) (uuid : Text)
    (timestamp : Value) (h : IsNullContent rt line head tail raw message uuid timestamp) where
  call_raises :
      (lines existing : List Text) (names : Dict Text Text) (session_id : Option Text)
      → in_names (make_event_id uuid (codes "assistant")) existing ≡ false
      → parse_session_lines rt (line ∷ lines) existing names session_id ≡ record {
        events = [];
        existing_event_ids = existing;
        tool_name_by_call_id = names;
        is_raised = true;
      }
  unfolding parse_session_lines parse_lines
  call_raises lines existing names session_id fresh =
      let start : Progress = record {
        existing_event_ids = existing;
        tool_name_by_call_id = names;
        new_events = [];
      } in
      rw
        (
          parse_session_lines,
          parse_lines,
          null_content-raises rt line head tail raw message uuid timestamp session_id start h fresh,
        )
        refl

  lines_raise :
      (decode : Bytes → Option Text) (capacity : ℕ) (mark : Bool) (sid decoded : Text)
      (lines : List Text) (span : Span) (spans : List Span) (w : Watcher)
      → decode span.line_bytes ≡ some decoded
      → splitlines decoded ≡ line ∷ lines
      → in_names (make_event_id uuid (codes "assistant")) w.existing_event_ids ≡ false
      → read_lines decode (parse_session_lines rt) capacity mark sid (span ∷ spans) w ≡ (w, true)
  unfolding read_lines
  lines_raise decode capacity mark sid decoded lines span spans w d s fresh =
      rw
        (
          read_lines,
          d,
          s,
          call_raises lines w.existing_event_ids w.tool_name_by_call_id (some sid) fresh,
        )
        refl

-- Where the first new line of a session file is an assistant record whose content is null, the read
-- raises and leaves the watcher as it was, the offset included: the next read does the same.
pub null_content-stalls :
    (rt : Runtime) (line : Text) (head : ℕ) (tail : Text) (raw message : Fields) (uuid : Text)
    (timestamp : Value) (decode : Bytes → Option Text) (loads : Bytes → Bool) (capacity : ℕ)
    (mark : Bool) (sid decoded : Text) (lines : List Text) (span : Span) (spans : List Span)
    (mtime : ℕ) (new_bytes : Bytes) (f : SessionFileState) (w : Watcher)
    → IsNullContent rt line head tail raw message uuid timestamp
    → iter_line_spans (split_at_last_complete_line loads new_bytes).0 f.byte_offset_consumed
      ≡ span ∷ spans
    → decode span.line_bytes ≡ some decoded
    → splitlines decoded ≡ line ∷ lines
    → in_names (make_event_id uuid (codes "assistant")) w.existing_event_ids ≡ false
    → read_new decode loads (parse_session_lines rt) capacity mark sid mtime new_bytes f w
      ≡ (w, true)
unfolding read_new
null_content-stalls rt line head tail raw message uuid timestamp decode loads capacity mark sid
      decoded lines span spans mtime new_bytes f w h cut d s fresh =
    let complete = (split_at_last_complete_line loads new_bytes).0 in
    let raises =
      lines_raise rt line head tail raw message uuid timestamp h decode capacity mark sid decoded
        lines span spans w d s fresh in
    elim (Bool-cases (length complete == 0)) [
      | inl empty ↦
          let nothing = no_spans complete f.byte_offset_consumed empty in
          let bad : false ≡ true = ground (arith, cut, nothing) in cc
      | inr full ↦ rw (read_new, full, cut, raises) refl
    ]
