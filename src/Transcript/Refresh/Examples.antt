-- ===== src/Transcript/Refresh/Examples.antt =====
-- Concrete reads and polls of the transcript of apps/system_interface.
use forever_claude_template.Base.{put, remove, ◌++◌}
use forever_claude_template.Base.{
  codes, ◌≡◌, refl, true, false, some, List, [], ◌∷◌, in_names, text_beq, text_eq, code_eq,
}
use forever_claude_template.Transcript.Event.{text}
use forever_claude_template.Transcript.Lines.{Bytes, iter_line_spans, split_at_last_complete_line}
use forever_claude_template.Transcript.Records.{parse_session_lines}
use forever_claude_template.Transcript.Parser.Content.{lookup}
use forever_claude_template.Transcript.Refresh.{read_new, ensure_cache_current}
use forever_claude_template.Transcript.Requests.{pending_places, emit_pending}
use forever_claude_template.Transcript.Refresh.Steps.{empty_watcher}
use forever_claude_template.Transcript.Watcher.{new_file, splitlines}
use forever_claude_template.Transcript.Index.{SessionFileState}
use forever_claude_template.Transcript.Watcher.{Watcher}
use forever_claude_template.Base.{get, map, drop, arith}
use forever_claude_template.Transcript.Refresh.Emission.{all_emitted-once}
use forever_claude_template.Transcript.Refresh.Turns.{
  Turn, reads, emits, AreWhole, is_found, after_turns, all_emitted_ids,
}
use forever_claude_template.Transcript.Refresh.Contents.{HasFile, events_of, read_new-events}
use forever_claude_template.Base.{length, ◌+◌}
use forever_claude_template.Transcript.Examples.{sample, decoded, full_file}

-- A watcher that knows one session and read nothing of it.
abbrev one_session : Watcher
one_session = record empty_watcher { session_states = (codes "s", new_file (codes "s")) ∷ [] }

one_known : get one_session.session_states (codes "s") ≡ some (new_file (codes "s"))
unfolding get text_beq
one_known = refl

abbrev one_read : List Turn
one_read = reads full_file ∷ []

still_whole :
    AreWhole decoded
      (λ bytes. false)
      (parse_session_lines sample)
      4
      (codes "s")
      one_read
      one_session
still_whole = (
  λ f known size mtime stat.
      let same : new_file (codes "s") ≡ f = ground (arith, known, one_known) in
      rw (← same) (ground arith),
  _,
)

body_there :
    is_found decoded
      (λ bytes. false)
      (parse_session_lines sample)
      4
      (codes "s")
      (emits full_file)
      (after_turns decoded
        (λ bytes. false)
        (parse_session_lines sample)
        4
        (codes "s")
        one_read
        one_session)
    ≡ true
unfolding ensure_cache_current parse_session_lines get text_beq in_names lookup pending_places put
    remove
body_there = refl

all_emitted-once_example :
    (g : SessionFileState) × (get
        (emit_pending decoded (parse_session_lines sample) 4 full_file (codes "s") (
          after_turns decoded
            (λ bytes. false)
            (parse_session_lines sample)
            4
            (codes "s")
            one_read
            one_session)).watcher.session_states
        (codes "s")
      ≡ some g)
    × (all_emitted_ids decoded
            (λ bytes. false)
            (parse_session_lines sample)
            4
            (codes "s")
            one_read
            one_session
          ++ map
              (λ event. event.event_id)
              (emit_pending decoded (parse_session_lines sample) 4 full_file (codes "s") (
                after_turns decoded
                  (λ bytes. false)
                  (parse_session_lines sample)
                  4
                  (codes "s")
                  one_read
                  one_session)).events
        ≡ map (λ locator. locator.event_id) (drop 0 g.locators))
all_emitted-once_example =
    all_emitted-once decoded (λ bytes. false) (parse_session_lines sample) 4 (codes "s") one_read
      full_file (new_file (codes "s")) one_session one_known (omega arith) still_whole refl
      body_there

-- The read of a file with two records, of which the last is not complete.
abbrev one_and_half : Bytes
one_and_half = codes "full\nfu"

good_read :
    (read_new decoded
      (λ bytes. false)
      (parse_session_lines sample)
      4
      false
      (codes "s")
      1
      one_and_half
      (new_file (codes "s"))
      one_session).1
    ≡ false
unfolding read_new parse_session_lines get text_beq in_names lookup split_at_last_complete_line
good_read = refl

read_new-events_example :
    HasFile
      (codes "s")
      (events_of decoded
        (parse_session_lines sample)
        (codes "s")
        (iter_line_spans (split_at_last_complete_line (λ bytes. false) one_and_half).0 0)
        []
        [])
      (0 + length (split_at_last_complete_line (λ bytes. false) one_and_half).0)
      (read_new decoded
        (λ bytes. false)
        (parse_session_lines sample)
        4
        false
        (codes "s")
        1
        one_and_half
        (new_file (codes "s"))
        one_session).0
read_new-events_example =
    read_new-events decoded (λ bytes. false) (parse_session_lines sample) 4 false (codes "s") 1
      one_and_half (new_file (codes "s")) one_session one_known good_read

-- What this read puts into the index: the one event, at the first five bytes.
read_record :
    events_of decoded
      (parse_session_lines sample)
      (codes "s")
      (iter_line_spans (split_at_last_complete_line (λ bytes. false) one_and_half).0 0)
      []
      []
    ≡ record {
      event_id = codes "u-assistant";
      timestamp = text (codes "2026");
      byte_offset = 0;
      byte_len = 5;
    }
      ∷ []
unfolding iter_line_spans split_at_last_complete_line parse_session_lines text_beq in_names lookup
    splitlines
read_record = refl
