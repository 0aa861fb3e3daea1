-- ===== src/Transcript/Examples.antt =====
-- Concrete lines, records and runs of the transcript of apps/system_interface.
use forever_claude_template.Base.{Bool, text_ltb}
use forever_claude_template.Base.{
  codes, ◌≡◌, refl, true, false, Option, none, some, List, [], ◌∷◌, if◌then◌else◌, in_names, Text,
  text_beq, text_eq, code_eq,
}
use forever_claude_template.Transcript.Event.{
  Value, Fields, null, text, array, object, none_left, no_key, field,
}
use forever_claude_template.Transcript.Lines.{
  Bytes, Span, iter_line_spans, split_at_last_complete_line, strip,
}
use forever_claude_template.Transcript.Lines.Reading.{Reads, iter_line_spans-Reads}
use forever_claude_template.Transcript.Texts.{
  normalize_slash_command, find_agent_id, match_decoration, after_prefix,
}
use forever_claude_template.Transcript.Parser.{make_event_id}
use forever_claude_template.Transcript.Records.{sort_events, parse_session_lines}
use forever_claude_template.Transcript.UserMessages.{parse_tool_result, user_event}
use forever_claude_template.Transcript.Event.{Event, item, number}
use forever_claude_template.Transcript.Parser.Content.{Runtime, lookup}
use forever_claude_template.Transcript.Parser.Calls.{parse_session_lines-MarksSeen}
use forever_claude_template.Transcript.Parser.Crashes.{IsNullContent}
use forever_claude_template.Transcript.Refresh.{FileOnDisk, read_new}
use forever_claude_template.Transcript.Refresh.Appending.{MarksSeen}
use forever_claude_template.Transcript.Refresh.Steps.{empty_watcher}
use forever_claude_template.Transcript.Refresh.Runs.{Step, find_main, request, poll_read, emission}
use forever_claude_template.Transcript.Watcher.{new_file, splitlines}
use forever_claude_template.Transcript.Stalls.{null_content-stalls}

newline_code : codes "\n" ≡ 10 ∷ []
newline_code = refl

rebuilt_command :
    normalize_slash_command (
      codes
        "<command-message>go</command-message> <command-name>/go</command-name> <command-args>far\n</command-args>")
    ≡ codes "/go far"
unfolding normalize_slash_command after_prefix strip
rebuilt_command = refl

trailing_agent : find_agent_id (codes "done agentId: af25 x") ≡ some (codes "af25")
unfolding find_agent_id
trailing_agent = refl

transition_line :
    match_decoration (codes "Updated s1 -> closed and more") ≡ some (codes "Updated s1 -> closed")
unfolding match_decoration
transition_line = refl

title_line :
    match_decoration (codes "tk-step s1 title: Do it\nnext")
    ≡ some (codes "tk-step s1 title: Do it")
unfolding match_decoration
title_line = refl

no_status : match_decoration (codes "Updated s1 -> done") ≡ none
unfolding match_decoration
no_status = refl

kept_fragment :
    split_at_last_complete_line (λ bytes. false) (codes "a\nb") ≡ (codes "a\n", codes "b")
unfolding split_at_last_complete_line
kept_fragment = refl

-- A record of an assistant message with the uuid `u`.
abbrev assistant_record : Value → Fields
assistant_record content = field (codes "type") (text (codes "assistant")) (
    field (codes "uuid") (text (codes "u")) (
      field (codes "timestamp") (text (codes "2026"))
        (field (codes "message") (object (field (codes "content") content no_key)) no_key)))

abbrev less_text : Value → Value → Option Bool
less_text (text s) (text t) = some (text_ltb s t)
less_text _ _ = none

-- Two lines are records: `full` has an empty content, any other a content that is null.
abbrev pub sample : Runtime
sample = record {
  loads = λ line.
      if text_beq line (codes "full")
      then some (object (assistant_record (array none_left)))
      else some (object (assistant_record null));
  dumps = λ value. [];
  show = λ value. [];
  is_auth_error_text = λ t. false;
  tk_verbs = λ command. none;
  less = less_text;
}

-- A tool result whose id is a list, which cannot be a key.
unhashable_id :
    parse_tool_result sample
      (object (
        field
          (codes "type")
          (text (codes "tool_result"))
          (field (codes "tool_use_id") (array (item null none_left)) no_key)))
      none
      (codes "u")
      (text (codes "2026"))
      none
      (record { existing_event_ids = []; tool_name_by_call_id = []; new_events = [] })
    ≡ (record { existing_event_ids = []; tool_name_by_call_id = []; new_events = [] }, true)
unfolding parse_tool_result lookup text_beq in_names
unhashable_id = refl

-- An event at a time.
abbrev event_at : Value → Event
event_at timestamp =
    user_event (codes "u-user") (codes "u") timestamp none
      (record { content = []; is_meta = false })

-- A timestamp that is a text and one that is a number cannot be compared.
mixed_timestamps :
    sort_events sample (event_at (text (codes "2026")) ∷ event_at (number false (codes "7")) ∷ [])
    ≡ none
unfolding sort_events
mixed_timestamps = refl

later_first :
    sort_events sample (event_at (text (codes "2027")) ∷ event_at (text (codes "2026")) ∷ [])
    ≡ some (event_at (text (codes "2026")) ∷ event_at (text (codes "2027")) ∷ [])
unfolding sort_events text_ltb
later_first = refl

abbrev pub decoded : Bytes → Option Text
decoded bytes = some bytes

abbrev pub full_file : Text → FileOnDisk
full_file session_id = record { stat = some (5, 1); contents = some (codes "full\n") }

abbrev after_request : List Step
after_request =
    find_main (codes "s")
    ∷ request full_file none
    ∷ poll_read full_file (codes "s")
    ∷ emission full_file (codes "s")
    ∷ []

parse_session_lines-MarksSeen_example : MarksSeen (parse_session_lines sample)
parse_session_lines-MarksSeen_example = parse_session_lines-MarksSeen sample

iter_line_spans-Reads_example :
    Reads 2 (codes "a\n") (codes "d\n") (codes "b\nc") (iter_line_spans (codes "b\nc") 2)
iter_line_spans-Reads_example =
    iter_line_spans-Reads 2 (codes "a\n") (codes "b\nc") (codes "d\n") refl

null_line :
    IsNullContent sample
      (codes "x")
      120
      []
      (assistant_record null)
      (field (codes "content") null no_key)
      (codes "u")
      (text (codes "2026"))
unfolding lookup strip text_beq
null_line = record {
  stripped = refl;
  loaded = refl;
  assistant = refl;
  has_uuid = refl;
  has_timestamp = refl;
  uuid_given = refl;
  timestamp_given = refl;
  has_message = refl;
  is_null = refl;
  is_real = refl;
}

abbrev null_span : Span
null_span = record { byte_offset = 0; byte_len = 2; line_bytes = codes "x\n" }

null_cut :
    iter_line_spans (split_at_last_complete_line (λ bytes. false) (codes "x\n")).0 0
    ≡ null_span ∷ []
unfolding iter_line_spans split_at_last_complete_line
null_cut = refl

-- A raw U+2028 inside a string literal cuts the line in two.
separator_cut : splitlines (34 ∷ 8232 ∷ 34 ∷ []) ≡ (34 ∷ []) ∷ (34 ∷ []) ∷ []
unfolding splitlines
separator_cut = refl

null_lines : splitlines (codes "x\n") ≡ codes "x" ∷ []
unfolding splitlines
null_lines = refl

unseen : in_names (make_event_id (codes "u") (codes "assistant")) [] ≡ false
unfolding in_names
unseen = refl

null_content-stalls_example :
    read_new decoded
      (λ bytes. false)
      (parse_session_lines sample)
      4
      false
      (codes "s")
      1
      (codes "x\n")
      (new_file (codes "s"))
      empty_watcher
    ≡ (empty_watcher, true)
null_content-stalls_example =
    null_content-stalls sample (codes "x") 120 [] (assistant_record null)
      (field (codes "content") null no_key) (codes "u") (text (codes "2026")) decoded
      (λ bytes. false) 4 false (codes "s") (codes "x\n") [] null_span [] 1 (codes "x\n")
      (new_file (codes "s")) empty_watcher null_line null_cut refl null_lines unseen
