-- ===== src/Transcript/Parser/Crashes.antt =====
-- A record that stops the reading of its file, in
-- apps/system_interface/imbue/system_interface/session_parser.py and session_watcher.py.
use forever_claude_template.Base.{
  codes, ℕ, ◌≡◌, refl, ap, ◌∙◌, true, false, not, ◌||◌, Option, some, [], ◌∷◌, in_names, Text,
  text_beq, text_beq_iff, code_eq,
}
use forever_claude_template.Transcript.Event.{Value, Fields, null, text, object}
use forever_claude_template.Transcript.Lines.{strip}
use forever_claude_template.Transcript.Texts.{is_space}
use forever_claude_template.Transcript.Parser.{
  Progress, make_event_id, assistant_content, parse_assistant_message,
}
use forever_claude_template.Transcript.Records.{parse_record, parse_line}
use forever_claude_template.Transcript.Parser.Content.{
  Runtime, lookup, value_or, truthy, is_text, as_text, is_resume_no_response_reply, synthetic_model,
}

text_beq_refl : (s : Text) → text_beq s s ≡ true
text_beq_refl s = (text_beq_iff s s).1 refl

-- A line that is an assistant record with a uuid and a timestamp, and a message whose content is
-- `null` and whose model is not the synthetic one.
pub record IsNullContent (rt : Runtime) (line : Text) (head : ℕ) (tail : Text)
    (raw message : Fields) (uuid : Text) (timestamp : Value) : Type 0 where
  pub stripped : strip is_space line ≡ head ∷ tail
  pub loaded : rt.loads (head ∷ tail) ≡ some (object raw)
  pub assistant : lookup (codes "type") raw ≡ some (text (codes "assistant"))
  pub has_uuid : lookup (codes "uuid") raw ≡ some (text uuid)
  pub has_timestamp : lookup (codes "timestamp") raw ≡ some timestamp
  pub uuid_given : truthy (text uuid) ≡ true
  pub timestamp_given : truthy timestamp ≡ true
  pub has_message : lookup (codes "message") raw ≡ some (object message)
  pub is_null : lookup (codes "content") message ≡ some null
  pub is_real : is_text synthetic_model (value_or null (lookup (codes "model") message)) ≡ false

module _ (rt : Runtime) (line : Text) (head : ℕ) (tail : Text) (raw message : Fields) (uuid : Text)
    (timestamp : Value) (session_id : Option Text) (p : Progress)
    (h : IsNullContent rt line head tail raw message uuid timestamp)
    (fresh : in_names (make_event_id uuid (codes "assistant")) p.existing_event_ids ≡ false) where
  content_raises : assistant_content rt message uuid timestamp session_id p ≡ (p, true)
  unfolding assistant_content
  content_raises = rw (assistant_content, h.is_null) refl

  real : is_resume_no_response_reply message ≡ some false
  unfolding is_resume_no_response_reply
  real = rw (is_resume_no_response_reply, h.is_real) refl

  message_raises : parse_assistant_message rt raw uuid timestamp session_id p ≡ (p, true)
  unfolding parse_assistant_message
  message_raises = rw (parse_assistant_message, fresh, h.has_message, real) content_raises

  is_assistant : is_text (codes "assistant") (value_or (text []) (lookup (codes "type") raw)) ≡ true
  is_assistant = rw h.assistant (text_beq_refl (codes "assistant"))

  is_given :
      (not (truthy (value_or (text []) (lookup (codes "uuid") raw)))
        || not (truthy (value_or (text []) (lookup (codes "timestamp") raw))))
      ≡ false
  is_given = rw (h.has_uuid, h.has_timestamp, h.uuid_given, h.timestamp_given) refl

  same_uuid : as_text rt (value_or (text []) (lookup (codes "uuid") raw)) ≡ uuid
  same_uuid = rw h.has_uuid refl

  same_timestamp : value_or (text []) (lookup (codes "timestamp") raw) ≡ timestamp
  same_timestamp = rw h.has_timestamp refl

  abbrev given_uuid : Text
  given_uuid = as_text rt (value_or (text []) (lookup (codes "uuid") raw))

  abbrev given_timestamp : Value
  given_timestamp = value_or (text []) (lookup (codes "timestamp") raw)

  record_dispatched :
      parse_record rt raw session_id p
      ≡ parse_assistant_message rt raw given_uuid given_timestamp session_id p
  unfolding parse_record
  record_dispatched = rw (parse_record, is_given, is_assistant) refl

  record_raises : parse_record rt raw session_id p ≡ (p, true)
  record_raises =
      record_dispatched
      ∙ ap (λ u. parse_assistant_message rt raw u given_timestamp session_id p) same_uuid
      ∙ ap (λ t. parse_assistant_message rt raw uuid t session_id p) same_timestamp
      ∙ message_raises

  -- An assistant record with a null content whose event was not seen yet raises, and nothing is noted.
  pub null_content-raises : parse_line rt line session_id p ≡ (p, true)
  unfolding parse_line
  null_content-raises = rw (parse_line, h.stripped, h.loaded) record_raises
