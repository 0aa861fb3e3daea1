-- ===== src/Transcript/Parser/Seen.antt =====
-- The parser makes each event once, in
-- apps/system_interface/imbue/system_interface/session_parser.py.
use forever_claude_template.Base.{
  codes, ◌≡◌, refl, Bool, true, false, inl, inr, Option, none, some, List, [], ◌∷◌, ◌++◌, arith,
  Bool-cases, Option-cases, Dict, in_names, Text, text_beq, text_beq_iff, code_eq, All, All-append,
}
use forever_claude_template.Transcript.Event.{
  Value, Fields, array, object, none_left, no_key, Event,
}
use forever_claude_template.Transcript.Parser.{
  Progress, emit, make_event_id, usage_of, assistant_event, assistant_content,
  parse_assistant_message,
}
use forever_claude_template.Transcript.Parser.Content.{
  Runtime, lookup, value_or, blocks_of, assistant_blocks, is_resume_no_response_reply,
}
use forever_claude_template.Transcript.Refresh.Appending.{AreFresh}

-- The events of a call are new, marked as seen, and apart, and nothing was forgotten.
pub record Marks (old : List Text) (p : Progress) : Type 0 where
  pub keeps : (k : Text) → in_names k old ≡ true → in_names k p.existing_event_ids ≡ true
  pub unseen : All (λ e. in_names e.event_id old ≡ false) p.new_events
  pub marked : All (λ e. in_names e.event_id p.existing_event_ids ≡ true) p.new_events
  pub apart : AreFresh p.new_events

-- A change that keeps the ids and the events.
renamed-Marks :
    (old : List Text) (p : Progress) (names : Dict Text Text)
    → Marks old p
    → Marks old (record p { tool_name_by_call_id = names })
renamed-Marks old p names m = record {
  keeps = m.keeps;
  unseen = m.unseen;
  marked = m.marked;
  apart = m.apart;
}

still_marked :
    (ids : List Text) (k : Text) (es : List Event)
    → All (λ e. in_names e.event_id ids ≡ true) es
    → All (λ e. in_names e.event_id (k ∷ ids) ≡ true) es
unfolding in_names
still_marked ids k [] h = _
still_marked ids k (e ∷ es) h = (ground (arith, h.0), still_marked ids k es h.1)

apart_snoc :
    (ids : List Text) (new : Event) (es : List Event)
    → All (λ e. in_names e.event_id ids ≡ true) es
    → in_names new.event_id ids ≡ false
    → AreFresh es
    → AreFresh (es ++ new ∷ [])
apart_snoc ids new [] h n f = (_, _)
apart_snoc ids new (e ∷ es) h n f = (
  All-append (λ later. text_beq e.event_id later.event_id ≡ false) es (new ∷ []) f.0 (differs, _),
  apart_snoc ids new es h.1 n f.1,
)
  where
    differs : text_beq e.event_id new.event_id ≡ false
    differs = elim (Bool-cases (text_beq e.event_id new.event_id)) [
      | inr b ↦ b
      | inl b ↦
          let same : e.event_id ≡ new.event_id = (text_beq_iff e.event_id new.event_id).0 b in
          let marked = h.0 in cc
    ]

pub emit-Marks :
    (old : List Text) (e : Event) (p : Progress)
    → Marks old p
    → in_names e.event_id p.existing_event_ids ≡ false
    → Marks old (emit e p)
unfolding emit in_names
emit-Marks old e p m h = record {
  keeps = λ k there. ground (arith, m.keeps k there);
  unseen =
      All-append (λ e. in_names e.event_id old ≡ false) p.new_events (e ∷ []) m.unseen
        (was_unseen, _);
  marked =
      All-append (λ other. in_names other.event_id (e.event_id ∷ p.existing_event_ids) ≡ true)
        p.new_events (e ∷ []) (still_marked p.existing_event_ids e.event_id p.new_events m.marked)
        (ground (arith, text_beq_iff e.event_id e.event_id), _);
  apart = apart_snoc p.existing_event_ids e p.new_events m.marked h m.apart;
}
  where
    was_unseen : in_names e.event_id old ≡ false
    was_unseen = elim (Bool-cases (in_names e.event_id old)) [
      | inr b ↦ b
      | inl b ↦ let kept = m.keeps e.event_id b in cc
    ]

module _ (rt : Runtime) (old : List Text) where
  assistant_content-Marks :
      (message : Fields) (uuid : Text) (timestamp : Value) (session_id : Option Text) (p : Progress)
      → Marks old p
      → in_names (make_event_id uuid (codes "assistant")) p.existing_event_ids ≡ false
      → Marks old (assistant_content rt message uuid timestamp session_id p).0
  unfolding assistant_content assistant_event
  assistant_content-Marks message uuid timestamp session_id p m h =
      let content = blocks_of (value_or (array none_left) (lookup (codes "content") message)) in
      let used = usage_of (value_or (object no_key) (lookup (codes "usage") message)) in
      elim (Option-cases content) [
        | inl e ↦ rw (assistant_content, e) m
        | inr (items, e) ↦
            let blocks = assistant_blocks rt items p.tool_name_by_call_id in
            let named : Progress = record p {
              tool_name_by_call_id = blocks.tool_name_by_call_id;
            } in
            let named_marks = renamed-Marks old p blocks.tool_name_by_call_id m in
            elim (Option-cases used) [
              | inl u ↦ rw (assistant_content, e, u) named_marks
              | inr (usage, u) ↦ elim (Bool-cases blocks.is_raised) [
                | inl raised ↦ rw (assistant_content, e, u, raised) named_marks
                | inr fine ↦
                    rw (assistant_content, e, u, fine)
                      (emit-Marks old
                        (assistant_event rt message blocks usage uuid timestamp session_id) named
                        named_marks h)
              ]
            ]
      ]

  pub parse_assistant-Marks :
      (raw : Fields) (uuid : Text) (timestamp : Value) (session_id : Option Text) (p : Progress)
      → Marks old p
      → Marks old (parse_assistant_message rt raw uuid timestamp session_id p).0
  unfolding parse_assistant_message
  parse_assistant-Marks raw uuid timestamp session_id p m =
      elim (Bool-cases (in_names (make_event_id uuid (codes "assistant")) p.existing_event_ids)) [
        | inl e ↦ rw (parse_assistant_message, e) m
        | inr e ↦ go (lookup (codes "message") raw) refl e
      ]
    where
      replied :
          (message : Fields) (o : Option Bool)
          → is_resume_no_response_reply message ≡ o
          → lookup (codes "message") raw ≡ some (object message)
          → in_names (make_event_id uuid (codes "assistant")) p.existing_event_ids ≡ false
          → Marks old (parse_assistant_message rt raw uuid timestamp session_id p).0
      replied message none r l e = rw (parse_assistant_message, e, l, r) m
      replied message (some true) r l e = rw (parse_assistant_message, e, l, r) m
      replied message (some false) r l e =
          rw (parse_assistant_message, e, l, r)
            (assistant_content-Marks message uuid timestamp session_id p m e)

      go :
          (o : Option Value)
          → lookup (codes "message") raw ≡ o
          → in_names (make_event_id uuid (codes "assistant")) p.existing_event_ids ≡ false
          → Marks old (parse_assistant_message rt raw uuid timestamp session_id p).0
      go none l e = rw (parse_assistant_message, e, l) m
      go (some Value.null) l e = rw (parse_assistant_message, e, l) m
      go (some (Value.boolean b)) l e = rw (parse_assistant_message, e, l) m
      go (some (Value.number z d)) l e = rw (parse_assistant_message, e, l) m
      go (some (Value.text t)) l e = rw (parse_assistant_message, e, l) m
      go (some (Value.array items)) l e = rw (parse_assistant_message, e, l) m
      go (some (Value.object message)) l e =
          replied message (is_resume_no_response_reply message) refl l e
