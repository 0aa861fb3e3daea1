-- ===== src/Transcript/Parser/Calls.antt =====
-- A whole call of the parser makes each event once, in
-- apps/system_interface/imbue/system_interface/session_parser.py.
use forever_claude_template.Base.{
  codes, ◌≡◌, refl, Bool, true, false, not, ◌||◌, inl, inr, Option, none, some, List, [], ◌∷◌,
  arith, Bool-cases, Option-cases, if◌then◌else◌, Dict, in_names, Text, text_beq, text_beq_iff,
  code_eq, All,
}
use forever_claude_template.Transcript.Event.{Value, Fields, text, Event}
use forever_claude_template.Transcript.Lines.{strip}
use forever_claude_template.Transcript.Texts.{is_space}
use forever_claude_template.Transcript.Parser.{Progress}
use forever_claude_template.Transcript.Records.{
  parse_record, parse_line, parse_lines, insert_event, sort_events, parsed_of, parse_session_lines,
}
use forever_claude_template.Transcript.Parser.Content.{
  Runtime, lookup, value_or, truthy, is_text, as_text,
}
use forever_claude_template.Transcript.Parser.Seen.{Marks, parse_assistant-Marks}
use forever_claude_template.Transcript.Parser.Messages.{parse_user-Marks, parse_queued-Marks}
use forever_claude_template.Transcript.Refresh.Appending.{AreFresh, MarksSeen}

module _ (rt : Runtime) (old : List Text) where
  parse_record-Marks :
      (raw : Fields) (session_id : Option Text) (p : Progress)
      → Marks old p
      → Marks old (parse_record rt raw session_id p).0
  unfolding parse_record
  parse_record-Marks raw session_id p m =
      let type_value = value_or (text []) (lookup (codes "type") raw) in
      let uuid_value = value_or (text []) (lookup (codes "uuid") raw) in
      let timestamp_value = value_or (text []) (lookup (codes "timestamp") raw) in
      let uuid = as_text rt uuid_value in
      elim (Bool-cases (not (truthy uuid_value) || not (truthy timestamp_value))) [
        | inl e ↦ rw (parse_record, e) m
        | inr e ↦ elim (Bool-cases (is_text (codes "assistant") type_value)) [
          | inl a ↦
              rw (parse_record, e, a)
                (parse_assistant-Marks rt old raw uuid timestamp_value session_id p m)
          | inr a ↦ elim (Bool-cases (is_text (codes "user") type_value)) [
            | inl u ↦
                rw (parse_record, e, a, u)
                  (parse_user-Marks rt old raw uuid timestamp_value session_id p m)
            | inr u ↦ elim (Bool-cases (is_text (codes "attachment") type_value)) [
              | inl q ↦
                  rw (parse_record, e, a, u, q)
                    (parse_queued-Marks rt old raw uuid timestamp_value session_id p m)
              | inr q ↦ rw (parse_record, e, a, u, q) m
            ]
          ]
        ]
      ]

  parse_line-Marks :
      (line : Text) (session_id : Option Text) (p : Progress)
      → Marks old p
      → Marks old (parse_line rt line session_id p).0
  unfolding parse_line
  parse_line-Marks line session_id p m = go (strip is_space line) refl
    where
      loaded :
          (stripped : Text) (o : Option Value)
          → strip is_space line ≡ stripped
          → rt.loads stripped ≡ o
          → Marks old (parse_line rt line session_id p).0
      loaded [] o e l = rw (parse_line, e) m
      loaded (c ∷ s) none e l = rw (parse_line, e, l) m
      loaded (c ∷ s) (some Value.null) e l = rw (parse_line, e, l) m
      loaded (c ∷ s) (some (Value.boolean b)) e l = rw (parse_line, e, l) m
      loaded (c ∷ s) (some (Value.number z d)) e l = rw (parse_line, e, l) m
      loaded (c ∷ s) (some (Value.text t)) e l = rw (parse_line, e, l) m
      loaded (c ∷ s) (some (Value.array items)) e l = rw (parse_line, e, l) m
      loaded (c ∷ s) (some (Value.object raw)) e l =
          rw (parse_line, e, l) (parse_record-Marks raw session_id p m)

      go :
          (stripped : Text)
          → strip is_space line ≡ stripped
          → Marks old (parse_line rt line session_id p).0
      go stripped e = loaded stripped (rt.loads stripped) e refl

  parse_lines-Marks :
      (lines : List Text) (session_id : Option Text) (p : Progress)
      → Marks old p
      → Marks old (parse_lines rt lines session_id p).0
  unfolding parse_lines
  parse_lines-Marks [] session_id p m = m
  parse_lines-Marks (line ∷ lines) session_id p m =
      let read = parse_line rt line session_id p in
      let read_marks = parse_line-Marks line session_id p m in
      elim (Bool-cases read.1) [
        | inl raised ↦ rw (parse_lines, raised) read_marks
        | inr fine ↦ rw (parse_lines, fine) (parse_lines-Marks lines session_id read.0 read_marks)
      ]

-- What holds of the events, where there are any.
abbrev Each : (List Event → Type 0) → Option (List Event) → Type 0
Each P none = Unit
Each P (some es) = P es

module _ (rt : Runtime) (P : Event → Type 0) where
  All-insert : (e : Event) (es : List Event) → P e → All P es → Each (All P) (insert_event rt e es)
  unfolding insert_event
  All-insert e [] p h = (p, _)
  All-insert e (other ∷ es) p h = elim (Option-cases (rt.less other.timestamp e.timestamp)) [
    | inl apart ↦ rw (insert_event, apart) _
    | inr (false, here) ↦ rw (insert_event, here) (p, h)
    | inr (true, later) ↦ elim (Option-cases (insert_event rt e es)) [
      | inl lost ↦ rw (insert_event, later, lost) _
      | inr (sorted, s) ↦ rw (insert_event, later, s) (h.0, rw s at (All-insert e es p h.1))
    ]
  ]

  All-sort : (es : List Event) → All P es → Each (All P) (sort_events rt es)
  unfolding sort_events
  All-sort [] h = _
  All-sort (e ∷ es) h = elim (Option-cases (sort_events rt es)) [
    | inl lost ↦ rw (sort_events, lost) _
    | inr (sorted, s) ↦ rw (sort_events, s) (All-insert e sorted h.0 (rw s at (All-sort es h.1)))
  ]

beq_sym : (s t : Text) → text_beq s t ≡ false → text_beq t s ≡ false
beq_sym s t h = ground (arith, h, text_beq_iff s t, text_beq_iff t s)

insert-AreFresh :
    (rt : Runtime) (e : Event) (es : List Event)
    → All (λ later. text_beq e.event_id later.event_id ≡ false) es
    → AreFresh es
    → Each AreFresh (insert_event rt e es)
unfolding insert_event
insert-AreFresh rt e [] h f = (_, _)
insert-AreFresh rt e (other ∷ es) h f = elim (Option-cases (rt.less other.timestamp e.timestamp)) [
  | inl apart ↦ rw (insert_event, apart) _
  | inr (false, here) ↦ rw (insert_event, here) (h, f)
  | inr (true, later) ↦ elim (Option-cases (insert_event rt e es)) [
    | inl lost ↦ rw (insert_event, later, lost) _
    | inr (sorted, s) ↦
        rw (insert_event, later, s)
          (
            rw s at (
                All-insert rt (λ later. text_beq other.event_id later.event_id ≡ false) e es
                  (beq_sym e.event_id other.event_id h.0) f.0),
            rw s at (insert-AreFresh rt e es h.1 f.1),
          )
  ]
]

sort-AreFresh : (rt : Runtime) (es : List Event) → AreFresh es → Each AreFresh (sort_events rt es)
unfolding sort_events
sort-AreFresh rt [] f = _
sort-AreFresh rt (e ∷ es) f = elim (Option-cases (sort_events rt es)) [
  | inl lost ↦ rw (sort_events, lost) _
  | inr (sorted, s) ↦
      rw (sort_events, s)
        (insert-AreFresh rt e sorted
          (rw s at (All-sort rt (λ later. text_beq e.event_id later.event_id ≡ false) es f.0))
          (rw s at (sort-AreFresh rt es f.1)))
]

-- What holds of all events of a call holds of those it returns.
returned :
    (P : List Event → Type 0) (p : Progress) (is_raised : Bool) (sorted : Option (List Event))
    → P []
    → Each P sorted
    → P (parsed_of p (if is_raised then none else sorted)).events
returned P p true sorted a b = a
returned P p false none a b = a
returned P p false (some es) a b = b

parsed-existing :
    (p : Progress) (sorted : Option (List Event))
    → (parsed_of p sorted).existing_event_ids ≡ p.existing_event_ids
parsed-existing p none = refl
parsed-existing p (some es) = refl

start-Marks :
    (old : List Text) (names : Dict Text Text)
    → Marks old (record { existing_event_ids = old; tool_name_by_call_id = names; new_events = [] })
start-Marks old names = record { keeps = λ k h. h; unseen = _; marked = _; apart = _ }

abbrev read_all : Runtime → List Text → List Text → Dict Text Text → Option Text → Progress × Bool
read_all rt lines existing names session_id =
    parse_lines rt lines session_id
      (record { existing_event_ids = existing; tool_name_by_call_id = names; new_events = [] })

all-Marks :
    (rt : Runtime) (lines existing : List Text) (names : Dict Text Text) (session_id : Option Text)
    → Marks existing (read_all rt lines existing names session_id).0
all-Marks rt lines existing names session_id =
    parse_lines-Marks rt existing lines session_id
      (record { existing_event_ids = existing; tool_name_by_call_id = names; new_events = [] })
      (start-Marks existing names)

-- Whatever the lines and the values in them, the parser's events have ids that were not seen before and
-- that differ from each other, it marks each id as seen, and it forgets no id, raised or not.
pub parse_session_lines-MarksSeen : (rt : Runtime) → MarksSeen (parse_session_lines rt)
unfolding parse_session_lines
parse_session_lines-MarksSeen rt = record {
  keeps = λ lines existing names session_id k h.
      let r = read_all rt lines existing names session_id in
      let sorted = if r.1 then none else sort_events rt r.0.new_events in
      rw (parsed-existing r.0 sorted) ((all-Marks rt lines existing names session_id).keeps k h);
  unseen = λ lines existing names session_id.
      let m = all-Marks rt lines existing names session_id in
      let r = read_all rt lines existing names session_id in
      returned (All (λ e. in_names e.event_id existing ≡ false)) r.0 r.1
        (sort_events rt r.0.new_events) _
        (All-sort rt (λ e. in_names e.event_id existing ≡ false) r.0.new_events m.unseen);
  marked = λ lines existing names session_id.
      let m = all-Marks rt lines existing names session_id in
      let r = read_all rt lines existing names session_id in
      let sorted = if r.1 then none else sort_events rt r.0.new_events in
      rw (parsed-existing r.0 sorted) (
        returned (All (λ e. in_names e.event_id r.0.existing_event_ids ≡ true)) r.0 r.1
          (sort_events rt r.0.new_events) _
          (All-sort rt (λ e. in_names e.event_id r.0.existing_event_ids ≡ true) r.0.new_events
            m.marked));
  apart = λ lines existing names session_id.
      let m = all-Marks rt lines existing names session_id in
      let r = read_all rt lines existing names session_id in
      returned AreFresh r.0 r.1 (sort_events rt r.0.new_events) _
        (sort-AreFresh rt r.0.new_events m.apart);
}
