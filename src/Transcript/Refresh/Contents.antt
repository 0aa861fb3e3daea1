-- ===== src/Transcript/Refresh/Contents.antt =====
-- What a read puts into the index, in apps/system_interface/imbue/system_interface/session_watcher.py.
use forever_claude_template.Base.{
  ℕ, ◌+◌, ◌≡◌, refl, sym, ap, ◌∙◌, Bool, true, false, inl, inr, Option, none, some, List, [], ◌∷◌,
  ◌++◌, map, arith, Bool-cases, Option-cases, length, append_assoc, append_nil, get, Dict, Text,
  code_eq, ◌==◌,
}
use forever_claude_template.Transcript.Event.{Event}
use forever_claude_template.Transcript.Lines.{
  Bytes, Span, split_at_last_complete_line, iter_line_spans, spans_loop,
}
use forever_claude_template.Transcript.Index.{EventLocator, SessionFileState}
use forever_claude_template.Transcript.Watcher.{
  Watcher, LineParser, append_event, append_events, splitlines, read_lines,
}
use forever_claude_template.Transcript.Refresh.{
  change_file, all_emitted, mark_if, consumed_more, finish_read, read_new,
}
use forever_claude_template.Transcript.Refresh.Indexing.{get-put_same, with_locators}

abbrev located : Span → Event → EventLocator
located span event = record {
  event_id = event.event_id;
  timestamp = event.timestamp;
  byte_offset = span.byte_offset;
  byte_len = span.byte_len;
}

-- The events of some lines, each at its line's bytes: every line that is UTF-8 is parsed once, in order,
-- after what the lines before it left in the two collections.
abbrev pub events_of :
    (Bytes → Option Text)
    → LineParser
    → Text
    → List Span
    → List Text
    → Dict Text Text
    → List EventLocator
events_of decode parse sid [] existing names = []
events_of decode parse sid (span ∷ spans) existing names = elim (decode span.line_bytes) [
  | none ↦ events_of decode parse sid spans existing names
  | some decoded ↦
      let parsed = parse (splitlines decoded) existing names (some sid) in
      map (located span) parsed.events
      ++ events_of decode parse sid spans parsed.existing_event_ids parsed.tool_name_by_call_id
]

-- The session's file with the given locators and offset.
abbrev pub HasFile : Text → List EventLocator → ℕ → Watcher → Type 0
HasFile sid locators consumed w =
    (g : SessionFileState) × (get w.session_states sid ≡ some g)
    × (g.locators ≡ locators)
    × (g.byte_offset_consumed ≡ consumed)

append_events-located :
    (capacity : ℕ) (mark : Bool) (sid : Text) (span : Span) (es : List Event) (f : SessionFileState)
    (w : Watcher)
    → get w.session_states sid ≡ some f
    → let v = append_events capacity mark sid span.byte_offset span.byte_len es w in
      (get v.session_states sid ≡ some (with_locators f (f.locators ++ map (located span) es)))
      × (v.existing_event_ids ≡ w.existing_event_ids)
      × (v.tool_name_by_call_id ≡ w.tool_name_by_call_id)
unfolding append_events append_event
append_events-located capacity mark sid span [] f w h =
    (h ∙ ap (λ ls. some (with_locators f ls)) (sym (append_nil f.locators)), refl, refl)
append_events-located capacity mark sid span (e ∷ es) f w h =
    let next = append_event capacity mark sid span.byte_offset span.byte_len e f w in
    let grown = with_locators f (f.locators ++ located span e ∷ []) in
    let known : get next.session_states sid ≡ some grown =
      get-put_same w.session_states sid grown in
    let rest = append_events-located capacity mark sid span es grown next known in
    rw (append_events, h)
      (
        rest.0
            ∙ ap (λ ls. some (with_locators f ls))
                (append_assoc f.locators (located span e ∷ []) (map (located span) es)),
        rest.1,
        rest.2,
      )

module _ (decode : Bytes → Option Text) (loads : Bytes → Bool) (parse : LineParser) (capacity : ℕ)
    (mark : Bool) (sid : Text) where
  read_lines-located :
      (spans : List Span) (f : SessionFileState) (w : Watcher)
      → get w.session_states sid ≡ some f
      → (read_lines decode parse capacity mark sid spans w).1 ≡ false
      → get (read_lines decode parse capacity mark sid spans w).0.session_states sid
        ≡ some (
            with_locators f (
              f.locators
              ++ events_of decode parse sid spans w.existing_event_ids w.tool_name_by_call_id))
  unfolding read_lines
  read_lines-located [] f w h fine =
      h ∙ ap (λ ls. some (with_locators f ls)) (sym (append_nil f.locators))
  read_lines-located (span ∷ spans) f w h fine = elim (Option-cases (decode span.line_bytes)) [
    | inl bad ↦
        let same : read_lines decode parse capacity mark sid (span ∷ spans) w
            ≡ read_lines decode parse capacity mark sid spans w =
          rw (read_lines, bad) refl in
        rw (same, events_of, bad) (read_lines-located spans f w h (sym (ap (λ r. r.1) same) ∙ fine))
    | inr (decoded, good) ↦
        let parsed =
          parse (splitlines decoded) w.existing_event_ids w.tool_name_by_call_id (some sid) in
        let noted : Watcher = record w {
          existing_event_ids = parsed.existing_event_ids;
          tool_name_by_call_id = parsed.tool_name_by_call_id;
        } in
        let next =
          append_events capacity mark sid span.byte_offset span.byte_len parsed.events noted in
        let added = append_events-located capacity mark sid span parsed.events f noted h in
        let grown = with_locators f (f.locators ++ map (located span) parsed.events) in
        elim (Bool-cases parsed.is_raised) [
          | inl raised ↦
              let ended : read_lines decode parse capacity mark sid (span ∷ spans) w
                  ≡ (noted, true) =
                rw (read_lines, good, raised) refl in
              let bad : true ≡ false = sym (ap (λ r. r.1) ended) ∙ fine in
              let worse : false ≡ true = ground (arith, bad) in cc
          | inr quiet ↦
              let same : read_lines decode parse capacity mark sid (span ∷ spans) w
                  ≡ read_lines decode parse capacity mark sid spans next =
                rw (read_lines, good, quiet) refl in
              let rest =
                read_lines-located spans grown next added.0 (sym (ap (λ r. r.1) same) ∙ fine) in
              let later = events_of decode parse sid spans in
              let gone_on : later next.existing_event_ids next.tool_name_by_call_id
                  ≡ later parsed.existing_event_ids parsed.tool_name_by_call_id =
                cc (added.1, added.2) in
              rw (same, events_of, good)
                (rest
                  ∙ ap
                      (λ ls.
                        some (
                          with_locators f ((f.locators ++ map (located span) parsed.events) ++ ls)))
                      gone_on
                  ∙ ap (λ ls. some (with_locators f ls))
                      (append_assoc f.locators (map (located span) parsed.events)
                        (later parsed.existing_event_ids parsed.tool_name_by_call_id)))
        ]
  ]

  change_file-HasFile :
      (change : SessionFileState → SessionFileState) (f : SessionFileState) (w : Watcher)
      → get w.session_states sid ≡ some f
      → HasFile sid (change f).locators (change f).byte_offset_consumed (change_file change sid w)
  change_file-HasFile change f w h =
      (change f, rw (change_file, h) (get-put_same w.session_states sid (change f)), refl, refl)

  mark_if-HasFile :
      (f : SessionFileState) (w : Watcher)
      → get w.session_states sid ≡ some f
      → HasFile sid f.locators f.byte_offset_consumed (mark_if mark sid w)
  mark_if-HasFile f w h = elim (Bool-cases mark) [
    | inl m ↦ rw m (change_file-HasFile all_emitted f w h)
    | inr m ↦ rw m (f, h, refl, refl)
  ]

  finished-HasFile :
      (count mtime : ℕ) (locators : List EventLocator) (f : SessionFileState) (r : Watcher × Bool)
      → r.1 ≡ false
      → get r.0.session_states sid ≡ some (with_locators f locators)
      → HasFile sid locators (f.byte_offset_consumed + count) (finish_read mark sid count mtime r).0
  finished-HasFile count mtime locators f (w, true) fine h =
      let bad : false ≡ true = ground (arith, fine) in cc
  finished-HasFile count mtime locators f (w, false) fine h =
      let read = with_locators f locators in
      let moved = change_file-HasFile (consumed_more count mtime) read w h in
      let marked =
        mark_if-HasFile moved.0 (change_file (consumed_more count mtime) sid w) moved.1 in
      (marked.0, marked.1, marked.2 ∙ moved.2, marked.3 ∙ moved.3)

finish_read-raised :
    (mark : Bool) (sid : Text) (count mtime : ℕ) (r : Watcher × Bool)
    → (finish_read mark sid count mtime r).1 ≡ r.1
finish_read-raised mark sid count mtime (w, true) = refl
finish_read-raised mark sid count mtime (w, false) = refl

empty-iter_line_spans :
    (bs : Bytes) (base : ℕ) → (length bs == 0) ≡ true → iter_line_spans bs base ≡ []
unfolding iter_line_spans spans_loop
empty-iter_line_spans [] base h = refl
empty-iter_line_spans (b ∷ bs) base h = let bad : false ≡ true = ground (arith, h) in cc

-- A read of new bytes that raises nothing adds to the session's index the events of each complete line
-- of these bytes, in order, each at the offset and length of its line, and nothing else, and moves
-- the offset of the file behind the last complete line.
pub read_new-events :
    (decode : Bytes → Option Text) (loads : Bytes → Bool) (parse : LineParser) (capacity : ℕ)
    (mark : Bool) (sid : Text) (mtime : ℕ) (new_bytes : Bytes) (f : SessionFileState) (w : Watcher)
    → get w.session_states sid ≡ some f
    → (read_new decode loads parse capacity mark sid mtime new_bytes f w).1 ≡ false
    → let complete = (split_at_last_complete_line loads new_bytes).0 in
      HasFile sid
        (f.locators
          ++ events_of decode parse sid
              (iter_line_spans complete f.byte_offset_consumed)
              w.existing_event_ids
              w.tool_name_by_call_id)
        (f.byte_offset_consumed + length complete)
        (read_new decode loads parse capacity mark sid mtime new_bytes f w).0
unfolding read_new
read_new-events decode loads parse capacity mark sid mtime new_bytes f w h fine =
    let complete = (split_at_last_complete_line loads new_bytes).0 in
    let spans = iter_line_spans complete f.byte_offset_consumed in
    elim (Bool-cases (length complete == 0)) [
      | inl e ↦
          let none_cut = empty-iter_line_spans complete f.byte_offset_consumed e in
          let kept = mark_if-HasFile decode loads parse capacity mark sid f w h in
          let zero_read : f.byte_offset_consumed ≡ f.byte_offset_consumed + length complete =
            let none_left : length complete ≡ 0 = ground (arith, e) in omega (arith, none_left) in
          rw (read_new, e, none_cut)
            (kept.0, kept.1, kept.2 ∙ sym (append_nil f.locators), kept.3 ∙ zero_read)
      | inr e ↦
          let r = read_lines decode parse capacity mark sid spans w in
          let same : read_new decode loads parse capacity mark sid mtime new_bytes f w
              ≡ finish_read mark sid (length complete) mtime r =
            rw (read_new, e) refl in
          let quiet : r.1 ≡ false =
            sym (finish_read-raised mark sid (length complete) mtime r)
            ∙ sym (ap (λ r. r.1) same)
            ∙ fine in
          rw same (
            finished-HasFile decode loads parse capacity mark sid (length complete) mtime
              (f.locators
                ++ events_of decode parse sid spans w.existing_event_ids w.tool_name_by_call_id)
              f r quiet (read_lines-located decode loads parse capacity mark sid spans f w h quiet))
    ]
