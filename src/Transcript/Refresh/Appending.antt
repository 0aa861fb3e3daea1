-- ===== src/Transcript/Refresh/Appending.antt =====
-- The references stay right through a read of new lines, in
-- apps/system_interface/imbue/system_interface/session_watcher.py.
use forever_claude_template.Base.{
  ℕ, ◌≡◌, ◌∙◌, Bool, true, false, inl, inr, Option, none, some, List, [], ◌∷◌, Bool-cases,
  Option-cases, length, Dict, get, put, in_names, Text, text_beq, code_eq, All,
}
use forever_claude_template.Transcript.Event.{Event}
use forever_claude_template.Transcript.Lines.{Bytes, Span}
use forever_claude_template.Transcript.Index.{EventLocator, Refs}
use forever_claude_template.Transcript.Watcher.{
  Watcher, LineParser, append_event, append_events, splitlines, read_lines,
}
use forever_claude_template.Transcript.Refresh.Indexing.{
  WatcherInv, get-put_other, append-Inv, seen-Inv,
}

-- No two events of a list have the same id.
abbrev pub AreFresh : List Event → Type 0
AreFresh [] = Unit
AreFresh (e ∷ es) = All (λ later. text_beq e.event_id later.event_id ≡ false) es × AreFresh es

-- What the watcher needs of the parser: it makes each event once, marks it as seen and forgets none.
pub record MarksSeen (parse : LineParser) : Type 0 where
  pub keeps :
      (lines existing : List Text) (names : Dict Text Text) (session_id : Option Text) (k : Text)
      → in_names k existing ≡ true
      → in_names k (parse lines existing names session_id).existing_event_ids ≡ true
  pub unseen :
      (lines existing : List Text) (names : Dict Text Text) (session_id : Option Text)
      → All
          (λ e. in_names e.event_id existing ≡ false)
          (parse lines existing names session_id).events
  pub marked :
      (lines existing : List Text) (names : Dict Text Text) (session_id : Option Text)
      → All
          (λ e.
            in_names e.event_id (parse lines existing names session_id).existing_event_ids ≡ true)
          (parse lines existing names session_id).events
  pub apart :
      (lines existing : List Text) (names : Dict Text Text) (session_id : Option Text)
      → AreFresh (parse lines existing names session_id).events

abbrev IsNew : Refs → List Text → Event → Type 0
IsNew refs existing e = (get refs e.event_id ≡ none) × (in_names e.event_id existing ≡ true)

still-IsNew :
    (refs : Refs) (existing : List Text) (k : Text) (ref : Text × ℕ) (es : List Event)
    → All (λ later. text_beq k later.event_id ≡ false) es
    → All (IsNew refs existing) es
    → All (IsNew (put refs k ref) existing) es
still-IsNew refs existing k ref [] apart h = _
still-IsNew refs existing k ref (e ∷ es) apart h = (
  (get-put_other refs k e.event_id ref apart.0 ∙ h.0.0, h.0.1),
  still-IsNew refs existing k ref es apart.1 h.1,
)

append_events-Inv :
    (capacity : ℕ) (mark : Bool) (sid : Text) (offset len : ℕ) (es : List Event) (w : Watcher)
    → WatcherInv w
    → All (IsNew w.locator_ref_by_id w.existing_event_ids) es
    → AreFresh es
    → WatcherInv (append_events capacity mark sid offset len es w)
unfolding append_events append_event
append_events-Inv capacity mark sid offset len [] w v h apart = v
append_events-Inv capacity mark sid offset len (e ∷ es) w v h apart =
    elim (Option-cases (get w.session_states sid)) [
      | inl none_known ↦
          rw (append_events, none_known)
            (append_events-Inv capacity mark sid offset len es w v h.1 apart.1)
      | inr (f, known) ↦
          let new : EventLocator = record {
            event_id = e.event_id;
            timestamp = e.timestamp;
            byte_offset = offset;
            byte_len = len;
          } in
          rw (append_events, known)
            (append_events-Inv capacity mark sid offset len es
              (append_event capacity mark sid offset len e f w)
              (append-Inv w.session_states w.main_session_ids w.locator_ref_by_id
                w.existing_event_ids sid f new v known h.0.0 h.0.1)
              (still-IsNew w.locator_ref_by_id w.existing_event_ids e.event_id
                (sid, length f.locators) es apart.0 h.1)
              apart.1)
    ]

unseen-IsNew :
    (w : Watcher) (new : List Text) (es : List Event)
    → WatcherInv w
    → All (λ e. in_names e.event_id w.existing_event_ids ≡ false) es
    → All (λ e. in_names e.event_id new ≡ true) es
    → All (IsNew w.locator_ref_by_id new) es
unseen-IsNew w new [] v unseen marked = _
unseen-IsNew w new (e ∷ es) v unseen marked = (
  (
    elim (Option-cases (get w.locator_ref_by_id e.event_id)) [
      | inl nowhere ↦ nowhere
      | inr (ref, at) ↦ let known = v.seen e.event_id ref at in let unknown = unseen.0 in cc
    ],
    marked.0,
  ),
  unseen-IsNew w new es v unseen.1 marked.1,
)

module _ (decode : Bytes → Option Text) (parse : LineParser) (capacity : ℕ)
    (lawful : MarksSeen parse) where
  pub read_lines-Inv :
      (mark : Bool) (sid : Text) (spans : List Span) (w : Watcher)
      → WatcherInv w
      → WatcherInv (read_lines decode parse capacity mark sid spans w).0
  unfolding read_lines
  read_lines-Inv mark sid [] w v = v
  read_lines-Inv mark sid (span ∷ spans) w v = elim (Option-cases (decode span.line_bytes)) [
    | inl undecoded ↦ rw (read_lines, undecoded) (read_lines-Inv mark sid spans w v)
    | inr (decoded, e) ↦
        let lines = splitlines decoded in
        let parsed = parse lines w.existing_event_ids w.tool_name_by_call_id (some sid) in
        let noted : Watcher = record w {
          existing_event_ids = parsed.existing_event_ids;
          tool_name_by_call_id = parsed.tool_name_by_call_id;
        } in
        let noted_inv : WatcherInv noted =
          seen-Inv w.session_states w.main_session_ids w.locator_ref_by_id w.existing_event_ids
            parsed.existing_event_ids v
            (lawful.keeps lines w.existing_event_ids w.tool_name_by_call_id (some sid)) in
        elim (Bool-cases parsed.is_raised) [
          | inl raised ↦ rw (read_lines, e, raised) noted_inv
          | inr fine ↦
              rw (read_lines, e, fine)
                (read_lines-Inv mark sid spans
                  (append_events capacity mark sid span.byte_offset span.byte_len parsed.events
                    noted)
                  (append_events-Inv capacity mark sid span.byte_offset span.byte_len parsed.events
                    noted noted_inv
                    (unseen-IsNew w parsed.existing_event_ids parsed.events v
                      (lawful.unseen lines w.existing_event_ids w.tool_name_by_call_id (some sid))
                      (lawful.marked lines w.existing_event_ids w.tool_name_by_call_id (some sid)))
                    (lawful.apart lines w.existing_event_ids w.tool_name_by_call_id (some sid))))
        ]
  ]
