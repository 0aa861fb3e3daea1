-- ===== src/Transcript/Refresh/Growth.antt =====
-- A read that finds no truncation only adds events, in
-- apps/system_interface/imbue/system_interface/session_watcher.py.
use forever_claude_template.Base.{
  ℕ, ◌≡◌, refl, sym, ap, ◌∙◌, Bool, true, false, inl, inr, Option, some, List, [], ◌∷◌, ◌++◌, ◌&&◌,
  Bool-cases, Option-cases, length, append_assoc, append_nil, get, Text, code_eq, ltb, ◌==◌, drop,
}
use forever_claude_template.Transcript.Event.{Event}
use forever_claude_template.Transcript.Lines.{
  Bytes, Span, split_at_last_complete_line, iter_line_spans,
}
use forever_claude_template.Transcript.Index.{EventLocator, SessionFileState}
use forever_claude_template.Transcript.Watcher.{
  Watcher, LineParser, append_event, append_events, splitlines, read_lines,
}
use forever_claude_template.Transcript.Refresh.{
  FileOnDisk, change_file, consumed_more, finish_read, read_new, read_changed, ensure_cache_current,
}
use forever_claude_template.Transcript.Refresh.Indexing.{get-put_same, get-put_other, text_cases}

-- The session's file has more locators at most, and as many of them emitted.
pub record Grows (sid : Text) (f : SessionFileState) (w : Watcher) : Type 0 where
  pub file : SessionFileState
  pub new : List EventLocator
  pub known : get w.session_states sid ≡ some file
  pub adds : file.locators ≡ f.locators ++ new
  pub emitted : file.emitted_count ≡ f.emitted_count

pub same-Grows :
    (sid : Text) (f : SessionFileState) (w : Watcher)
    → get w.session_states sid ≡ some f
    → Grows sid f w
same-Grows sid f w h = record {
  file = f;
  new = [];
  known = h;
  adds = sym (append_nil f.locators);
  emitted = refl;
}

-- A watcher with the same files.
moved-Grows :
    (sid : Text) (f : SessionFileState) (v w : Watcher)
    → Grows sid f v
    → w.session_states ≡ v.session_states
    → Grows sid f w
moved-Grows sid f v w g h = record {
  file = g.file;
  new = g.new;
  known = rw h g.known;
  adds = g.adds;
  emitted = g.emitted;
}

then-Grows :
    (sid : Text) (f : SessionFileState) (v w : Watcher) (g : Grows sid f v)
    → Grows sid g.file w
    → Grows sid f w
then-Grows sid f v w g h = record {
  file = h.file;
  new = g.new ++ h.new;
  known = h.known;
  adds = h.adds ∙ ap (λ ls. ls ++ h.new) g.adds ∙ append_assoc f.locators g.new h.new;
  emitted = h.emitted ∙ g.emitted;
}

append_event-Grows :
    (capacity : ℕ) (mark : Bool) (sid k : Text) (offset len : ℕ) (e : Event)
    (f c : SessionFileState) (w : Watcher)
    → get w.session_states sid ≡ some f
    → get w.session_states k ≡ some c
    → Grows sid f (append_event capacity mark k offset len e c w)
unfolding append_event
append_event-Grows capacity mark sid k offset len e f c w h hc =
    let new : EventLocator = record {
      event_id = e.event_id;
      timestamp = e.timestamp;
      byte_offset = offset;
      byte_len = len;
    } in
    let changed : SessionFileState = record c { locators = c.locators ++ new ∷ [] } in
    elim (text_cases k sid) [
      | inl same ↦
          let is_f : c ≡ f = cc in
          record {
            file = changed;
            new = new ∷ [];
            known = rw (← same) (get-put_same w.session_states k changed);
            adds = ap (λ f. f.locators ++ new ∷ []) is_f;
            emitted = ap (λ f. f.emitted_count) is_f;
          }
      | inr other ↦ record {
        file = f;
        new = [];
        known = get-put_other w.session_states k sid changed other ∙ h;
        adds = sym (append_nil f.locators);
        emitted = refl;
      }
    ]

append_events-Grows :
    (capacity : ℕ) (mark : Bool) (sid k : Text) (offset len : ℕ) (es : List Event)
    (f : SessionFileState) (w : Watcher)
    → get w.session_states sid ≡ some f
    → Grows sid f (append_events capacity mark k offset len es w)
unfolding append_events
append_events-Grows capacity mark sid k offset len [] f w h = same-Grows sid f w h
append_events-Grows capacity mark sid k offset len (e ∷ es) f w h =
    elim (Option-cases (get w.session_states k)) [
      | inl unknown ↦
          rw (append_events, unknown) (append_events-Grows capacity mark sid k offset len es f w h)
      | inr (c, known) ↦
          let next = append_event capacity mark k offset len e c w in
          let g = append_event-Grows capacity mark sid k offset len e f c w h known in
          rw (append_events, known)
            (then-Grows sid f next (append_events capacity mark k offset len es next) g
              (append_events-Grows capacity mark sid k offset len es g.file next g.known))
    ]

consumed-Grows :
    (sid k : Text) (count mtime : ℕ) (f : SessionFileState) (w : Watcher)
    → get w.session_states sid ≡ some f
    → Grows sid f (change_file (consumed_more count mtime) k w)
consumed-Grows sid k count mtime f w h = elim (Option-cases (get w.session_states k)) [
  | inl unknown ↦ rw (change_file, unknown) (same-Grows sid f w h)
  | inr (c, known) ↦
      rw (change_file, known)
        (elim (text_cases k sid) [
          | inl same ↦
              let is_f : c ≡ f = cc in
              record {
                file = consumed_more count mtime c;
                new = [];
                known = rw (← same) (get-put_same w.session_states k (consumed_more count mtime c));
                adds = ap (λ f. f.locators) is_f ∙ sym (append_nil f.locators);
                emitted = ap (λ f. f.emitted_count) is_f;
              }
          | inr other ↦ record {
            file = f;
            new = [];
            known = get-put_other w.session_states k sid (consumed_more count mtime c) other ∙ h;
            adds = sym (append_nil f.locators);
            emitted = refl;
          }
        ])
]

module _ (decode : Bytes → Option Text) (loads : Bytes → Bool) (parse : LineParser)
    (capacity : ℕ) where
  read_lines-Grows :
      (sid k : Text) (spans : List Span) (f : SessionFileState) (w : Watcher)
      → get w.session_states sid ≡ some f
      → Grows sid f (read_lines decode parse capacity false k spans w).0
  unfolding read_lines
  read_lines-Grows sid k [] f w h = same-Grows sid f w h
  read_lines-Grows sid k (span ∷ spans) f w h = elim (Option-cases (decode span.line_bytes)) [
    | inl undecoded ↦ rw (read_lines, undecoded) (read_lines-Grows sid k spans f w h)
    | inr (decoded, e) ↦
        let parsed =
          parse (splitlines decoded) w.existing_event_ids w.tool_name_by_call_id (some k) in
        let noted : Watcher = record w {
          existing_event_ids = parsed.existing_event_ids;
          tool_name_by_call_id = parsed.tool_name_by_call_id;
        } in
        elim (Bool-cases parsed.is_raised) [
          | inl raised ↦ rw (read_lines, e, raised) (same-Grows sid f noted h)
          | inr fine ↦
              let next =
                append_events capacity false k span.byte_offset span.byte_len parsed.events noted in
              let g =
                append_events-Grows capacity false sid k span.byte_offset span.byte_len
                  parsed.events f noted h in
              rw (read_lines, e, fine)
                (then-Grows sid f next (read_lines decode parse capacity false k spans next).0 g
                  (read_lines-Grows sid k spans g.file next g.known))
        ]
  ]

  finish_read-Grows :
      (sid k : Text) (count mtime : ℕ) (f : SessionFileState) (read : Watcher × Bool)
      → Grows sid f read.0
      → Grows sid f (finish_read false k count mtime read).0
  finish_read-Grows sid k count mtime f (w, true) g = g
  finish_read-Grows sid k count mtime f (w, false) g =
      then-Grows sid f w (change_file (consumed_more count mtime) k w) g
        (consumed-Grows sid k count mtime g.file w g.known)

  read_new-Grows :
      (sid k : Text) (mtime : ℕ) (bytes : Bytes) (f c : SessionFileState) (w : Watcher)
      → get w.session_states sid ≡ some f
      → Grows sid f (read_new decode loads parse capacity false k mtime bytes c w).0
  unfolding read_new
  read_new-Grows sid k mtime bytes f c w h =
      let complete = (split_at_last_complete_line loads bytes).0 in
      let spans = iter_line_spans complete c.byte_offset_consumed in
      elim (Bool-cases (length complete == 0)) [
        | inl e ↦ rw (read_new, e) (same-Grows sid f w h)
        | inr e ↦
            rw (read_new, e)
              (finish_read-Grows sid k (length complete) mtime f
                (read_lines decode parse capacity false k spans w)
                (read_lines-Grows sid k spans f w h))
      ]

  read_changed-Grows :
      (sid : Text) (size mtime : ℕ) (contents : Option Bytes) (f : SessionFileState) (w : Watcher)
      → get w.session_states sid ≡ some f
      → Grows sid f (read_changed decode loads parse capacity false sid size mtime contents w).0
  unfolding read_changed
  read_changed-Grows sid size mtime contents f w h =
      elim (Bool-cases (size == f.byte_offset_consumed && mtime == f.last_mtime)) [
        | inl e ↦ rw (read_changed, h, e) (same-Grows sid f w h)
        | inr e ↦ elim (Option-cases contents) [
          | inl o ↦ rw (read_changed, h, e, o) (same-Grows sid f w h)
          | inr (bytes, o) ↦
              rw (read_changed, h, e, o)
                (read_new-Grows sid sid mtime (drop f.byte_offset_consumed bytes) f f w h)
        ]
      ]

  -- The file is not shorter than what was read of it, if it can be looked at.
  abbrev pub IsWhole : FileOnDisk → SessionFileState → Type 0
  IsWhole disk f =
      (size mtime : ℕ) → disk.stat ≡ some (size, mtime) → ltb size f.byte_offset_consumed ≡ false

  pub ensure_cache_current-Grows :
      (disk : FileOnDisk) (sid : Text) (f : SessionFileState) (w : Watcher)
      → get w.session_states sid ≡ some f
      → IsWhole disk f
      → Grows sid f (ensure_cache_current decode loads parse capacity false disk sid w).0
  unfolding ensure_cache_current
  ensure_cache_current-Grows disk sid f w h whole = elim (Option-cases disk.stat) [
    | inl e ↦ rw (ensure_cache_current, e) (same-Grows sid f w h)
    | inr (stat, e) ↦
        rw (ensure_cache_current, e, h, whole stat.0 stat.1 e)
          (read_changed-Grows sid stat.0 stat.1 disk.contents f w h)
  ]
