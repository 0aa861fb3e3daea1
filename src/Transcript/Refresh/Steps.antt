-- ===== src/Transcript/Refresh/Steps.antt =====
-- Reads, polls and registrations from an empty watcher on, in
-- apps/system_interface/imbue/system_interface/session_watcher.py.
use forever_claude_template.Base.{
  ℕ, ◌≡◌, refl, ◌∙◌, Bool, true, false, inl, inr, Option, none, some, is_some, List, [], ◌∷◌,
  Bool-cases, Option-cases, length, get, Text, code_eq, ltb, ◌==◌, ◌&&◌, drop,
}
use forever_claude_template.Transcript.Event.{Event}
use forever_claude_template.Transcript.Lines.{Bytes, split_at_last_complete_line, iter_line_spans}
use forever_claude_template.Transcript.Index.{SessionFileState, Place}
use forever_claude_template.Transcript.Watcher.{Watcher, LineParser, read_lines}
use forever_claude_template.Transcript.Refresh.{
  FileOnDisk, reset_truncated, change_file, mark_if, all_emitted, consumed_more, finish_read,
  read_new, read_changed, ensure_cache_current,
}
use forever_claude_template.Transcript.Requests.{
  Resolved, pending_places, resolve_bodies, reparse_line, cache_all, with_body, move_to_end,
  emit_pending, poll_file,
}
use forever_claude_template.Transcript.Refresh.Indexing.{WatcherInv, change-Inv}
use forever_claude_template.Transcript.Refresh.Appending.{MarksSeen, read_lines-Inv}
use forever_claude_template.Transcript.Refresh.Purging.{reset-Inv}

abbrev pub empty_watcher : Watcher
empty_watcher = record {
  session_states = [];
  main_session_ids = [];
  tool_name_by_call_id = [];
  existing_event_ids = [];
  body_cache = [];
  locator_ref_by_id = [];
  subagent_id_by_tool_call = [];
  agent_parent_event_ids = [];
}

change_file-Inv :
    (change : SessionFileState → SessionFileState) (sid : Text) (w : Watcher)
    → ((f : SessionFileState) → (change f).locators ≡ f.locators)
    → ((f : SessionFileState) → (change f).session_id ≡ f.session_id)
    → WatcherInv w
    → WatcherInv (change_file change sid w)
change_file-Inv change sid w keeps named v = elim (Option-cases (get w.session_states sid)) [
  | inl none_known ↦ rw (change_file, none_known) v
  | inr (f, known) ↦
      rw (change_file, known)
        (change-Inv w.session_states w.main_session_ids w.locator_ref_by_id w.existing_event_ids sid
          f (change f) v known (keeps f) (named f))
]

mark_if-Inv :
    (mark : Bool) (sid : Text) (w : Watcher) → WatcherInv w → WatcherInv (mark_if mark sid w)
mark_if-Inv true sid w v = change_file-Inv all_emitted sid w (λ f. refl) (λ f. refl) v
mark_if-Inv false sid w v = v

finish_read-Inv :
    (mark : Bool) (sid : Text) (count mtime : ℕ) (read : Watcher × Bool)
    → WatcherInv read.0
    → WatcherInv (finish_read mark sid count mtime read).0
finish_read-Inv mark sid count mtime (w, true) v = v
finish_read-Inv mark sid count mtime (w, false) v =
    mark_if-Inv mark sid (change_file (consumed_more count mtime) sid w)
      (change_file-Inv (consumed_more count mtime) sid w (λ f. refl) (λ f. refl) v)

reset_truncated-Inv :
    (sid : Text) (f : SessionFileState) (w : Watcher)
    → WatcherInv w
    → get w.session_states sid ≡ some f
    → WatcherInv (reset_truncated sid f w)
unfolding reset_truncated
reset_truncated-Inv sid f w v known =
    reset-Inv w.session_states w.main_session_ids w.locator_ref_by_id w.existing_event_ids sid f
      (record f { byte_offset_consumed = 0; locators = []; emitted_count = 0 }) v known refl refl

-- What the search for bodies leaves as it was.
pub record Kept (w : Watcher) (r : Resolved) : Type 0 where
  pub states : r.watcher.session_states ≡ w.session_states
  pub mains : r.watcher.main_session_ids ≡ w.main_session_ids
  pub refs : r.watcher.locator_ref_by_id ≡ w.locator_ref_by_id
  pub existing : r.watcher.existing_event_ids ≡ w.existing_event_ids

with_body-Kept :
    (body : Option Event) (w named : Watcher) (r : Resolved)
    → named.session_states ≡ w.session_states
    → named.main_session_ids ≡ w.main_session_ids
    → named.locator_ref_by_id ≡ w.locator_ref_by_id
    → named.existing_event_ids ≡ w.existing_event_ids
    → Kept named r
    → Kept w (with_body body r)
with_body-Kept none w named r a b c d k = record {
  states = k.states ∙ a;
  mains = k.mains ∙ b;
  refs = k.refs ∙ c;
  existing = k.existing ∙ d;
}
with_body-Kept (some e) w named r a b c d k = record {
  states = k.states ∙ a;
  mains = k.mains ∙ b;
  refs = k.refs ∙ c;
  existing = k.existing ∙ d;
}

Kept-Inv : (w : Watcher) (r : Resolved) → Kept w r → WatcherInv w → WatcherInv r.watcher
Kept-Inv w r k v = rw (k.states, k.mains, k.refs, k.existing) v

module _ (decode : Bytes → Option Text) (parse : LineParser) (capacity : ℕ) where
  pub resolve_bodies-Kept :
      (disks : Text → FileOnDisk) (places : List Place) (w : Watcher)
      → Kept w (resolve_bodies decode parse capacity disks places w)
  unfolding resolve_bodies
  resolve_bodies-Kept disks [] w = record {
    states = refl;
    mains = refl;
    refs = refl;
    existing = refl;
  }
  resolve_bodies-Kept disks ((sid, locator) ∷ rest) w =
      elim (Option-cases (get w.body_cache locator.event_id)) [
        | inl missing ↦
            let parsed = reparse_line decode parse (disks sid) sid locator w in
            let named : Watcher = record w {
              tool_name_by_call_id = parsed.tool_name_by_call_id;
              body_cache = cache_all capacity parsed.events w.body_cache;
            } in
            elim (Bool-cases parsed.is_raised) [
              | inl raised ↦
                  rw (resolve_bodies, missing, raised)
                    (record { states = refl; mains = refl; refs = refl; existing = refl })
              | inr fine ↦
                  rw (resolve_bodies, missing, fine)
                    (with_body-Kept (get named.body_cache locator.event_id) w named
                      (resolve_bodies decode parse capacity disks rest named) refl refl refl refl
                      (resolve_bodies-Kept disks rest named))
            ]
        | inr (body, cached) ↦
            let used : Watcher = record w {
              body_cache = move_to_end locator.event_id body w.body_cache;
            } in
            rw (resolve_bodies, cached)
              (with_body-Kept (some body) w used
                (resolve_bodies decode parse capacity disks rest used) refl refl refl refl
                (resolve_bodies-Kept disks rest used))
      ]

module _ (decode : Bytes → Option Text) (loads : Bytes → Bool) (parse : LineParser) (capacity : ℕ)
    (lawful : MarksSeen parse) where
  read_new-Inv :
      (mark : Bool) (sid : Text) (mtime : ℕ) (bytes : Bytes) (f : SessionFileState) (w : Watcher)
      → WatcherInv w
      → WatcherInv (read_new decode loads parse capacity mark sid mtime bytes f w).0
  unfolding read_new
  read_new-Inv mark sid mtime bytes f w v =
      let complete = (split_at_last_complete_line loads bytes).0 in
      let spans = iter_line_spans complete f.byte_offset_consumed in
      elim (Bool-cases (length complete == 0)) [
        | inl e ↦ rw (read_new, e) (mark_if-Inv mark sid w v)
        | inr e ↦
            rw (read_new, e)
              (finish_read-Inv mark sid (length complete) mtime
                (read_lines decode parse capacity mark sid spans w)
                (read_lines-Inv decode parse capacity lawful mark sid spans w v))
      ]

  read_changed-Inv :
      (mark : Bool) (sid : Text) (size mtime : ℕ) (contents : Option Bytes) (w : Watcher)
      → WatcherInv w
      → WatcherInv (read_changed decode loads parse capacity mark sid size mtime contents w).0
  unfolding read_changed
  read_changed-Inv mark sid size mtime contents w v =
      elim (Option-cases (get w.session_states sid)) [
        | inl none_known ↦ rw (read_changed, none_known) v
        | inr (f, known) ↦
            elim (Bool-cases (size == f.byte_offset_consumed && mtime == f.last_mtime)) [
              | inl e ↦ rw (read_changed, known, e) (mark_if-Inv mark sid w v)
              | inr e ↦ elim (Option-cases contents) [
                | inl o ↦ rw (read_changed, known, e, o) v
                | inr (bytes, o) ↦
                    rw (read_changed, known, e, o)
                      (read_new-Inv mark sid mtime (drop f.byte_offset_consumed bytes) f w v)
              ]
            ]
      ]

  -- Whatever is on disk, bringing a file's index up to date keeps the references right.
  pub ensure_cache_current-Inv :
      (mark : Bool) (disk : FileOnDisk) (sid : Text) (w : Watcher)
      → WatcherInv w
      → WatcherInv (ensure_cache_current decode loads parse capacity mark disk sid w).0
  unfolding ensure_cache_current
  ensure_cache_current-Inv mark disk sid w v = elim (Option-cases disk.stat) [
    | inl e ↦ rw (ensure_cache_current, e) v
    | inr (stat, e) ↦ elim (Option-cases (get w.session_states sid)) [
      | inl none_known ↦ rw (ensure_cache_current, e, none_known) v
      | inr (f, known) ↦ elim (Bool-cases (ltb stat.0 f.byte_offset_consumed)) [
        | inl shrank ↦
            rw (ensure_cache_current, e, known, shrank)
              (read_changed-Inv mark sid stat.0 stat.1 disk.contents (reset_truncated sid f w)
                (reset_truncated-Inv sid f w v known))
        | inr grew ↦
            rw (ensure_cache_current, e, known, grew)
              (read_changed-Inv mark sid stat.0 stat.1 disk.contents w v)
      ]
    ]
  ]

  pub emit_pending-Inv :
      (disks : Text → FileOnDisk) (sid : Text) (w : Watcher)
      → WatcherInv w
      → WatcherInv (emit_pending decode parse capacity disks sid w).watcher
  unfolding emit_pending
  emit_pending-Inv disks sid w v =
      let places = pending_places sid w in
      let marked = change_file all_emitted sid w in
      Kept-Inv marked (resolve_bodies decode parse capacity disks places marked)
        (resolve_bodies-Kept decode parse capacity disks places marked)
        (change_file-Inv all_emitted sid w (λ f. refl) (λ f. refl) v)

  poll_file-Inv :
      (disks : Text → FileOnDisk) (meanwhile : Watcher → Watcher) (sid : Text) (w : Watcher)
      → ((v : Watcher) → WatcherInv v → WatcherInv (meanwhile v))
      → WatcherInv w
      → WatcherInv (poll_file decode loads parse capacity disks meanwhile sid w).watcher
  unfolding poll_file
  poll_file-Inv disks meanwhile sid w keeps v =
      let read = ensure_cache_current decode loads parse capacity false (disks sid) sid w in
      let read_inv = ensure_cache_current-Inv false (disks sid) sid w v in
      elim (Bool-cases (is_some (disks sid).stat)) [
        | inl there ↦ elim (Bool-cases read.1) [
          | inl raised ↦ rw (poll_file, there, raised) read_inv
          | inr fine ↦
              rw (poll_file, there, fine)
                (emit_pending-Inv disks sid (meanwhile read.0) (keeps read.0 read_inv))
        ]
        | inr gone ↦ rw (poll_file, gone) v
      ]
