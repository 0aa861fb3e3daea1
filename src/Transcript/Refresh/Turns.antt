-- ===== src/Transcript/Refresh/Turns.antt =====
-- One turn of the work on a session file: a read of it or a poll of it, in
-- apps/system_interface/imbue/system_interface/session_watcher.py.
use forever_claude_template.Base.{
  ℕ, ◌≡◌, ◌≤◌, refl, ap, Bool, true, false, inl, inr, Option, some, List, [], ◌∷◌, ◌++◌, map, arith,
  length, length-append, get, put, Text, code_eq, drop, take,
}
use forever_claude_template.Transcript.Lines.{Bytes}
use forever_claude_template.Transcript.Index.{EventLocator, SessionFileState, Place}
use forever_claude_template.Transcript.Watcher.{Watcher, LineParser}
use forever_claude_template.Transcript.Refresh.{
  FileOnDisk, change_file, all_emitted, ensure_cache_current,
}
use forever_claude_template.Transcript.Requests.{
  pending_places, resolve_bodies, emit_pending, reparse_line, cache_all, move_to_end,
}
use forever_claude_template.Transcript.Event.{Event}
use forever_claude_template.Base.{none, not, ◌&&◌, Option-cases, text_beq, text_beq_iff}
use forever_claude_template.Transcript.Paging.Windows.{take_all, drop-take}
use forever_claude_template.Transcript.Refresh.Indexing.{get-put_same}
use forever_claude_template.Transcript.Refresh.Steps.{resolve_bodies-Kept}
use forever_claude_template.Transcript.Refresh.Growth.{
  Grows, IsWhole, same-Grows, ensure_cache_current-Grows,
}

-- A read of the file, by a poll or by a request of another thread, or the emission of a poll, with the
-- files as they are on disk then.
pub data Turn : Type 0 where
  reads emits : (Text → FileOnDisk) → Turn

abbrev pub placed : Text → List EventLocator → List Place
placed sid = map (λ locator. (sid, locator))

-- The file of the session after a turn that took `taken` up.
pub record Moves (sid : Text) (f : SessionFileState) (w : Watcher) (taken : List Place)
    : Type 0 where
  pub file : SessionFileState
  pub new : List EventLocator
  pub known : get w.session_states sid ≡ some file
  pub adds : file.locators ≡ f.locators ++ new
  pub up : f.emitted_count ≤ file.emitted_count
  pub bound : file.emitted_count ≤ length file.locators
  pub took : taken ≡ placed sid (drop f.emitted_count (take file.emitted_count file.locators))

abbrev has_id : Text → Option Event → Bool
has_id event_id none = false
has_id event_id (some event) = text_beq event.event_id event_id

-- Whether each event's body is there when it is looked for: the cache or else the event's line on disk
-- gives an event of its id, and parsing the line raises nothing.
abbrev pub has_bodies :
    (Bytes → Option Text) → LineParser → ℕ → (Text → FileOnDisk) → List Place → Watcher → Bool
has_bodies decode parse capacity disks [] w = true
has_bodies decode parse capacity disks ((session_id, locator) ∷ rest) w =
    elim (get w.body_cache locator.event_id) [
      | some body ↦
          text_beq body.event_id locator.event_id
          && has_bodies decode parse capacity disks rest
              (record w { body_cache = move_to_end locator.event_id body w.body_cache })
      | none ↦
          let parsed = reparse_line decode parse (disks session_id) session_id locator w in
          let cache = cache_all capacity parsed.events w.body_cache in
          not parsed.is_raised
          && has_id locator.event_id (get cache locator.event_id)
          && has_bodies decode parse capacity disks rest
              (record w { tool_name_by_call_id = parsed.tool_name_by_call_id; body_cache = cache })
    ]

-- Where each body is there, the events come in the order of their places.
resolve_bodies-ids :
    (decode : Bytes → Option Text) (parse : LineParser) (capacity : ℕ) (disks : Text → FileOnDisk)
    (places : List Place) (w : Watcher)
    → has_bodies decode parse capacity disks places w ≡ true
    → map (λ event. event.event_id) (resolve_bodies decode parse capacity disks places w).events
      ≡ map (λ place. place.1.event_id) places
unfolding resolve_bodies
resolve_bodies-ids decode parse capacity disks [] w h = refl
resolve_bodies-ids decode parse capacity disks ((session_id, locator) ∷ rest) w h =
    elim (Option-cases (get w.body_cache locator.event_id)) [
      | inr (body, e) ↦
          let v = record w { body_cache = move_to_end locator.event_id body w.body_cache } in
          ground (
            arith,
            e,
            h,
            resolve_bodies-ids decode parse capacity disks rest v,
            text_beq_iff body.event_id locator.event_id,
          )
      | inl e ↦
          let parsed = reparse_line decode parse (disks session_id) session_id locator w in
          let cache = cache_all capacity parsed.events w.body_cache in
          let v = record w {
            tool_name_by_call_id = parsed.tool_name_by_call_id;
            body_cache = cache;
          } in
          let later = resolve_bodies-ids decode parse capacity disks rest v in
          elim (Option-cases (get cache locator.event_id)) [
            | inl missing ↦ ground (arith, e, h, missing)
            | inr (body, found) ↦
                ground (arith, e, h, found, later, text_beq_iff body.event_id locator.event_id)
          ]
    ]

module _ (decode : Bytes → Option Text) (loads : Bytes → Bool) (parse : LineParser) (capacity : ℕ)
    (sid : Text) where
  abbrev pub turn : Turn → Watcher → Watcher
  turn (reads disks) w =
      (ensure_cache_current decode loads parse capacity false (disks sid) sid w).0
  turn (emits disks) w = (emit_pending decode parse capacity disks sid w).watcher

  abbrev pub taken_up : Turn → Watcher → List Place
  taken_up (reads disks) w = []
  taken_up (emits disks) w = pending_places sid w

  -- The ids of the events given to `on_events`, in their order.
  abbrev pub emitted : Turn → Watcher → List Text
  emitted (reads disks) w = []
  emitted (emits disks) w =
      map (λ event. event.event_id) (emit_pending decode parse capacity disks sid w).events

  abbrev pub after_turns : List Turn → Watcher → Watcher
  after_turns [] w = w
  after_turns (t ∷ turns) w = after_turns turns (turn t w)

  abbrev pub all_taken : List Turn → Watcher → List Place
  all_taken [] w = []
  all_taken (t ∷ turns) w = taken_up t w ++ all_taken turns (turn t w)

  abbrev pub all_emitted_ids : List Turn → Watcher → List Text
  all_emitted_ids [] w = []
  all_emitted_ids (t ∷ turns) w = emitted t w ++ all_emitted_ids turns (turn t w)

  -- No read finds the file shorter than what was read of it.
  abbrev pub AreWhole : List Turn → Watcher → Type 0
  AreWhole [] w = Unit
  AreWhole (reads disks ∷ turns) w =
      ((f : SessionFileState)
        → get w.session_states sid ≡ some f
        → IsWhole decode loads parse capacity (disks sid) f)
      × AreWhole turns (turn (reads disks) w)
  AreWhole (emits disks ∷ turns) w = AreWhole turns (turn (emits disks) w)

  -- Each emission finds its bodies.
  abbrev pub is_found : Turn → Watcher → Bool
  is_found (reads disks) w = true
  is_found (emits disks) w =
      has_bodies decode parse capacity disks (pending_places sid w) (change_file all_emitted sid w)

  abbrev pub all_found : List Turn → Watcher → Bool
  all_found [] w = true
  all_found (t ∷ turns) w = is_found t w && all_found turns (turn t w)

  pub grown-Moves :
      (f : SessionFileState) (w : Watcher)
      → f.emitted_count ≤ length f.locators
      → Grows sid f w
      → Moves sid f w []
  grown-Moves f w h g = record {
    file = g.file;
    new = g.new;
    known = g.known;
    adds = g.adds;
    up = omega (arith, g.emitted);
    bound =
        let longer = ap length g.adds in
        omega (arith, h, g.emitted, longer, length-append f.locators g.new);
    took = rw (g.emitted, drop-take f.emitted_count g.file.locators) refl;
  }

  pub marked-Moves :
      (f : SessionFileState) (v w : Watcher) (g : Grows sid f v)
      → f.emitted_count ≤ length f.locators
      → w.session_states ≡ (change_file all_emitted sid v).session_states
      → (m : Moves sid f w (pending_places sid v)) × (m.file.emitted_count ≡ length m.file.locators)
  unfolding pending_places
  marked-Moves f v w g h e =
      let longer = ap length g.adds in
      let marked : (change_file all_emitted sid v).session_states
          ≡ put v.session_states sid (all_emitted g.file) =
        rw (change_file, g.known) refl in
      (
        record {
          file = all_emitted g.file;
          new = g.new;
          known = rw (e, marked) (get-put_same v.session_states sid (all_emitted g.file));
          adds = g.adds;
          up = omega (arith, h, longer, length-append f.locators g.new);
          bound = omega arith;
          took =
              rw
                (
                  pending_places,
                  g.known,
                  g.emitted,
                  take_all (length g.file.locators) g.file.locators (omega arith),
                )
                refl;
        },
        refl,
      )

  emit_pending-ids :
      (disks : Text → FileOnDisk) (w : Watcher)
      → is_found (emits disks) w ≡ true
      → emitted (emits disks) w ≡ map (λ place. place.1.event_id) (pending_places sid w)
  unfolding emit_pending
  emit_pending-ids disks w h =
      resolve_bodies-ids decode parse capacity disks (pending_places sid w)
        (change_file all_emitted sid w) h

  pub emitted-taken_up :
      (t : Turn) (w : Watcher)
      → is_found t w ≡ true
      → emitted t w ≡ map (λ place. place.1.event_id) (taken_up t w)
  emitted-taken_up (reads disks) w h = refl
  emitted-taken_up (emits disks) w h = emit_pending-ids disks w h

  pub emits-Moves :
      (disks : Text → FileOnDisk) (f : SessionFileState) (w : Watcher)
      → get w.session_states sid ≡ some f
      → f.emitted_count ≤ length f.locators
      → (m : Moves sid f (turn (emits disks) w) (pending_places sid w)) × (m.file.emitted_count
          ≡ length m.file.locators)
  unfolding emit_pending
  emits-Moves disks f w h b =
      let places = pending_places sid w in
      let marked = change_file all_emitted sid w in
      marked-Moves f w (resolve_bodies decode parse capacity disks places marked).watcher
        (same-Grows sid f w h) b
        (resolve_bodies-Kept decode parse capacity disks places marked).states

  pub reads-Moves :
      (disks : Text → FileOnDisk) (f : SessionFileState) (w : Watcher)
      → get w.session_states sid ≡ some f
      → f.emitted_count ≤ length f.locators
      → IsWhole decode loads parse capacity (disks sid) f
      → Moves sid f (turn (reads disks) w) []
  reads-Moves disks f w h b whole =
      grown-Moves f (turn (reads disks) w) b
        (ensure_cache_current-Grows decode loads parse capacity (disks sid) sid f w h whole)
