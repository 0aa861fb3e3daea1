-- ===== src/Transcript/Requests.antt =====
-- How `AgentSessionWatcher` of apps/system_interface/imbue/system_interface/session_watcher.py finds
-- the bodies of events, emits the new ones, and selects the files of a request.
use forever_claude_template.Base.{
  ℕ, Bool, true, false, Option, none, some, is_some, List, [], ◌∷◌, ◌++◌, map, take, drop,
  if◌then◌else◌, Dict, get, put, remove, Text, code_eq,
}
use forever_claude_template.Transcript.Event.{Event, Parsed}
use forever_claude_template.Transcript.Index.{EventLocator, SessionFileState, Place}
use forever_claude_template.Transcript.Lines.{Bytes}
use forever_claude_template.Transcript.Watcher.{
  Watcher, LineParser, new_file, cache_put, splitlines,
}
use forever_claude_template.Transcript.Refresh.{
  FileOnDisk, all_emitted, change_file, ensure_cache_current,
}

-- What the search for bodies comes to: the events found, and whether the parser raised.
pub record Resolved : Type 0 where
  pub events : List Event
  pub watcher : Watcher
  pub is_raised : Bool

unfoldable pub reparse_line :
    (Bytes → Option Text) → LineParser → FileOnDisk → Text → EventLocator → Watcher → Parsed
unfolding splitlines
reparse_line decode parse disk session_id locator w =
    let nothing : Parsed = record {
      events = [];
      existing_event_ids = [];
      tool_name_by_call_id = w.tool_name_by_call_id;
      is_raised = false;
    } in
    elim disk.contents [
      | none ↦ nothing
      | some bytes ↦ elim (decode (take locator.byte_len (drop locator.byte_offset bytes))) [
        | none ↦ nothing
        | some decoded ↦ parse (splitlines decoded) [] w.tool_name_by_call_id (some session_id)
      ]
    ]

unfoldable pub cache_all : ℕ → List Event → Dict Text Event → Dict Text Event
unfolding cache_put
cache_all capacity [] cache = cache
cache_all capacity (event ∷ events) cache =
    cache_all capacity events (cache_put capacity event cache)

-- `OrderedDict.move_to_end`
abbrev pub move_to_end : Text → Event → Dict Text Event → Dict Text Event
move_to_end event_id event cache = remove cache event_id ++ (event_id, event) ∷ []

abbrev pub with_body : Option Event → Resolved → Resolved
with_body none r = r
with_body (some event) r = record r { events = event ∷ r.events }

unfoldable pub resolve_bodies :
    (Bytes → Option Text) → LineParser → ℕ → (Text → FileOnDisk) → List Place → Watcher → Resolved
unfolding reparse_line cache_all
resolve_bodies decode parse capacity disks [] w = record {
  events = [];
  watcher = w;
  is_raised = false;
}
resolve_bodies decode parse capacity disks ((session_id, locator) ∷ rest) w =
    elim (get w.body_cache locator.event_id) [
      | some body ↦ with_body (some body) (
          resolve_bodies decode parse capacity disks rest
            (record w { body_cache = move_to_end locator.event_id body w.body_cache }))
      | none ↦
          let parsed = reparse_line decode parse (disks session_id) session_id locator w in
          let cache = cache_all capacity parsed.events w.body_cache in
          let named : Watcher = record w {
            tool_name_by_call_id = parsed.tool_name_by_call_id;
            body_cache = cache;
          } in
          let found =
            with_body (get cache locator.event_id)
              (resolve_bodies decode parse capacity disks rest named) in
          if parsed.is_raised
          then record { events = []; watcher = named; is_raised = true }
          else found
    ]

-- The places of the events of a file that were not emitted yet.
unfoldable pub pending_places : Text → Watcher → List Place
pending_places session_id w = elim (get w.session_states session_id) [
  | none ↦ []
  | some f ↦ map (λ locator. (session_id, locator)) (drop f.emitted_count f.locators)
]

-- The second locked section of `_poll_for_changes` for a file: the events given to `on_events`.
unfoldable pub emit_pending :
    (Bytes → Option Text) → LineParser → ℕ → (Text → FileOnDisk) → Text → Watcher → Resolved
unfolding pending_places resolve_bodies
emit_pending decode parse capacity disks session_id w =
    resolve_bodies decode parse capacity disks (pending_places session_id w)
      (change_file all_emitted session_id w)

-- One file's turn in `_poll_for_changes`, where other threads do `meanwhile` between its two sections.
unfoldable pub poll_file :
    (Bytes → Option Text)
    → (Bytes → Bool)
    → LineParser
    → ℕ
    → (Text → FileOnDisk)
    → (Watcher → Watcher)
    → Text
    → Watcher
    → Resolved
unfolding ensure_cache_current emit_pending
poll_file decode loads parse capacity disks meanwhile session_id w =
    let read =
      ensure_cache_current decode loads parse capacity false (disks session_id) session_id w in
    let found = emit_pending decode parse capacity disks session_id (meanwhile read.0) in
    if is_some (disks session_id).stat
    then (if read.1 then record { events = []; watcher = read.0; is_raised = true } else found)
    else record { events = []; watcher = w; is_raised = false }

-- `_ordered_selected_states_locked`
unfoldable pub known_states : Dict Text SessionFileState → List Text → List SessionFileState
known_states states [] = []
known_states states (session_id ∷ ids) =
    let rest = known_states states ids in
    elim (get states session_id) [ none ↦ rest | some f ↦ f ∷ rest ]

unfoldable pub ordered_selected_states : Option Text → Watcher → List SessionFileState
unfolding known_states
ordered_selected_states none w = known_states w.session_states w.main_session_ids
ordered_selected_states (some session_id) w = elim (get w.session_states session_id) [
  | none ↦ []
  | some f ↦ f ∷ []
]

-- The part of the history reader that registers a session file found.
unfoldable pub register_session : Text → Watcher → Watcher
register_session session_id w = elim (get w.session_states session_id) [
  | some f ↦ w
  | none ↦ record w {
    session_states = put w.session_states session_id (new_file session_id);
    main_session_ids = w.main_session_ids ++ session_id ∷ [];
  }
]

-- The part of the discovery of subagents that registers a session file found.
unfoldable pub register_subagent : Text → Watcher → Watcher
register_subagent sub_id w = elim (get w.session_states sub_id) [
  | some f ↦ w
  | none ↦ record w { session_states = put w.session_states sub_id (new_file sub_id) }
]

-- The second half of `_selected_states_current`.
unfoldable pub bring_current :
    (Bytes → Option Text)
    → (Bytes → Bool)
    → LineParser
    → ℕ
    → (Text → FileOnDisk)
    → List SessionFileState
    → Watcher
    → Watcher × Bool
unfolding ensure_cache_current
bring_current decode loads parse capacity disks [] w = (w, false)
bring_current decode loads parse capacity disks (f ∷ states) w =
    let read =
      ensure_cache_current decode loads parse capacity false (disks f.session_id) f.session_id w in
    let skipped = bring_current decode loads parse capacity disks states w in
    let rest = bring_current decode loads parse capacity disks states read.0 in
    if is_some (disks f.session_id).stat then (if read.1 then (read.0, true) else rest) else skipped

-- `_prime_caches`, without the search for parents of running subagents.
unfoldable pub prime_caches :
    (Bytes → Option Text)
    → (Bytes → Bool)
    → LineParser
    → ℕ
    → (Text → FileOnDisk)
    → List Text
    → Watcher
    → Watcher × Bool
unfolding ensure_cache_current
prime_caches decode loads parse capacity disks [] w = (w, false)
prime_caches decode loads parse capacity disks (session_id ∷ ids) w =
    let read =
      ensure_cache_current decode loads parse capacity true (disks session_id) session_id w in
    let skipped = prime_caches decode loads parse capacity disks ids w in
    let rest = prime_caches decode loads parse capacity disks ids read.0 in
    if is_some (disks session_id).stat then (if read.1 then (read.0, true) else rest) else skipped
