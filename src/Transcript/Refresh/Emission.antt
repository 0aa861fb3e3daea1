-- ===== src/Transcript/Refresh/Emission.antt =====
-- Each event of a session file is emitted once, in
-- apps/system_interface/imbue/system_interface/session_watcher.py.
use forever_claude_template.Base.{
  ℕ, ◌≡◌, ◌≤◌, refl, sym, ap, ◌∙◌, Bool, true, Option, some, List, [], ◌∷◌, ◌++◌, map, arith,
  length, append_assoc, get, Text, code_eq, drop, take,
}
use forever_claude_template.Transcript.Lines.{Bytes}
use forever_claude_template.Transcript.Index.{EventLocator, SessionFileState, Place}
use forever_claude_template.Transcript.Watcher.{Watcher, LineParser}
use forever_claude_template.Transcript.Refresh.{FileOnDisk}
use forever_claude_template.Transcript.Requests.{pending_places, emit_pending}
use forever_claude_template.Transcript.Paging.Windows.{take_all, window-append, take_more}
use forever_claude_template.Transcript.Refresh.Growth.{same-Grows}
use forever_claude_template.Transcript.Refresh.Turns.{
  Turn, reads, emits, placed, Moves, turn, taken_up, after_turns, all_taken, all_emitted_ids,
  AreWhole, is_found, all_found, grown-Moves, emits-Moves, reads-Moves, emitted-taken_up,
}

module _ (decode : Bytes → Option Text) (loads : Bytes → Bool) (parse : LineParser) (capacity : ℕ)
    (sid : Text) where
  map-append : (xs ys : List EventLocator) → placed sid (xs ++ ys) ≡ placed sid xs ++ placed sid ys
  map-append [] ys = refl
  map-append (x ∷ xs) ys = cc (map-append xs ys)

  two-Moves :
      (f : SessionFileState) (v w : Watcher) (a b : List Place) (m : Moves sid f v a)
      (n : Moves sid m.file w b)
      → (k : Moves sid f w (a ++ b)) × (k.file ≡ n.file)
  two-Moves f v w a b m n =
      let first = drop f.emitted_count (take m.file.emitted_count m.file.locators) in
      let second = drop m.file.emitted_count (take n.file.emitted_count n.file.locators) in
      let same_start : take m.file.emitted_count n.file.locators
          ≡ take m.file.emitted_count m.file.locators =
        ap (take m.file.emitted_count) n.adds
        ∙ take_more m.file.emitted_count m.file.locators n.new m.bound in
      let joined : first ++ second
          ≡ drop f.emitted_count (take n.file.emitted_count n.file.locators) =
        ap (λ xs. drop f.emitted_count xs ++ second) (sym same_start)
        ∙ window-append f.emitted_count m.file.emitted_count n.file.emitted_count n.file.locators
            m.up n.up in
      let parts : a ++ b ≡ placed sid first ++ placed sid second = cc (m.took, n.took) in
      (
        record {
          file = n.file;
          new = m.new ++ n.new;
          known = n.known;
          adds = n.adds ∙ ap (λ ls. ls ++ n.new) m.adds ∙ append_assoc f.locators m.new n.new;
          up = omega (arith, m.up, n.up);
          bound = n.bound;
          took = parts ∙ sym (map-append first second) ∙ ap (placed sid) joined;
        },
        refl,
      )

  turns-Moves :
      (turns : List Turn) (f : SessionFileState) (w : Watcher)
      → get w.session_states sid ≡ some f
      → f.emitted_count ≤ length f.locators
      → AreWhole decode loads parse capacity sid turns w
      → Moves sid f
          (after_turns decode loads parse capacity sid turns w)
          (all_taken decode loads parse capacity sid turns w)
  turns-Moves [] f w h b whole =
      grown-Moves decode loads parse capacity sid f w b (same-Grows sid f w h)
  turns-Moves (reads disks ∷ turns) f w h b whole =
      let t = reads disks in
      let m = reads-Moves decode loads parse capacity sid disks f w h b (whole.0 f h) in
      (two-Moves f (turn decode loads parse capacity sid t w)
        (after_turns decode loads parse capacity sid turns
          (turn decode loads parse capacity sid t w))
        []
        (all_taken decode loads parse capacity sid turns (turn decode loads parse capacity sid t w))
        m
        (turns-Moves turns m.file (turn decode loads parse capacity sid t w) m.known m.bound
          whole.1)).0
  turns-Moves (emits disks ∷ turns) f w h b whole =
      let t = emits disks in
      let m = (emits-Moves decode loads parse capacity sid disks f w h b).0 in
      (two-Moves f (turn decode loads parse capacity sid t w)
        (after_turns decode loads parse capacity sid turns
          (turn decode loads parse capacity sid t w))
        (pending_places sid w)
        (all_taken decode loads parse capacity sid turns (turn decode loads parse capacity sid t w))
        m
        (turns-Moves turns m.file (turn decode loads parse capacity sid t w) m.known m.bound
          whole)).0

  ids_append :
      (xs ys : List Place)
      → map (λ place. place.1.event_id) (xs ++ ys)
        ≡ map (λ place. place.1.event_id) xs ++ map (λ place. place.1.event_id) ys
  ids_append [] ys = refl
  ids_append (x ∷ xs) ys = cc (ids_append xs ys)

  ids_placed :
      (ls : List EventLocator)
      → map (λ place. place.1.event_id) (placed sid ls) ≡ map (λ locator. locator.event_id) ls
  ids_placed [] = refl
  ids_placed (l ∷ ls) = cc (ids_placed ls)

  all_emitted-all_taken :
      (turns : List Turn) (w : Watcher)
      → all_found decode loads parse capacity sid turns w ≡ true
      → all_emitted_ids decode loads parse capacity sid turns w
        ≡ map (λ place. place.1.event_id) (all_taken decode loads parse capacity sid turns w)
  all_emitted-all_taken [] w h = refl
  all_emitted-all_taken (t ∷ turns) w h =
      let first = emitted-taken_up decode loads parse capacity sid t w (ground (arith, h)) in
      let rest =
        all_emitted-all_taken turns (turn decode loads parse capacity sid t w)
          (ground (arith, h)) in
      let joined = ids_append (taken_up decode loads parse capacity sid t w) (
        all_taken decode loads parse capacity sid turns
          (turn decode loads parse capacity sid t w)) in
      cc (first, rest, joined)

-- From a state where no more events of a session file were emitted than it has, while no read finds the
-- file shorter than what was read of it and each emission finds the bodies of its events, the polls
-- give to `on_events`, by the end of an emission, each event of the file's index from the one that was
-- next at the start on, in order and once, whatever reads of the file, by polls and by other threads'
-- requests, and emissions come before it.
pub all_emitted-once :
    (decode : Bytes → Option Text) (loads : Bytes → Bool) (parse : LineParser) (capacity : ℕ)
    (sid : Text) (turns : List Turn) (disks : Text → FileOnDisk) (f : SessionFileState)
    (w : Watcher)
    → get w.session_states sid ≡ some f
    → f.emitted_count ≤ length f.locators
    → AreWhole decode loads parse capacity sid turns w
    → all_found decode loads parse capacity sid turns w ≡ true
    → is_found decode loads parse capacity sid
        (emits disks)
        (after_turns decode loads parse capacity sid turns w)
      ≡ true
    → (g : SessionFileState) × (get
          (emit_pending decode parse capacity disks sid
            (after_turns decode loads parse capacity sid turns w)).watcher.session_states
          sid
        ≡ some g)
      × (all_emitted_ids decode loads parse capacity sid turns w
            ++ map
                (λ event. event.event_id)
                (emit_pending decode parse capacity disks sid
                  (after_turns decode loads parse capacity sid turns w)).events
          ≡ map (λ locator. locator.event_id) (drop f.emitted_count g.locators))
all_emitted-once decode loads parse capacity sid turns disks f w h b whole found last_found =
    let before = after_turns decode loads parse capacity sid turns w in
    let m = turns-Moves decode loads parse capacity sid turns f w h b whole in
    let last = emits-Moves decode loads parse capacity sid disks m.file before m.known m.bound in
    let both =
      two-Moves decode loads parse capacity sid f before
        (turn decode loads parse capacity sid (emits disks) before)
        (all_taken decode loads parse capacity sid turns w) (pending_places sid before) m last.0 in
    let g = both.0.file in
    let done : g.emitted_count ≡ length g.locators =
      ap (λ f. f.emitted_count) both.1 ∙ last.1 ∙ sym (ap (λ f. length f.locators) both.1) in
    let all : take g.emitted_count g.locators ≡ g.locators =
      take_all g.emitted_count g.locators (omega (arith, done)) in
    let places : all_taken decode loads parse capacity sid turns w ++ pending_places sid before
        ≡ placed sid (drop f.emitted_count g.locators) =
      both.0.took ∙ ap (λ ls. placed sid (drop f.emitted_count ls)) all in
    let ids = ap (map (λ place. place.1.event_id)) places in
    let earlier = all_emitted-all_taken decode loads parse capacity sid turns w found in
    let now = emitted-taken_up decode loads parse capacity sid (emits disks) before last_found in
    let joined =
      ids_append decode loads parse capacity sid (all_taken decode loads parse capacity sid turns w)
        (pending_places sid before) in
    let named = ids_placed decode loads parse capacity sid (drop f.emitted_count g.locators) in
    (g, both.0.known, cc (earlier, now, joined, ids, named))
