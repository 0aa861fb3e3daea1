-- ===== src/Transcript/Refresh/Runs.antt =====
-- What the watcher answers after any run of reads, polls and registrations, in
-- apps/system_interface/imbue/system_interface/session_watcher.py.
use forever_claude_template.Base.{if◌then◌else◌}
use forever_claude_template.Base.{
  ℕ, ◌≡◌, refl, sym, ap, ◌∙◌, Bool, true, false, inl, inr, Option, none, some, is_some, List, [],
  ◌∷◌, ◌++◌, ◌||◌, arith, Bool-cases, Option-cases, get, put, in_names, Text, text_beq,
  text_beq_iff, code_eq,
}
use forever_claude_template.Transcript.Lines.{Bytes}
use forever_claude_template.Transcript.Index.{EventLocator, SessionFileState, Refs}
use forever_claude_template.Transcript.Watcher.{Watcher, LineParser, new_file}
use forever_claude_template.Transcript.Refresh.{FileOnDisk, ensure_cache_current}
use forever_claude_template.Transcript.Requests.{
  emit_pending, register_session, register_subagent, bring_current, prime_caches,
  ordered_selected_states,
}
use forever_claude_template.Transcript.Paging.Windows.{timeline}
use forever_claude_template.Transcript.Paging.Positions.{nth}
use forever_claude_template.Transcript.Paging.Answers.{Query, answer, list_answer}
use forever_claude_template.Transcript.Paging.Refinement.{answer_refines}
use forever_claude_template.Transcript.Paging.Distinct.{AreOnce, timeline-AreOnce}
use forever_claude_template.Transcript.Refresh.Indexing.{
  States, Inv, WatcherInv, AreApart, get-put_same, get-put_other, text_cases, put_named, put_known,
}
use forever_claude_template.Transcript.Refresh.Appending.{MarksSeen}
use forever_claude_template.Transcript.Refresh.Selection.{selected-Indexed}
use forever_claude_template.Transcript.Refresh.Steps.{
  empty_watcher, ensure_cache_current-Inv, emit_pending-Inv,
}

-- What can happen to a watcher: a session file is found, a read for a request, for the priming or for a
-- poll, the emission of a poll. Each sees the files as they are on disk at that time.
pub data Step : Type 0 where
  find_main find_subagent : Text → Step
  request : (Text → FileOnDisk) → Option Text → Step
  prime : (Text → FileOnDisk) → List Text → Step
  poll_read emission : (Text → FileOnDisk) → Text → Step

found-Inv :
    (states : States) (mains : List Text) (refs : Refs) (existing : List Text) (sid : Text)
    → Inv states mains refs existing
    → get states sid ≡ none
    → Inv (put states sid (new_file sid)) mains refs existing
found-Inv states mains refs existing sid v h = record {
  named = put_named states sid (new_file sid) v.named refl;
  listed = λ k c i l e at. elim (text_cases sid k) [
    | inl same ↦
        let here = get-put_same states sid (new_file sid) in
        let now : new_file sid ≡ c = cc in
        let nowhere : nth {A = EventLocator} i [] ≡ some l = ap (λ f. nth i f.locators) now ∙ at in
        let bad : false ≡ true = ground (arith, nowhere) in cc
    | inr other ↦ v.listed k c i l (sym (get-put_other states sid k (new_file sid) other) ∙ e) at
  ];
  sound = λ event_id k i e.
      let t = v.sound event_id k i e in
      elim (text_cases sid k) [
        | inl same ↦
            let there = t.known in
            let bad : none ≡ some t.file = cc in
            let worse : false ≡ true = ground (arith, bad) in cc
        | inr other ↦ record {
          file = t.file;
          locator = t.locator;
          known = get-put_other states sid k (new_file sid) other ∙ t.known;
          at = t.at;
          same = t.same;
        }
      ];
  seen = v.seen;
  mains_known = λ k e. put_known states sid (new_file sid) k (v.mains_known k e);
  mains_apart = v.mains_apart;
}

in_names_snoc :
    (k : Text) (ks : List Text) (j : Text)
    → in_names k (ks ++ j ∷ []) ≡ (in_names k ks || text_beq j k)
unfolding in_names
in_names_snoc k [] j = ground arith
in_names_snoc k (i ∷ ks) j = ground (arith, in_names_snoc k ks j)

AreApart-snoc :
    (ks : List Text) (j : Text) → AreApart ks → in_names j ks ≡ false → AreApart (ks ++ j ∷ [])
unfolding in_names
AreApart-snoc [] j h e = (refl, _)
AreApart-snoc (k ∷ ks) j h e = (
  ground (arith, in_names_snoc k ks j, h.0, e, text_beq_iff j k, text_beq_iff k j),
  AreApart-snoc ks j h.1 (ground (arith, e)),
)

register_session-Inv :
    (sid : Text) (w : Watcher) → WatcherInv w → WatcherInv (register_session sid w)
unfolding register_session
register_session-Inv sid w v = elim (Option-cases (get w.session_states sid)) [
  | inr (f, known) ↦ rw (register_session, known) v
  | inl none_known ↦
      let states = w.session_states in
      let mains = w.main_session_ids in
      let found =
        found-Inv states mains w.locator_ref_by_id w.existing_event_ids sid v none_known in
      let unlisted : in_names sid mains ≡ false = elim (Bool-cases (in_names sid mains)) [
        | inr e ↦ e
        | inl e ↦ let known = v.mains_known sid e in ground (arith, known, none_known)
      ] in
      rw (register_session, none_known)
        (record {
          named = found.named;
          listed = found.listed;
          sound = found.sound;
          seen = found.seen;
          mains_known = λ k e. elim (text_cases sid k) [
            | inl same ↦ rw (← same, get-put_same states sid (new_file sid)) refl
            | inr other ↦ found.mains_known k (ground (arith, e, in_names_snoc k mains sid, other))
          ];
          mains_apart = AreApart-snoc mains sid v.mains_apart unlisted;
        })
]

register_subagent-Inv :
    (sid : Text) (w : Watcher) → WatcherInv w → WatcherInv (register_subagent sid w)
unfolding register_subagent
register_subagent-Inv sid w v = elim (Option-cases (get w.session_states sid)) [
  | inr (f, known) ↦ rw (register_subagent, known) v
  | inl none_known ↦
      rw (register_subagent, none_known)
        (found-Inv w.session_states w.main_session_ids w.locator_ref_by_id w.existing_event_ids sid
          v none_known)
]

empty-Inv : WatcherInv empty_watcher
unfolding get in_names
empty-Inv = record {
  named = λ sid f e. let bad : false ≡ true = ground (arith, e) in cc;
  listed = λ sid f i l e at. let bad : false ≡ true = ground (arith, e) in cc;
  sound = λ event_id sid i e. let bad : false ≡ true = ground (arith, e) in cc;
  seen = λ event_id ref e. let bad : false ≡ true = ground (arith, e) in cc;
  mains_known = λ sid e. let bad : false ≡ true = e in cc;
  mains_apart = _;
}

module _ (decode : Bytes → Option Text) (loads : Bytes → Bool) (parse : LineParser)
    (capacity : ℕ) where
  abbrev pub step : Step → Watcher → Watcher
  step (find_main sid) w = register_session sid w
  step (find_subagent sid) w = register_subagent sid w
  step (request disks session_id) w =
      (bring_current decode loads parse capacity disks (ordered_selected_states session_id w) w).0
  step (prime disks ids) w = (prime_caches decode loads parse capacity disks ids w).0
  step (poll_read disks sid) w =
      if is_some (disks sid).stat
      then (ensure_cache_current decode loads parse capacity false (disks sid) sid w).0
      else w
  step (emission disks sid) w = (emit_pending decode parse capacity disks sid w).watcher

  abbrev pub run : List Step → Watcher → Watcher
  run [] w = w
  run (s ∷ steps) w = run steps (step s w)

module _ (decode : Bytes → Option Text) (loads : Bytes → Bool) (parse : LineParser) (capacity : ℕ)
    (lawful : MarksSeen parse) where
  bring_current-Inv :
      (disks : Text → FileOnDisk) (states : List SessionFileState) (w : Watcher)
      → WatcherInv w
      → WatcherInv (bring_current decode loads parse capacity disks states w).0
  unfolding bring_current
  bring_current-Inv disks [] w v = v
  bring_current-Inv disks (f ∷ states) w v =
      let sid = f.session_id in
      let read = ensure_cache_current decode loads parse capacity false (disks sid) sid w in
      let read_inv =
        ensure_cache_current-Inv decode loads parse capacity lawful false (disks sid) sid w v in
      elim (Bool-cases (is_some (disks sid).stat)) [
        | inl there ↦ elim (Bool-cases read.1) [
          | inl raised ↦ rw (bring_current, there, raised) read_inv
          | inr fine ↦
              rw (bring_current, there, fine) (bring_current-Inv disks states read.0 read_inv)
        ]
        | inr gone ↦ rw (bring_current, gone) (bring_current-Inv disks states w v)
      ]

  prime_caches-Inv :
      (disks : Text → FileOnDisk) (ids : List Text) (w : Watcher)
      → WatcherInv w
      → WatcherInv (prime_caches decode loads parse capacity disks ids w).0
  unfolding prime_caches
  prime_caches-Inv disks [] w v = v
  prime_caches-Inv disks (sid ∷ ids) w v =
      let read = ensure_cache_current decode loads parse capacity true (disks sid) sid w in
      let read_inv =
        ensure_cache_current-Inv decode loads parse capacity lawful true (disks sid) sid w v in
      elim (Bool-cases (is_some (disks sid).stat)) [
        | inl there ↦ elim (Bool-cases read.1) [
          | inl raised ↦ rw (prime_caches, there, raised) read_inv
          | inr fine ↦ rw (prime_caches, there, fine) (prime_caches-Inv disks ids read.0 read_inv)
        ]
        | inr gone ↦ rw (prime_caches, gone) (prime_caches-Inv disks ids w v)
      ]

  step-Inv :
      (s : Step) (w : Watcher) → WatcherInv w → WatcherInv (step decode loads parse capacity s w)
  step-Inv (find_main sid) w v = register_session-Inv sid w v
  step-Inv (find_subagent sid) w v = register_subagent-Inv sid w v
  step-Inv (request disks session_id) w v =
      bring_current-Inv disks (ordered_selected_states session_id w) w v
  step-Inv (prime disks ids) w v = prime_caches-Inv disks ids w v
  step-Inv (poll_read disks sid) w v = elim (Bool-cases (is_some (disks sid).stat)) [
    | inl there ↦
        rw there
          (ensure_cache_current-Inv decode loads parse capacity lawful false (disks sid) sid w v)
    | inr gone ↦ rw gone v
  ]
  step-Inv (emission disks sid) w v =
      emit_pending-Inv decode loads parse capacity lawful disks sid w v

  run-Inv :
      (steps : List Step) (w : Watcher)
      → WatcherInv w
      → WatcherInv (run decode loads parse capacity steps w)
  run-Inv [] w v = v
  run-Inv (s ∷ steps) w v = run-Inv steps (step decode loads parse capacity s w) (step-Inv s w v)

  -- Where the parser marks what it makes as seen, a watcher that started empty answers each request,
  -- after any sequence of discoveries, requests, primings, reads and emissions of polls, and whatever the files did on disk
  -- (truncations and failed reads included), as a plain search of its selected files' events would.
  pub run-answers :
      (steps : List Step) (session_id : Option Text) (q : Query)
      → answer
          (run decode loads parse capacity steps empty_watcher).locator_ref_by_id
          (ordered_selected_states session_id (run decode loads parse capacity steps empty_watcher))
          q
        ≡ list_answer
            (timeline (
              ordered_selected_states session_id
                (run decode loads parse capacity steps empty_watcher)))
            q
  run-answers steps session_id q =
      let w = run decode loads parse capacity steps empty_watcher in
      answer_refines w.locator_ref_by_id (ordered_selected_states session_id w) q
        (selected-Indexed w session_id (run-Inv steps empty_watcher empty-Inv))

  -- The index of such a watcher has no event twice among the files that a request selects.
  pub run-AreOnce :
      (steps : List Step) (session_id : Option Text)
      → AreOnce (
          timeline (
            ordered_selected_states session_id
              (run decode loads parse capacity steps empty_watcher)))
  run-AreOnce steps session_id =
      let w = run decode loads parse capacity steps empty_watcher in
      let indexed = selected-Indexed w session_id (run-Inv steps empty_watcher empty-Inv) in
      timeline-AreOnce w.locator_ref_by_id (ordered_selected_states session_id w) indexed.distinct
        indexed.listed
