-- ===== src/Transcript/Paging/Lookup.antt =====
-- Where the lookup of an event leads, in
-- apps/system_interface/imbue/system_interface/session_watcher.py.
use forever_claude_template.Base.{
  ℕ, suc, ◌+◌, ◌-◌, ◌≡◌, refl, sym, ap, ◌∙◌, inl, inr, none, some, List, [], ◌∷◌, ◌++◌, arith,
  Option-cases, take, drop, length, append_nil, drop_append, get, Text, code_eq, All,
}
use forever_claude_template.Transcript.Index.{SessionFileState, Refs}
use forever_claude_template.Transcript.Paging.{
  reversed, index_from, before_loop, after_loop, total_event_count,
}
use forever_claude_template.Transcript.Paging.Windows.{
  timeline, last, whole, length-whole, length-timeline, take-append, drop-append, take_all,
  drop_all, backwards-reversed,
}
use forever_claude_template.Transcript.Paging.Timeline.{before_loop_lem, after_loop_lem}
use forever_claude_template.Transcript.Paging.Positions.{
  position_of, Lacks, timeline_missing, index_from-none,
}
use forever_claude_template.Transcript.Paging.Answers.{Indexed}
use forever_claude_template.Transcript.Paging.Finding.{
  Found, Apart-reversed, elsewhere-Lacks, find_event, reversed_snoc, timeline-append, unknown-Lacks,
}

module _ (states : List SessionFileState) (sid event_id : Text) (i pos : ℕ)
    (f : Found states sid event_id i pos) where
  joined : timeline states ≡ timeline f.older ++ (whole f.file ++ timeline f.newer)
  joined = rw (f.splits, timeline-append f.older (f.file ∷ f.newer)) refl

  taken_files : (n k : ℕ) → k ≡ n + pos → take k states ≡ f.older ++ take n (f.file ∷ f.newer)
  taken_files n k e =
      let all : take k f.older ≡ f.older = take_all k f.older (omega (arith, f.count, e)) in
      let left : k - length f.older ≡ n = omega (arith, f.count, e) in
      rw (f.splits, take-append k f.older (f.file ∷ f.newer), all, left) refl

  dropped_files : drop pos states ≡ f.file ∷ f.newer
  dropped_files = rw (f.splits, ← f.count) (drop_append f.older (f.file ∷ f.newer))

  abbrev pub start : ℕ
  start = length (timeline f.older)

  events_before : take (start + i) (timeline states) ≡ timeline f.older ++ take i (whole f.file)
  events_before =
      let all : take (start + i) (timeline f.older) ≡ timeline f.older =
        take_all (start + i) (timeline f.older) (omega arith) in
      let here : start + i - start ≡ i = omega arith in
      let none_later : i - length (whole f.file) ≡ 0 =
        omega (arith, f.bound, length-whole f.file) in
      rw
        (
          joined,
          take-append (start + i) (timeline f.older) (whole f.file ++ timeline f.newer),
          all,
          here,
          take-append i (whole f.file) (timeline f.newer),
          none_later,
        )
        (ap (λ xs. timeline f.older ++ xs) (append_nil (take i (whole f.file))))

  events_after :
      drop (suc (start + i)) (timeline states) ≡ drop (suc i) (whole f.file) ++ timeline f.newer
  events_after =
      let past : drop (suc (start + i)) (timeline f.older) ≡ [] =
        drop_all (suc (start + i)) (timeline f.older) (omega arith) in
      let here : suc (start + i) - start ≡ suc i = omega arith in
      let none_later : suc i - length (whole f.file) ≡ 0 =
        omega (arith, f.bound, length-whole f.file) in
      rw
        (
          joined,
          drop-append (suc (start + i)) (timeline f.older) (whole f.file ++ timeline f.newer),
          past,
          here,
          drop-append (suc i) (whole f.file) (timeline f.newer),
          none_later,
        )
        refl

  pub before_lem :
      (limit : ℕ)
      → before_loop sid i (reversed (take (suc pos) states)) limit []
        ≡ last limit (take (start + i) (timeline states))
  before_lem limit =
      let files : take (suc pos) states ≡ f.older ++ f.file ∷ [] =
        taken_files 1 (suc pos) (omega arith) in
      rw
        (
          files,
          reversed_snoc f.older f.file,
          before_loop_lem sid i f.file (reversed f.older) limit f.same (omega (arith, f.bound))
              (Apart-reversed sid f.older f.before),
          backwards-reversed f.older,
          events_before,
        )
        refl

  pub after_lem :
      (limit : ℕ)
      → after_loop sid i (drop pos states) limit []
        ≡ take limit (drop (suc (start + i)) (timeline states))
  after_lem limit =
      rw
        (
          dropped_files,
          after_loop_lem sid i f.file f.newer limit f.same f.bound f.after,
          events_after,
        )
        refl

  pub offset_lem : total_event_count (take pos states) + i ≡ start + i
  offset_lem =
      let files : take pos states ≡ f.older ++ [] = taken_files 0 pos (omega arith) in
      rw (files, append_nil f.older, length-timeline f.older) refl

absent :
    (states : List SessionFileState) (event_id : Text)
    → All (Lacks event_id) states
    → position_of event_id (timeline states) ≡ none
unfolding position_of
absent states event_id h =
    let found = timeline_missing event_id states [] h in
    ap (position_of event_id) (sym (append_nil (timeline states))) ∙ found

-- What the lookup of an event can come to.
pub data Lookup (refs : Refs) (states : List SessionFileState) (event_id : Text) : Type 0 where
  unknown :
      get refs event_id ≡ none
      → position_of event_id (timeline states) ≡ none
      → Lookup refs states event_id
  elsewhere :
      (ref : Text × ℕ)
      → get refs event_id ≡ some ref
      → index_from 0 ref.0 states ≡ none
      → position_of event_id (timeline states) ≡ none
      → Lookup refs states event_id
  here :
      (ref : Text × ℕ) (pos : ℕ)
      → get refs event_id ≡ some ref
      → index_from 0 ref.0 states ≡ some pos
      → Found states ref.0 event_id ref.1 pos
      → Lookup refs states event_id

pub look_up :
    (refs : Refs) (states : List SessionFileState) (event_id : Text)
    → Indexed refs states
    → Lookup refs states event_id
look_up refs states event_id h = elim (Option-cases (get refs event_id)) [
  | inl e ↦ unknown e (absent states event_id (unknown-Lacks refs event_id states e h.listed))
  | inr (ref, e) ↦ elim (Option-cases (index_from 0 ref.0 states)) [
    | inl o ↦
        let apart = index_from-none 0 ref.0 states o in
        let lacks = elsewhere-Lacks refs event_id ref.0 ref.1 states e h.listed apart in
        elsewhere ref e o (absent states event_id lacks)
    | inr (pos, o) ↦ here ref pos e o (find_event refs states ref.0 event_id ref.1 pos h e o)
  ]
]
