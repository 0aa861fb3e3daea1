-- ===== src/Transcript/Paging/Refinement.antt =====
-- The watcher answers as the plain list of its events would, in
-- apps/system_interface/imbue/system_interface/session_watcher.py.
use forever_claude_template.Base.{
  ℕ, suc, ◌+◌, ◌≡◌, sym, ap, ◌∙◌, some, List, [], arith, take, drop, length, Text, code_eq,
}
use forever_claude_template.Transcript.Index.{SessionFileState, Refs}
use forever_claude_template.Transcript.Paging.{
  reversed, before_loop, after_loop, collect_before, collect_after, total_event_count, event_offset,
}
use forever_claude_template.Transcript.Paging.Windows.{timeline, last, length-timeline}
use forever_claude_template.Transcript.Paging.Timeline.{collect_tail_lem, collect_at_offset_lem}
use forever_claude_template.Transcript.Paging.Answers.{
  Indexed, Query, answer, list_answer, page, position, tail, last_before, first_after, at_offset,
  offset_of, event_count,
}
use forever_claude_template.Transcript.Paging.Lookup.{
  Lookup, unknown, elsewhere, here, look_up, before_lem, after_lem, offset_lem,
}

answer_before :
    (refs : Refs) (states : List SessionFileState) (event_id : Text) (limit : ℕ)
    → Lookup refs states event_id
    → answer refs states (last_before event_id limit)
      ≡ list_answer (timeline states) (last_before event_id limit)
unfolding answer collect_before
answer_before refs states event_id limit (unknown e n) = ground (arith, e, n)
answer_before refs states event_id limit (elsewhere ref e o n) = ground (arith, e, o, n)
answer_before refs states event_id limit (here ref pos e o f) =
    let k = length (timeline f.older) + ref.1 in
    let code : collect_before refs states event_id limit
        ≡ before_loop ref.0 ref.1 (reversed (take (suc pos) states)) limit [] =
      ground (arith, e, o) in
    let plain : list_answer (timeline states) (last_before event_id limit)
        ≡ page (last limit (take k (timeline states))) =
      ground (arith, f.at) in
    ap page (code ∙ before_lem states ref.0 event_id ref.1 pos f limit) ∙ sym plain

answer_after :
    (refs : Refs) (states : List SessionFileState) (event_id : Text) (limit : ℕ)
    → Lookup refs states event_id
    → answer refs states (first_after event_id limit)
      ≡ list_answer (timeline states) (first_after event_id limit)
unfolding answer collect_after
answer_after refs states event_id limit (unknown e n) = ground (arith, e, n)
answer_after refs states event_id limit (elsewhere ref e o n) = ground (arith, e, o, n)
answer_after refs states event_id limit (here ref pos e o f) =
    let k = length (timeline f.older) + ref.1 in
    let code : collect_after refs states event_id limit
        ≡ after_loop ref.0 ref.1 (drop pos states) limit [] =
      ground (arith, e, o) in
    let plain : list_answer (timeline states) (first_after event_id limit)
        ≡ page (take limit (drop (suc k) (timeline states))) =
      ground (arith, f.at) in
    ap page (code ∙ after_lem states ref.0 event_id ref.1 pos f limit) ∙ sym plain

answer_offset :
    (refs : Refs) (states : List SessionFileState) (event_id : Text)
    → Lookup refs states event_id
    → answer refs states (offset_of event_id) ≡ list_answer (timeline states) (offset_of event_id)
unfolding answer event_offset
answer_offset refs states event_id (unknown e n) = ground (arith, e, n)
answer_offset refs states event_id (elsewhere ref e o n) = ground (arith, e, o, n)
answer_offset refs states event_id (here ref pos e o f) =
    let code : event_offset refs states event_id
        ≡ some (total_event_count (take pos states) + ref.1) =
      ground (arith, e, o) in
    ap position (code ∙ ap some (offset_lem states ref.0 event_id ref.1 pos f) ∙ sym f.at)

-- Where the index is right about the selected files, the watcher answers each request for a page, an
-- offset or a count as a plain search of the joined list of their events would.
pub answer_refines :
    (refs : Refs) (states : List SessionFileState) (q : Query)
    → Indexed refs states
    → answer refs states q ≡ list_answer (timeline states) q
unfolding answer
answer_refines refs states (tail limit) h = ap page (collect_tail_lem states limit)
answer_refines refs states (last_before event_id limit) h =
    answer_before refs states event_id limit (look_up refs states event_id h)
answer_refines refs states (first_after event_id limit) h =
    answer_after refs states event_id limit (look_up refs states event_id h)
answer_refines refs states (at_offset offset limit) h =
    ap page (collect_at_offset_lem states offset limit)
answer_refines refs states (offset_of event_id) h =
    answer_offset refs states event_id (look_up refs states event_id h)
answer_refines refs states event_count h =
    ap (λ k. position (some k)) (sym (length-timeline states))
