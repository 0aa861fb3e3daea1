-- ===== src/Transcript/Paging/Distinct.antt =====
-- The index has each event of the selected files once, in
-- apps/system_interface/imbue/system_interface/session_watcher.py.
use forever_claude_template.Base.{
  ℕ, suc, ◌+◌, ◌≡◌, refl, ◌∙◌, ap, true, false, inl, inr, none, some, List, [], ◌∷◌, ◌++◌, map,
  arith, Bool-cases, append_nil, get, Text, text_beq, text_beq_iff, code_eq, All,
}
use forever_claude_template.Transcript.Index.{EventLocator, SessionFileState, Refs, Place}
use forever_claude_template.Transcript.Paging.Windows.{timeline, whole}
use forever_claude_template.Transcript.Paging.Positions.{
  nth, position_of, pairs_missing, timeline_missing,
}
use forever_claude_template.Transcript.Paging.Answers.{AreDistinct, IsListed}
use forever_claude_template.Transcript.Paging.Finding.{elsewhere-Lacks}

-- No event of the list has the id of a later one.
abbrev pub AreOnce : List Place → Type 0
AreOnce [] = Unit
AreOnce (p ∷ ps) = (position_of p.1.event_id ps ≡ none) × AreOnce ps

pairs-AreOnce :
    (refs : Refs) (sid : Text) (k : ℕ) (ls : List EventLocator) (later : List Place)
    → ((i : ℕ) (l : EventLocator) → nth i ls ≡ some l → get refs l.event_id ≡ some (sid, k + i))
    → ((i : ℕ) (l : EventLocator) → nth i ls ≡ some l → position_of l.event_id later ≡ none)
    → AreOnce later
    → AreOnce (map (λ l. (sid, l)) ls ++ later)
pairs-AreOnce refs sid k [] later listed lacks once = once
pairs-AreOnce refs sid k (l ∷ ls) later listed lacks once =
    let apart = pairs_missing l.event_id sid ls later (λ i m at.
      elim (Bool-cases (text_beq m.event_id l.event_id)) [
        | inl b ↦
            let same : m.event_id ≡ l.event_id =
              ground (arith, text_beq_iff m.event_id l.event_id, b) in
            let here = listed 0 l refl in
            let there = listed (suc i) m at in
            let bad : k + 0 ≡ k + suc i = cc in let worse : false ≡ true = ground (arith, bad) in cc
        | inr b ↦ b
      ]) in
    (
      rw (apart, lacks 0 l refl) refl,
      pairs-AreOnce refs sid (suc k) ls later
          (λ i m at.
            let further : k + suc i ≡ suc k + i = omega arith in
            listed (suc i) m at ∙ ap (λ j. some (sid, j)) further)
          (λ i m at. lacks (suc i) m at) once,
    )

pub timeline-AreOnce :
    (refs : Refs) (states : List SessionFileState)
    → AreDistinct states
    → All (IsListed refs) states
    → AreOnce (timeline states)
unfolding whole position_of
timeline-AreOnce refs [] d h = _
timeline-AreOnce refs (f ∷ states) d h =
    pairs-AreOnce refs f.session_id 0 f.locators (timeline states)
      (λ i l at.
        let start : i ≡ 0 + i = omega arith in h.0 i l at ∙ ap (λ j. some (f.session_id, j)) start)
      (λ i l at.
        let missing =
          timeline_missing l.event_id states []
            (elsewhere-Lacks refs l.event_id f.session_id i states (h.0 i l at) h.1 d.0) in
        rw (append_nil (timeline states)) at missing)
      (timeline-AreOnce refs states d.1 h.1)
