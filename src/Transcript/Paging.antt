-- ===== src/Transcript/Paging.antt =====
-- The pages of `AgentSessionWatcher` in
-- apps/system_interface/imbue/system_interface/session_watcher.py. A page names its events by session
-- and locator, and the selected files are an argument.
pub mod Windows
pub mod Positions
pub mod Timeline
pub mod Answers
pub mod Finding
pub mod Distinct
pub mod Lookup
pub mod Refinement
use forever_claude_template.Base.{
  ℕ, zero, suc, ◌+◌, ◌-◌, min, Bool, Option, none, some, List, [], ◌∷◌, ◌++◌, take, drop, length,
  ◌==◌, leb, if◌then◌else◌, get, Text, text_beq, code_eq,
}
use forever_claude_template.Transcript.Index.{SessionFileState, Refs, Place, places}

abbrev pub reversed {ℓ} : {A : Type ℓ} → List A → List A
reversed [] = []
reversed (x ∷ xs) = reversed xs ++ x ∷ []

-- `states.index(ref_state)`, from `pos` on
unfoldable pub index_from : ℕ → Text → List SessionFileState → Option ℕ
index_from pos session_id [] = none
index_from pos session_id (f ∷ states) =
    let later = index_from (suc pos) session_id states in
    if text_beq f.session_id session_id then some pos else later

-- The walk from the newest file to the oldest.
unfoldable pub tail_loop : List SessionFileState → ℕ → List Place → List Place
unfolding places
tail_loop [] needed collected = collected
tail_loop (f ∷ older) needed collected =
    let count = length f.locators in
    let start = count - needed in
    let rest = tail_loop older (needed - (count - start)) (places f start count ++ collected) in
    if needed == 0 then collected else rest

unfoldable pub collect_tail : List SessionFileState → ℕ → List Place
unfolding tail_loop
collect_tail states limit = tail_loop (reversed states) limit []

unfoldable pub before_loop : Text → ℕ → List SessionFileState → ℕ → List Place → List Place
unfolding places
before_loop ref_session ref_idx [] needed collected = collected
before_loop ref_session ref_idx (f ∷ older) needed collected =
    let end = if text_beq f.session_id ref_session then ref_idx else length f.locators in
    let start = end - needed in
    let rest =
      before_loop ref_session ref_idx older (needed - (end - start))
        (places f start end ++ collected) in
    if needed == 0 then collected else rest

unfoldable pub collect_before : Refs → List SessionFileState → Text → ℕ → List Place
unfolding index_from before_loop
collect_before refs states before_event_id limit = elim (get refs before_event_id) [
  | none ↦ []
  | some ref ↦ elim (index_from 0 ref.0 states) [
    | none ↦ []
    | some state_pos ↦ before_loop ref.0 ref.1 (reversed (take (suc state_pos) states)) limit []
  ]
]

unfoldable pub after_loop : Text → ℕ → List SessionFileState → ℕ → List Place → List Place
unfolding places
after_loop ref_session ref_idx [] needed collected = collected
after_loop ref_session ref_idx (f ∷ newer) needed collected =
    let start = if text_beq f.session_id ref_session then suc ref_idx else 0 in
    let end = min (length f.locators) (start + needed) in
    let rest =
      after_loop ref_session ref_idx newer (needed - (end - start))
        (collected ++ places f start end) in
    if needed == 0 then collected else rest

unfoldable pub collect_after : Refs → List SessionFileState → Text → ℕ → List Place
unfolding index_from after_loop
collect_after refs states after_event_id limit = elim (get refs after_event_id) [
  | none ↦ []
  | some ref ↦ elim (index_from 0 ref.0 states) [
    | none ↦ []
    | some state_pos ↦ after_loop ref.0 ref.1 (drop state_pos states) limit []
  ]
]

unfoldable pub offset_loop : List SessionFileState → ℕ → ℕ → List Place → List Place
unfolding places
offset_loop [] skip needed collected = collected
offset_loop (f ∷ states) skip needed collected =
    let count = length f.locators in
    let skipped = offset_loop states (skip - count) needed collected in
    let end = min count (skip + needed) in
    let taken = collected ++ places f skip end in
    let rest = offset_loop states 0 (needed - (end - skip)) taken in
    if leb count skip then skipped else if leb needed (end - skip) then taken else rest

unfoldable pub collect_at_offset : List SessionFileState → ℕ → ℕ → List Place
unfolding offset_loop
collect_at_offset states offset limit = offset_loop states offset limit []

unfoldable pub total_event_count : List SessionFileState → ℕ
total_event_count [] = 0
total_event_count (f ∷ states) = length f.locators + total_event_count states

-- None where the source has -1.
unfoldable pub event_offset : Refs → List SessionFileState → Text → Option ℕ
unfolding index_from total_event_count
event_offset refs states event_id = elim (get refs event_id) [
  | none ↦ none
  | some ref ↦ elim (index_from 0 ref.0 states) [
    | none ↦ none
    | some state_pos ↦ some (total_event_count (take state_pos states) + ref.1)
  ]
]
