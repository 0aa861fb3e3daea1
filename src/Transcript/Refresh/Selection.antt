-- ===== src/Transcript/Refresh/Selection.antt =====
-- The selected files of a request, in
-- apps/system_interface/imbue/system_interface/session_watcher.py.
use forever_claude_template.Base.{
  ℕ, ◌≡◌, refl, false, inl, inr, Option, none, some, List, [], ◌∷◌, arith, Option-cases, get,
  in_names, Text, text_beq_iff, code_eq, All,
}
use forever_claude_template.Transcript.Index.{Refs}
use forever_claude_template.Transcript.Watcher.{Watcher}
use forever_claude_template.Transcript.Requests.{known_states, ordered_selected_states}
use forever_claude_template.Transcript.Paging.Timeline.{Apart}
use forever_claude_template.Transcript.Paging.Answers.{Indexed, AreDistinct, IsListed, HasAt}
use forever_claude_template.Transcript.Refresh.Indexing.{States, Inv, WatcherInv, AreApart}

listed_in :
    (states : States) (mains : List Text) (refs : Refs) (existing ids : List Text)
    → Inv states mains refs existing
    → All (IsListed refs) (known_states states ids)
unfolding known_states
listed_in states mains refs existing [] v = _
listed_in states mains refs existing (sid ∷ ids) v = elim (Option-cases (get states sid)) [
  | inl none_known ↦ rw (known_states, none_known) (listed_in states mains refs existing ids v)
  | inr (f, known) ↦
      rw (known_states, known)
        (
          λ i l at. let is_sid = v.named sid f known in let ref = v.listed sid f i l known at in cc,
          listed_in states mains refs existing ids v,
        )
]

sound_in :
    (states : States) (mains : List Text) (refs : Refs) (existing ids : List Text)
    (event_id k : Text) (i : ℕ)
    → Inv states mains refs existing
    → get refs event_id ≡ some (k, i)
    → All (HasAt k event_id i) (known_states states ids)
unfolding known_states
sound_in states mains refs existing [] event_id k i v e = _
sound_in states mains refs existing (sid ∷ ids) event_id k i v e =
    elim (Option-cases (get states sid)) [
      | inl none_known ↦
          rw (known_states, none_known) (sound_in states mains refs existing ids event_id k i v e)
      | inr (f, known) ↦
          rw (known_states, known)
            (
              λ b.
                  let t = v.sound event_id k i e in
                  let there = t.known in
                  let is_k : f.session_id ≡ k = (text_beq_iff f.session_id k).0 b in
                  let is_sid = v.named sid f known in
                  let is_f : t.file ≡ f = cc in
                  let same_id = t.same in
                  (
                    t.locator,
                    rw (← is_f) t.at,
                    (text_beq_iff t.locator.event_id event_id).1 same_id,
                  ),
              sound_in states mains refs existing ids event_id k i v e,
            )
    ]

Apart-in :
    (states : States) (mains : List Text) (refs : Refs) (existing ids : List Text) (k : Text)
    → Inv states mains refs existing
    → in_names k ids ≡ false
    → Apart k (known_states states ids)
unfolding known_states in_names
Apart-in states mains refs existing [] k v h = _
Apart-in states mains refs existing (sid ∷ ids) k v h = elim (Option-cases (get states sid)) [
  | inl none_known ↦
      rw (known_states, none_known)
        (Apart-in states mains refs existing ids k v (ground (arith, h)))
  | inr (f, known) ↦
      rw (known_states, known)
        (
          let is_sid = v.named sid f known in
              ground (arith, h, is_sid, text_beq_iff f.session_id k, text_beq_iff k sid),
          Apart-in states mains refs existing ids k v (ground (arith, h)),
        )
]

distinct_in :
    (states : States) (mains : List Text) (refs : Refs) (existing ids : List Text)
    → Inv states mains refs existing
    → AreApart ids
    → AreDistinct (known_states states ids)
unfolding known_states
distinct_in states mains refs existing [] v h = _
distinct_in states mains refs existing (sid ∷ ids) v h = elim (Option-cases (get states sid)) [
  | inl none_known ↦
      rw (known_states, none_known) (distinct_in states mains refs existing ids v h.1)
  | inr (f, known) ↦
      rw (known_states, known)
        (
          rw (v.named sid f known) (Apart-in states mains refs existing ids sid v h.0),
          distinct_in states mains refs existing ids v h.1,
        )
]

known-Indexed :
    (w : Watcher) (ids : List Text)
    → WatcherInv w
    → AreApart ids
    → Indexed w.locator_ref_by_id (known_states w.session_states ids)
known-Indexed w ids v h = record {
  distinct =
      distinct_in w.session_states w.main_session_ids w.locator_ref_by_id w.existing_event_ids ids v
        h;
  listed =
      listed_in w.session_states w.main_session_ids w.locator_ref_by_id w.existing_event_ids ids v;
  sound = λ event_id k i e.
      sound_in w.session_states w.main_session_ids w.locator_ref_by_id w.existing_event_ids ids
        event_id k i v e;
}

lone_apart : (k : Text) → AreApart (k ∷ [])
unfolding in_names
lone_apart k = (refl, _)

one_known :
    (session_id : Text) (w : Watcher)
    → ordered_selected_states (some session_id) w ≡ known_states w.session_states (session_id ∷ [])
unfolding ordered_selected_states known_states
one_known session_id w = refl

pub selected-Indexed :
    (w : Watcher) (session_id : Option Text)
    → WatcherInv w
    → Indexed w.locator_ref_by_id (ordered_selected_states session_id w)
unfolding ordered_selected_states
selected-Indexed w none v = known-Indexed w w.main_session_ids v v.mains_apart
selected-Indexed w (some session_id) v =
    rw (one_known session_id w) (known-Indexed w (session_id ∷ []) v (lone_apart session_id))
