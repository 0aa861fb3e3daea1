-- ===== src/Transcript/Paging/Finding.antt =====
-- Where an event stands among the selected files, in
-- apps/system_interface/imbue/system_interface/session_watcher.py.
use forever_claude_template.Base.{
  ℕ, zero, suc, ◌+◌, ◌≡◌, ◌<◌, refl, sym, true, false, inl, inr, none, some, List, [], ◌∷◌, ◌++◌,
  arith, Bool-cases, length, append_assoc, get, Text, text_beq, text_beq_iff, code_eq, All,
  All-append,
}
use forever_claude_template.Transcript.Index.{EventLocator, SessionFileState, Refs}
use forever_claude_template.Transcript.Paging.{reversed, index_from}
use forever_claude_template.Transcript.Paging.Windows.{timeline, whole}
use forever_claude_template.Transcript.Paging.Timeline.{Apart}
use forever_claude_template.Transcript.Paging.Positions.{
  nth, position_of, Lacks, whole_found, timeline_missing, index_from-Located,
}
use forever_claude_template.Transcript.Paging.Answers.{Indexed, AreDistinct, IsListed, HasAt}

All-split {ℓ κ} :
    {A : Type ℓ} (P : A → Type κ) (xs ys : List A) → All P (xs ++ ys) → All P xs × All P ys
All-split P [] ys h = (_, h)
All-split P (x ∷ xs) ys h = let rest = All-split P xs ys h.1 in ((h.0, rest.0), rest.1)

pub unknown-Lacks :
    (refs : Refs) (event_id : Text) (states : List SessionFileState)
    → get refs event_id ≡ none
    → All (IsListed refs) states
    → All (Lacks event_id) states
unknown-Lacks refs event_id [] e h = _
unknown-Lacks refs event_id (f ∷ states) e h = (
  λ i l at. elim (Bool-cases (text_beq l.event_id event_id)) [
    | inl b ↦
        let same : l.event_id ≡ event_id = ground (arith, text_beq_iff l.event_id event_id, b) in
        let known = h.0 i l at in cc
    | inr b ↦ b
  ],
  unknown-Lacks refs event_id states e h.1,
)

pub elsewhere-Lacks :
    (refs : Refs) (event_id sid : Text) (i : ℕ) (states : List SessionFileState)
    → get refs event_id ≡ some (sid, i)
    → All (IsListed refs) states
    → Apart sid states
    → All (Lacks event_id) states
elsewhere-Lacks refs event_id sid i [] e h apart = _
elsewhere-Lacks refs event_id sid i (f ∷ states) e h apart = (
  λ j l at. elim (Bool-cases (text_beq l.event_id event_id)) [
    | inl b ↦
        let same : l.event_id ≡ event_id = ground (arith, text_beq_iff l.event_id event_id, b) in
        let known = h.0 j l at in
        let home : f.session_id ≡ sid = cc in
        let here : text_beq f.session_id sid ≡ true =
          ground (arith, text_beq_iff f.session_id sid, home) in
        cc
    | inr b ↦ b
  ],
  elsewhere-Lacks refs event_id sid i states e h.1 apart.1,
)

pub timeline-append :
    (fs gs : List SessionFileState) → timeline (fs ++ gs) ≡ timeline fs ++ timeline gs
timeline-append [] gs = refl
timeline-append (f ∷ fs) gs =
    rw (timeline-append fs gs) (sym (append_assoc (whole f) (timeline fs) (timeline gs)))

Apart-after :
    (sid : Text) (older newer : List SessionFileState) (f : SessionFileState)
    → AreDistinct (older ++ (f ∷ newer))
    → f.session_id ≡ sid
    → Apart sid newer
Apart-after sid [] newer f h e = rw (← e) (h.0)
Apart-after sid (g ∷ older) newer f h e = Apart-after sid older newer f h.1 e

nth_lt {ℓ} : {A : Type ℓ} (i : ℕ) (x : A) (xs : List A) → nth i xs ≡ some x → i < length xs
nth_lt i x [] h = let bad : false ≡ true = ground (arith, h) in cc
nth_lt zero x (y ∷ xs) h = omega arith
nth_lt (suc i) x (y ∷ xs) h = omega (arith, nth_lt i x xs h)

nth_unique :
    (refs : Refs) (f : SessionFileState) (event_id sid : Text) (i : ℕ)
    → IsListed refs f
    → get refs event_id ≡ some (sid, i)
    → (j : ℕ) (m : EventLocator) → nth j f.locators ≡ some m
    → text_beq m.event_id event_id ≡ true
    → j ≡ i
nth_unique refs f event_id sid i h e j m at b =
    let same : m.event_id ≡ event_id = ground (arith, text_beq_iff m.event_id event_id, b) in
    let known = h j m at in cc

pub Apart-reversed :
    (sid : Text) (fs : List SessionFileState) → Apart sid fs → Apart sid (reversed fs)
Apart-reversed sid [] h = _
Apart-reversed sid (f ∷ fs) h =
    All-append (λ f. text_beq f.session_id sid ≡ false) (reversed fs) (f ∷ [])
      (Apart-reversed sid fs h.1) (h.0, _)

pub reversed_snoc :
    (fs : List SessionFileState) (f : SessionFileState) → reversed (fs ++ f ∷ []) ≡ f ∷ reversed fs
reversed_snoc [] f = refl
reversed_snoc (g ∷ fs) f = rw (reversed_snoc fs f) refl

-- The event in its file, with the files before and after it.
pub record Found (states : List SessionFileState) (sid event_id : Text) (i pos : ℕ) : Type 0 where
  pub older : List SessionFileState
  pub newer : List SessionFileState
  pub file : SessionFileState
  pub splits : states ≡ older ++ (file ∷ newer)
  pub count : length older ≡ pos
  pub same : text_beq file.session_id sid ≡ true
  pub before : Apart sid older
  pub after : Apart sid newer
  pub bound : i < length file.locators
  pub at : position_of event_id (timeline states) ≡ some (length (timeline older) + i)

pub find_event :
    (refs : Refs) (states : List SessionFileState) (sid event_id : Text) (i pos : ℕ)
    → Indexed refs states
    → get refs event_id ≡ some (sid, i)
    → index_from 0 sid states ≡ some pos
    → Found states sid event_id i pos
find_event refs states sid event_id i pos h e at =
    let split = index_from-Located 0 pos sid states at in
    let parts : states ≡ split.older ++ (split.file ∷ split.newer) = split.splits in
    let listed : All (IsListed refs) (split.older ++ (split.file ∷ split.newer)) =
      rw (← parts) h.listed in
    let sound : All (HasAt sid event_id i) (split.older ++ (split.file ∷ split.newer)) =
      rw (← parts) (h.sound event_id sid i e) in
    let distinct : AreDistinct (split.older ++ (split.file ∷ split.newer)) =
      rw (← parts) h.distinct in
    let listed_parts = All-split (IsListed refs) split.older (split.file ∷ split.newer) listed in
    let sound_parts =
      All-split (HasAt sid event_id i) split.older (split.file ∷ split.newer) sound in
    let home : split.file.session_id ≡ sid =
      ground (arith, text_beq_iff split.file.session_id sid, split.same) in
    let here = sound_parts.1.0 split.same in
    let lacks = elsewhere-Lacks refs event_id sid i split.older e listed_parts.0 split.apart in
    let found =
      whole_found event_id split.file i here.0 (timeline split.newer) here.1 here.2
        (nth_unique refs split.file event_id sid i listed_parts.1.0 e) in
    record {
      older = split.older;
      newer = split.newer;
      file = split.file;
      splits = parts;
      count = omega (arith, split.count);
      same = split.same;
      before = split.apart;
      after = Apart-after sid split.older split.newer split.file distinct home;
      bound = nth_lt i here.0 split.file.locators here.1;
      at =
          rw
            (
              parts,
              timeline-append split.older (split.file ∷ split.newer),
              timeline_missing event_id split.older (timeline (split.file ∷ split.newer)) lacks,
              found,
            )
            refl;
    }
