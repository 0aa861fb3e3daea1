-- ===== src/Transcript/Paging/Timeline.antt =====
-- The pages are windows of the joined timeline, in
-- apps/system_interface/imbue/system_interface/session_watcher.py.
use forever_claude_template.Base.{
  ℕ, suc, ◌+◌, ◌-◌, ◌≡◌, ◌≤◌, ◌<◌, min, refl, sym, true, false, inl, inr, List, [], ◌∷◌, ◌++◌,
  arith, leb, ◌==◌, Bool-cases, take, drop, length, length-drop, append_nil, append_assoc, Text,
  text_beq, All,
}
use forever_claude_template.Transcript.Index.{SessionFileState, Place, places}
use forever_claude_template.Transcript.Paging.{
  reversed, tail_loop, before_loop, after_loop, offset_loop, collect_tail, collect_at_offset,
}
use forever_claude_template.Transcript.Paging.Windows.{
  timeline, last, take-append, drop-append, drop_all, take_all, last-append, last_none, last_nil,
  take_none, drop_none, length-take, slice_all, whole, length-whole, places_lem, backwards,
  backwards-reversed,
}

last-places :
    (n end : ℕ) (f : SessionFileState)
    → end ≤ length f.locators
    → places f (end - n) end ≡ last n (take end (whole f))
unfolding last
last-places n end f h =
    let all : length (take end (whole f)) ≡ end =
      length-take end (whole f) (omega (arith, h, length-whole f)) in
    rw (places_lem f (end - n) end, all) refl

-- The file's part of a page that goes back: its last events, and the rest from the older files.
last_step :
    (n end : ℕ) (f : SessionFileState) (older collected : List Place)
    → end ≤ length f.locators
    → last (n - (end - (end - n))) older ++ (places f (end - n) end ++ collected)
      ≡ last n (older ++ take end (whole f)) ++ collected
last_step n end f older collected h =
    let all : length (take end (whole f)) ≡ end =
      length-take end (whole f) (omega (arith, h, length-whole f)) in
    let needed : n - (end - (end - n)) ≡ n - end = omega arith in
    rw (needed, last-places n end f h, last-append n older (take end (whole f)), all)
      (sym (append_assoc (last (n - end) older) (last n (take end (whole f))) collected))

tail_loop_lem :
    (older : List SessionFileState) (n : ℕ) (collected : List Place)
    → tail_loop older n collected ≡ last n (backwards older) ++ collected
unfolding tail_loop
tail_loop_lem [] n collected = rw (last_nil {A = Place} n) refl
tail_loop_lem (f ∷ older) n collected = elim (Bool-cases (n == 0)) [
  | inl e ↦
      let none_needed : n ≡ 0 = ground (arith, e) in
      rw (e, none_needed, last_none (backwards older ++ whole f)) refl
  | inr e ↦
      let count = length f.locators in
      let step = last_step n count f (backwards older) collected (omega arith) in
      let full : take count (whole f) ≡ whole f =
        take_all count (whole f) (omega (arith, length-whole f)) in
      rw
        (
          e,
          tail_loop_lem older (n - (count - (count - n))) (places f (count - n) count ++ collected),
          step,
          full,
        )
        refl
]

-- No file of the list is the session's.
abbrev pub Apart : Text → List SessionFileState → Type 0
Apart session_id = All (λ f. text_beq f.session_id session_id ≡ false)

before_loop-Apart :
    (sid : Text) (idx : ℕ) (older : List SessionFileState) (n : ℕ) (collected : List Place)
    → Apart sid older
    → before_loop sid idx older n collected ≡ tail_loop older n collected
unfolding before_loop tail_loop
before_loop-Apart sid idx [] n collected h = refl
before_loop-Apart sid idx (f ∷ older) n collected h =
    let count = length f.locators in
    let rest =
      before_loop-Apart sid idx older (n - (count - (count - n)))
        (places f (count - n) count ++ collected) h.1 in
    rw (h.0, rest) refl

pub before_loop_lem :
    (sid : Text) (idx : ℕ) (f : SessionFileState) (older : List SessionFileState) (n : ℕ)
    → text_beq f.session_id sid ≡ true
    → idx ≤ length f.locators
    → Apart sid older
    → before_loop sid idx (f ∷ older) n [] ≡ last n (backwards older ++ take idx (whole f))
unfolding before_loop
before_loop_lem sid idx f older n same h apart = elim (Bool-cases (n == 0)) [
  | inl e ↦
      let none_needed : n ≡ 0 = ground (arith, e) in
      rw (e, none_needed, last_none (backwards older ++ take idx (whole f))) refl
  | inr e ↦
      let collected = places f (idx - n) idx ++ [] in
      let needed = n - (idx - (idx - n)) in
      rw
        (
          e,
          same,
          before_loop-Apart sid idx older needed collected apart,
          tail_loop_lem older needed collected,
          last_step n idx f (backwards older) [] h,
        )
        (append_nil (last n (backwards older ++ take idx (whole f))))
]

-- The file's part of a page that goes on: its first events from `start` on.
first_places :
    (start n : ℕ) (f : SessionFileState)
    → places f start (min (length f.locators) (start + n)) ≡ take n (drop start (whole f))
first_places start n f =
    rw (places_lem f start (min (length f.locators) (start + n)), ← length-whole f)
      (slice_all start n (whole f))

first_step :
    (start n : ℕ) (f : SessionFileState) (newer collected : List Place)
    → start ≤ length f.locators
    → (collected ++ places f start (min (length f.locators) (start + n)))
        ++ take (n - (min (length f.locators) (start + n) - start)) newer
      ≡ collected ++ take n (drop start (whole f) ++ newer)
first_step start n f newer collected h =
    let left : length (drop start (whole f)) ≡ length f.locators - start =
      omega (arith, length-drop start (whole f), length-whole f) in
    let part = take n (drop start (whole f)) in
    elim (Bool-cases (leb n (length f.locators - start))) [
      | inl e ↦
          let done : n - (min (length f.locators) (start + n) - start) ≡ 0 = ground (arith, e, h) in
          let done' : n - (length f.locators - start) ≡ 0 = ground (arith, e) in
          rw (first_places start n f, take-append n (drop start (whole f)) newer, left, done, done')
            (append_assoc collected part [])
      | inr e ↦
          let more : n - (min (length f.locators) (start + n) - start)
              ≡ n - (length f.locators - start) =
            ground (arith, e, h) in
          rw (first_places start n f, take-append n (drop start (whole f)) newer, left, more)
            (append_assoc collected part (take (n - (length f.locators - start)) newer))
    ]

after_loop-Apart :
    (sid : Text) (idx : ℕ) (newer : List SessionFileState) (n : ℕ) (collected : List Place)
    → Apart sid newer
    → after_loop sid idx newer n collected ≡ collected ++ take n (timeline newer)
unfolding after_loop
after_loop-Apart sid idx [] n collected h = rw (take_none n) (sym (append_nil collected))
after_loop-Apart sid idx (f ∷ newer) n collected h = elim (Bool-cases (n == 0)) [
  | inl e ↦
      let none_needed : n ≡ 0 = ground (arith, e) in
      rw (e, none_needed) (sym (append_nil collected))
  | inr e ↦
      let end = min (length f.locators) (0 + n) in
      rw (e, h.0, after_loop-Apart sid idx newer (n - (end - 0)) (collected ++ places f 0 end) h.1)
        (first_step 0 n f (timeline newer) collected (omega arith))
]

pub after_loop_lem :
    (sid : Text) (idx : ℕ) (f : SessionFileState) (newer : List SessionFileState) (n : ℕ)
    → text_beq f.session_id sid ≡ true
    → idx < length f.locators
    → Apart sid newer
    → after_loop sid idx (f ∷ newer) n [] ≡ take n (drop (suc idx) (whole f) ++ timeline newer)
unfolding after_loop
after_loop_lem sid idx f newer n same h apart = elim (Bool-cases (n == 0)) [
  | inl e ↦ let none_needed : n ≡ 0 = ground (arith, e) in rw (e, none_needed) refl
  | inr e ↦
      let end = min (length f.locators) (suc idx + n) in
      rw
        (
          e,
          same,
          after_loop-Apart sid idx newer (n - (end - suc idx)) ([] ++ places f (suc idx) end) apart,
        )
        (first_step (suc idx) n f (timeline newer) [] (omega (arith, h)))
]

offset_loop_lem :
    (states : List SessionFileState) (skip n : ℕ) (collected : List Place)
    → offset_loop states skip n collected ≡ collected ++ take n (drop skip (timeline states))
unfolding offset_loop
offset_loop_lem [] skip n collected = rw (drop_none skip, take_none n) (sym (append_nil collected))
offset_loop_lem (f ∷ states) skip n collected = elim (Bool-cases (leb (length f.locators) skip)) [
  | inl e ↦
      let past : drop skip (whole f) ≡ [] =
        drop_all skip (whole f) (ground (arith, e, length-whole f)) in
      rw
        (
          e,
          drop-append skip (whole f) (timeline states),
          past,
          length-whole f,
          offset_loop_lem states (skip - length f.locators) n collected,
        )
        refl
  | inr e ↦
      let end = min (length f.locators) (skip + n) in
      let taken = collected ++ places f skip end in
      let here : skip - length f.locators ≡ 0 = ground (arith, e) in
      let step = first_step skip n f (timeline states) collected (ground (arith, e)) in
      let window : drop skip (whole f ++ timeline states) ≡ drop skip (whole f) ++ timeline states =
        rw (drop-append skip (whole f) (timeline states), length-whole f, here) refl in
      elim (Bool-cases (leb n (end - skip))) [
        | inl full ↦
            let done : n - (end - skip) ≡ 0 = ground (arith, full) in
            rw (e, full, window, ← step, done) (sym (append_nil taken))
        | inr part ↦
            rw (e, part, window, ← step, offset_loop_lem states 0 (n - (end - skip)) taken) refl
      ]
]

-- The page at the tail is the last `limit` events of the timeline.
pub collect_tail_lem :
    (states : List SessionFileState) (limit : ℕ)
    → collect_tail states limit ≡ last limit (timeline states)
unfolding collect_tail
collect_tail_lem states limit =
    rw (tail_loop_lem (reversed states) limit [], backwards-reversed states)
      (append_nil (last limit (timeline states)))

-- The page at an offset is the `limit` events of the timeline from that index on.
pub collect_at_offset_lem :
    (states : List SessionFileState) (offset limit : ℕ)
    → collect_at_offset states offset limit ≡ take limit (drop offset (timeline states))
unfolding collect_at_offset
collect_at_offset_lem states offset limit = offset_loop_lem states offset limit []
