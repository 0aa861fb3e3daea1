-- ===== src/Transcript/Paging/Positions.antt =====
-- Where the joined timeline has an event, and where the files' list has a session.
use forever_claude_template.Base.{
  ℕ, zero, suc, ◌+◌, ◌≡◌, refl, ap, true, false, inl, inr, Option, none, some, List, [], ◌∷◌, ◌++◌,
  map, arith, Bool-cases, if◌then◌else◌, length, length-append, append_assoc, Text, text_beq, All,
}
use forever_claude_template.Transcript.Index.{EventLocator, SessionFileState, Place}
use forever_claude_template.Transcript.Paging.{index_from}
use forever_claude_template.Transcript.Paging.Windows.{timeline, whole, length-whole}
use forever_claude_template.Transcript.Paging.Timeline.{Apart}

abbrev pub nth {ℓ} : {A : Type ℓ} → ℕ → List A → Option A
nth n [] = none
nth zero (x ∷ xs) = some x
nth (suc n) (x ∷ xs) = nth n xs

abbrev pub shift : ℕ → Option ℕ → Option ℕ
shift n none = none
shift n (some k) = some (n + k)

-- The first place of an event in a list of places.
unfoldable pub position_of : Text → List Place → Option ℕ
position_of event_id [] = none
position_of event_id (p ∷ ps) =
    let later = shift 1 (position_of event_id ps) in
    if text_beq p.1.event_id event_id then some 0 else later

abbrev pub Lacks : Text → SessionFileState → Type 0
Lacks event_id f =
    (i : ℕ) (l : EventLocator) → nth i f.locators ≡ some l → text_beq l.event_id event_id ≡ false

zero_shift : (o : Option ℕ) → o ≡ shift 0 o
zero_shift none = refl
zero_shift (some k) = ground arith

shift-shift : (m n : ℕ) (o : Option ℕ) → shift m (shift n o) ≡ shift (m + n) o
shift-shift m n none = refl
shift-shift m n (some k) = ground arith

pub pairs_missing :
    (event_id sid : Text) (ls : List EventLocator) (later : List Place)
    → ((i : ℕ) (l : EventLocator) → nth i ls ≡ some l → text_beq l.event_id event_id ≡ false)
    → position_of event_id (map (λ l. (sid, l)) ls ++ later)
      ≡ shift (length ls) (position_of event_id later)
unfolding position_of
pairs_missing event_id sid [] later h = zero_shift (position_of event_id later)
pairs_missing event_id sid (l ∷ ls) later h =
    let rest = pairs_missing event_id sid ls later (λ i m e. h (suc i) m e) in
    let one_more : 1 + length ls ≡ suc (length ls) = omega arith in
    rw (h 0 l refl, rest, shift-shift 1 (length ls) (position_of event_id later), one_more) refl

pairs_found :
    (event_id sid : Text) (i : ℕ) (l : EventLocator) (ls : List EventLocator) (later : List Place)
    → nth i ls ≡ some l
    → text_beq l.event_id event_id ≡ true
    → ((j : ℕ) (m : EventLocator) → nth j ls ≡ some m → text_beq m.event_id event_id ≡ true → j ≡ i)
    → position_of event_id (map (λ l. (sid, l)) ls ++ later) ≡ some i
unfolding position_of
pairs_found event_id sid i l [] later e h u = ground (arith, e)
pairs_found event_id sid zero l (m ∷ ls) later e h u = ground (arith, e, h)
pairs_found event_id sid (suc i) l (m ∷ ls) later e h u =
    elim (Bool-cases (text_beq m.event_id event_id)) [
      | inl b ↦ let bad = u 0 m refl b in ground arith
      | inr b ↦
          let rest =
            pairs_found event_id sid i l ls later e h
              (λ j k f g. let same = u (suc j) k f g in omega (arith, same)) in
          rw (b, rest) (ground arith)
    ]

whole_missing :
    (event_id : Text) (f : SessionFileState) (later : List Place)
    → Lacks event_id f
    → position_of event_id (whole f ++ later)
      ≡ shift (length (whole f)) (position_of event_id later)
unfolding whole
whole_missing event_id f later h =
    rw (length-whole f) (pairs_missing event_id f.session_id f.locators later h)

pub whole_found :
    (event_id : Text) (f : SessionFileState) (i : ℕ) (l : EventLocator) (later : List Place)
    → nth i f.locators ≡ some l
    → text_beq l.event_id event_id ≡ true
    → ((j : ℕ) (m : EventLocator)
        → nth j f.locators ≡ some m
        → text_beq m.event_id event_id ≡ true
        → j ≡ i)
    → position_of event_id (whole f ++ later) ≡ some i
unfolding whole
whole_found event_id f i l later e h u =
    pairs_found event_id f.session_id i l f.locators later e h u

-- Files that lack the event only move its place.
pub timeline_missing :
    (event_id : Text) (states : List SessionFileState) (later : List Place)
    → All (Lacks event_id) states
    → position_of event_id (timeline states ++ later)
      ≡ shift (length (timeline states)) (position_of event_id later)
timeline_missing event_id [] later h = zero_shift (position_of event_id later)
timeline_missing event_id (f ∷ states) later h =
    rw
      (
        append_assoc (whole f) (timeline states) later,
        whole_missing event_id f (timeline states ++ later) h.0,
        timeline_missing event_id states later h.1,
        shift-shift (length (whole f)) (length (timeline states)) (position_of event_id later),
        length-append (whole f) (timeline states),
      )
      refl

-- The files before and after the first one of a session, which is at `pos` counted from `start`.
pub record Located (session_id : Text) (states : List SessionFileState) (start pos : ℕ)
    : Type 0 where
  pub older : List SessionFileState
  pub file : SessionFileState
  pub newer : List SessionFileState
  pub splits : states ≡ older ++ (file ∷ newer)
  pub count : start + length older ≡ pos
  pub same : text_beq file.session_id session_id ≡ true
  pub apart : Apart session_id older

pub index_from-Located :
    (start k : ℕ) (sid : Text) (states : List SessionFileState)
    → index_from start sid states ≡ some k
    → Located sid states start k
unfolding index_from
index_from-Located start k sid [] h = let bad : false ≡ true = ground (arith, h) in cc
index_from-Located start k sid (f ∷ states) h = elim (Bool-cases (text_beq f.session_id sid)) [
  | inl e ↦ record {
    older = [];
    file = f;
    newer = states;
    splits = refl;
    count = ground (arith, h, e);
    same = e;
    apart = _;
  }
  | inr e ↦
      let rest = index_from-Located (suc start) k sid states (ground (arith, h, e)) in
      record {
        older = f ∷ rest.older;
        file = rest.file;
        newer = rest.newer;
        splits = ap (λ fs. f ∷ fs) rest.splits;
        count = omega (arith, rest.count);
        same = rest.same;
        apart = (e, rest.apart);
      }
]

pub index_from-none :
    (start : ℕ) (sid : Text) (states : List SessionFileState)
    → index_from start sid states ≡ none
    → Apart sid states
unfolding index_from
index_from-none start sid [] h = _
index_from-none start sid (f ∷ states) h = elim (Bool-cases (text_beq f.session_id sid)) [
  | inl e ↦ let bad : false ≡ true = ground (arith, h, e) in cc
  | inr e ↦ (e, index_from-none (suc start) sid states (ground (arith, h, e)))
]
