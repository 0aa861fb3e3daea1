-- ===== src/Interface/Layouts/Slugs.antt =====
-- `slugify_layout_name` of apps/system_interface/imbue/system_interface/workspace_layouts.py, on
-- code points. `display_name.strip().lower()` is Python's: the functions here take its result.
use forever_claude_template.Base.{
  ℕ, ◌≡◌, refl, Bool, true, false, ◌&&◌, ◌||◌, not, Option, none, some, [], ◌∷◌, arith, leb, ◌==◌,
  if◌then◌else◌, Text,
}

-- `[a-z0-9]`
abbrev pub is_word : ℕ → Bool
is_word c = (leb 97 c && leb c 122) || (leb 48 c && leb c 57)

-- `re.sub(r"[^a-z0-9]+", "-", text)`; the flag tells that the previous character was replaced.
unfoldable pub dashed : Bool → Text → Text
dashed in_run [] = []
dashed in_run (c ∷ cs) =
    let rest = dashed (not (is_word c)) cs in
    if is_word c then c ∷ rest else if in_run then rest else 45 ∷ rest

-- `text.lstrip("-")`, `text.rstrip("-")`
unfoldable pub left_stripped : Text → Text
left_stripped [] = []
left_stripped (c ∷ cs) = let rest = left_stripped cs in if c == 45 then rest else c ∷ cs

-- A character is kept when it is no dash or something is kept after it.
abbrev pub cons_kept : ℕ → Text → Text
cons_kept c [] = if c == 45 then [] else c ∷ []
cons_kept c (d ∷ ds) = c ∷ d ∷ ds

unfoldable pub right_stripped : Text → Text
right_stripped [] = []
right_stripped (c ∷ cs) = cons_kept c (right_stripped cs)

abbrev pub nonempty : Text → Option Text
nonempty [] = none
nonempty (c ∷ cs) = some (c ∷ cs)

-- `none` is the LayoutNameError.
unfoldable pub slug_of_lowered : Text → Option Text
unfolding dashed left_stripped right_stripped
slug_of_lowered lowered = nonempty (right_stripped (left_stripped (dashed false lowered)))

-- Words of `[a-z0-9]` with single dashes between: `[a-z0-9]+(-[a-z0-9]+)*` where the flag is set, which
-- tells that a word has to begin here.
unfoldable pub is_words : Bool → Text → Bool
is_words begins [] = not begins
is_words begins (c ∷ cs) =
    let rest = is_words (not (is_word c)) cs in
    if is_word c then rest else if c == 45 then not begins && rest else false

-- The same with dashes allowed at the end.
is_single : Bool → Text → Bool
is_single begins [] = true
is_single begins (c ∷ cs) =
    let rest = is_single (not (is_word c)) cs in
    if is_word c then rest else if c == 45 then not begins && rest else false

dashed-single : (in_run : Bool) (t : Text) → is_single in_run (dashed in_run t) ≡ true
unfolding dashed is_single
dashed-single in_run [] = refl
dashed-single in_run (c ∷ cs) = ground (arith, dashed-single (not (is_word c)) cs)

left_stripped-single :
    (begins : Bool) (t : Text) → is_single begins t ≡ true → is_single true (left_stripped t) ≡ true
unfolding left_stripped is_single
left_stripped-single begins [] h = refl
left_stripped-single begins (c ∷ cs) h = ground (arith, left_stripped-single (not (is_word c)) cs)

abbrev is_words_or_empty : Bool → Text → Bool
is_words_or_empty begins [] = true
is_words_or_empty begins (c ∷ cs) = is_words begins (c ∷ cs)

cons_kept-words :
    (begins : Bool) (c : ℕ) (rest : Text)
    → is_single begins (c ∷ []) ≡ true
    → is_words_or_empty (not (is_word c)) rest ≡ true
    → is_words_or_empty begins (cons_kept c rest) ≡ true
unfolding is_words is_single
cons_kept-words begins c [] h g = ground arith
cons_kept-words begins c (d ∷ ds) h g = ground arith

right_stripped-words :
    (begins : Bool) (t : Text)
    → is_single begins t ≡ true
    → is_words_or_empty begins (right_stripped t) ≡ true
unfolding right_stripped is_single
right_stripped-words begins [] h = refl
right_stripped-words begins (c ∷ cs) h =
    cons_kept-words begins c (right_stripped cs) (ground arith)
      (right_stripped-words (not (is_word c)) cs (ground arith))

dashed-same : (begins : Bool) (t : Text) → is_words begins t ≡ true → dashed begins t ≡ t
unfolding dashed is_words
dashed-same begins [] h = refl
dashed-same begins (c ∷ cs) h = ground (arith, dashed-same (not (is_word c)) cs)

left_stripped-same : (t : Text) → is_words true t ≡ true → left_stripped t ≡ t
unfolding left_stripped is_words
left_stripped-same [] h = refl
left_stripped-same (c ∷ cs) h = ground arith

right_stripped-same : (begins : Bool) (t : Text) → is_words begins t ≡ true → right_stripped t ≡ t
unfolding right_stripped is_words
right_stripped-same begins [] h = refl
right_stripped-same begins (c ∷ []) h = ground arith
right_stripped-same begins (c ∷ d ∷ ds) h =
    let rest = right_stripped-same (not (is_word c)) (d ∷ ds) (ground arith) in ground arith

-- The characters `[a-z0-9]` of a text.
unfoldable pub word_chars : Text → Text
word_chars [] = []
word_chars (c ∷ cs) = let rest = word_chars cs in if is_word c then c ∷ rest else rest

word_chars-dashed : (in_run : Bool) (t : Text) → word_chars (dashed in_run t) ≡ word_chars t
unfolding word_chars dashed
word_chars-dashed in_run [] = refl
word_chars-dashed in_run (c ∷ cs) = ground (arith, word_chars-dashed (not (is_word c)) cs)

word_chars-left_stripped : (t : Text) → word_chars (left_stripped t) ≡ word_chars t
unfolding word_chars left_stripped
word_chars-left_stripped [] = refl
word_chars-left_stripped (c ∷ cs) = ground (arith, word_chars-left_stripped cs)

word_chars-cons_kept : (c : ℕ) (rest : Text) → word_chars (cons_kept c rest) ≡ word_chars (c ∷ rest)
unfolding word_chars
word_chars-cons_kept c [] = ground arith
word_chars-cons_kept c (d ∷ ds) = refl

word_chars-right_stripped : (t : Text) → word_chars (right_stripped t) ≡ word_chars t
unfolding word_chars right_stripped
word_chars-right_stripped [] = refl
word_chars-right_stripped (c ∷ cs) =
    ground (arith, word_chars-cons_kept c (right_stripped cs), word_chars-right_stripped cs)

nonempty-some :
    (t slug : Text)
    → nonempty t ≡ some slug
    → is_words_or_empty true t ≡ true
    → (is_words true slug ≡ true) × (slug ≡ t)
nonempty-some [] slug e h = cc
nonempty-some (c ∷ cs) slug e h = (ground arith, ground arith)

-- A slug is made of words of `[a-z0-9]` with single dashes between them, and it keeps the
-- characters `[a-z0-9]` of the lowered name, in their order.
pub slug_of_lowered-is_words :
    (lowered slug : Text)
    → slug_of_lowered lowered ≡ some slug
    → (is_words true slug ≡ true) × (word_chars slug ≡ word_chars lowered)
unfolding slug_of_lowered
slug_of_lowered-is_words lowered slug e =
    let dashes = dashed false lowered in
    let facts = nonempty-some (right_stripped (left_stripped dashes)) slug e (
      right_stripped-words true (left_stripped dashes)
        (left_stripped-single false dashes (dashed-single false lowered))) in
    (
      facts.0,
      cc (
        facts.1,
        word_chars-right_stripped (left_stripped dashes),
        word_chars-left_stripped dashes,
        word_chars-dashed false lowered,
      ),
    )

nonempty-words : (t : Text) → is_words true t ≡ true → nonempty t ≡ some t
unfolding is_words
nonempty-words [] h = cc
nonempty-words (c ∷ cs) h = refl

dashed-begun : (t : Text) → is_words true t ≡ true → dashed false t ≡ t
unfolding dashed is_words
dashed-begun [] h = refl
dashed-begun (c ∷ cs) h = ground (arith, dashed-same (not (is_word c)) cs)

-- A text of that form is its own slug.
pub slug_of_lowered-same :
    (slug : Text) → is_words true slug ≡ true → slug_of_lowered slug ≡ some slug
unfolding slug_of_lowered
slug_of_lowered-same slug h =
    let same : dashed false slug ≡ slug = dashed-begun slug h in
    rw (same, left_stripped-same slug h, right_stripped-same true slug h) (nonempty-words slug h)
