-- ===== src/Tasks/Commands/Standalone.antt =====
-- The hook allows a `tk start` or `tk close` exactly where it stands alone, in
-- libs/tk_command_parsing/src/tk_command_parsing/parser.py and
-- scripts/claude_tk_standalone_check.py.
use forever_claude_template.Base.{
  ℕ, ◌≡◌, refl, sym, ap, ◌∙◌, Bool, true, false, not, ◌||◌, inl, inr, Option, none, some, List, [],
  ◌∷◌, ◌++◌, arith, length, ltb, append_assoc, Bool-cases, if◌then◌else◌, Text,
}
use forever_claude_template.Transcript.Lines.{strip}
use forever_claude_template.Transcript.Texts.{is_space}
use forever_claude_template.Tasks.Commands.{
  Tokenize, CommandSegment, is_punct, is_redirect, is_control, newlines_to_semicolons,
  after_assigns, base_name, is_tk, after_super, with_verb, classify_segment, split_segments,
  parse_command, Violation, any_lifecycle, violation_of, classify,
}

abbrev pub is_allowed : Option Violation → Bool
is_allowed none = true
is_allowed (some v) = false

abbrev pub any_punct : List Text → Bool
any_punct [] = false
any_punct (tok ∷ tokens) = is_punct tok || any_punct tokens

-- Whether the first command is redirected or is not the only one.
abbrev is_decorated : List CommandSegment → Bool
is_decorated [] = false
is_decorated (first ∷ rest) = first.has_redirect || ltb 0 (length rest)

with_verb_redirect :
    (words : List Text) (s : CommandSegment) → (with_verb words s).has_redirect ≡ s.has_redirect
with_verb_redirect [] s = refl
with_verb_redirect (w ∷ words) s = refl

with_verb_words : (words : List Text) (s : CommandSegment) → (with_verb words s).words ≡ s.words
with_verb_words [] s = refl
with_verb_words (w ∷ words) s = refl

module _ (is_word : ℕ → Bool) where
  -- What a segment keeps of what it is made from.
  classified :
      (words : List Text) (r : Bool)
      → ((classify_segment is_word words r).has_redirect ≡ r)
        × ((classify_segment is_word words r).words ≡ words)
  unfolding classify_segment
  classified words r = go (after_assigns is_word words) refl
    where
      plain : CommandSegment
      plain = record { words = words; has_redirect = r; tk_verb = none; tk_args = [] }

      go :
          (rest : List Text)
          → after_assigns is_word words ≡ rest
          → ((classify_segment is_word words r).has_redirect ≡ r)
            × ((classify_segment is_word words r).words ≡ words)
      go [] e = rw (classify_segment, e) (refl, refl)
      go (w ∷ rest) e = elim (Bool-cases (is_tk (base_name w))) [
        | inl tk ↦
            rw (classify_segment, e, tk)
              (
                with_verb_redirect (after_super rest) plain,
                with_verb_words (after_super rest) plain,
              )
        | inr other ↦ rw (classify_segment, e, other) (refl, refl)
      ]

  split_nonempty :
      (words : List Text) (r : Bool) (tokens : List Text)
      → ltb 0 (length (split_segments is_word words r tokens)) ≡ true
  unfolding split_segments
  split_nonempty words r [] = ground arith
  split_nonempty words r (tok ∷ tokens) = elim (Bool-cases (is_control tok)) [
    | inl c ↦ rw (split_segments, c) (ground arith)
    | inr w ↦ elim (Bool-cases (is_redirect tok)) [
      | inl red ↦ rw (split_segments, w, red) (split_nonempty words true tokens)
      | inr plain ↦ rw (split_segments, w, plain) (split_nonempty (words ++ tok ∷ []) r tokens)
    ]
  ]

  word_lem : (tok : Text) → is_control tok ≡ false → is_redirect tok ≡ false → is_punct tok ≡ false
  unfolding is_control
  word_lem tok c r = ground (arith, c, r)

  punct_lem : (tok : Text) → (is_control tok || is_redirect tok) ≡ true → is_punct tok ≡ true
  unfolding is_control is_redirect
  punct_lem tok h = ground (arith, h)

  split-is_decorated :
      (words : List Text) (r : Bool) (tokens : List Text)
      → is_decorated (split_segments is_word words r tokens) ≡ (r || any_punct tokens)
  unfolding split_segments
  split-is_decorated words r [] = ground (arith, (classified words r).0)
  split-is_decorated words r (tok ∷ tokens) = elim (Bool-cases (is_control tok)) [
    | inl c ↦
        let more = split_nonempty [] false tokens in
        let p = punct_lem tok (ground (arith, c)) in rw (split_segments, c, more, p) (ground arith)
    | inr w ↦ elim (Bool-cases (is_redirect tok)) [
      | inl red ↦
          let p = punct_lem tok (ground (arith, red)) in
          rw (split_segments, w, red, split-is_decorated words true tokens, p) (ground arith)
      | inr plain ↦
          let p = word_lem tok w plain in
          rw (split_segments, w, plain, split-is_decorated (words ++ tok ∷ []) r tokens, p) refl
    ]
  ]

violation_lem :
    (segments : List CommandSegment)
    → ltb 0 (length segments) ≡ true
    → is_allowed (violation_of segments)
      ≡ (not (any_lifecycle segments) || not (is_decorated segments))
unfolding violation_of any_lifecycle
violation_lem [] h = ground (arith, h)
violation_lem (first ∷ []) h = ground arith
violation_lem (first ∷ second ∷ rest) h = ground arith

-- Where the command can be cut into tokens, the hook allows it if and only if none of its commands is
-- a `tk start` or `tk close`, or none of its tokens is made of operator characters alone, whether or
-- not such a token was quoted in the command.
pub classify-is_allowed :
    (is_word : ℕ → Bool) (tokenize : Tokenize) (cmd : Text) (tokens : List Text)
    → tokenize (newlines_to_semicolons (strip is_space cmd)) ≡ some tokens
    → is_allowed (classify is_word tokenize cmd)
      ≡ (not (any_lifecycle (split_segments is_word [] false tokens)) || not (any_punct tokens))
unfolding classify parse_command
classify-is_allowed is_word tokenize cmd tokens h =
    let segments = split_segments is_word [] false tokens in
    let code : is_allowed (classify is_word tokenize cmd) ≡ is_allowed (violation_of segments) =
      rw (classify, parse_command, h) refl in
    code
    ∙ violation_lem segments (split_nonempty is_word [] false tokens)
    ∙ ap (λ b. not (any_lifecycle segments) || not b) (split-is_decorated is_word [] false tokens)

abbrev words_of : List CommandSegment → List Text
words_of [] = []
words_of (segment ∷ segments) = segment.words ++ words_of segments

abbrev word_tokens : List Text → List Text
word_tokens [] = []
word_tokens (tok ∷ tokens) =
    let rest = word_tokens tokens in if is_punct tok then rest else tok ∷ rest

split-words_of :
    (is_word : ℕ → Bool) (words : List Text) (r : Bool) (tokens : List Text)
    → words_of (split_segments is_word words r tokens) ≡ words ++ word_tokens tokens
unfolding split_segments
split-words_of is_word words r [] = ap (λ ws. ws ++ []) (classified is_word words r).1
split-words_of is_word words r (tok ∷ tokens) = elim (Bool-cases (is_control tok)) [
  | inl c ↦
      let p = punct_lem is_word tok (ground (arith, c)) in
      rw (split_segments, c, p, (classified is_word words r).1)
        (ap (λ ws. words ++ ws) (split-words_of is_word [] false tokens))
  | inr w ↦ elim (Bool-cases (is_redirect tok)) [
    | inl red ↦
        let p = punct_lem is_word tok (ground (arith, red)) in
        rw (split_segments, w, red, p) (split-words_of is_word words true tokens)
    | inr plain ↦
        let p = word_lem is_word tok w plain in
        rw (split_segments, w, plain, p)
          (split-words_of is_word (words ++ tok ∷ []) r tokens
            ∙ append_assoc words (tok ∷ []) (word_tokens tokens))
  ]
]

-- Where the command can be cut into tokens, the words of its commands, put together, are all tokens
-- that are no operators, in their order.
parse_command-words_of :
    (is_word : ℕ → Bool) (tokenize : Tokenize) (cmd : Text) (tokens : List Text)
    (segments : List CommandSegment)
    → tokenize (newlines_to_semicolons (strip is_space cmd)) ≡ some tokens
    → parse_command is_word tokenize cmd ≡ some segments
    → words_of segments ≡ word_tokens tokens
unfolding parse_command
parse_command-words_of is_word tokenize cmd tokens segments h e =
    let same : split_segments is_word [] false tokens ≡ segments = ground (arith, h, e) in
    ap words_of (sym same) ∙ split-words_of is_word [] false tokens
