-- ===== src/Tasks/Commands.antt =====
-- libs/tk_command_parsing/src/tk_command_parsing/parser.py and scripts/claude_tk_standalone_check.py.
-- The lexer `shlex` is an argument, none for its ValueError, and so is `\w` of regular expressions.
pub mod Newlines
pub mod Standalone
use forever_claude_template.Base.{
  ℕ, zero, suc, Bool, true, false, not, ◌&&◌, ◌||◌, Option, none, some, List, [], ◌∷◌, ◌++◌, length,
  ltb, leb, ◌==◌, if◌then◌else◌, Text, text_beq, codes,
}
use forever_claude_template.Transcript.Lines.{strip}
use forever_claude_template.Transcript.Texts.{is_space, after_prefix}

abbrev pub Tokenize : Type 0
Tokenize = Text → Option (List Text)

pub record CommandSegment : Type 0 where
  pub words : List Text
  pub has_redirect : Bool
  pub tk_verb : Option Text
  pub tk_args : List Text

unfoldable pub mem_char : ℕ → Text → Bool
mem_char c [] = false
mem_char c (d ∷ s) = d == c || mem_char c s

-- The characters of the operators.
abbrev pub punct : Text
punct = codes "();<>|&"

unfoldable pub all_punct : Text → Bool
unfolding mem_char
all_punct [] = true
all_punct (c ∷ s) = mem_char c punct && all_punct s

unfoldable pub is_punct : Text → Bool
unfolding all_punct
is_punct [] = false
is_punct (c ∷ s) = all_punct (c ∷ s)

unfoldable pub is_redirect : Text → Bool
unfolding is_punct mem_char
is_redirect tok = is_punct tok && (mem_char 60 tok || mem_char 62 tok)

unfoldable pub is_control : Text → Bool
unfolding is_punct is_redirect
is_control tok = is_punct tok && not (is_redirect tok)

-- What the scan for newlines knows.
pub record Scan : Type 0 where
  pub quote : Option ℕ
  pub escaped : Bool
  pub in_comment : Bool
  pub prev : Option ℕ

abbrev pub start_scan : Scan
start_scan = record { quote = none; escaped = false; in_comment = false; prev = none }

abbrev pub is_quote : Option ℕ → ℕ → Bool
is_quote none c = false
is_quote (some q) c = q == c

-- Whether a `#` here begins a comment.
abbrev pub begins_word : Option ℕ → Bool
begins_word none = true
begins_word (some c) = c == 32 || c == 9 || c == 10 || mem_char c punct

abbrev pub quoted : Option ℕ → Bool
quoted none = false
quoted (some q) = true

-- One round of the scan: its state afterwards, and what it appends.
unfoldable pub advance : Scan → ℕ → Scan × Text
unfolding mem_char
advance s ch =
    if s.in_comment
    then (if ch == 10 then (record s { in_comment = false; prev = some 10 }, 59 ∷ []) else (s, []))
    else if s.escaped
    then (record s { escaped = false; prev = some ch }, ch ∷ [])
    else if not (is_quote s.quote 39) && ch == 92
    then (record s { escaped = true; prev = some ch }, ch ∷ [])
    else if quoted s.quote
    then (
      record s { quote = if is_quote s.quote ch then none else s.quote; prev = some ch },
      ch ∷ [],
    )
    else if ch == 39 || ch == 34
    then (record s { quote = some ch; prev = some ch }, ch ∷ [])
    else if ch == 35 && begins_word s.prev
    then (record s { in_comment = true }, [])
    else (record s { prev = some ch }, (if ch == 10 then 59 else ch) ∷ [])

unfoldable pub scan_newlines : Scan → Text → Text
unfolding advance
scan_newlines s [] = []
scan_newlines s (ch ∷ cmd) = (advance s ch).1 ++ scan_newlines (advance s ch).0 cmd

unfoldable pub newlines_to_semicolons : Text → Text
unfolding scan_newlines
newlines_to_semicolons cmd = scan_newlines start_scan cmd

abbrev pub is_name_start : ℕ → Bool
is_name_start c = (leb 65 c && leb c 90) || (leb 97 c && leb c 122) || c == 95

-- `\w*=`
unfoldable pub word_then_equals : (ℕ → Bool) → Text → Bool
word_then_equals is_word [] = false
word_then_equals is_word (c ∷ s) = c == 61 || (is_word c && word_then_equals is_word s)

-- `^[A-Za-z_]\w*=`
unfoldable pub is_env_assign : (ℕ → Bool) → Text → Bool
unfolding word_then_equals
is_env_assign is_word [] = false
is_env_assign is_word (c ∷ s) = is_name_start c && word_then_equals is_word s

unfoldable pub after_assigns : (ℕ → Bool) → List Text → List Text
unfolding is_env_assign
after_assigns is_word [] = []
after_assigns is_word (w ∷ words) =
    let rest = after_assigns is_word words in if is_env_assign is_word w then rest else w ∷ words

-- `word.rsplit("/", 1)[-1]`
unfoldable pub base_name : Text → Text
unfolding mem_char
base_name [] = []
base_name (c ∷ s) =
    let rest = base_name s in if mem_char 47 s then rest else if c == 47 then s else c ∷ s

abbrev pub is_tk : Text → Bool
is_tk base = text_beq base (codes "tk") || text_beq base (codes "ticket")

abbrev pub after_super : List Text → List Text
after_super [] = []
after_super (w ∷ words) = if text_beq w (codes "super") then words else w ∷ words

abbrev pub with_verb : List Text → CommandSegment → CommandSegment
with_verb [] segment = segment
with_verb (verb ∷ args) segment = record segment { tk_verb = some verb; tk_args = args }

unfoldable pub classify_segment : (ℕ → Bool) → List Text → Bool → CommandSegment
unfolding after_assigns base_name
classify_segment is_word words has_redirect =
    let plain : CommandSegment = record {
      words = words;
      has_redirect = has_redirect;
      tk_verb = none;
      tk_args = [];
    } in
    elim (after_assigns is_word words) [
      | [] ↦ plain
      | w ∷ rest ↦ if is_tk (base_name w) then with_verb (after_super rest) plain else plain
    ]

unfoldable pub split_segments : (ℕ → Bool) → List Text → Bool → List Text → List CommandSegment
unfolding classify_segment is_control is_redirect
split_segments is_word words has_redirect [] = classify_segment is_word words has_redirect ∷ []
split_segments is_word words has_redirect (tok ∷ tokens) =
    let after_control = split_segments is_word [] false tokens in
    let after_redirect = split_segments is_word words true tokens in
    let after_word = split_segments is_word (words ++ tok ∷ []) has_redirect tokens in
    if is_control tok
    then classify_segment is_word words has_redirect ∷ after_control
    else if is_redirect tok
    then after_redirect
    else after_word

unfoldable pub parse_command : (ℕ → Bool) → Tokenize → Text → Option (List CommandSegment)
unfolding newlines_to_semicolons split_segments strip
parse_command is_word tokenize command =
    elim (tokenize (newlines_to_semicolons (strip is_space command))) [
      | none ↦ none
      | some tokens ↦ some (split_segments is_word [] false tokens)
    ]

unfoldable pub joined_value : Text → Text → List Text
unfolding after_prefix
joined_value prefix tok = elim (after_prefix prefix tok) [ none ↦ [] | some value ↦ value ∷ [] ]

unfoldable pub flag_values : Text → List Text → List Text
unfolding joined_value
flag_values flag [] = []
flag_values flag (tok ∷ []) = if text_beq tok flag then [] else joined_value (flag ++ codes "=") tok
flag_values flag (tok ∷ next ∷ args) =
    let after_value = flag_values flag args in
    let later = flag_values flag (next ∷ args) in
    if text_beq tok flag then next ∷ after_value else joined_value (flag ++ codes "=") tok ++ later

unfoldable pub contains_text : Text → Text → Bool
unfolding after_prefix
contains_text needle [] = elim (after_prefix needle []) [ none ↦ false | some rest ↦ true ]
contains_text needle (c ∷ s) =
    let later = contains_text needle s in
    elim (after_prefix needle (c ∷ s)) [ none ↦ later | some rest ↦ true ]

abbrev pub verb_is : Text → Option Text → Bool
verb_is verb none = false
verb_is verb (some v) = text_beq v verb

unfoldable pub create_titles : List CommandSegment → List Text
unfolding flag_values
create_titles [] = []
create_titles (segment ∷ segments) =
    let rest = create_titles segments in
    if verb_is (codes "create") segment.tk_verb
    then flag_values (codes "--step") segment.tk_args ++ rest
    else rest

unfoldable pub extract_create_titles : (ℕ → Bool) → Tokenize → Text → List Text
unfolding contains_text parse_command create_titles
extract_create_titles is_word tokenize command =
    if contains_text (codes "--step") command
    then elim (parse_command is_word tokenize command) [
      | none ↦ []
      | some segments ↦ create_titles segments
    ]
    else []

-- The reasons of `classify` in the hook.
pub data Violation : Type 0 where
  before redirect chain : Violation

abbrev pub is_lifecycle : Option Text → Bool
is_lifecycle verb = verb_is (codes "start") verb || verb_is (codes "close") verb

unfoldable pub any_lifecycle : List CommandSegment → Bool
any_lifecycle [] = false
any_lifecycle (segment ∷ segments) = is_lifecycle segment.tk_verb || any_lifecycle segments

unfoldable pub violation_of : List CommandSegment → Option Violation
unfolding any_lifecycle
violation_of [] = none
violation_of (first ∷ rest) =
    if not (any_lifecycle (first ∷ rest))
    then none
    else if not (is_lifecycle first.tk_verb)
    then some before
    else if first.has_redirect
    then some redirect
    else if ltb 0 (length rest)
    then some chain
    else none

-- `classify` of the hook
unfoldable pub classify : (ℕ → Bool) → Tokenize → Text → Option Violation
unfolding parse_command violation_of
classify is_word tokenize cmd = elim (parse_command is_word tokenize cmd) [
  | none ↦ none
  | some segments ↦ violation_of segments
]
