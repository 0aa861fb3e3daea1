-- ===== src/Transcript/Texts.antt =====
-- The texts of apps/system_interface/imbue/system_interface/session_parser.py: slash commands, the id
-- of a subagent, and the truncation of tool output. The regular expressions are written out.
use forever_claude_template.Base.{
  codes, ℕ, zero, suc, ◌+◌, ◌-◌, Bool, ◌&&◌, ◌||◌, Option, none, some, List, [], ◌∷◌, ◌++◌, take,
  length, leb, ltb, ◌==◌, if◌then◌else◌, Text,
}
use forever_claude_template.Transcript.Lines.{strip}

-- `str.isspace`, which is also `\s`
abbrev pub is_space : ℕ → Bool
is_space c =
    (leb 9 c && leb c 13)
    || (leb 28 c && leb c 32)
    || c == 133
    || c == 160
    || c == 5760
    || (leb 8192 c && leb c 8202)
    || c == 8232
    || c == 8233
    || c == 8239
    || c == 8287
    || c == 12288

-- What follows a prefix.
unfoldable pub after_prefix : Text → Text → Option Text
after_prefix [] s = some s
after_prefix (p ∷ ps) [] = none
after_prefix (p ∷ ps) (c ∷ s) = let rest = after_prefix ps s in if p == c then rest else none

abbrev pub cons_before : ℕ → Option (Text × Text) → Option (Text × Text)
cons_before c none = none
cons_before c (some parts) = some (c ∷ parts.0, parts.1)

-- The text before the first occurrence, and the text after it.
unfoldable pub split_at_first : Text → Text → Option (Text × Text)
unfolding after_prefix
split_at_first needle [] = elim (after_prefix needle []) [
  | none ↦ none
  | some rest ↦ some ([], rest)
]
split_at_first needle (c ∷ s) = elim (after_prefix needle (c ∷ s)) [
  | some rest ↦ some ([], rest)
  | none ↦ cons_before c (split_at_first needle s)
]

-- Group 1 of `opening(.*?)closing`, searched from the start.
unfoldable pub between : Text → Text → Text → Option Text
unfolding split_at_first
between opening closing s = elim (split_at_first opening s) [
  | none ↦ none
  | some parts ↦ elim (split_at_first closing parts.1) [ none ↦ none | some inner ↦ some inner.0 ]
]

abbrev pub text_or_empty : Option Text → Text
text_or_empty none = []
text_or_empty (some t) = t

unfoldable pub normalize_slash_command : Text → Text
unfolding between strip
normalize_slash_command s = elim (between (codes "<command-name>") (codes "</command-name>") s) [
  | none ↦ s
  | some name ↦ elim (strip is_space name) [
    | [] ↦ s
    | c ∷ command ↦
        let args =
          strip is_space
            (text_or_empty (between (codes "<command-args>") (codes "</command-args>") s)) in
        strip is_space ((c ∷ command) ++ codes " " ++ args)
  ]
]

-- The longest start without white space.
unfoldable pub word : Text → Text
word [] = []
word (c ∷ s) = let rest = word s in if is_space c then [] else c ∷ rest

unfoldable pub after_spaces : Text → Text
after_spaces [] = []
after_spaces (c ∷ s) = let rest = after_spaces s in if is_space c then rest else c ∷ s

abbrev pub some_word : Text → Option Text
some_word [] = none
some_word (c ∷ s) = some (c ∷ s)

-- `agentId:\s*(\S+)`, searched from the start
unfoldable pub find_agent_id : Text → Option Text
unfolding after_prefix word after_spaces
find_agent_id [] = none
find_agent_id (c ∷ s) =
    let later = find_agent_id s in
    elim (after_prefix (codes "agentId:") (c ∷ s)) [
      | none ↦ later
      | some rest ↦ elim (word (after_spaces rest)) [ [] ↦ later | d ∷ w ↦ some (d ∷ w) ]
    ]

unfoldable pub extract_subagent_id : Option Text → Text → Option Text
unfolding find_agent_id
extract_subagent_id (some (c ∷ structured)) result_content = some (c ∷ structured)
extract_subagent_id _ result_content = find_agent_id result_content

-- The first of some texts that the given one starts with.
unfoldable pub first_prefix : List Text → Text → Option Text
unfolding after_prefix
first_prefix [] s = none
first_prefix (p ∷ ps) s =
    let later = first_prefix ps s in elim (after_prefix p s) [ none ↦ later | some rest ↦ some p ]

-- `.*`
unfoldable pub rest_of_line : Text → Text
rest_of_line [] = []
rest_of_line (c ∷ s) = let rest = rest_of_line s in if c == 10 then [] else c ∷ rest

-- A keyword, a word, and what comes after both.
unfoldable pub keyword_word : Text → Text → Option (Text × Text)
unfolding after_prefix word
keyword_word keyword s = elim (after_prefix keyword s) [
  | none ↦ none
  | some rest ↦ elim (word rest) [
    | [] ↦ none
    | c ∷ w ↦ elim (after_prefix (c ∷ w) rest) [
      | none ↦ none
      | some tail ↦ some (keyword ++ (c ∷ w), tail)
    ]
  ]
]

-- `Updated \S+ -> (?:open|in_progress|closed)`
unfoldable pub match_updated : Text → Option Text
unfolding keyword_word first_prefix
match_updated s = elim (keyword_word (codes "Updated ") s) [
  | none ↦ none
  | some parts ↦
      elim (first_prefix (codes " -> open" ∷ codes " -> in_progress" ∷ codes " -> closed" ∷ [])
        parts.1) [ none ↦ none | some status ↦ some (parts.0 ++ status) ]
]

-- `tk-step \S+ (?:title|summary): .*`
unfoldable pub match_step : Text → Option Text
unfolding keyword_word first_prefix after_prefix rest_of_line
match_step s = elim (keyword_word (codes "tk-step ") s) [
  | none ↦ none
  | some parts ↦ elim (first_prefix (codes " title: " ∷ codes " summary: " ∷ []) parts.1) [
    | none ↦ none
    | some label ↦ elim (after_prefix label parts.1) [
      | none ↦ none
      | some rest ↦ some (parts.0 ++ label ++ rest_of_line rest)
    ]
  ]
]

unfoldable pub match_decoration : Text → Option Text
unfolding match_updated match_step
match_decoration s = elim (match_updated s) [ some m ↦ some m | none ↦ match_step s ]

abbrev pub max_output_length : ℕ
max_output_length = 2000

-- The decorations that end after the limit. `skip` counts the characters of a match still to pass,
-- and `pos` those passed.
unfoldable pub decorations_after : ℕ → ℕ → Text → List Text
unfolding match_decoration
decorations_after skip pos [] = []
decorations_after (suc skip) pos (c ∷ s) = decorations_after skip (suc pos) s
decorations_after zero pos (c ∷ s) = elim (match_decoration (c ∷ s)) [
  | none ↦ decorations_after zero (suc pos) s
  | some m ↦
      let later = decorations_after (length m - 1) (suc pos) s in
      if ltb max_output_length (pos + length m) then m ∷ later else later
]

-- `separator.join(parts)`
unfoldable pub join : Text → List Text → Text
join separator [] = []
join separator (part ∷ []) = part
join separator (part ∷ next ∷ parts) = part ++ separator ++ join separator (next ∷ parts)

abbrev pub with_preserved : Text → List Text → Text
with_preserved head [] = head ++ codes "..."
with_preserved head (m ∷ ms) = head ++ codes "...\n" ++ join (codes "\n") (m ∷ ms)

unfoldable pub truncate_tool_output : Text → Text
unfolding decorations_after join
truncate_tool_output content =
    if leb (length content) max_output_length
    then content
    else with_preserved (take max_output_length content) (decorations_after zero zero content)
