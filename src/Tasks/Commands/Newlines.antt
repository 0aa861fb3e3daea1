-- ===== src/Tasks/Commands/Newlines.antt =====
-- No newline separates commands after the scan, in
-- libs/tk_command_parsing/src/tk_command_parsing/parser.py.
use forever_claude_template.Base.{
  ℕ, ◌≡◌, refl, Bool, true, false, not, ◌&&◌, ◌||◌, Option, none, some, [], ◌∷◌, ◌++◌, arith, ◌==◌,
  if◌then◌else◌, Text,
}
use forever_claude_template.Tasks.Commands.{
  Scan, start_scan, is_quote, quoted, advance, scan_newlines, newlines_to_semicolons,
}

-- What a shell without comments goes through: the quote that is open, and whether the next character
-- is escaped.
abbrev next_quote : Option ℕ → Bool → ℕ → Option ℕ
next_quote quote true c = quote
next_quote (some q) false c =
    if not (q == 39) && c == 92 then some q else if q == c then none else some q
next_quote none false c = if c == 39 || c == 34 then some c else none

abbrev next_escaped : Option ℕ → Bool → ℕ → Bool
next_escaped quote true c = false
next_escaped quote false c = not (is_quote quote 39) && c == 92

-- Whether some newline stands outside quotes and is not escaped.
unfoldable pub has_bare_newline : Option ℕ → Bool → Text → Bool
has_bare_newline quote escaped [] = false
has_bare_newline quote escaped (c ∷ s) =
    (c == 10 && not (quoted quote) && not escaped)
    || has_bare_newline (next_quote quote escaped c) (next_escaped quote escaped c) s

abbrev scan_at : Option ℕ → Bool → Bool → Option ℕ → Scan
scan_at quote escaped in_comment prev = record {
  quote = quote;
  escaped = escaped;
  in_comment = in_comment;
  prev = prev;
}

-- A comment begins only outside quotes.
abbrev IsOutside : Scan → Type 0
IsOutside s = (if s.in_comment then not (quoted s.quote) && not s.escaped else true) ≡ true

advance-IsOutside :
    (quote : Option ℕ) (escaped in_comment : Bool) (prev : Option ℕ) (ch : ℕ)
    → IsOutside (scan_at quote escaped in_comment prev)
    → IsOutside (advance (scan_at quote escaped in_comment prev) ch).0
unfolding advance
advance-IsOutside none escaped in_comment prev ch h = ground (arith, h)
advance-IsOutside (some q) escaped in_comment prev ch h = ground (arith, h)

advance_lem :
    (quote : Option ℕ) (escaped in_comment : Bool) (prev : Option ℕ) (ch : ℕ) (rest : Text)
    → IsOutside (scan_at quote escaped in_comment prev)
    → has_bare_newline
        (advance (scan_at quote escaped in_comment prev) ch).0.quote
        (advance (scan_at quote escaped in_comment prev) ch).0.escaped
        rest
      ≡ false
    → has_bare_newline quote escaped
        ((advance (scan_at quote escaped in_comment prev) ch).1 ++ rest)
      ≡ false
unfolding advance has_bare_newline
advance_lem none true true prev ch rest h e = ground (arith, h)
advance_lem none true false prev ch rest h e = ground (arith, e)
advance_lem none false true prev ch rest h e = ground (arith, e)
advance_lem none false false prev ch rest h e = ground (arith, e)
advance_lem (some q) escaped true prev ch rest h e = ground (arith, h)
advance_lem (some q) true false prev ch rest h e = ground (arith, e)
advance_lem (some q) false false prev ch rest h e = ground (arith, e)

scan_lem :
    (s : Scan) (cmd : Text)
    → IsOutside s
    → has_bare_newline s.quote s.escaped (scan_newlines s cmd) ≡ false
unfolding scan_newlines has_bare_newline
scan_lem s [] h = refl
scan_lem s (ch ∷ cmd) h =
    advance_lem s.quote s.escaped s.in_comment s.prev ch (scan_newlines (advance s ch).0 cmd) h
      (scan_lem (advance s ch).0 cmd (advance-IsOutside s.quote s.escaped s.in_comment s.prev ch h))

-- Whatever the command, no newline of the text given to the lexer stands outside quotes without a
-- backslash before it, as a shell that knows no comments reads it.
pub newlines_to_semicolons-has_bare_newline :
    (cmd : Text) → has_bare_newline none false (newlines_to_semicolons cmd) ≡ false
unfolding newlines_to_semicolons
newlines_to_semicolons-has_bare_newline cmd = scan_lem start_scan cmd refl
