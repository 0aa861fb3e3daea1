-- ===== src/Transcript/Lines.antt =====
-- `_is_complete_json_object`, `_split_at_last_complete_line` and `_iter_line_spans` of
-- apps/system_interface/imbue/system_interface/session_watcher.py. Bytes are numbers; whether
-- `json.loads` takes some bytes is an argument.
pub mod Reading
use forever_claude_template.Base.{
  ℕ, zero, suc, ◌+◌, Bool, true, false, ◌||◌, Option, none, some, List, [], ◌∷◌, length, ◌==◌,
  if◌then◌else◌,
}

abbrev pub Bytes : Type 0
Bytes = List ℕ

abbrev pub newline : ℕ
newline = 10

-- The white space of `bytes.strip`.
abbrev pub is_ascii_space : ℕ → Bool
is_ascii_space b = b == 32 || b == 9 || b == 10 || b == 11 || b == 12 || b == 13

unfoldable pub strip_left : (ℕ → Bool) → List ℕ → List ℕ
strip_left is_space [] = []
strip_left is_space (b ∷ bs) =
    let rest = strip_left is_space bs in if is_space b then rest else b ∷ bs

abbrev pub cons_unless_space : (ℕ → Bool) → ℕ → List ℕ → List ℕ
cons_unless_space is_space b [] = if is_space b then [] else b ∷ []
cons_unless_space is_space b (c ∷ bs) = b ∷ c ∷ bs

unfoldable pub strip_right : (ℕ → Bool) → List ℕ → List ℕ
strip_right is_space [] = []
strip_right is_space (b ∷ bs) = cons_unless_space is_space b (strip_right is_space bs)

unfoldable pub strip : (ℕ → Bool) → List ℕ → List ℕ
unfolding strip_left strip_right
strip is_space bs = strip_right is_space (strip_left is_space bs)

unfoldable pub is_complete_json_object : (Bytes → Bool) → Bytes → Bool
unfolding strip
is_complete_json_object loads fragment = elim (strip is_ascii_space fragment) [
  | [] ↦ false
  | b ∷ bs ↦ loads (b ∷ bs)
]

-- `data.endswith(b"\n")`
unfoldable pub ends_with_newline : Bytes → Bool
ends_with_newline [] = false
ends_with_newline (b ∷ []) = b == newline
ends_with_newline (b ∷ c ∷ bs) = ends_with_newline (c ∷ bs)

-- `data[: i + 1]` and `data[i + 1 :]` at `i = data.rfind(b"\n")`; none where that is -1.
unfoldable pub split_at_last_newline : Bytes → Option (Bytes × Bytes)
split_at_last_newline [] = none
split_at_last_newline (b ∷ bs) = elim (split_at_last_newline bs) [
  | some parts ↦ some (b ∷ parts.0, parts.1)
  | none ↦ if b == newline then some (b ∷ [], bs) else none
]

unfoldable pub split_at_last_complete_line : (Bytes → Bool) → Bytes → Bytes × Bytes
unfolding is_complete_json_object ends_with_newline split_at_last_newline
split_at_last_complete_line loads bytes =
    if ends_with_newline bytes then (bytes, []) else elim (split_at_last_newline bytes) [
      | none ↦ if is_complete_json_object loads bytes then (bytes, []) else ([], bytes)
      | some parts ↦ if is_complete_json_object loads parts.1 then (bytes, []) else parts
    ]

pub record Span : Type 0 where
  pub byte_offset : ℕ
  pub byte_len : ℕ
  pub line_bytes : Bytes

-- The line up to its newline, the newline included, and what comes after it.
unfoldable pub next_line : Bytes → Bytes × Bytes
next_line [] = ([], [])
next_line (b ∷ bs) =
    let rest = next_line bs in if b == newline then (b ∷ [], bs) else (b ∷ rest.0, rest.1)

unfoldable pub spans_loop : ℕ → Bytes → ℕ → List Span
unfolding next_line
spans_loop zero bytes offset = []
spans_loop (suc fuel) [] offset = []
spans_loop (suc fuel) (b ∷ bs) offset =
    let cut = next_line (b ∷ bs) in
    record { byte_offset = offset; byte_len = length cut.0; line_bytes = cut.0 }
    ∷ spans_loop fuel cut.1 (offset + length cut.0)

-- Each round takes a byte at least, so the number of bytes is fuel enough.
unfoldable pub iter_line_spans : Bytes → ℕ → List Span
unfolding spans_loop
iter_line_spans bytes base_offset = spans_loop (length bytes) bytes base_offset
