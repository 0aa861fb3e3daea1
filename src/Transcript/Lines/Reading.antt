-- ===== src/Transcript/Lines/Reading.antt =====
-- The lines of a session file can be read again, in
-- apps/system_interface/imbue/system_interface/session_watcher.py.
use forever_claude_template.Base.{
  ℕ, zero, suc, ◌+◌, ◌≡◌, ◌≤◌, refl, ap, ◌∙◌, sym, false, inl, inr, some, List, [], ◌∷◌, ◌++◌, Bool,
  arith, Bool-cases, Option-cases, length, take, drop, length-append, append_assoc, append_nil,
  take_append, drop_append, All, ◌==◌,
}
use forever_claude_template.Transcript.Lines.{
  Bytes, Span, newline, ends_with_newline, split_at_last_newline, split_at_last_complete_line,
  next_line, spans_loop, iter_line_spans, is_complete_json_object,
}

next_line-join : (bs : Bytes) → (next_line bs).0 ++ (next_line bs).1 ≡ bs
unfolding next_line
next_line-join [] = refl
next_line-join (b ∷ bs) = ground (arith, next_line-join bs)

next_line_len : (b : ℕ) (bs : Bytes) → suc (length (next_line (b ∷ bs)).1) ≤ length (b ∷ bs)
unfolding next_line
next_line_len b [] = ground arith
next_line_len b (c ∷ bs) = ground (arith, next_line_len c bs)

abbrev pub joined : List Span → Bytes
joined [] = []
joined (span ∷ spans) = span.line_bytes ++ joined spans

spans_loop-joined :
    (fuel : ℕ) (bs : Bytes) (offset : ℕ)
    → length bs ≤ fuel
    → joined (spans_loop fuel bs offset) ≡ bs
unfolding spans_loop
spans_loop-joined zero [] offset h = refl
spans_loop-joined zero (b ∷ bs) offset h = ground arith
spans_loop-joined (suc fuel) [] offset h = refl
spans_loop-joined (suc fuel) (b ∷ bs) offset h =
    let cut = next_line (b ∷ bs) in
    let rest =
      spans_loop-joined fuel cut.1 (offset + length cut.0) (omega (arith, h, next_line_len b bs)) in
    ap (λ xs. cut.0 ++ xs) rest ∙ next_line-join (b ∷ bs)

-- The line is what the file has at the span's place.
abbrev pub IsReadFrom : Bytes → Span → Type 0
IsReadFrom file span = take span.byte_len (drop span.byte_offset file) ≡ span.line_bytes

read_lem :
    (offset : ℕ) (file before line tail : Bytes)
    → file ≡ before ++ (line ++ tail)
    → length before ≡ offset
    → take (length line) (drop offset file) ≡ line
read_lem offset file before line tail e h =
    rw (e, ← h, drop_append before (line ++ tail)) (take_append line tail)

spans_loop-reads :
    (fuel : ℕ) (file before bs after : Bytes) (offset : ℕ)
    → file ≡ before ++ (bs ++ after)
    → length before ≡ offset
    → All (IsReadFrom file) (spans_loop fuel bs offset)
unfolding spans_loop
spans_loop-reads zero file before bs after offset e h = _
spans_loop-reads (suc fuel) file before [] after offset e h = _
spans_loop-reads (suc fuel) file before (b ∷ bs) after offset e h =
    let cut = next_line (b ∷ bs) in
    let regroup : (b ∷ bs) ++ after ≡ cut.0 ++ (cut.1 ++ after) =
      cc (next_line-join (b ∷ bs), append_assoc cut.0 cut.1 after) in
    let parts : file ≡ before ++ (cut.0 ++ (cut.1 ++ after)) = cc (e, regroup) in
    (
      read_lem offset file before cut.0 (cut.1 ++ after) parts h,
      spans_loop-reads fuel file (before ++ cut.0) cut.1 after (offset + length cut.0)
          (parts ∙ sym (append_assoc before cut.0 (cut.1 ++ after)))
          (omega (arith, h, length-append before cut.0)),
    )

-- A line has no newline but its last byte.
abbrev pub IsLine : Bytes → Type 0
IsLine [] = Unit
IsLine (b ∷ []) = Unit
IsLine (b ∷ c ∷ bs) = ((b == newline) ≡ false) × IsLine (c ∷ bs)

longer : (b : ℕ) (line : Bytes) → (b == newline) ≡ false → IsLine line → IsLine (b ∷ line)
longer b [] e h = _
longer b (c ∷ line) e h = (e, h)

next_line-IsLine : (bs : Bytes) → IsLine (next_line bs).0
unfolding next_line
next_line-IsLine [] = _
next_line-IsLine (b ∷ bs) = elim (Bool-cases (b == newline)) [
  | inl e ↦ rw e _
  | inr e ↦ rw e (longer b (next_line bs).0 e (next_line-IsLine bs))
]

spans_loop-IsLine :
    (fuel : ℕ) (bs : Bytes) (offset : ℕ)
    → All (λ span. IsLine span.line_bytes) (spans_loop fuel bs offset)
unfolding spans_loop
spans_loop-IsLine zero bs offset = _
spans_loop-IsLine (suc fuel) [] offset = _
spans_loop-IsLine (suc fuel) (b ∷ bs) offset =
    let cut = next_line (b ∷ bs) in
    (next_line-IsLine (b ∷ bs), spans_loop-IsLine fuel cut.1 (offset + length cut.0))

-- What the watcher takes of new bytes: whole lines, and the rest for the next poll.
pub record Reads (base_offset : ℕ) (before after bytes : Bytes) (spans : List Span) : Type 0 where
  pub joins : joined spans ≡ bytes
  pub lines : All (λ span. IsLine span.line_bytes) spans
  pub rereads : All (IsReadFrom (before ++ (bytes ++ after))) spans

-- The spans of some bytes that stand at `base_offset` in a file tile those bytes, in order and with
-- none left over, and whatever the file grows to, reading a span's length at its offset gives its line.
pub iter_line_spans-Reads :
    (base_offset : ℕ) (before bytes after : Bytes)
    → length before ≡ base_offset
    → Reads base_offset before after bytes (iter_line_spans bytes base_offset)
unfolding iter_line_spans
iter_line_spans-Reads base_offset before bytes after h = record {
  joins = spans_loop-joined (length bytes) bytes base_offset (omega arith);
  lines = spans_loop-IsLine (length bytes) bytes base_offset;
  rereads =
      spans_loop-reads (length bytes) (before ++ (bytes ++ after)) before bytes after base_offset
        refl h;
}

split_at_last_newline-join :
    (bs : Bytes) (parts : Bytes × Bytes)
    → split_at_last_newline bs ≡ some parts
    → parts.0 ++ parts.1 ≡ bs
unfolding split_at_last_newline
split_at_last_newline-join [] parts h = ground arith
split_at_last_newline-join (b ∷ bs) parts h = elim (Option-cases (split_at_last_newline bs)) [
  | inl e ↦ ground (arith, e, h)
  | inr (rest, e) ↦ let ih = split_at_last_newline-join bs rest e in ground (arith, e, h, ih)
]

-- What is taken and what is left make up the data.
pub split_at_last_complete_line-join :
    (loads : Bytes → Bool) (bs : Bytes)
    → (split_at_last_complete_line loads bs).0 ++ (split_at_last_complete_line loads bs).1 ≡ bs
unfolding split_at_last_complete_line
split_at_last_complete_line-join loads bs = elim (Bool-cases (ends_with_newline bs)) [
  | inl e ↦ rw e (append_nil bs)
  | inr e ↦ elim (Option-cases (split_at_last_newline bs)) [
    | inl o ↦ elim (Bool-cases (is_complete_json_object loads bs)) [
      | inl c ↦ rw (e, o, c) (append_nil bs)
      | inr c ↦ rw (e, o, c) (refl)
    ]
    | inr (parts, o) ↦ elim (Bool-cases (is_complete_json_object loads parts.1)) [
      | inl c ↦ rw (e, o, c) (append_nil bs)
      | inr c ↦ rw (e, o, c) (split_at_last_newline-join bs parts o)
    ]
  ]
]
