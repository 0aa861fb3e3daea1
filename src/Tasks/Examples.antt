-- ===== src/Tasks/Examples.antt =====
-- Concrete commands of the task tracker.
use forever_claude_template.Base.{
  ◌≡◌, refl, true, false, not, ◌||◌, none, some, List, [], ◌∷◌, Text, text_beq, codes,
}
use forever_claude_template.Tasks.Commands.{
  Tokenize, newlines_to_semicolons, split_segments, classify, flag_values, any_lifecycle,
}
use forever_claude_template.Tasks.Commands.Newlines.{
  has_bare_newline, newlines_to_semicolons-has_bare_newline,
}
use forever_claude_template.Tasks.Commands.Standalone.{is_allowed, any_punct, classify-is_allowed}

separated :
    newlines_to_semicolons (codes "tk a # note\ntk b \"x\ny\"") ≡ codes "tk a ;tk b \"x\ny\""
unfolding newlines_to_semicolons
separated = refl

two_forms :
    flag_values (codes "--step") (codes "--step" ∷ codes "a" ∷ codes "--step=b" ∷ [])
    ≡ codes "a" ∷ codes "b" ∷ []
unfolding flag_values text_beq
two_forms = refl

-- The tokens of `A=1 tk close s1 > out`.
abbrev redirected : List Text
redirected = codes "A=1" ∷ codes "tk" ∷ codes "close" ∷ codes "s1" ∷ codes ">" ∷ codes "out" ∷ []

abbrev fixed_tokens : Tokenize
fixed_tokens cmd = some redirected

blocked : is_allowed (classify (λ c. true) fixed_tokens []) ≡ false
unfolding classify split_segments text_beq
blocked = refl

newlines_to_semicolons-has_bare_newline_example :
    has_bare_newline none false (newlines_to_semicolons (codes "a\nb")) ≡ false
newlines_to_semicolons-has_bare_newline_example =
    newlines_to_semicolons-has_bare_newline (codes "a\nb")

classify-is_allowed_example :
    is_allowed (classify (λ c. true) fixed_tokens (codes "A=1 tk close s1 > out")) ≡ (
      not (any_lifecycle (split_segments (λ c. true) [] false redirected))
      || not (any_punct redirected))
classify-is_allowed_example =
    classify-is_allowed (λ c. true) fixed_tokens (codes "A=1 tk close s1 > out") redirected refl
