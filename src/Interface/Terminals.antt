-- ===== src/Interface/Terminals.antt =====
-- The user terminals of apps/system_interface/imbue/system_interface/layout_ops.py. `decimal` is
-- Python's text of a number.
pub mod Allocation
use forever_claude_template.Base.{
  ℕ, suc, ◌+◌, ◌≤◌, ◌<◌, ◌≡◌, refl, inl, inr, Bool, true, false, ◌&&◌, ◌||◌, not, Bool-cases,
  Option, none, some, List, [], ◌∷◌, ◌++◌, arith, length, ◌==◌, if◌then◌else◌, Text, text_beq,
  text_beq_iff, code_eq, in_names, first_free, first_free-total, first_free-least, IsInjective,
}

-- "terminal-"
abbrev pub terminal_name_prefix : Text
terminal_name_prefix = b't' ∷ b'e' ∷ b'r' ∷ b'm' ∷ b'i' ∷ b'n' ∷ b'a' ∷ b'l' ∷ b'-' ∷ []

pub record TerminalSessionInfo : Type 0 where
  pub session_name : Text
  pub session_id : Text
  pub cwd : Text

-- `text.startswith(prefix)`
unfoldable pub starts_with : Text → Text → Bool
starts_with text [] = true
starts_with [] (d ∷ prefix) = false
starts_with (c ∷ text) (d ∷ prefix) = c == d && starts_with text prefix

abbrev pub is_nonempty : Text → Bool
is_nonempty [] = false
is_nonempty (c ∷ text) = true

unfoldable pub is_agent_session : Text → Text → Bool
unfolding starts_with
is_agent_session session_name prefix = is_nonempty prefix && starts_with session_name prefix

unfoldable pub filter_user_terminal_sessions :
    List TerminalSessionInfo → Text → List TerminalSessionInfo
unfolding is_agent_session
filter_user_terminal_sessions [] prefix = []
filter_user_terminal_sessions (session ∷ sessions) prefix =
    let rest = filter_user_terminal_sessions sessions prefix in
    if is_agent_session session.session_name prefix then rest else session ∷ rest

unfoldable pub is_destroyable_terminal_session : Text → Text → Bool
unfolding is_agent_session
is_destroyable_terminal_session session_name prefix =
    is_nonempty session_name && not (is_agent_session session_name prefix)

-- The loop runs for at most one round more than there are names.
module _ (decimal : ℕ → Text) where
  unfoldable pub terminal_name : ℕ → Text
  terminal_name index = terminal_name_prefix ++ decimal index

  unfoldable pub allocate_next_terminal_name : List Text → Option Text
  unfolding terminal_name first_free
  allocate_next_terminal_name existing_names =
      elim (first_free terminal_name (suc (length existing_names)) 1 existing_names) [
        | none ↦ none
        | some index ↦ some (terminal_name index)
      ]
