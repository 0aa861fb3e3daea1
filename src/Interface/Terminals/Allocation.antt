-- ===== src/Interface/Terminals/Allocation.antt =====
-- The name that a new terminal gets: apps/system_interface/imbue/system_interface/layout_ops.py.
use forever_claude_template.Base.{
  ℕ, suc, ◌≤◌, ◌<◌, ◌≡◌, inl, inr, true, false, Bool-cases, some, List, [], ◌∷◌, ◌++◌, arith,
  length, All, Text, text_beq_iff, code_eq, in_names, first_free-total, first_free-least,
  IsInjective,
}
use forever_claude_template.Interface.Terminals.{
  TerminalSessionInfo, is_nonempty, is_agent_session, filter_user_terminal_sessions,
  is_destroyable_terminal_session, terminal_name_prefix, terminal_name, allocate_next_terminal_name,
}

append-cancel : (p s t : Text) → p ++ s ≡ p ++ t → s ≡ t
append-cancel [] s t h = h
append-cancel (c ∷ p) s t h = append-cancel p s t (ground (arith, h))

terminal_name-IsInjective :
    (decimal : ℕ → Text)
    → ((i j : ℕ) → decimal i ≡ decimal j → i ≡ j)
    → IsInjective (terminal_name decimal)
unfolding terminal_name
terminal_name-IsInjective decimal h i j e = h i j (
    append-cancel terminal_name_prefix (decimal i) (decimal j)
      ((text_beq_iff (terminal_name decimal i) (terminal_name decimal j)).0 e))

-- Where different numbers are written differently, the loop ends within the rounds allowed, and the
-- name that it returns is not in use and has the smallest number from 1 on with that property.
pub allocate_next_terminal_name-least :
    (decimal : ℕ → Text) (existing_names : List Text)
    → ((i j : ℕ) → decimal i ≡ decimal j → i ≡ j)
    → (index : ℕ) × (allocate_next_terminal_name decimal existing_names
        ≡ some (terminal_name decimal index))
      × (1 ≤ index)
      × (in_names (terminal_name decimal index) existing_names ≡ false)
      × ((j : ℕ) → 1 ≤ j → j < index → in_names (terminal_name decimal j) existing_names ≡ true)
unfolding allocate_next_terminal_name
allocate_next_terminal_name-least decimal existing_names h =
    let name = terminal_name decimal in
    let fuel = suc (length existing_names) in
    let ends =
      first_free-total name fuel 1 existing_names (terminal_name-IsInjective decimal h)
        (omega arith) in
    let least = first_free-least name fuel 1 ends.0 existing_names ends.1 in
    (ends.0, ground (arith, ends.1), least.0, least.1, least.2)

-- Every session that is listed as a user terminal is no agent's, and it can be destroyed exactly
-- where it has a name.
pub filter_user_terminal_sessions-destroyable :
    (prefix : Text) (sessions : List TerminalSessionInfo)
    → All
        (λ (session : TerminalSessionInfo).
          (is_destroyable_terminal_session session.session_name prefix
            ≡ is_nonempty session.session_name)
          × (is_agent_session session.session_name prefix ≡ false))
        (filter_user_terminal_sessions sessions prefix)
unfolding filter_user_terminal_sessions is_destroyable_terminal_session
filter_user_terminal_sessions-destroyable prefix [] = tt
filter_user_terminal_sessions-destroyable prefix (session ∷ sessions) =
    elim (Bool-cases (is_agent_session session.session_name prefix)) [
      | inl b ↦ rw b (filter_user_terminal_sessions-destroyable prefix sessions)
      | inr b ↦
          rw b ((ground (arith, b), b), filter_user_terminal_sessions-destroyable prefix sessions)
    ]
