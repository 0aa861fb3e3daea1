-- ===== src/Browser/Fleet/Capacity.antt =====
-- The cap on the fleet and its names: libs/browser/src/browser/session.py.
use forever_claude_template.Base.{
  ℕ, ◌≤◌, ◌≡◌, inl, inr, false, Bool-cases, Option-cases, Option, none, some, List, [], ◌∷◌, arith,
  leb, ◌==◌, get, has, get-remove, has-remove, Text, text_beq_iff, code_eq,
}
use forever_claude_template.Browser.Control.{running, crashed}
use forever_claude_template.Browser.Fleet.{
  Member, Fleet, empty, live_count, fresh_name, registered_fresh, create, restore_one,
  begins_launch, launch_up, launch_failed, close, crash,
}
use forever_claude_template.Browser.Fleet.Naming.{
  live_count-put, live_count-remove, register_init-Registered, fresh_name-unused,
}

pub data Event : Type 0 where
  creates : Option Text → Event
  restores : Text → Event
  comes_up : ℕ → Text → Event
  fails : ℕ → Text → Event
  closes : Text → Event
  crashes : Text → Event

unfoldable pub step : ℕ → (ℕ → Text) → (ℕ → Text) → Event → Fleet → Fleet
unfolding create restore_one launch_up launch_failed close crash
step n draws decimal (creates wanted) s = (create n draws decimal wanted s).0
step n draws decimal (restores name) s = (restore_one n name s).0
step n draws decimal (comes_up session name) s = launch_up session name s
step n draws decimal (fails session name) s = launch_failed session name s
step n draws decimal (closes name) s = close name s
step n draws decimal (crashes name) s = crash name s

unfoldable pub run : ℕ → (ℕ → Text) → (ℕ → Text) → List Event → Fleet → Fleet
unfolding step
run n draws decimal [] s = s
run n draws decimal (event ∷ events) s = run n draws decimal events (step n draws decimal event s)

registered_fresh-capped :
    (n : ℕ) (draws decimal : ℕ → Text) (s : Fleet)
    → leb n (live_count s.browsers) ≡ false
    → live_count (registered_fresh (fresh_name draws decimal s.browsers) s).0.browsers ≤ n
registered_fresh-capped n draws decimal s l =
    elim (Option-cases (fresh_name draws decimal s.browsers)) [
      | inl e ↦ rw e (ground arith)
      | inr (name, e) ↦
          rw e
            (register_init-Registered n name s l
              (fresh_name-unused draws decimal s.browsers name e)).capped
    ]

create-capped :
    (n : ℕ) (draws decimal : ℕ → Text) (wanted : Option Text) (s : Fleet)
    → live_count s.browsers ≤ n
    → live_count (create n draws decimal wanted s).0.browsers ≤ n
unfolding create
create-capped n draws decimal none s h = elim (Bool-cases (leb n (live_count s.browsers))) [
  | inl l ↦ rw l h
  | inr l ↦ rw l (registered_fresh-capped n draws decimal s l)
]
create-capped n draws decimal (some name) s h = elim (Bool-cases (leb n (live_count s.browsers))) [
  | inl l ↦ rw l h
  | inr l ↦ elim (Bool-cases (has s.browsers name)) [
    | inl d ↦ ground (arith, l, d)
    | inr d ↦ let new = (register_init-Registered n name s l d).capped in ground (arith, l, d, new)
  ]
]

restore_one-capped :
    (n : ℕ) (name : Text) (s : Fleet)
    → live_count s.browsers ≤ n
    → live_count (restore_one n name s).0.browsers ≤ n
unfolding restore_one
restore_one-capped n name s h = elim (Bool-cases (leb n (live_count s.browsers))) [
  | inl l ↦ ground (arith, l)
  | inr l ↦ elim (Bool-cases (has s.browsers name)) [
    | inl d ↦ ground (arith, d)
    | inr d ↦ let new = (register_init-Registered n name s l d).capped in ground (arith, l, d, new)
  ]
]

launch_up-capped :
    (session : ℕ) (name : Text) (s : Fleet)
    → live_count (launch_up session name s).browsers ≤ live_count s.browsers
unfolding launch_up
launch_up-capped session name s = elim (Option-cases (get s.browsers name)) [
  | inl e ↦ ground (arith, e)
  | inr (m, e) ↦
      ground (arith, e, live_count-put s.browsers name (record m { lifecycle = running }))
]

crash-capped :
    (name : Text) (s : Fleet) → live_count (crash name s).browsers ≤ live_count s.browsers
unfolding crash
crash-capped name s = elim (Option-cases (get s.browsers name)) [
  | inl e ↦ ground (arith, e)
  | inr (m, e) ↦
      ground (arith, e, live_count-put s.browsers name (record m { lifecycle = crashed }))
]

step-capped :
    (n : ℕ) (draws decimal : ℕ → Text) (event : Event) (s : Fleet)
    → live_count s.browsers ≤ n
    → live_count (step n draws decimal event s).browsers ≤ n
unfolding step launch_failed close
step-capped n draws decimal (creates wanted) s h = create-capped n draws decimal wanted s h
step-capped n draws decimal (restores name) s h = restore_one-capped n name s h
step-capped n draws decimal (comes_up session name) s h =
    omega (arith, launch_up-capped session name s)
step-capped n draws decimal (fails session name) s h =
    omega (arith, live_count-remove s.browsers name)
step-capped n draws decimal (closes name) s h = omega (arith, live_count-remove s.browsers name)
step-capped n draws decimal (crashes name) s h = omega (arith, crash-capped name s)

run-capped :
    (n : ℕ) (draws decimal : ℕ → Text) (events : List Event) (s : Fleet)
    → live_count s.browsers ≤ n
    → live_count (run n draws decimal events s).browsers ≤ n
unfolding run
run-capped n draws decimal [] s h = h
run-capped n draws decimal (event ∷ events) s h =
    run-capped n draws decimal events (step n draws decimal event s)
      (step-capped n draws decimal event s h)

-- However creations, restores, launches, failures, closes and crashes follow one another, the browsers
-- that have not crashed are never more than the cap.
pub live_count-run :
    (max_sessions : ℕ) (draws decimal : ℕ → Text) (events : List Event)
    → live_count (run max_sessions draws decimal events empty).browsers ≤ max_sessions
unfolding live_count
live_count-run n draws decimal events = run-capped n draws decimal events empty (omega arith)

-- When a launch fails, its name is taken out of the fleet also where another session holds the name
-- by then; and the launch of that session then does not begin.
pub launch_failed-evicts :
    (session : ℕ) (name : Text) (s : Fleet) (m : Member)
    → get s.browsers name ≡ some m
    → (m.session == session) ≡ false
    → (get (launch_failed session name s).browsers name ≡ none)
      × (begins_launch m.session name (launch_failed session name s) ≡ false)
unfolding launch_failed begins_launch
launch_failed-evicts session name s m g d = (
  ground (arith, get-remove s.browsers name name, text_beq_iff name name),
  ground (arith, has-remove s.browsers name name, text_beq_iff name name),
)
