-- ===== src/Browser/Fleet/Examples.antt =====
-- Concrete fleets of libs/browser/src/browser/session.py.
use forever_claude_template.Base.{
  ℕ, zero, suc, ◌≤◌, ◌≡◌, refl, ap, false, none, List, [], ◌∷◌, arith, Text, text_beq, get, code_eq,
}
use forever_claude_template.Browser.Control.{init}
use forever_claude_template.Browser.Fleet.{
  Fleet, empty, live_count, create, launch_failed, begins_launch,
}
use forever_claude_template.Browser.Fleet.Naming.{IsAnswered, create-IsAnswered}
use forever_claude_template.Browser.Fleet.Capacity.{
  Event, creates, comes_up, crashes, run, live_count-run, launch_failed-evicts,
}

-- A number written as that many strokes.
strokes : ℕ → Text
strokes zero = []
strokes (suc n) = 49 ∷ strokes n

strokes_injective : (i j : ℕ) → strokes i ≡ strokes j → i ≡ j
unfolding strokes
strokes_injective zero zero h = refl
strokes_injective zero (suc j) h = ground (arith, h)
strokes_injective (suc i) zero h = ground (arith, h)
strokes_injective (suc i) (suc j) h = ap suc (strokes_injective i j (ground (arith, h)))

-- The generator that always returns "a".
abbrev always_a : ℕ → Text
always_a n = 97 ∷ []

-- "b" was closed while it was starting and created again.
abbrev reused : Fleet
reused = record {
  browsers = (98 ∷ [], record { session = 1; lifecycle = init }) ∷ [];
  next_session = 2;
  closed_sessions = 0 ∷ [];
  failed_launch_names = [];
}

create-IsAnswered_example :
    IsAnswered 3 none reused
      (create 3 always_a strokes none reused).0
      (create 3 always_a strokes none reused).1
create-IsAnswered_example = create-IsAnswered 3 always_a strokes none reused strokes_injective

abbrev two_requests : List Event
two_requests = creates none ∷ creates none ∷ comes_up 0 (97 ∷ []) ∷ crashes (97 ∷ []) ∷ []

live_count-run_example : live_count (run 1 always_a strokes two_requests empty).browsers ≤ 1
live_count-run_example = live_count-run 1 always_a strokes two_requests

launch_failed-evicts_example :
    (get (launch_failed 0 (98 ∷ []) reused).browsers (98 ∷ []) ≡ none)
    × (begins_launch 1 (98 ∷ []) (launch_failed 0 (98 ∷ []) reused) ≡ false)
unfolding get text_beq
launch_failed-evicts_example =
    launch_failed-evicts 0 (98 ∷ []) reused (record { session = 1; lifecycle = init }) refl refl
