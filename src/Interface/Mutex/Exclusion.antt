-- ===== src/Interface/Mutex/Exclusion.antt =====
-- Who has the layout mutex, over a run: apps/system_interface/imbue/system_interface/layout_ops.py.
use forever_claude_template.Base.{
  ℕ, ◌+◌, ◌≤◌, ◌<◌, String, ◌≡◌, refl, false, Option, none, some, List, [], ◌∷◌, arith,
  if◌then◌else◌, eq_iff,
}
use forever_claude_template.Interface.Mutex.{
  Holder, describe, take_slot, try_acquire, is_held_by, release,
}

pub data Call : Type 0 where
  tries : Holder → Call
  releases : String → String → Call

unfoldable pub step : ℕ → Call → Option Holder → Option Holder
unfolding try_acquire release
step ttl (tries wanted) slot = (try_acquire ttl wanted slot).0
step ttl (releases agent_id op) slot = release agent_id op slot

unfoldable pub run : ℕ → List Call → Option Holder → Option Holder
unfolding step
run ttl [] slot = slot
run ttl (call ∷ calls) slot = run ttl calls (step ttl call slot)

-- Calls made before the holder's time is over, none of which is its own release.
abbrev pub IsWithin : ℕ → Holder → List Call → Type 0
IsWithin ttl h [] = Unit
IsWithin ttl h (tries wanted ∷ calls) =
    (wanted.started_at_monotonic < h.started_at_monotonic + ttl) × IsWithin ttl h calls
IsWithin ttl h (releases agent_id op ∷ calls) =
    (is_held_by agent_id op h ≡ false) × IsWithin ttl h calls

run-holder :
    (ttl : ℕ) (h : Holder) (calls : List Call)
    → 0 < ttl
    → IsWithin ttl h calls
    → run ttl calls (some h) ≡ some h
unfolding run step try_acquire release
run-holder ttl h [] p w = refl
run-holder ttl h (tries wanted ∷ calls) p w =
    let rest = run-holder ttl h calls p w.1 in ground (arith, w.0)
run-holder ttl h (releases agent_id op ∷ calls) p w =
    let rest = run-holder ttl h calls p w.1 in ground (arith, w.0)

-- A caller that got the mutex keeps it for the TTL, whatever attempts come in that time and whoever else
-- releases: it stays the holder, and an attempt at the end of them is refused and told of the holder.
pub try_acquire-holds :
    (ttl : ℕ) (h rival : Holder) (slot : Option Holder) (calls : List Call)
    → 0 < ttl
    → (try_acquire ttl h slot).1 ≡ none
    → IsWithin ttl h calls
    → rival.started_at_monotonic < h.started_at_monotonic + ttl
    → try_acquire ttl rival (run ttl calls (try_acquire ttl h slot).0) ≡ (some h, some (describe h))
unfolding try_acquire take_slot
try_acquire-holds ttl h rival slot calls p g w r =
    let taken = acquired ttl h slot g in
    let kept = run-holder ttl h calls p w in ground (arith, taken, kept)
  where
    acquired :
        (n : ℕ) (k : Holder) (s : Option Holder)
        → (try_acquire n k s).1 ≡ none
        → (try_acquire n k s).0 ≡ some k
    acquired n k none e = refl
    acquired n k (some other) e = ground (arith, e)

-- When its time is over, the next attempt takes the mutex, and a late release by the old holder takes
-- nothing from the new one, unless both are the same agent with the same operation; the new holder's
-- own release frees the mutex.
try_acquire-expired :
    (ttl : ℕ) (h next : Holder)
    → h.started_at_monotonic + ttl ≤ next.started_at_monotonic
    → (try_acquire ttl next (some h) ≡ (some next, none))
      × (release h.agent_id h.op (try_acquire ttl next (some h)).0
          ≡ (if is_held_by h.agent_id h.op next then none else some next))
      × (release next.agent_id next.op (try_acquire ttl next (some h)).0 ≡ none)
unfolding try_acquire take_slot release
try_acquire-expired ttl h next l = (
  ground arith,
  ground arith,
  ground (arith, eq_iff next.agent_id next.agent_id, eq_iff next.op next.op),
)
