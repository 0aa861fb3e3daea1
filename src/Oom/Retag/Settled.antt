-- ===== src/Oom/Retag/Settled.antt =====
-- What a sweep leaves behind: libs/browser/src/browser/oom_retag.py, scripts/oom_tag_backstop.py.
use forever_claude_template.Base.{
  ℕ, ◌≤◌, ◌≡◌, refl, Bool, true, Option, none, some, List, [], ◌∷◌, arith, get, get-put, nat_eq, ℤ,
  pos, leb_pos, ◌≤ℤ◌, All, Option-cases, inl, inr,
}
use forever_claude_template.Oom.Bands.{shared_browser_floor}
use forever_claude_template.Oom.Bands.Ranges.{shared_browser_oom_score_adj_bounds}
use forever_claude_template.Oom.Retag.{
  Procs, browser_value, raised_value, write_adj, retag_all, sweep_once, raise_pids_to_band,
}

-- A readable process is at or above the band.
abbrev pub AtLeast : ℕ → Option ℤ → Type 0
AtLeast band none = Unit
AtLeast band (some z) = leb_pos band z ≡ true

-- A process keeps its value or gets a higher one.
abbrev pub NotLowered : Option ℤ → Option ℤ → Type 0
NotLowered none o = o ≡ none
NotLowered (some a) none = ⊥
NotLowered (some a) (some b) = a ≤ℤ b

-- A choice of values that lifts a process to its band and skips one that is there.
record Lifts (band : ℕ) (value : Option ℤ → Option ℕ) : Type 0 where
  skips : (o : Option ℤ) → AtLeast band o → value o ≡ none
  lifts : (z : ℤ) (n : ℕ) → value (some z) ≡ some n → (band ≤ n) × (z ≤ℤ pos n)
  leaves : (z : ℤ) → value (some z) ≡ none → AtLeast band (some z)
  absent : value none ≡ none

browser-Lifts : Lifts shared_browser_floor browser_value
unfolding browser_value
browser-Lifts = record {
  skips = skipped;
  lifts = λ z n e. ground (arith, shared_browser_oom_score_adj_bounds z);
  leaves = λ z e. ground arith;
  absent = refl;
}
  where
    skipped : (o : Option ℤ) → AtLeast shared_browser_floor o → browser_value o ≡ none
    skipped none h = refl
    skipped (some z) h = ground arith

raised-Lifts : (band : ℕ) → Lifts band (raised_value band)
unfolding raised_value
raised-Lifts band = record {
  skips = skipped;
  lifts = λ z n e. ground arith;
  leaves = λ z e. ground arith;
  absent = refl;
}
  where
    skipped : (o : Option ℤ) → AtLeast band o → raised_value band o ≡ none
    skipped none h = refl
    skipped (some z) h = ground arith

NotLowered-refl : (o : Option ℤ) → NotLowered o o
NotLowered-refl none = refl
NotLowered-refl (some z) = omega arith

NotLowered-trans : (a b c : Option ℤ) → NotLowered a b → NotLowered b c → NotLowered a c
NotLowered-trans none b c h k = ground arith
NotLowered-trans (some x) none c h k = absurd h
NotLowered-trans (some x) (some y) none h k = absurd k
NotLowered-trans (some x) (some y) (some z) h k = omega arith

AtLeast-NotLowered : (band : ℕ) (a b : Option ℤ) → AtLeast band a → NotLowered a b → AtLeast band b
AtLeast-NotLowered band none b h k = rw k tt
AtLeast-NotLowered band (some x) none h k = absurd k
AtLeast-NotLowered band (some x) (some y) h k = ground arith

module _ (writable : ℕ → Bool) (band : ℕ) (value : Option ℤ → Option ℕ) (l : Lifts band value) where
  write-NotLowered :
      (pid p : ℕ) (procs : Procs)
      → NotLowered (get procs p) (get (write_adj writable pid (value (get procs pid)) procs) p)
  unfolding write_adj
  write-NotLowered pid p procs = elim (Option-cases (get procs pid)) [
    | inl e ↦ rw (e, l.absent) (NotLowered-refl (get procs p))
    | inr (z, e) ↦ elim (Option-cases (value (some z))) [
      | inl f ↦ rw (e, f) (NotLowered-refl (get procs p))
      | inr (n, f) ↦
          rw (e, f)
            (ground
              (arith, l.lifts z n f, NotLowered-refl (get procs p), get-put procs pid p (pos n)))
    ]
  ]

  write-AtLeast :
      (pid : ℕ) (procs : Procs)
      → writable pid ≡ true
      → AtLeast band (get (write_adj writable pid (value (get procs pid)) procs) pid)
  unfolding write_adj
  write-AtLeast pid procs w = elim (Option-cases (get procs pid)) [
    | inl e ↦ rw (e, l.absent) (rw e tt)
    | inr (z, e) ↦ elim (Option-cases (value (some z))) [
      | inl f ↦ rw (e, f) (rw e (l.leaves z f))
      | inr (n, f) ↦ rw (e, f) (ground (arith, l.lifts z n f, get-put procs pid pid (pos n)))
    ]
  ]

  retag_all-NotLowered :
      (pids : List ℕ) (p : ℕ) (procs : Procs)
      → NotLowered (get procs p) (get (retag_all writable value pids procs) p)
  unfolding retag_all
  retag_all-NotLowered [] p procs = NotLowered-refl (get procs p)
  retag_all-NotLowered (pid ∷ pids) p procs =
      let next = write_adj writable pid (value (get procs pid)) procs in
      NotLowered-trans (get procs p) (get next p) _ (write-NotLowered pid p procs)
        (retag_all-NotLowered pids p next)

  retag_all-AtLeast :
      (pids : List ℕ) (procs : Procs)
      → All (λ p. writable p ≡ true) pids
      → All (λ p. AtLeast band (get (retag_all writable value pids procs) p)) pids
  unfolding retag_all
  retag_all-AtLeast [] procs w = tt
  retag_all-AtLeast (pid ∷ pids) procs w =
      let next = write_adj writable pid (value (get procs pid)) procs in
      (
        AtLeast-NotLowered band (get next pid) _ (write-AtLeast pid procs w.0)
            (retag_all-NotLowered pids pid next),
        retag_all-AtLeast pids next w.1,
      )

  retag_all_settled :
      (pids : List ℕ) (procs : Procs)
      → All (λ p. AtLeast band (get procs p)) pids
      → retag_all writable value pids procs ≡ procs
  unfolding retag_all write_adj
  retag_all_settled [] procs h = refl
  retag_all_settled (pid ∷ pids) procs h =
      rw (l.skips (get procs pid) h.0) (retag_all_settled pids procs h.1)

-- No sweep, whatever can be written, lowers the score of any process or drops one.
pub sweep_once-NotLowered :
    (writable : ℕ → Bool) (descendants : List ℕ) (p : ℕ) (procs : Procs)
    → NotLowered (get procs p) (get (sweep_once writable descendants procs) p)
unfolding sweep_once
sweep_once-NotLowered writable =
    retag_all-NotLowered writable shared_browser_floor browser_value browser-Lifts

-- Where the writes succeed, a sweep leaves every readable descendant at or above the floor of the
-- browser band, and a second sweep changes nothing.
pub sweep_once-AtLeast :
    (writable : ℕ → Bool) (descendants : List ℕ) (procs : Procs)
    → All (λ p. writable p ≡ true) descendants
    → let swept = sweep_once writable descendants procs in
      All (λ p. AtLeast shared_browser_floor (get swept p)) descendants
      × (sweep_once writable descendants swept ≡ swept)
unfolding sweep_once
sweep_once-AtLeast writable descendants procs w =
    let settled =
      retag_all-AtLeast writable shared_browser_floor browser_value browser-Lifts descendants procs
        w in
    (
      settled,
      retag_all_settled writable shared_browser_floor browser_value browser-Lifts descendants _
          settled,
    )

-- Where the writes succeed, the backstop leaves every readable pid of its list at or above the band, and
-- lowers the score of no process.
pub raise_pids_to_band-AtLeast :
    (writable : ℕ → Bool) (pids : List ℕ) (band : ℕ) (procs : Procs)
    → All (λ p. writable p ≡ true) pids
    → let raised = raise_pids_to_band writable pids band procs in
      All (λ p. AtLeast band (get raised p)) pids
      × ((p : ℕ) → NotLowered (get procs p) (get raised p))
unfolding raise_pids_to_band
raise_pids_to_band-AtLeast writable pids band procs w = (
  retag_all-AtLeast writable band (raised_value band) (raised-Lifts band) pids procs w,
  λ p. retag_all-NotLowered writable band (raised_value band) (raised-Lifts band) pids p procs,
)
