-- ===== src/Browser/Fleet/Naming.antt =====
-- Registering a browser under a free name: libs/browser/src/browser/session.py.
use forever_claude_template.Base.{
  ℕ, suc, ◌+◌, ◌≤◌, ◌≡◌, refl, inl, inr, true, false, Bool-cases, Option-cases, Option, none, some,
  [], ◌∷◌, ◌++◌, arith, length, leb, if◌then◌else◌, Dict, get, has, put, remove, get-put, Text,
  text_beq_iff, code_eq, in_names, first_free, first_free-total, first_free-least, IsInjective,
}
use forever_claude_template.Browser.Control.{init, is_crashed}
use forever_claude_template.Browser.Fleet.{
  Member, Fleet, live_count, names_of, register_init, fresh_name, Created, created, fleet_full,
  invalid_name, duplicate_name, no_name, create, is_valid_browser_name,
}

abbrev live : Option Member → ℕ
live none = 0
live (some m) = if is_crashed m.lifecycle then 0 else 1

pub live_count-put :
    (b : Dict Text Member) (name : Text) (m : Member)
    → live_count (put b name m) + live (get b name) ≡ live_count b + live (some m)
unfolding live_count put get
live_count-put [] name m = ground arith
live_count-put ((other, k) ∷ rest) name m = ground (arith, live_count-put rest name m)

pub live_count-remove :
    (b : Dict Text Member) (name : Text) → live_count (remove b name) ≤ live_count b
unfolding live_count remove
live_count-remove [] name = omega arith
live_count-remove ((other, k) ∷ rest) name = ground (arith, live_count-remove rest name)

in_names-names_of : (b : Dict Text Member) (name : Text) → in_names name (names_of b) ≡ has b name
unfolding in_names names_of has
in_names-names_of [] name = refl
in_names-names_of ((other, m) ∷ rest) name = ground (arith, in_names-names_of rest name)

get-unnamed : (b : Dict Text Member) (name : Text) → has b name ≡ false → get b name ≡ none
unfolding has get
get-unnamed [] name h = refl
get-unnamed ((other, m) ∷ rest) name h = ground (arith, get-unnamed rest name)

-- What a successful `create` does.
pub record Registered (max_sessions : ℕ) (name : Text) (s t : Fleet) : Type 0 where
  pub was_free : has s.browsers name ≡ false
  pub member : get t.browsers name ≡ some (record { session = s.next_session; lifecycle = init })
  pub counted : live_count t.browsers ≡ suc (live_count s.browsers)
  pub capped : live_count t.browsers ≤ max_sessions

pub register_init-Registered :
    (max_sessions : ℕ) (name : Text) (s : Fleet)
    → leb max_sessions (live_count s.browsers) ≡ false
    → has s.browsers name ≡ false
    → Registered max_sessions name s (register_init name s)
unfolding register_init
register_init-Registered max_sessions name s l h =
    let new : Member = record { session = s.next_session; lifecycle = init } in
    let count = live_count-put s.browsers name new in
    let unnamed = get-unnamed s.browsers name h in
    record {
      was_free = h;
      member = ground (arith, get-put s.browsers name name new, text_beq_iff name name);
      counted = ground (arith, count, unnamed);
      capped = ground (arith, count, unnamed);
    }

pub fresh_name-unused :
    (draws decimal : ℕ → Text) (b : Dict Text Member) (name : Text)
    → fresh_name draws decimal b ≡ some name
    → has b name ≡ false
unfolding fresh_name
fresh_name-unused draws decimal b name h =
    elim (Option-cases (first_free draws 50 0 (names_of b))) [
      | inl e ↦
          elim (Option-cases (first_free suffixed (suc (length (names_of b))) 1 (names_of b))) [
            | inl f ↦ let bad : false ≡ true = ground (arith, h, e, f) in cc
            | inr (n, f) ↦
                let same : suffixed n ≡ name = ground (arith, h, e, f) in
                let least =
                  first_free-least suffixed (suc (length (names_of b))) 1 n (names_of b) f in
                cc (same, least.1, in_names-names_of b name)
          ]
      | inr (i, e) ↦
          let same : draws i ≡ name = ground (arith, h, e) in
          let least = first_free-least draws 50 0 i (names_of b) e in
          cc (same, least.1, in_names-names_of b name)
    ]
  where
    suffixed : ℕ → Text
    suffixed n = draws 50 ++ 45 ∷ decimal n

suffixed-IsInjective :
    (base : Text) (decimal : ℕ → Text)
    → ((i j : ℕ) → decimal i ≡ decimal j → i ≡ j)
    → IsInjective (λ (n : ℕ). base ++ 45 ∷ decimal n)
suffixed-IsInjective base decimal h i j e =
    h i j (go base ((text_beq_iff (base ++ 45 ∷ decimal i) (base ++ 45 ∷ decimal j)).0 e))
  where
    go : (p : Text) → p ++ 45 ∷ decimal i ≡ p ++ 45 ∷ decimal j → decimal i ≡ decimal j
    go [] q = ground (arith, q)
    go (c ∷ p) q = go p (ground (arith, q))

fresh_name-total :
    (draws decimal : ℕ → Text) (b : Dict Text Member)
    → ((i j : ℕ) → decimal i ≡ decimal j → i ≡ j)
    → (name : Text) × (fresh_name draws decimal b ≡ some name)
unfolding fresh_name
fresh_name-total draws decimal b h =
    let suffixed = λ (n : ℕ). draws 50 ++ 45 ∷ decimal n in
    let ends =
      first_free-total suffixed (suc (length (names_of b))) 1 (names_of b)
        (suffixed-IsInjective (draws 50) decimal h) (omega arith) in
    elim (Option-cases (first_free draws 50 0 (names_of b))) [
      | inl e ↦ (suffixed ends.0, ground (arith, e, ends.1))
      | inr (i, e) ↦ (draws i, ground (arith, e))
    ]

-- What each answer of `create` says of the fleet before and after.
abbrev pub IsAnswered : ℕ → Option Text → Fleet → Fleet → Created → Type 0
IsAnswered max_sessions wanted s t (created name) = Registered max_sessions name s t
IsAnswered max_sessions wanted s t fleet_full = (t ≡ s) × (max_sessions ≤ live_count s.browsers)
IsAnswered max_sessions none s t _ = ⊥
IsAnswered max_sessions (some name) s t invalid_name =
    (t ≡ s) × (is_valid_browser_name name ≡ false)
IsAnswered max_sessions (some name) s t duplicate_name = (t ≡ s) × (has s.browsers name ≡ true)
IsAnswered max_sessions (some name) s t no_name = ⊥

-- Where different numbers are written differently, a request for a new browser is answered in one of
-- these ways: it is registered, starting, under a name that no browser had, and the live browsers are
-- one more and within the cap; or the fleet is full; or the name asked for is not valid; or it is
-- taken; and in all but the first nothing changes. A request without a name is registered unless the
-- fleet is full.
pub create-IsAnswered :
    (max_sessions : ℕ) (draws decimal : ℕ → Text) (wanted : Option Text) (s : Fleet)
    → ((i j : ℕ) → decimal i ≡ decimal j → i ≡ j)
    → IsAnswered max_sessions wanted s
        (create max_sessions draws decimal wanted s).0
        (create max_sessions draws decimal wanted s).1
unfolding create
create-IsAnswered max_sessions draws decimal none s h =
    elim (Bool-cases (leb max_sessions (live_count s.browsers))) [
      | inl l ↦ rw l (refl, ground arith)
      | inr l ↦
          let found = fresh_name-total draws decimal s.browsers h in
          let unused = fresh_name-unused draws decimal s.browsers found.0 found.1 in
          rw (l, found.1) (register_init-Registered max_sessions found.0 s l unused)
    ]
create-IsAnswered max_sessions draws decimal (some name) s h =
    elim (Bool-cases (leb max_sessions (live_count s.browsers))) [
      | inl l ↦ rw l (refl, ground arith)
      | inr l ↦ elim (Bool-cases (is_valid_browser_name name)) [
        | inl v ↦ elim (Bool-cases (has s.browsers name)) [
          | inl d ↦ rw (l, v, d) (refl, d)
          | inr d ↦ rw (l, v, d) (register_init-Registered max_sessions name s l d)
        ]
        | inr v ↦ rw (l, v) (refl, v)
      ]
    ]
