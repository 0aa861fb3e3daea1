-- ===== src/Transcript/Paging/Windows.antt =====
-- Slices of a list and of the joined locators of files.
use forever_claude_template.Base.{
  ℕ, zero, suc, ◌+◌, ◌-◌, ◌≡◌, ◌≤◌, min, refl, sym, List, [], ◌∷◌, ◌++◌, map, arith, inl, inr, leb,
  Bool-cases, take, drop, length, length-append, append_nil, append_assoc,
}
use forever_claude_template.Transcript.Index.{EventLocator, SessionFileState, Place, places}
use forever_claude_template.Transcript.Paging.{reversed, total_event_count}

-- The locators of one file, with its session.
unfoldable pub whole : SessionFileState → List Place
whole f = map (λ locator. (f.session_id, locator)) f.locators

-- Every locator of the files, with its session, in order.
abbrev pub timeline : List SessionFileState → List Place
timeline [] = []
timeline (f ∷ states) = whole f ++ timeline states

module _ {ℓ} {A : Type ℓ} where
  -- The last `n` items.
  unfoldable pub last : ℕ → List A → List A
  last n xs = drop (length xs - n) xs

  pub take-append :
      (n : ℕ) (xs ys : List A) → take n (xs ++ ys) ≡ take n xs ++ take (n - length xs) ys
  take-append zero xs ys = let none_left : 0 - length xs ≡ 0 = omega arith in rw none_left refl
  take-append (suc n) [] ys = let same : suc n - 0 ≡ suc n = omega arith in rw same refl
  take-append (suc n) (x ∷ xs) ys =
      let same : suc n - suc (length xs) ≡ n - length xs = omega arith in
      rw same (cc (take-append n xs ys))

  pub drop-append :
      (n : ℕ) (xs ys : List A) → drop n (xs ++ ys) ≡ drop n xs ++ drop (n - length xs) ys
  drop-append zero xs ys = let none_left : 0 - length xs ≡ 0 = omega arith in rw none_left refl
  drop-append (suc n) [] ys = let same : suc n - 0 ≡ suc n = omega arith in rw same refl
  drop-append (suc n) (x ∷ xs) ys =
      let same : suc n - suc (length xs) ≡ n - length xs = omega arith in
      rw same (cc (drop-append n xs ys))

  pub drop_all : (n : ℕ) (xs : List A) → length xs ≤ n → drop n xs ≡ []
  drop_all zero [] h = refl
  drop_all zero (x ∷ xs) h = ground arith
  drop_all (suc n) [] h = refl
  drop_all (suc n) (x ∷ xs) h = drop_all n xs (omega (arith, h))

  pub take_all : (n : ℕ) (xs : List A) → length xs ≤ n → take n xs ≡ xs
  take_all zero [] h = refl
  take_all zero (x ∷ xs) h = ground arith
  take_all (suc n) [] h = refl
  take_all (suc n) (x ∷ xs) h = cc (take_all n xs (omega (arith, h)))

  pub length-take : (n : ℕ) (xs : List A) → n ≤ length xs → length (take n xs) ≡ n
  length-take zero xs h = refl
  length-take (suc n) [] h = ground arith
  length-take (suc n) (x ∷ xs) h = omega (arith, length-take n xs (omega (arith, h)))

  front :
      (n : ℕ) (xs ys : List A)
      → drop (length xs + length ys - n) xs ≡ drop (length xs - (n - length ys)) xs
  front n xs ys = elim (Bool-cases (leb (length ys) n)) [
    | inl e ↦
        let same : length xs + length ys - n ≡ length xs - (n - length ys) = ground (arith, e) in
        rw same refl
    | inr e ↦
        rw
          (
            drop_all (length xs + length ys - n) xs (ground (arith, e)),
            drop_all (length xs - (n - length ys)) xs (ground (arith, e)),
          )
          refl
  ]

  pub take_none : (n : ℕ) → take {A = A} n [] ≡ []
  take_none zero = refl
  take_none (suc n) = refl

  pub drop_none : (n : ℕ) → drop {A = A} n [] ≡ []
  drop_none zero = refl
  drop_none (suc n) = refl

  pub last-append :
      (n : ℕ) (xs ys : List A) → last n (xs ++ ys) ≡ last (n - length ys) xs ++ last n ys
  unfolding last
  last-append n xs ys =
      let start = length xs + length ys - n in
      let in_back : start - length xs ≡ length ys - n = omega arith in
      rw (length-append xs ys, drop-append start xs ys, in_back, front n xs ys) refl

  pub last_nil : (n : ℕ) → last n [] ≡ []
  unfolding last
  last_nil n = drop_all (0 - n) [] (omega arith)

  pub last_none : (xs : List A) → last 0 xs ≡ []
  unfolding last
  last_none xs = drop_all (length xs - 0) xs (omega arith)

  -- A slice that ends at the end, or that is cut off there.
  pub slice_all :
      (start n : ℕ) (xs : List A)
      → drop start (take (min (length xs) (start + n)) xs) ≡ take n (drop start xs)
  slice_all zero n xs = elim (Bool-cases (leb (length xs) n)) [
    | inl e ↦
        let cut : min (length xs) (0 + n) ≡ length xs = ground (arith, e) in
        rw (cut, take_all (length xs) xs (omega arith), take_all n xs (ground (arith, e))) refl
    | inr e ↦ let cut : min (length xs) (0 + n) ≡ n = ground (arith, e) in rw cut refl
  ]
  slice_all (suc start) zero [] =
      let none_left : min 0 (suc start + 0) ≡ 0 = omega arith in rw none_left refl
  slice_all (suc start) (suc n) [] =
      let none_left : min 0 (suc start + suc n) ≡ 0 = omega arith in rw none_left refl
  slice_all (suc start) n (x ∷ xs) =
      let more : min (suc (length xs)) (suc start + n) ≡ suc (min (length xs) (start + n)) =
        omega arith in
      rw more (slice_all start n xs)

module _ {ℓ κ} {A : Type ℓ} {B : Type κ} (f : A → B) where
  pub length-map : (xs : List A) → length (map f xs) ≡ length xs
  length-map [] = refl
  length-map (x ∷ xs) = cc (length-map xs)

  pub map-take : (n : ℕ) (xs : List A) → map f (take n xs) ≡ take n (map f xs)
  map-take zero xs = refl
  map-take (suc n) [] = refl
  map-take (suc n) (x ∷ xs) = cc (map-take n xs)

  pub map-drop : (n : ℕ) (xs : List A) → map f (drop n xs) ≡ drop n (map f xs)
  map-drop zero xs = refl
  map-drop (suc n) [] = refl
  map-drop (suc n) (x ∷ xs) = map-drop n xs

pub length-whole : (f : SessionFileState) → length (whole f) ≡ length f.locators
unfolding whole
length-whole f = length-map (λ locator. (f.session_id, locator)) f.locators

pub places_lem :
    (f : SessionFileState) (start end : ℕ) → places f start end ≡ drop start (take end (whole f))
unfolding places whole
places_lem f start end =
    let pair : EventLocator → Place = λ locator. (f.session_id, locator) in
    rw (map-drop pair start (take end f.locators), map-take pair end f.locators) refl

-- The files newest first, joined in their chronological order.
abbrev pub backwards : List SessionFileState → List Place
backwards [] = []
backwards (f ∷ older) = backwards older ++ whole f

backwards-append :
    (fs gs : List SessionFileState) → backwards (fs ++ gs) ≡ backwards gs ++ backwards fs
backwards-append [] gs = sym (append_nil (backwards gs))
backwards-append (f ∷ fs) gs =
    rw (backwards-append fs gs) (append_assoc (backwards gs) (backwards fs) (whole f))

pub backwards-reversed : (fs : List SessionFileState) → backwards (reversed fs) ≡ timeline fs
backwards-reversed [] = refl
backwards-reversed (f ∷ fs) =
    rw (backwards-append (reversed fs) (f ∷ []), backwards-reversed fs) refl

pub length-timeline : (fs : List SessionFileState) → length (timeline fs) ≡ total_event_count fs
unfolding total_event_count
length-timeline [] = refl
length-timeline (f ∷ fs) =
    omega (arith, length-append (whole f) (timeline fs), length-whole f, length-timeline fs)

module _ {ℓ} {A : Type ℓ} where
  pub drop-take : (n : ℕ) (xs : List A) → drop n (take n xs) ≡ []
  drop-take zero xs = refl
  drop-take (suc n) [] = refl
  drop-take (suc n) (x ∷ xs) = drop-take n xs

  -- Two windows that meet.
  pub window-append :
      (a b c : ℕ) (xs : List A)
      → a ≤ b
      → b ≤ c
      → drop a (take b xs) ++ drop b (take c xs) ≡ drop a (take c xs)
  window-append zero zero c xs h k = refl
  window-append zero (suc b) zero xs h k = ground (arith, k)
  window-append zero (suc b) (suc c) [] h k = refl
  window-append zero (suc b) (suc c) (x ∷ xs) h k =
      cc (window-append zero b c xs (omega arith) (omega (arith, k)))
  window-append (suc a) zero c xs h k = ground (arith, h)
  window-append (suc a) (suc b) zero xs h k = ground (arith, k)
  window-append (suc a) (suc b) (suc c) [] h k = refl
  window-append (suc a) (suc b) (suc c) (x ∷ xs) h k =
      window-append a b c xs (omega (arith, h)) (omega (arith, k))

  pub take_more : (n : ℕ) (xs ys : List A) → n ≤ length xs → take n (xs ++ ys) ≡ take n xs
  take_more n xs ys h =
      let done : n - length xs ≡ 0 = omega (arith, h) in
      rw (take-append n xs ys, done) (append_nil (take n xs))
