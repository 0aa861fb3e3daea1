-- ===== src/Transcript/Refresh/Indexing.antt =====
-- The references stay right while events are appended, in
-- apps/system_interface/imbue/system_interface/session_watcher.py.
use forever_claude_template.Base.{
  ℕ, zero, suc, ◌≡◌, ◌⊎◌, refl, sym, ap, ◌∙◌, true, false, inl, inr, none, some, is_some, List, [],
  ◌∷◌, ◌++◌, arith, Bool-cases, length, Dict, get, put, get-put, in_names, Text, text_beq,
  text_beq_iff, code_eq,
}
use forever_claude_template.Transcript.Index.{EventLocator, SessionFileState, Refs}
use forever_claude_template.Transcript.Watcher.{Watcher}
use forever_claude_template.Transcript.Paging.Positions.{nth}

abbrev pub States : Type 0
States = Dict Text SessionFileState

-- No text twice.
abbrev pub AreApart : List Text → Type 0
AreApart [] = Unit
AreApart (k ∷ ks) = (in_names k ks ≡ false) × AreApart ks

-- The event of a reference.
pub record Target (states : States) (event_id sid : Text) (i : ℕ) : Type 0 where
  pub file : SessionFileState
  pub locator : EventLocator
  pub known : get states sid ≡ some file
  pub at : nth i file.locators ≡ some locator
  pub same : locator.event_id ≡ event_id

-- The references and the locators of all files match, and each referenced event is known as seen.
pub record Inv (states : States) (mains : List Text) (refs : Refs) (existing : List Text)
    : Type 0 where
  pub named : (sid : Text) (f : SessionFileState) → get states sid ≡ some f → f.session_id ≡ sid
  pub listed :
      (sid : Text) (f : SessionFileState) (i : ℕ) (l : EventLocator)
      → get states sid ≡ some f
      → nth i f.locators ≡ some l
      → get refs l.event_id ≡ some (sid, i)
  pub sound :
      (event_id sid : Text) (i : ℕ)
      → get refs event_id ≡ some (sid, i)
      → Target states event_id sid i
  pub seen :
      (event_id : Text) (ref : Text × ℕ)
      → get refs event_id ≡ some ref
      → in_names event_id existing ≡ true
  pub mains_known : (sid : Text) → in_names sid mains ≡ true → is_some (get states sid) ≡ true
  pub mains_apart : AreApart mains

abbrev pub WatcherInv : Watcher → Type 0
WatcherInv w = Inv w.session_states w.main_session_ids w.locator_ref_by_id w.existing_event_ids

pub text_cases : (s t : Text) → (s ≡ t) ⊎ (text_beq s t ≡ false)
text_cases s t = elim (Bool-cases (text_beq s t)) [
  | inl e ↦ inl (ground (arith, text_beq_iff s t, e))
  | inr e ↦ inr e
]

pub text_beq_refl : (s : Text) → text_beq s s ≡ true
text_beq_refl s = (text_beq_iff s s).1 refl

nth_snoc {ℓ} :
    {A : Type ℓ} (i : ℕ) (xs : List A) (x y : A)
    → nth i (xs ++ x ∷ []) ≡ some y
    → (nth i xs ≡ some y) ⊎ ((i ≡ length xs) × (x ≡ y))
nth_snoc zero [] x y h = inr (refl, ground (arith, h))
nth_snoc (suc i) [] x y h = let bad : false ≡ true = ground (arith, h) in cc
nth_snoc zero (z ∷ xs) x y h = inl h
nth_snoc (suc i) (z ∷ xs) x y h = elim (nth_snoc i xs x y h) [
  | inl e ↦ inl e
  | inr e ↦ inr (omega (arith, e.0), e.1)
]

pub nth_more {ℓ} :
    {A : Type ℓ} (i : ℕ) (xs ys : List A) (y : A) → nth i xs ≡ some y → nth i (xs ++ ys) ≡ some y
nth_more i [] ys y h = let bad : false ≡ true = ground (arith, h) in cc
nth_more zero (z ∷ xs) ys y h = h
nth_more (suc i) (z ∷ xs) ys y h = nth_more i xs ys y h

nth_end {ℓ} : {A : Type ℓ} (xs : List A) (x : A) → nth (length xs) (xs ++ x ∷ []) ≡ some x
nth_end [] x = refl
nth_end (z ∷ xs) x = nth_end xs x

pub get-put_same : {V : Type 0} (m : Dict Text V) (k : Text) (v : V) → get (put m k v) k ≡ some v
get-put_same m k v = rw (get-put m k k v, text_beq_refl k) refl

pub get-put_other :
    {V : Type 0} (m : Dict Text V) (k j : Text) (v : V)
    → text_beq k j ≡ false
    → get (put m k v) j ≡ get m j
get-put_other m k j v h = rw (get-put m k j v, h) refl

abbrev pub with_locators : SessionFileState → List EventLocator → SessionFileState
with_locators f locators = record f { locators = locators }

append_listed :
    (states : States) (mains : List Text) (refs : Refs) (existing : List Text) (sid : Text)
    (f : SessionFileState) (new : EventLocator)
    → Inv states mains refs existing
    → get states sid ≡ some f
    → get refs new.event_id ≡ none
    → (k : Text) (g : SessionFileState) (i : ℕ) (l : EventLocator)
    → get (put states sid (with_locators f (f.locators ++ new ∷ []))) k ≡ some g
    → nth i g.locators ≡ some l
    → get (put refs new.event_id (sid, length f.locators)) l.event_id ≡ some (k, i)
append_listed states mains refs existing sid f new v h fresh k g i l e at =
    elim (text_cases sid k) [
      | inl same ↦
          let here = get-put_same states sid (with_locators f (f.locators ++ new ∷ [])) in
          let now : with_locators f (f.locators ++ new ∷ []) ≡ g = cc in
          let locators : f.locators ++ new ∷ [] ≡ g.locators = ap (λ f. f.locators) now in
          let at_end : nth i (f.locators ++ new ∷ []) ≡ some l = rw locators at in
          elim (nth_snoc i f.locators new l at_end) [
            | inl old ↦ let ref = v.listed sid f i l h old in keep l cc
            | inr last ↦
                let ref = get-put_same refs new.event_id (sid, length f.locators) in
                let is_last : i ≡ length f.locators = last.0 in let is_new : new ≡ l = last.1 in cc
          ]
      | inr other ↦
          let old : get states k ≡ some g =
            sym (get-put_other states sid k (with_locators f (f.locators ++ new ∷ [])) other) ∙ e in
          keep l (v.listed k g i l old at)
    ]
  where
    keep :
        (l : EventLocator)
        → get refs l.event_id ≡ some (k, i)
        → get (put refs new.event_id (sid, length f.locators)) l.event_id ≡ some (k, i)
    keep l old = elim (text_cases new.event_id l.event_id) [
      | inl same ↦ cc
      | inr other ↦ get-put_other refs new.event_id l.event_id (sid, length f.locators) other ∙ old
    ]

append_sound :
    (states : States) (mains : List Text) (refs : Refs) (existing : List Text) (sid : Text)
    (f : SessionFileState) (new : EventLocator)
    → Inv states mains refs existing
    → get states sid ≡ some f
    → (event_id k : Text) (i : ℕ)
    → get (put refs new.event_id (sid, length f.locators)) event_id ≡ some (k, i)
    → Target (put states sid (with_locators f (f.locators ++ new ∷ []))) event_id k i
append_sound states mains refs existing sid f new v h event_id k i e =
    elim (text_cases new.event_id event_id) [
      | inl same ↦
          let put_here = get-put_same refs new.event_id (sid, length f.locators) in
          let placed : Text × ℕ = (sid, length f.locators) in
          let wanted : Text × ℕ = (k, i) in
          let home : placed ≡ wanted = cc in
          let is_sid : sid ≡ k = ap (λ p. p.0) home in
          let is_end : length f.locators ≡ i = ap (λ p. p.1) home in
          record {
            file = with_locators f (f.locators ++ new ∷ []);
            locator = new;
            known =
                rw (← is_sid) (get-put_same states sid (with_locators f (f.locators ++ new ∷ [])));
            at = rw (← is_end) (nth_end f.locators new);
            same = same;
          }
      | inr other ↦
          let old : get refs event_id ≡ some (k, i) =
            sym (get-put_other refs new.event_id event_id (sid, length f.locators) other) ∙ e in
          moved (v.sound event_id k i old)
    ]
  where
    moved :
        Target states event_id k i
        → Target (put states sid (with_locators f (f.locators ++ new ∷ []))) event_id k i
    moved t = elim (text_cases sid k) [
      | inl same ↦
          let was = t.known in
          let is_f : f ≡ t.file = cc in
          let at : nth i f.locators ≡ some t.locator = rw is_f t.at in
          record {
            file = with_locators f (f.locators ++ new ∷ []);
            locator = t.locator;
            known =
                rw (← same) (get-put_same states sid (with_locators f (f.locators ++ new ∷ [])));
            at = nth_more i f.locators (new ∷ []) t.locator at;
            same = t.same;
          }
      | inr other ↦ record {
        file = t.file;
        locator = t.locator;
        known =
            get-put_other states sid k (with_locators f (f.locators ++ new ∷ [])) other ∙ t.known;
        at = t.at;
        same = t.same;
      }
    ]

pub put_named :
    (states : States) (sid : Text) (f : SessionFileState)
    → ((k : Text) (g : SessionFileState) → get states k ≡ some g → g.session_id ≡ k)
    → f.session_id ≡ sid
    → (k : Text) (g : SessionFileState) → get (put states sid f) k ≡ some g
    → g.session_id ≡ k
put_named states sid f named h k g e = elim (text_cases sid k) [
  | inl same ↦
      let here = get-put_same states sid f in
      let now : f ≡ g = cc in sym (ap (λ f. f.session_id) now) ∙ h ∙ same
  | inr other ↦ named k g (sym (get-put_other states sid k f other) ∙ e)
]

pub put_known :
    (states : States) (sid : Text) (f : SessionFileState) (k : Text)
    → is_some (get states k) ≡ true
    → is_some (get (put states sid f) k) ≡ true
put_known states sid f k h = ground (arith, get-put states sid k f, h)

-- A new event with an unused id that is known as seen can be appended.
pub append-Inv :
    (states : States) (mains : List Text) (refs : Refs) (existing : List Text) (sid : Text)
    (f : SessionFileState) (new : EventLocator)
    → Inv states mains refs existing
    → get states sid ≡ some f
    → get refs new.event_id ≡ none
    → in_names new.event_id existing ≡ true
    → Inv
        (put states sid (with_locators f (f.locators ++ new ∷ [])))
        mains
        (put refs new.event_id (sid, length f.locators))
        existing
append-Inv states mains refs existing sid f new v h fresh known = record {
  named = put_named states sid (with_locators f (f.locators ++ new ∷ [])) v.named (v.named sid f h);
  listed = append_listed states mains refs existing sid f new v h fresh;
  sound = append_sound states mains refs existing sid f new v h;
  seen = λ event_id ref e. elim (text_cases new.event_id event_id) [
    | inl same ↦ rw (← same) known
    | inr other ↦
        v.seen event_id ref
          (sym (get-put_other refs new.event_id event_id (sid, length f.locators) other) ∙ e)
  ];
  mains_known =
      λ k e. put_known states sid (with_locators f (f.locators ++ new ∷ [])) k (v.mains_known k e);
  mains_apart = v.mains_apart;
}

-- A change of a file that keeps its locators and its name.
pub change-Inv :
    (states : States) (mains : List Text) (refs : Refs) (existing : List Text) (sid : Text)
    (f g : SessionFileState)
    → Inv states mains refs existing
    → get states sid ≡ some f
    → g.locators ≡ f.locators
    → g.session_id ≡ f.session_id
    → Inv (put states sid g) mains refs existing
change-Inv states mains refs existing sid f g v h same_locators same_id = record {
  named = put_named states sid g v.named (same_id ∙ v.named sid f h);
  listed = λ k c i l e at. elim (text_cases sid k) [
    | inl same ↦
        let here = get-put_same states sid g in
        let now : g ≡ c = cc in
        let locators : f.locators ≡ c.locators = sym same_locators ∙ ap (λ f. f.locators) now in
        let ref = v.listed sid f i l h (rw locators at) in cc
    | inr other ↦ v.listed k c i l (sym (get-put_other states sid k g other) ∙ e) at
  ];
  sound = λ event_id k i e.
      let t = v.sound event_id k i e in
      elim (text_cases sid k) [
        | inl same ↦
            let was = t.known in
            let is_f : f ≡ t.file = cc in
            record {
              file = g;
              locator = t.locator;
              known = rw (← same) (get-put_same states sid g);
              at = rw (same_locators ∙ ap (λ f. f.locators) is_f) t.at;
              same = t.same;
            }
        | inr other ↦ record {
          file = t.file;
          locator = t.locator;
          known = get-put_other states sid k g other ∙ t.known;
          at = t.at;
          same = t.same;
        }
      ];
  seen = v.seen;
  mains_known = λ k e. put_known states sid g k (v.mains_known k e);
  mains_apart = v.mains_apart;
}

-- A longer list of seen ids.
pub seen-Inv :
    (states : States) (mains : List Text) (refs : Refs) (old new : List Text)
    → Inv states mains refs old
    → ((event_id : Text) → in_names event_id old ≡ true → in_names event_id new ≡ true)
    → Inv states mains refs new
seen-Inv states mains refs old new v h = record {
  named = v.named;
  listed = v.listed;
  sound = v.sound;
  seen = λ event_id ref e. h event_id (v.seen event_id ref e);
  mains_known = v.mains_known;
  mains_apart = v.mains_apart;
}
