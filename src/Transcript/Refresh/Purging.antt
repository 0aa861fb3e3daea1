-- ===== src/Transcript/Refresh/Purging.antt =====
-- The references stay right through a truncation, in
-- apps/system_interface/imbue/system_interface/session_watcher.py.
use forever_claude_template.Base.{
  ℕ, zero, suc, ◌≡◌, refl, sym, ap, ◌∙◌, Bool, true, false, inl, inr, none, some, List, [], ◌∷◌,
  arith, Bool-cases, if◌then◌else◌, get, put, remove, get-remove, in_names, Text, text_beq,
  text_beq_iff, code_eq, ◌||◌,
}
use forever_claude_template.Transcript.Index.{EventLocator, SessionFileState, Refs}
use forever_claude_template.Transcript.Watcher.{discard}
use forever_claude_template.Transcript.Refresh.{purge_ids, purge_refs}
use forever_claude_template.Transcript.Paging.Positions.{nth}
use forever_claude_template.Transcript.Refresh.Indexing.{
  States, Target, Inv, get-put_same, get-put_other, text_cases, put_named, put_known,
}

abbrev has_event : Text → List EventLocator → Bool
has_event event_id [] = false
has_event event_id (l ∷ ls) = text_beq l.event_id event_id || has_event event_id ls

get-purge :
    (ls : List EventLocator) (refs : Refs) (k : Text)
    → get (purge_refs ls refs) k ≡ (if has_event k ls then none else get refs k)
unfolding purge_refs
get-purge [] refs k = refl
get-purge (l ∷ ls) refs k =
    ground (arith, get-purge ls (remove refs l.event_id) k, get-remove refs l.event_id k)

in_names-discard :
    (k : Text) (ids : List Text) (j : Text)
    → in_names j (discard k ids) ≡ (if text_beq k j then false else in_names j ids)
unfolding discard in_names
in_names-discard k [] j = ground arith
in_names-discard k (i ∷ ids) j = ground (
  arith,
  in_names-discard k ids j,
  text_beq_iff i k,
  text_beq_iff i j,
  text_beq_iff k j,
  text_beq_iff j i,
)

in_names-purge :
    (ls : List EventLocator) (ids : List Text) (k : Text)
    → in_names k (purge_ids ls ids) ≡ (if has_event k ls then false else in_names k ids)
unfolding purge_ids
in_names-purge [] ids k = refl
in_names-purge (l ∷ ls) ids k =
    ground (arith, in_names-purge ls (discard l.event_id ids) k, in_names-discard l.event_id ids k)

has_event-nth :
    (k : Text) (i : ℕ) (l : EventLocator) (ls : List EventLocator)
    → nth i ls ≡ some l
    → l.event_id ≡ k
    → has_event k ls ≡ true
has_event-nth k i l [] h e = let bad : false ≡ true = ground (arith, h) in cc
has_event-nth k zero l (m ∷ ls) h e = ground (arith, h, e, text_beq_iff m.event_id k)
has_event-nth k (suc i) l (m ∷ ls) h e = ground (arith, has_event-nth k i l ls h e)

nth-has_event :
    (k : Text) (ls : List EventLocator)
    → has_event k ls ≡ true
    → (i : ℕ) × (l : EventLocator) × (nth i ls ≡ some l) × (l.event_id ≡ k)
nth-has_event k [] h = let bad : false ≡ true = h in cc
nth-has_event k (m ∷ ls) h = elim (text_cases m.event_id k) [
  | inl e ↦ (zero, m, refl, e)
  | inr e ↦
      let rest = nth-has_event k ls (ground (arith, h, e)) in (suc rest.0, rest.1, rest.2, rest.3)
]

-- A file that shrank loses its events, and no other file does.
pub reset-Inv :
    (states : States) (mains : List Text) (refs : Refs) (existing : List Text) (sid : Text)
    (f g : SessionFileState)
    → Inv states mains refs existing
    → get states sid ≡ some f
    → g.locators ≡ []
    → g.session_id ≡ f.session_id
    → Inv (put states sid g) mains (purge_refs f.locators refs) (purge_ids f.locators existing)
reset-Inv states mains refs existing sid f g v h empty same_id = record {
  named = put_named states sid g v.named (same_id ∙ v.named sid f h);
  listed = λ k c i l e at. elim (text_cases sid k) [
    | inl same ↦
        let here = get-put_same states sid g in
        let now : g ≡ c = cc in
        let locators : [] ≡ c.locators = sym empty ∙ ap (λ f. f.locators) now in
        let nowhere : nth {A = EventLocator} i [] ≡ some l = ap (nth i) locators ∙ at in
        let bad : false ≡ true = ground (arith, nowhere) in cc
    | inr other ↦
        let ref = v.listed k c i l (sym (get-put_other states sid k g other) ∙ e) at in
        elim (Bool-cases (has_event l.event_id f.locators)) [
          | inl purged ↦
              let p = nth-has_event l.event_id f.locators purged in
              let own = v.listed sid f p.0 p.1 h p.2 in
              let own_id = p.3 in
              let mine : Text × ℕ = (sid, p.0) in
              let other_one : Text × ℕ = (k, i) in
              let home : mine ≡ other_one = cc in
              let is_sid : sid ≡ k = ap (λ p. p.0) home in
              let is_same : text_beq sid k ≡ true = (text_beq_iff sid k).1 is_sid in cc
          | inr kept ↦ rw (get-purge f.locators refs l.event_id, kept) ref
        ]
  ];
  sound = λ event_id k i e. kept_target event_id k i (not_purged event_id k i e);
  seen = λ event_id ref e.
      let p = not_purged event_id ref.0 ref.1 e in
      rw (in_names-purge f.locators existing event_id, p.0) (v.seen event_id ref p.1);
  mains_known = λ k e. put_known states sid g k (v.mains_known k e);
  mains_apart = v.mains_apart;
}
  where
    not_purged :
        (event_id k : Text) (i : ℕ)
        → get (purge_refs f.locators refs) event_id ≡ some (k, i)
        → (has_event event_id f.locators ≡ false) × (get refs event_id ≡ some (k, i))
    not_purged event_id k i e =
        let purge = get-purge f.locators refs event_id in
        elim (Bool-cases (has_event event_id f.locators)) [
          | inl gone ↦ let bad : false ≡ true = ground (arith, e, purge, gone) in cc
          | inr kept ↦ (kept, ground (arith, e, purge, kept))
        ]

    kept_target :
        (event_id k : Text) (i : ℕ)
        → (has_event event_id f.locators ≡ false) × (get refs event_id ≡ some (k, i))
        → Target (put states sid g) event_id k i
    kept_target event_id k i p =
        let t = v.sound event_id k i p.1 in
        elim (text_cases sid k) [
          | inl same ↦
              let was = t.known in
              let is_f : f ≡ t.file = cc in
              let at : nth i f.locators ≡ some t.locator = rw is_f t.at in
              let bad = has_event-nth event_id i t.locator f.locators at t.same in
              let kept = p.0 in cc
          | inr other ↦ record {
            file = t.file;
            locator = t.locator;
            known = get-put_other states sid k g other ∙ t.known;
            at = t.at;
            same = t.same;
          }
        ]
