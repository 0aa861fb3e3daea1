-- ===== src/Interface/Layouts/Registered.antt =====
-- Registering, writing and reading a named layout:
-- apps/system_interface/imbue/system_interface/workspace_layouts.py.
use forever_claude_template.Base.{
  ◌≡◌, refl, inl, inr, true, false, ◌&&◌, Bool-cases, Option-cases, Option, none, some, [], ◌∷◌,
  arith, if◌then◌else◌, Dict, get, has, put, get-put, Text, text_beq, text_beq_iff, code_eq, String,
}
use forever_claude_template.Interface.Layouts.{
  saved, Meta, LayoutDir, conflict, not_found, ok, raised, write_meta, read_meta, is_registered,
  get_last_active_slug, get_layout_display_name, read_layout_content, write_layout_content,
  slugify_layout_name, resolve_layout_slug, registered_as, register_layout,
}
use forever_claude_template.Interface.Layouts.Slugs.{is_words, slug_of_lowered-is_words}

pub read_meta-known : (m : Meta) (d : LayoutDir) → d.meta ≡ some m → read_meta d ≡ (m, d)
unfolding read_meta
read_meta-known m d h = ground (arith, h)

-- The first read writes what it found.
pub read_meta-read : (d : LayoutDir) → (read_meta d).1.meta ≡ some (read_meta d).0
unfolding read_meta
read_meta-read d = elim (Option-cases d.meta) [
  | inl e ↦ ground (arith, e)
  | inr (m, e) ↦ ground (arith, e)
]

pub get-has :
    (names : Dict Text Text) (slug : Text)
    → has names slug ≡ true
    → (name : Text) × (get names slug ≡ some name)
unfolding get has
get-has [] slug h = cc
get-has ((j, name) ∷ names) slug h = elim (Bool-cases (text_beq j slug)) [
  | inl e ↦ rw e (name, refl)
  | inr e ↦ rw e (get-has names slug (ground arith))
]

pub has-get :
    (names : Dict Text Text) (slug name : Text) → get names slug ≡ some name → has names slug ≡ true
unfolding get has
has-get [] slug name h = cc
has-get ((j, n) ∷ names) slug name h = ground (arith, has-get names slug name)

pub has-get-none :
    (names : Dict Text Text) (slug : Text) → get names slug ≡ none → has names slug ≡ false
unfolding get has
has-get-none [] slug h = refl
has-get-none ((j, n) ∷ names) slug h = ground (arith, has-get-none names slug)

-- What a registration of the layout's name gives.
abbrev pub IsNamed : (Text → Text) → Text → Text → LayoutDir → Type 0
IsNamed strip_lower display_name slug d =
    (get_layout_display_name slug d ≡ (d, ok display_name))
    × (resolve_layout_slug strip_lower display_name d ≡ (d, ok slug))
    × (register_layout strip_lower display_name d ≡ (d, ok slug))

known-IsNamed :
    (strip_lower : Text → Text) (display_name slug : Text) (m : Meta) (d : LayoutDir)
    → d.meta ≡ some m
    → slugify_layout_name strip_lower display_name ≡ some slug
    → get m.display_name_by_slug slug ≡ some display_name
    → IsNamed strip_lower display_name slug d
unfolding get_layout_display_name resolve_layout_slug register_layout
known-IsNamed strip_lower display_name slug m d k s g =
    let r = read_meta-known m d k in
    let h = has-get m.display_name_by_slug slug display_name g in
    let same = text_beq_iff display_name display_name in
    (ground (arith, r, g), ground (arith, r, g, s, h), ground (arith, r, g, s, same))

-- What a registration that succeeded leaves behind.
record Entered (strip_lower : Text → Text) (display_name slug : Text) (d e : LayoutDir)
    : Type 0 where
  registry : Meta
  known : e.meta ≡ some registry
  slugged : slugify_layout_name strip_lower display_name ≡ some slug
  named : get registry.display_name_by_slug slug ≡ some display_name
  others :
      (other : Text)
      → text_beq slug other ≡ false
      → get registry.display_name_by_slug other ≡ get (read_meta d).0.display_name_by_slug other

registered_as-Entered :
    (strip_lower : Text → Text) (display_name slug s : Text) (old : Option Text) (d e : LayoutDir)
    → get (read_meta d).0.display_name_by_slug s ≡ old
    → slugify_layout_name strip_lower display_name ≡ some s
    → registered_as strip_lower s display_name old (read_meta d).0 (read_meta d).1 ≡ (e, ok slug)
    → Entered strip_lower display_name slug d e
registered_as-Entered strip_lower display_name slug s none d e o h r =
    let names = (read_meta d).0.display_name_by_slug in
    let same : s ≡ slug = ground (arith, r) in
    record {
      registry = record (read_meta d).0 { display_name_by_slug = put names s display_name };
      known = ground (arith, r);
      slugged = cc (h, same);
      named = ground (arith, get-put names s slug display_name, text_beq_iff s slug, same);
      others = λ other n. ground (
        arith,
        get-put names s other display_name,
        text_beq_iff s other,
        text_beq_iff slug other,
        same,
      );
    }
registered_as-Entered strip_lower display_name slug s (some existing) d e o h r =
    elim (Bool-cases (text_beq existing display_name)) [
      | inl b ↦
          let same : s ≡ slug = ground (arith, r, b) in
          let there : (read_meta d).1 ≡ e = ground (arith, r, b) in
          let equal : existing ≡ display_name =
            ground (arith, text_beq_iff existing display_name) in
          record {
            registry = (read_meta d).0;
            known = cc (there, read_meta-read d);
            slugged = cc (h, same);
            named = cc;
            others = λ other n. refl;
          }
      | inr b ↦ let bad : false ≡ true = ground (arith, r, b) in cc
    ]

register_layout-Entered :
    (strip_lower : Text → Text) (display_name slug : Text) (d e : LayoutDir)
    → register_layout strip_lower display_name d ≡ (e, ok slug)
    → Entered strip_lower display_name slug d e
unfolding register_layout
register_layout-Entered strip_lower display_name slug d e r =
    elim (Option-cases (slugify_layout_name strip_lower display_name)) [
      | inl s ↦ let bad : false ≡ true = ground (arith, r, s) in cc
      | inr (t, s) ↦
          registered_as-Entered strip_lower display_name slug t
            (get (read_meta d).0.display_name_by_slug t) d e refl s (ground (arith, r, s))
    ]

-- When a layout is registered under a display name, the slug that is returned is made of words of
-- `[a-z0-9]` with single dashes between them; from then on the display name resolves to that slug,
-- the slug shows that display name, registering the name again changes nothing and returns the
-- slug; any other name with the same slug is refused with the conflict, nothing changed; and every
-- other slug shows the name that it showed before.
pub register_layout-IsNamed :
    (strip_lower : Text → Text) (display_name slug rival other : Text) (d e : LayoutDir)
    → register_layout strip_lower display_name d ≡ (e, ok slug)
    → slugify_layout_name strip_lower rival ≡ some slug
    → (is_words true slug ≡ true)
      × IsNamed strip_lower display_name slug e
      × (register_layout strip_lower rival e
          ≡ (e, if text_beq display_name rival then ok slug else raised (conflict display_name)))
      × ((get_layout_display_name other e).1
          ≡ (if text_beq slug other then ok display_name else (get_layout_display_name other d).1))
unfolding get_layout_display_name register_layout
register_layout-IsNamed strip_lower display_name slug rival other d e r h =
    let w = register_layout-Entered strip_lower display_name slug d e r in
    let k = read_meta-known w.registry e w.known in
    (
      (slug_of_lowered-is_words (strip_lower display_name) slug w.slugged).0,
      known-IsNamed strip_lower display_name slug w.registry e w.known w.slugged w.named,
      ground (arith, k, h, w.named),
      elim (Bool-cases (text_beq slug other)) [
        | inl b ↦
            let same : slug ≡ other = ground (arith, text_beq_iff slug other) in
            ground (arith, k, b, w.named, same)
        | inr b ↦ ground (arith, k, b, w.others other b)
      ],
    )

-- A save succeeds when the layout is registered and is refused otherwise; what was saved is then read
-- back and the layout is the last active one, and all that is read of every other slug, or after a save
-- that was refused, is as before.
pub write_layout_content-read :
    (slug other : Text) (content : String) (d : LayoutDir)
    → ((write_layout_content slug content d).1
        ≡ (if is_registered slug (read_meta d).0 then ok tt else raised (not_found slug)))
      × ((read_layout_content other (write_layout_content slug content d).0).1 ≡ (
          if is_registered slug (read_meta d).0 && text_beq slug other
          then ok (some content)
          else (read_layout_content other d).1))
      × ((get_last_active_slug (write_layout_content slug content d).0).1
          ≡ (if is_registered slug (read_meta d).0 then ok slug else (get_last_active_slug d).1))
unfolding write_layout_content read_layout_content get_last_active_slug
write_layout_content-read slug other content d =
    let m = (read_meta d).0 in
    let first = (read_meta d).1 in
    let new : Meta = record m { last_active_slug = some slug } in
    let e = write_meta new (record first { contents = put first.contents slug (saved content) }) in
    let k = read_meta-known new e refl in
    let again = read_meta-known m first (read_meta-read d) in
    let same = text_beq_iff slug other in
    elim (Bool-cases (is_registered slug m)) [
      | inl h ↦ (
        ground (arith, h),
        elim (Bool-cases (text_beq slug other)) [
          | inl b ↦
              let equal : slug ≡ other = ground (arith, same, b) in
              let there : is_registered other m ≡ true = cc in
              ground (arith, h, k, b, there, get-put first.contents slug other (saved content))
          | inr b ↦ ground (arith, h, k, b, get-put first.contents slug other (saved content))
        ],
        ground (arith, h, k),
      )
      | inr h ↦ (ground (arith, h), ground (arith, again, h), ground (arith, again, h))
    ]
