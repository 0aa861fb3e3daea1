-- ===== src/Interface/Layouts/Deletion.antt =====
-- Deleting a named layout, and the registry over a whole run:
-- apps/system_interface/imbue/system_interface/workspace_layouts.py.
use forever_claude_template.Base.{
  ◌≡◌, refl, ap, ◌∙◌, true, false, some, [], ◌∷◌, arith, if◌then◌else◌, Dict, has, remove,
  get-remove, has-remove, Text, text_beq, text_beq_iff, code_eq, String,
}
use forever_claude_template.Interface.Layouts.{
  Meta, LayoutDir, not_found, Result, ok, raised, read_meta, is_registered, get_layout_display_name,
  read_layout_content, write_layout_content, delete_layout, first_slug, slug_is,
}
use forever_claude_template.Interface.Layouts.Registered.{read_meta-known}

first_slug-has :
    (names : Dict Text Text) (slug : Text) → first_slug names ≡ ok slug → has names slug ≡ true
unfolding has
first_slug-has [] slug h = let bad : false ≡ true = ground (arith, h) in cc
first_slug-has ((j, name) ∷ names) slug h =
    let same : j ≡ slug = ground (arith, h) in ground (arith, text_beq_iff j slug)

-- What a deletion that succeeded leaves behind.
record Removed (slug fallback : Text) (d e : LayoutDir) : Type 0 where
  registry : Meta
  known : e.meta ≡ some registry
  names : registry.display_name_by_slug ≡ remove (read_meta d).0.display_name_by_slug slug
  files : e.contents ≡ remove (read_meta d).1.contents slug
  next : first_slug (remove (read_meta d).0.display_name_by_slug slug) ≡ ok fallback
  active : registry.last_active_slug ≡ (
      if slug_is (read_meta d).0.last_active_slug slug
      then some fallback
      else (read_meta d).0.last_active_slug)

delete_layout-Removed :
    (slug fallback : Text) (d e : LayoutDir)
    → delete_layout slug d ≡ (e, ok fallback)
    → Removed slug fallback d e
unfolding delete_layout
delete_layout-Removed slug fallback d e r =
    go (first_slug (remove (read_meta d).0.display_name_by_slug slug)) refl
  where
    go :
        (first : Result Text)
        → first_slug (remove (read_meta d).0.display_name_by_slug slug) ≡ first
        → Removed slug fallback d e
    go (raised error) q = let bad : false ≡ true = ground (arith, r, q) in cc
    go (ok other) q = record {
      registry = record {
        display_name_by_slug = remove (read_meta d).0.display_name_by_slug slug;
        last_active_slug =
            if slug_is (read_meta d).0.last_active_slug slug
            then some fallback
            else (read_meta d).0.last_active_slug;
      };
      known = ground (arith, r, q);
      names = refl;
      files = ground (arith, r, q);
      next = ground (arith, r, q);
      active = refl;
    }

-- A deletion that succeeds removes the slug: saving to it and deleting it again are refused as not
-- found, nothing changed, so a late save does not bring it back. The fallback is another slug, which is
-- registered. The slug itself is neither shown nor read any more, and what is shown and read of every
-- other slug is as before.
pub delete_layout-gone :
    (slug fallback other : Text) (content : String) (d e : LayoutDir)
    → delete_layout slug d ≡ (e, ok fallback)
    → (write_layout_content slug content e ≡ (e, raised (not_found slug)))
      × (delete_layout slug e ≡ (e, raised (not_found slug)))
      × (text_beq slug fallback ≡ false)
      × (is_registered fallback (read_meta e).0 ≡ true)
      × ((get_layout_display_name other e).1 ≡ (
          if text_beq slug other
          then raised (not_found other)
          else (get_layout_display_name other d).1))
      × ((read_layout_content other e).1 ≡ (
          if text_beq slug other
          then raised (not_found other)
          else (read_layout_content other d).1))
unfolding get_layout_display_name read_layout_content write_layout_content delete_layout
delete_layout-gone slug fallback other content d e r =
    let w = delete_layout-Removed slug fallback d e r in
    let before = (read_meta d).0.display_name_by_slug in
    let k = read_meta-known w.registry e w.known in
    let names = ap (λ (p : Meta × LayoutDir). p.0.display_name_by_slug) k ∙ w.names in
    let own = text_beq_iff slug slug in
    let gone : is_registered slug w.registry ≡ false =
      ground (arith, w.names, has-remove before slug slug, own) in
    let kept = first_slug-has (remove before slug) fallback w.next in
    (
      ground (arith, k, gone),
      ground (arith, k, gone),
      ground (arith, kept, has-remove before slug fallback),
      ground (arith, kept, names),
      ground (arith, k, w.names, get-remove before slug other),
      ground (
        arith,
        k,
        w.names,
        w.files,
        has-remove before slug other,
        get-remove (read_meta d).1.contents slug other,
      ),
    )
