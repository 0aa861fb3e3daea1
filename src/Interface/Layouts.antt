-- ===== src/Interface/Layouts.antt =====
-- Named layouts: apps/system_interface/imbue/system_interface/workspace_layouts.py. A directory is a
-- record of its files; a file's JSON is kept parsed, with a constructor for what does not parse.
pub mod Slugs
pub mod Deletion
pub mod Registered
mod Examples
use forever_claude_template.Base.{
  Bool, true, false, ◌&&◌, not, Option, none, some, is_some, List, [], ◌∷◌, if◌then◌else◌, Dict,
  get, has, put, remove, Text, text_beq, code_eq, String,
}
use forever_claude_template.Interface.Layouts.Slugs.{slug_of_lowered}

-- A saved layout, or a file whose text is no JSON object.
pub data ContentFile : Type 0 where
  saved : String → ContentFile
  unreadable : ContentFile

pub record Meta : Type 0 where
  pub display_name_by_slug : Dict Text Text
  pub last_active_slug : Option Text

-- `meta` is `none` where the meta file is missing or is not a registry.
pub record LayoutDir : Type 0 where
  pub meta : Option Meta
  pub contents : Dict Text ContentFile
  pub legacy : Option ContentFile
  pub migrated_legacy : Option ContentFile

pub data LayoutError : Type 0 where
  name_error : LayoutError
  conflict : Text → LayoutError
  not_found : Text → LayoutError
  last_layout_deletion : LayoutError
  stop_iteration : LayoutError

pub data Result {ℓ} (A : Type ℓ) : Type ℓ where
  ok : A → Result A
  raised : LayoutError → Result A

-- "desktop" and "mobile"
abbrev pub desktop_layout_slug : Text
desktop_layout_slug = b'd' ∷ b'e' ∷ b's' ∷ b'k' ∷ b't' ∷ b'o' ∷ b'p' ∷ []

abbrev pub mobile_layout_slug : Text
mobile_layout_slug = b'm' ∷ b'o' ∷ b'b' ∷ b'i' ∷ b'l' ∷ b'e' ∷ []

abbrev pub default_meta : Meta
default_meta = record {
  display_name_by_slug =
      (desktop_layout_slug, desktop_layout_slug) ∷ (mobile_layout_slug, mobile_layout_slug) ∷ [];
  last_active_slug = some desktop_layout_slug;
}

-- A legacy file is moved aside; its content is taken over unless desktop has one.
unfoldable pub migrate_legacy_layout : LayoutDir → LayoutDir
migrate_legacy_layout d = elim d.legacy [
  | none ↦ d
  | some content ↦ record d {
    contents =
        if has d.contents desktop_layout_slug
        then d.contents
        else put d.contents desktop_layout_slug content;
    legacy = none;
    migrated_legacy = some content;
  }
]

abbrev pub write_meta : Meta → LayoutDir → LayoutDir
write_meta m d = record d { meta = some m }

unfoldable pub read_meta : LayoutDir → Meta × LayoutDir
unfolding migrate_legacy_layout
read_meta d = elim d.meta [
  | some m ↦ (m, d)
  | none ↦ (default_meta, write_meta default_meta (migrate_legacy_layout d))
]

abbrev pub is_registered : Text → Meta → Bool
is_registered slug m = has m.display_name_by_slug slug

pub record LayoutInfo : Type 0 where
  pub slug : Text
  pub display_name : Text
  pub has_content : Bool

unfoldable pub infos : Dict Text Text → Dict Text ContentFile → List LayoutInfo
infos [] contents = []
infos ((slug, name) ∷ names) contents =
    record { slug = slug; display_name = name; has_content = has contents slug }
    ∷ infos names contents

unfoldable pub list_layouts : LayoutDir → LayoutDir × List LayoutInfo
unfolding read_meta infos
list_layouts d = let (m, e) = read_meta d in (e, infos m.display_name_by_slug e.contents)

-- `next(iter(names))`
abbrev pub first_slug : Dict Text Text → Result Text
first_slug [] = raised stop_iteration
first_slug ((slug, name) ∷ names) = ok slug

abbrev pub slug_is : Option Text → Text → Bool
slug_is none slug = false
slug_is (some last) slug = text_beq last slug

abbrev pub active_or_first : Option Text → Dict Text Text → Result Text
active_or_first none names = first_slug names
active_or_first (some last) names = if has names last then ok last else first_slug names

unfoldable pub get_last_active_slug : LayoutDir → LayoutDir × Result Text
unfolding read_meta
get_last_active_slug d =
    let (m, e) = read_meta d in (e, active_or_first m.last_active_slug m.display_name_by_slug)

unfoldable pub set_last_active_slug : Text → LayoutDir → LayoutDir
unfolding read_meta
set_last_active_slug slug d =
    let (m, e) = read_meta d in
    if not (is_registered slug m)
    then e
    else if slug_is m.last_active_slug slug
    then e
    else write_meta (record m { last_active_slug = some slug }) e

abbrev pub found : Text → Option Text → Result Text
found slug none = raised (not_found slug)
found slug (some name) = ok name

unfoldable pub get_layout_display_name : Text → LayoutDir → LayoutDir × Result Text
unfolding read_meta
get_layout_display_name slug d =
    let (m, e) = read_meta d in (e, found slug (get m.display_name_by_slug slug))

abbrev pub readable : Option ContentFile → Option String
readable none = none
readable (some unreadable) = none
readable (some (saved content)) = some content

unfoldable pub read_layout_content : Text → LayoutDir → LayoutDir × Result (Option String)
unfolding read_meta
read_layout_content slug d =
    let (m, e) = read_meta d in
    if not (is_registered slug m)
    then (e, raised (not_found slug))
    else (e, ok (readable (get e.contents slug)))

unfoldable pub write_layout_content : Text → String → LayoutDir → LayoutDir × Result (Unit {0})
unfolding read_meta
write_layout_content slug content d =
    let (m, e) = read_meta d in
    if not (is_registered slug m) then (e, raised (not_found slug)) else (
      write_meta (record m { last_active_slug = some slug })
          (record e { contents = put e.contents slug (saved content) }),
      ok tt,
    )

abbrev pub has_one_at_most : Dict Text Text → Bool
has_one_at_most (entry ∷ other ∷ names) = false
has_one_at_most _ = true

unfoldable pub delete_layout : Text → LayoutDir → LayoutDir × Result Text
unfolding read_meta
delete_layout slug d =
    let (m, e) = read_meta d in
    let names = remove m.display_name_by_slug slug in
    if not (is_registered slug m)
    then (e, raised (not_found slug))
    else if has_one_at_most m.display_name_by_slug
    then (e, raised last_layout_deletion)
    else elim (first_slug names) [
      | raised error ↦ (e, raised error)
      | ok fallback ↦ (
        write_meta
            (record {
              display_name_by_slug = names;
              last_active_slug =
                  if slug_is m.last_active_slug slug then some fallback else m.last_active_slug;
            })
            (record e { contents = remove e.contents slug }),
        ok fallback,
      )
    ]

-- `strip_lower` is Python's `display_name.strip().lower()`.
module _ (strip_lower : Text → Text) where
  abbrev pub slugify_layout_name : Text → Option Text
  slugify_layout_name display_name = slug_of_lowered (strip_lower display_name)

  unfoldable pub resolve_layout_slug : Text → LayoutDir → LayoutDir × Result Text
  unfolding read_meta
  resolve_layout_slug name_or_slug d = elim (slugify_layout_name name_or_slug) [
    | none ↦ (d, raised name_error)
    | some slug ↦
        let (m, e) = read_meta d in
        if not (is_registered slug m) then (e, raised (not_found slug)) else (e, ok slug)
  ]

  abbrev pub registered_as : Text → Text → Option Text → Meta → LayoutDir → LayoutDir × Result Text
  registered_as slug display_name none m d = (
    write_meta (record m { display_name_by_slug = put m.display_name_by_slug slug display_name }) d,
    ok slug,
  )
  registered_as slug display_name (some existing) m d =
      if text_beq existing display_name then (d, ok slug) else (d, raised (conflict existing))

  unfoldable pub register_layout : Text → LayoutDir → LayoutDir × Result Text
  unfolding read_meta
  register_layout display_name d = elim (slugify_layout_name display_name) [
    | none ↦ (d, raised name_error)
    | some slug ↦
        let (m, e) = read_meta d in
        registered_as slug display_name (get m.display_name_by_slug slug) m e
  ]
