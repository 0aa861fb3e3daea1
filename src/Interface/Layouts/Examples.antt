-- ===== src/Interface/Layouts/Examples.antt =====
-- Concrete layouts and terminal names of apps/system_interface.
use forever_claude_template.Base.{
  ℕ, zero, suc, ◌≤◌, ◌<◌, ◌≡◌, refl, ap, true, false, none, some, List, [], ◌∷◌, arith, get, has,
  remove, Text, text_beq, code_eq, in_names,
}
use forever_claude_template.Interface.Layouts.{
  LayoutDir, ok, raised, conflict, not_found, read_meta, is_registered, register_layout,
  get_layout_display_name, read_layout_content, write_layout_content, get_last_active_slug,
  delete_layout, mobile_layout_slug, desktop_layout_slug,
}
use forever_claude_template.Interface.Layouts.Slugs.{
  slug_of_lowered, is_words, word_chars, slug_of_lowered-is_words, dashed, left_stripped,
  right_stripped,
}
use forever_claude_template.Interface.Layouts.Registered.{
  IsNamed, register_layout-IsNamed, write_layout_content-read,
}
use forever_claude_template.Interface.Layouts.Deletion.{delete_layout-gone}
use forever_claude_template.Interface.Terminals.{
  TerminalSessionInfo, terminal_name, allocate_next_terminal_name,
}
use forever_claude_template.Interface.Terminals.Allocation.{allocate_next_terminal_name-least}

abbrev new_dir : LayoutDir
new_dir = record { meta = none; contents = []; legacy = none; migrated_legacy = none }

-- "a b", "a_b" and their slug "a-b"
abbrev spaced : Text
spaced = 97 ∷ 32 ∷ 98 ∷ []

abbrev underscored : Text
underscored = 97 ∷ 95 ∷ 98 ∷ []

abbrev joined : Text
joined = 97 ∷ 45 ∷ 98 ∷ []

abbrev same_text : Text → Text
same_text t = t

slug_of_lowered-is_words_example :
    (is_words true joined ≡ true) × (word_chars joined ≡ word_chars spaced)
unfolding slug_of_lowered dashed left_stripped right_stripped
slug_of_lowered-is_words_example = slug_of_lowered-is_words spaced joined refl

abbrev registered_dir : LayoutDir
registered_dir = (register_layout same_text spaced new_dir).0

register_layout-IsNamed_example :
    (is_words true joined ≡ true)
    × IsNamed same_text spaced joined registered_dir
    × (register_layout same_text underscored registered_dir
        ≡ (registered_dir, raised (conflict spaced)))
    × ((get_layout_display_name mobile_layout_slug registered_dir).1
        ≡ (get_layout_display_name mobile_layout_slug new_dir).1)
unfolding slug_of_lowered dashed left_stripped right_stripped register_layout read_meta get text_beq
register_layout-IsNamed_example =
    register_layout-IsNamed same_text spaced joined underscored mobile_layout_slug new_dir
      registered_dir refl refl

write_layout_content-read_example :
    ((write_layout_content mobile_layout_slug "{}" new_dir).1 ≡ ok tt)
    × ((read_layout_content mobile_layout_slug
          (write_layout_content mobile_layout_slug "{}" new_dir).0).1
        ≡ ok (some "{}"))
    × ((get_last_active_slug (write_layout_content mobile_layout_slug "{}" new_dir).0).1
        ≡ ok mobile_layout_slug)
unfolding read_meta has text_beq
write_layout_content-read_example =
    write_layout_content-read mobile_layout_slug mobile_layout_slug "{}" new_dir

abbrev deleted_dir : LayoutDir
deleted_dir = (delete_layout mobile_layout_slug new_dir).0

delete_layout-gone_example :
    (write_layout_content mobile_layout_slug "{}" deleted_dir
      ≡ (deleted_dir, raised (not_found mobile_layout_slug)))
    × (delete_layout mobile_layout_slug deleted_dir
        ≡ (deleted_dir, raised (not_found mobile_layout_slug)))
    × (text_beq mobile_layout_slug desktop_layout_slug ≡ false)
    × (is_registered desktop_layout_slug (read_meta deleted_dir).0 ≡ true)
    × ((get_layout_display_name desktop_layout_slug deleted_dir).1
        ≡ (get_layout_display_name desktop_layout_slug new_dir).1)
    × ((read_layout_content desktop_layout_slug deleted_dir).1
        ≡ (read_layout_content desktop_layout_slug new_dir).1)
unfolding delete_layout read_meta has remove text_beq
delete_layout-gone_example =
    delete_layout-gone mobile_layout_slug desktop_layout_slug desktop_layout_slug "{}" new_dir
      deleted_dir refl

-- A number written as that many strokes.
tally : ℕ → Text
tally zero = []
tally (suc n) = 49 ∷ tally n

tally_injective : (i j : ℕ) → tally i ≡ tally j → i ≡ j
unfolding tally
tally_injective zero zero h = refl
tally_injective zero (suc j) h = ground (arith, h)
tally_injective (suc i) zero h = ground (arith, h)
tally_injective (suc i) (suc j) h = ap suc (tally_injective i j (ground (arith, h)))

allocate_next_terminal_name-least_example :
    (index : ℕ) × (allocate_next_terminal_name tally
        (terminal_name tally 1 ∷ terminal_name tally 3 ∷ [])
      ≡ some (terminal_name tally index))
    × (1 ≤ index)
    × (in_names (terminal_name tally index) (terminal_name tally 1 ∷ terminal_name tally 3 ∷ [])
        ≡ false)
    × ((j : ℕ)
        → 1 ≤ j
        → j < index
        → in_names (terminal_name tally j) (terminal_name tally 1 ∷ terminal_name tally 3 ∷ [])
          ≡ true)
allocate_next_terminal_name-least_example =
    allocate_next_terminal_name-least tally (terminal_name tally 1 ∷ terminal_name tally 3 ∷ [])
      tally_injective

abbrev sessions : List TerminalSessionInfo
sessions =
    record { session_name = 109 ∷ 45 ∷ 97 ∷ []; session_id = []; cwd = [] }
    ∷ record { session_name = 116 ∷ []; session_id = []; cwd = [] }
    ∷ []
