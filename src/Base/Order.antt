-- ===== src/Base/Order.antt =====
-- Text as a list of code points, in Python's order of `str`.
use Prim.Native.Nat.{ℕ}
use Prim.Native.Char.{code}
use Prim.Native.String.{String}
use mathlib.Core.Path.{◌≡◌, refl}
use mathlib.Core.Bool.{Bool, true, false, ◌&&◌}
use mathlib.Core.Logic.{◌↔◌}
use mathlib.Core.List.{List, [], ◌∷◌}
use native.Mathlib.Omega.{arith}
use forever_claude_template.Base.Tests.{ltb, ◌==◌, if◌then◌else◌}
use forever_claude_template.Base.Assoc.{Eq}

abbrev pub Text : Type 0
Text = List ℕ

-- The code points of a literal.
abbrev pub codes : String → Text
codes String.[] = []
codes (String.◌∷◌ c s) = code c ∷ codes s

-- `s < t`
unfoldable pub text_ltb : Text → Text → Bool
text_ltb s [] = false
text_ltb [] (d ∷ t) = true
text_ltb (c ∷ s) (d ∷ t) =
    let rest = text_ltb s t in if ltb c d then true else if c == d then rest else false

pub text_ltb_irrefl : (s : Text) → text_ltb s s ≡ false
unfolding text_ltb
text_ltb_irrefl [] = refl
text_ltb_irrefl (c ∷ s) = ground (arith, text_ltb_irrefl s)

pub text_ltb_trans :
    (s t u : Text) → text_ltb s t ≡ true → text_ltb t u ≡ true → text_ltb s u ≡ true
unfolding text_ltb
text_ltb_trans s t [] p q = ground arith
text_ltb_trans s [] (e ∷ u) p q = ground arith
text_ltb_trans [] (d ∷ t) (e ∷ u) p q = refl
text_ltb_trans (c ∷ s) (d ∷ t) (e ∷ u) p q = ground (arith, text_ltb_trans s t u)

-- `s <= t < u` gives `s < u`, and `s < t <= u` gives `s < u`, where `<=` is `not >`.
pub text_le-ltb_trans :
    (s t u : Text) → text_ltb t s ≡ false → text_ltb t u ≡ true → text_ltb s u ≡ true
unfolding text_ltb
text_le-ltb_trans s t [] p q = ground arith
text_le-ltb_trans [] [] (e ∷ u) p q = refl
text_le-ltb_trans (c ∷ s) [] (e ∷ u) p q = ground arith
text_le-ltb_trans [] (d ∷ t) (e ∷ u) p q = refl
text_le-ltb_trans (c ∷ s) (d ∷ t) (e ∷ u) p q = ground (arith, text_le-ltb_trans s t u)

-- `max(s, t)`
abbrev pub text_max : Text → Text → Text
text_max s t = if text_ltb s t then t else s

pub text_ltb-le_trans :
    (s t u : Text) → text_ltb s t ≡ true → text_ltb u t ≡ false → text_ltb s u ≡ true
unfolding text_ltb
text_ltb-le_trans s [] u p q = ground arith
text_ltb-le_trans s (d ∷ t) [] p q = ground arith
text_ltb-le_trans [] (d ∷ t) (e ∷ u) p q = refl
text_ltb-le_trans (c ∷ s) (d ∷ t) (e ∷ u) p q = ground (arith, text_ltb-le_trans s t u)

pub text_ltb-nil : (s : Text) → text_ltb s [] ≡ false
unfolding text_ltb
text_ltb-nil [] = refl
text_ltb-nil (c ∷ s) = refl

-- `s == t`
unfoldable pub text_beq : Text → Text → Bool
text_beq [] [] = true
text_beq [] (d ∷ t) = false
text_beq (c ∷ s) [] = false
text_beq (c ∷ s) (d ∷ t) = c == d && text_beq s t

pub text_beq_iff : (s t : Text) → (text_beq s t ≡ true) ↔ (s ≡ t)
unfolding text_beq
text_beq_iff [] [] = ground arith
text_beq_iff [] (d ∷ t) = ground arith
text_beq_iff (c ∷ s) [] = ground arith
text_beq_iff (c ∷ s) (d ∷ t) = ground (arith, text_beq_iff s t)

instance abbrev pub code_eq : Eq Text
code_eq = record { beq = text_beq; beq_iff = text_beq_iff }
