-- ===== src/Base/Fresh.antt =====
-- The loop `while name(index) in names: index += 1`, on fuel.
use Prim.Native.Nat.{ℕ, zero, suc, ◌≤◌, ◌<◌}
use mathlib.Core.Path.{◌≡◌, refl}
use mathlib.Core.Bool.{Bool, true, false, ◌||◌}
use mathlib.Core.Logic.{inl, inr}
use mathlib.Core.Option.{Option, none, some}
use mathlib.Core.List.{List, [], ◌∷◌}
use native.Mathlib.Omega.{arith}
use forever_claude_template.Base.Tests.{◌==◌, if◌then◌else◌, Bool-cases}
use forever_claude_template.Base.Lists.{length}
use forever_claude_template.Base.Assoc.{Eq}

module _ {κ} {K : Type κ} ⦃e : Eq K⦄ where
  unfoldable pub in_names : K → List K → Bool
  in_names k [] = false
  in_names k (j ∷ js) = e.beq j k || in_names k js

  unfoldable pub first_free : (ℕ → K) → ℕ → ℕ → List K → Option ℕ
  unfolding in_names
  first_free name zero index names = none
  first_free name (suc fuel) index names =
      let rest = first_free name fuel (suc index) names in
      if in_names (name index) names then rest else some index

  without_name : K → List K → List K
  without_name k [] = []
  without_name k (j ∷ js) = let rest = without_name k js in if e.beq j k then rest else j ∷ rest

  in_names-without :
      (k j : K) (js : List K) → e.beq j k ≡ false → in_names k (without_name j js) ≡ in_names k js
  unfolding in_names without_name
  in_names-without k j [] h = refl
  in_names-without k j (i ∷ js) h =
      ground (arith, in_names-without k j js, e.beq_iff i j, e.beq_iff i k, e.beq_iff j k)

  length-without_le : (k : K) (js : List K) → length (without_name k js) ≤ length js
  unfolding without_name
  length-without_le k [] = omega arith
  length-without_le k (j ∷ js) = ground (arith, length-without_le k js)

  length-without :
      (k : K) (js : List K) → in_names k js ≡ true → length (without_name k js) < length js
  unfolding in_names without_name
  length-without k [] h = ground arith
  length-without k (j ∷ js) h = ground (arith, length-without k js, length-without_le k js)

  abbrev pub IsInjective : (ℕ → K) → Type 0
  IsInjective name = (i j : ℕ) → e.beq (name i) (name j) ≡ true → i ≡ j

  differ : (name : ℕ → K) (i j : ℕ) → IsInjective name → j < i → e.beq (name j) (name i) ≡ false
  differ name i j h l = elim (Bool-cases (e.beq (name j) (name i))) [
    | inl b ↦ let bad = h j i b in ground arith
    | inr b ↦ b
  ]

  first_free-without :
      (name : ℕ → K) (fuel index j : ℕ) (names : List K)
      → IsInjective name
      → j < index
      → first_free name fuel index (without_name (name j) names) ≡ first_free name fuel index names
  unfolding first_free
  first_free-without name zero index j names h l = refl
  first_free-without name (suc fuel) index j names h l = ground (
    arith,
    first_free-without name fuel (suc index) j names h (omega (arith, l)),
    in_names-without (name index) (name j) names (differ name index j h l),
  )

  -- One round more than there are names is enough, where the names of the indices differ.
  pub first_free-total :
      (name : ℕ → K) (fuel index : ℕ) (names : List K)
      → IsInjective name
      → length names < fuel
      → (i : ℕ) × (first_free name fuel index names ≡ some i)
  unfolding first_free
  first_free-total name zero index names h l = ground arith
  first_free-total name (suc fuel) index names h l =
      elim (Bool-cases (in_names (name index) names)) [
        | inl b ↦
            let rest =
              first_free-total name fuel (suc index) (without_name (name index) names) h
                (omega (arith, l, length-without (name index) names b)) in
            let same = first_free-without name fuel (suc index) index names h (omega arith) in
            (rest.0, ground (arith, b, rest.1, same))
        | inr b ↦ (index, ground (arith, b))
      ]

  pub first_free-least :
      (name : ℕ → K) (fuel index i : ℕ) (names : List K)
      → first_free name fuel index names ≡ some i
      → (index ≤ i)
        × (in_names (name i) names ≡ false)
        × ((j : ℕ) → index ≤ j → j < i → in_names (name j) names ≡ true)
  unfolding first_free
  first_free-least name zero index i names h = let bad : false ≡ true = ground (arith, h) in cc
  first_free-least name (suc fuel) index i names h =
      elim (Bool-cases (in_names (name index) names)) [
        | inl b ↦
            let rest = first_free-least name fuel (suc index) i names (ground (arith, h, b)) in
            (
              omega (arith, rest.0),
              rest.1,
              λ j l u. elim (Bool-cases (index == j)) [
                | inl same ↦ let eq : index ≡ j = ground arith in cc
                | inr other ↦ rest.2 j (ground arith) u
              ],
            )
        | inr b ↦
            let same : index ≡ i = ground (arith, h, b) in (ground arith, cc, λ j l u. ground arith)
      ]
