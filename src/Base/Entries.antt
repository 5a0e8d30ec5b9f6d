-- ===== src/Base/Entries.antt =====
-- The entries of a dict in which no key stands twice, and its size.
use mathlib.Core.Path.{◌≡◌, refl, ap}
use mathlib.Core.Option.{Option, none, some}
use mathlib.Core.List.{List, [], ◌∷◌}
use mathlib.Core.Logic.{inl, inr}
use native.Mathlib.Omega.{arith}
use Prim.Native.Nat.{suc, ◌≤◌, ◌<◌}
use fdv.Base.Tests.{Bool-cases}
use fdv.Base.Lists.{All, length}
use fdv.Base.Equality.{HasEq, ◌==◌}
use fdv.Base.Dict.{Dict, lookup, erase, lookup-erase, Distinct}

module _ {ℓ κ} {A : Type ℓ} where
  pub All-map : {P Q : A → Type κ} (xs : List A) → ((x : A) → P x → Q x) → All P xs → All Q xs
  All-map [] f h = tt
  All-map (x ∷ xs) f h = (f x h.0, All-map xs f h.1)

module _ {ℓ κ} {K : Type ℓ} {V : Type κ} ⦃e : HasEq K⦄ where
  pub erase-Distinct : (k : K) (d : Dict K V) → Distinct d → Distinct (erase k d)
  unfolding erase
  erase-Distinct k [] h = tt
  erase-Distinct k ((j, w) ∷ d) h = elim (Bool-cases (j == k)) [
    | inl hit ↦ rw hit (erase-Distinct k d h.1)
    | inr miss ↦ rw miss (ground (arith, lookup-erase k j d, h.0), erase-Distinct k d h.1)
  ]

  -- Each entry is what its key leads to.
  abbrev pub Led : Dict K V → K × V → Type κ
  Led d x = lookup x.0 d ≡ some x.1

  Led-behind :
      (j : K) (w : V) (d : Dict K V)
      → lookup j d ≡ none
      → (x : K × V) → Led d x
      → Led ((j, w) ∷ d) x
  unfolding lookup
  Led-behind j w d h (k, v) q = ground (arith, e.same_iff j k)

  pub lookup-entry : (d : Dict K V) → Distinct d → All (Led d) d
  unfolding lookup
  lookup-entry [] h = tt
  lookup-entry ((j, w) ∷ d) h =
      (ground (arith, e.same_iff j j), All-map d (Led-behind j w d h.0) (lookup-entry d h.1))

  pub length-erase-le : (k : K) (d : Dict K V) → length (erase k d) ≤ length d
  unfolding erase
  length-erase-le k [] = omega arith
  length-erase-le k ((j, w) ∷ d) = ground (arith, length-erase-le k d)

  pub length-erase_old :
      (k : K) (d : Dict K V) {v : V} → lookup k d ≡ some v → length (erase k d) < length d
  unfolding erase lookup
  length-erase_old k [] h = cc
  length-erase_old k ((j, w) ∷ d) {v} h = elim (Bool-cases (j == k)) [
    | inl hit ↦ rw hit (omega (arith, length-erase-le k d))
    | inr miss ↦ rw miss (omega (arith, length-erase_old k d (rw miss at h)))
  ]

  length-erase_absent : (k : K) (d : Dict K V) → lookup k d ≡ none → length (erase k d) ≡ length d
  unfolding erase lookup
  length-erase_absent k [] h = refl
  length-erase_absent k ((j, w) ∷ d) h = elim (Bool-cases (j == k)) [
    | inl hit ↦ let bad : ◌≡◌ {A = Option V} (some w) none = rw hit at h in cc
    | inr miss ↦ rw miss (ap suc (length-erase_absent k d (rw miss at h)))
  ]

  pub length-erase_one :
      (k : K) (d : Dict K V) {v : V}
      → Distinct d
      → lookup k d ≡ some v
      → suc (length (erase k d)) ≡ length d
  unfolding erase lookup
  length-erase_one k [] u h = cc
  length-erase_one k ((j, w) ∷ d) {v} u h = elim (Bool-cases (j == k)) [
    | inl hit ↦ rw hit (ap suc (length-erase_absent k d (rw ((e.same_iff j k).0 hit) at u.0)))
    | inr miss ↦ rw miss (ap suc (length-erase_one k d u.1 (rw miss at h)))
  ]
