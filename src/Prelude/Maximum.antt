-- ===== src/Prelude/Maximum.antt =====
-- Python's `max(xs, key=key)` on a list that is not empty: the first of the greatest elements.
use Prim.Native.Nat.{ℕ, ◌≤◌}
use mathlib.Core.Path.{◌≡◌, refl, ◌∙◌}
use mathlib.Core.Logic.{◌⊎◌, inl, inr}
use mathlib.Core.List.{List, [], ◌∷◌}
use native.Mathlib.Omega.{arith}
use cow_solver_skeleton.Prelude.Tests.{ltb, if◌then◌else◌}
use cow_solver_skeleton.Prelude.Lists.{All, In}

module _ {A : Type 0} (key : A → ℕ) where
  abbrev greater : A → A → A
  greater best x = if ltb (key best) (key x) then x else best

  unfoldable pub max_by : A → List A → A
  max_by best [] = best
  max_by best (x ∷ xs) = max_by (greater best x) xs

  greater-cases : (best x : A) → (greater best x ≡ best) ⊎ (greater best x ≡ x)
  greater-cases best x = ground arith

  greater-le : (best x : A) → (key best ≤ key (greater best x)) × (key x ≤ key (greater best x))
  greater-le best x = ground arith

  pub max_by-In : (best : A) (xs : List A) → In (max_by best xs) (best ∷ xs)
  unfolding max_by
  max_by-In best [] = inl refl
  max_by-In best (x ∷ xs) = elim (max_by-In (greater best x) xs) [
    | inr m ↦ inr (inr m)
    | inl e ↦ elim (greater-cases best x) [ inl f ↦ inl (e ∙ f) | inr f ↦ inr (inl (e ∙ f)) ]
  ]

  pub le-max_by : (best : A) (xs : List A) → All (λ x. key x ≤ key (max_by best xs)) (best ∷ xs)
  unfolding max_by
  le-max_by best [] = (omega arith, tt)
  le-max_by best (x ∷ xs) =
      let (over, rest) = le-max_by (greater best x) xs in
      (omega (arith, greater-le best x, over), (omega (arith, greater-le best x, over), rest))

-- Python's `min(xs, key=key)` likewise.
module _ {A : Type 0} (key : A → ℕ) where
  abbrev smaller : A → A → A
  smaller best x = if ltb (key x) (key best) then x else best

  unfoldable pub min_by : A → List A → A
  min_by best [] = best
  min_by best (x ∷ xs) = min_by (smaller best x) xs

  smaller-cases : (best x : A) → (smaller best x ≡ best) ⊎ (smaller best x ≡ x)
  smaller-cases best x = ground arith

  smaller-le : (best x : A) → (key (smaller best x) ≤ key best) × (key (smaller best x) ≤ key x)
  smaller-le best x = ground arith

  pub min_by-In : (best : A) (xs : List A) → In (min_by best xs) (best ∷ xs)
  unfolding min_by
  min_by-In best [] = inl refl
  min_by-In best (x ∷ xs) = elim (min_by-In (smaller best x) xs) [
    | inr m ↦ inr (inr m)
    | inl e ↦ elim (smaller-cases best x) [ inl f ↦ inl (e ∙ f) | inr f ↦ inr (inl (e ∙ f)) ]
  ]

  pub min_by-le : (best : A) (xs : List A) → All (λ x. key (min_by best xs) ≤ key x) (best ∷ xs)
  unfolding min_by
  min_by-le best [] = (omega arith, tt)
  min_by-le best (x ∷ xs) =
      let (under, rest) = min_by-le (smaller best x) xs in
      (omega (arith, smaller-le best x, under), (omega (arith, smaller-le best x, under), rest))
