-- ===== src/Prelude/Places.antt =====
-- A list with one place written.
use Prim.Native.Nat.{ℕ, zero, suc, ◌+◌, ◌<◌}
use native.Mathlib.Omega.{arith}
use mathlib.Core.Path.{◌≡◌, refl, ap}
use mathlib.Core.Logic.{◌≢◌}
use mathlib.Core.Option.{some}
use mathlib.Core.List.{List, [], ◌∷◌}
use pi_296_cluster.Prelude.Lists.{get_elem?, set, erase_idx, length}

module _ {ℓ} {A : Type ℓ} where
  pub get_elem?-set_same :
      (xs : List A) (i : ℕ) (x y : A) → get_elem? xs i ≡ some x → get_elem? (set xs i y) i ≡ some y
  get_elem?-set_same [] i x y e = cc
  get_elem?-set_same (z ∷ xs) zero x y e = refl
  get_elem?-set_same (z ∷ xs) (suc i) x y e = get_elem?-set_same xs i x y e

  pub set-set : (xs : List A) (i : ℕ) (x y : A) → set (set xs i x) i y ≡ set xs i y
  set-set [] i x y = refl
  set-set (z ∷ xs) zero x y = refl
  set-set (z ∷ xs) (suc i) x y = ap (◌∷◌ z) (set-set xs i x y)

  pub get_elem?-set_other :
      (xs : List A) (i j : ℕ) (y : A) → i ≢ j → get_elem? (set xs i y) j ≡ get_elem? xs j
  get_elem?-set_other [] i j y apart = refl
  get_elem?-set_other (z ∷ xs) zero zero y apart = absurd (apart refl)
  get_elem?-set_other (z ∷ xs) zero (suc j) y apart = refl
  get_elem?-set_other (z ∷ xs) (suc i) zero y apart = refl
  get_elem?-set_other (z ∷ xs) (suc i) (suc j) y apart =
      get_elem?-set_other xs i j y (λ same. apart (ap suc same))

  pub length-erase_idx :
      (xs : List A) (i : ℕ) → i < length xs → length (erase_idx xs i) + 1 ≡ length xs
  length-erase_idx [] i h = absurd (omega (arith, h))
  length-erase_idx (x ∷ xs) zero h = omega arith
  length-erase_idx (x ∷ xs) (suc i) h =
      let rest = length-erase_idx xs i (omega (arith, h)) in omega (arith, rest)
