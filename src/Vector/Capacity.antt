-- ===== src/Vector/Capacity.antt =====
-- `get_new_capacity`: for every target from 1 to 2 ^ 63 the loop ends.
use native.Mathlib.Nat.{two-pow-succ}
use pi_296_cluster.Prelude.{
  ℕ, zero, suc, ◌*◌, ◌^◌, ◌≤◌, ◌<◌, ◌≡◌, ◌⊎◌, refl, inl, inr, arith, ltb, Bool-cases, ltb→lt,
  lt→ltb, ap, ◌∙◌, ok,
}
use pi_296_cluster.Vector.{capacity_loop, get_new_capacity, mul_size}

double_enough : (f target c : ℕ) → target ≤ c * 2 ^ suc f → target ≤ c * 2 * 2 ^ f
double_enough f target c h = omega (arith, two-pow-succ f, ap (λ (t : ℕ). c * t) (two-pow-succ f))

capacity_loop-step :
    (f target c : ℕ)
    → c < target
    → target ≤ 2 ^ 63
    → capacity_loop (suc f) target c ≡ capacity_loop f target (c * 2)
unfolding capacity_loop
capacity_loop-step f target c less small =
    let same : mul_size c 2 ≡ c * 2 = omega arith in rw (lt→ltb c target less, same)

capacity_loop-ends :
    (f target c : ℕ)
    → 0 < c
    → target ≤ 2 ^ 63
    → target ≤ c * 2 ^ f
    → (r : ℕ) × (capacity_loop (suc f) target c ≡ ok r)
      × (target ≤ r)
      × ((r ≡ c) ⊎ (r < 2 * target))
unfolding capacity_loop
capacity_loop-ends zero target c pos small enough = (c, ground arith, omega arith, inl refl)
capacity_loop-ends (suc f) target c pos small enough = elim (Bool-cases (ltb c target)) [
  | inl more ↦
      let less = ltb→lt c target more in
      let (r, runs, fits, near) =
        capacity_loop-ends f target (c * 2) (omega arith) small (double_enough f target c enough) in
      (r, capacity_loop-step (suc f) target c less small ∙ runs, fits, inr (omega arith))
  | inr done ↦ (c, rw done, ground arith, inl refl)
]

-- From any target from 1 to 2 ^ 63 the loop finds a capacity that holds it and is less than twice as
-- large.
pub get_new_capacity_lem :
    (target : ℕ)
    → 0 < target
    → target ≤ 2 ^ 63
    → (c : ℕ) × (get_new_capacity target ≡ ok c) × (target ≤ c) × (c < 2 * target)
unfolding get_new_capacity
get_new_capacity_lem target pos small =
    let (c, runs, fits, near) = capacity_loop-ends 64 target 1 (omega arith) small (omega arith) in
    (c, runs, fits, omega arith)
