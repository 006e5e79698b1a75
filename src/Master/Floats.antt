-- ===== src/Master/Floats.antt =====
-- What the master uses of C's `double`. Of the arithmetic nothing is assumed; `<` is irreflexive and
-- transitive, as IEEE 754 says also where an operand is not a number.
use pi_296_cluster.Prelude.{ℕ, ◌≡◌, Bool, true, false, Bool-cases, inl, inr}

pub record Double : Type 1 where
  pub D : Type 0
  pub of_ℕ : ℕ → D
  pub neg_one : D
  pub add : D → D → D
  pub sub : D → D → D
  pub mul : D → D → D
  pub lt : D → D → Bool
  pub lt_irrefl : (a : D) → lt a a ≡ false
  pub lt_trans : (a b c : D) → lt a b ≡ true → lt b c ≡ true → lt a c ≡ true

module _ (F : Double) where
  pub lt_asymm : (a b : F.D) → F.lt a b ≡ true → F.lt b a ≡ false
  lt_asymm a b h = elim (Bool-cases (F.lt b a)) [
    | inr not_less ↦ not_less
    | inl less ↦ cc (F.lt_trans a b a h less, F.lt_irrefl a)
  ]

  -- What is not below `c` is not below anything below `c`.
  pub not_lt_mono : (a b c : F.D) → F.lt a c ≡ false → F.lt b c ≡ true → F.lt a b ≡ false
  not_lt_mono a b c not_below h = elim (Bool-cases (F.lt a b)) [
    | inr not_less ↦ not_less
    | inl less ↦ cc (F.lt_trans a b c less h)
  ]
