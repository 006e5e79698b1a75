-- ===== src/Prelude/Posts.antt =====
-- Postconditions of outcomes: what holds of the result if there is one.
use mathlib.Core.Path.{◌≡◌, subst}
use mathlib.Core.Bool.{Bool, true, false}
use pi_296_cluster.Prelude.Outcomes.{Outcome, ok, fault, hang, ◌>>=◌}
use pi_296_cluster.Prelude.Tests.{if◌then◌else◌}

abbrev pub Ensures {ℓ κ} : {A : Type ℓ} → (A → Type κ) → Outcome A → Type κ
Ensures P (ok a) = P a
Ensures P fault = Unit
Ensures P hang = Unit

module _ {A : Type 0} where
  pub Ensures-any : (m : Outcome A) → Ensures (λ _. Unit {0}) m
  Ensures-any (ok a) = tt
  Ensures-any fault = tt
  Ensures-any hang = tt

  pub Ensures-if :
      (P : A → Type 0) (c : Bool) (m n : Outcome A)
      → Ensures P m
      → Ensures P n
      → Ensures P (if c then m else n)
  Ensures-if P true m n h k = h
  Ensures-if P false m n h k = k

  pub Ensures-bind :
      {B : Type 0} (P : A → Type 0) (Q : B → Type 0) (m : Outcome A) (f : A → Outcome B)
      → Ensures P m
      → ((a : A) → P a → Ensures Q (f a))
      → Ensures Q (m >>= f)
  Ensures-bind P Q (ok a) f h k = k a h
  Ensures-bind P Q fault f h k = tt
  Ensures-bind P Q hang f h k = tt

  pub Ensures-weaken :
      (P Q : A → Type 0) (m : Outcome A) → ((a : A) → P a → Q a) → Ensures P m → Ensures Q m
  Ensures-weaken P Q (ok a) i h = i a h
  Ensures-weaken P Q fault i h = tt
  Ensures-weaken P Q hang i h = tt

  pub Ensures-ok : (P : A → Type 0) (m : Outcome A) (a : A) → m ≡ ok a → Ensures P m → P a
  Ensures-ok P (ok b) a e h = let same : b ≡ a = cc e in subst P same h
  Ensures-ok P fault a e h = cc
  Ensures-ok P hang a e h = cc
