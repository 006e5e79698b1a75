-- ===== src/Master/Heartbeat/Erasing.antt =====
-- Erasing a vector from the front by counting up.
use pi_296_cluster.Prelude.{
  ℕ, zero, suc, ◌+◌, ◌^◌, ◌<◌, ◌≡◌, ◌∙◌, refl, inl, inr, List, arith, ltb, ltb→lt, Bool-cases, ok,
  fault,
}
use pi_296_cluster.Vector.{Vector, Slot, erase}
use pi_296_cluster.Vector.Valid.{IsValid}
use pi_296_cluster.Vector.Middle.Erase.{erase-Erased, erase_past_end}
use pi_296_cluster.Master.Heartbeat.{erase_loop, erase_all}

module _ {A : Type 0} where
  erase_loop-past_end :
      (rounds i : ℕ) (v : Vector A) → erase v i ≡ fault → erase_loop (suc rounds) i v ≡ fault
  unfolding erase_loop
  erase_loop-past_end rounds i v e = rw e

  erase_loop-on :
      (rounds i : ℕ) (v w : Vector A) {gone : List (Slot A)}
      → erase v i ≡ ok (w, gone)
      → erase_loop (suc rounds) i v ≡ erase_loop rounds (i + 1) w
  unfolding erase_loop
  erase_loop-on rounds i v w e = rw e

  erase_loop-fault :
      (rounds i : ℕ) (v : Vector A)
      → IsValid v
      → v.size ≡ suc rounds
      → 0 < i
      → i + rounds < 2 ^ 63
      → erase_loop (suc rounds) i v ≡ fault
  erase_loop-fault zero i v valid e pos bound =
      erase_loop-past_end zero i v (erase_past_end v i valid (omega arith) (omega arith))
  erase_loop-fault (suc rounds) i v valid e pos bound = elim (Bool-cases (ltb i v.size)) [
    | inr outside ↦
        erase_loop-past_end (suc rounds) i v (erase_past_end v i valid (ground arith) (omega arith))
    | inl inside ↦
        let (w, x, r) = erase-Erased v i valid (ltb→lt i v.size inside) in
        erase_loop-on (suc rounds) i v w r.runs
        ∙ erase_loop-fault rounds (i + 1) w r.valid (omega (arith, r.shorter)) (omega arith)
            (omega arith)
  ]

  -- The loop at the end of `reschedule` is undefined behaviour for a valid vector of two tasks or more:
  -- its index grows while the vector shrinks, so it erases past the end.
  pub erase_all-fault : (v : Vector A) → IsValid v → 1 < v.size → erase_all v ≡ fault
  unfolding erase_all
  erase_all-fault v valid two = by_size v.size refl
    where
      by_size : (n : ℕ) → v.size ≡ n → erase_loop n 0 v ≡ fault
      by_size zero e = absurd (omega arith)
      by_size (suc zero) e = absurd (omega arith)
      by_size (suc (suc n)) e =
          let (w, x, r) = erase-Erased v 0 valid (omega arith) in
          erase_loop-on (suc n) 0 v w r.runs
          ∙ erase_loop-fault n 1 w r.valid (omega (arith, r.shorter)) (omega arith)
              (omega (arith, valid))
