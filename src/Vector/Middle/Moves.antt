-- ===== src/Vector/Middle/Moves.antt =====
-- memmove by one slot, as the lists see it.
use pi_296_cluster.Prelude.{
  ℕ, zero, suc, ◌+◌, ◌≤◌, ◌<◌, ◌≡◌, refl, ap, List, [], ◌∷◌, ◌++◌, arith, length, take, set,
  erase_idx, insert_idx,
}
use pi_296_cluster.Vector.{Slot, move_down, move_up, shift_up}

module _ {A : Type 0} where
  pub length-move_down : (i c : ℕ) (a : List (Slot A)) → length (move_down i c a) ≡ length a
  length-move_down i c [] = refl
  length-move_down zero zero (x ∷ a) = refl
  length-move_down zero (suc c) (x ∷ []) = refl
  length-move_down zero (suc c) (x ∷ y ∷ a) = ap suc (length-move_down zero c (y ∷ a))
  length-move_down (suc i) c (x ∷ a) = ap suc (length-move_down i c a)

  length-shift_up : (x : Slot A) (c : ℕ) (a : List (Slot A)) → length (shift_up x c a) ≡ length a
  length-shift_up x c [] = refl
  length-shift_up x zero (y ∷ a) = refl
  length-shift_up x (suc c) (y ∷ a) = ap suc (length-shift_up y c a)

  pub length-move_up : (i c : ℕ) (a : List (Slot A)) → length (move_up i c a) ≡ length a
  length-move_up i c [] = refl
  length-move_up zero c (x ∷ a) = ap suc (length-shift_up x c a)
  length-move_up (suc i) c (x ∷ a) = ap suc (length-move_up i c a)

  take-move_down-zero :
      (c : ℕ) (x : Slot A) (a : List (Slot A))
      → c ≤ length a
      → take c (move_down zero c (x ∷ a)) ≡ take c a
  take-move_down-zero zero x a h = refl
  take-move_down-zero (suc c) x [] h = absurd (omega arith)
  take-move_down-zero (suc c) x (y ∷ a) h = ap (◌∷◌ y) (take-move_down-zero c y a (omega arith))

  pub take-move_down :
      (i c n : ℕ) (a : List (Slot A)) (v : Slot A)
      → n ≡ i + c
      → n < length a
      → take n (move_down i c (set a i v)) ≡ erase_idx (take (suc n) a) i
  take-move_down i c n [] v e h = absurd (omega arith)
  take-move_down zero c zero (x ∷ a) v e h = refl
  take-move_down zero zero (suc n) (x ∷ a) v e h = absurd (omega arith)
  take-move_down zero (suc c) (suc n) (x ∷ []) v e h = absurd (omega arith)
  take-move_down zero (suc c) (suc n) (x ∷ y ∷ a) v e h =
      let same : n ≡ c = omega arith in
      ap (◌∷◌ y) (rw same (take-move_down-zero c y a (omega arith)))
  take-move_down (suc i) c zero (x ∷ a) v e h = absurd (omega arith)
  take-move_down (suc i) c (suc n) (x ∷ a) v e h =
      ap (◌∷◌ x) (take-move_down i c n a v (omega arith) (omega arith))

  take-shift_up :
      (c : ℕ) (x : Slot A) (a : List (Slot A))
      → c ≤ length a
      → take c (shift_up x c a) ≡ take c (x ∷ a)
  take-shift_up zero x a h = refl
  take-shift_up (suc c) x [] h = absurd (omega arith)
  take-shift_up (suc c) x (y ∷ a) h = ap (◌∷◌ x) (take-shift_up c y a (omega arith))

  pub take-move_up :
      (i c n : ℕ) (a : List (Slot A)) (v : Slot A)
      → n ≡ i + c
      → n < length a
      → take (suc n) (set (move_up i c a) i v) ≡ insert_idx (take n a) i v
  take-move_up i c n [] v e h = absurd (omega arith)
  take-move_up zero c n (x ∷ a) v e h =
      let same : n ≡ c = omega arith in ap (◌∷◌ v) (rw same (take-shift_up c x a (omega arith)))
  take-move_up (suc i) c zero (x ∷ a) v e h = absurd (omega arith)
  take-move_up (suc i) c (suc n) (x ∷ a) v e h =
      ap (◌∷◌ x) (take-move_up i c n a v (omega arith) (omega arith))

  pub erase_idx-last :
      (n : ℕ) (a : List (Slot A)) → n < length a → erase_idx (take (suc n) a) n ≡ take n a
  erase_idx-last n [] h = absurd (omega arith)
  erase_idx-last zero (x ∷ a) h = refl
  erase_idx-last (suc n) (x ∷ a) h = ap (◌∷◌ x) (erase_idx-last n a (omega arith))

  pub insert_idx-end :
      (n : ℕ) (a : List (Slot A)) (v : Slot A)
      → n ≤ length a
      → insert_idx (take n a) n v ≡ take n a ++ (v ∷ [])
  insert_idx-end zero a v h = refl
  insert_idx-end (suc n) [] v h = absurd (omega arith)
  insert_idx-end (suc n) (x ∷ a) v h = ap (◌∷◌ x) (insert_idx-end n a v (omega arith))
