-- ===== src/Vector/Middle/Erase.antt =====
-- `vector_erase`, in range and past the end.
use pi_296_cluster.Prelude.{
  ℕ, suc, ◌+◌, ◌-◌, ◌^◌, ◌≤◌, ◌<◌, ◌≡◌, ap, sym, ◌∙◌, none, some, List, [], ◌∷◌, arith, ltb,
  Bool-cases, inl, inr, false, true, ◌==◌, leb, ltb→lt, length, take, set, get_elem?,
  get_elem?-take, get_elem?-none, length-set, take-set_le, erase_idx, ok, fault,
}
use pi_296_cluster.Vector.{Vector, Slot, erase, sub_size, load, move_down}
use pi_296_cluster.Vector.Valid.{IsValid, contents}
use pi_296_cluster.Vector.Ends.{load-ok, store-ok, pop_back-run}
use pi_296_cluster.Vector.Middle.Moves.{length-move_down, take-move_down, erase_idx-last}

module _ {A : Type 0} where
  erase-run :
      (v : Vector A) (i c n : ℕ) (x : Slot A)
      → v.size ≡ suc n
      → suc n < 2 ^ 64
      → n ≡ i + suc c
      → n < length v.array
      → load v.array i ≡ ok x
      → erase v i
        ≡ ok (
          record v { array = set (move_down i (suc c) (set v.array i none)) n none; size = n },
          x ∷ [],
        )
  unfolding erase
  erase-run v i c n x last bound split inside loads =
      let moved = length-move_down i (suc c) (set v.array i none) in
      let cleared = length-set v.array i none in
      let one : sub_size v.size 1 ≡ n = omega arith in
      let not_last : (i == n) ≡ false = ground arith in
      let count : sub_size (sub_size v.size i) 1 ≡ suc c = omega arith in
      let fits : leb (i + 1 + suc c) (length (set v.array i none)) ≡ true = ground arith in
      rw (
        one,
        not_last,
        loads,
        store-ok v.array i none (omega arith),
        count,
        fits,
        store-ok (move_down i (suc c) (set v.array i none)) n none (omega arith),
      )

  erase-run_last :
      (v : Vector A) (n : ℕ) (x : Slot A)
      → v.size ≡ suc n
      → suc n < 2 ^ 64
      → n < length v.array
      → load v.array n ≡ ok x
      → erase v n ≡ ok (record v { array = set v.array n none; size = n }, x ∷ [])
  unfolding erase
  erase-run_last v n x last bound inside loads =
      let here : (n == sub_size v.size 1) ≡ true = ground arith in
      rw here (pop_back-run v n x last bound inside loads)

  not_last : (v : Vector A) (i : ℕ) → v.size ≤ i → i + 1 < 2 ^ 64 → (i == sub_size v.size 1) ≡ false
  not_last v i h bound = ground arith

  erase_outside :
      (v : Vector A) (i : ℕ) → v.size ≤ i → i + 1 < 2 ^ 64 → length v.array ≤ i → erase v i ≡ fault
  unfolding erase
  erase_outside v i h bound outside = rw (not_last v i h bound, get_elem?-none v.array i outside)

  erase_wraps :
      (v : Vector A) (i : ℕ) (x : Slot A)
      → v.size ≤ i
      → i < length v.array
      → length v.array < 2 ^ 62
      → load v.array i ≡ ok x
      → erase v i ≡ fault
  unfolding erase
  erase_wraps v i x h inside small loads =
      let cleared = length-set v.array i none in
      let count : sub_size (sub_size v.size i) 1 ≡ 2 ^ 64 + v.size - i - 1 = omega arith in
      let wraps : leb (i + 1 + (2 ^ 64 + v.size - i - 1)) (length (set v.array i none)) ≡ false =
        ground arith in
      rw (not_last v i h (omega arith), loads, store-ok v.array i none inside, count, wraps)

  -- `w` is the valid `v` without its slot `i`, which was `x`.
  pub record Erased (v : Vector A) (i : ℕ) (w : Vector A) (x : Slot A) : Type 0 where
    pub runs : erase v i ≡ ok (w, x ∷ [])
    pub valid : IsValid w
    pub left : contents w ≡ erase_idx (contents v) i
    pub found : get_elem? (contents v) i ≡ some x
    pub shorter : suc w.size ≡ v.size

  erase-Erased_last :
      (v : Vector A) (n : ℕ)
      → IsValid v
      → v.size ≡ suc n
      → (w : Vector A) × (x : Slot A) × Erased v n w x
  erase-Erased_last v n valid last =
      let (x, loads, found) = load-ok v.array n (omega (arith, valid)) in
      (
        record v { array = set v.array n none; size = n },
        x,
        record {
          runs = erase-run_last v n x last (omega (arith, valid)) (omega (arith, valid)) loads;
          valid = record {
            block = omega (arith, valid, length-set v.array n none);
            fits = omega (arith, valid);
            small = valid.small;
          };
          left =
              take-set_le n n v.array none (omega arith)
              ∙ sym (erase_idx-last n v.array (omega (arith, valid)))
              ∙ ap (λ k. erase_idx (take k v.array) n) (sym last);
          found = get_elem?-take v.size n v.array (omega arith) ∙ found;
          shorter = sym last;
        },
      )

  erase-Erased_middle :
      (v : Vector A) (i c n : ℕ)
      → IsValid v
      → v.size ≡ suc n
      → n ≡ i + suc c
      → (w : Vector A) × (x : Slot A) × Erased v i w x
  erase-Erased_middle v i c n valid last split =
      let (x, loads, found) = load-ok v.array i (omega (arith, valid)) in
      let moved : List (Slot A) = move_down i (suc c) (set v.array i none) in
      let same : length moved ≡ length v.array =
        length-move_down i (suc c) (set v.array i none) ∙ length-set v.array i none in
      (
        record v { array = set moved n none; size = n },
        x,
        record {
          runs = erase-run v i c n x last (omega (arith, valid)) split (omega (arith, valid)) loads;
          valid = record {
            block = omega (arith, valid, length-set moved n none, same);
            fits = omega (arith, valid);
            small = valid.small;
          };
          left =
              take-set_le n n moved none (omega arith)
              ∙ take-move_down i (suc c) n v.array none split (omega (arith, valid))
              ∙ ap (λ k. erase_idx (take k v.array) i) (sym last);
          found = get_elem?-take v.size i v.array (omega arith) ∙ found;
          shorter = sym last;
        },
      )

  -- On a valid vector `vector_erase` of a position in use does not fault, keeps the vector valid,
  -- removes exactly that slot, closes the gap, and hands that slot alone to the destructor.
  pub erase-Erased :
      (v : Vector A) (i : ℕ)
      → IsValid v
      → i < v.size
      → (w : Vector A) × (x : Slot A) × Erased v i w x
  erase-Erased v i valid h = elim (Bool-cases (i == v.size - 1)) [
    | inl here ↦
        let same : i ≡ v.size - 1 = ground arith in
        rw same (erase-Erased_last v (v.size - 1) valid (omega arith))
    | inr other ↦
        erase-Erased_middle v i (v.size - 1 - i - 1) (v.size - 1) valid (omega arith) (ground arith)
  ]

  -- Past the end `vector_erase` is undefined behaviour: it reads outside the block, or its memmove
  -- is given a length that has wrapped.
  pub erase_past_end :
      (v : Vector A) (i : ℕ) → IsValid v → v.size ≤ i → i + 1 < 2 ^ 64 → erase v i ≡ fault
  erase_past_end v i valid h bound = elim (Bool-cases (ltb i (length v.array))) [
    | inr outside ↦ erase_outside v i h bound (ground arith)
    | inl inside ↦
        let (x, loads, found) = load-ok v.array i (ltb→lt i (length v.array) inside) in
        erase_wraps v i x h (ltb→lt i (length v.array) inside) (omega (arith, valid)) loads
  ]
