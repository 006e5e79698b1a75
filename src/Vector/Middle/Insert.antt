-- ===== src/Vector/Middle/Insert.antt =====
-- `vector_insert`, up to and at the end.
use pi_296_cluster.Prelude.{
  ℕ, suc, ◌+◌, ◌-◌, ◌^◌, ◌≤◌, ◌<◌, ◌≡◌, sym, ◌∙◌, List, arith, ltb, Bool-cases, inl, inr, true, leb,
  if◌then◌else◌, length, take, set, insert_idx, length-set, take-set_self, ok,
}
use pi_296_cluster.Vector.{Vector, Slot, insert, add_size, move_up}
use pi_296_cluster.Vector.Valid.{IsValid, contents}
use pi_296_cluster.Vector.Ends.{make_room, make_room-Reserved, store-ok}
use pi_296_cluster.Vector.Middle.Moves.{length-move_up, take-move_up, insert_idx-end}

module _ {A : Type 0} where
  -- What the memmove leaves: the block as it was if the position is the end.
  abbrev opened : Vector A → ℕ → List (Slot A)
  opened w i = if ltb i w.size then move_up i (w.size - i) w.array else w.array

  insert-run :
      (v w : Vector A) (i : ℕ) (x : Slot A)
      → make_room v (add_size v.size 1) ≡ ok w
      → i ≤ w.size
      → w.size < length w.array
      → suc w.size < 2 ^ 64
      → insert v i x
        ≡ ok (record w { array = set (opened w i) i (w.copy_constructor x); size = suc w.size })
  unfolding insert
  insert-run v w i x runs h inside bound =
      let one : add_size w.size 1 ≡ suc w.size = omega arith in
      let fits : leb (w.size + 1) (length w.array) ≡ true = ground arith in
      elim (Bool-cases (ltb i w.size)) [
        | inl before ↦ rw (
          runs,
          before,
          fits,
          store-ok (move_up i (w.size - i) w.array) i (w.copy_constructor x)
              (omega (arith, length-move_up i (w.size - i) w.array)),
          one,
        )
        | inr at_end ↦
            rw (runs, at_end, store-ok w.array i (w.copy_constructor x) (omega arith), one)
      ]

  length-opened : (w : Vector A) (i : ℕ) → length (opened w i) ≡ length w.array
  length-opened w i = ground (arith, length-move_up i (w.size - i) w.array)

  take-opened :
      (w : Vector A) (i : ℕ) (y : Slot A)
      → i ≤ w.size
      → w.size < length w.array
      → take (suc w.size) (set (opened w i) i y) ≡ insert_idx (contents w) i y
  take-opened w i y h inside = elim (Bool-cases (ltb i w.size)) [
    | inl before ↦ rw before (take-move_up i (w.size - i) w.size w.array y (omega arith) inside)
    | inr at_end ↦
        let same : i ≡ w.size = ground arith in
        rw (at_end, same)
          (take-set_self w.size w.array y inside
            ∙ sym (insert_idx-end w.size w.array y (omega arith)))
  ]

  -- On a valid vector of fewer than 2 ^ 60 slots `vector_insert` at a position up to the end does
  -- not fault, keeps the vector valid, and puts the copy of the element at that position, with the
  -- slots from there on one further.
  pub insert-insert_idx :
      (v : Vector A) (i : ℕ) (x : Slot A)
      → IsValid v
      → i ≤ v.size
      → v.size < 2 ^ 60
      → (w : Vector A) × (insert v i x ≡ ok w)
        × IsValid w
        × (contents w ≡ insert_idx (contents v) i (v.copy_constructor x))
  insert-insert_idx v i x valid h bound =
      let (w, runs, r) = make_room-Reserved v (add_size v.size 1) valid (omega arith) in
      let inside : w.size < length w.array = omega (arith, r.valid, r.room, r.same_size) in
      let reach : i ≤ w.size = omega (arith, r.same_size) in
      (
        record w { array = set (opened w i) i (w.copy_constructor x); size = suc w.size },
        insert-run v w i x runs reach inside (omega (arith, r.same_size)),
        record {
          block =
              omega (
                arith,
                r.valid,
                length-set (opened w i) i (w.copy_constructor x),
                length-opened w i,
              );
          fits = omega (arith, r.valid);
          small = r.valid.small;
        },
        take-opened w i (w.copy_constructor x) reach inside
            ∙ ground (arith, r.same_contents, r.same_copy),
      )
