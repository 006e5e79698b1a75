-- ===== src/Vector/Resize.antt =====
-- `vector_resize` on each of its branches, and `vector_set`.
use pi_296_cluster.Prelude.{
  ℕ, zero, suc, ◌+◌, ◌-◌, ◌^◌, ◌≤◌, ◌<◌, ◌≡◌, refl, ap, sym, ◌∙◌, some, List, [], ◌∷◌, ◌++◌, arith,
  ltb, false, true, ◌==◌, ==_of_ne, le→ltb, reverse, append_assoc, append-nil, add-one, length,
  take, set, get_elem?, length-set, take-set_lt, take-set_self, take-take, replicate,
  get_elem?-take, ok,
}
use pi_296_cluster.Vector.{Vector, Slot, resize, set_at, shrink_loop, default_loop, load, sub_size}
use pi_296_cluster.Vector.Valid.{IsValid, contents}
use pi_296_cluster.Vector.Ends.{load-ok, store-ok, make_room, make_room-Reserved}
use pi_296_cluster.Vector.Release.{shrink_loop-Shrunk}

module _ {A : Type 0} where
  resize-run_shrink :
      (v : Vector A) (n m : ℕ) {b gone : List (Slot A)}
      → v.size ≡ suc m
      → suc m < 2 ^ 64
      → suc n < suc m
      → shrink_loop m n v.array ≡ ok (b, gone)
      → resize v (suc n) ≡ ok (record v { array = b; size = suc n }, gone)
  unfolding resize
  resize-run_shrink v n m last bound less runs =
      let differ : (suc n == v.size) ≡ false = ground arith in
      let smaller : ltb (suc n) v.size ≡ true = ground arith in
      let from : sub_size v.size 1 ≡ m = omega arith in
      let to : sub_size (suc n) 1 ≡ n = omega arith in rw (differ, smaller, from, to, runs)

  -- `vector_resize` of a valid vector to a smaller size other than 0 does not fault, keeps the vector
  -- valid and its first slots, and hands the slots behind them to the destructor, from the back.
  pub resize-take :
      (v : Vector A) (n : ℕ)
      → IsValid v
      → suc n < v.size
      → (w : Vector A) × (gone : List (Slot A)) × (resize v (suc n) ≡ ok (w, gone))
        × IsValid w
        × (contents w ≡ take (suc n) (contents v))
        × (contents v ≡ contents w ++ reverse gone)
  resize-take v n valid less =
      let m : ℕ = v.size - 1 in
      let last : v.size ≡ suc m = omega arith in
      let (b, gone, s) = shrink_loop-Shrunk m n v.array (omega arith) (omega (arith, valid)) in
      (
        record v { array = b; size = suc n },
        gone,
        resize-run_shrink v n m last (omega (arith, valid)) (omega arith) s.runs,
        record {
          block = omega (arith, valid, s.block);
          fits = omega (arith, valid);
          small = valid.small;
        },
        s.left ∙ sym (take-take (suc n) v.size v.array (omega arith)),
        ap (λ k. take k v.array) last ∙ s.gone_slots ∙ ap (λ l. l ++ reverse gone) (sym s.left),
      )

  no_round : (i : ℕ) (a : List (Slot A)) → i < 2 ^ 63 → shrink_loop i (2 ^ 64 - 1) a ≡ ok (a, [])
  unfolding shrink_loop
  no_round zero a h = refl
  no_round (suc i) a h = let stops : ltb (2 ^ 64 - 1) (suc i) ≡ false = ground arith in rw stops

  -- `vector_resize` to 0 of any vector that is not empty calls the destructor on nothing: `n - 1`
  -- wraps, so the loop makes no round, and every slot stays in the block.
  pub resize_zero :
      (v : Vector A) → 0 < v.size → v.size < 2 ^ 63 → resize v 0 ≡ ok (record v { size = 0 }, [])
  unfolding resize
  resize_zero v some_left bound =
      let differ : (0 == v.size) ≡ false = ground arith in
      let smaller : ltb 0 v.size ≡ true = ground arith in
      rw (differ, smaller, no_round (sub_size v.size 1) v.array (omega arith))

  default_loop-run :
      (rounds i n : ℕ) (d : Slot A) (a : List (Slot A))
      → n ≡ i + rounds
      → n ≤ length a
      → (b : List (Slot A)) × (default_loop rounds i d a ≡ ok b)
        × (length b ≡ length a)
        × (take n b ≡ take i a ++ replicate rounds d)
  unfolding default_loop replicate
  default_loop-run zero i n d a e h =
      let same : n ≡ i = omega arith in (a, refl, refl, rw same (sym (append-nil _)))
  default_loop-run (suc rounds) i n d a e h =
      let (b, runs, block, left) =
        default_loop-run rounds (i + 1) n d (set a i d) (omega arith)
          (omega (arith, length-set a i d)) in
      (
        b,
        rw (store-ok a i d (omega arith)) runs,
        block ∙ length-set a i d,
        left
            ∙ rw add-one (ap (λ l. l ++ replicate rounds d) (take-set_self i a d (omega arith)))
            ∙ append_assoc (take i a) (d ∷ []) (replicate rounds d),
      )

  resize-run_grow :
      (v w : Vector A) (n : ℕ) {b : List (Slot A)}
      → v.size < n
      → make_room v n ≡ ok w
      → default_loop (n - w.size) w.size w.default_constructor w.array ≡ ok b
      → resize v n ≡ ok (record w { array = b; size = n }, [])
  unfolding resize
  resize-run_grow v w n more room runs =
      let differ : (n == v.size) ≡ false = ==_of_ne n v.size (omega arith) in
      let larger : ltb n v.size ≡ false = le→ltb n v.size (omega arith) in
      rw (differ, larger, room, runs)

  -- `vector_resize` of a valid vector to a larger size, up to 2 ^ 60, does not fault, keeps the
  -- vector valid, appends default elements up to that size, and destroys nothing.
  pub resize-append_defaults :
      (v : Vector A) (n : ℕ)
      → IsValid v
      → v.size < n
      → n ≤ 2 ^ 60
      → (w : Vector A) × (resize v n ≡ ok (w, []))
        × IsValid w
        × (contents w ≡ contents v ++ replicate (n - v.size) v.default_constructor)
  resize-append_defaults v n valid more bound =
      let (w, room, r) = make_room-Reserved v n valid bound in
      let (b, runs, block, left) =
        default_loop-run (n - w.size) w.size n w.default_constructor w.array
          (omega (arith, r.same_size)) (omega (arith, r.valid, r.room)) in
      (
        record w { array = b; size = n },
        resize-run_grow v w n more room runs,
        record {
          block = omega (arith, r.valid, block);
          fits = omega (arith, r.room);
          small = r.valid.small;
        },
        left ∙ ground (arith, r.same_contents, r.same_size, r.same_default),
      )

  -- `vector_set` of a valid vector at a position in use does not fault, replaces that slot alone by
  -- the copy of the element, and hands the old slot to the destructor.
  pub set_at-set :
      (v : Vector A) (i : ℕ) (x : Slot A)
      → IsValid v
      → i < v.size
      → (w : Vector A) × (old : Slot A) × (set_at v i x ≡ ok (w, old ∷ []))
        × IsValid w
        × (contents w ≡ set (contents v) i (v.copy_constructor x))
        × (get_elem? (contents v) i ≡ some old)
  unfolding set_at
  set_at-set v i x valid h =
      let (old, loads, found) = load-ok v.array i (omega (arith, valid)) in
      (
        record v { array = set v.array i (v.copy_constructor x) },
        old,
        runs old loads,
        record {
          block = omega (arith, valid, length-set v.array i (v.copy_constructor x));
          fits = valid.fits;
          small = valid.small;
        },
        take-set_lt v.size i v.array (v.copy_constructor x),
        get_elem?-take v.size i v.array h ∙ found,
      )
    where
      runs :
          (old : Slot A)
          → load v.array i ≡ ok old
          → set_at v i x ≡ ok (record v { array = set v.array i (v.copy_constructor x) }, old ∷ [])
      runs old loads = rw (loads, store-ok v.array i (v.copy_constructor x) (omega (arith, valid)))
