-- ===== src/Vector/Release.antt =====
-- `vector_clear`, `vector_destroy` and the loop of a shrinking `vector_resize`: what is left, and what the
-- destructor is given.
use mathlib.Core.List.{reverse-append}
use pi_296_cluster.Prelude.{
  ℕ, zero, suc, ◌+◌, ◌≤◌, ◌<◌, ◌≡◌, refl, ap, sym, ◌∙◌, none, some, List, [], ◌∷◌, ◌++◌, arith, ltb,
  Bool-cases, inl, inr, ltb→lt, lt→ltb, reverse, append_assoc, append-nil, length, take, drop,
  add-one, set, get_elem?, length-set, take-suc_get, take-set_le, take-set_lt, drop-cons_get,
  drop-set_lt, drop_all, length-take, get_elem?-take, ok,
}
use pi_296_cluster.Vector.{
  Vector, Slot, clear, destroy, shrink_loop, clear_loop, destroy_loop, load,
}
use pi_296_cluster.Vector.Valid.{IsValid, contents}
use pi_296_cluster.Vector.Ends.{load-ok, store-ok}

module _ {A : Type 0} where
  drop-step :
      (i n : ℕ) (a : List (Slot A)) (x : Slot A)
      → i < n
      → get_elem? a i ≡ some x
      → x ∷ drop (i + 1) (take n a) ≡ drop i (take n a)
  drop-step i n a x h found =
      rw add-one (sym (drop-cons_get i (take n a) x (get_elem?-take n i a h ∙ found)))

  drop_end : (i n : ℕ) (a : List (Slot A)) → n ≤ i → [] ≡ drop i (take n a)
  drop_end i n a h = sym (drop_all i (take n a) (omega (arith, length-take n a)))

  destroy_loop-step :
      (rounds i : ℕ) (a : List (Slot A)) {x : Slot A} {rest : List (Slot A)}
      → load a i ≡ ok x
      → destroy_loop rounds (i + 1) a ≡ ok rest
      → destroy_loop (suc rounds) i a ≡ ok (x ∷ rest)
  unfolding destroy_loop
  destroy_loop-step rounds i a loads runs = rw (loads, runs)

  destroy_loop-run :
      (rounds i n : ℕ) (a : List (Slot A))
      → n ≡ i + rounds
      → n ≤ length a
      → destroy_loop rounds i a ≡ ok (drop i (take n a))
  unfolding destroy_loop
  destroy_loop-run zero i n a e h = ap ok (drop_end i n a (omega arith))
  destroy_loop-run (suc rounds) i n a e h =
      let (x, loads, found) = load-ok a i (omega arith) in
      destroy_loop-step rounds i a loads (destroy_loop-run rounds (i + 1) n a (omega arith) h)
      ∙ ap ok (drop-step i n a x (omega arith) found)

  -- `vector_destroy` of a valid vector does not fault, and hands every slot in use to the
  -- destructor, each once, from the front.
  pub destroy_all : (v : Vector A) → IsValid v → destroy v ≡ ok (contents v)
  unfolding destroy
  destroy_all v valid =
      destroy_loop-run v.size 0 v.size v.array (omega arith) (omega (arith, valid))

  clear_loop-step :
      (rounds i : ℕ) (a : List (Slot A)) {x : Slot A} {b gone : List (Slot A)}
      → load a i ≡ ok x
      → i < length a
      → clear_loop rounds (i + 1) (set a i none) ≡ ok (b, gone)
      → clear_loop (suc rounds) i a ≡ ok (b, x ∷ gone)
  unfolding clear_loop
  clear_loop-step rounds i a loads inside runs = rw (loads, store-ok a i none inside, runs)

  clear_loop-run :
      (rounds i n : ℕ) (a : List (Slot A))
      → n ≡ i + rounds
      → n ≤ length a
      → (b : List (Slot A)) × (clear_loop rounds i a ≡ ok (b, drop i (take n a)))
        × (length b ≡ length a)
  unfolding clear_loop
  clear_loop-run zero i n a e h = (a, ap (λ g. ok (a, g)) (drop_end i n a (omega arith)), refl)
  clear_loop-run (suc rounds) i n a e h =
      let (x, loads, found) = load-ok a i (omega arith) in
      let (b, runs, same) =
        clear_loop-run rounds (i + 1) n (set a i none) (omega arith)
          (omega (arith, length-set a i none)) in
      (
        b,
        clear_loop-step rounds i a loads (omega arith) runs
            ∙ ap (λ g. ok (b, x ∷ g)) (cleared i n a)
            ∙ ap (λ g. ok (b, g)) (drop-step i n a x (omega arith) found),
        same ∙ length-set a i none,
      )
    where
      cleared :
          (i n : ℕ) (a : List (Slot A))
          → drop (i + 1) (take n (set a i none)) ≡ drop (i + 1) (take n a)
      cleared i n a =
          ap (drop (i + 1)) (take-set_lt n i a none)
          ∙ drop-set_lt (i + 1) i (take n a) none (omega arith)

  -- `vector_clear` of a valid vector does not fault, leaves a valid empty vector of the same
  -- capacity, and hands every slot that was in use to the destructor.
  pub clear-empty :
      (v : Vector A)
      → IsValid v
      → (w : Vector A) × (clear v ≡ ok (w, contents v))
        × IsValid w
        × (contents w ≡ [])
        × (w.capacity ≡ v.capacity)
  unfolding clear
  clear-empty v valid =
      let (b, runs, same) =
        clear_loop-run v.size 0 v.size v.array (omega arith) (omega (arith, valid)) in
      (
        record v { array = b; size = 0 },
        rw runs,
        record { block = omega (arith, valid, same); fits = omega arith; small = valid.small },
        refl,
        refl,
      )

  shrink_loop-step :
      (i stop : ℕ) (a : List (Slot A)) {x : Slot A} {b gone : List (Slot A)}
      → stop < suc i
      → load a (suc i) ≡ ok x
      → suc i < length a
      → shrink_loop i stop (set a (suc i) none) ≡ ok (b, gone)
      → shrink_loop (suc i) stop a ≡ ok (b, x ∷ gone)
  unfolding shrink_loop
  shrink_loop-step i stop a below loads inside runs =
      rw (lt→ltb stop (suc i) below, loads, store-ok a (suc i) none inside, runs)

  -- The slots above `stop` are dropped, and handed over from the back.
  pub record Shrunk (i stop : ℕ) (a b gone : List (Slot A)) : Type 0 where
    pub runs : shrink_loop i stop a ≡ ok (b, gone)
    pub block : length b ≡ length a
    pub left : take (suc stop) b ≡ take (suc stop) a
    pub gone_slots : take (suc i) a ≡ take (suc stop) a ++ reverse gone

  pub shrink_loop-Shrunk :
      (i stop : ℕ) (a : List (Slot A))
      → stop ≤ i
      → i < length a
      → (b : List (Slot A)) × (gone : List (Slot A)) × Shrunk i stop a b gone
  unfolding shrink_loop
  shrink_loop-Shrunk zero stop a e h =
      let same : stop ≡ 0 = omega arith in
      (
        a,
        [],
        record {
          runs = refl;
          block = refl;
          left = refl;
          gone_slots = rw same (sym (append-nil _));
        },
      )
  shrink_loop-Shrunk (suc i) stop a e h = elim (Bool-cases (ltb stop (suc i))) [
    | inr reached ↦
        let same : stop ≡ suc i = ground arith in
        (
          a,
          [],
          record {
            runs = rw reached;
            block = refl;
            left = refl;
            gone_slots = rw same (sym (append-nil _));
          },
        )
    | inl more ↦
        let below = ltb→lt stop (suc i) more in
        let (x, loads, found) = load-ok a (suc i) h in
        let (b, gone, s) =
          shrink_loop-Shrunk i stop (set a (suc i) none) (omega arith)
            (omega (arith, length-set a (suc i) none)) in
        (b, x ∷ gone, shrunk-step i stop a x b gone below h loads found s)
  ]
    where
      shrunk-step :
          (i stop : ℕ) (a : List (Slot A)) (x : Slot A) (b gone : List (Slot A))
          → stop < suc i
          → suc i < length a
          → load a (suc i) ≡ ok x
          → get_elem? a (suc i) ≡ some x
          → Shrunk i stop (set a (suc i) none) b gone
          → Shrunk (suc i) stop a b (x ∷ gone)
      shrunk-step i stop a x b gone below h loads found s = record {
        runs = shrink_loop-step i stop a below loads h s.runs;
        block = s.block ∙ length-set a (suc i) none;
        left = s.left ∙ take-set_le (suc stop) (suc i) a none (omega arith);
        gone_slots =
            take-suc_get (suc i) a x found
            ∙ ap (λ l. l ++ (x ∷ []))
                (sym (take-set_le (suc i) (suc i) a none (omega arith))
                  ∙ s.gone_slots
                  ∙ ap (λ l. l ++ reverse gone)
                      (take-set_le (suc stop) (suc i) a none (omega arith)))
            ∙ append_assoc (take (suc stop) a) (reverse gone) (x ∷ [])
            ∙ ap (λ l. take (suc stop) a ++ l) (sym (reverse-append (x ∷ []) gone));
      }
