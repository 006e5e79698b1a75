-- ===== src/Vector/Ends.antt =====
-- `vector_push_back` and `vector_pop_back` on the list that a vector stands for.
use pi_296_cluster.Prelude.{
  ℕ, suc, ◌-◌, ◌^◌, ◌≤◌, ◌<◌, ◌≡◌, refl, ap, ◌∙◌, none, some, List, [], ◌∷◌, ◌++◌, arith, ltb,
  Bool-cases, false, inl, inr, lt→ltb, if◌then◌else◌, ◌==◌, length, take, set, get_elem?,
  get_elem?-some, length-set, take-set_self, take-set_le, min, append-nil, sym, take-suc_get,
  Outcome, ok, within,
}
use pi_296_cluster.Vector.{
  Vector, Slot, reserve, push_back, pop_back, add_size, sub_size, load, store,
}
use pi_296_cluster.Vector.Valid.{IsValid, contents, Reserved, reserve-Reserved}

module _ {A : Type 0} where
  -- What `push_back` and `insert` do before they write.
  abbrev pub make_room : Vector A → ℕ → Outcome (Vector A)
  make_room v n = if ltb v.capacity n then reserve v n else ok v

  pub make_room-Reserved :
      (v : Vector A) (n : ℕ)
      → IsValid v
      → n ≤ 2 ^ 60
      → (w : Vector A) × (make_room v n ≡ ok w) × Reserved v n w
  make_room-Reserved v n valid bound = elim (Bool-cases (ltb v.capacity n)) [
    | inl short ↦ rw short (reserve-Reserved v n valid bound)
    | inr enough ↦ (
      v,
      rw enough,
      record {
        valid = valid;
        room = ground arith;
        same_size = refl;
        same_copy = refl;
        same_default = refl;
        same_contents = refl;
      },
    )
  ]

  pub load-ok :
      (a : List (Slot A)) (i : ℕ)
      → i < length a
      → (x : Slot A) × (load a i ≡ ok x) × (get_elem? a i ≡ some x)
  load-ok a i h = let (x, e) = get_elem?-some a i h in (x, ap within e, e)

  pub store-ok :
      (a : List (Slot A)) (i : ℕ) (x : Slot A) → i < length a → store a i x ≡ ok (set a i x)
  store-ok a i x h = rw (lt→ltb i (length a) h)

  -- On a valid vector of fewer than 2 ^ 60 slots `vector_push_back` does not fault, keeps the vector
  -- valid, and appends the copy of the element.
  pub push_back-append :
      (v : Vector A) (x : Slot A)
      → IsValid v
      → v.size < 2 ^ 60
      → (w : Vector A) × (push_back v x ≡ ok w)
        × IsValid w
        × (contents w ≡ contents v ++ (v.copy_constructor x ∷ []))
  unfolding push_back
  push_back-append v x valid bound =
      let (w, runs, r) = make_room-Reserved v (add_size v.size 1) valid (omega arith) in
      let inside : w.size < length w.array = omega (arith, r.valid, r.room, r.same_size) in
      let one : add_size w.size 1 ≡ suc w.size = omega (arith, r.same_size) in
      (
        record w { array = set w.array w.size (w.copy_constructor x); size = suc w.size },
        rw (runs, store-ok w.array w.size (w.copy_constructor x) inside, one),
        record {
          block = omega (arith, r.valid, length-set w.array w.size (w.copy_constructor x));
          fits = omega (arith, r.valid);
          small = r.valid.small;
        },
        take-set_self w.size w.array (w.copy_constructor x) inside
            ∙ ground (arith, r.same_contents, r.same_copy),
      )

  pub pop_back-run :
      (v : Vector A) (n : ℕ) (x : Slot A)
      → v.size ≡ suc n
      → suc n < 2 ^ 64
      → n < length v.array
      → load v.array n ≡ ok x
      → pop_back v ≡ ok (record v { array = set v.array n none; size = n }, x ∷ [])
  unfolding pop_back
  pop_back-run v n x last bound inside loads =
      let some_left : (v.size == 0) ≡ false = ground arith in
      let one : sub_size v.size 1 ≡ n = omega arith in
      rw (some_left, one, loads, store-ok v.array n none inside)

  -- On a valid vector `vector_pop_back` does not fault and keeps the vector valid. An empty vector
  -- stays as it is; else the last slot is dropped and handed to the destructor.
  pub pop_back-drop_last :
      (v : Vector A)
      → IsValid v
      → (w : Vector A) × (gone : List (Slot A)) × (pop_back v ≡ ok (w, gone))
        × IsValid w
        × (contents w ++ gone ≡ contents v)
        × (w.size ≡ v.size - 1)
        × (length gone ≡ min v.size 1)
  unfolding pop_back
  pop_back-drop_last v valid = elim (Bool-cases (v.size == 0)) [
    | inl none_left ↦
        (v, [], rw none_left, valid, append-nil (contents v), ground arith, ground arith)
    | inr some_left ↦
        let n : ℕ = v.size - 1 in
        let last : v.size ≡ suc n = ground arith in
        let (x, loads, found) = load-ok v.array n (omega (arith, valid)) in
        (
          record v { array = set v.array n none; size = n },
          x ∷ [],
          pop_back-run v n x last (omega (arith, valid)) (omega (arith, valid)) loads,
          record {
            block = omega (arith, valid, length-set v.array n none);
            fits = omega (arith, valid);
            small = valid.small;
          },
          ap (λ a. a ++ (x ∷ [])) (take-set_le n n v.array none (omega arith))
              ∙ sym (take-suc_get n v.array x found)
              ∙ ap (λ k. take k v.array) (sym last),
          refl,
          omega (arith, last),
        )
  ]
