-- ===== src/Vector/Valid.antt =====
-- The representation invariant of a vector, and the list that it stands for.
use pi_296_cluster.Prelude.{
  ℕ, ◌-◌, ◌*◌, ◌^◌, ◌≤◌, ◌<◌, ◌≡◌, refl, Option, none, List, [], ◌++◌, arith, ltb, Bool-cases, inl,
  inr, ltb→lt, lt→ltb, length, take, replicate, length-replicate, length-append, take-append_of_le,
  ok,
}
use pi_296_cluster.Vector.{Vector, Slot, create, reserve, initial_capacity}
use pi_296_cluster.Vector.Capacity.{get_new_capacity_lem}

abbrev pub max_capacity : ℕ
max_capacity = 2 ^ 61

module _ {A : Type 0} where
  -- The slots in use are in the block, and no size in bytes wraps.
  pub record IsValid (v : Vector A) : Type 0 where
    pub block : v.capacity ≡ length v.array
    pub fits : v.size ≤ v.capacity
    pub small : v.capacity < max_capacity

  abbrev pub contents : Vector A → List (Slot A)
  contents v = take v.size v.array

  -- A new vector is valid and holds nothing.
  pub create-IsValid :
      (c : Option (Slot A → Slot A)) (d : Option (Slot A))
      → IsValid (create c d) × (contents (create c d) ≡ [])
  unfolding create
  create-IsValid c d = (omega (arith, length-replicate {A = Slot A} initial_capacity none), refl)

  -- `w` is `v` with room for `n` slots.
  pub record Reserved (v : Vector A) (n : ℕ) (w : Vector A) : Type 0 where
    pub valid : IsValid w
    pub room : n ≤ w.capacity
    pub same_size : w.size ≡ v.size
    pub same_copy : w.copy_constructor ≡ v.copy_constructor
    pub same_default : w.default_constructor ≡ v.default_constructor
    pub same_contents : contents w ≡ contents v

  module _ (v : Vector A) (c : ℕ) (valid : IsValid v) (more : v.capacity ≤ c) where
    abbrev grown : Vector A
    grown = record v { array = v.array ++ replicate (c - v.capacity) none; capacity = c }

    grown-Reserved : (n : ℕ) → n ≤ c → c < max_capacity → Reserved v n grown
    grown-Reserved n fits small = record {
      valid = record {
        block = omega (
          arith,
          length-append v.array (replicate (c - v.capacity) none),
          length-replicate {A = Slot A} (c - v.capacity) none,
        );
        fits = omega arith;
        small = small;
      };
      room = fits;
      same_size = refl;
      same_copy = refl;
      same_default = refl;
      same_contents = take-append_of_le v.size v.array _ (omega arith);
    }

  -- Growing keeps what the vector holds.
  pub reserve-Reserved :
      (v : Vector A) (n : ℕ)
      → IsValid v
      → n ≤ 2 ^ 60
      → (w : Vector A) × (reserve v n ≡ ok w) × Reserved v n w
  unfolding reserve
  reserve-Reserved v n valid bound = elim (Bool-cases (ltb v.capacity n)) [
    | inr enough ↦ (
      v,
      rw enough,
      record {
        valid = valid;
        room = ground arith;
        same_size = refl;
        same_copy = refl;
        same_default = refl;
        same_contents = refl;
      },
    )
    | inl short ↦
        let (c, runs, fits, near) = get_new_capacity_lem n (ground arith) (omega arith) in
        let less = ltb→lt v.capacity n short in
        (
          grown v c valid (omega arith),
          rw (short, runs, lt→ltb (c * 8) (2 ^ 64) (omega arith)),
          grown-Reserved v c valid (omega arith) n fits (omega arith),
        )
  ]
