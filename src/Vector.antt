-- ===== src/Vector.antt =====
-- vector.h, vector.c and the callback types of utils.h: a growable array of `void*`.
-- A slot is a pointer, `none` for NULL. An operation returns the new vector and the pointers that
-- it hands to the destructor, in that order. An access outside the block that `array` points to is
-- a fault. `size_t` sums and differences wrap at 2 ^ 64. Allocation succeeds.
pub mod Capacity
pub mod Valid
pub mod Ends
pub mod Middle
pub mod Release
pub mod Resize
mod Tests
use pi_296_cluster.Prelude.{
  ℕ, zero, suc, ◌+◌, ◌-◌, ◌*◌, ◌%◌, ◌^◌, Bool, true, false, Option, none, some, List, [], ◌∷◌, ◌++◌,
  ltb, leb, ◌==◌, if◌then◌else◌, length, get_elem?, set, replicate, Outcome, ok, fault, hang, ◌>>=◌,
  within,
}

abbrev pub initial_capacity : ℕ
initial_capacity = 10

abbrev pub growth_factor : ℕ
growth_factor = 2

-- `size_t` arithmetic.
abbrev pub add_size : ℕ → ℕ → ℕ
add_size a b = (a + b) % 2 ^ 64

abbrev pub sub_size : ℕ → ℕ → ℕ
sub_size a b = (a + 2 ^ 64 - b) % 2 ^ 64

abbrev pub mul_size : ℕ → ℕ → ℕ
mul_size a b = a * b % 2 ^ 64

abbrev pub Slot : Type 0 → Type 0
Slot A = Option A

pub record Vector (A : Type 0) : Type 0 where
  pub copy_constructor : Slot A → Slot A
  pub default_constructor : Slot A
  pub array : List (Slot A)
  pub size : ℕ
  pub capacity : ℕ

-- `while (new_capacity < target) new_capacity *= GROWTH_FACTOR;`
capacity_loop : ℕ → ℕ → ℕ → Outcome ℕ
capacity_loop zero target c = hang
capacity_loop (suc fuel) target c =
    let rest = capacity_loop fuel target (mul_size c growth_factor) in
    if ltb c target then rest else ok c

-- 64 doublings take 1 past every target for which the loop ends.
pub get_new_capacity : ℕ → Outcome ℕ
unfolding capacity_loop
get_new_capacity target = capacity_loop 65 target 1

module _ {A : Type 0} where
  pub shallow_copy_constructor : Slot A → Slot A
  shallow_copy_constructor elem = elem

  pub shallow_default_constructor : Slot A
  shallow_default_constructor = none

  abbrev or_shallow : Option (Slot A → Slot A) → Slot A → Slot A
  or_shallow none = shallow_copy_constructor
  or_shallow (some f) = f

  abbrev or_null : Option (Slot A) → Slot A
  or_null none = shallow_default_constructor
  or_null (some d) = d

  pub create : Option (Slot A → Slot A) → Option (Slot A) → Vector A
  create copy_constructor default_constructor = record {
    copy_constructor = or_shallow copy_constructor;
    default_constructor = or_null default_constructor;
    array = replicate initial_capacity none;
    size = 0;
    capacity = initial_capacity;
  }

  -- `array[i]` read, and written.
  abbrev pub load : List (Slot A) → ℕ → Outcome (Slot A)
  load a i = within (get_elem? a i)

  abbrev pub store : List (Slot A) → ℕ → Slot A → Outcome (List (Slot A))
  store a i x = if ltb i (length a) then ok (set a i x) else fault

  -- `for (i = from; i < from + rounds; i++) destructor(array[i])`
  destroy_loop : ℕ → ℕ → List (Slot A) → Outcome (List (Slot A))
  destroy_loop zero i a = ok []
  destroy_loop (suc rounds) i a = do
    x ← load a i
    rest ← destroy_loop rounds (i + 1) a
    ok (x ∷ rest)

  -- The block and the vector are then freed: what is left is what the destructor was given.
  pub destroy : Vector A → Outcome (List (Slot A))
  unfolding destroy_loop
  destroy this = destroy_loop this.size 0 this.array

  -- Pointers into the array are indices.
  abbrev pub begin : Vector A → ℕ
  begin this = 0

  abbrev pub end : Vector A → ℕ
  end this = this.size

  abbrev pub at : Vector A → ℕ → ℕ
  at this position = position

  abbrev pub front : Vector A → ℕ
  front this = 0

  abbrev pub back : Vector A → ℕ
  back this = sub_size this.size 1

  abbrev pub empty : Vector A → Bool
  empty this = this.size == 0

  -- The block that realloc returns holds `newcap * sizeof(void*)` bytes, a product that wraps; if it
  -- does, the loop that clears the new slots runs out of the block.
  pub reserve : Vector A → ℕ → Outcome (Vector A)
  unfolding get_new_capacity replicate
  reserve this n =
      if ltb this.capacity n
      then (do
        newcap ← get_new_capacity n
        if ltb (newcap * 8) (2 ^ 64)
            then ok (record this {
              array = this.array ++ replicate (newcap - this.capacity) none;
              capacity = newcap;
            })
            else fault)
      else ok this

  -- `for (i = i; i > stop; i--) { destructor(array[i]); array[i] = 0; }`
  pub shrink_loop : ℕ → ℕ → List (Slot A) → Outcome (List (Slot A) × List (Slot A))
  shrink_loop zero stop a = ok (a, [])
  shrink_loop (suc i) stop a =
      let body : Outcome (List (Slot A) × List (Slot A)) = (do
        x ← load a (suc i)
        a ← store a (suc i) none
        (a, gone) ← shrink_loop i stop a
        ok (a, x ∷ gone)) in
      if ltb stop (suc i) then body else ok (a, [])

  -- `for (i = i; i < i + rounds; i++) array[i] = default_constructor();`
  default_loop : ℕ → ℕ → Slot A → List (Slot A) → Outcome (List (Slot A))
  default_loop zero i d a = ok a
  default_loop (suc rounds) i d a = do a ← store a i d; default_loop rounds (i + 1) d a

  pub resize : Vector A → ℕ → Outcome (Vector A × List (Slot A))
  unfolding reserve shrink_loop default_loop
  resize this n =
      if n == this.size
      then ok (this, [])
      else if ltb n this.size
      then (do
        (a, gone) ← shrink_loop (sub_size this.size 1) (sub_size n 1) this.array
        ok (record this { array = a; size = n }, gone))
      else do
        this ← if ltb this.capacity n then reserve this n else ok this
        a ← default_loop (n - this.size) this.size this.default_constructor this.array
        ok (record this { array = a; size = n }, [])

  pub set_at : Vector A → ℕ → Slot A → Outcome (Vector A × List (Slot A))
  set_at this position element = do
    old ← load this.array position
    a ← store this.array position (this.copy_constructor element)
    ok (record this { array = a }, old ∷ [])

  pub get : Vector A → ℕ → Outcome (Slot A)
  get this position = load this.array position

  pub push_back : Vector A → Slot A → Outcome (Vector A)
  unfolding reserve
  push_back this element = do
    let newsize = add_size this.size 1
    this ← if ltb this.capacity newsize then reserve this newsize else ok this
    a ← store this.array (end this) (this.copy_constructor element)
    ok (record this { array = a; size = add_size this.size 1 })

  pub pop_back : Vector A → Outcome (Vector A × List (Slot A))
  pop_back this = if empty this then ok (this, []) else do
    x ← load this.array (sub_size this.size 1)
    a ← store this.array (sub_size this.size 1) none
    ok (record this { array = a; size = sub_size this.size 1 }, x ∷ [])

  -- memmove of `count` slots from index `i` to `i + 1`, and from `i + 1` to `i`.
  abbrev shift_up : Slot A → ℕ → List (Slot A) → List (Slot A)
  shift_up carried count [] = []
  shift_up carried zero (x ∷ a) = x ∷ a
  shift_up carried (suc count) (x ∷ a) = carried ∷ shift_up x count a

  abbrev move_up : ℕ → ℕ → List (Slot A) → List (Slot A)
  move_up i count [] = []
  move_up zero count (x ∷ a) = x ∷ shift_up x count a
  move_up (suc i) count (x ∷ a) = x ∷ move_up i count a

  abbrev move_down : ℕ → ℕ → List (Slot A) → List (Slot A)
  move_down i count [] = []
  move_down zero zero (x ∷ a) = x ∷ a
  move_down zero (suc count) (x ∷ []) = x ∷ []
  move_down zero (suc count) (x ∷ y ∷ a) = y ∷ move_down zero count (y ∷ a)
  move_down (suc i) count (x ∷ a) = x ∷ move_down i count a

  pub insert : Vector A → ℕ → Slot A → Outcome (Vector A)
  unfolding reserve
  insert this position element = do
    let newsize = add_size this.size 1
    this ← if ltb this.capacity newsize then reserve this newsize else ok this
    a ←
        if ltb position this.size
        then if leb (this.size + 1) (length this.array)
          then ok (move_up position (this.size - position) this.array)
          else fault
        else ok this.array
    a ← store a position (this.copy_constructor element)
    ok (record this { array = a; size = add_size this.size 1 })

  -- The length of the memmove, `this->size - position - 1`, wraps where the position is past the end.
  pub erase : Vector A → ℕ → Outcome (Vector A × List (Slot A))
  unfolding pop_back
  erase this position = if position == sub_size this.size 1 then pop_back this else do
    x ← load this.array position
    a ← store this.array position none
    let count = sub_size (sub_size this.size position) 1
    a ← if leb (position + 1 + count) (length a) then ok (move_down position count a) else fault
    a ← store a (sub_size this.size 1) none
    ok (record this { array = a; size = sub_size this.size 1 }, x ∷ [])

  clear_loop : ℕ → ℕ → List (Slot A) → Outcome (List (Slot A) × List (Slot A))
  clear_loop zero i a = ok (a, [])
  clear_loop (suc rounds) i a = do
    x ← load a i
    a ← store a i none
    (a, gone) ← clear_loop rounds (i + 1) a
    ok (a, x ∷ gone)

  pub clear : Vector A → Outcome (Vector A × List (Slot A))
  unfolding clear_loop
  clear this = do
    (a, gone) ← clear_loop this.size 0 this.array
    ok (record this { array = a; size = 0 }, gone)
