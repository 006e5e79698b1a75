-- ===== src/Vector/Tests.antt =====
-- Runs of the vector, and its theorems at concrete vectors.
use pi_296_cluster.Prelude.{
  ℕ, ◌*◌, ◌≤◌, ◌<◌, ◌≡◌, refl, none, some, List, [], ◌∷◌, ◌++◌, arith, reverse, length, get_elem?,
  replicate, ok, fault, ◌>>=◌,
}
use pi_296_cluster.Vector.{
  Vector, Slot, push_back, pop_back, insert, erase, resize, clear, destroy, set_at,
  get_new_capacity,
}
use pi_296_cluster.Vector.Capacity.{get_new_capacity_lem}
use pi_296_cluster.Vector.Valid.{IsValid, contents}
use pi_296_cluster.Vector.Ends.{push_back-append, pop_back-drop_last}
use pi_296_cluster.Vector.Middle.Insert.{insert-insert_idx}
use pi_296_cluster.Vector.Middle.Erase.{Erased, erase-Erased, erase_past_end}
use pi_296_cluster.Vector.Release.{clear-empty, destroy_all}
use pi_296_cluster.Vector.Resize.{resize-take, resize-append_defaults, resize_zero, set_at-set}

-- Three slots of four in use.
abbrev three : Vector ℕ
three = record {
  copy_constructor = λ x. x;
  default_constructor = none;
  array = some 7 ∷ some 8 ∷ some 9 ∷ none ∷ [];
  size = 3;
  capacity = 4;
}

three-IsValid : IsValid three
three-IsValid = omega arith

push_twice :
    (do v ← push_back three (some 1); push_back v (some 2))
    ≡ ok (record three {
      array = some 7 ∷ some 8 ∷ some 9 ∷ some 1 ∷ some 2 ∷ none ∷ none ∷ none ∷ [];
      size = 5;
      capacity = 8;
    })
unfolding push_back get_new_capacity replicate
push_twice = refl

erase_first :
    erase three 0
    ≡ ok (record three { array = some 8 ∷ some 9 ∷ none ∷ none ∷ []; size = 2 }, some 7 ∷ [])
unfolding erase
erase_first = refl

insert_first :
    insert three 1 (some 5)
    ≡ ok (record three { array = some 7 ∷ some 5 ∷ some 8 ∷ some 9 ∷ []; size = 4 })
unfolding insert
insert_first = refl

shrink_to_one :
    resize three 1
    ≡ ok (record three { array = some 7 ∷ none ∷ none ∷ none ∷ []; size = 1 }, some 9 ∷ some 8 ∷ [])
unfolding resize
shrink_to_one = refl

get_new_capacity_lem_example : (c : ℕ) × (get_new_capacity 11 ≡ ok c) × (11 ≤ c) × (c < 2 * 11)
get_new_capacity_lem_example = get_new_capacity_lem 11 (omega arith) (omega arith)

push_back-append_example :
    (w : Vector ℕ) × (push_back three (some 1) ≡ ok w)
    × IsValid w
    × (contents w ≡ some 7 ∷ some 8 ∷ some 9 ∷ some 1 ∷ [])
push_back-append_example = push_back-append three (some 1) three-IsValid (omega arith)

pop_back-drop_last_example :
    (w : Vector ℕ) × (gone : List (Slot ℕ)) × (pop_back three ≡ ok (w, gone))
    × IsValid w
    × (contents w ++ gone ≡ some 7 ∷ some 8 ∷ some 9 ∷ [])
    × (w.size ≡ 2)
    × (length gone ≡ 1)
pop_back-drop_last_example = pop_back-drop_last three three-IsValid

insert-insert_idx_example :
    (w : Vector ℕ) × (insert three 1 (some 5) ≡ ok w)
    × IsValid w
    × (contents w ≡ some 7 ∷ some 5 ∷ some 8 ∷ some 9 ∷ [])
insert-insert_idx_example =
    insert-insert_idx three 1 (some 5) three-IsValid (omega arith) (omega arith)

erase-Erased_example : (w : Vector ℕ) × (x : Slot ℕ) × Erased three 1 w x
erase-Erased_example = erase-Erased three 1 three-IsValid (omega arith)

erase_past_end_example : erase three 3 ≡ fault
erase_past_end_example = erase_past_end three 3 three-IsValid (omega arith) (omega arith)

clear-empty_example :
    (w : Vector ℕ) × (clear three ≡ ok (w, some 7 ∷ some 8 ∷ some 9 ∷ []))
    × IsValid w
    × (contents w ≡ [])
    × (w.capacity ≡ 4)
clear-empty_example = clear-empty three three-IsValid

destroy_all_example : destroy three ≡ ok (some 7 ∷ some 8 ∷ some 9 ∷ [])
destroy_all_example = destroy_all three three-IsValid

resize-take_example :
    (w : Vector ℕ) × (gone : List (Slot ℕ)) × (resize three 1 ≡ ok (w, gone))
    × IsValid w
    × (contents w ≡ some 7 ∷ [])
    × (some 7 ∷ some 8 ∷ some 9 ∷ [] ≡ contents w ++ reverse gone)
resize-take_example = resize-take three 0 three-IsValid (omega arith)

resize_zero_example : resize three 0 ≡ ok (record three { size = 0 }, [])
resize_zero_example = resize_zero three (omega arith) (omega arith)

resize-append_defaults_example :
    (w : Vector ℕ) × (resize three 6 ≡ ok (w, []))
    × IsValid w
    × (contents w ≡ contents three ++ replicate 3 none)
resize-append_defaults_example =
    resize-append_defaults three 6 three-IsValid (omega arith) (omega arith)

set_at-set_example :
    (w : Vector ℕ) × (old : Slot ℕ) × (set_at three 1 (some 5) ≡ ok (w, old ∷ []))
    × IsValid w
    × (contents w ≡ some 7 ∷ some 5 ∷ some 9 ∷ [])
    × (get_elem? (contents three) 1 ≡ some old)
set_at-set_example = set_at-set three 1 (some 5) three-IsValid (omega arith)
