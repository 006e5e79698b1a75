-- ===== src/Interface/Typing.antt =====
-- The name that the user types.
use pi_296_cluster.Prelude.{
  ℕ, ◌+◌, ◌<◌, ◌≤◌, ◌≡◌, refl, ap, ◌∙◌, inl, inr, Bool-cases, Bool, true, false, [], ◌∷◌, ◌++◌,
  arith, ltb, length, ok, fault,
}
use pi_296_cluster.Kernel.{Bytes}
use pi_296_cluster.Interface.{is_space, max, name, name_loop, skip_space, read_name}

-- Every character is whitespace, or none is.
abbrev pub AllSpace : Bool → Bytes → Type 0
AllSpace is [] = Unit {0}
AllSpace is (c ∷ cs) = (is_space c ≡ is) × AllSpace is cs

skip_space-append :
    (lead : Bytes) (c : ℕ) (cs : Bytes)
    → AllSpace true lead
    → is_space c ≡ false
    → skip_space (lead ++ (c ∷ cs)) ≡ c ∷ cs
unfolding skip_space
skip_space-append [] c cs blank word = rw word refl
skip_space-append (b ∷ lead) c cs blank word = rw blank.0 (skip_space-append lead c cs blank.1 word)

name_loop-word :
    (word : Bytes) (c : ℕ) (rest : Bytes) (i : ℕ)
    → AllSpace false word
    → is_space c ≡ true
    → i + length word < max
    → name_loop (word ++ (c ∷ rest)) i ≡ ok (name word rest)
unfolding name_loop
name_loop-word [] c rest i plain ends room =
    let inside : ltb i max ≡ true = ground (arith, room) in rw (ends, inside) refl
name_loop-word (b ∷ word) c rest i plain ends room =
    let inside : ltb i max ≡ true = ground (arith, room) in
    let short : ltb max (i + 1) ≡ false = ground (arith, room) in
    let later = name_loop-word word c rest (i + 1) plain.1 ends (omega (arith, room)) in
    rw (plain.0, inside, short) (rw later refl)

-- A word of less than 1024 characters, whitespace before it and after it, is read as the name, and what
-- follows is left.
pub read_name-word :
    (lead : Bytes) (b : ℕ) (word : Bytes) (c : ℕ) (rest : Bytes)
    → AllSpace true lead
    → AllSpace false (b ∷ word)
    → is_space c ≡ true
    → length (b ∷ word) < max
    → read_name (lead ++ ((b ∷ word) ++ (c ∷ rest))) ≡ ok (name (b ∷ word) rest)
unfolding read_name
read_name-word lead b word c rest blank plain ends room =
    ap (λ l. name_loop l 0) (skip_space-append lead b (word ++ (c ∷ rest)) blank plain.0)
    ∙ name_loop-word (b ∷ word) c rest 0 plain ends (omega (arith, room))

name_loop-long :
    (word rest : Bytes) (i : ℕ)
    → AllSpace false word
    → i ≤ max
    → max < i + length word
    → name_loop (word ++ rest) i ≡ fault
unfolding name_loop
name_loop-long [] rest i plain inside long = absurd (omega (arith, inside, long))
name_loop-long (b ∷ word) rest i plain inside long = elim (Bool-cases (ltb i max)) [
  | inl room ↦
      let short : ltb max (i + 1) ≡ false = ground (arith, room) in
      let later =
        name_loop-long word rest (i + 1) plain.1 (ground (arith, room)) (omega (arith, long)) in
      rw (plain.0, room, short) (rw later refl)
  | inr full ↦ rw (plain.0, full) refl
]

-- A word of more than 1024 characters is stored behind the buffer of 1024 bytes: the test for a name
-- that is too long comes after the store, and its message is not reached.
pub read_name-long :
    (lead : Bytes) (b : ℕ) (word rest : Bytes)
    → AllSpace true lead
    → AllSpace false (b ∷ word)
    → max < length (b ∷ word)
    → read_name (lead ++ ((b ∷ word) ++ rest)) ≡ fault
unfolding read_name
read_name-long lead b word rest blank plain long =
    ap (λ l. name_loop l 0) (skip_space-append lead b (word ++ rest) blank plain.0)
    ∙ name_loop-long (b ∷ word) rest 0 plain (omega arith) (omega (arith, long))
