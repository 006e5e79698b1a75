-- ===== src/Deprecated/Messages/Types.antt =====
-- The type of a message, told from the bits of its first byte.
use pi_296_cluster.Prelude.{
  ap, negsuc, ℕ, zero, suc, ◌+◌, ◌/◌, ◌%◌, ◌<◌, ◌≡◌, refl, arith, Bool, true, false, ◌&&◌, inl, inr,
  Bool-cases, ltb, ltb→lt, ◌==◌, same_int, if◌then◌else◌, ℤ, pos, minus_one,
}
use pi_296_cluster.Deprecated.Messages.{type_loop, get_message_type}

-- The place of the highest bit that is set, counted from 0; a byte has at most 8.
abbrev pub highest : ℕ → ℕ → ℕ
highest zero b = 0
highest (suc bits) b = let rest = highest bits (b / 2) in if ltb b 2 then 0 else rest + 1

abbrev pub expected : ℕ → ℤ
expected b = if ltb b 2 then pos 0 else if b % 2 == 1 then pos (highest 8 b) else minus_one

abbrev agree : ℕ → Bool
agree zero = true
agree (suc b) = let rest = agree b in same_int (get_message_type b) (expected b) && rest

checked : agree 256 ≡ true
unfolding get_message_type type_loop
checked = refl

same_int_sound : (a b : ℤ) → same_int a b ≡ true → a ≡ b
same_int_sound (pos a) (pos b) e = let same : a ≡ b = ground (arith, e) in ap pos same
same_int_sound (pos a) (negsuc b) e = cc
same_int_sound (negsuc a) (pos b) e = cc
same_int_sound (negsuc a) (negsuc b) e = let same : a ≡ b = ground (arith, e) in ap negsuc same

both : (x y : Bool) → (x && y) ≡ true → (x ≡ true) × (y ≡ true)
both true true e = (refl, refl)
both true false e = cc
both false y e = cc

below : (n b : ℕ) → b < n → agree n ≡ true → same_int (get_message_type b) (expected b) ≡ true
below zero b inside all = absurd (omega (arith, inside))
below (suc n) b inside all =
    let (here, later) = both (same_int (get_message_type n) (expected n)) (agree n) all in
    elim (Bool-cases (ltb b n)) [
      | inl less ↦ below n b (ltb→lt b n less) later
      | inr not_less ↦ let same : b ≡ n = ground (arith, inside, not_less) in rw same here
    ]

-- getMessageType of the bytes 0 and 1 is 0, valid or not as bit 0 says they are. Of another byte it is
-- the place of its highest bit, counted from bit 0, if bit 0 is set, however many bits are set between
-- them, and -1 if bit 0 is not set.
pub get_message_type_lem : (b : ℕ) → b < 256 → get_message_type b ≡ expected b
get_message_type_lem b byte =
    same_int_sound (get_message_type b) (expected b) (below 256 b byte checked)
