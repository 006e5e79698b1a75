-- ===== src/Interface/Replies.antt =====
-- `check_ok` and `print_binary_data`, which read a reply of text and of bytes. Nothing calls them.
use pi_296_cluster.Prelude.{
  ℕ, zero, suc, ◌+◌, Bool, true, false, Option, none, some, List, [], ◌∷◌, ◌++◌, ◌≡◌, refl, ltb,
  ◌==◌, if◌then◌else◌, length, Outcome, ok, fault, hang, ◌>>=◌,
}
use pi_296_cluster.Kernel.{Bytes, Arrival, byte, gap, closed, Answer, write_once}
use pi_296_cluster.Text.{newline, c_str}
use pi_296_cluster.Interface.{buf_size, my_read}

-- What `buffer[s] = '\0'` leaves, where `s` is what `my_read` returned: -1 and the size of the buffer
-- are outside it.
abbrev pub ended : Option Bytes → Outcome Bytes
ended none = fault
ended (some bs) = if ltb (length bs) buf_size then ok bs else fault

abbrev pub is_ok : Bytes → Bool
is_ok [] = false
is_ok (b ∷ bs) = b == b'O'

-- The return value, and what is printed.
pub check_ok : List Arrival → Outcome (Bool × Bytes × List Arrival)
check_ok s = do
  (r, s) ← my_read 1 s
  first ← ended r
  if is_ok first then (do (r, s) ← my_read 2 s; ok (true, [], s)) else (do
    (r, s) ← my_read 5 s
    (r, s) ← my_read buf_size s
    message ← ended r
    ok (false, c_str message, s))

-- The loop of `print_binary_data`: -1 becomes the largest size, and the write leaves the buffer.
pub print_rounds : ℕ → List Answer → List Arrival → Outcome (Bytes × List Arrival)
print_rounds zero out s = hang
print_rounds (suc fuel) out s = do
  (r, t) ← my_read buf_size s
  elim r [
    | none ↦ fault
    | some bs ↦
        let (written, left) = write_once out bs in
        let rest : Outcome (Bytes × List Arrival) = (do
          (more, u) ← print_rounds fuel left t
          ok (written ++ more, u)) in
        if length bs == 0 then ok ([], t) else rest
  ]

pub print_binary_data : List Answer → List Arrival → Outcome (Bytes × List Arrival)
unfolding print_rounds
print_binary_data out s = print_rounds (length s + 1) out s

abbrev reply : List Arrival
reply = byte b'O' ∷ gap ∷ byte b'K' ∷ byte newline ∷ byte 7 ∷ []

reply_ok : check_ok reply ≡ ok (true, [], byte 7 ∷ [])
unfolding check_ok my_read
reply_ok = refl

prints : print_binary_data [] (byte 1 ∷ gap ∷ byte 2 ∷ closed ∷ []) ≡ ok (1 ∷ 2 ∷ [], closed ∷ [])
unfolding print_binary_data my_read
prints = refl
