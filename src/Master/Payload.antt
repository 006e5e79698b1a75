-- ===== src/Master/Payload.antt =====
-- `get_size` and `get_binary_data`: what follows the header of a request, read from a socket that does
-- not block. What has come so far is in the worker's struct and in the file.
pub mod Bytewise
pub mod Owner
pub mod Sizes
pub mod Contents
pub mod Parts
mod Tests
use pi_296_cluster.Prelude.{
  ℕ, zero, suc, ◌+◌, ◌-◌, Bool, true, false, Option, none, some, List, [], ◌∷◌, ◌++◌, ltb, ◌==◌,
  if◌then◌else◌, length, set, Outcome, ok, fault, hang, ◌>>=◌,
}
use pi_296_cluster.Kernel.{
  Bytes, Arrival, Read, got, eintr, eagain, eother, idle, read, Answer, sizeof_size, le_bytes,
  le_value,
}
use pi_296_cluster.Master.{Reply, done_sending, not_done_sending, big_failure, Worker}
use pi_296_cluster.Master.Floats.{Double}
use pi_296_cluster.Master.Output.{put_buffer_size, write_all_to_socket}

-- `filesize[pos] = b`, where `filesize` is the memory of the size.
pub store_byte : ℕ → ℕ → ℕ → ℕ
unfolding le_bytes le_value
store_byte pos b size = le_value (set (le_bytes sizeof_size size) pos b)

-- How the loop ended, `file_size`, `size_buffer_pos`, and what is still to arrive.
abbrev pub Sized : Type 0
Sized = Reply × ℕ × ℕ × List Arrival

pub size_loop : ℕ → ℕ → ℕ → List Arrival → Outcome Sized
unfolding store_byte
size_loop zero size pos s = hang
size_loop (suc fuel) size pos s =
    let (r, t) = read 1 s in
    elim r [
      | got [] ↦ ok (big_failure, size, pos, t)
      | got (b ∷ bs) ↦
          let more = size_loop fuel (store_byte pos b size) (pos + 1) t in
          if ltb pos sizeof_size
          then if pos + 1 == sizeof_size
            then ok (done_sending, store_byte pos b size, pos + 1, t)
            else more
          else fault
      | eintr ↦ size_loop fuel size pos t
      | eagain ↦ ok (not_done_sending, size, pos, t)
      | eother ↦ ok (big_failure, size, pos, t)
      | idle ↦ hang
    ]

-- What a write of `n` bytes comes to: an error, or nothing.
abbrev pub write_lost : Option ℕ → Bool
write_lost none = true
write_lost (some n) = n == 0

-- How the loop ended, `file_size`, the bytes that the file took, and what is still to arrive.
abbrev pub Received : Type 0
Received = Reply × ℕ × Bytes × List Arrival

-- The loop of `get_binary_data`, with a round for each event of the reads.
pub binary_loop : ℕ → ℕ → List Answer → List Arrival → Outcome Received
unfolding write_all_to_socket
binary_loop zero file_size disk s = hang
binary_loop (suc fuel) file_size disk s =
    let (r, t) = read (if ltb file_size put_buffer_size then file_size else put_buffer_size) s in
    let round : Outcome Received = elim r [
      | got bs ↦
          let (check_write, taken, left) = write_all_to_socket disk bs in
          let later : Outcome Received = (do
            (reply, size, more, u) ← binary_loop fuel (file_size - length bs) left t
            ok (reply, size, taken ++ more, u)) in
          if length bs == 0
          then ok (big_failure, file_size, [], t)
          else if write_lost check_write
          then ok (big_failure, file_size, taken, t)
          else later
      | eintr ↦ binary_loop fuel file_size disk t
      | eagain ↦ ok (not_done_sending, file_size, [], t)
      | eother ↦ ok (big_failure, file_size, [], t)
      | idle ↦ hang
    ] in
    if file_size == 0 then ok (done_sending, file_size, [], s) else round

module _ {F : Double} where
  pub get_size : Worker F → List Arrival → Outcome (Reply × Worker F × List Arrival)
  unfolding size_loop
  get_size w s = do
    (reply, size, pos, t) ← size_loop (length s + 1) w.file_size w.size_buffer_pos s
    ok (reply, record w { file_size = size; size_buffer_pos = pos }, t)
