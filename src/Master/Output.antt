-- ===== src/Master/Output.antt =====
-- `write_all_to_socket` and `do_put`: what the master sends to a worker or to the interface. `do_put`
-- holds the lock of the master's lists from its start to each of its returns.
pub mod Everything
pub mod Agreement
mod Tests
use pi_296_cluster.Prelude.{
  ℕ, zero, suc, ◌+◌, ◌-◌, Bool, true, false, not, ◌&&◌, ◌||◌, Option, none, some, List, [], ◌∷◌,
  ◌++◌, ltb, leb, ◌==◌, if◌then◌else◌, take, drop, length, Outcome, ok, fault, hang, ◌>>=◌,
}
use pi_296_cluster.Kernel.{
  Bytes, Arrival, Read, got, eintr, eagain, eother, idle, read, Answer, took, write_eintr,
  write_eagain, write_failed, sizeof_size, le_bytes,
}
use pi_296_cluster.Text.{newline, space, put_request}
use pi_296_cluster.Master.{Reply, big_failure, done_sending}

-- `char buff[4096]`
abbrev pub put_buffer_size : ℕ
put_buffer_size = 4096

-- The loop of `write_all_to_socket`: the return value (`none` for -1), the bytes that are taken, and
-- the answers that are left.
pub write_all_loop : List Answer → Bytes → ℕ → Option ℕ × Bytes × List Answer
write_all_loop [] buffer total = (some (total + length buffer), buffer, [])
write_all_loop (took k ∷ later) buffer total =
    let part = take k buffer in
    let (r, sent, left) = write_all_loop later (drop k buffer) (total + length part) in
    if length buffer == 0
    then (some total, [], took k ∷ later)
    else if length part == 0
    then (some total, [], later)
    else (r, part ++ sent, left)
write_all_loop (write_eintr ∷ later) buffer total =
    let again = write_all_loop later buffer total in
    if length buffer == 0 then (some total, [], write_eintr ∷ later) else again
write_all_loop (write_eagain ∷ later) buffer total =
    let again = write_all_loop later buffer total in
    if length buffer == 0 then (some total, [], write_eagain ∷ later) else again
write_all_loop (write_failed ∷ later) buffer total =
    if length buffer == 0 then (some total, [], write_failed ∷ later) else (none, [], later)

unfoldable pub write_all_to_socket : List Answer → Bytes → Option ℕ × Bytes × List Answer
unfolding write_all_loop
write_all_to_socket answers buffer = write_all_loop answers buffer 0

-- `write_all_to_socket(...) == count`
abbrev pub wrote : Option ℕ → ℕ → Bool
wrote none count = false
wrote (some n) count = n == count

-- The return value of `do_put`, and the bytes that it has sent.
abbrev pub Put : Type 0
Put = Reply × Bytes

-- The loop over the file, with a round for each event of the reads.
pub put_loop : ℕ → ℕ → List Arrival → List Answer → Outcome Put
unfolding write_all_to_socket
put_loop zero file_size src answers = hang
put_loop (suc fuel) file_size src answers =
    let (r, src') =
      read (if ltb file_size put_buffer_size then file_size else put_buffer_size) src in
    let round : Outcome Put = elim r [
      | got bs ↦
          let (check_write, sent, left) = write_all_to_socket answers bs in
          let later : Outcome Put = (do
            (reply, more) ← put_loop fuel (file_size - length bs) src' left
            ok (reply, sent ++ more)) in
          if length bs == 0
          then ok (big_failure, [])
          else if wrote check_write (length bs)
          then later
          else ok (big_failure, sent)
      | eintr ↦ put_loop fuel file_size src' answers
      | eagain ↦ ok (big_failure, [])
      | eother ↦ ok (big_failure, [])
      | idle ↦ hang
    ] in
    if file_size == 0 then ok (done_sending, []) else round

-- sprintf(buff, "PUT %s\n", temp_file_name)
unfoldable pub put_header : Bytes → Bytes
put_header name = put_request ++ (space ∷ name ++ (newline ∷ []))

-- `file_size` is what `get_file_size` finds for the name, and `src` what the reads of `temp_fd` give
-- after the lseek.
unfoldable pub do_put : Bytes → ℕ → List Arrival → List Answer → Outcome Put
unfolding put_header write_all_to_socket put_loop le_bytes
do_put name file_size src answers =
    let header = put_header name in
    let (ret, sent, left) = write_all_to_socket answers header in
    let (ret_size, sent_size, left_size) =
      write_all_to_socket left (le_bytes sizeof_size file_size) in
    let file : Outcome Put = (do
      (reply, more) ← put_loop (length src + 1) file_size src left_size
      ok (reply, sent ++ (sent_size ++ more))) in
    if leb put_buffer_size (length header)
    then fault
    else if not (wrote ret (length header))
    then ok (big_failure, sent)
    else if not (wrote ret_size sizeof_size)
    then ok (big_failure, sent ++ sent_size)
    else file
