-- ===== src/Worker/Sending.antt =====
-- The thread `sending`: how the output of a task goes back to the master. The output file is its bytes.
pub mod Request
mod Tests
use pi_296_cluster.Prelude.{
  ℕ, zero, suc, ◌+◌, ◌-◌, Bool, true, false, Option, none, some, List, [], ◌∷◌, ◌++◌, leb, ◌==◌,
  if◌then◌else◌, take, drop, length, Outcome, ok, hang, ◌>>=◌,
}
use pi_296_cluster.Kernel.{Bytes, Answer}
use pi_296_cluster.Worker.{file_buffer_size, write_to_socket, write_size_to_socket, create_header}

-- OUTPUT_FILE_FORMAT
abbrev pub output_file_format : Bytes
output_file_format =
    b'_' ∷ b'O' ∷ b'U' ∷ b'T' ∷ b'P' ∷ b'U' ∷ b'T' ∷ b'.' ∷ b'O' ∷ b'U' ∷ b'T' ∷ b'P' ∷ b'U' ∷ b'T'
    ∷ []

-- The name that `create_output_file` sets.
pub output_filename : Bytes → Bytes
output_filename input_filename = input_filename ++ output_file_format

-- The loop of `write_file_to_socket`, on what is left of the file. What a read leaves of the buffer
-- stays in it; the return value of the read is not looked at.
pub send_loop : ℕ → Bytes → Bytes → ℕ → List Answer → Outcome (Option ℕ × Bytes × List Answer)
send_loop zero buffer file remain_size answers = hang
send_loop (suc fuel) buffer file remain_size answers =
    let count : ℕ = if leb file_buffer_size remain_size then file_buffer_size else remain_size in
    let part = take count file in
    let filled = part ++ drop (length part) buffer in
    let (r, sent, left) = write_to_socket answers (take count filled) in
    let round : Outcome (Option ℕ × Bytes × List Answer) = elim r [
      | none ↦ ok (none, sent, left)
      | some n ↦ (do
        (total, later, end) ← send_loop fuel filled (drop count file) (remain_size - n) left
        ok (elim total [ none ↦ none | some m ↦ some (n + m) ], sent ++ later, end))
    ] in
    if remain_size == 0 then ok (some 0, [], answers) else round

-- Every round but the last sends a byte or uses up an answer. The buffer comes from malloc.
pub write_file_to_socket :
    Bytes → Bytes → ℕ → List Answer → Outcome (Option ℕ × Bytes × List Answer)
unfolding send_loop
write_file_to_socket garbage file local_file_size answers =
    send_loop (local_file_size + length answers + 1) garbage file local_file_size answers

-- A round of `sending`: whether the thread goes on, and the bytes that it has sent.
pub send_output : Bytes → Bytes → Bytes → List Answer → Outcome (Bool × Bytes × List Answer)
unfolding write_file_to_socket
send_output garbage input_filename file answers =
    let (r, header, answers) = write_to_socket answers (create_header input_filename) in
    let (r', size, answers') = write_size_to_socket answers (length file) in
    let body : Outcome (Bool × Bytes × List Answer) = (do
      (total, bytes, end) ← write_file_to_socket garbage file (length file) answers'
      ok (elim total [ none ↦ false | some n ↦ true ], header ++ (size ++ bytes), end)) in
    elim r [
      | none ↦ ok (false, header, answers)
      | some n ↦ elim r' [ none ↦ ok (false, header ++ size, answers') | some m ↦ body ]
    ]
