-- ===== src/Worker/Sending/Request.antt =====
-- What `sending` sends for a task is the request that the master takes in from a worker.
use pi_296_cluster.Prelude.{
  ℕ, zero, suc, ◌+◌, ◌-◌, ◌<◌, ◌≤◌, ◌≡◌, refl, ap, ◌∙◌, sym, inl, inr, true, false, Bool-cases,
  some, List, [], ◌∷◌, ◌++◌, arith, leb, ◌==◌, if◌then◌else◌, take, drop, length, length-take,
  length-drop, take-append-drop, ok,
}
use pi_296_cluster.Kernel.{Bytes, Answer, sizeof_size, le_bytes}
use pi_296_cluster.Kernel.Accepting.{AcceptsBlocking}
use pi_296_cluster.Master.{to_put}
use pi_296_cluster.Master.Events.Receiving.{request}
use pi_296_cluster.Worker.{file_buffer_size, write_to_socket, write_size_to_socket, create_header}
use pi_296_cluster.Interface.Copying.{my_write-all, my_write-write_to_socket}
use pi_296_cluster.Worker.Sending.{send_loop, write_file_to_socket, send_output}

-- As for `my_write`: what is left of the answers is accepting too.
write_to_socket-accepts :
    (answers : List Answer) (buffer : Bytes)
    → AcceptsBlocking answers
    → (left : List Answer) × AcceptsBlocking left
      × (write_to_socket answers buffer ≡ (some (length buffer), buffer, left))
write_to_socket-accepts answers buffer a =
    let (left, accepts, sends) = my_write-all answers buffer a in
    (left, accepts, sym (my_write-write_to_socket answers buffer) ∙ sends)

-- What a round asks the file for.
abbrev chunk : ℕ → ℕ
chunk n = if leb file_buffer_size n then file_buffer_size else n

chunk_range : (n : ℕ) → 0 < n → (0 < chunk n) × (chunk n ≤ n)
chunk_range n some_size = elim (Bool-cases (leb file_buffer_size n)) [
  | inl large ↦ rw large (omega arith, ground (arith, large))
  | inr small ↦ rw small (some_size, omega arith)
]

take-filled : (n : ℕ) (part more : Bytes) → length part ≡ n → take n (part ++ more) ≡ part
take-filled zero [] more e = refl
take-filled zero (b ∷ part) more e = absurd (omega (arith, e))
take-filled (suc n) [] more e = absurd (omega (arith, e))
take-filled (suc n) (b ∷ part) more e = ap (◌∷◌ b) (take-filled n part more (omega (arith, e)))

module _ (fuel n k m : ℕ) (buffer file part rest later : Bytes)
    (answers left end : List Answer) where
  send_loop-round :
      (n == 0) ≡ false
      → take (chunk n) file ≡ part
      → drop (chunk n) file ≡ rest
      → take (chunk n) (part ++ drop (length part) buffer) ≡ part
      → write_to_socket answers part ≡ (some k, part, left)
      → send_loop fuel (part ++ drop (length part) buffer) rest (n - k) left
        ≡ ok (some m, later, end)
      → send_loop (suc fuel) buffer file n answers ≡ ok (some (k + m), part ++ later, end)
  unfolding send_loop
  send_loop-round more takes drops whole sends goes_on =
      rw more
        (rw takes (rw whole (rw sends (rw (takes, drops) (rw whole (rw sends (rw goes_on refl)))))))

send_loop-end :
    (fuel : ℕ) (buffer file : Bytes) (answers : List Answer)
    → length file ≡ 0
    → send_loop (suc fuel) buffer file (length file) answers
      ≡ ok (some (length file), file, answers)
unfolding send_loop
send_loop-end fuel buffer [] answers e = refl
send_loop-end fuel buffer (b ∷ file) answers e = absurd (omega (arith, e))

send_loop-all :
    (fuel : ℕ) (buffer file : Bytes) (answers : List Answer)
    → length file < fuel
    → AcceptsBlocking answers
    → (left : List Answer) × AcceptsBlocking left
      × (send_loop fuel buffer file (length file) answers ≡ ok (some (length file), file, left))
send_loop-all zero buffer file answers enough a = absurd (omega (arith, enough))
send_loop-all (suc fuel) buffer file answers enough a = elim (Bool-cases (length file == 0)) [
  | inl empty ↦ (answers, a, send_loop-end fuel buffer file answers (ground (arith, empty)))
  | inr some_bytes ↦
      let n : ℕ = length file in
      let (low, high) = chunk_range n (ground (arith, some_bytes)) in
      let part : Bytes = take (chunk n) file in
      let size : length part ≡ chunk n = omega (arith, length-take (chunk n) file, high) in
      let rest : length (drop (chunk n) file) ≡ n - length part =
        omega (arith, size, length-drop (chunk n) file) in
      let asked : take (chunk n) (part ++ drop (length part) buffer) ≡ part =
        take-filled (chunk n) part (drop (length part) buffer) size in
      let (left, accepts, sends) = write_to_socket-accepts answers part a in
      let (end, accepts', later) =
        send_loop-all fuel (part ++ drop (length part) buffer) (drop (chunk n) file) left
          (omega (arith, enough, rest, size, low)) accepts in
      let remains =
        ap (λ k. send_loop fuel (part ++ drop (length part) buffer) (drop (chunk n) file) k left)
          (sym rest)
        ∙ later in
      let sum : length part + length (drop (chunk n) file) ≡ n = omega (arith, size, rest, high) in
      (
        end,
        accepts',
        send_loop-round fuel n (length part) (length (drop (chunk n) file)) buffer file part
              (drop (chunk n) file) (drop (chunk n) file) answers left end some_bytes refl refl
              asked sends remains
            ∙ ap (λ k. ok (some k, part ++ drop (chunk n) file, end)) sum
            ∙ ap (λ f. ok (some n, f, end)) (take-append-drop (chunk n) file),
      )
]

module _ (garbage name file : Bytes) (answers a b c : List Answer) where
  send_output-run :
      {n : ℕ} {header : Bytes}
      → write_to_socket answers (create_header name) ≡ (some n, header, a)
      → {m : ℕ} {size : Bytes} → write_size_to_socket a (length file) ≡ (some m, size, b)
      → {k : ℕ} {bytes : Bytes}
      → write_file_to_socket garbage file (length file) b ≡ ok (some k, bytes, c)
      → send_output garbage name file answers ≡ ok (true, header ++ (size ++ bytes), c)
  unfolding send_output
  send_output-run e f g = rw (e, send_output) (rw e (rw f (rw e (rw f (rw g refl)))))

-- If no write is refused and none takes nothing, a round of `sending` sends the header, the size and the
-- whole output, which is the request that `handle_data` of the master takes in from a worker, and
-- nothing else, and the thread goes on; the output may have any length.
pub send_output-request :
    (garbage name file : Bytes) (answers : List Answer)
    → AcceptsBlocking answers
    → (left : List Answer) × (send_output garbage name file answers
        ≡ ok (true, request to_put name file, left))
unfolding create_header write_size_to_socket write_file_to_socket
send_output-request garbage name file answers a =
    let (left, accepts, first) = write_to_socket-accepts answers (create_header name) a in
    let (left', accepts', second) =
      write_to_socket-accepts left (le_bytes sizeof_size (length file)) accepts in
    let (end, accepts'', third) =
      send_loop-all (length file + length left' + 1) garbage file left' (omega arith) accepts' in
    (end, send_output-run garbage name file answers left left' end first second third)
