-- ===== src/Master/Output/Everything.antt =====
-- `do_put` sends the whole message, if no write is refused and the file can be read whole.
use pi_296_cluster.Prelude.{
  ℕ, zero, suc, ◌+◌, ◌-◌, ◌≤◌, ◌<◌, ◌≡◌, inl, inr, refl, ap, ap₂, sym, ◌∙◌, true, false, Option,
  some, List, [], ◌∷◌, ◌++◌, arith, ltb, leb, ◌==◌, ==_refl, if◌then◌else◌, take, drop, length,
  length-take, length-drop, take-append-drop, length-append, ok,
}
use pi_296_cluster.Kernel.{
  Bytes, Arrival, got, eintr, read, Answer, took, write_eintr, write_eagain, write_failed,
  sizeof_size, le_bytes,
}
use pi_296_cluster.Kernel.Accepting.{Accepts}
use pi_296_cluster.Kernel.Delivery.{Delivers, read_cases, length-le_bytes}
use pi_296_cluster.Master.{done_sending}
use pi_296_cluster.Master.Output.{
  put_buffer_size, write_all_loop, write_all_to_socket, put_loop, put_header, do_put,
}

module _ (k : ℕ) (later : List Answer) (buffer : Bytes) (total : ℕ) where
  write_all_loop-none :
      length buffer ≡ 0
      → write_all_loop (took k ∷ later) buffer total ≡ (some total, [], took k ∷ later)
  unfolding write_all_loop
  write_all_loop-none e = let stop : (length buffer == 0) ≡ true = ground arith in rw stop

  write_all_loop-more :
      0 < length buffer
      → 0 < k
      → {r : Option ℕ} {sent : Bytes} {left : List Answer}
      → write_all_loop later (drop k buffer) (total + length (take k buffer)) ≡ (r, sent, left)
      → write_all_loop (took k ∷ later) buffer total ≡ (r, take k buffer ++ sent, left)
  unfolding write_all_loop
  write_all_loop-more some_left pos e =
      let size = length-take k buffer in
      let more : (length buffer == 0) ≡ false = ground arith in
      let taken : (length (take k buffer) == 0) ≡ false = ground (arith, size) in
      rw (more, taken)
        (ap (λ (p : Option ℕ × Bytes × List Answer). (p.0, take k buffer ++ p.1, p.2)) e)

-- The whole buffer is sent, and the answers that are left refuse nothing either.
abbrev pub AllSent : List Answer → Bytes → ℕ → Type 0
AllSent answers buffer total =
    (left : List Answer) × Accepts left
    × (write_all_loop answers buffer total ≡ (some (total + length buffer), buffer, left))

no_bytes : (buffer : Bytes) → length buffer ≡ 0 → buffer ≡ []
no_bytes [] e = refl
no_bytes (b ∷ bs) e = absurd (omega arith)

nothing_left :
    (total : ℕ) (answers : List Answer)
    → ◌≡◌ {A = Option ℕ × Bytes × List Answer}
        (some total, [], answers)
        (some (total + 0), [], answers)
nothing_left total answers = let same : total + 0 ≡ total = omega arith in rw same

write_all_loop-all :
    (answers : List Answer) (buffer : Bytes) (total : ℕ)
    → Accepts answers
    → AllSent answers buffer total
unfolding write_all_loop
write_all_loop-all [] buffer total a = ([], tt, refl)
write_all_loop-all (took k ∷ later) [] total a =
    (took k ∷ later, a, nothing_left total (took k ∷ later))
write_all_loop-all (took k ∷ later) (b ∷ bs) total a =
    let size = length-take k (b ∷ bs) in
    let (left, accepts, e) =
      write_all_loop-all later (drop k (b ∷ bs)) (total + length (take k (b ∷ bs))) a.1 in
    (
      left,
      accepts,
      write_all_loop-more k later (b ∷ bs) total (omega arith) a.0 e
          ∙ ap₂ (λ n bytes. (some n, bytes, left)) (omega (arith, size, length-drop k (b ∷ bs)))
              (take-append-drop k (b ∷ bs)),
    )
write_all_loop-all (write_eintr ∷ later) [] total a =
    (write_eintr ∷ later, a, nothing_left total (write_eintr ∷ later))
write_all_loop-all (write_eintr ∷ later) (b ∷ bs) total a =
    let (left, accepts, e) = write_all_loop-all later (b ∷ bs) total a in
    let more : (length (b ∷ bs) == 0) ≡ false = ground arith in (left, accepts, rw more e)
write_all_loop-all (write_eagain ∷ later) [] total a =
    (write_eagain ∷ later, a, nothing_left total (write_eagain ∷ later))
write_all_loop-all (write_eagain ∷ later) (b ∷ bs) total a =
    let (left, accepts, e) = write_all_loop-all later (b ∷ bs) total a in
    let more : (length (b ∷ bs) == 0) ≡ false = ground arith in (left, accepts, rw more e)
write_all_loop-all (write_failed ∷ later) buffer total a = absurd a

pub write_all_to_socket-all :
    (answers : List Answer) (buffer : Bytes)
    → Accepts answers
    → (left : List Answer) × Accepts left
      × (write_all_to_socket answers buffer ≡ (some (length buffer), buffer, left))
unfolding write_all_to_socket
write_all_to_socket-all answers buffer a =
    let (left, accepts, e) = write_all_loop-all answers buffer 0 a in
    let sum : 0 + length buffer ≡ length buffer = omega arith in (left, accepts, rw sum at e)

-- How much a round asks read for.
abbrev pub asked : ℕ → ℕ
asked n = if ltb n put_buffer_size then n else put_buffer_size

pub asked_fits : (n : ℕ) → asked n ≤ n
asked_fits n = ground arith

pub asked_pos : (n : ℕ) → 0 < n → 0 < asked n
asked_pos n h = ground arith

module _ (fuel file_size : ℕ) (src : List Arrival) (answers : List Answer) where
  put_loop-stop : file_size ≡ 0 → put_loop (suc fuel) file_size src answers ≡ ok (done_sending, [])
  unfolding put_loop
  put_loop-stop e = let stop : (file_size == 0) ≡ true = ground arith in rw stop

  put_loop-eintr :
      0 < file_size
      → {t : List Arrival} → read (asked file_size) src ≡ (eintr, t)
      → put_loop (suc fuel) file_size src answers ≡ put_loop fuel file_size t answers
  unfolding put_loop
  put_loop-eintr pos e =
      let more : (file_size == 0) ≡ false = ground arith in
      rw (ap (λ p. p.0) e, ap (λ p. p.1) e, put_loop) (rw more)

  put_loop-got :
      0 < file_size
      → (part : Bytes) {t : List Arrival} → read (asked file_size) src ≡ (got part, t)
      → 0 < length part
      → {left : List Answer} {rest : Bytes}
      → write_all_to_socket answers part ≡ (some (length part), part, left)
      → put_loop fuel (file_size - length part) t left ≡ ok (done_sending, rest)
      → put_loop (suc fuel) file_size src answers ≡ ok (done_sending, part ++ rest)
  unfolding put_loop
  put_loop-got pos part e some_read writes later =
      let more : (file_size == 0) ≡ false = ground arith in
      let taken : (length part == 0) ≡ false = ground arith in
      rw (ap (λ p. p.0) e, ap (λ p. p.1) e, put_loop)
        (rw (more, taken, ap (λ p. p.0) writes, ap (λ p. p.1) writes, ap (λ p. p.2) writes)
          (rw (==_refl (length part), later)))

put_loop-Delivers :
    (fuel : ℕ) (file : Bytes) (src t : List Arrival) (answers : List Answer)
    → length src < fuel
    → Delivers file src t
    → Accepts answers
    → put_loop fuel (length file) src answers ≡ ok (done_sending, file)
put_loop-Delivers zero file src t answers enough d a = absurd (omega arith)
put_loop-Delivers (suc fuel) [] src t answers enough d a = put_loop-stop fuel 0 src answers refl
put_loop-Delivers (suc fuel) (b ∷ bs) src t answers enough d a =
    let n : ℕ = length (b ∷ bs) in
    elim (read_cases (asked n) (b ∷ bs) src t (asked_pos n (omega arith)) (asked_fits n) d) [
      | inr r ↦
          put_loop-eintr fuel n src answers (omega arith) r.returns
          ∙ put_loop-Delivers fuel (b ∷ bs) r.left t answers (omega (arith, r.fewer)) r.more a
      | inl r ↦
          let (left, accepts, writes) = write_all_to_socket-all answers r.part a in
          let rest : Bytes = r.burst.rest in
          let size : length rest ≡ n - length r.part =
            omega (arith, ap length r.burst.whole, length-append r.part rest) in
          put_loop-got fuel n src answers (omega arith) r.part r.returns r.some_stored writes (
            ap (λ k. put_loop fuel k r.left left) (sym size)
            ∙ put_loop-Delivers fuel rest r.left t left (omega (arith, r.fewer)) r.burst.more
                accepts)
          ∙ ap (λ l. ok (done_sending, l)) (sym r.burst.whole)
    ]

-- What `do_put` is to send for a name and a file.
abbrev pub put_message : Bytes → Bytes → Bytes
put_message name file = put_header name ++ (le_bytes sizeof_size (length file) ++ file)

do_put-run :
    (name : Bytes) (file_size : ℕ) (src : List Arrival) (answers : List Answer)
    → length (put_header name) < put_buffer_size
    → {left left' : List Answer} {file : Bytes}
    → write_all_to_socket answers (put_header name)
      ≡ (some (length (put_header name)), put_header name, left)
    → write_all_to_socket left (le_bytes sizeof_size file_size)
      ≡ (some sizeof_size, le_bytes sizeof_size file_size, left')
    → put_loop (length src + 1) file_size src left' ≡ ok (done_sending, file)
    → do_put name file_size src answers
      ≡ ok (done_sending, put_header name ++ (le_bytes sizeof_size file_size ++ file))
unfolding do_put
do_put-run name file_size src answers fits first second third =
    let room : leb put_buffer_size (length (put_header name)) ≡ false = ground arith in
    rw (room, ap (λ p. p.0) first, ap (λ p. p.1) first, ap (λ p. p.2) first)
      (rw
        (
          ==_refl (length (put_header name)),
          ap (λ p. p.0) second,
          ap (λ p. p.1) second,
          ap (λ p. p.2) second,
        )
        (rw third))

-- If the header fits its buffer, the size is that of the file, the reads deliver the file, cut up and
-- interrupted as they may be, and no write is refused, `do_put` returns DONE_SENDING without a fault, and
-- sends the header, the size and the file, and nothing else.
pub do_put-everything :
    (name file : Bytes) (src t : List Arrival) (answers : List Answer)
    → length (put_header name) < put_buffer_size
    → Delivers file src t
    → Accepts answers
    → do_put name (length file) src answers ≡ ok (done_sending, put_message name file)
unfolding do_put
do_put-everything name file src t answers fits d a =
    let (left, accepts, first) = write_all_to_socket-all answers (put_header name) a in
    let eight = length-le_bytes sizeof_size (length file) in
    let (left', accepts', second) =
      write_all_to_socket-all left (le_bytes sizeof_size (length file)) accepts in
    do_put-run name (length file) src answers fits first (rw eight at second)
      (put_loop-Delivers (length src + 1) file src t left' (omega arith) d accepts')
