-- ===== src/Worker/Writing.antt =====
-- `write_to_socket`: every byte is sent if no write is refused, and what it returns is what was sent.
use pi_296_cluster.Prelude.{
  ℕ, ◌+◌, ◌≤◌, ◌<◌, ◌≡◌, refl, ap, ap₂, sym, ◌∙◌, inl, inr, true, false, Bool-cases, Option, some,
  List, [], ◌∷◌, ◌++◌, arith, length, take, drop, length-take, length-drop, take-append-drop,
  take_all, leb, leb→le, leb→gt, ◌==◌, append-nil, append_assoc, length-append, some-injective,
}
use pi_296_cluster.Kernel.{Bytes, Answer, took, write_eintr, write_eagain, write_failed}
use pi_296_cluster.Kernel.Accepting.{AcceptsBlocking}
use pi_296_cluster.Worker.{write_loop, write_to_socket}

module _ (k : ℕ) (later : List Answer) (buffer : Bytes) (total : ℕ)
    (taken : 0 < length (take k buffer)) where
  nonzero : (length (take k buffer) == 0) ≡ false
  nonzero = ground arith

  write_loop-last :
      length buffer ≤ length (take k buffer)
      → write_loop (took k ∷ later) buffer total ≡ (some (total + length buffer), buffer, later)
  unfolding write_loop
  write_loop-last all =
      let done : leb (length buffer) (length (take k buffer)) ≡ true = ground arith in
      let same : take k buffer ≡ buffer = take_all k buffer (omega (arith, length-take k buffer)) in
      rw (nonzero, done) (rw same)

  write_loop-more :
      length (take k buffer) < length buffer
      → {r : Option ℕ} {sent : Bytes} {left : List Answer}
      → write_loop later (drop k buffer) (total + length (take k buffer)) ≡ (r, sent, left)
      → write_loop (took k ∷ later) buffer total ≡ (r, take k buffer ++ sent, left)
  unfolding write_loop
  write_loop-more part e =
      let more : leb (length buffer) (length (take k buffer)) ≡ false = ground arith in
      rw (nonzero, more)
        (ap (λ (p : Option ℕ × Bytes × List Answer). (p.0, take k buffer ++ p.1, p.2)) e)

write_loop-all :
    (answers : List Answer) (buffer : Bytes) (total : ℕ)
    → AcceptsBlocking answers
    → 0 < length buffer
    → (left : List Answer) × (write_loop answers buffer total
        ≡ (some (total + length buffer), buffer, left))
unfolding write_loop
write_loop-all [] buffer total a pos = ([], refl)
write_loop-all (took k ∷ later) buffer total a pos =
    let size = length-take k buffer in
    let rest = length-drop k buffer in
    let taken : 0 < length (take k buffer) = omega (arith, size, a.0) in
    elim (Bool-cases (leb (length buffer) (length (take k buffer)))) [
      | inl all ↦ (
        later,
        write_loop-last k later buffer total taken
            (leb→le (length buffer) (length (take k buffer)) all),
      )
      | inr part ↦
          let short = leb→gt (length buffer) (length (take k buffer)) part in
          let (left, e) =
            write_loop-all later (drop k buffer) (total + length (take k buffer)) a.1
              (omega (arith, size, rest, short)) in
          (
            left,
            write_loop-more k later buffer total taken short e
                ∙ ap₂ (λ n bs. (some n, bs, left)) (omega (arith, size, rest, short))
                    (take-append-drop k buffer),
          )
    ]
write_loop-all (write_eintr ∷ later) buffer total a pos = write_loop-all later buffer total a pos
write_loop-all (write_eagain ∷ later) buffer total a pos = absurd a
write_loop-all (write_failed ∷ later) buffer total a pos = absurd a

-- However few bytes each write takes, and however often it is interrupted, `write_to_socket` sends a
-- buffer that is not empty whole and in order and returns its length, if no write is refused and none
-- takes nothing.
pub write_to_socket-all :
    (answers : List Answer) (buffer : Bytes)
    → AcceptsBlocking answers
    → 0 < length buffer
    → (left : List Answer) × (write_to_socket answers buffer ≡ (some (length buffer), buffer, left))
unfolding write_to_socket
write_to_socket-all answers buffer a pos =
    let (left, e) = write_loop-all answers buffer 0 a pos in
    let sum : 0 + length buffer ≡ length buffer = omega arith in (left, rw sum at e)

-- What was sent of the buffer, and what the return value says of it.
abbrev pub Sent : ℕ → Bytes → Option ℕ × Bytes × List Answer → Type 0
Sent total buffer r =
    ((rest : Bytes) × (buffer ≡ r.1 ++ rest)) × ((n : ℕ) → r.0 ≡ some n → n ≡ total + length r.1)

write_loop-Sent :
    (answers : List Answer) (buffer : Bytes) (total : ℕ)
    → Sent total buffer (write_loop answers buffer total)
unfolding write_loop
write_loop-Sent [] buffer total =
    (([], sym (append-nil buffer)), λ n e. sym (some-injective (total + length buffer) n e))
write_loop-Sent (took k ∷ later) buffer total = elim (Bool-cases (length (take k buffer) == 0)) [
  | inl nothing ↦ rw nothing ((buffer, refl), λ n e. omega (arith, some-injective total n e))
  | inr something ↦ elim (Bool-cases (leb (length buffer) (length (take k buffer)))) [
    | inl all ↦
        rw (something, all)
          (
            (drop k buffer, sym (take-append-drop k buffer)),
            λ n e. sym (some-injective (total + length (take k buffer)) n e),
          )
    | inr part ↦
        let ((rest, whole), count) =
          write_loop-Sent later (drop k buffer) (total + length (take k buffer)) in
        rw (something, part)
          (
            (
              rest,
              sym (take-append-drop k buffer)
                  ∙ ap (λ l. take k buffer ++ l) whole
                  ∙ sym (
                      append_assoc (take k buffer)
                        (write_loop later (drop k buffer) (total + length (take k buffer))).1 rest),
            ),
            λ n e. omega (
              arith,
              count n e,
              length-append (take k buffer)
                  (write_loop later (drop k buffer) (total + length (take k buffer))).1,
            ),
          )
  ]
]
write_loop-Sent (write_eintr ∷ later) buffer total = write_loop-Sent later buffer total
write_loop-Sent (write_eagain ∷ later) buffer total = ((buffer, refl), λ n e. cc)
write_loop-Sent (write_failed ∷ later) buffer total = ((buffer, refl), λ n e. cc)

-- Whatever the answers to the writes, what `write_to_socket` has sent is a prefix of the buffer, and
-- if it returns a number, that is how many bytes it has sent.
pub write_to_socket-Sent :
    (answers : List Answer) (buffer : Bytes) → Sent 0 buffer (write_to_socket answers buffer)
unfolding write_to_socket
write_to_socket-Sent answers buffer = write_loop-Sent answers buffer 0
