-- ===== src/Master/Payload/Parts.antt =====
-- `get_binary_data`: a part of a file, after which the socket would block.
use pi_296_cluster.Prelude.{
  ℕ, zero, suc, ◌+◌, ◌-◌, ◌<◌, ◌≡◌, ap, sym, ◌∙◌, inl, inr, false, List, [], ◌∷◌, arith,
  length-append, ◌==◌, length, ok,
}
use pi_296_cluster.Kernel.{Bytes, Arrival, would_block, eagain, read, Answer}
use pi_296_cluster.Kernel.Accepting.{Accepts}
use pi_296_cluster.Kernel.Delivery.{Delivers}
use pi_296_cluster.Kernel.Waiting.{read_waits, read_part}
use pi_296_cluster.Master.{not_done_sending}
use pi_296_cluster.Master.Output.Everything.{asked, asked_pos, write_all_to_socket-all}
use pi_296_cluster.Master.Payload.{binary_loop}
use pi_296_cluster.Master.Payload.Contents.{binary_loop-eintr, binary_loop-got}

binary_loop-eagain :
    (fuel file_size : ℕ) (disk : List Answer) (s t : List Arrival)
    → 0 < file_size
    → read (asked file_size) s ≡ (eagain, t)
    → binary_loop (suc fuel) file_size disk s ≡ ok (not_done_sending, file_size, [], t)
unfolding binary_loop
binary_loop-eagain fuel file_size disk s t pos e =
    let more : (file_size == 0) ≡ false = ground arith in
    rw (ap (λ p. p.0) e, ap (λ p. p.1) e, binary_loop) (rw more)

-- A part of a file, however it is cut up and interrupted, is taken in by the loop of
-- `get_binary_data`, which returns NOT_DONE_SENDING with the size of what is missing, if no write to the
-- disk is refused.
pub binary_loop-waits :
    (fuel missing : ℕ) (part : Bytes) (disk : List Answer) (s t : List Arrival)
    → length s < fuel
    → 0 < missing
    → Delivers part s (would_block ∷ t)
    → Accepts disk
    → binary_loop fuel (length part + missing) disk s ≡ ok (not_done_sending, missing, part, t)
binary_loop-waits zero missing part disk s t enough some_left d a = absurd (omega (arith, enough))
binary_loop-waits (suc fuel) missing [] disk s t enough some_left d a =
    let n : 0 + missing ≡ missing = omega arith in
    ap (λ k. binary_loop (suc fuel) k disk s) n
    ∙ ap (λ u. binary_loop (suc fuel) missing disk u) d
    ∙ binary_loop-eagain fuel missing disk (would_block ∷ t) t some_left
        (read_waits (asked missing) t (asked_pos missing some_left))
binary_loop-waits (suc fuel) missing (b ∷ bs) disk s t enough some_left d a =
    let n : ℕ = length (b ∷ bs) + missing in
    elim (read_part (asked n) b bs s t (asked_pos n (omega arith)) d) [
      | inr r ↦
          binary_loop-eintr fuel n disk s (omega arith) r.returns
          ∙ binary_loop-waits fuel missing (b ∷ bs) disk r.left t (omega (arith, enough, r.fewer))
              some_left r.more a
      | inl r ↦
          let (left, accepts, writes) = write_all_to_socket-all disk r.part a in
          let rest : Bytes = r.burst.rest in
          let size : length rest + missing ≡ n - length r.part =
            omega (arith, ap length r.burst.whole, length-append r.part rest) in
          binary_loop-got fuel n disk s (omega arith) r.part r.returns r.some_stored writes (
            ap (λ k. binary_loop fuel k left r.left) (sym size)
            ∙ binary_loop-waits fuel missing rest left r.left t (omega (arith, enough, r.fewer))
                some_left r.burst.more accepts)
          ∙ ap (λ l. ok (not_done_sending, missing, l, t)) (sym r.burst.whole)
    ]
