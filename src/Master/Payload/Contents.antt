-- ===== src/Master/Payload/Contents.antt =====
-- `get_binary_data`: the contents of a file, which may come in several parts.
use pi_296_cluster.Prelude.{
  ℕ, zero, suc, ◌-◌, ◌<◌, ◌≡◌, refl, ap, sym, ◌∙◌, inl, inr, true, false, some, List, [], ◌∷◌, ◌++◌,
  arith, length-append, ◌==◌, length, ok,
}
use pi_296_cluster.Kernel.{Bytes, Arrival, got, eintr, read, Answer}
use pi_296_cluster.Kernel.Accepting.{Accepts}
use pi_296_cluster.Kernel.Delivery.{Delivers, read_cases}
use pi_296_cluster.Master.{done_sending}
use pi_296_cluster.Master.Output.{write_all_to_socket}
use pi_296_cluster.Master.Output.Everything.{asked, asked_fits, asked_pos, write_all_to_socket-all}
use pi_296_cluster.Master.Payload.{Received, binary_loop}

module _ (fuel file_size : ℕ) (disk : List Answer) (s : List Arrival) where
  pub binary_loop-eintr :
      0 < file_size
      → {t : List Arrival} → read (asked file_size) s ≡ (eintr, t)
      → binary_loop (suc fuel) file_size disk s ≡ binary_loop fuel file_size disk t
  unfolding binary_loop
  binary_loop-eintr pos e =
      let more : (file_size == 0) ≡ false = ground arith in
      rw (ap (λ p. p.0) e, ap (λ p. p.1) e, binary_loop) (rw more)

  pub binary_loop-got :
      0 < file_size
      → (part : Bytes) {t : List Arrival} → read (asked file_size) s ≡ (got part, t)
      → 0 < length part
      → {left : List Answer} {r : Received}
      → write_all_to_socket disk part ≡ (some (length part), part, left)
      → binary_loop fuel (file_size - length part) left t ≡ ok r
      → let (reply, size, more, u) = r in
        binary_loop (suc fuel) file_size disk s ≡ ok (reply, size, part ++ more, u)
  unfolding binary_loop
  binary_loop-got pos part e some_read writes later =
      let more : (file_size == 0) ≡ false = ground arith in
      let taken : (length part == 0) ≡ false = ground arith in
      rw (ap (λ p. p.0) e, ap (λ p. p.1) e, binary_loop)
        (rw (more, taken, ap (λ p. p.0) writes, ap (λ p. p.1) writes, ap (λ p. p.2) writes)
          (rw (taken, later)))

  binary_loop-stop :
      file_size ≡ 0 → binary_loop (suc fuel) file_size disk s ≡ ok (done_sending, file_size, [], s)
  unfolding binary_loop
  binary_loop-stop e = let stop : (file_size == 0) ≡ true = ground arith in rw stop

-- A file of any length, however it is cut up and interrupted, is taken in whole by the loop of
-- `get_binary_data`, if no write to the disk is refused; what follows it is left.
pub binary_loop-Delivers :
    (fuel : ℕ) (file : Bytes) (disk : List Answer) (s t : List Arrival)
    → length s < fuel
    → Delivers file s t
    → Accepts disk
    → binary_loop fuel (length file) disk s ≡ ok (done_sending, 0, file, t)
binary_loop-Delivers zero file disk s t enough d a = absurd (omega arith)
binary_loop-Delivers (suc fuel) [] disk s t enough d a =
    binary_loop-stop fuel 0 disk s refl ∙ ap (λ l. ok (done_sending, 0, [], l)) d
binary_loop-Delivers (suc fuel) (b ∷ bs) disk s t enough d a =
    let n : ℕ = length (b ∷ bs) in
    elim (read_cases (asked n) (b ∷ bs) s t (asked_pos n (omega arith)) (asked_fits n) d) [
      | inr r ↦
          binary_loop-eintr fuel n disk s (omega arith) r.returns
          ∙ binary_loop-Delivers fuel (b ∷ bs) disk r.left t (omega (arith, r.fewer)) r.more a
      | inl r ↦
          let (left, accepts, writes) = write_all_to_socket-all disk r.part a in
          let rest : Bytes = r.burst.rest in
          let size : length rest ≡ n - length r.part =
            omega (arith, ap length r.burst.whole, length-append r.part rest) in
          binary_loop-got fuel n disk s (omega arith) r.part r.returns r.some_stored writes (
            ap (λ k. binary_loop fuel k left r.left) (sym size)
            ∙ binary_loop-Delivers fuel rest left r.left t (omega (arith, r.fewer)) r.burst.more
                accepts)
          ∙ ap (λ l. ok (done_sending, 0, l, t)) (sym r.burst.whole)
    ]
