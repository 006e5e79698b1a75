-- ===== src/Interface/Printing.antt =====
-- `output_reciever` prints the output that the master sends, until the master closes.
use pi_296_cluster.Prelude.{
  ℕ, zero, suc, ◌+◌, ◌-◌, ◌^◌, ◌<◌, ◌≤◌, ◌≡◌, ◌≢◌, refl, ap, ◌∙◌, sym, inl, inr, true, false,
  Bool-cases, none, some, List, [], ◌∷◌, ◌++◌, arith, ltb, ◌==◌, ==_of_ne, if◌then◌else◌, length,
  length-append, ok, fault,
}
use pi_296_cluster.Kernel.{
  Bytes, Arrival, byte, gap, interrupted, would_block, broken, closed, got, eintr, read, Answer,
  sizeof_size, le_bytes, le_value,
}
use pi_296_cluster.Kernel.Delivery.{Delivers, read_cases, le-roundtrip, length-le_bytes}
use pi_296_cluster.Text.{newline, Without}
use pi_296_cluster.Interface.{
  buf_size, read_into, skip_header, size_rounds, copy_loop, signed_size, print_output,
}

-- From `s` come exactly these bytes, perhaps with gaps before any of them, and then `t`.
abbrev pub Arrives : Bytes → List Arrival → List Arrival → Type 0
Arrives [] s t = s ≡ t
Arrives (b ∷ bs) [] t = ⊥
Arrives (b ∷ bs) (byte c ∷ s) t = (c ≡ b) × Arrives bs s t
Arrives (b ∷ bs) (gap ∷ s) t = Arrives (b ∷ bs) s t
Arrives (b ∷ bs) (interrupted ∷ s) t = ⊥
Arrives (b ∷ bs) (would_block ∷ s) t = ⊥
Arrives (b ∷ bs) (broken ∷ s) t = ⊥
Arrives (b ∷ bs) (closed ∷ s) t = ⊥

-- One read of one byte.
read_into-Arrives :
    (x b : ℕ) (bs : Bytes) (s t : List Arrival)
    → Arrives (b ∷ bs) s t
    → (u : List Arrival) × (read_into x s ≡ ok (b, u)) × Arrives bs u t
read_into-Arrives x b bs [] t d = absurd d
read_into-Arrives x b bs (byte c ∷ s) t d = (s, ap (λ c. ok (c, s)) d.0, d.1)
read_into-Arrives x b bs (gap ∷ s) t d = read_into-Arrives x b bs s t d
read_into-Arrives x b bs (interrupted ∷ s) t d = absurd d
read_into-Arrives x b bs (would_block ∷ s) t d = absurd d
read_into-Arrives x b bs (broken ∷ s) t d = absurd d
read_into-Arrives x b bs (closed ∷ s) t d = absurd d

skip_header-Arrives :
    (fuel b idx : ℕ) (line bs : Bytes) (s t : List Arrival)
    → Without newline line
    → length line < fuel
    → idx + length line ≤ buf_size
    → Arrives (line ++ (newline ∷ bs)) s t
    → (u : List Arrival) × (skip_header fuel b idx s ≡ ok (newline, u)) × Arrives bs u t
unfolding skip_header
skip_header-Arrives zero b idx line bs s t plain enough room d = absurd (omega (arith, enough))
skip_header-Arrives (suc fuel) b idx [] bs s t plain enough room d =
    let (u, reads, rest) = read_into-Arrives b newline bs s t d in (u, rw reads refl, rest)
skip_header-Arrives (suc fuel) b idx (c ∷ line) bs s t plain enough room d =
    let (v, reads, rest) = read_into-Arrives b c (line ++ (newline ∷ bs)) s t d in
    let inside : ltb idx buf_size ≡ true = ground (arith, room) in
    let (u, skips, rest') =
      skip_header-Arrives fuel c (idx + 1) line bs v t plain.1 (omega (arith, enough))
        (omega (arith, room)) rest in
    (u, rw reads (rw (plain.0, inside) skips), rest')

size_rounds-Arrives :
    (k b : ℕ) (bs : Bytes) (s t : List Arrival)
    → length bs ≡ k
    → Arrives bs s t
    → (last : ℕ) × (size_rounds k b s ≡ ok (bs, last, t))
unfolding size_rounds
size_rounds-Arrives zero b [] s t e d = (b, ap (λ l. ok ([], b, l)) d)
size_rounds-Arrives zero b (c ∷ bs) s t e d = absurd (omega (arith, e))
size_rounds-Arrives (suc k) b [] s t e d = absurd (omega (arith, e))
size_rounds-Arrives (suc k) b (c ∷ bs) s t e d =
    let (u, reads, rest) = read_into-Arrives b c bs s t d in
    let (last, more) = size_rounds-Arrives k c bs u t (omega (arith, e)) rest in
    (last, rw reads (rw more refl))

-- What a round of the copy loop asks for.
abbrev asked : ℕ → ℕ
asked n = if ltb 4096 n then 4096 else n

asked_range : (n : ℕ) → 0 < n → (0 < asked n) × (asked n ≤ n)
asked_range n some_size = elim (Bool-cases (ltb 4096 n)) [
  | inl large ↦ rw large (omega arith, ground (arith, large))
  | inr small ↦ rw small (some_size, omega arith)
]

module _ (fuel n : ℕ) (s : List Arrival) (some_size : 0 < n) where
  copy_loop-eintr :
      {t : List Arrival}
      → read (asked n) s ≡ (eintr, t)
      → copy_loop (suc fuel) (some n) [] s ≡ copy_loop fuel (some n) [] t
  unfolding copy_loop
  copy_loop-eintr e =
      let more : (n == 0) ≡ false = ground (arith, some_size) in
      rw (ap (λ p. p.0) e, ap (λ p. p.1) e, copy_loop) (rw more)

  copy_loop-got :
      (part : Bytes) {t : List Arrival}
      → read (asked n) s ≡ (got part, t)
      → 0 < length part
      → {total : ℕ} {later : Bytes} {u : List Arrival}
      → copy_loop fuel (some (n - length part)) [] t ≡ ok (some total, later, u)
      → copy_loop (suc fuel) (some n) [] s ≡ ok (some (length part + total), part ++ later, u)
  unfolding copy_loop
  copy_loop-got part e some_read rest =
      let more : (n == 0) ≡ false = ground (arith, some_size) in
      let taken : (length part == 0) ≡ false = ground (arith, some_read) in
      rw (ap (λ p. p.0) e, ap (λ p. p.1) e, copy_loop) (rw (more, taken) (rw rest refl))

copy_loop-Delivers :
    (fuel : ℕ) (file : Bytes) (s t : List Arrival)
    → length s < fuel
    → Delivers file s t
    → copy_loop fuel (some (length file)) [] s ≡ ok (some (length file), file, t)
unfolding copy_loop
copy_loop-Delivers zero file s t enough d = absurd (omega (arith, enough))
copy_loop-Delivers (suc fuel) [] s t enough d = ap (λ l. ok (some 0, [], l)) d
copy_loop-Delivers (suc fuel) (b ∷ bs) s t enough d =
    let n : ℕ = length (b ∷ bs) in
    let (low, high) = asked_range n (omega arith) in
    elim (read_cases (asked n) (b ∷ bs) s t low high d) [
      | inr r ↦
          copy_loop-eintr fuel n s (omega arith) r.returns
          ∙ copy_loop-Delivers fuel (b ∷ bs) r.left t (omega (arith, enough, r.fewer)) r.more
      | inl r ↦
          let rest : Bytes = r.burst.rest in
          let split = ap length r.burst.whole ∙ length-append r.part rest in
          let size : length rest ≡ n - length r.part = omega (arith, split) in
          let sum : length r.part + length rest ≡ n = omega (arith, split) in
          copy_loop-got fuel n s (omega arith) r.part r.returns r.some_stored (
            ap (λ k. copy_loop fuel (some k) [] r.left) (sym size)
            ∙ copy_loop-Delivers fuel rest r.left t (omega (arith, enough, r.fewer)) r.burst.more)
          ∙ ap (λ k. ok (some k, r.part ++ rest, t)) sum
          ∙ ap (λ l. ok (some n, l, t)) (sym r.burst.whole)
    ]

-- A header without its newline, the newline, and the size of a file.
abbrev pub head_of : Bytes → Bytes → Bytes
head_of line file = line ++ (newline ∷ le_bytes sizeof_size (length file))

-- When a line that fits the buffer, the eight bytes of a size and a file of that size have come, where
-- no read of the line and of the size fails, `output_reciever` prints the file, whatever `b` was before,
-- and leaves what follows. The terminal takes each write whole.
pub print_output-head_of :
    (b : ℕ) (line file : Bytes) (s u t : List Arrival)
    → Without newline line
    → length line ≤ buf_size
    → length file < 2 ^ 63
    → Arrives (head_of line file) s u
    → Delivers file u t
    → (last : ℕ) × (print_output b [] s ≡ ok (last, file, t))
unfolding print_output
print_output-head_of b line file s u t plain room bound d contents =
    let n : ℕ = length file in
    let (v, skips, rest) =
      skip_header-Arrives (length s + buf_size + 2) b 0 line (le_bytes sizeof_size n) s u plain
        (omega (arith, room)) (omega (arith, room)) d in
    let (last, sizes) =
      size_rounds-Arrives sizeof_size newline (le_bytes sizeof_size n) v u
        (length-le_bytes sizeof_size n) rest in
    let value : le_value (le_bytes sizeof_size n) ≡ n =
      le-roundtrip sizeof_size n (omega (arith, bound)) in
    let whole : ltb n (2 ^ 63) ≡ true = ground (arith, bound) in
    let signed : signed_size (le_value (le_bytes sizeof_size n)) ≡ some n =
      ap signed_size value ∙ ap (λ c. if c then some n else none) whole in
    (
      last,
      rw skips (
          rw sizes (
            rw signed
              (rw (copy_loop-Delivers (length u + 1) file u t (omega arith) contents) refl))),
    )

skip_header-closed :
    (fuel b idx : ℕ) (t : List Arrival)
    → b ≢ newline
    → idx ≤ buf_size
    → buf_size < idx + fuel
    → skip_header fuel b idx (closed ∷ t) ≡ fault
unfolding skip_header
skip_header-closed zero b idx t other inside enough = absurd (omega (arith, inside, enough))
skip_header-closed (suc fuel) b idx t other inside enough =
    let more : (b == newline) ≡ false = ==_of_ne b newline other in
    elim (Bool-cases (ltb idx buf_size)) [
      | inl room ↦
          rw (more, room)
            (skip_header-closed fuel b (idx + 1) t other (ground (arith, room))
              (omega (arith, enough)))
      | inr full ↦ rw (more, full) refl
    ]

-- When the master has closed its end, `output_reciever` stores the last byte that it has read again and
-- again until it is past the end of its buffer, unless that byte is a newline.
pub print_output-closed :
    (b : ℕ) (out : List Answer) (t : List Arrival)
    → b ≢ newline
    → print_output b out (closed ∷ t) ≡ fault
unfolding print_output
print_output-closed b out t other =
    rw
      (skip_header-closed (length (closed ∷ t) + buf_size + 2) b 0 t other (omega arith)
        (omega arith))
      refl
