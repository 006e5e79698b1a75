-- ===== src/Master/Payload/Sizes.antt =====
-- `get_size`: the eight bytes of a size, which may come in several parts.
use pi_296_cluster.Prelude.{
  ℕ, zero, suc, ◌+◌, ◌-◌, ◌^◌, ◌<◌, ◌≡◌, ap, ap₂, sym, ◌∙◌, inl, inr, true, false, List, [], ◌∷◌,
  ◌++◌, arith, append_assoc, append-nil, length-append, ltb, ◌==◌, length, replicate, Outcome, ok,
}
use pi_296_cluster.Kernel.{
  Bytes, Arrival, would_block, got, eintr, read, sizeof_size, le_bytes, le_value,
}
use pi_296_cluster.Kernel.Delivery.{Delivers, read_cases, le-roundtrip, length-le_bytes}
use pi_296_cluster.Kernel.Single.{Stored-OneByte}
use pi_296_cluster.Master.{done_sending, not_done_sending, Worker}
use pi_296_cluster.Master.Floats.{Double}
use pi_296_cluster.Master.Payload.{Sized, store_byte, size_loop, get_size}
use pi_296_cluster.Master.Payload.Bytewise.{AllBytes, AllBytes-append, size_of, store_byte-size_of}

module _ (fuel size pos : ℕ) (s : List Arrival) {t : List Arrival} where
  size_loop-eintr :
      read 1 s ≡ (eintr, t) → size_loop (suc fuel) size pos s ≡ size_loop fuel size pos t
  unfolding size_loop
  size_loop-eintr e = rw (ap (λ p. p.0) e, ap (λ p. p.1) e, size_loop)

  size_loop-byte :
      (b : ℕ)
      → read 1 s ≡ (got (b ∷ []), t)
      → pos + 1 < sizeof_size
      → size_loop (suc fuel) size pos s ≡ size_loop fuel (store_byte pos b size) (pos + 1) t
  unfolding size_loop
  size_loop-byte b e room =
      let inside : ltb pos sizeof_size ≡ true = ground arith in
      let more : (pos + 1 == sizeof_size) ≡ false = ground arith in
      rw (ap (λ p. p.0) e, ap (λ p. p.1) e, size_loop) (rw (inside, more))

  size_loop-last :
      (b : ℕ)
      → read 1 s ≡ (got (b ∷ []), t)
      → pos + 1 ≡ sizeof_size
      → size_loop (suc fuel) size pos s ≡ ok (done_sending, store_byte pos b size, pos + 1, t)
  unfolding size_loop
  size_loop-last b e last =
      let inside : ltb pos sizeof_size ≡ true = ground arith in
      let done : (pos + 1 == sizeof_size) ≡ true = ground arith in
      rw (ap (λ p. p.0) e, ap (λ p. p.1) e, size_loop) (rw (inside, done))

-- The loop with so many bytes taken in, and `k` to come.
abbrev size_at : ℕ → Bytes → ℕ → List Arrival → Outcome Sized
size_at fuel stored k s = size_loop fuel (size_of stored k) (length stored) s

length-snoc : (bs : Bytes) (b : ℕ) → length (bs ++ (b ∷ [])) ≡ length bs + 1
length-snoc bs b = length-append bs (b ∷ [])

size_at-byte :
    (fuel : ℕ) (stored : Bytes) (k b : ℕ) (s : List Arrival) {t : List Arrival}
    → read 1 s ≡ (got (b ∷ []), t)
    → AllBytes stored
    → length stored + suc (suc k) ≡ sizeof_size
    → size_at (suc fuel) stored (suc (suc k)) s ≡ size_at fuel (stored ++ (b ∷ [])) (suc k) t
size_at-byte fuel stored k b s {t} e h room =
    size_loop-byte fuel (size_of stored (suc (suc k))) (length stored) s b e (omega arith)
    ∙ ap₂ (λ n pos. size_loop fuel n pos t) (store_byte-size_of stored (suc k) b h room)
        (sym (length-snoc stored b))

size_at-last :
    (fuel : ℕ) (stored : Bytes) (b : ℕ) (s : List Arrival) {t : List Arrival}
    → read 1 s ≡ (got (b ∷ []), t)
    → AllBytes stored
    → length stored + 1 ≡ sizeof_size
    → size_at (suc fuel) stored 1 s
      ≡ ok (done_sending, size_of (stored ++ (b ∷ [])) 0, length (stored ++ (b ∷ [])), t)
size_at-last fuel stored b s {t} e h room =
    size_loop-last fuel (size_of stored 1) (length stored) s b e room
    ∙ ap₂ (λ n pos. ok (done_sending, n, pos, t)) (store_byte-size_of stored 0 b h room)
        (sym (length-snoc stored b))

AllBytes-snoc : (bs : Bytes) (b : ℕ) → AllBytes bs → b < 256 → AllBytes (bs ++ (b ∷ []))
AllBytes-snoc bs b h k = AllBytes-append bs (b ∷ []) h (k, tt)

-- The rest of the size comes.
size_at-done :
    (fuel : ℕ) (stored : Bytes) (b : ℕ) (rest : Bytes) (s t : List Arrival)
    → AllBytes stored
    → AllBytes (b ∷ rest)
    → length stored + suc (length rest) ≡ sizeof_size
    → length s < fuel
    → Delivers (b ∷ rest) s t
    → size_at fuel stored (suc (length rest)) s
      ≡ ok (done_sending, size_of (stored ++ (b ∷ rest)) 0, length (stored ++ (b ∷ rest)), t)
size_at-done zero stored b rest s t h k room enough d = absurd (omega arith)
size_at-done (suc fuel) stored b [] s t h k room enough d =
    elim (read_cases 1 (b ∷ []) s t (omega arith) (omega arith) d) [
      | inr r ↦
          size_loop-eintr fuel (size_of stored 1) (length stored) s r.returns
          ∙ size_at-done fuel stored b [] r.left t h k room (omega (arith, r.fewer)) r.more
      | inl r ↦
          let o = Stored-OneByte b [] s t r in
          size_at-last fuel stored b s o.returns h room
          ∙ ap
              (λ l.
                ok (done_sending, size_of (stored ++ (b ∷ [])) 0, length (stored ++ (b ∷ [])), l))
              o.more
    ]
size_at-done (suc fuel) stored b (c ∷ rest) s t h k room enough d =
    elim (read_cases 1 (b ∷ c ∷ rest) s t (omega arith) (omega arith) d) [
      | inr r ↦
          size_loop-eintr fuel (size_of stored (suc (length (c ∷ rest)))) (length stored) s
            r.returns
          ∙ size_at-done fuel stored b (c ∷ rest) r.left t h k room (omega (arith, r.fewer)) r.more
      | inl r ↦
          let o = Stored-OneByte b (c ∷ rest) s t r in
          size_at-byte fuel stored (length rest) b s o.returns h room
          ∙ size_at-done fuel (stored ++ (b ∷ [])) c rest o.left t (AllBytes-snoc stored b h k.0)
              k.1 (omega (arith, length-snoc stored b)) (omega (arith, o.fewer)) o.more
          ∙ ap (λ l. ok (done_sending, size_of l 0, length l, t))
              (append_assoc stored (b ∷ []) (c ∷ rest))
    ]

-- A part of the size comes, and then nothing.
size_at-waits :
    (fuel : ℕ) (stored part : Bytes) (k : ℕ) (s t : List Arrival)
    → AllBytes stored
    → AllBytes part
    → length stored + (length part + suc k) ≡ sizeof_size
    → length s < fuel
    → Delivers part s (would_block ∷ t)
    → size_at fuel stored (length part + suc k) s
      ≡ ok (not_done_sending, size_of (stored ++ part) (suc k), length (stored ++ part), t)
unfolding size_loop
size_at-waits zero stored part k s t h h' room enough d = absurd (omega arith)
size_at-waits (suc fuel) stored [] k s t h h' room enough d =
    let none_yet : 0 + suc k ≡ suc k = omega arith in
    ap₂ (λ n l. size_at (suc fuel) stored n l) none_yet d
    ∙ ap (λ l. ok (not_done_sending, size_of l (suc k), length l, t)) (sym (append-nil stored))
size_at-waits (suc fuel) stored (b ∷ part) k s t h h' room enough d =
    elim (read_cases 1 (b ∷ part) s (would_block ∷ t) (omega arith) (omega arith) d) [
      | inr r ↦
          size_loop-eintr fuel (size_of stored (length (b ∷ part) + suc k)) (length stored) s
            r.returns
          ∙ size_at-waits fuel stored (b ∷ part) k r.left t h h' room (omega (arith, r.fewer))
              r.more
      | inl r ↦
          let o = Stored-OneByte b part s (would_block ∷ t) r in
          let before : suc (length part) + suc k ≡ suc (suc (length part + k)) = omega arith in
          let after : suc (length part + k) ≡ length part + suc k = omega arith in
          ap (λ n. size_at (suc fuel) stored n s) before
          ∙ size_at-byte fuel stored (length part + k) b s o.returns h (omega arith)
          ∙ ap (λ n. size_at fuel (stored ++ (b ∷ [])) n o.left) after
          ∙ size_at-waits fuel (stored ++ (b ∷ [])) part k o.left t (AllBytes-snoc stored b h h'.0)
              h'.1 (omega (arith, length-snoc stored b)) (omega (arith, o.fewer)) o.more
          ∙ ap (λ l. ok (not_done_sending, size_of l (suc k), length l, t))
              (append_assoc stored (b ∷ []) part)
    ]

module _ {F : Double} where
  -- The struct after a part of a size.
  abbrev pub sized : Worker F → Bytes → Worker F
  sized w stored = record w {
    file_size = size_of stored (sizeof_size - length stored);
    size_buffer_pos = length stored;
  }

  get_size-run :
      (w : Worker F) (s : List Arrival) {r : Sized}
      → size_loop (length s + 1) w.file_size w.size_buffer_pos s ≡ ok r
      → let (reply, size, pos, t) = r in
        get_size w s ≡ ok (reply, record w { file_size = size; size_buffer_pos = pos }, t)
  unfolding get_size
  get_size-run w s e = rw e

  -- When a part of the eight bytes has come, however it is cut up and interrupted, and the socket would
  -- block before the last of them, `get_size` returns NOT_DONE_SENDING, and the struct has taken in that
  -- part behind what it had before.
  pub get_size-waits :
      (w : Worker F) (stored part : Bytes) (s t : List Arrival)
      → AllBytes stored
      → AllBytes part
      → length stored + length part < sizeof_size
      → Delivers part s (would_block ∷ t)
      → get_size (sized w stored) s ≡ ok (not_done_sending, sized w (stored ++ part), t)
  get_size-waits w stored part s t h h' room d =
      let k : ℕ = sizeof_size - length (stored ++ part) - 1 in
      let sum = length-append stored part in
      let before : sizeof_size - length stored ≡ length part + suc k = omega (arith, sum) in
      let after : suc k ≡ sizeof_size - length (stored ++ part) = omega (arith, sum) in
      get_size-run (sized w stored) s (
        ap (λ n. size_at (length s + 1) stored n s) before
        ∙ size_at-waits (length s + 1) stored part k s t h h' (omega (arith, sum)) (omega arith) d)
      ∙ ap
          (λ n. ok (
            not_done_sending,
            record w {
              file_size = size_of (stored ++ part) n;
              size_buffer_pos = length (stored ++ part);
            },
            t,
          ))
          after

  -- When the rest of the eight bytes of a size has come, however it is cut up and interrupted and
  -- whatever part the struct had taken in before, `get_size` returns DONE_SENDING and has set the size,
  -- if it fits in 64 bits; what follows is left.
  pub get_size-done :
      (w : Worker F) (stored : Bytes) (b : ℕ) (rest : Bytes) (n : ℕ) (s t : List Arrival)
      → n < 2 ^ 64
      → stored ++ (b ∷ rest) ≡ le_bytes sizeof_size n
      → AllBytes stored
      → AllBytes (b ∷ rest)
      → Delivers (b ∷ rest) s t
      → get_size (sized w stored) s
        ≡ ok (done_sending, record w { file_size = n; size_buffer_pos = sizeof_size }, t)
  unfolding replicate
  get_size-done w stored b rest n s t bound whole h h' d =
      let eight : length (stored ++ (b ∷ rest)) ≡ sizeof_size =
        ap length whole ∙ length-le_bytes sizeof_size n in
      let room : length stored + suc (length rest) ≡ sizeof_size =
        omega (arith, eight, length-append stored (b ∷ rest)) in
      let before : sizeof_size - length stored ≡ suc (length rest) = omega (arith, room) in
      let value : size_of (stored ++ (b ∷ rest)) 0 ≡ n =
        ap le_value (append-nil (stored ++ (b ∷ rest)) ∙ whole)
        ∙ le-roundtrip sizeof_size n bound in
      get_size-run (sized w stored) s (
        ap (λ m. size_at (length s + 1) stored m s) before
        ∙ size_at-done (length s + 1) stored b rest s t h h' room (omega arith) d)
      ∙ ap₂ (λ m pos. ok (done_sending, record w { file_size = m; size_buffer_pos = pos }, t)) value
          eight
