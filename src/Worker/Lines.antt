-- ===== src/Worker/Lines.antt =====
-- `read_line_from_socket`: the line up to its newline, with no access outside the buffer.
use pi_296_cluster.Prelude.{
  ℕ, zero, suc, ◌+◌, ◌≤◌, ◌<◌, ◌≡◌, ◌≢◌, refl, ap, ◌∙◌, inl, inr, false, some, List, [], ◌∷◌, ◌++◌,
  arith, append_assoc, length-append, ◌==◌, lt→ltb, subst, if◌then◌else◌, length, ok, fault,
}
use pi_296_cluster.Kernel.{Bytes, Arrival, Read, got, eintr, eagain, eother, idle, read}
use pi_296_cluster.Kernel.Single.{Stored-OneByte}
use pi_296_cluster.Kernel.Delivery.{Delivers, read_cases, stored_count, stored_count-read}
use pi_296_cluster.Text.{newline, starts_with, Without}
use pi_296_cluster.Worker.{line_loop, read_line_from_socket, line_buffer_size}

abbrev wider : ℕ → Bytes → ℕ
wider size line = if length line == size then size + line_buffer_size else size

module _ (fuel size : ℕ) (stored : Bytes) (s : List Arrival) {t : List Arrival} where
  line_loop-eintr :
      read 1 s ≡ (eintr, t) → line_loop (suc fuel) size stored s ≡ line_loop fuel size stored t
  unfolding line_loop
  line_loop-eintr e = rw (ap (λ p. p.0) e, ap (λ p. p.1) e, line_loop)

  line_loop-byte :
      (b : ℕ)
      → read 1 s ≡ (got (b ∷ []), t)
      → length stored < size
      → line_loop (suc fuel) size stored s ≡ (
          if starts_with (newline ∷ []) (b ∷ [])
          then ok (some (stored ++ (b ∷ [])), t)
          else line_loop fuel (wider size (stored ++ (b ∷ []))) (stored ++ (b ∷ [])) t)
  unfolding line_loop
  line_loop-byte b e room =
      rw (ap (λ p. p.0) e, ap (λ p. p.1) e, line_loop) (rw (lt→ltb (length stored) size room))

room_again :
    (size : ℕ) (stored : Bytes) (b : ℕ)
    → length stored < size
    → length (stored ++ (b ∷ [])) < wider size (stored ++ (b ∷ []))
room_again size stored b room = ground (arith, length-append stored (b ∷ []))

line_loop-Delivers :
    (fuel size : ℕ) (stored line : Bytes) (s t : List Arrival)
    → Without newline line
    → length stored < size
    → length s < fuel
    → Delivers (line ++ (newline ∷ [])) s t
    → line_loop fuel size stored s ≡ ok (some (stored ++ (line ++ (newline ∷ []))), t)
line_loop-Delivers zero size stored line s t w room enough d = absurd (omega arith)
line_loop-Delivers (suc fuel) size stored [] s t w room enough d =
    elim (read_cases 1 (newline ∷ []) s t (omega arith) (omega arith) d) [
      | inr r ↦
          line_loop-eintr fuel size stored s r.returns
          ∙ line_loop-Delivers fuel size stored [] r.left t w room (omega (arith, r.fewer)) r.more
      | inl r ↦
          let o = Stored-OneByte newline [] s t r in
          line_loop-byte fuel size stored s newline o.returns room
          ∙ ap (λ l. ok (some (stored ++ (newline ∷ [])), l)) o.more
    ]
line_loop-Delivers (suc fuel) size stored (b ∷ line) s t w room enough d =
    elim (read_cases 1 (b ∷ (line ++ (newline ∷ []))) s t (omega arith) (omega arith) d) [
      | inr r ↦
          line_loop-eintr fuel size stored s r.returns
          ∙ line_loop-Delivers fuel size stored (b ∷ line) r.left t w room (omega (arith, r.fewer))
              r.more
      | inl r ↦
          let o = Stored-OneByte b (line ++ (newline ∷ [])) s t r in
          line_loop-byte fuel size stored s b o.returns room
          ∙ go_on b w.0 o.left
          ∙ line_loop-Delivers fuel (wider size (stored ++ (b ∷ []))) (stored ++ (b ∷ [])) line
              o.left t w.1 (room_again size stored b room) (omega (arith, o.fewer)) o.more
          ∙ ap (λ l. ok (some l, t)) (append_assoc stored (b ∷ []) (line ++ (newline ∷ [])))
    ]
  where
    go_on :
        (c : ℕ)
        → (c == newline) ≡ false
        → (l : List Arrival)
        → (if starts_with (newline ∷ []) (c ∷ [])
            then ok (some (stored ++ (c ∷ [])), l)
            else line_loop fuel (wider size (stored ++ (c ∷ []))) (stored ++ (c ∷ [])) l)
          ≡ line_loop fuel (wider size (stored ++ (c ∷ []))) (stored ++ (c ∷ [])) l
    go_on c other l = rw other

-- A line without a newline in it, and then a newline, however they are cut up and interrupted, is
-- returned whole, newline included, with no access outside the buffer; what follows is left.
pub read_line_from_socket-Delivers :
    (line : Bytes) (s t : List Arrival)
    → Without newline line
    → Delivers (line ++ (newline ∷ [])) s t
    → read_line_from_socket s ≡ ok (some (line ++ (newline ∷ [])), t)
unfolding read_line_from_socket
read_line_from_socket-Delivers line s t w d =
    line_loop-Delivers (length s + 1) line_buffer_size [] line s t w (omega arith) (omega arith) d

room_after :
    (size : ℕ) (stored bs : Bytes)
    → length stored < size
    → length bs ≤ 1
    → length (stored ++ bs) < wider size (stored ++ bs)
room_after size stored bs room one = ground (arith, length-append stored bs)

line_loop-safe :
    (fuel size : ℕ) (stored : Bytes) (s : List Arrival)
    → length stored < size
    → line_loop fuel size stored s ≢ fault
unfolding line_loop
line_loop-safe zero size stored s room = λ e. cc
line_loop-safe (suc fuel) size stored s room =
    go (read 1 s).0 refl (line_loop-safe fuel size stored (read 1 s).1 room) (λ bs one.
      line_loop-safe fuel (wider size (stored ++ bs)) (stored ++ bs) (read 1 s).1
        (room_after size stored bs room one))
  where
    go :
        (r : Read)
        → (read 1 s).0 ≡ r
        → line_loop fuel size stored (read 1 s).1 ≢ fault
        → ((bs : Bytes)
            → length bs ≤ 1
            → line_loop fuel (wider size (stored ++ bs)) (stored ++ bs) (read 1 s).1 ≢ fault)
        → line_loop (suc fuel) size stored s ≢ fault
    go (got bs) e same more =
        let one : length bs ≤ 1 = subst (λ r. stored_count r ≤ 1) e (stored_count-read 1 s) in
        rw (e, line_loop) (rw (lt→ltb (length stored) size room) (ground (arith, more bs one)))
    go eintr e same more = rw (e, line_loop) same
    go eagain e same more = rw (e, line_loop) (λ h. cc)
    go eother e same more = rw (e, line_loop) (λ h. cc)
    go idle e same more = rw (e, line_loop) (λ h. cc)

-- Whatever arrives, `read_line_from_socket` stores no byte outside its buffer.
pub read_line_from_socket-safe : (s : List Arrival) → read_line_from_socket s ≢ fault
unfolding read_line_from_socket
read_line_from_socket-safe s = line_loop-safe (length s + 1) line_buffer_size [] s (omega arith)
