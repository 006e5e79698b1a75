-- ===== src/Worker/Sockets.antt =====
-- `read_from_socket`: however the bytes arrive, it stores what was asked for.
use pi_296_cluster.Prelude.{
  ℕ, zero, suc, ◌+◌, ◌-◌, ◌≤◌, ◌<◌, ◌≡◌, refl, ap, sym, ◌∙◌, inl, inr, true, false, some, List, [],
  ◌∷◌, ◌++◌, arith, append_assoc, append-nil, length-append, add-one, leb, leb→le, leb→gt, ap₂,
  subst, ◌==◌, Bool-cases, length, ok,
}
use pi_296_cluster.Kernel.{Bytes, Arrival, got, eintr, read}
use pi_296_cluster.Kernel.Delivery.{Delivers, read_cases}
use pi_296_cluster.Worker.{read_loop, read_from_socket}

module _ (fuel need : ℕ) (stored : Bytes) (s : List Arrival) where
  read_loop-eintr :
      {t : List Arrival}
      → read need s ≡ (eintr, t)
      → read_loop (suc fuel) need stored s ≡ read_loop fuel need stored t
  unfolding read_loop
  read_loop-eintr e = rw (ap (λ p. p.0) e, ap (λ p. p.1) e, read_loop)

  read_loop-last :
      (part : Bytes) {t : List Arrival}
      → read need s ≡ (got part, t)
      → 0 < length part
      → need ≤ length part
      → read_loop (suc fuel) need stored s ≡ ok (some (stored ++ part), t)
  unfolding read_loop
  read_loop-last part e pos enough =
      let nonzero : (length part == 0) ≡ false = ground arith in
      let done : leb need (length part) ≡ true = ground arith in
      rw (ap (λ p. p.0) e, ap (λ p. p.1) e, read_loop) (rw (nonzero, done))

  read_loop-more :
      (part : Bytes) {t : List Arrival}
      → read need s ≡ (got part, t)
      → 0 < length part
      → length part < need
      → read_loop (suc fuel) need stored s ≡ read_loop fuel (need - length part) (stored ++ part) t
  unfolding read_loop
  read_loop-more part e pos short =
      let nonzero : (length part == 0) ≡ false = ground arith in
      let more : leb need (length part) ≡ false = ground arith in
      rw (ap (λ p. p.0) e, ap (λ p. p.1) e, read_loop) (rw (nonzero, more))

-- The part that a read stored, and what is still to come.
pub left_over : (bs part rest : Bytes) → bs ≡ part ++ rest → length rest ≡ length bs - length part
left_over bs part rest e = omega (arith, ap length e, length-append part rest)

pub eq_nil : (bs : Bytes) → length bs ≡ 0 → bs ≡ []
eq_nil [] h = refl
eq_nil (b ∷ bs) h = absurd (omega arith)

pub read_loop-Delivers :
    (fuel : ℕ) (bs stored : Bytes) (s t : List Arrival)
    → 0 < length bs
    → length s < fuel
    → Delivers bs s t
    → read_loop fuel (length bs) stored s ≡ ok (some (stored ++ bs), t)
read_loop-Delivers zero bs stored s t pos enough d = absurd (omega arith)
read_loop-Delivers (suc fuel) bs stored s t pos enough d =
    elim (read_cases (length bs) bs s t pos (omega arith) d) [
      | inr r ↦
          read_loop-eintr fuel (length bs) stored s r.returns
          ∙ read_loop-Delivers fuel bs stored r.left t pos (omega (arith, r.fewer)) r.more
      | inl r ↦
          let rest = r.burst.rest in
          let size = left_over bs r.part rest r.burst.whole in
          elim (Bool-cases (leb (length bs) (length r.part))) [
            | inl all ↦
                let done : length bs ≤ length r.part = leb→le (length bs) (length r.part) all in
                let none_left : rest ≡ [] = eq_nil rest (omega (arith, size)) in
                let same : r.part ≡ bs =
                  sym (append-nil r.part)
                  ∙ ap (λ l. r.part ++ l) (sym none_left)
                  ∙ sym r.burst.whole in
                let at_end : r.left ≡ t = subst (λ l. Delivers l r.left t) none_left r.burst.more in
                read_loop-last fuel (length bs) stored s r.part r.returns r.some_stored done
                ∙ ap₂ (λ p l. ok (some (stored ++ p), l)) same at_end
            | inr part ↦
                let short : length r.part < length bs = leb→gt (length bs) (length r.part) part in
                read_loop-more fuel (length bs) stored s r.part r.returns r.some_stored short
                ∙ ap (λ n. read_loop fuel n (stored ++ r.part) r.left) (sym size)
                ∙ read_loop-Delivers fuel rest (stored ++ r.part) r.left t
                    (omega (arith, size, r.some_stored)) (omega (arith, r.fewer)) r.burst.more
                ∙ ap (λ l. ok (some l, t))
                    (append_assoc stored r.part rest ∙ ap (λ l. stored ++ l) (sym r.burst.whole))
          ]
    ]

zero_bytes : (n : ℕ) (t : List Arrival) → read_loop (n + 1) 0 [] t ≡ ok (some [], t)
unfolding read_loop
zero_bytes n t = rw add-one

-- However a run of bytes is cut up and interrupted, `read_from_socket` for its length ends, returns
-- its length, stores exactly those bytes, and leaves what follows them.
pub read_from_socket-Delivers :
    (bs : Bytes) (s t : List Arrival)
    → Delivers bs s t
    → read_from_socket (length bs) s ≡ ok (some bs, t)
unfolding read_from_socket
read_from_socket-Delivers [] s t d = rw d (zero_bytes (length t) t)
read_from_socket-Delivers (b ∷ bs) s t d =
    read_loop-Delivers (length s + 1) (b ∷ bs) [] s t (omega arith) (omega arith) d
