-- ===== src/Kernel/Waiting.antt =====
-- Reads of a run of bytes after which the socket would block.
use pi_296_cluster.Prelude.{
  ℕ, zero, suc, ◌<◌, ◌≡◌, refl, ap, sym, subst, ◌⊎◌, inl, inr, List, [], ◌∷◌, arith,
}
use pi_296_cluster.Kernel.{
  Bytes, Arrival, byte, gap, interrupted, would_block, broken, closed, eagain, burst, read,
}
use pi_296_cluster.Kernel.Delivery.{Delivers, Burst, Stored, Interrupted}

burst-waits :
    (n : ℕ) (bs : Bytes) (s t : List Arrival)
    → Delivers bs s (would_block ∷ t)
    → let (part, left) = burst n s in Burst n bs s (would_block ∷ t) part left
burst-waits zero bs s t d = record {
  rest = bs;
  whole = refl;
  bound = omega arith;
  more = d;
  fewer = omega arith;
}
burst-waits (suc n) [] s t d =
    subst
      (λ (u : List Arrival).
        Burst (suc n) [] u (would_block ∷ t) (burst (suc n) u).0 (burst (suc n) u).1)
      (sym d)
      (record { rest = []; whole = refl; bound = omega arith; more = refl; fewer = omega arith })
burst-waits (suc n) (b ∷ bs) [] t d = absurd d
burst-waits (suc n) (b ∷ bs) (byte c ∷ s) t d =
    let r = burst-waits n bs s t d.1 in
    record {
      rest = r.rest;
      whole = rw (← d.0) (ap (◌∷◌ c) r.whole);
      bound = omega (arith, r.bound);
      more = r.more;
      fewer = omega (arith, r.fewer);
    }
burst-waits (suc n) (b ∷ bs) (gap ∷ s) t d = record {
  rest = b ∷ bs;
  whole = refl;
  bound = omega arith;
  more = d;
  fewer = omega arith;
}
burst-waits (suc n) (b ∷ bs) (interrupted ∷ s) t d = record {
  rest = b ∷ bs;
  whole = refl;
  bound = omega arith;
  more = d;
  fewer = omega arith;
}
burst-waits (suc n) (b ∷ bs) (would_block ∷ s) t d = absurd d
burst-waits (suc n) (b ∷ bs) (broken ∷ s) t d = absurd d
burst-waits (suc n) (b ∷ bs) (closed ∷ s) t d = absurd d

pub read_waits : (n : ℕ) (t : List Arrival) → 0 < n → read n (would_block ∷ t) ≡ (eagain, t)
read_waits zero t pos = absurd (omega (arith, pos))
read_waits (suc n) t pos = refl

-- One read for at most `n` bytes, of which fewer may come.
pub read_part :
    (n : ℕ) (b : ℕ) (bs : Bytes) (s t : List Arrival)
    → 0 < n
    → Delivers (b ∷ bs) s (would_block ∷ t)
    → Stored n (b ∷ bs) s (would_block ∷ t) ⊎ Interrupted n (b ∷ bs) s (would_block ∷ t)
read_part zero b bs s t pos d = absurd (omega (arith, pos))
read_part (suc n) b bs [] t pos d = absurd d
read_part (suc n) b bs (byte c ∷ s) t pos d =
    let r = burst-waits (suc n) (b ∷ bs) (byte c ∷ s) t d in
    inl (record {
      part = c ∷ (burst n s).0;
      left = (burst n s).1;
      returns = refl;
      some_stored = omega arith;
      burst = r;
      fewer = omega (arith, r.fewer);
    })
read_part (suc n) b bs (gap ∷ s) t pos d = elim (read_part (suc n) b bs s t pos d) [
  | inl r ↦ inl (record {
    part = r.part;
    left = r.left;
    returns = r.returns;
    some_stored = r.some_stored;
    burst = record {
      rest = r.burst.rest;
      whole = r.burst.whole;
      bound = r.burst.bound;
      more = r.burst.more;
      fewer = omega (arith, r.burst.fewer);
    };
    fewer = omega (arith, r.fewer);
  })
  | inr r ↦
      inr (record {
        left = r.left;
        returns = r.returns;
        more = r.more;
        fewer = omega (arith, r.fewer);
      })
]
read_part (suc n) b bs (interrupted ∷ s) t pos d =
    inr (record { left = s; returns = refl; more = d; fewer = omega arith })
read_part (suc n) b bs (would_block ∷ s) t pos d = absurd d
read_part (suc n) b bs (broken ∷ s) t pos d = absurd d
read_part (suc n) b bs (closed ∷ s) t pos d = absurd d
