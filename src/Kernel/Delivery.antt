-- ===== src/Kernel/Delivery.antt =====
-- A run of bytes in what arrives, however it is cut up and interrupted.
use native.Mathlib.Nat.{pow-suc}
use pi_296_cluster.Prelude.{
  ℕ, zero, suc, ◌+◌, ◌/◌, ◌^◌, ◌≤◌, ◌<◌, ◌≡◌, ◌⊎◌, inl, inr, refl, ap, List, [], ◌∷◌, ◌++◌, arith,
  length,
}
use pi_296_cluster.Kernel.{
  Bytes, Arrival, byte, gap, interrupted, would_block, broken, closed, Read, got, eintr, burst,
  read, le_bytes, le_value,
}

-- From `s` come exactly these bytes, with gaps and interruptions before any of them, and then `t`.
abbrev pub Delivers : Bytes → List Arrival → List Arrival → Type 0
Delivers [] s t = s ≡ t
Delivers (b ∷ bs) [] t = ⊥
Delivers (b ∷ bs) (byte c ∷ s) t = (c ≡ b) × Delivers bs s t
Delivers (b ∷ bs) (gap ∷ s) t = Delivers (b ∷ bs) s t
Delivers (b ∷ bs) (interrupted ∷ s) t = Delivers (b ∷ bs) s t
Delivers (b ∷ bs) (would_block ∷ s) t = ⊥
Delivers (b ∷ bs) (broken ∷ s) t = ⊥
Delivers (b ∷ bs) (closed ∷ s) t = ⊥

-- A run can be read in two parts.
pub Delivers-split :
    (bs cs : Bytes) (s u : List Arrival)
    → Delivers (bs ++ cs) s u
    → (t : List Arrival) × Delivers bs s t × Delivers cs t u
Delivers-split [] cs s u d = (s, refl, d)
Delivers-split (b ∷ bs) cs [] u d = absurd d
Delivers-split (b ∷ bs) cs (byte c ∷ s) u d =
    let (t, front, back) = Delivers-split bs cs s u d.1 in (t, (d.0, front), back)
Delivers-split (b ∷ bs) cs (gap ∷ s) u d = Delivers-split (b ∷ bs) cs s u d
Delivers-split (b ∷ bs) cs (interrupted ∷ s) u d = Delivers-split (b ∷ bs) cs s u d
Delivers-split (b ∷ bs) cs (would_block ∷ s) u d = absurd d
Delivers-split (b ∷ bs) cs (broken ∷ s) u d = absurd d
Delivers-split (b ∷ bs) cs (closed ∷ s) u d = absurd d

-- What one burst of at most `n` of these bytes leaves.
pub record Burst (n : ℕ) (bs : Bytes) (s t : List Arrival) (part : Bytes) (left : List Arrival)
    : Type 0 where
  pub rest : Bytes
  pub whole : bs ≡ part ++ rest
  pub bound : length part ≤ n
  pub more : Delivers rest left t
  pub fewer : length left + length part ≤ length s

pub burst-Burst :
    (n : ℕ) (bs : Bytes) (s t : List Arrival)
    → n ≤ length bs
    → Delivers bs s t
    → let (part, left) = burst n s in Burst n bs s t part left
burst-Burst zero bs s t h d = record {
  rest = bs;
  whole = refl;
  bound = omega arith;
  more = d;
  fewer = omega arith;
}
burst-Burst (suc n) [] s t h d = absurd (omega arith)
burst-Burst (suc n) (b ∷ bs) [] t h d = absurd d
burst-Burst (suc n) (b ∷ bs) (byte c ∷ s) t h d =
    let r = burst-Burst n bs s t (omega arith) d.1 in
    record {
      rest = r.rest;
      whole = rw (← d.0) (ap (◌∷◌ c) r.whole);
      bound = omega (arith, r.bound);
      more = r.more;
      fewer = omega (arith, r.fewer);
    }
burst-Burst (suc n) (b ∷ bs) (gap ∷ s) t h d = record {
  rest = b ∷ bs;
  whole = refl;
  bound = omega arith;
  more = d;
  fewer = omega arith;
}
burst-Burst (suc n) (b ∷ bs) (interrupted ∷ s) t h d = record {
  rest = b ∷ bs;
  whole = refl;
  bound = omega arith;
  more = d;
  fewer = omega arith;
}
burst-Burst (suc n) (b ∷ bs) (would_block ∷ s) t h d = absurd d
burst-Burst (suc n) (b ∷ bs) (broken ∷ s) t h d = absurd d
burst-Burst (suc n) (b ∷ bs) (closed ∷ s) t h d = absurd d

-- One read for at most `n` of these bytes: some of them, or an interruption.
pub record Stored (n : ℕ) (bs : Bytes) (s t : List Arrival) : Type 0 where
  pub part : Bytes
  pub left : List Arrival
  pub returns : read n s ≡ (got part, left)
  pub some_stored : 0 < length part
  pub burst : Burst n bs s t part left
  pub fewer : length left < length s

pub record Interrupted (n : ℕ) (bs : Bytes) (s t : List Arrival) : Type 0 where
  pub left : List Arrival
  pub returns : read n s ≡ (eintr, left)
  pub more : Delivers bs left t
  pub fewer : length left < length s

pub read_cases :
    (n : ℕ) (bs : Bytes) (s t : List Arrival)
    → 0 < n
    → n ≤ length bs
    → Delivers bs s t
    → Stored n bs s t ⊎ Interrupted n bs s t
read_cases zero bs s t pos h d = absurd (omega arith)
read_cases (suc n) [] s t pos h d = absurd (omega arith)
read_cases (suc n) (b ∷ bs) [] t pos h d = absurd d
read_cases (suc n) (b ∷ bs) (byte c ∷ s) t pos h d =
    let r = burst-Burst (suc n) (b ∷ bs) (byte c ∷ s) t h d in
    inl (record {
      part = c ∷ (burst n s).0;
      left = (burst n s).1;
      returns = refl;
      some_stored = omega arith;
      burst = r;
      fewer = omega (arith, r.fewer);
    })
read_cases (suc n) (b ∷ bs) (gap ∷ s) t pos h d = elim (read_cases (suc n) (b ∷ bs) s t pos h d) [
  | inl r ↦ inl (record {
    part = r.part;
    left = r.left;
    returns = r.returns;
    some_stored = r.some_stored;
    burst = record {
      rest = r.burst.rest;
      whole = r.burst.whole;
      bound = r.burst.bound;
      more = r.burst.more;
      fewer = omega (arith, r.burst.fewer);
    };
    fewer = omega (arith, r.fewer);
  })
  | inr r ↦
      inr (record {
        left = r.left;
        returns = r.returns;
        more = r.more;
        fewer = omega (arith, r.fewer);
      })
]
read_cases (suc n) (b ∷ bs) (interrupted ∷ s) t pos h d =
    inr (record { left = s; returns = refl; more = d; fewer = omega arith })
read_cases (suc n) (b ∷ bs) (would_block ∷ s) t pos h d = absurd d
read_cases (suc n) (b ∷ bs) (broken ∷ s) t pos h d = absurd d
read_cases (suc n) (b ∷ bs) (closed ∷ s) t pos h d = absurd d

-- The eight bytes of a `size_t` in memory stand for it.
pub le-roundtrip : (k n : ℕ) → n < 256 ^ k → le_value (le_bytes k n) ≡ n
unfolding le_value le_bytes
le-roundtrip zero n h = omega arith
le-roundtrip (suc k) n h = omega (arith, le-roundtrip k (n / 256) (omega (arith, pow-suc 256 k)))

pub length-le_bytes : (k n : ℕ) → length (le_bytes k n) ≡ k
unfolding le_bytes
length-le_bytes zero n = refl
length-le_bytes (suc k) n = ap suc (length-le_bytes k (n / 256))

-- A read stores no more than was asked for.
abbrev pub stored_count : Read → ℕ
stored_count (got bs) = length bs
stored_count _ = 0

length-burst : (n : ℕ) (s : List Arrival) → length (burst n s).0 ≤ n
length-burst zero s = omega arith
length-burst (suc n) (byte b ∷ s) = omega (arith, length-burst n s)
length-burst (suc n) [] = omega arith
length-burst (suc n) (gap ∷ s) = omega arith
length-burst (suc n) (interrupted ∷ s) = omega arith
length-burst (suc n) (would_block ∷ s) = omega arith
length-burst (suc n) (broken ∷ s) = omega arith
length-burst (suc n) (closed ∷ s) = omega arith

pub stored_count-read : (n : ℕ) (s : List Arrival) → stored_count (read n s).0 ≤ n
stored_count-read zero s = omega arith
stored_count-read (suc n) [] = omega arith
stored_count-read (suc n) (byte b ∷ s) = length-burst (suc n) (byte b ∷ s)
stored_count-read (suc n) (gap ∷ s) = stored_count-read (suc n) s
stored_count-read (suc n) (interrupted ∷ s) = omega arith
stored_count-read (suc n) (would_block ∷ s) = omega arith
stored_count-read (suc n) (broken ∷ s) = omega arith
stored_count-read (suc n) (closed ∷ s) = omega arith
