-- ===== src/Kernel/Single.antt =====
-- Reads of one byte at a time.
use pi_296_cluster.Prelude.{ℕ, ◌≤◌, ◌<◌, ◌≡◌, ap, ◌∙◌, List, [], ◌∷◌, ◌++◌, arith, subst, length}
use pi_296_cluster.Kernel.{Bytes, Arrival, got, read}
use pi_296_cluster.Kernel.Delivery.{Delivers, Stored}

one_byte :
    (b : ℕ) (bs part rest : Bytes)
    → b ∷ bs ≡ part ++ rest
    → 0 < length part
    → length part ≤ 1
    → (part ≡ b ∷ []) × (rest ≡ bs)
one_byte b bs [] rest e pos h = absurd (omega arith)
one_byte b bs (c ∷ []) rest e pos h = (cc, cc)
one_byte b bs (c ∷ d ∷ part) rest e pos h = absurd (omega arith)

-- One read of one byte, where the next byte of a run is `b`.
pub record OneByte (b : ℕ) (bs : Bytes) (s t : List Arrival) : Type 0 where
  pub left : List Arrival
  pub returns : read 1 s ≡ (got (b ∷ []), left)
  pub more : Delivers bs left t
  pub fewer : length left < length s

pub Stored-OneByte :
    (b : ℕ) (bs : Bytes) (s t : List Arrival) → Stored 1 (b ∷ bs) s t → OneByte b bs s t
Stored-OneByte b bs s t r =
    let (part, rest) =
      one_byte b bs r.part r.burst.rest r.burst.whole r.some_stored r.burst.bound in
    record {
      left = r.left;
      returns = r.returns ∙ ap (λ p. (got p, r.left)) part;
      more = subst (λ l. Delivers l r.left t) rest r.burst.more;
      fewer = r.fewer;
    }
