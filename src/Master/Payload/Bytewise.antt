-- ===== src/Master/Payload/Bytewise.antt =====
-- A size in memory, byte by byte.
use pi_296_cluster.Prelude.{
  ℕ, zero, suc, ◌+◌, ◌/◌, ◌<◌, ◌≡◌, refl, ap, ap₂, ◌∙◌, [], ◌∷◌, ◌++◌, arith, length, set,
  replicate,
}
use pi_296_cluster.Kernel.{Bytes, sizeof_size, le_bytes, le_value}
use pi_296_cluster.Master.Parser.Scan.{buffer, set-end, length-buffer}
use pi_296_cluster.Master.Payload.{store_byte}

abbrev pub AllBytes : Bytes → Type 0
AllBytes [] = Unit {0}
AllBytes (b ∷ bs) = (b < 256) × AllBytes bs

pub le_bytes-AllBytes : (k n : ℕ) → AllBytes (le_bytes k n)
unfolding le_bytes
le_bytes-AllBytes zero n = tt
le_bytes-AllBytes (suc k) n = (omega arith, le_bytes-AllBytes k (n / 256))

pub AllBytes-append : (bs cs : Bytes) → AllBytes bs → AllBytes cs → AllBytes (bs ++ cs)
AllBytes-append [] cs h k = k
AllBytes-append (b ∷ bs) cs h k = (h.0, AllBytes-append bs cs h.1 k)

pub AllBytes-zeros : (k : ℕ) → AllBytes (replicate k 0)
unfolding replicate
AllBytes-zeros zero = tt
AllBytes-zeros (suc k) = (omega arith, AllBytes-zeros k)

-- The memory of the number that some bytes stand for is those bytes.
le_bytes-le_value : (bs : Bytes) → AllBytes bs → le_bytes (length bs) (le_value bs) ≡ bs
unfolding le_bytes le_value
le_bytes-le_value [] h = refl
le_bytes-le_value (b ∷ bs) h =
    ap₂ (λ c cs. c ∷ cs) (omega (arith, h.0))
      (ap (le_bytes (length bs)) (omega (arith, h.0)) ∙ le_bytes-le_value bs h.1)

-- The size that the bytes so far stand for, with zeros behind them.
abbrev pub size_of : Bytes → ℕ → ℕ
size_of stored k = le_value (buffer stored k)

pub store_byte-size_of :
    (stored : Bytes) (k b : ℕ)
    → AllBytes stored
    → length stored + suc k ≡ sizeof_size
    → store_byte (length stored) b (size_of stored (suc k)) ≡ size_of (stored ++ (b ∷ [])) k
unfolding store_byte
store_byte-size_of stored k b h e =
    let all : sizeof_size ≡ length (buffer stored (suc k)) =
      omega (arith, e, length-buffer stored (suc k)) in
    let memory : le_bytes sizeof_size (size_of stored (suc k)) ≡ buffer stored (suc k) =
      ap (λ n. le_bytes n (size_of stored (suc k))) all
      ∙ le_bytes-le_value (buffer stored (suc k))
          (AllBytes-append stored (replicate (suc k) 0) h (AllBytes-zeros (suc k))) in
    ap (λ m. le_value (set m (length stored) b)) memory ∙ ap le_value (set-end stored k b)
