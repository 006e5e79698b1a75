-- ===== src/Kernel.antt =====
-- What the operating system answers to read(2) and write(2), as lists of events that the environment
-- chooses. Bytes are numbers. A descriptor that is read has the list of what arrives on it; one that
-- is written has the list of the answers to come, and takes everything once that list is used up.
pub mod Delivery
pub mod Waiting
pub mod Single
pub mod Accepting
use pi_296_cluster.Prelude.{ℕ, zero, suc, ◌+◌, ◌-◌, ◌*◌, ◌/◌, ◌%◌, take, List, [], ◌∷◌}

abbrev pub Bytes : Type 0
Bytes = List ℕ

pub data Arrival : Type 0 where
  byte : ℕ → Arrival
  gap : Arrival  -- what follows has not arrived when a read before it returns
  interrupted : Arrival  -- EINTR
  would_block : Arrival  -- EAGAIN or EWOULDBLOCK
  broken : Arrival  -- any other error
  closed : Arrival  -- the end of the stream, which stays

-- The return value of read(2): the bytes that it stored (none for 0), or -1 with an `errno`. A call
-- on a descriptor on which nothing more arrives is `idle`.
pub data Read : Type 0 where
  got : Bytes → Read
  eintr : Read
  eagain : Read
  eother : Read
  idle : Read

-- At most `n` bytes, up to the first event that is no byte.
abbrev pub burst : ℕ → List Arrival → Bytes × List Arrival
burst zero s = ([], s)
burst (suc n) [] = ([], [])
burst (suc n) (byte b ∷ s) = let (bs, t) = burst n s in (b ∷ bs, t)
burst (suc n) (gap ∷ s) = ([], gap ∷ s)
burst (suc n) (interrupted ∷ s) = ([], interrupted ∷ s)
burst (suc n) (would_block ∷ s) = ([], would_block ∷ s)
burst (suc n) (broken ∷ s) = ([], broken ∷ s)
burst (suc n) (closed ∷ s) = ([], closed ∷ s)

-- read(fd, buffer, n)
abbrev pub read : ℕ → List Arrival → Read × List Arrival
read zero s = (got [], s)
read (suc n) [] = (idle, [])
read (suc n) (byte b ∷ s) = let (bs, t) = burst (suc n) (byte b ∷ s) in (got bs, t)
read (suc n) (gap ∷ s) = read (suc n) s
read (suc n) (interrupted ∷ s) = (eintr, s)
read (suc n) (would_block ∷ s) = (eagain, s)
read (suc n) (broken ∷ s) = (eother, s)
read (suc n) (closed ∷ s) = (got [], closed ∷ s)

-- An answer to write(fd, buffer, n): at most so many bytes were taken (0 is the return value 0), or
-- -1 with an `errno`.
pub data Answer : Type 0 where
  took : ℕ → Answer
  write_eintr : Answer
  write_eagain : Answer
  write_failed : Answer

-- One write(2): the bytes that are taken, none after an error.
abbrev pub write_once : List Answer → Bytes → Bytes × List Answer
write_once [] bs = (bs, [])
write_once (took k ∷ later) bs = (take k bs, later)
write_once (write_eintr ∷ later) bs = ([], later)
write_once (write_eagain ∷ later) bs = ([], later)
write_once (write_failed ∷ later) bs = ([], later)

-- A `size_t` in memory: eight bytes, the lowest first.
abbrev pub sizeof_size : ℕ
sizeof_size = 8

unfoldable pub le_bytes : ℕ → ℕ → Bytes
le_bytes zero n = []
le_bytes (suc k) n = n % 256 ∷ le_bytes k (n / 256)

unfoldable pub le_value : Bytes → ℕ
le_value [] = 0
le_value (b ∷ bs) = b + 256 * le_value bs
