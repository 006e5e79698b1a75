-- ===== src/Text.antt =====
-- C strings and the words of the protocol. A string is its bytes, without the NUL.
use pi_296_cluster.Prelude.{ℕ, ◌≡◌, Bool, true, false, ◌&&◌, [], ◌∷◌, ◌==◌, if◌then◌else◌}
use pi_296_cluster.Kernel.{Bytes}

abbrev pub newline : ℕ
newline = 10

abbrev pub space : ℕ
space = 32

-- PUT_REQUEST, and its length.
abbrev pub put_request : Bytes
put_request = b'P' ∷ b'U' ∷ b'T' ∷ []

abbrev pub put_request_size : ℕ
put_request_size = 3

abbrev pub interface_put : Bytes
interface_put = b'I' ∷ b'N' ∷ b'T' ∷ b'E' ∷ b'R' ∷ b'F' ∷ b'A' ∷ b'C' ∷ b'E' ∷ b'_' ∷ put_request

-- The string that begins a block of memory: its bytes up to the first NUL.
abbrev pub c_str : Bytes → Bytes
c_str [] = []
c_str (b ∷ bs) = let rest = c_str bs in if b == 0 then [] else b ∷ rest

-- `strncmp(word, memory, strlen(word)) == 0`. Memory past the end of the list differs from the word.
abbrev pub starts_with : Bytes → Bytes → Bool
starts_with [] m = true
starts_with (w ∷ ws) [] = false
starts_with (w ∷ ws) (b ∷ m) = (b == w) && starts_with ws m

-- No byte of a string is the given one.
abbrev pub Without : ℕ → Bytes → Type 0
Without c [] = Unit {0}
Without c (b ∷ bs) = ((b == c) ≡ false) × Without c bs
