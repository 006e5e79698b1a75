-- ===== src/Master/Parser/Tests.antt =====
-- `get_command` on a header that comes in two parts.
use pi_296_cluster.Prelude.{
  ℕ, zero, suc, ◌≡◌, refl, ap, ◌∙◌, append-nil, length-replicate, true, some, List, [], ◌∷◌, length,
  arith, ok, fault, replicate,
}
use pi_296_cluster.Kernel.{Bytes, Arrival, byte, gap, interrupted, would_block}
use pi_296_cluster.Text.{newline, Without}
use pi_296_cluster.Master.{Worker, to_put, done_sending, not_done_sending}
use pi_296_cluster.Master.Samples.{whole_numbers, machine}
use pi_296_cluster.Master.Parser.{get_command}
use pi_296_cluster.Master.Parser.Header.{
  took_in, get_command-overflow, get_command-waits, get_command-header,
}

abbrev idle : Worker whole_numbers
idle = machine 5 true 0 []

abbrev first : List Arrival
first = byte b'P' ∷ interrupted ∷ byte b'U' ∷ would_block ∷ []

get_command-waits_example :
    get_command (took_in idle []) first ≡ ok (not_done_sending, took_in idle (b'P' ∷ b'U' ∷ []), [])
get_command-waits_example =
    get_command-waits idle [] (b'P' ∷ b'U' ∷ []) first [] (refl, (refl, tt)) (omega arith)
      (refl, (refl, refl))

abbrev second : List Arrival
second = byte b'T' ∷ byte b' ' ∷ gap ∷ byte b'a' ∷ byte b'b' ∷ byte newline ∷ byte 7 ∷ []

get_command-header_example :
    get_command (took_in idle (b'P' ∷ b'U' ∷ [])) second
    ≡ ok (
      done_sending,
      record (took_in idle (b'P' ∷ b'U' ∷ b'T' ∷ b' ' ∷ b'a' ∷ b'b' ∷ [])) {
        to_do = to_put;
        temp_file_name = some (b'a' ∷ b'b' ∷ []);
      },
      byte 7 ∷ [],
    )
get_command-header_example =
    get_command-header idle (b'P' ∷ b'U' ∷ []) (b'T' ∷ b' ' ∷ b'a' ∷ b'b' ∷ []) second (byte 7 ∷ [])
      (refl, (refl, (refl, (refl, tt)))) (omega arith) to_put (b'a' ∷ b'b' ∷ []) refl
      (refl, (refl, tt)) (omega arith) (omega arith) (refl, (refl, (refl, (refl, (refl, refl)))))

abbrev many : ℕ → Bytes
many n = replicate n b'x'

many-Without : (n : ℕ) → Without newline (many n)
unfolding replicate
many-Without zero = tt
many-Without (suc n) = (refl, many-Without n)

get_command-overflow_example : get_command (took_in idle (many 1024)) (byte b'x' ∷ []) ≡ fault
get_command-overflow_example =
    get_command-overflow idle (many 1024) [] (byte b'x' ∷ []) [] tt
      (omega (arith, length-replicate {A = ℕ} 1024 b'x')) b'x'
      (ap length (append-nil (many 1024)) ∙ length-replicate {A = ℕ} 1024 b'x') refl (refl, refl)
