-- ===== src/Master/Payload/Tests.antt =====
-- `get_size` on a size that comes in two parts.
use pi_296_cluster.Prelude.{◌≡◌, refl, true, [], ◌∷◌, arith, ok}
use pi_296_cluster.Kernel.{Bytes, byte, would_block, interrupted, le_bytes}
use pi_296_cluster.Master.{Worker, done_sending, not_done_sending}
use pi_296_cluster.Master.Samples.{whole_numbers, machine, arrive, arrive-Delivers}
use pi_296_cluster.Master.Payload.{get_size}
use pi_296_cluster.Master.Payload.Bytewise.{AllBytes}
use pi_296_cluster.Master.Payload.Sizes.{sized, get_size-waits, get_size-done}

abbrev node : Worker whole_numbers
node = machine 5 true 0 []

get_size-waits_example :
    get_size (sized node (1 ∷ [])) (interrupted ∷ byte 2 ∷ would_block ∷ byte 0 ∷ [])
    ≡ ok (not_done_sending, sized node (1 ∷ 2 ∷ []), byte 0 ∷ [])
get_size-waits_example =
    get_size-waits node (1 ∷ []) (2 ∷ []) (interrupted ∷ byte 2 ∷ would_block ∷ byte 0 ∷ [])
      (byte 0 ∷ []) (omega arith, tt) (omega arith, tt) (omega arith) (refl, refl)

abbrev zeros : Bytes
zeros = 0 ∷ 0 ∷ 0 ∷ 0 ∷ 0 ∷ []

zeros-AllBytes : AllBytes (0 ∷ zeros)
zeros-AllBytes =
    (omega arith, (omega arith, (omega arith, (omega arith, (omega arith, (omega arith, tt))))))

get_size-done_example :
    get_size (sized node (1 ∷ 2 ∷ [])) (arrive (0 ∷ zeros) (byte 9 ∷ []))
    ≡ ok (done_sending, record node { file_size = 513; size_buffer_pos = 8 }, byte 9 ∷ [])
unfolding le_bytes
get_size-done_example =
    get_size-done node (1 ∷ 2 ∷ []) 0 zeros 513 (arrive (0 ∷ zeros) (byte 9 ∷ [])) (byte 9 ∷ [])
      (omega arith) refl (omega arith, (omega arith, tt)) zeros-AllBytes
      (arrive-Delivers (0 ∷ zeros) (byte 9 ∷ []))
