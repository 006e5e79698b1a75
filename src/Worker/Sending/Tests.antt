-- ===== src/Worker/Sending/Tests.antt =====
-- An output that goes back.
use pi_296_cluster.Prelude.{◌≡◌, true, List, [], ◌∷◌, arith, ok}
use pi_296_cluster.Kernel.{Bytes, Answer, took, write_eintr}
use pi_296_cluster.Master.{to_put}
use pi_296_cluster.Master.Events.Receiving.{request}
use pi_296_cluster.Worker.Sending.{send_output}
use pi_296_cluster.Worker.Sending.Request.{send_output-request}

abbrev name : Bytes
name = b'a' ∷ b'b' ∷ []

abbrev file : Bytes
file = b'h' ∷ b'i' ∷ b'!' ∷ []

send_output-request_example :
    (left : List Answer) × (send_output [] name file (took 4 ∷ write_eintr ∷ [])
      ≡ ok (true, request to_put name file, left))
send_output-request_example =
    send_output-request [] name file (took 4 ∷ write_eintr ∷ []) (omega arith, tt)
