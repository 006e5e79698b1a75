-- ===== src/Master/Output/Tests.antt =====
-- Runs of `do_put`, and its theorems at a concrete file.
use pi_296_cluster.Prelude.{◌≡◌, refl, List, [], ◌∷◌, arith, ok}
use pi_296_cluster.Kernel.{
  Bytes, Arrival, byte, gap, interrupted, closed, Answer, took, write_eintr, write_eagain,
  write_failed,
}
use pi_296_cluster.Text.{newline}
use pi_296_cluster.Master.{big_failure, done_sending}
use pi_296_cluster.Master.Output.{put_header, do_put}
use pi_296_cluster.Master.Output.Everything.{put_message, do_put-everything}

abbrev name : Bytes
name = b'a' ∷ b'b' ∷ []

abbrev file : Bytes
file = b'h' ∷ b'i' ∷ []

-- The file is read in two parts, and the socket takes a few bytes at a time.
abbrev src : List Arrival
src = byte b'h' ∷ interrupted ∷ byte b'i' ∷ closed ∷ []

abbrev answers : List Answer
answers = took 3 ∷ write_eagain ∷ took 9 ∷ write_eintr ∷ took 5 ∷ []

refused : do_put name 2 src (took 3 ∷ write_failed ∷ []) ≡ ok (big_failure, b'P' ∷ b'U' ∷ b'T' ∷ [])
unfolding do_put
refused = refl

do_put-everything_example : do_put name 2 src answers ≡ ok (done_sending, put_message name file)
unfolding put_header
do_put-everything_example =
    do_put-everything name file src (closed ∷ []) answers (omega arith) (refl, (refl, refl))
      (omega arith, (omega arith, (omega arith, tt)))

abbrev wire : List Arrival
wire =
    byte b'P'
    ∷ byte b'U'
    ∷ interrupted
    ∷ byte b'T'
    ∷ byte b' '
    ∷ byte b'a'
    ∷ gap
    ∷ byte b'b'
    ∷ byte newline
    ∷ byte 2
    ∷ byte 0
    ∷ byte 0
    ∷ gap
    ∷ byte 0
    ∷ byte 0
    ∷ byte 0
    ∷ byte 0
    ∷ byte 0
    ∷ byte b'h'
    ∷ byte b'i'
    ∷ []
