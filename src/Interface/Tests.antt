-- ===== src/Interface/Tests.antt =====
-- A name, an upload and an output.
use pi_296_cluster.Prelude.{
  ℕ, zero, suc, ◌≡◌, refl, false, List, [], ◌∷◌, ◌++◌, arith, length-replicate, replicate, ok,
  fault,
}
use pi_296_cluster.Kernel.{
  Bytes, Arrival, byte, gap, interrupted, closed, Answer, took, write_eintr, le_bytes,
}
use pi_296_cluster.Text.{newline}
use pi_296_cluster.Master.{to_interface_put}
use pi_296_cluster.Master.Events.Receiving.{request}
use pi_296_cluster.Worker.{write_to_socket}
use pi_296_cluster.Interface.Copying.{my_write-write_to_socket}
use pi_296_cluster.Interface.{my_write, name, read_name, upload, print_output}
use pi_296_cluster.Interface.Request.{upload-request}
use pi_296_cluster.Interface.Printing.{print_output-head_of, print_output-closed}
use pi_296_cluster.Interface.Typing.{AllSpace, read_name-word, read_name-long}

abbrev word : Bytes
word = b'a' ∷ b'b' ∷ []

read_name-word_example :
    read_name (b' ' ∷ b'a' ∷ b'b' ∷ newline ∷ b'c' ∷ []) ≡ ok (name word (b'c' ∷ []))
read_name-word_example =
    read_name-word (b' ' ∷ []) b'a' (b'b' ∷ []) newline (b'c' ∷ []) (refl, tt) (refl, (refl, tt))
      refl (omega arith)

abbrev many : ℕ → Bytes
many n = replicate n b'x'

many-AllSpace : (n : ℕ) → AllSpace false (many n)
unfolding replicate
many-AllSpace zero = tt
many-AllSpace (suc n) = (refl, many-AllSpace n)

read_name-long_example : read_name ([] ++ ((b'x' ∷ many 1024) ++ [])) ≡ fault
read_name-long_example =
    read_name-long [] b'x' (many 1024) [] tt (refl, many-AllSpace 1024)
      (omega (arith, length-replicate {A = ℕ} 1024 b'x'))

my_write-write_to_socket_example :
    my_write (took 1 ∷ write_eintr ∷ []) word ≡ write_to_socket (took 1 ∷ write_eintr ∷ []) word
my_write-write_to_socket_example = my_write-write_to_socket (took 1 ∷ write_eintr ∷ []) word

upload-request_example :
    (left : List Answer) × (upload word (1 ∷ 2 ∷ []) (took 3 ∷ write_eintr ∷ [])
      ≡ ok (request to_interface_put word (1 ∷ 2 ∷ []), left))
upload-request_example =
    upload-request word (1 ∷ 2 ∷ []) (took 3 ∷ write_eintr ∷ []) (omega arith) (omega arith, tt)

abbrev wire : List Arrival
wire =
    byte b'P'
    ∷ gap
    ∷ byte newline
    ∷ byte 1
    ∷ byte 0
    ∷ byte 0
    ∷ byte 0
    ∷ gap
    ∷ byte 0
    ∷ byte 0
    ∷ byte 0
    ∷ byte 0
    ∷ interrupted
    ∷ byte 7
    ∷ []

print_output-head_of_example : (last : ℕ) × (print_output 0 [] wire ≡ ok (last, 7 ∷ [], []))
unfolding le_bytes
print_output-head_of_example =
    print_output-head_of 0 (b'P' ∷ []) (7 ∷ []) wire (interrupted ∷ byte 7 ∷ []) [] (refl, tt)
      (omega arith) (omega arith)
      (refl, (refl, (refl, (refl, (refl, (refl, (refl, (refl, (refl, (refl, refl))))))))))
      (refl, refl)

print_output-closed_example : print_output 0 [] (closed ∷ []) ≡ fault
print_output-closed_example = print_output-closed 0 [] [] (λ e. omega (arith, e))
