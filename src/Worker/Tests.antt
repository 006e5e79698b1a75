-- ===== src/Worker/Tests.antt =====
-- Runs of a worker's socket loops, and their theorems at concrete streams.
use pi_296_cluster.Prelude.{
  false, ◌≡◌, ◌≢◌, refl, none, some, List, [], ◌∷◌, ◌++◌, arith, ok, fault, hang, length,
}
use pi_296_cluster.Kernel.{
  Bytes, Arrival, byte, gap, interrupted, closed, would_block, le_bytes, Answer, took, write_eintr,
  write_eagain,
}
use pi_296_cluster.Text.{newline, put_request_size}
use pi_296_cluster.Worker.{
  read_from_socket, read_line_from_socket, read_file_from_socket, create_header,
  get_filename_from_header, file_loop, write_to_socket, received, next_request,
}
use pi_296_cluster.Worker.Sockets.{read_from_socket-Delivers}
use pi_296_cluster.Worker.Lines.{read_line_from_socket-Delivers, read_line_from_socket-safe}
use pi_296_cluster.Worker.Headers.{get_filename_from_header-create_header}
use pi_296_cluster.Worker.Writing.{Sent, write_to_socket-all, write_to_socket-Sent}
use pi_296_cluster.Worker.Files.{
  file_loop-closed, read_file_from_socket-Delivers, next_request-message,
}

abbrev name : Bytes
name = b'a' ∷ b'b' ∷ []

abbrev file : Bytes
file = b'h' ∷ b'i' ∷ b'!' ∷ []

-- Three bytes in two parts, an interruption between them, and one byte of what follows.
abbrev pieces : List Arrival
pieces = byte b'h' ∷ gap ∷ interrupted ∷ byte b'i' ∷ byte b'!' ∷ byte 7 ∷ []

abbrev rest : List Arrival
rest = byte 7 ∷ []

read_from_socket_example : read_from_socket 3 pieces ≡ ok (some file, rest)
read_from_socket_example = read_from_socket-Delivers file pieces rest (refl, (refl, (refl, refl)))

read_file_from_socket_example : read_file_from_socket 3 [] pieces ≡ ok (some file, rest)
read_file_from_socket_example =
    read_file_from_socket-Delivers file pieces rest (refl, (refl, (refl, refl)))

abbrev line : List Arrival
line = byte b'a' ∷ interrupted ∷ byte b'b' ∷ gap ∷ byte newline ∷ rest

read_line_from_socket_example :
    read_line_from_socket line ≡ ok (some (name ++ (newline ∷ [])), rest)
read_line_from_socket_example =
    read_line_from_socket-Delivers name line rest (refl, (refl, tt)) (refl, (refl, (refl, refl)))

safe_example : read_line_from_socket line ≢ fault
safe_example = read_line_from_socket-safe line

get_filename_from_header_example :
    get_filename_from_header (create_header name) (length (create_header name)) put_request_size
    ≡ some name
get_filename_from_header_example = get_filename_from_header-create_header name (refl, (refl, tt))

-- The master goes away before the last four bytes.
file_loop-closed_example : file_loop 9 4 file [] (closed ∷ []) ≡ hang
file_loop-closed_example = file_loop-closed 9 4 file [] [] (omega arith)

abbrev request : List Arrival
request =
    byte b'P'
    ∷ byte b'U'
    ∷ interrupted
    ∷ byte b'T'
    ∷ byte b' '
    ∷ byte b'a'
    ∷ gap
    ∷ byte b'b'
    ∷ byte newline
    ∷ byte 3
    ∷ byte 0
    ∷ byte 0
    ∷ gap
    ∷ byte 0
    ∷ byte 0
    ∷ byte 0
    ∷ byte 0
    ∷ byte 0
    ∷ pieces

next_request-message_example : next_request false [] [] request ≡ ok (received name file, rest)
unfolding create_header le_bytes
next_request-message_example =
    next_request-message [] name file request rest (refl, (refl, tt)) (refl, (refl, tt))
      (omega arith)
      (
        refl,
        (
          refl,
          (
            refl,
            (
              refl,
              (
                refl,
                (
                  refl,
                  (
                    refl,
                    (
                      refl,
                      (
                        refl,
                        (
                          refl,
                          (refl, (refl, (refl, (refl, (refl, (refl, (refl, (refl, refl)))))))),
                        ),
                      ),
                    ),
                  ),
                ),
              ),
            ),
          ),
        ),
      )

short_header :
    get_filename_from_header (b'P' ∷ b'U' ∷ b'T' ∷ newline ∷ []) 4 put_request_size ≡ none
unfolding get_filename_from_header
short_header = refl

would_block_ends : read_from_socket 2 (byte 1 ∷ would_block ∷ []) ≡ ok (none, [])
unfolding read_from_socket
would_block_ends = refl

-- A write that takes one byte, one that is interrupted, and one that takes the rest.
write_to_socket-all_example :
    (left : List Answer) × (write_to_socket (took 1 ∷ write_eintr ∷ []) file ≡ (some 3, file, left))
write_to_socket-all_example =
    write_to_socket-all (took 1 ∷ write_eintr ∷ []) file (omega arith, tt) (omega arith)

-- EAGAIN ends it after one byte.
write_to_socket-Sent_example : Sent 0 file (write_to_socket (took 1 ∷ write_eagain ∷ []) file)
write_to_socket-Sent_example = write_to_socket-Sent (took 1 ∷ write_eagain ∷ []) file

eagain_loses_count : write_to_socket (took 1 ∷ write_eagain ∷ []) file ≡ (none, b'h' ∷ [], [])
unfolding write_to_socket
eagain_loses_count = refl
