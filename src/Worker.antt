-- ===== src/Worker.antt =====
-- worker.h and worker.c: the socket loops, the header, and the requests of a worker. The queues that
-- its threads share are those of `Queue`. A loop of reads has one round for each event, and one more;
-- a call that waits on a descriptor on which nothing arrives does not end.
pub mod Sockets
pub mod Lines
pub mod Files
pub mod Headers
pub mod Writing
pub mod Sending
pub mod Pool
mod Tests
use pi_296_cluster.Prelude.{
  ℕ, zero, suc, ◌+◌, ◌-◌, Bool, true, false, Option, none, some, List, [], ◌∷◌, ◌++◌, ltb, leb,
  ◌==◌, if◌then◌else◌, take, drop, length, Outcome, ok, fault, hang, ◌>>=◌,
}
use pi_296_cluster.Kernel.{
  Bytes, Arrival, Read, got, eintr, eagain, eother, idle, read, Answer, took, write_eintr,
  write_eagain, write_failed, write_once, sizeof_size, le_bytes, le_value,
}
use pi_296_cluster.Text.{newline, space, put_request, put_request_size, c_str, starts_with}

abbrev pub num_thread : ℕ
num_thread = 5

abbrev pub max_concurrent_task : ℕ
max_concurrent_task = 15

abbrev pub file_buffer_size : ℕ
file_buffer_size = 4096

abbrev pub line_buffer_size : ℕ
line_buffer_size = 32

-- What a loop of reads returns: the bytes stored, or -1 (`none`), and what is still to arrive.
abbrev pub Received : Type 0
Received = Option Bytes × List Arrival

-- The loop of `read_from_socket`. `need` is `count - totalByteRead`, and `stored` is in the buffer.
unfoldable pub read_loop : ℕ → ℕ → Bytes → List Arrival → Outcome Received
read_loop zero need stored s = hang
read_loop (suc fuel) need stored s =
    let (r, t) = read need s in
    elim r [
      | got bs ↦
          let more = read_loop fuel (need - length bs) (stored ++ bs) t in
          if length bs == 0
          then ok (some stored, t)
          else if leb need (length bs)
          then ok (some (stored ++ bs), t)
          else more
      | eintr ↦ read_loop fuel need stored t
      | eagain ↦ ok (none, t)
      | eother ↦ ok (none, t)
      | idle ↦ hang
    ]

unfoldable pub read_from_socket : ℕ → List Arrival → Outcome Received
unfolding read_loop
read_from_socket count s = read_loop (length s + 1) count [] s

-- The size that the eight bytes in `buffer` stand for; what a short read leaves is `garbage`.
pub read_size_from_socket : Bytes → List Arrival → Outcome (Option ℕ × List Arrival)
unfolding read_from_socket le_value
read_size_from_socket garbage s = do
  (r, t) ← read_from_socket sizeof_size s
  elim r [
    | none ↦ ok (none, t)
    | some bs ↦ ok (some (le_value (take sizeof_size (bs ++ drop (length bs) garbage))), t)
  ]

-- The loop of `read_line_from_socket`: `size` bytes are allocated, and a byte is stored behind them
-- only by a fault.
pub line_loop : ℕ → ℕ → Bytes → List Arrival → Outcome Received
line_loop zero size stored s = hang
line_loop (suc fuel) size stored s =
    let (r, t) = read 1 s in
    elim r [
      | got bs ↦
          let line : Bytes = stored ++ bs in
          let wider = if length line == size then size + line_buffer_size else size in
          let more = line_loop fuel wider line t in
          if length bs == 0
          then ok (some stored, t)
          else if ltb (length stored) size
          then if starts_with (newline ∷ []) bs then ok (some line, t) else more
          else fault
      | eintr ↦ line_loop fuel size stored t
      | eagain ↦ ok (none, t)
      | eother ↦ ok (none, t)
      | idle ↦ hang
    ]

pub read_line_from_socket : List Arrival → Outcome Received
unfolding line_loop
read_line_from_socket s = line_loop (length s + 1) line_buffer_size [] s

-- The loop of `read_file_from_socket`, on fuel: the file's new bytes, `none` where the function
-- returns -1. The return value of write is not looked at.
pub file_loop : ℕ → ℕ → Bytes → List Answer → List Arrival → Outcome (Option Bytes × List Arrival)
unfolding read_from_socket
file_loop zero remain file disk s = hang
file_loop (suc fuel) remain file disk s =
    elim (read_from_socket (if leb file_buffer_size remain then file_buffer_size else remain) s) [
      | fault ↦ fault
      | hang ↦ hang
      | ok rt ↦
          let (r, t) = rt in
          elim r [
            | none ↦ ok (none, t)
            | some bs ↦
                let (written, disk') = write_once disk bs in
                let more = file_loop fuel (remain - length bs) (file ++ written) disk' t in
                if remain - length bs == 0 then ok (some (file ++ written), t) else more
          ]
    ]

pub read_file_from_socket : ℕ → List Answer → List Arrival → Outcome (Option Bytes × List Arrival)
unfolding file_loop
read_file_from_socket count disk s = file_loop (count + 1) count [] disk s

-- The loop of `write_to_socket`: the return value (`none` for -1) and the bytes that are taken.
unfoldable pub write_loop : List Answer → Bytes → ℕ → Option ℕ × Bytes × List Answer
write_loop [] buffer total = (some (total + length buffer), buffer, [])
write_loop (took k ∷ later) buffer total =
    let part = take k buffer in
    let (r, sent, left) = write_loop later (drop k buffer) (total + length part) in
    if length part == 0
    then (some total, [], later)
    else if leb (length buffer) (length part)
    then (some (total + length part), part, later)
    else (r, part ++ sent, left)
write_loop (write_eintr ∷ later) buffer total = write_loop later buffer total
write_loop (write_eagain ∷ later) buffer total = (none, [], later)
write_loop (write_failed ∷ later) buffer total = (none, [], later)

unfoldable pub write_to_socket : List Answer → Bytes → Option ℕ × Bytes × List Answer
unfolding write_loop
write_to_socket answers buffer = write_loop answers buffer 0

unfoldable pub write_size_to_socket : List Answer → ℕ → Option ℕ × Bytes × List Answer
unfolding write_to_socket le_bytes
write_size_to_socket answers size = write_to_socket answers (le_bytes sizeof_size size)

-- The header: PUT, a space, the name and a newline.
unfoldable pub create_header : Bytes → Bytes
create_header filename = put_request ++ (space ∷ filename ++ (newline ∷ []))

-- The name between the verb and the last byte of the header; `none` for NULL.
pub get_filename_from_header : Bytes → ℕ → ℕ → Option Bytes
get_filename_from_header header header_size verb_size =
    if ltb header_size (verb_size + 2)
    then none
    else some (c_str (take (header_size - verb_size - 2) (drop (verb_size + 1) header)))

-- A round of the loop of `worker_main`: what one request comes to.
pub data Request : Type 0 where
  quits : Request
  exits : Request
  master_closed : Request
  bad : Request
  received : (filename file : Bytes) → Request

pub read_file : Bytes → Bytes → List Answer → List Arrival → Outcome (Request × List Arrival)
unfolding read_size_from_socket read_file_from_socket
read_file filename garbage disk s = do
  (size, t) ← read_size_from_socket garbage s
  elim size [
    | none ↦ ok (exits, t)
    | some n ↦ (do
      (file, u) ← read_file_from_socket n disk t
      elim file [ none ↦ ok (exits, u) | some bs ↦ ok (received filename bs, u) ])
  ]

-- `quitting` is the flag after the line has been read. A line shorter than the verb is bad whatever
-- memory strncmp finds behind it, since no name fits in it.
pub next_request : Bool → Bytes → List Answer → List Arrival → Outcome (Request × List Arrival)
unfolding read_line_from_socket get_filename_from_header read_file
next_request quitting garbage disk s = do
  (line, t) ← read_line_from_socket s
  if quitting then ok (quits, t) else elim line [
    | none ↦ ok (exits, t)
    | some request ↦
        if length request == 0
        then ok (master_closed, t)
        else if starts_with put_request request
        then elim (get_filename_from_header request (length request) put_request_size) [
          | none ↦ ok (bad, t)
          | some filename ↦ read_file filename garbage disk t
        ]
        else ok (bad, t)
  ]
