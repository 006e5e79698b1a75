-- ===== src/Interface.antt =====
-- interface.c: the copy loops, the request that goes to the master, the name that the user types, and
-- the thread that prints the output. The terminal is a list of characters; at its end is EOF.
pub mod Copying
pub mod Replies
pub mod Request
pub mod Printing
pub mod Typing
mod Tests
use pi_296_cluster.Prelude.{
  ℕ, zero, suc, ◌+◌, ◌-◌, ◌^◌, Bool, true, false, not, ◌&&◌, ◌||◌, Option, none, some, List, [],
  ◌∷◌, ◌++◌, ltb, leb, ◌==◌, if◌then◌else◌, take, drop, length, set, Outcome, ok, fault, hang,
  ◌>>=◌,
}
use pi_296_cluster.Kernel.{
  Bytes, Arrival, Read, got, eintr, eagain, eother, idle, read, Answer, took, write_eintr,
  write_eagain, write_failed, write_once, sizeof_size, le_bytes, le_value,
}
use pi_296_cluster.Text.{newline, space, interface_put}

abbrev pub buf_size : ℕ
buf_size = 1024

-- The loop of `my_write`, for a buffer of `c` bytes of which these are left: the return value (`none`
-- for -1) and the bytes that are taken.
pub my_write_loop : List Answer → ℕ → Bytes → Option ℕ × Bytes × List Answer
my_write_loop [] c buffer = (some c, buffer, [])
my_write_loop (took k ∷ later) c buffer =
    let part = take k buffer in
    let left = drop k buffer in
    let (r, sent, answers) = my_write_loop later c left in
    if ltb 0 (length left) && ltb 0 (length part)
    then (r, part ++ sent, answers)
    else (some (c - length left), part, later)
my_write_loop (write_eintr ∷ later) c buffer = my_write_loop later c buffer
my_write_loop (write_eagain ∷ later) c buffer = (none, [], later)
my_write_loop (write_failed ∷ later) c buffer = (none, [], later)

pub my_write : List Answer → Bytes → Option ℕ × Bytes × List Answer
unfolding my_write_loop
my_write answers buffer = my_write_loop answers (length buffer) buffer

-- The loop of `my_read`, with `count` bytes to come.
pub my_read_loop : ℕ → ℕ → Bytes → List Arrival → Outcome (Option Bytes × List Arrival)
my_read_loop zero count stored s = hang
my_read_loop (suc fuel) count stored s =
    let (r, t) = read count s in
    elim r [
      | got bs ↦
          let more = my_read_loop fuel (count - length bs) (stored ++ bs) t in
          if ltb 0 (count - length bs) && ltb 0 (length bs)
          then more
          else ok (some (stored ++ bs), t)
      | eintr ↦ my_read_loop fuel count stored t
      | eagain ↦ ok (none, t)
      | eother ↦ ok (none, t)
      | idle ↦ hang
    ]

pub my_read : ℕ → List Arrival → Outcome (Option Bytes × List Arrival)
unfolding my_read_loop
my_read count s = my_read_loop (length s + 1) count [] s

-- The text that `send_request` builds in `buffer`.
abbrev pub request_text : Bytes → Bytes
request_text local = interface_put ++ (space ∷ local ++ (newline ∷ []))

-- The bytes that go out, and the answers that are left.
pub send_request : Bytes → List Answer → Outcome (Bytes × List Answer)
unfolding my_write
send_request local answers =
    let (r, sent, left) = my_write answers (request_text local) in
    if ltb (length (request_text local)) buf_size then ok (sent, left) else fault

-- The loop of `write_binary_data`, on what is left of the file.
pub binary_rounds : ℕ → Bytes → List Answer → Outcome (Bytes × List Answer)
unfolding my_write
binary_rounds zero file answers = hang
binary_rounds (suc fuel) file answers =
    let part = take buf_size file in
    let (r, sent, left) = my_write answers part in
    let rest : Outcome (Bytes × List Answer) = (do
      (more, answers) ← binary_rounds fuel (drop buf_size file) left
      ok (sent ++ more, answers)) in
    if length part == 0 then ok ([], answers) else rest

pub write_binary_data : Bytes → List Answer → Outcome (Bytes × List Answer)
unfolding binary_rounds
write_binary_data file answers = binary_rounds (length file + 1) file answers

-- What `interface_main` sends for a file under a name.
pub upload : Bytes → Bytes → List Answer → Outcome (Bytes × List Answer)
unfolding send_request write_binary_data le_bytes
upload name file answers = do
  (header, answers) ← send_request name answers
  let (r, size, answers) = my_write answers (le_bytes sizeof_size (length file))
  (body, answers) ← write_binary_data file answers
  ok (header ++ (size ++ body), answers)

abbrev pub is_space : ℕ → Bool
is_space c = (c == 32) || (leb 9 c && leb c 13)

abbrev pub max : ℕ
max = 1024

-- What reading a name comes to.
pub data Typed : Type 0 where
  name : (letters rest : Bytes) → Typed
  too_long : Typed

abbrev pub typed_more : ℕ → Typed → Typed
typed_more c (name letters rest) = name (c ∷ letters) rest
typed_more c too_long = too_long

-- The loop that reads a name, from `name[i]` on.
pub name_loop : Bytes → ℕ → Outcome Typed
name_loop [] i = if ltb i max then ok (name [] []) else fault
name_loop (c ∷ cs) i =
    let rest : Outcome Typed = (do r ← name_loop cs (i + 1); ok (typed_more c r)) in
    if is_space c
    then if ltb i max then ok (name [] cs) else fault
    else if ltb i max
    then if ltb max (i + 1) then ok too_long else rest
    else fault

-- Past leading whitespace.
pub skip_space : Bytes → Bytes
skip_space [] = []
skip_space (c ∷ cs) = let later = skip_space cs in if is_space c then later else c ∷ cs

pub read_name : Bytes → Outcome Typed
unfolding name_loop skip_space
read_name typed = name_loop (skip_space typed) 0

-- read(sockFd, &b, 1), whose return value is not looked at.
abbrev pub read_into : ℕ → List Arrival → Outcome (ℕ × List Arrival)
read_into b s =
    let (r, t) = read 1 s in
    elim r [
      | got bs ↦ elim bs [ [] ↦ ok (b, t) | c ∷ cs ↦ ok (c, t) ]
      | eintr ↦ ok (b, t)
      | eagain ↦ ok (b, t)
      | eother ↦ ok (b, t)
      | idle ↦ hang
    ]

-- The first loop of `output_reciever`: `b` at its end, and what is still to arrive.
pub skip_header : ℕ → ℕ → ℕ → List Arrival → Outcome (ℕ × List Arrival)
skip_header zero b idx s = hang
skip_header (suc fuel) b idx s = do
  (c, t) ← read_into b s
  let rest = skip_header fuel c (idx + 1) t
  if c == newline then ok (c, t) else if ltb idx buf_size then rest else fault

-- The loop over the bytes of `file_size`, `k` of them to come.
pub size_rounds : ℕ → ℕ → List Arrival → Outcome (Bytes × ℕ × List Arrival)
size_rounds zero b s = ok ([], b, s)
size_rounds (suc k) b s = do
  (c, t) ← read_into b s
  (bs, b, u) ← size_rounds k c t
  ok (c ∷ bs, b, u)

-- `write_all_from_socket_to_fd`: the bytes written. A size below 0 is `none`, and stays below 0.
pub copy_loop :
    ℕ → Option ℕ → List Answer → List Arrival → Outcome (Option ℕ × Bytes × List Arrival)
copy_loop zero size out s = hang
copy_loop (suc fuel) size out s =
    let want : ℕ = elim size [ none ↦ 4096 | some n ↦ if ltb 4096 n then 4096 else n ] in
    let (r, t) = read want s in
    let round : Outcome (Option ℕ × Bytes × List Arrival) = elim r [
      | got bs ↦
          let (written, left) = write_once out bs in
          let more : Outcome (Option ℕ × Bytes × List Arrival) = (do
            (total, later, u) ←
                copy_loop fuel (elim size [ none ↦ none | some n ↦ some (n - length bs) ]) left t
            ok (elim total [ none ↦ none | some n ↦ some (length bs + n) ], written ++ later, u)) in
          if length bs == 0 then ok (some 0, [], t) else more
      | eintr ↦ copy_loop fuel size out t
      | eagain ↦ copy_loop fuel size out t
      | eother ↦ ok (none, [], t)
      | idle ↦ hang
    ] in
    elim size [ none ↦ round | some n ↦ if n == 0 then ok (some 0, [], s) else round ]

-- The size as a `ssize_t`.
abbrev pub signed_size : ℕ → Option ℕ
signed_size n = if ltb n (2 ^ 63) then some n else none

-- A round of `output_reciever`, `b` being what the round before left in it: what is printed.
pub print_output : ℕ → List Answer → List Arrival → Outcome (ℕ × Bytes × List Arrival)
unfolding skip_header size_rounds copy_loop le_value
print_output b out s = do
  (b, s) ← skip_header (length s + buf_size + 2) b 0 s
  (size, b, s) ← size_rounds sizeof_size b s
  (total, printed, s) ← copy_loop (length s + 1) (signed_size (le_value size)) out s
  ok (b, printed, s)
