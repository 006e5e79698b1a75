-- ===== src/Master/System.antt =====
-- The static variables of master.c, the files that the master keeps, and what it has sent; with
-- `get_binary_data` and `do_put` on them. A file is its bytes under its name; a descriptor of a
-- temporary file has the name and an offset. Reads of a file are not interrupted. `sent` has an entry
-- for each run of `do_put`.
pub mod Owner
pub mod Storing
pub mod Growing
mod Tests
use pi_296_cluster.Prelude.{
  ℕ, zero, suc, ◌+◌, Bool, true, false, Option, none, some, List, [], ◌∷◌, ◌++◌, map, ◌==◌,
  if◌then◌else◌, ℤ, pos, negsuc, minus_one, same_int, length, drop, Outcome, ok, fault, ◌>>=◌,
}
use pi_296_cluster.Kernel.{Bytes, Arrival, byte, broken, closed, Answer, write_failed}
use pi_296_cluster.Master.{Reply, done_sending, not_done_sending, big_failure, Task, Worker}
use pi_296_cluster.Master.Floats.{Double}
use pi_296_cluster.Master.Scheduler.{str_eq}
use pi_296_cluster.Master.Output.{do_put}
use pi_296_cluster.Master.Payload.{binary_loop}

abbrev pub Files : Type 0
Files = Bytes → Option Bytes

abbrev pub Opened : Type 0
Opened = ℤ → Option (Bytes × ℕ)

pub record System (F : Double) : Type 0 where
  pub workers : List (Worker F)
  pub interface : Option (Worker F)
  pub interface_fd : ℤ
  pub task_list : List Task
  pub files : Files
  pub opened : Opened
  pub sent : List (ℤ × Bytes)
  pub closed : List ℤ

-- What the environment does during one call: what arrives on the socket that is read, what open
-- returns, and the answers to the writes to the file and to the socket.
pub record Call : Type 0 where
  pub arrivals : List Arrival
  pub fresh : ℤ
  pub disk : List Answer
  pub net : List Answer

abbrev pub set_file : Files → Bytes → Bytes → Files
set_file files name content n = if str_eq n name then some content else files n

abbrev pub set_opened : Opened → ℤ → Bytes × ℕ → Opened
set_opened opened fd entry d = if same_int d fd then some entry else opened d

-- Bytes written at an offset; a gap before them is zero.
pub overwrite : Bytes → ℕ → Bytes → Bytes
overwrite content zero bs = bs ++ drop (length bs) content
overwrite [] (suc offset) bs = 0 ∷ overwrite [] offset bs
overwrite (c ∷ content) (suc offset) bs = c ∷ overwrite content offset bs

abbrev pub write_at : Bytes → ℕ → Bytes → Bytes
write_at content offset bs = if length bs == 0 then content else overwrite content offset bs

-- The reads of a file from its start.
abbrev pub file_reads : Bytes → List Arrival
file_reads [] = closed ∷ []
file_reads (b ∷ bs) = byte b ∷ file_reads bs

abbrev pub content_of : Option Bytes → Bytes
content_of none = []
content_of (some c) = c

abbrev pub net_answers : ℤ → List Answer → List Answer
net_answers (pos fd) answers = answers
net_answers (negsuc n) answers = write_failed ∷ []

module _ {F : Double} where
  -- open(name, O_CREAT | O_RDWR | O_TRUNC), which returns `fresh`.
  pub open_temp : ℤ → Bytes → System F → System F
  open_temp fresh name s = if same_int fresh minus_one then s else record s {
    files = set_file s.files name [];
    opened = set_opened s.opened fresh (name, 0);
  }

  -- The bytes that a file has taken at the offset of a descriptor.
  pub write_temp : ℤ → Bytes → System F → System F
  unfolding overwrite
  write_temp fd bs s = elim (s.opened fd) [
    | none ↦ s
    | some entry ↦
        let (name, offset) = entry in
        record s {
          files = set_file s.files name (write_at (content_of (s.files name)) offset bs);
          opened = set_opened s.opened fd (name, offset + length bs);
        }
  ]

  -- The first lines of `get_binary_data`; open(NULL) fails.
  pub open_for : ℤ → Worker F → System F → Worker F × System F
  unfolding open_temp
  open_for fresh w s =
      if same_int w.temp_fd minus_one
      then elim w.temp_file_name [
        | none ↦ (w, s)
        | some name ↦ (record w { temp_fd = fresh }, open_temp fresh name s)
      ]
      else (w, s)

  -- A write to a descriptor that is not open is refused.
  abbrev pub disk_answers : System F → ℤ → List Answer → List Answer
  disk_answers s fd answers = elim (s.opened fd) [ none ↦ write_failed ∷ [] | some entry ↦ answers ]

  pub get_binary_data :
      Call
      → List Arrival
      → Worker F
      → System F
      → Outcome (Reply × Worker F × System F × List Arrival)
  unfolding open_for write_temp
  get_binary_data call arrivals w s = do
    let opened = open_for call.fresh w s
    (reply, size, bs, t) ←
        binary_loop (length arrivals + 1) w.file_size
          (disk_answers opened.1 opened.0.temp_fd call.disk) arrivals
    ok (reply, record opened.0 { file_size = size }, write_temp opened.0.temp_fd bs opened.1, t)

  abbrev pub get_file_size : System F → Bytes → ℕ
  get_file_size s name = length (content_of (s.files name))

  abbrev pub reads_of : System F → ℤ → List Arrival
  reads_of s fd = elim (s.opened fd) [
    | none ↦ broken ∷ []
    | some entry ↦ file_reads (content_of (s.files entry.0))
  ]

  -- `do_put` with the worker's file; a name that is NULL is a fault. The offset that it leaves on the
  -- descriptor is not kept: nothing uses the descriptor after it.
  pub put_file : ℤ → List Answer → Worker F → System F → Outcome (Reply × System F)
  put_file fd answers w s = elim w.temp_file_name [
    | none ↦ fault
    | some name ↦ (do
      (reply, bytes) ←
          do_put name (get_file_size s name) (reads_of s w.temp_fd) (net_answers fd answers)
      ok (reply, record s { sent = s.sent ++ ((fd, bytes) ∷ []) }))
  ]
