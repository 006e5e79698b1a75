-- ===== src/Master/System/Storing.antt =====
-- A file that comes in one piece is on the disk as it came, and is read back so.
use pi_296_cluster.Prelude.{
  ℕ, ◌+◌, ◌<◌, ◌≡◌, refl, ap, ap₂, ◌∙◌, true, false, Option, none, some, List, [], ◌∷◌, ◌++◌,
  append-nil, arith, ◌==◌, ==_refl, ℤ, pos, minus_one, same_int, length, drop_all, ok,
}
use pi_296_cluster.Kernel.{Bytes, Arrival, closed, Answer}
use pi_296_cluster.Kernel.Accepting.{Accepts}
use pi_296_cluster.Kernel.Delivery.{Delivers}
use pi_296_cluster.Master.{Reply, done_sending, Worker}
use pi_296_cluster.Master.Floats.{Double}
use pi_296_cluster.Master.Scheduler.Booking.{str_eq_refl}
use pi_296_cluster.Master.Output.{do_put, put_header, put_buffer_size}
use pi_296_cluster.Master.Output.Everything.{put_message, do_put-everything}
use pi_296_cluster.Master.Payload.{binary_loop}
use pi_296_cluster.Master.Payload.Contents.{binary_loop-Delivers}
use pi_296_cluster.Master.System.{
  System, Call, set_file, set_opened, overwrite, write_at, file_reads, content_of, open_temp,
  write_temp, open_for, disk_answers, get_binary_data, get_file_size, reads_of, put_file,
}

pub overwrite-empty : (bs : Bytes) → overwrite [] 0 bs ≡ bs
unfolding overwrite
overwrite-empty bs = ap (λ l. bs ++ l) (drop_all (length bs) [] (omega arith)) ∙ append-nil bs

write_at-empty : (bs : Bytes) → write_at [] 0 bs ≡ bs
write_at-empty [] = refl
write_at-empty (b ∷ bs) =
    let some_bytes : (length (b ∷ bs) == 0) ≡ false = ground arith in
    rw some_bytes (overwrite-empty (b ∷ bs))

pub file_reads-Delivers : (file : Bytes) → Delivers file (file_reads file) (closed ∷ [])
file_reads-Delivers [] = refl
file_reads-Delivers (b ∷ file) = (refl, file_reads-Delivers file)

module _ {F : Double} where
  -- The master after a file has been opened under a name and filled.
  abbrev pub with_file : ℕ → Bytes → Bytes → System F → System F
  with_file d name file s = record s {
    files = set_file (set_file s.files name []) name file;
    opened = set_opened (set_opened s.opened (pos d) (name, 0)) (pos d) (name, length file);
  }

  pub write_temp-at :
      (fd : ℤ) (bs : Bytes) (s : System F) (name : Bytes) (offset : ℕ) (content : Bytes)
      → s.opened fd ≡ some (name, offset)
      → s.files name ≡ some content
      → write_temp fd bs s ≡ record s {
        files = set_file s.files name (write_at content offset bs);
        opened = set_opened s.opened fd (name, offset + length bs);
      }
  unfolding write_temp
  write_temp-at fd bs s name offset content e f = rw (e, write_temp) (rw f)

  pub write_temp-open_temp :
      (d : ℕ) (name file : Bytes) (s : System F)
      → write_temp (pos d) file (open_temp (pos d) name s) ≡ with_file d name file s
  unfolding open_temp
  write_temp-open_temp d name file s =
      let same_fd : same_int (pos d) (pos d) ≡ true = ==_refl d in
      let sum : 0 + length file ≡ length file = omega arith in
      write_temp-at (pos d) file (open_temp (pos d) name s) name 0 [] (rw same_fd)
        (rw (str_eq_refl name))
      ∙ ap₂
          (λ (bs : Bytes) (n : ℕ). record s {
            files = set_file (set_file s.files name []) name bs;
            opened = set_opened (set_opened s.opened (pos d) (name, 0)) (pos d) (name, n);
          })
          (write_at-empty file) sum

  pub opened_entry :
      (d : ℕ) (name : Bytes) (s : System F)
      → (open_temp (pos d) name s).opened (pos d) ≡ some (name, 0)
  unfolding open_temp
  opened_entry d name s = let same_fd : same_int (pos d) (pos d) ≡ true = ==_refl d in rw same_fd

  pub open_for-opens :
      (d : ℕ) (name : Bytes) (w : Worker F) (s : System F)
      → w.temp_fd ≡ minus_one
      → w.temp_file_name ≡ some name
      → open_for (pos d) w s ≡ (record w { temp_fd = pos d }, open_temp (pos d) name s)
  unfolding open_for
  open_for-opens d name w s none_open named =
      let unopened : same_int w.temp_fd minus_one ≡ true =
        ap (λ fd. same_int fd minus_one) none_open in
      rw unopened (
        ap
          (λ (o : Option Bytes). elim o as (λ _. Worker F × System F) [
            | none ↦ (w, s)
            | some n ↦ (record w { temp_fd = pos d }, open_temp (pos d) n s)
          ])
          named)

  pub get_binary_data-run :
      (call : Call) (w v : Worker F) (s s' : System F) (answers : List Answer)
      (arrivals t : List Arrival) (reply : Reply) (size : ℕ) (bs : Bytes)
      → open_for call.fresh w s ≡ (v, s')
      → disk_answers s' v.temp_fd call.disk ≡ answers
      → binary_loop (length arrivals + 1) w.file_size answers arrivals ≡ ok (reply, size, bs, t)
      → get_binary_data call arrivals w s
        ≡ ok (reply, record v { file_size = size }, write_temp v.temp_fd bs s', t)
  unfolding get_binary_data
  get_binary_data-run call w v s s' answers arrivals t reply size bs opens takes loops =
      rw (opens, takes, loops)

  put_file-run :
      (fd n : ℕ) (answers : List Answer) (name bytes : Bytes) (src : List Arrival) (reply : Reply)
      (w : Worker F) (s : System F)
      → w.temp_file_name ≡ some name
      → get_file_size s name ≡ n
      → reads_of s w.temp_fd ≡ src
      → do_put name n src answers ≡ ok (reply, bytes)
      → put_file (pos fd) answers w s
        ≡ ok (reply, record s { sent = s.sent ++ ((pos fd, bytes) ∷ []) })
  unfolding put_file
  put_file-run fd n answers name bytes src reply w s named size reads puts =
      rw (named, put_file) (rw (size, reads) (rw puts))

  -- `get_binary_data` at the start of a file, whose bytes come without a wait.
  pub get_binary_data-done :
      (call : Call) (d : ℕ) (name file : Bytes) (w : Worker F) (s : System F)
      (arrivals t : List Arrival)
      → call.fresh ≡ pos d
      → Accepts call.disk
      → w.temp_fd ≡ minus_one
      → w.temp_file_name ≡ some name
      → w.file_size ≡ length file
      → Delivers file arrivals t
      → get_binary_data call arrivals w s
        ≡ ok (done_sending, record w { temp_fd = pos d; file_size = 0 }, with_file d name file s, t)
  get_binary_data-done call d name file w s arrivals t fresh a none_open named size delivers =
      get_binary_data-run call w (record w { temp_fd = pos d }) s (open_temp (pos d) name s)
        call.disk arrivals t done_sending 0 file
        (ap (λ fd. open_for fd w s) fresh ∙ open_for-opens d name w s none_open named)
        (rw (opened_entry d name s, disk_answers))
        (ap (λ n. binary_loop (length arrivals + 1) n call.disk arrivals) size
          ∙ binary_loop-Delivers (length arrivals + 1) file call.disk arrivals t (omega arith)
              delivers a)
      ∙ ap (λ (l : System F). ok (done_sending, record w { temp_fd = pos d; file_size = 0 }, l, t))
          (write_temp-open_temp d name file s)

  reads_of-at :
      (fd : ℤ) (s : System F) (name content : Bytes) (offset : ℕ)
      → s.opened fd ≡ some (name, offset)
      → s.files name ≡ some content
      → reads_of s fd ≡ file_reads content
  reads_of-at fd s name content offset e f = rw (e, reads_of) (rw f)

  -- `do_put` of such a file.
  pub put_file-everything :
      (fd d : ℕ) (answers : List Answer) (name file : Bytes) (w : Worker F) (s : System F)
      → w.temp_fd ≡ pos d
      → w.temp_file_name ≡ some name
      → length (put_header name) < put_buffer_size
      → Accepts answers
      → let stored = with_file d name file s in
        put_file (pos fd) answers w stored
        ≡ ok (
          done_sending,
          record stored { sent = s.sent ++ ((pos fd, put_message name file) ∷ []) },
        )
  put_file-everything fd d answers name file w s opened named fits a =
      let same_fd : same_int (pos d) (pos d) ≡ true = ==_refl d in
      let stored : System F = with_file d name file s in
      let holds : stored.files name ≡ some file = rw (str_eq_refl name) in
      let entry : stored.opened (pos d) ≡ some (name, length file) = rw same_fd in
      put_file-run fd (length file) answers name (put_message name file) (file_reads file)
        done_sending w stored named (ap (λ c. length (content_of c)) holds)
        (ap (reads_of stored) opened
          ∙ reads_of-at (pos d) stored name file (length file) entry holds)
        (do_put-everything name file (file_reads file) (closed ∷ []) answers fits
          (file_reads-Delivers file) a)

  -- The master after a file has been opened under a name.
  abbrev pub emptied : ℕ → Bytes → System F → System F
  emptied d name s = record s {
    files = set_file s.files name [];
    opened = set_opened s.opened (pos d) (name, 0);
  }

  pub open_temp-emptied :
      (d : ℕ) (name : Bytes) (s : System F) → open_temp (pos d) name s ≡ emptied d name s
  unfolding open_temp
  open_temp-emptied d name s = refl

  -- `do_put` of a file that has just been opened.
  pub put_file-emptied :
      (fd d : ℕ) (answers : List Answer) (name : Bytes) (w : Worker F) (s : System F)
      → w.temp_fd ≡ pos d
      → w.temp_file_name ≡ some name
      → length (put_header name) < put_buffer_size
      → Accepts answers
      → put_file (pos fd) answers w (emptied d name s)
        ≡ ok (
          done_sending,
          record (emptied d name s) { sent = s.sent ++ ((pos fd, put_message name []) ∷ []) },
        )
  put_file-emptied fd d answers name w s opened named fits a =
      let same_fd : same_int (pos d) (pos d) ≡ true = ==_refl d in
      let holds : (emptied d name s).files name ≡ some [] = rw (str_eq_refl name) in
      let entry : (emptied d name s).opened (pos d) ≡ some (name, 0) = rw same_fd in
      put_file-run fd 0 answers name (put_message name []) (file_reads []) done_sending w
        (emptied d name s) named (ap (λ c. length (content_of c)) holds)
        (ap (reads_of (emptied d name s)) opened
          ∙ reads_of-at (pos d) (emptied d name s) name [] 0 entry holds)
        (do_put-everything name [] (file_reads []) (closed ∷ []) answers fits
          (file_reads-Delivers []) a)
