-- ===== src/Master/System/Growing.antt =====
-- A file that comes over several calls of `get_binary_data`, each of which but the last ends where the
-- socket would block.
use mathlib.Core.Path.{fun_ext}
use pi_296_cluster.Prelude.{
  ℕ, ◌+◌, ◌<◌, ◌≡◌, refl, ap, ap₂, sym, ◌∙◌, inl, inr, true, false, Bool-cases, some, Bool, List,
  [], ◌∷◌, ◌++◌, append-nil, append_assoc, arith, ◌==◌, ==_refl, if◌then◌else◌, ℤ, pos, minus_one,
  same_int, length, length-append, Outcome, ok, ◌>>=◌,
}
use pi_296_cluster.Kernel.{Bytes, Arrival, would_block, Answer}
use pi_296_cluster.Kernel.Accepting.{Accepts}
use pi_296_cluster.Kernel.Delivery.{Delivers}
use pi_296_cluster.Master.{Reply, done_sending, not_done_sending, big_failure, Worker}
use pi_296_cluster.Master.Floats.{Double}
use pi_296_cluster.Master.Scheduler.{str_eq}
use pi_296_cluster.Master.Scheduler.Booking.{str_eq_refl}
use pi_296_cluster.Master.Payload.{binary_loop}
use pi_296_cluster.Master.Payload.Contents.{binary_loop-Delivers}
use pi_296_cluster.Master.Payload.Parts.{binary_loop-waits}
use pi_296_cluster.Master.System.{
  System, Call, Files, Opened, set_file, set_opened, overwrite, write_at, open_temp, write_temp,
  open_for, disk_answers, get_binary_data,
}
use pi_296_cluster.Master.System.Storing.{
  with_file, overwrite-empty, write_temp-at, write_temp-open_temp, get_binary_data-run,
  open_for-opens, opened_entry,
}

overwrite-length : (old bs : Bytes) → overwrite old (length old) bs ≡ old ++ bs
unfolding overwrite
overwrite-length [] bs = overwrite-empty bs
overwrite-length (b ∷ old) bs = ap (◌∷◌ b) (overwrite-length old bs)

write_at-length : (old bs : Bytes) → write_at old (length old) bs ≡ old ++ bs
write_at-length old [] = sym (append-nil old)
write_at-length old (b ∷ bs) =
    let some_bytes : (length (b ∷ bs) == 0) ≡ false = ground arith in
    rw some_bytes (overwrite-length old (b ∷ bs))

-- The later of two writes counts.
twice :
    {A B : Type 0} (c : A → Bool) (x y : B) (f : A → B)
    → ◌≡◌ {A = A → B} (λ a. if c a then y else if c a then x else f a) (λ a. if c a then y else f a)
twice c x y f = fun_ext λ a. elim (Bool-cases (c a)) [ inl e ↦ rw e refl | inr e ↦ rw e refl ]

module _ {F : Double} (d : ℕ) (name : Bytes) where
  write_temp-with_file :
      (old bs : Bytes) (s : System F)
      → write_temp (pos d) bs (with_file d name old s) ≡ with_file d name (old ++ bs) s
  write_temp-with_file old bs s =
      let same_fd : same_int (pos d) (pos d) ≡ true = ==_refl d in
      write_temp-at (pos d) bs (with_file d name old s) name (length old) old (rw same_fd)
        (rw (str_eq_refl name))
      ∙ ap₂ (λ (f : Files) (o : Opened). record s { files = f; opened = o })
          (ap (λ c. set_file (set_file (set_file s.files name []) name old) name c)
              (write_at-length old bs)
            ∙ twice (λ n. str_eq n name) (some old) (some (old ++ bs)) (set_file s.files name []))
          (ap
              (λ n.
                set_opened
                  (set_opened (set_opened s.opened (pos d) (name, 0)) (pos d) (name, length old))
                  (pos d) (name, n))
              (sym (length-append old bs))
            ∙ twice (λ e. same_int e (pos d)) (some (name, length old))
                (some (name, length (old ++ bs))) (set_opened s.opened (pos d) (name, 0)))

  -- The struct of a worker that `missing` bytes of the file are still to come for.
  abbrev pub awaiting : Worker F → ℕ → Worker F
  awaiting w missing = record w { temp_fd = pos d; file_size = missing }

  still_open :
      (fresh : ℤ) (w : Worker F) (missing : ℕ) (s : System F)
      → open_for fresh (awaiting w missing) s ≡ (awaiting w missing, s)
  unfolding open_for
  still_open fresh w missing s = refl

  entry :
      (old : Bytes) (s : System F) (answers : List Answer)
      → disk_answers (with_file d name old s) (pos d) answers ≡ answers
  entry old s answers =
      let same_fd : same_int (pos d) (pos d) ≡ true = ==_refl d in rw (same_fd, disk_answers)

  module _ (call : Call) (w : Worker F) (s : System F) (part : Bytes) (t : List Arrival)
      (a : Accepts call.disk) where
    get_binary_data-first :
        (missing : ℕ)
        → call.fresh ≡ pos d
        → w.temp_fd ≡ minus_one
        → w.temp_file_name ≡ some name
        → w.file_size ≡ length part + missing
        → 0 < missing
        → Delivers part call.arrivals (would_block ∷ t)
        → get_binary_data call call.arrivals w s
          ≡ ok (not_done_sending, awaiting w missing, with_file d name part s, t)
    get_binary_data-first missing fresh none_open named size some_left delivers =
        get_binary_data-run call w (record w { temp_fd = pos d }) s (open_temp (pos d) name s)
          call.disk call.arrivals t not_done_sending missing part
          (ap (λ fd. open_for fd w s) fresh ∙ open_for-opens d name w s none_open named)
          (rw (opened_entry d name s, disk_answers))
          (ap (λ n. binary_loop (length call.arrivals + 1) n call.disk call.arrivals) size
            ∙ binary_loop-waits (length call.arrivals + 1) missing part call.disk call.arrivals t
                (omega arith) some_left delivers a)
        ∙ ap (λ (l : System F). ok (not_done_sending, awaiting w missing, l, t))
            (write_temp-open_temp d name part s)

    get_binary_data-more :
        (old : Bytes) (missing : ℕ)
        → 0 < missing
        → Delivers part call.arrivals (would_block ∷ t)
        → get_binary_data call call.arrivals
            (awaiting w (length part + missing))
            (with_file d name old s)
          ≡ ok (not_done_sending, awaiting w missing, with_file d name (old ++ part) s, t)
    get_binary_data-more old missing some_left delivers =
        let now = awaiting w (length part + missing) in
        let stored = with_file d name old s in
        get_binary_data-run call now now stored stored call.disk call.arrivals t not_done_sending
          missing part (still_open call.fresh w (length part + missing) stored)
          (entry old s call.disk)
          (binary_loop-waits (length call.arrivals + 1) missing part call.disk call.arrivals t
            (omega arith) some_left delivers a)
        ∙ ap (λ (l : System F). ok (not_done_sending, awaiting w missing, l, t))
            (write_temp-with_file old part s)

    get_binary_data-rest :
        (old : Bytes)
        → Delivers part call.arrivals t
        → get_binary_data call call.arrivals (awaiting w (length part)) (with_file d name old s)
          ≡ ok (done_sending, awaiting w 0, with_file d name (old ++ part) s, t)
    get_binary_data-rest old delivers =
        let now = awaiting w (length part) in
        let stored = with_file d name old s in
        get_binary_data-run call now now stored stored call.disk call.arrivals t done_sending 0 part
          (still_open call.fresh w (length part) stored) (entry old s call.disk)
          (binary_loop-Delivers (length call.arrivals + 1) part call.disk call.arrivals t
            (omega arith) delivers a)
        ∙ ap (λ (l : System F). ok (done_sending, awaiting w 0, l, t))
            (write_temp-with_file old part s)

-- The parts that come before the last event, each with its call.
abbrev pub joined : List (Call × Bytes) → Bytes
joined [] = []
joined ((call, part) ∷ parts) = part ++ joined parts

abbrev pub calls_of : List (Call × Bytes) → List Call
calls_of [] = []
calls_of ((call, part) ∷ parts) = call ∷ calls_of parts

-- After each part the socket would block, and the disk takes every write.
abbrev pub Stored : List (Call × Bytes) → Type 0
Stored [] = Unit {0}
Stored ((call, part) ∷ parts) =
    ((t : List Arrival) × Delivers part call.arrivals (would_block ∷ t))
    × Accepts call.disk
    × Stored parts

module _ {F : Double} where
  -- Calls of `get_binary_data` while it returns NOT_DONE_SENDING.
  abbrev pub get_all : List Call → Worker F → System F → Outcome (Reply × Worker F × System F)
  get_all [] w s = ok (not_done_sending, w, s)
  get_all (call ∷ calls) w s = do
    (reply, w, s, left) ← get_binary_data call call.arrivals w s
    elim reply [
      | not_done_sending ↦ get_all calls w s
      | done_sending ↦ ok (done_sending, w, s)
      | big_failure ↦ ok (big_failure, w, s)
    ]

  module _ (d : ℕ) (name : Bytes) (w : Worker F) (s : System F) (last : Call) (rest : Bytes)
      (t : List Arrival) (takes : Accepts last.disk) (comes : Delivers rest last.arrivals t)
      (some_rest : 0 < length rest) where
    get_all-parts :
        (parts : List (Call × Bytes)) (old : Bytes)
        → Stored parts
        → get_all
            (calls_of parts ++ (last ∷ []))
            (awaiting d name w (length (joined parts ++ rest)))
            (with_file d name old s)
          ≡ ok (
            done_sending,
            awaiting d name w 0,
            with_file d name (old ++ (joined parts ++ rest)) s,
          )
    get_all-parts [] old stored =
        rw (get_binary_data-rest d name last w s rest t takes old comes) refl
    get_all-parts ((call, part) ∷ parts) old ((u, delivers), writes, stored) =
        let missing = length (joined parts ++ rest) in
        let size : length ((part ++ joined parts) ++ rest) ≡ length part + missing =
          ap length (append_assoc part (joined parts) rest)
          ∙ length-append part (joined parts ++ rest) in
        let some_left : 0 < missing = omega (arith, some_rest, length-append (joined parts) rest) in
        let more =
          get_binary_data-more d name call w s part u writes old missing some_left delivers in
        ap
          (λ n.
            get_all (call ∷ (calls_of parts ++ (last ∷ []))) (awaiting d name w n)
              (with_file d name old s))
          size
        ∙ rw more (get_all-parts parts (old ++ part) stored)
        ∙ ap (λ (bs : Bytes). ok (done_sending, awaiting d name w 0, with_file d name bs s))
            (append_assoc old part (joined parts ++ rest)
              ∙ ap (λ (bs : Bytes). old ++ bs) (sym (append_assoc part (joined parts) rest)))

    -- A file that comes over two calls of `get_binary_data` or more, cut up as it likes, where each of
    -- the calls but the last ends because the socket would block, is on the disk as it came when the
    -- last of them returns DONE_SENDING: the calls before it return NOT_DONE_SENDING, the file is opened
    -- once, under its name, and nothing else changes. No write to the disk is refused, the file that is
    -- announced has the length of the parts, and its last part is not empty.
    pub get_all-file :
        (first : Call) (front : Bytes) (u : List Arrival) (parts : List (Call × Bytes))
        → first.fresh ≡ pos d
        → w.temp_fd ≡ minus_one
        → w.temp_file_name ≡ some name
        → w.file_size ≡ length (front ++ (joined parts ++ rest))
        → Delivers front first.arrivals (would_block ∷ u)
        → Accepts first.disk
        → Stored parts
        → get_all (first ∷ (calls_of parts ++ (last ∷ []))) w s
          ≡ ok (
            done_sending,
            awaiting d name w 0,
            with_file d name (front ++ (joined parts ++ rest)) s,
          )
    get_all-file first front u parts fresh none_open named size delivers writes stored =
        let missing = length (joined parts ++ rest) in
        let some_left : 0 < missing = omega (arith, some_rest, length-append (joined parts) rest) in
        let start =
          get_binary_data-first d name first w s front u writes missing fresh none_open named
            (size ∙ length-append front (joined parts ++ rest)) some_left delivers in
        rw start (get_all-parts parts front stored)
