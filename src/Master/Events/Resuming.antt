-- ===== src/Master/Events/Resuming.antt =====
-- An upload whose header comes with several events: each call of `handle_data` but the last ends where
-- the socket would block.
use pi_296_cluster.Prelude.{
  ℕ, ◌+◌, ◌≤◌, ◌<◌, ◌≡◌, refl, ap, ◌∙◌, sym, subst, true, false, none, some, List, [], ◌∷◌, ◌++◌,
  append_assoc, append-nil, if◌then◌else◌, arith, pos, length, length-append, Outcome, ok, ◌>>=◌,
}
use pi_296_cluster.Kernel.{Bytes, Arrival, would_block, sizeof_size, le_bytes}
use pi_296_cluster.Kernel.Accepting.{Accepts}
use pi_296_cluster.Kernel.Delivery.{Delivers}
use pi_296_cluster.Text.{newline, Without}
use pi_296_cluster.Master.{
  Command, start, not_done_sending, Task, Worker, command_buf_size, find_worker_pos,
}
use pi_296_cluster.Master.Floats.{Double}
use pi_296_cluster.Master.Scheduler.{schedule}
use pi_296_cluster.Master.Output.{put_header, put_buffer_size}
use pi_296_cluster.Master.Output.Everything.{put_message}
use pi_296_cluster.Master.Parser.{get_command}
use pi_296_cluster.Master.Parser.Header.{took_in, get_command-waits}
use pi_296_cluster.Master.System.{System, Call}
use pi_296_cluster.Master.System.Growing.{joined, calls_of}
use pi_296_cluster.Master.Events.{
  as_interface, Turn, on_start, on_need_size, on_recieving, on_forward, on_forwarding, then_block,
  blocks, handle_data,
}
use pi_296_cluster.Master.Events.Blocks.{at_status, then_ok, handle_data-interface, serve-run}
use pi_296_cluster.Master.Events.Receiving.{header, IsRequest, waiting, ready, Without-rest}
use pi_296_cluster.Master.Events.Upload.{new_task, with_interface, with_part, upload_rest}

Without-front : (c : ℕ) (bs cs : Bytes) → Without c (bs ++ cs) → Without c bs
Without-front c [] cs w = tt
Without-front c (b ∷ bs) cs w = (w.0, Without-front c bs cs w.1)

-- After each part of a header the socket would block.
abbrev pub InParts : List (Call × Bytes) → Type 0
InParts [] = Unit {0}
InParts ((call, part) ∷ parts) =
    ((t : List Arrival) × Delivers part call.arrivals (would_block ∷ t)) × InParts parts

module _ {F : Double} where
  -- One call after the other.
  abbrev pub handle_all : List Call → ℕ → System F → Outcome (System F)
  handle_all [] fd s = ok s
  handle_all (call ∷ calls) fd s = do (s, left) ← handle_data call fd s; handle_all calls fd s

  on_start-waits :
      (fd : ℕ) (t : Turn F) (w : Worker F) (left : List Arrival)
      → t.curr.status ≡ start
      → get_command t.curr t.left ≡ ok (not_done_sending, w, left)
      → on_start fd t ≡ ok (record t { going = false; curr = w; left = left })
  unfolding on_start
  on_start-waits fd t w left e h = rw (at_status t start e, h)

  blocks-ended :
      (call : Call) (fd : ℕ) (t u : Turn F)
      → on_start fd t ≡ ok u
      → u.going ≡ false
      → blocks call fd t ≡ ok u
  unfolding blocks
  blocks-ended call fd t u first ended =
      let fourth : Turn F → Outcome (Turn F) =
        λ t. then_block (on_forward fd) t >>= then_block (on_forwarding call) in
      let third : Turn F → Outcome (Turn F) = λ t. then_block (on_recieving call) t >>= fourth in
      let second : Turn F → Outcome (Turn F) = λ t. then_block on_need_size t >>= third in
      then_ok second first
      ∙ then_ok third (skipped on_need_size)
      ∙ then_ok fourth (skipped (on_recieving call))
      ∙ then_ok (then_block (on_forwarding call)) (skipped (on_forward fd))
      ∙ skipped (on_forwarding call)
    where
      skipped : (f : Turn F → Outcome (Turn F)) → then_block f u ≡ ok u
      skipped f = ap (λ c. if c then f u else ok u) ended

  -- A part of a header.
  part-taken :
      (call : Call) (fd : ℕ) (w : Worker F) (s : System F) (stored rest : Bytes) (t : List Arrival)
      → Without newline rest
      → length stored + length rest ≤ command_buf_size
      → find_worker_pos fd s.workers ≡ none
      → Delivers rest call.arrivals (would_block ∷ t)
      → handle_data call fd (with_part fd w stored s) ≡ ok (with_part fd w (stored ++ rest) s, t)
  part-taken call fd w s stored rest t plain fits unlisted d =
      let before : Turn F = record {
        going = true;
        curr = took_in (waiting w) stored;
        place = as_interface;
        system = with_part fd w stored s;
        left = call.arrivals;
      } in
      let runs =
        blocks-ended call fd before _
          (on_start-waits fd before _ t refl
            (get_command-waits (waiting w) stored rest call.arrivals t plain fits d))
          refl in
      handle_data-interface call fd (took_in (waiting w) stored) (with_part fd w stored s) unlisted
        refl
        (serve-run call fd as_interface (took_in (waiting w) stored) (with_part fd w stored s) _
          refl runs)

  parts-taken :
      (parts : List (Call × Bytes)) (calls : List Call) (fd : ℕ) (w : Worker F) (s : System F)
      (stored : Bytes)
      → Without newline (joined parts)
      → length stored + length (joined parts) ≤ command_buf_size
      → find_worker_pos fd s.workers ≡ none
      → InParts parts
      → handle_all (calls_of parts ++ calls) fd (with_part fd w stored s)
        ≡ handle_all calls fd (with_part fd w (stored ++ joined parts) s)
  parts-taken [] calls fd w s stored plain fits unlisted come =
      ap (λ (h : Bytes). handle_all calls fd (with_part fd w h s)) (sym (append-nil stored))
  parts-taken ((call, part) ∷ parts) calls fd w s stored plain fits unlisted ((t, d), come) =
      let sizes = length-append part (joined parts) in
      let more = length-append stored part in
      let first =
        part-taken call fd w s stored part t (Without-front newline part (joined parts) plain)
          (omega (arith, fits, sizes)) unlisted d in
      then_ok (λ (r : System F × List Arrival). handle_all (calls_of parts ++ calls) fd r.0) first
      ∙ parts-taken parts calls fd w s (stored ++ part)
          (Without-rest newline part (joined parts) plain) (omega (arith, fits, sizes, more))
          unlisted come
      ∙ ap (λ (h : Bytes). handle_all calls fd (with_part fd w h s))
          (append_assoc stored part (joined parts))

  module _ (parts : List (Call × Bytes)) (call : Call) (fd d : ℕ) (w : Worker F) (c : Command)
      (name file : Bytes) (s : System F) (dest : ℕ) (workers : List (Worker F)) (tasks : List Task)
      (scheduled : schedule (new_task w name) s.workers s.task_list
        ≡ (pos dest, workers, tasks)) where
    -- An upload whose header comes with any number of events, each of which but the last ends where the
    -- socket would block, is handled as if it had come with one: the calls of `handle_data` take the
    -- header in part by part, and the last of them, in which the rest of the header, the size and the
    -- file come, sends the worker that `schedule` finds the header, the size and the file, and nothing
    -- else is sent to anyone. The conditions are those on an upload that comes at once.
    pub handle_all-upload :
        (rest : Bytes) (t : List Arrival)
        → joined parts ++ rest ≡ header c name
        → InParts parts
        → IsRequest c name file
        → find_worker_pos fd s.workers ≡ none
        → call.fresh ≡ pos d
        → Accepts call.disk
        → Accepts call.net
        → length (put_header name) < put_buffer_size
        → Delivers
            ((rest ++ (newline ∷ [])) ++ (le_bytes sizeof_size (length file) ++ file))
            call.arrivals
            t
        → (after : System F) × (v : Worker F) × (handle_all
              (calls_of parts ++ (call ∷ []))
              fd
              (with_interface fd w s)
            ≡ ok after)
          × (after.sent ≡ s.sent ++ ((pos dest, put_message name file) ∷ []))
          × (after.workers ≡ workers)
          × (after.task_list ≡ tasks)
          × (after.interface ≡ some (ready v))
          × (v.worker_fd ≡ w.worker_fd)
          × (after.interface_fd ≡ pos fd)
          × (after.files name ≡ some file)
    handle_all-upload rest t whole come is unlisted fresh disk net fits delivers =
        let plain = subst (Without newline) (sym whole) is.plain in
        let sizes : length (joined parts) + length rest ≡ length (header c name) =
          sym (length-append (joined parts) rest) ∙ ap length whole in
        let (after, v, last, sent, booked, queue, back, same_fd, own, stored) =
          upload_rest call fd d w c name file s dest workers tasks scheduled (joined parts) rest t
            whole is unlisted fresh disk net fits delivers in
        (
          after,
          v,
          parts-taken parts (call ∷ []) fd w s [] (Without-front newline (joined parts) rest plain)
                (omega (arith, is.short, sizes)) unlisted come
              ∙ then_ok (λ (r : System F × List Arrival). ok r.0) last,
          sent,
          booked,
          queue,
          back,
          same_fd,
          own,
          stored,
        )
