-- ===== src/Master/Events/Result.antt =====
-- The output of a worker: it is on its way to the interface when `handle_data` returns.
use pi_296_cluster.Prelude.{
  ℕ, ◌<◌, ◌≡◌, ◌≢◌, refl, ap, ◌∙◌, true, false, some, List, [], ◌∷◌, ◌++◌, ==_of_ne, pos, minus_one,
  same_int, length, get_elem?, set, set-set, get_elem?-set_same, replicate, ok, ◌>>=◌,
}
use pi_296_cluster.Kernel.{Bytes, Arrival}
use pi_296_cluster.Kernel.Accepting.{Accepts}
use pi_296_cluster.Kernel.Delivery.{Delivers}
use pi_296_cluster.Master.{
  Command, forwarding_data, done_sending, Worker, find_worker_pos, reset_worker_for_parsing,
}
use pi_296_cluster.Master.Floats.{Double}
use pi_296_cluster.Master.Scheduler.{remove_named, scheduler_remove_task}
use pi_296_cluster.Master.Scheduler.Booking.{str_eq_refl, scheduler_remove_task-set}
use pi_296_cluster.Master.Output.{put_header, put_buffer_size}
use pi_296_cluster.Master.Output.Everything.{put_message}
use pi_296_cluster.Master.System.{System, Call}
use pi_296_cluster.Master.System.Storing.{with_file, put_file-everything}
use pi_296_cluster.Master.Events.{
  in_list, Turn, look_up, forward_output, on_forwarding, then_block, handle_data,
}
use pi_296_cluster.Master.Events.Blocks.{
  adopt_none, on_forward-output, on_forwarding-done, serve-run, handle_data-listed,
}
use pi_296_cluster.Master.Events.Receiving.{
  request, header, IsRequest, waiting, ready, headed, filled, blocks-request,
}

module _ {F : Double} where
  module _ (call : Call) (fd d i : ℕ) (w : Worker F) (c : Command) (name file : Bytes)
      (s : System F) (listed : find_worker_pos fd s.workers ≡ some i)
      (here : get_elem? s.workers i ≡ some (waiting w)) (own : w.worker_fd ≡ fd) where
    -- The worker without the task.
    abbrev freed : Worker F
    freed = record (filled w c name d) { tasks = remove_named name w.tasks }

    abbrev returning : ℕ → Worker F
    returning to = record freed { fd_to_send_to = pos to; status = forwarding_data }

    abbrev freed_system : System F
    freed_system = record s { workers = set s.workers i freed }

    -- The turn of a worker at this place.
    abbrev turn : Worker F → System F → List Arrival → Turn F
    turn v s t = record { going = true; curr = v; place = in_list i; system = s; left = t }

    removed :
        scheduler_remove_task w.worker_fd name (set s.workers i (filled w c name d))
        ≡ set s.workers i freed
    removed =
        ap (λ n. scheduler_remove_task n name (set s.workers i (filled w c name d))) own
        ∙ scheduler_remove_task-set fd name (filled w c name d) i s.workers listed own

    forward_output-removes :
        (to : ℕ) (t : List Arrival)
        → s.interface_fd ≡ pos to
        → forward_output (turn (filled w c name d) (with_file d name file s) t)
          ≡ ok (turn (returning to) (with_file d name file freed_system) t)
    unfolding forward_output
    forward_output-removes to t e =
        rw removed (rw (get_elem?-set_same s.workers i (waiting w) freed here, e, look_up))

    abbrev returned_system : ℕ → System F
    returned_system to = record (with_file d name file freed_system) {
      sent = s.sent ++ ((pos to, put_message name file) ∷ []);
    }

    forwarding_block :
        (to : ℕ) (t : List Arrival)
        → length (put_header name) < put_buffer_size
        → Accepts call.net
        → on_forwarding call (turn (returning to) (with_file d name file freed_system) t)
          ≡ ok (
              turn
                (ready (returning to))
                (record (returned_system to) { closed = s.closed ++ [] })
                t)
    unfolding reset_worker_for_parsing replicate
    forwarding_block to t fits net =
        on_forwarding-done (turn (returning to) (with_file d name file freed_system) t) call
          done_sending (returned_system to) refl
          (put_file-everything to d call.net name file (returning to) freed_system refl refl fits
            net)

    -- When the whole output of a task arrives from a live worker between two requests, however it is cut up and interrupted, while
    -- there is an interface, `handle_data` sends the interface the header, the size and the output, and
    -- nothing else to anyone; the worker at its place loses the first task with the name and is ready for
    -- the next request, no other worker changes, the output is kept under its name, and what follows is
    -- left. The output is not empty, the name has no newline and no NUL in it, the header fits its
    -- buffers, and no write is refused.
    pub handle_data-result :
        (to : ℕ) (t : List Arrival)
        → IsRequest c name file
        → s.interface_fd ≡ pos to
        → fd ≢ to
        → call.fresh ≡ pos d
        → Accepts call.disk
        → Accepts call.net
        → length (put_header name) < put_buffer_size
        → Delivers (request c name file) call.arrivals t
        → (after : System F) × (v : Worker F) × (handle_data call fd s ≡ ok (after, t))
          × (after.sent ≡ s.sent ++ ((pos to, put_message name file) ∷ []))
          × (after.workers ≡ set s.workers i (ready v))
          × (v.tasks ≡ remove_named name w.tasks)
          × (v.worker_fd ≡ fd)
          × (after.interface ≡ s.interface)
          × (after.interface_fd ≡ s.interface_fd)
          × (after.task_list ≡ s.task_list)
          × (after.files name ≡ some file)
    handle_data-result to t is present apart fresh disk net fits delivers =
        let unset : same_int s.interface_fd minus_one ≡ false =
          ap (λ n. same_int n minus_one) present in
        let other : same_int (pos fd) s.interface_fd ≡ false =
          ap (λ n. same_int (pos fd) n) present ∙ ==_of_ne fd to apart in
        let full : Turn F = turn (filled w c name d) (with_file d name file s) t in
        let last =
          ap (λ m. m >>= then_block (on_forwarding call))
            (on_forward-output full fd refl other refl ∙ forward_output-removes to t present)
          ∙ forwarding_block to t fits net in
        let runs =
          blocks-request call fd d w c name file [] (header c name) refl t is fresh disk delivers
            (in_list i) (in_list i) s s (λ u. adopt_none (turn (headed w c name) s u) fd unset)
            last in
        let back = set-set s.workers i freed (ready (returning to)) in
        (
          record (returned_system to) {
            workers = set s.workers i (ready (returning to));
            closed = s.closed ++ [];
          },
          returning to,
          handle_data-listed call fd i (waiting w) s listed here
                (serve-run call fd (in_list i) (waiting w) s _ refl runs)
              ∙ ap
                  (λ (ws : List (Worker F)).
                    ok (record (returned_system to) { workers = ws; closed = s.closed ++ [] }, t))
                  back,
          refl,
          refl,
          refl,
          own,
          refl,
          refl,
          refl,
          rw (str_eq_refl name),
        )
