-- ===== src/Master/Events/Upload.antt =====
-- A request of the interface: the program is on its way to a worker when `handle_data` returns.
use pi_296_cluster.Prelude.{
  ℕ, ◌<◌, ◌≡◌, refl, ap, ◌∙◌, true, false, none, some, List, [], ◌∷◌, ◌++◌, ==_refl, pos, same_int,
  length, replicate, ok, ◌>>=◌,
}
use pi_296_cluster.Kernel.{Bytes, Arrival, sizeof_size, le_bytes}
use pi_296_cluster.Kernel.Accepting.{Accepts}
use pi_296_cluster.Kernel.Delivery.{Delivers}
use pi_296_cluster.Master.{
  Command, forwarding_data, done_sending, Worker, Task, find_worker_pos, make_task,
  reset_worker_for_parsing,
}
use pi_296_cluster.Master.Floats.{Double}
use pi_296_cluster.Master.Scheduler.{schedule}
use pi_296_cluster.Text.{newline}
use pi_296_cluster.Master.Parser.Header.{took_in}
use pi_296_cluster.Master.Scheduler.Booking.{str_eq_refl}
use pi_296_cluster.Master.Output.{put_header, put_buffer_size}
use pi_296_cluster.Master.Output.Everything.{put_message}
use pi_296_cluster.Master.System.{System, Call}
use pi_296_cluster.Master.System.Storing.{with_file, put_file-everything}
use pi_296_cluster.Master.Events.{
  as_interface, Turn, forward_task, on_forward, on_forwarding, then_block, handle_data,
}
use pi_296_cluster.Master.Events.Blocks.{
  handle_data-interface, serve-run, adopt_none, on_forward-task, on_forwarding-done,
}
use pi_296_cluster.Master.Events.Receiving.{
  request, header, IsRequest, waiting, ready, headed, filled, blocks-request,
}

module _ {F : Double} where
  -- The task that an upload makes.
  abbrev pub new_task : Worker F → Bytes → Task
  new_task w name = record { file_name = name; orphan = false; fd_owner = w.fd_to_send_to }

  -- The master with a live interface between two requests.
  abbrev pub with_interface : ℕ → Worker F → System F → System F
  with_interface fd w s = record s { interface = some (waiting w); interface_fd = pos fd }

  -- The master with a live interface that has sent this part of a header.
  abbrev pub with_part : ℕ → Worker F → Bytes → System F → System F
  with_part fd w stored s = record s {
    interface = some (took_in (waiting w) stored);
    interface_fd = pos fd;
  }

  module _ (call : Call) (fd d : ℕ) (w : Worker F) (c : Command) (name file : Bytes) (s : System F)
      (dest : ℕ) (workers : List (Worker F)) (tasks : List Task)
      (scheduled : schedule (new_task w name) s.workers s.task_list
        ≡ (pos dest, workers, tasks)) where
    abbrev sending : Worker F
    sending = record (filled w c name d) { fd_to_send_to = pos dest; status = forwarding_data }

    abbrev scheduled_system : System F
    scheduled_system = record (with_interface fd w s) {
      interface = some (filled w c name d);
      workers = workers;
      task_list = tasks;
    }

    forward_task-schedules :
        (t : List Arrival)
        → forward_task (record {
          going = true;
          curr = filled w c name d;
          place = as_interface;
          system = with_file d name file (with_interface fd w s);
          left = t;
        })
          ≡ ok (record {
            going = true;
            curr = sending;
            place = as_interface;
            system = with_file d name file scheduled_system;
            left = t;
          })
    unfolding forward_task make_task
    forward_task-schedules t = rw scheduled

    abbrev sent_system : System F
    sent_system = record (with_file d name file scheduled_system) {
      sent = s.sent ++ ((pos dest, put_message name file) ∷ []);
    }

    forwarding_block :
        (t : List Arrival)
        → length (put_header name) < put_buffer_size
        → Accepts call.net
        → on_forwarding call (record {
          going = true;
          curr = sending;
          place = as_interface;
          system = with_file d name file scheduled_system;
          left = t;
        })
          ≡ ok (record {
            going = true;
            curr = ready sending;
            place = as_interface;
            system = record sent_system { closed = s.closed ++ [] };
            left = t;
          })
    unfolding reset_worker_for_parsing replicate
    forwarding_block t fits net =
        on_forwarding-done
          (record {
            going = true;
            curr = sending;
            place = as_interface;
            system = with_file d name file scheduled_system;
            left = t;
          })
          call done_sending sent_system refl
          (put_file-everything dest d call.net name file sending scheduled_system refl refl fits
            net)

    -- The rest of an upload, of whose header the interface's struct has taken in a part.
    pub upload_rest :
        (stored rest : Bytes) (t : List Arrival)
        → stored ++ rest ≡ header c name
        → IsRequest c name file
        → find_worker_pos fd s.workers ≡ none
        → call.fresh ≡ pos d
        → Accepts call.disk
        → Accepts call.net
        → length (put_header name) < put_buffer_size
        → Delivers
            ((rest ++ (newline ∷ [])) ++ (le_bytes sizeof_size (length file) ++ file))
            call.arrivals
            t
        → (after : System F) × (v : Worker F) × (handle_data call fd (with_part fd w stored s)
            ≡ ok (after, t))
          × (after.sent ≡ s.sent ++ ((pos dest, put_message name file) ∷ []))
          × (after.workers ≡ workers)
          × (after.task_list ≡ tasks)
          × (after.interface ≡ some (ready v))
          × (v.worker_fd ≡ w.worker_fd)
          × (after.interface_fd ≡ pos fd)
          × (after.files name ≡ some file)
    unfolding forward_task
    upload_rest stored rest t whole is unlisted fresh disk net fits delivers =
        let own : same_int (pos fd) (pos fd) ≡ true = ==_refl fd in
        let filled_turn : Turn F = record {
          going = true;
          curr = filled w c name d;
          place = as_interface;
          system = with_file d name file (with_part fd w stored s);
          left = t;
        } in
        let last : (on_forward fd filled_turn >>= then_block (on_forwarding call))
            ≡ ok (record {
              going = true;
              curr = ready sending;
              place = as_interface;
              system = record sent_system { closed = s.closed ++ [] };
              left = t;
            }) =
          ap (λ m. m >>= then_block (on_forwarding call))
            (on_forward-task filled_turn fd refl own ∙ forward_task-schedules t)
          ∙ forwarding_block t fits net in
        let runs =
          blocks-request call fd d w c name file stored rest whole t is fresh disk delivers
            as_interface as_interface (with_part fd w stored s) (with_part fd w stored s)
            (λ u.
              adopt_none
                (record {
                  going = true;
                  curr = headed w c name;
                  place = as_interface;
                  system = with_part fd w stored s;
                  left = u;
                })
                fd refl)
            last in
        let served =
          serve-run call fd as_interface (took_in (waiting w) stored) (with_part fd w stored s) _
            refl runs in
        (
          record sent_system { interface = some (ready sending); closed = s.closed ++ [] },
          sending,
          handle_data-interface call fd (took_in (waiting w) stored) (with_part fd w stored s)
              unlisted refl served,
          refl,
          refl,
          refl,
          refl,
          refl,
          refl,
          rw (str_eq_refl name),
        )

    -- When a whole upload arrives from the interface, however it is cut up and interrupted, and
    -- `schedule` finds a worker for it, `handle_data` sends that worker the header, the size and the file,
    -- and nothing else to anyone; it leaves the lists as `schedule` does, keeps the file under its name,
    -- has the interface ready for the next request, and leaves what follows. The file is not empty, the
    -- name has no newline and no NUL in it, the header fits its buffers, and no write is refused.
    pub handle_data-upload :
        (t : List Arrival)
        → IsRequest c name file
        → find_worker_pos fd s.workers ≡ none
        → call.fresh ≡ pos d
        → Accepts call.disk
        → Accepts call.net
        → length (put_header name) < put_buffer_size
        → Delivers (request c name file) call.arrivals t
        → (after : System F) × (v : Worker F) × (handle_data call fd (with_interface fd w s)
            ≡ ok (after, t))
          × (after.sent ≡ s.sent ++ ((pos dest, put_message name file) ∷ []))
          × (after.workers ≡ workers)
          × (after.task_list ≡ tasks)
          × (after.interface ≡ some (ready v))
          × (v.worker_fd ≡ w.worker_fd)
          × (after.interface_fd ≡ pos fd)
          × (after.files name ≡ some file)
    handle_data-upload t is unlisted fresh disk net fits delivers =
        upload_rest [] (header c name) t refl is unlisted fresh disk net fits delivers
