-- ===== src/Master/Events/Separate.antt =====
-- The other blocks of `handle_data`, and the whole, keep the descriptors apart.
use pi_296_cluster.Prelude.{
  ℕ, ◌≡◌, refl, ap, sym, inl, inr, true, false, Bool-cases, Option, none, some, List, pos, same_int,
  get_elem?, Outcome, ok, fault, ◌>>=◌, Ensures, Ensures-bind, Ensures-if,
}
use pi_296_cluster.Kernel.{Bytes, Arrival}
use pi_296_cluster.Master.{
  Reply, forward_data, forwarding_data, Worker, Task, find_worker_pos, make_task,
  reset_worker_for_parsing,
}
use pi_296_cluster.Master.Floats.{Double}
use pi_296_cluster.Master.Scheduler.{schedule, scheduler_remove_task}
use pi_296_cluster.Master.System.{System, Call, put_file}
use pi_296_cluster.Master.System.Owner.{SameFds, put_file-fds}
use pi_296_cluster.Master.Descriptors.{
  find_fd, worker_fds, at_fd, find_worker_pos-fds, worker_fds-schedule,
  worker_fds-scheduler_remove_task,
}
use pi_296_cluster.Master.Events.{
  Place, in_list, as_interface, Turn, same_status, put_back, look_up, on_start, on_need_size,
  on_recieving, forward_task, forward_output, on_forward, on_forwarding, then_block, blocks, serve,
  handle_data,
}
use pi_296_cluster.Master.Events.Reading.{
  Holds, TurnHolds, IsSeparate, Holds-same, on_start-Holds, on_need_size-Holds, on_recieving-Holds,
  forward-Holds, put_back-fds,
}

module _ {F : Double} where
  put_back-interface :
      (place : Place) (w : Worker F) (s : System F)
      → (put_back place w s).interface_fd ≡ s.interface_fd
  put_back-interface (in_list i) w s = refl
  put_back-interface as_interface w s = refl

  forward_task-Holds :
      (fd : ℕ) (t : Turn F) → TurnHolds fd t → Ensures (TurnHolds fd) (forward_task t)
  unfolding forward_task
  forward_task-Holds fd t h = made (make_task t.curr)
    where
      s : System F
      s = put_back t.place t.curr t.system

      made :
          (o : Option Task)
          → Ensures (TurnHolds fd) (elim o [
            | none ↦ fault
            | some new_task ↦
                let (fd, workers, task_list) = schedule new_task s.workers s.task_list in
                let s' : System F = record s { workers = workers; task_list = task_list } in
                let w = look_up t.place t.curr s' in
                ok (record t {
                  curr = record w { fd_to_send_to = fd; status = forwarding_data };
                  system = s';
                })
          ])
      made none = tt
      made (some new_task) =
          let r = schedule new_task s.workers s.task_list in
          forward-Holds fd t.place t.curr t.system (record s { workers = r.1; task_list = r.2 }) h
            (worker_fds-schedule new_task s.workers s.task_list)
            (put_back-interface t.place t.curr t.system)

  forward_output-Holds :
      (fd : ℕ) (t : Turn F) → TurnHolds fd t → Ensures (TurnHolds fd) (forward_output t)
  unfolding forward_output
  forward_output-Holds fd t h = named t.curr.temp_file_name
    where
      s : System F
      s = put_back t.place t.curr t.system

      named :
          (o : Option Bytes)
          → Ensures (TurnHolds fd) (elim o [
            | none ↦ fault
            | some name ↦
                let s' : System F = record s {
                  workers = scheduler_remove_task t.curr.worker_fd name s.workers;
                } in
                let w = look_up t.place t.curr s' in
                ok (record t {
                  curr = record w { fd_to_send_to = s.interface_fd; status = forwarding_data };
                  system = s';
                })
          ])
      named none = tt
      named (some name) =
          forward-Holds fd t.place t.curr t.system
            (record s { workers = scheduler_remove_task t.curr.worker_fd name s.workers }) h
            (worker_fds-scheduler_remove_task t.curr.worker_fd name s.workers)
            (put_back-interface t.place t.curr t.system)

  on_forward-Holds :
      (fd : ℕ) (t : Turn F) → TurnHolds fd t → Ensures (TurnHolds fd) (on_forward fd t)
  unfolding on_forward
  on_forward-Holds fd t h = elim (Bool-cases (same_status t.curr.status forward_data)) [
    | inl turn ↦ rw turn (elim (Bool-cases (same_int (pos fd) t.system.interface_fd)) [
      | inl asked ↦ rw asked (forward_task-Holds fd t h)
      | inr output ↦ rw output (
          Ensures-if (TurnHolds fd) t.curr.alive (forward_output t)
            (ok (record t { going = false })) (forward_output-Holds fd t h) h)
    ])
    | inr other ↦ rw other h
  ]

  on_forwarding-Holds :
      (call : Call) (fd : ℕ) (t : Turn F)
      → TurnHolds fd t
      → Ensures (TurnHolds fd) (on_forwarding call t)
  unfolding on_forwarding reset_worker_for_parsing
  on_forwarding-Holds call fd t h = elim (Bool-cases (same_status t.curr.status forwarding_data)) [
    | inl turn ↦ rw turn (
        Ensures-bind (λ (r : Reply × System F). SameFds t.system r.1) (TurnHolds fd)
          (put_file t.curr.fd_to_send_to call.net t.curr t.system) _
          (put_file-fds t.curr.fd_to_send_to call.net t.curr t.system)
          (λ (reply, s) (ws, i).
            Holds-same fd t.place t.curr t.curr t.system s refl (ap worker_fds ws) i h))
    | inr other ↦ rw other h
  ]

  then_block-Holds :
      (fd : ℕ) (f : Turn F → Outcome (Turn F))
      → ((t : Turn F) → TurnHolds fd t → Ensures (TurnHolds fd) (f t))
      → (t : Turn F) → TurnHolds fd t
      → Ensures (TurnHolds fd) (then_block f t)
  then_block-Holds fd f keeps t h = Ensures-if (TurnHolds fd) t.going (f t) (ok t) (keeps t h) h

  blocks-Holds :
      (call : Call) (fd : ℕ) (t : Turn F)
      → TurnHolds fd t
      → Ensures (TurnHolds fd) (blocks call fd t)
  unfolding blocks
  blocks-Holds call fd t h =
      let P = TurnHolds fd in
      Ensures-bind P P (on_start fd t) _ (on_start-Holds fd t h) (λ t h.
        Ensures-bind P P (then_block on_need_size t) _
          (then_block-Holds fd on_need_size (on_need_size-Holds fd) t h)
          (λ t h.
            Ensures-bind P P (then_block (on_recieving call) t) _
              (then_block-Holds fd (on_recieving call) (on_recieving-Holds call fd) t h)
              (λ t h.
                Ensures-bind P P (then_block (on_forward fd) t) _
                  (then_block-Holds fd (on_forward fd) (on_forward-Holds fd) t h)
                  (λ t h.
                    then_block-Holds fd (on_forwarding call) (on_forwarding-Holds call fd) t h))))

  -- The master that a call leaves.
  abbrev pub Left : System F × List Arrival → Type 0
  Left (s, left) = IsSeparate s

  serve-Separate :
      (call : Call) (fd : ℕ) (place : Place) (w : Worker F) (s : System F)
      → Holds fd place w s
      → Ensures Left (serve call fd place w s)
  unfolding serve
  serve-Separate call fd place w s h =
      Ensures-if Left w.alive (blocks call fd start_turn >>= end) (ok (s, call.arrivals))
        (Ensures-bind (TurnHolds fd) Left (blocks call fd start_turn) end
          (blocks-Holds call fd start_turn h) ended)
        h.0
    where
      start_turn : Turn F
      start_turn = record {
        going = true;
        curr = w;
        place = place;
        system = s;
        left = call.arrivals;
      }

      end : Turn F → Outcome (System F × List Arrival)
      end t = ok (put_back t.place t.curr t.system, t.left)

      ended : (t : Turn F) → TurnHolds fd t → Ensures Left (end t)
      ended t h =
          let back = put_back t.place t.curr t.system in
          let same = put_back-fds fd t.place t.curr t.system h.1 in
          let kept = put_back-interface t.place t.curr t.system in
          (Holds-same fd t.place t.curr t.curr t.system back refl same kept h).0

  pub handle_data-Ensures :
      (call : Call) (fd : ℕ) (s : System F) → IsSeparate s → Ensures Left (handle_data call fd s)
  unfolding handle_data
  handle_data-Ensures call fd s h =
      found (find_worker_pos fd s.workers) (find_worker_pos-fds fd s.workers)
    where
      fds : List ℕ
      fds = worker_fds s.workers

      known :
          (o : Option (Worker F))
          → find_fd fd fds ≡ none
          → Ensures Left
              (elim o [ none ↦ ok (s, call.arrivals) | some w ↦ serve call fd as_interface w s ])
      known none e = h
      known (some w) e = serve-Separate call fd as_interface w s (h, e)

      listed :
          (i : ℕ) (o : Option (Worker F))
          → get_elem? s.workers i ≡ o
          → find_fd fd fds ≡ some i
          → Ensures Left (elim o [ none ↦ fault | some w ↦ serve call fd (in_list i) w s ])
      listed i none at e = tt
      listed i (some w) at e =
          serve-Separate call fd (in_list i) w s (h, (e, at_fd s.workers i fd w e at))

      found :
          (r : Option ℕ)
          → r ≡ find_fd fd fds
          → Ensures Left (elim r [
            | none ↦ elim s.interface [
              | none ↦ ok (s, call.arrivals)
              | some w ↦ serve call fd as_interface w s
            ]
            | some i ↦ elim (get_elem? s.workers i) [
              | none ↦ fault
              | some w ↦ serve call fd (in_list i) w s
            ]
          ])
      found none e = known s.interface (sym e)
      found (some i) e = listed i (get_elem? s.workers i) refl (sym e)
