-- ===== src/Master/Events.antt =====
-- `handle_data`: what the master does when epoll reports data on a socket. The parts of its body
-- are the five blocks that test `status`, in their order. The worker `curr` is held apart from its
-- place in the master's variables, and put back where they are looked at.
pub mod Blocks
pub mod Receiving
pub mod Upload
pub mod Resuming
pub mod Result
pub mod Reading
pub mod Separate
mod Tests
use pi_296_cluster.Prelude.{
  ℕ, zero, suc, ◌+◌, Bool, true, false, not, ◌&&◌, Option, none, some, List, [], ◌∷◌, ◌++◌, ◌==◌,
  if◌then◌else◌, ℤ, pos, minus_one, same_int, length, get_elem?, set, erase_idx, Outcome, ok, fault,
  ◌>>=◌,
}
use pi_296_cluster.Kernel.{Bytes, Arrival}
use pi_296_cluster.Master.{
  Command, to_interface_put, to_put, Status, start, need_size, recieving_data, forward_data,
  forwarding_data, Reply, done_sending, not_done_sending, big_failure, Worker, find_worker_pos,
  make_task, reset_worker_for_parsing,
}
use pi_296_cluster.Master.Floats.{Double}
use pi_296_cluster.Master.Scheduler.{schedule, scheduler_remove_task}
use pi_296_cluster.Master.Parser.{get_command}
use pi_296_cluster.Master.Payload.{get_size}
use pi_296_cluster.Master.System.{System, Call, get_binary_data, put_file}

-- Where `curr` points to.
pub data Place : Type 0 where
  in_list : ℕ → Place
  as_interface : Place

-- `going` until a return statement is reached.
pub record Turn (F : Double) : Type 0 where
  pub going : Bool
  pub curr : Worker F
  pub place : Place
  pub system : System F
  pub left : List Arrival

abbrev pub same_status : Status → Status → Bool
same_status start start = true
same_status need_size need_size = true
same_status recieving_data recieving_data = true
same_status forward_data forward_data = true
same_status forwarding_data forwarding_data = true
same_status _ _ = false

abbrev pub is_interface_put : Command → Bool
is_interface_put to_interface_put = true
is_interface_put to_put = false

module _ {F : Double} where
  abbrev pub put_back : Place → Worker F → System F → System F
  put_back (in_list i) w s = record s { workers = set s.workers i w }
  put_back as_interface w s = record s { interface = some w }

  abbrev pub look_up : Place → Worker F → System F → Worker F
  look_up (in_list i) w s = elim (get_elem? s.workers i) [ none ↦ w | some v ↦ v ]
  look_up as_interface w s = w

  -- A worker whose header is INTERFACE_PUT becomes the interface, if there is none. Erasing at -1 does
  -- nothing to an empty list.
  pub adopt : ℕ → Turn F → Outcome (Turn F)
  adopt fd t =
      let s = t.system in
      if is_interface_put t.curr.to_do && same_int s.interface_fd minus_one
      then elim (find_worker_pos fd s.workers) [
        | none ↦ elim s.workers [
          | [] ↦ ok (record t {
            place = as_interface;
            system = record s {
              interface_fd = pos t.curr.worker_fd;
              interface = some t.curr;
              workers = [];
            };
          })
          | w ∷ ws ↦ fault
        ]
        | some i ↦ ok (record t {
          place = as_interface;
          system = record s {
            interface_fd = pos t.curr.worker_fd;
            interface = some t.curr;
            workers = erase_idx s.workers i;
          };
        })
      ]
      else ok t

  -- The interface has gone, or else the worker stays in the list, not alive.
  pub header_lost : ℕ → Turn F → Turn F
  header_lost fd t =
      let s = t.system in
      let dead : Turn F = record t { curr = record t.curr { alive = false } } in
      if same_int (pos fd) s.interface_fd
      then record dead {
        going = false;
        system = record s { closed = s.closed ++ (s.interface_fd ∷ []); interface_fd = minus_one };
      }
      else dead

  pub on_start : ℕ → Turn F → Outcome (Turn F)
  unfolding adopt header_lost
  on_start fd t =
      if same_status t.curr.status start
      then (do
        (reply, w, left) ← get_command t.curr t.left
        elim reply [
          | not_done_sending ↦ ok (record t { going = false; curr = w; left = left })
          | done_sending ↦
              adopt fd (record t { curr = record w { status = need_size }; left = left })
          | big_failure ↦ ok (header_lost fd (record t { curr = w; left = left }))
        ])
      else ok t

  pub on_need_size : Turn F → Outcome (Turn F)
  on_need_size t =
      if same_status t.curr.status need_size
      then (do
        (reply, w, left) ← get_size t.curr t.left
        let u = record t { curr = w; left = left }
        elim reply [
          | not_done_sending ↦ ok (record u { going = false })
          | done_sending ↦ ok (record u {
            curr = record w {
              alive = if w.file_size == 0 then false else w.alive;
              status = recieving_data;
            };
          })
          | big_failure ↦ ok u
        ])
      else ok t

  pub on_recieving : Call → Turn F → Outcome (Turn F)
  on_recieving call t =
      if same_status t.curr.status recieving_data
      then (do
        (reply, w, s, left) ← get_binary_data call t.left t.curr t.system
        let u = record t { curr = w; system = s; left = left }
        elim reply [
          | not_done_sending ↦ ok (record u { going = false })
          | done_sending ↦ ok (record u { curr = record w { status = forward_data } })
          | big_failure ↦ ok u
        ])
      else ok t

  -- A request of the interface: the task is scheduled.
  pub forward_task : Turn F → Outcome (Turn F)
  forward_task t = elim (make_task t.curr) [
    | none ↦ fault
    | some new_task ↦
        let s = put_back t.place t.curr t.system in
        let (fd, workers, task_list) = schedule new_task s.workers s.task_list in
        let s' : System F = record s { workers = workers; task_list = task_list } in
        let w = look_up t.place t.curr s' in
        ok (record t {
          curr = record w { fd_to_send_to = fd; status = forwarding_data };
          system = s';
        })
  ]

  -- The output of a worker: the task is removed.
  pub forward_output : Turn F → Outcome (Turn F)
  forward_output t = elim t.curr.temp_file_name [
    | none ↦ fault
    | some name ↦
        let s = put_back t.place t.curr t.system in
        let s' : System F = record s {
          workers = scheduler_remove_task t.curr.worker_fd name s.workers;
        } in
        let w = look_up t.place t.curr s' in
        ok (record t {
          curr = record w { fd_to_send_to = s.interface_fd; status = forwarding_data };
          system = s';
        })
  ]

  pub on_forward : ℕ → Turn F → Outcome (Turn F)
  unfolding forward_task forward_output
  on_forward fd t =
      if same_status t.curr.status forward_data
      then if same_int (pos fd) t.system.interface_fd
        then forward_task t
        else if t.curr.alive
        then forward_output t
        else ok (record t { going = false })
      else ok t

  pub on_forwarding : Call → Turn F → Outcome (Turn F)
  on_forwarding call t =
      if same_status t.curr.status forwarding_data
      then (do
        (reply, s) ← put_file t.curr.fd_to_send_to call.net t.curr t.system
        let (w, closes) = reset_worker_for_parsing t.curr
        ok (record t {
          curr = record w { status = start };
          system = record s { closed = s.closed ++ closes };
        }))
      else ok t

  -- A block after a return is not reached.
  abbrev pub then_block : (Turn F → Outcome (Turn F)) → Turn F → Outcome (Turn F)
  then_block f t = if t.going then f t else ok t

  pub blocks : Call → ℕ → Turn F → Outcome (Turn F)
  unfolding on_start on_need_size on_recieving on_forward on_forwarding
  blocks call fd t = do
    t ← on_start fd t
    t ← then_block on_need_size t
    t ← then_block (on_recieving call) t
    t ← then_block (on_forward fd) t
    then_block (on_forwarding call) t

  -- The master after the call, and what is still to arrive on the socket of `curr`.
  pub serve : Call → ℕ → Place → Worker F → System F → Outcome (System F × List Arrival)
  unfolding blocks
  serve call fd place w s =
      if w.alive
      then (do
        t ←
            blocks call fd
              (record { going = true; curr = w; place = place; system = s; left = call.arrivals })
        ok (put_back t.place t.curr t.system, t.left))
      else ok (s, call.arrivals)

  pub handle_data : Call → ℕ → System F → Outcome (System F × List Arrival)
  unfolding serve
  handle_data call fd s = elim (find_worker_pos fd s.workers) [
    | none ↦ elim s.interface [
      | none ↦ ok (s, call.arrivals)
      | some w ↦ serve call fd as_interface w s
    ]
    | some i ↦ elim (get_elem? s.workers i) [
      | none ↦ fault
      | some w ↦ serve call fd (in_list i) w s
    ]
  ]
