-- ===== src/Master.antt =====
-- master.h and master.c. A worker's struct is a value: the list of workers holds it, or `interface`
-- does. A worker's `tasks` and the two lists of the master are vectors (`Vector`), here as the lists
-- that they stand for. Descriptors are integers, -1 for none. What malloc leaves is an argument.
pub mod Floats
pub mod Samples
pub mod Scheduler
pub mod Output
pub mod Parser
pub mod Heartbeat
pub mod Payload
pub mod System
pub mod Descriptors
pub mod Events
pub mod Loop
pub mod Threads
pub mod Recovery
use pi_296_cluster.Prelude.{
  ℕ, zero, suc, ◌+◌, Bool, true, false, Option, none, some, List, [], ◌∷◌, ◌==◌, if◌then◌else◌, ℤ,
  pos, minus_one, same_int, replicate, not,
}
use pi_296_cluster.Kernel.{Bytes}
use Floats.{Double}

abbrev pub command_buf_size : ℕ
command_buf_size = 1024

pub data Command : Type 0 where
  to_interface_put : Command
  to_put : Command

-- `status`
pub data Status : Type 0 where
  start need_size recieving_data forward_data forwarding_data : Status

-- DONE_SENDING, NOT_DONE_SENDING and BIG_FAILURE.
pub data Reply : Type 0 where
  done_sending not_done_sending big_failure : Reply

pub record Task : Type 0 where
  pub file_name : Bytes
  pub orphan : Bool
  pub fd_owner : ℤ

pub record Worker (F : Double) : Type 0 where
  pub worker_fd : ℕ
  pub alive : Bool
  pub ip : Bytes
  pub tasks : List Task
  pub cpu_usage : F.D
  pub last_beat_received : F.D
  pub status : Status
  pub command : Bytes
  pub command_size : ℕ
  pub to_do : Command
  pub temp_file_name : Option Bytes
  pub file_size : ℕ
  pub size_buffer_pos : ℕ
  pub temp_fd : ℤ
  pub fd_to_send_to : ℤ
  pub file_buffer_pos : ℕ

module _ {F : Double} where
  -- The new worker, and the descriptors that are closed. `temp_fd` is set to -1 at the top, before
  -- the test of it.
  pub reset_worker_for_parsing : Worker F → Worker F × List ℤ
  unfolding replicate
  reset_worker_for_parsing w =
      let cleared : Worker F = record w {
        temp_fd = minus_one;
        command = replicate command_buf_size 0;
        command_size = 0;
        size_buffer_pos = 0;
        status = start;
      } in
      (
        record cleared {
          temp_fd = minus_one;
          file_size = 0;
          temp_file_name = none;
          file_buffer_pos = 0;
          last_beat_received = F.of_ℕ 0;
        },
        if not (same_int cleared.temp_fd minus_one) then cleared.temp_fd ∷ [] else [],
      )

  -- The fields that `create_worker` does not set are those of `garbage`.
  pub create_worker : Worker F → ℕ → Bytes → Worker F
  unfolding reset_worker_for_parsing
  create_worker garbage fd ip =
      (reset_worker_for_parsing (record garbage {
        alive = true;
        tasks = [];
        worker_fd = fd;
        ip = ip;
        temp_file_name = none;
        temp_fd = minus_one;
        cpu_usage = F.neg_one;
        last_beat_received = F.of_ℕ 0;
      })).0

  -- `none` is -1. No entry of the list is NULL, so the `continue` is not reached.
  unfoldable pub find_worker_pos : ℕ → List (Worker F) → Option ℕ
  find_worker_pos fd [] = none
  find_worker_pos fd (w ∷ ws) =
      let later : Option ℕ = elim (find_worker_pos fd ws) [ none ↦ none | some i ↦ some (i + 1) ] in
      if w.worker_fd == fd then some 0 else later

  -- `strdup(NULL)` is a fault; `none` stands for it.
  pub make_task : Worker F → Option Task
  make_task w = elim w.temp_file_name [
    | none ↦ none
    | some name ↦ some (record { file_name = name; orphan = false; fd_owner = w.fd_to_send_to })
  ]
