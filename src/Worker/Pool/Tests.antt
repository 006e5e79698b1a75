-- ===== src/Worker/Pool/Tests.antt =====
-- A pool with one program that runs and one task that waits.
use pi_296_cluster.Prelude.{◌+◌, ◌≡◌, ◌≤◌, ◌⊎◌, refl, true, false, pos, replicate, some, [], ◌∷◌}
use pi_296_cluster.Kernel.{Bytes}
use pi_296_cluster.Worker.Sending.{output_filename}
use pi_296_cluster.Worker.Pool.{
  Job, Pool, end_task, pull, finish, send, run, close_socket, push_ends, shutdown,
}
use pi_296_cluster.Worker.Pool.Draining.{work}
use pi_296_cluster.Worker.Pool.Shutdown.{Joined, CanGoOn, shutdown-joins}
use pi_296_cluster.Worker.Pool.Losing.{shutdown-loses}

abbrev name : Bytes
name = b'a' ∷ b'b' ∷ []

abbrev job : Job
job = record {
  input_filename = some name;
  output_filename = some (output_filename name);
  output_fd = pos 7;
}

-- One thread runs a program, and one task waits.
abbrev pool : Pool
pool = record {
  queued = job ∷ [];
  idle = 4;
  busy = job ∷ [];
  finished = [];
  sending = true;
  socket_open = true;
  sent = [];
}

abbrev one_pull : Pool
one_pull = record (shutdown pool) {
  queued = end_task ∷ end_task ∷ end_task ∷ end_task ∷ end_task ∷ [];
  idle = 3;
  busy = job ∷ job ∷ [];
}

pulls : run (pull ∷ []) (shutdown pool) ≡ some one_pull
unfolding run shutdown close_socket push_ends replicate
pulls = refl

shutdown-joins_example : (1 ≤ work (shutdown pool)) × (Joined one_pull ⊎ CanGoOn one_pull)
shutdown-joins_example = shutdown-joins (pull ∷ []) pool one_pull (refl, tt) refl pulls

-- The program ends before the end tasks come, and its output is lost.
abbrev lost : Pool
lost = record (close_socket pool) { idle = 5; busy = []; sending = false }

loses : run (finish 0 ∷ send true ∷ []) (close_socket pool) ≡ some lost
unfolding run close_socket
loses = refl

-- The waiting task is run all the same.
abbrev run_in_vain : Pool
run_in_vain = record (push_ends lost) {
  queued = end_task ∷ end_task ∷ end_task ∷ end_task ∷ end_task ∷ [];
  idle = 4;
  busy = job ∷ [];
}

lost_started : run (pull ∷ []) (push_ends lost) ≡ some run_in_vain
unfolding run push_ends close_socket replicate
lost_started = refl

shutdown-loses_example : (run_in_vain.sent ≡ pool.sent) × (1 + 0 ≤ 1)
shutdown-loses_example =
    shutdown-loses (finish 0 ∷ send true ∷ []) (pull ∷ []) pool lost run_in_vain loses lost_started

-- While the socket is open the output gets through.
in_time :
    run (finish 0 ∷ send true ∷ []) pool
    ≡ some (record pool { idle = 5; busy = []; sent = job ∷ [] })
unfolding run
in_time = refl
