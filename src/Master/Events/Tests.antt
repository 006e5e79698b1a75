-- ===== src/Master/Events/Tests.antt =====
-- An upload from the interface, and the output of a worker.
use pi_296_cluster.Prelude.{
  ◌≡◌, refl, true, false, none, some, List, [], ◌∷◌, ◌++◌, length, arith, pos, minus_one, ok,
}
use pi_296_cluster.Text.{newline}
use pi_296_cluster.Kernel.{
  Bytes, sizeof_size, le_bytes, would_block, took, write_eagain, write_eintr,
}
use pi_296_cluster.Master.{Worker, Task, find_worker_pos, to_interface_put, to_put}
use pi_296_cluster.Master.Samples.{whole_numbers, machine, arrive, arrive-Delivers}
use pi_296_cluster.Master.Output.Everything.{put_message}
use pi_296_cluster.Master.Output.{put_header}
use pi_296_cluster.Master.Scheduler.{schedule, remove_named}
use pi_296_cluster.Master.System.{System, Call}
use pi_296_cluster.Master.Events.{handle_data}
use pi_296_cluster.Master.Events.Receiving.{request, IsRequest, waiting, ready}
use pi_296_cluster.Master.Events.Upload.{with_interface, handle_data-upload}
use pi_296_cluster.Master.Events.Resuming.{handle_all, InParts, handle_all-upload}
use pi_296_cluster.Master.Events.Result.{handle_data-result}

abbrev name : Bytes
name = b'a' ∷ []

abbrev file : Bytes
file = b'h' ∷ b'i' ∷ []

abbrev job : Task
job = record { file_name = name; orphan = false; fd_owner = minus_one }

-- The interface has descriptor 4, the worker 5, which has sent a heartbeat.
abbrev client : Worker whole_numbers
client = machine 4 true 0 []

abbrev node : List Task → Worker whole_numbers
node jobs = record (machine 5 true 0 jobs) { last_beat_received = 60 }

abbrev master : List Task → System whole_numbers
master jobs = record {
  workers = waiting (node jobs) ∷ [];
  interface = none;
  interface_fd = minus_one;
  task_list = [];
  files = λ n. none;
  opened = λ d. none;
  sent = [];
  closed = [];
}

abbrev upload : Call
upload = record {
  arrivals = arrive (request to_interface_put name file) (would_block ∷ []);
  fresh = pos 9;
  disk = took 1 ∷ [];
  net = took 3 ∷ write_eagain ∷ [];
}

upload-IsRequest : IsRequest to_interface_put name file
upload-IsRequest = record {
  plain = (
    refl,
    (
      refl,
      (
        refl,
        (
          refl,
          (
            refl,
            (refl, (refl, (refl, (refl, (refl, (refl, (refl, (refl, (refl, (refl, tt)))))))))),
          ),
        ),
      ),
    ),
  );
  no_nul = (refl, tt);
  named = omega arith;
  short = omega arith;
  some_bytes = omega arith;
  bound = omega arith;
}

scheduled : schedule job (master []).workers [] ≡ (pos 5, waiting (node (job ∷ [])) ∷ [], [])
unfolding schedule
scheduled = refl

handle_data-upload_example :
    (after : System whole_numbers) × (v : Worker whole_numbers) × (handle_data upload 4
        (with_interface 4 client (master []))
      ≡ ok (after, would_block ∷ []))
    × (after.sent ≡ (pos 5, put_message name file) ∷ [])
    × (after.workers ≡ waiting (node (job ∷ [])) ∷ [])
    × (after.task_list ≡ [])
    × (after.interface ≡ some (ready v))
    × (v.worker_fd ≡ 4)
    × (after.interface_fd ≡ pos 4)
    × (after.files name ≡ some file)
unfolding put_header find_worker_pos
handle_data-upload_example =
    handle_data-upload upload 4 9 client to_interface_put name file (master []) 5
      (waiting (node (job ∷ [])) ∷ []) [] scheduled (would_block ∷ []) upload-IsRequest refl refl
      (omega arith, tt) (omega arith, tt) (omega arith)
      (arrive-Delivers (request to_interface_put name file) (would_block ∷ []))

abbrev output : Call
output = record {
  arrivals = arrive (request to_put name file) (would_block ∷ []);
  fresh = pos 9;
  disk = [];
  net = write_eintr ∷ took 20 ∷ [];
}

output-IsRequest : IsRequest to_put name file
output-IsRequest = record {
  plain = (refl, (refl, (refl, (refl, (refl, tt)))));
  no_nul = (refl, tt);
  named = omega arith;
  short = omega arith;
  some_bytes = omega arith;
  bound = omega arith;
}

-- The worker has the task, and the interface waits for its output.
abbrev busy : System whole_numbers
busy = with_interface 4 client (master (job ∷ []))

handle_data-result_example :
    (after : System whole_numbers) × (v : Worker whole_numbers) × (handle_data output 5 busy
      ≡ ok (after, would_block ∷ []))
    × (after.sent ≡ (pos 4, put_message name file) ∷ [])
    × (after.workers ≡ ready v ∷ [])
    × (v.tasks ≡ [])
    × (v.worker_fd ≡ 5)
    × (after.interface ≡ busy.interface)
    × (after.interface_fd ≡ pos 4)
    × (after.task_list ≡ [])
    × (after.files name ≡ some file)
unfolding put_header find_worker_pos remove_named
handle_data-result_example =
    handle_data-result output 5 9 0 (node (job ∷ [])) to_put name file busy refl refl refl 4
      (would_block ∷ []) output-IsRequest refl (λ e. omega (arith, e)) refl tt (omega arith, tt)
      (omega arith) (arrive-Delivers (request to_put name file) (would_block ∷ []))

-- The header comes with three events: INTER, then FACE_, then the rest.
abbrev part_call : Bytes → Call
part_call part = record {
  arrivals = arrive part (would_block ∷ []);
  fresh = pos 9;
  disk = [];
  net = [];
}

abbrev first_part : Bytes
first_part = b'I' ∷ b'N' ∷ b'T' ∷ b'E' ∷ b'R' ∷ []

abbrev second_part : Bytes
second_part = b'F' ∷ b'A' ∷ b'C' ∷ b'E' ∷ b'_' ∷ []

abbrev last_part : Bytes
last_part = b'P' ∷ b'U' ∷ b'T' ∷ b' ' ∷ name

abbrev tail : Bytes
tail = (last_part ++ (newline ∷ [])) ++ (le_bytes sizeof_size (length file) ++ file)

abbrev last_call : Call
last_call = record upload { arrivals = arrive tail (would_block ∷ []) }

abbrev parts : List (Call × Bytes)
parts = (part_call first_part, first_part) ∷ (part_call second_part, second_part) ∷ []

come : InParts parts
come = (
  ([], arrive-Delivers first_part (would_block ∷ [])),
  (([], arrive-Delivers second_part (would_block ∷ [])), tt),
)

handle_all-upload_example :
    (after : System whole_numbers) × (v : Worker whole_numbers) × (handle_all
        (part_call first_part ∷ part_call second_part ∷ last_call ∷ [])
        4
        (with_interface 4 client (master []))
      ≡ ok after)
    × (after.sent ≡ (pos 5, put_message name file) ∷ [])
    × (after.workers ≡ waiting (node (job ∷ [])) ∷ [])
    × (after.task_list ≡ [])
    × (after.interface ≡ some (ready v))
    × (v.worker_fd ≡ 4)
    × (after.interface_fd ≡ pos 4)
    × (after.files name ≡ some file)
unfolding put_header find_worker_pos
handle_all-upload_example =
    handle_all-upload parts last_call 4 9 client to_interface_put name file (master []) 5
      (waiting (node (job ∷ [])) ∷ []) [] scheduled last_part (would_block ∷ []) refl come
      upload-IsRequest refl refl (omega arith, tt) (omega arith, tt) (omega arith)
      (arrive-Delivers tail (would_block ∷ []))
