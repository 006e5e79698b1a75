-- ===== src/Worker/Pool.antt =====
-- The threads `tasking` and `sending` of the worker, and how worker_main ends them. A program that a
-- thread runs is not looked into. A queue is what it holds, in order; a turn is what one thread does
-- between two waits.
pub mod Draining
pub mod Losing
pub mod Quitting
pub mod Shutdown
mod Tests
mod Turns
use pi_296_cluster.Prelude.{
  ℕ, zero, suc, ◌+◌, ◌*◌, Bool, true, false, Option, none, some, List, [], ◌∷◌, ◌++◌, if◌then◌else◌,
  ◌||◌, ◌&&◌, not, ℤ, pos, length, get_elem?, erase_idx, replicate,
}
use pi_296_cluster.Kernel.{Bytes}
use pi_296_cluster.Worker.{num_thread}

-- `task_t`; a name that is NULL is `none`.
pub record Job : Type 0 where
  pub input_filename : Option Bytes
  pub output_filename : Option Bytes
  pub output_fd : ℤ

-- A shallow copy.
abbrev pub task_copy_constructor : Job → Job
task_copy_constructor t = record {
  input_filename = t.input_filename;
  output_filename = t.output_filename;
  output_fd = t.output_fd;
}

-- The names that are freed, before the struct.
abbrev pub task_destructor : Job → List (Option Bytes)
task_destructor t = t.input_filename ∷ t.output_filename ∷ []

-- The task that ends a thread.
abbrev pub end_task : Job
end_task = record { input_filename = none; output_filename = none; output_fd = pos 0 }

abbrev pub is_end : Job → Bool
is_end t = elim t.input_filename [ none ↦ true | some name ↦ false ]

-- `idle` threads wait for a task, and those of `busy` run a program. `sent` are the outputs of which all
-- writes got through. Nothing opens the socket again.
pub record Pool : Type 0 where
  pub queued : List Job
  pub idle : ℕ
  pub busy : List Job
  pub finished : List Job
  pub sending : Bool
  pub socket_open : Bool
  pub sent : List Job

-- `send` says whether all writes of the output get through, if the socket is open.
pub data Act : Type 0 where
  pull : Act
  finish : ℕ → Act
  send : Bool → Act

-- A thread takes a task, or ends.
abbrev pub take_task : Job → List Job → ℕ → Pool → Pool
take_task t rest waiting p =
    if is_end t
    then record p { queued = rest; idle = waiting }
    else record p { queued = rest; idle = waiting; busy = t ∷ p.busy }

-- The thread `sending` sends an output, or ends: at the end task, and after a write that failed, as
-- each write to a closed socket does.
abbrev pub take_output : Bool → Job → List Job → Pool → Pool
take_output accepted t rest p =
    if is_end t || not (accepted && p.socket_open)
    then record p { finished = rest; sending = false }
    else record p { finished = rest; sent = p.sent ++ (t ∷ []) }

-- `none` where no thread can do this.
pub step : Act → Pool → Option Pool
step pull p = elim p.queued [
  | [] ↦ none
  | t ∷ rest ↦ elim p.idle [ zero ↦ none | suc waiting ↦ some (take_task t rest waiting p) ]
]
step (finish i) p = elim (get_elem? p.busy i) [
  | none ↦ none
  | some t ↦ some (record p {
    busy = erase_idx p.busy i;
    idle = p.idle + 1;
    finished = p.finished ++ (task_copy_constructor t ∷ []);
  })
]
step (send accepted) p =
    if p.sending
    then elim p.finished [ [] ↦ none | t ∷ rest ↦ some (take_output accepted t rest p) ]
    else none

pub run : List Act → Pool → Option Pool
unfolding step
run [] p = some p
run (a ∷ acts) p = elim (step a p) [ none ↦ none | some q ↦ run acts q ]

-- What worker_main does when it has left its loop and ended the heartbeat: it closes the socket, and
-- then pushes the end tasks.
pub close_socket : Pool → Pool
close_socket p = record p { socket_open = false }

pub push_ends : Pool → Pool
unfolding replicate
push_ends p = record p {
  queued = p.queued ++ replicate num_thread (task_copy_constructor end_task);
  finished = p.finished ++ (task_copy_constructor end_task ∷ []);
}

pub shutdown : Pool → Pool
unfolding close_socket push_ends
shutdown p = push_ends (close_socket p)
