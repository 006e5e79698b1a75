-- ===== src/Cluster.antt =====
-- One job through the whole cluster: interface.c, master.c and worker.c, with the bytes between them.
pub mod Hops
pub mod Roundtrip
mod Tests
use pi_296_cluster.Prelude.{
  ℕ, Bool, true, false, Option, none, some, List, [], ◌∷◌, ◌++◌, ◌==◌, if◌then◌else◌, ℤ, pos,
  same_int, Outcome, ok, fault, ◌>>=◌, within,
}
use pi_296_cluster.Kernel.{Bytes, Arrival, Answer}
use pi_296_cluster.Interface.{upload, print_output}
use pi_296_cluster.Worker.{Request, quits, exits, master_closed, bad, received, next_request}
use pi_296_cluster.Worker.Sending.{send_output}
use pi_296_cluster.Master.Floats.{Double}
use pi_296_cluster.Master.System.{System, Call}
use pi_296_cluster.Master.Events.{handle_data}

pub data Hop : Type 0 where
  to_master to_worker from_worker to_interface : Hop

-- What the environment does while the job is under way: how the bytes of a hop arrive, and the answers
-- to the system calls of each party. `program` is what running a file writes to its output.
pub record Journey : Type 0 where
  pub program : Bytes → Bytes
  pub carry : Hop → Bytes → List Arrival
  pub interface_net : List Answer
  pub up : Call
  pub worker_net : List Answer
  pub down : Call

abbrev pub last_of : {A : Type 0} → List A → Option A
last_of [] = none
last_of (x ∷ []) = some x
last_of (x ∷ y ∷ ys) = last_of (y ∷ ys)

abbrev pub for_descriptor : ℕ → ℤ × Bytes → Outcome Bytes
for_descriptor fd (to, bytes) = if same_int to (pos fd) then ok bytes else fault

abbrev pub taken_in : Request → Outcome (Bytes × Bytes)
taken_in quits = fault
taken_in exits = fault
taken_in master_closed = fault
taken_in bad = fault
taken_in (received name file) = ok (name, file)

module _ {F : Double} where
  -- What the master has sent last, if it was for the descriptor.
  abbrev pub handed : ℕ → System F → Outcome Bytes
  handed fd s = within (last_of s.sent) >>= for_descriptor fd

  -- The user gives a file under a name; the interface has descriptor `fd` at the master, and the worker
  -- `dest`. What is printed, whether the worker's thread sending
  -- goes on, and the master after it.
  pub job : Journey → ℕ → ℕ → Bytes → Bytes → System F → Outcome (Bytes × Bool × System F)
  job j fd dest name file s = do
    (asked, rest) ← upload name file j.interface_net
    (s, left) ← handle_data (record j.up { arrivals = j.carry to_master asked }) fd s
    message ← handed dest s
    (request, left) ← next_request false [] [] (j.carry to_worker message)
    (taken, program_file) ← taken_in request
    (goes_on, reply, rest) ← send_output [] taken (j.program program_file) j.worker_net
    (s, left) ← handle_data (record j.down { arrivals = j.carry from_worker reply }) dest s
    output ← handed fd s
    (b, printed, left) ← print_output 0 [] (j.carry to_interface output)
    ok (printed, goes_on, s)
