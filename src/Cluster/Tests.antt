-- ===== src/Cluster/Tests.antt =====
-- A job on a cluster of one worker.
use pi_296_cluster.Prelude.{refl, true, false, none, List, [], ◌∷◌, arith, pos, minus_one}
use pi_296_cluster.Kernel.{Bytes, Arrival, took, write_eagain, write_eintr}
use pi_296_cluster.Master.{Worker, Task}
use pi_296_cluster.Master.Samples.{whole_numbers, machine, arrive, arrive-Delivers}
use pi_296_cluster.Master.System.{System}
use pi_296_cluster.Master.Events.Receiving.{waiting}
use pi_296_cluster.Interface.Printing.{Arrives}
use pi_296_cluster.Cluster.{Journey}
use pi_296_cluster.Cluster.Roundtrip.{IsSmooth}

abbrev name : Bytes
name = b'a' ∷ []

abbrev file : Bytes
file = b'h' ∷ b'i' ∷ []

-- The program says what it has read, after a letter of its own.
abbrev journey : Journey
journey = record {
  program = λ bs. b'o' ∷ bs;
  carry = λ h bs. arrive bs [];
  interface_net = took 2 ∷ write_eintr ∷ [];
  up = record {
    arrivals = [];
    fresh = pos 9;
    disk = took 1 ∷ [];
    net = took 3 ∷ write_eagain ∷ [];
  };
  worker_net = took 5 ∷ [];
  down = record { arrivals = []; fresh = pos 9; disk = []; net = write_eintr ∷ took 20 ∷ [] };
}

arrive-Arrives : (bs : Bytes) (t : List Arrival) → Arrives bs (arrive bs t) t
arrive-Arrives [] t = refl
arrive-Arrives (b ∷ bs) t = (refl, arrive-Arrives bs t)

abbrev journey-IsSmooth : IsSmooth journey
journey-IsSmooth = record {
  next = λ h. [];
  delivered = λ h bs. arrive-Delivers bs [];
  arrived = λ bs. arrive-Arrives bs [];
  interface_writes = (omega arith, tt);
  worker_writes = (omega arith, tt);
  up_fd = 9;
  up_opened = refl;
  up_disk = (omega arith, tt);
  up_net = (omega arith, tt);
  down_fd = 9;
  down_opened = refl;
  down_disk = tt;
  down_net = (omega arith, tt);
}

abbrev task : Task
task = record { file_name = name; orphan = false; fd_owner = minus_one }

-- The interface has descriptor 4, the worker 5, which has sent a heartbeat.
abbrev client : Worker whole_numbers
client = machine 4 true 0 []

abbrev node : List Task → Worker whole_numbers
node tasks = record (machine 5 true 0 tasks) { last_beat_received = 60 }

abbrev master : System whole_numbers
master = record {
  workers = waiting (node []) ∷ [];
  interface = none;
  interface_fd = minus_one;
  task_list = [];
  files = λ n. none;
  opened = λ d. none;
  sent = [];
  closed = [];
}
