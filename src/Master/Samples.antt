-- ===== src/Master/Samples.antt =====
-- A concrete `Double` and concrete workers, for the tests.
use pi_296_cluster.Kernel.{Bytes, Arrival, byte}
use pi_296_cluster.Kernel.Delivery.{Delivers}
use pi_296_cluster.Prelude.{
  refl, ◌∷◌, ℕ, ◌+◌, ◌-◌, ◌*◌, Bool, none, List, [], arith, minus_one, ltb,
}
use pi_296_cluster.Master.{to_put, start, Task, Worker}
use pi_296_cluster.Master.Floats.{Double}

-- Numbers that are not negative and have no fraction.
abbrev pub whole_numbers : Double
whole_numbers = record {
  D = ℕ;
  of_ℕ = λ n. n;
  neg_one = 0;
  add = λ a b. a + b;
  sub = λ a b. a - b;
  mul = λ a b. a * b;
  lt = ltb;
  lt_irrefl = λ a. ground arith;
  lt_trans = λ a b c h i. ground arith;
}

abbrev pub machine : ℕ → Bool → ℕ → List Task → Worker whole_numbers
machine fd up usage jobs = record {
  worker_fd = fd;
  alive = up;
  ip = [];
  tasks = jobs;
  cpu_usage = usage;
  last_beat_received = 0;
  status = start;
  command = [];
  command_size = 0;
  to_do = to_put;
  temp_file_name = none;
  file_size = 0;
  size_buffer_pos = 0;
  temp_fd = minus_one;
  fd_to_send_to = minus_one;
  file_buffer_pos = 0;
}

-- These bytes arrive at once.
abbrev pub arrive : Bytes → List Arrival → List Arrival
arrive [] t = t
arrive (b ∷ bs) t = byte b ∷ arrive bs t

pub arrive-Delivers : (bs : Bytes) (t : List Arrival) → Delivers bs (arrive bs t) t
arrive-Delivers [] t = refl
arrive-Delivers (b ∷ bs) t = (refl, arrive-Delivers bs t)
