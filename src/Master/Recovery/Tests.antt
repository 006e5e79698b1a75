-- ===== src/Master/Recovery/Tests.antt =====
-- A worker that has gone, with one task and with two.
use pi_296_cluster.Prelude.{
  ℕ, ◌≡◌, ◌≢◌, refl, true, false, none, some, List, [], ◌∷◌, arith, pos, minus_one, ok,
}
use pi_296_cluster.Kernel.{took}
use pi_296_cluster.Master.{Worker, Task}
use pi_296_cluster.Master.Samples.{whole_numbers, machine}
use pi_296_cluster.Master.Output.{put_header}
use pi_296_cluster.Master.Output.Everything.{put_message}
use pi_296_cluster.Master.Scheduler.{schedule}
use pi_296_cluster.Master.System.{System}
use pi_296_cluster.Master.Recovery.{Round, reschedule, detect}
use pi_296_cluster.Master.Recovery.Several.{reschedule-several}
use pi_296_cluster.Master.Recovery.Single.{reschedule-single}
use pi_296_cluster.Master.Recovery.Late.{detect-checked}

abbrev task_named : ℕ → Task
task_named b = record { file_name = b ∷ []; orphan = false; fd_owner = pos 4 }

abbrev gone : List Task → Worker whole_numbers
gone jobs = machine 5 false 0 jobs

abbrev spare : List Task → Worker whole_numbers
spare jobs = machine 6 true 0 jobs

-- The program is in the file of the master.
abbrev before : List Task → System whole_numbers
before jobs = record {
  workers = gone jobs ∷ spare [] ∷ [];
  interface = none;
  interface_fd = minus_one;
  task_list = [];
  files = λ n. some (1 ∷ 2 ∷ []);
  opened = λ d. none;
  sent = [];
  closed = [];
}

abbrev env : ℕ → Round
env i = record { fresh = pos 9; net = took 4 ∷ [] }

booked_there :
    schedule (task_named b'a') (before (task_named b'a' ∷ [])).workers []
    ≡ (pos 6, gone (task_named b'a' ∷ []) ∷ spare (task_named b'a' ∷ []) ∷ [], [])
unfolding schedule
booked_there = refl

reschedule-single_example :
    (after : System whole_numbers) × (reschedule
        (machine 0 true 0 [])
        env
        0
        (before (task_named b'a' ∷ []))
      ≡ ok after)
    × (after.sent ≡ (pos 6, put_message (b'a' ∷ []) []) ∷ [])
    × (after.workers ≡ gone [] ∷ spare (task_named b'a' ∷ []) ∷ [])
    × (after.task_list ≡ [])
    × (after.files (b'a' ∷ []) ≡ some [])
unfolding put_header
reschedule-single_example =
    reschedule-single (machine 0 true 0 []) env 0 9 6 (gone (task_named b'a' ∷ []))
      (task_named b'a') (before (task_named b'a' ∷ []))
      (gone (task_named b'a' ∷ []) ∷ spare (task_named b'a' ∷ []) ∷ []) [] booked_there refl refl
      refl refl (omega arith, tt) (omega arith)

abbrev two : List Task
two = task_named b'a' ∷ task_named b'b' ∷ []

reschedule-several_example : reschedule (machine 0 true 0 []) env 0 (before two) ≢ ok (before [])
reschedule-several_example =
    reschedule-several (machine 0 true 0 []) env 0 (gone two) (before two) (before []) refl refl
      (omega arith)

-- At time 5, a worker last heard of at 1, and one with a task last heard of at 3.
abbrev heard : ℕ → Worker whole_numbers → Worker whole_numbers
heard time w = record w { last_beat_received = time }

abbrev quiet : System whole_numbers
quiet = record (before []) {
  workers = heard 1 (machine 5 true 0 []) ∷ heard 3 (machine 6 true 0 (task_named b'a' ∷ [])) ∷ [];
}

detect-checked_example :
    detect (machine 0 true 0 []) (λ j. env) 5 quiet
    ≡ ok (record quiet {
      workers =
          heard 1 (machine 5 false 0 []) ∷ heard 3 (machine 6 true 0 (task_named b'a' ∷ [])) ∷ [];
    })
detect-checked_example =
    detect-checked (machine 0 true 0 []) (λ j. env) 5 quiet ((λ e. refl), ((λ e. cc), tt))
