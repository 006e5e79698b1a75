-- ===== src/Master/Heartbeat/Tests.antt =====
-- The heartbeat's theorems at concrete workers, and the loop of `reschedule` at two tasks.
use pi_296_cluster.Prelude.{
  ℕ, ◌≡◌, refl, true, false, none, some, [], ◌∷◌, ◌++◌, arith, fault, pos, get_elem?, set,
}
use pi_296_cluster.Vector.{Vector}
use pi_296_cluster.Vector.Valid.{IsValid}
use pi_296_cluster.Master.{Worker, Task}
use pi_296_cluster.Master.Samples.{whole_numbers, machine}
use pi_296_cluster.Master.Scheduler.{schedule, load_factor, no_load}
use pi_296_cluster.Master.Scheduler.Choice.{NoneBelow}
use pi_296_cluster.Master.Heartbeat.{beaten, report_heartbeat, erase_all}
use pi_296_cluster.Master.Heartbeat.Erasing.{erase_all-fault}
use pi_296_cluster.Master.Heartbeat.Revival.{report_heartbeat-set, schedule-report_heartbeat}

abbrev alone : Worker whole_numbers
alone = record (machine 7 true 3 []) { ip = 1 ∷ [] }

abbrev dead : Worker whole_numbers
dead = record (machine 8 false 0 []) { ip = 2 ∷ [] }

report_heartbeat-set_example :
    report_heartbeat (2 ∷ []) 1 50 (alone ∷ dead ∷ []) ≡ alone ∷ beaten 1 50 dead ∷ []
report_heartbeat-set_example =
    report_heartbeat-set (2 ∷ []) 1 50 1 dead (alone ∷ dead ∷ []) (refl, refl) refl

abbrev job : Task
job = record { file_name = 5 ∷ []; orphan = false; fd_owner = pos 4 }

schedule-report_heartbeat_example :
    (k : ℕ) × (v : Worker whole_numbers) × (get_elem?
        (report_heartbeat (2 ∷ []) 1 50 (alone ∷ dead ∷ []))
        k
      ≡ some v)
    × (v.alive ≡ true)
    × (whole_numbers.lt (load_factor v) (no_load whole_numbers) ≡ true)
    × NoneBelow (load_factor v) (report_heartbeat (2 ∷ []) 1 50 (alone ∷ dead ∷ []))
    × (schedule job (report_heartbeat (2 ∷ []) 1 50 (alone ∷ dead ∷ [])) [] ≡ (
      pos v.worker_fd,
      set
          (report_heartbeat (2 ∷ []) 1 50 (alone ∷ dead ∷ []))
          k
          (record v { tasks = v.tasks ++ (job ∷ []) }),
      [],
    ))
schedule-report_heartbeat_example =
    schedule-report_heartbeat (2 ∷ []) 1 50 1 dead (alone ∷ dead ∷ []) job [] (refl, refl) refl refl

abbrev two_tasks : Vector ℕ
two_tasks = record {
  copy_constructor = λ x. x;
  default_constructor = none;
  array = some 7 ∷ some 8 ∷ none ∷ [];
  size = 2;
  capacity = 3;
}

two_tasks-IsValid : IsValid two_tasks
two_tasks-IsValid = omega arith

erase_all-fault_example : erase_all two_tasks ≡ fault
erase_all-fault_example = erase_all-fault two_tasks two_tasks-IsValid (omega arith)
