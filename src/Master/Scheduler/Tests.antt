-- ===== src/Master/Scheduler/Tests.antt =====
-- The scheduler's theorems at concrete workers.
use pi_296_cluster.Prelude.{
  ℕ, zero, suc, ◌≡◌, refl, true, false, some, some-injective, List, [], ◌∷◌, ◌++◌, pos, minus_one,
  set, get_elem?,
}
use pi_296_cluster.Kernel.{Bytes}
use pi_296_cluster.Master.{Task, Worker, find_worker_pos}
use pi_296_cluster.Master.Samples.{whole_numbers, machine}
use pi_296_cluster.Master.Scheduler.{load_factor, no_load, schedule, scheduler_remove_task}
use pi_296_cluster.Master.Scheduler.Choice.{Eligible, NoneBelow, schedule_none, schedule_best}
use pi_296_cluster.Master.Scheduler.Booking.{Fresh, scheduler_remove_task-schedule}

abbrev job : Bytes → Task
job name = record { file_name = name; orphan = false; fd_owner = pos 4 }

abbrev old_job : Task
old_job = job (1 ∷ [])

abbrev new_job : Task
new_job = job (2 ∷ [])

-- A busy worker, a dead one, and one with a lower load.
abbrev busy : Worker whole_numbers
busy = machine 7 true 3 []

abbrev dead : Worker whole_numbers
dead = machine 8 false 0 []

abbrev idle : Worker whole_numbers
idle = machine 9 true 0 (old_job ∷ [])

abbrev machines : List (Worker whole_numbers)
machines = busy ∷ dead ∷ idle ∷ []

takes_the_idle_one : (schedule new_job machines []).0 ≡ pos 9
unfolding schedule
takes_the_idle_one = refl

schedule_none_example :
    schedule new_job (dead ∷ []) (old_job ∷ []) ≡ (minus_one, dead ∷ [], old_job ∷ new_job ∷ [])
schedule_none_example = schedule_none new_job (dead ∷ []) (old_job ∷ []) (λ up. cc, tt)

schedule_best_example :
    (i : ℕ) × (w : Worker whole_numbers) × (get_elem? machines i ≡ some w)
    × Eligible (no_load whole_numbers) w
    × NoneBelow (load_factor w) machines
    × (schedule new_job machines []
        ≡ (pos w.worker_fd, set machines i (record w { tasks = w.tasks ++ (new_job ∷ []) }), []))
schedule_best_example = schedule_best new_job machines [] 0 busy refl (refl, refl)

machines-Fresh : Fresh (2 ∷ []) machines
unfolding find_worker_pos
machines-Fresh zero w e = rw (← some-injective busy w e) (refl, tt)
machines-Fresh (suc zero) w e = rw (← some-injective dead w e) (refl, tt)
machines-Fresh (suc (suc zero)) w e = rw (← some-injective idle w e) (refl, (refl, tt))
machines-Fresh (suc (suc (suc i))) w e = cc

scheduler_remove_task-schedule_example :
    scheduler_remove_task 9 (2 ∷ []) (schedule new_job machines []).1 ≡ machines
unfolding schedule
scheduler_remove_task-schedule_example =
    scheduler_remove_task-schedule new_job machines [] 9 machines-Fresh refl
