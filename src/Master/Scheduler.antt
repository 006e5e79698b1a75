-- ===== src/Master/Scheduler.antt =====
-- `schedule` and `scheduler_remove_task`.
pub mod Choice
pub mod Booking
mod Tests
use pi_296_cluster.Prelude.{
  ℕ, zero, suc, ◌+◌, Bool, true, false, ◌&&◌, Option, none, some, List, [], ◌∷◌, ◌++◌, ◌==◌,
  if◌then◌else◌, ℤ, pos, minus_one, length, set,
}
use pi_296_cluster.Kernel.{Bytes}
use pi_296_cluster.Master.{Worker, Task}
use pi_296_cluster.Master.Floats.{Double}

-- `strcmp(a, b) == 0`
abbrev pub str_eq : Bytes → Bytes → Bool
str_eq [] [] = true
str_eq [] (b ∷ bs) = false
str_eq (a ∷ more) [] = false
str_eq (a ∷ more) (b ∷ bs) = (a == b) && str_eq more bs

-- Drops the first task with that name.
unfoldable pub remove_named : Bytes → List Task → List Task
remove_named name [] = []
remove_named name (t ∷ ts) =
    let later = remove_named name ts in if str_eq t.file_name name then ts else t ∷ later

-- The first `min_load_factor`.
abbrev pub no_load : (F : Double) → F.D
no_load F = F.of_ℕ 100_000_000

module _ {F : Double} where
  -- CPU_usage * 10 + vector_size(tasks)
  abbrev pub load_factor : Worker F → F.D
  load_factor w = F.add (F.mul w.cpu_usage (F.of_ℕ 10)) (F.of_ℕ (length w.tasks))

  -- The loop of `schedule` from index `i` on: the place of `best_worker`, and that worker.
  pub best_loop : ℕ → F.D → Option (ℕ × Worker F) → List (Worker F) → Option (ℕ × Worker F)
  best_loop i min_load best [] = best
  best_loop i min_load best (w ∷ ws) =
      let better = best_loop (i + 1) (load_factor w) (some (i, w)) ws in
      let kept = best_loop (i + 1) min_load best ws in
      if w.alive && F.lt (load_factor w) min_load then better else kept

  -- The descriptor that is returned, the workers and `task_list`.
  unfoldable pub schedule : Task → List (Worker F) → List Task → ℤ × List (Worker F) × List Task
  unfolding best_loop
  schedule t workers task_list = elim (best_loop 0 (no_load F) none workers) [
    | none ↦ (minus_one, workers, task_list ++ (t ∷ []))
    | some best ↦
        let (i, w) = best in
        (pos w.worker_fd, set workers i (record w { tasks = w.tasks ++ (t ∷ []) }), task_list)
  ]

  -- The first worker with the descriptor loses its first task with the name.
  unfoldable pub scheduler_remove_task : ℕ → Bytes → List (Worker F) → List (Worker F)
  unfolding remove_named
  scheduler_remove_task worker_fd filename [] = []
  scheduler_remove_task worker_fd filename (w ∷ ws) =
      let later = scheduler_remove_task worker_fd filename ws in
      if w.worker_fd == worker_fd
      then record w { tasks = remove_named filename w.tasks } ∷ ws
      else w ∷ later
