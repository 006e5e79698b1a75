-- ===== src/Master/Scheduler/Booking.antt =====
-- `schedule` books a task with a worker, and `scheduler_remove_task` removes it once the worker has
-- sent the output back.
use pi_296_cluster.Prelude.{
  ℕ, zero, suc, ◌+◌, ◌≡◌, refl, ap, sym, ◌∙◌, true, false, Bool-cases, inl, inr, Option, none, some,
  List, [], ◌∷◌, ◌++◌, ◌==◌, ==_refl, set, pos, pos_part, minus_one, get_elem?, some-injective,
  arith,
}
use pi_296_cluster.Kernel.{Bytes}
use pi_296_cluster.Master.{Worker, Task, find_worker_pos}
use pi_296_cluster.Master.Floats.{Double}
use pi_296_cluster.Master.Scheduler.{
  str_eq, remove_named, best_loop, no_load, schedule, scheduler_remove_task,
}
use pi_296_cluster.Master.Scheduler.Choice.{Found, old, new, best_loop-Found, at_sum}

-- No task of the list has the name.
abbrev pub NotNamed : Bytes → List Task → Type 0
NotNamed name [] = Unit {0}
NotNamed name (t ∷ ts) = (str_eq t.file_name name ≡ false) × NotNamed name ts

pub str_eq_refl : (s : Bytes) → str_eq s s ≡ true
str_eq_refl [] = refl
str_eq_refl (b ∷ bs) = rw (==_refl b, str_eq_refl bs)

pub remove_named-snoc :
    (t : Task) (ts : List Task)
    → NotNamed t.file_name ts
    → remove_named t.file_name (ts ++ (t ∷ [])) ≡ ts
unfolding remove_named
remove_named-snoc t [] n = rw (str_eq_refl t.file_name)
remove_named-snoc t (v ∷ ts) n = rw (n.0, remove_named-snoc t ts n.1)

module _ {F : Double} where
  -- The worker with task `t` booked.
  abbrev pub booked : Task → Worker F → Worker F
  booked t w = record w { tasks = w.tasks ++ (t ∷ []) }

  find_worker_pos-later :
      (fd : ℕ) (v : Worker F) (ws : List (Worker F)) (i : ℕ)
      → find_worker_pos fd (v ∷ ws) ≡ some (suc i)
      → ((v.worker_fd == fd) ≡ false) × (find_worker_pos fd ws ≡ some i)
  unfolding find_worker_pos
  find_worker_pos-later fd v ws i e = elim (Bool-cases (v.worker_fd == fd)) [
    | inl same ↦ cc (rw same at e, some-injective zero (suc i) (rw same at e))
    | inr other ↦ (other, here (find_worker_pos fd ws) refl (rw other at e))
  ]
    where
      here :
          (r : Option ℕ)
          → find_worker_pos fd ws ≡ r
          → elim r [ none ↦ none | some j ↦ some (j + 1) ] ≡ some (suc i)
          → find_worker_pos fd ws ≡ some i
      here none found e' = cc
      here (some j) found e' =
          let same : j + 1 ≡ suc i = some-injective (j + 1) (suc i) e' in
          let same' : j ≡ i = omega arith in found ∙ ap some same'

  -- The first worker with the descriptor is at a place; whatever it holds there loses the task.
  pub scheduler_remove_task-set :
      (fd : ℕ) (name : Bytes) (v : Worker F) (i : ℕ) (workers : List (Worker F))
      → find_worker_pos fd workers ≡ some i
      → v.worker_fd ≡ fd
      → scheduler_remove_task fd name (set workers i v)
        ≡ set workers i (record v { tasks = remove_named name v.tasks })
  unfolding scheduler_remove_task find_worker_pos
  scheduler_remove_task-set fd name v i [] first own = cc
  scheduler_remove_task-set fd name v zero (u ∷ ws) first own =
      let same : (v.worker_fd == fd) ≡ true = ground (arith, own) in rw same
  scheduler_remove_task-set fd name v (suc i) (u ∷ ws) first own =
      let (other, here) = find_worker_pos-later fd u ws i first in
      rw other (ap (◌∷◌ u) (scheduler_remove_task-set fd name v i ws here own))

  pub scheduler_remove_task-booked :
      (t : Task) (w : Worker F) (i : ℕ) (workers : List (Worker F))
      → get_elem? workers i ≡ some w
      → find_worker_pos w.worker_fd workers ≡ some i
      → NotNamed t.file_name w.tasks
      → scheduler_remove_task w.worker_fd t.file_name (set workers i (booked t w)) ≡ workers
  unfolding scheduler_remove_task find_worker_pos
  scheduler_remove_task-booked t w i [] at first fresh = cc
  scheduler_remove_task-booked t w zero (v ∷ ws) at first fresh =
      rw (==_refl w.worker_fd, remove_named-snoc t w.tasks fresh, some-injective v w at)
  scheduler_remove_task-booked t w (suc i) (v ∷ ws) at first fresh =
      let (other, here) = find_worker_pos-later w.worker_fd v ws i first in
      rw (other, scheduler_remove_task-booked t w i ws at here fresh)

  -- A worker is found by its descriptor, and has no task with the name.
  abbrev pub Fresh : Bytes → List (Worker F) → Type 0
  Fresh name workers =
      (i : ℕ) (w : Worker F)
      → get_elem? workers i ≡ some w
      → (find_worker_pos w.worker_fd workers ≡ some i) × NotNamed name w.tasks

  -- When `schedule` has returned a descriptor, `scheduler_remove_task` with that descriptor and the
  -- task's name gives the workers that there were before, if each worker is found by its descriptor
  -- and none has a task with the name.
  pub scheduler_remove_task-schedule :
      (t : Task) (workers : List (Worker F)) (task_list : List Task) (fd : ℕ)
      → Fresh t.file_name workers
      → (schedule t workers task_list).0 ≡ pos fd
      → scheduler_remove_task fd t.file_name (schedule t workers task_list).1 ≡ workers
  unfolding schedule
  scheduler_remove_task-schedule t workers task_list fd fresh returned =
      chosen (best_loop 0 (no_load F) none workers) refl
        (best_loop-Found 0 (no_load F) none workers)
    where
      chosen :
          (r : Option (ℕ × Worker F))
          → best_loop 0 (no_load F) none workers ≡ r
          → Found 0 (no_load F) none workers r
          → scheduler_remove_task fd t.file_name (schedule t workers task_list).1 ≡ workers
      chosen r e (old none_better m) =
          let run : schedule t workers task_list ≡ (minus_one, workers, task_list ++ (t ∷ [])) =
            rw (e ∙ none_better, schedule) in
          cc (sym (ap (λ p. p.0) run) ∙ returned)
      chosen r e (new j k w e' at found ok n) =
          let run : schedule t workers task_list
              ≡ (pos w.worker_fd, set workers k (booked t w), task_list) =
            rw (e ∙ e', schedule) in
          let here : get_elem? workers k ≡ some w = at_sum workers j k w at found in
          let same : w.worker_fd ≡ fd = ap pos_part (sym (ap (λ p. p.0) run) ∙ returned) in
          let restored =
            scheduler_remove_task-booked t w k workers here (fresh k w here).0 (fresh k w here).1 in
          ap (λ p. scheduler_remove_task fd t.file_name p.1) run
          ∙ ap (λ d. scheduler_remove_task d t.file_name (set workers k (booked t w))) (sym same)
          ∙ restored
