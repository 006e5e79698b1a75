-- ===== src/Master/Heartbeat/Revival.antt =====
-- What a heartbeat does to the list of workers.
use pi_296_cluster.Prelude.{
  ℕ, zero, suc, ◌≡◌, refl, ap, ◌∙◌, inl, inr, true, false, Bool-cases, some, some-injective, List,
  [], ◌∷◌, ◌++◌, get_elem?, get_elem?-set_same, set, pos,
}
use pi_296_cluster.Kernel.{Bytes}
use pi_296_cluster.Master.{Worker, Task}
use pi_296_cluster.Master.Floats.{Double}
use pi_296_cluster.Master.Scheduler.{str_eq, load_factor, no_load, schedule}
use pi_296_cluster.Master.Scheduler.Choice.{NoneBelow, schedule_best}
use pi_296_cluster.Master.Descriptors.{worker_fds}
use pi_296_cluster.Master.Heartbeat.{beaten, report_heartbeat}

module _ {F : Double} where
  -- The first worker of the list with the address is the one at `i`.
  abbrev pub FirstWith : Bytes → ℕ → List (Worker F) → Type 0
  FirstWith addr i [] = ⊥
  FirstWith addr zero (w ∷ ws) = str_eq w.ip addr ≡ true
  FirstWith addr (suc i) (w ∷ ws) = (str_eq w.ip addr ≡ false) × FirstWith addr i ws

  -- A heartbeat sets the usage and the time of the first worker with its address, and makes it alive;
  -- it changes no other worker.
  pub report_heartbeat-set :
      (addr : Bytes) (usage now : F.D) (i : ℕ) (w : Worker F) (ws : List (Worker F))
      → FirstWith addr i ws
      → get_elem? ws i ≡ some w
      → report_heartbeat addr usage now ws ≡ set ws i (beaten usage now w)
  unfolding report_heartbeat
  report_heartbeat-set addr usage now i w [] first at = absurd first
  report_heartbeat-set addr usage now zero w (v ∷ ws) first at =
      rw first (ap (λ u. beaten usage now u ∷ ws) (some-injective v w at))
  report_heartbeat-set addr usage now (suc i) w (v ∷ ws) first at =
      rw first.0 (ap (◌∷◌ v) (report_heartbeat-set addr usage now i w ws first.1 at))

  -- After a heartbeat from the address of a worker whose load with the new usage is under the bound,
  -- dead as the worker may have been, `schedule` gives the task to a live worker of the list whose load
  -- is under the bound too, and no live worker has a smaller load: it returns its descriptor, the list differs
  -- from the one after the heartbeat in that worker's tasks only, and no task is put off.
  pub schedule-report_heartbeat :
      (addr : Bytes) (usage now : F.D) (i : ℕ) (w : Worker F) (ws : List (Worker F)) (t : Task)
      (task_list : List Task)
      → FirstWith addr i ws
      → get_elem? ws i ≡ some w
      → F.lt (load_factor (beaten usage now w)) (no_load F) ≡ true
      → let after = schedule t (report_heartbeat addr usage now ws) task_list in
        (k : ℕ) × (v : Worker F) × (get_elem? (report_heartbeat addr usage now ws) k ≡ some v)
        × (v.alive ≡ true)
        × (F.lt (load_factor v) (no_load F) ≡ true)
        × NoneBelow (load_factor v) (report_heartbeat addr usage now ws)
        × (after ≡ (
          pos v.worker_fd,
          set (report_heartbeat addr usage now ws) k (record v { tasks = v.tasks ++ (t ∷ []) }),
          task_list,
        ))
  schedule-report_heartbeat addr usage now i w ws t task_list first at light =
      let beat = report_heartbeat-set addr usage now i w ws first at in
      let here : get_elem? (report_heartbeat addr usage now ws) i ≡ some (beaten usage now w) =
        ap (λ l. get_elem? l i) beat ∙ get_elem?-set_same ws i w (beaten usage now w) at in
      let (k, v, found, ok, least, runs) =
        schedule_best t (report_heartbeat addr usage now ws) task_list i (beaten usage now w) here
          (refl, light) in
      (k, v, found, ok.0, ok.1, least, runs)

  -- A heartbeat changes no descriptor.
  pub worker_fds-report_heartbeat :
      (addr : Bytes) (usage now : F.D) (ws : List (Worker F))
      → worker_fds (report_heartbeat addr usage now ws) ≡ worker_fds ws
  unfolding report_heartbeat
  worker_fds-report_heartbeat addr usage now [] = refl
  worker_fds-report_heartbeat addr usage now (w ∷ ws) = elim (Bool-cases (str_eq w.ip addr)) [
    | inl own ↦ rw own refl
    | inr other ↦
        rw other (ap (λ l. w.worker_fd ∷ l) (worker_fds-report_heartbeat addr usage now ws))
  ]
