-- ===== src/Master/Recovery.antt =====
-- `reschedule`, `detect_heart_failure`, `handleOrphans` and `checkOnNodes`: what the master does about
-- workers that have gone. What open returns and the answers to the writes are given for each round.
pub mod Several
pub mod Single
pub mod Sweeping
pub mod Late
mod Tests
use pi_296_cluster.Prelude.{
  ℕ, zero, suc, ◌+◌, Bool, true, false, not, ◌&&◌, Option, none, some, List, [], ◌∷◌, ◌++◌, map,
  ◌==◌, ltb, if◌then◌else◌, ℤ, pos, negsuc, length, get_elem?, set, erase_idx, Outcome, ok, fault,
  ◌>>=◌, within,
}
use pi_296_cluster.Kernel.{Bytes, Answer}
use pi_296_cluster.Master.{
  Status, start, forwarding_data, Worker, Task, find_worker_pos, reset_worker_for_parsing,
}
use pi_296_cluster.Master.Floats.{Double}
use pi_296_cluster.Master.Scheduler.{schedule}
use pi_296_cluster.Master.System.{System, open_temp, put_file}

-- The environment of a round.
pub record Round : Type 0 where
  pub fresh : ℤ
  pub net : List Answer

-- `for (i = from; i < from + rounds; i++) vector_erase(tasks, i)`, on the list of the vector: past its
-- end vector_erase is a fault.
pub erase_each : ℕ → ℕ → List Task → Outcome (List Task)
erase_each zero i tasks = ok tasks
erase_each (suc rounds) i tasks =
    let rest = erase_each rounds (i + 1) (erase_idx tasks i) in
    if ltb i (length tasks) then rest else fault

abbrev pub orphaned : Task → Task
orphaned t = record t { orphan = true }

module _ {F : Double} where
  -- A round of the first loop of `reschedule`: the task at `i` of the worker at `j`. The struct that
  -- `do_put` is given is fresh from malloc, which leaves `garbage`, but for two fields.
  pub reschedule_task : Worker F → Round → ℕ → ℕ → System F → Outcome (System F)
  reschedule_task garbage env j i s = do
    dead ← within (get_elem? s.workers j)
    t ← within (get_elem? dead.tasks i)
    let (fd, workers, task_list) = schedule t s.workers s.task_list
    let temp_worker : Worker F = record garbage {
      temp_file_name = some t.file_name;
      temp_fd = env.fresh;
    }
    let s' = open_temp env.fresh t.file_name (record s { workers = workers; task_list = task_list })
    (reply, after) ← put_file fd env.net temp_worker s'
    ok after

  pub reschedule_loop : Worker F → (ℕ → Round) → ℕ → ℕ → ℕ → System F → Outcome (System F)
  unfolding reschedule_task
  reschedule_loop garbage env j zero i s = ok s
  reschedule_loop garbage env j (suc rounds) i s = do
    s ← reschedule_task garbage (env i) j i s
    reschedule_loop garbage env j rounds (i + 1) s

  pub reschedule : Worker F → (ℕ → Round) → ℕ → System F → Outcome (System F)
  unfolding reschedule_loop erase_each
  reschedule garbage env j s = do
    dead ← within (get_elem? s.workers j)
    let size = length dead.tasks
    s ← reschedule_loop garbage env j size 0 s
    dead ← within (get_elem? s.workers j)
    tasks ← erase_each size 0 dead.tasks
    ok (record s { workers = set s.workers j (record dead { tasks = tasks }) })

  -- The last beat is known, and more than three seconds ago.
  abbrev pub is_late : F.D → Worker F → Bool
  is_late now w =
      (F.lt (F.of_ℕ 0) w.last_beat_received && w.alive)
      && F.lt (F.of_ℕ 3) (F.sub now w.last_beat_received)

  -- A sweep of `detect_heart_failure` over the workers from `j` on.
  unfoldable pub sweep : Worker F → (ℕ → ℕ → Round) → F.D → ℕ → ℕ → System F → Outcome (System F)
  unfolding reschedule
  sweep garbage env now zero j s = ok s
  sweep garbage env now (suc rounds) j s = do
    w ← within (get_elem? s.workers j)
    s ←
        if is_late now w
        then reschedule garbage (env j) j
            (record s { workers = set s.workers j (record w { alive = false }) })
        else ok s
    sweep garbage env now rounds (j + 1) s

  unfoldable pub detect : Worker F → (ℕ → ℕ → Round) → F.D → System F → Outcome (System F)
  unfolding sweep
  detect garbage env now s = sweep garbage env now (length s.workers) 0 s

  -- The worker at `i` is given the task.
  pub handle_orphans : List Answer → ℕ → Task → System F → Outcome (System F)
  handle_orphans net i t s = do
    w ← within (get_elem? s.workers i)
    let sending : Worker F = record w { status = forwarding_data }
    (reply, s) ← put_file t.fd_owner net sending s
    let (fresh, closes) = reset_worker_for_parsing sending
    ok (record s {
      workers = set s.workers i (record fresh { status = start });
      closed = s.closed ++ closes;
    })

  -- The tasks of a worker that was removed.
  pub schedule_orphans : List Task → List (Worker F) → List Task → List (Worker F) × List Task
  schedule_orphans [] workers task_list = (workers, task_list)
  schedule_orphans (t ∷ ts) workers task_list =
      let (fd, ws, tl) = schedule (orphaned t) workers task_list in schedule_orphans ts ws tl

  -- The first loop of `checkOnNodes`, from index `i - 1` down.
  pub remove_dead : ℕ → List (Worker F) → List Task → Outcome (List (Worker F) × List Task)
  unfolding schedule_orphans
  remove_dead zero workers task_list = ok (workers, task_list)
  remove_dead (suc i) workers task_list = do
    w ← within (get_elem? workers i)
    let (ws, tl) =
        if w.alive
        then (workers, task_list)
        else schedule_orphans w.tasks (erase_idx workers i) task_list
    remove_dead i ws tl

  -- The second, over the tasks that were put off.
  pub retry_tasks : (ℕ → List Answer) → ℕ → System F → Outcome (System F)
  unfolding handle_orphans
  retry_tasks net zero s = ok s
  retry_tasks net (suc i) s = do
    t ← within (get_elem? s.task_list i)
    let (fd, ws, tl) = schedule (orphaned t) s.workers (erase_idx s.task_list i)
    let s' : System F = record s { workers = ws; task_list = tl }
    s'' ← elim fd [
      | pos n ↦ (do k ← within (find_worker_pos n ws); handle_orphans (net i) k (orphaned t) s')
      | negsuc n ↦ ok s'
    ]
    retry_tasks net i s''

  pub check_on_nodes : (ℕ → List Answer) → System F → Outcome (System F)
  unfolding remove_dead retry_tasks
  check_on_nodes net s = do
    (ws, tl) ← remove_dead (length s.workers) s.workers s.task_list
    retry_tasks net (length tl) (record s { workers = ws; task_list = tl })
