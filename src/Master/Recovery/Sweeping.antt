-- ===== src/Master/Recovery/Sweeping.antt =====
-- A sweep of `detect_heart_failure`: the descriptors it leaves alone, and what it does when no late
-- worker has a task.
use pi_296_cluster.Prelude.{
  ℕ, zero, suc, ◌+◌, ◌≡◌, refl, ap, ◌∙◌, false, Option, none, some, length, get_elem?, set, ok,
  ◌>>=◌, within, Ensures, Ensures-any, Ensures-bind, Ensures-if, Ensures-weaken, if◌then◌else◌,
}
use pi_296_cluster.Master.{Reply, Worker, Task}
use pi_296_cluster.Master.Floats.{Double}
use pi_296_cluster.Master.Scheduler.{schedule}
use pi_296_cluster.Master.Descriptors.{worker_fds, worker_fds-set, worker_fds-schedule}
use pi_296_cluster.Master.System.{System, open_temp, put_file}
use pi_296_cluster.Master.System.Owner.{SameFds, open_temp-fds, put_file-fds}
use pi_296_cluster.Master.Recovery.{
  Round, erase_each, reschedule_task, reschedule_loop, reschedule, is_late, sweep, detect,
}

module _ {F : Double} where
  -- The second state has the descriptors of the first.
  abbrev pub Alike : System F → System F → Type 0
  Alike s s' = (worker_fds s'.workers ≡ worker_fds s.workers) × (s'.interface_fd ≡ s.interface_fd)

  Alike-trans : (s t u : System F) → Alike s t → Alike t u → Alike s u
  Alike-trans s t u (w, i) (w', i') = (w' ∙ w, i' ∙ i)

  reschedule_task-Alike :
      (garbage : Worker F) (env : Round) (j i : ℕ) (s : System F)
      → Ensures (Alike s) (reschedule_task garbage env j i s)
  unfolding reschedule_task
  reschedule_task-Alike garbage env j i s =
      Ensures-bind (λ w. Unit {0}) (Alike s) (within (get_elem? s.workers j)) _
        (Ensures-any (within (get_elem? s.workers j)))
        (λ w u.
          Ensures-bind (λ t. Unit {0}) (Alike s) (within (get_elem? w.tasks i)) _
            (Ensures-any (within (get_elem? w.tasks i))) (λ t u. sent t))
    where
      sent :
          (t : Task)
          → let r = schedule t s.workers s.task_list in
            let temp_worker : Worker F = record garbage {
              temp_file_name = some t.file_name;
              temp_fd = env.fresh;
            } in
            let s' =
              open_temp env.fresh t.file_name (record s { workers = r.1; task_list = r.2 }) in
            Ensures (Alike s) (put_file r.0 env.net temp_worker s' >>= λ (reply, after). ok after)
      sent t =
          let r = schedule t s.workers s.task_list in
          let temp_worker : Worker F = record garbage {
            temp_file_name = some t.file_name;
            temp_fd = env.fresh;
          } in
          let s1 : System F = record s { workers = r.1; task_list = r.2 } in
          let s' = open_temp env.fresh t.file_name s1 in
          let (kept, own) = open_temp-fds env.fresh t.file_name s1 in
          Ensures-bind (λ (r : Reply × System F). SameFds s' r.1) (Alike s)
            (put_file r.0 env.net temp_worker s') _ (put_file-fds r.0 env.net temp_worker s')
            (λ (reply, after) (ws, n).
              (ap worker_fds (ws ∙ kept) ∙ worker_fds-schedule t s.workers s.task_list, n ∙ own))

  reschedule_loop-Alike :
      (garbage : Worker F) (env : ℕ → Round) (j rounds i : ℕ) (s : System F)
      → Ensures (Alike s) (reschedule_loop garbage env j rounds i s)
  unfolding reschedule_loop
  reschedule_loop-Alike garbage env j zero i s = (refl, refl)
  reschedule_loop-Alike garbage env j (suc rounds) i s =
      Ensures-bind (Alike s) (Alike s) (reschedule_task garbage (env i) j i s) _
        (reschedule_task-Alike garbage (env i) j i s)
        (λ u same.
          Ensures-weaken (Alike u) (Alike s) (reschedule_loop garbage env j rounds (i + 1) u)
            (λ v after. Alike-trans s u v same after)
            (reschedule_loop-Alike garbage env j rounds (i + 1) u))

  reschedule-Alike :
      (garbage : Worker F) (env : ℕ → Round) (j : ℕ) (s : System F)
      → Ensures (Alike s) (reschedule garbage env j s)
  unfolding reschedule
  reschedule-Alike garbage env j s = start (get_elem? s.workers j)
    where
      emptied :
          (size : ℕ) (u : System F)
          → Alike s u
          → (o : Option (Worker F)) → get_elem? u.workers j ≡ o
          → Ensures (Alike s) (do
            dead ← within o
            tasks ← erase_each size 0 dead.tasks
            ok (record u { workers = set u.workers j (record dead { tasks = tasks }) }))
      emptied size u same none at = tt
      emptied size u same (some dead) at =
          Ensures-bind (λ ts. Unit {0}) (Alike s) (erase_each size 0 dead.tasks) _
            (Ensures-any (erase_each size 0 dead.tasks))
            (λ tasks k. (
              worker_fds-set u.workers j dead (record dead { tasks = tasks }) at refl ∙ same.0,
              same.1,
            ))

      start :
          (o : Option (Worker F))
          → Ensures (Alike s) (do
            dead ← within o
            let size = length dead.tasks
            u ← reschedule_loop garbage env j size 0 s
            dead ← within (get_elem? u.workers j)
            tasks ← erase_each size 0 dead.tasks
            ok (record u { workers = set u.workers j (record dead { tasks = tasks }) }))
      start none = tt
      start (some dead) =
          Ensures-bind (Alike s) (Alike s) (reschedule_loop garbage env j (length dead.tasks) 0 s) _
            (reschedule_loop-Alike garbage env j (length dead.tasks) 0 s)
            (λ u same. emptied (length dead.tasks) u same (get_elem? u.workers j) refl)

  sweep-Alike :
      (garbage : Worker F) (env : ℕ → ℕ → Round) (now : F.D) (rounds j : ℕ) (s : System F)
      → Ensures (Alike s) (sweep garbage env now rounds j s)
  unfolding sweep
  sweep-Alike garbage env now zero j s = (refl, refl)
  sweep-Alike garbage env now (suc rounds) j s = from (get_elem? s.workers j) refl (λ u same.
      Ensures-weaken (Alike u) (Alike s) (sweep garbage env now rounds (j + 1) u)
        (λ v after. Alike-trans s u v same after) (sweep-Alike garbage env now rounds (j + 1) u))
    where
      from :
          (o : Option (Worker F))
          → get_elem? s.workers j ≡ o
          → ((u : System F)
              → Alike s u
              → Ensures (Alike s) (sweep garbage env now rounds (j + 1) u))
          → Ensures (Alike s) (do
            w ← within o
            u ←
                if is_late now w
                then reschedule garbage
                    (env j)
                    j
                    (record s { workers = set s.workers j (record w { alive = false }) })
                else ok s
            sweep garbage env now rounds (j + 1) u)
      from none at later = tt
      from (some w) at later =
          let dead : System F = record s {
            workers = set s.workers j (record w { alive = false });
          } in
          let marked : Alike s dead =
            (worker_fds-set s.workers j w (record w { alive = false }) at refl, refl) in
          Ensures-bind (Alike s) (Alike s)
            (if is_late now w then reschedule garbage (env j) j dead else ok s) _
            (Ensures-if (Alike s) (is_late now w) (reschedule garbage (env j) j dead) (ok s)
              (Ensures-weaken (Alike dead) (Alike s) (reschedule garbage (env j) j dead)
                (λ v after. Alike-trans s dead v marked after)
                (reschedule-Alike garbage (env j) j dead))
              (refl, refl))
            later

  pub detect-Alike :
      (garbage : Worker F) (env : ℕ → ℕ → Round) (now : F.D) (s : System F)
      → Ensures (Alike s) (detect garbage env now s)
  unfolding detect
  detect-Alike garbage env now s = sweep-Alike garbage env now (length s.workers) 0 s
