-- ===== src/Master/Recovery/Single.antt =====
-- `reschedule` on a worker with one task.
use pi_296_cluster.Prelude.{
  ℕ, ◌<◌, ◌≡◌, refl, ap, ◌∙◌, sym, false, some, List, [], ◌∷◌, ◌++◌, pos, length, get_elem?, set,
  ok,
}
use pi_296_cluster.Kernel.Accepting.{Accepts}
use pi_296_cluster.Master.{Worker, Task}
use pi_296_cluster.Master.Floats.{Double}
use pi_296_cluster.Master.Scheduler.{schedule}
use pi_296_cluster.Master.Scheduler.Booking.{str_eq_refl}
use pi_296_cluster.Master.Output.{put_header, put_buffer_size}
use pi_296_cluster.Master.Output.Everything.{put_message}
use pi_296_cluster.Master.System.{System}
use pi_296_cluster.Master.System.Storing.{emptied, open_temp-emptied, put_file-emptied}
use pi_296_cluster.Master.Recovery.{Round, erase_each, reschedule_task, reschedule_loop, reschedule}
use pi_296_cluster.Master.Recovery.Several.{schedule-dead}

module _ {F : Double} where
  module _ (garbage : Worker F) (env : ℕ → Round) (j d dest : ℕ) (dead : Worker F) (t : Task)
      (s : System F) (workers : List (Worker F)) (tasks : List Task)
      (scheduled : schedule t s.workers s.task_list ≡ (pos dest, workers, tasks)) where
    abbrev moved : System F
    moved = record s { workers = workers; task_list = tasks }

    abbrev resent : System F
    resent = record (emptied d t.file_name moved) {
      sent = s.sent ++ ((pos dest, put_message t.file_name []) ∷ []);
    }

    reschedule_task-once :
        get_elem? s.workers j ≡ some dead
        → get_elem? dead.tasks 0 ≡ some t
        → (env 0).fresh ≡ pos d
        → Accepts (env 0).net
        → length (put_header t.file_name) < put_buffer_size
        → reschedule_task garbage (env 0) j 0 s ≡ ok resent
    unfolding reschedule_task
    reschedule_task-once at first fresh net fits =
        let temp_worker : Worker F = record garbage {
          temp_file_name = some t.file_name;
          temp_fd = pos d;
        } in
        rw at (
          rw first (
            rw scheduled (
              rw (
                fresh,
                open_temp-emptied d t.file_name moved,
                put_file-emptied dest d (env 0).net t.file_name temp_worker moved refl refl fits
                    net,
              ))))

    -- When a worker that is not alive has one task, `schedule` finds another worker for it and no write
    -- is refused, `reschedule` books the task there and takes it from the dead worker, and sends the
    -- other worker the header, the size and no byte of the file: the file under the task's name is empty
    -- from then on, whatever was in it.
    pub reschedule-single :
        get_elem? s.workers j ≡ some dead
        → dead.alive ≡ false
        → dead.tasks ≡ t ∷ []
        → (env 0).fresh ≡ pos d
        → Accepts (env 0).net
        → length (put_header t.file_name) < put_buffer_size
        → (after : System F) × (reschedule garbage env j s ≡ ok after)
          × (after.sent ≡ s.sent ++ ((pos dest, put_message t.file_name []) ∷ []))
          × (after.workers ≡ set workers j (record dead { tasks = [] }))
          × (after.task_list ≡ tasks)
          × (after.files t.file_name ≡ some [])
    unfolding reschedule reschedule_loop erase_each
    reschedule-single at gone one fresh net fits =
        let first : get_elem? dead.tasks 0 ≡ some t = rw one refl in
        let kept : get_elem? workers j ≡ some dead =
          ap (λ r. get_elem? r.1 j) (sym scheduled)
          ∙ schedule-dead t s.workers s.task_list j dead at gone in
        (
          record resent { workers = set workers j (record dead { tasks = [] }) },
          rw at
              (rw one (rw (reschedule_task-once at first fresh net fits) (rw kept (rw one refl)))),
          refl,
          refl,
          refl,
          rw (str_eq_refl t.file_name),
        )
