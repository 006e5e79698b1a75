-- ===== src/Master/Recovery/Several.antt =====
-- `reschedule` on a worker with two tasks or more.
use pi_296_cluster.Prelude.{
  ℕ, zero, suc, ◌+◌, ◌<◌, ◌≤◌, ◌≡◌, ◌≢◌, refl, ap, ◌∙◌, sym, inl, inr, true, false, Bool-cases,
  Option, none, some, some-injective, List, [], ◌∷◌, ◌++◌, arith, ltb, length, get_elem?, set,
  erase_idx, get_elem?-set_other, ok, fault, ◌>>=◌, within, Ensures, length-erase_idx, Ensures-any,
  Ensures-bind, ltb→lt, Ensures-ok,
}
use pi_296_cluster.Master.{Reply, Worker, Task}
use pi_296_cluster.Master.Floats.{Double}
use pi_296_cluster.Master.Scheduler.{schedule, best_loop, no_load}
use pi_296_cluster.Master.Scheduler.Choice.{Found, old, new, best_loop-Found, at_sum}
use pi_296_cluster.Master.System.{System, open_temp, put_file}
use pi_296_cluster.Master.System.Owner.{SameFds, open_temp-fds, put_file-fds}
use pi_296_cluster.Master.Recovery.{Round, erase_each, reschedule_task, reschedule_loop, reschedule}

-- The index goes up while the vector gets shorter.
erase_each-past :
    (rounds i : ℕ) (tasks : List Task)
    → 0 < rounds
    → length tasks + 2 ≤ i + (rounds + rounds)
    → erase_each rounds i tasks ≡ fault
unfolding erase_each
erase_each-past zero i tasks some_rounds long = absurd (omega (arith, some_rounds))
erase_each-past (suc r) i tasks some_rounds long = elim (Bool-cases (ltb i (length tasks))) [
  | inl inside ↦
      let at : i < length tasks = ltb→lt i (length tasks) inside in
      let shorter : length (erase_idx tasks i) + 1 ≡ length tasks = length-erase_idx tasks i at in
      rw inside (erase_each-past r (i + 1) (erase_idx tasks i) (omega arith) (omega arith))
  | inr outside ↦ rw outside refl
]

module _ {F : Double} where
  -- `schedule` picks no worker that is not alive.
  pub schedule-dead :
      (t : Task) (ws : List (Worker F)) (tl : List Task) (j : ℕ) (dead : Worker F)
      → get_elem? ws j ≡ some dead
      → dead.alive ≡ false
      → get_elem? (schedule t ws tl).1 j ≡ some dead
  unfolding schedule
  schedule-dead t ws tl j dead at gone =
      chosen (best_loop 0 (no_load F) none ws) refl (best_loop-Found 0 (no_load F) none ws)
    where
      alike : (w v : Worker F) → some w ≡ some v → w.alive ≡ true → v.alive ≡ false → ⊥
      alike w v e up gone = let same : w ≡ v = some-injective w v e in cc (ap (λ x. x.alive) same)

      chosen :
          (r : Option (ℕ × Worker F))
          → best_loop 0 (no_load F) none ws ≡ r
          → Found 0 (no_load F) none ws r
          → get_elem? (schedule t ws tl).1 j ≡ some dead
      chosen r e (old e' m) = rw (e ∙ e', schedule) at
      chosen r e (new i k w e' sum found fit n) =
          let there : get_elem? ws k ≡ some w = at_sum ws i k w sum found in
          let apart : k ≢ j = λ same. alike w dead (sym (rw same at there) ∙ at) fit.0 gone in
          rw (e ∙ e', schedule)
            (get_elem?-set_other ws k j (record w { tasks = w.tasks ++ (t ∷ []) }) apart ∙ at)

  -- The worker at a place of the list.
  abbrev Still : ℕ → Worker F → System F → Type 0
  Still j dead s = get_elem? s.workers j ≡ some dead

  reschedule_task-Still :
      (garbage : Worker F) (env : Round) (j i : ℕ) (dead : Worker F) (s : System F)
      → dead.alive ≡ false
      → Still j dead s
      → Ensures (Still j dead) (reschedule_task garbage env j i s)
  unfolding reschedule_task
  reschedule_task-Still garbage env j i dead s gone at = rw at (
      Ensures-bind (λ _. Unit {0}) (Still j dead) (within (get_elem? dead.tasks i)) _
        (Ensures-any (within (get_elem? dead.tasks i))) (λ t u. sent t))
    where
      sent :
          (t : Task)
          → let r = schedule t s.workers s.task_list in
            let temp_worker : Worker F = record garbage {
              temp_file_name = some t.file_name;
              temp_fd = env.fresh;
            } in
            let s' =
              open_temp env.fresh t.file_name (record s { workers = r.1; task_list = r.2 }) in
            Ensures
              (Still j dead)
              (put_file r.0 env.net temp_worker s' >>= λ (reply, after). ok after)
      sent t =
          let r = schedule t s.workers s.task_list in
          let temp_worker : Worker F = record garbage {
            temp_file_name = some t.file_name;
            temp_fd = env.fresh;
          } in
          let s1 : System F = record s { workers = r.1; task_list = r.2 } in
          let s' = open_temp env.fresh t.file_name s1 in
          Ensures-bind (λ (r : Reply × System F). SameFds s' r.1) (Still j dead)
            (put_file r.0 env.net temp_worker s') _ (put_file-fds r.0 env.net temp_worker s')
            (λ (reply, after) (ws, n).
              ap (λ l. get_elem? l j) (ws ∙ (open_temp-fds env.fresh t.file_name s1).0)
              ∙ schedule-dead t s.workers s.task_list j dead at gone)

  reschedule_loop-Still :
      (garbage : Worker F) (env : ℕ → Round) (j rounds i : ℕ) (dead : Worker F) (s : System F)
      → dead.alive ≡ false
      → Still j dead s
      → Ensures (Still j dead) (reschedule_loop garbage env j rounds i s)
  unfolding reschedule_loop
  reschedule_loop-Still garbage env j zero i dead s gone at = at
  reschedule_loop-Still garbage env j (suc rounds) i dead s gone at =
      Ensures-bind (Still j dead) (Still j dead) (reschedule_task garbage (env i) j i s) _
        (reschedule_task-Still garbage (env i) j i dead s gone at)
        (λ s at. reschedule_loop-Still garbage env j rounds (i + 1) dead s gone at)

  -- When a worker that is not alive has two tasks or more, `reschedule` does not return: a round of its
  -- second loop erases past the end of the vector, which has become shorter.
  pub reschedule-several :
      (garbage : Worker F) (env : ℕ → Round) (j : ℕ) (dead : Worker F) (s s' : System F)
      → get_elem? s.workers j ≡ some dead
      → dead.alive ≡ false
      → 1 < length dead.tasks
      → reschedule garbage env j s ≢ ok s'
  unfolding reschedule
  reschedule-several garbage env j dead s s' at gone many e =
      Ensures-ok (λ _. ⊥) (reschedule garbage env j s) s' e faults
    where
      size : ℕ
      size = length dead.tasks

      erased :
          (u : System F)
          → Still j dead u
          → Ensures
              (λ _. ⊥)
              (within (get_elem? u.workers j) >>= λ v. erase_each size 0 v.tasks >>= λ tasks.
                ok (record u { workers = set u.workers j (record v { tasks = tasks }) }))
      erased u at =
          rw
            (
              at,
              erase_each-past (length dead.tasks) 0 dead.tasks (omega (arith, many))
                  (omega (arith, many)),
            )
            tt

      faults : Ensures (λ _. ⊥) (reschedule garbage env j s)
      faults = rw at (
          Ensures-bind (Still j dead) (λ _. ⊥) (reschedule_loop garbage env j size 0 s) _
            (reschedule_loop-Still garbage env j size 0 dead s gone at) erased)
