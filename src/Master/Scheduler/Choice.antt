-- ===== src/Master/Scheduler/Choice.antt =====
-- The worker that `schedule` takes: alive, and with no live worker below its load.
use pi_296_cluster.Prelude.{
  ℕ, zero, suc, ◌+◌, ◌≡◌, inl, inr, refl, ap, ◌∙◌, true, false, ◌&&◌, Option, none, some, List, [],
  ◌∷◌, ◌++◌, arith, pos, minus_one, set, get_elem?, Bool-cases, some-injective,
}
use pi_296_cluster.Master.{Worker, Task}
use pi_296_cluster.Master.Floats.{Double, lt_asymm, not_lt_mono}
use pi_296_cluster.Master.Scheduler.{load_factor, no_load, best_loop, schedule}

module _ {F : Double} where
  -- The worker could be chosen: it is alive, and its load is under the bound.
  abbrev pub Eligible : F.D → Worker F → Type 0
  Eligible bound w = (w.alive ≡ true) × (F.lt (load_factor w) bound ≡ true)

  -- No eligible worker of the list has a load under `bound`.
  abbrev pub NoneBelow : F.D → List (Worker F) → Type 0
  NoneBelow bound [] = Unit {0}
  NoneBelow bound (w ∷ ws) =
      (w.alive ≡ true → F.lt (load_factor w) bound ≡ false) × NoneBelow bound ws

  -- What the loop finds in the list, or what it was given if nothing is better.
  pub data Found (i : ℕ) (bound : F.D) (best : Option (ℕ × Worker F)) (ws : List (Worker F))
      (r : Option (ℕ × Worker F)) : Type 0 where
    old : r ≡ best → NoneBelow bound ws → Found i bound best ws r
    new :
        (j k : ℕ) (w : Worker F)
        → r ≡ some (k, w)
        → k ≡ i + j
        → get_elem? ws j ≡ some w
        → Eligible bound w
        → NoneBelow (load_factor w) ws
        → Found i bound best ws r

  not_below :
      (w : Worker F) (bound : F.D)
      → (w.alive && F.lt (load_factor w) bound) ≡ false
      → w.alive ≡ true
      → F.lt (load_factor w) bound ≡ false
  not_below w bound refused alive = ground arith

  pub best_loop-Found :
      (i : ℕ) (bound : F.D) (best : Option (ℕ × Worker F)) (ws : List (Worker F))
      → Found i bound best ws (best_loop i bound best ws)
  unfolding best_loop
  best_loop-Found i bound best [] = old refl tt
  best_loop-Found i bound best (w ∷ ws) =
      elim (Bool-cases (w.alive && F.lt (load_factor w) bound)) [
        | inl better ↦ rw better (
            improved i bound best w ws (ground arith) (ground arith)
              (best_loop-Found (i + 1) (load_factor w) (some (i, w)) ws))
        | inr refused ↦
            rw refused (kept i bound best w ws refused (best_loop-Found (i + 1) bound best ws))
      ]
    where
      improved :
          (i : ℕ) (bound : F.D) (best : Option (ℕ × Worker F)) (w : Worker F) (ws : List (Worker F))
          → w.alive ≡ true
          → F.lt (load_factor w) bound ≡ true
          → {r : Option (ℕ × Worker F)} → Found (i + 1) (load_factor w) (some (i, w)) ws r
          → Found i bound best (w ∷ ws) r
      improved i bound best w ws alive less (old e n) =
          new 0 i w e (omega arith) refl (alive, less) ((λ _. F.lt_irrefl (load_factor w)), n)
      improved i bound best w ws alive less (new j k v e at found ok n) =
          new (suc j) k v e (omega arith) found
            (ok.0, F.lt_trans (load_factor v) (load_factor w) bound ok.1 less)
            ((λ _. lt_asymm F (load_factor v) (load_factor w) ok.1), n)

      kept :
          (i : ℕ) (bound : F.D) (best : Option (ℕ × Worker F)) (w : Worker F) (ws : List (Worker F))
          → (w.alive && F.lt (load_factor w) bound) ≡ false
          → {r : Option (ℕ × Worker F)} → Found (i + 1) bound best ws r
          → Found i bound best (w ∷ ws) r
      kept i bound best w ws refused (old e n) = old e (not_below w bound refused, n)
      kept i bound best w ws refused (new j k v e at found ok n) =
          new (suc j) k v e (omega arith) found ok (
            (λ alive.
                not_lt_mono F (load_factor w) (load_factor v) bound
                  (not_below w bound refused alive) ok.1),
            n,
          )

  below_nobody :
      (ws : List (Worker F)) (j : ℕ) (w : Worker F)
      → NoneBelow (no_load F) ws
      → get_elem? ws j ≡ some w
      → Eligible (no_load F) w
      → ⊥
  below_nobody [] j w n e ok = cc
  below_nobody (v ∷ ws) zero w n e ok =
      let same : v ≡ w = some-injective v w e in cc (n.0 (rw same ok.0), ap load_factor same, ok.1)
  below_nobody (v ∷ ws) (suc j) w n e ok = below_nobody ws j w n.1 e ok

  pub at_sum :
      (ws : List (Worker F)) (j k : ℕ) (w : Worker F)
      → k ≡ 0 + j
      → get_elem? ws j ≡ some w
      → get_elem? ws k ≡ some w
  at_sum ws j k w e found = let same : k ≡ j = omega arith in rw (same, found)

  -- Without an eligible worker `schedule` returns -1, puts the task into `task_list`, and changes no
  -- worker.
  pub schedule_none :
      (t : Task) (workers : List (Worker F)) (task_list : List Task)
      → NoneBelow (no_load F) workers
      → schedule t workers task_list ≡ (minus_one, workers, task_list ++ (t ∷ []))
  unfolding schedule
  schedule_none t workers task_list n =
      rw (nobody (best_loop-Found 0 (no_load F) none workers), schedule)
    where
      nobody : {r : Option (ℕ × Worker F)} → Found 0 (no_load F) none workers r → r ≡ none
      nobody (old e m) = e
      nobody (new j k w e at found ok m) = absurd (below_nobody workers j w n found ok)

  -- With an eligible worker, which is alive and has a load under the bound, `schedule` returns the
  -- descriptor of an eligible worker than which no live worker has a lower load, and puts the task at
  -- the end of that worker's tasks; nothing else changes.
  pub schedule_best :
      (t : Task) (workers : List (Worker F)) (task_list : List Task) (j : ℕ) (v : Worker F)
      → get_elem? workers j ≡ some v
      → Eligible (no_load F) v
      → (i : ℕ) × (w : Worker F) × (get_elem? workers i ≡ some w)
        × Eligible (no_load F) w
        × NoneBelow (load_factor w) workers
        × (schedule t workers task_list ≡ (
          pos w.worker_fd,
          set workers i (record w { tasks = w.tasks ++ (t ∷ []) }),
          task_list,
        ))
  unfolding schedule
  schedule_best t workers task_list j v at ok =
      chosen (best_loop 0 (no_load F) none workers) refl
        (best_loop-Found 0 (no_load F) none workers)
    where
      chosen :
          (r : Option (ℕ × Worker F))
          → best_loop 0 (no_load F) none workers ≡ r
          → Found 0 (no_load F) none workers r
          → (i : ℕ) × (w : Worker F) × (get_elem? workers i ≡ some w)
            × Eligible (no_load F) w
            × NoneBelow (load_factor w) workers
            × (schedule t workers task_list ≡ (
              pos w.worker_fd,
              set workers i (record w { tasks = w.tasks ++ (t ∷ []) }),
              task_list,
            ))
      chosen r e (old at_none m) = absurd (below_nobody workers j v m at ok)
      chosen r e (new j k w e' at' found ok n) =
          (k, w, at_sum workers j k w at' found, ok, n, rw (e ∙ e', schedule))
