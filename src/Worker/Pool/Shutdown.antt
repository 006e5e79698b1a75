-- ===== src/Worker/Pool/Shutdown.antt =====
-- How the worker ends: every run of the threads `tasking` and `sending` is finite, and they come
-- to their end.
use pi_296_cluster.Prelude.{
  ℕ, zero, suc, ◌+◌, ◌≤◌, ◌≡◌, ◌⊎◌, inl, inr, refl, ap, ap₂, sym, Bool, true, false, Bool-cases,
  if◌then◌else◌, Option, none, some, some-injective, List, [], ◌∷◌, ◌++◌, arith, length, get_elem?,
  erase_idx, replicate,
}
use pi_296_cluster.Worker.{num_thread}
use pi_296_cluster.Worker.Pool.{
  Job, end_task, Pool, Act, pull, finish, send, take_task, take_output, step, run, close_socket,
  push_ends, shutdown,
}
use pi_296_cluster.Worker.Pool.Quitting.{HasEnd, Quits, HasEnd-last, step-Quits}
use pi_296_cluster.Worker.Pool.Draining.{
  AllJobs, IsDraining, Draining-threads, threads, work, step-Turned,
}

-- Every thread that runs programs has ended, and no task is left.
abbrev pub Drained : Pool → Type 0
Drained p = (threads p ≡ 0) × (p.queued ≡ [])

-- The thread `sending` has ended too.
abbrev pub Joined : Pool → Type 0
Joined p = Drained p × (p.sending ≡ false)

-- Some thread can do something.
abbrev pub CanGoOn : Pool → Type 0
CanGoOn p = (a : Act) × (q : Pool) × (step a p ≡ some q)

shutdown-IsDraining :
    (p : Pool) → AllJobs p.queued → threads p ≡ num_thread → IsDraining (shutdown p)
unfolding shutdown push_ends close_socket
shutdown-IsDraining p plain all =
    Draining-threads (p.queued ++ replicate num_thread end_task) num_thread (threads p) (sym all)
      (record { jobs = p.queued; plain = plain; ends = refl; last = inr refl })

shutdown-Quits : (p : Pool) → Quits (shutdown p)
unfolding shutdown push_ends close_socket
shutdown-Quits p = inr (HasEnd-last p.finished)

run-Turned :
    (acts : List Act) (p q : Pool)
    → IsDraining p
    → Quits p
    → run acts p ≡ some q
    → IsDraining q × Quits q × (length acts + work q ≤ work p)
unfolding run
run-Turned [] p q d h e =
    let same : p ≡ q = some-injective p q e in rw (sym same) (d, h, omega arith)
run-Turned (a ∷ acts) p q d h e = next (step a p) refl e (λ r. run-Turned acts r q)
  where
    next :
        (o : Option Pool)
        → step a p ≡ o
        → elim o as (λ _. Option Pool) [ none ↦ none | some r ↦ run acts r ] ≡ some q
        → ((r : Pool)
            → IsDraining r
            → Quits r
            → run acts r ≡ some q
            → IsDraining q × Quits q × (length acts + work q ≤ work r))
        → IsDraining q × Quits q × (length (a ∷ acts) + work q ≤ work p)
    next none was e rest = cc
    next (some r) was e rest =
        let (d', less) = step-Turned a p r d was in
        let (d'', h'', more) = rest r d' (step-Quits a p r h was) e in
        (d'', h'', omega (arith, less, more))

module _ (p : Pool) where
  pull-runs :
      (t : Job) (rest : List Job) (waiting : ℕ)
      → p.queued ≡ t ∷ rest
      → p.idle ≡ suc waiting
      → CanGoOn p
  unfolding step
  pull-runs t rest waiting e i = (
    pull,
    take_task t rest waiting p,
    ap₂
        (λ (l : List Job) (n : ℕ). elim l as (λ _. Option Pool) [
          | [] ↦ none
          | t ∷ rest ↦ elim n [ zero ↦ none | suc waiting ↦ some (take_task t rest waiting p) ]
        ])
        e i,
  )

  finish-runs : (t : Job) (others : List Job) → p.busy ≡ t ∷ others → CanGoOn p
  unfolding step
  finish-runs t others e = (
    finish 0,
    record p { busy = erase_idx p.busy 0; idle = p.idle + 1; finished = p.finished ++ (t ∷ []) },
    ap
        (λ (l : List Job). elim (get_elem? l 0) as (λ _. Option Pool) [
          | none ↦ none
          | some t ↦ some (record p {
            busy = erase_idx p.busy 0;
            idle = p.idle + 1;
            finished = p.finished ++ (t ∷ []);
          })
        ])
        e,
  )

  waiting-runs :
      (jobs : List Job) (k waiting : ℕ)
      → p.queued ≡ jobs ++ replicate (suc k) end_task
      → p.idle ≡ suc waiting
      → CanGoOn p
  unfolding replicate
  waiting-runs [] k waiting e i = pull-runs end_task (replicate k end_task) waiting e i
  waiting-runs (t ∷ jobs) k waiting e i =
      pull-runs t (jobs ++ replicate (suc k) end_task) waiting e i

  drained :
      (jobs queued : List Job)
      → queued ≡ jobs ++ replicate 0 end_task
      → (jobs ≡ []) ⊎ (0 ≡ num_thread)
      → queued ≡ []
  unfolding replicate
  drained [] queued e last = e
  drained (t ∷ jobs) queued e (inl empty) = cc
  drained (t ∷ jobs) queued e (inr all) = absurd (omega (arith, all))

  IsDraining-progress : IsDraining p → Drained p ⊎ CanGoOn p
  IsDraining-progress d = who p.busy p.idle refl refl
    where
      who : (busy : List Job) (idle : ℕ) → p.busy ≡ busy → p.idle ≡ idle → Drained p ⊎ CanGoOn p
      who (t ∷ others) idle b i = inr (finish-runs t others b)
      who [] (suc waiting) b i =
          let sum : threads p ≡ suc waiting = omega (arith, i, ap length b) in
          let d' = Draining-threads p.queued (threads p) (suc waiting) sum d in
          inr (waiting-runs d'.jobs waiting waiting d'.ends i)
      who [] zero b i =
          let sum : threads p ≡ 0 = omega (arith, i, ap length b) in
          let d' = Draining-threads p.queued (threads p) 0 sum d in
          inl (sum, drained d'.jobs p.queued d'.ends d'.last)

  send-runs : (t : Job) (rest : List Job) → p.sending ≡ true → p.finished ≡ t ∷ rest → CanGoOn p
  unfolding step
  send-runs t rest on l = (
    send true,
    take_output true t rest p,
    ap₂
        (λ (c : Bool) (l : List Job).
          if c
          then elim l as (λ _. Option Pool) [
            | [] ↦ none
            | t ∷ rest ↦ some (take_output true t rest p)
          ]
          else none)
        on l,
  )

  ended :
      (finished : List Job)
      → p.finished ≡ finished
      → HasEnd finished
      → (p.sending ≡ false) ⊎ CanGoOn p
  ended [] l h = absurd h
  ended (t ∷ rest) l h = elim (Bool-cases p.sending) [
    | inl on ↦ inr (send-runs t rest on l)
    | inr off ↦ inl off
  ]

  quits : Quits p → (p.sending ≡ false) ⊎ CanGoOn p
  quits (inl off) = inl off
  quits (inr h) = ended p.finished refl h

  pub Quits-progress : IsDraining p → Quits p → Joined p ⊎ CanGoOn p
  Quits-progress d h = elim (IsDraining-progress d) [
    | inl drained ↦ elim (quits h) [ inl off ↦ inl (drained, off) | inr more ↦ inr more ]
    | inr more ↦ inr more
  ]

-- When worker_main has closed the socket and pushed its end tasks, in whatever order the threads take
-- their turns: a run has no more turns than there is work, and after any run either some thread can go
-- on, or every thread that runs programs has ended, the queue of tasks is empty, and the thread
-- `sending` has ended too. The queue held no end task before, and no thread that runs programs had
-- ended.
pub shutdown-joins :
    (acts : List Act) (p q : Pool)
    → AllJobs p.queued
    → threads p ≡ num_thread
    → run acts (shutdown p) ≡ some q
    → (length acts ≤ work (shutdown p)) × (Joined q ⊎ CanGoOn q)
shutdown-joins acts p q plain all e =
    let (d, h, less) =
      run-Turned acts (shutdown p) q (shutdown-IsDraining p plain all) (shutdown-Quits p) e in
    (omega (arith, less), Quits-progress q d h)
