-- ===== src/Worker/Pool/Draining.antt =====
-- After the end tasks have been pushed: what holds of the queue and the threads.
use pi_296_cluster.Prelude.{
  ℕ, zero, suc, ◌+◌, ◌*◌, ◌<◌, ◌≡◌, ◌⊎◌, inl, inr, refl, ap, ◌∙◌, sym, Bool, true, false, ◌&&◌,
  ◌||◌, not, Bool-cases, Option, none, some, some-injective, List, [], ◌∷◌, ◌++◌, arith,
  if◌then◌else◌, length, length-append, get_elem?, erase_idx, length-erase_idx, replicate, subst,
}
use pi_296_cluster.Worker.{num_thread}
use pi_296_cluster.Worker.Pool.{
  Job, end_task, is_end, Pool, Act, pull, finish, send, take_task, take_output, step,
}

-- No task of the list ends a thread.
abbrev pub AllJobs : List Job → Type 0
AllJobs [] = Unit {0}
AllJobs (t ∷ ts) = (is_end t ≡ false) × AllJobs ts

-- An end task for each thread that has not ended, behind the other tasks; none of them has been taken
-- while there are others.
pub record Draining (queued : List Job) (threads : ℕ) : Type 0 where
  pub jobs : List Job
  pub plain : AllJobs jobs
  pub ends : queued ≡ jobs ++ replicate threads end_task
  pub last : (jobs ≡ []) ⊎ (threads ≡ num_thread)

abbrev pub threads : Pool → ℕ
threads p = p.idle + length p.busy

abbrev pub IsDraining : Pool → Type 0
IsDraining p = Draining p.queued (threads p)

-- What is still to be done.
abbrev pub work : Pool → ℕ
work p = 3 * length p.queued + 2 * length p.busy + length p.finished

bounded : (xs : List Job) (i : ℕ) (t : Job) → get_elem? xs i ≡ some t → i < length xs
bounded [] i t e = cc
bounded (x ∷ xs) zero t e = omega arith
bounded (x ∷ xs) (suc i) t e = omega (arith, bounded xs i t e)

replicate-suc : (k : ℕ) → replicate (suc k) end_task ≡ end_task ∷ replicate k end_task
unfolding replicate
replicate-suc k = refl

list_injective : {x y : Job} {xs ys : List Job} → x ∷ xs ≡ y ∷ ys → (x ≡ y) × (xs ≡ ys)
list_injective e = (cc, cc)

-- The head of such a queue.
pub Draining-head :
    (t : Job) (rest : List Job) (k : ℕ)
    → Draining (t ∷ rest) (suc k)
    → ((is_end t ≡ true) × Draining rest k) ⊎ ((is_end t ≡ false) × Draining rest (suc k))
Draining-head t rest k d = head d.jobs d.plain d.ends d.last
  where
    head :
        (jobs : List Job)
        → AllJobs jobs
        → t ∷ rest ≡ jobs ++ replicate (suc k) end_task
        → (jobs ≡ []) ⊎ (suc k ≡ num_thread)
        → ((is_end t ≡ true) × Draining rest k) ⊎ ((is_end t ≡ false) × Draining rest (suc k))
    head [] plain ends last =
        let (first, others) = list_injective (ends ∙ replicate-suc k) in
        inl (ap is_end first, record { jobs = []; plain = tt; ends = others; last = inl refl })
    head (u ∷ us) plain ends last =
        let (first, others) = list_injective ends in
        inr (
          ap is_end first ∙ plain.0,
          record { jobs = us; plain = plain.1; ends = others; last = later last },
        )
      where
        later : ((u ∷ us) ≡ []) ⊎ (suc k ≡ num_thread) → (us ≡ []) ⊎ (suc k ≡ num_thread)
        later (inl e) = cc
        later (inr e) = inr e

pub Draining-threads : (queued : List Job) (m n : ℕ) → m ≡ n → Draining queued m → Draining queued n
Draining-threads queued m n e d = subst (Draining queued) e d

-- What a turn leaves: the invariant, and less to do.
abbrev pub Turned : Pool → Pool → Type 0
Turned p q = IsDraining q × (work q < work p)

module _ (p q : Pool) where
  pull-Turned :
      (queued : List Job) (idle : ℕ)
      → p.queued ≡ queued
      → p.idle ≡ idle
      → IsDraining p
      → elim queued as (λ _. Option Pool) [
        | [] ↦ none
        | t ∷ rest ↦ elim idle [ zero ↦ none | suc waiting ↦ some (take_task t rest waiting p) ]
      ]
        ≡ some q
      → Turned p q
  pull-Turned [] idle e i d was = cc
  pull-Turned (t ∷ rest) zero e i d was = cc
  pull-Turned (t ∷ rest) (suc waiting) e i d was =
      let same : take_task t rest waiting p ≡ q =
        some-injective (take_task t rest waiting p) q was in
      let sum : threads p ≡ suc (waiting + length p.busy) = omega (arith, i) in
      let size : length p.queued ≡ suc (length rest) = ap length e in
      let d' : Draining (t ∷ rest) (suc (waiting + length p.busy)) =
        subst (λ l. Draining l (suc (waiting + length p.busy))) e
          (Draining-threads p.queued (threads p) (suc (waiting + length p.busy)) sum d) in
      subst (Turned p) same (elim (Draining-head t rest (waiting + length p.busy) d') [
        | inl (ends, later) ↦ taken ends later size
        | inr (plain, later) ↦ started plain later size
      ])
    where
      taken :
          is_end t ≡ true
          → Draining rest (waiting + length p.busy)
          → length p.queued ≡ suc (length rest)
          → Turned p (take_task t rest waiting p)
      taken ends later size = rw ends (later, omega (arith, size))

      started :
          is_end t ≡ false
          → Draining rest (suc (waiting + length p.busy))
          → length p.queued ≡ suc (length rest)
          → Turned p (take_task t rest waiting p)
      started plain later size =
          let more : suc (waiting + length p.busy) ≡ waiting + length (t ∷ p.busy) = omega arith in
          rw plain (
            Draining-threads rest (suc (waiting + length p.busy)) (waiting + length (t ∷ p.busy))
                more later,
            omega (arith, size),
          )

  finish-Turned :
      (i : ℕ) (o : Option Job)
      → get_elem? p.busy i ≡ o
      → IsDraining p
      → elim o as (λ _. Option Pool) [
        | none ↦ none
        | some t ↦ some (record p {
          busy = erase_idx p.busy i;
          idle = p.idle + 1;
          finished = p.finished ++ (t ∷ []);
        })
      ]
        ≡ some q
      → Turned p q
  finish-Turned i none at d was = cc
  finish-Turned i (some t) at d was =
      let shorter = length-erase_idx p.busy i (bounded p.busy i t at) in
      let longer = length-append p.finished (t ∷ []) in
      let same = some-injective _ q was in
      let sum : threads p ≡ (p.idle + 1) + length (erase_idx p.busy i) = omega (arith, shorter) in
      subst (Turned p) same (
        Draining-threads p.queued (threads p) ((p.idle + 1) + length (erase_idx p.busy i)) sum d,
        omega (arith, shorter, longer),
      )

  send-Turned :
      (accepted : Bool) (finished : List Job)
      → p.finished ≡ finished
      → IsDraining p
      → elim finished as (λ _. Option Pool) [
        | [] ↦ none
        | t ∷ rest ↦ some (take_output accepted t rest p)
      ]
        ≡ some q
      → Turned p q
  send-Turned accepted [] e d was = cc
  send-Turned accepted (t ∷ rest) e d was =
      let size : length p.finished ≡ suc (length rest) = ap length e in
      subst (Turned p) (some-injective (take_output accepted t rest p) q was)
        (elim (Bool-cases (is_end t || not (accepted && p.socket_open)))
          as (λ _. Turned p (take_output accepted t rest p)) [
            | inl ends ↦ rw ends (d, omega (arith, size))
            | inr plain ↦ rw plain (d, omega (arith, size))
          ])

pub step-Turned : (a : Act) (p q : Pool) → IsDraining p → step a p ≡ some q → Turned p q
unfolding step
step-Turned pull p q d e = pull-Turned p q p.queued p.idle refl refl d e
step-Turned (finish i) p q d e = finish-Turned p q i (get_elem? p.busy i) refl d e
step-Turned (send accepted) p q d e = elim (Bool-cases p.sending) [
  | inl on ↦ send-Turned p q accepted p.finished refl d (
      sym (
        ap
          (λ c.
            if c
            then elim p.finished as (λ _. Option Pool) [
              | [] ↦ none
              | t ∷ rest ↦ some (take_output accepted t rest p)
            ]
            else none)
          on)
      ∙ e)
  | inr off ↦ cc (
      sym (
        ap
          (λ c.
            if c
            then elim p.finished as (λ _. Option Pool) [
              | [] ↦ none
              | t ∷ rest ↦ some (take_output accepted t rest p)
            ]
            else none)
          off)
      ∙ e)
]
