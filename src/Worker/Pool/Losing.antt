-- ===== src/Worker/Pool/Losing.antt =====
-- The socket is closed before the programs that still run have ended.
use pi_296_cluster.Prelude.{
  ℕ, ◌+◌, ◌≤◌, ◌≡◌, ◌⊎◌, refl, inl, inr, Bool, true, false, ◌&&◌, ◌||◌, not, Bool-cases, Option,
  none, some, some-injective, List, [], ◌∷◌, arith, subst,
}
use pi_296_cluster.Worker.Pool.{
  Job, is_end, Pool, Act, pull, finish, send, take_task, take_output, step, run, close_socket,
  push_ends,
}
use pi_296_cluster.Worker.Pool.Turns.{after_program, step-cases}

abbrev pub sends_in : Act → ℕ
sends_in pull = 0
sends_in (finish i) = 0
sends_in (send accepted) = 1

-- The turns of the thread `sending`.
abbrev pub sends : List Act → ℕ
sends [] = 0
sends (a ∷ acts) = sends_in a + sends acts

-- The socket is closed, nothing more has been sent, and the thread has ended or has had no turn.
abbrev pub Closed : List Job → ℕ → Pool → Type 0
Closed sent n p =
    (p.socket_open ≡ false)
    × (p.sent ≡ sent)
    × ((p.sending ≡ true) × (n ≡ 0) ⊎ (p.sending ≡ false) × (n ≤ 1))

refused : (a b : Bool) → (a || not (b && false)) ≡ true
refused true b = refl
refused false true = refl
refused false false = refl

module _ (sent : List Job) (n : ℕ) (p : Pool) (h : Closed sent n p) where
  take_task-Closed :
      (t : Job) (rest : List Job) (waiting : ℕ) → Closed sent n (take_task t rest waiting p)
  take_task-Closed t rest waiting =
      elim (Bool-cases (is_end t)) as (λ _. Closed sent n (take_task t rest waiting p)) [
        | inl ends ↦ rw ends h
        | inr plain ↦ rw plain h
      ]

  take_output-Closed :
      (accepted : Bool) (t : Job) (rest : List Job)
      → p.sending ≡ true
      → Closed sent (n + 1) (take_output accepted t rest p)
  take_output-Closed accepted t rest on =
      let fails : (is_end t || not (accepted && p.socket_open)) ≡ true =
        rw h.0 (refused (is_end t) accepted) in
      rw fails (h.0, h.1, inr (refl, first h.2))
    where
      first : (p.sending ≡ true) × (n ≡ 0) ⊎ (p.sending ≡ false) × (n ≤ 1) → n + 1 ≤ 1
      first (inl (was, none_yet)) = omega (arith, none_yet)
      first (inr (ended, some_yet)) = cc

  step-Closed : (a : Act) (q : Pool) → step a p ≡ some q → Closed sent (n + sends_in a) q
  step-Closed a q e =
      step-cases (λ b r. Closed sent (n + sends_in b) r) p
        (λ t rest waiting l i.
          subst (λ k. Closed sent k (take_task t rest waiting p)) (omega arith)
            (take_task-Closed t rest waiting))
        (λ i t at. subst (λ k. Closed sent k (after_program i t p)) (omega arith) h)
        (λ accepted t rest on l. take_output-Closed accepted t rest on) a q e

run-Closed :
    (sent : List Job) (n : ℕ) (acts : List Act) (p q : Pool)
    → Closed sent n p
    → run acts p ≡ some q
    → Closed sent (n + sends acts) q
unfolding run
run-Closed sent n [] p q h e =
    subst (λ k. Closed sent k q) (omega arith) (subst (Closed sent n) (some-injective p q e) h)
run-Closed sent n (a ∷ acts) p q h e =
    next (step a p) refl e (λ r. run-Closed sent (n + sends_in a) acts r q)
  where
    next :
        (o : Option Pool)
        → step a p ≡ o
        → elim o as (λ _. Option Pool) [ none ↦ none | some r ↦ run acts r ] ≡ some q
        → ((r : Pool)
            → Closed sent (n + sends_in a) r
            → run acts r ≡ some q
            → Closed sent (n + sends_in a + sends acts) q)
        → Closed sent (n + sends (a ∷ acts)) q
    next none was e rest = cc
    next (some r) was e rest =
        subst (λ k. Closed sent k q) (omega arith) (rest r (step-Closed sent n p h a r was) e)

-- Once worker_main has closed the socket, no output gets through any more, in whatever order the threads
-- take their turns, before and after it pushes the end tasks: the outputs of the programs that still
-- run, of the tasks in the queue and of those that wait to be sent are lost. The thread `sending` takes
-- at most one more turn.
pub shutdown-loses :
    (before after : List Act) (p r q : Pool)
    → run before (close_socket p) ≡ some r
    → run after (push_ends r) ≡ some q
    → (q.sent ≡ p.sent) × (sends before + sends after ≤ 1)
unfolding close_socket push_ends
shutdown-loses before after p r q e e' =
    let start : Closed p.sent 0 (close_socket p) = (
      refl,
      refl,
      elim (Bool-cases p.sending) [ inl on ↦ inl (on, refl) | inr off ↦ inr (off, omega arith) ],
    ) in
    let middle = run-Closed p.sent 0 before (close_socket p) r start e in
    let last = run-Closed p.sent (0 + sends before) after (push_ends r) q middle e' in
    (last.1, at_most last.2)
  where
    at_most :
        (q.sending ≡ true) × (0 + sends before + sends after ≡ 0)
          ⊎ (q.sending ≡ false) × (0 + sends before + sends after ≤ 1)
        → sends before + sends after ≤ 1
    at_most (inl (on, none_yet)) = omega (arith, none_yet)
    at_most (inr (off, few)) = omega (arith, few)
