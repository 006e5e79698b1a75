-- ===== src/Worker/Pool/Turns.antt =====
-- What is known of a turn that a thread of the pool has taken.
use pi_296_cluster.Prelude.{
  ℕ, zero, suc, ◌+◌, ◌≡◌, refl, Bool, true, false, Option, none, some, some-injective, List, [],
  ◌∷◌, ◌++◌, if◌then◌else◌, get_elem?, erase_idx, subst,
}
use pi_296_cluster.Worker.Pool.{Job, Pool, Act, pull, finish, send, take_task, take_output, step}

-- The state after the program of the task `t`, the one at `i`, has ended.
abbrev pub after_program : ℕ → Job → Pool → Pool
after_program i t p = record p {
  busy = erase_idx p.busy i;
  idle = p.idle + 1;
  finished = p.finished ++ (t ∷ []);
}

module _ (P : Act → Pool → Type 0) (p : Pool)
    (on_pull : (t : Job) (rest : List Job) (waiting : ℕ)
      → p.queued ≡ t ∷ rest
      → p.idle ≡ suc waiting
      → P pull (take_task t rest waiting p))
    (on_finish : (i : ℕ) (t : Job)
      → get_elem? p.busy i ≡ some t
      → P (finish i) (after_program i t p))
    (on_send : (accepted : Bool) (t : Job) (rest : List Job)
      → p.sending ≡ true
      → p.finished ≡ t ∷ rest
      → P (send accepted) (take_output accepted t rest p)) where
  pulled :
      (queued : List Job) (idle : ℕ) (q : Pool)
      → p.queued ≡ queued
      → p.idle ≡ idle
      → elim queued as (λ _. Option Pool) [
        | [] ↦ none
        | t ∷ rest ↦ elim idle [ zero ↦ none | suc waiting ↦ some (take_task t rest waiting p) ]
      ]
        ≡ some q
      → P pull q
  pulled [] idle q l n e = cc
  pulled (t ∷ rest) zero q l n e = cc
  pulled (t ∷ rest) (suc waiting) q l n e =
      subst (P pull) (some-injective (take_task t rest waiting p) q e) (on_pull t rest waiting l n)

  ended :
      (i : ℕ) (o : Option Job) (q : Pool)
      → get_elem? p.busy i ≡ o
      → elim o as (λ _. Option Pool) [ none ↦ none | some t ↦ some (after_program i t p) ] ≡ some q
      → P (finish i) q
  ended i none q at e = cc
  ended i (some t) q at e =
      subst (P (finish i)) (some-injective (after_program i t p) q e) (on_finish i t at)

  given :
      (accepted sending : Bool) (finished : List Job) (q : Pool)
      → p.sending ≡ sending
      → p.finished ≡ finished
      → (if sending
          then elim finished as (λ _. Option Pool) [
            | [] ↦ none
            | t ∷ rest ↦ some (take_output accepted t rest p)
          ]
          else none)
        ≡ some q
      → P (send accepted) q
  given accepted false finished q on l e = cc
  given accepted true [] q on l e = cc
  given accepted true (t ∷ rest) q on l e =
      subst (P (send accepted)) (some-injective (take_output accepted t rest p) q e)
        (on_send accepted t rest on l)

  pub step-cases : (a : Act) (q : Pool) → step a p ≡ some q → P a q
  unfolding step
  step-cases pull q e = pulled p.queued p.idle q refl refl e
  step-cases (finish i) q e = ended i (get_elem? p.busy i) q refl e
  step-cases (send accepted) q e = given accepted p.sending p.finished q refl refl e
