-- ===== src/Worker/Pool/Quitting.antt =====
-- The thread `sending`: it has ended, or an end task is on its way to it.
use pi_296_cluster.Prelude.{
  ℕ, ◌≡◌, ◌⊎◌, inl, inr, refl, Bool, true, false, ◌&&◌, ◌||◌, not, Bool-cases, some, List, [], ◌∷◌,
  ◌++◌, subst,
}
use pi_296_cluster.Worker.Pool.{Job, end_task, is_end, Pool, Act, take_task, take_output, step}
use pi_296_cluster.Worker.Pool.Turns.{after_program, step-cases}

abbrev pub HasEnd : List Job → Type 0
HasEnd [] = ⊥
HasEnd (t ∷ ts) = (is_end t ≡ true) ⊎ HasEnd ts

abbrev pub Quits : Pool → Type 0
Quits p = (p.sending ≡ false) ⊎ HasEnd p.finished

HasEnd-append : (ts us : List Job) → HasEnd ts → HasEnd (ts ++ us)
HasEnd-append [] us h = absurd h
HasEnd-append (t ∷ ts) us (inl ends) = inl ends
HasEnd-append (t ∷ ts) us (inr h) = inr (HasEnd-append ts us h)

pub HasEnd-last : (ts : List Job) → HasEnd (ts ++ (end_task ∷ []))
HasEnd-last [] = inl refl
HasEnd-last (t ∷ ts) = inr (HasEnd-last ts)

or_false : (a b : Bool) → (a || b) ≡ false → a ≡ false
or_false true b e = e
or_false false b e = refl

take_task-Quits :
    (p : Pool) (t : Job) (rest : List Job) (waiting : ℕ)
    → Quits p
    → Quits (take_task t rest waiting p)
take_task-Quits p t rest waiting h =
    elim (Bool-cases (is_end t)) as (λ _. Quits (take_task t rest waiting p)) [
      | inl ends ↦ rw ends h
      | inr plain ↦ rw plain h
    ]

after_program-Quits : (p : Pool) (i : ℕ) (t : Job) → Quits p → Quits (after_program i t p)
after_program-Quits p i t (inl ended) = inl ended
after_program-Quits p i t (inr h) = inr (HasEnd-append p.finished (t ∷ []) h)

take_output-Quits :
    (p : Pool) (accepted : Bool) (t : Job) (rest : List Job)
    → p.finished ≡ t ∷ rest
    → Quits p
    → Quits (take_output accepted t rest p)
take_output-Quits p accepted t rest l (inl ended) =
    elim (Bool-cases (is_end t || not (accepted && p.socket_open)))
      as (λ _. Quits (take_output accepted t rest p)) [
        | inl ends ↦ rw ends (inl refl)
        | inr goes_on ↦ rw goes_on (inl ended)
      ]
take_output-Quits p accepted t rest l (inr h) =
    elim (Bool-cases (is_end t || not (accepted && p.socket_open)))
      as (λ _. Quits (take_output accepted t rest p)) [
        | inl ends ↦ rw ends (inl refl)
        | inr goes_on ↦ rw goes_on (inr (behind (subst HasEnd l h) goes_on))
      ]
  where
    behind : HasEnd (t ∷ rest) → (is_end t || not (accepted && p.socket_open)) ≡ false → HasEnd rest
    behind (inl ends) goes_on =
        let plain = or_false (is_end t) (not (accepted && p.socket_open)) goes_on in cc
    behind (inr h) goes_on = h

pub step-Quits : (a : Act) (p q : Pool) → Quits p → step a p ≡ some q → Quits q
step-Quits a p q h e =
    step-cases (λ _ r. Quits r) p (λ t rest waiting l n. take_task-Quits p t rest waiting h)
      (λ i t at. after_program-Quits p i t h)
      (λ accepted t rest on l. take_output-Quits p accepted t rest l h) a q e
