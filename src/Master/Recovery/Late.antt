-- ===== src/Master/Recovery/Late.antt =====
-- What a sweep of `detect_heart_failure` does when no late worker has a task.
use pi_296_cluster.Prelude.{
  ℕ, ◌+◌, ◌≡◌, refl, ap, ◌∙◌, sym, inl, inr, true, false, Bool-cases, some, List, [], ◌∷◌, ◌++◌,
  append_assoc, length, length-append, map, get_elem?, set, get_elem?-set_same, set-set, ok,
  if◌then◌else◌,
}
use pi_296_cluster.Master.{Worker}
use pi_296_cluster.Master.Floats.{Double}
use pi_296_cluster.Master.System.{System}
use pi_296_cluster.Master.Recovery.{
  Round, erase_each, reschedule_loop, reschedule, is_late, sweep, detect,
}

get_elem?-length :
    {A : Type 0} (xs : List A) (y : A) (ys : List A)
    → get_elem? (xs ++ (y ∷ ys)) (length xs) ≡ some y
get_elem?-length [] y ys = refl
get_elem?-length (x ∷ xs) y ys = get_elem?-length xs y ys

set-length :
    {A : Type 0} (xs : List A) (y z : A) (ys : List A)
    → set (xs ++ (y ∷ ys)) (length xs) z ≡ xs ++ (z ∷ ys)
set-length [] y z ys = refl
set-length (x ∷ xs) y z ys = ap (◌∷◌ x) (set-length xs y z ys)

module _ {F : Double} where
  -- No late worker has a task.
  abbrev pub Idle : F.D → List (Worker F) → Type 0
  Idle now [] = Unit {0}
  Idle now (w ∷ ws) = (is_late now w ≡ true → w.tasks ≡ []) × Idle now ws

  -- The worker after the sweep.
  abbrev pub checked : F.D → Worker F → Worker F
  checked now w = if is_late now w then record w { alive = false } else w

  reschedule-taskless :
      (garbage : Worker F) (env : ℕ → Round) (j : ℕ) (w : Worker F) (s : System F)
      → get_elem? s.workers j ≡ some w
      → w.tasks ≡ []
      → reschedule garbage env j s ≡ ok (record s { workers = set s.workers j w })
  unfolding reschedule reschedule_loop erase_each
  reschedule-taskless garbage env j w s at idle = rw at (rw idle (rw at (rw idle refl)))

  module _ (garbage : Worker F) (env : ℕ → ℕ → Round) (now : F.D) where
    sweep_on :
        (xs ys : List (Worker F)) (z : Worker F) (s : System F)
        → ((u : System F)
            → u.workers ≡ (xs ++ (z ∷ [])) ++ ys
            → sweep garbage env now (length ys) (length (xs ++ (z ∷ []))) u
              ≡ ok (record u { workers = (xs ++ (z ∷ [])) ++ map (checked now) ys }))
        → s.workers ≡ xs ++ (z ∷ ys)
        → sweep garbage env now (length ys) (length xs + 1) s
          ≡ ok (record s { workers = xs ++ (z ∷ map (checked now) ys) })
    sweep_on xs ys z s later e =
        ap (λ n. sweep garbage env now (length ys) n s) (sym (length-append xs (z ∷ [])))
        ∙ later s (e ∙ sym (append_assoc xs (z ∷ []) ys))
        ∙ ap (λ ws. ok (record s { workers = ws }))
            (append_assoc xs (z ∷ []) (map (checked now) ys))

    sweep-checked :
        (xs ys : List (Worker F)) (s : System F)
        → Idle now ys
        → s.workers ≡ xs ++ ys
        → sweep garbage env now (length ys) (length xs) s
          ≡ ok (record s { workers = xs ++ map (checked now) ys })
    unfolding sweep
    sweep-checked xs [] s idle e = ap (λ ws. ok (record s { workers = ws })) e
    sweep-checked xs (y ∷ ys) s idle e =
        let j = length xs in
        let at : get_elem? s.workers j ≡ some y =
          ap (λ ws. get_elem? ws j) e ∙ get_elem?-length xs y ys in
        let later = λ (z : Worker F) (u : System F).
          sweep_on xs ys z u (λ v e. sweep-checked (xs ++ (z ∷ [])) ys v idle.1 e) in
        elim (Bool-cases (is_late now y)) [
          | inl late ↦
              let dead : Worker F = record y { alive = false } in
              let marked : System F = record s { workers = set s.workers j dead } in
              let there : get_elem? marked.workers j ≡ some dead =
                get_elem?-set_same s.workers j y dead at in
              let placed : set (set s.workers j dead) j dead ≡ xs ++ (dead ∷ ys) =
                set-set s.workers j dead dead
                ∙ ap (λ ws. set ws j dead) e
                ∙ set-length xs y dead ys in
              rw at (
                rw late (
                  rw (reschedule-taskless garbage (env j) j dead marked there (idle.0 late))
                    (later dead (record s { workers = set (set s.workers j dead) j dead }) placed)))
          | inr fresh ↦ rw at (rw fresh (later y s e))
        ]

    -- When no worker that is late has a task, a sweep of `detect_heart_failure` returns: it marks
    -- exactly the late workers as not alive, and changes nothing else.
    pub detect-checked :
        (s : System F)
        → Idle now s.workers
        → detect garbage env now s ≡ ok (record s { workers = map (checked now) s.workers })
    unfolding detect
    detect-checked s idle = sweep-checked [] s.workers s idle refl
