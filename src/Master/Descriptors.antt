-- ===== src/Master/Descriptors.antt =====
-- The descriptors of a list of workers, which scheduling leaves alone.
use pi_296_cluster.Prelude.{
  ℕ, zero, suc, ◌+◌, ◌≡◌, refl, ap, ◌∙◌, sym, inl, inr, Bool, true, false, Bool-cases, Option, none,
  some, some-injective, List, [], ◌∷◌, ◌++◌, arith, ◌==◌, if◌then◌else◌, get_elem?, set, erase_idx,
}
use pi_296_cluster.Kernel.{Bytes}
use pi_296_cluster.Master.{Worker, Task, find_worker_pos}
use pi_296_cluster.Master.Floats.{Double}
use pi_296_cluster.Master.Scheduler.{schedule, scheduler_remove_task, best_loop, no_load}
use pi_296_cluster.Master.Scheduler.Choice.{Found, old, new, best_loop-Found, at_sum}

abbrev pub has_fd : ℕ → List ℕ → Bool
has_fd n [] = false
has_fd n (x ∷ xs) = let later = has_fd n xs in if x == n then true else later

abbrev pub find_fd : ℕ → List ℕ → Option ℕ
find_fd n [] = none
find_fd n (x ∷ xs) =
    let later : Option ℕ = elim (find_fd n xs) [ none ↦ none | some i ↦ some (i + 1) ] in
    if x == n then some 0 else later

-- No descriptor twice.
abbrev pub Distinct : List ℕ → Type 0
Distinct [] = Unit {0}
Distinct (x ∷ xs) = (has_fd x xs ≡ false) × Distinct xs

-- The same test decides for the head in both.
pub has_fd-later :
    (n x : ℕ) (xs : List ℕ) → has_fd n (x ∷ xs) ≡ false → ((x == n) ≡ false) × (has_fd n xs ≡ false)
has_fd-later n x xs e = elim (Bool-cases (x == n)) [
  | inl here ↦ cc (rw here at e)
  | inr other ↦ (other, rw other at e)
]

find_fd-later :
    (n x : ℕ) (xs : List ℕ) (i : ℕ)
    → find_fd n (x ∷ xs) ≡ some (suc i)
    → ((x == n) ≡ false) × (find_fd n xs ≡ some i)
find_fd-later n x xs i e = elim (Bool-cases (x == n)) [
  | inl here ↦ cc (rw here at e, some-injective zero (suc i) (rw here at e))
  | inr other ↦ (other, place (find_fd n xs) refl (rw other at e))
]
  where
    place :
        (r : Option ℕ)
        → find_fd n xs ≡ r
        → elim r [ none ↦ none | some j ↦ some (j + 1) ] ≡ some (suc i)
        → find_fd n xs ≡ some i
    place none found e' = cc
    place (some j) found e' =
        let same : j + 1 ≡ suc i = some-injective (j + 1) (suc i) e' in
        let same' : j ≡ i = omega arith in found ∙ ap some same'

find_fd-here : (n x : ℕ) (xs : List ℕ) → find_fd n (x ∷ xs) ≡ some zero → x ≡ n
find_fd-here n x xs e = elim (Bool-cases (x == n)) [
  | inl here ↦ ground (arith, here)
  | inr other ↦ place (find_fd n xs) (rw other at e)
]
  where
    place :
        (r : Option ℕ)
        → elim r as (λ _. Option ℕ) [ none ↦ none | some j ↦ some (j + 1) ] ≡ some zero
        → x ≡ n
    place none e' = cc
    place (some j) e' = let same : j + 1 ≡ zero = some-injective (j + 1) zero e' in omega arith

pub find_fd-none : (n : ℕ) (xs : List ℕ) → has_fd n xs ≡ false → find_fd n xs ≡ none
find_fd-none n [] e = refl
find_fd-none n (x ∷ xs) e =
    let (other, later) = has_fd-later n x xs e in rw (other, find_fd-none n xs later)

pub has_fd-of_none : (n : ℕ) (xs : List ℕ) → find_fd n xs ≡ none → has_fd n xs ≡ false
has_fd-of_none n [] e = refl
has_fd-of_none n (x ∷ xs) e = elim (Bool-cases (x == n)) as (λ _. has_fd n (x ∷ xs) ≡ false) [
  | inl here ↦ cc (rw here at e)
  | inr other ↦ rw other (has_fd-of_none n xs (nowhere (find_fd n xs) (rw other at e)))
]
  where
    nowhere :
        (r : Option ℕ)
        → elim r as (λ _. Option ℕ) [ none ↦ none | some j ↦ some (j + 1) ] ≡ none
        → r ≡ none
    nowhere none e' = refl
    nowhere (some j) e' = cc

has_fd-erase :
    (x : ℕ) (xs : List ℕ) (i : ℕ) → has_fd x xs ≡ false → has_fd x (erase_idx xs i) ≡ false
has_fd-erase x [] i e = refl
has_fd-erase x (y ∷ xs) zero e = (has_fd-later x y xs e).1
has_fd-erase x (y ∷ xs) (suc i) e =
    let (other, later) = has_fd-later x y xs e in rw (other, has_fd-erase x xs i later)

pub erase-Distinct : (xs : List ℕ) (i : ℕ) → Distinct xs → Distinct (erase_idx xs i)
erase-Distinct [] i d = tt
erase-Distinct (x ∷ xs) zero d = d.1
erase-Distinct (x ∷ xs) (suc i) d = (has_fd-erase x xs i d.0, erase-Distinct xs i d.1)

-- With an element that has the descriptor gone, none has it.
pub has_fd-erase_found :
    (n : ℕ) (xs : List ℕ) (i : ℕ)
    → Distinct xs
    → find_fd n xs ≡ some i
    → has_fd n (erase_idx xs i) ≡ false
has_fd-erase_found n [] i d e = cc
has_fd-erase_found n (x ∷ xs) zero d e = let same = find_fd-here n x xs e in rw (sym same) d.0
has_fd-erase_found n (x ∷ xs) (suc i) d e =
    let (other, later) = find_fd-later n x xs i e in rw (other, has_fd-erase_found n xs i d.1 later)

module _ {F : Double} where
  abbrev pub worker_fds : List (Worker F) → List ℕ
  worker_fds [] = []
  worker_fds (w ∷ ws) = w.worker_fd ∷ worker_fds ws

  pub find_worker_pos-fds :
      (n : ℕ) (ws : List (Worker F)) → find_worker_pos n ws ≡ find_fd n (worker_fds ws)
  unfolding find_worker_pos
  find_worker_pos-fds n [] = refl
  find_worker_pos-fds n (w ∷ ws) = rw (find_worker_pos-fds n ws)

  pub worker_fds-set :
      (ws : List (Worker F)) (i : ℕ) (v w : Worker F)
      → get_elem? ws i ≡ some v
      → w.worker_fd ≡ v.worker_fd
      → worker_fds (set ws i w) ≡ worker_fds ws
  worker_fds-set [] i v w e same = refl
  worker_fds-set (u ∷ ws) zero v w e same =
      let here : u ≡ v = some-injective u v e in
      ap (λ n. n ∷ worker_fds ws) (same ∙ ap (λ x. x.worker_fd) (sym here))
  worker_fds-set (u ∷ ws) (suc i) v w e same =
      ap (λ l. u.worker_fd ∷ l) (worker_fds-set ws i v w e same)

  -- The worker with the descriptor is put back.
  pub worker_fds-put :
      (ws : List (Worker F)) (i n : ℕ) (w : Worker F)
      → find_fd n (worker_fds ws) ≡ some i
      → w.worker_fd ≡ n
      → worker_fds (set ws i w) ≡ worker_fds ws
  worker_fds-put [] i n w e own = refl
  worker_fds-put (u ∷ ws) zero n w e own =
      ap (λ k. k ∷ worker_fds ws) (own ∙ sym (find_fd-here n u.worker_fd (worker_fds ws) e))
  worker_fds-put (u ∷ ws) (suc i) n w e own =
      let (other, later) = find_fd-later n u.worker_fd (worker_fds ws) i e in
      ap (λ l. u.worker_fd ∷ l) (worker_fds-put ws i n w later own)

  -- What stands where the descriptor is found has it.
  pub found_fd :
      (ws : List (Worker F)) (i n : ℕ) (w : Worker F)
      → find_fd n (worker_fds ws) ≡ some i
      → w.worker_fd ≡ n
      → (elim (get_elem? ws i) as (λ _. Worker F) [ none ↦ w | some v ↦ v ]).worker_fd ≡ n
  found_fd [] i n w e own = cc
  found_fd (u ∷ ws) zero n w e own = find_fd-here n u.worker_fd (worker_fds ws) e
  found_fd (u ∷ ws) (suc i) n w e own =
      let (other, later) = find_fd-later n u.worker_fd (worker_fds ws) i e in
      found_fd ws i n w later own

  pub at_fd :
      (ws : List (Worker F)) (i n : ℕ) (w : Worker F)
      → find_fd n (worker_fds ws) ≡ some i
      → get_elem? ws i ≡ some w
      → w.worker_fd ≡ n
  at_fd [] i n w e at = cc
  at_fd (u ∷ ws) zero n w e at =
      let here : u ≡ w = some-injective u w at in
      ap (λ x. x.worker_fd) (sym here) ∙ find_fd-here n u.worker_fd (worker_fds ws) e
  at_fd (u ∷ ws) (suc i) n w e at =
      let (other, later) = find_fd-later n u.worker_fd (worker_fds ws) i e in
      at_fd ws i n w later at

  pub worker_fds-erase :
      (ws : List (Worker F)) (i : ℕ) → worker_fds (erase_idx ws i) ≡ erase_idx (worker_fds ws) i
  worker_fds-erase [] i = refl
  worker_fds-erase (w ∷ ws) zero = refl
  worker_fds-erase (w ∷ ws) (suc i) = ap (λ l. w.worker_fd ∷ l) (worker_fds-erase ws i)

  pub worker_fds-scheduler_remove_task :
      (fd : ℕ) (name : Bytes) (ws : List (Worker F))
      → worker_fds (scheduler_remove_task fd name ws) ≡ worker_fds ws
  unfolding scheduler_remove_task
  worker_fds-scheduler_remove_task fd name [] = refl
  worker_fds-scheduler_remove_task fd name (w ∷ ws) = elim (Bool-cases (w.worker_fd == fd)) [
    | inl here ↦ rw here
    | inr other ↦ rw other (ap (λ l. w.worker_fd ∷ l) (worker_fds-scheduler_remove_task fd name ws))
  ]

  pub worker_fds-schedule :
      (t : Task) (ws : List (Worker F)) (tl : List Task)
      → worker_fds (schedule t ws tl).1 ≡ worker_fds ws
  unfolding schedule
  worker_fds-schedule t ws tl =
      chosen (best_loop 0 (no_load F) none ws) refl (best_loop-Found 0 (no_load F) none ws)
    where
      chosen :
          (r : Option (ℕ × Worker F))
          → best_loop 0 (no_load F) none ws ≡ r
          → Found 0 (no_load F) none ws r
          → worker_fds (schedule t ws tl).1 ≡ worker_fds ws
      chosen r e (old e' m) = rw (e ∙ e', schedule)
      chosen r e (new j k w e' at found ok n) =
          rw (e ∙ e', schedule)
            (worker_fds-set ws k w (record w { tasks = w.tasks ++ (t ∷ []) })
              (at_sum ws j k w at found) refl)
