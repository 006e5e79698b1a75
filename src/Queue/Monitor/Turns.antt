-- ===== src/Queue/Monitor/Turns.antt =====
-- Turns of the monitor against a bounded buffer: no fault, first in first out, within the limit, and
-- nobody sleeps who could go on.
use pi_296_cluster.Prelude.{
  ℤ, pos, negsuc, is_positive, pos_part, ℕ, ◌≡◌, ◌≢◌, refl, ◌⊎◌, inl, inr, true, false, ◌&&◌, none,
  some, List, [], ◌∷◌, ◌++◌, arith, ◌==◌, get_elem?, set, length, Bool-cases, ok,
}
use pi_296_cluster.Queue.{Ptr, null, is_full, is_empty}
use pi_296_cluster.Queue.Chain.{Cells, payloads, payloads-snoc}
use pi_296_cluster.Queue.Monitor.{
  Call, push, pull, Phase, at_lock, asleep, finished, State, blocked, act, enter, turn,
}
use pi_296_cluster.Queue.Monitor.Leaving.{Left}
use pi_296_cluster.Queue.Monitor.Settled.{IsSettled-sleep, IsSettled-blocked, IsSettled-wake}
use pi_296_cluster.Queue.Monitor.Acting.{Holds, size-length, act-push, act-pull}

full_not_empty :
    (m : ℤ) (size : ℕ) → (is_positive m && (size == pos_part m)) ≡ true → (size == 0) ≡ true → ⊥
full_not_empty (pos k) size full none_left = ground arith
full_not_empty (negsuc k) size full none_left = cc

full-length :
    (m : ℤ) (size n : ℕ)
    → (is_positive m && (size == pos_part m)) ≡ true
    → size ≡ n
    → (is_positive m ≡ true) × (n ≡ pos_part m)
full-length (pos k) size n full e = ground arith
full-length (negsuc k) size n full e = cc

module _ {A : Type 0} where
  -- What a turn of the thread at `i`, in that phase, may do to the items of a buffer with that limit
  -- and to the threads.
  abbrev pub Effect :
      (A → A) → ℤ → ℕ → Phase A → List A → List A → List (Phase A) → List (Phase A) → Type 0
  Effect copy m i (at_lock (push x)) xs ys before after =
      ((ys ≡ xs ++ (copy x ∷ [])) × Left i none before after)
      ⊎ ((ys ≡ xs)
          × (is_positive m ≡ true)
          × (length xs ≡ pos_part m)
          × (after ≡ set before i (asleep (push x))))
  Effect copy m i (at_lock pull) xs ys before after =
      ((x : A) × (xs ≡ x ∷ ys) × Left i (some x) before after)
      ⊎ ((ys ≡ xs) × (xs ≡ []) × (after ≡ set before i (asleep pull)))
  Effect copy m i (asleep c) xs ys before after = (ys ≡ xs) × (after ≡ set before i (at_lock c))
  Effect copy m i (finished r) xs ys before after = (ys ≡ xs) × (after ≡ before)

  turn-acts :
      (fresh : Ptr) (i : ℕ) (s : State A) (c : Call A) {t : State A}
      → get_elem? s.threads i ≡ some (at_lock c)
      → blocked s.queue c ≡ false
      → act fresh i c s ≡ ok t
      → turn fresh i s ≡ ok t
  unfolding turn enter
  turn-acts fresh i s c e free runs = rw (e, turn) (rw free runs)

  turn-sleeps :
      (fresh : Ptr) (i : ℕ) (s : State A) (cells : Cells A) (c : Call A)
      → Holds s cells
      → get_elem? s.threads i ≡ some (at_lock c)
      → blocked s.queue c ≡ true
      → let t : State A = record s { threads = set s.threads i (asleep c) } in
        (turn fresh i s ≡ ok t) × Holds t cells
  unfolding turn enter
  turn-sleeps fresh i s cells c h e b = (
    rw (e, turn) (rw b),
    record {
      queue = h.queue;
      limit = h.limit;
      settled = IsSettled-sleep s.queue s.threads i c b h.settled;
    },
  )

  -- In a state of a linked queue within its limit, in which no thread sleeps whose call could go
  -- on, a turn of any thread, with an unused address from malloc, does not fault. The state
  -- after it is such a state again. A push appends its copy and ends, or the buffer is full and the
  -- thread sleeps; a pull ends with the first item as its result, and that item leaves the buffer, or
  -- there is none and the thread sleeps; a thread that sleeps comes back to the lock. When a call ends,
  -- each other thread stays as it was, or slept and is woken; at any other turn no other thread changes.
  pub turn-Holds :
      (fresh : Ptr) (i : ℕ) (s : State A) (cells : Cells A) (p : Phase A)
      → Holds s cells
      → get_elem? s.threads i ≡ some p
      → fresh ≢ null
      → s.queue.heap fresh ≡ none
      → (t : State A) × (after : Cells A) × (turn fresh i s ≡ ok t)
        × Holds t after
        × Effect s.queue.copy_constructor s.queue.max_size i p
            (payloads cells)
            (payloads after)
            s.threads
            t.threads
  unfolding turn
  turn-Holds fresh i s cells (asleep c) h e ne unused = (
    record s { threads = set s.threads i (at_lock c) },
    cells,
    rw (e, turn),
    record {
      queue = h.queue;
      limit = h.limit;
      settled = IsSettled-wake s.queue s.threads i c h.settled;
    },
    (refl, refl),
  )
  turn-Holds fresh i s cells (finished r) h e ne unused = (s, cells, rw (e, turn), h, (refl, refl))
  turn-Holds fresh i s cells (at_lock (push x)) h e ne unused =
      elim (Bool-cases (is_full s.queue)) [
        | inl full ↦
            let (runs, holds) = turn-sleeps fresh i s cells (push x) h e full in
            let (limited, full_length) =
              full-length s.queue.max_size s.queue.size (length (payloads cells)) full
                (size-length fresh i s cells h) in
            (
              record s { threads = set s.threads i (asleep (push x)) },
              cells,
              runs,
              holds,
              inr (refl, limited, full_length, refl),
            )
        | inr free ↦
            let (t, runs, holds, left) =
              act-push fresh i s cells h x (at_lock (push x)) e ne unused free in
            (
              t,
              cells ++ ((fresh, s.queue.copy_constructor x) ∷ []),
              turn-acts fresh i s (push x) e free runs,
              holds,
              inl (payloads-snoc fresh (s.queue.copy_constructor x) cells, left),
            )
      ]
  turn-Holds fresh i s [] (at_lock pull) h e ne unused =
      let (runs, holds) = turn-sleeps fresh i s [] pull h e (ground (arith, h.queue.count)) in
      (
        record s { threads = set s.threads i (asleep pull) },
        [],
        runs,
        holds,
        inr (refl, refl, refl),
      )
  turn-Holds fresh i s ((p, x) ∷ r) (at_lock pull) h e ne unused =
      let (t, runs, holds, left) = act-pull fresh i s p x r (at_lock pull) e h in
      let some_left : is_empty s.queue ≡ false = ground (arith, h.queue.count) in
      (t, r, turn-acts fresh i s pull e some_left runs, holds, inl (x, refl, left))

  -- In a state of a linked queue within its limit, in which no thread sleeps whose call could go
  -- on, while a thread sleeps in a pull, no thread sleeps in a push.
  pub not_both_asleep :
      (s : State A) (cells : Cells A) (i j : ℕ) (x : A)
      → Holds s cells
      → get_elem? s.threads i ≡ some (asleep pull)
      → get_elem? s.threads j ≢ some (asleep (push x))
  not_both_asleep s cells i j x h ei ej =
      full_not_empty s.queue.max_size s.queue.size
        (IsSettled-blocked s.queue s.threads j (push x) h.settled ej)
        (IsSettled-blocked s.queue s.threads i pull h.settled ei)
