-- ===== src/Queue/Monitor/Acting.antt =====
-- The calls that need not wait, on a linked queue within its limit: what they leave.
use pi_296_cluster.Prelude.{
  ℤ, pos, negsuc, is_positive, pos_part, ℕ, ◌+◌, ◌≤◌, ◌≡◌, ◌≢◌, ap, sym, ◌∙◌, true, false, ◌&&◌,
  none, some, List, [], ◌∷◌, ◌++◌, arith, ◌==◌, get_elem?, length, length-append, ok,
}
use pi_296_cluster.Queue.{Ptr, null, is_full, is_empty, push_wakes, pull_wakes}
use pi_296_cluster.Queue.Chain.{Cells, payloads, IsQueue, length-payloads}
use pi_296_cluster.Queue.Fifo.{enqueue-snoc, dequeue-uncons}
use pi_296_cluster.Queue.Monitor.{push, pull, Phase, State, leave, act}
use pi_296_cluster.Queue.Monitor.Leaving.{Left, leave-Left}
use pi_296_cluster.Queue.Monitor.Settled.{
  IsSettled, leave-IsSettled, open-NoneAsleep, open_before_push, open_before_pull,
}

limit_step :
    (m : ℤ) (n n' size : ℕ)
    → n' ≡ n + 1
    → size ≡ n
    → (is_positive m && (size == pos_part m)) ≡ false
    → (is_positive m ≡ true → n ≤ pos_part m)
    → is_positive m ≡ true
    → n' ≤ pos_part m
limit_step (pos k) n n' size grown count free fits p = ground (arith, fits p)
limit_step (negsuc k) n n' size grown count free fits p = cc

module _ {A : Type 0} where
  -- The items fit the limit, if there is one.
  abbrev pub WithinLimit : ℤ → List A → Type 0
  WithinLimit m items = is_positive m ≡ true → length items ≤ pos_part m

  -- The state holds these items: a linked queue within its limit, and threads of which none sleeps
  -- without cause.
  pub record Holds (s : State A) (cells : Cells A) : Type 0 where
    pub queue : IsQueue s.queue cells
    pub limit : WithinLimit s.queue.max_size (payloads cells)
    pub settled : IsSettled s.queue s.threads

  module _ (fresh : Ptr) (i : ℕ) (s : State A) (cells : Cells A) (h : Holds s cells) where
    pub size-length : s.queue.size ≡ length (payloads cells)
    size-length = h.queue.count ∙ sym (length-payloads cells)

    pub act-push :
        (x : A) (o : Phase A)
        → get_elem? s.threads i ≡ some o
        → fresh ≢ null
        → s.queue.heap fresh ≡ none
        → is_full s.queue ≡ false
        → (t : State A) × (act fresh i (push x) s ≡ ok t)
          × Holds t (cells ++ ((fresh, s.queue.copy_constructor x) ∷ []))
          × Left i none s.threads t.threads
    unfolding act
    act-push x o at ne unused free =
        let cell : Ptr × A = (fresh, s.queue.copy_constructor x) in
        let (q, runs, is, same_copy, same_max) =
          enqueue-snoc s.queue cells fresh x h.queue ne unused in
        let longer : length (cells ++ (cell ∷ [])) ≡ length cells + 1 =
          length-append cells (cell ∷ []) in
        (
          leave i none (push_wakes q) q s.threads,
          rw runs,
          record {
            queue = is;
            limit = λ p. rw same_max (
                limit_step s.queue.max_size (length (payloads cells))
                  (length (payloads (cells ++ (cell ∷ [])))) s.queue.size
                  (length-payloads (cells ++ (cell ∷ []))
                    ∙ longer
                    ∙ ap (λ n. n + 1) (sym (length-payloads cells)))
                  size-length free h.limit (rw same_max at p));
            settled = leave-IsSettled q s.threads i none (push_wakes q) λ quiet.
                open-NoneAsleep s.queue s.threads
                  (λ c b.
                    open_before_push s.queue q c free
                      (is.count ∙ longer ∙ ap (λ n. n + 1) (sym h.queue.count)) quiet b)
                  h.settled;
          },
          leave-Left q s.threads i o none (push_wakes q) at,
        )

  pub act-pull :
      (fresh : Ptr) (i : ℕ) (s : State A) (p : Ptr) (x : A) (r : Cells A) (o : Phase A)
      → get_elem? s.threads i ≡ some o
      → Holds s ((p, x) ∷ r)
      → (t : State A) × (act fresh i pull s ≡ ok t)
        × Holds t r
        × Left i (some x) s.threads t.threads
  unfolding act
  act-pull fresh i s p x r o at h =
      let (q, runs, is, freed, same_copy, same_max) = dequeue-uncons s.queue p x r h.queue in
      let some_left : is_empty s.queue ≡ false = ground (arith, h.queue.count) in
      (
        leave i (some x) (pull_wakes q) q s.threads,
        rw runs,
        record {
          queue = is;
          limit = λ positive. rw same_max (omega (arith, h.limit (rw same_max at positive)));
          settled = leave-IsSettled q s.threads i (some x) (pull_wakes q) λ quiet.
              open-NoneAsleep s.queue s.threads
                (λ c b.
                  open_before_pull s.queue q c some_left (omega (arith, is.count, h.queue.count))
                    same_max quiet b)
                h.settled;
        },
        leave-Left q s.threads i o (some x) (pull_wakes q) at,
      )
