-- ===== src/Queue/Destroy.antt =====
-- `queue_destroy`: the walk ends, and frees every node once.
use pi_296_cluster.Prelude.{
  ℕ, zero, suc, ◌+◌, ◌<◌, ◌≡◌, refl, true, false, none, List, [], ◌∷◌, arith, ◌==◌, ◌∙◌, inl, inr,
  Bool-cases, ==_of_ne, length, ok,
}
use pi_296_cluster.Queue.{Ptr, null, Heap, Queue, write, load, destroy, destroy_loop, queue_node}
use pi_296_cluster.Queue.Chain.{Cells, has, first, payloads, Linked, IsQueue, load-ok, Linked-write}

module _ {A : Type 0} where
  -- What a walk over the cells leaves of the heap `h`.
  record Freed (h g : Heap A) (cells : Cells A) : Type 0 where
    pub gone : (a : Ptr) → has a cells ≡ true → g a ≡ none
    pub kept : (a : Ptr) → has a cells ≡ false → g a ≡ h a

  destroy_loop-step :
      (fuel : ℕ) (p n : Ptr) (x : A) (h : Heap A) {gone : List A} {g : Heap A}
      → load h p ≡ ok (queue_node x n)
      → (p == null) ≡ false
      → destroy_loop fuel n (write h p none) ≡ ok (gone, g)
      → destroy_loop (suc fuel) p h ≡ ok (x ∷ gone, g)
  unfolding destroy_loop
  destroy_loop-step fuel p n x h loads ne runs = rw (ne, loads, runs)

  Freed-cons :
      (h g : Heap A) (p : Ptr) (x : A) (r : Cells A)
      → has p r ≡ false
      → Freed (write h p none) g r
      → Freed h g ((p, x) ∷ r)
  unfolding write
  Freed-cons h g p x r apart f = record { gone = gone; kept = kept }
    where
      gone : (a : Ptr) → has a ((p, x) ∷ r) ≡ true → g a ≡ none
      gone a i = elim (Bool-cases (has a r)) [
        | inl later ↦ f.gone a later
        | inr not_later ↦ let here : a ≡ p = ground arith in f.kept a not_later ∙ ground arith
      ]

      kept : (a : Ptr) → has a ((p, x) ∷ r) ≡ false → g a ≡ h a
      kept a out =
          let later : has a r ≡ false = ground arith in
          let other : (a == p) ≡ false = ground arith in f.kept a later ∙ rw other

  destroy_loop-Freed :
      (fuel : ℕ) (h : Heap A) (cells : Cells A)
      → length cells < fuel
      → Linked h cells
      → (g : Heap A) × (destroy_loop fuel (first cells) h ≡ ok (payloads cells, g))
        × Freed h g cells
  unfolding destroy_loop write
  destroy_loop-Freed zero h cells enough l = absurd (omega arith)
  destroy_loop-Freed (suc fuel) h [] enough l =
      (h, refl, record { gone = λ a e. cc; kept = λ a e. refl })
  destroy_loop-Freed (suc fuel) h ((p, x) ∷ r) enough l =
      let (g, runs, f) =
        destroy_loop-Freed fuel (write h p none) r (omega arith)
          (Linked-write h p none r l.2 l.3) in
      (
        g,
        destroy_loop-step fuel p (first r) x h (load-ok h p l.0 l.1) (==_of_ne p null l.0) runs,
        Freed-cons h g p x r l.2 f,
      )

  -- `queue_destroy` ends without a fault, hands every payload to the destructor in order, frees the
  -- address of every node, and touches no other address.
  pub destroy-payloads :
      (q : Queue A) (cells : Cells A)
      → IsQueue q cells
      → (g : Heap A) × (destroy q ≡ ok (payloads cells, g))
        × ((a : Ptr) → has a cells ≡ true → g a ≡ none)
        × ((a : Ptr) → has a cells ≡ false → g a ≡ q.heap a)
  unfolding destroy
  destroy-payloads q cells is =
      let (g, runs, f) =
        destroy_loop-Freed (q.size + 1) q.heap cells (omega (arith, is.count)) is.linked in
      (g, rw is.at_head runs, f.gone, f.kept)
