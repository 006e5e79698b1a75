-- ===== src/Deprecated/Assigning/Rotating.antt =====
-- What get_task_from_queue_onto_nodes does with the tasks.
use pi_296_cluster.Prelude.{
  ℕ, ◌<◌, ◌≡◌, ◌≢◌, refl, ap, ◌∙◌, false, Option, none, some, List, [], ◌∷◌, ◌++◌, arith, length,
  ◌==◌, ==_of_ne, subst, inl, inr, Bool-cases, ok, hang, if◌then◌else◌,
}
use pi_296_cluster.Queue.{Ptr, null, write, dequeue, enqueue}
use pi_296_cluster.Queue.Chain.{Cells, IsQueue}
use pi_296_cluster.Queue.Fifo.{enqueue-snoc, dequeue-uncons}
use pi_296_cluster.Master.Floats.{Double}
use pi_296_cluster.Deprecated.Nodes.{Node}
use pi_296_cluster.Deprecated.Nodes.Searching.{LinkedNodes, first_of, free_to_lock}
use pi_296_cluster.Deprecated.TaskQueue.{TaskQueue}
use pi_296_cluster.Deprecated.Assigning.{
  Assignment, push_task, distribute_task, spread_loop, get_task_from_queue_onto_nodes,
}
use pi_296_cluster.Deprecated.Assigning.Least.{all_passed, get_least_used_worker-null}

module _ {F : Double} (fuel : ℕ) (node : ℕ → Ptr) (m : Ptr → Option (Node F))
    (cells : List (Ptr × Node F)) (q : TaskQueue) (p work : Ptr) (rest : Cells Ptr)
    (enough : length cells < fuel) (linked : LinkedNodes m cells)
    (holds : IsQueue q ((p, work) ∷ rest)) where
  abbrev queued : Assignment F
  queued = record { nodes = free_to_lock m; tasks = some q }

  spread-run :
      (q' q'' : TaskQueue)
      → dequeue q ≡ ok (work, q')
      → enqueue (node q.size) work q' ≡ ok q''
      → get_task_from_queue_onto_nodes node fuel (first_of cells) queued
        ≡ (if all_passed cells then ok (record queued { tasks = some q'' }) else hang)
  unfolding get_task_from_queue_onto_nodes spread_loop distribute_task push_task
  spread-run q' q'' pulls pushes =
      let some_task : (q.size == 0) ≡ false =
        ==_of_ne q.size 0 (λ e. omega (arith, e, holds.count)) in
      let least = get_least_used_worker-null fuel m cells enough linked in
      elim (Bool-cases (all_passed cells)) [
        | inl passed ↦ rw some_task (rw pulls (rw least (rw passed (rw pushes refl))))
        | inr live ↦ rw some_task (rw pulls (rw least (rw live refl)))
      ]

  -- Whatever nodes are linked, get_task_from_queue_onto_nodes on a queue of tasks gives none of them a
  -- task: if all of them are marked dead and have fewer than 5 tasks, it returns with the nodes as they
  -- were, and with the first task of the queue behind the others; if one of them is not, it never
  -- returns. No other thread changes the nodes meanwhile, the queue copies a task by its
  -- pointer, and malloc gives an address that no node of the queue has.
  pub get_task_from_queue_onto_nodes-snoc :
      q.copy_constructor ≡ (λ task. task)
      → node q.size ≢ null
      → q.heap (node q.size) ≡ none
      → (q' : TaskQueue) × (get_task_from_queue_onto_nodes node fuel (first_of cells) queued
          ≡ (if all_passed cells then ok (record queued { tasks = some q' }) else hang))
        × IsQueue q' (rest ++ ((node q.size, work) ∷ []))
  unfolding write
  get_task_from_queue_onto_nodes-snoc plain some_node unused =
      let (q', pulls, shorter, freed, copies, max) = dequeue-uncons q p work rest holds in
      let free : q'.heap (node q.size) ≡ none =
        ap (λ h. h (node q.size)) freed ∙ elim (Bool-cases (node q.size == p)) [
          | inl same ↦ rw same refl
          | inr other ↦ rw other unused
        ] in
      let (q'', pushes, longer, same_copies, same_max) =
        enqueue-snoc q' rest (node q.size) work shorter some_node free in
      (
        q'',
        spread-run q' q'' pulls pushes,
        subst (λ (t : Ptr). IsQueue q'' (rest ++ ((node q.size, t) ∷ [])))
            (ap (λ c. c work) (copies ∙ plain)) longer,
      )
