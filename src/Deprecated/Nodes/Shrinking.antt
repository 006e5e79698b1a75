-- ===== src/Deprecated/Nodes/Shrinking.antt =====
-- What removeNode does to a list of nodes.
use pi_296_cluster.Prelude.{
  ℕ, zero, suc, ◌≡◌, ◌≢◌, refl, sym, true, false, none, some, ==_of_ne, ==_refl, ok, hang,
}
use pi_296_cluster.Queue.{Ptr, null}
use pi_296_cluster.Master.Floats.{Double}
use pi_296_cluster.Deprecated.Nodes.{Node, Nodes, put_node, clean_node, remove_loop, remove_node}

module _ {F : Double} (fuel : ℕ) (old head : Ptr) (first : Node F) (s : Nodes F)
    (some_first : head ≢ null) (free : s.locked ≡ false) (here : s.memory head ≡ some first)
    (not_first : head ≢ old) where
  loop-third :
      (held : Nodes F)
      → held.locked ≡ true
      → held.memory head ≡ some first
      → first.next ≢ old
      → remove_loop fuel old head held ≡ hang
  unfolding remove_loop
  loop-third held locked there not_second = elim fuel as (λ k. remove_loop k old head held ≡ hang) [
    | zero ↦ refl
    | suc f ↦
        rw (==_of_ne head null some_first)
          (rw there (rw (==_of_ne first.next old not_second) (rw locked refl)))
  ]

  -- removeNode of a node that is neither the first nor the second of the list never returns, whatever
  -- the number of rounds, since it asks for the mutex again that it holds.
  pub remove_node-third : first.next ≢ old → remove_node fuel old head s ≡ hang
  unfolding remove_node remove_loop
  remove_node-third not_second = rw free (
      rw (==_of_ne head old not_first)
        (rw (loop-third (record s { locked = true }) refl here not_second) refl))

  -- removeNode of the second node takes it out of the list, frees it and unlocks the mutex.
  pub remove_node-second :
      (second : Node F)
      → first.next ≡ old
      → old ≢ null
      → s.memory old ≡ some second
      → remove_node (suc fuel) old head s
        ≡ ok
            (head, put_node old none (put_node head (some (record first { next = second.next })) s))
  unfolding remove_node remove_loop clean_node
  remove_node-second second is_second some_old there =
      let other : old ≢ head = λ e. not_first (sym e) in
      rw free (
        rw (==_of_ne head old not_first) (
          rw (==_of_ne head null some_first) (
            rw here (
              rw (is_second, ==_refl old)
                (rw (==_of_ne old null some_old) (rw there (rw (==_of_ne old head other) refl)))))))
