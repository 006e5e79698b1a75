-- ===== src/Deprecated/Nodes/Searching.antt =====
-- Linked lists of nodes, and what searchNodeByAddr and free_all_nodes do on them.
use pi_296_cluster.Prelude.{
  ℕ, zero, suc, ◌<◌, ◌≡◌, ◌≢◌, refl, false, inl, inr, Bool-cases, Option, some, List, [], ◌∷◌,
  arith, length, ==_of_ne, ok, if◌then◌else◌,
}
use pi_296_cluster.Kernel.{Bytes}
use pi_296_cluster.Queue.{Ptr, null}
use pi_296_cluster.Master.Floats.{Double}
use pi_296_cluster.Master.Scheduler.{str_eq}
use pi_296_cluster.Deprecated.Nodes.{Node, Nodes, search_node_by_addr}

module _ {F : Double} where
  abbrev pub first_of : List (Ptr × Node F) → Ptr
  first_of [] = null
  first_of ((p, n) ∷ r) = p

  -- The nodes are linked in this order, and the last one to NULL.
  abbrev pub LinkedNodes : (Ptr → Option (Node F)) → List (Ptr × Node F) → Type 0
  LinkedNodes m [] = Unit {0}
  LinkedNodes m ((p, n) ∷ r) = (p ≢ null) × (m p ≡ some n) × (n.next ≡ first_of r) × LinkedNodes m r

  abbrev pub free_to_lock : (Ptr → Option (Node F)) → Nodes F
  free_to_lock m = record { memory = m; locked = false }

  -- The first node with the address.
  abbrev pub with_addr : Bytes → List (Ptr × Node F) → Ptr
  with_addr addr [] = null
  with_addr addr ((p, n) ∷ r) =
      let later = with_addr addr r in if str_eq addr n.address then p else later

  -- On a list of nodes whose mutex is not locked, searchNodeByAddr returns the first node with the
  -- address, NULL where there is none, and changes nothing; a round for each node and one more are
  -- enough.
  pub search_node_by_addr-with_addr :
      (fuel : ℕ) (addr : Bytes) (m : Ptr → Option (Node F)) (cells : List (Ptr × Node F))
      → length cells < fuel
      → LinkedNodes m cells
      → search_node_by_addr fuel addr (first_of cells) (free_to_lock m)
        ≡ ok (with_addr addr cells, free_to_lock m)
  unfolding search_node_by_addr
  search_node_by_addr-with_addr zero addr m cells enough linked = absurd (omega (arith, enough))
  search_node_by_addr-with_addr (suc fuel) addr m [] enough linked = refl
  search_node_by_addr-with_addr (suc fuel) addr m ((p, n) ∷ r) enough linked =
      let later = search_node_by_addr-with_addr fuel addr m r (omega (arith, enough)) linked.3 in
      elim (Bool-cases (str_eq addr n.address)) [
        | inl here ↦ rw (==_of_ne p null linked.0) (rw linked.1 (rw here refl))
        | inr not_here ↦
            rw (==_of_ne p null linked.0)
              (rw linked.1 (rw not_here (rw linked.1 (rw linked.2 later))))
      ]
