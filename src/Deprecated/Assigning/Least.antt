-- ===== src/Deprecated/Assigning/Least.antt =====
-- What get_least_used_worker returns.
use pi_296_cluster.Prelude.{
  ℕ, zero, suc, ◌<◌, ◌≡◌, ◌≢◌, refl, inl, inr, Bool, true, false, Bool-cases, ◌||◌, Option, some,
  ap, ap₂, sym, ◌∙◌, List, [], ◌∷◌, arith, leb, length, ==_of_ne, ok, hang, if◌then◌else◌,
}
use pi_296_cluster.Queue.{Ptr, null}
use pi_296_cluster.Master.Floats.{Double}
use pi_296_cluster.Deprecated.Nodes.{Node}
use pi_296_cluster.Deprecated.Nodes.Searching.{LinkedNodes, first_of, free_to_lock}
use pi_296_cluster.Deprecated.Assigning.{least_loop, get_least_used_worker}

module _ {F : Double} where
  -- A live node, and one with 5 tasks, is what the loop does not get past.
  abbrev pub all_passed : List (Ptr × Node F) → Bool
  all_passed [] = true
  all_passed ((p, n) ∷ r) =
      let later = all_passed r in if n.alive || leb 5 n.num_of_task then false else later

  least_loop-alive :
      (fuel : ℕ) (p : Ptr) (n : Node F) (m : Ptr → Option (Node F)) (least : Ptr) (load : F.D)
      → p ≢ null
      → m p ≡ some n
      → n.alive ≡ true
      → least_loop fuel p least load (free_to_lock m) ≡ hang
  unfolding least_loop
  least_loop-alive zero p n m least load ne here up = refl
  least_loop-alive (suc fuel) p n m least load ne here up =
      rw (==_of_ne p null ne) (rw here (rw up (least_loop-alive fuel p n m least load ne here up)))

  least_loop-full :
      (fuel : ℕ) (p : Ptr) (n : Node F) (m : Ptr → Option (Node F)) (least : Ptr) (load : F.D)
      → p ≢ null
      → m p ≡ some n
      → n.alive ≡ false
      → leb 5 n.num_of_task ≡ true
      → least_loop fuel p least load (free_to_lock m) ≡ hang
  unfolding least_loop
  least_loop-full zero p n m least load ne here down full = refl
  least_loop-full (suc fuel) p n m least load ne here down full = rw (==_of_ne p null ne) (
      rw here (
        rw down
          (rw here (rw here (rw full (least_loop-full fuel p n m least load ne here down full))))))

  least_loop-past :
      (fuel : ℕ) (m : Ptr → Option (Node F)) (cells : List (Ptr × Node F)) (least : Ptr)
      (load : F.D)
      → length cells < fuel
      → LinkedNodes m cells
      → least_loop fuel (first_of cells) least load (free_to_lock m)
        ≡ (if all_passed cells then ok (null, free_to_lock m) else hang)
  unfolding least_loop
  least_loop-past zero m cells least load enough linked = absurd (omega (arith, enough))
  least_loop-past (suc fuel) m [] least load enough linked = refl
  least_loop-past (suc fuel) m ((p, n) ∷ r) least load enough linked =
      let later =
        λ (b : Ptr) (x : F.D). least_loop-past fuel m r b x (omega (arith, enough)) linked.3 in
      elim (Bool-cases n.alive) [
        | inl up ↦
            least_loop-alive (suc fuel) p n m least load linked.0 linked.1 up
            ∙ ap
                (λ c.
                  if if c || leb 5 n.num_of_task then false else all_passed r
                  then ok (null, free_to_lock m)
                  else hang)
                (sym up)
        | inr down ↦ elim (Bool-cases (leb 5 n.num_of_task)) [
          | inl full ↦
              least_loop-full (suc fuel) p n m least load linked.0 linked.1 down full
              ∙ ap
                  (λ c.
                    if if c then false else all_passed r then ok (null, free_to_lock m) else hang)
                  (ap₂ ◌||◌ (sym down) (sym full))
          | inr few ↦
              rw (==_of_ne p null linked.0)
                (rw linked.1 (rw down (rw linked.1 (rw linked.1 (rw (few, linked.2) (later _ _))))))
        ]
      ]

  -- get_least_used_worker returns no node: where each node of the list is marked dead and has fewer
  -- than 5 tasks it returns NULL, and otherwise it does not return as long as no other thread changes
  -- the nodes. A round for each node and one more are enough to return.
  pub get_least_used_worker-null :
      (fuel : ℕ) (m : Ptr → Option (Node F)) (cells : List (Ptr × Node F))
      → length cells < fuel
      → LinkedNodes m cells
      → get_least_used_worker fuel (first_of cells) (free_to_lock m)
        ≡ (if all_passed cells then ok (null, free_to_lock m) else hang)
  unfolding get_least_used_worker
  get_least_used_worker-null fuel m cells enough linked =
      least_loop-past fuel m cells null (F.of_ℕ 1000) enough linked
