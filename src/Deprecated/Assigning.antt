-- ===== src/Deprecated/Assigning.antt =====
-- deprecated/scheduler.h and scheduler.c: the queue of tasks and their way to the nodes. The static
-- variable `tasks` is `none` where it is NULL. `fuel` is a bound on the rounds over the nodes; no other
-- thread changes a node during a call.
pub mod Least
pub mod Rotating
use pi_296_cluster.Prelude.{
  ℕ, zero, suc, ◌+◌, ◌*◌, Bool, true, false, not, Option, none, some, List, [], ◌∷◌, ◌==◌, leb,
  if◌then◌else◌, pos, same_int, get_elem?, set, Outcome, ok, fault, hang, ◌>>=◌, within,
}
use pi_296_cluster.Queue.{Ptr, null}
use pi_296_cluster.Master.Floats.{Double}
use pi_296_cluster.Deprecated.Nodes.{
  max_tasks_per_node, Node, Nodes, load_node, put_node, is_alive, get_num_of_task, set_num_of_task,
}
use pi_296_cluster.Deprecated.TaskQueue.{
  TaskQueue, queue_create, queue_push, queue_empty, queue_pull,
}

pub record Assignment (F : Double) : Type 0 where
  pub nodes : Nodes F
  pub tasks : Option TaskQueue

-- The loop over the slots of a node, from `i` on: the slots after it, if one is free.
pub fill_slot : ℕ → ℕ → Ptr → List Ptr → Outcome (Option (List Ptr))
fill_slot zero i work task_list = ok none
fill_slot (suc rounds) i work task_list = do
  slot ← within (get_elem? task_list i)
  let rest = fill_slot rounds (i + 1) work task_list
  if slot == null then ok (some (set task_list i work)) else rest

-- The loop of remove_tasks.
pub remove_slot : ℕ → ℕ → Ptr → List Ptr → Outcome (List Ptr)
remove_slot zero i work task_list = ok task_list
remove_slot (suc rounds) i work task_list = do
  slot ← within (get_elem? task_list i)
  let rest = remove_slot rounds (i + 1) work task_list
  if slot == work then ok (set task_list i null) else rest

module _ {F : Double} where
  -- The loop of get_least_used_worker: `continue` goes back to its test with the same node. What is
  -- returned is `cur`.
  pub least_loop : ℕ → Ptr → Ptr → F.D → Nodes F → Outcome (Ptr × Nodes F)
  least_loop zero cur least_used least_load_factor s = hang
  least_loop (suc fuel) cur least_used least_load_factor s =
      let again = λ (s : Nodes F). least_loop fuel cur least_used least_load_factor s in
      let round : Outcome (Ptr × Nodes F) = (do
        (alive, s) ← is_alive cur s
        let dead : Outcome (Ptr × Nodes F) = (do
          (num, s) ← get_num_of_task cur s
          n ← load_node cur s
          let load_factor = F.add n.cur_load (F.of_ℕ (num * 2))
          let less = F.lt load_factor least_load_factor
          let next =
              least_loop fuel n.next (if less then cur else least_used)
                (if less then load_factor else least_load_factor) s
          if leb 5 num then again s else next)
        if same_int alive (pos 0) then dead else again s) in
      if cur == null then ok (cur, s) else round

  pub get_least_used_worker : ℕ → Ptr → Nodes F → Outcome (Ptr × Nodes F)
  unfolding least_loop
  get_least_used_worker fuel workers s = least_loop fuel workers null (F.of_ℕ 1000) s

  pub push_task : Ptr → Ptr → Assignment F → Outcome (Assignment F)
  push_task node work s = do
    q ← within s.tasks
    q ← queue_push node work q
    ok (record s { tasks = some q })

  pub schedule_task : Ptr → Ptr → Assignment F → Outcome (Assignment F)
  unfolding push_task
  schedule_task node work s =
      let tasks : TaskQueue = elim s.tasks [ none ↦ queue_create | some q ↦ q ] in
      push_task node work (record s { tasks = some tasks })

  -- The return value, 0 or 1.
  pub distribute_task : ℕ → Ptr → Ptr → Ptr → Assignment F → Outcome (ℕ × Assignment F)
  unfolding get_least_used_worker push_task fill_slot
  distribute_task fuel node workers work s = do
    (the_one, nodes) ← get_least_used_worker fuel workers s.nodes
    let kept : Outcome (ℕ × Assignment F) = (do
      s ← push_task node work (record s { nodes = nodes })
      ok (0, s))
    let given : Outcome (ℕ × Assignment F) = (do
      n ← load_node the_one nodes
      slots ← fill_slot 5 0 work n.task_list
      elim slots [
        | none ↦ ok (0, record s { nodes = nodes })
        | some task_list ↦ (do
          let nodes = put_node the_one (some (record n { task_list = task_list })) nodes
          (num, nodes) ← get_num_of_task the_one nodes
          nodes ← set_num_of_task the_one (num + 1) nodes
          ok (1, record s { nodes = nodes }))
      ])
    if the_one == null then kept else given

  -- The loop has a round for each task in the queue and one more. malloc returns `node rounds` in the
  -- round that has `rounds` left.
  pub spread_loop : ℕ → (ℕ → Ptr) → ℕ → Ptr → Assignment F → Outcome (Assignment F)
  unfolding distribute_task
  spread_loop zero node fuel workers s = hang
  spread_loop (suc rounds) node fuel workers s = do
    q ← within s.tasks
    let round : Outcome (Assignment F) = (do
      (pulled, q) ← queue_pull q
      work ← within pulled
      (given, s) ← distribute_task fuel (node rounds) workers work (record s { tasks = some q })
      let later = spread_loop rounds node fuel workers s
      if given == 0 then ok s else later)
    if queue_empty q then ok s else round

  pub get_task_from_queue_onto_nodes : (ℕ → Ptr) → ℕ → Ptr → Assignment F → Outcome (Assignment F)
  unfolding spread_loop
  get_task_from_queue_onto_nodes node fuel workers s = do
    q ← within s.tasks
    spread_loop (suc q.size) node fuel workers s

  -- The loop returns in its first round.
  pub recover_tasks : Ptr → Ptr → Assignment F → Outcome (Assignment F)
  unfolding push_task
  recover_tasks node worker s =
      let recovered : Outcome (Assignment F) = (do
        n ← load_node worker s.nodes
        work ← within (get_elem? n.task_list 0)
        push_task node work s) in
      if worker == null then ok s else recovered

  pub remove_tasks : Ptr → Ptr → Nodes F → Outcome (Nodes F)
  unfolding remove_slot
  remove_tasks worker work s =
      let removed : Outcome (Nodes F) = (do
        n ← load_node worker s
        task_list ← remove_slot max_tasks_per_node 0 work n.task_list
        ok (put_node worker (some (record n { task_list = task_list })) s)) in
      if worker == null then ok s else removed
