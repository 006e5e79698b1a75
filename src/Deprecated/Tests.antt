-- ===== src/Deprecated/Tests.antt =====
-- Runs of the earlier programs on small lists.
use pi_296_cluster.Prelude.{
  ◌≡◌, refl, false, Option, none, some, [], ◌∷◌, ◌==◌, if◌then◌else◌, arith, pos, minus_one, ok,
  hang,
}
use pi_296_cluster.Queue.{Ptr, null, queue_node}
use pi_296_cluster.Queue.Chain.{IsQueue}
use pi_296_cluster.Master.Samples.{whole_numbers}
use pi_296_cluster.Deprecated.Nodes.{Node, new_node, add_node}
use pi_296_cluster.Deprecated.Nodes.Growing.{add_node-second}
use pi_296_cluster.Deprecated.Nodes.Searching.{LinkedNodes, free_to_lock}
use pi_296_cluster.Deprecated.TaskQueue.{TaskQueue}
use pi_296_cluster.Deprecated.Assigning.{get_least_used_worker, get_task_from_queue_onto_nodes}
use pi_296_cluster.Deprecated.Assigning.Least.{get_least_used_worker-null}
use pi_296_cluster.Deprecated.Assigning.Rotating.{get_task_from_queue_onto_nodes-snoc}
use pi_296_cluster.Deprecated.Messages.{get_message_type}
use pi_296_cluster.Deprecated.Messages.Types.{get_message_type_lem}

-- Two nodes at 10 and 20.
abbrev second_node : Node whole_numbers
second_node = record (new_node 6 (b'b' ∷ [])) { alive = false; num_of_task = 2 }

abbrev first_node : Node whole_numbers
first_node = record (new_node 5 (b'a' ∷ [])) { alive = false; next = 20 }

abbrev memory : Ptr → Option (Node whole_numbers)
memory p = if p == 10 then some first_node else if p == 20 then some second_node else none

linked : LinkedNodes memory ((10, first_node) ∷ (20, second_node) ∷ [])
linked = (λ e. omega (arith, e), refl, refl, (λ e. omega (arith, e), refl, refl, tt))

add_node-second_example : add_node 3 30 7 [] 10 (free_to_lock memory) ≡ hang
add_node-second_example = add_node-second 3 30 7 [] 10 (free_to_lock memory) refl

get_least_used_worker-null_example :
    get_least_used_worker 3 10 (free_to_lock memory) ≡ ok (null, free_to_lock memory)
get_least_used_worker-null_example =
    get_least_used_worker-null 3 memory ((10, first_node) ∷ (20, second_node) ∷ []) (omega arith)
      linked

-- A queue with the tasks 7 and 8, at 40 and 50.
abbrev two_tasks : TaskQueue
two_tasks = record {
  copy_constructor = λ task. task;
  max_size = pos 0;
  head = 40;
  tail = 50;
  size = 2;
  heap = λ p.
      if p == 40
      then some (queue_node 7 50)
      else if p == 50
      then some (queue_node 8 null)
      else none;
}

two_tasks-IsQueue : IsQueue two_tasks ((40, 7) ∷ (50, 8) ∷ [])
two_tasks-IsQueue = record {
  at_head = refl;
  at_tail = refl;
  count = refl;
  linked = (λ e. omega (arith, e), refl, refl, (λ e. omega (arith, e), refl, refl, tt));
}

get_task_from_queue_onto_nodes-snoc_example :
    (q : TaskQueue) × (get_task_from_queue_onto_nodes
        (λ rounds. 60)
        3
        10
        (record { nodes = free_to_lock memory; tasks = some two_tasks })
      ≡ ok (record { nodes = free_to_lock memory; tasks = some q }))
    × IsQueue q ((50, 8) ∷ (60, 7) ∷ [])
get_task_from_queue_onto_nodes-snoc_example =
    get_task_from_queue_onto_nodes-snoc 3 (λ rounds. 60) memory
      ((10, first_node) ∷ (20, second_node) ∷ []) two_tasks 40 7 ((50, 8) ∷ []) (omega arith) linked
      two_tasks-IsQueue refl (λ e. omega (arith, e)) refl

-- 0x21 is a data file, 0x20 is not valid.
get_message_type_lem_example : get_message_type 33 ≡ pos 5
get_message_type_lem_example = get_message_type_lem 33 (omega arith)

invalid_type : get_message_type 32 ≡ minus_one
invalid_type = get_message_type_lem 32 (omega arith)
