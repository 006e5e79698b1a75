-- ===== src/Deprecated/Nodes.antt =====
-- deprecated/node.h and node.c: the linked list of nodes, which one mutex guards. A lock of the mutex
-- by a thread that holds it never returns: the mutex is not a recursive one. The two buffers that
-- addNode takes from malloc and the files of a node are left out.
pub mod Growing
pub mod Shrinking
pub mod Searching
use pi_296_cluster.Prelude.{
  ℕ, zero, suc, Bool, true, false, not, ◌&&◌, Option, none, some, List, [], ◌∷◌, ◌==◌,
  if◌then◌else◌, ℤ, pos, minus_one, replicate, Outcome, ok, fault, hang, ◌>>=◌, within,
}
use pi_296_cluster.Kernel.{Bytes}
use pi_296_cluster.Queue.{Ptr, null}
use pi_296_cluster.Master.Floats.{Double}
use pi_296_cluster.Master.Scheduler.{str_eq}

-- MAX_TASKS_PER_NODE
abbrev pub max_tasks_per_node : ℕ
max_tasks_per_node = 5

pub record Node (F : Double) : Type 0 where
  pub socket_fd : ℕ
  pub alive : Bool
  pub task_no : ℕ
  pub task_pos : ℕ
  pub buf_size : ℕ
  pub buf_pos : ℕ
  pub buf_wip : Bool
  pub cur_load : F.D
  pub last_beat_received_time : F.D
  pub address : Bytes
  pub task_list : List Ptr
  pub num_of_task : ℕ
  pub next : Ptr

-- The memory of the nodes, and whether `node_list_m` is locked.
pub record Nodes (F : Double) : Type 0 where
  pub memory : Ptr → Option (Node F)
  pub locked : Bool

module _ {F : Double} where
  abbrev pub lock : Nodes F → Outcome (Nodes F)
  lock s = if s.locked then hang else ok (record s { locked = true })

  abbrev pub unlock : Nodes F → Nodes F
  unlock s = record s { locked = false }

  abbrev pub load_node : Ptr → Nodes F → Outcome (Node F)
  load_node p s = if p == null then fault else within (s.memory p)

  abbrev pub put_node : Ptr → Option (Node F) → Nodes F → Nodes F
  put_node p n s = record s { memory = λ q. if q == p then n else s.memory q }

  -- The getters lock, read and unlock; the setters lock, write and unlock.
  abbrev pub get_field : {A : Type 0} → (Node F → A) → Ptr → Nodes F → Outcome (A × Nodes F)
  get_field field p s = do s ← lock s; n ← load_node p s; ok (field n, unlock s)

  abbrev pub set_field : (Node F → Node F) → Ptr → Nodes F → Outcome (Nodes F)
  set_field change p s = do
    s ← lock s
    n ← load_node p s
    ok (unlock (put_node p (some (change n)) s))

  abbrev pub get_next : Ptr → Nodes F → Outcome (Ptr × Nodes F)
  get_next curr s = if curr == null then ok (null, s) else get_field (λ n. n.next) curr s

  abbrev pub set_next : Ptr → Ptr → Nodes F → Outcome (Nodes F)
  set_next prev next s = set_field (λ n. record n { next = next }) prev s

  abbrev pub set_last_beat_received_time : Ptr → F.D → Nodes F → Outcome (Nodes F)
  set_last_beat_received_time curr time s =
      set_field (λ n. record n { last_beat_received_time = time }) curr s

  abbrev pub set_load : Ptr → F.D → Nodes F → Outcome (Nodes F)
  set_load curr cpu_load s = set_field (λ n. record n { cur_load = cpu_load }) curr s

  abbrev pub get_load : Ptr → Nodes F → Outcome (F.D × Nodes F)
  get_load curr s = get_field (λ n. n.cur_load) curr s

  abbrev pub set_alive : Ptr → Bool → Nodes F → Outcome (Nodes F)
  set_alive curr alive s = set_field (λ n. record n { alive = alive }) curr s

  abbrev pub get_last_heartbeat_time : Ptr → Nodes F → Outcome (F.D × Nodes F)
  get_last_heartbeat_time curr s = get_field (λ n. n.last_beat_received_time) curr s

  abbrev pub get_address : Ptr → Nodes F → Outcome (Bytes × Nodes F)
  get_address curr s = get_field (λ n. n.address) curr s

  abbrev pub get_num_of_task : Ptr → Nodes F → Outcome (ℕ × Nodes F)
  get_num_of_task cur s = get_field (λ n. n.num_of_task) cur s

  abbrev pub set_num_of_task : Ptr → ℕ → Nodes F → Outcome (Nodes F)
  set_num_of_task cur num_of_task s = set_field (λ n. record n { num_of_task = num_of_task }) cur s

  -- -1 for NULL.
  abbrev pub is_alive : Ptr → Nodes F → Outcome (ℤ × Nodes F)
  is_alive cur s =
      if cur == null
      then ok (minus_one, s)
      else get_field (λ n. if n.alive then pos 1 else pos 0) cur s

  abbrev pub new_node : ℕ → Bytes → Node F
  new_node socket_fd address = record {
    socket_fd = socket_fd;
    alive = true;
    task_no = 0;
    task_pos = 0;
    buf_size = 4096;
    buf_pos = 0;
    buf_wip = false;
    cur_load = F.of_ℕ 0;
    last_beat_received_time = F.of_ℕ 0;
    address = address;
    task_list = replicate max_tasks_per_node null;
    num_of_task = 0;
    next = null;
  }

  -- The loop of addNode that looks for the last node, with more rounds than there are nodes.
  pub last_loop : ℕ → Ptr → Nodes F → Outcome (Ptr × Nodes F)
  last_loop zero temp s = hang
  last_loop (suc fuel) temp s = do
    (next, s) ← get_next temp s
    let rest = last_loop fuel next s
    if next == null then ok (temp, s) else rest

  -- `new` is what malloc returns; the head of the list is returned.
  pub add_node : ℕ → Ptr → ℕ → Bytes → Ptr → Nodes F → Outcome (Ptr × Nodes F)
  unfolding last_loop
  add_node fuel new socket_fd address head s = do
    s ← lock (put_node new (some (new_node socket_fd address)) s)
    let second : Outcome (Ptr × Nodes F) = (do
      (temp, s) ← last_loop fuel head s
      s ← set_next temp new s
      ok (head, s))
    if head == null then ok (new, unlock s) else second

  pub clean_node : Ptr → Nodes F → Outcome (Nodes F)
  clean_node to_free s = do n ← load_node to_free s; ok (put_node to_free none s)

  -- The loop of removeNode; it starts under the lock.
  pub remove_loop : ℕ → Ptr → Ptr → Nodes F → Outcome (Nodes F)
  unfolding clean_node
  remove_loop zero old holder s = hang
  remove_loop (suc fuel) old holder s =
      let round : Outcome (Nodes F) = (do
        n ← load_node holder s
        let found : Outcome (Nodes F) = (do
          o ← load_node old s
          clean_node old (unlock (put_node holder (some (record n { next = o.next })) s)))
        let later : Outcome (Nodes F) = (do
          (next, s) ← get_next holder s
          remove_loop fuel old next s)
        if n.next == old then found else later) in
      if holder == null then ok (unlock s) else round

  -- The head of the list is returned.
  pub remove_node : ℕ → Ptr → Ptr → Nodes F → Outcome (Ptr × Nodes F)
  unfolding clean_node remove_loop
  remove_node fuel old head s = do
    s ← lock s
    let first : Outcome (Ptr × Nodes F) = (do
      n ← load_node old s
      s ← clean_node old (unlock s)
      ok (n.next, s))
    let later : Outcome (Ptr × Nodes F) = (do s ← remove_loop fuel old head s; ok (head, s))
    if head == old then first else later

  pub free_all_nodes : ℕ → Ptr → Nodes F → Outcome (Nodes F)
  unfolding clean_node
  free_all_nodes zero iter s = hang
  free_all_nodes (suc fuel) iter s =
      let round : Outcome (Nodes F) = (do
        (temp, s) ← get_next iter s
        s ← clean_node iter s
        free_all_nodes fuel temp s) in
      if iter == null then ok s else round

  -- NULL where no node has the address.
  pub search_node_by_addr : ℕ → Bytes → Ptr → Nodes F → Outcome (Ptr × Nodes F)
  search_node_by_addr zero beat_addr temp s = hang
  search_node_by_addr (suc fuel) beat_addr temp s =
      let round : Outcome (Ptr × Nodes F) = (do
        (address, s) ← get_address temp s
        let later : Outcome (Ptr × Nodes F) = (do
          (next, s) ← get_next temp s
          search_node_by_addr fuel beat_addr next s)
        if str_eq beat_addr address then ok (temp, s) else later) in
      if temp == null then ok (null, s) else round
