-- ===== src/Queue.antt =====
-- queue.h and queue.c: a linked queue that several threads share, with a limit on its size.
-- Nodes are on a heap. `enqueue` and `dequeue` are what `queue_push` and `queue_pull` do once they
-- hold the lock and need not wait; `Monitor` has the waiting and the waking. `malloc` is given by the
-- address that it returns. A read through NULL or a freed address is a fault.
pub mod Chain
pub mod Fifo
pub mod Destroy
pub mod Monitor
mod Tests
use pi_296_cluster.Prelude.{
  ℤ, is_positive, pos_part, ℕ, zero, suc, ◌+◌, ◌-◌, Bool, true, false, ◌&&◌, Option, none, some,
  List, [], ◌∷◌, ltb, ◌==◌, if◌then◌else◌, Outcome, ok, fault, hang, ◌>>=◌, within,
}

abbrev pub Ptr : Type 0
Ptr = ℕ

abbrev pub null : Ptr
null = 0

pub record QueueNode (A : Type 0) : Type 0 where
  pub payload : A
  pub next : Ptr

abbrev pub queue_node : {A : Type 0} → A → Ptr → QueueNode A
queue_node x p = record { payload = x; next = p }

abbrev pub Heap : Type 0 → Type 0
Heap A = Ptr → Option (QueueNode A)

-- The fields of `queue` without its lock and condition variable, and the memory of its nodes. `size`
-- counts nodes, so it does not overflow.
pub record Queue (A : Type 0) : Type 0 where
  pub copy_constructor : A → A
  pub head : Ptr
  pub tail : Ptr
  pub size : ℕ
  pub max_size : ℤ
  pub heap : Heap A

module _ {A : Type 0} where
  unfoldable pub write : Heap A → Ptr → Option (QueueNode A) → Heap A
  write h p c a = if a == p then c else h a

  pub create : ℤ → (A → A) → Heap A → Queue A
  create max_size copy_constructor heap = record {
    copy_constructor = copy_constructor;
    head = null;
    tail = null;
    size = 0;
    max_size = max_size;
    heap = heap;
  }

  pub load : Heap A → Ptr → Outcome (QueueNode A)
  load h p = if p == null then fault else within (h p)

  -- The test of the loop that `queue_push` waits in, and that of `queue_pull`.
  abbrev pub is_full : Queue A → Bool
  is_full this = is_positive this.max_size && (this.size == pos_part this.max_size)

  abbrev pub is_empty : Queue A → Bool
  is_empty this = this.size == 0

  pub enqueue : Ptr → A → Queue A → Outcome (Queue A)
  unfolding load write
  enqueue node x this =
      let h : Heap A = write this.heap node (some (queue_node (this.copy_constructor x) null)) in
      if this.head == null
      then ok (record this { head = node; tail = node; size = this.size + 1; heap = h })
      else do
        last ← load h this.tail
        ok (record this {
          tail = node;
          size = this.size + 1;
          heap = write h this.tail (some (record last { next = node }));
        })

  pub dequeue : Queue A → Outcome (A × Queue A)
  unfolding load write
  dequeue this = do
    node ← load this.heap this.head
    ok (
      node.payload,
      record this {
        head = node.next;
        tail = if node.next == null then null else this.tail;
        size = this.size - 1;
        heap = write this.heap this.head none;
      },
    )

  -- `queue_push` and `queue_pull` broadcast under these tests, on the new size.
  abbrev pub push_wakes : Queue A → Bool
  push_wakes this = this.size == 1

  abbrev pub pull_wakes : Queue A → Bool
  pull_wakes this = is_positive this.max_size && (this.size == pos_part this.max_size - 1)

  -- The loop of `queue_destroy` on fuel: what the destructor is given, and the heap that is left.
  destroy_loop : ℕ → Ptr → Heap A → Outcome (List A × Heap A)
  destroy_loop zero cur h = hang
  destroy_loop (suc fuel) cur h =
      let body : Outcome (List A × Heap A) = (do
        temp ← load h cur
        (gone, h') ← destroy_loop fuel temp.next (write h cur none)
        ok (temp.payload ∷ gone, h')) in
      if cur == null then ok ([], h) else body

  pub destroy : Queue A → Outcome (List A × Heap A)
  unfolding destroy_loop
  destroy this = destroy_loop (this.size + 1) this.head this.heap
