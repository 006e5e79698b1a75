-- ===== src/Queue/Fifo.antt =====
-- `enqueue` and `dequeue` on the list of payloads that a queue holds.
use pi_296_cluster.Prelude.{
  ℤ, ◌+◌, ◌-◌, ◌≡◌, ◌≢◌, refl, sym, none, some, [], ◌∷◌, ◌++◌, arith, ◌==◌, length-append, ok,
  if◌then◌else◌, ==_of_ne,
}
use pi_296_cluster.Queue.{Ptr, null, queue_node, Heap, Queue, write, create, enqueue, dequeue}
use pi_296_cluster.Queue.Chain.{
  Cells, first, last, Linked, IsQueue, load-ok, Linked-write, append_cell, Linked-snoc, last-snoc,
}

module _ {A : Type 0} where
  -- `queue_create` makes a queue that holds nothing.
  pub create-IsQueue : (m : ℤ) (c : A → A) (h : Heap A) → IsQueue (create m c h) []
  unfolding create
  create-IsQueue m c h = record { at_head = refl; at_tail = refl; count = refl; linked = tt }

  enqueue-run :
      (q : Queue A) (fresh t : Ptr) (x w : A)
      → q.head ≢ null
      → q.tail ≡ t
      → t ≢ null
      → write q.heap fresh (some (queue_node (q.copy_constructor x) null)) t
        ≡ some (queue_node w null)
      → enqueue fresh x q
        ≡ ok (record q {
          tail = fresh;
          size = q.size + 1;
          heap = append_cell q.heap t w fresh (q.copy_constructor x);
        })
  unfolding enqueue
  enqueue-run q fresh t x w ne at_tail ne_tail holds = rw (
    ==_of_ne q.head null ne,
    at_tail,
    load-ok (write q.heap fresh (some (queue_node (q.copy_constructor x) null))) t ne_tail holds,
  )

  dequeue-run :
      (q : Queue A) (p n : Ptr) (x : A)
      → q.head ≡ p
      → p ≢ null
      → q.heap p ≡ some (queue_node x n)
      → dequeue q
        ≡ ok (
          x,
          record q {
            head = n;
            tail = if n == null then null else q.tail;
            size = q.size - 1;
            heap = write q.heap p none;
          },
        )
  unfolding dequeue
  dequeue-run q p n x at_head ne holds = rw (at_head, load-ok q.heap p ne holds)

  tail-dequeue :
      (h : Heap A) (p t : Ptr) (x : A) (r : Cells A)
      → Linked h r
      → t ≡ last ((p, x) ∷ r)
      → (if first r == null then null else t) ≡ last r
  tail-dequeue h p t x [] l e = refl
  tail-dequeue h p t x ((d, y) ∷ r) l e = rw (==_of_ne d null l.0) e

  -- With an unused address from malloc, `queue_push` does not fault and puts a copy of the element
  -- behind the cells of the queue; nothing else of the queue changes.
  pub enqueue-snoc :
      (q : Queue A) (cells : Cells A) (fresh : Ptr) (x : A)
      → IsQueue q cells
      → fresh ≢ null
      → q.heap fresh ≡ none
      → (q' : Queue A) × (enqueue fresh x q ≡ ok q')
        × IsQueue q' (cells ++ ((fresh, q.copy_constructor x) ∷ []))
        × (q'.copy_constructor ≡ q.copy_constructor)
        × (q'.max_size ≡ q.max_size)
  unfolding enqueue write
  enqueue-snoc q [] fresh x is ne unused = (
    record q {
      head = fresh;
      tail = fresh;
      size = q.size + 1;
      heap = write q.heap fresh (some (queue_node (q.copy_constructor x) null));
    },
    rw is.at_head,
    record {
      at_head = refl;
      at_tail = refl;
      count = omega (arith, is.count);
      linked = (ne, ground arith, refl, tt);
    },
    refl,
    refl,
  )
  enqueue-snoc q ((p, z) ∷ r) fresh x is ne unused =
      let y : A = q.copy_constructor x in
      let (w, holds, ne_null, linked) = Linked-snoc q.heap (p, z) r fresh y ne unused is.linked in
      (
        record q {
          tail = fresh;
          size = q.size + 1;
          heap = append_cell q.heap (last ((p, z) ∷ r)) w fresh y;
        },
        enqueue-run q fresh (last ((p, z) ∷ r)) x w (ground (arith, is.at_head, is.linked.0))
            is.at_tail ne_null holds,
        record {
          at_head = is.at_head;
          at_tail = sym (last-snoc fresh y ((p, z) ∷ r));
          count = omega (arith, is.count, length-append r ((fresh, y) ∷ []));
          linked = linked;
        },
        refl,
        refl,
      )

  -- On a queue that holds something `queue_pull` does not fault, returns the payload of the first
  -- cell, frees that cell alone, and leaves the others in order.
  pub dequeue-uncons :
      (q : Queue A) (p : Ptr) (x : A) (r : Cells A)
      → IsQueue q ((p, x) ∷ r)
      → (q' : Queue A) × (dequeue q ≡ ok (x, q'))
        × IsQueue q' r
        × (q'.heap ≡ write q.heap p none)
        × (q'.copy_constructor ≡ q.copy_constructor)
        × (q'.max_size ≡ q.max_size)
  unfolding dequeue
  dequeue-uncons q p x r is = (
    record q {
      head = first r;
      tail = if first r == null then null else q.tail;
      size = q.size - 1;
      heap = write q.heap p none;
    },
    dequeue-run q p (first r) x is.at_head is.linked.0 is.linked.1,
    record {
      at_head = refl;
      at_tail = tail-dequeue q.heap p q.tail x r is.linked.3 is.at_tail;
      count = omega (arith, is.count);
      linked = Linked-write q.heap p none r is.linked.2 is.linked.3;
    },
    refl,
    refl,
    refl,
  )
