-- ===== src/Queue/Chain.antt =====
-- Linked cells on the heap, and the list that a queue stands for.
use pi_296_cluster.Prelude.{
  ◌≡◌, ◌≢◌, ◌∙◌, sym, refl, ==_of_ne, Bool, true, false, ◌||◌, Option, none, some, List, [], ◌∷◌,
  ◌++◌, arith, ◌==◌, length, ok,
}
use pi_296_cluster.Queue.{Ptr, null, QueueNode, queue_node, Heap, Queue, write, load}

-- The address and the payload of each node, from the head.
abbrev pub Cells : Type 0 → Type 0
Cells A = List (Ptr × A)

module _ {A : Type 0} where
  abbrev pub has : Ptr → Cells A → Bool
  has a [] = false
  has a ((p, x) ∷ r) = (a == p) || has a r

  abbrev pub first : Cells A → Ptr
  first [] = null
  first ((p, x) ∷ r) = p

  abbrev pub last : Cells A → Ptr
  last [] = null
  last ((p, x) ∷ []) = p
  last (c ∷ d ∷ r) = last (d ∷ r)

  abbrev pub payloads : Cells A → List A
  payloads [] = []
  payloads ((p, x) ∷ r) = x ∷ payloads r

  -- The nodes are linked in this order, at distinct addresses, and the last one to NULL.
  abbrev pub Linked : Heap A → Cells A → Type 0
  Linked h [] = Unit {0}
  Linked h ((p, x) ∷ r) =
      (p ≢ null) × (h p ≡ some (queue_node x (first r))) × (has p r ≡ false) × Linked h r

  -- The queue's fields describe the linked cells.
  pub record IsQueue (q : Queue A) (cells : Cells A) : Type 0 where
    pub at_head : q.head ≡ first cells
    pub at_tail : q.tail ≡ last cells
    pub count : q.size ≡ length cells
    pub linked : Linked q.heap cells

  pub load-ok : (h : Heap A) (p : Ptr) {n : QueueNode A} → p ≢ null → h p ≡ some n → load h p ≡ ok n
  unfolding load
  load-ok h p ne e = ground arith

  -- A write elsewhere leaves the cells linked.
  pub Linked-write :
      (h : Heap A) (a : Ptr) (c : Option (QueueNode A)) (r : Cells A)
      → has a r ≡ false
      → Linked h r
      → Linked (write h a c) r
  unfolding write
  Linked-write h a c [] out l = tt
  Linked-write h a c ((p, x) ∷ r) out l =
      (l.0, ground arith, l.2, Linked-write h a c r (ground arith) l.3)

  pub not_has_of_none :
      (h : Heap A) (a : Ptr) (r : Cells A) → h a ≡ none → Linked h r → has a r ≡ false
  not_has_of_none h a [] unused l = refl
  not_has_of_none h a ((p, x) ∷ r) unused l = ground (arith, not_has_of_none h a r unused l.3)

  pub has-snoc :
      (a p : Ptr) (x : A) (r : Cells A) → has a (r ++ ((p, x) ∷ [])) ≡ (has a r || (a == p))
  has-snoc a p x [] = ground arith
  has-snoc a p x (c ∷ r) = ground (arith, has-snoc a p x r)

  pub payloads-snoc :
      (p : Ptr) (x : A) (r : Cells A) → payloads (r ++ ((p, x) ∷ [])) ≡ payloads r ++ (x ∷ [])
  payloads-snoc p x [] = refl
  payloads-snoc p x ((q, y) ∷ r) = rw (payloads-snoc p x r)

  pub last-snoc : (p : Ptr) (x : A) (r : Cells A) → last (r ++ ((p, x) ∷ [])) ≡ p
  last-snoc p x [] = refl
  last-snoc p x (c ∷ []) = refl
  last-snoc p x (c ∷ d ∷ r) = last-snoc p x (d ∷ r)

  pub length-payloads : (r : Cells A) → length (payloads r) ≡ length r
  length-payloads [] = refl
  length-payloads (c ∷ r) = omega (arith, length-payloads r)

  -- A cell at a fresh address, joined on behind the last one.
  abbrev pub append_cell : Heap A → Ptr → A → Ptr → A → Heap A
  append_cell h p x fresh y =
      write (write h fresh (some (queue_node y null))) p (some (queue_node x fresh))

  last_holds :
      (h : Heap A) (c : Ptr × A) (r : Cells A)
      → Linked h (c ∷ r)
      → (x : A) × (h (last (c ∷ r)) ≡ some (queue_node x null))
        × (last (c ∷ r) ≢ null)
        × (has (last (c ∷ r)) (c ∷ r) ≡ true)
  last_holds h (p, x) [] l = (x, l.1, l.0, ground arith)
  last_holds h (p, x) (d ∷ r) l =
      let (y, holds, ne, inside) = last_holds h d r l.3 in (y, holds, ne, ground arith)

  ne_of_has : (a b : Ptr) (cells : Cells A) → has a cells ≡ true → has b cells ≡ false → a ≢ b
  ne_of_has a b cells ha hb e = cc (rw e at ha, hb)

  ne_of_has_sym : (a b : Ptr) (cells : Cells A) → has a cells ≡ false → has b cells ≡ true → a ≢ b
  ne_of_has_sym a b cells ha hb e = ne_of_has b a cells hb ha (sym e)

  -- `g` is `h` with `fresh` joined on behind the cells.
  record Joined (h g : Heap A) (cells : Cells A) (fresh : Ptr) (y : A) : Type 0 where
    apart : has fresh cells ≡ false
    new : g fresh ≡ some (queue_node y null)
    turned :
        (x : A)
        → h (last cells) ≡ some (queue_node x null)
        → g (last cells) ≡ some (queue_node x fresh)
    same : (a : Ptr) → has a cells ≡ true → a ≢ last cells → g a ≡ h a

  Joined-tail :
      (h g : Heap A) (c d : Ptr × A) (r : Cells A) (fresh : Ptr) (y : A)
      → Joined h g (c ∷ d ∷ r) fresh y
      → Joined h g (d ∷ r) fresh y
  Joined-tail h g c d r fresh y j = record {
    apart = ground (arith, j.apart);
    new = j.new;
    turned = j.turned;
    same = λ a i ne. j.same a (ground arith) ne;
  }

  Linked-join :
      (h g : Heap A) (c : Ptr × A) (r : Cells A) (fresh : Ptr) (y : A)
      → fresh ≢ null
      → Linked h (c ∷ r)
      → Joined h g (c ∷ r) fresh y
      → Linked g ((c ∷ r) ++ ((fresh, y) ∷ []))
  Linked-join h g (p, x) [] fresh y ne l j =
      (l.0, j.turned x l.1, ground (arith, j.apart), (ne, j.new, refl, tt))
  Linked-join h g (p, x) ((q, z) ∷ r) fresh y ne l j =
      let (w, holds, ne_null, inside) = last_holds h (q, z) r l.3 in
      (
        l.0,
        j.same p (ground arith) (ne_of_has_sym p (last ((q, z) ∷ r)) ((q, z) ∷ r) l.2 inside) ∙ l.1,
        has-snoc p fresh y ((q, z) ∷ r) ∙ ground (arith, j.apart, l.2),
        Linked-join h g (q, z) r fresh y ne l.3 (Joined-tail h g (p, x) (q, z) r fresh y j),
      )

  Joined-append :
      (h : Heap A) (cells : Cells A) (p : Ptr) (x : A) (fresh : Ptr) (y : A)
      → last cells ≡ p
      → p ≢ fresh
      → h p ≡ some (queue_node x null)
      → has fresh cells ≡ false
      → Joined h (append_cell h p x fresh y) cells fresh y
  unfolding write
  Joined-append h cells p x fresh y at_last ne holds apart = record {
    apart = apart;
    new = ground arith;
    turned = λ z hz. rw at_last (ground (arith, rw at_last at hz));
    same = λ a i away.
        let spared : a ≢ p = rw at_last at away in
        let old : a ≢ fresh = ne_of_has a fresh cells i apart in ground arith;
  }

  pub Linked-snoc :
      (h : Heap A) (c : Ptr × A) (r : Cells A) (fresh : Ptr) (y : A)
      → fresh ≢ null
      → h fresh ≡ none
      → Linked h (c ∷ r)
      → (x : A) × (write h fresh (some (queue_node y null)) (last (c ∷ r))
          ≡ some (queue_node x null))
        × (last (c ∷ r) ≢ null)
        × Linked (append_cell h (last (c ∷ r)) x fresh y) ((c ∷ r) ++ ((fresh, y) ∷ []))
  unfolding write
  Linked-snoc h c r fresh y ne unused l =
      let (x, holds, ne_null, inside) = last_holds h c r l in
      let apart = not_has_of_none h fresh (c ∷ r) unused l in
      let differ : last (c ∷ r) ≢ fresh = ne_of_has (last (c ∷ r)) fresh (c ∷ r) inside apart in
      (
        x,
        rw (==_of_ne (last (c ∷ r)) fresh differ) holds,
        ne_null,
        Linked-join h (append_cell h (last (c ∷ r)) x fresh y) c r fresh y ne l
            (Joined-append h (c ∷ r) (last (c ∷ r)) x fresh y refl differ holds apart),
      )
