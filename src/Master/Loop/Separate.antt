-- ===== src/Master/Loop/Separate.antt =====
-- The event loop keeps the descriptors apart.
use pi_296_cluster.Prelude.{
  ℕ, ◌≡◌, ◌≢◌, refl, ap, ◌∙◌, sym, true, false, Option, none, some, some-injective, subst, List, [],
  ◌∷◌, ◌++◌, arith, ℤ, pos, Outcome, ok, fault, hang, ◌>>=◌, Ensures-bind, Ensures-ok,
}
use pi_296_cluster.Master.{Worker, create_worker, reset_worker_for_parsing}
use pi_296_cluster.Master.Floats.{Double}
use pi_296_cluster.Master.System.{System}
use pi_296_cluster.Master.Events.{handle_data}
use pi_296_cluster.Master.Descriptors.{has_fd, has_fd-later, Distinct, worker_fds}
use pi_296_cluster.Master.Events.Reading.{Apart, IsSeparate}
use pi_296_cluster.Master.Events.Separate.{Left, handle_data-Ensures}
use pi_296_cluster.Master.Loop.{
  Accepted, accepted, no_more, accept_failed, Event, connections, arrived, accept_connections,
  on_event, event_loop,
}

has_fd-snoc :
    (n m : ℕ) (xs : List ℕ) → has_fd n xs ≡ false → m ≢ n → has_fd n (xs ++ (m ∷ [])) ≡ false
has_fd-snoc n m [] e other = ground arith
has_fd-snoc n m (x ∷ xs) e other =
    let (here, later) = has_fd-later n x xs e in rw (here, has_fd-snoc n m xs later other)

Distinct-snoc :
    (m : ℕ) (xs : List ℕ) → Distinct xs → has_fd m xs ≡ false → Distinct (xs ++ (m ∷ []))
Distinct-snoc m [] d e = (refl, tt)
Distinct-snoc m (x ∷ xs) d e =
    let (here, later) = has_fd-later m x xs e in
    (has_fd-snoc x m xs d.0 (λ same. ground (arith, here, same)), Distinct-snoc m xs d.1 later)

Apart-snoc :
    (i : ℤ) (m : ℕ) (xs : List ℕ)
    → Apart i xs
    → has_fd m xs ≡ false
    → i ≢ pos m
    → Apart i (xs ++ (m ∷ []))
Apart-snoc i m xs (d, apart) unused other = (
  Distinct-snoc m xs d unused,
  λ n e. has_fd-snoc n m xs (apart n e) (λ same. other (e ∙ ap pos (sym same))),
)

-- accept gives descriptors that no worker has and the interface has not.
abbrev pub Unused : List Accepted → ℤ → List ℕ → Type 0
Unused [] i fds = Unit {0}
Unused (no_more ∷ later) i fds = Unit {0}
Unused (accept_failed ∷ later) i fds = Unit {0}
Unused (accepted fd ip added ∷ later) i fds =
    ((has_fd fd fds ≡ false) × (i ≢ pos fd)) × Unused later i (fds ++ (fd ∷ []))

module _ {F : Double} where
  abbrev pub Free : Event → System F → Type 0
  Free (connections answers) s = Unused answers s.interface_fd (worker_fds s.workers)
  Free (arrived fd call) s = Unit {0}

  worker_fds-append :
      (ws vs : List (Worker F)) → worker_fds (ws ++ vs) ≡ worker_fds ws ++ worker_fds vs
  worker_fds-append [] vs = refl
  worker_fds-append (w ∷ ws) vs = ap (λ l. w.worker_fd ∷ l) (worker_fds-append ws vs)

  module _ (garbage : Worker F) where
    -- At each event of the list, in the state that those before it lead to.
    abbrev pub Granted : List Event → System F → Type 0
    Granted [] s = Unit {0}
    Granted (e ∷ es) s =
        Free e s × ((s' : System F) → on_event garbage e s ≡ ok (some s') → Granted es s')

    abbrev Opt : (System F → Type 0) → Option (System F) → Type 0
    Opt P none = Unit {0}
    Opt P (some s) = P s

    accept-Apart :
        (answers : List Accepted) (i : ℤ) (ws vs : List (Worker F))
        → Apart i (worker_fds ws)
        → Unused answers i (worker_fds ws)
        → accept_connections garbage answers ws ≡ some vs
        → Apart i (worker_fds vs)
    unfolding accept_connections create_worker reset_worker_for_parsing
    accept-Apart [] i ws vs h u e = let same : ws ≡ vs = some-injective ws vs e in rw⁻¹ same h
    accept-Apart (no_more ∷ later) i ws vs h u e =
        let same : ws ≡ vs = some-injective ws vs e in rw⁻¹ same h
    accept-Apart (accept_failed ∷ later) i ws vs h u e = cc
    accept-Apart (accepted fd ip true ∷ later) i ws vs h u e =
        let new = create_worker garbage fd ip in
        let fds : worker_fds (ws ++ (new ∷ [])) ≡ worker_fds ws ++ (fd ∷ []) =
          worker_fds-append ws (new ∷ []) in
        accept-Apart later i (ws ++ (new ∷ [])) vs
          (rw fds (Apart-snoc i fd (worker_fds ws) h u.0.0 u.0.1)) (rw fds u.1) e
    accept-Apart (accepted fd ip false ∷ later) i ws vs h u e = cc

    pub on_event-Separate :
        (e : Event) (s s' : System F)
        → IsSeparate s
        → Free e s
        → on_event garbage e s ≡ ok (some s')
        → IsSeparate s'
    unfolding on_event
    on_event-Separate (connections answers) s s' h u e =
        joined (accept_connections garbage answers s.workers) refl e
      where
        joined :
            (r : Option (List (Worker F)))
            → accept_connections garbage answers s.workers ≡ r
            → elim r as (λ _. Outcome (Option (System F))) [
              | none ↦ ok none
              | some workers ↦ ok (some (record s { workers = workers }))
            ]
              ≡ ok (some s')
            → IsSeparate s'
        joined none was e = cc
        joined (some ws) was e =
            let same : record s { workers = ws } ≡ s' = cc e in
            subst IsSeparate same (accept-Apart answers s.interface_fd s.workers ws h u was)
    on_event-Separate (arrived fd call) s s' h u e =
        Ensures-ok (Opt IsSeparate) (on_event garbage (arrived fd call) s) (some s') e (
          Ensures-bind Left (Opt IsSeparate) (handle_data call fd s) _
            (handle_data-Ensures call fd s h) (λ (s, left) h. h))

    -- If no two workers have the same descriptor and none has that of the interface, then this holds in
    -- every state that the event loop leads to, when accept gives only descriptors not in use.
    pub event_loop-IsSeparate :
        (es : List Event) (s s' : System F)
        → IsSeparate s
        → Granted es s
        → event_loop garbage es s ≡ ok (some s')
        → IsSeparate s'
    unfolding event_loop
    event_loop-IsSeparate [] s s' h g e = let same : s ≡ s' = cc e in subst IsSeparate same h
    event_loop-IsSeparate (x ∷ es) s s' h g e =
        next (on_event garbage x s) refl e
          (λ u was. event_loop-IsSeparate es u s' (on_event-Separate x s u h g.0 was) (g.1 u was))
      where
        next :
            (r : Outcome (Option (System F)))
            → on_event garbage x s ≡ r
            → (r >>= λ o. elim o as (λ _. Outcome (Option (System F))) [
              | none ↦ ok none
              | some s ↦ event_loop garbage es s
            ])
              ≡ ok (some s')
            → ((u : System F)
                → on_event garbage x s ≡ ok (some u)
                → event_loop garbage es u ≡ ok (some s')
                → IsSeparate s')
            → IsSeparate s'
        next (ok none) was e rest = cc
        next (ok (some u)) was e rest = rest u was e
        next fault was e rest = cc
        next hang was e rest = cc
