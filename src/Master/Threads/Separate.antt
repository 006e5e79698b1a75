-- ===== src/Master/Threads/Separate.antt =====
-- The descriptors stay apart whatever the order of the three threads.
use pi_296_cluster.Prelude.{
  ◌≡◌, refl, subst, true, false, Bool, Option, none, some, List, [], ◌∷◌, if◌then◌else◌, Outcome,
  ok, fault, hang, ◌>>=◌, Ensures-if, Ensures-bind, Ensures-ok,
}
use pi_296_cluster.Kernel.{Bytes}
use pi_296_cluster.Master.{Worker}
use pi_296_cluster.Master.Floats.{Double}
use pi_296_cluster.Master.System.{System}
use pi_296_cluster.Master.Heartbeat.Revival.{worker_fds-report_heartbeat}
use pi_296_cluster.Master.Events.Reading.{IsSeparate}
use pi_296_cluster.Master.Recovery.{detect}
use pi_296_cluster.Master.Recovery.Sweeping.{Alike, detect-Alike}
use pi_296_cluster.Master.Loop.{on_event}
use pi_296_cluster.Master.Loop.Separate.{Free, on_event-Separate}
use pi_296_cluster.Master.Threads.{
  Process, ThreadTurn, event, datagram, check, listen, with_system, take_turn, run_threads,
}

module _ {F : Double} where
  Alike-Separate : (s s' : System F) → IsSeparate s → Alike s s' → IsSeparate s'
  Alike-Separate s s' h (fds, own) = rw (fds, own) h

  abbrev Kept : Option (Process F) → Type 0
  Kept none = Unit {0}
  Kept (some p) = IsSeparate p.system

  either_way :
      (c : Bool) (p q : Process F)
      → IsSeparate p.system
      → IsSeparate q.system
      → IsSeparate (if c then p else q).system
  either_way true p q h k = h
  either_way false p q h k = k

  abbrev pub AnyFree : ThreadTurn F → Process F → Type 0
  AnyFree (event e) p = Free e p.system
  AnyFree (datagram now memory received) p = Unit {0}
  AnyFree (check now env) p = Unit {0}

  module _ (atof : Bytes → F.D) (garbage : Worker F) where
    -- At each turn, in the state that those before it lead to, accept gives descriptors not in use.
    abbrev pub Allowed : List (ThreadTurn F) → Process F → Type 0
    Allowed [] p = Unit {0}
    Allowed (t ∷ ts) p =
        AnyFree t p × ((p' : Process F) → take_turn atof garbage t p ≡ ok (some p') → Allowed ts p')

    listen-Alike :
        (memory : Bytes) (now : F.D) (received : Option (Bytes × Bytes)) (p : Process F)
        → Alike p.system (listen atof memory now received p).system
    unfolding listen
    listen-Alike memory now none p = (refl, refl)
    listen-Alike memory now (some (addr, bytes)) p =
        (worker_fds-report_heartbeat addr _ now p.system.workers, refl)

    take_turn-Separate :
        (t : ThreadTurn F) (p p' : Process F)
        → IsSeparate p.system
        → AnyFree t p
        → take_turn atof garbage t p ≡ ok (some p')
        → IsSeparate p'.system
    unfolding take_turn
    take_turn-Separate (event e) p p' h free runs = went (on_event garbage e p.system) refl runs
      where
        went :
            (m : Outcome (Option (System F)))
            → on_event garbage e p.system ≡ m
            → (m >>= λ r. ok (with_system p r)) ≡ ok (some p')
            → IsSeparate p'.system
        went (ok none) was e' = cc
        went (ok (some s)) was e' =
            let same : record p { system = s } ≡ p' = cc e' in
            subst (λ q. IsSeparate q.system) same
              (on_event-Separate garbage e p.system s h free was)
        went fault was e' = cc
        went hang was e' = cc
    take_turn-Separate (datagram now memory received) p p' h free runs =
        let same : (if p.listening then listen atof memory now received p else p) ≡ p' = cc runs in
        subst (λ q. IsSeparate q.system) same
          (either_way p.listening (listen atof memory now received p) p
            (Alike-Separate p.system (listen atof memory now received p).system h
              (listen-Alike memory now received p))
            h)
    take_turn-Separate (check now env) p p' h free runs =
        Ensures-ok Kept (take_turn atof garbage (check now env) p) (some p') runs (
          Ensures-if Kept p.keep_update _ (ok (some p))
            (Ensures-bind (Alike p.system) Kept (detect garbage env now p.system) _
              (detect-Alike garbage env now p.system) (λ s same. Alike-Separate p.system s h same))
            h)

    -- If no two workers have the same descriptor and none has that of the interface, then this holds
    -- in every state that the three threads of the master lead to, in any order of their turns, when
    -- accept gives only descriptors not in use.
    pub run_threads-IsSeparate :
        (ts : List (ThreadTurn F)) (p p' : Process F)
        → IsSeparate p.system
        → Allowed ts p
        → run_threads atof garbage ts p ≡ ok (some p')
        → IsSeparate p'.system
    unfolding run_threads
    run_threads-IsSeparate [] p p' h g runs =
        let same : p ≡ p' = cc runs in subst (λ q. IsSeparate q.system) same h
    run_threads-IsSeparate (t ∷ ts) p p' h g runs =
        next (take_turn atof garbage t p) refl runs
          (λ q was. run_threads-IsSeparate ts q p' (take_turn-Separate t p q h g.0 was) (g.1 q was))
      where
        next :
            (r : Outcome (Option (Process F)))
            → take_turn atof garbage t p ≡ r
            → (r >>= λ o. elim o as (λ _. Outcome (Option (Process F))) [
              | none ↦ ok none
              | some q ↦ run_threads atof garbage ts q
            ])
              ≡ ok (some p')
            → ((q : Process F)
                → take_turn atof garbage t p ≡ ok (some q)
                → run_threads atof garbage ts q ≡ ok (some p')
                → IsSeparate p'.system)
            → IsSeparate p'.system
        next (ok none) was e rest = cc
        next (ok (some q)) was e rest = rest q was e
        next fault was e rest = cc
        next hang was e rest = cc
