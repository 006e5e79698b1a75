-- ===== src/Queue/Monitor/Settled.antt =====
-- No thread sleeps for a condition that holds: broadcasts on the size 1 after a push, and on one
-- below the limit after a pull, are enough.
use pi_296_cluster.Prelude.{
  ℤ, pos, negsuc, is_positive, pos_part, ℕ, zero, suc, ◌+◌, ◌-◌, ◌≡◌, refl, Bool, true, false, ◌&&◌,
  Option, some, List, [], ◌∷◌, arith, ◌==◌, get_elem?, set,
}
use pi_296_cluster.Queue.{Queue, is_full, is_empty, push_wakes, pull_wakes}
use pi_296_cluster.Queue.Monitor.{
  Call, push, pull, Phase, at_lock, asleep, finished, blocked, broadcast, leave,
}

-- Below the limit by one after a pull: `queue_pull` broadcasts.
full_wakes :
    (m : ℤ) (size : ℕ)
    → (is_positive m && ((size - 1) == pos_part m - 1)) ≡ false
    → (is_positive m && (size == pos_part m)) ≡ true
    → ⊥
full_wakes (pos n) size quiet full = ground arith
full_wakes (negsuc n) size quiet full = cc

module _ {A : Type 0} where
  -- Every thread that sleeps is blocked.
  abbrev pub IsSettled : Queue A → List (Phase A) → Type 0
  IsSettled q [] = Unit {0}
  IsSettled q (asleep c ∷ ps) = (blocked q c ≡ true) × IsSettled q ps
  IsSettled q (at_lock c ∷ ps) = IsSettled q ps
  IsSettled q (finished r ∷ ps) = IsSettled q ps

  abbrev pub NoneAsleep : List (Phase A) → Type 0
  NoneAsleep [] = Unit {0}
  NoneAsleep (asleep c ∷ ps) = ⊥
  NoneAsleep (at_lock c ∷ ps) = NoneAsleep ps
  NoneAsleep (finished r ∷ ps) = NoneAsleep ps

  pub NoneAsleep-IsSettled : (q : Queue A) (ps : List (Phase A)) → NoneAsleep ps → IsSettled q ps
  NoneAsleep-IsSettled q [] n = tt
  NoneAsleep-IsSettled q (asleep c ∷ ps) n = absurd n
  NoneAsleep-IsSettled q (at_lock c ∷ ps) n = NoneAsleep-IsSettled q ps n
  NoneAsleep-IsSettled q (finished r ∷ ps) n = NoneAsleep-IsSettled q ps n

  pub NoneAsleep-broadcast : (ps : List (Phase A)) → NoneAsleep (broadcast ps)
  NoneAsleep-broadcast [] = tt
  NoneAsleep-broadcast (asleep c ∷ ps) = NoneAsleep-broadcast ps
  NoneAsleep-broadcast (at_lock c ∷ ps) = NoneAsleep-broadcast ps
  NoneAsleep-broadcast (finished r ∷ ps) = NoneAsleep-broadcast ps

  -- Where no call is blocked nobody sleeps.
  pub open-NoneAsleep :
      (q : Queue A) (ps : List (Phase A))
      → ((c : Call A) → blocked q c ≡ true → ⊥)
      → IsSettled q ps
      → NoneAsleep ps
  open-NoneAsleep q [] free s = tt
  open-NoneAsleep q (asleep c ∷ ps) free s = free c s.0
  open-NoneAsleep q (at_lock c ∷ ps) free s = open-NoneAsleep q ps free s
  open-NoneAsleep q (finished r ∷ ps) free s = open-NoneAsleep q ps free s

  pub NoneAsleep-set :
      (ps : List (Phase A)) (i : ℕ) (r : Option A)
      → NoneAsleep ps
      → NoneAsleep (set ps i (finished r))
  NoneAsleep-set [] i r n = tt
  NoneAsleep-set (asleep c ∷ ps) i r n = absurd n
  NoneAsleep-set (at_lock c ∷ ps) zero r n = n
  NoneAsleep-set (at_lock c ∷ ps) (suc i) r n = NoneAsleep-set ps i r n
  NoneAsleep-set (finished c ∷ ps) zero r n = n
  NoneAsleep-set (finished c ∷ ps) (suc i) r n = NoneAsleep-set ps i r n

  -- A thread that goes to sleep blocked, and one that is woken.
  pub IsSettled-sleep :
      (q : Queue A) (ps : List (Phase A)) (i : ℕ) (c : Call A)
      → blocked q c ≡ true
      → IsSettled q ps
      → IsSettled q (set ps i (asleep c))
  IsSettled-sleep q [] i c b s = tt
  IsSettled-sleep q (asleep d ∷ ps) zero c b s = (b, s.1)
  IsSettled-sleep q (asleep d ∷ ps) (suc i) c b s = (s.0, IsSettled-sleep q ps i c b s.1)
  IsSettled-sleep q (at_lock d ∷ ps) zero c b s = (b, s)
  IsSettled-sleep q (at_lock d ∷ ps) (suc i) c b s = IsSettled-sleep q ps i c b s
  IsSettled-sleep q (finished d ∷ ps) zero c b s = (b, s)
  IsSettled-sleep q (finished d ∷ ps) (suc i) c b s = IsSettled-sleep q ps i c b s

  pub IsSettled-wake :
      (q : Queue A) (ps : List (Phase A)) (i : ℕ) (c : Call A)
      → IsSettled q ps
      → IsSettled q (set ps i (at_lock c))
  IsSettled-wake q [] i c s = tt
  IsSettled-wake q (asleep d ∷ ps) zero c s = s.1
  IsSettled-wake q (asleep d ∷ ps) (suc i) c s = (s.0, IsSettled-wake q ps i c s.1)
  IsSettled-wake q (at_lock d ∷ ps) zero c s = s
  IsSettled-wake q (at_lock d ∷ ps) (suc i) c s = IsSettled-wake q ps i c s
  IsSettled-wake q (finished d ∷ ps) zero c s = s
  IsSettled-wake q (finished d ∷ ps) (suc i) c s = IsSettled-wake q ps i c s

  -- A call leaves: either all are woken, or nobody was asleep.
  pub leave-IsSettled :
      (q : Queue A) (ps : List (Phase A)) (i : ℕ) (r : Option A) (wakes : Bool)
      → (wakes ≡ false → NoneAsleep ps)
      → IsSettled q (leave i r wakes q ps).threads
  leave-IsSettled q ps i r true n =
      NoneAsleep-IsSettled q (broadcast (set ps i (finished r)))
        (NoneAsleep-broadcast (set ps i (finished r)))
  leave-IsSettled q ps i r false n =
      NoneAsleep-IsSettled q (set ps i (finished r)) (NoneAsleep-set ps i r (n refl))

  -- After a push that wakes nobody, no call was blocked before it; so after a pull.
  pub open_before_push :
      (q q' : Queue A) (c : Call A)
      → is_full q ≡ false
      → q'.size ≡ q.size + 1
      → push_wakes q' ≡ false
      → blocked q c ≡ true
      → ⊥
  open_before_push q q' (push x) free grown quiet b = cc
  open_before_push q q' pull free grown quiet b = ground arith

  pub open_before_pull :
      (q q' : Queue A) (c : Call A)
      → is_empty q ≡ false
      → q'.size ≡ q.size - 1
      → q'.max_size ≡ q.max_size
      → pull_wakes q' ≡ false
      → blocked q c ≡ true
      → ⊥
  open_before_pull q q' (push x) some_left shrunk same quiet b =
      full_wakes q.max_size q.size (rw (← same, ← shrunk) quiet) b
  open_before_pull q q' pull some_left shrunk same quiet b = cc

  pub IsSettled-blocked :
      (q : Queue A) (ps : List (Phase A)) (i : ℕ) (c : Call A)
      → IsSettled q ps
      → get_elem? ps i ≡ some (asleep c)
      → blocked q c ≡ true
  IsSettled-blocked q [] i c s e = cc
  IsSettled-blocked q (asleep d ∷ ps) zero c s e = let same : d ≡ c = cc in rw (← same) s.0
  IsSettled-blocked q (asleep d ∷ ps) (suc i) c s e = IsSettled-blocked q ps i c s.1 e
  IsSettled-blocked q (at_lock d ∷ ps) zero c s e = cc
  IsSettled-blocked q (at_lock d ∷ ps) (suc i) c s e = IsSettled-blocked q ps i c s e
  IsSettled-blocked q (finished d ∷ ps) zero c s e = cc
  IsSettled-blocked q (finished d ∷ ps) (suc i) c s e = IsSettled-blocked q ps i c s e
