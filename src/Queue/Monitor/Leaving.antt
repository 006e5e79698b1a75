-- ===== src/Queue/Monitor/Leaving.antt =====
-- What the end of a call does to the threads.
use pi_296_cluster.Prelude.{
  ℕ, zero, suc, ◌≡◌, ◌≢◌, ◌⊎◌, inl, inr, refl, sym, ◌∙◌, Bool, true, false, Option, some, List, [],
  ◌∷◌, get_elem?, set, get_elem?-set_same, get_elem?-set_other,
}
use pi_296_cluster.Queue.{Queue}
use pi_296_cluster.Queue.Monitor.{Call, Phase, at_lock, asleep, finished, broadcast, leave}

module _ {A : Type 0} where
  -- At that place the threads are the same, or one that slept is woken.
  abbrev pub SameOrWoken : ℕ → List (Phase A) → List (Phase A) → Type 0
  SameOrWoken j before after =
      (get_elem? after j ≡ get_elem? before j)
      ⊎ ((c : Call A) × (get_elem? before j ≡ some (asleep c))
          × (get_elem? after j ≡ some (at_lock c)))

  -- The thread at `i` has its result; the others are the same, or woken.
  abbrev pub Left : ℕ → Option A → List (Phase A) → List (Phase A) → Type 0
  Left i r before after =
      (get_elem? after i ≡ some (finished r)) × ((j : ℕ) → i ≢ j → SameOrWoken j before after)

  broadcast-SameOrWoken : (ps : List (Phase A)) (j : ℕ) → SameOrWoken j ps (broadcast ps)
  broadcast-SameOrWoken [] j = inl refl
  broadcast-SameOrWoken (asleep c ∷ ps) zero = inr (c, refl, refl)
  broadcast-SameOrWoken (at_lock c ∷ ps) zero = inl refl
  broadcast-SameOrWoken (finished r ∷ ps) zero = inl refl
  broadcast-SameOrWoken (p ∷ ps) (suc j) = broadcast-SameOrWoken ps j

  get_elem?-broadcast :
      (ps : List (Phase A)) (i : ℕ) (r : Option A)
      → get_elem? ps i ≡ some (finished r)
      → get_elem? (broadcast ps) i ≡ some (finished r)
  get_elem?-broadcast [] i r e = cc
  get_elem?-broadcast (asleep c ∷ ps) zero r e = cc
  get_elem?-broadcast (at_lock c ∷ ps) zero r e = cc
  get_elem?-broadcast (finished s ∷ ps) zero r e = e
  get_elem?-broadcast (p ∷ ps) (suc i) r e = get_elem?-broadcast ps i r e

  SameOrWoken-set :
      (ps after : List (Phase A)) (i j : ℕ) (p : Phase A)
      → i ≢ j
      → SameOrWoken j (set ps i p) after
      → SameOrWoken j ps after
  SameOrWoken-set ps after i j p apart (inl same) = inl (same ∙ get_elem?-set_other ps i j p apart)
  SameOrWoken-set ps after i j p apart (inr (c, slept, woken)) =
      inr (c, sym (get_elem?-set_other ps i j p apart) ∙ slept, woken)

  pub leave-Left :
      (q : Queue A) (ps : List (Phase A)) (i : ℕ) (p : Phase A) (r : Option A) (wakes : Bool)
      → get_elem? ps i ≡ some p
      → Left i r ps (leave i r wakes q ps).threads
  leave-Left q ps i p r true at = (
    get_elem?-broadcast (set ps i (finished r)) i r (get_elem?-set_same ps i p (finished r) at),
    λ j apart.
        SameOrWoken-set ps (broadcast (set ps i (finished r))) i j (finished r) apart
          (broadcast-SameOrWoken (set ps i (finished r)) j),
  )
  leave-Left q ps i p r false at = (
    get_elem?-set_same ps i p (finished r) at,
    λ j apart. inl (get_elem?-set_other ps i j (finished r) apart),
  )
