-- ===== src/Interface/Copying.antt =====
-- `my_write` and `my_read` beside the worker's routines for the same.
use pi_296_cluster.Prelude.{
  ℕ, zero, suc, ◌+◌, ◌-◌, ◌<◌, ◌≡◌, refl, ap, ap₂, ◌∙◌, sym, inl, inr, true, false, Bool-cases,
  ◌&&◌, Option, none, some, List, [], ◌∷◌, ◌++◌, append-nil, arith, ltb, leb, ◌==◌, if◌then◌else◌,
  take, drop, length, length-take, length-drop, take-append-drop, Outcome, ok, hang,
}
use pi_296_cluster.Kernel.{
  Bytes, Arrival, Read, got, eintr, eagain, eother, idle, read, Answer, took, write_eintr,
  write_eagain, write_failed,
}
use pi_296_cluster.Kernel.Accepting.{AcceptsBlocking}
use pi_296_cluster.Worker.{write_loop, write_to_socket, read_loop, read_from_socket}
use pi_296_cluster.Interface.{my_write_loop, my_write, my_read_loop, my_read}

pub eq_nil : (bs : Bytes) → length bs ≡ 0 → bs ≡ []
eq_nil [] e = refl
eq_nil (b ∷ bs) e = absurd (omega (arith, e))

my_write_loop-write_loop :
    (answers : List Answer) (total : ℕ) (buffer : Bytes)
    → my_write_loop answers (total + length buffer) buffer ≡ write_loop answers buffer total
unfolding my_write_loop write_loop
my_write_loop-write_loop [] total buffer = refl
my_write_loop-write_loop (took k ∷ later) total buffer =
    let part : Bytes = take k buffer in
    let left : Bytes = drop k buffer in
    let whole : length part + length left ≡ length buffer =
      omega (arith, length-take k buffer, length-drop k buffer) in
    let sum : (total + length part) + length left ≡ total + length buffer = omega (arith, whole) in
    let rest =
      ap (λ c. my_write_loop later c left) (sym sum)
      ∙ my_write_loop-write_loop later (total + length part) left in
    elim (Bool-cases (length part == 0)) [
      | inl nothing ↦
          let first : (ltb 0 (length left) && ltb 0 (length part)) ≡ false =
            ground (arith, nothing) in
          let same : total + length buffer - length left ≡ total = ground (arith, nothing, whole) in
          let empty : part ≡ [] = eq_nil part (ground (arith, nothing)) in
          rw (first, nothing) (ap₂ (λ n p. (some n, p, later)) same empty)
      | inr some_bytes ↦ elim (Bool-cases (leb (length buffer) (length part))) [
        | inl all ↦
            let last : (ltb 0 (length left) && ltb 0 (length part)) ≡ false =
              ground (arith, all, whole) in
            let same : total + length buffer - length left ≡ total + length part =
              omega (arith, whole) in
            rw (last, some_bytes, all) (ap (λ n. (some n, part, later)) same)
        | inr more ↦
            let go : (ltb 0 (length left) && ltb 0 (length part)) ≡ true =
              ground (arith, more, some_bytes, whole) in
            rw (go, some_bytes, more) (ap (λ r. (r.0, part ++ r.1, r.2)) rest)
      ]
    ]
my_write_loop-write_loop (write_eintr ∷ later) total buffer =
    my_write_loop-write_loop later total buffer
my_write_loop-write_loop (write_eagain ∷ later) total buffer = refl
my_write_loop-write_loop (write_failed ∷ later) total buffer = refl

-- `my_write` of the interface and `write_to_socket` of the worker return the same and send the same
-- bytes, whatever the answers to the writes.
pub my_write-write_to_socket :
    (answers : List Answer) (buffer : Bytes)
    → my_write answers buffer ≡ write_to_socket answers buffer
unfolding my_write write_to_socket
my_write-write_to_socket answers buffer =
    let sum : length buffer ≡ 0 + length buffer = omega arith in
    ap (λ c. my_write_loop answers c buffer) sum ∙ my_write_loop-write_loop answers 0 buffer

my_read_loop-read_loop :
    (fuel count : ℕ) (stored : Bytes) (s : List Arrival)
    → my_read_loop fuel count stored s ≡ read_loop fuel count stored s
unfolding my_read_loop read_loop
my_read_loop-read_loop zero count stored s = refl
my_read_loop-read_loop (suc fuel) count stored s =
    after (read count s).0 (read count s).1 (my_read_loop-read_loop fuel)
  where
    after :
        (r : Read) (t : List Arrival)
        → ((count : ℕ) (stored : Bytes) (s : List Arrival)
            → my_read_loop fuel count stored s ≡ read_loop fuel count stored s)
        → elim r as (λ _. Outcome (Option Bytes × List Arrival)) [
          | got bs ↦
              let more = my_read_loop fuel (count - length bs) (stored ++ bs) t in
              if ltb 0 (count - length bs) && ltb 0 (length bs)
              then more
              else ok (some (stored ++ bs), t)
          | eintr ↦ my_read_loop fuel count stored t
          | eagain ↦ ok (none, t)
          | eother ↦ ok (none, t)
          | idle ↦ hang
        ]
          ≡ elim r as (λ _. Outcome (Option Bytes × List Arrival)) [
            | got bs ↦
                let more = read_loop fuel (count - length bs) (stored ++ bs) t in
                if length bs == 0
                then ok (some stored, t)
                else if leb count (length bs)
                then ok (some (stored ++ bs), t)
                else more
            | eintr ↦ read_loop fuel count stored t
            | eagain ↦ ok (none, t)
            | eother ↦ ok (none, t)
            | idle ↦ hang
          ]
    after (got bs) t same = elim (Bool-cases (length bs == 0)) [
      | inl nothing ↦
          let ends : (ltb 0 (count - length bs) && ltb 0 (length bs)) ≡ false =
            ground (arith, nothing) in
          let empty : bs ≡ [] = eq_nil bs (ground (arith, nothing)) in
          rw (ends, nothing)
            (ap (λ l. ok (some l, t)) (ap (λ l. stored ++ l) empty ∙ append-nil stored))
      | inr some_bytes ↦ elim (Bool-cases (leb count (length bs))) [
        | inl all ↦
            let ends : (ltb 0 (count - length bs) && ltb 0 (length bs)) ≡ false =
              ground (arith, all) in
            rw (ends, some_bytes, all) refl
        | inr more ↦
            let goes : (ltb 0 (count - length bs) && ltb 0 (length bs)) ≡ true =
              ground (arith, more, some_bytes) in
            rw (goes, some_bytes, more) (same (count - length bs) (stored ++ bs) t)
      ]
    ]
    after eintr t same = same count stored t
    after eagain t same = refl
    after eother t same = refl
    after idle t same = refl

-- `my_read` of the interface and `read_from_socket` of the worker store the same bytes and return the
-- same, whatever arrives.
pub my_read-read_from_socket :
    (count : ℕ) (s : List Arrival) → my_read count s ≡ read_from_socket count s
unfolding my_read read_from_socket
my_read-read_from_socket count s = my_read_loop-read_loop (length s + 1) count [] s

-- Every byte gets through in the end, and the later writes are accepted too.
my_write_loop-all :
    (answers : List Answer) (c : ℕ) (buffer : Bytes)
    → AcceptsBlocking answers
    → (left : List Answer) × AcceptsBlocking left
      × (my_write_loop answers c buffer ≡ (some c, buffer, left))
unfolding my_write_loop
my_write_loop-all [] c buffer a = ([], tt, refl)
my_write_loop-all (took k ∷ later) c buffer a =
    let part : Bytes = take k buffer in
    let left : Bytes = drop k buffer in
    let taken = length-take k buffer in
    let over = length-drop k buffer in
    let some_room : 0 < k = a.0 in
    elim (Bool-cases (length left == 0)) [
      | inl all ↦
          let last : (ltb 0 (length left) && ltb 0 (length part)) ≡ false = ground (arith, all) in
          let same : c - length left ≡ c = ground (arith, all) in
          let empty : left ≡ [] = eq_nil left (ground (arith, all)) in
          let whole : part ≡ buffer =
            sym (append-nil part) ∙ ap (λ l. part ++ l) (sym empty) ∙ take-append-drop k buffer in
          (later, a.1, rw last (ap₂ (λ n p. (some n, p, later)) same whole))
      | inr more ↦
          let go : (ltb 0 (length left) && ltb 0 (length part)) ≡ true =
            ground (arith, more, taken, over, some_room) in
          let (answers, accepts, rest) = my_write_loop-all later c left a.1 in
          (
            answers,
            accepts,
            rw go (
                ap (λ r. (r.0, part ++ r.1, r.2)) rest
                ∙ ap (λ l. (some c, l, answers)) (take-append-drop k buffer)),
          )
    ]
my_write_loop-all (write_eintr ∷ later) c buffer a = my_write_loop-all later c buffer a
my_write_loop-all (write_eagain ∷ later) c buffer a = absurd a
my_write_loop-all (write_failed ∷ later) c buffer a = absurd a

pub my_write-all :
    (answers : List Answer) (buffer : Bytes)
    → AcceptsBlocking answers
    → (left : List Answer) × AcceptsBlocking left
      × (my_write answers buffer ≡ (some (length buffer), buffer, left))
unfolding my_write
my_write-all answers buffer a = my_write_loop-all answers (length buffer) buffer a
