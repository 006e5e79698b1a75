-- ===== src/Master/Parser/Scan.antt =====
-- The loop of `get_command` over bytes that are no newline.
use pi_296_cluster.Prelude.{
  ℕ, zero, suc, ◌+◌, ◌≤◌, ◌<◌, ◌≡◌, refl, ap, ap₂, subst, sym, ◌∙◌, inl, inr, false, List, [], ◌∷◌,
  ◌++◌, arith, append_assoc, append-nil, length-append, ltb, lt→ltb, le→ltb, ◌==◌, length, set,
  replicate, length-replicate, Outcome, ok, fault,
}
use pi_296_cluster.Kernel.{Bytes, Arrival, would_block, got, eintr, read}
use pi_296_cluster.Kernel.Delivery.{Delivers, Delivers-split, read_cases}
use pi_296_cluster.Kernel.Single.{Stored-OneByte}
use pi_296_cluster.Text.{newline, Without}
use pi_296_cluster.Master.{done_sending, not_done_sending}
use pi_296_cluster.Master.Parser.{Scanned, command_loop}

module _ (fuel : ℕ) (command : Bytes) (size : ℕ) (s : List Arrival) {t : List Arrival} where
  command_loop-eintr :
      read 1 s ≡ (eintr, t)
      → command_loop (suc fuel) command size s ≡ command_loop fuel command size t
  unfolding command_loop
  command_loop-eintr e = rw (ap (λ p. p.0) e, ap (λ p. p.1) e, command_loop)

  command_loop-byte :
      (b : ℕ)
      → read 1 s ≡ (got (b ∷ []), t)
      → (b == newline) ≡ false
      → size < length command
      → size < 1025
      → command_loop (suc fuel) command size s ≡ command_loop fuel (set command size b) (size + 1) t
  unfolding command_loop
  command_loop-byte b e other room bound =
      let small : ltb 1025 (size + 1) ≡ false = ground arith in
      rw (ap (λ p. p.0) e, ap (λ p. p.1) e, command_loop)
        (rw (other, lt→ltb size (length command) room, small))

  command_loop-newline :
      read 1 s ≡ (got (newline ∷ []), t)
      → command_loop (suc fuel) command size s ≡ ok (done_sending, command, size, t)
  unfolding command_loop
  command_loop-newline e = rw (ap (λ p. p.0) e, ap (λ p. p.1) e, command_loop)

-- A byte behind the array.
command_loop-outside :
    (fuel : ℕ) (command : Bytes) (size : ℕ) (s : List Arrival) {t : List Arrival} (b : ℕ)
    → read 1 s ≡ (got (b ∷ []), t)
    → (b == newline) ≡ false
    → length command ≤ size
    → command_loop (suc fuel) command size s ≡ fault
unfolding command_loop
command_loop-outside fuel command size s b e other full =
    rw (ap (λ p. p.0) e, ap (λ p. p.1) e, command_loop)
      (rw (other, le→ltb size (length command) full))

-- `command` with these bytes at its start, and zeros behind them.
abbrev pub buffer : Bytes → ℕ → Bytes
buffer stored k = stored ++ replicate k 0

pub set-end :
    (stored : Bytes) (k b : ℕ)
    → set (buffer stored (suc k)) (length stored) b ≡ buffer (stored ++ (b ∷ [])) k
unfolding replicate
set-end [] k b = refl
set-end (c ∷ stored) k b = ap (◌∷◌ c) (set-end stored k b)

pub length-buffer : (stored : Bytes) (k : ℕ) → length (buffer stored k) ≡ length stored + k
length-buffer stored k =
    omega (arith, length-append stored (replicate k 0), length-replicate {A = ℕ} k 0)

-- The loop with so much taken in, and `k` bytes free.
abbrev pub loop_at : ℕ → Bytes → ℕ → List Arrival → Outcome Scanned
loop_at fuel stored k s = command_loop fuel (buffer stored k) (length stored) s

loop_at-byte :
    (fuel : ℕ) (stored : Bytes) (k b : ℕ) (s : List Arrival) {t : List Arrival}
    → read 1 s ≡ (got (b ∷ []), t)
    → (b == newline) ≡ false
    → length stored + suc k ≤ 1024
    → loop_at (suc fuel) stored (suc k) s ≡ loop_at fuel (stored ++ (b ∷ [])) k t
loop_at-byte fuel stored k b s {t} e other fits =
    let longer : length (stored ++ (b ∷ [])) ≡ length stored + 1 = length-append stored (b ∷ []) in
    command_loop-byte fuel (buffer stored (suc k)) (length stored) s b e other
      (omega (arith, length-buffer stored (suc k))) (omega arith)
    ∙ ap₂ (λ c n. command_loop fuel c n t) (set-end stored k b) (sym longer)

-- From `stored` on, the loop takes in all of `line`, and goes on at `u` with fuel enough.
abbrev pub TakesIn : ℕ → Bytes → ℕ → Bytes → List Arrival → List Arrival → Type 0
TakesIn fuel stored k line s u =
    (fuel' : ℕ) × (length u < fuel')
    × (loop_at fuel stored (length line + k) s ≡ loop_at fuel' (stored ++ line) k u)

pub command_loop-TakesIn :
    (fuel : ℕ) (stored line : Bytes) (k : ℕ) (s u : List Arrival)
    → Without newline line
    → length stored + (length line + k) ≤ 1024
    → length s < fuel
    → Delivers line s u
    → TakesIn fuel stored k line s u
command_loop-TakesIn fuel stored [] k s u w fits enough d = (
  fuel,
  subst (λ l. length l < fuel) d enough,
  ap₂ (λ n l. loop_at fuel stored n l) (omega arith) d
      ∙ ap (λ l. loop_at fuel l k u) (sym (append-nil stored)),
)
command_loop-TakesIn zero stored (b ∷ line) k s u w fits enough d = absurd (omega arith)
command_loop-TakesIn (suc fuel) stored (b ∷ line) k s u w fits enough d =
    elim (read_cases 1 (b ∷ line) s u (omega arith) (omega arith) d) [
      | inr r ↦
          let (fuel', left, runs) =
            command_loop-TakesIn fuel stored (b ∷ line) k r.left u w fits (omega (arith, r.fewer))
              r.more in
          (
            fuel',
            left,
            command_loop-eintr fuel (buffer stored (length (b ∷ line) + k)) (length stored) s
                  r.returns
                ∙ runs,
          )
      | inl r ↦
          let o = Stored-OneByte b line s u r in
          let longer : length (stored ++ (b ∷ [])) ≡ length stored + 1 =
            length-append stored (b ∷ []) in
          let (fuel', left, runs) =
            command_loop-TakesIn fuel (stored ++ (b ∷ [])) line k o.left u w.1
              (omega (arith, longer)) (omega (arith, o.fewer)) o.more in
          (
            fuel',
            left,
            ap (λ n. loop_at (suc fuel) stored n s) (omega arith)
                ∙ loop_at-byte fuel stored (length line + k) b s o.returns w.0 (omega arith)
                ∙ runs
                ∙ ap (λ l. loop_at fuel' l k u) (append_assoc stored (b ∷ []) line),
          )
    ]

module _ (stored line : Bytes) (k : ℕ) (s t : List Arrival) (plain : Without newline line)
    (fits : length stored + (length line + k) ≤ 1024) where
  -- The newline comes.
  pub loop_at-newline :
      Delivers (line ++ (newline ∷ [])) s t
      → loop_at (length s + 1) stored (length line + k) s
        ≡ ok (done_sending, buffer (stored ++ line) k, length (stored ++ line), t)
  loop_at-newline d =
      let (u, front, back) = Delivers-split line (newline ∷ []) s t d in
      let (fuel, left, runs) =
        command_loop-TakesIn (length s + 1) stored line k s u plain fits (omega arith) front in
      runs ∙ newline_next fuel u left back
    where
      newline_next :
          (fuel : ℕ) (u : List Arrival)
          → length u < fuel
          → Delivers (newline ∷ []) u t
          → loop_at fuel (stored ++ line) k u
            ≡ ok (done_sending, buffer (stored ++ line) k, length (stored ++ line), t)
      newline_next zero u enough d = absurd (omega arith)
      newline_next (suc fuel) u enough d =
          elim (read_cases 1 (newline ∷ []) u t (omega arith) (omega arith) d) [
            | inr r ↦
                command_loop-eintr fuel (buffer (stored ++ line) k) (length (stored ++ line)) u
                  r.returns
                ∙ newline_next fuel r.left (omega (arith, r.fewer)) r.more
            | inl r ↦
                let o = Stored-OneByte newline [] u t r in
                command_loop-newline fuel (buffer (stored ++ line) k) (length (stored ++ line)) u
                  o.returns
                ∙ ap (λ l. ok (done_sending, buffer (stored ++ line) k, length (stored ++ line), l))
                    o.more
          ]

  -- Nothing more has come.
  pub loop_at-waits :
      Delivers line s (would_block ∷ t)
      → loop_at (length s + 1) stored (length line + k) s
        ≡ ok (not_done_sending, buffer (stored ++ line) k, length (stored ++ line), t)
  unfolding command_loop
  loop_at-waits d =
      let (fuel, left, runs) =
        command_loop-TakesIn (length s + 1) stored line k s (would_block ∷ t) plain fits
          (omega arith) d in
      runs ∙ stops fuel left
    where
      stops :
          (fuel : ℕ)
          → length (would_block ∷ t) < fuel
          → loop_at fuel (stored ++ line) k (would_block ∷ t)
            ≡ ok (not_done_sending, buffer (stored ++ line) k, length (stored ++ line), t)
      stops zero enough = absurd (omega arith)
      stops (suc fuel) enough = refl

  -- A byte comes that is no newline, where nothing is free.
  pub loop_at-full :
      (b : ℕ)
      → k ≡ 0
      → (b == newline) ≡ false
      → Delivers (line ++ (b ∷ [])) s t
      → loop_at (length s + 1) stored (length line + k) s ≡ fault
  loop_at-full b none_free other d =
      let (u, front, back) = Delivers-split line (b ∷ []) s t d in
      let (fuel, left, runs) =
        command_loop-TakesIn (length s + 1) stored line k s u plain fits (omega arith) front in
      runs ∙ outside fuel u left back
    where
      outside :
          (fuel : ℕ) (u : List Arrival)
          → length u < fuel
          → Delivers (b ∷ []) u t
          → loop_at fuel (stored ++ line) k u ≡ fault
      outside zero u enough d = absurd (omega arith)
      outside (suc fuel) u enough d =
          elim (read_cases 1 (b ∷ []) u t (omega arith) (omega arith) d) [
            | inr r ↦
                command_loop-eintr fuel (buffer (stored ++ line) k) (length (stored ++ line)) u
                  r.returns
                ∙ outside fuel r.left (omega (arith, r.fewer)) r.more
            | inl r ↦
                let o = Stored-OneByte b [] u t r in
                command_loop-outside fuel (buffer (stored ++ line) k) (length (stored ++ line)) u b
                  o.returns other (omega (arith, length-buffer (stored ++ line) k))
          ]
