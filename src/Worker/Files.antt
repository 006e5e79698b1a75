-- ===== src/Worker/Files.antt =====
-- `read_file_from_socket` and a whole request; and what happens when the master goes away in between.
use pi_296_cluster.Prelude.{
  ℕ, zero, suc, ◌+◌, ◌-◌, ◌^◌, ◌≤◌, ◌<◌, ◌≡◌, ◌≢◌, refl, ap, sym, ◌∙◌, inl, inr, true, false, some,
  List, [], ◌∷◌, ◌++◌, arith, append_assoc, append-nil, add-one, leb, ◌==◌, subst, if◌then◌else◌,
  Bool-cases, length, take, drop, length-take, length-drop, take-append-drop, take-append_of_le,
  take_all, ok, hang,
}
use pi_296_cluster.Kernel.{
  Bytes, Arrival, closed, Answer, write_once, le_bytes, le_value, sizeof_size,
}
use pi_296_cluster.Kernel.Delivery.{Delivers, Delivers-split, le-roundtrip, length-le_bytes}
use pi_296_cluster.Text.{newline, space, Without, put_request}
use pi_296_cluster.Worker.{
  file_buffer_size, read_loop, read_from_socket, file_loop, read_file_from_socket,
  read_size_from_socket, read_line_from_socket, create_header, received, read_file, next_request,
}
use pi_296_cluster.Worker.Sockets.{read_from_socket-Delivers}
use pi_296_cluster.Worker.Lines.{read_line_from_socket-Delivers}
use pi_296_cluster.Worker.Headers.{get_filename_from_header-create_header, length-create_header}

abbrev chunk : ℕ → ℕ
chunk remain = if leb file_buffer_size remain then file_buffer_size else remain

chunk_fits : (n : ℕ) → chunk n ≤ n
chunk_fits n = ground arith

chunk_pos : (n : ℕ) → 0 < n → 0 < chunk n
chunk_pos n h = ground arith

module _ (fuel remain : ℕ) (file : Bytes) (s : List Arrival) (bs : Bytes) (t : List Arrival)
    (reads : read_from_socket (chunk remain) s ≡ ok (some bs, t)) where
  file_loop-last :
      remain - length bs ≡ 0 → file_loop (suc fuel) remain file [] s ≡ ok (some (file ++ bs), t)
  unfolding file_loop
  file_loop-last done =
      let e : (remain - length bs == 0) ≡ true = ground arith in rw (reads, file_loop) (rw e)

  file_loop-more :
      remain - length bs ≢ 0
      → file_loop (suc fuel) remain file [] s
        ≡ file_loop fuel (remain - length bs) (file ++ bs) [] t
  unfolding file_loop
  file_loop-more left =
      let e : (remain - length bs == 0) ≡ false = ground arith in rw (reads, file_loop) (rw e)

pub file_loop-Delivers :
    (fuel : ℕ) (bs file : Bytes) (s t : List Arrival)
    → length bs < fuel
    → Delivers bs s t
    → file_loop fuel (length bs) file [] s ≡ ok (some (file ++ bs), t)
file_loop-Delivers zero bs file s t enough d = absurd (omega arith)
file_loop-Delivers (suc fuel) bs file s t enough d =
    let n : ℕ = chunk (length bs) in
    let whole = take-append-drop n bs in
    let (u, front, back) =
      Delivers-split (take n bs) (drop n bs) s t (subst (λ l. Delivers l s t) (sym whole) d) in
    let size : length (take n bs) ≡ n = omega (arith, length-take n bs, chunk_fits (length bs)) in
    let rest : length (drop n bs) ≡ length bs - length (take n bs) =
      omega (arith, length-drop n bs, size) in
    let reads : read_from_socket n s ≡ ok (some (take n bs), u) =
      ap (λ k. read_from_socket k s) (sym size) ∙ read_from_socket-Delivers (take n bs) s u front in
    elim (Bool-cases (length bs - length (take n bs) == 0)) [
      | inl done ↦
          let is_zero : length bs - length (take n bs) ≡ 0 = ground arith in
          finish n fuel bs file s u t reads is_zero (drop n bs) (omega (arith, rest, is_zero)) whole
            back
      | inr left ↦
          let some_left : length bs - length (take n bs) ≢ 0 = ground arith in
          file_loop-more fuel (length bs) file s (take n bs) u reads some_left
          ∙ ap (λ k. file_loop fuel k (file ++ take n bs) [] u) (sym rest)
          ∙ file_loop-Delivers fuel (drop n bs) (file ++ take n bs) u t
              (omega (arith, rest, size, chunk_pos (length bs) (omega arith))) back
          ∙ ap (λ l. ok (some l, t))
              (append_assoc file (take n bs) (drop n bs) ∙ ap (λ l. file ++ l) whole)
    ]
  where
    finish :
        (n fuel : ℕ) (bs file : Bytes) (s u t : List Arrival)
        → read_from_socket (chunk (length bs)) s ≡ ok (some (take n bs), u)
        → length bs - length (take n bs) ≡ 0
        → (rest : Bytes) → length rest ≡ 0
        → take n bs ++ rest ≡ bs
        → Delivers rest u t
        → file_loop (suc fuel) (length bs) file [] s ≡ ok (some (file ++ bs), t)
    finish n fuel bs file s u t reads done [] none_left whole back =
        file_loop-last fuel (length bs) file s (take n bs) u reads done
        ∙ ap (λ l. ok (some (file ++ l), u)) (sym (append-nil (take n bs)) ∙ whole)
        ∙ ap (λ l. ok (some (file ++ bs), l)) back
    finish n fuel bs file s u t reads done (x ∷ rest) none_left whole back = absurd (omega arith)

reads_nothing :
    (n : ℕ) (s : List Arrival) → read_from_socket (suc n) (closed ∷ s) ≡ ok (some [], closed ∷ s)
unfolding read_from_socket read_loop
reads_nothing n s = rw add-one

-- If the master closes its end before the whole file has arrived, the loop never ends: each round
-- reads nothing, and asks for as much again.
pub file_loop-closed :
    (fuel remain : ℕ) (file : Bytes) (disk : List Answer) (s : List Arrival)
    → 0 < remain
    → file_loop fuel remain file disk (closed ∷ s) ≡ hang
unfolding file_loop
file_loop-closed zero remain file disk s pos = refl
file_loop-closed (suc fuel) remain file disk s pos =
    rw (nothing_read (chunk remain) (chunk_pos remain pos), file_loop)
      (rw (still, same)
        (file_loop-closed fuel remain (file ++ (write_once disk []).0) (write_once disk []).1 s
          pos))
  where
    nothing_read : (n : ℕ) → 0 < n → read_from_socket n (closed ∷ s) ≡ ok (some [], closed ∷ s)
    nothing_read zero h = absurd (omega arith)
    nothing_read (suc n) h = reads_nothing n s

    same : remain - 0 ≡ remain
    same = omega arith

    still : (remain - 0 == 0) ≡ false
    still = ground arith

-- A file of any length, however it is cut up and interrupted, ends up in the file whole, if the disk
-- takes every write; what follows it is left.
pub read_file_from_socket-Delivers :
    (file : Bytes) (s t : List Arrival)
    → Delivers file s t
    → read_file_from_socket (length file) [] s ≡ ok (some file, t)
unfolding read_file_from_socket
read_file_from_socket-Delivers file s t d =
    file_loop-Delivers (length file + 1) file [] s t (omega arith) d

read_size-Delivers :
    (garbage : Bytes) (size : ℕ) (s t : List Arrival)
    → size < 2 ^ 64
    → Delivers (le_bytes sizeof_size size) s t
    → read_size_from_socket garbage s ≡ ok (some size, t)
unfolding read_size_from_socket
read_size-Delivers garbage size s t bound d =
    let reads =
      ap (λ k. read_from_socket k s) (sym (length-le_bytes sizeof_size size))
      ∙ read_from_socket-Delivers (le_bytes sizeof_size size) s t d in
    rw reads (
      ap (λ n. ok (some n, t))
        (value (le_bytes sizeof_size size) (length-le_bytes sizeof_size size)
          ∙ le-roundtrip sizeof_size size bound))
  where
    value :
        (bs : Bytes)
        → length bs ≡ sizeof_size
        → le_value (take sizeof_size (bs ++ drop (length bs) garbage)) ≡ le_value bs
    value bs e = ap le_value (
        take-append_of_le sizeof_size bs (drop (length bs) garbage) (omega (arith, e))
        ∙ take_all sizeof_size bs (omega (arith, e)))

-- What the master sends for one task: the header, the size and the file.
abbrev pub message : Bytes → Bytes → Bytes
message name file = create_header name ++ (le_bytes sizeof_size (length file) ++ file)

read_file-Delivers :
    (garbage name file : Bytes) (s t : List Arrival)
    → length file < 2 ^ 64
    → Delivers (le_bytes sizeof_size (length file) ++ file) s t
    → read_file name garbage [] s ≡ ok (received name file, t)
unfolding read_file
read_file-Delivers garbage name file s t bound d =
    let (u, front, back) = Delivers-split (le_bytes sizeof_size (length file)) file s t d in
    rw (read_size-Delivers garbage (length file) s u bound front)
      (rw (read_file_from_socket-Delivers file u t back))

next_request-line :
    (garbage name : Bytes) (s u : List Arrival)
    → Without 0 name
    → read_line_from_socket s ≡ ok (some (create_header name), u)
    → next_request false garbage [] s ≡ read_file name garbage [] u
unfolding next_request create_header
next_request-line garbage name s u no_nul reads =
    let some_line : (length (create_header name) == 0) ≡ false =
      ground (arith, length-create_header name) in
    rw reads (rw some_line (rw (get_filename_from_header-create_header name no_nul)))

-- From the header, the size and the file of a task, however they are cut up and interrupted, a
-- worker that is not quitting takes the name and the whole file, if the name has no newline and no NUL in it, the
-- size fits in 64 bits and the disk takes every write; what follows is left.
pub next_request-message :
    (garbage name file : Bytes) (s t : List Arrival)
    → Without newline name
    → Without 0 name
    → length file < 2 ^ 64
    → Delivers (message name file) s t
    → next_request false garbage [] s ≡ ok (received name file, t)
unfolding create_header
next_request-message garbage name file s t no_newline no_nul bound d =
    let (u, front, back) =
      Delivers-split (create_header name) (le_bytes sizeof_size (length file) ++ file) s t d in
    next_request-line garbage name s u no_nul (
      read_line_from_socket-Delivers (put_request ++ (space ∷ name)) s u
        (refl, (refl, (refl, (refl, no_newline)))) front)
    ∙ read_file-Delivers garbage name file u t bound back
