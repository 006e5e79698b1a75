-- ===== src/Interface/Request.antt =====
-- What the interface sends for a file is the request that the master takes in.
use pi_296_cluster.Prelude.{
  ℕ, zero, suc, ◌+◌, ◌<◌, ◌≡◌, refl, ap, sym, inl, inr, true, false, Bool-cases, Option, List, [],
  ◌++◌, arith, ltb, ◌==◌, take, drop, length, length-take, length-drop, take-append-drop, ok,
}
use pi_296_cluster.Kernel.{Bytes, Answer, sizeof_size, le_bytes}
use pi_296_cluster.Kernel.Accepting.{AcceptsBlocking}
use pi_296_cluster.Master.{to_interface_put}
use pi_296_cluster.Master.Events.Receiving.{request}
use pi_296_cluster.Interface.{
  buf_size, my_write, request_text, send_request, binary_rounds, write_binary_data, upload,
}
use pi_296_cluster.Interface.Copying.{eq_nil, my_write-all}

take-nothing : (n : ℕ) (file : Bytes) → 0 < n → (length (take n file) == 0) ≡ true → file ≡ []
take-nothing n file some_room nothing =
    let none_taken : length (take n file) ≡ 0 = ground (arith, nothing) in
    eq_nil file (omega (arith, none_taken, length-take n file, some_room))

drop-shorter :
    (n fuel : ℕ) (file : Bytes)
    → 0 < n
    → (length (take n file) == 0) ≡ false
    → length file < suc fuel
    → length (drop n file) < fuel
drop-shorter n fuel file some_room some_bytes enough =
    let taken : 0 < length (take n file) = ground (arith, some_bytes) in
    omega (arith, taken, length-take n file, length-drop n file, some_room, enough)

binary_rounds-all :
    (fuel : ℕ) (file : Bytes) (answers : List Answer)
    → length file < fuel
    → AcceptsBlocking answers
    → (left : List Answer) × AcceptsBlocking left
      × (binary_rounds fuel file answers ≡ ok (file, left))
unfolding binary_rounds
binary_rounds-all zero file answers enough a = absurd (omega (arith, enough))
binary_rounds-all (suc fuel) file answers enough a =
    let part : Bytes = take buf_size file in
    elim (Bool-cases (length part == 0)) [
      | inl nothing ↦
          let empty : file ≡ [] = take-nothing buf_size file (omega arith) nothing in
          (answers, a, rw nothing (ap (λ f. ok (f, answers)) (sym empty)))
      | inr some_bytes ↦
          let (left, accepts, sends) = my_write-all answers part a in
          let (end, accepts', rest) =
            binary_rounds-all fuel (drop buf_size file) left
              (drop-shorter buf_size fuel file (omega arith) some_bytes enough) accepts in
          (
            end,
            accepts',
            rw some_bytes
                (rw sends (rw rest (ap (λ f. ok (f, end)) (take-append-drop buf_size file)))),
          )
    ]

upload_from :
    (name file : Bytes) {a : List Answer} {r : Bytes × List Answer}
    {t : Option ℕ × Bytes × List Answer} (answers : List Answer)
    → send_request name answers ≡ ok (request_text name, a)
    → my_write a (le_bytes sizeof_size (length file)) ≡ t
    → write_binary_data file t.2 ≡ ok r
    → upload name file answers ≡ ok (request_text name ++ (t.1 ++ r.0), r.1)
unfolding upload
upload_from name file answers e f g = rw e (rw f (rw g refl))

-- For a name whose request text, with the NUL behind it, fits the buffer, the interface sends the
-- header, the size and the whole file, which is the request that `handle_data` of the master takes in,
-- and nothing else; the file may have any length. No write is refused.
pub upload-request :
    (name file : Bytes) (answers : List Answer)
    → length (request_text name) < buf_size
    → AcceptsBlocking answers
    → (left : List Answer) × (upload name file answers
        ≡ ok (request to_interface_put name file, left))
unfolding send_request write_binary_data
upload-request name file answers fits a =
    let (left, accepts, first) = my_write-all answers (request_text name) a in
    let (left', accepts', second) =
      my_write-all left (le_bytes sizeof_size (length file)) accepts in
    let (end, accepts'', third) =
      binary_rounds-all (length file + 1) file left' (omega arith) accepts' in
    let short : ltb (length (request_text name)) buf_size ≡ true = ground (arith, fits) in
    let header_sent : send_request name answers ≡ ok (request_text name, left) =
      rw (first, short) refl in
    (end, upload_from name file {a = left} answers header_sent second third)
