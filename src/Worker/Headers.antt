-- ===== src/Worker/Headers.antt =====
-- `create_header` and `get_filename_from_header` are inverse on names without a NUL.
use pi_296_cluster.Prelude.{
  ℕ, ◌+◌, ◌-◌, ◌≡◌, refl, ap, ◌∙◌, false, some, [], ◌∷◌, ◌++◌, arith, length-append, ltb, length,
  take, drop, take-length-append,
}
use pi_296_cluster.Kernel.{Bytes}
use pi_296_cluster.Text.{newline, put_request_size, c_str, Without}
use pi_296_cluster.Worker.{create_header, get_filename_from_header}

pub c_str-Without : (name : Bytes) → Without 0 name → c_str name ≡ name
c_str-Without [] w = refl
c_str-Without (b ∷ bs) w = rw w.0 (ap (◌∷◌ b) (c_str-Without bs w.1))

take_name : (name : Bytes) (n : ℕ) → n ≡ length name → take n (name ++ (newline ∷ [])) ≡ name
take_name name n e = rw e (take-length-append name (newline ∷ []))

pub length-create_header : (name : Bytes) → length (create_header name) ≡ length name + 5
unfolding create_header
length-create_header name = omega (arith, length-append name (newline ∷ []))

-- The name that a worker takes from a header is the name that the header was made of, if that has no
-- NUL in it.
pub get_filename_from_header-create_header :
    (name : Bytes)
    → Without 0 name
    → get_filename_from_header (create_header name) (length (create_header name)) put_request_size
      ≡ some name
unfolding get_filename_from_header create_header
get_filename_from_header-create_header name w =
    let size = length-create_header name in
    let long : ltb (length (create_header name)) (put_request_size + 2) ≡ false = ground arith in
    rw long (ap some (ap c_str (name_part name) ∙ c_str-Without name w))
  where
    name_part :
        (name : Bytes)
        → take
            (length (create_header name) - put_request_size - 2)
            (drop (put_request_size + 1) (create_header name))
          ≡ name
    name_part name =
        take_name name (length (create_header name) - put_request_size - 2)
          (omega (arith, length-create_header name))
