-- ===== src/Cluster/Hops.antt =====
-- What each hop of a job takes and gives.
use pi_296_cluster.Prelude.{
  ℕ, ◌<◌, ◌^◌, ◌≡◌, refl, ap, ◌∙◌, sym, some, true, List, [], ◌∷◌, ◌++◌, append_assoc, arith, ◌==◌,
  ==_refl, ℤ, pos, length, ok,
}
use pi_296_cluster.Kernel.{
  Bytes, Arrival, byte, gap, interrupted, would_block, broken, closed, sizeof_size, le_bytes,
}
use pi_296_cluster.Kernel.Delivery.{Delivers}
use pi_296_cluster.Text.{newline, space, put_request, Without}
use pi_296_cluster.Master.{to_put, to_interface_put}
use pi_296_cluster.Master.Floats.{Double}
use pi_296_cluster.Master.Output.{put_header}
use pi_296_cluster.Master.Output.Everything.{put_message}
use pi_296_cluster.Master.System.{System}
use pi_296_cluster.Master.Events.Receiving.{IsRequest}
use pi_296_cluster.Interface.Printing.{Arrives, head_of}
use pi_296_cluster.Cluster.{handed, last_of}

last_of-snoc : {A : Type 0} (xs : List A) (x : A) → last_of (xs ++ (x ∷ [])) ≡ some x
last_of-snoc [] x = refl
last_of-snoc (y ∷ []) x = refl
last_of-snoc (y ∷ z ∷ zs) x = last_of-snoc (z ∷ zs) x

module _ {F : Double} where
  pub handed-snoc :
      (n : ℕ) (bytes : Bytes) (before : List (ℤ × Bytes)) (s : System F)
      → s.sent ≡ before ++ ((pos n, bytes) ∷ [])
      → handed n s ≡ ok bytes
  handed-snoc n bytes before s e =
      let last = ap last_of e ∙ last_of-snoc before (pos n, bytes) in
      let own : (n == n) ≡ true = ==_refl n in rw last (rw own refl)

-- A name that fits every buffer on its way.
pub record IsName (name : Bytes) : Type 0 where
  pub no_newline : Without newline name
  pub no_nul : Without 0 name
  pub named : 0 < length name
  pub short : length name < 1000

-- The line that the interface passes over.
abbrev pub line_of : Bytes → Bytes
line_of name = put_request ++ (space ∷ name)

pub line_of-Without : (name : Bytes) → IsName name → Without newline (line_of name)
line_of-Without name is = (refl, (refl, (refl, (refl, is.no_newline))))

pub put_message-head_of :
    (name file : Bytes) → put_message name file ≡ head_of (line_of name) file ++ file
unfolding put_header
put_message-head_of name file =
    let size = le_bytes sizeof_size (length file) in
    ap (λ (bs : Bytes). put_request ++ (space ∷ bs))
      (append_assoc name (newline ∷ []) (size ++ file)
        ∙ sym (append_assoc name (newline ∷ size) file))

pub Arrives-Delivers : (bs : Bytes) (s t : List Arrival) → Arrives bs s t → Delivers bs s t
Arrives-Delivers [] s t d = d
Arrives-Delivers (b ∷ bs) [] t d = d
Arrives-Delivers (b ∷ bs) (byte c ∷ s) t d = (d.0, Arrives-Delivers bs s t d.1)
Arrives-Delivers (b ∷ bs) (gap ∷ s) t d = Arrives-Delivers (b ∷ bs) s t d
Arrives-Delivers (b ∷ bs) (interrupted ∷ s) t d = absurd d
Arrives-Delivers (b ∷ bs) (would_block ∷ s) t d = absurd d
Arrives-Delivers (b ∷ bs) (broken ∷ s) t d = absurd d
Arrives-Delivers (b ∷ bs) (closed ∷ s) t d = absurd d

pub Arrives-split :
    (bs cs : Bytes) (s u : List Arrival)
    → Arrives (bs ++ cs) s u
    → (t : List Arrival) × Arrives bs s t × Arrives cs t u
Arrives-split [] cs s u d = (s, refl, d)
Arrives-split (b ∷ bs) cs [] u d = absurd d
Arrives-split (b ∷ bs) cs (byte c ∷ s) u d =
    let (t, front, back) = Arrives-split bs cs s u d.1 in (t, (d.0, front), back)
Arrives-split (b ∷ bs) cs (gap ∷ s) u d = Arrives-split (b ∷ bs) cs s u d
Arrives-split (b ∷ bs) cs (interrupted ∷ s) u d = absurd d
Arrives-split (b ∷ bs) cs (would_block ∷ s) u d = absurd d
Arrives-split (b ∷ bs) cs (broken ∷ s) u d = absurd d
Arrives-split (b ∷ bs) cs (closed ∷ s) u d = absurd d

pub IsRequest-to_put :
    (name file : Bytes)
    → IsName name
    → 0 < length file
    → length file < 2 ^ 64
    → IsRequest to_put name file
IsRequest-to_put name file is some_bytes bound = record {
  plain = line_of-Without name is;
  no_nul = is.no_nul;
  named = is.named;
  short = omega (arith, is.short);
  some_bytes = some_bytes;
  bound = bound;
}

pub IsRequest-to_interface_put :
    (name file : Bytes)
    → IsName name
    → 0 < length file
    → length file < 2 ^ 64
    → IsRequest to_interface_put name file
IsRequest-to_interface_put name file is some_bytes bound = record {
  plain = (
    refl,
    (
      refl,
      (
        refl,
        (
          refl,
          (
            refl,
            (refl, (refl, (refl, (refl, (refl, (refl, (refl, (refl, (refl, is.no_newline))))))))),
          ),
        ),
      ),
    ),
  );
  no_nul = is.no_nul;
  named = is.named;
  short = omega (arith, is.short);
  some_bytes = some_bytes;
  bound = bound;
}
