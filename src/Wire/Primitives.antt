-- ===== src/Wire/Primitives.antt =====
-- The primitives of the wire encoding read back what they wrote, whatever follows it.
use ohm_ecdsa.Prelude.{
  ℕ, ◌+◌, ◌^◌, ◌≤◌, ◌<◌, ◌≡◌, refl, sym, ap, ◌∙◌, [], ◌∷◌, ◌++◌, some, true, ◌⊎◌, inl, inr, leb,
  ltb, length, take, drop, length-append, arith,
}
use mathlib.Core.List.{append_assoc}
use ohm_ecdsa.Core.{Phase}
use ohm_ecdsa.Curve.{Group}
use ohm_ecdsa.Encoding.{
  Bytes, ScalarEncoding, scalar_bytes, scalar_from_repr, PointEncoding, point_bytes,
  point_from_encoded, be_bytes,
}
use ohm_ecdsa.Wire.{
  get_to, get_from, first, from_be_bytes, checked_add, put_u8, put_u64, put_bytes, take_u8,
  take_u64, take_bytes, phase_code, phase_decode, put_scalar, take_scalar, put_point, take_point,
  take_compressed,
}

pub take-append : (a b : Bytes) → take (length a) (a ++ b) ≡ a
take-append [] b = refl
take-append (x ∷ a) b = ap (λ t. x ∷ t) (take-append a b)

pub drop-append : (a b : Bytes) → drop (length a) (a ++ b) ≡ b
drop-append [] b = refl
drop-append (x ∷ a) b = drop-append a b

pub get_to-append : (n : ℕ) (a b : Bytes) → n ≡ length a → get_to n (a ++ b) ≡ some a
unfolding get_to
get_to-append n a b e =
    let h : leb (length a) (length (a ++ b)) ≡ true = (let l = length-append a b in ground arith) in
    rw (e, h, take-append a b)

pub get_from-append : (n : ℕ) (a b : Bytes) → n ≡ length a → get_from n (a ++ b) ≡ some b
unfolding get_from
get_from-append n a b e =
    let h : leb (length a) (length (a ++ b)) ≡ true = (let l = length-append a b in ground arith) in
    rw (e, h, drop-append a b)

pub from_be_bytes-be_bytes : (v : ℕ) → v < 2 ^ 64 → from_be_bytes 0 (be_bytes v) ≡ v
unfolding from_be_bytes be_bytes
from_be_bytes-be_bytes v h = omega arith

pub take_u64-put : (v : ℕ) (rest : Bytes) → v < 2 ^ 64 → take_u64 (put_u64 v ++ rest) ≡ some (v, 8)
unfolding take_u64 put_u64
take_u64-put v rest h =
    rw (get_to-append 8 (be_bytes v) rest (unfold be_bytes in refl), from_be_bytes-be_bytes v h)

pub length-put_u64 : (v : ℕ) → length (put_u64 v) ≡ 8
unfolding put_u64 be_bytes
length-put_u64 v = refl

pub take_u8-put : (v : ℕ) (rest : Bytes) → take_u8 (put_u8 v ++ rest) ≡ some (v, 1)
unfolding take_u8 put_u8 first
take_u8-put v rest = refl

pub length-put_bytes : (b : Bytes) → length (put_bytes b) ≡ 8 + length b
unfolding put_bytes
length-put_bytes b = omega (arith, length-append (put_u64 (length b)) b, length-put_u64 (length b))

pub take_bytes-put :
    (b rest : Bytes)
    → 8 + length b < 2 ^ 64
    → take_bytes (put_bytes b ++ rest) ≡ some (b, length (put_bytes b))
unfolding take_bytes checked_add
take_bytes-put b rest h =
    let n = length-put_bytes b in
    let small : ltb (8 + length b) (2 ^ 64) ≡ true = ground arith in
    let front : get_to (8 + length b) (put_bytes b ++ rest) ≡ some (put_bytes b) =
      get_to-append _ (put_bytes b) rest (sym n) in
    let len : take_u64 (put_bytes b ++ rest) ≡ some (length b, 8) = prefix in
    rw (len, small, front, tail, n) refl
  where
    prefix : take_u64 (put_bytes b ++ rest) ≡ some (length b, 8)
    prefix =
        unfold put_bytes in
        rw (append_assoc (put_u64 (length b)) b rest)
          (take_u64-put (length b) (b ++ rest) (omega arith))

    tail : drop 8 (put_bytes b) ≡ b
    tail =
        unfold put_bytes in
        (ap (λ n. drop n (put_u64 (length b) ++ b)) (sym (length-put_u64 (length b)))
          ∙ drop-append (put_u64 (length b)) b)

pub phase_decode-phase_code : (p : Phase) → phase_decode (phase_code p) ≡ some p
unfolding phase_decode phase_code
phase_decode-phase_code Phase.key_gen = refl
phase_decode-phase_code Phase.triples = refl
phase_decode-phase_code Phase.presign = refl
phase_decode-phase_code Phase.sign = refl
phase_decode-phase_code Phase.refresh = refl

module _ {F : Type 0} ⦃e : ScalarEncoding F⦄ where
  pub length-put_scalar : (s : F) → length (put_scalar s) ≡ 32
  unfolding put_scalar scalar_bytes
  length-put_scalar s = e.length-to_bytes s

  pub take_scalar-put : (s : F) (rest : Bytes) → take_scalar (put_scalar s ++ rest) ≡ some (s, 32)
  unfolding take_scalar scalar_from_repr put_scalar scalar_bytes
  take_scalar-put s rest =
      rw (get_to-append 32 (e.to_bytes s) rest (sym (e.length-to_bytes s)), e.from_repr-to_bytes s)
        refl

module _ {G : Type 0} ⦃g : Group G⦄ ⦃pe : PointEncoding G⦄ where
  -- A point is read back, and took at least one byte.
  pub take_point-put :
      (p : G) (rest : Bytes)
      → (take_point (put_point p ++ rest) ≡ some (p, length (put_point p)))
        × (1 ≤ length (put_point p))
  unfolding take_point put_point point_bytes first take_compressed
  take_point-put p rest = elim (pe.point_cases p) [
    | inl e ↦ rw (e, pe.identity_to_bytes) (refl, omega arith)
    | inr (tag, x, b, t, n, r) ↦ rw b (compressed tag x t n r, omega arith)
  ]
    where
      compressed :
          (tag : ℕ) (x : Bytes)
          → (tag ≡ 2) ⊎ (tag ≡ 3)
          → length x ≡ 32
          → pe.from_encoded (tag ∷ x) ≡ some p
          → take_point (tag ∷ (x ++ rest)) ≡ some (p, length (tag ∷ x))
      compressed tag x t n r =
          unfold take_point first take_compressed in
          let k : length (tag ∷ x) ≡ 33 = omega arith in
          let read : take_compressed (tag ∷ (x ++ rest)) ≡ some (p, 33) =
            (unfold take_compressed point_from_encoded in
              rw (get_to-append 33 (tag ∷ x) rest (sym k), r) refl) in
          rw k (elim t [ inl e ↦ rw e (rw e at read) | inr e ↦ rw e (rw e at read) ])
