-- ===== src/Gf7/Bytes.antt =====
-- Small instances of the interfaces of `Encoding` and `Rng` at the field of seven elements: encodings of
-- the right lengths, a checksum in place of the hash, and a counter in place of the random source.
use ohm_ecdsa.Prelude.{
  ℕ, zero, suc, ◌+◌, ◌*◌, ◌%◌, ◌≡◌, ◌⊎◌, refl, sym, ap, ◌∙◌, List, [], ◌∷◌, Option, none, some,
  length, if◌then◌else◌, inl, inr, Bool-cases,
}
use ohm_ecdsa.Curve.{identity}
use ohm_ecdsa.Encoding.{Bytes, same_bytes, same_bytes_iff, Hash, ScalarEncoding, PointEncoding}
use ohm_ecdsa.Rng.{Rng}
use ohm_ecdsa.Dleq.{Digest}
use ohm_ecdsa.Sign.{XCoordinate}
use ohm_ecdsa.Gf7.{Gf7, g0, g1, g2, g3, g4, g5, g6, add7, gf7_group}

abbrev zeros : ℕ → Bytes
zeros zero = []
zeros (suc n) = 0 ∷ zeros n

checksum : Bytes → ℕ
checksum [] = 1
checksum (b ∷ bs) = (b + 3 * checksum bs) % 251

digest : Bytes → Bytes
unfolding checksum
digest b = checksum b ∷ zeros 31

instance unfoldable pub gf7_hash : Hash
unfolding digest
gf7_hash = record { sha256 = digest; length-sha256 = λ b. refl }

abbrev small : Gf7 → ℕ
small g0 = 0
small g1 = 1
small g2 = 2
small g3 = 3
small g4 = 4
small g5 = 5
small g6 = 6

-- The first of the listed elements whose encoding is these bytes.
abbrev first_with : (Gf7 → Bytes) → List Gf7 → Bytes → Option Gf7
first_with enc [] b = none
first_with enc (a ∷ xs) b = if same_bytes (enc a) b then some a else first_with enc xs b

pub first_with_sound :
    (enc : Gf7 → Bytes) (xs : List Gf7) (b : Bytes) (a : Gf7)
    → first_with enc xs b ≡ some a
    → enc a ≡ b
first_with_sound enc [] b a e = cc
first_with_sound enc (x ∷ xs) b a e = elim (Bool-cases (same_bytes (enc x) b)) [
  | inl t ↦
      let q : some x ≡ some a = rw t at e in
      let r : x ≡ a = cc in ap enc (sym r) ∙ (same_bytes_iff _ _).0 t
  | inr t ↦ first_with_sound enc xs b a (rw t at e)
]

abbrev all_elements : List Gf7
all_elements = g0 ∷ g1 ∷ g2 ∷ g3 ∷ g4 ∷ g5 ∷ g6 ∷ []

abbrev encode_scalar : Gf7 → Bytes
encode_scalar a = small a ∷ zeros 31

pub scalar_found : (a : Gf7) → first_with encode_scalar all_elements (encode_scalar a) ≡ some a
scalar_found g0 = refl
scalar_found g1 = refl
scalar_found g2 = refl
scalar_found g3 = refl
scalar_found g4 = refl
scalar_found g5 = refl
scalar_found g6 = refl

instance unfoldable pub gf7_scalars : ScalarEncoding Gf7
gf7_scalars = record {
  to_bytes = encode_scalar;
  from_repr = first_with encode_scalar all_elements;
  length-to_bytes = λ a. refl;
  from_repr-to_bytes = scalar_found;
  to_bytes-from_repr = λ b s. first_with_sound encode_scalar all_elements b s;
}

abbrev encode_point : Gf7 → Bytes
encode_point g0 = 0 ∷ []
encode_point a = 2 ∷ encode_scalar a

abbrev proper_points : List Gf7
proper_points = g1 ∷ g2 ∷ g3 ∷ g4 ∷ g5 ∷ g6 ∷ []

pub encode_point_cases :
    (p : Gf7)
    → (p ≡ g0)
      ⊎ ((tag : ℕ) × (x : Bytes) × (encode_point p ≡ tag ∷ x)
          × ((tag ≡ 2) ⊎ (tag ≡ 3))
          × (length x ≡ 32)
          × (first_with encode_point proper_points (tag ∷ x) ≡ some p))
encode_point_cases g0 = inl refl
encode_point_cases g1 = inr (2, encode_scalar g1, refl, inl refl, refl, refl)
encode_point_cases g2 = inr (2, encode_scalar g2, refl, inl refl, refl, refl)
encode_point_cases g3 = inr (2, encode_scalar g3, refl, inl refl, refl, refl)
encode_point_cases g4 = inr (2, encode_scalar g4, refl, inl refl, refl, refl)
encode_point_cases g5 = inr (2, encode_scalar g5, refl, inl refl, refl, refl)
encode_point_cases g6 = inr (2, encode_scalar g6, refl, inl refl, refl, refl)

instance unfoldable pub gf7_points : PointEncoding Gf7
unfolding gf7_group identity
gf7_points = record {
  to_bytes = encode_point;
  from_encoded = first_with encode_point proper_points;
  identity_to_bytes = refl;
  point_cases = encode_point_cases;
  to_bytes-from_encoded = λ b s. first_with_sound encode_point proper_points b s;
}

-- The generator counts up.
instance unfoldable pub gf7_rng : Rng Gf7 Gf7
unfolding add7
gf7_rng = record { random = λ r. (r, add7 r g1) }

-- The x-coordinate of a point and of its negation agree.
instance unfoldable pub gf7_x : XCoordinate Gf7 Gf7
gf7_x = record {
  x_scalar = λ p. elim p [
    | g0 ↦ none
    | g1 ↦ some g1
    | g2 ↦ some g2
    | g3 ↦ some g3
    | g4 ↦ some g3
    | g5 ↦ some g2
    | g6 ↦ some g1
  ];
}

-- The challenge is 3 whatever was hashed.
instance unfoldable pub gf7_digest : Digest Gf7
gf7_digest = record { scalar_from_digest = λ b. g3 }
