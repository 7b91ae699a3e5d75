-- ===== src/Encoding.antt =====
-- Code outside the repository that turns values into bytes: the canonical encodings of `k256` and the
-- hash function SHA-256. A byte is a number below 256.
use ohm_ecdsa.Prelude.{
  ℕ, ◌≡◌, ◌⊎◌, List, [], ◌∷◌, Option, some, length, Bool, true, false, ◌==◌, ◌↔◌, ◌/◌, ◌%◌, ◌^◌,
  refl, arith, if◌then◌else◌,
}
use ohm_ecdsa.Curve.{Group, identity}

abbrev pub Bytes : Type 0
Bytes = List ℕ

-- `==` on byte strings.
abbrev pub same_bytes : Bytes → Bytes → Bool
same_bytes [] [] = true
same_bytes (b ∷ bs) (c ∷ cs) = if b == c then same_bytes bs cs else false
same_bytes _ _ = false

pub same_bytes_iff : (a b : Bytes) → (same_bytes a b ≡ true) ↔ (a ≡ b)
same_bytes_iff [] [] = (λ _. refl, λ _. refl)
same_bytes_iff [] (c ∷ cs) = (λ e. cc, λ e. cc)
same_bytes_iff (b ∷ bs) [] = (λ e. cc, λ e. cc)
same_bytes_iff (b ∷ bs) (c ∷ cs) =
    (λ e. ground (arith, (same_bytes_iff bs cs).0), λ e. ground (arith, (same_bytes_iff bs cs).1))

-- SHA-256 gives 32 bytes.
pub record Hash : Type 0 where
  pub sha256 : Bytes → Bytes
  pub length-sha256 : (b : Bytes) → length (sha256 b) ≡ 32

-- The canonical encoding of a scalar has 32 bytes; `from_repr` reads exactly the encodings.
pub record ScalarEncoding (F : Type 0) : Type 0 where
  pub to_bytes : F → Bytes
  pub from_repr : Bytes → Option F
  pub length-to_bytes : (s : F) → length (to_bytes s) ≡ 32
  pub from_repr-to_bytes : (s : F) → from_repr (to_bytes s) ≡ some s
  pub to_bytes-from_repr : (b : Bytes) (s : F) → from_repr b ≡ some s → to_bytes s ≡ b

-- A point is encoded as SEC1: one zero byte for the identity, and else 33 bytes that begin with 2 or 3.
-- `from_encoded` is `EncodedPoint::from_bytes` and `AffinePoint::from_encoded_point` on 33 bytes.
pub record PointEncoding (G : Type 0) ⦃g : Group G⦄ : Type 0 where
  pub to_bytes : G → Bytes
  pub from_encoded : Bytes → Option G
  pub identity_to_bytes : to_bytes identity ≡ 0 ∷ []
  pub point_cases :
      (p : G)
      → (p ≡ identity)
        ⊎ ((tag : ℕ) × (x : Bytes) × (to_bytes p ≡ tag ∷ x)
            × ((tag ≡ 2) ⊎ (tag ≡ 3))
            × (length x ≡ 32)
            × (from_encoded (tag ∷ x) ≡ some p))
  pub to_bytes-from_encoded : (b : Bytes) (p : G) → from_encoded b ≡ some p → to_bytes p ≡ b

module _ ⦃h : Hash⦄ where
  unfoldable pub sha256 : Bytes → Bytes
  sha256 b = h.sha256 b

module _ {F : Type 0} ⦃e : ScalarEncoding F⦄ where
  unfoldable pub scalar_bytes : F → Bytes
  scalar_bytes s = e.to_bytes s

  unfoldable pub scalar_from_repr : Bytes → Option F
  scalar_from_repr b = e.from_repr b

module _ {G : Type 0} ⦃g : Group G⦄ ⦃e : PointEncoding G⦄ where
  unfoldable pub point_bytes : G → Bytes
  point_bytes p = e.to_bytes p

  unfoldable pub point_from_encoded : Bytes → Option G
  point_from_encoded b = e.from_encoded b

-- `(v as u64).to_be_bytes()`: eight bytes, the highest first.
unfoldable pub be_bytes : ℕ → Bytes
be_bytes v =
    (v / 2 ^ 56 % 256)
    ∷ (v / 2 ^ 48 % 256)
    ∷ (v / 2 ^ 40 % 256)
    ∷ (v / 2 ^ 32 % 256)
    ∷ (v / 2 ^ 24 % 256)
    ∷ (v / 2 ^ 16 % 256)
    ∷ (v / 2 ^ 8 % 256)
    ∷ (v % 256)
    ∷ []
