-- ===== src/Field.antt =====
-- What the code uses of `k256::Scalar`: the operations, and the laws of the prime field that the
-- crate documents. `order` is the number of the field's elements.
pub mod Laws
pub mod Polynomial
pub mod Product
use ohm_ecdsa.Prelude.{Bool, true, ◌↔◌, ◌≡◌, ◌≢◌, Option, none, some, ℕ, ◌+◌, ◌<◌}

pub record Field (F : Type 0) : Type 0 where
  pub zero : F
  pub one : F
  pub add : F → F → F
  pub mul : F → F → F
  pub neg : F → F
  pub invert : F → Option F
  pub beq : F → F → Bool
  pub from_u64 : ℕ → F
  pub order : ℕ
  pub add_assoc : (a b c : F) → add (add a b) c ≡ add a (add b c)
  pub add_comm : (a b : F) → add a b ≡ add b a
  pub zero-add : (a : F) → add zero a ≡ a
  pub add-neg : (a : F) → add a (neg a) ≡ zero
  pub mul_assoc : (a b c : F) → mul (mul a b) c ≡ mul a (mul b c)
  pub mul_comm : (a b : F) → mul a b ≡ mul b a
  pub one-mul : (a : F) → mul one a ≡ a
  pub mul-add : (a b c : F) → mul a (add b c) ≡ add (mul a b) (mul a c)
  pub invert-zero : invert zero ≡ none
  pub invert_nonzero : (a : F) → a ≢ zero → (b : F) × (invert a ≡ some b) × (mul a b ≡ one)
  pub one-ne-zero : one ≢ zero
  pub from_u64-add : (m n : ℕ) → from_u64 (m + n) ≡ add (from_u64 m) (from_u64 n)
  pub from_u64_injective : {m n : ℕ} → m < order → n < order → from_u64 m ≡ from_u64 n → m ≡ n
  pub beq_iff : (a b : F) → (beq a b ≡ true) ↔ (a ≡ b)

-- The operators of the source. They are shut: proofs use the laws of `Field.Laws`.
module _ {F : Type 0} ⦃f : Field F⦄ where
  infixl 65 ◌⊕◌ ◌⊖◌
  infixl 70 ◌⊗◌
  infix 50 ◌=?◌
  unfoldable pub zero_scalar : F
  zero_scalar = f.zero

  unfoldable pub one_scalar : F
  one_scalar = f.one

  unfoldable pub ◌⊕◌ : F → F → F
  a ⊕ b = f.add a b

  unfoldable pub ◌⊗◌ : F → F → F
  a ⊗ b = f.mul a b

  unfoldable pub neg : F → F
  neg a = f.neg a

  abbrev pub ◌⊖◌ : F → F → F
  a ⊖ b = a ⊕ (neg b)

  unfoldable pub ◌=?◌ : F → F → Bool
  a =? b = f.beq a b

  unfoldable pub invert : F → Option F
  invert a = f.invert a

  unfoldable pub from_u64 : ℕ → F
  from_u64 n = f.from_u64 n

module _ (F : Type 0) ⦃f : Field F⦄ where
  unfoldable pub order : ℕ
  order = f.order
