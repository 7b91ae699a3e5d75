-- ===== src/Curve.antt =====
-- What the code uses of `k256::ProjectivePoint`: a cyclic group of prime order with its generator,
-- and the multiplication of a point by a scalar.
pub mod Laws
use ohm_ecdsa.Prelude.{Bool, true, ◌↔◌, ◌≡◌}
use ohm_ecdsa.Field.{Field, zero_scalar, one_scalar, ◌⊕◌, ◌⊗◌}

pub record Group (G : Type 0) : Type 0 where
  pub identity : G
  pub generator : G
  pub add : G → G → G
  pub beq : G → G → Bool
  pub add_assoc : (p q r : G) → add (add p q) r ≡ add p (add q r)
  pub add_comm : (p q : G) → add p q ≡ add q p
  pub identity-add : (p : G) → add identity p ≡ p
  pub beq_iff : (p q : G) → (beq p q ≡ true) ↔ (p ≡ q)

-- `log` is the discrete logarithm. The code has no such function: the group is cyclic of order q.
pub record Action (F G : Type 0) ⦃f : Field F⦄ ⦃g : Group G⦄ : Type 0 where
  pub mul : G → F → G
  pub log : G → F
  pub mul-zero : (p : G) → mul p zero_scalar ≡ g.identity
  pub mul-one : (p : G) → mul p one_scalar ≡ p
  pub mul-add : (p : G) (a b : F) → mul p (a ⊕ b) ≡ g.add (mul p a) (mul p b)
  pub add-mul : (p q : G) (a : F) → mul (g.add p q) a ≡ g.add (mul p a) (mul q a)
  pub mul-mul : (p : G) (a b : F) → mul (mul p a) b ≡ mul p (a ⊗ b)
  pub generator-log : (p : G) → mul g.generator (log p) ≡ p
  pub log-generator : (a : F) → log (mul g.generator a) ≡ a

module _ {G : Type 0} ⦃g : Group G⦄ where
  infixl 65 ◌⊞◌
  infix 50 ◌=ₚ◌
  unfoldable pub identity : G
  identity = g.identity

  unfoldable pub generator : G
  generator = g.generator

  unfoldable pub ◌⊞◌ : G → G → G
  p ⊞ q = g.add p q

  unfoldable pub ◌=ₚ◌ : G → G → Bool
  p =ₚ q = g.beq p q

module _ {F G : Type 0} ⦃f : Field F⦄ ⦃g : Group G⦄ ⦃c : Action F G⦄ where
  infixl 70 ◌⊡◌
  unfoldable pub ◌⊡◌ : G → F → G
  p ⊡ a = c.mul p a
