-- ===== src/Curve/Laws.antt =====
-- The laws of points over the operators, and what follows for the generator.
use ohm_ecdsa.Prelude.{true, false, ◌↔◌, ◌≡◌, ◌≢◌, inl, inr, sym, refl, ◌∙◌, ap, Bool-cases}
use ohm_ecdsa.Field.{Field, zero_scalar, one_scalar, ◌⊕◌, ◌⊗◌}
use ohm_ecdsa.Field.Laws.{zero-mul}
use ohm_ecdsa.Curve.{Group, Action, identity, generator, ◌⊞◌, ◌=ₚ◌, ◌⊡◌}

module _ {G : Type 0} ⦃g : Group G⦄ where
  pub padd_assoc : (p q r : G) → (p ⊞ q) ⊞ r ≡ p ⊞ (q ⊞ r)
  unfolding ◌⊞◌
  padd_assoc = g.add_assoc

  pub padd_comm : (p q : G) → p ⊞ q ≡ q ⊞ p
  unfolding ◌⊞◌
  padd_comm = g.add_comm

  pub identity-padd : (p : G) → identity ⊞ p ≡ p
  unfolding ◌⊞◌ identity
  identity-padd = g.identity-add

  pub padd-identity : (p : G) → p ⊞ identity ≡ p
  padd-identity p = padd_comm p identity ∙ identity-padd p

  pub padd_left_comm : (p q r : G) → p ⊞ (q ⊞ r) ≡ q ⊞ (p ⊞ r)
  padd_left_comm p q r =
      sym (padd_assoc p q r) ∙ (ap (λ x. x ⊞ r) (padd_comm p q) ∙ padd_assoc q p r)

  pub =ₚ_iff : (p q : G) → ((p =ₚ q) ≡ true) ↔ (p ≡ q)
  unfolding ◌=ₚ◌
  =ₚ_iff = g.beq_iff

  pub =ₚ_refl : (p : G) → (p =ₚ p) ≡ true
  =ₚ_refl p = (=ₚ_iff p p).1 refl

  pub =ₚ_false : (p q : G) → p ≢ q → (p =ₚ q) ≡ false
  =ₚ_false p q h = elim (Bool-cases (p =ₚ q)) [ inl e ↦ absurd (h ((=ₚ_iff p q).0 e)) | inr e ↦ e ]

pub ruleset point_sums = (padd_assoc, padd_comm, padd_left_comm, padd-identity, identity-padd)

-- The scalar type is explicit where no argument shows it.
module _ (F : Type 0) {G : Type 0} ⦃f : Field F⦄ ⦃g : Group G⦄ ⦃c : Action F G⦄ where
  pub pmul-zero : (p : G) → p ⊡ zero_scalar {F = F} ≡ identity
  unfolding ◌⊡◌ identity
  pmul-zero = c.mul-zero

  pub pmul-one : (p : G) → p ⊡ one_scalar {F = F} ≡ p
  unfolding ◌⊡◌
  pmul-one = c.mul-one

  pub log : G → F
  log = c.log

  pub generator-log : (p : G) → generator ⊡ log p ≡ p
  unfolding ◌⊡◌ log generator
  generator-log = c.generator-log

module _ {F G : Type 0} ⦃f : Field F⦄ ⦃g : Group G⦄ ⦃c : Action F G⦄ where
  pub pmul-add : (p : G) (a b : F) → p ⊡ (a ⊕ b) ≡ p ⊡ a ⊞ p ⊡ b
  unfolding ◌⊡◌ ◌⊞◌
  pmul-add = c.mul-add

  pub padd-mul : (p q : G) (a : F) → (p ⊞ q) ⊡ a ≡ p ⊡ a ⊞ q ⊡ a
  unfolding ◌⊡◌ ◌⊞◌
  padd-mul = c.add-mul

  pub pmul-mul : (p : G) (a b : F) → p ⊡ a ⊡ b ≡ p ⊡ (a ⊗ b)
  unfolding ◌⊡◌
  pmul-mul = c.mul-mul

  pub identity-pmul : (a : F) → identity {G = G} ⊡ a ≡ identity
  identity-pmul a =
      ap (λ p. p ⊡ a) (sym (pmul-zero F identity))
      ∙ (pmul-mul identity zero_scalar a
          ∙ (ap (λ (x : F). identity {G = G} ⊡ x) (zero-mul a) ∙ pmul-zero F identity))

module _ {F : Type 0} (G : Type 0) ⦃f : Field F⦄ ⦃g : Group G⦄ ⦃c : Action F G⦄ where
  pub log-generator : (a : F) → log F (generator {G = G} ⊡ a) ≡ a
  unfolding ◌⊡◌ log generator
  log-generator = c.log-generator

  -- Two scalars with the same public point are equal.
  pub generator_injective : {a b : F} → generator {G = G} ⊡ a ≡ generator ⊡ b → a ≡ b
  generator_injective {a} {b} h = sym (log-generator a) ∙ (ap (log F) h ∙ log-generator b)
