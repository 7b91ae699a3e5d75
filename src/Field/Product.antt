-- ===== src/Field/Product.antt =====
-- Products of polynomials over the scalar field, for the products of shared values.
use ohm_ecdsa.Prelude.{ℕ, suc, ◌+◌, ◌≤◌, ◌≡◌, sym, ap, ◌∙◌, List, [], ◌∷◌, length, arith}
use ohm_ecdsa.Field.{Field, zero_scalar, ◌⊕◌, ◌⊗◌}
use ohm_ecdsa.Field.Laws.{ring, zero-mul, mul_comm}
use ohm_ecdsa.Field.Polynomial.{
  value, add_poly, scale_poly, value-add_poly, value-scale_poly, length-add_poly, length-scale_poly,
}

module _ {F : Type 0} ⦃f : Field F⦄ where
  unfoldable pub mul_poly : List F → List F → List F
  mul_poly [] ds = []
  mul_poly (c ∷ cs) ds = add_poly (scale_poly c ds) (zero_scalar ∷ mul_poly cs ds)

  pub value-mul_poly : (cs ds : List F) (x : F) → value (mul_poly cs ds) x ≡ value cs x ⊗ value ds x
  unfolding mul_poly value
  value-mul_poly [] ds x = sym (zero-mul _)
  value-mul_poly (c ∷ cs) ds x =
      value-add_poly (scale_poly c ds) (zero_scalar ∷ mul_poly cs ds) x
      ∙ simp (value-scale_poly c ds x, value-mul_poly cs ds x, ring)
          (ap (λ t. c ⊗ value ds x ⊕ x ⊗ t) (mul_comm (value cs x) (value ds x)))

  -- The degrees add up.
  pub length-mul_poly :
      (cs ds : List F) (m n : ℕ)
      → length cs ≤ m
      → length ds ≤ suc n
      → length (mul_poly cs ds) ≤ m + n
  unfolding mul_poly
  length-mul_poly [] ds m n h k = omega arith
  length-mul_poly (c ∷ cs) ds m n h k =
      length-add_poly (scale_poly c ds) (zero_scalar ∷ mul_poly cs ds) (m + n)
        (omega (arith, length-scale_poly c ds))
        (omega (arith, length-mul_poly cs ds (length cs) n (omega arith) k))
