-- ===== src/Shamir/Products.antt =====
-- The numerators and denominators of `lagrange_coeffs_at` as products over the other parties, and
-- as polynomials in the point of interpolation.
use ohm_ecdsa.Prelude.{
  ℕ, zero, suc, ◌+◌, ◌≤◌, ◌<◌, ◌≡◌, ◌≢◌, sym, refl, ap, ◌∙◌, List, [], ◌∷◌, length, arith, some,
  ◌==◌, Bool-cases, inl, inr,
}
use ohm_ecdsa.Prelude.{get_elem?, if◌then◌else◌}
use ohm_ecdsa.Field.{Field, zero_scalar, one_scalar, ◌⊗◌, ◌⊖◌, from_u64}
use ohm_ecdsa.Field.Laws.{
  ring, mul_assoc, mul-one, mul-zero, zero-mul, sub_self, one-ne-zero, mul-ne-zero, sub-ne-zero,
}
use ohm_ecdsa.Field.Polynomial.{value, mul_root, value-mul_root, length-mul_root}
use ohm_ecdsa.Shamir.{PartyId, factor_loop}

module _ {F : Type 0} ⦃f : Field F⦄ where
  -- (x - y₀) (x - y₁) …
  unfoldable pub product : F → List F → F
  product x [] = one_scalar
  product x (y ∷ ys) = (x ⊖ y) ⊗ product x ys

  -- The points of all parties but the i-th, counted from k.
  unfoldable pub skip : ℕ → ℕ → List PartyId → List F
  skip i k [] = []
  skip i k (p ∷ ps) = if k == i then skip i (suc k) ps else from_u64 p ∷ skip i (suc k) ps

  pub factor_loop_lem :
      (x xi : F) (i k : ℕ) (ps : List PartyId) (num den : F)
      → factor_loop x xi i k ps num den
        ≡ (num ⊗ product x (skip i k ps), den ⊗ product xi (skip i k ps))
  unfolding factor_loop product skip
  factor_loop_lem x xi i k [] num den = λ t. (sym (mul-one num) t, sym (mul-one den) t)
  factor_loop_lem x xi i k (p ∷ ps) num den = elim (Bool-cases (k == i)) [
    | inl e ↦ rw e (factor_loop_lem x xi i (suc k) ps num den)
    | inr e ↦ rw e (
        factor_loop_lem x xi i (suc k) ps (num ⊗ (x ⊖ from_u64 p)) (den ⊗ (xi ⊖ from_u64 p)) ∙ (λ t.
          (
            mul_assoc num (x ⊖ from_u64 p) (product x (skip i (suc k) ps)) t,
            mul_assoc den (xi ⊖ from_u64 p) (product xi (skip i (suc k) ps)) t,
          )))
  ]

  -- The product is zero at the point of a party that is not skipped.
  pub product_root :
      (i k m : ℕ) (ps : List PartyId) {p : PartyId}
      → get_elem? ps m ≡ some p
      → k + m ≢ i
      → product (from_u64 p) (skip i k ps) ≡ zero_scalar
  unfolding product skip
  product_root i k m [] h ne = cc
  product_root i k zero (q ∷ ps) {p} h ne = elim (Bool-cases (k == i)) [
    | inl e ↦ absurd (ne (ground arith))
    | inr e ↦ rw e (
        ap (λ v. v ⊗ product (from_u64 p) (skip i (suc k) ps))
          (ap (λ y. from_u64 p ⊖ y) same ∙ sub_self _)
        ∙ zero-mul _)
  ]
    where
      same : from_u64 {F = F} q ≡ from_u64 p
      same = ap from_u64 (ground arith)
  product_root i k (suc m) (q ∷ ps) {p} h ne =
      let ih : product (from_u64 p) (skip i (suc k) ps) ≡ zero_scalar =
        product_root i (suc k) m ps h (λ e. ne (omega arith)) in
      elim (Bool-cases (k == i)) [
        | inl e ↦ rw e ih
        | inr e ↦ rw e (ap (λ v. (from_u64 p ⊖ from_u64 q) ⊗ v) ih ∙ mul-zero _)
      ]

  pub product_nonzero :
      (x : F) (i k : ℕ) (ps : List PartyId)
      → ((m : ℕ) (p : PartyId) → get_elem? ps m ≡ some p → k + m ≢ i → x ≢ from_u64 p)
      → product x (skip i k ps) ≢ zero_scalar
  unfolding product skip
  product_nonzero x i k [] h = one-ne-zero
  product_nonzero x i k (p ∷ ps) h =
      let ih : product x (skip i (suc k) ps) ≢ zero_scalar =
        product_nonzero x i (suc k) ps (λ m q e ne. h (suc m) q e (λ r. ne (omega arith))) in
      elim (Bool-cases (k == i)) [
        | inl e ↦ rw e ih
        | inr e ↦ rw e (mul-ne-zero _ _ (sub-ne-zero x (from_u64 p) (h 0 p refl (ground arith))) ih)
      ]

module _ (F : Type 0) ⦃f : Field F⦄ where
  length-skip_out : (i k : ℕ) (ps : List PartyId) → i < k → length (skip {F = F} i k ps) ≡ length ps
  unfolding skip
  length-skip_out i k [] h = refl
  length-skip_out i k (p ∷ ps) h = ground (arith, length-skip_out i (suc k) ps)

  pub length-skip :
      (i k : ℕ) (ps : List PartyId)
      → k ≤ i
      → i < k + length ps
      → suc (length (skip {F = F} i k ps)) ≡ length ps
  unfolding skip
  length-skip i k [] h lt = absurd (omega arith)
  length-skip i k (p ∷ ps) h lt = elim (Bool-cases (k == i)) [
    | inl e ↦ rw e (ap suc (length-skip_out i (suc k) ps (ground arith)))
    | inr e ↦ rw e (ap suc (length-skip i (suc k) ps (ground arith) (omega arith)))
  ]

module _ {F : Type 0} ⦃f : Field F⦄ where
  -- The product as a polynomial in x.
  unfoldable pub product_poly : List F → List F
  product_poly [] = one_scalar ∷ []
  product_poly (y ∷ ys) = mul_root y (product_poly ys)

  pub value-product_poly : (ys : List F) (x : F) → value (product_poly ys) x ≡ product x ys
  unfolding product_poly product
  value-product_poly [] x = unfold value in simp ring
  value-product_poly (y ∷ ys) x = rw (value-mul_root, value-product_poly ys x)

  pub length-product_poly : (ys : List F) → length (product_poly ys) ≤ suc (length ys)
  unfolding product_poly
  length-product_poly [] = omega arith
  length-product_poly (y ∷ ys) =
      omega (arith, length-mul_root y (product_poly ys), length-product_poly ys)
