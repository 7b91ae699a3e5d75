-- ===== src/Field/Polynomial.antt =====
-- Polynomials over the scalar field, as lists of coefficients with the constant term first: their
-- values, sums and products with a linear factor, and the bound on the number of roots.
use ohm_ecdsa.Prelude.{
  ℕ, zero, suc, ◌-◌, ◌≤◌, ◌≡◌, ◌≢◌, sym, refl, ap, ◌∙◌, List, [], ◌∷◌, map, length, arith,
}
use ohm_ecdsa.Prelude.{All, Distinct, length-map}
use ohm_ecdsa.Field.{Field, zero_scalar, ◌⊕◌, ◌⊗◌, neg, ◌⊖◌}
use ohm_ecdsa.Field.Laws.{
  ring, add-zero, zero-add, mul-zero, zero-mul, mul_cancel, sub-ne-zero, mul-add, add-mul, sub-add,
}

module _ {F : Type 0} ⦃f : Field F⦄ where
  -- c₀ + c₁ x + c₂ x² + …
  unfoldable pub value : List F → F → F
  value [] x = zero_scalar
  value (c ∷ cs) x = value cs x ⊗ x ⊕ c

  value-cons : (c : F) (cs : List F) (x : F) → value (c ∷ cs) x ≡ value cs x ⊗ x ⊕ c
  unfolding value
  value-cons c cs x = refl

  unfoldable pub add_poly : List F → List F → List F
  add_poly [] ds = ds
  add_poly (c ∷ cs) [] = c ∷ cs
  add_poly (c ∷ cs) (d ∷ ds) = (c ⊕ d) ∷ add_poly cs ds

  unfoldable pub scale_poly : F → List F → List F
  scale_poly a = map (λ c. c ⊗ a)

  pub value-add_poly : (cs ds : List F) (x : F) → value (add_poly cs ds) x ≡ value cs x ⊕ value ds x
  unfolding value add_poly
  value-add_poly [] ds x = sym (zero-add _)
  value-add_poly (c ∷ cs) [] x = sym (add-zero _)
  value-add_poly (c ∷ cs) (d ∷ ds) x = simp (value-add_poly cs ds x, ring)

  pub value-scale_poly : (a : F) (cs : List F) (x : F) → value (scale_poly a cs) x ≡ value cs x ⊗ a
  unfolding value scale_poly
  value-scale_poly a [] x = sym (zero-mul a)
  value-scale_poly a (c ∷ cs) x = simp (value-scale_poly a cs x, ring)

  -- The product with X - a.
  unfoldable pub mul_root : F → List F → List F
  mul_root a cs = add_poly (zero_scalar ∷ cs) (scale_poly (neg a) cs)

  pub value-mul_root :
      (a : F) (cs : List F) (x : F) → value (mul_root a cs) x ≡ (x ⊖ a) ⊗ value cs x
  unfolding mul_root
  value-mul_root a cs x =
      value-add_poly (zero_scalar ∷ cs) (scale_poly (neg a) cs) x
      ∙ rw (value-scale_poly (neg a) cs x) (rw value-cons (simp ring))

  pub length-add_poly :
      (cs ds : List F) (n : ℕ) → length cs ≤ n → length ds ≤ n → length (add_poly cs ds) ≤ n
  unfolding add_poly
  length-add_poly [] ds n h k = k
  length-add_poly (c ∷ cs) [] n h k = h
  length-add_poly (c ∷ cs) (d ∷ ds) zero h k = absurd (omega arith)
  length-add_poly (c ∷ cs) (d ∷ ds) (suc n) h k =
      omega (arith, length-add_poly cs ds n (omega arith) (omega arith))

  pub length-scale_poly : (a : F) (cs : List F) → length (scale_poly a cs) ≡ length cs
  unfolding scale_poly
  length-scale_poly a cs = length-map cs _

  pub length-mul_root : (a : F) (cs : List F) → length (mul_root a cs) ≤ suc (length cs)
  unfolding mul_root
  length-mul_root a cs =
      length-add_poly (zero_scalar ∷ cs) _ _ (omega arith)
        (omega (arith, length-scale_poly (neg a) cs))

  -- The quotient by X - a.
  quotient : List F → F → List F
  quotient [] a = []
  quotient (c ∷ []) a = []
  quotient (c ∷ d ∷ cs) a = value (d ∷ cs) a ∷ quotient (d ∷ cs) a

  length-quotient : (cs : List F) (a : F) → length (quotient cs a) ≡ length cs - 1
  unfolding quotient
  length-quotient [] a = omega arith
  length-quotient (c ∷ []) a = omega arith
  length-quotient (c ∷ d ∷ cs) a = omega (arith, length-quotient (d ∷ cs) a)

  divide : (q v c x a : F) → ((x ⊖ a) ⊗ q ⊕ v) ⊗ x ⊕ c ≡ (x ⊖ a) ⊗ (q ⊗ x ⊕ v) ⊕ (v ⊗ a ⊕ c)
  divide q v c x a =
      ap (λ t. t ⊕ c) (add-mul ((x ⊖ a) ⊗ q) v x)
      ∙ (ap (λ t. (x ⊖ a) ⊗ q ⊗ x ⊕ t ⊕ c) (split x a v) ∙ regroup (x ⊖ a))
    where
      split : (x a v : F) → v ⊗ x ≡ v ⊗ (x ⊖ a) ⊕ v ⊗ a
      split x a v = ap (λ t. v ⊗ t) (sym (sub-add x a)) ∙ mul-add v (x ⊖ a) a

      regroup : (y : F) → y ⊗ q ⊗ x ⊕ (v ⊗ y ⊕ v ⊗ a) ⊕ c ≡ y ⊗ (q ⊗ x ⊕ v) ⊕ (v ⊗ a ⊕ c)
      regroup y = simp ring

  value-quotient :
      (cs : List F) (a x : F) → value cs x ≡ (x ⊖ a) ⊗ value (quotient cs a) x ⊕ value cs a
  unfolding value quotient
  value-quotient [] a x = simp ring
  value-quotient (c ∷ []) a x = simp ring
  value-quotient (c ∷ d ∷ cs) a x =
      ap (λ v. v ⊗ x ⊕ c) (value-quotient (d ∷ cs) a x) ∙ divide _ _ c x a

  root_quotient :
      (cs : List F) (a x : F)
      → value cs a ≡ zero_scalar
      → value cs x ≡ zero_scalar
      → x ≢ a
      → value (quotient cs a) x ≡ zero_scalar
  root_quotient cs a x ha hx ne = mul_cancel (x ⊖ a) (sub-ne-zero x a ne) (
      sym (add-zero _)
      ∙ (ap (λ v. (x ⊖ a) ⊗ value (quotient cs a) x ⊕ v) (sym ha)
          ∙ (sym (value-quotient cs a x) ∙ (hx ∙ sym (mul-zero _)))))

  roots_quotient :
      (cs : List F) (a : F) (xs : List F)
      → value cs a ≡ zero_scalar
      → All (λ x. value cs x ≡ zero_scalar) xs
      → All (λ x. x ≢ a) xs
      → All (λ x. value (quotient cs a) x ≡ zero_scalar) xs
  roots_quotient cs a [] ha h ne = tt
  roots_quotient cs a (x ∷ xs) ha (hx, h) (n, ne) =
      (root_quotient cs a x ha hx n, roots_quotient cs a xs ha h ne)

  -- A polynomial of at most n coefficients with n distinct roots is zero everywhere.
  pub vanish :
      (xs cs : List F)
      → Distinct xs
      → length cs ≤ length xs
      → All (λ x. value cs x ≡ zero_scalar) xs
      → (x : F) → value cs x ≡ zero_scalar
  vanish xs [] d le h x = unfold value in refl
  vanish [] (c ∷ cs) d le h x = absurd (omega arith)
  vanish (a ∷ xs) (c ∷ cs) (ne, d) le (ha, h) x =
      value-quotient (c ∷ cs) a x
      ∙ rw
          (vanish xs (quotient (c ∷ cs) a) d (omega (arith, length-quotient (c ∷ cs) a))
            (roots_quotient (c ∷ cs) a xs ha h ne) x)
          (rw ha (simp ring))
