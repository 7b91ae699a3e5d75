-- ===== src/Shamir/Lagrange.antt =====
-- The weights and the sum of Lagrange interpolation: what the loops of `lagrange_coeffs_at` and
-- `interpolate_at` compute, and the polynomial that this sum is.
use ohm_ecdsa.Prelude.{
  ℕ, zero, suc, ◌+◌, ◌≤◌, ◌<◌, ◌≡◌, ◌≢◌, sym, refl, ap, ap₂, ◌∙◌, List, [], ◌∷◌, map, length, arith,
  some,
}
use ohm_ecdsa.Prelude.{All, Distinct, get_elem?}
use ohm_ecdsa.Field.{Field, zero_scalar, one_scalar, ◌⊕◌, ◌⊗◌, neg, invert, from_u64, order}
use ohm_ecdsa.Field.Laws.{
  ring, mul_assoc, mul-one, one-mul, add-zero, add_assoc, add-neg, mul-neg, invert-inverse, inverse,
}
use ohm_ecdsa.Field.Polynomial.{
  value, add_poly, scale_poly, value-add_poly, value-scale_poly, length-add_poly, length-scale_poly,
}
use ohm_ecdsa.Shamir.{PartyId, lagrange_coeff, lagrange_loop, dot_loop}
use ohm_ecdsa.Shamir.Products.{
  product, skip, factor_loop_lem, product_root, product_nonzero, length-skip, product_poly,
  value-product_poly, length-product_poly,
}

-- Parties that can interpolate: distinct, and below the order of the field.
abbrev pub IsQuorum : (F : Type 0) ⦃f : Field F⦄ → List PartyId → Type 0
IsQuorum F ps = Distinct ps × All (λ p. p < order F) ps

-- No two parties of the list stand for one point.
abbrev pub Separated : (F : Type 0) ⦃f : Field F⦄ → List PartyId → Type 0
Separated F ps =
    (i j : ℕ) (p q : PartyId)
    → get_elem? ps i ≡ some p
    → get_elem? ps j ≡ some q
    → i ≢ j
    → from_u64 {F = F} p ≢ from_u64 q

module _ {F : Type 0} ⦃f : Field F⦄ (all : List PartyId) where
  -- The inverse of party i's denominator.
  pub weight : ℕ → PartyId → F
  weight i p = inverse (product (from_u64 p) (skip i 0 all))

  -- The coefficients of the parties from the i-th on.
  unfoldable pub terms : F → ℕ → List PartyId → List F
  terms x i [] = []
  terms x i (p ∷ ps) = product x (skip i 0 all) ⊗ weight i p ∷ terms x (suc i) ps

  -- Σ yᵢ·λᵢ over the parties from the i-th on, for the shares g.
  pub lagrange_sum : (PartyId → F) → F → ℕ → List PartyId → F
  lagrange_sum g x i [] = zero_scalar
  lagrange_sum g x i (p ∷ ps) =
      product x (skip i 0 all) ⊗ weight i p ⊗ g p ⊕ lagrange_sum g x (suc i) ps

  pub dot_loop-terms :
      (g : PartyId → F) (x acc : F) (i : ℕ) (ps : List PartyId)
      → dot_loop acc (terms x i ps) (map g ps) ≡ acc ⊕ lagrange_sum g x i ps
  unfolding dot_loop terms lagrange_sum
  dot_loop-terms g x acc i [] = sym (add-zero acc)
  dot_loop-terms g x acc i (p ∷ ps) =
      dot_loop-terms g x (acc ⊕ product x (skip i 0 all) ⊗ weight i p ⊗ g p) (suc i) ps
      ∙ add_assoc _ _ _

  pub sum_poly : (PartyId → F) → ℕ → List PartyId → List F
  sum_poly g i [] = []
  sum_poly g i (p ∷ ps) =
      add_poly (scale_poly (weight i p ⊗ g p) (product_poly (skip i 0 all))) (sum_poly g (suc i) ps)

  pub value-sum_poly :
      (g : PartyId → F) (i : ℕ) (ps : List PartyId) (x : F)
      → value (sum_poly g i ps) x ≡ lagrange_sum g x i ps
  unfolding sum_poly lagrange_sum
  value-sum_poly g i [] x = unfold value in refl
  value-sum_poly g i (p ∷ ps) x =
      value-add_poly _ _ x
      ∙ rw
          (
            value-scale_poly _ (product_poly (skip i 0 all)) x,
            value-product_poly (skip i 0 all) x,
            value-sum_poly g (suc i) ps x,
          )
          (ap (λ t. t ⊕ lagrange_sum g x (suc i) ps) (sym (mul_assoc _ _ _)))

  pub length-sum_poly :
      (g : PartyId → F) (i : ℕ) (ps : List PartyId)
      → i + length ps ≤ length all
      → length (sum_poly g i ps) ≤ length all
  unfolding sum_poly
  length-sum_poly g i [] h = omega arith
  length-sum_poly g i (p ∷ ps) h =
      length-add_poly _ _ _
        (omega (
          arith,
          length-scale_poly (weight i p ⊗ g p) (product_poly (skip i 0 all)),
          length-product_poly (skip i 0 all),
          length-skip F i 0 all (omega arith) (omega arith),
        ))
        (length-sum_poly g (suc i) ps (omega arith))

  lagrange_sum_before :
      (g : PartyId → F) (i j : ℕ) (ps : List PartyId) {q : PartyId}
      → get_elem? all j ≡ some q
      → j < i
      → lagrange_sum g (from_u64 q) i ps ≡ zero_scalar
  unfolding lagrange_sum
  lagrange_sum_before g i j [] h lt = refl
  lagrange_sum_before g i j (p ∷ ps) h lt =
      rw
        (
          product_root i 0 j all h (λ e. (omega arith)),
          lagrange_sum_before g (suc i) j ps h (omega arith),
        )
        (simp ring)

  module _ (sep : Separated F all) where
    weight_inverse :
        (i : ℕ) (p : PartyId)
        → get_elem? all i ≡ some p
        → (invert (product (from_u64 p) (skip i 0 all)) ≡ some (weight i p))
          × (product (from_u64 p) (skip i 0 all) ⊗ weight i p ≡ one_scalar)
    unfolding weight
    weight_inverse i p h =
        invert-inverse _ (
          product_nonzero (from_u64 p) i 0 all
            (λ m q g ne. sep i m p q h g (λ t. ne (omega arith))))

    lagrange_coeff_lem :
        (x : F) (i : ℕ) (p : PartyId)
        → get_elem? all i ≡ some p
        → lagrange_coeff x all i p ≡ some (product x (skip i 0 all) ⊗ weight i p)
    unfolding lagrange_coeff
    lagrange_coeff_lem x i p h = rw (
      factor_loop_lem x (from_u64 p) i 0 all one_scalar one_scalar,
      one-mul,
      one-mul,
      (weight_inverse i p h).0,
    )

    pub lagrange_loop_lem :
        (x : F) (i : ℕ) (ps : List PartyId)
        → ((m : ℕ) → get_elem? ps m ≡ get_elem? all (i + m))
        → lagrange_loop x all i ps ≡ some (terms x i ps)
    unfolding lagrange_loop terms
    lagrange_loop_lem x i [] h = refl
    lagrange_loop_lem x i (p ∷ ps) h = rw (
      lagrange_coeff_lem x i p (ap (get_elem? all) (omega arith) ∙ sym (h 0)),
      lagrange_loop_lem x (suc i) ps (λ m. h (suc m) ∙ ap (get_elem? all) (omega arith)),
    )

    -- The sum takes the share's value at the point of each of the parties.
    lagrange_sum_at :
        (g : PartyId → F) (i m : ℕ) (ps : List PartyId) {q : PartyId}
        → get_elem? all (i + m) ≡ some q
        → get_elem? ps m ≡ some q
        → lagrange_sum g (from_u64 q) i ps ≡ g q
    unfolding lagrange_sum
    lagrange_sum_at g i m [] h k = cc
    lagrange_sum_at g i zero (p ∷ ps) {q} h k =
        let e : p ≡ q = ground arith in
        let h' : get_elem? all i ≡ some q = ap (get_elem? all) (omega arith) ∙ h in
        rw (e, (weight_inverse i q h').1, lagrange_sum_before g (suc i) i ps h' (omega arith))
          (simp ring)
    lagrange_sum_at g i (suc m) (p ∷ ps) {q} h k =
        rw
          (
            product_root i 0 (i + suc m) all h (λ e. (omega arith)),
            lagrange_sum_at g (suc i) m ps (ap (get_elem? all) (omega arith) ∙ h) k,
          )
          (simp ring)

    pub sum_poly_root :
        (cs : List F)
        → (m : ℕ) (q : PartyId) → get_elem? all m ≡ some q
        → value
            (add_poly
              (sum_poly (λ p. value cs (from_u64 p)) 0 all)
              (scale_poly (neg one_scalar) cs))
            (from_u64 q)
          ≡ zero_scalar
    sum_poly_root cs m q h =
        value-add_poly (sum_poly (λ p. value cs (from_u64 p)) 0 all)
          (scale_poly (neg one_scalar) cs) _
        ∙ (ap₂ ◌⊕◌
              (value-sum_poly _ 0 all _
                ∙ lagrange_sum_at _ 0 m all (ap (get_elem? all) (omega arith) ∙ h) h)
              (value-scale_poly (neg one_scalar) cs _)
            ∙ (ap (λ t. value cs (from_u64 q) ⊕ t) (mul-neg _ _ ∙ ap neg (mul-one _)) ∙ add-neg _))
