-- ===== src/Triples/Product.antt =====
-- The algebra of a triple: the Lagrange sum of the re-shared local products is the product of the secrets.
use ohm_ecdsa.Prelude.{
  ℕ, ◌+◌, ◌-◌, ◌*◌, ◌≤◌, ◌≡◌, refl, sym, ap, ap₂, ◌∙◌, List, [], ◌∷◌, Option, none, some, map,
  length, arith,
}
use ohm_ecdsa.Core.{PartyId}
use ohm_ecdsa.Field.{Field, zero_scalar, ◌⊕◌, ◌⊗◌, from_u64}
use ohm_ecdsa.Field.Laws.{mul_comm}
use ohm_ecdsa.Field.Product.{mul_poly, value-mul_poly, length-mul_poly}
use ohm_ecdsa.Curve.{Group, Action, identity, generator, ◌⊞◌, ◌⊡◌}
use ohm_ecdsa.Curve.Laws.{pmul-add, pmul-mul, identity-padd}
use ohm_ecdsa.Shamir.{ShamirPoly, eval, eval_at, lagrange_coeffs, dot_loop, interpolate_at}
use ohm_ecdsa.Shamir.Horner.{eval_at-value, eval-value}
use ohm_ecdsa.Shamir.Lagrange.{IsQuorum}
use ohm_ecdsa.Shamir.Interpolate.{interpolate_at-eval}
use ohm_ecdsa.Vss.{FeldmanCommitment, eval_at_point, scale}
use ohm_ecdsa.Vss.Laws.{eval_at_point-add, eval_at_point-scale}
use ohm_ecdsa.Triples.{accumulate}

-- The entries of two lists, multiplied.
abbrev pub products : {F : Type 0} ⦃f : Field F⦄ → List F → List F → List F
products [] bs = []
products (a ∷ as') [] = []
products (a ∷ as') (b ∷ bs) = a ⊗ b ∷ products as' bs

module _ {F : Type 0} ⦃f : Field F⦄ where
  product_poly : ShamirPoly F → ShamirPoly F → ShamirPoly F
  product_poly p q = record { coeffs = mul_poly p.coeffs q.coeffs }

  products-eval :
      (p q : ShamirPoly F) (ids : List PartyId)
      → products (map (eval p) ids) (map (eval q) ids) ≡ map (eval (product_poly p q)) ids
  unfolding product_poly
  products-eval p q [] = refl
  products-eval p q (i ∷ ids) =
      ap₂ ◌∷◌
        (ap₂ ◌⊗◌ (eval-value p i) (eval-value q i)
          ∙ (sym (value-mul_poly p.coeffs q.coeffs (from_u64 i))
              ∙ sym (eval-value (product_poly p q) i)))
        (products-eval p q ids)

  -- From 2t - 1 parties, the products of the shares of two polynomials of t coefficients sum up, with the
  -- Lagrange coefficients, to the product of the two secrets.
  pub lagrange_product :
      (p q : ShamirPoly F) (t : ℕ) (ids : List PartyId) (lambdas : List F)
      → IsQuorum F ids
      → 1 ≤ t
      → 2 * t ≤ length ids + 1
      → length p.coeffs ≤ t
      → length q.coeffs ≤ t
      → lagrange_coeffs ids ≡ some lambdas
      → dot_loop zero_scalar lambdas (products (map (eval p) ids) (map (eval q) ids))
        ≡ eval_at p zero_scalar ⊗ eval_at q zero_scalar
  unfolding lagrange_coeffs
  lagrange_product p q t ids lambdas quorum t1 n lp lq h =
      let r : some (dot_loop zero_scalar lambdas (map (eval (product_poly p q)) ids))
          ≡ some (eval_at (product_poly p q) zero_scalar) =
        dotted in
      ap (dot_loop zero_scalar lambdas) (products-eval p q ids)
      ∙ (cc r
          ∙ (eval_at-value (product_poly p q) zero_scalar
              ∙ (unfold product_poly in
                  (value-mul_poly p.coeffs q.coeffs zero_scalar)
                  ∙ ap₂ ◌⊗◌ (sym (eval_at-value p zero_scalar))
                      (sym (eval_at-value q zero_scalar)))))
    where
      short : length (product_poly p q).coeffs ≤ length ids
      short =
          unfold product_poly in
          omega (arith, length-mul_poly p.coeffs q.coeffs t (t - 1) lp (omega arith))

      opened :
          interpolate_at zero_scalar ids (map (eval (product_poly p q)) ids)
          ≡ some (dot_loop zero_scalar lambdas (map (eval (product_poly p q)) ids))
      opened = unfold interpolate_at in rw h

      dotted :
          some (dot_loop zero_scalar lambdas (map (eval (product_poly p q)) ids))
          ≡ some (eval_at (product_poly p q) zero_scalar)
      dotted = sym opened ∙ interpolate_at-eval zero_scalar (product_poly p q) ids quorum short

module _ {G : Type 0} ⦃g : Group G⦄ where
  -- What T3 forms from the commitments of the dealers.
  unfoldable pub weighted :
      {F : Type 0} ⦃f : Field F⦄ ⦃c : Action F G⦄
      → List F
      → List (FeldmanCommitment G)
      → Option (FeldmanCommitment G)
      → Option (FeldmanCommitment G)
  weighted [] cms sum = sum
  weighted (l ∷ ls) [] sum = sum
  weighted (l ∷ ls) (d ∷ ds) sum = weighted ls ds (some (accumulate sum (scale d l)))

module _ {F G : Type 0} ⦃f : Field F⦄ ⦃g : Group G⦄ ⦃c : Action F G⦄ where
  -- The value of the sum so far.
  abbrev pub sum_at : Option (FeldmanCommitment G) → F → G
  sum_at none x = identity
  sum_at (some d) x = eval_at_point d x

  accumulate_lem :
      (sum : Option (FeldmanCommitment G)) (d : FeldmanCommitment G) (x : F)
      → eval_at_point (accumulate sum d) x ≡ sum_at sum x ⊞ eval_at_point d x
  unfolding accumulate
  accumulate_lem none d x = sym (identity-padd _)
  accumulate_lem (some e) d x = eval_at_point-add e d x

  -- Each commitment has the given scalar at x.
  abbrev pub Commits : F → List F → List (FeldmanCommitment G) → Type 0
  Commits x [] [] = Unit
  Commits x (s ∷ ss) (d ∷ ds) = (eval_at_point d x ≡ generator ⊡ s) × Commits x ss ds
  Commits x _ _ = ⊥

  pub weighted_value :
      (x acc : F) (ls ss : List F) (ds : List (FeldmanCommitment G))
      (sum : Option (FeldmanCommitment G))
      → Commits x ss ds
      → sum_at sum x ≡ generator ⊡ acc
      → sum_at (weighted ls ds sum) x ≡ generator ⊡ dot_loop acc ls ss
  unfolding weighted dot_loop
  weighted_value x acc [] ss ds sum h e = e
  weighted_value x acc (l ∷ ls) [] [] sum h e = e
  weighted_value x acc (l ∷ ls) [] (d ∷ ds) sum h e = elim h [ ]
  weighted_value x acc (l ∷ ls) (s ∷ ss) [] sum h e = elim h [ ]
  weighted_value x acc (l ∷ ls) (s ∷ ss) (d ∷ ds) sum (v, h) e =
      weighted_value x (acc ⊕ l ⊗ s) ls ss ds (some (accumulate sum (scale d l))) h (
        accumulate_lem sum (scale d l) x
        ∙ (ap₂ ◌⊞◌ e (
              eval_at_point-scale d l x
              ∙ (ap (λ p. p ⊡ l) v
                  ∙ (pmul-mul generator s l ∙ ap (λ a. generator ⊡ a) (mul_comm s l))))
            ∙ sym (pmul-add generator acc (l ⊗ s))))
