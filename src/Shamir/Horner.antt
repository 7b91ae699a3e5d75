-- ===== src/Shamir/Horner.antt =====
-- Evaluation: the loop of `eval_at` computes the value of the polynomial.
use ohm_ecdsa.Prelude.{◌≡◌, refl, ap, ◌∙◌, List, [], ◌∷◌, ◌++◌, reverse}
use ohm_ecdsa.Field.{Field, zero_scalar, ◌⊕◌, ◌⊗◌, from_u64}
use ohm_ecdsa.Field.Polynomial.{value}
use ohm_ecdsa.Shamir.{PartyId, ShamirPoly, horner, eval_at, eval}
use mathlib.Core.List.{reverse-append}

module _ {F : Type 0} ⦃f : Field F⦄ where
  horner-append :
      (x acc : F) (cs ds : List F) → horner x acc (cs ++ ds) ≡ horner x (horner x acc cs) ds
  unfolding horner
  horner-append x acc [] ds = refl
  horner-append x acc (c ∷ cs) ds = horner-append x (acc ⊗ x ⊕ c) cs ds

  horner-reverse : (x : F) (cs : List F) → horner x zero_scalar (reverse cs) ≡ value cs x
  unfolding value
  horner-reverse x [] = unfold horner in refl
  horner-reverse x (c ∷ cs) =
      ap (horner x zero_scalar) (reverse-append (c ∷ []) cs)
      ∙ (horner-append x zero_scalar (reverse cs) (c ∷ [])
          ∙ rw (horner-reverse x cs) (unfold horner in refl))

  -- `eval_at` is the value c₀ + c₁ x + … of the polynomial.
  pub eval_at-value : (p : ShamirPoly F) (x : F) → eval_at p x ≡ value p.coeffs x
  unfolding eval_at
  eval_at-value p x = horner-reverse x p.coeffs

  pub eval-value : (p : ShamirPoly F) (j : PartyId) → eval p j ≡ value p.coeffs (from_u64 j)
  unfolding eval
  eval-value p j = eval_at-value p (from_u64 j)
