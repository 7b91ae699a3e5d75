-- ===== src/Shamir.antt =====
-- src/primitives/shamir.rs: sharing polynomials over the scalar field, their evaluation, and Lagrange
-- interpolation. `none` is the panic of `expect` on a denominator with no inverse.
pub mod Horner
pub mod Products
pub mod Lagrange
pub mod Interpolate
mod Tests
use ohm_ecdsa.Prelude.{
  ℕ, zero, suc, ◌-◌, ◌+◌, List, [], ◌∷◌, reverse, Option, none, some, Bool, ◌==◌, if◌then◌else◌,
  replicate, map,
}
use ohm_ecdsa.Prelude.Options.{◌>>=◌}
pub use ohm_ecdsa.Core.{PartyId}
use ohm_ecdsa.Field.{Field, zero_scalar, one_scalar, ◌⊕◌, ◌⊗◌, ◌⊖◌, invert, from_u64}
use ohm_ecdsa.Rng.{Rng, random_list}

pub record ShamirPoly (F : Type 0) : Type 0 where
  pub coeffs : List F

module _ {F R : Type 0} ⦃g : Rng F R⦄ where
  -- The secret, and t - 1 random coefficients behind it.
  unfoldable pub random_poly : F → ℕ → R → ShamirPoly F × R
  random_poly secret t rng =
      let (cs, rng') = random_list (t - 1) rng in (record { coeffs = secret ∷ cs }, rng')

module _ {F : Type 0} ⦃f : Field F⦄ where
  -- `for c in coeffs.iter().rev() { acc = acc * x + c }`
  pub horner : F → F → List F → F
  horner x acc [] = acc
  horner x acc (c ∷ cs) = horner x (acc ⊗ x ⊕ c) cs

  unfoldable pub eval_at : ShamirPoly F → F → F
  unfolding horner
  eval_at p x = horner x zero_scalar (reverse p.coeffs)

  unfoldable pub eval : ShamirPoly F → PartyId → F
  eval p j = eval_at p (from_u64 j)

  -- The inner loop of `lagrange_coeffs_at`: the numerator and the denominator of party i, over all
  -- parties but the i-th. `k` counts the parties.
  pub factor_loop : F → F → ℕ → ℕ → List PartyId → F → F → F × F
  factor_loop x xi i k [] num den = (num, den)
  factor_loop x xi i k (p ∷ ps) num den =
      factor_loop x xi i (suc k) ps (if k == i then num else num ⊗ (x ⊖ from_u64 p))
        (if k == i then den else den ⊗ (xi ⊖ from_u64 p))

  pub lagrange_coeff : F → List PartyId → ℕ → PartyId → Option F
  unfolding factor_loop
  lagrange_coeff x parties i pi =
      let (num, den) = factor_loop x (from_u64 pi) i 0 parties one_scalar one_scalar in
      do den_inv ← invert den; some (num ⊗ den_inv)

  pub lagrange_loop : F → List PartyId → ℕ → List PartyId → Option (List F)
  lagrange_loop x parties i [] = some []
  lagrange_loop x parties i (p ∷ ps) = do
    c ← lagrange_coeff x parties i p
    rest ← lagrange_loop x parties (suc i) ps
    some (c ∷ rest)

  unfoldable pub lagrange_coeffs_at : F → List PartyId → Option (List F)
  unfolding lagrange_loop lagrange_coeff
  lagrange_coeffs_at x parties = lagrange_loop x parties 0 parties

  unfoldable pub lagrange_coeffs : List PartyId → Option (List F)
  lagrange_coeffs parties = lagrange_coeffs_at zero_scalar parties

  -- `for (l, s) in lambdas.iter().zip(shares) { acc += l * s }`
  unfoldable pub dot_loop : F → List F → List F → F
  dot_loop acc [] ss = acc
  dot_loop acc (l ∷ ls) [] = acc
  dot_loop acc (l ∷ ls) (s ∷ ss) = dot_loop (acc ⊕ l ⊗ s) ls ss

  unfoldable pub interpolate_at : F → List PartyId → List F → Option F
  unfolding lagrange_coeffs_at dot_loop
  interpolate_at x parties shares = do
    lambdas ← lagrange_coeffs_at x parties
    some (dot_loop zero_scalar lambdas shares)

  unfoldable pub interpolate_at_zero : List PartyId → List F → Option F
  interpolate_at_zero parties shares = interpolate_at zero_scalar parties shares

  -- The slot point e_b = -(b) of a packed sharing.
  unfoldable pub slot_point : ℕ → F
  slot_point b = zero_scalar ⊖ from_u64 b
