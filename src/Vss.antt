-- ===== src/Vss.antt =====
-- src/primitives/vss.rs: Feldman commitments. A commitment is the list of the points a_ℓ·G.
pub mod Laws
pub mod Shares
pub mod Secret
mod Tests
use ohm_ecdsa.Prelude.{ℕ, List, [], ◌∷◌, Option, none, some, Bool, map, leb, length, if◌then◌else◌}
use ohm_ecdsa.Field.{Field, zero_scalar, one_scalar, ◌⊗◌, from_u64}
use ohm_ecdsa.Curve.{Group, Action, identity, generator, ◌⊞◌, ◌=ₚ◌, ◌⊡◌}
use ohm_ecdsa.Shamir.{PartyId, ShamirPoly}

pub record FeldmanCommitment (G : Type 0) : Type 0 where
  pub points : List G

module _ {F G : Type 0} ⦃f : Field F⦄ ⦃g : Group G⦄ ⦃c : Action F G⦄ where
  unfoldable pub from_poly : ShamirPoly F → FeldmanCommitment G
  from_poly p = record { points = map (λ a. generator ⊡ a) p.coeffs }

  -- `for a in &self.points { acc += a * xpow; xpow *= x }`
  pub eval_loop : F → G → F → List G → G
  eval_loop x acc xpow [] = acc
  eval_loop x acc xpow (a ∷ rest) = eval_loop x (acc ⊞ a ⊡ xpow) (xpow ⊗ x) rest

  unfoldable pub eval_at_point : FeldmanCommitment G → F → G
  unfolding eval_loop
  eval_at_point cm x = eval_loop x identity one_scalar cm.points

  unfoldable pub verify_share : FeldmanCommitment G → PartyId → F → Bool
  verify_share cm j share = generator ⊡ share =ₚ eval_at_point cm (from_u64 {F = F} j)

  unfoldable pub scale : FeldmanCommitment G → F → FeldmanCommitment G
  scale cm a = record { points = map (λ p. p ⊡ a) cm.points }

  -- `points[0]` panics on an empty vector.
  unfoldable pub add_const : FeldmanCommitment G → F → Option (FeldmanCommitment G)
  add_const cm a = elim cm.points [
    | [] ↦ none
    | p ∷ ps ↦ some (record { points = (p ⊞ generator ⊡ a) ∷ ps })
  ]

module _ {G : Type 0} ⦃g : Group G⦄ where
  -- `for (p, s) in long.iter_mut().zip(short) { *p += s }`
  pub add_zip : List G → List G → List G
  add_zip [] ss = []
  add_zip (p ∷ ps) [] = p ∷ ps
  add_zip (p ∷ ps) (s ∷ ss) = (p ⊞ s) ∷ add_zip ps ss

  unfoldable pub add : FeldmanCommitment G → FeldmanCommitment G → FeldmanCommitment G
  unfolding add_zip
  add c d =
      if leb (length d.points) (length c.points)
      then record { points = add_zip c.points d.points }
      else record { points = add_zip d.points c.points }

  sum_loop : FeldmanCommitment G → List (FeldmanCommitment G) → FeldmanCommitment G
  sum_loop acc [] = acc
  sum_loop acc (d ∷ ds) = sum_loop (add acc d) ds

  -- `expect` panics on no commitment.
  unfoldable pub sum : List (FeldmanCommitment G) → Option (FeldmanCommitment G)
  unfolding sum_loop
  sum [] = none
  sum (c ∷ cs) = some (sum_loop c cs)

-- The commitment evaluated at the point of a party.
module _ (F : Type 0) {G : Type 0} ⦃f : Field F⦄ ⦃g : Group G⦄ ⦃c : Action F G⦄ where
  unfoldable pub eval_at : FeldmanCommitment G → PartyId → G
  eval_at cm j = eval_at_point cm (from_u64 {F = F} j)
