-- ===== src/Rng.antt =====
-- The source of random scalars: `Scalar::random(&mut rng)` returns a scalar and moves the generator.
use ohm_ecdsa.Prelude.{ℕ, zero, suc, ◌≡◌, refl, ap, List, [], ◌∷◌, length}

pub record Rng (F R : Type 0) : Type 0 where
  pub random : R → F × R

module _ {F R : Type 0} ⦃g : Rng F R⦄ where
  unfoldable pub random : R → F × R
  random r = g.random r

  -- `for _ in 0..n { v.push(Scalar::random(rng)) }`
  unfoldable pub random_list : ℕ → R → List F × R
  random_list zero r = ([], r)
  random_list (suc n) r =
      let (c, r') = random r in let (cs, r'') = random_list n r' in (c ∷ cs, r'')

module _ (F : Type 0) {R : Type 0} ⦃g : Rng F R⦄ where
  pub length-random_list : (n : ℕ) (r : R) → length (random_list {F = F} n r).0 ≡ n
  unfolding random_list
  length-random_list zero r = refl
  length-random_list (suc n) r = ap suc (length-random_list n (random {F = F} r).1)
