-- ===== src/Dleq.antt =====
-- src/primitives/dleq.rs: Chaum–Pedersen proofs that two points have one discrete logarithm.
mod Tests
use ohm_ecdsa.Prelude.{◌≡◌, refl, sym, ap, ◌∙◌, List, [], ◌∷◌, ◌++◌, Bool, true, ◌&&◌}
use ohm_ecdsa.Field.{Field, ◌⊕◌, ◌⊗◌}
use ohm_ecdsa.Field.Laws.{mul_comm}
use ohm_ecdsa.Curve.{Group, Action, ◌⊞◌, ◌⊡◌, ◌=ₚ◌}
use ohm_ecdsa.Curve.Laws.{pmul-add, pmul-mul, =ₚ_iff}
use ohm_ecdsa.Encoding.{Bytes, Hash, sha256, PointEncoding}
use ohm_ecdsa.Rng.{Rng, random}
use ohm_ecdsa.Dkg.Hashing.{points_bytes}

-- The reduction of a digest to a scalar, which is `k256`.
pub record Digest (F : Type 0) : Type 0 where
  pub scalar_from_digest : Bytes → F

pub record DleqProof (F G : Type 0) : Type 0 where
  pub t1 : G
  pub t2 : G
  pub z : F

module _ {F G : Type 0} ⦃g : Group G⦄ ⦃h : Hash⦄ ⦃pe : PointEncoding G⦄ ⦃d : Digest F⦄ where
  unfoldable pub challenge : Bytes → Bytes → G → G → G → G → G → G → F
  challenge sid tag g1 x1 g2 x2 t1 t2 =
      d.scalar_from_digest
        (sha256 (tag ++ (sid ++ points_bytes (g1 ∷ x1 ∷ g2 ∷ x2 ∷ t1 ∷ t2 ∷ []))))

module _ {F G : Type 0} ⦃f : Field F⦄ ⦃g : Group G⦄ ⦃c : Action F G⦄ ⦃h : Hash⦄
    ⦃pe : PointEncoding G⦄ ⦃d : Digest F⦄ where
  unfoldable pub prove :
      {R : Type 0} ⦃rng : Rng F R⦄ → Bytes → Bytes → F → G → G → R → (G × G × DleqProof F G) × R
  prove sid tag x g1 g2 r =
      let x1 = g1 ⊡ x in
      let x2 = g2 ⊡ x in
      let (w, r') = random r in
      let t1 = g1 ⊡ w in
      let t2 = g2 ⊡ w in
      let e : F = challenge sid tag g1 x1 g2 x2 t1 t2 in
      ((x1, x2, record { t1 = t1; t2 = t2; z = w ⊕ e ⊗ x }), r')

  unfoldable pub verify : Bytes → Bytes → G → G → G → G → DleqProof F G → Bool
  verify sid tag g1 x1 g2 x2 proof =
      let e : F = challenge sid tag g1 x1 g2 x2 proof.t1 proof.t2 in
      (g1 ⊡ proof.z =ₚ proof.t1 ⊞ x1 ⊡ e) && (g2 ⊡ proof.z =ₚ proof.t2 ⊞ x2 ⊡ e)

  response : (p : G) (w e x : F) → (p ⊡ (w ⊕ e ⊗ x) =ₚ p ⊡ w ⊞ p ⊡ x ⊡ e) ≡ true
  response p w e x = (=ₚ_iff _ _).1 (
      pmul-add p w (e ⊗ x)
      ∙ ap (λ q. p ⊡ w ⊞ q) (ap (λ a. p ⊡ a) (mul_comm e x) ∙ sym (pmul-mul p x e)))

  -- A proof that `prove` makes passes `verify` for the points that it returns, whatever the bases, the
  -- witness and the random source.
  pub verify-prove :
      {R : Type 0} ⦃rng : Rng F R⦄ (sid tag : Bytes) (x : F) (g1 g2 : G) (r : R)
      → verify sid tag g1
          (prove sid tag x g1 g2 r).0.0
          g2
          (prove sid tag x g1 g2 r).0.1
          (prove sid tag x g1 g2 r).0.2
        ≡ true
  unfolding verify prove
  verify-prove sid tag x g1 g2 r = rw (response g1 _ _ x, response g2 _ _ x) refl
