-- ===== src/Vss/Shares.antt =====
-- Shares that pass their checks stay so under the homomorphic operations of src/primitives/vss.rs.
use ohm_ecdsa.Prelude.{◌≡◌, length, length-map, sym, ap, ap₂, ◌∙◌, true, none, some, [], ◌∷◌}
use ohm_ecdsa.Core.{PartyId}
use ohm_ecdsa.Field.{Field, ◌⊕◌, ◌⊗◌}
use ohm_ecdsa.Curve.{Group, Action, generator, ◌⊞◌, ◌⊡◌}
use ohm_ecdsa.Curve.Laws.{pmul-add, pmul-mul}
use ohm_ecdsa.Curve.Laws.{generator_injective}
use ohm_ecdsa.Shamir.{eval_at}
use ohm_ecdsa.Vss.{eval_at_point, FeldmanCommitment, verify_share, add, scale, add_const}
use ohm_ecdsa.Vss.Laws.{
  verify_share_iff, log_poly, from_poly-log_poly, eval_at_point-from_poly, eval_at_point-add,
  eval_at_point-scale, eval_at_point-add_const,
}

module _ {F G : Type 0} ⦃f : Field F⦄ ⦃g : Group G⦄ ⦃c : Action F G⦄ where
  -- Shares that pass add up, and scale, to shares that pass.
  pub passes-add :
      (d e : FeldmanCommitment G) (j : PartyId) (a b : F)
      → verify_share d j a ≡ true
      → verify_share e j b ≡ true
      → verify_share (add d e) j (a ⊕ b) ≡ true
  passes-add d e j a b h k = (verify_share_iff _ j _).1 (
      pmul-add generator a b
      ∙ (ap₂ ◌⊞◌ ((verify_share_iff d j a).0 h) ((verify_share_iff e j b).0 k)
          ∙ sym (eval_at_point-add d e _)))

  pub passes-scale :
      (d : FeldmanCommitment G) (j : PartyId) (a k : F)
      → verify_share d j a ≡ true
      → verify_share (scale d k) j (a ⊗ k) ≡ true
  passes-scale d j a k h = (verify_share_iff _ j _).1 (
      sym (pmul-mul generator a k)
      ∙ (ap (λ p. p ⊡ k) ((verify_share_iff d j a).0 h) ∙ sym (eval_at_point-scale d k _)))

  pub passes-add_const :
      (d : FeldmanCommitment G) (j : PartyId) (a k : F) {e : FeldmanCommitment G}
      → add_const d k ≡ some e
      → verify_share d j a ≡ true
      → verify_share e j (a ⊕ k) ≡ true
  passes-add_const d j a k q h = (verify_share_iff _ j _).1 (
      pmul-add generator a k
      ∙ (ap (λ p. p ⊞ generator ⊡ k) ((verify_share_iff d j a).0 h)
          ∙ sym (eval_at_point-add_const d k _ q)))

  pub length-scale : (d : FeldmanCommitment G) (a : F) → length (scale d a).points ≡ length d.points
  unfolding scale
  length-scale d a = length-map d.points _

  pub length-add_const :
      (d : FeldmanCommitment G) (a : F) {e : FeldmanCommitment G}
      → add_const d a ≡ some e
      → length e.points ≡ length d.points
  unfolding add_const
  length-add_const d a {e} h =
      (elim d.points
          as (λ ps.
            elim ps [ [] ↦ none | q ∷ qs ↦ some (record { points = (q ⊞ generator ⊡ a) ∷ qs }) ]
              ≡ some e
            → length e.points ≡ length ps) [
              | [] ↦ λ n. cc n
              | q ∷ qs ↦ λ n.
                  let k : record { points = (q ⊞ generator ⊡ a) ∷ qs } ≡ e = cc n in
                  ap (λ (z : FeldmanCommitment G). length z.points) (sym k)
            ])
        h

  -- The value of a commitment is the public point of the value of its polynomial.
  pub eval_at_point-log_poly :
      (d : FeldmanCommitment G) (x : F) → eval_at_point d x ≡ generator ⊡ eval_at (log_poly F d) x
  eval_at_point-log_poly d x =
      ap (λ e. eval_at_point e x) (sym (from_poly-log_poly F d))
      ∙ eval_at_point-from_poly (log_poly F d) x

  -- The committed scalar, from the value of a commitment.
  pub committed_value :
      (d : FeldmanCommitment G) (x a : F)
      → eval_at_point d x ≡ generator ⊡ a
      → eval_at (log_poly F d) x ≡ a
  committed_value d x a h = generator_injective G (sym (eval_at_point-log_poly d x) ∙ h)
