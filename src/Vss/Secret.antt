-- ===== src/Vss/Secret.antt =====
-- The committed secret, the value at 0 of the committed polynomial, under the homomorphic operations of
-- src/primitives/vss.rs.
use ohm_ecdsa.Prelude.{◌≡◌, sym, ap, ap₂, ◌∙◌, some}
use ohm_ecdsa.Field.{Field, zero_scalar, ◌⊕◌, ◌⊗◌}
use ohm_ecdsa.Curve.{Group, Action, generator, ◌⊞◌, ◌⊡◌}
use ohm_ecdsa.Curve.Laws.{pmul-add, pmul-mul}
use ohm_ecdsa.Shamir.{eval_at}
use ohm_ecdsa.Vss.{FeldmanCommitment, eval_at_point, add, scale, add_const}
use ohm_ecdsa.Vss.Laws.{log_poly, eval_at_point-add, eval_at_point-scale, eval_at_point-add_const}
use ohm_ecdsa.Vss.Shares.{eval_at_point-log_poly, committed_value}

abbrev pub secret :
    (F : Type 0) {G : Type 0} ⦃f : Field F⦄ ⦃g : Group G⦄ ⦃c : Action F G⦄ → FeldmanCommitment G → F
secret F cm = eval_at (log_poly F cm) zero_scalar

module _ (F : Type 0) {G : Type 0} ⦃f : Field F⦄ ⦃g : Group G⦄ ⦃c : Action F G⦄ where
  pub eval_at_point-secret :
      (d : FeldmanCommitment G) → eval_at_point d (zero_scalar {F = F}) ≡ generator ⊡ secret F d
  eval_at_point-secret d = eval_at_point-log_poly d zero_scalar

module _ {F G : Type 0} ⦃f : Field F⦄ ⦃g : Group G⦄ ⦃c : Action F G⦄ where
  pub secret-add : (d e : FeldmanCommitment G) → secret F (add d e) ≡ secret F d ⊕ secret F e
  secret-add d e = committed_value (add d e) zero_scalar _ (
      eval_at_point-add d e zero_scalar
      ∙ (ap₂ ◌⊞◌ (eval_at_point-secret F d) (eval_at_point-secret F e)
          ∙ sym (pmul-add generator _ _)))

  pub secret-scale : (d : FeldmanCommitment G) (k : F) → secret F (scale d k) ≡ secret F d ⊗ k
  secret-scale d k = committed_value (scale d k) zero_scalar _ (
      eval_at_point-scale d k zero_scalar
      ∙ (ap (λ p. p ⊡ k) (eval_at_point-secret F d) ∙ pmul-mul generator _ k))

  pub secret-add_const :
      (d : FeldmanCommitment G) (k : F) {e : FeldmanCommitment G}
      → add_const d k ≡ some e
      → secret F e ≡ secret F d ⊕ k
  secret-add_const d k {e} h = committed_value e zero_scalar _ (
      eval_at_point-add_const d k zero_scalar h
      ∙ (ap (λ p. p ⊞ generator ⊡ k) (eval_at_point-secret F d) ∙ sym (pmul-add generator _ k)))
