-- ===== src/Presign/Run/NoncePoint.antt =====
-- P3 of a presignature: the nonce point that the checked points combine to.
use ohm_ecdsa.Prelude.{
  ◌≤◌, ◌≡◌, ◌≢◌, refl, sym, ap, ap₂, subst, ◌∙◌, List, [], ◌∷◌, Option, some, not, map, length,
  arith,
}
use ohm_ecdsa.Core.{
  PartyId, Committee, ok, expect, ensure, >>=-eq-ok, ok_injective, expect-eq-ok, ensure-eq-ok,
}
use ohm_ecdsa.Field.{Field, zero_scalar, ◌⊕◌, ◌⊗◌, ◌=?◌, from_u64}
use ohm_ecdsa.Field.Laws.{=?_iff, mul_comm}
use ohm_ecdsa.Curve.{Group, Action, identity, generator, ◌⊞◌, ◌⊡◌, ◌=ₚ◌}
use ohm_ecdsa.Curve.Laws.{=ₚ_iff, pmul-add, pmul-mul, pmul-zero}
use ohm_ecdsa.Shamir.{eval, lagrange_coeffs, dot_loop, interpolate_at}
use ohm_ecdsa.Shamir.Lagrange.{IsQuorum}
use ohm_ecdsa.Shamir.Interpolate.{interpolate_at-eval}
use ohm_ecdsa.Vss
use ohm_ecdsa.Vss.{FeldmanCommitment, scale}
use ohm_ecdsa.Vss.Laws.{log_poly, length-log_poly}
use ohm_ecdsa.Vss.Shares.{eval_at_point-log_poly, length-scale}
use ohm_ecdsa.Vss.Secret.{secret, secret-scale}
use ohm_ecdsa.Sign.{XCoordinate}
use ohm_ecdsa.Presign.Run.{nonce_points, combine_points, nonce_of}

module _ {F G : Type 0} ⦃f : Field F⦄ ⦃g : Group G⦄ ⦃c : Action F G⦄ where
  -- The points that pass are the values of the commitment.
  nonce_points_lem :
      (bad : Option PartyId) (k_com : FeldmanCommitment G) (v_inv : F) (ids : List PartyId)
      (as' : List F) {ps : List G}
      → nonce_points bad k_com v_inv ids as' ≡ ok ps
      → ps ≡ map (Vss.eval_at F k_com) ids
  unfolding nonce_points
  nonce_points_lem bad k_com v_inv [] as' e = sym (ok_injective e)
  nonce_points_lem bad k_com v_inv (j ∷ js) [] e = cc
  nonce_points_lem bad k_com v_inv (j ∷ js) (a ∷ as') e =
      let (u, p, e1) = >>=-eq-ok (ensure (_ =ₚ Vss.eval_at F k_com j) _) _ e in
      let (rest, q, e2) = >>=-eq-ok (nonce_points bad k_com v_inv js as') _ e1 in
      sym (ok_injective e2)
      ∙ ap₂ ◌∷◌ ((=ₚ_iff _ _).0 (ensure-eq-ok _ _ p)) (nonce_points_lem bad k_com v_inv js as' q)

  combine_points_lem :
      (k_com : FeldmanCommitment G) (acc : F) (ls : List F) (ids : List PartyId)
      → combine_points (generator ⊡ acc) ls (map (Vss.eval_at F k_com) ids)
        ≡ generator ⊡ dot_loop acc ls (map (eval (log_poly F k_com)) ids)
  unfolding combine_points dot_loop
  combine_points_lem k_com acc [] ids = refl
  combine_points_lem k_com acc (l ∷ ls) [] = refl
  combine_points_lem k_com acc (l ∷ ls) (j ∷ js) =
      ap (λ p. combine_points p ls (map (Vss.eval_at F k_com) js))
        (ap (λ p. generator ⊡ acc ⊞ p)
            (ap (λ p. p ⊡ l) (point j)
              ∙ (pmul-mul generator _ l ∙ ap (λ s. generator ⊡ s) (mul_comm _ l)))
          ∙ sym (pmul-add generator acc _))
      ∙ combine_points_lem k_com (acc ⊕ l ⊗ eval (log_poly F k_com) j) ls js
    where
      point : (j : PartyId) → Vss.eval_at F k_com j ≡ generator ⊡ eval (log_poly F k_com) j
      point j = unfold Vss.eval_at eval in eval_at_point-log_poly k_com (from_u64 j)

  -- With as many parties as coefficients, the combined point is that of the secret.
  combined_nonce :
      (k_com : FeldmanCommitment G) (ids : List PartyId) (lambdas : List F)
      → IsQuorum F ids
      → length k_com.points ≤ length ids
      → lagrange_coeffs ids ≡ some lambdas
      → combine_points identity lambdas (map (Vss.eval_at F k_com) ids) ≡ generator ⊡ secret F k_com
  unfolding lagrange_coeffs
  combined_nonce k_com ids lambdas quorum l h =
      ap (λ p. combine_points p lambdas (map (Vss.eval_at F k_com) ids))
        (sym (pmul-zero F generator))
      ∙ (combine_points_lem k_com zero_scalar lambdas ids ∙ ap (λ s. generator ⊡ s) (cc dotted))
    where
      opened :
          interpolate_at zero_scalar ids (map (eval (log_poly F k_com)) ids)
          ≡ some (dot_loop zero_scalar lambdas (map (eval (log_poly F k_com)) ids))
      opened = unfold interpolate_at in rw h

      dotted :
          some (dot_loop zero_scalar lambdas (map (eval (log_poly F k_com)) ids))
          ≡ some (secret F k_com)
      dotted =
          sym opened
          ∙ interpolate_at-eval zero_scalar (log_poly F k_com) ids quorum
              (omega (arith, length-log_poly F k_com))

module _ {F G : Type 0} ⦃f : Field F⦄ ⦃g : Group G⦄ ⦃c : Action F G⦄ ⦃x : XCoordinate F G⦄ where
  -- P3 returns the point of v⁻¹·a, and its x-coordinate, which is not 0.
  pub nonce_of_lem :
      (committee : Committee) (bad : Option PartyId) (a_com : FeldmanCommitment G) (as' : List F)
      (v_inv : F) {big_r : G} {r : F}
      → IsQuorum F committee.ids
      → length a_com.points ≤ length committee.ids
      → nonce_of committee bad a_com as' v_inv ≡ ok (big_r, r)
      → (big_r ≡ generator ⊡ (secret F a_com ⊗ v_inv))
        × (x.x_scalar big_r ≡ some r)
        × (r ≢ zero_scalar)
  unfolding nonce_of
  nonce_of_lem committee bad a_com as' v_inv {big_r} {r} quorum l e =
      let ids = committee.ids in
      let (ps, p1, e1) = >>=-eq-ok (nonce_points bad (scale a_com v_inv) v_inv ids as') _ e in
      let (lambdas, p2, e2) = >>=-eq-ok (expect (lagrange_coeffs {F = F} ids)) _ e1 in
      let (r', p3, e3) =
        >>=-eq-ok (expect (x.x_scalar (combine_points identity lambdas ps))) _ e2 in
      let (u, p4, e4) = >>=-eq-ok (ensure (not (r' =? zero_scalar)) _) _ e3 in
      let point : combine_points identity lambdas ps ≡ generator ⊡ (secret F a_com ⊗ v_inv) =
        ap (combine_points identity lambdas)
          (nonce_points_lem bad (scale a_com v_inv) v_inv ids as' p1)
        ∙ (combined_nonce (scale a_com v_inv) ids lambdas quorum
              (omega (arith, length-scale a_com v_inv)) (expect-eq-ok _ p2)
            ∙ ap (λ s. generator ⊡ s) (secret-scale a_com v_inv)) in
      let same : (combine_points identity lambdas ps, r') ≡ (big_r, r) = ok_injective e4 in
      subst
        (λ (t : G × F).
          (t.0 ≡ generator ⊡ (secret F a_com ⊗ v_inv))
          × (x.x_scalar t.0 ≡ some t.1)
          × (t.1 ≢ zero_scalar))
        same
        (
          point,
          expect-eq-ok _ p3,
          λ z. let n = (=?_iff r' zero_scalar).1 z in let k = ensure-eq-ok _ _ p4 in ground arith,
        )
