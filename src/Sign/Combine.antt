-- ===== src/Sign/Combine.antt =====
-- The combination of signature shares: its outcome on every branch, and the ECDSA equation.
use ohm_ecdsa.Prelude.{ℕ, ◌+◌, ◌*◌, ◌≤◌, ◌≡◌, ◌≢◌, sym, ap, ap₂, ◌∙◌, List, [], length, map, arith}
use ohm_ecdsa.Core.{Phase, ok, >>=-eq-ok, ok_injective}
use ohm_ecdsa.Field.{Field, zero_scalar, one_scalar, ◌⊕◌, ◌⊗◌}
use ohm_ecdsa.Field.Laws.{ring, mul_comm, mul_assoc, one-mul, mul-one, inverse, invert-inverse}
use ohm_ecdsa.Curve.{Group, Action, generator, ◌⊞◌, ◌⊡◌}
use ohm_ecdsa.Curve.Laws.{pmul-add, pmul-mul, generator_injective}
use ohm_ecdsa.Shamir.{eval_at}
use ohm_ecdsa.Shamir.Lagrange.{IsQuorum}
use ohm_ecdsa.Vss.{FeldmanCommitment, eval_at_point, add, scale}
use ohm_ecdsa.Vss.Laws.{
  log_poly, eval_at_point-add, eval_at_point-scale, eval_at_point-from_poly, from_poly-log_poly,
  length-add,
}
use ohm_ecdsa.Vss.Shares.{length-scale}
use ohm_ecdsa.Open.{check_shares, finish_strict}
use ohm_ecdsa.Open.Check.{culprits}
use ohm_ecdsa.Open.Laws.{
  strict_outcome_ok, finish_strict-outcome, finish_robust-outcome, robust_enough,
}
use ohm_ecdsa.Presign.{Presignature}
use ohm_ecdsa.Sign.{SignShare, entries, combine_verified, combine_at, combine_robust_verified}

module _ {F : Type 0} ⦃f : Field F⦄ where
  -- If u is the inverse of the nonce k, and z is u·x, then s = m·u + r·z is k⁻¹·(m + r·x).
  signing_equation :
      (k u z x m r s : F) → k ⊗ u ≡ one_scalar → z ≡ u ⊗ x → s ≡ u ⊗ m ⊕ z ⊗ r → k ⊗ s ≡ m ⊕ r ⊗ x
  signing_equation k u z x m r s ku zu sv =
      ap (λ t. k ⊗ t) (sv ∙ ap (λ t. u ⊗ m ⊕ t ⊗ r) zu)
      ∙ (regroup ∙ ap₂ ◌⊕◌ (ap (λ t. t ⊗ m) ku ∙ one-mul m) (ap (λ t. t ⊗ (r ⊗ x)) ku ∙ one-mul _))
    where
      regroup : k ⊗ (u ⊗ m ⊕ u ⊗ x ⊗ r) ≡ (k ⊗ u) ⊗ m ⊕ (k ⊗ u) ⊗ (r ⊗ x)
      regroup = simp ring

module _ {F G : Type 0} ⦃f : Field F⦄ ⦃g : Group G⦄ ⦃c : Action F G⦄ where
  -- For senders that are distinct and below the field's order, and a commitment of at most `quorum` points: a
  -- combination that succeeds returns the given r, had no bad share and at least `quorum` of them, and its s is the
  -- committed value at the point.
  pub combine_verified_sound :
      (quorum : ℕ) (point r : F) (cm : FeldmanCommitment G) (shares : List (SignShare F))
      {sig : F × F}
      → IsQuorum F (map (λ e. e.0) (entries shares))
      → length cm.points ≤ quorum
      → combine_verified quorum point r cm shares ≡ ok sig
      → (sig.0 ≡ r)
        × (generator ⊡ sig.1 ≡ eval_at_point cm point)
        × (culprits cm (entries shares) ≡ [])
        × (quorum ≤ length (entries shares))
  unfolding combine_verified
  combine_verified_sound quorum point r cm shares q d h =
      let (s, p, e) =
        >>=-eq-ok (finish_strict point quorum Phase.sign _ (check_shares cm (entries shares))) _
          h in
      let (b, n, v) =
        strict_outcome_ok point quorum cm (entries shares) Phase.sign _
          (sym (finish_strict-outcome cm point quorum (entries shares) Phase.sign _ q d) ∙ p) in
      (
        ap (λ (t : F × F). t.0) (sym (ok_injective e)),
        ap (λ (t : F × F). generator ⊡ t.1) (sym (ok_injective e))
            ∙ (ap (λ a. generator ⊡ a) v
                ∙ (sym (eval_at_point-from_poly (log_poly F cm) point)
                    ∙ ap (λ d. eval_at_point d point) (from_poly-log_poly F cm))),
        b,
        n,
      )

  -- For senders that are distinct and below the field's order, and a commitment of at most t points: with 2t - 1
  -- shares or more, at most t - 1 of them bad, the robust combination at the quorum t returns the given r, the
  -- committed value at 0 and exactly the senders of the bad shares.
  pub combine_robust_guaranteed :
      (quorum : ℕ) (r : F) (cm : FeldmanCommitment G) (shares : List (SignShare F))
      → IsQuorum F (map (λ e. e.0) (entries shares))
      → length cm.points ≤ quorum
      → 2 * quorum ≤ length (entries shares) + 1
      → length (culprits cm (entries shares)) + 1 ≤ quorum
      → combine_robust_verified quorum r cm shares
        ≡ ok ((r, eval_at (log_poly F cm) zero_scalar), culprits cm (entries shares))
  unfolding combine_robust_verified
  combine_robust_guaranteed quorum r cm shares q d n k = rw (
      finish_robust-outcome cm quorum (entries shares) q d
      ∙ robust_enough cm quorum (entries shares) n k)

  -- The value of the signing commitment at 0, in the public points of the two sharings.
  signing_value :
      (ud zd : FeldmanCommitment G) (m r x : F)
      → eval_at_point (add (scale ud m) (scale zd r)) x
        ≡ eval_at_point ud x ⊡ m ⊞ eval_at_point zd x ⊡ r
  signing_value ud zd m r x =
      eval_at_point-add _ _ x ∙ ap₂ ◌⊞◌ (eval_at_point-scale ud m x) (eval_at_point-scale zd r x)

  -- Signing: when the presignature's sharings commit to u and z at the point on commitments of at most `quorum`
  -- points each, k·u = 1 and z = u·x, and the senders are distinct and below the field's order, every signature
  -- (r, s) that the combination returns has k·s = m + r·x, for the record's r.
  pub combine_at_ecdsa :
      (quorum : ℕ) (point : F) (meta : Presignature F G) (m k u z x : F)
      (shares : List (SignShare F)) {sig : F × F}
      → eval_at_point meta.u_com point ≡ generator ⊡ u
      → eval_at_point meta.z_com point ≡ generator ⊡ z
      → k ⊗ u ≡ one_scalar
      → z ≡ u ⊗ x
      → length meta.u_com.points ≤ quorum
      → length meta.z_com.points ≤ quorum
      → IsQuorum F (map (λ e. e.0) (entries shares))
      → combine_at quorum point meta m shares ≡ ok sig
      → (sig.0 ≡ meta.r) × (k ⊗ sig.1 ≡ m ⊕ sig.0 ⊗ x)
  unfolding combine_at
  combine_at_ecdsa quorum point meta m k u z x shares {sig} hu hz ku zu lu lz q h =
      let (a, b, _, _) =
        combine_verified_sound quorum point meta.r
          (add (scale meta.u_com m) (scale meta.z_com meta.r)) shares q
          (length-add _ _ quorum (omega (arith, length-scale meta.u_com m))
            (omega (arith, length-scale meta.z_com meta.r)))
          h in
      let value : sig.1 ≡ u ⊗ m ⊕ z ⊗ meta.r = generator_injective G (
        b
        ∙ (signing_value meta.u_com meta.z_com m meta.r point
            ∙ (ap₂ (λ p q. p ⊡ m ⊞ q ⊡ meta.r) hu hz
                ∙ (ap₂ ◌⊞◌ (pmul-mul _ _ _) (pmul-mul _ _ _) ∙ sym (pmul-add _ _ _))))) in
      (a, signing_equation k u z x m meta.r sig.1 ku zu value ∙ ap (λ t. m ⊕ t ⊗ x) (sym a))

module _ {F : Type 0} (G : Type 0) ⦃f : Field F⦄ ⦃g : Group G⦄ ⦃c : Action F G⦄ where
  -- A pair with k·s = m + r·x and s ≠ 0 passes the ECDSA equation: s⁻¹·(m·G + r·X) is the nonce point k·G.
  pub signature_verifies :
      (k m r s x : F)
      → k ⊗ s ≡ m ⊕ r ⊗ x
      → s ≢ zero_scalar
      → (generator {G = G} ⊡ m ⊞ generator ⊡ x ⊡ r) ⊡ inverse s ≡ generator ⊡ k
  signature_verifies k m r s x e ne =
      ap (λ p. p ⊡ inverse s) (ap (λ q. generator ⊡ m ⊞ q) (pmul-mul _ _ _) ∙ sym (pmul-add _ _ _))
      ∙ (pmul-mul _ _ _ ∙ ap (λ a. generator ⊡ a) scalar)
    where
      scalar : (m ⊕ x ⊗ r) ⊗ inverse s ≡ k
      scalar =
          ap (λ t. (m ⊕ t) ⊗ inverse s) (mul_comm x r)
          ∙ (ap (λ t. t ⊗ inverse s) (sym e)
              ∙ (mul_assoc k s (inverse s)
                  ∙ (ap (λ t. k ⊗ t) ((invert-inverse s ne).1) ∙ mul-one k)))
