-- ===== src/Sign/Tweak.antt =====
-- `Presignature::apply_tweak` of src/protocol/presign.rs: a tweaked record signs for the child key x + τ.
use ohm_ecdsa.Prelude.{ℕ, ◌≤◌, ◌≡◌, sym, ap, ap₂, ◌∙◌, List, length, map, true, arith}
use ohm_ecdsa.Core.{ok}
use ohm_ecdsa.Field.{Field, one_scalar, ◌⊕◌, ◌⊗◌}
use ohm_ecdsa.Field.Laws.{ring}
use ohm_ecdsa.Curve.{Group, Action, generator, ◌⊞◌, ◌⊡◌}
use ohm_ecdsa.Curve.Laws.{pmul-add, pmul-mul}
use ohm_ecdsa.Shamir.Lagrange.{IsQuorum}
use ohm_ecdsa.Vss.{verify_share, eval_at_point, add, scale}
use ohm_ecdsa.Vss.Laws.{eval_at_point-add, eval_at_point-scale, length-add}
use ohm_ecdsa.Vss.Shares.{length-scale}
use ohm_ecdsa.Presign.{Presignature, apply_tweak}
use ohm_ecdsa.Sign.{SignShare, entries, sign_share, combine_at}
use ohm_ecdsa.Sign.Shares.{apply_tweak_passes, passes_linear}
use ohm_ecdsa.Sign.Combine.{combine_at_ecdsa}

module _ {F G : Type 0} ⦃f : Field F⦄ ⦃g : Group G⦄ ⦃c : Action F G⦄ where
  -- The value of a tweaked commitment: z + u·τ.
  tweaked_value :
      (p : Presignature F G) (tau point u z : F)
      → eval_at_point p.u_com point ≡ generator ⊡ u
      → eval_at_point p.z_com point ≡ generator ⊡ z
      → eval_at_point (apply_tweak p tau).z_com point ≡ generator ⊡ (z ⊕ u ⊗ tau)
  unfolding apply_tweak
  tweaked_value p tau point u z hu hz =
      eval_at_point-add _ _ point
      ∙ (ap₂ ◌⊞◌ hz
            (eval_at_point-scale p.u_com tau point ∙ (ap (λ q. q ⊡ tau) hu ∙ pmul-mul _ _ _))
          ∙ sym (pmul-add _ _ _))

  -- For a record whose sharings commit to u and z at the point on commitments of at most `quorum` points each, with
  -- k·u = 1 and z = u·x, and whose own shares pass: the signature share that the record tweaked by τ gives passes
  -- under its tweaked commitments, and every signature (r, s) that is combined from shares of distinct senders
  -- below the field's order under the tweaked record has the untweaked r and k·s = m + r·(x + τ).
  pub apply_tweak_signs :
      (quorum : ℕ) (point : F) (p : Presignature F G) (tau m k u z x : F)
      (shares : List (SignShare F)) {sig : F × F}
      → eval_at_point p.u_com point ≡ generator ⊡ u
      → eval_at_point p.z_com point ≡ generator ⊡ z
      → k ⊗ u ≡ one_scalar
      → z ≡ u ⊗ x
      → length p.u_com.points ≤ quorum
      → length p.z_com.points ≤ quorum
      → verify_share p.u_com p.index p.u_share ≡ true
      → verify_share p.z_com p.index p.z_share ≡ true
      → IsQuorum F (map (λ e. e.0) (entries shares))
      → combine_at quorum point (apply_tweak p tau) m shares ≡ ok sig
      → (verify_share
            (add (scale (apply_tweak p tau).u_com m) (scale (apply_tweak p tau).z_com p.r))
            p.index
            (sign_share (apply_tweak p tau) m).s
          ≡ true)
        × (sig.0 ≡ p.r)
        × (k ⊗ sig.1 ≡ m ⊕ sig.0 ⊗ (x ⊕ tau))
  unfolding apply_tweak sign_share
  apply_tweak_signs quorum point p tau m k u z x shares hu hz ku zu lu lz pu pz q h =
      let child : z ⊕ u ⊗ tau ≡ u ⊗ (x ⊕ tau) = ap (λ t. t ⊕ u ⊗ tau) zu ∙ simp ring in
      let (r, e) =
        combine_at_ecdsa quorum point (apply_tweak p tau) m k u (z ⊕ u ⊗ tau) (x ⊕ tau) shares hu
          (tweaked_value p tau point u z hu hz) ku child lu
          (length-add _ _ quorum lz (omega (arith, length-scale p.u_com tau))) q h in
      (
        passes_linear p.u_com (apply_tweak p tau).z_com p.index p.u_share
            (apply_tweak p tau).z_share m p.r pu (apply_tweak_passes p tau pu pz),
        r,
        e,
      )
