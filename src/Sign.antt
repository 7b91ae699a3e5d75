-- ===== src/Sign.antt =====
-- src/protocol/sign.rs: signature shares and their verified combination, in the standard, packed,
-- re-randomized and key-independent forms, strict and robust.
pub mod Shares
pub mod Combine
mod Tweak
mod Tests
use ohm_ecdsa.Prelude.{ℕ, List, [], ◌∷◌, Option, none, some, map}
use ohm_ecdsa.Core.{PartyId, Phase, text, Result, ok, panicked, expect, ◌>>=◌, Params}
use ohm_ecdsa.Field.{Field, zero_scalar, ◌⊕◌, ◌⊗◌, invert}
use ohm_ecdsa.Curve.{Group, Action, ◌⊡◌}
use ohm_ecdsa.Vss.{FeldmanCommitment, add, scale, add_const}
use ohm_ecdsa.Open.{check_shares, finish_strict, finish_robust}
use ohm_ecdsa.Presign.{Presignature, KiPresignature, TripleShare, TriplePublic}

pub record SignShare (F : Type 0) : Type 0 where
  pub from : PartyId
  pub s : F

-- The x-coordinate of a point, reduced to a scalar; the identity has none. This is `k256`.
pub record XCoordinate (F G : Type 0) : Type 0 where
  pub x_scalar : G → Option F

abbrev pub entries : {F : Type 0} → List (SignShare F) → List (PartyId × F)
entries shares = map (λ sh. (sh.from, sh.s)) shares

module _ {F G : Type 0} ⦃f : Field F⦄ where
  unfoldable pub sign_share : Presignature F G → F → SignShare F
  sign_share presig m = record {
    from = presig.index;
    s = m ⊗ presig.u_share ⊕ presig.r ⊗ presig.z_share;
  }

  unfoldable pub sign_share_ki : KiPresignature F G → F → F → SignShare F
  sign_share_ki presig z_share m = record {
    from = presig.index;
    s = m ⊗ presig.u_share ⊕ presig.r ⊗ z_share;
  }

module _ {F : Type 0} ⦃f : Field F⦄ where
  unfoldable pub ki_z_share : TripleShare F → F → F → F
  ki_z_share triple delta eps = triple.c ⊕ delta ⊗ triple.b ⊕ eps ⊗ triple.a ⊕ delta ⊗ eps

  -- `z_j + τ·u_j` with a tweak.
  unfoldable pub tweaked : Option F → F → F → F
  tweaked none z u = z
  tweaked (some tau) z u = z ⊕ tau ⊗ u

module _ {F G : Type 0} ⦃f : Field F⦄ ⦃g : Group G⦄ ⦃c : Action F G⦄ where
  -- `none` is the panic of `add_const` on an empty vector.
  unfoldable pub ki_z_com : TriplePublic G → F → F → Option (FeldmanCommitment G)
  ki_z_com triple delta eps =
      add_const (add (add triple.cc (scale triple.cb delta)) (scale triple.ca eps)) (delta ⊗ eps)

  unfoldable pub combine_verified :
      ℕ → F → F → FeldmanCommitment G → List (SignShare F) → Result (F × F)
  combine_verified quorum point r s_com shares = do
    s ←
        finish_strict point quorum Phase.sign (text "signature share failed commitment check")
          (check_shares s_com (entries shares))
    ok (r, s)

  unfoldable pub combine_at : ℕ → F → Presignature F G → F → List (SignShare F) → Result (F × F)
  combine_at quorum point meta m shares =
      combine_verified quorum point meta.r (add (scale meta.u_com m) (scale meta.z_com meta.r))
        shares

  unfoldable pub combine : Params → Presignature F G → F → List (SignShare F) → Result (F × F)
  unfolding combine_at
  combine params meta m shares = combine_at params.t zero_scalar meta m shares

  unfoldable pub combine_ki :
      Params → KiPresignature F G → FeldmanCommitment G → F → List (SignShare F) → Result (F × F)
  combine_ki params meta z_com m shares =
      combine_verified params.t zero_scalar meta.r (add (scale meta.u_com m) (scale z_com meta.r))
        shares

  unfoldable pub combine_robust_verified :
      ℕ → F → FeldmanCommitment G → List (SignShare F) → Result ((F × F) × List PartyId)
  combine_robust_verified quorum r s_com shares = do
    (s, blamed) ← finish_robust quorum (check_shares s_com (entries shares))
    ok ((r, s), blamed)

  unfoldable pub combine_robust :
      Params → Presignature F G → F → List (SignShare F) → Result ((F × F) × List PartyId)
  unfolding combine_robust_verified
  combine_robust params meta m shares =
      combine_robust_verified params.t meta.r (add (scale meta.u_com m) (scale meta.z_com meta.r))
        shares

  unfoldable pub combine_ki_robust :
      Params
      → KiPresignature F G
      → FeldmanCommitment G
      → F
      → List (SignShare F)
      → Result ((F × F) × List PartyId)
  unfolding combine_robust_verified
  combine_ki_robust params meta z_com m shares =
      combine_robust_verified params.t meta.r (add (scale meta.u_com m) (scale z_com meta.r)) shares

module _ {F G : Type 0} ⦃f : Field F⦄ ⦃g : Group G⦄ ⦃c : Action F G⦄ ⦃x : XCoordinate F G⦄ where
  -- The inverse of gamma, and the x-coordinate of gamma·R.
  unfoldable pub rerand_factors : G → F → Result (F × F)
  rerand_factors big_r gamma = do
    gamma_inv ← expect (invert gamma)
    r_prime ← expect (x.x_scalar (big_r ⊡ gamma))
    ok (gamma_inv, r_prime)

  unfoldable pub tweaked_com :
      Option F → FeldmanCommitment G → FeldmanCommitment G → FeldmanCommitment G
  tweaked_com none z u = z
  tweaked_com (some tau) z u = add z (scale u tau)

  unfoldable pub sign_share_rerand : Presignature F G → F → F → Option F → Result (SignShare F)
  sign_share_rerand presig m gamma tweak = do
    (gamma_inv, r_prime) ← rerand_factors presig.big_r gamma
    ok (record {
      from = presig.index;
      s =
          m ⊗ (gamma_inv ⊗ presig.u_share)
          ⊕ r_prime ⊗ (gamma_inv ⊗ tweaked tweak presig.z_share presig.u_share);
    })

  unfoldable pub combine_rerand :
      Params → Presignature F G → F → F → Option F → List (SignShare F) → Result (F × F)
  combine_rerand params meta m gamma tweak shares = do
    (gamma_inv, r_prime) ← rerand_factors meta.big_r gamma
    combine_verified params.t zero_scalar r_prime
        (add (scale (scale meta.u_com gamma_inv) m)
          (scale (scale (tweaked_com tweak meta.z_com meta.u_com) gamma_inv) r_prime))
        shares
