-- ===== src/Open/Tests.antt =====
-- Openings over the field of seven elements: the theorems at concrete inputs.
use ohm_ecdsa.Prelude.{◌≡◌, refl, [], ◌∷◌, All, length, ◌≤◌, ◌<◌, arith}
use ohm_ecdsa.Core.{Phase, ok, err, text, abort}
use ohm_ecdsa.Core.Map.{Map, keys}
use ohm_ecdsa.Gf7.{Gf7, g0, g1, g2, g3, g5, gf7_field, gf7_group, gf7_action}
use ohm_ecdsa.Field.{zero_scalar, one_scalar, ◌⊕◌, ◌⊗◌, neg, invert, from_u64, order, ◌=?◌}
use ohm_ecdsa.Curve.{generator, identity, ◌⊡◌, ◌⊞◌, ◌=ₚ◌}
use ohm_ecdsa.Shamir.{eval_at, interpolate_at, interpolate_at_zero}
use ohm_ecdsa.Vss.{FeldmanCommitment, verify_share, eval_at_point}
use ohm_ecdsa.Vss.Laws.{log_poly}
use ohm_ecdsa.Open.{open_at, open_robust}
use ohm_ecdsa.Open.Check.{culprits}
use ohm_ecdsa.Open.Laws.{strict_outcome, open_at-outcome, open_at_sound, open_robust_guaranteed}

-- The commitment to 3 + 2 X.
abbrev commitment : FeldmanCommitment Gf7
commitment = record { points = g3 ∷ g2 ∷ [] }

abbrev good_shares : Map Gf7
good_shares = (1, g5) ∷ (2, g0) ∷ (3, g2) ∷ []

-- Party 2 sends a wrong share.
abbrev bad_shares : Map Gf7
bad_shares = (1, g5) ∷ (2, g1) ∷ (3, g2) ∷ []

opens_to_secret : open_at g0 2 commitment good_shares Phase.presign ≡ ok g3
unfolding open_at interpolate_at_zero interpolate_at verify_share eval_at_point gf7_field gf7_group
    gf7_action zero_scalar one_scalar ◌⊕◌ ◌⊗◌ neg invert from_u64 ◌=?◌ generator identity ◌⊡◌ ◌⊞◌
    ◌=ₚ◌
opens_to_secret = refl

blames_two :
    open_at g0 2 commitment bad_shares Phase.presign
    ≡ err (
        abort (record {
          phase = Phase.presign;
          blamed = 2 ∷ [];
          detail = text "share failed commitment check during opening";
        }))
unfolding open_at interpolate_at_zero interpolate_at verify_share eval_at_point gf7_field gf7_group
    gf7_action zero_scalar one_scalar ◌⊕◌ ◌⊗◌ neg invert from_u64 ◌=?◌ generator identity ◌⊡◌ ◌⊞◌
    ◌=ₚ◌
blames_two = refl

small_good : All (λ p. p < order Gf7) (keys good_shares)
unfolding order gf7_field
small_good = omega arith

one_culprit : culprits {F = Gf7} commitment bad_shares ≡ 2 ∷ []
unfolding verify_share eval_at_point gf7_field gf7_group gf7_action zero_scalar one_scalar ◌⊗◌
    from_u64 generator identity ◌⊡◌ ◌⊞◌ ◌=ₚ◌
one_culprit = refl

open_at-outcome_example :
    open_at g0 2 commitment bad_shares Phase.presign
    ≡ strict_outcome commitment g0 2 bad_shares Phase.presign
        (text "share failed commitment check during opening")
open_at-outcome_example =
    open_at-outcome g0 2 commitment bad_shares Phase.presign (omega arith) small_good (omega arith)

open_at_sound_example :
    (generator {G = Gf7} ⊡ g3 ≡ eval_at_point commitment g0)
    × (culprits {F = Gf7} commitment good_shares ≡ [])
    × (2 ≤ length good_shares)
open_at_sound_example =
    open_at_sound g0 2 commitment good_shares Phase.presign g3 (omega arith) small_good
      (omega arith) opens_to_secret

open_robust_guaranteed_example :
    open_robust 2 commitment bad_shares Phase.presign
    ≡ ok (eval_at (log_poly Gf7 commitment) zero_scalar, culprits {F = Gf7} commitment bad_shares)
open_robust_guaranteed_example =
    open_robust_guaranteed 2 commitment bad_shares Phase.presign (omega arith) small_good
      (omega arith) (omega arith) (rw one_culprit (omega arith))
