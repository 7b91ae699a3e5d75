-- ===== src/Sign/Tests.antt =====
-- Signing with threshold 2 over the field of seven elements: the theorems at concrete runs. The nonce
-- is 2, so u = 4 is shared by 4 + X; the key is 3, so z = 4·3 = 5 is shared by 5 + 2 X; r is 2.
use ohm_ecdsa.Prelude.{◌≡◌, ◌≢◌, ◌≤◌, refl, List, [], ◌∷◌, true, map, arith}
use ohm_ecdsa.Core.{ok}
use ohm_ecdsa.Gf7.{Gf7, g0, g1, g2, g3, g4, g5, g6, gf7_field, gf7_group, gf7_action}
use ohm_ecdsa.Field.{zero_scalar, one_scalar, ◌⊕◌, ◌⊗◌, neg, invert, from_u64, order, ◌=?◌}
use ohm_ecdsa.Field.Laws.{inverse}
use ohm_ecdsa.Curve.{generator, identity, ◌⊡◌, ◌⊞◌, ◌=ₚ◌}
use ohm_ecdsa.Shamir.{eval_at, interpolate_at, interpolate_at_zero}
use ohm_ecdsa.Shamir.Lagrange.{IsQuorum}
use ohm_ecdsa.Vss.{FeldmanCommitment, verify_share, eval_at_point, add, scale}
use ohm_ecdsa.Vss.Laws.{log_poly}
use ohm_ecdsa.Open.{check_shares, finish_strict}
use ohm_ecdsa.Open.Check.{culprits}
use ohm_ecdsa.Presign.{Presignature, apply_tweak}
use ohm_ecdsa.Sign.{
  SignShare, entries, sign_share, combine_at, combine_verified, combine_robust_verified,
}
use ohm_ecdsa.Sign.Tweak.{apply_tweak_signs}
use ohm_ecdsa.Sign.Combine.{
  combine_verified_sound, combine_robust_guaranteed, combine_at_ecdsa, signature_verifies,
}

-- Party 1 has u = 5 and z = 0.
abbrev presig : Presignature Gf7 Gf7
presig = record {
  id = 0;
  index = 1;
  r = g2;
  big_r = g2;
  u_share = g5;
  z_share = g0;
  u_com = record { points = g4 ∷ g1 ∷ [] };
  z_com = record { points = g5 ∷ g2 ∷ [] };
}

-- The shares of parties 1, 2 and 3 for the message 6: 6·u + 2·z.
abbrev shares : List (SignShare Gf7)
shares =
    record { from = 1; s = g2 } ∷ record { from = 2; s = g5 } ∷ record { from = 3; s = g1 } ∷ []

small_senders : IsQuorum Gf7 (map (λ e. e.0) (entries shares))
unfolding order gf7_field
small_senders = omega arith

abbrev signature : Gf7 × Gf7
signature = (g2, g6)

signs : combine_at 2 g0 presig g6 shares ≡ ok signature
unfolding combine_at combine_verified finish_strict check_shares ◌=?◌ interpolate_at_zero
    interpolate_at verify_share eval_at_point add scale gf7_field gf7_group gf7_action zero_scalar
    one_scalar ◌⊕◌ ◌⊗◌ neg invert from_u64 generator identity ◌⊡◌ ◌⊞◌ ◌=ₚ◌
signs = refl

abbrev signing_com : FeldmanCommitment Gf7
unfolding add scale gf7_field gf7_group gf7_action ◌⊡◌ ◌⊞◌
signing_com = add (scale presig.u_com g6) (scale presig.z_com g2)

u_passes : verify_share presig.u_com 1 g5 ≡ true
unfolding verify_share eval_at_point add scale gf7_field gf7_group gf7_action zero_scalar one_scalar
    ◌⊕◌ ◌⊗◌ from_u64 generator identity ◌⊡◌ ◌⊞◌ ◌=ₚ◌
u_passes = refl

z_passes : verify_share presig.z_com 1 g0 ≡ true
unfolding verify_share eval_at_point add scale gf7_field gf7_group gf7_action zero_scalar one_scalar
    ◌⊕◌ ◌⊗◌ from_u64 generator identity ◌⊡◌ ◌⊞◌ ◌=ₚ◌
z_passes = refl

u_value : eval_at_point presig.u_com g0 ≡ generator ⊡ g4
u_value =
    unfold eval_at_point gf7_field gf7_group gf7_action zero_scalar one_scalar ◌⊗◌ generator
      identity ◌⊡◌ ◌⊞◌ in
    refl

z_value : eval_at_point presig.z_com g0 ≡ generator ⊡ g5
z_value =
    unfold eval_at_point gf7_field gf7_group gf7_action zero_scalar one_scalar ◌⊗◌ generator
      identity ◌⊡◌ ◌⊞◌ in
    refl

inverse_nonce : g2 ⊗ g4 ≡ one_scalar
inverse_nonce = unfold gf7_field one_scalar ◌⊗◌ in refl

product_key : g5 ≡ g4 ⊗ g3
product_key = unfold gf7_field ◌⊗◌ in refl

combine_at_ecdsa_example : (signature.0 ≡ g2) × (g2 ⊗ signature.1 ≡ g6 ⊕ signature.0 ⊗ g3)
combine_at_ecdsa_example =
    combine_at_ecdsa 2 g0 presig g6 g2 g4 g5 g3 shares u_value z_value inverse_nonce product_key
      (omega arith) (omega arith) small_senders signs

combine_verified_sound_example :
    (signature.0 ≡ g2)
    × (generator ⊡ signature.1 ≡ eval_at_point signing_com g0)
    × (culprits signing_com (entries shares) ≡ [])
    × (2 ≤ 3)
unfolding signing_com
combine_verified_sound_example =
    combine_verified_sound 2 g0 g2 signing_com shares small_senders (omega arith) combined
  where
    combined : combine_verified 2 g0 g2 signing_com shares ≡ ok signature
    combined = unfold combine_at in signs

-- Party 2 sends 0 instead of 5.
abbrev bad_shares : List (SignShare Gf7)
bad_shares =
    record { from = 1; s = g2 } ∷ record { from = 2; s = g0 } ∷ record { from = 3; s = g1 } ∷ []

two_blamed : culprits {F = Gf7} signing_com (entries bad_shares) ≡ 2 ∷ []
unfolding signing_com verify_share eval_at_point add scale gf7_field gf7_group gf7_action
    zero_scalar one_scalar ◌⊕◌ ◌⊗◌ from_u64 generator identity ◌⊡◌ ◌⊞◌ ◌=ₚ◌
two_blamed = refl

combine_robust_guaranteed_example :
    combine_robust_verified 2 g2 signing_com bad_shares
    ≡ ok (
      (g2, eval_at (log_poly Gf7 signing_com) zero_scalar),
      culprits {F = Gf7} signing_com (entries bad_shares),
    )
unfolding signing_com
combine_robust_guaranteed_example =
    combine_robust_guaranteed 2 g2 signing_com bad_shares small_senders (omega arith) (omega arith)
      (rw two_blamed (omega arith))

-- The shares of parties 1, 2 and 3 for the message 6 under the record tweaked by 3: 6·u + 2·(z + 3·u).
abbrev child_shares : List (SignShare Gf7)
child_shares =
    record { from = 1; s = g4 } ∷ record { from = 2; s = g6 } ∷ record { from = 3; s = g1 } ∷ []

small_child_senders : IsQuorum Gf7 (map (λ e. e.0) (entries child_shares))
unfolding order gf7_field
small_child_senders = omega arith

child_signs : combine_at 2 g0 (apply_tweak presig g3) g6 child_shares ≡ ok (g2, g2)
unfolding apply_tweak combine_at combine_verified finish_strict check_shares ◌=?◌
    interpolate_at_zero interpolate_at verify_share eval_at_point add scale gf7_field gf7_group
    gf7_action zero_scalar one_scalar ◌⊕◌ ◌⊗◌ neg invert from_u64 generator identity ◌⊡◌ ◌⊞◌ ◌=ₚ◌
child_signs = refl

apply_tweak_signs_example :
    (verify_share
        (add (scale (apply_tweak presig g3).u_com g6) (scale (apply_tweak presig g3).z_com g2))
        1
        (sign_share (apply_tweak presig g3) g6).s
      ≡ true)
    × (g2 ≡ g2)
    × (g2 ⊗ g2 ≡ g6 ⊕ g2 ⊗ (g3 ⊕ g3))
apply_tweak_signs_example =
    apply_tweak_signs 2 g0 presig g3 g6 g2 g4 g5 g3 child_shares u_value z_value inverse_nonce
      product_key (omega arith) (omega arith) u_passes z_passes small_child_senders child_signs

signature_verifies_example :
    (generator {G = Gf7} ⊡ g6 ⊞ generator ⊡ g3 ⊡ g2) ⊡ inverse g6 ≡ generator ⊡ g2
signature_verifies_example = signature_verifies Gf7 g2 g6 g2 g6 g3 equation nonzero
  where
    equation : g2 ⊗ g6 ≡ g6 ⊕ g2 ⊗ g3
    equation = unfold gf7_field ◌⊕◌ ◌⊗◌ in refl

    nonzero : g6 ≢ zero_scalar
    nonzero e = unfold gf7_field zero_scalar in cc e
