-- ===== src/Presign/Run/Tests.antt =====
-- A presigning of three parties with threshold 2 over the field of seven elements, and a signature from it.
use ohm_ecdsa.Core.Committees.{IsCommittee}
use ohm_ecdsa.Shamir.Lagrange.{IsQuorum}
use ohm_ecdsa.Vss.Secret.{secret}
use ohm_ecdsa.Presign.Run.Phases.{IsPresigned}
use ohm_ecdsa.Presign.Run.Sound.{presign_with_committee-IsPresigned}
use ohm_ecdsa.Presign.Run.Signing.{Verifies, presign-combine_at, presign-Verifies}
use ohm_ecdsa.Rng.{random, random_list}
use ohm_ecdsa.Encoding.{be_bytes, point_bytes, sha256}
use ohm_ecdsa.Dleq.{challenge, prove, verify}
use ohm_ecdsa.Dkg.Hashing.{commitments_bytes, hash_commitment, hash_commitments, points_bytes}
use ohm_ecdsa.Core.Tags.{decimal}
use ohm_ecdsa.Triples.{
  generate_with_committee, joint_random, accumulate, check_product, check_reshares, column,
  combine_products, multiply, reshare_all, reshare_product, tamper_proof, tamper_share, tampered,
  triple_records,
}
use ohm_ecdsa.Shamir.{
  dot_loop, interpolate_at, interpolate_at_zero, lagrange_coeffs_at, eval, eval_at, lagrange_coeffs,
  random_poly,
}
use ohm_ecdsa.Open.{
  check_loop, check_shares, finish_strict, interpolate_first, open_at, open_shares,
}
use ohm_ecdsa.Field.{from_u64, one_scalar, zero_scalar, ◌=?◌, ◌⊕◌, ◌⊗◌, invert, neg, order}
use ohm_ecdsa.Dkg.Rounds.{defenses_to, finalize_all, reveal_all, shares_to, start_all}
use ohm_ecdsa.Curve.{generator, identity, ◌=ₚ◌, ◌⊞◌, ◌⊡◌}
use ohm_ecdsa.Core.Map.{collect_into, insert, get}
use ohm_ecdsa.Prelude.{◌<◌, map, All, ◌≡◌, refl, List, [], ◌∷◌, none, arith}
use ohm_ecdsa.Core.{PartyId, Committee, ok}
use ohm_ecdsa.Gf7.{Gf7, g0, g1, g2, g3, g4, g5, g6, gf7_field, gf7_group, gf7_action}
use ohm_ecdsa.Gf7.Bytes.{gf7_hash, gf7_points, gf7_rng, gf7_digest, gf7_x}
use ohm_ecdsa.Vss
use ohm_ecdsa.Vss.{
  FeldmanCommitment, add, eval_at_point, scale, verify_share, add_const, from_poly, sum,
}
use ohm_ecdsa.Dkg.{
  DkgOutput, finalize, finalize_loop, reveal, start_committee, start_with_secret, check_dealer,
  check_share, defend, resolve_complaint, revealed, settle_share, share_for,
}
use ohm_ecdsa.Presign.{Presignature}
use ohm_ecdsa.Sign.{SignShare, sign_share, combine_at, combine_verified, ki_z_com, ki_z_share}
use ohm_ecdsa.Presign.Run.{
  presign_with_committee, any_misplaced, check_committee_inputs, bind_key, combine_points, masked,
  nonce_of, nonce_phase, nonce_points, open_masked, open_v, presignatures, product_shares,
  tamper_open,
}

abbrev committee : Committee
committee = record { ids = 1 ∷ 2 ∷ 3 ∷ []; t = 2 }

abbrev rngs : List Gf7
rngs = g1 ∷ g2 ∷ g2 ∷ []

-- Shares of 4 + 3 X.
abbrev key : PartyId → Gf7 → DkgOutput Gf7 Gf7
key i s = record { index = i; share = s; cm = record { points = g4 ∷ g3 ∷ [] } }

abbrev keys : List (DkgOutput Gf7 Gf7)
keys = key 2 g3 ∷ key 3 g6 ∷ []

abbrev presig : PartyId → Gf7 → Gf7 → Presignature Gf7 Gf7
presig i u z = record {
  id = 5;
  index = i;
  r = g1;
  big_r = g6;
  u_share = u;
  z_share = z;
  u_com = record { points = g6 ∷ g2 ∷ [] };
  z_com = record { points = g3 ∷ g5 ∷ [] };
}

abbrev presigs : List (Presignature Gf7 Gf7)
presigs = presig 1 g1 g1 ∷ presig 2 g3 g6 ∷ presig 3 g5 g4 ∷ []

-- Party 1 signs nothing; the others sign 2.
abbrev shares : List (SignShare Gf7)
shares = record { from = 2; s = g5 } ∷ record { from = 3; s = g0 } ∷ []

presign_run :
    presign_with_committee committee (key 1 g0 ∷ keys) 5 rngs none ≡ ok (presigs, g3 ∷ g4 ∷ g4 ∷ [])
unfolding Vss.eval_at accumulate add add_const any_misplaced be_bytes bind_key challenge
    check_committee_inputs check_dealer check_loop check_product check_reshares check_share
    check_shares collect_into column combine_at combine_points combine_products combine_verified
    commitments_bytes decimal defend defenses_to dot_loop eval eval_at eval_at_point finalize
    finalize_all finalize_loop finish_strict from_poly from_u64 generate_with_committee generator
    get gf7_action gf7_digest gf7_field gf7_group gf7_hash gf7_points gf7_rng gf7_x hash_commitment
    hash_commitments identity insert interpolate_at interpolate_at_zero interpolate_first invert
    joint_random ki_z_com ki_z_share lagrange_coeffs lagrange_coeffs_at masked multiply neg nonce_of
    nonce_phase nonce_points one_scalar open_at open_masked open_shares open_v point_bytes
    points_bytes presign_with_committee presignatures product_shares prove random random_list
    random_poly reshare_all reshare_product resolve_complaint reveal reveal_all revealed scale
    settle_share sha256 share_for shares_to start_all start_committee start_with_secret sum
    tamper_open tamper_proof tamper_share tampered triple_records verify verify_share zero_scalar
    ◌=?◌ ◌=ₚ◌ ◌⊕◌ ◌⊗◌ ◌⊞◌ ◌⊡◌
presign_run = refl

combine_run : combine_at 2 zero_scalar (presig 1 g1 g1) g2 shares ≡ ok (g1, g1)
unfolding add check_loop check_shares combine_at combine_verified dot_loop eval_at_point
    finish_strict from_u64 generator gf7_action gf7_field gf7_group identity interpolate_at
    interpolate_at_zero interpolate_first invert lagrange_coeffs_at neg one_scalar scale
    verify_share zero_scalar ◌=?◌ ◌=ₚ◌ ◌⊕◌ ◌⊗◌ ◌⊞◌ ◌⊡◌
combine_run = refl

three_parties : IsCommittee (1 ∷ 2 ∷ 3 ∷ []) 2
three_parties = record {
  strict = omega arith;
  positive = omega arith;
  threshold = omega arith;
  honest_majority = omega arith;
}

small_ids : All (λ p. p < order Gf7) (1 ∷ 2 ∷ 3 ∷ [])
unfolding order gf7_field
small_ids = omega arith

signers : IsQuorum Gf7 (2 ∷ 3 ∷ [])
unfolding order gf7_field
signers = omega arith

presign_with_committee-IsPresigned_example : IsPresigned 2 (1 ∷ 2 ∷ 3 ∷ []) (key 1 g0).cm presigs
presign_with_committee-IsPresigned_example =
    presign_with_committee-IsPresigned committee (key 1 g0) keys 5 rngs none presigs three_parties
      small_ids (omega arith) presign_run

presign-combine_at_example :
    combine_at 2 zero_scalar (presig 1 g1 g1) g2 (map (λ p. sign_share p g2) presigs)
    ≡ ok (g1, secret Gf7 (presig 1 g1 g1).u_com ⊗ (g2 ⊕ g1 ⊗ secret Gf7 (key 1 g0).cm))
presign-combine_at_example =
    presign-combine_at committee (key 1 g0) keys 5 rngs none presigs g2 0 (presig 1 g1 g1)
      three_parties small_ids (omega arith) presign_run refl

presign-Verifies_example :
    Verifies (eval_at_point (key 1 g0).cm (zero_scalar {F = Gf7})) g2 (g1, g1)
presign-Verifies_example =
    presign-Verifies committee (key 1 g0) keys 5 rngs none presigs g2 0 (presig 1 g1 g1) shares
      (g1, g1) three_parties small_ids (omega arith) presign_run refl signers combine_run
      (unfold zero_scalar gf7_field in cc)
