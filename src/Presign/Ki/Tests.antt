-- ===== src/Presign/Ki/Tests.antt =====
-- A key-independent presigning of three parties over the field of seven elements.
use ohm_ecdsa.Core.Committees.{IsCommittee}
use ohm_ecdsa.Rng.{random, random_list}
use ohm_ecdsa.Encoding.{be_bytes, point_bytes, sha256}
use ohm_ecdsa.Dleq.{challenge, prove, verify}
use ohm_ecdsa.Dkg.Hashing.{commitments_bytes, hash_commitment, hash_commitments, points_bytes}
use ohm_ecdsa.Core.Tags.{decimal}
use ohm_ecdsa.Triples.{
  generate_with_committee, joint_random, accumulate, check_product, check_reshares, column,
  combine_products, multiply, reshare_all, reshare_product, tamper_proof, tamper_share, tampered,
  triple_records,
}
use ohm_ecdsa.Shamir.{
  dot_loop, interpolate_at, interpolate_at_zero, lagrange_coeffs_at, eval, eval_at, lagrange_coeffs,
  random_poly,
}
use ohm_ecdsa.Open.{
  check_loop, check_shares, finish_strict, interpolate_first, open_at, open_shares,
}
use ohm_ecdsa.Field.{from_u64, one_scalar, zero_scalar, ◌=?◌, ◌⊕◌, ◌⊗◌, invert, neg, order}
use ohm_ecdsa.Dkg.Rounds.{defenses_to, finalize_all, reveal_all, shares_to, start_all}
use ohm_ecdsa.Curve.{generator, identity, ◌=ₚ◌, ◌⊞◌, ◌⊡◌}
use ohm_ecdsa.Core.Map.{collect_into, insert, get}
use ohm_ecdsa.Prelude.{◌<◌, All, ◌≡◌, refl, List, [], ◌∷◌, none, arith}
use ohm_ecdsa.Core.{PartyId, Committee, ok}
use ohm_ecdsa.Gf7.{Gf7, g0, g1, g2, g3, g4, g5, gf7_field, gf7_group, gf7_action}
use ohm_ecdsa.Gf7.Bytes.{gf7_hash, gf7_points, gf7_rng, gf7_digest, gf7_x}
use ohm_ecdsa.Vss
use ohm_ecdsa.Vss.{
  FeldmanCommitment, add, eval_at_point, scale, verify_share, add_const, from_poly, sum,
}
use ohm_ecdsa.Dkg.{
  finalize, finalize_loop, reveal, start_committee, start_with_secret, check_dealer, check_share,
  defend, resolve_complaint, revealed, settle_share, share_for,
}
use ohm_ecdsa.Sign.{ki_z_com, ki_z_share}
use ohm_ecdsa.Presign.Run.{
  combine_points, masked, nonce_of, nonce_phase, nonce_points, open_masked, open_v, product_shares,
  tamper_open,
}
use ohm_ecdsa.Presign.{KiPresignature}
use ohm_ecdsa.Presign.Ki.{presign_ki_with_committee, ki_presignatures}
use ohm_ecdsa.Presign.Ki.Sound.{IsKiPresigned, presign_ki_with_committee-IsKiPresigned}

abbrev committee : Committee
committee = record { ids = 1 ∷ 2 ∷ 3 ∷ []; t = 2 }

abbrev rngs : List Gf7
rngs = g1 ∷ g2 ∷ g2 ∷ []

abbrev presig : PartyId → Gf7 → KiPresignature Gf7 Gf7
presig i u = record {
  id = 5;
  index = i;
  r = g3;
  big_r = g4;
  u_share = u;
  u_com = record { points = g2 ∷ g5 ∷ [] };
}

abbrev presigs : List (KiPresignature Gf7 Gf7)
presigs = presig 1 g0 ∷ presig 2 g5 ∷ presig 3 g3 ∷ []

presign_ki_run : presign_ki_with_committee committee 5 rngs none ≡ ok (presigs, g4 ∷ g5 ∷ g5 ∷ [])
unfolding Vss.eval_at accumulate add add_const be_bytes challenge check_dealer check_loop
    check_product check_reshares check_share check_shares collect_into column combine_points
    combine_products commitments_bytes decimal defend defenses_to dot_loop eval eval_at
    eval_at_point finalize finalize_all finalize_loop finish_strict from_poly from_u64
    generate_with_committee generator get gf7_action gf7_digest gf7_field gf7_group gf7_hash
    gf7_points gf7_rng gf7_x hash_commitment hash_commitments identity insert interpolate_at
    interpolate_at_zero interpolate_first invert joint_random ki_z_com ki_z_share lagrange_coeffs
    lagrange_coeffs_at masked multiply neg nonce_of nonce_phase nonce_points one_scalar open_at
    open_masked open_shares open_v point_bytes points_bytes product_shares prove random random_list
    random_poly reshare_all reshare_product resolve_complaint reveal reveal_all revealed scale
    settle_share sha256 share_for shares_to start_all start_committee start_with_secret sum
    tamper_open tamper_proof tamper_share tampered triple_records verify verify_share zero_scalar
    ◌=?◌ ◌=ₚ◌ ◌⊕◌ ◌⊗◌ ◌⊞◌ ◌⊡◌ presign_ki_with_committee ki_presignatures
presign_ki_run = refl

presign_ki_with_committee-IsKiPresigned_example : IsKiPresigned 2 (1 ∷ 2 ∷ 3 ∷ []) presigs
presign_ki_with_committee-IsKiPresigned_example =
    presign_ki_with_committee-IsKiPresigned committee 5 rngs none presigs three_parties small_ids
      presign_ki_run
  where
    three_parties : IsCommittee (1 ∷ 2 ∷ 3 ∷ []) 2
    three_parties = record {
      strict = omega arith;
      positive = omega arith;
      threshold = omega arith;
      honest_majority = omega arith;
    }

    small_ids : All (λ p. p < order Gf7) (1 ∷ 2 ∷ 3 ∷ [])
    small_ids = unfold order gf7_field in omega arith
