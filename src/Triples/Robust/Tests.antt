-- ===== src/Triples/Robust/Tests.antt =====
-- Robust triple generation of three parties over the field of seven elements: dealer 2 sends party 3 a wrong share.
use ohm_ecdsa.Presign.Run.{
  presign_with_committee, any_misplaced, check_committee_inputs, bind_key, combine_points, masked,
  nonce_of, nonce_phase, nonce_points, open_masked, open_v, presignatures, product_shares,
  tamper_open,
}
use ohm_ecdsa.Sign.{combine_at, combine_verified, ki_z_com, ki_z_share}
use ohm_ecdsa.Open.{
  check_loop, check_shares, finish_strict, interpolate_first, open_at, open_shares,
}
use ohm_ecdsa.Core.Tags.{decimal}
use ohm_ecdsa.Vss
use ohm_ecdsa.Vss.{add, add_const, eval_at_point, from_poly, scale, sum, verify_share}
use ohm_ecdsa.Shamir.{
  eval, eval_at, lagrange_coeffs, lagrange_coeffs_at, random_poly, dot_loop, interpolate_at,
  interpolate_at_zero,
}
use ohm_ecdsa.Rng.{random, random_list}
use ohm_ecdsa.Field.{from_u64, order, one_scalar, zero_scalar, ◌⊕◌, ◌⊗◌, invert, neg, ◌=?◌}
use ohm_ecdsa.Encoding.{be_bytes, point_bytes, sha256}
use ohm_ecdsa.Dleq.{challenge, prove, verify}
use ohm_ecdsa.Dkg.Rounds.{defenses_to, finalize_all, reveal_all, shares_to, start_all}
use ohm_ecdsa.Dkg.Hashing.{commitments_bytes, hash_commitment, hash_commitments, points_bytes}
use ohm_ecdsa.Dkg.{
  check_dealer, check_share, defend, finalize, finalize_loop, resolve_complaint, reveal, revealed,
  settle_share, share_for, start_committee, start_with_secret,
}
use ohm_ecdsa.Curve.{generator, identity, ◌=ₚ◌, ◌⊞◌, ◌⊡◌}
use ohm_ecdsa.Core.Map.{collect_into, get, insert}
use ohm_ecdsa.Prelude.{◌≡◌, refl, List, [], ◌∷◌, none, arith}
use ohm_ecdsa.Core.{PartyId, Committee, ok}
use ohm_ecdsa.Gf7.{Gf7, g0, g1, g2, g3, g4, g5, g6, gf7_field, gf7_group, gf7_action}
use ohm_ecdsa.Gf7.Bytes.{gf7_hash, gf7_points, gf7_rng, gf7_digest, gf7_x}
use ohm_ecdsa.Shamir.Lagrange.{IsQuorum}
use ohm_ecdsa.Presign.{TripleShare, TriplePublic}
use ohm_ecdsa.Triples.{
  generate_with_committee, joint_random, accumulate, check_product, check_reshares, column,
  combine_products, multiply, reshare_all, reshare_product, tamper_proof, tamper_share, tampered,
  triple_records,
}
use ohm_ecdsa.Triples.Generate.{IsTriple}
use ohm_ecdsa.Triples.{TripleTamper}
use ohm_ecdsa.Prelude.{some}
use ohm_ecdsa.Triples.Robust.{
  generate_robust_with_committee, multiply_robust, combine_products_robust, recover_reshares,
  reconstruct, recomputed, recompute_one, addressed,
}
use ohm_ecdsa.Triples.Robust.Generate.{generate_robust-IsTriple}

abbrev committee : Committee
committee = record { ids = 1 ∷ 2 ∷ 3 ∷ []; t = 2 }

abbrev rngs : List Gf7
rngs = g1 ∷ g2 ∷ g2 ∷ []

abbrev cheat : TripleTamper
cheat = record { bad_reshare = some (2, 3); bad_product_proof = none; bad_product_proof_at = none }

abbrev public : TriplePublic Gf7
public = record {
  ca = record { points = g5 ∷ g1 ∷ [] };
  cb = record { points = g4 ∷ g0 ∷ [] };
  cc = record { points = g6 ∷ g3 ∷ [] };
}

abbrev record_of : PartyId → Gf7 → Gf7 → Gf7 → TripleShare Gf7 × TriplePublic Gf7
record_of i a b c = (record { index = i; a = a; b = b; c = c }, public)

generate_robust_run :
    generate_robust_with_committee committee (7 ∷ []) rngs (some cheat)
    ≡ ok ((record_of 1 g6 g4 g2 ∷ record_of 3 g1 g4 g1 ∷ [], 2 ∷ []), g0 ∷ g1 ∷ g1 ∷ [])
unfolding Vss.eval_at accumulate add add_const any_misplaced be_bytes bind_key challenge
    check_committee_inputs check_dealer check_loop check_product check_reshares check_share
    check_shares collect_into column combine_at combine_points combine_products combine_verified
    commitments_bytes decimal defend defenses_to dot_loop eval eval_at eval_at_point finalize
    finalize_all finalize_loop finish_strict from_poly from_u64 generate_with_committee generator
    get gf7_action gf7_digest gf7_field gf7_group gf7_hash gf7_points gf7_rng gf7_x hash_commitment
    hash_commitments identity insert interpolate_at interpolate_at_zero interpolate_first invert
    joint_random ki_z_com ki_z_share lagrange_coeffs lagrange_coeffs_at masked multiply neg nonce_of
    nonce_phase nonce_points one_scalar open_at open_masked open_shares open_v point_bytes
    points_bytes presign_with_committee presignatures product_shares prove random random_list
    random_poly reshare_all reshare_product resolve_complaint reveal reveal_all revealed scale
    settle_share sha256 share_for shares_to start_all start_committee start_with_secret sum
    tamper_open tamper_proof tamper_share tampered triple_records verify verify_share zero_scalar
    ◌=?◌ ◌=ₚ◌ ◌⊕◌ ◌⊗◌ ◌⊞◌ ◌⊡◌ generate_robust_with_committee multiply_robust combine_products_robust
    recover_reshares reconstruct recomputed recompute_one addressed
generate_robust_run = refl

generate_robust-IsTriple_example :
    IsTriple 2 (1 ∷ 3 ∷ []) public (record_of 1 g6 g4 g2 ∷ record_of 3 g1 g4 g1 ∷ [])
generate_robust-IsTriple_example =
    generate_robust-IsTriple committee (7 ∷ []) rngs (some cheat) (record_of 1 g6 g4 g2)
      (record_of 3 g1 g4 g1 ∷ []) (2 ∷ []) quorum (omega arith) (omega arith) generate_robust_run
  where
    quorum : IsQuorum Gf7 (1 ∷ 2 ∷ 3 ∷ [])
    quorum = unfold order gf7_field in omega arith
