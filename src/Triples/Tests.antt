-- ===== src/Triples/Tests.antt =====
-- A triple of three parties with threshold 2 over the field of seven elements.
use ohm_ecdsa.Vss
use ohm_ecdsa.Vss.{add, add_const, eval_at_point, from_poly, scale, sum, verify_share}
use ohm_ecdsa.Shamir.{eval, eval_at, lagrange_coeffs, lagrange_coeffs_at, random_poly}
use ohm_ecdsa.Rng.{random, random_list}
use ohm_ecdsa.Field.{from_u64, order, one_scalar, zero_scalar, ◌⊕◌, ◌⊗◌, invert, neg}
use ohm_ecdsa.Encoding.{be_bytes, point_bytes, sha256}
use ohm_ecdsa.Dleq.{challenge, prove, verify}
use ohm_ecdsa.Dkg.Rounds.{defenses_to, finalize_all, reveal_all, shares_to, start_all}
use ohm_ecdsa.Dkg.Hashing.{commitments_bytes, hash_commitment, hash_commitments, points_bytes}
use ohm_ecdsa.Dkg.{
  check_dealer, check_share, defend, finalize, finalize_loop, resolve_complaint, reveal, revealed,
  settle_share, share_for, start_committee, start_with_secret,
}
use ohm_ecdsa.Curve.{generator, identity, ◌=ₚ◌, ◌⊞◌, ◌⊡◌}
use ohm_ecdsa.Core.Map.{collect_into, get, insert}
use ohm_ecdsa.Prelude.{◌≡◌, refl, List, [], ◌∷◌, none, arith}
use ohm_ecdsa.Core.{PartyId, Committee, Result, ok}
use ohm_ecdsa.Gf7.{Gf7, g0, g1, g2, g3, g4, g5, g6, gf7_field, gf7_group, gf7_action}
use ohm_ecdsa.Gf7.Bytes.{gf7_hash, gf7_points, gf7_rng, gf7_digest}
use ohm_ecdsa.Shamir.Lagrange.{IsQuorum}
use ohm_ecdsa.Presign.{TripleShare, TriplePublic}
use ohm_ecdsa.Triples.{
  generate_with_committee, joint_random, accumulate, check_product, check_reshares, column,
  combine_products, multiply, reshare_all, reshare_product, tamper_proof, tamper_share, tampered,
  triple_records,
}
use ohm_ecdsa.Triples.Generate.{IsTriple, generate_with_committee-IsTriple}

abbrev committee : Committee
committee = record { ids = 1 ∷ 2 ∷ 3 ∷ []; t = 2 }

abbrev rngs : List Gf7
rngs = g1 ∷ g2 ∷ g2 ∷ []

abbrev public : TriplePublic Gf7
public = record {
  ca = record { points = g5 ∷ g1 ∷ [] };
  cb = record { points = g4 ∷ g0 ∷ [] };
  cc = record { points = g6 ∷ g3 ∷ [] };
}

abbrev record_of : PartyId → Gf7 → Gf7 → Gf7 → TripleShare Gf7 × TriplePublic Gf7
record_of i a b c = (record { index = i; a = a; b = b; c = c }, public)

abbrev generated : Result (List (TripleShare Gf7 × TriplePublic Gf7) × List Gf7)
generated =
    ok (record_of 1 g6 g4 g2 ∷ record_of 2 g0 g4 g5 ∷ record_of 3 g1 g4 g1 ∷ [], g0 ∷ g1 ∷ g1 ∷ [])

generate_with_committee_run : generate_with_committee committee (7 ∷ []) rngs none ≡ generated
unfolding Vss.eval_at accumulate add add_const be_bytes challenge check_dealer check_product
    check_reshares check_share collect_into column combine_products commitments_bytes defend
    defenses_to eval eval_at eval_at_point finalize finalize_all finalize_loop from_poly from_u64
    generate_with_committee generator get gf7_action gf7_digest gf7_field gf7_group gf7_hash
    gf7_points gf7_rng hash_commitment hash_commitments identity insert invert joint_random
    lagrange_coeffs lagrange_coeffs_at multiply neg one_scalar point_bytes points_bytes prove random
    random_list random_poly reshare_all reshare_product resolve_complaint reveal reveal_all revealed
    scale settle_share sha256 share_for shares_to start_all start_committee start_with_secret sum
    tamper_proof tamper_share tampered triple_records verify verify_share zero_scalar ◌=ₚ◌ ◌⊕◌ ◌⊗◌
    ◌⊞◌ ◌⊡◌
generate_with_committee_run = refl

generate_with_committee-IsTriple_example :
    IsTriple 2
      (1 ∷ 2 ∷ 3 ∷ [])
      public
      (record_of 1 g6 g4 g2 ∷ record_of 2 g0 g4 g5 ∷ record_of 3 g1 g4 g1 ∷ [])
generate_with_committee-IsTriple_example =
    generate_with_committee-IsTriple committee (7 ∷ []) rngs none (record_of 1 g6 g4 g2)
      (record_of 2 g0 g4 g5 ∷ record_of 3 g1 g4 g1 ∷ []) quorum (omega arith) (omega arith)
      generate_with_committee_run
  where
    quorum : IsQuorum Gf7 (1 ∷ 2 ∷ 3 ∷ [])
    quorum = unfold order gf7_field in omega arith
