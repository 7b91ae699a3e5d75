-- ===== src/Sim/Tests.antt =====
-- Signing and restarts over the field of seven elements.
use ohm_ecdsa.Presign.Run.Signing.{Verifies}
use ohm_ecdsa.Store.Presig.{PresigStore}
use ohm_ecdsa.Sim.Restart.Sound.{run_triples_with_restart-IsTripleOf, IsTripleOf}
use ohm_ecdsa.Sim.Restart.Terminates.{run_triples_with_restart_terminates}
use ohm_ecdsa.Sim.Stored.{run_sign_stored-run_sign_stored}
use ohm_ecdsa.Sim.SigningKi.Verified.{run_sign_ki-Verifies}
use ohm_ecdsa.Sim.Verified.{run_sign-Verifies}
use ohm_ecdsa.Core.Committees.{IsCommittee}
use ohm_ecdsa.Presign.Ki.Sound.{presign_ki_with_committee-IsKiPresigned}
use ohm_ecdsa.Presign.Ki.{presign_ki_with_committee, ki_presignatures}
use ohm_ecdsa.Triples.Robust.{
  generate_robust_with_committee, multiply_robust, combine_products_robust, recover_reshares,
  reconstruct, recomputed, recompute_one, addressed,
}
use ohm_ecdsa.Policy.{restart_committee}
use ohm_ecdsa.Sign.{
  combine_at, combine_verified, ki_z_com, ki_z_share, sign_share, sign_share_ki, combine,
  combine_ki,
}
use ohm_ecdsa.Vss
use ohm_ecdsa.Core.Map.{collect_into, insert, get}
use ohm_ecdsa.Curve.{generator, identity, ◌=ₚ◌, ◌⊞◌, ◌⊡◌}
use ohm_ecdsa.Dkg.Rounds.{defenses_to, finalize_all, reveal_all, shares_to, start_all}
use ohm_ecdsa.Field.{from_u64, one_scalar, zero_scalar, ◌=?◌, ◌⊕◌, ◌⊗◌, invert, neg, order}
use ohm_ecdsa.Open.{
  check_loop, check_shares, finish_strict, interpolate_first, open_at, open_shares,
}
use ohm_ecdsa.Shamir.{
  dot_loop, interpolate_at, interpolate_at_zero, lagrange_coeffs_at, eval, eval_at, lagrange_coeffs,
  random_poly,
}
use ohm_ecdsa.Core.Tags.{decimal}
use ohm_ecdsa.Dkg.Hashing.{commitments_bytes, hash_commitment, hash_commitments, points_bytes}
use ohm_ecdsa.Dleq.{challenge, prove, verify}
use ohm_ecdsa.Encoding.{be_bytes, point_bytes, sha256}
use ohm_ecdsa.Rng.{random, random_list}
use ohm_ecdsa.Prelude.{◌≡◌, refl, List, [], ◌∷◌, none, some, arith, All, ◌<◌}
use ohm_ecdsa.Core.{
  PartyId, Committee, Params, Result, ok, full, new_committee, parties, any_equal_window,
  new_params, err, presig_store,
}
use ohm_ecdsa.Gf7.{Gf7, g0, g1, g2, g3, g4, g5, g6, gf7_field, gf7_group, gf7_action}
use ohm_ecdsa.Gf7.Bytes.{gf7_hash, gf7_points, gf7_rng, gf7_digest, gf7_x}
use ohm_ecdsa.Gf7.Signing.{gf7_signatures}
use ohm_ecdsa.Vss.{
  FeldmanCommitment, add, eval_at_point, scale, verify_share, add_const, from_poly, sum,
}
use ohm_ecdsa.Dkg.{
  DkgOutput, finalize, finalize_loop, reveal, start_committee, start_with_secret, check_dealer,
  check_share, defend, resolve_complaint, revealed, settle_share, share_for,
}
use ohm_ecdsa.Presign.{Presignature, KiPresignature, TripleShare, TriplePublic}
use ohm_ecdsa.Triples.{
  TripleTamper, generate_with_committee, joint_random, accumulate, check_product, check_reshares,
  column, combine_products, multiply, reshare_all, reshare_product, tamper_proof, tamper_share,
  tampered, triple_records, generate, generate_with_tamper,
}
use ohm_ecdsa.Presign.Run.{
  presign_with_committee, any_misplaced, check_committee_inputs, bind_key, combine_points, masked,
  nonce_of, nonce_phase, nonce_points, open_masked, open_v, presignatures, product_shares,
  tamper_open,
}
use ohm_ecdsa.Sim.Signing.{
  run_sign, message_scalar, tamper_signing, normalized, to_signature, run_sign_stored,
}
use ohm_ecdsa.Sim.SigningKi.{
  run_sign_ki, same_indices, ki_open_round, ki_sign_round, ki_sign_shares,
}
use ohm_ecdsa.Sim.Restart.{
  Restart, run_triples_with_restart, attempt_triples, restart_triples, completed, expel_blamed,
  survivors_or_abort, record_blame, original_ids, original_id, at_positions, survivor_positions,
  poison_sid,
}

abbrev rngs : List Gf7
rngs = g1 ∷ g2 ∷ g2 ∷ []

-- Shares of 4 + 3 X.
abbrev key : PartyId → Gf7 → DkgOutput Gf7 Gf7
key i s = record { index = i; share = s; cm = record { points = g4 ∷ g3 ∷ [] } }

abbrev keys : List (DkgOutput Gf7 Gf7)
keys = key 2 g3 ∷ key 3 g6 ∷ []

abbrev presig : PartyId → Gf7 → Presignature Gf7 Gf7
presig i u = record {
  id = 5;
  index = i;
  r = g1;
  big_r = g6;
  u_share = u;
  z_share = g4;
  u_com = record { points = g6 ∷ g2 ∷ [] };
  z_com = record { points = g4 ∷ g0 ∷ [] };
}

abbrev presigs : List (Presignature Gf7 Gf7)
presigs = presig 1 g1 ∷ presig 2 g3 ∷ presig 3 g5 ∷ []

abbrev ki : PartyId → Gf7 → KiPresignature Gf7 Gf7
ki i u = record {
  id = 5;
  index = i;
  r = g3;
  big_r = g4;
  u_share = u;
  u_com = record { points = g2 ∷ g5 ∷ [] };
}

abbrev kis : List (KiPresignature Gf7 Gf7)
kis = ki 1 g0 ∷ ki 2 g5 ∷ ki 3 g3 ∷ []

abbrev three : Params
three = record { n = 3; t = 2 }

abbrev four : Params
four = record { n = 4; t = 2 }

-- Shares of 3 + 3 X.
abbrev other : PartyId → Gf7 → DkgOutput Gf7 Gf7
other i s = record { index = i; share = s; cm = record { points = g3 ∷ g3 ∷ [] } }

abbrev others : List (DkgOutput Gf7 Gf7)
others = other 2 g2 ∷ other 3 g5 ∷ []

abbrev committee : Committee
committee = record { ids = 1 ∷ 2 ∷ 3 ∷ []; t = 2 }

presign_run :
    presign_with_committee committee (other 1 g6 ∷ others) 5 rngs none
    ≡ ok (presigs, g3 ∷ g4 ∷ g4 ∷ [])
unfolding Vss.eval_at accumulate add add_const any_misplaced be_bytes bind_key challenge
    check_committee_inputs check_dealer check_loop check_product check_reshares check_share
    check_shares collect_into column combine_at combine_points combine_products combine_verified
    commitments_bytes decimal defend defenses_to dot_loop eval eval_at eval_at_point finalize
    finalize_all finalize_loop finish_strict from_poly from_u64 generate_with_committee generator
    get gf7_action gf7_digest gf7_field gf7_group gf7_hash gf7_points gf7_rng gf7_x hash_commitment
    hash_commitments identity insert interpolate_at interpolate_at_zero interpolate_first invert
    joint_random ki_z_com ki_z_share lagrange_coeffs lagrange_coeffs_at masked multiply neg nonce_of
    nonce_phase nonce_points one_scalar open_at open_masked open_shares open_v point_bytes
    points_bytes presign_with_committee presignatures product_shares prove random random_list
    random_poly reshare_all reshare_product resolve_complaint reveal reveal_all revealed scale
    settle_share sha256 share_for shares_to start_all start_committee start_with_secret sum
    tamper_open tamper_proof tamper_share tampered triple_records verify verify_share zero_scalar
    ◌=?◌ ◌=ₚ◌ ◌⊕◌ ◌⊗◌ ◌⊞◌ ◌⊡◌
presign_run = refl

sign_run : run_sign {S = Gf7 × Gf7} three presigs (1 ∷ []) none ≡ ok (g1, g1)
unfolding Vss.eval_at accumulate add add_const any_misplaced be_bytes bind_key challenge
    check_committee_inputs check_dealer check_loop check_product check_reshares check_share
    check_shares collect_into column combine_at combine_points combine_products combine_verified
    commitments_bytes decimal defend defenses_to dot_loop eval eval_at eval_at_point finalize
    finalize_all finalize_loop finish_strict from_poly from_u64 generate_with_committee generator
    get gf7_action gf7_digest gf7_field gf7_group gf7_hash gf7_points gf7_rng gf7_x hash_commitment
    hash_commitments identity insert interpolate_at interpolate_at_zero interpolate_first invert
    joint_random ki_z_com ki_z_share lagrange_coeffs lagrange_coeffs_at masked multiply neg nonce_of
    nonce_phase nonce_points one_scalar open_at open_masked open_shares open_v point_bytes
    points_bytes presign_with_committee presignatures product_shares prove random random_list
    random_poly reshare_all reshare_product resolve_complaint reveal reveal_all revealed scale
    settle_share sha256 share_for shares_to start_all start_committee start_with_secret sum
    tamper_open tamper_proof tamper_share tampered triple_records verify verify_share zero_scalar
    ◌=?◌ ◌=ₚ◌ ◌⊕◌ ◌⊗◌ ◌⊞◌ ◌⊡◌ run_sign message_scalar tamper_signing normalized to_signature
    sign_share combine gf7_signatures
sign_run = refl

sign_ki_run :
    run_sign_ki {S = Gf7 × Gf7} three (key 1 g0 ∷ keys) kis (1 ∷ []) rngs none
    ≡ ok ((g3, g2), g0 ∷ g1 ∷ g1 ∷ [])
unfolding Vss.eval_at accumulate add add_const any_misplaced be_bytes bind_key challenge
    check_committee_inputs check_dealer check_loop check_product check_reshares check_share
    check_shares collect_into column combine_at combine_points combine_products combine_verified
    commitments_bytes decimal defend defenses_to dot_loop eval eval_at eval_at_point finalize
    finalize_all finalize_loop finish_strict from_poly from_u64 generate_with_committee generator
    get gf7_action gf7_digest gf7_field gf7_group gf7_hash gf7_points gf7_rng gf7_x hash_commitment
    hash_commitments identity insert interpolate_at interpolate_at_zero interpolate_first invert
    joint_random ki_z_com ki_z_share lagrange_coeffs lagrange_coeffs_at masked multiply neg nonce_of
    nonce_phase nonce_points one_scalar open_at open_masked open_shares open_v point_bytes
    points_bytes presign_with_committee presignatures product_shares prove random random_list
    random_poly reshare_all reshare_product resolve_complaint reveal reveal_all revealed scale
    settle_share sha256 share_for shares_to start_all start_committee start_with_secret sum
    tamper_open tamper_proof tamper_share tampered triple_records verify verify_share zero_scalar
    ◌=?◌ ◌=ₚ◌ ◌⊕◌ ◌⊗◌ ◌⊞◌ ◌⊡◌ run_sign_ki same_indices ki_open_round ki_sign_round ki_sign_shares
    sign_share_ki combine_ki generate generate_with_tamper full new_committee parties
    any_equal_window message_scalar tamper_signing normalized to_signature gf7_signatures
sign_ki_run = refl

abbrev cheat : TripleTamper
cheat = record { bad_reshare = none; bad_product_proof = some 2; bad_product_proof_at = none }

abbrev spent : Restart Gf7 → List Gf7
spent s = s.cur_rngs

abbrev fresh : TriplePublic Gf7
fresh = record {
  ca = record { points = g6 ∷ g2 ∷ [] };
  cb = record { points = g5 ∷ g1 ∷ [] };
  cc = record { points = g2 ∷ g4 ∷ [] };
}

abbrev record_of : PartyId → Gf7 → Gf7 → Gf7 → TripleShare Gf7 × TriplePublic Gf7
record_of i a b c = (record { index = i; a = a; b = b; c = c }, fresh)

restart_run :
    run_triples_with_restart spent four (7 ∷ []) (g1 ∷ g2 ∷ g2 ∷ g3 ∷ []) (some cheat)
    ≡ some (ok (record_of 1 g1 g6 g6 ∷ record_of 2 g3 g0 g3 ∷ record_of 3 g5 g1 g0 ∷ [], 2 ∷ []))
unfolding Vss.eval_at accumulate add add_const any_misplaced be_bytes bind_key challenge
    check_committee_inputs check_dealer check_loop check_product check_reshares check_share
    check_shares collect_into column combine_at combine_points combine_products combine_verified
    commitments_bytes decimal defend defenses_to dot_loop eval eval_at eval_at_point finalize
    finalize_all finalize_loop finish_strict from_poly from_u64 generate_with_committee generator
    get gf7_action gf7_digest gf7_field gf7_group gf7_hash gf7_points gf7_rng gf7_x hash_commitment
    hash_commitments identity insert interpolate_at interpolate_at_zero interpolate_first invert
    joint_random ki_z_com ki_z_share lagrange_coeffs lagrange_coeffs_at masked multiply neg nonce_of
    nonce_phase nonce_points one_scalar open_at open_masked open_shares open_v point_bytes
    points_bytes presign_with_committee presignatures product_shares prove random random_list
    random_poly reshare_all reshare_product resolve_complaint reveal reveal_all revealed scale
    settle_share sha256 share_for shares_to start_all start_committee start_with_secret sum
    tamper_open tamper_proof tamper_share tampered triple_records verify verify_share zero_scalar
    ◌=?◌ ◌=ₚ◌ ◌⊕◌ ◌⊗◌ ◌⊞◌ ◌⊡◌ run_triples_with_restart attempt_triples restart_triples completed
    expel_blamed survivors_or_abort record_blame original_ids original_id at_positions
    survivor_positions poison_sid new_params full new_committee parties any_equal_window
    restart_committee generate_robust_with_committee multiply_robust combine_products_robust
    recover_reshares reconstruct recomputed recompute_one addressed
restart_run = refl

-- The x-coordinates of a point and its negation agree.
even : (p : Gf7) → gf7_x.x_scalar (p ⊡ neg (one_scalar {F = Gf7})) ≡ gf7_x.x_scalar p
unfolding gf7_x gf7_field gf7_group gf7_action neg one_scalar ◌⊡◌
even g0 = refl
even g1 = refl
even g2 = refl
even g3 = refl
even g4 = refl
even g5 = refl
even g6 = refl

three_parties : IsCommittee (1 ∷ 2 ∷ 3 ∷ []) 2
three_parties = record {
  strict = omega arith;
  positive = omega arith;
  threshold = omega arith;
  honest_majority = omega arith;
}

small_ids : All (λ p. p < order Gf7) (1 ∷ 2 ∷ 3 ∷ [])
unfolding order gf7_field
small_ids = omega arith

run_sign-Verifies_example :
    Verifies
      (eval_at_point (other 1 g6).cm (zero_scalar {F = Gf7}))
      (message_scalar (1 ∷ []))
      (gf7_signatures.scalars (g1, g1))
run_sign-Verifies_example =
    run_sign-Verifies committee (other 1 g6) others 5 rngs none presigs three (1 ∷ []) none (g1, g1)
      three_parties small_ids (omega arith) even presign_run refl sign_run

presign_ki_run : presign_ki_with_committee committee 5 rngs none ≡ ok (kis, g4 ∷ g5 ∷ g5 ∷ [])
unfolding Vss.eval_at accumulate add add_const any_misplaced be_bytes bind_key challenge
    check_committee_inputs check_dealer check_loop check_product check_reshares check_share
    check_shares collect_into column combine_at combine_points combine_products combine_verified
    commitments_bytes decimal defend defenses_to dot_loop eval eval_at eval_at_point finalize
    finalize_all finalize_loop finish_strict from_poly from_u64 generate_with_committee generator
    get gf7_action gf7_digest gf7_field gf7_group gf7_hash gf7_points gf7_rng gf7_x hash_commitment
    hash_commitments identity insert interpolate_at interpolate_at_zero interpolate_first invert
    joint_random ki_z_com ki_z_share lagrange_coeffs lagrange_coeffs_at masked multiply neg nonce_of
    nonce_phase nonce_points one_scalar open_at open_masked open_shares open_v point_bytes
    points_bytes presign_with_committee presignatures product_shares prove random random_list
    random_poly reshare_all reshare_product resolve_complaint reveal reveal_all revealed scale
    settle_share sha256 share_for shares_to start_all start_committee start_with_secret sum
    tamper_open tamper_proof tamper_share tampered triple_records verify verify_share zero_scalar
    ◌=?◌ ◌=ₚ◌ ◌⊕◌ ◌⊗◌ ◌⊞◌ ◌⊡◌ presign_ki_with_committee ki_presignatures
presign_ki_run = refl

run_sign_ki-Verifies_example :
    Verifies
      (eval_at_point (key 1 g0).cm (zero_scalar {F = Gf7}))
      (message_scalar (1 ∷ []))
      (gf7_signatures.scalars (g3, g2))
unfolding parties
run_sign_ki-Verifies_example =
    run_sign_ki-Verifies three (key 1 g0) keys kis (1 ∷ []) rngs none (g3, g2) three_parties
      small_ids
      (presign_ki_with_committee-IsKiPresigned committee 5 rngs none kis three_parties small_ids
        presign_ki_run)
      (omega arith) even sign_ki_run

abbrev store : PresigStore Gf7 Gf7
store = record { public_key = g3; records = (5, presig 1 g1) ∷ [] }

run_sign_stored-run_sign_stored_example :
    (run_sign_stored {S = Gf7 × Gf7} three
      (run_sign_stored {S = Gf7 × Gf7} three (store ∷ []) 5 (1 ∷ []) none).0
      5
      (2 ∷ [])
      none).1
    ≡ err (presig_store "unknown or consumed presignature id")
run_sign_stored-run_sign_stored_example =
    run_sign_stored-run_sign_stored three store [] 5 (1 ∷ []) (2 ∷ []) none none (omega arith)

run_triples_with_restart_terminates_example :
    (r : Result (List (TripleShare Gf7 × TriplePublic Gf7) × List PartyId))
    × (run_triples_with_restart spent four (7 ∷ []) (g1 ∷ g2 ∷ g2 ∷ g3 ∷ []) (some cheat) ≡ some r)
run_triples_with_restart_terminates_example =
    run_triples_with_restart_terminates spent four (7 ∷ []) (g1 ∷ g2 ∷ g2 ∷ g3 ∷ []) (some cheat)

run_triples_with_restart-IsTripleOf_example :
    IsTripleOf
      (parties four)
      2
      (record_of 1 g1 g6 g6)
      (record_of 2 g3 g0 g3 ∷ record_of 3 g5 g1 g0 ∷ [])
      (2 ∷ [])
run_triples_with_restart-IsTripleOf_example =
    run_triples_with_restart-IsTripleOf spent four (7 ∷ []) (g1 ∷ g2 ∷ g2 ∷ g3 ∷ []) (some cheat)
      (record_of 1 g1 g6 g6) (record_of 2 g3 g0 g3 ∷ record_of 3 g5 g1 g0 ∷ []) (2 ∷ []) few
      restart_run
  where
    few : 4 < order Gf7
    few = unfold order gf7_field in omega arith
