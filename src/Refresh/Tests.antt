-- ===== src/Refresh/Tests.antt =====
-- A refresh of a key of three parties over the field of seven elements.
use ohm_ecdsa.Shamir.{eval, eval_at, random_poly}
use ohm_ecdsa.Rng.{random, random_list}
use ohm_ecdsa.Presign.Run.{any_misplaced}
use ohm_ecdsa.Field.{from_u64, one_scalar, zero_scalar, ◌⊕◌}
use ohm_ecdsa.Encoding.{be_bytes, point_bytes, sha256}
use ohm_ecdsa.Dkg.Rounds.{defenses_to, finalize_all, reveal_all, shares_to}
use ohm_ecdsa.Dkg.Hashing.{commitments_bytes, hash_commitment, hash_commitments, points_bytes}
use ohm_ecdsa.Curve.{generator, identity, ◌=ₚ◌, ◌⊞◌, ◌⊡◌}
use ohm_ecdsa.Core.Map.{collect_into, get, insert}
use ohm_ecdsa.Prelude.{◌≡◌, refl, List, [], ◌∷◌, none, arith}
use ohm_ecdsa.Core.{PartyId, Committee, ok}
use ohm_ecdsa.Gf7.{Gf7, g0, g1, g2, g3, g4, g5, g6, gf7_field, gf7_group, gf7_action}
use ohm_ecdsa.Gf7.Bytes.{gf7_hash, gf7_points, gf7_rng}
use ohm_ecdsa.Vss.{add, add_const, eval_at_point, from_poly, sum, verify_share}
use ohm_ecdsa.Vss.Secret.{secret}
use ohm_ecdsa.Dkg.{
  DkgOutput, check_dealer, check_share, defend, finalize, finalize_loop, resolve_complaint, reveal,
  revealed, settle_share, share_for, start_with_secret,
}
use ohm_ecdsa.Dkg.Rounds.Sound.{IsSharing}
use ohm_ecdsa.Refresh.{
  refresh, add_zeros, check_inputs, check_zeros, corrupt, deal_all, deal_fixed_secrets,
  tamper_dealer,
}
use ohm_ecdsa.Refresh.Sound.{refresh-IsSharing}

abbrev committee : Committee
committee = record { ids = 1 ∷ 2 ∷ 3 ∷ []; t = 2 }

-- Shares of 4 + 3 X.
abbrev key : PartyId → Gf7 → DkgOutput Gf7 Gf7
key i s = record { index = i; share = s; cm = record { points = g4 ∷ g3 ∷ [] } }

-- Shares of 4 + X.
abbrev new_key : PartyId → Gf7 → DkgOutput Gf7 Gf7
new_key i s = record { index = i; share = s; cm = record { points = g4 ∷ g1 ∷ [] } }

abbrev old_keys : List (DkgOutput Gf7 Gf7)
old_keys = key 2 g3 ∷ key 3 g6 ∷ []

abbrev new_keys : List (DkgOutput Gf7 Gf7)
new_keys = new_key 2 g6 ∷ new_key 3 g0 ∷ []

abbrev rngs : List Gf7
rngs = g1 ∷ g2 ∷ g2 ∷ []

refresh_run :
    refresh committee (key 1 g0 ∷ old_keys) (7 ∷ []) rngs none
    ≡ ok (new_key 1 g5 ∷ new_keys, g2 ∷ g3 ∷ g3 ∷ [])
unfolding add add_const add_zeros any_misplaced be_bytes check_dealer check_inputs check_share
    check_zeros collect_into commitments_bytes corrupt deal_all deal_fixed_secrets defend
    defenses_to eval eval_at eval_at_point finalize finalize_all finalize_loop from_poly from_u64
    generator get gf7_action gf7_field gf7_group gf7_hash gf7_points gf7_rng hash_commitment
    hash_commitments identity insert one_scalar point_bytes points_bytes random random_list
    random_poly refresh resolve_complaint reveal reveal_all revealed settle_share sha256 share_for
    shares_to start_with_secret sum tamper_dealer verify_share zero_scalar ◌=ₚ◌ ◌⊕◌ ◌⊞◌ ◌⊡◌
refresh_run = refl

old_keys-IsSharing : IsSharing 2 (1 ∷ 2 ∷ 3 ∷ []) (key 1 g0).cm (key 1 g0 ∷ old_keys)
unfolding eval_at_point from_u64 generator gf7_action gf7_field gf7_group identity verify_share ◌=ₚ◌
    ◌⊞◌ ◌⊡◌
old_keys-IsSharing = record {
  indices = refl;
  held = ((refl, refl), ((refl, refl), ((refl, refl), tt)));
  degree = omega arith;
}

refresh-IsSharing_example :
    IsSharing 2 (1 ∷ 2 ∷ 3 ∷ []) (new_key 1 g5).cm (new_key 1 g5 ∷ new_keys)
    × (secret Gf7 (new_key 1 g5).cm ≡ secret Gf7 (key 1 g0).cm)
refresh-IsSharing_example =
    refresh-IsSharing committee (key 1 g0) old_keys (7 ∷ []) rngs none (new_key 1 g5) new_keys
      old_keys-IsSharing refresh_run
