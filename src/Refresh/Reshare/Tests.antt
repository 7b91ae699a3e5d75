-- ===== src/Refresh/Reshare/Tests.antt =====
-- A resharing of a key over the field of seven elements, from the parties 1, 2, 3 to the parties 2, 4, 5.
use ohm_ecdsa.Vss.{add, add_const, eval_at_point, from_poly, scale, verify_share}
use ohm_ecdsa.Shamir.{eval, eval_at, lagrange_coeffs, lagrange_coeffs_at, random_poly}
use ohm_ecdsa.Rng.{random, random_list}
use ohm_ecdsa.Refresh.{check_inputs}
use ohm_ecdsa.Presign.Run.{any_misplaced}
use ohm_ecdsa.Field.{from_u64, invert, neg, one_scalar, zero_scalar, ◌⊕◌, ◌⊗◌}
use ohm_ecdsa.Encoding.{be_bytes, point_bytes, sha256}
use ohm_ecdsa.Dkg.Rounds.{shares_to}
use ohm_ecdsa.Dkg.Hashing.{commitments_bytes, hash_commitment, hash_commitments, points_bytes}
use ohm_ecdsa.Curve.{generator, identity, ◌=ₚ◌, ◌⊞◌, ◌⊡◌}
use ohm_ecdsa.Core.Map.{collect_into, get, insert}
use ohm_ecdsa.Vss
use ohm_ecdsa.Prelude.{◌≡◌, refl, List, [], ◌∷◌, none}
use ohm_ecdsa.Core.{PartyId, Committee, ok}
use ohm_ecdsa.Gf7.{Gf7, g0, g1, g2, g3, g4, g6, gf7_field, gf7_group, gf7_action}
use ohm_ecdsa.Gf7.Bytes.{gf7_hash, gf7_points, gf7_rng}
use ohm_ecdsa.Vss.Secret.{secret}
use ohm_ecdsa.Dkg.{DkgOutput, resolve_complaint}
use ohm_ecdsa.Dkg.Rounds.Sound.{IsSharing}
use ohm_ecdsa.Refresh.Reshare.{
  reshare, check_deal, combine_deals, deal_old, dealer_share, new_members, sub_shares,
}
use ohm_ecdsa.Refresh.Reshare.Sound.{reshare-IsSharing}

abbrev old : Committee
old = record { ids = 1 ∷ 2 ∷ 3 ∷ []; t = 2 }

abbrev new : Committee
new = record { ids = 2 ∷ 4 ∷ 5 ∷ []; t = 2 }

-- Shares of 4 + 3 X.
abbrev key : PartyId → Gf7 → DkgOutput Gf7 Gf7
key i s = record { index = i; share = s; cm = record { points = g4 ∷ g3 ∷ [] } }

abbrev old_keys : List (DkgOutput Gf7 Gf7)
old_keys = key 2 g3 ∷ key 3 g6 ∷ []

abbrev rngs : List Gf7
rngs = g1 ∷ g2 ∷ g2 ∷ []

-- Shares of 4 + 6 X.
abbrev new_key : PartyId → Gf7 → DkgOutput Gf7 Gf7
new_key i s = record { index = i; share = s; cm = record { points = g4 ∷ g6 ∷ [] } }

abbrev new_keys : List (DkgOutput Gf7 Gf7)
new_keys = new_key 4 g0 ∷ new_key 5 g6 ∷ []

reshare_run :
    reshare old new (key 1 g0 ∷ old_keys) (7 ∷ []) rngs none
    ≡ ok (new_key 2 g2 ∷ new_keys, g2 ∷ g3 ∷ g3 ∷ [])
unfolding Vss.eval_at add add_const any_misplaced be_bytes check_deal check_inputs collect_into
    combine_deals commitments_bytes deal_old dealer_share eval eval_at eval_at_point from_poly
    from_u64 generator get gf7_action gf7_field gf7_group gf7_hash gf7_points gf7_rng
    hash_commitment hash_commitments identity insert invert lagrange_coeffs lagrange_coeffs_at neg
    new_members one_scalar point_bytes points_bytes random random_list random_poly reshare
    resolve_complaint scale sha256 shares_to sub_shares verify_share zero_scalar ◌=ₚ◌ ◌⊕◌ ◌⊗◌ ◌⊞◌
    ◌⊡◌
reshare_run = refl

reshare-IsSharing_example :
    IsSharing 2 (2 ∷ 4 ∷ 5 ∷ []) (new_key 2 g2).cm (new_key 2 g2 ∷ new_keys)
    × (secret Gf7 (new_key 2 g2).cm ≡ secret Gf7 (key 1 g0).cm)
reshare-IsSharing_example =
    reshare-IsSharing old new (key 1 g0) old_keys (7 ∷ []) rngs none (new_key 2 g2) new_keys
      reshare_run
