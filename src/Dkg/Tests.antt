-- ===== src/Dkg/Tests.antt =====
-- A distributed key generation of three parties with threshold 2 over the field of seven elements: the
-- theorems at concrete runs.
use ohm_ecdsa.Prelude.{◌==◌, if◌then◌else◌, ◌≡◌, refl, [], ◌∷◌, some, true, All, arith}
use ohm_ecdsa.Core.{PartyId, Phase, Committee, ok, err, abort, Error, defense_fails}
use ohm_ecdsa.Core.Map.{Map, get}
use ohm_ecdsa.Gf7.{Gf7, g0, g1, g2, g3, g4, g5, g6, gf7_field, gf7_group, gf7_action}
use ohm_ecdsa.Gf7.Bytes.{gf7_hash, gf7_points, gf7_rng}
use ohm_ecdsa.Field.{zero_scalar, one_scalar, ◌⊕◌, ◌⊗◌, from_u64, order}
use ohm_ecdsa.Curve.{generator, identity, ◌⊡◌, ◌⊞◌, ◌=ₚ◌}
use ohm_ecdsa.Encoding.{Bytes, sha256, point_bytes, be_bytes}
use ohm_ecdsa.Rng.{random, random_list}
use ohm_ecdsa.Shamir.{random_poly, eval, eval_at, interpolate_at_zero}
use ohm_ecdsa.Vss.{FeldmanCommitment, from_poly, verify_share, eval_at_point, sum, add}
use ohm_ecdsa.Dkg.{
  DkgBcast1, DkgBcast2, DkgInstance, DkgOutput, Inbox, start_with_secret, share_for,
  resolve_complaint, finalize_loop, check_dealer, finalize,
}
use ohm_ecdsa.Dkg.Hashing.{hash_commitment}
use ohm_ecdsa.Dkg.Finalize.{IsBound, revealed_of, finalize_sound}
use ohm_ecdsa.Dkg.Joint.{Run, IsRunOf, finalize_agreement, joint_secret}
use ohm_ecdsa.Dkg.Blame.{Explains, finalize_blame}
use ohm_ecdsa.Dkg.Honest.{total, finalize_honest}
use ohm_ecdsa.Vss.Laws.{log_poly}
use ohm_ecdsa.Shamir.Lagrange.{IsQuorum}

abbrev committee : Committee
committee = record { ids = 1 ∷ 2 ∷ 3 ∷ []; t = 2 }

abbrev sid : Bytes
sid = 7 ∷ []

abbrev tag : Bytes
tag = 100 ∷ 107 ∷ 103 ∷ []

-- The dealers deal 1 + 2 X, 2 + 2 X and 3 + 2 X.
abbrev dealer : PartyId → Gf7 → DkgInstance Gf7 Gf7
unfolding start_with_secret random_poly random_list random from_poly gf7_field gf7_group gf7_action
    gf7_rng generator ◌⊡◌
dealer i secret = (start_with_secret {R = Gf7} committee sid tag i secret g2).0

abbrev hash_of : DkgInstance Gf7 Gf7 → Bytes
unfolding hash_commitment sha256 point_bytes be_bytes gf7_hash gf7_points
hash_of d = hash_commitment d.sid d.tag d.me d.cm

abbrev d1 : DkgInstance Gf7 Gf7
d1 = dealer 1 g1

abbrev d2 : DkgInstance Gf7 Gf7
d2 = dealer 2 g2

abbrev d3 : DkgInstance Gf7 Gf7
d3 = dealer 3 g3

abbrev round1 : Map DkgBcast1
round1 =
    (1, record { from = 1; hash = hash_of d1 })
    ∷ (2, record { from = 2; hash = hash_of d2 })
    ∷ (3, record { from = 3; hash = hash_of d3 })
    ∷ []

abbrev round2 : Map (DkgBcast2 Gf7)
round2 =
    (1, record { from = 1; cm = d1.cm })
    ∷ (2, record { from = 2; cm = d2.cm })
    ∷ (3, record { from = 3; cm = d3.cm })
    ∷ []

abbrev received : PartyId → Map Gf7
unfolding share_for eval eval_at gf7_field zero_scalar one_scalar ◌⊕◌ ◌⊗◌ from_u64
received j = (1, share_for d1 j) ∷ (2, share_for d2 j) ∷ (3, share_for d3 j) ∷ []

-- What party j holds when it finalizes.
abbrev inbox : PartyId → Inbox Gf7 Gf7
inbox j = record { r1 = round1; r2 = round2; shares = received j; defenses = received j }

abbrev output : PartyId → Gf7 → DkgOutput Gf7 Gf7
output j s = record { index = j; share = s; cm = record { points = g6 ∷ g6 ∷ [] } }

one_finalizes : finalize d1 Phase.key_gen (inbox 1) ≡ ok (output 1 g5)
unfolding finalize finalize_loop check_dealer get dealer received hash_commitment sha256 point_bytes
    be_bytes gf7_hash gf7_points verify_share eval_at_point sum add gf7_field gf7_group gf7_action
    zero_scalar one_scalar ◌⊕◌ ◌⊗◌ from_u64 generator identity ◌⊡◌ ◌⊞◌ ◌=ₚ◌
one_finalizes = refl

two_finalizes : finalize d2 Phase.key_gen (inbox 2) ≡ ok (output 2 g4)
unfolding finalize finalize_loop check_dealer get dealer received hash_commitment sha256 point_bytes
    be_bytes gf7_hash gf7_points verify_share eval_at_point sum add gf7_field gf7_group gf7_action
    zero_scalar one_scalar ◌⊕◌ ◌⊗◌ from_u64 generator identity ◌⊡◌ ◌⊞◌ ◌=ₚ◌
two_finalizes = refl

-- Dealer 2 sends party 1 a wrong share, and defends it with a wrong share.
abbrev bad_inbox : Inbox Gf7 Gf7
bad_inbox = record {
  r1 = round1;
  r2 = round2;
  shares = (1, g3) ∷ (2, g0) ∷ (3, g5) ∷ [];
  defenses = (1, g3) ∷ (2, g0) ∷ (3, g5) ∷ [];
}

abbrev blame_of_two : Error
blame_of_two = abort (record { phase = Phase.key_gen; blamed = 2 ∷ []; detail = defense_fails 2 })

dealer_two_blamed : finalize d1 Phase.key_gen bad_inbox ≡ err blame_of_two
unfolding finalize finalize_loop resolve_complaint check_dealer get dealer received hash_commitment
    sha256 point_bytes be_bytes gf7_hash gf7_points verify_share eval_at_point sum add gf7_field
    gf7_group gf7_action zero_scalar one_scalar ◌⊕◌ ◌⊗◌ from_u64 generator identity ◌⊡◌ ◌⊞◌ ◌=ₚ◌
dealer_two_blamed = refl

abbrev run1 : Run Gf7 Gf7
run1 = record { inst = d1; box = inbox 1; out = output 1 g5 }

abbrev run2 : Run Gf7 Gf7
run2 = record { inst = d2; box = inbox 2; out = output 2 g4 }

run1-IsRunOf : IsRunOf Phase.key_gen committee round2 run1
unfolding dealer
run1-IsRunOf = record { finalized = one_finalizes; over = refl; reveals = refl }

run2-IsRunOf : IsRunOf Phase.key_gen committee round2 run2
unfolding dealer
run2-IsRunOf = record { finalized = two_finalizes; over = refl; reveals = refl }

finalize_sound_example :
    (output 1 g5).index ≡ d1.me
    × (verify_share (output 1 g5).cm d1.me (output 1 g5).share ≡ true)
    × (sum (revealed_of round2 d1.committee.ids) ≡ some (output 1 g5).cm)
    × All
        (λ i. (cm : FeldmanCommitment Gf7) × IsBound d1 Phase.key_gen (inbox 1) i cm)
        d1.committee.ids
finalize_sound_example = finalize_sound d1 Phase.key_gen (inbox 1) one_finalizes

finalize_agreement_example : run1.out.cm ≡ run2.out.cm
finalize_agreement_example = finalize_agreement run1 run2 run1-IsRunOf run2-IsRunOf

joint_secret_example :
    (interpolate_at_zero (1 ∷ 2 ∷ []) (g5 ∷ g4 ∷ [])
      ≡ some (eval_at (log_poly Gf7 (output 1 g5).cm) zero_scalar))
    × (generator {G = Gf7} ⊡ eval_at (log_poly Gf7 (output 1 g5).cm) zero_scalar
        ≡ eval_at_point (output 1 g5).cm (zero_scalar {F = Gf7}))
joint_secret_example =
    joint_secret run1 (run1 ∷ run2 ∷ []) run1-IsRunOf (run1-IsRunOf, (run2-IsRunOf, tt)) small_ids
      (omega arith)
  where
    small_ids : IsQuorum Gf7 (1 ∷ 2 ∷ [])
    small_ids = unfold order gf7_field in omega arith

finalize_blame_example : Explains d1 Phase.key_gen bad_inbox blame_of_two
unfolding dealer
finalize_blame_example = finalize_blame d1 Phase.key_gen bad_inbox refl dealer_two_blamed

abbrev secrets : PartyId → Gf7
secrets i = if i == 1 then g1 else if i == 2 then g2 else g3

finalize_honest_example :
    (d : FeldmanCommitment Gf7) × (sum (d1.cm ∷ d2.cm ∷ d3.cm ∷ []) ≡ some d)
    × (finalize d1 Phase.key_gen (inbox 1)
        ≡ ok (record { index = 1; share = total (g3 ∷ g4 ∷ g5 ∷ []); cm = d }))
unfolding start_with_secret random_poly random_list random from_poly gf7_field gf7_group gf7_action
    gf7_rng generator ◌⊡◌ get dealer received share_for eval eval_at hash_commitment sha256
    point_bytes be_bytes gf7_hash gf7_points zero_scalar one_scalar ◌⊕◌ ◌⊗◌ from_u64
finalize_honest_example =
    finalize_honest committee sid tag secrets (λ i. g2) Phase.key_gen (inbox 1) 1 (λ e. cc)
      (omega arith) refl ((refl, refl, refl), ((refl, refl, refl), ((refl, refl, refl), tt)))
