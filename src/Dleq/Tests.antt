-- ===== src/Dleq/Tests.antt =====
-- A proof over the field of seven elements, with the challenge 3.
use ohm_ecdsa.Prelude.{◌≡◌, [], ◌∷◌, true}
use ohm_ecdsa.Gf7.{g2, g3, g5, gf7_field, gf7_group, gf7_action}
use ohm_ecdsa.Gf7.Bytes.{gf7_hash, gf7_points, gf7_rng, gf7_digest}
use ohm_ecdsa.Dleq.{prove, verify, verify-prove}

verify-prove_example :
    verify
      (1 ∷ [])
      (2 ∷ [])
      g2
      (prove (1 ∷ []) (2 ∷ []) g5 g2 g3 g2).0.0
      g3
      (prove (1 ∷ []) (2 ∷ []) g5 g2 g3 g2).0.1
      (prove (1 ∷ []) (2 ∷ []) g5 g2 g3 g2).0.2
    ≡ true
verify-prove_example = verify-prove (1 ∷ []) (2 ∷ []) g5 g2 g3 g2
