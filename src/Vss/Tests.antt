-- ===== src/Vss/Tests.antt =====
-- Feldman commitments over the field of seven elements: the theorems at concrete inputs.
use ohm_ecdsa.Prelude.{◌≡◌, refl, [], ◌∷◌, some}
use ohm_ecdsa.Gf7.{Gf7, g0, g1, g2, g3, g4, g5, g6, gf7_field, gf7_group, gf7_action}
use ohm_ecdsa.Curve.{◌⊞◌}
use ohm_ecdsa.Vss.{FeldmanCommitment, add, sum}

abbrev cm_line : FeldmanCommitment Gf7
cm_line = record { points = g3 ∷ g2 ∷ [] }

abbrev cm_parabola : FeldmanCommitment Gf7
cm_parabola = record { points = g1 ∷ g5 ∷ g6 ∷ [] }

two_summed : sum (cm_line ∷ cm_parabola ∷ []) ≡ some (record { points = g4 ∷ g0 ∷ g6 ∷ [] })
unfolding sum add gf7_group ◌⊞◌
two_summed = refl
