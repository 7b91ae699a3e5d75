-- ===== src/Shamir/Tests.antt =====
-- Runs of `shamir.rs` over the field of seven elements, and its theorems at concrete inputs.
use ohm_ecdsa.Prelude.{◌≡◌, refl, [], ◌∷◌, some, none, map, arith}
use ohm_ecdsa.Gf7.{Gf7, g0, g2, g3, g5, gf7_field}
use ohm_ecdsa.Field.{zero_scalar, one_scalar, ◌⊕◌, ◌⊗◌, neg, invert, from_u64, order}
use ohm_ecdsa.Shamir.{ShamirPoly, eval, eval_at, interpolate_at}
use ohm_ecdsa.Shamir.Lagrange.{IsQuorum}
use ohm_ecdsa.Shamir.Interpolate.{interpolate_at-eval}

-- 3 + 2 X
abbrev line : ShamirPoly Gf7
line = record { coeffs = g3 ∷ g2 ∷ [] }

shares_of_line : map (eval line) (1 ∷ 3 ∷ []) ≡ g5 ∷ g2 ∷ []
unfolding eval eval_at gf7_field zero_scalar ◌⊕◌ ◌⊗◌ from_u64
shares_of_line = refl

secret_of_line : interpolate_at g0 (1 ∷ 3 ∷ []) (g5 ∷ g2 ∷ []) ≡ some g3
unfolding interpolate_at gf7_field zero_scalar one_scalar ◌⊕◌ ◌⊗◌ neg invert from_u64
secret_of_line = refl

-- A party that stands twice has no coefficient.
same_party_twice : interpolate_at g0 (1 ∷ 1 ∷ []) (g5 ∷ g5 ∷ []) ≡ none
unfolding interpolate_at gf7_field zero_scalar one_scalar ◌⊕◌ ◌⊗◌ neg invert from_u64
same_party_twice = refl

two_parties : IsQuorum Gf7 (1 ∷ 3 ∷ [])
unfolding order gf7_field
two_parties = omega arith

interpolate_at-eval_example :
    interpolate_at g2 (1 ∷ 3 ∷ []) (map (eval line) (1 ∷ 3 ∷ [])) ≡ some (eval_at line g2)
interpolate_at-eval_example = interpolate_at-eval g2 line (1 ∷ 3 ∷ []) two_parties (omega arith)
