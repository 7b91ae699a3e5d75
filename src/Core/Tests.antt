-- ===== src/Core/Tests.antt =====
-- Committees: the theorems at concrete id lists.
use ohm_ecdsa.Core.Tags.{decimal, digits}
use ohm_ecdsa.Prelude.{◌≡◌, refl, [], ◌∷◌, arith}
use ohm_ecdsa.Core.{Committee, ok, new_committee, any_equal_window}
use ohm_ecdsa.Core.Committees.{IsCommittee}

abbrev three : Committee
three = record { ids = 2 ∷ 5 ∷ 9 ∷ []; t = 2 }

sorts_three : new_committee (9 ∷ 2 ∷ 5 ∷ []) 2 ≡ ok three
unfolding new_committee any_equal_window
sorts_three = refl

three-IsCommittee : IsCommittee (2 ∷ 5 ∷ 9 ∷ []) 2
three-IsCommittee = record {
  strict = omega arith;
  positive = omega arith;
  threshold = omega arith;
  honest_majority = omega arith;
}

five_digits : decimal 12345 ≡ 49 ∷ 50 ∷ 51 ∷ 52 ∷ 53 ∷ []
unfolding decimal digits
five_digits = refl
