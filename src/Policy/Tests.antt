-- ===== src/Policy/Tests.antt =====
-- Restarts after blame: the theorems at a committee of six with threshold 3.
use ohm_ecdsa.Prelude.{◌≡◌, refl, List, [], ◌∷◌, arith}
use ohm_ecdsa.Core.{PartyId, ok, new_committee}
use ohm_ecdsa.Core.Committees.{IsCommittee}
use ohm_ecdsa.Policy.{restart_committee}
use ohm_ecdsa.Policy.Survivors.{restart_committee-new_committee}

abbrev six : List PartyId
six = 1 ∷ 2 ∷ 3 ∷ 4 ∷ 5 ∷ 6 ∷ []

abbrev five : List PartyId
five = 1 ∷ 3 ∷ 4 ∷ 5 ∷ 6 ∷ []

expels_two : restart_committee six (2 ∷ []) 3 ≡ ok five
unfolding restart_committee
expels_two = refl

six-IsCommittee : IsCommittee six 3
six-IsCommittee = record {
  strict = omega arith;
  positive = omega arith;
  threshold = omega arith;
  honest_majority = omega arith;
}

restart_committee-new_committee_example : new_committee five 3 ≡ ok (record { ids = five; t = 3 })
restart_committee-new_committee_example =
    restart_committee-new_committee six (2 ∷ []) 3 six-IsCommittee expels_two
