-- ===== src/Policy.antt =====
-- src/runtime/policy.rs: the committee that restarts an instance after blame.
pub mod Survivors
mod Tests
use ohm_ecdsa.Prelude.{
  ℕ, ◌-◌, ◌*◌, List, [], ◌∷◌, Bool, true, false, not, ltb, ◌==◌, if◌then◌else◌, length, filter,
}
use ohm_ecdsa.Core.{PartyId, Result, ok, err, invalid_params, sort_unstable}

-- `blamed.contains(p)`
abbrev pub contains_id : List PartyId → PartyId → Bool
contains_id [] p = false
contains_id (q ∷ qs) p = if q == p then true else contains_id qs p

unfoldable pub restart_committee : List PartyId → List PartyId → ℕ → Result (List PartyId)
restart_committee current blamed t =
    if ltb t 1
    then err (invalid_params "threshold must be >= 1")
    else (let survivors = sort_unstable (filter (λ p. not (contains_id blamed p)) current) in
        if ltb (length survivors) (2 * t - 1)
        then err (
            invalid_params
              "expulsion leaves n' < 2t-1: committee re-sharing required (SPEC 13.4, see refresh::reshare)")
        else ok survivors)
