-- ===== src/Open.antt =====
-- src/primitives/open.rs: opening a committed sharing from broadcast shares, strictly (any bad share
-- aborts and blames its sender) and robustly (bad shares are left out).
pub mod Check
pub mod Laws
mod Tests
use ohm_ecdsa.Prelude.{ℕ, List, [], ◌∷◌, ◌++◌, Bool, ltb, if◌then◌else◌, length, take}
use ohm_ecdsa.Core.{
  PartyId, Phase, Detail, Error, text, abort, not_enough_shares, Result, ok, err, expect, ◌>>=◌,
}
use ohm_ecdsa.Core.Map.{Map}
use ohm_ecdsa.Field.{Field, zero_scalar, ◌=?◌}
use ohm_ecdsa.Curve.{Group, Action}
use ohm_ecdsa.Shamir.{interpolate_at, interpolate_at_zero}
use ohm_ecdsa.Vss.{FeldmanCommitment, verify_share}

-- The three vectors that the loop fills.
pub record Checked (F : Type 0) : Type 0 where
  pub valid_parties : List PartyId
  pub valid_shares : List F
  pub blamed : List PartyId

module _ {F G : Type 0} ⦃f : Field F⦄ ⦃g : Group G⦄ ⦃c : Action F G⦄ where
  -- The loop over the shares, in their order.
  unfoldable pub check_loop : FeldmanCommitment G → List (PartyId × F) → Checked F → Checked F
  check_loop cm [] v = v
  check_loop cm ((j, s) ∷ rest) v =
      let valid = verify_share cm j s in
      check_loop cm rest (record {
        valid_parties = if valid then v.valid_parties ++ (j ∷ []) else v.valid_parties;
        valid_shares = if valid then v.valid_shares ++ (s ∷ []) else v.valid_shares;
        blamed = if valid then v.blamed else v.blamed ++ (j ∷ []);
      })

  unfoldable pub check_shares : FeldmanCommitment G → List (PartyId × F) → Checked F
  unfolding check_loop
  check_shares cm shares =
      check_loop cm shares (record { valid_parties = []; valid_shares = []; blamed = [] })

-- `if !blamed.is_empty() { return Err(Error::Abort …) }`
abbrev pub raise_blame {ℓ} : {A : Type ℓ} → List PartyId → Phase → Detail → Result A → Result A
raise_blame [] phase detail rest = rest
raise_blame (b ∷ bs) phase detail rest =
    err (abort (record { phase = phase; blamed = b ∷ bs; detail = detail }))

module _ {F : Type 0} ⦃f : Field F⦄ where
  -- The interpolation point 0 has a call of its own.
  unfoldable pub interpolate_first : F → ℕ → Checked F → Result F
  interpolate_first point t v =
      if point =? zero_scalar
      then expect (interpolate_at_zero (take t v.valid_parties) (take t v.valid_shares))
      else expect (interpolate_at point (take t v.valid_parties) (take t v.valid_shares))

  -- What follows the loop when any blame aborts.
  unfoldable pub finish_strict : F → ℕ → Phase → Detail → Checked F → Result F
  unfolding interpolate_first
  finish_strict point t phase detail v = raise_blame v.blamed phase detail (
      if ltb (length v.valid_parties) t
      then err (not_enough_shares (length v.valid_parties) t)
      else interpolate_first point t v)

  -- What follows the loop when bad shares are left out; the caller gets the blame too.
  unfoldable pub finish_robust : ℕ → Checked F → Result (F × List PartyId)
  finish_robust t v =
      if ltb (length v.valid_parties) t
      then err (not_enough_shares (length v.valid_parties) t)
      else (do
        s ← expect (interpolate_at_zero (take t v.valid_parties) (take t v.valid_shares))
        ok (s, v.blamed))

module _ {F G : Type 0} ⦃f : Field F⦄ ⦃g : Group G⦄ ⦃c : Action F G⦄ where
  unfoldable pub open_at : F → ℕ → FeldmanCommitment G → Map F → Phase → Result F
  unfolding finish_strict check_shares
  open_at point t cm shares phase =
      finish_strict point t phase (text "share failed commitment check during opening")
        (check_shares cm shares)

  unfoldable pub open_shares : ℕ → FeldmanCommitment G → Map F → Phase → Result F
  unfolding open_at
  open_shares t cm shares phase = open_at zero_scalar t cm shares phase

  unfoldable pub open_robust : ℕ → FeldmanCommitment G → Map F → Phase → Result (F × List PartyId)
  unfolding finish_robust check_shares
  open_robust t cm shares phase = finish_robust t (check_shares cm shares)
