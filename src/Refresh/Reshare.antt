-- ===== src/Refresh/Reshare.antt =====
-- `reshare` of src/protocol/refresh.rs: the old committee deals its key shares to a new one, whose members
-- check and combine the deals. One process runs both. Indexing out of range and a failed `assert_eq!` are panics.
pub mod Sound
mod Tests
use ohm_ecdsa.Prelude.{
  ℕ, zero, suc, List, [], ◌∷◌, ◌++◌, Option, none, some, map, ◌==◌, if◌then◌else◌, length, filter,
}
use ohm_ecdsa.Core.{
  PartyId, Phase, Error, Detail, abort, text, Committee, Result, ok, err, panicked, expect, ensure,
  ◌>>=◌, ◌>>◌,
}
use ohm_ecdsa.Core.Map.{Map, get, collect_into}
use ohm_ecdsa.Core.Tags.{reshare_commit}
use ohm_ecdsa.Field.{Field, zero_scalar, one_scalar, ◌⊕◌, ◌⊗◌}
use ohm_ecdsa.Curve.{Group, Action, identity, ◌=ₚ◌}
use ohm_ecdsa.Encoding.{Bytes, same_bytes, Hash, PointEncoding}
use ohm_ecdsa.Rng.{Rng}
use ohm_ecdsa.Shamir.{ShamirPoly, random_poly, eval, lagrange_coeffs}
use ohm_ecdsa.Vss
use ohm_ecdsa.Vss.{FeldmanCommitment, from_poly, verify_share, add, scale, add_const}
use ohm_ecdsa.Dkg.{DkgBcast1, DkgBcast2, DkgP2P, DkgOutput, is_some_of, resolve_complaint}
use ohm_ecdsa.Dkg.Hashing.{hash_commitment}
use ohm_ecdsa.Dkg.Rounds.{shares_to}
use ohm_ecdsa.Triples.{first_of}
use ohm_ecdsa.Refresh.{check_inputs}

pub record ReshareTamper : Type 0 where
  pub bad_deal : Option (PartyId × PartyId)
  pub bad_commitment : Option PartyId

pub record ReshareDealer (F G : Type 0) : Type 0 where
  pub from : PartyId
  pub poly : ShamirPoly F
  pub cm : FeldmanCommitment G
  pub bad_deal : Option PartyId

-- What round 1 leaves.
pub record Dealt (F G R : Type 0) : Type 0 where
  pub commits : List (PartyId × DkgBcast1)
  pub dealers : List (ReshareDealer F G)
  pub rngs : List R

module _ {F G : Type 0} ⦃f : Field F⦄ where
  unfoldable pub dealer_share : ReshareDealer F G → PartyId → F
  dealer_share d to =
      let s = eval d.poly to in if is_some_of d.bad_deal to then s ⊕ one_scalar else s

  -- Round 2: `for &m in new.ids()` of every dealer.
  unfoldable pub sub_shares : List PartyId → List (ReshareDealer F G) → List (DkgP2P F)
  sub_shares ids [] = []
  sub_shares ids (d ∷ ds) =
      map (λ m. record { from = d.from; to = m; share = dealer_share d m }) ids ++ sub_shares ids ds

module _ {F G R : Type 0} ⦃f : Field F⦄ ⦃g : Group G⦄ ⦃c : Action F G⦄ ⦃h : Hash⦄
    ⦃pe : PointEncoding G⦄ ⦃rng : Rng F R⦄ where
  -- Round 1: `for (k, &j) in old.ids().iter().enumerate()`.
  unfoldable pub deal_old :
      ℕ
      → Bytes
      → Option ReshareTamper
      → List PartyId
      → List (DkgOutput F G)
      → List R
      → Result (Dealt F G R)
  deal_old t sid tamper [] ks rngs = ok (record { commits = []; dealers = []; rngs = rngs })
  deal_old t sid tamper (j ∷ js) (key ∷ ks) (r ∷ rngs) =
      let (poly, r') = random_poly key.share t r in
      let bad_commitment : Option PartyId = elim tamper [
        | none ↦ none
        | some p ↦ p.bad_commitment
      ] in
      let bad_deal : Option PartyId = elim tamper [
        | none ↦ none
        | some p ↦ elim p.bad_deal [ none ↦ none | some b ↦ if b.0 == j then some b.1 else none ]
      ] in
      (do
        cm ←
            if is_some_of bad_commitment j
            then expect (add_const (from_poly poly) (one_scalar {F = F}))
            else ok (from_poly poly)
        rest ← deal_old t sid tamper js ks rngs
        ok (record {
          commits =
              (j, record { from = j; hash = hash_commitment sid reshare_commit j cm })
              ∷ rest.commits;
          dealers = record { from = j; poly = poly; cm = cm; bad_deal = bad_deal } ∷ rest.dealers;
          rngs = r' ∷ rest.rngs;
        }))
  deal_old t sid tamper (j ∷ js) _ _ = panicked

-- `vec![ProjectivePoint::IDENTITY; new.t()]`
abbrev pub identities : {G : Type 0} ⦃g : Group G⦄ → ℕ → List G
identities zero = []
identities (suc n) = identity ∷ identities n

module _ {F G : Type 0} ⦃f : Field F⦄ ⦃g : Group G⦄ ⦃c : Action F G⦄ ⦃h : Hash⦄
    ⦃pe : PointEncoding G⦄ (t : ℕ) (sid : Bytes) (commits : Map DkgBcast1)
    (reveals : Map (DkgBcast2 G)) (x_com : FeldmanCommitment G) where
  -- The checks of a deal for the member m, and its share.
  unfoldable pub check_deal :
      PartyId → Map F → PartyId → ReshareDealer F G → Result (FeldmanCommitment G × F)
  check_deal m mine j d = do
    b1 ← expect (get j commits)
    b2 ← expect (get j reveals)
    let blame =
        λ (why : Detail). abort (record { phase = Phase.refresh; blamed = j ∷ []; detail = why })
    ensure (length b2.cm.points == t) (blame (text "malformed Feldman commitment vector"))
    ensure (same_bytes (hash_commitment sid reshare_commit j b2.cm) b1.hash)
        (blame (text "commit-reveal hash mismatch"))
    p ← expect (first_of b2.cm.points)
    ensure (p =ₚ Vss.eval_at F x_com j)
        (blame (text "re-sharing commitment does not bind to the dealer's old share"))
    s ← expect (get j mine)
    ensure (verify_share b2.cm m s) (resolve_complaint Phase.refresh b2.cm j m (dealer_share d m))
    ok (b2.cm, s)

  -- `for (pos, &j) in old.ids().iter().enumerate()`
  unfoldable pub combine_deals :
      PartyId
      → Map F
      → List PartyId
      → List F
      → List (ReshareDealer F G)
      → F
      → FeldmanCommitment G
      → Result (F × FeldmanCommitment G)
  combine_deals m mine [] ls ds share cm = ok (share, cm)
  combine_deals m mine (j ∷ js) (l ∷ ls) (d ∷ ds) share cm = do
    (deal, s) ← check_deal m mine j d
    combine_deals m mine js ls ds (share ⊕ l ⊗ s) (add cm (scale deal l))
  combine_deals m mine (j ∷ js) _ _ share cm = panicked

  -- Round 3: `for &m in new.ids()`.
  unfoldable pub new_members :
      List PartyId
      → List F
      → List (ReshareDealer F G)
      → List (DkgP2P F)
      → List PartyId
      → Result (List (DkgOutput F G))
  new_members old_ids lambdas dealers p2p [] = ok []
  new_members old_ids lambdas dealers p2p (m ∷ ms) = do
    (share, cm) ←
        combine_deals m (shares_to m p2p) old_ids lambdas dealers zero_scalar
          (record { points = identities t })
    p ← expect (first_of cm.points)
    q ← expect (first_of x_com.points)
    expect (if p =ₚ q then some tt else none)
    rest ← new_members old_ids lambdas dealers p2p ms
    ok (record { index = m; share = share; cm = cm } ∷ rest)

module _ {F G R : Type 0} ⦃f : Field F⦄ ⦃g : Group G⦄ ⦃c : Action F G⦄ ⦃h : Hash⦄
    ⦃pe : PointEncoding G⦄ ⦃rng : Rng F R⦄ where
  unfoldable pub reshare :
      Committee
      → Committee
      → List (DkgOutput F G)
      → Bytes
      → List R
      → Option ReshareTamper
      → Result (List (DkgOutput F G) × List R)
  reshare old new old_keys sid rngs_old tamper = do
    check_inputs old old_keys rngs_old
    key0 ← expect (first_of old_keys)
    dealt ← deal_old new.t sid tamper old.ids old_keys rngs_old
    let reveals =
        collect_into [] (map (λ d. (d.from, record { from = d.from; cm = d.cm })) dealt.dealers)
    lambdas ← expect (lagrange_coeffs old.ids)
    out ←
        new_members new.t sid (collect_into [] dealt.commits) reveals key0.cm old.ids lambdas
          dealt.dealers (sub_shares new.ids dealt.dealers) new.ids
    ok (out, dealt.rngs)
