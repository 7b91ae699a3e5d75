-- ===== src/Dkg.antt =====
-- src/protocol/dkg.rs: the commit-reveal DKG of one polynomial per dealer, and the complaint that
-- decides whom a bad share is blamed on. `com` is a reserved word here: a commitment is `cm`.
pub mod Hashing
pub mod Finalize
pub mod Joint
pub mod Blame
pub mod Honest
pub mod Rounds
mod Tests
use ohm_ecdsa.Prelude.{
  ℕ, List, [], ◌∷◌, ◌++◌, Option, none, some, Bool, true, false, ◌==◌, if◌then◌else◌, length, map,
}
use ohm_ecdsa.Core.{
  PartyId, Phase, Detail, Error, text, false_accusation, defense_fails, abort, invalid_params,
  Result, ok, err, panicked, expect, ensure, ◌>>=◌, ◌>>◌, Committee, Params, full,
}
use ohm_ecdsa.Core.Map.{Map, get}
use ohm_ecdsa.Field.{Field, zero_scalar, one_scalar, ◌⊕◌}
use ohm_ecdsa.Curve.{Group, Action}
use ohm_ecdsa.Encoding.{Bytes, same_bytes, Hash, PointEncoding}
use ohm_ecdsa.Rng.{Rng, random}
use ohm_ecdsa.Shamir.{ShamirPoly, random_poly, eval}
use ohm_ecdsa.Vss.{FeldmanCommitment, from_poly, verify_share, add_const, sum}
use Hashing.{hash_commitment}

pub record DkgBcast1 : Type 0 where
  pub from : PartyId
  pub hash : Bytes

pub record DkgBcast2 (G : Type 0) : Type 0 where
  pub from : PartyId
  pub cm : FeldmanCommitment G

pub record DkgP2P (F : Type 0) : Type 0 where
  pub from : PartyId
  pub to : PartyId
  pub share : F

pub record DkgInstance (F G : Type 0) : Type 0 where
  pub committee : Committee
  pub sid : Bytes
  pub tag : Bytes
  pub me : PartyId
  pub poly : ShamirPoly F
  pub cm : FeldmanCommitment G
  pub bad_deal : Option PartyId
  pub bad_reveal : Bool

pub record DkgOutput (F G : Type 0) : Type 0 where
  pub index : PartyId
  pub share : F
  pub cm : FeldmanCommitment G

-- `self.bad_deal == Some(to)`
abbrev pub is_some_of : Option PartyId → PartyId → Bool
is_some_of none p = false
is_some_of (some q) p = q == p

module _ {F G R : Type 0} ⦃f : Field F⦄ ⦃g : Group G⦄ ⦃c : Action F G⦄ ⦃h : Hash⦄
    ⦃pe : PointEncoding G⦄ ⦃rng : Rng F R⦄ where
  unfoldable pub start_with_secret :
      Committee → Bytes → Bytes → PartyId → F → R → DkgInstance F G × DkgBcast1 × R
  start_with_secret committee sid tag me secret r =
      let (poly, r') = random_poly secret committee.t r in
      let cm : FeldmanCommitment G = from_poly poly in
      (
        record {
          committee = committee;
          sid = sid;
          tag = tag;
          me = me;
          poly = poly;
          cm = cm;
          bad_deal = none;
          bad_reveal = false;
        },
        record { from = me; hash = hash_commitment sid tag me cm },
        r',
      )

  unfoldable pub start_committee :
      Committee → Bytes → Bytes → PartyId → R → DkgInstance F G × DkgBcast1 × R
  start_committee committee sid tag me r =
      let (secret, r') = random r in start_with_secret committee sid tag me secret r'

  unfoldable pub start :
      Params → Bytes → Bytes → PartyId → R → Result (DkgInstance F G × DkgBcast1 × R)
  start params sid tag me r = do
    committee ← full params
    ok (start_committee committee sid tag me r)

module _ {F G : Type 0} ⦃f : Field F⦄ where
  unfoldable pub share_for : DkgInstance F G → PartyId → F
  share_for inst to =
      let s = eval inst.poly to in if is_some_of inst.bad_deal to then s ⊕ one_scalar else s

  unfoldable pub defend : DkgInstance F G → PartyId → F
  unfolding share_for
  defend inst to = share_for inst to

module _ {F G : Type 0} ⦃f : Field F⦄ ⦃g : Group G⦄ ⦃c : Action F G⦄ where
  unfoldable pub revealed : DkgInstance F G → Result (FeldmanCommitment G)
  revealed inst =
      if inst.bad_reveal then expect (add_const inst.cm (one_scalar {F = F})) else ok inst.cm

  unfoldable pub reveal : DkgInstance F G → Result (DkgBcast2 G × List (DkgP2P F))
  unfolding revealed
  reveal inst = do
    cm ← revealed inst
    ok (
      record { from = inst.me; cm = cm },
      map (λ j. record { from = inst.me; to = j; share = share_for inst j }) inst.committee.ids,
    )

  -- A dealer whose defense passes the check was accused falsely.
  unfoldable pub resolve_complaint : Phase → FeldmanCommitment G → PartyId → PartyId → F → Error
  resolve_complaint phase cm dealer accuser defense =
      if verify_share cm accuser defense
      then abort (record { phase = phase; blamed = accuser ∷ []; detail = false_accusation dealer })
      else abort (record { phase = phase; blamed = dealer ∷ []; detail = defense_fails dealer })

-- The message sets that a party finalizes over.
pub record Inbox (F G : Type 0) : Type 0 where
  pub r1 : Map DkgBcast1
  pub r2 : Map (DkgBcast2 G)
  pub shares : Map F
  pub defenses : Map F

module _ {F G : Type 0} ⦃f : Field F⦄ ⦃g : Group G⦄ ⦃c : Action F G⦄ ⦃h : Hash⦄
    ⦃pe : PointEncoding G⦄ where
  -- The share that passes, or the verdict on the complaint about it.
  unfoldable pub settle_share :
      Phase → Inbox F G → PartyId → FeldmanCommitment G → PartyId → F → Bool → Result F
  settle_share phase box i cm me s true = ok s
  settle_share phase box i cm me s false = do
    d ← expect (get i box.defenses)
    err (resolve_complaint phase cm i me d)

  -- (b) of the loop's body.
  unfoldable pub check_share :
      DkgInstance F G → Phase → Inbox F G → PartyId → FeldmanCommitment G → Result F
  unfolding settle_share
  check_share inst phase box i cm = do
    s ← expect (get i box.shares)
    settle_share phase box i cm inst.me s (verify_share cm inst.me s)

  -- The loop's body: (a) the commitment, (b) the share of dealer i.
  unfoldable pub check_dealer :
      DkgInstance F G → Phase → Inbox F G → PartyId → Result (F × FeldmanCommitment G)
  unfolding check_share
  check_dealer inst phase box i = do
    b1 ← expect (get i box.r1)
    b2 ← expect (get i box.r2)
    ensure (length b2.cm.points == inst.committee.t) (
        abort (record {
          phase = phase;
          blamed = i ∷ [];
          detail = text "malformed Feldman commitment vector";
        }))
    ensure (same_bytes (hash_commitment inst.sid inst.tag i b2.cm) b1.hash) (
        abort
          (record { phase = phase; blamed = i ∷ []; detail = text "commit-reveal hash mismatch" }))
    s ← check_share inst phase box i b2.cm
    ok (s, b2.cm)

  -- `for &i in self.committee.ids()`
  unfoldable pub finalize_loop :
      DkgInstance F G
      → Phase
      → Inbox F G
      → List PartyId
      → F
      → List (FeldmanCommitment G)
      → Result (F × List (FeldmanCommitment G))
  finalize_loop inst phase box [] share_sum cms = ok (share_sum, cms)
  finalize_loop inst phase box (i ∷ ids) share_sum cms = do
    (s, cm) ← check_dealer inst phase box i
    finalize_loop inst phase box ids (share_sum ⊕ s) (cms ++ (cm ∷ []))

  -- The message sets hold one message of each member.
  abbrev pub is_complete : ℕ → Inbox F G → Bool
  is_complete n box =
      if length box.r1 == n
      then (if length box.r2 == n
          then (if length box.shares == n then length box.defenses == n else false)
          else false)
      else false

  unfoldable pub finalize : DkgInstance F G → Phase → Inbox F G → Result (DkgOutput F G)
  finalize inst phase box =
      if is_complete (length inst.committee.ids) box
      then (do
        (share_sum, cms) ← finalize_loop inst phase box inst.committee.ids zero_scalar []
        cm ← expect (sum cms)
        ok (record { index = inst.me; share = share_sum; cm = cm }))
      else err (invalid_params "incomplete message sets")
