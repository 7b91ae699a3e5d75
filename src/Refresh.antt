-- ===== src/Refresh.antt =====
-- src/protocol/refresh.rs: proactive refresh, in which all parties add shares of dealt zeros to their key
-- shares. One process runs all parties. Indexing out of range and a failed `assert_eq!` are panics.
pub mod Sound
pub mod Reshare
mod Tests
use ohm_ecdsa.Prelude.{
  ℕ, List, [], ◌∷◌, Option, none, some, Bool, true, false, not, ◌||◌, ◌&&◌, map, ◌==◌, ltb,
  if◌then◌else◌, length,
}
use ohm_ecdsa.Core.{
  PartyId, Phase, Error, abort, text, invalid_params, Committee, Result, ok, err, panicked, expect,
  ensure, ◌>>=◌, ◌>>◌,
}
use ohm_ecdsa.Core.Map.{Map, get, collect_into}
use ohm_ecdsa.Core.Tags.{refresh_commit}
use ohm_ecdsa.Field.{Field, zero_scalar, one_scalar, ◌⊕◌}
use ohm_ecdsa.Curve.{Group, Action, identity, ◌=ₚ◌}
use ohm_ecdsa.Encoding.{Bytes, Hash, PointEncoding}
use ohm_ecdsa.Rng.{Rng}
use ohm_ecdsa.Vss.{FeldmanCommitment, add}
use ohm_ecdsa.Dkg.{
  DkgBcast1, DkgBcast2, DkgP2P, DkgInstance, DkgOutput, is_some_of, start_with_secret,
}
use ohm_ecdsa.Dkg.Rounds.{Started, reveal_all, finalize_all}
use ohm_ecdsa.Triples.{first_of}
use ohm_ecdsa.Presign.Run.{any_misplaced}

-- The dealing faults of the tests.
pub record DkgTamper : Type 0 where
  pub bad_deal : Option (PartyId × PartyId)
  pub bad_reveal : Option PartyId
  pub corrupt_share : Option (PartyId × PartyId)

module _ {F G R : Type 0} where
  unfoldable pub check_inputs : Committee → List (DkgOutput F G) → List R → Result (Unit {0})
  check_inputs committee ks rngs =
      ensure
        (not (
          not (length ks == length committee.ids)
          || (ltb (length rngs) (length committee.ids) || any_misplaced ks committee.ids)))
        (invalid_params "keys/rngs must match the committee positionally (keys[k].index == ids[k])")

module _ {F G : Type 0} where
  -- A cheating dealer: a wrong share and defense, or a wrong reveal.
  unfoldable pub tamper_dealer : Option DkgTamper → PartyId → DkgInstance F G → DkgInstance F G
  tamper_dealer none i inst = inst
  tamper_dealer (some t) i inst = record inst {
    bad_deal = elim t.bad_deal [
      | none ↦ inst.bad_deal
      | some b ↦ if b.0 == i then some b.1 else inst.bad_deal
    ];
    bad_reveal = if is_some_of t.bad_reveal i then true else inst.bad_reveal;
  }

module _ {F : Type 0} ⦃f : Field F⦄ where
  -- A share that is changed in transit.
  unfoldable pub corrupt : Option DkgTamper → List (DkgP2P F) → List (DkgP2P F)
  corrupt none p2p = p2p
  corrupt (some t) p2p = elim t.corrupt_share [
    | none ↦ p2p
    | some e ↦
        map
          (λ m.
            if m.from == e.0 && m.to == e.1 then record m { share = m.share ⊕ one_scalar } else m)
          p2p
  ]

module _ {F G R : Type 0} ⦃f : Field F⦄ ⦃g : Group G⦄ ⦃c : Action F G⦄ ⦃h : Hash⦄
    ⦃pe : PointEncoding G⦄ ⦃rng : Rng F R⦄ where
  -- Round 1: `for (k, &i) in committee.ids().iter().enumerate()`.
  unfoldable pub deal_all :
      Committee
      → Bytes
      → Bytes
      → Option DkgTamper
      → List PartyId
      → List F
      → List R
      → Result (Started F G R)
  deal_all committee sid tag tamper [] ss rngs =
      ok (record { commits = []; insts = []; rngs = rngs })
  deal_all committee sid tag tamper (i ∷ ids) (s ∷ ss) (r ∷ rngs) =
      let (inst, b1, r') = start_with_secret committee sid tag i s r in
      (do
        rest ← deal_all committee sid tag tamper ids ss rngs
        ok (record {
          commits = (i, b1) ∷ rest.commits;
          insts = tamper_dealer tamper i inst ∷ rest.insts;
          rngs = r' ∷ rest.rngs;
        }))
  deal_all committee sid tag tamper (i ∷ ids) _ _ = panicked

  unfoldable pub deal_fixed_secrets :
      Committee
      → Bytes
      → Bytes
      → List F
      → List R
      → Option DkgTamper
      → Result (List (DkgOutput F G) × Map (DkgBcast2 G) × List R)
  deal_fixed_secrets committee sid tag secrets rngs tamper = do
    ensure (length secrets == length committee.ids)
        (invalid_params "secrets must match the committee")
    started ← deal_all committee sid tag tamper committee.ids secrets rngs
    (r2, p2p) ← reveal_all started.insts
    let reveals = collect_into [] r2
    outs ←
        finalize_all Phase.refresh (collect_into [] started.commits) reveals (corrupt tamper p2p)
          started.insts started.insts
    ok (outs, reveals, started.rngs)

module _ {G : Type 0} ⦃g : Group G⦄ where
  -- Every dealer must commit to the constant term 0.
  unfoldable pub check_zeros : Map (DkgBcast2 G) → List PartyId → Result (Unit {0})
  check_zeros reveals [] = ok tt
  check_zeros reveals (i ∷ ids) = do
    b2 ← expect (get i reveals)
    p ← expect (first_of b2.cm.points)
    ensure (p =ₚ identity) (
        abort (record {
          phase = Phase.refresh;
          blamed = i ∷ [];
          detail = text "refresh dealer committed to a non-zero constant term";
        }))
    check_zeros reveals ids

module _ {F G : Type 0} ⦃f : Field F⦄ ⦃g : Group G⦄ where
  -- `for (k, z) in z_outs.into_iter().enumerate()`; the public key is asserted to stay.
  unfoldable pub add_zeros :
      List (DkgOutput F G) → List (DkgOutput F G) → Result (List (DkgOutput F G))
  add_zeros ks [] = ok []
  add_zeros [] (z ∷ zs) = panicked
  add_zeros (key ∷ ks) (z ∷ zs) = do
    let new_cm = add key.cm z.cm
    p ← expect (first_of new_cm.points)
    q ← expect (first_of key.cm.points)
    expect (if p =ₚ q then some tt else none)
    rest ← add_zeros ks zs
    ok (record { index = key.index; share = key.share ⊕ z.share; cm = new_cm } ∷ rest)

module _ {F G R : Type 0} ⦃f : Field F⦄ ⦃g : Group G⦄ ⦃c : Action F G⦄ ⦃h : Hash⦄
    ⦃pe : PointEncoding G⦄ ⦃rng : Rng F R⦄ where
  unfoldable pub refresh :
      Committee
      → List (DkgOutput F G)
      → Bytes
      → List R
      → Option DkgTamper
      → Result (List (DkgOutput F G) × List R)
  refresh committee ks sid rngs tamper = do
    check_inputs committee ks rngs
    (z_outs, reveals, rngs) ←
        deal_fixed_secrets committee sid refresh_commit (map (λ _. zero_scalar) committee.ids) rngs
          tamper
    check_zeros reveals committee.ids
    out ← add_zeros ks z_outs
    ok (out, rngs)
