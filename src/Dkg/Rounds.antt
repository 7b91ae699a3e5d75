-- ===== src/Dkg/Rounds.antt =====
-- The rounds of a DKG that one process runs for all parties, as src/protocol/triples.rs and
-- src/protocol/refresh.rs run them: everybody starts, reveals, and finalizes over the same messages.
-- `&mut rngs[k]` is the k-th random source of a list that is passed along; indexing past it panics.
pub mod Sound
use ohm_ecdsa.Prelude.{List, [], ◌∷◌, ◌++◌, map, filter, ◌==◌}
use ohm_ecdsa.Core.{PartyId, Phase, Committee, Result, ok, panicked, ◌>>=◌}
use ohm_ecdsa.Core.Map.{Map, collect_into}
use ohm_ecdsa.Field.{Field}
use ohm_ecdsa.Curve.{Group, Action}
use ohm_ecdsa.Encoding.{Bytes, Hash, PointEncoding}
use ohm_ecdsa.Rng.{Rng}
use ohm_ecdsa.Dkg.{
  DkgBcast1, DkgBcast2, DkgP2P, DkgInstance, DkgOutput, start_committee, reveal, defend, Inbox,
  finalize,
}

-- What round 1 leaves: the hashes by their senders, the instances, and the random sources.
pub record Started (F G R : Type 0) : Type 0 where
  pub commits : List (PartyId × DkgBcast1)
  pub insts : List (DkgInstance F G)
  pub rngs : List R

module _ {F G R : Type 0} ⦃f : Field F⦄ ⦃g : Group G⦄ ⦃c : Action F G⦄ ⦃h : Hash⦄
    ⦃pe : PointEncoding G⦄ ⦃rng : Rng F R⦄ where
  -- Round 1: `for (k, &i) in committee.ids().iter().enumerate()`.
  unfoldable pub start_all :
      Committee → Bytes → Bytes → List PartyId → List R → Result (Started F G R)
  start_all committee sid tag [] rngs = ok (record { commits = []; insts = []; rngs = rngs })
  start_all committee sid tag (i ∷ ids) [] = panicked
  start_all committee sid tag (i ∷ ids) (r ∷ rngs) =
      let (inst, b1, r') = start_committee committee sid tag i r in
      (do
        rest ← start_all committee sid tag ids rngs
        ok (record {
          commits = (i, b1) ∷ rest.commits;
          insts = inst ∷ rest.insts;
          rngs = r' ∷ rest.rngs;
        }))

module _ {F G : Type 0} ⦃f : Field F⦄ ⦃g : Group G⦄ ⦃c : Action F G⦄ where
  -- Round 2: `for inst in &insts`, the reveals by their senders and the messages of everybody.
  unfoldable pub reveal_all :
      List (DkgInstance F G) → Result (List (PartyId × DkgBcast2 G) × List (DkgP2P F))
  reveal_all [] = ok ([], [])
  reveal_all (inst ∷ insts) = do
    (b2, shares) ← reveal inst
    (r2, p2p) ← reveal_all insts
    ok ((inst.me, b2) ∷ r2, shares ++ p2p)

module _ {F : Type 0} where
  -- The shares that were sent to a party, by their senders.
  unfoldable pub shares_to : PartyId → List (DkgP2P F) → Map F
  shares_to me p2p = collect_into [] (map (λ m. (m.from, m.share)) (filter (λ m. m.to == me) p2p))

module _ {F G : Type 0} ⦃f : Field F⦄ where
  unfoldable pub defenses_to : PartyId → List (DkgInstance F G) → Map F
  defenses_to me insts = collect_into [] (map (λ d. (d.me, defend d me)) insts)

module _ {F G : Type 0} ⦃f : Field F⦄ ⦃g : Group G⦄ ⦃c : Action F G⦄ ⦃h : Hash⦄
    ⦃pe : PointEncoding G⦄ where
  -- Round 3: every party finalizes; the first error ends the run.
  unfoldable pub finalize_all :
      Phase
      → Map DkgBcast1
      → Map (DkgBcast2 G)
      → List (DkgP2P F)
      → List (DkgInstance F G)
      → List (DkgInstance F G)
      → Result (List (DkgOutput F G))
  finalize_all phase r1 r2 p2p all [] = ok []
  finalize_all phase r1 r2 p2p all (inst ∷ insts) = do
    out ← finalize inst phase (record {
      r1 = r1;
      r2 = r2;
      shares = shares_to inst.me p2p;
      defenses = defenses_to inst.me all;
    })
    outs ← finalize_all phase r1 r2 p2p all insts
    ok (out ∷ outs)
