-- ===== src/Triples/Robust.antt =====
-- `generate_robust` of src/protocol/triples.rs: triple generation that goes on after bad re-shared shares. The
-- dealer of such a share is blamed, and the share is computed again from t valid ones; a bad proof still aborts.
pub mod Sound
pub mod Generate
pub mod Blame
mod Tests
use ohm_ecdsa.Prelude.{
  ℕ, List, [], ◌∷◌, ◌++◌, Option, none, some, Bool, not, ltb, if◌then◌else◌, map, filter, length,
  take,
}
use ohm_ecdsa.Core.{
  PartyId, Phase, Error, abort, text, Committee, Params, full, Result, ok, err, panicked, expect,
  ◌>>=◌, ◌>>◌,
}
use ohm_ecdsa.Core.Tags.{ascii}
use ohm_ecdsa.Field.{Field, from_u64, zero_scalar}
use ohm_ecdsa.Curve.{Group, Action}
use ohm_ecdsa.Encoding.{Bytes, Hash, PointEncoding}
use ohm_ecdsa.Rng.{Rng}
use ohm_ecdsa.Shamir.{interpolate_at, lagrange_coeffs}
use ohm_ecdsa.Vss.{FeldmanCommitment, scale}
use ohm_ecdsa.Open.{check_shares}
use ohm_ecdsa.Policy.{contains_id}
use ohm_ecdsa.Dkg.{DkgOutput}
use ohm_ecdsa.Dleq.{Digest}
use ohm_ecdsa.Presign.{TripleShare, TriplePublic}
use ohm_ecdsa.Triples.{
  TripleTamper, Resharing, first_of, joint_random, reshare_all, tampered, accumulate, check_product,
  triple_records,
}

module _ {F : Type 0} where
  -- The shares of a dealer with the ids of their receivers, `ids[v]`.
  unfoldable pub addressed : List PartyId → List F → Result (List (PartyId × F))
  addressed ids [] = ok []
  addressed [] (s ∷ ss) = panicked
  addressed (i ∷ ids) (s ∷ ss) = do rest ← addressed ids ss; ok ((i, s) ∷ rest)

module _ {F : Type 0} ⦃f : Field F⦄ where
  unfoldable pub recompute_one : List PartyId → List PartyId → List F → PartyId → F → Result F
  recompute_one victims valid_parties valid_shares i s =
      if contains_id victims i
      then expect (interpolate_at (from_u64 i) valid_parties valid_shares)
      else ok s

  -- `for &i in &victims { resh_shares[k][position(i)] = interpolate_at(i, …) }`: ids are distinct, so the place of
  -- a victim is the one where it was found.
  unfoldable pub recomputed :
      List PartyId → List PartyId → List F → List (PartyId × F) → Result (List F)
  recomputed victims valid_parties valid_shares [] = ok []
  recomputed victims valid_parties valid_shares ((i, s) ∷ es) = do
    s' ← recompute_one victims valid_parties valid_shares i s
    rest ← recomputed victims valid_parties valid_shares es
    ok (s' ∷ rest)

  -- What T3 does with the victims of dealer j, if any: the shares after it, and the blame.
  unfoldable pub reconstruct :
      ℕ
      → PartyId
      → List F
      → List (PartyId × F)
      → List PartyId
      → List F
      → List PartyId
      → Result (List F × List PartyId)
  reconstruct t j ss es valid_parties valid_shares [] = ok (ss, [])
  reconstruct t j ss es valid_parties valid_shares (i ∷ victims) =
      if ltb (length valid_parties) t
      then err (
          abort (record {
            phase = Phase.triples;
            blamed = j ∷ [];
            detail =
                text
                  "fewer than t valid re-shared shares; committed re-sharing polynomial unrecoverable";
          }))
      else (do
        ss' ← recomputed (i ∷ victims) (take t valid_parties) (take t valid_shares) es
        ok (ss', j ∷ []))

module _ {F G : Type 0} ⦃f : Field F⦄ ⦃g : Group G⦄ ⦃c : Action F G⦄ where
  unfoldable pub recover_reshares :
      FeldmanCommitment G → ℕ → PartyId → List PartyId → List F → Result (List F × List PartyId)
  recover_reshares cm t j ids ss = do
    es ← addressed ids ss
    let v = check_shares cm es
    reconstruct t j ss es v.valid_parties v.valid_shares v.blamed

-- The state that the loop of T3 leaves.
pub record Combined (F G : Type 0) : Type 0 where
  pub sum : Option (FeldmanCommitment G)
  pub dealt : List (Resharing F G)
  pub blamed : List PartyId

module _ {F G : Type 0} ⦃f : Field F⦄ ⦃g : Group G⦄ ⦃c : Action F G⦄ ⦃h : Hash⦄
    ⦃pe : PointEncoding G⦄ ⦃d : Digest F⦄ where
  -- T3: `for (k, &j) in ids.iter().enumerate()`.
  unfoldable pub combine_products_robust :
      Bytes
      → List PartyId
      → ℕ
      → FeldmanCommitment G
      → FeldmanCommitment G
      → List PartyId
      → List F
      → List (Resharing F G)
      → Option (FeldmanCommitment G)
      → Result (Combined F G)
  combine_products_robust sid ids t ca cb [] ls rs sum =
      ok (record { sum = sum; dealt = rs; blamed = [] })
  combine_products_robust sid ids t ca cb (j ∷ js) (l ∷ ls) (r ∷ rs) sum = do
    check_product sid ca cb j r
    (ss, blame) ← recover_reshares r.cm t j ids r.shares
    rest ← combine_products_robust sid ids t ca cb js ls rs (some (accumulate sum (scale r.cm l)))
    ok (record rest {
      dealt = record r { shares = ss } ∷ rest.dealt;
      blamed = blame ++ rest.blamed;
    })
  combine_products_robust sid ids t ca cb (j ∷ js) _ _ sum = panicked

module _ {F G R : Type 0} ⦃f : Field F⦄ ⦃g : Group G⦄ ⦃c : Action F G⦄ ⦃h : Hash⦄
    ⦃pe : PointEncoding G⦄ ⦃d : Digest F⦄ ⦃rng : Rng F R⦄ where
  -- T2 and T3, after the two sharings of T1. Blamed parties get no record.
  unfoldable pub multiply_robust :
      Committee
      → Bytes
      → List R
      → Option TripleTamper
      → List (DkgOutput F G)
      → List (DkgOutput F G)
      → Result ((List (TripleShare F × TriplePublic G) × List PartyId) × List R)
  multiply_robust committee sid rngs tamper a_out b_out = do
    a0 ← expect (first_of a_out)
    b0 ← expect (first_of b_out)
    let a_shares = map (λ o. o.share) a_out
    let b_shares = map (λ o. o.share) b_out
    lambdas ← expect (lagrange_coeffs committee.ids)
    (dealt, rngs) ←
        reshare_all committee.ids committee.t sid b0.cm committee.ids a_shares b_shares rngs
    combined ←
        combine_products_robust sid committee.ids committee.t a0.cm b0.cm committee.ids lambdas
          (tampered committee tamper dealt) none
    total ← expect combined.sum
    out ←
        triple_records 0 committee.ids a_shares b_shares lambdas combined.dealt
          (record { ca = a0.cm; cb = b0.cm; cc = total })
    ok ((filter (λ o. not (contains_id combined.blamed o.0.index)) out, combined.blamed), rngs)

  unfoldable pub generate_robust_with_committee :
      Committee
      → Bytes
      → List R
      → Option TripleTamper
      → Result ((List (TripleShare F × TriplePublic G) × List PartyId) × List R)
  generate_robust_with_committee committee sid rngs tamper = do
    (a_out, rngs) ← joint_random committee (sid ++ ascii "/alpha") rngs Phase.triples
    (b_out, rngs) ← joint_random committee (sid ++ ascii "/beta") rngs Phase.triples
    multiply_robust committee sid rngs tamper a_out b_out

  unfoldable pub generate_robust :
      Params
      → Bytes
      → List R
      → Option TripleTamper
      → Result ((List (TripleShare F × TriplePublic G) × List PartyId) × List R)
  generate_robust params sid rngs tamper = do
    committee ← full params
    generate_robust_with_committee committee sid rngs tamper
