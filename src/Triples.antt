-- ===== src/Triples.antt =====
-- src/protocol/triples.rs: joint random sharings, and Beaver triples: T1 shares α and β, T2 re-shares the
-- local products with their proofs, T3 checks the proofs and combines. What the code keeps in parallel
-- vectors, one place for each party, is one list of records here.
pub mod Product
pub mod Dealing
pub mod Sound
pub mod Generate
pub mod Robust
mod Tests
use ohm_ecdsa.Prelude.{
  ℕ, zero, suc, List, [], ◌∷◌, ◌++◌, Option, none, some, map, ◌==◌, if◌then◌else◌, get_elem?,
}
use ohm_ecdsa.Core.{
  PartyId, Phase, Error, abort, text, Committee, Params, full, Result, ok, err, panicked, expect,
  ensure, ◌>>=◌, ◌>>◌, position,
}
use ohm_ecdsa.Core.Map.{collect_into}
use ohm_ecdsa.Core.Tags.{ascii, dkg_commit, triple_product}
use ohm_ecdsa.Field.{Field, zero_scalar, one_scalar, ◌⊕◌, ◌⊗◌}
use ohm_ecdsa.Curve.{Group, Action, generator, ◌=ₚ◌}
use ohm_ecdsa.Encoding.{Bytes, Hash, PointEncoding}
use ohm_ecdsa.Rng.{Rng}
use ohm_ecdsa.Shamir.{random_poly, eval, lagrange_coeffs}
use ohm_ecdsa.Vss
use ohm_ecdsa.Vss.{FeldmanCommitment, from_poly, verify_share, scale, add}
use ohm_ecdsa.Dkg.{DkgOutput, resolve_complaint}
use ohm_ecdsa.Dkg.Rounds.{start_all, reveal_all, finalize_all}
use ohm_ecdsa.Dleq.{Digest, DleqProof, prove, verify}
use ohm_ecdsa.Presign.{TripleShare, TriplePublic}

-- The fault injection of the tests: a wrong share of a dealer for a victim, and a wrong proof.
pub record TripleTamper : Type 0 where
  pub bad_reshare : Option (PartyId × PartyId)
  pub bad_product_proof : Option PartyId
  pub bad_product_proof_at : Option (PartyId × ℕ)

-- What a dealer broadcasts and sends in T2.
pub record Resharing (F G : Type 0) : Type 0 where
  pub cm : FeldmanCommitment G
  pub x1 : G
  pub x2 : G
  pub proof : DleqProof F G
  pub shares : List F

-- A change of the entry at a place.
abbrev pub update_at {ℓ} : {A : Type ℓ} → ℕ → (A → A) → List A → List A
update_at n change [] = []
update_at zero change (a ∷ as') = change a ∷ as'
update_at (suc n) change (a ∷ as') = a ∷ update_at n change as'

abbrev pub first_of {ℓ} : {A : Type ℓ} → List A → Option A
first_of [] = none
first_of (a ∷ rest) = some a

module _ {F G R : Type 0} ⦃f : Field F⦄ ⦃g : Group G⦄ ⦃c : Action F G⦄ ⦃h : Hash⦄
    ⦃pe : PointEncoding G⦄ ⦃rng : Rng F R⦄ where
  unfoldable pub joint_random :
      Committee → Bytes → List R → Phase → Result (List (DkgOutput F G) × List R)
  joint_random committee sid rngs phase = do
    started ← start_all committee sid dkg_commit committee.ids rngs
    (r2, p2p) ← reveal_all started.insts
    outs ←
        finalize_all phase (collect_into [] started.commits) (collect_into [] r2) p2p started.insts
          started.insts
    ok (outs, started.rngs)

module _ {F G R : Type 0} ⦃f : Field F⦄ ⦃g : Group G⦄ ⦃c : Action F G⦄ ⦃h : Hash⦄
    ⦃pe : PointEncoding G⦄ ⦃d : Digest F⦄ ⦃rng : Rng F R⦄ where
  -- T2 of party j, with its shares a_j and b_j.
  unfoldable pub reshare_product :
      List PartyId → ℕ → Bytes → FeldmanCommitment G → PartyId → F → F → R → Resharing F G × R
  reshare_product ids t sid cb j a b r =
      let (poly, r') = random_poly (a ⊗ b) t r in
      let ((x1, x2, proof), r'') = prove sid triple_product a generator (Vss.eval_at F cb j) r' in
      (
        record {
          cm = from_poly poly;
          x1 = x1;
          x2 = x2;
          proof = proof;
          shares = map (eval poly) ids;
        },
        r'',
      )

  -- `for (k, &j) in ids.iter().enumerate()` of T2; a missing share or random source panics.
  unfoldable pub reshare_all :
      List PartyId
      → ℕ
      → Bytes
      → FeldmanCommitment G
      → List PartyId
      → List F
      → List F
      → List R
      → Result (List (Resharing F G) × List R)
  reshare_all ids t sid cb [] as' bs rngs = ok ([], rngs)
  reshare_all ids t sid cb (j ∷ js) (a ∷ as') (b ∷ bs) (r ∷ rngs) =
      let (dealt, r') = reshare_product ids t sid cb j a b r in
      (do (rest, rngs') ← reshare_all ids t sid cb js as' bs rngs; ok (dealt ∷ rest, r' ∷ rngs'))
  reshare_all ids t sid cb (j ∷ js) _ _ _ = panicked

module _ {F G : Type 0} ⦃f : Field F⦄ where
  unfoldable pub tamper_share :
      Committee → Option (PartyId × PartyId) → List (Resharing F G) → List (Resharing F G)
  tamper_share committee none rs = rs
  tamper_share committee (some (dealer, victim)) rs = elim (position committee dealer) [
    | none ↦ rs
    | some d ↦ elim (position committee victim) [
      | none ↦ rs
      | some v ↦
          update_at d (λ r. record r { shares = update_at v (λ s. s ⊕ one_scalar) r.shares }) rs
    ]
  ]

  unfoldable pub tamper_proof :
      Committee → Option PartyId → List (Resharing F G) → List (Resharing F G)
  tamper_proof committee none rs = rs
  tamper_proof committee (some j) rs = elim (position committee j) [
    | none ↦ rs
    | some p ↦
        update_at p (λ r. record r { proof = record r.proof { z = r.proof.z ⊕ one_scalar } }) rs
  ]

  unfoldable pub tampered :
      Committee → Option TripleTamper → List (Resharing F G) → List (Resharing F G)
  tampered committee none rs = rs
  tampered committee (some tamp) rs =
      tamper_proof committee tamp.bad_product_proof (tamper_share committee tamp.bad_reshare rs)

module _ {F G : Type 0} ⦃f : Field F⦄ ⦃g : Group G⦄ ⦃c : Action F G⦄ where
  -- `for (v, &s) in resh_shares[k].iter().enumerate()`: the share for each id.
  unfoldable pub check_reshares :
      FeldmanCommitment G → PartyId → List PartyId → List F → Result (Unit {0})
  check_reshares cm j ids [] = ok tt
  check_reshares cm j [] (s ∷ ss) = panicked
  check_reshares cm j (i ∷ ids) (s ∷ ss) = do
    ensure (verify_share cm i s) (resolve_complaint Phase.triples cm j i s)
    check_reshares cm j ids ss

module _ {G : Type 0} ⦃g : Group G⦄ where
  -- The sum is none before the first dealer.
  unfoldable pub accumulate :
      Option (FeldmanCommitment G) → FeldmanCommitment G → FeldmanCommitment G
  accumulate none scaled = scaled
  accumulate (some acc) scaled = add acc scaled

module _ {F G : Type 0} ⦃f : Field F⦄ ⦃g : Group G⦄ ⦃c : Action F G⦄ ⦃h : Hash⦄
    ⦃pe : PointEncoding G⦄ ⦃d : Digest F⦄ where
  -- The three tests of a product proof: for the dealer's α_j·G, for its product, and the proof itself.
  unfoldable pub check_product :
      Bytes
      → FeldmanCommitment G
      → FeldmanCommitment G
      → PartyId
      → Resharing F G
      → Result (Unit {0})
  check_product sid ca cb j r =
      let e = abort (record {
        phase = Phase.triples;
        blamed = j ∷ [];
        detail = text "invalid DLEQ product proof";
      }) in
      (do
        ensure (r.x1 =ₚ Vss.eval_at F ca j) e
        p ← expect (first_of r.cm.points)
        ensure (r.x2 =ₚ p) e
        ensure (verify sid triple_product generator r.x1 (Vss.eval_at F cb j) r.x2 r.proof) e)

  -- T3: `for (k, &j) in ids.iter().enumerate()`.
  unfoldable pub combine_products :
      Bytes
      → List PartyId
      → FeldmanCommitment G
      → FeldmanCommitment G
      → List PartyId
      → List F
      → List (Resharing F G)
      → Option (FeldmanCommitment G)
      → Result (Option (FeldmanCommitment G))
  combine_products sid ids ca cb [] ls rs sum = ok sum
  combine_products sid ids ca cb (j ∷ js) (l ∷ ls) (r ∷ rs) sum = do
    check_product sid ca cb j r
    check_reshares r.cm j ids r.shares
    combine_products sid ids ca cb js ls rs (some (accumulate sum (scale r.cm l)))
  combine_products sid ids ca cb (j ∷ js) _ _ sum = panicked

module _ {F G : Type 0} ⦃f : Field F⦄ where
  -- `(0..n).map(|d| lambdas[d] * resh_shares[d][k]).fold(ZERO, +)`
  unfoldable pub column : ℕ → List F → List (Resharing F G) → F → Result F
  column k (l ∷ ls) (r ∷ rs) acc = do
    s ← expect (get_elem? r.shares k)
    column k ls rs (acc ⊕ l ⊗ s)
  column k _ _ acc = ok acc

  -- `(0..n).map(|k| …)`: the records of the parties at the places from k on.
  unfoldable pub triple_records :
      ℕ
      → List PartyId
      → List F
      → List F
      → List F
      → List (Resharing F G)
      → TriplePublic G
      → Result (List (TripleShare F × TriplePublic G))
  triple_records k [] as' bs ls rs public = ok []
  triple_records k (i ∷ ids) (a ∷ as') (b ∷ bs) ls rs public = do
    s ← column k ls rs zero_scalar
    rest ← triple_records (suc k) ids as' bs ls rs public
    ok ((record { index = i; a = a; b = b; c = s }, public) ∷ rest)
  triple_records k (i ∷ ids) _ _ ls rs public = panicked

module _ {F G R : Type 0} ⦃f : Field F⦄ ⦃g : Group G⦄ ⦃c : Action F G⦄ ⦃h : Hash⦄
    ⦃pe : PointEncoding G⦄ ⦃d : Digest F⦄ ⦃rng : Rng F R⦄ where
  -- T2 and T3 of `generate_with_committee`, after the two sharings of T1.
  unfoldable pub multiply :
      Committee
      → Bytes
      → List R
      → Option TripleTamper
      → List (DkgOutput F G)
      → List (DkgOutput F G)
      → Result (List (TripleShare F × TriplePublic G) × List R)
  multiply committee sid rngs tamper a_out b_out = do
    a0 ← expect (first_of a_out)
    b0 ← expect (first_of b_out)
    let a_shares = map (λ o. o.share) a_out
    let b_shares = map (λ o. o.share) b_out
    lambdas ← expect (lagrange_coeffs committee.ids)
    (dealt, rngs) ←
        reshare_all committee.ids committee.t sid b0.cm committee.ids a_shares b_shares rngs
    let rs = tampered committee tamper dealt
    combined ← combine_products sid committee.ids a0.cm b0.cm committee.ids lambdas rs none
    total ← expect combined
    out ←
        triple_records 0 committee.ids a_shares b_shares lambdas rs
          (record { ca = a0.cm; cb = b0.cm; cc = total })
    ok (out, rngs)

  unfoldable pub generate_with_committee :
      Committee
      → Bytes
      → List R
      → Option TripleTamper
      → Result (List (TripleShare F × TriplePublic G) × List R)
  generate_with_committee committee sid rngs tamper = do
    (a_out, rngs) ← joint_random committee (sid ++ ascii "/alpha") rngs Phase.triples
    (b_out, rngs) ← joint_random committee (sid ++ ascii "/beta") rngs Phase.triples
    multiply committee sid rngs tamper a_out b_out

  unfoldable pub generate_with_tamper :
      Params
      → Bytes
      → List R
      → Option TripleTamper
      → Result (List (TripleShare F × TriplePublic G) × List R)
  generate_with_tamper params sid rngs tamper = do
    committee ← full params
    generate_with_committee committee sid rngs tamper

  unfoldable pub generate :
      Params → Bytes → List R → Result (List (TripleShare F × TriplePublic G) × List R)
  generate params sid rngs = generate_with_tamper params sid rngs none
