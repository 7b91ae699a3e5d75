-- ===== src/Presign/Run.antt =====
-- `presign_with_committee` of src/protocol/presign.rs: the phases P1 to P4 of one presignature, run by one
-- process for all parties. What P2 and P4 write out twice is a helper here; `ki_z_share` and `ki_z_com` of
-- the signing module compute the same terms. Indexing out of range is a panic.
pub mod Values
pub mod Beaver
pub mod NoncePoint
pub mod Phases
pub mod Sound
pub mod Signing
mod Tests
use ohm_ecdsa.Prelude.{
  ℕ, zero, suc, ◌+◌, ◌/◌, ◌%◌, List, [], ◌∷◌, ◌++◌, Option, none, some, Bool, true, false, not,
  ◌||◌, map, ◌==◌, ltb, if◌then◌else◌, length,
}
use ohm_ecdsa.Core.{
  PartyId, Phase, Error, abort, text, invalid_params, zero_value, Committee, Params, full, Result,
  ok, err, panicked, expect, ensure, ◌>>=◌, ◌>>◌,
}
use ohm_ecdsa.Core.Map.{Map, get, insert, collect_into}
use ohm_ecdsa.Core.Tags.{ascii, decimal}
use ohm_ecdsa.Field.{Field, zero_scalar, one_scalar, ◌⊕◌, ◌⊗◌, ◌⊖◌, neg, ◌=?◌, invert}
use ohm_ecdsa.Curve.{Group, Action, identity, generator, ◌⊞◌, ◌⊡◌, ◌=ₚ◌}
use ohm_ecdsa.Encoding.{Bytes, Hash, PointEncoding}
use ohm_ecdsa.Rng.{Rng}
use ohm_ecdsa.Shamir.{lagrange_coeffs}
use ohm_ecdsa.Vss
use ohm_ecdsa.Vss.{FeldmanCommitment, scale, add}
use ohm_ecdsa.Open.{open_shares}
use ohm_ecdsa.Dkg.{DkgOutput}
use ohm_ecdsa.Dleq.{Digest}
use ohm_ecdsa.Triples.{TripleTamper, first_of, joint_random, generate_with_committee}
use ohm_ecdsa.Presign.{Presignature, TripleShare, TriplePublic}
use ohm_ecdsa.Sign.{XCoordinate, ki_z_share, ki_z_com}

pub record PresignTamper : Type 0 where
  pub bad_nonce_point : Option PartyId
  pub bad_open_share : Option PartyId
  pub triple_tamper : Option TripleTamper

module _ {F G : Type 0} where
  -- `keys.iter().zip(committee.ids()).any(|(key, &i)| key.index != i)`
  unfoldable pub any_misplaced : List (DkgOutput F G) → List PartyId → Bool
  any_misplaced (key ∷ ks) (i ∷ ids) = not (key.index == i) || any_misplaced ks ids
  any_misplaced _ _ = false

  unfoldable pub check_committee_inputs :
      {R : Type 0} → Committee → List (DkgOutput F G) → List R → Result (Unit {0})
  check_committee_inputs committee ks rngs =
      ensure
        (not (
          not (length ks == length committee.ids)
          || (ltb (length rngs) (length committee.ids) || any_misplaced ks committee.ids)))
        (invalid_params "keys/rngs must match the committee positionally (keys[k].index == ids[k])")

module _ {F : Type 0} ⦃f : Field F⦄ where
  -- `ids.iter().enumerate().map(|(k, &j)| (j, xs[k] - masks[k]))`
  unfoldable pub masked : List PartyId → List F → List F → Result (List (PartyId × F))
  masked [] xs masks = ok []
  masked (j ∷ js) (x ∷ xs) (m ∷ masks) = do rest ← masked js xs masks; ok ((j, x ⊖ m) ∷ rest)
  masked (j ∷ js) _ _ = panicked

  -- `c + d·b + e·a + d·e` of each party, by its id.
  unfoldable pub product_shares :
      List PartyId → List (TripleShare F) → F → F → Result (List (PartyId × F))
  product_shares [] ts delta eps = ok []
  product_shares (j ∷ js) (t ∷ ts) delta eps = do
    rest ← product_shares js ts delta eps
    ok ((j, ki_z_share t delta eps) ∷ rest)
  product_shares (j ∷ js) [] delta eps = panicked

  -- The wrong opening share of the tests.
  unfoldable pub tamper_open : Option PartyId → Map F → Map F
  tamper_open none shares = shares
  tamper_open (some j) shares = elim (get j shares) [
    | none ↦ shares
    | some s ↦ insert j (s ⊕ one_scalar) shares
  ]

module _ {F G : Type 0} ⦃f : Field F⦄ ⦃g : Group G⦄ ⦃c : Action F G⦄ where
  -- Opening a sharing that is masked by a part of a triple: `com.add(&mask.scale(&neg))`.
  unfoldable pub open_masked :
      ℕ → List PartyId → FeldmanCommitment G → FeldmanCommitment G → List F → List F → Result F
  open_masked t ids cm mask_cm xs masks = do
    shares ← masked ids xs masks
    open_shares t (add cm (scale mask_cm (neg (one_scalar {F = F})))) (collect_into [] shares)
        Phase.presign

  -- P3: `for (k, &j) in ids.iter().enumerate()`; the point of each party is checked.
  unfoldable pub nonce_points :
      Option PartyId → FeldmanCommitment G → F → List PartyId → List F → Result (List G)
  nonce_points bad k_com v_inv [] as' = ok []
  nonce_points bad k_com v_inv (j ∷ js) [] = panicked
  nonce_points bad k_com v_inv (j ∷ js) (a ∷ as') =
      let honest = generator ⊡ (v_inv ⊗ a) in
      let r_j : G = elim bad [
        | none ↦ honest
        | some b ↦ if b == j then honest ⊞ generator else honest
      ] in
      (do
        ensure (r_j =ₚ Vss.eval_at F k_com j) (
            abort (record {
              phase = Phase.presign;
              blamed = j ∷ [];
              detail = text "invalid nonce point R_j";
            }))
        rest ← nonce_points bad k_com v_inv js as'
        ok (r_j ∷ rest))

  -- `big_r += *rp * l`
  unfoldable pub combine_points : G → List F → List G → G
  combine_points acc [] ps = acc
  combine_points acc (l ∷ ls) [] = acc
  combine_points acc (l ∷ ls) (p ∷ ps) = combine_points (acc ⊞ p ⊡ l) ls ps

-- What P1 to P3 leave.
pub record Nonce (F G : Type 0) : Type 0 where
  pub u_shares : List F
  pub u_com : FeldmanCommitment G
  pub big_r : G
  pub r : F

module _ {F G : Type 0} ⦃f : Field F⦄ ⦃g : Group G⦄ ⦃c : Action F G⦄ ⦃x : XCoordinate F G⦄ where
  -- P2: v = a·u opened through a triple, and its inverse.
  unfoldable pub open_v :
      Committee
      → List (TripleShare F)
      → TriplePublic G
      → Option PartyId
      → FeldmanCommitment G
      → FeldmanCommitment G
      → List F
      → List F
      → Result F
  open_v committee ts public bad u_com a_com us as' = do
    let t = committee.t
    delta ← open_masked t committee.ids u_com public.ca us (map (λ s. s.a) ts)
    eps ← open_masked t committee.ids a_com public.cb as' (map (λ s. s.b) ts)
    v_com ← expect (ki_z_com public delta eps)
    v_shares ← product_shares committee.ids ts delta eps
    v ← open_shares t v_com (tamper_open bad (collect_into [] v_shares)) Phase.presign
    ensure (not (v =? zero_scalar)) (zero_value "v = 0")
    elim (invert v) [ none ↦ err (zero_value "v = 0") | some v_inv ↦ ok v_inv ]

  -- P3: the nonce point and the scalar of its x-coordinate; the identity has no x-coordinate.
  unfoldable pub nonce_of :
      Committee → Option PartyId → FeldmanCommitment G → List F → F → Result (G × F)
  nonce_of committee bad a_com as' v_inv = do
    points ← nonce_points bad (scale a_com v_inv) v_inv committee.ids as'
    lambdas ← expect (lagrange_coeffs {F = F} committee.ids)
    let big_r = combine_points identity lambdas points
    r ← expect (x.x_scalar big_r)
    ensure (not (r =? zero_scalar)) (zero_value "r = 0")
    ok (big_r, r)

  -- P2 and P3 from the sharings of P1.
  unfoldable pub nonce_phase :
      Committee
      → List (TripleShare F × TriplePublic G)
      → Option PresignTamper
      → List (DkgOutput F G)
      → List (DkgOutput F G)
      → Result (Nonce F G)
  nonce_phase committee t1 tamper u_out a_out = do
    one ← expect (first_of t1)
    u0 ← expect (first_of u_out)
    a0 ← expect (first_of a_out)
    let us = map (λ o. o.share) u_out
    let as' = map (λ o. o.share) a_out
    let bad_open : Option PartyId = elim tamper [ none ↦ none | some p ↦ p.bad_open_share ]
    let bad_point : Option PartyId = elim tamper [ none ↦ none | some p ↦ p.bad_nonce_point ]
    v_inv ← open_v committee (map (λ p. p.0) t1) one.1 bad_open u0.cm a0.cm us as'
    (big_r, r) ← nonce_of committee bad_point a0.cm as' v_inv
    ok (record { u_shares = us; u_com = u0.cm; big_r = big_r; r = r })

module _ {F G : Type 0} ⦃f : Field F⦄ ⦃g : Group G⦄ ⦃c : Action F G⦄ where
  -- `(0..n).map(|k| …)`: the records of the parties.
  unfoldable pub presignatures :
      ℕ
      → Nonce F G
      → FeldmanCommitment G
      → F
      → F
      → List PartyId
      → List F
      → List (TripleShare F)
      → Result (List (Presignature F G))
  presignatures id nonce z_com delta eps [] us ts = ok []
  presignatures id nonce z_com delta eps (j ∷ js) (u ∷ us) (t ∷ ts) = do
    rest ← presignatures id nonce z_com delta eps js us ts
    ok (
        record {
          id = id;
          index = j;
          r = nonce.r;
          big_r = nonce.big_r;
          u_share = u;
          z_share = ki_z_share t delta eps;
          u_com = nonce.u_com;
          z_com = z_com;
        }
        ∷ rest)
  presignatures id nonce z_com delta eps (j ∷ js) _ _ = panicked

  -- P4: z = u·x through the second triple.
  unfoldable pub bind_key :
      Committee
      → ℕ
      → List (DkgOutput F G)
      → List (TripleShare F × TriplePublic G)
      → Nonce F G
      → Result (List (Presignature F G))
  bind_key committee id ks t2 nonce = do
    two ← expect (first_of t2)
    key0 ← expect (first_of ks)
    let ts = map (λ p. p.0) t2
    delta ←
        open_masked committee.t committee.ids nonce.u_com two.1.ca nonce.u_shares
          (map (λ s. s.a) ts)
    eps ←
        open_masked committee.t committee.ids key0.cm two.1.cb (map (λ o. o.share) ks)
          (map (λ s. s.b) ts)
    z_com ← expect (ki_z_com two.1 delta eps)
    presignatures id nonce z_com delta eps committee.ids nonce.u_shares ts

module _ {F G R : Type 0} ⦃f : Field F⦄ ⦃g : Group G⦄ ⦃c : Action F G⦄ ⦃h : Hash⦄
    ⦃pe : PointEncoding G⦄ ⦃d : Digest F⦄ ⦃rng : Rng F R⦄ ⦃x : XCoordinate F G⦄ where
  unfoldable pub presign_with_committee :
      Committee
      → List (DkgOutput F G)
      → ℕ
      → List R
      → Option PresignTamper
      → Result (List (Presignature F G) × List R)
  presign_with_committee committee ks id rngs tamper = do
    check_committee_inputs committee ks rngs
    let sid = ascii "ohm-ecdsa/presign/" ++ decimal id
    (t1, rngs) ←
        generate_with_committee committee (sid ++ ascii "/t1") rngs
          (elim tamper [ none ↦ none | some p ↦ p.triple_tamper ])
    (t2, rngs) ← generate_with_committee committee (sid ++ ascii "/t2") rngs none
    (u_out, rngs) ← joint_random committee (sid ++ ascii "/u") rngs Phase.presign
    (a_out, rngs) ← joint_random committee (sid ++ ascii "/a") rngs Phase.presign
    nonce ← nonce_phase committee t1 tamper u_out a_out
    presigs ← bind_key committee id ks t2 nonce
    ok (presigs, rngs)

  unfoldable pub presign :
      Params
      → List (DkgOutput F G)
      → ℕ
      → List R
      → Option PresignTamper
      → Result (List (Presignature F G) × List R)
  presign params ks id rngs tamper = do
    committee ← full params
    presign_with_committee committee ks id rngs tamper
