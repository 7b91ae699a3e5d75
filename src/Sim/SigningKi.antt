-- ===== src/Sim/SigningKi.antt =====
-- `run_sign_ki` of src/runtime/sim.rs: signing with a key-independent presignature, whose product with the key
-- is formed online through a fresh triple. Two rounds: R1 opens the masked values, R2 combines the shares.

pub mod Verified
use ohm_ecdsa.Prelude.{
  ℕ, List, [], ◌∷◌, ◌++◌, Option, none, some, Bool, true, false, not, ◌&&◌, ◌==◌, map, length,
}
use ohm_ecdsa.Core.{
  PartyId, Phase, invalid_params, Params, Result, ok, err, panicked, expect, ensure, ◌>>=◌, ◌>>◌,
}
use ohm_ecdsa.Core.Map.{collect_into}
use ohm_ecdsa.Core.Tags.{ascii}
use ohm_ecdsa.Encoding.{Bytes, Hash, PointEncoding, be_bytes}
use ohm_ecdsa.Rng.{Rng}
use ohm_ecdsa.Field.{Field, one_scalar, neg}
use ohm_ecdsa.Curve.{Group, Action}
use ohm_ecdsa.Vss.{FeldmanCommitment, add, scale}
use ohm_ecdsa.Open.{open_shares}
use ohm_ecdsa.Dkg.{DkgOutput}
use ohm_ecdsa.Dleq.{Digest}
use ohm_ecdsa.Triples.{first_of, generate}
use ohm_ecdsa.Presign.{KiPresignature, TripleShare, TriplePublic}
use ohm_ecdsa.Presign.Run.{masked, tamper_open}
use ohm_ecdsa.Sign.{SignShare, ki_z_share, ki_z_com, sign_share_ki, combine_ki}
use ohm_ecdsa.Store.Ki
use ohm_ecdsa.Store.Ki.{KiPool}
use ohm_ecdsa.Sim.Signing.{Signatures, message_scalar, tamper_signing, to_signature}

-- The fault injection of the tests: a wrong opening share, and a replaced signature share.
pub record KiSignTamper (F : Type 0) : Type 0 where
  pub bad_open_share : Option PartyId
  pub bad_sign_share : Option (PartyId × F)

module _ {F G : Type 0} where
  -- `keys.len() == presigs.len()`, and the indices agree place by place.
  unfoldable pub same_indices : List (DkgOutput F G) → List (KiPresignature F G) → Bool
  same_indices [] [] = true
  same_indices (k ∷ ks) (p ∷ ps) = (k.index == p.index) && same_indices ks ps
  same_indices _ _ = false

module _ {F : Type 0} where
  abbrev pub open_fault : Option (KiSignTamper F) → Option PartyId
  open_fault none = none
  open_fault (some tamp) = tamp.bad_open_share

  abbrev pub sign_fault : Option (KiSignTamper F) → Option (PartyId × F)
  sign_fault none = none
  sign_fault (some tamp) = tamp.bad_sign_share

module _ {F G : Type 0} ⦃f : Field F⦄ where
  -- `presigs.iter().enumerate().map(|(k, p)| sign_share_ki(p, &ki_z_share(&triple[k].0, &delta, &eps), &m))`
  unfoldable pub ki_sign_shares :
      F → F → F → List (KiPresignature F G) → List (TripleShare F) → Result (List (SignShare F))
  ki_sign_shares m delta eps [] ts = ok []
  ki_sign_shares m delta eps (p ∷ ps) [] = panicked
  ki_sign_shares m delta eps (p ∷ ps) (t ∷ ts) = do
    rest ← ki_sign_shares m delta eps ps ts
    ok (sign_share_ki p (ki_z_share t delta eps) m ∷ rest)

module _ {F G : Type 0} ⦃f : Field F⦄ ⦃g : Group G⦄ ⦃c : Action F G⦄ where
  -- R1: the openings of δ = u - α and ε = x - β.
  unfoldable pub ki_open_round :
      ℕ
      → List (DkgOutput F G)
      → List (KiPresignature F G)
      → List (TripleShare F)
      → TriplePublic G
      → Option PartyId
      → Result (F × F)
  ki_open_round t ks presigs ts public bad = do
    p0 ← expect (first_of presigs)
    key0 ← expect (first_of ks)
    deltas ← masked (map (λ p. p.index) presigs) (map (λ p. p.u_share) presigs) (map (λ s. s.a) ts)
    epsilons ← masked (map (λ k. k.index) ks) (map (λ k. k.share) ks) (map (λ s. s.b) ts)
    delta ←
        open_shares t (add p0.u_com (scale public.ca (neg (one_scalar {F = F}))))
          (tamper_open bad (collect_into [] deltas)) Phase.sign
    eps ←
        open_shares t (add key0.cm (scale public.cb (neg (one_scalar {F = F}))))
          (collect_into [] epsilons) Phase.sign
    ok (delta, eps)

  -- R2: the signature shares under the commitment to z = u·x.
  unfoldable pub ki_sign_round :
      Params
      → List (KiPresignature F G)
      → List (TripleShare F)
      → TriplePublic G
      → F
      → F
      → F
      → Option (PartyId × F)
      → Result (F × F)
  ki_sign_round params presigs ts public m delta eps bad = do
    z_com ← expect (ki_z_com public delta eps)
    shares ← ki_sign_shares m delta eps presigs ts
    meta ← expect (first_of presigs)
    combine_ki params meta z_com m (tamper_signing bad shares)

module _ {F G R S : Type 0} ⦃f : Field F⦄ ⦃g : Group G⦄ ⦃c : Action F G⦄ ⦃h : Hash⦄
    ⦃pe : PointEncoding G⦄ ⦃d : Digest F⦄ ⦃rng : Rng F R⦄ ⦃sg : Signatures F S⦄ where
  unfoldable pub run_sign_ki :
      Params
      → List (DkgOutput F G)
      → List (KiPresignature F G)
      → Bytes
      → List R
      → Option (KiSignTamper F)
      → Result (S × List R)
  run_sign_ki params ks presigs msg rngs tamper = do
    ensure (same_indices ks presigs)
        (invalid_params "keys/presigs must match positionally (keys[i].index == presigs[i].index)")
    let m : F = message_scalar msg
    p0 ← expect (first_of presigs)
    (triple, rngs) ← generate params (ascii "ohm-ecdsa/sign-ki/" ++ be_bytes p0.id) rngs
    one ← expect (first_of triple)
    let ts = map (λ o. o.0) triple
    (delta, eps) ← ki_open_round params.t ks presigs ts one.1 (open_fault tamper)
    rs ← ki_sign_round params presigs ts one.1 m delta eps (sign_fault tamper)
    sig ← to_signature rs
    ok (sig, rngs)

module _ {F G : Type 0} where
  unfoldable pub consumed_ki :
      KiPool F G
      → Result (KiPresignature F G)
      → List (KiPool F G)
      → List (KiPool F G) × Result (List (KiPresignature F G))
      → List (KiPool F G) × Result (List (KiPresignature F G))
  consumed_ki pool (err e) pools rest = (pool ∷ pools, err e)
  consumed_ki pool panicked pools rest = (pool ∷ pools, panicked)
  consumed_ki pool (ok p) pools (pools', rest) = (pool ∷ pools', (do ps ← rest; ok (p ∷ ps)))

  -- `for pool in pools.iter_mut() { presigs.push(pool.consume(id)?) }`
  unfoldable pub consume_pools :
      List (KiPool F G) → ℕ → List (KiPool F G) × Result (List (KiPresignature F G))
  consume_pools [] id = ([], ok [])
  consume_pools (pool ∷ pools) id =
      let (pool', out) = Ki.consume pool id in consumed_ki pool' out pools (consume_pools pools id)

module _ {F G R S : Type 0} ⦃f : Field F⦄ ⦃g : Group G⦄ ⦃c : Action F G⦄ ⦃h : Hash⦄
    ⦃pe : PointEncoding G⦄ ⦃d : Digest F⦄ ⦃rng : Rng F R⦄ ⦃sg : Signatures F S⦄ where
  unfoldable pub run_sign_ki_pooled :
      Params
      → List (DkgOutput F G)
      → List (KiPool F G)
      → ℕ
      → Bytes
      → List R
      → Option (KiSignTamper F)
      → List (KiPool F G) × Result (S × List R)
  run_sign_ki_pooled params ks pools id msg rngs tamper =
      let (pools', presigs) = consume_pools pools id in
      (pools', (do ps ← presigs; run_sign_ki params ks ps msg rngs tamper))
