-- ===== src/Presign/Ki.antt =====
-- The key-independent presigning of src/protocol/presign.rs: P1 to P3 of `presign_with_committee` over one
-- triple, and no P4.
pub mod Sound
mod Tests
use ohm_ecdsa.Prelude.{ℕ, List, [], ◌∷◌, ◌++◌, Option, none, some, not, ltb, length}
use ohm_ecdsa.Core.{
  PartyId, Phase, invalid_params, Committee, Params, full, Result, ok, panicked, ensure, ◌>>=◌,
  ◌>>◌,
}
use ohm_ecdsa.Core.Tags.{ascii, decimal}
use ohm_ecdsa.Field.{Field}
use ohm_ecdsa.Curve.{Group, Action}
use ohm_ecdsa.Encoding.{Hash, PointEncoding}
use ohm_ecdsa.Rng.{Rng}
use ohm_ecdsa.Dleq.{Digest}
use ohm_ecdsa.Triples.{joint_random, generate_with_committee}
use ohm_ecdsa.Presign.{KiPresignature}
use ohm_ecdsa.Sign.{XCoordinate}
use ohm_ecdsa.Presign.Run.{PresignTamper, Nonce, nonce_phase}

module _ {F G : Type 0} where
  -- `(0..n).map(|k| KiPresignature { … })`
  unfoldable pub ki_presignatures :
      ℕ → Nonce F G → List PartyId → List F → Result (List (KiPresignature F G))
  ki_presignatures id nonce [] us = ok []
  ki_presignatures id nonce (j ∷ js) [] = panicked
  ki_presignatures id nonce (j ∷ js) (u ∷ us) = do
    rest ← ki_presignatures id nonce js us
    ok (
        record {
          id = id;
          index = j;
          r = nonce.r;
          big_r = nonce.big_r;
          u_share = u;
          u_com = nonce.u_com;
        }
        ∷ rest)

module _ {F G R : Type 0} ⦃f : Field F⦄ ⦃g : Group G⦄ ⦃c : Action F G⦄ ⦃h : Hash⦄
    ⦃pe : PointEncoding G⦄ ⦃d : Digest F⦄ ⦃rng : Rng F R⦄ ⦃x : XCoordinate F G⦄ where
  unfoldable pub presign_ki_with_committee :
      Committee → ℕ → List R → Option PresignTamper → Result (List (KiPresignature F G) × List R)
  presign_ki_with_committee committee id rngs tamper = do
    ensure (not (ltb (length rngs) (length committee.ids)))
        (invalid_params "rngs must cover the committee")
    let sid = ascii "ohm-ecdsa/presign-ki/" ++ decimal id
    (t1, rngs) ←
        generate_with_committee committee (sid ++ ascii "/t1") rngs
          (elim tamper [ none ↦ none | some p ↦ p.triple_tamper ])
    (u_out, rngs) ← joint_random committee (sid ++ ascii "/u") rngs Phase.presign
    (a_out, rngs) ← joint_random committee (sid ++ ascii "/a") rngs Phase.presign
    nonce ← nonce_phase committee t1 tamper u_out a_out
    presigs ← ki_presignatures id nonce committee.ids nonce.u_shares
    ok (presigs, rngs)

  unfoldable pub presign_ki :
      Params → ℕ → List R → Option PresignTamper → Result (List (KiPresignature F G) × List R)
  presign_ki params id rngs tamper = do
    committee ← full params
    presign_ki_with_committee committee id rngs tamper
