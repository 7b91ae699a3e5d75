-- ===== src/Blame.antt =====
-- src/runtime/transport.rs: signed envelopes, and the blame token that an auditor checks offline.
mod Sound
mod Tests
use ohm_ecdsa.Prelude.{
  ℕ, ◌≡◌, refl, ap, List, [], ◌∷◌, Option, none, some, Bool, true, false, Bool-cases, inl, inr, not,
  ◌==◌, if◌then◌else◌, ==_iff, arith,
}
use ohm_ecdsa.Core.{PartyId, Phase, IdentifiableAbort}
use ohm_ecdsa.Core.Map.{Map, get}
use ohm_ecdsa.Field.{Field}
use ohm_ecdsa.Curve.{Group, Action}
use ohm_ecdsa.Encoding.{Bytes, ScalarEncoding, PointEncoding}
use ohm_ecdsa.Vss.{FeldmanCommitment, verify_share}
use ohm_ecdsa.Dkg.{DkgP2P}
use ohm_ecdsa.Wire.{phase_code}
use ohm_ecdsa.Wire.Messages.{DkgMessage, commit, reveal_of, share_of, Codec, message_codec}
use ohm_ecdsa.Wire.Envelopes.{Envelope, signing_bytes}

-- ECDSA of `k256` over bytes: signing with a secret key, and the check under a public key.
pub record Signer (SK S : Type 0) : Type 0 where
  pub sign_bytes : SK → Bytes → S

pub record Verifier (VK S : Type 0) : Type 0 where
  pub verify_bytes : VK → Bytes → S → Bool

pub record SignedEnvelope (M S : Type 0) : Type 0 where
  pub envelope : Envelope M
  pub signature : S

module _ {M SK S : Type 0} ⦃c : Codec M⦄ ⦃s : Signer SK S⦄ where
  unfoldable pub sign : Bytes → Envelope M → SK → SignedEnvelope M S
  sign transport_sign envelope key = record {
    envelope = envelope;
    signature = s.sign_bytes key (signing_bytes transport_sign envelope);
  }

module _ {M VK S : Type 0} ⦃c : Codec M⦄ ⦃s : Verifier VK S⦄ where
  unfoldable pub verify_signature : Bytes → SignedEnvelope M S → VK → Bool
  verify_signature transport_sign env key =
      s.verify_bytes key (signing_bytes transport_sign env.envelope) env.signature

pub record BlameToken (F G S : Type 0) : Type 0 where
  pub report : IdentifiableAbort
  pub envelope : SignedEnvelope (DkgMessage F G) S
  pub cm : FeldmanCommitment G

-- `blamed == [from]`
abbrev pub is_only : List PartyId → PartyId → Bool
is_only (p ∷ []) q = p == q
is_only _ q = false

-- The first key of the party, as `iter().find` returns it.
abbrev pub find_key : {VK : Type 0} → List (PartyId × VK) → PartyId → Option VK
find_key keys p = get p keys

module _ {F G VK S : Type 0} ⦃f : Field F⦄ ⦃g : Group G⦄ ⦃c : Action F G⦄ ⦃e : ScalarEncoding F⦄
    ⦃pe : PointEncoding G⦄ ⦃s : Verifier VK S⦄ where
  -- The evidence is a share of the blamed dealer, signed with its key, that fails the check.
  unfoldable pub check_evidence :
      Bytes → BlameToken F G S → List (PartyId × VK) → DkgMessage F G → Bool
  check_evidence transport_sign token party_keys (commit b) = false
  check_evidence transport_sign token party_keys (reveal_of b) = false
  check_evidence transport_sign token party_keys (share_of share) =
      if share.from == token.envelope.envelope.from
      then elim (find_key party_keys share.from) [
        | none ↦ false
        | some key ↦
            if verify_signature transport_sign token.envelope key
            then not (verify_share token.cm share.to share.share)
            else false
      ]
      else false

  unfoldable pub verify_token : Bytes → BlameToken F G S → List (PartyId × VK) → Bool
  unfolding check_evidence
  verify_token transport_sign token party_keys =
      if is_only token.report.blamed token.envelope.envelope.from
      then (if phase_code token.report.phase == phase_code token.envelope.envelope.phase
          then check_evidence transport_sign token party_keys token.envelope.envelope.payload
          else false)
      else false
