-- ===== src/Blame/Sound.antt =====
-- `BlameToken::verify` of src/runtime/transport.rs: what an accepted token shows, and that an honest party is never
-- blamed by one.
use ohm_ecdsa.Prelude.{
  ℕ, ◌≡◌, refl, sym, ap, subst, ◌∙◌, List, [], ◌∷◌, Option, none, some, true, false, Bool-cases,
  inl, inr, ◌==◌, if◌then◌else◌, ==_iff, get_elem?, All, All-get_elem?, not, arith,
}
use ohm_ecdsa.Core.{PartyId}
use ohm_ecdsa.Field.{Field}
use ohm_ecdsa.Curve.{Group, Action}
use ohm_ecdsa.Encoding.{Bytes, ScalarEncoding, PointEncoding}
use ohm_ecdsa.Vss.{verify_share}
use ohm_ecdsa.Dkg.{DkgP2P}
use ohm_ecdsa.Wire.{phase_code}
use ohm_ecdsa.Wire.Messages.{DkgMessage, commit, reveal_of, share_of, message_codec}
use ohm_ecdsa.Wire.Envelopes.{Envelope, Fits, signing_bytes, signing_bytes_injective}
use ohm_ecdsa.Blame.{
  Verifier, BlameToken, is_only, find_key, verify_signature, check_evidence, verify_token,
}

module _ {F G VK S : Type 0} ⦃f : Field F⦄ ⦃g : Group G⦄ ⦃c : Action F G⦄ ⦃e : ScalarEncoding F⦄
    ⦃pe : PointEncoding G⦄ ⦃s : Verifier VK S⦄ where
  -- What an accepted token shows.
  record IsEvidence (transport_sign : Bytes) (token : BlameToken F G S)
      (party_keys : List (PartyId × VK)) : Type 0 where
    share : DkgP2P F
    key : VK
    blames : is_only token.report.blamed token.envelope.envelope.from ≡ true
    in_phase : phase_code token.report.phase ≡ phase_code token.envelope.envelope.phase
    carries : token.envelope.envelope.payload ≡ share_of share
    keyed : find_key party_keys token.envelope.envelope.from ≡ some key
    signed : verify_signature transport_sign token.envelope key ≡ true
    bad : verify_share token.cm share.to share.share ≡ false

  check_evidence_share :
      (transport_sign : Bytes) (token : BlameToken F G S) (party_keys : List (PartyId × VK))
      (m : DkgMessage F G)
      → check_evidence transport_sign token party_keys m ≡ true
      → (share : DkgP2P F) × (key : VK) × (m ≡ share_of share)
        × (find_key party_keys token.envelope.envelope.from ≡ some key)
        × (verify_signature transport_sign token.envelope key ≡ true)
        × (verify_share token.cm share.to share.share ≡ false)
  unfolding check_evidence
  check_evidence_share transport_sign token party_keys (commit b) h = cc
  check_evidence_share transport_sign token party_keys (reveal_of b) h = cc
  check_evidence_share transport_sign token party_keys (share_of share) h =
      elim (Bool-cases (share.from == token.envelope.envelope.from)) [
        | inr t ↦ cc (rw t at h)
        | inl t ↦
            let same : share.from ≡ token.envelope.envelope.from = (==_iff _ _).0 t in
            let (key, k, v, b) = by_key (find_key party_keys share.from) (rw t at h) in
            (share, key, refl, ap (find_key party_keys) (sym same) ∙ k, v, b)
      ]
    where
      by_key :
          (o : Option VK)
          → (elim o [
            | none ↦ false
            | some key ↦
                if verify_signature transport_sign token.envelope key
                then not (verify_share token.cm share.to share.share)
                else false
          ])
            ≡ true
          → (key : VK) × (o ≡ some key)
            × (verify_signature transport_sign token.envelope key ≡ true)
            × (verify_share token.cm share.to share.share ≡ false)
      by_key none q = cc q
      by_key (some key) q = (key, refl, ground (arith, q), ground (arith, q))

  verify_token-IsEvidence :
      (transport_sign : Bytes) (token : BlameToken F G S) (party_keys : List (PartyId × VK))
      → verify_token transport_sign token party_keys ≡ true
      → IsEvidence transport_sign token party_keys
  unfolding verify_token
  verify_token-IsEvidence transport_sign token party_keys h =
      elim (Bool-cases (is_only token.report.blamed token.envelope.envelope.from)) [
        | inr t ↦ cc (rw t at h)
        | inl t ↦
            elim (Bool-cases
              (phase_code token.report.phase == phase_code token.envelope.envelope.phase)) [
                | inr u ↦ cc (rw (t, u) at h)
                | inl u ↦
                    let (share, key, p, k, v, b) =
                      check_evidence_share transport_sign token party_keys
                        token.envelope.envelope.payload (rw (t, u) at h) in
                    record {
                      share = share;
                      key = key;
                      blames = t;
                      in_phase = (==_iff _ _).0 u;
                      carries = p;
                      keyed = k;
                      signed = v;
                      bad = b;
                    }
              ]
      ]

  pub verify_token_honest :
      (transport_sign : Bytes) (token : BlameToken F G S) (party_keys : List (PartyId × VK))
      (p : PartyId) (key : VK) (sent : List (Envelope (DkgMessage F G)))
      → find_key party_keys p ≡ some key
      → ((m : Bytes) (sig : S)
          → s.verify_bytes key m sig ≡ true
          → (k : ℕ) × (env : Envelope (DkgMessage F G)) × (get_elem? sent k ≡ some env)
            × (m ≡ signing_bytes transport_sign env))
      → All
          (λ env.
            (share : DkgP2P F)
            → phase_code env.phase ≡ phase_code token.report.phase
            → env.payload ≡ share_of share
            → verify_share token.cm share.to share.share ≡ true)
          sent
      → All Fits sent
      → Fits token.envelope.envelope
      → token.report.blamed ≡ p ∷ []
      → verify_token transport_sign token party_keys ≡ false
  unfolding verify_signature
  verify_token_honest transport_sign token party_keys p key sent registered unforgeable honest fits
        fit alone =
      elim (Bool-cases (verify_token transport_sign token party_keys)) [
        | inr t ↦ t
        | inl t ↦
            let w = verify_token-IsEvidence transport_sign token party_keys t in
            let sender : p ≡ token.envelope.envelope.from =
              (==_iff _ _).0
                (ap (λ ps. is_only ps token.envelope.envelope.from) (sym alone) ∙ w.blames) in
            let keys : some key ≡ some w.key =
              sym registered ∙ (ap (find_key party_keys) sender ∙ w.keyed) in
            let same_key : w.key ≡ key = cc keys in
            let (k, env, at_k, bytes) =
              unforgeable (signing_bytes transport_sign token.envelope.envelope)
                token.envelope.signature
                (subst
                  (λ q.
                    s.verify_bytes q (signing_bytes transport_sign token.envelope.envelope)
                      token.envelope.signature
                    ≡ true)
                  same_key w.signed) in
            let same : env ≡ token.envelope.envelope = sym (
              signing_bytes_injective transport_sign token.envelope.envelope env fit
                (All-get_elem? Fits sent k fits at_k) bytes) in
            let passes =
              All-get_elem? _ sent k honest at_k w.share
                (ap (λ (d : Envelope (DkgMessage F G)). phase_code d.phase) same ∙ sym w.in_phase)
                (ap (λ (d : Envelope (DkgMessage F G)). d.payload) same ∙ w.carries) in
            cc (sym passes ∙ w.bad)
      ]
