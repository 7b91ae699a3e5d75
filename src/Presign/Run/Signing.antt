-- ===== src/Presign/Run/Signing.antt =====
-- From a presigning to a signature: src/protocol/presign.rs composed with src/protocol/sign.rs. The shares
-- of all parties combine, and whatever shares combine, the signature passes ECDSA verification.
use ohm_ecdsa.Prelude.{
  ℕ, ◌≤◌, ◌<◌, ◌≡◌, ◌≢◌, refl, sym, ap, ap₂, subst, ◌∙◌, List, [], ◌∷◌, Option, some, Bool-cases,
  inl, inr, true, ltb, map, length, length-map, All, All-get_elem?, get_elem?, arith,
}
use ohm_ecdsa.Core.{PartyId, Phase, Detail, text, Committee, Result, ok, ◌>>=◌}
use ohm_ecdsa.Core.Committees.{IsCommittee}
use ohm_ecdsa.Core.Sort.{IsStrict-Distinct}
use ohm_ecdsa.Field.{Field, zero_scalar, ◌⊕◌, ◌⊗◌, order}
use ohm_ecdsa.Field.Laws.{inverse, ring}
use ohm_ecdsa.Curve.{Group, Action, generator, ◌⊞◌, ◌⊡◌}
use ohm_ecdsa.Shamir.{eval_at}
use ohm_ecdsa.Shamir.Lagrange.{IsQuorum}
use ohm_ecdsa.Vss.{FeldmanCommitment, eval_at_point, add, scale, verify_share}
use ohm_ecdsa.Vss.Laws.{log_poly, length-add}
use ohm_ecdsa.Vss.Shares.{length-scale}
use ohm_ecdsa.Vss.Secret.{secret, eval_at_point-secret, secret-add, secret-scale}
use ohm_ecdsa.Open.{check_shares, finish_strict}
use ohm_ecdsa.Open.Check.{culprits}
use ohm_ecdsa.Open.Laws.{finish_strict-outcome, strict_outcome}
use ohm_ecdsa.Presign.{Presignature}
use ohm_ecdsa.Sign.{XCoordinate, SignShare, entries, sign_share, combine_at, combine_verified}
use ohm_ecdsa.Sign.Shares.{passes_linear}
use ohm_ecdsa.Sign.Combine.{combine_at_ecdsa, signature_verifies}
use ohm_ecdsa.Encoding.{Hash, PointEncoding}
use ohm_ecdsa.Rng.{Rng}
use ohm_ecdsa.Dkg.{DkgOutput}
use ohm_ecdsa.Dleq.{Digest}
use ohm_ecdsa.Presign.Run.{PresignTamper, Nonce, presign_with_committee}
use ohm_ecdsa.Presign.Run.Phases.{HoldsPresignature, IsNonce, IsPresigned}
use ohm_ecdsa.Presign.Run.Sound.{presign_with_committee-IsPresigned}

-- ECDSA verification of (r, s) for the message scalar m under the public point: r and s are not 0, and the
-- x-coordinate of s⁻¹·(m·G + r·X) is r.
abbrev pub Verifies :
    {F G : Type 0} ⦃f : Field F⦄ ⦃g : Group G⦄ ⦃c : Action F G⦄ ⦃x : XCoordinate F G⦄
    → G
    → F
    → F × F
    → Type 0
Verifies ⦃x = x⦄ public m (r, s) =
    (r ≢ zero_scalar)
    × (s ≢ zero_scalar)
    × (x.x_scalar ((generator ⊡ m ⊞ public ⊡ r) ⊡ inverse s) ≡ some r)

module _ {F G : Type 0} ⦃f : Field F⦄ ⦃g : Group G⦄ ⦃c : Action F G⦄ where
  honest_culprits :
      (cm : FeldmanCommitment G) (es : List (PartyId × F))
      → All (λ e. verify_share cm e.0 e.1 ≡ true) es
      → culprits cm es ≡ []
  honest_culprits cm [] a = refl
  honest_culprits cm (e ∷ es) (v, a) = rw (v, honest_culprits cm es a) refl

  -- Enough honest shares open the committed value.
  honest_outcome :
      (cm : FeldmanCommitment G) (x : F) (t : ℕ) (es : List (PartyId × F)) (phase : Phase)
      (detail : Detail)
      → All (λ e. verify_share cm e.0 e.1 ≡ true) es
      → t ≤ length es
      → strict_outcome cm x t es phase detail ≡ ok (eval_at (log_poly F cm) x)
  honest_outcome cm x t es phase detail a n =
      rw (honest_culprits cm es a) (elim (Bool-cases (ltb (length es) t)) [
        | inl h ↦ absurd (ground arith)
        | inr h ↦ rw h refl
      ])

module _ {F G : Type 0} ⦃f : Field F⦄ ⦃g : Group G⦄ ⦃c : Action F G⦄ ⦃x : XCoordinate F G⦄ where
  -- A pair with the record's r and k·s = m + r·x passes ECDSA verification.
  pub equation-Verifies :
      (t : ℕ) (nonce : Nonce F G) (sound : IsNonce t nonce) (key_com : FeldmanCommitment G) (m : F)
      (sig : F × F)
      → sig.0 ≡ nonce.r
      → sound.k ⊗ sig.1 ≡ m ⊕ sig.0 ⊗ secret F key_com
      → sig.1 ≢ zero_scalar
      → Verifies (eval_at_point key_com (zero_scalar {F = F})) m sig
  equation-Verifies t nonce sound key_com m sig r ks ne = (
    λ z. sound.nonzero (sym r ∙ z),
    ne,
    ap x.x_scalar (
          ap (λ q. (generator ⊡ m ⊞ q ⊡ sig.0) ⊡ inverse sig.1) (eval_at_point-secret F key_com)
          ∙ signature_verifies G sound.k m sig.0 sig.1 (secret F key_com) ks ne
          ∙ sym sound.point)
        ∙ (sound.x_coordinate ∙ ap some (sym r)),
  )

module _ {F G : Type 0} ⦃f : Field F⦄ ⦃g : Group G⦄ ⦃c : Action F G⦄ ⦃x : XCoordinate F G⦄ (t : ℕ)
    (ids : List PartyId) (key_com : FeldmanCommitment G) (out : List (Presignature F G))
    (presigned : IsPresigned t ids key_com out) (m : F) where
  unfoldable pub signing_com : FeldmanCommitment G
  signing_com = add (scale presigned.nonce.u_com m) (scale presigned.z_com presigned.nonce.r)

  pub length-signing_com : length signing_com.points ≤ t
  unfolding signing_com
  length-signing_com =
      length-add _ _ t (omega (arith, length-scale presigned.nonce.u_com m, presigned.sound.degree))
        (omega (arith, length-scale presigned.z_com presigned.nonce.r, presigned.degree))

  -- The signing commitment is to s = k⁻¹·(m + r·x).
  pub signing_secret :
      secret F signing_com
      ≡ secret F presigned.nonce.u_com ⊗ (m ⊕ presigned.nonce.r ⊗ secret F key_com)
  unfolding signing_com
  signing_secret =
      secret-add _ _
      ∙ (ap₂ ◌⊕◌ (secret-scale _ m)
            (secret-scale _ presigned.nonce.r ∙ ap (λ z. z ⊗ presigned.nonce.r) presigned.bound)
          ∙ simp ring)

  -- Every party's signature share passes.
  pub shares_pass :
      (ps : List (Presignature F G))
      → All (HoldsPresignature presigned.nonce presigned.z_com) ps
      → All (λ e. verify_share signing_com e.0 e.1 ≡ true) (entries (map (λ p. sign_share p m) ps))
  unfolding signing_com sign_share
  shares_pass [] a = tt
  shares_pass (p ∷ ps) ((er, _, _, _, vu, vz), a) = (
    rw er (
        passes_linear presigned.nonce.u_com presigned.z_com p.index p.u_share p.z_share m
          presigned.nonce.r vu vz),
    shares_pass ps a,
  )

  pub senders :
      (ps : List (Presignature F G))
      → map (λ e. e.0) (entries (map (λ p. sign_share p m) ps)) ≡ map (λ p. p.index) ps
  unfolding sign_share
  senders [] = refl
  senders (p ∷ ps) = ap (λ is. p.index ∷ is) (senders ps)

  -- The record of any party describes the same signature.
  pub combined_com :
      (p : Presignature F G)
      → HoldsPresignature presigned.nonce presigned.z_com p
      → add (scale p.u_com m) (scale p.z_com p.r) ≡ signing_com
  unfolding signing_com
  combined_com p (er, _, eu, ez, _, _) = λ i. add (scale (eu i) m) (scale (ez i) (er i))

  honest_signing :
      (i : ℕ) (p : Presignature F G)
      → IsQuorum F ids
      → t ≤ length ids
      → get_elem? out i ≡ some p
      → combine_at t zero_scalar p m (map (λ p. sign_share p m) out)
        ≡ ok (p.r, secret F p.u_com ⊗ (m ⊕ p.r ⊗ secret F key_com))
  unfolding combine_at combine_verified
  honest_signing i p quorum n at =
      let hold = All-get_elem? _ out i presigned.held at in
      let es = entries (map (λ p. sign_share p m) out) in
      let who : map (λ e. e.0) es ≡ ids = senders out ∙ presigned.indices in
      let opened : finish_strict zero_scalar t Phase.sign
            (text "signature share failed commitment check") (check_shares signing_com es)
          ≡ ok (secret F signing_com) =
        finish_strict-outcome signing_com zero_scalar t es Phase.sign _
          (subst (IsQuorum F) (sym who) quorum) length-signing_com
        ∙ honest_outcome signing_com zero_scalar t es Phase.sign _ (shares_pass out presigned.held)
            (omega (arith, length-map es (λ (e : PartyId × F). e.0), ap length who)) in
      ap (λ d. combine_verified t zero_scalar p.r d (map (λ p. sign_share p m) out))
        (combined_com p hold)
      ∙ (ap (λ (o : Result F). o >>= (λ s. ok (p.r, s))) opened
          ∙ ap (λ s. ok (p.r, s))
              (signing_secret
                ∙ ap₂ (λ (d : FeldmanCommitment G) (r : F). secret F d ⊗ (m ⊕ r ⊗ secret F key_com))
                    (sym hold.2) (sym hold.0)))

  pub any_signing :
      (i : ℕ) (p : Presignature F G) (shares : List (SignShare F)) (sig : F × F)
      → IsQuorum F (map (λ e. e.0) (entries shares))
      → get_elem? out i ≡ some p
      → combine_at t zero_scalar p m shares ≡ ok sig
      → sig.1 ≢ zero_scalar
      → Verifies (eval_at_point key_com (zero_scalar {F = F})) m sig
  any_signing i p shares sig quorum at e ne =
      let (er, eb, eu, ez, _, _) = All-get_elem? _ out i presigned.held at in
      let nonce = presigned.nonce in
      let (sr, ks) =
        combine_at_ecdsa t zero_scalar p m presigned.sound.k (secret F nonce.u_com)
          (secret F presigned.z_com) (secret F key_com) shares
          (ap (λ (d : FeldmanCommitment G). eval_at_point d (zero_scalar {F = F})) eu
            ∙ eval_at_point-secret F nonce.u_com)
          (ap (λ (d : FeldmanCommitment G). eval_at_point d (zero_scalar {F = F})) ez
            ∙ eval_at_point-secret F presigned.z_com)
          presigned.sound.inverse presigned.bound
          (subst (λ (d : FeldmanCommitment G). length d.points ≤ t) (sym eu) presigned.sound.degree)
          (subst (λ (d : FeldmanCommitment G). length d.points ≤ t) (sym ez) presigned.degree)
          quorum e in
      equation-Verifies t nonce presigned.sound key_com m sig (sr ∙ er) ks ne

module _ {F G R : Type 0} ⦃f : Field F⦄ ⦃g : Group G⦄ ⦃c : Action F G⦄ ⦃h : Hash⦄
    ⦃pe : PointEncoding G⦄ ⦃d : Digest F⦄ ⦃rng : Rng F R⦄ ⦃x : XCoordinate F G⦄ where
  -- For a valid committee with ids below the field's order and a key commitment of at most t points: from a
  -- presigning that succeeds, the signature shares of all parties combine under the record of any party, to r
  -- and u·(m + r·x), for the committed u and x.
  pub presign-combine_at :
      (committee : Committee) (key0 : DkgOutput F G) (kr : List (DkgOutput F G)) (id : ℕ)
      (rngs : List R) (tamper : Option PresignTamper) (out : List (Presignature F G)) (m : F)
      (i : ℕ) (p : Presignature F G) {rngs' : List R}
      → IsCommittee committee.ids committee.t
      → All (λ p. p < order F) committee.ids
      → length key0.cm.points ≤ committee.t
      → presign_with_committee committee (key0 ∷ kr) id rngs tamper ≡ ok (out, rngs')
      → get_elem? out i ≡ some p
      → combine_at committee.t zero_scalar p m (map (λ p. sign_share p m) out)
        ≡ ok (p.r, secret F p.u_com ⊗ (m ⊕ p.r ⊗ secret F key0.cm))
  presign-combine_at committee key0 kr id rngs tamper out m i p cm b lk e at =
      honest_signing committee.t committee.ids key0.cm out
        (presign_with_committee-IsPresigned committee key0 kr id rngs tamper out cm b lk e) m i p
        (IsStrict-Distinct committee.ids cm.strict, b)
        (omega (arith, cm.threshold, cm.honest_majority)) at

  -- For a valid committee with ids below the field's order and a key commitment of at most t points: when any
  -- shares of distinct senders combine under a party's record of a presigning that succeeds, and s ≠ 0, the
  -- signature passes ECDSA verification under the key's public point.
  pub presign-Verifies :
      (committee : Committee) (key0 : DkgOutput F G) (kr : List (DkgOutput F G)) (id : ℕ)
      (rngs : List R) (tamper : Option PresignTamper) (out : List (Presignature F G)) (m : F)
      (i : ℕ) (p : Presignature F G) (shares : List (SignShare F)) (sig : F × F) {rngs' : List R}
      → IsCommittee committee.ids committee.t
      → All (λ p. p < order F) committee.ids
      → length key0.cm.points ≤ committee.t
      → presign_with_committee committee (key0 ∷ kr) id rngs tamper ≡ ok (out, rngs')
      → get_elem? out i ≡ some p
      → IsQuorum F (map (λ e. e.0) (entries shares))
      → combine_at committee.t zero_scalar p m shares ≡ ok sig
      → sig.1 ≢ zero_scalar
      → Verifies (eval_at_point key0.cm (zero_scalar {F = F})) m sig
  presign-Verifies committee key0 kr id rngs tamper out m i p shares sig cm b lk e at quorum s ne =
      any_signing committee.t committee.ids key0.cm out
        (presign_with_committee-IsPresigned committee key0 kr id rngs tamper out cm b lk e) m i p
        shares sig quorum at s ne
