-- ===== src/Presign/Ki/Sound.antt =====
-- Key-independent presigning: what the parties hold when it succeeds, and the signatures from it. Signing
-- with such a record is `combine_ki` of src/protocol/sign.rs, over the z that the signing rounds form online.
use ohm_ecdsa.Prelude.{
  ℕ, ◌≤◌, ◌<◌, ◌≡◌, refl, sym, ap, subst, ◌∙◌, List, [], ◌∷◌, Option, true, not, ltb, map, length,
  All, arith,
}
use ohm_ecdsa.Core.{PartyId, Phase, Committee, ok, ensure, >>=-eq-ok, ok_injective}
use ohm_ecdsa.Core.Committees.{IsCommittee}
use ohm_ecdsa.Core.Sort.{IsStrict-Distinct}
use ohm_ecdsa.Field.{Field, order}
use ohm_ecdsa.Curve.{Group, Action}
use ohm_ecdsa.Encoding.{Hash, PointEncoding}
use ohm_ecdsa.Rng.{Rng}
use ohm_ecdsa.Shamir.Lagrange.{IsQuorum}
use ohm_ecdsa.Vss.{FeldmanCommitment, verify_share}
use ohm_ecdsa.Dkg.{DkgOutput}
use ohm_ecdsa.Dkg.Rounds.Sound.{IsSharing}
use ohm_ecdsa.Dleq.{Digest}
use ohm_ecdsa.Triples.{joint_random, generate_with_committee}
use ohm_ecdsa.Triples.Dealing.{joint_random-IsSharing}
use ohm_ecdsa.Triples.Generate.{IsTriple, generate_with_committee-IsTriple}
use ohm_ecdsa.Presign.{KiPresignature, TripleShare, TriplePublic}
use ohm_ecdsa.Sign.{XCoordinate}
use ohm_ecdsa.Presign.Run.{PresignTamper, Nonce, nonce_phase}
use ohm_ecdsa.Presign.Run.Phases.{IsNonce, nonce_phase_lem, nonce_phase_ok}
use ohm_ecdsa.Presign.Ki.{ki_presignatures, presign_ki_with_committee}

module _ {F G : Type 0} ⦃f : Field F⦄ ⦃g : Group G⦄ ⦃c : Action F G⦄ where
  -- A party's record is of this nonce, with a share that passes.
  abbrev pub HoldsKi : Nonce F G → KiPresignature F G → Type 0
  HoldsKi nonce p =
      (p.r ≡ nonce.r)
      × (p.big_r ≡ nonce.big_r)
      × (p.u_com ≡ nonce.u_com)
      × (verify_share nonce.u_com p.index p.u_share ≡ true)

  -- The parties ids hold one key-independent presignature.
  pub record IsKiPresigned ⦃x : XCoordinate F G⦄ (t : ℕ) (ids : List PartyId)
      (out : List (KiPresignature F G)) : Type 0 where
    pub nonce : Nonce F G
    pub indices : map (λ p. p.index) out ≡ ids
    pub held : All (HoldsKi nonce) out
    pub sound : IsNonce t nonce

  ki_presignatures_lem :
      (id : ℕ) (nonce : Nonce F G) (ids : List PartyId) (us : List (DkgOutput F G))
      {out : List (KiPresignature F G)}
      → map (λ o. o.index) us ≡ ids
      → All (λ o. (o.cm ≡ nonce.u_com) × (verify_share nonce.u_com o.index o.share ≡ true)) us
      → ki_presignatures id nonce ids (map (λ o. o.share) us) ≡ ok out
      → (map (λ p. p.index) out ≡ ids) × All (HoldsKi nonce) out
  unfolding ki_presignatures
  ki_presignatures_lem id nonce [] us mu au e =
      subst
        (λ (out : List (KiPresignature F G)).
          (map (λ p. p.index) out ≡ []) × All (HoldsKi nonce) out)
        (ok_injective e) (refl, tt)
  ki_presignatures_lem id nonce (j ∷ js) [] mu au e = cc
  ki_presignatures_lem id nonce (j ∷ js) (u ∷ us) mu (vu, au) e =
      let (rest, p, q) = >>=-eq-ok (ki_presignatures id nonce js (map (λ o. o.share) us)) _ e in
      let iu : u.index ≡ j = cc mu in
      let (m, a) = ki_presignatures_lem id nonce js us (cc mu) au p in
      subst
        (λ (out : List (KiPresignature F G)).
          (map (λ p. p.index) out ≡ j ∷ js) × All (HoldsKi nonce) out)
        (ok_injective q)
        (
          ap (λ js. j ∷ js) m,
          ((refl, refl, refl, subst (λ i. verify_share nonce.u_com i u.share ≡ true) iu vu.1), a),
        )

module _ {F G : Type 0} ⦃f : Field F⦄ ⦃g : Group G⦄ ⦃c : Action F G⦄ ⦃x : XCoordinate F G⦄ where
  -- From the sharings and the triple of the dealing phases.
  ki_phases_lem :
      (committee : Committee) (id : ℕ) (t1 : List (TripleShare F × TriplePublic G))
      (us as' : List (DkgOutput F G)) (tamper : Option PresignTamper) (nonce : Nonce F G)
      {out : List (KiPresignature F G)}
      → IsQuorum F committee.ids
      → committee.t ≤ length committee.ids
      → ((o : TripleShare F × TriplePublic G) (rest : List (TripleShare F × TriplePublic G))
          → t1 ≡ o ∷ rest
          → IsTriple committee.t committee.ids o.1 (o ∷ rest))
      → ((o : DkgOutput F G) (rest : List (DkgOutput F G))
          → us ≡ o ∷ rest
          → IsSharing committee.t committee.ids o.cm (o ∷ rest))
      → ((o : DkgOutput F G) (rest : List (DkgOutput F G))
          → as' ≡ o ∷ rest
          → IsSharing committee.t committee.ids o.cm (o ∷ rest))
      → nonce_phase committee t1 tamper us as' ≡ ok nonce
      → ki_presignatures id nonce committee.ids nonce.u_shares ≡ ok out
      → IsKiPresigned committee.t committee.ids out
  ki_phases_lem committee id t1 us as' tamper nonce quorum n h1 hu ha p q =
      let (one, u0, a0, tr, ur, ar, m1, mu, ma) =
        nonce_phase_ok committee quorum t1 tamper us as' p in
      let su = hu u0 ur mu in
      let (same, mc, sound) =
        nonce_phase_lem committee quorum one tr tamper u0 a0 ur ar n (h1 one tr m1) su.degree
          (ha a0 ar ma).degree (sym (λ i. nonce_phase committee (m1 i) tamper (mu i) (ma i)) ∙ p) in
      let (is, hs) =
        ki_presignatures_lem id nonce committee.ids (u0 ∷ ur) su.indices
          (subst (λ (d : FeldmanCommitment G). IsSharing committee.t committee.ids d (u0 ∷ ur))
            (sym mc) su).held
          (sym (ap (ki_presignatures id nonce committee.ids) same) ∙ q) in
      record { nonce = nonce; indices = is; held = hs; sound = sound }

module _ {F G R : Type 0} ⦃f : Field F⦄ ⦃g : Group G⦄ ⦃c : Action F G⦄ ⦃h : Hash⦄
    ⦃pe : PointEncoding G⦄ ⦃d : Digest F⦄ ⦃rng : Rng F R⦄ ⦃x : XCoordinate F G⦄ where
  -- For a valid committee with ids below the field's order: a key-independent presigning that succeeds, with any
  -- fault injection, leaves shares of u = k⁻¹
  -- that pass their checks, for the nonce point of k and its x-coordinate, which is not 0.
  pub presign_ki_with_committee-IsKiPresigned :
      (committee : Committee) (id : ℕ) (rngs : List R) (tamper : Option PresignTamper)
      (out : List (KiPresignature F G)) {rngs' : List R}
      → IsCommittee committee.ids committee.t
      → All (λ p. p < order F) committee.ids
      → presign_ki_with_committee committee id rngs tamper ≡ ok (out, rngs')
      → IsKiPresigned committee.t committee.ids out
  unfolding presign_ki_with_committee
  presign_ki_with_committee-IsKiPresigned committee id rngs tamper out cm b e =
      let (u, p0, e0) = >>=-eq-ok (ensure (not (ltb (length rngs) (length committee.ids))) _) _ e in
      let ((t1, r1), p1, e1) = >>=-eq-ok (generate_with_committee committee _ rngs _) _ e0 in
      let ((us, r3), p3, e3) = >>=-eq-ok (joint_random committee _ r1 Phase.presign) _ e1 in
      let ((as', r4), p4, e4) = >>=-eq-ok (joint_random committee _ r3 Phase.presign) _ e3 in
      let (nonce, p5, e5) = >>=-eq-ok (nonce_phase committee t1 tamper us as') _ e4 in
      let (presigs, p6, e6) =
        >>=-eq-ok (ki_presignatures id nonce committee.ids nonce.u_shares) _ e5 in
      let quorum : IsQuorum F committee.ids = (IsStrict-Distinct committee.ids cm.strict, b) in
      let same : presigs ≡ out =
        ap (λ (t : List (KiPresignature F G) × List R). t.0) (ok_injective e6) in
      subst (IsKiPresigned committee.t committee.ids) same (
        ki_phases_lem committee id t1 us as' tamper nonce quorum
          (omega (arith, cm.threshold, cm.honest_majority))
          (λ o rest m.
            generate_with_committee-IsTriple committee _ rngs _ o rest quorum cm.threshold
              cm.honest_majority (p1 ∙ ap (λ t. ok (t, r1)) m))
          (λ o rest m.
            joint_random-IsSharing committee _ r1 Phase.presign o rest
              (p3 ∙ ap (λ t. ok (t, r3)) m))
          (λ o rest m.
            joint_random-IsSharing committee _ r3 Phase.presign o rest
              (p4 ∙ ap (λ t. ok (t, r4)) m))
          p5 p6)
