-- ===== src/Presign/Run/Phases.antt =====
-- The phases of a presigning in src/protocol/presign.rs: what P2 and P3 leave, and what P4 makes of it.
use ohm_ecdsa.Prelude.{
  ℕ, ◌≤◌, ◌≡◌, ◌≢◌, refl, sym, ap, subst, ◌∙◌, List, [], ◌∷◌, Option, some, true, map, length, All,
  arith,
}
use ohm_ecdsa.Core.{PartyId, Committee, ok, expect, >>=-eq-ok, ok_injective, expect-eq-ok}
use ohm_ecdsa.Field.{Field, zero_scalar, one_scalar, ◌⊗◌}
use ohm_ecdsa.Field.Laws.{mul_comm, mul_assoc}
use ohm_ecdsa.Curve.{Group, Action, generator, ◌⊡◌}
use ohm_ecdsa.Shamir.Lagrange.{IsQuorum}
use ohm_ecdsa.Vss.{FeldmanCommitment, verify_share}
use ohm_ecdsa.Vss.Secret.{secret}
use ohm_ecdsa.Dkg.{DkgOutput}
use ohm_ecdsa.Dkg.Rounds.Sound.{IsSharing}
use ohm_ecdsa.Triples.Generate.{HoldsTriple, IsTriple}
use ohm_ecdsa.Presign.{Presignature, TripleShare, TriplePublic}
use ohm_ecdsa.Sign.{XCoordinate, ki_z_share, ki_z_com}
use ohm_ecdsa.Sign.Shares.{ki_z_share_passes}
use ohm_ecdsa.Presign.Run.{
  PresignTamper, Nonce, open_masked, open_v, nonce_of, nonce_phase, presignatures, bind_key,
}
use ohm_ecdsa.Presign.Run.Values.{open_masked_lem, ki_z_com_lem}
use ohm_ecdsa.Presign.Run.Beaver.{open_v_lem}
use ohm_ecdsa.Presign.Run.NoncePoint.{nonce_of_lem}

module _ {F G : Type 0} ⦃f : Field F⦄ ⦃g : Group G⦄ ⦃c : Action F G⦄ where
  -- A party's record is of this nonce and this z, with shares that pass.
  abbrev pub HoldsPresignature : Nonce F G → FeldmanCommitment G → Presignature F G → Type 0
  HoldsPresignature nonce z_com p =
      (p.r ≡ nonce.r)
      × (p.big_r ≡ nonce.big_r)
      × (p.u_com ≡ nonce.u_com)
      × (p.z_com ≡ z_com)
      × (verify_share nonce.u_com p.index p.u_share ≡ true)
      × (verify_share z_com p.index p.z_share ≡ true)

  -- What the sharings of a nonce are: u is the inverse of the k of the nonce point.
  pub record IsNonce ⦃x : XCoordinate F G⦄ (t : ℕ) (nonce : Nonce F G) : Type 0 where
    pub k : F
    pub inverse : k ⊗ secret F nonce.u_com ≡ one_scalar
    pub point : nonce.big_r ≡ generator ⊡ k
    pub x_coordinate : x.x_scalar nonce.big_r ≡ some nonce.r
    pub nonzero : nonce.r ≢ zero_scalar
    pub degree : length nonce.u_com.points ≤ t

  pub presignatures_lem :
      (id : ℕ) (nonce : Nonce F G) (public : TriplePublic G) (z_com : FeldmanCommitment G)
      (delta eps : F) (ids : List PartyId) (us : List (DkgOutput F G))
      (ts : List (TripleShare F × TriplePublic G)) {out : List (Presignature F G)}
      → ki_z_com public delta eps ≡ some z_com
      → map (λ o. o.index) us ≡ ids
      → All (λ o. (o.cm ≡ nonce.u_com) × (verify_share nonce.u_com o.index o.share ≡ true)) us
      → map (λ o. o.0.index) ts ≡ ids
      → All (HoldsTriple public) ts
      → presignatures id nonce z_com delta eps ids (map (λ o. o.share) us) (map (λ p. p.0) ts)
        ≡ ok out
      → (map (λ p. p.index) out ≡ ids) × All (HoldsPresignature nonce z_com) out
  unfolding presignatures
  presignatures_lem id nonce public z_com delta eps [] us ts z mu au mt at e =
      subst
        (λ (out : List (Presignature F G)).
          (map (λ p. p.index) out ≡ []) × All (HoldsPresignature nonce z_com) out)
        (ok_injective e) (refl, tt)
  presignatures_lem id nonce public z_com delta eps (j ∷ js) [] ts z mu au mt at e = cc
  presignatures_lem id nonce public z_com delta eps (j ∷ js) (u ∷ us) [] z mu au mt at e = cc
  presignatures_lem id nonce public z_com delta eps (j ∷ js) (u ∷ us) (t ∷ ts) z mu (vu, au) mt
        (vt, at) e =
      let (rest, p, q) =
        >>=-eq-ok
          (presignatures id nonce z_com delta eps js (map (λ o. o.share) us) (map (λ p. p.0) ts)) _
          e in
      let iu : u.index ≡ j = cc mu in
      let it : t.0.index ≡ j = cc mt in
      let (m, a) =
        presignatures_lem id nonce public z_com delta eps js us ts z (cc mu) au (cc mt) at p in
      let pz : verify_share z_com j (ki_z_share t.0 delta eps) ≡ true =
        subst (λ i. verify_share z_com i (ki_z_share t.0 delta eps) ≡ true) it
          (ki_z_share_passes t.0.index t.0 public delta eps z vt.1 vt.2 vt.3) in
      subst
        (λ (out : List (Presignature F G)).
          (map (λ p. p.index) out ≡ j ∷ js) × All (HoldsPresignature nonce z_com) out)
        (ok_injective q)
        (
          ap (λ js. j ∷ js) m,
          (
            (
              refl,
              refl,
              refl,
              refl,
              subst (λ i. verify_share nonce.u_com i u.share ≡ true) iu vu.1,
              pz,
            ),
            a,
          ),
        )

  -- The parties ids hold one presignature for the key: shares of u = k⁻¹ and of z = u·x.
  pub record IsPresigned ⦃x : XCoordinate F G⦄ (t : ℕ) (ids : List PartyId)
      (key_com : FeldmanCommitment G) (out : List (Presignature F G)) : Type 0 where
    pub nonce : Nonce F G
    pub z_com : FeldmanCommitment G
    pub indices : map (λ p. p.index) out ≡ ids
    pub held : All (HoldsPresignature nonce z_com) out
    pub sound : IsNonce t nonce
    pub degree : length z_com.points ≤ t
    pub bound : secret F z_com ≡ secret F nonce.u_com ⊗ secret F key_com

module _ {F G : Type 0} ⦃f : Field F⦄ ⦃g : Group G⦄ ⦃c : Action F G⦄ ⦃x : XCoordinate F G⦄
    (committee : Committee) (quorum : IsQuorum F committee.ids) where
  pub nonce_phase_lem :
      (one : TripleShare F × TriplePublic G) (tr : List (TripleShare F × TriplePublic G))
      (tamper : Option PresignTamper) (u0 a0 : DkgOutput F G) (ur ar : List (DkgOutput F G))
      {nonce : Nonce F G}
      → committee.t ≤ length committee.ids
      → IsTriple committee.t committee.ids one.1 (one ∷ tr)
      → length u0.cm.points ≤ committee.t
      → length a0.cm.points ≤ committee.t
      → nonce_phase committee (one ∷ tr) tamper (u0 ∷ ur) (a0 ∷ ar) ≡ ok nonce
      → (nonce.u_shares ≡ map (λ o. o.share) (u0 ∷ ur))
        × (nonce.u_com ≡ u0.cm)
        × IsNonce committee.t nonce
  unfolding nonce_phase
  nonce_phase_lem one tr tamper u0 a0 ur ar {nonce} n triple lu la e =
      let us = map (λ (o : DkgOutput F G). o.share) (u0 ∷ ur) in
      let as' = map (λ (o : DkgOutput F G). o.share) (a0 ∷ ar) in
      let (v_inv, p1, e1) =
        >>=-eq-ok (open_v committee (map (λ p. p.0) (one ∷ tr)) one.1 _ u0.cm a0.cm us as') _ e in
      let ((big_r, r), p2, e2) = >>=-eq-ok (nonce_of committee _ a0.cm as' v_inv) _ e1 in
      let inv =
        open_v_lem committee _ one.1 _ u0.cm a0.cm us as' quorum.1 triple.product triple.degrees lu
          la p1 in
      let (point, xc, nz) = nonce_of_lem committee _ a0.cm as' v_inv quorum (omega arith) p2 in
      let ku : (secret F a0.cm ⊗ v_inv) ⊗ secret F u0.cm ≡ one_scalar =
        mul_comm _ _ ∙ (sym (mul_assoc _ _ _) ∙ inv) in
      subst (λ (m : Nonce F G). (m.u_shares ≡ us) × (m.u_com ≡ u0.cm) × IsNonce committee.t m)
        (ok_injective e2)
        (
          refl,
          refl,
          record {
            k = secret F a0.cm ⊗ v_inv;
            inverse = ku;
            point = point;
            x_coordinate = xc;
            nonzero = nz;
            degree = lu;
          },
        )

  -- The first entries, whose commitments the phases use, are there.
  pub nonce_phase_ok :
      (t1 : List (TripleShare F × TriplePublic G)) (tamper : Option PresignTamper)
      (us as' : List (DkgOutput F G)) {nonce : Nonce F G}
      → nonce_phase committee t1 tamper us as' ≡ ok nonce
      → (one : TripleShare F × TriplePublic G) × (u0 a0 : DkgOutput F G) × (tr : List
          (TripleShare F × TriplePublic G))
        × (ur ar : List (DkgOutput F G)) × (t1 ≡ one ∷ tr)
        × (us ≡ u0 ∷ ur)
        × (as' ≡ a0 ∷ ar)
  unfolding nonce_phase
  nonce_phase_ok [] tamper us as' e = cc e
  nonce_phase_ok (t ∷ ts) tamper [] as' e = cc e
  nonce_phase_ok (t ∷ ts) tamper (u ∷ us) [] e = cc e
  nonce_phase_ok (t ∷ ts) tamper (u ∷ us) (a ∷ as') e = (t, u, a, ts, us, as', refl, refl, refl)

  pub bind_key_lem :
      (id : ℕ) (key0 : DkgOutput F G) (two : TripleShare F × TriplePublic G)
      (kr : List (DkgOutput F G)) (tr : List (TripleShare F × TriplePublic G)) (nonce : Nonce F G)
      (us : List (DkgOutput F G)) {out : List (Presignature F G)}
      → IsTriple committee.t committee.ids two.1 (two ∷ tr)
      → length key0.cm.points ≤ committee.t
      → nonce.u_shares ≡ map (λ o. o.share) us
      → IsSharing committee.t committee.ids nonce.u_com us
      → IsNonce committee.t nonce
      → bind_key committee id (key0 ∷ kr) (two ∷ tr) nonce ≡ ok out
      → IsPresigned committee.t committee.ids key0.cm out
  unfolding bind_key
  bind_key_lem id key0 two kr tr nonce us {out} triple lk same sharing sound e =
      let t = committee.t in
      let ids = committee.ids in
      let (delta, p1, e1) =
        >>=-eq-ok (open_masked t ids nonce.u_com two.1.ca nonce.u_shares _) _ e in
      let (eps, p2, e2) = >>=-eq-ok (open_masked t ids key0.cm two.1.cb _ _) _ e1 in
      let (z_com, p3, e3) = >>=-eq-ok (expect (ki_z_com two.1 delta eps)) _ e2 in
      let q = expect-eq-ok _ p3 in
      let (value, lz) =
        ki_z_com_lem t two.1 (secret F nonce.u_com) (secret F key0.cm) delta eps triple.product
          triple.degrees
          (open_masked_lem t ids nonce.u_com two.1.ca _ _ quorum.1 sound.degree triple.degrees.0 p1)
          (open_masked_lem t ids key0.cm two.1.cb _ _ quorum.1 lk triple.degrees.1 p2) q in
      let (is, hs) =
        presignatures_lem id nonce two.1 z_com delta eps ids us (two ∷ tr) q sharing.indices
          sharing.held triple.indices triple.held
          (sym (
              ap (λ w. presignatures id nonce z_com delta eps ids w (map (λ p. p.0) (two ∷ tr)))
                same)
            ∙ e3) in
      record {
        nonce = nonce;
        z_com = z_com;
        indices = is;
        held = hs;
        sound = sound;
        degree = lz;
        bound = value;
      }

  pub bind_key_ok :
      (id : ℕ) (ks : List (DkgOutput F G)) (t2 : List (TripleShare F × TriplePublic G))
      (nonce : Nonce F G) {out : List (Presignature F G)}
      → bind_key committee id ks t2 nonce ≡ ok out
      → (two : TripleShare F × TriplePublic G) × (tr : List (TripleShare F × TriplePublic G)) × (t2
          ≡ two ∷ tr)
  unfolding bind_key
  bind_key_ok id ks [] nonce e = cc e
  bind_key_ok id ks (t ∷ ts) nonce e = (t, ts, refl)
