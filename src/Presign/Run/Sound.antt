-- ===== src/Presign/Run/Sound.antt =====
-- `presign_with_committee` of src/protocol/presign.rs as a whole: what the parties hold when it succeeds.
use ohm_ecdsa.Prelude.{
  ℕ, ◌≤◌, ◌<◌, ◌≡◌, sym, ap, subst, ◌∙◌, List, ◌∷◌, Option, none, length, All, arith,
}
use ohm_ecdsa.Core.{Phase, Committee, ok, >>=-eq-ok, ok_injective}
use ohm_ecdsa.Core.Committees.{IsCommittee}
use ohm_ecdsa.Core.Sort.{IsStrict-Distinct}
use ohm_ecdsa.Field.{Field, order}
use ohm_ecdsa.Curve.{Group, Action}
use ohm_ecdsa.Encoding.{Hash, PointEncoding}
use ohm_ecdsa.Rng.{Rng}
use ohm_ecdsa.Shamir.Lagrange.{IsQuorum}
use ohm_ecdsa.Vss.{FeldmanCommitment}
use ohm_ecdsa.Dkg.{DkgOutput}
use ohm_ecdsa.Dkg.Rounds.Sound.{IsSharing}
use ohm_ecdsa.Dleq.{Digest}
use ohm_ecdsa.Triples.{joint_random, generate_with_committee}
use ohm_ecdsa.Triples.Dealing.{joint_random-IsSharing}
use ohm_ecdsa.Triples.Generate.{IsTriple, generate_with_committee-IsTriple}
use ohm_ecdsa.Presign.{Presignature, TripleShare, TriplePublic}
use ohm_ecdsa.Sign.{XCoordinate}
use ohm_ecdsa.Presign.Run.{
  PresignTamper, Nonce, check_committee_inputs, nonce_phase, bind_key, presign_with_committee,
}
use ohm_ecdsa.Presign.Run.Phases.{
  IsPresigned, nonce_phase_lem, nonce_phase_ok, bind_key_lem, bind_key_ok,
}

module _ {F G : Type 0} ⦃f : Field F⦄ ⦃g : Group G⦄ ⦃c : Action F G⦄ ⦃x : XCoordinate F G⦄ where
  -- From the sharings and the triples of the dealing phases.
  phases_IsPresigned :
      (committee : Committee) (id : ℕ) (key0 : DkgOutput F G) (kr : List (DkgOutput F G))
      (t1 t2 : List (TripleShare F × TriplePublic G)) (us as' : List (DkgOutput F G))
      (tamper : Option PresignTamper) (nonce : Nonce F G) {out : List (Presignature F G)}
      → IsQuorum F committee.ids
      → committee.t ≤ length committee.ids
      → length key0.cm.points ≤ committee.t
      → ((o : TripleShare F × TriplePublic G) (rest : List (TripleShare F × TriplePublic G))
          → t1 ≡ o ∷ rest
          → IsTriple committee.t committee.ids o.1 (o ∷ rest))
      → ((o : TripleShare F × TriplePublic G) (rest : List (TripleShare F × TriplePublic G))
          → t2 ≡ o ∷ rest
          → IsTriple committee.t committee.ids o.1 (o ∷ rest))
      → ((o : DkgOutput F G) (rest : List (DkgOutput F G))
          → us ≡ o ∷ rest
          → IsSharing committee.t committee.ids o.cm (o ∷ rest))
      → ((o : DkgOutput F G) (rest : List (DkgOutput F G))
          → as' ≡ o ∷ rest
          → IsSharing committee.t committee.ids o.cm (o ∷ rest))
      → nonce_phase committee t1 tamper us as' ≡ ok nonce
      → bind_key committee id (key0 ∷ kr) t2 nonce ≡ ok out
      → IsPresigned committee.t committee.ids key0.cm out
  phases_IsPresigned committee id key0 kr t1 t2 us as' tamper nonce quorum n lk h1 h2 hu ha p q =
      let (one, u0, a0, tr, ur, ar, m1, mu, ma) =
        nonce_phase_ok committee quorum t1 tamper us as' p in
      let (two, tr2, m2) = bind_key_ok committee quorum id (key0 ∷ kr) t2 nonce q in
      let su = hu u0 ur mu in
      let (same, mc, sound) =
        nonce_phase_lem committee quorum one tr tamper u0 a0 ur ar n (h1 one tr m1) su.degree
          (ha a0 ar ma).degree (sym (λ i. nonce_phase committee (m1 i) tamper (mu i) (ma i)) ∙ p) in
      bind_key_lem committee quorum id key0 two kr tr2 nonce (u0 ∷ ur) (h2 two tr2 m2) lk same
        (subst (λ (d : FeldmanCommitment G). IsSharing committee.t committee.ids d (u0 ∷ ur))
          (sym mc) su)
        sound (sym (ap (λ t2. bind_key committee id (key0 ∷ kr) t2 nonce) m2) ∙ q)

module _ {F G R : Type 0} ⦃f : Field F⦄ ⦃g : Group G⦄ ⦃c : Action F G⦄ ⦃h : Hash⦄
    ⦃pe : PointEncoding G⦄ ⦃d : Digest F⦄ ⦃rng : Rng F R⦄ ⦃x : XCoordinate F G⦄ where
  -- For a committee of distinct ids from 1 up, below the field's order, with an honest majority for its
  -- threshold t, and a key commitment of at most t points: a presigning that succeeds, with any fault injection,
  -- leaves a presignature for the key. All parties have one nonce point k·G, its x-coordinate r ≠ 0, and shares of
  -- u = k⁻¹ and z = u·x that pass their checks, on polynomials of at most t coefficients.
  pub presign_with_committee-IsPresigned :
      (committee : Committee) (key0 : DkgOutput F G) (kr : List (DkgOutput F G)) (id : ℕ)
      (rngs : List R) (tamper : Option PresignTamper) (out : List (Presignature F G))
      {rngs' : List R}
      → IsCommittee committee.ids committee.t
      → All (λ p. p < order F) committee.ids
      → length key0.cm.points ≤ committee.t
      → presign_with_committee committee (key0 ∷ kr) id rngs tamper ≡ ok (out, rngs')
      → IsPresigned committee.t committee.ids key0.cm out
  unfolding presign_with_committee
  presign_with_committee-IsPresigned committee key0 kr id rngs tamper out cm b lk e =
      let (u, p0, e0) = >>=-eq-ok (check_committee_inputs committee (key0 ∷ kr) rngs) _ e in
      let ((t1, r1), p1, e1) = >>=-eq-ok (generate_with_committee committee _ rngs _) _ e0 in
      let ((t2, r2), p2, e2) = >>=-eq-ok (generate_with_committee committee _ r1 none) _ e1 in
      let ((us, r3), p3, e3) = >>=-eq-ok (joint_random committee _ r2 Phase.presign) _ e2 in
      let ((as', r4), p4, e4) = >>=-eq-ok (joint_random committee _ r3 Phase.presign) _ e3 in
      let (nonce, p5, e5) = >>=-eq-ok (nonce_phase committee t1 tamper us as') _ e4 in
      let (presigs, p6, e6) = >>=-eq-ok (bind_key committee id (key0 ∷ kr) t2 nonce) _ e5 in
      let quorum : IsQuorum F committee.ids = (IsStrict-Distinct committee.ids cm.strict, b) in
      let same : presigs ≡ out =
        ap (λ (t : List (Presignature F G) × List R). t.0) (ok_injective e6) in
      subst (IsPresigned committee.t committee.ids key0.cm) same (
        phases_IsPresigned committee id key0 kr t1 t2 us as' tamper nonce quorum
          (omega (arith, cm.threshold, cm.honest_majority)) lk
          (λ o rest m.
            generate_with_committee-IsTriple committee _ rngs _ o rest quorum cm.threshold
              cm.honest_majority (p1 ∙ ap (λ t. ok (t, r1)) m))
          (λ o rest m.
            generate_with_committee-IsTriple committee _ r1 none o rest quorum cm.threshold
              cm.honest_majority (p2 ∙ ap (λ t. ok (t, r2)) m))
          (λ o rest m.
            joint_random-IsSharing committee _ r2 Phase.presign o rest
              (p3 ∙ ap (λ t. ok (t, r3)) m))
          (λ o rest m.
            joint_random-IsSharing committee _ r3 Phase.presign o rest
              (p4 ∙ ap (λ t. ok (t, r4)) m))
          p5 p6)
