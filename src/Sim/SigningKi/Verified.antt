-- ===== src/Sim/SigningKi/Verified.antt =====
-- The signatures that `run_sign_ki` of src/runtime/sim.rs returns: they pass ECDSA verification under the key
-- that was bound online.
use ohm_ecdsa.Prelude.{
  ℕ, ◌≤◌, ◌<◌, ◌≡◌, ◌≢◌, refl, sym, ap, subst, ◌∙◌, List, [], ◌∷◌, ◌++◌, Option, none, true, map,
  length, All, arith,
}
use ohm_ecdsa.Core.{
  PartyId, Phase, Params, parties, ok, ensure, expect, >>=-eq-ok, ok_injective, expect-eq-ok,
  ensure-eq-ok,
}
use ohm_ecdsa.Core.Map.{collect_into, collect_into-IsSorted, All-collect_into}
use ohm_ecdsa.Core.Tags.{ascii}
use ohm_ecdsa.Core.Sort.{IsStrict-Distinct}
use ohm_ecdsa.Core.Committees.{IsCommittee}
use ohm_ecdsa.Encoding.{Bytes, Hash, PointEncoding, be_bytes}
use ohm_ecdsa.Rng.{Rng}
use ohm_ecdsa.Field.{Field, zero_scalar, one_scalar, ◌⊕◌, ◌⊗◌, neg, order}
use ohm_ecdsa.Curve.{Group, Action, ◌⊡◌}
use ohm_ecdsa.Shamir.Lagrange.{IsQuorum}
use ohm_ecdsa.Vss.{FeldmanCommitment, eval_at_point, add, scale}
use ohm_ecdsa.Vss.Laws.{length-add}
use ohm_ecdsa.Vss.Shares.{length-scale}
use ohm_ecdsa.Vss.Secret.{secret, eval_at_point-secret, secret-add, secret-scale}
use ohm_ecdsa.Open.{open_shares}
use ohm_ecdsa.Dkg.{DkgOutput}
use ohm_ecdsa.Dleq.{Digest}
use ohm_ecdsa.Triples.{first_of, generate}
use ohm_ecdsa.Triples.Sound.{first_of_ok}
use ohm_ecdsa.Triples.Generate.{IsTriple, generate-IsTriple}
use ohm_ecdsa.Presign.{Presignature, KiPresignature, TripleShare, TriplePublic}
use ohm_ecdsa.Presign.Run.{masked, tamper_open}
use ohm_ecdsa.Presign.Run.Values.{open_shares-secret, masked_keys, unmask, ki_z_com_lem}
use ohm_ecdsa.Presign.Run.Beaver.{tamper_open-keys}
use ohm_ecdsa.Presign.Run.Signing.{Verifies, equation-Verifies}
use ohm_ecdsa.Presign.Ki.Sound.{IsKiPresigned}
use ohm_ecdsa.Sign.{
  XCoordinate, SignShare, entries, sign_share_ki, ki_z_com, combine_at, combine_ki,
}
use ohm_ecdsa.Sign.Combine.{combine_at_ecdsa}
use ohm_ecdsa.Sim.Signing.{Signatures, message_scalar, tamper_signing, to_signature}
use ohm_ecdsa.Sim.Verified.{senders-tamper_signing, to_signature-Verifies}
use ohm_ecdsa.Sim.SigningKi.{
  KiSignTamper, same_indices, open_fault, sign_fault, ki_sign_shares, ki_open_round, ki_sign_round,
  run_sign_ki,
}

module _ {F G : Type 0} where
  same_indices_lem :
      (ks : List (DkgOutput F G)) (ps : List (KiPresignature F G))
      → same_indices ks ps ≡ true
      → map (λ k. k.index) ks ≡ map (λ p. p.index) ps
  unfolding same_indices
  same_indices_lem [] [] e = refl
  same_indices_lem [] (p ∷ ps) e = cc
  same_indices_lem (k ∷ ks) [] e = cc
  same_indices_lem (k ∷ ks) (p ∷ ps) e = ground (arith, same_indices_lem ks ps)

module _ {F G : Type 0} ⦃f : Field F⦄ where
  ki_senders :
      (m delta eps : F) (ps : List (KiPresignature F G)) (ts : List (TripleShare F))
      {shares : List (SignShare F)}
      → ki_sign_shares m delta eps ps ts ≡ ok shares
      → map (λ e. e.0) (entries shares) ≡ map (λ p. p.index) ps
  unfolding ki_sign_shares sign_share_ki
  ki_senders m delta eps [] ts e =
      sym (ap (λ (shares : List (SignShare F)). map (λ e. e.0) (entries shares)) (ok_injective e))
  ki_senders m delta eps (p ∷ ps) [] e = cc
  ki_senders m delta eps (p ∷ ps) (t ∷ ts) e =
      let (rest, q, r) = >>=-eq-ok (ki_sign_shares m delta eps ps ts) _ e in
      sym (ap (λ (shares : List (SignShare F)). map (λ e. e.0) (entries shares)) (ok_injective r))
      ∙ ap (λ is. p.index ∷ is) (ki_senders m delta eps ps ts q)

module _ {F G : Type 0} ⦃f : Field F⦄ ⦃g : Group G⦄ ⦃c : Action F G⦄ where
  -- What an opening of a difference says of the two secrets.
  open_difference :
      (t : ℕ) (cm mask : FeldmanCommitment G) (bad : Option PartyId) (es : List (PartyId × F))
      (phase : Phase) {d : F}
      → All (λ p. p < order F) (map (λ e. e.0) es)
      → length cm.points ≤ t
      → length mask.points ≤ t
      → open_shares t
          (add cm (scale mask (neg (one_scalar {F = F}))))
          (tamper_open bad (collect_into [] es))
          phase
        ≡ ok d
      → secret F cm ≡ d ⊕ secret F mask
  open_difference t cm mask bad es phase b lc lm e =
      let (so, bo) =
        tamper_open-keys (λ p. p < order F) bad (collect_into [] es)
          (collect_into-IsSorted [] es tt) (All-collect_into _ [] es tt b) in
      unmask _ _ _ (
        open_shares-secret t _ _ phase so bo
          (length-add cm _ t lc (omega (arith, length-scale mask (neg (one_scalar {F = F}))))) e
        ∙ (secret-add cm _ ∙ ap (λ s. secret F cm ⊕ s) (secret-scale mask _)))

  -- R1 unmasks the two secrets.
  ki_open_round_lem :
      (t : ℕ) (key0 : DkgOutput F G) (kr : List (DkgOutput F G)) (p : KiPresignature F G)
      (ps : List (KiPresignature F G)) (ts : List (TripleShare F)) (public : TriplePublic G)
      (bad : Option PartyId) {delta eps : F}
      → map (λ k. k.index) (key0 ∷ kr) ≡ map (λ p. p.index) (p ∷ ps)
      → All (λ p. p < order F) (map (λ p. p.index) (p ∷ ps))
      → length p.u_com.points ≤ t
      → length key0.cm.points ≤ t
      → (length public.ca.points ≤ t)
        × (length public.cb.points ≤ t)
        × (length public.cc.points ≤ t)
      → ki_open_round t (key0 ∷ kr) (p ∷ ps) ts public bad ≡ ok (delta, eps)
      → (secret F p.u_com ≡ delta ⊕ secret F public.ca)
        × (secret F key0.cm ≡ eps ⊕ secret F public.cb)
  unfolding ki_open_round
  ki_open_round_lem t key0 kr p ps ts public bad {delta} {eps} is b lu lk (la, lb, lc) e =
      let (deltas, p1, e1) = >>=-eq-ok (masked _ _ (map (λ s. s.a) ts)) _ e in
      let (epsilons, p2, e2) = >>=-eq-ok (masked _ _ (map (λ s. s.b) ts)) _ e1 in
      let (d, p3, e3) = >>=-eq-ok (open_shares t _ (tamper_open bad _) Phase.sign) _ e2 in
      let (v, p4, e4) = >>=-eq-ok (open_shares t _ (collect_into [] epsilons) Phase.sign) _ e3 in
      let p5 : open_shares t (add key0.cm (scale public.cb (neg (one_scalar {F = F}))))
            (tamper_open none (collect_into [] epsilons)) Phase.sign
          ≡ ok v =
        unfold tamper_open in p4 in
      let de : d ≡ delta = ap (λ (r : F × F). r.0) (ok_injective e4) in
      let ve : v ≡ eps = ap (λ (r : F × F). r.1) (ok_injective e4) in
      (
        open_difference t p.u_com public.ca bad deltas Phase.sign
              (subst (All (λ p. p < order F)) (sym (masked_keys _ _ _ p1)) b) lu la p3
            ∙ ap (λ s. s ⊕ secret F public.ca) de,
        open_difference t key0.cm public.cb none epsilons Phase.sign
              (subst (All (λ p. p < order F)) (sym (masked_keys _ _ _ p2 ∙ is)) b) lk lb p5
            ∙ ap (λ s. s ⊕ secret F public.cb) ve,
      )

module _ {F G : Type 0} ⦃f : Field F⦄ ⦃g : Group G⦄ ⦃c : Action F G⦄ ⦃x : XCoordinate F G⦄ where
  -- R2 over a commitment to u·x gives a pair that verifies.
  ki_sign_round_lem :
      (params : Params) (ids : List PartyId) (key_com : FeldmanCommitment G)
      (p : KiPresignature F G) (ps : List (KiPresignature F G)) (ts : List (TripleShare F))
      (public : TriplePublic G) (m delta eps : F) (bad : Option (PartyId × F)) (rs : F × F)
      → IsQuorum F ids
      → IsKiPresigned params.t ids (p ∷ ps)
      → (length public.ca.points ≤ params.t)
        × (length public.cb.points ≤ params.t)
        × (length public.cc.points ≤ params.t)
      → secret F public.cc ≡ secret F public.ca ⊗ secret F public.cb
      → (secret F p.u_com ≡ delta ⊕ secret F public.ca)
        × (secret F key_com ≡ eps ⊕ secret F public.cb)
      → ki_sign_round params (p ∷ ps) ts public m delta eps bad ≡ ok rs
      → rs.1 ≢ zero_scalar
      → Verifies (eval_at_point key_com (zero_scalar {F = F})) m rs
  unfolding ki_sign_round
  ki_sign_round_lem params ids key_com p ps ts public m delta eps bad rs quorum presigned degrees
        prod (du, dx) e ne =
      let (er, eb, eu, vu) = presigned.held.0 in
      let nonce = presigned.nonce in
      let (z_com, p1, e1) = >>=-eq-ok (expect (ki_z_com public delta eps)) _ e in
      let (shares, p2, e2) = >>=-eq-ok (ki_sign_shares m delta eps (p ∷ ps) ts) _ e1 in
      let sent = tamper_signing bad shares in
      let who : map (λ e. e.0) (entries sent) ≡ ids =
        senders-tamper_signing bad shares
        ∙ (ki_senders m delta eps (p ∷ ps) ts p2 ∙ presigned.indices) in
      let (product, lz) =
        ki_z_com_lem params.t public (secret F p.u_com) (secret F key_com) delta eps prod degrees du
          dx (expect-eq-ok _ p1) in
      let meta : Presignature F G = record {
        id = p.id;
        index = p.index;
        r = p.r;
        big_r = p.big_r;
        u_share = p.u_share;
        z_share = zero_scalar;
        u_com = p.u_com;
        z_com = z_com;
      } in
      let same : combine_at params.t zero_scalar meta m sent ≡ ok rs =
        unfold combine_at combine_ki in e2 in
      let (sr, ks) =
        combine_at_ecdsa params.t zero_scalar meta m presigned.sound.k (secret F p.u_com)
          (secret F z_com) (secret F key_com) sent (eval_at_point-secret F p.u_com)
          (eval_at_point-secret F z_com)
          (subst (λ d. presigned.sound.k ⊗ secret F d ≡ one_scalar) (sym eu)
            presigned.sound.inverse)
          product
          (subst (λ (d : FeldmanCommitment G). length d.points ≤ params.t) (sym eu)
            presigned.sound.degree)
          lz (subst (IsQuorum F) (sym who) quorum) same in
      equation-Verifies params.t nonce presigned.sound key_com m rs (sr ∙ er) ks ne

module _ {F G R S : Type 0} ⦃f : Field F⦄ ⦃g : Group G⦄ ⦃c : Action F G⦄ ⦃h : Hash⦄
    ⦃pe : PointEncoding G⦄ ⦃d : Digest F⦄ ⦃rng : Rng F R⦄ ⦃x : XCoordinate F G⦄
    ⦃sg : Signatures F S⦄ where
  -- For params whose parties are a valid committee with ids below the field's order, key-independent records of
  -- these parties, a key commitment of at most t points, and points whose negations have the same x-coordinate: a
  -- signature that `run_sign_ki` returns, with any fault injection, passes ECDSA verification of the message under
  -- the public point of the key that was bound online.
  pub run_sign_ki-Verifies :
      (params : Params) (key0 : DkgOutput F G) (kr : List (DkgOutput F G))
      (presigs : List (KiPresignature F G)) (msg : Bytes) (rngs : List R)
      (tamper : Option (KiSignTamper F)) (sig : S) {rngs' : List R}
      → IsCommittee (parties params) params.t
      → All (λ p. p < order F) (parties params)
      → IsKiPresigned params.t (parties params) presigs
      → length key0.cm.points ≤ params.t
      → ((p : G) → x.x_scalar (p ⊡ neg (one_scalar {F = F})) ≡ x.x_scalar p)
      → run_sign_ki params (key0 ∷ kr) presigs msg rngs tamper ≡ ok (sig, rngs')
      → Verifies (eval_at_point key0.cm (zero_scalar {F = F})) (message_scalar msg) (sg.scalars sig)
  unfolding run_sign_ki same_indices
  run_sign_ki-Verifies params key0 kr [] msg rngs tamper sig cm b presigned lk hx e = cc e
  run_sign_ki-Verifies params key0 kr (p ∷ ps) msg rngs tamper sig cm b presigned lk hx e =
      let ids = parties params in
      let m : F = message_scalar msg in
      let sid = ascii "ohm-ecdsa/sign-ki/" ++ be_bytes p.id in
      let (u, p0, e0) = >>=-eq-ok (ensure (same_indices (key0 ∷ kr) (p ∷ ps)) _) _ e in
      let ((triple, r1), p1, e1) = >>=-eq-ok (generate params sid rngs) _ e0 in
      let (one, p2, e2) = >>=-eq-ok (expect (first_of triple)) _ e1 in
      let (rest, ms) = first_of_ok triple p2 in
      let ts = map (λ (o : TripleShare F × TriplePublic G). o.0) triple in
      let ((delta, eps), p3, e3) =
        >>=-eq-ok (ki_open_round params.t (key0 ∷ kr) (p ∷ ps) ts one.1 (open_fault tamper)) _ e2 in
      let (rs, p4, e4) =
        >>=-eq-ok (ki_sign_round params (p ∷ ps) ts one.1 m delta eps (sign_fault tamper)) _ e3 in
      let (low, p5, e5) = >>=-eq-ok (to_signature rs) _ e4 in
      let quorum : IsQuorum F ids = (IsStrict-Distinct ids cm.strict, b) in
      let is : map (λ k. k.index) (key0 ∷ kr) ≡ map (λ p. p.index) (p ∷ ps) =
        same_indices_lem (key0 ∷ kr) (p ∷ ps) (ensure-eq-ok _ _ p0) in
      let good : IsTriple params.t ids one.1 (one ∷ rest) =
        generate-IsTriple params sid rngs one rest cm b (p1 ∙ ap (λ l. ok (l, r1)) ms) in
      let lu : length p.u_com.points ≤ params.t =
        subst (λ (d : FeldmanCommitment G). length d.points ≤ params.t) (sym presigned.held.0.2)
          presigned.sound.degree in
      let masks =
        ki_open_round_lem params.t key0 kr p ps ts one.1 (open_fault tamper) is
          (subst (All (λ p. p < order F)) (sym presigned.indices) b) lu lk good.degrees p3 in
      to_signature-Verifies _ m rs sig hx
        (ki_sign_round_lem params ids key0.cm p ps ts one.1 m delta eps (sign_fault tamper) rs
          quorum presigned good.degrees good.product masks p4)
        (p5 ∙ ap (λ (o : S × List R). ok o.0) (ok_injective e5))
