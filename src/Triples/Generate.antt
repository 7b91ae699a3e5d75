-- ===== src/Triples/Generate.antt =====
-- `generate_with_committee` of src/protocol/triples.rs as a whole: what the parties hold when it succeeds.
use ohm_ecdsa.Prelude.{
  ℕ, suc, ◌+◌, ◌*◌, ◌≤◌, ◌<◌, ◌≡◌, refl, sym, ap, ap₂, subst, ◌∙◌, List, [], ◌∷◌, ◌++◌, Option,
  none, some, true, map, length, length-map, All, get_elem?, arith,
}
use ohm_ecdsa.Core.{
  PartyId, Params, parties, Result, Phase, Committee, ◌>>=◌, ok, expect, >>=-eq-ok, ok_injective,
  expect-eq-ok,
}
use ohm_ecdsa.Core.Tags.{ascii}
use ohm_ecdsa.Core.Committees.{IsCommittee, full_ok}
use ohm_ecdsa.Core.Sort.{IsStrict-Distinct}
use ohm_ecdsa.Field.{Field, zero_scalar, ◌⊗◌, order}
use ohm_ecdsa.Curve.{Group, Action, generator, ◌⊡◌}
use ohm_ecdsa.Curve.Laws.{pmul-zero}
use ohm_ecdsa.Encoding.{Bytes, Hash, PointEncoding}
use ohm_ecdsa.Rng.{Rng}
use ohm_ecdsa.Shamir.{eval, eval_at, lagrange_coeffs}
use ohm_ecdsa.Shamir.Lagrange.{IsQuorum, terms}
use ohm_ecdsa.Shamir.Interpolate.{lagrange_coeffs_at-terms}
use ohm_ecdsa.Vss.{FeldmanCommitment, verify_share}
use ohm_ecdsa.Vss.Laws.{log_poly, verify_share-log_poly, length-log_poly}
use ohm_ecdsa.Vss.Shares.{committed_value}
use ohm_ecdsa.Dkg.{DkgOutput}
use ohm_ecdsa.Dkg.Rounds.Sound.{IsSharing}
use ohm_ecdsa.Dleq.{Digest}
use ohm_ecdsa.Presign.{TripleShare, TriplePublic}
use ohm_ecdsa.Triples.{
  TripleTamper, Resharing, joint_random, reshare_all, tampered, combine_products, multiply, column,
  triple_records, generate_with_committee, generate, generate_with_tamper,
}
use ohm_ecdsa.Triples.Product.{
  products, lagrange_product, weighted, sum_at, Commits, weighted_value,
}
use ohm_ecdsa.Triples.Dealing.{
  joint_random-IsSharing, IsSharing-shares, reshare_all_lem, tampered-cms,
}
use ohm_ecdsa.Triples.Sound.{Delivered, PassesSum, column_lem, weighted-length, combine_products_ok}

module _ {F G : Type 0} ⦃f : Field F⦄ ⦃g : Group G⦄ ⦃c : Action F G⦄ where
  -- A party's shares pass against the public triple, and it has a copy of it.
  abbrev pub HoldsTriple : TriplePublic G → TripleShare F × TriplePublic G → Type 0
  HoldsTriple public o =
      (o.1 ≡ public)
      × (verify_share public.ca o.0.index o.0.a ≡ true)
      × (verify_share public.cb o.0.index o.0.b ≡ true)
      × (verify_share public.cc o.0.index o.0.c ≡ true)

  -- The parties ids hold shares of α, β and γ = α·β, on polynomials of t coefficients.
  pub record IsTriple (t : ℕ) (ids : List PartyId) (public : TriplePublic G)
      (out : List (TripleShare F × TriplePublic G)) : Type 0 where
    pub indices : map (λ o. o.0.index) out ≡ ids
    pub held : All (HoldsTriple public) out
    pub degrees :
        (length public.ca.points ≤ t)
        × (length public.cb.points ≤ t)
        × (length public.cc.points ≤ t)
    pub product :
        eval_at (log_poly F public.cc) zero_scalar
        ≡ eval_at (log_poly F public.ca) zero_scalar ⊗ eval_at (log_poly F public.cb) zero_scalar

  -- The records of the parties from the place k on.
  triple_records_lem :
      (all : List PartyId) (public : TriplePublic G) (lambdas : List F) (rs : List (Resharing F G))
      (k : ℕ) (ids : List PartyId) {out : List (TripleShare F × TriplePublic G)}
      → ((m : ℕ) (i : PartyId) → get_elem? ids m ≡ some i → get_elem? all (k + m) ≡ some i)
      → All (Delivered all) rs
      → weighted lambdas (map (λ r. r.cm) rs) none ≡ some public.cc
      → triple_records k ids
          (map (eval (log_poly F public.ca)) ids)
          (map (eval (log_poly F public.cb)) ids)
          lambdas
          rs
          public
        ≡ ok out
      → (map (λ o. o.0.index) out ≡ ids) × All (HoldsTriple public) out
  unfolding triple_records
  triple_records_lem all public lambdas rs k [] at a w e =
      subst
        (λ (out : List (TripleShare F × TriplePublic G)).
          (map (λ o. o.0.index) out ≡ []) × All (HoldsTriple public) out)
        (ok_injective e) (refl, tt)
  triple_records_lem all public lambdas rs k (i ∷ ids) at a w e =
      let (s, p, e1) = >>=-eq-ok (column k lambdas rs zero_scalar) _ e in
      let (rest, q, e2) = >>=-eq-ok (triple_records (suc k) ids _ _ lambdas rs public) _ e1 in
      let here : get_elem? all k ≡ some i = ap (get_elem? all) (omega arith) ∙ at 0 i refl in
      let v : verify_share public.cc i s ≡ true =
        subst (λ o. PassesSum o i s) w
          (column_lem all k i lambdas rs zero_scalar none here a refl p) in
      let (m, h) =
        triple_records_lem all public lambdas rs (suc k) ids
          (λ m j r. ap (get_elem? all) (omega arith) ∙ at (suc m) j r) a w q in
      subst
        (λ (out : List (TripleShare F × TriplePublic G)).
          (map (λ o. o.0.index) out ≡ i ∷ ids) × All (HoldsTriple public) out)
        (ok_injective e2)
        (
          ap (λ is. i ∷ is) m,
          (
            (
              refl,
              (verify_share-log_poly public.ca i _).1 refl,
              (verify_share-log_poly public.cb i _).1 refl,
              v,
            ),
            h,
          ),
        )

module _ {F : Type 0} ⦃f : Field F⦄ where
  length-terms :
      (all : List PartyId) (x : F) (i : ℕ) (ps : List PartyId)
      → length (terms all x i ps) ≡ length ps
  unfolding terms
  length-terms all x i [] = refl
  length-terms all x i (p ∷ ps) = ap suc (length-terms all x (suc i) ps)

  pub length-lagrange_coeffs :
      (ids : List PartyId) (lambdas : List F)
      → IsQuorum F ids
      → lagrange_coeffs ids ≡ some lambdas
      → length lambdas ≡ length ids
  unfolding lagrange_coeffs
  length-lagrange_coeffs ids lambdas quorum h =
      let e : some lambdas ≡ some (terms ids zero_scalar 0 ids) =
        sym h ∙ lagrange_coeffs_at-terms zero_scalar ids quorum in
      let d : lambdas ≡ terms ids zero_scalar 0 ids = cc e in
      ap length d ∙ length-terms ids zero_scalar 0 ids

module _ {F G : Type 0} ⦃f : Field F⦄ ⦃g : Group G⦄ ⦃c : Action F G⦄ where
  -- T2 and T3 over two sharings: the combined commitment is of t points, and to the product.
  combined_product :
      (ids : List PartyId) (t : ℕ) (ca cb : FeldmanCommitment G) (lambdas : List F)
      (ds : List (FeldmanCommitment G)) {total : FeldmanCommitment G}
      → IsQuorum F ids
      → 1 ≤ t
      → 2 * t ≤ length ids + 1
      → length ca.points ≤ t
      → length cb.points ≤ t
      → lagrange_coeffs ids ≡ some lambdas
      → Commits
          (zero_scalar {F = F})
          (products (map (eval (log_poly F ca)) ids) (map (eval (log_poly F cb)) ids))
          ds
      → All (λ (d : FeldmanCommitment G). length d.points ≤ t) ds
      → weighted lambdas ds none ≡ some total
      → (length total.points ≤ t)
        × (eval_at (log_poly F total) zero_scalar
            ≡ eval_at (log_poly F ca) zero_scalar ⊗ eval_at (log_poly F cb) zero_scalar)
  combined_product ids t ca cb lambdas ds {total} quorum t1 n la lb h cs ls w = (
    weighted-length t lambdas ds none ls (λ e q. cc q) w,
    committed_value total zero_scalar _ (
        ap (λ o. sum_at o (zero_scalar {F = F})) (sym w)
        ∙ (weighted_value zero_scalar zero_scalar lambdas _ ds none cs (sym (pmul-zero F generator))
            ∙ ap (λ s. generator {G = G} ⊡ s)
                (lagrange_product (log_poly F ca) (log_poly F cb) t ids lambdas quorum t1 n
                  (omega (arith, length-log_poly F ca)) (omega (arith, length-log_poly F cb)) h))),
  )

module _ {F G R : Type 0} ⦃f : Field F⦄ ⦃g : Group G⦄ ⦃c : Action F G⦄ ⦃h : Hash⦄
    ⦃pe : PointEncoding G⦄ ⦃d : Digest F⦄ ⦃rng : Rng F R⦄ (committee : Committee) (sid : Bytes)
    (rngs : List R) (tamper : Option TripleTamper) (quorum : IsQuorum F committee.ids)
    (t1 : 1 ≤ committee.t) (n : 2 * committee.t ≤ length committee.ids + 1) where
  -- The records that are made from a dealing whose shares pass, from two sharings.
  pub records-IsTriple :
      (a0 b0 : DkgOutput F G) (as' bs : List (DkgOutput F G)) (lambdas : List F)
      (dealt rs : List (Resharing F G)) (total : FeldmanCommitment G)
      (o : TripleShare F × TriplePublic G) (out : List (TripleShare F × TriplePublic G))
      {rngs' : List R}
      → IsSharing committee.t committee.ids a0.cm as'
      → IsSharing committee.t committee.ids b0.cm bs
      → lagrange_coeffs committee.ids ≡ some lambdas
      → reshare_all committee.ids committee.t sid b0.cm committee.ids
          (map (λ o. o.share) as')
          (map (λ o. o.share) bs)
          rngs
        ≡ ok (dealt, rngs')
      → map (λ r. r.cm) rs ≡ map (λ r. r.cm) dealt
      → weighted lambdas (map (λ r. r.cm) rs) none ≡ some total
      → All (Delivered committee.ids) rs
      → triple_records 0 committee.ids
          (map (λ o. o.share) as')
          (map (λ o. o.share) bs)
          lambdas
          rs
          (record { ca = a0.cm; cb = b0.cm; cc = total })
        ≡ ok (o ∷ out)
      → IsTriple committee.t committee.ids o.1 (o ∷ out)
  records-IsTriple a0 b0 as' bs lambdas dealt rs total o out {rngs'} sa sb hl p3 same w dv p5 =
      let ids = committee.ids in
      let ds = map (λ (r : Resharing F G). r.cm) dealt in
      let ea = IsSharing-shares sa in
      let eb = IsSharing-shares sb in
      let (cs, ls, k) =
        reshare_all_lem ids committee.t sid b0.cm (log_poly F a0.cm) (log_poly F b0.cm) ids rngs t1
          (sym (ap₂ (λ x y. reshare_all ids committee.t sid b0.cm ids x y rngs) ea eb) ∙ p3) in
      let (deg, prod) =
        combined_product ids committee.t a0.cm b0.cm lambdas ds quorum t1 n sa.degree sb.degree hl
          cs ls (ap (λ x. weighted lambdas x none) (sym same) ∙ w) in
      let public : TriplePublic G = record { ca = a0.cm; cb = b0.cm; cc = total } in
      let (is, hs) =
        triple_records_lem ids public lambdas rs 0 ids
          (λ m i r. ap (get_elem? ids) (omega arith) ∙ r) dv w
          (sym (ap₂ (λ x y. triple_records 0 ids x y lambdas rs public) ea eb) ∙ p5) in
      subst (λ pub'. IsTriple committee.t ids pub' (o ∷ out)) (sym hs.0.0)
        (record { indices = is; held = hs; degrees = (sa.degree, sb.degree, deg); product = prod })

  -- What was dealt, from two sharings: a commitment of at most t points for each party.
  pub dealt_degrees :
      (a0 b0 : DkgOutput F G) (as' bs : List (DkgOutput F G)) (dealt rs : List (Resharing F G))
      {rngs' : List R}
      → IsSharing committee.t committee.ids a0.cm as'
      → IsSharing committee.t committee.ids b0.cm bs
      → reshare_all committee.ids committee.t sid b0.cm committee.ids
          (map (λ o. o.share) as')
          (map (λ o. o.share) bs)
          rngs
        ≡ ok (dealt, rngs')
      → map (λ r. r.cm) rs ≡ map (λ r. r.cm) dealt
      → All (λ (d : FeldmanCommitment G). length d.points ≤ committee.t) (map (λ r. r.cm) rs)
        × (length rs ≡ length committee.ids)
  dealt_degrees a0 b0 as' bs dealt rs sa sb p3 same =
      let ids = committee.ids in
      let (cs, ls, k) =
        reshare_all_lem ids committee.t sid b0.cm (log_poly F a0.cm) (log_poly F b0.cm) ids rngs t1
          (sym (
              ap₂ (λ x y. reshare_all ids committee.t sid b0.cm ids x y rngs) (IsSharing-shares sa)
                (IsSharing-shares sb))
            ∙ p3) in
      (
        subst (All (λ (d : FeldmanCommitment G). length d.points ≤ committee.t)) (sym same) ls,
        sym (length-map rs (λ r. r.cm)) ∙ (ap length same ∙ k),
      )

  -- The steps of T2 and T3, from two sharings.
  steps_IsTriple :
      (a0 b0 : DkgOutput F G) (as' bs : List (DkgOutput F G)) (lambdas : List F)
      (dealt : List (Resharing F G)) (total : FeldmanCommitment G)
      (o : TripleShare F × TriplePublic G) (out : List (TripleShare F × TriplePublic G))
      {rngs' : List R}
      → IsSharing committee.t committee.ids a0.cm as'
      → IsSharing committee.t committee.ids b0.cm bs
      → lagrange_coeffs committee.ids ≡ some lambdas
      → reshare_all committee.ids committee.t sid b0.cm committee.ids
          (map (λ o. o.share) as')
          (map (λ o. o.share) bs)
          rngs
        ≡ ok (dealt, rngs')
      → combine_products sid committee.ids a0.cm b0.cm committee.ids lambdas
          (tampered committee tamper dealt)
          none
        ≡ ok (some total)
      → triple_records 0 committee.ids
          (map (λ o. o.share) as')
          (map (λ o. o.share) bs)
          lambdas
          (tampered committee tamper dealt)
          (record { ca = a0.cm; cb = b0.cm; cc = total })
        ≡ ok (o ∷ out)
      → IsTriple committee.t committee.ids o.1 (o ∷ out)
  steps_IsTriple a0 b0 as' bs lambdas dealt total o out {rngs'} sa sb hl p3 p4 p5 =
      let ids = committee.ids in
      let rs = tampered committee tamper dealt in
      let same : map (λ r. r.cm) rs ≡ map (λ r. r.cm) dealt = tampered-cms committee tamper dealt in
      let (_, m) = dealt_degrees a0 b0 as' bs dealt rs sa sb p3 same in
      let (w, dv) =
        combine_products_ok sid ids a0.cm b0.cm ids lambdas rs none
          (length-lagrange_coeffs ids lambdas quorum hl) m p4 in
      records-IsTriple a0 b0 as' bs lambdas dealt rs total o out sa sb hl p3 same w dv p5

  multiply-IsTriple :
      (a0 b0 : DkgOutput F G) (as' bs : List (DkgOutput F G)) (o : TripleShare F × TriplePublic G)
      (out : List (TripleShare F × TriplePublic G)) {rngs' : List R}
      → IsSharing committee.t committee.ids a0.cm (a0 ∷ as')
      → IsSharing committee.t committee.ids b0.cm (b0 ∷ bs)
      → multiply committee sid rngs tamper (a0 ∷ as') (b0 ∷ bs) ≡ ok (o ∷ out, rngs')
      → IsTriple committee.t committee.ids o.1 (o ∷ out)
  unfolding multiply
  multiply-IsTriple a0 b0 as' bs o out sa sb e =
      let ids = committee.ids in
      let (lambdas, hl, e1) = >>=-eq-ok (expect (lagrange_coeffs ids)) _ e in
      let ((dealt, rngs1), p3, e2) =
        >>=-eq-ok (reshare_all ids committee.t sid b0.cm ids _ _ rngs) _ e1 in
      let (combined, p4, e3) =
        >>=-eq-ok
          (combine_products sid ids a0.cm b0.cm ids lambdas (tampered committee tamper dealt) none)
          _ e2 in
      let (total, q, e4) = >>=-eq-ok (expect combined) _ e3 in
      let (recs, p5, e5) =
        >>=-eq-ok (triple_records 0 ids _ _ lambdas (tampered committee tamper dealt) _) _ e4 in
      let d : recs ≡ o ∷ out =
        ap (λ (t : List (TripleShare F × TriplePublic G) × List R). t.0) (ok_injective e5) in
      steps_IsTriple a0 b0 (a0 ∷ as') (b0 ∷ bs) lambdas dealt total o out sa sb (expect-eq-ok _ hl)
        p3 (p4 ∙ ap ok (expect-eq-ok combined q)) (p5 ∙ ap ok d)

  -- T2 and T3 need a party in each sharing.
  multiply_ok :
      (as' bs : List (DkgOutput F G)) {out : List (TripleShare F × TriplePublic G) × List R}
      → multiply committee sid rngs tamper as' bs ≡ ok out
      → (a0 b0 : DkgOutput F G) × (ar br : List (DkgOutput F G)) × (as' ≡ a0 ∷ ar) × (bs ≡ b0 ∷ br)
  unfolding multiply
  multiply_ok [] bs e = cc e
  multiply_ok (a ∷ ar) [] e = cc e
  multiply_ok (a ∷ ar) (b ∷ br) e = (a, b, ar, br, refl, refl)

module _ {F G R : Type 0} ⦃f : Field F⦄ ⦃g : Group G⦄ ⦃c : Action F G⦄ ⦃h : Hash⦄
    ⦃pe : PointEncoding G⦄ ⦃d : Digest F⦄ ⦃rng : Rng F R⦄ where
  -- With t ≥ 1 and at least 2t - 1 parties, of distinct ids below the field's order: a generation that succeeds,
  -- with any fault injection, leaves a triple. Every party has shares of α, β and γ that pass against the same
  -- commitments of at most t points, and γ = α·β.
  pub generate_with_committee-IsTriple :
      (committee : Committee) (sid : Bytes) (rngs : List R) (tamper : Option TripleTamper)
      (o : TripleShare F × TriplePublic G) (out : List (TripleShare F × TriplePublic G))
      {rngs' : List R}
      → IsQuorum F committee.ids
      → 1 ≤ committee.t
      → 2 * committee.t ≤ length committee.ids + 1
      → generate_with_committee committee sid rngs tamper ≡ ok (o ∷ out, rngs')
      → IsTriple committee.t committee.ids o.1 (o ∷ out)
  unfolding generate_with_committee
  generate_with_committee-IsTriple committee sid rngs tamper o out quorum t1 n e =
      let ((aos, r1), p1, e1) =
        >>=-eq-ok (joint_random committee (sid ++ ascii "/alpha") rngs Phase.triples) _ e in
      let ((bos, r2), p2, e2) =
        >>=-eq-ok (joint_random committee (sid ++ ascii "/beta") r1 Phase.triples) _ e1 in
      let (a0, b0, ar, br, ma, mb) = multiply_ok committee sid r2 tamper quorum t1 n aos bos e2 in
      multiply-IsTriple committee sid r2 tamper quorum t1 n a0 b0 ar br o out
        (joint_random-IsSharing committee _ rngs Phase.triples a0 ar (p1 ∙ ap (λ l. ok (l, r1)) ma))
        (joint_random-IsSharing committee _ r1 Phase.triples b0 br (p2 ∙ ap (λ l. ok (l, r2)) mb))
        (sym (ap₂ (multiply committee sid r2 tamper) ma mb) ∙ e2)

  -- The same for all parties of the params.
  pub generate-IsTriple :
      (params : Params) (sid : Bytes) (rngs : List R) (o : TripleShare F × TriplePublic G)
      (out : List (TripleShare F × TriplePublic G)) {rngs' : List R}
      → IsCommittee (parties params) params.t
      → All (λ p. p < order F) (parties params)
      → generate params sid rngs ≡ ok (o ∷ out, rngs')
      → IsTriple params.t (parties params) o.1 (o ∷ out)
  unfolding generate generate_with_tamper
  generate-IsTriple params sid rngs o out cm b e =
      generate_with_committee-IsTriple (record { ids = parties params; t = params.t }) sid rngs none
        o out (IsStrict-Distinct (parties params) cm.strict, b) cm.threshold cm.honest_majority
        (ap
            (λ (r : Result Committee).
              r >>= (λ committee. generate_with_committee committee sid rngs none))
            (sym (full_ok params cm))
          ∙ e)
