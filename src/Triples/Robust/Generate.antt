-- ===== src/Triples/Robust/Generate.antt =====
-- `generate_robust_with_committee` of src/protocol/triples.rs as a whole: what the parties that are not blamed hold.
use ohm_ecdsa.Prelude.{
  ℕ, ◌+◌, ◌*◌, ◌≤◌, ◌≡◌, refl, sym, ap, ap₂, subst, ◌∙◌, List, [], ◌∷◌, ◌++◌, Option, none, some,
  not, Bool-cases, inl, inr, map, filter, length, All, All-filter, arith,
}
use ohm_ecdsa.Core.{PartyId, Phase, Committee, ok, expect, >>=-eq-ok, ok_injective, expect-eq-ok}
use ohm_ecdsa.Core.Tags.{ascii}
use ohm_ecdsa.Field.{Field}
use ohm_ecdsa.Curve.{Group, Action}
use ohm_ecdsa.Encoding.{Bytes, Hash, PointEncoding}
use ohm_ecdsa.Rng.{Rng}
use ohm_ecdsa.Shamir.{lagrange_coeffs}
use ohm_ecdsa.Shamir.Lagrange.{IsQuorum}
use ohm_ecdsa.Vss.{FeldmanCommitment, scale}
use ohm_ecdsa.Policy.{contains_id}
use ohm_ecdsa.Dkg.{DkgOutput}
use ohm_ecdsa.Dkg.Rounds.Sound.{IsSharing}
use ohm_ecdsa.Dleq.{Digest}
use ohm_ecdsa.Presign.{TripleShare, TriplePublic}
use ohm_ecdsa.Triples.{
  TripleTamper, Resharing, joint_random, reshare_all, tampered, accumulate, check_product,
  triple_records,
}
use ohm_ecdsa.Triples.Product.{weighted}
use ohm_ecdsa.Triples.Dealing.{joint_random-IsSharing, tampered-cms}
use ohm_ecdsa.Triples.Sound.{Delivered}
use ohm_ecdsa.Triples.Generate.{
  IsTriple, HoldsTriple, length-lagrange_coeffs, records-IsTriple, dealt_degrees,
}
use ohm_ecdsa.Triples.Robust.{
  Combined, recover_reshares, combine_products_robust, multiply_robust,
  generate_robust_with_committee,
}
use ohm_ecdsa.Triples.Robust.Sound.{recover_reshares_lem}

module _ {F G : Type 0} ⦃f : Field F⦄ ⦃g : Group G⦄ ⦃c : Action F G⦄ ⦃h : Hash⦄
    ⦃pe : PointEncoding G⦄ ⦃d : Digest F⦄ where
  -- T3 forms the weighted sum of the same commitments, and leaves shares that all pass.
  combine_products_robust_ok :
      (sid : Bytes) (ids : List PartyId) (t : ℕ) (ca cb : FeldmanCommitment G) (js : List PartyId)
      (ls : List F) (rs : List (Resharing F G)) (sum : Option (FeldmanCommitment G))
      {out : Combined F G}
      → IsQuorum F ids
      → All (λ (d : FeldmanCommitment G). length d.points ≤ t) (map (λ r. r.cm) rs)
      → length ls ≡ length js
      → length rs ≡ length js
      → combine_products_robust sid ids t ca cb js ls rs sum ≡ ok out
      → (weighted ls (map (λ r. r.cm) rs) sum ≡ out.sum)
        × (map (λ r. r.cm) out.dealt ≡ map (λ r. r.cm) rs)
        × All (Delivered ids) out.dealt
  unfolding combine_products_robust weighted
  combine_products_robust_ok sid ids t ca cb [] [] [] sum {out} quorum a m n e =
      subst
        (λ (out : Combined F G).
          (sum ≡ out.sum) × (map (λ r. r.cm) out.dealt ≡ []) × All (Delivered ids) out.dealt)
        (ok_injective e) (refl, refl, tt)
  combine_products_robust_ok sid ids t ca cb [] [] (r ∷ rs) sum quorum a m n e =
      absurd (omega arith)
  combine_products_robust_ok sid ids t ca cb [] (l ∷ ls) rs sum quorum a m n e =
      absurd (omega arith)
  combine_products_robust_ok sid ids t ca cb (j ∷ js) [] rs sum quorum a m n e =
      absurd (omega arith)
  combine_products_robust_ok sid ids t ca cb (j ∷ js) (l ∷ ls) [] sum quorum a m n e =
      absurd (omega arith)
  combine_products_robust_ok sid ids t ca cb (j ∷ js) (l ∷ ls) (r ∷ rs) sum {out} quorum (b, a) m n
        e =
      let (u, p, e1) = >>=-eq-ok (check_product sid ca cb j r) _ e in
      let ((ss, blame), q, e2) = >>=-eq-ok (recover_reshares r.cm t j ids r.shares) _ e1 in
      let (rest, w, e3) =
        >>=-eq-ok
          (combine_products_robust sid ids t ca cb js ls rs (some (accumulate sum (scale r.cm l))))
          _ e2 in
      let (x, y, z) =
        combine_products_robust_ok sid ids t ca cb js ls rs (some (accumulate sum (scale r.cm l)))
          quorum a (omega arith) (omega arith) w in
      subst
        (λ (out : Combined F G).
          (weighted ls (map (λ r. r.cm) rs) (some (accumulate sum (scale r.cm l))) ≡ out.sum)
          × (map (λ r. r.cm) out.dealt ≡ r.cm ∷ map (λ r. r.cm) rs)
          × All (Delivered ids) out.dealt)
        (ok_injective e3)
        (
          x,
          ap (λ ds. r.cm ∷ ds) y,
          (recover_reshares_lem r.cm t j ids r.shares ss blame quorum b q, z),
        )

module _ {F G : Type 0} ⦃f : Field F⦄ ⦃g : Group G⦄ ⦃c : Action F G⦄ where
  filtered_indices :
      (blamed : List PartyId) (out : List (TripleShare F × TriplePublic G))
      → map (λ o. o.0.index) (filter (λ o. not (contains_id blamed o.0.index)) out)
        ≡ filter (λ p. not (contains_id blamed p)) (map (λ o. o.0.index) out)
  filtered_indices blamed [] = refl
  filtered_indices blamed (o ∷ os) = elim (Bool-cases (not (contains_id blamed o.0.index))) [
    | inl e ↦ rw e (ap (λ is. o.0.index ∷ is) (filtered_indices blamed os))
    | inr e ↦ rw e (filtered_indices blamed os)
  ]

  -- The records of the parties that are not blamed are a triple too.
  filtered_IsTriple :
      (t : ℕ) (ids blamed : List PartyId) (public : TriplePublic G)
      (recs : List (TripleShare F × TriplePublic G)) (o : TripleShare F × TriplePublic G)
      (out : List (TripleShare F × TriplePublic G))
      → IsTriple t ids public recs
      → filter (λ o. not (contains_id blamed o.0.index)) recs ≡ o ∷ out
      → IsTriple t (filter (λ p. not (contains_id blamed p)) ids) o.1 (o ∷ out)
  filtered_IsTriple t ids blamed public recs o out s e =
      let kept : All (HoldsTriple public) (o ∷ out) =
        subst (All (HoldsTriple public)) e (All-filter (HoldsTriple public) _ recs s.held) in
      subst (λ pub'. IsTriple t (filter (λ p. not (contains_id blamed p)) ids) pub' (o ∷ out))
        (sym kept.0.0)
        (record {
          indices =
              ap (map (λ o. o.0.index)) (sym e)
              ∙ (filtered_indices blamed recs
                  ∙ ap (filter (λ p. not (contains_id blamed p))) s.indices);
          held = kept;
          degrees = s.degrees;
          product = s.product;
        })

module _ {F G R : Type 0} ⦃f : Field F⦄ ⦃g : Group G⦄ ⦃c : Action F G⦄ ⦃h : Hash⦄
    ⦃pe : PointEncoding G⦄ ⦃d : Digest F⦄ ⦃rng : Rng F R⦄ (committee : Committee) (sid : Bytes)
    (rngs : List R) (tamper : Option TripleTamper) (quorum : IsQuorum F committee.ids)
    (t1 : 1 ≤ committee.t) (n : 2 * committee.t ≤ length committee.ids + 1) where
  robust_steps :
      (a0 b0 : DkgOutput F G) (as' bs : List (DkgOutput F G)) (lambdas : List F)
      (dealt : List (Resharing F G)) (combined : Combined F G) (total : FeldmanCommitment G)
      (recs : List (TripleShare F × TriplePublic G)) (o : TripleShare F × TriplePublic G)
      (out : List (TripleShare F × TriplePublic G)) (blamed : List PartyId) {rngs1 : List R}
      → IsSharing committee.t committee.ids a0.cm as'
      → IsSharing committee.t committee.ids b0.cm bs
      → lagrange_coeffs committee.ids ≡ some lambdas
      → reshare_all committee.ids committee.t sid b0.cm committee.ids
          (map (λ o. o.share) as')
          (map (λ o. o.share) bs)
          rngs
        ≡ ok (dealt, rngs1)
      → combine_products_robust sid committee.ids committee.t a0.cm b0.cm committee.ids lambdas
          (tampered committee tamper dealt)
          none
        ≡ ok combined
      → combined.sum ≡ some total
      → triple_records 0 committee.ids
          (map (λ o. o.share) as')
          (map (λ o. o.share) bs)
          lambdas
          combined.dealt
          (record { ca = a0.cm; cb = b0.cm; cc = total })
        ≡ ok recs
      → filter (λ o. not (contains_id combined.blamed o.0.index)) recs ≡ o ∷ out
      → combined.blamed ≡ blamed
      → IsTriple committee.t (filter (λ p. not (contains_id blamed p)) committee.ids) o.1 (o ∷ out)
  robust_steps a0 b0 as' bs lambdas dealt combined total [] o out blamed sa sb hl p3 p4 q p5 e eb =
      cc e
  robust_steps a0 b0 as' bs lambdas dealt combined total (x ∷ xs) o out blamed sa sb hl p3 p4 q p5 e
        eb =
      let ids = committee.ids in
      let rs = tampered committee tamper dealt in
      let (ds, m) =
        dealt_degrees committee sid rngs tamper quorum t1 n a0 b0 as' bs dealt rs sa sb p3
          (tampered-cms committee tamper dealt) in
      let (w, same, dv) =
        combine_products_robust_ok sid ids committee.t a0.cm b0.cm ids lambdas rs none quorum ds
          (length-lagrange_coeffs ids lambdas quorum hl) m p4 in
      let full : IsTriple committee.t ids x.1 (x ∷ xs) =
        records-IsTriple committee sid rngs tamper quorum t1 n a0 b0 as' bs lambdas dealt
          combined.dealt total x xs sa sb hl p3 (same ∙ tampered-cms committee tamper dealt)
          (ap (λ ds. weighted lambdas ds none) same ∙ (w ∙ q)) dv p5 in
      subst (λ bl. IsTriple committee.t (filter (λ p. not (contains_id bl p)) ids) o.1 (o ∷ out)) eb
        (filtered_IsTriple committee.t ids combined.blamed x.1 (x ∷ xs) o out full e)

  multiply_robust-IsTriple :
      (a0 b0 : DkgOutput F G) (as' bs : List (DkgOutput F G)) (o : TripleShare F × TriplePublic G)
      (out : List (TripleShare F × TriplePublic G)) (blamed : List PartyId) {rngs' : List R}
      → IsSharing committee.t committee.ids a0.cm (a0 ∷ as')
      → IsSharing committee.t committee.ids b0.cm (b0 ∷ bs)
      → multiply_robust committee sid rngs tamper (a0 ∷ as') (b0 ∷ bs)
        ≡ ok ((o ∷ out, blamed), rngs')
      → IsTriple committee.t (filter (λ p. not (contains_id blamed p)) committee.ids) o.1 (o ∷ out)
  unfolding multiply_robust
  multiply_robust-IsTriple a0 b0 as' bs o out blamed sa sb e =
      let ids = committee.ids in
      let (lambdas, hl, e1) = >>=-eq-ok (expect (lagrange_coeffs ids)) _ e in
      let ((dealt, rngs1), p3, e2) =
        >>=-eq-ok (reshare_all ids committee.t sid b0.cm ids _ _ rngs) _ e1 in
      let rs = tampered committee tamper dealt in
      let (combined, p4, e3) =
        >>=-eq-ok (combine_products_robust sid ids committee.t a0.cm b0.cm ids lambdas rs none) _
          e2 in
      let (total, q, e4) = >>=-eq-ok (expect combined.sum) _ e3 in
      let (recs, p5, e5) = >>=-eq-ok (triple_records 0 ids _ _ lambdas combined.dealt _) _ e4 in
      robust_steps a0 b0 (a0 ∷ as') (b0 ∷ bs) lambdas dealt combined total recs o out blamed sa sb
        (expect-eq-ok _ hl) p3 p4 (expect-eq-ok _ q) p5 (ap (λ t. t.0.0) (ok_injective e5))
        (ap (λ t. t.0.1) (ok_injective e5))

module _ {F G R : Type 0} ⦃f : Field F⦄ ⦃g : Group G⦄ ⦃c : Action F G⦄ ⦃h : Hash⦄
    ⦃pe : PointEncoding G⦄ ⦃d : Digest F⦄ ⦃rng : Rng F R⦄ where
  multiply_robust_ok :
      (committee : Committee) (sid : Bytes) (rngs : List R) (tamper : Option TripleTamper)
      (as' bs : List (DkgOutput F G))
      {out : (List (TripleShare F × TriplePublic G) × List PartyId) × List R}
      → multiply_robust committee sid rngs tamper as' bs ≡ ok out
      → (a0 b0 : DkgOutput F G) × (ar br : List (DkgOutput F G)) × (as' ≡ a0 ∷ ar) × (bs ≡ b0 ∷ br)
  unfolding multiply_robust
  multiply_robust_ok committee sid rngs tamper [] bs e = cc e
  multiply_robust_ok committee sid rngs tamper (a ∷ ar) [] e = cc e
  multiply_robust_ok committee sid rngs tamper (a ∷ ar) (b ∷ br) e = (a, b, ar, br, refl, refl)

  -- With t ≥ 1 and at least 2t - 1 parties, of distinct ids below the field's order: a robust generation that
  -- returns a record, with any fault injection, leaves a triple with exactly the parties that it does not blame.
  -- Their shares of α, β and γ pass against the same commitments of at most t points, and γ = α·β.
  pub generate_robust-IsTriple :
      (committee : Committee) (sid : Bytes) (rngs : List R) (tamper : Option TripleTamper)
      (o : TripleShare F × TriplePublic G) (out : List (TripleShare F × TriplePublic G))
      (blamed : List PartyId) {rngs' : List R}
      → IsQuorum F committee.ids
      → 1 ≤ committee.t
      → 2 * committee.t ≤ length committee.ids + 1
      → generate_robust_with_committee committee sid rngs tamper ≡ ok ((o ∷ out, blamed), rngs')
      → IsTriple committee.t (filter (λ p. not (contains_id blamed p)) committee.ids) o.1 (o ∷ out)
  unfolding generate_robust_with_committee
  generate_robust-IsTriple committee sid rngs tamper o out blamed quorum t1 n e =
      let ((aos, r1), p1, e1) =
        >>=-eq-ok (joint_random committee (sid ++ ascii "/alpha") rngs Phase.triples) _ e in
      let ((bos, r2), p2, e2) =
        >>=-eq-ok (joint_random committee (sid ++ ascii "/beta") r1 Phase.triples) _ e1 in
      let (a0, b0, ar, br, ma, mb) = multiply_robust_ok committee sid r2 tamper aos bos e2 in
      multiply_robust-IsTriple committee sid r2 tamper quorum t1 n a0 b0 ar br o out blamed
        (joint_random-IsSharing committee _ rngs Phase.triples a0 ar (p1 ∙ ap (λ l. ok (l, r1)) ma))
        (joint_random-IsSharing committee _ r1 Phase.triples b0 br (p2 ∙ ap (λ l. ok (l, r2)) mb))
        (sym (ap₂ (multiply_robust committee sid r2 tamper) ma mb) ∙ e2)
