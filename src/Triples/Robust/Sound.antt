-- ===== src/Triples/Robust/Sound.antt =====
-- Robust triple generation: the shares that it computes again are those that were committed to, so the parties
-- that are not blamed hold a triple as if no dealer had cheated.
use ohm_ecdsa.Prelude.{
  ℕ, zero, suc, ◌≤◌, ◌≡◌, refl, sym, ap, ap₂, subst, ◌∙◌, List, [], ◌∷◌, some, true, false,
  Bool-cases, inl, inr, ltb, map, filter, length, length-map, take, Distinct-take, All, All-take,
  All-get_elem?, get_elem?, arith,
}
use ohm_ecdsa.Core.{PartyId, ok, expect, >>=-eq-ok, ok_injective, expect-eq-ok}
use ohm_ecdsa.Field.{Field, from_u64}
use ohm_ecdsa.Curve.{Group, Action}
use ohm_ecdsa.Shamir.{interpolate_at, eval, eval_at}
use ohm_ecdsa.Shamir.Lagrange.{IsQuorum}
use ohm_ecdsa.Vss.{FeldmanCommitment, verify_share}
use ohm_ecdsa.Vss.Laws.{log_poly, verify_share-log_poly}
use ohm_ecdsa.Open.{Checked}
use ohm_ecdsa.Open.Check.{passes, culprits, check_shares-filter}
use ohm_ecdsa.Open.Laws.{interpolate_first_passing}
use ohm_ecdsa.Policy.{contains_id}
use ohm_ecdsa.Triples.Robust.{addressed, recompute_one, recomputed, reconstruct, recover_reshares}

module _ {F : Type 0} where
  addressed_cons :
      (i : PartyId) (ids : List PartyId) (s : F) (ss : List F) (e : PartyId × F)
      (es : List (PartyId × F))
      → addressed (i ∷ ids) (s ∷ ss) ≡ ok (e ∷ es)
      → (addressed ids ss ≡ ok es) × ((i, s) ≡ e)
  unfolding addressed
  addressed_cons i ids s ss e es h =
      let (rest, p, q) = >>=-eq-ok (addressed ids ss) _ h in
      let m : (i, s) ∷ rest ≡ e ∷ es = ok_injective q in
      let t : rest ≡ es = cc m in (p ∙ ap ok t, cc m)

  -- The receivers are the first ids.
  addressed-take :
      (ids : List PartyId) (ss : List F) (es : List (PartyId × F))
      → addressed ids ss ≡ ok es
      → map (λ e. e.0) es ≡ take (length ss) ids
  addressed-take ids [] [] h = unfold addressed in ground arith
  addressed-take ids [] (e ∷ es) h = unfold addressed in cc h
  addressed-take [] (s ∷ ss) es h = unfold addressed in cc h
  addressed-take (i ∷ ids) (s ∷ ss) [] h =
      unfold addressed in let (rest, p, q) = >>=-eq-ok (addressed ids ss) _ h in cc q
  addressed-take (i ∷ ids) (s ∷ ss) (e ∷ es) h =
      let (p, q) = addressed_cons i ids s ss e es h in
      ap₂ ◌∷◌ (sym (ap (λ (x : PartyId × F). x.0) q)) (addressed-take ids ss es p)

  -- Each share stands beside the id at its place.
  addressed-get_elem? :
      (ids : List PartyId) (ss : List F) (es : List (PartyId × F)) (k : ℕ) (i : PartyId) (s : F)
      → addressed ids ss ≡ ok es
      → get_elem? ids k ≡ some i
      → get_elem? ss k ≡ some s
      → get_elem? es k ≡ some (i, s)
  addressed-get_elem? ids [] es k i s h p q = cc q
  addressed-get_elem? [] (x ∷ ss) es k i s h p q = cc p
  addressed-get_elem? (j ∷ ids) (x ∷ ss) [] k i s h p q =
      unfold addressed in let (rest, u, v) = >>=-eq-ok (addressed ids ss) _ h in cc v
  addressed-get_elem? (j ∷ ids) (x ∷ ss) (e ∷ es) zero i s h p q =
      let (u, v) = addressed_cons j ids x ss e es h in
      let a : j ≡ i = cc p in let b : x ≡ s = cc q in ap some (sym v ∙ λ t. (a t, b t))
  addressed-get_elem? (j ∷ ids) (x ∷ ss) (e ∷ es) (suc k) i s h p q =
      addressed-get_elem? ids ss es k i s (addressed_cons j ids x ss e es h).0 p q

  addressed-id :
      (ids : List PartyId) (ss : List F) (es : List (PartyId × F)) (k : ℕ) (i : PartyId)
      (e : PartyId × F)
      → addressed ids ss ≡ ok es
      → get_elem? ids k ≡ some i
      → get_elem? es k ≡ some e
      → e.0 ≡ i
  addressed-id ids [] [] k i e h p q = cc q
  addressed-id ids [] (x ∷ es) k i e h p q = unfold addressed in cc h
  addressed-id [] (x ∷ ss) es k i e h p q = cc p
  addressed-id (j ∷ ids) (x ∷ ss) [] k i e h p q = cc q
  addressed-id (j ∷ ids) (x ∷ ss) (y ∷ es) zero i e h p q =
      let (u, v) = addressed_cons j ids x ss y es h in
      let a : j ≡ i = cc p in
      let b : y ≡ e = cc q in
      ap (λ (z : PartyId × F). z.0) (sym b) ∙ (ap (λ (z : PartyId × F). z.0) (sym v) ∙ a)
  addressed-id (j ∷ ids) (x ∷ ss) (y ∷ es) (suc k) i e h p q =
      addressed-id ids ss es k i e (addressed_cons j ids x ss y es h).0 p q

module _ {F : Type 0} ⦃f : Field F⦄ where
  recomputed_cons :
      (victims vp : List PartyId) (vs : List F) (j : PartyId) (x : F) (es : List (PartyId × F))
      (y : F) (ss : List F)
      → recomputed victims vp vs ((j, x) ∷ es) ≡ ok (y ∷ ss)
      → (recompute_one victims vp vs j x ≡ ok y) × (recomputed victims vp vs es ≡ ok ss)
  unfolding recomputed
  recomputed_cons victims vp vs j x es y ss e =
      let (z, p, e1) = >>=-eq-ok (recompute_one victims vp vs j x) _ e in
      let (rest, q, e2) = >>=-eq-ok (recomputed victims vp vs es) _ e1 in
      let m : z ∷ rest ≡ y ∷ ss = ok_injective e2 in
      let a : z ≡ y = cc m in let b : rest ≡ ss = cc m in (p ∙ ap ok a, q ∙ ap ok b)

module _ {F G : Type 0} ⦃f : Field F⦄ ⦃g : Group G⦄ ⦃c : Action F G⦄ where
  contains-culprits :
      (cm : FeldmanCommitment G) (i j : PartyId) (s : F) (es : List (PartyId × F))
      → contains_id (culprits cm es) i ≡ true
      → contains_id (culprits cm ((j, s) ∷ es)) i ≡ true
  contains-culprits cm i j s es h = elim (Bool-cases (verify_share cm j s)) [
    | inl v ↦ rw v h
    | inr v ↦ rw v (ground arith)
  ]

  -- A receiver that is no victim has a share that passes.
  unblamed_pass :
      (cm : FeldmanCommitment G) (victims : List PartyId) (es : List (PartyId × F))
      → ((i : PartyId) → contains_id (culprits cm es) i ≡ true → contains_id victims i ≡ true)
      → All (λ e. contains_id victims e.0 ≡ false → verify_share cm e.0 e.1 ≡ true) es
  unblamed_pass cm victims [] h = tt
  unblamed_pass cm victims ((i, s) ∷ es) h = (
    λ out. elim (Bool-cases (verify_share cm i s)) [
      | inl v ↦ v
      | inr v ↦
          let there : contains_id victims i ≡ true = h i (rw v (ground arith)) in
          let no : true ≡ false = sym there ∙ out in cc no
    ],
    unblamed_pass cm victims es (λ j t. h j (contains-culprits cm j i s es t)),
  )

  one_passes :
      (cm : FeldmanCommitment G) (victims vp : List PartyId) (vs : List F) (j : PartyId) (x y : F)
      → interpolate_at (from_u64 j) vp vs ≡ some (eval (log_poly F cm) j)
      → (contains_id victims j ≡ false → verify_share cm j x ≡ true)
      → recompute_one victims vp vs j x ≡ ok y
      → verify_share cm j y ≡ true
  unfolding recompute_one
  one_passes cm victims vp vs j x y h b e = elim (Bool-cases (contains_id victims j)) [
    | inl t ↦
        let p : expect (interpolate_at (from_u64 j) vp vs) ≡ ok y = rw t at e in
        let q : some y ≡ some (eval (log_poly F cm) j) = sym (expect-eq-ok _ p) ∙ h in
        (verify_share-log_poly cm j y).1 (cc q)
    | inr t ↦
        let p : ok x ≡ ok y = rw t at e in
        subst (λ s. verify_share cm j s ≡ true) (ok_injective p) (b t)
  ]

  -- The shares that `recomputed` leaves pass, place by place.
  recomputed_lem :
      (cm : FeldmanCommitment G) (victims vp : List PartyId) (vs : List F) (es : List (PartyId × F))
      (ss : List F) (k : ℕ) (s : F)
      → ((i : PartyId) → interpolate_at (from_u64 i) vp vs ≡ some (eval (log_poly F cm) i))
      → All (λ e. contains_id victims e.0 ≡ false → verify_share cm e.0 e.1 ≡ true) es
      → recomputed victims vp vs es ≡ ok ss
      → get_elem? ss k ≡ some s
      → (e : PartyId × F) × (get_elem? es k ≡ some e) × (verify_share cm e.0 s ≡ true)
  recomputed_lem cm victims vp vs [] [] k s h a e q = cc q
  recomputed_lem cm victims vp vs [] (y ∷ ss) k s h a e q = unfold recomputed in cc e
  recomputed_lem cm victims vp vs ((j, x) ∷ es) [] k s h a e q = cc q
  recomputed_lem cm victims vp vs ((j, x) ∷ es) (y ∷ ss) zero s h (b, a) e q =
      let (u, _) = recomputed_cons victims vp vs j x es y ss e in
      let same : y ≡ s = cc q in
      (
        (j, x),
        refl,
        subst (λ t. verify_share cm j t ≡ true) same (one_passes cm victims vp vs j x y (h j) b u),
      )
  recomputed_lem cm victims vp vs ((j, x) ∷ es) (y ∷ ss) (suc k) s h (b, a) e q =
      let (_, u) = recomputed_cons victims vp vs j x es y ss e in
      recomputed_lem cm victims vp vs es ss k s h a u q

  reconstruct_lem :
      (cm : FeldmanCommitment G) (t : ℕ) (j : PartyId) (ids : List PartyId) (ss ss' : List F)
      (es : List (PartyId × F)) (blame : List PartyId)
      → IsQuorum F (map (λ e. e.0) es)
      → length cm.points ≤ t
      → addressed ids ss ≡ ok es
      → (victims : List PartyId) → culprits cm es ≡ victims
      → reconstruct t j ss es
          (map (λ e. e.0) (filter (passes cm) es))
          (map (λ e. e.1) (filter (passes cm) es))
          victims
        ≡ ok (ss', blame)
      → (k : ℕ) (i : PartyId) (s : F) → get_elem? ids k ≡ some i
      → get_elem? ss' k ≡ some s
      → verify_share cm i s ≡ true
  unfolding reconstruct eval eval_at
  reconstruct_lem cm t j ids ss ss' es blame quorum lc h [] ev e k i s p q =
      let same : ss ≡ ss' = ap (λ (r : List F × List PartyId). r.0) (ok_injective e) in
      let here : get_elem? ss k ≡ some s = ap (λ l. get_elem? l k) same ∙ q in
      All-get_elem? _ es k
        (unblamed_pass cm [] es (λ i t. sym (ap (λ vs. contains_id vs i) ev) ∙ t))
        (addressed-get_elem? ids ss es k i s h p here) refl
  reconstruct_lem cm t j ids ss ss' es blame quorum lc h (w ∷ ws) ev e k i s p q =
      elim (Bool-cases (ltb (length (map (λ e. e.0) (filter (passes cm) es))) t)) [
        | inl l ↦ cc (rw l at e)
        | inr l ↦
            let enough : t ≤ length (filter (passes cm) es) =
              ground (arith, length-map (filter (passes cm) es) (λ (e : PartyId × F). e.0)) in
            let vp = take t (map (λ e. e.0) (filter (passes cm) es)) in
            let vs = take t (map (λ e. e.1) (filter (passes cm) es)) in
            let (rs, u, v) = >>=-eq-ok (recomputed (w ∷ ws) vp vs es) _ (rw l at e) in
            let same : rs ≡ ss' = ap (λ (r : List F × List PartyId). r.0) (ok_injective v) in
            let (x, at, pass) =
              recomputed_lem cm (w ∷ ws) vp vs es rs k s
                (λ i. interpolate_first_passing cm (from_u64 i) t es quorum lc enough)
                (unblamed_pass cm (w ∷ ws) es (λ i t. sym (ap (λ vs. contains_id vs i) ev) ∙ t)) u
                (ap (λ l. get_elem? l k) same ∙ q) in
            subst (λ i. verify_share cm i s ≡ true) (addressed-id ids ss es k i x h p at) pass
      ]

  -- The shares of a dealer after T3 pass, whether or not some had to be computed again.
  pub recover_reshares_lem :
      (cm : FeldmanCommitment G) (t : ℕ) (j : PartyId) (ids : List PartyId) (ss ss' : List F)
      (blame : List PartyId)
      → IsQuorum F ids
      → length cm.points ≤ t
      → recover_reshares cm t j ids ss ≡ ok (ss', blame)
      → (k : ℕ) (i : PartyId) (s : F) → get_elem? ids k ≡ some i
      → get_elem? ss' k ≡ some s
      → verify_share cm i s ≡ true
  unfolding recover_reshares
  recover_reshares_lem cm t j ids ss ss' blame quorum lc e k i s p q =
      let (es, h, e1) = >>=-eq-ok (addressed ids ss) _ e in
      let es-IsQuorum : IsQuorum F (map (λ e. e.0) es) =
        subst (IsQuorum F) (sym (addressed-take ids ss es h))
          (Distinct-take _ ids quorum.0, All-take _ _ ids quorum.1) in
      reconstruct_lem cm t j ids ss ss' es blame es-IsQuorum lc h (culprits cm es) refl
        (ap (λ (v : Checked F). reconstruct t j ss es v.valid_parties v.valid_shares v.blamed)
            (sym (check_shares-filter cm es))
          ∙ e1)
        k i s p q
