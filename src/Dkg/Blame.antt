-- ===== src/Dkg/Blame.antt =====
-- Whom `finalize` blames: one party, with the evidence of its fault in the public messages.
use ohm_ecdsa.Prelude.{
  ℕ, ◌≡◌, ◌≢◌, refl, subst, List, [], ◌∷◌, ◌++◌, some, Bool, true, false, Bool-cases, inl, inr,
  ◌==◌, length, arith,
}
use ohm_ecdsa.Core.{
  PartyId, Phase, IdentifiableAbort, Error, abort, err, expect, ensure, >>=-eq-err, expect-eq-ok,
  expect-ne-err, ensure-eq-err,
}
use ohm_ecdsa.Core.Map.{get}
use ohm_ecdsa.Field.{Field, zero_scalar, ◌⊕◌}
use ohm_ecdsa.Curve.{Group, Action}
use ohm_ecdsa.Encoding.{Bytes, same_bytes, same_bytes_iff, Hash, PointEncoding}
use ohm_ecdsa.Vss.{FeldmanCommitment, verify_share, sum}
use ohm_ecdsa.Dkg.{
  DkgBcast1, DkgBcast2, DkgInstance, Inbox, resolve_complaint, settle_share, check_share,
  check_dealer, finalize_loop, is_complete, finalize,
}
use ohm_ecdsa.Dkg.Hashing.{hash_commitment}

module _ {F G : Type 0} ⦃f : Field F⦄ ⦃g : Group G⦄ ⦃c : Action F G⦄ ⦃h : Hash⦄
    ⦃pe : PointEncoding G⦄ (inst : DkgInstance F G) (phase : Phase) (box : Inbox F G) where
  -- The faults, each with its evidence: a vector of a wrong length, a vector that does not hash to the
  -- commit, a dealer whose defense fails as its share did, an accuser whose complaint is refuted.
  pub data Fault : List PartyId → Type 0 where
    malformed :
        (i : PartyId) (b : DkgBcast2 G)
        → get i box.r2 ≡ some b
        → length b.cm.points ≢ inst.committee.t
        → Fault (i ∷ [])
    mismatch :
        (i : PartyId) (b1 : DkgBcast1) (b : DkgBcast2 G)
        → get i box.r1 ≡ some b1
        → get i box.r2 ≡ some b
        → hash_commitment inst.sid inst.tag i b.cm ≢ b1.hash
        → Fault (i ∷ [])
    bad_dealer :
        (i : PartyId) (b : DkgBcast2 G) (s d : F)
        → get i box.r2 ≡ some b
        → get i box.shares ≡ some s
        → get i box.defenses ≡ some d
        → verify_share b.cm inst.me s ≡ false
        → verify_share b.cm inst.me d ≡ false
        → Fault (i ∷ [])
    bad_accuser :
        (i : PartyId) (b : DkgBcast2 G) (s d : F)
        → get i box.r2 ≡ some b
        → get i box.shares ≡ some s
        → get i box.defenses ≡ some d
        → verify_share b.cm inst.me s ≡ false
        → verify_share b.cm inst.me d ≡ true
        → Fault (inst.me ∷ [])

  -- A fault explains an error: the error is an abort in this phase that blames the faulty party.
  pub record Explains (e : Error) : Type 0 where
    pub report : IdentifiableAbort
    pub raised : e ≡ abort report
    pub in_phase : report.phase ≡ phase
    pub fault : Fault report.blamed

  complaint_explained :
      (i : PartyId) (b : DkgBcast2 G) (s d : F)
      → get i box.r2 ≡ some b
      → get i box.shares ≡ some s
      → get i box.defenses ≡ some d
      → verify_share b.cm inst.me s ≡ false
      → Explains (resolve_complaint phase b.cm i inst.me d)
  unfolding resolve_complaint
  complaint_explained i b s d p q r v = elim (Bool-cases (verify_share b.cm inst.me d)) [
    | inl t ↦ rw t (record {
      report = _;
      raised = refl;
      in_phase = refl;
      fault = bad_accuser i b s d p q r v t;
    })
    | inr t ↦ rw t (record {
      report = _;
      raised = refl;
      in_phase = refl;
      fault = bad_dealer i b s d p q r v t;
    })
  ]

  settle_explained :
      (i : PartyId) (b : DkgBcast2 G) (s : F) (t : Bool) {e : Error}
      → get i box.r2 ≡ some b
      → get i box.shares ≡ some s
      → verify_share b.cm inst.me s ≡ t
      → settle_share phase box i b.cm inst.me s t ≡ err e
      → Explains e
  unfolding settle_share
  settle_explained i b s true p q v x = cc
  settle_explained i b s false p q v x = elim (>>=-eq-err (expect (get i box.defenses)) _ x) [
    | inl y ↦ absurd (expect-ne-err _ y)
    | inr (d, y, z) ↦ subst Explains (cc) (complaint_explained i b s d p q (expect-eq-ok _ y) v)
  ]

  check_share_explained :
      (i : PartyId) (b : DkgBcast2 G) {e : Error}
      → get i box.r2 ≡ some b
      → check_share inst phase box i b.cm ≡ err e
      → Explains e
  unfolding check_share
  check_share_explained i b p x = elim (>>=-eq-err (expect (get i box.shares)) _ x) [
    | inl y ↦ absurd (expect-ne-err _ y)
    | inr (s, y, z) ↦ settle_explained i b s _ p (expect-eq-ok _ y) refl z
  ]

  test_false : (a b : ℕ) → (a == b) ≡ false → a ≢ b
  test_false a b e p = ground arith

  bytes_false : (a b : Bytes) → same_bytes a b ≡ false → a ≢ b
  bytes_false a b e p = cc (e, (same_bytes_iff a b).1 p)

  check_dealer_explained :
      (i : PartyId) {e : Error} → check_dealer inst phase box i ≡ err e → Explains e
  unfolding check_dealer
  check_dealer_explained i {e} x = elim (>>=-eq-err (expect (get i box.r1)) _ x) [
    | inl y ↦ absurd (expect-ne-err _ y)
    | inr (b1, p1, x1) ↦ elim (>>=-eq-err (expect (get i box.r2)) _ x1) [
      | inl y ↦ absurd (expect-ne-err _ y)
      | inr (b2, p2, x2) ↦
          elim (>>=-eq-err (ensure (length b2.cm.points == inst.committee.t) _) _ x2) [
            | inl y ↦
                let (t, q) = ensure-eq-err _ _ y in
                subst Explains q (record {
                  report = _;
                  raised = refl;
                  in_phase = refl;
                  fault = malformed i b2 (expect-eq-ok _ p2) (test_false _ _ t);
                })
            | inr (_, _, x3) ↦
                elim (>>=-eq-err
                  (ensure (same_bytes (hash_commitment inst.sid inst.tag i b2.cm) b1.hash) _) _
                  x3) [
                    | inl y ↦
                        let (t, q) = ensure-eq-err _ _ y in
                        subst Explains q (record {
                          report = _;
                          raised = refl;
                          in_phase = refl;
                          fault =
                              mismatch i b1 b2 (expect-eq-ok _ p1) (expect-eq-ok _ p2)
                                (bytes_false _ _ t);
                        })
                    | inr (_, _, x4) ↦ elim (>>=-eq-err (check_share inst phase box i b2.cm) _ x4) [
                      | inl y ↦ check_share_explained i b2 (expect-eq-ok _ p2) y
                      | inr (_, _, x5) ↦ cc
                    ]
                  ]
          ]
    ]
  ]

  loop_explained :
      (ids : List PartyId) (acc : F) (cms : List (FeldmanCommitment G)) {e : Error}
      → finalize_loop inst phase box ids acc cms ≡ err e
      → Explains e
  unfolding finalize_loop
  loop_explained [] acc cms x = cc
  loop_explained (i ∷ ids) acc cms x = elim (>>=-eq-err (check_dealer inst phase box i) _ x) [
    | inl y ↦ check_dealer_explained i y
    | inr ((s, d), _, z) ↦ loop_explained ids (acc ⊕ s) (cms ++ (d ∷ [])) z
  ]

  -- Over complete message sets, an error of `finalize` is an abort that blames one party, and that
  -- party's fault is in the messages.
  pub finalize_blame :
      {e : Error}
      → is_complete (length inst.committee.ids) box ≡ true
      → finalize inst phase box ≡ err e
      → Explains e
  unfolding finalize
  finalize_blame {e} full x =
      elim (>>=-eq-err (finalize_loop inst phase box inst.committee.ids zero_scalar []) _
        (rw full at x)) [
          | inl y ↦ loop_explained inst.committee.ids zero_scalar [] y
          | inr ((s, cms), _, z) ↦ elim (>>=-eq-err (expect (sum cms)) _ z) [
            | inl y ↦ absurd (expect-ne-err _ y)
            | inr (_, _, w) ↦ cc
          ]
        ]
