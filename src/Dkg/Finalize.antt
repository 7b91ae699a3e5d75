-- ===== src/Dkg/Finalize.antt =====
-- What `finalize` guarantees when it succeeds: every dealer's vector was bound by its round-1 hash, the
-- party's share lies on the sum of the revealed vectors, and all parties hold the same sum.
use ohm_ecdsa.Prelude.{
  ◌≡◌, refl, sym, ap, subst, ap₂, ◌∙◌, List, [], ◌∷◌, ◌++◌, none, some, Bool, true, false,
  Bool-cases, inl, inr, ◌==◌, length, All, ==_iff,
}
use mathlib.Core.List.{append-nil, append_assoc}
use ohm_ecdsa.Core.{
  PartyId, Phase, ok, expect, ensure, >>=-eq-ok, ok_injective, expect-eq-ok, ensure-eq-ok,
}
use ohm_ecdsa.Core.Map.{Map, get}
use ohm_ecdsa.Field.{Field, zero_scalar, ◌⊕◌, from_u64}
use ohm_ecdsa.Curve.{Group, Action, generator, ◌⊞◌, ◌⊡◌}
use ohm_ecdsa.Curve.Laws.{pmul-zero, pmul-add, padd-identity, padd_assoc, identity-padd}
use ohm_ecdsa.Encoding.{same_bytes, same_bytes_iff, Hash, PointEncoding}
use ohm_ecdsa.Vss.{FeldmanCommitment, verify_share, sum}
use ohm_ecdsa.Vss.Laws.{total_at, eval_at_point-sum, verify_share_iff}
use ohm_ecdsa.Dkg.{
  DkgBcast1, DkgBcast2, DkgInstance, DkgOutput, Inbox, settle_share, check_share, check_dealer,
  finalize_loop, is_complete, finalize,
}
use ohm_ecdsa.Dkg.Hashing.{hash_commitment}

module _ {F G : Type 0} ⦃f : Field F⦄ ⦃g : Group G⦄ ⦃c : Action F G⦄ ⦃h : Hash⦄
    ⦃pe : PointEncoding G⦄ (inst : DkgInstance F G) (phase : Phase) (box : Inbox F G) where
  -- Dealer i revealed the vector cm, which has t points and hashes to its round-1 broadcast.
  pub record IsBound (i : PartyId) (cm : FeldmanCommitment G) : Type 0 where
    pub b1 : DkgBcast1
    pub b2 : DkgBcast2 G
    pub committed : get i box.r1 ≡ some b1
    pub revealed : get i box.r2 ≡ some b2
    pub same : b2.cm ≡ cm
    pub degree : length cm.points ≡ inst.committee.t
    pub hashes : hash_commitment inst.sid inst.tag i cm ≡ b1.hash

  settle_share_ok :
      (i : PartyId) (cm : FeldmanCommitment G) (s : F) (b : Bool) {s' : F}
      → settle_share phase box i cm inst.me s b ≡ ok s'
      → (s ≡ s') × (b ≡ true)
  unfolding settle_share
  settle_share_ok i cm s true e = (cc, refl)
  settle_share_ok i cm s false e = let (d, _, q) = >>=-eq-ok (expect (get i box.defenses)) _ e in cc

  check_share_ok :
      (i : PartyId) (cm : FeldmanCommitment G) {s : F}
      → check_share inst phase box i cm ≡ ok s
      → (get i box.shares ≡ some s) × (verify_share cm inst.me s ≡ true)
  unfolding check_share
  check_share_ok i cm {s} e =
      let (s', p, q) = >>=-eq-ok (expect (get i box.shares)) _ e in
      let (r, v) = settle_share_ok i cm s' _ q in
      (expect-eq-ok (get i box.shares) p ∙ ap some r, ap (verify_share cm inst.me) (sym r) ∙ v)

  -- What the loop's body established about dealer i.
  pub record IsAccepted (i : PartyId) (s : F) (cm : FeldmanCommitment G) : Type 0 where
    pub bound : IsBound i cm
    pub received : get i box.shares ≡ some s
    pub verified : verify_share cm inst.me s ≡ true

  accepted :
      (i : PartyId) (b1 : DkgBcast1) (b2 : DkgBcast2 G) (s : F)
      → get i box.r1 ≡ some b1
      → get i box.r2 ≡ some b2
      → (length b2.cm.points == inst.committee.t) ≡ true
      → same_bytes (hash_commitment inst.sid inst.tag i b2.cm) b1.hash ≡ true
      → get i box.shares ≡ some s
      → verify_share b2.cm inst.me s ≡ true
      → IsAccepted i s b2.cm
  accepted i b1 b2 s p1 p2 p3 p4 r v = record {
    bound = record {
      b1 = b1;
      b2 = b2;
      committed = p1;
      revealed = p2;
      same = refl;
      degree = (==_iff _ _).0 p3;
      hashes = (same_bytes_iff _ _).0 p4;
    };
    received = r;
    verified = v;
  }

  check_dealer_ok :
      (i : PartyId) {s : F} {cm : FeldmanCommitment G}
      → check_dealer inst phase box i ≡ ok (s, cm)
      → IsAccepted i s cm
  unfolding check_dealer
  check_dealer_ok i {s} {cm} e =
      let (b1, p1, e1) = >>=-eq-ok (expect (get i box.r1)) _ e in
      let (b2, p2, e2) = >>=-eq-ok (expect (get i box.r2)) _ e1 in
      let (_, p3, e3) = >>=-eq-ok (ensure (length b2.cm.points == inst.committee.t) _) _ e2 in
      let (_, p4, e4) =
        >>=-eq-ok (ensure (same_bytes (hash_commitment inst.sid inst.tag i b2.cm) b1.hash) _) _
          e3 in
      let (s', p5, e5) = >>=-eq-ok (check_share inst phase box i b2.cm) _ e4 in
      let (r, v) = check_share_ok i b2.cm p5 in
      subst (λ (t : F × FeldmanCommitment G). IsAccepted i t.0 t.1) (ok_injective e5)
        (accepted i b1 b2 s' (expect-eq-ok (get i box.r1) p1) (expect-eq-ok (get i box.r2) p2)
          (ensure-eq-ok _ _ p3) (ensure-eq-ok _ _ p4) r v)

  -- The accepted dealings, in the order of the members.
  pub data Accepted : List PartyId → List F → List (FeldmanCommitment G) → Type 0 where
    none_left : Accepted [] [] []
    next :
        {i : PartyId} {s : F} {cm : FeldmanCommitment G} {ids : List PartyId} {ss : List F}
        {cms : List (FeldmanCommitment G)}
        → IsAccepted i s cm
        → Accepted ids ss cms
        → Accepted (i ∷ ids) (s ∷ ss) (cm ∷ cms)

-- acc + s₀ + s₁ + …, as the loop adds.
abbrev pub total : {F : Type 0} ⦃f : Field F⦄ → F → List F → F
total acc [] = acc
total acc (s ∷ ss) = total (acc ⊕ s) ss

-- The vectors that the members revealed, in their order.
abbrev pub revealed_of :
    {G : Type 0} → Map (DkgBcast2 G) → List PartyId → List (FeldmanCommitment G)
revealed_of r2 [] = []
revealed_of r2 (i ∷ ids) = elim (get i r2) [
  | none ↦ revealed_of r2 ids
  | some b ↦ b.cm ∷ revealed_of r2 ids
]

module _ {F G : Type 0} ⦃f : Field F⦄ ⦃g : Group G⦄ ⦃c : Action F G⦄ ⦃h : Hash⦄
    ⦃pe : PointEncoding G⦄ (inst : DkgInstance F G) (phase : Phase) (box : Inbox F G) where
  finalize_loop_ok :
      (ids : List PartyId) (acc : F) (cms : List (FeldmanCommitment G)) {s : F}
      {out : List (FeldmanCommitment G)}
      → finalize_loop inst phase box ids acc cms ≡ ok (s, out)
      → (ss : List F) × (ds : List (FeldmanCommitment G)) × Accepted inst phase box ids ss ds
        × (s ≡ total acc ss)
        × (out ≡ cms ++ ds)
  unfolding finalize_loop
  finalize_loop_ok [] acc cms {s} {out} e =
      let q : (acc, cms) ≡ (s, out) = cc in
      (
        [],
        [],
        none_left,
        ap (λ (t : F × List (FeldmanCommitment G)). t.0) (sym q),
        ap (λ (t : F × List (FeldmanCommitment G)). t.1) (sym q) ∙ sym (append-nil cms),
      )
  finalize_loop_ok (i ∷ ids) acc cms e =
      let ((s, d), p, q) = >>=-eq-ok (check_dealer inst phase box i) _ e in
      let (ss, ds, a, r, o) = finalize_loop_ok ids (acc ⊕ s) (cms ++ (d ∷ [])) q in
      (
        s ∷ ss,
        d ∷ ds,
        next (check_dealer_ok inst phase box i p) a,
        r,
        o ∙ append_assoc cms (d ∷ []) ds,
      )

  Accepted-total :
      {ids : List PartyId} {ss : List F} {ds : List (FeldmanCommitment G)}
      → Accepted inst phase box ids ss ds
      → (acc : F)
      → generator ⊡ total acc ss ≡ generator {G = G} ⊡ acc ⊞ total_at ds (from_u64 {F = F} inst.me)
  unfolding total_at
  Accepted-total none_left acc = sym (padd-identity _)
  Accepted-total (next {s = s} {cm = d} {ss = ss} {cms = ds} a rest) acc =
      Accepted-total rest (acc ⊕ s)
      ∙ (ap (λ p. p ⊞ total_at ds (from_u64 {F = F} inst.me))
            (pmul-add generator acc s
              ∙ ap (λ p. generator ⊡ acc ⊞ p) ((verify_share_iff d inst.me s).0 a.verified))
          ∙ padd_assoc _ _ _)

  Accepted-revealed :
      {ids : List PartyId} {ss : List F} {ds : List (FeldmanCommitment G)}
      → Accepted inst phase box ids ss ds
      → ds ≡ revealed_of box.r2 ids
  Accepted-revealed none_left = refl
  Accepted-revealed (next {i = i} {ids = ids} a rest) =
      rw (a.bound.revealed, revealed_of) (ap₂ ◌∷◌ (sym a.bound.same) (Accepted-revealed rest))

  Accepted-IsBound :
      {ids : List PartyId} {ss : List F} {ds : List (FeldmanCommitment G)}
      → Accepted inst phase box ids ss ds
      → All (λ i. (cm : FeldmanCommitment G) × IsBound inst phase box i cm) ids
  Accepted-IsBound none_left = tt
  Accepted-IsBound (next {cm = d} a rest) = ((d, a.bound), Accepted-IsBound rest)

  -- A party that finalizes holds a share of its own index that passes the check against the sum of the
  -- revealed vectors; every one of these has t points and hashes to its dealer's round-1 broadcast.
  pub finalize_sound :
      {out : DkgOutput F G}
      → finalize inst phase box ≡ ok out
      → (out.index ≡ inst.me)
        × (verify_share out.cm inst.me out.share ≡ true)
        × (sum (revealed_of box.r2 inst.committee.ids) ≡ some out.cm)
        × All (λ i. (cm : FeldmanCommitment G) × IsBound inst phase box i cm) inst.committee.ids
  unfolding finalize
  finalize_sound {out} e = elim (Bool-cases (is_complete (length inst.committee.ids) box)) [
    | inr part ↦ cc (rw part at e)
    | inl full ↦
        let ((s, cms), p, q) =
          >>=-eq-ok (finalize_loop inst phase box inst.committee.ids zero_scalar []) _
            (rw full at e) in
        let (d, p2, q2) = >>=-eq-ok (expect (sum cms)) _ q in
        let (ss, ds, a, r, o) = finalize_loop_ok inst.committee.ids zero_scalar [] p in
        finish s cms d ss ds (ok_injective q2) (expect-eq-ok (sum cms) p2) a r o
  ]
    where
      finish :
          (s : F) (cms : List (FeldmanCommitment G)) (d : FeldmanCommitment G) (ss : List F)
          (ds : List (FeldmanCommitment G))
          → record { index = inst.me; share = s; cm = d } ≡ out
          → sum cms ≡ some d
          → Accepted inst phase box inst.committee.ids ss ds
          → s ≡ total zero_scalar ss
          → cms ≡ ds
          → (out.index ≡ inst.me)
            × (verify_share out.cm inst.me out.share ≡ true)
            × (sum (revealed_of box.r2 inst.committee.ids) ≡ some out.cm)
            × All (λ i. (cm : FeldmanCommitment G) × IsBound inst phase box i cm) inst.committee.ids
      finish s cms d ss ds q v a r o =
          subst
            (λ (t : DkgOutput F G).
              (t.index ≡ inst.me)
              × (verify_share t.cm inst.me t.share ≡ true)
              × (sum (revealed_of box.r2 inst.committee.ids) ≡ some t.cm)
              × All (λ i. (cm : FeldmanCommitment G) × IsBound inst phase box i cm)
                  inst.committee.ids)
            q
            (
              refl,
              (verify_share_iff d inst.me s).1 (
                  ap (λ a. generator ⊡ a) r
                  ∙ (Accepted-total a zero_scalar
                      ∙ (ap (λ p. p ⊞ total_at ds (from_u64 {F = F} inst.me))
                            (pmul-zero F generator)
                          ∙ (identity-padd _
                              ∙ sym (
                                  eval_at_point-sum ds (from_u64 {F = F} inst.me)
                                    (ap sum (sym o) ∙ v)))))),
              ap sum (sym (Accepted-revealed a)) ∙ (ap sum (sym o) ∙ v),
              Accepted-IsBound a,
            )
