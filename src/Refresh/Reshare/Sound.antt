-- ===== src/Refresh/Reshare/Sound.antt =====
-- A resharing keeps the secret: the new members hold shares of the old secret, on one polynomial of the new
-- threshold.
use ohm_ecdsa.Prelude.{
  ℕ, zero, suc, ◌≤◌, ◌≡◌, refl, sym, ap, subst, ◌∙◌, List, [], ◌∷◌, Option, none, some, true,
  if◌then◌else◌, map, length, All, arith, ◌==◌, ==_iff,
}
use ohm_ecdsa.Core.{
  PartyId, Committee, ok, expect, ensure, >>=-eq-ok, ok_injective, expect-eq-ok, ensure-eq-ok,
}
use ohm_ecdsa.Core.Map.{Map, get, collect_into}
use ohm_ecdsa.Field.{Field, zero_scalar, ◌⊕◌, ◌⊗◌}
use ohm_ecdsa.Field.Laws.{mul_comm}
use ohm_ecdsa.Curve.{Group, Action, identity, generator, ◌⊞◌, ◌⊡◌, ◌=ₚ◌}
use ohm_ecdsa.Curve.Laws.{=ₚ_iff, pmul-zero, padd-identity, identity-pmul}
use ohm_ecdsa.Encoding.{Bytes, same_bytes, Hash, PointEncoding}
use ohm_ecdsa.Rng.{Rng}
use ohm_ecdsa.Shamir.{lagrange_coeffs}
use ohm_ecdsa.Vss
use ohm_ecdsa.Vss.{FeldmanCommitment, add, scale, verify_share, eval_at_point}
use ohm_ecdsa.Vss.Laws.{point_value, eval_at_point_lem, length-add, verify_share_iff}
use ohm_ecdsa.Vss.Shares.{passes-add, passes-scale, length-scale, committed_value}
use ohm_ecdsa.Vss.Secret.{secret, eval_at_point-secret}
use ohm_ecdsa.Dkg.{DkgBcast1, DkgBcast2, DkgP2P, DkgOutput}
use ohm_ecdsa.Dkg.Hashing.{hash_commitment}
use ohm_ecdsa.Core.Tags.{reshare_commit}
use ohm_ecdsa.Dkg.Rounds.{shares_to}
use ohm_ecdsa.Dkg.Rounds.Sound.{IsSharing}
use ohm_ecdsa.Triples.{first_of}
use ohm_ecdsa.Refresh.{check_inputs}
use ohm_ecdsa.Refresh.Sound.{expect_if, eval_at_point-zero}
use ohm_ecdsa.Refresh.Reshare.{
  ReshareTamper, ReshareDealer, deal_old, identities, check_deal, combine_deals, new_members,
  reshare,
}

module _ (G : Type 0) ⦃g : Group G⦄ where
  length-identities : (n : ℕ) → length (identities {G = G} n) ≡ n
  length-identities zero = refl
  length-identities (suc n) = ap suc (length-identities n)

module _ (F G : Type 0) ⦃f : Field F⦄ ⦃g : Group G⦄ ⦃c : Action F G⦄ where
  value-identities : (n : ℕ) (x : F) → point_value (identities {G = G} n) x ≡ identity
  unfolding point_value
  value-identities zero x = refl
  value-identities (suc n) x =
      ap (λ p. p ⊡ x ⊞ identity) (value-identities n x) ∙ (padd-identity _ ∙ identity-pmul x)

  -- The sum before the first deal: 0 passes.
  passes-identities :
      (n : ℕ) (j : PartyId)
      → verify_share (record { points = identities {G = G} n }) j (zero_scalar {F = F}) ≡ true
  passes-identities n j =
      (verify_share_iff _ j _).1
        (pmul-zero F generator ∙ sym (eval_at_point_lem _ _ ∙ value-identities n _))

module _ {F G : Type 0} ⦃f : Field F⦄ ⦃g : Group G⦄ ⦃c : Action F G⦄ ⦃h : Hash⦄
    ⦃pe : PointEncoding G⦄ (t : ℕ) (sid : Bytes) (commits : Map DkgBcast1)
    (reveals : Map (DkgBcast2 G)) (x_com : FeldmanCommitment G) where
  -- The commitment that the loop forms, whoever runs it.
  total_com : List PartyId → List F → FeldmanCommitment G → FeldmanCommitment G
  total_com [] ls cm = cm
  total_com (j ∷ js) [] cm = cm
  total_com (j ∷ js) (l ∷ ls) cm = elim (get j reveals) [
    | none ↦ cm
    | some b2 ↦ total_com js ls (add cm (scale b2.cm l))
  ]

  check_deal_ok :
      (m : PartyId) (mine : Map F) (j : PartyId) (d : ReshareDealer F G)
      {deal : FeldmanCommitment G} {s : F}
      → check_deal t sid commits reveals x_com m mine j d ≡ ok (deal, s)
      → (b2 : DkgBcast2 G) × (get j reveals ≡ some b2)
        × (b2.cm ≡ deal)
        × (length deal.points ≡ t)
        × (verify_share deal m s ≡ true)
  unfolding check_deal
  check_deal_ok m mine j d {deal} {s} e =
      let (b1, p1, e1) = >>=-eq-ok (expect (get j commits)) _ e in
      let (b2, p2, e2) = >>=-eq-ok (expect (get j reveals)) _ e1 in
      let (u3, p3, e3) = >>=-eq-ok (ensure (length b2.cm.points == t) _) _ e2 in
      let (u4, p4, e4) =
        >>=-eq-ok (ensure (same_bytes (hash_commitment sid reshare_commit j b2.cm) b1.hash) _) _
          e3 in
      let (p, p5, e5) = >>=-eq-ok (expect (first_of b2.cm.points)) _ e4 in
      let (u6, p6, e6) = >>=-eq-ok (ensure (p =ₚ Vss.eval_at F x_com j) _) _ e5 in
      let (s', p7, e7) = >>=-eq-ok (expect (get j mine)) _ e6 in
      let (u8, p8, e8) = >>=-eq-ok (ensure (verify_share b2.cm m s') _) _ e7 in
      let n : length b2.cm.points ≡ t = (==_iff _ t).0 (ensure-eq-ok _ _ p3) in
      let same : (b2.cm, s') ≡ (deal, s) = ok_injective e8 in
      let (c1, c2, c3) =
        subst
          (λ (r : FeldmanCommitment G × F).
            (b2.cm ≡ r.0) × (length r.0.points ≡ t) × (verify_share r.0 m r.1 ≡ true))
          same (refl, n, ensure-eq-ok _ _ p8) in
      (b2, expect-eq-ok _ p2, c1, c2, c3)

  combine_deals_ok :
      (m : PartyId) (mine : Map F) (js : List PartyId) (ls : List F) (ds : List (ReshareDealer F G))
      (share : F) (cm : FeldmanCommitment G) {s : F} {d : FeldmanCommitment G}
      → verify_share cm m share ≡ true
      → length cm.points ≤ t
      → combine_deals t sid commits reveals x_com m mine js ls ds share cm ≡ ok (s, d)
      → (d ≡ total_com js ls cm) × (verify_share d m s ≡ true) × (length d.points ≤ t)
  unfolding combine_deals total_com
  combine_deals_ok m mine [] ls ds share cm {s} {d} v l e =
      subst
        (λ (r : F × FeldmanCommitment G).
          (r.1 ≡ cm) × (verify_share r.1 m r.0 ≡ true) × (length r.1.points ≤ t))
        (ok_injective e) (refl, v, l)
  combine_deals_ok m mine (j ∷ js) [] ds share cm v l e = cc
  combine_deals_ok m mine (j ∷ js) (k ∷ ls) [] share cm v l e = cc
  combine_deals_ok m mine (j ∷ js) (k ∷ ls) (w ∷ ds) share cm v l e =
      let ((deal, s), p, e1) = >>=-eq-ok (check_deal t sid commits reveals x_com m mine j w) _ e in
      let (b2, at, same, n, vd) = check_deal_ok m mine j w p in
      let v1 : verify_share (add cm (scale deal k)) m (share ⊕ k ⊗ s) ≡ true =
        ap (λ y. verify_share (add cm (scale deal k)) m (share ⊕ y)) (mul_comm k s)
        ∙ passes-add cm (scale deal k) m share _ v (passes-scale deal m s k vd) in
      let (td, tv, tl) =
        combine_deals_ok m mine js ls ds (share ⊕ k ⊗ s) (add cm (scale deal k)) v1
          (length-add cm (scale deal k) t l (omega (arith, length-scale deal k))) e1 in
      (
        td
            ∙ (ap (λ z. total_com js ls (add cm (scale z k))) (sym same)
                ∙ ap
                    (λ (o : Option (DkgBcast2 G)). elim o as (λ _. FeldmanCommitment G) [
                      | none ↦ cm
                      | some b2 ↦ total_com js ls (add cm (scale b2.cm k))
                    ])
                    (sym at)),
        tv,
        tl,
      )

  -- What a new member has: a share on the common commitment, with the old public key.
  abbrev IsMember : FeldmanCommitment G → DkgOutput F G → Type 0
  IsMember total o =
      (o.cm ≡ total)
      × (verify_share total o.index o.share ≡ true)
      × (length total.points ≤ t)
      × (eval_at_point o.cm (zero_scalar {F = F}) ≡ eval_at_point x_com (zero_scalar {F = F}))

  combined-IsMember :
      (total d : FeldmanCommitment G) (m : PartyId) (s : F)
      → d ≡ total
      → verify_share d m s ≡ true
      → length d.points ≤ t
      → eval_at_point d (zero_scalar {F = F}) ≡ eval_at_point x_com (zero_scalar {F = F})
      → IsMember total (record { index = m; share = s; cm = d })
  combined-IsMember total d m s e v l z = (
    e,
    subst (λ (d : FeldmanCommitment G). verify_share d m s ≡ true) e v,
    subst (λ (d : FeldmanCommitment G). length d.points ≤ t) e l,
    z,
  )

  new_members_lem :
      (old_ids : List PartyId) (lambdas : List F) (dealers : List (ReshareDealer F G))
      (p2p : List (DkgP2P F)) (ms : List PartyId) {out : List (DkgOutput F G)}
      → new_members t sid commits reveals x_com old_ids lambdas dealers p2p ms ≡ ok out
      → (map (λ o. o.index) out ≡ ms)
        × All (IsMember (total_com old_ids lambdas (record { points = identities t }))) out
  unfolding new_members
  new_members_lem old_ids lambdas dealers p2p [] e =
      subst
        (λ (out : List (DkgOutput F G)).
          (map (λ o. o.index) out ≡ [])
          × All (IsMember (total_com old_ids lambdas (record { points = identities t }))) out)
        (ok_injective e) (refl, tt)
  new_members_lem old_ids lambdas dealers p2p (m ∷ ms) e =
      let ((share, d), p1, e1) =
        >>=-eq-ok
          (combine_deals t sid commits reveals x_com m (shares_to m p2p) old_ids lambdas dealers
            zero_scalar (record { points = identities t }))
          _ e in
      let (p, p2, e2) = >>=-eq-ok (expect (first_of d.points)) _ e1 in
      let (q, p3, e3) = >>=-eq-ok (expect (first_of x_com.points)) _ e2 in
      let (u, p4, e4) = >>=-eq-ok (expect (if p =ₚ q then some tt else none)) _ e3 in
      let (rest, p5, e5) =
        >>=-eq-ok (new_members t sid commits reveals x_com old_ids lambdas dealers p2p ms) _ e4 in
      let (td, tv, tl) =
        combine_deals_ok m (shares_to m p2p) old_ids lambdas dealers zero_scalar
          (record { points = identities t }) (passes-identities F G t m)
          (omega (arith, length-identities G t)) p1 in
      let same : p ≡ q = (=ₚ_iff p q).0 (expect_if (p =ₚ q) p4) in
      let z =
        eval_at_point-zero F d p (expect-eq-ok _ p2)
        ∙ (same ∙ sym (eval_at_point-zero F x_com q (expect-eq-ok _ p3))) in
      let (i, a) = new_members_lem old_ids lambdas dealers p2p ms p5 in
      subst
        (λ (out : List (DkgOutput F G)).
          (map (λ o. o.index) out ≡ m ∷ ms)
          × All (IsMember (total_com old_ids lambdas (record { points = identities t }))) out)
        (ok_injective e5) (ap (λ ms. m ∷ ms) i, (combined-IsMember _ d m share td tv tl z, a))

  All-member :
      (total : FeldmanCommitment G) (out : List (DkgOutput F G))
      → All (IsMember total) out
      → All (λ o. (o.cm ≡ total) × (verify_share total o.index o.share ≡ true)) out
  All-member total [] a = tt
  All-member total (o ∷ os) (v, a) = ((v.0, v.1), All-member total os a)

  members_IsSharing :
      (ids : List PartyId) (total : FeldmanCommitment G) (o : DkgOutput F G)
      (out : List (DkgOutput F G))
      → map (λ o. o.index) (o ∷ out) ≡ ids
      → All (IsMember total) (o ∷ out)
      → IsSharing t ids o.cm (o ∷ out) × (secret F o.cm ≡ secret F x_com)
  members_IsSharing ids total o out i a = (
    subst (λ (d : FeldmanCommitment G). IsSharing t ids d (o ∷ out)) (sym a.0.0)
        (record { indices = i; held = All-member total (o ∷ out) a; degree = a.0.2 }),
    committed_value o.cm zero_scalar (secret F x_com) (a.0.3 ∙ eval_at_point-secret F x_com),
  )

module _ {F G R : Type 0} ⦃f : Field F⦄ ⦃g : Group G⦄ ⦃c : Action F G⦄ ⦃h : Hash⦄
    ⦃pe : PointEncoding G⦄ ⦃rng : Rng F R⦄ where
  -- A resharing that succeeds, with any fault injection, leaves a sharing of the old secret among the
  -- new members, for the new threshold.
  pub reshare-IsSharing :
      (old new : Committee) (key0 : DkgOutput F G) (kr : List (DkgOutput F G)) (sid : Bytes)
      (rngs : List R) (tamper : Option ReshareTamper) (o : DkgOutput F G)
      (out : List (DkgOutput F G)) {rngs' : List R}
      → reshare old new (key0 ∷ kr) sid rngs tamper ≡ ok (o ∷ out, rngs')
      → IsSharing new.t new.ids o.cm (o ∷ out) × (secret F o.cm ≡ secret F key0.cm)
  unfolding reshare
  reshare-IsSharing old new key0 kr sid rngs tamper o out e =
      let (u, p0, e0) = >>=-eq-ok (check_inputs old (key0 ∷ kr) rngs) _ e in
      let (dealt, p1, e1) = >>=-eq-ok (deal_old new.t sid tamper old.ids (key0 ∷ kr) rngs) _ e0 in
      let (lambdas, p2, e2) = >>=-eq-ok (expect (lagrange_coeffs {F = F} old.ids)) _ e1 in
      let (ks, p3, e3) =
        >>=-eq-ok
          (new_members new.t sid (collect_into [] dealt.commits) _ key0.cm old.ids lambdas
            dealt.dealers _ new.ids)
          _ e2 in
      let k : ks ≡ o ∷ out = ap (λ (t : List (DkgOutput F G) × List R). t.0) (ok_injective e3) in
      let (i, a) =
        new_members_lem new.t sid (collect_into [] dealt.commits) _ key0.cm old.ids lambdas
          dealt.dealers _ new.ids (p3 ∙ ap ok k) in
      members_IsSharing new.t sid (collect_into [] dealt.commits)
        (collect_into [] (map (λ d. (d.from, record { from = d.from; cm = d.cm })) dealt.dealers))
        key0.cm new.ids _ o out i a
