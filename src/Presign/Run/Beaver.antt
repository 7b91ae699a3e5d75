-- ===== src/Presign/Run/Beaver.antt =====
-- P2 of a presignature: the opened v is u·a, and what comes out is its inverse.
use ohm_ecdsa.Prelude.{
  ℕ, ◌≤◌, ◌<◌, ◌≡◌, refl, sym, ap, subst, ◌∙◌, List, [], ◌∷◌, Option, none, some, not, inl, inr,
  Bool-cases, map, length, All,
}
use ohm_ecdsa.Core.{
  PartyId, Phase, Committee, Result, ok, err, expect, ensure, zero_value, >>=-eq-ok, ok_injective,
  expect-eq-ok,
}
use ohm_ecdsa.Core.Map.{
  Map, keys, get, insert, IsSorted, insert-IsSorted, collect_into, collect_into-IsSorted,
  All-collect_into, All-insert, All-get,
}
use ohm_ecdsa.Field.{Field, zero_scalar, one_scalar, ◌⊕◌, ◌⊗◌, ◌=?◌, invert, order}
use ohm_ecdsa.Field.Laws.{invert-zero, invert_nonzero, =?_iff}
use ohm_ecdsa.Curve.{Group, Action}
use ohm_ecdsa.Vss.{FeldmanCommitment}
use ohm_ecdsa.Vss.Secret.{secret}
use ohm_ecdsa.Open.{open_shares}
use ohm_ecdsa.Presign.{TripleShare, TriplePublic}
use ohm_ecdsa.Sign.{XCoordinate, ki_z_com}
use ohm_ecdsa.Presign.Run.{product_shares, tamper_open, open_masked, open_v}
use ohm_ecdsa.Presign.Run.Values.{open_shares-secret, open_masked_lem, ki_z_com_lem}

module _ {F : Type 0} ⦃f : Field F⦄ where
  invert_sound : (v w : F) → invert v ≡ some w → v ⊗ w ≡ one_scalar
  invert_sound v w e = elim (Bool-cases (v =? zero_scalar)) [
    | inl t ↦
        let z : none ≡ some w =
          sym invert-zero ∙ (ap invert (sym ((=?_iff v zero_scalar).0 t)) ∙ e) in
        cc
    | inr t ↦
        let (b, p, q) = invert_nonzero v (λ z. let k = (=?_iff v zero_scalar).1 z in cc) in
        let s : b ≡ w = (let r : some b ≡ some w = sym p ∙ e in cc) in ap (λ s. v ⊗ s) (sym s) ∙ q
  ]

  inverse_ok :
      (v : F) {w : F}
      → elim (invert v) as (λ _. Result F) [ none ↦ err (zero_value "v = 0") | some i ↦ ok i ]
        ≡ ok w
      → v ⊗ w ≡ one_scalar
  inverse_ok v {w} =
      elim (invert v)
          as (λ o.
            o ≡ invert v
            → elim o as (λ _. Result F) [ none ↦ err (zero_value "v = 0") | some i ↦ ok i ] ≡ ok w
            → v ⊗ w ≡ one_scalar) [
              | none ↦ λ p e. cc
              | some i ↦ λ p e. invert_sound v w (sym p ∙ ap some (ok_injective e))
            ]
        refl

  product_shares_keys :
      (ids : List PartyId) (ts : List (TripleShare F)) (d e : F) {es : List (PartyId × F)}
      → product_shares ids ts d e ≡ ok es
      → map (λ e. e.0) es ≡ ids
  unfolding product_shares
  product_shares_keys [] ts d e h = sym (ap (map (λ (e : PartyId × F). e.0)) (ok_injective h))
  product_shares_keys (j ∷ js) [] d e h = cc
  product_shares_keys (j ∷ js) (t ∷ ts) d e h =
      let (rest, p, q) = >>=-eq-ok (product_shares js ts d e) _ h in
      sym (ap (map (λ (e : PartyId × F). e.0)) (ok_injective q))
      ∙ ap (λ js. j ∷ js) (product_shares_keys js ts d e p)

  -- The fault injection keeps the ids.
  pub tamper_open-keys :
      (P : ℕ → Type 0) (bad : Option PartyId) (m : Map F)
      → IsSorted m
      → All P (keys m)
      → IsSorted (tamper_open bad m) × All P (keys (tamper_open bad m))
  unfolding tamper_open
  tamper_open-keys P none m s a = (s, a)
  tamper_open-keys P (some j) m s a =
      elim (get j m)
          as (λ o.
            o ≡ get j m
            → IsSorted (elim o [ none ↦ m | some v ↦ insert j (v ⊕ one_scalar) m ])
              × All P (keys (elim o [ none ↦ m | some v ↦ insert j (v ⊕ one_scalar) m ]))) [
                | none ↦ λ e. (s, a)
                | some v ↦
                    λ e. (insert-IsSorted j _ m s, All-insert P j _ m (All-get P j m a (sym e)) a)
              ]
        refl

module _ {F G : Type 0} ⦃f : Field F⦄ ⦃g : Group G⦄ ⦃c : Action F G⦄ ⦃x : XCoordinate F G⦄ where
  -- P2 returns the inverse of u·a.
  pub open_v_lem :
      (committee : Committee) (ts : List (TripleShare F)) (public : TriplePublic G)
      (bad : Option PartyId) (u_com a_com : FeldmanCommitment G) (us as' : List F) {v_inv : F}
      → All (λ p. p < order F) committee.ids
      → secret F public.cc ≡ secret F public.ca ⊗ secret F public.cb
      → (length public.ca.points ≤ committee.t)
        × (length public.cb.points ≤ committee.t)
        × (length public.cc.points ≤ committee.t)
      → length u_com.points ≤ committee.t
      → length a_com.points ≤ committee.t
      → open_v committee ts public bad u_com a_com us as' ≡ ok v_inv
      → (secret F u_com ⊗ secret F a_com) ⊗ v_inv ≡ one_scalar
  unfolding open_v
  open_v_lem committee ts public bad u_com a_com us as' {v_inv} b m l lu la e =
      let t = committee.t in
      let ids = committee.ids in
      let (delta, p1, e1) =
        >>=-eq-ok (open_masked t ids u_com public.ca us (map (λ s. s.a) ts)) _ e in
      let (eps, p2, e2) =
        >>=-eq-ok (open_masked t ids a_com public.cb as' (map (λ s. s.b) ts)) _ e1 in
      let (v_com, p3, e3) = >>=-eq-ok (expect (ki_z_com public delta eps)) _ e2 in
      let (v_shares, p4, e4) = >>=-eq-ok (product_shares ids ts delta eps) _ e3 in
      let (v, p5, e5) =
        >>=-eq-ok (open_shares t v_com (tamper_open bad (collect_into [] v_shares)) Phase.presign) _
          e4 in
      let (u, p6, e6) = >>=-eq-ok (ensure (not (v =? zero_scalar)) _) _ e5 in
      let (value, lv) =
        ki_z_com_lem t public (secret F u_com) (secret F a_com) delta eps m l
          (open_masked_lem t ids u_com public.ca us _ b lu l.0 p1)
          (open_masked_lem t ids a_com public.cb as' _ b la l.1 p2) (expect-eq-ok _ p3) in
      let (so, bo) =
        tamper_open-keys (λ p. p < order F) bad (collect_into [] v_shares)
          (collect_into-IsSorted [] v_shares tt)
          (All-collect_into _ [] v_shares tt
            (subst (All (λ p. p < order F)) (sym (product_shares_keys ids ts delta eps p4)) b)) in
      ap (λ s. s ⊗ v_inv) (sym value ∙ sym (open_shares-secret t v_com _ _ so bo lv p5))
      ∙ inverse_ok v e6
