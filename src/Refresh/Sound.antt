-- ===== src/Refresh/Sound.antt =====
-- A refresh keeps the secret: the parties that finish hold new shares of it, on one new polynomial.
use ohm_ecdsa.Prelude.{
  ℕ, ◌≡◌, refl, sym, ap, ap₂, subst, ◌∙◌, List, [], ◌∷◌, Option, none, some, true, false, Bool,
  if◌then◌else◌, map, length, All, ◌==◌,
}
use ohm_ecdsa.Core.{
  PartyId, Phase, Committee, ok, expect, ensure, >>=-eq-ok, ok_injective, expect-eq-ok,
}
use ohm_ecdsa.Core.Map.{Map}
use ohm_ecdsa.Core.Tags.{refresh_commit}
use ohm_ecdsa.Field.{Field, zero_scalar}
use ohm_ecdsa.Curve.{Group, Action, ◌⊞◌, ◌=ₚ◌}
use ohm_ecdsa.Curve.Laws.{=ₚ_iff, pmul-zero, identity-padd}
use ohm_ecdsa.Encoding.{Bytes, Hash, PointEncoding}
use ohm_ecdsa.Rng.{Rng}
use ohm_ecdsa.Vss.{FeldmanCommitment, add, verify_share, eval_at_point}
use ohm_ecdsa.Vss.Laws.{point_value, eval_at_point_lem, length-add}
use ohm_ecdsa.Vss.Shares.{passes-add, committed_value}
use ohm_ecdsa.Vss.Secret.{secret, eval_at_point-secret}
use ohm_ecdsa.Dkg.{DkgBcast2, DkgInstance, DkgOutput, start_with_secret}
use ohm_ecdsa.Dkg.Rounds.{Started, reveal_all, finalize_all}
use ohm_ecdsa.Dkg.Rounds.Sound.{IsSharing, finalize_all-IsSharing}
use ohm_ecdsa.Triples.{first_of}
use ohm_ecdsa.Refresh.{
  DkgTamper, tamper_dealer, deal_all, corrupt, deal_fixed_secrets, check_inputs, check_zeros,
  add_zeros, refresh,
}

module _ {F G : Type 0} where
  -- The fault injection keeps a dealer's committee and name.
  tamper_dealer_lem :
      (tamper : Option DkgTamper) (i : PartyId) (inst : DkgInstance F G)
      → ((tamper_dealer tamper i inst).committee ≡ inst.committee)
        × ((tamper_dealer tamper i inst).me ≡ inst.me)
  unfolding tamper_dealer
  tamper_dealer_lem none i inst = (refl, refl)
  tamper_dealer_lem (some t) i inst = (refl, refl)

module _ {F G R : Type 0} ⦃f : Field F⦄ ⦃g : Group G⦄ ⦃c : Action F G⦄ ⦃h : Hash⦄
    ⦃pe : PointEncoding G⦄ ⦃rng : Rng F R⦄ where
  deal_all_ok :
      (committee : Committee) (sid tag : Bytes) (tamper : Option DkgTamper) (ids : List PartyId)
      (ss : List F) (rngs : List R) {s : Started F G R}
      → deal_all committee sid tag tamper ids ss rngs ≡ ok s
      → All (λ i. i.committee ≡ committee) s.insts × (map (λ i. i.me) s.insts ≡ ids)
  unfolding deal_all start_with_secret
  deal_all_ok committee sid tag tamper [] ss rngs e =
      subst
        (λ (s : Started F G R).
          All (λ i. i.committee ≡ committee) s.insts × (map (λ i. i.me) s.insts ≡ []))
        (ok_injective e) (tt, refl)
  deal_all_ok committee sid tag tamper (i ∷ ids) [] rngs e = cc
  deal_all_ok committee sid tag tamper (i ∷ ids) (s ∷ ss) [] e = cc
  deal_all_ok committee sid tag tamper (i ∷ ids) (s ∷ ss) (r ∷ rngs) e =
      let (rest, p, q) = >>=-eq-ok (deal_all committee sid tag tamper ids ss rngs) _ e in
      let (a, m) = deal_all_ok committee sid tag tamper ids ss rngs p in
      let (tc, tm) =
        tamper_dealer_lem {F = F} {G = G} tamper i (start_with_secret committee sid tag i s r).0 in
      subst
        (λ (s : Started F G R).
          All (λ i. i.committee ≡ committee) s.insts × (map (λ i. i.me) s.insts ≡ i ∷ ids))
        (ok_injective q) ((tc, a), ap₂ ◌∷◌ tm m)

  -- The dealt zeros are a sharing among the committee.
  deal_fixed_secrets-IsSharing :
      (committee : Committee) (sid tag : Bytes) (secrets : List F) (rngs : List R)
      (tamper : Option DkgTamper) (o : DkgOutput F G) (outs : List (DkgOutput F G))
      {reveals : Map (DkgBcast2 G)} {rngs' : List R}
      → deal_fixed_secrets committee sid tag secrets rngs tamper ≡ ok (o ∷ outs, reveals, rngs')
      → IsSharing committee.t committee.ids o.cm (o ∷ outs)
  unfolding deal_fixed_secrets
  deal_fixed_secrets-IsSharing committee sid tag secrets rngs tamper o outs {reveals} {rngs'} e =
      let (u, p0, e0) = >>=-eq-ok (ensure (length secrets == length committee.ids) _) _ e in
      let (st, p, e1) =
        >>=-eq-ok (deal_all committee sid tag tamper committee.ids secrets rngs) _ e0 in
      let ((r2, p2p), q, e2) = >>=-eq-ok (reveal_all st.insts) _ e1 in
      let (os, w, e3) =
        >>=-eq-ok (finalize_all Phase.refresh _ _ (corrupt tamper p2p) st.insts st.insts) _ e2 in
      let (a, m) = deal_all_ok committee sid tag tamper committee.ids secrets rngs p in
      let k : os ≡ o ∷ outs =
        ap (λ (t : List (DkgOutput F G) × Map (DkgBcast2 G) × List R). t.0) (ok_injective e3) in
      finalize_all-IsSharing committee Phase.refresh _ _ (corrupt tamper p2p) st.insts st.insts o
        outs a m (w ∙ ap ok k)

pub expect_if : (b : Bool) {u : Unit {0}} → expect (if b then some tt else none) ≡ ok u → b ≡ true
expect_if true e = refl
expect_if false e = cc

module _ (F : Type 0) {G : Type 0} ⦃f : Field F⦄ ⦃g : Group G⦄ ⦃c : Action F G⦄ where
  -- The first point is the value at 0.
  pub eval_at_point-zero :
      (cm : FeldmanCommitment G) (p : G)
      → first_of cm.points ≡ some p
      → eval_at_point cm (zero_scalar {F = F}) ≡ p
  unfolding point_value
  eval_at_point-zero cm p e = eval_at_point_lem cm zero_scalar ∙ first cm.points e
    where
      first : (ps : List G) → first_of ps ≡ some p → point_value ps (zero_scalar {F = F}) ≡ p
      first [] e = cc
      first (q ∷ qs) e = ap (λ r. r ⊞ q) (pmul-zero F _) ∙ (identity-padd q ∙ cc e)

module _ {F G : Type 0} ⦃f : Field F⦄ ⦃g : Group G⦄ ⦃c : Action F G⦄ where
  -- What the loop returns: the sums, all with the public key of the old.
  add_zeros_lem :
      (key_com z_com : FeldmanCommitment G) (ks zs : List (DkgOutput F G)) (ids : List PartyId)
      {out : List (DkgOutput F G)}
      → map (λ o. o.index) ks ≡ ids
      → map (λ o. o.index) zs ≡ ids
      → All (λ o. (o.cm ≡ key_com) × (verify_share key_com o.index o.share ≡ true)) ks
      → All (λ o. (o.cm ≡ z_com) × (verify_share z_com o.index o.share ≡ true)) zs
      → add_zeros ks zs ≡ ok out
      → (map (λ o. o.index) out ≡ ids)
        × All
            (λ o.
              (o.cm ≡ add key_com z_com)
              × (verify_share (add key_com z_com) o.index o.share ≡ true))
            out
        × All
            (λ o.
              eval_at_point o.cm (zero_scalar {F = F})
              ≡ eval_at_point key_com (zero_scalar {F = F}))
            out
  unfolding add_zeros
  add_zeros_lem key_com z_com ks [] ids mk mz ak az e =
      subst
        (λ (out : List (DkgOutput F G)).
          (map (λ o. o.index) out ≡ ids)
          × All
              (λ o.
                (o.cm ≡ add key_com z_com)
                × (verify_share (add key_com z_com) o.index o.share ≡ true))
              out
          × All
              (λ o.
                eval_at_point o.cm (zero_scalar {F = F})
                ≡ eval_at_point key_com (zero_scalar {F = F}))
              out)
        (ok_injective e) (mz, tt, tt)
  add_zeros_lem key_com z_com [] (z ∷ zs) ids mk mz ak az e = cc
  add_zeros_lem key_com z_com (k ∷ ks) (z ∷ zs) [] mk mz ak az e = cc
  add_zeros_lem key_com z_com (k ∷ ks) (z ∷ zs) (i ∷ ids) mk mz ((ck, vk), ak) ((cz, vz), az) e =
      let (p, p1, e1) = >>=-eq-ok (expect (first_of (add k.cm z.cm).points)) _ e in
      let (q, p2, e2) = >>=-eq-ok (expect (first_of k.cm.points)) _ e1 in
      let (u, p3, e3) = >>=-eq-ok (expect (if p =ₚ q then some tt else none)) _ e2 in
      let (rest, p4, e4) = >>=-eq-ok (add_zeros ks zs) _ e3 in
      let ik : k.index ≡ i = cc mk in
      let iz : z.index ≡ i = cc mz in
      let (m, a, b) = add_zeros_lem key_com z_com ks zs ids (cc mk) (cc mz) ak az p4 in
      let same : p ≡ q = (=ₚ_iff p q).0 (expect_if (p =ₚ q) p3) in
      let value =
        eval_at_point-zero F (add k.cm z.cm) p (expect-eq-ok _ p1)
        ∙ (same
            ∙ (sym (eval_at_point-zero F k.cm q (expect-eq-ok _ p2))
                ∙ ap (λ d. eval_at_point d (zero_scalar {F = F})) ck)) in
      subst
        (λ (out : List (DkgOutput F G)).
          (map (λ o. o.index) out ≡ i ∷ ids)
          × All
              (λ o.
                (o.cm ≡ add key_com z_com)
                × (verify_share (add key_com z_com) o.index o.share ≡ true))
              out
          × All
              (λ o.
                eval_at_point o.cm (zero_scalar {F = F})
                ≡ eval_at_point key_com (zero_scalar {F = F}))
              out)
        (ok_injective e4)
        (
          ap₂ ◌∷◌ ik m,
          (
            (
              ap₂ add ck cz,
              passes-add key_com z_com k.index k.share z.share vk
                  (subst (λ j. verify_share z_com j z.share ≡ true) (iz ∙ sym ik) vz),
            ),
            a,
          ),
          (value, b),
        )

  add_zeros_some :
      (ks zs : List (DkgOutput F G)) {o : DkgOutput F G} {out : List (DkgOutput F G)}
      → add_zeros ks zs ≡ ok (o ∷ out)
      → (z : DkgOutput F G) × (zr : List (DkgOutput F G)) × (zs ≡ z ∷ zr)
  unfolding add_zeros
  add_zeros_some ks [] e = cc
  add_zeros_some ks (z ∷ zr) e = (z, zr, refl)

  -- The new keys are a sharing of the old secret.
  added_IsSharing :
      (t : ℕ) (ids : List PartyId) (key0 z0 : DkgOutput F G) (kr zr : List (DkgOutput F G))
      (o : DkgOutput F G) (out : List (DkgOutput F G))
      → IsSharing t ids key0.cm (key0 ∷ kr)
      → IsSharing t ids z0.cm (z0 ∷ zr)
      → add_zeros (key0 ∷ kr) (z0 ∷ zr) ≡ ok (o ∷ out)
      → IsSharing t ids o.cm (o ∷ out) × (secret F o.cm ≡ secret F key0.cm)
  added_IsSharing t ids key0 z0 kr zr o out sk sz e =
      let (m, a, b) =
        add_zeros_lem key0.cm z0.cm (key0 ∷ kr) (z0 ∷ zr) ids sk.indices sz.indices sk.held sz.held
          e in
      let d : add key0.cm z0.cm ≡ o.cm = sym a.0.0 in
      (
        subst (λ (d : FeldmanCommitment G). IsSharing t ids d (o ∷ out)) d
            (record {
              indices = m;
              held = a;
              degree = length-add key0.cm z0.cm t sk.degree sz.degree;
            }),
        committed_value o.cm zero_scalar (secret F key0.cm) (b.0 ∙ eval_at_point-secret F key0.cm),
      )

module _ {F G R : Type 0} ⦃f : Field F⦄ ⦃g : Group G⦄ ⦃c : Action F G⦄ ⦃h : Hash⦄
    ⦃pe : PointEncoding G⦄ ⦃rng : Rng F R⦄ where
  -- A refresh of a sharing that succeeds, with any fault injection, leaves a sharing of the same secret.
  pub refresh-IsSharing :
      (committee : Committee) (key0 : DkgOutput F G) (kr : List (DkgOutput F G)) (sid : Bytes)
      (rngs : List R) (tamper : Option DkgTamper) (o : DkgOutput F G) (out : List (DkgOutput F G))
      {rngs' : List R}
      → IsSharing committee.t committee.ids key0.cm (key0 ∷ kr)
      → refresh committee (key0 ∷ kr) sid rngs tamper ≡ ok (o ∷ out, rngs')
      → IsSharing committee.t committee.ids o.cm (o ∷ out) × (secret F o.cm ≡ secret F key0.cm)
  unfolding refresh
  refresh-IsSharing committee key0 kr sid rngs tamper o out {rngs'} s e =
      let (u, p0, e0) = >>=-eq-ok (check_inputs committee (key0 ∷ kr) rngs) _ e in
      let ((zs, reveals, r1), p1, e1) =
        >>=-eq-ok (deal_fixed_secrets committee sid refresh_commit _ rngs tamper) _ e0 in
      let (v, p2, e2) = >>=-eq-ok (check_zeros reveals committee.ids) _ e1 in
      let (ks, p3, e3) = >>=-eq-ok (add_zeros (key0 ∷ kr) zs) _ e2 in
      let k : ks ≡ o ∷ out = ap (λ (t : List (DkgOutput F G) × List R). t.0) (ok_injective e3) in
      let (z0, zr, m) = add_zeros_some (key0 ∷ kr) zs (p3 ∙ ap ok k) in
      added_IsSharing committee.t committee.ids key0 z0 kr zr o out s
        (deal_fixed_secrets-IsSharing committee sid refresh_commit _ rngs tamper z0 zr
          (p1 ∙ ap (λ zs. ok (zs, reveals, r1)) m))
        (sym (ap (add_zeros (key0 ∷ kr)) m) ∙ (p3 ∙ ap ok k))
