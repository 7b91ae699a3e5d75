-- ===== src/Sim/Verified.antt =====
-- The signatures that online signing in src/runtime/sim.rs returns: they pass ECDSA verification after the
-- normalization of s, whatever shares the fault injection replaced.
use ohm_ecdsa.Prelude.{
  ℕ, ◌≤◌, ◌<◌, ◌≡◌, ◌≢◌, refl, sym, ap, subst, ◌∙◌, List, [], ◌∷◌, Option, none, some, Bool-cases,
  inl, inr, ◌==◌, map, length, All,
}
use ohm_ecdsa.Core.{PartyId, Committee, Params, ecdsa, ok, err, >>=-eq-ok, ok_injective}
use ohm_ecdsa.Core.Committees.{IsCommittee}
use ohm_ecdsa.Core.Sort.{IsStrict-Distinct}
use ohm_ecdsa.Encoding.{Bytes, Hash, PointEncoding}
use ohm_ecdsa.Rng.{Rng}
use ohm_ecdsa.Field.{Field, zero_scalar, one_scalar, ◌⊕◌, ◌⊗◌, neg, order}
use ohm_ecdsa.Field.Laws.{
  mul-neg, neg-mul, mul-one, add-neg, zero-add, inverse, invert-inverse, add_comm, neg_unique,
  neg-add, mul_cancel,
}
use ohm_ecdsa.Curve.{Group, Action, generator, ◌⊞◌, ◌⊡◌}
use ohm_ecdsa.Curve.Laws.{pmul-mul}
use ohm_ecdsa.Shamir.Lagrange.{IsQuorum}
use ohm_ecdsa.Vss.{eval_at_point}
use ohm_ecdsa.Dkg.{DkgOutput}
use ohm_ecdsa.Dleq.{Digest}
use ohm_ecdsa.Presign.{Presignature}
use ohm_ecdsa.Sign.{XCoordinate, SignShare, entries, sign_share, combine, combine_at}
use ohm_ecdsa.Presign.Run.{PresignTamper, presign_with_committee}
use ohm_ecdsa.Presign.Run.Signing.{Verifies, senders, presign-Verifies}
use ohm_ecdsa.Presign.Run.Sound.{presign_with_committee-IsPresigned}
use ohm_ecdsa.Sim.Signing.{
  Signatures, message_scalar, replace_share, tamper_signing, normalized, to_signature, run_sign,
}

module _ {F : Type 0} ⦃f : Field F⦄ where
  neg-ne-zero : (s : F) → s ≢ zero_scalar → neg s ≢ zero_scalar
  neg-ne-zero s ne z =
      ne (sym (zero-add s) ∙ (add_comm zero_scalar s ∙ (ap (λ b. s ⊕ b) (sym z) ∙ add-neg s)))

  inverse-neg : (s : F) → s ≢ zero_scalar → inverse (neg s) ≡ neg (inverse s)
  inverse-neg s ne =
      let here : neg s ⊗ neg (inverse s) ≡ one_scalar =
        mul-neg _ _
        ∙ (ap neg (neg-mul s (inverse s))
            ∙ (sym (neg_unique _ _ (neg-add (s ⊗ inverse s))) ∙ (invert-inverse s ne).1)) in
      let there : neg s ⊗ inverse (neg s) ≡ one_scalar =
        (invert-inverse (neg s) (neg-ne-zero s ne)).1 in
      mul_cancel (neg s) (neg-ne-zero s ne) (there ∙ sym here)

module _ {F G : Type 0} ⦃f : Field F⦄ ⦃g : Group G⦄ ⦃c : Action F G⦄ ⦃x : XCoordinate F G⦄ where
  -- The x-coordinate does not tell a point from its negation, so the low form verifies when the high one does.
  Verifies-neg :
      (public : G) (m r s : F)
      → ((p : G) → x.x_scalar (p ⊡ neg (one_scalar {F = F})) ≡ x.x_scalar p)
      → Verifies public m (r, s)
      → Verifies public m (r, neg s)
  Verifies-neg public m r s hx (nr, ns, e) = (
    nr,
    neg-ne-zero s ns,
    ap x.x_scalar (
          ap (λ i. (generator ⊡ m ⊞ public ⊡ r) ⊡ i)
            (inverse-neg s ns ∙ (ap neg (sym (mul-one (inverse s))) ∙ sym (mul-neg _ _)))
          ∙ sym (pmul-mul _ _ _))
        ∙ (hx _ ∙ e),
  )

module _ {F : Type 0} where
  senders-replace :
      (party : PartyId) (fake : F) (shares : List (SignShare F))
      → map (λ e. e.0) (entries (replace_share party fake shares)) ≡ map (λ e. e.0) (entries shares)
  unfolding replace_share
  senders-replace party fake [] = refl
  senders-replace party fake (sh ∷ shares) = elim (Bool-cases (sh.from == party)) [
    | inl e ↦ rw e (ap (λ is. sh.from ∷ is) (senders-replace party fake shares))
    | inr e ↦ rw e (ap (λ is. sh.from ∷ is) (senders-replace party fake shares))
  ]

  -- The fault injection changes no sender.
  pub senders-tamper_signing :
      (tamper : Option (PartyId × F)) (shares : List (SignShare F))
      → map (λ e. e.0) (entries (tamper_signing tamper shares)) ≡ map (λ e. e.0) (entries shares)
  unfolding tamper_signing
  senders-tamper_signing none shares = refl
  senders-tamper_signing (some (party, fake)) shares = senders-replace party fake shares

module _ {F G S : Type 0} ⦃f : Field F⦄ ⦃g : Group G⦄ ⦃c : Action F G⦄ ⦃x : XCoordinate F G⦄
    ⦃sg : Signatures F S⦄ where
  -- What `to_signature` returns for a pair that verifies verifies.
  pub to_signature-Verifies :
      (public : G) (m : F) (rs : F × F) (sig : S)
      → ((p : G) → x.x_scalar (p ⊡ neg (one_scalar {F = F})) ≡ x.x_scalar p)
      → (rs.1 ≢ zero_scalar → Verifies public m rs)
      → to_signature rs ≡ ok sig
      → Verifies public m (sg.scalars sig)
  unfolding to_signature normalized
  to_signature-Verifies public m (r, s) sig hx v e =
      elim (sg.from_scalars r s)
          as (λ (o : Option S).
            sg.from_scalars r s ≡ o
            → (elim o [ none ↦ err ecdsa | some sig ↦ ok (normalized F sig) ]) ≡ ok sig
            → Verifies public m (sg.scalars sig)) [
              | none ↦ λ q e. cc e
              | some high ↦ λ q e.
                  let (es, nr, ns) = sg.from_scalars-scalars r s high q in
                  let w : Verifies public m (sg.scalars high) =
                    subst (Verifies public m) (sym es) (v ns) in
                  subst (λ t. Verifies public m (sg.scalars t)) (ok_injective e)
                    (elim (sg.normalize_s high)
                        as (λ (o : Option S).
                          sg.normalize_s high ≡ o
                          → Verifies public m
                              (sg.scalars (elim o [ none ↦ high | some low ↦ low ]))) [
                                | none ↦ λ q. w
                                | some low ↦ λ q.
                                    subst (Verifies public m)
                                      (sym (sg.normalize_s-scalars high low q))
                                      (Verifies-neg public m _ _ hx w)
                              ]
                      refl)
            ]
        refl e

module _ {F G R S : Type 0} ⦃f : Field F⦄ ⦃g : Group G⦄ ⦃c : Action F G⦄ ⦃h : Hash⦄
    ⦃pe : PointEncoding G⦄ ⦃d : Digest F⦄ ⦃rng : Rng F R⦄ ⦃x : XCoordinate F G⦄
    ⦃sg : Signatures F S⦄ where
  -- For a valid committee with ids below the field's order, a key commitment of at most t points, and points whose
  -- negations have the same x-coordinate: a signature that `run_sign` returns from a presigning that succeeded,
  -- with any fault injection in both, passes ECDSA verification of the message under the key's public point.
  pub run_sign-Verifies :
      (committee : Committee) (key0 : DkgOutput F G) (kr : List (DkgOutput F G)) (id : ℕ)
      (rngs : List R) (tamper : Option PresignTamper) (out : List (Presignature F G))
      (params : Params) (msg : Bytes) (replaced : Option (PartyId × F)) (sig : S) {rngs' : List R}
      → IsCommittee committee.ids committee.t
      → All (λ p. p < order F) committee.ids
      → length key0.cm.points ≤ committee.t
      → ((p : G) → x.x_scalar (p ⊡ neg (one_scalar {F = F})) ≡ x.x_scalar p)
      → presign_with_committee committee (key0 ∷ kr) id rngs tamper ≡ ok (out, rngs')
      → params.t ≡ committee.t
      → run_sign params out msg replaced ≡ ok sig
      → Verifies (eval_at_point key0.cm (zero_scalar {F = F})) (message_scalar msg) (sg.scalars sig)
  unfolding run_sign combine
  run_sign-Verifies committee key0 kr id rngs tamper [] params msg replaced sig cm b lk hx e same
        s =
      cc s
  run_sign-Verifies committee key0 kr id rngs tamper (p ∷ ps) params msg replaced sig cm b lk hx e
        same s =
      let m : F = message_scalar msg in
      let shares = tamper_signing replaced (map (λ p. sign_share p m) (p ∷ ps)) in
      let presigned =
        presign_with_committee-IsPresigned committee key0 kr id rngs tamper (p ∷ ps) cm b lk e in
      let who : map (λ e. e.0) (entries shares) ≡ committee.ids =
        senders-tamper_signing replaced _
        ∙ (senders committee.t committee.ids key0.cm (p ∷ ps) presigned m (p ∷ ps)
            ∙ presigned.indices) in
      let (rs, q, e1) = >>=-eq-ok (combine params p m shares) _ s in
      to_signature-Verifies _ m rs sig hx
        (λ ne.
          presign-Verifies committee key0 kr id rngs tamper (p ∷ ps) m 0 p shares rs cm b lk e refl
            (subst (IsQuorum F) (sym who) (IsStrict-Distinct committee.ids cm.strict, b))
            (ap (λ t. combine_at t zero_scalar p m shares) (sym same) ∙ q) ne)
        e1
