-- ===== src/Presign/Run/Values.antt =====
-- Beaver multiplication in P2 and P4: what the masked openings and the combined commitment are worth.
use ohm_ecdsa.Prelude.{
  ℕ, ◌≤◌, ◌<◌, ◌≡◌, sym, ap, ap₂, subst, ◌∙◌, List, [], ◌∷◌, some, map, length, All, arith,
}
use ohm_ecdsa.Core.{PartyId, Phase, ok, >>=-eq-ok, ok_injective}
use ohm_ecdsa.Core.Map.{Map, keys, IsSorted, collect_into, collect_into-IsSorted, All-collect_into}
use ohm_ecdsa.Field.{Field, zero_scalar, one_scalar, ◌⊕◌, ◌⊗◌, neg, order}
use ohm_ecdsa.Field.Laws.{ring, add-neg, add-zero, mul-neg, mul-one, add_assoc, add_comm}
use ohm_ecdsa.Curve.{Group, Action}
use ohm_ecdsa.Vss.{FeldmanCommitment, scale, add}
use ohm_ecdsa.Vss.Laws.{length-add}
use ohm_ecdsa.Vss.Shares.{length-scale, length-add_const}
use ohm_ecdsa.Vss.Secret.{secret, secret-add, secret-scale, secret-add_const}
use ohm_ecdsa.Open.{open_shares}
use ohm_ecdsa.Open.Laws.{open_at-outcome, strict_outcome_ok}
use ohm_ecdsa.Presign.{TriplePublic}
use ohm_ecdsa.Sign.{ki_z_com}
use ohm_ecdsa.Presign.Run.{masked, open_masked}

module _ {F : Type 0} ⦃f : Field F⦄ where
  pub masked_keys :
      (ids : List PartyId) (xs masks : List F) {es : List (PartyId × F)}
      → masked ids xs masks ≡ ok es
      → map (λ e. e.0) es ≡ ids
  unfolding masked
  masked_keys [] xs masks {es} e = sym (ap (map (λ (e : PartyId × F). e.0)) (ok_injective e))
  masked_keys (j ∷ js) [] masks e = cc
  masked_keys (j ∷ js) (x ∷ xs) [] e = cc
  masked_keys (j ∷ js) (x ∷ xs) (m ∷ masks) e =
      let (rest, p, q) = >>=-eq-ok (masked js xs masks) _ e in
      sym (ap (map (λ (e : PartyId × F). e.0)) (ok_injective q))
      ∙ ap (λ js. j ∷ js) (masked_keys js xs masks p)

  pub unmask : (d u m : F) → d ≡ u ⊕ m ⊗ neg one_scalar → u ≡ d ⊕ m
  unmask d u m e = sym (
      ap (λ t. t ⊕ m) e
      ∙ (ap (λ s. u ⊕ s ⊕ m) (mul-neg m one_scalar ∙ ap neg (mul-one m))
          ∙ (add_assoc u (neg m) m
              ∙ (ap (λ s. u ⊕ s) (add_comm (neg m) m ∙ add-neg m) ∙ add-zero u))))

  beaver : (x y a b d e : F) → x ≡ d ⊕ a → y ≡ e ⊕ b → a ⊗ b ⊕ b ⊗ d ⊕ a ⊗ e ⊕ d ⊗ e ≡ x ⊗ y
  beaver x y a b d e p q = sym (ap₂ ◌⊗◌ p q ∙ simp ring)

module _ {F G : Type 0} ⦃f : Field F⦄ ⦃g : Group G⦄ ⦃c : Action F G⦄ where
  -- An opening that succeeds opens the committed secret.
  pub open_shares-secret :
      (t : ℕ) (cm : FeldmanCommitment G) (shares : Map F) (phase : Phase) {s : F}
      → IsSorted shares
      → All (λ p. p < order F) (keys shares)
      → length cm.points ≤ t
      → open_shares t cm shares phase ≡ ok s
      → s ≡ secret F cm
  unfolding open_shares
  open_shares-secret t cm shares phase so b d e =
      (strict_outcome_ok zero_scalar t cm shares phase _
        (sym (open_at-outcome zero_scalar t cm shares phase so b d) ∙ e)).2

  -- The opened value is the difference to the mask.
  pub open_masked_lem :
      (t : ℕ) (ids : List PartyId) (cm mask_cm : FeldmanCommitment G) (xs masks : List F) {d : F}
      → All (λ p. p < order F) ids
      → length cm.points ≤ t
      → length mask_cm.points ≤ t
      → open_masked t ids cm mask_cm xs masks ≡ ok d
      → secret F cm ≡ d ⊕ secret F mask_cm
  unfolding open_masked
  open_masked_lem t ids cm mask_cm xs masks {d} b lc lm e =
      let (es, p, q) = >>=-eq-ok (masked ids xs masks) _ e in
      let v : d ≡ secret F (add cm (scale mask_cm (neg (one_scalar {F = F})))) =
        open_shares-secret t _ (collect_into [] es) _ (collect_into-IsSorted [] es tt)
          (All-collect_into _ [] es tt
            (subst (All (λ p. p < order F)) (sym (masked_keys ids xs masks p)) b))
          (length-add cm _ t lc (omega (arith, length-scale mask_cm (neg (one_scalar {F = F})))))
          q in
      unmask d _ _ (v ∙ (secret-add cm _ ∙ ap (λ s. secret F cm ⊕ s) (secret-scale mask_cm _)))

  -- From a triple, the commitment of P2 and P4 is to the product of the two masked secrets.
  pub ki_z_com_lem :
      (t : ℕ) (public : TriplePublic G) (x y d e : F) {z_com : FeldmanCommitment G}
      → secret F public.cc ≡ secret F public.ca ⊗ secret F public.cb
      → (length public.ca.points ≤ t)
        × (length public.cb.points ≤ t)
        × (length public.cc.points ≤ t)
      → x ≡ d ⊕ secret F public.ca
      → y ≡ e ⊕ secret F public.cb
      → ki_z_com public d e ≡ some z_com
      → (secret F z_com ≡ x ⊗ y) × (length z_com.points ≤ t)
  unfolding ki_z_com
  ki_z_com_lem t public x y d e {z_com} m (la, lb, lc) p q h =
      let sum = add (add public.cc (scale public.cb d)) (scale public.ca e) in
      let l : length sum.points ≤ t =
        length-add _ _ t (length-add _ _ t lc (omega (arith, length-scale public.cb d)))
          (omega (arith, length-scale public.ca e)) in
      (
        secret-add_const sum _ h
            ∙ (ap (λ s. s ⊕ d ⊗ e)
                  (secret-add _ _
                    ∙ ap₂ ◌⊕◌ (secret-add _ _ ∙ ap₂ ◌⊕◌ m (secret-scale _ _)) (secret-scale _ _))
                ∙ beaver x y _ _ d e p q),
        omega (arith, l, length-add_const sum _ h),
      )
