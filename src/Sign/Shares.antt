-- ===== src/Sign/Shares.antt =====
-- Honest signers are never blamed: the share that a party computes passes the check under the
-- commitment that its receivers compute, in every form of signing.
use ohm_ecdsa.Prelude.{◌≡◌, ap, ap₂, ◌∙◌, true, some}
use ohm_ecdsa.Core.{PartyId}
use ohm_ecdsa.Field.{Field, ◌⊕◌, ◌⊗◌}
use ohm_ecdsa.Field.Laws.{mul_comm}
use ohm_ecdsa.Curve.{Group, Action}
use ohm_ecdsa.Vss.{FeldmanCommitment, verify_share, add, scale}
use ohm_ecdsa.Vss.Shares.{passes-add, passes-scale, passes-add_const}
use ohm_ecdsa.Presign.{Presignature, KiPresignature, TripleShare, TriplePublic, apply_tweak}
use ohm_ecdsa.Sign.{sign_share, sign_share_ki, ki_z_share, ki_z_com}

module _ {F G : Type 0} ⦃f : Field F⦄ ⦃g : Group G⦄ ⦃c : Action F G⦄ where
  -- The shape of all signature shares: m·u + r·z under m·A[u] + r·A[z].
  pub passes_linear :
      (ud zd : FeldmanCommitment G) (j : PartyId) (u z m r : F)
      → verify_share ud j u ≡ true
      → verify_share zd j z ≡ true
      → verify_share (add (scale ud m) (scale zd r)) j (m ⊗ u ⊕ r ⊗ z) ≡ true
  passes_linear ud zd j u z m r h k =
      ap (verify_share (add (scale ud m) (scale zd r)) j) (ap₂ ◌⊕◌ (mul_comm m u) (mul_comm r z))
      ∙ passes-add _ _ j _ _ (passes-scale ud j u m h) (passes-scale zd j z r k)

  -- A signer whose presignature shares lie on their commitments broadcasts a share that passes.
  sign_share_passes :
      (p : Presignature F G) (m : F)
      → verify_share p.u_com p.index p.u_share ≡ true
      → verify_share p.z_com p.index p.z_share ≡ true
      → verify_share
          (add (scale p.u_com m) (scale p.z_com p.r))
          (sign_share p m).from
          (sign_share p m).s
        ≡ true
  unfolding sign_share
  sign_share_passes p m h k = passes_linear p.u_com p.z_com p.index p.u_share p.z_share m p.r h k

  -- A tweaked presignature has shares on its commitments again.
  pub apply_tweak_passes :
      (p : Presignature F G) (tau : F)
      → verify_share p.u_com p.index p.u_share ≡ true
      → verify_share p.z_com p.index p.z_share ≡ true
      → verify_share (apply_tweak p tau).z_com p.index (apply_tweak p tau).z_share ≡ true
  unfolding apply_tweak
  apply_tweak_passes p tau h k =
      ap (λ s. verify_share (add p.z_com (scale p.u_com tau)) p.index (p.z_share ⊕ s))
        (mul_comm tau p.u_share)
      ∙ passes-add _ _ p.index _ _ k (passes-scale p.u_com p.index p.u_share tau h)

  -- A product share of a triple lies on the commitment to the product.
  pub ki_z_share_passes :
      (j : PartyId) (ts : TripleShare F) (tp : TriplePublic G) (delta eps : F)
      {z_com : FeldmanCommitment G}
      → ki_z_com tp delta eps ≡ some z_com
      → verify_share tp.ca j ts.a ≡ true
      → verify_share tp.cb j ts.b ≡ true
      → verify_share tp.cc j ts.c ≡ true
      → verify_share z_com j (ki_z_share ts delta eps) ≡ true
  unfolding ki_z_share ki_z_com
  ki_z_share_passes j ts tp delta eps {z_com} q ha hb hc =
      ap (verify_share z_com j) (
        ap (λ s. s ⊕ delta ⊗ eps)
          (ap₂ (λ s t. ts.c ⊕ s ⊕ t) (mul_comm delta ts.b) (mul_comm eps ts.a)))
      ∙ passes-add_const _ j _ _ q (
          passes-add _ _ j _ _ (passes-add _ _ j _ _ hc (passes-scale tp.cb j ts.b delta hb))
            (passes-scale tp.ca j ts.a eps ha))

  -- The online z-share of the key-independent form lies on the commitment formed online, and so the
  -- signature share that is made from it passes.
  pub sign_share_ki_passes :
      (p : KiPresignature F G) (ts : TripleShare F) (tp : TriplePublic G) (m delta eps : F)
      {z_com : FeldmanCommitment G}
      → ki_z_com tp delta eps ≡ some z_com
      → verify_share p.u_com p.index p.u_share ≡ true
      → verify_share tp.ca p.index ts.a ≡ true
      → verify_share tp.cb p.index ts.b ≡ true
      → verify_share tp.cc p.index ts.c ≡ true
      → verify_share
          (add (scale p.u_com m) (scale z_com p.r))
          p.index
          (sign_share_ki p (ki_z_share ts delta eps) m).s
        ≡ true
  unfolding sign_share_ki
  sign_share_ki_passes p ts tp m delta eps {z_com} q hu ha hb hc =
      passes_linear p.u_com z_com p.index p.u_share _ m p.r hu
        (ki_z_share_passes p.index ts tp delta eps q ha hb hc)
