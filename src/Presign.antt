-- ===== src/Presign.antt =====
-- src/protocol/presign.rs and src/protocol/triples.rs: the records that signing consumes, and the
-- tweak of a presignature for a child key.
pub mod Run
pub mod Ki
use ohm_ecdsa.Prelude.{ℕ}
use ohm_ecdsa.Core.{PartyId}
use ohm_ecdsa.Field.{Field, ◌⊕◌, ◌⊗◌}
use ohm_ecdsa.Curve.{Group, Action}
use ohm_ecdsa.Vss.{FeldmanCommitment, add, scale}

pub record Presignature (F G : Type 0) : Type 0 where
  pub id : ℕ
  pub index : PartyId
  pub r : F
  pub big_r : G
  pub u_share : F
  pub z_share : F
  pub u_com : FeldmanCommitment G
  pub z_com : FeldmanCommitment G

pub record KiPresignature (F G : Type 0) : Type 0 where
  pub id : ℕ
  pub index : PartyId
  pub r : F
  pub big_r : G
  pub u_share : F
  pub u_com : FeldmanCommitment G

pub record TripleShare (F : Type 0) : Type 0 where
  pub index : PartyId
  pub a : F
  pub b : F
  pub c : F

pub record TriplePublic (G : Type 0) : Type 0 where
  pub ca : FeldmanCommitment G
  pub cb : FeldmanCommitment G
  pub cc : FeldmanCommitment G

module _ {F G : Type 0} ⦃f : Field F⦄ ⦃g : Group G⦄ ⦃c : Action F G⦄ where
  unfoldable pub apply_tweak : Presignature F G → F → Presignature F G
  apply_tweak p tau = record p {
    z_share = p.z_share ⊕ tau ⊗ p.u_share;
    z_com = add p.z_com (scale p.u_com tau);
  }
