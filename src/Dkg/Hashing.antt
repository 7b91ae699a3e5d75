-- ===== src/Dkg/Hashing.antt =====
-- src/lib.rs: the digest that binds a dealer to its commitment vectors.
use ohm_ecdsa.Prelude.{List, [], ◌∷◌, ◌++◌}
use ohm_ecdsa.Core.{PartyId}
use ohm_ecdsa.Curve.{Group}
use ohm_ecdsa.Encoding.{Bytes, Hash, sha256, PointEncoding, point_bytes, be_bytes}
use ohm_ecdsa.Vss.{FeldmanCommitment}

module _ {G : Type 0} ⦃g : Group G⦄ ⦃h : Hash⦄ ⦃pe : PointEncoding G⦄ where
  -- `for p in &com.points { h.update(encode(p)) }`
  unfoldable pub points_bytes : List G → Bytes
  points_bytes [] = []
  points_bytes (p ∷ ps) = point_bytes p ++ points_bytes ps

  unfoldable pub commitments_bytes : List (FeldmanCommitment G) → Bytes
  unfolding points_bytes
  commitments_bytes [] = []
  commitments_bytes (c ∷ cs) = points_bytes c.points ++ commitments_bytes cs

  unfoldable pub hash_commitments : Bytes → Bytes → PartyId → List (FeldmanCommitment G) → Bytes
  unfolding commitments_bytes
  hash_commitments sid tag party cms =
      sha256 (tag ++ (sid ++ (be_bytes party ++ commitments_bytes cms)))

  unfoldable pub hash_commitment : Bytes → Bytes → PartyId → FeldmanCommitment G → Bytes
  unfolding hash_commitments
  hash_commitment sid tag party cm = hash_commitments sid tag party (cm ∷ [])
