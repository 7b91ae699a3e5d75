-- ===== src/Wire/Messages.antt =====
-- src/runtime/transport.rs: `Encode` and `Decode` of the DKG messages. `decode` gives the value and the
-- number of bytes that it used; none on malformed input. `usize` has 64 bits.
use ohm_ecdsa.Prelude.{
  ℕ, zero, suc, ◌+◌, ◌-◌, List, [], ◌∷◌, ◌++◌, Option, none, some, ltb, ◌==◌, if◌then◌else◌, length,
}
use ohm_ecdsa.Prelude.Options.{◌>>=◌}
use ohm_ecdsa.Curve.{Group}
use ohm_ecdsa.Encoding.{Bytes, ScalarEncoding, PointEncoding}
use ohm_ecdsa.Vss.{FeldmanCommitment}
use ohm_ecdsa.Dkg.{DkgBcast1, DkgBcast2, DkgP2P}
use ohm_ecdsa.Wire.{
  get_from, put_u8, put_u64, put_bytes, take_u8, take_u64, take_bytes, put_scalar, take_scalar,
  put_point, take_point,
}

-- The traits `Encode` and `Decode`.
pub record Codec (M : Type 0) : Type 0 where
  pub encode : M → Bytes
  pub decode : Bytes → Option (M × ℕ)

pub data DkgMessage (F G : Type 0) : Type 0 where
  commit : DkgBcast1 → DkgMessage F G
  reveal_of : DkgBcast2 G → DkgMessage F G
  share_of : DkgP2P F → DkgMessage F G

unfoldable pub encode_bcast1 : DkgBcast1 → Bytes
encode_bcast1 b = put_u64 b.from ++ put_bytes b.hash

-- `hash.try_into()` to an array of 32 bytes.
unfoldable pub decode_bcast1 : Bytes → Option (DkgBcast1 × ℕ)
decode_bcast1 bytes = do
  (from, used) ← take_u64 bytes
  rest ← get_from used bytes
  (hash, u) ← take_bytes rest
  if length hash == 32 then some (record { from = from; hash = hash }, used + u) else none

module _ {F : Type 0} ⦃e : ScalarEncoding F⦄ where
  unfoldable pub encode_p2p : DkgP2P F → Bytes
  encode_p2p s = put_u64 s.from ++ (put_u64 s.to ++ put_scalar s.share)

  unfoldable pub decode_p2p : Bytes → Option (DkgP2P F × ℕ)
  decode_p2p bytes = do
    (from, used) ← take_u64 bytes
    rest ← get_from used bytes
    (to, u) ← take_u64 rest
    rest' ← get_from (used + u) bytes
    (share, v) ← take_scalar rest'
    some (record { from = from; to = to; share = share }, used + u + v)

module _ {G : Type 0} ⦃g : Group G⦄ ⦃pe : PointEncoding G⦄ where
  unfoldable pub put_points : List G → Bytes
  put_points [] = []
  put_points (p ∷ ps) = put_point p ++ put_points ps

  unfoldable pub encode_commitment : FeldmanCommitment G → Bytes
  encode_commitment cm = put_u64 (length cm.points) ++ put_points cm.points

  -- `for _ in 0..n { let (p, u) = take_point(bytes.get(used..)?)?; points.push(p); used += u }`
  unfoldable pub points_loop : Bytes → ℕ → ℕ → List G → Option (List G × ℕ)
  points_loop bytes zero used points = some (points, used)
  points_loop bytes (suc n) used points = do
    rest ← get_from used bytes
    (p, u) ← take_point rest
    points_loop bytes n (used + u) (points ++ (p ∷ []))

  -- A count above the number of bytes left is malformed.
  unfoldable pub decode_commitment : Bytes → Option (FeldmanCommitment G × ℕ)
  decode_commitment bytes = do
    (n, used) ← take_u64 bytes
    if ltb (length bytes - used) n then none else (do
      (points, end) ← points_loop bytes n used []
      some (record { points = points }, end))

  unfoldable pub encode_bcast2 : DkgBcast2 G → Bytes
  encode_bcast2 b = put_u64 b.from ++ encode_commitment b.cm

  unfoldable pub decode_bcast2 : Bytes → Option (DkgBcast2 G × ℕ)
  decode_bcast2 bytes = do
    (from, used) ← take_u64 bytes
    rest ← get_from used bytes
    (cm, u) ← decode_commitment rest
    some (record { from = from; cm = cm }, used + u)

module _ {F G : Type 0} ⦃e : ScalarEncoding F⦄ ⦃g : Group G⦄ ⦃pe : PointEncoding G⦄ where
  unfoldable pub encode_message : DkgMessage F G → Bytes
  encode_message (commit b) = put_u8 1 ++ encode_bcast1 b
  encode_message (reveal_of b) = put_u8 2 ++ encode_bcast2 b
  encode_message (share_of s) = put_u8 3 ++ encode_p2p s

  -- The message behind a tag.
  unfoldable pub decode_tagged : ℕ → Bytes → Option (DkgMessage F G × ℕ)
  decode_tagged tag rest =
      if tag == 1
      then (do (b, u) ← decode_bcast1 rest; some (commit b, u))
      else if tag == 2
      then (do (b, u) ← decode_bcast2 rest; some (reveal_of b, u))
      else if tag == 3
      then (do (s, u) ← decode_p2p rest; some (share_of s, u))
      else none

  unfoldable pub decode_message : Bytes → Option (DkgMessage F G × ℕ)
  decode_message bytes = do
    (tag, used) ← take_u8 bytes
    rest ← get_from used bytes
    (msg, u) ← decode_tagged tag rest
    some (msg, used + u)

  instance unfoldable pub message_codec : Codec (DkgMessage F G)
  message_codec = record { encode = encode_message; decode = decode_message }
