-- ===== src/Wire.antt =====
-- src/runtime/transport.rs: the primitives of the canonical wire encoding. `put_x` is the bytes that the
-- code appends; `take_x` reads a value from the front and says how many bytes it used.
pub mod Primitives
pub mod Messages
pub mod RoundTrip
pub mod Envelopes
mod Tests
use ohm_ecdsa.Prelude.{
  ℕ, ◌+◌, ◌-◌, ◌*◌, ◌^◌, List, [], ◌∷◌, ◌++◌, Option, none, some, Bool, leb, ltb, ◌==◌,
  if◌then◌else◌, length, take, drop,
}
use ohm_ecdsa.Prelude.Options.{◌>>=◌}
use ohm_ecdsa.Core.{Phase}
use ohm_ecdsa.Field.{Field}
use ohm_ecdsa.Curve.{Group, identity}
use ohm_ecdsa.Encoding.{
  Bytes, ScalarEncoding, scalar_bytes, scalar_from_repr, PointEncoding, point_bytes,
  point_from_encoded, be_bytes,
}

-- `b.get(..n)`
unfoldable pub get_to : ℕ → Bytes → Option Bytes
get_to n b = if leb n (length b) then some (take n b) else none

-- `b.get(n..)`
unfoldable pub get_from : ℕ → Bytes → Option Bytes
get_from n b = if leb n (length b) then some (drop n b) else none

-- `b.first()`
unfoldable pub first : Bytes → Option ℕ
first [] = none
first (v ∷ b) = some v

-- `u64::from_be_bytes`
unfoldable pub from_be_bytes : ℕ → Bytes → ℕ
from_be_bytes acc [] = acc
from_be_bytes acc (v ∷ b) = from_be_bytes (acc * 256 + v) b

-- `used.checked_add(n)` on a 64-bit `usize`.
unfoldable pub checked_add : ℕ → ℕ → Option ℕ
checked_add m n = if ltb (m + n) (2 ^ 64) then some (m + n) else none

unfoldable pub put_u8 : ℕ → Bytes
put_u8 v = v ∷ []

unfoldable pub put_u64 : ℕ → Bytes
put_u64 v = be_bytes v

unfoldable pub put_bytes : Bytes → Bytes
put_bytes b = put_u64 (length b) ++ b

unfoldable pub take_u8 : Bytes → Option (ℕ × ℕ)
take_u8 b = do v ← first b; some (v, 1)

unfoldable pub take_u64 : Bytes → Option (ℕ × ℕ)
take_u64 b = do a ← get_to 8 b; some (from_be_bytes 0 a, 8)

-- `b.get(used..end)` with `end = used + n`.
unfoldable pub take_bytes : Bytes → Option (Bytes × ℕ)
take_bytes b = do
  (n, used) ← take_u64 b
  end ← checked_add used n
  front ← get_to end b
  some (drop used front, end)

unfoldable pub phase_code : Phase → ℕ
phase_code Phase.key_gen = 1
phase_code Phase.triples = 2
phase_code Phase.presign = 3
phase_code Phase.sign = 4
phase_code Phase.refresh = 5

unfoldable pub phase_decode : ℕ → Option Phase
phase_decode code =
    if code == 1
    then some Phase.key_gen
    else if code == 2
    then some Phase.triples
    else if code == 3
    then some Phase.presign
    else if code == 4
    then some Phase.sign
    else if code == 5
    then some Phase.refresh
    else none

module _ {F : Type 0} ⦃e : ScalarEncoding F⦄ where
  unfoldable pub put_scalar : F → Bytes
  put_scalar s = scalar_bytes s

  unfoldable pub take_scalar : Bytes → Option (F × ℕ)
  take_scalar b = do a ← get_to 32 b; s ← scalar_from_repr a; some (s, 32)

module _ {G : Type 0} ⦃g : Group G⦄ ⦃pe : PointEncoding G⦄ where
  unfoldable pub put_point : G → Bytes
  put_point p = point_bytes p

  -- A compressed point: 33 bytes.
  unfoldable pub take_compressed : Bytes → Option (G × ℕ)
  take_compressed b = do a ← get_to 33 b; p ← point_from_encoded a; some (p, 33)

  unfoldable pub take_point : Bytes → Option (G × ℕ)
  unfolding take_compressed
  take_point b = do
    tag ← first b
    if tag == 0
        then some (identity, 1)
        else if tag == 2
        then take_compressed b
        else if tag == 3
        then take_compressed b
        else none
