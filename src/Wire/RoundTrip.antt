-- ===== src/Wire/RoundTrip.antt =====
-- What is encoded is decoded: every DKG message that fits the wire is read back from the front of any input
-- that begins with its encoding, and exactly its bytes are used.
use ohm_ecdsa.Prelude.{
  ℕ, suc, ◌+◌, ◌-◌, ◌^◌, ◌≤◌, ◌<◌, ◌≡◌, refl, sym, ap, ◌∙◌, List, [], ◌∷◌, ◌++◌, some, true, false,
  ltb, ◌==◌, length, length-append, arith,
}
use mathlib.Core.List.{append-nil, append_assoc}
use ohm_ecdsa.Curve.{Group}
use ohm_ecdsa.Encoding.{Bytes, ScalarEncoding, PointEncoding}
use ohm_ecdsa.Vss.{FeldmanCommitment}
use ohm_ecdsa.Dkg.{DkgBcast1, DkgBcast2, DkgP2P}
use ohm_ecdsa.Wire.{get_from, put_u8, put_u64, put_bytes, put_scalar, put_point}
use ohm_ecdsa.Wire.Primitives.{
  get_from-append, take_u64-put, length-put_u64, take_bytes-put, take_scalar-put, length-put_scalar,
  take_point-put, take_u8-put,
}
use ohm_ecdsa.Wire.Messages.{
  DkgMessage, commit, reveal_of, share_of, encode_bcast1, decode_bcast1, encode_p2p, decode_p2p,
  put_points, encode_commitment, points_loop, decode_commitment, encode_bcast2, decode_bcast2,
  encode_message, decode_tagged, decode_message,
}

-- After a u64, the rest begins.
pub get_from-put_u64 : (v : ℕ) (b : Bytes) → get_from 8 (put_u64 v ++ b) ≡ some b
get_from-put_u64 v b = get_from-append 8 (put_u64 v) b (sym (length-put_u64 v))

decode_bcast1-encode :
    (b : DkgBcast1) (rest : Bytes)
    → b.from < 2 ^ 64
    → length b.hash ≡ 32
    → decode_bcast1 (encode_bcast1 b ++ rest) ≡ some (b, length (encode_bcast1 b))
unfolding decode_bcast1 encode_bcast1
decode_bcast1-encode b rest h n =
    let total : length (put_u64 b.from ++ put_bytes b.hash) ≡ 8 + length (put_bytes b.hash) =
      omega (arith, length-append (put_u64 b.from) (put_bytes b.hash), length-put_u64 b.from) in
    let test : (length b.hash == 32) ≡ true = ground arith in
    rw
      (
        append_assoc (put_u64 b.from) (put_bytes b.hash) rest,
        take_u64-put b.from (put_bytes b.hash ++ rest) h,
        get_from-put_u64 b.from (put_bytes b.hash ++ rest),
        take_bytes-put b.hash rest (omega arith),
        test,
        total,
      )
      refl

module _ {F : Type 0} ⦃e : ScalarEncoding F⦄ where
  decode_p2p-encode :
      (s : DkgP2P F) (rest : Bytes)
      → s.from < 2 ^ 64
      → s.to < 2 ^ 64
      → decode_p2p (encode_p2p s ++ rest) ≡ some (s, length (encode_p2p s))
  unfolding decode_p2p encode_p2p
  decode_p2p-encode s rest h k =
      let total : length (put_u64 s.from ++ (put_u64 s.to ++ put_scalar s.share)) ≡ 48 = omega (
        arith,
        length-append (put_u64 s.from) (put_u64 s.to ++ put_scalar s.share),
        length-append (put_u64 s.to) (put_scalar s.share),
        length-put_u64 s.from,
        length-put_u64 s.to,
        length-put_scalar s.share,
      ) in
      let third : get_from 16 (put_u64 s.from ++ (put_u64 s.to ++ (put_scalar s.share ++ rest)))
          ≡ some (put_scalar s.share ++ rest) =
        ap (get_from 16)
          (sym (append_assoc (put_u64 s.from) (put_u64 s.to) (put_scalar s.share ++ rest)))
        ∙ get_from-append 16 (put_u64 s.from ++ put_u64 s.to) (put_scalar s.share ++ rest) (
            omega (
              arith,
              length-append (put_u64 s.from) (put_u64 s.to),
              length-put_u64 s.from,
              length-put_u64 s.to,
            )) in
      rw
        (
          append_assoc (put_u64 s.from) (put_u64 s.to ++ put_scalar s.share) rest,
          append_assoc (put_u64 s.to) (put_scalar s.share) rest,
          take_u64-put s.from (put_u64 s.to ++ (put_scalar s.share ++ rest)) h,
          get_from-put_u64 s.from (put_u64 s.to ++ (put_scalar s.share ++ rest)),
          take_u64-put s.to (put_scalar s.share ++ rest) k,
          third,
          take_scalar-put s.share rest,
          total,
        )
        refl

module _ {G : Type 0} ⦃g : Group G⦄ ⦃pe : PointEncoding G⦄ where
  -- Each point takes at least one byte.
  length-put_points : (ps : List G) → length ps ≤ length (put_points ps)
  unfolding put_points
  length-put_points [] = omega arith
  length-put_points (p ∷ ps) = omega (
    arith,
    length-append (put_point p) (put_points ps),
    (take_point-put p []).1,
    length-put_points ps,
  )

  points_step :
      (p : G) (n : ℕ) (pre tail : Bytes) (used : ℕ) (acc : List G)
      → used ≡ length pre
      → points_loop (pre ++ (put_point p ++ tail)) (suc n) used acc
        ≡ points_loop
            (pre ++ (put_point p ++ tail))
            n
            (used + length (put_point p))
            (acc ++ (p ∷ []))
  unfolding points_loop
  points_step p n pre tail used acc e =
      rw (get_from-append used pre (put_point p ++ tail) e, (take_point-put p tail).0) refl

  -- The loop, at the points behind the bytes that it has used.
  points_loop_lem :
      (ps : List G) (pre rest : Bytes) (used : ℕ) (acc : List G)
      → used ≡ length pre
      → points_loop (pre ++ (put_points ps ++ rest)) (length ps) used acc
        ≡ some (acc ++ ps, used + length (put_points ps))
  unfolding points_loop put_points
  points_loop_lem [] pre rest used acc e =
      ap some (λ i. (sym (append-nil acc) i, (let q : used ≡ used + 0 = omega arith in q) i))
  points_loop_lem (p ∷ ps) pre rest used acc e =
      ap (λ b. points_loop (pre ++ b) (suc (length ps)) used acc)
        (append_assoc (put_point p) (put_points ps) rest)
      ∙ (points_step p (length ps) pre (put_points ps ++ rest) used acc e
          ∙ (ap (λ b. points_loop b (length ps) (used + length (put_point p)) (acc ++ (p ∷ [])))
                (sym (append_assoc pre (put_point p) (put_points ps ++ rest)))
              ∙ (points_loop_lem ps (pre ++ put_point p) rest (used + length (put_point p))
                    (acc ++ (p ∷ [])) (omega (arith, length-append pre (put_point p)))
                  ∙ ap some (λ i. (append_assoc acc (p ∷ []) ps i, lengths i)))))
    where
      lengths :
          used + length (put_point p) + length (put_points ps)
          ≡ used + length (put_point p ++ put_points ps)
      lengths = omega (arith, length-append (put_point p) (put_points ps))

  decode_commitment-encode :
      (cm : FeldmanCommitment G) (rest : Bytes)
      → length cm.points < 2 ^ 64
      → decode_commitment (encode_commitment cm ++ rest) ≡ some (cm, length (encode_commitment cm))
  unfolding decode_commitment encode_commitment
  decode_commitment-encode cm rest h =
      let total : length (put_u64 (length cm.points) ++ put_points cm.points)
          ≡ 8 + length (put_points cm.points) =
        omega (
          arith,
          length-append (put_u64 (length cm.points)) (put_points cm.points),
          length-put_u64 (length cm.points),
        ) in
      let count : ltb (length (put_u64 (length cm.points) ++ (put_points cm.points ++ rest)) - 8)
            (length cm.points)
          ≡ false =
        (let a = length-append (put_u64 (length cm.points)) (put_points cm.points ++ rest) in
          let b = length-append (put_points cm.points) rest in
          let c = length-put_u64 (length cm.points) in
          let d = length-put_points cm.points in ground arith) in
      rw
        (
          append_assoc (put_u64 (length cm.points)) (put_points cm.points) rest,
          take_u64-put (length cm.points) (put_points cm.points ++ rest) h,
          count,
          points_loop_lem cm.points (put_u64 (length cm.points)) rest 8 []
              (sym (length-put_u64 (length cm.points))),
          total,
        )
        refl

  decode_bcast2-encode :
      (b : DkgBcast2 G) (rest : Bytes)
      → b.from < 2 ^ 64
      → length b.cm.points < 2 ^ 64
      → decode_bcast2 (encode_bcast2 b ++ rest) ≡ some (b, length (encode_bcast2 b))
  unfolding decode_bcast2 encode_bcast2
  decode_bcast2-encode b rest h k =
      let total : length (put_u64 b.from ++ encode_commitment b.cm)
          ≡ 8 + length (encode_commitment b.cm) =
        omega
          (arith, length-append (put_u64 b.from) (encode_commitment b.cm), length-put_u64 b.from) in
      rw
        (
          append_assoc (put_u64 b.from) (encode_commitment b.cm) rest,
          take_u64-put b.from (encode_commitment b.cm ++ rest) h,
          get_from-put_u64 b.from (encode_commitment b.cm ++ rest),
          decode_commitment-encode b.cm rest k,
          total,
        )
        refl

-- The numbers of a message fit a u64, and a digest has 32 bytes.
abbrev pub IsWire : {F G : Type 0} → DkgMessage F G → Type 0
IsWire (commit b) = (b.from < 2 ^ 64) × (length b.hash ≡ 32)
IsWire (reveal_of b) = (b.from < 2 ^ 64) × (length b.cm.points < 2 ^ 64)
IsWire (share_of s) = (s.from < 2 ^ 64) × (s.to < 2 ^ 64)

module _ {F G : Type 0} ⦃e : ScalarEncoding F⦄ ⦃g : Group G⦄ ⦃pe : PointEncoding G⦄ where
  decode_message-tag :
      (tag : ℕ) (body rest : Bytes) (m : DkgMessage F G)
      → decode_tagged tag (body ++ rest) ≡ some (m, length body)
      → decode_message ((put_u8 tag ++ body) ++ rest) ≡ some (m, length (put_u8 tag ++ body))
  unfolding decode_message
  decode_message-tag tag body rest m h =
      let one : length (put_u8 tag) ≡ 1 = (unfold put_u8 in omega arith) in
      let total : length (put_u8 tag ++ body) ≡ 1 + length body =
        omega (arith, length-append (put_u8 tag) body) in
      rw
        (
          append_assoc (put_u8 tag) body rest,
          take_u8-put tag (body ++ rest),
          get_from-append 1 (put_u8 tag) (body ++ rest) (sym one),
          h,
          total,
        )
        refl

  -- A DKG message whose numbers fit a u64 is read back from the front of any bytes that begin with its
  -- encoding, and the decoder uses exactly the bytes of the encoding.
  pub decode_message-encode :
      (m : DkgMessage F G) (rest : Bytes)
      → IsWire m
      → decode_message (encode_message m ++ rest) ≡ some (m, length (encode_message m))
  unfolding encode_message
  decode_message-encode (commit b) rest (h, k) =
      decode_message-tag 1 (encode_bcast1 b) rest (commit b)
        (unfold decode_tagged in rw (decode_bcast1-encode b rest h k) refl)
  decode_message-encode (reveal_of b) rest (h, k) =
      decode_message-tag 2 (encode_bcast2 b) rest (reveal_of b)
        (unfold decode_tagged in rw (decode_bcast2-encode b rest h k) refl)
  decode_message-encode (share_of s) rest (h, k) =
      decode_message-tag 3 (encode_p2p s) rest (share_of s)
        (unfold decode_tagged in rw (decode_p2p-encode s rest h k) refl)
