-- ===== src/Wire/Tests.antt =====
-- The codec over the field of seven elements: the round trips at concrete messages.
use ohm_ecdsa.Prelude.{◌≡◌, refl, sym, ap, ◌∙◌, [], ◌∷◌, ◌++◌, some, length, arith}
use mathlib.Core.List.{append-nil}
use ohm_ecdsa.Core.{Phase}
use ohm_ecdsa.Gf7.{Gf7, g0, g3, g5, gf7_field, gf7_group}
use ohm_ecdsa.Gf7.Bytes.{gf7_scalars, gf7_points}
use ohm_ecdsa.Encoding.{scalar_bytes, be_bytes}
use ohm_ecdsa.Wire.{put_u8, put_u64, put_scalar}
use ohm_ecdsa.Wire.Messages.{
  DkgMessage, reveal_of, share_of, encode_message, decode_message, encode_p2p, message_codec,
}
use ohm_ecdsa.Wire.RoundTrip.{decode_message-encode}
use ohm_ecdsa.Wire.Envelopes.{
  Envelope, Fits, encode_envelope, decode_envelope, decode_envelope-encode, signing_bytes_injective,
}

-- A reveal with the identity as its highest coefficient.
abbrev a_reveal : DkgMessage Gf7 Gf7
a_reveal = reveal_of (record { from = 2; cm = record { points = g3 ∷ g0 ∷ [] } })

abbrev a_share : DkgMessage Gf7 Gf7
a_share = share_of (record { from = 2; to = 1; share = g5 })

decode_message-encode_example :
    decode_message (encode_message a_reveal ++ (9 ∷ []))
    ≡ some (a_reveal, length (encode_message a_reveal))
decode_message-encode_example = decode_message-encode a_reveal (9 ∷ []) (omega arith, omega arith)

abbrev an_envelope : Envelope (DkgMessage Gf7 Gf7)
an_envelope = record {
  sid = 7 ∷ 7 ∷ [];
  phase = Phase.key_gen;
  round = 2;
  from = 2;
  to = some 1;
  payload = a_share;
}

an_envelope-Fits : Fits an_envelope
an_envelope-Fits = record {
  sid_fits = omega arith;
  from_fits = omega arith;
  to_fits = omega arith;
  payload_fits =
      unfold message_codec encode_message encode_p2p put_u8 put_u64 be_bytes put_scalar scalar_bytes
        gf7_scalars in
      omega arith;
  payload_reads =
      unfold message_codec in
      (sym (ap decode_message (append-nil (encode_message a_share)))
        ∙ decode_message-encode a_share [] (omega arith, omega arith));
}

decode_envelope-encode_example :
    decode_envelope (encode_envelope an_envelope ++ (9 ∷ []))
    ≡ some (an_envelope, length (encode_envelope an_envelope))
decode_envelope-encode_example = decode_envelope-encode an_envelope (9 ∷ []) an_envelope-Fits

signing_bytes_injective_example : an_envelope ≡ an_envelope
signing_bytes_injective_example =
    signing_bytes_injective (1 ∷ 2 ∷ []) an_envelope an_envelope an_envelope-Fits an_envelope-Fits
      refl
