-- ===== src/Blame/Tests.antt =====
-- Blame tokens over the field of seven elements: one that is accepted, and one that frames an honest dealer.
use ohm_ecdsa.Prelude.{
  List, ℕ, ◌≡◌, refl, sym, ap, subst, ◌∙◌, [], ◌∷◌, Bool, true, false, some, ◌==◌, if◌then◌else◌,
  get_elem?, arith,
}
use mathlib.Core.List.{append-nil}
use ohm_ecdsa.Core.{Phase, text}
use ohm_ecdsa.Core.Map.{get}
use ohm_ecdsa.Gf7.{Gf7, g2, g3, g5, g6, gf7_field, gf7_group, gf7_action}
use ohm_ecdsa.Gf7.Bytes.{gf7_scalars, gf7_points}
use ohm_ecdsa.Encoding.{Bytes, same_bytes, same_bytes_iff, be_bytes, scalar_bytes}
use ohm_ecdsa.Field.{zero_scalar, one_scalar, ◌⊗◌, from_u64}
use ohm_ecdsa.Curve.{generator, identity, ◌⊡◌, ◌⊞◌, ◌=ₚ◌}
use ohm_ecdsa.Vss.{verify_share, eval_at_point}
use ohm_ecdsa.Dkg.{DkgP2P}
use ohm_ecdsa.Wire.{phase_code, put_u8, put_u64, put_scalar}
use ohm_ecdsa.Wire.Messages.{
  DkgMessage, share_of, encode_message, decode_message, encode_p2p, message_codec,
}
use ohm_ecdsa.Wire.RoundTrip.{decode_message-encode}
use ohm_ecdsa.Wire.Envelopes.{Envelope, Fits, signing_bytes}
use ohm_ecdsa.Blame.{Verifier, BlameToken, verify_signature, verify_token}
use ohm_ecdsa.Blame.Sound.{verify_token_honest}

-- The share that dealer 2, who committed to 3 + 2 X, owes party 1.
abbrev honest_envelope : Envelope (DkgMessage Gf7 Gf7)
honest_envelope = record {
  sid = 7 ∷ [];
  phase = Phase.key_gen;
  round = 2;
  from = 2;
  to = some 1;
  payload = share_of (record { from = 2; to = 1; share = g5 });
}

-- Under the key 5 only the signed bytes of that envelope verify; a party of another key signs anything.
abbrev accepts : ℕ → Bytes → Bool
accepts key message =
    if key == 5 then same_bytes message (signing_bytes [] honest_envelope) else true

instance unfoldable toy_verifier : Verifier ℕ ℕ
toy_verifier = record { verify_bytes = λ key message signature. accepts key message }

-- Dealer 2 committed to 3 + 2 X, and sent 6 to party 1 where 5 passes.
abbrev token : BlameToken Gf7 Gf7 ℕ
token = record {
  report = record { phase = Phase.key_gen; blamed = 2 ∷ []; detail = text "bad share" };
  envelope = record {
    envelope = record {
      sid = 7 ∷ [];
      phase = Phase.key_gen;
      round = 2;
      from = 2;
      to = some 1;
      payload = share_of (record { from = 2; to = 1; share = g6 });
    };
    signature = 0;
  };
  cm = record { points = g3 ∷ g2 ∷ [] };
}

abbrev five : List (ℕ × ℕ)
five = (2, 5) ∷ []

abbrev nine : List (ℕ × ℕ)
nine = (2, 9) ∷ []

accepted : verify_token [] token nine ≡ true
unfolding verify_token verify_signature toy_verifier get phase_code verify_share eval_at_point
    gf7_field gf7_group gf7_action zero_scalar one_scalar ◌⊗◌ from_u64 generator identity ◌⊡◌ ◌⊞◌
    ◌=ₚ◌
accepted = refl

-- Party 1 reports the honest envelope.
abbrev framing : BlameToken Gf7 Gf7 ℕ
framing = record {
  report = record { phase = Phase.key_gen; blamed = 2 ∷ []; detail = text "bad share" };
  envelope = record { envelope = honest_envelope; signature = 0 };
  cm = record { points = g3 ∷ g2 ∷ [] };
}

honest_envelope-Fits : Fits honest_envelope
honest_envelope-Fits = record {
  sid_fits = omega arith;
  from_fits = omega arith;
  to_fits = omega arith;
  payload_fits =
      unfold message_codec encode_message encode_p2p put_u8 put_u64 be_bytes put_scalar scalar_bytes
        gf7_scalars in
      omega arith;
  payload_reads =
      unfold message_codec in
      (sym (ap decode_message (append-nil (encode_message honest_envelope.payload)))
        ∙ decode_message-encode honest_envelope.payload [] (omega arith, omega arith));
}

only_sent :
    (m : Bytes) (sig : ℕ)
    → toy_verifier.verify_bytes 5 m sig ≡ true
    → (k : ℕ) × (env : Envelope (DkgMessage Gf7 Gf7)) × (get_elem? (honest_envelope ∷ []) k
        ≡ some env)
      × (m ≡ signing_bytes [] env)
unfolding toy_verifier
only_sent m sig h = (0, honest_envelope, refl, (same_bytes_iff m _).0 h)

share_passes :
    (share : DkgP2P Gf7)
    → phase_code honest_envelope.phase ≡ phase_code framing.report.phase
    → honest_envelope.payload ≡ share_of share
    → verify_share framing.cm share.to share.share ≡ true
share_passes share h e =
    let q : record { from = 2; to = 1; share = g5 } ≡ share = cc e in
    subst (λ (d : DkgP2P Gf7). verify_share framing.cm d.to d.share ≡ true) q passes
  where
    passes : verify_share framing.cm 1 g5 ≡ true
    passes =
        unfold verify_share eval_at_point gf7_field gf7_group gf7_action zero_scalar one_scalar ◌⊗◌
          from_u64 generator identity ◌⊡◌ ◌⊞◌ ◌=ₚ◌ in
        refl

verify_token_honest_example : verify_token [] framing five ≡ false
unfolding get
verify_token_honest_example =
    verify_token_honest [] framing five 2 5 (honest_envelope ∷ []) refl only_sent (share_passes, tt)
      (honest_envelope-Fits, tt) honest_envelope-Fits refl
