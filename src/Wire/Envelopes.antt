-- ===== src/Wire/Envelopes.antt =====
-- src/runtime/transport.rs: envelopes, their encoding, and the bytes that a signature covers.
use ohm_ecdsa.Prelude.{
  ℕ, ◌+◌, ◌^◌, ◌<◌, ◌≡◌, refl, sym, ap, ◌∙◌, [], ◌++◌, Option, none, some, true, ◌==◌,
  if◌then◌else◌, length, length-append, drop, arith,
}
use mathlib.Core.List.{append_assoc}
use ohm_ecdsa.Prelude.Options.{◌>>=◌}
use ohm_ecdsa.Core.{PartyId, Phase}
use ohm_ecdsa.Encoding.{Bytes}
use ohm_ecdsa.Wire.{
  get_from, put_u8, put_u64, put_bytes, take_u8, take_u64, take_bytes, phase_code, phase_decode,
}
use ohm_ecdsa.Wire.Primitives.{
  drop-append, get_from-append, take_u64-put, length-put_u64, take_bytes-put, take_u8-put,
  phase_decode-phase_code,
}
use ohm_ecdsa.Wire.Messages.{Codec}

pub record Envelope (M : Type 0) : Type 0 where
  pub sid : Bytes
  pub phase : Phase
  pub round : ℕ
  pub from : PartyId
  pub to : Option PartyId
  pub payload : M

unfoldable pub broadcast : {M : Type 0} → Bytes → Phase → ℕ → PartyId → M → Envelope M
broadcast sid phase round from payload = record {
  sid = sid;
  phase = phase;
  round = round;
  from = from;
  to = none;
  payload = payload;
}

unfoldable pub p2p : {M : Type 0} → Bytes → Phase → ℕ → PartyId → PartyId → M → Envelope M
p2p sid phase round from to payload = record {
  sid = sid;
  phase = phase;
  round = round;
  from = from;
  to = some to;
  payload = payload;
}

-- `take(bytes.get(used..)?)?; used += u`
abbrev pub take_at {ℓ} : {A : Type ℓ} → (Bytes → Option (A × ℕ)) → Bytes → ℕ → Option (A × ℕ)
take_at take bytes used = do rest ← get_from used bytes; (v, u) ← take rest; some (v, used + u)

unfoldable pub put_to : Option PartyId → Bytes
put_to none = put_u8 0
put_to (some to) = put_u8 1 ++ put_u64 to

unfoldable pub take_to : ℕ → Bytes → ℕ → Option (Option PartyId × ℕ)
take_to tag bytes used =
    if tag == 0
    then some (none, used)
    else if tag == 1
    then (do (to, used') ← take_at take_u64 bytes used; some (some to, used'))
    else none

-- The tag of the addressee, and the addressee.
unfoldable pub take_addressee : Bytes → ℕ → Option (Option PartyId × ℕ)
unfolding take_to
take_addressee bytes used = do
  (to_tag, used) ← take_at take_u8 bytes used
  take_to to_tag bytes used

module _ {M : Type 0} ⦃c : Codec M⦄ where
  unfoldable pub encode_envelope : Envelope M → Bytes
  encode_envelope env =
      put_bytes env.sid
      ++ (put_u8 (phase_code env.phase)
          ++ (put_u8 env.round
              ++ (put_u64 env.from ++ (put_to env.to ++ put_bytes (c.encode env.payload)))))

  -- The payload must use all of its bytes.
  unfoldable pub decode_payload : Bytes → Option M
  decode_payload payload_bytes = do
    (payload, payload_used) ← c.decode payload_bytes
    if payload_used == length payload_bytes then some payload else none

  unfoldable pub decode_envelope : Bytes → Option (Envelope M × ℕ)
  unfolding take_addressee decode_payload
  decode_envelope bytes = do
    (sid, used) ← take_bytes bytes
    (code, used) ← take_at take_u8 bytes used
    phase ← phase_decode code
    (round, used) ← take_at take_u8 bytes used
    (from, used) ← take_at take_u64 bytes used
    (to, used) ← take_addressee bytes used
    (payload_bytes, used) ← take_at take_bytes bytes used
    payload ← decode_payload payload_bytes
    some (
      record { sid = sid; phase = phase; round = round; from = from; to = to; payload = payload },
      used,
    )

  -- `signing_bytes`: the domain tag, and the encoding of all six fields.
  unfoldable pub signing_bytes : Bytes → Envelope M → Bytes
  signing_bytes transport_sign env = transport_sign ++ encode_envelope env

-- A field is read at the end of what was used.
take_at-put {ℓ} :
    {A : Type ℓ} (take : Bytes → Option (A × ℕ)) (pre enc tail : Bytes) (v : A) {bytes : Bytes}
    {used : ℕ}
    → bytes ≡ pre ++ (enc ++ tail)
    → used ≡ length pre
    → take (enc ++ tail) ≡ some (v, length enc)
    → take_at take bytes used ≡ some (v, length (pre ++ enc))
take_at-put take pre enc tail v {bytes} {used} e n h =
    let k : used + length enc ≡ length (pre ++ enc) = omega (arith, length-append pre enc) in
    rw (e, get_from-append used pre (enc ++ tail) n, h, k) refl

abbrev FitsTo : Option PartyId → Type 0
FitsTo none = Unit
FitsTo (some to) = to < 2 ^ 64

take_addressee-put :
    (to : Option PartyId) (pre tail : Bytes) {bytes : Bytes} {used : ℕ}
    → FitsTo to
    → bytes ≡ pre ++ (put_to to ++ tail)
    → used ≡ length pre
    → take_addressee bytes used ≡ some (to, length (pre ++ put_to to))
unfolding take_addressee take_to put_to put_u8
take_addressee-put none pre tail h e n =
    rw (take_at-put take_u8 pre (put_u8 0) tail 0 e n (take_u8-put 0 tail)) refl
take_addressee-put (some to) pre tail {bytes} h e n =
    rw
      (
        take_at-put take_u8 pre (put_u8 1) (put_u64 to ++ tail) 1
            (e ∙ ap (λ t. pre ++ t) (append_assoc (put_u8 1) (put_u64 to) tail)) n
            (take_u8-put 1 (put_u64 to ++ tail)),
        take_at-put take_u64 (pre ++ put_u8 1) (put_u64 to) tail to second refl
            (take_u64-put to tail h ∙ ap (λ k. some (to, k)) (sym (length-put_u64 to))),
      )
      (ap (λ b. some (some to, length b)) (append_assoc pre (put_u8 1) (put_u64 to)))
  where
    second : bytes ≡ (pre ++ put_u8 1) ++ (put_u64 to ++ tail)
    second = e ∙ (simp append_assoc)

-- The numbers of an envelope fit: a u64 for the ids and for the lengths with their prefix.
pub record Fits {M : Type 0} ⦃c : Codec M⦄ (env : Envelope M) : Type 0 where
  pub sid_fits : 8 + length env.sid < 2 ^ 64
  pub from_fits : env.from < 2 ^ 64
  pub to_fits : FitsTo env.to
  pub payload_fits : 8 + length (c.encode env.payload) < 2 ^ 64
  pub payload_reads :
      c.decode (c.encode env.payload) ≡ some (env.payload, length (c.encode env.payload))

module _ {M : Type 0} ⦃c : Codec M⦄ where
  -- The bytes up to each field.
  abbrev to_code : Envelope M → Bytes
  to_code env = put_bytes env.sid

  abbrev to_round : Envelope M → Bytes
  to_round env = to_code env ++ put_u8 (phase_code env.phase)

  abbrev to_from : Envelope M → Bytes
  to_from env = to_round env ++ put_u8 env.round

  abbrev to_addressee : Envelope M → Bytes
  to_addressee env = to_from env ++ put_u64 env.from

  abbrev to_payload : Envelope M → Bytes
  to_payload env = to_addressee env ++ put_to env.to

  abbrev payload_field : Envelope M → Bytes
  payload_field env = put_bytes (c.encode env.payload)

  abbrev input : Envelope M → Bytes → Bytes
  unfolding encode_envelope
  input env rest = encode_envelope env ++ rest

  -- The fields of the encoding, nested to the right, with what follows.
  input_fields :
      (env : Envelope M) (rest : Bytes)
      → input env rest
        ≡ to_code env
          ++ (put_u8 (phase_code env.phase)
              ++ (put_u8 env.round
                  ++ (put_u64 env.from ++ (put_to env.to ++ (payload_field env ++ rest)))))
  unfolding input encode_envelope
  input_fields env rest = simp append_assoc

  whole : (env : Envelope M) → to_payload env ++ payload_field env ≡ encode_envelope env
  unfolding encode_envelope
  whole env = simp append_assoc

  -- An envelope that fits the wire, with a payload that its codec reads back, is read back from the front
  -- of any bytes that begin with its encoding, and the decoder uses exactly the bytes of the encoding.
  pub decode_envelope-encode :
      (env : Envelope M) (rest : Bytes)
      → Fits env
      → decode_envelope (encode_envelope env ++ rest) ≡ some (env, length (encode_envelope env))
  unfolding decode_envelope input put_u8
  decode_envelope-encode env rest fits =
      let e = input_fields env rest in
      let sid_read : take_bytes (encode_envelope env ++ rest)
          ≡ some (env.sid, length (to_code env)) =
        ap take_bytes e ∙ take_bytes-put env.sid _ fits.sid_fits in
      let code_read =
        take_at-put take_u8 (to_code env) (put_u8 (phase_code env.phase)) _ (phase_code env.phase) e
          refl (take_u8-put (phase_code env.phase) _) in
      let round_read =
        take_at-put take_u8 (to_round env) (put_u8 env.round)
          (put_u64 env.from ++ (put_to env.to ++ (payload_field env ++ rest))) env.round
          (e ∙ simp append_assoc) refl (take_u8-put env.round _) in
      let from_read =
        take_at-put take_u64 (to_from env) (put_u64 env.from)
          (put_to env.to ++ (payload_field env ++ rest)) env.from (e ∙ simp append_assoc) refl
          (take_u64-put env.from _ fits.from_fits
            ∙ ap (λ k. some (env.from, k)) (sym (length-put_u64 env.from))) in
      let to_read =
        take_addressee-put env.to (to_addressee env) (payload_field env ++ rest) fits.to_fits
          (e ∙ simp append_assoc) refl in
      let bytes_read =
        take_at-put take_bytes (to_payload env) (payload_field env) rest (c.encode env.payload)
          (e ∙ simp append_assoc) refl
          (take_bytes-put (c.encode env.payload) rest fits.payload_fits) in
      let same : (length (c.encode env.payload) == length (c.encode env.payload)) ≡ true =
        ground arith in
      let payload_read : decode_payload (c.encode env.payload) ≡ some env.payload =
        (unfold decode_payload in rw (fits.payload_reads, same) refl) in
      rw
        (
          sid_read,
          code_read,
          phase_decode-phase_code env.phase,
          round_read,
          from_read,
          to_read,
          bytes_read,
          payload_read,
        )
        (ap (λ b. some (env, length b)) (whole env))

  -- Two envelopes that fit the wire have the same signed bytes only if they are the same, so that a
  -- signature speaks for one envelope: its session, phase, round, sender, addressee and payload.
  pub signing_bytes_injective :
      (transport_sign : Bytes) (d e : Envelope M)
      → Fits d
      → Fits e
      → signing_bytes transport_sign d ≡ signing_bytes transport_sign e
      → d ≡ e
  unfolding signing_bytes
  signing_bytes_injective transport_sign d e fd fe h =
      let body : encode_envelope d ≡ encode_envelope e =
        sym (drop-append transport_sign (encode_envelope d))
        ∙ (ap (λ b. drop (length transport_sign) b) h
            ∙ drop-append transport_sign (encode_envelope e)) in
      let q : some (d, length (encode_envelope d)) ≡ some (e, length (encode_envelope e)) =
        sym (decode_envelope-encode d [] fd)
        ∙ (ap (λ b. decode_envelope (b ++ [])) body ∙ decode_envelope-encode e [] fe) in
      let r : (d, length (encode_envelope d)) ≡ (e, length (encode_envelope e)) = cc q in
      ap (λ (t : Envelope M × ℕ). t.0) r
