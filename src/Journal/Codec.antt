-- ===== src/Journal/Codec.antt =====
-- The encoding of a journal entry of node/src/store/persist.rs is read back as it was written.
use ohm_ecdsa.Prelude.{
  ℕ, suc, ◌+◌, ◌^◌, ◌<◌, ◌≡◌, refl, sym, ap, ◌∙◌, [], ◌∷◌, ◌++◌, some, leb, length, drop,
  length-append, arith,
}
use mathlib.Core.List.{append-nil}
use ohm_ecdsa.Encoding.{Bytes}
use ohm_ecdsa.Wire.{get_to, get_from, first, from_be_bytes, put_u64, take_u64}
use ohm_ecdsa.Wire.Primitives.{get_to-append, get_from-append, take_u64-put, length-put_u64}
use ohm_ecdsa.Journal.{JournalEntry, encode, take_hash, decode, be_bytes32}

drop-skip : (n : ℕ) (a b : Bytes) → drop (length a + n) (a ++ b) ≡ drop n b
drop-skip n [] b = ap (λ k. drop k b) (omega arith)
drop-skip n (x ∷ a) b =
    let step : length (x ∷ a) + n ≡ suc (length a + n) = omega arith in
    ap (λ k. drop k (x ∷ a ++ b)) step ∙ drop-skip n a b

-- A slice past the first part of two is a slice of the second.
get_from-skip : (m n : ℕ) (a b : Bytes) → m ≡ length a + n → get_from m (a ++ b) ≡ get_from n b
unfolding get_from
get_from-skip m n a b e =
    let same : leb (length a + n) (length (a ++ b)) ≡ leb n (length b) =
      (let l = length-append a b in ground arith) in
    rw (e, same, drop-skip n a b)

-- The fields of an entry that fit their places in the encoding.
pub record Fits (e : JournalEntry) : Type 0 where
  pub seq : e.seq < 2 ^ 64
  pub id : e.id < 2 ^ 64
  pub prev : length e.prev ≡ 32
  pub payload : length e.payload ≡ 32
  pub hash : length e.hash ≡ 32

pub length-encode : (e : JournalEntry) → Fits e → length (encode e) ≡ 113
unfolding encode
length-encode e w = omega (
  arith,
  length-append (put_u64 e.seq) (e.op ∷ put_u64 e.id ++ (e.prev ++ (e.payload ++ e.hash))),
  length-append (put_u64 e.id) (e.prev ++ (e.payload ++ e.hash)),
  length-append e.prev (e.payload ++ e.hash),
  length-append e.payload e.hash,
  length-put_u64 e.seq,
  length-put_u64 e.id,
  w.prev,
  w.payload,
  w.hash,
)

module _ (e : JournalEntry) (w : Fits e) where
  from_op : get_from 8 (encode e) ≡ some (e.op ∷ put_u64 e.id ++ (e.prev ++ (e.payload ++ e.hash)))
  unfolding encode
  from_op = get_from-append 8 (put_u64 e.seq) _ (sym (length-put_u64 e.seq))

  from_id : get_from 9 (encode e) ≡ some (put_u64 e.id ++ (e.prev ++ (e.payload ++ e.hash)))
  unfolding encode
  from_id =
      get_from-skip 9 1 (put_u64 e.seq) _ (omega (arith, length-put_u64 e.seq))
      ∙ get_from-append 1 (e.op ∷ []) _ refl

  -- Past the number, the op and the id.
  past_id : (n : ℕ) → get_from (17 + n) (encode e) ≡ get_from n (e.prev ++ (e.payload ++ e.hash))
  unfolding encode
  past_id n =
      get_from-skip (17 + n) (9 + n) (put_u64 e.seq) _ (omega (arith, length-put_u64 e.seq))
      ∙ (get_from-skip (9 + n) (8 + n) (e.op ∷ []) _ (omega arith)
          ∙ get_from-skip (8 + n) n (put_u64 e.id) _ (omega (arith, length-put_u64 e.id)))

  take_prev : take_hash (encode e) 17 ≡ some e.prev
  unfolding take_hash
  take_prev =
      rw (past_id 0, get_from-append 0 [] (e.prev ++ (e.payload ++ e.hash)) refl)
        (get_to-append 32 e.prev _ (sym w.prev))

  take_payload : take_hash (encode e) 49 ≡ some e.payload
  unfolding take_hash
  take_payload =
      rw (past_id 32, get_from-append 32 e.prev (e.payload ++ e.hash) (sym w.prev))
        (get_to-append 32 e.payload _ (sym w.payload))

  take_last : take_hash (encode e) 81 ≡ some e.hash
  unfolding take_hash
  take_last =
      let there : get_from 81 (encode e) ≡ some e.hash =
        past_id 64
        ∙ (get_from-skip 64 32 e.prev _ (omega (arith, w.prev))
            ∙ get_from-append 32 e.payload e.hash (sym w.payload)) in
      rw there (ap (get_to 32) (sym (append-nil e.hash)) ∙ get_to-append 32 e.hash [] (sym w.hash))

-- An entry whose number and id fit 64 bits, and whose digests have 32 bytes, is decoded from its encoding.
pub decode-encode : (e : JournalEntry) → Fits e → decode (encode e) ≡ some e
unfolding decode first
decode-encode e w =
    rw
      (
        head,
        from_op e w,
        from_id e w,
        take_u64-put e.id (e.prev ++ (e.payload ++ e.hash)) w.id,
        take_prev e w,
        take_payload e w,
        take_last e w,
        length-encode e w,
      )
      refl
  where
    head : take_u64 (encode e) ≡ some (e.seq, 8)
    head = unfold encode in take_u64-put e.seq _ w.seq

pub from_be_bytes-be_bytes32 : (v : ℕ) → v < 2 ^ 32 → from_be_bytes 0 (be_bytes32 v) ≡ v
unfolding from_be_bytes be_bytes32
from_be_bytes-be_bytes32 v h = omega arith
