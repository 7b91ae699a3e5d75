-- ===== src/Journal/Append.antt =====
-- The writer and the reader of the journal of node/src/store/persist.rs fit: what `append` writes, `journal_replay`
-- reads back.
use ohm_ecdsa.Prelude.{
  ℕ, zero, suc, ◌+◌, ◌^◌, ◌<◌, ◌≡◌, refl, sym, ap, ◌∙◌, List, [], ◌∷◌, ◌++◌, some, none, true, ltb,
  ◌==◌, length, drop, length-append, arith,
}
use mathlib.Core.List.{append-nil}
use ohm_ecdsa.Encoding.{Bytes, same_bytes, same_bytes_iff, Hash, sha256}
use ohm_ecdsa.Wire.{get_to, get_from, from_be_bytes}
use ohm_ecdsa.Wire.Primitives.{get_to-append, get_from-append}
use ohm_ecdsa.Journal.{
  JournalEntry, Journal, replayed, accepted, new_entry, entry_digest, encode, decode, tip_of,
  op_fault, entry_fault, settle, check_body, next_entry, replay_loop, journal_replay, be_bytes32,
  append,
}
use ohm_ecdsa.Journal.Codec.{Fits, length-encode, decode-encode, from_be_bytes-be_bytes32}
use ohm_ecdsa.Journal.Turns.{replay_step, replay_loop-longer}

drop-whole : (n : ℕ) (a : Bytes) → length a ≡ n → drop n a ≡ []
drop-whole n [] h = (let z : n ≡ 0 = omega arith in ap (λ k. drop k []) z)
drop-whole zero (x ∷ a) h = absurd (omega arith)
drop-whole (suc n) (x ∷ a) h = drop-whole n a (omega arith)

module _ ⦃h : Hash⦄ where
  -- An entry at the end is the tip.
  pub tip_of-last :
      (entries : List JournalEntry) (e : JournalEntry) → tip_of (entries ++ (e ∷ [])) ≡ e.hash
  unfolding tip_of
  tip_of-last [] e = refl
  tip_of-last (l ∷ []) e = refl
  tip_of-last (l ∷ k ∷ ls) e = tip_of-last (k ∷ ls) e

  -- The state of the writer after these entries.
  pub record IsJournal (j : Journal) (entries : List JournalEntry) : Type 0 where
    pub replays : journal_replay j.file ≡ some (replayed entries)
    pub numbered : j.next_seq ≡ length entries + 1
    pub chained : j.tip ≡ tip_of entries
    pub digest : length j.tip ≡ 32

  same_bytes_self : (b : Bytes) → same_bytes b b ≡ true
  same_bytes_self b = (same_bytes_iff b b).1 refl

  -- An entry that the writer makes passes all checks, when its op is in order.
  new_entry-passes :
      (entries : List JournalEntry) (seq op id : ℕ) (prev payload : Bytes)
      → seq ≡ length entries + 1
      → prev ≡ tip_of entries
      → op_fault entries (length entries + 1) (new_entry seq op id prev payload) ≡ none
      → entry_fault entries (length entries + 1) (new_entry seq op id prev payload) ≡ none
  unfolding entry_fault new_entry
  new_entry-passes entries seq op id prev payload s p o =
      let a : (seq == length entries + 1) ≡ true = ground arith in
      let b : same_bytes prev (tip_of entries) ≡ true =
        ap (same_bytes prev) (sym p) ∙ same_bytes_self prev in
      rw (a, b, same_bytes_self (entry_digest seq op id prev payload)) o

  turn_of :
      (entries : List JournalEntry) (e : JournalEntry) (bytes hdr body : Bytes)
      → get_to 4 bytes ≡ some hdr
      → get_from 4 bytes ≡ some body
      → from_be_bytes 0 hdr ≡ 113
      → get_to 113 body ≡ some body
      → decode body ≡ some e
      → entry_fault entries (length entries + 1) e ≡ none
      → next_entry entries bytes ≡ accepted e 117
  unfolding next_entry check_body settle
  turn_of entries e bytes hdr body a b c d f o =
      rw (next_entry, a, b, c, d, check_body, f, o) (ap (λ k. accepted e (4 + k)) c)

  -- The frame of an entry is one turn of the replay.
  next_entry-frame :
      (entries : List JournalEntry) (e : JournalEntry)
      → Fits e
      → entry_fault entries (length entries + 1) e ≡ none
      → next_entry entries (be_bytes32 (length (encode e)) ++ encode e) ≡ accepted e 117
  next_entry-frame entries e w o =
      let size = length-encode e w in
      let hdr = be_bytes32 (length (encode e)) in
      let four : 4 ≡ length hdr = (unfold be_bytes32 in refl) in
      turn_of entries e (hdr ++ encode e) hdr (encode e) (get_to-append 4 hdr (encode e) four)
        (get_from-append 4 hdr (encode e) four)
        (from_be_bytes-be_bytes32 (length (encode e)) (omega arith) ∙ size)
        (ap (get_to 113) (sym (append-nil (encode e))) ∙ get_to-append 113 (encode e) [] (sym size))
        (decode-encode e w) o

  -- The journal that `append` writes, and the entry it adds.
  unfoldable pub next_journal : Journal → ℕ → ℕ → Bytes → Journal
  next_journal j op id payload =
      let e = new_entry j.next_seq op id j.tip payload in
      record {
        file = j.file ++ (be_bytes32 (length (encode e)) ++ encode e);
        next_seq = j.next_seq + 1;
        tip = e.hash;
      }

  pub new_entry-Fits :
      (seq op id : ℕ) (prev payload : Bytes)
      → seq < 2 ^ 64
      → id < 2 ^ 64
      → length prev ≡ 32
      → length payload ≡ 32
      → Fits (new_entry seq op id prev payload)
  unfolding new_entry entry_digest sha256
  new_entry-Fits seq op id prev payload s i p l = record {
    seq = s;
    id = i;
    prev = p;
    payload = l;
    hash = h.length-sha256 _;
  }

  done : (f : ℕ) (l : List JournalEntry) → replay_loop f l [] ≡ some (replayed l)
  unfolding replay_loop
  done zero l = refl
  done (suc f) l = refl

  replay_loop_last :
      (f : ℕ) (entries : List JournalEntry) (e : JournalEntry)
      → Fits e
      → entry_fault entries (length entries + 1) e ≡ none
      → replay_loop (suc f) entries (be_bytes32 (length (encode e)) ++ encode e)
        ≡ some (replayed (entries ++ (e ∷ [])))
  unfolding be_bytes32
  replay_loop_last f entries e w o =
      let size = length-encode e w in
      replay_step f entries _ _ e 117 (next_entry-frame entries e w o)
      ∙ (ap (replay_loop f (entries ++ (e ∷ []))) (drop-whole 113 (encode e) size)
          ∙ done f (entries ++ (e ∷ [])))

  -- The bytes of a journal with one more entry are replayed to its entries and that one.
  journal_replay-append :
      (file : Bytes) (entries : List JournalEntry) (e : JournalEntry)
      → journal_replay file ≡ some (replayed entries)
      → Fits e
      → entry_fault entries (length entries + 1) e ≡ none
      → journal_replay (file ++ (be_bytes32 (length (encode e)) ++ encode e))
        ≡ some (replayed (entries ++ (e ∷ [])))
  unfolding journal_replay
  journal_replay-append file entries e q w o =
      let frame = be_bytes32 (length (encode e)) ++ encode e in
      let four : length (be_bytes32 (length (encode e))) ≡ 4 = (unfold be_bytes32 in refl) in
      let fuel : length (file ++ frame) ≡ length file + suc 116 = omega (
        arith,
        length-append file frame,
        length-append (be_bytes32 (length (encode e))) (encode e),
        four,
        length-encode e w,
      ) in
      ap (λ k. replay_loop k [] (file ++ frame)) fuel
      ∙ replay_loop-longer (length file) 116 [] file frame entries q
          (λ f. replay_loop_last f entries e w o)

  pub next_journal-IsJournal :
      (j : Journal) (entries : List JournalEntry) (op id : ℕ) (payload : Bytes)
      → IsJournal j entries
      → j.next_seq < 2 ^ 64
      → id < 2 ^ 64
      → length payload ≡ 32
      → op_fault entries (length entries + 1) (new_entry j.next_seq op id j.tip payload) ≡ none
      → (append j op id payload ≡ some (next_journal j op id payload))
        × IsJournal
            (next_journal j op id payload)
            (entries ++ (new_entry j.next_seq op id j.tip payload ∷ []))
  unfolding append next_journal
  next_journal-IsJournal j entries op id payload w s i l o =
      let e = new_entry j.next_seq op id j.tip payload in
      let fits = new_entry-Fits j.next_seq op id j.tip payload s i w.digest l in
      let small : ltb (length (encode e)) (2 ^ 32) ≡ true =
        (let size = length-encode e fits in ground arith) in
      let passes = new_entry-passes entries j.next_seq op id j.tip payload w.numbered w.chained o in
      (
        rw small refl,
        record {
          replays = journal_replay-append j.file entries e w.replays fits passes;
          numbered = omega (arith, w.numbered, length-append entries (e ∷ []));
          chained = sym (tip_of-last entries e);
          digest = fits.hash;
        },
      )

  -- For a journal whose bytes replay to entries that its number and its tip continue, and an op that is in order
  -- after them, `append` writes an entry: the bytes then replay to the entries and the new one, and the number and
  -- the tip continue those. The number and the id fit 64 bits, and the payload has 32 bytes.
  pub append-IsJournal :
      (j : Journal) (entries : List JournalEntry) (op id : ℕ) (payload : Bytes)
      → IsJournal j entries
      → j.next_seq < 2 ^ 64
      → id < 2 ^ 64
      → length payload ≡ 32
      → op_fault entries (length entries + 1) (new_entry j.next_seq op id j.tip payload) ≡ none
      → (j' : Journal) × (append j op id payload ≡ some j')
        × IsJournal j' (entries ++ (new_entry j.next_seq op id j.tip payload ∷ []))
  append-IsJournal j entries op id payload w s i l o =
      let (runs, is) = next_journal-IsJournal j entries op id payload w s i l o in
      (next_journal j op id payload, runs, is)
