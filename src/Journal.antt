-- ===== src/Journal.antt =====
-- The hash-chained journal of node/src/store/persist.rs: its entries and their encoding, the writer `append`,
-- and `journal_replay`, which reads a journal back and checks it. Writes to the file are taken to succeed. The
-- messages of a broken journal are the constructors of `Fault`. The loop of the replay runs on fuel; `none` is
-- no fuel left.

pub mod Codec
pub mod Turns
pub mod Append
pub mod Terminates
pub mod History
pub mod Tamper
pub mod Reconcile
pub mod Settled
mod Tests
use ohm_ecdsa.Prelude.{
  ℕ, zero, suc, ◌+◌, ◌/◌, ◌%◌, ◌^◌, List, [], ◌∷◌, ◌++◌, Option, none, some, Bool, true, false, not,
  ◌||◌, ◌==◌, if◌then◌else◌, ltb, length, drop, replicate,
}
use ohm_ecdsa.Prelude.Options.{◌>>=◌}
use ohm_ecdsa.Core.Tags.{ascii}
use ohm_ecdsa.Encoding.{Bytes, same_bytes, Hash, sha256, be_bytes}
use ohm_ecdsa.Wire.{get_to, get_from, first, from_be_bytes, put_u64, take_u64}

abbrev pub journal_tag : Bytes
journal_tag = ascii "OHM-ECDSA-node/v0.1/store-journal"

abbrev pub payload_tag : Bytes
payload_tag = ascii "OHM-ECDSA-node/v0.1/store-payload"

abbrev pub op_insert : ℕ
op_insert = 1

abbrev pub op_consume : ℕ
op_consume = 2

abbrev pub op_expire : ℕ
op_expire = 3

abbrev pub op_burn : ℕ
op_burn = 4

abbrev pub zero_hash : Bytes
zero_hash = replicate 32 0

pub record JournalEntry : Type 0 where
  pub seq : ℕ
  pub op : ℕ
  pub id : ℕ
  pub prev : Bytes
  pub payload : Bytes
  pub hash : Bytes

module _ ⦃h : Hash⦄ where
  unfoldable pub payload_digest : Bytes → Bytes
  payload_digest bytes = sha256 (payload_tag ++ bytes)

  unfoldable pub entry_digest : ℕ → ℕ → ℕ → Bytes → Bytes → Bytes
  entry_digest seq op id prev payload =
      sha256 (journal_tag ++ (be_bytes seq ++ ((op ∷ []) ++ (be_bytes id ++ (prev ++ payload)))))

  unfoldable pub new_entry : ℕ → ℕ → ℕ → Bytes → Bytes → JournalEntry
  new_entry seq op id prev payload = record {
    seq = seq;
    op = op;
    id = id;
    prev = prev;
    payload = payload;
    hash = entry_digest seq op id prev payload;
  }

unfoldable pub encode : JournalEntry → Bytes
encode e = put_u64 e.seq ++ (e.op ∷ put_u64 e.id ++ (e.prev ++ (e.payload ++ e.hash)))

-- `b.get(used..used + 32)?`
unfoldable pub take_hash : Bytes → ℕ → Option Bytes
take_hash b used = do rest ← get_from used b; get_to 32 rest

unfoldable pub decode : Bytes → Option JournalEntry
decode b = do
  (seq, used) ← take_u64 b
  at_op ← get_from used b
  op ← first at_op
  at_id ← get_from (used + 1) b
  (id, u) ← take_u64 at_id
  prev ← take_hash b (used + 1 + u)
  payload ← take_hash b (used + 1 + u + 32)
  hash ← take_hash b (used + 1 + u + 64)
  (if used + 1 + u + 96 == length b
      then some
          (record { seq = seq; op = op; id = id; prev = prev; payload = payload; hash = hash })
      else none)

-- Why a journal is refused, with the number of the entry.
pub data Fault : Type 0 where
  truncated_before : ℕ → Fault
  truncated_inside : ℕ → Fault
  not_canonical : ℕ → Fault
  out_of_order : ℕ → ℕ → Fault
  breaks_chain : ℕ → Fault
  wrong_hash : ℕ → Fault
  reinserts : ℕ → ℕ → Fault
  mutates_non_live : ℕ → ℕ → Fault
  reburns : ℕ → ℕ → Fault
  unknown_op : ℕ → ℕ → Fault

pub data Replay : Type 0 where
  replayed : List JournalEntry → Replay
  refused : Fault → Replay

-- `entries.last().map(|l| l.hash).unwrap_or(ZERO_HASH)`
unfoldable pub tip_of : List JournalEntry → Bytes
tip_of [] = zero_hash
tip_of (l ∷ []) = l.hash
tip_of (l ∷ k ∷ ls) = tip_of (k ∷ ls)

-- `entries.iter().any(|l| l.id == e.id)`
unfoldable pub known : ℕ → List JournalEntry → Bool
known id [] = false
known id (l ∷ ls) = (l.id == id) || known id ls

-- `entries.iter().rev().find(|l| l.id == e.id).map(|l| l.op)`
unfoldable pub last_op : ℕ → List JournalEntry → Option ℕ
last_op id [] = none
last_op id (l ∷ ls) = elim (last_op id ls) [
  | some op ↦ some op
  | none ↦ if l.id == id then some l.op else none
]

unfoldable pub live : ℕ → List JournalEntry → Bool
live id entries = elim (last_op id entries) [ none ↦ false | some op ↦ op == op_insert ]

-- `match e.op { … }`
unfoldable pub op_fault : List JournalEntry → ℕ → JournalEntry → Option Fault
op_fault entries n e =
    if e.op == op_insert
    then (if known e.id entries then some (reinserts n e.id) else none)
    else if (e.op == op_consume) || (e.op == op_expire)
    then (if live e.id entries then none else some (mutates_non_live n e.id))
    else if e.op == op_burn
    then (if known e.id entries then some (reburns n e.id) else none)
    else some (unknown_op n e.op)

module _ ⦃h : Hash⦄ where
  -- The checks of a decoded entry, in their order.
  unfoldable pub entry_fault : List JournalEntry → ℕ → JournalEntry → Option Fault
  entry_fault entries n e =
      if not (e.seq == n)
      then some (out_of_order e.seq n)
      else if not (same_bytes e.prev (tip_of entries))
      then some (breaks_chain n)
      else if not (same_bytes e.hash (entry_digest e.seq e.op e.id e.prev e.payload))
      then some (wrong_hash n)
      else op_fault entries n e

-- What one turn of the loop finds: an entry and the bytes it took, or a fault.
pub data Turn : Type 0 where
  accepted : JournalEntry → ℕ → Turn
  broken : Fault → Turn

unfoldable pub settle : Option Fault → JournalEntry → ℕ → Turn
settle none e used = accepted e used
settle (some f) e used = broken f

module _ ⦃h : Hash⦄ where
  unfoldable pub check_body : List JournalEntry → ℕ → ℕ → Option Bytes → Turn
  check_body entries n len none = broken (truncated_inside n)
  check_body entries n len (some body) = elim (decode body) [
    | none ↦ broken (not_canonical n)
    | some e ↦ settle (entry_fault entries n e) e (4 + len)
  ]

  unfoldable pub next_entry : List JournalEntry → Bytes → Turn
  next_entry entries rest =
      let n = length entries + 1 in
      elim (get_to 4 rest) [
        | none ↦ broken (truncated_before n)
        | some hdr ↦
            let len = from_be_bytes 0 hdr in
            check_body entries n len (do after ← get_from 4 rest; get_to len after)
      ]

  -- `while !rest.is_empty()`
  unfoldable pub replay_loop : ℕ → List JournalEntry → Bytes → Option Replay
  replay_loop fuel entries [] = some (replayed entries)
  replay_loop zero entries (b ∷ rest) = none
  replay_loop (suc fuel) entries (b ∷ rest) = elim (next_entry entries (b ∷ rest)) [
    | broken f ↦ some (refused f)
    | accepted e used ↦ replay_loop fuel (entries ++ (e ∷ [])) (drop used (b ∷ rest))
  ]

  -- An entry takes at least the four bytes of its length, so the bytes are fuel enough.
  unfoldable pub journal_replay : Bytes → Option Replay
  unfolding replay_loop
  journal_replay bytes = replay_loop (length bytes) [] bytes

pub record Journal : Type 0 where
  pub file : Bytes
  pub next_seq : ℕ
  pub tip : Bytes

-- `(len as u32).to_be_bytes()`
unfoldable pub be_bytes32 : ℕ → Bytes
be_bytes32 v = (v / 2 ^ 24 % 256) ∷ (v / 2 ^ 16 % 256) ∷ (v / 2 ^ 8 % 256) ∷ (v % 256) ∷ []

module _ ⦃h : Hash⦄ where
  -- `none` is an entry of 2^32 bytes or more.
  unfoldable pub append : Journal → ℕ → ℕ → Bytes → Option Journal
  append self op id payload =
      let e = new_entry self.next_seq op id self.tip payload in
      let body = encode e in
      if ltb (length body) (2 ^ 32)
      then some (record {
        file = self.file ++ (be_bytes32 (length body) ++ body);
        next_seq = self.next_seq + 1;
        tip = e.hash;
      })
      else none
