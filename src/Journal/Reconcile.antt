-- ===== src/Journal/Reconcile.antt =====
-- `reconcile_journal` of node/src/store/persist.rs: the last state of each id in the journal against what the store
-- directory holds. The messages are the constructors of `Divergence` and `Warning`.
use ohm_ecdsa.Prelude.{ℕ, List, [], ◌∷◌, ◌++◌, Option, none, some, ◌==◌, if◌then◌else◌}
use ohm_ecdsa.Encoding.{Bytes, same_bytes, Hash}
use ohm_ecdsa.Core.Map.{Map, get, insert, contains_key}
use ohm_ecdsa.Journal.{JournalEntry, op_insert, op_consume, op_expire, payload_digest}

pub data DiskState : Type 0 where
  on_disk_live : Bytes → DiskState
  on_disk_consumed : Bytes → DiskState
  on_disk_expired : DiskState

pub data JournalState : Type 0 where
  live_state : Bytes → JournalState
  consumed_state : Bytes → JournalState
  expired_state : JournalState

-- `(op, id, payload)`
abbrev pub HealOp : Type 0
HealOp = ℕ × ℕ × Bytes

-- Why the directory is refused, with what it holds.
pub data Divergence : Type 0 where
  record_missing : ℕ → Option DiskState → Divergence
  tombstone_missing : ℕ → Option DiskState → Divergence
  expiry_missing : ℕ → Option DiskState → Divergence

pub data Warning : Type 0 where
  dropping : ℕ → Warning
  honoring_consumed : ℕ → Warning
  honoring_expired : ℕ → Warning

pub data Reconciled : Type 0 where
  settled : List HealOp → List Warning → Reconciled
  diverged : Divergence → Reconciled

-- `match e.op { … }` of the state that an entry leaves.
unfoldable pub state_after : JournalEntry → JournalState
state_after e =
    if e.op == op_insert
    then live_state e.payload
    else if e.op == op_consume
    then consumed_state e.payload
    else expired_state

-- The last state of each id.
unfoldable pub journaled_from : Map JournalState → List JournalEntry → Map JournalState
journaled_from journaled [] = journaled
journaled_from journaled (e ∷ es) = journaled_from (insert e.id (state_after e) journaled) es

-- What one id in the journal needs: heals to append, or it diverges.
pub data Verdict : Type 0 where
  heals : List HealOp → Verdict
  diverges : Divergence → Verdict

module _ ⦃h : Hash⦄ where
  unfoldable pub verdict : ℕ → JournalState → Option DiskState → Verdict
  verdict id (live_state ph) (some (on_disk_live dh)) =
      if same_bytes ph dh then heals [] else diverges (record_missing id (some (on_disk_live dh)))
  verdict id (live_state ph) (some (on_disk_consumed dh)) =
      if same_bytes ph dh
      then heals ((op_consume, id, dh) ∷ [])
      else diverges (record_missing id (some (on_disk_consumed dh)))
  verdict id (live_state ph) (some on_disk_expired) =
      heals ((op_expire, id, payload_digest []) ∷ [])
  verdict id (live_state ph) none = diverges (record_missing id none)
  verdict id (consumed_state ph) (some (on_disk_consumed dh)) =
      if same_bytes ph dh
      then heals []
      else diverges (tombstone_missing id (some (on_disk_consumed dh)))
  verdict id (consumed_state ph) (some (on_disk_live dh)) =
      diverges (tombstone_missing id (some (on_disk_live dh)))
  verdict id (consumed_state ph) (some on_disk_expired) =
      diverges (tombstone_missing id (some on_disk_expired))
  verdict id (consumed_state ph) none = diverges (tombstone_missing id none)
  verdict id expired_state (some on_disk_expired) = heals []
  verdict id expired_state (some (on_disk_live dh)) =
      diverges (expiry_missing id (some (on_disk_live dh)))
  verdict id expired_state (some (on_disk_consumed dh)) =
      diverges (expiry_missing id (some (on_disk_consumed dh)))
  verdict id expired_state none = diverges (expiry_missing id none)

unfoldable pub warning : ℕ → DiskState → Warning
warning id (on_disk_live dh) = dropping id
warning id (on_disk_consumed dh) = honoring_consumed id
warning id on_disk_expired = honoring_expired id

-- The ids of the directory that the journal does not have.
unfoldable pub unaccounted : Map JournalState → Map DiskState → List Warning
unaccounted journaled [] = []
unaccounted journaled ((id, ds) ∷ disk) =
    if contains_key id journaled
    then unaccounted journaled disk
    else warning id ds ∷ unaccounted journaled disk

-- The loop over the ids of the journal, with the heals so far.
pub data Checked : Type 0 where
  checked : List HealOp → Checked
  failed : Divergence → Checked

module _ ⦃h : Hash⦄ where
  unfoldable pub check_journaled : Map DiskState → List HealOp → Map JournalState → Checked
  check_journaled disk ops [] = checked ops
  check_journaled disk ops ((id, js) ∷ journaled) = elim (verdict id js (get id disk)) [
    | heals more ↦ check_journaled disk (ops ++ more) journaled
    | diverges d ↦ failed d
  ]

  unfoldable pub reconcile_journal : Map JournalState → Map DiskState → Reconciled
  reconcile_journal journaled disk = elim (check_journaled disk [] journaled) [
    | checked ops ↦ settled ops (unaccounted journaled disk)
    | failed d ↦ diverged d
  ]
