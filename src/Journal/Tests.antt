-- ===== src/Journal/Tests.antt =====
-- Examples for the journal of node/src/store/persist.rs: an id that is inserted and consumed, and a crash in the midst of that.
use ohm_ecdsa.Prelude.{◌≡◌, ◌⊎◌, refl, [], ◌∷◌, some, true, replicate, arith}
use ohm_ecdsa.Encoding.{Bytes, sha256, be_bytes}
use ohm_ecdsa.Gf7.Bytes.{gf7_hash}
use ohm_ecdsa.Journal.{
  JournalEntry, Journal, Replay, op_insert, op_consume, zero_hash, new_entry, entry_digest, encode,
  decode, tip_of, known, live, last_op, op_fault, journal_replay, append,
}
use ohm_ecdsa.Core.Map.{Map, get, contains_key}
use ohm_ecdsa.Journal.Reconcile.{
  DiskState, on_disk_live, on_disk_consumed, JournalState, live_state, consumed_state, settled,
  dropping, verdict, warning, unaccounted, check_journaled, reconcile_journal,
}
use ohm_ecdsa.Journal.Settled.{agrees, after_heals, reconcile_journal-agrees}
use ohm_ecdsa.Journal.Codec.{Fits, decode-encode}
use ohm_ecdsa.Journal.Append.{
  IsJournal, new_entry-Fits, next_journal, next_journal-IsJournal, append-IsJournal,
}
use ohm_ecdsa.Journal.Terminates.{journal_replay_terminates}
use ohm_ecdsa.Journal.History.{IsHistory, ops_of, journal_replay-IsHistory}
use ohm_ecdsa.Journal.Tamper.{Collision, journal_replay_one_tip}

abbrev artifact : Bytes
artifact = replicate 32 9

abbrev fresh : Journal
fresh = record { file = []; next_seq = 1; tip = zero_hash }

abbrev first : JournalEntry
first = new_entry 1 op_insert 7 zero_hash artifact

abbrev written : Journal
written = next_journal fresh op_insert 7 artifact

fresh-IsJournal : IsJournal fresh []
unfolding journal_replay tip_of
fresh-IsJournal = record { replays = refl; numbered = refl; chained = refl; digest = refl }

written-IsJournal : IsJournal written (first ∷ [])
unfolding known
written-IsJournal =
    (next_journal-IsJournal fresh [] op_insert 7 artifact fresh-IsJournal (omega arith)
      (omega arith) refl (unfold op_fault new_entry in refl)).1

append-IsJournal_example :
    (j' : Journal) × (append written op_consume 7 artifact ≡ some j')
    × IsJournal j' (first ∷ new_entry written.next_seq op_consume 7 written.tip artifact ∷ [])
unfolding op_fault new_entry live last_op next_journal
append-IsJournal_example =
    append-IsJournal written (first ∷ []) op_consume 7 artifact written-IsJournal (omega arith)
      (omega arith) refl refl

first-Fits : Fits first
first-Fits = new_entry-Fits 1 op_insert 7 zero_hash artifact (omega arith) (omega arith) refl refl

decode-encode_example : decode (encode first) ≡ some first
decode-encode_example = decode-encode first first-Fits

journal_replay-IsHistory_example : IsHistory (ops_of 7 (first ∷ []))
journal_replay-IsHistory_example =
    journal_replay-IsHistory written.file (first ∷ []) 7 written-IsJournal.replays

journal_replay_terminates_example : (r : Replay) × (journal_replay written.file ≡ some r)
journal_replay_terminates_example = journal_replay_terminates written.file

-- Another artifact with the digest that the first one has in this instance.
abbrev forged : Bytes
forged = 12 ∷ 8 ∷ replicate 30 9

abbrev other : JournalEntry
other = new_entry 1 op_insert 7 zero_hash forged

other_written-IsJournal : IsJournal (next_journal fresh op_insert 7 forged) (other ∷ [])
unfolding known
other_written-IsJournal =
    (next_journal-IsJournal fresh [] op_insert 7 forged fresh-IsJournal (omega arith) (omega arith)
      refl (unfold op_fault new_entry in refl)).1

journal_replay_one_tip_example : ((first ∷ []) ≡ (other ∷ [])) ⊎ Collision (first ∷ []) (other ∷ [])
unfolding tip_of new_entry entry_digest sha256 gf7_hash be_bytes
journal_replay_one_tip_example =
    journal_replay_one_tip written.file (next_journal fresh op_insert 7 forged).file (first ∷ [])
      (other ∷ []) written-IsJournal.replays other_written-IsJournal.replays (first-Fits, tt)
      (new_entry-Fits 1 op_insert 7 zero_hash forged (omega arith) (omega arith) refl refl, tt) refl
      refl

-- A crash in the midst of consuming 3: its tombstone is on disk, its journal entry is not.
abbrev journaled : Map JournalState
journaled = (3, live_state artifact) ∷ (7, consumed_state forged) ∷ []

abbrev disk : Map DiskState
disk = (3, on_disk_consumed artifact) ∷ (7, on_disk_consumed forged) ∷ (9, on_disk_live forged) ∷ []

heals_three :
    reconcile_journal journaled disk ≡ settled ((op_consume, 3, artifact) ∷ []) (dropping 9 ∷ [])
unfolding reconcile_journal check_journaled verdict unaccounted warning get contains_key
heals_three = refl

reconcile_journal-agrees_example :
    agrees
      (after_heals ((op_consume, 3, artifact) ∷ []) 3 (live_state artifact))
      (some (on_disk_consumed artifact))
    ≡ true
unfolding get
reconcile_journal-agrees_example =
    reconcile_journal-agrees journaled disk ((op_consume, 3, artifact) ∷ []) (dropping 9 ∷ []) 3
      (live_state artifact) ((omega arith, tt), (tt, tt)) heals_three refl
