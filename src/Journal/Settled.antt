-- ===== src/Journal/Settled.antt =====
-- After the heals of `reconcile_journal` of node/src/store/persist.rs the journal agrees with the directory.
use ohm_ecdsa.Prelude.{
  ℕ, ◌≡◌, refl, sym, ap, ◌∙◌, List, [], ◌∷◌, ◌++◌, Option, none, some, subst, Bool, Bool-cases,
  true, false, inl, inr, ◌==◌, if◌then◌else◌, arith,
}
use mathlib.Core.List.{append_assoc, append-nil}
use ohm_ecdsa.Encoding.{Bytes, same_bytes, same_bytes_iff, Hash}
use ohm_ecdsa.Core.Map.{Map, get, IsSorted, get-none}
use ohm_ecdsa.Journal.{op_consume, op_expire, payload_digest}
use ohm_ecdsa.Journal.Reconcile.{
  DiskState, on_disk_live, on_disk_consumed, on_disk_expired, JournalState, live_state,
  consumed_state, expired_state, HealOp, Warning, settled, diverged, Divergence, Verdict, heals,
  diverges, verdict, Checked, checked, failed, check_journaled, unaccounted, reconcile_journal,
}

-- The state that a heal leaves.
unfoldable pub healed : ℕ → Bytes → JournalState
healed op payload = if op == op_consume then consumed_state payload else expired_state

-- The state of an id after the heals are appended.
unfoldable pub after_heals : List HealOp → ℕ → JournalState → JournalState
after_heals [] id js = js
after_heals ((op, i, payload) ∷ ops) id js =
    after_heals ops id (if i == id then healed op payload else js)

-- The directory holds what the journal says, with the same digest.
unfoldable pub agrees : JournalState → Option DiskState → Bool
agrees (live_state ph) (some (on_disk_live dh)) = same_bytes ph dh
agrees (consumed_state ph) (some (on_disk_consumed dh)) = same_bytes ph dh
agrees expired_state (some on_disk_expired) = true
agrees _ _ = false

after_heals-append :
    (a b : List HealOp) (id : ℕ) (js : JournalState)
    → after_heals (a ++ b) id js ≡ after_heals b id (after_heals a id js)
unfolding after_heals
after_heals-append [] b id js = refl
after_heals-append ((op, i, p) ∷ a) b id js =
    after_heals-append a b id (if i == id then healed op p else js)

same_bytes_self : (b : Bytes) → same_bytes b b ≡ true
same_bytes_self b = (same_bytes_iff b b).1 refl

guarded :
    (b : Bool) {ops more : List HealOp} (d : Divergence)
    → (if b then heals ops else diverges d) ≡ heals more
    → (b ≡ true) × (ops ≡ more)
guarded true d q = (refl, cc q)
guarded false d q = cc q

module _ ⦃h : Hash⦄ where
  -- What `verdict` heals is the id that it was asked for, and brings it to what the directory has.
  verdict-agrees :
      (id : ℕ) (js : JournalState) (found : Option DiskState) {more : List HealOp}
      → verdict id js found ≡ heals more
      → agrees (after_heals more id js) found ≡ true
  unfolding verdict agrees after_heals healed
  verdict-agrees id (live_state ph) (some (on_disk_live dh)) q =
      let (t, e) = guarded (same_bytes ph dh) _ q in
      subst (λ m. agrees (after_heals m id (live_state ph)) (some (on_disk_live dh)) ≡ true) e t
  verdict-agrees id (live_state ph) (some (on_disk_consumed dh)) q =
      let (t, e) = guarded (same_bytes ph dh) _ q in
      let self : (id == id) ≡ true = ground arith in
      subst (λ m. agrees (after_heals m id (live_state ph)) (some (on_disk_consumed dh)) ≡ true) e
        (rw self (same_bytes_self dh))
  verdict-agrees id (live_state ph) (some on_disk_expired) {more} q =
      let e : ((op_expire, id, payload_digest []) ∷ []) ≡ more = cc q in
      let self : (id == id) ≡ true = ground arith in
      subst (λ m. agrees (after_heals m id (live_state ph)) (some on_disk_expired) ≡ true) e
        (rw self refl)
  verdict-agrees id (live_state ph) none q = cc q
  verdict-agrees id (consumed_state ph) (some (on_disk_live dh)) q = cc q
  verdict-agrees id (consumed_state ph) (some (on_disk_consumed dh)) q =
      let (t, e) = guarded (same_bytes ph dh) _ q in
      subst (λ m. agrees (after_heals m id (consumed_state ph)) (some (on_disk_consumed dh)) ≡ true)
        e t
  verdict-agrees id (consumed_state ph) (some on_disk_expired) q = cc q
  verdict-agrees id (consumed_state ph) none q = cc q
  verdict-agrees id expired_state (some (on_disk_live dh)) q = cc q
  verdict-agrees id expired_state (some (on_disk_consumed dh)) q = cc q
  verdict-agrees id expired_state (some on_disk_expired) {more} q =
      let e : [] ≡ more = cc q in
      subst (λ m. agrees (after_heals m id expired_state) (some on_disk_expired) ≡ true) e refl
  verdict-agrees id expired_state none q = cc q

  -- The heals of one id leave the others.
  verdict-others :
      (k id : ℕ) (js js' : JournalState) (found : Option DiskState) {more : List HealOp}
      → (k == id) ≡ false
      → verdict k js found ≡ heals more
      → after_heals more id js' ≡ js'
  unfolding verdict after_heals
  verdict-others k id (live_state ph) js' (some (on_disk_live dh)) n q =
      subst (λ m. after_heals m id js' ≡ js') (guarded (same_bytes ph dh) _ q).1 refl
  verdict-others k id (live_state ph) js' (some (on_disk_consumed dh)) n q =
      subst (λ m. after_heals m id js' ≡ js') (guarded (same_bytes ph dh) _ q).1 (rw n refl)
  verdict-others k id (live_state ph) js' (some on_disk_expired) {more} n q =
      let e : ((op_expire, k, payload_digest []) ∷ []) ≡ more = cc q in
      subst (λ m. after_heals m id js' ≡ js') e (rw n refl)
  verdict-others k id (live_state ph) js' none n q = cc q
  verdict-others k id (consumed_state ph) js' (some (on_disk_live dh)) n q = cc q
  verdict-others k id (consumed_state ph) js' (some (on_disk_consumed dh)) n q =
      subst (λ m. after_heals m id js' ≡ js') (guarded (same_bytes ph dh) _ q).1 refl
  verdict-others k id (consumed_state ph) js' (some on_disk_expired) n q = cc q
  verdict-others k id (consumed_state ph) js' none n q = cc q
  verdict-others k id expired_state js' (some (on_disk_live dh)) n q = cc q
  verdict-others k id expired_state js' (some (on_disk_consumed dh)) n q = cc q
  verdict-others k id expired_state js' (some on_disk_expired) {more} n q =
      let e : [] ≡ more = cc q in subst (λ m. after_heals m id js' ≡ js') e refl
  verdict-others k id expired_state js' none n q = cc q

  -- Heals that bring each id of the journal to what the directory has, and leave the other ids.
  record Brings (disk : Map DiskState) (journaled : Map JournalState) (ops : List HealOp)
      : Type 0 where
    known :
        (id : ℕ) (js : JournalState)
        → get id journaled ≡ some js
        → agrees (after_heals ops id js) (get id disk) ≡ true
    other : (id : ℕ) (js : JournalState) → get id journaled ≡ none → after_heals ops id js ≡ js

  Brings-cons :
      (disk : Map DiskState) (k : ℕ) (js0 : JournalState) (journaled : Map JournalState)
      {more tail : List HealOp}
      → IsSorted ((k, js0) ∷ journaled)
      → verdict k js0 (get k disk) ≡ heals more
      → Brings disk journaled tail
      → Brings disk ((k, js0) ∷ journaled) (more ++ tail)
  unfolding get
  Brings-cons disk k js0 journaled {more} {tail} (below, s) v w = record {
    known = λ id js p. elim (Bool-cases (k == id)) [
      | inl t ↦
          let same : k ≡ id = ground arith in
          let first : js0 ≡ js = cc (rw t at p) in
          subst (λ i. agrees (after_heals (more ++ tail) i js) (get i disk) ≡ true) same
            (subst (λ j. agrees (after_heals (more ++ tail) k j) (get k disk) ≡ true) first
              (ap (λ j. agrees j (get k disk))
                  (after_heals-append more tail k js0 ∙ w.other k _ (get-none k journaled below))
                ∙ verdict-agrees k js0 (get k disk) v))
      | inr t ↦
          ap (λ j. agrees j (get id disk))
            (after_heals-append more tail id js
              ∙ ap (after_heals tail id) (verdict-others k id js0 js (get k disk) t v))
          ∙ w.known id js (rw t at p)
    ];
    other = λ id js p. elim (Bool-cases (k == id)) [
      | inl t ↦ cc (rw t at p)
      | inr t ↦
          after_heals-append more tail id js
          ∙ (ap (after_heals tail id) (verdict-others k id js0 js (get k disk) t v)
              ∙ w.other id js (rw t at p))
    ];
  }

  check_journaled-Brings :
      (disk : Map DiskState) (ops : List HealOp) (journaled : Map JournalState) {all : List HealOp}
      → IsSorted journaled
      → check_journaled disk ops journaled ≡ checked all
      → (tail : List HealOp) × (all ≡ ops ++ tail) × Brings disk journaled tail
  unfolding check_journaled get after_heals
  check_journaled-Brings disk ops [] {all} s q =
      let e : ops ≡ all = cc q in
      (
        [],
        sym e ∙ sym (append-nil ops),
        record { known = λ id js p. cc p; other = λ id js p. refl },
      )
  check_journaled-Brings disk ops ((k, js0) ∷ journaled) {all} s q =
      by_verdict (λ more q'. check_journaled-Brings disk (ops ++ more) journaled s.1 q')
        (verdict k js0 (get k disk)) refl q
    where
      by_verdict :
          (rec : (more : List HealOp)
            → check_journaled disk (ops ++ more) journaled ≡ checked all
            → (tail : List HealOp) × (all ≡ (ops ++ more) ++ tail) × Brings disk journaled tail)
          (v : Verdict)
          → verdict k js0 (get k disk) ≡ v
          → (elim v [
            | heals more ↦ check_journaled disk (ops ++ more) journaled
            | diverges d ↦ failed d
          ])
            ≡ checked all
          → (tail : List HealOp) × (all ≡ ops ++ tail) × Brings disk ((k, js0) ∷ journaled) tail
      by_verdict rec (heals more) p q =
          let (tail, e, w) = rec more q in
          (more ++ tail, e ∙ append_assoc ops more tail, Brings-cons disk k js0 journaled s p w)
      by_verdict rec (diverges d) p q = cc q

  -- When the directory is accepted, then after the heals that are returned each id of the journal is on disk in the
  -- state, and with the digest, that the journal gives it. The ids of the journal are in their order, each once.
  pub reconcile_journal-agrees :
      (journaled : Map JournalState) (disk : Map DiskState) (ops : List HealOp)
      (warnings : List Warning) (id : ℕ) (js : JournalState)
      → IsSorted journaled
      → reconcile_journal journaled disk ≡ settled ops warnings
      → get id journaled ≡ some js
      → agrees (after_heals ops id js) (get id disk) ≡ true
  unfolding reconcile_journal
  reconcile_journal-agrees journaled disk ops warnings id js s q p =
      by_checked (check_journaled disk [] journaled) refl q
    where
      by_checked :
          (c : Checked)
          → check_journaled disk [] journaled ≡ c
          → (elim c [
            | checked ops ↦ settled ops (unaccounted journaled disk)
            | failed d ↦ diverged d
          ])
            ≡ settled ops warnings
          → agrees (after_heals ops id js) (get id disk) ≡ true
      by_checked (checked all) e q =
          let (tail, r, w) = check_journaled-Brings disk [] journaled s e in
          let same : tail ≡ ops = sym r ∙ cc q in
          subst (λ o. agrees (after_heals o id js) (get id disk) ≡ true) same (w.known id js p)
      by_checked (failed d) e q = cc q
