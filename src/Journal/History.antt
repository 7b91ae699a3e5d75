-- ===== src/Journal/History.antt =====
-- What `journal_replay` of node/src/store/persist.rs has checked of the entries it returns: each id has the
-- history of one presignature.
use ohm_ecdsa.Prelude.{
  ℕ, zero, suc, ◌+◌, ◌≡◌, ◌⊎◌, refl, sym, ap, subst, ◌∙◌, List, [], ◌∷◌, ◌++◌, Option, some, none,
  true, false, Bool, Bool-cases, inl, inr, ◌==◌, if◌then◌else◌, length, drop, arith,
}
use mathlib.Core.List.{append-nil}
use ohm_ecdsa.Encoding.{Bytes, Hash}
use ohm_ecdsa.Journal.{
  JournalEntry, replayed, refused, Turn, accepted, broken, op_insert, op_consume, op_expire,
  op_burn, known, last_op, live, op_fault, entry_fault, next_entry, replay_loop, journal_replay,
}
use ohm_ecdsa.Journal.Turns.{next_entry_passes}

-- The ops of the entries with this id, in their order.
unfoldable pub ops_of : ℕ → List JournalEntry → List ℕ
ops_of id [] = []
ops_of id (l ∷ ls) = if l.id == id then l.op ∷ ops_of id ls else ops_of id ls

-- The histories of an id.
pub data IsHistory : List ℕ → Type 0 where
  unused : IsHistory []
  inserted : IsHistory (op_insert ∷ [])
  consumed : IsHistory (op_insert ∷ op_consume ∷ [])
  expired : IsHistory (op_insert ∷ op_expire ∷ [])
  burned : IsHistory (op_burn ∷ [])

ops_of-append : (id : ℕ) (a b : List JournalEntry) → ops_of id (a ++ b) ≡ ops_of id a ++ ops_of id b
unfolding ops_of
ops_of-append id [] b = refl
ops_of-append id (l ∷ a) b = elim (Bool-cases (l.id == id)) [
  | inl h ↦ rw (h, ops_of-append id a b) refl
  | inr h ↦ rw (h, ops_of-append id a b) refl
]

unfoldable pub last_of : List ℕ → Option ℕ
last_of [] = none
last_of (x ∷ xs) = elim (last_of xs) [ some o ↦ some o | none ↦ some x ]

known-ops_of :
    (id : ℕ) (entries : List JournalEntry) → known id entries ≡ false → ops_of id entries ≡ []
unfolding known ops_of
known-ops_of id [] h = refl
known-ops_of id (l ∷ ls) h = elim (Bool-cases (l.id == id)) [
  | inl t ↦ cc (rw t at h)
  | inr t ↦ rw t (known-ops_of id ls (rw t at h))
]

last_op-ops_of :
    (id : ℕ) (entries : List JournalEntry) → last_op id entries ≡ last_of (ops_of id entries)
unfolding last_op last_of ops_of
last_op-ops_of id [] = refl
last_op-ops_of id (l ∷ ls) = last_cons (l.id == id) l.op (ops_of id ls) (last_op-ops_of id ls)
  where
    keep : (o : Option ℕ) → (elim o [ none ↦ none | some op ↦ some op ]) ≡ o
    keep none = refl
    keep (some op) = refl

    last_cons :
        (b : Bool) (x : ℕ) {o : Option ℕ} (xs : List ℕ)
        → o ≡ last_of xs
        → (elim o [ none ↦ if b then some x else none | some op ↦ some op ])
          ≡ last_of (if b then x ∷ xs else xs)
    last_cons true x xs q = ap (λ (o : Option ℕ). elim o [ none ↦ some x | some op ↦ some op ]) q
    last_cons false x {o} xs q = keep o ∙ q

live_last :
    (id : ℕ) (entries : List JournalEntry)
    → live id entries ≡ true
    → last_of (ops_of id entries) ≡ some op_insert
unfolding live
live_last id entries q = sym (last_op-ops_of id entries) ∙ by_last (last_op id entries) q
  where
    by_last :
        (o : Option ℕ)
        → (elim o [ none ↦ false | some op ↦ op == op_insert ]) ≡ true
        → o ≡ some op_insert
    by_last none q = cc q
    by_last (some op) q = ap some (ground arith)

-- An op that is in order after these entries extends the history of its id.
spend :
    (ops : List ℕ) (op : ℕ)
    → IsHistory ops
    → last_of ops ≡ some op_insert
    → (op ≡ op_consume) ⊎ (op ≡ op_expire)
    → IsHistory (ops ++ (op ∷ []))
unfolding last_of
spend _ op unused q s = cc q
spend _ op inserted q (inl s) = subst (λ o. IsHistory (op_insert ∷ o ∷ [])) (sym s) consumed
spend _ op inserted q (inr s) = subst (λ o. IsHistory (op_insert ∷ o ∷ [])) (sym s) expired
spend _ op consumed q s = cc q
spend _ op expired q s = cc q
spend _ op burned q s = cc q

op_in_order :
    (entries : List JournalEntry) (n : ℕ) (e : JournalEntry)
    → op_fault entries n e ≡ none
    → (((e.op ≡ op_insert) ⊎ (e.op ≡ op_burn)) × (known e.id entries ≡ false))
      ⊎ (((e.op ≡ op_consume) ⊎ (e.op ≡ op_expire)) × (live e.id entries ≡ true))
unfolding op_fault
op_in_order entries n e q = ground arith

op_fault-IsHistory :
    (entries : List JournalEntry) (n : ℕ) (e : JournalEntry)
    → IsHistory (ops_of e.id entries)
    → op_fault entries n e ≡ none
    → IsHistory (ops_of e.id entries ++ (e.op ∷ []))
op_fault-IsHistory entries n e w q = by_case (op_in_order entries n e q)
  where
    by_case :
        (((e.op ≡ op_insert) ⊎ (e.op ≡ op_burn)) × (known e.id entries ≡ false))
          ⊎ (((e.op ≡ op_consume) ⊎ (e.op ≡ op_expire)) × (live e.id entries ≡ true))
        → IsHistory (ops_of e.id entries ++ (e.op ∷ []))
    by_case (inl (inl i, k)) = rw (known-ops_of e.id entries k, i) inserted
    by_case (inl (inr i, k)) = rw (known-ops_of e.id entries k, i) burned
    by_case (inr (i, k)) = spend (ops_of e.id entries) e.op w (live_last e.id entries k) i

module _ ⦃h : Hash⦄ where
  -- Each entry passed the checks after the entries before it.
  pub data IsChain : List JournalEntry → Type 0 where
    start : IsChain []
    next :
        (before : List JournalEntry) (e : JournalEntry)
        → IsChain before
        → entry_fault before (length before + 1) e ≡ none
        → IsChain (before ++ (e ∷ []))

  entry_fault_op :
      (entries : List JournalEntry) (n : ℕ) (e : JournalEntry)
      → entry_fault entries n e ≡ none
      → op_fault entries n e ≡ none
  unfolding entry_fault
  entry_fault_op entries n e q = ground arith

  pub replay_loop-IsChain :
      (fuel : ℕ) (acc : List JournalEntry) (a : Bytes) (entries : List JournalEntry)
      → IsChain acc
      → replay_loop fuel acc a ≡ some (replayed entries)
      → IsChain entries
  unfolding replay_loop
  replay_loop-IsChain fuel acc [] entries c q =
      let same : acc ≡ entries = cc q in subst IsChain same c
  replay_loop-IsChain zero acc (x ∷ xs) entries c q = cc q
  replay_loop-IsChain (suc fuel) acc (x ∷ xs) entries c q =
      by_turn (λ acc' a' c' q'. replay_loop-IsChain fuel acc' a' entries c' q')
        (next_entry acc (x ∷ xs)) refl q
    where
      by_turn :
          (rec : (acc' : List JournalEntry) (a' : Bytes)
            → IsChain acc'
            → replay_loop fuel acc' a' ≡ some (replayed entries)
            → IsChain entries)
          (turn : Turn)
          → next_entry acc (x ∷ xs) ≡ turn
          → (elim turn [
            | broken f ↦ some (refused f)
            | accepted e used ↦ replay_loop fuel (acc ++ (e ∷ [])) (drop used (x ∷ xs))
          ])
            ≡ some (replayed entries)
          → IsChain entries
      by_turn rec (broken f) p q = cc q
      by_turn rec (accepted e used) p q =
          rec (acc ++ (e ∷ [])) (drop used (x ∷ xs))
            (next acc e c (next_entry_passes acc (x ∷ xs) e used p)) q

  IsChain-IsHistory :
      (entries : List JournalEntry) → IsChain entries → (id : ℕ) → IsHistory (ops_of id entries)
  unfolding ops_of
  IsChain-IsHistory _ start id = unused
  IsChain-IsHistory _ (next before e c p) id =
      subst IsHistory (sym (ops_of-append id before (e ∷ [])))
        (by_id (IsChain-IsHistory before c) (e.id == id) refl)
    where
      by_id :
          (w : (k : ℕ) → IsHistory (ops_of k before)) (b : Bool)
          → (e.id == id) ≡ b
          → IsHistory (ops_of id before ++ (if b then e.op ∷ [] else []))
      by_id w false q = subst IsHistory (sym (append-nil (ops_of id before))) (w id)
      by_id w true q =
          let same : e.id ≡ id = ground arith in
          subst (λ k. IsHistory (ops_of k before ++ (e.op ∷ []))) same
            (op_fault-IsHistory before (length before + 1) e (w e.id)
              (entry_fault_op before (length before + 1) e p))

  pub journal_replay-IsChain :
      (bytes : Bytes) (entries : List JournalEntry)
      → journal_replay bytes ≡ some (replayed entries)
      → IsChain entries
  unfolding journal_replay
  journal_replay-IsChain bytes entries q =
      replay_loop-IsChain (length bytes) [] bytes entries start q

  -- Each id in a journal that `journal_replay` accepts is unused, or inserted, or inserted and then consumed or
  -- expired once, or burned, and nothing else.
  pub journal_replay-IsHistory :
      (bytes : Bytes) (entries : List JournalEntry) (id : ℕ)
      → journal_replay bytes ≡ some (replayed entries)
      → IsHistory (ops_of id entries)
  journal_replay-IsHistory bytes entries id q =
      IsChain-IsHistory entries (journal_replay-IsChain bytes entries q) id
