-- ===== src/Store/Single.antt =====
-- Single use of presignatures: in any history of a store, a record comes out at most as often as it went in.
use ohm_ecdsa.Prelude.{
  ℕ, ◌+◌, ◌≤◌, ◌≡◌, refl, List, [], ◌∷◌, Option, none, some, Bool, true, false, Bool-cases, inl,
  inr, if◌then◌else◌, ◌==◌, arith,
}
use ohm_ecdsa.Core.{Result, ok, err, panicked, presig_store}
use ohm_ecdsa.Core.Map.{
  get, contains_key, IsSorted, insert-IsSorted, remove-IsSorted, contains_key-insert,
  contains_key-remove, contains_key-get,
}
use ohm_ecdsa.Presign.{Presignature}
use ohm_ecdsa.Store.Presig.{PresigStore, insert_presig, consume, clear, contains}

-- The calls that change a store.
pub data Call (F G : Type 0) : Type 0 where
  insert_call : Presignature F G → Call F G
  consume_call : ℕ → Call F G
  clear_call : Call F G

-- What happened in a history, for one id: how often a record was stored under it, and came out under it.
pub record Tally : Type 0 where
  pub stored : ℕ
  pub consumed : ℕ

abbrev pub count_if {ℓ} : {A : Type ℓ} → Bool → Result A → ℕ
count_if b (ok a) = if b then 1 else 0
count_if b _ = 0

abbrev pub present : Bool → ℕ
present true = 1
present false = 0

count_if-false {ℓ} : {A : Type ℓ} (r : Result A) → count_if false r ≡ 0
count_if-false (ok a) = refl
count_if-false (err e) = refl
count_if-false panicked = refl

module _ {F G : Type 0} where
  -- A history from a store: the store at its end, and the tally for the id.
  unfoldable pub history : ℕ → PresigStore F G → List (Call F G) → PresigStore F G × Tally
  history id s [] = (s, record { stored = 0; consumed = 0 })
  history id s (insert_call p ∷ calls) =
      let (s', out) = insert_presig s p in
      let (end, t) = history id s' calls in
      (end, record t { stored = count_if (p.id == id) out + t.stored })
  history id s (consume_call j ∷ calls) =
      let (s', out) = consume s j in
      let (end, t) = history id s' calls in
      (end, record t { consumed = count_if (j == id) out + t.consumed })
  history id s (clear_call ∷ calls) = history id (clear s) calls

  insert_step :
      (id : ℕ) (s : PresigStore F G) (p : Presignature F G)
      → present (contains (insert_presig s p).0 id)
        ≡ count_if (p.id == id) (insert_presig s p).1 + present (contains s id)
  unfolding insert_presig contains
  insert_step id s p = elim (Bool-cases (contains_key p.id s.records)) [
    | inl e ↦ rw e (omega arith)
    | inr e ↦
        rw (e, contains_key-insert p.id id p s.records)
          (elim (Bool-cases (p.id == id)) [
            | inl q ↦
                let r : p.id ≡ id = ground arith in
                let v : contains_key id s.records ≡ false = cc in rw (q, v) (omega arith)
            | inr q ↦ rw q (omega arith)
          ])
  ]

  consume_step :
      (id j : ℕ) (s : PresigStore F G)
      → IsSorted s.records
      → present (contains (consume s j).0 id) + count_if (j == id) (consume s j).1
        ≡ present (contains s id)
  unfolding consume contains
  consume_step id j s sorted =
      rw (contains_key-remove j id s.records sorted) (elim (Bool-cases (j == id)) [
        | inl q ↦
            let r : j ≡ id = ground arith in
            rw (q, r, contains_key-get id s.records)
              (elim (get id s.records)
                as (λ (o : Option (Presignature F G)).
                  0
                    + count_if true (elim o [
                      | none ↦ err (presig_store "unknown or consumed presignature id")
                      | some p ↦ ok p
                    ])
                  ≡ present (elim o [ none ↦ false | some x ↦ true ])) [
                    | none ↦ omega arith
                    | some p ↦ omega arith
                  ])
        | inr q ↦ rw (q, count_if-false (consume s j).1) (omega arith)
      ])

  insert_presig-IsSorted :
      (s : PresigStore F G) (p : Presignature F G)
      → IsSorted s.records
      → IsSorted (insert_presig s p).0.records
  unfolding insert_presig
  insert_presig-IsSorted s p sorted = elim (Bool-cases (contains_key p.id s.records)) [
    | inl e ↦ rw e sorted
    | inr e ↦ rw e (insert-IsSorted p.id p s.records sorted)
  ]

  -- In any history of a store, the consumptions of an id are at most the insertions that succeeded, and
  -- one more if the store held the id; a record that is still there at the end counts too.
  pub single_use :
      (id : ℕ) (s : PresigStore F G) (calls : List (Call F G))
      → IsSorted s.records
      → present (contains (history id s calls).0 id) + (history id s calls).1.consumed
        ≤ present (contains s id) + (history id s calls).1.stored
  unfolding history
  single_use id s [] sorted = omega arith
  single_use id s (insert_call p ∷ calls) sorted = omega (
    arith,
    insert_step id s p,
    single_use id (insert_presig s p).0 calls (insert_presig-IsSorted s p sorted),
  )
  single_use id s (consume_call j ∷ calls) sorted = omega (
    arith,
    consume_step id j s sorted,
    single_use id (consume s j).0 calls (unfold consume in remove-IsSorted j s.records sorted),
  )
  single_use id s (clear_call ∷ calls) sorted =
      omega (arith, cleared, single_use id (clear s) calls (unfold clear in tt))
    where
      cleared : present (contains (clear s) id) ≡ 0
      cleared = unfold clear contains contains_key in refl
