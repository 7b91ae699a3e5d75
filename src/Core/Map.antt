-- ===== src/Core/Map.antt =====
-- `BTreeMap<u64, V>`: an association list in the order of its keys.
use ohm_ecdsa.Prelude.{
  ℕ, ◌<◌, ◌≡◌, ◌≢◌, refl, subst, List, [], ◌∷◌, Option, none, some, Bool, true, false, ltb, ◌==◌,
  if◌then◌else◌, map, All, Distinct, arith, Bool-cases, inl, inr,
}

abbrev pub Map {ℓ} : Type ℓ → Type ℓ
Map V = List (ℕ × V)

abbrev pub keys {ℓ} : {V : Type ℓ} → Map V → List ℕ
keys m = map (λ e. e.0) m

All-lt_trans : (i k : ℕ) (js : List ℕ) → i < k → All (λ j. k < j) js → All (λ j. i < j) js
All-lt_trans i k [] h a = tt
All-lt_trans i k (j ∷ js) h (b, a) = (omega arith, All-lt_trans i k js h a)

module _ {ℓ} {V : Type ℓ} where
  unfoldable pub get : ℕ → Map V → Option V
  get k [] = none
  get k ((j, v) ∷ m) = if j == k then some v else get k m

  unfoldable pub contains_key : ℕ → Map V → Bool
  contains_key k [] = false
  contains_key k ((j, v) ∷ m) = if j == k then true else contains_key k m

  unfoldable pub insert : ℕ → V → Map V → Map V
  insert k v [] = (k, v) ∷ []
  insert k v ((j, w) ∷ m) =
      if k == j then (k, v) ∷ m else if ltb k j then (k, v) ∷ (j, w) ∷ m else (j, w) ∷ insert k v m

  unfoldable pub remove : ℕ → Map V → Map V
  remove k [] = []
  remove k ((j, v) ∷ m) = if j == k then m else (j, v) ∷ remove k m

  -- `iter.collect()` into a map: the last value of a key stays.
  unfoldable pub collect_into : Map V → List (ℕ × V) → Map V
  collect_into m [] = m
  collect_into m ((k, v) ∷ es) = collect_into (insert k v m) es

  abbrev pub IsSorted : Map V → Type 0
  IsSorted [] = Unit
  IsSorted ((k, v) ∷ m) = All (λ j. k < j) (keys m) × IsSorted m

  pub get-insert :
      (k j : ℕ) (v : V) (m : Map V) → get j (insert k v m) ≡ (if k == j then some v else get j m)
  unfolding get insert
  get-insert k j v [] = refl
  get-insert k j v ((i, w) ∷ m) = ground (arith, get-insert k j v m)

  All-keys-insert :
      (i k : ℕ) (v : V) (m : Map V)
      → i < k
      → All (λ j. i < j) (keys m)
      → All (λ j. i < j) (keys (insert k v m))
  unfolding insert
  All-keys-insert i k v [] h a = (h, tt)
  All-keys-insert i k v ((j, w) ∷ m) h (b, a) = elim (Bool-cases (k == j)) [
    | inl e ↦ rw e (h, a)
    | inr e ↦ elim (Bool-cases (ltb k j)) [
      | inl l ↦ rw (e, l) (h, (b, a))
      | inr l ↦ rw (e, l) (b, All-keys-insert i k v m h a)
    ]
  ]

  pub insert-IsSorted : (k : ℕ) (v : V) (m : Map V) → IsSorted m → IsSorted (insert k v m)
  unfolding insert
  insert-IsSorted k v [] s = (tt, tt)
  insert-IsSorted k v ((j, w) ∷ m) (a, s) = elim (Bool-cases (k == j)) [
    | inl e ↦ let q : k ≡ j = ground arith in rw (e, q) (a, s)
    | inr e ↦ elim (Bool-cases (ltb k j)) [
      | inl l ↦ rw (e, l) ((ground arith, All-lt_trans k j (keys m) (ground arith) a), (a, s))
      | inr l ↦ rw (e, l) (All-keys-insert j k v m (ground arith) a, insert-IsSorted k v m s)
    ]
  ]

  pub get-none : (k : ℕ) (m : Map V) → All (λ j. k < j) (keys m) → get k m ≡ none
  unfolding get
  get-none k [] a = refl
  get-none k ((j, v) ∷ m) (b, a) = ground (arith, get-none k m a)

  pub get-remove :
      (k j : ℕ) (m : Map V) → IsSorted m → get j (remove k m) ≡ (if k == j then none else get j m)
  unfolding get remove
  get-remove k j [] s = ground arith
  get-remove k j ((i, w) ∷ m) (a, s) = elim (Bool-cases (i == k)) [
    | inl e ↦ elim (Bool-cases (k == j)) [
      | inl f ↦
          let q : i ≡ j = ground arith in
          rw (e, f) (get-none j m (subst (λ x. All (λ y. x < y) (keys m)) q a))
      | inr f ↦ rw (e, f) (ground arith)
    ]
    | inr e ↦ rw e (ground (arith, get-remove k j m s))
  ]

  All-keys-remove :
      (i k : ℕ) (m : Map V) → All (λ j. i < j) (keys m) → All (λ j. i < j) (keys (remove k m))
  unfolding remove
  All-keys-remove i k [] a = tt
  All-keys-remove i k ((j, w) ∷ m) (b, a) = elim (Bool-cases (j == k)) [
    | inl e ↦ rw e a
    | inr e ↦ rw e (b, All-keys-remove i k m a)
  ]

  pub remove-IsSorted : (k : ℕ) (m : Map V) → IsSorted m → IsSorted (remove k m)
  unfolding remove
  remove-IsSorted k [] s = tt
  remove-IsSorted k ((j, w) ∷ m) (a, s) = elim (Bool-cases (j == k)) [
    | inl e ↦ rw e s
    | inr e ↦ rw e (All-keys-remove j k m a, remove-IsSorted k m s)
  ]

  pub contains_key-get :
      (k : ℕ) (m : Map V) → contains_key k m ≡ elim (get k m) [ none ↦ false | some _ ↦ true ]
  unfolding get contains_key
  contains_key-get k [] = refl
  contains_key-get k ((j, v) ∷ m) = ground (arith, contains_key-get k m)

  pub keys-Distinct : (m : Map V) → IsSorted m → Distinct (keys m)
  keys-Distinct [] s = tt
  keys-Distinct ((k, v) ∷ m) (a, s) = (above (keys m) a, keys-Distinct m s)
    where
      above : (js : List ℕ) → All (λ j. k < j) js → All (λ j. j ≢ k) js
      above [] h = tt
      above (j ∷ js) (h, a) = (omega arith, above js a)

  pub contains_key-insert :
      (k j : ℕ) (v : V) (m : Map V)
      → contains_key j (insert k v m) ≡ (if k == j then true else contains_key j m)
  contains_key-insert k j v m =
      rw (contains_key-get j (insert k v m), contains_key-get j m, get-insert k j v m)
        (ground arith)

  pub contains_key-remove :
      (k j : ℕ) (m : Map V)
      → IsSorted m
      → contains_key j (remove k m) ≡ (if k == j then false else contains_key j m)
  contains_key-remove k j m s =
      rw (contains_key-get j (remove k m), contains_key-get j m, get-remove k j m s) (ground arith)

  pub All-insert {κ} :
      (P : ℕ → Type κ) (k : ℕ) (v : V) (m : Map V)
      → P k
      → All P (keys m)
      → All P (keys (insert k v m))
  unfolding insert
  All-insert P k v [] h a = (h, tt)
  All-insert P k v ((j, w) ∷ m) h (b, a) = elim (Bool-cases (k == j)) [
    | inl e ↦ rw e (h, a)
    | inr e ↦ elim (Bool-cases (ltb k j)) [
      | inl l ↦ rw (e, l) (h, (b, a))
      | inr l ↦ rw (e, l) (b, All-insert P k v m h a)
    ]
  ]

  pub collect_into-IsSorted :
      (m : Map V) (es : List (ℕ × V)) → IsSorted m → IsSorted (collect_into m es)
  unfolding collect_into
  collect_into-IsSorted m [] s = s
  collect_into-IsSorted m ((k, v) ∷ es) s =
      collect_into-IsSorted (insert k v m) es (insert-IsSorted k v m s)

  pub All-collect_into {κ} :
      (P : ℕ → Type κ) (m : Map V) (es : List (ℕ × V))
      → All P (keys m)
      → All P (map (λ e. e.0) es)
      → All P (keys (collect_into m es))
  unfolding collect_into
  All-collect_into P m [] a b = a
  All-collect_into P m ((k, v) ∷ es) a (h, b) =
      All-collect_into P (insert k v m) es (All-insert P k v m h a) b

  -- A key that is found is a key.
  pub All-get {κ} :
      (P : ℕ → Type κ) (k : ℕ) (m : Map V) {v : V} → All P (keys m) → get k m ≡ some v → P k
  unfolding get
  All-get P k [] a e = cc
  All-get P k ((j, w) ∷ m) (h, a) e = elim (Bool-cases (j == k)) [
    | inl t ↦ let q : j ≡ k = ground arith in subst P q h
    | inr t ↦ All-get P k m a (rw t at e)
  ]
