-- ===== src/Prelude/Lists.antt =====
-- Lists measured and indexed by native numbers, under the library's names.
use Prim.Native.Nat.{ℕ, zero, suc, ◌+◌, ◌-◌, ◌<◌, min}
use mathlib.Core.Path.{◌≡◌, refl, ap, sym, subst, ◌∙◌}
use mathlib.Core.Logic.{◌≢◌, inl, inr}
use mathlib.Core.List.{List, [], ◌∷◌, ◌++◌, map}
use mathlib.Core.Option.{Option, none, some}
use mathlib.Core.Bool.{Bool, true}
use ohm_ecdsa.Prelude.Tests.{Bool-cases, if◌then◌else◌}
use native.Mathlib.Omega.{arith}

module _ {ℓ} {A : Type ℓ} where
  abbrev pub length : List A → ℕ
  length [] = 0
  length (x ∷ xs) = suc (length xs)

  abbrev pub get_elem? : List A → ℕ → Option A
  get_elem? [] i = none
  get_elem? (x ∷ xs) zero = some x
  get_elem? (x ∷ xs) (suc i) = get_elem? xs i

  -- A write out of bounds changes nothing.
  abbrev pub set : List A → ℕ → A → List A
  set [] i v = []
  set (x ∷ xs) zero v = v ∷ xs
  set (x ∷ xs) (suc i) v = x ∷ set xs i v

  pub length-append : (xs ys : List A) → length (xs ++ ys) ≡ length xs + length ys
  length-append [] ys = omega arith
  length-append (x ∷ xs) ys = omega (arith, length-append xs ys)

module _ {ℓ} {A : Type ℓ} where
  pub length-set : (xs : List A) (i : ℕ) (v : A) → length (set xs i v) ≡ length xs
  length-set [] i v = refl
  length-set (x ∷ xs) zero v = refl
  length-set (x ∷ xs) (suc i) v = ap suc (length-set xs i v)

  pub get_elem?-set_self :
      (xs : List A) (i : ℕ) (v : A) → i < length xs → get_elem? (set xs i v) i ≡ some v
  get_elem?-set_self [] i v h = elim h [ ]
  get_elem?-set_self (x ∷ xs) zero v h = refl
  get_elem?-set_self (x ∷ xs) (suc i) v h = get_elem?-set_self xs i v (omega arith)

  pub get_elem?-set_ne :
      (xs : List A) {i j : ℕ} (v : A) → i ≢ j → get_elem? (set xs i v) j ≡ get_elem? xs j
  get_elem?-set_ne [] v h = refl
  get_elem?-set_ne (x ∷ xs) {i = zero} {j = zero} v h = absurd (h refl)
  get_elem?-set_ne (x ∷ xs) {i = zero} {j = suc j} v h = refl
  get_elem?-set_ne (x ∷ xs) {i = suc i} {j = zero} v h = refl
  get_elem?-set_ne (x ∷ xs) {i = suc i} {j = suc j} v h = get_elem?-set_ne xs v (λ e. h (ap suc e))

module _ {ℓ} {A : Type ℓ} where
  abbrev pub get_or : List A → ℕ → A → A
  get_or [] i d = d
  get_or (x ∷ xs) zero d = x
  get_or (x ∷ xs) (suc i) d = get_or xs i d

  abbrev pub take : ℕ → List A → List A
  take zero xs = []
  take (suc n) [] = []
  take (suc n) (x ∷ xs) = x ∷ take n xs

  abbrev pub drop : ℕ → List A → List A
  drop zero xs = xs
  drop (suc n) [] = []
  drop (suc n) (x ∷ xs) = drop n xs

  abbrev pub replicate : ℕ → A → List A
  replicate zero a = []
  replicate (suc n) a = a ∷ replicate n a

  pub take-append-drop : (n : ℕ) (xs : List A) → take n xs ++ drop n xs ≡ xs
  take-append-drop zero xs = refl
  take-append-drop (suc n) [] = refl
  take-append-drop (suc n) (x ∷ xs) = rw (take-append-drop n xs)

  pub length-take : (n : ℕ) (xs : List A) → length (take n xs) ≡ min n (length xs)
  length-take zero xs = omega arith
  length-take (suc n) [] = omega arith
  length-take (suc n) (x ∷ xs) = omega (arith, length-take n xs)

  pub length-drop : (n : ℕ) (xs : List A) → length (drop n xs) ≡ length xs - n
  length-drop zero xs = omega arith
  length-drop (suc n) [] = omega arith
  length-drop (suc n) (x ∷ xs) = omega (arith, length-drop n xs)

  pub length-replicate : (n : ℕ) (a : A) → length (replicate n a) ≡ n
  length-replicate zero a = refl
  length-replicate (suc n) a = ap suc (length-replicate n a)

  pub length-map {κ} : {B : Type κ} (xs : List A) (f : A → B) → length (map f xs) ≡ length xs
  length-map [] f = refl
  length-map (x ∷ xs) f = ap suc (length-map xs f)

module _ {ℓ} {A : Type ℓ} where
  abbrev pub All {κ} : (A → Type κ) → List A → Type κ
  All P [] = Unit
  All P (x ∷ xs) = P x × All P xs

  -- No element stands at two places.
  abbrev pub Distinct : List A → Type ℓ
  Distinct [] = Unit
  Distinct (x ∷ xs) = All (λ y. y ≢ x) xs × Distinct xs

module _ {ℓ} {A : Type ℓ} where
  some_inj : {a b : A} → some a ≡ some b → a ≡ b
  some_inj e = cc e

  pub All-get_elem? {κ} :
      (P : A → Type κ) (xs : List A) (i : ℕ) {a : A} → All P xs → get_elem? xs i ≡ some a → P a
  All-get_elem? P [] i h e = cc
  All-get_elem? P (x ∷ xs) zero h e = subst P (some_inj e) h.0
  All-get_elem? P (x ∷ xs) (suc i) h e = All-get_elem? P xs i h.1 e

  pub Distinct-get_elem? :
      (xs : List A) (i j : ℕ) {a b : A}
      → Distinct xs
      → get_elem? xs i ≡ some a
      → get_elem? xs j ≡ some b
      → i ≢ j
      → a ≢ b
  Distinct-get_elem? [] i j d g h ne = cc
  Distinct-get_elem? (x ∷ xs) zero zero d g h ne = absurd (ne refl)
  Distinct-get_elem? (x ∷ xs) zero (suc j) d g h ne =
      λ e. All-get_elem? _ xs j d.0 h (sym e ∙ sym (some_inj g))
  Distinct-get_elem? (x ∷ xs) (suc i) zero d g h ne =
      λ e. All-get_elem? _ xs i d.0 g (e ∙ sym (some_inj h))
  Distinct-get_elem? (x ∷ xs) (suc i) (suc j) d g h ne =
      Distinct-get_elem? xs i j d.1 g h (λ e. ne (ap suc e))

-- `filter` by a Boolean test.
module _ {ℓ} {A : Type ℓ} where
  abbrev pub filter : (A → Bool) → List A → List A
  filter p [] = []
  filter p (x ∷ xs) = if p x then x ∷ filter p xs else filter p xs

  pub All-filter {κ} :
      (P : A → Type κ) (p : A → Bool) (xs : List A) → All P xs → All P (filter p xs)
  All-filter P p [] h = tt
  All-filter P p (x ∷ xs) (h, t) = elim (Bool-cases (p x)) [
    | inl e ↦ rw e (h, All-filter P p xs t)
    | inr e ↦ rw e (All-filter P p xs t)
  ]

  pub filter_holds : (p : A → Bool) (xs : List A) → All (λ x. p x ≡ true) (filter p xs)
  filter_holds p [] = tt
  filter_holds p (x ∷ xs) = elim (Bool-cases (p x)) [
    | inl e ↦ rw e (e, filter_holds p xs)
    | inr e ↦ rw e (filter_holds p xs)
  ]

  pub All-take {κ} : (P : A → Type κ) (n : ℕ) (xs : List A) → All P xs → All P (take n xs)
  All-take P zero xs h = tt
  All-take P (suc n) [] h = tt
  All-take P (suc n) (x ∷ xs) (h, t) = (h, All-take P n xs t)

  pub Distinct-take : (n : ℕ) (xs : List A) → Distinct xs → Distinct (take n xs)
  Distinct-take zero xs d = tt
  Distinct-take (suc n) [] d = tt
  Distinct-take (suc n) (x ∷ xs) (a, d) = (All-take (λ y. y ≢ x) n xs a, Distinct-take n xs d)

  pub map-take {κ} :
      {B : Type κ} (h : A → B) (n : ℕ) (xs : List A) → map h (take n xs) ≡ take n (map h xs)
  map-take h zero xs = refl
  map-take h (suc n) [] = refl
  map-take h (suc n) (x ∷ xs) = ap (λ ys. h x ∷ ys) (map-take h n xs)

  pub All-unmap {κ μ} :
      {B : Type κ} (P : B → Type μ) (h : A → B) (xs : List A)
      → All P (map h xs)
      → All (λ x. P (h x)) xs
  All-unmap P h [] a = tt
  All-unmap P h (x ∷ xs) (b, a) = (b, All-unmap P h xs a)

  pub All-map-filter {κ μ} :
      {B : Type κ} (P : B → Type μ) (h : A → B) (p : A → Bool) (xs : List A)
      → All P (map h xs)
      → All P (map h (filter p xs))
  All-map-filter P h p [] a = tt
  All-map-filter P h p (x ∷ xs) (b, a) = elim (Bool-cases (p x)) [
    | inl e ↦ rw e (b, All-map-filter P h p xs a)
    | inr e ↦ rw e (All-map-filter P h p xs a)
  ]

  pub Distinct-map-filter {κ} :
      {B : Type κ} (h : A → B) (p : A → Bool) (xs : List A)
      → Distinct (map h xs)
      → Distinct (map h (filter p xs))
  Distinct-map-filter h p [] d = tt
  Distinct-map-filter h p (x ∷ xs) (b, d) = elim (Bool-cases (p x)) [
    | inl e ↦ rw e (All-map-filter (λ y. y ≢ h x) h p xs b, Distinct-map-filter h p xs d)
    | inr e ↦ rw e (Distinct-map-filter h p xs d)
  ]
