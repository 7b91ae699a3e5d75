-- ===== src/Gf7.antt =====
-- The field of seven elements, which is also a cyclic group of order seven: a small instance of the
-- interfaces `Field`, `Group` and `Action`, at which the theorems are applied to concrete inputs.
pub mod Bytes
pub mod Signing
use ohm_ecdsa.Prelude.{
  ℕ, zero, suc, ◌+◌, ◌*◌, ◌-◌, ◌%◌, ◌<◌, ◌≡◌, ◌≢◌, ◌↔◌, refl, sym, ap, ◌∙◌, Bool, true, ◌&&◌, ◌==◌,
  Option, none, some, arith, ==_iff,
}
use ohm_ecdsa.Field.{Field, zero_scalar, one_scalar, ◌⊕◌, ◌⊗◌}
use ohm_ecdsa.Curve.{Group, Action}

pub data Gf7 : Type 0 where
  g0 g1 g2 g3 g4 g5 g6 : Gf7

val : Gf7 → ℕ
val g0 = 0
val g1 = 1
val g2 = 2
val g3 = 3
val g4 = 4
val g5 = 5
val g6 = 6

pick : ℕ → Gf7
pick zero = g0
pick (suc zero) = g1
pick (suc (suc zero)) = g2
pick (suc (suc (suc zero))) = g3
pick (suc (suc (suc (suc zero)))) = g4
pick (suc (suc (suc (suc (suc zero))))) = g5
pick _ = g6

pub of_ℕ : ℕ → Gf7
unfolding pick
of_ℕ n = pick (n % 7)

val-pick : (n : ℕ) → n < 7 → val (pick n) ≡ n
unfolding val pick
val-pick zero h = refl
val-pick (suc zero) h = refl
val-pick (suc (suc zero)) h = refl
val-pick (suc (suc (suc zero))) h = refl
val-pick (suc (suc (suc (suc zero)))) h = refl
val-pick (suc (suc (suc (suc (suc zero))))) h = refl
val-pick (suc (suc (suc (suc (suc (suc n)))))) h = omega arith

val-of_ℕ : (n : ℕ) → val (of_ℕ n) ≡ n % 7
unfolding of_ℕ
val-of_ℕ n = val-pick (n % 7) (omega arith)

val_injective : {a b : Gf7} → val a ≡ val b → a ≡ b
val_injective {a} {b} e = sym (back a) ∙ (ap of_ℕ e ∙ back b)
  where
    back : (a : Gf7) → of_ℕ (val a) ≡ a
    back a =
        unfold of_ℕ val in
        elim a as (λ x. of_ℕ (val x) ≡ x) [
          | g0 ↦ refl
          | g1 ↦ refl
          | g2 ↦ refl
          | g3 ↦ refl
          | g4 ↦ refl
          | g5 ↦ refl
          | g6 ↦ refl
        ]

pub add7 : Gf7 → Gf7 → Gf7
unfolding of_ℕ val
add7 a b = of_ℕ (val a + val b)

pub mul7 : Gf7 → Gf7 → Gf7
unfolding of_ℕ val
mul7 a b = of_ℕ (val a * val b)

pub neg7 : Gf7 → Gf7
unfolding of_ℕ val
neg7 a = of_ℕ (7 - val a)

pub invert7 : Gf7 → Option Gf7
invert7 g0 = none
invert7 g1 = some g1
invert7 g2 = some g4
invert7 g3 = some g5
invert7 g4 = some g2
invert7 g5 = some g3
invert7 g6 = some g6

pub eq7 : Gf7 → Gf7 → Bool
unfolding val
eq7 a b = val a == val b

pub eq7_iff : (a b : Gf7) → (eq7 a b ≡ true) ↔ (a ≡ b)
unfolding eq7
eq7_iff a b =
    (λ e. val_injective ((==_iff (val a) (val b)).0 e), λ e. (==_iff (val a) (val b)).1 (ap val e))

-- A law is checked at every element.
all7 : (Gf7 → Bool) → Bool
all7 p = p g0 && (p g1 && (p g2 && (p g3 && (p g4 && (p g5 && p g6)))))

all7_sound : (p : Gf7 → Bool) → all7 p ≡ true → (a : Gf7) → p a ≡ true
unfolding all7
all7_sound p h g0 = ground arith
all7_sound p h g1 = ground arith
all7_sound p h g2 = ground arith
all7_sound p h g3 = ground arith
all7_sound p h g4 = ground arith
all7_sound p h g5 = ground arith
all7_sound p h g6 = ground arith

law1 : (l r : Gf7 → Gf7) → all7 (λ a. eq7 (l a) (r a)) ≡ true → (a : Gf7) → l a ≡ r a
law1 l r h a = (eq7_iff _ _).0 (all7_sound _ h a)

law2 :
    (l r : Gf7 → Gf7 → Gf7)
    → all7 (λ a. all7 (λ b. eq7 (l a b) (r a b))) ≡ true
    → (a b : Gf7) → l a b ≡ r a b
law2 l r h a = law1 (l a) (r a) (all7_sound (λ a. all7 (λ b. eq7 (l a b) (r a b))) h a)

law3 :
    (l r : Gf7 → Gf7 → Gf7 → Gf7)
    → all7 (λ a. all7 (λ b. all7 (λ c. eq7 (l a b c) (r a b c)))) ≡ true
    → (a b c : Gf7) → l a b c ≡ r a b c
law3 l r h a =
    law2 (l a) (r a) (all7_sound (λ a. all7 (λ b. all7 (λ c. eq7 (l a b c) (r a b c)))) h a)

pub add7_assoc : (a b c : Gf7) → add7 (add7 a b) c ≡ add7 a (add7 b c)
unfolding all7 eq7 add7
add7_assoc = law3 _ _ refl

pub add7_comm : (a b : Gf7) → add7 a b ≡ add7 b a
unfolding all7 eq7 add7
add7_comm = law2 _ _ refl

pub zero-add7 : (a : Gf7) → add7 g0 a ≡ a
unfolding all7 eq7 add7
zero-add7 = law1 _ _ refl

pub add7-neg7 : (a : Gf7) → add7 a (neg7 a) ≡ g0
unfolding all7 eq7 add7 neg7
add7-neg7 = law1 _ (λ a. g0) refl

pub mul7_assoc : (a b c : Gf7) → mul7 (mul7 a b) c ≡ mul7 a (mul7 b c)
unfolding all7 eq7 mul7
mul7_assoc = law3 _ _ refl

pub mul7_comm : (a b : Gf7) → mul7 a b ≡ mul7 b a
unfolding all7 eq7 mul7
mul7_comm = law2 _ _ refl

pub one-mul7 : (a : Gf7) → mul7 g1 a ≡ a
unfolding all7 eq7 mul7
one-mul7 = law1 _ _ refl

pub mul7-one : (a : Gf7) → mul7 a g1 ≡ a
mul7-one a = mul7_comm a g1 ∙ one-mul7 a

pub mul7-zero : (a : Gf7) → mul7 a g0 ≡ g0
unfolding all7 eq7 mul7
mul7-zero = law1 _ (λ a. g0) refl

pub mul7-add7 : (a b c : Gf7) → mul7 a (add7 b c) ≡ add7 (mul7 a b) (mul7 a c)
unfolding all7 eq7 mul7 add7
mul7-add7 = law3 _ _ refl

pub add7-mul7 : (a b c : Gf7) → mul7 (add7 a b) c ≡ add7 (mul7 a c) (mul7 b c)
unfolding all7 eq7 mul7 add7
add7-mul7 = law3 _ _ refl

pub invert7_nonzero : (a : Gf7) → a ≢ g0 → (b : Gf7) × (invert7 a ≡ some b) × (mul7 a b ≡ g1)
unfolding invert7 mul7
invert7_nonzero g0 h = absurd (h refl)
invert7_nonzero g1 h = (g1, refl, refl)
invert7_nonzero g2 h = (g4, refl, refl)
invert7_nonzero g3 h = (g5, refl, refl)
invert7_nonzero g4 h = (g2, refl, refl)
invert7_nonzero g5 h = (g3, refl, refl)
invert7_nonzero g6 h = (g6, refl, refl)

pub of_ℕ-add7 : (m n : ℕ) → of_ℕ (m + n) ≡ add7 (of_ℕ m) (of_ℕ n)
unfolding add7 of_ℕ
of_ℕ-add7 m n = val_injective (
    val-of_ℕ (m + n)
    ∙ ((omega (arith, val-of_ℕ m, val-of_ℕ n)) ∙ sym (val-of_ℕ (val (of_ℕ m) + val (of_ℕ n)))))

pub of_ℕ_injective : {m n : ℕ} → m < 7 → n < 7 → of_ℕ m ≡ of_ℕ n → m ≡ n
of_ℕ_injective {m} {n} h k e = omega (arith, ap val e, val-of_ℕ m, val-of_ℕ n)

instance unfoldable pub gf7_field : Field Gf7
unfolding add7 mul7 neg7 invert7 eq7 of_ℕ
gf7_field = record {
  zero = g0;
  one = g1;
  add = add7;
  mul = mul7;
  neg = neg7;
  invert = invert7;
  beq = eq7;
  from_u64 = of_ℕ;
  order = 7;
  add_assoc = add7_assoc;
  add_comm = add7_comm;
  zero-add = zero-add7;
  add-neg = add7-neg7;
  mul_assoc = mul7_assoc;
  mul_comm = mul7_comm;
  one-mul = one-mul7;
  mul-add = mul7-add7;
  invert-zero = refl;
  invert_nonzero = invert7_nonzero;
  one-ne-zero = cc;
  from_u64-add = of_ℕ-add7;
  from_u64_injective = of_ℕ_injective;
  beq_iff = eq7_iff;
}

instance unfoldable pub gf7_group : Group Gf7
unfolding add7 eq7
gf7_group = record {
  identity = g0;
  generator = g1;
  add = add7;
  beq = eq7;
  add_assoc = add7_assoc;
  add_comm = add7_comm;
  identity-add = zero-add7;
  beq_iff = eq7_iff;
}

instance unfoldable pub gf7_action : Action Gf7 Gf7
unfolding gf7_field gf7_group zero_scalar one_scalar ◌⊕◌ ◌⊗◌ mul7
gf7_action = record {
  mul = mul7;
  log = λ a. a;
  mul-zero = mul7-zero;
  mul-one = mul7-one;
  mul-add = mul7-add7;
  add-mul = add7-mul7;
  mul-mul = mul7_assoc;
  generator-log = one-mul7;
  log-generator = one-mul7;
}
