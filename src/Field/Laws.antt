-- ===== src/Field/Laws.antt =====
-- The laws of the scalar field over its operators, and the rule sets that prove ring equations.
use ohm_ecdsa.Prelude.{
  true, false, ◌↔◌, ◌≡◌, ◌≢◌, ◌⊎◌, inl, inr, Option, none, some, sym, ◌∙◌, ap, ap₂, refl, ℕ, ◌+◌,
  ◌<◌, Bool-cases,
}
use ohm_ecdsa.Field.{
  Field, zero_scalar, one_scalar, ◌⊕◌, ◌⊗◌, neg, ◌⊖◌, ◌=?◌, invert, from_u64, order,
}

module _ {F : Type 0} ⦃f : Field F⦄ where
  pub add_assoc : (a b c : F) → (a ⊕ b) ⊕ c ≡ a ⊕ (b ⊕ c)
  unfolding ◌⊕◌
  add_assoc = f.add_assoc

  pub add_comm : (a b : F) → a ⊕ b ≡ b ⊕ a
  unfolding ◌⊕◌
  add_comm = f.add_comm

  pub zero-add : (a : F) → zero_scalar ⊕ a ≡ a
  unfolding ◌⊕◌ zero_scalar
  zero-add = f.zero-add

  pub add-neg : (a : F) → a ⊕ (neg a) ≡ zero_scalar
  unfolding ◌⊕◌ zero_scalar neg
  add-neg = f.add-neg

  pub mul_assoc : (a b c : F) → (a ⊗ b) ⊗ c ≡ a ⊗ (b ⊗ c)
  unfolding ◌⊗◌
  mul_assoc = f.mul_assoc

  pub mul_comm : (a b : F) → a ⊗ b ≡ b ⊗ a
  unfolding ◌⊗◌
  mul_comm = f.mul_comm

  pub one-mul : (a : F) → one_scalar ⊗ a ≡ a
  unfolding ◌⊗◌ one_scalar
  one-mul = f.one-mul

  pub mul-add : (a b c : F) → a ⊗ (b ⊕ c) ≡ a ⊗ b ⊕ a ⊗ c
  unfolding ◌⊗◌ ◌⊕◌
  mul-add = f.mul-add

  pub =?_iff : (a b : F) → ((a =? b) ≡ true) ↔ (a ≡ b)
  unfolding ◌=?◌
  =?_iff = f.beq_iff

  pub one-ne-zero : ◌≢◌ {A = F} one_scalar zero_scalar
  unfolding one_scalar zero_scalar
  one-ne-zero = f.one-ne-zero

  pub from_u64-add : (m n : ℕ) → from_u64 {F = F} (m + n) ≡ from_u64 m ⊕ from_u64 n
  unfolding from_u64 ◌⊕◌
  from_u64-add = f.from_u64-add

  pub invert-zero : invert {F = F} zero_scalar ≡ none
  unfolding invert zero_scalar
  invert-zero = f.invert-zero

  pub invert_nonzero :
      (a : F) → a ≢ zero_scalar → (b : F) × (invert a ≡ some b) × (a ⊗ b ≡ one_scalar)
  unfolding invert ◌⊗◌ zero_scalar one_scalar
  invert_nonzero = f.invert_nonzero

  -- The inverse, and 0 for 0.
  inverse_of : Option F → F
  inverse_of none = zero_scalar
  inverse_of (some w) = w

  pub inverse : F → F
  inverse a = inverse_of (invert a)

  pub invert-inverse :
      (a : F) → a ≢ zero_scalar → (invert a ≡ some (inverse a)) × (a ⊗ inverse a ≡ one_scalar)
  unfolding inverse inverse_of
  invert-inverse a h =
      let (w, e, r) = invert_nonzero a h in
      let q : inverse a ≡ w = ap inverse_of e in (e ∙ ap some (sym q), ap (λ x. a ⊗ x) q ∙ r)

  pub add_left_comm : (a b c : F) → a ⊕ (b ⊕ c) ≡ b ⊕ (a ⊕ c)
  add_left_comm a b c = sym (add_assoc a b c) ∙ (ap (λ x. x ⊕ c) (add_comm a b) ∙ add_assoc b a c)

  pub mul_left_comm : (a b c : F) → a ⊗ (b ⊗ c) ≡ b ⊗ (a ⊗ c)
  mul_left_comm a b c = sym (mul_assoc a b c) ∙ (ap (λ x. x ⊗ c) (mul_comm a b) ∙ mul_assoc b a c)

  pub add-zero : (a : F) → a ⊕ zero_scalar ≡ a
  add-zero a = add_comm a zero_scalar ∙ zero-add a

  pub neg-add : (a : F) → (neg a) ⊕ a ≡ zero_scalar
  neg-add a = add_comm (neg a) a ∙ add-neg a

  pub mul-one : (a : F) → a ⊗ one_scalar ≡ a
  mul-one a = mul_comm a one_scalar ∙ one-mul a

  pub add-mul : (a b c : F) → (a ⊕ b) ⊗ c ≡ a ⊗ c ⊕ b ⊗ c
  add-mul a b c = mul_comm (a ⊕ b) c ∙ (mul-add c a b ∙ ap₂ ◌⊕◌ (mul_comm c a) (mul_comm c b))

  pub add-neg_cancel : (a b : F) → a ⊕ ((neg a) ⊕ b) ≡ b
  add-neg_cancel a b = sym (add_assoc _ _ _) ∙ (ap (λ x. x ⊕ b) (add-neg a) ∙ zero-add b)

  pub neg-add_cancel : (a b : F) → (neg a) ⊕ (a ⊕ b) ≡ b
  neg-add_cancel a b = sym (add_assoc _ _ _) ∙ (ap (λ x. x ⊕ b) (neg-add a) ∙ zero-add b)

  pub add_cancel : (a : F) {b c : F} → a ⊕ b ≡ a ⊕ c → b ≡ c
  add_cancel a {b} {c} h = sym (neg-add_cancel a b) ∙ (ap (λ x. (neg a) ⊕ x) h ∙ neg-add_cancel a c)

  pub mul-zero : (a : F) → a ⊗ zero_scalar ≡ zero_scalar
  mul-zero a = add_cancel (a ⊗ zero_scalar) (
      sym (mul-add a zero_scalar zero_scalar)
      ∙ (ap (λ x. a ⊗ x) (zero-add zero_scalar) ∙ sym (add-zero _)))

  pub zero-mul : (a : F) → zero_scalar ⊗ a ≡ zero_scalar
  zero-mul a = mul_comm _ _ ∙ mul-zero a

  pub neg_unique : (a b : F) → a ⊕ b ≡ zero_scalar → b ≡ neg a
  neg_unique a b h = add_cancel a (h ∙ sym (add-neg a))

  pub mul-neg : (a b : F) → a ⊗ (neg b) ≡ neg (a ⊗ b)
  mul-neg a b =
      neg_unique (a ⊗ b) (a ⊗ (neg b))
        (sym (mul-add a b (neg b)) ∙ (ap (λ x. a ⊗ x) (add-neg b) ∙ mul-zero a))

  pub neg-mul : (a b : F) → (neg a) ⊗ b ≡ neg (a ⊗ b)
  neg-mul a b = mul_comm _ _ ∙ (mul-neg b a ∙ ap neg (mul_comm b a))

  pub from_u64-zero : from_u64 {F = F} 0 ≡ zero_scalar
  from_u64-zero = add_cancel (from_u64 0) (sym (from_u64-add 0 0) ∙ sym (add-zero _))

  pub eq_of_sub : (a b : F) → a ⊖ b ≡ zero_scalar → a ≡ b
  eq_of_sub a b h = add_cancel (neg b) (add_comm (neg b) a ∙ (h ∙ sym (neg-add b)))

  pub sub-add : (a b : F) → (a ⊖ b) ⊕ b ≡ a
  sub-add a b = add_assoc _ _ _ ∙ (ap (λ x. a ⊕ x) (neg-add b) ∙ add-zero a)

  pub sub-ne-zero : (a b : F) → a ≢ b → a ⊖ b ≢ zero_scalar
  sub-ne-zero a b h e = h (eq_of_sub a b e)

  pub sub_self : (a : F) → a ⊖ a ≡ zero_scalar
  sub_self = add-neg

  -- A field has no zero divisors.
  pub mul_cancel : (a : F) {b c : F} → a ≢ zero_scalar → a ⊗ b ≡ a ⊗ c → b ≡ c
  mul_cancel a {b} {c} h e =
      let (i, _, r) = invert_nonzero a h in sym (undo i r b) ∙ (ap (λ x. i ⊗ x) e ∙ undo i r c)
    where
      undo : (i : F) → a ⊗ i ≡ one_scalar → (x : F) → i ⊗ (a ⊗ x) ≡ x
      undo i r x = sym (mul_assoc i a x) ∙ (ap (λ y. y ⊗ x) (mul_comm i a ∙ r) ∙ one-mul x)

  pub mul-ne-zero : (a b : F) → a ≢ zero_scalar → b ≢ zero_scalar → a ⊗ b ≢ zero_scalar
  mul-ne-zero a b h k e = k (mul_cancel a h (e ∙ sym (mul-zero a)))

  pub =?_cases : (a b : F) → ((a =? b) ≡ true) × (a ≡ b) ⊎ ((a =? b) ≡ false) × (a ≢ b)
  =?_cases a b = elim (Bool-cases (a =? b)) [
    | inl e ↦ inl (e, (=?_iff a b).0 e)
    | inr e ↦ inr (e, λ p. cc (e, (=?_iff a b).1 p))
  ]

  pub =?_refl : (a : F) → (a =? a) ≡ true
  =?_refl a = (=?_iff a a).1 refl

  pub =?_false : (a b : F) → a ≢ b → (a =? b) ≡ false
  =?_false a b h = elim (=?_cases a b) [ inl (_, p) ↦ absurd (h p) | inr (e, _) ↦ e ]

module _ (F : Type 0) ⦃f : Field F⦄ where
  pub from_u64_injective :
      {m n : ℕ} → m < order F → n < order F → from_u64 {F = F} m ≡ from_u64 n → m ≡ n
  unfolding from_u64 order
  from_u64_injective = f.from_u64_injective

pub ruleset sums = (add_assoc, add_comm, add_left_comm, add-zero, zero-add)

pub ruleset ring = (
  sums, mul_assoc, mul_comm, mul_left_comm, mul-add, add-mul, mul-zero, zero-mul, mul-one, one-mul,
  mul-neg, neg-mul,
)
