-- ===== src/Core.antt =====
-- src/error.rs and src/lib.rs: phases, errors, results, parameters and committees. A panic of the
-- code (an `expect`, an index out of range) is the third kind of result.
pub mod Map
pub mod Sort
pub mod Committees
pub mod Tags
mod Tests
use Prim.Native.String.{String}
use ohm_ecdsa.Prelude.{
  ℕ, zero, suc, ◌+◌, ◌-◌, ◌*◌, List, [], ◌∷◌, Option, none, some, Bool, true, false, ltb, ◌==◌,
  if◌then◌else◌, length, ◌≡◌, ◌≢◌, ◌⊎◌, inl, inr, refl,
}

abbrev pub PartyId : Type 0
PartyId = ℕ

pub data Phase : Type 0 where
  key_gen triples presign sign refresh : Phase

-- The text of an abort: a literal, or one that `format!` builds from its parts.
pub data Detail : Type 0 where
  text : String → Detail
  false_accusation : PartyId → Detail
  defense_fails : PartyId → Detail
  batch_index : Detail → ℕ → Detail

pub record IdentifiableAbort : Type 0 where
  pub phase : Phase
  pub blamed : List PartyId
  pub detail : Detail

pub data Error : Type 0 where
  invalid_params : String → Error
  reveal_mismatch : PartyId → Error
  invalid_share : PartyId → PartyId → Error
  invalid_product_proof : PartyId → Error
  invalid_opening : PartyId → Error
  invalid_nonce_point : PartyId → Error
  invalid_sig_share : PartyId → Error
  zero_value : String → Error
  not_enough_shares : ℕ → ℕ → Error
  abort : IdentifiableAbort → Error
  presig_store : String → Error
  ecdsa : Error

-- What a call comes to: a panic, an error or a value.
pub data Result {ℓ} (V : Type ℓ) : Type ℓ where
  panicked : Result V
  err : Error → Result V
  ok : V → Result V

-- `Option::expect`, and indexing.
abbrev pub expect {ℓ} : {V : Type ℓ} → Option V → Result V
expect (some v) = ok v
expect none = panicked

-- `?` on a result, and on a result without a value.
infixl 5 ◌>>=◌
abbrev pub ◌>>=◌ {ℓ κ} : {V : Type ℓ} {W : Type κ} → Result V → (V → Result W) → Result W
panicked >>= next = panicked
err e >>= next = err e
ok v >>= next = next v

-- `if !test { return Err(e) }`
abbrev pub ensure : Bool → Error → Result (Unit {0})
ensure test e = if test then ok tt else err e

infixl 5 ◌>>◌
abbrev pub ◌>>◌ {κ} : {W : Type κ} → Result (Unit {0}) → Result W → Result W
step >> rest = step >>= (λ u. rest)

pub record Params : Type 0 where
  pub n : ℕ
  pub t : ℕ

-- `2 * t` is taken to fit a `usize`, here and in `new_committee`.
unfoldable pub new_params : ℕ → ℕ → Result Params
new_params n t =
    if ltb t 1
    then err (invalid_params "threshold must be >= 1")
    else if ltb n (2 * t - 1)
    then err (invalid_params "honest majority requires n >= 2t - 1")
    else ok (record { n = n; t = t })

-- `(a..a + n).collect()`
abbrev pub range_from : ℕ → ℕ → List ℕ
range_from a zero = []
range_from a (suc n) = a ∷ range_from (suc a) n

unfoldable pub parties : Params → List PartyId
parties p = range_from 1 p.n

pub record Committee : Type 0 where
  pub ids : List PartyId
  pub t : ℕ

-- `sort_unstable` on integers: equal ids cannot be told apart.
abbrev pub insert_id : PartyId → List PartyId → List PartyId
insert_id p [] = p ∷ []
insert_id p (q ∷ qs) = if ltb q p then q ∷ insert_id p qs else p ∷ q ∷ qs

abbrev pub sort_unstable : List PartyId → List PartyId
sort_unstable [] = []
sort_unstable (p ∷ ps) = insert_id p (sort_unstable ps)

-- `ids.windows(2).any(|w| w[0] == w[1])`
unfoldable pub any_equal_window : List PartyId → Bool
any_equal_window [] = false
any_equal_window (p ∷ []) = false
any_equal_window (p ∷ q ∷ qs) = if p == q then true else any_equal_window (q ∷ qs)

check_ids : ℕ → List PartyId → Result Committee
check_ids t [] = panicked
check_ids t (p ∷ ps) =
    if p == 0
    then err (invalid_params "party ids start at 1; 0 is the secret")
    else if any_equal_window (p ∷ ps)
    then err (invalid_params "duplicate party ids")
    else ok (record { ids = p ∷ ps; t = t })

unfoldable pub new_committee : List PartyId → ℕ → Result Committee
unfolding check_ids
new_committee ids t =
    if ltb t 1
    then err (invalid_params "threshold must be >= 1")
    else if ltb (length ids) (2 * t - 1)
    then err (invalid_params "honest majority requires n >= 2t - 1")
    else check_ids t (sort_unstable ids)

unfoldable pub full : Params → Result Committee
full p = elim (new_committee (parties p) p.t) [
  | ok c ↦ ok c
  | err e ↦ panicked
  | panicked ↦ panicked
]

-- `self.ids.iter().position(|&p| p == j)`
abbrev pub position_from : ℕ → List PartyId → PartyId → Option ℕ
position_from k [] j = none
position_from k (p ∷ ps) j = if p == j then some k else position_from (suc k) ps j

abbrev pub position : Committee → PartyId → Option ℕ
position committee j = position_from 0 committee.ids j

-- Inversion of a successful, and of a failed, step.
pub >>=-eq-ok {ℓ κ} :
    {V : Type ℓ} {W : Type κ} (step : Result V) (next : V → Result W) {w : W}
    → step >>= next ≡ ok w
    → (v : V) × (step ≡ ok v) × (next v ≡ ok w)
>>=-eq-ok panicked next h = cc
>>=-eq-ok (err e) next h = cc
>>=-eq-ok (ok v) next h = (v, refl, h)

pub >>=-eq-err {ℓ κ} :
    {V : Type ℓ} {W : Type κ} (step : Result V) (next : V → Result W) {e : Error}
    → step >>= next ≡ err e
    → (step ≡ err e) ⊎ ((v : V) × (step ≡ ok v) × (next v ≡ err e))
>>=-eq-err panicked next h = cc
>>=-eq-err (err e) next h = inl (cc)
>>=-eq-err (ok v) next h = inr (v, refl, h)

pub expect-eq-ok {ℓ} : {A : Type ℓ} (o : Option A) {a : A} → expect o ≡ ok a → o ≡ some a
expect-eq-ok none h = cc
expect-eq-ok (some a) h = cc

pub expect-ne-err {ℓ} : {A : Type ℓ} (o : Option A) {e : Error} → expect o ≢ err e
expect-ne-err none = λ h. cc
expect-ne-err (some a) = λ h. cc

pub ensure-eq-ok : (b : Bool) (e : Error) {u : Unit {0}} → ensure b e ≡ ok u → b ≡ true
ensure-eq-ok true e h = refl
ensure-eq-ok false e h = cc

pub ensure-eq-err :
    (b : Bool) (e : Error) {e' : Error} → ensure b e ≡ err e' → (b ≡ false) × (e ≡ e')
ensure-eq-err true e h = cc
ensure-eq-err false e h = (refl, cc)

pub ok_injective {ℓ} : {A : Type ℓ} {a b : A} → ok a ≡ ok b → a ≡ b
ok_injective e = cc e

pub err_injective {ℓ} : (A : Type ℓ) {d e : Error} → ◌≡◌ {A = Result A} (err d) (err e) → d ≡ e
err_injective A p = cc p
