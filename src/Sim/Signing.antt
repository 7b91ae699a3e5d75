-- ===== src/Sim/Signing.antt =====
-- Online signing in src/runtime/sim.rs: `message_scalar`, `run_sign`, `run_sign_packed`, `run_sign_stored` and
-- `run_sign_robust`. `&mut` stores come back beside the result. Indexing out of range is a panic.
use ohm_ecdsa.Prelude.{
  ℕ, ◌+◌, ◌-◌, ◌≡◌, ◌≢◌, List, [], ◌∷◌, Option, none, some, ◌==◌, if◌then◌else◌, map,
}
use ohm_ecdsa.Core.{PartyId, ecdsa, Params, Result, ok, err, panicked, expect, ◌>>=◌}
use ohm_ecdsa.Encoding.{Bytes, Hash, sha256}
use ohm_ecdsa.Field.{Field, zero_scalar, neg}
use ohm_ecdsa.Curve.{Group, Action}
use ohm_ecdsa.Shamir.{slot_point}
use ohm_ecdsa.Dleq.{Digest}
use ohm_ecdsa.Triples.{first_of}
use ohm_ecdsa.Presign.{Presignature}
use ohm_ecdsa.Sign.{SignShare, sign_share, combine, combine_at, combine_robust}
use ohm_ecdsa.Store.Presig.{PresigStore, consume}

-- `Signature` of `k256`: a pair of scalars that are not 0. `normalize_s` is `some` for a high s, and negates it.
pub record Signatures (F S : Type 0) ⦃f : Field F⦄ : Type 0 where
  pub from_scalars : F → F → Option S
  pub scalars : S → F × F
  pub normalize_s : S → Option S
  pub from_scalars-scalars :
      (r s : F) (sig : S)
      → from_scalars r s ≡ some sig
      → (scalars sig ≡ (r, s)) × (r ≢ zero_scalar) × (s ≢ zero_scalar)
  pub normalize_s-scalars :
      (sig low : S)
      → normalize_s sig ≡ some low
      → scalars low ≡ ((scalars sig).0, neg (scalars sig).1)

-- `message_scalar` is `scalar_from_digest` of SHA-256.
module _ {F : Type 0} ⦃h : Hash⦄ ⦃d : Digest F⦄ where
  unfoldable pub message_scalar : Bytes → F
  message_scalar msg = d.scalar_from_digest (sha256 msg)

module _ {F : Type 0} where
  -- `for sh in shares.iter_mut() { if sh.from == party { sh.s = fake } }`
  unfoldable pub replace_share : PartyId → F → List (SignShare F) → List (SignShare F)
  replace_share party fake shares =
      map (λ sh. if sh.from == party then record sh { s = fake } else sh) shares

  unfoldable pub tamper_signing : Option (PartyId × F) → List (SignShare F) → List (SignShare F)
  tamper_signing none shares = shares
  tamper_signing (some (party, fake)) shares = replace_share party fake shares

  unfoldable pub tamper_each : List (PartyId × F) → List (SignShare F) → List (SignShare F)
  tamper_each [] shares = shares
  tamper_each ((party, fake) ∷ rest) shares = tamper_each rest (replace_share party fake shares)

module _ (F : Type 0) {S : Type 0} ⦃f : Field F⦄ ⦃sg : Signatures F S⦄ where
  -- `sig.normalize_s().unwrap_or(sig)`
  unfoldable pub normalized : S → S
  normalized sig = elim (sg.normalize_s sig) [ none ↦ sig | some low ↦ low ]

module _ {F S : Type 0} ⦃f : Field F⦄ ⦃sg : Signatures F S⦄ where
  -- `Signature::from_scalars(r, s)?`, then the low form.
  unfoldable pub to_signature : F × F → Result S
  to_signature (r, s) = elim (sg.from_scalars r s) [
    | none ↦ err ecdsa
    | some sig ↦ ok (normalized F sig)
  ]

module _ {F G S : Type 0} ⦃f : Field F⦄ ⦃g : Group G⦄ ⦃c : Action F G⦄ ⦃h : Hash⦄ ⦃d : Digest F⦄
    ⦃sg : Signatures F S⦄ where
  unfoldable pub run_sign :
      Params → List (Presignature F G) → Bytes → Option (PartyId × F) → Result S
  run_sign params presigs msg tamper = do
    let m : F = message_scalar msg
    let shares = tamper_signing tamper (map (λ p. sign_share p m) presigs)
    meta ← expect (first_of presigs)
    rs ← combine params meta m shares
    to_signature rs

  unfoldable pub run_sign_packed :
      Params → ℕ → ℕ → List (Presignature F G) → Bytes → Option (PartyId × F) → Result S
  run_sign_packed params b_pack slot presigs msg tamper = do
    let m : F = message_scalar msg
    let shares = tamper_signing tamper (map (λ p. sign_share p m) presigs)
    meta ← expect (first_of presigs)
    rs ← combine_at (params.t + b_pack - 1) (slot_point slot) meta m shares
    to_signature rs

  unfoldable pub run_sign_robust :
      Params → List (Presignature F G) → Bytes → List (PartyId × F) → Result (S × List PartyId)
  run_sign_robust params presigs msg tamper = do
    let m : F = message_scalar msg
    let shares = tamper_each tamper (map (λ p. sign_share p m) presigs)
    meta ← expect (first_of presigs)
    (rs, blamed) ← combine_robust params meta m shares
    sig ← to_signature rs
    ok (sig, blamed)

module _ {F G : Type 0} where
  -- What the loop does with the result of one store: an error leaves the stores after it as they are.
  unfoldable pub consumed_one :
      PresigStore F G
      → Result (Presignature F G)
      → List (PresigStore F G)
      → List (PresigStore F G) × Result (List (Presignature F G))
      → List (PresigStore F G) × Result (List (Presignature F G))
  consumed_one store (err e) stores rest = (store ∷ stores, err e)
  consumed_one store panicked stores rest = (store ∷ stores, panicked)
  consumed_one store (ok p) stores (stores', rest) = (store ∷ stores', (do ps ← rest; ok (p ∷ ps)))

  -- `for store in stores.iter_mut() { presigs.push(store.consume(id)?) }`
  unfoldable pub consume_all :
      List (PresigStore F G) → ℕ → List (PresigStore F G) × Result (List (Presignature F G))
  consume_all [] id = ([], ok [])
  consume_all (store ∷ stores) id =
      let (store', out) = consume store id in consumed_one store' out stores (consume_all stores id)

module _ {F G S : Type 0} ⦃f : Field F⦄ ⦃g : Group G⦄ ⦃c : Action F G⦄ ⦃h : Hash⦄ ⦃d : Digest F⦄
    ⦃sg : Signatures F S⦄ where
  unfoldable pub run_sign_stored :
      Params
      → List (PresigStore F G)
      → ℕ
      → Bytes
      → Option (PartyId × F)
      → List (PresigStore F G) × Result S
  run_sign_stored params stores id msg tamper =
      let (stores', presigs) = consume_all stores id in
      (stores', (do ps ← presigs; run_sign params ps msg tamper))
