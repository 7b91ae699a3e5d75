-- ===== src/Sim/Stored.antt =====
-- Signing through the single-use stores, in src/runtime/sim.rs: an id is spent by the first attempt to sign
-- with it, whatever comes of that attempt.
use ohm_ecdsa.Prelude.{ℕ, ◌≡◌, refl, ap, ◌∙◌, List, ◌∷◌, Option, none, some, arith}
use ohm_ecdsa.Core.{PartyId, Error, Params, ◌>>=◌, Result, ok, err, panicked, presig_store}
use ohm_ecdsa.Core.Map.{Map, IsSorted, get, remove, get-remove}
use ohm_ecdsa.Encoding.{Bytes, Hash}
use ohm_ecdsa.Field.{Field}
use ohm_ecdsa.Curve.{Group, Action}
use ohm_ecdsa.Dleq.{Digest}
use ohm_ecdsa.Presign.{Presignature}
use ohm_ecdsa.Store.Presig.{PresigStore, consume}
use ohm_ecdsa.Sim.Signing.{Signatures, consumed_one, consume_all, run_sign, run_sign_stored}

consumed_error :
    {A : Type 0} (id : ℕ) (m : Map A)
    → IsSorted m
    → (elim (get id (remove id m)) [
      | none ↦ err (presig_store "unknown or consumed presignature id")
      | some p ↦ ok p
    ])
      ≡ err (presig_store "unknown or consumed presignature id")
consumed_error id m sorted =
    let gone : get id (remove id m) ≡ none = get-remove id id m sorted ∙ ground arith in
    rw gone refl

module _ {F G : Type 0} where
  -- However a consumption comes out, the next one of the same id fails.
  consume-consume :
      (store : PresigStore F G) (id : ℕ)
      → IsSorted store.records
      → (consume (consume store id).0 id).1
        ≡ err (presig_store "unknown or consumed presignature id")
  unfolding consume
  consume-consume store id sorted = consumed_error id store.records sorted

  consumed_one-head :
      (store : PresigStore F G) (out : Result (Presignature F G)) (stores : List (PresigStore F G))
      (after : List (PresigStore F G) × Result (List (Presignature F G)))
      → (rest : List (PresigStore F G)) × ((consumed_one store out stores after).0 ≡ store ∷ rest)
  unfolding consumed_one
  consumed_one-head store (err e) stores after = (stores, refl)
  consumed_one-head store panicked stores after = (stores, refl)
  consumed_one-head store (ok p) stores (stores', rest) = (stores', refl)

  consumed_one-err :
      (store : PresigStore F G) (out : Result (Presignature F G)) (stores : List (PresigStore F G))
      (after : List (PresigStore F G) × Result (List (Presignature F G))) {e : Error}
      → out ≡ err e
      → (consumed_one store out stores after).1 ≡ err e
  unfolding consumed_one
  consumed_one-err store out stores after q =
      ap (λ (out : Result (Presignature F G)). (consumed_one store out stores after).1) q

  -- The first store is asked first, and it has lost the id whatever the others do.
  consume_all-consume_all :
      (store : PresigStore F G) (stores : List (PresigStore F G)) (id : ℕ)
      → IsSorted store.records
      → (consume_all (consume_all (store ∷ stores) id).0 id).1
        ≡ err (presig_store "unknown or consumed presignature id")
  unfolding consume_all
  consume_all-consume_all store stores id sorted =
      let (rest, e) =
        consumed_one-head (consume store id).0 (consume store id).1 stores
          (consume_all stores id) in
      ap (λ (ss : List (PresigStore F G)). (consume_all ss id).1) e
      ∙ consumed_one-err _ _ rest _ (consume-consume store id sorted)

module _ {F G S : Type 0} ⦃f : Field F⦄ ⦃g : Group G⦄ ⦃c : Action F G⦄ ⦃h : Hash⦄ ⦃d : Digest F⦄
    ⦃sg : Signatures F S⦄ where
  -- With the first store in order: after a call of `run_sign_stored` with an id, whatever it returned, every
  -- further call with that id on the stores it left is refused, for whatever message.
  pub run_sign_stored-run_sign_stored :
      (params : Params) (store : PresigStore F G) (stores : List (PresigStore F G)) (id : ℕ)
      (msg msg' : Bytes) (tamper tamper' : Option (PartyId × F))
      → IsSorted store.records
      → (run_sign_stored {S = S} params
          (run_sign_stored {S = S} params (store ∷ stores) id msg tamper).0
          id
          msg'
          tamper').1
        ≡ err (presig_store "unknown or consumed presignature id")
  unfolding run_sign_stored
  run_sign_stored-run_sign_stored params store stores id msg msg' tamper tamper' sorted =
      ap
        (λ (r : Result (List (Presignature F G))).
          r >>= (λ ps. run_sign {S = S} params ps msg' tamper'))
        (consume_all-consume_all store stores id sorted)
