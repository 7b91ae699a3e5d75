-- ===== src/Sim/Restart/Terminates.antt =====
-- `run_triples_with_restart` of src/runtime/sim.rs ends: each abort blames a party, so each restart has fewer.
use ohm_ecdsa.Prelude.{
  ℕ, zero, suc, ◌≤◌, ◌<◌, ◌≡◌, ◌≢◌, ltb, ◌*◌, ◌-◌, refl, sym, ap, ◌∙◌, List, [], ◌∷◌, Option, none,
  some, true, Bool-cases, inl, inr, length, get_elem?, All, arith,
}
use ohm_ecdsa.Core.{
  PartyId, IdentifiableAbort, Error, abort, Committee, Params, new_params, parties, full,
  new_committee, invalid_params, reveal_mismatch, invalid_share, invalid_product_proof,
  invalid_opening, invalid_nonce_point, invalid_sig_share, zero_value, not_enough_shares,
  presig_store, ecdsa, Result, ok, err, panicked, >>=-eq-ok, >>=-eq-err, expect-eq-ok, ok_injective,
}
use ohm_ecdsa.Core.Sort.{length-sort}
use ohm_ecdsa.Core.Committees.{length-range_from}
use ohm_ecdsa.Encoding.{Bytes, Hash, PointEncoding}
use ohm_ecdsa.Rng.{Rng}
use ohm_ecdsa.Field.{Field}
use ohm_ecdsa.Curve.{Group, Action}
use ohm_ecdsa.Dleq.{Digest}
use ohm_ecdsa.Policy.{contains_id, restart_committee}
use ohm_ecdsa.Policy.Survivors.{survivors, restart_result}
use ohm_ecdsa.Presign.{TripleShare, TriplePublic}
use ohm_ecdsa.Triples.{TripleTamper}
use ohm_ecdsa.Triples.Robust.Blame.{generate_robust-BlamesOne}
use ohm_ecdsa.Sim.Restart.{
  Restart, original_id, original_ids, survivor_positions, at_positions, survivors_or_abort,
  expel_blamed, abort_of, attempt_triples, completed, restart_triples, run_triples_with_restart,
}

pub survivors_le :
    (current blamed : List PartyId) → length (survivors current blamed) ≤ length current
survivors_le [] blamed = omega arith
survivors_le (p ∷ ps) blamed = elim (Bool-cases (contains_id blamed p)) [
  | inl e ↦ rw e (omega (arith, survivors_le ps blamed))
  | inr e ↦ rw e (omega (arith, survivors_le ps blamed))
]

-- A blamed member does not survive.
survivors_lt :
    (current : List PartyId) (k : ℕ) (q : PartyId)
    → get_elem? current k ≡ some q
    → length (survivors current (q ∷ [])) < length current
survivors_lt [] k q e = cc e
survivors_lt (p ∷ ps) zero q e =
    let same : p ≡ q = cc e in
    let out : contains_id (q ∷ []) p ≡ true = ground arith in
    rw out (omega (arith, survivors_le ps (q ∷ [])))
survivors_lt (p ∷ ps) (suc k) q e = elim (Bool-cases (contains_id (q ∷ []) p)) [
  | inl t ↦ rw t (omega (arith, survivors_le ps (q ∷ [])))
  | inr t ↦ rw t (omega (arith, survivors_lt ps k q e))
]

original_id_member :
    (current : List PartyId) (b : PartyId) {q : PartyId}
    → original_id current b ≡ ok q
    → (k : ℕ) × (get_elem? current k ≡ some q)
unfolding original_id
original_id_member current zero e = cc e
original_id_member current (suc b) e = (b, expect-eq-ok _ e)

pub survivors_or_abort_ok :
    (current blamed : List PartyId) (t : ℕ) (a : IdentifiableAbort) {ids : List PartyId}
    → survivors_or_abort current blamed t a ≡ ok ids
    → restart_committee current blamed t ≡ ok ids
unfolding survivors_or_abort
survivors_or_abort_ok current blamed t a {ids} e =
    elim (restart_committee current blamed t)
        as (λ r.
          (elim r [ ok s ↦ ok s | err e ↦ err (abort a) | panicked ↦ panicked ]) ≡ ok ids
          → r ≡ ok ids) [ ok s ↦ λ e. e | err x ↦ λ e. cc e | panicked ↦ λ e. cc e ]
      e

-- A restart after an abort that blames one party has fewer parties.
pub expel_blamed_shrinks :
    {R : Type 0} (t : ℕ) (s s' : Restart R) (a : IdentifiableAbort) (rngs : List R) (p : PartyId)
    → a.blamed ≡ p ∷ []
    → expel_blamed t s a rngs ≡ ok s'
    → length s'.current < length s.current
unfolding expel_blamed original_ids
expel_blamed_shrinks {R} t s s' a rngs p one e =
    let (blamed, e0, e1) = >>=-eq-ok (original_ids s.current a.blamed) _ e in
    let (ids, e2, e3) = >>=-eq-ok (survivors_or_abort s.current blamed t a) _ e1 in
    let (positions, _, e4) = >>=-eq-ok (survivor_positions s.current ids) _ e3 in
    let (kept, _, e5) = >>=-eq-ok (at_positions rngs positions) _ e4 in
    let (q, e6, e7) =
      >>=-eq-ok (original_id s.current p) _ (ap (original_ids s.current) (sym one) ∙ e0) in
    let whom : q ∷ [] ≡ blamed = ok_injective e7 in
    let (k, at) = original_id_member s.current p e6 in
    let (kept', _, _) =
      restart_result s.current blamed t (survivors_or_abort_ok s.current blamed t a e2) in
    let same : ids ≡ s'.current = ap (λ (r : Restart R). r.current) (ok_injective e5) in
    omega (
      arith,
      survivors_lt s.current k q at,
      length-sort (survivors s.current blamed),
      ap length kept',
      ap length same,
      ap (λ bs. length (survivors s.current bs)) whom,
    )

abort_of_lem : (e : Error) {a : IdentifiableAbort} → abort_of e ≡ some a → e ≡ abort a
abort_of_lem (abort b) q = let same : b ≡ _ = cc q in ap abort same
abort_of_lem (invalid_params x) q = cc q
abort_of_lem (reveal_mismatch x) q = cc q
abort_of_lem (invalid_share x y) q = cc q
abort_of_lem (invalid_product_proof x) q = cc q
abort_of_lem (invalid_opening x) q = cc q
abort_of_lem (invalid_nonce_point x) q = cc q
abort_of_lem (invalid_sig_share x) q = cc q
abort_of_lem (zero_value x) q = cc q
abort_of_lem (not_enough_shares x y) q = cc q
abort_of_lem (presig_store x) q = cc q
abort_of_lem ecdsa q = cc q

new_params_err :
    (n t : ℕ) {e : Error} {a : IdentifiableAbort} → new_params n t ≡ err e → e ≢ abort a
unfolding new_params
new_params_err n t x y = elim (Bool-cases (ltb t 1)) [
  | inl l ↦ cc (rw l at x, y)
  | inr l ↦ elim (Bool-cases (ltb n (2 * t - 1))) [
    | inl m ↦ cc (rw (l, m) at x, y)
    | inr m ↦ cc (rw (l, m) at x)
  ]
]

full_ne_err : (params : Params) {e : Error} → full params ≢ err e
unfolding full
full_ne_err params {e} x =
    elim (new_committee (parties params) params.t)
        as (λ (r : Result Committee).
          (elim r [ ok c ↦ ok c | err e ↦ panicked | panicked ↦ panicked ]) ≡ err e → ⊥) [
            | ok c ↦ λ x. cc x
            | err e ↦ λ x. cc x
            | panicked ↦ λ x. cc x
          ]
      x

everyone : (ps : List PartyId) → All (λ p. Unit {0}) ps
everyone [] = tt
everyone (p ∷ ps) = (tt, everyone ps)

module _ {F G R : Type 0} ⦃f : Field F⦄ ⦃g : Group G⦄ ⦃c : Action F G⦄ ⦃h : Hash⦄
    ⦃pe : PointEncoding G⦄ ⦃d : Digest F⦄ ⦃rng : Rng F R⦄ where
  -- An attempt that aborts blames one party.
  attempt_blames :
      (t : ℕ) (sid : Bytes) (tamper : Option TripleTamper) (s : Restart R) (e : Error)
      (a : IdentifiableAbort)
      → attempt_triples {F = F} {G = G} t sid tamper s ≡ err e
      → e ≡ abort a
      → (p : PartyId) × (a.blamed ≡ p ∷ [])
  unfolding attempt_triples
  attempt_blames t sid tamper s e a x y = elim (>>=-eq-err (new_params (length s.current) t) _ x) [
    | inl z ↦ absurd (new_params_err (length s.current) t z y)
    | inr (params, _, x1) ↦ elim (>>=-eq-err (full params) _ x1) [
      | inl z ↦ absurd (full_ne_err params z)
      | inr (committee, _, x2) ↦
          let (p, one, _) =
            generate_robust-BlamesOne {F = F} {G = G} (λ p. Unit {0}) committee
              (everyone committee.ids) _ s.cur_rngs _ x2 a y in
          (p, one)
    ]
  ]

  restarts_end :
      (spent : Restart R → List R) (t : ℕ) (sid : Bytes) (tamper : Option TripleTamper) (fuel : ℕ)
      (s : Restart R)
      → length s.current < fuel
      → (r : Result (List (TripleShare F × TriplePublic G) × List PartyId)) × (restart_triples spent
            fuel t sid tamper s
          ≡ some r)
  unfolding restart_triples
  restarts_end spent t sid tamper zero s n = absurd (omega arith)
  restarts_end spent t sid tamper (suc fuel) s n =
      by_attempt (restarts_end spent t sid tamper fuel) (attempt_triples t sid tamper s) refl
    where
      after :
          (rec : (s' : Restart R)
            → length s'.current < fuel
            → (r : Result (List (TripleShare F × TriplePublic G) × List PartyId)) × (restart_triples
                  spent fuel t sid tamper s'
                ≡ some r))
          (a : IdentifiableAbort) (p : PartyId)
          → a.blamed ≡ p ∷ []
          → (next : Result (Restart R)) → expel_blamed t s a (spent s) ≡ next
          → (r : Result (List (TripleShare F × TriplePublic G) × List PartyId)) × ((elim next [
            | err e' ↦ some (err e')
            | panicked ↦ some panicked
            | ok s' ↦ restart_triples spent fuel t sid tamper s'
          ])
              ≡ some r)
      after rec a p one (err e) q = (err e, refl)
      after rec a p one panicked q = (panicked, refl)
      after rec a p one (ok s') q =
          rec s' (omega (arith, expel_blamed_shrinks t s s' a (spent s) p one q))

      by_error :
          (rec : (s' : Restart R)
            → length s'.current < fuel
            → (r : Result (List (TripleShare F × TriplePublic G) × List PartyId)) × (restart_triples
                  spent fuel t sid tamper s'
                ≡ some r))
          (e : Error)
          → attempt_triples {F = F} {G = G} t sid tamper s ≡ err e
          → (o : Option IdentifiableAbort) → abort_of e ≡ o
          → (r : Result (List (TripleShare F × TriplePublic G) × List PartyId)) × ((elim o [
            | none ↦ some (err e)
            | some a ↦ elim (expel_blamed t s a (spent s)) [
              | err e' ↦ some (err e')
              | panicked ↦ some panicked
              | ok s' ↦ restart_triples spent fuel t sid tamper s'
            ]
          ])
              ≡ some r)
      by_error rec e x none q = (err e, refl)
      by_error rec e x (some a) q =
          let (p, one) = attempt_blames t sid tamper s e a x (abort_of_lem e q) in
          after rec a p one (expel_blamed t s a (spent s)) refl

      by_attempt :
          (rec : (s' : Restart R)
            → length s'.current < fuel
            → (r : Result (List (TripleShare F × TriplePublic G) × List PartyId)) × (restart_triples
                  spent fuel t sid tamper s'
                ≡ some r))
          (r : Result ((List (TripleShare F × TriplePublic G) × List PartyId) × List R))
          → attempt_triples t sid tamper s ≡ r
          → (out : Result (List (TripleShare F × TriplePublic G) × List PartyId)) × ((elim r [
            | ok done ↦ some (completed s done.0.0 done.0.1)
            | panicked ↦ some panicked
            | err e ↦ elim (abort_of e) [
              | none ↦ some (err e)
              | some a ↦ elim (expel_blamed t s a (spent s)) [
                | err e' ↦ some (err e')
                | panicked ↦ some panicked
                | ok s' ↦ restart_triples spent fuel t sid tamper s'
              ]
            ]
          ])
              ≡ some out)
      by_attempt rec (ok done) x = (completed s done.0.0 done.0.1, refl)
      by_attempt rec panicked x = (panicked, refl)
      by_attempt rec (err e) x = by_error rec e x (abort_of e) refl

  -- `run_triples_with_restart` returns after at most as many attempts as there are parties, and one more, whatever
  -- random sources the failed attempts leave: every abort blames a party, so that each restart has fewer.
  pub run_triples_with_restart_terminates :
      (spent : Restart R → List R) (params : Params) (sid : Bytes) (rngs : List R)
      (tamper : Option TripleTamper)
      → (r : Result (List (TripleShare F × TriplePublic G) × List PartyId))
        × (run_triples_with_restart spent params sid rngs tamper ≡ some r)
  unfolding run_triples_with_restart parties
  run_triples_with_restart_terminates spent params sid rngs tamper =
      restarts_end spent params.t sid tamper (suc params.n) _
        (omega (arith, length-range_from 1 params.n))
