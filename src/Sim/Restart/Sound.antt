-- ===== src/Sim/Restart/Sound.antt =====
-- What `run_triples_with_restart` of src/runtime/sim.rs returns: a triple of the parties of the attempt that
-- completed, after the ones that it blamed itself.
use ohm_ecdsa.Prelude.{
  ℕ, zero, suc, ◌≤◌, ◌<◌, ◌≡◌, refl, sym, ap, subst, ◌∙◌, List, ◌∷◌, Option, none, some, ◌==◌,
  if◌then◌else◌, length, map, Distinct, arith,
}
use ohm_ecdsa.Core.{
  PartyId, IdentifiableAbort, Params, new_params, range_from, parties, sort_unstable, full, Result,
  ok, err, panicked, >>=-eq-ok, ok_injective,
}
use ohm_ecdsa.Core.Sort.{IsStrict, IsStrict-Distinct, length-sort}
use ohm_ecdsa.Core.Committees.{
  full_ok, new_params-IsCommittee, All-range_from, length-range_from, range_from-IsStrict,
}
use ohm_ecdsa.Encoding.{Bytes, Hash, PointEncoding}
use ohm_ecdsa.Rng.{Rng}
use ohm_ecdsa.Field.{Field, order}
use ohm_ecdsa.Curve.{Group, Action}
use ohm_ecdsa.Shamir.Lagrange.{IsQuorum}
use ohm_ecdsa.Dleq.{Digest}
use ohm_ecdsa.Policy.Survivors.{survivors, restart_result}
use ohm_ecdsa.Presign.{TripleShare, TriplePublic}
use ohm_ecdsa.Triples.{TripleTamper}
use ohm_ecdsa.Triples.Generate.{IsTriple}
use ohm_ecdsa.Triples.Robust.{generate_robust_with_committee}
use ohm_ecdsa.Triples.Robust.Generate.{generate_robust-IsTriple}
use ohm_ecdsa.Sim.Restart.{
  Restart, original_ids, survivor_positions, at_positions, survivors_or_abort, expel_blamed,
  record_blame, abort_of, poison_sid, attempt_triples, completed, restart_triples,
  run_triples_with_restart,
}
use ohm_ecdsa.Sim.Restart.Members.{
  expel_blamed-survivors, original_ids-survivors, survivors-reported, survivors-IsStrict,
  survivors-nil,
}
use ohm_ecdsa.Sim.Restart.Terminates.{survivors_le, survivors_or_abort_ok}

-- No restart has more parties.
expel_blamed_le :
    {R : Type 0} (t : ℕ) (s s' : Restart R) (a : IdentifiableAbort) (rngs : List R)
    → expel_blamed t s a rngs ≡ ok s'
    → length s'.current ≤ length s.current
unfolding expel_blamed
expel_blamed_le {R} t s s' a rngs e =
    let (blamed, e0, e1) = >>=-eq-ok (original_ids s.current a.blamed) _ e in
    let (ids, e2, e3) = >>=-eq-ok (survivors_or_abort s.current blamed t a) _ e1 in
    let (positions, _, e4) = >>=-eq-ok (survivor_positions s.current ids) _ e3 in
    let (kept, _, e5) = >>=-eq-ok (at_positions rngs positions) _ e4 in
    let (q, _, _) =
      restart_result s.current blamed t (survivors_or_abort_ok s.current blamed t a e2) in
    let same : ids ≡ s'.current = ap (λ (r : Restart R). r.current) (ok_injective e5) in
    omega (
      arith,
      survivors_le s.current blamed,
      length-sort (survivors s.current blamed),
      ap length q,
      ap length same,
    )

module _ {F G : Type 0} ⦃f : Field F⦄ ⦃g : Group G⦄ ⦃c : Action F G⦄ where
  -- The parties ps hold a triple, but for those that were blamed: the members of the last attempt are those of ps
  -- that were not blamed before it, and the records stand for the parties of ps that were not blamed at all.
  pub record IsTripleOf (ps : List PartyId) (t : ℕ) (o : TripleShare F × TriplePublic G)
      (out : List (TripleShare F × TriplePublic G)) (all : List PartyId) : Type 0 where
    pub before : List PartyId
    pub members : List PartyId
    pub unblamed : members ≡ survivors ps before
    pub holders : original_ids members (map (λ o. o.0.index) (o ∷ out)) ≡ ok (survivors ps all)
    pub triple : IsTriple t (map (λ o. o.0.index) (o ∷ out)) o.1 (o ∷ out)

module _ {F G R : Type 0} ⦃f : Field F⦄ ⦃g : Group G⦄ ⦃c : Action F G⦄ ⦃h : Hash⦄
    ⦃pe : PointEncoding G⦄ ⦃d : Digest F⦄ ⦃rng : Rng F R⦄ where
  attempt-IsTriple :
      (limit t : ℕ) (sid : Bytes) (tamper : Option TripleTamper) (s : Restart R)
      (o : TripleShare F × TriplePublic G) (out : List (TripleShare F × TriplePublic G))
      (blamed : List PartyId) {rngs' : List R}
      → length s.current ≤ limit
      → limit < order F
      → attempt_triples t sid tamper s ≡ ok ((o ∷ out, blamed), rngs')
      → IsTriple t (survivors (range_from 1 (length s.current)) blamed) o.1 (o ∷ out)
  unfolding attempt_triples parties
  attempt-IsTriple limit t sid tamper s o out blamed {rngs'} le small e =
      let (params, p, e1) = >>=-eq-ok (new_params (length s.current) t) _ e in
      let (committee, q, e2) = >>=-eq-ok (full params) _ e1 in
      let (en, et, cm) = new_params-IsCommittee (length s.current) t params p in
      let same : committee ≡ record { ids = parties params; t = params.t } =
        ok_injective (sym q ∙ full_ok params cm) in
      let sid' = poison_sid sid s.attempt in
      let tamper' = if s.attempt == 0 then tamper else none in
      let quorum : IsQuorum F (parties params) = (
        IsStrict-Distinct (parties params) cm.strict,
        All-range_from (λ p. p < order F) 1 params.n (λ p l u. omega arith),
      ) in
      let good =
        generate_robust-IsTriple (record { ids = parties params; t = params.t }) sid' s.cur_rngs
          tamper' o out blamed quorum cm.threshold cm.honest_majority
          (ap (λ c. generate_robust_with_committee c sid' s.cur_rngs tamper') (sym same) ∙ e2) in
      subst (λ n. IsTriple t (survivors (range_from 1 n) blamed) o.1 (o ∷ out)) en
        (subst (λ u. IsTriple u (survivors (range_from 1 params.n) blamed) o.1 (o ∷ out)) et good)

  completed_lem :
      (s : Restart R) (triple : List (TripleShare F × TriplePublic G)) (blamed : List PartyId)
      {out : List (TripleShare F × TriplePublic G)} {all : List PartyId}
      → completed s triple blamed ≡ ok (out, all)
      → (originals : List PartyId) × (original_ids s.current blamed ≡ ok originals)
        × (triple ≡ out)
        × (sort_unstable (record_blame s.blamed_all originals) ≡ all)
  unfolding completed
  completed_lem s triple blamed e =
      let (originals, p, q) = >>=-eq-ok (original_ids s.current blamed) _ e in
      (
        originals,
        p,
        ap (λ (t : List (TripleShare F × TriplePublic G) × List PartyId). t.0) (ok_injective q),
        ap (λ (t : List (TripleShare F × TriplePublic G) × List PartyId). t.1) (ok_injective q),
      )

  completed-IsTripleOf :
      (ps : List PartyId) (t : ℕ) (sid : Bytes) (tamper : Option TripleTamper) (s : Restart R)
      (o : TripleShare F × TriplePublic G) (triple out : List (TripleShare F × TriplePublic G))
      (blamed all : List PartyId) {rngs' : List R}
      → IsStrict ps
      → s.current ≡ survivors ps s.blamed_all
      → length s.current ≤ length ps
      → length ps < order F
      → attempt_triples t sid tamper s ≡ ok ((triple, blamed), rngs')
      → completed s triple blamed ≡ ok (o ∷ out, all)
      → IsTripleOf ps t o out all
  completed-IsTripleOf ps t sid tamper s o triple out blamed all {rngs'} strict inv le small x e =
      let (originals, named, same, reported) = completed_lem s triple blamed e in
      let good =
        attempt-IsTriple (length ps) t sid tamper s o out blamed le small
          (x ∙ ap (λ l. ok ((l, blamed), rngs')) same) in
      let distinct : Distinct s.current = subst Distinct (sym inv) (
        IsStrict-Distinct (survivors ps s.blamed_all)
          (survivors-IsStrict ps s.blamed_all strict)) in
      record {
        before = s.blamed_all;
        members = s.current;
        unblamed = inv;
        holders =
            ap (original_ids s.current) good.indices
            ∙ (original_ids-survivors s.current blamed distinct named
                ∙ ap ok (
                    survivors-reported ps s.current s.blamed_all originals inv
                    ∙ ap (survivors ps) reported));
        triple = subst (λ ids. IsTriple t ids o.1 (o ∷ out)) (sym good.indices) good;
      }

  restart-IsTripleOf :
      (spent : Restart R → List R) (ps : List PartyId) (t : ℕ) (sid : Bytes)
      (tamper : Option TripleTamper) (fuel : ℕ) (s : Restart R) (o : TripleShare F × TriplePublic G)
      (out : List (TripleShare F × TriplePublic G)) (all : List PartyId)
      → IsStrict ps
      → s.current ≡ survivors ps s.blamed_all
      → length s.current ≤ length ps
      → length ps < order F
      → restart_triples spent fuel t sid tamper s ≡ some (ok (o ∷ out, all))
      → IsTripleOf ps t o out all
  unfolding restart_triples
  restart-IsTripleOf spent ps t sid tamper zero s o out all strict inv le small e = cc e
  restart-IsTripleOf spent ps t sid tamper (suc fuel) s o out all strict inv le small e =
      by_attempt
        (λ s' i n x. restart-IsTripleOf spent ps t sid tamper fuel s' o out all strict i n small x)
        (attempt_triples t sid tamper s) refl e
    where
      by_attempt :
          (rec : (s' : Restart R)
            → s'.current ≡ survivors ps s'.blamed_all
            → length s'.current ≤ length ps
            → restart_triples {F = F} {G = G} spent fuel t sid tamper s' ≡ some (ok (o ∷ out, all))
            → IsTripleOf ps t o out all)
          (r : Result ((List (TripleShare F × TriplePublic G) × List PartyId) × List R))
          → attempt_triples t sid tamper s ≡ r
          → (elim r [
            | ok done ↦ some (completed s done.0.0 done.0.1)
            | panicked ↦ some panicked
            | err e ↦ elim (abort_of e) [
              | none ↦ some (err e)
              | some a ↦ elim (expel_blamed t s a (spent s)) [
                | err e' ↦ some (err e')
                | panicked ↦ some panicked
                | ok s' ↦ restart_triples {F = F} {G = G} spent fuel t sid tamper s'
              ]
            ]
          ])
            ≡ some (ok (o ∷ out, all))
          → IsTripleOf ps t o out all
      by_attempt rec (ok ((triple, blamed), rngs')) x e =
          completed-IsTripleOf ps t sid tamper s o triple out blamed all strict inv le small x
            (cc e)
      by_attempt rec panicked x e = cc e
      by_attempt rec (err y) x e =
          elim (abort_of y)
              as (λ (m : Option IdentifiableAbort).
                (elim m [
                  | none ↦ some (err y)
                  | some a ↦ elim (expel_blamed t s a (spent s)) [
                    | err e' ↦ some (err e')
                    | panicked ↦ some panicked
                    | ok s' ↦ restart_triples {F = F} {G = G} spent fuel t sid tamper s'
                  ]
                ])
                  ≡ some (ok (o ∷ out, all))
                → IsTripleOf ps t o out all) [
                  | none ↦ λ e. cc e
                  | some a ↦ λ e.
                      elim (expel_blamed t s a (spent s))
                          as (λ (next : Result (Restart R)).
                            expel_blamed t s a (spent s) ≡ next
                            → (elim next [
                              | err e' ↦ some (err e')
                              | panicked ↦ some panicked
                              | ok s' ↦ restart_triples {F = F} {G = G} spent fuel t sid tamper s'
                            ])
                              ≡ some (ok (o ∷ out, all))
                            → IsTripleOf ps t o out all) [
                              | err z ↦ λ q e. cc e
                              | panicked ↦ λ q e. cc e
                              | ok s' ↦ λ q e.
                                  let n = expel_blamed_le t s s' a (spent s) q in
                                  rec s' (expel_blamed-survivors ps t s s' a (spent s) strict inv q)
                                    (omega arith) e
                            ]
                        refl e
                ]
            e

  -- For fewer parties than the field's order: when `run_triples_with_restart` returns a record, whatever random
  -- sources failed attempts leave, the records that it returns are a triple for the unchanged threshold, and they
  -- are one for each of the parties 1 to n that is not in the returned blame, in their order, under the indices of
  -- the last attempt. That attempt ran over the parties that the attempts before it did not blame.
  pub run_triples_with_restart-IsTripleOf :
      (spent : Restart R → List R) (params : Params) (sid : Bytes) (rngs : List R)
      (tamper : Option TripleTamper) (o : TripleShare F × TriplePublic G)
      (out : List (TripleShare F × TriplePublic G)) (all : List PartyId)
      → params.n < order F
      → run_triples_with_restart spent params sid rngs tamper ≡ some (ok (o ∷ out, all))
      → IsTripleOf (parties params) params.t o out all
  unfolding run_triples_with_restart parties
  run_triples_with_restart-IsTripleOf spent params sid rngs tamper o out all small e =
      let n = length-range_from 1 params.n in
      restart-IsTripleOf spent (range_from 1 params.n) params.t sid tamper (suc params.n) _ o out
        all (range_from-IsStrict 1 params.n) (survivors-nil (range_from 1 params.n)) (omega arith)
        (omega (arith, n)) e
