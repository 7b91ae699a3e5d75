-- ===== src/Sim/Restart/Members.antt =====
-- Who takes part in an attempt of `run_triples_with_restart` of src/runtime/sim.rs: the parties that no attempt before
-- it blamed, and which of them a blamed list leaves, in original ids.
use ohm_ecdsa.Prelude.{
  ℕ, zero, suc, ◌+◌, ◌≡◌, ◌≢◌, refl, sym, ap, ◌∙◌, List, [], ◌∷◌, ◌++◌, some, Bool, true, false,
  ◌||◌, ◌==◌, Bool-cases, inl, inr, if◌then◌else◌, length, get_elem?, Distinct, Distinct-get_elem?,
  arith,
}
use ohm_ecdsa.Core.{
  PartyId, IdentifiableAbort, range_from, insert_id, sort_unstable, ok, expect, >>=-eq-ok,
  expect-eq-ok, ok_injective,
}
use ohm_ecdsa.Core.Sort.{IsStrict, sort_strict}
use ohm_ecdsa.Policy.{contains_id}
use ohm_ecdsa.Policy.Survivors.{survivors, restart_result, filter-IsStrict}
use ohm_ecdsa.Sim.Restart.{
  Restart, original_id, original_ids, record_blame, survivor_positions, at_positions,
  survivors_or_abort, expel_blamed,
}
use ohm_ecdsa.Sim.Restart.Terminates.{survivors_or_abort_ok}

contains_id-insert_id :
    (p q : PartyId) (ps : List PartyId) → contains_id (insert_id q ps) p ≡ contains_id (q ∷ ps) p
contains_id-insert_id p q [] = refl
contains_id-insert_id p q (x ∷ ps) = ground (arith, contains_id-insert_id p q ps)

contains_id-sort :
    (p : PartyId) (ps : List PartyId) → contains_id (sort_unstable ps) p ≡ contains_id ps p
contains_id-sort p [] = refl
contains_id-sort p (q ∷ ps) =
    contains_id-insert_id p q (sort_unstable ps)
    ∙ ap (λ (b : Bool). if q == p then true else b) (contains_id-sort p ps)

contains_id-append :
    (p : PartyId) (a b : List PartyId)
    → contains_id (a ++ b) p ≡ (contains_id a p || contains_id b p)
contains_id-append p [] b = refl
contains_id-append p (q ∷ a) b = ground (arith, contains_id-append p a b)

contains_id-record_blame :
    (p : PartyId) (all bs : List PartyId)
    → contains_id (record_blame all bs) p ≡ (contains_id all p || contains_id bs p)
unfolding record_blame
contains_id-record_blame p all [] = ground arith
contains_id-record_blame p all (b ∷ bs) = elim (Bool-cases (contains_id all b)) [
  | inl h ↦ rw (h, contains_id-record_blame p all bs) (known h (b == p) refl)
  | inr h ↦
      rw (h, contains_id-record_blame p (all ++ (b ∷ [])) bs, contains_id-append p all (b ∷ []))
        (fresh (contains_id all p) (b == p))
]
  where
    known :
        contains_id all b ≡ true
        → (e : Bool) → (b == p) ≡ e
        → (contains_id all p || contains_id bs p)
          ≡ (contains_id all p || (if e then true else contains_id bs p))
    known t false q = refl
    known t true q =
        let same : p ≡ b = ground arith in
        let here : contains_id all p ≡ true = ap (contains_id all) same ∙ t in rw here refl

    fresh :
        (a e : Bool)
        → ((a || (if e then true else false)) || contains_id bs p)
          ≡ (a || (if e then true else contains_id bs p))
    fresh true true = refl
    fresh true false = refl
    fresh false true = refl
    fresh false false = refl

blame-or :
    (all bs : List PartyId) (p : PartyId)
    → contains_id (sort_unstable (record_blame all bs)) p ≡ (contains_id all p || contains_id bs p)
blame-or all bs p = contains_id-sort p (record_blame all bs) ∙ contains_id-record_blame p all bs

-- Leaving out two lists of parties is leaving out what is in either.
survivors-survivors :
    (ps a b c : List PartyId)
    → ((p : PartyId) → contains_id c p ≡ (contains_id a p || contains_id b p))
    → survivors (survivors ps a) b ≡ survivors ps c
survivors-survivors [] a b c h = refl
survivors-survivors (p ∷ ps) a b c h = elim (Bool-cases (contains_id a p)) [
  | inl t ↦ rw (h p, t) (survivors-survivors ps a b c h)
  | inr t ↦ elim (Bool-cases (contains_id b p)) [
    | inl u ↦ rw (h p, t, u) (survivors-survivors ps a b c h)
    | inr u ↦ rw (h p, t, u) (ap (λ qs. p ∷ qs) (survivors-survivors ps a b c h))
  ]
]

pub survivors-nil : (ps : List PartyId) → ps ≡ survivors ps []
survivors-nil [] = refl
survivors-nil (p ∷ ps) = ap (λ qs. p ∷ qs) (survivors-nil ps)

-- The members of a restart are the parties that are not blamed so far.
pub expel_blamed-survivors :
    {R : Type 0} (ps : List PartyId) (t : ℕ) (s s' : Restart R) (a : IdentifiableAbort)
    (rngs : List R)
    → IsStrict ps
    → s.current ≡ survivors ps s.blamed_all
    → expel_blamed t s a rngs ≡ ok s'
    → s'.current ≡ survivors ps s'.blamed_all
unfolding expel_blamed
expel_blamed-survivors {R} ps t s s' a rngs strict inv e =
    let (blamed, e0, e1) = >>=-eq-ok (original_ids s.current a.blamed) _ e in
    let (ids, e2, e3) = >>=-eq-ok (survivors_or_abort s.current blamed t a) _ e1 in
    let (positions, _, e4) = >>=-eq-ok (survivor_positions s.current ids) _ e3 in
    let (kept, _, e5) = >>=-eq-ok (at_positions rngs positions) _ e4 in
    let (q, _, _) =
      restart_result s.current blamed t (survivors_or_abort_ok s.current blamed t a e2) in
    let same : ids ≡ s'.current = ap (λ (r : Restart R). r.current) (ok_injective e5) in
    let blame : sort_unstable (record_blame s.blamed_all blamed) ≡ s'.blamed_all =
      ap (λ (r : Restart R). r.blamed_all) (ok_injective e5) in
    let left : survivors s.current blamed ≡ survivors ps s'.blamed_all =
      ap (λ c. survivors c blamed) inv
      ∙ (survivors-survivors ps s.blamed_all blamed _ (blame-or s.blamed_all blamed)
          ∙ ap (survivors ps) blame) in
    sym same ∙ (sym q ∙ (ap sort_unstable left ∙ sort_strict _ (filter-IsStrict _ ps strict)))

-- Of the members, those that are left at places other than the blamed ones are those that are not blamed.
original_ids-contains_id :
    (current bs : List PartyId) (k : ℕ) {originals : List PartyId} {p : PartyId}
    → Distinct current
    → original_ids current bs ≡ ok originals
    → get_elem? current k ≡ some p
    → contains_id originals p ≡ contains_id bs (suc k)
unfolding original_ids original_id
original_ids-contains_id current [] k {originals} {p} d e g =
    let q : [] ≡ originals = ok_injective e in ap (λ xs. contains_id xs p) (sym q)
original_ids-contains_id current (zero ∷ bs) k d e g = cc e
original_ids-contains_id current (suc b ∷ bs) k {originals} {p} d e g =
    let (x, e0, e1) = >>=-eq-ok (expect (get_elem? current b)) _ e in
    let (rest, e2, e3) = >>=-eq-ok (original_ids current bs) _ e1 in
    let q : x ∷ rest ≡ originals = ok_injective e3 in
    let rec = original_ids-contains_id current bs k d e2 g in
    let at : get_elem? current b ≡ some x = expect-eq-ok (get_elem? current b) e0 in
    ap (λ xs. contains_id xs p) (sym q) ∙ elim (Bool-cases (b == k)) [
      | inl t ↦
          let same : b ≡ k = ground arith in
          let here : x ≡ p = cc (sym at ∙ (ap (get_elem? current) same ∙ g)) in
          let u : (x == p) ≡ true = ground arith in
          let v : (suc b == suc k) ≡ true = ground arith in rw (u, v) refl
      | inr t ↦
          let apart : x ≢ p = Distinct-get_elem? current b k d at g (ground arith) in
          let u : (x == p) ≡ false = ground (arith, apart) in
          let v : (suc b == suc k) ≡ false = ground arith in rw (u, v) rec
    ]

-- The places that are not blamed, in original ids, are the members that are not blamed.
original_ids-from :
    (current blamed : List PartyId) (k : ℕ) (members : List PartyId) {originals : List PartyId}
    → Distinct current
    → original_ids current blamed ≡ ok originals
    → ((m : ℕ) (p : PartyId) → get_elem? members m ≡ some p → get_elem? current (k + m) ≡ some p)
    → original_ids current (survivors (range_from (suc k) (length members)) blamed)
      ≡ ok (survivors members originals)
unfolding original_ids original_id
original_ids-from current blamed k [] d e at = refl
original_ids-from current blamed k (p ∷ members) {originals} d e at =
    let here : get_elem? current k ≡ some p = ap (get_elem? current) place ∙ at 0 p refl in
    let same = original_ids-contains_id current blamed k d e here in
    let rec =
      original_ids-from current blamed (suc k) members d e
        (λ m q g. ap (get_elem? current) (next m) ∙ at (suc m) q g) in
    elim (Bool-cases (contains_id blamed (suc k))) [
      | inl t ↦ rw (t, same ∙ t) rec
      | inr t ↦ rw (t, same ∙ t, here, rec) refl
    ]
  where
    place : k ≡ k + 0
    place = omega arith

    next : (m : ℕ) → suc k + m ≡ k + suc m
    next m = omega arith

pub original_ids-survivors :
    (current blamed : List PartyId) {originals : List PartyId}
    → Distinct current
    → original_ids current blamed ≡ ok originals
    → original_ids current (survivors (range_from 1 (length current)) blamed)
      ≡ ok (survivors current originals)
original_ids-survivors current blamed d e =
    original_ids-from current blamed 0 current d e
      (λ m p g. ap (get_elem? current) (zero_place m) ∙ g)
  where
    zero_place : (m : ℕ) → 0 + m ≡ m
    zero_place m = omega arith

-- The parties that are left after the attempt that completes are those that are not blamed at all.
pub survivors-reported :
    (ps current before originals : List PartyId)
    → current ≡ survivors ps before
    → survivors current originals ≡ survivors ps (sort_unstable (record_blame before originals))
survivors-reported ps current before originals inv =
    ap (λ c. survivors c originals) inv
    ∙ survivors-survivors ps before originals _ (blame-or before originals)

pub survivors-IsStrict : (ps blamed : List PartyId) → IsStrict ps → IsStrict (survivors ps blamed)
survivors-IsStrict ps blamed s = filter-IsStrict _ ps s
