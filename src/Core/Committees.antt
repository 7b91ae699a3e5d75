-- ===== src/Core/Committees.antt =====
-- `Committee::new` of src/lib.rs: what an accepted committee is, and which id lists are accepted.
use ohm_ecdsa.Prelude.{
  ℕ, zero, suc, ◌<◌, ◌+◌, ◌-◌, ◌*◌, ◌≤◌, ◌≡◌, ◌≢◌, refl, sym, ap, ◌∙◌, List, [], ◌∷◌, false,
  Bool-cases, inl, inr, ltb, ◌==◌, length, All, arith, subst,
}
use ohm_ecdsa.Core.{
  PartyId, Params, new_params, range_from, parties, full, Result, panicked, err, Committee, ok,
  check_ids, sort_unstable, any_equal_window, new_committee, ok_injective,
}
use ohm_ecdsa.Core.Sort.{
  occurrences, IsStrict, occurrences-sort, length-sort, sort-IsAscending, windows-IsStrict,
  IsStrict-windows, sort_strict, IsAscending,
}

-- Distinct ids from 1 up, and an honest majority for the threshold.
pub record IsCommittee (ids : List PartyId) (t : ℕ) : Type 0 where
  pub strict : IsStrict ids
  pub positive : All (λ p. 1 ≤ p) ids
  pub threshold : 1 ≤ t
  pub honest_majority : 2 * t ≤ length ids + 1

above : (p : PartyId) (ps : List PartyId) → 1 ≤ p → All (λ q. p ≤ q) ps → All (λ q. 1 ≤ q) ps
above p [] h a = tt
above p (q ∷ qs) h (b, a) = (omega arith, above p qs h a)

check_ids_ok :
    (t : ℕ) (ps : List PartyId) {c : Committee}
    → IsAscending ps
    → check_ids t ps ≡ ok c
    → (c.t ≡ t) × (c.ids ≡ ps) × IsStrict ps × All (λ p. 1 ≤ p) ps
unfolding check_ids
check_ids_ok t [] s e = cc
check_ids_ok t (p ∷ ps) (a, s) e = elim (Bool-cases (p == 0)) [
  | inl z ↦ cc (rw z at e)
  | inr z ↦ elim (Bool-cases (any_equal_window (p ∷ ps))) [
    | inl w ↦ cc (rw (z, w) at e)
    | inr w ↦
        let q = ok_injective (rw (z, w) at e) in
        (
          ap (λ (c : Committee). c.t) (sym q),
          ap (λ (c : Committee). c.ids) (sym q),
          windows-IsStrict (p ∷ ps) (a, s) w,
          (ground arith, above p ps (ground arith) a),
        )
  ]
]

-- An accepted committee has the given threshold and the given ids, each as often, and is a committee.
new_committee_ok :
    (ids : List PartyId) (t : ℕ) {c : Committee}
    → new_committee ids t ≡ ok c
    → (c.t ≡ t) × ((p : PartyId) → occurrences p c.ids ≡ occurrences p ids) × IsCommittee c.ids c.t
unfolding new_committee
new_committee_ok ids t {c} e = elim (Bool-cases (ltb t 1)) [
  | inl l ↦ cc (rw l at e)
  | inr l ↦ elim (Bool-cases (ltb (length ids) (2 * t - 1))) [
    | inl m ↦ cc (rw (l, m) at e)
    | inr m ↦
        let (q, i, s, a) =
          check_ids_ok t (sort_unstable ids) (sort-IsAscending ids) (rw (l, m) at e) in
        (
          q,
          λ p. ap (occurrences p) i ∙ occurrences-sort p ids,
          record {
            strict = subst IsStrict (sym i) s;
            positive = subst (All (λ p. 1 ≤ p)) (sym i) a;
            threshold = subst (λ n. 1 ≤ n) (sym q) (ground arith);
            honest_majority =
                subst (λ n. 2 * n ≤ length c.ids + 1) (sym q)
                  (let n = ap length i ∙ length-sort ids in ground arith);
          },
        )
  ]
]

-- Every committee in order is accepted, unchanged.
pub new_committee_accepts :
    (ids : List PartyId) (t : ℕ)
    → ids ≢ []
    → IsCommittee ids t
    → new_committee ids t ≡ ok (record { ids = ids; t = t })
unfolding new_committee check_ids
new_committee_accepts [] t ne c = absurd (ne refl)
new_committee_accepts (p ∷ ps) t ne c =
    let (h, _) = c.positive in
    let l : ltb t 1 ≡ false = (let b = c.threshold in ground arith) in
    let m : ltb (length (p ∷ ps)) (2 * t - 1) ≡ false =
      (let b = c.honest_majority in ground arith) in
    let z : (p == 0) ≡ false = ground arith in
    rw (l, m, sort_strict (p ∷ ps) c.strict, z, IsStrict-windows (p ∷ ps) c.strict) refl

-- For parties that are a committee, `Committee::full` does not panic.
pub full_ok :
    (params : Params)
    → IsCommittee (parties params) params.t
    → full params ≡ ok (record { ids = parties params; t = params.t })
unfolding full
full_ok params cm =
    ap (λ (r : Result Committee). elim r [ ok c ↦ ok c | err e ↦ panicked | panicked ↦ panicked ])
      (new_committee_accepts (parties params) params.t
        (λ e.
          let l = ap length e in let t1 = cm.threshold in let n = cm.honest_majority in omega arith)
        cm)

pub length-range_from : (a n : ℕ) → length (range_from a n) ≡ n
length-range_from a zero = refl
length-range_from a (suc n) = ap suc (length-range_from (suc a) n)

-- The ids of a range are bounded on both sides.
pub All-range_from :
    (P : ℕ → Type 0) (a n : ℕ) → ((p : ℕ) → a ≤ p → p < a + n → P p) → All P (range_from a n)
All-range_from P a zero h = tt
All-range_from P a (suc n) h = (
  h a (omega arith) (omega arith),
  All-range_from P (suc a) n (λ p l u. h p (omega arith) (omega arith)),
)

pub range_from-IsStrict : (a n : ℕ) → IsStrict (range_from a n)
range_from-IsStrict a zero = tt
range_from-IsStrict a (suc n) =
    (All-range_from (λ p. a < p) (suc a) n (λ p l u. omega arith), range_from-IsStrict (suc a) n)

-- The parties of accepted params are a committee.
pub new_params-IsCommittee :
    (n t : ℕ) (params : Params)
    → new_params n t ≡ ok params
    → (params.n ≡ n) × (params.t ≡ t) × IsCommittee (parties params) params.t
unfolding new_params parties
new_params-IsCommittee n t params e = elim (Bool-cases (ltb t 1)) [
  | inl l ↦ cc (rw l at e)
  | inr l ↦ elim (Bool-cases (ltb n (2 * t - 1))) [
    | inl m ↦ cc (rw (l, m) at e)
    | inr m ↦
        let q = ok_injective (rw (l, m) at e) in
        let en : n ≡ params.n = ap (λ (p : Params). p.n) q in
        let et : t ≡ params.t = ap (λ (p : Params). p.t) q in
        (
          sym en,
          sym et,
          record {
            strict = range_from-IsStrict 1 params.n;
            positive = All-range_from (λ p. 1 ≤ p) 1 params.n (λ p l u. l);
            threshold = ground arith;
            honest_majority = ground (arith, length-range_from 1 params.n);
          },
        )
  ]
]
