-- ===== src/Policy/Survivors.antt =====
-- Who survives blame: exactly the members that are not blamed, in order, with an honest majority.
use ohm_ecdsa.Prelude.{
  ℕ, ◌+◌, ◌-◌, ◌*◌, ◌≤◌, ◌<◌, ◌≡◌, sym, ap, subst, ◌∙◌, List, [], ◌∷◌, Bool, not, Bool-cases, inl,
  inr, ltb, ◌==◌, if◌then◌else◌, length, filter, All, All-filter, arith,
}
use ohm_ecdsa.Core.{PartyId, ok, new_committee, sort_unstable, ok_injective}
use ohm_ecdsa.Core.Sort.{
  occurrences, IsAscending, IsStrict, occurrences-sort, sort-IsAscending, sort_strict,
}
use ohm_ecdsa.Core.Committees.{IsCommittee, new_committee_accepts}
use ohm_ecdsa.Policy.{contains_id, restart_committee}

occurrences-filter :
    (blamed current : List PartyId) (p : PartyId)
    → occurrences p (filter (λ q. not (contains_id blamed q)) current)
      ≡ (if contains_id blamed p then 0 else occurrences p current)
occurrences-filter blamed [] p = ground arith
occurrences-filter blamed (q ∷ qs) p = elim (Bool-cases (q == p)) [
  | inl e ↦
      let r : q ≡ p = ground arith in
      subst
        (λ x.
          occurrences p (filter (λ q. not (contains_id blamed q)) (x ∷ qs))
          ≡ (if contains_id blamed p then 0 else occurrences p (x ∷ qs)))
        (sym r) (ground (arith, occurrences-filter blamed qs p))
  | inr e ↦ ground (arith, occurrences-filter blamed qs p)
]

pub filter-IsStrict :
    (test : PartyId → Bool) (ps : List PartyId) → IsStrict ps → IsStrict (filter test ps)
filter-IsStrict test [] s = tt
filter-IsStrict test (p ∷ ps) (a, s) = elim (Bool-cases (test p)) [
  | inl e ↦ rw e (All-filter (λ q. p < q) test ps a, filter-IsStrict test ps s)
  | inr e ↦ rw e (filter-IsStrict test ps s)
]

abbrev pub survivors : List PartyId → List PartyId → List PartyId
survivors current blamed = filter (λ p. not (contains_id blamed p)) current

pub restart_result :
    (current blamed : List PartyId) (t : ℕ) {ids : List PartyId}
    → restart_committee current blamed t ≡ ok ids
    → (sort_unstable (survivors current blamed) ≡ ids) × (1 ≤ t) × (2 * t ≤ length ids + 1)
unfolding restart_committee
restart_result current blamed t {ids} e = elim (Bool-cases (ltb t 1)) [
  | inl l ↦ cc (rw l at e)
  | inr l ↦
      elim (Bool-cases (ltb (length (sort_unstable (survivors current blamed))) (2 * t - 1))) [
        | inl m ↦ cc (rw (l, m) at e)
        | inr m ↦
            let q = ok_injective (rw (l, m) at e) in
            (q, ground arith, subst (λ (xs : List PartyId). 2 * t ≤ length xs + 1) q (ground arith))
      ]
]

-- A restart that succeeds keeps each unblamed member as often as it was there and no blamed one, in
-- ascending order, and the survivors have an honest majority for the unchanged threshold.
restart_committee_ok :
    (current blamed : List PartyId) (t : ℕ) {ids : List PartyId}
    → restart_committee current blamed t ≡ ok ids
    → ((p : PartyId)
        → occurrences p ids ≡ (if contains_id blamed p then 0 else occurrences p current))
      × IsAscending ids
      × (1 ≤ t)
      × (2 * t ≤ length ids + 1)
restart_committee_ok current blamed t {ids} e =
    let (q, h, n) = restart_result current blamed t e in
    (
      λ p.
          sym (ap (occurrences p) q)
          ∙ (occurrences-sort p (survivors current blamed) ∙ occurrences-filter blamed current p),
      subst IsAscending q (sort-IsAscending (survivors current blamed)),
      h,
      n,
    )

-- A restart within a committee gives a list that `Committee::new` accepts as it is, with the same threshold.
pub restart_committee-new_committee :
    (current blamed : List PartyId) (t : ℕ) {ids : List PartyId}
    → IsCommittee current t
    → restart_committee current blamed t ≡ ok ids
    → new_committee ids t ≡ ok (record { ids = ids; t = t })
restart_committee-new_committee current blamed t {ids} c e =
    let (q, h, n) = restart_result current blamed t e in
    let kept : survivors current blamed ≡ ids =
      sym (sort_strict _ (filter-IsStrict _ current c.strict)) ∙ q in
    new_committee_accepts ids t (λ z. let l = ap length z in omega arith)
      (record {
        strict = subst IsStrict kept (filter-IsStrict _ current c.strict);
        positive = subst (All (λ p. 1 ≤ p)) kept (All-filter (λ p. 1 ≤ p) _ current c.positive);
        threshold = h;
        honest_majority = n;
      })
