-- ===== src/Core/Sort.antt =====
-- `sort_unstable` of src/lib.rs: the sorted list is ascending and has the same ids, each as often.
use ohm_ecdsa.Prelude.{
  ℕ, suc, ◌≤◌, ◌<◌, ◌≡◌, refl, ap, ◌∙◌, List, [], ◌∷◌, false, Bool-cases, inl, inr, ltb, ◌==◌,
  if◌then◌else◌, length, All, Distinct, ◌≢◌, arith,
}
use ohm_ecdsa.Core.{PartyId, insert_id, sort_unstable, any_equal_window}

-- How often an id occurs.
abbrev pub occurrences : PartyId → List PartyId → ℕ
occurrences p [] = 0
occurrences p (q ∷ qs) = if q == p then suc (occurrences p qs) else occurrences p qs

abbrev pub IsAscending : List PartyId → Type 0
IsAscending [] = Unit
IsAscending (p ∷ ps) = All (λ q. p ≤ q) ps × IsAscending ps

-- Ascending, with no id twice.
abbrev pub IsStrict : List PartyId → Type 0
IsStrict [] = Unit
IsStrict (p ∷ ps) = All (λ q. p < q) ps × IsStrict ps

occurrences-insert_id :
    (x p : PartyId) (ps : List PartyId) → occurrences x (insert_id p ps) ≡ occurrences x (p ∷ ps)
occurrences-insert_id x p [] = refl
occurrences-insert_id x p (q ∷ qs) = ground (arith, occurrences-insert_id x p qs)

pub occurrences-sort :
    (x : PartyId) (ps : List PartyId) → occurrences x (sort_unstable ps) ≡ occurrences x ps
occurrences-sort x [] = refl
occurrences-sort x (p ∷ ps) =
    occurrences-insert_id x p (sort_unstable ps)
    ∙ ap (λ n. if p == x then suc n else n) (occurrences-sort x ps)

length-insert_id : (p : PartyId) (ps : List PartyId) → length (insert_id p ps) ≡ suc (length ps)
length-insert_id p [] = refl
length-insert_id p (q ∷ qs) = ground (arith, length-insert_id p qs)

pub length-sort : (ps : List PartyId) → length (sort_unstable ps) ≡ length ps
length-sort [] = refl
length-sort (p ∷ ps) = length-insert_id p (sort_unstable ps) ∙ ap suc (length-sort ps)

All-insert_id :
    (P : PartyId → Type 0) (p : PartyId) (ps : List PartyId)
    → P p
    → All P ps
    → All P (insert_id p ps)
All-insert_id P p [] h a = (h, tt)
All-insert_id P p (q ∷ qs) h (b, a) = elim (Bool-cases (ltb q p)) [
  | inl e ↦ rw e (b, All-insert_id P p qs h a)
  | inr e ↦ rw e (h, (b, a))
]

All-le_trans :
    (p q : PartyId) (qs : List PartyId) → p ≤ q → All (λ r. q ≤ r) qs → All (λ r. p ≤ r) qs
All-le_trans p q [] h a = tt
All-le_trans p q (r ∷ rs) h (b, a) = (omega arith, All-le_trans p q rs h a)

insert_id-IsAscending :
    (p : PartyId) (ps : List PartyId) → IsAscending ps → IsAscending (insert_id p ps)
insert_id-IsAscending p [] s = (tt, tt)
insert_id-IsAscending p (q ∷ qs) (a, s) = elim (Bool-cases (ltb q p)) [
  | inl e ↦ rw e (All-insert_id (λ r. q ≤ r) p qs (ground arith) a, insert_id-IsAscending p qs s)
  | inr e ↦ rw e ((ground arith, All-le_trans p q qs (ground arith) a), (a, s))
]

pub sort-IsAscending : (ps : List PartyId) → IsAscending (sort_unstable ps)
sort-IsAscending [] = tt
sort-IsAscending (p ∷ ps) = insert_id-IsAscending p (sort_unstable ps) (sort-IsAscending ps)

All-lt : (p q : PartyId) (qs : List PartyId) → p < q → All (λ r. q ≤ r) qs → All (λ r. p < r) qs
All-lt p q [] h a = tt
All-lt p q (r ∷ rs) h (b, a) = (omega arith, All-lt p q rs h a)

-- An ascending list without equal neighbours is strict.
pub windows-IsStrict :
    (ps : List PartyId) → IsAscending ps → any_equal_window ps ≡ false → IsStrict ps
unfolding any_equal_window
windows-IsStrict [] s e = tt
windows-IsStrict (p ∷ []) s e = (tt, tt)
windows-IsStrict (p ∷ q ∷ qs) ((h, _), (b, s)) e = elim (Bool-cases (p == q)) [
  | inl t ↦ cc (rw t at e)
  | inr t ↦
      ((ground arith, All-lt p q qs (ground arith) b), windows-IsStrict (q ∷ qs) (b, s) (rw t at e))
]

-- A strict list has no equal neighbours, and the sort leaves it alone.
pub IsStrict-windows : (ps : List PartyId) → IsStrict ps → any_equal_window ps ≡ false
unfolding any_equal_window
IsStrict-windows [] s = refl
IsStrict-windows (p ∷ []) s = refl
IsStrict-windows (p ∷ q ∷ qs) ((h, _), s) = ground (arith, IsStrict-windows (q ∷ qs) s)

insert_id_strict : (p : PartyId) (ps : List PartyId) → All (λ q. p < q) ps → insert_id p ps ≡ p ∷ ps
insert_id_strict p [] a = refl
insert_id_strict p (q ∷ qs) (h, a) = ground arith

pub sort_strict : (ps : List PartyId) → IsStrict ps → sort_unstable ps ≡ ps
sort_strict [] s = refl
sort_strict (p ∷ ps) (a, s) = rw (sort_strict ps s) (insert_id_strict p ps a)

pub IsStrict-Distinct : (ps : List PartyId) → IsStrict ps → Distinct ps
IsStrict-Distinct [] s = tt
IsStrict-Distinct (p ∷ ps) (a, s) = (apart ps a, IsStrict-Distinct ps s)
  where
    apart : (qs : List PartyId) → All (λ q. p < q) qs → All (λ q. q ≢ p) qs
    apart [] h = tt
    apart (q ∷ qs) (h, a) = (omega arith, apart qs a)
