-- ===== src/Shamir/Interpolate.antt =====
-- Interpolation from the shares of enough distinct parties returns the shared polynomial's value.
use ohm_ecdsa.Prelude.{
  ℕ, suc, ◌≤◌, ◌≡◌, ◌≢◌, sym, refl, ap, ◌∙◌, List, [], ◌∷◌, map, length, arith, some, ap₂, fun_ext,
  length-map, All, Distinct, get_elem?, All-get_elem?, Distinct-get_elem?,
}
use ohm_ecdsa.Field.{Field, zero_scalar, one_scalar, neg, from_u64, ◌⊕◌}
use ohm_ecdsa.Field.Laws.{zero-add, eq_of_sub, mul-neg, mul-one, from_u64_injective}
use ohm_ecdsa.Field.Polynomial.{
  value, value-add_poly, value-scale_poly, length-add_poly, length-scale_poly, vanish,
}
use ohm_ecdsa.Shamir.{ShamirPoly, PartyId, lagrange_coeffs_at, interpolate_at, eval_at, eval}
use ohm_ecdsa.Shamir.Horner.{eval_at-value, eval-value}
use ohm_ecdsa.Shamir.Lagrange.{
  IsQuorum, Separated, terms, lagrange_loop_lem, lagrange_sum, dot_loop-terms, value-sum_poly,
  length-sum_poly, sum_poly_root,
}

module _ {F : Type 0} ⦃f : Field F⦄ where
  IsQuorum→Separated : (ps : List PartyId) → IsQuorum F ps → Separated F ps
  IsQuorum→Separated ps (d, b) i j p q g h ne e =
      Distinct-get_elem? ps i j d g h ne
        (from_u64_injective F (All-get_elem? _ ps i b g) (All-get_elem? _ ps j b h) e)

  points-Distinct : (ps : List PartyId) → Separated F ps → Distinct (map (from_u64 {F = F}) ps)
  points-Distinct [] sep = tt
  points-Distinct (p ∷ ps) sep = (
    apart ps (λ j q h. sep (suc j) 0 q p h refl (λ e. omega arith)),
    points-Distinct ps (λ i j p' q g h ne. sep (suc i) (suc j) p' q g h (λ e. ne (omega arith))),
  )
    where
      apart :
          (qs : List PartyId)
          → ((j : ℕ) (q : PartyId) → get_elem? qs j ≡ some q → from_u64 {F = F} q ≢ from_u64 p)
          → All {A = F} (λ y. y ≢ from_u64 p) (map from_u64 qs)
      apart [] h = tt
      apart (q ∷ qs) h = (h 0 q refl, apart qs (λ j. h (suc j)))

  All-map_points :
      (P : F → Type 0) (ps : List PartyId)
      → ((m : ℕ) (q : PartyId) → get_elem? ps m ≡ some q → P (from_u64 q))
      → All P (map from_u64 ps)
  All-map_points P [] h = tt
  All-map_points P (p ∷ ps) h = (h 0 p refl, All-map_points P ps (λ m. h (suc m)))

  lagrange_sum-value :
      (ps : List PartyId) (cs : List F) (x : F)
      → Separated F ps
      → length cs ≤ length ps
      → lagrange_sum ps (λ p. value cs (from_u64 p)) x 0 ps ≡ value cs x
  lagrange_sum-value ps cs x sep h = eq_of_sub _ _ (
      ap₂ ◌⊕◌ (sym (value-sum_poly ps _ 0 ps x))
        (sym (value-scale_poly (neg one_scalar) cs x ∙ (mul-neg _ _ ∙ ap neg (mul-one _))))
      ∙ (sym (value-add_poly _ _ x)
          ∙ vanish (map from_u64 ps) _ (points-Distinct ps sep)
              (length-add_poly _ _ _
                (omega (
                  arith,
                  length-sum_poly ps (λ p. value cs (from_u64 p)) 0 ps (omega arith),
                  length-map ps (from_u64 {F = F}),
                ))
                (omega
                  (arith, length-scale_poly (neg one_scalar) cs, length-map ps (from_u64 {F = F}))))
              (All-map_points _ ps (sum_poly_root ps sep cs)) x))

  -- The Lagrange coefficients of a quorum exist.
  pub lagrange_coeffs_at-terms :
      (x : F) (ps : List PartyId) → IsQuorum F ps → lagrange_coeffs_at x ps ≡ some (terms ps x 0 ps)
  unfolding lagrange_coeffs_at
  lagrange_coeffs_at-terms x ps q =
      lagrange_loop_lem ps (IsQuorum→Separated ps q) x 0 ps (λ m. ap (get_elem? ps) (omega arith))

  -- Interpolating at x from the shares of a quorum that is as large as the polynomial is long returns
  -- the polynomial's value at x.
  pub interpolate_at-eval :
      (x : F) (p : ShamirPoly F) (ps : List PartyId)
      → IsQuorum F ps
      → length p.coeffs ≤ length ps
      → interpolate_at x ps (map (eval p) ps) ≡ some (eval_at p x)
  unfolding interpolate_at
  interpolate_at-eval x p ps q h = rw (lagrange_coeffs_at-terms x ps q) (
      ap some (
        dot_loop-terms ps (eval p) x zero_scalar 0 ps
        ∙ (zero-add _
            ∙ (ap (λ g. lagrange_sum ps g x 0 ps) (fun_ext (eval-value p))
                ∙ (lagrange_sum-value ps p.coeffs x (IsQuorum→Separated ps q) h
                    ∙ sym (eval_at-value p x))))))
