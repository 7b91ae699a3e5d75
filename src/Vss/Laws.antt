-- ===== src/Vss/Laws.antt =====
-- A Feldman commitment is a polynomial in the exponent: its evaluation, its sums and multiples are
-- those of the polynomial, and a share passes the check exactly when it is the polynomial's value.
use ohm_ecdsa.Prelude.{
  ◌≡◌, ◌↔◌, refl, sym, ap, subst, suc, ℕ, All, ap₂, ◌∙◌, List, [], ◌∷◌, true, Bool-cases, inl, inr,
  map, leb, ◌≤◌, length, length-map, some, arith,
}
use ohm_ecdsa.Field.{Field, from_u64, one_scalar, ◌⊗◌}
use ohm_ecdsa.Field.Laws.{mul_comm}
use ohm_ecdsa.Field.Polynomial.{value}
use ohm_ecdsa.Curve.{Group, Action, identity, generator, ◌⊞◌, ◌⊡◌}
use ohm_ecdsa.Curve.Laws.{
  padd_assoc, padd_comm, identity-padd, padd-identity, =ₚ_iff, pmul-zero, pmul-one, pmul-add,
  padd-mul, pmul-mul, identity-pmul, log, generator-log, generator_injective, point_sums,
}
use ohm_ecdsa.Shamir.{PartyId, ShamirPoly, eval_at, eval}
use ohm_ecdsa.Shamir.Horner.{eval_at-value}
use ohm_ecdsa.Vss.{
  FeldmanCommitment, from_poly, eval_loop, eval_at_point, verify_share, add_zip, add, scale,
  add_const, sum_loop, sum,
}

module _ {F G : Type 0} ⦃f : Field F⦄ ⦃g : Group G⦄ ⦃c : Action F G⦄ where
  -- A₀ + x A₁ + x² A₂ + …
  unfoldable pub point_value : List G → F → G
  point_value [] x = identity
  point_value (a ∷ rest) x = point_value rest x ⊡ x ⊞ a

  eval_loop_lem :
      (x : F) (acc : G) (xpow : F) (ps : List G)
      → eval_loop x acc xpow ps ≡ acc ⊞ point_value ps x ⊡ xpow
  unfolding eval_loop point_value
  eval_loop_lem x acc xpow [] = sym (ap (λ p. acc ⊞ p) (identity-pmul xpow) ∙ padd-identity acc)
  eval_loop_lem x acc xpow (a ∷ rest) =
      eval_loop_lem x (acc ⊞ a ⊡ xpow) (xpow ⊗ x) rest
      ∙ simp (padd_assoc, padd-mul, pmul-mul, padd_comm, mul_comm)

  pub eval_at_point_lem :
      (cm : FeldmanCommitment G) (x : F) → eval_at_point cm x ≡ point_value cm.points x
  unfolding eval_at_point
  eval_at_point_lem cm x =
      eval_loop_lem x identity one_scalar cm.points ∙ (identity-padd _ ∙ pmul-one F _)

  point_value-map :
      (cs : List F) (x : F)
      → point_value (map (λ a. generator {G = G} ⊡ a) cs) x ≡ generator ⊡ value cs x
  unfolding point_value value
  point_value-map [] x = sym (pmul-zero F generator)
  point_value-map (a ∷ cs) x =
      rw (point_value-map cs x)
        (ap (λ p. p ⊞ generator ⊡ a) (pmul-mul _ _ _) ∙ sym (pmul-add _ _ _))

  -- Evaluating the commitment to p at x gives the public point of p(x).
  pub eval_at_point-from_poly :
      (p : ShamirPoly F) (x : F) → eval_at_point (from_poly {G = G} p) x ≡ generator ⊡ eval_at p x
  unfolding from_poly
  eval_at_point-from_poly p x =
      eval_at_point_lem _ x
      ∙ (point_value-map p.coeffs x ∙ ap (λ a. generator ⊡ a) (sym (eval_at-value p x)))

  point_value-add_zip :
      (ps ss : List G) (x : F)
      → length ss ≤ length ps
      → point_value (add_zip ps ss) x ≡ point_value ps x ⊞ point_value ss x
  unfolding add_zip point_value
  point_value-add_zip [] [] x h = sym (identity-padd _)
  point_value-add_zip [] (s ∷ ss) x h = absurd (omega arith)
  point_value-add_zip (p ∷ ps) [] x h = sym (padd-identity _)
  point_value-add_zip (p ∷ ps) (s ∷ ss) x h =
      simp (point_value-add_zip ps ss x (omega arith), padd-mul, point_sums)

  -- The sum of two commitments, of any lengths, commits to the sum of the values.
  pub eval_at_point-add :
      (d e : FeldmanCommitment G) (x : F)
      → eval_at_point (add d e) x ≡ eval_at_point d x ⊞ eval_at_point e x
  unfolding add
  eval_at_point-add d e x = elim (Bool-cases (leb (length e.points) (length d.points))) [
    | inl h ↦ rw h (
        eval_at_point_lem _ x
        ∙ (point_value-add_zip d.points e.points x (ground arith)
            ∙ ap₂ ◌⊞◌ (sym (eval_at_point_lem d x)) (sym (eval_at_point_lem e x))))
    | inr h ↦ rw h (
        eval_at_point_lem _ x
        ∙ (point_value-add_zip e.points d.points x (ground arith)
            ∙ (ap₂ ◌⊞◌ (sym (eval_at_point_lem e x)) (sym (eval_at_point_lem d x))
                ∙ padd_comm _ _)))
  ]

  point_value-scale :
      (ps : List G) (a x : F) → point_value (map (λ p. p ⊡ a) ps) x ≡ point_value ps x ⊡ a
  unfolding point_value
  point_value-scale [] a x = sym (identity-pmul a)
  point_value-scale (p ∷ ps) a x = simp (point_value-scale ps a x, padd-mul, pmul-mul, mul_comm)

  pub eval_at_point-scale :
      (d : FeldmanCommitment G) (a x : F) → eval_at_point (scale d a) x ≡ eval_at_point d x ⊡ a
  unfolding scale
  eval_at_point-scale d a x =
      eval_at_point_lem _ x
      ∙ (point_value-scale d.points a x ∙ ap (λ p. p ⊡ a) (sym (eval_at_point_lem d x)))

  point_value-add_const :
      (ps : List G) (a x : F) {d : FeldmanCommitment G}
      → add_const (record { points = ps }) a ≡ some d
      → point_value d.points x ≡ point_value ps x ⊞ generator ⊡ a
  unfolding add_const point_value
  point_value-add_const [] a x h = cc
  point_value-add_const (p ∷ ps) a x {d} h =
      let e : record { points = (p ⊞ generator ⊡ a) ∷ ps } ≡ d = cc in
      ap (λ (d : FeldmanCommitment G). point_value d.points x) (sym e) ∙ sym (padd_assoc _ _ _)

  pub eval_at_point-add_const :
      (cm : FeldmanCommitment G) (a x : F) {d : FeldmanCommitment G}
      → add_const cm a ≡ some d
      → eval_at_point d x ≡ eval_at_point cm x ⊞ generator ⊡ a
  eval_at_point-add_const cm a x h =
      eval_at_point_lem _ x
      ∙ (point_value-add_const cm.points a x h
          ∙ ap (λ p. p ⊞ generator ⊡ a) (sym (eval_at_point_lem cm x)))

  -- The sum of the values of several commitments at x.
  unfoldable pub total_at : List (FeldmanCommitment G) → F → G
  total_at [] x = identity
  total_at (d ∷ ds) x = eval_at_point d x ⊞ total_at ds x

  eval_at_point-sum_loop :
      (acc : FeldmanCommitment G) (ds : List (FeldmanCommitment G)) (x : F)
      → eval_at_point (sum_loop acc ds) x ≡ eval_at_point acc x ⊞ total_at ds x
  unfolding sum_loop total_at
  eval_at_point-sum_loop acc [] x = sym (padd-identity _)
  eval_at_point-sum_loop acc (d ∷ ds) x =
      eval_at_point-sum_loop (add acc d) ds x
      ∙ (ap (λ p. p ⊞ total_at ds x) (eval_at_point-add acc d x) ∙ padd_assoc _ _ _)

  -- When the sum of a list of commitments is formed, its value at any point is the sum of their values.
  pub eval_at_point-sum :
      (cs : List (FeldmanCommitment G)) (x : F) {d : FeldmanCommitment G}
      → sum cs ≡ some d
      → eval_at_point d x ≡ total_at cs x
  unfolding sum
  eval_at_point-sum [] x h = cc
  eval_at_point-sum (e ∷ es) x {d} h =
      let q : sum_loop e es ≡ d = cc in
      ap (λ (d : FeldmanCommitment G). eval_at_point d x) (sym q)
      ∙ (eval_at_point-sum_loop e es x ∙ unfold total_at in refl)

module _ (F : Type 0) {G : Type 0} ⦃f : Field F⦄ ⦃g : Group G⦄ ⦃c : Action F G⦄ where
  -- The polynomial behind a commitment: the discrete logarithms of its points.
  pub log_poly : FeldmanCommitment G → ShamirPoly F
  log_poly cm = record { coeffs = map (log F) cm.points }

  pub from_poly-log_poly : (cm : FeldmanCommitment G) → from_poly (log_poly cm) ≡ cm
  unfolding from_poly log_poly
  from_poly-log_poly cm = λ i. record { points = back cm.points i }
    where
      back : (ps : List G) → map (λ a. generator ⊡ a) (map (log F) ps) ≡ ps
      back [] = refl
      back (p ∷ ps) = ap₂ ◌∷◌ (generator-log F p) (back ps)

  pub length-log_poly : (cm : FeldmanCommitment G) → length (log_poly cm).coeffs ≡ length cm.points
  unfolding log_poly
  length-log_poly cm = length-map cm.points (log F)

module _ {F : Type 0} (G : Type 0) ⦃f : Field F⦄ ⦃g : Group G⦄ ⦃c : Action F G⦄ where
  -- A share passes the check under the commitment to p exactly when it is p's value at the party.
  pub verify_share-from_poly :
      (p : ShamirPoly F) (j : PartyId) (s : F)
      → (verify_share (from_poly {G = G} p) j s ≡ true) ↔ (s ≡ eval p j)
  unfolding verify_share eval
  verify_share-from_poly p j s = (
    λ h. generator_injective G ((=ₚ_iff _ _).0 h ∙ eval_at_point-from_poly p _),
    λ e. (=ₚ_iff _ _).1 (ap (λ a. generator ⊡ a) e ∙ sym (eval_at_point-from_poly p _)),
  )

module _ {F G : Type 0} ⦃f : Field F⦄ ⦃g : Group G⦄ ⦃c : Action F G⦄ where
  -- Whoever made the commitment, exactly one share passes the check for a party.
  pub verify_share-log_poly :
      (cm : FeldmanCommitment G) (j : PartyId) (s : F)
      → (verify_share cm j s ≡ true) ↔ (s ≡ eval (log_poly F cm) j)
  verify_share-log_poly cm j s =
      rw (from_poly-log_poly F cm) at (verify_share-from_poly G (log_poly F cm) j s)

  -- The check is the equation between the share's public point and the commitment's value.
  pub verify_share_iff :
      (cm : FeldmanCommitment G) (j : PartyId) (s : F)
      → (verify_share cm j s ≡ true) ↔ (generator ⊡ s ≡ eval_at_point cm (from_u64 {F = F} j))
  unfolding verify_share
  verify_share_iff cm j s = =ₚ_iff _ _

module _ {G : Type 0} ⦃g : Group G⦄ where
  length-add_zip : (ps ss : List G) → length (add_zip ps ss) ≡ length ps
  unfolding add_zip
  length-add_zip [] ss = refl
  length-add_zip (p ∷ ps) [] = refl
  length-add_zip (p ∷ ps) (s ∷ ss) = ap suc (length-add_zip ps ss)

  -- The sum is as long as the longer of the two.
  pub length-add :
      (d e : FeldmanCommitment G) (n : ℕ)
      → length d.points ≤ n
      → length e.points ≤ n
      → length (add d e).points ≤ n
  unfolding add
  length-add d e n h k = elim (Bool-cases (leb (length e.points) (length d.points))) [
    | inl l ↦ rw l (omega (arith, length-add_zip d.points e.points))
    | inr l ↦ rw l (omega (arith, length-add_zip e.points d.points))
  ]

  length-sum_loop :
      (acc : FeldmanCommitment G) (ds : List (FeldmanCommitment G)) (n : ℕ)
      → length acc.points ≤ n
      → All (λ d. length d.points ≤ n) ds
      → length (sum_loop acc ds).points ≤ n
  unfolding sum_loop
  length-sum_loop acc [] n h a = h
  length-sum_loop acc (d ∷ ds) n h (k, a) =
      length-sum_loop (add acc d) ds n (length-add acc d n h k) a

  pub length-sum :
      (ds : List (FeldmanCommitment G)) (n : ℕ) {e : FeldmanCommitment G}
      → All (λ d. length d.points ≤ n) ds
      → sum ds ≡ some e
      → length e.points ≤ n
  unfolding sum
  length-sum [] n a q = cc
  length-sum (d ∷ ds) n {e} (k, a) q =
      let r : sum_loop d ds ≡ e = cc in
      subst (λ (t : FeldmanCommitment G). length t.points ≤ n) r (length-sum_loop d ds n k a)

  pub sum_exists :
      (d : FeldmanCommitment G) (ds : List (FeldmanCommitment G))
      → (e : FeldmanCommitment G) × (sum (d ∷ ds) ≡ some e)
  unfolding sum
  sum_exists d ds = (_, refl)
