-- ===== src/Open/Laws.antt =====
-- Openings against their specification: the committed value, or the blame of exactly the senders
-- whose shares do not lie on the committed polynomial.
use ohm_ecdsa.Prelude.{
  ℕ, ◌+◌, ◌*◌, ◌≤◌, ◌<◌, ◌≡◌, refl, sym, ap, ◌∙◌, List, [], ◌∷◌, Bool-cases, inl, inr, map, length,
  length-map, length-take, if◌then◌else◌, filter, filter_holds, All, All-take, All-map-filter,
  Distinct-take, Distinct-map-filter, map-take, take, ltb, arith, some,
}
use ohm_ecdsa.Core.{PartyId, Phase, Detail, text, not_enough_shares, Result, ok, err, expect}
use ohm_ecdsa.Core.Map.{Map, keys, IsSorted, keys-Distinct}
use ohm_ecdsa.Field.{Field, zero_scalar, order}
use ohm_ecdsa.Field.Laws.{=?_cases}
use ohm_ecdsa.Curve.{Group, Action, generator, ◌⊡◌}
use ohm_ecdsa.Shamir.{interpolate_at, interpolate_at_zero, eval_at}
use ohm_ecdsa.Shamir.Lagrange.{IsQuorum}
use ohm_ecdsa.Vss.{FeldmanCommitment, eval_at_point}
use ohm_ecdsa.Vss.Laws.{log_poly, eval_at_point-from_poly, from_poly-log_poly}
use ohm_ecdsa.Open.{
  Checked, raise_blame, check_shares, interpolate_first, finish_strict, finish_robust, open_at,
  open_robust,
}
use ohm_ecdsa.Open.Check.{
  passes, fails, culprits, check_shares-filter, length-passes-fails, interpolate_passing,
}

module _ {F G : Type 0} ⦃f : Field F⦄ ⦃g : Group G⦄ ⦃c : Action F G⦄
    (cm : FeldmanCommitment G) where
  IsQuorum-passing :
      (t : ℕ) (es : List (PartyId × F))
      → IsQuorum F (map (λ e. e.0) es)
      → IsQuorum F (map (λ e. e.0) (take t (filter (passes cm) es)))
  IsQuorum-passing t es (d, b) =
      rw (map-take (λ (e : PartyId × F). e.0) t (filter (passes cm) es)) (
        Distinct-take t _ (Distinct-map-filter (λ e. e.0) (passes cm) es d),
        All-take _ t _ (All-map-filter (λ p. p < order F) (λ e. e.0) (passes cm) es b),
      )

  -- The first t shares that pass interpolate to the committed polynomial's value.
  pub interpolate_first_passing :
      (x : F) (t : ℕ) (es : List (PartyId × F))
      → IsQuorum F (map (λ e. e.0) es)
      → length cm.points ≤ t
      → t ≤ length (filter (passes cm) es)
      → interpolate_at x
          (take t (map (λ e. e.0) (filter (passes cm) es)))
          (take t (map (λ e. e.1) (filter (passes cm) es)))
        ≡ some (eval_at (log_poly F cm) x)
  interpolate_first_passing x t es q d n =
      rw
        (
          ← map-take (λ (e : PartyId × F). e.0) t (filter (passes cm) es),
          ← map-take (λ (e : PartyId × F). e.1) t (filter (passes cm) es),
        )
        (interpolate_passing cm x (take t (filter (passes cm) es))
          (All-take _ t _ (filter_holds (passes cm) es)) (IsQuorum-passing t es q)
          (omega (arith, length-take t (filter (passes cm) es))))

  fails_none :
      (es : List (PartyId × F)) → culprits cm es ≡ [] → length (filter (passes cm) es) ≡ length es
  fails_none es e = omega (
    arith,
    length-passes-fails cm es,
    length-map (filter (fails cm) es) (λ (e : PartyId × F). e.0),
    ap length e,
  )

  -- What an opening at x promises: the blame of the senders of bad shares, or too few shares, or the
  -- value of the committed polynomial.
  abbrev pub strict_outcome : F → ℕ → List (PartyId × F) → Phase → Detail → Result F
  strict_outcome x t es phase detail = raise_blame (culprits cm es) phase detail (
      if ltb (length es) t
      then err (not_enough_shares (length es) t)
      else ok (eval_at (log_poly F cm) x))

  finish_enough :
      (x : F) (t : ℕ) (es : List (PartyId × F))
      → IsQuorum F (map (λ e. e.0) es)
      → length cm.points ≤ t
      → t ≤ length (filter (passes cm) es)
      → interpolate_first x t (check_shares cm es) ≡ ok (eval_at (log_poly F cm) x)
  unfolding interpolate_first interpolate_at_zero
  finish_enough x t es q d n = rw (check_shares-filter cm es) elim (=?_cases x zero_scalar) [
    | inl (h, p) ↦ rw (h, ← p) (ap expect (interpolate_first_passing x t es q d n))
    | inr (h, _) ↦ rw h (ap expect (interpolate_first_passing x t es q d n))
  ]

  -- The strict opening meets its promise on every branch.
  pub finish_strict-outcome :
      (x : F) (t : ℕ) (es : List (PartyId × F)) (phase : Phase) (detail : Detail)
      → IsQuorum F (map (λ e. e.0) es)
      → length cm.points ≤ t
      → finish_strict x t phase detail (check_shares cm es) ≡ strict_outcome x t es phase detail
  unfolding finish_strict
  finish_strict-outcome x t es phase detail q d = split (culprits cm es) refl
    where
      enough :
          (n : ℕ)
          → n ≡ length es
          → length (filter (passes cm) es) ≡ length es
          → ◌≡◌ {A = Result F}
              (if ltb n t
                then err (not_enough_shares n t)
                else interpolate_first x t (check_shares cm es))
              (if ltb (length es) t
                then err (not_enough_shares (length es) t)
                else ok (eval_at (log_poly F cm) x))
      enough n e k = elim (Bool-cases (ltb (length es) t)) [
        | inl h ↦ rw (e, h)
        | inr h ↦ rw (e, h) (finish_enough x t es q d (ground arith))
      ]

      split :
          (bs : List PartyId)
          → culprits cm es ≡ bs
          → finish_strict x t phase detail (check_shares cm es) ≡ strict_outcome x t es phase detail
      split (b ∷ bs) e = rw (ap Checked.blamed (check_shares-filter cm es), e)
      split [] e =
          rw (ap Checked.blamed (check_shares-filter cm es), e)
            (enough _
              (ap (λ (v : Checked F). length v.valid_parties) (check_shares-filter cm es)
                ∙ (length-map (filter (passes cm) es) (λ (e : PartyId × F). e.0) ∙ fails_none es e))
              (fails_none es e))

  -- The robust opening leaves the bad shares out, and returns their senders.
  abbrev pub robust_outcome : ℕ → List (PartyId × F) → Result (F × List PartyId)
  robust_outcome t es =
      if ltb (length (filter (passes cm) es)) t
      then err (not_enough_shares (length (filter (passes cm) es)) t)
      else ok (eval_at (log_poly F cm) zero_scalar, culprits cm es)

  pub finish_robust-outcome :
      (t : ℕ) (es : List (PartyId × F))
      → IsQuorum F (map (λ e. e.0) es)
      → length cm.points ≤ t
      → finish_robust t (check_shares cm es) ≡ robust_outcome t es
  unfolding finish_robust interpolate_at_zero
  finish_robust-outcome t es q d =
      rw (check_shares-filter cm es, length-map (filter (passes cm) es) (λ (e : PartyId × F). e.0))
        elim (Bool-cases (ltb (length (filter (passes cm) es)) t)) [
          | inl h ↦ rw h
          | inr h ↦ rw (h, interpolate_first_passing zero_scalar t es q d (ground arith))
        ]

module _ {F G : Type 0} ⦃f : Field F⦄ ⦃g : Group G⦄ ⦃c : Action F G⦄ where
  -- `open_at` does on every branch what an opening at a point promises, for shares of distinct parties below the
  -- field's order and a commitment of at most t points, whoever made it.
  pub open_at-outcome :
      (x : F) (t : ℕ) (cm : FeldmanCommitment G) (shares : Map F) (phase : Phase)
      → IsSorted shares
      → All (λ p. p < order F) (keys shares)
      → length cm.points ≤ t
      → open_at x t cm shares phase
        ≡ strict_outcome cm x t shares phase (text "share failed commitment check during opening")
  unfolding open_at
  open_at-outcome x t cm shares phase s b d =
      finish_strict-outcome cm x t shares phase _ (keys-Distinct shares s, b) d

  pub strict_outcome_ok :
      (x : F) (t : ℕ) (cm : FeldmanCommitment G) (es : List (PartyId × F)) (phase : Phase)
      (detail : Detail) {s : F}
      → strict_outcome cm x t es phase detail ≡ ok s
      → (culprits cm es ≡ []) × (t ≤ length es) × (s ≡ eval_at (log_poly F cm) x)
  strict_outcome_ok x t cm es phase detail {s} h = split (culprits cm es) refl
    where
      split :
          (bs : List PartyId)
          → culprits cm es ≡ bs
          → (culprits cm es ≡ []) × (t ≤ length es) × (s ≡ eval_at (log_poly F cm) x)
      split (b ∷ bs) e = cc (rw (e) at h)
      split [] e = elim (Bool-cases (ltb (length es) t)) [
        | inl l ↦ cc (rw (e, l) at h)
        | inr l ↦
            let h' : ok (eval_at (log_poly F cm) x) ≡ ok s = rw (e, l) at h in (e, ground arith, cc)
      ]

  -- For shares of distinct parties below the field's order and a commitment of at most t points: an opening at x
  -- that succeeds is the committed value, so that its public point is the commitment's value at x; no share was
  -- bad, and there were at least t of them.
  pub open_at_sound :
      (x : F) (t : ℕ) (cm : FeldmanCommitment G) (shares : Map F) (phase : Phase) (s : F)
      → IsSorted shares
      → All (λ p. p < order F) (keys shares)
      → length cm.points ≤ t
      → open_at x t cm shares phase ≡ ok s
      → (generator ⊡ s ≡ eval_at_point cm x) × (culprits cm shares ≡ []) × (t ≤ length shares)
  open_at_sound x t cm shares phase s so b d h =
      let (e, n, v) =
        strict_outcome_ok x t cm shares phase _
          (sym (open_at-outcome x t cm shares phase so b d) ∙ h) in
      (
        ap (λ a. generator ⊡ a) v
            ∙ (sym (eval_at_point-from_poly (log_poly F cm) x)
                ∙ ap (λ d. eval_at_point d x) (from_poly-log_poly F cm)),
        e,
        n,
      )

  -- With n ≥ 2t - 1 shares, t - 1 bad ones leave t good ones.
  pub robust_enough :
      (cm : FeldmanCommitment G) (t : ℕ) (es : List (PartyId × F))
      → 2 * t ≤ length es + 1
      → length (culprits cm es) + 1 ≤ t
      → robust_outcome cm t es ≡ ok (eval_at (log_poly F cm) zero_scalar, culprits cm es)
  robust_enough cm t es n k = elim (Bool-cases (ltb (length (filter (passes cm) es)) t)) [
    | inl h ↦ absurd (
        ground (
          arith,
          length-passes-fails cm es,
          length-map (filter (fails cm) es) (λ (e : PartyId × F). e.0),
        ))
    | inr h ↦ rw h
  ]

  -- For shares of distinct parties below the field's order and a commitment of at most t points: with n ≥ 2t - 1
  -- shares of which at most t - 1 are bad, the robust opening returns the committed value at 0 and exactly the
  -- senders of the bad shares.
  pub open_robust_guaranteed :
      (t : ℕ) (cm : FeldmanCommitment G) (shares : Map F) (phase : Phase)
      → IsSorted shares
      → All (λ p. p < order F) (keys shares)
      → length cm.points ≤ t
      → 2 * t ≤ length shares + 1
      → length (culprits cm shares) + 1 ≤ t
      → open_robust t cm shares phase ≡ ok (eval_at (log_poly F cm) zero_scalar, culprits cm shares)
  unfolding open_robust
  open_robust_guaranteed t cm shares phase s b d n k =
      finish_robust-outcome cm t shares (keys-Distinct shares s, b) d
      ∙ robust_enough cm t shares n k
