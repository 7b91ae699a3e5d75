-- ===== src/Open/Check.antt =====
-- The loop over the shares: it splits them, in their order, into those that pass the check and the
-- senders of the others; and what is interpolated from shares that pass.
use ohm_ecdsa.Prelude.{
  ◌+◌, ◌≤◌, ◌≡◌, refl, sym, ap₂, length-map, ◌∙◌, List, [], ◌∷◌, ◌++◌, Bool, true, false,
  Bool-cases, inl, inr, map, length, if◌then◌else◌, filter, All, arith, some,
}
use mathlib.Core.List.{append-nil, append_assoc}
use ohm_ecdsa.Core.{PartyId}
use ohm_ecdsa.Field.{Field}
use ohm_ecdsa.Curve.{Group, Action}
use ohm_ecdsa.Shamir.{interpolate_at, eval_at, eval}
use ohm_ecdsa.Shamir.Lagrange.{IsQuorum}
use ohm_ecdsa.Shamir.Interpolate.{interpolate_at-eval}
use ohm_ecdsa.Vss.{FeldmanCommitment, verify_share}
use ohm_ecdsa.Vss.Laws.{log_poly, length-log_poly, verify_share-log_poly}
use ohm_ecdsa.Open.{Checked, check_loop, check_shares}

module _ {F G : Type 0} ⦃f : Field F⦄ ⦃g : Group G⦄ ⦃c : Action F G⦄
    (cm : FeldmanCommitment G) where
  -- The share of an entry passes, or fails, the check of its sender.
  abbrev pub passes : PartyId × F → Bool
  passes e = verify_share cm e.0 e.1

  abbrev pub fails : PartyId × F → Bool
  fails e = if verify_share cm e.0 e.1 then false else true

  -- The senders of the bad shares, in order.
  abbrev pub culprits : List (PartyId × F) → List PartyId
  culprits es = map (λ e. e.0) (filter fails es)

  check_loop_lem :
      (es : List (PartyId × F)) (v : Checked F)
      → check_loop cm es v ≡ record {
        valid_parties = v.valid_parties ++ map (λ e. e.0) (filter passes es);
        valid_shares = v.valid_shares ++ map (λ e. e.1) (filter passes es);
        blamed = v.blamed ++ culprits es;
      }
  unfolding check_loop
  check_loop_lem [] v = λ i. record {
    valid_parties = sym (append-nil v.valid_parties) i;
    valid_shares = sym (append-nil v.valid_shares) i;
    blamed = sym (append-nil v.blamed) i;
  }
  check_loop_lem ((j, s) ∷ es) v = elim (Bool-cases (verify_share cm j s)) [
    | inl e ↦ rw e (
        check_loop_lem es (record {
          valid_parties = v.valid_parties ++ (j ∷ []);
          valid_shares = v.valid_shares ++ (s ∷ []);
          blamed = v.blamed;
        })
        ∙ (λ i. record {
          valid_parties =
              append_assoc v.valid_parties (j ∷ []) (map (λ e. e.0) (filter passes es)) i;
          valid_shares = append_assoc v.valid_shares (s ∷ []) (map (λ e. e.1) (filter passes es)) i;
          blamed = v.blamed ++ culprits es;
        }))
    | inr e ↦ rw e (
        check_loop_lem es (record {
          valid_parties = v.valid_parties;
          valid_shares = v.valid_shares;
          blamed = v.blamed ++ (j ∷ []);
        })
        ∙ (λ i. record {
          valid_parties = v.valid_parties ++ map (λ e. e.0) (filter passes es);
          valid_shares = v.valid_shares ++ map (λ e. e.1) (filter passes es);
          blamed = append_assoc v.blamed (j ∷ []) (culprits es) i;
        }))
  ]

  pub check_shares-filter :
      (es : List (PartyId × F))
      → check_shares cm es ≡ record {
        valid_parties = map (λ e. e.0) (filter passes es);
        valid_shares = map (λ e. e.1) (filter passes es);
        blamed = culprits es;
      }
  unfolding check_shares
  check_shares-filter es =
      check_loop_lem es (record { valid_parties = []; valid_shares = []; blamed = [] })

  -- Every share passes or fails.
  pub length-passes-fails :
      (es : List (PartyId × F)) → length (filter passes es) + length (filter fails es) ≡ length es
  length-passes-fails [] = omega arith
  length-passes-fails ((j, s) ∷ es) = elim (Bool-cases (verify_share cm j s)) [
    | inl e ↦ rw e (omega (arith, length-passes-fails es))
    | inr e ↦ rw e (omega (arith, length-passes-fails es))
  ]

  passing_shares :
      (es : List (PartyId × F))
      → All (λ e. passes e ≡ true) es
      → map (λ e. e.1) es ≡ map (eval (log_poly F cm)) (map (λ e. e.0) es)
  passing_shares [] h = refl
  passing_shares ((j, s) ∷ es) (e, h) =
      ap₂ ◌∷◌ ((verify_share-log_poly cm j s).0 e) (passing_shares es h)

  -- Interpolating from shares that pass returns the value of the committed polynomial.
  pub interpolate_passing :
      (x : F) (es : List (PartyId × F))
      → All (λ e. passes e ≡ true) es
      → IsQuorum F (map (λ e. e.0) es)
      → length cm.points ≤ length es
      → interpolate_at x (map (λ e. e.0) es) (map (λ e. e.1) es) ≡ some (eval_at (log_poly F cm) x)
  interpolate_passing x es h q n = rw (passing_shares es h) (
      interpolate_at-eval x (log_poly F cm) (map (λ e. e.0) es) q
        (omega (arith, length-map es (λ e. e.0), length-log_poly F cm)))
