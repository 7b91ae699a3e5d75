-- ===== src/Dkg/Joint.antt =====
-- What the parties that finalize hold together: one commitment, and shares of one secret.
use ohm_ecdsa.Prelude.{
  ◌≤◌, ◌≡◌, sym, ap, subst, ◌∙◌, List, [], ◌∷◌, some, true, length, length-map, map, All, arith,
}
use ohm_ecdsa.Core.{PartyId, Phase, Committee, ok}
use ohm_ecdsa.Core.Map.{Map}
use ohm_ecdsa.Field.{Field, zero_scalar}
use ohm_ecdsa.Curve.{Group, Action, generator, ◌⊡◌}
use ohm_ecdsa.Encoding.{Hash, PointEncoding}
use ohm_ecdsa.Shamir.{interpolate_at_zero, eval_at}
use ohm_ecdsa.Shamir.Lagrange.{IsQuorum}
use ohm_ecdsa.Vss.{FeldmanCommitment, verify_share, eval_at_point, sum}
use ohm_ecdsa.Vss.Laws.{log_poly, length-sum, eval_at_point-from_poly, from_poly-log_poly}
use ohm_ecdsa.Open.Check.{passes, interpolate_passing}
use ohm_ecdsa.Dkg.{DkgBcast2, DkgInstance, DkgOutput, Inbox, finalize}
use ohm_ecdsa.Dkg.Finalize.{IsBound, revealed_of, finalize_sound}

-- One party's run: its state, its message sets and its output.
pub record Run (F G : Type 0) : Type 0 where
  pub inst : DkgInstance F G
  pub box : Inbox F G
  pub out : DkgOutput F G

module _ {F G : Type 0} ⦃f : Field F⦄ ⦃g : Group G⦄ ⦃c : Action F G⦄ ⦃h : Hash⦄
    ⦃pe : PointEncoding G⦄ where
  -- The run finalized, over this committee and these reveals. The echo broadcast gives all parties the
  -- same reveals; their other messages may differ.
  pub record IsRunOf (phase : Phase) (committee : Committee) (r2 : Map (DkgBcast2 G)) (r : Run F G)
      : Type 0 where
    pub finalized : finalize r.inst phase r.box ≡ ok r.out
    pub over : r.inst.committee ≡ committee
    pub reveals : r.box.r2 ≡ r2

  revealed_lengths :
      (phase : Phase) (inst : DkgInstance F G) (box : Inbox F G) (ids : List PartyId)
      → All (λ i. (cm : FeldmanCommitment G) × IsBound inst phase box i cm) ids
      → All (λ d. length d.points ≤ inst.committee.t) (revealed_of box.r2 ids)
  revealed_lengths phase inst box [] b = tt
  revealed_lengths phase inst box (i ∷ ids) ((cm, b), bs) =
      rw (b.revealed, revealed_of)
        (
          omega (arith, ap (λ (d : FeldmanCommitment G). length d.points) b.same, b.degree),
          revealed_lengths phase inst box ids bs,
        )

  -- The shares that the parties hold, with their indices.
  abbrev pub shares_of : List (Run F G) → List (PartyId × F)
  shares_of = map (λ s. (s.out.index, s.out.share))

  module _ {phase : Phase} {committee : Committee} {r2 : Map (DkgBcast2 G)} where
    pub run_commitment :
        (r : Run F G)
        → IsRunOf phase committee r2 r
        → sum (revealed_of r2 committee.ids) ≡ some r.out.cm
    run_commitment r v =
        subst (λ (m : Map (DkgBcast2 G)). sum (revealed_of m committee.ids) ≡ some r.out.cm)
          v.reveals
          (subst (λ (k : Committee). sum (revealed_of r.box.r2 k.ids) ≡ some r.out.cm) v.over
            (finalize_sound r.inst phase r.box v.finalized).2)

    -- Two parties that finalize over one committee and the same round-2 reveals hold the same commitment, and so
    -- the same public key.
    pub finalize_agreement :
        (r s : Run F G)
        → IsRunOf phase committee r2 r
        → IsRunOf phase committee r2 s
        → r.out.cm ≡ s.out.cm
    finalize_agreement r s v w =
        let q : some r.out.cm ≡ some s.out.cm = sym (run_commitment r v) ∙ run_commitment s w in cc

    pub run_length :
        (r : Run F G) → IsRunOf phase committee r2 r → length r.out.cm.points ≤ committee.t
    run_length r v =
        let s = finalize_sound r.inst phase r.box v.finalized in
        subst (λ (k : Committee). length r.out.cm.points ≤ k.t) v.over
          (length-sum (revealed_of r.box.r2 r.inst.committee.ids) _
            (revealed_lengths phase r.inst r.box _ s.3) s.2)

    runs_pass :
        (r : Run F G)
        → IsRunOf phase committee r2 r
        → (runs : List (Run F G)) → All (IsRunOf phase committee r2) runs
        → All (λ e. passes r.out.cm e ≡ true) (shares_of runs)
    runs_pass r v [] a = tt
    runs_pass r v (s ∷ ss) (w, a) =
        let (i, p, _, _) = finalize_sound s.inst phase s.box w.finalized in
        (
          ap (λ (d : FeldmanCommitment G). verify_share d s.out.index s.out.share)
                (finalize_agreement r s v w)
              ∙ (ap (λ j. verify_share s.out.cm j s.out.share) i ∙ p),
          runs_pass r v ss a,
        )

    -- When parties finalize over one committee and the same round-2 reveals, the shares of any t or more of them,
    -- of distinct indices below the field's order, interpolate to one secret, whose public point is the value at 0
    -- of the commitment that any of them holds: the joint public key.
    pub joint_secret :
        (r : Run F G) (runs : List (Run F G))
        → IsRunOf phase committee r2 r
        → All (IsRunOf phase committee r2) runs
        → IsQuorum F (map (λ (e : PartyId × F). e.0) (shares_of runs))
        → committee.t ≤ length runs
        → (interpolate_at_zero
              (map (λ (e : PartyId × F). e.0) (shares_of runs))
              (map (λ (e : PartyId × F). e.1) (shares_of runs))
            ≡ some (eval_at (log_poly F r.out.cm) zero_scalar))
          × (generator ⊡ eval_at (log_poly F r.out.cm) zero_scalar
              ≡ eval_at_point r.out.cm (zero_scalar {F = F}))
    unfolding interpolate_at_zero
    joint_secret r runs v a q n = (
      interpolate_passing r.out.cm zero_scalar (shares_of runs) (runs_pass r v runs a) q (
          omega (
            arith,
            run_length r v,
            length-map {B = PartyId × F} runs (λ (s : Run F G). (s.out.index, s.out.share)),
          )),
      sym (eval_at_point-from_poly (log_poly F r.out.cm) zero_scalar)
          ∙ ap (λ d. eval_at_point d (zero_scalar {F = F})) (from_poly-log_poly F r.out.cm),
    )
