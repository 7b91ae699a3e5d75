-- ===== src/Triples/Dealing.antt =====
-- The dealings of a triple generation: the sharings of T1, and the re-shared products of T2.
use ohm_ecdsa.Prelude.{
  ℕ, zero, suc, ◌-◌, ◌≤◌, ◌≡◌, refl, ap, ap₂, subst, ◌∙◌, List, [], ◌∷◌, Option, none, some, true,
  map, length, length-map, All, arith,
}
use ohm_ecdsa.Core.{PartyId, Phase, Committee, ok, position, >>=-eq-ok, ok_injective}
use ohm_ecdsa.Field.{Field, zero_scalar, one_scalar, ◌⊕◌, ◌⊗◌}
use ohm_ecdsa.Field.Laws.{mul-zero, zero-add}
use ohm_ecdsa.Field.Polynomial.{value}
use ohm_ecdsa.Shamir.Horner.{eval_at-value}
use ohm_ecdsa.Curve.{Group, Action, generator, ◌⊡◌}
use ohm_ecdsa.Encoding.{Bytes, Hash, PointEncoding}
use ohm_ecdsa.Rng.{Rng, random_list, length-random_list}
use ohm_ecdsa.Shamir.{ShamirPoly, eval, eval_at, random_poly}
use ohm_ecdsa.Vss.{FeldmanCommitment, from_poly, verify_share, eval_at_point}
use ohm_ecdsa.Vss.Laws.{log_poly, verify_share-log_poly, eval_at_point-from_poly}
use ohm_ecdsa.Dkg.{DkgOutput}
use ohm_ecdsa.Dkg.Rounds.{start_all, reveal_all, finalize_all}
use ohm_ecdsa.Dkg.Rounds.Sound.{IsSharing, finalize_all-IsSharing, start_all_ok}
use ohm_ecdsa.Dleq.{Digest}
use ohm_ecdsa.Triples.{
  TripleTamper, Resharing, update_at, joint_random, reshare_product, reshare_all, tamper_share,
  tamper_proof, tampered,
}
use ohm_ecdsa.Triples.Product.{products, Commits}

-- The shares of a sharing are the values of the committed polynomial.
module _ {F G : Type 0} ⦃f : Field F⦄ ⦃g : Group G⦄ ⦃c : Action F G⦄ where
  outputs_shares :
      (cm : FeldmanCommitment G) (outs : List (DkgOutput F G))
      → All (λ o. (o.cm ≡ cm) × (verify_share cm o.index o.share ≡ true)) outs
      → map (λ o. o.share) outs ≡ map (eval (log_poly F cm)) (map (λ o. o.index) outs)
  outputs_shares cm [] a = refl
  outputs_shares cm (o ∷ os) ((_, v), a) =
      ap₂ ◌∷◌ ((verify_share-log_poly cm o.index o.share).0 v) (outputs_shares cm os a)

  pub IsSharing-shares :
      {t : ℕ} {ids : List PartyId} {cm : FeldmanCommitment G} {outs : List (DkgOutput F G)}
      → IsSharing t ids cm outs
      → map (λ o. o.share) outs ≡ map (eval (log_poly F cm)) ids
  IsSharing-shares {cm = cm} {outs = outs} s =
      outputs_shares cm outs s.held ∙ ap (map (eval (log_poly F cm))) s.indices

module _ {F G R : Type 0} ⦃f : Field F⦄ ⦃g : Group G⦄ ⦃c : Action F G⦄ ⦃h : Hash⦄
    ⦃pe : PointEncoding G⦄ ⦃rng : Rng F R⦄ where
  -- The parties of a joint random sharing hold shares of one polynomial.
  pub joint_random-IsSharing :
      (committee : Committee) (sid : Bytes) (rngs : List R) (phase : Phase) (o : DkgOutput F G)
      (outs : List (DkgOutput F G)) {rngs' : List R}
      → joint_random committee sid rngs phase ≡ ok (o ∷ outs, rngs')
      → IsSharing committee.t committee.ids o.cm (o ∷ outs)
  unfolding joint_random
  joint_random-IsSharing committee sid rngs phase o outs e =
      let (st, p, e1) = >>=-eq-ok (start_all committee sid _ committee.ids rngs) _ e in
      let ((r2, p2p), q, e2) = >>=-eq-ok (reveal_all st.insts) _ e1 in
      let (os, w, e3) = >>=-eq-ok (finalize_all phase _ _ p2p st.insts st.insts) _ e2 in
      let (a, m) = start_all_ok committee sid _ committee.ids rngs p in
      let k : os ≡ o ∷ outs = ap (λ (t : List (DkgOutput F G) × List R). t.0) (ok_injective e3) in
      finalize_all-IsSharing committee phase _ _ p2p st.insts st.insts o outs a m (w ∙ ap ok k)

module _ {F : Type 0} ⦃f : Field F⦄ where
  -- The constant coefficient is the value at 0.
  eval_at-zero : (a : F) (cs : List F) → eval_at (record { coeffs = a ∷ cs }) zero_scalar ≡ a
  eval_at-zero a cs =
      eval_at-value (record { coeffs = a ∷ cs }) zero_scalar
      ∙ unfold value in (ap (λ t. t ⊕ a) (mul-zero _) ∙ zero-add a)

module _ {F G R : Type 0} ⦃f : Field F⦄ ⦃g : Group G⦄ ⦃c : Action F G⦄ ⦃h : Hash⦄
    ⦃pe : PointEncoding G⦄ ⦃d : Digest F⦄ ⦃rng : Rng F R⦄ where
  -- The commitment of a dealer in T2: to the product of its shares, with t points.
  reshare_product_lem :
      (ids : List PartyId) (t : ℕ) (sid : Bytes) (cb : FeldmanCommitment G) (j : PartyId) (a b : F)
      (r : R)
      → 1 ≤ t
      → (eval_at_point (reshare_product ids t sid cb j a b r).0.cm (zero_scalar {F = F})
          ≡ generator ⊡ (a ⊗ b))
        × (length (reshare_product ids t sid cb j a b r).0.cm.points ≤ t)
  unfolding reshare_product random_poly
  reshare_product_lem ids t sid cb j a b r t1 = (
    eval_at_point-from_poly _ zero_scalar ∙ ap (λ s. generator ⊡ s) (eval_at-zero (a ⊗ b) _),
    unfold from_poly in
        omega (
          arith,
          length-map (a ⊗ b ∷ (random_list {F = F} (t - 1) r).0) (λ (s : F). generator {G = G} ⊡ s),
          length-random_list F (t - 1) r,
        ),
  )

  -- All dealers, from shares on two polynomials.
  pub reshare_all_lem :
      (ids : List PartyId) (t : ℕ) (sid : Bytes) (cb : FeldmanCommitment G) (p q : ShamirPoly F)
      (js : List PartyId) (rngs : List R) {rs : List (Resharing F G)} {rngs' : List R}
      → 1 ≤ t
      → reshare_all ids t sid cb js (map (eval p) js) (map (eval q) js) rngs ≡ ok (rs, rngs')
      → Commits
          (zero_scalar {F = F})
          (products (map (eval p) js) (map (eval q) js))
          (map (λ r. r.cm) rs)
        × All (λ (d : FeldmanCommitment G). length d.points ≤ t) (map (λ r. r.cm) rs)
        × (length (map (λ r. r.cm) rs) ≡ length js)
  unfolding reshare_all
  reshare_all_lem ids t sid cb p q [] rngs {rs} t1 e =
      subst
        (λ (rs : List (Resharing F G)).
          Commits (zero_scalar {F = F}) [] (map (λ r. r.cm) rs)
          × All (λ (d : FeldmanCommitment G). length d.points ≤ t) (map (λ r. r.cm) rs)
          × (length (map (λ r. r.cm) rs) ≡ 0))
        (ap (λ (t : List (Resharing F G) × List R). t.0) (ok_injective e)) (tt, tt, refl)
  reshare_all_lem ids t sid cb p q (j ∷ js) [] t1 e = cc
  reshare_all_lem ids t sid cb p q (j ∷ js) (r ∷ rngs) {rs} t1 e =
      let ((rest, rngs'), w, e1) =
        >>=-eq-ok (reshare_all ids t sid cb js (map (eval p) js) (map (eval q) js) rngs) _ e in
      let (v, n) = reshare_product_lem ids t sid cb j (eval p j) (eval q j) r t1 in
      let (cs, ls, k) = reshare_all_lem ids t sid cb p q js rngs t1 w in
      subst
        (λ (rs : List (Resharing F G)).
          Commits (zero_scalar {F = F})
            (eval p j ⊗ eval q j ∷ products (map (eval p) js) (map (eval q) js))
            (map (λ r. r.cm) rs)
          × All (λ (d : FeldmanCommitment G). length d.points ≤ t) (map (λ r. r.cm) rs)
          × (length (map (λ r. r.cm) rs) ≡ suc (length js)))
        (ap (λ (t : List (Resharing F G) × List R). t.0) (ok_injective e1))
        ((v, cs), (n, ls), ap suc k)

module _ {F G : Type 0} ⦃f : Field F⦄ where
  -- The fault injection leaves the commitments alone.
  update_at-cms :
      (n : ℕ) (change : Resharing F G → Resharing F G) (rs : List (Resharing F G))
      → ((r : Resharing F G) → (change r).cm ≡ r.cm)
      → map (λ r. r.cm) (update_at n change rs) ≡ map (λ r. r.cm) rs
  update_at-cms n change [] k = refl
  update_at-cms zero change (r ∷ rs) k = ap (λ d. d ∷ map (λ r. r.cm) rs) (k r)
  update_at-cms (suc n) change (r ∷ rs) k = ap (λ ds. r.cm ∷ ds) (update_at-cms n change rs k)

  tamper_share-cms :
      (committee : Committee) (o : Option (PartyId × PartyId)) (rs : List (Resharing F G))
      → map (λ r. r.cm) (tamper_share committee o rs) ≡ map (λ r. r.cm) rs
  unfolding tamper_share
  tamper_share-cms committee none rs = refl
  tamper_share-cms committee (some (dealer, victim)) rs =
      elim (position committee dealer)
        as (λ (o : Option ℕ).
          map (λ r. r.cm)
            (elim o [
              | none ↦ rs
              | some d ↦ elim (position committee victim) [
                | none ↦ rs
                | some v ↦
                    update_at d
                      (λ r. record r { shares = update_at v (λ s. s ⊕ one_scalar) r.shares }) rs
              ]
            ])
          ≡ map (λ r. r.cm) rs) [
            | none ↦ refl
            | some d ↦
                elim (position committee victim)
                  as (λ (o : Option ℕ).
                    map (λ r. r.cm)
                      (elim o [
                        | none ↦ rs
                        | some v ↦
                            update_at d
                              (λ r. record r {
                                shares = update_at v (λ s. s ⊕ one_scalar) r.shares;
                              })
                              rs
                      ])
                    ≡ map (λ r. r.cm) rs) [
                      | none ↦ refl
                      | some v ↦ update_at-cms d _ rs (λ r. refl)
                    ]
          ]

  tamper_proof-cms :
      (committee : Committee) (o : Option PartyId) (rs : List (Resharing F G))
      → map (λ r. r.cm) (tamper_proof committee o rs) ≡ map (λ r. r.cm) rs
  unfolding tamper_proof
  tamper_proof-cms committee none rs = refl
  tamper_proof-cms committee (some j) rs =
      elim (position committee j)
        as (λ (o : Option ℕ).
          map (λ r. r.cm)
            (elim o [
              | none ↦ rs
              | some p ↦
                  update_at p
                    (λ r. record r { proof = record r.proof { z = r.proof.z ⊕ one_scalar } }) rs
            ])
          ≡ map (λ r. r.cm) rs) [ none ↦ refl | some p ↦ update_at-cms p _ rs (λ r. refl) ]

  pub tampered-cms :
      (committee : Committee) (o : Option TripleTamper) (rs : List (Resharing F G))
      → map (λ r. r.cm) (tampered committee o rs) ≡ map (λ r. r.cm) rs
  unfolding tampered
  tampered-cms committee none rs = refl
  tampered-cms committee (some tamp) rs =
      tamper_proof-cms committee tamp.bad_product_proof (tamper_share committee tamp.bad_reshare rs)
      ∙ tamper_share-cms committee tamp.bad_reshare rs
