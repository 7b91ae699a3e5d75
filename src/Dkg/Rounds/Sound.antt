-- ===== src/Dkg/Rounds/Sound.antt =====
-- What the parties hold after the rounds of a DKG that succeeds: shares of one committed polynomial.
use ohm_ecdsa.Prelude.{
  ℕ, ◌≤◌, ◌≡◌, refl, sym, ap, ap₂, subst, ◌∙◌, List, [], ◌∷◌, some, true, length, map, All,
}
use ohm_ecdsa.Core.{PartyId, Phase, Committee, ok, >>=-eq-ok, ok_injective}
use ohm_ecdsa.Core.Map.{Map}
use ohm_ecdsa.Field.{Field}
use ohm_ecdsa.Curve.{Group, Action}
use ohm_ecdsa.Encoding.{Bytes, Hash, PointEncoding}
use ohm_ecdsa.Rng.{Rng}
use ohm_ecdsa.Vss.{FeldmanCommitment, verify_share, sum}
use ohm_ecdsa.Dkg.{
  DkgBcast1, DkgBcast2, DkgP2P, DkgInstance, DkgOutput, start_committee, start_with_secret, Inbox,
  finalize,
}
use ohm_ecdsa.Dkg.Finalize.{revealed_of, finalize_sound}
use ohm_ecdsa.Dkg.Joint.{Run, IsRunOf, run_commitment, run_length}
use ohm_ecdsa.Dkg.Rounds.{Started, start_all, finalize_all}

module _ {F G : Type 0} ⦃f : Field F⦄ ⦃g : Group G⦄ ⦃c : Action F G⦄ where
  -- The outputs of the parties ids: all hold the commitment cm of at most t points, and each a share on it.
  pub record IsSharing (t : ℕ) (ids : List PartyId) (cm : FeldmanCommitment G)
      (outs : List (DkgOutput F G)) : Type 0 where
    pub indices : map (λ o. o.index) outs ≡ ids
    pub held : All (λ o. (o.cm ≡ cm) × (verify_share cm o.index o.share ≡ true)) outs
    pub degree : length cm.points ≤ t

module _ {F G : Type 0} ⦃f : Field F⦄ ⦃g : Group G⦄ ⦃c : Action F G⦄ ⦃h : Hash⦄
    ⦃pe : PointEncoding G⦄ (committee : Committee) (phase : Phase) (r1 : Map DkgBcast1)
    (r2 : Map (DkgBcast2 G)) (p2p : List (DkgP2P F)) (all : List (DkgInstance F G)) where
  -- An output of a party that finalized over the reveals.
  abbrev IsOutput : DkgOutput F G → Type 0
  IsOutput o =
      (sum (revealed_of r2 committee.ids) ≡ some o.cm)
      × (verify_share o.cm o.index o.share ≡ true)
      × (length o.cm.points ≤ committee.t)

  finalize-IsOutput :
      (inst : DkgInstance F G) (box : Inbox F G) (o : DkgOutput F G)
      → inst.committee ≡ committee
      → box.r2 ≡ r2
      → finalize inst phase box ≡ ok o
      → (o.index ≡ inst.me) × IsOutput o
  finalize-IsOutput inst box o e d p =
      let r : Run F G = record { inst = inst; box = box; out = o } in
      let v : IsRunOf phase committee r2 r = record { finalized = p; over = e; reveals = d } in
      let (i, s, _, _) = finalize_sound inst phase box p in
      (
        i,
        (
          run_commitment r v,
          subst (λ j. verify_share o.cm j o.share ≡ true) (sym i) s,
          run_length r v,
        ),
      )

  finalize_all-IsOutput :
      (insts : List (DkgInstance F G)) {outs : List (DkgOutput F G)}
      → All (λ i. i.committee ≡ committee) insts
      → finalize_all phase r1 r2 p2p all insts ≡ ok outs
      → (map (λ o. o.index) outs ≡ map (λ i. i.me) insts) × All IsOutput outs
  unfolding finalize_all
  finalize_all-IsOutput [] a e =
      subst (λ (os : List (DkgOutput F G)). (map (λ o. o.index) os ≡ []) × All IsOutput os)
        (ok_injective e) (refl, tt)
  finalize_all-IsOutput (inst ∷ insts) (v, a) e =
      let (o, p, e1) = >>=-eq-ok (finalize inst phase _) _ e in
      let (os, q, e2) = >>=-eq-ok (finalize_all phase r1 r2 p2p all insts) _ e1 in
      let (i, w) = finalize-IsOutput inst _ o v refl p in
      let (is, ws) = finalize_all-IsOutput insts a q in
      subst
        (λ (os : List (DkgOutput F G)).
          (map (λ o. o.index) os ≡ inst.me ∷ map (λ i. i.me) insts) × All IsOutput os)
        (ok_injective e2) (ap₂ ◌∷◌ i is, (w, ws))

  -- All outputs have the commitment of one of them.
  one_commitment :
      (o : DkgOutput F G) (outs : List (DkgOutput F G))
      → IsOutput o
      → All IsOutput outs
      → All (λ p. (p.cm ≡ o.cm) × (verify_share o.cm p.index p.share ≡ true)) outs
  one_commitment o [] v a = tt
  one_commitment o (p ∷ ps) v (w, a) =
      let q : p.cm ≡ o.cm = (let s : some p.cm ≡ some o.cm = sym w.0 ∙ v.0 in cc) in
      (
        (q, subst (λ (d : FeldmanCommitment G). verify_share d p.index p.share ≡ true) q w.1),
        one_commitment o ps v a,
      )

  -- Parties of one committee that all finalize hold a sharing, under the commitment of the first.
  pub finalize_all-IsSharing :
      (insts : List (DkgInstance F G)) (o : DkgOutput F G) (outs : List (DkgOutput F G))
      → All (λ i. i.committee ≡ committee) insts
      → map (λ i. i.me) insts ≡ committee.ids
      → finalize_all phase r1 r2 p2p all insts ≡ ok (o ∷ outs)
      → IsSharing committee.t committee.ids o.cm (o ∷ outs)
  finalize_all-IsSharing insts o outs a m e =
      let (i, (v, vs)) = finalize_all-IsOutput insts a e in
      record { indices = i ∙ m; held = ((refl, v.1), one_commitment o outs v vs); degree = v.2 }

module _ {F G R : Type 0} ⦃f : Field F⦄ ⦃g : Group G⦄ ⦃c : Action F G⦄ ⦃h : Hash⦄
    ⦃pe : PointEncoding G⦄ ⦃rng : Rng F R⦄ where
  -- Round 1 starts one instance for each id, in order.
  pub start_all_ok :
      (committee : Committee) (sid tag : Bytes) (ids : List PartyId) (rngs : List R)
      {s : Started F G R}
      → start_all committee sid tag ids rngs ≡ ok s
      → All (λ i. i.committee ≡ committee) s.insts × (map (λ i. i.me) s.insts ≡ ids)
  unfolding start_all start_committee start_with_secret
  start_all_ok committee sid tag [] rngs e =
      subst
        (λ (s : Started F G R).
          All (λ i. i.committee ≡ committee) s.insts × (map (λ i. i.me) s.insts ≡ []))
        (ok_injective e) (tt, refl)
  start_all_ok committee sid tag (i ∷ ids) [] e = cc
  start_all_ok committee sid tag (i ∷ ids) (r ∷ rngs) e =
      let (rest, p, q) = >>=-eq-ok (start_all committee sid tag ids rngs) _ e in
      let (a, m) = start_all_ok committee sid tag ids rngs p in
      subst
        (λ (s : Started F G R).
          All (λ i. i.committee ≡ committee) s.insts × (map (λ i. i.me) s.insts ≡ i ∷ ids))
        (ok_injective q) ((refl, a), ap (λ is. i ∷ is) m)
