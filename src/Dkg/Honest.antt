-- ===== src/Dkg/Honest.antt =====
-- Honest dealers: what `start_with_secret` and `reveal` send is accepted by every party, a party that
-- gets only such messages finalizes, and the complaint about an honest dealer blames the accuser.
use ohm_ecdsa.Prelude.{
  ◌-◌, ◌≤◌, ◌≡◌, ◌≢◌, refl, sym, ap, ◌∙◌, List, [], ◌∷◌, ◌++◌, some, true, false, if◌then◌else◌,
  length, map, Bool-cases, inl, inr, length-map, All, arith, ==_iff,
}
use mathlib.Core.List.{append-nil, append_assoc}
use ohm_ecdsa.Core.{PartyId, Phase, Committee, abort, false_accusation, defense_fails, ok}
use ohm_ecdsa.Core.Map.{get}
use ohm_ecdsa.Field.{Field, zero_scalar, ◌⊕◌, ◌=?◌}
use ohm_ecdsa.Field.Laws.{=?_cases, add_assoc, add-zero, zero-add}
use ohm_ecdsa.Curve.{Group, Action}
use ohm_ecdsa.Encoding.{Bytes, same_bytes_iff, Hash, PointEncoding}
use ohm_ecdsa.Rng.{Rng, random_list, length-random_list}
use ohm_ecdsa.Shamir.{ShamirPoly, random_poly, eval}
use ohm_ecdsa.Vss.{FeldmanCommitment, from_poly, verify_share, sum}
use ohm_ecdsa.Vss.Laws.{sum_exists, verify_share-from_poly}
use ohm_ecdsa.Dkg.{
  DkgBcast1, DkgInstance, Inbox, start_with_secret, share_for, defend, revealed, resolve_complaint,
  settle_share, check_share, check_dealer, finalize_loop, is_complete, finalize,
}
use ohm_ecdsa.Dkg.Hashing.{hash_commitment}
use ohm_ecdsa.Dkg.Finalize.{IsAccepted}

module _ {F G R : Type 0} ⦃f : Field F⦄ ⦃g : Group G⦄ ⦃c : Action F G⦄ ⦃h : Hash⦄
    ⦃pe : PointEncoding G⦄ ⦃rng : Rng F R⦄ (committee : Committee) (sid tag : Bytes) (me : PartyId)
    (secret : F) (r : R) where
  abbrev dealer : DkgInstance F G
  dealer = (start_with_secret committee sid tag me secret r).0

  -- An honest dealer reveals a vector of t points that hashes to its round-1 broadcast, and the share
  -- that it sends to any party, which is its defense too, passes the check of that party.
  honest_dealing :
      1 ≤ committee.t
      → (j : PartyId)
      → (revealed dealer ≡ ok dealer.cm)
        × (length dealer.cm.points ≡ committee.t)
        × (hash_commitment sid tag me dealer.cm
            ≡ (start_with_secret {G = G} committee sid tag me secret r).1.hash)
        × (verify_share dealer.cm j (share_for dealer j) ≡ true)
        × (defend dealer j ≡ share_for dealer j)
  unfolding start_with_secret revealed share_for defend random_poly
  honest_dealing t j = (
    refl,
    unfold from_poly in
        (length-map (secret ∷ (random_list (committee.t - 1) r).0) _
          ∙ omega (arith, length-random_list F (committee.t - 1) r)),
    refl,
    (verify_share-from_poly G (random_poly secret committee.t r).0 j _).1 refl,
    refl,
  )

module _ {F G : Type 0} ⦃f : Field F⦄ ⦃g : Group G⦄ ⦃c : Action F G⦄ ⦃h : Hash⦄
    ⦃pe : PointEncoding G⦄ (inst : DkgInstance F G) (phase : Phase) (box : Inbox F G) where
  check_dealer_accepts :
      (i : PartyId) (s : F) (cm : FeldmanCommitment G)
      → IsAccepted inst phase box i s cm
      → check_dealer inst phase box i ≡ ok (s, cm)
  unfolding check_dealer check_share settle_share
  check_dealer_accepts i s cm a = rw (
    a.bound.committed,
    a.bound.revealed,
    a.bound.same,
    (==_iff _ _).1 a.bound.degree,
    (same_bytes_iff _ _).1 a.bound.hashes,
    a.received,
    a.verified,
  )

-- The sum of scalars, in their order.
abbrev pub total : {F : Type 0} → ⦃f : Field F⦄ → List F → F
total [] = zero_scalar
total (s ∷ ss) = s ⊕ total ss

module _ {F G R : Type 0} ⦃f : Field F⦄ ⦃g : Group G⦄ ⦃c : Action F G⦄ ⦃h : Hash⦄
    ⦃pe : PointEncoding G⦄ ⦃rng : Rng F R⦄ (committee : Committee) (sid tag : Bytes)
    (secret : PartyId → F) (seed : PartyId → R) where
  -- Each party deals its secret with its random source.
  abbrev pub deal : PartyId → DkgInstance F G × DkgBcast1 × R
  deal i = start_with_secret committee sid tag i (secret i) (seed i)

  -- The messages of dealer i to the party: its hash, its vector, and its polynomial's value at the party.
  abbrev pub IsHonestlyDealt : Inbox F G → PartyId → PartyId → Type 0
  IsHonestlyDealt box me i =
      (get i box.r1 ≡ some (deal i).1)
      × (get i box.r2 ≡ some (record { from = i; cm = (deal i).0.cm }))
      × (get i box.shares ≡ some (eval (deal i).0.poly me))

  honest-IsAccepted :
      (phase : Phase) (box : Inbox F G) (me i : PartyId)
      → 1 ≤ committee.t
      → IsHonestlyDealt box me i
      → IsAccepted (deal me).0 phase box i (eval (deal i).0.poly me) (deal i).0.cm
  unfolding start_with_secret share_for
  honest-IsAccepted phase box me i t (a, b, s) =
      let (_, degree, hashes, passes, _) =
        honest_dealing committee sid tag i (secret i) (seed i) t me in
      record {
        bound = record {
          b1 = (deal i).1;
          b2 = record { from = i; cm = (deal i).0.cm };
          committed = a;
          revealed = b;
          same = refl;
          degree = degree;
          hashes = hashes;
        };
        received = s;
        verified = passes;
      }

  loop_honest :
      (phase : Phase) (box : Inbox F G) (me : PartyId) (ids : List PartyId) (acc : F)
      (cms : List (FeldmanCommitment G))
      → 1 ≤ committee.t
      → All (IsHonestlyDealt box me) ids
      → finalize_loop (deal me).0 phase box ids acc cms
        ≡ ok (
          acc ⊕ total (map (λ i. eval (deal i).0.poly me) ids),
          cms ++ map (λ i. (deal i).0.cm) ids,
        )
  unfolding finalize_loop
  loop_honest phase box me [] acc cms t a = λ j. ok (sym (add-zero acc) j, sym (append-nil cms) j)
  loop_honest phase box me (i ∷ ids) acc cms t (w, a) =
      rw
        (check_dealer_accepts (deal me).0 phase box i (eval (deal i).0.poly me) (deal i).0.cm
          (honest-IsAccepted phase box me i t w))
        (loop_honest phase box me ids _ _ t a ∙ (λ j. ok (
          add_assoc acc (eval (deal i).0.poly me) (total (map (λ i. eval (deal i).0.poly me) ids))
              j,
          append_assoc cms ((deal i).0.cm ∷ []) (map (λ i. (deal i).0.cm) ids) j,
        )))

  vectors_sum :
      (ids : List PartyId)
      → ids ≢ []
      → (d : FeldmanCommitment G) × (sum (map (λ i. (deal i).0.cm) ids) ≡ some d)
  vectors_sum [] ne = absurd (ne refl)
  vectors_sum (i ∷ ids) ne = sum_exists (deal i).0.cm (map (λ i. (deal i).0.cm) ids)

  -- An honest run completes. When every member of a committee that has members and a threshold of at least 1 deals
  -- its secret, and the message sets of a party that deals too are complete and hold the hash, the vector and the
  -- share that each member's dealing gives, the party finalizes: its share is the sum of the members' polynomials
  -- at it, and its commitment the sum of their vectors.
  pub finalize_honest :
      (phase : Phase) (box : Inbox F G) (me : PartyId)
      → committee.ids ≢ []
      → 1 ≤ committee.t
      → is_complete (length committee.ids) box ≡ true
      → All (IsHonestlyDealt box me) committee.ids
      → (d : FeldmanCommitment G) × (sum (map (λ i. (deal i).0.cm) committee.ids) ≡ some d)
        × (finalize (deal me).0 phase box
            ≡ ok (record {
              index = me;
              share = total (map (λ i. eval (deal i).0.poly me) committee.ids);
              cm = d;
            }))
  unfolding finalize start_with_secret
  finalize_honest phase box me ne t full a =
      let (d, q) = vectors_sum committee.ids ne in
      let l =
        loop_honest phase box me committee.ids zero_scalar [] t a
        ∙ ap (λ s. ok (s, map (λ i. (deal i).0.cm) committee.ids)) (zero-add _) in
      (d, q, rw (full, l, q) refl)

module _ {F : Type 0} (G : Type 0) ⦃f : Field F⦄ ⦃g : Group G⦄ ⦃c : Action F G⦄ where
  -- The complaint about a dealer committed to p blames the accuser if the defense is p's value at the
  -- accuser, and else the dealer.
  complaint_verdict :
      (phase : Phase) (p : ShamirPoly F) (i accuser : PartyId) (d : F)
      → resolve_complaint phase (from_poly {G = G} p) i accuser d ≡ (
          if d =? eval p accuser
          then abort (record { phase = phase; blamed = accuser ∷ []; detail = false_accusation i })
          else abort (record { phase = phase; blamed = i ∷ []; detail = defense_fails i }))
  unfolding resolve_complaint
  complaint_verdict phase p i accuser d = elim (=?_cases d (eval p accuser)) [
    | inl (e, q) ↦ rw (e, (verify_share-from_poly G p accuser d).1 q)
    | inr (e, ne) ↦ rw (e, rejected ne)
  ]
    where
      rejected : d ≢ eval p accuser → verify_share (from_poly {G = G} p) accuser d ≡ false
      rejected ne = elim (Bool-cases (verify_share (from_poly {G = G} p) accuser d)) [
        | inl t ↦ absurd (ne ((verify_share-from_poly G p accuser d).0 t))
        | inr t ↦ t
      ]
