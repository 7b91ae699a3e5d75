-- ===== src/Triples/Robust/Blame.antt =====
-- Whom an abort of `generate_robust_with_committee` of src/protocol/triples.rs blames: one member.
use ohm_ecdsa.Prelude.{
  ℕ, ◌≡◌, ◌≢◌, ◌∙◌, refl, sym, ap, subst, List, [], ◌∷◌, ◌++◌, Option, none, some, Bool-cases, inl,
  inr, ltb, map, length, All, All-unmap, get_elem?, suc,
}
use ohm_ecdsa.Core.{
  PartyId, Phase, IdentifiableAbort, Error, abort, Committee, ok, err, expect, ensure, >>=-eq-ok,
  >>=-eq-err, expect-ne-err, ensure-eq-err, ok_injective, err_injective,
}
use ohm_ecdsa.Core.Map.{Map, keys, collect_into, All-collect_into, All-get}
use ohm_ecdsa.Core.Tags.{ascii}
use ohm_ecdsa.Field.{Field, zero_scalar}
use ohm_ecdsa.Curve.{Group, Action, ◌=ₚ◌}
use ohm_ecdsa.Encoding.{Bytes, Hash, PointEncoding}
use ohm_ecdsa.Rng.{Rng}
use ohm_ecdsa.Vss
use ohm_ecdsa.Vss.{FeldmanCommitment, scale}
use ohm_ecdsa.Policy.{contains_id}
use ohm_ecdsa.Shamir.{lagrange_coeffs}
use ohm_ecdsa.Dkg.{
  DkgOutput, revealed, reveal, DkgInstance, DkgBcast1, DkgBcast2, DkgP2P, Inbox, is_complete,
  finalize,
}
use ohm_ecdsa.Dkg.Blame.{
  Fault, malformed, mismatch, bad_dealer, bad_accuser, Explains, finalize_blame,
}
use ohm_ecdsa.Dkg.Rounds.{start_all, reveal_all, finalize_all}
use ohm_ecdsa.Dkg.Rounds.Sound.{start_all_ok}
use ohm_ecdsa.Dleq.{Digest}
use ohm_ecdsa.Triples.{
  TripleTamper, Resharing, joint_random, reshare_all, accumulate, check_product, column,
  triple_records, first_of, tampered,
}
use ohm_ecdsa.Presign.{TriplePublic}
use ohm_ecdsa.Triples.Robust.{
  addressed, recomputed, recompute_one, reconstruct, recover_reshares, combine_products_robust,
  multiply_robust, generate_robust_with_committee,
}

-- An error that is an abort blames one party, which has the property.
abbrev pub BlamesOne : (PartyId → Type 0) → Error → Type 0
BlamesOne P e =
    (report : IdentifiableAbort) → e ≡ abort report → (p : PartyId) × (report.blamed ≡ p ∷ []) × P p

module _ {F G : Type 0} ⦃f : Field F⦄ ⦃g : Group G⦄ ⦃c : Action F G⦄ ⦃h : Hash⦄
    ⦃pe : PointEncoding G⦄ (P : PartyId → Type 0) where
  accused_member :
      (inst : DkgInstance F G) (phase : Phase) (box : Inbox F G) (blamed : List PartyId)
      → P inst.me
      → All P (keys box.r2)
      → Fault inst phase box blamed
      → (p : PartyId) × (blamed ≡ p ∷ []) × P p
  accused_member inst phase box blamed m a (malformed i b e n) = (i, refl, All-get P i box.r2 a e)
  accused_member inst phase box blamed m a (mismatch i b1 b e1 e n) =
      (i, refl, All-get P i box.r2 a e)
  accused_member inst phase box blamed m a (bad_dealer i b s d e q r v w) =
      (i, refl, All-get P i box.r2 a e)
  accused_member inst phase box blamed m a (bad_accuser i b s d e q r v w) = (inst.me, refl, m)

  finalize-BlamesOne :
      (inst : DkgInstance F G) (phase : Phase) (box : Inbox F G) {e : Error}
      → P inst.me
      → All P (keys box.r2)
      → finalize inst phase box ≡ err e
      → BlamesOne P e
  unfolding finalize
  finalize-BlamesOne inst phase box {e} m a x report r =
      elim (Bool-cases (is_complete (length inst.committee.ids) box)) [
        | inl t ↦
            let why : Explains inst phase box e = finalize_blame inst phase box t x in
            let (p, one, member) = accused_member inst phase box why.report.blamed m a why.fault in
            let same : why.report ≡ report = cc (sym why.raised ∙ r) in
            (p, ap (λ (a : IdentifiableAbort). a.blamed) (sym same) ∙ one, member)
        | inr t ↦ cc (rw t at x, r)
      ]

  finalize_all-BlamesOne :
      (phase : Phase) (r1 : Map DkgBcast1) (r2 : Map (DkgBcast2 G)) (p2p : List (DkgP2P F))
      (all insts : List (DkgInstance F G)) {e : Error}
      → All (λ (inst : DkgInstance F G). P inst.me) insts
      → All P (keys r2)
      → finalize_all phase r1 r2 p2p all insts ≡ err e
      → BlamesOne P e
  unfolding finalize_all
  finalize_all-BlamesOne phase r1 r2 p2p all [] m a x = cc x
  finalize_all-BlamesOne phase r1 r2 p2p all (inst ∷ insts) (m, ms) a x =
      elim (>>=-eq-err (finalize inst phase _) _ x) [
        | inl y ↦ finalize-BlamesOne inst phase _ m a y
        | inr (out, y, z) ↦ elim (>>=-eq-err (finalize_all phase r1 r2 p2p all insts) _ z) [
          | inl w ↦ finalize_all-BlamesOne phase r1 r2 p2p all insts ms a w
          | inr (outs, w, v) ↦ cc v
        ]
      ]

  reveal_all_keys :
      (insts : List (DkgInstance F G)) {r2 : List (PartyId × DkgBcast2 G)} {p2p : List (DkgP2P F)}
      → reveal_all insts ≡ ok (r2, p2p)
      → map (λ e. e.0) r2 ≡ map (λ i. i.me) insts
  unfolding reveal_all
  reveal_all_keys [] x =
      ap (λ (t : List (PartyId × DkgBcast2 G) × List (DkgP2P F)). map (λ e. e.0) t.0)
        (sym (ok_injective x))
  reveal_all_keys (inst ∷ insts) x =
      let ((b2, shares), p, x1) = >>=-eq-ok (reveal inst) _ x in
      let ((r2, p2p), q, x2) = >>=-eq-ok (reveal_all insts) _ x1 in
      ap (λ (t : List (PartyId × DkgBcast2 G) × List (DkgP2P F)). map (λ e. e.0) t.0)
        (sym (ok_injective x2))
      ∙ ap (λ is. inst.me ∷ is) (reveal_all_keys insts q)

  reveal_ne_err : (inst : DkgInstance F G) {e : Error} → reveal inst ≢ err e
  unfolding reveal revealed
  reveal_ne_err inst x = elim (>>=-eq-err (revealed inst) _ x) [
    | inl y ↦ elim (Bool-cases inst.bad_reveal) [
      | inl t ↦ expect-ne-err _ (rw t at y)
      | inr t ↦ cc (rw t at y)
    ]
    | inr (d, _, z) ↦ cc z
  ]

  reveal_all_ne_err : (insts : List (DkgInstance F G)) {e : Error} → reveal_all insts ≢ err e
  unfolding reveal_all
  reveal_all_ne_err [] x = cc x
  reveal_all_ne_err (inst ∷ insts) x = elim (>>=-eq-err (reveal inst) _ x) [
    | inl y ↦ reveal_ne_err inst y
    | inr (_, _, z) ↦ elim (>>=-eq-err (reveal_all insts) _ z) [
      | inl w ↦ reveal_all_ne_err insts w
      | inr (_, _, v) ↦ cc v
    ]
  ]

module _ {F G R : Type 0} ⦃f : Field F⦄ ⦃g : Group G⦄ ⦃c : Action F G⦄ ⦃h : Hash⦄
    ⦃pe : PointEncoding G⦄ ⦃rng : Rng F R⦄ (P : PartyId → Type 0) where
  start_all_ne_err :
      (committee : Committee) (sid tag : Bytes) (ids : List PartyId) (rngs : List R) {e : Error}
      → start_all {F = F} {G = G} committee sid tag ids rngs ≢ err e
  unfolding start_all
  start_all_ne_err committee sid tag [] rngs x = cc x
  start_all_ne_err committee sid tag (i ∷ ids) [] x = cc x
  start_all_ne_err committee sid tag (i ∷ ids) (r ∷ rngs) x =
      elim (>>=-eq-err (start_all {F = F} {G = G} committee sid tag ids rngs) _ x) [
        | inl y ↦ start_all_ne_err committee sid tag ids rngs y
        | inr (_, _, z) ↦ cc z
      ]

  -- A joint sharing blames a member.
  joint_random-BlamesOne :
      (committee : Committee) (sid : Bytes) (rngs : List R) (phase : Phase) {e : Error}
      → All P committee.ids
      → joint_random {F = F} {G = G} committee sid rngs phase ≡ err e
      → BlamesOne P e
  unfolding joint_random
  joint_random-BlamesOne committee sid rngs phase a x =
      elim (>>=-eq-err (start_all {F = F} {G = G} committee sid _ committee.ids rngs) _ x) [
        | inl y ↦ absurd (start_all_ne_err committee sid _ committee.ids rngs y)
        | inr (st, p, x1) ↦ elim (>>=-eq-err (reveal_all st.insts) _ x1) [
          | inl y ↦ absurd (reveal_all_ne_err P st.insts y)
          | inr ((r2, p2p), q, x2) ↦
              let (_, m) = start_all_ok committee sid _ committee.ids rngs p in
              let mes : All P (map (λ i. i.me) st.insts) = subst (All P) (sym m) a in
              elim (>>=-eq-err (finalize_all phase _ _ p2p st.insts st.insts) _ x2) [
                | inl y ↦
                    finalize_all-BlamesOne P phase _ (collect_into [] r2) p2p st.insts st.insts
                      (All-unmap P (λ i. i.me) st.insts mes)
                      (All-collect_into P [] r2 tt
                        (subst (All P) (sym (reveal_all_keys P st.insts q)) mes))
                      y
                | inr (_, _, z) ↦ cc z
              ]
        ]
      ]

-- Calls that never return an error: they panic or succeed.
module _ {F : Type 0} ⦃f : Field F⦄ where
  addressed_ne_err : (ids : List PartyId) (ss : List F) {e : Error} → addressed ids ss ≢ err e
  unfolding addressed
  addressed_ne_err ids [] x = cc x
  addressed_ne_err [] (s ∷ ss) x = cc x
  addressed_ne_err (i ∷ ids) (s ∷ ss) x = elim (>>=-eq-err (addressed ids ss) _ x) [
    | inl y ↦ addressed_ne_err ids ss y
    | inr (_, _, z) ↦ cc z
  ]

  recompute_one_ne_err :
      (victims vp : List PartyId) (vs : List F) (i : PartyId) (s : F) {e : Error}
      → recompute_one victims vp vs i s ≢ err e
  unfolding recompute_one
  recompute_one_ne_err victims vp vs i s x = elim (Bool-cases (contains_id victims i)) [
    | inl t ↦ expect-ne-err _ (rw t at x)
    | inr t ↦ cc (rw t at x)
  ]

  recomputed_ne_err :
      (victims vp : List PartyId) (vs : List F) (es : List (PartyId × F)) {e : Error}
      → recomputed victims vp vs es ≢ err e
  unfolding recomputed
  recomputed_ne_err victims vp vs [] x = cc x
  recomputed_ne_err victims vp vs ((i, s) ∷ es) x =
      elim (>>=-eq-err (recompute_one victims vp vs i s) _ x) [
        | inl y ↦ recompute_one_ne_err victims vp vs i s y
        | inr (_, _, z) ↦ elim (>>=-eq-err (recomputed victims vp vs es) _ z) [
          | inl w ↦ recomputed_ne_err victims vp vs es w
          | inr (_, _, v) ↦ cc v
        ]
      ]

module _ {F G R : Type 0} ⦃f : Field F⦄ ⦃g : Group G⦄ ⦃c : Action F G⦄ ⦃h : Hash⦄
    ⦃pe : PointEncoding G⦄ ⦃d : Digest F⦄ ⦃rng : Rng F R⦄ where
  reshare_all_ne_err :
      (ids : List PartyId) (t : ℕ) (sid : Bytes) (cb : FeldmanCommitment G) (js : List PartyId)
      (as' bs : List F) (rngs : List R) {e : Error}
      → reshare_all ids t sid cb js as' bs rngs ≢ err e
  unfolding reshare_all
  reshare_all_ne_err ids t sid cb [] as' bs rngs x = cc x
  reshare_all_ne_err ids t sid cb (j ∷ js) [] bs rngs x = cc x
  reshare_all_ne_err ids t sid cb (j ∷ js) (a ∷ as') [] rngs x = cc x
  reshare_all_ne_err ids t sid cb (j ∷ js) (a ∷ as') (b ∷ bs) [] x = cc x
  reshare_all_ne_err ids t sid cb (j ∷ js) (a ∷ as') (b ∷ bs) (r ∷ rngs) x =
      elim (>>=-eq-err (reshare_all ids t sid cb js as' bs rngs) _ x) [
        | inl y ↦ reshare_all_ne_err ids t sid cb js as' bs rngs y
        | inr (_, _, z) ↦ cc z
      ]

module _ {F G : Type 0} ⦃f : Field F⦄ where
  column_ne_err :
      (k : ℕ) (ls : List F) (rs : List (Resharing F G)) (acc : F) {e : Error}
      → column k ls rs acc ≢ err e
  unfolding column
  column_ne_err k [] rs acc x = cc x
  column_ne_err k (l ∷ ls) [] acc x = cc x
  column_ne_err k (l ∷ ls) (r ∷ rs) acc x = elim (>>=-eq-err (expect (get_elem? r.shares k)) _ x) [
    | inl y ↦ expect-ne-err _ y
    | inr (s, _, z) ↦ column_ne_err k ls rs _ z
  ]

  triple_records_ne_err :
      (k : ℕ) (ids : List PartyId) (as' bs ls : List F) (rs : List (Resharing F G))
      (public : TriplePublic G) {e : Error}
      → triple_records k ids as' bs ls rs public ≢ err e
  unfolding triple_records
  triple_records_ne_err k [] as' bs ls rs public x = cc x
  triple_records_ne_err k (i ∷ ids) [] bs ls rs public x = cc x
  triple_records_ne_err k (i ∷ ids) (a ∷ as') [] ls rs public x = cc x
  triple_records_ne_err k (i ∷ ids) (a ∷ as') (b ∷ bs) ls rs public x =
      elim (>>=-eq-err (column k ls rs zero_scalar) _ x) [
        | inl y ↦ column_ne_err k ls rs zero_scalar y
        | inr (s, _, z) ↦ elim (>>=-eq-err (triple_records (suc k) ids as' bs ls rs public) _ z) [
          | inl w ↦ triple_records_ne_err (suc k) ids as' bs ls rs public w
          | inr (_, _, v) ↦ cc v
        ]
      ]

module _ (P : PartyId → Type 0) where
  blames_one :
      (j : PartyId) (report : IdentifiableAbort) {e : Error}
      → P j
      → report.blamed ≡ j ∷ []
      → abort report ≡ e
      → BlamesOne P e
  blames_one j report m one q report' r =
      let same : report ≡ report' = cc (q ∙ r) in
      (j, ap (λ (a : IdentifiableAbort). a.blamed) (sym same) ∙ one, m)

module _ {F : Type 0} ⦃f : Field F⦄ (P : PartyId → Type 0) where
  reconstruct-BlamesOne :
      (t : ℕ) (j : PartyId) (ss : List F) (es : List (PartyId × F)) (vp : List PartyId)
      (vs : List F) (victims : List PartyId) {e : Error}
      → P j
      → reconstruct t j ss es vp vs victims ≡ err e
      → BlamesOne P e
  unfolding reconstruct
  reconstruct-BlamesOne t j ss es vp vs [] m x = cc x
  reconstruct-BlamesOne t j ss es vp vs (i ∷ victims) m x = elim (Bool-cases (ltb (length vp) t)) [
    | inl l ↦ blames_one P j _ m refl (err_injective _ (rw l at x))
    | inr l ↦ elim (>>=-eq-err (recomputed (i ∷ victims) _ _ es) _ (rw l at x)) [
      | inl y ↦ absurd (recomputed_ne_err (i ∷ victims) _ _ es y)
      | inr (_, _, z) ↦ cc z
    ]
  ]

module _ {F G : Type 0} ⦃f : Field F⦄ ⦃g : Group G⦄ ⦃c : Action F G⦄ (P : PartyId → Type 0) where
  recover_reshares-BlamesOne :
      (cm : FeldmanCommitment G) (t : ℕ) (j : PartyId) (ids : List PartyId) (ss : List F)
      {e : Error}
      → P j
      → recover_reshares cm t j ids ss ≡ err e
      → BlamesOne P e
  unfolding recover_reshares
  recover_reshares-BlamesOne cm t j ids ss m x = elim (>>=-eq-err (addressed ids ss) _ x) [
    | inl y ↦ absurd (addressed_ne_err ids ss y)
    | inr (es, _, z) ↦ reconstruct-BlamesOne P t j ss es _ _ _ m z
  ]

module _ {F G : Type 0} ⦃f : Field F⦄ ⦃g : Group G⦄ ⦃c : Action F G⦄ ⦃h : Hash⦄
    ⦃pe : PointEncoding G⦄ ⦃d : Digest F⦄ (P : PartyId → Type 0) where
  check_product-BlamesOne :
      (sid : Bytes) (ca cb : FeldmanCommitment G) (j : PartyId) (r : Resharing F G) {e : Error}
      → P j
      → check_product sid ca cb j r ≡ err e
      → BlamesOne P e
  unfolding check_product
  check_product-BlamesOne sid ca cb j r m x =
      elim (>>=-eq-err (ensure (r.x1 =ₚ Vss.eval_at F ca j) _) _ x) [
        | inl y ↦ blames_one P j _ m refl (ensure-eq-err _ _ y).1
        | inr (_, _, x1) ↦ elim (>>=-eq-err (expect (first_of r.cm.points)) _ x1) [
          | inl y ↦ absurd (expect-ne-err _ y)
          | inr (p, _, x2) ↦ elim (>>=-eq-err (ensure (r.x2 =ₚ p) _) _ x2) [
            | inl y ↦ blames_one P j _ m refl (ensure-eq-err _ _ y).1
            | inr (_, _, x3) ↦ blames_one P j _ m refl (ensure-eq-err _ _ x3).1
          ]
        ]
      ]

  combine-BlamesOne :
      (sid : Bytes) (ids : List PartyId) (t : ℕ) (ca cb : FeldmanCommitment G) (js : List PartyId)
      (ls : List F) (rs : List (Resharing F G)) (sum : Option (FeldmanCommitment G)) {e : Error}
      → All P js
      → combine_products_robust sid ids t ca cb js ls rs sum ≡ err e
      → BlamesOne P e
  unfolding combine_products_robust
  combine-BlamesOne sid ids t ca cb [] ls rs sum a x = cc x
  combine-BlamesOne sid ids t ca cb (j ∷ js) [] rs sum a x = cc x
  combine-BlamesOne sid ids t ca cb (j ∷ js) (l ∷ ls) [] sum a x = cc x
  combine-BlamesOne sid ids t ca cb (j ∷ js) (l ∷ ls) (r ∷ rs) sum (m, a) x =
      elim (>>=-eq-err (check_product sid ca cb j r) _ x) [
        | inl y ↦ check_product-BlamesOne sid ca cb j r m y
        | inr (_, _, x1) ↦ elim (>>=-eq-err (recover_reshares r.cm t j ids r.shares) _ x1) [
          | inl y ↦ recover_reshares-BlamesOne P r.cm t j ids r.shares m y
          | inr ((ss, blame), _, x2) ↦
              elim (>>=-eq-err
                (combine_products_robust sid ids t ca cb js ls rs
                  (some (accumulate sum (scale r.cm l))))
                _ x2) [
                  | inl y ↦ combine-BlamesOne sid ids t ca cb js ls rs _ a y
                  | inr (_, _, z) ↦ cc z
                ]
        ]
      ]

module _ {F G R : Type 0} ⦃f : Field F⦄ ⦃g : Group G⦄ ⦃c : Action F G⦄ ⦃h : Hash⦄
    ⦃pe : PointEncoding G⦄ ⦃d : Digest F⦄ ⦃rng : Rng F R⦄ (P : PartyId → Type 0)
    (committee : Committee) (members : All P committee.ids) where
  multiply_robust-BlamesOne :
      (sid : Bytes) (rngs : List R) (tamper : Option TripleTamper) (as' bs : List (DkgOutput F G))
      {e : Error}
      → multiply_robust committee sid rngs tamper as' bs ≡ err e
      → BlamesOne P e
  unfolding multiply_robust
  multiply_robust-BlamesOne sid rngs tamper [] bs x = cc x
  multiply_robust-BlamesOne sid rngs tamper (a0 ∷ as') [] x = cc x
  multiply_robust-BlamesOne sid rngs tamper (a0 ∷ as') (b0 ∷ bs) x =
      elim (>>=-eq-err (expect (lagrange_coeffs committee.ids)) _ x) [
        | inl y ↦ absurd (expect-ne-err _ y)
        | inr (ls, _, x1) ↦
            elim (>>=-eq-err
              (reshare_all committee.ids committee.t sid b0.cm committee.ids _ _ rngs) _ x1) [
                | inl y ↦ absurd (reshare_all_ne_err committee.ids _ sid b0.cm _ _ _ rngs y)
                | inr ((dealt, _), _, x2) ↦
                    elim (>>=-eq-err
                      (combine_products_robust sid committee.ids committee.t a0.cm b0.cm
                        committee.ids ls (tampered committee tamper dealt) none)
                      _ x2) [
                        | inl y ↦
                            combine-BlamesOne P sid committee.ids committee.t a0.cm b0.cm
                              committee.ids ls (tampered committee tamper dealt) none members y
                        | inr (combined, _, x3) ↦ elim (>>=-eq-err (expect combined.sum) _ x3) [
                          | inl y ↦ absurd (expect-ne-err _ y)
                          | inr (total, _, x4) ↦
                              elim (>>=-eq-err
                                (triple_records 0 committee.ids _ _ ls combined.dealt _) _ x4) [
                                  | inl y ↦ absurd (
                                      triple_records_ne_err 0 committee.ids _ _ ls combined.dealt _
                                        y)
                                  | inr (_, _, z) ↦ cc z
                                ]
                        ]
                      ]
              ]
      ]

  -- An abort of a robust generation blames one member of the committee.
  pub generate_robust-BlamesOne :
      (sid : Bytes) (rngs : List R) (tamper : Option TripleTamper) {e : Error}
      → generate_robust_with_committee {F = F} {G = G} committee sid rngs tamper ≡ err e
      → BlamesOne P e
  unfolding generate_robust_with_committee
  generate_robust-BlamesOne sid rngs tamper x =
      elim (>>=-eq-err
        (joint_random {F = F} {G = G} committee (sid ++ ascii "/alpha") rngs Phase.triples) _ x) [
          | inl y ↦ joint_random-BlamesOne P committee _ rngs Phase.triples members y
          | inr ((as', r1), _, x1) ↦
              elim (>>=-eq-err
                (joint_random {F = F} {G = G} committee (sid ++ ascii "/beta") r1 Phase.triples) _
                x1) [
                  | inl y ↦ joint_random-BlamesOne P committee _ r1 Phase.triples members y
                  | inr ((bs, r2), _, x2) ↦ multiply_robust-BlamesOne sid r2 tamper as' bs x2
                ]
        ]
