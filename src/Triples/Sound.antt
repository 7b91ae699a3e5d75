-- ===== src/Triples/Sound.antt =====
-- What a triple generation that succeeds returns: one public triple with γ = α·β, and for each party shares
-- of α, β and γ that pass their checks.
use ohm_ecdsa.Prelude.{
  ℕ, zero, suc, ◌≤◌, ◌≡◌, refl, ap, ap₂, subst, ◌∙◌, List, [], ◌∷◌, Option, none, some, true, map,
  length, All, get_elem?, arith,
}
use ohm_ecdsa.Core.{
  PartyId, ok, expect, ensure, >>=-eq-ok, ok_injective, expect-eq-ok, ensure-eq-ok,
}
use ohm_ecdsa.Field.{Field, zero_scalar, ◌⊕◌, ◌⊗◌}
use ohm_ecdsa.Field.Laws.{mul_comm, zero-add}
use ohm_ecdsa.Curve.{Group, Action}
use ohm_ecdsa.Encoding.{Bytes, Hash, PointEncoding}
use ohm_ecdsa.Vss.{FeldmanCommitment, verify_share, scale, add}
use ohm_ecdsa.Vss.Laws.{length-add}
use ohm_ecdsa.Vss.Shares.{passes-add, passes-scale, length-scale}
use ohm_ecdsa.Dleq.{Digest}
use ohm_ecdsa.Triples.{
  Resharing, first_of, check_reshares, accumulate, check_product, combine_products, column,
}
use ohm_ecdsa.Triples.Product.{weighted}

module _ {F G : Type 0} ⦃f : Field F⦄ ⦃g : Group G⦄ ⦃c : Action F G⦄ where
  -- The share at each place passes for the id at that place.
  abbrev pub Delivered : List PartyId → Resharing F G → Type 0
  Delivered ids r =
      (k : ℕ) (i : PartyId) (s : F)
      → get_elem? ids k ≡ some i
      → get_elem? r.shares k ≡ some s
      → verify_share r.cm i s ≡ true

  check_reshares_ok :
      (cm : FeldmanCommitment G) (j : PartyId) (ids : List PartyId) (ss : List F)
      → check_reshares cm j ids ss ≡ ok tt
      → (k : ℕ) (i : PartyId) (s : F) → get_elem? ids k ≡ some i
      → get_elem? ss k ≡ some s
      → verify_share cm i s ≡ true
  unfolding check_reshares
  check_reshares_ok cm j ids [] e k i s p q = cc
  check_reshares_ok cm j [] (x ∷ xs) e k i s p q = cc
  check_reshares_ok cm j (y ∷ ys) (x ∷ xs) e zero i s p q =
      let (u, w, _) = >>=-eq-ok (ensure (verify_share cm y x) _) _ e in
      let t = ensure-eq-ok _ _ w in cc
  check_reshares_ok cm j (y ∷ ys) (x ∷ xs) e (suc k) i s p q =
      let (u, w, e1) = >>=-eq-ok (ensure (verify_share cm y x) _) _ e in
      check_reshares_ok cm j ys xs e1 k i s p q

  -- A value passes against the sum so far.
  abbrev pub PassesSum : Option (FeldmanCommitment G) → PartyId → F → Type 0
  PassesSum none i s = s ≡ zero_scalar
  PassesSum (some d) i s = verify_share d i s ≡ true

  accumulate-PassesSum :
      (sum : Option (FeldmanCommitment G)) (d : FeldmanCommitment G) (i : PartyId) (acc l s : F)
      → PassesSum sum i acc
      → verify_share d i s ≡ true
      → verify_share (accumulate sum (scale d l)) i (acc ⊕ l ⊗ s) ≡ true
  unfolding accumulate
  accumulate-PassesSum none d i acc l s e v =
      ap (verify_share (scale d l) i) (ap₂ ◌⊕◌ e (mul_comm l s) ∙ zero-add _)
      ∙ passes-scale d i s l v
  accumulate-PassesSum (some b) d i acc l s e v =
      ap (λ t. verify_share (add b (scale d l)) i (acc ⊕ t)) (mul_comm l s)
      ∙ passes-add b (scale d l) i acc _ e (passes-scale d i s l v)

  -- The γ-share of a party passes against the combined commitment.
  pub column_lem :
      (ids : List PartyId) (k : ℕ) (i : PartyId) (ls : List F) (rs : List (Resharing F G)) (acc : F)
      (sum : Option (FeldmanCommitment G)) {s : F}
      → get_elem? ids k ≡ some i
      → All (Delivered ids) rs
      → PassesSum sum i acc
      → column k ls rs acc ≡ ok s
      → PassesSum (weighted ls (map (λ r. r.cm) rs) sum) i s
  unfolding column weighted
  column_lem ids k i [] rs acc sum at a v e = subst (PassesSum sum i) (ok_injective e) v
  column_lem ids k i (l ∷ ls) [] acc sum at a v e = subst (PassesSum sum i) (ok_injective e) v
  column_lem ids k i (l ∷ ls) (r ∷ rs) acc sum at (b, a) v e =
      let (s, p, e1) = >>=-eq-ok (expect (get_elem? r.shares k)) _ e in
      column_lem ids k i ls rs (acc ⊕ l ⊗ s) (some (accumulate sum (scale r.cm l))) at a
        (accumulate-PassesSum sum r.cm i acc l s v (b k i s at (expect-eq-ok _ p))) e1

  pub weighted-length :
      (t : ℕ) (ls : List F) (ds : List (FeldmanCommitment G)) (sum : Option (FeldmanCommitment G))
      {d : FeldmanCommitment G}
      → All (λ (d : FeldmanCommitment G). length d.points ≤ t) ds
      → ((e : FeldmanCommitment G) → sum ≡ some e → length e.points ≤ t)
      → weighted ls ds sum ≡ some d
      → length d.points ≤ t
  unfolding weighted
  weighted-length t [] ds sum {d} a b e = b d e
  weighted-length t (l ∷ ls) [] sum {d} a b e = b d e
  weighted-length t (l ∷ ls) (x ∷ xs) sum {d} (v, a) b e =
      weighted-length t ls xs (some (accumulate sum (scale x l))) a
        (λ y q. subst (λ (z : FeldmanCommitment G). length z.points ≤ t) (cc q) (grown sum b)) e
    where
      grown :
          (o : Option (FeldmanCommitment G))
          → ((e : FeldmanCommitment G) → o ≡ some e → length e.points ≤ t)
          → length (accumulate o (scale x l)).points ≤ t
      grown none k = unfold accumulate in omega (arith, length-scale x l)
      grown (some y) k =
          unfold accumulate in
          length-add y (scale x l) t (k y refl) (omega (arith, length-scale x l))

module _ {F G : Type 0} ⦃f : Field F⦄ ⦃g : Group G⦄ ⦃c : Action F G⦄ ⦃h : Hash⦄
    ⦃pe : PointEncoding G⦄ ⦃d : Digest F⦄ where
  -- T3 forms the weighted sum, and has checked every share.
  pub combine_products_ok :
      (sid : Bytes) (ids : List PartyId) (ca cb : FeldmanCommitment G) (js : List PartyId)
      (ls : List F) (rs : List (Resharing F G)) (sum : Option (FeldmanCommitment G))
      {o : Option (FeldmanCommitment G)}
      → length ls ≡ length js
      → length rs ≡ length js
      → combine_products sid ids ca cb js ls rs sum ≡ ok o
      → (weighted ls (map (λ r. r.cm) rs) sum ≡ o) × All (Delivered ids) rs
  unfolding combine_products weighted
  combine_products_ok sid ids ca cb [] [] [] sum m n e = (ok_injective e, tt)
  combine_products_ok sid ids ca cb [] [] (r ∷ rs) sum m n e = absurd (omega arith)
  combine_products_ok sid ids ca cb [] (l ∷ ls) rs sum m n e = absurd (omega arith)
  combine_products_ok sid ids ca cb (j ∷ js) [] rs sum m n e = absurd (omega arith)
  combine_products_ok sid ids ca cb (j ∷ js) (l ∷ ls) [] sum m n e = absurd (omega arith)
  combine_products_ok sid ids ca cb (j ∷ js) (l ∷ ls) (r ∷ rs) sum m n e =
      let (u, p, e1) = >>=-eq-ok (check_product sid ca cb j r) _ e in
      let (v, q, e2) = >>=-eq-ok (check_reshares r.cm j ids r.shares) _ e1 in
      let (w, a) =
        combine_products_ok sid ids ca cb js ls rs (some (accumulate sum (scale r.cm l)))
          (omega arith) (omega arith) e2 in
      (w, (check_reshares_ok r.cm j ids r.shares q, a))

pub first_of_ok {ℓ} :
    {A : Type ℓ} (xs : List A) {a : A}
    → expect (first_of xs) ≡ ok a
    → (rest : List A) × (xs ≡ a ∷ rest)
first_of_ok [] e = cc e
first_of_ok (x ∷ xs) {a} e = let d : x ≡ a = ok_injective e in (xs, ap (λ y. y ∷ xs) d)
