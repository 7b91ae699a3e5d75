-- ===== src/Journal/Tamper.antt =====
-- The hash chain of the journal of node/src/store/persist.rs: its tip fixes its entries.
use ohm_ecdsa.Prelude.{
  ℕ, ◌+◌, ◌^◌, ◌<◌, ◌≡◌, ◌≢◌, ◌⊎◌, inl, inr, refl, sym, ap, ◌∙◌, List, [], ◌∷◌, ◌++◌, some, none,
  Bool-cases, length, length-append, All, arith,
}
use mathlib.Core.List.{append_assoc, append_cancel_left, head-eq_of_cons-eq, tail-eq_of_cons-eq}
use ohm_ecdsa.Encoding.{Bytes, same_bytes, same_bytes_iff, Hash, sha256, be_bytes}
use ohm_ecdsa.Wire.{from_be_bytes}
use ohm_ecdsa.Wire.Primitives.{from_be_bytes-be_bytes}
use ohm_ecdsa.Journal.{
  JournalEntry, replayed, journal_tag, tip_of, entry_fault, entry_digest, journal_replay,
}
use ohm_ecdsa.Journal.Codec.{Fits}
use ohm_ecdsa.Journal.Append.{tip_of-last}
use ohm_ecdsa.Journal.History.{IsChain, start, next, journal_replay-IsChain}

-- Two joined lists whose first parts are of one length are equal in both parts.
split :
    (a a' : Bytes) {b b' : Bytes} → length a ≡ length a' → a ++ b ≡ a' ++ b' → (a ≡ a') × (b ≡ b')
split [] [] l e = (refl, e)
split [] (y ∷ ys) l e = absurd (omega (arith, l))
split (x ∷ xs) [] l e = absurd (omega (arith, l))
split (x ∷ xs) (y ∷ ys) l e =
    let (p, q) = split xs ys (omega (arith, l)) (tail-eq_of_cons-eq e) in
    (λ i. head-eq_of_cons-eq e i ∷ p i, q)

be_bytes_eq : (v w : ℕ) → v < 2 ^ 64 → w < 2 ^ 64 → be_bytes v ≡ be_bytes w → v ≡ w
be_bytes_eq v w h k e =
    sym (from_be_bytes-be_bytes v h) ∙ (ap (from_be_bytes 0) e ∙ from_be_bytes-be_bytes w k)

same_or_not : (a b : Bytes) → (a ≡ b) ⊎ (a ≢ b)
same_or_not a b = elim (Bool-cases (same_bytes a b)) [
  | inl t ↦ inl ((same_bytes_iff a b).0 t)
  | inr t ↦ inr (λ p. (let u = (same_bytes_iff a b).1 p in cc (sym t ∙ u)))
]

-- The bytes whose digest is the hash of an entry.
unfoldable pub hashed : JournalEntry → Bytes
hashed e =
    journal_tag ++ (be_bytes e.seq ++ ((e.op ∷ []) ++ (be_bytes e.id ++ (e.prev ++ e.payload))))

unfoldable pub IsIn : JournalEntry → List JournalEntry → Type 0
IsIn e a = (before : List JournalEntry) × (after : List JournalEntry) × (a ≡ before ++ (e ∷ after))

IsIn-last : (e k : JournalEntry) (a : List JournalEntry) → IsIn e a → IsIn e (a ++ (k ∷ []))
unfolding IsIn
IsIn-last e k a (x, y, q) =
    (x, y ++ (k ∷ []), ap (λ t. t ++ (k ∷ [])) q ∙ append_assoc x (e ∷ y) (k ∷ []))

All-last :
    (before : List JournalEntry) (e : JournalEntry)
    → All Fits (before ++ (e ∷ []))
    → All Fits before × Fits e
All-last [] e w = (tt, w.0)
All-last (l ∷ ls) e w = let (v, u) = All-last ls e w.1 in ((w.0, v), u)

module _ ⦃h : Hash⦄ where
  -- An entry of each journal, with different bytes that have one digest.
  pub record Collision (a b : List JournalEntry) : Type 0 where
    pub left : JournalEntry
    pub right : JournalEntry
    pub of_a : IsIn left a
    pub of_b : IsIn right b
    pub differ : hashed left ≢ hashed right
    pub same : sha256 (hashed left) ≡ sha256 (hashed right)

  Collision-last :
      (a b : List JournalEntry) (e k : JournalEntry)
      → Collision a b
      → Collision (a ++ (e ∷ [])) (b ++ (k ∷ []))
  Collision-last a b e k c = record {
    left = c.left;
    right = c.right;
    of_a = IsIn-last c.left e a c.of_a;
    of_b = IsIn-last c.right k b c.of_b;
    differ = c.differ;
    same = c.same;
  }

  -- One digest is of one id, op, link and payload.
  entry_digest_eq :
      (e k : JournalEntry)
      → Fits e
      → Fits k
      → entry_digest e.seq e.op e.id e.prev e.payload
        ≡ entry_digest k.seq k.op k.id k.prev k.payload
      → ((e.seq ≡ k.seq)
          × (e.op ≡ k.op)
          × (e.id ≡ k.id)
          × (e.prev ≡ k.prev)
          × (e.payload ≡ k.payload))
        ⊎ ((hashed e ≢ hashed k) × (sha256 (hashed e) ≡ sha256 (hashed k)))
  unfolding entry_digest hashed
  entry_digest_eq e k w v q = elim (same_or_not (hashed e) (hashed k)) [
    | inr c ↦ inr (c, q)
    | inl p ↦
        let (a, p1) =
          split (be_bytes e.seq) (be_bytes k.seq) (unfold be_bytes in refl)
            (append_cancel_left journal_tag _ _ p) in
        let (b, p2) = split (e.op ∷ []) (k.op ∷ []) refl p1 in
        let (c, p3) = split (be_bytes e.id) (be_bytes k.id) (unfold be_bytes in refl) p2 in
        let (d, f) = split e.prev k.prev (w.prev ∙ sym v.prev) p3 in
        inl (be_bytes_eq e.seq k.seq w.seq v.seq a, cc b, be_bytes_eq e.id k.id w.id v.id c, d, f)
  ]

  -- What an entry that passed the checks has in it.
  passed :
      (entries : List JournalEntry) (n : ℕ) (e : JournalEntry)
      → entry_fault entries n e ≡ none
      → (e.prev ≡ tip_of entries) × (e.hash ≡ entry_digest e.seq e.op e.id e.prev e.payload)
  unfolding entry_fault
  passed entries n e q =
      let d = entry_digest e.seq e.op e.id e.prev e.payload in
      (
        (same_bytes_iff e.prev (tip_of entries)).0 (ground arith),
        (same_bytes_iff e.hash d).0 (ground arith),
      )

  one_tip :
      (a b : List JournalEntry)
      → IsChain a
      → IsChain b
      → All Fits a
      → All Fits b
      → length a ≡ length b
      → tip_of a ≡ tip_of b
      → (a ≡ b) ⊎ Collision a b
  unfolding IsIn
  one_tip _ [] start d w v l t = inl refl
  one_tip _ (k ∷ ks) start d w v l t = absurd (omega (arith, l))
  one_tip _ _ (next before e c p) start w v l t =
      absurd (omega (arith, l, length-append before (e ∷ [])))
  one_tip _ _ (next before e c p) (next before' k d q) w v l t =
      let (wb, we) = All-last before e w in
      let (vb, vk) = All-last before' k v in
      let (e1, e2) = passed before (length before + 1) e p in
      let (k1, k2) = passed before' (length before' + 1) k q in
      let n : length before ≡ length before' =
        omega (arith, l, length-append before (e ∷ []), length-append before' (k ∷ [])) in
      let hashes : e.hash ≡ k.hash = sym (tip_of-last before e) ∙ (t ∙ tip_of-last before' k) in
      let rec = (λ (r : e.prev ≡ k.prev). one_tip before before' c d wb vb n (sym e1 ∙ (r ∙ k1))) in
      elim (entry_digest_eq e k we vk (sym e2 ∙ (hashes ∙ k2))) [
        | inr (x, y) ↦ inr (record {
          left = e;
          right = k;
          of_a = (before, [], refl);
          of_b = (before', [], refl);
          differ = x;
          same = y;
        })
        | inl (s, o, i, r, m) ↦
            join
              (λ j. record {
                seq = s j;
                op = o j;
                id = i j;
                prev = r j;
                payload = m j;
                hash = hashes j;
              })
              (rec r)
      ]
    where
      join :
          {x y : List JournalEntry} {f g : JournalEntry}
          → f ≡ g
          → (x ≡ y) ⊎ Collision x y
          → (x ++ (f ∷ []) ≡ y ++ (g ∷ [])) ⊎ Collision (x ++ (f ∷ [])) (y ++ (g ∷ []))
      join same (inl r) = inl (λ j. r j ++ (same j ∷ []))
      join {x} {y} {f} {g} same (inr c) = inr (Collision-last x y f g c)

  -- Two journals that `journal_replay` accepts and that have as many entries and the same tip have the same
  -- entries, or an entry of one and an entry of the other have different bytes with one digest. The entries fit
  -- their fields.
  pub journal_replay_one_tip :
      (bytes bytes' : Bytes) (a b : List JournalEntry)
      → journal_replay bytes ≡ some (replayed a)
      → journal_replay bytes' ≡ some (replayed b)
      → All Fits a
      → All Fits b
      → length a ≡ length b
      → tip_of a ≡ tip_of b
      → (a ≡ b) ⊎ Collision a b
  journal_replay_one_tip bytes bytes' a b p q w v l t =
      one_tip a b (journal_replay-IsChain bytes a p) (journal_replay-IsChain bytes' b q) w v l t
