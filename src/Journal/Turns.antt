-- ===== src/Journal/Turns.antt =====
-- The loop of `journal_replay` of node/src/store/persist.rs on a journal with more bytes behind it.
use ohm_ecdsa.Prelude.{
  ℕ, zero, suc, ◌+◌, ◌≤◌, ◌≡◌, refl, sym, ap, subst, ◌∙◌, List, [], ◌∷◌, ◌++◌, Option, some, none,
  true, Bool-cases, inl, inr, leb, length, take, drop, length-append, arith,
}
use ohm_ecdsa.Prelude.Options.{◌>>=◌, >>=-eq-some}
use ohm_ecdsa.Encoding.{Bytes, Hash}
use ohm_ecdsa.Wire.{get_to, get_from, from_be_bytes}
use ohm_ecdsa.Journal.{
  JournalEntry, Fault, truncated_before, not_canonical, Replay, replayed, refused, Turn, accepted,
  broken, decode, entry_fault, settle, check_body, next_entry, replay_loop,
}

-- A slice of a longer list is the slice of the shorter one.
get_to-longer : (n : ℕ) (a b : Bytes) {c : Bytes} → get_to n a ≡ some c → get_to n (a ++ b) ≡ some c
unfolding get_to
get_to-longer n a b {c} e = elim (Bool-cases (leb n (length a))) [
  | inl h ↦
      let more : leb n (length (a ++ b)) ≡ true = (let l = length-append a b in ground arith) in
      let q : some (take n a) ≡ some c = rw h at e in
      rw more (ap some (take-longer n a b (ground arith)) ∙ q)
  | inr h ↦ cc (rw h at e)
]
  where
    take-longer : (n : ℕ) (a b : Bytes) → n ≤ length a → take n (a ++ b) ≡ take n a
    take-longer zero a b h = refl
    take-longer (suc n) [] b h = absurd (omega arith)
    take-longer (suc n) (x ∷ a) b h = ap (λ t. x ∷ t) (take-longer n a b (omega arith))

drop-longer : (n : ℕ) (a b : Bytes) → n ≤ length a → drop n (a ++ b) ≡ drop n a ++ b
drop-longer zero a b h = refl
drop-longer (suc n) [] b h = absurd (omega arith)
drop-longer (suc n) (x ∷ a) b h = drop-longer n a b (omega arith)

get_from-longer :
    (n : ℕ) (a b : Bytes) {c : Bytes} → get_from n a ≡ some c → get_from n (a ++ b) ≡ some (c ++ b)
unfolding get_from
get_from-longer n a b {c} e = elim (Bool-cases (leb n (length a))) [
  | inl h ↦
      let more : leb n (length (a ++ b)) ≡ true = (let l = length-append a b in ground arith) in
      let q : some (drop n a) ≡ some c = rw h at e in
      let r : drop n a ≡ c = cc q in
      rw more (ap some (drop-longer n a b (ground arith) ∙ ap (λ t. t ++ b) r))
  | inr h ↦ cc (rw h at e)
]

pub length-drop : (n : ℕ) (a : Bytes) → n ≤ length a → length (drop n a) + n ≡ length a
length-drop zero a h = omega arith
length-drop (suc n) [] h = absurd (omega arith)
length-drop (suc n) (x ∷ a) h = omega (arith, length-drop n a (omega arith))

-- A slice is within the list.
get_from_le : (n : ℕ) (a : Bytes) {c : Bytes} → get_from n a ≡ some c → length c + n ≡ length a
unfolding get_from
get_from_le n a {c} e = elim (Bool-cases (leb n (length a))) [
  | inl h ↦
      let q : some (drop n a) ≡ some c = rw h at e in
      let r : drop n a ≡ c = cc q in
      let l = length-drop n a (ground arith) in omega (arith, ap length r)
  | inr h ↦ cc (rw h at e)
]

get_to_le : (n : ℕ) (a : Bytes) {c : Bytes} → get_to n a ≡ some c → n ≤ length a
unfolding get_to
get_to_le n a {c} e = elim (Bool-cases (leb n (length a))) [
  | inl h ↦ ground arith
  | inr h ↦ cc (rw h at e)
]

module _ ⦃h : Hash⦄ where
  settle-accepted :
      (o : Option Fault) (e e' : JournalEntry) (used used' : ℕ)
      → settle o e used ≡ accepted e' used'
      → (used ≡ used') × (o ≡ none) × (e ≡ e')
  unfolding settle
  settle-accepted none e e' used used' q = (cc q, refl, cc q)
  settle-accepted (some f) e e' used used' q = cc q

  check_body-accepted :
      (entries : List JournalEntry) (n len : ℕ) (o : Option Bytes) (e : JournalEntry) (used : ℕ)
      → check_body entries n len o ≡ accepted e used
      → (body : Bytes) × (o ≡ some body)
        × (4 + len ≡ used)
        × (decode body ≡ some e)
        × (entry_fault entries n e ≡ none)
  unfolding check_body
  check_body-accepted entries n len none e used q = cc q
  check_body-accepted entries n len (some body) e used q =
      let (u, d, f) = by_decode (decode body) q in (body, refl, u, d, f)
    where
      by_decode :
          (o : Option JournalEntry)
          → (elim o [
            | none ↦ broken (not_canonical n)
            | some e ↦ settle (entry_fault entries n e) e (4 + len)
          ])
            ≡ accepted e used
          → (4 + len ≡ used) × (o ≡ some e) × (entry_fault entries n e ≡ none)
      by_decode none q = cc q
      by_decode (some e') q =
          let (u, f, same) = settle-accepted (entry_fault entries n e') e' e (4 + len) used q in
          (u, ap some same, subst (λ x. entry_fault entries n x ≡ none) same f)

  -- A turn that finds an entry finds it with more bytes behind it too.
  pub next_entry-longer :
      (entries : List JournalEntry) (a b : Bytes) (e : JournalEntry) (used : ℕ)
      → next_entry entries a ≡ accepted e used
      → (next_entry entries (a ++ b) ≡ accepted e used) × (used ≤ length a) × (4 ≤ used)
  unfolding next_entry
  next_entry-longer entries a b e used q = by_header (get_to 4 a) refl q
    where
      n : ℕ
      n = length entries + 1

      by_header :
          (o : Option Bytes)
          → get_to 4 a ≡ o
          → (elim o [
            | none ↦ broken (truncated_before n)
            | some hdr ↦
                check_body entries n
                  (from_be_bytes 0 hdr)
                  (get_from 4 a >>= (λ after. get_to (from_be_bytes 0 hdr) after))
          ])
            ≡ accepted e used
          → ((elim (get_to 4 (a ++ b)) [
            | none ↦ broken (truncated_before n)
            | some hdr ↦
                check_body entries n
                  (from_be_bytes 0 hdr)
                  (get_from 4 (a ++ b) >>= (λ after. get_to (from_be_bytes 0 hdr) after))
          ])
              ≡ accepted e used)
            × (used ≤ length a)
            × (4 ≤ used)
      by_header none p q = cc q
      by_header (some hdr) p q =
          let len = from_be_bytes 0 hdr in
          let (body, r, u, _, _) =
            check_body-accepted entries n len (get_from 4 a >>= (λ after. get_to len after)) e used
              q in
          let (after, s, t) = >>=-eq-some (get_from 4 a) (λ after. get_to len after) r in
          let l1 = get_from_le 4 a s in
          let l2 = get_to_le len after t in
          (
            rw (get_to-longer 4 a b p, get_from-longer 4 a b s, get_to-longer len after b t)
                (ap (check_body entries n len) (sym r) ∙ q),
            omega arith,
            omega arith,
          )

  -- A turn that finds an entry has checked it.
  pub next_entry_passes :
      (entries : List JournalEntry) (a : Bytes) (e : JournalEntry) (used : ℕ)
      → next_entry entries a ≡ accepted e used
      → entry_fault entries (length entries + 1) e ≡ none
  unfolding next_entry
  next_entry_passes entries a e used q = by_header (get_to 4 a) q
    where
      n : ℕ
      n = length entries + 1

      by_header :
          (o : Option Bytes)
          → (elim o [
            | none ↦ broken (truncated_before n)
            | some hdr ↦
                check_body entries n
                  (from_be_bytes 0 hdr)
                  (get_from 4 a >>= (λ after. get_to (from_be_bytes 0 hdr) after))
          ])
            ≡ accepted e used
          → entry_fault entries n e ≡ none
      by_header none q = cc q
      by_header (some hdr) q =
          let (_, _, _, _, f) = check_body-accepted entries n (from_be_bytes 0 hdr) _ e used q in f

  pub replay_step :
      (fuel : ℕ) (entries : List JournalEntry) (x : ℕ) (xs : Bytes) (e : JournalEntry) (used : ℕ)
      → next_entry entries (x ∷ xs) ≡ accepted e used
      → replay_loop (suc fuel) entries (x ∷ xs)
        ≡ replay_loop fuel (entries ++ (e ∷ [])) (drop used (x ∷ xs))
  unfolding replay_loop
  replay_step fuel entries x xs e used p =
      ap
        (λ (turn : Turn). elim turn [
          | broken f ↦ some (refused f)
          | accepted e used ↦ replay_loop fuel (entries ++ (e ∷ [])) (drop used (x ∷ xs))
        ])
        p

  pub replay_loop-longer :
      (fuel m : ℕ) (acc : List JournalEntry) (a b : Bytes) (entries : List JournalEntry)
      {out : Option Replay}
      → replay_loop fuel acc a ≡ some (replayed entries)
      → ((f : ℕ) → replay_loop (suc f) entries b ≡ out)
      → replay_loop (fuel + suc m) acc (a ++ b) ≡ out
  unfolding replay_loop
  replay_loop-longer fuel m acc [] b entries {out} q next =
      let same : acc ≡ entries = cc q in
      let count : fuel + suc m ≡ suc (fuel + m) = omega arith in
      (λ i. replay_loop (count i) (same i) b) ∙ next (fuel + m)
  replay_loop-longer zero m acc (x ∷ xs) b entries q next = cc q
  replay_loop-longer (suc fuel) m acc (x ∷ xs) b entries {out} q next =
      by_turn (λ acc' a' q'. replay_loop-longer fuel m acc' a' b entries q' next)
        (next_entry acc (x ∷ xs)) refl q
    where
      by_turn :
          (rec : (acc' : List JournalEntry) (a' : Bytes)
            → replay_loop fuel acc' a' ≡ some (replayed entries)
            → replay_loop (fuel + suc m) acc' (a' ++ b) ≡ out)
          (turn : Turn)
          → next_entry acc (x ∷ xs) ≡ turn
          → (elim turn [
            | broken f ↦ some (refused f)
            | accepted e used ↦ replay_loop fuel (acc ++ (e ∷ [])) (drop used (x ∷ xs))
          ])
            ≡ some (replayed entries)
          → replay_loop (suc fuel + suc m) acc (x ∷ xs ++ b) ≡ out
      by_turn rec (broken f) p q = cc q
      by_turn rec (accepted e used) p q =
          let (longer, le, _) = next_entry-longer acc (x ∷ xs) b e used p in
          let count : suc fuel + suc m ≡ suc (fuel + suc m) = omega arith in
          ap (λ k. replay_loop k acc (x ∷ xs ++ b)) count
          ∙ (replay_step (fuel + suc m) acc x (xs ++ b) e used longer
              ∙ (ap (replay_loop (fuel + suc m) (acc ++ (e ∷ []))) (drop-longer used (x ∷ xs) b le)
                  ∙ rec (acc ++ (e ∷ [])) (drop used (x ∷ xs)) q))
