-- ===== src/Sim/Restart.antt =====
-- `run_triples_with_restart` of src/runtime/sim.rs: an attempt that aborts is run again without the blamed
-- parties, which are numbered anew. The random sources that a failed attempt leaves behind, which it has moved by
-- an amount that its error does not tell, are the argument `spent`. The loop runs on fuel; `none` is no fuel left.

pub mod Terminates
pub mod Members
pub mod Sound
use ohm_ecdsa.Prelude.{
  ℕ, zero, suc, ◌+◌, List, [], ◌∷◌, ◌++◌, Option, none, some, Bool, ◌==◌, if◌then◌else◌, length,
  get_elem?,
}
use ohm_ecdsa.Core.{
  PartyId, IdentifiableAbort, Error, abort, Params, new_params, parties, full, Result, ok, err,
  panicked, expect, ◌>>=◌, position_from, sort_unstable,
}
use ohm_ecdsa.Core.Tags.{ascii}
use ohm_ecdsa.Encoding.{Bytes, Hash, PointEncoding, be_bytes}
use ohm_ecdsa.Rng.{Rng}
use ohm_ecdsa.Field.{Field}
use ohm_ecdsa.Curve.{Group, Action}
use ohm_ecdsa.Dleq.{Digest}
use ohm_ecdsa.Policy.{contains_id, restart_committee}
use ohm_ecdsa.Presign.{TripleShare, TriplePublic}
use ohm_ecdsa.Triples.{TripleTamper}
use ohm_ecdsa.Triples.Robust.{generate_robust_with_committee}

unfoldable pub poison_sid : Bytes → ℕ → Bytes
poison_sid sid attempt = if attempt == 0 then sid else sid ++ (ascii "/retry-" ++ be_bytes attempt)

-- `current.iter().position(|p| p == s).expect(…)` of each survivor.
unfoldable pub survivor_positions : List PartyId → List PartyId → Result (List ℕ)
survivor_positions current [] = ok []
survivor_positions current (s ∷ survivors) = do
  p ← expect (position_from 0 current s)
  rest ← survivor_positions current survivors
  ok (p ∷ rest)

-- `positions.iter().map(|&p| xs[p].clone()).collect()`
unfoldable pub at_positions {ℓ} : {A : Type ℓ} → List A → List ℕ → Result (List A)
at_positions xs [] = ok []
at_positions xs (p ∷ positions) = do
  x ← expect (get_elem? xs p)
  rest ← at_positions xs positions
  ok (x ∷ rest)

-- `current[b - 1]`; the id 0 underflows.
unfoldable pub original_id : List PartyId → PartyId → Result PartyId
original_id current zero = panicked
original_id current (suc b) = expect (get_elem? current b)

-- `blamed.iter().map(|&b| current[b - 1]).collect()`
unfoldable pub original_ids : List PartyId → List PartyId → Result (List PartyId)
original_ids current [] = ok []
original_ids current (b ∷ bs) = do
  p ← original_id current b
  rest ← original_ids current bs
  ok (p ∷ rest)

-- `for &b in &blamed { if !blamed_all.contains(&b) { blamed_all.push(b) } }`
unfoldable pub record_blame : List PartyId → List PartyId → List PartyId
record_blame all [] = all
record_blame all (b ∷ bs) = record_blame (if contains_id all b then all else all ++ (b ∷ [])) bs

-- The variables of the loop.
pub record Restart (R : Type 0) : Type 0 where
  pub current : List PartyId
  pub cur_rngs : List R
  pub blamed_all : List PartyId
  pub attempt : ℕ

abbrev pub abort_of : Error → Option IdentifiableAbort
abort_of (abort a) = some a
abort_of _ = none

-- What the policy makes of an abort: the survivors, or the abort itself when it refuses.
unfoldable pub survivors_or_abort :
    List PartyId → List PartyId → ℕ → IdentifiableAbort → Result (List PartyId)
survivors_or_abort current blamed t a = elim (restart_committee current blamed t) [
  | ok survivors ↦ ok survivors
  | err e ↦ err (abort a)
  | panicked ↦ panicked
]

-- The state after an abort, from the random sources that the attempt left.
unfoldable pub expel_blamed :
    {R : Type 0} → ℕ → Restart R → IdentifiableAbort → List R → Result (Restart R)
expel_blamed t s a rngs = do
  blamed ← original_ids s.current a.blamed
  survivors ← survivors_or_abort s.current blamed t a
  positions ← survivor_positions s.current survivors
  kept ← at_positions rngs positions
  ok (record {
    current = survivors;
    cur_rngs = kept;
    blamed_all = sort_unstable (record_blame s.blamed_all blamed);
    attempt = s.attempt + 1;
  })

module _ {F G R : Type 0} ⦃f : Field F⦄ ⦃g : Group G⦄ ⦃c : Action F G⦄ ⦃h : Hash⦄
    ⦃pe : PointEncoding G⦄ ⦃d : Digest F⦄ ⦃rng : Rng F R⦄ where
  -- One attempt over `1..=n'`; the fault injection is for the first one only.
  unfoldable pub attempt_triples :
      ℕ
      → Bytes
      → Option TripleTamper
      → Restart R
      → Result ((List (TripleShare F × TriplePublic G) × List PartyId) × List R)
  attempt_triples t sid tamper s = do
    params ← new_params (length s.current) t
    committee ← full params
    generate_robust_with_committee committee (poison_sid sid s.attempt) s.cur_rngs
        (if s.attempt == 0 then tamper else none)

  -- A completed attempt: its blame in original ids joins the list.
  unfoldable pub completed :
      Restart R
      → List (TripleShare F × TriplePublic G)
      → List PartyId
      → Result (List (TripleShare F × TriplePublic G) × List PartyId)
  completed s triple blamed = do
    originals ← original_ids s.current blamed
    ok (triple, sort_unstable (record_blame s.blamed_all originals))

  unfoldable pub restart_triples :
      (Restart R → List R)
      → ℕ
      → ℕ
      → Bytes
      → Option TripleTamper
      → Restart R
      → Option (Result (List (TripleShare F × TriplePublic G) × List PartyId))
  restart_triples spent zero t sid tamper s = none
  restart_triples spent (suc fuel) t sid tamper s = elim (attempt_triples t sid tamper s) [
    | ok done ↦ some (completed s done.0.0 done.0.1)
    | panicked ↦ some panicked
    | err e ↦ elim (abort_of e) [
      | none ↦ some (err e)
      | some a ↦ elim (expel_blamed t s a (spent s)) [
        | err e' ↦ some (err e')
        | panicked ↦ some panicked
        | ok s' ↦ restart_triples spent fuel t sid tamper s'
      ]
    ]
  ]

  -- The fuel is one more than the parties: each restart has fewer.
  unfoldable pub run_triples_with_restart :
      (Restart R → List R)
      → Params
      → Bytes
      → List R
      → Option TripleTamper
      → Option (Result (List (TripleShare F × TriplePublic G) × List PartyId))
  unfolding restart_triples
  run_triples_with_restart spent params sid rngs tamper =
      restart_triples spent (suc params.n) params.t sid tamper
        (record { current = parties params; cur_rngs = rngs; blamed_all = []; attempt = 0 })
