-- ===== src/Journal/Terminates.antt =====
-- The loop of `journal_replay` of node/src/store/persist.rs ends.
use ohm_ecdsa.Prelude.{ℕ, zero, suc, ◌≤◌, ◌≡◌, refl, List, [], ◌∷◌, ◌++◌, some, length, drop, arith}
use ohm_ecdsa.Encoding.{Bytes, Hash}
use ohm_ecdsa.Journal.{
  JournalEntry, Replay, replayed, refused, Turn, accepted, broken, next_entry, replay_loop,
  journal_replay,
}
use ohm_ecdsa.Journal.Turns.{next_entry-longer, length-drop}

module _ ⦃h : Hash⦄ where
  replay_loop_terminates :
      (fuel : ℕ) (acc : List JournalEntry) (a : Bytes)
      → length a ≤ fuel
      → (r : Replay) × (replay_loop fuel acc a ≡ some r)
  unfolding replay_loop
  replay_loop_terminates fuel acc [] l = (replayed acc, refl)
  replay_loop_terminates zero acc (x ∷ xs) l = absurd (omega arith)
  replay_loop_terminates (suc fuel) acc (x ∷ xs) l =
      by_turn (λ acc' a' l'. replay_loop_terminates fuel acc' a' l') (next_entry acc (x ∷ xs)) refl
    where
      by_turn :
          (rec : (acc' : List JournalEntry) (a' : Bytes)
            → length a' ≤ fuel
            → (r : Replay) × (replay_loop fuel acc' a' ≡ some r))
          (turn : Turn)
          → next_entry acc (x ∷ xs) ≡ turn
          → (r : Replay) × ((elim turn [
            | broken f ↦ some (refused f)
            | accepted e used ↦ replay_loop fuel (acc ++ (e ∷ [])) (drop used (x ∷ xs))
          ])
              ≡ some r)
      by_turn rec (broken f) p = (refused f, refl)
      by_turn rec (accepted e used) p =
          let (_, le, four) = next_entry-longer acc (x ∷ xs) [] e used p in
          rec (acc ++ (e ∷ [])) (drop used (x ∷ xs))
            (omega (arith, l, length-drop used (x ∷ xs) le))

  -- On all bytes, `journal_replay` returns its entries or the fault that it found.
  pub journal_replay_terminates : (bytes : Bytes) → (r : Replay) × (journal_replay bytes ≡ some r)
  unfolding journal_replay
  journal_replay_terminates bytes = replay_loop_terminates (length bytes) [] bytes (omega arith)
