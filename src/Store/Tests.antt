-- ===== src/Store/Tests.antt =====
-- A presignature store over the field of seven elements: single use in a concrete history.
use ohm_ecdsa.Prelude.{◌≡◌, ◌≤◌, ◌+◌, refl, List, [], ◌∷◌}
use ohm_ecdsa.Gf7.{Gf7, g1, g2}
use ohm_ecdsa.Presign.{Presignature}
use ohm_ecdsa.Store.Presig.{PresigStore, contains, consume, insert_presig}
use ohm_ecdsa.Core.Map.{get, contains_key, insert, remove}
use ohm_ecdsa.Store.Single.{Call, insert_call, consume_call, history, present, single_use}

abbrev rec7 : Presignature Gf7 Gf7
rec7 = record {
  id = 7;
  index = 1;
  r = g1;
  big_r = g1;
  u_share = g1;
  z_share = g1;
  u_com = record { points = [] };
  z_com = record { points = [] };
}

-- Record 7 goes in twice and is asked for twice.
abbrev calls : List (Call Gf7 Gf7)
calls = insert_call rec7 ∷ insert_call rec7 ∷ consume_call 7 ∷ consume_call 7 ∷ []

abbrev empty_store : PresigStore Gf7 Gf7
empty_store = record { public_key = g2; records = [] }

one_consumed : (history 7 empty_store calls).1.consumed ≡ 1
unfolding history consume insert_presig get contains_key insert remove
one_consumed = refl

single_use_example :
    present (contains (history 7 empty_store calls).0 7) + (history 7 empty_store calls).1.consumed
    ≤ present (contains empty_store 7) + (history 7 empty_store calls).1.stored
single_use_example = single_use 7 empty_store calls tt
