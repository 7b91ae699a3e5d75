-- ===== src/Store/Presig.antt =====
-- src/runtime/store.rs: `PresigStore`, the single-use store of the presignatures of one key. A method on `&mut self` returns the new
-- store with its result.
use ohm_ecdsa.Prelude.{ℕ, [], none, some, Bool, if◌then◌else◌, length, ◌==◌}
use ohm_ecdsa.Core.{Result, ok, err, presig_store}
use ohm_ecdsa.Core.Map.{Map, get, contains_key, insert, remove}
use ohm_ecdsa.Presign.{Presignature}

pub record PresigStore (F G : Type 0) : Type 0 where
  pub public_key : G
  pub records : Map (Presignature F G)

module _ {F G : Type 0} where
  unfoldable pub new : G → PresigStore F G
  new public_key = record { public_key = public_key; records = [] }

  unfoldable pub insert_presig :
      PresigStore F G → Presignature F G → PresigStore F G × Result (Unit {0})
  insert_presig self presig =
      if contains_key presig.id self.records
      then (self, err (presig_store "duplicate presignature id"))
      else (record self { records = insert presig.id presig self.records }, ok tt)

  unfoldable pub consume : PresigStore F G → ℕ → PresigStore F G × Result (Presignature F G)
  consume self id = (
    record self { records = remove id self.records },
    elim (get id self.records) [
      | none ↦ err (presig_store "unknown or consumed presignature id")
      | some p ↦ ok p
    ],
  )

  unfoldable pub len : PresigStore F G → ℕ
  len self = length self.records

  unfoldable pub clear : PresigStore F G → PresigStore F G
  clear self = record self { records = [] }

  unfoldable pub is_empty : PresigStore F G → Bool
  is_empty self = length self.records == 0

  unfoldable pub contains : PresigStore F G → ℕ → Bool
  contains self id = contains_key id self.records
