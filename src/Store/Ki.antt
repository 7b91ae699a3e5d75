-- ===== src/Store/Ki.antt =====
-- src/runtime/store.rs: `KiPool`, the single-use pool of the presignatures that are bound to no key yet. A method on `&mut self` returns the new
-- store with its result.
use ohm_ecdsa.Prelude.{ℕ, [], none, some, Bool, if◌then◌else◌, length, ◌==◌}
use ohm_ecdsa.Core.{Result, ok, err, presig_store}
use ohm_ecdsa.Core.Map.{Map, get, contains_key, insert, remove}
use ohm_ecdsa.Presign.{KiPresignature}

pub record KiPool (F G : Type 0) : Type 0 where
  pub records : Map (KiPresignature F G)

module _ {F G : Type 0} where
  unfoldable pub new : KiPool F G
  new = record { records = [] }

  unfoldable pub insert_record : KiPool F G → KiPresignature F G → KiPool F G × Result (Unit {0})
  insert_record self rec =
      if contains_key rec.id self.records
      then (self, err (presig_store "duplicate presignature id"))
      else (record self { records = insert rec.id rec self.records }, ok tt)

  unfoldable pub consume : KiPool F G → ℕ → KiPool F G × Result (KiPresignature F G)
  consume self id = (
    record self { records = remove id self.records },
    elim (get id self.records) [
      | none ↦ err (presig_store "unknown or consumed presignature id")
      | some p ↦ ok p
    ],
  )

  unfoldable pub len : KiPool F G → ℕ
  len self = length self.records

  unfoldable pub is_empty : KiPool F G → Bool
  is_empty self = length self.records == 0

  unfoldable pub contains : KiPool F G → ℕ → Bool
  contains self id = contains_key id self.records
