-- ===== src/Core/Tags.antt =====
-- The module `tags` of src/lib.rs: the domain separation of hashes, as ASCII bytes.
use Prim.Native.Char.{code}
use Prim.Native.String.{String}
use ohm_ecdsa.Prelude.{ℕ, zero, suc, ◌+◌, ◌/◌, ◌%◌, ltb, if◌then◌else◌, List, [], ◌∷◌}

-- `b"…"`
abbrev pub ascii : String → List ℕ
ascii String.[] = []
ascii (String.◌∷◌ c s) = code c ∷ ascii s

abbrev pub dkg_commit : List ℕ
dkg_commit = ascii "OHM-ECDSA/v0.1/dkg-commit"

abbrev pub triple_product : List ℕ
triple_product = ascii "OHM-ECDSA/v0.1/triple-product"

abbrev pub refresh_commit : List ℕ
refresh_commit = ascii "OHM-ECDSA/v0.1/refresh-commit"

-- The decimal digits before the given ones; a `u64` has twenty at most.
unfoldable pub digits : ℕ → ℕ → List ℕ → List ℕ
digits zero n rest = rest
digits (suc fuel) n rest =
    let more = digits fuel (n / 10) ((48 + n % 10) ∷ rest) in
    if ltb n 10 then (48 + n) ∷ rest else more

-- `format!("{id}")`
unfoldable pub decimal : ℕ → List ℕ
unfolding digits
decimal n = digits 20 n []

abbrev pub reshare_commit : List ℕ
reshare_commit = ascii "OHM-ECDSA/v0.1/reshare-commit"
