-- ===== src/Gf7/Signing.antt =====
-- Signatures over the field of seven elements: pairs that are not 0, with 4, 5 and 6 for the high values of s.
use ohm_ecdsa.Prelude.{◌≡◌, ◌≢◌, sym, ap, Option, none, some}
use ohm_ecdsa.Field.{zero_scalar, neg}
use ohm_ecdsa.Gf7.{Gf7, g0, g1, g2, g3, g4, g5, g6, gf7_field}
use ohm_ecdsa.Sim.Signing.{Signatures}

abbrev nonzero : Gf7 → Option Gf7
nonzero g0 = none
nonzero g1 = some g1
nonzero g2 = some g2
nonzero g3 = some g3
nonzero g4 = some g4
nonzero g5 = some g5
nonzero g6 = some g6

abbrev pair_up : Option Gf7 → Option Gf7 → Option (Gf7 × Gf7)
pair_up (some r) (some s) = some (r, s)
pair_up _ _ = none

nonzero_lem : (a b : Gf7) → nonzero a ≡ some b → (a ≡ b) × (a ≢ g0)
nonzero_lem g0 b e = cc e
nonzero_lem g1 b e = (cc e, λ z. cc z)
nonzero_lem g2 b e = (cc e, λ z. cc z)
nonzero_lem g3 b e = (cc e, λ z. cc z)
nonzero_lem g4 b e = (cc e, λ z. cc z)
nonzero_lem g5 b e = (cc e, λ z. cc z)
nonzero_lem g6 b e = (cc e, λ z. cc z)

pair_up_lem :
    (o q : Option Gf7) (sig : Gf7 × Gf7)
    → pair_up o q ≡ some sig
    → (o ≡ some sig.0) × (q ≡ some sig.1)
pair_up_lem none none sig e = cc e
pair_up_lem none (some s) sig e = cc e
pair_up_lem (some r) none sig e = cc e
pair_up_lem (some r) (some s) sig e =
    let same : (r, s) ≡ sig = cc e in
    (ap (λ (t : Gf7 × Gf7). some t.0) same, ap (λ (t : Gf7 × Gf7). some t.1) same)

abbrev low_form : Gf7 → Option Gf7
low_form g4 = some g3
low_form g5 = some g2
low_form g6 = some g1
low_form _ = none

abbrev with_first : Gf7 → Option Gf7 → Option (Gf7 × Gf7)
with_first r none = none
with_first r (some s) = some (r, s)

pub low_form_lem :
    (r s : Gf7) (low : Gf7 × Gf7) → with_first r (low_form s) ≡ some low → low ≡ (r, neg s)
unfolding neg gf7_field
low_form_lem r g0 low e = cc e
low_form_lem r g1 low e = cc e
low_form_lem r g2 low e = cc e
low_form_lem r g3 low e = cc e
low_form_lem r g4 low e = cc e
low_form_lem r g5 low e = cc e
low_form_lem r g6 low e = cc e

pub from_pair :
    (r s : Gf7) (sig : Gf7 × Gf7)
    → pair_up (nonzero r) (nonzero s) ≡ some sig
    → (sig ≡ (r, s)) × (r ≢ zero_scalar) × (s ≢ zero_scalar)
unfolding zero_scalar gf7_field
from_pair r s sig e =
    let (p, q) = pair_up_lem (nonzero r) (nonzero s) sig e in
    let (a, n) = nonzero_lem r sig.0 p in
    let (b, m) = nonzero_lem s sig.1 q in (λ i. (sym a i, sym b i), n, m)

instance unfoldable pub gf7_signatures : Signatures Gf7 (Gf7 × Gf7)
gf7_signatures = record {
  from_scalars = λ r s. pair_up (nonzero r) (nonzero s);
  scalars = λ sig. sig;
  normalize_s = λ sig. with_first sig.0 (low_form sig.1);
  from_scalars-scalars = from_pair;
  normalize_s-scalars = λ sig low e. low_form_lem sig.0 sig.1 low e;
}
