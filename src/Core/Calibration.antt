-- ===== src/Core/Calibration.antt =====
-- crates/factum-core/src/calibration.rs: the confidence that goes with a kind of evidence.
use Prim.Native.Nat.{compare}
use factum.Prelude.{
  ℕ, ◌≤◌, ◌≡◌, refl, false, some, List, [], ◌∷◌, ◌++◌, Text, codes, if◌then◌else◌, Result, ok, err,
  arith,
}
use factum.Core.Platform.{Platform, f32_lt}
use factum.Core.Types.{Provenance, verbatim, summary, extracted, derived, asserted}

-- `provenance_name`
unfoldable pub provenance_name : Provenance → Text
provenance_name (verbatim doc span) = codes "Verbatim"
provenance_name (extracted doc span model) = codes "Extracted"
provenance_name (summary doc span) = codes "Summary"
provenance_name (asserted by) = codes "Asserted"
provenance_name (derived from rule) = codes "Derived"

module _ (p : Platform) where
  abbrev pub default_rule_reliability : p.F32
  default_rule_reliability = p.float 95 2

  unfoldable pub default_confidence_for_provenance : Provenance → p.F32
  default_confidence_for_provenance (verbatim doc span) = p.float 95 2
  default_confidence_for_provenance (extracted doc span model) = p.float 80 2
  default_confidence_for_provenance (summary doc span) = p.float 75 2
  default_confidence_for_provenance (asserted by) = p.float 60 2
  default_confidence_for_provenance (derived from rule) = p.float 80 2

  -- `fold(f32::INFINITY, f32::min)`
  unfoldable pub min_of : p.F32 → List p.F32 → p.F32
  min_of m [] = m
  min_of m (c ∷ cs) = min_of (p.min m c) cs

  unfoldable pub derived_confidence : List p.F32 → p.F32 → p.F32
  unfolding min_of
  derived_confidence [] rule_reliability = p.float 0 2
  derived_confidence (c ∷ cs) rule_reliability = p.mul (min_of p.infinity (c ∷ cs)) rule_reliability

  unfoldable pub derived_confidence_default : List p.F32 → p.F32
  unfolding derived_confidence
  derived_confidence_default cs = derived_confidence cs default_rule_reliability

  unfoldable pub confidence_band : Provenance → p.F32 × p.F32
  confidence_band (verbatim doc span) = (p.float 90 2, p.float 98 2)
  confidence_band (extracted doc span model) = (p.float 60 2, p.float 90 2)
  confidence_band (summary doc span) = (p.float 50 2, p.float 85 2)
  confidence_band (asserted by) = (p.float 30 2, p.float 80 2)
  confidence_band (derived from rule) = (p.float 0 2, p.float 100 2)

  above : Provenance → p.F32 → p.F32 → Text
  unfolding provenance_name
  above prov conf upper =
      codes "confidence "
      ++ p.format2_f32 conf
      ++ codes " exceeds "
      ++ provenance_name prov
      ++ codes " band upper bound "
      ++ p.format2_f32 upper
      ++ codes "; corroboration evidence required for values above "
      ++ p.format2_f32 upper

  below : Provenance → p.F32 → p.F32 → Text
  unfolding provenance_name
  below prov conf lower =
      codes "confidence "
      ++ p.format2_f32 conf
      ++ codes " is below "
      ++ provenance_name prov
      ++ codes " band lower bound "
      ++ p.format2_f32 lower
      ++ codes "; consider not inserting this knowledge"

  unfoldable pub check_confidence_band : Provenance → p.F32 → Result Text Unit
  unfolding confidence_band above below
  check_confidence_band prov conf =
      let band = confidence_band prov in
      if f32_lt p band.1 conf
      then err (above prov conf band.1)
      else if f32_lt p conf band.0
      then err (below prov conf band.0)
      else ok tt

-- What the policy relies on: decimals of two digits up to one are compared as the decimals that
-- they stand for, since their values in single precision are distinct and in the same order.
abbrev pub KeepsOrder : Platform → Type 0
KeepsOrder p =
    (a b : ℕ) → a ≤ 100 → b ≤ 100 → p.partial_cmp (p.float a 2) (p.float b 2) ≡ some (compare a b)

inside :
    (p : Platform) (a b : ℕ)
    → KeepsOrder p
    → a ≤ b
    → b ≤ 100
    → f32_lt p (p.float b 2) (p.float a 2) ≡ false
inside p a b h k l = rw (h b a l (omega arith), f32_lt) (ground arith)

-- The default confidence of each kind of evidence lies in the band of that kind, where decimals of
-- two digits keep their order.
pub check_confidence_band-default :
    (p : Platform) (prov : Provenance)
    → KeepsOrder p
    → check_confidence_band p prov (default_confidence_for_provenance p prov) ≡ ok tt
unfolding check_confidence_band default_confidence_for_provenance
check_confidence_band-default p (verbatim doc span) h =
    let top = inside p 95 98 h (omega arith) (omega arith) in
    let bottom = inside p 90 95 h (omega arith) (omega arith) in
    rw (top, check_confidence_band) (rw bottom refl)
check_confidence_band-default p (extracted doc span model) h =
    let top = inside p 80 90 h (omega arith) (omega arith) in
    let bottom = inside p 60 80 h (omega arith) (omega arith) in
    rw (top, check_confidence_band) (rw bottom refl)
check_confidence_band-default p (summary doc span) h =
    let top = inside p 75 85 h (omega arith) (omega arith) in
    let bottom = inside p 50 75 h (omega arith) (omega arith) in
    rw (top, check_confidence_band) (rw bottom refl)
check_confidence_band-default p (asserted by) h =
    let top = inside p 60 80 h (omega arith) (omega arith) in
    let bottom = inside p 30 60 h (omega arith) (omega arith) in
    rw (top, check_confidence_band) (rw bottom refl)
check_confidence_band-default p (derived from rule) h =
    let top = inside p 80 100 h (omega arith) (omega arith) in
    let bottom = inside p 0 80 h (omega arith) (omega arith) in
    rw (top, check_confidence_band) (rw bottom refl)
