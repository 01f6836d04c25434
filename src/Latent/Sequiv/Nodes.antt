-- ===== src/Latent/Sequiv/Nodes.antt =====
-- How crates/factum-l/src/sequiv.rs compares whole nodes and sequences of them.
use factum.Prelude.{Bool, not, List, [], ◌∷◌, ◌++◌, Text, codes, eqb, if◌then◌else◌, length}
use factum.Core.Platform.{Platform, f32_lt}
use factum.Core.Types.{Node}
use factum.Core.Types.Display.{debug_status, status_eq, provenance_eq, ids_eq, validity_eq}
use factum.Latent.Sequiv.{
  exact, metadata_drift, wrong_values, different, EquivResult, SemEquiv, exactly, drifted, wrong,
  versus, compare_predicates,
}

-- The `diffs.push(d)` of a sequence of `if !same { diffs.push(d) }`.
unfoldable pub pushed : List (Bool × Text) → List Text
pushed [] = []
pushed ((same_field, d) ∷ r) = let rest = pushed r in if same_field then rest else d ∷ rest

module _ {p : Platform} (s : SemEquiv p) where
  -- `(a - b).abs() > F32_EPS`
  abbrev pub drifts : p.F32 → p.F32 → Bool
  drifts a b = f32_lt p (p.float 1 6) (p.abs (p.sub a b))

  -- `collect_metadata_diffs`, on the list that it appends to `diffs`
  unfoldable pub collect_metadata_diffs : Node p → Node p → List Text
  collect_metadata_diffs a b = pushed (
      (validity_eq a.validity b.validity, codes "validity mismatch")
      ∷ (provenance_eq a.provenance b.provenance, codes "provenance mismatch")
      ∷ (
        not (drifts a.confidence b.confidence),
        versus (codes "confidence") (p.format_f32 a.confidence) (p.format_f32 b.confidence),
      )
      ∷ (
        not (drifts a.authority b.authority),
        versus (codes "authority") (p.format_f32 a.authority) (p.format_f32 b.authority),
      )
      ∷ (eqb a.permissions b.permissions, codes "permissions mismatch")
      ∷ (ids_eq a.deps b.deps, codes "deps mismatch")
      ∷ (
        status_eq a.status b.status,
        versus (codes "status mismatch") (debug_status a.status) (debug_status b.status),
      )
      ∷ [])

  abbrev exact_or_drifted : List Text → EquivResult p
  exact_or_drifted [] = exactly
  exact_or_drifted (d ∷ ds) = drifted (d ∷ ds)

  -- what `compare` makes of the comparison of the predicates and the differences of the metadata
  unfoldable pub judge : EquivResult p → List Text → EquivResult p
  judge r metadata = elim (r.level) [
    | different ↦ r
    | wrong_values ↦ wrong r.score (r.differences ++ metadata)
    | metadata_drift ↦ exact_or_drifted (r.differences ++ metadata)
    | exact ↦ exact_or_drifted metadata
  ]

  -- `SemEquiv::compare`
  unfoldable pub compare : Node p → Node p → EquivResult p
  compare original decoded =
      judge (compare_predicates s original.predicate decoded.predicate)
        (collect_metadata_diffs original decoded)

  -- the sum of the scores
  unfoldable pub sum_scores : p.F32 → List (Node p) → List (Node p) → p.F32
  unfolding compare
  sum_scores total (o ∷ os) (d ∷ ds) = sum_scores (p.add total (compare o d).score) os ds
  sum_scores total _ _ = total

  -- `compare_sequence`
  unfoldable pub compare_sequence : List (Node p) → List (Node p) → p.F32
  unfolding sum_scores
  compare_sequence [] [] = p.float 10 1
  compare_sequence os ds =
      if eqb (length os) (length ds)
      then s.floats.div (sum_scores (p.float 0 1) os ds) (s.floats.of_usize (length os))
      else p.float 0 1
