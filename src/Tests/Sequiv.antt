-- ===== src/Tests/Sequiv.antt =====
-- The comparison of two nodes of the small store.
use Prim.Native.Nat.{compare as order}
use factum.Prelude.{ℕ, ◌*◌, ◌/◌, ◌≡◌, ap, codes, ◌↔◌, some, ok, arith}
use factum.Core.Types.{asserted}
use factum.Core.Morphemes.{empty_registry}
use factum.Core.Calibration.{
  KeepsOrder, check_confidence_band, default_confidence_for_provenance,
  check_confidence_band-default,
}
use factum.Latent.Sequiv.{SemEquiv, compare_predicates}
use factum.Latent.Sequiv.Nodes.{compare}
use factum.Latent.Sequiv.Rounds.{IsExact}
use factum.Latent.Sequiv.Content.{content_predicate, compare_predicates-IsExact}
use factum.Latent.Sequiv.Laws.{SameContent, compare-IsExact}
use factum.Tests.Data.{small, source, derived_fact, secret, compare_ℕ}
use factum.Tests.Codec.{millionths}

compare_ℕ-compare : (a b : ℕ) → compare_ℕ a b ≡ order a b
compare_ℕ-compare a b = ground arith

scaled : (a b : ℕ) → compare_ℕ (a * 1000000 / 100) (b * 1000000 / 100) ≡ order a b
scaled a b = ground (arith, compare_ℕ-compare a b)

pub small-KeepsOrder : KeepsOrder small
small-KeepsOrder a b h k = ap some (scaled a b)

check_confidence_band-default_example :
    check_confidence_band small
      (asserted (codes "bob"))
      (default_confidence_for_provenance small (asserted (codes "bob")))
    ≡ ok tt
check_confidence_band-default_example =
    check_confidence_band-default small (asserted (codes "bob")) small-KeepsOrder

abbrev comparator : SemEquiv small
comparator = record {
  registry = empty_registry;
  floats = millionths;
  debug_head = λ h. codes "head";
}

compare_predicates-IsExact_example :
    IsExact (compare_predicates comparator source.predicate secret.predicate) ↔ (
      content_predicate empty_registry source.predicate
      ≡ content_predicate empty_registry secret.predicate)
compare_predicates-IsExact_example =
    compare_predicates-IsExact comparator source.predicate secret.predicate

compare-IsExact_example :
    IsExact (compare comparator source derived_fact) ↔ SameContent comparator source derived_fact
compare-IsExact_example = compare-IsExact comparator source derived_fact
