-- ===== src/Latent/Sequiv/Laws.antt =====
-- What crates/factum-l/src/sequiv.rs takes for exactly equal.
use factum.Prelude.{
  ℕ, Bool, true, false, ◌≡◌, refl, ap, ◌↔◌, inl, inr, List, [], ◌∷◌, ◌++◌, Text, codes, ◌≢◌, eqb,
  eqb_iff, Bool-cases, arith, All, not,
}
use factum.Core.Platform.{Platform}
use factum.Core.Types.{PredicateHead, Predicate, predicate, Node}
use factum.Core.Types.Display.{status_eq_iff, provenance_eq_iff, ids_eq_iff, validity_eq}
use factum.Latent.Floats.{Floats}
use factum.Latent.Sequiv.{
  metadata_drift, different, EquivResult, HeadMatch, same, same_kind, different_heads, SemEquiv,
  compare_heads, Tally, Progress, going, stopped, conclude, no_tally, terms_len, named_len,
  compare_each, compare_named, compare_predicates, args, zipped, by_heads,
}
use factum.Latent.Sequiv.Nodes.{drifts, collect_metadata_diffs, compare, pushed, judge}
use factum.Latent.Sequiv.Rounds.{IsExact, compare_each_stops, compare_named_stops}
use factum.Latent.Sequiv.Content.{content_predicate, compare_predicates-IsExact}

-- What two nodes that compare as exactly equal have in common.
pub record SameContent {p : Platform} (s : SemEquiv p) (a b : Node p) : Type 0 where
  pub predicates :
      content_predicate s.registry a.predicate ≡ content_predicate s.registry b.predicate
  pub validities : validity_eq a.validity b.validity ≡ true
  pub provenances : a.provenance ≡ b.provenance
  pub confidences : drifts s a.confidence b.confidence ≡ false
  pub authorities : drifts s a.authority b.authority ≡ false
  pub permission_tags : a.permissions ≡ b.permissions
  pub dependencies : a.deps ≡ b.deps
  pub statuses : a.status ≡ b.status

-- The metadata, as far as they are compared.
abbrev SameMetadata : {p : Platform} → SemEquiv p → Node p → Node p → Type 0
SameMetadata s a b =
    (validity_eq a.validity b.validity ≡ true)
    × (a.provenance ≡ b.provenance)
    × (drifts s a.confidence b.confidence ≡ false)
    × (drifts s a.authority b.authority ≡ false)
    × (a.permissions ≡ b.permissions)
    × (a.deps ≡ b.deps)
    × (a.status ≡ b.status)

pushed_iff : (xs : List (Bool × Text)) → (pushed xs ≡ []) ↔ All (λ x. x.0 ≡ true) xs
unfolding pushed
pushed_iff [] = (λ h. tt, λ h. refl)
pushed_iff ((b, d) ∷ r) = ground (arith, pushed_iff r)

not-true : (b : Bool) → not b ≡ true → b ≡ false
not-true b h = ground arith

metadata_iff :
    {p : Platform} (s : SemEquiv p) (a b : Node p)
    → (collect_metadata_diffs s a b ≡ []) ↔ SameMetadata s a b
unfolding collect_metadata_diffs
metadata_iff s a b = (
  λ h.
      let (v, (q, (c, (u, (t, (d, (st, _))))))) = (pushed_iff _).0 h in
      (
        v,
        (provenance_eq_iff a.provenance b.provenance).0 q,
        not-true _ c,
        not-true _ u,
        (eqb_iff a.permissions b.permissions).0 t,
        (ids_eq_iff a.deps b.deps).0 d,
        (status_eq_iff a.status b.status).0 st,
      ),
  λ h. (pushed_iff _).1 (
    h.0,
    (
      (provenance_eq_iff a.provenance b.provenance).1 h.1,
      (
        ap not h.2,
        (
          ap not h.3,
          (
            (eqb_iff a.permissions b.permissions).1 h.4,
            ((ids_eq_iff a.deps b.deps).1 h.5, ((status_eq_iff a.status b.status).1 h.6, tt)),
          ),
        ),
      ),
    ),
  ),
)

append_nil_left : (xs ys : List Text) → xs ++ ys ≡ [] → xs ≡ []
append_nil_left [] ys h = refl
append_nil_left (x ∷ xs) ys h = absurd (cc h)

-- A drift comes with a difference.
abbrev Explains : {p : Platform} → EquivResult p → Type 0
Explains r = r.level ≡ metadata_drift → r.differences ≢ []

conclude-Explains : {p : Platform} (f : Floats p) (t : Tally) → Explains (conclude f t)
unfolding conclude
conclude-Explains f t h e = ground arith

zipped-Explains :
    {p : Platform} (word : Text) (m n : ℕ) (o : Progress p) (k : Tally → EquivResult p)
    → ((q : EquivResult p) → o ≡ stopped q → q.level ≡ different)
    → ((t : Tally) → Explains (k t))
    → Explains (zipped word m n o k)
zipped-Explains word m n (going t) k stops l h e = elim (Bool-cases (eqb m n)) [
  | inl q ↦ l t (rw q at h) (rw q at e)
  | inr q ↦ cc (rw q at h)
]
zipped-Explains word m n (stopped r) k stops l h e = elim (Bool-cases (eqb m n)) [
  | inl q ↦ cc (rw q at h, stops r refl)
  | inr q ↦ cc (rw q at h)
]

by_heads-Explains :
    {p : Platform} (s : SemEquiv p) (g h : PredicateHead) (m : HeadMatch) (r : EquivResult p)
    → Explains r
    → Explains (by_heads s g h m r)
unfolding by_heads
by_heads-Explains s g h same r l = l
by_heads-Explains s g h (same_kind a b) r l = λ q e. cc q
by_heads-Explains s g h different_heads r l = λ q e. cc q

predicate-Explains :
    {p : Platform} (s : SemEquiv p) (a b : Predicate p) → Explains (compare_predicates s a b)
unfolding compare_predicates
predicate-Explains s (predicate g ts ns) (predicate h us ms) =
    by_heads-Explains s g h (compare_heads s.registry g h) _ (
      zipped-Explains (codes "arg count mismatch") (terms_len ts) (terms_len us)
        (compare_each s args 0 ts us no_tally) _ (compare_each_stops s args 0 ts us no_tally)
        (λ t.
          zipped-Explains (codes "named arg count mismatch") (named_len ns) (named_len ms)
            (compare_named s 0 ns ms t) (conclude s.floats) (compare_named_stops s 0 ns ms t)
            (conclude-Explains s.floats)))

judge-cases :
    {p : Platform} (s : SemEquiv p) (r : EquivResult p) (ds : List Text)
    → Explains r
    → IsExact (judge s r ds) ↔ (IsExact r × (ds ≡ []))
unfolding judge
judge-cases s r ds l = ground (arith, append_nil_left r.differences ds)

compare-cases :
    {p : Platform} (s : SemEquiv p) (a b : Node p)
    → IsExact (compare s a b) ↔ (
        IsExact (compare_predicates s a.predicate b.predicate)
        × (collect_metadata_diffs s a b ≡ []))
unfolding compare
compare-cases s a b =
    judge-cases s (compare_predicates s a.predicate b.predicate) (collect_metadata_diffs s a b)
      (predicate-Explains s a.predicate b.predicate)

-- Two nodes compare as exactly equal if and only if their predicates are the same once each head
-- stands under the name that the registry holds for it, decimals with the same mantissa and scale
-- included, their validities, provenances, permissions, dependencies and statuses are equal, and
-- their confidences and authorities do not differ by more than the tolerance.
pub compare-IsExact :
    {p : Platform} (s : SemEquiv p) (a b : Node p) → IsExact (compare s a b) ↔ SameContent s a b
compare-IsExact s a b =
    let c = compare-cases s a b in
    let q = compare_predicates-IsExact s a.predicate b.predicate in
    let m = metadata_iff s a b in
    (
      λ h.
          let (e, d) = c.0 h in
          let (v, pr, cf, au, t, dp, st) = m.0 d in
          record {
            predicates = q.0 e;
            validities = v;
            provenances = pr;
            confidences = cf;
            authorities = au;
            permission_tags = t;
            dependencies = dp;
            statuses = st;
          },
      λ h. c.1 (
        q.1 h.predicates,
        m.1 (
          h.validities, h.provenances, h.confidences, h.authorities, h.permission_tags,
          h.dependencies, h.statuses,
        ),
      ),
    )
