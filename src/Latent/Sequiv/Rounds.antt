-- ===== src/Latent/Sequiv/Rounds.antt =====
-- The loops of crates/factum-l/src/sequiv.rs: when they end without a difference.
use factum.Prelude.{
  ℕ, ◌+◌, ◌≡◌, refl, ◌↔◌, inl, inr, List, [], ◌∷◌, ◌++◌, Text, codes, text_eq, eqb, eqb_iff,
  Bool-cases, arith,
}
use factum.Core.Platform.{Platform}
use factum.Core.Types.{Literal, PredicateHead, Terms, nil, cons, NamedArgs, end, arg}
use factum.Core.Types.Equality.{literal_eq_iff}
use factum.Latent.Floats.{Floats}
use factum.Latent.Sequiv.{
  exact, different, EquivResult, HeadMatch, same, same_kind, different_heads, SemEquiv, Tally,
  Progress, going, stopped, Words, tally, conclude, compare_literals, no_tally, and_then, then_go,
  compare_terms, compare_each, compare_named, named, at, join, zipped, by_heads,
}

abbrev pub IsExact : {p : Platform} → EquivResult p → Type 0
IsExact r = r.level ≡ exact

pub snoc_nonempty : (ds : List Text) (d : Text) → ds ++ d ∷ [] ≡ [] → ⊥
snoc_nonempty [] d h = ground arith
snoc_nonempty (x ∷ xs) d h = ground arith

module _ {p : Platform} where
  pub tally_exact :
      (w : Words) (i : ℕ) (r : EquivResult p) (t : Tally) → IsExact r → tally w i r t ≡ going t
  unfolding tally
  tally_exact w i r t h = ground arith

  -- what is left of one round that ends without a difference
  pub tally_clean :
      (w : Words) (i : ℕ) (r : EquivResult p) (t t' : Tally)
      → tally w i r t ≡ going t'
      → t'.diffs ≡ []
      → IsExact r × (t ≡ t')
  unfolding tally
  tally_clean w i r t t' h c = ground (
    arith,
    snoc_nonempty t.diffs (at w.place i ++ w.value ++ join r.differences),
    snoc_nonempty t.diffs (at w.place i ++ codes " drift: " ++ join r.differences),
  )

  pub tally_stops :
      (w : Words) (i : ℕ) (r : EquivResult p) (t : Tally) (q : EquivResult p)
      → tally w i r t ≡ stopped q
      → q.level ≡ different
  unfolding tally
  tally_stops w i r t q h = ground arith

  pub conclude-IsExact : (f : Floats p) (t : Tally) → IsExact (conclude f t) → t.diffs ≡ []
  unfolding conclude
  conclude-IsExact f t h = ground arith

  pub conclude_none : (f : Floats p) → IsExact (conclude f no_tally)
  unfolding conclude
  conclude_none f = refl

  -- Only a loop that ends without a difference concludes exactly.
  pub and_then-IsExact :
      (o : Progress p) (k : Tally → EquivResult p)
      → ((q : EquivResult p) → o ≡ stopped q → q.level ≡ different)
      → IsExact (and_then o k)
      → (t : Tally) × (o ≡ going t) × IsExact (k t)
  and_then-IsExact (going t) k stops h = (t, refl, h)
  and_then-IsExact (stopped q) k stops h = absurd (cc (stops q refl, h))

  pub zipped-IsExact :
      (word : Text) (m n : ℕ) (o : Progress p) (k : Tally → EquivResult p)
      → ((q : EquivResult p) → o ≡ stopped q → q.level ≡ different)
      → IsExact (zipped word m n o k)
      → (m ≡ n) × (t : Tally) × (o ≡ going t) × IsExact (k t)
  zipped-IsExact word m n o k stops h = elim (Bool-cases (eqb m n)) [
    | inl e ↦ let (t, q, c) = and_then-IsExact o k stops (rw e at h) in ((eqb_iff m n).0 e, t, q, c)
    | inr e ↦ absurd (let g = rw e at h in cc g)
  ]

  pub then_go-stopped :
      (o : Progress p) (k : Tally → Progress p) (q : EquivResult p)
      → ((q' : EquivResult p) → o ≡ stopped q' → q'.level ≡ different)
      → ((t : Tally) (q' : EquivResult p) → k t ≡ stopped q' → q'.level ≡ different)
      → then_go o k ≡ stopped q
      → q.level ≡ different
  then_go-stopped (going t) k q h l e = l t q e
  then_go-stopped (stopped q') k q h l e = h q e

  pub then_go-going :
      (o : Progress p) (k : Tally → Progress p) (t : Tally)
      → then_go o k ≡ going t
      → (t' : Tally) × (o ≡ going t') × (k t' ≡ going t)
  then_go-going (going t') k t e = (t', refl, e)
  then_go-going (stopped q') k t e = absurd (cc e)

pub compare_each_stops :
    {p : Platform} (s : SemEquiv p) (w : Words) (i : ℕ) (ts us : Terms p) (t : Tally)
    (q : EquivResult p)
    → compare_each s w i ts us t ≡ stopped q
    → q.level ≡ different
unfolding compare_each
compare_each_stops s w i nil us t q h = cc h
compare_each_stops s w i (cons a ts) nil t q h = cc h
compare_each_stops s w i (cons a ts) (cons b us) t q h =
    then_go-stopped (tally w i (compare_terms s a b) t) (compare_each s w (i + 1) ts us) q
      (tally_stops w i (compare_terms s a b) t) (compare_each_stops s w (i + 1) ts us) h

pub compare_named_stops :
    {p : Platform} (s : SemEquiv p) (i : ℕ) (ns ms : NamedArgs p) (t : Tally) (q : EquivResult p)
    → compare_named s i ns ms t ≡ stopped q
    → q.level ≡ different
unfolding compare_named
compare_named_stops s i end ms t q h = cc h
compare_named_stops s i (arg k a ns) end t q h = cc h
compare_named_stops s i (arg k a ns) (arg j b ms) t q h = elim (Bool-cases (text_eq k j)) [
  | inl e ↦
      then_go-stopped (tally named i (compare_terms s a b) t) (compare_named s (i + 1) ns ms) q
        (tally_stops named i (compare_terms s a b) t) (compare_named_stops s (i + 1) ns ms)
        (rw e at h)
  | inr e ↦ ground arith
]

pub by_heads-IsExact :
    {p : Platform} (s : SemEquiv p) (g h : PredicateHead) (m : HeadMatch) (r : EquivResult p)
    → IsExact (by_heads s g h m r)
    → (m ≡ same) × IsExact r
unfolding by_heads
by_heads-IsExact s g h same r e = (refl, e)
by_heads-IsExact s g h (same_kind a b) r e = absurd (cc e)
by_heads-IsExact s g h different_heads r e = absurd (cc e)

pub by_heads_same :
    {p : Platform} (s : SemEquiv p) (g h : PredicateHead) (r : EquivResult p)
    → by_heads s g h same r ≡ r
unfolding by_heads
by_heads_same s g h r = refl

pub compare_literals_iff :
    {p : Platform} (f : Floats p) (a b : Literal p) → IsExact (compare_literals f a b) ↔ (a ≡ b)
unfolding compare_literals
compare_literals_iff f a b = ground (arith, literal_eq_iff a b)
