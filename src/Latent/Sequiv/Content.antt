-- ===== src/Latent/Sequiv/Content.antt =====
-- The content of terms and predicates, and that crates/factum-l/src/sequiv.rs compares it.
use factum.Prelude.{
  Option, none, some, ◌++◌, get_elem?, ℕ, suc, ◌+◌, true, ◌≡◌, refl, sym, ap, ◌∙◌, ◌↔◌, inl, inr,
  [], Text, codes, text_eq, text_eq_iff, eqb, eqb_iff, Bool-cases, arith,
}
use factum.Core.Platform.{Platform}
use factum.Core.Types.{
  PredicateHead, Term, var, ent, lit, compound, list, Terms, nil, cons, NamedArgs, end, arg,
  Predicate, predicate,
}
use factum.HashMap
use factum.HashMap.{text_key}
use factum.Prelude.Digits.{to_string}
use factum.Core.Morphemes.{MorphemeRegistry, MorphemeDef, MorphemeKind, lookup, lookup_id, resolve}
use factum.Latent.Sequiv.{
  same, SemEquiv, head_info, compare_heads, Tally, going, Words, tally, conclude, no_tally,
  terms_len, named_len, compare_terms, compare_each, compare_named, compare_predicates, args, named,
  items,
}
use factum.Latent.Sequiv.Rounds.{
  IsExact, tally_exact, tally_clean, conclude-IsExact, conclude_none, zipped-IsExact, then_go-going,
  compare_each_stops, compare_named_stops, by_heads-IsExact, by_heads_same, compare_literals_iff,
}

-- The entry of the registry for a head: the morpheme of that number, or of the number that the name
-- has there.
unfoldable pub registered : MorphemeRegistry → PredicateHead → Option MorphemeDef
registered r (PredicateHead.id i) = get_elem? r.by_id i
registered r (PredicateHead.name n) = elim (HashMap.get n r.by_name) [
  | none ↦ none
  | some i ↦ get_elem? r.by_id i
]

-- The name of a head without an entry: a name stands for itself, a number is printed behind an "M".
unfoldable pub unregistered_name : PredicateHead → Text
unregistered_name (PredicateHead.id i) = codes "M" ++ to_string i
unregistered_name (PredicateHead.name n) = n

-- The name that the registry holds for a head, if it has an entry.
unfoldable pub registered_name : MorphemeRegistry → PredicateHead → Text
registered_name r h = elim (registered r h) [ none ↦ unregistered_name h | some d ↦ d.name ]

entry_name :
    (o : Option MorphemeDef) (k : MorphemeKind) (n : Text)
    → (elim o as (λ x. MorphemeKind × Text) [ none ↦ (k, n) | some d ↦ (d.kind, d.name) ]).1
      ≡ elim o [ none ↦ n | some d ↦ d.name ]
entry_name none k n = refl
entry_name (some d) k n = refl

head_info-registered_name :
    (r : MorphemeRegistry) (h : PredicateHead) → (head_info r h).1 ≡ registered_name r h
unfolding head_info registered_name registered unregistered_name lookup lookup_id resolve
head_info-registered_name r (PredicateHead.id i) = entry_name (get_elem? r.by_id i) _ _
head_info-registered_name r (PredicateHead.name n) =
    entry_name (registered r (PredicateHead.name n)) _ _

-- A head under its name in the registry.
abbrev pub named_head : MorphemeRegistry → PredicateHead → PredicateHead
named_head r h = PredicateHead.name (registered_name r h)

unfoldable mutual
  pub content : {p : Platform} → MorphemeRegistry → Term p → Term p
  content r (var a) = var a
  content r (ent a) = ent a
  content r (lit a) = lit a
  content r (compound q) = compound (content_predicate r q)
  content r (list ts) = list (content_terms r ts)

  pub content_terms : {p : Platform} → MorphemeRegistry → Terms p → Terms p
  content_terms r nil = nil
  content_terms r (cons t ts) = cons (content r t) (content_terms r ts)

  pub content_named : {p : Platform} → MorphemeRegistry → NamedArgs p → NamedArgs p
  content_named r end = end
  content_named r (arg k t ns) = arg k (content r t) (content_named r ns)

  pub content_predicate : {p : Platform} → MorphemeRegistry → Predicate p → Predicate p
  content_predicate r (predicate h ts ns) =
      predicate (named_head r h) (content_terms r ts) (content_named r ns)

pub compare_heads_iff :
    (r : MorphemeRegistry) (g h : PredicateHead)
    → (compare_heads r g h ≡ same) ↔ (named_head r g ≡ named_head r h)
unfolding compare_heads
compare_heads_iff r g h =
    rw (← head_info-registered_name r g, ← head_info-registered_name r h)
      (ground (arith, text_eq_iff (head_info r g).1 (head_info r h).1))

content_terms_len :
    {p : Platform} (r : MorphemeRegistry) (ts : Terms p)
    → terms_len (content_terms r ts) ≡ terms_len ts
unfolding content_terms
content_terms_len r nil = refl
content_terms_len r (cons t ts) = ap suc (content_terms_len r ts)

content_named_len :
    {p : Platform} (r : MorphemeRegistry) (ns : NamedArgs p)
    → named_len (content_named r ns) ≡ named_len ns
unfolding content_named
content_named_len r end = refl
content_named_len r (arg k t ns) = ap suc (content_named_len r ns)

same_len :
    {p : Platform} (r : MorphemeRegistry) (ts us : Terms p)
    → content_terms r ts ≡ content_terms r us
    → eqb (terms_len ts) (terms_len us) ≡ true
same_len r ts us h =
    (eqb_iff (terms_len ts) (terms_len us)).1
      (sym (content_terms_len r ts) ∙ (ap terms_len h ∙ content_terms_len r us))

same_named_len :
    {p : Platform} (r : MorphemeRegistry) (ns ms : NamedArgs p)
    → content_named r ns ≡ content_named r ms
    → eqb (named_len ns) (named_len ms) ≡ true
same_named_len r ns ms h =
    (eqb_iff (named_len ns) (named_len ms)).1
      (sym (content_named_len r ns) ∙ (ap named_len h ∙ content_named_len r ms))

same_cons :
    {p : Platform} {t u : Term p} {ts us : Terms p} → t ≡ u → ts ≡ us → cons t ts ≡ cons u us
same_cons h k = cc (h, k)

same_arg :
    {p : Platform} {k j : Text} {t u : Term p} {ns ms : NamedArgs p}
    → k ≡ j
    → t ≡ u
    → ns ≡ ms
    → arg k t ns ≡ arg j u ms
same_arg e h k = cc (e, h, k)

same_predicate :
    {p : Platform} {g h : PredicateHead} {ts us : Terms p} {ns ms : NamedArgs p}
    → g ≡ h
    → ts ≡ us
    → ns ≡ ms
    → predicate g ts ns ≡ predicate h us ms
same_predicate e h k = cc (e, h, k)

mutual
  unfolding compare_terms compare_each compare_named compare_predicates content content_terms
      content_named content_predicate

  term_same :
      {p : Platform} (s : SemEquiv p) (a b : Term p)
      → content s.registry a ≡ content s.registry b
      → IsExact (compare_terms s a b)
  term_same s (var a) (var b) h = ground (arith, text_eq_iff a b)
  term_same s (ent a) (ent b) h = ground (arith, text_eq_iff a b)
  term_same s (lit a) (lit b) h = ground (arith, compare_literals_iff s.floats a b)
  term_same s (compound a) (compound b) h = predicate_same s a b (cc h)
  term_same s (list ts) (list us) h =
      let e : content_terms s.registry ts ≡ content_terms s.registry us = cc h in
      rw (same_len s.registry ts us e)
        (rw (each_same s items 0 ts us no_tally e) (conclude_none s.floats))
  term_same s _ _ h = absurd (cc h)

  each_same :
      {p : Platform} (s : SemEquiv p) (w : Words) (i : ℕ) (ts us : Terms p) (t : Tally)
      → content_terms s.registry ts ≡ content_terms s.registry us
      → compare_each s w i ts us t ≡ going t
  each_same s w i nil us t h = refl
  each_same s w i (cons a ts) nil t h = refl
  each_same s w i (cons a ts) (cons b us) t h =
      rw (tally_exact w i (compare_terms s a b) t (term_same s a b (cc h)))
        (each_same s w (i + 1) ts us t (cc h))

  named_same :
      {p : Platform} (s : SemEquiv p) (i : ℕ) (ns ms : NamedArgs p) (t : Tally)
      → content_named s.registry ns ≡ content_named s.registry ms
      → compare_named s i ns ms t ≡ going t
  named_same s i end ms t h = refl
  named_same s i (arg k a ns) end t h = refl
  named_same s i (arg k a ns) (arg j b ms) t h =
      let e : k ≡ j = cc h in
      rw ((text_eq_iff k j).1 e) (
        rw (tally_exact named i (compare_terms s a b) t (term_same s a b (cc h)))
          (named_same s (i + 1) ns ms t (cc h)))

  predicate_same :
      {p : Platform} (s : SemEquiv p) (a b : Predicate p)
      → content_predicate s.registry a ≡ content_predicate s.registry b
      → IsExact (compare_predicates s a b)
  predicate_same s (predicate g ts ns) (predicate h us ms) e =
      let ets : content_terms s.registry ts ≡ content_terms s.registry us = cc e in
      let ens : content_named s.registry ns ≡ content_named s.registry ms = cc e in
      rw ((compare_heads_iff s.registry g h).1 (cc e)) (
        rw (by_heads_same s g h) (
          rw (same_len s.registry ts us ets) (
            rw (each_same s args 0 ts us no_tally ets) (
              rw (same_named_len s.registry ns ms ens)
                (rw (named_same s 0 ns ms no_tally ens) (conclude_none s.floats))))))

mutual
  unfolding compare_terms compare_each compare_named compare_predicates content content_terms
      content_named content_predicate

  term_sound :
      {p : Platform} (s : SemEquiv p) (a b : Term p)
      → IsExact (compare_terms s a b)
      → content s.registry a ≡ content s.registry b
  term_sound s (var a) (var b) h = ground (arith, text_eq_iff a b)
  term_sound s (ent a) (ent b) h = ground (arith, text_eq_iff a b)
  term_sound s (lit a) (lit b) h = ground (arith, compare_literals_iff s.floats a b)
  term_sound s (compound a) (compound b) h = ap compound (predicate_sound s a b h)
  term_sound s (list ts) (list us) h =
      let (l, t, o, c) =
        zipped-IsExact (codes "list length") (terms_len ts) (terms_len us)
          (compare_each s items 0 ts us no_tally) (conclude s.floats)
          (compare_each_stops s items 0 ts us no_tally) h in
      ap list (each_sound s items 0 ts us no_tally t l o (conclude-IsExact s.floats t c)).0
  term_sound s _ _ h = absurd (cc h)

  each_sound :
      {p : Platform} (s : SemEquiv p) (w : Words) (i : ℕ) (ts us : Terms p) (t t' : Tally)
      → terms_len ts ≡ terms_len us
      → compare_each s w i ts us t ≡ going t'
      → t'.diffs ≡ []
      → (content_terms s.registry ts ≡ content_terms s.registry us) × (t ≡ t')
  each_sound s w i nil nil t t' l h c = (refl, cc h)
  each_sound s w i nil (cons b us) t t' l h c = absurd (omega (arith, l))
  each_sound s w i (cons a ts) nil t t' l h c = absurd (omega (arith, l))
  each_sound s w i (cons a ts) (cons b us) t t' l h c =
      let (m, o, k) = then_go-going (tally w i (compare_terms s a b) t) _ t' h in
      let ih = each_sound s w (i + 1) ts us m t' (omega (arith, l)) k c in
      let (x, e) =
        tally_clean w i (compare_terms s a b) t m o (ap (λ (u : Tally). u.diffs) ih.1 ∙ c) in
      (same_cons (term_sound s a b x) ih.0, e ∙ ih.1)

  named_sound :
      {p : Platform} (s : SemEquiv p) (i : ℕ) (ns ms : NamedArgs p) (t t' : Tally)
      → named_len ns ≡ named_len ms
      → compare_named s i ns ms t ≡ going t'
      → t'.diffs ≡ []
      → (content_named s.registry ns ≡ content_named s.registry ms) × (t ≡ t')
  named_sound s i end end t t' l h c = (refl, cc h)
  named_sound s i end (arg j b ms) t t' l h c = absurd (omega (arith, l))
  named_sound s i (arg k a ns) end t t' l h c = absurd (omega (arith, l))
  named_sound s i (arg k a ns) (arg j b ms) t t' l h c = elim (Bool-cases (text_eq k j)) [
    | inl q ↦
        let (m, o, g) = then_go-going (tally named i (compare_terms s a b) t) _ t' (rw q at h) in
        let ih = named_sound s (i + 1) ns ms m t' (omega (arith, l)) g c in
        let (x, e) =
          tally_clean named i (compare_terms s a b) t m o (ap (λ (u : Tally). u.diffs) ih.1 ∙ c) in
        (same_arg ((text_eq_iff k j).0 q) (term_sound s a b x) ih.0, e ∙ ih.1)
    | inr q ↦ absurd (let g = rw q at h in cc g)
  ]

  predicate_sound :
      {p : Platform} (s : SemEquiv p) (a b : Predicate p)
      → IsExact (compare_predicates s a b)
      → content_predicate s.registry a ≡ content_predicate s.registry b
  predicate_sound s (predicate g ts ns) (predicate h us ms) e =
      let (q, b) = by_heads-IsExact s g h (compare_heads s.registry g h) _ e in
      let (l, t, o, k) =
        zipped-IsExact (codes "arg count mismatch") (terms_len ts) (terms_len us)
          (compare_each s args 0 ts us no_tally) _ (compare_each_stops s args 0 ts us no_tally) b in
      let (l', t', o', c) =
        zipped-IsExact (codes "named arg count mismatch") (named_len ns) (named_len ms)
          (compare_named s 0 ns ms t) (conclude s.floats) (compare_named_stops s 0 ns ms t) k in
      let clean = conclude-IsExact s.floats t' c in
      let n = named_sound s 0 ns ms t t' l' o' clean in
      let a = each_sound s args 0 ts us no_tally t l o (ap (λ (u : Tally). u.diffs) n.1 ∙ clean) in
      same_predicate ((compare_heads_iff s.registry g h).0 q) a.0 n.0

-- Two predicates compare as exactly equal if and only if they are the same predicate, once each
-- head is replaced by the name that the registry holds for it, where it holds one, and otherwise by
-- its own name or by its number behind an M. Decimals are the same if mantissa and scale are: no
-- tolerance applies to them.
pub compare_predicates-IsExact :
    {p : Platform} (s : SemEquiv p) (a b : Predicate p)
    → IsExact (compare_predicates s a b)
      ↔ (content_predicate s.registry a ≡ content_predicate s.registry b)
compare_predicates-IsExact s a b = (predicate_sound s a b, predicate_same s a b)
