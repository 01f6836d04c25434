-- ===== src/Latent/Sequiv.antt =====
-- crates/factum-l/src/sequiv.rs: how close a decoded node comes to the original. The form that
-- `{:?}` gives to a head is what Rust derives, and a parameter, as are the registry and the
-- operations on f32.
pub mod Nodes
pub mod Rounds
pub mod Content
pub mod Laws
use factum.Prelude.{
  ℕ, zero, suc, ◌+◌, Bool, true, false, not, none, some, List, [], ◌∷◌, ◌++◌, Text, codes, eqb, ltb,
  text_eq, if◌then◌else◌, ◌||◌, starts_with, length,
}
use mathlib.Core.List.{reverse}
use factum.Prelude.Digits.{to_string}
use factum.Core.Platform.{Platform, f32_lt}
use factum.Core.Types.{
  Literal, dec, str, date, dur, bool, uri, PredicateHead, Term, var, ent, lit, compound, list,
  Terms, nil, cons, NamedArgs, end, arg, Predicate, predicate, Node,
}
use factum.Core.Types.Equality.{literal_eq}
use factum.Core.Types.Display.{
  to_canonical_string, debug_status, status_eq, provenance_eq, ids_eq, validity_eq,
}
use factum.Core.Morphemes.{
  MorphemeRegistry, MorphemeKind, MorphemeDef, debug_kind, kind_eq, lookup, lookup_id,
}
use factum.Latent.Floats.{Floats}

pub data EquivLevel : Type 0 where
  exact metadata_drift wrong_values different : EquivLevel

pub record EquivResult (p : Platform) : Type 0 where
  pub level : EquivLevel
  pub score : p.F32
  pub differences : List Text

pub data HeadMatch : Type 0 where
  same : HeadMatch
  same_kind : MorphemeKind → MorphemeKind → HeadMatch
  different_heads : HeadMatch

-- The comparator, with what it takes from outside.
pub record SemEquiv (p : Platform) : Type 0 where
  pub registry : MorphemeRegistry
  pub floats : Floats p
  pub debug_head : PredicateHead → Text

-- `differences.join("; ")`
unfoldable pub join : List Text → Text
join [] = []
join (s ∷ []) = s
join (s ∷ t ∷ ss) = s ++ codes "; " ++ join (t ∷ ss)

-- "word[i]"
abbrev pub at : Text → ℕ → Text
at word i = word ++ codes "[" ++ to_string i ++ codes "]"

-- "word: a vs b"
abbrev pub versus : Text → Text → Text → Text
versus word a b = word ++ codes ": " ++ a ++ codes " vs " ++ b

-- `ends_with`
abbrev ends_with : Text → Text → Bool
ends_with s suffix = starts_with (reverse s) (reverse suffix)

-- `infer_kind_from_name`: all branches give one kind.
unfoldable pub infer_kind_from_name : Text → MorphemeKind
unfolding starts_with
infer_kind_from_name name =
    if ends_with name (codes "-of") || ends_with name (codes "-by") || ends_with name (codes "-in")
    then MorphemeKind.relation
    else if starts_with name (codes "is-") || text_eq name (codes "instance-of")
    then MorphemeKind.relation
    else MorphemeKind.relation

unfoldable pub head_info : MorphemeRegistry → PredicateHead → MorphemeKind × Text
unfolding lookup lookup_id infer_kind_from_name
head_info r (PredicateHead.id i) = elim (lookup_id r i) [
  | some d ↦ (d.kind, d.name)
  | none ↦ (MorphemeKind.relation, codes "M" ++ to_string i)
]
head_info r (PredicateHead.name n) = elim (lookup r n) [
  | some d ↦ (d.kind, d.name)
  | none ↦ (infer_kind_from_name n, n)
]

unfoldable pub compare_heads : MorphemeRegistry → PredicateHead → PredicateHead → HeadMatch
unfolding head_info
compare_heads r a b =
    if text_eq (head_info r a).1 (head_info r b).1
    then same
    else if kind_eq (head_info r a).0 (head_info r b).0
    then same_kind (head_info r a).0 (head_info r b).0
    else different_heads

-- What the loops over the arguments carry: `wrong_count` and `diffs`.
pub record Tally : Type 0 where
  pub wrong_count : ℕ
  pub diffs : List Text

-- A loop goes on, or the function returns.
pub data Progress (p : Platform) : Type 0 where
  going : Tally → Progress p
  stopped : EquivResult p → Progress p

-- The words of a loop's messages: behind the place of a wrong value, of a wrong type, of a drift.
pub record Words : Type 0 where
  pub place : Text
  pub value : Text
  pub type : Text

abbrev args : Words
args = record {
  place = codes "arg";
  value = codes " value wrong: ";
  type = codes " type mismatch: ";
}

abbrev named : Words
named = record {
  place = codes "named";
  value = codes " value wrong: ";
  type = codes " value type mismatch: ";
}

abbrev items : Words
items = record { place = codes "list"; value = codes ": "; type = codes " type mismatch: " }

module _ {p : Platform} where
  -- `EquivResult::exact` and its siblings
  abbrev pub exactly : EquivResult p
  exactly = record { level = exact; score = p.float 10 1; differences = [] }

  abbrev pub drifted : List Text → EquivResult p
  drifted ds = record { level = metadata_drift; score = p.float 85 2; differences = ds }

  abbrev pub wrong : p.F32 → List Text → EquivResult p
  wrong score ds = record {
    level = wrong_values;
    score = p.min score (p.float 3 1);
    differences = ds;
  }

  abbrev pub differing : Text → EquivResult p
  differing reason = record { level = different; score = p.float 0 1; differences = reason ∷ [] }

  abbrev pub terms_len : Terms p → ℕ
  terms_len nil = 0
  terms_len (cons t ts) = suc (terms_len ts)

  abbrev pub named_len : NamedArgs p → ℕ
  named_len end = 0
  named_len (arg k t ns) = suc (named_len ns)

  -- the `matches!` on two literals
  unfoldable pub same_type : Literal p → Literal p → Bool
  same_type (dec m s) (dec n t) = true
  same_type (str a) (str b) = true
  same_type (date a) (date b) = true
  same_type (dur a) (dur b) = true
  same_type (bool a) (bool b) = true
  same_type (uri a) (uri b) = true
  same_type _ _ = false

  abbrev pub term_kind_name : Term p → Text
  term_kind_name (var x) = codes "Var"
  term_kind_name (ent x) = codes "Ent"
  term_kind_name (lit x) = codes "Lit"
  term_kind_name (compound x) = codes "Compound"
  term_kind_name (list x) = codes "List"

  -- one round of a loop over arguments, on the comparison of the two at the place
  unfoldable pub tally : Words → ℕ → EquivResult p → Tally → Progress p
  unfolding join to_string
  tally w i r t =
      let message = λ (word : Text). at w.place i ++ word ++ join r.differences in
      elim (r.level) [
        | exact ↦ going t
        | wrong_values ↦
            going
              (record { wrong_count = t.wrong_count + 1; diffs = t.diffs ++ message w.value ∷ [] })
        | different ↦ stopped (differing (message w.type))
        | metadata_drift ↦ going (record t { diffs = t.diffs ++ message (codes " drift: ") ∷ [] })
      ]

module _ {p : Platform} (f : Floats p) where
  -- what follows the loops: 0.1 is taken from 0.3 for each wrong value
  unfoldable pub conclude : Tally → EquivResult p
  conclude t =
      if ltb 0 t.wrong_count
      then wrong
          (p.max (p.sub (p.float 3 1) (p.mul (p.float 1 1) (f.of_usize t.wrong_count)))
            (p.float 0 1))
          t.diffs
      else elim (t.diffs) [ [] ↦ exactly | d ∷ ds ↦ drifted (d ∷ ds) ]

  -- `lit_eq`, and the comparison of two literals
  unfoldable pub compare_literals : Literal p → Literal p → EquivResult p
  unfolding literal_eq same_type to_canonical_string
  compare_literals a b =
      if literal_eq a b
      then exactly
      else if same_type a b
      then wrong (p.float 3 1)
          (versus (codes "literal value") (to_canonical_string a) (to_canonical_string b) ∷ [])
      else differing (versus (codes "literal type") (to_canonical_string a) (to_canonical_string b))

abbrev pub no_tally : Tally
no_tally = record { wrong_count = 0; diffs = [] }

-- the end of a loop and what follows it
abbrev pub and_then : {p : Platform} → Progress p → (Tally → EquivResult p) → EquivResult p
and_then (stopped r) k = r
and_then (going t) k = k t

abbrev pub then_go : {p : Platform} → Progress p → (Tally → Progress p) → Progress p
then_go (stopped r) k = stopped r
then_go (going t) k = k t

-- the test on the lengths, with the loop behind it and what follows that
abbrev pub zipped :
    {p : Platform} → Text → ℕ → ℕ → Progress p → (Tally → EquivResult p) → EquivResult p
zipped word m n o k =
    if eqb m n then and_then o k else differing (versus word (to_string m) (to_string n))

-- the early returns on different heads, and what follows them
unfoldable pub by_heads :
    {p : Platform}
    → SemEquiv p
    → PredicateHead
    → PredicateHead
    → HeadMatch
    → EquivResult p
    → EquivResult p
by_heads s h g same r = r
by_heads s h g (same_kind a b) r =
    differing
      (versus (codes "head kind match but different morpheme") (debug_kind a) (debug_kind b))
by_heads s h g different_heads r =
    differing (versus (codes "predicate head kind mismatch") (s.debug_head h) (s.debug_head g))

unfoldable mutual
  unfolding tally conclude compare_literals

  -- `compare_terms`
  pub compare_terms : {p : Platform} → SemEquiv p → Term p → Term p → EquivResult p
  compare_terms {p} s (var a) (var b) =
      if text_eq a b then exactly else wrong (p.float 2 1) (versus (codes "var name") a b ∷ [])
  compare_terms {p} s (ent a) (ent b) =
      if text_eq a b then exactly else wrong (p.float 3 1) (versus (codes "entity") a b ∷ [])
  compare_terms s (lit a) (lit b) = compare_literals s.floats a b
  compare_terms s (compound a) (compound b) = compare_predicates s a b
  compare_terms s (list ts) (list us) =
      zipped (codes "list length") (terms_len ts) (terms_len us)
        (compare_each s items 0 ts us no_tally) (conclude s.floats)
  compare_terms s a b =
      differing (versus (codes "term type mismatch") (term_kind_name a) (term_kind_name b))

  -- a loop over two sequences of terms, zipped
  pub compare_each :
      {p : Platform} → SemEquiv p → Words → ℕ → Terms p → Terms p → Tally → Progress p
  compare_each s w i (cons a ts) (cons b us) t =
      then_go (tally w i (compare_terms s a b) t) (λ t'. compare_each s w (i + 1) ts us t')
  compare_each s w i _ _ t = going t

  -- the loop over two sequences of named arguments, zipped
  pub compare_named :
      {p : Platform} → SemEquiv p → ℕ → NamedArgs p → NamedArgs p → Tally → Progress p
  compare_named s i (arg k a ns) (arg j b ms) t =
      if text_eq k j
      then then_go (tally named i (compare_terms s a b) t) (λ t'. compare_named s (i + 1) ns ms t')
      else stopped (differing (versus (at (codes "named") i ++ codes " key mismatch") k j))
  compare_named s i _ _ t = going t

  -- `compare_predicates`
  pub compare_predicates : {p : Platform} → SemEquiv p → Predicate p → Predicate p → EquivResult p
  compare_predicates s (predicate h ts ns) (predicate g us ms) =
      by_heads s h g (compare_heads s.registry h g) (
        zipped (codes "arg count mismatch") (terms_len ts) (terms_len us)
          (compare_each s args 0 ts us no_tally)
          (λ t.
            zipped (codes "named arg count mismatch") (named_len ns) (named_len ms)
              (compare_named s 0 ns ms t) (conclude s.floats)))
