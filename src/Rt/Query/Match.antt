-- ===== src/Rt/Query/Match.antt =====
-- `match_pattern` and `match_term` of crates/factum-rt/src/query.rs. The bindings that the code
-- changes in place are passed on, and `none` is a failed match, after which the code drops them.
use factum.Prelude.{
  ℕ, suc, Bool, false, ◌&&◌, Option, none, some, List, [], ◌∷◌, ◌++◌, Text, eqb, if◌then◌else◌,
  text_eq,
}
use factum.Core.Platform.{Platform}
use factum.Core.Types.{
  PredicateHead, Term, var, ent, lit, compound, list, Terms, nil, cons, NamedArgs, end, arg,
  Predicate, predicate, head_of, args_of, named_of,
}
use factum.Core.Types.Equality.{literal_eq, term_eq}

-- `Vec<(SmolStr, Term)>`
abbrev pub Bindings : Platform → Type 0
Bindings p = List (Text × Term p)

-- both heads are names, and the same one
unfoldable pub heads_match : PredicateHead → PredicateHead → Bool
heads_match (PredicateHead.name a) (PredicateHead.name b) = text_eq a b
heads_match _ _ = false

module _ {p : Platform} where
  unfoldable pub find_binding : Text → Bindings p → Option (Term p)
  find_binding v [] = none
  find_binding v ((w, t) ∷ b) = let rest = find_binding v b in if text_eq w v then some t else rest

  unfoldable pub find_named : Text → NamedArgs p → Option (Term p)
  find_named k end = none
  find_named k (arg j t ns) = let rest = find_named k ns in if text_eq j k then some t else rest

  abbrev pub terms_length : Terms p → ℕ
  terms_length nil = 0
  terms_length (cons t ts) = suc (terms_length ts)

  -- a variable: it is bound, or its term is the one that it is bound to
  unfoldable pub match_var : Text → Term p → Bindings p → Option (Bindings p)
  unfolding find_binding term_eq
  match_var v c b = elim (find_binding v b) [
    | some t ↦ if term_eq t c then some b else none
    | none ↦ some (b ++ (v, c) ∷ [])
  ]

  abbrev pub keep_if : Bool → Bindings p → Option (Bindings p)
  keep_if ok b = if ok then some b else none

  -- the bindings of the compound are dropped
  abbrev pub keep_if_matched : Option (Bindings p) → Bindings p → Option (Bindings p)
  keep_if_matched none b = none
  keep_if_matched (some inner) b = some b

unfoldable mutual
  pub match_term : {p : Platform} → Term p → Term p → Bindings p → Option (Bindings p)
  match_term (var v) c b = match_var v c b
  match_term (ent e) c b = elim c [ ent f ↦ keep_if (text_eq f e) b | _ ↦ none ]
  match_term (lit l) c b = elim c [ lit m ↦ keep_if (literal_eq m l) b | _ ↦ none ]
  match_term (compound q) c b = elim c [
    | compound r ↦ keep_if_matched (match_pattern q r) b
    | _ ↦ none
  ]
  match_term (list ts) c b = elim c [
    | list us ↦ if eqb (terms_length ts) (terms_length us) then match_terms ts us b else none
    | _ ↦ none
  ]

  -- `zip`, which ends with the shorter of the two
  pub match_terms : {p : Platform} → Terms p → Terms p → Bindings p → Option (Bindings p)
  match_terms nil us b = some b
  match_terms (cons t ts) nil b = some b
  match_terms (cons t ts) (cons u us) b = elim (match_term t u b) [
    | none ↦ none
    | some b' ↦ match_terms ts us b'
  ]

  pub match_named : {p : Platform} → NamedArgs p → NamedArgs p → Bindings p → Option (Bindings p)
  match_named end cs b = some b
  match_named (arg k t ns) cs b = elim (find_named k cs) [
    | none ↦ none
    | some c ↦ elim (match_term t c b) [ none ↦ none | some b' ↦ match_named ns cs b' ]
  ]

  pub match_pattern : {p : Platform} → Predicate p → Predicate p → Option (Bindings p)
  match_pattern (predicate h ts ns) c =
      if heads_match h (head_of c) && eqb (terms_length ts) (terms_length (args_of c))
      then elim (match_terms ts (args_of c) []) [
        | none ↦ none
        | some b ↦ match_named ns (named_of c) b
      ]
      else none
