-- ===== src/Rt/Verifier.antt =====
-- crates/factum-rt/src/verifier.rs: verdicts, the registry of verifiers, and the two built-in ones.
-- A `dyn Verifier` is a record of its two methods. The texts of the reasons are kept short.
use factum.Prelude.{
  ℕ, ◌+◌, ◌-◌, Bool, true, false, not, ◌&&◌, Option, none, some, List, [], ◌∷◌, map, Text, length,
  filter, ltb, if◌then◌else◌, ℤ, pos_part, neg_part,
}
use factum.Prelude.Digits.{to_string}
use factum.Prelude.Strings.{trim, split_once2, split, ends_with}
use factum.Core.Platform.{Platform}
use factum.Core.Types.{
  Node, Terms, nil, cons, NamedArgs, end, arg, lit, dec, PredicateHead, head_of, args_of, named_of,
}
use factum.Core.Morphemes
use factum.Core.Morphemes.{MorphemeDef, MorphemeKind, MorphemeRegistry}

-- Why a verifier fails a node: the shapes of the reasons that the code formats.
pub data Reason : Type 0 where
  unknown_morpheme : Reason
  too_few_args : ℕ → ℕ → ℕ → Reason
  too_many_args : ℕ → ℕ → Reason
  entity_with_args : Reason
  scale_too_large : ℕ → Reason
  too_many_digits : ℕ → Reason
  custom : Text → Reason

pub data Verdict : Type 0 where
  pass : Verdict
  fail : Reason → Verdict
  inconclusive : Verdict

pub record Verifier (p : Platform) : Type 0 where
  pub can_verify : Node p → Bool
  pub verify : Node p → Verdict

abbrev pub VerifierRegistry : Platform → Type 0
VerifierRegistry p = List (Verifier p)

abbrev pub is_some : {A : Type 0} → Option A → Bool
is_some none = false
is_some (some a) = true

module _ {p : Platform} where
  -- the loop of `VerifierRegistry::verify`, with `any_ran`
  unfoldable pub verify_from : Bool → VerifierRegistry p → Node p → Verdict
  verify_from any_ran [] n = if any_ran then pass else inconclusive
  verify_from any_ran (v ∷ vs) n =
      let skipped = verify_from any_ran vs n in
      let ran = verify_from true vs n in
      if v.can_verify n then elim (v.verify n) [ fail why ↦ fail why | _ ↦ ran ] else skipped

  -- `VerifierRegistry::verify`
  unfoldable pub verify_all : VerifierRegistry p → Node p → Verdict
  unfolding verify_from
  verify_all vs n = verify_from false vs n

  abbrev pub length_terms : Terms p → ℕ
  length_terms nil = 0
  length_terms (cons t ts) = length_terms ts + 1

  abbrev pub length_named : NamedArgs p → ℕ
  length_named end = 0
  length_named (arg k t ts) = length_named ts + 1

abbrev is_nil : Text → Bool
is_nil [] = true
is_nil (c ∷ cs) = false

-- The parameters that a signature lists before its arrow, none where it has no arrow.
unfoldable pub params_of : Text → List Text
unfolding split_once2 split trim
params_of sig = elim (split_once2 b'-' b'>' sig) [
  | none ↦ []
  | some (params_part, rest) ↦ filter (λ s. not (is_nil s)) (map trim (split b',' params_part))
]

abbrev required_params : List Text → ℕ
required_params params = length (filter (λ s. not (ends_with b'?' s)) params)

-- the arity check, on the parameters and the number of arguments given
unfoldable pub arity_check : List Text → ℕ → Verdict
unfolding ends_with
arity_check [] provided = pass
arity_check (q ∷ qs) provided =
    let params = q ∷ qs in
    if ltb provided (required_params params)
    then fail
        (too_few_args (required_params params) (length params - required_params params) provided)
    else if ltb (length params) provided
    then fail (too_many_args (length params) provided)
    else pass

abbrev is_entity : MorphemeKind → Bool
is_entity Morphemes.entity = true
is_entity _ = false

-- `lookup` by the name, or `lookup_id`
unfoldable pub lookup_head : MorphemeRegistry → PredicateHead → Option MorphemeDef
unfolding Morphemes.lookup Morphemes.lookup_id
lookup_head r (PredicateHead.name n) = Morphemes.lookup r n
lookup_head r (PredicateHead.id i) = Morphemes.lookup_id r i

-- the digits of `mantissa.unsigned_abs()`
abbrev digit_count : ℤ → ℕ
digit_count m = length (to_string (pos_part m + neg_part m))

module _ {p : Platform} where
  abbrev no_terms : Terms p → Bool
  no_terms nil = true
  no_terms (cons t ts) = false

  -- the rest of `SchemaVerifier::verify`, for a known morpheme
  unfoldable pub check_schema : MorphemeDef → Node p → Verdict
  unfolding params_of arity_check
  check_schema d n =
      let provided = length_terms (args_of n.predicate) + length_named (named_of n.predicate) in
      elim (arity_check (params_of d.signature) provided) [
        | fail why ↦ fail why
        | _ ↦
            if is_entity d.kind && not (no_terms (args_of n.predicate))
            then fail entity_with_args
            else pass
      ]

  -- `SchemaVerifier`
  unfoldable pub schema_verifier : MorphemeRegistry → Verifier p
  unfolding lookup_head check_schema
  schema_verifier r = record {
    can_verify = λ n. is_some (lookup_head r (head_of n.predicate));
    verify = λ n. elim (lookup_head r (head_of n.predicate)) [
      | none ↦ fail unknown_morpheme
      | some d ↦ check_schema d n
    ];
  }

  abbrev has_decimal : Terms p → Bool
  has_decimal nil = false
  has_decimal (cons (lit (dec m s)) ts) = true
  has_decimal (cons t ts) = has_decimal ts

  -- the loop of `DecimalRangeVerifier::verify`
  unfoldable pub check_decimals : Terms p → Verdict
  unfolding to_string
  check_decimals nil = pass
  check_decimals (cons (lit (dec m s)) ts) =
      let rest = check_decimals ts in
      if ltb 38 s
      then fail (scale_too_large s)
      else if ltb 38 (digit_count m)
      then fail (too_many_digits (digit_count m))
      else rest
  check_decimals (cons t ts) = check_decimals ts

  -- `DecimalRangeVerifier`
  unfoldable pub decimal_range_verifier : Verifier p
  unfolding check_decimals
  decimal_range_verifier = record {
    can_verify = λ n. has_decimal (args_of n.predicate);
    verify = λ n. check_decimals (args_of n.predicate);
  }

  -- `VerifierRegistry::with_builtins`
  pub with_builtins : MorphemeRegistry → VerifierRegistry p
  unfolding schema_verifier decimal_range_verifier
  with_builtins r = schema_verifier r ∷ decimal_range_verifier ∷ []
