-- ===== src/Core/Parser/Nodes.antt =====
-- The node form and its fields in crates/factum-core/src/parser.rs.
use factum.Prelude.{
  ℕ, zero, suc, ◌^◌, true, false, ◌||◌, List, [], ◌∷◌, Text, codes, text_eq, Option, none, some,
  if◌then◌else◌, length,
}
use factum.Core.Platform.{Platform}
use factum.Core.PermissionTag.{public, internal, confidential, restricted}
use factum.Core.Types.{
  Node, NodeId, Predicate, Span, ModelRef, Validity, forever, window, Provenance, verbatim, summary,
  extracted, derived, asserted, active, confidence_new, authority_new, default_confidence,
  default_authority, default_provenance,
}
use factum.Core.Lexer.{
  TokenKind, lparen, rparen, lbracket, rbracket, symbol, keyword, str, number, date,
}
use factum.Core.Parser.Base.{
  done, out_of_fuel, Parser, pure, run, ◌>>=◌, ◌>>◌, unknown_field, unknown_permission,
  unknown_provenance, expected_node_id, expected_note, expected_keyword, missing_pred,
  expected_number, bad_number, bad_confidence, bad_authority, expected_permission, expected_dep,
  bad_date, expected_validity, expected_datetime, expected_provenance, expected_source,
  expected_doc, missing_model, expected_text, peek, advance, error, same_kind, expect, is_symbol,
  expect_symbol, next, with_depth, lift, from_result,
}
use factum.Core.Parser.Terms.{parse_unsigned, closes, map_option, parse_predicate_form}

-- the text of a symbol or of a string
unfoldable pub text_of : TokenKind → Option Text
text_of (symbol s) = some s
text_of (str s) = some s
text_of _ = none

unfoldable pub symbol_of : TokenKind → Option Text
symbol_of (symbol s) = some s
symbol_of _ = none

unfoldable pub number_of : TokenKind → Option Text
number_of (number s) = some s
number_of _ = none

-- `parse_smol_str`, `parse_rule_id` and `parse_principal`
unfoldable pub parse_smol_str : Parser Text
unfolding next text_of lift
parse_smol_str = do k ← next; lift expected_text (text_of k)

-- `parse_doc_id`
unfoldable pub parse_doc_id : Parser Text
unfolding next text_of lift
parse_doc_id = do k ← next; lift expected_doc (text_of k)

-- `parse_u32`
unfoldable pub parse_u32 : Parser ℕ
unfolding next number_of parse_unsigned lift
parse_u32 = do
  k ← next
  s ← lift expected_number (number_of k)
  lift bad_number (parse_unsigned (2 ^ 32) s)

-- `parse_span`
unfoldable pub parse_span : Parser Span
unfolding parse_u32 same_kind peek next expect
parse_span ts =
    if same_kind (peek ts) lbracket
    then run ts (do
      next
      a ← parse_u32
      b ← parse_u32
      expect rbracket
      pure (record { start = a; end = b }))
    else run ts (do a ← parse_u32; b ← parse_u32; pure (record { start = a; end = b }))

-- `parse_model_ref`
unfoldable pub parse_model_ref : Parser ModelRef
unfolding parse_smol_str expect_symbol same_kind peek next expect error
parse_model_ref ts =
    if same_kind (peek ts) lparen
    then run ts (do
      next
      expect_symbol (codes "model")
      n ← parse_smol_str
      v ← parse_smol_str
      expect rparen
      pure (record { name = n; version = v }))
    else if same_kind (peek ts) (symbol []) || same_kind (peek ts) (str [])
    then run ts (do n ← parse_smol_str; v ← parse_smol_str; pure (record { name = n; version = v }))
    else error missing_model ts

-- the match of `parse_provenance` on the kind
unfoldable pub parse_source : Text → Parser Provenance
unfolding parse_doc_id parse_span parse_model_ref parse_smol_str symbol_of next lift error
parse_source kind ts =
    if text_eq kind (codes "verbatim")
    then run ts (do d ← parse_doc_id; sp ← parse_span; pure (verbatim d sp))
    else if text_eq kind (codes "summary")
    then run ts (do d ← parse_doc_id; sp ← parse_span; pure (summary d sp))
    else if text_eq kind (codes "extracted")
    then run ts (do d ← parse_doc_id; sp ← parse_span; m ← parse_model_ref; pure (extracted d sp m))
    else if text_eq kind (codes "derived")
    then run ts (do
      k ← next
      n ← lift expected_source (symbol_of k)
      r ← parse_smol_str
      pure (derived n r))
    else if text_eq kind (codes "asserted")
    then run ts (do by ← parse_smol_str; pure (asserted by))
    else error (unknown_provenance kind) ts

-- `parse_provenance`
unfoldable pub parse_provenance : Parser Provenance
unfolding parse_source symbol_of expect next lift
parse_provenance = do
  expect lparen
  k ← next
  kind ← lift expected_provenance (symbol_of k)
  r ← parse_source kind
  expect rparen
  pure r

-- a known tag
unfoldable pub permission_named : Text → Parser ℕ
unfolding error
permission_named s ts =
    if text_eq s (codes "public")
    then done 1 ts
    else if text_eq s (codes "internal")
    then done internal ts
    else if text_eq s (codes "confidential")
    then done confidential ts
    else if text_eq s (codes "restricted")
    then done restricted ts
    else error (unknown_permission s) ts

-- `parse_permission_tag`
unfoldable pub parse_permission_tag : Parser ℕ
unfolding symbol_of permission_named next lift
parse_permission_tag = do k ← next; s ← lift expected_permission (symbol_of k); permission_named s

-- the loop of `parse_id_list`, with a round for each token
unfoldable pub parse_ids : ℕ → Parser (List NodeId)
unfolding symbol_of next lift
parse_ids zero ts = out_of_fuel
parse_ids (suc fuel) ts = elim (closes rbracket ts) [
  | true ↦ done [] ts
  | false ↦
      run ts do k ← next; n ← lift expected_dep (symbol_of k); ns ← parse_ids fuel; pure (n ∷ ns)
]

-- `parse_id_list`
unfoldable pub parse_id_list : Parser (List NodeId)
unfolding parse_ids symbol_of same_kind peek next lift expect
parse_id_list ts =
    if same_kind (peek ts) lbracket
    then run ts (do next; ns ← parse_ids (suc (length ts)); expect rbracket; pure ns)
    else run ts (do k ← next; n ← lift expected_node_id (symbol_of k); pure (n ∷ []))

module _ (p : Platform) where
  -- `parse_f32`
  unfoldable pub parse_f32 : Parser p.F32
  unfolding number_of next lift
  parse_f32 = do k ← next; s ← lift expected_number (number_of k); lift bad_number (p.parse_f32 s)

  -- the time of a token of `parse_datetime`
  unfoldable pub datetime_of : TokenKind → Parser p.Time
  unfolding lift error
  datetime_of (date s) = lift bad_date (map_option p.midnight (p.parse_date s))
  datetime_of (str s) = lift bad_date (p.parse_time s)
  datetime_of _ = error expected_datetime

  -- `parse_datetime`
  unfoldable pub parse_datetime : Parser p.Time
  unfolding datetime_of next
  parse_datetime = do k ← next; datetime_of k

  -- the end of a window, if it has one
  unfoldable pub parse_until : Parser (Option p.Time)
  unfolding parse_datetime same_kind peek
  parse_until ts =
      if same_kind (peek ts) rparen
      then done none ts
      else run ts (do t ← parse_datetime; pure (some t))

  -- `parse_validity`
  unfoldable pub parse_validity : Parser (Validity p)
  unfolding parse_until parse_datetime same_kind peek advance next expect expect_symbol is_symbol
      error
  parse_validity ts =
      if is_symbol (codes "forever") (peek ts)
      then done forever (advance ts)
      else if same_kind (peek ts) lparen
      then run ts (do
        next
        expect_symbol (codes "window")
        from ← parse_datetime
        until ← parse_until
        expect rparen
        pure (window from until))
      else error expected_validity ts

unfoldable pub keyword_of : TokenKind → Option Text
keyword_of (keyword k) = some k
keyword_of _ = none

-- the variables of `parse_node`
pub record Fields (p : Platform) : Type 0 where
  pub predicate : Option (Predicate p)
  pub validity : Validity p
  pub provenance : Provenance
  pub confidence : p.F32
  pub authority : p.F32
  pub permissions : ℕ
  pub deps : List NodeId
  pub note : Option Text

module _ {p : Platform} where
  abbrev pub no_fields : Fields p
  no_fields = record {
    predicate = none;
    validity = forever;
    provenance = default_provenance;
    confidence = default_confidence p;
    authority = default_authority p;
    permissions = public;
    deps = [];
    note = none;
  }

  -- the match of `parse_node` on a keyword
  unfoldable pub parse_field : ℕ → ℕ → Text → Fields p → Parser (Fields p)
  unfolding parse_predicate_form parse_validity parse_provenance parse_f32 confidence_new
      authority_new
  parse_field fuel depth k f ts =
      if text_eq k (codes "pred")
      then run ts (do q ← parse_predicate_form fuel depth; pure (record f { predicate = some q }))
      else if text_eq k (codes "valid")
      then run ts (do v ← parse_validity p; pure (record f { validity = v }))
      else if text_eq k (codes "src")
      then run ts (do v ← parse_provenance; pure (record f { provenance = v }))
      else if text_eq k (codes "conf")
      then run ts (do
        v ← parse_f32 p
        c ← lift bad_confidence (from_result (confidence_new p v))
        pure (record f { confidence = c }))
      else if text_eq k (codes "auth")
      then run ts (do
        v ← parse_f32 p
        c ← lift bad_authority (from_result (authority_new p v))
        pure (record f { authority = c }))
      else if text_eq k (codes "perm")
      then run ts (do v ← parse_permission_tag; pure (record f { permissions = v }))
      else if text_eq k (codes "deps")
      then run ts (do v ← parse_id_list; pure (record f { deps = v }))
      else if text_eq k (codes "note")
      then run ts
          (do t ← next; v ← lift expected_note (text_of t); pure (record f { note = some v }))
      else error (unknown_field k) ts

  -- the loop of `parse_node`
  unfoldable pub parse_fields : ℕ → ℕ → Fields p → Parser (Fields p)
  unfolding parse_field keyword_of peek advance error
  parse_fields zero depth f ts = out_of_fuel
  parse_fields (suc fuel) depth f ts = elim (closes rparen ts) [
    | true ↦ done f ts
    | false ↦ elim (keyword_of (peek ts)) [
      | none ↦ error expected_keyword ts
      | some k ↦ run (advance ts) do g ← parse_field fuel depth k f; parse_fields fuel depth g
    ]
  ]

  -- the node of an identifier, a predicate and the variables
  unfoldable pub node_of : NodeId → Fields p → Predicate p → Node p
  node_of n f q = record {
    id = n;
    predicate = q;
    validity = f.validity;
    provenance = f.provenance;
    confidence = f.confidence;
    authority = f.authority;
    permissions = f.permissions;
    deps = f.deps;
    status = active;
    note = f.note;
  }

  -- the closure of `parse_node`
  unfoldable pub node_form : ℕ → ℕ → Parser (Node p)
  unfolding parse_fields node_of symbol_of expect expect_symbol next lift
  node_form fuel depth = do
    expect lparen
    expect_symbol (codes "node")
    k ← next
    n ← lift expected_node_id (symbol_of k)
    f ← parse_fields fuel depth no_fields
    expect rparen
    q ← lift missing_pred f.predicate
    pure (node_of n f q)

  -- `parse_node`
  unfoldable pub parse_node : ℕ → ℕ → Parser (Node p)
  unfolding node_form with_depth
  parse_node fuel depth = with_depth depth (node_form fuel)
