-- ===== src/Core/Parser/Sound.antt =====
-- The fields of a node in crates/factum-core/src/parser.rs: their parsers end, and what they
-- return.
use factum.Prelude.{
  ℕ, zero, suc, ◌+◌, ◌*◌, ◌≤◌, ◌<◌, Bool-cases, true, false, ◌≡◌, refl, ap, subst, ◌⊎◌, inl, inr,
  Option, Option-cases, none, some, List, [], ◌∷◌, Text, codes, text_eq, length, if_elim, arith,
}
use factum.Core.Platform.{Platform}
use factum.Core.PermissionTag.{public, internal, confidential, restricted}
use factum.Core.Types.{
  Node, NodeId, active, Predicate, confidence_new, authority_new, in_unit, default_confidence,
  default_authority,
}
use factum.Core.Lexer.{Token, TokenKind, lbracket, lparen, rparen, rbracket, eof}
use factum.Core.Parser.Base.{
  Outcome, peek, is_eof, advance, next, expect, lift, same_kind, from_result, max_parse_depth,
  bad_confidence, bad_authority, unknown_permission, expected_dep, expected_node_id,
  expected_permission, expected_note, unknown_field, expected_keyword,
}
use factum.Core.Parser.Terms.{closes, predicate_in_parens, parse_predicate_form, parse_body_inner}
use factum.Core.Parser.Nodes.{
  Fields, no_fields, parse_field, parse_fields, node_of, keyword_of, symbol_of, text_of, parse_ids,
  parse_id_list, permission_named, parse_permission_tag,
}
use factum.Core.Parser.Ensures.{
  Ensures, returns, Ensures-bind, Ensures-error, Ensures-lift, Ensures-weaken, Ensures-with_depth,
  advance_le, advance_lt, Leaves, expect-Ensures,
}
use factum.Core.Parser.Depth.{predicate_depth, parse_body_inner-Ensures}
use factum.Core.Parser.Shrinks.{parse_f32-Shrinks, parse_provenance-Shrinks, parse_validity-Shrinks}

-- one of the four levels
abbrev pub IsLevel : ℕ → Type 0
IsLevel tag = (tag ≡ public) ⊎ (tag ≡ internal) ⊎ (tag ≡ confidential) ⊎ (tag ≡ restricted)

abbrev pub Fits : {p : Platform} → ℕ → Option (Predicate p) → Type 0
Fits depth none = Unit
Fits depth (some q) = predicate_depth q + suc depth ≤ max_parse_depth

-- What holds of the variables of `parse_node`, in a form so many levels deep.
pub record IsSound {p : Platform} (depth : ℕ) (f : Fields p) : Type 0 where
  pub fits : Fits depth f.predicate
  pub confident : (f.confidence ≡ default_confidence p) ⊎ (in_unit p f.confidence ≡ true)
  pub authoritative : (f.authority ≡ default_authority p) ⊎ (in_unit p f.authority ≡ true)
  pub level : IsLevel f.permissions

abbrev pub FieldsAt : {p : Platform} → ℕ → List Token → Fields p → List Token → Type 0
FieldsAt depth ts f rest = (length rest ≤ length ts) × IsSound depth f

pub closes-false :
    (k : TokenKind) (ts : List Token) → closes k ts ≡ false → is_eof (peek ts) ≡ false
closes-false k ts h = ground arith

parse_ids-Ensures :
    (fuel : ℕ) (ts : List Token) → length ts < fuel → Ensures (Leaves ts) (parse_ids fuel ts)
unfolding parse_ids next
parse_ids-Ensures zero ts h = absurd (omega arith)
parse_ids-Ensures (suc fuel) ts h = elim (Bool-cases (closes rbracket ts)) [
  | inl e ↦ rw (e, parse_ids) (returns (omega arith))
  | inr e ↦
      rw (e, parse_ids)
        (Ensures-bind
          (Ensures-lift {P = λ n rest. rest ≡ advance ts} expected_dep (symbol_of (peek ts))
            (advance ts) (λ n _. refl))
          λ n rest q.
            Ensures-bind
              (parse_ids-Ensures fuel rest
                (omega (arith, ap length q, advance_lt ts (closes-false rbracket ts e))))
              λ ns rest' h'.
                returns {a = n ∷ ns} {ts = rest'} (omega (arith, ap length q, advance_le ts)))
]

parse_id_list-Ensures : (ts : List Token) → Ensures (Leaves ts) (parse_id_list ts)
unfolding parse_id_list next
parse_id_list-Ensures ts =
    if_elim (Ensures (Leaves ts)) (same_kind (peek ts) lbracket)
      (Ensures-bind
        (parse_ids-Ensures (suc (length ts)) (advance ts) (omega (arith, advance_le ts)))
        λ ns rest h.
          Ensures-bind (expect-Ensures rbracket rest)
            λ u rest' h'. returns {a = ns} {ts = rest'} (omega (arith, advance_le ts)))
      (Ensures-bind
        (Ensures-lift {P = λ n rest. rest ≡ advance ts} expected_node_id (symbol_of (peek ts))
          (advance ts) (λ n _. refl))
        λ n rest q. returns {a = n ∷ []} {ts = rest} (omega (arith, ap length q, advance_le ts)))

permission_named-Ensures :
    (s : Text) (ts : List Token)
    → Ensures (λ tag rest. (rest ≡ ts) × IsLevel tag) (permission_named s ts)
unfolding permission_named
permission_named-Ensures s ts =
    let E : Outcome ℕ → Type 0 = Ensures (λ tag rest. (rest ≡ ts) × IsLevel tag) in
    if_elim E (text_eq s (codes "public")) (returns (refl, inl refl)) (
      if_elim E (text_eq s (codes "internal")) (returns (refl, inr (inl refl))) (
        if_elim E (text_eq s (codes "confidential")) (returns (refl, inr (inr (inl refl)))) (
          if_elim E (text_eq s (codes "restricted")) (returns (refl, inr (inr (inr refl))))
            (Ensures-error (unknown_permission s) ts))))

parse_permission_tag-Ensures :
    (ts : List Token)
    → Ensures (λ tag rest. (length rest ≤ length ts) × IsLevel tag) (parse_permission_tag ts)
unfolding parse_permission_tag next
parse_permission_tag-Ensures ts =
    Ensures-bind
      (Ensures-lift {P = λ n rest. rest ≡ advance ts} expected_permission (symbol_of (peek ts))
        (advance ts) (λ n _. refl))
      λ s rest q.
        Ensures-weaken (permission_named-Ensures s rest)
          λ tag rest' h. (omega (arith, ap length q, ap length h.0, advance_le ts), h.1)

-- A range-checked number, or the same for an authority.
confidence_new-in_unit :
    (p : Platform) (v : p.F32) (ts : List Token)
    → Ensures
        (λ c rest. (rest ≡ ts) × (in_unit p c ≡ true))
        (lift bad_confidence (from_result (confidence_new p v)) ts)
unfolding confidence_new lift
confidence_new-in_unit p v ts = elim (Bool-cases (in_unit p v)) [
  | inl e ↦ rw (e, confidence_new) (returns (refl, e))
  | inr e ↦ rw (e, confidence_new) (Ensures-error bad_confidence ts)
]

authority_new-in_unit :
    (p : Platform) (v : p.F32) (ts : List Token)
    → Ensures
        (λ c rest. (rest ≡ ts) × (in_unit p c ≡ true))
        (lift bad_authority (from_result (authority_new p v)) ts)
unfolding authority_new lift
authority_new-in_unit p v ts = elim (Bool-cases (in_unit p v)) [
  | inl e ↦ rw (e, authority_new) (returns (refl, e))
  | inr e ↦ rw (e, authority_new) (Ensures-error bad_authority ts)
]

parse_predicate_form-Ensures :
    {p : Platform} (fuel depth : ℕ) (ts : List Token)
    → 2 * length ts + 1 ≤ fuel
    → Ensures
        (λ q rest. (length rest ≤ length ts) × Fits {p = p} depth (some q))
        (parse_predicate_form fuel depth ts)
unfolding parse_predicate_form
parse_predicate_form-Ensures fuel depth ts h =
    Ensures-with_depth depth (predicate_in_parens (parse_body_inner fuel)) ts λ low.
      Ensures-bind (expect-Ensures lparen ts) λ u rest h'.
        Ensures-bind (parse_body_inner-Ensures fuel (depth + 1) rest (omega arith) (omega arith))
          λ q rest' hq.
            Ensures-bind (expect-Ensures rparen rest')
              λ v rest'' hr. returns {a = q} {ts = rest''} (omega arith, omega arith)

parse_field-Ensures :
    {p : Platform} (fuel depth : ℕ) (k : Text) (f : Fields p) (ts : List Token)
    → 2 * length ts + 1 ≤ fuel
    → IsSound depth f
    → Ensures (FieldsAt depth ts) (parse_field fuel depth k f ts)
unfolding parse_field next
parse_field-Ensures {p = p} fuel depth k f ts h v =
    let E : Outcome (Fields p) → Type 0 = Ensures (FieldsAt depth ts) in
    if_elim E (text_eq k (codes "pred"))
      (Ensures-bind (parse_predicate_form-Ensures {p = p} fuel depth ts h) λ q rest hq. returns (
        hq.0,
        record {
          fits = hq.1;
          confident = v.confident;
          authoritative = v.authoritative;
          level = v.level;
        },
      ))
      (if_elim E (text_eq k (codes "valid"))
        (Ensures-bind ((parse_validity-Shrinks p).apply ts) λ x rest hx. returns (
          hx,
          record {
            fits = v.fits;
            confident = v.confident;
            authoritative = v.authoritative;
            level = v.level;
          },
        ))
        (if_elim E (text_eq k (codes "src"))
          (Ensures-bind (parse_provenance-Shrinks.apply ts) λ x rest hx. returns (
            hx,
            record {
              fits = v.fits;
              confident = v.confident;
              authoritative = v.authoritative;
              level = v.level;
            },
          ))
          (if_elim E (text_eq k (codes "conf"))
            (Ensures-bind ((parse_f32-Shrinks p).apply ts) λ x rest hx.
              Ensures-bind (confidence_new-in_unit p x rest) λ c rest' hc. returns (
                omega (arith, ap length hc.0),
                record {
                  fits = v.fits;
                  confident = inr hc.1;
                  authoritative = v.authoritative;
                  level = v.level;
                },
              ))
            (if_elim E (text_eq k (codes "auth"))
              (Ensures-bind ((parse_f32-Shrinks p).apply ts) λ x rest hx.
                Ensures-bind (authority_new-in_unit p x rest) λ c rest' hc. returns (
                  omega (arith, ap length hc.0),
                  record {
                    fits = v.fits;
                    confident = v.confident;
                    authoritative = inr hc.1;
                    level = v.level;
                  },
                ))
              (if_elim E (text_eq k (codes "perm"))
                (Ensures-bind (parse_permission_tag-Ensures ts) λ x rest hx. returns (
                  hx.0,
                  record {
                    fits = v.fits;
                    confident = v.confident;
                    authoritative = v.authoritative;
                    level = hx.1;
                  },
                ))
                (if_elim E (text_eq k (codes "deps"))
                  (Ensures-bind (parse_id_list-Ensures ts) λ x rest hx. returns (
                    hx,
                    record {
                      fits = v.fits;
                      confident = v.confident;
                      authoritative = v.authoritative;
                      level = v.level;
                    },
                  ))
                  (if_elim E (text_eq k (codes "note"))
                    (Ensures-bind
                      (Ensures-lift {P = λ n rest. rest ≡ advance ts} expected_note
                        (text_of (peek ts)) (advance ts) (λ n _. refl))
                      λ n rest q. returns (
                        omega (arith, ap length q, advance_le ts),
                        record {
                          fits = v.fits;
                          confident = v.confident;
                          authoritative = v.authoritative;
                          level = v.level;
                        },
                      ))
                    (Ensures-error (unknown_field k) ts))))))))

pub parse_fields-Ensures :
    {p : Platform} (fuel depth : ℕ) (f : Fields p) (ts : List Token)
    → 2 * length ts + 1 ≤ fuel
    → IsSound depth f
    → Ensures (FieldsAt depth ts) (parse_fields fuel depth f ts)
unfolding parse_fields
parse_fields-Ensures zero depth f ts h v = absurd (omega arith)
parse_fields-Ensures (suc fuel) depth f ts h v = elim (Bool-cases (closes rparen ts)) [
  | inl e ↦ rw (e, parse_fields) (returns (omega arith, v))
  | inr e ↦ elim (Option-cases (keyword_of (peek ts))) [
    | inl o ↦ rw (e, parse_fields, o) (Ensures-error expected_keyword ts)
    | inr (k, o) ↦
        rw (e, parse_fields, o)
          (let less = advance_lt ts (closes-false rparen ts e) in
            Ensures-bind (parse_field-Ensures fuel depth k f (advance ts) (omega arith) v)
              λ g rest hg.
                Ensures-weaken (parse_fields-Ensures fuel depth g rest (omega arith) hg.1)
                  λ g' rest' hg'. (omega arith, hg'.1))
  ]
]

-- What a node looks like that the parser returns.
pub record IsParsed {p : Platform} (n : Node p) : Type 0 where
  pub nests : predicate_depth n.predicate + 2 ≤ max_parse_depth
  pub confident : (n.confidence ≡ default_confidence p) ⊎ (in_unit p n.confidence ≡ true)
  pub authoritative : (n.authority ≡ default_authority p) ⊎ (in_unit p n.authority ≡ true)
  pub level : IsLevel n.permissions
  pub is_active : n.status ≡ active

pub no_fields-IsSound : (p : Platform) (depth : ℕ) → IsSound depth (no_fields {p = p})
no_fields-IsSound p depth = record {
  fits = tt;
  confident = inl refl;
  authoritative = inl refl;
  level = inl refl;
}

pub node_of-IsParsed :
    {p : Platform} (n : NodeId) (f : Fields p) (q : Predicate p)
    → IsSound 1 f
    → f.predicate ≡ some q
    → IsParsed (node_of n f q)
unfolding node_of
node_of-IsParsed {p = p} n f q v e =
    let fits : predicate_depth q + 2 ≤ max_parse_depth = subst (Fits {p = p} 1) e v.fits in
    record {
      nests = fits;
      confident = v.confident;
      authoritative = v.authoritative;
      level = v.level;
      is_active = refl;
    }

-- A form that opens with a parenthesis is left with fewer tokens.
pub lparen_not_eof : (k : TokenKind) → same_kind k lparen ≡ true → is_eof k ≡ false
unfolding same_kind
lparen_not_eof eof h = cc
lparen_not_eof _ h = refl

pub expect_lparen-Ensures :
    (ts : List Token) → Ensures (λ u rest. length rest < length ts) (expect lparen ts)
unfolding expect
expect_lparen-Ensures ts = elim (Bool-cases (same_kind (peek ts) lparen)) [
  | inl e ↦ rw (e, expect) (returns (advance_lt ts (lparen_not_eof (peek ts) e)))
  | inr e ↦ rw (e, expect) (Ensures-error _ ts)
]
