-- ===== src/Core/Types/Equality.antt =====
-- The derived `PartialEq` of literals, terms and predicates, and that it decides equality.
use factum.Prelude.{
  Bool, true, false, ◌&&◌, ◌≡◌, ◌↔◌, arith, text_eq, text_eq_iff, eqb, eqb_ℤ, eqb_ℤ_iff,
}
use factum.Core.Platform.{Platform}
use factum.Core.Types.{
  Literal, dec, str, date, dur, bool, uri, PredicateHead, id, name, Term, var, ent, lit, compound,
  list, Terms, nil, cons, NamedArgs, end, arg, Predicate, predicate,
}

abbrev bool_eq : Bool → Bool → Bool
bool_eq true b = b
bool_eq false true = false
bool_eq false false = true

module _ {p : Platform} where
  unfoldable pub literal_eq : Literal p → Literal p → Bool
  literal_eq (dec m s) (dec n t) = eqb_ℤ m n && eqb s t
  literal_eq (str a) (str b) = text_eq a b
  literal_eq (date a) (date b) = p.date_eq a b
  literal_eq (dur a) (dur b) = eqb a b
  literal_eq (bool a) (bool b) = bool_eq a b
  literal_eq (uri a) (uri b) = text_eq a b
  literal_eq _ _ = false

  pub literal_eq_iff : (a b : Literal p) → (literal_eq a b ≡ true) ↔ (a ≡ b)
  unfolding literal_eq
  literal_eq_iff (dec m s) (dec n t) = ground (arith, eqb_ℤ_iff m n)
  literal_eq_iff (str a) (str b) = ground (arith, text_eq_iff a b)
  literal_eq_iff (date a) (date b) = ground (arith, p.date_eq_iff a b)
  literal_eq_iff (bool a) (bool b) = ground arith
  literal_eq_iff (uri a) (uri b) = ground (arith, text_eq_iff a b)
  literal_eq_iff _ _ = ground arith

unfoldable pub head_eq : PredicateHead → PredicateHead → Bool
head_eq (id a) (id b) = eqb a b
head_eq (name a) (name b) = text_eq a b
head_eq _ _ = false

pub head_eq_iff : (a b : PredicateHead) → (head_eq a b ≡ true) ↔ (a ≡ b)
unfolding head_eq
head_eq_iff (id a) (id b) = ground arith
head_eq_iff (name a) (name b) = ground (arith, text_eq_iff a b)
head_eq_iff _ _ = ground arith

unfoldable mutual
  pub term_eq : {p : Platform} → Term p → Term p → Bool
  term_eq (var a) (var b) = text_eq a b
  term_eq (ent a) (ent b) = text_eq a b
  term_eq (lit a) (lit b) = literal_eq a b
  term_eq (compound a) (compound b) = predicate_eq a b
  term_eq (list a) (list b) = terms_eq a b
  term_eq _ _ = false

  pub terms_eq : {p : Platform} → Terms p → Terms p → Bool
  terms_eq nil nil = true
  terms_eq (cons a ts) (cons b us) = term_eq a b && terms_eq ts us
  terms_eq _ _ = false

  pub named_eq : {p : Platform} → NamedArgs p → NamedArgs p → Bool
  named_eq end end = true
  named_eq (arg k a ts) (arg j b us) = text_eq k j && term_eq a b && named_eq ts us
  named_eq _ _ = false

  pub predicate_eq : {p : Platform} → Predicate p → Predicate p → Bool
  predicate_eq (predicate h ts ns) (predicate g us ms) =
      head_eq h g && terms_eq ts us && named_eq ns ms

mutual
  unfolding term_eq terms_eq named_eq predicate_eq

  term_eq_sound : {p : Platform} (a b : Term p) → (term_eq a b ≡ true) ↔ (a ≡ b)
  term_eq_sound (var a) (var b) = ground (arith, text_eq_iff a b)
  term_eq_sound (ent a) (ent b) = ground (arith, text_eq_iff a b)
  term_eq_sound (lit a) (lit b) = ground (arith, literal_eq_iff a b)
  term_eq_sound (compound a) (compound b) = ground (arith, predicate_eq_sound a b)
  term_eq_sound (list a) (list b) = ground (arith, terms_eq_sound a b)
  term_eq_sound _ _ = ground arith

  terms_eq_sound : {p : Platform} (a b : Terms p) → (terms_eq a b ≡ true) ↔ (a ≡ b)
  terms_eq_sound (cons a ts) (cons b us) = ground (arith, term_eq_sound a b, terms_eq_sound ts us)
  terms_eq_sound _ _ = ground arith

  named_eq_sound : {p : Platform} (a b : NamedArgs p) → (named_eq a b ≡ true) ↔ (a ≡ b)
  named_eq_sound (arg k a ts) (arg j b us) =
      ground (arith, text_eq_iff k j, term_eq_sound a b, named_eq_sound ts us)
  named_eq_sound _ _ = ground arith

  predicate_eq_sound : {p : Platform} (a b : Predicate p) → (predicate_eq a b ≡ true) ↔ (a ≡ b)
  predicate_eq_sound (predicate h ts ns) (predicate g us ms) =
      ground (arith, head_eq_iff h g, terms_eq_sound ts us, named_eq_sound ns ms)

pub predicate_eq_iff : {p : Platform} (a b : Predicate p) → (predicate_eq a b ≡ true) ↔ (a ≡ b)
predicate_eq_iff a b = predicate_eq_sound a b
