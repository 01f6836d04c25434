-- ===== src/Rt/Store/Lookup/Names.antt =====
-- When a scan of an index selects a name, and how mentions of entities carry over.
use factum.Prelude.{
  Bool, true, false, not, ◌&&◌, ◌≡◌, refl, sym, subst, ◌↔◌, ◌⊎◌, inl, inr, [], ◌∷◌, ◌++◌, Text,
  starts_with, eqb, arith,
}
use factum.HashMap.{text_key}
use factum.Core.Platform.{Platform}
use factum.Core.Types.{
  NodeId, Node, Term, var, ent, lit, compound, list, Terms, nil, cons, NamedArgs, end, arg,
  Predicate, predicate, args_of, named_of,
}
use factum.Rt.Storage.{encode_index_key, encode_index_prefix}
use factum.Rt.Store.Index.{
  Selects, Mentions, MentionsAny, MentionsPredicate, MentionsNamed, NodeMentions,
}

-- The name has no zero byte.
abbrev pub nul_free : Text → Bool
nul_free [] = true
nul_free (x ∷ xs) = not (eqb x 0) && nul_free xs

-- a name with a zero byte
abbrev pub HasNul : Text → Type 0
HasNul e = nul_free e ≡ false

starts_with_refl : (a x : Text) → starts_with (a ++ (0 ∷ x)) (a ++ 0 ∷ []) ≡ true
unfolding starts_with
starts_with_refl [] x = ground arith
starts_with_refl (c ∷ a) x = ground (arith, starts_with_refl a x)

starts_with_nul :
    (a b x : Text)
    → nul_free a ≡ true
    → nul_free b ≡ true
    → starts_with (a ++ (0 ∷ x)) (b ++ 0 ∷ []) ≡ true
    → a ≡ b
unfolding starts_with
starts_with_nul [] [] x ha hb h = refl
starts_with_nul [] (d ∷ b) x ha hb h = ground arith
starts_with_nul (c ∷ a) [] x ha hb h = ground arith
starts_with_nul (c ∷ a) (d ∷ b) x ha hb h = ground (arith, starts_with_nul a b x)

pub Selects-iff :
    (key e : Text) (id : NodeId)
    → nul_free key ≡ true
    → nul_free e ≡ true
    → Selects key id e ↔ (e ≡ key)
unfolding encode_index_key encode_index_prefix
Selects-iff key e id hk he = (
  starts_with_nul e key id he hk,
  λ q.
      subst (λ x. starts_with (x ++ (0 ∷ id)) (key ++ 0 ∷ []) ≡ true) (sym q)
        (starts_with_refl key id),
)

-- An entity with `Q` has `R`, or is one of the excluded ones.
mutual
  Mentions-map :
      {p : Platform} (Q R B : Text → Type 0) (f : (e : Text) → Q e → R e ⊎ B e) (t : Term p)
      → Mentions Q t
      → Mentions R t ⊎ Mentions B t
  Mentions-map Q R B f (var v) h = absurd h
  Mentions-map Q R B f (ent e) h = f e h
  Mentions-map Q R B f (lit l) h = absurd h
  Mentions-map Q R B f (compound q) h = MentionsPredicate-map Q R B f q h
  Mentions-map Q R B f (list ts) h = MentionsAny-map Q R B f ts h

  MentionsAny-map :
      {p : Platform} (Q R B : Text → Type 0) (f : (e : Text) → Q e → R e ⊎ B e) (ts : Terms p)
      → MentionsAny Q ts
      → MentionsAny R ts ⊎ MentionsAny B ts
  MentionsAny-map Q R B f nil h = absurd h
  MentionsAny-map Q R B f (cons t ts) (inl h) = elim (Mentions-map Q R B f t h) [
    | inl a ↦ inl (inl a)
    | inr b ↦ inr (inl b)
  ]
  MentionsAny-map Q R B f (cons t ts) (inr h) = elim (MentionsAny-map Q R B f ts h) [
    | inl a ↦ inl (inr a)
    | inr b ↦ inr (inr b)
  ]

  MentionsPredicate-map :
      {p : Platform} (Q R B : Text → Type 0) (f : (e : Text) → Q e → R e ⊎ B e) (q : Predicate p)
      → MentionsPredicate Q q
      → MentionsPredicate R q ⊎ MentionsPredicate B q
  MentionsPredicate-map Q R B f (predicate hd ts ns) h = MentionsAny-map Q R B f ts h

module _ {p : Platform} where
  MentionsNamed-map :
      (Q R B : Text → Type 0) (f : (e : Text) → Q e → R e ⊎ B e) (ns : NamedArgs p)
      → MentionsNamed Q ns
      → MentionsNamed R ns ⊎ MentionsNamed B ns
  MentionsNamed-map Q R B f end h = absurd h
  MentionsNamed-map Q R B f (arg k t ns) (inl h) = elim (Mentions-map Q R B f t h) [
    | inl a ↦ inl (inl a)
    | inr b ↦ inr (inl b)
  ]
  MentionsNamed-map Q R B f (arg k t ns) (inr h) = elim (MentionsNamed-map Q R B f ns h) [
    | inl a ↦ inl (inr a)
    | inr b ↦ inr (inr b)
  ]

  pub NodeMentions-map :
      (Q R B : Text → Type 0) (f : (e : Text) → Q e → R e ⊎ B e) (n : Node p)
      → NodeMentions Q n
      → NodeMentions R n ⊎ NodeMentions B n
  NodeMentions-map Q R B f n (inl h) = elim (MentionsAny-map Q R B f (args_of n.predicate) h) [
    | inl a ↦ inl (inl a)
    | inr b ↦ inr (inl b)
  ]
  NodeMentions-map Q R B f n (inr h) = elim (MentionsNamed-map Q R B f (named_of n.predicate) h) [
    | inl a ↦ inl (inr a)
    | inr b ↦ inr (inr b)
  ]
