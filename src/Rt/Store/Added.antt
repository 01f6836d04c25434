-- ===== src/Rt/Store/Added.antt =====
-- The index entries of one node: what `build_insert_ops` adds to each family, and that it adds
-- nothing but entries.
use factum.Prelude.{◌≡◌, refl, ◌↔◌, ◌⊎◌, inl, inr, List, [], ◌∷◌, ◌++◌, Text, All, All-append}
use factum.Core.Platform.{Platform}
use factum.Core.Types.{
  NodeId, Node, Term, var, ent, lit, compound, list, Terms, nil, cons, NamedArgs, end, arg,
  Predicate, predicate, head_of, args_of, named_of,
}
use factum.Core.Morphemes.{MorphemeRegistry}
use factum.Rt.Storage.{
  Cf, by_entity, by_pred, by_src, by_perm, WriteOp, put_index, encode_index_key, get_index_map,
  to_be_bytes,
}
use factum.Rt.Storage.Writes.{IsEntry, Adds, Adds-append}
use factum.Rt.Store.Entries.{
  term_ops, terms_ops, predicate_ops, named_ops, index_ops, head_key, src_key,
}
use factum.Rt.Store.Index.{
  Selects, Mentions, MentionsAny, MentionsPredicate, MentionsNamed, NodeMentions,
}

module _ {P Q R S : Type 0} where
  -- two parts that add `P` and `Q` at the same family and identifier
  both_parts :
      {X Y Z : Type 0} → X ↔ (Y ⊎ Z) → Y ↔ (R × P × S) → Z ↔ (R × Q × S) → X ↔ (R × (P ⊎ Q) × S)
  both_parts s a b = (
    λ x. elim (s.0 x) [
      | inl y ↦ ((a.0 y).0, inl (a.0 y).1, (a.0 y).2)
      | inr z ↦ ((b.0 z).0, inr (b.0 z).1, (b.0 z).2)
    ],
    λ t. s.1 (elim t.1 [ inl l ↦ inl (a.1 (t.0, l, t.2)) | inr r ↦ inr (b.1 (t.0, r, t.2)) ]),
  )

mutual
  unfolding term_ops terms_ops predicate_ops

  Adds-term :
      {p : Platform} (t : Term p) (id : NodeId) (cf : Cf) (key : Text) (x : NodeId)
      → Adds (term_ops t id) cf key x ↔ ((by_entity ≡ cf) × Mentions (Selects key id) t × (x ≡ id))
  Adds-term (var v) id cf key x = (λ h. absurd h, λ h. absurd h.1)
  Adds-term (ent e) id cf key x = (λ h. elim h [ inl l ↦ l | inr r ↦ absurd r ], λ h. inl h)
  Adds-term (lit l) id cf key x = (λ h. absurd h, λ h. absurd h.1)
  Adds-term (compound q) id cf key x = Adds-predicate q id cf key x
  Adds-term (list ts) id cf key x = Adds-terms ts id cf key x

  Adds-terms :
      {p : Platform} (ts : Terms p) (id : NodeId) (cf : Cf) (key : Text) (x : NodeId)
      → Adds (terms_ops ts id) cf key x
        ↔ ((by_entity ≡ cf) × MentionsAny (Selects key id) ts × (x ≡ id))
  Adds-terms nil id cf key x = (λ h. absurd h, λ h. absurd h.1)
  Adds-terms (cons t ts) id cf key x =
      both_parts (Adds-append (term_ops t id) (terms_ops ts id) cf key x) (Adds-term t id cf key x)
        (Adds-terms ts id cf key x)

  Adds-predicate :
      {p : Platform} (q : Predicate p) (id : NodeId) (cf : Cf) (key : Text) (x : NodeId)
      → Adds (predicate_ops q id) cf key x
        ↔ ((by_entity ≡ cf) × MentionsPredicate (Selects key id) q × (x ≡ id))
  Adds-predicate (predicate h ts ns) id cf key x = Adds-terms ts id cf key x

mutual
  unfolding term_ops terms_ops predicate_ops get_index_map

  IsEntry-term : {p : Platform} (t : Term p) (id : NodeId) → All IsEntry (term_ops t id)
  IsEntry-term (var v) id = tt
  IsEntry-term (ent e) id = (refl, tt)
  IsEntry-term (lit l) id = tt
  IsEntry-term (compound q) id = IsEntry-predicate q id
  IsEntry-term (list ts) id = IsEntry-terms ts id

  IsEntry-terms : {p : Platform} (ts : Terms p) (id : NodeId) → All IsEntry (terms_ops ts id)
  IsEntry-terms nil id = tt
  IsEntry-terms (cons t ts) id =
      All-append IsEntry (term_ops t id) (terms_ops ts id) (IsEntry-term t id) (IsEntry-terms ts id)

  IsEntry-predicate :
      {p : Platform} (q : Predicate p) (id : NodeId) → All IsEntry (predicate_ops q id)
  IsEntry-predicate (predicate h ts ns) id = IsEntry-terms ts id

module _ {p : Platform} where
  Adds-named :
      (ns : NamedArgs p) (id : NodeId) (cf : Cf) (key : Text) (x : NodeId)
      → Adds (named_ops ns id) cf key x
        ↔ ((by_entity ≡ cf) × MentionsNamed (Selects key id) ns × (x ≡ id))
  unfolding named_ops
  Adds-named end id cf key x = (λ h. absurd h, λ h. absurd h.1)
  Adds-named (arg k t ns) id cf key x =
      both_parts (Adds-append (term_ops t id) (named_ops ns id) cf key x) (Adds-term t id cf key x)
        (Adds-named ns id cf key x)

  IsEntry-named : (ns : NamedArgs p) (id : NodeId) → All IsEntry (named_ops ns id)
  unfolding named_ops
  IsEntry-named end id = tt
  IsEntry-named (arg k t ns) id =
      All-append IsEntry (term_ops t id) (named_ops ns id) (IsEntry-term t id) (IsEntry-named ns id)

  -- the entries other than those of entities
  abbrev scalar_ops : MorphemeRegistry → Node p → List (WriteOp p)
  scalar_ops r n =
      put_index by_pred (encode_index_key (head_key r (head_of n.predicate)) n.id) n.id
      ∷ put_index by_src (encode_index_key (src_key n.provenance) n.id) n.id
      ∷ put_index by_perm (encode_index_key (to_be_bytes n.permissions) n.id) n.id
      ∷ []

  pub IsEntry-index_ops : (r : MorphemeRegistry) (n : Node p) → All IsEntry (index_ops r n)
  unfolding index_ops
  IsEntry-index_ops r n =
      let ts = terms_ops (args_of n.predicate) n.id in
      let ns = named_ops (named_of n.predicate) n.id in
      All-append IsEntry ts (ns ++ scalar_ops r n) (IsEntry-terms (args_of n.predicate) n.id) (
        All-append IsEntry ns (scalar_ops r n) (IsEntry-named (named_of n.predicate) n.id)
          (unfold get_index_map in (refl, (refl, (refl, tt)))))

  -- the entity entries and the others of a node
  Adds-split :
      (r : MorphemeRegistry) (n : Node p) (cf : Cf) (key : Text) (x : NodeId)
      → Adds (index_ops r n) cf key x ↔ (
          ((by_entity ≡ cf) × NodeMentions (Selects key n.id) n × (x ≡ n.id))
          ⊎ Adds (scalar_ops r n) cf key x)
  unfolding index_ops
  Adds-split r n cf key x =
      let ts = terms_ops (args_of n.predicate) n.id in
      let ns = named_ops (named_of n.predicate) n.id in
      let first = Adds-append ts (ns ++ scalar_ops r n) cf key x in
      let second = Adds-append ns (scalar_ops r n) cf key x in
      let of_args = Adds-terms (args_of n.predicate) n.id cf key x in
      let of_named = Adds-named (named_of n.predicate) n.id cf key x in
      (
        λ h. elim (first.0 h) [
          | inl a ↦ (let b = of_args.0 a in inl (b.0, inl b.1, b.2))
          | inr rest ↦ elim (second.0 rest) [
            | inl a ↦ (let b = of_named.0 a in inl (b.0, inr b.1, b.2))
            | inr s ↦ inr s
          ]
        ],
        λ h. elim h [
          | inl (c, inl m, e) ↦ first.1 (inl (of_args.1 (c, m, e)))
          | inl (c, inr m, e) ↦ first.1 (inr (second.1 (inl (of_named.1 (c, m, e)))))
          | inr s ↦ first.1 (inr (second.1 (inr s)))
        ],
      )

  -- A node adds itself to what a scan for an entity finds if and only if it mentions that entity.
  pub Adds-entity :
      (r : MorphemeRegistry) (n : Node p) (key : Text) (x : NodeId)
      → Adds (index_ops r n) by_entity key x ↔ (NodeMentions (Selects key n.id) n × (x ≡ n.id))
  Adds-entity r n key x =
      let s = Adds-split r n by_entity key x in
      (
        λ h. elim (s.0 h) [
          | inl m ↦ (m.1, m.2)
          | inr (inl a) ↦ absurd (cc (a.0))
          | inr (inr (inl a)) ↦ absurd (cc (a.0))
          | inr (inr (inr (inl a))) ↦ absurd (cc (a.0))
          | inr (inr (inr (inr a))) ↦ absurd a
        ],
        λ h. s.1 (inl (refl, h.0, h.1)),
      )

  pub Adds-pred :
      (r : MorphemeRegistry) (n : Node p) (key : Text) (x : NodeId)
      → Adds (index_ops r n) by_pred key x
        ↔ (Selects key n.id (head_key r (head_of n.predicate)) × (x ≡ n.id))
  Adds-pred r n key x =
      let s = Adds-split r n by_pred key x in
      (
        λ h. elim (s.0 h) [
          | inl m ↦ absurd (cc (m.0))
          | inr (inl a) ↦ (a.1, a.2)
          | inr (inr (inl a)) ↦ absurd (cc (a.0))
          | inr (inr (inr (inl a))) ↦ absurd (cc (a.0))
          | inr (inr (inr (inr a))) ↦ absurd a
        ],
        λ h. s.1 (inr (inl (refl, h.0, h.1))),
      )

  pub Adds-src :
      (r : MorphemeRegistry) (n : Node p) (key : Text) (x : NodeId)
      → Adds (index_ops r n) by_src key x ↔ (Selects key n.id (src_key n.provenance) × (x ≡ n.id))
  Adds-src r n key x =
      let s = Adds-split r n by_src key x in
      (
        λ h. elim (s.0 h) [
          | inl m ↦ absurd (cc (m.0))
          | inr (inl a) ↦ absurd (cc (a.0))
          | inr (inr (inl a)) ↦ (a.1, a.2)
          | inr (inr (inr (inl a))) ↦ absurd (cc (a.0))
          | inr (inr (inr (inr a))) ↦ absurd a
        ],
        λ h. s.1 (inr (inr (inl (refl, h.0, h.1)))),
      )

  pub Adds-perm :
      (r : MorphemeRegistry) (n : Node p) (key : Text) (x : NodeId)
      → Adds (index_ops r n) by_perm key x
        ↔ (Selects key n.id (to_be_bytes n.permissions) × (x ≡ n.id))
  Adds-perm r n key x =
      let s = Adds-split r n by_perm key x in
      (
        λ h. elim (s.0 h) [
          | inl m ↦ absurd (cc (m.0))
          | inr (inl a) ↦ absurd (cc (a.0))
          | inr (inr (inl a)) ↦ absurd (cc (a.0))
          | inr (inr (inr (inl a))) ↦ (a.1, a.2)
          | inr (inr (inr (inr a))) ↦ absurd a
        ],
        λ h. s.1 (inr (inr (inr (inl (refl, h.0, h.1))))),
      )
