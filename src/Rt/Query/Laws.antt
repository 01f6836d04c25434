-- ===== src/Rt/Query/Laws.antt =====
-- What `query` of crates/factum-rt/src/query.rs returns, under every policy.
use factum.Prelude.{
  true, false, ◌≡◌, refl, sym, ap, subst, ◌∙◌, inl, inr, none, some, List, [], ◌∷◌, Option-cases,
  filter, Elem, Elem-filter, arith,
}
use factum.HashMap.{text_key}
use factum.Rt.Storage.{scan, by_entity, by_pred}
use factum.Rt.Store.Entries.{head_key}
use factum.Rt.Store.Read.{get, lookup_by_entity, lookup_by_pred}
use factum.Rt.Store.Index.{IsValid}
use factum.Rt.Store.Lookup.{Elem-resolve_nodes}
use factum.Core.Types.{EntityId, head_of}
use factum.Prelude.{Option}
use factum.Core.Platform.{Platform, f32_lt}
use factum.Core.Types.{Node, Predicate, is_active_valid_at}
use factum.Rt.Permission.{PermissionContext}
use factum.Rt.Store.{FactumStore}
use factum.Rt.Store.Read.{check_permission}
use factum.Rt.Query.{
  Query, QueryOptions, ResultSet, get_candidates, passes, match_all, query, to_result_set,
}
use factum.Rt.Query.Match.{match_pattern}
use factum.Rt.Query.Arbitration.{QueryResult, Answer, arbitrate}
use factum.Rt.Query.Answers.{arbitrate-Elem}

module _ {p : Platform} where
  Elem-match_all :
      (pattern : Predicate p) (ns : List (Node p)) (x : QueryResult p)
      → Elem x (match_all pattern ns)
      → Elem x.node ns × (match_pattern pattern x.node.predicate ≡ some x.bindings)
  unfolding match_all
  Elem-match_all pattern [] x h = absurd h
  Elem-match_all pattern (n ∷ ns) x h = elim (Option-cases (match_pattern pattern n.predicate)) [
    | inl q ↦
        (let r = Elem-match_all pattern ns x (subst (Elem x) (ground (arith, q)) h) in
          (inr r.0, r.1))
    | inr (b, q) ↦
        let opened : match_all pattern (n ∷ ns)
            ≡ record { node = n; bindings = b } ∷ match_all pattern ns =
          ground (arith, q) in
        elim (subst (Elem x) opened h) [
          | inl e ↦ (
            inl (ap (λ y. y.node) e),
            ap (λ y. match_pattern pattern y.node.predicate) e
                ∙ q
                ∙ ap (λ y. some y.bindings) (sym e),
          )
          | inr l ↦ (let r = Elem-match_all pattern ns x l in (inr r.0, r.1))
        ]
  ]

  passes_cases :
      (o : QueryOptions p) (n : Node p)
      → passes o n ≡ true
      → (check_permission n o.perm ≡ true)
        × (is_active_valid_at n o.now ≡ true)
        × (f32_lt p n.confidence o.min_conf ≡ false)
  unfolding passes
  passes_cases o n h = ground arith

  answer_of :
      (a : Answer p) (rs : ResultSet p)
      → to_result_set a ≡ some rs
      → a ≡ some (rs.results, rs.ambiguous)
  answer_of none rs e = cc
  answer_of (some (out, flag)) rs e =
      let same : record { results = out; ambiguous = flag } ≡ rs = cc in
      ap (λ (r : ResultSet p). some (r.results, r.ambiguous)) same

  pub query_sound :
      (s : FactumStore p) (q : Query p) (o : QueryOptions p) (rs : ResultSet p)
      → query s q o ≡ some rs
      → (x : QueryResult p) → Elem x rs.results
      → Elem x.node (get_candidates s q)
        × (check_permission x.node o.perm ≡ true)
        × (is_active_valid_at x.node o.now ≡ true)
        × (f32_lt p x.node.confidence o.min_conf ≡ false)
        × (match_pattern q.pattern x.node.predicate ≡ some x.bindings)
  unfolding query
  query_sound s q o rs e x h =
      let found = match_all q.pattern (filter (passes o) (get_candidates s q)) in
      let m = Elem-match_all q.pattern (filter (passes o) (get_candidates s q)) x (
        arbitrate-Elem found o.policy rs.results rs.ambiguous
          (answer_of (arbitrate found o.policy) rs e) x h) in
      let f = (Elem-filter (passes o) x.node (get_candidates s q)).0 m.0 in
      let c = passes_cases o x.node f.1 in (f.0, c.0, c.1, c.2, m.1)

  -- the candidates that the caller may read
  abbrev pub readable : PermissionContext → List (Node p) → List (Node p)
  readable perm ns = filter (λ n. check_permission n perm) ns

  filter-readable :
      (o : QueryOptions p) (ns : List (Node p))
      → filter (passes o) (readable o.perm ns) ≡ filter (passes o) ns
  unfolding passes
  filter-readable o [] = refl
  filter-readable o (n ∷ ns) = ground (arith, filter-readable o ns)

  -- A query does not depend on nodes that the caller may not read: two stores whose candidates for
  -- it are the same up to such nodes give the same answer, and the same ambiguity flag.
  pub query_noninterference :
      (s t : FactumStore p) (q : Query p) (o : QueryOptions p)
      → readable o.perm (get_candidates s q) ≡ readable o.perm (get_candidates t q)
      → query s q o ≡ query t q o
  unfolding query
  query_noninterference s t q o e =
      ap (λ ns. to_result_set (arbitrate (match_all q.pattern ns) o.policy))
        (sym (filter-readable o (get_candidates s q))
          ∙ ap (filter (passes o)) e
          ∙ filter-readable o (get_candidates t q))

  -- `get_candidates` for the given filter
  abbrev candidates_for : FactumStore p → Query p → Option EntityId → List (Node p)
  candidates_for s q f = elim f [
    | some e ↦ lookup_by_entity s e
    | none ↦ lookup_by_pred s (head_key s.registry (head_of q.pattern))
  ]

  -- the candidates are stored
  get_candidates-get :
      (s : FactumStore p) (q : Query p)
      → IsValid s
      → (n : Node p) → Elem n (get_candidates s q)
      → get s n.id ≡ some n
  unfolding get_candidates lookup_by_entity lookup_by_pred
  get_candidates-get s q h n e = elim (Option-cases (q.entity_filter)) [
    | inl none_given ↦
        (let key = head_key s.registry (head_of q.pattern) in
          ((Elem-resolve_nodes s (scan s.backend by_pred key) _ h.keyed (h.preds key) n).0
            (subst (λ f. Elem n (candidates_for s q f)) none_given e)).0)
    | inr (entity, given) ↦
        ((Elem-resolve_nodes s (scan s.backend by_entity entity) _ h.keyed (h.entities entity) n).0
          (subst (λ f. Elem n (candidates_for s q f)) given e)).0
  ]

  -- In a well-formed store, each result of a query is a stored node, as the store holds it.
  pub query_stored :
      (s : FactumStore p) (q : Query p) (o : QueryOptions p) (rs : ResultSet p)
      → IsValid s
      → query s q o ≡ some rs
      → (x : QueryResult p) → Elem x rs.results
      → get s x.node.id ≡ some x.node
  query_stored s q o rs h e x m = get_candidates-get s q h x.node (query_sound s q o rs e x m).0
