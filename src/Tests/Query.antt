-- ===== src/Tests/Query.antt =====
-- Queries at work.
use factum.Prelude.{true, false, ◌≡◌, refl, inl, none, some, List, [], ◌∷◌, codes}
use factum.Prelude.{text_eq, starts_with}
use factum.HashMap
use factum.HashMap.{text_key}
use factum.Core.Types.{PredicateHead, ent, var, lit, str, nil, cons, end, predicate, is_valid_at}
use factum.Core.Types.Equality.{head_eq, literal_eq}
use factum.Rt.Storage.{
  get_node, batch_write, apply_op, get_index_map, encode_index_key, encode_index_prefix,
}
use factum.Rt.Store
use factum.Rt.Store.Entries.{terms_ops, named_ops}
use factum.Rt.Store.{FactumStore}
use factum.Rt.Store.Write.{insert_batch}
use factum.Rt.Store.Read.{get, check_permission}
use factum.Rt.Query.{Query, QueryOptions, ResultSet, get_candidates, query}
use factum.Rt.Query.Match.{heads_match, match_var}
use factum.Rt.Query.Arbitration.{QueryResult, unanimous, arbitrate}
use factum.Rt.Query.Laws.{query_noninterference, query_stored}
use factum.Rt.Query.Refusal.{arbitrate_refuses, arbitrate_unanimous}
use factum.Tests.Data.{small, source, derived_fact, secret, empty, loaded, loaded-IsValid}

abbrev ask : Query small
ask = record {
  pattern =
      predicate (PredicateHead.name (codes "status"))
        (cons (ent (codes "ACME")) (cons (var (codes "x")) nil)) end;
  entity_filter = none;
}

abbrev as_public : QueryOptions small
as_public = record {
  policy = unanimous;
  now = true;
  min_conf = 0;
  perm = record { principal = codes "anonymous"; role_mask = 1 };
}

abbrev without_secret : FactumStore small
without_secret = (insert_batch empty (source ∷ derived_fact ∷ [])).1

abbrev up : QueryResult small
up = record { node = source; bindings = (codes "x", lit (str (codes "up"))) ∷ [] }

abbrev down : QueryResult small
down = record { node = secret; bindings = (codes "x", lit (str (codes "down"))) ∷ [] }

abbrev answer : ResultSet small
answer = record { results = up ∷ []; ambiguous = false }

asked : query loaded ask as_public ≡ some answer
unfolding query insert_batch HashMap.get Store.new get_node text_eq batch_write apply_op terms_ops
    get_index_map named_ops HashMap.insert HashMap.collect HashMap.push encode_index_key starts_with
    encode_index_prefix is_valid_at heads_match match_var head_eq literal_eq
asked = refl

query_noninterference_example : query loaded ask as_public ≡ query without_secret ask as_public
unfolding get_candidates insert_batch Store.new get_node HashMap.get text_eq batch_write apply_op
    terms_ops get_index_map named_ops HashMap.insert encode_index_key HashMap.push HashMap.collect
    starts_with encode_index_prefix check_permission
query_noninterference_example = query_noninterference loaded without_secret ask as_public refl

refused : arbitrate (up ∷ down ∷ []) unanimous ≡ some ([], true)
unfolding arbitrate head_eq text_eq literal_eq
refused = refl

agreed : arbitrate (up ∷ up ∷ []) unanimous ≡ some (up ∷ [], false)
unfolding arbitrate head_eq text_eq literal_eq
agreed = refl

abbrev no_results : List (QueryResult small)
no_results = []

arbitrate_refuses_example : no_results ≡ []
arbitrate_refuses_example = arbitrate_refuses (up ∷ down ∷ []) unanimous no_results refl refused

arbitrate_unanimous_example : up.node.predicate ≡ up.node.predicate
arbitrate_unanimous_example =
    arbitrate_unanimous (up ∷ up ∷ []) (up ∷ []) false agreed up up (inl refl) (inl refl)

query_stored_example : get loaded source.id ≡ some source
query_stored_example = query_stored loaded ask as_public answer loaded-IsValid asked up (inl refl)
