-- ===== src/Tests/Mcp.antt =====
-- The server on the small store.
use factum.Prelude.{
  ℕ, ◌≡◌, ◌⊎◌, refl, none, some, List, [], ◌∷◌, codes, Result, ok, err, true, pos, eqb,
  if◌then◌else◌, Elem,
}
use factum.Core.Types.{
  Node, NodeId, is_active, PredicateHead, Predicate, predicate, var, ent, cons, nil, end, asserted,
}
use factum.Core.Parser.{parse, parse_predicate}
use factum.Core.Morphemes.{empty_registry}
use factum.Rt.Store.Run.{batch, start, step, Reachable-IsValid}
use factum.Mcp.Write.{matching, tool_upsert}
use factum.Mcp.Upsert.{Replaces, Refuses, tool_upsert-Replaces}
use factum.Core.Parser.Base.{Outcome, done, peek_second}
use factum.Core.Lexer.{Token}
use factum.Core.Canonical.{canonical_predicate}
use factum.Prelude.{text_eq, starts_with}
use factum.HashMap
use factum.Rt.Permission
use factum.Rt.Storage.{
  get_node, encode_index_prefix, encode_index_key, batch_write, apply_op, get_index_map,
}
use factum.Rt.Store
use factum.Rt.Store.Entries.{terms_ops, named_ops}
use factum.Rt.Store.{FactumStore}
use factum.Rt.Store.Write.{insert_batch}
use factum.Mcp.Handler.{generate_content_id}
use factum.Mcp.Write.{or_else}
use factum.Mcp.Assert.{tool_assert}
use factum.Mcp.Read.{contents, read_resource}
use factum.Mcp.Facts.{requested, read_resource-accessible, tool_assert_stored, tool_assert_default}
use factum.Tests.Sequiv.{small-KeepsOrder}
use factum.Tests.Data.{empty, fact}
use factum.Rt.Review
use factum.Rt.Review.{
  ReviewEvent, ReviewQueue, normal, pending, rejected, cascade_truncated, is_pending,
}
use factum.Rt.Store.Index.{IsValid}
use factum.Rt.Store.Read.{get, check_permission}
use factum.Mcp.Json.{obj, Json, null, string, get_str}
use factum.Mcp.Protocol.{JsonRpcRequest, JsonRpcError}
use factum.Mcp.Params.{Outside, FactumAssertParams, FactumUpsertParams}
use factum.Mcp.Handler.{McpHandler, new_handler}
use factum.Mcp.Review.{reject_event}
use factum.Mcp.Reject.{IsGone, reject_event-IsGone}
use factum.Mcp.Server.{handle}
use factum.Mcp.Laws.{Responds, AsksAuthority, handle-Responds}
use factum.Tests.Data.{small, source, loaded, loaded-IsValid}

abbrev up : Predicate small
up = predicate (PredicateHead.name (codes "up")) (cons (var (codes "x")) nil) end

abbrev the_params : FactumAssertParams small
the_params = record { predicate = codes "(up ?x)"; by = none; confidence = none; note = none }

abbrev the_upsert : FactumUpsertParams
the_upsert = record {
  node = codes "(node d :pred (status @ACME))";
  entity = codes "@ACME";
  predicate = codes "status";
}

abbrev outside : Outside small
outside = record {
  query_params = λ j. err (codes "missing field `query`");
  lookup_params = λ j. err (codes "missing field `entity`");
  insert_params = λ j. err (codes "missing field `node`");
  batch_params = λ j. err (codes "missing field `nodes`");
  upsert_params = λ j. ok the_upsert;
  search_params = λ j. err (codes "missing field `mode`");
  retract_params = λ j. err (codes "missing field `node_id`");
  assert_params = λ j. ok the_params;
  json_text = λ j. codes "{}";
  as_f32 = λ j. none;
  compact_text = λ n. codes "{}";
  store_error_text = λ e. codes "store";
  parse_error_text = λ e. codes "parse";
  debug_provenance = λ v. codes "Asserted";
  to_lowercase = λ s. s;
  default_hash = λ s. 7;
  format_day = λ t. codes "1970-01-01";
  tool_definitions = null;
  version = codes "0.1.0";
}

abbrev queue : ReviewQueue
queue =
    (Review.enqueue cascade_truncated normal (codes "a" ∷ []) (codes "cut") (pos 5) Review.new).1

abbrev server : McpHandler small
server = new_handler loaded queue

abbrev listing : JsonRpcRequest small
listing = record { id = null; method = codes "resources/list"; params = none }

handle-Responds_example :
    Responds (AsksAuthority outside true listing) loaded (handle outside server true listing)
handle-Responds_example = handle-Responds outside server true listing loaded-IsValid

abbrev cut : ReviewEvent
cut = record {
  id = 1;
  event_type = cascade_truncated;
  priority = normal;
  node_ids = codes "a" ∷ [];
  reason = codes "cut";
  timestamp = pos 5;
  status = pending;
}

queued : Review.get queue 1 ≡ some cut
unfolding Review.new Review.get Review.enqueue
queued = refl

reject_event-IsGone_example :
    (j : Json small) × (h' : McpHandler small) × (reject_event outside server 1 ≡ some (ok j, h'))
    × IsValid h'.store
    × ((k : ℕ)
        → Review.get h'.review_queue k
          ≡ (if eqb 1 k then some (record cut { status = rejected }) else Review.get queue k))
    × ((x : NodeId) → Elem x (codes "a" ∷ []) → IsGone (get h'.store x))
reject_event-IsGone_example = reject_event-IsGone outside server 1 cut loaded-IsValid queued refl

abbrev params_of_a : Json small
params_of_a = obj ((codes "uri", string (codes "factum://nodes/a")) ∷ [])

shown :
    read_resource server (some params_of_a)
    ≡ some (ok (contents (codes "factum://nodes/a") source), server)
unfolding read_resource text_eq HashMap.get insert_batch Store.new batch_write apply_op terms_ops
    get_index_map named_ops HashMap.insert
shown = refl

read_resource-accessible_example :
    (i : NodeId) × (n : Node small) × (requested params_of_a ≡ some i)
    × (get loaded i ≡ some n)
    × (is_active n.status ≡ true)
    × (check_permission n Permission.public ≡ true)
    × (contents (codes "factum://nodes/a") source
        ≡ contents (or_else (get_str (codes "uri") params_of_a) []) n)
read_resource-accessible_example =
    read_resource-accessible server server params_of_a (contents (codes "factum://nodes/a") source)
      shown

-- what follows the tokens of an outcome
abbrev rest_of : Outcome (Predicate small) → List Token
rest_of (done q ts) = ts
rest_of _ = []

read :
    parse_predicate {p = small} (codes "(up ?x)")
    ≡ done up (rest_of (parse_predicate {p = small} (codes "(up ?x)")))
unfolding parse_predicate
read = refl

abbrev known : Node small
known = fact (codes "auto-000000000007") (codes "up") (asserted (codes "bob")) [] 1

abbrev knowing : FactumStore small
knowing = (insert_batch empty (known ∷ [])).1

found : get knowing (generate_content_id outside (canonical_predicate up)) ≡ some known
unfolding get generate_content_id text_eq HashMap.get insert_batch Store.new batch_write apply_op
    terms_ops get_index_map named_ops HashMap.insert
found = refl

tool_assert_stored_example :
    (x : Result JsonRpcError (Json small)) × (h' : McpHandler small) × (tool_assert outside
        (new_handler knowing queue)
        true
        null
      ≡ some (x, h'))
    × (h'.store ≡ knowing)
tool_assert_stored_example =
    tool_assert_stored outside (new_handler knowing queue) true null the_params up
      (rest_of (parse_predicate {p = small} (codes "(up ?x)"))) known refl read found

tool_assert_default_example :
    (x : Result JsonRpcError (Json small)) × (h' : McpHandler small) × (tool_assert outside server
        true null
      ≡ some (x, h'))
    × (h'.review_queue ≡ queue)
tool_assert_default_example =
    tool_assert_default outside server true null the_params up
      (rest_of (parse_predicate {p = small} (codes "(up ?x)"))) small-KeepsOrder refl refl read

abbrev parsed : Outcome (List (Node small))
parsed = parse the_upsert.node

-- the first node and the rest of the tokens
abbrev first_of : Outcome (List (Node small)) → Node small
first_of (done (n ∷ ns) ts) = n
first_of _ = source

abbrev behind : Outcome (List (Node small)) → List Token
behind (done ns ts) = ts
behind _ = []

parsed_one : parsed ≡ done (first_of parsed ∷ []) (behind parsed)
unfolding parse peek_second text_eq
parsed_one = refl

knowing-IsValid : IsValid knowing
knowing-IsValid = Reachable-IsValid empty_registry knowing (step start (batch empty (known ∷ [])))

tool_upsert-Replaces_example :
    (x : Result JsonRpcError (Json small)) × (h' : McpHandler small) × (tool_upsert outside
        (new_handler knowing queue)
        true
        null
      ≡ some (x, h'))
    × (Replaces knowing h'.store
          (first_of parsed)
          (matching outside (new_handler knowing queue) the_upsert)
        ⊎ Refuses knowing h'.store
            (first_of parsed)
            (matching outside (new_handler knowing queue) the_upsert))
tool_upsert-Replaces_example =
    tool_upsert-Replaces outside (new_handler knowing queue) true null the_upsert (first_of parsed)
      [] (behind parsed) knowing-IsValid refl parsed_one

-- one node matches
one_match : matching outside (new_handler knowing queue) the_upsert ≡ known ∷ []
unfolding matching HashMap.get insert_batch Store.new get_node batch_write apply_op terms_ops
    get_index_map named_ops HashMap.insert HashMap.collect HashMap.push starts_with
    encode_index_prefix encode_index_key text_eq
one_match = refl

-- a node that mentions the entity twice
abbrev doubled : Node small
doubled = record known {
  predicate =
      predicate (PredicateHead.name (codes "status"))
        (cons (ent (codes "ACME")) (cons (ent (codes "ACME")) nil)) end;
}

abbrev doubling : FactumStore small
doubling = (insert_batch empty (doubled ∷ [])).1

-- It stands twice in the list of matches.
two_entries : matching outside (new_handler doubling queue) the_upsert ≡ doubled ∷ doubled ∷ []
unfolding matching HashMap.get insert_batch Store.new get_node batch_write apply_op terms_ops
    get_index_map named_ops HashMap.insert HashMap.collect HashMap.push starts_with
    encode_index_prefix encode_index_key text_eq
two_entries = refl
