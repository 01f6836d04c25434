-- ===== src/Mcp/Search.antt =====
-- `tool_search` of crates/factum-mcp/src/handler.rs, and the order of texts.
use factum.Prelude.{
  ℕ, zero, suc, ◌+◌, ◌-◌, Bool, true, false, ◌&&◌, ◌||◌, Option, none, some, List, [], ◌∷◌, ◌++◌,
  Text, codes, text_eq, starts_with, eqb, leb, ltb, if◌then◌else◌, length, map,
}
use factum.HashMap
use factum.HashMap.{HashMap, ◌==◌, text_key}
use factum.Core.Platform.{Platform}
use factum.Core.Types.{Node, Term, var, ent, lit, Terms, nil, cons, head_of, args_of}
use factum.Core.Types.Display.{to_canonical_string}
use factum.Core.Canonical.Nodes.{canonical}
use factum.Rt.Store.Read.{all_active, store_len}
use factum.Mcp.Json.{Json, null, number, string, bool, arr, strings, obj}
use factum.Mcp.Protocol.{invalid_params}
use factum.Mcp.Params.{Outside}
use factum.Mcp.Handler.{McpHandler, Call, predicate_head_str, fails, answers, visible, with_params}
use factum.Mcp.Write.{or_else, text_field}

-- `contains`
unfoldable pub contains : Text → Text → Bool
unfolding starts_with
contains [] word = starts_with [] word
contains (c ∷ cs) word = starts_with (c ∷ cs) word || contains cs word

-- `a <= b` of strings, by their bytes
unfoldable pub text_leb : Text → Text → Bool
text_leb [] b = true
text_leb (x ∷ xs) [] = false
text_leb (x ∷ xs) (y ∷ ys) = ltb x y || (eqb x y && text_leb xs ys)

module _ {A : Type 0} (key : A → Text) where
  insert_sorted : A → List A → List A
  insert_sorted a [] = a ∷ []
  insert_sorted a (x ∷ xs) =
      let rest = insert_sorted a xs in if text_leb (key a) (key x) then a ∷ x ∷ xs else x ∷ rest

  -- `sort_by` on a text
  unfoldable pub sort_by_text : List A → List A
  unfolding insert_sorted text_leb
  sort_by_text [] = []
  sort_by_text (x ∷ xs) = insert_sorted x (sort_by_text xs)

module _ {p : Platform} where
  -- the entities among the arguments
  abbrev entity_ids : Terms p → List Text
  entity_ids nil = []
  entity_ids (cons (ent e) ts) = e ∷ entity_ids ts
  entity_ids (cons t ts) = entity_ids ts

  -- an argument in the summary of a match
  argument : Term p → Text
  argument (ent e) = codes " @" ++ e
  argument (var v) = codes " ?" ++ v
  argument (lit l) = codes " " ++ to_canonical_string l
  argument _ = []

  arguments : Terms p → Text
  unfolding argument
  arguments nil = []
  arguments (cons t ts) = argument t ++ arguments ts

  -- the counts of a `BTreeMap` by predicate head
  unfoldable pub count_heads : List (Node p) → HashMap Text ℕ → HashMap Text ℕ
  unfolding predicate_head_str
  count_heads [] m = m
  count_heads (n ∷ ns) m =
      let head = predicate_head_str (head_of n.predicate) in
      count_heads ns (HashMap.insert head (or_else (HashMap.get head m) 0 + 1) m)

  unfoldable pub pred_counts : List (Node p) → List (Text × ℕ)
  unfolding count_heads sort_by_text
  pred_counts ns = sort_by_text (λ e. e.0) (count_heads ns [])

  abbrev count_entry : Text × ℕ → Json p
  count_entry e = obj (text_field (codes "predicate") e.0 ∷ (codes "count", number e.1) ∷ [])

module _ {p : Platform} (o : Outside p) where
  abbrev any_contains : List Text → Text → Bool
  any_contains [] kw = false
  any_contains (e ∷ es) kw = contains (o.to_lowercase e) kw || any_contains es kw

  abbrev note_contains : Option Text → Text → Bool
  note_contains none kw = false
  note_contains (some note) kw = contains (o.to_lowercase note) kw

  -- where the keyword stands in a node
  unfoldable pub match_types : Text → Node p → List Text
  unfolding contains predicate_head_str canonical
  match_types kw n =
      let has = λ (text : Text). contains (o.to_lowercase text) kw in
      (if has n.id then codes "node-id" ∷ [] else [])
      ++ (if has (predicate_head_str (head_of n.predicate))
          then codes "predicate-head" ∷ []
          else [])
      ++ (if any_contains (entity_ids (args_of n.predicate)) kw then codes "entity" ∷ [] else [])
      ++ (if has (canonical n) then codes "content" ∷ [] else [])
      ++ (if note_contains n.note kw then codes "note" ∷ [] else [])

  abbrev note_json : Option Text → Json p
  note_json none = null
  note_json (some note) = string note

  -- one entry of the results of a search
  match_entry : List Text → Node p → Json p
  unfolding arguments predicate_head_str
  match_entry types n =
      let head = predicate_head_str (head_of n.predicate) in
      obj (
        text_field (codes "node_id") n.id
        ∷ text_field (codes "predicate_head") head
        ∷ (codes "match_type", strings types)
        ∷ text_field (codes "summary") (
            codes "(node "
            ++ n.id
            ++ codes " :pred ("
            ++ head
            ++ arguments (args_of n.predicate)
            ++ codes "))")
        ∷ (codes "note", note_json n.note)
        ∷ [])

  -- the loop of a search, with room for so many matches
  unfoldable pub search_nodes : Text → ℕ → List (Node p) → List (Json p)
  unfolding match_types match_entry
  search_nodes kw zero ns = []
  search_nodes kw (suc room) [] = []
  search_nodes kw (suc room) (n ∷ ns) = elim (match_types kw n) [
    | [] ↦ search_nodes kw (suc room) ns
    | t ∷ ts ↦ match_entry (t ∷ ts) n ∷ search_nodes kw room ns
  ]

  -- the answer to a search for a keyword that is there
  unfoldable pub keyword_answer : Text → Option ℕ → List (Node p) → Json p
  unfolding search_nodes
  keyword_answer keyword wanted nodes =
      let asked = or_else wanted 50 in
      let limit = if leb asked 200 then asked else 200 in
      let found = search_nodes (o.to_lowercase keyword) limit nodes in
      obj (
        text_field (codes "mode") (codes "keyword")
        ∷ text_field (codes "keyword") keyword
        ∷ (codes "results", arr found)
        ∷ (codes "count", number (length found))
        ∷ (codes "truncated", bool (eqb (length found) limit))
        ∷ [])

  abbrev pub search_keyword : McpHandler p → Option Text → Option ℕ → List (Node p) → Call p
  search_keyword h (some (c ∷ cs)) limit nodes = answers h (keyword_answer (c ∷ cs) limit nodes)
  search_keyword h _ limit nodes =
      fails h (invalid_params (codes "keyword is required when mode=\"keyword\""))

  -- the answers of the other modes
  predicates_answer : List (Node p) → Json p
  unfolding pred_counts
  predicates_answer nodes =
      let counts = pred_counts nodes in
      obj (
        text_field (codes "mode") (codes "predicates")
        ∷ (codes "predicates", arr (map count_entry counts))
        ∷ (codes "distinct_count", number (length counts))
        ∷ (codes "total_active", number (length nodes))
        ∷ [])

  stats_answer : ℕ → List (Node p) → Json p
  unfolding pred_counts
  stats_answer total nodes =
      let counts = pred_counts nodes in
      obj (
        text_field (codes "mode") (codes "stats")
        ∷ (codes "total_nodes", number total)
        ∷ (codes "active_nodes", number (length nodes))
        ∷ (codes "retracted_nodes", number (total - length nodes))
        ∷ (codes "distinct_predicates", number (length counts))
        ∷ (codes "predicates", arr (map count_entry counts))
        ∷ [])

  -- `tool_search`
  unfoldable pub tool_search : McpHandler p → Json p → Call p
  unfolding visible keyword_answer predicates_answer stats_answer all_active store_len
  tool_search h j = with_params o h (o.search_params j) λ q.
      let nodes = visible (all_active h.store) in
      if text_eq q.mode (codes "keyword")
      then search_keyword h q.keyword q.limit nodes
      else if text_eq q.mode (codes "predicates")
      then answers h (predicates_answer nodes)
      else if text_eq q.mode (codes "stats")
      then answers h (stats_answer (store_len h.store) nodes)
      else fails h (
          invalid_params (
            codes "unknown mode: " ++ q.mode ++ codes " (expected: keyword, predicates, or stats)"))
