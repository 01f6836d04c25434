-- ===== src/Mcp/Upsert.antt =====
-- What `tool_upsert` of crates/factum-mcp/src/handler.rs replaces.
use factum.Prelude.{
  Bool, true, false, ◌≡◌, refl, sym, ap, subst, ◌∙◌, ◌≤◌, inl, inr, ◌⊎◌, Option, none, some, List,
  [], ◌∷◌, Result, ok, err, if◌then◌else◌, Elem, length, arith,
}
use factum.HashMap.{◌==◌, text_key}
use factum.Core.Platform.{Platform}
use factum.Core.Types.{NodeId, Node}
use factum.Core.Parser.{parse}
use factum.Core.Parser.Base.{done}
use factum.Core.Lexer.{Token}
use factum.Rt.Store.{FactumStore, StoreError}
use factum.Rt.Store.Read.{get}
use factum.Rt.Store.Write.{insert_node}
use factum.Rt.Store.Single.{insert_node_refines, insert_node-IsValid}
use factum.Rt.Store.Cascade.{RetractResult, retract_with_limit, default_max_cascade_nodes}
use factum.Rt.Store.Cascade.Effect.{retire, contains}
use factum.Rt.Store.Index.{IsValid}
use factum.Rt.Store.Retract.{retract_with_limit_total, retract_with_limit_reads}
use factum.Mcp.Json.{Json}
use factum.Mcp.Protocol.{JsonRpcError}
use factum.Mcp.Params.{Outside, FactumUpsertParams}
use factum.Mcp.Handler.{McpHandler, Call, with_store, with_result, store_error_to_jsonrpc}
use factum.Mcp.Write.{ended, matching, upsert_over, tool_upsert}
use factum.Mcp.Reject.{IsGone, retract-IsGone}

module _ {p : Platform} where
  -- A read that is what it was, or differs in the status only, which is that of a retraction.
  abbrev pub IsKept : Option (Node p) → Option (Node p) → Type 0
  IsKept before after = (after ≡ before) ⊎ (after ≡ retire before)

  IsKept-retire : (b : Bool) (o : Option (Node p)) → IsKept o (if b then retire o else o)
  IsKept-retire true o = inr refl
  IsKept-retire false o = inl refl

  retract-IsKept :
      (s : FactumStore p) (id : NodeId) (r : Result StoreError RetractResult) (u : FactumStore p)
      → IsValid s
      → retract_with_limit s id default_max_cascade_nodes ≡ some (r, u)
      → (j : NodeId) → IsKept (get s j) (get u j)
  retract-IsKept s id (ok r) u v e j =
      subst (IsKept (get s j))
        (sym (retract_with_limit_reads s id default_max_cascade_nodes r u v.keyed e j))
        (IsKept-retire (contains j r.retracted) (get s j))
  retract-IsKept s id (err w) u v e j =
      elim (retract_with_limit_total s id default_max_cascade_nodes v.keyed) [
        | inl (r', u', e', _, _) ↦ absurd (let q = sym e ∙ e' in cc q)
        | inr (e', absent) ↦
            (let same : u ≡ s = let q = sym e ∙ e' in cc q in
              inl (ap (λ (t : FactumStore p). get t j) same))
      ]

  -- The node `n` has replaced `olds`: it took a free identifier, each old node is retracted, and
  -- every other read is kept.
  pub record Replaces (s u : FactumStore p) (n : Node p) (olds : List (Node p)) : Type 0 where
    pub fresh : get s n.id ≡ none
    pub single : length olds ≤ 1
    pub valid : IsValid u
    pub gone : (m : Node p) → Elem m olds → IsGone (get u m.id)
    pub reads : (j : NodeId) → IsKept (if n.id == j then some n else get s j) (get u j)

  -- The store is what it was, since the insertion is refused or more than one node matches.
  abbrev pub Refuses : FactumStore p → FactumStore p → Node p → List (Node p) → Type 0
  Refuses s u n olds =
      (u ≡ s) × (((e : StoreError) × (insert_node s n ≡ (err e, s))) ⊎ (2 ≤ length olds))

  -- an upsert that has an answer, and what it did
  abbrev Upserted : Outside p → McpHandler p → Call p → Node p → List (Node p) → Type 0
  Upserted o h c n olds =
      (x : Result JsonRpcError (Json p)) × (h' : McpHandler p) × (c ≡ some (x, h'))
      × (Replaces h.store h'.store n olds ⊎ Refuses h.store h'.store n olds)

  ended_lem :
      {A : Type 0} (o : Outside p) (c : Option (Result StoreError A × FactumStore p))
      (k : Result StoreError A × FactumStore p → Call p) (r : Result StoreError A × FactumStore p)
      → c ≡ some r
      → ended o c k ≡ k r
  ended_lem o c k r e = ap (λ (t : Option (Result StoreError _ × FactumStore p)). ended o t k) e

  with_result_ok :
      {A : Type 0} (o : Outside p) (h : McpHandler p) (r : Result StoreError A × FactumStore p)
      (k : A → McpHandler p → Call p) (a : A) (u : FactumStore p)
      → r ≡ (ok a, u)
      → with_result o h r k ≡ k a (with_store h u)
  with_result_ok o h r k a u e =
      ap (λ (t : Result StoreError _ × FactumStore p). with_result o h t k) e

  with_result_err :
      {A : Type 0} (o : Outside p) (h : McpHandler p) (r : Result StoreError A × FactumStore p)
      (k : A → McpHandler p → Call p) (e : StoreError) (u : FactumStore p)
      → r ≡ (err e, u)
      → with_result o h r k ≡ some (err (store_error_to_jsonrpc o e), with_store h u)
  with_result_err o h r k e u q =
      ap (λ (t : Result StoreError _ × FactumStore p). with_result o h t k) q

  upsert_over-Refuses :
      (o : Outside p) (h : McpHandler p) (now : p.Time) (n : Node p) (olds : List (Node p))
      (e : StoreError)
      → insert_node h.store n ≡ (err e, h.store)
      → Upserted o h (upsert_over o h now n olds) n olds
  unfolding upsert_over
  upsert_over-Refuses o h now n [] e q =
      (_, with_store h h.store, with_result_err o h _ _ e h.store q, inr (refl, inl (e, q)))
  upsert_over-Refuses o h now n (old ∷ []) e q =
      (_, with_store h h.store, with_result_err o h _ _ e h.store q, inr (refl, inl (e, q)))
  upsert_over-Refuses o h now n (m ∷ m' ∷ ms) e q = (_, _, refl, inr (refl, inr (omega arith)))

  upsert_over-Replaces :
      (o : Outside p) (h : McpHandler p) (now : p.Time) (n : Node p) (olds : List (Node p))
      (u : FactumStore p)
      → insert_node h.store n ≡ (ok tt, u)
      → IsValid u
      → get h.store n.id ≡ none
      → ((j : NodeId) → get u j ≡ (if n.id == j then some n else get h.store j))
      → Upserted o h (upsert_over o h now n olds) n olds
  unfolding upsert_over
  upsert_over-Replaces o h now n [] u q v fresh reads = (
    _,
    with_store h u,
    with_result_ok o h _ _ tt u q,
    inl (record {
      fresh = fresh;
      single = omega arith;
      valid = v;
      gone = λ m e. absurd e;
      reads = λ j. inl (reads j);
    }),
  )
  upsert_over-Replaces o h now n (old ∷ []) u q v fresh reads =
      let (r, u', e, v', root, _) = retract-IsGone u old.id v in
      (
        _,
        with_store h u',
        with_result_ok o h _ _ tt u q ∙ ended_lem o _ _ (r, u') e,
        inl (record {
          fresh = fresh;
          single = omega arith;
          valid = v';
          gone = λ m h. elim h [
            | inl q ↦ subst (λ (x : Node p). IsGone (get u' x.id)) (sym q) root
            | inr l ↦ absurd l
          ];
          reads = λ j.
              subst (λ (b : Option (Node p)). IsKept b (get u' j)) (reads j)
                (retract-IsKept u old.id r u' v e j);
        }),
      )
  upsert_over-Replaces o h now n (m ∷ m' ∷ ms) u q v fresh reads =
      (_, _, refl, inr (refl, inr (omega arith)))

  tool_upsert_lem :
      (o : Outside p) (h : McpHandler p) (now : p.Time) (j : Json p) (q : FactumUpsertParams)
      (n : Node p) (ns : List (Node p)) (ts : List Token)
      → o.upsert_params j ≡ ok q
      → parse q.node ≡ done (n ∷ ns) ts
      → tool_upsert o h now j ≡ upsert_over o h now n (matching o h q)
  unfolding tool_upsert
  tool_upsert_lem o h now j q n ns ts e d = rw (e, tool_upsert) (rw d refl)

  -- In a server with a well-formed store, the upsert of a node that can be read is answered. Either
  -- the list of matches has at most one entry: then the new node took a free identifier, the node
  -- that matched is read as retracted, and every other read is what it was or differs in the status
  -- only, which is retracted. Or the store is what it was, since the insertion is refused or the
  -- list of matches has two entries or more, where a node that mentions the entity twice stands
  -- twice.
  pub tool_upsert-Replaces :
      (o : Outside p) (h : McpHandler p) (now : p.Time) (j : Json p) (q : FactumUpsertParams)
      (n : Node p) (ns : List (Node p)) (ts : List Token)
      → IsValid h.store
      → o.upsert_params j ≡ ok q
      → parse q.node ≡ done (n ∷ ns) ts
      → (x : Result JsonRpcError (Json p)) × (h' : McpHandler p) × (tool_upsert o h now j
          ≡ some (x, h'))
        × (Replaces h.store h'.store n (matching o h q)
            ⊎ Refuses h.store h'.store n (matching o h q))
  tool_upsert-Replaces o h now j q n ns ts v e d =
      rw (tool_upsert_lem o h now j q n ns ts e d) (elim (insert_node_refines h.store n) [
        | inl (fine, _, fresh, reads) ↦
            upsert_over-Replaces o h now n (matching o h q) (insert_node h.store n).1
              (ap (λ (r : Result StoreError Unit). (r, (insert_node h.store n).1)) fine)
              (insert_node-IsValid h.store n v) fresh reads
        | inr (why, refused) ↦ upsert_over-Refuses o h now n (matching o h q) why refused
      ])
