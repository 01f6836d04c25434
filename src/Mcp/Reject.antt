-- ===== src/Mcp/Reject.antt =====
-- What the decision "reject" of crates/factum-mcp/src/handler.rs does to the queue and the store.
use factum.Prelude.{
  ℕ, Bool, true, false, ◌≡◌, refl, sym, ap, subst, ◌∙◌, inl, inr, Option, none, some, List, [], ◌∷◌,
  Text, Result, ok, err, if◌then◌else◌, Bool-cases, Elem, eqb, eqb_iff, arith,
}
use factum.Core.Platform.{Platform}
use factum.Core.Types.{NodeId, Node, is_retracted}
use factum.Rt.Review
use factum.Rt.Review.{ReviewEvent, ReviewQueue, rejected, is_pending, reject}
use factum.Rt.Review.Laws.{Decides, reject-Decides}
use factum.Rt.Store.{FactumStore, StoreError}
use factum.Rt.Store.Read.{get}
use factum.Rt.Store.Cascade.{RetractResult, retract_with_limit, default_max_cascade_nodes}
use factum.Rt.Store.Cascade.Effect.{retire, contains}
use factum.Rt.Store.Index.{IsValid}
use factum.Rt.Store.Retract.{
  retract_with_limit-IsValid, retract_with_limit_total, retract_with_limit_reads,
  retract_with_limit_root,
}
use factum.Mcp.Json.{Json}
use factum.Mcp.Params.{Outside}
use factum.Mcp.Handler.{McpHandler, Call, with_store}
use factum.Mcp.Review.{
  Sweep, swept, retract_each, reject_nodes, reject_event, rejected_answer, swept_answer, decided,
}

pending_event-decided :
    (q : ReviewQueue) (i : ℕ) (e : ReviewEvent) (r : Result Text Unit × ReviewQueue)
    → Decides rejected q i r
    → Review.get q i ≡ some e
    → is_pending e ≡ true
    → (r.0 ≡ ok tt)
      × ((k : ℕ)
          → Review.get r.1 k
            ≡ (if eqb i k then some (record e { status = rejected }) else Review.get q k))
pending_event-decided q i e r (inl (e', found', _, fine, reads)) found pending =
    let same : e' ≡ e = ground (arith, sym found' ∙ found) in
    (
      fine,
      subst
          (λ (x : ReviewEvent).
            (k : ℕ)
            → Review.get r.1 k
              ≡ (if eqb i k then some (record x { status = rejected }) else Review.get q k))
          same reads,
    )
pending_event-decided q i e r (inr (why, _, closed)) found pending =
    absurd (let n = closed e found in cc (n, pending))

module _ {p : Platform} where
  -- No node that is read is one that still stands.
  abbrev pub IsGone : Option (Node p) → Type 0
  IsGone none = Unit
  IsGone (some n) = is_retracted n.status ≡ true

  retire-IsGone : (o : Option (Node p)) → IsGone (retire o)
  retire-IsGone none = tt
  retire-IsGone (some n) = refl

  retired_or_not : (b : Bool) (o : Option (Node p)) → IsGone o → IsGone (if b then retire o else o)
  retired_or_not true o h = retire-IsGone o
  retired_or_not false o h = h

  root-IsGone :
      (s : FactumStore p) (id : NodeId) (r : RetractResult) (u : FactumStore p)
      (o : Option (Node p))
      → IsValid s
      → retract_with_limit s id default_max_cascade_nodes ≡ some (ok r, u)
      → get s id ≡ o
      → IsGone (if contains id r.retracted then retire o else o)
  root-IsGone s id r u none v e q = retired_or_not (contains id r.retracted) none tt
  root-IsGone s id r u (some n) v e q = elim (Bool-cases (is_retracted n.status)) [
    | inl gone ↦ retired_or_not (contains id r.retracted) (some n) gone
    | inr stands ↦
        rw
          (retract_with_limit_root s id default_max_cascade_nodes n r u v.keyed q stands
            (omega arith) e)
          (retire-IsGone (some n))
  ]

  -- After one retraction its root is gone, and what was gone before stays so.
  pub retract-IsGone :
      (s : FactumStore p) (id : NodeId)
      → IsValid s
      → (r : Result StoreError RetractResult) × (u : FactumStore p) × (retract_with_limit s id
            default_max_cascade_nodes
          ≡ some (r, u))
        × IsValid u
        × IsGone (get u id)
        × ((x : NodeId) → IsGone (get s x) → IsGone (get u x))
  retract-IsGone s id v = elim (retract_with_limit_total s id default_max_cascade_nodes v.keyed) [
    | inl (r, u, e, _, _) ↦ (
      ok r,
      u,
      e,
      retract_with_limit-IsValid s id default_max_cascade_nodes (ok r) u v e,
      (let reads = retract_with_limit_reads s id default_max_cascade_nodes r u v.keyed e id in
          subst IsGone (sym reads) (root-IsGone s id r u (get s id) v e refl)),
      λ x h.
          let reads = retract_with_limit_reads s id default_max_cascade_nodes r u v.keyed e x in
          subst IsGone (sym reads) (retired_or_not (contains x r.retracted) (get s x) h),
    )
    | inr (e, absent) ↦ (err _, s, e, v, subst IsGone (sym absent) tt, λ x h. h)
  ]

  swept-store :
      (o : Outside p) (id : Text) (done errs : List Text) (r : Result StoreError RetractResult)
      (u : FactumStore p)
      → (swept o id done errs (r, u)).store ≡ u
  swept-store o id done errs (ok r) u = refl
  swept-store o id done errs (err e) u = refl

  retract_each-IsGone :
      (o : Outside p) (ids : List Text) (w : Sweep p)
      → IsValid w.store
      → (w' : Sweep p) × (retract_each o ids w ≡ some w')
        × IsValid w'.store
        × ((x : NodeId) → Elem x ids → IsGone (get w'.store x))
        × ((x : NodeId) → IsGone (get w.store x) → IsGone (get w'.store x))
  unfolding retract_each
  retract_each-IsGone o [] w v = (w, refl, v, λ x h. absurd h, λ x h. h)
  retract_each-IsGone o (id ∷ ids) w v =
      let (r, u, e, vu, root, keeps) = retract-IsGone w.store id v in
      let more = swept o id w.retracted_nodes w.errors (r, u) in
      let at : more.store ≡ u = swept-store o id w.retracted_nodes w.errors r u in
      let (w', e', v', all_gone, keeps') =
        retract_each-IsGone o ids more (subst IsValid (sym at) vu) in
      let later = λ (x : NodeId) (g : IsGone (get u x)).
        keeps' x (subst (λ (t : FactumStore p). IsGone (get t x)) (sym at) g) in
      (
        w',
        rw (e, retract_each) e',
        v',
        λ x h. elim h [
          | inl q ↦ later x (subst (λ (y : NodeId). IsGone (get u y)) (sym q) root)
          | inr m ↦ all_gone x m
        ],
        λ x g. later x (keeps x g),
      )

  decided_ok :
      (h : McpHandler p) (r : Result Text Unit × ReviewQueue) (k : McpHandler p → Call p)
      → r.0 ≡ ok tt
      → decided h r k ≡ k (record h { review_queue = r.1 })
  decided_ok h (ok tt, q) k e = refl
  decided_ok h (err why, q) k e = absurd (cc e)

  -- the retractions of an event that is found
  reject_nodes-IsGone :
      (o : Outside p) (h : McpHandler p) (i : ℕ) (e : ReviewEvent)
      → IsValid h.store
      → (j : Json p) × (w : Sweep p) × (reject_nodes o h i (some e)
          ≡ some (ok j, with_store h w.store))
        × IsValid w.store
        × ((x : NodeId) → Elem x e.node_ids → IsGone (get w.store x))
  unfolding reject_nodes
  reject_nodes-IsGone o h i e v =
      let (w, q, vw, gone, _) =
        retract_each-IsGone o e.node_ids
          (record { store = h.store; retracted_nodes = []; errors = [] }) v in
      (rejected_answer o i w, w, ap (swept_answer o h i) q, vw, gone)

  -- In a server with a well-formed store, the rejection of a pending event succeeds. The event is
  -- then read as rejected and no other event has changed, and each node that the event names is
  -- read as retracted, if it is stored at all.
  pub reject_event-IsGone :
      (o : Outside p) (h : McpHandler p) (i : ℕ) (e : ReviewEvent)
      → IsValid h.store
      → Review.get h.review_queue i ≡ some e
      → is_pending e ≡ true
      → (j : Json p) × (h' : McpHandler p) × (reject_event o h i ≡ some (ok j, h'))
        × IsValid h'.store
        × ((k : ℕ)
            → Review.get h'.review_queue k ≡ (
                if eqb i k
                then some (record e { status = rejected })
                else Review.get h.review_queue k))
        × ((x : NodeId) → Elem x e.node_ids → IsGone (get h'.store x))
  unfolding reject_event
  reject_event-IsGone o h i e v found pending =
      let r = reject h.review_queue i in
      let (fine, reads) =
        pending_event-decided h.review_queue i e r (reject-Decides h.review_queue i) found
          pending in
      let h' : McpHandler p = record h { review_queue = r.1 } in
      let e' : ReviewEvent = record e { status = rejected } in
      let (j, w, ran, vw, gone) = reject_nodes-IsGone o h' i e' v in
      let here : Review.get r.1 i ≡ some e' =
        reads i
        ∙ ap (λ (b : Bool). if b then some e' else Review.get h.review_queue i)
            ((eqb_iff i i).1 refl) in
      (
        j,
        with_store h' w.store,
        decided_ok h r _ fine ∙ (ap (reject_nodes o h' i) here ∙ ran),
        vw,
        reads,
        gone,
      )
