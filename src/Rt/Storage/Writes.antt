-- ===== src/Rt/Storage/Writes.antt =====
-- What a batch of insertions does to the in-memory backend: it succeeds, writes its nodes, and adds
-- its index entries and nothing else.
use factum.Prelude.{
  true, ◌≡◌, refl, ◌↔◌, ◌⊎◌, inl, inr, some, List, [], ◌∷◌, ◌++◌, Text, starts_with, arith,
  if◌then◌else◌, Bool-cases, ok, Elem, All, subst, sym,
}
use factum.HashMap
use factum.HashMap.{HashMap, ◌==◌, text_key}
use factum.HashMap.Laws.{get-insert, Elem-collect-push}
use factum.Core.Platform.{Platform}
use factum.Core.Types.{NodeId, Node}
use factum.Rt.Storage.{
  Cf, cf_eq, cf_eq_iff, cf_key, WriteOp, put_node, delete_node, put_index, delete_index,
  encode_index_prefix, InMemoryBackend, get_index_map, index_of, scan, put_index_in, apply_op,
  batch_write,
}

module _ {p : Platform} where
  -- a write of a node, or of an entry in one of the four index families
  abbrev pub IsInsertion : WriteOp p → Type 0
  IsInsertion (put_node n) = Unit
  IsInsertion (put_index cf key id) = get_index_map cf ≡ some cf
  IsInsertion (delete_node id) = ⊥
  IsInsertion (delete_index cf key id) = ⊥

  -- the node map after the node writes of a batch
  abbrev pub with_nodes : List (WriteOp p) → HashMap NodeId (Node p) → HashMap NodeId (Node p)
  with_nodes [] m = m
  with_nodes (put_node n ∷ ops) m = with_nodes ops (HashMap.insert n.id n m)
  with_nodes (_ ∷ ops) m = with_nodes ops m

  -- the batch adds `x` to what a scan of `cf` for `key` finds
  abbrev pub Adds : List (WriteOp p) → Cf → Text → NodeId → Type 0
  Adds [] cf key x = ⊥
  Adds (put_index c k id ∷ ops) cf key x =
      ((c ≡ cf) × (starts_with k (encode_index_prefix key) ≡ true) × (x ≡ id)) ⊎ Adds ops cf key x
  Adds (_ ∷ ops) cf key x = Adds ops cf key x

  pub scan-eq-collect :
      (b : InMemoryBackend p) (cf : Cf) (key : Text)
      → scan b cf key
        ≡ HashMap.collect (λ k. starts_with k (encode_index_prefix key)) (index_of b cf)
  unfolding scan index_of HashMap.collect
  scan-eq-collect b cf key = ground arith

  -- `put_index` on a known family
  abbrev put_in : InMemoryBackend p → Cf → Text → NodeId → InMemoryBackend p
  put_in b cf key id = record b {
    indices = HashMap.insert cf (HashMap.push key id (index_of b cf)) b.indices;
  }

  index_of-put_in :
      (b : InMemoryBackend p) (c cf : Cf) (key : Text) (id : NodeId)
      → index_of (put_in b c key id) cf
        ≡ (if cf_eq c cf then HashMap.push key id (index_of b c) else index_of b cf)
  unfolding index_of
  index_of-put_in b c cf key id =
      ground (arith, get-insert c cf (HashMap.push key id (index_of b c)) b.indices)

  Elem-scan-put_in :
      (b : InMemoryBackend p) (c cf : Cf) (k key : Text) (id x : NodeId)
      → Elem x (scan (put_in b c k id) cf key) ↔ (
          Elem x (scan b cf key)
          ⊎ ((c ≡ cf) × (starts_with k (encode_index_prefix key) ≡ true) × (x ≡ id)))
  Elem-scan-put_in b c cf k key id x =
      rw
        (
          scan-eq-collect (put_in b c k id) cf key,
          scan-eq-collect b cf key,
          index_of-put_in b c cf k id,
        )
        (elim (Bool-cases (cf_eq c cf)) [
          | inl q ↦ rw q (
              let e = (cf_eq_iff c cf).0 q in
              let l =
                Elem-collect-push (λ j. starts_with j (encode_index_prefix key)) k id x
                  (index_of b c) in
              (
                λ h. elim (l.0 h) [
                  | inl old ↦ inl (
                      subst
                        (λ d. Elem x (
                          HashMap.collect (λ j. starts_with j (encode_index_prefix key))
                            (index_of b d)))
                        e old)
                  | inr new ↦ inr (e, new.0, new.1)
                ],
                λ h. l.1 (elim h [
                  | inl old ↦ inl (
                      subst
                        (λ d. Elem x (
                          HashMap.collect (λ j. starts_with j (encode_index_prefix key))
                            (index_of b d)))
                        (sym e) old)
                  | inr new ↦ inr (new.1, new.2)
                ]),
              ))
          | inr q ↦ rw q (
            λ h. inl h,
            λ h. elim h [ inl old ↦ old | inr new ↦ absurd (cc (q, (cf_eq_iff c cf).1 new.0)) ],
          )
        ])

  apply_op-put_index :
      (b : InMemoryBackend p) (cf : Cf) (key : Text) (id : NodeId)
      → get_index_map cf ≡ some cf
      → apply_op b (put_index cf key id) ≡ ok (put_in b cf key id)
  unfolding apply_op
  apply_op-put_index b cf key id h = rw (h, put_index_in)

  -- `put_node`
  abbrev put_node_to : InMemoryBackend p → Node p → InMemoryBackend p
  put_node_to b n = record b { node_map = HashMap.insert n.id n b.node_map }

  batch_write-put_node :
      (b : InMemoryBackend p) (n : Node p) (ops : List (WriteOp p))
      → batch_write b (put_node n ∷ ops) ≡ batch_write (put_node_to b n) ops
  unfolding batch_write apply_op
  batch_write-put_node b n ops = refl

  batch_write-put_index :
      (b : InMemoryBackend p) (cf : Cf) (key : Text) (id : NodeId) (ops : List (WriteOp p))
      → get_index_map cf ≡ some cf
      → batch_write b (put_index cf key id ∷ ops) ≡ batch_write (put_in b cf key id) ops
  unfolding batch_write
  batch_write-put_index b cf key id ops h = rw (apply_op-put_index b cf key id h, batch_write)

  scan-put_node_to :
      (b : InMemoryBackend p) (n : Node p) (cf : Cf) (key : Text)
      → scan (put_node_to b n) cf key ≡ scan b cf key
  unfolding scan
  scan-put_node_to b n cf key = refl

  -- A batch of insertions succeeds.
  pub batch_write_ok :
      (ops : List (WriteOp p)) (b : InMemoryBackend p)
      → All IsInsertion ops
      → (batch_write b ops).0 ≡ ok tt
  batch_write_ok [] b h = unfold batch_write in refl
  batch_write_ok (put_node n ∷ ops) b h =
      rw (batch_write-put_node b n ops) (batch_write_ok ops (put_node_to b n) h.1)
  batch_write_ok (put_index cf key id ∷ ops) b h =
      rw (batch_write-put_index b cf key id ops h.0) (batch_write_ok ops (put_in b cf key id) h.1)
  batch_write_ok (delete_node id ∷ ops) b h = absurd h.0
  batch_write_ok (delete_index cf key id ∷ ops) b h = absurd h.0

  -- It writes its nodes.
  pub node_map-batch_write :
      (ops : List (WriteOp p)) (b : InMemoryBackend p)
      → All IsInsertion ops
      → (batch_write b ops).1.node_map ≡ with_nodes ops b.node_map
  node_map-batch_write [] b h = unfold batch_write in refl
  node_map-batch_write (put_node n ∷ ops) b h =
      rw (batch_write-put_node b n ops) (node_map-batch_write ops (put_node_to b n) h.1)
  node_map-batch_write (put_index cf key id ∷ ops) b h =
      rw (batch_write-put_index b cf key id ops h.0)
        (node_map-batch_write ops (put_in b cf key id) h.1)
  node_map-batch_write (delete_node id ∷ ops) b h = absurd h.0
  node_map-batch_write (delete_index cf key id ∷ ops) b h = absurd h.0

  -- A scan afterwards finds what it found before and what the batch adds.
  pub Elem-scan-batch_write :
      (ops : List (WriteOp p)) (b : InMemoryBackend p) (cf : Cf) (key : Text) (x : NodeId)
      → All IsInsertion ops
      → Elem x (scan (batch_write b ops).1 cf key) ↔ (Elem x (scan b cf key) ⊎ Adds ops cf key x)
  Elem-scan-batch_write [] b cf key x h =
      unfold batch_write in (λ m. inl m, λ m. elim m [ inl old ↦ old | inr new ↦ absurd new ])
  Elem-scan-batch_write (put_node n ∷ ops) b cf key x h = rw (batch_write-put_node b n ops) (
      rw (scan-put_node_to b n cf key) at
        (Elem-scan-batch_write ops (put_node_to b n) cf key x h.1))
  Elem-scan-batch_write (put_index c k id ∷ ops) b cf key x h =
      rw (batch_write-put_index b c k id ops h.0) (
        let ih = Elem-scan-batch_write ops (put_in b c k id) cf key x h.1 in
        let one = Elem-scan-put_in b c cf k key id x in
        (
          λ m. elim (ih.0 m) [
            | inl m' ↦ elim (one.0 m') [ inl old ↦ inl old | inr new ↦ inr (inl new) ]
            | inr later ↦ inr (inr later)
          ],
          λ m. ih.1 (elim m [
            | inl old ↦ inl (one.1 (inl old))
            | inr (inl new) ↦ inl (one.1 (inr new))
            | inr (inr later) ↦ inr later
          ]),
        ))
  Elem-scan-batch_write (delete_node id ∷ ops) b cf key x h = absurd h.0
  Elem-scan-batch_write (delete_index cf' k id ∷ ops) b cf key x h = absurd h.0

  -- an entry of one of the four index families
  abbrev pub IsEntry : WriteOp p → Type 0
  IsEntry (put_index cf key id) = get_index_map cf ≡ some cf
  IsEntry _ = ⊥

  pub IsEntry-IsInsertion : (ops : List (WriteOp p)) → All IsEntry ops → All IsInsertion ops
  IsEntry-IsInsertion [] h = tt
  IsEntry-IsInsertion (put_index cf key id ∷ ops) h = (h.0, IsEntry-IsInsertion ops h.1)
  IsEntry-IsInsertion (put_node n ∷ ops) h = absurd h.0
  IsEntry-IsInsertion (delete_node id ∷ ops) h = absurd h.0
  IsEntry-IsInsertion (delete_index cf key id ∷ ops) h = absurd h.0

  -- entries write no node
  pub with_nodes-entries :
      (ops : List (WriteOp p)) (m : HashMap NodeId (Node p))
      → All IsEntry ops
      → with_nodes ops m ≡ m
  with_nodes-entries [] m h = refl
  with_nodes-entries (put_index cf key id ∷ ops) m h = with_nodes-entries ops m h.1
  with_nodes-entries (put_node n ∷ ops) m h = absurd h.0
  with_nodes-entries (delete_node id ∷ ops) m h = absurd h.0
  with_nodes-entries (delete_index cf key id ∷ ops) m h = absurd h.0

  pub Adds-append :
      (xs ys : List (WriteOp p)) (cf : Cf) (key : Text) (x : NodeId)
      → Adds (xs ++ ys) cf key x ↔ (Adds xs cf key x ⊎ Adds ys cf key x)
  Adds-append [] ys cf key x = (λ h. inr h, λ h. elim h [ inl l ↦ absurd l | inr r ↦ r ])
  Adds-append (put_index c k id ∷ xs) ys cf key x =
      let ih = Adds-append xs ys cf key x in
      (
        λ h. elim h [
          | inl new ↦ inl (inl new)
          | inr later ↦ elim (ih.0 later) [ inl l ↦ inl (inr l) | inr r ↦ inr r ]
        ],
        λ h. elim h [
          | inl (inl new) ↦ inl new
          | inl (inr l) ↦ inr (ih.1 (inl l))
          | inr r ↦ inr (ih.1 (inr r))
        ],
      )
  Adds-append (_ ∷ xs) ys cf key x = Adds-append xs ys cf key x

  pub batch_write-append :
      (xs ys : List (WriteOp p)) (b : InMemoryBackend p)
      → All IsInsertion xs
      → batch_write b (xs ++ ys) ≡ batch_write (batch_write b xs).1 ys
  batch_write-append [] ys b h = unfold batch_write in refl
  batch_write-append (put_node n ∷ xs) ys b h =
      rw (batch_write-put_node b n (xs ++ ys), batch_write-put_node b n xs)
        (batch_write-append xs ys (put_node_to b n) h.1)
  batch_write-append (put_index cf key id ∷ xs) ys b h =
      rw
        (batch_write-put_index b cf key id (xs ++ ys) h.0, batch_write-put_index b cf key id xs h.0)
        (batch_write-append xs ys (put_in b cf key id) h.1)
  batch_write-append (delete_node id ∷ xs) ys b h = absurd h.0
  batch_write-append (delete_index cf key id ∷ xs) ys b h = absurd h.0
