-- ===== src/HashMap/Laws.antt =====
-- Laws of the maps: a read after a write, in `if` form, and the members of maps of vectors.
use factum.Prelude.{
  Bool, true, ◌≡◌, refl, sym, subst, ◌↔◌, ◌⊎◌, inl, inr, some, List, [], ◌∷◌, ◌++◌, arith,
  if◌then◌else◌, Bool-cases, Elem, Elem-append, Elem-append_left, Elem-append_right,
}
use factum.HashMap.{Eq, ◌==◌, HashMap, get, insert, push, values_at, collect}

module _ {K V : Type 0} ⦃e : Eq K⦄ where
  pub get-insert :
      (k j : K) (v : V) (m : HashMap K V)
      → get j (insert k v m) ≡ (if k == j then some v else get j m)
  unfolding get insert
  get-insert k j v [] = refl
  get-insert k j v ((i, w) ∷ m) =
      ground (arith, e.beq_iff k j, e.beq_iff i k, e.beq_iff i j, get-insert k j v m)

module _ {K V : Type 0} ⦃e : Eq K⦄ where
  pub values_at-push :
      (k j : K) (v : V) (m : HashMap K (List V))
      → values_at j (push k v m) ≡ (if k == j then values_at j m ++ v ∷ [] else values_at j m)
  unfolding values_at push
  values_at-push k j v [] = ground arith
  values_at-push k j v ((i, ws) ∷ m) =
      ground (arith, e.beq_iff k j, e.beq_iff i k, e.beq_iff i j, values_at-push k j v m)

  -- A push adds its value under its key, and nothing else.
  pub Elem-values_at-push :
      (k j : K) (v x : V) (m : HashMap K (List V))
      → Elem x (values_at j (push k v m)) ↔ (Elem x (values_at j m) ⊎ ((k ≡ j) × (x ≡ v)))
  Elem-values_at-push k j v x m = elim (Bool-cases (k == j)) [
    | inl q ↦ rw (values_at-push k j v m) (
        rw q (
          λ h. elim (Elem-append x (values_at j m) (v ∷ []) h) [
            | inl l ↦ inl l
            | inr (inl r) ↦ inr ((e.beq_iff k j).0 q, r)
            | inr (inr r) ↦ absurd r
          ],
          λ h. elim h [
            | inl l ↦ Elem-append_left x (values_at j m) (v ∷ []) l
            | inr r ↦ Elem-append_right x (values_at j m) (v ∷ []) (inl r.1)
          ],
        ))
    | inr q ↦ rw (values_at-push k j v m) (
        rw q
          (λ h. inl h, λ h. elim h [ inl l ↦ l | inr r ↦ absurd (cc (q, (e.beq_iff k j).1 r.0)) ]))
  ]

module _ {K V : Type 0} where
  -- What is collected of one more key.
  pub Elem-collect :
      (p : K → Bool) (j : K) (x : V) (vs : List V) (m : HashMap K (List V))
      → Elem x (collect p ((j, vs) ∷ m)) ↔ (((p j ≡ true) × Elem x vs) ⊎ Elem x (collect p m))
  unfolding collect
  Elem-collect p j x vs m = elim (Bool-cases (p j)) [
    | inl q ↦ rw q (
      λ h. elim (Elem-append x vs (collect p m) h) [ inl l ↦ inl (refl, l) | inr r ↦ inr r ],
      λ h. elim h [
        | inl l ↦ Elem-append_left x vs (collect p m) l.1
        | inr r ↦ Elem-append_right x vs (collect p m) r
      ],
    )
    | inr q ↦ rw q (λ h. inr h, λ h. elim h [ inl l ↦ absurd (cc (l.0)) | inr r ↦ r ])
  ]

module _ {K V : Type 0} ⦃e : Eq K⦄ where
  -- What is collected after a push: the old members, and the new one if its key is selected.
  pub Elem-collect-push :
      (p : K → Bool) (k : K) (v x : V) (m : HashMap K (List V))
      → Elem x (collect p (push k v m)) ↔ (Elem x (collect p m) ⊎ ((p k ≡ true) × (x ≡ v)))
  unfolding push
  Elem-collect-push p k v x [] =
      let c = Elem-collect p k x (v ∷ []) [] in
      (
        λ h. elim (c.0 h) [
          | inl (q, inl r) ↦ inr (q, r)
          | inl (q, inr r) ↦ absurd r
          | inr r ↦ inl r
        ],
        λ h. elim h [ inl l ↦ c.1 (inr l) | inr r ↦ c.1 (inl (r.0, inl r.1)) ],
      )
  Elem-collect-push p k v x ((i, ws) ∷ m) =
      let c = Elem-collect p i x ws m in
      let ih = Elem-collect-push p k v x m in
      let c' = Elem-collect p i x (ws ++ v ∷ []) m in
      let d = Elem-collect p i x ws (push k v m) in
      elim (Bool-cases (i == k)) [
        | inl q ↦ rw q (
          λ h. elim (c'.0 h) [
            | inl (q', l) ↦ elim (Elem-append x ws (v ∷ []) l) [
              | inl old ↦ inl (c.1 (inl (q', old)))
              | inr (inl new) ↦ inr (subst (λ t. p t ≡ true) ((e.beq_iff i k).0 q) q', new)
              | inr (inr r) ↦ absurd r
            ]
            | inr r ↦ inl (c.1 (inr r))
          ],
          λ h. elim h [
            | inl l ↦ elim (c.0 l) [
              | inl (q', old) ↦ c'.1 (inl (q', Elem-append_left x ws (v ∷ []) old))
              | inr r ↦ c'.1 (inr r)
            ]
            | inr (q', new) ↦ c'.1 (
                inl (
                  subst (λ t. p t ≡ true) (sym ((e.beq_iff i k).0 q)) q',
                  Elem-append_right x ws (v ∷ []) (inl new),
                ))
          ],
        )
        | inr q ↦ rw q (
          λ h. elim (d.0 h) [
            | inl l ↦ inl (c.1 (inl l))
            | inr r ↦ elim (ih.0 r) [ inl old ↦ inl (c.1 (inr old)) | inr new ↦ inr new ]
          ],
          λ h. elim h [
            | inl l ↦ elim (c.0 l) [ inl old ↦ d.1 (inl old) | inr r ↦ d.1 (inr (ih.1 (inl r))) ]
            | inr new ↦ d.1 (inr (ih.1 (inr new)))
          ],
        )
      ]
