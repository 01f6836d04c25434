-- ===== src/HashMap.antt =====
-- The standard library's maps, as association lists: `HashMap` and `AHashMap` of storage.rs,
-- store.rs and arbitration.rs, and the `BTreeMap` of store.rs. A map here is in the order in which
-- its keys first came; the real order of a `HashMap` is not specified.
pub mod Laws
use factum.Prelude.{
  Bool, true, ◌≡◌, ◌↔◌, Option, none, some, List, [], ◌∷◌, ◌++◌, Text, text_eq, text_eq_iff,
  if◌then◌else◌,
}

-- `K: Eq`, with what `Eq` asks of `==`.
pub record Eq (K : Type 0) : Type 0 where
  pub beq : K → K → Bool
  pub beq_iff : (a b : K) → (beq a b ≡ true) ↔ (a ≡ b)

infix 50 ◌==◌
abbrev pub ◌==◌ : {K : Type 0} ⦃e : Eq K⦄ → K → K → Bool
◌==◌ ⦃e⦄ = e.beq

instance abbrev pub text_key : Eq Text
text_key = record { beq = text_eq; beq_iff = text_eq_iff }

abbrev pub HashMap : Type 0 → Type 0 → Type 0
HashMap K V = List (K × V)

module _ {K V : Type 0} ⦃e : Eq K⦄ where
  -- `get`
  unfoldable pub get : K → HashMap K V → Option V
  get k [] = none
  get k ((j, v) ∷ m) = if j == k then some v else get k m

  -- `insert`: the value of a key that is there is replaced.
  unfoldable pub insert : K → V → HashMap K V → HashMap K V
  insert k v [] = (k, v) ∷ []
  insert k v ((j, w) ∷ m) = if j == k then (k, v) ∷ m else (j, w) ∷ insert k v m

  -- `remove`
  unfoldable pub remove : K → HashMap K V → HashMap K V
  remove k [] = []
  remove k ((j, v) ∷ m) = let rest = remove k m in if j == k then rest else (j, v) ∷ rest

module _ {K V : Type 0} ⦃e : Eq K⦄ where
  -- `entry(k).or_default().push(v)` on a map of vectors
  unfoldable pub push : K → V → HashMap K (List V) → HashMap K (List V)
  push k v [] = (k, v ∷ []) ∷ []
  push k v ((j, vs) ∷ m) = if j == k then (j, vs ++ v ∷ []) ∷ m else (j, vs) ∷ push k v m

  -- What a map of vectors holds under a key: `get(k).cloned().unwrap_or_default()`.
  unfoldable pub values_at : K → HashMap K (List V) → List V
  values_at k [] = []
  values_at k ((j, vs) ∷ m) = if j == k then vs else values_at k m

module _ {K V : Type 0} where
  -- The vectors of the keys that satisfy `p`, one after the other:
  -- `for (key, ids) in map { if p(key) { result.extend(ids) } }`.
  unfoldable pub collect : (K → Bool) → HashMap K (List V) → List V
  collect p [] = []
  collect p ((j, vs) ∷ m) = let rest = collect p m in if p j then vs ++ rest else rest
