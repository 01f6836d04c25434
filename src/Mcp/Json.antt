-- ===== src/Mcp/Json.antt =====
-- JSON values, as `serde_json::Value` has them, and how crates/factum-mcp builds and reads them.
use factum.Prelude.{ℕ, Bool, Option, none, some, List, [], ◌∷◌, Text, text_eq, if◌then◌else◌, ℤ}
use factum.Core.Platform.{Platform}

-- Numbers: an unsigned one, a signed one and an f32.
mutual
  pub data Json (p : Platform) : Type 0 where
    null : Json p
    bool : Bool → Json p
    number : ℕ → Json p
    signed : ℤ → Json p
    float : p.F32 → Json p
    string : Text → Json p
    array : Items p → Json p
    object : Fields p → Json p

  pub data Items (p : Platform) : Type 0 where
    nil : Items p
    item : Json p → Items p → Items p

  pub data Fields (p : Platform) : Type 0 where
    end : Fields p
    field : Text → Json p → Fields p → Fields p

module _ {p : Platform} where
  abbrev pub items : List (Json p) → Items p
  items [] = nil
  items (j ∷ js) = item j (items js)

  abbrev pub arr : List (Json p) → Json p
  arr js = array (items js)

  abbrev pub fields : List (Text × Json p) → Fields p
  fields [] = end
  fields ((k, j) ∷ r) = field k j (fields r)

  -- `json!({..})`
  abbrev pub obj : List (Text × Json p) → Json p
  obj fs = object (fields fs)

  abbrev string_items : List Text → Items p
  string_items [] = nil
  string_items (s ∷ rest) = item (string s) (string_items rest)

  abbrev pub strings : List Text → Json p
  strings ss = array (string_items ss)

  unfoldable pub get_field : Text → Fields p → Option (Json p)
  get_field k end = none
  get_field k (field j v fs) = let rest = get_field k fs in if text_eq j k then some v else rest

  -- `get(key)`: none on what is no object
  unfoldable pub get : Text → Json p → Option (Json p)
  unfolding get_field
  get k (object fs) = get_field k fs
  get k _ = none

  -- `get(key).and_then(as_str)`
  unfoldable pub get_str : Text → Json p → Option Text
  unfolding get
  get_str k j = elim (get k j) [ some (string s) ↦ some s | _ ↦ none ]

  -- `get(key).and_then(as_u64)`
  unfoldable pub get_u64 : Text → Json p → Option ℕ
  unfolding get
  get_u64 k j = elim (get k j) [ some (number n) ↦ some n | _ ↦ none ]
