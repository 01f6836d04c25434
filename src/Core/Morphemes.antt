-- ===== src/Core/Morphemes.antt =====
-- crates/factum-core/src/morphemes.rs: the registry of predicate names. The table of seeds
-- (`seed_morphemes`) is data and is not copied here; any registry is a parameter.
use factum.Prelude.{
  ℕ, ◌%◌, ◌^◌, Option, none, some, List, [], ◌∷◌, ◌++◌, Text, codes, length, get_elem?, Bool, true,
  false,
}
use factum.HashMap
use factum.HashMap.{HashMap, text_key}

pub data MorphemeKind : Type 0 where
  entity relation quantifier modal temporal status action attribute classification : MorphemeKind

-- `{:?}` of a kind
unfoldable pub debug_kind : MorphemeKind → Text
debug_kind entity = codes "Entity"
debug_kind relation = codes "Relation"
debug_kind quantifier = codes "Quantifier"
debug_kind modal = codes "Modal"
debug_kind temporal = codes "Temporal"
debug_kind status = codes "Status"
debug_kind action = codes "Action"
debug_kind attribute = codes "Attribute"
debug_kind classification = codes "Classification"

unfoldable pub kind_eq : MorphemeKind → MorphemeKind → Bool
kind_eq entity entity = true
kind_eq relation relation = true
kind_eq quantifier quantifier = true
kind_eq modal modal = true
kind_eq temporal temporal = true
kind_eq status status = true
kind_eq action action = true
kind_eq attribute attribute = true
kind_eq classification classification = true
kind_eq _ _ = false

pub data ProposalStatus : Type 0 where
  draft review adopted : ProposalStatus

-- `signature` is the raw text of its `FnType`.
pub record MorphemeDef : Type 0 where
  pub id : ℕ
  pub name : Text
  pub kind : MorphemeKind
  pub signature : Text
  pub doc : Text
  pub status : ProposalStatus

pub record MorphemeRegistry : Type 0 where
  pub by_name : HashMap Text ℕ
  pub by_id : List MorphemeDef

-- `MorphemeRegistry::new`
abbrev pub empty_registry : MorphemeRegistry
empty_registry = record { by_name = []; by_id = [] }

-- `register`: the registry after it, and the identifier. The second look under the write lock
-- finds what the first found.
unfoldable pub register : MorphemeRegistry → MorphemeDef → MorphemeRegistry × ℕ
register r d = elim (HashMap.get d.name r.by_name) [
  | some i ↦ (r, i)
  | none ↦
      let i = length r.by_id % 2 ^ 32 in
      (
        record {
          by_name = HashMap.insert d.name i r.by_name;
          by_id = r.by_id ++ (record d { id = i } ∷ []);
        },
        i,
      )
]

-- `register_name`
pub register_name : MorphemeRegistry → Text → MorphemeKind → MorphemeRegistry × ℕ
unfolding register
register_name r n k =
    register r (record { id = 0; name = n; kind = k; signature = []; doc = []; status = draft })

unfoldable pub lookup_id : MorphemeRegistry → ℕ → Option MorphemeDef
lookup_id r i = get_elem? r.by_id i

unfoldable pub resolve : MorphemeRegistry → Text → Option ℕ
resolve r n = HashMap.get n r.by_name

unfoldable pub lookup : MorphemeRegistry → Text → Option MorphemeDef
unfolding resolve lookup_id
lookup r n = elim (resolve r n) [ none ↦ none | some i ↦ lookup_id r i ]
