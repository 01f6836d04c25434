-- ===== src/Core/Types.antt =====
-- crates/factum-core/src/types.rs: the data of a knowledge node. The identifiers (`NodeId`,
-- `EntityId`, `DocId`, `RuleId`, `Principal`) are newtypes over strings.
pub mod Equality
pub mod Display
use factum.Prelude.{
  ℕ, Bool, true, false, ◌&&◌, Option, none, some, List, [], ◌∷◌, ◌++◌, Text, codes, ℤ,
  if◌then◌else◌, Result, ok, err,
}
use factum.Core.Platform.{Platform, f32_le, time_leb, time_ltb}

abbrev pub NodeId : Type 0
NodeId = Text

abbrev pub EntityId : Type 0
EntityId = Text

-- Byte span within a document.
pub record Span : Type 0 where
  pub start : ℕ
  pub end : ℕ

pub record ModelRef : Type 0 where
  pub name : Text
  pub version : Text

pub data Validity (p : Platform) : Type 0 where
  forever : Validity p
  window : p.Time → Option p.Time → Validity p

pub data Provenance : Type 0 where
  verbatim : Text → Span → Provenance
  summary : Text → Span → Provenance
  extracted : Text → Span → ModelRef → Provenance
  derived : NodeId → Text → Provenance
  asserted : Text → Provenance

pub data CoreError (p : Platform) : Type 0 where
  confidence_out_of_range : p.F32 → CoreError p
  authority_out_of_range : p.F32 → CoreError p
  invalid_decimal : Text → CoreError p
  decimal_overflow : CoreError p
  morpheme_not_found : Text → CoreError p
  missing_model_ref : CoreError p

-- `dec m s` is m * 10^(-s); a duration is its nanoseconds.
pub data Literal (p : Platform) : Type 0 where
  dec : ℤ → ℕ → Literal p
  str : Text → Literal p
  date : p.Date → Literal p
  dur : ℕ → Literal p
  bool : Bool → Literal p
  uri : Text → Literal p

pub data PredicateHead : Type 0 where
  id : ℕ → PredicateHead
  name : Text → PredicateHead

-- `Vec<Term>` and `Vec<(SmolStr, Term)>` stand in the block with the terms that hold them.
mutual
  pub data Term (p : Platform) : Type 0 where
    var : Text → Term p
    ent : EntityId → Term p
    lit : Literal p → Term p
    compound : Predicate p → Term p
    list : Terms p → Term p

  pub data Terms (p : Platform) : Type 0 where
    nil : Terms p
    cons : Term p → Terms p → Terms p

  pub data NamedArgs (p : Platform) : Type 0 where
    end : NamedArgs p
    arg : Text → Term p → NamedArgs p → NamedArgs p

  pub data Predicate (p : Platform) : Type 0 where
    predicate : PredicateHead → Terms p → NamedArgs p → Predicate p

pub data NodeStatus : Type 0 where
  active retracted pending : NodeStatus

pub record Node (p : Platform) : Type 0 where
  pub id : NodeId
  pub predicate : Predicate p
  pub validity : Validity p
  pub provenance : Provenance
  pub confidence : p.F32
  pub authority : p.F32
  pub permissions : ℕ
  pub deps : List NodeId
  pub status : NodeStatus
  pub note : Option Text

-- `matches!(n.provenance, Provenance::Derived { .. })`
abbrev pub is_derived : Provenance → Bool
is_derived (derived from rule) = true
is_derived _ = false

-- `status == NodeStatus::Active`
abbrev pub is_active : NodeStatus → Bool
is_active active = true
is_active _ = false

-- `status == NodeStatus::Retracted`
abbrev pub is_retracted : NodeStatus → Bool
is_retracted retracted = true
is_retracted _ = false

module _ {p : Platform} where
  abbrev pub head_of : Predicate p → PredicateHead
  head_of (Predicate.predicate h ts ns) = h

  abbrev pub args_of : Predicate p → Terms p
  args_of (Predicate.predicate h ts ns) = ts

  abbrev pub named_of : Predicate p → NamedArgs p
  named_of (Predicate.predicate h ts ns) = ns

  -- `Validity::is_valid_at`
  unfoldable pub is_valid_at : Validity p → p.Time → Bool
  is_valid_at forever t = true
  is_valid_at (window from none) t = time_leb p from t
  is_valid_at (window from (some u)) t = time_leb p from t && time_ltb p t u

  -- `Node::is_active_valid_at`
  unfoldable pub is_active_valid_at : Node p → p.Time → Bool
  is_active_valid_at n t = is_active n.status && is_valid_at n.validity t

  -- `Node::new`
  unfoldable pub new_node : NodeId → Predicate p → Node p
  new_node i q = record {
    id = i;
    predicate = q;
    validity = forever;
    provenance = asserted (codes "system");
    confidence = p.float 60 2;
    authority = p.float 5 1;
    permissions = 1;
    deps = [];
    status = active;
    note = none;
  }

  -- the builders of a node
  abbrev pub with_validity : Validity p → Node p → Node p
  with_validity v n = record n { validity = v }

  abbrev pub with_provenance : Provenance → Node p → Node p
  with_provenance v n = record n { provenance = v }

  abbrev pub with_confidence : p.F32 → Node p → Node p
  with_confidence c n = record n { confidence = c }

  abbrev pub with_authority : p.F32 → Node p → Node p
  with_authority a n = record n { authority = a }

  abbrev pub with_permissions : ℕ → Node p → Node p
  with_permissions t n = record n { permissions = t }

  abbrev pub with_dep : NodeId → Node p → Node p
  with_dep d n = record n { deps = n.deps ++ d ∷ [] }

  abbrev pub with_note : Text → Node p → Node p
  with_note t n = record n { note = some t }

-- `(0.0..=1.0).contains(&v)`
abbrev pub in_unit : (p : Platform) → p.F32 → Bool
in_unit p v = f32_le p (p.float 0 0) v && f32_le p v (p.float 1 0)

-- `Confidence::new`
unfoldable pub confidence_new : (p : Platform) → p.F32 → Result (CoreError p) p.F32
confidence_new p v = if in_unit p v then ok v else err (confidence_out_of_range v)

-- `Authority::new`
unfoldable pub authority_new : (p : Platform) → p.F32 → Result (CoreError p) p.F32
authority_new p v = if in_unit p v then ok v else err (authority_out_of_range v)

-- `Confidence::default`, `Authority::default`, `Provenance::default`
abbrev pub default_confidence : (p : Platform) → p.F32
default_confidence p = p.float 60 2

abbrev pub default_authority : (p : Platform) → p.F32
default_authority p = p.float 5 1

abbrev pub default_provenance : Provenance
default_provenance = asserted (codes "system")
