-- ===== src/Tests/Data.antt =====
-- A small platform and a small store: `@ACME`, a fact about it, and two facts derived from that
-- one.
use Prim.Native.Nat.{Ordering}
use Prim.Native.Nat.Ordering.{lt, eq, gt}
use factum.Prelude.{
  ℕ, ◌+◌, ◌-◌, ◌*◌, ◌/◌, ◌^◌, Bool, true, false, ◌≡◌, ◌≢◌, ◌↔◌, refl, none, some, List, [], ◌∷◌,
  Text, codes, ltb, eqb, if◌then◌else◌, ℤ, pos, negsuc, ◌≤ℤ◌, arith,
}
use factum.HashMap.{text_key}
use factum.Core.Platform.{Platform}
use factum.Core.Types.{
  NodeId, Node, forever, Provenance, derived, asserted, active, PredicateHead, ent, lit, nil, cons,
  end, predicate, str,
}
use factum.Core.Morphemes.{empty_registry}
use factum.Rt.Store.{FactumStore, new}
use factum.Rt.Store.Write.{insert_batch}
use factum.Rt.Store.Index.{IsValid}
use factum.Rt.Store.Run.{batch, Reachable, start, step, Reachable-IsValid}

abbrev pub compare_ℕ : ℕ → ℕ → Ordering
compare_ℕ a b = if ltb a b then lt else if eqb a b then eq else gt

-- two instants, the earlier one `false`
abbrev pub compare_instants : Bool → Bool → Ordering
compare_instants false false = eq
compare_instants false true = lt
compare_instants true false = gt
compare_instants true true = eq

abbrev pub second_of : Bool → ℤ
second_of false = pos 0
second_of true = pos 1

pub second_of_mono : (a b : Bool) → compare_instants a b ≢ gt → second_of a ≤ℤ second_of b
second_of_mono false false h = omega arith
second_of_mono false true h = omega arith
second_of_mono true false h = absurd (h refl)
second_of_mono true true h = omega arith

pub second_of_min : (a : Bool) → negsuc (2 ^ 63 - 1) ≤ℤ second_of a
second_of_min false = omega arith
second_of_min true = omega arith

pub second_of_max : (a : Bool) → second_of a ≤ℤ pos (2 ^ 63 - 1)
second_of_max false = omega arith
second_of_max true = omega arith

pub eqb_iff : (a b : ℕ) → (eqb a b ≡ true) ↔ (a ≡ b)
eqb_iff a b = ground arith

-- Numbers stand for millionths.
abbrev pub small : Platform
small = record {
  Time = Bool;
  time_cmp = compare_instants;
  timestamp = second_of;
  to_rfc3339 = λ t. codes "1970-01-01T00:00:00+00:00";
  parse_time = λ s. some false;
  timestamp_mono = second_of_mono;
  timestamp_min = second_of_min;
  timestamp_max = second_of_max;
  Date = ℕ;
  date_eq = eqb;
  date_eq_iff = eqb_iff;
  format_date = λ d. codes "2024-01-01";
  parse_date = λ s. some 0;
  midnight = λ d. false;
  F32 = ℕ;
  partial_cmp = λ a b. some (compare_ℕ a b);
  float = λ m k. m * 10 ^ 6 / 10 ^ k;
  format_f32 = λ x. codes "0.5";
  parse_f32 = λ s. some 500000;
  add = λ a b. a + b;
  sub = λ a b. if ltb a b then b - a else a - b;
  mul = λ a b. a * b / 10 ^ 6;
  abs = λ a. a;
  max = λ a b. if ltb a b then b else a;
  min = λ a b. if ltb a b then a else b;
  infinity = 10 ^ 30;
  format2_f32 = λ x. codes "0.50";
}

abbrev pub fact : Text → Text → Provenance → List NodeId → ℕ → Node small
fact i state src deps perm = record {
  id = i;
  predicate =
      predicate (PredicateHead.name (codes "status"))
        (cons (ent (codes "ACME")) (cons (lit (str state)) nil)) end;
  validity = forever;
  provenance = src;
  confidence = 600000;
  authority = 500000;
  permissions = perm;
  deps = deps;
  status = active;
  note = none;
}

abbrev pub source : Node small
source = fact (codes "a") (codes "up") (asserted (codes "bob")) [] 1

abbrev pub derived_fact : Node small
derived_fact = fact (codes "b") (codes "up") (derived (codes "a") (codes "rule")) (codes "a" ∷ []) 1

abbrev pub secret : Node small
secret = fact (codes "c") (codes "down") (asserted (codes "eve")) [] 8

abbrev pub empty : FactumStore small
empty = new empty_registry

abbrev pub facts : List (Node small)
facts = source ∷ derived_fact ∷ secret ∷ []

abbrev pub loaded : FactumStore small
loaded = (insert_batch empty facts).1

abbrev pub reached : Reachable empty_registry loaded
reached = step start (batch empty facts)

abbrev pub loaded-IsValid : IsValid loaded
loaded-IsValid = Reachable-IsValid empty_registry loaded reached
