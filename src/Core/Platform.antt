-- ===== src/Core/Platform.antt =====
-- What the code takes from outside: the instants and dates of the crate `chrono`, and `f32`.
-- A value of `Platform` is a parameter of the whole model. Its laws are documented behaviour.
use Prim.Native.Nat.{Ordering}
use Prim.Native.Nat.Ordering.{lt, eq, gt}
use factum.Prelude.{
  ℕ, Bool, true, false, ◌≡◌, ◌≢◌, ◌↔◌, Option, some, Text, ℤ, pos, negsuc, ◌≤ℤ◌, ◌^◌, ◌-◌,
}

pub record Platform : Type 1 where
  -- `DateTime<Utc>`: its total order, and the whole seconds since the epoch
  pub Time : Type 0
  pub time_cmp : Time → Time → Ordering
  pub timestamp : Time → ℤ
  -- `to_rfc3339`
  pub to_rfc3339 : Time → Text
  -- `str::parse::<DateTime<Utc>>`
  pub parse_time : Text → Option Time
  -- a later instant has no earlier second
  pub timestamp_mono : (a b : Time) → time_cmp a b ≢ gt → timestamp a ≤ℤ timestamp b
  -- the seconds are an i64
  pub timestamp_min : (a : Time) → negsuc (2 ^ 63 - 1) ≤ℤ timestamp a
  pub timestamp_max : (a : Time) → timestamp a ≤ℤ pos (2 ^ 63 - 1)
  -- `NaiveDate`: its equality, and the format "%Y-%m-%d"
  pub Date : Type 0
  pub date_eq : Date → Date → Bool
  pub date_eq_iff : (a b : Date) → (date_eq a b ≡ true) ↔ (a ≡ b)
  pub format_date : Date → Text
  -- `parse_from_str` with the same format, and midnight of the date in UTC
  pub parse_date : Text → Option Date
  pub midnight : Date → Time
  -- `f32`: `partial_cmp` (`none` beside a NaN), the arithmetic, and `float m k` for m * 10^(-k)
  pub F32 : Type 0
  pub partial_cmp : F32 → F32 → Option Ordering
  pub float : ℕ → ℕ → F32
  -- the form that `{}` gives
  pub format_f32 : F32 → Text
  -- `str::parse::<f32>`
  pub parse_f32 : Text → Option F32
  pub add : F32 → F32 → F32
  pub sub : F32 → F32 → F32
  pub mul : F32 → F32 → F32
  pub abs : F32 → F32
  pub max : F32 → F32 → F32
  pub min : F32 → F32 → F32
  -- `f32::INFINITY`
  pub infinity : F32
  -- the form that `{:.2}` gives
  pub format2_f32 : F32 → Text

-- `a < b` of f32: false beside a NaN.
abbrev pub f32_lt : (p : Platform) → p.F32 → p.F32 → Bool
f32_lt p a b = elim (p.partial_cmp a b) [ some lt ↦ true | _ ↦ false ]

-- `a <= b` of f32: false beside a NaN.
abbrev pub f32_le : (p : Platform) → p.F32 → p.F32 → Bool
f32_le p a b = elim (p.partial_cmp a b) [ some lt ↦ true | some eq ↦ true | _ ↦ false ]

-- `a <= b` of DateTime<Utc>
abbrev pub time_leb : (p : Platform) → p.Time → p.Time → Bool
time_leb p a b = elim (p.time_cmp a b) [ gt ↦ false | _ ↦ true ]

-- `a < b` of DateTime<Utc>
abbrev pub time_ltb : (p : Platform) → p.Time → p.Time → Bool
time_ltb p a b = elim (p.time_cmp a b) [ lt ↦ true | _ ↦ false ]

-- `a == b` of DateTime<Utc>
abbrev pub time_eq : (p : Platform) → p.Time → p.Time → Bool
time_eq p a b = elim (p.time_cmp a b) [ eq ↦ true | _ ↦ false ]
