-- ===== src/Core/PermissionTag.antt =====
-- `PermissionTag` of crates/factum-core/src/types.rs. A tag and a role mask are u32 values.
use Prim.Native.Nat.{bit_and, bit_or}
use factum.Prelude.{ℕ, Bool, not, eqb}

abbrev pub public : ℕ
public = 1

abbrev pub internal : ℕ
internal = 2

abbrev pub confidential : ℕ
confidential = 4

abbrev pub restricted : ℕ
restricted = 8

-- `(self.0 & role_mask) != 0`
unfoldable pub grants : ℕ → ℕ → Bool
grants tag role_mask = not (eqb (bit_and tag role_mask) 0)

unfoldable pub union : ℕ → ℕ → ℕ
union a b = bit_or a b
