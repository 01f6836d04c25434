-- ===== src/Rt/Permission.antt =====
-- crates/factum-rt/src/permission.rs: a principal and its role mask, a u32.
use Prim.Native.Nat.{bit_or}
use factum.Prelude.{ℕ, Bool, Text, codes}
use factum.Core.PermissionTag

pub record PermissionContext : Type 0 where
  pub principal : Text
  pub role_mask : ℕ

unfoldable pub public : PermissionContext
public = record { principal = codes "anonymous"; role_mask = PermissionTag.public }

unfoldable pub internal : Text → PermissionContext
internal who = record {
  principal = who;
  role_mask = bit_or PermissionTag.public PermissionTag.internal;
}

unfoldable pub confidential : Text → PermissionContext
confidential who = record {
  principal = who;
  role_mask =
      bit_or (bit_or PermissionTag.public PermissionTag.internal) PermissionTag.confidential;
}

unfoldable pub admin : Text → PermissionContext
admin who = record { principal = who; role_mask = 0xFFFFFFFF }

unfoldable pub grants : PermissionContext → ℕ → Bool
unfolding PermissionTag.grants
grants c tag = PermissionTag.grants tag c.role_mask

unfoldable pub with_role : PermissionContext → ℕ → PermissionContext
with_role c role = record c { role_mask = bit_or c.role_mask role }
