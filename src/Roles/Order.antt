-- ===== src/Roles/Order.antt =====
-- Reading roles from text, and the order in which roles manage one another.
use tinyland_auth.Base.{false, String, none, some, ◌==◌, ◌≡◌, refl, ◌↔◌, arith, find-some, eq_iff}
use tinyland_auth.Roles.{
  AdminRole, role_name, admin_roles, role_hierarchy, is_valid_admin_role, parse_role,
  role_management_order,
}

-- A role's own text names it.
pub parse_role-role_name : (r : AdminRole) → parse_role (role_name r) ≡ some r
unfolding parse_role
parse_role-role_name AdminRole.super_admin = refl
parse_role-role_name _ = refl

-- A text that names a role is that role's text.
pub role_name-parse_role : (s : String) (r : AdminRole) → parse_role s ≡ some r → s ≡ role_name r
unfolding parse_role
role_name-parse_role s r h =
    (eq_iff s (role_name r)).0 (find-some (λ t. s == role_name t) r admin_roles h).1

pub is_valid_admin_role_lem : (s : String) → (is_valid_admin_role s ≡ false) ↔ (parse_role s ≡ none)
unfolding is_valid_admin_role parse_role
is_valid_admin_role_lem s = ground arith

pub role_hierarchy_inj : (r s : AdminRole) → role_hierarchy r ≡ role_hierarchy s → r ≡ s
unfolding role_hierarchy
role_hierarchy_inj r s h = ground arith

-- The management order lists every role once, from the highest rank to the lowest.
role_management_order_lem : role_management_order ≡ admin_roles
unfolding role_management_order
role_management_order_lem = refl
