-- ===== src/Permissions/Floor.antt =====
-- The charter of the role lists: the member floor, the registered domains, and the texts of roles.
use tinyland_auth.Base.{
  true, String, ◌≡◌, ◌≤◌, refl, arith, includes, includes_iff, In, all, all_iff, is_some,
}
use tinyland_auth.Base.Assoc.{get}
use tinyland_auth.Roles.{AdminRole, super_admin, member, role_hierarchy}
use tinyland_auth.Types.{AdminUser}
use tinyland_auth.Permissions.Catalog.{
  role_permissions, member_self_service_core, permission_feature_domain,
}
use tinyland_auth.Permissions.Check.{has_permission}
use tinyland_auth.Permissions.Grants.{has_permission_iff, by_role, role_permissions_not_own}

core_in_role :
    (r : AdminRole)
    → role_hierarchy member ≤ role_hierarchy r
    → all (λ p. includes p (role_permissions r)) member_self_service_core ≡ true
unfolding role_hierarchy role_permissions member_self_service_core
core_in_role super_admin h = refl
core_in_role AdminRole.viewer h = absurd (omega arith)
core_in_role _ h = refl

-- Every user whose role ranks at or above member holds the whole member self-service core.
pub member_floor :
    (user : AdminUser) (p : String)
    → role_hierarchy member ≤ role_hierarchy user.role
    → In p member_self_service_core
    → has_permission user p ≡ true
member_floor user p h m =
    let listed =
      (includes_iff p _).0
        ((all_iff _ member_self_service_core).0 (core_in_role user.role h) p m) in
    (has_permission_iff user p).1 (by_role (role_permissions_not_own user.role p listed) listed)

registered :
    (r : AdminRole)
    → all (λ p. is_some (get p permission_feature_domain)) (role_permissions r) ≡ true
unfolding role_permissions get
registered super_admin = refl
registered _ = refl
