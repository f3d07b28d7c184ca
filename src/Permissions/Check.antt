-- ===== src/Permissions/Check.antt =====
-- What a user may do: src/core/permissions/index.ts.
use tinyland_auth.Base.{
  Bool, true, false, String, List, [], ◌∷◌, ◌++◌, none, some, concat, includes, any, all, not,
  filter, Result, throw_if, if◌then◌else◌, ltb,
}
use tinyland_auth.Roles.{AdminRole, super_admin, parse_role, role_name, role_hierarchy}
use tinyland_auth.Permissions.Catalog.{
  role_permissions, permissions, explicit_user_permissions, admin_access,
}
use tinyland_auth.Permissions.Predicates.{normalize_role}
use tinyland_auth.Types.{AdminUser}

-- `getRolePermissions`, of a role's text
unfoldable pub get_role_permissions : String → List String
unfolding parse_role role_permissions
get_role_permissions role = elim (parse_role role) [
  | none ↦ admin_access ∷ []
  | some r ↦ role_permissions r
]

-- `user.permissions || []`
abbrev pub own_grants : AdminUser → List String
own_grants user = elim user.permissions [ none ↦ [] | some ps ↦ ps ]

abbrev pub is_super_admin : AdminRole → Bool
is_super_admin super_admin = true
is_super_admin _ = false

-- `hasPermission`
unfoldable pub has_permission : AdminUser → String → Bool
unfolding get_role_permissions role_name
has_permission user permission =
    if includes permission explicit_user_permissions
    then includes permission (own_grants user)
    else if is_super_admin user.role
    then true
    else if includes permission (own_grants user)
    then true
    else includes permission (get_role_permissions (role_name user.role))

-- `hasAnyPermission`
unfoldable pub has_any_permission : AdminUser → List String → Bool
has_any_permission user = any (λ p. has_permission user p)

-- `hasAllPermissions`
unfoldable pub has_all_permissions : AdminUser → List String → Bool
has_all_permissions user = all (λ p. has_permission user p)

-- `permissions.join(', ')`
abbrev pub join : List String → String
join [] = ""
join (p ∷ []) = p
join (p ∷ q ∷ ps) = concat (p ∷ ", " ∷ join (q ∷ ps) ∷ [])

-- `requirePermission`
unfoldable pub require_permission : AdminUser → String → Result (Unit {0})
require_permission user permission =
    throw_if (not (has_permission user permission))
      (concat ("Permission denied: " ∷ permission ∷ " required" ∷ []))

-- `requireAnyPermission`
unfoldable pub require_any_permission : AdminUser → List String → Result (Unit {0})
require_any_permission user ps =
    throw_if (not (has_any_permission user ps))
      (concat ("Permission denied: one of [" ∷ join ps ∷ "] required" ∷ []))

-- `requireAllPermissions`
unfoldable pub require_all_permissions : AdminUser → List String → Result (Unit {0})
require_all_permissions user ps =
    throw_if (not (has_all_permissions user ps))
      (concat ("Permission denied: all of [" ∷ join ps ∷ "] required" ∷ []))

-- `[...new Set(list)]`: the first of equal entries stays.
unfoldable pub unique_from : List String → List String → List String
unique_from seen [] = []
unique_from seen (p ∷ ps) = elim (includes p seen) [
  | true ↦ unique_from seen ps
  | false ↦ p ∷ unique_from (p ∷ seen) ps
]

-- `getUserPermissions`
unfoldable pub get_user_permissions : AdminUser → List String
get_user_permissions user =
    if is_super_admin user.role
    then filter (λ p. has_permission user p) permissions
    else unique_from [] (get_role_permissions (role_name user.role) ++ own_grants user)

-- `canManageRole`. A text is a valid role exactly when `parse_role` finds it.
unfoldable pub can_manage_role : String → String → Bool
can_manage_role actor_role target_role = elim (parse_role (normalize_role actor_role)) [
  | none ↦ false
  | some a ↦ elim (parse_role (normalize_role target_role)) [
    | none ↦ false
    | some t ↦ ltb (role_hierarchy t) (role_hierarchy a)
  ]
]

-- `isValidPermission`
unfoldable pub is_valid_permission : String → Bool
is_valid_permission permission = includes permission permissions
