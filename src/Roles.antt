-- ===== src/Roles.antt =====
-- Administrative roles and their management order: src/types/auth.ts.
pub mod Order
use tinyland_auth.Base.{
  ℕ, Bool, String, List, [], ◌∷◌, map, Option, ◌==◌, ltb, leb, includes, find, if◌then◌else◌,
}

-- `AdminRole`
pub data AdminRole : Type 0 where
  super_admin admin moderator editor event_manager contributor member viewer : AdminRole

-- The text that stands for a role.
unfoldable pub role_name : AdminRole → String
role_name super_admin = "super_admin"
role_name admin = "admin"
role_name moderator = "moderator"
role_name editor = "editor"
role_name event_manager = "event_manager"
role_name contributor = "contributor"
role_name member = "member"
role_name viewer = "viewer"

-- `ADMIN_ROLES`
abbrev pub admin_roles : List AdminRole
admin_roles =
    super_admin ∷ admin ∷ moderator ∷ editor ∷ event_manager ∷ contributor ∷ member ∷ viewer ∷ []

-- `ROLE_HIERARCHY`
unfoldable pub role_hierarchy : AdminRole → ℕ
role_hierarchy super_admin = 100
role_hierarchy admin = 90
role_hierarchy moderator = 70
role_hierarchy editor = 60
role_hierarchy event_manager = 50
role_hierarchy contributor = 40
role_hierarchy member = 30
role_hierarchy viewer = 10

-- `isValidAdminRole`
unfoldable pub is_valid_admin_role : String → Bool
unfolding role_name
is_valid_admin_role role = includes role (map role_name admin_roles)

-- The role that a text names: how a table keyed by roles is read at a text. `none` is `undefined`.
unfoldable pub parse_role : String → Option AdminRole
unfolding role_name
parse_role role = find (λ r. role == role_name r) admin_roles

-- `hasHigherRole`
unfoldable pub has_higher_role : AdminRole → AdminRole → Bool
unfolding role_hierarchy
has_higher_role user_role target_role = ltb (role_hierarchy target_role) (role_hierarchy user_role)

-- `hasEqualOrHigherRole`
unfoldable pub has_equal_or_higher_role : AdminRole → AdminRole → Bool
unfolding role_hierarchy
has_equal_or_higher_role user_role target_role =
    leb (role_hierarchy target_role) (role_hierarchy user_role)

-- One insertion of the sort below, by descending hierarchy; equal ranks keep their order.
insert_by_rank : AdminRole → List AdminRole → List AdminRole
insert_by_rank r [] = r ∷ []
insert_by_rank r (s ∷ rs) =
    if leb (role_hierarchy s) (role_hierarchy r) then r ∷ s ∷ rs else s ∷ insert_by_rank r rs

sort_by_rank : List AdminRole → List AdminRole
unfolding insert_by_rank
sort_by_rank [] = []
sort_by_rank (r ∷ rs) = insert_by_rank r (sort_by_rank rs)

-- `ROLE_MANAGEMENT_ORDER`
unfoldable pub role_management_order : List AdminRole
unfolding sort_by_rank role_hierarchy
role_management_order = sort_by_rank admin_roles
