-- ===== src/Permissions/Grants.antt =====
-- What `has_permission` decides, and that the listing of a user's permissions agrees with it.
use tinyland_auth.Base.{
  Bool, true, false, String, List, [], ◌∷◌, ◌≡◌, ◌≢◌, refl, ◌↔◌, ◌⊎◌, inl, inr, arith, includes,
  includes_iff, In, In-append, In-filter, throw_if, ok, all_iff, any_iff, eq_iff, not, Bool-cases,
}
use tinyland_auth.Roles.{AdminRole, super_admin, role_name}
use tinyland_auth.Roles.Order.{parse_role-role_name}
use tinyland_auth.Types.{AdminUser}
use tinyland_auth.Permissions.Catalog.{
  content_own_publish, federation_own_deliver, role_permissions, permissions,
  explicit_user_permissions,
}
use tinyland_auth.Permissions.Check.{
  require_any_permission, get_role_permissions, own_grants, is_super_admin, has_permission,
  has_all_permissions, has_any_permission, require_permission, require_all_permissions, unique_from,
  get_user_permissions,
}

-- A role's own text reads its own list.
get_role_permissions-role_name :
    (r : AdminRole) → get_role_permissions (role_name r) ≡ role_permissions r
unfolding get_role_permissions
get_role_permissions-role_name r = rw (parse_role-role_name r, get_role_permissions)

-- An own-scope permission is held exactly by the users whose grants list it, super_admin included.
pub has_permission_own_iff :
    (user : AdminUser) (p : String)
    → In p explicit_user_permissions
    → (has_permission user p ≡ true) ↔ In p (own_grants user)
unfolding has_permission
has_permission_own_iff user p own =
    ground (arith, includes_iff p explicit_user_permissions, includes_iff p (own_grants user))

-- How a user may come by a permission.
pub data HoldsBy (user : AdminUser) (p : String) : Type 0 where
  by_grant : In p (own_grants user) → HoldsBy user p
  by_rank : ¬ In p explicit_user_permissions → user.role ≡ super_admin → HoldsBy user p
  by_role : ¬ In p explicit_user_permissions → In p (role_permissions user.role) → HoldsBy user p

lacking_own :
    (user : AdminUser) (p : String)
    → has_permission user p ≡ true
    → includes p (own_grants user) ≡ false
    → ¬ In p explicit_user_permissions
lacking_own user p h lacking m =
    ground (arith, has_permission_own_iff user p m, includes_iff p (own_grants user))

has_permission_sound :
    (user : AdminUser) (p : String) → has_permission user p ≡ true → HoldsBy user p
unfolding has_permission
has_permission_sound user p h = elim (Bool-cases (includes p (own_grants user))) [
  | inl granted ↦ by_grant ((includes_iff p _).0 granted)
  | inr lacking ↦ elim (Bool-cases (is_super_admin user.role)) [
    | inl top ↦ by_rank (lacking_own user p h lacking) (ground arith)
    | inr below ↦
        by_role (lacking_own user p h lacking)
          ((includes_iff p _).0 (ground (arith, get_role_permissions-role_name user.role)))
  ]
]

has_permission_complete :
    (user : AdminUser) (p : String) → HoldsBy user p → has_permission user p ≡ true
unfolding has_permission
has_permission_complete user p (by_grant g) =
    ground (arith, includes_iff p explicit_user_permissions, includes_iff p (own_grants user))
has_permission_complete user p (by_rank n e) =
    ground (arith, includes_iff p explicit_user_permissions)
has_permission_complete user p (by_role n m) = ground (
  arith,
  includes_iff p explicit_user_permissions,
  includes_iff p (role_permissions user.role),
  get_role_permissions-role_name user.role,
)

-- A user holds a permission exactly by a grant, or, for one that is not own-scope, by the rank of
-- super_admin or by the list of the user's role.
pub has_permission_iff :
    (user : AdminUser) (p : String) → (has_permission user p ≡ true) ↔ HoldsBy user p
has_permission_iff user p = (has_permission_sound user p, has_permission_complete user p)

unique_from-In :
    (seen ps : List String) (p : String)
    → In p (unique_from seen ps) ↔ (In p ps × (includes p seen ≡ false))
unfolding unique_from
unique_from-In seen [] p = ground arith
unique_from-In seen (q ∷ ps) p =
    ground (arith, eq_iff p q, unique_from-In seen ps p, unique_from-In (q ∷ seen) ps p)

role_lacks_publish : (r : AdminRole) → includes content_own_publish (role_permissions r) ≡ false
unfolding role_permissions
role_lacks_publish super_admin = refl
role_lacks_publish _ = refl

role_lacks_deliver : (r : AdminRole) → includes federation_own_deliver (role_permissions r) ≡ false
unfolding role_permissions
role_lacks_deliver super_admin = refl
role_lacks_deliver _ = refl

-- No role's list holds an own-scope permission.
pub role_permissions_not_own :
    (r : AdminRole) (p : String) → In p (role_permissions r) → ¬ In p explicit_user_permissions
role_permissions_not_own r p m own =
    ground (arith, includes_iff p (role_permissions r), role_lacks_publish r, role_lacks_deliver r)

listed_iff :
    (user : AdminUser) (p : String)
    → (In p (role_permissions user.role) ⊎ In p (own_grants user))
    → has_permission user p ≡ true
listed_iff user p (inl m) =
    has_permission_complete user p (by_role (role_permissions_not_own user.role p m) m)
listed_iff user p (inr m) = has_permission_complete user p (by_grant m)

listed_of_holds :
    (user : AdminUser) (p : String)
    → user.role ≢ super_admin
    → HoldsBy user p
    → In p (role_permissions user.role) ⊎ In p (own_grants user)
listed_of_holds user p n (by_grant m) = inr m
listed_of_holds user p n (by_rank c e) = absurd (n e)
listed_of_holds user p n (by_role c m) = inl m

super_admin_of : (r : AdminRole) → is_super_admin r ≡ true → r ≡ super_admin
super_admin_of r h = ground arith

ne_super_admin : (r : AdminRole) → is_super_admin r ≡ false → r ≢ super_admin
ne_super_admin r h = ground arith

-- The listing shows exactly the permissions that the user holds; of a super_admin, who holds any
-- name that is not own-scope, it shows the registered ones.
pub get_user_permissions_iff :
    (user : AdminUser) (p : String)
    → In p (get_user_permissions user)
      ↔ ((has_permission user p ≡ true) × (user.role ≡ super_admin → In p permissions))
unfolding get_user_permissions
get_user_permissions_iff user p = elim (Bool-cases (is_super_admin user.role)) [
  | inl top ↦ rw top (
    (λ m. let h = (In-filter (λ q. has_permission user q) p permissions).0 m in (h.1, λ _. h.0)),
    λ h.
        (In-filter (λ q. has_permission user q) p permissions).1
          (h.1 (super_admin_of user.role top), h.0),
  )
  | inr below ↦
      let n = ne_super_admin user.role below in
      rw (below, get_role_permissions-role_name user.role)
        (
          (λ m. (
            listed_iff user p ((In-append p _ _).0 ((unique_from-In [] _ p).0 m).0),
            λ e. absurd (n e),
          )),
          λ h. (unique_from-In [] _ p).1 (
            (In-append p _ _).1 (listed_of_holds user p n (has_permission_sound user p h.0)),
            refl,
          ),
        )
]

not_thrown : (b : Bool) (e : String) → throw_if (not b) e ≡ ok tt → b ≡ true
not_thrown b e h = ground arith

-- `requirePermission` and its two relatives return normally exactly when the test holds, of every
-- listed permission for `requireAllPermissions` and of some for `requireAnyPermission`.
pub require_permissions_iff :
    (user : AdminUser) (p : String) (ps : List String)
    → ((require_permission user p ≡ ok tt) ↔ HoldsBy user p)
      × ((require_all_permissions user ps ≡ ok tt) ↔ ((q : String) → In q ps → HoldsBy user q))
      × ((require_any_permission user ps ≡ ok tt) ↔ ((q : String) × In q ps × HoldsBy user q))
unfolding require_permission require_all_permissions require_any_permission has_all_permissions
    has_any_permission
require_permissions_iff user p ps = (
  (
    (λ h. has_permission_sound user p (not_thrown _ _ h)),
    λ h. rw (has_permission_complete user p h),
  ),
  (
    (λ h q m. has_permission_sound user q ((all_iff _ ps).0 (not_thrown _ _ h) q m)),
    λ h. rw ((all_iff _ ps).1 (λ q m. has_permission_complete user q (h q m))),
  ),
  (
    (λ h.
        let (q, m, e) = (any_iff _ ps).0 (not_thrown _ _ h) in
        (q, m, has_permission_sound user q e)),
    λ h. rw ((any_iff _ ps).1 (h.0, h.1, has_permission_complete user h.0 h.2)),
  ),
)
