-- ===== src/Permissions/Management.antt =====
-- Who manages whom: `can_manage_role` is a strict order on the roles that texts name.
use tinyland_auth.Base.{
  Bool, true, false, String, List, [], ◌∷◌, ◌==◌, none, ◌≡◌, ltb, includes, to_lower,
  replace_dashes, if◌then◌else◌, inl, inr, arith, refl, sym, Option-cases,
}
use tinyland_auth.Roles.{AdminRole, role_name, parse_role, role_hierarchy, is_valid_admin_role}
use tinyland_auth.Roles.Order.{role_name-parse_role, is_valid_admin_role_lem}
use tinyland_auth.Permissions.Predicates.{normalize_role}
use tinyland_auth.Permissions.Check.{can_manage_role}

-- The names of the roles, from the one that manages all others down.
abbrev pub ranked_names : List String
ranked_names =
    "super_admin" ∷ "admin" ∷ "moderator" ∷ "editor" ∷ "event_manager" ∷ "contributor" ∷ "member"
    ∷ "viewer" ∷ []

-- The first text stands in the list and the second one after it.
abbrev pub stands_before : String → String → List String → Bool
stands_before a b [] = false
stands_before a b (x ∷ xs) = if a == x then includes b xs else stands_before a b xs

stands_before_names :
    (r t : AdminRole)
    → stands_before (role_name r) (role_name t) ranked_names
      ≡ ltb (role_hierarchy t) (role_hierarchy r)
unfolding role_name role_hierarchy
stands_before_names AdminRole.super_admin AdminRole.super_admin = refl
stands_before_names AdminRole.super_admin _ = refl
stands_before_names AdminRole.admin AdminRole.super_admin = refl
stands_before_names AdminRole.admin _ = refl
stands_before_names AdminRole.moderator AdminRole.super_admin = refl
stands_before_names AdminRole.moderator _ = refl
stands_before_names AdminRole.editor AdminRole.super_admin = refl
stands_before_names AdminRole.editor _ = refl
stands_before_names AdminRole.event_manager AdminRole.super_admin = refl
stands_before_names AdminRole.event_manager _ = refl
stands_before_names AdminRole.contributor AdminRole.super_admin = refl
stands_before_names AdminRole.contributor _ = refl
stands_before_names AdminRole.member AdminRole.super_admin = refl
stands_before_names AdminRole.member _ = refl
stands_before_names AdminRole.viewer AdminRole.super_admin = refl
stands_before_names AdminRole.viewer _ = refl

stands_before_absent :
    (a b : String) (xs : List String) → includes a xs ≡ false → stands_before a b xs ≡ false
stands_before_absent a b [] h = refl
stands_before_absent a b (x ∷ xs) h = ground (arith, stands_before_absent a b xs)

stands_before_alone :
    (a b : String) (xs : List String) → includes b xs ≡ false → stands_before a b xs ≡ false
stands_before_alone a b [] h = refl
stands_before_alone a b (x ∷ xs) h = ground (arith, stands_before_alone a b xs)

unnamed : (s : String) → parse_role s ≡ none → includes s ranked_names ≡ false
unfolding is_valid_admin_role role_name
unnamed s h = (is_valid_admin_role_lem s).1 h

-- An actor manages a target exactly when the two texts, in lower case and with underscores for
-- dashes, are names of roles and the actor's stands before the target's in the list super_admin,
-- admin, moderator, editor, event_manager, contributor, member, viewer.
pub can_manage_role_lem :
    (actor target : String)
    → can_manage_role actor target
      ≡ stands_before
          (replace_dashes (to_lower actor))
          (replace_dashes (to_lower target))
          ranked_names
unfolding can_manage_role normalize_role
can_manage_role_lem actor target =
    let a = replace_dashes (to_lower actor) in
    let t = replace_dashes (to_lower target) in
    elim (Option-cases (parse_role a)) [
      | inl e ↦ rw (can_manage_role, e) (sym (stands_before_absent a t ranked_names (unnamed a e)))
      | inr (r, e) ↦ elim (Option-cases (parse_role t)) [
        | inl f ↦
            rw (can_manage_role, e, f) (sym (stands_before_alone a t ranked_names (unnamed t f)))
        | inr (u, f) ↦
            rw (can_manage_role, e, f, role_name-parse_role a r e, role_name-parse_role t u f)
              (sym (stands_before_names r u))
      ]
    ]

-- Management is a strict order on texts: no role manages itself or a role that manages it, and
-- managing is transitive.
pub can_manage_role_order :
    (r s t : String)
    → (can_manage_role r r ≡ false)
      × (can_manage_role r s ≡ true → can_manage_role s r ≡ false)
      × (can_manage_role r s ≡ true → can_manage_role s t ≡ true → can_manage_role r t ≡ true)
unfolding can_manage_role
can_manage_role_order r s t = (ground arith, λ h. ground arith, λ h k. ground arith)
