-- ===== src/Permissions/Predicates.antt =====
-- The can* predicates over a role's text, derived from the capability lists:
-- src/core/permissions/index.ts.
use tinyland_auth.Base.{
  Bool, false, String, List, [], ◌∷◌, none, some, ◌==◌, includes, to_lower, replace_dashes, any,
}
use tinyland_auth.Roles.{parse_role}
use tinyland_auth.Permissions.Catalog.{
  role_permissions, admin_access, admin_content_delete, admin_content_manage,
  admin_content_media_create, admin_content_moderate, admin_content_publish, admin_content_view,
  admin_events_delete, admin_events_manage, admin_events_view, admin_federation_deliver,
  admin_users_delete, admin_users_manage, admin_users_view,
}

-- `normalizeRole`
unfoldable pub normalize_role : String → String
unfolding to_lower replace_dashes
normalize_role role = replace_dashes (to_lower role)

-- `roleHoldsPermission`
unfoldable pub role_holds_permission : String → String → Bool
role_holds_permission role permission = elim (parse_role (normalize_role role)) [
  | none ↦ false
  | some r ↦ includes permission (role_permissions r)
]

-- `roleHoldsAnyPermission`
unfoldable pub role_holds_any_permission : String → List String → Bool
unfolding role_holds_permission
role_holds_any_permission role = any (λ p. role_holds_permission role p)

unfoldable pub can_view_posts : String → Bool
unfolding role_holds_permission
can_view_posts role = role_holds_permission role admin_access

unfoldable pub can_create_posts : String → Bool
unfolding role_holds_permission
can_create_posts role = role_holds_permission role admin_content_view

unfoldable pub can_edit_posts : String → Bool
unfolding role_holds_permission
can_edit_posts role = role_holds_permission role admin_content_manage

unfoldable pub can_delete_posts : String → Bool
unfolding role_holds_permission
can_delete_posts role = role_holds_permission role admin_content_delete

unfoldable pub can_view_events : String → Bool
unfolding role_holds_permission
can_view_events role = role_holds_permission role admin_access

unfoldable pub can_create_events : String → Bool
unfolding role_holds_permission
can_create_events role = role_holds_permission role admin_events_view

unfoldable pub can_edit_events : String → Bool
unfolding role_holds_permission
can_edit_events role = role_holds_permission role admin_events_manage

unfoldable pub can_delete_events : String → Bool
unfolding role_holds_permission
can_delete_events role = role_holds_permission role admin_events_delete

unfoldable pub can_view_profiles : String → Bool
unfolding role_holds_permission
can_view_profiles role = role_holds_permission role admin_access

unfoldable pub can_create_profiles : String → Bool
unfolding role_holds_permission
can_create_profiles role = role_holds_permission role admin_users_manage

unfoldable pub can_edit_own_profile : String → Bool
unfolding role_holds_permission
can_edit_own_profile role = role_holds_permission role admin_access

unfoldable pub can_edit_any_profile : String → Bool
unfolding role_holds_permission
can_edit_any_profile role = role_holds_permission role admin_users_manage

unfoldable pub can_delete_profiles : String → Bool
unfolding role_holds_permission
can_delete_profiles role = role_holds_permission role admin_users_delete

unfoldable pub can_view_users : String → Bool
unfolding role_holds_permission
can_view_users role = role_holds_permission role admin_users_view

unfoldable pub can_manage_users : String → Bool
unfolding role_holds_permission
can_manage_users role = role_holds_permission role admin_users_manage

unfoldable pub can_view_videos : String → Bool
unfolding role_holds_permission
can_view_videos role = role_holds_permission role admin_access

unfoldable pub can_create_videos : String → Bool
unfolding role_holds_permission
can_create_videos role = role_holds_permission role admin_content_media_create

unfoldable pub can_edit_videos : String → Bool
unfolding role_holds_permission
can_edit_videos role = role_holds_permission role admin_content_manage

unfoldable pub can_delete_videos : String → Bool
unfolding role_holds_permission
can_delete_videos role = role_holds_permission role admin_content_delete

unfoldable pub can_create_public_content : String → Bool
unfolding role_holds_permission
can_create_public_content role = role_holds_permission role admin_content_publish

unfoldable pub can_create_member_only_content : String → Bool
unfolding role_holds_permission
can_create_member_only_content role = role_holds_permission role admin_content_view

unfoldable pub can_feature_profile : String → Bool
unfolding role_holds_permission
can_feature_profile role = role_holds_permission role admin_users_manage

unfoldable pub can_edit_own_content : String → Bool
unfolding role_holds_permission
can_edit_own_content role = role_holds_permission role admin_content_view

unfoldable pub can_delete_own_content : String → Bool
unfolding role_holds_permission
can_delete_own_content role = role_holds_permission role admin_content_view

unfoldable pub can_delete_content : String → Bool
unfolding role_holds_permission
can_delete_content role = role_holds_permission role admin_content_delete

unfoldable pub can_view_member_only_content : String → Bool
unfolding role_holds_permission
can_view_member_only_content role = role_holds_permission role admin_content_view

unfoldable pub can_deliver_federation : String → Bool
unfolding role_holds_permission
can_deliver_federation role = role_holds_permission role admin_federation_deliver

-- `canEditContent`
unfoldable pub can_edit_content : String → Bool
unfolding role_holds_any_permission
can_edit_content role =
    role_holds_any_permission role (admin_content_manage ∷ admin_content_moderate ∷ [])

-- `isMemberRole`
unfoldable pub is_member_role : String → Bool
unfolding normalize_role
is_member_role role = normalize_role role == "member"
