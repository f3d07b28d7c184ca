-- ===== src/Permissions/Catalog.antt =====
-- The permission names, the roles' capability lists and the feature domains: src/types/permissions.ts.
use tinyland_auth.Base.{String, List, [], ◌∷◌, ◌++◌}
use tinyland_auth.Base.Assoc.{Assoc}
use tinyland_auth.Roles.{
  AdminRole, super_admin, admin, moderator, editor, event_manager, contributor, member, viewer,
}

abbrev pub admin_access : String
admin_access = "admin.access"

abbrev pub admin_users_view : String
admin_users_view = "admin.users.view"

abbrev pub admin_users_manage : String
admin_users_manage = "admin.users.manage"

abbrev pub admin_users_delete : String
admin_users_delete = "admin.users.delete"

abbrev pub admin_content_view : String
admin_content_view = "admin.content.view"

abbrev pub admin_content_publish : String
admin_content_publish = "admin.content.publish"

abbrev pub admin_content_media_create : String
admin_content_media_create = "admin.content.media_create"

abbrev pub admin_content_manage : String
admin_content_manage = "admin.content.manage"

abbrev pub admin_content_moderate : String
admin_content_moderate = "admin.content.moderate"

abbrev pub admin_content_delete : String
admin_content_delete = "admin.content.delete"

abbrev pub admin_events_view : String
admin_events_view = "admin.events.view"

abbrev pub admin_events_manage : String
admin_events_manage = "admin.events.manage"

abbrev pub admin_events_delete : String
admin_events_delete = "admin.events.delete"

abbrev pub admin_analytics_view : String
admin_analytics_view = "admin.analytics.view"

abbrev pub admin_analytics_export : String
admin_analytics_export = "admin.analytics.export"

abbrev pub admin_settings_view : String
admin_settings_view = "admin.settings.view"

abbrev pub admin_settings_manage : String
admin_settings_manage = "admin.settings.manage"

abbrev pub admin_security_view : String
admin_security_view = "admin.security.view"

abbrev pub admin_security_manage : String
admin_security_manage = "admin.security.manage"

abbrev pub admin_logs_view : String
admin_logs_view = "admin.logs.view"

abbrev pub admin_logs_export : String
admin_logs_export = "admin.logs.export"

abbrev pub admin_federation_view : String
admin_federation_view = "admin.federation.view"

abbrev pub admin_federation_deliver : String
admin_federation_deliver = "admin.federation.deliver"

abbrev pub content_own_publish : String
content_own_publish = "content.own.publish"

abbrev pub federation_own_deliver : String
federation_own_deliver = "federation.own.deliver"

-- `Object.values(ADMIN_PERMISSIONS)`
abbrev pub admin_permissions : List String
admin_permissions =
    admin_access ∷ admin_users_view ∷ admin_users_manage ∷ admin_users_delete ∷ admin_content_view
    ∷ admin_content_publish ∷ admin_content_media_create ∷ admin_content_manage
    ∷ admin_content_moderate ∷ admin_content_delete ∷ admin_events_view ∷ admin_events_manage
    ∷ admin_events_delete ∷ admin_analytics_view ∷ admin_analytics_export ∷ admin_settings_view
    ∷ admin_settings_manage ∷ admin_security_view ∷ admin_security_manage ∷ admin_logs_view
    ∷ admin_logs_export ∷ admin_federation_view ∷ admin_federation_deliver ∷ []

-- `Object.values(PERMISSIONS)`
abbrev pub permissions : List String
permissions = admin_permissions ++ content_own_publish ∷ federation_own_deliver ∷ []

-- `EXPLICIT_USER_PERMISSIONS`
abbrev pub explicit_user_permissions : List String
explicit_user_permissions = content_own_publish ∷ federation_own_deliver ∷ []

-- `ROLE_PERMISSIONS`
unfoldable pub role_permissions : AdminRole → List String
role_permissions super_admin = admin_permissions
role_permissions admin =
    admin_access ∷ admin_users_view ∷ admin_users_manage ∷ admin_content_view
    ∷ admin_content_publish ∷ admin_content_media_create ∷ admin_content_manage
    ∷ admin_content_delete ∷ admin_events_view ∷ admin_events_manage ∷ admin_events_delete
    ∷ admin_analytics_view ∷ admin_settings_view ∷ admin_logs_view ∷ admin_federation_view
    ∷ admin_federation_deliver ∷ []
role_permissions moderator =
    admin_access ∷ admin_content_view ∷ admin_content_publish ∷ admin_content_moderate
    ∷ admin_users_view ∷ admin_events_view ∷ admin_analytics_view ∷ admin_logs_view
    ∷ admin_federation_view ∷ admin_federation_deliver ∷ []
role_permissions editor =
    admin_access ∷ admin_content_view ∷ admin_content_publish ∷ admin_content_media_create
    ∷ admin_content_manage ∷ admin_events_view ∷ admin_analytics_view ∷ []
role_permissions event_manager =
    admin_access ∷ admin_content_view ∷ admin_content_publish ∷ admin_events_view
    ∷ admin_events_manage ∷ admin_analytics_view ∷ []
role_permissions contributor =
    admin_access ∷ admin_content_view ∷ admin_content_publish ∷ admin_content_media_create
    ∷ admin_events_view ∷ []
role_permissions member = admin_access ∷ admin_content_view ∷ admin_events_view ∷ []
role_permissions viewer = admin_access ∷ admin_analytics_view ∷ []

-- `MEMBER_SELF_SERVICE_CORE`
unfoldable pub member_self_service_core : List String
unfolding role_permissions
member_self_service_core = role_permissions member

-- `FEATURE_DOMAINS`
abbrev pub feature_domains : List String
feature_domains =
    "access" ∷ "users" ∷ "content" ∷ "events" ∷ "analytics" ∷ "settings" ∷ "security" ∷ "logs"
    ∷ "federation" ∷ []

-- `PERMISSION_FEATURE_DOMAIN`
abbrev pub permission_feature_domain : Assoc String
permission_feature_domain =
    (admin_access, "access")
    ∷ (admin_users_view, "users")
    ∷ (admin_users_manage, "users")
    ∷ (admin_users_delete, "users")
    ∷ (admin_content_view, "content")
    ∷ (admin_content_publish, "content")
    ∷ (admin_content_media_create, "content")
    ∷ (admin_content_manage, "content")
    ∷ (admin_content_moderate, "content")
    ∷ (admin_content_delete, "content")
    ∷ (admin_events_view, "events")
    ∷ (admin_events_manage, "events")
    ∷ (admin_events_delete, "events")
    ∷ (admin_analytics_view, "analytics")
    ∷ (admin_analytics_export, "analytics")
    ∷ (admin_settings_view, "settings")
    ∷ (admin_settings_manage, "settings")
    ∷ (admin_security_view, "security")
    ∷ (admin_security_manage, "security")
    ∷ (admin_logs_view, "logs")
    ∷ (admin_logs_export, "logs")
    ∷ (admin_federation_view, "federation")
    ∷ (admin_federation_deliver, "federation")
    ∷ (content_own_publish, "content")
    ∷ (federation_own_deliver, "federation")
    ∷ []

-- `RoleAxis`
pub data RoleAxis : Type 0 where
  governance_spine specialist : RoleAxis

-- The axis of a role in `ROLE_CHARTER`; its rank there is `role_hierarchy`.
unfoldable pub role_axis : AdminRole → RoleAxis
role_axis super_admin = governance_spine
role_axis admin = governance_spine
role_axis moderator = governance_spine
role_axis editor = specialist
role_axis event_manager = specialist
role_axis contributor = specialist
role_axis member = governance_spine
role_axis viewer = governance_spine
