-- ===== src/Permissions/Display.antt =====
-- The names that the permissions are displayed under: src/core/permissions/index.ts.
use tinyland_auth.Base.{String, [], ◌∷◌, none, some}
use tinyland_auth.Base.Assoc.{Assoc, get}
use tinyland_auth.Permissions.Catalog.{
  admin_access, admin_users_view, admin_users_manage, admin_users_delete, admin_content_view,
  admin_content_publish, admin_content_media_create, admin_content_manage, admin_content_moderate,
  admin_content_delete, admin_events_view, admin_events_manage, admin_events_delete,
  admin_analytics_view, admin_analytics_export, admin_settings_view, admin_settings_manage,
  admin_security_view, admin_security_manage, admin_logs_view, admin_logs_export,
  admin_federation_view, admin_federation_deliver, content_own_publish, federation_own_deliver,
}

-- `displayNames`
abbrev pub display_names : Assoc String
display_names =
    (admin_access, "Admin Panel Access")
    ∷ (admin_users_view, "View Users")
    ∷ (admin_users_manage, "Manage Users")
    ∷ (admin_users_delete, "Delete Users")
    ∷ (admin_content_view, "View Content")
    ∷ (admin_content_publish, "Publish Public Content")
    ∷ (admin_content_media_create, "Create Media Content")
    ∷ (admin_content_manage, "Manage Content")
    ∷ (admin_content_moderate, "Moderate Content")
    ∷ (admin_content_delete, "Delete Content")
    ∷ (admin_events_view, "View Events")
    ∷ (admin_events_manage, "Manage Events")
    ∷ (admin_events_delete, "Delete Events")
    ∷ (admin_analytics_view, "View Analytics")
    ∷ (admin_analytics_export, "Export Analytics")
    ∷ (admin_settings_view, "View Settings")
    ∷ (admin_settings_manage, "Manage Settings")
    ∷ (admin_security_view, "View Security")
    ∷ (admin_security_manage, "Manage Security")
    ∷ (admin_logs_view, "View Logs")
    ∷ (admin_logs_export, "Export Logs")
    ∷ (admin_federation_view, "View Federation")
    ∷ (admin_federation_deliver, "Deliver Federation")
    ∷ (content_own_publish, "Publish Own Public Content")
    ∷ (federation_own_deliver, "Deliver Own Federation Content")
    ∷ []

-- `getPermissionDisplayName`
unfoldable pub get_permission_display_name : String → String
unfolding get
get_permission_display_name permission = elim (get permission display_names) [
  | none ↦ permission
  | some name ↦ name
]
