-- ===== src/Tests/Permissions.antt =====
-- The theorems on permissions and ownership at concrete inputs: src/core/permissions/.
use tinyland_auth.Base.{
  ◌≤◌, true, false, String, List, [], ◌∷◌, ◌≡◌, ◌↔◌, Option, none, some, ok, inl, refl, In, arith,
  includes_iff, to_lower, lower_char, replace_dashes,
}
use tinyland_auth.Roles.{editor, member, role_name, parse_role, role_hierarchy}
use tinyland_auth.Types.{AdminUser}
use tinyland_auth.Permissions.Catalog.{
  admin_content_view, admin_content_publish, member_self_service_core, role_permissions,
}
use tinyland_auth.Permissions.Predicates.{
  normalize_role, can_delete_own_content, role_holds_permission, role_holds_any_permission,
  can_create_member_only_content, can_create_public_content, can_delete_content,
}
use tinyland_auth.Permissions.Check.{
  has_permission, require_permission, require_any_permission, require_all_permissions,
  can_manage_role,
}
use tinyland_auth.Permissions.Visibility.{can_view_content, get_allowed_visibility_options}
use tinyland_auth.Permissions.Grants.{HoldsBy, has_permission_iff, require_permissions_iff}
use tinyland_auth.Permissions.Management.{stands_before, ranked_names, can_manage_role_lem}
use tinyland_auth.Ownership.{
  OwnershipUser, OwnedContent, user_handle, extract_author_id, extract_author_handle,
  is_content_owner, can_delete_owned_content,
}
use tinyland_auth.Ownership.Laws.{own_deletion_refused}
use tinyland_auth.Tests.Samples.{user_of}

abbrev granted : AdminUser
granted = user_of "u1" "ann" none editor (some (admin_content_publish ∷ []))

has_permission_iff_example :
    (has_permission granted admin_content_publish ≡ true) ↔ HoldsBy granted admin_content_publish
has_permission_iff_example = has_permission_iff granted admin_content_publish

require_permissions_iff_example :
    ((require_permission granted admin_content_view ≡ ok tt) ↔ HoldsBy granted admin_content_view)
    × ((require_all_permissions granted [] ≡ ok tt) ↔ ((q : String) → In q [] → HoldsBy granted q))
    × ((require_any_permission granted [] ≡ ok tt) ↔ ((q : String) × In q [] × HoldsBy granted q))
require_permissions_iff_example = require_permissions_iff granted admin_content_view []

rank_enough : role_hierarchy member ≤ role_hierarchy editor
unfolding role_hierarchy
rank_enough = omega arith

core_listed : In "admin.access" member_self_service_core
unfolding member_self_service_core role_permissions
core_listed = (includes_iff "admin.access" (role_permissions member)).0 refl

abbrev shown : Option String
shown = some "Public"

public_seen : can_view_content (some "Public") none none none ≡ true
unfolding can_view_content to_lower lower_char
public_seen = refl

private_allowed : In "private" (get_allowed_visibility_options "editor")
unfolding get_allowed_visibility_options can_create_member_only_content can_create_public_content
    can_delete_content role_holds_permission role_holds_any_permission normalize_role to_lower
    lower_char replace_dashes parse_role role_name role_permissions
private_allowed = (includes_iff "private" (get_allowed_visibility_options "editor")).0 refl

abbrev itself : String → Option String
itself s = some s

abbrev public_item : String
public_item = "public"

abbrev items : List String
items = "public" ∷ "private" ∷ []

abbrev author : String → OwnershipUser
author role = record { id = "u1"; role = some role; handle = none; username = none }

abbrev post : OwnedContent
post = record { author_id = some "u1"; author_handle = none; author = none; frontmatter = none }

own_deletion_refused_example :
    (can_delete_own_content "moderator" ≡ true)
    × (can_delete_owned_content (author "moderator") post ≡ false)
own_deletion_refused_example =
    own_deletion_refused (author "moderator") post "moderator" (inl refl) refl

owned : is_content_owner (author "member") post ≡ true
unfolding is_content_owner extract_author_id extract_author_handle user_handle
owned = refl

deletes : can_delete_owned_content (author "member") post ≡ true
unfolding can_delete_owned_content is_content_owner extract_author_id
deletes = refl

can_manage_role_lem_example :
    can_manage_role "Event-Manager" "MEMBER" ≡ stands_before "event_manager" "member" ranked_names
unfolding to_lower lower_char replace_dashes
can_manage_role_lem_example = can_manage_role_lem "Event-Manager" "MEMBER"
