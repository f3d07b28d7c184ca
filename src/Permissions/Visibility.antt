-- ===== src/Permissions/Visibility.antt =====
-- Who may see and offer content of a given visibility: src/core/permissions/index.ts.
use tinyland_auth.Base.{
  Bool, true, false, String, List, [], ◌∷◌, ◌++◌, Option, none, some, ◌==◌, is_empty, to_lower,
  filter, not, if◌then◌else◌,
}
use tinyland_auth.Permissions.Catalog.{
  admin_content_manage, admin_content_moderate, admin_events_manage, admin_content_view,
}
use tinyland_auth.Permissions.Predicates.{
  normalize_role, role_holds_permission, role_holds_any_permission, can_create_member_only_content,
  can_create_public_content, can_delete_content,
}

-- `getAllowedVisibilityOptions`
unfoldable pub get_allowed_visibility_options : String → List String
get_allowed_visibility_options role =
    if not (can_create_member_only_content role)
    then []
    else (if can_create_public_content role then "public" ∷ [] else [])
      ++ ("members" ∷ [])
      ++ (if can_delete_content role then "admin" ∷ [] else [])
      ++ ("private" ∷ [])

-- `text || fallback`, for a text that may be missing
abbrev pub or_else : Option String → String → String
or_else none fallback = fallback
or_else (some s) fallback = if is_empty s then fallback else s

-- `a != null && b != null && a === b`
abbrev pub same_known : Option String → Option String → Bool
same_known none b = false
same_known (some a) none = false
same_known (some a) (some b) = a == b

-- The part of `canViewContent` that is reached with a role, on the normalised role and visibility.
unfoldable pub view_as : String → String → Option String → Option String → Bool
view_as v r author_id user_id =
    if r == "super_admin"
    then true
    else if v == "private"
    then same_known user_id author_id
    else if v == "admin"
    then role_holds_any_permission r
        (admin_content_manage ∷ admin_content_moderate ∷ admin_events_manage ∷ [])
    else if v == "members"
    then role_holds_permission r admin_content_view
    else false

-- `canViewContent`
unfoldable pub can_view_content :
    Option String → Option String → Option String → Option String → Bool
can_view_content visibility user_role author_id user_id =
    let v = to_lower (or_else visibility "public") in
    if v == "public" then true else elim user_role [
      | none ↦ false
      | some role ↦
          if is_empty role then false else view_as v (normalize_role role) author_id user_id
    ]

-- `filterContentByVisibility`, over any items with a visibility and an author
unfoldable pub filter_content_by_visibility :
    {T : Type 0}
    → (T → Option String)
    → (T → Option String)
    → List T
    → Option String
    → Option String
    → List T
filter_content_by_visibility visibility author_id items user_role user_id =
    filter (λ item. can_view_content (visibility item) user_role (author_id item) user_id) items
