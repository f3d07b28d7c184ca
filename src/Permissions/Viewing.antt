-- ===== src/Permissions/Viewing.antt =====
-- What the visibility rules guarantee to readers and authors.
use tinyland_auth.Base.{
  true, false, String, List, [], ◌∷◌, Option, none, some, ◌==◌, ◌≡◌, refl, ◌↔◌, ◌⊎◌, inl, inr,
  arith, eq_iff, In, In-filter, subst, sym, all, all_iff, lower_char, includes, Bool-cases,
  Option-cases, to_lower, is_empty, ◌∙◌, eq_refl,
}
use tinyland_auth.Roles.{
  AdminRole, super_admin, admin, moderator, editor, event_manager, viewer, parse_role, role_name,
}
use tinyland_auth.Roles.Order.{role_name-parse_role, parse_role-role_name}
use tinyland_auth.Permissions.Catalog.{
  role_permissions, admin_content_manage, admin_content_moderate, admin_events_manage,
  admin_content_view, admin_content_publish, admin_content_delete,
}
use tinyland_auth.Permissions.Predicates.{
  normalize_role, role_holds_permission, role_holds_any_permission, can_create_member_only_content,
  can_create_public_content, can_delete_content,
}
use tinyland_auth.Permissions.Spelling.{normalize_role_idem, normalize_role-role_name}
use tinyland_auth.Permissions.Visibility.{
  get_allowed_visibility_options, view_as, can_view_content, filter_content_by_visibility,
}

-- The role that a text names once its case and its dashes are normalised.
abbrev named_role : String → Option AdminRole
named_role s = parse_role (normalize_role s)

-- The permission test of a text depends on the named role alone.
holds_named :
    (s p : String) (r : AdminRole)
    → named_role s ≡ some r
    → role_holds_permission s p ≡ includes p (role_permissions r)
unfolding role_holds_permission
holds_named s p r h = rw (h, role_holds_permission)

holds_unnamed : (s p : String) → named_role s ≡ none → role_holds_permission s p ≡ false
unfolding role_holds_permission
holds_unnamed s p h = rw (h, role_holds_permission)

named-role_name : (r : AdminRole) → named_role (role_name r) ≡ some r
named-role_name r = rw (normalize_role-role_name r) (parse_role-role_name r)

holds_same :
    (s p : String) (r : AdminRole)
    → named_role s ≡ some r
    → role_holds_permission s p ≡ role_holds_permission (role_name r) p
holds_same s p r h = holds_named s p r h ∙ sym (holds_named (role_name r) p r (named-role_name r))

empty_unnamed : named_role "" ≡ none
unfolding normalize_role parse_role
empty_unnamed = refl

nonempty_of_named : (s : String) (r : AdminRole) → named_role s ≡ some r → is_empty s ≡ false
nonempty_of_named s r h = elim (Bool-cases (is_empty s)) [
  | inl e ↦
      let named : named_role "" ≡ some r =
        subst (λ t. named_role t ≡ some r) ((eq_iff s "").0 e) h in
      cc (empty_unnamed, named)
  | inr e ↦ e
]

-- The options of a text that names a role are those of the role's own text.
options_same :
    (s : String) (r : AdminRole)
    → named_role s ≡ some r
    → get_allowed_visibility_options s ≡ get_allowed_visibility_options (role_name r)
unfolding get_allowed_visibility_options can_create_member_only_content can_create_public_content
    can_delete_content
options_same s r h = rw (
  holds_same s admin_content_view r h,
  holds_same s admin_content_publish r h,
  holds_same s admin_content_delete r h,
)

view_same :
    (v s : String) (a u : Option String) (r : AdminRole)
    → named_role s ≡ some r
    → can_view_content (some v) (some s) a u ≡ can_view_content (some v) (some (role_name r)) a u
unfolding can_view_content
view_same v s a u r h = rw (
  nonempty_of_named s r h,
  nonempty_of_named (role_name r) r (named-role_name r),
  role_name-parse_role (normalize_role s) r h,
  normalize_role-role_name r,
)

-- Nobody without a role sees anything but public content.
pub anonymous_sees_public_only :
    (visibility author_id user_id : Option String)
    → can_view_content visibility none author_id user_id ≡ true
    → (visibility ≡ none)
      ⊎ ((v : String) × (visibility ≡ some v) × ((v ≡ "") ⊎ (to_lower v ≡ "public")))
unfolding can_view_content
anonymous_sees_public_only none a u h = inl refl
anonymous_sees_public_only (some v) a u h =
    inr (v, refl, ground (arith, eq_iff v "", eq_iff (to_lower v) "public"))

-- Each option of a role is visible to an author of that role.
options_viewable :
    (r : AdminRole) (u : String)
    → all
        (λ v. can_view_content (some v) (some (role_name r)) (some u) (some u))
        (get_allowed_visibility_options (role_name r))
      ≡ true
unfolding get_allowed_visibility_options can_create_member_only_content can_create_public_content
    can_delete_content can_view_content view_as role_holds_permission role_holds_any_permission
    normalize_role parse_role role_permissions lower_char to_lower
options_viewable super_admin u = refl
options_viewable viewer u = refl
options_viewable r u = rw (eq_refl u)

no_options : (s v : String) → named_role s ≡ none → ¬ In v (get_allowed_visibility_options s)
unfolding get_allowed_visibility_options can_create_member_only_content
no_options s v e = rw (holds_unnamed s admin_content_view e) (λ h. h)

-- Every visibility that a role may choose for its content leaves the content visible to its author.
pub allowed_options_viewable :
    (role v user : String)
    → In v (get_allowed_visibility_options role)
    → can_view_content (some v) (some role) (some user) (some user) ≡ true
allowed_options_viewable role v user m = elim (Option-cases (named_role role)) [
  | inl e ↦ absurd (no_options role v e m)
  | inr (r, e) ↦
      view_same v role _ _ r e
      ∙ (all_iff _ _).0 (options_viewable r user) v (rw (options_same role r e) at m)
]

-- The roles that read admin-only content of others: the two that administer everything, and those
-- that manage or moderate a domain.
abbrev pub domain_managers : List AdminRole
domain_managers = super_admin ∷ admin ∷ moderator ∷ editor ∷ event_manager ∷ []

admin_readers :
    (r : AdminRole) (a u : Option String)
    → (can_view_content (some "admin") (some (role_name r)) a u ≡ true) ↔ In r domain_managers
unfolding can_view_content view_as role_holds_permission role_holds_any_permission normalize_role
    parse_role role_permissions lower_char to_lower
admin_readers super_admin a u = ground arith
admin_readers r a u = ground arith

unnamed_not_super : (s : String) → named_role s ≡ none → (normalize_role s == "super_admin") ≡ false
unfolding role_name
unnamed_not_super s e = elim (Bool-cases (normalize_role s == "super_admin")) [
  | inl h ↦
      let named : parse_role "super_admin" ≡ none =
        subst (λ t. parse_role t ≡ none) ((eq_iff (normalize_role s) "super_admin").0 h) e in
      cc (parse_role-role_name super_admin, named)
  | inr h ↦ h
]

unnamed_view :
    (s : String) (a u : Option String)
    → named_role s ≡ none
    → can_view_content (some "admin") (some s) a u ≡ false
unfolding can_view_content view_as role_holds_any_permission to_lower lower_char
unnamed_view s a u e =
    let e' : named_role (normalize_role s) ≡ none = rw (normalize_role_idem s) e in
    elim (Bool-cases (is_empty s)) [
      | inl h ↦ rw h refl
      | inr h ↦ rw (
        h,
        unnamed_not_super s e,
        holds_unnamed (normalize_role s) admin_content_manage e',
        holds_unnamed (normalize_role s) admin_content_moderate e',
        holds_unnamed (normalize_role s) admin_events_manage e',
      )
    ]

-- Admin-only content is readable exactly by the domain managers, whoever wrote it.
pub admin_visibility_iff :
    (s : String) (a u : Option String)
    → (can_view_content (some "admin") (some s) a u ≡ true)
      ↔ ((r : AdminRole) × (named_role s ≡ some r) × In r domain_managers)
admin_visibility_iff s a u = (forth, back)
  where
    forth :
        can_view_content (some "admin") (some s) a u ≡ true
        → (r : AdminRole) × (named_role s ≡ some r) × In r domain_managers
    forth h = elim (Option-cases (named_role s)) [
      | inl e ↦ cc (unnamed_view s a u e)
      | inr (r, e) ↦ (r, e, (admin_readers r a u).0 (sym (view_same "admin" s a u r e) ∙ h))
    ]

    back :
        ((r : AdminRole) × (named_role s ≡ some r) × In r domain_managers)
        → can_view_content (some "admin") (some s) a u ≡ true
    back (r, e, m) = view_same "admin" s a u r e ∙ (admin_readers r a u).1 m

-- Filtering keeps exactly the items that the reader may view.
pub filter_content_iff :
    {T : Type 0} (visibility author_id : T → Option String) (items : List T)
    (user_role user_id : Option String) (item : T)
    → In item (filter_content_by_visibility visibility author_id items user_role user_id) ↔ (
        In item items
        × (can_view_content (visibility item) user_role (author_id item) user_id ≡ true))
unfolding filter_content_by_visibility
filter_content_iff visibility author_id items user_role user_id item =
    In-filter (λ i. can_view_content (visibility i) user_role (author_id i) user_id) item items
