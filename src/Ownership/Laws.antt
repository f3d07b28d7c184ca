-- ===== src/Ownership/Laws.antt =====
-- Who may edit and delete owned content, and where the two permission modules disagree.
use tinyland_auth.Base.{
  true, false, String, List, [], ◌∷◌, Option, none, some, ◌≡◌, refl, ◌⊎◌, inl, inr, arith, eq_iff,
  In, ◌≢◌, ap, sym, subst, ◌∙◌, Bool-cases, Option-cases, lower_char,
}
use tinyland_auth.Permissions.Predicates.{
  can_delete_own_content, role_holds_permission, normalize_role,
}
use tinyland_auth.Roles.{parse_role}
use tinyland_auth.Permissions.Catalog.{role_permissions}
use tinyland_auth.Ownership.{
  OwnershipUser, OwnedContent, is_content_owner, can_edit_owned_content, can_delete_owned_content,
  chain, extract_author_id, extract_author_handle, user_handle, matches, truthy, first_text,
}

-- Whoever may delete a piece of content may edit it.
pub delete_implies_edit :
    (user : OwnershipUser) (content : OwnedContent)
    → can_delete_owned_content user content ≡ true
    → can_edit_owned_content user content ≡ true
unfolding can_delete_owned_content can_edit_owned_content
delete_implies_edit user content h = ground arith

-- Where the identity of an author may stand.
abbrev pub author_ids : OwnedContent → List (Option String)
author_ids content =
    content.author_id
    ∷ chain content.author (λ a. a.id)
    ∷ chain content.frontmatter (λ f. f.author_id)
    ∷ chain content.frontmatter (λ f. chain f.author (λ a. a.id))
    ∷ []

abbrev pub author_handles : OwnedContent → List (Option String)
author_handles content =
    content.author_handle
    ∷ chain content.author (λ a. a.handle)
    ∷ chain content.frontmatter (λ f. f.author_handle)
    ∷ chain content.frontmatter (λ f. chain f.author (λ a. a.handle))
    ∷ []

truthy_lem : (o : Option String) (s : String) → truthy o ≡ some s → (o ≡ some s) × (s ≢ "")
truthy_lem none s h = cc
truthy_lem (some t) s h = ground (arith, eq_iff t "")

first_text-In :
    (xs : List (Option String)) (s : String) → first_text xs ≡ some s → In (some s) xs × (s ≢ "")
first_text-In [] s h = cc
first_text-In (x ∷ xs) s h = elim (Option-cases (truthy x)) [
  | inl e ↦ let (m, n) = first_text-In xs s (rw (e, first_text) at h) in (inr m, n)
  | inr (t, e) ↦ let (q, n) = truthy_lem x s (ground arith) in (inl (sym q), n)
]

matches_lem :
    (known value : Option String)
    → matches known value ≡ true
    → (s : String) × (known ≡ some s) × (value ≡ some s)
matches_lem none value h = cc
matches_lem (some k) none h = cc
matches_lem (some k) (some v) h = (k, refl, ap some ((eq_iff v k).0 h))

-- Ownership rests on a text that is there: the user's id is a non-empty author id of the content,
-- or the user's handle is a non-empty author handle of it.
pub is_content_owner_sound :
    (user : OwnershipUser) (content : OwnedContent)
    → is_content_owner user content ≡ true
    → ((user.id ≢ "") × In (some user.id) (author_ids content))
      ⊎ ((h : String) × (user_handle user ≡ some h)
          × (h ≢ "")
          × In (some h) (author_handles content))
unfolding is_content_owner extract_author_id extract_author_handle
is_content_owner_sound user content h =
    elim (Bool-cases (matches (first_text (author_ids content)) (some user.id))) [
      | inl e ↦
          let (s, known, same) = matches_lem (first_text (author_ids content)) (some user.id) e in
          let (m, n) = first_text-In (author_ids content) s known in
          let q : user.id ≡ s = cc in
          inl (subst (λ t. (t ≢ "") × In (some t) (author_ids content)) (sym q) (n, m))
      | inr e ↦
          let (s, known, same) =
            matches_lem (first_text (author_handles content)) (user_handle user) (rw e at h) in
          let (m, n) = first_text-In (author_handles content) s known in inr (s, same, n, m)
    ]

own_deletion_granted :
    (can_delete_own_content "moderator" ≡ true) × (can_delete_own_content "editor" ≡ true)
unfolding can_delete_own_content role_holds_permission normalize_role parse_role role_permissions
    lower_char
own_deletion_granted = (refl, refl)

moderator_refused :
    (user : OwnershipUser) (content : OwnedContent)
    → user.role ≡ some "moderator"
    → can_delete_owned_content user content ≡ false
unfolding can_delete_owned_content
moderator_refused user content e = rw e

editor_refused :
    (user : OwnershipUser) (content : OwnedContent)
    → user.role ≡ some "editor"
    → can_delete_owned_content user content ≡ false
unfolding can_delete_owned_content
editor_refused user content e = rw e

-- A moderator or an editor is refused the deletion of any content, their own included, though
-- `canDeleteOwnContent` grants both roles the deletion of their own content.
pub own_deletion_refused :
    (user : OwnershipUser) (content : OwnedContent) (role : String)
    → In role ("moderator" ∷ "editor" ∷ [])
    → user.role ≡ some role
    → (can_delete_own_content role ≡ true) × (can_delete_owned_content user content ≡ false)
own_deletion_refused user content role (inl q) e =
    (rw q own_deletion_granted.0, moderator_refused user content (e ∙ ap some q))
own_deletion_refused user content role (inr (inl q)) e =
    (rw q own_deletion_granted.1, editor_refused user content (e ∙ ap some q))
own_deletion_refused user content role (inr (inr z)) e = absurd z
