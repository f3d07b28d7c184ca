-- ===== src/Ownership.antt =====
-- Content ownership and the role checks on owned content: src/core/permissions/ownership.ts.
pub mod Laws
use tinyland_auth.Base.{
  Bool, true, false, String, List, [], ◌∷◌, Option, none, some, ◌==◌, is_empty, includes, Result,
  ok, err, not, throw_if, if◌then◌else◌,
}

-- `OwnershipUser`; the role is any text.
pub record OwnershipUser : Type 0 where
  pub id : String
  pub role : Option String
  pub handle : Option String
  pub username : Option String

-- `author` of `OwnedContent` and of its front matter
pub record Author : Type 0 where
  pub id : Option String
  pub handle : Option String

-- `frontmatter` of `OwnedContent`
pub record Frontmatter : Type 0 where
  pub author_id : Option String
  pub author_handle : Option String
  pub author : Option Author

-- `OwnedContent`; `null` and `undefined` are both `none`.
pub record OwnedContent : Type 0 where
  pub author_id : Option String
  pub author_handle : Option String
  pub author : Option Author
  pub frontmatter : Option Frontmatter

-- A text that is there and not empty: what passes an `if (text)`.
abbrev pub truthy : Option String → Option String
truthy none = none
truthy (some s) = if is_empty s then none else some s

-- `value?.field`
abbrev pub chain {ℓ} : {A : Type ℓ} → Option A → (A → Option String) → Option String
chain none f = none
chain (some a) f = f a

-- The first text of a row of early returns.
abbrev pub first_text : List (Option String) → Option String
first_text [] = none
first_text (x ∷ xs) = elim (truthy x) [ none ↦ first_text xs | some s ↦ some s ]

-- `extractAuthorId`
unfoldable pub extract_author_id : OwnedContent → Option String
extract_author_id content = first_text (
    content.author_id
    ∷ chain content.author (λ a. a.id)
    ∷ chain content.frontmatter (λ f. f.author_id)
    ∷ chain content.frontmatter (λ f. chain f.author (λ a. a.id))
    ∷ [])

-- `extractAuthorHandle`
unfoldable pub extract_author_handle : OwnedContent → Option String
extract_author_handle content = first_text (
    content.author_handle
    ∷ chain content.author (λ a. a.handle)
    ∷ chain content.frontmatter (λ f. f.author_handle)
    ∷ chain content.frontmatter (λ f. chain f.author (λ a. a.handle))
    ∷ [])

-- `user.handle || user.username`
unfoldable pub user_handle : OwnershipUser → Option String
user_handle user = elim (truthy user.handle) [ none ↦ user.username | some h ↦ some h ]

-- `known && value === known`
abbrev pub matches : Option String → Option String → Bool
matches none value = false
matches (some known) none = false
matches (some known) (some value) = value == known

-- `isContentOwner`
unfoldable pub is_content_owner : OwnershipUser → OwnedContent → Bool
is_content_owner user content =
    if matches (extract_author_id content) (some user.id)
    then true
    else matches (extract_author_handle content) (user_handle user)

-- `canEditContent` of this file, exported as `canEditOwnedContent`
unfoldable pub can_edit_owned_content : OwnershipUser → OwnedContent → Bool
can_edit_owned_content user content = elim (truthy user.role) [
  | none ↦ false
  | some role ↦
      if includes role ("super_admin" ∷ "admin" ∷ "editor" ∷ [])
      then true
      else if role == "moderator"
      then true
      else if role == "event_manager"
      then true
      else if includes role ("contributor" ∷ "member" ∷ [])
      then is_content_owner user content
      else false
]

-- `canDeleteContent` of this file, exported as `canDeleteOwnedContent`
unfoldable pub can_delete_owned_content : OwnershipUser → OwnedContent → Bool
can_delete_owned_content user content = elim (truthy user.role) [
  | none ↦ false
  | some role ↦
      if includes role ("super_admin" ∷ "admin" ∷ [])
      then true
      else if includes role ("contributor" ∷ "member" ∷ [])
      then is_content_owner user content
      else if role == "event_manager"
      then is_content_owner user content
      else false
]

-- `requireContentEditPermission`; the error is the message of the thrown object.
unfoldable pub require_content_edit_permission : OwnershipUser → OwnedContent → Result (Unit {0})
require_content_edit_permission user content =
    throw_if (not (can_edit_owned_content user content))
      "You do not have permission to edit this content"

-- `requireContentDeletePermission`
unfoldable pub require_content_delete_permission : OwnershipUser → OwnedContent → Result (Unit {0})
require_content_delete_permission user content =
    throw_if (not (can_delete_owned_content user content))
      "You do not have permission to delete this content"

-- `isSoleOwner`
unfoldable pub is_sole_owner : OwnershipUser → OwnedContent → Bool
is_sole_owner user content =
    if (elim (truthy user.role) [
      | none ↦ false
      | some role ↦ includes role ("super_admin" ∷ "admin" ∷ "editor" ∷ "moderator" ∷ [])
    ])
    then false
    else is_content_owner user content
