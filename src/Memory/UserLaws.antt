-- ===== src/Memory/UserLaws.antt =====
-- Creating, updating and deleting a user keeps the indexes right: src/storage/memory.ts.
use tinyland_auth.Base.{
  ℕ, false, String, ◌≡◌, ◌≢◌, inl, inr, none, some, if◌then◌else◌, arith, eq_refl, refl, ◌∙◌, ap,
  subst, Option-cases, is_empty, to_lower,
}
use tinyland_auth.Base.Assoc.{Assoc, get, put, get-put, put-IsMap, remove-IsMap}
use tinyland_auth.Types.{AdminUser, UserUpdates, merge_user, updated_option, at}
use tinyland_auth.Memory.{Memory, given}
use tinyland_auth.Memory.Indexing.{key_of, IsIndex-enter, IsIndex-leave, enter-IsMap, leave-IsMap}
use tinyland_auth.Memory.Lookup.{
  handle_key, email_key, IsIndexed, indexed_iff, index_free, index_owner,
}
use tinyland_auth.Memory.Reindex.{
  index_email_lem, unindex_email_lem, put-OwnIds, remove-OwnIds, folded_free,
  reindex_handle-IsIndex, reindex_email-IsIndex,
}
use tinyland_auth.Memory.Sessions.{delete_user_sessions}
use tinyland_auth.Memory.Factors.{delete_totp_secret, delete_backup_codes}
use tinyland_auth.Memory.Users.{
  indexed_user, get_user, get_user_by_handle, get_user_by_email, create_user, update_user,
  delete_user, reindex_handle, reindex_email, changed_text,
}

-- A new user, with a fresh id and a handle and an email that no user has up to case, keeps the
-- indexes right.
pub create_user-IsIndexed :
    (m : Memory) (id : String) (user : AdminUser)
    → IsIndexed m
    → is_empty id ≡ false
    → get_user id m ≡ none
    → get_user_by_handle user.handle m ≡ none
    → ((e : String) → given user.email ≡ some e → get_user_by_email e m ≡ none)
    → IsIndexed (create_user id user m).1
unfolding create_user get_user get_user_by_handle get_user_by_email
create_user-IsIndexed m id user inv nonempty fresh handle_free email_free =
    let new_user = record user { id = id } in
    record {
      users_map = put-IsMap id new_user m.users inv.users_map;
      handles_map = put-IsMap (to_lower user.handle) id m.users_by_handle inv.handles_map;
      emails_map =
          rw (index_email_lem user.email id m.users_by_email)
            (enter-IsMap (email_key new_user) id m.users_by_email inv.emails_map);
      own_ids = put-OwnIds m.users id new_user refl nonempty inv.own_ids;
      by_handle =
          IsIndex-enter handle_key m.users m.users_by_handle id new_user inv.by_handle fresh (λ k e.
            ground (
              arith,
              index_free handle_key m m.users_by_handle (to_lower user.handle) inv inv.by_handle,
            ));
      by_email = rw (index_email_lem user.email id m.users_by_email) (
          IsIndex-enter email_key m.users m.users_by_email id new_user inv.by_email fresh (λ k.
            folded_free user.email k m.users_by_email (λ e q.
              index_free email_key m m.users_by_email (to_lower e) inv inv.by_email
                (email_free e q))));
    }

-- An update of a user, whose new handle and email, where it brings them, are not empty and belong
-- to no other user up to case, keeps the indexes right; so does an update of an id that no user has.
pub update_user-IsIndexed :
    (m : Memory) (now : ℕ) (id : String) (updates : UserUpdates)
    → IsIndexed m
    → updates.handle ≢ some ""
    → updates.email ≢ some ""
    → ((h : String) (v : AdminUser)
        → updates.handle ≡ some h
        → get_user_by_handle h m ≡ some v
        → v.id ≡ id)
    → ((e : String) (v : AdminUser)
        → updates.email ≡ some e
        → get_user_by_email e m ≡ some v
        → v.id ≡ id)
    → IsIndexed (update_user now id updates m).1
unfolding update_user get_user_by_handle get_user_by_email merge_user
update_user-IsIndexed m now id updates inv hn en hfree efree =
    elim (Option-cases (get id m.users)) [
      | inl missing ↦ rw (missing, update_user) inv
      | inr (user, found) ↦
          let new_user = record (merge_user user updates) { id = id; updated_at = at now } in
          let nonempty = (inv.own_ids id user found).1 in
          let handles =
            reindex_handle-IsIndex m.users m.users_by_handle id user new_user inv.handles_map found
              updates.handle refl hn inv.by_handle
              (λ h q.
                index_owner handle_key m m.users_by_handle (to_lower h) id inv inv.by_handle
                  (λ v. hfree h v q)) in
          let emails =
            reindex_email-IsIndex m.users m.users_by_email id user new_user inv.emails_map found
              updates.email refl en inv.by_email
              (λ e q.
                index_owner email_key m m.users_by_email (to_lower e) id inv inv.by_email
                  (λ v. efree e v q)) in
          rw (found, update_user)
            (record {
              users_map = put-IsMap id new_user m.users inv.users_map;
              handles_map = handles.1;
              emails_map = emails.1;
              own_ids = put-OwnIds m.users id new_user refl nonempty inv.own_ids;
              by_handle = handles.0;
              by_email = emails.0;
            })
    ]

-- The deletion of a user keeps the indexes right.
pub delete_user-IsIndexed :
    (m : Memory) (id : String) → IsIndexed m → IsIndexed (delete_user id m).1
unfolding delete_user delete_user_sessions delete_totp_secret delete_backup_codes
delete_user-IsIndexed m id inv = elim (Option-cases (get id m.users)) [
  | inl missing ↦ rw (missing, delete_user) inv
  | inr (user, found) ↦
      let emails = unindex_email_lem user.email m.users_by_email in
      rw (found, delete_user)
        (record {
          users_map = remove-IsMap id m.users inv.users_map;
          handles_map = remove-IsMap (to_lower user.handle) m.users_by_handle inv.handles_map;
          emails_map = rw emails (leave-IsMap (email_key user) m.users_by_email inv.emails_map);
          own_ids = remove-OwnIds m.users id inv.users_map inv.own_ids;
          by_handle =
              IsIndex-leave handle_key m.users m.users_by_handle id user inv.by_handle inv.users_map
                inv.handles_map found;
          by_email = rw emails (
              IsIndex-leave email_key m.users m.users_by_email id user inv.by_email inv.users_map
                inv.emails_map found);
        })
]

cleared_reindex :
    (user : AdminUser) (id : String) (index : Assoc String)
    → reindex_email (some "") user id index ≡ index
unfolding reindex_email changed_text given
cleared_reindex user id index = refl

indexed_some :
    (id : String) (m : Memory) → is_empty id ≡ false → indexed_user (some id) m ≡ get id m.users
unfolding indexed_user given
indexed_some id m full = ground arith

get-put_same :
    (id : String) (u : AdminUser) (users : Assoc AdminUser) → get id (put id u users) ≡ some u
get-put_same id u users =
    get-put id id u users ∙ ap (λ b. if b then some u else get id users) (eq_refl id)

cleared_merge :
    (user : AdminUser) (updates : UserUpdates)
    → updates.email ≡ some ""
    → (merge_user user updates).email ≡ some ""
unfolding merge_user
cleared_merge user updates e = ap (λ o. updated_option o user.email) e

-- An update that sets a user's email to the empty text leaves the user findable by the old email:
-- the lookup by it then gives the user with the empty email.
pub cleared_email_found :
    (m : Memory) (now : ℕ) (id email : String) (updates : UserUpdates) (user : AdminUser)
    → IsIndexed m
    → get_user_by_email email m ≡ some user
    → user.id ≡ id
    → updates.email ≡ some ""
    → (v : AdminUser) × (get_user_by_email email (update_user now id updates m).1 ≡ some v)
      × (v.email ≡ some "")
unfolding update_user get_user_by_email
cleared_email_found m now id email updates user inv found own cleared =
    let (stored, has_key) =
      (indexed_iff email_key m m.users_by_email (to_lower email) user inv inv.by_email).0 found in
    let leads : get (to_lower email) m.users_by_email ≡ some id =
      (inv.by_email (to_lower email) user.id).1 (ap (key_of email_key) stored ∙ has_key)
      ∙ ap some own in
    let at_id : get id m.users ≡ some user = subst (λ i. get i m.users ≡ some user) own stored in
    let nonempty = (inv.own_ids id user at_id).1 in
    let new_user = record (merge_user user updates) { id = id; updated_at = at now } in
    let after : Memory = record m {
      users = put id new_user m.users;
      users_by_handle = reindex_handle updates.handle user id m.users_by_handle;
      users_by_email = reindex_email updates.email user id m.users_by_email;
    } in
    let leads_after : get (to_lower email) after.users_by_email ≡ some id =
      ap (get (to_lower email)) (
        ap (λ o. reindex_email o user id m.users_by_email) cleared
        ∙ cleared_reindex user id m.users_by_email)
      ∙ leads in
    let finds : get_user_by_email email after ≡ some new_user =
      ap (λ o. indexed_user o after) leads_after
      ∙ indexed_some id after nonempty
      ∙ get-put_same id new_user m.users in
    (new_user, rw (at_id, update_user) finds, cleared_merge user updates cleared)
