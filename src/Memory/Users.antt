-- ===== src/Memory/Users.antt =====
-- The users of the memory adapter and its two indexes: src/storage/memory.ts.
use tinyland_auth.Base.{
  Bool, true, false, String, List, [], ◌∷◌, ◌==◌, Option, none, some, Result, ok, err,
  if◌then◌else◌, concat, to_lower, ℕ,
}
use tinyland_auth.Base.Assoc.{Assoc, get, put, remove, values}
use tinyland_auth.Types.{AdminUser, UserUpdates, merge_user, at}
use tinyland_auth.Memory.{Memory, given}
use tinyland_auth.Memory.Sessions.{delete_user_sessions}
use tinyland_auth.Memory.Factors.{delete_totp_secret, delete_backup_codes}

-- `getUser`
unfoldable pub get_user : String → Memory → Option AdminUser
get_user id m = get id m.users

-- The user whose id an index holds; an empty id counts as none.
unfoldable pub indexed_user : Option String → Memory → Option AdminUser
indexed_user found m = elim (given found) [ none ↦ none | some id ↦ get id m.users ]

-- `getUserByHandle`
unfoldable pub get_user_by_handle : String → Memory → Option AdminUser
get_user_by_handle handle m = indexed_user (get (to_lower handle) m.users_by_handle) m

-- `getUserByEmail`
unfoldable pub get_user_by_email : String → Memory → Option AdminUser
get_user_by_email email m = indexed_user (get (to_lower email) m.users_by_email) m

-- `getAllUsers`
unfoldable pub get_all_users : Memory → List AdminUser
get_all_users m = values m.users

-- `if (email) this.usersByEmail.set(email.toLowerCase(), id)`
unfoldable pub index_email : Option String → String → Assoc String → Assoc String
index_email email id index = elim (given email) [
  | none ↦ index
  | some e ↦ put (to_lower e) id index
]

-- `if (email) this.usersByEmail.delete(email.toLowerCase())`
unfoldable pub unindex_email : Option String → Assoc String → Assoc String
unindex_email email index = elim (given email) [ none ↦ index | some e ↦ remove (to_lower e) index ]

-- `createUser`, with the id that `randomUUID` gives.
unfoldable pub create_user : String → AdminUser → Memory → AdminUser × Memory
create_user id user m =
    let new_user = record user { id = id } in
    (
      new_user,
      record m {
        users = put id new_user m.users;
        users_by_handle = put (to_lower new_user.handle) id m.users_by_handle;
        users_by_email = index_email new_user.email id m.users_by_email;
      },
    )

-- A new value that is neither absent, nor empty, nor the old one.
unfoldable pub changed_text : Option String → Option String → Option String
changed_text new old = elim (given new) [
  | none ↦ none
  | some n ↦ elim old [ none ↦ some n | some o ↦ if n == o then none else some n ]
]

-- The index of handles, updated.
unfoldable pub reindex_handle : Option String → AdminUser → String → Assoc String → Assoc String
reindex_handle new user id index = elim (changed_text new (some user.handle)) [
  | none ↦ index
  | some h ↦ put (to_lower h) id (remove (to_lower user.handle) index)
]

-- The index of emails, updated.
unfoldable pub reindex_email : Option String → AdminUser → String → Assoc String → Assoc String
reindex_email new user id index = elim (changed_text new user.email) [
  | none ↦ index
  | some e ↦ put (to_lower e) id (unindex_email user.email index)
]

-- `updateUser`, at the time `now`.
unfoldable pub update_user : ℕ → String → UserUpdates → Memory → Result AdminUser × Memory
update_user now id updates m = elim (get id m.users) [
  | none ↦ (err (concat ("User " ∷ id ∷ " not found" ∷ [])), m)
  | some user ↦
      let updated_user = record (merge_user user updates) { id = id; updated_at = at now } in
      (
        ok updated_user,
        record m {
          users = put id updated_user m.users;
          users_by_handle = reindex_handle updates.handle user id m.users_by_handle;
          users_by_email = reindex_email updates.email user id m.users_by_email;
        },
      )
]

-- `deleteUser`
unfoldable pub delete_user : String → Memory → Bool × Memory
delete_user id m = elim (get id m.users) [
  | none ↦ (false, m)
  | some user ↦
      let without_user = record m {
        users = remove id m.users;
        users_by_handle = remove (to_lower user.handle) m.users_by_handle;
        users_by_email = unindex_email user.email m.users_by_email;
      } in
      let without_sessions = (delete_user_sessions id without_user).1 in
      let without_secret = (delete_totp_secret user.handle without_sessions).1 in
      (true, (delete_backup_codes id without_secret).1)
]

-- `hasUsers`
unfoldable pub has_users : Memory → Bool
has_users m = elim m.users [ [] ↦ false | _ ∷ _ ↦ true ]
