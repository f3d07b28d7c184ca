-- ===== src/File/Users.antt =====
-- The users of the file adapter: src/storage/file.ts.
use tinyland_auth.Base.{
  ℕ, Bool, true, false, String, List, [], ◌∷◌, ◌++◌, ◌==◌, Option, none, some, Result, ok, err,
  find, concat,
}
use tinyland_auth.Types.{AdminUser, UserUpdates, merge_user, at}
use tinyland_auth.File.{Files, Writing, write_json_file, change_first, remove_first}

-- `hasUsers`
unfoldable pub has_users : Files → Bool
has_users files = elim files.users [ [] ↦ false | _ ∷ _ ↦ true ]

-- `getUser`
unfoldable pub get_user : String → Files → Option AdminUser
get_user id files = find (λ u. u.id == id) files.users

-- `getUserByHandle`
unfoldable pub get_user_by_handle : String → Files → Option AdminUser
get_user_by_handle handle files = find (λ u. u.handle == handle) files.users

-- `u.email === email`
abbrev pub has_email : String → AdminUser → Bool
has_email email u = elim u.email [ none ↦ false | some e ↦ e == email ]

-- `getUserByEmail`
unfoldable pub get_user_by_email : String → Files → Option AdminUser
get_user_by_email email files = find (has_email email) files.users

-- `getAllUsers`
unfoldable pub get_all_users : Files → List AdminUser
get_all_users files = files.users

-- `createUser`, with the id that `randomUUID` gives.
unfoldable pub create_user : Writing → String → ℕ → AdminUser → Files → Result AdminUser × Files
create_user w id now data_of files =
    let user : AdminUser = record data_of { id = id; created_at = at now; updated_at = at now } in
    write_json_file w user (record files { users = files.users ++ user ∷ [] }) files

-- `updateUser` with the function that the spread of the updates is.
unfoldable pub change_user :
    Writing → String → (AdminUser → AdminUser) → Files → Result AdminUser × Files
change_user w id change files = elim (find (λ u. u.id == id) files.users) [
  | none ↦ (err (concat ("User not found: " ∷ id ∷ [])), files)
  | some user ↦
      write_json_file w (change user)
        (record files { users = change_first (λ u. u.id == id) change files.users }) files
]

-- `updateUser`
unfoldable pub update_user : Writing → String → ℕ → UserUpdates → Files → Result AdminUser × Files
update_user w id now updates files =
    change_user w id (λ u. record (merge_user u updates) { updated_at = at now }) files

-- `deleteUser`
unfoldable pub delete_user : Writing → String → Files → Result Bool × Files
delete_user w id files = elim (find (λ u. u.id == id) files.users) [
  | none ↦ (ok false, files)
  | some user ↦
      write_json_file w true (record files { users = remove_first (λ u. u.id == id) files.users })
        files
]
