-- ===== src/Retirement/Writes.antt =====
-- What each step of `apply` does when its write succeeds: src/storage/file.ts, as
-- src/storage/file-totp-retirement.ts calls it.
use tinyland_auth.Base.{
  ℕ, ◌-◌, Bool, true, false, String, List, [], ◌∷◌, ◌==◌, ◌≡◌, some, ok, filter, find, length,
  includes, arith, refl, inl, inr, Bool-cases,
}
use tinyland_auth.Types.{AdminUser, Session}
use tinyland_auth.Sessions.Policy.{is_foreign, is_owned, all_stored, assert_stored_sessions}
use tinyland_auth.File.{Files, Writing, succeeds, write_json_file, when_ok, change_first}
use tinyland_auth.File.Users.{get_user, change_user}
use tinyland_auth.File.Sessions.{
  mutate_sessions, store_sessions, read_sessions, keep_sessions, get_sessions_by_user,
  delete_user_sessions,
}
use tinyland_auth.File.Expected.{
  flags_cleared, retirement_component, clear_totp_flags_expected, confirm_cleared, assert_cleared,
  assert_owner,
}
use tinyland_auth.Retirement.Material.{Encoding}
use tinyland_auth.Retirement.Records.{Committed}
use tinyland_auth.Retirement.Apply.{assert_no_sessions}
use tinyland_auth.Retirement.Owner.{has_id, owner_inv, find_owner, find_changed}
use tinyland_auth.Retirement.Keeps.{IsRetirable, cleared}

-- A filter keeps what `assertStoredSessions` asks for.
pub all_stored-filter :
    (keep : Session → Bool) (ids js : List String) (sessions : List Session)
    → ((id : String) → includes id ids ≡ false → includes id js ≡ false)
    → all_stored ids sessions ≡ true
    → all_stored js (filter keep sessions) ≡ true
unfolding all_stored
all_stored-filter keep ids js [] fewer h = refl
all_stored-filter keep ids js (s ∷ ss) fewer h = elim (Bool-cases (keep s)) [
  | inl e ↦
      let later : (id : String)
          → includes id (s.id ∷ ids) ≡ false
          → includes id (s.id ∷ js) ≡ false =
        λ id d. ground (arith, fewer id) in
      let rest = all_stored-filter keep (s.id ∷ ids) (s.id ∷ js) ss later (ground arith) in
      rw e (ground (arith, fewer s.id, rest))
  | inr e ↦
      let rest =
        all_stored-filter keep (s.id ∷ ids) js ss (λ id d. fewer id (ground arith))
          (ground arith) in
      rw e rest
]

pub write_done :
    {A : Type 0} (w : Writing) (value : A) (changed files : Files)
    → succeeds w ≡ true
    → write_json_file w value changed files ≡ (ok value, changed)
unfolding write_json_file
write_done w value changed files e = elim (Bool-cases w.renamed) [
  | inl r ↦ elim (Bool-cases w.synced) [
    | inl s ↦ rw (r, write_json_file, s) refl
    | inr s ↦ ground arith
  ]
  | inr r ↦ ground arith
]

pub none_owned :
    (user_id : String) (sessions : List Session)
    → filter (is_owned user_id) (filter (is_foreign user_id) sessions) ≡ []
none_owned user_id [] = refl
none_owned user_id (s ∷ ss) = elim (Bool-cases (s.user_id == user_id)) [
  | inl e ↦ rw e (none_owned user_id ss)
  | inr e ↦ rw e (rw e (none_owned user_id ss))
]

pub delete_user_sessions_done :
    (w : Writing) (user_id : String) (files : Files)
    → all_stored [] files.sessions ≡ true
    → succeeds w ≡ true
    → delete_user_sessions w user_id files ≡ (
      ok (length files.sessions - length (filter (is_foreign user_id) files.sessions)),
      record files { sessions = filter (is_foreign user_id) files.sessions },
    )
unfolding delete_user_sessions mutate_sessions store_sessions read_sessions assert_stored_sessions
    when_ok keep_sessions
delete_user_sessions_done w user_id files stored e =
    let rest = all_stored-filter (is_foreign user_id) [] [] files.sessions (λ id d. d) stored in
    rw (stored, delete_user_sessions, mutate_sessions, store_sessions, read_sessions, rest)
      (write_done w _ _ files e)

pub assert_no_sessions_done :
    (user_id : String) (sessions : List Session) (files : Files)
    → all_stored [] sessions ≡ true
    → assert_no_sessions user_id (record files { sessions = filter (is_foreign user_id) sessions })
      ≡ ok tt
unfolding assert_no_sessions get_sessions_by_user read_sessions assert_stored_sessions
assert_no_sessions_done user_id sessions files stored =
    let rest = all_stored-filter (is_foreign user_id) [] [] sessions (λ id d. d) stored in
    rw (rest, assert_no_sessions, get_sessions_by_user, read_sessions, none_owned user_id sessions)
      refl

module _ (js : Encoding) (v : Committed) where
  change_user_done :
      (w : Writing) (id : String) (change : AdminUser → AdminUser) (u : AdminUser) (files : Files)
      → find (has_id id) files.users ≡ some u
      → succeeds w ≡ true
      → change_user w id change files
        ≡ (ok (change u), record files { users = change_first (has_id id) change files.users })
  unfolding change_user
  change_user_done w id change u files found e = rw (found, change_user) (write_done w _ _ files e)

  confirm_done :
      (user_id handle : String) (user u : AdminUser) (files : Files)
      → find (has_id user_id) files.users ≡ some u
      → (u.handle == handle) ≡ true
      → flags_cleared u ≡ true
      → confirm_cleared user_id handle (ok user, files) ≡ (ok tt, files)
  unfolding confirm_cleared assert_cleared get_user
  confirm_done user_id handle user u files found same clear =
      rw (found, confirm_cleared, get_user, same, clear) refl

  pub clear_flags_done :
      (w : Writing) (now : ℕ) (files : Files)
      → IsRetirable js v files
      → retirement_component v.user_id ≡ ok tt
      → retirement_component v.handle ≡ ok tt
      → succeeds w ≡ true
      → clear_totp_flags_expected w v.user_id v.handle now files ≡ (
        ok tt,
        record files { users = change_first (has_id v.user_id) (cleared now) files.users },
      )
  unfolding clear_totp_flags_expected when_ok assert_owner tinyland_auth.Memory.given
  clear_flags_done w now files r named handled e =
      let p = r.passes in
      let (one, same_id, same_handle) = owner_inv v.user_id v.handle files p.user p.owned in
      rw
        (
          named, clear_totp_flags_expected, handled, assert_owner, one, same_id, same_handle,
          p.flagged,
        )
        (rw
          (change_user_done w v.user_id (cleared now) p.user files
            (find_owner v.user_id v.handle files.users p.user one same_id) e)
          (confirm_done v.user_id v.handle (cleared now p.user) (cleared now p.user)
            (record files { users = change_first (has_id v.user_id) (cleared now) files.users })
            (find_changed v.user_id (cleared now) files.users p.user (λ x. refl)
              (find_owner v.user_id v.handle files.users p.user one same_id))
            same_handle refl))
