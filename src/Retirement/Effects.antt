-- ===== src/Retirement/Effects.antt =====
-- What a property of the files needs so that an operation keeps it, however its write goes:
-- src/storage/file.ts, as src/storage/file-totp-retirement.ts calls it.
use tinyland_auth.Base.{
  String, ◌==◌, ◌≡◌, Option, none, some, Result, ok, err, find, Result-cases, refl, inl, inr,
  Bool-cases, Option-cases,
}
use tinyland_auth.Types.{AdminUser}
use tinyland_auth.File.{Files, Writing, write_json_file, when_ok, change_first}
use tinyland_auth.File.Users.{change_user}
use tinyland_auth.File.Expected.{unlink_expected, confirm_cleared}
use tinyland_auth.Retirement.Apply.{continued}
use tinyland_auth.Retirement.Owner.{has_id}

module _ (P : Files → Type 0) where
  pub write_keeps :
      {A : Type 0} (w : Writing) (value : A) (changed files : Files)
      → P files
      → P changed
      → P (write_json_file w value changed files).1
  unfolding write_json_file
  write_keeps w value changed files p q = elim (Bool-cases w.renamed) [
    | inl e ↦ rw e q
    | inr e ↦ rw e p
  ]

  pub when_ok_keeps :
      {A B : Type 0} (m : Result A) (rest : A → Result B × Files) (files : Files)
      → P files
      → ((a : A) → m ≡ ok a → P (rest a).1)
      → P (when_ok m rest files).1
  unfolding when_ok
  when_ok_keeps (err e) rest files p q = p
  when_ok_keeps (ok a) rest files p q = q a refl

  pub continued_keeps :
      {A B : Type 0} (m : Result A × Files) (rest : Files → Result B × Files)
      → P m.1
      → ((f : Files) → P f → P (rest f).1)
      → P (continued m rest).1
  continued_keeps (err e, f) rest p q = p
  continued_keeps (ok a, f) rest p q = q f p

  pub unlink_keeps :
      {A : Type 0} (w : Writing) (found : Option A) (digest : A → Result String)
      (expected : Option String) (removed files : Files)
      → P files
      → P removed
      → P (unlink_expected w found digest expected removed files).1
  unfolding unlink_expected
  unlink_keeps w none digest expected removed files p q = p
  unlink_keeps w (some a) digest none removed files p q = p
  unlink_keeps w (some a) digest (some d) removed files p q = elim (Result-cases (digest a)) [
    | inl (m, e) ↦ rw (e, unlink_expected) p
    | inr (actual, e) ↦ elim (Bool-cases (actual == d)) [
      | inr differs ↦ rw (e, unlink_expected, differs) p
      | inl same ↦ elim (Bool-cases w.renamed) [
        | inl r ↦ rw (e, unlink_expected, same, r) q
        | inr r ↦ rw (e, unlink_expected, same, r) p
      ]
    ]
  ]

  pub confirm_keeps :
      (user_id handle : String) (m : Result AdminUser × Files)
      → P m.1
      → P (confirm_cleared user_id handle m).1
  unfolding confirm_cleared
  confirm_keeps user_id handle (err e, f) p = p
  confirm_keeps user_id handle (ok u, f) p = p

  pub change_keeps :
      (w : Writing) (id : String) (change : AdminUser → AdminUser) (files : Files)
      → P files
      → P (record files { users = change_first (has_id id) change files.users })
      → P (change_user w id change files).1
  unfolding change_user
  change_keeps w id change files p q = elim (Option-cases (find (has_id id) files.users)) [
    | inl e ↦ rw (e, change_user) p
    | inr (u, e) ↦ rw (e, change_user) (write_keeps w (change u) _ files p q)
  ]
