-- ===== src/File.antt =====
-- The storage adapter over JSON files: src/storage/file.ts.
pub mod Users
pub mod Sessions
pub mod Factors
pub mod Invitations
pub mod Audit
pub mod Expected
pub mod Abstract
pub mod Lookup
pub mod Refinement
pub mod Runs
use tinyland_auth.Base.{
  ℕ, Bool, true, false, not, ◌&&◌, String, List, [], ◌∷◌, Option, none, some, Result, ok, err,
  throw_if, ◌>>◌, if◌then◌else◌, ◌==◌,
}
use tinyland_auth.Base.Assoc.{Assoc}
use tinyland_auth.Types.{AdminUser, Session}
use tinyland_auth.Types.Secrets.{EncryptedTotpSecret, BackupCodeSet}
use tinyland_auth.Types.Invitations.{AdminInvitation}
use tinyland_auth.Types.Audit.{AuditEvent}

-- What the files under `authDir` and `totpDir` hold: `admin-users.json`, `sessions.json`,
-- `invites.json` and `logs/audit.json`, a missing file counting as an empty list, the secrets by
-- their handles and the backup codes by their users' ids.
pub record Files : Type 0 where
  pub users : List AdminUser
  pub sessions : List Session
  pub invites : List AdminInvitation
  pub audit_log : List AuditEvent
  pub secrets : Assoc EncryptedTotpSecret
  pub backup_codes : Assoc BackupCodeSet

abbrev pub no_files : Files
no_files = record {
  users = [];
  sessions = [];
  invites = [];
  audit_log = [];
  secrets = [];
  backup_codes = [];
}

-- What becomes of one write: whether its rename, or its unlink, happens, and whether all of it
-- succeeds, the synchronisation of the directory included.
pub record Writing : Type 0 where
  pub renamed : Bool
  pub synced : Bool

abbrev pub succeeds : Writing → Bool
succeeds w = w.renamed && w.synced

-- `writeJsonFileAtomic`: the change reaches the files with the rename, which may happen although
-- the write fails.
unfoldable pub write_json_file : {A : Type 0} → Writing → A → Files → Files → Result A × Files
write_json_file w value changed files =
    (throw_if (not (succeeds w)) "write failed" >> ok value, if w.renamed then changed else files)

-- What a check that throws leaves, and the rest of a method.
unfoldable pub when_ok :
    {A B : Type 0} → Result A → (A → Result B × Files) → Files → Result B × Files
when_ok (err message) rest files = (err message, files)
when_ok (ok value) rest files = rest value

-- `list.findIndex(test)` with the entry, then the list with the entry changed; `splice(index, 1)`.
abbrev pub change_first {ℓ} : {A : Type ℓ} → (A → Bool) → (A → A) → List A → List A
change_first test change [] = []
change_first test change (x ∷ xs) =
    if test x then change x ∷ xs else x ∷ change_first test change xs

abbrev pub remove_first {ℓ} : {A : Type ℓ} → (A → Bool) → List A → List A
remove_first test [] = []
remove_first test (x ∷ xs) = if test x then xs else x ∷ remove_first test xs
