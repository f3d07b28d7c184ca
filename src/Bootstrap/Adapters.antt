-- ===== src/Bootstrap/Adapters.antt =====
-- Both storage adapters carry the bootstrap: src/storage/memory.ts and src/storage/file.ts.
use tinyland_auth.Base.{
  Bool, true, false, String, List, [], ◌∷◌, ◌++◌, ◌==◌, ◌≡◌, Result, ok, err, arith, refl, sym, ap,
  subst, inl, inr, Bool-cases,
}
use tinyland_auth.Base.Assoc.{Assoc, put}
use tinyland_auth.Types.{AdminUser}
use tinyland_auth.Memory.{Memory}
use tinyland_auth.Memory.Users as MemoryUsers
use tinyland_auth.Memory.Factors as MemoryFactors
use tinyland_auth.Memory.Audit as MemoryAudit
use tinyland_auth.File.{Files, Writing, write_json_file}
use tinyland_auth.File.Users as FileUsers
use tinyland_auth.File.Factors as FileFactors
use tinyland_auth.File.Audit as FileAudit
use tinyland_auth.Retirement.Effects.{write_keeps}
use tinyland_auth.Bootstrap.{BootstrapStorage}
use tinyland_auth.Bootstrap.Once.{BootstrapLaws}

abbrev has_entries : {A : Type 0} → List A → Bool
has_entries [] = false
has_entries (x ∷ xs) = true

abbrev pub succeeding : {A S : Type 0} → A × S → Result A × S
succeeding (a, s) = (ok a, s)

abbrev silent : {A S : Type 0} → Result A × S → Result (Unit {0}) × S
silent (err m, s) = (err m, s)
silent (ok a, s) = (ok tt, s)

-- The memory adapter.
abbrev pub memory_bootstrap : BootstrapStorage Memory
memory_bootstrap = record {
  has_users = λ m. ok (MemoryUsers.has_users m);
  create_user = λ id now user m. succeeding (MemoryUsers.create_user id user m);
  get_totp_secret = λ handle m. ok (MemoryFactors.get_totp_secret handle m);
  save_totp_secret = λ handle secret m. (ok tt, MemoryFactors.save_totp_secret handle secret m);
  save_backup_codes = λ user_id codes m. (ok tt, MemoryFactors.save_backup_codes user_id codes m);
  log_audit_event = λ id event m. (ok tt, (MemoryAudit.log_audit_event id event m).1);
}

-- The file adapter, where every write may fail in the same way.
abbrev pub file_bootstrap : Writing → BootstrapStorage Files
file_bootstrap w = record {
  has_users = λ files. ok (FileUsers.has_users files);
  create_user = λ id now user files. FileUsers.create_user w id now user files;
  get_totp_secret = λ handle files. FileFactors.get_totp_secret handle files;
  save_totp_secret = λ handle secret files. FileFactors.save_totp_secret w handle secret files;
  save_backup_codes = λ user_id codes files. FileFactors.save_backup_codes w user_id codes files;
  log_audit_event = λ id event files. silent (FileAudit.log_audit_event w id event files);
}

put_some : {V : Type 0} (k : String) (v : V) (m : Assoc V) → has_entries (put k v m) ≡ true
unfolding put
put_some k v [] = refl
put_some k v ((j, w) ∷ m) = elim (Bool-cases (j == k)) [ inl e ↦ rw e refl | inr e ↦ rw e refl ]

pub memory_bootstrap_laws : BootstrapLaws memory_bootstrap
unfolding MemoryUsers.has_users MemoryUsers.create_user MemoryFactors.save_totp_secret
    MemoryFactors.save_backup_codes MemoryAudit.log_audit_event
memory_bootstrap_laws = record {
  create_adds = λ id now user created s t h. ap ok (
      subst (λ x. MemoryUsers.has_users x ≡ true) (ap (λ x. x.1) h)
        (put_some id (record user { id = id }) s.users));
  create_keeps = λ id now user s h. ap ok (put_some id (record user { id = id }) s.users);
  secret_keeps = λ handle secret s h. h;
  codes_keep = λ user_id codes s h. h;
  event_keeps = λ id event s h. h;
}

abbrev Populated : Files → Type 0
Populated files = FileUsers.has_users files ≡ true

appended_some :
    (us : List AdminUser) (u : AdminUser) (files : Files)
    → Populated (record files { users = us ++ u ∷ [] })
unfolding FileUsers.has_users
appended_some [] u files = refl
appended_some (x ∷ xs) u files = refl

pub written_inv :
    {A : Type 0} (w : Writing) (value a : A) (changed files t : Files)
    → write_json_file w value changed files ≡ (ok a, t)
    → t ≡ changed
unfolding write_json_file
written_inv w value a changed files t h = elim (Bool-cases w.renamed) [
  | inl r ↦ sym (ap (λ x. x.1) (rw r at h))
  | inr r ↦ ground arith
]

silent_files : {A S : Type 0} (m : Result A × S) → (silent m).1 ≡ m.1
silent_files (err e, s) = refl
silent_files (ok a, s) = refl

ok_true : {b : Bool} → ok b ≡ ok true → b ≡ true
ok_true h = cc

pub file_bootstrap_laws : (w : Writing) → BootstrapLaws (file_bootstrap w)
unfolding FileUsers.create_user FileFactors.save_totp_secret FileFactors.save_backup_codes
    FileAudit.log_audit_event FileUsers.has_users
file_bootstrap_laws w = record {
  create_adds = λ id now user created s t h.
      ap ok (subst Populated (sym (written_inv w _ created _ s t h)) (appended_some s.users _ s));
  create_keeps = λ id now user s h.
      ap ok (write_keeps Populated w _ _ s (ok_true h) (appended_some s.users _ s));
  secret_keeps = λ handle secret s h. ap ok (
      write_keeps Populated w tt (record s { secrets = put handle secret s.secrets }) s (ok_true h)
        (ok_true h));
  codes_keep = λ user_id codes s h. ap ok (
      write_keeps Populated w tt (record s { backup_codes = put user_id codes s.backup_codes }) s
        (ok_true h) (ok_true h));
  event_keeps = λ id event s h. ap ok (
      subst Populated (sym (silent_files (FileAudit.log_audit_event w id event s))) (
        write_keeps Populated w (record { id = id; data_of = event })
          (record s {
            audit_log =
                FileAudit.capped_log (s.audit_log ++ record { id = id; data_of = event } ∷ []);
          })
          s (ok_true h) (ok_true h)));
}
