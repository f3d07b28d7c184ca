-- ===== src/Bootstrap/Durable.antt =====
-- Both storage adapters take a bootstrap to its end: src/storage/memory.ts, and src/storage/file.ts
-- where every write succeeds.
use tinyland_auth.Base.{
  true, false, String, ◌≡◌, ok, List, [], ◌∷◌, ◌++◌, some, to_lower, arith, refl, ap, ◌∙◌, eq_refl,
}
use tinyland_auth.Base.Assoc.{put, get-put}
use tinyland_auth.Types.{AdminUser}
use tinyland_auth.Types.Secrets.{EncryptedTotpSecret}
use tinyland_auth.Memory.Users as MemoryUsers
use tinyland_auth.Memory.Factors as MemoryFactors
use tinyland_auth.Memory.Audit as MemoryAudit
use tinyland_auth.File.{Files, Writing, write_json_file}
use tinyland_auth.File.Users as FileUsers
use tinyland_auth.File.Factors as FileFactors
use tinyland_auth.File.Audit as FileAudit
use tinyland_auth.Bootstrap.Service.{first_admin}
use tinyland_auth.Bootstrap.Adapters.{memory_bootstrap, file_bootstrap}
use tinyland_auth.Bootstrap.Completes.{CompletionLaws}

-- The memory adapter takes every secret.
unfoldable pub memory_completion_laws : CompletionLaws memory_bootstrap
unfolding MemoryUsers.has_users MemoryUsers.create_user MemoryUsers.get_user
    MemoryFactors.save_totp_secret MemoryFactors.get_totp_secret MemoryFactors.save_backup_codes
    MemoryAudit.log_audit_event
memory_completion_laws = record {
  IsStorable = λ handle secret. Unit;
  stored_user = λ id m. MemoryUsers.get_user id m;
  secret_saved = λ handle secret m _.
      let key = to_lower handle in
      (
        MemoryFactors.save_totp_secret handle secret m,
        refl,
        ap ok (get-put key key secret m.totp_secrets ∙ rw (eq_refl key) refl),
        refl,
      );
  user_created = λ id now state m _.
      let user : AdminUser = record (first_admin now state) { id = id } in
      (
        (MemoryUsers.create_user id (first_admin now state) m).1,
        refl,
        get-put id id user m.users ∙ rw (eq_refl id) refl,
      );
  codes_saved =
      λ user_id codes m. (MemoryFactors.save_backup_codes user_id codes m, refl, λ id. refl);
  event_logged =
      λ event_id event m. ((MemoryAudit.log_audit_event event_id event m).1, refl, λ id. refl);
}

-- A write that succeeds.
abbrev pub durable : Writing
durable = record { renamed = true; synced = true }

pub alone :
    (u : AdminUser) (users : List AdminUser) (files : Files)
    → ok (FileUsers.has_users (record files { users = users })) ≡ ok false
    → FileUsers.get_user u.id (record files { users = users ++ u ∷ [] }) ≡ some u
unfolding FileUsers.has_users FileUsers.get_user
alone u [] files h = rw (eq_refl u.id) refl
alone u (x ∷ xs) files h = ground arith

pub saved_factor_found :
    (handle : String) (secret : EncryptedTotpSecret) (files : Files)
    → FileFactors.is_stored_factor secret handle ≡ true
    → FileFactors.get_totp_secret handle
        (record files { secrets = put handle secret files.secrets })
      ≡ ok (some secret)
unfolding FileFactors.get_totp_secret
saved_factor_found handle secret files fit =
    rw
      (FileFactors.get_totp_secret, get-put handle handle secret files.secrets, eq_refl handle, fit)
      refl

-- The file adapter takes a secret that `isStoredFactor` accepts under the handle.
unfoldable pub file_completion_laws : CompletionLaws (file_bootstrap durable)
unfolding FileUsers.has_users FileUsers.create_user FileUsers.get_user FileFactors.save_totp_secret
    FileFactors.get_totp_secret FileFactors.save_backup_codes FileAudit.log_audit_event
    write_json_file first_admin
file_completion_laws = record {
  IsStorable = λ handle secret. FileFactors.is_stored_factor secret handle ≡ true;
  stored_user = λ id files. FileUsers.get_user id files;
  secret_saved = λ handle secret files fit. (
    (FileFactors.save_totp_secret durable handle secret files).1,
    refl,
    saved_factor_found handle secret files fit,
    refl,
  );
  user_created = λ id now state files unused. (
    (FileUsers.create_user durable id now (first_admin now state) files).1,
    refl,
    alone (record (first_admin now state) { id = id }) files.users files unused,
  );
  codes_saved = λ user_id codes files.
      ((FileFactors.save_backup_codes durable user_id codes files).1, refl, λ id. refl);
  event_logged = λ event_id event files.
      ((FileAudit.log_audit_event durable event_id event files).1, refl, λ id. refl);
}
