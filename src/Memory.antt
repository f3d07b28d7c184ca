-- ===== src/Memory.antt =====
-- The storage adapter that keeps everything in maps: src/storage/memory.ts.
use tinyland_auth.Base.{
  String, List, [], is_empty, if◌then◌else◌, Option, none, some, Bool, true, false,
}
use tinyland_auth.Base.Assoc.{Assoc}
use tinyland_auth.Types.{AdminUser, Session}
use tinyland_auth.Types.Secrets.{EncryptedTotpSecret, BackupCodeSet}
use tinyland_auth.Types.Invitations.{AdminInvitation}
use tinyland_auth.Types.Audit.{AuditEvent}
pub mod Indexing
pub mod Lookup
pub mod Reindex
pub mod UserLaws
pub mod Users
pub mod Sessions
pub mod SessionLaws
pub mod Bounded
pub mod Factors
pub mod Invitations
pub mod Audit

-- The fields of `MemoryStorageAdapter`
pub record Memory : Type 0 where
  pub users : Assoc AdminUser
  pub users_by_handle : Assoc String
  pub users_by_email : Assoc String
  pub sessions : Assoc Session
  pub totp_secrets : Assoc EncryptedTotpSecret
  pub backup_codes : Assoc BackupCodeSet
  pub invitations : Assoc AdminInvitation
  pub audit_events : List AuditEvent

-- The initial fields, and what `close` leaves
unfoldable pub empty_memory : Memory
empty_memory = record {
  users = [];
  users_by_handle = [];
  users_by_email = [];
  sessions = [];
  totp_secrets = [];
  backup_codes = [];
  invitations = [];
  audit_events = [];
}

-- `text || null` of an optional text, as the tests `if (text)` read it
unfoldable pub given : Option String → Option String
given none = none
given (some s) = if is_empty s then none else some s
