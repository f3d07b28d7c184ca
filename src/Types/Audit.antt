-- ===== src/Types/Audit.antt =====
-- Audit events: src/types/auth.ts and src/storage/interface.ts.
use tinyland_auth.Base.{ℕ, Bool, String, Option}
use tinyland_auth.Base.Assoc.{Assoc}
use tinyland_auth.Types.{Timestamp}

-- `AuditEventType`
pub data AuditEventType : Type 0 where
  login_success : AuditEventType
  login_failure : AuditEventType
  logout : AuditEventType
  session_expired : AuditEventType
  session_created : AuditEventType
  session_destroyed : AuditEventType
  totp_enabled : AuditEventType
  totp_disabled : AuditEventType
  totp_success : AuditEventType
  totp_failure : AuditEventType
  backup_code_used : AuditEventType
  backup_codes_regenerated : AuditEventType
  user_created : AuditEventType
  user_updated : AuditEventType
  user_deleted : AuditEventType
  user_locked : AuditEventType
  user_unlocked : AuditEventType
  password_changed : AuditEventType
  role_changed : AuditEventType
  account_locked : AuditEventType
  account_unlocked : AuditEventType
  invitation_created : AuditEventType
  invitation_sent : AuditEventType
  invitation_accepted : AuditEventType
  invitation_revoked : AuditEventType
  invitation_expired : AuditEventType
  onboarding_started : AuditEventType
  onboarding_step_completed : AuditEventType
  onboarding_completed : AuditEventType
  onboarding_skipped : AuditEventType
  bootstrap_initiated : AuditEventType
  bootstrap_completed : AuditEventType
  system_configured : AuditEventType
  security_scan : AuditEventType

-- The text that the enumeration gives a type.
unfoldable pub event_type_name : AuditEventType → String
event_type_name login_success = "LOGIN_SUCCESS"
event_type_name login_failure = "LOGIN_FAILURE"
event_type_name logout = "LOGOUT"
event_type_name session_expired = "SESSION_EXPIRED"
event_type_name session_created = "SESSION_CREATED"
event_type_name session_destroyed = "SESSION_DESTROYED"
event_type_name totp_enabled = "TOTP_ENABLED"
event_type_name totp_disabled = "TOTP_DISABLED"
event_type_name totp_success = "TOTP_SUCCESS"
event_type_name totp_failure = "TOTP_FAILURE"
event_type_name backup_code_used = "BACKUP_CODE_USED"
event_type_name backup_codes_regenerated = "BACKUP_CODES_REGENERATED"
event_type_name user_created = "USER_CREATED"
event_type_name user_updated = "USER_UPDATED"
event_type_name user_deleted = "USER_DELETED"
event_type_name user_locked = "USER_LOCKED"
event_type_name user_unlocked = "USER_UNLOCKED"
event_type_name password_changed = "PASSWORD_CHANGED"
event_type_name role_changed = "ROLE_CHANGED"
event_type_name account_locked = "ACCOUNT_LOCKED"
event_type_name account_unlocked = "ACCOUNT_UNLOCKED"
event_type_name invitation_created = "INVITATION_CREATED"
event_type_name invitation_sent = "INVITATION_SENT"
event_type_name invitation_accepted = "INVITATION_ACCEPTED"
event_type_name invitation_revoked = "INVITATION_REVOKED"
event_type_name invitation_expired = "INVITATION_EXPIRED"
event_type_name onboarding_started = "ONBOARDING_STARTED"
event_type_name onboarding_step_completed = "ONBOARDING_STEP_COMPLETED"
event_type_name onboarding_completed = "ONBOARDING_COMPLETED"
event_type_name onboarding_skipped = "ONBOARDING_SKIPPED"
event_type_name bootstrap_initiated = "BOOTSTRAP_INITIATED"
event_type_name bootstrap_completed = "BOOTSTRAP_COMPLETED"
event_type_name system_configured = "SYSTEM_CONFIGURED"
event_type_name security_scan = "SECURITY_SCAN"

-- `AuditSeverity`
pub data AuditSeverity : Type 0 where
  info : AuditSeverity
  warning : AuditSeverity
  error : AuditSeverity
  critical : AuditSeverity

unfoldable pub severity_name : AuditSeverity → String
severity_name info = "info"
severity_name warning = "warning"
severity_name error = "error"
severity_name critical = "critical"

-- A value of `details`.
pub data Detail : Type 0 where
  text : String → Detail
  number : ℕ → Detail
  flag : Bool → Detail

-- `Omit<AuditEvent, 'id'>`
pub record EventData : Type 0 where
  pub timestamp : Timestamp
  pub event_type : AuditEventType
  pub user_id : Option String
  pub target_user_id : Option String
  pub handle : Option String
  pub ip_address : Option String
  pub user_agent : Option String
  pub details : Assoc Detail
  pub severity : AuditSeverity
  pub source : String

-- `AuditEvent`
pub record AuditEvent : Type 0 where
  pub id : String
  pub data_of : EventData

-- `AuditEventFilters`, `none` where the key is absent.
pub record AuditEventFilters : Type 0 where
  pub event_type : Option AuditEventType
  pub user_id : Option String
  pub severity : Option AuditSeverity
  pub start_date : Option Timestamp
  pub end_date : Option Timestamp
  pub limit : Option ℕ
  pub offset : Option ℕ
