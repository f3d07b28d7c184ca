-- ===== src/Audit.antt =====
-- The audit logger: src/modules/audit/index.ts, over the part of src/storage/interface.ts that it
-- uses. The calls follow one another: none starts while another one waits for the storage. The
-- external logger has no part in the state, since `log` catches what it throws.
use tinyland_auth.Base.{
  ℕ, zero, suc, ◌+◌, ◌-◌, Bool, true, false, ◌&&◌, ◌||◌, String, List, [], ◌∷◌, ◌++◌, ◌==◌, Option,
  none, some, Result, ok, err, ◌>>=◌, length, includes, is_empty, leb, nat_eq, if◌then◌else◌,
}
use tinyland_auth.Base.Assoc.{Assoc, get}
use tinyland_auth.Types.{Timestamp, at}
use tinyland_auth.Types.Audit.{
  AuditEventType, login_failure, event_type_name, AuditSeverity, info, warning, critical,
  severity_name, Detail, text, number, flag, EventData, AuditEvent, AuditEventFilters,
}
pub mod Attempts
pub mod Delivery
pub mod Kept
pub mod Adapters

-- `AuditStorage`
pub record AuditStorage (S : Type 0) : Type 0 where
  pub log_audit_event : EventData → S → Result AuditEvent × S
  pub get_audit_events : AuditEventFilters → S → Result (List AuditEvent)
  pub get_recent_audit_events : ℕ → S → Result (List AuditEvent)

-- `AuditLoggerConfig`, without the storage, the delay of the timer and the external logger.
pub record AuditLoggerConfig : Type 0 where
  pub enabled : Bool
  pub max_buffer_size : Option ℕ

-- `config.maxBufferSize || 100`
abbrev pub size_or : Option ℕ → ℕ
size_or none = 100
size_or (some zero) = 100
size_or (some (suc n)) = suc n

-- The state of `AuditLogger`: the events that wait, and whether a timer is set.
pub record Logger : Type 0 where
  pub buffer : List EventData
  pub timer : Bool

abbrev pub new_logger : Logger
new_logger = record { buffer = []; timer = false }

-- `getSeverityForEventType`
unfoldable pub get_severity_for_event_type : AuditEventType → AuditSeverity
get_severity_for_event_type t =
    if includes (event_type_name t) ("USER_DELETED" ∷ "ROLE_CHANGED" ∷ "TOTP_DISABLED" ∷ [])
    then critical
    else if includes (event_type_name t)
        ("ACCOUNT_LOCKED" ∷ "TOTP_FAILURE" ∷ "LOGIN_FAILURE" ∷ "BACKUP_CODE_USED" ∷ [])
    then warning
    else info

-- The context of `log`, every key absent where there is none.
pub record LogContext : Type 0 where
  pub user_id : Option String
  pub target_user_id : Option String
  pub handle : Option String
  pub ip_address : Option String
  pub user_agent : Option String
  pub source : Option String

abbrev pub source_or : Option String → String
source_or none = "system"
source_or (some s) = if is_empty s then "system" else s

-- The event that `log` makes.
unfoldable pub new_event : ℕ → AuditEventType → Assoc Detail → LogContext → EventData
new_event now event_type details context = record {
  timestamp = at now;
  event_type = event_type;
  user_id = context.user_id;
  target_user_id = context.target_user_id;
  handle = context.handle;
  ip_address = context.ip_address;
  user_agent = context.user_agent;
  details = details;
  severity = get_severity_for_event_type event_type;
  source = source_or context.source;
}

-- `event.severity === 'critical'`
abbrev pub is_critical : EventData → Bool
is_critical event = severity_name event.severity == "critical"

-- The state after the events were taken out of the buffer and written, or not all of them.
abbrev pub after_writing : {S : Type 0} → List EventData → Bool × S → Logger × S
after_writing events (true, s) = (new_logger, s)
after_writing events (false, s) = (record { buffer = events; timer = false }, s)

-- `details.handle || ipAddress || 'unknown'`, by whether the handle is there and truthy.
abbrev pub or_address : Option String → Detail
or_address none = text "unknown"
or_address (some a) = if is_empty a then text "unknown" else text a

abbrev pub attempt_key : Option Detail → Option String → Detail
attempt_key none address = or_address address
attempt_key (some (text t)) address = if is_empty t then or_address address else text t
attempt_key (some (number n)) address = if nat_eq n 0 then or_address address else number n
attempt_key (some (flag b)) address = if b then flag b else or_address address

abbrev pub key_of : AuditEvent → Detail
key_of e = attempt_key (get "handle" e.data_of.details) e.data_of.ip_address

-- Whether a `Map` takes two keys for one.
abbrev pub same_key : Detail → Detail → Bool
same_key (text a) (text b) = a == b
same_key (number a) (number b) = nat_eq a b
same_key (flag true) (flag b) = b
same_key (flag false) (flag true) = false
same_key (flag false) (flag false) = true
same_key a b = false

-- `attempts.get(key) || 0`
unfoldable pub attempts_of : Detail → List (Detail × ℕ) → ℕ
attempts_of k [] = 0
attempts_of k ((j, n) ∷ m) = if same_key j k then n else attempts_of k m

-- `attempts.set(key, (attempts.get(key) || 0) + 1)`
unfoldable pub count_attempt : Detail → List (Detail × ℕ) → List (Detail × ℕ)
count_attempt k [] = (k, 1) ∷ []
count_attempt k ((j, n) ∷ m) = if same_key j k then (j, suc n) ∷ m else (j, n) ∷ count_attempt k m

-- The loop of `getFailedLoginAttempts`.
unfoldable pub count_attempts : List AuditEvent → List (Detail × ℕ) → List (Detail × ℕ)
count_attempts [] m = m
count_attempts (e ∷ es) m = count_attempts es (count_attempt (key_of e) m)

-- The filters of `getFailedLoginAttempts`, for a window that does not reach before 1970.
abbrev pub failures_since : ℕ → AuditEventFilters
failures_since cutoff = record {
  event_type = some login_failure;
  user_id = none;
  severity = none;
  start_date = some (at cutoff);
  end_date = none;
  limit = none;
  offset = none;
}

module _ {S : Type 0} (st : AuditStorage S) where
  -- The loop of `flush`, and whether it came to its end.
  unfoldable pub write_events : List EventData → S → Bool × S
  write_events [] s = (true, s)
  write_events (e ∷ es) s =
      let (answer, after) = st.log_audit_event e s in
      elim answer [ err message ↦ (false, after) | ok event ↦ write_events es after ]

  -- `flush`
  unfoldable pub flush_buffer : List EventData → Logger → S → Logger × S
  flush_buffer [] l s = (l, s)
  flush_buffer (e ∷ es) l s = after_writing (e ∷ es) (write_events (e ∷ es) s)

  unfoldable pub flush : Logger → S → Logger × S
  flush l s = flush_buffer l.buffer l s

  -- `close`
  unfoldable pub close : Logger → S → Logger × S
  close l s = flush l s

  -- `query` and `getRecentEvents`
  unfoldable pub query : AuditEventFilters → S → Result (List AuditEvent)
  query filters s = st.get_audit_events filters s

  unfoldable pub get_recent_events : ℕ → S → Result (List AuditEvent)
  get_recent_events limit s = st.get_recent_audit_events limit s

  -- `getFailedLoginAttempts`, at a time
  unfoldable pub get_failed_login_attempts : ℕ → ℕ → S → Result (List (Detail × ℕ))
  get_failed_login_attempts now time_window_ms s =
      query (failures_since (now - time_window_ms)) s >>= λ events. ok (count_attempts events [])

  module _ (config : AuditLoggerConfig) where
    -- `log` from its event on.
    unfoldable pub push_event : EventData → Logger → S → Logger × S
    push_event event l s =
        let pushed : Logger = record { buffer = l.buffer ++ event ∷ []; timer = true } in
        if is_critical event || leb (size_or config.max_buffer_size) (length pushed.buffer)
        then flush pushed s
        else (pushed, s)

    -- `log`, at a time
    unfoldable pub log : ℕ → AuditEventType → Assoc Detail → LogContext → Logger → S → Logger × S
    log now event_type details context l s =
        if config.enabled then push_event (new_event now event_type details context) l s else (l, s)
