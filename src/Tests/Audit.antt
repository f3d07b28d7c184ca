-- ===== src/Tests/Audit.antt =====
-- The theorems on the audit logger at concrete inputs: src/modules/audit/index.ts.
use tinyland_auth.Base.{
  ℕ, Bool, true, false, String, List, [], ◌∷◌, ◌≡◌, ◌≤◌, Option, none, some, Result, ok, err,
  length, filter, In, refl, inl, inr,
}
use tinyland_auth.Types.Audit.{
  AuditEvent, EventData, Detail, text, login_failure, user_deleted, login_success,
}
use tinyland_auth.Memory.{Memory, empty_memory}
use tinyland_auth.Audit.{
  AuditStorage, AuditLoggerConfig, LogContext, Logger, new_logger, new_event, close, write_events,
  get_failed_login_attempts, attempts_of,
}
use tinyland_auth.Audit.Delivery.{
  LoggerStep, logged, flushed, timer_fired, logged_events, run, IsSettled, close-run, run-IsSettled,
}
use tinyland_auth.Audit.Kept.{recording, IsKept, logged_events-IsKept}
use tinyland_auth.Audit.Adapters.{
  memory_audit, file_audit, memory_audit-NeverFails, is_attempt,
  attempts_of-get_failed_login_attempts, file_attempts_bounded,
}
use tinyland_auth.File.{Files, no_files, Writing}
use tinyland_auth.File.Audit as FileAudit

abbrev config : AuditLoggerConfig
config = record { enabled = true; max_buffer_size = some 3 }

abbrev context : LogContext
context = record {
  user_id = none;
  target_user_id = none;
  handle = none;
  ip_address = some "10.0.0.1";
  user_agent = none;
  source = none;
}

abbrev ids : ℕ → String
ids n = "event"

abbrev failure : EventData
failure = new_event 5 login_failure (("handle", text "ann") ∷ []) context

-- Two failed logins, the second under the address, and a deletion, which is critical.
abbrev steps : List LoggerStep
steps =
    logged 5 login_failure (("handle", text "ann") ∷ []) context
    ∷ timer_fired
    ∷ logged 6 login_failure [] context
    ∷ logged 7 user_deleted [] context
    ∷ logged 8 login_success [] context
    ∷ []

abbrev memory : AuditStorage (Memory × ℕ)
memory = memory_audit ids

abbrev stored : Memory × ℕ
stored = (write_events memory (logged_events steps) (empty_memory, 0)).1

-- One event waits before the close.
waits : length (run memory config steps new_logger (empty_memory, 0)).0.buffer ≡ 1
unfolding tinyland_auth.Audit.get_severity_for_event_type tinyland_auth.Audit.new_event
    tinyland_auth.Audit.write_events tinyland_auth.Audit.flush_buffer tinyland_auth.Audit.flush
    tinyland_auth.Audit.push_event tinyland_auth.Audit.log tinyland_auth.Audit.Delivery.step
    tinyland_auth.Audit.Delivery.run tinyland_auth.Audit.Adapters.memory_audit
    tinyland_auth.Types.Audit.event_type_name tinyland_auth.Types.Audit.severity_name
waits = refl

all_stored : length stored.0.audit_events ≡ 4
unfolding tinyland_auth.Audit.write_events tinyland_auth.Audit.Delivery.logged_events
    tinyland_auth.Audit.Adapters.memory_audit tinyland_auth.Memory.Audit.log_audit_event
    tinyland_auth.Memory.empty_memory
all_stored = refl

close-run_example :
    close memory
      (run memory config steps new_logger (empty_memory, 0)).0
      (run memory config steps new_logger (empty_memory, 0)).1
    ≡ (new_logger, stored)
close-run_example =
    close-run memory config (memory_audit-NeverFails ids) refl steps (empty_memory, 0)

run-IsSettled_example : IsSettled config (run memory config steps new_logger (empty_memory, 0)).0
run-IsSettled_example =
    run-IsSettled memory config (memory_audit-NeverFails ids) refl steps (empty_memory, 0)

abbrev one_answer : EventData → Bool → Result AuditEvent × Bool
one_answer event true = (err "full", true)
one_answer event false = (ok (record { id = "e1"; data_of = event }), true)

-- A storage that accepts one event, and no more.
abbrev one_event : AuditStorage Bool
one_event = record {
  log_audit_event = λ event full. one_answer event full;
  get_audit_events = λ filters full. ok [];
  get_recent_audit_events = λ limit full. ok [];
}

abbrev kept_run : Logger × (Bool × List EventData)
kept_run = run (recording one_event) config steps new_logger (false, [])

-- The failed flushes leave three events in the buffer, and one was accepted.
keeps : length kept_run.0.buffer ≡ 3
unfolding tinyland_auth.Audit.get_severity_for_event_type tinyland_auth.Audit.new_event
    tinyland_auth.Audit.write_events tinyland_auth.Audit.flush_buffer tinyland_auth.Audit.flush
    tinyland_auth.Audit.push_event tinyland_auth.Audit.log tinyland_auth.Audit.Delivery.step
    tinyland_auth.Audit.Delivery.run tinyland_auth.Audit.Kept.recording
    tinyland_auth.Types.Audit.event_type_name tinyland_auth.Types.Audit.severity_name
keeps = refl

logged_events-IsKept_example : IsKept failure kept_run.0 kept_run.1.1
unfolding logged_events
logged_events-IsKept_example =
    logged_events-IsKept one_event config refl steps false failure (inl refl)

-- The failed logins of the stored events under a handle.
counts : length (filter (is_attempt 10 10 (text "ann")) stored.0.audit_events) ≡ 1
unfolding tinyland_auth.Audit.new_event tinyland_auth.Audit.write_events
    tinyland_auth.Audit.Delivery.logged_events tinyland_auth.Audit.Adapters.memory_audit
    tinyland_auth.Memory.Audit.log_audit_event tinyland_auth.Memory.empty_memory
    tinyland_auth.Types.Audit.event_type_name tinyland_auth.Base.Assoc.get
counts = refl

attempts_of-get_failed_login_attempts_example :
    (attempts : List (Detail × ℕ)) × (get_failed_login_attempts memory 10 10 (stored.0, 4)
      ≡ ok attempts)
    × (attempts_of (text "ann") attempts
        ≡ length (filter (is_attempt 10 10 (text "ann")) stored.0.audit_events))
attempts_of-get_failed_login_attempts_example =
    attempts_of-get_failed_login_attempts ids 10 10 (text "ann") stored.0 4

abbrev writing : Writing
writing = record { renamed = true; synced = true }

abbrev files : Files
files = (FileAudit.log_audit_event writing "e1" failure no_files).1

file_attempts_bounded_example :
    (attempts : List (Detail × ℕ)) × (get_failed_login_attempts
        (file_audit writing ids)
        10
        10
        (files, 1)
      ≡ ok attempts)
    × (attempts_of (text "ann") attempts ≤ 100)
file_attempts_bounded_example = file_attempts_bounded writing ids 10 10 (text "ann") files 1
