-- ===== src/File/Audit.antt =====
-- The audit log of the file adapter: src/storage/file.ts.
use tinyland_auth.Base.{
  ℕ, Bool, String, List, [], ◌∷◌, ◌++◌, ◌==◌, Option, none, some, Result, length, drop, take, ltb,
  nat_eq, reverse, if◌then◌else◌, ◌||◌,
}
use tinyland_auth.Types.{not_after}
use tinyland_auth.Types.Audit.{
  event_type_name, severity_name, EventData, AuditEvent, AuditEventFilters,
}
use tinyland_auth.Memory.{given}
use tinyland_auth.Memory.Audit.{max_audit_events, last_entries, filter_if, same_text}
use tinyland_auth.File.{Files, Writing, write_json_file}

-- `events.splice(0, events.length - 10000)` when there are more.
unfoldable pub capped_log : List AuditEvent → List AuditEvent
capped_log events =
    if ltb max_audit_events (length events) then last_entries max_audit_events events else events

-- `logAuditEvent`, with the id that `randomUUID` gives.
unfoldable pub log_audit_event : Writing → String → EventData → Files → Result AuditEvent × Files
log_audit_event w id event files =
    let audit_event : AuditEvent = record { id = id; data_of = event } in
    write_json_file w audit_event
      (record files { audit_log = capped_log (files.audit_log ++ audit_event ∷ []) }) files

-- `e.userId === userId || e.targetUserId === userId`
abbrev pub concerns_user : String → AuditEvent → Bool
concerns_user u e = same_text e.data_of.user_id u || same_text e.data_of.target_user_id u

-- The chain of filters in `getAuditEvents`.
unfoldable pub matching_events : AuditEventFilters → List AuditEvent → List AuditEvent
matching_events filters events =
    let of_type =
      filter_if filters.event_type
        (λ t e. event_type_name e.data_of.event_type == event_type_name t) events in
    let of_user = filter_if (given filters.user_id) concerns_user of_type in
    let of_severity =
      filter_if filters.severity (λ s e. severity_name e.data_of.severity == severity_name s)
        of_user in
    let started =
      filter_if filters.start_date (λ d e. not_after d e.data_of.timestamp) of_severity in
    filter_if filters.end_date (λ d e. not_after e.data_of.timestamp d) started

-- `filters.limit || 100`
abbrev pub limit_of : Option ℕ → ℕ
limit_of none = 100
limit_of (some n) = if nat_eq n 0 then 100 else n

-- `filters.offset || 0`
abbrev pub offset_of : Option ℕ → ℕ
offset_of none = 0
offset_of (some n) = n

-- `getAuditEvents`
unfoldable pub get_audit_events : AuditEventFilters → Files → List AuditEvent
get_audit_events filters files =
    take (limit_of filters.limit)
      (drop (offset_of filters.offset) (matching_events filters files.audit_log))

-- `getRecentAuditEvents`; `slice(-0)` is the whole list.
unfoldable pub get_recent_audit_events : ℕ → Files → List AuditEvent
get_recent_audit_events limit files =
    reverse (if nat_eq limit 0 then files.audit_log else last_entries limit files.audit_log)
