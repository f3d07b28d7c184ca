-- ===== src/Memory/Audit.antt =====
-- The audit log of the memory adapter: src/storage/memory.ts.
use tinyland_auth.Base.{
  ℕ, ◌-◌, Bool, String, List, [], ◌∷◌, ◌++◌, ◌==◌, Option, none, some, if◌then◌else◌, filter,
  length, drop, take, ltb, reverse, nat_eq,
}
use tinyland_auth.Types.{not_after}
use tinyland_auth.Types.Audit.{
  event_type_name, severity_name, EventData, AuditEvent, AuditEventFilters,
}
use tinyland_auth.Memory.{Memory, given}

-- The cap on the log's length.
abbrev pub max_audit_events : ℕ
max_audit_events = 10000

-- `list.slice(-n)`, for a positive `n`
unfoldable pub last_entries {ℓ} : {A : Type ℓ} → ℕ → List A → List A
last_entries n xs = drop (length xs - n) xs

-- `logAuditEvent`, with the id that it makes of the time and a random number.
unfoldable pub log_audit_event : String → EventData → Memory → AuditEvent × Memory
log_audit_event id event m =
    let audit_event : AuditEvent = record { id = id; data_of = event } in
    let pushed = m.audit_events ++ audit_event ∷ [] in
    (
      audit_event,
      record m {
        audit_events =
            if ltb max_audit_events (length pushed)
            then last_entries max_audit_events pushed
            else pushed;
      },
    )

abbrev pub same_text : Option String → String → Bool
same_text none s = Bool.false
same_text (some t) s = t == s

-- One step of the chain of filters: an absent filter keeps every event.
unfoldable pub filter_if {ℓ k} :
    {A : Type ℓ} {F : Type k} → Option F → (F → A → Bool) → List A → List A
filter_if none test xs = xs
filter_if (some f) test xs = filter (test f) xs

-- `getAuditEvents`
unfoldable pub get_audit_events : AuditEventFilters → Memory → List AuditEvent
get_audit_events filters m =
    let of_type =
      filter_if filters.event_type
        (λ t e. event_type_name e.data_of.event_type == event_type_name t) m.audit_events in
    let of_user =
      filter_if (given filters.user_id) (λ u e. same_text e.data_of.user_id u) of_type in
    let of_severity =
      filter_if filters.severity (λ s e. severity_name e.data_of.severity == severity_name s)
        of_user in
    let started =
      filter_if filters.start_date (λ d e. not_after d e.data_of.timestamp) of_severity in
    let ended = filter_if filters.end_date (λ d e. not_after e.data_of.timestamp d) started in
    let skipped : List AuditEvent = elim filters.offset [ none ↦ ended | some n ↦ drop n ended ] in
    elim filters.limit [ none ↦ skipped | some n ↦ if nat_eq n 0 then skipped else take n skipped ]

-- `getRecentAuditEvents`; `slice(-0)` is the whole list.
unfoldable pub get_recent_audit_events : ℕ → Memory → List AuditEvent
get_recent_audit_events limit m =
    reverse (if nat_eq limit 0 then m.audit_events else last_entries limit m.audit_events)
