-- ===== src/Audit/Adapters.antt =====
-- The adapters as storages of the audit logger: src/storage/memory.ts and src/storage/file.ts.
use tinyland_auth.Base.{
  ℕ, zero, suc, ◌-◌, ◌≤◌, Bool, ◌&&◌, ◌==◌, ◌≡◌, String, List, [], ◌∷◌, ok, length, filter, take,
  length-filter-le, arith, refl, ◌∙◌,
}
use tinyland_auth.Types.{at, not_after}
use tinyland_auth.Types.Audit.{AuditEvent, Detail, login_failure, event_type_name}
use tinyland_auth.Memory.{Memory, given}
use tinyland_auth.Memory.Audit as MemoryAudit
use tinyland_auth.File.{Files, Writing}
use tinyland_auth.File.Audit as FileAudit
use tinyland_auth.Audit.{
  AuditStorage, same_key, key_of, attempts_of, count_attempts, failures_since, query,
  get_failed_login_attempts,
}
use tinyland_auth.Audit.Attempts.{attempts_of-count_attempts}
use tinyland_auth.Audit.Delivery.{NeverFails}

-- The memory adapter, with the ids that it takes: the state counts those that are taken.
unfoldable pub memory_audit : (ℕ → String) → AuditStorage (Memory × ℕ)
memory_audit ids = record {
  log_audit_event = λ event s.
      let (logged, m) = MemoryAudit.log_audit_event (ids s.1) event s.0 in
      (ok logged, (m, suc s.1));
  get_audit_events = λ filters s. ok (MemoryAudit.get_audit_events filters s.0);
  get_recent_audit_events = λ limit s. ok (MemoryAudit.get_recent_audit_events limit s.0);
}

-- The file adapter, likewise.
unfoldable pub file_audit : Writing → (ℕ → String) → AuditStorage (Files × ℕ)
file_audit w ids = record {
  log_audit_event = λ event s.
      let (answer, files) = FileAudit.log_audit_event w (ids s.1) event s.0 in
      (answer, (files, suc s.1));
  get_audit_events = λ filters s. ok (FileAudit.get_audit_events filters s.0);
  get_recent_audit_events = λ limit s. ok (FileAudit.get_recent_audit_events limit s.0);
}

pub memory_audit-NeverFails : (ids : ℕ → String) → NeverFails (memory_audit ids)
unfolding NeverFails memory_audit MemoryAudit.log_audit_event
memory_audit-NeverFails ids e s = (record { id = ids s.1; data_of = e }, refl)

filter-filter :
    (p q : AuditEvent → Bool) (es : List AuditEvent)
    → filter p (filter q es) ≡ filter (λ e. q e && p e) es
filter-filter p q [] = refl
filter-filter p q (e ∷ es) = ground (arith, filter-filter p q es)

-- A failed login with a key, in a window of time.
abbrev pub is_attempt : ℕ → ℕ → Detail → AuditEvent → Bool
is_attempt now window k e =
    event_type_name e.data_of.event_type == event_type_name login_failure
    && (not_after (at (now - window)) e.data_of.timestamp && same_key (key_of e) k)

-- Over the memory adapter, the count of failed logins under a key is the number of events in the
-- log that are failed logins in the window with that key.
pub attempts_of-get_failed_login_attempts :
    (ids : ℕ → String) (now window : ℕ) (k : Detail) (m : Memory) (n : ℕ)
    → (attempts : List (Detail × ℕ)) × (get_failed_login_attempts
          (memory_audit ids)
          now
          window
          (m, n)
        ≡ ok attempts)
      × (attempts_of k attempts ≡ length (filter (is_attempt now window k) m.audit_events))
unfolding get_failed_login_attempts query memory_audit MemoryAudit.get_audit_events
    MemoryAudit.filter_if given attempts_of
attempts_of-get_failed_login_attempts ids now window k m n =
    let failures = MemoryAudit.get_audit_events (failures_since (now - window)) m in
    (
      count_attempts failures [],
      refl,
      attempts_of-count_attempts k failures []
          ∙ rw
              (
                filter-filter (λ e. same_key (key_of e) k)
                    (λ e. not_after (at (now - window)) e.data_of.timestamp)
                    (filter
                      (λ e. event_type_name e.data_of.event_type == event_type_name login_failure)
                      m.audit_events),
                filter-filter
                    (λ e.
                      not_after (at (now - window)) e.data_of.timestamp && same_key (key_of e) k)
                    (λ e. event_type_name e.data_of.event_type == event_type_name login_failure)
                    m.audit_events,
              )
              (omega arith),
    )

length-take : (n : ℕ) (es : List AuditEvent) → length (take n es) ≤ n
length-take zero es = omega arith
length-take (suc n) [] = omega arith
length-take (suc n) (e ∷ es) = omega (arith, length-take n es)

-- Over the file adapter, no key is counted more than a hundred times, however many failed logins
-- the log holds.
pub file_attempts_bounded :
    (w : Writing) (ids : ℕ → String) (now window : ℕ) (k : Detail) (files : Files) (n : ℕ)
    → (attempts : List (Detail × ℕ)) × (get_failed_login_attempts
          (file_audit w ids)
          now
          window
          (files, n)
        ≡ ok attempts)
      × (attempts_of k attempts ≤ 100)
unfolding get_failed_login_attempts query file_audit FileAudit.get_audit_events attempts_of
file_attempts_bounded w ids now window k files n =
    let matching = FileAudit.matching_events (failures_since (now - window)) files.audit_log in
    let counted = attempts_of-count_attempts k (take 100 matching) [] in
    (
      count_attempts (take 100 matching) [],
      refl,
      omega (
        arith,
        counted,
        length-take 100 matching,
        length-filter-le (λ e. same_key (key_of e) k) (take 100 matching),
      ),
    )
