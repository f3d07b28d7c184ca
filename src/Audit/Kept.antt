-- ===== src/Audit/Kept.antt =====
-- What a failing storage leaves behind: src/modules/audit/index.ts.
use tinyland_auth.Base.{
  Bool, true, false, ◌||◌, List, [], ◌∷◌, ◌++◌, ◌≡◌, ◌⊎◌, Result, subst, ok, err, In, In-append,
  length, leb, if◌then◌else◌, arith, refl, inl, inr, ap, sym, ◌∙◌, String, Bool-cases, Result-cases,
}
use tinyland_auth.Types.Audit.{EventData, AuditEvent}
use tinyland_auth.Audit.{
  AuditStorage, AuditLoggerConfig, Logger, new_logger, size_or, new_event, is_critical,
  after_writing, write_events, flush_buffer, flush, push_event,
}
use tinyland_auth.Audit.Delivery.{
  LoggerStep, logged, flushed, timer_fired, logged_events, step, run, log_enabled,
  logged_events-cons,
}

-- The events that a storage accepted, before its answer.
abbrev accept : EventData → List EventData → Result AuditEvent → List EventData
accept e accepted (err message) = accepted
accept e accepted (ok event) = e ∷ accepted

-- A storage, with the list of the events that it accepted.
unfoldable pub recording : {S : Type 0} → AuditStorage S → AuditStorage (S × List EventData)
recording st = record {
  log_audit_event = λ e s.
      let (answer, after) = st.log_audit_event e s.0 in (answer, (after, accept e s.1 answer));
  get_audit_events = λ filters s. st.get_audit_events filters s.0;
  get_recent_audit_events = λ limit s. st.get_recent_audit_events limit s.0;
}

true_false : {A : Type 0} → true ≡ false → A
true_false h = cc

-- An event waits or the storage accepted it.
abbrev pub IsKept : EventData → Logger → List EventData → Type 0
IsKept e l accepted = In e l.buffer ⊎ In e accepted

module _ {S : Type 0} (st : AuditStorage S) where
  write_events_ok :
      (f : EventData) (es : List EventData) (s : S × List EventData) (a : AuditEvent)
      → (st.log_audit_event f s.0).0 ≡ ok a
      → write_events (recording st) (f ∷ es) s
        ≡ write_events (recording st) es ((st.log_audit_event f s.0).1, f ∷ s.1)
  unfolding write_events recording
  write_events_ok f es s a h =
      rw (write_events, recording, h)
        (ap (λ r. write_events (recording st) es ((st.log_audit_event f s.0).1, accept f s.1 r)) h)

  write_events_err :
      (f : EventData) (es : List EventData) (s : S × List EventData) (message : String)
      → (st.log_audit_event f s.0).0 ≡ err message
      → write_events (recording st) (f ∷ es) s ≡ (false, ((st.log_audit_event f s.0).1, s.1))
  unfolding write_events recording
  write_events_err f es s message h =
      rw (write_events, recording, h)
        (ap (λ r. (false, ((st.log_audit_event f s.0).1, accept f s.1 r))) h)

  -- What was accepted stays accepted.
  write_events_keeps :
      (e : EventData) (es : List EventData) (s : S × List EventData)
      → In e s.1
      → In e (write_events (recording st) es s).1.1
  unfolding write_events
  write_events_keeps e [] s h = h
  write_events_keeps e (f ∷ es) s h = elim (Result-cases (st.log_audit_event f s.0).0) [
    | inl c ↦ rw (write_events_err f es s c.0 c.1) h
    | inr c ↦ rw (write_events_ok f es s c.0 c.1) (write_events_keeps e es _ (inr h))
  ]

  -- Where the loop comes to its end, it wrote every event.
  write_events_all :
      (e : EventData) (es : List EventData) (s : S × List EventData)
      → In e es
      → (write_events (recording st) es s).0 ≡ true
      → In e (write_events (recording st) es s).1.1
  write_events_all e [] s m h = absurd m
  write_events_all e (f ∷ es) s m h = elim (Result-cases (st.log_audit_event f s.0).0) [
    | inl c ↦ true_false (sym h ∙ ap (λ r. r.0) (write_events_err f es s c.0 c.1))
    | inr c ↦ rw (write_events_ok f es s c.0 c.1) (elim m [
      | inl q ↦ write_events_keeps e es _ (inl q)
      | inr q ↦ write_events_all e es _ q (rw (write_events_ok f es s c.0 c.1) at h)
    ])
  ]

  after_writing_keeps :
      (e : EventData) (es : List EventData) (r : Bool × (S × List EventData))
      → (r.0 ≡ true → In e r.1.1)
      → In e es ⊎ In e r.1.1
      → IsKept e (after_writing es r).0 (after_writing es r).1.1
  after_writing_keeps e es (true, s) h k = inr (h refl)
  after_writing_keeps e es (false, s) h k = k

  flush_buffer_keeps :
      (e : EventData) (es : List EventData) (t : Bool) (s : S × List EventData)
      → In e es ⊎ In e s.1
      → IsKept e
          (flush_buffer (recording st) es (record { buffer = es; timer = t }) s).0
          (flush_buffer (recording st) es (record { buffer = es; timer = t }) s).1.1
  unfolding flush_buffer
  flush_buffer_keeps e [] t s k = k
  flush_buffer_keeps e (f ∷ es) t s k =
      let written = write_events (recording st) (f ∷ es) s in
      elim k [
        | inl m ↦ after_writing_keeps e (f ∷ es) written (write_events_all e (f ∷ es) s m) (inl m)
        | inr a ↦
            after_writing_keeps e (f ∷ es) written (λ q. write_events_keeps e (f ∷ es) s a)
              (inr (write_events_keeps e (f ∷ es) s a))
      ]

  flush_keeps :
      (e : EventData) (l : Logger) (s : S × List EventData)
      → IsKept e l s.1
      → IsKept e (flush (recording st) l s).0 (flush (recording st) l s).1.1
  unfolding flush
  flush_keeps e l s k = flush_buffer_keeps e l.buffer l.timer s k

  module _ (config : AuditLoggerConfig) where
    push_event_keeps :
        (e f : EventData) (l : Logger) (s : S × List EventData)
        → (e ≡ f) ⊎ IsKept e l s.1
        → IsKept e
            (push_event (recording st) config f l s).0
            (push_event (recording st) config f l s).1.1
    unfolding push_event
    push_event_keeps e f l s k =
        let pushed : Logger = record { buffer = l.buffer ++ f ∷ []; timer = true } in
        let kept : IsKept e pushed s.1 = ground (arith, In-append e l.buffer (f ∷ [])) in
        elim (Bool-cases
          (is_critical f || leb (size_or config.max_buffer_size) (length pushed.buffer))) [
            | inl c ↦ rw c (flush_keeps e pushed s kept)
            | inr c ↦ rw c kept
          ]

    step_keeps :
        config.enabled ≡ true
        → (e : EventData) (x : LoggerStep) (l : Logger) (s : S × List EventData)
        → In e (logged_events (x ∷ [])) ⊎ IsKept e l s.1
        → IsKept e (step (recording st) config x l s).0 (step (recording st) config x l s).1.1
    unfolding step logged_events
    step_keeps on e (logged now t details context) l s k =
        rw (log_enabled (recording st) config on now t details context l s)
          (push_event_keeps e (new_event now t details context) l s (ground arith))
    step_keeps on e flushed l s k = flush_keeps e l s (ground arith)
    step_keeps on e timer_fired l s k =
        let kept : IsKept e l s.1 = ground arith in
        elim (Bool-cases l.timer) [
          | inl c ↦
              subst
                (λ b.
                  IsKept e (if b then flush (recording st) l s else (l, s)).0
                    (if b then flush (recording st) l s else (l, s)).1.1)
                (sym c) (flush_keeps e l s kept)
          | inr c ↦
              subst
                (λ b.
                  IsKept e (if b then flush (recording st) l s else (l, s)).0
                    (if b then flush (recording st) l s else (l, s)).1.1)
                (sym c) kept
        ]

    run_keeps :
        config.enabled ≡ true
        → (e : EventData) (steps : List LoggerStep) (l : Logger) (s : S × List EventData)
        → In e (logged_events steps) ⊎ IsKept e l s.1
        → IsKept e (run (recording st) config steps l s).0 (run (recording st) config steps l s).1.1
    unfolding run logged_events
    run_keeps on e [] l s k = ground arith
    run_keeps on e (x ∷ steps) l s k =
        let after = step (recording st) config x l s in
        run_keeps on e steps after.0 after.1 (elim k [
          | inl m ↦
              let parts =
                (In-append e (logged_events (x ∷ [])) (logged_events steps)).0
                  (rw (logged_events-cons x steps) at m) in
              elim parts [ inl own ↦ inr (step_keeps on e x l s (inl own)) | inr later ↦ inl later ]
          | inr q ↦ inr (step_keeps on e x l s (inr q))
        ])

    -- Where logging is on, whatever the storage answers: after every sequence of calls each event
    -- that was logged was accepted by the storage or still waits in the buffer.
    pub logged_events-IsKept :
        config.enabled ≡ true
        → (steps : List LoggerStep) (s : S) (e : EventData) → In e (logged_events steps)
        → IsKept e
            (run (recording st) config steps new_logger (s, [])).0
            (run (recording st) config steps new_logger (s, [])).1.1
    logged_events-IsKept on steps s e m = run_keeps on e steps new_logger (s, []) (inl m)
