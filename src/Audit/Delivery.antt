-- ===== src/Audit/Delivery.antt =====
-- What reaches the storage: src/modules/audit/index.ts.
use tinyland_auth.Base.{
  ℕ, zero, suc, Bool, true, false, not, ◌||◌, List, [], ◌∷◌, ◌++◌, ◌≡◌, Option, none, some, ok, all,
  length, append_nil, append_assoc, subst, leb, ltb, if◌then◌else◌, arith, refl, sym, inl, inr, ap,
  ◌∙◌, Bool-cases,
}
use tinyland_auth.Base.Assoc.{Assoc}
use tinyland_auth.Types.Audit.{AuditEventType, Detail, EventData, AuditEvent}
use tinyland_auth.Audit.{
  AuditStorage, AuditLoggerConfig, LogContext, Logger, new_logger, size_or, new_event, is_critical,
  after_writing, write_events, flush_buffer, flush, close, push_event, log,
}

-- What happens to a logger: a call of `log` at a time, a call of `flush`, and the timer, which
-- flushes where it is set.
pub data LoggerStep : Type 0 where
  logged : ℕ → AuditEventType → Assoc Detail → LogContext → LoggerStep
  flushed : LoggerStep
  timer_fired : LoggerStep

-- The events of the calls of `log`.
unfoldable pub logged_events : List LoggerStep → List EventData
logged_events [] = []
logged_events (logged now t details context ∷ steps) =
    new_event now t details context ∷ logged_events steps
logged_events (flushed ∷ steps) = logged_events steps
logged_events (timer_fired ∷ steps) = logged_events steps

pub logged_events-cons :
    (x : LoggerStep) (steps : List LoggerStep)
    → logged_events (x ∷ steps) ≡ logged_events (x ∷ []) ++ logged_events steps
unfolding logged_events
logged_events-cons (logged now t details context) steps = refl
logged_events-cons flushed steps = refl
logged_events-cons timer_fired steps = refl

-- Fewer events wait than the buffer holds, none of them is critical, and a timer is set exactly
-- when one waits.
abbrev pub has_events : List EventData → Bool
has_events [] = false
has_events (e ∷ es) = true

unfoldable pub IsSettled : AuditLoggerConfig → Logger → Type 0
IsSettled config l =
    (ltb (length l.buffer) (size_or config.max_buffer_size) ≡ true)
    × (all (λ e. not (is_critical e)) l.buffer ≡ true)
    × (l.timer ≡ has_events l.buffer)

has_events-append : (es : List EventData) (e : EventData) → has_events (es ++ e ∷ []) ≡ true
has_events-append [] e = refl
has_events-append (f ∷ es) e = refl

all-append_one :
    (p : EventData → Bool) (es : List EventData) (e : EventData)
    → all p es ≡ true
    → p e ≡ true
    → all p (es ++ e ∷ []) ≡ true
all-append_one p [] e h i = ground arith
all-append_one p (f ∷ es) e h i = ground (arith, all-append_one p es e)

module _ {S : Type 0} (st : AuditStorage S) where
  -- The storage accepts every event.
  unfoldable pub NeverFails : Type 0
  NeverFails = (e : EventData) (s : S) → (a : AuditEvent) × ((st.log_audit_event e s).0 ≡ ok a)

  write_events_step :
      NeverFails
      → (e : EventData) (es : List EventData) (s : S)
      → write_events st (e ∷ es) s ≡ write_events st es (st.log_audit_event e s).1
  unfolding NeverFails write_events
  write_events_step n e es s = rw (write_events, (n e s).1) refl

  write_none : (s : S) → write_events st [] s ≡ (true, s)
  unfolding write_events
  write_none s = refl

  write_events-append :
      NeverFails
      → (es fs : List EventData) (s : S)
      → write_events st (es ++ fs) s ≡ write_events st fs (write_events st es s).1
  unfolding write_events
  write_events-append n [] fs s = refl
  write_events-append n (e ∷ es) fs s =
      rw (write_events_step n e (es ++ fs) s, write_events_step n e es s)
        (write_events-append n es fs _)

  write_events_end : NeverFails → (es : List EventData) (s : S) → (write_events st es s).0 ≡ true
  unfolding write_events
  write_events_end n [] s = refl
  write_events_end n (e ∷ es) s = rw (write_events_step n e es s) (write_events_end n es _)

  -- The storage after the events that wait are written.
  unfoldable pending : Logger → S → S
  pending l s = (write_events st l.buffer s).1

  written_further :
      NeverFails
      → (waiting es fs : List EventData) (t s : S)
      → (write_events st waiting t).1 ≡ (write_events st es s).1
      → (write_events st (waiting ++ fs) t).1 ≡ (write_events st (es ++ fs) s).1
  written_further n waiting es fs t s h =
      rw (write_events-append n waiting fs t, write_events-append n es fs s, h) refl

  after_written :
      (es : List EventData) (r : Bool × S) → r.0 ≡ true → after_writing es r ≡ (new_logger, r.1)
  after_written es (true, s) h = refl
  after_written es (false, s) h = cc

  flush_timed :
      NeverFails
      → (es : List EventData) (t : Bool) (s : S) → t ≡ has_events es
      → flush st (record { buffer = es; timer = t }) s ≡ (new_logger, (write_events st es s).1)
  unfolding flush flush_buffer
  flush_timed n [] t s h = rw (write_none s, h) refl
  flush_timed n (e ∷ es) t s h =
      after_written (e ∷ es) (write_events st (e ∷ es) s) (write_events_end n (e ∷ es) s)

  -- `flush` of a logger whose timer is set exactly when an event waits.
  flush_lem :
      NeverFails
      → (l : Logger) (s : S) → l.timer ≡ has_events l.buffer
      → flush st l s ≡ (new_logger, pending l s)
  unfolding pending
  flush_lem n l s h = flush_timed n l.buffer l.timer s h

  pending_new : (s : S) → pending new_logger s ≡ s
  unfolding pending write_events
  pending_new s = refl

  module _ (config : AuditLoggerConfig) where
    unfoldable pub step : LoggerStep → Logger → S → Logger × S
    step (logged now t details context) l s = log st config now t details context l s
    step flushed l s = flush st l s
    step timer_fired l s = if l.timer then flush st l s else (l, s)

    unfoldable pub run : List LoggerStep → Logger → S → Logger × S
    run [] l s = (l, s)
    run (x ∷ steps) l s = let (m, t) = step x l s in run steps m t

    -- What a step keeps: a settled logger, and the storage with the events of the step after those
    -- that waited.
    abbrev Delivers : List EventData → S → Logger × S → Type 0
    Delivers es s (m, t) = IsSettled config m × (pending m t ≡ (write_events st es s).1)

    size_or_positive : (n : Option ℕ) → ltb 0 (size_or n) ≡ true
    size_or_positive none = ground arith
    size_or_positive (some zero) = ground arith
    size_or_positive (some (suc n)) = ground arith

    new_logger-IsSettled : IsSettled config new_logger
    unfolding IsSettled
    new_logger-IsSettled = (size_or_positive config.max_buffer_size, refl, refl)

    flush-Delivers :
        NeverFails
        → (l : Logger) (s : S) → l.timer ≡ has_events l.buffer
        → Delivers l.buffer s (flush st l s)
    unfolding pending
    flush-Delivers n l s h =
        rw (flush_lem n l s h) (new_logger-IsSettled, pending_new (pending l s))

    push_event-Delivers :
        NeverFails
        → (e : EventData) (l : Logger) (s : S) → IsSettled config l
        → Delivers (l.buffer ++ e ∷ []) s (push_event st config e l s)
    unfolding push_event IsSettled pending
    push_event-Delivers n e l s h =
        let waiting = has_events-append l.buffer e in
        elim (Bool-cases
          (is_critical e || leb (size_or config.max_buffer_size) (length (l.buffer ++ e ∷ [])))) [
            | inl c ↦ rw c (
                flush-Delivers n (record { buffer = l.buffer ++ e ∷ []; timer = true }) s
                  (sym waiting))
            | inr c ↦ rw c (
              (
                ground arith,
                all-append_one (λ f. not (is_critical f)) l.buffer e h.1 (ground arith),
                sym waiting,
              ),
              refl,
            )
          ]

    pub log_enabled :
        config.enabled ≡ true
        → (now : ℕ) (t : AuditEventType) (details : Assoc Detail) (context : LogContext)
          (l : Logger) (s : S)
        → log st config now t details context l s
          ≡ push_event st config (new_event now t details context) l s
    unfolding log
    log_enabled on now t details context l s =
        ap (λ b. if b then push_event st config (new_event now t details context) l s else (l, s))
          on

    timer_lem :
        NeverFails
        → (l : Logger) (s : S) → IsSettled config l
        → Delivers l.buffer s (if l.timer then flush st l s else (l, s))
    unfolding pending IsSettled
    timer_lem n l s h = elim (Bool-cases l.timer) [
      | inl e ↦
          subst (λ b. Delivers l.buffer s (if b then flush st l s else (l, s))) (sym e)
            (flush-Delivers n l s h.2)
      | inr e ↦
          subst (λ b. Delivers l.buffer s (if b then flush st l s else (l, s))) (sym e) (h, refl)
    ]

    -- A step writes nothing but the events that waited and its own.
    step-Delivers :
        NeverFails
        → config.enabled ≡ true
        → (x : LoggerStep) (l : Logger) (s : S) → IsSettled config l
        → Delivers (l.buffer ++ logged_events (x ∷ [])) s (step x l s)
    unfolding step logged_events IsSettled
    step-Delivers n on (logged now t details context) l s h =
        rw (log_enabled on now t details context l s)
          (push_event-Delivers n (new_event now t details context) l s h)
    step-Delivers n on flushed l s h = rw (append_nil l.buffer) (flush-Delivers n l s h.2)
    step-Delivers n on timer_fired l s h = rw (append_nil l.buffer) (timer_lem n l s h)

    run-Delivers :
        NeverFails
        → config.enabled ≡ true
        → (steps : List LoggerStep) (l : Logger) (s : S) → IsSettled config l
        → Delivers (l.buffer ++ logged_events steps) s (run steps l s)
    unfolding run logged_events pending
    run-Delivers n on [] l s h = (h, rw (append_nil l.buffer) refl)
    run-Delivers n on (x ∷ steps) l s h =
        let after = step x l s in
        let own = logged_events (x ∷ []) in
        let (settled, written) = step-Delivers n on x l s h in
        let (end, all_written) = run-Delivers n on steps after.0 after.1 settled in
        (
          end,
          rw (logged_events-cons x steps, sym (append_assoc l.buffer own (logged_events steps)))
              (all_written
                ∙ written_further n after.0.buffer (l.buffer ++ own) (logged_events steps) after.1 s
                    written),
        )

    -- Where logging is on and the storage accepts every event, whatever calls of log and flush and
    -- whatever firings of the timer come before: once the logger is closed, the storage is as if
    -- each logged event had been written at once, in the order of the calls, and none waits.
    pub close-run :
        NeverFails
        → config.enabled ≡ true
        → (steps : List LoggerStep) (s : S)
        → close st (run steps new_logger s).0 (run steps new_logger s).1
          ≡ (new_logger, (write_events st (logged_events steps) s).1)
    unfolding close IsSettled
    close-run n on steps s =
        let (settled, written) = run-Delivers n on steps new_logger s new_logger-IsSettled in
        flush_lem n (run steps new_logger s).0 (run steps new_logger s).1 settled.2
        ∙ ap (λ t. (new_logger, t)) written

    -- Where logging is on and the storage accepts every event, after every sequence of calls fewer
    -- events wait than the buffer's size, none of them is critical, and a timer is set exactly when
    -- one waits.
    pub run-IsSettled :
        NeverFails
        → config.enabled ≡ true
        → (steps : List LoggerStep) (s : S) → IsSettled config (run steps new_logger s).0
    run-IsSettled n on steps s = (run-Delivers n on steps new_logger s new_logger-IsSettled).0
