-- ===== src/Activity/Throttle.antt =====
-- When a session is renewed: src/core/session/activity-tracking.ts.
use tinyland_auth.Base.{
  ℕ, ◌+◌, true, false, String, Option, none, some, Result, ok, err, ltb, if◌then◌else◌, ◌≡◌, ◌<◌,
  ◌≤◌, arith, refl, sym, subst, eq_refl, inl, inr, Bool-cases,
}
use tinyland_auth.Base.Assoc.{Assoc, get, IsMap, get-put, get-discard}
use tinyland_auth.Types.{Session}
use tinyland_auth.Sessions.Storage.{SessionStorage}
use tinyland_auth.Activity.{
  ActivityTrackingConfig, renewed_lately, should_renew_session, cleanup_renewal_tracking,
  record_renewal, renew_found, renew_session_on_activity,
}

module _ (config : ActivityTrackingConfig) where
  -- An entry that `cleanupRenewalTracking` removes holds nothing back, then or later.
  removed_is_old :
      (now later : ℕ) (entry : Option ℕ)
      → now ≤ later
      → renewed_lately later config.min_renewal_interval_ms (elim entry [
        | none ↦ none
        | some t ↦ if ltb (t + config.min_renewal_interval_ms) now then none else some t
      ])
        ≡ renewed_lately later config.min_renewal_interval_ms entry
  unfolding renewed_lately
  removed_is_old now later none h = refl
  removed_is_old now later (some t) h = ground arith

  -- `cleanupRenewalTracking` never changes a decision: at its time or later, a session is to be
  -- renewed with the cleaned map exactly when it is with the map as it was.
  pub cleanup_keeps_decisions :
      (now later : ℕ) (renewals : Assoc ℕ) (session : Session)
      → IsMap renewals
      → now ≤ later
      → should_renew_session config later (cleanup_renewal_tracking config now renewals) session
        ≡ should_renew_session config later renewals session
  unfolding should_renew_session cleanup_renewal_tracking
  cleanup_keeps_decisions now later renewals session m h =
      rw
        (
          get-discard (λ t. ltb (t + config.min_renewal_interval_ms) now) session.id renewals m,
          removed_is_old now later (get session.id renewals) h,
        )
        refl

  module _ {S : Type 0} (st : SessionStorage S) where
    recorded :
        (now : ℕ) (id : String) (renewals : Assoc ℕ) (answer : Result Session × S)
        → (record_renewal config st now id renewals answer).0 ≡ true
        → get id (record_renewal config st now id renewals answer).1.1 ≡ some now
    unfolding record_renewal
    recorded now id renewals (err e, t) h = ground arith
    recorded now id renewals (ok session, t) h = rw (get-put id id now renewals, eq_refl id) refl

    found_recorded :
        (clock : ℕ → ℕ) (id : String) (renewals : Assoc ℕ) (answer : Option Session × S)
        → (renew_found config st clock id renewals answer).0 ≡ true
        → get id (renew_found config st clock id renewals answer).1.1 ≡ some (clock 3)
    unfolding renew_found
    found_recorded clock id renewals (none, s) h = ground arith
    found_recorded clock id renewals (some session, s) h =
        elim (Bool-cases (should_renew_session config (clock 1) renewals session)) [
          | inl e ↦
              rw (e, renew_found) (recorded (clock 3) id renewals _ (rw (e, renew_found) at h))
          | inr e ↦ absurd (ground (e, arith))
        ]

    -- A renewal that succeeds is recorded under the session's id with the last reading of the clock.
    renewal_recorded :
        (clock : ℕ → ℕ) (id : String) (s : S) (renewals : Assoc ℕ)
        → (renew_session_on_activity config st clock id (s, renewals)).0 ≡ true
        → get id (renew_session_on_activity config st clock id (s, renewals)).1.1 ≡ some (clock 3)
    unfolding renew_session_on_activity
    renewal_recorded clock id s renewals h =
        found_recorded clock id renewals (st.get_session (clock 0) id s) h

    too_soon :
        (now last : ℕ) (renewals : Assoc ℕ) (session : Session)
        → get session.id renewals ≡ some last
        → 0 < last
        → now < last + config.min_renewal_interval_ms
        → should_renew_session config now renewals session ≡ false
    unfolding should_renew_session renewed_lately
    too_soon now last renewals session e positive early = rw e (ground arith)

    held_back :
        (clock : ℕ → ℕ) (id : String) (last : ℕ) (renewals : Assoc ℕ) (answer : Option Session × S)
        → ((session : Session) → answer.0 ≡ some session → session.id ≡ id)
        → get id renewals ≡ some last
        → 0 < last
        → clock 1 < last + config.min_renewal_interval_ms
        → renew_found config st clock id renewals answer ≡ (false, (answer.1, renewals))
    unfolding renew_found
    held_back clock id last renewals (none, s) same e positive early = refl
    held_back clock id last renewals (some session, s) same e positive early =
        rw
          (
            too_soon (clock 1) last renewals session
                (subst (λ k. get k renewals ≡ some last) (sym (same session refl)) e) positive
                early,
            renew_found,
          )
          refl

    second_held_back :
        (later : ℕ → ℕ) (id : String) (last : ℕ) (state : S × Assoc ℕ)
        → ((session : Session)
            → (st.get_session (later 0) id state.0).0 ≡ some session
            → session.id ≡ id)
        → get id state.1 ≡ some last
        → 0 < last
        → later 1 < last + config.min_renewal_interval_ms
        → renew_session_on_activity config st later id state
          ≡ (false, ((st.get_session (later 0) id state.0).1, state.1))
    unfolding renew_session_on_activity
    second_held_back later id last (s, renewals) same e positive early =
        held_back later id last renewals (st.get_session (later 0) id s) same e positive early

    -- After a renewal that succeeded at a time other than 0, and before the configured interval has
    -- passed since its last reading of the clock, no attempt renews the same session again: it
    -- changes nothing but what looking the session up changes. The adapter is asked only to find a
    -- session under its own id.
    pub renewals_spaced :
        (clock later : ℕ → ℕ) (id : String) (s : S) (renewals : Assoc ℕ)
        → (renew_session_on_activity config st clock id (s, renewals)).0 ≡ true
        → ((session : Session)
            → (st.get_session
                (later 0)
                id
                (renew_session_on_activity config st clock id (s, renewals)).1.0).0
              ≡ some session
            → session.id ≡ id)
        → 0 < clock 3
        → later 1 < clock 3 + config.min_renewal_interval_ms
        → renew_session_on_activity config st later id
            (renew_session_on_activity config st clock id (s, renewals)).1
          ≡ (
            false,
            (
              (st.get_session
                  (later 0)
                  id
                  (renew_session_on_activity config st clock id (s, renewals)).1.0).1,
              (renew_session_on_activity config st clock id (s, renewals)).1.1,
            ),
          )
    renewals_spaced clock later id s renewals renewed same positive early =
        second_held_back later id (clock 3)
          (renew_session_on_activity config st clock id (s, renewals)).1 same
          (renewal_recorded clock id s renewals renewed) positive early
