-- ===== src/Activity.antt =====
-- The renewal of sessions on activity: src/core/session/activity-tracking.ts.
use tinyland_auth.Base.{
  ℕ, ◌+◌, ◌*◌, Bool, true, false, not, ◌&&◌, ◌||◌, String, List, [], ◌∷◌, Option, none, some,
  Result, ok, err, ◌==◌, ltb, nat_eq, if◌then◌else◌, includes,
}
use tinyland_auth.Base.Assoc.{Assoc, get, put, discard}
use tinyland_auth.Types.{Timestamp, at, invalid, Session, SessionUpdates, no_updates}
use tinyland_auth.Sessions.Storage.{SessionStorage}
pub mod Throttle

-- The numbers of `ActivityTrackingConfig`, which are not negative, and the activities that renew.
pub record ActivityTrackingConfig : Type 0 where
  pub renew_threshold_ms : ℕ
  pub renew_extension_ms : ℕ
  pub min_renewal_interval_ms : ℕ
  pub renewal_activities : List String

-- The defaults of `createActivityTracker`.
abbrev pub default_tracking : ActivityTrackingConfig
default_tracking = record {
  renew_threshold_ms = 24 * 60 * 60 * 1000;
  renew_extension_ms = 7 * 24 * 60 * 60 * 1000;
  min_renewal_interval_ms = 5 * 60 * 1000;
  renewal_activities = "page_view" ∷ "api_call" ∷ "form_submit" ∷ "heartbeat" ∷ [];
}

-- `timeUntilExpiry > renewThresholdMs`; with an invalid date it is false.
unfoldable pub expires_late : ℕ → ℕ → Timestamp → Bool
expires_late now threshold (at t) = ltb (now + threshold) t
expires_late now threshold invalid = false

-- `lastRenewal && now - lastRenewal < minRenewalIntervalMs`: a renewal at time 0 counts as none.
unfoldable pub renewed_lately : ℕ → ℕ → Option ℕ → Bool
renewed_lately now interval none = false
renewed_lately now interval (some last) = not (nat_eq last 0) && ltb now (last + interval)

module _ (config : ActivityTrackingConfig) where
  -- `shouldRenewSession`, with `lastRenewalMap`
  unfoldable pub should_renew_session : ℕ → Assoc ℕ → Session → Bool
  should_renew_session now renewals session =
      not (expires_late now config.renew_threshold_ms session.expires)
      && not (renewed_lately now config.min_renewal_interval_ms (get session.id renewals))

  -- `cleanupRenewalTracking`: `timestamp < now - minRenewalIntervalMs`
  unfoldable pub cleanup_renewal_tracking : ℕ → Assoc ℕ → Assoc ℕ
  cleanup_renewal_tracking now renewals =
      discard (λ timestamp. ltb (timestamp + config.min_renewal_interval_ms) now) renewals

  module _ {S : Type 0} (st : SessionStorage S) where
    -- The end of `renewSessionOnActivity`: a failed update renews nothing.
    unfoldable pub record_renewal : ℕ → String → Assoc ℕ → Result Session × S → Bool × (S × Assoc ℕ)
    record_renewal now id renewals (err e, t) = (false, (t, renewals))
    record_renewal now id renewals (ok session, t) = (true, (t, put id now renewals))

    -- `renewSessionOnActivity` on the session that was found, if any.
    unfoldable pub renew_found :
        (ℕ → ℕ) → String → Assoc ℕ → Option Session × S → Bool × (S × Assoc ℕ)
    renew_found clock id renewals (none, s) = (false, (s, renewals))
    renew_found clock id renewals (some session, s) =
        if should_renew_session (clock 1) renewals session
        then record_renewal (clock 3) id renewals (
            st.update_session id
              (record no_updates { expires = some (at (clock 2 + config.renew_extension_ms)) }) s)
        else (false, (s, renewals))

    -- `renewSessionOnActivity`, with the readings of the clock in their order.
    unfoldable pub renew_session_on_activity : (ℕ → ℕ) → String → S × Assoc ℕ → Bool × (S × Assoc ℕ)
    renew_session_on_activity clock id (s, renewals) =
        renew_found clock id renewals (st.get_session (clock 0) id s)

    -- `trackActivityAndRenew`
    unfoldable pub track_activity_and_renew : (ℕ → ℕ) → String → String → S × Assoc ℕ → S × Assoc ℕ
    track_activity_and_renew clock activity_type id state =
        if includes activity_type config.renewal_activities
        then (renew_session_on_activity clock id state).1
        else state
