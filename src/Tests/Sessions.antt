-- ===== src/Tests/Sessions.antt =====
-- Runs of the session components, and their theorems on them: src/storage/session-policy.ts, src/storage/memory.ts and src/core/session/index.ts.
use tinyland_auth.Base.{
  ℕ, ◌≤◌, true, String, List, [], ◌∷◌, ◌≡◌, ◌≢◌, none, ok, inl, inr, refl, In, arith,
}
use tinyland_auth.Types.{at, Session}
use tinyland_auth.Sessions.Policy.{
  BoundedSessionPolicy, bounded_sessions, assert_bounded_session_policy, assert_stored_sessions,
  all_stored, is_stored_session, retained_sessions, own_sessions, sort_sessions, insert_session,
  sorts_before,
}
use tinyland_auth.Sessions.Order.{created_ms}
use tinyland_auth.Sessions.Eviction.{evicts_oldest, evicts_only_at_bound}
use tinyland_auth.Sessions.Store.{bounded_store}

abbrev sample : String → String → ℕ → ℕ → Session
sample id user_id created expires = record {
  id = id;
  user_id = user_id;
  expires = at expires;
  expires_at = at expires;
  created_at = at created;
  user = none;
  client_ip = "unknown";
  client_ip_masked = none;
  user_agent = "unknown";
  device_type = none;
  browser_fingerprint = none;
  geo_location = none;
  temp_totp_secret = none;
  temp_totp_expires_at = none;
}

abbrev policy_of : ℕ → BoundedSessionPolicy
policy_of n = record { max_concurrent_sessions = n; overflow = "evict-oldest-created" }

-- Two live sessions of ann, the newer one first, one of bob and an expired one of ann.
abbrev newer : Session
newer = sample "s2" "ann" 200 900

abbrev older : Session
older = sample "s1" "ann" 100 900

abbrev bobs : Session
bobs = sample "s3" "bob" 50 900

abbrev expired : Session
expired = sample "s4" "ann" 10 20

abbrev added : Session
added = sample "s5" "ann" 500 1500

abbrev stored : List Session
stored = newer ∷ older ∷ bobs ∷ expired ∷ []

abbrev after_two : List Session
after_two = bobs ∷ newer ∷ added ∷ []

-- The oldest live session goes.
inserts_two : bounded_sessions stored added (policy_of 2) 500 ≡ ok after_two
unfolding bounded_sessions assert_bounded_session_policy assert_stored_sessions all_stored
    is_stored_session retained_sessions own_sessions sort_sessions insert_session sorts_before
inserts_two = refl

inserts_three :
    bounded_sessions stored added (policy_of 3) 500 ≡ ok (bobs ∷ older ∷ newer ∷ added ∷ [])
unfolding bounded_sessions assert_bounded_session_policy assert_stored_sessions all_stored
    is_stored_session retained_sessions own_sessions sort_sessions insert_session sorts_before
inserts_three = refl

bounded_store_example : all_stored [] after_two ≡ true
bounded_store_example = bounded_store stored added (policy_of 2) 500 after_two inserts_two

older_gone : ¬ In older after_two
older_gone m = ground arith

newer_other : newer ≢ added
newer_other e = ground arith

evicts_oldest_example : created_ms older ≤ created_ms newer
evicts_oldest_example =
    evicts_oldest stored added (policy_of 2) 500 after_two inserts_two older newer (inr (inl refl))
      refl older_gone (inr (inl refl)) refl newer_other

evicts_only_at_bound_example : In older (bobs ∷ older ∷ newer ∷ added ∷ [])
evicts_only_at_bound_example =
    evicts_only_at_bound stored added (policy_of 3) 500 (bobs ∷ older ∷ newer ∷ added ∷ [])
      inserts_three older (inr (inl refl)) refl (omega arith)
