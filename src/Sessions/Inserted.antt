-- ===== src/Sessions/Inserted.antt =====
-- The parts of a bounded insertion that succeeds: src/storage/session-policy.ts.
use tinyland_auth.Base.{
  ℕ, ◌-◌, ◌≤◌, true, String, List, [], ◌∷◌, ◌++◌, ◌≡◌, arith, In, In-filter, filter, length, ok,
}
use tinyland_auth.Types.{Session}
use tinyland_auth.Sessions.Policy.{
  BoundedSessionPolicy, assert_bounded_session_policy, assert_stored_sessions, all_stored, is_owned,
  is_foreign, is_live, own_sessions, retained_sessions, bounded_sessions, sort_sessions,
}
use tinyland_auth.Sessions.Order.{drop-In, sort-In}

-- The result of a bounded insertion that succeeds.
abbrev pub inserted : List Session → Session → BoundedSessionPolicy → ℕ → List Session
inserted sessions session policy now =
    filter (is_foreign session.user_id) sessions
    ++ retained_sessions sessions session policy now
    ++ session ∷ []

assert_policy_ok :
    (policy : BoundedSessionPolicy)
    → assert_bounded_session_policy policy ≡ ok tt
    → 1 ≤ policy.max_concurrent_sessions
unfolding assert_bounded_session_policy
assert_policy_ok policy h = ground arith

assert_stored_ok : (ss : List Session) → assert_stored_sessions ss ≡ ok tt → all_stored [] ss ≡ true
unfolding assert_stored_sessions
assert_stored_ok ss h = ground arith

pub record Accepted (sessions : List Session) (session : Session) (policy : BoundedSessionPolicy)
    (now : ℕ) (next : List Session) : Type 0 where
  pub bound : 1 ≤ policy.max_concurrent_sessions
  pub stored : all_stored [] (sessions ++ session ∷ []) ≡ true
  pub result : next ≡ inserted sessions session policy now

pub accepted :
    (sessions : List Session) (session : Session) (policy : BoundedSessionPolicy) (now : ℕ)
    (next : List Session)
    → bounded_sessions sessions session policy now ≡ ok next
    → Accepted sessions session policy now next
unfolding bounded_sessions
accepted sessions session policy now next h = record {
  bound = assert_policy_ok policy (ground arith);
  stored = assert_stored_ok (sessions ++ session ∷ []) (ground arith);
  result = ground arith;
}

-- The retained sessions are stored sessions of the user that have not run out.
pub retained_live :
    (sessions : List Session) (session : Session) (policy : BoundedSessionPolicy) (now : ℕ)
    (a : Session)
    → In a (retained_sessions sessions session policy now)
    → In a sessions × (is_live session.user_id now a ≡ true)
unfolding retained_sessions own_sessions
retained_live sessions session policy now a m =
    let own = sort_sessions (filter (is_live session.user_id now) sessions) in
    (In-filter (is_live session.user_id now) a sessions).0
      ((sort-In a _).0 (drop-In (length own - (policy.max_concurrent_sessions - 1)) a own m))

pub live_owned : (u : String) (now : ℕ) (a : Session) → is_live u now a ≡ true → is_owned u a ≡ true
live_owned u now a h = ground arith
