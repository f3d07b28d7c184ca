-- ===== src/Memory/Sessions.antt =====
-- The sessions of the memory adapter: src/storage/memory.ts.
use tinyland_auth.Base.{
  ℕ, ◌+◌, ◌*◌, Bool, String, List, [], ◌∷◌, Option, none, some, Result, ok, err, ◌>>◌,
  if◌then◌else◌, concat, filter, length,
}
use tinyland_auth.Base.Assoc.{Assoc, get, put, remove, has, values, discard}
use tinyland_auth.Roles.{role_name}
use tinyland_auth.Types.{
  at, Session, SessionOwner, SessionMetadata, GeoLocation, SessionUpdates, merge_session,
}
use tinyland_auth.Sessions.Policy.{
  BoundedSessionPolicy, assert_bounded_session_policy, bounded_sessions, is_owned, is_live,
}
use tinyland_auth.Sessions.Storage.{has_expired}
use tinyland_auth.Memory.{Memory, given}

-- `getSession`, at the time `now`: an expired session is deleted.
unfoldable pub get_session : ℕ → String → Memory → Option Session × Memory
get_session now id m = elim (get id m.sessions) [
  | none ↦ (none, m)
  | some s ↦
      if has_expired now s
      then (none, record m { sessions = remove id m.sessions })
      else (some s, m)
]

-- `getSessionsByUser`
unfoldable pub get_sessions_by_user : ℕ → String → Memory → List Session
get_sessions_by_user now user_id m = filter (is_live user_id now) (values m.sessions)

-- `getAllSessions`
unfoldable pub get_all_sessions : Memory → List Session
get_all_sessions m = values m.sessions

-- `a || b` on an optional text
unfoldable pub or_text : Option String → String → String
or_text o other = elim (given o) [ none ↦ other | some s ↦ s ]

-- A field of the optional metadata.
unfoldable pub metadata_text :
    (SessionMetadata → Option String) → Option SessionMetadata → Option String
metadata_text field none = none
metadata_text field (some md) = field md

unfoldable pub metadata_location : Option SessionMetadata → Option GeoLocation
metadata_location none = none
metadata_location (some md) = md.geo_location

-- Seven days in milliseconds.
abbrev pub session_lifetime : ℕ
session_lifetime = 7 * 24 * 60 * 60 * 1000

-- `newSession`, with the id that `randomUUID` gives and the time.
unfoldable pub new_session : String → ℕ → String → SessionOwner → Option SessionMetadata → Session
new_session id now user_id user metadata = record {
  id = id;
  user_id = user_id;
  expires = at (now + session_lifetime);
  expires_at = at (now + session_lifetime);
  created_at = at now;
  user = some (record {
    id = or_text user.id user_id;
    username = or_text user.handle "";
    name = or_text user.display_name (or_text user.handle "");
    role = elim user.role [ none ↦ "viewer" | some r ↦ role_name r ];
    needs_onboarding = user.needs_onboarding;
    onboarding_step = user.onboarding_step;
  });
  client_ip = or_text (metadata_text (λ md. some md.client_ip) metadata) "unknown";
  client_ip_masked = metadata_text (λ md. md.client_ip_masked) metadata;
  user_agent = or_text (metadata_text (λ md. some md.user_agent) metadata) "unknown";
  device_type = some (or_text (metadata_text (λ md. md.device_type) metadata) "unknown");
  browser_fingerprint = metadata_text (λ md. md.browser_fingerprint) metadata;
  geo_location = metadata_location metadata;
  temp_totp_secret = none;
  temp_totp_expires_at = none;
}

-- `createSession`
unfoldable pub create_session :
    String → ℕ → String → SessionOwner → Option SessionMetadata → Memory → Session × Memory
create_session id now user_id user metadata m =
    let session = new_session id now user_id user metadata in
    (session, record m { sessions = put session.id session m.sessions })

-- `new Map(next.map((item) => [item.id, item]))`, from a map that has entries
unfoldable pub map_from : Assoc Session → List Session → Assoc Session
map_from m [] = m
map_from m (s ∷ ss) = map_from (put s.id s m) ss

-- What `createSessionWithPolicy` does with the list that the policy gives: an exception leaves the map.
unfoldable pub store_bounded : Session → Memory → Result (List Session) → Result Session × Memory
store_bounded session m (err e) = (err e, m)
store_bounded session m (ok next) = (ok session, record m { sessions = map_from [] next })

-- `createSessionWithPolicy`
unfoldable pub create_session_with_policy :
    String
    → ℕ
    → String
    → SessionOwner
    → Option SessionMetadata
    → BoundedSessionPolicy
    → Memory
    → Result Session × Memory
create_session_with_policy id now user_id user metadata policy m =
    let session = new_session id now user_id user metadata in
    store_bounded session m (
      assert_bounded_session_policy policy
      >> bounded_sessions (values m.sessions) session policy now)

-- `updateSession`
unfoldable pub update_session : String → SessionUpdates → Memory → Result Session × Memory
update_session id updates m = elim (get id m.sessions) [
  | none ↦ (err (concat ("Session " ∷ id ∷ " not found" ∷ [])), m)
  | some s ↦
      let session = record (merge_session s updates) { id = id } in
      (ok session, record m { sessions = put id session m.sessions })
]

-- `deleteSession`
unfoldable pub delete_session : String → Memory → Bool × Memory
delete_session id m = (has id m.sessions, record m { sessions = remove id m.sessions })

-- `deleteUserSessions`: how many sessions were the user's, and the store without them.
unfoldable pub delete_user_sessions : String → Memory → ℕ × Memory
delete_user_sessions user_id m = (
  length (filter (is_owned user_id) (values m.sessions)),
  record m { sessions = discard (is_owned user_id) m.sessions },
)

-- `cleanupExpiredSessions`
unfoldable pub cleanup_expired_sessions : ℕ → Memory → ℕ × Memory
cleanup_expired_sessions now m = (
  length (filter (has_expired now) (values m.sessions)),
  record m { sessions = discard (has_expired now) m.sessions },
)
