-- ===== src/File/Sessions.antt =====
-- The sessions of the file adapter: src/storage/file.ts.
use tinyland_auth.Base.{
  ℕ, ◌+◌, ◌-◌, Bool, true, false, String, List, [], ◌∷◌, ◌++◌, ◌==◌, Option, none, some, Result, ok,
  err, ◌>>◌, ◌>>=◌, find, filter, length, concat,
}
use tinyland_auth.Roles.{role_name}
use tinyland_auth.Types.{
  at, before, Session, SessionUser, SessionOwner, SessionMetadata, SessionUpdates, merge_session,
}
use tinyland_auth.Sessions.Policy.{
  BoundedSessionPolicy, assert_bounded_session_policy, assert_stored_sessions, bounded_sessions,
  is_owned, is_foreign,
}
use tinyland_auth.Memory.{given}
use tinyland_auth.Memory.Sessions.{or_text, metadata_text, metadata_location}
use tinyland_auth.File.{Files, Writing, write_json_file, when_ok, change_first, remove_first}

-- `readSessions`
unfoldable pub read_sessions : Files → Result (List Session)
read_sessions files = assert_stored_sessions files.sessions >> ok files.sessions

-- The end of `mutateSessions`: the next sessions are tested and written.
unfoldable pub store_sessions : {A : Type 0} → Writing → List Session × A → Files → Result A × Files
store_sessions w (next, value) files =
    when_ok (assert_stored_sessions next)
      (λ _. write_json_file w value (record files { sessions = next }) files) files

-- `mutateSessions`
unfoldable pub mutate_sessions :
    {A : Type 0} → Writing → (List Session → Result (List Session × A)) → Files → Result A × Files
mutate_sessions w operation files =
    when_ok (read_sessions files >>= operation) (λ next. store_sessions w next files) files

-- `getAllSessions`
unfoldable pub get_all_sessions : Files → Result (List Session)
get_all_sessions files = read_sessions files

-- `getSession`
unfoldable pub get_session : String → Files → Result (Option Session)
get_session id files = read_sessions files >>= λ sessions. ok (find (λ s. s.id == id) sessions)

-- `getSessionsByUser`
unfoldable pub get_sessions_by_user : String → Files → Result (List Session)
get_sessions_by_user user_id files =
    read_sessions files >>= λ sessions. ok (filter (is_owned user_id) sessions)

-- `userData.id ? { … } : undefined`
unfoldable pub session_user : SessionOwner → Option SessionUser
session_user user = elim (given user.id) [
  | none ↦ none
  | some id ↦ some (record {
    id = id;
    username = or_text user.handle "";
    name = or_text user.display_name (or_text user.handle "");
    role = elim user.role [ none ↦ "viewer" | some r ↦ role_name r ];
    needs_onboarding = user.needs_onboarding;
    onboarding_step = user.onboarding_step;
  })
]

-- The session of `insertSession`, with the random id, the time and `sessionMaxAge`.
unfoldable pub new_session :
    ℕ → String → ℕ → String → SessionOwner → Option SessionMetadata → Session
new_session max_age id now user_id user metadata = record {
  id = id;
  user_id = user_id;
  expires = at (now + max_age);
  expires_at = at (now + max_age);
  created_at = at now;
  user = session_user user;
  client_ip = or_text (metadata_text (λ md. some md.client_ip) metadata) "";
  client_ip_masked = metadata_text (λ md. md.client_ip_masked) metadata;
  user_agent = or_text (metadata_text (λ md. some md.user_agent) metadata) "";
  device_type = metadata_text (λ md. md.device_type) metadata;
  browser_fingerprint = metadata_text (λ md. md.browser_fingerprint) metadata;
  geo_location = metadata_location metadata;
  temp_totp_secret = none;
  temp_totp_expires_at = none;
}

-- `policy ? boundedSessions(…) : [...sessions, session]`
unfoldable pub next_sessions :
    Option BoundedSessionPolicy → ℕ → Session → List Session → Result (List Session)
next_sessions none now session sessions = ok (sessions ++ session ∷ [])
next_sessions (some policy) now session sessions = bounded_sessions sessions session policy now

-- `insertSession`, for a session that is made
unfoldable pub insert_session :
    Writing → Option BoundedSessionPolicy → ℕ → Session → Files → Result Session × Files
insert_session w policy now session files =
    mutate_sessions w
      (λ sessions. next_sessions policy now session sessions >>= λ next. ok (next, session)) files

-- `createSession`
unfoldable pub create_session :
    Writing
    → ℕ
    → String
    → ℕ
    → String
    → SessionOwner
    → Option SessionMetadata
    → Files
    → Result Session × Files
create_session w max_age id now user_id user metadata files =
    insert_session w none now (new_session max_age id now user_id user metadata) files

-- `createSessionWithPolicy`
unfoldable pub create_session_with_policy :
    Writing
    → ℕ
    → String
    → ℕ
    → String
    → SessionOwner
    → Option SessionMetadata
    → BoundedSessionPolicy
    → Files
    → Result Session × Files
create_session_with_policy w max_age id now user_id user metadata policy files =
    when_ok (assert_bounded_session_policy policy)
      (λ _.
        insert_session w (some policy) now (new_session max_age id now user_id user metadata) files)
      files

-- `updateSession`: the spread of the updates on the entry of the id.
unfoldable pub updated_sessions :
    String → SessionUpdates → List Session → Result (List Session × Session)
updated_sessions id updates sessions = elim (find (λ s. s.id == id) sessions) [
  | none ↦ err (concat ("Session not found: " ∷ id ∷ []))
  | some s ↦ ok (
    change_first (λ s. s.id == id) (λ s. merge_session s updates) sessions,
    merge_session s updates,
  )
]

unfoldable pub update_session : Writing → String → SessionUpdates → Files → Result Session × Files
update_session w id updates files = mutate_sessions w (updated_sessions id updates) files

-- `deleteSession`
unfoldable pub without_session : String → List Session → List Session × Bool
without_session id sessions = elim (find (λ s. s.id == id) sessions) [
  | none ↦ (sessions, false)
  | some s ↦ (remove_first (λ s. s.id == id) sessions, true)
]

unfoldable pub delete_session : Writing → String → Files → Result Bool × Files
delete_session w id files = mutate_sessions w (λ sessions. ok (without_session id sessions)) files

-- A filter and how many entries it takes out.
unfoldable pub keep_sessions : (Session → Bool) → List Session → List Session × ℕ
keep_sessions keep sessions =
    (filter keep sessions, length sessions - length (filter keep sessions))

-- `deleteUserSessions`
unfoldable pub delete_user_sessions : Writing → String → Files → Result ℕ × Files
delete_user_sessions w user_id files =
    mutate_sessions w (λ sessions. ok (keep_sessions (is_foreign user_id) sessions)) files

-- `new Date(s.expires) > now`
abbrev pub lives_on : ℕ → Session → Bool
lives_on now s = before (at now) s.expires

-- `cleanupExpiredSessions`
unfoldable pub cleanup_expired_sessions : Writing → ℕ → Files → Result ℕ × Files
cleanup_expired_sessions w now files =
    mutate_sessions w (λ sessions. ok (keep_sessions (lives_on now) sessions)) files
