-- ===== src/File/Abstract.antt =====
-- The session store of src/storage/file.ts as a partial map from ids to sessions.
use tinyland_auth.Base.{
  ℕ, Bool, true, false, not, String, List, ◌==◌, Option, none, some, Result, ok, err, find,
  if◌then◌else◌,
}
use tinyland_auth.Types.{Session, SessionOwner, SessionMetadata, SessionUpdates, merge_session}
use tinyland_auth.Sessions.Policy.{is_owned}
use tinyland_auth.Sessions.Storage.{unless}
use tinyland_auth.File.{Files, Writing}
use tinyland_auth.File.Sessions.{
  new_session, create_session, update_session, delete_session, delete_user_sessions,
  cleanup_expired_sessions, lives_on,
}

-- The calls that change sessions without a bound, with what the adapter reads besides: the time, the
-- new id and `sessionMaxAge`.
pub data SessionCall : Type 0 where
  creating :
      (max_age : ℕ) (id : String) (now : ℕ) (user_id : String)
      → SessionOwner
      → Option SessionMetadata
      → SessionCall
  updating : (id : String) → SessionUpdates → SessionCall
  deleting : (id : String) → SessionCall
  deleting_of : (user_id : String) → SessionCall
  cleaning : (now : ℕ) → SessionCall

-- Whether a call answers, and the files after it.
abbrev pub answers : {A : Type 0} → Result A × Files → Bool × Files
answers (err message, files) = (false, files)
answers (ok value, files) = (true, files)

abbrev pub called : Writing → SessionCall → Files → Bool × Files
called w (creating max_age id now user_id user metadata) files =
    answers (create_session w max_age id now user_id user metadata files)
called w (updating id updates) files = answers (update_session w id updates files)
called w (deleting id) files = answers (delete_session w id files)
called w (deleting_of user_id) files = answers (delete_user_sessions w user_id files)
called w (cleaning now) files = answers (cleanup_expired_sessions w now files)

-- The abstract store.
abbrev pub View : Type 0
View = String → Option Session

abbrev pub has_session_id : String → Session → Bool
has_session_id id s = s.id == id

abbrev pub view_of : List Session → View
view_of sessions id = find (has_session_id id) sessions

abbrev pub view : Files → View
view files = view_of files.sessions

-- A session stored under its id, over what is there.
abbrev pub stored : Session → View → View
stored s m j = if s.id == j then some s else m j

abbrev pub dropped : String → View → View
dropped id m j = if id == j then none else m j

-- An update moves the session to the id that it gives, if it gives one.
abbrev pub moved : String → Option Session → SessionUpdates → View → View
moved id none updates m = m
moved id (some s) updates m = stored (merge_session s updates) (dropped id m)

-- What a call does to the abstract store.
abbrev pub effect : SessionCall → View → View
effect (creating max_age id now user_id user metadata) m =
    stored (new_session max_age id now user_id user metadata) m
effect (updating id updates) m = moved id (m id) updates m
effect (deleting id) m = dropped id m
effect (deleting_of user_id) m = λ j. unless (is_owned user_id) (m j)
effect (cleaning now) m = λ j. unless (λ s. not (lives_on now s)) (m j)
