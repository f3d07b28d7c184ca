-- ===== src/Tests/File.antt =====
-- The theorems on the file adapter at concrete inputs: src/storage/file.ts.
use tinyland_auth.Base.{true, false, List, [], ◌∷◌, ◌≡◌, none, some, refl}
use tinyland_auth.Types.{Session, SessionUpdates, at}
use tinyland_auth.File.{Files, no_files, Writing}
use tinyland_auth.File.Abstract.{SessionCall, creating, updating, deleting_of, cleaning, view}
use tinyland_auth.File.Runs.{run, effects, run_refines}
use tinyland_auth.Tests.Samples.{owner_of}

abbrev works : Writing
works = record { renamed = true; synced = true }

abbrev unsynced : Writing
unsynced = record { renamed = true; synced = false }

abbrev renaming : SessionUpdates
renaming = record {
  id = some "s9";
  user_id = none;
  expires = none;
  expires_at = none;
  created_at = none;
  client_ip = none;
  user_agent = none;
  user = none;
  client_ip_masked = none;
  device_type = none;
  browser_fingerprint = none;
  geo_location = none;
  temp_totp_secret = none;
  temp_totp_expires_at = none;
}

abbrev creation : SessionCall
creation = creating 1000 "s1" 5 "u1" (owner_of "ann") none

abbrev calls : List (Writing × SessionCall)
calls =
    (works, creation)
    ∷ (works, updating "s1" renaming)
    ∷ (works, deleting_of "u2")
    ∷ (works, cleaning 10)
    ∷ []

calls_answer : (run calls no_files).0 ≡ true
unfolding tinyland_auth.File.write_json_file tinyland_auth.File.when_ok
    tinyland_auth.File.Sessions.read_sessions tinyland_auth.File.Sessions.store_sessions
    tinyland_auth.File.Sessions.mutate_sessions tinyland_auth.File.Sessions.new_session
    tinyland_auth.File.Sessions.next_sessions tinyland_auth.File.Sessions.insert_session
    tinyland_auth.File.Sessions.create_session tinyland_auth.File.Sessions.updated_sessions
    tinyland_auth.File.Sessions.update_session tinyland_auth.File.Sessions.keep_sessions
    tinyland_auth.File.Sessions.delete_user_sessions
    tinyland_auth.File.Sessions.cleanup_expired_sessions tinyland_auth.Types.merge_session
    tinyland_auth.Sessions.Policy.is_stored_session tinyland_auth.Sessions.Policy.all_stored
    tinyland_auth.Sessions.Policy.assert_stored_sessions
calls_answer = refl

run_refines_example : view (run calls no_files).1 "s9" ≡ effects calls (view no_files) "s9"
run_refines_example = run_refines calls no_files calls_answer "s9"
