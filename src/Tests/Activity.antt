-- ===== src/Tests/Activity.antt =====
-- The theorems on the renewal of sessions at concrete inputs: src/core/session/activity-tracking.ts.
use tinyland_auth.Base.{
  ℕ, ◌+◌, Bool, true, false, String, [], ◌∷◌, ◌≡◌, Option, none, some, refl, sym, ap, ◌∙◌, arith,
}
use tinyland_auth.Base.Assoc.{Assoc, get, put, IsMap}
use tinyland_auth.Types.{at, Session, merge_session}
use tinyland_auth.Memory.{Memory, empty_memory}
use tinyland_auth.Memory.Sessions.{new_session, get_session, update_session}
use tinyland_auth.Memory.SessionLaws.{memory_storage}
use tinyland_auth.Activity.{
  default_tracking, expires_late, renewed_lately, should_renew_session, record_renewal, renew_found,
  renew_session_on_activity,
}
use tinyland_auth.Activity.Throttle.{renewals_spaced}
use tinyland_auth.Tests.Samples.{owner_of}

-- A store whose one session runs out a minute after the time 10.
abbrev store : Memory
store = record empty_memory {
  sessions =
      ("s1", record (new_session "s1" 10 "u1" (owner_of "ann") none) { expires = at 60010 }) ∷ [];
}

abbrev clock_from : ℕ → ℕ → ℕ
clock_from start n = start + n

abbrev renewed : Bool × (Memory × Assoc ℕ)
renewed =
    renew_session_on_activity default_tracking memory_storage (clock_from 1000) "s1" (store, [])

renewed_first : renewed.0 ≡ true
unfolding renew_session_on_activity renew_found get_session get should_renew_session expires_late
    renewed_lately record_renewal update_session
renewed_first = refl

abbrev id_of : Option Session → String
id_of none = ""
id_of (some session) = session.id

id_found : id_of (memory_storage.get_session 2000 "s1" renewed.1.0).0 ≡ "s1"
unfolding renew_session_on_activity renew_found get_session get should_renew_session expires_late
    renewed_lately record_renewal update_session put merge_session
id_found = refl

finds_s1 :
    (session : Session)
    → (memory_storage.get_session 2000 "s1" renewed.1.0).0 ≡ some session
    → session.id ≡ "s1"
finds_s1 session h = sym (ap id_of h) ∙ id_found

renewals_spaced_example :
    renew_session_on_activity default_tracking memory_storage (clock_from 2000) "s1" renewed.1
    ≡ (false, ((memory_storage.get_session 2000 "s1" renewed.1.0).1, renewed.1.1))
renewals_spaced_example =
    renewals_spaced default_tracking memory_storage (clock_from 1000) (clock_from 2000) "s1" store
      [] renewed_first finds_s1 (omega arith) (omega arith)

abbrev renewals : Assoc ℕ
renewals = ("s1", 1000) ∷ ("s2", 400000) ∷ []

two_renewals : IsMap renewals
unfolding IsMap get
two_renewals = (refl, (refl, tt))
