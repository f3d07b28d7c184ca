-- ===== src/Tests/Manager.antt =====
-- The theorems on the session manager and the bounded creation at concrete inputs.
use tinyland_auth.Base.{
  ◌≤◌, false, String, List, any, [], ◌∷◌, ◌≡◌, ◌≢◌, none, some, ok, inl, refl, In, length, filter,
  arith, eq_iff, is_empty,
}
use tinyland_auth.Base.Assoc.{get, put, values, IsMap}
use tinyland_auth.Types.{Session}
use tinyland_auth.Sessions.Policy.{
  BoundedSessionPolicy, bounded_sessions, assert_bounded_session_policy, assert_stored_sessions,
  all_stored, is_stored_session, retained_sessions, own_sessions, sort_sessions, insert_session,
  sorts_before, is_owned, is_foreign,
}
use tinyland_auth.Sessions.Storage.{has_expired}
use tinyland_auth.Sessions.Manager.{
  SessionConfig, create_session, get_session, check_expiry, remove_session,
}
use tinyland_auth.Sessions.Lifecycle.{single_session, get_session_sound}
use tinyland_auth.Sessions.Removed.{
  ManagerCall, getting, refreshing, removing_user, cleaning, creating, draws, calls,
  removed_session_stays_gone,
}
use tinyland_auth.Memory.{Memory, empty_memory}
use tinyland_auth.Memory.Sessions.{
  new_session, create_session_with_policy, store_bounded, map_from, or_text, metadata_text,
  metadata_location,
}
use tinyland_auth.Memory.SessionLaws.{memory_storage, memory_session_laws, session_at}
use tinyland_auth.Memory.Bounded.{bounded_creation}
use tinyland_auth.Tests.Samples.{owner_of}

abbrev config : SessionConfig
config = record {
  max_age = 1000;
  renew_threshold = 100;
  session_strategy = none;
  max_concurrent_sessions = 1;
}

abbrev first : Session
first = new_session "s1" 10 "u1" (owner_of "ann") none

-- A store with one session of u1.
abbrev one_session : Memory
one_session = record empty_memory { sessions = ("s1", first) ∷ [] }

is_map : IsMap one_session.sessions
unfolding IsMap get
is_map = (refl, tt)

finds_first : session_at "s1" one_session ≡ some first
unfolding get
finds_first = refl

first_live : has_expired 20 first ≡ false
unfolding new_session
first_live = refl

single_session_example :
    (x : Session) × (t : Memory) × (create_session memory_storage config "s2" 20 "u1"
        (owner_of "ann")
        none
        one_session
      ≡ (ok x, t))
    × (x.user_id ≡ "u1")
    × (session_at "s2" t ≡ some x)
    × ((j : String) (y : Session) → session_at j t ≡ some y → y.user_id ≡ "u1" → j ≡ "s2")
    × ((j : String) (y : Session)
        → j ≢ "s2"
        → y.user_id ≢ "u1"
        → session_at j one_session ≡ some y
        → session_at j t ≡ some y)
unfolding memory_session_laws
single_session_example =
    single_session memory_storage memory_session_laws config "s2" 20 "u1" (owner_of "ann") none
      one_session is_map (inl refl)

full : (s : String) → s ≢ "" → is_empty s ≡ false
full s ne = ground (arith, eq_iff s "")

found_first : get_session memory_storage 20 "s1" one_session ≡ (some first, one_session)
unfolding get_session check_expiry get new_session empty_memory
    tinyland_auth.Memory.Sessions.get_session
found_first = refl

get_session_sound_example :
    (session_at "s1" one_session ≡ some first)
    × (has_expired 20 first ≡ false)
    × (one_session ≡ one_session)
unfolding memory_session_laws
get_session_sound_example =
    get_session_sound memory_storage memory_session_laws 20 "s1" one_session one_session first
      found_first

-- A refresh of the removed session, a login of its user and of another, and their ends.
abbrev later_calls : List ManagerCall
later_calls =
    refreshing 20 "s1"
    ∷ creating "s2" 21 "u1" (owner_of "ann") none
    ∷ creating "s3" 22 "u2" (owner_of "bob") none
    ∷ getting 23 "s2"
    ∷ removing_user "u2"
    ∷ cleaning 24
    ∷ []

none_draws : any (draws "s1") later_calls ≡ false
unfolding draws
none_draws = refl

removed_session_stays_gone_example :
    (get_session memory_storage 25 "s1" (
      calls memory_storage config later_calls (remove_session memory_storage "s1" one_session).1)).0
    ≡ none
unfolding memory_session_laws
removed_session_stays_gone_example =
    removed_session_stays_gone memory_storage memory_session_laws "s1" config refl one_session
      later_calls 25 is_map none_draws

-- A bound of one: the new session takes the place of the first.
abbrev one_allowed : BoundedSessionPolicy
one_allowed = record { max_concurrent_sessions = 1; overflow = "evict-oldest-created" }

abbrev second : Session
second = new_session "s2" 20 "u1" (owner_of "ann") none

abbrev after_second : Memory
after_second = record empty_memory { sessions = ("s2", second) ∷ [] }

creates_second :
    create_session_with_policy "s2" 20 "u1" (owner_of "ann") none one_allowed one_session
    ≡ (ok second, after_second)
unfolding create_session_with_policy store_bounded map_from put values new_session empty_memory
    bounded_sessions assert_bounded_session_policy assert_stored_sessions all_stored
    is_stored_session retained_sessions own_sessions sort_sessions insert_session sorts_before
creates_second = refl

bounded_creation_example :
    (second.user_id ≡ "u1")
    × In second (values after_second.sessions)
    × (length (filter (is_owned "u1") (values after_second.sessions)) ≤ 1)
    × (filter (is_foreign "u1") (values after_second.sessions)
        ≡ filter (is_foreign "u1") (values one_session.sessions))
bounded_creation_example =
    bounded_creation "s2" 20 "u1" (owner_of "ann") none one_allowed one_session after_second second
      creates_second
