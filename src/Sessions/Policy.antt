-- ===== src/Sessions/Policy.antt =====
-- The bound on concurrent sessions: src/storage/session-policy.ts.
use Prim.Native.Char.{code}
use Prim.Native.String
use tinyland_auth.Base.{
  ℕ, ◌-◌, Bool, true, false, String, List, [], ◌∷◌, ◌++◌, ◌==◌, is_empty, includes, Result, ok,
  ◌>>◌, throw_if, not, ◌&&◌, ◌||◌, ltb, leb, nat_eq, filter, length, drop, if◌then◌else◌,
}
use text.Mathlib.Text.{is_le}
use tinyland_auth.Types.{Timestamp, at, invalid, before, Session}

-- `BoundedSessionPolicy`; the bound is a number that is no fraction and not negative.
pub record BoundedSessionPolicy : Type 0 where
  pub max_concurrent_sessions : ℕ
  pub overflow : String

-- `Number.MAX_SAFE_INTEGER`
abbrev pub max_safe_integer : ℕ
max_safe_integer = 9007199254740991

-- `assertBoundedSessionPolicy`
unfoldable pub assert_bounded_session_policy : BoundedSessionPolicy → Result (Unit {0})
assert_bounded_session_policy policy =
    throw_if
      (not (leb policy.max_concurrent_sessions max_safe_integer)
        || ltb policy.max_concurrent_sessions 1
        || not (policy.overflow == "evict-oldest-created"))
      "Invalid bounded session policy"

-- `text.includes('\0')`
abbrev pub has_nul : String → Bool
has_nul String.[] = false
has_nul (String.◌∷◌ c s) = nat_eq (code c) 0 || has_nul s

-- `Number.isFinite(Date.parse(text))`
abbrev pub is_date : Timestamp → Bool
is_date (at ms) = true
is_date invalid = false

-- The tests of `assertStoredSessions` on one entry.
unfoldable pub is_stored_session : Session → Bool
is_stored_session s =
    not (is_empty s.id)
    && not (has_nul s.id)
    && not (is_empty s.user_id)
    && not (has_nul s.user_id)
    && is_date s.created_at
    && is_date s.expires

-- The loop of `assertStoredSessions`, on the ids met so far.
unfoldable pub all_stored : List String → List Session → Bool
all_stored ids [] = true
all_stored ids (s ∷ ss) =
    is_stored_session s && not (includes s.id ids) && all_stored (s.id ∷ ids) ss

-- `assertStoredSessions`, on a list of sessions
unfoldable pub assert_stored_sessions : List Session → Result (Unit {0})
assert_stored_sessions sessions = throw_if (not (all_stored [] sessions)) "Invalid session store"

-- `a.id <= b.id`
abbrev pub id_not_after : Session → Session → Bool
id_not_after a b = is_le (String.compare a.id b.id)

-- The comparator of the sort is at most 0: by creation time, then by id.
abbrev pub by_time : Timestamp → Timestamp → Bool → Bool
by_time (at x) (at y) tie = if nat_eq x y then tie else ltb x y
by_time (at x) invalid tie = tie
by_time invalid y tie = tie

unfoldable pub sorts_before : Session → Session → Bool
sorts_before a b = by_time a.created_at b.created_at (id_not_after a b)

-- `own.sort(…)`: a stable sort by the comparator.
unfoldable pub insert_session : Session → List Session → List Session
insert_session s [] = s ∷ []
insert_session s (t ∷ ts) = if sorts_before s t then s ∷ t ∷ ts else t ∷ insert_session s ts

unfoldable pub sort_sessions : List Session → List Session
sort_sessions [] = []
sort_sessions (s ∷ ss) = insert_session s (sort_sessions ss)

-- `item.userId === userId`
abbrev pub is_owned : String → Session → Bool
is_owned user_id s = s.user_id == user_id

abbrev pub is_foreign : String → Session → Bool
is_foreign user_id s = not (is_owned user_id s)

-- `item.userId === userId && Date.parse(item.expires) > now`
abbrev pub is_live : String → ℕ → Session → Bool
is_live user_id now s = is_owned user_id s && before (at now) s.expires

-- The user's live sessions, oldest first, and those of them that are retained.
unfoldable pub own_sessions : List Session → Session → ℕ → List Session
own_sessions sessions session now = sort_sessions (filter (is_live session.user_id now) sessions)

unfoldable pub retained_sessions : List Session → Session → BoundedSessionPolicy → ℕ → List Session
retained_sessions sessions session policy now =
    let own = own_sessions sessions session now in
    drop (length own - (policy.max_concurrent_sessions - 1)) own

-- `boundedSessions`
unfoldable pub bounded_sessions :
    List Session → Session → BoundedSessionPolicy → ℕ → Result (List Session)
bounded_sessions sessions session policy now = do
  assert_bounded_session_policy policy
  assert_stored_sessions (sessions ++ session ∷ [])
  ok (
      filter (is_foreign session.user_id) sessions
      ++ retained_sessions sessions session policy now
      ++ session ∷ [])
