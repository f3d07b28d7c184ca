-- ===== src/Memory/Bounded.antt =====
-- The bound on concurrent sessions in the memory adapter: `createSessionWithPolicy` of src/storage/memory.ts.
use mathlib.Core.List.{append_assoc, append-nil}
use tinyland_auth.Base.{
  ℕ, ◌≤◌, true, false, String, List, [], ◌∷◌, ◌++◌, ◌≡◌, Option, none, Result, ok, err, ◌>>◌, arith,
  eq_iff, refl, sym, ◌∙◌, ap, subst, includes, In, filter, length,
}
use tinyland_auth.Base.Assoc.{Assoc, get, put, values, get-put}
use tinyland_auth.Types.{Session, SessionOwner, SessionMetadata}
use tinyland_auth.Sessions.Policy.{
  BoundedSessionPolicy, assert_bounded_session_policy, bounded_sessions, all_stored, is_owned,
  is_foreign,
}
use tinyland_auth.Sessions.Bounds.{bounded_count, bounded_others}
use tinyland_auth.Sessions.Eviction.{inserted_from}
use tinyland_auth.Sessions.Store.{bounded_store}
use tinyland_auth.Memory.{Memory}
use tinyland_auth.Memory.Sessions.{new_session, map_from, store_bounded, create_session_with_policy}

values-put :
    (k : String) (v : Session) (m : Assoc Session)
    → get k m ≡ none
    → values (put k v m) ≡ values m ++ v ∷ []
unfolding get put values
values-put k v [] h = refl
values-put k v ((j, w) ∷ m) h = ground (arith, values-put k v m)

values-map_from :
    (ids : List String) (m : Assoc Session) (ss : List Session)
    → all_stored ids ss ≡ true
    → ((k : String) → includes k ids ≡ false → get k m ≡ none)
    → values (map_from m ss) ≡ values m ++ ss
unfolding map_from all_stored
values-map_from ids m [] h new = sym (append-nil (values m))
values-map_from ids m (s ∷ ss) h new =
    let fresh : get s.id m ≡ none = new s.id (ground arith) in
    values-map_from (s.id ∷ ids) (put s.id s m) ss (ground arith)
      (λ k i. ground (arith, get-put s.id k s m, eq_iff s.id k, eq_iff k s.id, new k))
    ∙ ap (λ l. l ++ ss) (values-put s.id s m fresh)
    ∙ append_assoc (values m) (s ∷ []) ss

from_result :
    (r : Result (List Session)) (session x : Session) (m t : Memory)
    → store_bounded session m r ≡ (ok x, t)
    → (next : List Session) × (r ≡ ok next) × (x ≡ session) × (t.sessions ≡ map_from [] next)
unfolding store_bounded
from_result (err e) session x m t h = ground arith
from_result (ok next) session x m t h = (next, refl, ground arith, ground arith)

after_assert :
    (policy : BoundedSessionPolicy) (r : Result (List Session)) (next : List Session)
    → assert_bounded_session_policy policy >> r ≡ ok next
    → r ≡ ok next
after_assert policy r next h = ground arith

created_with_policy :
    (id : String) (now : ℕ) (user_id : String) (user : SessionOwner)
    (metadata : Option SessionMetadata) (policy : BoundedSessionPolicy) (m t : Memory) (x : Session)
    → create_session_with_policy id now user_id user metadata policy m ≡ (ok x, t)
    → (next : List Session) × (bounded_sessions (values m.sessions) x policy now ≡ ok next)
      × (x ≡ new_session id now user_id user metadata)
      × (t.sessions ≡ map_from [] next)
unfolding create_session_with_policy
created_with_policy id now user_id user metadata policy m t x h =
    let session = new_session id now user_id user metadata in
    let (next, run, same, stored) =
      from_result
        (assert_bounded_session_policy policy
          >> bounded_sessions (values m.sessions) session policy now)
        session x m t h in
    (
      next,
      subst (λ y. bounded_sessions (values m.sessions) y policy now ≡ ok next) (sym same)
          (after_assert policy _ next run),
      same,
      stored,
    )

-- `createSessionWithPolicy` that succeeds: the new session is the user's, it is stored, the user then has at
-- most the allowed number of sessions, and the sessions of all other users stay, in their order.
pub bounded_creation :
    (id : String) (now : ℕ) (user_id : String) (user : SessionOwner)
    (metadata : Option SessionMetadata) (policy : BoundedSessionPolicy) (m t : Memory) (x : Session)
    → create_session_with_policy id now user_id user metadata policy m ≡ (ok x, t)
    → (x.user_id ≡ user_id)
      × In x (values t.sessions)
      × (length (filter (is_owned user_id) (values t.sessions)) ≤ policy.max_concurrent_sessions)
      × (filter (is_foreign user_id) (values t.sessions)
          ≡ filter (is_foreign user_id) (values m.sessions))
unfolding new_session get values
bounded_creation id now user_id user metadata policy m t x h =
    let (next, run, same, stored) =
      created_with_policy id now user_id user metadata policy m t x h in
    let owner : x.user_id ≡ user_id = ap (λ y. y.user_id) same in
    let all : values t.sessions ≡ next =
      ap values stored
      ∙ values-map_from [] [] next (bounded_store (values m.sessions) x policy now next run)
          (λ k i. refl) in
    let kept = bounded_count (values m.sessions) x policy now next run in
    let others = bounded_others (values m.sessions) x policy now next run in
    (
      owner,
      subst (In x) (sym all) (inserted_from (values m.sessions) x policy now next run x).0,
      subst (λ u. length (filter (is_owned u) (values t.sessions)) ≤ policy.max_concurrent_sessions)
          owner
          (subst (λ l. length (filter (is_owned x.user_id) l) ≤ policy.max_concurrent_sessions)
            (sym all) kept),
      subst
          (λ u.
            filter (is_foreign u) (values t.sessions) ≡ filter (is_foreign u) (values m.sessions))
          owner (ap (filter (is_foreign x.user_id)) all ∙ others),
    )
