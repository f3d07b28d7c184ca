-- ===== src/Memory/SessionLaws.antt =====
-- The memory adapter keeps the laws of the session interface: src/storage/memory.ts.
use tinyland_auth.Base.{
  ℕ, Bool, false, String, ◌==◌, ◌≡◌, inl, inr, Option, none, some, ok, if◌then◌else◌, arith, refl,
  ◌∙◌, subst, eq_iff, Option-cases, Bool-cases,
}
use tinyland_auth.Base.Assoc.{
  Assoc, get, put, remove, IsMap, get-put, get-remove, put-IsMap, remove-IsMap, discard,
  get-discard, discard-IsMap,
}
use tinyland_auth.Types.{Session, SessionUpdates, merge_session}
use tinyland_auth.Sessions.Policy.{is_owned}
use tinyland_auth.Sessions.Storage.{SessionStorage, SessionLaws, has_expired, unless}
use tinyland_auth.Memory.{Memory}
use tinyland_auth.Memory.Sessions.{
  get_session, get_sessions_by_user, new_session, create_session, create_session_with_policy,
  update_session, delete_session, delete_user_sessions, cleanup_expired_sessions,
}

-- The adapter as a session storage.
abbrev pub memory_storage : SessionStorage Memory
memory_storage = record {
  get_session = get_session;
  get_sessions_by_user = get_sessions_by_user;
  create_session = create_session;
  create_session_with_policy = some create_session_with_policy;
  update_session = update_session;
  delete_session = delete_session;
  delete_user_sessions = delete_user_sessions;
  cleanup_expired_sessions = cleanup_expired_sessions;
}

-- No id twice.
abbrev pub HasMap : Memory → Type 0
HasMap m = IsMap m.sessions

abbrev pub session_at : String → Memory → Option Session
session_at id m = get id m.sessions

pub found_lem :
    (now : ℕ) (id : String) (s t : Memory) (x : Session)
    → get_session now id s ≡ (some x, t)
    → (session_at id s ≡ some x) × (t ≡ s)
unfolding get_session
found_lem now id s t x h = elim (Option-cases (get id s.sessions)) [
  | inl e ↦ ground arith
  | inr (y, e) ↦ ground arith
]

pub missing_lem :
    (now : ℕ) (id : String) (s t : Memory)
    → HasMap s
    → get_session now id s ≡ (none, t)
    → HasMap t × ((j : String) → session_at j t ≡ (if id == j then none else session_at j s))
unfolding get_session
missing_lem now id s t store h = elim (Option-cases (get id s.sessions)) [
  | inl e ↦
      let same : s.sessions ≡ t.sessions = ground arith in
      subst (λ l. IsMap l × ((j : String) → get j l ≡ (if id == j then none else get j s.sessions)))
        same (store, λ j. ground (arith, e, eq_iff id j))
  | inr (y, e) ↦ elim (Bool-cases (has_expired now y)) [
    | inl gone ↦
        let same : remove id s.sessions ≡ t.sessions = ground arith in
        subst
          (λ l. IsMap l × ((j : String) → get j l ≡ (if id == j then none else get j s.sessions)))
          same (remove-IsMap id s.sessions store, λ j. get-remove id j s.sessions store)
    | inr live ↦ ground arith
  ]
]

pub update_absent_lem :
    (id : String) (updates : SessionUpdates) (s : Memory)
    → session_at id s ≡ none
    → (update_session id updates s).1 ≡ s
unfolding update_session
update_absent_lem id updates s h = rw (update_session, h) refl

pub live_lem :
    (now : ℕ) (id : String) (s : Memory) (x : Session)
    → session_at id s ≡ some x
    → has_expired now x ≡ false
    → get_session now id s ≡ (some x, s)
unfolding get_session
live_lem now id s x found live = rw (found, get_session, live) refl

pub update_lem :
    (id : String) (updates : SessionUpdates) (s : Memory) (x : Session)
    → HasMap s
    → session_at id s ≡ some x
    → (t : Memory) × (update_session id updates s
        ≡ (ok (record (merge_session x updates) { id = id }), t))
      × HasMap t
      × ((j : String)
          → session_at j t ≡ (
              if id == j
              then some (record (merge_session x updates) { id = id })
              else session_at j s))
unfolding update_session
update_lem id updates s x store found =
    let y = record (merge_session x updates) { id = id } in
    (
      record s { sessions = put id y s.sessions },
      rw (found, update_session) refl,
      put-IsMap id y s.sessions store,
      λ j. get-put id j y s.sessions,
    )

pub discarded :
    (test : Session → Bool) (j : String) (m : Assoc Session)
    → IsMap m
    → get j (discard test m) ≡ unless test (get j m)
discarded test j m im =
    get-discard test j m im
    ∙ elim (Option-cases (get j m)) [ inl e ↦ rw e refl | inr (v, e) ↦ rw e refl ]

-- The memory adapter is a lawful session storage.
unfoldable pub memory_session_laws : SessionLaws memory_storage
unfolding create_session delete_session delete_user_sessions cleanup_expired_sessions new_session
memory_session_laws = record {
  IsStore = HasMap;
  lookup = session_at;
  get_found = found_lem;
  get_missing = missing_lem;
  get_live = live_lem;
  create_stores = λ id now user_id user metadata s store.
      let x = new_session id now user_id user metadata in
      (put-IsMap id x s.sessions store, refl, refl, λ j. get-put id j x s.sessions);
  update_stores = update_lem;
  update_missing = update_absent_lem;
  delete_drops =
      λ id s store. (remove-IsMap id s.sessions store, λ j. get-remove id j s.sessions store);
  delete_user_drops = λ user_id s store. (
    discard-IsMap (is_owned user_id) s.sessions store,
    λ j. discarded (is_owned user_id) j s.sessions store,
  );
  cleanup_drops = λ now s store. (
    discard-IsMap (has_expired now) s.sessions store,
    λ j. discarded (has_expired now) j s.sessions store,
  );
}
