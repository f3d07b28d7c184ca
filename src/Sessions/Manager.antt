-- ===== src/Sessions/Manager.antt =====
-- The session manager, over any storage adapter: `SessionManager` of src/core/session/index.ts.
use tinyland_auth.Base.{
  ℕ, ◌+◌, Bool, true, false, String, List, ◌==◌, Option, none, some, Result, ok, err, if◌then◌else◌,
  ltb, is_empty,
}
use tinyland_auth.Types.{
  at, invalid, before, Session, SessionUser, SessionOwner, SessionMetadata, SessionUpdates,
  no_updates, updated, updated_option,
}
use tinyland_auth.Sessions.Policy.{BoundedSessionPolicy, assert_bounded_session_policy}
use tinyland_auth.Sessions.Storage.{SessionStorage, has_expired}

-- The fields of `SessionConfig` that the manager reads, in milliseconds.
pub record SessionConfig : Type 0 where
  pub max_age : ℕ
  pub renew_threshold : ℕ
  pub session_strategy : Option String
  pub max_concurrent_sessions : ℕ

-- `Partial<SessionUser>` without the id, which is overwritten; `none` where the key is absent.
pub record SessionUserUpdates : Type 0 where
  pub username : Option String
  pub name : Option String
  pub role : Option String
  pub needs_onboarding : Option Bool
  pub onboarding_step : Option ℕ

-- `{ ...session.user, ...userData, id: session.user?.id || session.userId }`; a key that neither
-- brings is the empty text.
unfoldable pub merge_session_user : Session → SessionUserUpdates → SessionUser
merge_session_user s u = elim s.user [
  | none ↦ record {
    id = s.user_id;
    username = updated u.username "";
    name = updated u.name "";
    role = updated u.role "";
    needs_onboarding = u.needs_onboarding;
    onboarding_step = u.onboarding_step;
  }
  | some old ↦ record {
    id = if is_empty old.id then s.user_id else old.id;
    username = updated u.username old.username;
    name = updated u.name old.name;
    role = updated u.role old.role;
    needs_onboarding = updated_option u.needs_onboarding old.needs_onboarding;
    onboarding_step = updated_option u.onboarding_step old.onboarding_step;
  }
]

abbrev pub is_strategy : String → Option String → Bool
is_strategy s none = false
is_strategy s (some t) = t == s

-- The answer of an operation, its value passed on through a function.
abbrev pub answer {ℓ} : {A B S : Type ℓ} → (A → B) → Result A × S → Result B × S
answer f (err e, s) = (err e, s)
answer f (ok a, s) = (ok (f a), s)

module _ {S : Type 0} (st : SessionStorage S) where
  -- What `getSession` makes of the storage's answer.
  unfoldable pub check_expiry : ℕ → String → Option Session × S → Option Session × S
  check_expiry now id (none, s) = (none, s)
  check_expiry now id (some session, s) =
      if has_expired now session then (none, (st.delete_session id s).1) else (some session, s)

  -- `getSession` and `validateSession`
  unfoldable pub get_session : ℕ → String → S → Option Session × S
  get_session now id s =
      if is_empty id then (none, s) else check_expiry now id (st.get_session now id s)

  -- `updateSession`
  unfoldable pub update_session : String → SessionUpdates → S → Result Session × S
  update_session id updates s = st.update_session id updates s

  -- What `updateSessionUser` does with the session that it finds.
  unfoldable pub update_found_user :
      String → SessionUserUpdates → Option Session × S → Result Bool × S
  update_found_user id user_data (none, s) = (ok false, s)
  update_found_user id user_data (some session, s) =
      answer (λ _. true)
        (st.update_session id
          (record no_updates { user = some (merge_session_user session user_data) }) s)

  -- `updateSessionUser`
  unfoldable pub update_session_user : ℕ → String → SessionUserUpdates → S → Result Bool × S
  update_session_user now id user_data s = update_found_user id user_data (get_session now id s)

  -- `removeSession`
  unfoldable pub remove_session : String → S → Bool × S
  remove_session id s = st.delete_session id s

  -- `removeUserSessions`
  unfoldable pub remove_user_sessions : String → S → ℕ × S
  remove_user_sessions user_id s = st.delete_user_sessions user_id s

  -- `cleanupExpiredSessions`
  unfoldable pub cleanup_expired_sessions : ℕ → S → ℕ × S
  cleanup_expired_sessions now s = st.cleanup_expired_sessions now s

  -- `getUserSessions`
  unfoldable pub get_user_sessions : ℕ → String → S → List Session
  get_user_sessions now user_id s = st.get_sessions_by_user now user_id s

module _ {S : Type 0} (st : SessionStorage S) (config : SessionConfig) where
  -- The branch of `createSession` for the strategy `bounded`.
  unfoldable pub create_bounded :
      String → ℕ → String → SessionOwner → Option SessionMetadata → S → Result Session × S
  create_bounded id now user_id user metadata s =
      let policy : BoundedSessionPolicy = record {
        max_concurrent_sessions = config.max_concurrent_sessions;
        overflow = "evict-oldest-created";
      } in
      elim (assert_bounded_session_policy policy) [
        | err e ↦ (err e, s)
        | ok _ ↦ elim st.create_session_with_policy [
          | none ↦ (err "Storage does not support atomic bounded sessions", s)
          | some create ↦ create id now user_id user metadata policy s
        ]
      ]

  -- The rest of it: the user's sessions are deleted before one is created.
  unfoldable pub create_single :
      String → ℕ → String → SessionOwner → Option SessionMetadata → S → Result Session × S
  create_single id now user_id user metadata s =
      let (session, t) =
        st.create_session id now user_id user metadata (st.delete_user_sessions user_id s).1 in
      (ok session, t)

  -- `createSession`
  unfoldable pub create_session :
      String → ℕ → String → SessionOwner → Option SessionMetadata → S → Result Session × S
  create_session id now user_id user metadata s =
      if is_strategy "bounded" config.session_strategy
      then create_bounded id now user_id user metadata s
      else elim config.session_strategy [
        | none ↦ create_single id now user_id user metadata s
        | some strategy ↦
            if strategy == "single"
            then create_single id now user_id user metadata s
            else (err "Invalid session strategy", s)
      ]

  -- What `refreshSession` does with the session that it finds.
  unfoldable pub refresh_found : ℕ → String → Option Session × S → Result (Option Session) × S
  refresh_found now id (none, s) = (ok none, s)
  refresh_found now id (some session, s) =
      answer (λ x. some x)
        (st.update_session id
          (record no_updates {
            expires = some (at (now + config.max_age));
            expires_at = some (at (now + config.max_age));
          })
          s)

  -- `refreshSession`
  unfoldable pub refresh_session : ℕ → String → S → Result (Option Session) × S
  refresh_session now id s = refresh_found now id (get_session st now id s)

-- `shouldRenewSession`: the time left is below the threshold.
unfoldable pub should_renew_session : SessionConfig → ℕ → Session → Bool
should_renew_session config now session = elim session.expires [
  | at ms ↦ ltb ms (now + config.renew_threshold)
  | invalid ↦ false
]

-- `isSessionValid`
unfoldable pub is_session_valid : ℕ → Option Session → Bool
is_session_valid now none = false
is_session_valid now (some session) = before (at now) session.expires
