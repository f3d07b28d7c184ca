-- ===== src/Sessions/Storage.antt =====
-- What the session manager asks of a storage adapter: `SessionStorage` of src/storage/interface.ts.
use tinyland_auth.Base.{
  ℕ, Bool, false, String, List, Option, none, some, Result, ok, ◌==◌, ◌≡◌, if◌then◌else◌,
}
use tinyland_auth.Types.{
  at, before, Session, SessionOwner, SessionMetadata, SessionUpdates, merge_session,
}
use tinyland_auth.Sessions.Policy.{BoundedSessionPolicy, is_owned}

-- `new Date(session.expires) < new Date()`
abbrev pub has_expired : ℕ → Session → Bool
has_expired now s = before s.expires (at now)

-- The operations, on the adapter's state. The id that an adapter draws and the time that it reads
-- are arguments.
pub record SessionStorage (S : Type 0) : Type 0 where
  pub get_session : ℕ → String → S → Option Session × S
  pub get_sessions_by_user : ℕ → String → S → List Session
  pub create_session : String → ℕ → String → SessionOwner → Option SessionMetadata → S → Session × S
  pub create_session_with_policy : Option (
      String
      → ℕ
      → String
      → SessionOwner
      → Option SessionMetadata
      → BoundedSessionPolicy
      → S
      → Result Session × S)
  pub update_session : String → SessionUpdates → S → Result Session × S
  pub delete_session : String → S → Bool × S
  pub delete_user_sessions : String → S → ℕ × S
  pub cleanup_expired_sessions : ℕ → S → ℕ × S

-- An entry that is dropped when a test holds of it.
abbrev pub unless : (Session → Bool) → Option Session → Option Session
unless test none = none
unless test (some s) = if test s then none else some s

-- What the operations do to the stored sessions, seen as a partial map from ids.
pub record SessionLaws {S : Type 0} (st : SessionStorage S) : Type 1 where
  pub IsStore : S → Type 0
  pub lookup : String → S → Option Session
  pub get_found :
      (now : ℕ) (id : String) (s t : S) (x : Session)
      → st.get_session now id s ≡ (some x, t)
      → (lookup id s ≡ some x) × (t ≡ s)
  pub get_missing :
      (now : ℕ) (id : String) (s t : S)
      → IsStore s
      → st.get_session now id s ≡ (none, t)
      → IsStore t × ((j : String) → lookup j t ≡ (if id == j then none else lookup j s))
  pub get_live :
      (now : ℕ) (id : String) (s : S) (x : Session)
      → lookup id s ≡ some x
      → has_expired now x ≡ false
      → st.get_session now id s ≡ (some x, s)
  pub create_stores :
      (id : String) (now : ℕ) (user_id : String) (user : SessionOwner)
      (metadata : Option SessionMetadata) (s : S)
      → IsStore s
      → let (x, t) = st.create_session id now user_id user metadata s in
        IsStore t
        × (x.id ≡ id)
        × (x.user_id ≡ user_id)
        × ((j : String) → lookup j t ≡ (if id == j then some x else lookup j s))
  pub update_stores :
      (id : String) (updates : SessionUpdates) (s : S) (x : Session)
      → IsStore s
      → lookup id s ≡ some x
      → (t : S) × (st.update_session id updates s
          ≡ (ok (record (merge_session x updates) { id = id }), t))
        × IsStore t
        × ((j : String)
            → lookup j t ≡ (
                if id == j
                then some (record (merge_session x updates) { id = id })
                else lookup j s))
  pub update_missing :
      (id : String) (updates : SessionUpdates) (s : S)
      → lookup id s ≡ none
      → (st.update_session id updates s).1 ≡ s
  pub delete_drops :
      (id : String) (s : S)
      → IsStore s
      → IsStore (st.delete_session id s).1
        × ((j : String)
            → lookup j (st.delete_session id s).1 ≡ (if id == j then none else lookup j s))
  pub delete_user_drops :
      (user_id : String) (s : S)
      → IsStore s
      → IsStore (st.delete_user_sessions user_id s).1
        × ((j : String)
            → lookup j (st.delete_user_sessions user_id s).1
              ≡ unless (is_owned user_id) (lookup j s))
  pub cleanup_drops :
      (now : ℕ) (s : S)
      → IsStore s
      → IsStore (st.cleanup_expired_sessions now s).1
        × ((j : String)
            → lookup j (st.cleanup_expired_sessions now s).1
              ≡ unless (has_expired now) (lookup j s))
