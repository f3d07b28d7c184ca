-- ===== src/Sessions/Lifecycle.antt =====
-- What the session manager guarantees over any lawful storage: src/core/session/index.ts.
use tinyland_auth.Base.{
  ℕ, ◌+◌, ◌≤◌, false, String, ◌==◌, ◌≡◌, ◌≢◌, ◌⊎◌, inl, inr, Option, none, some, ok, if◌then◌else◌,
  is_empty, arith, eq_iff, eq_refl, refl, sym, ◌∙◌, ap, Option-cases, Bool-cases,
}
use tinyland_auth.Types.{
  at, Session, SessionOwner, SessionMetadata, SessionUpdates, no_updates, merge_session,
}
use tinyland_auth.Sessions.Storage.{SessionStorage, SessionLaws, has_expired}
use tinyland_auth.Sessions.Manager.{
  SessionConfig, create_single, create_session, check_expiry, get_session, refresh_session,
  refresh_found, answer,
}

none-some : (x : Session) → ¬ (none ≡ some x)
none-some x h = ground arith

pair_eq : {A B : Type 0} {p : A × B} {a : A} → p.0 ≡ a → p ≡ (a, p.1)
pair_eq {p = (x, y)} h = rw h refl

module _ {S : Type 0} (st : SessionStorage S) (laws : SessionLaws st) where
  check_sound :
      (now : ℕ) (id : String) (p : Option Session × S) (t : S) (x : Session)
      → check_expiry st now id p ≡ (some x, t)
      → (p ≡ (some x, t)) × (has_expired now x ≡ false)
  unfolding check_expiry
  check_sound now id (none, s) t x h = ground arith
  check_sound now id (some y, s) t x h = elim (Bool-cases (has_expired now y)) [
    | inl e ↦ ground arith
    | inr e ↦ ground arith
  ]

  returned_by_storage :
      (now : ℕ) (id : String) (s t : S) (x : Session)
      → get_session st now id s ≡ (some x, t)
      → check_expiry st now id (st.get_session now id s) ≡ (some x, t)
  unfolding get_session
  returned_by_storage now id s t x h = ground arith

  -- `getSession` returns only a stored session that has not expired, and leaves the store.
  pub get_session_sound :
      (now : ℕ) (id : String) (s t : S) (x : Session)
      → get_session st now id s ≡ (some x, t)
      → (laws.lookup id s ≡ some x) × (has_expired now x ≡ false) × (t ≡ s)
  get_session_sound now id s t x h =
      let checked =
        check_sound now id (st.get_session now id s) t x (returned_by_storage now id s t x h) in
      let found = laws.get_found now id s t x checked.0 in (found.0, checked.1, found.1)

  -- A stored session that has not expired is returned.
  pub get_session_live :
      (now : ℕ) (id : String) (s : S) (x : Session)
      → is_empty id ≡ false
      → laws.lookup id s ≡ some x
      → has_expired now x ≡ false
      → get_session st now id s ≡ (some x, s)
  unfolding get_session check_expiry
  get_session_live now id s x full found live =
      rw (full, laws.get_live now id s x found live, live) refl

  -- A session that is not stored is not found.
  pub absent_not_found :
      (now : ℕ) (id : String) (s : S) → laws.lookup id s ≡ none → (get_session st now id s).0 ≡ none
  absent_not_found now id s gone = elim (Option-cases (get_session st now id s).0) [
    | inl e ↦ e
    | inr (x, e) ↦ absurd (
        none-some x
          (sym gone ∙ (get_session_sound now id s (get_session st now id s).1 x (pair_eq e)).0))
  ]

module _ {S : Type 0} (st : SessionStorage S) (laws : SessionLaws st) (config : SessionConfig) where
  runs_single :
      (id : String) (now : ℕ) (user_id : String) (user : SessionOwner)
      (metadata : Option SessionMetadata) (s : S)
      → (config.session_strategy ≡ none) ⊎ (config.session_strategy ≡ some "single")
      → create_session st config id now user_id user metadata s
        ≡ create_single st config id now user_id user metadata s
  unfolding create_session create_single
  runs_single id now user_id user metadata s (inl e) = rw (e, create_session) refl
  runs_single id now user_id user metadata s (inr e) = rw (e, create_session) refl

  -- `createSession` under the strategy `single`, which is also the one of a configuration that
  -- names none: it returns a session of the user with the drawn id, which is stored; every stored session of the user
  -- has that id; and a session of another user, under another id, is stored as before.
  pub single_session :
      (id : String) (now : ℕ) (user_id : String) (user : SessionOwner)
      (metadata : Option SessionMetadata) (s : S)
      → laws.IsStore s
      → (config.session_strategy ≡ none) ⊎ (config.session_strategy ≡ some "single")
      → (x : Session) × (t : S) × (create_session st config id now user_id user metadata s
          ≡ (ok x, t))
        × (x.user_id ≡ user_id)
        × (laws.lookup id t ≡ some x)
        × ((j : String) (y : Session) → laws.lookup j t ≡ some y → y.user_id ≡ user_id → j ≡ id)
        × ((j : String) (y : Session)
            → j ≢ id
            → y.user_id ≢ user_id
            → laws.lookup j s ≡ some y
            → laws.lookup j t ≡ some y)
  unfolding create_single
  single_session id now user_id user metadata s store strategy =
      let cleared = laws.delete_user_drops user_id s store in
      let s1 = (st.delete_user_sessions user_id s).1 in
      let created = laws.create_stores id now user_id user metadata s1 cleared.0 in
      let made = st.create_session id now user_id user metadata s1 in
      let looked = created.3 in
      (
        made.0,
        made.1,
        runs_single id now user_id user metadata s strategy,
        created.2,
        looked id ∙ ap (λ b. if b then some made.0 else laws.lookup id s1) (eq_refl id),
        (λ j y h own. ground (arith, looked j, cleared.1 j, eq_iff id j, eq_iff y.user_id user_id)),
        (λ j y n m h. ground (arith, looked j, cleared.1 j, eq_iff id j, eq_iff y.user_id user_id)),
      )

  -- `refreshSession` of a session that has not expired: the expiry becomes the time plus the
  -- configured age, the owner and the rest of the store stay, and until that moment, it included,
  -- `getSession` returns the session.
  pub refreshed_session :
      (now : ℕ) (id : String) (s : S) (x : Session)
      → laws.IsStore s
      → is_empty id ≡ false
      → laws.lookup id s ≡ some x
      → has_expired now x ≡ false
      → (y : Session) × (t : S) × (refresh_session st config now id s ≡ (ok (some y), t))
        × (y.expires ≡ at (now + config.max_age))
        × (y.user_id ≡ x.user_id)
        × ((j : String) → (id == j) ≡ false → laws.lookup j t ≡ laws.lookup j s)
        × ((later : ℕ) → later ≤ now + config.max_age → get_session st later id t ≡ (some y, t))
  unfolding refresh_session refresh_found merge_session
  refreshed_session now id s x store full found live =
      let changes : SessionUpdates = record no_updates {
        expires = some (at (now + config.max_age));
        expires_at = some (at (now + config.max_age));
      } in
      let y : Session = record (merge_session x changes) { id = id } in
      let (t, run, after, looked) = laws.update_stores id changes s x store found in
      let stored : laws.lookup id t ≡ some y =
        looked id ∙ ap (λ b. if b then some y else laws.lookup id s) (eq_refl id) in
      (
        y,
        t,
        ap (refresh_found st config now id) (get_session_live st laws now id s x full found live)
            ∙ ap (answer (λ z. some z)) run,
        refl,
        refl,
        (λ j ne. looked j ∙ ap (λ b. if b then some y else laws.lookup j s) ne),
        λ later h. get_session_live st laws later id t y full stored (ground arith),
      )
