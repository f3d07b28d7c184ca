-- ===== src/Sessions/Removed.antt =====
-- A removed session stays removed, whatever the manager does next: src/core/session/index.ts.
use tinyland_auth.Base.{
  ℕ, Bool, true, false, String, List, [], ◌∷◌, ◌==◌, ◌≡◌, ◌⊎◌, Option, none, some, Result, ok, err,
  if◌then◌else◌, is_empty, any, arith, refl, sym, ap, subst, ◌∙◌, inl, inr, eq_iff, eq_refl,
  Bool-cases, Option-cases,
}
use tinyland_auth.Types.{Session, SessionOwner, SessionMetadata, SessionUpdates}
use tinyland_auth.Sessions.Storage.{SessionStorage, SessionLaws, has_expired, unless}
use tinyland_auth.Sessions.Manager.{
  SessionConfig, SessionUserUpdates, is_strategy, answer, create_single, create_session,
  check_expiry, get_session, update_session, update_found_user, update_session_user,
  refresh_session, refresh_found, remove_session, remove_user_sessions, cleanup_expired_sessions,
}
use tinyland_auth.Sessions.Lifecycle.{absent_not_found}

-- A call of the manager that may change the store, at a time where it reads one.
pub data ManagerCall : Type 0 where
  getting : ℕ → String → ManagerCall
  refreshing : ℕ → String → ManagerCall
  updating : String → SessionUpdates → ManagerCall
  updating_user : ℕ → String → SessionUserUpdates → ManagerCall
  removing : String → ManagerCall
  removing_user : String → ManagerCall
  cleaning : ℕ → ManagerCall
  creating : String → ℕ → String → SessionOwner → Option SessionMetadata → ManagerCall

-- Whether a call creates a session under an id.
unfoldable pub draws : String → ManagerCall → Bool
draws id (creating j now user_id user metadata) = j == id
draws id (getting now j) = false
draws id (refreshing now j) = false
draws id (updating j updates) = false
draws id (updating_user now j user_data) = false
draws id (removing j) = false
draws id (removing_user user_id) = false
draws id (cleaning now) = false

module _ {S : Type 0} (st : SessionStorage S) (config : SessionConfig) where
  unfoldable pub call : ManagerCall → S → S
  call (getting now id) s = (get_session st now id s).1
  call (refreshing now id) s = (refresh_session st config now id s).1
  call (updating id updates) s = (update_session st id updates s).1
  call (updating_user now id user_data) s = (update_session_user st now id user_data s).1
  call (removing id) s = (remove_session st id s).1
  call (removing_user user_id) s = (remove_user_sessions st user_id s).1
  call (cleaning now) s = (cleanup_expired_sessions st now s).1
  call (creating id now user_id user metadata) s =
      (create_session st config id now user_id user metadata s).1

  unfoldable pub calls : List ManagerCall → S → S
  calls [] s = s
  calls (c ∷ cs) s = calls cs (call c s)

answer_state : {A B S : Type 0} (f : A → B) (p : Result A × S) → (answer f p).1 ≡ p.1
answer_state f (err e, s) = refl
answer_state f (ok a, s) = refl

stored_absent : (x : Session) → ¬ (some x ≡ none)
stored_absent x h = ground arith

-- Without the strategy `bounded` a creation is that of `single`, or it throws.
created_how :
    {S : Type 0} (st : SessionStorage S) (config : SessionConfig) (j : String) (now : ℕ)
    (user_id : String) (user : SessionOwner) (metadata : Option SessionMetadata) (s : S)
    → is_strategy "bounded" config.session_strategy ≡ false
    → (create_session st config j now user_id user metadata s
        ≡ create_single st config j now user_id user metadata s)
      ⊎ (create_session st config j now user_id user metadata s
          ≡ (err "Invalid session strategy", s))
unfolding create_session create_single
created_how st config j now user_id user metadata s unbounded =
    elim (Option-cases config.session_strategy) [
      | inl e ↦ inl (rw (e, create_session) refl)
      | inr (strategy, e) ↦
          let plain : (strategy == "bounded") ≡ false = rw e at unbounded in
          elim (Bool-cases (strategy == "single")) [
            | inl f ↦ inl (rw (e, create_session, plain, f) refl)
            | inr f ↦ inr (rw (e, create_session, plain, f) refl)
          ]
    ]

module _ {S : Type 0} (st : SessionStorage S) (laws : SessionLaws st) (id : String) where
  -- A store without a session of the id.
  abbrev IsWithout : S → Type 0
  IsWithout s = laws.IsStore s × (laws.lookup id s ≡ none)

  delete_keeps : (j : String) (s : S) → IsWithout s → IsWithout (st.delete_session j s).1
  delete_keeps j s (store, gone) =
      let (kept, looked) = laws.delete_drops j s store in
      (
        kept,
        looked id ∙ rw gone (elim (Bool-cases (j == id)) [ inl e ↦ rw e refl | inr e ↦ rw e refl ]),
      )

  unless_absent : (test : Session → Bool) (o : Option Session) → o ≡ none → unless test o ≡ none
  unless_absent test o h = rw h refl

  update_keeps :
      (j : String) (updates : SessionUpdates) (s : S)
      → IsWithout s
      → IsWithout (st.update_session j updates s).1
  update_keeps j updates s (store, gone) = elim (Option-cases (laws.lookup j s)) [
    | inl e ↦ subst IsWithout (sym (laws.update_missing j updates s e)) (store, gone)
    | inr (x, e) ↦
        let (t, run, kept, looked) = laws.update_stores j updates s x store e in
        let other : (j == id) ≡ false = elim (Bool-cases (j == id)) [
          | inl same ↦
              absurd
                (stored_absent x (sym e ∙ ap (λ k. laws.lookup k s) ((eq_iff j id).0 same) ∙ gone))
          | inr ne ↦ ne
        ] in
        subst IsWithout (sym (ap (λ p. p.1) run)) (kept, looked id ∙ rw other gone)
  ]

  check_keeps :
      (now : ℕ) (j : String) (s : S) (p : Option Session × S)
      → st.get_session now j s ≡ p
      → IsWithout s
      → IsWithout (check_expiry st now j p).1
  unfolding check_expiry
  check_keeps now j s (none, t) h (store, gone) =
      let (kept, looked) = laws.get_missing now j s t store h in
      (
        kept,
        looked id ∙ rw gone (elim (Bool-cases (j == id)) [ inl e ↦ rw e refl | inr e ↦ rw e refl ]),
      )
  check_keeps now j s (some x, t) h w =
      let same = (laws.get_found now j s t x h).1 in
      let kept : IsWithout t = subst IsWithout (sym same) w in
      elim (Bool-cases (has_expired now x)) [
        | inl e ↦ rw e (delete_keeps j t kept)
        | inr e ↦ rw e kept
      ]

  get_keeps : (now : ℕ) (j : String) (s : S) → IsWithout s → IsWithout (get_session st now j s).1
  unfolding get_session
  get_keeps now j s w = elim (Bool-cases (is_empty j)) [
    | inl e ↦ rw e w
    | inr e ↦ rw e (check_keeps now j s (st.get_session now j s) refl w)
  ]

  update_user_keeps :
      (now : ℕ) (j : String) (user_data : SessionUserUpdates) (p : Option Session × S)
      → IsWithout p.1
      → IsWithout (update_found_user st j user_data p).1
  unfolding update_found_user
  update_user_keeps now j user_data (none, s) w = w
  update_user_keeps now j user_data (some x, s) w =
      subst IsWithout (sym (answer_state (λ _. true) _)) (update_keeps j _ s w)

  module _ (config : SessionConfig) where
    refresh_keeps :
        (now : ℕ) (j : String) (p : Option Session × S)
        → IsWithout p.1
        → IsWithout (refresh_found st config now j p).1
    unfolding refresh_found
    refresh_keeps now j (none, s) w = w
    refresh_keeps now j (some x, s) w =
        subst IsWithout (sym (answer_state (λ x. some x) _)) (update_keeps j _ s w)

    clear_keeps :
        (user_id : String) (s : S) → IsWithout s → IsWithout (st.delete_user_sessions user_id s).1
    clear_keeps user_id s (store, gone) =
        let (kept, looked) = laws.delete_user_drops user_id s store in
        (kept, looked id ∙ unless_absent _ _ gone)

    single_keeps :
        (j : String) (now : ℕ) (user_id : String) (user : SessionOwner)
        (metadata : Option SessionMetadata) (s : S)
        → (j == id) ≡ false
        → IsWithout s
        → IsWithout (create_single st config j now user_id user metadata s).1
    unfolding create_single
    single_keeps j now user_id user metadata s other w =
        let cleared = clear_keeps user_id s w in
        let created =
          laws.create_stores j now user_id user metadata (st.delete_user_sessions user_id s).1
            cleared.0 in
        (created.0, created.3 id ∙ rw other cleared.1)

    create_keeps :
        (j : String) (now : ℕ) (user_id : String) (user : SessionOwner)
        (metadata : Option SessionMetadata) (s : S)
        → is_strategy "bounded" config.session_strategy ≡ false
        → (j == id) ≡ false
        → IsWithout s
        → IsWithout (create_session st config j now user_id user metadata s).1
    create_keeps j now user_id user metadata s unbounded other w =
        elim (created_how st config j now user_id user metadata s unbounded) [
          | inl e ↦ rw e (single_keeps j now user_id user metadata s other w)
          | inr e ↦ rw e w
        ]

    call_keeps :
        is_strategy "bounded" config.session_strategy ≡ false
        → (c : ManagerCall) (s : S) → draws id c ≡ false
        → IsWithout s
        → IsWithout (call st config c s)
    unfolding call draws update_session update_session_user refresh_session remove_session
        remove_user_sessions cleanup_expired_sessions
    call_keeps unbounded (getting now j) s other w = get_keeps now j s w
    call_keeps unbounded (refreshing now j) s other w =
        refresh_keeps now j (get_session st now j s) (get_keeps now j s w)
    call_keeps unbounded (updating j updates) s other w = update_keeps j updates s w
    call_keeps unbounded (updating_user now j user_data) s other w =
        update_user_keeps now j user_data (get_session st now j s) (get_keeps now j s w)
    call_keeps unbounded (removing j) s other w = delete_keeps j s w
    call_keeps unbounded (removing_user user_id) s other w = clear_keeps user_id s w
    call_keeps unbounded (cleaning now) s other (store, gone) =
        let (kept, looked) = laws.cleanup_drops now s store in
        (kept, looked id ∙ unless_absent (has_expired now) (laws.lookup id s) gone)
    call_keeps unbounded (creating j now user_id user metadata) s other w =
        create_keeps j now user_id user metadata s unbounded other w

    calls_keep :
        is_strategy "bounded" config.session_strategy ≡ false
        → (cs : List ManagerCall) (s : S) → any (draws id) cs ≡ false
        → IsWithout s
        → IsWithout (calls st config cs s)
    unfolding calls
    calls_keep unbounded [] s other w = w
    calls_keep unbounded (c ∷ cs) s other w =
        calls_keep unbounded cs (call st config c s) (ground arith)
          (call_keeps unbounded c s (ground arith) w)

    -- Over a storage that keeps SessionLaws and under a strategy other than `bounded`: after
    -- `removeSession` of an id, whatever calls of the manager follow, at whatever times, as long as
    -- none creates a session under that id, `getSession` of the id finds nothing.
    pub removed_session_stays_gone :
        is_strategy "bounded" config.session_strategy ≡ false
        → (s : S) (cs : List ManagerCall) (later : ℕ) → laws.IsStore s
        → any (draws id) cs ≡ false
        → (get_session st later id (calls st config cs (remove_session st id s).1)).0 ≡ none
    unfolding remove_session
    removed_session_stays_gone unbounded s cs later store other =
        let (kept, looked) = laws.delete_drops id s store in
        let gone = looked id ∙ ap (λ b. if b then none else laws.lookup id s) (eq_refl id) in
        absent_not_found st laws later id (calls st config cs (st.delete_session id s).1)
          (calls_keep unbounded cs (st.delete_session id s).1 other (kept, gone)).1
