-- ===== src/Bootstrap/Once.antt =====
-- One administrator is bootstrapped by calls in sequence: src/modules/bootstrap/index.ts over a lawful storage.
use tinyland_auth.Base.{
  ℕ, length, ◌+◌, ◌≤◌, true, ◌||◌, String, List, [], ◌∷◌, ◌==◌, ◌≡◌, Option, none, some, Result, ok,
  err, ◌>>=◌, ltb, is_empty, arith, refl, ap, subst, inl, inr, Bool-cases, ◌∙◌,
}
use tinyland_auth.Types.{AdminUser, at}
use tinyland_auth.Types.Secrets.{EncryptedTotpSecret, BackupCodeSet}
use tinyland_auth.Types.Audit.{EventData}
use tinyland_auth.BackupCodes.{create_backup_code_set}
use tinyland_auth.Authenticator.{OtpLibrary, AuthenticatorConfig}
use tinyland_auth.Bootstrap.{
  BootstrapStorage, BootstrapServiceConfig, BootstrapState, BootstrapVerificationRequest,
  BootstrapResponse, refused, completed, followed, attempted,
}
use tinyland_auth.Bootstrap.Service.{
  Circumstances, first_admin, completion_event, create_first_admin, response_of, user_checks,
  complete_checks, complete, max_age,
}

-- What the service relies on: a user that is created is there, and no other write takes users away.
pub record BootstrapLaws {S : Type 0} (st : BootstrapStorage S) : Type 0 where
  pub create_adds :
      (id : String) (now : ℕ) (user created : AdminUser) (s t : S)
      → st.create_user id now user s ≡ (ok created, t)
      → st.has_users t ≡ ok true
  pub create_keeps :
      (id : String) (now : ℕ) (user : AdminUser) (s : S)
      → st.has_users s ≡ ok true
      → st.has_users (st.create_user id now user s).1 ≡ ok true
  pub secret_keeps :
      (handle : String) (secret : EncryptedTotpSecret) (s : S)
      → st.has_users s ≡ ok true
      → st.has_users (st.save_totp_secret handle secret s).1 ≡ ok true
  pub codes_keep :
      (user_id : String) (codes : BackupCodeSet) (s : S)
      → st.has_users s ≡ ok true
      → st.has_users (st.save_backup_codes user_id codes s).1 ≡ ok true
  pub event_keeps :
      (id : String) (event : EventData) (s : S)
      → st.has_users s ≡ ok true
      → st.has_users (st.log_audit_event id event s).1 ≡ ok true

-- One call of `complete`.
pub record Attempt : Type 0 where
  pub env : Circumstances
  pub state : Option BootstrapState
  pub verification : BootstrapVerificationRequest

abbrev pub count_completed : Result BootstrapResponse → ℕ
count_completed (err message) = 0
count_completed (ok (refused message)) = 0
count_completed (ok (completed user codes)) = 1

followed_inv :
    {A B S : Type 0} (m : Result A × S) (rest : A → S → Result B × S) (b : B) (t : S)
    → followed m rest ≡ (ok b, t)
    → (a : A) × (u : S) × (m ≡ (ok a, u)) × (rest a u ≡ (ok b, t))
followed_inv (err e, s) rest b t h = ground arith
followed_inv (ok a, u) rest b t h = (a, u, refl, h)

attempted_inv :
    {A B S : Type 0} (m : Result A) (s : S) (rest : A → Result B × S) (b : B) (t : S)
    → attempted m s rest ≡ (ok b, t)
    → (a : A) × (m ≡ ok a) × (rest a ≡ (ok b, t))
attempted_inv (err e) s rest b t h = ground arith
attempted_inv (ok a) s rest b t h = (a, refl, h)

module _ {S : Type 0} (st : BootstrapStorage S) (config : BootstrapServiceConfig) (otp : OtpLibrary)
    (authenticator : AuthenticatorConfig) (sha256 : String → String) where
  -- Calls of `complete` one after the other: how many complete, and the storage after them.
  abbrev pub run : List Attempt → S → ℕ × S
  run [] s = (0, s)
  run (a ∷ more) s =
      let answer = complete st config otp authenticator sha256 a.env a.state a.verification s in
      let rest = run more answer.1 in (count_completed answer.0 + rest.0, rest.1)

  checks_refuse :
      (env : Circumstances) (state : BootstrapState) (verification : BootstrapVerificationRequest)
      (s : S)
      → st.has_users s ≡ ok true
      → (m : String) × (complete_checks st config otp authenticator sha256 env state verification s
          ≡ ok (some m))
  unfolding complete_checks user_checks
  checks_refuse env state verification s users =
      elim (Bool-cases (is_empty state.handle || is_empty state.totp_secret)) [
        | inl e ↦ ("Invalid bootstrap state", rw (complete_checks, e) refl)
        | inr e ↦ elim (Bool-cases (ltb (state.timestamp + max_age) env.now_ms)) [
          | inl f ↦
              ("Bootstrap session expired. Please start over.", rw (complete_checks, e, f) refl)
          | inr f ↦ elim (Bool-cases (state.handle == verification.handle)) [
            | inl g ↦ (
              "Bootstrap not allowed: users already exist",
              rw (complete_checks, e, f, g, user_checks, users) refl,
            )
            | inr g ↦ ("Handle mismatch", rw (complete_checks, e, f, g) refl)
          ]
        ]
      ]

  -- With a user in the storage nothing is completed and nothing changes.
  pub refused_with_users :
      (env : Circumstances) (state : Option BootstrapState)
      (verification : BootstrapVerificationRequest) (s : S)
      → st.has_users s ≡ ok true
      → (m : String) × (complete st config otp authenticator sha256 env state verification s
          ≡ (ok (refused m), s))
  unfolding complete
  refused_with_users env none verification s users = ("Invalid bootstrap state", refl)
  refused_with_users env (some state) verification s users =
      let (m, e) = checks_refuse env state verification s users in (m, rw (e, complete) refl)

  none_with_users :
      (attempts : List Attempt) (s : S) → st.has_users s ≡ ok true → run attempts s ≡ (0, s)
  none_with_users [] s users = refl
  none_with_users (a ∷ more) s users =
      let (m, e) = refused_with_users a.env a.state a.verification s users in
      rw (e, none_with_users more s users) refl

  response_inv :
      (state : BootstrapState) (m : Result AdminUser × S) (user : AdminUser) (codes : List String)
      (t : S)
      → response_of st config otp authenticator sha256 state m ≡ (ok (completed user codes), t)
      → (created : AdminUser) × (m ≡ (ok created, t))
  unfolding response_of
  response_inv state (err e, u) user codes t h = ground arith
  response_inv state (ok created, u) user codes t h =
      (created, ap (λ x. (ok created, x)) (ap (λ x. x.1) h))

  problem_inv :
      (state : BootstrapState) (problem : Option String) (m : Result AdminUser × S) (s t : S)
      (user : AdminUser) (codes : List String)
      → (elim problem as (λ _. Result BootstrapResponse × S) [
        | some message ↦ (ok (refused message), s)
        | none ↦ response_of st config otp authenticator sha256 state m
      ])
        ≡ (ok (completed user codes), t)
      → (problem ≡ none)
        × (response_of st config otp authenticator sha256 state m ≡ (ok (completed user codes), t))
  problem_inv state none m s t user codes h = (refl, h)
  problem_inv state (some message) m s t user codes h = ground arith

  -- What a completion stands on.
  pub complete_inv :
      (env : Circumstances) (found : Option BootstrapState)
      (verification : BootstrapVerificationRequest) (s t : S) (user : AdminUser)
      (codes : List String)
      → complete st config otp authenticator sha256 env found verification s
        ≡ (ok (completed user codes), t)
      → (state : BootstrapState) × (found ≡ some state)
        × (complete_checks st config otp authenticator sha256 env state verification s ≡ ok none)
        × (created : AdminUser) × (create_first_admin st config otp authenticator sha256 env state s
            ≡ (ok created, t))
  unfolding complete
  complete_inv env none verification s t user codes h = ground arith
  complete_inv env (some state) verification s t user codes h =
      let (problem, checked, r) =
        attempted_inv (complete_checks st config otp authenticator sha256 env state verification s)
          s _ (completed user codes) t h in
      let (passes, answered) =
        problem_inv state problem
          (create_first_admin st config otp authenticator sha256 env state s) s t user codes r in
      let (created, made) =
        response_inv state (create_first_admin st config otp authenticator sha256 env state s) user
          codes t answered in
      (state, refl, checked ∙ ap ok passes, created, made)

  module _ (laws : BootstrapLaws st) where
    -- After the writes of a completion there is a user.
    pub created_has_users :
        (env : Circumstances) (state : BootstrapState) (s t : S) (created : AdminUser)
        → create_first_admin st config otp authenticator sha256 env state s ≡ (ok created, t)
        → st.has_users t ≡ ok true
    unfolding create_first_admin
    created_has_users env state s t created h =
        let (encrypted, _, r1) =
          attempted_inv (config.encrypt_totp_secret state.handle state.totp_secret) s _ created t
            h in
        let (_, s1, _, r2) =
          followed_inv (st.save_totp_secret state.handle encrypted s) _ created t r1 in
        let (_, _, r3) =
          attempted_inv
            (st.get_totp_secret state.handle s1 >>= λ saved. elim saved [
              | none ↦ err "Failed to verify TOTP secret was saved"
              | some secret ↦ ok tt
            ])
            s1 _ created t r2 in
        let (user, u, added, r4) =
          followed_inv (st.create_user env.user_id env.now (first_admin env.now state) s1) _ created
            t r3 in
        let (_, v, saved, r5) =
          followed_inv
            (st.save_backup_codes user.id
              (record (create_backup_code_set sha256 env.code_id (at env.now) "pending"
                state.backup_codes) { user_id = user.id })
              u)
            _ created t r4 in
        let (_, w, logged, r6) =
          followed_inv
            (st.log_audit_event env.event_id
              (completion_event env.now user (length state.backup_codes)) v)
            _ created t r5 in
        let there =
          laws.create_adds env.user_id env.now (first_admin env.now state) user s1 u added in
        let with_codes =
          subst (λ x. st.has_users x ≡ ok true) (ap (λ x. x.1) saved)
            (laws.codes_keep user.id _ u there) in
        let with_event =
          subst (λ x. st.has_users x ≡ ok true) (ap (λ x. x.1) logged)
            (laws.event_keeps env.event_id _ v with_codes) in
        subst (λ x. st.has_users x ≡ ok true) (ap (λ x. x.1) r6) with_event

    once_of :
        (a : Attempt) (more : List Attempt) (s : S) (answer : Result BootstrapResponse) (t : S)
        → complete st config otp authenticator sha256 a.env a.state a.verification s ≡ (answer, t)
        → (run more t).0 ≤ 1
        → count_completed answer + (run more t).0 ≤ 1
    once_of a more s (err m) t h later = omega arith
    once_of a more s (ok (refused m)) t h later = omega arith
    once_of a more s (ok (completed user codes)) t h later =
        let (state, _, _, created, made) =
          complete_inv a.env a.state a.verification s t user codes h in
        omega (
          arith,
          ap (λ r. r.0) (none_with_users more t (created_has_users a.env state s t created made)),
        )

    at_most_once : (attempts : List Attempt) (s : S) → (run attempts s).0 ≤ 1
    at_most_once [] s = omega arith
    at_most_once (a ∷ more) s =
        let answer = complete st config otp authenticator sha256 a.env a.state a.verification s in
        once_of a more s answer.0 answer.1 refl (at_most_once more answer.1)

    -- Over a storage that keeps BootstrapLaws, of any calls of `complete` that run one after the
    -- other, each from its first test to its last write before the next begins, at most one completes; and
    -- where a user is stored before them none completes and they leave the storage as it is. Calls
    -- that overlap are outside the statement.
    pub completes_once :
        (attempts : List Attempt) (s : S)
        → ((run attempts s).0 ≤ 1) × (st.has_users s ≡ ok true → run attempts s ≡ (0, s))
    completes_once attempts s = (at_most_once attempts s, none_with_users attempts s)
