-- ===== src/Bootstrap/Sound.antt =====
-- What a completed bootstrap stands on, and that it completes: src/modules/bootstrap/index.ts.
use tinyland_auth.Base.{
  ◌+◌, ◌≤◌, true, false, ◌||◌, String, List, ◌==◌, ◌≡◌, Option, none, some, ok, ltb, is_empty,
  arith, ap, inl, inr, Bool-cases, Result-cases, eq_iff, ◌∙◌,
}
use tinyland_auth.Types.{AdminUser}
use tinyland_auth.Authenticator.{OtpLibrary, AuthenticatorConfig}
use tinyland_auth.Bootstrap.{
  BootstrapStorage, BootstrapServiceConfig, BootstrapState, BootstrapVerificationRequest, completed,
}
use tinyland_auth.Bootstrap.Service.{
  Circumstances, verify_code, user_checks, complete_checks, complete, max_age,
}
use tinyland_auth.Bootstrap.Once.{BootstrapLaws, complete_inv, created_has_users}

not_none : {m : String} → ok (some m) ≡ ok none → ⊥
not_none h = ground arith

module _ {S : Type 0} (st : BootstrapStorage S) (config : BootstrapServiceConfig) (otp : OtpLibrary)
    (authenticator : AuthenticatorConfig) (sha256 : String → String) where
  -- There was no user, the state is of the handle, at most ten minutes old and holds the secret that
  -- the code was verified with; there is a user now.
  pub record IsJustified (env : Circumstances) (found : Option BootstrapState)
      (verification : BootstrapVerificationRequest) (s t : S) : Type 0 where
    pub state : BootstrapState
    pub given : found ≡ some state
    pub no_users : st.has_users s ≡ ok false
    pub same_handle : state.handle ≡ verification.handle
    pub in_time : env.now_ms ≤ state.timestamp + max_age
    pub verified :
        verify_code st config otp authenticator sha256 env.epoch_seconds state.totp_secret
          verification.totp_code
        ≡ true
    pub users : st.has_users t ≡ ok true

  abbrev Passed : Circumstances → BootstrapState → BootstrapVerificationRequest → S → Type 0
  Passed env state verification s =
      (st.has_users s ≡ ok false)
      × (state.handle ≡ verification.handle)
      × (env.now_ms ≤ state.timestamp + max_age)
      × (verify_code st config otp authenticator sha256 env.epoch_seconds state.totp_secret
            verification.totp_code
          ≡ true)

  last_checks :
      (env : Circumstances) (state : BootstrapState) (verification : BootstrapVerificationRequest)
      (s : S)
      → user_checks st config otp authenticator sha256 env state verification s ≡ ok none
      → (st.has_users s ≡ ok false)
        × (verify_code st config otp authenticator sha256 env.epoch_seconds state.totp_secret
              verification.totp_code
            ≡ true)
  unfolding user_checks
  last_checks env state verification s h = elim (Result-cases (st.has_users s)) [
    | inl (m, e) ↦ ground arith
    | inr (found, e) ↦ elim (Bool-cases found) [
      | inl f ↦ absurd (not_none (rw (user_checks, e, f) at h))
      | inr f ↦
          elim (Bool-cases (
            verify_code st config otp authenticator sha256 env.epoch_seconds state.totp_secret
              verification.totp_code)) [
                | inl g ↦ (e ∙ ap ok f, g)
                | inr g ↦ absurd (not_none (rw (user_checks, e, f, g) at h))
              ]
    ]
  ]

  checks_pass_inv :
      (env : Circumstances) (state : BootstrapState) (verification : BootstrapVerificationRequest)
      (s : S)
      → complete_checks st config otp authenticator sha256 env state verification s ≡ ok none
      → Passed env state verification s
  unfolding complete_checks
  checks_pass_inv env state verification s h =
      elim (Bool-cases (is_empty state.handle || is_empty state.totp_secret)) [
        | inl e ↦ absurd (not_none (rw (complete_checks, e) at h))
        | inr e ↦ elim (Bool-cases (ltb (state.timestamp + max_age) env.now_ms)) [
          | inl f ↦ absurd (not_none (rw (complete_checks, e, f) at h))
          | inr f ↦ elim (Bool-cases (state.handle == verification.handle)) [
            | inr g ↦ absurd (not_none (rw (complete_checks, e, f, g) at h))
            | inl g ↦
                let (nobody, verified) =
                  last_checks env state verification s (rw (complete_checks, e, f, g) at h) in
                (
                  nobody,
                  ground (arith, eq_iff state.handle verification.handle),
                  ground arith,
                  verified,
                )
          ]
        ]
      ]

  -- A bootstrap completes only when no user was there, for the handle and with a verified code of a
  -- state that is at most ten minutes old, and leaves a user.
  pub complete_sound :
      (laws : BootstrapLaws st) (env : Circumstances) (found : Option BootstrapState)
      (verification : BootstrapVerificationRequest) (s t : S) (user : AdminUser)
      (codes : List String)
      → complete st config otp authenticator sha256 env found verification s
        ≡ (ok (completed user codes), t)
      → IsJustified env found verification s t
  complete_sound laws env found verification s t user codes h =
      let (state, given, passed, created, made) =
        complete_inv st config otp authenticator sha256 env found verification s t user codes h in
      let (nobody, same, timely, verified) = checks_pass_inv env state verification s passed in
      record {
        state = state;
        given = given;
        no_users = nobody;
        same_handle = same;
        in_time = timely;
        verified = verified;
        users =
            created_has_users st config otp authenticator sha256 laws env state s t created made;
      }
