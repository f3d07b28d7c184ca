-- ===== src/Bootstrap/Completes.antt =====
-- A bootstrap that was initiated completes over a storage whose writes succeed:
-- src/modules/bootstrap/index.ts.
use tinyland_auth.Base.{
  ℕ, Option, ◌∙◌, ◌+◌, ◌≤◌, true, false, String, List, ◌==◌, ◌≡◌, none, some, Result, ok, err, ltb,
  length, is_empty, arith, refl, sym, ap, subst, inl, inr, Bool-cases, Result-cases, eq_refl,
  eq_iff,
}
use tinyland_auth.Types.{AdminUser, at}
use tinyland_auth.Types.Secrets.{EncryptedTotpSecret, BackupCodeSet}
use tinyland_auth.Types.Audit.{EventData}
use tinyland_auth.BackupCodes.{create_backup_code_set}
use tinyland_auth.Authenticator.{OtpLibrary, AuthenticatorConfig}
use tinyland_auth.Bootstrap.{
  BootstrapStorage, BootstrapServiceConfig, BootstrapRequest, BootstrapSetup, BootstrapState,
  BootstrapVerificationRequest, completed,
}
use tinyland_auth.Bootstrap.Service.{
  completion_event, Circumstances, first_admin, safe_user, verify_code, create_first_admin,
  response_of, user_checks, complete_checks, complete, initiate, get_status, hash_password,
  is_bootstrap_handle, max_age,
}

err_not_ok : {A : Type 0} {e : String} {a : A} → err e ≡ ok a → ⊥
err_not_ok h = ground arith

ok_inj : {A : Type 0} {a b : A} → ok a ≡ ok b → a ≡ b
ok_inj h = cc

not_true : false ≡ true → ⊥
not_true h = ground arith

equal_of : (a b : String) → (a == b) ≡ true → a ≡ b
equal_of a b e = ground (arith, eq_iff a b)

-- What a completion relies on: the writes succeed, a secret that can be stored is read back, and
-- the user that is created is found under its id, which the later writes do not touch.
pub record CompletionLaws {S : Type 0} (st : BootstrapStorage S) : Type 1 where
  pub IsStorable : String → EncryptedTotpSecret → Type 0
  pub stored_user : String → S → Option AdminUser
  pub secret_saved :
      (handle : String) (secret : EncryptedTotpSecret) (s : S)
      → IsStorable handle secret
      → (t : S) × (st.save_totp_secret handle secret s ≡ (ok tt, t))
        × (st.get_totp_secret handle t ≡ ok (some secret))
        × (st.has_users t ≡ st.has_users s)
  pub user_created :
      (id : String) (now : ℕ) (state : BootstrapState) (s : S)
      → st.has_users s ≡ ok false
      → (t : S) × (st.create_user id now (first_admin now state) s
          ≡ (ok (record (first_admin now state) { id = id }), t))
        × (stored_user id t ≡ some (record (first_admin now state) { id = id }))
  pub codes_saved :
      (user_id : String) (codes : BackupCodeSet) (s : S)
      → (t : S) × (st.save_backup_codes user_id codes s ≡ (ok tt, t))
        × ((id : String) → stored_user id t ≡ stored_user id s)
  pub event_logged :
      (event_id : String) (event : EventData) (s : S)
      → (t : S) × (st.log_audit_event event_id event s ≡ (ok tt, t))
        × ((id : String) → stored_user id t ≡ stored_user id s)

-- What `initiate` ensures of its setup.
pub record IsInitiated (totp_secret : String) (backup_codes : List String) (now : ℕ)
    (request : BootstrapRequest) (setup : BootstrapSetup) : Type 0 where
  pub handle_named : is_empty request.handle ≡ false
  pub handle_kept : setup.state.handle ≡ request.handle
  pub secret_kept : setup.state.totp_secret ≡ totp_secret
  pub codes_kept : setup.state.backup_codes ≡ backup_codes
  pub time_kept : setup.state.timestamp ≡ now

handle-is_empty : (s : String) → is_bootstrap_handle s ≡ true → is_empty s ≡ false
unfolding is_bootstrap_handle
handle-is_empty s h = elim (Bool-cases (is_empty s)) [
  | inr e ↦ e
  | inl e ↦ absurd (not_true (subst (λ x. is_bootstrap_handle x ≡ true) (equal_of s "" e) h))
]

module _ {S : Type 0} (st : BootstrapStorage S) (config : BootstrapServiceConfig) where
  initiate_inv :
      (bcrypt : String → ℕ → Result String) (totp_secret : String) (backup_codes : List String)
      (now : ℕ) (request : BootstrapRequest) (s : S) (setup : BootstrapSetup)
      → initiate st config bcrypt totp_secret backup_codes now request s ≡ ok setup
      → IsInitiated totp_secret backup_codes now request setup
  unfolding initiate get_status
  initiate_inv bcrypt totp_secret backup_codes now request s setup h =
      elim (Result-cases (st.has_users s)) [
        | inl (m1, e) ↦ absurd (err_not_ok (rw (initiate, get_status, e) at h))
        | inr (true, e) ↦ absurd (err_not_ok (rw (initiate, get_status, e) at h))
        | inr (false, e) ↦ elim (Bool-cases (is_bootstrap_handle request.handle)) [
          | inr f ↦ absurd (err_not_ok (rw (initiate, get_status, e, f) at h))
          | inl f ↦
              elim (Result-cases (hash_password bcrypt request.password config.bcrypt_rounds)) [
                | inl (m1, g) ↦ absurd (err_not_ok (rw (initiate, get_status, e, f, g) at h))
                | inr (hash, g) ↦
                    elim (Result-cases
                      (config.generate_qr_code request.handle totp_secret config.app_name)) [
                        | inl (m1, q) ↦
                            absurd (err_not_ok (rw (initiate, get_status, e, f, g, q) at h))
                        | inr (qr, q) ↦
                            let made = sym (ok_inj (rw (initiate, get_status, e, f, g, q) at h)) in
                            record {
                              handle_named = handle-is_empty request.handle f;
                              handle_kept = ap (λ x. x.state.handle) made;
                              secret_kept = ap (λ x. x.state.totp_secret) made;
                              codes_kept = ap (λ x. x.state.backup_codes) made;
                              time_kept = ap (λ x. x.state.timestamp) made;
                            }
                      ]
              ]
        ]
      ]

  module _ (otp : OtpLibrary) (authenticator : AuthenticatorConfig) (sha256 : String → String) where
    checks_pass :
        (env : Circumstances) (state : BootstrapState) (verification : BootstrapVerificationRequest)
        (s : S)
        → is_empty state.handle ≡ false
        → is_empty state.totp_secret ≡ false
        → ltb (state.timestamp + max_age) env.now_ms ≡ false
        → (state.handle == verification.handle) ≡ true
        → st.has_users s ≡ ok false
        → verify_code st config otp authenticator sha256 env.epoch_seconds state.totp_secret
            verification.totp_code
          ≡ true
        → complete_checks st config otp authenticator sha256 env state verification s ≡ ok none
    unfolding complete_checks user_checks
    checks_pass env state verification s a b c d e f =
        rw (a, complete_checks, b, c, d, user_checks, e, f) refl

    module _ (laws : CompletionLaws st) where
      created_lem :
          (env : Circumstances) (state : BootstrapState) (encrypted : EncryptedTotpSecret) (s : S)
          → config.encrypt_totp_secret state.handle state.totp_secret ≡ ok encrypted
          → laws.IsStorable state.handle encrypted
          → st.has_users s ≡ ok false
          → (t : S) × (create_first_admin st config otp authenticator sha256 env state s
              ≡ (ok (record (first_admin env.now state) { id = env.user_id }), t))
            × (laws.stored_user env.user_id t
                ≡ some (record (first_admin env.now state) { id = env.user_id }))
      unfolding create_first_admin
      created_lem env state encrypted s sealed storable unused =
          let user : AdminUser = record (first_admin env.now state) { id = env.user_id } in
          let (t, saved, read, users) = laws.secret_saved state.handle encrypted s storable in
          let (u, added, there) = laws.user_created env.user_id env.now state t (users ∙ unused) in
          let (v, written, still) =
            laws.codes_saved env.user_id
              (record (create_backup_code_set sha256 env.code_id (at env.now) "pending"
                state.backup_codes) { user_id = env.user_id })
              u in
          let (w, logged, last) =
            laws.event_logged env.event_id
              (completion_event env.now user (length state.backup_codes)) v in
          (
            w,
            rw (create_first_admin, sealed, saved, read, added, written, logged) refl,
            last env.user_id ∙ still env.user_id ∙ there,
          )

      -- Over a storage that keeps CompletionLaws, whose writes succeed: the setup that `initiate` gave completes at most ten
      -- minutes later, whatever the storage holds by then as long as it holds no user, for the same
      -- handle and a code that verifies against the secret, when the secret is not empty and can be
      -- encrypted and the encrypted secret is one that the storage takes; and the first
      -- administrator is then found under its id.
      pub initiated_completes :
          (bcrypt : String → ℕ → Result String) (totp_secret : String) (backup_codes : List String)
          (now : ℕ) (request : BootstrapRequest) (before s : S) (setup : BootstrapSetup)
          (env : Circumstances) (code : String) (encrypted : EncryptedTotpSecret)
          → initiate st config bcrypt totp_secret backup_codes now request before ≡ ok setup
          → st.has_users s ≡ ok false
          → is_empty totp_secret ≡ false
          → env.now_ms ≤ now + max_age
          → verify_code st config otp authenticator sha256 env.epoch_seconds totp_secret code ≡ true
          → config.encrypt_totp_secret request.handle totp_secret ≡ ok encrypted
          → laws.IsStorable request.handle encrypted
          → (t : S) × (complete st config otp authenticator sha256 env
                (some setup.state)
                (record { handle = request.handle; totp_code = code })
                s
              ≡ (
                ok (
                    completed
                      (safe_user (record (first_admin env.now setup.state) { id = env.user_id }))
                      backup_codes),
                t,
              ))
            × (laws.stored_user env.user_id t
                ≡ some (record (first_admin env.now setup.state) { id = env.user_id }))
      unfolding complete complete_checks user_checks response_of
      initiated_completes bcrypt totp_secret backup_codes now request before s setup env code
            encrypted h unused secret timely verified sealed storable =
          let i = initiate_inv bcrypt totp_secret backup_codes now request before setup h in
          let (t, made, found) =
            created_lem env setup.state encrypted s (rw (i.handle_kept, i.secret_kept) sealed)
              (rw i.handle_kept storable) unused in
          let late : ltb (now + max_age) env.now_ms ≡ false = ground arith in
          let passed =
            checks_pass env setup.state (record { handle = request.handle; totp_code = code }) s
              (rw i.handle_kept i.handle_named) (rw i.secret_kept secret) (rw i.time_kept late)
              (rw i.handle_kept (eq_refl request.handle)) unused (rw i.secret_kept verified) in
          (
            t,
            rw (passed, complete, made)
                (ap
                  (λ cs. (
                    ok (
                        completed
                          (safe_user
                            (record (first_admin env.now setup.state) { id = env.user_id }))
                          cs),
                    t,
                  ))
                  i.codes_kept),
            found,
          )
