-- ===== src/Retirement/Sound.antt =====
-- What a receipt of `retire` and `apply` says: src/storage/file-totp-retirement.ts.
use tinyland_auth.Base.{
  true, false, ◌||◌, String, List, [], ◌∷◌, ◌≡◌, Option, none, some, Result, ok, err, ◌>>◌,
  throw_if, is_some, arith, refl, sym, subst, ap, inl, inr, Result-cases, bind_inv, check_inv,
  throw_if-not, throw_if_inv, ◌∙◌,
}
use tinyland_auth.Types.{AdminUser, Session}
use tinyland_auth.File.{Files, when_ok}
use tinyland_auth.File.Sessions.{delete_user_sessions, get_sessions_by_user}
use tinyland_auth.File.Factors.{get_totp_secret, get_backup_codes}
use tinyland_auth.File.Expected.{
  flags_cleared, delete_totp_secret_expected, delete_backup_codes_expected,
  clear_totp_flags_expected,
}
use tinyland_auth.Journal.{Code, Outcome, failed, done, ◌then◌, then_inv, Outcome-cases}
use tinyland_auth.Journal
use tinyland_auth.Retirement.Material.{Encoding}
use tinyland_auth.Retirement.Records.{Committed, Receipt, applied, message, assert_receipt}
use tinyland_auth.Retirement.Store.{Custody, Sealing, write}
use tinyland_auth.Retirement.Apply.{
  Writings, owner, continued, apply_checks, assert_no_sessions, assert_retired, retire_credentials,
  receipt_of, record_applied, answered, apply,
}
use tinyland_auth.Retirement.Valid.{write_files}

when_ok_ok :
    {A B : Type 0} (m : Result A) (rest : A → Result B × Files) (files g : Files) (b : B)
    → when_ok m rest files ≡ (ok b, g)
    → (a : A) × (m ≡ ok a) × (rest a ≡ (ok b, g))
unfolding when_ok
when_ok_ok (err e) rest files g b h = ground arith
when_ok_ok (ok a) rest files g b h = (a, refl, h)

continued_ok :
    {A B : Type 0} (m : Result A × Files) (rest : Files → Result B × Files) (g : Files) (b : B)
    → continued m rest ≡ (ok b, g)
    → (f : Files) × (rest f ≡ (ok b, g))
continued_ok (err e, f) rest g b h = ground arith
continued_ok (ok a, f) rest g b h = (f, h)

pub checked_done :
    {A B S : Type 0} (o : Outcome A) (s t : S) (rest : A → Outcome B × S) (b : B)
    → Journal.checked o s rest ≡ (done b, t)
    → (a : A) × (o ≡ done a) × (rest a ≡ (done b, t))
checked_done (failed code e) s t rest b h = ground arith
checked_done (done a) s t rest b h = (a, refl, h)

pub continued_done :
    {A B S : Type 0} (m : Outcome A × S) (rest : A → S → Outcome B × S) (t : S) (b : B)
    → Journal.continued m rest ≡ (done b, t)
    → (a : A) × (u : S) × (m ≡ (done a, u)) × (rest a u ≡ (done b, t))
continued_done (failed code e, s) rest t b h = ground arith
continued_done (done a, u) rest t b h = (a, u, refl, h)

pub done_inj : {A : Type 0} {a b : A} → done a ≡ done b → a ≡ b
done_inj h = cc

not_done : {A : Type 0} {code : Code} {m : String} {a : A} → failed code m ≡ done a → ⊥
not_done h = ground arith

answered_inv :
    {A : Type 0} (a b : A) (m : Outcome Unit × Custody) (t : Custody)
    → answered a m ≡ (done b, t)
    → (b ≡ a) × (m.1 ≡ t)
answered_inv a b (failed code e, s) t h = absurd (not_done (ap (λ x. x.0) h))
answered_inv a b (done u, s) t h = (done_inj (sym (ap (λ x. x.0) h)), ap (λ x. x.1) h)

-- No secret, no codes and no session of the user are stored, and the user's flags are cleared.
pub record IsGone (user_id handle : String) (files : Files) : Type 0 where
  pub no_secret : get_totp_secret handle files ≡ ok none
  pub no_codes : get_backup_codes user_id files ≡ ok none
  pub no_sessions : get_sessions_by_user user_id files ≡ ok []
  pub user : AdminUser
  pub owned : owner user_id handle files ≡ ok user
  pub cleared : flags_cleared user ≡ true

empty_of :
    (user_id : String) (files : Files) (ss : List Session)
    → get_sessions_by_user user_id files ≡ ok ss
    → assert_no_sessions user_id files ≡ ok tt
    → ss ≡ []
unfolding assert_no_sessions
empty_of user_id files [] e h = refl
empty_of user_id files (s ∷ ss) e h = ground arith

no_sessions_inv :
    (user_id : String) (files : Files)
    → assert_no_sessions user_id files ≡ ok tt
    → get_sessions_by_user user_id files ≡ ok []
unfolding assert_no_sessions
no_sessions_inv user_id files h = elim (Result-cases (get_sessions_by_user user_id files)) [
  | inl (m, e) ↦ ground arith
  | inr (ss, e) ↦ e ∙ ap ok (empty_of user_id files ss e h)
]

none_of : {A : Type 0} (o : Option A) → is_some o ≡ false → o ≡ none
none_of none h = refl
none_of (some a) h = ground arith

module _ (js : Encoding) (v : Committed) where
  assert_retired_inv :
      (files : Files) → assert_retired js v files ≡ ok tt → IsGone v.user_id v.handle files
  unfolding assert_retired
  assert_retired_inv files h =
      let (factor, secret, r1) = bind_inv (get_totp_secret v.handle files) _ tt h in
      let (codes, read, r2) = bind_inv (get_backup_codes v.user_id files) _ tt r1 in
      let (u, chain, last) =
        bind_inv
          (throw_if (is_some factor || is_some codes) message
            >> assert_no_sessions v.user_id files
            >> owner v.user_id v.handle files)
          _ tt r2 in
      let (first, owned) =
        check_inv
          (throw_if (is_some factor || is_some codes) message >> assert_no_sessions v.user_id files)
          (owner v.user_id v.handle files) u chain in
      let (neither, none_left) =
        check_inv (throw_if (is_some factor || is_some codes) message)
          (assert_no_sessions v.user_id files) tt first in
      let absent = throw_if_inv (is_some factor || is_some codes) message neither in
      record {
        no_secret = secret ∙ ap ok (none_of factor (ground arith));
        no_codes = read ∙ ap ok (none_of codes (ground arith));
        no_sessions = no_sessions_inv v.user_id files none_left;
        user = u;
        owned = owned;
        cleared = throw_if-not (flags_cleared u) message last;
      }

  retire_credentials_inv :
      (ws : Writings) (files g : Files)
      → retire_credentials js ws v files ≡ (ok tt, g)
      → IsGone v.user_id v.handle g
  unfolding retire_credentials
  retire_credentials_inv ws files g h =
      let (_, _, r1) = when_ok_ok (apply_checks js v files) _ files g tt h in
      let (f, r2) = continued_ok (delete_user_sessions ws.sessions v.user_id files) _ g tt r1 in
      let (_, _, r3) = when_ok_ok (assert_no_sessions v.user_id f) _ f g tt r2 in
      let (f2, r4) =
        continued_ok (delete_totp_secret_expected js ws.secret v.handle v.factor_snapshot_digest f)
          _ g tt r3 in
      let (f3, r5) =
        continued_ok (delete_backup_codes_expected js ws.codes v.user_id v.recovery_set_digest f2) _
          g tt r4 in
      let (k, r6) =
        continued_ok (clear_totp_flags_expected ws.flags v.user_id v.handle ws.cleared_at f3) _ g tt
          r5 in
      assert_retired_inv g
        (subst (λ x. assert_retired js v x ≡ ok tt) (ap (λ x. x.1) r6) (ap (λ x. x.0) r6))

  record_applied_inv :
      (keys : Sealing) (ws : Writings) (s t : Custody) (r : Receipt) (m : Result Unit × Files)
      → record_applied js keys ws v s m ≡ (done r, t)
      → (r ≡ receipt_of ws.applied_at v) × (m ≡ (ok tt, t.files))
  unfolding record_applied
  record_applied_inv keys ws s t r (err e, f) h = ground arith
  record_applied_inv keys ws s t r (ok _, f) h =
      elim (Outcome-cases (assert_receipt (receipt_of ws.applied_at v))) [
        | inl (code, m, e) ↦ absurd (not_done (ap (λ x. x.0) (rw (e, record_applied) at h)))
        | inr (u, e) ↦
            let w = applied v.authorization_digest (receipt_of ws.applied_at v) in
            let (same, left) =
              answered_inv (receipt_of ws.applied_at v) r
                (write keys ws.journal w (record s { files = f })) t
                (rw (e, record_applied) at h) in
            (
              same,
              ap (λ x. (ok tt, x))
                  (sym (write_files keys ws.journal w (record s { files = f }))
                    ∙ ap (λ x. x.files) left),
            )
      ]

  -- A receipt of `apply` is given only when the credentials are gone.
  pub apply_receipt :
      (keys : Sealing) (ws : Writings) (s t : Custody) (r : Receipt)
      → apply js keys ws v s ≡ (done r, t)
      → (r ≡ receipt_of ws.applied_at v) × IsGone v.user_id v.handle t.files
  unfolding apply record_applied
  apply_receipt keys ws s t r h =
      let (same, gone) = record_applied_inv keys ws s t r (retire_credentials js ws v s.files) h in
      (same, retire_credentials_inv ws s.files t.files gone)
