-- ===== src/Retirement/Valid.antt =====
-- What the tests of a committed record ensure: src/storage/file-totp-retirement.ts.
use tinyland_auth.Base.{
  ℕ, Bool, true, false, not, ◌||◌, String, ◌≡◌, Option, none, some, ok, ltb, is_empty, arith, refl,
  inl, inr, Bool-cases,
}
use tinyland_auth.Base.Assoc.{put}
use tinyland_auth.Types.{at, before}
use tinyland_auth.Sessions.Policy.{has_nul}
use tinyland_auth.StepUp.Records.{is_hex64, text_length}
use tinyland_auth.File.{Writing, succeeds}
use tinyland_auth.File.Expected.{is_component, retirement_component, is_malformed}
use tinyland_auth.Journal.{Outcome, failed, done, then_inv, Outcome-cases, invalid}
use tinyland_auth.Retirement.Records.{
  Committed, RetirementRecord, committed, applied, fail_if, assert_record, assert_receipt,
  assert_component, assert_text, assert_digest, assert_stamp, assert_optional_digest, operation_of,
}
use tinyland_auth.Retirement.Store.{Custody, Sealing, envelope, write}
use tinyland_auth.Retirement.Apply.{receipt_of, answered}

fail_if_inv : (b : Bool) (code : _) → fail_if b code ≡ done tt → b ≡ false
fail_if_inv false code h = refl
fail_if_inv true code h = ground arith

pub component_inv : (s : String) → assert_component s ≡ done tt → retirement_component s ≡ ok tt
unfolding assert_component assert_text retirement_component
component_inv s h =
    let (text, named) = then_inv (assert_text s) (fail_if (not (is_component s)) invalid) tt h in
    let a = fail_if_inv (is_empty s || ltb 256 (text_length s) || has_nul s) invalid text in
    let b = fail_if_inv (not (is_component s)) invalid named in
    let c : (ltb 256 (text_length s) || not (is_component s)) ≡ false = ground arith in
    rw (c, retirement_component) refl

pub digest_inv : (s : String) → assert_digest s ≡ done tt → is_hex64 s ≡ true
unfolding assert_digest
digest_inv s h = let b = fail_if_inv (not (is_hex64 s)) invalid h in ground arith

pub malformed_inv :
    (e : Option String) → assert_optional_digest e ≡ done tt → is_malformed e ≡ false
unfolding assert_optional_digest
malformed_inv none h = refl
malformed_inv (some d) h = rw (digest_inv d h) refl

-- What the tests of a committed record say of its parts.
pub record IsSound (v : Committed) : Type 0 where
  pub user_named : assert_component v.user_id ≡ done tt
  pub handle_named : assert_component v.handle ≡ done tt
  pub committed_stamp : assert_stamp v.committed_at ≡ done tt
  pub operation_digest : assert_digest v.operation_id ≡ done tt
  pub generation_digest : assert_digest v.factor_generation ≡ done tt
  pub snapshot_digest : assert_digest v.factor_snapshot_digest ≡ done tt
  pub authorized : assert_digest v.authorization_digest ≡ done tt
  pub recovery_digest : assert_optional_digest v.recovery_set_digest ≡ done tt

pub IsSound-inv : (v : Committed) → assert_record (committed v) ≡ done tt → IsSound v
unfolding assert_record
IsSound-inv v h = record {
  user_named = ground arith;
  handle_named = ground arith;
  committed_stamp = ground arith;
  operation_digest = ground arith;
  generation_digest = ground arith;
  snapshot_digest = ground arith;
  authorized = ground arith;
  recovery_digest = ground arith;
}

pub receipt_done :
    (v : Committed) (now : ℕ)
    → IsSound v
    → before (at now) v.committed_at ≡ false
    → assert_receipt (receipt_of now v) ≡ done tt
unfolding assert_receipt receipt_of assert_stamp
receipt_done v now sound later =
    rw
      (
        sound.operation_digest, assert_receipt, sound.user_named, sound.handle_named,
        sound.generation_digest, sound.committed_stamp, later,
      )
      refl

pub applied_record_done :
    (v : Committed) (now : ℕ)
    → IsSound v
    → before (at now) v.committed_at ≡ false
    → assert_record (applied v.authorization_digest (receipt_of now v)) ≡ done tt
unfolding assert_record
applied_record_done v now sound later =
    rw (sound.authorized, assert_record, receipt_done v now sound later) refl

pub journal_done :
    (keys : Sealing) (w : Writing) (r : RetirementRecord) (s : Custody)
    → assert_record r ≡ done tt
    → succeeds w ≡ true
    → write keys w r s ≡ (
      done tt,
      record s {
        journal =
            put (operation_of r) (envelope r (keys.mac "seal" (keys.json_record r))) s.journal;
      },
    )
unfolding write
journal_done keys w r s recorded e = elim (Bool-cases w.renamed) [
  | inl a ↦ elim (Bool-cases w.synced) [
    | inl b ↦ rw (recorded, write, a, b) refl
    | inr b ↦ ground arith
  ]
  | inr a ↦ ground arith
]

pub write_files :
    (keys : Sealing) (w : Writing) (r : RetirementRecord) (s : Custody)
    → (write keys w r s).1.files ≡ s.files
unfolding write
write_files keys w r s = elim (Outcome-cases (assert_record r)) [
  | inl (code, m, e) ↦ rw (e, write) refl
  | inr (u, e) ↦ elim (Bool-cases w.renamed) [
    | inl a ↦ rw (e, write, a) refl
    | inr a ↦ rw (e, write, a) refl
  ]
]

pub answered_files :
    {A : Type 0} (a : A) (m : Outcome Unit × Custody) → (answered a m).1.files ≡ m.1.files
answered_files a (failed code e, s) = refl
answered_files a (done u, s) = refl
