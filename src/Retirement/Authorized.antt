-- ===== src/Retirement/Authorized.antt =====
-- What `retire` of src/storage/file-totp-retirement.ts asks for before it retires.
use tinyland_auth.Base.{
  ℕ, Bool, ◌≡◌, Option, none, some, leb, length, is_some, arith, refl, sym, subst, ap, ◌∙◌,
}
use tinyland_auth.Types.{at, not_after}
use tinyland_auth.File.{Files, Writing}
use tinyland_auth.Journal.{
  Outcome, failed, done, ◌then◌, ◌and_then◌, rethrown, then_inv, unauthorized, conflict,
  recovery_required,
}
use tinyland_auth.Retirement.Material.{Encoding, factor_snapshot_digest}
use tinyland_auth.Retirement.Records.{
  RetirementBinding, Committed, Receipt, RetirementRecord, committed, Consumed, fail_if,
  assert_text, assert_component, assert_authorization,
}
use tinyland_auth.Retirement.Store.{Custody, Sealing, filenames, max_records, read, write}
use tinyland_auth.Retirement.Apply.{Writings, receipt_of, apply}
use tinyland_auth.Retirement.Operations.{
  Current, current, assert_unchanged, Decision, rejected, not_consumed, consumed, RetirementResult,
  retired, committed_record, commit_and_apply, commitment, decide, recover, retire,
}
use tinyland_auth.Retirement.Sound.{IsGone, done_inj, apply_receipt, checked_done, continued_done}

and_then_inv :
    {A B : Type 0} (o : Outcome A) (f : A → Outcome B) (b : B)
    → (o and_then f) ≡ done b
    → (a : A) × (o ≡ done a) × (f a ≡ done b)
and_then_inv (failed code m) f b h = ground arith
and_then_inv (done a) f b h = (a, refl, h)

retired_inj :
    {T : Type 0} (x y : RetirementResult T) (a b : Receipt)
    → x ≡ retired a
    → y ≡ retired b
    → x ≡ y
    → a ≡ b
retired_inj x y a b d e h = cc

module _ (js : Encoding) (keys : Sealing) (binding : RetirementBinding) where
  -- What the tests after a decision establish of a committed record: the consumed authorization is
  -- for this user, its receipt was not used before, and the record is of the user and the receipt.
  pub record IsCommitment (c : Consumed) (v : Committed) (s : Custody) : Type 0 where
    pub authorized : assert_authorization c binding ≡ done tt
    pub unused : read keys (keys.mac "operation" c.receipt_id) s.journal ≡ done none
    pub named : v.operation_id ≡ keys.mac "operation" c.receipt_id
    pub of_user : v.user_id ≡ binding.user_id
    pub of_handle : v.handle ≡ binding.handle

  unused_inv :
      (found : Option RetirementRecord) → fail_if (is_some found) conflict ≡ done tt → found ≡ none
  unused_inv none h = refl
  unused_inv (some r) h = ground arith

  commitment_inv :
      (c : Consumed) (first : Current) (clock : ℕ → ℕ) (s : Custody) (v : Committed)
      → commitment js keys binding c first clock s ≡ done v
      → IsCommitment c v s
  unfolding commitment committed_record
  commitment_inv c first clock s v h =
      let (second, a, r1) =
        and_then_inv (assert_authorization c binding then current js binding (clock 1) s.files) _ v
          h in
      let (found, b, r2) =
        and_then_inv
          (assert_unchanged js first second
            then read keys (keys.mac "operation" c.receipt_id) s.journal)
          _ v r1 in
      let (names, d, r3) =
        and_then_inv (fail_if (is_some found) conflict then filenames s.journal) _ v r2 in
      let (snapshot, e, r4) =
        and_then_inv
          (fail_if (leb max_records (length names)) recovery_required
            then fail_if (not_after second.session.expires (at (clock 2))) unauthorized
            then rethrown (factor_snapshot_digest js second.factor))
          _ v r3 in
      let none_found =
        unused_inv found
          (then_inv (fail_if (is_some found) conflict) (filenames s.journal) names d).0 in
      let is_read =
        (then_inv (assert_unchanged js first second)
          (read keys (keys.mac "operation" c.receipt_id) s.journal) found b).1 in
      let made : committed_record js keys binding c second snapshot (clock 3) ≡ v = done_inj r4 in
      record {
        authorized =
            (then_inv (assert_authorization c binding) (current js binding (clock 1) s.files) second
              a).0;
        unused = is_read ∙ ap done none_found;
        named = sym (ap (λ x. x.operation_id) made);
        of_user = sym (ap (λ x. x.user_id) made);
        of_handle = sym (ap (λ x. x.handle) made);
      }

  -- What stands behind a receipt of `retire`.
  pub record IsAuthorized {T : Type 0} (prepared : Bool) (run : ℕ → Writings) (now : ℕ)
      (authorize : Current → Files → Decision T × Files) (receipt : Receipt) (s t : Custody)
      : Type 0 where
    pub recovered : Custody
    pub first : Current
    pub decision : Consumed
    pub files : Files
    pub recovery : recover js keys prepared run s ≡ (done tt, recovered)
    pub authority : current js binding now recovered.files ≡ done first
    pub decided : authorize first recovered.files ≡ (consumed decision, files)
    pub authorized : assert_authorization decision binding ≡ done tt
    pub unused : read keys (keys.mac "operation" decision.receipt_id) recovered.journal ≡ done none
    pub named : receipt.operation_id ≡ keys.mac "operation" decision.receipt_id
    pub gone : IsGone binding.user_id binding.handle t.files

  module _ {T : Type 0} (clock : ℕ → ℕ) (w : Writing) (ws : Writings) where
    commit_inv :
        (v : Committed) (s t : Custody) (r : Receipt)
        → commit_and_apply js keys {T = T} w ws v s ≡ (done (retired r), t)
        → (r ≡ receipt_of ws.applied_at v) × IsGone v.user_id v.handle t.files
    unfolding commit_and_apply
    commit_inv v s t r h =
        let (_, u, written, r1) = continued_done (write keys w (committed v) s) _ t (retired r) h in
        let (given, x, applied_so, last) =
          continued_done (apply js keys ws v u) _ t (retired r) r1 in
        let same =
          retired_inj (retired given) (retired r) given r refl refl
            (done_inj (ap (λ y. y.0) last)) in
        let (is_receipt, gone) = apply_receipt js v keys ws u x given applied_so in
        (
          sym same ∙ is_receipt,
          subst (λ y. IsGone v.user_id v.handle y.files) (ap (λ y. y.1) last) gone,
        )

    decide_inv :
        (first : Current) (d : Decision T) (files : Files) (s t : Custody) (r : Receipt)
        → decide js keys binding clock w ws first (d, files) s ≡ (done (retired r), t)
        → (c : Consumed) × (d ≡ consumed c)
          × (v : Committed) × IsCommitment c v (record s { files = files })
          × (r ≡ receipt_of ws.applied_at v)
          × IsGone v.user_id v.handle t.files
    unfolding decide
    decide_inv first (rejected m) files s t r h = ground arith
    decide_inv first (not_consumed value) files s t r h = ground arith
    decide_inv first (consumed c) files s t r h =
        let u : Custody = record s { files = files } in
        let (v, committed_so, more) =
          checked_done (commitment js keys binding c first clock u) u t _ (retired r) h in
        let (is_receipt, gone) = commit_inv v u t r more in
        (c, refl, v, commitment_inv c first clock u v committed_so, is_receipt, gone)

    -- A receipt is given only for a decision that consumed an authorization to disable the factor of
    -- this user, made under the authority that was found, and with a receipt that no record of the
    -- journal has; the receipt is named by that decision, and the user's secret, codes and sessions
    -- are gone and the flags cleared.
    pub retire-IsAuthorized :
        (prepared : Bool) (run : ℕ → Writings) (authorize : Current → Files → Decision T × Files)
        (s t : Custody) (r : Receipt)
        → retire js keys prepared run clock w ws binding authorize s ≡ (done (retired r), t)
        → IsAuthorized prepared run (clock 0) authorize r s t
    unfolding retire receipt_of
    retire-IsAuthorized prepared run authorize s t r h =
        let (_, _, r1) =
          checked_done
            (assert_component binding.user_id
              then assert_component binding.handle
              then assert_text binding.session_id)
            s t _ (retired r) h in
        let (_, u, recovery, r2) =
          continued_done (recover js keys prepared run s) _ t (retired r) r1 in
        let (first, authority, r3) =
          checked_done (current js binding (clock 0) u.files) u t _ (retired r) r2 in
        let (d, files) = authorize first u.files in
        let (c, consumed_so, v, made, is_receipt, gone) = decide_inv first d files u t r r3 in
        record {
          recovered = u;
          first = first;
          decision = c;
          files = files;
          recovery = recovery;
          authority = authority;
          decided = ap (λ x. (x, files)) consumed_so;
          authorized = made.authorized;
          unused = made.unused;
          named = ap (λ x. x.operation_id) is_receipt ∙ made.named;
          gone =
              subst (λ id. IsGone id binding.handle t.files) made.of_user
                (subst (λ handle. IsGone v.user_id handle t.files) made.of_handle gone);
        }
