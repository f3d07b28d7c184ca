-- ===== src/StepUp/Keeping.antt =====
-- What is spent stays spent under every operation: src/storage/action-step-up.ts.
use tinyland_auth.Base.{
  ℕ, suc, Bool, true, false, String, ◌==◌, ◌≡◌, Option, none, some, leb, if◌then◌else◌, inl, inr,
  arith, eq_iff, sym, subst, Bool-cases, Option-cases, length,
}
use tinyland_auth.Base.Assoc.{get}
use tinyland_auth.StepUp.Outcome.{Outcome, failed, done, ◌then◌}
use tinyland_auth.StepUp.Records.{
  Identity, Binding, StepUpRecord, assert_record, assert_digest, equal_digest, assert_binding,
  assert_identity,
}
use tinyland_auth.StepUp.Store.{
  File, envelope, unreadable, Directory, Custody, Limits, Surroundings, open_file, assert_seal,
  read, assert_live, assert_reference, prepare,
}
use tinyland_auth.StepUp.Prune.{prune}
use tinyland_auth.StepUp.Operations.{
  assert_pending, issued_record, issue_pruned, issue, count_failure, publish_permit, judge_factor,
  verifiable, verify, assert_permit, consumable, consumed_record, consume,
}
use tinyland_auth.StepUp.Spent.{
  is_consumed, IsSpentFile, IsSpent, IsSpent-get, when_done_keeps, then_inv, done_inj,
  prune-IsSpent, write-IsSpent, write_and_answer-IsSpent,
}

module _ (keys : Custody) where
  -- A file that opens holds the record, under the expected name.
  pub open_file_inv :
      (expected : String) (f : File) (r : StepUpRecord)
      → open_file keys expected f ≡ done r
      → IsSpentFile f
      → is_consumed r.state ≡ true
  unfolding open_file
  open_file_inv expected unreadable r h s = ground arith
  open_file_inv expected (envelope q seal) r h s =
      subst (λ x. is_consumed x.state ≡ true) (done_inj (then_inv _ (done q) r h).1) s

  pub open_file_name :
      (expected : String) (f : File) (r : StepUpRecord)
      → open_file keys expected f ≡ done r
      → r.reference_digest ≡ expected
  unfolding open_file equal_digest assert_seal
  open_file_name expected unreadable r h = ground arith
  open_file_name expected (envelope q seal) r h =
      let (checks, same) = then_inv _ (done q) r h in
      let matching =
        (then_inv (assert_record q then assert_digest seal) (assert_seal keys expected q seal) tt
          checks).1 in
      subst (λ x. x.reference_digest ≡ expected) (done_inj same)
        (ground (arith, eq_iff q.reference_digest expected))

  -- Reading finds the record under its name.
  pub read_name :
      (reference : String) (dir : Directory) (r : StepUpRecord)
      → read keys reference dir ≡ done r
      → r.reference_digest ≡ keys.digest "reference" reference
  unfolding read
  read_name reference dir r h = elim (Option-cases (get (keys.digest "reference" reference) dir)) [
    | inl e ↦ ground arith
    | inr (f, e) ↦ open_file_name (keys.digest "reference" reference) f r (ground arith)
  ]

  -- What is read under a spent name is consumed.
  pub read_spent :
      (reference : String) (dir : Directory) (r : StepUpRecord)
      → IsSpent (keys.digest "reference" reference) dir
      → read keys reference dir ≡ done r
      → is_consumed r.state ≡ true
  unfolding read
  read_spent reference dir r s h =
      elim (Option-cases (get (keys.digest "reference" reference) dir)) [
        | inl e ↦ ground arith
        | inr (f, e) ↦
            open_file_inv (keys.digest "reference" reference) f r (ground arith)
              (IsSpent-get (keys.digest "reference" reference) dir f s e)
      ]

  module _ (limits : Limits) where
    consumed_not_verifiable :
        (env : Surroundings) (i : Identity) (r : StepUpRecord)
        → is_consumed r.state ≡ true
        → ¬ (verifiable keys limits env i r ≡ done tt)
    unfolding verifiable assert_pending
    consumed_not_verifiable env i r c h = ground arith

    pub consumed_not_consumable :
        (env : Surroundings) (permit_id : String) (b : Binding) (r : StepUpRecord)
        → is_consumed r.state ≡ true
        → ¬ (consumable keys limits env permit_id b r ≡ done tt)
    unfolding consumable assert_permit
    consumed_not_consumable env permit_id b r c h = ground arith

    -- The writes of `verify` go to the name of the record.
    judge_factor-IsSpent :
        (env : Surroundings) (k permit_id challenge_id : String) (factor : Option Bool)
        (r : StepUpRecord) (dir : Directory)
        → (r.reference_digest == k) ≡ false
        → IsSpent k dir
        → IsSpent k (judge_factor keys limits env permit_id challenge_id factor r dir).1
    unfolding judge_factor publish_permit count_failure
    judge_factor-IsSpent env k permit_id challenge_id none r dir ne s = s
    judge_factor-IsSpent env k permit_id challenge_id (some true) r dir ne s =
        when_done_keeps (IsSpent k) (assert_live (env.clock 1) r) _ dir s (λ _ _.
          when_done_keeps (IsSpent k) _ _ dir s
            (λ _ _. write_and_answer-IsSpent keys env k _ _ _ dir ne s))
    judge_factor-IsSpent env k permit_id challenge_id (some false) r dir ne s =
        when_done_keeps (IsSpent k) (assert_live (env.clock 1) r) _ dir s
          (λ _ _. write-IsSpent keys env k (record r { failures = suc r.failures }) dir ne s)

    -- A record that is read has a name other than a spent one, unless the reference is that of the name.
    other_name :
        (k reference : String) (dir : Directory) (r : StepUpRecord)
        → read keys reference dir ≡ done r
        → (keys.digest "reference" reference == k) ≡ false
        → (r.reference_digest == k) ≡ false
    other_name k reference dir r h ne =
        subst (λ d. (d == k) ≡ false) (sym (read_name reference dir r h)) ne

    -- What is read under a name that is spent cannot be used.
    read_consumed :
        (k reference : String) (dir : Directory) (r : StepUpRecord)
        → IsSpent k dir
        → read keys reference dir ≡ done r
        → (keys.digest "reference" reference == k) ≡ true
        → is_consumed r.state ≡ true
    read_consumed k reference dir r s h e =
        read_spent reference dir r
          (subst (λ d. IsSpent d dir) (sym ((eq_iff (keys.digest "reference" reference) k).0 e)) s)
          h

    pub verify-IsSpent :
        (env : Surroundings) (k permit_id challenge_id : String) (factor : Option Bool)
        (i : Identity) (dir : Directory)
        → IsSpent k dir
        → IsSpent k (verify keys limits env permit_id factor challenge_id i dir).1
    unfolding verify
    verify-IsSpent env k permit_id challenge_id factor i dir s =
        when_done_keeps (IsSpent k) _ _ dir s (λ r h.
          let found =
            (then_inv (assert_identity i then assert_reference challenge_id then prepare env)
              (read keys challenge_id dir) r h).1 in
          when_done_keeps (IsSpent k) (verifiable keys limits env i r) _ dir s (λ _ ok_checks.
            elim (Bool-cases (keys.digest "reference" challenge_id == k)) [
              | inl e ↦ absurd (
                  consumed_not_verifiable env i r (read_consumed k challenge_id dir r s found e)
                    ok_checks)
              | inr e ↦
                  judge_factor-IsSpent env k permit_id challenge_id factor r dir
                    (other_name k challenge_id dir r found e) s
            ]))

    pub consume-IsSpent :
        (env : Surroundings) (k receipt_id challenge_id permit_id : String) (b : Binding)
        (dir : Directory)
        → IsSpent k dir
        → IsSpent k (consume keys limits env receipt_id challenge_id permit_id b dir).1
    unfolding consume consumed_record
    consume-IsSpent env k receipt_id challenge_id permit_id b dir s =
        when_done_keeps (IsSpent k) _ _ dir s (λ r h.
          let found =
            (then_inv
              (assert_binding b
                then assert_reference challenge_id
                then assert_reference permit_id
                then prepare env)
              (read keys challenge_id dir) r h).1 in
          when_done_keeps (IsSpent k) (consumable keys limits env permit_id b r) _ dir s
            (λ _ ok_checks. elim (Bool-cases (keys.digest "reference" challenge_id == k)) [
              | inl e ↦ absurd (
                  consumed_not_consumable env permit_id b r
                    (read_consumed k challenge_id dir r s found e) ok_checks)
              | inr e ↦
                  write_and_answer-IsSpent keys env k _ _ _ dir
                    (other_name k challenge_id dir r found e) s
            ]))

    -- A challenge issued under another name.
    issue_pruned-IsSpent :
        (env : Surroundings) (k challenge_id : String) (b : Binding) (n : ℕ)
        (p : Outcome ℕ × Directory)
        → (keys.digest "reference" challenge_id == k) ≡ false
        → IsSpent k p.1
        → IsSpent k (issue_pruned keys limits env challenge_id b n p).1
    unfolding issue_pruned issued_record
    issue_pruned-IsSpent env k challenge_id b n (failed code message, dir) ne s = s
    issue_pruned-IsSpent env k challenge_id b n (done live, dir) ne s =
        elim (Bool-cases (leb limits.max_records live)) [
          | inl e ↦ rw (e, issue_pruned) s
          | inr e ↦ rw (e, issue_pruned) (write_and_answer-IsSpent keys env k _ _ _ dir ne s)
        ]

    pub issue-IsSpent :
        (env : Surroundings) (k challenge_id : String) (b : Binding) (dir : Directory)
        → (keys.digest "reference" challenge_id == k) ≡ false
        → IsSpent k dir
        → IsSpent k (issue keys limits env challenge_id b dir).1
    unfolding issue
    issue-IsSpent env k challenge_id b dir ne s = when_done_keeps (IsSpent k) _ _ dir s (λ _ _.
        issue_pruned-IsSpent env k challenge_id b (length dir) (prune keys env dir) ne
          (prune-IsSpent keys env k dir s))
