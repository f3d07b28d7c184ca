-- ===== src/StepUp/Budget.antt =====
-- The count of wrong codes: src/storage/action-step-up.ts.
use tinyland_auth.Base.{
  ℕ, suc, ◌-◌, Bool, true, false, not, String, ltb, leb, includes, ◌||◌, ◌≡◌, ◌<◌, ◌≤◌, some,
  if◌then◌else◌, inl, inr, arith, refl, subst, Option-cases,
}
use tinyland_auth.Base.Assoc.{get}
use tinyland_auth.StepUp.Outcome.{failed, done, ◌then◌, refuse_if, invalid, unauthorized}
use tinyland_auth.StepUp.Records.{
  Identity, StepUpRecord, actions, is_resource_kind, max_ttl_ms, max_failures_bound, assert_record,
  assert_digests, assert_state, assert_digest, assert_identity,
}
use tinyland_auth.StepUp.Store.{
  File, envelope, unreadable, Directory, Custody, Limits, Surroundings, assert_reference,
  assert_seal, open_file, read, write, when_done, assert_live,
}
use tinyland_auth.StepUp.Operations.{verifiable, judge_factor, count_failure, verify}
use tinyland_auth.StepUp.Spent.{then_inv, done_inj}
use tinyland_auth.StepUp.Keeping.{read_name}
use tinyland_auth.StepUp.Approval.{verifiable_inv}
use tinyland_auth.StepUp.Reading.{GivesHex, read-write}
use tinyland_auth.StepUp.Valid.{IsLimits, record_valid, prepared_well}

neither_fails : (a b : Bool) → (not a || not b) ≡ false → (a ≡ true) × (b ≡ true)
neither_fails true true h = (refl, refl)
neither_fails true false h = ground arith
neither_fails false b h = ground arith

not_refused :
    (test : Bool) (message : String) → refuse_if test invalid message ≡ done tt → test ≡ false
not_refused true message h = ground arith
not_refused false message h = refl

-- One more failure, below the bound, leaves a record valid.
one_more_life :
    (r : StepUpRecord)
    → (leb r.expires_at r.created_at
        || ltb max_ttl_ms (r.expires_at - r.created_at)
        || ltb max_failures_bound r.failures)
      ≡ false
    → r.failures < max_failures_bound
    → (leb r.expires_at r.created_at
        || ltb max_ttl_ms (r.expires_at - r.created_at)
        || ltb max_failures_bound (suc r.failures))
      ≡ false
one_more_life r h below = ground arith

same_digests :
    (r : StepUpRecord) (n : ℕ)
    → assert_digests r ≡ done tt
    → assert_digests (record r { failures = n }) ≡ done tt
unfolding assert_digests
same_digests r n h = h

one_more_valid :
    (r : StepUpRecord)
    → assert_record r ≡ done tt
    → r.failures < max_failures_bound
    → assert_record (record r { failures = suc r.failures }) ≡ done tt
unfolding assert_record
one_more_valid r h below =
    let (first, state) = then_inv _ (assert_state r.created_at r.expires_at r.state) tt h in
    let (second, life) =
      then_inv _
        (refuse_if
          (leb r.expires_at r.created_at
            || ltb max_ttl_ms (r.expires_at - r.created_at)
            || ltb max_failures_bound r.failures)
          invalid "Invalid step-up lifetime or failure count")
        tt first in
    let (third, digests) = then_inv _ (assert_digests r) tt second in
    let (act, kind) =
      neither_fails (includes r.action actions) (is_resource_kind r.resource_kind)
        (not_refused _ _ third) in
    record_valid (record r { failures = suc r.failures }) act kind
      (same_digests r (suc r.failures) digests) (one_more_life r (not_refused _ _ life) below) state

below_bound : (n most : ℕ) → n < most → most ≤ max_failures_bound → n < max_failures_bound
below_bound n most h bound = omega arith

module _ (keys : Custody) where
  open_file_valid :
      (expected : String) (f : File) (r : StepUpRecord)
      → open_file keys expected f ≡ done r
      → assert_record r ≡ done tt
  unfolding open_file
  open_file_valid expected unreadable r h = ground arith
  open_file_valid expected (envelope q seal) r h =
      let (tests, same) = then_inv _ (done q) r h in
      let first =
        (then_inv (assert_record q then assert_digest seal) (assert_seal keys expected q seal) tt
          tests).0 in
      subst (λ x. assert_record x ≡ done tt) (done_inj same)
        (then_inv (assert_record q) (assert_digest seal) tt first).0

  read_valid :
      (reference : String) (dir : Directory) (r : StepUpRecord)
      → read keys reference dir ≡ done r
      → assert_record r ≡ done tt
  unfolding read
  read_valid reference dir r h = elim (Option-cases (get (keys.digest "reference" reference) dir)) [
    | inl e ↦ ground arith
    | inr (f, e) ↦ open_file_valid (keys.digest "reference" reference) f r (ground arith)
  ]

  write_succeeds :
      (env : Surroundings) (r : StepUpRecord) (dir : Directory)
      → env.renamed ≡ true
      → env.written ≡ true
      → assert_record r ≡ done tt
      → (write keys env r dir).0 ≡ done tt
  unfolding write when_done
  write_succeeds env r dir renamed written valid = rw (valid, renamed, written) refl

  module _ (hex : GivesHex keys) (limits : Limits) (allowed : IsLimits limits) where
    count_failure-read :
        (env : Surroundings) (challenge_id : String) (r : StepUpRecord) (dir : Directory)
        → read keys challenge_id dir ≡ done r
        → r.failures < max_failures_bound
        → env.renamed ≡ true
        → env.written ≡ true
        → ((count_failure keys limits env r dir).0 ≡ failed unauthorized "Invalid step-up factor")
          × (read keys challenge_id (count_failure keys limits env r dir).1
              ≡ done (record r { failures = suc r.failures }))
    unfolding count_failure
    count_failure-read env challenge_id r dir found below renamed written =
        let wrote =
          write_succeeds env (record r { failures = suc r.failures }) dir renamed written
            (one_more_valid r (read_valid challenge_id dir r found) below) in
        (
          rw wrote refl,
          read-write keys hex env challenge_id (record r { failures = suc r.failures }) dir
              (read_name keys challenge_id dir r found) wrote,
        )

    -- Under limits that the constructor accepts and with a file system that works, a wrong code for
    -- a record that `verify` accepts, presented within the record's life, is refused as unauthorized,
    -- and the record that is then read has one more failure and is otherwise the same.
    pub wrong_code_counts :
        (env : Surroundings) (permit_id challenge_id : String) (i : Identity) (dir : Directory)
        (r : StepUpRecord)
        → assert_identity i ≡ done tt
        → assert_reference challenge_id ≡ done tt
        → env.prepared ≡ true
        → env.renamed ≡ true
        → env.written ≡ true
        → read keys challenge_id dir ≡ done r
        → verifiable keys limits env i r ≡ done tt
        → assert_live (env.clock 1) r ≡ done tt
        → ((verify keys limits env permit_id (some false) challenge_id i dir).0
            ≡ failed unauthorized "Invalid step-up factor")
          × (read keys challenge_id
                (verify keys limits env permit_id (some false) challenge_id i dir).1
              ≡ done (record r { failures = suc r.failures }))
    unfolding verify when_done judge_factor
    wrong_code_counts env permit_id challenge_id i dir r ident reference prepared renamed written
          found checks live =
        let below = (verifiable_inv keys limits env i r checks).3 in
        rw (ident, reference, prepared_well env prepared, found, checks, live)
          (count_failure-read env challenge_id r dir found
            (below_bound r.failures limits.max_failures below allowed.3) renamed written)
