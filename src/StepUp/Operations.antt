-- ===== src/StepUp/Operations.antt =====
-- `issue`, `verify` and `consume` of `FileActionStepUpStore`: src/storage/action-step-up.ts.
use tinyland_auth.Base.{
  ℕ, suc, ◌+◌, Bool, not, String, leb, Option, none, some, if◌then◌else◌, length,
}
use tinyland_auth.StepUp.Outcome.{
  Outcome, failed, done, ◌then◌, refuse_if, expired, unauthorized, conflict, unavailable,
}
use tinyland_auth.StepUp.Records.{
  Identity, Binding, StepUpState, pending, verified, consumed, StepUpRecord, assert_identity,
  assert_binding, equal_digest, identity_values, binding_values,
}
use tinyland_auth.StepUp.Store.{
  Directory, Custody, Limits, Surroundings, Challenge, Permit, Receipt, assert_reference,
  assert_live, prepare, when_done, assert_identity_match, assert_binding_match, read, write,
  write_and_answer,
}
use tinyland_auth.StepUp.Prune.{prune}

-- The test of `verify` on the state.
unfoldable pub assert_pending : StepUpState → Outcome Unit
assert_pending pending = done tt
assert_pending (verified _ _) = failed conflict "Step-up challenge was already verified"
assert_pending (consumed _ _ _ _) = failed conflict "Step-up permit was consumed"

module _ (keys : Custody) (limits : Limits) where
  -- The record of a new challenge.
  unfoldable pub issued_record : ℕ → String → Binding → StepUpRecord
  issued_record now challenge_id b = record {
    state = pending;
    reference_digest = keys.digest "reference" challenge_id;
    identity_digest = keys.digest "identity" (keys.json (identity_values b.identity));
    binding_digest = keys.digest "binding" (keys.json (binding_values b));
    user_digest = keys.digest "user" b.identity.user_id;
    factor_binding = b.identity.factor_binding;
    action = b.action;
    resource_kind = b.resource_kind;
    resource_digest = keys.digest "resource" b.resource_id;
    intent_digest = b.intent_digest;
    target_digest = b.target_digest;
    created_at = now;
    expires_at = now + limits.ttl_ms;
    failures = 0;
  }

  -- `issue` after the removal of what has expired; `n` readings of the clock are used.
  unfoldable pub issue_pruned :
      Surroundings → String → Binding → ℕ → Outcome ℕ × Directory → Outcome Challenge × Directory
  issue_pruned env challenge_id b n (failed code message, dir) = (failed code message, dir)
  issue_pruned env challenge_id b n (done live, dir) =
      let r = issued_record (env.clock n) challenge_id b in
      if leb limits.max_records live
      then (failed unavailable "Step-up capacity is unavailable", dir)
      else write_and_answer keys env r (assert_live (env.clock (suc n)) r)
          (record { challenge_id = challenge_id; expires_at = r.expires_at }) dir

  -- `issue`, with the id that `randomBytes` gives.
  unfoldable pub issue : Surroundings → String → Binding → Directory → Outcome Challenge × Directory
  issue env challenge_id b dir =
      when_done (assert_binding b then prepare env)
        (λ _. issue_pruned env challenge_id b (length dir) (prune keys env dir)) dir

  -- A wrong code: the failure is counted.
  unfoldable pub count_failure :
      Surroundings → StepUpRecord → Directory → Outcome Permit × Directory
  count_failure env r dir =
      let (written, next) = write keys env (record r { failures = suc r.failures }) dir in
      (written then failed unauthorized "Invalid step-up factor", next)

  -- A right code: the permit is published, its id only as a digest.
  unfoldable pub publish_permit :
      Surroundings → String → String → StepUpRecord → Directory → Outcome Permit × Directory
  publish_permit env permit_id challenge_id r dir =
      when_done (refuse_if (leb r.expires_at (env.clock 2)) expired "Step-up permit expired")
        (λ _.
          write_and_answer keys env
            (record r { state = verified (env.clock 2) (keys.digest "permit" permit_id) })
            (assert_live (env.clock 3) r)
            (record {
              challenge_id = challenge_id;
              permit_id = permit_id;
              expires_at = r.expires_at;
            })
            dir)
        dir

  -- What `verify` does with the answer of `verifyFactor`, `none` where that throws.
  unfoldable pub judge_factor :
      Surroundings
      → String
      → String
      → Option Bool
      → StepUpRecord
      → Directory
      → Outcome Permit × Directory
  judge_factor env permit_id challenge_id none r dir =
      (failed unavailable "Step-up factor verification is unavailable", dir)
  judge_factor env permit_id challenge_id (some valid) r dir =
      when_done (assert_live (env.clock 1) r)
        (λ _.
          if valid
          then publish_permit env permit_id challenge_id r dir
          else count_failure env r dir)
        dir

  -- The tests of `verify` on the record.
  unfoldable pub verifiable : Surroundings → Identity → StepUpRecord → Outcome Unit
  verifiable env identity r =
      assert_identity_match keys r identity
      then assert_live (env.clock 0) r
      then assert_pending r.state
      then refuse_if (leb limits.max_failures r.failures) unauthorized
          "Step-up verification budget exhausted"

  -- `verify`, with the permit id that `randomBytes` gives and the answer of the factor check.
  unfoldable pub verify :
      Surroundings
      → String
      → Option Bool
      → String
      → Identity
      → Directory
      → Outcome Permit × Directory
  verify env permit_id factor challenge_id identity dir =
      when_done
        (assert_identity identity
          then assert_reference challenge_id
          then prepare env
          then read keys challenge_id dir)
        (λ r.
          when_done (verifiable env identity r)
            (λ _. judge_factor env permit_id challenge_id factor r dir) dir)
        dir

  -- The tests of `consume` on the state and the permit.
  unfoldable pub assert_permit : String → StepUpState → Outcome Unit
  assert_permit permit_id pending = failed conflict "Step-up permit is not verified"
  assert_permit permit_id (consumed _ _ _ _) = failed conflict "Step-up permit is not verified"
  assert_permit permit_id (verified verified_at permit_digest) =
      refuse_if (not (equal_digest permit_digest (keys.digest "permit" permit_id))) unauthorized
        "Invalid step-up permit"

  -- The state of a consumed record.
  unfoldable pub consumed_state : ℕ → String → StepUpState → StepUpState
  consumed_state now receipt_digest pending = pending
  consumed_state now receipt_digest (verified verified_at permit_digest) =
      consumed verified_at permit_digest now receipt_digest
  consumed_state now receipt_digest (consumed verified_at permit_digest consumed_at old) =
      consumed verified_at permit_digest consumed_at old

  -- The tests of `consume` on the record.
  unfoldable pub consumable : Surroundings → String → Binding → StepUpRecord → Outcome Unit
  consumable env permit_id b r =
      assert_binding_match keys r b
      then assert_live (env.clock 0) r
      then assert_permit permit_id r.state
      then refuse_if (leb r.expires_at (env.clock 1)) expired "Step-up permit expired"

  -- The record that `consume` writes, and the receipt.
  unfoldable pub consumed_record : ℕ → String → StepUpRecord → StepUpRecord
  consumed_record now receipt_id r = record r {
    state = consumed_state now (keys.digest "receipt" receipt_id) r.state;
  }

  unfoldable pub receipt_of : String → Binding → Receipt
  receipt_of receipt_id b = record {
    receipt_id = receipt_id;
    user_id = b.identity.user_id;
    factor_binding = b.identity.factor_binding;
    action = b.action;
    resource_id = b.resource_id;
  }

  -- `consume`, with the receipt id that `randomBytes` gives.
  unfoldable pub consume :
      Surroundings → String → String → String → Binding → Directory → Outcome Receipt × Directory
  consume env receipt_id challenge_id permit_id b dir =
      when_done
        (assert_binding b
          then assert_reference challenge_id
          then assert_reference permit_id
          then prepare env
          then read keys challenge_id dir)
        (λ r.
          when_done (consumable env permit_id b r)
            (λ _.
              write_and_answer keys env (consumed_record (env.clock 1) receipt_id r)
                (assert_live (env.clock 2) r) (receipt_of receipt_id b) dir)
            dir)
        dir
