-- ===== src/StepUp/Approval.antt =====
-- What a success of `verify` rests on: src/storage/action-step-up.ts.
use tinyland_auth.Base.{
  suc, Bool, true, false, String, leb, ◌≡◌, ◌<◌, ◌≤◌, Option, none, some, if◌then◌else◌, arith,
  refl, sym, ap,
}
use tinyland_auth.StepUp.Outcome.{ErrorCode, Outcome, failed, done, ◌then◌, refuse_if}
use tinyland_auth.StepUp.Records.{
  Identity, StepUpState, pending, verified, consumed, StepUpRecord, assert_identity,
  identity_values,
}
use tinyland_auth.StepUp.Store.{
  Directory, Custody, Limits, Surroundings, Permit, read, write, assert_live, assert_identity_match,
  assert_reference, prepare,
}
use tinyland_auth.StepUp.Operations.{
  assert_pending, count_failure, publish_permit, judge_factor, verifiable, verify,
}
use tinyland_auth.StepUp.Spent.{when_done_inv, then_inv}
use tinyland_auth.StepUp.Sound.{live_inv, identity_inv, answer_given}

pending_inv : (s : StepUpState) → assert_pending s ≡ done tt → s ≡ pending
unfolding assert_pending
pending_inv pending h = refl
pending_inv (verified _ _) h = ground arith
pending_inv (consumed _ _ _ _) h = ground arith

never_answers :
    {A : Type 0} (o : Outcome Unit) (code : ErrorCode) (message : String) (a : A)
    → ¬ ((o then failed code message) ≡ done a)
never_answers (failed _ _) code message a h = ground arith
never_answers (done _) code message a h = ground arith

module _ (keys : Custody) where
  module _ (limits : Limits) where
    -- The tests of `verify` on a record that passes them.
    pub verifiable_inv :
        (env : Surroundings) (i : Identity) (r : StepUpRecord)
        → verifiable keys limits env i r ≡ done tt
        → (assert_identity_match keys r i ≡ done tt)
          × (assert_live (env.clock 0) r ≡ done tt)
          × (r.state ≡ pending)
          × (r.failures < limits.max_failures)
    unfolding verifiable
    verifiable_inv env i r h =
        let (checks, budget) =
          then_inv _ (refuse_if (leb limits.max_failures r.failures) _ _) tt h in
        let (first, state) =
          then_inv (assert_identity_match keys r i then assert_live (env.clock 0) r)
            (assert_pending r.state) tt checks in
        let (ident, live) =
          then_inv (assert_identity_match keys r i) (assert_live (env.clock 0) r) tt first in
        (ident, live, pending_inv r.state state, ground arith)

    -- The answer of a factor check that leads to a permit.
    judged_right :
        (env : Surroundings) (permit_id challenge_id : String) (factor : Option Bool)
        (r : StepUpRecord) (dir : Directory) (permit : Permit)
        → (judge_factor keys limits env permit_id challenge_id factor r dir).0 ≡ done permit
        → (factor ≡ some true)
          × ((publish_permit keys limits env permit_id challenge_id r dir).0 ≡ done permit)
    unfolding judge_factor count_failure
    judged_right env permit_id challenge_id none r dir permit h = ground arith
    judged_right env permit_id challenge_id (some true) r dir permit h =
        (refl, (when_done_inv (assert_live (env.clock 1) r) _ dir permit h).2)
    judged_right env permit_id challenge_id (some false) r dir permit h = absurd (
        never_answers (write keys env (record r { failures = suc r.failures }) dir).0 _ _ permit
          (when_done_inv (assert_live (env.clock 1) r) _ dir permit h).2)

    published_right :
        (env : Surroundings) (permit_id challenge_id : String) (r : StepUpRecord) (dir : Directory)
        (permit : Permit)
        → (publish_permit keys limits env permit_id challenge_id r dir).0 ≡ done permit
        → (permit.permit_id ≡ permit_id)
          × (permit.challenge_id ≡ challenge_id)
          × (env.clock 3 < r.expires_at)
    unfolding publish_permit
    published_right env permit_id challenge_id r dir permit h =
        let (_, _, wrote) = when_done_inv _ _ dir permit h in
        let (last, same) =
          answer_given keys env _ (assert_live (env.clock 3) r) _ permit dir wrote in
        (
          ap (λ p. p.permit_id) (sym same),
          ap (λ p. p.challenge_id) (sym same),
          (live_inv (env.clock 3) r last).1,
        )

    -- What a verification that succeeds has found in the directory.
    abbrev pub IsVerifiable : Surroundings → String → Identity → Directory → Type 0
    IsVerifiable env challenge_id i dir =
        (r : StepUpRecord) × (read keys challenge_id dir ≡ done r)
        × (r.state ≡ pending)
        × (r.failures < limits.max_failures)
        × (r.identity_digest ≡ keys.digest "identity" (keys.json (identity_values i)))
        × (r.created_at ≤ env.clock 0)
        × (env.clock 3 < r.expires_at)

    -- A permit is given only when the factor check answered that the code is right and the directory
    -- has a record of the challenge that is still pending, has failures left, was issued to an
    -- identity of the same digest, and is within its life from the first reading of the clock to the
    -- last; the permit then has the new id and the challenge's.
    pub verify_sound :
        (env : Surroundings) (permit_id challenge_id : String) (factor : Option Bool) (i : Identity)
        (dir : Directory) (permit : Permit)
        → (verify keys limits env permit_id factor challenge_id i dir).0 ≡ done permit
        → (factor ≡ some true)
          × IsVerifiable env challenge_id i dir
          × (permit.permit_id ≡ permit_id)
          × (permit.challenge_id ≡ challenge_id)
    unfolding verify
    verify_sound env permit_id challenge_id factor i dir permit h =
        let (r, chain, rest) = when_done_inv _ _ dir permit h in
        let found =
          (then_inv (assert_identity i then assert_reference challenge_id then prepare env)
            (read keys challenge_id dir) r chain).1 in
        let (_, checks, judged) =
          when_done_inv (verifiable keys limits env i r) _ dir permit rest in
        let (ident, live, state, budget) = verifiable_inv env i r checks in
        let (right, published) =
          judged_right env permit_id challenge_id factor r dir permit judged in
        let (new_id, same_id, last) =
          published_right env permit_id challenge_id r dir permit published in
        (
          right,
          (
            r,
            found,
            state,
            budget,
            (identity_inv keys r i ident).0,
            (live_inv (env.clock 0) r live).0,
            last,
          ),
          new_id,
          same_id,
        )
