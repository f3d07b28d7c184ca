-- ===== src/StepUp/Sound.antt =====
-- What a success of `consume` rests on: src/storage/action-step-up.ts.
use tinyland_auth.Base.{ℕ, String, leb, ◌≡◌, ◌<◌, ◌≤◌, if◌then◌else◌, arith, eq_iff, sym, ap}
use tinyland_auth.StepUp.Outcome.{Outcome, done, ◌then◌, refuse_if}
use tinyland_auth.StepUp.Records.{
  Identity, Binding, StepUpState, pending, verified, consumed, StepUpRecord, equal_digest,
  assert_binding, identity_values, binding_values,
}
use tinyland_auth.StepUp.Store.{
  Directory, Custody, Limits, Surroundings, Receipt, read, write, write_and_answer, assert_live,
  assert_identity_match, assert_binding_match, assert_reference, prepare,
}
use tinyland_auth.StepUp.Operations.{
  assert_permit, consumable, consumed_record, receipt_of, consume,
}
use tinyland_auth.StepUp.Spent.{when_done_inv, then_inv, done_inj}

pub live_inv :
    (now : ℕ) (r : StepUpRecord)
    → assert_live now r ≡ done tt
    → (r.created_at ≤ now) × (now < r.expires_at)
unfolding assert_live
live_inv now r h = (ground arith, ground arith)

module _ (keys : Custody) where
  pub identity_inv :
      (r : StepUpRecord) (i : Identity)
      → assert_identity_match keys r i ≡ done tt
      → (r.identity_digest ≡ keys.digest "identity" (keys.json (identity_values i)))
        × (r.user_digest ≡ keys.digest "user" i.user_id)
  unfolding assert_identity_match equal_digest
  identity_inv r i h = (
    ground
        (arith, eq_iff r.identity_digest (keys.digest "identity" (keys.json (identity_values i)))),
    ground (arith, eq_iff r.user_digest (keys.digest "user" i.user_id)),
  )

  binding_inv :
      (r : StepUpRecord) (b : Binding)
      → assert_binding_match keys r b ≡ done tt
      → (r.binding_digest ≡ keys.digest "binding" (keys.json (binding_values b)))
        × (r.action ≡ b.action)
  unfolding assert_binding_match equal_digest
  binding_inv r b h = (
    ground (arith, eq_iff r.binding_digest (keys.digest "binding" (keys.json (binding_values b)))),
    ground (arith, eq_iff r.action b.action),
  )

  bound_identity :
      (r : StepUpRecord) (b : Binding)
      → assert_binding_match keys r b ≡ done tt
      → assert_identity_match keys r b.identity ≡ done tt
  unfolding assert_binding_match
  bound_identity r b h = (then_inv (assert_identity_match keys r b.identity) _ tt h).0

  pub answer_given :
      {A : Type 0} (env : Surroundings) (r : StepUpRecord) (last : Outcome Unit) (answer given : A)
      (dir : Directory)
      → (write_and_answer keys env r last answer dir).0 ≡ done given
      → (last ≡ done tt) × (answer ≡ given)
  unfolding write_and_answer
  answer_given env r last answer given dir h =
      let (checks, same) = then_inv ((write keys env r dir).0 then last) (done answer) given h in
      ((then_inv (write keys env r dir).0 last tt checks).1, done_inj same)

  module _ (limits : Limits) where
    -- The permit of a verified record.
    permit_matches :
        (permit_id : String) (state : StepUpState)
        → assert_permit keys limits permit_id state ≡ done tt
        → (verified_at : ℕ) × (state ≡ verified verified_at (keys.digest "permit" permit_id))
    unfolding assert_permit equal_digest
    permit_matches permit_id pending h = ground arith
    permit_matches permit_id (consumed _ _ _ _) h = ground arith
    permit_matches permit_id (verified at permit_digest) h = (
      at,
      ap (verified at) (ground (arith, eq_iff permit_digest (keys.digest "permit" permit_id))),
    )

    -- The tests of `consume` on a record that passes them.
    consumable_inv :
        (env : Surroundings) (permit_id : String) (b : Binding) (r : StepUpRecord)
        → consumable keys limits env permit_id b r ≡ done tt
        → (assert_binding_match keys r b ≡ done tt)
          × (assert_live (env.clock 0) r ≡ done tt)
          × (assert_permit keys limits permit_id r.state ≡ done tt)
    unfolding consumable
    consumable_inv env permit_id b r h =
        let checks = (then_inv _ (refuse_if (leb r.expires_at (env.clock 1)) _ _) tt h).0 in
        let (first, permit) =
          then_inv (assert_binding_match keys r b then assert_live (env.clock 0) r)
            (assert_permit keys limits permit_id r.state) tt checks in
        let (binding, live) =
          then_inv (assert_binding_match keys r b) (assert_live (env.clock 0) r) tt first in
        (binding, live, permit)

    -- What a consumption that succeeds has found in the directory.
    abbrev pub IsAuthorized : Surroundings → String → String → Binding → Directory → Type 0
    IsAuthorized env challenge_id permit_id b dir =
        (r : StepUpRecord) × (verified_at : ℕ) × (read keys challenge_id dir ≡ done r)
        × (r.state ≡ verified verified_at (keys.digest "permit" permit_id))
        × (r.binding_digest ≡ keys.digest "binding" (keys.json (binding_values b)))
        × (r.identity_digest ≡ keys.digest "identity" (keys.json (identity_values b.identity)))
        × (r.action ≡ b.action)
        × (r.created_at ≤ env.clock 0)
        × (env.clock 2 < r.expires_at)

    -- A receipt is given only when the directory has a record of the challenge that is verified with
    -- the digest of this permit, whose binding and identity have the digests of those presented, and
    -- that is within its life from the first reading of the clock to the last; the receipt is then
    -- for the user, action and resource of the binding.
    pub consume_sound :
        (env : Surroundings) (receipt_id challenge_id permit_id : String) (b : Binding)
        (dir : Directory) (receipt : Receipt)
        → (consume keys limits env receipt_id challenge_id permit_id b dir).0 ≡ done receipt
        → IsAuthorized env challenge_id permit_id b dir
          × (receipt ≡ receipt_of keys limits receipt_id b)
    unfolding consume
    consume_sound env receipt_id challenge_id permit_id b dir receipt h =
        let (r, chain, rest) = when_done_inv _ _ dir receipt h in
        let found =
          (then_inv
            (assert_binding b
              then assert_reference challenge_id
              then assert_reference permit_id
              then prepare env)
            (read keys challenge_id dir) r chain).1 in
        let (_, checks, wrote) =
          when_done_inv (consumable keys limits env permit_id b r) _ dir receipt rest in
        let (binding, live, permit) = consumable_inv env permit_id b r checks in
        let (last, same) =
          answer_given env (consumed_record keys limits (env.clock 1) receipt_id r)
            (assert_live (env.clock 2) r) (receipt_of keys limits receipt_id b) receipt dir wrote in
        let (verified_at, state) = permit_matches permit_id r.state permit in
        let (bound, act) = binding_inv r b binding in
        (
          (
            r,
            verified_at,
            found,
            state,
            bound,
            (identity_inv r b.identity (bound_identity r b binding)).0,
            act,
            (live_inv (env.clock 0) r live).0,
            (live_inv (env.clock 2) r last).1,
          ),
          sym same,
        )
