-- ===== src/StepUp/Valid.antt =====
-- Records that the store writes are accepted when they are read: src/storage/action-step-up.ts.
use tinyland_auth.Base.{
  ℕ, suc, ◌+◌, ◌-◌, Bool, true, false, not, String, ltb, leb, includes, ◌||◌, ◌≡◌, ◌<◌, ◌≤◌, Option,
  arith, refl, sym, subst, length,
}
use tinyland_auth.StepUp.Outcome.{done, refuse_if, invalid}
use tinyland_auth.StepUp.Records.{
  Identity, Binding, StepUpRecord, actions, is_resource_kind, max_ttl_ms, max_failures_bound,
  assert_text, assert_record, assert_digests, assert_state, assert_digest, is_hex64,
  assert_identity, assert_binding,
}
use tinyland_auth.StepUp.Store.{
  Directory, Custody, Limits, Surroundings, step_up_limits, within, write, write_and_answer,
  when_done, assert_live, prepare,
}
use tinyland_auth.StepUp.Prune.{prune}
use tinyland_auth.StepUp.Operations.{issued_record, issue_pruned, issue}
use tinyland_auth.StepUp.Spent.{then_inv, done_inj}
use tinyland_auth.StepUp.Reading.{GivesHex}

-- The limits that the constructor accepts.
abbrev pub IsLimits : Limits → Type 0
IsLimits l =
    (0 < l.ttl_ms)
    × (l.ttl_ms ≤ max_ttl_ms)
    × (0 < l.max_failures)
    × (l.max_failures ≤ max_failures_bound)

within_inv : (most n : ℕ) → within most n ≡ true → (0 < n) × (n ≤ most)
unfolding within
within_inv most n h = (ground arith, ground arith)

-- The parts of a binding that is accepted.
abbrev IsAccepted : Binding → Type 0
IsAccepted b =
    (includes b.action actions ≡ true)
    × (is_resource_kind b.resource_kind ≡ true)
    × (is_hex64 b.identity.factor_binding ≡ true)
    × (is_hex64 b.intent_digest ≡ true)
    × (is_hex64 b.target_digest ≡ true)

digest_inv : (s : String) → assert_digest s ≡ done tt → is_hex64 s ≡ true
unfolding assert_digest
digest_inv s h = ground arith

pub refused_not :
    (test : Bool) (message : String) → refuse_if (not test) invalid message ≡ done tt → test ≡ true
refused_not true message h = refl
refused_not false message h = ground arith

identity_accepted : (i : Identity) → assert_identity i ≡ done tt → is_hex64 i.factor_binding ≡ true
unfolding assert_identity
identity_accepted i h =
    digest_inv i.factor_binding (then_inv _ (assert_digest i.factor_binding) tt h).1

accepted : (b : Binding) → assert_binding b ≡ done tt → IsAccepted b
unfolding assert_binding
accepted b h =
    let (first, target) = then_inv _ (assert_digest b.target_digest) tt h in
    let (second, intent) = then_inv _ (assert_digest b.intent_digest) tt first in
    let third = (then_inv _ (assert_text b.resource_id) tt second).0 in
    let (fourth, kind) =
      then_inv _
        (refuse_if (not (is_resource_kind b.resource_kind)) invalid "Unknown step-up resource") tt
        third in
    let (ident, act) =
      then_inv _ (refuse_if (not (includes b.action actions)) invalid "Unknown step-up action") tt
        fourth in
    (
      refused_not (includes b.action actions) _ act,
      refused_not (is_resource_kind b.resource_kind) _ kind,
      identity_accepted b.identity ident,
      digest_inv b.intent_digest intent,
      digest_inv b.target_digest target,
    )

pub record_valid :
    (r : StepUpRecord)
    → includes r.action actions ≡ true
    → is_resource_kind r.resource_kind ≡ true
    → assert_digests r ≡ done tt
    → (leb r.expires_at r.created_at
        || ltb max_ttl_ms (r.expires_at - r.created_at)
        || ltb max_failures_bound r.failures)
      ≡ false
    → assert_state r.created_at r.expires_at r.state ≡ done tt
    → assert_record r ≡ done tt
unfolding assert_record
record_valid r act kind digests life state = rw (act, kind, digests, life) state

not_before : (now : ℕ) (r : StepUpRecord) → r.created_at ≤ now → ltb now r.created_at ≡ false
not_before now r h = ground arith

not_after_end : (now : ℕ) (r : StepUpRecord) → now < r.expires_at → leb r.expires_at now ≡ false
not_after_end now r h = ground arith

room_left : (live most : ℕ) → live < most → leb most live ≡ false
room_left live most h = ground arith

pub prepared_well : (env : Surroundings) → env.prepared ≡ true → prepare env ≡ done tt
unfolding prepare
prepared_well env h = rw h refl

-- The limits of a configuration that the constructor accepts.
pub step_up_limits-IsLimits :
    (ttl records failures : Option ℕ) (l : Limits)
    → step_up_limits ttl records failures ≡ done l
    → IsLimits l
unfolding step_up_limits within
step_up_limits-IsLimits ttl records failures l h =
    let (tests, same) = then_inv _ (done _) l h in
    subst IsLimits (done_inj same) (ground arith, ground arith, ground arith, ground arith)

module _ (keys : Custody) (hex : GivesHex keys) (limits : Limits) (allowed : IsLimits limits) where
  -- A record that `issue` makes has the digests that a record must have.
  issued_digests :
      (now : ℕ) (challenge_id : String) (b : Binding)
      → IsAccepted b
      → assert_digests (issued_record keys limits now challenge_id b) ≡ done tt
  unfolding issued_record assert_digests assert_digest
  issued_digests now challenge_id b (_, _, factor, intent, target) =
      rw
        (
          hex "reference" challenge_id,
          hex "identity" _,
          hex "binding" _,
          hex "user" b.identity.user_id,
          hex "resource" b.resource_id,
          factor,
          intent,
          target,
        )
        refl

  issued_life :
      (now : ℕ)
      → (leb (now + limits.ttl_ms) now
          || ltb max_ttl_ms ((now + limits.ttl_ms) - now)
          || ltb max_failures_bound 0)
        ≡ false
  issued_life now = ground arith

  -- A record that `issue` makes from an accepted binding is one that reading accepts.
  issued_valid :
      (now : ℕ) (challenge_id : String) (b : Binding)
      → assert_binding b ≡ done tt
      → assert_record (issued_record keys limits now challenge_id b) ≡ done tt
  unfolding issued_record assert_state
  issued_valid now challenge_id b h =
      let ok_binding = accepted b h in
      record_valid (issued_record keys limits now challenge_id b) ok_binding.0 ok_binding.1
        (issued_digests now challenge_id b ok_binding) (issued_life now) refl

  -- The writing of a record that is accepted, where the file system works.
  written_well :
      {A : Type 0} (env : Surroundings) (r : StepUpRecord) (answer : A) (dir : Directory) (now : ℕ)
      → env.renamed ≡ true
      → env.written ≡ true
      → assert_record r ≡ done tt
      → r.created_at ≤ now
      → now < r.expires_at
      → (write_and_answer keys env r (assert_live now r) answer dir).0 ≡ done answer
  unfolding write_and_answer write when_done assert_live
  written_well env r answer dir now renamed written valid started running =
      rw (valid, renamed, written, not_before now r started, not_after_end now r running) refl

  issue_pruned_succeeds :
      (env : Surroundings) (challenge_id : String) (b : Binding) (n live : ℕ) (rest : Directory)
      → assert_binding b ≡ done tt
      → env.renamed ≡ true
      → env.written ≡ true
      → live < limits.max_records
      → env.clock n ≤ env.clock (suc n)
      → env.clock (suc n) < env.clock n + limits.ttl_ms
      → (issue_pruned keys limits env challenge_id b n (done live, rest)).0
        ≡ done (record { challenge_id = challenge_id; expires_at = env.clock n + limits.ttl_ms })
  unfolding issue_pruned issued_record
  issue_pruned_succeeds env challenge_id b n live rest bound renamed written room started running =
      rw (room_left live limits.max_records room, issue_pruned)
        (written_well env (issued_record keys limits (env.clock n) challenge_id b) _ rest
          (env.clock (suc n)) renamed written (issued_valid (env.clock n) challenge_id b bound)
          started running)

  -- Under limits that the constructor accepts, `issue` succeeds for every binding that passes its
  -- test, when the file system works, fewer files than the limit stay after the removal of the
  -- expired ones, and the clock moves by less than the lifetime between the creation of the
  -- record and the last test; the challenge expires a lifetime after its creation.
  pub issue_succeeds :
      (env : Surroundings) (challenge_id : String) (b : Binding) (dir : Directory) (live : ℕ)
      → assert_binding b ≡ done tt
      → env.prepared ≡ true
      → env.renamed ≡ true
      → env.written ≡ true
      → (prune keys env dir).0 ≡ done live
      → live < limits.max_records
      → env.clock (length dir) ≤ env.clock (suc (length dir))
      → env.clock (suc (length dir)) < env.clock (length dir) + limits.ttl_ms
      → (issue keys limits env challenge_id b dir).0
        ≡ done (record {
          challenge_id = challenge_id;
          expires_at = env.clock (length dir) + limits.ttl_ms;
        })
  unfolding issue when_done
  issue_succeeds env challenge_id b dir live bound prepared renamed written pruned room started
        running =
      rw (bound, prepared_well env prepared)
        (subst
          (λ p.
            (issue_pruned keys limits env challenge_id b (length dir) (p, (prune keys env dir).1)).0
            ≡ done (record {
              challenge_id = challenge_id;
              expires_at = env.clock (length dir) + limits.ttl_ms;
            }))
          (sym pruned)
          (issue_pruned_succeeds env challenge_id b (length dir) live (prune keys env dir).1 bound
            renamed written room started running))
