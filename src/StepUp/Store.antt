-- ===== src/StepUp/Store.antt =====
-- `FileActionStepUpStore` of src/storage/action-step-up.ts.
use tinyland_auth.Base.{
  ℕ, Bool, not, ◌&&◌, ◌||◌, String, List, ◌==◌, ltb, leb, Option, none, some, if◌then◌else◌,
}
use tinyland_auth.Base.Assoc.{Assoc, get, put}
use tinyland_auth.StepUp.Outcome.{
  Outcome, failed, done, ◌then◌, refuse_if, invalid, expired, unauthorized, unavailable,
}
use tinyland_auth.StepUp.Records.{
  Identity, Binding, StepUpRecord, max_ttl_ms, max_records_bound, max_failures_bound, assert_record,
  assert_digest, equal_digest, is_reference, identity_values, binding_values,
}

-- A file of the directory: an envelope, or content that is none.
pub data File : Type 0 where
  envelope : (stored : StepUpRecord) → (seal : String) → File
  unreadable : File

-- The directory: the files by their names without `.json`, which are reference digests. Temporary
-- files, which hold no authority, are left out.
abbrev pub Directory : Type 0
Directory = Assoc File

-- The keyed digest of a text in a domain, under the configured key, and the JSON texts of a list
-- and of a record.
pub record Custody : Type 0 where
  pub digest : String → String → String
  pub json : List String → String
  pub json_record : StepUpRecord → String

-- The limits of `FileActionStepUpConfig`, with the defaults filled in.
pub record Limits : Type 0 where
  pub ttl_ms : ℕ
  pub max_records : ℕ
  pub max_failures : ℕ

-- `value ?? fallback`
abbrev pub or_default : Option ℕ → ℕ → ℕ
or_default none fallback = fallback
or_default (some n) fallback = n

-- A limit that is not accepted otherwise.
unfoldable pub within : ℕ → ℕ → Bool
within most n = ltb 0 n && leb n most

-- What the constructor makes of the limits of its configuration.
unfoldable pub step_up_limits : Option ℕ → Option ℕ → Option ℕ → Outcome Limits
step_up_limits ttl records failures =
    let l : Limits = record {
      ttl_ms = or_default ttl max_ttl_ms;
      max_records = or_default records max_records_bound;
      max_failures = or_default failures max_failures_bound;
    } in
    refuse_if
      (not (within max_ttl_ms l.ttl_ms)
        || not (within max_records_bound l.max_records)
        || not (within max_failures_bound l.max_failures))
      invalid "Invalid step-up limits"
    then done l

-- How the file system and the clock behave during one operation: whether `prepare` succeeds,
-- whether the rename of a write happens and whether all of the write succeeds, whether the
-- directory is synchronised after a removal, and the time at each reading of the clock.
pub record Surroundings : Type 0 where
  pub prepared : Bool
  pub renamed : Bool
  pub written : Bool
  pub cleaned : Bool
  pub clock : ℕ → ℕ

pub record Challenge : Type 0 where
  pub challenge_id : String
  pub expires_at : ℕ

pub record Permit : Type 0 where
  pub challenge_id : String
  pub permit_id : String
  pub expires_at : ℕ

pub record Receipt : Type 0 where
  pub receipt_id : String
  pub user_id : String
  pub factor_binding : String
  pub action : String
  pub resource_id : String

-- `assertReference`
unfoldable pub assert_reference : String → Outcome Unit
assert_reference r = refuse_if (not (is_reference r)) invalid "Invalid step-up reference"

-- `assertLive`, at a reading of the clock
unfoldable pub assert_live : ℕ → StepUpRecord → Outcome Unit
assert_live now r =
    refuse_if (ltb now r.created_at || leb r.expires_at now) expired "Step-up permit expired"

-- `prepare`
unfoldable pub prepare : Surroundings → Outcome Unit
prepare env = refuse_if (not env.prepared) unavailable "Step-up storage is unavailable"

-- What a check that fails leaves, and what comes after one that succeeds.
unfoldable pub when_done :
    {A B : Type 0} → Outcome A → (A → Outcome B × Directory) → Directory → Outcome B × Directory
when_done (failed code message) rest dir = (failed code message, dir)
when_done (done a) rest dir = rest a

module _ (keys : Custody) where
  -- `assertIdentityMatch`
  unfoldable pub assert_identity_match : StepUpRecord → Identity → Outcome Unit
  assert_identity_match r i =
      refuse_if
        (not (
            equal_digest r.identity_digest (keys.digest "identity" (keys.json (identity_values i))))
          || not (equal_digest r.user_digest (keys.digest "user" i.user_id))
          || not (equal_digest r.factor_binding i.factor_binding))
        unauthorized "Step-up principal or factor changed"

  -- `assertBindingMatch`
  unfoldable pub assert_binding_match : StepUpRecord → Binding → Outcome Unit
  assert_binding_match r b =
      assert_identity_match r b.identity
      then refuse_if
          (not
              (equal_digest r.binding_digest (keys.digest "binding" (keys.json (binding_values b))))
            || not (r.action == b.action)
            || not (r.resource_kind == b.resource_kind)
            || not (equal_digest r.resource_digest (keys.digest "resource" b.resource_id))
            || not (equal_digest r.intent_digest b.intent_digest)
            || not (equal_digest r.target_digest b.target_digest))
          unauthorized "Step-up action or intent changed"

  -- The seal of a record and its name.
  unfoldable pub assert_seal : String → StepUpRecord → String → Outcome Unit
  assert_seal expected r seal =
      refuse_if
        (not (equal_digest seal (keys.digest "seal" (keys.json_record r)))
          || not (equal_digest r.reference_digest expected))
        invalid "Invalid step-up seal"

  -- The tests of `read` on the content of a file.
  unfoldable pub open_file : String → File → Outcome StepUpRecord
  open_file expected unreadable = failed invalid "Invalid step-up record"
  open_file expected (envelope r seal) =
      assert_record r then assert_digest seal then assert_seal expected r seal then done r

  -- `read`
  unfoldable pub read : String → Directory → Outcome StepUpRecord
  read reference dir = elim (get (keys.digest "reference" reference) dir) [
    | none ↦ failed invalid "Unknown step-up reference"
    | some file ↦ open_file (keys.digest "reference" reference) file
  ]

  -- What a write leaves: a rename may have happened although the write fails.
  unfoldable pub publish : Surroundings → StepUpRecord → Directory → Directory
  publish env r dir =
      if env.renamed
      then put r.reference_digest (envelope r (keys.digest "seal" (keys.json_record r))) dir
      else dir

  -- `write`
  unfoldable pub write : Surroundings → StepUpRecord → Directory → Outcome Unit × Directory
  write env r dir =
      when_done (assert_record r)
        (λ _. (
          refuse_if (not (env.renamed && env.written)) unavailable
              "Step-up publication is unavailable",
          publish env r dir,
        ))
        dir

  -- A write, a last test and the answer, as `issue`, `verify` and `consume` end.
  unfoldable pub write_and_answer :
      {A : Type 0}
      → Surroundings
      → StepUpRecord
      → Outcome Unit
      → A
      → Directory
      → Outcome A × Directory
  write_and_answer env r last answer dir =
      let (written, next) = write env r dir in (written then last then done answer, next)
