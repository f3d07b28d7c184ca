-- ===== src/Retirement/Records.antt =====
-- The records of the retirement journal and the tests that guard them:
-- src/storage/file-totp-retirement.ts.
use tinyland_auth.Base.{
  Bool, true, false, not, ◌||◌, String, ◌==◌, Option, none, some, ltb, if◌then◌else◌, is_empty,
}
use tinyland_auth.Types.{Timestamp, before}
use tinyland_auth.Sessions.Policy.{has_nul, is_date}
use tinyland_auth.StepUp.Records.{is_hex64, is_reference, text_length}
use tinyland_auth.File.Expected.{is_component}
use tinyland_auth.Journal.{Code, invalid, unauthorized, Outcome, failed, done, ◌then◌}

abbrev pub message : String
message = "Factor retirement requires current authority and durable storage"

-- `if (test) fail(code)`
abbrev pub fail_if : Bool → Code → Outcome (Unit {0})
fail_if true code = failed code message
fail_if false code = done tt

-- `TotpRetirementBinding`
pub record RetirementBinding : Type 0 where
  pub user_id : String
  pub handle : String
  pub session_id : String

-- `TotpRetirementReceipt`
pub record Receipt : Type 0 where
  pub operation_id : String
  pub user_id : String
  pub handle : String
  pub factor_generation : String
  pub committed_at : Timestamp
  pub applied_at : Timestamp

-- `Committed`
pub record Committed : Type 0 where
  pub operation_id : String
  pub user_id : String
  pub handle : String
  pub factor_generation : String
  pub factor_snapshot_digest : String
  pub recovery_set_digest : Option String
  pub authorization_digest : String
  pub factor_binding : String
  pub committed_at : Timestamp

-- `RetirementRecord`
pub data RetirementRecord : Type 0 where
  committed : Committed → RetirementRecord
  applied : (authorization_digest : String) → Receipt → RetirementRecord

-- `text`
unfoldable pub assert_text : String → Outcome (Unit {0})
assert_text s = fail_if (is_empty s || ltb 256 (text_length s) || has_nul s) invalid

-- `component`
unfoldable pub assert_component : String → Outcome (Unit {0})
assert_component s = assert_text s then fail_if (not (is_component s)) invalid

-- `digest`
unfoldable pub assert_digest : String → Outcome (Unit {0})
assert_digest s = fail_if (not (is_hex64 s)) invalid

unfoldable pub assert_optional_digest : Option String → Outcome (Unit {0})
assert_optional_digest none = done tt
assert_optional_digest (some s) = assert_digest s

-- `stamp`
unfoldable pub assert_stamp : Timestamp → Outcome (Unit {0})
assert_stamp t = fail_if (not (is_date t)) invalid

-- `receipt`
unfoldable pub assert_receipt : Receipt → Outcome (Unit {0})
assert_receipt r =
    assert_digest r.operation_id
    then assert_component r.user_id
    then assert_component r.handle
    then assert_digest r.factor_generation
    then assert_stamp r.committed_at
    then assert_stamp r.applied_at
    then fail_if (before r.applied_at r.committed_at) invalid

-- `record`
unfoldable pub assert_record : RetirementRecord → Outcome (Unit {0})
assert_record (applied authorization_digest r) =
    assert_digest authorization_digest then assert_receipt r
assert_record (committed v) =
    assert_component v.user_id
    then assert_component v.handle
    then assert_stamp v.committed_at
    then assert_digest v.operation_id
    then assert_digest v.factor_generation
    then assert_digest v.factor_snapshot_digest
    then assert_digest v.authorization_digest
    then assert_digest v.factor_binding
    then assert_optional_digest v.recovery_set_digest

-- The id that a record is stored under.
unfoldable pub operation_of : RetirementRecord → String
operation_of (committed v) = v.operation_id
operation_of (applied authorization_digest r) = r.operation_id

-- `TotpRetirementConsumedAuthorization`, without the kind
pub record Consumed : Type 0 where
  pub receipt_id : String
  pub actor_id : String
  pub action : String
  pub resource_id : String
  pub factor_binding : String

-- `authorization`
unfoldable pub assert_authorization : Consumed → RetirementBinding → Outcome (Unit {0})
assert_authorization c binding =
    fail_if
      (not (c.action == "factor.disable")
        || not (c.actor_id == binding.user_id)
        || not (c.resource_id == binding.user_id)
        || not (is_reference c.receipt_id))
      unauthorized
    then assert_digest c.factor_binding
