-- ===== src/StepUp/Records.antt =====
-- The records of the step-up store and the tests that guard them: src/storage/action-step-up.ts.
use Prim.Native.Char.{Char, code}
use tinyland_auth.Base.{
  ℕ, suc, ◌-◌, ◌*◌, Bool, true, not, ◌&&◌, ◌||◌, String, List, [], ◌∷◌, ◌==◌, ltb, leb, nat_eq,
  includes, is_empty, if◌then◌else◌,
}
use tinyland_auth.StepUp.Outcome.{Outcome, done, ◌then◌, refuse_if, invalid}

-- `ActionStepUpIdentity`
pub record Identity : Type 0 where
  pub user_id : String
  pub session_binding : String
  pub credential_binding : String
  pub authority_binding : String
  pub factor_binding : String

-- `ActionStepUpBinding`
pub record Binding : Type 0 where
  pub identity : Identity
  pub action : String
  pub resource_kind : String
  pub resource_id : String
  pub intent_digest : String
  pub target_digest : String

-- `StepUpState`, with the fields that a record has in the state and in no other.
pub data StepUpState : Type 0 where
  pending : StepUpState
  verified : (verified_at : ℕ) → (permit_digest : String) → StepUpState
  consumed :
      (verified_at : ℕ)
      → (permit_digest : String) → (consumed_at : ℕ) → (receipt_digest : String) → StepUpState

-- `StepUpRecord`
pub record StepUpRecord : Type 0 where
  pub state : StepUpState
  pub reference_digest : String
  pub identity_digest : String
  pub binding_digest : String
  pub user_digest : String
  pub factor_binding : String
  pub action : String
  pub resource_kind : String
  pub resource_digest : String
  pub intent_digest : String
  pub target_digest : String
  pub created_at : ℕ
  pub expires_at : ℕ
  pub failures : ℕ

-- `ACTIONS`
abbrev pub actions : List String
actions =
    "user.password.reset" ∷ "user.access.update" ∷ "user.remove" ∷ "factor.disable"
    ∷ "federation.activate" ∷ "invitation.create" ∷ "invitation.extend" ∷ "spoke.owner.bind" ∷ []

-- `MAX_TTL_MS`
abbrev pub max_ttl_ms : ℕ
max_ttl_ms = 5 * 60 * 1000

-- `MAX_RECORDS`
abbrev pub max_records_bound : ℕ
max_records_bound = 4096

-- `MAX_FAILURES`
abbrev pub max_failures_bound : ℕ
max_failures_bound = 5

-- The length of a text of the basic plane, where code units are characters.
unfoldable pub text_length : String → ℕ
text_length String.[] = 0
text_length (String.◌∷◌ c s) = suc (text_length s)

-- `^[…]*$`, for a class of characters
unfoldable pub all_chars : (Char → Bool) → String → Bool
all_chars test String.[] = true
all_chars test (String.◌∷◌ c s) = test c && all_chars test s

abbrev pub in_range : ℕ → ℕ → Char → Bool
in_range low high c = leb low (code c) && leb (code c) high

-- `HEX64.test(text)`
unfoldable pub is_hex64 : String → Bool
is_hex64 s = nat_eq (text_length s) 64 && all_chars (λ c. in_range 97 102 c || in_range 48 57 c) s

-- `REFERENCE.test(text)`
unfoldable pub is_reference : String → Bool
is_reference s =
    nat_eq (text_length s) 43
    && all_chars
        (λ c.
          in_range 65 90 c
          || in_range 97 122 c
          || in_range 48 57 c
          || nat_eq (code c) 95
          || nat_eq (code c) 45)
        s

-- `text.includes('\0')`
unfoldable pub has_nul_char : String → Bool
has_nul_char s = not (all_chars (λ c. not (nat_eq (code c) 0)) s)

-- `assertText`
unfoldable pub assert_text : String → Outcome Unit
assert_text s =
    refuse_if (is_empty s || ltb 256 (text_length s) || has_nul_char s) invalid
      "Invalid step-up binding"

-- `assertDigest`
unfoldable pub assert_digest : String → Outcome Unit
assert_digest s = refuse_if (not (is_hex64 s)) invalid "Invalid step-up digest"

-- `assertIdentity`
unfoldable pub assert_identity : Identity → Outcome Unit
assert_identity i =
    assert_text i.user_id
    then assert_digest i.session_binding
    then assert_digest i.credential_binding
    then assert_digest i.authority_binding
    then assert_digest i.factor_binding

-- A kind of resource that is known
abbrev pub is_resource_kind : String → Bool
is_resource_kind k = k == "user" || k == "invitation"

-- `assertBinding`
unfoldable pub assert_binding : Binding → Outcome Unit
assert_binding b =
    assert_identity b.identity
    then refuse_if (not (includes b.action actions)) invalid "Unknown step-up action"
    then refuse_if (not (is_resource_kind b.resource_kind)) invalid "Unknown step-up resource"
    then assert_text b.resource_id
    then assert_digest b.intent_digest
    then assert_digest b.target_digest

-- `identityValues`
unfoldable pub identity_values : Identity → List String
identity_values i =
    i.user_id ∷ i.session_binding ∷ i.credential_binding ∷ i.authority_binding ∷ i.factor_binding
    ∷ []

-- `bindingValues`
unfoldable pub binding_values : Binding → List String
binding_values b =
    b.identity.user_id ∷ b.identity.session_binding ∷ b.identity.credential_binding
    ∷ b.identity.authority_binding ∷ b.identity.factor_binding ∷ b.action ∷ b.resource_kind
    ∷ b.resource_id ∷ b.intent_digest ∷ b.target_digest ∷ []

-- `equalDigest`
unfoldable pub equal_digest : String → String → Bool
equal_digest left right = is_hex64 left && is_hex64 right && left == right

-- The digests that `assertRecord` tests in every state.
unfoldable pub assert_digests : StepUpRecord → Outcome Unit
assert_digests r =
    assert_digest r.reference_digest
    then assert_digest r.identity_digest
    then assert_digest r.binding_digest
    then assert_digest r.user_digest
    then assert_digest r.factor_binding
    then assert_digest r.resource_digest
    then assert_digest r.intent_digest
    then assert_digest r.target_digest

-- The part of `assertRecord` that depends on the state.
unfoldable pub assert_state : ℕ → ℕ → StepUpState → Outcome Unit
assert_state created_at expires_at pending = done tt
assert_state created_at expires_at (verified verified_at permit_digest) =
    refuse_if (ltb verified_at created_at || leb expires_at verified_at) invalid
      "Invalid verification time"
    then assert_digest permit_digest
assert_state created_at expires_at (consumed verified_at permit_digest consumed_at receipt_digest) =
    refuse_if (ltb verified_at created_at || leb expires_at verified_at) invalid
      "Invalid verification time"
    then assert_digest permit_digest
    then refuse_if (ltb consumed_at verified_at || leb expires_at consumed_at) invalid
        "Invalid consumption time"
    then assert_digest receipt_digest

-- `assertRecord`
unfoldable pub assert_record : StepUpRecord → Outcome Unit
assert_record r =
    refuse_if (not (includes r.action actions) || not (is_resource_kind r.resource_kind)) invalid
      "Invalid step-up record authority"
    then assert_digests r
    then refuse_if
        (leb r.expires_at r.created_at
          || ltb max_ttl_ms (r.expires_at - r.created_at)
          || ltb max_failures_bound r.failures)
        invalid "Invalid step-up lifetime or failure count"
    then assert_state r.created_at r.expires_at r.state
