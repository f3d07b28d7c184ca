-- ===== src/Tests/StepUp.antt =====
-- The theorems on step-up permits at concrete inputs: src/storage/action-step-up.ts.
use tinyland_auth.Base.{
  ℕ, suc, ◌+◌, true, false, String, [], ◌==◌, ◌≡◌, ◌≢◌, some, if◌then◌else◌, inl, inr, refl, arith,
  Bool-cases,
}
use tinyland_auth.Base.Assoc.{IsMap, get, put}
use tinyland_auth.StepUp.Outcome.{done, failed, unauthorized}
use tinyland_auth.StepUp.Records.{
  Identity, Binding, assert_binding, assert_identity, assert_text, text_length, has_nul_char,
  all_chars, assert_digest, is_hex64, assert_record, assert_digests, assert_state, binding_values,
  equal_digest, identity_values, is_reference,
}
use tinyland_auth.StepUp.Store.{
  Directory, Custody, Limits, Surroundings, Receipt, when_done, prepare, write_and_answer, write,
  assert_live, publish, assert_reference, read, assert_identity_match, assert_seal, open_file,
  assert_binding_match,
}
use tinyland_auth.StepUp.Operations.{
  issue, verify, consume, issue_pruned, issued_record, assert_pending, count_failure, judge_factor,
  publish_permit, verifiable, assert_permit, consumable, consumed_record, consumed_state,
  receipt_of,
}
use tinyland_auth.StepUp.Prune.{prune, prune_answer, prune_expired, keep_file, prune_file}
use tinyland_auth.StepUp.Once.{Steps, consumes, verifies, stop, more, consumed_once}
use tinyland_auth.StepUp.Sound.{IsAuthorized, consume_sound}
use tinyland_auth.StepUp.Approval.{IsVerifiable, verify_sound}
use tinyland_auth.StepUp.Valid.{IsLimits, issue_succeeds}
use tinyland_auth.StepUp.Budget.{wrong_code_counts}
use tinyland_auth.StepUp.Reading.{GivesHex, read-issue}

abbrev hex_a : String
hex_a = "aaaaaaaaaaaaaaaaaaaaaaaaaaaaaaaaaaaaaaaaaaaaaaaaaaaaaaaaaaaaaaaa"

abbrev hex_b : String
hex_b = "bbbbbbbbbbbbbbbbbbbbbbbbbbbbbbbbbbbbbbbbbbbbbbbbbbbbbbbbbbbbbbbb"

abbrev challenge : String
challenge = "CCCCCCCCCCCCCCCCCCCCCCCCCCCCCCCCCCCCCCCCCCC"

abbrev permit : String
permit = "PPPPPPPPPPPPPPPPPPPPPPPPPPPPPPPPPPPPPPPPPPP"

-- A digest with two values.
abbrev keys : Custody
keys = record {
  digest = λ domain text. if text == challenge then hex_a else hex_b;
  json = λ values. "[]";
  json_record = λ r. "{}";
}

keys-GivesHex : GivesHex keys
unfolding is_hex64 text_length all_chars
keys-GivesHex domain text = elim (Bool-cases (text == challenge)) [
  | inl e ↦ rw e refl
  | inr e ↦ rw e refl
]

abbrev limits : Limits
limits = record { ttl_ms = 300000; max_records = 16; max_failures = 5 }

-- Everything works, and each reading of the clock is one later.
abbrev working : ℕ → Surroundings
working start = record {
  prepared = true;
  renamed = true;
  written = true;
  cleaned = true;
  clock = λ n. start + n;
}

abbrev identity : Identity
identity = record {
  user_id = "u1";
  session_binding = hex_a;
  credential_binding = hex_a;
  authority_binding = hex_a;
  factor_binding = hex_b;
}

abbrev binding : Binding
binding = record {
  identity = identity;
  action = "user.remove";
  resource_kind = "user";
  resource_id = "u2";
  intent_digest = hex_a;
  target_digest = hex_b;
}

abbrev issued : Directory
issued = (issue keys limits (working 1000) challenge binding []).1

abbrev approved : Directory
approved = (verify keys limits (working 2000) permit (some true) challenge identity issued).1

abbrev spent : Directory
spent = (consume keys limits (working 3000) "receipt" challenge permit binding approved).1

abbrev receipt : Receipt
receipt = record {
  receipt_id = "receipt";
  user_id = "u1";
  factor_binding = hex_b;
  action = "user.remove";
  resource_id = "u2";
}

-- A challenge is issued, verified and consumed.
three_steps :
    ((issue keys limits (working 1000) challenge binding []).0
      ≡ done (record { challenge_id = challenge; expires_at = 301000 }))
    × ((verify keys limits (working 2000) permit (some true) challenge identity issued).0
        ≡ done (record { challenge_id = challenge; permit_id = permit; expires_at = 301000 }))
    × ((consume keys limits (working 3000) "receipt" challenge permit binding approved).0
        ≡ done receipt)
    × IsMap approved
unfolding prune_answer issue verify consume when_done assert_binding assert_identity assert_text
    text_length has_nul_char all_chars assert_digest is_hex64 prepare issue_pruned prune
    prune_expired write_and_answer write assert_record put issued_record keep_file prune_file
    assert_digests assert_state binding_values equal_digest identity_values assert_live publish
    assert_reference is_reference read get assert_pending count_failure judge_factor publish_permit
    verifiable assert_identity_match assert_seal open_file assert_binding_match assert_permit
    consumable consumed_record consumed_state receipt_of IsMap
three_steps = (refl, refl, refl, (refl, tt))

-- A verification and a second consumption are tried on the spent challenge.
tried :
    Steps keys limits
      (keys.digest "reference" challenge)
      spent
      (consume keys limits
        (working 5000)
        "again"
        challenge
        permit
        binding
        (verify keys limits (working 4000) permit (some true) challenge identity spent).1).1
tried = more _ _ _ (verifies (working 4000) permit challenge (some true) identity spent) (
    more _ _ _
      (consumes (working 5000) "again" challenge permit binding
        (verify keys limits (working 4000) permit (some true) challenge identity spent).1)
      (stop _))

consumed_once_example :
    (consume keys limits
      (working 6000)
      "third"
      challenge
      permit
      binding
      (consume keys limits
        (working 5000)
        "again"
        challenge
        permit
        binding
        (verify keys limits (working 4000) permit (some true) challenge identity spent).1).1).0
    ≢ done receipt
consumed_once_example =
    consumed_once keys limits (working 3000) (working 6000) challenge "receipt" permit "third"
      permit binding binding approved _ receipt receipt three_steps.3 three_steps.2 tried

consume_sound_example :
    IsAuthorized keys limits (working 3000) challenge permit binding approved
    × (receipt ≡ receipt_of keys limits "receipt" binding)
consume_sound_example =
    consume_sound keys limits (working 3000) "receipt" challenge permit binding approved receipt
      three_steps.2

verify_sound_example :
    (some true ≡ some true)
    × IsVerifiable keys limits (working 2000) challenge identity issued
    × (permit ≡ permit)
    × (challenge ≡ challenge)
verify_sound_example =
    verify_sound keys limits (working 2000) permit challenge (some true) identity issued
      (record { challenge_id = challenge; permit_id = permit; expires_at = 301000 }) three_steps.1

read-issue_example :
    read keys challenge issued ≡ done (issued_record keys limits 1000 challenge binding)
read-issue_example =
    read-issue keys keys-GivesHex limits (working 1000) challenge binding []
      (record { challenge_id = challenge; expires_at = 301000 }) three_steps.0

limits-IsLimits : IsLimits limits
limits-IsLimits = (omega arith, omega arith, omega arith, omega arith)

-- What the theorems ask of the sample: the tests pass.
tests_pass :
    (assert_binding binding ≡ done tt)
    × (assert_identity identity ≡ done tt)
    × (assert_reference challenge ≡ done tt)
    × (read keys challenge issued ≡ done (issued_record keys limits 1000 challenge binding))
    × (verifiable keys limits
          (working 2000)
          identity
          (issued_record keys limits 1000 challenge binding)
        ≡ done tt)
    × (assert_live 2001 (issued_record keys limits 1000 challenge binding) ≡ done tt)
    × ((prune keys (working 1000) []).0 ≡ done 0)
unfolding prune_answer issue verify consume when_done assert_binding assert_identity assert_text
    text_length has_nul_char all_chars assert_digest is_hex64 prepare issue_pruned prune
    prune_expired write_and_answer write assert_record put issued_record keep_file prune_file
    assert_digests assert_state binding_values equal_digest identity_values assert_live publish
    assert_reference is_reference read get assert_pending count_failure judge_factor publish_permit
    verifiable assert_identity_match assert_seal open_file assert_binding_match assert_permit
    consumable consumed_record consumed_state receipt_of IsMap
tests_pass = (refl, refl, refl, refl, refl, refl, refl)

issue_succeeds_example :
    (issue keys limits (working 1000) challenge binding []).0
    ≡ done (record { challenge_id = challenge; expires_at = 301000 })
issue_succeeds_example =
    issue_succeeds keys keys-GivesHex limits limits-IsLimits (working 1000) challenge binding [] 0
      tests_pass.0 refl refl refl tests_pass.6 (omega arith) (omega arith) (omega arith)

wrong_code_counts_example :
    ((verify keys limits (working 2000) permit (some false) challenge identity issued).0
      ≡ failed unauthorized "Invalid step-up factor")
    × (read keys challenge
          (verify keys limits (working 2000) permit (some false) challenge identity issued).1
        ≡ done (record (issued_record keys limits 1000 challenge binding) {
          failures = suc (issued_record keys limits 1000 challenge binding).failures;
        }))
wrong_code_counts_example =
    wrong_code_counts keys keys-GivesHex limits limits-IsLimits (working 2000) permit challenge
      identity issued (issued_record keys limits 1000 challenge binding) tests_pass.1 tests_pass.2
      refl refl refl tests_pass.3 tests_pass.4 tests_pass.5
