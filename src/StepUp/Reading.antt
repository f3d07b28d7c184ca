-- ===== src/StepUp/Reading.antt =====
-- What is written is read back: src/storage/action-step-up.ts.
use tinyland_auth.Base.{
  ℕ, true, String, leb, ◌≡◌, some, inl, inr, arith, eq_iff, eq_refl, refl, subst, Bool-cases,
  length,
}
use tinyland_auth.Base.Assoc.{get, get-put}
use tinyland_auth.StepUp.Outcome.{Outcome, failed, done}
use tinyland_auth.StepUp.Records.{
  Binding, StepUpRecord, assert_record, assert_digest, is_hex64, equal_digest,
}
use tinyland_auth.StepUp.Store.{
  envelope, Directory, Custody, Limits, Surroundings, Challenge, assert_seal, open_file, read,
  publish, write, write_and_answer, when_done,
}
use tinyland_auth.StepUp.Prune.{prune}
use tinyland_auth.StepUp.Operations.{issued_record, issue_pruned, issue}
use tinyland_auth.StepUp.Spent.{when_done_gives}
use tinyland_auth.StepUp.Written.{answer_written, write_done, write_published}

-- A keyed digest is 64 lower-case hexadecimal digits, which HMAC-SHA256 in hexadecimal gives.
abbrev pub GivesHex : Custody → Type 0
GivesHex keys = (domain text : String) → is_hex64 (keys.digest domain text) ≡ true

same_digest : (a b : String) → is_hex64 b ≡ true → a ≡ b → equal_digest a b ≡ true
unfolding equal_digest
same_digest a b h e = rw (e, h, eq_refl b) refl

module _ (keys : Custody) (hex : GivesHex keys) where
  seal_holds :
      (reference : String) (r : StepUpRecord)
      → r.reference_digest ≡ keys.digest "reference" reference
      → assert_seal keys
          (keys.digest "reference" reference)
          r
          (keys.digest "seal" (keys.json_record r))
        ≡ done tt
  unfolding assert_seal
  seal_holds reference r named =
      rw
        (
          same_digest (keys.digest "seal" (keys.json_record r))
              (keys.digest "seal" (keys.json_record r)) (hex "seal" (keys.json_record r)) refl,
          same_digest r.reference_digest (keys.digest "reference" reference)
              (hex "reference" reference) named,
        )
        refl

  open_file_sealed :
      (reference : String) (r : StepUpRecord)
      → r.reference_digest ≡ keys.digest "reference" reference
      → assert_record r ≡ done tt
      → open_file keys
          (keys.digest "reference" reference)
          (envelope r (keys.digest "seal" (keys.json_record r)))
        ≡ done r
  unfolding open_file assert_digest
  open_file_sealed reference r named valid =
      rw (valid, hex "seal" (keys.json_record r), seal_holds reference r named) refl

  write_valid :
      (env : Surroundings) (r : StepUpRecord) (dir : Directory)
      → (write keys env r dir).0 ≡ done tt
      → assert_record r ≡ done tt
  unfolding write when_done
  write_valid env r dir h = ground arith

  published_there :
      (env : Surroundings) (k : String) (r : StepUpRecord) (dir : Directory)
      → r.reference_digest ≡ k
      → env.renamed ≡ true
      → get k (publish keys env r dir) ≡ some (envelope r (keys.digest "seal" (keys.json_record r)))
  unfolding publish
  published_there env k r dir named e =
      rw
        (
          e,
          publish,
          get-put r.reference_digest k (envelope r (keys.digest "seal" (keys.json_record r))) dir,
        )
        (rw ((eq_iff r.reference_digest k).1 named) refl)

  read_published :
      (env : Surroundings) (reference : String) (r : StepUpRecord) (dir : Directory)
      → r.reference_digest ≡ keys.digest "reference" reference
      → env.renamed ≡ true
      → assert_record r ≡ done tt
      → read keys reference (publish keys env r dir) ≡ done r
  unfolding read
  read_published env reference r dir named e valid =
      rw (read, published_there env (keys.digest "reference" reference) r dir named e)
        (open_file_sealed reference r named valid)

  -- A write that succeeds is read back.
  pub read-write :
      (env : Surroundings) (reference : String) (r : StepUpRecord) (dir : Directory)
      → r.reference_digest ≡ keys.digest "reference" reference
      → (write keys env r dir).0 ≡ done tt
      → read keys reference (write keys env r dir).1 ≡ done r
  read-write env reference r dir named h =
      subst (λ d. read keys reference d ≡ done r) (write_published keys env r dir h)
        (read_published env reference r dir named (write_done keys env r dir h)
          (write_valid env r dir h))

  -- A write and an answer that succeed: the record is read back.
  answer_read :
      {A : Type 0} (env : Surroundings) (reference : String) (r : StepUpRecord)
      (last : Outcome Unit) (answer given : A) (dir : Directory)
      → r.reference_digest ≡ keys.digest "reference" reference
      → (write_and_answer keys env r last answer dir).0 ≡ done given
      → read keys reference (write_and_answer keys env r last answer dir).1 ≡ done r
  unfolding write_and_answer
  answer_read env reference r last answer given dir named h =
      read-write env reference r dir named (answer_written keys env r last answer given dir h)

  module _ (limits : Limits) where
    issued_name :
        (now : ℕ) (challenge_id : String) (b : Binding)
        → (issued_record keys limits now challenge_id b).reference_digest
          ≡ keys.digest "reference" challenge_id
    unfolding issued_record
    issued_name now challenge_id b = refl

    pruned_read :
        (env : Surroundings) (challenge_id : String) (b : Binding) (n : ℕ)
        (p : Outcome ℕ × Directory) (c : Challenge)
        → (issue_pruned keys limits env challenge_id b n p).0 ≡ done c
        → read keys challenge_id (issue_pruned keys limits env challenge_id b n p).1
          ≡ done (issued_record keys limits (env.clock n) challenge_id b)
    unfolding issue_pruned
    pruned_read env challenge_id b n (failed code message, dir) c h = ground arith
    pruned_read env challenge_id b n (done live, dir) c h =
        elim (Bool-cases (leb limits.max_records live)) [
          | inl e ↦ absurd (ground (e, arith))
          | inr e ↦
              rw (e, issue_pruned)
                (answer_read env challenge_id
                  (issued_record keys limits (env.clock n) challenge_id b) _ _ c dir
                  (issued_name (env.clock n) challenge_id b) (rw (e, issue_pruned) at h))
        ]

    -- After an `issue` that succeeds, reading the challenge gives the record that was issued: it is
    -- pending, without failures, bound to the identity and the binding presented.
    pub read-issue :
        (env : Surroundings) (challenge_id : String) (b : Binding) (dir : Directory) (c : Challenge)
        → (issue keys limits env challenge_id b dir).0 ≡ done c
        → read keys challenge_id (issue keys limits env challenge_id b dir).1
          ≡ done (issued_record keys limits (env.clock (length dir)) challenge_id b)
    unfolding issue
    read-issue env challenge_id b dir c h =
        when_done_gives
          (λ d.
            read keys challenge_id d
            ≡ done (issued_record keys limits (env.clock (length dir)) challenge_id b))
          _ _ dir c h
          (λ _ _ more. pruned_read env challenge_id b (length dir) (prune keys env dir) c more)
