-- ===== src/StepUp/Written.antt =====
-- What a write that succeeds has done: src/storage/action-step-up.ts.
use tinyland_auth.Base.{true, ◌≡◌, if◌then◌else◌, arith, subst}
use tinyland_auth.Base.Assoc.{IsMap}
use tinyland_auth.StepUp.Outcome.{Outcome, done, ◌then◌}
use tinyland_auth.StepUp.Records.{StepUpRecord}
use tinyland_auth.StepUp.Store.{
  Directory, Custody, Surroundings, publish, write, write_and_answer, when_done,
}
use tinyland_auth.StepUp.Spent.{is_consumed, IsSpent, IsSpent-put, then_inv}

module _ (keys : Custody) where
  -- A write that succeeds has renamed its file.
  pub write_done :
      (env : Surroundings) (r : StepUpRecord) (dir : Directory)
      → (write keys env r dir).0 ≡ done tt
      → env.renamed ≡ true
  unfolding write when_done
  write_done env r dir h = ground arith

  pub write_published :
      (env : Surroundings) (r : StepUpRecord) (dir : Directory)
      → (write keys env r dir).0 ≡ done tt
      → publish keys env r dir ≡ (write keys env r dir).1
  unfolding write when_done
  write_published env r dir h = ground arith

  publish_spends :
      (env : Surroundings) (r : StepUpRecord) (dir : Directory)
      → env.renamed ≡ true
      → IsMap dir
      → is_consumed r.state ≡ true
      → IsSpent r.reference_digest (publish keys env r dir)
  unfolding publish
  publish_spends env r dir e m s = rw (e, publish) (IsSpent-put r.reference_digest _ dir m s)

  write_spends :
      (env : Surroundings) (r : StepUpRecord) (dir : Directory)
      → (write keys env r dir).0 ≡ done tt
      → IsMap dir
      → is_consumed r.state ≡ true
      → IsSpent r.reference_digest (write keys env r dir).1
  write_spends env r dir h m s =
      subst (IsSpent r.reference_digest) (write_published env r dir h)
        (publish_spends env r dir (write_done env r dir h) m s)

  pub answer_written :
      {A : Type 0} (env : Surroundings) (r : StepUpRecord) (last : Outcome Unit) (answer given : A)
      (dir : Directory)
      → (write_and_answer keys env r last answer dir).0 ≡ done given
      → (write keys env r dir).0 ≡ done tt
  unfolding write_and_answer
  answer_written env r last answer given dir h =
      let checks = (then_inv ((write keys env r dir).0 then last) (done answer) given h).0 in
      (then_inv (write keys env r dir).0 last tt checks).0

  pub answer_spends :
      {A : Type 0} (env : Surroundings) (r : StepUpRecord) (last : Outcome Unit) (answer given : A)
      (dir : Directory)
      → (write_and_answer keys env r last answer dir).0 ≡ done given
      → IsMap dir
      → is_consumed r.state ≡ true
      → IsSpent r.reference_digest (write_and_answer keys env r last answer dir).1
  unfolding write_and_answer
  answer_spends env r last answer given dir h m s =
      write_spends env r dir (answer_written env r last answer given dir h) m s
