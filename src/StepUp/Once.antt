-- ===== src/StepUp/Once.antt =====
-- A permit is consumed at most once: src/storage/action-step-up.ts.
use tinyland_auth.Base.{
  Bool, true, false, String, ◌==◌, ◌≡◌, ◌≢◌, Option, if◌then◌else◌, arith, subst,
}
use tinyland_auth.Base.Assoc.{IsMap}
use tinyland_auth.StepUp.Outcome.{done, ◌then◌}
use tinyland_auth.StepUp.Records.{Identity, Binding, StepUpRecord, assert_binding}
use tinyland_auth.StepUp.Store.{
  Directory, Custody, Limits, Surroundings, Receipt, read, write_and_answer, assert_live,
  assert_reference, prepare,
}
use tinyland_auth.StepUp.Operations.{
  issue, verify, assert_permit, consumed_state, consumable, consumed_record, receipt_of, consume,
}
use tinyland_auth.StepUp.Spent.{is_consumed, IsSpent, when_done_inv, when_done_gives, then_inv}
use tinyland_auth.StepUp.Keeping.{
  read_name, read_spent, consumed_not_consumable, verify-IsSpent, consume-IsSpent, issue-IsSpent,
}
use tinyland_auth.StepUp.Written.{answer_spends}

module _ (keys : Custody) where
  module _ (limits : Limits) where
    -- A record that can be consumed is verified.
    consumable-verified :
        (env : Surroundings) (permit_id receipt_id : String) (b : Binding) (r : StepUpRecord)
        → consumable keys limits env permit_id b r ≡ done tt
        → is_consumed (consumed_record keys limits (env.clock 1) receipt_id r).state ≡ true
    unfolding consumable assert_permit consumed_record consumed_state
    consumable-verified env permit_id receipt_id b r h = ground arith

    -- Nothing spent is consumed.
    consume_refused :
        (env : Surroundings) (receipt_id challenge_id permit_id : String) (b : Binding)
        (dir : Directory) (receipt : Receipt)
        → IsSpent (keys.digest "reference" challenge_id) dir
        → ¬ ((consume keys limits env receipt_id challenge_id permit_id b dir).0 ≡ done receipt)
    unfolding consume
    consume_refused env receipt_id challenge_id permit_id b dir receipt s h =
        let (r, chain, rest) = when_done_inv _ _ dir receipt h in
        let found =
          (then_inv
            (assert_binding b
              then assert_reference challenge_id
              then assert_reference permit_id
              then prepare env)
            (read keys challenge_id dir) r chain).1 in
        let (_, checks, _) =
          when_done_inv (consumable keys limits env permit_id b r) _ dir receipt rest in
        consumed_not_consumable keys limits env permit_id b r
          (read_spent keys challenge_id dir r s found) checks

    consumed_record_spends :
        (env : Surroundings) (receipt_id challenge_id permit_id : String) (b : Binding)
        (dir : Directory) (receipt : Receipt) (r : StepUpRecord)
        → IsMap dir
        → consumable keys limits env permit_id b r ≡ done tt
        → (write_and_answer keys env
            (consumed_record keys limits (env.clock 1) receipt_id r)
            (assert_live (env.clock 2) r)
            (receipt_of keys limits receipt_id b)
            dir).0
          ≡ done receipt
        → IsSpent r.reference_digest
            (write_and_answer keys env
              (consumed_record keys limits (env.clock 1) receipt_id r)
              (assert_live (env.clock 2) r)
              (receipt_of keys limits receipt_id b)
              dir).1
    unfolding consumed_record
    consumed_record_spends env receipt_id challenge_id permit_id b dir receipt r m checks wrote =
        answer_spends keys env (consumed_record keys limits (env.clock 1) receipt_id r)
          (assert_live (env.clock 2) r) _ receipt dir wrote m
          (consumable-verified env permit_id receipt_id b r checks)

    -- A consumption that succeeds spends the name of the challenge.
    consume_spends :
        (env : Surroundings) (receipt_id challenge_id permit_id : String) (b : Binding)
        (dir : Directory) (receipt : Receipt)
        → IsMap dir
        → (consume keys limits env receipt_id challenge_id permit_id b dir).0 ≡ done receipt
        → IsSpent
            (keys.digest "reference" challenge_id)
            (consume keys limits env receipt_id challenge_id permit_id b dir).1
    unfolding consume
    consume_spends env receipt_id challenge_id permit_id b dir receipt m h =
        when_done_gives (IsSpent (keys.digest "reference" challenge_id)) _ _ dir receipt h
          (λ r chain more.
            let found =
              (then_inv
                (assert_binding b
                  then assert_reference challenge_id
                  then assert_reference permit_id
                  then prepare env)
                (read keys challenge_id dir) r chain).1 in
            when_done_gives (IsSpent (keys.digest "reference" challenge_id))
              (consumable keys limits env permit_id b r) _ dir receipt more
              (λ _ checks wrote.
                subst
                  (λ d.
                    IsSpent d
                      (write_and_answer keys env
                        (consumed_record keys limits (env.clock 1) receipt_id r)
                        (assert_live (env.clock 2) r) (receipt_of keys limits receipt_id b) dir).1)
                  (read_name keys challenge_id dir r found)
                  (consumed_record_spends env receipt_id challenge_id permit_id b dir receipt r m
                    checks wrote)))

    -- One operation on the directory in which no new challenge gets the name `k`.
    pub data Step (k : String) : Directory → Directory → Type 0 where
      issues :
          (env : Surroundings)
          → (challenge_id : String) → (b : Binding) → (dir : Directory)
          → (keys.digest "reference" challenge_id == k) ≡ false
          → Step k dir (issue keys limits env challenge_id b dir).1
      verifies :
          (env : Surroundings)
          → (permit_id challenge_id : String) → (factor : Option Bool) → (i : Identity)
          → (dir : Directory)
          → Step k dir (verify keys limits env permit_id factor challenge_id i dir).1
      consumes :
          (env : Surroundings)
          → (receipt_id challenge_id permit_id : String) → (b : Binding) → (dir : Directory)
          → Step k dir (consume keys limits env receipt_id challenge_id permit_id b dir).1

    pub data Steps (k : String) : Directory → Directory → Type 0 where
      stop : (dir : Directory) → Steps k dir dir
      more : (dir mid next : Directory) → Step k dir mid → Steps k mid next → Steps k dir next

    Step-keeps :
        (k : String) (dir next : Directory) → Step k dir next → IsSpent k dir → IsSpent k next
    Step-keeps k dir next (issues env challenge_id b _ fresh) s =
        issue-IsSpent keys limits env k challenge_id b dir fresh s
    Step-keeps k dir next (verifies env permit_id challenge_id factor i _) s =
        verify-IsSpent keys limits env k permit_id challenge_id factor i dir s
    Step-keeps k dir next (consumes env receipt_id challenge_id permit_id b _) s =
        consume-IsSpent keys limits env k receipt_id challenge_id permit_id b dir s

    Steps-keep :
        (k : String) (dir next : Directory) → Steps k dir next → IsSpent k dir → IsSpent k next
    Steps-keep k dir next (stop _) s = s
    Steps-keep k dir next (more _ mid _ step steps) s =
        Steps-keep k mid next steps (Step-keeps k dir mid step s)

    -- From a directory with one file for each name, after a consumption of a challenge that
    -- succeeded and any further operations, in which no new challenge gets the same name, no
    -- consumption of that challenge succeeds, whichever permit, binding, times and failures of the
    -- file system it is tried with.
    pub consumed_once :
        (env later : Surroundings)
        (challenge_id receipt_id permit_id again_receipt again_permit : String) (b again : Binding)
        (dir next : Directory) (receipt second : Receipt)
        → IsMap dir
        → (consume keys limits env receipt_id challenge_id permit_id b dir).0 ≡ done receipt
        → Steps
            (keys.digest "reference" challenge_id)
            (consume keys limits env receipt_id challenge_id permit_id b dir).1
            next
        → (consume keys limits later again_receipt challenge_id again_permit again next).0
          ≢ done second
    consumed_once env later challenge_id receipt_id permit_id again_receipt again_permit b again dir
          next receipt second m h steps =
        consume_refused later again_receipt challenge_id again_permit again next second (
          Steps-keep (keys.digest "reference" challenge_id) _ next steps
            (consume_spends env receipt_id challenge_id permit_id b dir receipt m h))
