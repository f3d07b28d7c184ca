-- ===== src/StepUp/Spent.antt =====
-- Directories in which a reference can no longer be used: src/storage/action-step-up.ts.
use tinyland_auth.Base.{
  ℕ, suc, Bool, true, false, String, [], ◌∷◌, ◌==◌, ◌≡◌, none, some, if◌then◌else◌, inl, inr, arith,
  eq_iff, refl, subst, Bool-cases,
}
use tinyland_auth.Base.Assoc.{get, put, IsMap}
use tinyland_auth.StepUp.Outcome.{◌then◌, Outcome, failed, done}
use tinyland_auth.StepUp.Records.{
  StepUpState, pending, verified, consumed, StepUpRecord, assert_record,
}
use tinyland_auth.StepUp.Store.{
  File, envelope, unreadable, Directory, Custody, Surroundings, publish, write, write_and_answer,
  when_done,
}
use tinyland_auth.StepUp.Prune.{keep_file, prune_expired, prune, prune_file}

abbrev pub is_consumed : StepUpState → Bool
is_consumed pending = false
is_consumed (verified _ _) = false
is_consumed (consumed _ _ _ _) = true

-- A file that authorises nothing any more.
abbrev pub IsSpentFile : File → Type 0
IsSpentFile unreadable = Unit
IsSpentFile (envelope r seal) = is_consumed r.state ≡ true

-- Every file of a name is spent.
abbrev pub IsSpent : String → Directory → Type 0
IsSpent k [] = Unit
IsSpent k ((name, file) ∷ files) = ((name == k) ≡ true → IsSpentFile file) × IsSpent k files

some_inj : {A : Type 0} {a b : A} → some a ≡ some b → a ≡ b
some_inj h = cc

pub IsSpent-get :
    (k : String) (dir : Directory) (f : File) → IsSpent k dir → get k dir ≡ some f → IsSpentFile f
unfolding get
IsSpent-get k [] f s h = ground arith
IsSpent-get k ((name, file) ∷ files) f s h = elim (Bool-cases (name == k)) [
  | inl e ↦ subst IsSpentFile (some_inj (rw e at h)) (s.0 e)
  | inr e ↦ IsSpent-get k files f s.1 (rw e at h)
]

pub IsSpent-put_other :
    (k j : String) (f : File) (dir : Directory)
    → (j == k) ≡ false
    → IsSpent k dir
    → IsSpent k (put j f dir)
unfolding put
IsSpent-put_other k j f [] ne s = ((λ e. absurd (ground arith)), tt)
IsSpent-put_other k j f ((name, file) ∷ files) ne s = elim (Bool-cases (name == j)) [
  | inl e ↦ rw e ((λ q. absurd (ground (arith, eq_iff name j, eq_iff name k, eq_iff j k))), s.1)
  | inr e ↦ rw e (s.0, IsSpent-put_other k j f files ne s.1)
]

no_name : (k : String) (dir : Directory) → get k dir ≡ none → IsSpent k dir
unfolding get
no_name k [] h = tt
no_name k ((name, file) ∷ files) h = ((λ q. absurd (ground arith)), no_name k files (ground arith))

pub IsSpent-put :
    (k : String) (f : File) (dir : Directory) → IsMap dir → IsSpentFile f → IsSpent k (put k f dir)
unfolding put IsMap
IsSpent-put k f [] m s = ((λ e. s), tt)
IsSpent-put k f ((name, file) ∷ files) m s = elim (Bool-cases (name == k)) [
  | inl e ↦
      rw e ((λ q. s), no_name k files (subst (λ n. get n files ≡ none) ((eq_iff name k).0 e) m.0))
  | inr e ↦ rw e ((λ q. absurd (ground arith)), IsSpent-put k f files m.1 s)
]

-- A property of the directory that survives when a check fails and in the rest when it succeeds.
pub when_done_keeps :
    {A B : Type 0} (P : Directory → Type 0) (o : Outcome A) (rest : A → Outcome B × Directory)
    (dir : Directory)
    → P dir
    → ((a : A) → o ≡ done a → P (rest a).1)
    → P (when_done o rest dir).1
unfolding when_done
when_done_keeps P (failed code message) rest dir p h = p
when_done_keeps P (done a) rest dir p h = h a refl

-- A property of the directory that a success gives.
pub when_done_gives :
    {A B : Type 0} (P : Directory → Type 0) (o : Outcome A) (rest : A → Outcome B × Directory)
    (dir : Directory) (b : B)
    → (when_done o rest dir).0 ≡ done b
    → ((a : A) → o ≡ done a → (rest a).0 ≡ done b → P (rest a).1)
    → P (when_done o rest dir).1
unfolding when_done
when_done_gives P (failed code message) rest dir b h p = ground arith
when_done_gives P (done a) rest dir b h p = p a refl h

pub done_inj : {A : Type 0} {a b : A} → done a ≡ done b → a ≡ b
done_inj h = cc

-- A check and what follows it succeed together.
pub then_inv :
    {A : Type 0} (c : Outcome Unit) (rest : Outcome A) (a : A)
    → (c then rest) ≡ done a
    → (c ≡ done tt) × (rest ≡ done a)
then_inv (failed code message) rest a h = ground arith
then_inv (done _) rest a h = (refl, h)

-- A chain of checks that succeeds has succeeded throughout.
pub when_done_inv :
    {A B : Type 0} (o : Outcome A) (rest : A → Outcome B × Directory) (dir : Directory) (b : B)
    → (when_done o rest dir).0 ≡ done b
    → (a : A) × (o ≡ done a) × ((rest a).0 ≡ done b)
unfolding when_done
when_done_inv (failed code message) rest dir b h = ground arith
when_done_inv (done a) rest dir b h = (a, refl, h)

module _ (keys : Custody) where
  prune_file-IsSpent :
      (k : String) (verdict : Outcome Bool) (entry : String × File) (files : Directory)
      (rest : Outcome ℕ × Directory)
      → IsSpent k (entry ∷ files)
      → IsSpent k rest.1
      → IsSpent k (prune_file keys verdict entry files rest).1
  unfolding prune_file
  prune_file-IsSpent k (failed code message) entry files rest s r = s
  prune_file-IsSpent k (done false) entry files rest s r = r
  prune_file-IsSpent k (done true) entry files rest s r = (s.0, r)

  -- Pruning keeps what is spent spent, whatever it removes and wherever it stops.
  prune_expired-IsSpent :
      (clock : ℕ → ℕ) (k : String) (n : ℕ) (dir : Directory)
      → IsSpent k dir
      → IsSpent k (prune_expired keys clock n dir).1
  unfolding prune_expired
  prune_expired-IsSpent clock k n [] s = tt
  prune_expired-IsSpent clock k n ((name, file) ∷ files) s =
      prune_file-IsSpent k (keep_file keys (clock n) name file) (name, file) files
        (prune_expired keys clock (suc n) files) s (prune_expired-IsSpent clock k (suc n) files s.1)

  pub prune-IsSpent :
      (env : Surroundings) (k : String) (dir : Directory)
      → IsSpent k dir
      → IsSpent k (prune keys env dir).1
  unfolding prune
  prune-IsSpent env k dir s = prune_expired-IsSpent env.clock k 0 dir s

  publish-IsSpent :
      (env : Surroundings) (k : String) (r : StepUpRecord) (dir : Directory)
      → (r.reference_digest == k) ≡ false
      → IsSpent k dir
      → IsSpent k (publish keys env r dir)
  unfolding publish
  publish-IsSpent env k r dir ne s = elim (Bool-cases env.renamed) [
    | inl e ↦ rw (e, publish) (IsSpent-put_other k r.reference_digest _ dir ne s)
    | inr e ↦ rw (e, publish) s
  ]

  -- A write under another name keeps what is spent spent.
  pub write-IsSpent :
      (env : Surroundings) (k : String) (r : StepUpRecord) (dir : Directory)
      → (r.reference_digest == k) ≡ false
      → IsSpent k dir
      → IsSpent k (write keys env r dir).1
  unfolding write
  write-IsSpent env k r dir ne s =
      when_done_keeps (IsSpent k) (assert_record r) _ dir s
        (λ _ _. publish-IsSpent env k r dir ne s)

  pub write_and_answer-IsSpent :
      {A : Type 0} (env : Surroundings) (k : String) (r : StepUpRecord) (last : Outcome Unit)
      (answer : A) (dir : Directory)
      → (r.reference_digest == k) ≡ false
      → IsSpent k dir
      → IsSpent k (write_and_answer keys env r last answer dir).1
  unfolding write_and_answer
  write_and_answer-IsSpent env k r last answer dir ne s = write-IsSpent env k r dir ne s
