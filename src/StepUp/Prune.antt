-- ===== src/StepUp/Prune.antt =====
-- The removal of expired files before a challenge is issued: src/storage/action-step-up.ts.
use tinyland_auth.Base.{
  ℕ, suc, Bool, true, false, not, ◌&&◌, ◌||◌, String, [], ◌∷◌, ◌==◌, ltb, if◌then◌else◌, length,
}
use tinyland_auth.StepUp.Outcome.{Outcome, failed, done, ◌then◌, refuse_if, invalid, unavailable}
use tinyland_auth.StepUp.Records.{is_hex64, assert_record, assert_digest, equal_digest}
use tinyland_auth.StepUp.Store.{File, envelope, unreadable, Directory, Custody, Surroundings}

-- `/^[a-f0-9]{64}\.json$/`, for a name that ends in `.json` and is taken without it.
unfoldable pub assert_filename : String → Outcome Unit
assert_filename name = refuse_if (not (is_hex64 name)) invalid "Invalid step-up filename"

module _ (keys : Custody) where
  -- One file in the loop of `pruneExpired`, whose name must be the digest in its record: it is kept when it has not run out.
  unfoldable pub keep_file : ℕ → String → File → Outcome Bool
  keep_file now name unreadable = assert_filename name then failed invalid "Invalid step-up record"
  keep_file now name (envelope r seal) =
      assert_filename name
      then assert_record r
      then assert_digest seal
      then refuse_if
          (not (name == r.reference_digest)
            || not (equal_digest seal (keys.digest "seal" (keys.json_record r))))
          invalid "Invalid step-up seal"
      then done (ltb now r.expires_at)

  abbrev pub live_more : Outcome ℕ → Outcome ℕ
  live_more (failed code message) = failed code message
  live_more (done n) = done (suc n)

  -- The verdict on one file and what the loop makes of the others: a refused file ends the loop, so
  -- that it and the files after it stay as they are.
  unfoldable pub prune_file :
      Outcome Bool → String × File → Directory → Outcome ℕ × Directory → Outcome ℕ × Directory
  prune_file (failed code message) entry files rest = (failed code message, entry ∷ files)
  prune_file (done false) entry files rest = rest
  prune_file (done true) entry files (count, rest) = (live_more count, entry ∷ rest)

  -- The loop of `pruneExpired`, from a reading of the clock on: how many files stay, and the directory.
  unfoldable pub prune_expired : (ℕ → ℕ) → ℕ → Directory → Outcome ℕ × Directory
  prune_expired clock n [] = (done 0, [])
  prune_expired clock n ((name, file) ∷ files) =
      prune_file (keep_file (clock n) name file) (name, file) files
        (prune_expired clock (suc n) files)

  -- The end of `pruneExpired`: a removal is followed by a synchronisation of the directory, unless
  -- the loop has failed.
  unfoldable pub prune_answer : Bool → Outcome ℕ → Outcome ℕ
  prune_answer unsynchronised (failed code message) = failed code message
  prune_answer unsynchronised (done count) =
      refuse_if unsynchronised unavailable "Step-up cleanup is unavailable" then done count

  -- `pruneExpired`, where the file operations succeed up to the synchronisation.
  unfoldable pub prune : Surroundings → Directory → Outcome ℕ × Directory
  prune env dir =
      let (count, rest) = prune_expired env.clock 0 dir in
      (prune_answer (ltb (length rest) (length dir) && not env.cleaned) count, rest)
