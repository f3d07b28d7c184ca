-- ===== src/Retirement/Store.antt =====
-- The journal of the retirement coordinator: src/storage/file-totp-retirement.ts.
use Prim.Native.String
use text.Mathlib.Text.{is_le}
use tinyland_auth.Base.{
  ℕ, not, ◌||◌, String, List, [], ◌∷◌, ◌==◌, Option, none, some, ltb, length, all, if◌then◌else◌,
}
use tinyland_auth.Base.Assoc.{Assoc, get, put}
use tinyland_auth.StepUp.Records.{is_hex64}
use tinyland_auth.File.{Files, Writing, succeeds}
use tinyland_auth.Journal.{Outcome, failed, done, ◌then◌, invalid, recovery_required}
use tinyland_auth.Retirement.Records.{
  RetirementRecord, message, fail_if, assert_digest, assert_record, operation_of,
}

-- A file of the journal: an envelope, or content that is none.
pub data Entry : Type 0 where
  envelope : (stored : RetirementRecord) → (seal : String) → Entry
  unreadable : Entry

-- The credentials and the journal, whose files are named by operation ids. Temporary files of the
-- journal hold no authority and are left out.
pub record Custody : Type 0 where
  pub files : Files
  pub journal : Assoc Entry

-- The keyed digest of a text in a domain, under a configured key that is long enough, and the JSON
-- text of a record.
pub record Sealing : Type 0 where
  pub mac : String → String → String
  pub json_record : RetirementRecord → String

-- `MAX_RECORDS`
abbrev pub max_records : ℕ
max_records = 4096

-- `names.sort()`
unfoldable pub insert_name : String → List String → List String
insert_name s [] = s ∷ []
insert_name s (t ∷ ts) = if is_le (String.compare s t) then s ∷ t ∷ ts else t ∷ insert_name s ts

unfoldable pub sort_names : List String → List String
sort_names [] = []
sort_names (s ∷ ss) = insert_name s (sort_names ss)

abbrev pub names_of : Assoc Entry → List String
names_of [] = []
names_of ((name, entry) ∷ rest) = name ∷ names_of rest

-- `filenames`, without the extension: a name that is no operation id, or a file too many, stops.
unfoldable pub filenames : Assoc Entry → Outcome (List String)
filenames journal =
    fail_if (not (all is_hex64 (names_of journal)) || ltb max_records (length journal))
      recovery_required
    then done (sort_names (names_of journal))

module _ (keys : Sealing) where
  -- The seal of a record and its name.
  unfoldable pub open_entry : String → Entry → Outcome RetirementRecord
  open_entry operation_id unreadable = failed invalid message
  open_entry operation_id (envelope r seal) =
      assert_record r
      then assert_digest seal
      then fail_if (not (seal == keys.mac "seal" (keys.json_record r))) invalid
      then fail_if (not (operation_of r == operation_id)) invalid
      then done r

  -- An error in the file is an error of recovery.
  abbrev pub or_recovery : {A : Type 0} → Outcome A → Outcome A
  or_recovery (failed code m) = failed recovery_required message
  or_recovery (done value) = done value

  abbrev pub found : Outcome RetirementRecord → Outcome (Option RetirementRecord)
  found (failed code m) = failed code m
  found (done r) = done (some r)

  -- `read`
  unfoldable pub read : String → Assoc Entry → Outcome (Option RetirementRecord)
  read operation_id journal = assert_digest operation_id then elim (get operation_id journal) [
    | none ↦ done none
    | some entry ↦ found (or_recovery (open_entry operation_id entry))
  ]

  -- `write`, where the bodies stay below the limit on their size
  unfoldable pub write : Writing → RetirementRecord → Custody → Outcome (Unit {0}) × Custody
  write w r s = elim (assert_record r) [
    | failed code m ↦ (failed code m, s)
    | done _ ↦ (
      fail_if (not (succeeds w)) recovery_required,
      if w.renamed
          then record s {
            journal =
                put (operation_of r) (envelope r (keys.mac "seal" (keys.json_record r))) s.journal;
          }
          else s,
    )
  ]
