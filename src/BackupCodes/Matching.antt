-- ===== src/BackupCodes/Matching.antt =====
-- How the list of stored codes changes when one is used: src/core/backup-codes/index.ts.
use tinyland_auth.Base.{
  ℕ, zero, suc, ◌+◌, ◌≤◌, false, String, List, [], ◌∷◌, ◌==◌, ◌≡◌, inl, inr, none, some,
  if◌then◌else◌, arith, eq_iff, refl, Option-cases,
}
use tinyland_auth.Types.{Timestamp}
use tinyland_auth.Types.Secrets.{EncryptedBackupCode}
use tinyland_auth.BackupCodes.{find_index, mark_used, count_unused, matches_hash}

-- How many unused codes have a hash.
abbrev pub count_hash : String → List EncryptedBackupCode → ℕ
count_hash h [] = 0
count_hash h (c ∷ cs) = (if matches_hash h c then 1 else 0) + count_hash h cs

-- A code is found exactly when an unused one has its hash.
pub find_index-none :
    (h : String) (cs : List EncryptedBackupCode) → find_index h cs ≡ none → count_hash h cs ≡ 0
unfolding find_index
find_index-none h [] e = refl
find_index-none h (c ∷ cs) e = ground (arith, find_index-none h cs)

pub find_index-some :
    (h : String) (cs : List EncryptedBackupCode)
    → 1 ≤ count_hash h cs
    → (n : ℕ) × (find_index h cs ≡ some n)
find_index-some h cs e = elim (Option-cases (find_index h cs)) [
  | inl q ↦ absurd (omega (arith, find_index-none h cs q))
  | inr p ↦ p
]

-- Using a found code takes one unused code away, and one of its hash; the unused codes of every other hash stay.
pub mark_used-count :
    (now : Timestamp) (h : String) (n : ℕ) (cs : List EncryptedBackupCode)
    → find_index h cs ≡ some n
    → (count_unused (mark_used now n cs) + 1 ≡ count_unused cs)
      × (count_hash h (mark_used now n cs) + 1 ≡ count_hash h cs)
      × ((k : String) → (k == h) ≡ false → count_hash k (mark_used now n cs) ≡ count_hash k cs)
unfolding find_index mark_used
mark_used-count now h n [] e = ground arith
mark_used-count now h zero (c ∷ cs) e = (
  ground arith,
  ground arith,
  λ k ne. ground (arith, eq_iff c.hash h, eq_iff c.hash k, eq_iff k h),
)
mark_used-count now h (suc n) (c ∷ cs) e =
    let rest = mark_used-count now h n cs (ground arith) in
    let skipped : matches_hash h c ≡ false = ground arith in
    (ground (arith, rest.0), ground (arith, rest.1), λ k ne. ground (arith, rest.2 k ne))
