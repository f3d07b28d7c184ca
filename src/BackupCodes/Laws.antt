-- ===== src/BackupCodes/Laws.antt =====
-- Backup codes are single-use: src/core/backup-codes/index.ts.
use tinyland_auth.Base.{
  ℕ, suc, ◌+◌, ◌≤◌, true, false, String, List, [], ◌∷◌, ◌==◌, ◌≡◌, ◌≢◌, ◌↔◌, inl, inr, Option, none,
  some, In, arith, eq_iff, eq_refl, refl, ap, Bool-cases, Bool-eq_of_iff,
}
use tinyland_auth.Types.{Timestamp}
use tinyland_auth.Types.Secrets.{BackupCodeSet}
use tinyland_auth.BackupCodes.{
  hash_backup_code, hashed_codes, create_backup_code_set, find_index, count_unused, use_code,
  normalize_code, verify_backup_code, get_remaining_codes_count,
}
use tinyland_auth.BackupCodes.Matching.{count_hash, find_index-none, mark_used-count}

used_iff :
    (now : Timestamp) (set : BackupCodeSet) (h : String) (o : Option ℕ)
    → find_index h set.codes ≡ o
    → ((use_code now set o).valid ≡ true) ↔ (1 ≤ count_hash h set.codes)
unfolding use_code
used_iff now set h none e = ground (arith, find_index-none h set.codes e)
used_iff now set h (some n) e = ground (arith, (mark_used-count now h n set.codes e).1)

used_count :
    (now : Timestamp) (set : BackupCodeSet) (h : String) (o : Option ℕ)
    → find_index h set.codes ≡ o
    → ((use_code now set o).valid ≡ true
        → count_unused (use_code now set o).code_set.codes + 1 ≡ count_unused set.codes)
      × ((use_code now set o).valid ≡ false → (use_code now set o).code_set ≡ set)
      × ((use_code now set o).codes_remaining ≡ count_unused (use_code now set o).code_set.codes)
unfolding use_code
used_count now set h none e = (λ q. ground arith, λ q. refl, refl)
used_count now set h (some n) e =
    (λ q. (mark_used-count now h n set.codes e).0, λ q. ground arith, refl)

-- The unused codes of a hash after one verification that accepted.
used_hashes :
    (now : Timestamp) (set : BackupCodeSet) (h : String) (o : Option ℕ)
    → find_index h set.codes ≡ o
    → (use_code now set o).valid ≡ true
    → (count_hash h (use_code now set o).code_set.codes + 1 ≡ count_hash h set.codes)
      × ((k : String)
          → (k == h) ≡ false
          → count_hash k (use_code now set o).code_set.codes ≡ count_hash k set.codes)
unfolding use_code
used_hashes now set h none e v = ground arith
used_hashes now set h (some n) e v =
    ((mark_used-count now h n set.codes e).1, (mark_used-count now h n set.codes e).2)

differs : (s t : String) → s ≢ t → (s == t) ≡ false
differs s t ne = ground (arith, eq_iff s t)

module _ (digest : String → String) where
  pub verify_backup_code_iff :
      (now : Timestamp) (set : BackupCodeSet) (code : String)
      → ((verify_backup_code digest now set code).valid ≡ true)
        ↔ (1 ≤ count_hash (hash_backup_code digest code) set.codes)
  unfolding verify_backup_code
  verify_backup_code_iff now set code = used_iff now set (hash_backup_code digest code) _ refl

  -- An accepted code takes exactly one unused code away, a refused one leaves the set as it is, and
  -- the reported number is the number of unused codes of the returned set.
  pub verify_backup_code_count :
      (now : Timestamp) (set : BackupCodeSet) (code : String)
      → let r = verify_backup_code digest now set code in
        (r.valid ≡ true
          → get_remaining_codes_count (some r.code_set) + 1 ≡ get_remaining_codes_count (some set))
        × (r.valid ≡ false → r.code_set ≡ set)
        × (r.codes_remaining ≡ get_remaining_codes_count (some r.code_set))
  unfolding verify_backup_code get_remaining_codes_count
  verify_backup_code_count now set code = used_count now set (hash_backup_code digest code) _ refl

  hashes_after :
      (now : Timestamp) (set : BackupCodeSet) (code : String)
      → (verify_backup_code digest now set code).valid ≡ true
      → let h = hash_backup_code digest code in
        let next = (verify_backup_code digest now set code).code_set in
        (count_hash h next.codes + 1 ≡ count_hash h set.codes)
        × ((k : String) → (k == h) ≡ false → count_hash k next.codes ≡ count_hash k set.codes)
  unfolding verify_backup_code
  hashes_after now set code valid = used_hashes now set (hash_backup_code digest code) _ refl valid

  hashed_count :
      (fresh_id : ℕ → String) (n : ℕ) (codes : List String) (code : String)
      → In code codes
      → 1 ≤ count_hash (hash_backup_code digest code) (hashed_codes digest fresh_id n codes)
  unfolding hashed_codes
  hashed_count fresh_id n [] code m = absurd m
  hashed_count fresh_id n (c ∷ cs) code (inl e) =
      rw (e, eq_refl (hash_backup_code digest c)) (omega arith)
  hashed_count fresh_id n (c ∷ cs) code (inr m) =
      omega (arith, hashed_count fresh_id (suc n) cs code m)

  -- A code is single-use: when at most one unused stored code has its hash, then once it is
  -- accepted no text of the same normal form is accepted by the returned set, at whatever time.
  -- A text of another hash is accepted by the returned set exactly when it was before.
  pub backup_code_single_use :
      (now later : Timestamp) (set : BackupCodeSet) (code other : String)
      → count_hash (hash_backup_code digest code) set.codes ≤ 1
      → (verify_backup_code digest now set code).valid ≡ true
      → let next = (verify_backup_code digest now set code).code_set in
        (normalize_code other ≡ normalize_code code
          → (verify_backup_code digest later next other).valid ≡ false)
        × (hash_backup_code digest other ≢ hash_backup_code digest code
            → (verify_backup_code digest later next other).valid
              ≡ (verify_backup_code digest later set other).valid)
  backup_code_single_use now later set code other once valid =
      let next = (verify_backup_code digest now set code).code_set in
      let counts = hashes_after now set code valid in
      let again = verify_backup_code_iff later next other in
      let before = verify_backup_code_iff later set other in
      (
        (λ same.
            let q : count_hash (hash_backup_code digest other) next.codes
                ≡ count_hash (hash_backup_code digest code) next.codes =
              ap (λ n. count_hash (digest n) next.codes) same in
            elim (Bool-cases (verify_backup_code digest later next other).valid) [
              | inl v ↦ absurd (omega (arith, again.0 v, q, counts.0))
              | inr v ↦ v
            ]),
        λ ne.
            let apart : (hash_backup_code digest other == hash_backup_code digest code) ≡ false =
              differs _ _ ne in
            let q = counts.1 (hash_backup_code digest other) apart in
            Bool-eq_of_iff _ _ (
              (λ v. before.1 (omega (arith, again.0 v, q))),
              λ v. again.1 (omega (arith, before.0 v, q)),
            ),
      )

  -- Every code that a set was made of is accepted by the fresh set.
  pub created_codes_accepted :
      (fresh_id : ℕ → String) (made now : Timestamp) (user_id : String) (codes : List String)
      (code : String)
      → In code codes
      → (verify_backup_code digest now
          (create_backup_code_set digest fresh_id made user_id codes)
          code).valid
        ≡ true
  unfolding create_backup_code_set
  created_codes_accepted fresh_id made now user_id codes code m =
      (verify_backup_code_iff now (create_backup_code_set digest fresh_id made user_id codes)
          code).1
        (hashed_count fresh_id 0 codes code m)
