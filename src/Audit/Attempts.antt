-- ===== src/Audit/Attempts.antt =====
-- The count of failed logins: src/modules/audit/index.ts.
use tinyland_auth.Base.{
  ℕ, suc, ◌+◌, true, false, List, [], ◌∷◌, ◌≡◌, ◌↔◌, length, filter, if◌then◌else◌, arith, inl, inr,
  Bool-cases, eq_iff,
}
use tinyland_auth.Types.Audit.{Detail, text, number, flag, AuditEvent}
use tinyland_auth.Audit.{same_key, key_of, attempts_of, count_attempt, count_attempts}

-- Two keys of a `Map` are one exactly when they are equal.
same_key_iff : (a b : Detail) → (same_key a b ≡ true) ↔ (a ≡ b)
same_key_iff (text a) (text b) = ground (arith, eq_iff a b)
same_key_iff (number a) (number b) = ground arith
same_key_iff (flag true) (flag b) = ground arith
same_key_iff (flag false) (flag true) = ground arith
same_key_iff (flag false) (flag false) = ground arith
same_key_iff (text a) (number b) = ground arith
same_key_iff (text a) (flag b) = ground arith
same_key_iff (number a) (text b) = ground arith
same_key_iff (number a) (flag b) = ground arith
same_key_iff (flag true) (text b) = ground arith
same_key_iff (flag true) (number b) = ground arith
same_key_iff (flag false) (text b) = ground arith
same_key_iff (flag false) (number b) = ground arith

attempts_of-count_attempt :
    (j k : Detail) (m : List (Detail × ℕ))
    → attempts_of j (count_attempt k m)
      ≡ (if same_key k j then suc (attempts_of j m) else attempts_of j m)
unfolding attempts_of count_attempt
attempts_of-count_attempt j k [] = ground arith
attempts_of-count_attempt j k ((i, n) ∷ m) =
    ground
      (arith, same_key_iff i k, same_key_iff i j, same_key_iff k j, attempts_of-count_attempt j k m)

pub attempts_of-count_attempts :
    (k : Detail) (es : List AuditEvent) (m : List (Detail × ℕ))
    → attempts_of k (count_attempts es m)
      ≡ length (filter (λ e. same_key (key_of e) k) es) + attempts_of k m
unfolding count_attempts
attempts_of-count_attempts k [] m = omega arith
attempts_of-count_attempts k (e ∷ es) m =
    let rest = attempts_of-count_attempts k es (count_attempt (key_of e) m) in
    let first = attempts_of-count_attempt k (key_of e) m in
    elim (Bool-cases (same_key (key_of e) k)) [
      | inl h ↦ rw h (omega (arith, rest, (rw h at first)))
      | inr h ↦ rw h (omega (arith, rest, (rw h at first)))
    ]
