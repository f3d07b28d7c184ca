-- ===== src/Sessions/Store.antt =====
-- The stored list stays well formed under a bounded insertion: src/storage/session-policy.ts.
use tinyland_auth.Base.{
  ℕ, ◌-◌, ◌≤◌, true, String, List, [], ◌∷◌, ◌++◌, ◌≡◌, refl, inl, inr, arith, eq_iff, In, In-append,
  filter, length, includes, subst, sym, ok, eq_refl,
}
use tinyland_auth.Types.{Session}
use tinyland_auth.Sessions.Policy.{
  BoundedSessionPolicy, is_foreign, is_live, own_sessions, retained_sessions, bounded_sessions,
  all_stored, sort_sessions, is_stored_session,
}
use tinyland_auth.Sessions.Order.{
  count_id, count_id-append, count_id-sort, count_id-drop-le, count_id-filter-le,
}
use tinyland_auth.Sessions.Inserted.{inserted, accepted}
use tinyland_auth.Sessions.Eviction.{inserted_from}

all_stored_each :
    (ids : List String) (ss : List Session)
    → all_stored ids ss ≡ true
    → (a : Session) → In a ss
    → is_stored_session a ≡ true
unfolding all_stored
all_stored_each ids [] h a m = absurd m
all_stored_each ids (s ∷ ss) h a (inl e) = rw e (ground arith)
all_stored_each ids (s ∷ ss) h a (inr m) = all_stored_each (s.id ∷ ids) ss (ground arith) a m

all_stored_count :
    (ids : List String) (ss : List Session)
    → all_stored ids ss ≡ true
    → (k : String) → (count_id k ss ≤ 1) × (includes k ids ≡ true → count_id k ss ≡ 0)
unfolding all_stored
all_stored_count ids [] h k = (omega arith, λ i. refl)
all_stored_count ids (s ∷ ss) h k =
    ground (arith, eq_iff s.id k, eq_iff k s.id, all_stored_count (s.id ∷ ids) ss (ground arith) k)

all_stored_intro :
    (ids : List String) (ss : List Session)
    → ((a : Session) → In a ss → is_stored_session a ≡ true)
    → ((k : String) → count_id k ss ≤ 1)
    → ((k : String) → includes k ids ≡ true → count_id k ss ≡ 0)
    → all_stored ids ss ≡ true
unfolding all_stored
all_stored_intro ids [] each once new = refl
all_stored_intro ids (s ∷ ss) each once new =
    let rest =
      all_stored_intro (s.id ∷ ids) ss (λ a m. each a (inr m)) (λ k. omega (arith, once k))
        (λ k m. ground (arith, eq_iff k s.id, eq_iff s.id k, once k, new k)) in
    ground (arith, each s (inl refl), new s.id, eq_refl s.id, rest)

count_id-retained :
    (sessions : List Session) (session : Session) (policy : BoundedSessionPolicy) (now : ℕ)
    (k : String)
    → count_id k (retained_sessions sessions session policy now)
      ≤ count_id k (filter (is_live session.user_id now) sessions)
unfolding retained_sessions own_sessions
count_id-retained sessions session policy now k =
    let own = filter (is_live session.user_id now) sessions in
    omega (
      arith,
      count_id-sort k own,
      count_id-drop-le k (length (sort_sessions own) - (policy.max_concurrent_sessions - 1))
          (sort_sessions own),
    )

count_id-inserted :
    (sessions : List Session) (session : Session) (policy : BoundedSessionPolicy) (now : ℕ)
    (k : String)
    → count_id k (inserted sessions session policy now) ≤ count_id k (sessions ++ session ∷ [])
count_id-inserted sessions session policy now k =
    let foreign = filter (is_foreign session.user_id) sessions in
    let kept = retained_sessions sessions session policy now in
    omega (
      arith,
      count_id-append k (foreign ++ kept) (session ∷ []),
      count_id-append k foreign kept,
      count_id-append k sessions (session ∷ []),
      count_id-retained sessions session policy now k,
      count_id-filter-le k (is_foreign session.user_id) (is_live session.user_id now) sessions
          (λ s e. ground arith),
    )

-- A bounded insertion that succeeds leaves a list that `assertStoredSessions` accepts: every
-- session has its fields and its dates, and no id occurs twice.
pub bounded_store :
    (sessions : List Session) (session : Session) (policy : BoundedSessionPolicy) (now : ℕ)
    (next : List Session)
    → bounded_sessions sessions session policy now ≡ ok next
    → all_stored [] next ≡ true
bounded_store sessions session policy now next h =
    let acc = accepted sessions session policy now next h in
    let before = all_stored_each [] (sessions ++ session ∷ []) acc.stored in
    let once = all_stored_count [] (sessions ++ session ∷ []) acc.stored in
    all_stored_intro [] next
      (λ a m. before a (
        (In-append a sessions (session ∷ [])).1
          (ground (arith, inserted_from sessions session policy now next h a))))
      (λ k.
        subst (λ l. count_id k l ≤ 1) (sym acc.result)
          (omega (arith, once k, count_id-inserted sessions session policy now k)))
      (λ k m. absurd (ground arith))
