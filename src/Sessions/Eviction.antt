-- ===== src/Sessions/Eviction.antt =====
-- Which sessions a bounded insertion keeps and which it evicts: src/storage/session-policy.ts.
use tinyland_auth.Base.{
  ℕ, ◌-◌, ◌≤◌, ◌<◌, Bool, true, String, List, [], ◌∷◌, ◌++◌, ◌≡◌, ◌≢◌, ◌↔◌, ◌⊎◌, inl, inr, arith,
  In, In-filter, In-append, filter, length, take, drop, take-append-drop, subst, sym, ok,
}
use tinyland_auth.Types.{Session}
use tinyland_auth.Sessions.Policy.{
  BoundedSessionPolicy, is_owned, is_foreign, is_live, own_sessions, retained_sessions,
  bounded_sessions, all_stored, is_stored_session,
}
use tinyland_auth.Sessions.Order.{
  created_ms, AreDated, IsSorted, sort-IsSorted, IsSorted-cut, sort-In, length-sort,
}
use tinyland_auth.Sessions.Inserted.{accepted, retained_live}

stored-AreDated :
    (ids : List String) (ss : List Session) (new : Session)
    → all_stored ids (ss ++ new ∷ []) ≡ true
    → AreDated ss
unfolding all_stored is_stored_session
stored-AreDated ids [] new h = tt
stored-AreDated ids (s ∷ ss) new h =
    (ground arith, stored-AreDated (s.id ∷ ids) ss new (ground arith))

filter-AreDated : (p : Session → Bool) (ss : List Session) → AreDated ss → AreDated (filter p ss)
filter-AreDated p [] d = tt
filter-AreDated p (s ∷ ss) d = ground (arith, filter-AreDated p ss d.1)

module _ (sessions : List Session) (session : Session) (policy : BoundedSessionPolicy) (now : ℕ)
    (next : List Session)
    (inserted_ok : bounded_sessions sessions session policy now ≡ ok next) where
  -- What the result holds: the other users' sessions, the retained ones and the new one.
  pub inserted_iff :
      (a : Session)
      → In a next ↔ (
          (In a sessions × (is_foreign session.user_id a ≡ true))
          ⊎ (In a (retained_sessions sessions session policy now) ⊎ (a ≡ session)))
  inserted_iff a =
      let acc = accepted sessions session policy now next inserted_ok in
      let kept = retained_sessions sessions session policy now in
      let foreign = filter (is_foreign session.user_id) sessions in
      rw acc.result (
        ground (
          arith,
          In-append a (foreign ++ kept) (session ∷ []),
          In-append a foreign kept,
          In-filter (is_foreign session.user_id) a sessions,
        ))

  -- After a bounded insertion the new session is stored, and every other stored session was
  -- stored before; one of the same user is still live.
  pub inserted_from :
      (a : Session)
      → (In session next)
        × (In a next
            → (a ≡ session)
              ⊎ (In a sessions
                  × ((is_owned session.user_id a ≡ true) → is_live session.user_id now a ≡ true)))
  inserted_from a =
      ground
        (arith, inserted_iff a, inserted_iff session, retained_live sessions session policy now a)

  own_cut :
      (a : Session)
      → In a sessions
      → is_live session.user_id now a ≡ true
      → In a (
          take
            (length (own_sessions sessions session now) - (policy.max_concurrent_sessions - 1))
            (own_sessions sessions session now))
        ⊎ In a (retained_sessions sessions session policy now)
  unfolding own_sessions retained_sessions
  own_cut a m live =
      let own = own_sessions sessions session now in
      let n = length own - (policy.max_concurrent_sessions - 1) in
      let owned : In a own =
        (sort-In a _).1 ((In-filter (is_live session.user_id now) a sessions).1 (m, live)) in
      (In-append a (take n own) (drop n own)).0 (subst (In a) (sym (take-append-drop n own)) owned)

  -- The user's live sessions are sorted, since the store held dates only.
  own-IsSorted : IsSorted (own_sessions sessions session now)
  unfolding own_sessions
  own-IsSorted =
      let acc = accepted sessions session policy now next inserted_ok in
      sort-IsSorted _ (
        filter-AreDated (is_live session.user_id now) sessions
          (stored-AreDated [] sessions session acc.stored))

  cut_le :
      (a b : Session)
      → In a (
          take
            (length (own_sessions sessions session now) - (policy.max_concurrent_sessions - 1))
            (own_sessions sessions session now))
      → In b (retained_sessions sessions session policy now)
      → created_ms a ≤ created_ms b
  unfolding retained_sessions
  cut_le a b = IsSorted-cut _ _ a b own-IsSorted

  -- Eviction is oldest first: when a bounded insertion drops a live session of the user, then
  -- each session of the user that it keeps, the new one aside, was created no earlier.
  pub evicts_oldest :
      (a b : Session)
      → In a sessions
      → is_live session.user_id now a ≡ true
      → ¬ In a next
      → In b next
      → is_owned session.user_id b ≡ true
      → b ≢ session
      → created_ms a ≤ created_ms b
  evicts_oldest a b ma live gone mb own other = elim (own_cut a ma live) [
    | inl cut ↦ cut_le a b cut (ground (arith, inserted_iff b))
    | inr kept ↦ absurd (gone ((inserted_iff a).1 (inr (inl kept))))
  ]

  none_cut :
      (a : Session)
      → length (filter (is_live session.user_id now) sessions) < policy.max_concurrent_sessions
      → ¬ In a (
          take
            (length (own_sessions sessions session now) - (policy.max_concurrent_sessions - 1))
            (own_sessions sessions session now))
  unfolding own_sessions
  none_cut a h m =
      let short : length (own_sessions sessions session now) - (policy.max_concurrent_sessions - 1)
          ≡ 0 =
        omega (arith, length-sort (filter (is_live session.user_id now) sessions)) in
      subst (λ n. In a (take n (own_sessions sessions session now))) short m

  -- While the user has fewer live sessions than the bound, an insertion evicts none of them.
  pub evicts_only_at_bound :
      (a : Session)
      → In a sessions
      → is_live session.user_id now a ≡ true
      → length (filter (is_live session.user_id now) sessions) < policy.max_concurrent_sessions
      → In a next
  evicts_only_at_bound a m live h = elim (own_cut a m live) [
    | inl cut ↦ absurd (none_cut a h cut)
    | inr kept ↦ (inserted_iff a).1 (inr (inl kept))
  ]
