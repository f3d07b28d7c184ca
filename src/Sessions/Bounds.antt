-- ===== src/Sessions/Bounds.antt =====
-- What the bound on concurrent sessions guarantees: src/storage/session-policy.ts.
use mathlib.Core.List.{append-nil}
use tinyland_auth.Base.{
  ℕ, ◌+◌, ◌-◌, ◌≤◌, Bool, List, [], ◌∷◌, ◌++◌, ◌≡◌, refl, arith, In-filter, filter, length,
  length-append, length-drop, length-filter-le, subst, sym, ap, ◌∙◌, ok, filter-append,
  filter_nothing, filter_everything, eq_refl,
}
use tinyland_auth.Types.{Session}
use tinyland_auth.Sessions.Policy.{
  BoundedSessionPolicy, is_owned, is_foreign, own_sessions, retained_sessions, bounded_sessions,
}
use tinyland_auth.Sessions.Inserted.{accepted, retained_live, live_owned}

module _ (sessions : List Session) (session : Session) (policy : BoundedSessionPolicy) (now : ℕ)
    (next : List Session)
    (inserted_ok : bounded_sessions sessions session policy now ≡ ok next) where
  foreign_part :
      filter (is_owned session.user_id) (filter (is_foreign session.user_id) sessions) ≡ []
  foreign_part =
      filter_nothing _ _
        λ a m. let (_, e) = (In-filter (is_foreign session.user_id) a sessions).0 m in ground arith

  length-retained :
      1 ≤ policy.max_concurrent_sessions
      → length (retained_sessions sessions session policy now) + 1 ≤ policy.max_concurrent_sessions
  unfolding retained_sessions
  length-retained h = omega (
    arith,
    length-drop (length (own_sessions sessions session now) - (policy.max_concurrent_sessions - 1))
        (own_sessions sessions session now),
  )

  -- A test picks its entries from each of the three parts of the result.
  filter_parts :
      (p : Session → Bool)
      → filter p next
        ≡ filter p (filter (is_foreign session.user_id) sessions)
          ++ filter p (retained_sessions sessions session policy now)
          ++ filter p (session ∷ [])
  filter_parts p =
      let acc = accepted sessions session policy now next inserted_ok in
      let kept = retained_sessions sessions session policy now in
      let foreign = filter (is_foreign session.user_id) sessions in
      ap (filter p) acc.result
      ∙ filter-append p (foreign ++ kept) (session ∷ [])
      ∙ ap (λ l. l ++ filter p (session ∷ [])) (filter-append p foreign kept)

  -- After a bounded insertion the user has at most as many sessions as the policy allows.
  pub bounded_count :
      length (filter (is_owned session.user_id) next) ≤ policy.max_concurrent_sessions
  bounded_count =
      let kept = retained_sessions sessions session policy now in
      let own = filter (is_owned session.user_id) kept in
      let new = filter (is_owned session.user_id) (session ∷ []) in
      subst (λ l. length l ≤ policy.max_concurrent_sessions)
        (sym (filter_parts (is_owned session.user_id) ∙ ap (λ l. l ++ own ++ new) foreign_part))
        (omega (
          arith,
          length-filter-le (is_owned session.user_id) kept,
          length-filter-le (is_owned session.user_id) (session ∷ []),
          length-append own new,
          length-retained (accepted sessions session policy now next inserted_ok).bound,
        ))

  retained_not_foreign :
      filter (is_foreign session.user_id) (retained_sessions sessions session policy now) ≡ []
  retained_not_foreign = filter_nothing _ _ λ a m.
      let (_, live) = retained_live sessions session policy now a m in
      let own = live_owned session.user_id now a live in ground arith

  foreign_foreign :
      filter (is_foreign session.user_id) (filter (is_foreign session.user_id) sessions)
      ≡ filter (is_foreign session.user_id) sessions
  foreign_foreign =
      filter_everything _ _
        λ a m. let (_, e) = (In-filter (is_foreign session.user_id) a sessions).0 m in e

  -- A bounded insertion leaves the sessions of every other user as they were, in their order.
  pub bounded_others :
      filter (is_foreign session.user_id) next ≡ filter (is_foreign session.user_id) sessions
  bounded_others =
      let foreign = filter (is_foreign session.user_id) sessions in
      let new : filter (is_foreign session.user_id) (session ∷ []) ≡ [] =
        rw (eq_refl session.user_id) refl in
      filter_parts (is_foreign session.user_id)
      ∙ rw (foreign_foreign, retained_not_foreign, new)
          (append-nil (foreign ++ []) ∙ append-nil foreign)
