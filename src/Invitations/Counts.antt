-- ===== src/Invitations/Counts.antt =====
-- The statistics of invitations: src/modules/invitation/index.ts.
use tinyland_auth.Base.{
  ℕ, ◌+◌, Bool, true, not, List, [], ◌∷◌, ◌≡◌, ok, all, length, filter, is_some, arith, refl, inl,
  inr, Bool-cases,
}
use tinyland_auth.Types.{Timestamp, at, invalid, before, not_after}
use tinyland_auth.Types.Invitations.{AdminInvitation}
use tinyland_auth.Sessions.Policy.{is_date}
use tinyland_auth.Invitations.{
  InvitationStorage, Statistics, get_statistics, is_pending, is_expired, is_used,
}

-- A date is over at a time or it is to come, unless it is no date.
dated :
    (now : ℕ) (t : Timestamp) → is_date t ≡ true → not_after t (at now) ≡ not (before (at now) t)
dated now (at ms) h = ground arith
dated now invalid h = ground arith

abbrev pub has_date : AdminInvitation → Bool
has_date i = is_date i.expires_at

counts :
    (now : ℕ) (is : List AdminInvitation)
    → all has_date is ≡ true
    → length is
      ≡ length (filter (is_pending now) is)
        + length (filter (is_expired now) is)
        + length (filter is_used is)
counts now [] h = refl
counts now (i ∷ is) h =
    let rest = counts now is (ground arith) in
    let over = dated now i.expires_at (ground arith) in
    elim (Bool-cases (is_some i.used_at)) [
      | inl u ↦ elim (Bool-cases (before (at now) i.expires_at)) [
        | inl e ↦ rw (u, over, e) (omega (arith, rest))
        | inr e ↦ rw (u, over, e) (omega (arith, rest))
      ]
      | inr u ↦ elim (Bool-cases (before (at now) i.expires_at)) [
        | inl e ↦ rw (u, over, e) (omega (arith, rest))
        | inr e ↦ rw (u, over, e) (omega (arith, rest))
      ]
    ]

-- Where every expiry is a date, each stored invitation is counted once: as pending, as expired or as
-- used.
pub statistics_partition :
    {S : Type 0} (st : InvitationStorage S) (now : ℕ) (s : S) (stored : List AdminInvitation)
    → st.get_all_invitations s ≡ ok stored
    → all has_date stored ≡ true
    → (n : Statistics) × (get_statistics st now s ≡ ok n)
      × (n.total ≡ n.pending + n.expired + n.used)
unfolding get_statistics
statistics_partition st now s stored read dates = (
  record {
    total = length stored;
    pending = length (filter (is_pending now) stored);
    expired = length (filter (is_expired now) stored);
    used = length (filter is_used stored);
  },
  rw (read, get_statistics) refl,
  counts now stored dates,
)
