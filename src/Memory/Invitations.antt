-- ===== src/Memory/Invitations.antt =====
-- The invitations in the memory adapter: src/storage/memory.ts.
use tinyland_auth.Base.{
  ℕ, Bool, not, ◌&&◌, ◌||◌, String, List, Option, none, some, Result, ok, err, if◌then◌else◌,
  filter, find, length, is_some, ◌==◌,
}
use tinyland_auth.Base.Assoc.{get, put, remove, has, values, discard}
use tinyland_auth.Types.{at, before}
use tinyland_auth.Types.Invitations.{AdminInvitation, InvitationUpdates, merge_invitation}
use tinyland_auth.Memory.{Memory}

-- `getInvitation`
unfoldable pub get_invitation : ℕ → String → Memory → Option AdminInvitation
get_invitation now token m = elim (get token m.invitations) [
  | none ↦ none
  | some i ↦ if before i.expires_at (at now) then none else some i
]

-- `getInvitationById`
unfoldable pub get_invitation_by_id : String → Memory → Option AdminInvitation
get_invitation_by_id id m = find (λ i. i.id == id) (values m.invitations)

-- `getAllInvitations`
unfoldable pub get_all_invitations : Memory → List AdminInvitation
get_all_invitations m = values m.invitations

-- `new Date(i.expiresAt) > now && !i.usedAt`
abbrev pub is_pending : ℕ → AdminInvitation → Bool
is_pending now i = before (at now) i.expires_at && not (is_some i.used_at)

-- `getPendingInvitations`
unfoldable pub get_pending_invitations : ℕ → Memory → List AdminInvitation
get_pending_invitations now m = filter (is_pending now) (values m.invitations)

-- `createInvitation`, with the id that `randomUUID` gives.
unfoldable pub create_invitation : String → AdminInvitation → Memory → AdminInvitation × Memory
create_invitation id invitation m =
    let new_invitation = record invitation { id = id } in
    (new_invitation, record m { invitations = put invitation.token new_invitation m.invitations })

-- `updateInvitation`
unfoldable pub update_invitation :
    String → InvitationUpdates → Memory → Result AdminInvitation × Memory
update_invitation token updates m = elim (get token m.invitations) [
  | none ↦ (err "Invitation not found", m)
  | some i ↦
      let merged = merge_invitation i updates in
      (ok merged, record m { invitations = put token merged m.invitations })
]

-- `deleteInvitation`
unfoldable pub delete_invitation : String → Memory → Bool × Memory
delete_invitation token m =
    (has token m.invitations, record m { invitations = remove token m.invitations })

-- `new Date(invitation.expiresAt) < now || invitation.usedAt`
abbrev pub is_spent : ℕ → AdminInvitation → Bool
is_spent now i = before i.expires_at (at now) || is_some i.used_at

-- `cleanupExpiredInvitations`
unfoldable pub cleanup_expired_invitations : ℕ → Memory → ℕ × Memory
cleanup_expired_invitations now m = (
  length (filter (is_spent now) (values m.invitations)),
  record m { invitations = discard (is_spent now) m.invitations },
)
