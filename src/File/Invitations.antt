-- ===== src/File/Invitations.antt =====
-- The invitations in the file adapter: src/storage/file.ts.
use tinyland_auth.Base.{
  ℕ, ◌-◌, Bool, true, false, not, ◌&&◌, ◌||◌, String, List, [], ◌∷◌, ◌++◌, ◌==◌, Option, none, some,
  Result, ok, err, find, filter, length, concat, is_some,
}
use tinyland_auth.Types.{at, before}
use tinyland_auth.Types.Invitations.{AdminInvitation, InvitationUpdates, merge_invitation}
use tinyland_auth.File.{Files, Writing, write_json_file, change_first, remove_first}

-- `getInvitation`: an invitation that is spent is found too.
unfoldable pub get_invitation : String → Files → Option AdminInvitation
get_invitation token files = find (λ i. i.token == token) files.invites

-- `getInvitationById`
unfoldable pub get_invitation_by_id : String → Files → Option AdminInvitation
get_invitation_by_id id files = find (λ i. i.id == id) files.invites

-- `createInvitation`, with the id that `randomUUID` gives.
unfoldable pub create_invitation :
    Writing → String → AdminInvitation → Files → Result AdminInvitation × Files
create_invitation w id data_of files =
    let invitation : AdminInvitation = record data_of { id = id } in
    write_json_file w invitation (record files { invites = files.invites ++ invitation ∷ [] }) files

-- `updateInvitation`
unfoldable pub update_invitation :
    Writing → String → InvitationUpdates → Files → Result AdminInvitation × Files
update_invitation w token updates files = elim (find (λ i. i.token == token) files.invites) [
  | none ↦ (err (concat ("Invitation not found: " ∷ token ∷ [])), files)
  | some i ↦
      write_json_file w (merge_invitation i updates)
        (record files {
          invites =
              change_first (λ i. i.token == token) (λ i. merge_invitation i updates) files.invites;
        })
        files
]

-- `deleteInvitation`
unfoldable pub delete_invitation : Writing → String → Files → Result Bool × Files
delete_invitation w token files = elim (find (λ i. i.token == token) files.invites) [
  | none ↦ (ok false, files)
  | some i ↦
      write_json_file w true
        (record files { invites = remove_first (λ i. i.token == token) files.invites }) files
]

-- `new Date(i.expiresAt) > now && !i.usedAt && i.isActive`
abbrev pub is_pending : ℕ → AdminInvitation → Bool
is_pending now i = before (at now) i.expires_at && not (is_some i.used_at) && i.is_active

-- `getPendingInvitations`
unfoldable pub get_pending_invitations : ℕ → Files → List AdminInvitation
get_pending_invitations now files = filter (is_pending now) files.invites

-- `getAllInvitations`
unfoldable pub get_all_invitations : Files → List AdminInvitation
get_all_invitations files = files.invites

-- `new Date(i.expiresAt) > now || i.usedAt`
abbrev pub is_kept : ℕ → AdminInvitation → Bool
is_kept now i = before (at now) i.expires_at || is_some i.used_at

-- `cleanupExpiredInvitations`
unfoldable pub cleanup_expired_invitations : Writing → ℕ → Files → Result ℕ × Files
cleanup_expired_invitations w now files =
    let filtered = filter (is_kept now) files.invites in
    write_json_file w (length files.invites - length filtered) (record files { invites = filtered })
      files
