-- ===== src/Invitations.antt =====
-- The invitation service: src/modules/invitation/index.ts, over the part of
-- src/storage/interface.ts that it uses.
use tinyland_auth.Base.{
  ℕ, zero, suc, ◌+◌, ◌*◌, Bool, true, false, not, ◌&&◌, String, List, Option, none, some, Result,
  ok, err, ◌>>=◌, length, filter, is_some, concat, [], ◌∷◌, if◌then◌else◌,
}
use tinyland_auth.Roles.{AdminRole, role_name}
use tinyland_auth.Types.{Timestamp, at, invalid, before, not_after}
use tinyland_auth.Types.Invitations.{
  AdminInvitation, InvitationMetadata, InvitationUpdates, no_invitation_updates,
}
use tinyland_auth.Permissions.Check.{can_manage_role}
pub mod Laws
pub mod Counts
pub mod Adapters

-- `InvitationStorage`, with the ids and times that its adapters take.
pub record InvitationStorage (S : Type 0) : Type 0 where
  pub get_invitation : ℕ → String → S → Result (Option AdminInvitation)
  pub get_all_invitations : S → Result (List AdminInvitation)
  pub get_pending_invitations : ℕ → S → Result (List AdminInvitation)
  pub create_invitation : String → AdminInvitation → S → Result AdminInvitation × S
  pub update_invitation : String → InvitationUpdates → S → Result AdminInvitation × S
  pub delete_invitation : String → S → Result Bool × S
  pub cleanup_expired_invitations : ℕ → S → Result ℕ × S

-- The configuration of the service, without the storage: `qr_code` gives the image of the URI of a
-- label, an issuer and a secret.
pub record InvitationServiceConfig : Type 0 where
  pub default_expiry_hours : ℕ
  pub base_url : String
  pub totp_issuer : String
  pub qr_code : String → String → String → Result String

-- `CreateInvitationOptions`
pub record CreateInvitationOptions : Type 0 where
  pub role : AdminRole
  pub created_by : String
  pub created_by_handle : String
  pub expires_in_hours : Option ℕ
  pub message : Option String
  pub email : Option String

-- `CreateInvitationResult`, where `success` says which.
pub data CreateInvitationResult : Type 0 where
  not_created : (error : String) → CreateInvitationResult
  created : AdminInvitation → (invite_url totp_secret qr_code : String) → CreateInvitationResult

-- `date.setHours(date.getHours() + hours)`, where no clock change lies between.
unfoldable pub add_hours : ℕ → Timestamp → Timestamp
add_hours hours (at ms) = at (ms + hours * 3600000)
add_hours hours invalid = invalid

-- `options.expiresInHours || config.defaultExpiryHours`
abbrev pub hours_or : Option ℕ → ℕ → ℕ
hours_or none default = default
hours_or (some zero) default = default
hours_or (some (suc n)) default = suc n

-- The data of `createInvitation`, without an id.
unfoldable pub invitation_data : ℕ → String → String → ℕ → CreateInvitationOptions → AdminInvitation
invitation_data now token totp_secret hours options = record {
  id = "";
  token = token;
  email = options.email;
  role = options.role;
  created_by = options.created_by;
  created_at = at now;
  expires_at = add_hours hours (at now);
  used_at = none;
  used_by = none;
  temporary_totp_secret = some totp_secret;
  is_active = true;
  metadata = some (record {
    inviter_handle = options.created_by_handle;
    inviter_display_name = none;
    message = options.message;
    custom_instructions = none;
  });
}

-- The statistics
pub record Statistics : Type 0 where
  pub total : ℕ
  pub pending : ℕ
  pub expired : ℕ
  pub used : ℕ

abbrev pub is_pending : ℕ → AdminInvitation → Bool
is_pending now i = before (at now) i.expires_at && not (is_some i.used_at)

abbrev pub is_expired : ℕ → AdminInvitation → Bool
is_expired now i = not_after i.expires_at (at now) && not (is_some i.used_at)

abbrev pub is_used : AdminInvitation → Bool
is_used i = is_some i.used_at

-- `canInviteForRole`
unfoldable pub can_invite_for_role : AdminRole → AdminRole → Bool
can_invite_for_role creator_role target_role =
    can_manage_role (role_name creator_role) (role_name target_role)

-- The tests of `getInvitation` on what the storage gives.
unfoldable pub usable : ℕ → Option AdminInvitation → Option AdminInvitation
usable now none = none
usable now (some i) =
    if before i.expires_at (at now) then none else if is_used i then none else some i

-- `try { … return true } catch { return false }`
abbrev pub succeeded : {A S : Type 0} → Result A × S → Result Bool × S
succeeded (err message, s) = (ok false, s)
succeeded (ok value, s) = (ok true, s)

module _ {S : Type 0} (st : InvitationStorage S) where
  -- `getInvitation`
  unfoldable pub get_invitation : ℕ → String → S → Result (Option AdminInvitation)
  get_invitation now token s = st.get_invitation now token s >>= λ found. ok (usable now found)

  -- `markAsUsed`
  unfoldable pub mark_as_used : ℕ → String → String → S → Result Bool × S
  mark_as_used now token used_by s = succeeded (
      st.update_invitation token
        (record no_invitation_updates {
          used_at = some (at now);
          used_by = some used_by;
          is_active = some false;
        })
        s)

  -- `revokeInvitation`
  unfoldable pub revoke_invitation : String → S → Result Bool × S
  revoke_invitation token s = st.delete_invitation token s

  -- `listPendingInvitations`
  unfoldable pub list_pending_invitations : ℕ → S → Result (List AdminInvitation)
  list_pending_invitations now s = st.get_pending_invitations now s

  -- `getStatistics`
  unfoldable pub get_statistics : ℕ → S → Result Statistics
  get_statistics now s = st.get_all_invitations s >>= λ all. ok (record {
    total = length all;
    pending = length (filter (is_pending now) all);
    expired = length (filter (is_expired now) all);
    used = length (filter is_used all);
  })

  -- `cleanupExpired`
  unfoldable pub cleanup_expired : ℕ → S → Result ℕ × S
  cleanup_expired now s = st.cleanup_expired_invitations now s

  -- The update of `extendInvitation`; the text of an invalid date throws.
  unfoldable pub store_expiry : String → Timestamp → S → Result Bool × S
  store_expiry token invalid s = (ok false, s)
  store_expiry token (at ms) s =
      succeeded
        (st.update_invitation token (record no_invitation_updates { expires_at = some (at ms) }) s)

  -- What `extendInvitation` does with the invitation that it finds.
  unfoldable pub extend_found : String → ℕ → Option AdminInvitation → S → Result Bool × S
  extend_found token additional_hours none s = (ok false, s)
  extend_found token additional_hours (some i) s =
      if is_used i
      then (ok false, s)
      else store_expiry token (add_hours additional_hours i.expires_at) s

  abbrev after_reading : {A B : Type 0} → Result A → (A → Result B × S) → S → Result B × S
  after_reading (err message) rest s = (err message, s)
  after_reading (ok value) rest s = rest value

  -- `extendInvitation`, at a time
  unfoldable pub extend_invitation : ℕ → String → ℕ → S → Result Bool × S
  extend_invitation now token additional_hours s =
      after_reading (st.get_invitation now token s)
        (λ found. extend_found token additional_hours found s) s

  module _ (config : InvitationServiceConfig) where
    abbrev failure : CreateInvitationResult
    failure = not_created "Failed to create invitation"

    -- The rest of `createInvitation` after the storage answered.
    unfoldable pub present_invitation :
        String → String → Result AdminInvitation × S → CreateInvitationResult × S
    present_invitation token totp_secret (err message, s) = (failure, s)
    present_invitation token totp_secret (ok i, s) =
        elim (config.qr_code (concat ("invite-" ∷ i.id ∷ []))
          (concat (config.totp_issuer ∷ " (Invite)" ∷ [])) totp_secret) [
            | err message ↦ (failure, s)
            | ok qr ↦ (
              created i (concat (config.base_url ∷ "/admin/accept-invite?token=" ∷ token ∷ []))
                  totp_secret qr,
              s,
            )
          ]

    -- `createInvitation`, with the random id, token and secret and the time
    unfoldable pub create_invitation :
        String → String → String → ℕ → CreateInvitationOptions → S → CreateInvitationResult × S
    create_invitation id token totp_secret now options s = present_invitation token totp_secret (
        st.create_invitation id
          (invitation_data now token totp_secret
            (hours_or options.expires_in_hours config.default_expiry_hours) options)
          s)
