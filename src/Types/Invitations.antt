-- ===== src/Types/Invitations.antt =====
-- Invitations: src/types/auth.ts.
use tinyland_auth.Base.{Bool, String, Option, none}
use tinyland_auth.Roles.{AdminRole}
use tinyland_auth.Types.{Timestamp, updated, updated_option}

-- The `metadata` of an invitation
pub record InvitationMetadata : Type 0 where
  pub inviter_handle : String
  pub inviter_display_name : Option String
  pub message : Option String
  pub custom_instructions : Option String

-- `AdminInvitation`
pub record AdminInvitation : Type 0 where
  pub id : String
  pub token : String
  pub email : Option String
  pub role : AdminRole
  pub created_by : String
  pub created_at : Timestamp
  pub expires_at : Timestamp
  pub used_at : Option Timestamp
  pub used_by : Option String
  pub temporary_totp_secret : Option String
  pub is_active : Bool
  pub metadata : Option InvitationMetadata

-- `Partial<AdminInvitation>`, `none` where the key is absent.
pub record InvitationUpdates : Type 0 where
  pub id : Option String
  pub token : Option String
  pub email : Option String
  pub role : Option AdminRole
  pub created_by : Option String
  pub created_at : Option Timestamp
  pub expires_at : Option Timestamp
  pub used_at : Option Timestamp
  pub used_by : Option String
  pub temporary_totp_secret : Option String
  pub is_active : Option Bool
  pub metadata : Option InvitationMetadata

-- The update that brings nothing.
abbrev pub no_invitation_updates : InvitationUpdates
no_invitation_updates = record {
  id = none;
  token = none;
  email = none;
  role = none;
  created_by = none;
  created_at = none;
  expires_at = none;
  used_at = none;
  used_by = none;
  temporary_totp_secret = none;
  is_active = none;
  metadata = none;
}

-- `{ ...invitation, ...updates }`
unfoldable pub merge_invitation : AdminInvitation → InvitationUpdates → AdminInvitation
merge_invitation i u = record {
  id = updated u.id i.id;
  token = updated u.token i.token;
  email = updated_option u.email i.email;
  role = updated u.role i.role;
  created_by = updated u.created_by i.created_by;
  created_at = updated u.created_at i.created_at;
  expires_at = updated u.expires_at i.expires_at;
  used_at = updated_option u.used_at i.used_at;
  used_by = updated_option u.used_by i.used_by;
  temporary_totp_secret = updated_option u.temporary_totp_secret i.temporary_totp_secret;
  is_active = updated u.is_active i.is_active;
  metadata = updated_option u.metadata i.metadata;
}
