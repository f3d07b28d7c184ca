-- ===== src/Types.antt =====
-- The records that the components share: src/types/auth.ts.
pub mod Secrets
pub mod Invitations
pub mod Audit
use tinyland_auth.Base.{ℕ, Bool, false, String, List, Option, none, some, ltb, leb}
use tinyland_auth.Roles.{AdminRole}

-- A date text as `new Date(text)` reads it: milliseconds since the epoch, or an invalid date.
pub data Timestamp : Type 0 where
  at : ℕ → Timestamp
  invalid : Timestamp

-- `new Date(a) < new Date(b)`; a comparison with an invalid date is false.
abbrev pub before : Timestamp → Timestamp → Bool
before (at a) (at b) = ltb a b
before (at a) invalid = false
before invalid b = false

-- `new Date(a) <= new Date(b)`
abbrev pub not_after : Timestamp → Timestamp → Bool
not_after (at a) (at b) = leb a b
not_after (at a) invalid = false
not_after invalid b = false

-- `AdminUser`: the fields that the modelled code reads or writes by name, with the keys `removedAt`
-- and `removedBy`, which a stored user may have besides.
pub record AdminUser : Type 0 where
  pub id : String
  pub handle : String
  pub email : Option String
  pub display_name : Option String
  pub password_hash : String
  pub totp_enabled : Bool
  pub totp_secret_id : Option String
  pub role : AdminRole
  pub permissions : Option (List String)
  pub is_active : Bool
  pub is_locked : Option Bool
  pub needs_onboarding : Bool
  pub onboarding_step : ℕ
  pub created_at : Timestamp
  pub updated_at : Timestamp
  pub bio : Option String
  pub avatar_url : Option String
  pub pronouns : Option String
  pub first_login : Option Bool
  pub removed_at : Option Timestamp
  pub removed_by : Option String
  pub github_id : Option ℕ
  pub github_login : Option String
  pub github_linked_at : Option Timestamp

-- `SessionUser`
pub record SessionUser : Type 0 where
  pub id : String
  pub username : String
  pub name : String
  pub role : String
  pub needs_onboarding : Option Bool
  pub onboarding_step : Option ℕ

-- `geoLocation`
pub record GeoLocation : Type 0 where
  pub country : String
  pub city : Option String

-- `SessionMetadata`
pub record SessionMetadata : Type 0 where
  pub client_ip : String
  pub client_ip_masked : Option String
  pub user_agent : String
  pub device_type : Option String
  pub browser_fingerprint : Option String
  pub geo_location : Option GeoLocation

-- `Session`
pub record Session : Type 0 where
  pub id : String
  pub user_id : String
  pub expires : Timestamp
  pub expires_at : Timestamp
  pub created_at : Timestamp
  pub user : Option SessionUser
  pub client_ip : String
  pub client_ip_masked : Option String
  pub user_agent : String
  pub device_type : Option String
  pub browser_fingerprint : Option String
  pub geo_location : Option GeoLocation
  pub temp_totp_secret : Option String
  pub temp_totp_expires_at : Option Timestamp

-- The fields of `Partial<AdminUser>` that a new session copies.
pub record SessionOwner : Type 0 where
  pub id : Option String
  pub handle : Option String
  pub display_name : Option String
  pub role : Option AdminRole
  pub needs_onboarding : Option Bool
  pub onboarding_step : Option ℕ

-- `Partial<Session>`: the keys that an update brings, `none` where the key is absent.
pub record SessionUpdates : Type 0 where
  pub id : Option String
  pub user_id : Option String
  pub expires : Option Timestamp
  pub expires_at : Option Timestamp
  pub created_at : Option Timestamp
  pub client_ip : Option String
  pub user_agent : Option String
  pub user : Option SessionUser
  pub client_ip_masked : Option String
  pub device_type : Option String
  pub browser_fingerprint : Option String
  pub geo_location : Option GeoLocation
  pub temp_totp_secret : Option String
  pub temp_totp_expires_at : Option Timestamp

-- The update that brings nothing.
abbrev pub no_updates : SessionUpdates
no_updates = record {
  id = none;
  user_id = none;
  expires = none;
  expires_at = none;
  created_at = none;
  client_ip = none;
  user_agent = none;
  user = none;
  client_ip_masked = none;
  device_type = none;
  browser_fingerprint = none;
  geo_location = none;
  temp_totp_secret = none;
  temp_totp_expires_at = none;
}

-- `key in updates ? updates[key] : old`
abbrev pub updated {ℓ} : {A : Type ℓ} → Option A → A → A
updated none old = old
updated (some new) old = new

-- The same of an optional key.
abbrev pub updated_option {ℓ} : {A : Type ℓ} → Option A → Option A → Option A
updated_option none old = old
updated_option (some new) old = some new

-- `{ ...session, ...updates }`
unfoldable pub merge_session : Session → SessionUpdates → Session
merge_session s u = record {
  id = updated u.id s.id;
  user_id = updated u.user_id s.user_id;
  expires = updated u.expires s.expires;
  expires_at = updated u.expires_at s.expires_at;
  created_at = updated u.created_at s.created_at;
  client_ip = updated u.client_ip s.client_ip;
  user_agent = updated u.user_agent s.user_agent;
  user = updated_option u.user s.user;
  client_ip_masked = updated_option u.client_ip_masked s.client_ip_masked;
  device_type = updated_option u.device_type s.device_type;
  browser_fingerprint = updated_option u.browser_fingerprint s.browser_fingerprint;
  geo_location = updated_option u.geo_location s.geo_location;
  temp_totp_secret = updated_option u.temp_totp_secret s.temp_totp_secret;
  temp_totp_expires_at = updated_option u.temp_totp_expires_at s.temp_totp_expires_at;
}

-- `Partial<AdminUser>`, likewise.
pub record UserUpdates : Type 0 where
  pub id : Option String
  pub handle : Option String
  pub email : Option String
  pub display_name : Option String
  pub password_hash : Option String
  pub totp_enabled : Option Bool
  pub totp_secret_id : Option String
  pub role : Option AdminRole
  pub permissions : Option (List String)
  pub is_active : Option Bool
  pub is_locked : Option Bool
  pub needs_onboarding : Option Bool
  pub onboarding_step : Option ℕ
  pub created_at : Option Timestamp
  pub updated_at : Option Timestamp
  pub bio : Option String
  pub avatar_url : Option String
  pub pronouns : Option String

-- `{ ...user, ...updates }`
unfoldable pub merge_user : AdminUser → UserUpdates → AdminUser
merge_user s u = record {
  id = updated u.id s.id;
  handle = updated u.handle s.handle;
  email = updated_option u.email s.email;
  display_name = updated_option u.display_name s.display_name;
  password_hash = updated u.password_hash s.password_hash;
  totp_enabled = updated u.totp_enabled s.totp_enabled;
  totp_secret_id = updated_option u.totp_secret_id s.totp_secret_id;
  role = updated u.role s.role;
  permissions = updated_option u.permissions s.permissions;
  is_active = updated u.is_active s.is_active;
  is_locked = updated_option u.is_locked s.is_locked;
  needs_onboarding = updated u.needs_onboarding s.needs_onboarding;
  onboarding_step = updated u.onboarding_step s.onboarding_step;
  created_at = updated u.created_at s.created_at;
  updated_at = updated u.updated_at s.updated_at;
  bio = updated_option u.bio s.bio;
  avatar_url = updated_option u.avatar_url s.avatar_url;
  pronouns = updated_option u.pronouns s.pronouns;
  first_login = s.first_login;
  removed_at = s.removed_at;
  removed_by = s.removed_by;
  github_id = s.github_id;
  github_login = s.github_login;
  github_linked_at = s.github_linked_at;
}
