-- ===== src/Tests/Samples.antt =====
-- The records that several tests use.
use tinyland_auth.Base.{true, false, String, List, Option, none, some}
use tinyland_auth.Roles.{AdminRole, editor}
use tinyland_auth.Types.{at, AdminUser, SessionOwner, UserUpdates}
use tinyland_auth.Memory.{Memory, empty_memory}
use tinyland_auth.Memory.Users.{create_user}

abbrev pub user_of : String → String → Option String → AdminRole → Option (List String) → AdminUser
user_of id handle email role permissions = record {
  id = id;
  handle = handle;
  email = email;
  display_name = none;
  password_hash = "hash";
  totp_enabled = false;
  totp_secret_id = none;
  role = role;
  permissions = permissions;
  is_active = true;
  is_locked = none;
  needs_onboarding = false;
  onboarding_step = 0;
  created_at = at 0;
  updated_at = at 0;
  bio = none;
  avatar_url = none;
  pronouns = none;
  first_login = none;
  removed_at = none;
  removed_by = none;
  github_id = none;
  github_login = none;
  github_linked_at = none;
}

abbrev pub owner_of : String → SessionOwner
owner_of handle = record {
  id = none;
  handle = some handle;
  display_name = none;
  role = some editor;
  needs_onboarding = none;
  onboarding_step = none;
}

abbrev pub updates_of : Option String → Option String → UserUpdates
updates_of handle email = record {
  id = none;
  handle = handle;
  email = email;
  display_name = none;
  password_hash = none;
  totp_enabled = none;
  totp_secret_id = none;
  role = none;
  permissions = none;
  is_active = none;
  is_locked = none;
  needs_onboarding = none;
  onboarding_step = none;
  created_at = none;
  updated_at = none;
  bio = none;
  avatar_url = none;
  pronouns = none;
}

-- A store with one user.
abbrev pub ann : AdminUser
ann = user_of "" "Ann" (some "ann@example.org") editor none

abbrev pub stored_ann : AdminUser
stored_ann = user_of "u1" "Ann" (some "ann@example.org") editor none

abbrev pub one_user : Memory
one_user = (create_user "u1" ann empty_memory).1
