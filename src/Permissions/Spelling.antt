-- ===== src/Permissions/Spelling.antt =====
-- Normalising the text of a role: src/core/permissions/index.ts.
use tinyland_auth.Base.{String, ◌≡◌, refl, normalize_text_idem, lower_char}
use tinyland_auth.Roles.{AdminRole, super_admin, role_name}
use tinyland_auth.Permissions.Predicates.{normalize_role}

pub normalize_role_idem : (s : String) → normalize_role (normalize_role s) ≡ normalize_role s
unfolding normalize_role
normalize_role_idem s = normalize_text_idem s

-- The text of a role is normal.
pub normalize_role-role_name : (r : AdminRole) → normalize_role (role_name r) ≡ role_name r
unfolding normalize_role role_name lower_char
normalize_role-role_name super_admin = refl
normalize_role-role_name _ = refl
