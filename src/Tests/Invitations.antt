-- ===== src/Tests/Invitations.antt =====
-- The theorems on invitations at concrete inputs: src/modules/invitation/index.ts.
use tinyland_auth.Base.{
  ℕ, ◌+◌, ◌*◌, Bool, true, false, String, List, [], ◌∷◌, ◌==◌, ◌≡◌, Option, none, some, Result, ok,
  ltb, if◌then◌else◌, refl,
}
use tinyland_auth.Roles.{editor}
use tinyland_auth.Types.Invitations.{AdminInvitation}
use tinyland_auth.Memory.{Memory, empty_memory}
use tinyland_auth.Invitations.{
  InvitationServiceConfig, CreateInvitationOptions, CreateInvitationResult, created, Statistics,
  invitation_data, get_invitation, mark_as_used, get_statistics, create_invitation,
}
use tinyland_auth.Invitations.Laws.{used_invitation_gone, created_invitation_found}
use tinyland_auth.Invitations.Counts.{statistics_partition}
use tinyland_auth.Invitations.Adapters.{memory_invitations, memory_invitation_laws}

abbrev config : InvitationServiceConfig
config = record {
  default_expiry_hours = 24;
  base_url = "https://example.org";
  totp_issuer = "app";
  qr_code = λ label issuer secret. ok "data:";
}

abbrev options : CreateInvitationOptions
options = record {
  role = editor;
  created_by = "u1";
  created_by_handle = "ann";
  expires_in_hours = some 2;
  message = none;
  email = none;
}

abbrev invitation : AdminInvitation
invitation = record (invitation_data 10 "tok" "seed" 2 options) { id = "i1" }

abbrev invited : Memory
invited = (create_invitation memory_invitations config "i1" "tok" "seed" 10 options empty_memory).1

abbrev url : String
url = "https://example.org/admin/accept-invite?token=tok"

abbrev spent : Memory
spent = (mark_as_used memory_invitations 20 "tok" "bob" invited).1

creates :
    create_invitation memory_invitations config "i1" "tok" "seed" 10 options empty_memory
    ≡ (created invitation url "seed" "data:", invited)
unfolding tinyland_auth.Invitations.present_invitation tinyland_auth.Invitations.create_invitation
    tinyland_auth.Memory.Invitations.create_invitation
creates = refl

marks : mark_as_used memory_invitations 20 "tok" "bob" invited ≡ (ok true, spent)
unfolding tinyland_auth.Invitations.invitation_data tinyland_auth.Invitations.mark_as_used
    tinyland_auth.Invitations.present_invitation tinyland_auth.Invitations.create_invitation
    tinyland_auth.Memory.Invitations.create_invitation
    tinyland_auth.Memory.Invitations.update_invitation tinyland_auth.Memory.empty_memory
    tinyland_auth.Base.Assoc.get tinyland_auth.Base.Assoc.put
marks = refl

used_invitation_gone_example : get_invitation memory_invitations 30 "tok" spent ≡ ok none
used_invitation_gone_example =
    used_invitation_gone memory_invitations memory_invitation_laws 20 30 "tok" "bob" invited spent
      marks

fresh : memory_invitation_laws.lookup "tok" empty_memory ≡ none
unfolding tinyland_auth.Invitations.Adapters.memory_invitation_laws tinyland_auth.Base.Assoc.get
    tinyland_auth.Memory.empty_memory
fresh = refl

created_invitation_found_example :
    get_invitation memory_invitations 7200010 "tok" invited
    ≡ ok (if ltb (10 + 2 * 3600000) 7200010 then none else some invitation)
created_invitation_found_example =
    created_invitation_found memory_invitations memory_invitation_laws config "i1" "tok" "seed" 10
      7200010 options empty_memory invited invitation url "seed" "data:" fresh creates

lists : memory_invitations.get_all_invitations invited ≡ ok (invitation ∷ [])
unfolding tinyland_auth.Invitations.present_invitation tinyland_auth.Invitations.create_invitation
    tinyland_auth.Memory.Invitations.get_all_invitations
    tinyland_auth.Memory.Invitations.create_invitation tinyland_auth.Memory.empty_memory
    tinyland_auth.Base.Assoc.put tinyland_auth.Base.Assoc.values
lists = refl

dates : tinyland_auth.Base.all tinyland_auth.Invitations.Counts.has_date (invitation ∷ []) ≡ true
unfolding tinyland_auth.Invitations.add_hours tinyland_auth.Invitations.invitation_data
dates = refl

statistics_partition_example :
    (n : Statistics) × (get_statistics memory_invitations 50 invited ≡ ok n)
    × (n.total ≡ n.pending + n.expired + n.used)
statistics_partition_example =
    statistics_partition memory_invitations 50 invited (invitation ∷ []) lists dates
