-- ===== src/Tests/Users.antt =====
-- The theorems on users at concrete inputs: src/storage/memory.ts.
use tinyland_auth.Base.{
  String, ◌≡◌, ◌≢◌, ◌↔◌, none, some, refl, sym, ap, ◌∙◌, arith, eq_iff, to_lower, lower_char,
}
use tinyland_auth.Base.Assoc.{get, put}
use tinyland_auth.Types.{AdminUser, UserUpdates}
use tinyland_auth.Memory.{empty_memory, given}
use tinyland_auth.Memory.Users.{
  indexed_user, get_user, get_user_by_handle, get_user_by_email, create_user, update_user,
  index_email, delete_user,
}
use tinyland_auth.Memory.Lookup.{IsIndexed, email_key, empty_memory-IsIndexed, lookups_iff}
use tinyland_auth.Memory.UserLaws.{
  create_user-IsIndexed, delete_user-IsIndexed, update_user-IsIndexed, cleared_email_found,
}
use tinyland_auth.Tests.Samples.{updates_of, ann, stored_ann, one_user}

some_inj : {A : Type 0} {a b : A} → some a ≡ some b → a ≡ b
some_inj h = cc

none-some : (u : AdminUser) → ¬ (none ≡ some u)
none-some u h = ground arith

nobody : (s : String) → get_user_by_handle s empty_memory ≡ none
unfolding get_user_by_handle indexed_user empty_memory get given
nobody s = refl

nobody_mail : (s : String) → get_user_by_email s empty_memory ≡ none
unfolding get_user_by_email indexed_user empty_memory get given
nobody_mail s = refl

no_user : get_user "u1" empty_memory ≡ none
unfolding get_user empty_memory get
no_user = refl

indexed : IsIndexed one_user
indexed =
    create_user-IsIndexed empty_memory "u1" ann empty_memory-IsIndexed refl no_user (nobody "Ann")
      (λ e h. nobody_mail e)

lookups_iff_example :
    ((get_user_by_handle "ANN" one_user ≡ some stored_ann)
      ↔ ((get_user "u1" one_user ≡ some stored_ann) × (to_lower "Ann" ≡ to_lower "ANN")))
    × ((get_user_by_email "ANN" one_user ≡ some stored_ann) ↔ (
        (get_user "u1" one_user ≡ some stored_ann)
        × (email_key stored_ann ≡ some (to_lower "ANN"))))
lookups_iff_example = lookups_iff one_user "ANN" stored_ann indexed

delete_user-IsIndexed_example : IsIndexed (delete_user "u1" one_user).1
delete_user-IsIndexed_example = delete_user-IsIndexed one_user "u1" indexed

-- Ann takes the handle bob and another email.
abbrev moved : UserUpdates
moved = updates_of (some "bob") (some "bob@example.org")

no_bob : get_user_by_handle "bob" one_user ≡ none
unfolding create_user get_user_by_handle indexed_user empty_memory get put given to_lower lower_char
no_bob = refl

no_bob_mail : get_user_by_email "bob@example.org" one_user ≡ none
unfolding create_user get_user_by_email indexed_user empty_memory get put given to_lower index_email
    lower_char
no_bob_mail = refl

handle_there : moved.handle ≢ some ""
handle_there h = ground (arith, eq_iff "bob" "")

mail_there : moved.email ≢ some ""
mail_there h = ground (arith, eq_iff "bob@example.org" "")

bob_free :
    (h : String) (v : AdminUser)
    → moved.handle ≡ some h
    → get_user_by_handle h one_user ≡ some v
    → v.id ≡ "u1"
bob_free h v e f =
    absurd (none-some v (sym no_bob ∙ ap (λ s. get_user_by_handle s one_user) (some_inj e) ∙ f))

bob_mail_free :
    (h : String) (v : AdminUser)
    → moved.email ≡ some h
    → get_user_by_email h one_user ≡ some v
    → v.id ≡ "u1"
bob_mail_free h v e f =
    absurd (none-some v (sym no_bob_mail ∙ ap (λ s. get_user_by_email s one_user) (some_inj e) ∙ f))

update_user-IsIndexed_example : IsIndexed (update_user 5 "u1" moved one_user).1
update_user-IsIndexed_example =
    update_user-IsIndexed one_user 5 "u1" moved indexed handle_there mail_there bob_free
      bob_mail_free

abbrev cleared : UserUpdates
cleared = updates_of none (some "")

finds_ann : get_user_by_email "Ann@example.org" one_user ≡ some stored_ann
unfolding create_user get_user_by_email indexed_user empty_memory get put given to_lower index_email
    lower_char
finds_ann = refl

cleared_email_found_example :
    (v : AdminUser) × (get_user_by_email "Ann@example.org" (update_user 5 "u1" cleared one_user).1
      ≡ some v)
    × (v.email ≡ some "")
cleared_email_found_example =
    cleared_email_found one_user 5 "u1" "Ann@example.org" cleared stored_ann indexed finds_ann refl
      refl
