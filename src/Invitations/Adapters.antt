-- ===== src/Invitations/Adapters.antt =====
-- Both storage adapters keep the laws of invitations: src/storage/memory.ts and src/storage/file.ts.
use tinyland_auth.Base.{
  ℕ, Bool, true, String, List, [], ◌∷◌, ◌++◌, ◌==◌, ◌≡◌, none, some, Result, ok, err, find, arith,
  refl, sym, ap, subst, inl, inr, ◌⊎◌, Bool-cases, Option-cases, eq_refl, ◌∙◌,
}
use tinyland_auth.Base.Assoc.{get, get-put}
use tinyland_auth.Types.{at, before}
use tinyland_auth.Types.Invitations.{AdminInvitation, InvitationUpdates, merge_invitation}
use tinyland_auth.Memory.{Memory}
use tinyland_auth.Memory.Invitations as MemoryInvitations
use tinyland_auth.File.{Files, Writing, write_json_file, change_first}
use tinyland_auth.File.Invitations as FileInvitations
use tinyland_auth.Bootstrap.Adapters.{succeeding, written_inv}
use tinyland_auth.Invitations.{InvitationStorage}
use tinyland_auth.Invitations.Laws.{InvitationLaws}

abbrev pub memory_invitations : InvitationStorage Memory
memory_invitations = record {
  get_invitation = λ now token m. ok (MemoryInvitations.get_invitation now token m);
  get_all_invitations = λ m. ok (MemoryInvitations.get_all_invitations m);
  get_pending_invitations = λ now m. ok (MemoryInvitations.get_pending_invitations now m);
  create_invitation = λ id data_of m. succeeding (MemoryInvitations.create_invitation id data_of m);
  update_invitation = λ token updates m. MemoryInvitations.update_invitation token updates m;
  delete_invitation = λ token m. succeeding (MemoryInvitations.delete_invitation token m);
  cleanup_expired_invitations =
      λ now m. succeeding (MemoryInvitations.cleanup_expired_invitations now m);
}

abbrev pub file_invitations : Writing → InvitationStorage Files
file_invitations w = record {
  get_invitation = λ now token files. ok (FileInvitations.get_invitation token files);
  get_all_invitations = λ files. ok (FileInvitations.get_all_invitations files);
  get_pending_invitations = λ now files. ok (FileInvitations.get_pending_invitations now files);
  create_invitation = λ id data_of files. FileInvitations.create_invitation w id data_of files;
  update_invitation =
      λ token updates files. FileInvitations.update_invitation w token updates files;
  delete_invitation = λ token files. FileInvitations.delete_invitation w token files;
  cleanup_expired_invitations =
      λ now files. FileInvitations.cleanup_expired_invitations w now files;
}

pub memory_reads :
    (now : ℕ) (token : String) (m : Memory)
    → (memory_invitations.get_invitation now token m ≡ ok (get token m.invitations))
      ⊎ ((memory_invitations.get_invitation now token m ≡ ok none)
          × (i : AdminInvitation) × (get token m.invitations ≡ some i)
          × (before i.expires_at (at now) ≡ true))
unfolding MemoryInvitations.get_invitation
memory_reads now token m = elim (Option-cases (get token m.invitations)) [
  | inl e ↦ inl (rw (e, MemoryInvitations.get_invitation) refl)
  | inr (i, e) ↦ elim (Bool-cases (before i.expires_at (at now))) [
    | inl late ↦ inr (rw (e, MemoryInvitations.get_invitation, late) refl, i, e, late)
    | inr live ↦ inl (rw (e, MemoryInvitations.get_invitation, live) refl)
  ]
]

pub ok_inj : {A : Type 0} {a b : A} → ok a ≡ ok b → a ≡ b
ok_inj h = cc

err_not_ok :
    {A S : Type 0} {e : String} {a : A} {s t : S} (x y : Result A × S)
    → x ≡ (err e, s)
    → y ≡ (ok a, t)
    → x ≡ y
    → ⊥
err_not_ok x y d e h = ground arith

pub memory_updates :
    (token : String) (updates : InvitationUpdates) (s t : Memory) (j : AdminInvitation)
    → updates.token ≡ none
    → MemoryInvitations.update_invitation token updates s ≡ (ok j, t)
    → (i : AdminInvitation) × (get token s.invitations ≡ some i)
      × (get token t.invitations ≡ some (merge_invitation i updates))
unfolding MemoryInvitations.update_invitation
memory_updates token updates s t j same h = elim (Option-cases (get token s.invitations)) [
  | inl e ↦ absurd (err_not_ok _ _ refl refl (rw (e, MemoryInvitations.update_invitation) at h))
  | inr (i, e) ↦ (
    i,
    e,
    subst (λ x. get token x.invitations ≡ some (merge_invitation i updates))
        (ap (λ x. x.1) (rw (e, MemoryInvitations.update_invitation) at h))
        (get-put token token (merge_invitation i updates) s.invitations ∙ rw (eq_refl token) refl),
  )
]

unfoldable pub memory_invitation_laws : InvitationLaws memory_invitations
unfolding MemoryInvitations.create_invitation
memory_invitation_laws = record {
  lookup = λ token m. get token m.invitations;
  get_reads = memory_reads;
  update_merges = memory_updates;
  create_adds = λ id data_of s t j fresh h.
      let made : AdminInvitation = record data_of { id = id } in
      let same = ok_inj (ap (λ x. x.0) h) in
      (
        sym same,
        subst (λ x. get data_of.token x.invitations ≡ some j) (ap (λ x. x.1) h)
            (get-put data_of.token data_of.token made s.invitations
              ∙ (rw (eq_refl data_of.token) (ap some same))),
      );
}

written_value :
    {A : Type 0} (w : Writing) (value a : A) (changed files t : Files)
    → write_json_file w value changed files ≡ (ok a, t)
    → a ≡ value
unfolding write_json_file
written_value w value a changed files t h = elim (Bool-cases w.renamed) [
  | inl r ↦ elim (Bool-cases w.synced) [
    | inl d ↦ sym (ok_inj (ap (λ x. x.0) (rw (r, write_json_file, d) at h)))
    | inr d ↦ ground arith
  ]
  | inr r ↦ ground arith
]

abbrev has_token : String → AdminInvitation → Bool
has_token token i = i.token == token

find_appended :
    (token : String) (is : List AdminInvitation) (i : AdminInvitation)
    → find (has_token token) is ≡ none
    → has_token token i ≡ true
    → find (has_token token) (is ++ i ∷ []) ≡ some i
find_appended token [] i h e = rw e refl
find_appended token (x ∷ xs) i h e = elim (Bool-cases (x.token == token)) [
  | inl f ↦ ground arith
  | inr f ↦ rw f (find_appended token xs i (rw f at h) e)
]

merged_token :
    (updates : InvitationUpdates) (i : AdminInvitation)
    → updates.token ≡ none
    → (merge_invitation i updates).token ≡ i.token
unfolding merge_invitation
merged_token updates i same = rw same refl

some_of : {A : Type 0} {x y : A} → some x ≡ some y → x ≡ y
some_of h = cc

found_now :
    (token : String) (i : AdminInvitation) (is : List AdminInvitation)
    → has_token token i ≡ true
    → find (has_token token) (i ∷ is) ≡ some i
found_now token i is e = rw e refl

find_merged :
    (token : String) (updates : InvitationUpdates) (is : List AdminInvitation) (i : AdminInvitation)
    → updates.token ≡ none
    → find (has_token token) is ≡ some i
    → find (has_token token) (change_first (has_token token) (λ x. merge_invitation x updates) is)
      ≡ some (merge_invitation i updates)
find_merged token updates [] i same h = ground arith
find_merged token updates (x ∷ xs) i same h = elim (Bool-cases (x.token == token)) [
  | inl f ↦ rw f (
      found_now token (merge_invitation x updates) xs
        (ap (λ y. y == token) (merged_token updates x same) ∙ f)
      ∙ ap (λ y. some (merge_invitation y updates)) (some_of (rw f at h)))
  | inr f ↦ rw (f, f) (find_merged token updates xs i same (rw f at h))
]

file_updates :
    (w : Writing) (token : String) (updates : InvitationUpdates) (s t : Files) (j : AdminInvitation)
    → updates.token ≡ none
    → FileInvitations.update_invitation w token updates s ≡ (ok j, t)
    → (i : AdminInvitation) × (find (has_token token) s.invites ≡ some i)
      × (find (has_token token) t.invites ≡ some (merge_invitation i updates))
unfolding FileInvitations.update_invitation
file_updates w token updates s t j same h = elim (Option-cases (find (has_token token) s.invites)) [
  | inl e ↦ absurd (err_not_ok _ _ refl refl (rw (e, FileInvitations.update_invitation) at h))
  | inr (i, e) ↦ (
    i,
    e,
    subst (λ x. find (has_token token) x.invites ≡ some (merge_invitation i updates))
        (sym (
          written_inv w (merge_invitation i updates) j _ s t
            (rw (e, FileInvitations.update_invitation) at h)))
        (find_merged token updates s.invites i same e),
  )
]

pub file_invitation_laws : (w : Writing) → InvitationLaws (file_invitations w)
unfolding FileInvitations.get_invitation FileInvitations.create_invitation
file_invitation_laws w = record {
  lookup = λ token files. find (has_token token) files.invites;
  get_reads = λ now token files. inl refl;
  update_merges = file_updates w;
  create_adds = λ id data_of s t j fresh h.
      let made : AdminInvitation = record data_of { id = id } in
      let same = written_value w made j (record s { invites = s.invites ++ made ∷ [] }) s t h in
      (
        same,
        subst (λ x. find (has_token data_of.token) x.invites ≡ some j)
            (sym (written_inv w made j (record s { invites = s.invites ++ made ∷ [] }) s t h))
            (find_appended data_of.token s.invites made fresh (eq_refl data_of.token)
              ∙ ap some (sym same)),
      );
}
