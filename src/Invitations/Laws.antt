-- ===== src/Invitations/Laws.antt =====
-- The life of an invitation over a lawful storage: src/modules/invitation/index.ts.
use tinyland_auth.Base.{
  ℕ, [], ◌∷◌, ◌+◌, ◌*◌, Bool, true, false, String, ◌≡◌, Option, none, some, Result, ok, err, concat,
  ltb, if◌then◌else◌, arith, refl, sym, ap, subst, inl, inr, ◌⊎◌, Bool-cases, Result-cases, ◌∙◌,
}
use tinyland_auth.Types.{Timestamp, at, invalid, before}
use tinyland_auth.Types.Invitations.{
  AdminInvitation, InvitationUpdates, no_invitation_updates, merge_invitation,
}
use tinyland_auth.Invitations.{
  InvitationStorage, InvitationServiceConfig, CreateInvitationOptions, created, not_created,
  add_hours, hours_or, invitation_data, usable, is_used, succeeded, get_invitation, mark_as_used,
  extend_invitation, extend_found, store_expiry, present_invitation, create_invitation,
}

-- The stored invitations, seen as a partial map from tokens; an expired one may not be found.
pub record InvitationLaws {S : Type 0} (st : InvitationStorage S) : Type 1 where
  pub lookup : String → S → Option AdminInvitation
  pub get_reads :
      (now : ℕ) (token : String) (s : S)
      → (st.get_invitation now token s ≡ ok (lookup token s))
        ⊎ ((st.get_invitation now token s ≡ ok none)
            × (i : AdminInvitation) × (lookup token s ≡ some i)
            × (before i.expires_at (at now) ≡ true))
  pub update_merges :
      (token : String) (updates : InvitationUpdates) (s t : S) (j : AdminInvitation)
      → updates.token ≡ none
      → st.update_invitation token updates s ≡ (ok j, t)
      → (i : AdminInvitation) × (lookup token s ≡ some i)
        × (lookup token t ≡ some (merge_invitation i updates))
  pub create_adds :
      (id : String) (data_of : AdminInvitation) (s t : S) (j : AdminInvitation)
      → lookup data_of.token s ≡ none
      → st.create_invitation id data_of s ≡ (ok j, t)
      → (j ≡ record data_of { id = id }) × (lookup data_of.token t ≡ some j)

wrong : ok false ≡ ok true → ⊥
wrong h = ground arith

succeeded_inv :
    {A S : Type 0} (m : Result A × S) (t : S)
    → succeeded m ≡ (ok true, t)
    → (a : A) × (m ≡ (ok a, t))
succeeded_inv (err e, s) t h = absurd (wrong (ap (λ x. x.0) h))
succeeded_inv (ok a, s) t h = (a, ap (λ x. (ok a, x)) (ap (λ x. x.1) h))

not_made : {e : String} {i : AdminInvitation} {a b c : String} → not_created e ≡ created i a b c → ⊥
not_made h = ground arith

made_inj :
    {i j : AdminInvitation} {a b c d e f : String} → created i a b c ≡ created j d e f → i ≡ j
made_inj h = cc

some_of : {A : Type 0} {x y : A} → some x ≡ some y → x ≡ y
some_of h = cc

no_matter : {A : Type 0} (b : Bool) → (if b then (let o : Option A = none in o) else none) ≡ none
no_matter true = refl
no_matter false = refl

present_inv :
    {S : Type 0} (st : InvitationStorage S) (config : InvitationServiceConfig)
    (token secret : String) (m : Result AdminInvitation × S) (t : S) (i : AdminInvitation)
    (url shown qr : String)
    → present_invitation st config token secret m ≡ (created i url shown qr, t)
    → m ≡ (ok i, t)
unfolding present_invitation
present_inv st config token secret (err e, s) t i url shown qr h =
    absurd (not_made (ap (λ x. x.0) h))
present_inv st config token secret (ok j, s) t i url shown qr h =
    elim (Result-cases (
      config.qr_code (concat ("invite-" ∷ j.id ∷ []))
        (concat (config.totp_issuer ∷ " (Invite)" ∷ [])) secret)) [
          | inl (e, f) ↦ absurd (not_made (ap (λ x. x.0) (rw (f, present_invitation) at h)))
          | inr (drawn, f) ↦
              let whole = rw (f, present_invitation) at h in
              ap (λ x. (ok j, x)) (ap (λ x. x.1) whole)
              ∙ ap (λ k. (ok k, t)) (made_inj (ap (λ x. x.0) whole))
        ]

module _ {S : Type 0} (st : InvitationStorage S) (laws : InvitationLaws st) where
  -- `getInvitation` gives the stored invitation unless it is expired or used.
  pub get_invitation_lem :
      (now : ℕ) (token : String) (s : S)
      → get_invitation st now token s ≡ ok (usable now (laws.lookup token s))
  unfolding get_invitation usable
  get_invitation_lem now token s = elim (laws.get_reads now token s) [
    | inl e ↦ rw (e, get_invitation) refl
    | inr (e, i, f, late) ↦ rw (e, get_invitation, f, late) refl
  ]

  -- An invitation that was marked as used is not given again.
  pub used_invitation_gone :
      (now later : ℕ) (token used_by : String) (s t : S)
      → mark_as_used st now token used_by s ≡ (ok true, t)
      → get_invitation st later token t ≡ ok none
  unfolding mark_as_used merge_invitation usable
  used_invitation_gone now later token used_by s t h =
      let (j, updated_so) = succeeded_inv _ t h in
      let (i, _, stored) = laws.update_merges token _ s t j refl updated_so in
      get_invitation_lem later token t ∙ ap ok (rw stored (no_matter _))

  -- An invitation that is created under a new token is given until its hours are over.
  pub created_invitation_found :
      (config : InvitationServiceConfig) (id token secret : String) (now later : ℕ)
      (options : CreateInvitationOptions) (s t : S) (i : AdminInvitation) (url shown qr : String)
      → laws.lookup token s ≡ none
      → create_invitation st config id token secret now options s ≡ (created i url shown qr, t)
      → get_invitation st later token t
        ≡ ok (
            if ltb
              (now + hours_or options.expires_in_hours config.default_expiry_hours * 3600000)
              later
            then none
            else some i)
  unfolding create_invitation invitation_data usable add_hours
  created_invitation_found config id token secret now later options s t i url shown qr fresh h =
      let hours = hours_or options.expires_in_hours config.default_expiry_hours in
      let stored =
        present_inv st config token secret
          (st.create_invitation id (invitation_data now token secret hours options) s) t i url shown
          qr h in
      let (same, there) =
        laws.create_adds id (invitation_data now token secret hours options) s t i fresh stored in
      get_invitation_lem later token t
      ∙ ap ok (rw there (rw (ap (λ x. x.expires_at) same, ap (λ x. x.used_at) same) refl))

  store_expiry_inv :
      (token : String) (x : Timestamp) (s t : S)
      → store_expiry st token x s ≡ (ok true, t)
      → (i : AdminInvitation) × (laws.lookup token s ≡ some i)
        × (laws.lookup token t ≡ some (record i { expires_at = x }))
  unfolding store_expiry merge_invitation
  store_expiry_inv token invalid s t h = absurd (wrong (ap (λ x. x.0) h))
  store_expiry_inv token (at ms) s t h =
      let (j, updated_so) =
        succeeded_inv
          (st.update_invitation token (record no_invitation_updates { expires_at = some (at ms) })
            s)
          t h in
      let (i, found, stored) =
        laws.update_merges token (record no_invitation_updates { expires_at = some (at ms) }) s t j
          refl updated_so in
      (i, found, stored)

  extend_inv :
      (token : String) (hours : ℕ) (found : Option AdminInvitation) (s t : S)
      → laws.lookup token s ≡ found
      → extend_found st token hours found s ≡ (ok true, t)
      → (i : AdminInvitation) × (laws.lookup token s ≡ some i)
        × (is_used i ≡ false)
        × (laws.lookup token t ≡ some (record i { expires_at = add_hours hours i.expires_at }))
  unfolding extend_found
  extend_inv token hours none s t f h = absurd (wrong (ap (λ x. x.0) h))
  extend_inv token hours (some i) s t f h = elim (Bool-cases (is_used i)) [
    | inl u ↦ absurd (wrong (ap (λ x. x.0) (rw (extend_found, u) at h)))
    | inr u ↦
        let (j, read, stored) =
          store_expiry_inv token (add_hours hours i.expires_at) s t (rw (extend_found, u) at h) in
        let same = some_of (sym read ∙ f) in
        (
          i,
          f,
          u,
          subst
              (λ x.
                laws.lookup token t ≡ some (record x { expires_at = add_hours hours i.expires_at }))
              same stored,
        )
  ]

  -- An extension moves the expiry of an unused invitation by its hours and nothing else.
  pub extended_invitation :
      (now hours : ℕ) (token : String) (s t : S)
      → extend_invitation st now token hours s ≡ (ok true, t)
      → (i : AdminInvitation) × (laws.lookup token s ≡ some i)
        × (is_used i ≡ false)
        × (laws.lookup token t ≡ some (record i { expires_at = add_hours hours i.expires_at }))
  unfolding extend_invitation extend_found
  extended_invitation now hours token s t h = elim (laws.get_reads now token s) [
    | inr (e, i, f, late) ↦ absurd (wrong (ap (λ x. x.0) (rw (extend_invitation, e) at h)))
    | inl e ↦ extend_inv token hours (laws.lookup token s) s t refl (rw (extend_invitation, e) at h)
  ]
