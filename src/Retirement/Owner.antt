-- ===== src/Retirement/Owner.antt =====
-- The one user that a retirement is about: `owner` of src/storage/file-totp-retirement.ts.
use tinyland_auth.Base.{
  Bool, true, false, ◌&&◌, String, List, [], ◌∷◌, ◌==◌, ◌≡◌, some, ok, filter, find, arith, refl,
  subst, sym, ap, inl, inr, Bool-cases, Option-cases, ◌∙◌,
}
use tinyland_auth.Types.{AdminUser}
use tinyland_auth.File.{Files, change_first}
use tinyland_auth.File.Expected.{sole_owner, is_owner_match}
use tinyland_auth.Retirement.Apply.{owner}

absurd_bool : false ≡ true → ⊥
absurd_bool h = ground arith

cons_inj : {A : Type 0} {x y : A} {xs ys : List A} → x ∷ xs ≡ y ∷ ys → (x ≡ y) × (xs ≡ ys)
cons_inj h = (cc, cc)

abbrev pub has_id : String → AdminUser → Bool
has_id id u = u.id == id

some_inj : {A : Type 0} {x y : A} → some x ≡ some y → x ≡ y
some_inj h = cc

-- The user that is found after a change.
pub find_changed :
    (id : String) (change : AdminUser → AdminUser) (us : List AdminUser) (u : AdminUser)
    → ((x : AdminUser) → has_id id (change x) ≡ has_id id x)
    → find (has_id id) us ≡ some u
    → find (has_id id) (change_first (has_id id) change us) ≡ some (change u)
find_changed id change [] u keeps h = ground arith
find_changed id change (x ∷ xs) u keeps h = elim (Bool-cases (x.id == id)) [
  | inl e ↦ rw e (rw (keeps x) (rw e (ap (λ y. some (change y)) (some_inj (rw e at h)))))
  | inr e ↦ rw e (rw e (find_changed id change xs u keeps (rw e at h)))
]

module _ (user_id handle : String) where
  pub sole_owner_inv :
      (us : List AdminUser) (u : AdminUser)
      → sole_owner user_id handle us ≡ some u
      → (us ≡ u ∷ []) × ((u.id == user_id) ≡ true) × ((u.handle == handle) ≡ true)
  sole_owner_inv [] u h = ground arith
  sole_owner_inv (x ∷ []) u h = elim (Bool-cases (x.id == user_id && x.handle == handle)) [
    | inl e ↦
        let same : x ≡ u = ground arith in
        (
          ap (λ y. y ∷ []) same,
          subst (λ y. (y.id == user_id) ≡ true) same (ground arith),
          subst (λ y. (y.handle == handle) ≡ true) same (ground arith),
        )
    | inr e ↦ ground arith
  ]
  sole_owner_inv (x ∷ y ∷ us) u h = ground arith

  clash :
      (x u : AdminUser) (xs ys : List AdminUser)
      → x ∷ xs ≡ u ∷ ys
      → (u.id == user_id) ≡ true
      → (x.id == user_id) ≡ false
      → ⊥
  clash x u xs ys h e f =
      absurd_bool (sym (subst (λ y. (y.id == user_id) ≡ false) (cons_inj h).0 f) ∙ e)

  -- The user with the id is the one that matches.
  pub find_owner :
      (us : List AdminUser) (u : AdminUser)
      → filter (is_owner_match user_id handle) us ≡ u ∷ []
      → (u.id == user_id) ≡ true
      → find (has_id user_id) us ≡ some u
  find_owner [] u h e = ground arith
  find_owner (x ∷ xs) u h e = elim (Bool-cases (x.id == user_id)) [
    | inl same ↦ rw same (ap some (cons_inj (rw same at h)).0)
    | inr other ↦ elim (Bool-cases (x.handle == handle)) [
      | inl taken ↦ absurd (clash x u _ _ (rw (other, taken) at h) e other)
      | inr free ↦ rw other (find_owner xs u (rw (other, free) at h) e)
    ]
  ]

  -- A change of the user with the id that keeps ids and handles changes the one that matches.
  pub change_owner :
      (change : AdminUser → AdminUser) (us : List AdminUser) (u : AdminUser)
      → ((x : AdminUser)
          → is_owner_match user_id handle (change x) ≡ is_owner_match user_id handle x)
      → filter (is_owner_match user_id handle) us ≡ u ∷ []
      → (u.id == user_id) ≡ true
      → filter (is_owner_match user_id handle) (change_first (has_id user_id) change us)
        ≡ change u ∷ []
  change_owner change [] u keeps h e = ground arith
  change_owner change (x ∷ xs) u keeps h e = elim (Bool-cases (x.id == user_id)) [
    | inl same ↦
        let parts = cons_inj (rw same at h) in
        rw same (rw (keeps x) (rw same (cc (parts.0, parts.1))))
    | inr other ↦ elim (Bool-cases (x.handle == handle)) [
      | inl taken ↦ absurd (clash x u _ _ (rw (other, taken) at h) e other)
      | inr free ↦
          rw other (rw (other, free) (change_owner change xs u keeps (rw (other, free) at h) e))
    ]
  ]

  -- What `owner` gives is the one match.
  pub owner_inv :
      (files : Files) (u : AdminUser)
      → owner user_id handle files ≡ ok u
      → (filter (is_owner_match user_id handle) files.users ≡ u ∷ [])
        × ((u.id == user_id) ≡ true)
        × ((u.handle == handle) ≡ true)
  unfolding owner
  owner_inv files u h =
      elim (Option-cases
        (sole_owner user_id handle (filter (is_owner_match user_id handle) files.users))) [
          | inl e ↦ ground arith
          | inr (w, e) ↦
              sole_owner_inv (filter (is_owner_match user_id handle) files.users) u (ground arith)
        ]

  pub owner_intro :
      (files : Files) (u : AdminUser)
      → filter (is_owner_match user_id handle) files.users ≡ u ∷ []
      → (u.id == user_id) ≡ true
      → (u.handle == handle) ≡ true
      → owner user_id handle files ≡ ok u
  unfolding owner
  owner_intro files u h a b = rw (h, owner, a, b) refl
