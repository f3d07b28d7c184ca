-- ===== src/Memory/Reindex.antt =====
-- The indexes of the user maps, before and after one change: src/storage/memory.ts.
use tinyland_auth.Base.{
  false, String, ◌==◌, ◌≡◌, ◌≢◌, ◌⊎◌, inl, inr, Option, none, some, if◌then◌else◌, arith, eq_iff,
  refl, sym, ◌∙◌, ap, subst, Option-cases, Bool-cases, is_empty, to_lower,
}
use tinyland_auth.Base.Assoc.{Assoc, get, put, remove, IsMap, get-put, get-remove}
use tinyland_auth.Types.{AdminUser, updated, updated_option}
use tinyland_auth.Memory.{given}
use tinyland_auth.Memory.Indexing.{
  IsIndex, enter, leave, IsIndex-replace, IsIndex-keep, enter-IsMap, leave-IsMap,
}
use tinyland_auth.Memory.Lookup.{handle_key, folded, email_key, no_user}
use tinyland_auth.Memory.Users.{
  index_email, unindex_email, reindex_handle, reindex_email, changed_text,
}

some_inj : {A : Type 0} {a b : A} → some a ≡ some b → a ≡ b
some_inj h = cc

pub index_email_lem :
    (email : Option String) (id : String) (index : Assoc String)
    → index_email email id index ≡ enter (folded (given email)) id index
unfolding index_email
index_email_lem email id index = elim (Option-cases (given email)) [
  | inl e ↦ ground arith
  | inr (x, e) ↦ ground arith
]

pub unindex_email_lem :
    (email : Option String) (index : Assoc String)
    → unindex_email email index ≡ leave (folded (given email)) index
unfolding unindex_email
unindex_email_lem email index = elim (Option-cases (given email)) [
  | inl e ↦ ground arith
  | inr (x, e) ↦ ground arith
]

-- Every entry of the map of users stands under its own id, which is not empty.
abbrev pub OwnIds : Assoc AdminUser → Type 0
OwnIds users =
    (id : String) (u : AdminUser) → get id users ≡ some u → (u.id ≡ id) × (is_empty id ≡ false)

pub put-OwnIds :
    (users : Assoc AdminUser) (id : String) (new : AdminUser)
    → new.id ≡ id
    → is_empty id ≡ false
    → OwnIds users
    → OwnIds (put id new users)
put-OwnIds users id new own nonempty ids j u h = elim (Bool-cases (id == j)) [
  | inl e ↦
      let same : id ≡ j = (eq_iff id j).0 e in
      let q : new ≡ u =
        some_inj
          (sym (get-put id j new users ∙ ap (λ b. if b then some new else get j users) e) ∙ h) in
      (subst (λ v. v.id ≡ j) q (own ∙ same), subst (λ i. is_empty i ≡ false) same nonempty)
  | inr e ↦
      ids j u (sym (get-put id j new users ∙ ap (λ b. if b then some new else get j users) e) ∙ h)
]

pub remove-OwnIds :
    (users : Assoc AdminUser) (id : String) → IsMap users → OwnIds users → OwnIds (remove id users)
remove-OwnIds users id um ids j u h = elim (Bool-cases (id == j)) [
  | inl e ↦
      absurd
        (no_user u (sym h ∙ get-remove id j users um ∙ ap (λ b. if b then none else get j users) e))
  | inr e ↦
      ids j u (sym (get-remove id j users um ∙ ap (λ b. if b then none else get j users) e) ∙ h)
]

pub folded_free :
    (email : Option String) (k : String) (index : Assoc String)
    → ((e : String) → given email ≡ some e → get (to_lower e) index ≡ none)
    → folded (given email) ≡ some k
    → get k index ≡ none
folded_free email k index free h = elim (Option-cases (given email)) [
  | inl e ↦ absurd (ground arith)
  | inr (x, e) ↦ ground (arith, free x)
]

changed_none :
    (new : Option String) (old : String)
    → new ≢ some ""
    → changed_text new (some old) ≡ none
    → updated new old ≡ old
unfolding changed_text given
changed_none none old full h = refl
changed_none (some n) old full h = ground (arith, eq_iff n old, eq_iff n "")

changed_some : (new old : Option String) (h : String) → changed_text new old ≡ some h → new ≡ some h
unfolding changed_text given
changed_some new old h e = ground arith

changed_option_none :
    (new old : Option String)
    → new ≢ some ""
    → changed_text new old ≡ none
    → updated_option new old ≡ old
unfolding changed_text given
changed_option_none none old full h = refl
changed_option_none (some n) none full h = ground (arith, eq_iff n "")
changed_option_none (some n) (some o) full h = ground (arith, eq_iff n o, eq_iff n "")

given_full : (h : String) → h ≢ "" → folded (given (some h)) ≡ some (to_lower h)
unfolding given
given_full h full = ground (arith, eq_iff h "")

module _ (users : Assoc AdminUser) (index : Assoc String) (id : String) (user new_user : AdminUser)
    (im : IsMap index) (found : get id users ≡ some user) where
  -- The index stays when the new value changes nothing.
  reindex_handle_same :
      (new : Option String)
      → changed_text new (some user.handle) ≡ none
      → reindex_handle new user id index ≡ index
  unfolding reindex_handle
  reindex_handle_same new e = ground arith

  reindex_handle_moved :
      (new : Option String) (h : String)
      → changed_text new (some user.handle) ≡ some h
      → reindex_handle new user id index ≡ put (to_lower h) id (remove (to_lower user.handle) index)
  unfolding reindex_handle
  reindex_handle_moved new h e = ground arith

  reindex_email_same :
      (new : Option String)
      → changed_text new user.email ≡ none
      → reindex_email new user id index ≡ index
  unfolding reindex_email
  reindex_email_same new e = ground arith

  reindex_email_moved :
      (new : Option String) (h : String)
      → changed_text new user.email ≡ some h
      → reindex_email new user id index ≡ put (to_lower h) id (leave (email_key user) index)
  unfolding reindex_email
  reindex_email_moved new h e = ground (arith, unindex_email_lem user.email index)

  -- The index of handles after an update.
  pub reindex_handle-IsIndex :
      (new : Option String)
      → new_user.handle ≡ updated new user.handle
      → new ≢ some ""
      → IsIndex handle_key users index
      → ((h : String)
          → new ≡ some h
          → (get (to_lower h) index ≡ none) ⊎ (get (to_lower h) index ≡ some id))
      → IsIndex handle_key (put id new_user users) (reindex_handle new user id index)
        × IsMap (reindex_handle new user id index)
  reindex_handle-IsIndex new set full ix free =
      elim (Option-cases (changed_text new (some user.handle))) [
        | inl e ↦
            subst (λ l. IsIndex handle_key (put id new_user users) l × IsMap l)
              (sym (reindex_handle_same new e))
              (
                IsIndex-keep handle_key users index id user new_user ix found
                    (ap (λ h. some (to_lower h)) (set ∙ changed_none new user.handle full e)),
                im,
              )
        | inr (h, e) ↦
            let given_new = changed_some new (some user.handle) h e in
            let key : handle_key new_user ≡ some (to_lower h) =
              ap (λ h. some (to_lower h)) (set ∙ ap (λ o. updated o user.handle) given_new) in
            subst (λ l. IsIndex handle_key (put id new_user users) l × IsMap l)
              (sym (
                reindex_handle_moved new h e
                ∙ ap (λ o. enter o id (leave (handle_key user) index)) (sym key)))
              (
                IsIndex-replace handle_key users index id user new_user ix im found (λ k f.
                    subst (λ j. (get j index ≡ none) ⊎ (get j index ≡ some id))
                      (some_inj (sym key ∙ f)) (free h given_new)),
                enter-IsMap (handle_key new_user) id (leave (handle_key user) index)
                    (leave-IsMap (handle_key user) index im),
              )
      ]

  -- The index of emails after an update.
  pub reindex_email-IsIndex :
      (new : Option String)
      → new_user.email ≡ updated_option new user.email
      → new ≢ some ""
      → IsIndex email_key users index
      → ((h : String)
          → new ≡ some h
          → (get (to_lower h) index ≡ none) ⊎ (get (to_lower h) index ≡ some id))
      → IsIndex email_key (put id new_user users) (reindex_email new user id index)
        × IsMap (reindex_email new user id index)
  reindex_email-IsIndex new set full ix free = elim (Option-cases (changed_text new user.email)) [
    | inl e ↦
        subst (λ l. IsIndex email_key (put id new_user users) l × IsMap l)
          (sym (reindex_email_same new e))
          (
            IsIndex-keep email_key users index id user new_user ix found
                (ap (λ o. folded (given o)) (set ∙ changed_option_none new user.email full e)),
            im,
          )
    | inr (h, e) ↦
        let given_new = changed_some new user.email h e in
        let key : email_key new_user ≡ some (to_lower h) =
          ap (λ o. folded (given o)) (set ∙ ap (λ o. updated_option o user.email) given_new)
          ∙ given_full h (λ q. full (given_new ∙ ap some q)) in
        subst (λ l. IsIndex email_key (put id new_user users) l × IsMap l)
          (sym (
            reindex_email_moved new h e
            ∙ ap (λ o. enter o id (leave (email_key user) index)) (sym key)))
          (
            IsIndex-replace email_key users index id user new_user ix im found (λ k f.
                subst (λ j. (get j index ≡ none) ⊎ (get j index ≡ some id)) (some_inj (sym key ∙ f))
                  (free h given_new)),
            enter-IsMap (email_key new_user) id (leave (email_key user) index)
                (leave-IsMap (email_key user) index im),
          )
  ]
