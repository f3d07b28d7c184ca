-- ===== src/Memory/Lookup.antt =====
-- The invariant of the user maps, and what a lookup by handle or email then finds: src/storage/memory.ts.
use tinyland_auth.Base.{
  false, String, ◌≡◌, ◌↔◌, ◌⊎◌, inl, inr, Option, none, some, arith, sym, ◌∙◌, ap, subst,
  Option-cases, is_empty, to_lower,
}
use tinyland_auth.Base.Assoc.{Assoc, get, IsMap}
use tinyland_auth.Types.{AdminUser}
use tinyland_auth.Memory.{Memory, empty_memory, given}
use tinyland_auth.Memory.Indexing.{IsIndex, key_of}
use tinyland_auth.Memory.Users.{indexed_user, get_user, get_user_by_handle, get_user_by_email}

abbrev pub handle_key : AdminUser → Option String
handle_key u = some (to_lower u.handle)

abbrev pub folded : Option String → Option String
folded none = none
folded (some e) = some (to_lower e)

abbrev pub email_key : AdminUser → Option String
email_key u = folded (given u.email)

-- Each user stands under its own id, and the two indexes lead to the users and nowhere else.
pub record IsIndexed (m : Memory) : Type 0 where
  pub users_map : IsMap m.users
  pub handles_map : IsMap m.users_by_handle
  pub emails_map : IsMap m.users_by_email
  pub own_ids :
      (id : String) (u : AdminUser) → get id m.users ≡ some u → (u.id ≡ id) × (is_empty id ≡ false)
  pub by_handle : IsIndex handle_key m.users m.users_by_handle
  pub by_email : IsIndex email_key m.users m.users_by_email

pub empty_memory-IsIndexed : IsIndexed empty_memory
unfolding empty_memory get IsMap
empty_memory-IsIndexed = record {
  users_map = tt;
  handles_map = tt;
  emails_map = tt;
  own_ids = λ id u h. absurd (ground arith);
  by_handle = λ k id. ground arith;
  by_email = λ k id. ground arith;
}

-- A lookup through an index finds exactly the users with the key.
pub indexed_iff :
    (key : AdminUser → Option String) (m : Memory) (index : Assoc String) (k : String)
    (u : AdminUser)
    → IsIndexed m
    → IsIndex key m.users index
    → (indexed_user (get k index) m ≡ some u) ↔ ((get u.id m.users ≡ some u) × (key u ≡ some k))
unfolding indexed_user given
indexed_iff key m index k u inv ix = (forth, back)
  where
    forth : indexed_user (get k index) m ≡ some u → (get u.id m.users ≡ some u) × (key u ≡ some k)
    forth h = elim (Option-cases (get k index)) [
      | inl e ↦ absurd (ground arith)
      | inr (id, e) ↦
          let found : get id m.users ≡ some u = ground arith in
          let same = (inv.own_ids id u found).0 in
          (
            subst (λ i. get i m.users ≡ some u) (sym same) found,
            subst (λ o. key_of key o ≡ some k) found ((ix k id).0 e),
          )
    ]

    back : (get u.id m.users ≡ some u) × (key u ≡ some k) → indexed_user (get k index) m ≡ some u
    back h =
        let e : get k index ≡ some u.id = (ix k u.id).1 (ap (key_of key) h.0 ∙ h.1) in
        let full = (inv.own_ids u.id u h.0).1 in rw (e, indexed_user, given, full) h.0

no_key : (key : AdminUser → Option String) (k : String) → ¬ (key_of key none ≡ some k)
no_key key k h = ground arith

pub no_user : (u : AdminUser) → ¬ (some u ≡ none)
no_user u h = ground arith

pub index_free :
    (key : AdminUser → Option String) (m : Memory) (index : Assoc String) (k : String)
    → IsIndexed m
    → IsIndex key m.users index
    → indexed_user (get k index) m ≡ none
    → get k index ≡ none
unfolding indexed_user given
index_free key m index k inv ix h = elim (Option-cases (get k index)) [
  | inl e ↦ e
  | inr (id, e) ↦ elim (Option-cases (get id m.users)) [
    | inl f ↦ absurd (no_key key k (sym (ap (key_of key) f) ∙ (ix k id).0 e))
    | inr (u, f) ↦
        absurd (no_user u (sym (rw (e, indexed_user, given, (inv.own_ids id u f).1) f) ∙ h))
  ]
]

-- When whoever is found through an index has the given id, the index leads nowhere or to it.
pub index_owner :
    (key : AdminUser → Option String) (m : Memory) (index : Assoc String) (k id : String)
    → IsIndexed m
    → IsIndex key m.users index
    → ((v : AdminUser) → indexed_user (get k index) m ≡ some v → v.id ≡ id)
    → (get k index ≡ none) ⊎ (get k index ≡ some id)
index_owner key m index k id inv ix own = elim (Option-cases (indexed_user (get k index) m)) [
  | inl e ↦ inl (index_free key m index k inv ix e)
  | inr (v, e) ↦
      let (found, has_key) = (indexed_iff key m index k v inv ix).0 e in
      let leads : get k index ≡ some v.id = (ix k v.id).1 (ap (key_of key) found ∙ has_key) in
      inr (leads ∙ ap some (own v e))
]

-- With the invariant, `getUserByHandle` finds exactly the stored user whose handle is the given
-- one up to case, and `getUserByEmail` exactly the stored user with the given email up to case.
pub lookups_iff :
    (m : Memory) (text : String) (u : AdminUser)
    → IsIndexed m
    → ((get_user_by_handle text m ≡ some u)
        ↔ ((get_user u.id m ≡ some u) × (to_lower u.handle ≡ to_lower text)))
      × ((get_user_by_email text m ≡ some u)
          ↔ ((get_user u.id m ≡ some u) × (email_key u ≡ some (to_lower text))))
unfolding get_user get_user_by_handle get_user_by_email
lookups_iff m text u inv = (
  ground (arith, indexed_iff handle_key m m.users_by_handle (to_lower text) u inv inv.by_handle),
  indexed_iff email_key m m.users_by_email (to_lower text) u inv inv.by_email,
)
