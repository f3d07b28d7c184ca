-- ===== src/Memory/Indexing.antt =====
-- What a map from a key to ids owes to the map of users: the laws of an index.
use tinyland_auth.Base.{
  String, ◌==◌, ◌≡◌, ◌↔◌, ◌⊎◌, Option, none, some, if◌then◌else◌, arith, eq_iff, refl, Option-cases,
  inl, inr,
}
use tinyland_auth.Base.Assoc.{
  Assoc, get, put, remove, IsMap, get-put, get-remove, put-IsMap, remove-IsMap,
}

-- `if (key) index.set(key, id)`
abbrev pub enter : Option String → String → Assoc String → Assoc String
enter none id index = index
enter (some k) id index = put k id index

-- `if (key) index.delete(key)`
abbrev pub leave : Option String → Assoc String → Assoc String
leave none index = index
leave (some k) index = remove k index

get-enter :
    (o : Option String) (id k : String) (index : Assoc String)
    → get k (enter o id index)
      ≡ (elim o [ none ↦ get k index | some j ↦ if j == k then some id else get k index ])
get-enter none id k index = refl
get-enter (some j) id k index = get-put j k id index

get-leave :
    (o : Option String) (k : String) (index : Assoc String)
    → IsMap index
    → get k (leave o index)
      ≡ (elim o [ none ↦ get k index | some j ↦ if j == k then none else get k index ])
get-leave none k index im = refl
get-leave (some j) k index im = get-remove j k index im

pub enter-IsMap :
    (o : Option String) (id : String) (index : Assoc String)
    → IsMap index
    → IsMap (enter o id index)
enter-IsMap none id index im = im
enter-IsMap (some k) id index im = put-IsMap k id index im

pub leave-IsMap : (o : Option String) (index : Assoc String) → IsMap index → IsMap (leave o index)
leave-IsMap none index im = im
leave-IsMap (some k) index im = remove-IsMap k index im

module _ {V : Type 0} (key : V → Option String) where
  -- The key of the value that an id has.
  abbrev pub key_of : Option V → Option String
  key_of none = none
  key_of (some u) = key u

  -- The index leads from a key to the id of the value that has the key, and to nothing else.
  abbrev pub IsIndex : Assoc V → Assoc String → Type 0
  IsIndex users index = (k id : String) → (get k index ≡ some id) ↔ (key_of (get id users) ≡ some k)

  pub IsIndex-enter :
      (users : Assoc V) (index : Assoc String) (id : String) (u : V)
      → IsIndex users index
      → get id users ≡ none
      → ((k : String) → key u ≡ some k → get k index ≡ none)
      → IsIndex (put id u users) (enter (key u) id index)
  IsIndex-enter users index id u ix fresh free k j = elim (Option-cases (key u)) [
    | inl e ↦ ground (
      arith,
      get-put id j u users,
      eq_iff id j,
      ix k j,
      ix k id,
      free k,
      get-enter (key u) id k index,
    )
    | inr (x, e) ↦ ground (
      arith,
      get-put id j u users,
      eq_iff id j,
      ix k j,
      ix k id,
      free k,
      get-enter (key u) id k index,
      eq_iff x k,
    )
  ]

  pub IsIndex-leave :
      (users : Assoc V) (index : Assoc String) (id : String) (u : V)
      → IsIndex users index
      → IsMap users
      → IsMap index
      → get id users ≡ some u
      → IsIndex (remove id users) (leave (key u) index)
  IsIndex-leave users index id u ix um im found k j = elim (Option-cases (key u)) [
    | inl e ↦ ground (
      arith,
      get-remove id j users um,
      eq_iff id j,
      ix k j,
      ix k id,
      get-leave (key u) k index im,
    )
    | inr (x, e) ↦ ground (
      arith,
      get-remove id j users um,
      eq_iff id j,
      ix k j,
      ix k id,
      get-leave (key u) k index im,
      eq_iff x k,
    )
  ]

  -- A value replaced by one with another key: the old key leaves the index and the new one enters.
  pub IsIndex-replace :
      (users : Assoc V) (index : Assoc String) (id : String) (old u : V)
      → IsIndex users index
      → IsMap index
      → get id users ≡ some old
      → ((k : String) → key u ≡ some k → (get k index ≡ none) ⊎ (get k index ≡ some id))
      → IsIndex (put id u users) (enter (key u) id (leave (key old) index))
  IsIndex-replace users index id old u ix im found free k j = elim (Option-cases (key u)) [
    | inl e ↦ elim (Option-cases (key old)) [
      | inl f ↦ ground (
        arith,
        get-put id j u users,
        eq_iff id j,
        ix k j,
        ix k id,
        free k,
        get-enter (key u) id k (leave (key old) index),
        get-leave (key old) k index im,
      )
      | inr (y, f) ↦ ground (
        arith,
        get-put id j u users,
        eq_iff id j,
        ix k j,
        ix k id,
        free k,
        get-enter (key u) id k (leave (key old) index),
        get-leave (key old) k index im,
        eq_iff y k,
      )
    ]
    | inr (x, e) ↦ elim (Option-cases (key old)) [
      | inl f ↦ ground (
        arith,
        get-put id j u users,
        eq_iff id j,
        ix k j,
        ix k id,
        free k,
        get-enter (key u) id k (leave (key old) index),
        get-leave (key old) k index im,
        eq_iff x k,
      )
      | inr (y, f) ↦ ground (
        arith,
        get-put id j u users,
        eq_iff id j,
        ix k j,
        ix k id,
        free k,
        get-enter (key u) id k (leave (key old) index),
        get-leave (key old) k index im,
        eq_iff x k,
        eq_iff y k,
      )
    ]
  ]

  -- A value replaced by one with the same key: the index stays.
  pub IsIndex-keep :
      (users : Assoc V) (index : Assoc String) (id : String) (old u : V)
      → IsIndex users index
      → get id users ≡ some old
      → key u ≡ key old
      → IsIndex (put id u users) index
  IsIndex-keep users index id old u ix found same k j =
      ground (arith, get-put id j u users, eq_iff id j, ix k j, ix k id)
